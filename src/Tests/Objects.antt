-- ===== src/Tests/Objects.antt =====
-- The objects of the runs, and the documents that the server holds.
use opnsense_operator.Base.{String, true, false, none, some, [], ◌∷◌}
use opnsense_operator.Text.Number.{pos}
use opnsense_operator.Json.{Json, Fields, str, num, obj, end, field}
use opnsense_operator.Api.{
  Key, Condition, ObjectMeta, Secret, SecretReference, ConnectionReference, TlsSpec,
  OpnsenseConnection, Alias, AliasSpec, FirewallRule, FirewallRuleSpec,
}

abbrev pub web : Key
web = record { namespace = "default"; name = "web" }

abbrev pub home : ConnectionReference
home = record { name = "home" }

abbrev pub credentials : SecretReference
credentials = record { namespace = "infra"; name = "credentials" }

abbrev pub ca : SecretReference
ca = record { namespace = "infra"; name = "ca" }

abbrev pub ready : Condition
ready = record {
  type = "Ready";
  status = "True";
  observed_generation = 3;
  last_transition_time = "then";
  reason = "Checked";
  message = "";
}

abbrev pub live : ObjectMeta
live = record {
  namespace = "default";
  name = "web";
  generation = 3;
  deletion_timestamp = none;
  finalizers = "firewall.opnsense.io/finalizer" ∷ [];
}

abbrev pub deleted : ObjectMeta
deleted = record live { deletion_timestamp = some 7 }

-- The same of rules, which have their own finalizer.
abbrev pub rule_live : ObjectMeta
rule_live = record live { finalizers = "firewall.opnsense.io/firewallrule-finalizer" ∷ [] }

abbrev pub rule_deleted : ObjectMeta
rule_deleted = record rule_live { deletion_timestamp = some 7 }

abbrev pub connection : OpnsenseConnection
connection = record {
  meta = record {
    namespace = "";
    name = "home";
    generation = 1;
    deletion_timestamp = none;
    finalizers = [];
  };
  spec = record {
    url = "https://fw.example/";
    credentials = record { secret_ref = credentials };
    tls = none;
  };
  status = record { conditions = ready ∷ [] };
}

abbrev pub secret : Secret
secret = record {
  contents = ("apiKey", "key") ∷ ("apiSecret", "secret") ∷ ("ca.crt", "certificates") ∷ [];
}

abbrev pub pinned : TlsSpec
pinned = record { insecure_skip_verify = true; ca_secret_ref = some ca }

abbrev pub web_alias_spec : AliasSpec
web_alias_spec = record {
  connection_ref = home;
  name = "web";
  type = "host";
  entries = "10.0.0.1" ∷ "10.0.0.2" ∷ [];
  description = "servers";
  enabled = true;
}

abbrev pub web_alias : Alias
web_alias = record {
  meta = live;
  spec = web_alias_spec;
  status = record { uuid = "a1"; observed_generation = 3; conditions = ready ∷ [] };
}

abbrev pub web_rule_spec : FirewallRuleSpec
web_rule_spec = record {
  connection_ref = home;
  enabled = true;
  action = "pass";
  direction = "in";
  interface = "wan";
  ip_protocol = "inet";
  protocol = "TCP";
  source = record { net = "any"; not = false; port = "" };
  destination = record { net = "web"; not = false; port = "443" };
  sequence = some (pos 10);
  quick = true;
  log = false;
  description = "https";
}

abbrev pub web_rule : FirewallRule
web_rule = record {
  meta = rule_live;
  spec = web_rule_spec;
  status = record {
    uuid = "r1";
    sequence = "10";
    observed_generation = 3;
    conditions = ready ∷ [];
  };
}

abbrev pub alias_document : Json
alias_document = obj (
    field "aliases"
      (obj (
        field "alias"
          (obj (
            field "a1"
              (obj (
                field "enabled" (str "1") (
                  field "name" (str "web") (
                    field "type" (str "host") (
                      field "content" (str "10.0.0.1\n10.0.0.2")
                        (field "description" (str "servers") end))))))
              end))
          end))
      end)

-- A select field with one entry, which is selected.
abbrev pub chosen : String → Json
chosen key = obj (field key (obj (field "value" (str key) (field "selected" (num "1") end))) end)

abbrev rule_fields : Fields
rule_fields = field "enabled" (str "1") (
    field "sequence" (str "10") (
      field "action" (chosen "pass") (
        field "interface" (chosen "wan") (
          field "direction" (chosen "in") (
            field "ipprotocol" (chosen "inet") (
              field "protocol" (chosen "TCP") (
                field "source_net" (str "any") (
                  field "source_not" (str "0") (
                    field "source_port" (str "") (
                      field "destination_net" (str "web") (
                        field "destination_not" (str "0") (
                          field "destination_port" (str "443") (
                            field "log" (str "0") (
                              field "quick" (str "1") (
                                field "description" (str "https [opnsense-operator:default/web]")
                                  end)))))))))))))))

abbrev pub rule_document : Json
rule_document = obj (field "rule" (obj rule_fields) end)
