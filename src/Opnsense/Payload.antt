-- ===== src/Opnsense/Payload.antt =====
-- Request bodies: the payload structs, their encoders, and `json.Marshal` on them up to the text.
pub mod Flags
use opnsense_operator.Base.{String, Bool, if◌then◌else◌, ◌==◌, string_eq}
use opnsense_operator.Json.{Json, str, obj, Fields, end, field}
use opnsense_operator.Opnsense.Types.{Alias, FirewallRule}

pub record AliasPayload : Type 0 where
  pub enabled : String
  pub name : String
  pub type : String
  pub content : String
  pub description : String

unfoldable pub encode_alias : Alias → AliasPayload
encode_alias alias = record {
  enabled = if alias.enabled then "1" else "0";
  name = alias.name;
  type = alias.type;
  content = alias.content;
  description = alias.description;
}

pub record FirewallRulePayload : Type 0 where
  pub enabled : String
  pub action : String
  pub interface : String
  pub direction : String
  pub ip_protocol : String
  pub protocol : String
  pub source_net : String
  pub source_not : String
  pub source_port : String
  pub destination_net : String
  pub destination_not : String
  pub destination_port : String
  pub sequence : String
  pub log : String
  pub quick : String
  pub description : String

unfoldable pub bool_to_str : Bool → String
bool_to_str b = if b then "1" else "0"

unfoldable pub encode_firewall_rule : FirewallRule → FirewallRulePayload
encode_firewall_rule rule = record {
  enabled = bool_to_str rule.enabled;
  action = rule.action;
  interface = rule.interface;
  direction = rule.direction;
  ip_protocol = rule.ip_protocol;
  protocol = rule.protocol;
  source_net = rule.source_net;
  source_not = bool_to_str rule.source_not;
  source_port = rule.source_port;
  destination_net = rule.destination_net;
  destination_not = bool_to_str rule.destination_not;
  destination_port = rule.destination_port;
  sequence = rule.sequence;
  log = bool_to_str rule.log;
  quick = bool_to_str rule.quick;
  description = rule.description;
}

-- A field marked `omitempty` is left out when it is empty.
unfoldable pub omit_empty : String → String → Fields → Fields
omit_empty name s rest = if s == "" then rest else field name (str s) rest

unfoldable pub alias_request : AliasPayload → Json
alias_request p = obj (
    field "alias"
      (obj (
        field "enabled" (str p.enabled) (
          field "name" (str p.name) (
            field "type" (str p.type)
              (field "content" (str p.content) (omit_empty "description" p.description end))))))
      end)

unfoldable pub rule_request : FirewallRulePayload → Json
rule_request p = obj (
    field "rule"
      (obj (
        field "enabled" (str p.enabled) (
          field "action" (str p.action) (
            field "interface" (str p.interface) (
              field "direction" (str p.direction) (
                field "ipprotocol" (str p.ip_protocol) (
                  field "protocol" (str p.protocol) (
                    field "source_net" (str p.source_net) (
                      field "source_not" (str p.source_not) (
                        field "source_port" (str p.source_port) (
                          field "destination_net" (str p.destination_net) (
                            field "destination_not" (str p.destination_not) (
                              field "destination_port" (str p.destination_port) (
                                omit_empty "sequence" p.sequence (
                                  field "log" (str p.log) (
                                    field "quick" (str p.quick)
                                      (field "description" (str p.description) end)))))))))))))))))
      end)

-- `map[string]string{}`
abbrev pub empty_object : Json
empty_object = obj end
