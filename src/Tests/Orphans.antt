-- ===== src/Tests/Orphans.antt =====
-- Creations that the server accepts, before it refuses to load them, and the deletions that follow.
use opnsense_operator.Base.{◌≡◌, refl, false, true, ok, err, [], ◌∷◌, suc, Error, string_eq, nat_eq}
use opnsense_operator.Json.{store_struct, store_fields, store_string, Json, str, obj, end, field}
use opnsense_operator.Api.{Alias, FirewallRule, is_zero}
use opnsense_operator.Runtime.{Env}
use opnsense_operator.Runtime.Monad.{
  World, updated_alias, updated_rule, updated_alias_status, updated_rule_status, default_client,
}
use mathlib.Core.Option.{bind}
use opnsense_operator.Text.Escape.{names_field}
use opnsense_operator.Text.Trim.{trim_space}
use opnsense_operator.Opnsense.Decode.{
  unexpected, unmarshal, store_only, result_error, decode_result_response,
}
use opnsense_operator.Opnsense.Transport.{
  request, encode_body, check_request, send_request, read_response, do_json,
}
use opnsense_operator.Opnsense.Types.{Client}
use opnsense_operator.Opnsense.Aliases.{
  create_alias, reconfigure_aliases, read_created, read_reconfigured,
}
use opnsense_operator.Opnsense.Rules.{create_rule, apply_firewall_rules, read_applied}
use opnsense_operator.Controller.Convert.{spec_to_alias}
use opnsense_operator.Controller.AliasStatus.{alias_finalizer, released}
use opnsense_operator.Controller.RuleStatus.{firewall_rule_finalizer, released as released_rule}
use opnsense_operator.Controller.AliasReconciler.{create_external, reconcile}
use opnsense_operator.Controller.AliasReconciler.Orphaned.{
  created_world, reconfigured_world, unconfigured, orphaned_alias,
}
use opnsense_operator.Controller.RuleReconciler.{
  create_external as create_external_rule, reconcile as reconcile_rule, desired,
}
use opnsense_operator.Controller.RuleReconciler.Orphaned.{
  created_world as created_rule_world, applied_world, unapplied, orphaned_rule,
}
use opnsense_operator.Tests.Objects.{web, web_alias, web_rule, deleted, rule_deleted}
use opnsense_operator.Tests.Cluster.{cluster, print, parse_in, contains}

abbrev fresh_alias : Alias
fresh_alias = record web_alias {
  status = record { uuid = ""; observed_generation = 0; conditions = [] };
}

abbrev fresh_rule : FirewallRule
fresh_rule = record web_rule {
  status = record { uuid = ""; sequence = ""; observed_generation = 0; conditions = [] };
}

abbrev saved : Json
saved = obj (field "result" (str "saved") (field "uuid" (str "a9") end))

-- Every request is answered with the acceptance, which has no status.
abbrev Answering : Alias → FirewallRule → Env
unfolding cluster
Answering alias rule = record (cluster alias rule) {
  send = λ h r s. (ok (record { status_code = 200; body = ok (print saved) }), suc s);
  parse = parse_in (saved ∷ []);
}

abbrev client : Client
client = record {
  base_url = "https://fw.example";
  api_key = "key";
  api_secret = "secret";
  http_client = default_client;
}

abbrev not_ok : Error
not_ok = unexpected ": expected reconfigure status ok, got \"\""

abbrev not_applied : Error
not_applied = unexpected ": expected apply status OK, got \"\""

abbrev D : Env
D = Answering fresh_alias fresh_rule

begin : World D.State
unfolding cluster
begin = record { state = 0; log = [] }

-- What is deleted later has the status that was written.
abbrev later_alias : Alias
later_alias = record fresh_alias {
  meta = deleted;
  status = (unconfigured D client fresh_alias begin not_ok).status;
}

abbrev later_rule : FirewallRule
later_rule = record fresh_rule {
  meta = rule_deleted;
  status = (unapplied D client fresh_rule begin not_applied).status;
}

abbrev E : Env
E = Answering later_alias later_rule

start : World E.State
unfolding cluster
start = record { state = 0; log = [] }

accepted_alias : (create_alias E client (spec_to_alias fresh_alias.spec) start).0 ≡ ok "a9"
unfolding cluster start do_json request encode_body check_request send_request read_response
    unmarshal store_struct store_fields store_string store_only names_field result_error
    decode_result_response parse_in trim_space string_eq nat_eq bind create_alias read_created
accepted_alias = refl

not_reconfigured :
    (reconfigure_aliases E client (created_world E client fresh_alias start)).0 ≡ err not_ok
unfolding cluster start do_json request encode_body check_request send_request read_response
    unmarshal store_struct store_fields store_string store_only names_field result_error
    decode_result_response parse_in trim_space string_eq nat_eq bind create_alias read_created
    reconfigure_aliases read_reconfigured
not_reconfigured = refl

same_alias : later_alias.status ≡ (unconfigured E client fresh_alias start not_ok).status
unfolding cluster start begin
same_alias = refl

got_alias : (E.get_alias web start.state).0 ≡ ok later_alias
unfolding cluster
got_alias = refl

is_deleted : is_zero later_alias.meta.deletion_timestamp ≡ false
unfolding nat_eq
is_deleted = refl

held_alias : E.contains_finalizer later_alias.meta.finalizers alias_finalizer ≡ true
unfolding cluster contains string_eq
held_alias = refl

orphaned_alias_example :
    ((create_external E client fresh_alias start).1.log
      ≡ updated_alias_status (unconfigured E client fresh_alias start not_ok)
        ∷ (reconfigured_world E client fresh_alias start).log)
    × ((unconfigured E client fresh_alias start not_ok).status.uuid ≡ "")
    × ((reconcile E web start).1.log ≡ updated_alias (released E later_alias) ∷ start.log)
orphaned_alias_example =
    orphaned_alias E client fresh_alias start "a9" not_ok later_alias web start refl accepted_alias
      not_reconfigured same_alias got_alias is_deleted held_alias

accepted_rule : (create_rule E client (desired E fresh_rule) start).0 ≡ ok "a9"
unfolding cluster start do_json request encode_body check_request send_request read_response
    unmarshal store_struct store_fields store_string store_only names_field result_error
    decode_result_response parse_in trim_space string_eq nat_eq bind create_rule read_created
accepted_rule = refl

not_loaded :
    (apply_firewall_rules E client (created_rule_world E client fresh_rule start)).0
    ≡ err not_applied
unfolding cluster start do_json request encode_body check_request send_request read_response
    unmarshal store_struct store_fields store_string store_only names_field result_error
    decode_result_response parse_in trim_space string_eq nat_eq bind create_rule read_created
    apply_firewall_rules read_applied
not_loaded = refl

same_rule : later_rule.status ≡ (unapplied E client fresh_rule start not_applied).status
unfolding cluster start begin
same_rule = refl

got_rule : (E.get_rule web start.state).0 ≡ ok later_rule
unfolding cluster
got_rule = refl

held_rule : E.contains_finalizer later_rule.meta.finalizers firewall_rule_finalizer ≡ true
unfolding cluster contains string_eq
held_rule = refl

orphaned_rule_example :
    ((create_external_rule E client fresh_rule start).1.log
      ≡ updated_rule_status (unapplied E client fresh_rule start not_applied)
        ∷ (applied_world E client fresh_rule start).log)
    × ((unapplied E client fresh_rule start not_applied).status.uuid ≡ "")
    × ((reconcile_rule E web start).1.log ≡ updated_rule (released_rule E later_rule) ∷ start.log)
orphaned_rule_example =
    orphaned_rule E client fresh_rule start "a9" not_applied later_rule web start refl accepted_rule
      not_loaded same_rule got_rule is_deleted held_rule
