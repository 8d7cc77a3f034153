-- ===== src/Tests/Rules.antt =====
-- Reconciles of one rule that is in sync, and of one that is being deleted.
use opnsense_operator.Base.{
  ◌≡◌, ◌≢◌, ◌⊎◌, refl, none, ok, true, false, [], string_eq, nat_eq, bool_eq,
}
use opnsense_operator.Base.Dict.{lookup, insert, get_or}
use mathlib.Core.Option.{bind}
use opnsense_operator.Text.Trim.{trim_right, is_slash, trim_space}
use opnsense_operator.Text.Escape.{names_field}
use opnsense_operator.Text.Number.{decimal_int, parse_int}
use opnsense_operator.Json.{
  store_string, store_int, store_fields, store_struct, store_entries, store_map,
}
use opnsense_operator.Api.{FirewallRule, is_zero}
use opnsense_operator.Runtime.{Env}
use opnsense_operator.Runtime.Trace.{Extends}
use opnsense_operator.Runtime.Monad.{World}
use opnsense_operator.Opnsense.Types.{Client, FirewallRule as ExternalRule}
use opnsense_operator.Opnsense.Decode.{unmarshal}
use opnsense_operator.Opnsense.RuleDecode.{store_select, store_rule, first_selected, selected_key}
use opnsense_operator.Opnsense.Transport.{
  new_client, request, encode_body, check_request, send_request, read_response, do_json,
}
use opnsense_operator.Opnsense.Rules.{starts_array, from_response, read_rule, get_rule}
use opnsense_operator.Controller.Outcome.{is_ready}
use opnsense_operator.Controller.Reading.{IsRead}
use opnsense_operator.Controller.Convert.{
  managed_suffix, spec_to_rule, fields_differ, rule_needs_update,
}
use opnsense_operator.Controller.Connect.{
  build_http_client, with_secret, with_connection, build_opnsense_client, built,
}
use opnsense_operator.Controller.RuleStatus.{firewall_rule_finalizer}
use opnsense_operator.Controller.RuleLookup.{found, resolve_external_rule}
use opnsense_operator.Controller.RuleReconciler.{
  reconcile, reconcile_live, sync_external, is_current, build_client,
}
use opnsense_operator.Controller.RuleReconciler.Deletion.{
  RemovedLast, Kept, reconcile_deleting_rule,
}
use opnsense_operator.Controller.RuleReconciler.Sync.{
  Synced, got_world, built_world, reconcile_live_rule,
}
use opnsense_operator.Controller.RuleReconciler.Quiet.{IsSettled, reconcile_quiet_rule}
use opnsense_operator.Base.{◌↔◌}
use opnsense_operator.Tests.Objects.{web, web_alias, web_rule, rule_deleted}
use opnsense_operator.Tests.Cluster.{cluster, cluster-IsForeign, answer, parse_in, contains, find}

abbrev E : Env
E = cluster web_alias web_rule

start : World E.State
unfolding cluster
start = record { state = 0; log = [] }

quiet : (reconcile E web start).0.error ≡ none
unfolding reconcile reconcile_live sync_external is_current fields_differ rule_needs_update
    spec_to_rule managed_suffix resolve_external_rule build_http_client with_secret with_connection
    build_opnsense_client is_ready get_rule read_rule from_response selected_key first_selected
    store_rule store_select starts_array new_client request encode_body check_request send_request
    read_response do_json unmarshal store_string store_int store_fields store_struct store_entries
    store_map names_field trim_right is_slash trim_space decimal_int parse_int lookup insert get_or
    string_eq nat_eq bool_eq bind cluster answer parse_in contains find start
quiet = refl

abbrev client : Client
client = new_client "https://fw.example/" "key" "secret" none

abbrev server_rule : ExternalRule
server_rule = record {
  enabled = true;
  action = "pass";
  interface = "wan";
  direction = "in";
  ip_protocol = "inet";
  protocol = "TCP";
  source_net = "any";
  source_not = false;
  source_port = "";
  destination_net = "web";
  destination_not = false;
  destination_port = "443";
  sequence = "10";
  log = false;
  quick = true;
  description = "https [opnsense-operator:default/web]";
}

is_built : (build_client E web_rule (got_world E web_rule web start)).0 ≡ built client
unfolding reconcile reconcile_live sync_external is_current fields_differ rule_needs_update
    spec_to_rule managed_suffix resolve_external_rule build_http_client with_secret with_connection
    build_opnsense_client is_ready get_rule read_rule from_response selected_key first_selected
    store_rule store_select starts_array new_client request encode_body check_request send_request
    read_response do_json unmarshal store_string store_int store_fields store_struct store_entries
    store_map names_field trim_right is_slash trim_space decimal_int parse_int lookup insert get_or
    string_eq nat_eq bool_eq bind cluster answer parse_in contains find start
is_built = refl

is_found :
    (resolve_external_rule E client web_rule (built_world E web_rule web start)).0
    ≡ found "r1" server_rule
unfolding reconcile reconcile_live sync_external is_current fields_differ rule_needs_update
    spec_to_rule managed_suffix resolve_external_rule build_http_client with_secret with_connection
    build_opnsense_client is_ready get_rule read_rule from_response selected_key first_selected
    store_rule store_select starts_array new_client request encode_body check_request send_request
    read_response do_json unmarshal store_string store_int store_fields store_struct store_entries
    store_map names_field trim_right is_slash trim_space decimal_int parse_int lookup insert get_or
    string_eq nat_eq bool_eq bind cluster answer parse_in contains find start
is_found = refl

got : (E.get_rule web start.state).0 ≡ ok web_rule
unfolding cluster
got = refl

held : E.contains_finalizer web_rule.meta.finalizers firewall_rule_finalizer ≡ true
unfolding cluster contains string_eq
held = refl

unchanged :
    rule_needs_update web_rule.spec web_rule.meta.namespace web_rule.meta.name server_rule ≡ false
unfolding rule_needs_update fields_differ spec_to_rule managed_suffix trim_space decimal_int
    string_eq bool_eq
unchanged = refl

current : is_current E web_rule "r1" "10" ≡ true
unfolding is_current is_ready cluster find string_eq nat_eq
current = refl

reconcile_live_rule_example :
    (c : Client) × ((build_client E web_rule (got_world E web_rule web start)).0 ≡ built c)
    × (let r = resolve_external_rule E c web_rule (built_world E web_rule web start) in
        Extends IsRead start.log r.1.log × Synced E c web_rule r.0 r.1 (reconcile E web start).1)
reconcile_live_rule_example = reconcile_live_rule E web_rule web start got refl held quiet

reconcile_quiet_rule_example :
    let looked = (resolve_external_rule E client web_rule (built_world E web_rule web start)).1 in
    ((reconcile E web start).1.log ≡ looked.log) ↔ IsSettled E web_rule "r1" server_rule
reconcile_quiet_rule_example =
    reconcile_quiet_rule E web_rule web start client "r1" server_rule got refl held is_built
      is_found

-- The same rule, deleted.
abbrev gone : FirewallRule
gone = record web_rule { meta = rule_deleted }

abbrev G : Env
G = cluster web_alias gone

last : World G.State
unfolding cluster
last = record { state = 0; log = [] }

got_gone : (G.get_rule web last.state).0 ≡ ok gone
unfolding cluster
got_gone = refl

is_deleted : is_zero gone.meta.deletion_timestamp ≡ false
unfolding nat_eq
is_deleted = refl

held_gone : G.contains_finalizer gone.meta.finalizers firewall_rule_finalizer ≡ true
unfolding cluster contains string_eq
held_gone = refl

is_created : gone.status.uuid ≢ ""
is_created p = absurd (cc)

reconcile_deleting_rule_example :
    let w0 = record last { state = (G.get_rule web last.state).1 } in
    let (o, w') = reconcile G web last in
    ((c : Client) × ((build_client G gone w0).0 ≡ built c)
      × RemovedLast G c gone (build_client G gone w0).1 w')
    ⊎ Kept G gone w0 o w'
reconcile_deleting_rule_example =
    reconcile_deleting_rule G (cluster-IsForeign web_alias gone) gone web last got_gone is_deleted
      held_gone is_created
