-- ===== src/Tests/Aliases.antt =====
-- Reconciles of one alias that is in sync, and of one that is being deleted.
use opnsense_operator.Base.{
  ◌≡◌, ◌≢◌, ◌⊎◌, refl, none, ok, true, false, [], string_eq, nat_eq, bool_eq,
}
use opnsense_operator.Text.{join}
use mathlib.Core.Option.{bind}
use opnsense_operator.Base.Dict.{lookup, insert, get_or}
use opnsense_operator.Text.Trim.{trim_right, is_slash, trim_space}
use opnsense_operator.Text.Escape.{names_field, query_escape}
use opnsense_operator.Json.{store_string, store_fields, store_struct, store_entries, store_map}
use opnsense_operator.Api.{Alias, is_zero}
use opnsense_operator.Runtime.{Env}
use opnsense_operator.Runtime.Trace.{Extends}
use opnsense_operator.Opnsense.Types.{Client, Alias as ExternalAlias}
use opnsense_operator.Controller.Reading.{IsRead}
use opnsense_operator.Controller.AliasStatus.{alias_finalizer}
use opnsense_operator.Controller.AliasReconciler.Deletion.{
  RemovedLast, Kept, reconcile_deleting_alias,
}
use opnsense_operator.Controller.AliasReconciler.Sync.{
  Synced, got_world, built_world, reconcile_live_alias,
}
use opnsense_operator.Runtime.Monad.{World}
use opnsense_operator.Opnsense.Decode.{unmarshal, store_only, store_aliases, store_export}
use opnsense_operator.Opnsense.Transport.{
  new_client, request, encode_body, check_request, send_request, read_response, do_json,
}
use opnsense_operator.Opnsense.Aliases.{
  from_export, read_alias_map, read_alias_data, read_alias, get_alias,
}
use opnsense_operator.Controller.Outcome.{is_ready}
use opnsense_operator.Controller.Convert.{alias_needs_update}
use opnsense_operator.Controller.Connect.{
  build_http_client, with_secret, with_connection, build_opnsense_client, built,
}
use opnsense_operator.Controller.AliasLookup.{found, resolve_external_alias}
use opnsense_operator.Controller.AliasReconciler.{
  reconcile, reconcile_live, sync_external, is_current, build_client,
}
use opnsense_operator.Controller.AliasReconciler.Quiet.{IsSettled, reconcile_quiet_alias}
use opnsense_operator.Base.{◌↔◌}
use opnsense_operator.Tests.Objects.{web, web_alias, web_rule, deleted}
use opnsense_operator.Tests.Cluster.{cluster, cluster-IsForeign, answer, parse_in, contains, find}

abbrev E : Env
E = cluster web_alias web_rule

start : World E.State
unfolding cluster
start = record { state = 0; log = [] }

quiet : (reconcile E web start).0.error ≡ none
unfolding reconcile reconcile_live sync_external is_current alias_needs_update
    resolve_external_alias build_http_client with_secret with_connection build_opnsense_client
    is_ready get_alias read_alias read_alias_data read_alias_map from_export new_client request
    encode_body check_request send_request read_response do_json unmarshal store_only store_aliases
    store_export store_string store_fields store_struct store_entries store_map query_escape
    names_field trim_right is_slash trim_space lookup insert get_or string_eq nat_eq bool_eq join
    bind cluster answer parse_in contains find start
quiet = refl

abbrev client : Client
client = new_client "https://fw.example/" "key" "secret" none

abbrev server_alias : ExternalAlias
server_alias = record {
  enabled = true;
  name = "web";
  type = "host";
  content = "10.0.0.1\n10.0.0.2";
  description = "servers";
}

is_built : (build_client E web_alias (got_world E web_alias web start)).0 ≡ built client
unfolding reconcile reconcile_live sync_external is_current alias_needs_update
    resolve_external_alias build_http_client with_secret with_connection build_opnsense_client
    is_ready get_alias read_alias read_alias_data read_alias_map from_export new_client request
    encode_body check_request send_request read_response do_json unmarshal store_only store_aliases
    store_export store_string store_fields store_struct store_entries store_map query_escape
    names_field trim_right is_slash trim_space lookup insert get_or string_eq nat_eq bool_eq join
    bind cluster answer parse_in contains find start
is_built = refl

is_found :
    (resolve_external_alias E client web_alias (built_world E web_alias web start)).0
    ≡ found "a1" server_alias
unfolding reconcile reconcile_live sync_external is_current alias_needs_update
    resolve_external_alias build_http_client with_secret with_connection build_opnsense_client
    is_ready get_alias read_alias read_alias_data read_alias_map from_export new_client request
    encode_body check_request send_request read_response do_json unmarshal store_only store_aliases
    store_export store_string store_fields store_struct store_entries store_map query_escape
    names_field trim_right is_slash trim_space lookup insert get_or string_eq nat_eq bool_eq join
    bind cluster answer parse_in contains find start
is_found = refl

got : (E.get_alias web start.state).0 ≡ ok web_alias
unfolding cluster
got = refl

held : E.contains_finalizer web_alias.meta.finalizers alias_finalizer ≡ true
unfolding cluster contains string_eq
held = refl

unchanged : alias_needs_update web_alias.spec server_alias ≡ false
unfolding alias_needs_update join string_eq bool_eq
unchanged = refl

current : is_current E web_alias "a1" ≡ true
unfolding is_current is_ready cluster find string_eq nat_eq
current = refl

reconcile_live_alias_example :
    (c : Client) × ((build_client E web_alias (got_world E web_alias web start)).0 ≡ built c)
    × (let r = resolve_external_alias E c web_alias (built_world E web_alias web start) in
        Extends IsRead start.log r.1.log × Synced E c web_alias r.0 r.1 (reconcile E web start).1)
reconcile_live_alias_example = reconcile_live_alias E web_alias web start got refl held quiet

reconcile_quiet_alias_example :
    let looked =
      (resolve_external_alias E client web_alias (built_world E web_alias web start)).1 in
    ((reconcile E web start).1.log ≡ looked.log) ↔ IsSettled E web_alias "a1" server_alias
reconcile_quiet_alias_example =
    reconcile_quiet_alias E web_alias web start client "a1" server_alias got refl held is_built
      is_found

-- The same alias, deleted.
abbrev gone : Alias
gone = record web_alias { meta = deleted }

abbrev G : Env
G = cluster gone web_rule

last : World G.State
unfolding cluster
last = record { state = 0; log = [] }

got_gone : (G.get_alias web last.state).0 ≡ ok gone
unfolding cluster
got_gone = refl

is_deleted : is_zero gone.meta.deletion_timestamp ≡ false
unfolding nat_eq
is_deleted = refl

held_gone : G.contains_finalizer gone.meta.finalizers alias_finalizer ≡ true
unfolding cluster contains string_eq
held_gone = refl

is_created : gone.status.uuid ≢ ""
is_created p = absurd (cc)

reconcile_deleting_alias_example :
    let w0 = record last { state = (G.get_alias web last.state).1 } in
    let (o, w') = reconcile G web last in
    ((c : Client) × ((build_client G gone w0).0 ≡ built c)
      × RemovedLast G c gone (build_client G gone w0).1 w')
    ⊎ Kept G gone w0 o w'
reconcile_deleting_alias_example =
    reconcile_deleting_alias G (cluster-IsForeign gone web_rule) gone web last got_gone is_deleted
      held_gone is_created
