-- ===== src/Tests/Guards.antt =====
-- Lookups that find nothing, the branches that send nothing, and the check of a connection.
use opnsense_operator.Base.{
  ◌<>◌, ◌≡◌, ◌≢◌, ◌⊎◌, refl, none, ok, true, false, [], ◌∷◌, string_eq, nat_eq,
}
use mathlib.Core.Option.{bind}
use opnsense_operator.Api.{Alias, FirewallRule, is_zero}
use opnsense_operator.Text.Trim.{trim_right, is_slash, trim_space}
use opnsense_operator.Text.Escape.{names_field, query_escape}
use opnsense_operator.Json.{store_fields, store_struct, store_slice, store_items}
use opnsense_operator.Runtime.{Env}
use opnsense_operator.Runtime.Errors.{is}
use opnsense_operator.Runtime.Monad.{World, updated_alias, updated_rule}
use opnsense_operator.Opnsense.Types.{Client}
use opnsense_operator.Opnsense.Decode.{unmarshal}
use opnsense_operator.Opnsense.RuleDecode.{store_rows}
use opnsense_operator.Opnsense.Transport.{
  new_client, request, encode_body, check_request, send_request, read_response, do_json,
}
use opnsense_operator.Opnsense.Aliases.{read_alias_uuid, get_alias_uuid_by_name, get_alias}
use opnsense_operator.Opnsense.Rules.{read_rows, search_rule_by_managed_suffix, get_rule}
use opnsense_operator.Controller.AliasLookup.{missing, resolve_by_name, resolve_external_alias}
use opnsense_operator.Controller.AliasLookup.Missing.{NoAlias, resolve_external_alias-missing}
use opnsense_operator.Controller.RuleLookup.{
  missing as missing_rule, search_phrase, pick, resolve_by_suffix, resolve_external_rule,
}
use opnsense_operator.Controller.RuleLookup.Missing.{NoRule, resolve_external_rule-missing}
use opnsense_operator.Controller.RuleLookup.Phrase.{Occurs, search_phrase-Occurs}
use opnsense_operator.Controller.Convert.{spec_to_rule}
use opnsense_operator.Controller.AliasStatus.{alias_finalizer, finalized}
use opnsense_operator.Controller.RuleStatus.{firewall_rule_finalizer, finalized as finalized_rule}
use opnsense_operator.Controller.AliasReconciler.{reconcile}
use opnsense_operator.Controller.AliasReconciler.Guarded.{reconcile_unheld_alias}
use opnsense_operator.Controller.RuleReconciler.{reconcile as reconcile_rule}
use opnsense_operator.Controller.RuleReconciler.Guarded.{reconcile_unheld_rule}
use opnsense_operator.Controller.ConnectionReconciler.{reconcile as reconcile_connection_key}
use opnsense_operator.Controller.ConnectionReconciler.Verified.{Ended, reconcile-Ended}
use opnsense_operator.Controller.ConnectionReconciler.Protocol.{CheckRun}
use opnsense_operator.Controller.ConnectionReconciler.Runs.{reconcile_connection-CheckRun}
use opnsense_operator.Tests.Objects.{web, connection, web_alias, web_rule, web_rule_spec}
use opnsense_operator.Tests.Cluster.{cluster, cluster-IsForeign, answer, parse_in, contains}

-- Objects that were never created in OPNsense.
abbrev fresh_alias : Alias
fresh_alias = record web_alias {
  status = record { uuid = ""; observed_generation = 0; conditions = [] };
}

abbrev fresh_rule : FirewallRule
fresh_rule = record web_rule {
  status = record { uuid = ""; sequence = ""; observed_generation = 0; conditions = [] };
}

abbrev E : Env
E = cluster fresh_alias fresh_rule

start : World E.State
unfolding cluster
start = record { state = 0; log = [] }

abbrev client : Client
client = new_client "https://fw.example/" "key" "secret" none

no_alias : (resolve_external_alias E client fresh_alias start).0 ≡ missing
unfolding resolve_external_alias resolve_by_name get_alias_uuid_by_name read_alias_uuid is request
    encode_body check_request send_request read_response do_json new_client trim_right is_slash
    trim_space string_eq nat_eq cluster answer start
no_alias = refl

resolve_external_alias-missing_example :
    ((fresh_alias.status.uuid ≡ "") × NoAlias E client "web" start)
    ⊎ ((fresh_alias.status.uuid ≢ "")
        × NoAlias E client "web" (get_alias E client fresh_alias.status.uuid start).1)
resolve_external_alias-missing_example =
    resolve_external_alias-missing E (cluster-IsForeign fresh_alias fresh_rule) client fresh_alias
      start no_alias

no_rule : (resolve_external_rule E client fresh_rule start).0 ≡ missing_rule
unfolding resolve_external_rule resolve_by_suffix pick search_phrase search_rule_by_managed_suffix
    read_rows unmarshal store_rows store_struct store_fields store_slice store_items names_field
    query_escape request encode_body check_request send_request read_response do_json new_client
    trim_right is_slash string_eq nat_eq cluster answer parse_in bind start
no_rule = refl

resolve_external_rule-missing_example :
    ((fresh_rule.status.uuid ≡ "") × NoRule E client (search_phrase fresh_rule) start)
    ⊎ ((fresh_rule.status.uuid ≢ "")
        × NoRule E client
            (search_phrase fresh_rule)
            (get_rule E client fresh_rule.status.uuid start).1)
resolve_external_rule-missing_example =
    resolve_external_rule-missing E client fresh_rule start no_rule

-- The rule `default/web` is found in the description of `default/web-2`.
search_phrase-Occurs_example :
    Occurs
      (search_phrase web_rule)
      (spec_to_rule web_rule_spec "default" ("web" <> "-2")).description
search_phrase-Occurs_example = search_phrase-Occurs web_rule web_rule_spec "-2"

-- Objects that were never seen by the operator.
abbrev free_alias : Alias
free_alias = let m = web_alias.meta in record web_alias { meta = record m { finalizers = [] } }

abbrev free_rule : FirewallRule
free_rule = let m = web_rule.meta in record web_rule { meta = record m { finalizers = [] } }

abbrev F : Env
F = cluster free_alias free_rule

first : World F.State
unfolding cluster
first = record { state = 0; log = [] }

got_free_alias : (F.get_alias web first.state).0 ≡ ok free_alias
unfolding cluster
got_free_alias = refl

got_free_rule : (F.get_rule web first.state).0 ≡ ok free_rule
unfolding cluster
got_free_rule = refl

unheld_alias : F.contains_finalizer free_alias.meta.finalizers alias_finalizer ≡ false
unfolding cluster contains
unheld_alias = refl

unheld_rule : F.contains_finalizer free_rule.meta.finalizers firewall_rule_finalizer ≡ false
unfolding cluster contains
unheld_rule = refl

reconcile_unheld_alias_example :
    ((is_zero free_alias.meta.deletion_timestamp ≡ true)
      × ((reconcile F web first).1.log ≡ updated_alias (finalized F free_alias) ∷ first.log))
    ⊎ ((is_zero free_alias.meta.deletion_timestamp ≡ false)
        × ((reconcile F web first).1.log ≡ first.log))
reconcile_unheld_alias_example =
    reconcile_unheld_alias F free_alias web first got_free_alias unheld_alias

reconcile_unheld_rule_example :
    ((is_zero free_rule.meta.deletion_timestamp ≡ true)
      × ((reconcile_rule F web first).1.log
          ≡ updated_rule (finalized_rule F free_rule) ∷ first.log))
    ⊎ ((is_zero free_rule.meta.deletion_timestamp ≡ false)
        × ((reconcile_rule F web first).1.log ≡ first.log))
reconcile_unheld_rule_example =
    reconcile_unheld_rule F free_rule web first got_free_rule unheld_rule

got_connection : (E.get_connection web start.state).0 ≡ ok connection
unfolding cluster
got_connection = refl

reconcile-Ended_example :
    let w0 = record start { state = (E.get_connection web start.state).1 } in
    let (o, w') = reconcile_connection_key E web start in Ended E connection w0 o w'
reconcile-Ended_example = reconcile-Ended E connection web start got_connection

reconcile_connection-CheckRun_example :
    let (o, w') = reconcile_connection_key E web start in CheckRun E connection start.log o w'.log
reconcile_connection-CheckRun_example =
    reconcile_connection-CheckRun E connection web start got_connection
