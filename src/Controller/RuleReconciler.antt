-- ===== src/Controller/RuleReconciler.antt =====
-- `Reconcile` of internal/controller/firewallrule_controller.go, the log lines apart.
pub mod Branches
pub mod Deletion
pub mod Guarded
pub mod Protocol
pub mod Settled
pub mod Publication
pub mod Rejected
pub mod Orphaned
pub mod Quiet
pub mod Sync
use opnsense_operator.Controller.RuleStatus.{
  firewall_rule_finalizer, set_ready_success, failed, remove_finalizer, add_finalizer,
}
use opnsense_operator.Controller.RuleLookup.{
  Resolved, lookup_failed, missing, found, resolve_external_rule,
}
use opnsense_operator.Base.{
  String, Bool, not, ◌&&◌, none, Error, ok, err, Sentinel, ◌==◌, string_eq, nat_eq, if◌then◌else◌,
}
use opnsense_operator.Api.{Key, FirewallRule, is_zero}
use opnsense_operator.Runtime.{Env}
use opnsense_operator.Runtime.Monad.{Step, ask, pure}
use opnsense_operator.Runtime.Plain.{◌>>=◌}
use opnsense_operator.Runtime.Errors.{is}
use opnsense_operator.Opnsense.Types.{Client, FirewallRule as ExternalRule}
use opnsense_operator.Opnsense.Rules.{
  get_rule, create_rule, update_rule, delete_rule, apply_firewall_rules,
}
use opnsense_operator.Controller.Outcome.{Outcome, returns, is_ready}
use opnsense_operator.Controller.Convert.{rule_needs_update, spec_to_rule}
use opnsense_operator.Controller.Connect.{Built, built, refused, build_opnsense_client}

-- The reasons under which a failed creation and a failed update are reported.
unfoldable pub create_reason : Error → String
create_reason e = if is e Sentinel.validation_failed then "ValidationFailed" else "CreateFailed"

unfoldable pub update_reason : Error → String
update_reason e =
    if is e Sentinel.validation_failed
    then "ValidationFailed"
    else if is e Sentinel.firewall_rule_not_found
    then "NotFound"
    else "UpdateFailed"

module _ (E : Env) where
  -- `buildOPNsenseClient`
  abbrev pub build_client : FirewallRule → Step E.State Built
  build_client rule = build_opnsense_client E rule.spec.connection_ref

  -- `ApplyFirewallRules` and what follows it: the rest, or the report of the failure.
  unfoldable pub apply_then : Client → FirewallRule → Step E.State Outcome → Step E.State Outcome
  apply_then c rule rest = do
    r ← apply_firewall_rules E c
    elim r [ err e ↦ failed E rule "ApplyFailed" e | ok u ↦ rest ]

  -- The deletion of a rule that has a UUID, with a client.
  unfoldable pub delete_external : Client → FirewallRule → Step E.State Outcome
  delete_external c rule = do
    r ← delete_rule E c rule.status.uuid
    elim r [
      | ok u ↦ apply_then c rule (remove_finalizer E rule)
      | err e ↦
          if not (is e Sentinel.firewall_rule_not_found)
          then failed E rule "DeleteFailed" e
          else apply_then c rule (remove_finalizer E rule)
    ]

  -- `reconcileDelete`
  unfoldable pub reconcile_delete : FirewallRule → Step E.State Outcome
  reconcile_delete rule =
      if not (E.contains_finalizer rule.meta.finalizers firewall_rule_finalizer)
      then pure (returns none)
      else if rule.status.uuid == ""
      then remove_finalizer E rule
      else do
        b ← build_client rule
        elim b [ refused reason e ↦ failed E rule reason e | built c ↦ delete_external c rule ]

  -- `GetRule` after a write, for the sequence, and the report of the success.
  unfoldable pub record_sequence : Client → FirewallRule → String → Step E.State Outcome
  record_sequence c rule uuid = do
    r ← get_rule E c uuid
    elim r [
      | err e ↦ failed E rule "GetFailed" e
      | ok current ↦ set_ready_success E rule uuid current.sequence
    ]

  -- What the spec asks for.
  abbrev pub desired : FirewallRule → ExternalRule
  desired rule = spec_to_rule rule.spec rule.meta.namespace rule.meta.name

  -- The branch for a rule that OPNsense lacks.
  unfoldable pub create_external : Client → FirewallRule → Step E.State Outcome
  create_external c rule = do
    r ← create_rule E c (desired rule)
    elim r [
      | err e ↦ failed E rule (create_reason e) e
      | ok uuid ↦ apply_then c rule (record_sequence c rule uuid)
    ]

  -- The branch for a rule that differs from the spec.
  unfoldable pub update_external : Client → FirewallRule → String → Step E.State Outcome
  update_external c rule uuid = do
    r ← update_rule E c uuid (desired rule)
    elim r [
      | err e ↦ failed E rule (update_reason e) e
      | ok u ↦ apply_then c rule (record_sequence c rule uuid)
    ]

  -- `rule.Status` already says what a success would write.
  unfoldable pub is_current : FirewallRule → String → String → Bool
  is_current rule uuid sequence =
      rule.status.uuid == uuid
      && rule.status.sequence == sequence
      && rule.status.observed_generation == rule.meta.generation
      && is_ready E rule.status.conditions

  -- The end of `Reconcile`, from the rule that was found.
  unfoldable pub sync_external : Client → FirewallRule → Resolved → Step E.State Outcome
  sync_external c rule (lookup_failed e) = failed E rule "LookupFailed" e
  sync_external c rule missing = create_external c rule
  sync_external c rule (found uuid existing) =
      if rule_needs_update rule.spec rule.meta.namespace rule.meta.name existing
      then update_external c rule uuid
      else if is_current rule uuid existing.sequence
      then pure (returns none)
      else set_ready_success E rule uuid existing.sequence

  -- The branch of `Reconcile` for an object that is not being deleted.
  unfoldable pub reconcile_live : FirewallRule → Step E.State Outcome
  reconcile_live rule =
      if not (E.contains_finalizer rule.meta.finalizers firewall_rule_finalizer)
      then add_finalizer E rule
      else do
        b ← build_client rule
        elim b [
          | refused reason e ↦ failed E rule reason e
          | built c ↦ do resolved ← resolve_external_rule E c rule; sync_external c rule resolved
        ]

  -- `Reconcile`
  unfoldable pub reconcile : Key → Step E.State Outcome
  reconcile key = do
    r ← ask (E.get_rule key)
    elim r [
      | err e ↦ pure (returns (E.ignore_not_found e))
      | ok rule ↦
          if not (is_zero rule.meta.deletion_timestamp)
          then reconcile_delete rule
          else reconcile_live rule
    ]
