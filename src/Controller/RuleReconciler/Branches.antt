-- ===== src/Controller/RuleReconciler/Branches.antt =====
-- The steps of the rule reconciler, one equation for each answer of the call that they begin with.
use opnsense_operator.Base.{
  refl, ◌≡◌, String, true, false, Error, ok, err, Sentinel, arith, ◌≢◌, none,
}
use opnsense_operator.Api.{Key, FirewallRule, is_zero}
use opnsense_operator.Runtime.{Env}
use opnsense_operator.Runtime.Errors.{is}
use opnsense_operator.Runtime.Monad.{World, Step}
use opnsense_operator.Opnsense.Types.{Client, FirewallRule as ExternalRule}
use opnsense_operator.Opnsense.Rules.{delete_rule, apply_firewall_rules, create_rule, update_rule}
use opnsense_operator.Controller.Outcome.{Outcome, returns}
use opnsense_operator.Controller.Convert.{rule_needs_update}
use opnsense_operator.Controller.RuleStatus.{
  firewall_rule_finalizer, failed, remove_finalizer, set_ready_success,
}
use opnsense_operator.Controller.RuleLookup.{resolve_external_rule, found, missing, lookup_failed}
use opnsense_operator.Controller.Connect.{built, refused}
use opnsense_operator.Controller.RuleReconciler.{
  apply_then, delete_external, create_external, update_external, desired, record_sequence,
  create_reason, update_reason, reconcile, reconcile_live, reconcile_delete, build_client,
  sync_external, is_current,
}

module _ (E : Env) (c : Client) (rule : FirewallRule) (w : World E.State) where
  pub apply_then-err :
      (rest : Step E.State Outcome) (e : Error)
      → (apply_firewall_rules E c w).0 ≡ err e
      → apply_then E c rule rest w ≡ failed E rule "ApplyFailed" e (apply_firewall_rules E c w).1
  unfolding apply_then
  apply_then-err rest e p = ground arith

  pub apply_then-ok :
      (rest : Step E.State Outcome) (u : Unit {0})
      → (apply_firewall_rules E c w).0 ≡ ok u
      → apply_then E c rule rest w ≡ rest (apply_firewall_rules E c w).1
  unfolding apply_then
  apply_then-ok rest u p = ground arith

  pub delete_external-ok :
      (u : Unit {0})
      → (delete_rule E c rule.status.uuid w).0 ≡ ok u
      → delete_external E c rule w
        ≡ apply_then E c rule (remove_finalizer E rule) (delete_rule E c rule.status.uuid w).1
  unfolding delete_external
  delete_external-ok u p = ground arith

  pub delete_external-missing :
      (e : Error)
      → (delete_rule E c rule.status.uuid w).0 ≡ err e
      → is e Sentinel.firewall_rule_not_found ≡ true
      → delete_external E c rule w
        ≡ apply_then E c rule (remove_finalizer E rule) (delete_rule E c rule.status.uuid w).1
  unfolding delete_external
  delete_external-missing e p own = ground arith

  pub delete_external-err :
      (e : Error)
      → (delete_rule E c rule.status.uuid w).0 ≡ err e
      → is e Sentinel.firewall_rule_not_found ≡ false
      → delete_external E c rule w
        ≡ failed E rule "DeleteFailed" e (delete_rule E c rule.status.uuid w).1
  unfolding delete_external
  delete_external-err e p other = ground arith

  pub create_external-err :
      (e : Error)
      → (create_rule E c (desired E rule) w).0 ≡ err e
      → create_external E c rule w
        ≡ failed E rule (create_reason e) e (create_rule E c (desired E rule) w).1
  unfolding create_external
  create_external-err e p = ground arith

  pub create_external-ok :
      (uuid : String)
      → (create_rule E c (desired E rule) w).0 ≡ ok uuid
      → create_external E c rule w
        ≡ apply_then E c rule (record_sequence E c rule uuid) (create_rule E c (desired E rule) w).1
  unfolding create_external
  create_external-ok uuid p = ground arith

  pub update_external-err :
      (uuid : String) (e : Error)
      → (update_rule E c uuid (desired E rule) w).0 ≡ err e
      → update_external E c rule uuid w
        ≡ failed E rule (update_reason e) e (update_rule E c uuid (desired E rule) w).1
  unfolding update_external
  update_external-err uuid e p = ground arith

  pub update_external-ok :
      (uuid : String) (u : Unit {0})
      → (update_rule E c uuid (desired E rule) w).0 ≡ ok u
      → update_external E c rule uuid w
        ≡ apply_then E c rule
            (record_sequence E c rule uuid)
            (update_rule E c uuid (desired E rule) w).1
  unfolding update_external
  update_external-ok uuid u p = ground arith

module _ (E : Env) (rule : FirewallRule) (w : World E.State) where
  pub reconcile-deleting :
      (key : Key)
      → (E.get_rule key w.state).0 ≡ ok rule
      → is_zero rule.meta.deletion_timestamp ≡ false
      → reconcile E key w
        ≡ reconcile_delete E rule (record w { state = (E.get_rule key w.state).1 })
  unfolding reconcile
  reconcile-deleting key got deleting = ground arith

  pub reconcile-live :
      (key : Key)
      → (E.get_rule key w.state).0 ≡ ok rule
      → is_zero rule.meta.deletion_timestamp ≡ true
      → reconcile E key w ≡ reconcile_live E rule (record w { state = (E.get_rule key w.state).1 })
  unfolding reconcile
  reconcile-live key got alive = ground arith

  module _ (held : E.contains_finalizer rule.meta.finalizers firewall_rule_finalizer ≡ true) where
    pub reconcile_live-built :
        (c : Client)
        → (build_client E rule w).0 ≡ built c
        → let r = resolve_external_rule E c rule (build_client E rule w).1 in
          reconcile_live E rule w ≡ sync_external E c rule r.0 r.1
    unfolding reconcile_live
    reconcile_live-built c p = ground arith

    pub reconcile_live-refused :
        (reason : String) (e : Error)
        → (build_client E rule w).0 ≡ refused reason e
        → reconcile_live E rule w ≡ failed E rule reason e (build_client E rule w).1
    unfolding reconcile_live
    reconcile_live-refused reason e p = ground arith

    module _ (created : rule.status.uuid ≢ "") where
      pub reconcile_delete-built :
          (c : Client)
          → (build_client E rule w).0 ≡ built c
          → reconcile_delete E rule w ≡ delete_external E c rule (build_client E rule w).1
      unfolding reconcile_delete
      reconcile_delete-built c p = ground arith

      pub reconcile_delete-refused :
          (reason : String) (e : Error)
          → (build_client E rule w).0 ≡ refused reason e
          → reconcile_delete E rule w ≡ failed E rule reason e (build_client E rule w).1
      unfolding reconcile_delete
      reconcile_delete-refused reason e p = ground arith

module _ (E : Env) (c : Client) (rule : FirewallRule) (w : World E.State) (uuid : String)
    (existing : ExternalRule) where
  pub sync_external-update :
      rule_needs_update rule.spec rule.meta.namespace rule.meta.name existing ≡ true
      → sync_external E c rule (found uuid existing) w ≡ update_external E c rule uuid w
  unfolding sync_external
  sync_external-update p = ground arith

  module _
      (same_fields : rule_needs_update rule.spec rule.meta.namespace rule.meta.name existing
        ≡ false) where
    pub sync_external-current :
        is_current E rule uuid existing.sequence ≡ true
        → sync_external E c rule (found uuid existing) w ≡ (returns none, w)
    unfolding sync_external
    sync_external-current q = ground arith

    pub sync_external-report :
        is_current E rule uuid existing.sequence ≡ false
        → sync_external E c rule (found uuid existing) w
          ≡ set_ready_success E rule uuid existing.sequence w
    unfolding sync_external
    sync_external-report q = ground arith

pub sync_external-failed :
    (E : Env) (c : Client) (rule : FirewallRule) (w : World E.State) (e : Error)
    → sync_external E c rule (lookup_failed e) w ≡ failed E rule "LookupFailed" e w
unfolding sync_external
sync_external-failed E c rule w e = refl

pub sync_external-missing :
    (E : Env) (c : Client) (rule : FirewallRule) (w : World E.State)
    → sync_external E c rule missing w ≡ create_external E c rule w
unfolding sync_external
sync_external-missing E c rule w = refl
