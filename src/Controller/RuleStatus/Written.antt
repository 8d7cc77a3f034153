-- ===== src/Controller/RuleStatus/Written.antt =====
-- What the status functions of the rule reconciler write, and what they return.
use opnsense_operator.Base.{String, ◌≡◌, some, ◌∷◌, Error, inl, inr, arith, Option-cases, refl}
use opnsense_operator.Api.{FirewallRule, condition_true, condition_false}
use opnsense_operator.Runtime.{Env}
use opnsense_operator.Runtime.Monad.{World, updated_rule, updated_rule_status}
use opnsense_operator.Controller.RuleStatus.{
  finalized, released, with_ready, synced, set_ready_condition, set_ready_failed, set_ready_success,
  remove_finalizer, add_finalizer,
}

module _ (E : Env) (rule : FirewallRule) (w : World E.State) where
  pub set_ready_failed-log :
      (reason text : String) (cause : Error)
      → (set_ready_failed E rule reason text cause w).1.log
        ≡ updated_rule_status (with_ready E w.state rule condition_false reason text) ∷ w.log
  unfolding set_ready_failed set_ready_condition
  set_ready_failed-log reason text cause = ground arith

  -- A failure is always returned: the cause, or the failure to report it.
  pub set_ready_failed-error :
      (reason text : String) (cause : Error)
      → (e : Error) × ((set_ready_failed E rule reason text cause w).0.error ≡ some e)
  unfolding set_ready_failed set_ready_condition
  set_ready_failed-error reason text cause =
      let rule' = with_ready E w.state rule condition_false reason text in
      elim (Option-cases (E.update_rule_status rule' w.state).0) [
        | inl p ↦ (cause, ground arith)
        | inr (e, p) ↦ (Error.wrap "update FirewallRule status: " e "", ground arith)
      ]

  pub set_ready_success-log :
      (uuid sequence : String)
      → (set_ready_success E rule uuid sequence w).1.log
        ≡ updated_rule_status (
            with_ready E w.state
              (synced rule uuid sequence)
              condition_true
              "FirewallRuleReady"
              "FirewallRule is in sync with OPNsense")
          ∷ w.log
  unfolding set_ready_success set_ready_condition
  set_ready_success-log uuid sequence = ground arith

  pub remove_finalizer-log :
      (remove_finalizer E rule w).1.log ≡ updated_rule (released E rule) ∷ w.log
  unfolding remove_finalizer
  remove_finalizer-log = refl

  pub add_finalizer-log : (add_finalizer E rule w).1.log ≡ updated_rule (finalized E rule) ∷ w.log
  unfolding add_finalizer
  add_finalizer-log = refl
