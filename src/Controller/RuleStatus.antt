-- ===== src/Controller/RuleStatus.antt =====
-- The finalizer and the status of internal/controller/firewallrule_controller.go.
pub mod Written
use opnsense_operator.Base.{String, Option, none, some, Error, string_eq, nat_eq}
use opnsense_operator.Api.{FirewallRule, condition_true, condition_false}
use opnsense_operator.Runtime.{Env}
use opnsense_operator.Runtime.Monad.{Step, updated_rule, updated_rule_status, tell, pure}
use opnsense_operator.Runtime.Plain.{◌>>=◌}
use opnsense_operator.Controller.Outcome.{Outcome, returns, wrap_some, text_of, ready_condition}

abbrev pub firewall_rule_finalizer : String
firewall_rule_finalizer = "firewall.opnsense.io/firewallrule-finalizer"

-- `controllerutil.AddFinalizer` and `RemoveFinalizer` on the object.
abbrev pub finalized : Env → FirewallRule → FirewallRule
finalized E rule = record rule {
  meta =
      let m = rule.meta in
      record m { finalizers = E.add_finalizer m.finalizers firewall_rule_finalizer };
}

abbrev pub released : Env → FirewallRule → FirewallRule
released E rule = record rule {
  meta =
      let m = rule.meta in
      record m { finalizers = E.remove_finalizer m.finalizers firewall_rule_finalizer };
}

-- The object with its "Ready" condition set.
abbrev pub with_ready : (E : Env) → E.State → FirewallRule → String → String → String → FirewallRule
with_ready E s rule status reason text = record rule {
  status =
      let old = rule.status in
      record old {
        conditions =
            E.set_status_condition s old.conditions
              (ready_condition status reason text rule.meta.generation);
      };
}

-- The object with the fields of its status that a success records.
abbrev pub synced : FirewallRule → String → String → FirewallRule
synced rule uuid sequence = record rule {
  status =
      let old = rule.status in
      record old { uuid = uuid; sequence = sequence; observed_generation = rule.meta.generation };
}

module _ (E : Env) where
  unfoldable pub set_ready_condition :
      FirewallRule → String → String → String → Step E.State (Option Error)
  set_ready_condition rule status reason text w =
      let rule' = with_ready E w.state rule status reason text in
      let (e, w') = tell (updated_rule_status rule') (E.update_rule_status rule') w in
      (wrap_some "update FirewallRule status: " e, w')

  unfoldable pub set_ready_failed : FirewallRule → String → String → Error → Step E.State Outcome
  set_ready_failed rule reason text cause = do
    e ← set_ready_condition rule condition_false reason text
    elim e [ some failure ↦ pure (returns (some failure)) | none ↦ pure (returns (some cause)) ]

  unfoldable pub set_ready_success : FirewallRule → String → String → Step E.State Outcome
  set_ready_success rule uuid sequence = do
    e ←
        set_ready_condition (synced rule uuid sequence) condition_true "FirewallRuleReady"
          "FirewallRule is in sync with OPNsense"
    elim e [ some failure ↦ pure (returns (some failure)) | none ↦ pure (returns none) ]

  -- A failure whose message is the text of its cause.
  abbrev pub failed : FirewallRule → String → Error → Step E.State Outcome
  failed rule reason e = set_ready_failed rule reason (text_of E e) e

  -- `RemoveFinalizer` and the `Update` behind it.
  unfoldable pub remove_finalizer : FirewallRule → Step E.State Outcome
  remove_finalizer rule = do
    let rule' = released E rule
    e ← tell (updated_rule rule') (E.update_rule rule')
    pure (returns (wrap_some "remove finalizer: " e))

  unfoldable pub add_finalizer : FirewallRule → Step E.State Outcome
  add_finalizer rule = do
    let rule' = finalized E rule
    e ← tell (updated_rule rule') (E.update_rule rule')
    pure (returns (wrap_some "add finalizer: " e))
