-- ===== src/Controller/RuleReconciler/Guarded.antt =====
-- The branches of `Reconcile` for a rule without the finalizer,
-- and for the deletion of one that has no UUID.
use opnsense_operator.Base.{◌≡◌, ◌⊎◌, inl, inr, true, false, ◌∷◌, ok, Bool-cases, arith, string_eq}
use opnsense_operator.Api.{Key, FirewallRule, is_zero}
use opnsense_operator.Runtime.{Env}
use opnsense_operator.Runtime.Monad.{World, updated_rule}
use opnsense_operator.Controller.RuleStatus.{
  firewall_rule_finalizer, finalized, released, add_finalizer, remove_finalizer,
}
use opnsense_operator.Controller.RuleReconciler.{reconcile, reconcile_live, reconcile_delete}

module _ (E : Env) (rule : FirewallRule) (key : Key) (w : World E.State) where
  -- A rule without the finalizer is given it before anything is sent, and where it is already
  -- being deleted nothing is written at all: the finalizer is there before OPNsense is.
  pub reconcile_unheld_rule :
      (E.get_rule key w.state).0 ≡ ok rule
      → E.contains_finalizer rule.meta.finalizers firewall_rule_finalizer ≡ false
      → ((is_zero rule.meta.deletion_timestamp ≡ true)
          × ((reconcile E key w).1.log ≡ updated_rule (finalized E rule) ∷ w.log))
        ⊎ ((is_zero rule.meta.deletion_timestamp ≡ false) × ((reconcile E key w).1.log ≡ w.log))
  unfolding reconcile reconcile_live reconcile_delete add_finalizer
  reconcile_unheld_rule got free = elim (Bool-cases (is_zero rule.meta.deletion_timestamp)) [
    | inl p ↦ inl (p, ground arith)
    | inr p ↦ inr (p, ground arith)
  ]

  -- The deletion of a rule whose status has no UUID sends nothing: it takes the finalizer away,
  -- whether or not an earlier reconcile has created the rule in OPNsense.
  pub reconcile_uncreated_rule :
      (E.get_rule key w.state).0 ≡ ok rule
      → is_zero rule.meta.deletion_timestamp ≡ false
      → E.contains_finalizer rule.meta.finalizers firewall_rule_finalizer ≡ true
      → rule.status.uuid ≡ ""
      → (reconcile E key w).1.log ≡ updated_rule (released E rule) ∷ w.log
  unfolding reconcile reconcile_delete remove_finalizer
  reconcile_uncreated_rule got deleting held created = ground arith
