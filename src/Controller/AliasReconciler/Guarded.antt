-- ===== src/Controller/AliasReconciler/Guarded.antt =====
-- The branches of `Reconcile` for an alias without the finalizer,
-- and for the deletion of one that has no UUID.
use opnsense_operator.Base.{◌≡◌, ◌⊎◌, inl, inr, true, false, ◌∷◌, ok, Bool-cases, arith, string_eq}
use opnsense_operator.Api.{Key, Alias, is_zero}
use opnsense_operator.Runtime.{Env}
use opnsense_operator.Runtime.Monad.{World, updated_alias}
use opnsense_operator.Controller.AliasStatus.{
  alias_finalizer, finalized, released, add_finalizer, remove_finalizer,
}
use opnsense_operator.Controller.AliasReconciler.{reconcile, reconcile_live, reconcile_delete}

module _ (E : Env) (alias : Alias) (key : Key) (w : World E.State) where
  -- An alias without the finalizer is given it before anything is sent, and where it is already
  -- being deleted nothing is written at all: the finalizer is there before OPNsense is.
  pub reconcile_unheld_alias :
      (E.get_alias key w.state).0 ≡ ok alias
      → E.contains_finalizer alias.meta.finalizers alias_finalizer ≡ false
      → ((is_zero alias.meta.deletion_timestamp ≡ true)
          × ((reconcile E key w).1.log ≡ updated_alias (finalized E alias) ∷ w.log))
        ⊎ ((is_zero alias.meta.deletion_timestamp ≡ false) × ((reconcile E key w).1.log ≡ w.log))
  unfolding reconcile reconcile_live reconcile_delete add_finalizer
  reconcile_unheld_alias got free = elim (Bool-cases (is_zero alias.meta.deletion_timestamp)) [
    | inl p ↦ inl (p, ground arith)
    | inr p ↦ inr (p, ground arith)
  ]

  -- The deletion of an alias whose status has no UUID sends nothing: it takes the finalizer away,
  -- whether or not an earlier reconcile has created the alias in OPNsense.
  pub reconcile_uncreated_alias :
      (E.get_alias key w.state).0 ≡ ok alias
      → is_zero alias.meta.deletion_timestamp ≡ false
      → E.contains_finalizer alias.meta.finalizers alias_finalizer ≡ true
      → alias.status.uuid ≡ ""
      → (reconcile E key w).1.log ≡ updated_alias (released E alias) ∷ w.log
  unfolding reconcile reconcile_delete remove_finalizer
  reconcile_uncreated_alias got deleting held created = ground arith
