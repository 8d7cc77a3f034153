-- ===== src/Controller/AliasStatus/Written.antt =====
-- What the status functions of the alias reconciler write, and what they return.
use opnsense_operator.Base.{String, ◌≡◌, some, ◌∷◌, Error, inl, inr, arith, Option-cases, refl}
use opnsense_operator.Api.{Alias, condition_true, condition_false}
use opnsense_operator.Runtime.{Env}
use opnsense_operator.Runtime.Monad.{World, updated_alias, updated_alias_status}
use opnsense_operator.Controller.AliasStatus.{
  finalized, released, with_ready, synced, set_ready_condition, set_ready_failed, set_ready_success,
  remove_finalizer, add_finalizer,
}

module _ (E : Env) (alias : Alias) (w : World E.State) where
  pub set_ready_failed-log :
      (reason text : String) (cause : Error)
      → (set_ready_failed E alias reason text cause w).1.log
        ≡ updated_alias_status (with_ready E w.state alias condition_false reason text) ∷ w.log
  unfolding set_ready_failed set_ready_condition
  set_ready_failed-log reason text cause = ground arith

  -- A failure is always returned: the cause, or the failure to report it.
  pub set_ready_failed-error :
      (reason text : String) (cause : Error)
      → (e : Error) × ((set_ready_failed E alias reason text cause w).0.error ≡ some e)
  unfolding set_ready_failed set_ready_condition
  set_ready_failed-error reason text cause =
      let alias' = with_ready E w.state alias condition_false reason text in
      elim (Option-cases (E.update_alias_status alias' w.state).0) [
        | inl p ↦ (cause, ground arith)
        | inr (e, p) ↦ (Error.wrap "update Alias status: " e "", ground arith)
      ]

  pub set_ready_success-log :
      (uuid : String)
      → (set_ready_success E alias uuid w).1.log
        ≡ updated_alias_status (
            with_ready E w.state
              (synced alias uuid)
              condition_true
              "AliasReady"
              "Alias is in sync with OPNsense")
          ∷ w.log
  unfolding set_ready_success set_ready_condition
  set_ready_success-log uuid = ground arith

  pub remove_finalizer-log :
      (remove_finalizer E alias w).1.log ≡ updated_alias (released E alias) ∷ w.log
  unfolding remove_finalizer
  remove_finalizer-log = refl

  pub add_finalizer-log :
      (add_finalizer E alias w).1.log ≡ updated_alias (finalized E alias) ∷ w.log
  unfolding add_finalizer
  add_finalizer-log = refl
