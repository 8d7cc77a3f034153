-- ===== src/Controller/AliasStatus.antt =====
-- The finalizer and the status of internal/controller/alias_controller.go.
pub mod Written
use opnsense_operator.Base.{String, Option, none, some, Error, string_eq, nat_eq}
use opnsense_operator.Api.{Alias, condition_true, condition_false}
use opnsense_operator.Runtime.{Env}
use opnsense_operator.Runtime.Monad.{Step, updated_alias, updated_alias_status, tell, pure}
use opnsense_operator.Runtime.Plain.{◌>>=◌}
use opnsense_operator.Controller.Outcome.{Outcome, returns, wrap_some, text_of, ready_condition}

abbrev pub alias_finalizer : String
alias_finalizer = "firewall.opnsense.io/finalizer"

-- `controllerutil.AddFinalizer` and `RemoveFinalizer` on the object.
abbrev pub finalized : Env → Alias → Alias
finalized E alias = record alias {
  meta =
      let m = alias.meta in record m { finalizers = E.add_finalizer m.finalizers alias_finalizer };
}

abbrev pub released : Env → Alias → Alias
released E alias = record alias {
  meta =
      let m = alias.meta in
      record m { finalizers = E.remove_finalizer m.finalizers alias_finalizer };
}

-- The object with its "Ready" condition set.
abbrev pub with_ready : (E : Env) → E.State → Alias → String → String → String → Alias
with_ready E s alias status reason text = record alias {
  status =
      let old = alias.status in
      record old {
        conditions =
            E.set_status_condition s old.conditions
              (ready_condition status reason text alias.meta.generation);
      };
}

-- The object with the fields of its status that a success records.
abbrev pub synced : Alias → String → Alias
synced alias uuid = record alias {
  status =
      let old = alias.status in
      record old { uuid = uuid; observed_generation = alias.meta.generation };
}

module _ (E : Env) where
  unfoldable pub set_ready_condition :
      Alias → String → String → String → Step E.State (Option Error)
  set_ready_condition alias status reason text w =
      let alias' = with_ready E w.state alias status reason text in
      let (e, w') = tell (updated_alias_status alias') (E.update_alias_status alias') w in
      (wrap_some "update Alias status: " e, w')

  unfoldable pub set_ready_failed : Alias → String → String → Error → Step E.State Outcome
  set_ready_failed alias reason text cause = do
    e ← set_ready_condition alias condition_false reason text
    elim e [ some failure ↦ pure (returns (some failure)) | none ↦ pure (returns (some cause)) ]

  unfoldable pub set_ready_success : Alias → String → Step E.State Outcome
  set_ready_success alias uuid = do
    e ←
        set_ready_condition (synced alias uuid) condition_true "AliasReady"
          "Alias is in sync with OPNsense"
    elim e [ some failure ↦ pure (returns (some failure)) | none ↦ pure (returns none) ]

  -- A failure whose message is the text of its cause.
  abbrev pub failed : Alias → String → Error → Step E.State Outcome
  failed alias reason e = set_ready_failed alias reason (text_of E e) e

  -- `RemoveFinalizer` and the `Update` behind it.
  unfoldable pub remove_finalizer : Alias → Step E.State Outcome
  remove_finalizer alias = do
    let alias' = released E alias
    e ← tell (updated_alias alias') (E.update_alias alias')
    pure (returns (wrap_some "remove finalizer: " e))

  unfoldable pub add_finalizer : Alias → Step E.State Outcome
  add_finalizer alias = do
    let alias' = finalized E alias
    e ← tell (updated_alias alias') (E.update_alias alias')
    pure (returns (wrap_some "add finalizer: " e))
