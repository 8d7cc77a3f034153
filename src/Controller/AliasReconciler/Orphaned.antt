-- ===== src/Controller/AliasReconciler/Orphaned.antt =====
-- An alias that was created in OPNsense and whose UUID was not stored, and its deletion.
use opnsense_operator.Base.{String, ◌≡◌, true, false, ◌∷◌, Error, ok, err, ap, ◌∙◌}
use opnsense_operator.Api.{Key, Alias, is_zero, condition_false}
use opnsense_operator.Runtime.{Env}
use opnsense_operator.Runtime.Monad.{World, updated_alias, updated_alias_status}
use opnsense_operator.Opnsense.Types.{Client}
use opnsense_operator.Opnsense.Aliases.{create_alias, reconfigure_aliases}
use opnsense_operator.Controller.Outcome.{text_of}
use opnsense_operator.Controller.Convert.{spec_to_alias}
use opnsense_operator.Controller.AliasStatus.{
  alias_finalizer, released, with_ready, set_ready_success,
}
use opnsense_operator.Controller.AliasStatus.Written.{set_ready_failed-log}
use opnsense_operator.Controller.AliasReconciler.{create_external, reconcile}
use opnsense_operator.Controller.AliasReconciler.Branches.{create_external-ok, reconfigure_then-err}
use opnsense_operator.Controller.AliasReconciler.Guarded.{reconcile_uncreated_alias}

module _ (E : Env) (c : Client) (alias : Alias) (w : World E.State) where
  -- The worlds behind the creation, and behind the reconfiguration.
  abbrev pub created_world : World E.State
  created_world = (create_alias E c (spec_to_alias alias.spec) w).1

  abbrev pub reconfigured_world : World E.State
  reconfigured_world = (reconfigure_aliases E c created_world).1

  -- The object that is written when the reconfiguration has failed.
  abbrev pub unconfigured : Error → Alias
  unconfigured e =
      with_ready E reconfigured_world.state alias condition_false "ReconfigureFailed" (text_of E e)

  -- Where the creation of an alias whose status has no UUID has succeeded in OPNsense, and the reconfiguration
  -- behind it has failed, the status that is written last has no UUID either; and every reconcile that
  -- reads an object with this status, the finalizer and a time of deletion sends nothing, for the
  -- alias that was created or any other, and takes the finalizer away.
  pub orphaned_alias :
      (uuid : String) (e : Error) (later : Alias) (key : Key) (v : World E.State)
      → alias.status.uuid ≡ ""
      → (create_alias E c (spec_to_alias alias.spec) w).0 ≡ ok uuid
      → (reconfigure_aliases E c created_world).0 ≡ err e
      → later.status ≡ (unconfigured e).status
      → (E.get_alias key v.state).0 ≡ ok later
      → is_zero later.meta.deletion_timestamp ≡ false
      → E.contains_finalizer later.meta.finalizers alias_finalizer ≡ true
      → ((create_external E c alias w).1.log
          ≡ updated_alias_status (unconfigured e) ∷ reconfigured_world.log)
        × ((unconfigured e).status.uuid ≡ "")
        × ((reconcile E key v).1.log ≡ updated_alias (released E later) ∷ v.log)
  orphaned_alias uuid e later key v new made refused same got deleting held =
      let no_uuid : later.status.uuid ≡ "" = ap (λ s. s.uuid) same ∙ new in
      (
        rw
            (
              create_external-ok E c alias w uuid made,
              reconfigure_then-err E c alias created_world (set_ready_success E alias uuid) e
                  refused,
            )
            (set_ready_failed-log E alias reconfigured_world "ReconfigureFailed" (text_of E e) e),
        new,
        reconcile_uncreated_alias E later key v got deleting held no_uuid,
      )
