-- ===== src/Controller/AliasReconciler.antt =====
-- `Reconcile` of internal/controller/alias_controller.go, the log lines apart.
pub mod Branches
pub mod Deletion
pub mod Guarded
pub mod Protocol
pub mod Settled
pub mod Publication
pub mod Rejected
pub mod Orphaned
pub mod Quiet
pub mod Sync
use opnsense_operator.Controller.AliasStatus.{
  alias_finalizer, set_ready_success, failed, remove_finalizer, add_finalizer,
}
use opnsense_operator.Controller.AliasLookup.{
  Resolved, lookup_failed, missing, found, resolve_external_alias,
}
use opnsense_operator.Base.{
  String, Bool, not, ◌&&◌, none, Error, ok, err, Sentinel, ◌==◌, string_eq, nat_eq, if◌then◌else◌,
}
use opnsense_operator.Api.{Key, Alias, is_zero}
use opnsense_operator.Runtime.{Env}
use opnsense_operator.Runtime.Monad.{Step, ask, pure}
use opnsense_operator.Runtime.Plain.{◌>>=◌}
use opnsense_operator.Runtime.Errors.{is}
use opnsense_operator.Opnsense.Types.{Client}
use opnsense_operator.Opnsense.Aliases.{
  create_alias, update_alias, delete_alias, reconfigure_aliases,
}
use opnsense_operator.Controller.Outcome.{Outcome, returns, is_ready}
use opnsense_operator.Controller.Convert.{alias_needs_update, spec_to_alias}
use opnsense_operator.Controller.Connect.{Built, built, refused, build_opnsense_client}

-- The reason under which a failed write is reported.
unfoldable pub write_reason : String → Error → String
write_reason otherwise e = if is e Sentinel.validation_failed then "ValidationFailed" else otherwise

module _ (E : Env) where
  -- `buildOPNsenseClient`
  abbrev pub build_client : Alias → Step E.State Built
  build_client alias = build_opnsense_client E alias.spec.connection_ref

  -- `ReconfigureAliases` and what follows it: the rest, or the report of the failure.
  unfoldable pub reconfigure_then : Client → Alias → Step E.State Outcome → Step E.State Outcome
  reconfigure_then c alias rest = do
    r ← reconfigure_aliases E c
    elim r [ err e ↦ failed E alias "ReconfigureFailed" e | ok u ↦ rest ]

  -- The deletion of an alias that has a UUID, with a client.
  unfoldable pub delete_external : Client → Alias → Step E.State Outcome
  delete_external c alias = do
    r ← delete_alias E c alias.status.uuid
    elim r [
      | ok u ↦ reconfigure_then c alias (remove_finalizer E alias)
      | err e ↦
          if not (is e Sentinel.alias_not_found)
          then failed E alias "DeleteFailed" e
          else reconfigure_then c alias (remove_finalizer E alias)
    ]

  -- The branch of `Reconcile` for an object that is being deleted.
  unfoldable pub reconcile_delete : Alias → Step E.State Outcome
  reconcile_delete alias =
      if not (E.contains_finalizer alias.meta.finalizers alias_finalizer)
      then pure (returns none)
      else if alias.status.uuid == ""
      then remove_finalizer E alias
      else do
        b ← build_client alias
        elim b [ refused reason e ↦ failed E alias reason e | built c ↦ delete_external c alias ]

  -- The branch for an alias that OPNsense lacks.
  unfoldable pub create_external : Client → Alias → Step E.State Outcome
  create_external c alias = do
    r ← create_alias E c (spec_to_alias alias.spec)
    elim r [
      | err e ↦ failed E alias (write_reason "CreateFailed" e) e
      | ok uuid ↦ reconfigure_then c alias (set_ready_success E alias uuid)
    ]

  -- The branch for an alias that differs from the spec.
  unfoldable pub update_external : Client → Alias → String → Step E.State Outcome
  update_external c alias uuid = do
    r ← update_alias E c uuid (spec_to_alias alias.spec)
    elim r [
      | err e ↦ failed E alias (write_reason "UpdateFailed" e) e
      | ok u ↦ reconfigure_then c alias (set_ready_success E alias uuid)
    ]

  -- `alias.Status` already says what a success would write.
  unfoldable pub is_current : Alias → String → Bool
  is_current alias uuid =
      alias.status.uuid == uuid
      && alias.status.observed_generation == alias.meta.generation
      && is_ready E alias.status.conditions

  -- The end of `Reconcile`, from the alias that was found.
  unfoldable pub sync_external : Client → Alias → Resolved → Step E.State Outcome
  sync_external c alias (lookup_failed e) = failed E alias "LookupFailed" e
  sync_external c alias missing = create_external c alias
  sync_external c alias (found uuid existing) =
      if alias_needs_update alias.spec existing
      then update_external c alias uuid
      else if is_current alias uuid
      then pure (returns none)
      else set_ready_success E alias uuid

  -- The branch of `Reconcile` for an object that is not being deleted.
  unfoldable pub reconcile_live : Alias → Step E.State Outcome
  reconcile_live alias =
      if not (E.contains_finalizer alias.meta.finalizers alias_finalizer)
      then add_finalizer E alias
      else do
        b ← build_client alias
        elim b [
          | refused reason e ↦ failed E alias reason e
          | built c ↦ do resolved ← resolve_external_alias E c alias; sync_external c alias resolved
        ]

  -- `Reconcile`
  unfoldable pub reconcile : Key → Step E.State Outcome
  reconcile key = do
    r ← ask (E.get_alias key)
    elim r [
      | err e ↦ pure (returns (E.ignore_not_found e))
      | ok alias ↦
          if not (is_zero alias.meta.deletion_timestamp)
          then reconcile_delete alias
          else reconcile_live alias
    ]
