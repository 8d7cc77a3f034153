-- ===== src/Controller/AliasReconciler/Branches.antt =====
-- The steps of the alias reconciler, one equation for each answer of the call that they begin with.
use opnsense_operator.Base.{
  refl, ◌≡◌, String, true, false, Error, ok, err, Sentinel, arith, ◌≢◌, none,
}
use opnsense_operator.Api.{Key, Alias, is_zero}
use opnsense_operator.Runtime.{Env}
use opnsense_operator.Runtime.Errors.{is}
use opnsense_operator.Runtime.Monad.{World, Step}
use opnsense_operator.Opnsense.Types.{Client, Alias as ExternalAlias}
use opnsense_operator.Opnsense.Aliases.{
  delete_alias, reconfigure_aliases, create_alias, update_alias,
}
use opnsense_operator.Controller.Outcome.{Outcome, returns}
use opnsense_operator.Controller.Convert.{spec_to_alias, alias_needs_update}
use opnsense_operator.Controller.AliasStatus.{
  alias_finalizer, failed, remove_finalizer, set_ready_success,
}
use opnsense_operator.Controller.AliasLookup.{resolve_external_alias, found, missing, lookup_failed}
use opnsense_operator.Controller.Connect.{built, refused}
use opnsense_operator.Controller.AliasReconciler.{
  reconfigure_then, delete_external, create_external, update_external, write_reason, reconcile,
  reconcile_live, reconcile_delete, build_client, sync_external, is_current,
}

module _ (E : Env) (c : Client) (alias : Alias) (w : World E.State) where
  pub reconfigure_then-err :
      (rest : Step E.State Outcome) (e : Error)
      → (reconfigure_aliases E c w).0 ≡ err e
      → reconfigure_then E c alias rest w
        ≡ failed E alias "ReconfigureFailed" e (reconfigure_aliases E c w).1
  unfolding reconfigure_then
  reconfigure_then-err rest e p = ground arith

  pub reconfigure_then-ok :
      (rest : Step E.State Outcome) (u : Unit {0})
      → (reconfigure_aliases E c w).0 ≡ ok u
      → reconfigure_then E c alias rest w ≡ rest (reconfigure_aliases E c w).1
  unfolding reconfigure_then
  reconfigure_then-ok rest u p = ground arith

  pub delete_external-ok :
      (u : Unit {0})
      → (delete_alias E c alias.status.uuid w).0 ≡ ok u
      → delete_external E c alias w
        ≡ reconfigure_then E c alias
            (remove_finalizer E alias)
            (delete_alias E c alias.status.uuid w).1
  unfolding delete_external
  delete_external-ok u p = ground arith

  pub delete_external-missing :
      (e : Error)
      → (delete_alias E c alias.status.uuid w).0 ≡ err e
      → is e Sentinel.alias_not_found ≡ true
      → delete_external E c alias w
        ≡ reconfigure_then E c alias
            (remove_finalizer E alias)
            (delete_alias E c alias.status.uuid w).1
  unfolding delete_external
  delete_external-missing e p own = ground arith

  pub delete_external-err :
      (e : Error)
      → (delete_alias E c alias.status.uuid w).0 ≡ err e
      → is e Sentinel.alias_not_found ≡ false
      → delete_external E c alias w
        ≡ failed E alias "DeleteFailed" e (delete_alias E c alias.status.uuid w).1
  unfolding delete_external
  delete_external-err e p other = ground arith

  pub create_external-err :
      (e : Error)
      → (create_alias E c (spec_to_alias alias.spec) w).0 ≡ err e
      → create_external E c alias w
        ≡ failed E alias
            (write_reason "CreateFailed" e)
            e
            (create_alias E c (spec_to_alias alias.spec) w).1
  unfolding create_external
  create_external-err e p = ground arith

  pub create_external-ok :
      (uuid : String)
      → (create_alias E c (spec_to_alias alias.spec) w).0 ≡ ok uuid
      → create_external E c alias w
        ≡ reconfigure_then E c alias
            (set_ready_success E alias uuid)
            (create_alias E c (spec_to_alias alias.spec) w).1
  unfolding create_external
  create_external-ok uuid p = ground arith

  pub update_external-err :
      (uuid : String) (e : Error)
      → (update_alias E c uuid (spec_to_alias alias.spec) w).0 ≡ err e
      → update_external E c alias uuid w
        ≡ failed E alias
            (write_reason "UpdateFailed" e)
            e
            (update_alias E c uuid (spec_to_alias alias.spec) w).1
  unfolding update_external
  update_external-err uuid e p = ground arith

  pub update_external-ok :
      (uuid : String) (u : Unit {0})
      → (update_alias E c uuid (spec_to_alias alias.spec) w).0 ≡ ok u
      → update_external E c alias uuid w
        ≡ reconfigure_then E c alias
            (set_ready_success E alias uuid)
            (update_alias E c uuid (spec_to_alias alias.spec) w).1
  unfolding update_external
  update_external-ok uuid u p = ground arith

module _ (E : Env) (alias : Alias) (w : World E.State) where
  pub reconcile-deleting :
      (key : Key)
      → (E.get_alias key w.state).0 ≡ ok alias
      → is_zero alias.meta.deletion_timestamp ≡ false
      → reconcile E key w
        ≡ reconcile_delete E alias (record w { state = (E.get_alias key w.state).1 })
  unfolding reconcile
  reconcile-deleting key got deleting = ground arith

  pub reconcile-live :
      (key : Key)
      → (E.get_alias key w.state).0 ≡ ok alias
      → is_zero alias.meta.deletion_timestamp ≡ true
      → reconcile E key w
        ≡ reconcile_live E alias (record w { state = (E.get_alias key w.state).1 })
  unfolding reconcile
  reconcile-live key got alive = ground arith

  module _ (held : E.contains_finalizer alias.meta.finalizers alias_finalizer ≡ true) where
    pub reconcile_live-built :
        (c : Client)
        → (build_client E alias w).0 ≡ built c
        → let r = resolve_external_alias E c alias (build_client E alias w).1 in
          reconcile_live E alias w ≡ sync_external E c alias r.0 r.1
    unfolding reconcile_live
    reconcile_live-built c p = ground arith

    pub reconcile_live-refused :
        (reason : String) (e : Error)
        → (build_client E alias w).0 ≡ refused reason e
        → reconcile_live E alias w ≡ failed E alias reason e (build_client E alias w).1
    unfolding reconcile_live
    reconcile_live-refused reason e p = ground arith

    module _ (created : alias.status.uuid ≢ "") where
      pub reconcile_delete-built :
          (c : Client)
          → (build_client E alias w).0 ≡ built c
          → reconcile_delete E alias w ≡ delete_external E c alias (build_client E alias w).1
      unfolding reconcile_delete
      reconcile_delete-built c p = ground arith

      pub reconcile_delete-refused :
          (reason : String) (e : Error)
          → (build_client E alias w).0 ≡ refused reason e
          → reconcile_delete E alias w ≡ failed E alias reason e (build_client E alias w).1
      unfolding reconcile_delete
      reconcile_delete-refused reason e p = ground arith

module _ (E : Env) (c : Client) (alias : Alias) (w : World E.State) (uuid : String)
    (existing : ExternalAlias) where
  pub sync_external-update :
      alias_needs_update alias.spec existing ≡ true
      → sync_external E c alias (found uuid existing) w ≡ update_external E c alias uuid w
  unfolding sync_external
  sync_external-update p = ground arith

  module _ (same_fields : alias_needs_update alias.spec existing ≡ false) where
    pub sync_external-current :
        is_current E alias uuid ≡ true
        → sync_external E c alias (found uuid existing) w ≡ (returns none, w)
    unfolding sync_external
    sync_external-current q = ground arith

    pub sync_external-report :
        is_current E alias uuid ≡ false
        → sync_external E c alias (found uuid existing) w ≡ set_ready_success E alias uuid w
    unfolding sync_external
    sync_external-report q = ground arith

pub sync_external-failed :
    (E : Env) (c : Client) (alias : Alias) (w : World E.State) (e : Error)
    → sync_external E c alias (lookup_failed e) w ≡ failed E alias "LookupFailed" e w
unfolding sync_external
sync_external-failed E c alias w e = refl

pub sync_external-missing :
    (E : Env) (c : Client) (alias : Alias) (w : World E.State)
    → sync_external E c alias missing w ≡ create_external E c alias w
unfolding sync_external
sync_external-missing E c alias w = refl
