-- ===== src/Controller/AliasReconciler/Protocol/Runs.antt =====
-- Every reconcile of an alias is a run of its protocol.
use opnsense_operator.Base.{◌≡◌, ◌≢◌, refl, inl, inr, true, false, ok, Bool-cases, string_eq, ◌∙◌}
use opnsense_operator.Api.{Key, Alias, is_zero}
use opnsense_operator.Runtime.{Env, IsForeign}
use opnsense_operator.Runtime.Monad.{World}
use opnsense_operator.Controller.Connect.{Built-cases}
use opnsense_operator.Controller.Connect.Reading.{build_opnsense_client-log}
use opnsense_operator.Controller.AliasStatus.{alias_finalizer}
use opnsense_operator.Controller.AliasLookup.{resolve_external_alias}
use opnsense_operator.Controller.AliasLookup.Reading.{resolve_external_alias-Asks}
use opnsense_operator.Controller.AliasReconciler.{build_client, reconcile}
use opnsense_operator.Controller.AliasReconciler.Branches.{
  reconcile_live-built, reconcile_live-refused, reconcile_delete-built, reconcile_delete-refused,
  reconcile-live, reconcile-deleting,
}
use opnsense_operator.Controller.AliasReconciler.Guarded.{
  reconcile_unheld_alias, reconcile_uncreated_alias,
}
use opnsense_operator.Controller.AliasReconciler.Protocol.{hold, release_unknown, rules}
use opnsense_operator.Controller.Protocol.{Rules, looking, Run, start, early}
use opnsense_operator.Controller.Protocol.Calls.{EndedRun, Run-looks}
use opnsense_operator.Controller.AliasReconciler.Protocol.Steps.{
  failed-Run, sync_external-Run, delete_external-Run,
}

-- The reconcile of an object that was read.
module _ (E : Env) (F : IsForeign E) (alias : Alias) (key : Key) (w : World E.State)
    (got : (E.get_alias key w.state).0 ≡ ok alias) where
  abbrev pub got_world : World E.State
  got_world = record w { state = (E.get_alias key w.state).1 }

  abbrev R : Rules
  R = rules E alias got_world

  unread : (build_client E alias got_world).1.log ≡ w.log
  unread = build_opnsense_client-log E alias.spec.connection_ref got_world

  live-Run :
      is_zero alias.meta.deletion_timestamp ≡ true
      → E.contains_finalizer alias.meta.finalizers alias_finalizer ≡ true
      → EndedRun R w.log (reconcile E key w).1.log
  live-Run alive held =
      let to_live = reconcile-live E alias w key got alive in
      elim (Built-cases (build_client E alias got_world).0) [
        | inl (c, p) ↦
            let v = (build_client E alias got_world).1 in
            let x = resolve_external_alias E c alias v in
            let looked : Run R w.log looking x.1.log =
              Run-looks R w.log c p (rw unread at (resolve_external_alias-Asks E c alias v))
                start in
            rw (to_live ∙ reconcile_live-built E alias got_world held c p)
              (sync_external-Run E alias got_world w.log c p alive x.1 looked x.0)
        | inr (reason, e, p) ↦
            rw (to_live ∙ reconcile_live-refused E alias got_world held reason e p) (
              inr (
                failed-Run E alias got_world w.log reason e (build_client E alias got_world).1
                  (looking, tt, rw unread start)))
      ]

  deleting-Run :
      is_zero alias.meta.deletion_timestamp ≡ false
      → E.contains_finalizer alias.meta.finalizers alias_finalizer ≡ true
      → alias.status.uuid ≢ ""
      → EndedRun R w.log (reconcile E key w).1.log
  deleting-Run deleting held created =
      let to_delete = reconcile-deleting E alias w key got deleting in
      elim (Built-cases (build_client E alias got_world).0) [
        | inl (c, p) ↦
            let v = (build_client E alias got_world).1 in
            rw (to_delete ∙ reconcile_delete-built E alias got_world held created c p)
              (inr (delete_external-Run E alias got_world w.log c p deleting v (rw unread start) F))
        | inr (reason, e, p) ↦
            rw (to_delete ∙ reconcile_delete-refused E alias got_world held created reason e p) (
              inr (
                failed-Run E alias got_world w.log reason e (build_client E alias got_world).1
                  (looking, tt, rw unread start)))
      ]

  -- Where no error from outside is one of the package's own, every reconcile of an alias that was
  -- read, whatever it meets and whatever it returns, is a run of the protocol: GET requests, at most
  -- one POST to a path that changes it, the reconfiguration, and one write of the object. It stops
  -- before it has changed anything, in OPNsense or in the cluster, or behind the write.
  pub reconcile_alias-EndedRun : EndedRun R w.log (reconcile E key w).1.log
  reconcile_alias-EndedRun =
      elim (Bool-cases (E.contains_finalizer alias.meta.finalizers alias_finalizer)) [
        | inr free ↦ elim (reconcile_unheld_alias E alias key w got free) [
          | inl (alive, log) ↦ inr (rw log (early (hold alive free refl) start))
          | inr (deleting, log) ↦ inl (rw log start)
        ]
        | inl held ↦ elim (Bool-cases (is_zero alias.meta.deletion_timestamp)) [
          | inl alive ↦ live-Run alive held
          | inr deleting ↦ elim (string_eq.dec alias.status.uuid "") [
            | yes unknown ↦ inr (
                rw (reconcile_uncreated_alias E alias key w got deleting held unknown)
                  (early (release_unknown deleting unknown refl) start))
            | no created ↦ deleting-Run deleting held created
          ]
        ]
      ]
