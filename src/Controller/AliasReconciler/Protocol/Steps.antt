-- ===== src/Controller/AliasReconciler/Protocol/Steps.antt =====
-- The steps of the alias reconciler as steps of its protocol.
use opnsense_operator.Base.{
  String, ◌<>◌, ◌≡◌, refl, inl, inr, true, false, some, List, Error, ok, Sentinel, Result-cases,
  Bool-cases, string_eq,
}
use opnsense_operator.Api.{Alias, is_zero}
use opnsense_operator.Runtime.{Env, IsForeign}
use opnsense_operator.Runtime.Errors.{is}
use opnsense_operator.Runtime.Monad.{World, Event, Step, post}
use opnsense_operator.Opnsense.Types.{Client, Alias as ExternalAlias}
use opnsense_operator.Opnsense.Payload.{alias_request, encode_alias, empty_object}
use opnsense_operator.Opnsense.Transport.{do_json}
use opnsense_operator.Opnsense.Aliases.{
  create_alias, update_alias, delete_alias, reconfigure_aliases,
}
use opnsense_operator.Opnsense.Aliases.Requests.{
  create_alias_world, update_alias_world, delete_alias_world, reconfigure_aliases_world,
}
use opnsense_operator.Opnsense.Aliases.Answers.{
  create_alias-eq-ok, update_alias-eq-ok, delete_alias-eq-ok, delete_alias_own_error,
  reconfigure_aliases-eq-ok,
}
use opnsense_operator.Controller.Outcome.{Outcome, text_of}
use opnsense_operator.Controller.Convert.{spec_to_alias, alias_needs_update}
use opnsense_operator.Controller.Connect.{built}
use opnsense_operator.Controller.AliasStatus.{failed, remove_finalizer, set_ready_success}
use opnsense_operator.Controller.AliasStatus.Written.{
  set_ready_failed-log, set_ready_success-log, remove_finalizer-log,
}
use opnsense_operator.Controller.AliasLookup.{Resolved, lookup_failed, missing, found}
use opnsense_operator.Controller.AliasReconciler.{
  build_client, reconfigure_then, delete_external, create_external, update_external, is_current,
  sync_external, write_reason,
}
use opnsense_operator.Controller.AliasReconciler.Branches.{
  reconfigure_then-err, reconfigure_then-ok, delete_external-ok, delete_external-missing,
  delete_external-err, create_external-err, create_external-ok, update_external-err,
  update_external-ok, sync_external-update, sync_external-current, sync_external-report,
  sync_external-failed, sync_external-missing,
}
use opnsense_operator.Controller.AliasReconciler.Protocol.{
  create, update, delete, confirm, report, release, rules,
}
use opnsense_operator.Controller.Protocol.{looking, changed, applied, done, Run, early, late}
use opnsense_operator.Controller.Protocol.Calls.{
  OpenRun, EndedRun, Run-failed, change_sent, change_tried, apply_sent, apply_tried,
}

-- An alias that was read, the world behind the read, and a log that the reconcile began with.
module _ (E : Env) (alias : Alias) (w0 : World E.State) (old : List Event) where
  pub failed-Run :
      (reason : String) (e : Error) (w : World E.State)
      → OpenRun (rules E alias w0) old w.log
      → Run (rules E alias w0) old done (failed E alias reason e w).1.log
  failed-Run reason e w r =
      rw (set_ready_failed-log E alias w reason (text_of E e) e)
        (Run-failed (rules E alias w0) old w.log _ (w.state, reason, text_of E e, refl) r)

  module _ (c : Client) (k : (build_client E alias w0).0 ≡ built c) where
    reconfigure_then-Run :
        (rest : Step E.State Outcome) (w : World E.State)
        → ((v : World E.State)
            → Run (rules E alias w0) old applied v.log
            → Run (rules E alias w0) old done (rest v).1.log)
        → Run (rules E alias w0) old changed w.log
        → Run (rules E alias w0) old done (reconfigure_then E c alias rest w).1.log
    reconfigure_then-Run rest w next r = elim (Result-cases (reconfigure_aliases E c w).0) [
      | inl (u, p) ↦
          let (text, q, x) = reconfigure_aliases-eq-ok E c w u p in
          rw (reconfigure_then-ok E c alias w rest u p) (
            next (reconfigure_aliases E c w).1 (
              rw (reconfigure_aliases_world E c w)
                (apply_sent (rules E alias w0) old c k E (some empty_object) w r text q)))
      | inr (e, p) ↦ rw (reconfigure_then-err E c alias w rest e p) (
          failed-Run "ReconfigureFailed" e (reconfigure_aliases E c w).1 (
            rw (reconfigure_aliases_world E c w)
              (apply_tried (rules E alias w0) old c k E (some empty_object) w r)))
    ]

    success-Run :
        (alive : is_zero alias.meta.deletion_timestamp ≡ true) (uuid : String) (v : World E.State)
        → Run (rules E alias w0) old applied v.log
        → Run (rules E alias w0) old done (set_ready_success E alias uuid v).1.log
    success-Run alive uuid v r =
        rw (set_ready_success-log E alias v uuid) (late (report alive (v.state, uuid, refl)) r)

    module _ (alive : is_zero alias.meta.deletion_timestamp ≡ true) (w : World E.State)
        (r : Run (rules E alias w0) old looking w.log) where
      abbrev sent_alias : ExternalAlias
      sent_alias = spec_to_alias alias.spec

      create_external-Run : Run (rules E alias w0) old done (create_external E c alias w).1.log
      create_external-Run =
          let R = rules E alias w0 in
          let body = some (alias_request (encode_alias sent_alias)) in
          let path : String = "/api/firewall/alias/addItem" in
          elim (Result-cases (create_alias E c sent_alias w).0) [
            | inl (uuid, p) ↦
                let (text, response, q, x, y) = create_alias-eq-ok E c sent_alias w uuid p in
                rw (create_external-ok E c alias w uuid p) (
                  reconfigure_then-Run (set_ready_success E alias uuid)
                    (create_alias E c sent_alias w).1 (success-Run alive uuid)
                    (rw (create_alias_world E c sent_alias w)
                      (change_sent R old c k E path body w (create alive refl) r text q)))
            | inr (e, p) ↦ rw (create_external-err E c alias w e p) (
                failed-Run (write_reason "CreateFailed" e) e (create_alias E c sent_alias w).1 (
                  rw (create_alias_world E c sent_alias w)
                    (change_tried R old c k E path body w (create alive refl) r)))
          ]

      update_external-Run :
          (uuid : String) → Run (rules E alias w0) old done (update_external E c alias uuid w).1.log
      update_external-Run uuid =
          let R = rules E alias w0 in
          let body = some (alias_request (encode_alias sent_alias)) in
          let path = "/api/firewall/alias/setItem/" <> uuid in
          elim (Result-cases (update_alias E c uuid sent_alias w).0) [
            | inl (u, p) ↦
                let (text, response, q, x, y) = update_alias-eq-ok E c uuid sent_alias w u p in
                rw (update_external-ok E c alias w uuid u p) (
                  reconfigure_then-Run (set_ready_success E alias uuid)
                    (update_alias E c uuid sent_alias w).1 (success-Run alive uuid)
                    (rw (update_alias_world E c uuid sent_alias w)
                      (change_sent R old c k E path body w (update uuid alive refl) r text q)))
            | inr (e, p) ↦ rw (update_external-err E c alias w uuid e p) (
                failed-Run (write_reason "UpdateFailed" e) e (update_alias E c uuid sent_alias w).1
                  (rw (update_alias_world E c uuid sent_alias w)
                    (change_tried R old c k E path body w (update uuid alive refl) r)))
          ]

      pub sync_external-Run :
          (x : Resolved) → EndedRun (rules E alias w0) old (sync_external E c alias x w).1.log
      sync_external-Run (lookup_failed e) =
          inr (
            rw (sync_external-failed E c alias w e)
              (failed-Run "LookupFailed" e w (looking, tt, r)))
      sync_external-Run missing = inr (rw (sync_external-missing E c alias w) create_external-Run)
      sync_external-Run (found uuid existing) =
          elim (Bool-cases (alias_needs_update alias.spec existing)) [
            | inl p ↦
                inr
                  (rw (sync_external-update E c alias w uuid existing p) (update_external-Run uuid))
            | inr p ↦ elim (Bool-cases (is_current E alias uuid)) [
              | inl q ↦ inl (rw (sync_external-current E c alias w uuid existing p q) r)
              | inr q ↦ inr (
                  rw (sync_external-report E c alias w uuid existing p q) (
                    rw (set_ready_success-log E alias w uuid)
                      (early (confirm existing alive p (w.state, uuid, refl)) r)))
            ]
          ]

    module _ (deleting : is_zero alias.meta.deletion_timestamp ≡ false) (w : World E.State)
        (r : Run (rules E alias w0) old looking w.log) where
      release-Run :
          (v : World E.State)
          → Run (rules E alias w0) old applied v.log
          → Run (rules E alias w0) old done (remove_finalizer E alias v).1.log
      release-Run v s = rw (remove_finalizer-log E alias v) (late (release deleting refl) s)

      deleted-Run :
          (text : String)
          → (do_json E c post
              ("/api/firewall/alias/delItem/" <> alias.status.uuid)
              (some empty_object)
              w).0
            ≡ ok text
          → Run
              (rules E alias w0)
              old
              done
              (reconfigure_then E c alias
                (remove_finalizer E alias)
                (delete_alias E c alias.status.uuid w).1).1.log
      deleted-Run text q =
          reconfigure_then-Run (remove_finalizer E alias) (delete_alias E c alias.status.uuid w).1
            release-Run
            (rw (delete_alias_world E c alias.status.uuid w) (
              change_sent (rules E alias w0) old c k E
                ("/api/firewall/alias/delItem/" <> alias.status.uuid) (some empty_object) w
                (delete deleting refl) r text q))

      pub delete_external-Run :
          IsForeign E → Run (rules E alias w0) old done (delete_external E c alias w).1.log
      delete_external-Run F =
          let uuid = alias.status.uuid in
          elim (Result-cases (delete_alias E c uuid w).0) [
            | inl (u, p) ↦
                let (text, response, q, x, y) = delete_alias-eq-ok E c uuid w u p in
                rw (delete_external-ok E c alias w u p) (deleted-Run text q)
            | inr (e, p) ↦ elim (Bool-cases (is e Sentinel.alias_not_found)) [
              | inl own ↦
                  let (text, response, q, x, y) =
                    delete_alias_own_error E c F uuid w e Sentinel.alias_not_found p own in
                  rw (delete_external-missing E c alias w e p own) (deleted-Run text q)
              | inr other ↦ rw (delete_external-err E c alias w e p other) (
                  failed-Run "DeleteFailed" e (delete_alias E c uuid w).1 (
                    rw (delete_alias_world E c uuid w) (
                      change_tried (rules E alias w0) old c k E
                        ("/api/firewall/alias/delItem/" <> uuid) (some empty_object) w
                        (delete deleting refl) r)))
            ]
          ]
