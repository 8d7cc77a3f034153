-- ===== src/Controller/RuleReconciler/Protocol/Steps.antt =====
-- The steps of the rule reconciler as steps of its protocol.
use opnsense_operator.Base.{
  String, ◌<>◌, ◌≡◌, refl, inl, inr, true, false, some, none, List, Error, ok, Sentinel,
  Result-cases, Bool-cases, string_eq,
}
use opnsense_operator.Api.{FirewallRule, is_zero}
use opnsense_operator.Runtime.{Env, IsForeign}
use opnsense_operator.Runtime.Errors.{is}
use opnsense_operator.Runtime.Monad.{World, Event, Step, post}
use opnsense_operator.Opnsense.Types.{Client, FirewallRule as ExternalRule}
use opnsense_operator.Opnsense.Payload.{rule_request, encode_firewall_rule, empty_object}
use opnsense_operator.Opnsense.Transport.{do_json}
use opnsense_operator.Opnsense.Rules.{
  create_rule, update_rule, delete_rule, apply_firewall_rules, get_rule,
}
use opnsense_operator.Opnsense.Rules.Requests.{
  create_rule_world, update_rule_world, delete_rule_world, apply_firewall_rules_world,
  get_rule_world,
}
use opnsense_operator.Opnsense.Rules.Answers.{
  create_rule-eq-ok, update_rule-eq-ok, delete_rule-eq-ok, delete_rule_own_error,
  apply_firewall_rules-eq-ok,
}
use opnsense_operator.Controller.Outcome.{Outcome, text_of}
use opnsense_operator.Controller.Convert.{rule_needs_update}
use opnsense_operator.Controller.Connect.{built}
use opnsense_operator.Controller.RuleStatus.{failed, remove_finalizer}
use opnsense_operator.Controller.RuleStatus.Written.{
  set_ready_failed-log, set_ready_success-log, remove_finalizer-log,
}
use opnsense_operator.Controller.RuleLookup.{Resolved, lookup_failed, missing, found}
use opnsense_operator.Controller.RuleReconciler.{
  build_client, apply_then, delete_external, create_external, update_external, is_current,
  sync_external, create_reason, update_reason, desired, record_sequence,
}
use opnsense_operator.Controller.RuleReconciler.Branches.{
  apply_then-err, apply_then-ok, delete_external-ok, delete_external-missing, delete_external-err,
  create_external-err, create_external-ok, update_external-err, update_external-ok,
  sync_external-update, sync_external-current, sync_external-report, sync_external-failed,
  sync_external-missing,
}
use opnsense_operator.Controller.RuleReconciler.Publication.{
  record_sequence-ok, record_sequence-err,
}
use opnsense_operator.Controller.RuleReconciler.Protocol.{
  create, update, delete, confirm, report, release, rules,
}
use opnsense_operator.Controller.Protocol.{looking, changed, applied, done, Run, early, late}
use opnsense_operator.Controller.Protocol.Calls.{
  OpenRun, EndedRun, Run-failed, change_sent, change_tried, apply_sent, apply_tried, reread_tried,
}

-- A rule that was read, the world behind the read, and a log that the reconcile began with.
module _ (E : Env) (rule : FirewallRule) (w0 : World E.State) (old : List Event) where
  pub failed-Run :
      (reason : String) (e : Error) (w : World E.State)
      → OpenRun (rules E rule w0) old w.log
      → Run (rules E rule w0) old done (failed E rule reason e w).1.log
  failed-Run reason e w r =
      rw (set_ready_failed-log E rule w reason (text_of E e) e)
        (Run-failed (rules E rule w0) old w.log _ (w.state, reason, text_of E e, refl) r)

  module _ (c : Client) (k : (build_client E rule w0).0 ≡ built c) where
    apply_then-Run :
        (rest : Step E.State Outcome) (w : World E.State)
        → ((v : World E.State)
            → Run (rules E rule w0) old applied v.log
            → Run (rules E rule w0) old done (rest v).1.log)
        → Run (rules E rule w0) old changed w.log
        → Run (rules E rule w0) old done (apply_then E c rule rest w).1.log
    apply_then-Run rest w next r = elim (Result-cases (apply_firewall_rules E c w).0) [
      | inl (u, p) ↦
          let (text, q, x) = apply_firewall_rules-eq-ok E c w u p in
          rw (apply_then-ok E c rule w rest u p) (
            next (apply_firewall_rules E c w).1 (
              rw (apply_firewall_rules_world E c w)
                (apply_sent (rules E rule w0) old c k E (some empty_object) w r text q)))
      | inr (e, p) ↦ rw (apply_then-err E c rule w rest e p) (
          failed-Run "ApplyFailed" e (apply_firewall_rules E c w).1 (
            rw (apply_firewall_rules_world E c w)
              (apply_tried (rules E rule w0) old c k E (some empty_object) w r)))
    ]

    success-Run :
        (alive : is_zero rule.meta.deletion_timestamp ≡ true) (uuid : String) (v : World E.State)
        → Run (rules E rule w0) old applied v.log
        → Run (rules E rule w0) old done (record_sequence E c rule uuid v).1.log
    success-Run alive uuid v r =
        let R = rules E rule w0 in
        let path : String = "/api/firewall/filter/getRule/" <> uuid in
        let v1 = (get_rule E c uuid v).1 in
        let read : Run R old applied v1.log =
          rw (get_rule_world E c uuid v) (reread_tried R old c k E path none v (uuid, refl) r) in
        elim (Result-cases (get_rule E c uuid v).0) [
          | inl (current, p) ↦ rw (record_sequence-ok E c rule uuid v current p) (
              rw (set_ready_success-log E rule v1 uuid current.sequence)
                (late (report alive (v1.state, uuid, current.sequence, refl)) read))
          | inr (e, p) ↦
              rw (record_sequence-err E c rule uuid v e p)
                (failed-Run "GetFailed" e v1 (applied, tt, read))
        ]

    module _ (alive : is_zero rule.meta.deletion_timestamp ≡ true) (w : World E.State)
        (r : Run (rules E rule w0) old looking w.log) where
      abbrev sent_rule : ExternalRule
      sent_rule = desired E rule

      create_external-Run : Run (rules E rule w0) old done (create_external E c rule w).1.log
      create_external-Run =
          let R = rules E rule w0 in
          let body = some (rule_request (encode_firewall_rule sent_rule)) in
          let path : String = "/api/firewall/filter/addRule" in
          elim (Result-cases (create_rule E c sent_rule w).0) [
            | inl (uuid, p) ↦
                let (text, response, q, x, y) = create_rule-eq-ok E c sent_rule w uuid p in
                rw (create_external-ok E c rule w uuid p) (
                  apply_then-Run (record_sequence E c rule uuid) (create_rule E c sent_rule w).1
                    (success-Run alive uuid)
                    (rw (create_rule_world E c sent_rule w)
                      (change_sent R old c k E path body w (create alive refl) r text q)))
            | inr (e, p) ↦ rw (create_external-err E c rule w e p) (
                failed-Run (create_reason e) e (create_rule E c sent_rule w).1 (
                  rw (create_rule_world E c sent_rule w)
                    (change_tried R old c k E path body w (create alive refl) r)))
          ]

      update_external-Run :
          (uuid : String) → Run (rules E rule w0) old done (update_external E c rule uuid w).1.log
      update_external-Run uuid =
          let R = rules E rule w0 in
          let body = some (rule_request (encode_firewall_rule sent_rule)) in
          let path = "/api/firewall/filter/setRule/" <> uuid in
          elim (Result-cases (update_rule E c uuid sent_rule w).0) [
            | inl (u, p) ↦
                let (text, response, q, x, y) = update_rule-eq-ok E c uuid sent_rule w u p in
                rw (update_external-ok E c rule w uuid u p) (
                  apply_then-Run (record_sequence E c rule uuid)
                    (update_rule E c uuid sent_rule w).1 (success-Run alive uuid)
                    (rw (update_rule_world E c uuid sent_rule w)
                      (change_sent R old c k E path body w (update uuid alive refl) r text q)))
            | inr (e, p) ↦ rw (update_external-err E c rule w uuid e p) (
                failed-Run (update_reason e) e (update_rule E c uuid sent_rule w).1 (
                  rw (update_rule_world E c uuid sent_rule w)
                    (change_tried R old c k E path body w (update uuid alive refl) r)))
          ]

      pub sync_external-Run :
          (x : Resolved) → EndedRun (rules E rule w0) old (sync_external E c rule x w).1.log
      sync_external-Run (lookup_failed e) =
          inr (
            rw (sync_external-failed E c rule w e) (failed-Run "LookupFailed" e w (looking, tt, r)))
      sync_external-Run missing = inr (rw (sync_external-missing E c rule w) create_external-Run)
      sync_external-Run (found uuid existing) =
          elim (Bool-cases
            (rule_needs_update rule.spec rule.meta.namespace rule.meta.name existing)) [
              | inl p ↦
                  inr (
                    rw (sync_external-update E c rule w uuid existing p) (update_external-Run uuid))
              | inr p ↦ elim (Bool-cases (is_current E rule uuid existing.sequence)) [
                | inl q ↦ inl (rw (sync_external-current E c rule w uuid existing p q) r)
                | inr q ↦ inr (
                    rw (sync_external-report E c rule w uuid existing p q) (
                      rw (set_ready_success-log E rule w uuid existing.sequence) (
                        early (confirm existing alive p (w.state, uuid, existing.sequence, refl))
                          r)))
              ]
            ]

    module _ (deleting : is_zero rule.meta.deletion_timestamp ≡ false) (w : World E.State)
        (r : Run (rules E rule w0) old looking w.log) where
      release-Run :
          (v : World E.State)
          → Run (rules E rule w0) old applied v.log
          → Run (rules E rule w0) old done (remove_finalizer E rule v).1.log
      release-Run v s = rw (remove_finalizer-log E rule v) (late (release deleting refl) s)

      deleted-Run :
          (text : String)
          → (do_json E c post
              ("/api/firewall/filter/delRule/" <> rule.status.uuid)
              (some empty_object)
              w).0
            ≡ ok text
          → Run
              (rules E rule w0)
              old
              done
              (apply_then E c rule
                (remove_finalizer E rule)
                (delete_rule E c rule.status.uuid w).1).1.log
      deleted-Run text q =
          apply_then-Run (remove_finalizer E rule) (delete_rule E c rule.status.uuid w).1
            release-Run
            (rw (delete_rule_world E c rule.status.uuid w) (
              change_sent (rules E rule w0) old c k E
                ("/api/firewall/filter/delRule/" <> rule.status.uuid) (some empty_object) w
                (delete deleting refl) r text q))

      pub delete_external-Run :
          IsForeign E → Run (rules E rule w0) old done (delete_external E c rule w).1.log
      delete_external-Run F =
          let uuid = rule.status.uuid in
          elim (Result-cases (delete_rule E c uuid w).0) [
            | inl (u, p) ↦
                let (text, q, x) = delete_rule-eq-ok E c uuid w u p in
                rw (delete_external-ok E c rule w u p) (deleted-Run text q)
            | inr (e, p) ↦ elim (Bool-cases (is e Sentinel.firewall_rule_not_found)) [
              | inl own ↦
                  let (text, q, x) =
                    delete_rule_own_error E c F uuid w e Sentinel.firewall_rule_not_found p own in
                  rw (delete_external-missing E c rule w e p own) (deleted-Run text q)
              | inr other ↦ rw (delete_external-err E c rule w e p other) (
                  failed-Run "DeleteFailed" e (delete_rule E c uuid w).1 (
                    rw (delete_rule_world E c uuid w) (
                      change_tried (rules E rule w0) old c k E
                        ("/api/firewall/filter/delRule/" <> uuid) (some empty_object) w
                        (delete deleting refl) r)))
            ]
          ]
