-- ===== src/Controller/RuleReconciler/Deletion.antt =====
-- The deletion of a rule.
mod Ends
pub use Ends.{KeepsObject, Sends-KeepsObject, IsGone, RemovedLast, Kept, failed-Kept, result_of}
use opnsense_operator.Base.{
  String, ◌<>◌, ◌≡◌, ◌≢◌, ◌⊎◌, inl, inr, true, false, some, ◌∷◌, Error, ok, err, Sentinel, Result,
  Result-cases, Bool-cases, arith,
}
use opnsense_operator.Api.{Key, FirewallRule, is_zero}
use opnsense_operator.Runtime.{Env, IsForeign}
use opnsense_operator.Runtime.Errors.{is}
use opnsense_operator.Runtime.Monad.{World, Event, Method, sent, updated_rule, post}
use opnsense_operator.Runtime.Trace.{Extends, same, more, Extends-trans, Extends-mono}
use opnsense_operator.Opnsense.Types.{Client}
use opnsense_operator.Opnsense.Payload.{empty_object}
use opnsense_operator.Opnsense.Decode.{unmarshal, store_only}
use opnsense_operator.Opnsense.Foreign.{unmarshal_foreign}
use opnsense_operator.Controller.Outcome.{Outcome, text_of}
use opnsense_operator.Opnsense.Transport.{request, do_json}
use opnsense_operator.Opnsense.Transport.Sending.{Sends, do_json-sent}
use opnsense_operator.Opnsense.Rules.{delete_rule, apply_firewall_rules, read_rule_deleted}
use opnsense_operator.Opnsense.Rules.Requests.{
  delete_rule_world, delete_rule-Extends, apply_firewall_rules_world, apply_firewall_rules-Extends,
}
use opnsense_operator.Opnsense.Rules.Answers.{
  delete_rule-eq-ok, delete_rule_own_error, apply_firewall_rules-eq-ok,
}
use opnsense_operator.Controller.RuleStatus.{
  firewall_rule_finalizer, released, remove_finalizer, set_ready_failed,
}
use opnsense_operator.Controller.RuleStatus.Written.{
  remove_finalizer-log, set_ready_failed-log, set_ready_failed-error,
}
use opnsense_operator.Controller.Connect.{built, Built-cases}
use opnsense_operator.Controller.Connect.Reading.{build_opnsense_client-log}
use opnsense_operator.Controller.RuleReconciler.{
  delete_external, apply_then, reconcile_delete, build_client, reconcile,
}
use opnsense_operator.Controller.RuleReconciler.Branches.{
  apply_then-err, apply_then-ok, delete_external-ok, delete_external-missing, delete_external-err,
  reconcile_delete-built, reconcile_delete-refused, reconcile-deleting,
}

module _ (E : Env) (c : Client) (rule : FirewallRule) where
  -- The path of the deletion, and that of the reconfiguration.
  abbrev pub delete_path : String
  delete_path = "/api/firewall/filter/delRule/" <> rule.status.uuid

  abbrev pub apply_path : String
  apply_path = "/api/firewall/filter/apply"

  delete_rule-kept :
      (w : World E.State) → Extends KeepsObject w.log (delete_rule E c rule.status.uuid w).1.log
  delete_rule-kept w =
      Extends-mono (Sends-KeepsObject c post delete_path)
        (delete_rule-Extends E c rule.status.uuid w)

  apply_firewall_rules-kept :
      (w : World E.State) → Extends KeepsObject w.log (apply_firewall_rules E c w).1.log
  apply_firewall_rules-kept w =
      Extends-mono (Sends-KeepsObject c post apply_path) (apply_firewall_rules-Extends E c w)

  pub applied_call :
      (w : World E.State) (u : Unit {0})
      → (apply_firewall_rules E c w).0 ≡ ok u
      → (body : String) × (E.marshal empty_object ≡ ok body)
        × ((apply_firewall_rules E c w).1.log
            ≡ sent c.http_client (request c post apply_path (some body)) ∷ w.log)
  applied_call w u p =
      let (answer, q, r) = apply_firewall_rules-eq-ok E c w u p in
      rw apply_firewall_rules_world (do_json-sent E c post apply_path empty_object w answer q)

  -- The tail of a deletion that OPNsense has confirmed.
  release :
      (w0 : World E.State) (body answer : String)
      → let w = (delete_rule E c rule.status.uuid w0).1 in
        E.marshal empty_object ≡ ok body
        → (do_json E c post delete_path (some empty_object) w0).0 ≡ ok answer
        → IsGone E answer
        → w.log ≡ sent c.http_client (request c post delete_path (some body)) ∷ w0.log
        → let (o, w') = apply_then E c rule (remove_finalizer E rule) w in
          RemovedLast E c rule w0 w' ⊎ Kept E rule w0 o w'
  release w0 body answer encoded answered gone before =
      let w = (delete_rule E c rule.status.uuid w0).1 in
      elim (Result-cases (apply_firewall_rules E c w).0) [
        | inr (e, p) ↦ rw (apply_then-err E c rule w (remove_finalizer E rule) e p) (
            inr (
              failed-Kept E rule w0 (apply_firewall_rules E c w).1 "ApplyFailed" (text_of E e) e
                (Extends-trans (rw before (more tt same)) (apply_firewall_rules-kept w))))
        | inl (u, p) ↦
            let (body', encoded', last) = applied_call w u p in
            let same_body : body' ≡ body = cc in
            rw (apply_then-ok E c rule w (remove_finalizer E rule) u p) (
              inl (record {
                body = body;
                answer = answer;
                encoded = encoded;
                answered = answered;
                gone = gone;
                applied = p;
                order = rw (remove_finalizer-log, last, same_body, before);
              }))
      ]

  read_rule_deleted-eq-ok :
      (text : String) → read_rule_deleted E text ≡ ok tt → result_of E text ≡ ok "deleted"
  unfolding read_rule_deleted
  read_rule_deleted-eq-ok text h = elim (Result-cases (result_of E text)) [
    | inl (result, p) ↦ ground arith
    | inr (e, p) ↦ absurd (ground arith)
  ]

  read_rule_deleted-missing :
      IsForeign E
      → (text : String) (e : Error) → read_rule_deleted E text ≡ err e
      → is e Sentinel.firewall_rule_not_found ≡ true
      → result_of E text ≡ ok "not found"
  unfolding read_rule_deleted is
  read_rule_deleted-missing F text e h own = elim (Result-cases (result_of E text)) [
    | inl (result, p) ↦ ground arith
    | inr (e', p) ↦ absurd (
        ground (
          arith,
          unmarshal_foreign E F "struct { Result string }" (store_only "result") "" text e'
              Sentinel.firewall_rule_not_found p,
        ))
  ]

  deleted :
      IsForeign E
      → (w : World E.State)
      → ((u : Unit {0}) × ((delete_rule E c rule.status.uuid w).0 ≡ ok u))
        ⊎ ((e : Error) × ((delete_rule E c rule.status.uuid w).0 ≡ err e)
            × (is e Sentinel.firewall_rule_not_found ≡ true))
      → (body answer : String) × (E.marshal empty_object ≡ ok body)
        × ((do_json E c post delete_path (some empty_object) w).0 ≡ ok answer)
        × IsGone E answer
        × ((delete_rule E c rule.status.uuid w).1.log
            ≡ sent c.http_client (request c post delete_path (some body)) ∷ w.log)
  deleted F w (inl (u, p)) =
      let (answer, q, r) = delete_rule-eq-ok E c rule.status.uuid w u p in
      let (body, encoded, log) = do_json-sent E c post delete_path empty_object w answer q in
      (body, answer, encoded, q, inl (read_rule_deleted-eq-ok answer r), rw delete_rule_world log)
  deleted F w (inr (e, p, own)) =
      let (answer, q, r) =
        delete_rule_own_error E c F rule.status.uuid w e Sentinel.firewall_rule_not_found p own in
      let (body, encoded, log) = do_json-sent E c post delete_path empty_object w answer q in
      (
        body,
        answer,
        encoded,
        q,
        inr (read_rule_deleted-missing F answer e r own),
        rw delete_rule_world log,
      )

  -- The finalizer is given back last, after OPNsense has confirmed that the rule is gone and that
  -- it has taken the change over; on any other course the call fails and the object is not written.
  pub delete_external-order :
      IsForeign E
      → (w : World E.State)
      → let (o, w') = delete_external E c rule w in RemovedLast E c rule w w' ⊎ Kept E rule w o w'
  delete_external-order F w = elim (Result-cases (delete_rule E c rule.status.uuid w).0) [
    | inl (u, p) ↦
        let (body, answer, encoded, q, gone, log) = deleted F w (inl (u, p)) in
        rw (delete_external-ok E c rule w u p) (release w body answer encoded q gone log)
    | inr (e, p) ↦ elim (Bool-cases (is e Sentinel.firewall_rule_not_found)) [
      | inl own ↦
          let (body, answer, encoded, q, gone, log) = deleted F w (inr (e, p, own)) in
          rw (delete_external-missing E c rule w e p own) (release w body answer encoded q gone log)
      | inr other ↦ rw (delete_external-err E c rule w e p other) (
          inr (
            failed-Kept E rule w (delete_rule E c rule.status.uuid w).1 "DeleteFailed" (text_of E e)
              e (delete_rule-kept w)))
    ]
  ]

module _ (E : Env) (F : IsForeign E) (rule : FirewallRule) where
  -- The world behind the building of the client.
  abbrev pub client_world : World E.State → World E.State
  client_world w = (build_client E rule w).1

  reconcile_delete-order :
      (w : World E.State)
      → E.contains_finalizer rule.meta.finalizers firewall_rule_finalizer ≡ true
      → rule.status.uuid ≢ ""
      → let (o, w') = reconcile_delete E rule w in
        ((c : Client) × ((build_client E rule w).0 ≡ built c)
          × RemovedLast E c rule (client_world w) w')
        ⊎ Kept E rule w o w'
  reconcile_delete-order w held created =
      let before = build_opnsense_client-log E rule.spec.connection_ref w in
      elim (Built-cases (build_client E rule w).0) [
        | inl (c, p) ↦
            rw (reconcile_delete-built E rule w held created c p)
              (elim (delete_external-order E c rule F (client_world w)) [
                | inl r ↦ inl (c, p, r)
                | inr k ↦ inr (record {
                  error = k.error;
                  returned = k.returned;
                  untouched = rw before at k.untouched;
                })
              ])
        | inr (reason, e, p) ↦
            rw (reconcile_delete-refused E rule w held created reason e p)
              (inr (failed-Kept E rule w (client_world w) reason (text_of E e) e (rw before same)))
      ]

  -- `Reconcile` of a rule that is being deleted, that has the finalizer and a UUID, where no error from
  -- outside is one of the package's own: either a client was built, OPNsense confirmed first the
  -- deletion and then the apply, and the finalizer was taken away last, with no other call
  -- in between; or an error is returned and the object itself was not written.
  pub reconcile_deleting_rule :
      (key : Key) (w : World E.State)
      → (E.get_rule key w.state).0 ≡ ok rule
      → is_zero rule.meta.deletion_timestamp ≡ false
      → E.contains_finalizer rule.meta.finalizers firewall_rule_finalizer ≡ true
      → rule.status.uuid ≢ ""
      → let w0 = record w { state = (E.get_rule key w.state).1 } in
        let (o, w') = reconcile E key w in
        ((c : Client) × ((build_client E rule w0).0 ≡ built c)
          × RemovedLast E c rule (client_world w0) w')
        ⊎ Kept E rule w0 o w'
  reconcile_deleting_rule key w got deleting held created =
      let w0 : World E.State = record w { state = (E.get_rule key w.state).1 } in
      rw (reconcile-deleting E rule w key got deleting) (reconcile_delete-order w0 held created)
