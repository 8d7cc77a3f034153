-- ===== src/Controller/AliasReconciler/Deletion.antt =====
-- The deletion of an alias.
mod Ends
pub use Ends.{KeepsObject, Sends-KeepsObject, IsGone, RemovedLast, Kept, failed-Kept}
use opnsense_operator.Base.{
  String, ◌<>◌, ◌≡◌, ◌≢◌, ◌⊎◌, inl, inr, true, false, some, ◌∷◌, Error, ok, err, Sentinel,
  Result-cases, Bool-cases, arith,
}
use opnsense_operator.Api.{Key, Alias, is_zero}
use opnsense_operator.Runtime.{Env, IsForeign}
use opnsense_operator.Runtime.Errors.{is}
use opnsense_operator.Runtime.Monad.{World, Event, Method, sent, updated_alias, post}
use opnsense_operator.Runtime.Trace.{Extends, same, more, Extends-trans, Extends-mono}
use opnsense_operator.Opnsense.Types.{Client}
use opnsense_operator.Opnsense.Payload.{empty_object}
use opnsense_operator.Opnsense.Decode.{ResultResponse, decode_result_response, result_error}
use opnsense_operator.Controller.Outcome.{Outcome, text_of}
use opnsense_operator.Opnsense.Transport.{request, do_json}
use opnsense_operator.Opnsense.Transport.Sending.{Sends, do_json-sent}
use opnsense_operator.Opnsense.Aliases.{delete_alias, reconfigure_aliases, read_deleted}
use opnsense_operator.Opnsense.Aliases.Requests.{
  delete_alias_world, delete_alias-Extends, reconfigure_aliases_world, reconfigure_aliases-Extends,
}
use opnsense_operator.Opnsense.Aliases.Answers.{
  delete_alias-eq-ok, delete_alias_own_error, reconfigure_aliases-eq-ok,
}
use opnsense_operator.Controller.AliasStatus.{
  alias_finalizer, released, remove_finalizer, set_ready_failed,
}
use opnsense_operator.Controller.AliasStatus.Written.{
  remove_finalizer-log, set_ready_failed-log, set_ready_failed-error,
}
use opnsense_operator.Controller.Connect.{built, Built-cases}
use opnsense_operator.Controller.Connect.Reading.{build_opnsense_client-log}
use opnsense_operator.Controller.AliasReconciler.{
  delete_external, reconfigure_then, reconcile_delete, build_client, reconcile,
}
use opnsense_operator.Controller.AliasReconciler.Branches.{
  reconfigure_then-err, reconfigure_then-ok, delete_external-ok, delete_external-missing,
  delete_external-err, reconcile_delete-built, reconcile_delete-refused, reconcile-deleting,
}

module _ (E : Env) (c : Client) (alias : Alias) where
  -- The path of the deletion, and that of the reconfiguration.
  abbrev pub delete_path : String
  delete_path = "/api/firewall/alias/delItem/" <> alias.status.uuid

  abbrev pub reconfigure_path : String
  reconfigure_path = "/api/firewall/alias/reconfigure"

  delete_alias-kept :
      (w : World E.State) → Extends KeepsObject w.log (delete_alias E c alias.status.uuid w).1.log
  delete_alias-kept w =
      Extends-mono (Sends-KeepsObject c post delete_path)
        (delete_alias-Extends E c alias.status.uuid w)

  reconfigure_aliases-kept :
      (w : World E.State) → Extends KeepsObject w.log (reconfigure_aliases E c w).1.log
  reconfigure_aliases-kept w =
      Extends-mono (Sends-KeepsObject c post reconfigure_path) (reconfigure_aliases-Extends E c w)

  pub reconfigured :
      (w : World E.State) (u : Unit {0})
      → (reconfigure_aliases E c w).0 ≡ ok u
      → (body : String) × (E.marshal empty_object ≡ ok body)
        × ((reconfigure_aliases E c w).1.log
            ≡ sent c.http_client (request c post reconfigure_path (some body)) ∷ w.log)
  reconfigured w u p =
      let (answer, q, r) = reconfigure_aliases-eq-ok E c w u p in
      rw reconfigure_aliases_world (do_json-sent E c post reconfigure_path empty_object w answer q)

  -- The tail of a deletion that OPNsense has confirmed.
  release :
      (w0 : World E.State) (body answer : String)
      → let w = (delete_alias E c alias.status.uuid w0).1 in
        E.marshal empty_object ≡ ok body
        → (do_json E c post delete_path (some empty_object) w0).0 ≡ ok answer
        → IsGone E answer
        → w.log ≡ sent c.http_client (request c post delete_path (some body)) ∷ w0.log
        → let (o, w') = reconfigure_then E c alias (remove_finalizer E alias) w in
          RemovedLast E c alias w0 w' ⊎ Kept E alias w0 o w'
  release w0 body answer encoded answered gone before =
      let w = (delete_alias E c alias.status.uuid w0).1 in
      elim (Result-cases (reconfigure_aliases E c w).0) [
        | inr (e, p) ↦ rw (reconfigure_then-err E c alias w (remove_finalizer E alias) e p) (
            inr (
              failed-Kept E alias w0 (reconfigure_aliases E c w).1 "ReconfigureFailed" (text_of E e)
                e (Extends-trans (rw before (more tt same)) (reconfigure_aliases-kept w))))
        | inl (u, p) ↦
            let (body', encoded', last) = reconfigured w u p in
            let same_body : body' ≡ body = cc in
            rw (reconfigure_then-ok E c alias w (remove_finalizer E alias) u p) (
              inl (record {
                body = body;
                answer = answer;
                encoded = encoded;
                answered = answered;
                gone = gone;
                applied = p;
                order = rw (remove_finalizer-log, last, same_body, before);
              }))
      ]

  deleted :
      IsForeign E
      → (w : World E.State)
      → ((u : Unit {0}) × ((delete_alias E c alias.status.uuid w).0 ≡ ok u))
        ⊎ ((e : Error) × ((delete_alias E c alias.status.uuid w).0 ≡ err e)
            × (is e Sentinel.alias_not_found ≡ true))
      → (body answer : String) × (E.marshal empty_object ≡ ok body)
        × ((do_json E c post delete_path (some empty_object) w).0 ≡ ok answer)
        × IsGone E answer
        × ((delete_alias E c alias.status.uuid w).1.log
            ≡ sent c.http_client (request c post delete_path (some body)) ∷ w.log)
  unfolding read_deleted result_error is
  deleted F w (inl (u, p)) =
      let (answer, response, q, decoded, r) = delete_alias-eq-ok E c alias.status.uuid w u p in
      let (body, encoded, log) = do_json-sent E c post delete_path empty_object w answer q in
      (body, answer, encoded, q, (response, decoded, inl (ground arith)), rw delete_alias_world log)
  deleted F w (inr (e, p, own)) =
      let (answer, response, q, decoded, r) =
        delete_alias_own_error E c F alias.status.uuid w e Sentinel.alias_not_found p own in
      let (body, encoded, log) = do_json-sent E c post delete_path empty_object w answer q in
      (body, answer, encoded, q, (response, decoded, inr (ground arith)), rw delete_alias_world log)

  -- The finalizer is given back last, after OPNsense has confirmed that the alias is gone and that
  -- it has taken the change over; on any other course the call fails and the object is not written.
  pub delete_external-order :
      IsForeign E
      → (w : World E.State)
      → let (o, w') = delete_external E c alias w in
        RemovedLast E c alias w w' ⊎ Kept E alias w o w'
  delete_external-order F w = elim (Result-cases (delete_alias E c alias.status.uuid w).0) [
    | inl (u, p) ↦
        let (body, answer, encoded, q, gone, log) = deleted F w (inl (u, p)) in
        rw (delete_external-ok E c alias w u p) (release w body answer encoded q gone log)
    | inr (e, p) ↦ elim (Bool-cases (is e Sentinel.alias_not_found)) [
      | inl own ↦
          let (body, answer, encoded, q, gone, log) = deleted F w (inr (e, p, own)) in
          rw (delete_external-missing E c alias w e p own)
            (release w body answer encoded q gone log)
      | inr other ↦ rw (delete_external-err E c alias w e p other) (
          inr (
            failed-Kept E alias w (delete_alias E c alias.status.uuid w).1 "DeleteFailed"
              (text_of E e) e (delete_alias-kept w)))
    ]
  ]

module _ (E : Env) (F : IsForeign E) (alias : Alias) where
  -- The world behind the building of the client.
  abbrev pub client_world : World E.State → World E.State
  client_world w = (build_client E alias w).1

  reconcile_delete-order :
      (w : World E.State)
      → E.contains_finalizer alias.meta.finalizers alias_finalizer ≡ true
      → alias.status.uuid ≢ ""
      → let (o, w') = reconcile_delete E alias w in
        ((c : Client) × ((build_client E alias w).0 ≡ built c)
          × RemovedLast E c alias (client_world w) w')
        ⊎ Kept E alias w o w'
  reconcile_delete-order w held created =
      let before = build_opnsense_client-log E alias.spec.connection_ref w in
      elim (Built-cases (build_client E alias w).0) [
        | inl (c, p) ↦
            rw (reconcile_delete-built E alias w held created c p)
              (elim (delete_external-order E c alias F (client_world w)) [
                | inl r ↦ inl (c, p, r)
                | inr k ↦ inr (record {
                  error = k.error;
                  returned = k.returned;
                  untouched = rw before at k.untouched;
                })
              ])
        | inr (reason, e, p) ↦
            rw (reconcile_delete-refused E alias w held created reason e p)
              (inr (failed-Kept E alias w (client_world w) reason (text_of E e) e (rw before same)))
      ]

  -- `Reconcile` of an alias that is being deleted, that has the finalizer and a UUID, where no error from
  -- outside is one of the package's own: either a client was built, OPNsense confirmed first the
  -- deletion and then the reconfiguration, and the finalizer was taken away last, with no other call
  -- in between; or an error is returned and the object itself was not written.
  pub reconcile_deleting_alias :
      (key : Key) (w : World E.State)
      → (E.get_alias key w.state).0 ≡ ok alias
      → is_zero alias.meta.deletion_timestamp ≡ false
      → E.contains_finalizer alias.meta.finalizers alias_finalizer ≡ true
      → alias.status.uuid ≢ ""
      → let w0 = record w { state = (E.get_alias key w.state).1 } in
        let (o, w') = reconcile E key w in
        ((c : Client) × ((build_client E alias w0).0 ≡ built c)
          × RemovedLast E c alias (client_world w0) w')
        ⊎ Kept E alias w0 o w'
  reconcile_deleting_alias key w got deleting held created =
      let w0 : World E.State = record w { state = (E.get_alias key w.state).1 } in
      rw (reconcile-deleting E alias w key got deleting) (reconcile_delete-order w0 held created)
