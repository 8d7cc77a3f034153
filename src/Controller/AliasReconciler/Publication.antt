-- ===== src/Controller/AliasReconciler/Publication.antt =====
-- The creation and the update of an alias.
use opnsense_operator.Base.{String, ◌<>◌, ◌≡◌, inl, inr, none, some, ◌∷◌, ok, Result-cases}
use opnsense_operator.Api.{Alias, condition_true}
use opnsense_operator.Runtime.{Env}
use opnsense_operator.Runtime.Monad.{World, sent, updated_alias_status, post}
use opnsense_operator.Opnsense.Types.{Client}
use opnsense_operator.Opnsense.Payload.{alias_request, encode_alias, empty_object}
use opnsense_operator.Opnsense.Transport.{request}
use opnsense_operator.Opnsense.Transport.Sending.{do_json-sent}
use opnsense_operator.Opnsense.Aliases.{create_alias, update_alias, reconfigure_aliases}
use opnsense_operator.Opnsense.Aliases.Requests.{create_alias_world, update_alias_world}
use opnsense_operator.Opnsense.Aliases.Answers.{create_alias-eq-ok, update_alias-eq-ok}
use opnsense_operator.Controller.Outcome.{text_of}
use opnsense_operator.Controller.Convert.{spec_to_alias}
use opnsense_operator.Controller.AliasStatus.{with_ready, synced, set_ready_success}
use opnsense_operator.Controller.AliasStatus.Written.{set_ready_failed-error, set_ready_success-log}
use opnsense_operator.Controller.AliasReconciler.{
  reconfigure_then, create_external, update_external, write_reason,
}
use opnsense_operator.Controller.AliasReconciler.Branches.{
  reconfigure_then-err, reconfigure_then-ok, create_external-err, create_external-ok,
  update_external-err, update_external-ok,
}
use opnsense_operator.Controller.AliasReconciler.Deletion.{reconfigured}

-- A write to `path` that was followed by the reconfiguration and then by the report of success.
pub record Published (E : Env) (c : Client) (alias : Alias) (path uuid : String)
    (w w' : World E.State) : Type 0 where
  pub body : String
  pub empty_body : String
  pub reported : E.State
  pub encoded : E.marshal (alias_request (encode_alias (spec_to_alias alias.spec))) ≡ ok body
  pub empty_encoded : E.marshal empty_object ≡ ok empty_body
  pub order :
      w'.log
      ≡ updated_alias_status (
          with_ready E reported
            (synced alias uuid)
            condition_true
            "AliasReady"
            "Alias is in sync with OPNsense")
        ∷ sent c.http_client (request c post "/api/firewall/alias/reconfigure" (some empty_body))
        ∷ sent c.http_client (request c post path (some body))
        ∷ w.log

module _ (E : Env) (c : Client) (alias : Alias) where
  -- The end of a write that was accepted, if no error is returned.
  publish :
      (w0 w : World E.State) (path uuid body : String)
      → E.marshal (alias_request (encode_alias (spec_to_alias alias.spec))) ≡ ok body
      → w.log ≡ sent c.http_client (request c post path (some body)) ∷ w0.log
      → let (o, w') = reconfigure_then E c alias (set_ready_success E alias uuid) w in
        o.error ≡ none
        → ((reconfigure_aliases E c w).0 ≡ ok tt) × Published E c alias path uuid w0 w'
  publish w0 w path uuid body encoded before fine =
      elim (Result-cases (reconfigure_aliases E c w).0) [
        | inr (e, p) ↦
            let (f, q) =
              set_ready_failed-error E alias (reconfigure_aliases E c w).1 "ReconfigureFailed"
                (text_of E e) e in
            let r =
              rw (reconfigure_then-err E c alias w (set_ready_success E alias uuid) e p) at fine in
            absurd (cc)
        | inl (u, p) ↦
            let (empty_body, empty_encoded, last) = reconfigured E c alias w u p in
            (
              p,
              rw (reconfigure_then-ok E c alias w (set_ready_success E alias uuid) u p) (record {
                body = body;
                empty_body = empty_body;
                reported = (reconfigure_aliases E c w).1.state;
                encoded = encoded;
                empty_encoded = empty_encoded;
                order = rw (set_ready_success-log, last, before);
              }),
            )
      ]

  -- A creation that returns no error was confirmed by OPNsense, which gave the UUID; then the
  -- change was taken over; then, and last, the status was written, with this UUID.
  pub create_external-Published :
      (w : World E.State)
      → let (o, w') = create_external E c alias w in
        o.error ≡ none
        → (uuid : String) × ((create_alias E c (spec_to_alias alias.spec) w).0 ≡ ok uuid)
          × ((reconfigure_aliases E c (create_alias E c (spec_to_alias alias.spec) w).1).0 ≡ ok tt)
          × Published E c alias "/api/firewall/alias/addItem" uuid w w'
  create_external-Published w fine =
      let desired = spec_to_alias alias.spec in
      elim (Result-cases (create_alias E c desired w).0) [
        | inr (e, p) ↦
            let (f, q) =
              set_ready_failed-error E alias (create_alias E c desired w).1
                (write_reason "CreateFailed" e) (text_of E e) e in
            let r = rw (create_external-err E c alias w e p) at fine in absurd (cc)
        | inl (uuid, p) ↦
            let (answer, response, q, decoded, r) = create_alias-eq-ok E c desired w uuid p in
            let (body, encoded, log) =
              do_json-sent E c post "/api/firewall/alias/addItem"
                (alias_request (encode_alias desired)) w answer q in
            let equation = create_external-ok E c alias w uuid p in
            let (applied, published) =
              publish w (create_alias E c desired w).1 "/api/firewall/alias/addItem" uuid body
                encoded (rw create_alias_world log) (rw equation at fine) in
            (uuid, p, applied, rw equation published)
      ]

  -- The same of an update, whose UUID was known.
  pub update_external-Published :
      (uuid : String) (w : World E.State)
      → let (o, w') = update_external E c alias uuid w in
        o.error ≡ none
        → ((update_alias E c uuid (spec_to_alias alias.spec) w).0 ≡ ok tt)
          × ((reconfigure_aliases E c (update_alias E c uuid (spec_to_alias alias.spec) w).1).0
              ≡ ok tt)
          × Published E c alias ("/api/firewall/alias/setItem/" <> uuid) uuid w w'
  update_external-Published uuid w fine =
      let desired = spec_to_alias alias.spec in
      let path = "/api/firewall/alias/setItem/" <> uuid in
      elim (Result-cases (update_alias E c uuid desired w).0) [
        | inr (e, p) ↦
            let (f, q) =
              set_ready_failed-error E alias (update_alias E c uuid desired w).1
                (write_reason "UpdateFailed" e) (text_of E e) e in
            let r = rw (update_external-err E c alias w uuid e p) at fine in absurd (cc)
        | inl (u, p) ↦
            let (answer, response, q, decoded, r) = update_alias-eq-ok E c uuid desired w u p in
            let (body, encoded, log) =
              do_json-sent E c post path (alias_request (encode_alias desired)) w answer q in
            let equation = update_external-ok E c alias w uuid u p in
            let (applied, published) =
              publish w (update_alias E c uuid desired w).1 path uuid body encoded
                (rw update_alias_world log) (rw equation at fine) in
            (p, applied, rw equation published)
      ]
