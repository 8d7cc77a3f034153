-- ===== src/Controller/ConnectionReconciler/Protocol.antt =====
-- The calls that a reconcile of a connection may make, in their order, as a protocol.
use opnsense_operator.Base.{
  err, false, String, ◌≡◌, ◌⊎◌, inl, inr, Option, none, some, List, ◌∷◌, Error, ok, refl,
  Result-cases, Option-cases, arith, string_eq,
}
use mathlib.Core.Path.{subst}
use opnsense_operator.Api.{OpnsenseConnection, condition_true, condition_false}
use opnsense_operator.Runtime.{Env}
use opnsense_operator.Runtime.Monad.{World, Event, HttpClient, updated_connection_status, get}
use opnsense_operator.Opnsense.Types.{Client}
use opnsense_operator.Opnsense.Transport.{new_client, do_json, check_connectivity}
use opnsense_operator.Opnsense.Transport.Sending.{Sends, Once, One, do_json-Once, do_json-One}
use opnsense_operator.Controller.Outcome.{Outcome, returns}
use opnsense_operator.Controller.Connect.{secret_key}
use opnsense_operator.Controller.ConnectionReconciler.{
  set_ready_condition, set_ready_failed, verified, with_ready,
}

abbrev pub status_path : String
status_path = "/api/core/system/status"

module _ (E : Env) (conn : OpnsenseConnection) where
  -- A GET of the system's status at the address of the connection.
  abbrev pub Checks : Event → Type 0
  Checks e =
      (key : String) × (secret : String) × (h : Option HttpClient) × Sends
        (new_client conn.spec.url key secret h) get status_path e

  -- A status with "Ready" at this value and with this reason.
  abbrev pub Reports : String → String → Event → Type 0
  Reports status reason e =
      (s : E.State) × (text : String) × (e
        ≡ updated_connection_status (with_ready E s conn status reason text))

  -- The reasons of a failure before anything is sent.
  abbrev pub IsEarly : String → Type 0
  IsEarly reason =
      (reason ≡ "SecretNotFound") ⊎ (reason ≡ "InvalidCredentials") ⊎ (reason ≡ "ConnectionFailed")

  -- What a reconcile returns, and the calls that it has made behind `old`, the newest first.
  pub data CheckRun (old : List Event) : Outcome → List Event → Type 0 where
    -- The secret could not be read, but may exist.
    unread :
        {e f : Error} {s : E.State}
        → (E.get_secret (secret_key conn.spec.credentials.secret_ref) s).0 ≡ err e
        → E.is_not_found e ≡ false
        → CheckRun old (returns (some f)) old
    -- There is no client to check with, or it could not send.
    unsent :
        {f : Error} {reason : String} {e : Event}
        → IsEarly reason
        → Reports condition_false reason e
        → CheckRun old (returns (some f)) (e ∷ old)
    unreached :
        {f : Error} {check e : Event}
        → Checks check
        → Reports condition_false "ConnectionFailed" e
        → CheckRun old (returns (some f)) (e ∷ check ∷ old)
    reached :
        {f : Option Error} {check e : Event}
        → Checks check
        → Reports condition_true "ConnectionVerified" e
        → CheckRun old (record { requeue_after = 300; error = f }) (e ∷ check ∷ old)

  -- A report of a failure: the error that is returned, and the write.
  Failed : String → List Event → Outcome → List Event → Type 0
  Failed reason old o log =
      (f : Error) × (e : Event) × Reports condition_false reason e
      × (o ≡ returns (some f))
      × (log ≡ e ∷ old)

  set_ready_failed-Failed :
      (reason text : String) (cause : Error) (w : World E.State)
      → let (o, w') = set_ready_failed E conn reason text cause w in Failed reason w.log o w'.log
  unfolding Failed set_ready_failed set_ready_condition
  set_ready_failed-Failed reason text cause w =
      let next = with_ready E w.state conn condition_false reason text in
      elim (Option-cases (E.update_connection_status next w.state).0) [
        | inl p ↦ (
          cause,
          updated_connection_status next,
          (w.state, text, refl),
          ground arith,
          ground arith,
        )
        | inr (f, p) ↦ (
          Error.wrap "update OPNsenseConnection status: " f "",
          updated_connection_status next,
          (w.state, text, refl),
          ground arith,
          ground arith,
        )
      ]

  check_connectivity-world :
      (c : Client) (w : World E.State)
      → (check_connectivity E c w).1 ≡ (do_json E c get status_path none w).1
  unfolding check_connectivity
  check_connectivity-world c w = elim (Result-cases (do_json E c get status_path none w).0) [
    | inl (text, p) ↦ ground arith
    | inr (e, p) ↦ ground arith
  ]

  check_connectivity-Once :
      (c : Client) (w : World E.State)
      → Once E c get status_path none w (check_connectivity E c w).1
  check_connectivity-Once c w =
      rw (check_connectivity-world c w) (do_json-Once E c get status_path none w)

  check_connectivity-One :
      (c : Client) (w : World E.State)
      → (check_connectivity E c w).0 ≡ ok tt
      → One E c get status_path none w (check_connectivity E c w).1
  unfolding check_connectivity
  check_connectivity-One c w h = elim (Result-cases (do_json E c get status_path none w).0) [
    | inl (text, p) ↦
        rw (check_connectivity-world c w) (do_json-One E c get status_path none w text p)
    | inr (e, p) ↦ absurd (ground arith)
  ]

  -- A failed report behind a check that was sent or not.
  unsent-Failed :
      (reason : String) (old : List Event) (o : Outcome) (log : List Event)
      → IsEarly reason
      → Failed reason old o log
      → CheckRun old o log
  unfolding Failed
  unsent-Failed reason old o log early (f, e, r, p, q) = rw (p, q) (unsent early r)

  unreached-Failed :
      (old : List Event) (check : Event) (o : Outcome) (log : List Event)
      → Checks check
      → Failed "ConnectionFailed" (check ∷ old) o log
      → CheckRun old o log
  unfolding Failed
  unreached-Failed old check o log c (f, e, r, p, q) = rw (p, q) (unreached c r)

  pub unsent-Run :
      (reason text : String) (cause : Error) (w : World E.State)
      → IsEarly reason
      → let (o, w') = set_ready_failed E conn reason text cause w in CheckRun w.log o w'.log
  unsent-Run reason text cause w early =
      unsent-Failed reason w.log _ _ early (set_ready_failed-Failed reason text cause w)

  -- Behind a check that has failed, and behind one that has not.
  module _ (c : Client) (w : World E.State)
      (is : (e : Event) → Sends c get status_path e → Checks e) where
    pub refused-Run :
        (text : String) (cause : Error)
        → let (o, w') =
            set_ready_failed E conn "ConnectionFailed" text cause (check_connectivity E c w).1 in
          CheckRun w.log o w'.log
    refused-Run text cause =
        let w1 = (check_connectivity E c w).1 in
        let (o, w2) = set_ready_failed E conn "ConnectionFailed" text cause w1 in
        elim (check_connectivity-Once c w) [
          | inl q ↦
              subst (λ l. CheckRun l o w2.log) q
                (unsent-Run "ConnectionFailed" text cause w1 (inr (inr refl)))
          | inr (e, s, q) ↦ unreached-Failed w.log e o w2.log (is e s) (
              subst (λ l. Failed "ConnectionFailed" l o w2.log) q
                (set_ready_failed-Failed "ConnectionFailed" text cause w1))
        ]

    pub verified-Run :
        (check_connectivity E c w).0 ≡ ok tt
        → let (o, w') = verified E conn (check_connectivity E c w).1 in CheckRun w.log o w'.log
    unfolding verified set_ready_condition
    verified-Run h =
        let (e, s, q) = check_connectivity-One c w h in
        rw q (reached (is e s) ((check_connectivity E c w).1.state, _, refl))
