-- ===== src/Controller/ConnectionReconciler/Branches.antt =====
-- The branches of the reconcile of a connection, as equations.
use opnsense_operator.Base.{
  String, ◌<>◌, ◌≡◌, ◌≢◌, ◌⊎◌, refl, inl, inr, Option, some, Error, ok, err, ◌∷◌, true, false,
  Option-cases, Bool-cases, arith, string_eq,
}
use opnsense_operator.Api.{Key, Secret, OpnsenseConnection, condition_true}
use opnsense_operator.Runtime.{Env}
use opnsense_operator.Runtime.Monad.{World, HttpClient, updated_connection_status}
use opnsense_operator.Opnsense.Transport.{new_client, check_connectivity}
use opnsense_operator.Controller.Outcome.{returns, text_of}
use opnsense_operator.Controller.Connect.{build_http_client, secret_key, secret_value, key_text}
use opnsense_operator.Controller.ConnectionReconciler.{
  set_ready_condition, set_ready_failed, verified, connect, with_credentials, reconcile_connection,
  reconcile, with_ready,
}

module _ (E : Env) (conn : OpnsenseConnection) where
  set_ready_failed-returns :
      (w : World E.State) (reason text : String) (cause : Error)
      → (e : Error) × ((set_ready_failed E conn reason text cause w).0 ≡ returns (some e))
  unfolding set_ready_failed
  set_ready_failed-returns w reason text cause =
      elim (Option-cases (set_ready_condition E conn "False" reason text w).0) [
        | inl p ↦ (cause, ground arith)
        | inr (e, p) ↦ (e, ground arith)
      ]

  pub verified-log :
      (w : World E.State)
      → (verified E conn w).1.log
        ≡ updated_connection_status (
            with_ready E w.state conn condition_true "ConnectionVerified"
              ("Successfully connected to OPNsense at " <> conn.spec.url))
          ∷ w.log
  unfolding verified set_ready_condition
  verified-log w = refl

  pub connect_tls-failed :
      (key secret : String) (w : World E.State) (e : Error)
      → (build_http_client E conn.spec.tls w).0 ≡ err e
      → connect E conn key secret w
        ≡ set_ready_failed E conn "ConnectionFailed"
            ("Could not configure TLS for OPNsense at " <> (conn.spec.url <> (": " <> text_of E e)))
            e
            (build_http_client E conn.spec.tls w).1
  unfolding connect
  connect_tls-failed key secret w e p = ground arith

  pub connect-failed :
      (key secret : String) (w : World E.State) (h : Option HttpClient) (e : Error)
      → (build_http_client E conn.spec.tls w).0 ≡ ok h
      → let w1 = (build_http_client E conn.spec.tls w).1 in
        let c = new_client conn.spec.url key secret h in
        (check_connectivity E c w1).0 ≡ err e
        → connect E conn key secret w
          ≡ set_ready_failed E conn "ConnectionFailed"
              ("Could not connect to OPNsense at " <> (conn.spec.url <> (": " <> text_of E e)))
              e
              (check_connectivity E c w1).1
  unfolding connect
  connect-failed key secret w h e p q = ground arith

  pub connect_tls-err :
      (api_key api_secret : String) (w : World E.State) (e : Error)
      → (build_http_client E conn.spec.tls w).0 ≡ err e
      → (f : Error) × ((connect E conn api_key api_secret w).0 ≡ returns (some f))
  unfolding connect
  connect_tls-err api_key api_secret w e p =
      let text =
        "Could not configure TLS for OPNsense at " <> (conn.spec.url <> (": " <> text_of E e)) in
      let (f, q) =
        set_ready_failed-returns (build_http_client E conn.spec.tls w).1 "ConnectionFailed" text
          e in
      (f, ground (arith, q))

  pub connect-err :
      (api_key api_secret : String) (w : World E.State) (h : Option HttpClient) (e : Error)
      → (build_http_client E conn.spec.tls w).0 ≡ ok h
      → let w1 = (build_http_client E conn.spec.tls w).1 in
        let c = new_client conn.spec.url api_key api_secret h in
        (check_connectivity E c w1).0 ≡ err e
        → (f : Error) × ((connect E conn api_key api_secret w).0 ≡ returns (some f))
  unfolding connect
  connect-err api_key api_secret w h e p q =
      let w1 = (build_http_client E conn.spec.tls w).1 in
      let c = new_client conn.spec.url api_key api_secret h in
      let text = "Could not connect to OPNsense at " <> (conn.spec.url <> (": " <> text_of E e)) in
      let (f, r) =
        set_ready_failed-returns (check_connectivity E c w1).1 "ConnectionFailed" text e in
      (f, ground (arith, r))

  pub connect-ok :
      (api_key api_secret : String) (w : World E.State) (h : Option HttpClient)
      → (build_http_client E conn.spec.tls w).0 ≡ ok h
      → let w1 = (build_http_client E conn.spec.tls w).1 in
        let c = new_client conn.spec.url api_key api_secret h in
        (check_connectivity E c w1).0 ≡ ok tt
        → connect E conn api_key api_secret w ≡ verified E conn (check_connectivity E c w1).1
  unfolding connect
  connect-ok api_key api_secret w h p q = ground arith

  pub verified-requeue : (w : World E.State) → (verified E conn w).0.requeue_after ≡ 300
  unfolding verified
  verified-requeue w = refl

  pub with_credentials-cases :
      (key : Key) (secret : Secret) (w : World E.State)
      → ((f : Error) × ((with_credentials E conn key secret w).0 ≡ returns (some f)))
        ⊎ ((secret_value "apiKey" secret ≢ "")
            × (secret_value "apiSecret" secret ≢ "")
            × (with_credentials E conn key secret w
                ≡ connect E conn
                    (secret_value "apiKey" secret)
                    (secret_value "apiSecret" secret)
                    w))
  unfolding with_credentials
  with_credentials-cases key secret w =
      let (f, q) =
        set_ready_failed-returns w "InvalidCredentials"
          ("Secret " <> (key_text key <> " must have non-empty keys 'apiKey' and 'apiSecret'"))
          (Error.plain ("secret " <> (key_text key <> " is missing required credential keys"))) in
      elim (string_eq.dec (secret_value "apiKey" secret) "") [
        | yes p ↦ inl (f, ground (arith, q))
        | no p ↦ elim (string_eq.dec (secret_value "apiSecret" secret) "") [
          | yes r ↦ inl (f, ground (arith, q))
          | no r ↦ inr (p, r, ground arith)
        ]
      ]

  pub reconcile_connection-err :
      (w : World E.State) (e : Error)
      → let key = secret_key conn.spec.credentials.secret_ref in
        (E.get_secret key w.state).0 ≡ err e
        → (f : Error) × ((reconcile_connection E conn w).0 ≡ returns (some f))
  unfolding reconcile_connection
  reconcile_connection-err w e p =
      let key = secret_key conn.spec.credentials.secret_ref in
      let (f, q) =
        set_ready_failed-returns (record w { state = (E.get_secret key w.state).1 })
          "SecretNotFound" ("Secret " <> (key_text key <> " not found")) e in
      elim (Bool-cases (E.is_not_found e)) [
        | inl n ↦ (f, ground (arith, q))
        | inr n ↦
            (Error.wrap ("fetch credentials Secret " <> (key_text key <> ": ")) e "", ground arith)
      ]

  pub reconcile_connection-missing :
      (w : World E.State) (e : Error)
      → let key = secret_key conn.spec.credentials.secret_ref in
        (E.get_secret key w.state).0 ≡ err e
        → E.is_not_found e ≡ true
        → reconcile_connection E conn w
          ≡ set_ready_failed E conn "SecretNotFound"
              ("Secret " <> (key_text key <> " not found"))
              e
              (record w { state = (E.get_secret key w.state).1 })
  unfolding reconcile_connection
  reconcile_connection-missing w e p n = ground arith

  pub reconcile_connection-unread :
      (w : World E.State) (e : Error)
      → let key = secret_key conn.spec.credentials.secret_ref in
        (E.get_secret key w.state).0 ≡ err e
        → E.is_not_found e ≡ false
        → reconcile_connection E conn w ≡ (
          returns (some (Error.wrap ("fetch credentials Secret " <> (key_text key <> ": ")) e "")),
          record w { state = (E.get_secret key w.state).1 },
        )
  unfolding reconcile_connection
  reconcile_connection-unread w e p n = ground arith

  pub reconcile_connection-ok :
      (w : World E.State) (secret : Secret)
      → let key = secret_key conn.spec.credentials.secret_ref in
        (E.get_secret key w.state).0 ≡ ok secret
        → reconcile_connection E conn w
          ≡ with_credentials E conn key secret (record w { state = (E.get_secret key w.state).1 })
  unfolding reconcile_connection
  reconcile_connection-ok w secret p = ground arith

  pub reconcile-connection :
      (key : Key) (w : World E.State)
      → (E.get_connection key w.state).0 ≡ ok conn
      → reconcile E key w
        ≡ reconcile_connection E conn (record w { state = (E.get_connection key w.state).1 })
  unfolding reconcile
  reconcile-connection key w p = ground arith
