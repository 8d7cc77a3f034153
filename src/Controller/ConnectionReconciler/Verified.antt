-- ===== src/Controller/ConnectionReconciler/Verified.antt =====
-- What the reconcile of a connection has found out when it reports that the connection works.
use opnsense_operator.Base.{
  ◌<>◌, ◌≡◌, ◌≢◌, ◌⊎◌, inl, inr, Option, some, Error, ok, ◌∷◌, Result-cases, string_eq,
}
use opnsense_operator.Api.{Key, Secret, OpnsenseConnection, condition_true}
use opnsense_operator.Runtime.{Env}
use opnsense_operator.Runtime.Monad.{World, HttpClient, updated_connection_status}
use opnsense_operator.Opnsense.Types.{Client}
use opnsense_operator.Opnsense.Transport.{new_client, check_connectivity}
use opnsense_operator.Controller.Outcome.{Outcome, returns}
use opnsense_operator.Controller.Connect.{build_http_client, secret_key, secret_value}
use opnsense_operator.Controller.ConnectionReconciler.{connect, reconcile, with_ready}
use opnsense_operator.Controller.ConnectionReconciler.Branches.{
  verified-log, connect_tls-err, connect-err, connect-ok, verified-requeue, with_credentials-cases,
  reconcile_connection-err, reconcile_connection-ok, reconcile-connection,
}

module _ (E : Env) (conn : OpnsenseConnection) where
  -- The worlds behind the read of the secret, and behind the building of the TLS client.
  abbrev pub secret_world : World E.State → World E.State
  secret_world w = record w {
    state = (E.get_secret (secret_key conn.spec.credentials.secret_ref) w.state).1;
  }

  abbrev pub tls_world : World E.State → World E.State
  tls_world w = (build_http_client E conn.spec.tls (secret_world w)).1

  -- The client with the credentials of the secret.
  abbrev pub client_of : Secret → Option HttpClient → Client
  client_of secret http_client =
      new_client conn.spec.url (secret_value "apiKey" secret) (secret_value "apiSecret" secret)
        http_client

  -- The check has passed: with the credentials of the secret and the TLS configuration of the spec,
  -- OPNsense answered, and then "Ready" was set to "True".
  pub record Verified (w w' : World E.State) : Type 0 where
    pub secret : Secret
    pub http_client : Option HttpClient
    pub secret_found :
        (E.get_secret (secret_key conn.spec.credentials.secret_ref) w.state).0 ≡ ok secret
    pub has_key : secret_value "apiKey" secret ≢ ""
    pub has_secret : secret_value "apiSecret" secret ≢ ""
    pub tls_built : (build_http_client E conn.spec.tls (secret_world w)).0 ≡ ok http_client
    pub reached : (check_connectivity E (client_of secret http_client) (tls_world w)).0 ≡ ok tt
    pub log_after :
        let checked = (check_connectivity E (client_of secret http_client) (tls_world w)).1 in
        w'.log
        ≡ updated_connection_status (
            with_ready E checked.state conn condition_true "ConnectionVerified"
              ("Successfully connected to OPNsense at " <> conn.spec.url))
          ∷ checked.log

  -- The two ends of a check.
  abbrev pub Ended : (w : World E.State) → Outcome → World E.State → Type 0
  Ended w o w' = ((o.requeue_after ≡ 300) × Verified w w') ⊎ ((e : Error) × (o ≡ returns (some e)))

  connect-Ended :
      (w : World E.State) (secret : Secret)
      → (E.get_secret (secret_key conn.spec.credentials.secret_ref) w.state).0 ≡ ok secret
      → secret_value "apiKey" secret ≢ ""
      → secret_value "apiSecret" secret ≢ ""
      → let (o, w') =
          connect E conn
            (secret_value "apiKey" secret)
            (secret_value "apiSecret" secret)
            (secret_world w) in
        Ended w o w'
  connect-Ended w secret p k s =
      let w1 = secret_world w in
      let api_key = secret_value "apiKey" secret in
      let api_secret = secret_value "apiSecret" secret in
      elim (Result-cases (build_http_client E conn.spec.tls w1).0) [
        | inr (e, q) ↦ inr (connect_tls-err E conn api_key api_secret w1 e q)
        | inl (h, q) ↦
            let c = new_client conn.spec.url api_key api_secret h in
            let w2 = (build_http_client E conn.spec.tls w1).1 in
            elim (Result-cases (check_connectivity E c w2).0) [
              | inr (e, r) ↦ inr (connect-err E conn api_key api_secret w1 h e q r)
              | inl (u, r) ↦ rw (connect-ok E conn api_key api_secret w1 h q r) (
                  inl (
                    verified-requeue E conn (check_connectivity E c w2).1,
                    record {
                      secret = secret;
                      http_client = h;
                      secret_found = p;
                      has_key = k;
                      has_secret = s;
                      tls_built = q;
                      reached = r;
                      log_after = verified-log E conn (check_connectivity E c w2).1;
                    },
                  ))
            ]
      ]

  -- A reconcile of a connection that exists either returns an error and no delay, or asks to be
  -- repeated after 300 seconds; then OPNsense has answered the check with the credentials of the
  -- secret and the TLS settings of the spec, and a status with "Ready" at "True" was written last,
  -- whether or not that write succeeded.
  pub reconcile-Ended :
      (key : Key) (w : World E.State)
      → (E.get_connection key w.state).0 ≡ ok conn
      → Ended
          (record w { state = (E.get_connection key w.state).1 })
          (reconcile E key w).0
          (reconcile E key w).1
  reconcile-Ended key w got =
      let w0 : World E.State = record w { state = (E.get_connection key w.state).1 } in
      let secret_ref = secret_key conn.spec.credentials.secret_ref in
      rw (reconcile-connection E conn key w got)
        (elim (Result-cases (E.get_secret secret_ref w0.state).0) [
          | inr (e, p) ↦ inr (reconcile_connection-err E conn w0 e p)
          | inl (secret, p) ↦ rw (reconcile_connection-ok E conn w0 secret p) (
              let w1 : World E.State = record w0 { state = (E.get_secret secret_ref w0.state).1 } in
              elim (with_credentials-cases E conn secret_ref secret w1) [
                | inl failure ↦ inr failure
                | inr (k, s, q) ↦ rw q (connect-Ended w0 secret p k s)
              ])
        ])
