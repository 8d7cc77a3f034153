-- ===== src/Controller/Connect/Reading.antt =====
-- `buildOPNsenseClient` and `buildHTTPClient`, by what they read and what they build.
use opnsense_operator.Base.{
  ◌≡◌, ◌≢◌, refl, inl, inr, true, Option, none, some, ok, Result-cases, arith,
}
use opnsense_operator.Api.{
  Key, Secret, SecretReference, TlsSpec, ConnectionReference, OpnsenseConnection,
}
use opnsense_operator.Runtime.{Env}
use opnsense_operator.Runtime.Monad.{World, HttpClient, root_cas, insecure_skip_verify}
use opnsense_operator.Opnsense.Types.{Client}
use opnsense_operator.Opnsense.Transport.{new_client}
use opnsense_operator.Controller.Outcome.{is_ready}
use opnsense_operator.Controller.Connect.{
  secret_key, secret_value, ca_client, built, build_http_client, with_secret, with_connection,
  build_opnsense_client,
}

module _ (E : Env) where
  pub build_http_client-log :
      (tls : Option TlsSpec) (w : World E.State) → (build_http_client E tls w).1.log ≡ w.log
  unfolding build_http_client
  build_http_client-log none w = refl
  build_http_client-log (some tls) w = ground arith

  with_secret-log :
      (conn : OpnsenseConnection) (key : Key) (secret : Secret) (w : World E.State)
      → (with_secret E conn key secret w).1.log ≡ w.log
  unfolding with_secret
  with_secret-log conn key secret w = ground (arith, build_http_client-log conn.spec.tls w)

  with_connection-log :
      (conn : OpnsenseConnection) (w : World E.State) → (with_connection E conn w).1.log ≡ w.log
  unfolding with_connection
  with_connection-log conn w =
      let key = secret_key conn.spec.credentials.secret_ref in
      elim (Result-cases (E.get_secret key w.state).0) [
        | inl (secret, p) ↦ ground (
          arith,
          with_secret-log conn key secret (record w { state = (E.get_secret key w.state).1 }),
        )
        | inr (e, p) ↦ ground arith
      ]

  abbrev connection_key : ConnectionReference → Key
  connection_key ref = record { namespace = ""; name = ref.name }

  -- Building a client sends nothing and writes nothing.
  pub build_opnsense_client-log :
      (ref : ConnectionReference) (w : World E.State)
      → (build_opnsense_client E ref w).1.log ≡ w.log
  unfolding build_opnsense_client
  build_opnsense_client-log ref w =
      let answer = E.get_connection (connection_key ref) w.state in
      elim (Result-cases answer.0) [
        | inl (conn, p) ↦ ground (arith, with_connection-log conn (record w { state = answer.1 }))
        | inr (e, p) ↦ ground arith
      ]

  -- A TLS client that skips verification was asked for, and no CA was given.
  pub build_http_client_insecure :
      (tls : TlsSpec) (w : World E.State)
      → (build_http_client E (some tls) w).0 ≡ ok (some insecure_skip_verify)
      → (tls.ca_secret_ref ≡ none) × (tls.insecure_skip_verify ≡ true)
  unfolding build_http_client ca_client
  build_http_client_insecure tls w h = ground arith

  -- With a CA secret the client trusts the certificates of that secret's "ca.crt", which is not
  -- empty and could be parsed, whatever `insecureSkipVerify` says; otherwise there is an error.
  pub build_http_client_ca :
      (tls : TlsSpec) (ref : SecretReference) (w : World E.State) (h : Option HttpClient)
      → tls.ca_secret_ref ≡ some ref
      → (build_http_client E (some tls) w).0 ≡ ok h
      → (secret : Secret) × ((E.get_secret (secret_key ref) w.state).0 ≡ ok secret)
        × (h ≡ some (root_cas (secret_value "ca.crt" secret)))
        × (secret_value "ca.crt" secret ≢ "")
        × (E.append_certs_from_pem (secret_value "ca.crt" secret) ≡ true)
  unfolding build_http_client ca_client
  build_http_client_ca tls ref w h given result =
      elim (Result-cases (E.get_secret (secret_key ref) w.state).0) [
        | inr (e, p) ↦ absurd (ground arith)
        | inl (secret, p) ↦ (secret, p, ground arith, ground arith, ground arith)
      ]

  -- What `buildOPNsenseClient` has read when it gives a client.
  pub record Connected (ref : ConnectionReference) (w : World E.State) (c : Client) : Type 0 where
    pub conn : OpnsenseConnection
    pub secret : Secret
    pub http_client : Option HttpClient
    pub conn_found : (E.get_connection (connection_key ref) w.state).0 ≡ ok conn
    pub ready : is_ready E conn.status.conditions ≡ true
    pub secret_found :
        (E.get_secret
          (secret_key conn.spec.credentials.secret_ref)
          (E.get_connection (connection_key ref) w.state).1).0
        ≡ ok secret
    pub has_key : secret_value "apiKey" secret ≢ ""
    pub has_secret : secret_value "apiSecret" secret ≢ ""
    pub tls_built :
        (build_http_client E conn.spec.tls (record w {
          state =
              (E.get_secret
                (secret_key conn.spec.credentials.secret_ref)
                (E.get_connection (connection_key ref) w.state).1).1;
        })).0
        ≡ ok http_client
    pub client_is :
        c
        ≡ new_client conn.spec.url
            (secret_value "apiKey" secret)
            (secret_value "apiSecret" secret)
            http_client

  with_secret-eq-built :
      (conn : OpnsenseConnection) (key : Key) (secret : Secret) (w : World E.State) (c : Client)
      → (with_secret E conn key secret w).0 ≡ built c
      → (h : Option HttpClient) × ((build_http_client E conn.spec.tls w).0 ≡ ok h)
        × (secret_value "apiKey" secret ≢ "")
        × (secret_value "apiSecret" secret ≢ "")
        × (c
            ≡ new_client conn.spec.url
                (secret_value "apiKey" secret)
                (secret_value "apiSecret" secret)
                h)
  unfolding with_secret
  with_secret-eq-built conn key secret w c result =
      elim (Result-cases (build_http_client E conn.spec.tls w).0) [
        | inr (e, p) ↦ absurd (ground arith)
        | inl (h, p) ↦ (h, p, ground arith, ground arith, ground arith)
      ]

  -- A client is built only from a connection that is ready, a secret whose "apiKey" and "apiSecret"
  -- are not empty, and a TLS configuration that could be set up; it has their address and values.
  pub build_opnsense_client-Connected :
      (ref : ConnectionReference) (w : World E.State) (c : Client)
      → (build_opnsense_client E ref w).0 ≡ built c
      → Connected ref w c
  unfolding build_opnsense_client with_connection
  build_opnsense_client-Connected ref w c result =
      let answer = E.get_connection (connection_key ref) w.state in
      elim (Result-cases answer.0) [
        | inr (e, p) ↦ absurd (ground arith)
        | inl (conn, p) ↦
            let key = secret_key conn.spec.credentials.secret_ref in
            let secrets = E.get_secret key answer.1 in
            elim (Result-cases secrets.0) [
              | inr (e, q) ↦ absurd (ground arith)
              | inl (secret, q) ↦
                  let (h, t, k, s, i) =
                    with_secret-eq-built conn key secret (record w { state = secrets.1 }) c
                      (ground arith) in
                  record {
                    conn = conn;
                    secret = secret;
                    http_client = h;
                    conn_found = p;
                    ready = ground arith;
                    secret_found = q;
                    has_key = k;
                    has_secret = s;
                    tls_built = t;
                    client_is = i;
                  }
            ]
      ]
