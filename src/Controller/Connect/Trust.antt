-- ===== src/Controller/Connect/Trust.antt =====
-- Which servers a client of `buildHTTPClient` trusts, by the TLS settings of a connection.
use opnsense_operator.Base.{
  String, ◌≡◌, ◌≢◌, ◌↔◌, refl, inl, inr, Bool, true, false, Option, none, some, ok, Option-cases,
  Bool-cases, arith, string_eq,
}
use opnsense_operator.Api.{Secret, SecretReference, TlsSpec}
use opnsense_operator.Runtime.{Env}
use opnsense_operator.Runtime.Monad.{
  World, HttpClient, default_client, root_cas, insecure_skip_verify,
}
use opnsense_operator.Controller.Connect.{secret_key, secret_value, ca_client, build_http_client}
use opnsense_operator.Controller.Connect.Reading.{build_http_client_ca}

abbrev pub ca_of : Option TlsSpec → Option SecretReference
ca_of none = none
ca_of (some tls) = tls.ca_secret_ref

abbrev pub skips : Option TlsSpec → Bool
skips none = false
skips (some tls) = tls.insecure_skip_verify

module _ (E : Env) (tls : Option TlsSpec) (s : E.State) where
  -- The certificates of the CA secret, which has some and whose certificates can be parsed.
  pub record Pinned (pem : String) : Type 0 where
    pub ref : SecretReference
    pub secret : Secret
    pub given : ca_of tls ≡ some ref
    pub found : (E.get_secret (secret_key ref) s).0 ≡ ok secret
    pub pem_is : pem ≡ secret_value "ca.crt" secret
    pub nonempty : pem ≢ ""
    pub parsed : E.append_certs_from_pem pem ≡ true

  -- What the settings say of a client: the system's certificates, those of the CA secret, or any.
  abbrev pub Trusts : Option HttpClient → Type 0
  Trusts none = (ca_of tls ≡ none) × (skips tls ≡ false)
  Trusts (some default_client) = ⊥
  Trusts (some (root_cas pem)) = Pinned pem
  Trusts (some insecure_skip_verify) = (ca_of tls ≡ none) × (skips tls ≡ true)

module _ (E : Env) (w : World E.State) where
  ca-Trusts :
      (tls : TlsSpec) (ref : SecretReference) (h : Option HttpClient)
      → tls.ca_secret_ref ≡ some ref
      → (build_http_client E (some tls) w).0 ≡ ok h
      → Trusts E (some tls) w.state h
  ca-Trusts tls ref h given result =
      let (secret, found, is, nonempty, parsed) = build_http_client_ca E tls ref w h given result in
      rw is (record {
        ref = ref;
        secret = secret;
        given = given;
        found = found;
        pem_is = refl;
        nonempty = nonempty;
        parsed = parsed;
      })

  plain-Trusts :
      (tls : TlsSpec) (h : Option HttpClient)
      → tls.ca_secret_ref ≡ none
      → (build_http_client E (some tls) w).0 ≡ ok h
      → Trusts E (some tls) w.state h
  unfolding build_http_client
  plain-Trusts tls h given result = elim (Bool-cases tls.insecure_skip_verify) [
    | inl p ↦ let is : h ≡ some insecure_skip_verify = ground arith in rw is (given, p)
    | inr p ↦ let is : h ≡ none = ground arith in rw is (given, p)
  ]

  built-Trusts :
      (tls : Option TlsSpec) (h : Option HttpClient)
      → (build_http_client E tls w).0 ≡ ok h
      → Trusts E tls w.state h
  unfolding build_http_client
  built-Trusts none h result = let is : h ≡ none = ground arith in rw is (refl, refl)
  built-Trusts (some tls) h result = elim (Option-cases tls.ca_secret_ref) [
    | inl p ↦ plain-Trusts tls h p result
    | inr (ref, p) ↦ ca-Trusts tls ref h p result
  ]

  Trusts-built :
      (tls : Option TlsSpec) (h : Option HttpClient)
      → Trusts E tls w.state h
      → (build_http_client E tls w).0 ≡ ok h
  unfolding build_http_client ca_client
  Trusts-built none none t = refl
  Trusts-built (some tls) none (given, secure) = ground arith
  Trusts-built none (some default_client) t = absurd t
  Trusts-built (some tls) (some default_client) t = absurd t
  Trusts-built none (some (root_cas pem)) t = let given = t.given in absurd (cc)
  Trusts-built (some tls) (some (root_cas pem)) t =
      let given : tls.ca_secret_ref ≡ some t.ref = t.given in
      let found = t.found in
      let is = t.pem_is in let nonempty = t.nonempty in let parsed = t.parsed in ground arith
  Trusts-built none (some insecure_skip_verify) t = let asked = t.1 in absurd (cc)
  Trusts-built (some tls) (some insecure_skip_verify) (given, asked) = ground arith

  -- `buildHTTPClient` gives a client exactly if the TLS settings ask for its trust: the system's
  -- certificates without a CA secret and without `insecureSkipVerify`, no verification with
  -- `insecureSkipVerify` and without a CA secret, and otherwise, whatever `insecureSkipVerify` says,
  -- the certificates in "ca.crt" of a CA secret that is found and whose certificates can be parsed.
  pub build_http_client-Trusts :
      (tls : Option TlsSpec) (h : Option HttpClient)
      → ((build_http_client E tls w).0 ≡ ok h) ↔ Trusts E tls w.state h
  build_http_client-Trusts tls h = (built-Trusts tls h, Trusts-built tls h)
