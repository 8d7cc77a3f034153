-- ===== src/Controller/Connect.antt =====
-- `buildHTTPClient`, and `buildOPNsenseClient`, which the two resource reconcilers spell alike.
pub mod Reading
pub mod Trust
use opnsense_operator.Base.{
  String, ◌≡◌, refl, ◌⊎◌, inl, inr, ◌<>◌, not, ◌||◌, Option, none, some, Error, Result, ok, err,
  ◌==◌, string_eq, if◌then◌else◌,
}
use opnsense_operator.Base.Dict
use opnsense_operator.Base.Dict.{Dict}
use opnsense_operator.Api.{
  Key, Secret, SecretReference, TlsSpec, ConnectionReference, OpnsenseConnection,
}
use opnsense_operator.Runtime.{Env}
use opnsense_operator.Runtime.Monad.{
  Step, Action, HttpClient, root_cas, insecure_skip_verify, ask, pure, return,
}
use opnsense_operator.Runtime.Plain.{◌>>=◌}
use opnsense_operator.Opnsense.Types.{Client}
use opnsense_operator.Opnsense.Transport.{new_client}
use opnsense_operator.Controller.Outcome.{is_ready}

abbrev pub secret_key : SecretReference → Key
secret_key ref = record { namespace = ref.namespace; name = ref.name }

-- `%s/%s` of a key
abbrev pub key_text : Key → String
key_text key = key.namespace <> ("/" <> key.name)

-- `secret.Data[…]` as a string
abbrev pub secret_value : String → Secret → String
secret_value name secret = Dict.get_or "" name secret.contents

-- The pool that a fetched CA secret fills.
unfoldable pub ca_client : Env → Key → Secret → Result (Option HttpClient)
ca_client E key secret =
    let pem = secret_value "ca.crt" secret in
    if pem == ""
    then err (Error.plain ("CA Secret " <> (key_text key <> " must have a non-empty key 'ca.crt'")))
    else if E.append_certs_from_pem pem
    then ok (some (root_cas pem))
    else err (Error.plain ("failed to parse CA certificate from Secret " <> key_text key))

-- A refusal has the reason for the status condition, and the error.
pub data Built : Type 0 where
  built : Client → Built
  refused : String → Error → Built

pub Built-cases :
    (b : Built)
    → ((c : Client) × (b ≡ built c)) ⊎ ((reason : String) × (e : Error) × (b ≡ refused reason e))
Built-cases (built c) = inl (c, refl)
Built-cases (refused reason e) = inr (reason, e, refl)

-- The TLS client in place of a nil one.
abbrev from_tls : String → String → String → Result (Option HttpClient) → Built
from_tls url api_key api_secret (ok http_client) =
    built (new_client url api_key api_secret http_client)
from_tls url api_key api_secret (err e) =
    refused "TLSConfigFailed" (Error.wrap "build TLS client: " e "")

module _ (E : Env) where
  -- `buildHTTPClient`; `none` is nil, which stands for `http.DefaultClient`.
  unfoldable pub build_http_client : Option TlsSpec → Action E.State (Option HttpClient)
  build_http_client none = return none
  build_http_client (some tls) = elim tls.ca_secret_ref [
    | none ↦ if tls.insecure_skip_verify then return (some insecure_skip_verify) else return none
    | some ref ↦ do
      let key = secret_key ref
      secret ← ask (E.get_secret key)
      elim secret [
        | err e ↦ pure (err (Error.wrap ("fetch CA Secret " <> (key_text key <> ": ")) e ""))
        | ok found ↦ pure (ca_client E key found)
      ]
  ]

  -- The credentials of a connection that is ready.
  unfoldable pub with_secret : OpnsenseConnection → Key → Secret → Step E.State Built
  with_secret conn key secret =
      let api_key = secret_value "apiKey" secret in
      let api_secret = secret_value "apiSecret" secret in
      if api_key == "" || api_secret == ""
      then pure (
          refused "CredentialsInvalid" (
            Error.plain (
              "credentials Secret "
              <> (key_text key <> " must have non-empty 'apiKey' and 'apiSecret'"))))
      else do
        http_client ← build_http_client conn.spec.tls
        pure (from_tls conn.spec.url api_key api_secret http_client)

  unfoldable pub with_connection : OpnsenseConnection → Step E.State Built
  with_connection conn =
      let key = secret_key conn.spec.credentials.secret_ref in
      if not (is_ready E conn.status.conditions)
      then pure (
          refused "ConnectionNotReady"
            (Error.plain ("OPNsenseConnection " <> (E.quote conn.meta.name <> " is not ready"))))
      else do
        secret ← ask (E.get_secret key)
        elim secret [
          | err e ↦ pure (
              refused "CredentialsNotFound"
                (Error.wrap ("fetch credentials Secret " <> (key_text key <> ": ")) e ""))
          | ok found ↦ with_secret conn key found
        ]

  -- `buildOPNsenseClient`
  unfoldable pub build_opnsense_client : ConnectionReference → Step E.State Built
  build_opnsense_client ref = do
    conn ← ask (E.get_connection (record { namespace = ""; name = ref.name }))
    elim conn [
      | err e ↦ pure (
          refused "ConnectionNotFound"
            (Error.wrap ("fetch OPNsenseConnection " <> (E.quote ref.name <> ": ")) e ""))
      | ok found ↦ with_connection found
    ]
