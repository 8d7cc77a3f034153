-- ===== src/Controller/ConnectionReconciler.antt =====
-- internal/controller/opnsenseconnection_controller.go
pub mod Branches
pub mod Verified
pub mod Protocol
pub mod Runs
use opnsense_operator.Base.{
  String, ◌<>◌, ◌||◌, Option, none, some, Error, ok, err, ◌==◌, string_eq, if◌then◌else◌,
}
use opnsense_operator.Api.{Key, Secret, OpnsenseConnection, condition_true, condition_false}
use opnsense_operator.Runtime.{Env}
use opnsense_operator.Runtime.Monad.{Step, updated_connection_status, ask, tell, pure}
use opnsense_operator.Runtime.Plain.{◌>>=◌}
use opnsense_operator.Opnsense.Transport.{new_client, check_connectivity}
use opnsense_operator.Controller.Outcome.{Outcome, returns, wrap_some, text_of, ready_condition}
use opnsense_operator.Controller.Connect.{build_http_client, secret_key, key_text, secret_value}

-- The object with its "Ready" condition set.
abbrev pub with_ready :
    (E : Env) → E.State → OpnsenseConnection → String → String → String → OpnsenseConnection
with_ready E s conn status reason text = record conn {
  status = record {
    conditions =
        E.set_status_condition s conn.status.conditions
          (ready_condition status reason text conn.meta.generation);
  };
}

module _ (E : Env) where
  unfoldable pub set_ready_condition :
      OpnsenseConnection → String → String → String → Step E.State (Option Error)
  set_ready_condition conn status reason text w =
      let conn' = with_ready E w.state conn status reason text in
      let (e, w') = tell (updated_connection_status conn') (E.update_connection_status conn') w in
      (wrap_some "update OPNsenseConnection status: " e, w')

  unfoldable pub set_ready_failed :
      OpnsenseConnection → String → String → Error → Step E.State Outcome
  set_ready_failed conn reason text cause = do
    e ← set_ready_condition conn condition_false reason text
    elim e [ some failure ↦ pure (returns (some failure)) | none ↦ pure (returns (some cause)) ]

  -- The success of a check, to be repeated in five minutes.
  unfoldable pub verified : OpnsenseConnection → Step E.State Outcome
  verified conn = do
    e ←
        set_ready_condition conn condition_true "ConnectionVerified"
          ("Successfully connected to OPNsense at " <> conn.spec.url)
    pure (record { requeue_after = 300; error = e })

  -- The TLS configuration and the check, with credentials.
  unfoldable pub connect : OpnsenseConnection → String → String → Step E.State Outcome
  connect conn api_key api_secret = do
    http_client ← build_http_client E conn.spec.tls
    elim http_client [
      | err e ↦
          set_ready_failed conn "ConnectionFailed"
            ("Could not configure TLS for OPNsense at " <> (conn.spec.url <> (": " <> text_of E e)))
            e
      | ok h ↦ do
        r ← check_connectivity E (new_client conn.spec.url api_key api_secret h)
        elim r [
          | err e ↦
              set_ready_failed conn "ConnectionFailed"
                ("Could not connect to OPNsense at " <> (conn.spec.url <> (": " <> text_of E e))) e
          | ok u ↦ verified conn
        ]
    ]

  unfoldable pub with_credentials : OpnsenseConnection → Key → Secret → Step E.State Outcome
  with_credentials conn key secret =
      let api_key = secret_value "apiKey" secret in
      let api_secret = secret_value "apiSecret" secret in
      if api_key == "" || api_secret == ""
      then set_ready_failed conn "InvalidCredentials"
          ("Secret " <> (key_text key <> " must have non-empty keys 'apiKey' and 'apiSecret'"))
          (Error.plain ("secret " <> (key_text key <> " is missing required credential keys")))
      else connect conn api_key api_secret

  -- `Reconcile`, behind the read of the object.
  unfoldable pub reconcile_connection : OpnsenseConnection → Step E.State Outcome
  reconcile_connection conn = do
    let key = secret_key conn.spec.credentials.secret_ref
    secret ← ask (E.get_secret key)
    elim secret [
      | err e ↦
          if E.is_not_found e
          then set_ready_failed conn "SecretNotFound" ("Secret " <> (key_text key <> " not found"))
              e
          else pure (
              returns
                (some (Error.wrap ("fetch credentials Secret " <> (key_text key <> ": ")) e "")))
      | ok found ↦ with_credentials conn key found
    ]

  -- `Reconcile`
  unfoldable pub reconcile : Key → Step E.State Outcome
  reconcile key = do
    r ← ask (E.get_connection key)
    elim r [ err e ↦ pure (returns (E.ignore_not_found e)) | ok conn ↦ reconcile_connection conn ]
