-- ===== src/Controller/ConnectionReconciler/Runs.antt =====
-- The reconcile of a connection as a run of its protocol.
use opnsense_operator.Base.{
  String, ◌≡◌, inl, inr, ok, refl, Result-cases, Bool-cases, string_eq, ◌==◌, ◌||◌,
}
use mathlib.Core.Path.{subst}
use opnsense_operator.Api.{Key, Secret, OpnsenseConnection}
use opnsense_operator.Runtime.{Env}
use opnsense_operator.Runtime.Monad.{World, Event, get}
use opnsense_operator.Opnsense.Transport.{new_client, check_connectivity}
use opnsense_operator.Opnsense.Transport.Sending.{Sends}
use opnsense_operator.Controller.Connect.{build_http_client, secret_key, secret_value}
use opnsense_operator.Controller.Connect.Reading.{build_http_client-log}
use opnsense_operator.Controller.ConnectionReconciler.{
  connect, with_credentials, reconcile_connection, reconcile,
}
use opnsense_operator.Controller.ConnectionReconciler.Branches.{
  connect_tls-failed, connect-failed, connect-ok, reconcile_connection-ok,
  reconcile_connection-missing, reconcile_connection-unread, reconcile-connection,
}
use opnsense_operator.Controller.ConnectionReconciler.Protocol.{
  status_path, Checks, CheckRun, unread, unsent-Run, refused-Run, verified-Run,
}

module _ (E : Env) (conn : OpnsenseConnection) where
  connect-Run :
      (key secret : String) (w : World E.State)
      → let (o, w') = connect E conn key secret w in CheckRun E conn w.log o w'.log
  connect-Run key secret w =
      let w1 = (build_http_client E conn.spec.tls w).1 in
      let (o, w') = connect E conn key secret w in
      let same = build_http_client-log E conn.spec.tls w in
      subst (λ l. CheckRun E conn l o w'.log) same
        (elim (Result-cases (build_http_client E conn.spec.tls w).0) [
          | inr (e, p) ↦
              rw (connect_tls-failed E conn key secret w e p)
                (unsent-Run E conn "ConnectionFailed" _ e w1 (inr (inr refl)))
          | inl (h, p) ↦
              let c = new_client conn.spec.url key secret h in
              let is : (e : Event) → Sends c get status_path e → Checks E conn e =
                λ e s. (key, secret, h, s) in
              elim (Result-cases (check_connectivity E c w1).0) [
                | inr (e, q) ↦
                    rw (connect-failed E conn key secret w h e p q) (refused-Run E conn c w1 is _ e)
                | inl (u, q) ↦
                    rw (connect-ok E conn key secret w h p q) (verified-Run E conn c w1 is q)
              ]
        ])

  with_credentials-Run :
      (key : Key) (secret : Secret) (w : World E.State)
      → let (o, w') = with_credentials E conn key secret w in CheckRun E conn w.log o w'.log
  unfolding with_credentials
  with_credentials-Run key secret w =
      let api_key = secret_value "apiKey" secret in
      let api_secret = secret_value "apiSecret" secret in
      elim (Bool-cases (api_key == "" || api_secret == "")) [
        | inl p ↦ rw p (unsent-Run E conn "InvalidCredentials" _ _ w (inr (inl refl)))
        | inr p ↦ rw p (connect-Run api_key api_secret w)
      ]

  reconcile_connection-Run :
      (w : World E.State)
      → let (o, w') = reconcile_connection E conn w in CheckRun E conn w.log o w'.log
  reconcile_connection-Run w =
      let key = secret_key conn.spec.credentials.secret_ref in
      let w1 : World E.State = record w { state = (E.get_secret key w.state).1 } in
      elim (Result-cases (E.get_secret key w.state).0) [
        | inl (secret, p) ↦
            rw (reconcile_connection-ok E conn w secret p) (with_credentials-Run key secret w1)
        | inr (e, p) ↦ elim (Bool-cases (E.is_not_found e)) [
          | inl n ↦
              rw (reconcile_connection-missing E conn w e p n)
                (unsent-Run E conn "SecretNotFound" _ e w1 (inl refl))
          | inr n ↦ rw (reconcile_connection-unread E conn w e p n) (unread p n)
        ]
      ]

  -- Every reconcile of a connection that was read, whatever it meets, makes at most two calls, in
  -- this order: a GET of the system's status at the address of the connection, and a write of the
  -- connection's status. Without any it returns an error, and the secret could not be read for another
  -- reason than that there is none. With the write alone, Ready is False for one of three reasons, and
  -- it returns an error. With both it returns an error and Ready is False with the reason
  -- "ConnectionFailed", or it asks to be repeated after 300 seconds and Ready is True.
  pub reconcile_connection-CheckRun :
      (key : Key) (w : World E.State)
      → (E.get_connection key w.state).0 ≡ ok conn
      → CheckRun E conn w.log (reconcile E key w).0 (reconcile E key w).1.log
  reconcile_connection-CheckRun key w got =
      rw (reconcile-connection E conn key w got)
        (reconcile_connection-Run (record w { state = (E.get_connection key w.state).1 }))
