-- ===== src/Manager/Secured.antt =====
-- What the flags make of the servers of the manager.
use opnsense_operator.Base.{◌≡◌, refl, true, false, some, List, [], ◌∷◌, arith, string_eq}
use opnsense_operator.Manager.Options.{
  FlagVar, string_var, bool_var, Values, flag_vars, Flags, read_flags, TlsConfig, TlsOption,
  disable_http2, tls_opts, webhook_options, metrics_options, manager_options,
}

-- The options of a server, applied one after the other.
abbrev pub applied : {Rest : Type 0} → List (TlsOption Rest) → TlsConfig Rest → TlsConfig Rest
applied [] c = c
applied (o ∷ os) c = applied os (o c)

tls_opts-applied :
    {Rest : Type 0} (flags : Flags) (c : TlsConfig Rest)
    → flags.enable_http2 ≡ false
    → applied (tls_opts flags) c ≡ record c { next_protos = "http/1.1" ∷ [] }
unfolding tls_opts disable_http2
tls_opts-applied flags c off = rw off refl

metrics_options-tls :
    {Rest Filter : Type 0} (filter : Filter) (flags : Flags)
    → (metrics_options {Rest = Rest} filter flags).tls_opts ≡ tls_opts flags
unfolding metrics_options
metrics_options-tls filter flags = ground arith

webhook_options-tls :
    {Rest : Type 0} (flags : Flags)
    → (webhook_options {Rest = Rest} flags).tls_opts ≡ tls_opts flags
unfolding webhook_options
webhook_options-tls flags = ground arith

-- Without the flag for HTTP/2, both servers, whatever TLS configuration they start from and with or
-- without certificates of their own, offer HTTP/1.1 alone and keep the rest of the configuration.
pub disable_http2-servers :
    {Rest Filter : Type 0} (filter : Filter) (flags : Flags) (c : TlsConfig Rest)
    → flags.enable_http2 ≡ false
    → let limited = record c { next_protos = "http/1.1" ∷ [] } in
      (applied (metrics_options filter flags).tls_opts c ≡ limited)
      × (applied (webhook_options flags).tls_opts c ≡ limited)
disable_http2-servers filter flags c off = (
  rw (metrics_options-tls filter flags) (tls_opts-applied flags c off),
  rw (webhook_options-tls flags) (tls_opts-applied flags c off),
)

-- The variables hold the defaults of these flags.
abbrev pub KeepsDefaults : Values → List FlagVar → Type 0
KeepsDefaults v [] = Unit
KeepsDefaults v (string_var name default ∷ vars) = (v.text name ≡ default) × KeepsDefaults v vars
KeepsDefaults v (bool_var name default ∷ vars) = (v.switch name ≡ default) × KeepsDefaults v vars

-- Where the command line leaves every flag at its default, the metrics endpoint is off, would be
-- served securely, behind the filter and without HTTP/2, neither server has a certificate of its own,
-- the probes listen at :8081, and there is no leader election.
pub manager_options-default :
    {Rest Filter Server : Type 0} (filter : Filter) (server : Server) (v : Values)
    → KeepsDefaults v flag_vars
    → (manager_options {Rest = Rest} filter server (read_flags v) ≡ record {
      metrics = record {
        bind_address = "0";
        secure_serving = true;
        tls_opts = disable_http2 ∷ [];
        filter_provider = some filter;
        cert_dir = "";
        cert_name = "";
        key_name = "";
      };
      webhook_server = server;
      health_probe_bind_address = ":8081";
      leader_election = false;
      leader_election_id = "03aae5f3.opnsense.io";
    })
      × (webhook_options {Rest = Rest} (read_flags v)
          ≡ record { tls_opts = disable_http2 ∷ []; cert_dir = ""; cert_name = ""; key_name = "" })
unfolding manager_options metrics_options webhook_options read_flags tls_opts string_eq
manager_options-default filter server v
      (
        addr,
        (probe, (elect, (secure, (wpath, (wname, (wkey, (mpath, (mname, (mkey, (http2, _)))))))))),
      ) =
    (rw (addr, probe, elect, secure, mpath, http2) refl, rw (wpath, http2) refl)
