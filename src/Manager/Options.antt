-- ===== src/Manager/Options.antt =====
-- The flags of main, and the options that they give.
use opnsense_operator.Base.{
  String, Bool, true, false, Option, none, some, List, [], ◌∷◌, not, ◌==◌, string_eq, if◌then◌else◌,
}

-- `flag.StringVar` and `flag.BoolVar`: the name of a flag and its default.
pub data FlagVar : Type 0 where
  string_var : String → String → FlagVar
  bool_var : String → Bool → FlagVar

-- What `flag.Parse` leaves in the variables, by the names of the flags.
pub record Values : Type 0 where
  pub text : String → String
  pub switch : String → Bool

-- The flags of main, in its order; those of the logger are left out.
abbrev pub flag_vars : List FlagVar
flag_vars =
    string_var "metrics-bind-address" "0"
    ∷ string_var "health-probe-bind-address" ":8081"
    ∷ bool_var "leader-elect" false
    ∷ bool_var "metrics-secure" true
    ∷ string_var "webhook-cert-path" ""
    ∷ string_var "webhook-cert-name" "tls.crt"
    ∷ string_var "webhook-cert-key" "tls.key"
    ∷ string_var "metrics-cert-path" ""
    ∷ string_var "metrics-cert-name" "tls.crt"
    ∷ string_var "metrics-cert-key" "tls.key"
    ∷ bool_var "enable-http2" false
    ∷ []

-- The variables of main that the flags set.
pub record Flags : Type 0 where
  pub metrics_addr : String
  pub probe_addr : String
  pub enable_leader_election : Bool
  pub secure_metrics : Bool
  pub webhook_cert_path : String
  pub webhook_cert_name : String
  pub webhook_cert_key : String
  pub metrics_cert_path : String
  pub metrics_cert_name : String
  pub metrics_cert_key : String
  pub enable_http2 : Bool

unfoldable pub read_flags : Values → Flags
read_flags v = record {
  metrics_addr = v.text "metrics-bind-address";
  probe_addr = v.text "health-probe-bind-address";
  enable_leader_election = v.switch "leader-elect";
  secure_metrics = v.switch "metrics-secure";
  webhook_cert_path = v.text "webhook-cert-path";
  webhook_cert_name = v.text "webhook-cert-name";
  webhook_cert_key = v.text "webhook-cert-key";
  metrics_cert_path = v.text "metrics-cert-path";
  metrics_cert_name = v.text "metrics-cert-name";
  metrics_cert_key = v.text "metrics-cert-key";
  enable_http2 = v.switch "enable-http2";
}

-- `tls.Config`: the field that main sets, and the others.
pub record TlsConfig (Rest : Type 0) : Type 0 where
  pub next_protos : List String
  pub rest : Rest

abbrev pub TlsOption : Type 0 → Type 0
TlsOption Rest = TlsConfig Rest → TlsConfig Rest

-- `webhook.Options`
pub record WebhookOptions (Rest : Type 0) : Type 0 where
  pub tls_opts : List (TlsOption Rest)
  pub cert_dir : String
  pub cert_name : String
  pub key_name : String

-- `metricsserver.Options`, whose provider of filters is of a type from outside.
pub record MetricsOptions (Rest Filter : Type 0) : Type 0 where
  pub bind_address : String
  pub secure_serving : Bool
  pub tls_opts : List (TlsOption Rest)
  pub filter_provider : Option Filter
  pub cert_dir : String
  pub cert_name : String
  pub key_name : String

-- `ctrl.Options`, without the scheme, which is one variable that the host keeps.
pub record ManagerOptions (Rest Filter Server : Type 0) : Type 0 where
  pub metrics : MetricsOptions Rest Filter
  pub webhook_server : Server
  pub health_probe_bind_address : String
  pub leader_election : Bool
  pub leader_election_id : String

unfoldable pub disable_http2 : {Rest : Type 0} → TlsOption Rest
disable_http2 c = record c { next_protos = "http/1.1" ∷ [] }

unfoldable pub tls_opts : {Rest : Type 0} → Flags → List (TlsOption Rest)
tls_opts flags = if not flags.enable_http2 then disable_http2 ∷ [] else []

unfoldable pub webhook_options : {Rest : Type 0} → Flags → WebhookOptions Rest
webhook_options {Rest} flags =
    let options : WebhookOptions Rest = record {
      tls_opts = tls_opts flags;
      cert_dir = "";
      cert_name = "";
      key_name = "";
    } in
    if flags.webhook_cert_path == "" then options else record options {
      cert_dir = flags.webhook_cert_path;
      cert_name = flags.webhook_cert_name;
      key_name = flags.webhook_cert_key;
    }

-- `filter` is `filters.WithAuthenticationAndAuthorization`.
unfoldable pub metrics_options :
    {Rest Filter : Type 0} → Filter → Flags → MetricsOptions Rest Filter
metrics_options {Rest} {Filter} filter flags =
    let bare : MetricsOptions Rest Filter = record {
      bind_address = flags.metrics_addr;
      secure_serving = flags.secure_metrics;
      tls_opts = tls_opts flags;
      filter_provider = none;
      cert_dir = "";
      cert_name = "";
      key_name = "";
    } in
    let options : MetricsOptions Rest Filter =
      if flags.secure_metrics then record bare { filter_provider = some filter } else bare in
    if flags.metrics_cert_path == "" then options else record options {
      cert_dir = flags.metrics_cert_path;
      cert_name = flags.metrics_cert_name;
      key_name = flags.metrics_cert_key;
    }

unfoldable pub manager_options :
    {Rest Filter Server : Type 0} → Filter → Server → Flags → ManagerOptions Rest Filter Server
manager_options filter server flags = record {
  metrics = metrics_options filter flags;
  webhook_server = server;
  health_probe_bind_address = flags.probe_addr;
  leader_election = flags.enable_leader_election;
  leader_election_id = "03aae5f3.opnsense.io";
}
