-- ===== src/Tests/Starting.antt =====
-- Starts of the process, on a host where nothing fails and on one that refuses a controller.
use opnsense_operator.Base.{
  ℕ, suc, String, ◌≡◌, refl, Bool, true, false, none, some, ok, [], ◌∷◌, inr, string_eq, Error,
  ◌==◌, if◌then◌else◌,
}
use opnsense_operator.Manager.Options.{Values, Flags, TlsConfig, webhook_options, metrics_options}
use opnsense_operator.Manager.Launch.{Host, Launch, Controller, goes_on, stopped, exited}
use opnsense_operator.Manager.Program.{program, init, main, run_manager}
use opnsense_operator.Manager.Secured.{applied, disable_http2-servers}
use opnsense_operator.Manager.Order.{Arrives, Launched, running}
use opnsense_operator.Manager.Started.{program-Arrives}
use opnsense_operator.Manager.Complete.{Succeeds, program_starts}

-- The variables without a command line.
abbrev defaults : Values
defaults = record {
  text = λ name.
      if name == "metrics-bind-address"
      then "0"
      else if name == "health-probe-bind-address"
      then ":8081"
      else if name == "webhook-cert-name"
      then "tls.crt"
      else if name == "metrics-cert-name"
      then "tls.crt"
      else if name == "webhook-cert-key"
      then "tls.key"
      else if name == "metrics-cert-key"
      then "tls.key"
      else "";
  switch = λ name. name == "metrics-secure";
}

-- The state counts the calls.
unfoldable host : Host
host = record {
  State = ℕ;
  Rest = Bool;
  Filter = String;
  Server = String;
  Config = Unit;
  Manager = ℕ;
  with_authentication_and_authorization = "authn and authz";
  new_server = λ o. "server";
  parse_flags = λ vars s. (inr defaults, suc s);
  get_config = λ s. (some tt, suc s);
  new_manager = λ c o s. (ok s, suc s);
  add_to_scheme = λ t s. (none, suc s);
  complete = λ m c s. (none, suc s);
  add_healthz_check = λ m n s. (none, suc s);
  add_readyz_check = λ m n s. (none, suc s);
  start = λ m s. (none, suc s);
}

abbrev is_rules : Controller → Bool
is_rules c = c.name == "firewallrule"

-- The same where the controller of rules is refused.
unfoldable broken : Host
unfolding host
broken = record host {
  complete = λ m c s. (if is_rules c then some (Error.plain "no such kind") else none, suc s);
}

begin : Launch host
unfolding host
begin = record { state = 0; log = [] }

begin_broken : Launch broken
unfolding broken host
begin_broken = record { state = 0; log = [] }

host-Succeeds : Succeeds host
unfolding host
host-Succeeds = record {
  parse_flags = λ s. (defaults, refl);
  get_config = λ s. (tt, refl);
  new_manager = λ c o s. (s, refl);
  add_to_scheme = λ t s. refl;
  complete = λ m c s. refl;
  add_healthz_check = λ m n s. refl;
  add_readyz_check = λ m n s. refl;
  start = λ m s. refl;
}

program-Arrives_example : Arrives broken begin_broken.log running (program broken begin_broken)
program-Arrives_example = program-Arrives broken begin_broken

program_starts_example :
    ((program host begin).0 ≡ goes_on tt)
    × Launched host begin.log running (program host begin).1.log
program_starts_example = program_starts host host-Succeeds begin

-- The refused controller ends the process.
refused_rules : (program broken begin_broken).0 ≡ stopped (exited 1)
unfolding program init main run_manager begin_broken broken host string_eq
refused_rules = refl

abbrev tls : TlsConfig Bool
tls = record { next_protos = "h2" ∷ "http/1.1" ∷ []; rest = true }

abbrev filter : String
filter = "authn and authz"

abbrev server : String
server = "server"

abbrev plain_flags : Flags
plain_flags = record {
  metrics_addr = ":8443";
  probe_addr = ":8081";
  enable_leader_election = true;
  secure_metrics = true;
  webhook_cert_path = "/certs";
  webhook_cert_name = "tls.crt";
  webhook_cert_key = "tls.key";
  metrics_cert_path = "";
  metrics_cert_name = "";
  metrics_cert_key = "";
  enable_http2 = false;
}

disable_http2-servers_example :
    let limited = record tls { next_protos = "http/1.1" ∷ [] } in
    (applied (metrics_options filter plain_flags).tls_opts tls ≡ limited)
    × (applied (webhook_options plain_flags).tls_opts tls ≡ limited)
disable_http2-servers_example = disable_http2-servers filter plain_flags tls refl
