-- ===== src/Manager/Program.antt =====
-- `init` and `main`.
use opnsense_operator.Base.{
  ℕ, Option, none, some, List, [], ◌∷◌, ◌⊎◌, inl, inr, Error, Result, ok, err,
}
use opnsense_operator.Api.{scheme_group_version}
use opnsense_operator.Manager.Options.{
  Values, flag_vars, read_flags, webhook_options, manager_options,
}
use opnsense_operator.Manager.Launch.{
  ApiType, alias, alias_list, firewall_rule, firewall_rule_list, connection, connection_list,
  SchemeTypes, client_go, builder, alias_reconciler, connection_reconciler, rule_reconciler,
  Controller, Host, added_types, made_manager, made_controller, added_healthz, added_readyz,
  started, Stop, exited, panicked, Progress, goes_on, stopped, Setup, attempt, obtain, make, ◌>>=◌,
  ◌>>◌,
}

-- The `init` functions of api/v1alpha1, in the order of its files.
abbrev registered : List ApiType
registered =
    alias ∷ alias_list ∷ firewall_rule ∷ firewall_rule_list ∷ connection ∷ connection_list ∷ []

-- `SchemeBuilder`, by what `AddToScheme` adds.
abbrev pub api_types : SchemeTypes
api_types = builder scheme_group_version registered

-- `SetupWithManager` of each reconciler.
abbrev pub alias_controller : Controller
alias_controller = record { watched = alias; name = "alias"; reconciler = alias_reconciler }

abbrev pub connection_controller : Controller
connection_controller = record {
  watched = connection;
  name = "opnsenseconnection";
  reconciler = connection_reconciler;
}

abbrev pub rule_controller : Controller
rule_controller = record {
  watched = firewall_rule;
  name = "firewallrule";
  reconciler = rule_reconciler;
}

-- `setupLog.Error` and `os.Exit(1)`.
abbrev pub exit_1 : Error → Stop
exit_1 e = exited 1

abbrev pub parsed : ℕ ⊎ Values → Progress Values
parsed (inl status) = stopped (exited status)
parsed (inr v) = goes_on v

abbrev pub configured : {A : Type 0} → Option A → Progress A
configured none = stopped (exited 1)
configured (some c) = goes_on c

abbrev pub managed : {A : Type 0} → Result A → Progress A
managed (ok m) = goes_on m
managed (err e) = stopped (exit_1 e)

module _ (H : Host) where
  -- `init`, where `utilruntime.Must` panics.
  unfoldable pub init : Setup H Unit
  init = do
    attempt panicked (added_types client_go) (H.add_to_scheme client_go)
    attempt panicked (added_types api_types) (H.add_to_scheme api_types)

  abbrev pub setup_with_manager : H.Manager → Controller → Setup H Unit
  setup_with_manager mgr c = attempt exit_1 (made_controller c) (H.complete mgr c)

  abbrev pub new_manager : H.Config → Values → Setup H H.Manager
  new_manager config v =
      let flags = read_flags v in
      let server = H.new_server (webhook_options flags) in
      let options = manager_options H.with_authentication_and_authorization server flags in
      make managed (made_manager options) (H.new_manager config options)

  -- From the first controller on.
  unfoldable pub run_manager : H.Manager → Setup H Unit
  run_manager mgr = do
    setup_with_manager mgr alias_controller
    setup_with_manager mgr connection_controller
    setup_with_manager mgr rule_controller
    attempt exit_1 (added_healthz "healthz") (H.add_healthz_check mgr "healthz")
    attempt exit_1 (added_readyz "readyz") (H.add_readyz_check mgr "readyz")
    attempt exit_1 started (H.start mgr)

  unfoldable pub main : Setup H Unit
  main = do
    v ← obtain parsed (H.parse_flags flag_vars)
    config ← obtain configured H.get_config
    mgr ← new_manager config v
    run_manager mgr

  -- The process: `init`, then `main`.
  unfoldable pub program : Setup H Unit
  program = do init; main
