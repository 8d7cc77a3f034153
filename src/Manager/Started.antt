-- ===== src/Manager/Started.antt =====
-- The start of the process, on every host.
use opnsense_operator.Base.{◌≡◌, refl, Error, Result, ok, err, Option, some, none}
use opnsense_operator.Manager.Options.{Values, flag_vars}
use opnsense_operator.Manager.Launch.{
  Host, Call, Launch, Stop, exited, panicked, stopped, attempt, settle, client_go,
}
use opnsense_operator.Manager.Program.{
  alias_controller, connection_controller, rule_controller, api_types, exit_1, parsed, configured,
  managed, init, new_manager, run_manager, main, program,
}
use opnsense_operator.Manager.Order.{
  Stage, begun, types_known, made, running, core, types, manager, aliases, connections, rules,
  healthz, readyz, start, options, Leads, nothing, Arrives, Ends, Reaches, Reaches-bind,
  Reaches-make, Reaches-obtain,
}

settle-exit_1 : (x : Option Error) (s : Stop) → settle exit_1 x ≡ stopped s → s ≡ exited 1
settle-exit_1 none s p = absurd (cc)
settle-exit_1 (some e) s p = cc

settle-panicked :
    (x : Option Error) (s : Stop) → settle panicked x ≡ stopped s → (e : Error) × (s ≡ panicked e)
settle-panicked none s p = absurd (cc)
settle-panicked (some e) s p = (e, cc)

managed-stopped : {A : Type 0} (x : Result A) (s : Stop) → managed x ≡ stopped s → s ≡ exited 1
managed-stopped (ok a) s p = absurd (cc)
managed-stopped (err e) s p = cc

module _ (H : Host) where
  init-Reaches : Reaches H begun types_known (init H)
  unfolding init
  init-Reaches =
      Reaches-bind H _ _
        (Reaches-make H (settle panicked) _ (H.add_to_scheme client_go) core settle-panicked)
        (λ _. Reaches-make H (settle panicked) _ (H.add_to_scheme api_types) types settle-panicked)

  -- A step of `main` that only has its error to look at.
  tried :
      {p q : Stage} {c : Call H} (f : H.State → Option Error × H.State)
      → Leads H p c q
      → Ends H c (exited 1)
      → Reaches H p q (attempt exit_1 c f)
  tried {c = c} f e ends =
      Reaches-make H (settle exit_1) c f e (λ x s p. rw (settle-exit_1 x s p) ends)

  run_manager-Reaches : (mgr : H.Manager) → Reaches H made running (run_manager H mgr)
  unfolding run_manager
  run_manager-Reaches mgr =
      Reaches-bind H _ _ (tried (H.complete mgr alias_controller) aliases refl) (λ _.
        Reaches-bind H _ _ (tried (H.complete mgr connection_controller) connections refl) (λ _.
          Reaches-bind H _ _ (tried (H.complete mgr rule_controller) rules refl) (λ _.
            Reaches-bind H _ _ (tried (H.add_healthz_check mgr "healthz") healthz refl) (λ _.
              Reaches-bind H _ _ (tried (H.add_readyz_check mgr "readyz") readyz refl)
                (λ _. tried (H.start mgr) start refl)))))

  new_manager-Reaches :
      (config : H.Config) (v : Values) → Reaches H types_known made (new_manager H config v)
  new_manager-Reaches config v =
      Reaches-make H managed _ (H.new_manager config (options H v)) (manager v) managed-stopped

  main-Reaches : Reaches H types_known running (main H)
  unfolding main
  main-Reaches = Reaches-bind H _ _ (Reaches-obtain H parsed (H.parse_flags flag_vars)) (λ v.
      Reaches-bind H _ _ (Reaches-obtain H configured H.get_config)
        (λ config. Reaches-bind H _ _ (new_manager-Reaches config v) run_manager-Reaches))

  -- The process adds the types of client-go and of the API to the scheme, makes the manager with the
  -- options of some values of the flags, adds the controllers of aliases, connections and rules and the two checks,
  -- and starts the manager, in this order and each once. It returns where all of them succeeded. Else
  -- it has stopped at the first that failed, by a panic in `init` and with the status 1 in `main`, or,
  -- with all types added, at the command line or the configuration of the cluster.
  pub program-Arrives : (l : Launch H) → Arrives H l.log running (program H l)
  unfolding program
  program-Arrives l =
      Reaches.arrives (Reaches-bind H _ _ init-Reaches (λ _. main-Reaches)) l.log l nothing
