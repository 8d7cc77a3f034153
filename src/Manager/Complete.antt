-- ===== src/Manager/Complete.antt =====
-- The start of the process on a host where nothing fails.
use opnsense_operator.Base.{String, ◌≡◌, refl, Error, ok, Option, some, none, inl, inr}
use opnsense_operator.Manager.Options.{Values, flag_vars, ManagerOptions}
use opnsense_operator.Manager.Launch.{
  SchemeTypes, Controller, Host, Call, Launch, Stop, goes_on, Setup, attempt, obtain, ◌>>=◌,
  client_go,
}
use opnsense_operator.Manager.Program.{
  alias_controller, connection_controller, rule_controller, api_types, parsed, configured, init,
  new_manager, setup_with_manager, run_manager, main, program,
}
use opnsense_operator.Manager.Order.{running, options, Launched}
use opnsense_operator.Manager.Started.{program-Arrives}

-- A host on which no call fails.
pub record Succeeds (H : Host) : Type 0 where
  pub parse_flags : (s : H.State) → (v : Values) × ((H.parse_flags flag_vars s).0 ≡ inr v)
  pub get_config : (s : H.State) → (c : H.Config) × ((H.get_config s).0 ≡ some c)
  pub new_manager :
      (c : H.Config) (o : ManagerOptions H.Rest H.Filter H.Server) (s : H.State)
      → (m : H.Manager) × ((H.new_manager c o s).0 ≡ ok m)
  pub add_to_scheme : (t : SchemeTypes) (s : H.State) → (H.add_to_scheme t s).0 ≡ none
  pub complete : (m : H.Manager) (c : Controller) (s : H.State) → (H.complete m c s).0 ≡ none
  pub add_healthz_check :
      (m : H.Manager) (n : String) (s : H.State) → (H.add_healthz_check m n s).0 ≡ none
  pub add_readyz_check :
      (m : H.Manager) (n : String) (s : H.State) → (H.add_readyz_check m n s).0 ≡ none
  pub start : (m : H.Manager) (s : H.State) → (H.start m s).0 ≡ none

module _ (H : Host) (F : Succeeds H) where
  record Completes {A : Type 0} (m : Setup H A) : Type 0 where
    completes : (l : Launch H) → (a : A) × ((m l).0 ≡ goes_on a)

  Completes-bind :
      {A B : Type 0} (m : Setup H A) (f : A → Setup H B)
      → Completes m
      → ((a : A) → Completes (f a))
      → Completes (m >>= f)
  Completes-bind m f x y = record {
    completes =
        λ l. let (a, p) = Completes.completes x l in rw p (Completes.completes (y a) (m l).1);
  }

  Completes-attempt :
      (stop : Error → Stop) (c : Call H) (f : H.State → Option Error × H.State)
      → ((s : H.State) → (f s).0 ≡ none)
      → Completes (attempt stop c f)
  Completes-attempt stop c f h = record { completes = λ l. rw (h l.state) (tt, refl) }

  sets_up : (mgr : H.Manager) (c : Controller) → Completes (setup_with_manager H mgr c)
  sets_up mgr c = Completes-attempt _ _ (H.complete mgr c) (F.complete mgr c)

  init-Completes : Completes (init H)
  unfolding init
  init-Completes =
      Completes-bind _ _ (Completes-attempt _ _ _ (F.add_to_scheme client_go))
        (λ _. Completes-attempt _ _ _ (F.add_to_scheme api_types))

  run_manager-Completes : (mgr : H.Manager) → Completes (run_manager H mgr)
  unfolding run_manager
  run_manager-Completes mgr = Completes-bind _ _ (sets_up mgr alias_controller) (λ _.
      Completes-bind _ _ (sets_up mgr connection_controller) (λ _.
        Completes-bind _ _ (sets_up mgr rule_controller) (λ _.
          Completes-bind _ _ (Completes-attempt _ _ _ (F.add_healthz_check mgr "healthz")) (λ _.
            Completes-bind _ _ (Completes-attempt _ _ _ (F.add_readyz_check mgr "readyz"))
              (λ _. Completes-attempt _ _ _ (F.start mgr))))))

  parse-Completes : Completes (obtain parsed (H.parse_flags flag_vars))
  parse-Completes = record { completes = λ l. let (v, p) = F.parse_flags l.state in (v, rw p refl) }

  config-Completes : Completes (obtain configured H.get_config)
  config-Completes = record { completes = λ l. let (c, p) = F.get_config l.state in (c, rw p refl) }

  new_manager-Completes : (config : H.Config) (v : Values) → Completes (new_manager H config v)
  new_manager-Completes config v = record {
    completes = λ l. let (m, p) = F.new_manager config (options H v) l.state in (m, rw p refl);
  }

  main-Completes : Completes (main H)
  unfolding main
  main-Completes = Completes-bind _ _ parse-Completes (λ v.
      Completes-bind _ _ config-Completes
        (λ config. Completes-bind _ _ (new_manager-Completes config v) run_manager-Completes))

  -- On a host where no call fails the process returns, with every call of the order made.
  pub program_starts :
      (l : Launch H) → ((program H l).0 ≡ goes_on tt) × Launched H l.log running (program H l).1.log
  unfolding program
  program_starts l =
      let (u, p) =
        Completes.completes (Completes-bind _ _ init-Completes (λ _. main-Completes)) l in
      elim (program-Arrives H l) [
        | inl (a, q, launched) ↦ (p, launched)
        | inr (s, q, h) ↦ absurd (cc)
      ]
