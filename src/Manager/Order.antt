-- ===== src/Manager/Order.antt =====
-- The order of the calls of the process.
use opnsense_operator.Base.{◌≡◌, refl, Error, List, ◌∷◌, inl, inr, ◌⊎◌}
use opnsense_operator.Manager.Options.{
  Values, read_flags, webhook_options, ManagerOptions, manager_options,
}
use opnsense_operator.Manager.Launch.{
  client_go, Host, Call, Entry, succeeded, refused, Launch, added_types, made_manager,
  made_controller, added_healthz, added_readyz, started, Stop, exited, panicked, Progress, goes_on,
  stopped, Setup, obtain, make, ◌>>=◌,
}
use opnsense_operator.Manager.Program.{
  api_types, alias_controller, connection_controller, rule_controller,
}

-- How far the process has come.
pub data Stage : Type 0 where
  begun core_known types_known made aliases_on connections_on rules_on live ready running : Stage

module _ (H : Host) where
  Progress-cases :
      {A : Type 0} (p : Progress A) → ((a : A) × (p ≡ goes_on a)) ⊎ ((s : Stop) × (p ≡ stopped s))
  Progress-cases (goes_on a) = inl (a, refl)
  Progress-cases (stopped s) = inr (s, refl)

  abbrev pub options : Values → ManagerOptions H.Rest H.Filter H.Server
  options v =
      let flags = read_flags v in
      manager_options H.with_authentication_and_authorization (H.new_server (webhook_options flags))
        flags

  -- The call that leads from one stage to the next.
  pub data Leads : Stage → Call H → Stage → Type 0 where
    core : Leads begun (added_types client_go) core_known
    types : Leads core_known (added_types api_types) types_known
    manager : (v : Values) → Leads types_known (made_manager (options v)) made
    aliases : Leads made (made_controller alias_controller) aliases_on
    connections : Leads aliases_on (made_controller connection_controller) connections_on
    rules : Leads connections_on (made_controller rule_controller) rules_on
    healthz : Leads rules_on (added_healthz "healthz") live
    readyz : Leads live (added_readyz "readyz") ready
    start : Leads ready started running

  -- The calls behind `old`, the newest first, succeeded and led to a stage.
  pub data Launched (old : List (Entry H)) : Stage → List (Entry H) → Type 0 where
    nothing : Launched old begun old
    next :
        {p q : Stage} {c : Call H} {log : List (Entry H)}
        → Leads p c q
        → Launched old p log
        → Launched old q (succeeded c ∷ log)

  -- How the process ends at a call that fails.
  abbrev pub Ends : Call H → Stop → Type 0
  Ends (added_types t) s = (e : Error) × (s ≡ panicked e)
  Ends _ s = s ≡ exited 1

  -- The process has stopped: at a call of the order that failed, or, with the types registered, at
  -- the command line or the configuration of the cluster.
  pub data Halted (old : List (Entry H)) : Stop → List (Entry H) → Type 0 where
    at_call :
        {p q : Stage} {c : Call H} {s : Stop} {log : List (Entry H)}
        → Leads p c q
        → Ends c s
        → Launched old p log
        → Halted old s (refused c ∷ log)
    unconfigured :
        {s : Stop} {log : List (Entry H)} → Launched old types_known log → Halted old s log

  -- A step that started at one stage has come to the stage `q`, or has ended the process.
  abbrev pub Arrives : {A : Type 0} → List (Entry H) → Stage → Progress A × Launch H → Type 0
  Arrives {A} old q (r, l) =
      ((a : A) × (r ≡ goes_on a) × Launched old q l.log)
      ⊎ ((s : Stop) × (r ≡ stopped s) × Halted old s l.log)

  pub record Reaches {A : Type 0} (p q : Stage) (m : Setup H A) : Type 0 where
    pub arrives : (old : List (Entry H)) (l : Launch H) → Launched old p l.log → Arrives old q (m l)

  pub Reaches-bind :
      {A B : Type 0} {p q r : Stage} (m : Setup H A) (f : A → Setup H B)
      → Reaches p q m
      → ((a : A) → Reaches q r (f a))
      → Reaches p r (m >>= f)
  Reaches-bind m f x y = record {
    arrives = λ old l before. elim (Reaches.arrives x old l before) [
      | inl (a, e, after) ↦ rw e (Reaches.arrives (y a) old (m l).1 after)
      | inr (s, e, h) ↦ rw e (inr (s, refl, h))
    ];
  }

  pub Reaches-make :
      {S A : Type 0} {p q : Stage} (g : S → Progress A) (c : Call H) (f : H.State → S × H.State)
      → Leads p c q
      → ((x : S) (s : Stop) → g x ≡ stopped s → Ends c s)
      → Reaches p q (make g c f)
  Reaches-make g c f e ends = record {
    arrives = λ old l before.
        let x = (f l.state).0 in
        elim (Progress-cases (g x)) [
          | inl (a, d) ↦ rw d (inl (a, refl, next e before))
          | inr (s, d) ↦ rw d (inr (s, refl, at_call e (ends x s d) before))
        ];
  }

  pub Reaches-obtain :
      {S A : Type 0} (g : S → Progress A) (f : H.State → S × H.State)
      → Reaches types_known types_known (obtain g f)
  Reaches-obtain g f = record {
    arrives = λ old l before. elim (Progress-cases (g (f l.state).0)) [
      | inl (a, d) ↦ rw d (inl (a, refl, before))
      | inr (s, d) ↦ rw d (inr (s, refl, unconfigured before))
    ];
  }
