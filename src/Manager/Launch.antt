-- ===== src/Manager/Launch.antt =====
-- What main runs on, and its steps: a step goes on, or ends the process.
use opnsense_operator.Base.{ℕ, String, Option, none, some, List, ◌∷◌, ◌⊎◌, Error, Result}
use opnsense_operator.Api.{GroupVersion}
use opnsense_operator.Manager.Options.{FlagVar, Values, WebhookOptions, ManagerOptions}

-- The types that package v1alpha1 registers with its SchemeBuilder.
pub data ApiType : Type 0 where
  alias alias_list firewall_rule firewall_rule_list connection connection_list : ApiType

-- What is added to the scheme: the types of client-go, or those of a SchemeBuilder with
-- their group and version.
pub data SchemeTypes : Type 0 where
  client_go : SchemeTypes
  builder : GroupVersion → List ApiType → SchemeTypes

pub data Reconciler : Type 0 where
  alias_reconciler connection_reconciler rule_reconciler : Reconciler

-- What a builder of controllers is given: `For`, `Named` and `Complete`.
pub record Controller : Type 0 where
  pub watched : ApiType
  pub name : String
  pub reconciler : Reconciler

pub record Host : Type 1 where
  pub State : Type 0
  -- the types of controller-runtime, which main passes on
  pub Rest : Type 0
  pub Filter : Type 0
  pub Server : Type 0
  pub Config : Type 0
  pub Manager : Type 0
  pub with_authentication_and_authorization : Filter
  -- `webhook.NewServer`
  pub new_server : WebhookOptions Rest → Server
  -- `flag.Parse`, which ends the process with a status of its own or fills the variables
  pub parse_flags : List FlagVar → State → (ℕ ⊎ Values) × State
  -- `ctrl.GetConfigOrDie`, which ends the process where there is none
  pub get_config : State → Option Config × State
  pub new_manager : Config → ManagerOptions Rest Filter Server → State → Result Manager × State
  pub add_to_scheme : SchemeTypes → State → Option Error × State
  pub complete : Manager → Controller → State → Option Error × State
  -- `AddHealthzCheck` and `AddReadyzCheck` with `healthz.Ping`, by the name of the check
  pub add_healthz_check : Manager → String → State → Option Error × State
  pub add_readyz_check : Manager → String → State → Option Error × State
  -- `mgr.Start`, which returns when a signal has ended the context or with an error
  pub start : Manager → State → Option Error × State

pub data Call (H : Host) : Type 0 where
  added_types : SchemeTypes → Call H
  made_manager : ManagerOptions H.Rest H.Filter H.Server → Call H
  made_controller : Controller → Call H
  added_healthz : String → Call H
  added_readyz : String → Call H
  started : Call H

-- What the record of calls says of one.
pub data Entry (H : Host) : Type 0 where
  succeeded refused : Call H → Entry H

-- `log` lists the calls, the newest first. The code never reads it.
pub record Launch (H : Host) : Type 0 where
  pub state : H.State
  pub log : List (Entry H)

-- `os.Exit` with a status, or a panic.
pub data Stop : Type 0 where
  exited : ℕ → Stop
  panicked : Error → Stop

pub data Progress (A : Type 0) : Type 0 where
  goes_on : A → Progress A
  stopped : Stop → Progress A

abbrev pub Setup : Host → Type 0 → Type 0
Setup H A = Launch H → Progress A × Launch H

abbrev pub continue : {H : Host} {A B : Type 0} → (A → Setup H B) → Progress A → Setup H B
continue f (goes_on a) l = f a l
continue f (stopped s) l = (stopped s, l)

infixl 5 ◌>>=◌
abbrev pub ◌>>=◌ : {H : Host} {A B : Type 0} → Setup H A → (A → Setup H B) → Setup H B
◌>>=◌ m f l = let (p, l') = m l in continue f p l'

infixl 5 ◌>>◌
abbrev pub ◌>>◌ : {H : Host} {B : Type 0} → Setup H Unit → Setup H B → Setup H B
◌>>◌ m n = m >>= λ u. n

abbrev pub settle : (Error → Stop) → Option Error → Progress Unit
settle stop none = goes_on tt
settle stop (some e) = stopped (stop e)

abbrev pub entry : {H : Host} {A : Type 0} → Progress A → Call H → Entry H
entry (goes_on a) c = succeeded c
entry (stopped s) c = refused c

-- A step that gives a value or ends the process, and one that leaves an entry too.
abbrev pub obtain :
    {H : Host} {S A : Type 0} → (S → Progress A) → (H.State → S × H.State) → Setup H A
obtain g f l = let (x, s) = f l.state in (g x, record l { state = s })

abbrev pub make :
    {H : Host} {S A : Type 0} → (S → Progress A) → Call H → (H.State → S × H.State) → Setup H A
make g c f l = let (x, s) = f l.state in (g x, record { state = s; log = entry (g x) c ∷ l.log })

-- A call whose error ends the process.
abbrev pub attempt :
    {H : Host} → (Error → Stop) → Call H → (H.State → Option Error × H.State) → Setup H Unit
attempt stop = make (settle stop)
