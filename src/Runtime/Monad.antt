-- ===== src/Runtime/Monad.antt =====
-- The world with its record of calls, and the two ways in which the source chains steps: plain
-- sequencing, and sequencing that returns at the first error (`if err != nil { return err }`).
use opnsense_operator.Base.{ℕ, String, Option, List, ◌∷◌, Error, Result, ok, err}
use opnsense_operator.Api.{Alias, FirewallRule, OpnsenseConnection}

-- `*http.Client`: `http.DefaultClient`, or one with its own TLS configuration.
pub data HttpClient : Type 0 where
  default_client : HttpClient
  -- `RootCAs`, by the PEM text that the pool was filled from
  root_cas : String → HttpClient
  insecure_skip_verify : HttpClient

pub data Method : Type 0 where
  get post : Method

pub record Request : Type 0 where
  pub method : Method
  pub url : String
  pub user : String
  pub password : String
  pub accept : String
  pub content_type : Option String
  pub body : Option String

-- `body` is what `io.ReadAll` gives.
pub record Response : Type 0 where
  pub status_code : ℕ
  pub body : Result String

-- The calls that can change something outside.
pub data Event : Type 0 where
  sent : HttpClient → Request → Event
  updated_alias : Alias → Event
  updated_rule : FirewallRule → Event
  updated_alias_status : Alias → Event
  updated_rule_status : FirewallRule → Event
  updated_connection_status : OpnsenseConnection → Event

-- `log` lists the calls, the newest first. The code never reads it.
pub record World (S : Type 0) : Type 0 where
  pub state : S
  pub log : List Event

abbrev pub Step : Type 0 → Type 0 → Type 0
Step S A = World S → A × World S

abbrev pub Action : Type 0 → Type 0 → Type 0
Action S A = World S → Result A × World S

-- A call outside that leaves no event, and one that does.
abbrev pub ask : {S A : Type 0} → (S → A × S) → Step S A
ask f w = let (a, s) = f w.state in (a, record w { state = s })

abbrev pub tell : {S A : Type 0} → Event → (S → A × S) → Step S A
tell e f w = let (a, s) = f w.state in (a, record { state = s; log = e ∷ w.log })

abbrev pub pure : {S A : Type 0} → A → Step S A
pure a w = (a, w)

abbrev pub return : {S A : Type 0} → A → Action S A
return a w = (ok a, w)

abbrev pub fail : {S A : Type 0} → Error → Action S A
fail e w = (err e, w)

abbrev pub lift : {S A : Type 0} → Result A → Action S A
lift r w = (r, w)

abbrev pub map_error {ℓ} : {A : Type ℓ} → (Error → Error) → Result A → Result A
map_error f (ok a) = ok a
map_error f (err e) = err (f e)

-- `fmt.Errorf("…: %w", err)` around a step.
abbrev pub context : {S A : Type 0} → String → Action S A → Action S A
context before m w = let (r, w') = m w in (map_error (λ e. Error.wrap before e "") r, w')
