-- ===== src/DeepCopy/Memory.antt =====
-- Go's memory: what lies at each address, and the next free one.
pub mod Slots
use opnsense_operator.Base.{
  ℕ, suc, String, ◌≡◌, refl, Option, none, some, List, ◌==◌, nat_eq, if◌then◌else◌,
}
use opnsense_operator.Text.Number.{ℤ}
use opnsense_operator.Api.{
  SecretReference, ConnectionReference, FirewallRuleEndpoint, CredentialsSpec,
}
use opnsense_operator.DeepCopy.Structs.{
  Foreign, AliasSpec, AliasStatus, FirewallRuleSpec, FirewallRuleStatus, TlsSpec, ConnectionSpec,
  ConnectionStatus, ObjectList, Alias, FirewallRule, OpnsenseConnection,
}

-- A variable behind a pointer, or the array behind a slice. `fresh` is what `new` and `make` give,
-- zero values that every copy writes over before it reads them.
pub data Cell (O : Foreign) : Type 0 where
  fresh : Cell O
  foreign : O.Pointee → Cell O
  strings : List String → Cell O
  int32 : ℤ → Cell O
  conditions : List O.Condition → Cell O
  secret_reference : SecretReference → Cell O
  connection_reference : ConnectionReference → Cell O
  endpoint : FirewallRuleEndpoint → Cell O
  credentials_spec : CredentialsSpec → Cell O
  tls_spec : TlsSpec → Cell O
  connection_spec : ConnectionSpec → Cell O
  connection_status : ConnectionStatus → Cell O
  alias_spec : AliasSpec → Cell O
  alias_status : AliasStatus → Cell O
  rule_spec : FirewallRuleSpec → Cell O
  rule_status : FirewallRuleStatus → Cell O
  alias : Alias O → Cell O
  rule : FirewallRule O → Cell O
  connection : OpnsenseConnection O → Cell O
  aliases : List (Alias O) → Cell O
  rules : List (FirewallRule O) → Cell O
  connections : List (OpnsenseConnection O) → Cell O
  alias_list : ObjectList O.ListMeta → Cell O
  rule_list : ObjectList O.ListMeta → Cell O
  connection_list : ObjectList O.ListMeta → Cell O

pub record Memory (O : Foreign) : Type 0 where
  pub next : ℕ
  pub cell : ℕ → Cell O

-- How values of one Go type are held in cells.
pub record Slot (O : Foreign) (T : Type 0) : Type 0 where
  pub hold : T → Cell O
  pub held : Cell O → Option T
  pub held-hold : (x : T) → held (hold x) ≡ some x

-- A command fails where it reads a cell that holds no value of the type.
abbrev pub Cmd : Foreign → Type 0 → Type 0
Cmd O A = Memory O → Option (A × Memory O)

abbrev pub pure : {O : Foreign} {A : Type 0} → A → Cmd O A
pure a m = some (a, m)

infixl 5 ◌>>=◌ ◌>>◌
abbrev pub ◌>>=◌ : {O : Foreign} {A B : Type 0} → Cmd O A → (A → Cmd O B) → Cmd O B
◌>>=◌ c f m = elim (c m) [ none ↦ none | some (a, m') ↦ f a m' ]

abbrev pub ◌>>◌ : {O : Foreign} {B : Type 0} → Cmd O (Unit {0}) → Cmd O B → Cmd O B
◌>>◌ c d = c >>= λ _. d

abbrev pub update : {O : Foreign} → (ℕ → Cell O) → ℕ → Cell O → ℕ → Cell O
update f p c a = if a == p then c else f a

unfoldable pub new : {O : Foreign} → Cmd O ℕ
new m = some (m.next, record { next = suc m.next; cell = update m.cell m.next fresh })

unfoldable pub load : {O : Foreign} {T : Type 0} → Slot O T → ℕ → Cmd O T
load slot a m = elim (slot.held (m.cell a)) [ none ↦ none | some x ↦ some (x, m) ]

unfoldable pub store : {O : Foreign} {T : Type 0} → Slot O T → ℕ → T → Cmd O (Unit {0})
store slot p x m = some (tt, record m { cell = update m.cell p (slot.hold x) })
