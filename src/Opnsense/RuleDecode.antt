-- ===== src/Opnsense/RuleDecode.antt =====
-- The responses of `getRule` and `searchRule`, and `selectedKey`.
pub mod Selected
use opnsense_operator.Base.{
  String, Bool, false, Option, none, some, List, [], ◌∷◌, ◌==◌, string_eq, nat_eq, if◌then◌else◌,
}
use opnsense_operator.Base.Dict.{Dict}
use opnsense_operator.Text.Number.{ℤ, pos, negsuc}
use opnsense_operator.Text.Escape.{names_field}
use opnsense_operator.Json.{Json, store_string, store_int, store_struct, store_map, store_slice}
use opnsense_operator.Runtime.{Env}
use mathlib.Core.Option
use opnsense_operator.Opnsense.Decode.{store_only, entries}

pub record SelectEntry : Type 0 where
  pub value : String
  pub selected : ℤ

abbrev set_select : String → Json → SelectEntry → Option SelectEntry
set_select k v r =
    if names_field k "value"
    then Option.map (λ s. record r { value = s }) (store_string v r.value)
    else if names_field k "selected"
    then Option.map (λ s. record r { selected = s }) (store_int v r.selected)
    else some r

abbrev pub Select : Type 0
Select = Option (Dict SelectEntry)

unfoldable pub store_select : Json → Select → Option Select
store_select = store_map (store_struct set_select) (record { value = ""; selected = pos 0 })

-- The struct under `rule` in a `getRule` response.
pub record RuleResponse : Type 0 where
  pub enabled : String
  pub sequence : String
  pub action : Select
  pub interface : Select
  pub direction : Select
  pub ip_protocol : Select
  pub protocol : Select
  pub source_net : String
  pub source_not : String
  pub source_port : String
  pub destination_net : String
  pub destination_not : String
  pub destination_port : String
  pub log : String
  pub quick : String
  pub description : String

abbrev pub empty_rule : RuleResponse
empty_rule = record {
  enabled = "";
  sequence = "";
  action = none;
  interface = none;
  direction = none;
  ip_protocol = none;
  protocol = none;
  source_net = "";
  source_not = "";
  source_port = "";
  destination_net = "";
  destination_not = "";
  destination_port = "";
  log = "";
  quick = "";
  description = "";
}

-- The select fields, and the others.
abbrev set_selects : String → Json → RuleResponse → Option RuleResponse → Option RuleResponse
set_selects k v r others =
    if names_field k "action"
    then Option.map (λ m. record r { action = m }) (store_select v r.action)
    else if names_field k "interface"
    then Option.map (λ m. record r { interface = m }) (store_select v r.interface)
    else if names_field k "direction"
    then Option.map (λ m. record r { direction = m }) (store_select v r.direction)
    else if names_field k "ipprotocol"
    then Option.map (λ m. record r { ip_protocol = m }) (store_select v r.ip_protocol)
    else if names_field k "protocol"
    then Option.map (λ m. record r { protocol = m }) (store_select v r.protocol)
    else others

abbrev set_ends : String → Json → RuleResponse → Option RuleResponse → Option RuleResponse
set_ends k v r others =
    if names_field k "source_net"
    then Option.map (λ s. record r { source_net = s }) (store_string v r.source_net)
    else if names_field k "source_not"
    then Option.map (λ s. record r { source_not = s }) (store_string v r.source_not)
    else if names_field k "source_port"
    then Option.map (λ s. record r { source_port = s }) (store_string v r.source_port)
    else if names_field k "destination_net"
    then Option.map (λ s. record r { destination_net = s }) (store_string v r.destination_net)
    else if names_field k "destination_not"
    then Option.map (λ s. record r { destination_not = s }) (store_string v r.destination_not)
    else if names_field k "destination_port"
    then Option.map (λ s. record r { destination_port = s }) (store_string v r.destination_port)
    else others

abbrev set_flat : String → Json → RuleResponse → Option RuleResponse
set_flat k v r =
    if names_field k "enabled"
    then Option.map (λ s. record r { enabled = s }) (store_string v r.enabled)
    else if names_field k "sequence"
    then Option.map (λ s. record r { sequence = s }) (store_string v r.sequence)
    else if names_field k "log"
    then Option.map (λ s. record r { log = s }) (store_string v r.log)
    else if names_field k "quick"
    then Option.map (λ s. record r { quick = s }) (store_string v r.quick)
    else if names_field k "description"
    then Option.map (λ s. record r { description = s }) (store_string v r.description)
    else some r

unfoldable pub store_rule : Json → RuleResponse → Option RuleResponse
store_rule = store_struct λ k v old.
    if names_field k "rule"
    then store_struct (λ k' v' r. set_selects k' v' r (set_ends k' v' r (set_flat k' v' r))) v old
    else some old

-- The UUIDs under `rows` in a `searchRule` response.
unfoldable pub store_rows : Json → List String → Option (List String)
store_rows =
    store_struct
      λ k v old. if names_field k "rows" then store_slice (store_only "uuid") "" v old else some old

abbrev is_one : ℤ → Bool
is_one (pos n) = n == 1
is_one (negsuc n) = false

-- The key of the first selected entry, in the order of the iteration, or "".
unfoldable pub first_selected : Dict SelectEntry → String
first_selected [] = ""
first_selected ((k, v) ∷ m) = if is_one v.selected then k else first_selected m

-- `selectedKey`
unfoldable pub selected_key : (E : Env) → Select → String
selected_key E m = first_selected (E.range (entries m))
