-- ===== src/Json.antt =====
-- JSON values, and what `json.Unmarshal` does with one: `store_…` writes a value into a Go variable
-- of a type, from the variable's value before, and gives `none` where the types do not fit.
use opnsense_operator.Base.{String, Bool, Option, none, some, List, [], ◌∷◌}
use opnsense_operator.Base.Dict
use opnsense_operator.Base.Dict.{Dict}
use opnsense_operator.Text.Number.{ℤ, parse_int}
use mathlib.Core.Option

mutual
  pub data Json : Type 0 where
    null : Json
    bool : Bool → Json
    -- a number, as it is spelled
    num : String → Json
    str : String → Json
    arr : Items → Json
    obj : Fields → Json

  pub data Items : Type 0 where
    nil : Items
    cons : Json → Items → Items

  -- The members of an object, in order; a name may come twice.
  pub data Fields : Type 0 where
    end : Fields
    field : String → Json → Fields → Fields

-- A string variable. `null` leaves every variable but a map alone.
unfoldable pub store_string : Json → String → Option String
store_string (str s) old = some s
store_string null old = some old
store_string _ old = none

unfoldable pub store_int : Json → ℤ → Option ℤ
store_int (num s) old = parse_int s
store_int null old = some old
store_int _ old = none

module _ {A : Type 0} where
  -- A struct: the members in order, each into the field that its name picks.
  unfoldable pub store_fields : (String → Json → A → Option A) → Fields → A → Option A
  store_fields set end a = some a
  store_fields set (field k v rest) a =
      let more = λ (b : A). store_fields set rest b in Option.bind (set k v a) more

  unfoldable pub store_struct : (String → Json → A → Option A) → Json → A → Option A
  store_struct set (obj fields) old = store_fields set fields old
  store_struct set null old = some old
  store_struct set _ old = none

  -- A map: each member into a fresh element; a nil map is made where it is first written to.
  unfoldable pub store_entries : (Json → A → Option A) → A → Fields → Dict A → Option (Dict A)
  store_entries set zero end m = some m
  store_entries set zero (field k v rest) m =
      let more = λ (a : A). store_entries set zero rest (Dict.insert k a m) in
      Option.bind (set v zero) more

  unfoldable pub store_map :
      (Json → A → Option A) → A → Json → Option (Dict A) → Option (Option (Dict A))
  store_map set zero (obj fields) none = Option.map some (store_entries set zero fields [])
  store_map set zero (obj fields) (some m) = Option.map some (store_entries set zero fields m)
  store_map set zero null old = some none
  store_map set zero _ old = none

-- An array into a slice: an element that the slice has is written over, further ones are fresh.
module _ {A : Type 0} (set : Json → A → Option A) (zero : A) where
  unfoldable pub store_items : Items → List A → Option (List A)
  store_items nil old = some []
  store_items (cons j js) [] =
      let more = λ (a : A). Option.map (λ as'. a ∷ as') (store_items js []) in
      Option.bind (set j zero) more
  store_items (cons j js) (o ∷ old) =
      let more = λ (a : A). Option.map (λ as'. a ∷ as') (store_items js old) in
      Option.bind (set j o) more

  unfoldable pub store_slice : Json → List A → Option (List A)
  store_slice (arr items) old = store_items items old
  store_slice null old = some []
  store_slice _ old = none
