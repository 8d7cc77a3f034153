-- ===== src/Opnsense/Rules/NoRows.antt =====
-- Which documents have no rows for `SearchRuleByManagedSuffix`, by their members alone.
use opnsense_operator.Base.{
  String, ◌≡◌, Option, none, some, List, [], ◌∷◌, inl, inr, ok, arith, Option-cases, Bool-cases,
  Result-cases, if◌then◌else◌,
}
use opnsense_operator.Text.Escape.{names_field}
use opnsense_operator.Json.{
  Json, null, bool, num, str, arr, obj, nil, cons, Fields, end, field, store_fields, store_struct,
  store_items, store_slice,
}
use opnsense_operator.Runtime.{Env}
use opnsense_operator.Opnsense.Decode.{unmarshal, store_only}
use opnsense_operator.Opnsense.RuleDecode.{store_rows}
use opnsense_operator.Opnsense.Rules.{read_rows}
use mathlib.Core.Option.{bind, map}

-- The value of the last member with this name, upper and lower case alike.
unfoldable pub member : String → Fields → Option Json
member name end = none
member name (field k v rest) = elim (member name rest) [
  | some j ↦ some j
  | none ↦ if names_field k name then some v else none
]

-- No array, or one without elements.
abbrev pub IsEmpty : Option Json → Type 0
IsEmpty none = Unit
IsEmpty (some null) = Unit
IsEmpty (some (arr nil)) = Unit
IsEmpty _ = ⊥

-- The document is `null`, or an object whose member "rows" is missing, `null` or `[]`.
abbrev pub HasNoRows : Json → Type 0
HasNoRows null = Unit
HasNoRows (obj fields) = IsEmpty (member "rows" fields)
HasNoRows _ = ⊥

abbrev store_uuids : Json → List String → Option (List String)
store_uuids = store_slice (store_only "uuid") ""

abbrev set_rows : String → Json → List String → Option (List String)
set_rows k v old = if names_field k "rows" then store_uuids v old else some old

cons-nonempty :
    (x : Option String) (xs : Option (List String))
    → bind x (λ a. map (λ as'. a ∷ as') xs) ≡ some []
    → ⊥
unfolding bind map
cons-nonempty none xs h = absurd (cc)
cons-nonempty (some a) none h = absurd (cc)
cons-nonempty (some a) (some as') h = absurd (cc)

store_uuids-IsEmpty :
    (j : Json) (old : List String) → store_uuids j old ≡ some [] → IsEmpty (some j)
unfolding store_slice store_items
store_uuids-IsEmpty null old h = tt
store_uuids-IsEmpty (bool b) old h = absurd (cc)
store_uuids-IsEmpty (num s) old h = absurd (cc)
store_uuids-IsEmpty (str s) old h = absurd (cc)
store_uuids-IsEmpty (arr nil) old h = tt
store_uuids-IsEmpty (arr (cons j js)) [] h =
    absurd (cons-nonempty (store_only "uuid" j "") (store_items (store_only "uuid") "" js []) h)
store_uuids-IsEmpty (arr (cons j js)) (o ∷ old) h =
    absurd (cons-nonempty (store_only "uuid" j o) (store_items (store_only "uuid") "" js old) h)
store_uuids-IsEmpty (obj fields) old h = absurd (cc)

-- What the members leave of the rows before them.
abbrev Leaves : Option Json → List String → Type 0
Leaves none old = old ≡ []
Leaves (some j) old = IsEmpty (some j)

set_rows-Leaves :
    (k : String) (v : Json) (old new : List String)
    → set_rows k v old ≡ some new
    → new ≡ []
    → Leaves (if names_field k "rows" then some v else none) old
set_rows-Leaves k v old new h empty = elim (Bool-cases (names_field k "rows")) [
  | inl p ↦ rw p (store_uuids-IsEmpty v old (ground arith))
  | inr p ↦ rw p (ground arith)
]

store_fields-Leaves :
    (fields : Fields) (old : List String)
    → store_fields set_rows fields old ≡ some []
    → Leaves (member "rows" fields) old
unfolding store_fields member bind
store_fields-Leaves end old h = ground arith
store_fields-Leaves (field k v rest) old h = elim (Option-cases (set_rows k v old)) [
  | inl p ↦ absurd (ground arith)
  | inr (new, p) ↦
      let more : store_fields set_rows rest new ≡ some [] = ground arith in
      let left = store_fields-Leaves rest new more in
      elim (Option-cases (member "rows" rest)) [
        | inl q ↦ rw q (set_rows-Leaves k v old new p (rw q at left))
        | inr (j, q) ↦ rw q (rw q at left)
      ]
]

Leaves-IsEmpty : (m : Option Json) → Leaves m [] → IsEmpty m
Leaves-IsEmpty none l = tt
Leaves-IsEmpty (some j) l = l

store_rows-HasNoRows : (j : Json) → store_rows j [] ≡ some [] → HasNoRows j
unfolding store_rows store_struct
store_rows-HasNoRows null h = tt
store_rows-HasNoRows (bool b) h = absurd (cc)
store_rows-HasNoRows (num s) h = absurd (cc)
store_rows-HasNoRows (str s) h = absurd (cc)
store_rows-HasNoRows (arr js) h = absurd (cc)
store_rows-HasNoRows (obj fields) h =
    Leaves-IsEmpty (member "rows" fields) (store_fields-Leaves fields [] h)

-- An answer that is read as no rows has been parsed, and has none.
pub read_rows-HasNoRows :
    (E : Env) (body : String)
    → read_rows E body ≡ ok []
    → (j : Json) × (E.parse body ≡ ok j) × HasNoRows j
unfolding read_rows unmarshal
read_rows-HasNoRows E body h = elim (Result-cases (E.parse body)) [
  | inr (e, p) ↦ absurd (ground arith)
  | inl (j, p) ↦ (j, p, store_rows-HasNoRows j (ground arith))
]
