-- ===== src/Opnsense/Decode.antt =====
-- Response bodies: the structs that the client decodes into, and `resultError`.
use opnsense_operator.Base.{
  String, ◌<>◌, Bool, true, false, Option, none, some, List, [], ◌∷◌, Error, Result, ok, err,
  Sentinel, ◌==◌, string_eq, nat_eq, if◌then◌else◌,
}
use opnsense_operator.Base.Dict.{Dict}
use opnsense_operator.Text.Escape.{names_field}
use opnsense_operator.Json.{Json, store_string, store_struct, store_map}
use opnsense_operator.Runtime.{Env}
use mathlib.Core.Option

abbrev pub unexpected : String → Error
unexpected after = Error.wrap "" (Error.sentinel Sentinel.unexpected_response) after

-- `json.Unmarshal` into a variable that holds the zero value.
unfoldable pub unmarshal :
    (E : Env) {A : Type 0} → String → (Json → A → Option A) → A → String → Result A
unmarshal E go_type store zero text = elim (E.parse text) [
  | err e ↦ err e
  | ok j ↦ elim (store j zero) [ none ↦ err (E.unmarshal_type_error go_type j) | some a ↦ ok a ]
]

-- A struct with one string field, as the value of that field.
unfoldable pub store_only : String → Json → String → Option String
store_only name =
    store_struct (λ k v old. if names_field k name then store_string v old else some old)

pub record ResultResponse : Type 0 where
  pub result : String
  pub status : String
  pub uuid : String
  pub validations : Option (Dict String)

abbrev pub empty_result : ResultResponse
empty_result = record { result = ""; status = ""; uuid = ""; validations = none }

abbrev pub set_result : String → Json → ResultResponse → Option ResultResponse
set_result k v r =
    if names_field k "result"
    then Option.map (λ s. record r { result = s }) (store_string v r.result)
    else if names_field k "status"
    then Option.map (λ s. record r { status = s }) (store_string v r.status)
    else if names_field k "uuid"
    then Option.map (λ s. record r { uuid = s }) (store_string v r.uuid)
    else if names_field k "validations"
    then Option.map (λ m. record r { validations = m }) (store_map store_string "" v r.validations)
    else some r

unfoldable pub decode_result_response : (E : Env) → String → Result ResultResponse
decode_result_response E text =
    elim (unmarshal E "resultResponse" (store_struct set_result) empty_result text) [
      | err e ↦ err (Error.wrap "decode result response: " e "")
      | ok response ↦ ok response
    ]

-- The entries of a map that may be nil.
abbrev pub entries {ℓ} : {V : Type ℓ} → Option (Dict V) → Dict V
entries none = []
entries (some m) = m

abbrev pub is_nil {ℓ} : {V : Type ℓ} → Option (Dict V) → Bool
is_nil none = true
is_nil (some m) = false

abbrev pub has_none {ℓ} : {V : Type ℓ} → List V → Bool
has_none [] = true
has_none (x ∷ xs) = false

-- `resultFailed`
abbrev pub result_failed : String
result_failed = "failed"

-- `resultResponse.resultError`; `none` is nil.
unfoldable pub result_error : (E : Env) → ResultResponse → String → Option Error
result_error E r expected =
    if r.result == result_failed
    then some (Error.validation (entries r.validations))
    else if r.result == expected
    then none
    else some
        (unexpected (": expected result " <> (E.quote expected <> (", got " <> E.quote r.result))))

-- The members of the exported alias map.
pub record ExportedAlias : Type 0 where
  pub enabled : String
  pub name : String
  pub type : String
  pub content : String
  pub description : String

abbrev pub set_exported : String → Json → ExportedAlias → Option ExportedAlias
set_exported k v r =
    if names_field k "enabled"
    then Option.map (λ s. record r { enabled = s }) (store_string v r.enabled)
    else if names_field k "name"
    then Option.map (λ s. record r { name = s }) (store_string v r.name)
    else if names_field k "type"
    then Option.map (λ s. record r { type = s }) (store_string v r.type)
    else if names_field k "content"
    then Option.map (λ s. record r { content = s }) (store_string v r.content)
    else if names_field k "description"
    then Option.map (λ s. record r { description = s }) (store_string v r.description)
    else some r

unfoldable pub store_aliases :
    Json → Option (Dict ExportedAlias) → Option (Option (Dict ExportedAlias))
store_aliases =
    store_map (store_struct set_exported)
      (record { enabled = ""; name = ""; type = ""; content = ""; description = "" })

-- `aliases.alias` of an export, kept as a raw message: `none` where the member is missing.
unfoldable pub store_export : Json → Option Json → Option (Option Json)
store_export = store_struct λ k v old.
    if names_field k "aliases"
    then store_struct (λ k' v' old'. if names_field k' "alias" then some (some v') else some old') v
        old
    else some old
