-- ===== src/Runtime/Errors.antt =====
-- `errors.Is` and `Error()` on the operator's errors, and lines 60 to 89 of
-- internal/opnsense/client.go.
pub mod Message
use opnsense_operator.Base.{
  String, ◌<>◌, Bool, true, false, Option, none, some, [], ◌∷◌, map, Sentinel, Error,
}
use opnsense_operator.Base.Dict
use opnsense_operator.Base.Dict.{Dict}
use opnsense_operator.Text.{join}
use opnsense_operator.Text.Sort.{sort_strings}

abbrev pub same_sentinel : Sentinel → Sentinel → Bool
same_sentinel Sentinel.alias_not_found Sentinel.alias_not_found = true
same_sentinel Sentinel.firewall_rule_not_found Sentinel.firewall_rule_not_found = true
same_sentinel Sentinel.validation_failed Sentinel.validation_failed = true
same_sentinel Sentinel.unexpected_response Sentinel.unexpected_response = true
same_sentinel _ _ = false

-- `errors.Is(err, Err…)`: `ValidationError.Unwrap` gives `ErrValidationFailed`.
unfoldable pub is : Error → Sentinel → Bool
is (Error.sentinel s) t = same_sentinel s t
is (Error.validation _) t = same_sentinel Sentinel.validation_failed t
is (Error.wrap _ e _) t = is e t
is (Error.external _ _) t = false
is (Error.plain _) t = false

-- `AsValidationError`: `errors.As` with a `*ValidationError`, by its field errors.
unfoldable pub as_validation : Error → Option (Dict String)
as_validation (Error.validation errors) = some errors
as_validation (Error.wrap _ e _) = as_validation e
as_validation _ = none

-- The texts of the package variables.
unfoldable pub sentinel_text : Sentinel → String
sentinel_text Sentinel.alias_not_found = "opnsense alias not found"
sentinel_text Sentinel.firewall_rule_not_found = "opnsense firewall rule not found"
sentinel_text Sentinel.validation_failed = "opnsense validation failed"
sentinel_text Sentinel.unexpected_response = "unexpected opnsense response"

abbrev field_part : Dict String → String → String
field_part errors key = key <> (": " <> Dict.get_or "" key errors)

module _ (range : Dict String → Dict String) where
  -- `(*ValidationError).Error`
  unfoldable pub validation_text : Dict String → String
  validation_text [] = sentinel_text Sentinel.validation_failed
  validation_text (entry ∷ more) =
      let errors = entry ∷ more in
      let keys = sort_strings (map (λ (p : String × String). p.0) (range errors)) in
      sentinel_text Sentinel.validation_failed <> (": " <> join (map (field_part errors) keys) ", ")

  -- `err.Error()`
  unfoldable pub message : Error → String
  message (Error.sentinel s) = sentinel_text s
  message (Error.validation errors) = validation_text errors
  message (Error.external _ text) = text
  message (Error.wrap before e after) = before <> (message e <> after)
  message (Error.plain text) = text
