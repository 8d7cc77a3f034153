-- ===== src/Runtime/Errors/Message.antt =====
-- The message of an error, whatever the order of a range over its field errors.
use opnsense_operator.Base.{String, ◌<>◌, ◌≡◌, refl, true, some, [], ◌∷◌, map, ap, Sentinel, Error}
use opnsense_operator.Base.Dict.{Dict}
use opnsense_operator.Text.{join}
use opnsense_operator.Text.Sort.Order.{sort_strings-perm}
use opnsense_operator.Runtime.Errors.{
  is, as_validation, sentinel_text, field_part, validation_text, message,
}
use mathlib.Core.List.{Perm}
use mathlib.Core.List.Perm

-- A range over field errors that goes through all of them, in some order.
abbrev pub Ranges : (Dict String → Dict String) → Type 0
Ranges f = (errors : Dict String) → Perm (f errors) errors

module _ (f g : Dict String → Dict String) (F : Ranges f) (G : Ranges g) where
  pub validation_text-range :
      (errors : Dict String) → validation_text f errors ≡ validation_text g errors
  unfolding validation_text
  validation_text-range [] = refl
  validation_text-range (entry ∷ more) =
      let errors = entry ∷ more in
      let key = λ (p : String × String). p.0 in
      let same = Perm.map key (Perm.trans (F errors) (Perm.symm (G errors))) in
      ap
        (λ keys.
          sentinel_text Sentinel.validation_failed
          <> (": " <> join (map (field_part errors) keys) ", "))
        (sort_strings-perm (map key (f errors)) (map key (g errors)) same)

  -- Whatever the orders in which two runs range over the field errors, an error has one message.
  pub message-range : (e : Error) → message f e ≡ message g e
  unfolding message
  message-range (Error.sentinel s) = refl
  message-range (Error.validation errors) = validation_text-range errors
  message-range (Error.external kind text) = refl
  message-range (Error.wrap before e after) = ap (λ t. before <> (t <> after)) (message-range e)
  message-range (Error.plain text) = refl

-- An error in which `AsValidationError` finds field errors is an `ErrValidationFailed`.
pub as_validation-is :
    (e : Error) (errors : Dict String)
    → as_validation e ≡ some errors
    → is e Sentinel.validation_failed ≡ true
unfolding as_validation is
as_validation-is (Error.sentinel s) errors p = absurd (cc)
as_validation-is (Error.validation d) errors p = refl
as_validation-is (Error.external kind text) errors p = absurd (cc)
as_validation-is (Error.wrap before e after) errors p = as_validation-is e errors p
as_validation-is (Error.plain text) errors p = absurd (cc)
