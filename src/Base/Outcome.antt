-- ===== src/Base/Outcome.antt =====
-- Go's error values, and the pair `(value, err)` of a call that can fail.
use opnsense_operator.Base.Dict.{Dict}
use Prim.Native.String.{String}
use mathlib.Core.Path.{◌≡◌, refl}
use mathlib.Core.Logic.{◌⊎◌, inl, inr}

-- The package variables `Err…` of internal/opnsense/client.go.
pub data Sentinel : Type 0 where
  alias_not_found firewall_rule_not_found validation_failed unexpected_response : Sentinel

pub data Error : Type 0 where
  -- one of the package variables
  sentinel : Sentinel → Error
  -- `*ValidationError`, with its field errors
  validation : Dict String → Error
  -- an error of the code outside: what it is, and its text
  external : String → String → Error
  -- `fmt.Errorf("before%wafter", …, err)`
  wrap : String → Error → String → Error
  -- `fmt.Errorf` with no `%w`, and `errors.New`
  plain : String → Error

pub data Result {ℓ} (A : Type ℓ) : Type ℓ where
  ok : A → Result A
  err : Error → Result A

pub Result-cases {ℓ} :
    {A : Type ℓ} (r : Result A) → ((a : A) × (r ≡ ok a)) ⊎ ((e : Error) × (r ≡ err e))
Result-cases (ok a) = inl (a, refl)
Result-cases (err e) = inr (e, refl)
