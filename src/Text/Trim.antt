-- ===== src/Text/Trim.antt =====
-- `bytes.TrimSpace`, `strings.TrimSpace` and `strings.TrimRight`.
use opnsense_operator.Base.{
  ℕ, Char, code, String, ◌<>◌, ◌≡◌, refl, Bool, true, false, ◌&&◌, ◌||◌, arith, leb, ◌==◌, nat_eq,
  string_eq, if◌then◌else◌,
}
use text.Mathlib.TextLemmas.{nil-append, cons-append}

-- `unicode.IsSpace`, on the code points.
unfoldable pub is_space_code : ℕ → Bool
is_space_code c =
    (leb 9 c && leb c 13)
    || c == 32
    || c == 0x85
    || c == 0xA0
    || c == 0x1680
    || (leb 0x2000 c && leb c 0x200A)
    || c == 0x2028
    || c == 0x2029
    || c == 0x202F
    || c == 0x205F
    || c == 0x3000

unfoldable pub is_space : Char → Bool
unfolding is_space_code nat_eq
is_space c = is_space_code (code c)

unfoldable pub is_slash : Char → Bool
unfolding nat_eq
is_slash c = code c == b'/'

unfoldable pub is_empty : String → Bool
is_empty String.[] = true
is_empty (String.◌∷◌ c s) = false

module _ (drop : Char → Bool) where
  unfoldable pub trim_left : String → String
  trim_left String.[] = String.[]
  trim_left (String.◌∷◌ c s) = let rest = trim_left s in if drop c then rest else String.◌∷◌ c s

  unfoldable pub trim_right : String → String
  unfolding is_empty
  trim_right String.[] = String.[]
  trim_right (String.◌∷◌ c s) =
      let rest = trim_right s in if drop c && is_empty rest then String.[] else String.◌∷◌ c rest

  is_empty-append : (s t : String) → is_empty t ≡ false → is_empty (s <> t) ≡ false
  unfolding is_empty
  is_empty-append String.[] t full = rw nil-append full
  is_empty-append (String.◌∷◌ c s) t full = rw cons-append

  -- What does not end in a dropped character keeps its end, whatever stands in front.
  pub trim_right-append :
      (s t : String) → trim_right t ≡ t → is_empty t ≡ false → trim_right (s <> t) ≡ s <> t
  unfolding trim_right
  trim_right-append String.[] t kept full = rw nil-append kept
  trim_right-append (String.◌∷◌ c s) t kept full =
      rw (cons-append, trim_right-append s t kept full, is_empty-append s t full) (ground arith)

  -- What stands behind a kept character is out of reach from the left.
  pub trim_left-append :
      (s : String) (c : Char) (t : String)
      → drop c ≡ false
      → trim_left (s <> String.◌∷◌ c t) ≡ trim_left s <> String.◌∷◌ c t
  unfolding trim_left
  trim_left-append String.[] c t kept = rw (nil-append, kept)
  trim_left-append (String.◌∷◌ d s) c t kept =
      rw cons-append (ground (arith, trim_left-append s c t kept, cons-append d s (String.◌∷◌ c t)))

unfoldable pub trim_space : String → String
unfolding trim_left trim_right is_space
trim_space s = trim_right is_space (trim_left is_space s)

trim_space_example : trim_space " \n a b\t" ≡ "a b"
unfolding trim_space
trim_space_example = refl
