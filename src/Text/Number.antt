-- ===== src/Text/Number.antt =====
-- `%d` and `strconv.ParseInt(s, 10, 64)`.
pub mod RoundTrip
use opnsense_operator.Base.{
  ℕ, zero, suc, ◌+◌, ◌-◌, ◌*◌, ◌/◌, ◌%◌, code, String, ◌<>◌, ◌≡◌, refl, ◌||◌, Option, none, some,
  ltb, ◌==◌, nat_eq, if◌then◌else◌,
}
use Prim.Native.Nat.{◌^◌}

-- `negsuc n` is -(n + 1).
pub data ℤ : Type 0 where
  pos : ℕ → ℤ
  negsuc : ℕ → ℤ

-- The `i`-th character, as a text.
unfoldable pub nth : String → ℕ → String
nth String.[] i = ""
nth (String.◌∷◌ c s) zero = String.◌∷◌ c String.[]
nth (String.◌∷◌ c s) (suc i) = nth s i

digits : ℕ → ℕ → String → String
unfolding nth nat_eq
digits zero n out = out
digits (suc fuel) n out =
    let more = digits fuel (n / 10) (nth "0123456789" (n % 10) <> out) in
    if n == 0 then out else more

-- `fmt.Sprintf("%d", n)`. A number has fewer digits than it has units.
unfoldable pub decimal : ℕ → String
unfolding digits
decimal n = if n == 0 then "0" else digits n n ""

unfoldable pub decimal_int : ℤ → String
unfolding decimal
decimal_int (pos n) = decimal n
decimal_int (negsuc n) = "-" <> decimal (suc n)

-- The value of a run of decimal digits behind `n`.
scan_digits : String → ℕ → Option ℕ
scan_digits String.[] n = some n
scan_digits (String.◌∷◌ c s) n =
    let more = scan_digits s (n * 10 + (code c - b'0')) in
    if ltb (code c) b'0' || ltb b'9' (code c) then none else more

unsigned : String → Option ℕ
unfolding scan_digits
unsigned String.[] = none
unsigned (String.◌∷◌ c s) = scan_digits (String.◌∷◌ c s) 0

in_range_pos : Option ℕ → Option ℤ
in_range_pos none = none
in_range_pos (some n) = if ltb n (2 ^ 63) then some (pos n) else none

in_range_neg : Option ℕ → Option ℤ
in_range_neg none = none
in_range_neg (some zero) = some (pos 0)
in_range_neg (some (suc n)) = if ltb n (2 ^ 63) then some (negsuc n) else none

-- A JSON number has no leading `+`; `none` is a syntax or a range error.
unfoldable pub parse_int : String → Option ℤ
unfolding unsigned in_range_pos in_range_neg nat_eq
parse_int String.[] = none
parse_int (String.◌∷◌ c s) =
    if code c == b'-' then in_range_neg (unsigned s) else in_range_pos (unsigned (String.◌∷◌ c s))

decimal_example : decimal_int (negsuc 2499) ≡ "-2500"
unfolding decimal_int
decimal_example = refl

parse_int_example : parse_int "-12" ≡ some (negsuc 11)
unfolding parse_int
parse_int_example = refl

parse_int_overflow : parse_int "9223372036854775808" ≡ none
unfolding parse_int
parse_int_overflow = refl
