-- ===== src/Text/Number/RoundTrip.antt =====
-- Decimal numbers that are printed and read.
use opnsense_operator.Base.{
  ℕ, zero, suc, ◌+◌, ◌*◌, ◌/◌, ◌%◌, ◌≤◌, ◌<◌, Char, String, ◌<>◌, ◌≡◌, ◌≢◌, refl, some, arith,
  nat_eq, ap, sym, ◌∙◌,
}
use text.Mathlib.TextLemmas.{nil-append, cons-append, append_cancel_left}
use opnsense_operator.Text.Number.{ℤ, pos, negsuc, nth, digits, decimal, decimal_int, scan_digits}

scan_char :
    (c : Char) (s : String) (n : ℕ)
    → scan_digits (String.◌∷◌ c String.[] <> s) n ≡ scan_digits (String.◌∷◌ c s) n
scan_char c s n =
    ap (λ t. scan_digits t n) (cons-append c String.[] s ∙ ap (String.◌∷◌ c) (nil-append s))

-- One digit is read after the digits before it.
scan-digit :
    (d : ℕ)
    → d < 10
    → (s : String) (n : ℕ) → scan_digits (nth "0123456789" d <> s) n ≡ scan_digits s (n * 10 + d)
unfolding nth scan_digits
scan-digit zero h s n = scan_char "0" s n
scan-digit (suc zero) h s n = scan_char "1" s n
scan-digit (suc (suc zero)) h s n = scan_char "2" s n
scan-digit (suc (suc (suc zero))) h s n = scan_char "3" s n
scan-digit (suc (suc (suc (suc zero)))) h s n = scan_char "4" s n
scan-digit (suc (suc (suc (suc (suc zero))))) h s n = scan_char "5" s n
scan-digit (suc (suc (suc (suc (suc (suc zero)))))) h s n = scan_char "6" s n
scan-digit (suc (suc (suc (suc (suc (suc (suc zero))))))) h s n = scan_char "7" s n
scan-digit (suc (suc (suc (suc (suc (suc (suc (suc zero)))))))) h s n = scan_char "8" s n
scan-digit (suc (suc (suc (suc (suc (suc (suc (suc (suc zero))))))))) h s n = scan_char "9" s n
scan-digit (suc (suc (suc (suc (suc (suc (suc (suc (suc (suc d)))))))))) h s n =
    absurd (omega arith)

-- The digits of a number and what stands behind them.
scan-digits :
    (fuel n : ℕ) (s : String) → n ≤ fuel → scan_digits (digits fuel n s) 0 ≡ scan_digits s n
unfolding digits
scan-digits zero n s h = ground arith
scan-digits (suc fuel) n s h =
    let more = scan-digits fuel (n / 10) (nth "0123456789" (n % 10) <> s) (omega arith) in
    let last = scan-digit (n % 10) (omega arith) s (n / 10) in
    let whole : n / 10 * 10 + n % 10 ≡ n = omega arith in
    elim (nat_eq.dec n 0) [ yes p ↦ ground arith | no p ↦ grind (arith, more, last, whole) ]

decimal-suc : (n : ℕ) → decimal (suc n) ≡ digits (suc n) (suc n) ""
unfolding decimal
decimal-suc n = ground arith

scan-decimal : (n : ℕ) → scan_digits (decimal n) 0 ≡ some n
unfolding decimal scan_digits nat_eq
scan-decimal zero = refl
scan-decimal (suc n) =
    ap (λ t. scan_digits t 0) (decimal-suc n) ∙ scan-digits (suc n) (suc n) "" (omega arith)

decimal_inj : (m n : ℕ) → decimal m ≡ decimal n → m ≡ n
decimal_inj m n p =
    let q = ap (λ t. scan_digits t 0) p in let a = scan-decimal m in let b = scan-decimal n in cc

-- No number is printed with a sign before it.
unsigned_decimal : (n : ℕ) (s : String) → decimal n ≢ String.◌∷◌ "-" s
unfolding scan_digits
unsigned_decimal n s p =
    let q : scan_digits (String.◌∷◌ "-" s) 0 ≡ some n =
      ap (λ t. scan_digits t 0) (sym p) ∙ scan-decimal n in
    absurd (ground arith)

signed : (s : String) → "-" <> s ≡ String.◌∷◌ "-" s
signed s = cons-append "-" String.[] s ∙ ap (String.◌∷◌ "-") (nil-append s)

-- `%d` prints different numbers differently.
pub decimal_int_inj : (m n : ℤ) → decimal_int m ≡ decimal_int n → m ≡ n
unfolding decimal_int
decimal_int_inj (pos m) (pos n) p = ap pos (decimal_inj m n p)
decimal_int_inj (pos m) (negsuc n) p =
    absurd (unsigned_decimal m (decimal (suc n)) (p ∙ signed (decimal (suc n))))
decimal_int_inj (negsuc m) (pos n) p =
    absurd (unsigned_decimal n (decimal (suc m)) (sym p ∙ signed (decimal (suc m))))
decimal_int_inj (negsuc m) (negsuc n) p =
    let q = decimal_inj (suc m) (suc n) (append_cancel_left "-" _ _ p) in
    ap negsuc (omega (arith, q))
