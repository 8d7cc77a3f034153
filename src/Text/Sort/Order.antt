-- ===== src/Text/Sort/Order.antt =====
-- The order of texts, and that sorting forgets the order of a list.
use Prim.Native.String.{compare, then as next}
use Prim.Native.String.compare
use Prim.Native.Nat.{ℕ, Ordering, compare as compare_ℕ}
use text.Mathlib.TextEquality.{Char-path}
use opnsense_operator.Base.{
  String, Char, code, true, false, List, [], ◌∷◌, ◌≡◌, refl, ap, ◌∙◌, arith, ltb, ◌==◌, nat_eq,
  string_eq, if◌then◌else◌,
}
use std.HLevel.{hedberg}
use mathlib.Core.List
use mathlib.Core.List.{Perm, Permᴰ}
use mathlib.Core.Logic.{∥∥₁_elim}
use opnsense_operator.Text.Sort.{not_gt, le_text, insert_sorted, sort_strings}

le_text-nil : (s : String) → le_text String.[] s ≡ true
unfolding le_text
le_text-nil String.[] = ap not_gt compare.nil-nil
le_text-nil (String.◌∷◌ c s) = ap not_gt (compare.nil-cons c s)

le_text-cons-nil : (c : Char) (s : String) → le_text (String.◌∷◌ c s) String.[] ≡ false
unfolding le_text
le_text-cons-nil c s = ap not_gt (compare.cons-nil c s)

first_difference :
    (a b : ℕ) (o : Ordering)
    → not_gt (next (compare_ℕ a b) o)
      ≡ (if ltb a b then true else if a == b then not_gt o else false)
unfolding not_gt
first_difference a b o = ground arith

-- One step of the comparison.
le_text-cons :
    (c d : Char) (s t : String)
    → le_text (String.◌∷◌ c s) (String.◌∷◌ d t)
      ≡ (if ltb (code c) (code d) then true else if code c == code d then le_text s t else false)
unfolding le_text
le_text-cons c d s t =
    ap not_gt (compare.cons-cons c d s t) ∙ first_difference (code c) (code d) (compare s t)

le_text_total : (s t : String) → le_text s t ≡ false → le_text t s ≡ true
le_text_total String.[] t h = let a = le_text-nil t in absurd (cc)
le_text_total (String.◌∷◌ c s) String.[] h = le_text-nil (String.◌∷◌ c s)
le_text_total (String.◌∷◌ c s) (String.◌∷◌ d t) h =
    let rest = le_text_total s t in ground (arith, le_text-cons c d s t, le_text-cons d c t s, rest)

le_text_trans : (s t u : String) → le_text s t ≡ true → le_text t u ≡ true → le_text s u ≡ true
le_text_trans String.[] t u p q = le_text-nil u
le_text_trans (String.◌∷◌ c s) String.[] u p q = let a = le_text-cons-nil c s in absurd (cc)
le_text_trans (String.◌∷◌ c s) (String.◌∷◌ d t) String.[] p q =
    let a = le_text-cons-nil d t in absurd (cc)
le_text_trans (String.◌∷◌ c s) (String.◌∷◌ d t) (String.◌∷◌ e u) p q =
    let rest = le_text_trans s t u in
    ground (arith, le_text-cons c d s t, le_text-cons d e t u, le_text-cons c e s u, rest)

le_text_antisymm : (s t : String) → le_text s t ≡ true → le_text t s ≡ true → s ≡ t
le_text_antisymm String.[] String.[] p q = refl
le_text_antisymm String.[] (String.◌∷◌ d t) p q = let a = le_text-cons-nil d t in absurd (cc)
le_text_antisymm (String.◌∷◌ c s) String.[] p q = let a = le_text-cons-nil c s in absurd (cc)
le_text_antisymm (String.◌∷◌ c s) (String.◌∷◌ d t) p q =
    let rest = le_text_antisymm s t in
    let same : code c ≡ code d = ground (arith, le_text-cons c d s t, le_text-cons d c t s) in
    let tail : s ≡ t = ground (arith, le_text-cons c d s t, le_text-cons d c t s, rest) in
    let head = Char-path c d same in cc

-- Two texts are inserted in either order.
insert_comm :
    (s t : String) (l : List String)
    → insert_sorted s (insert_sorted t l) ≡ insert_sorted t (insert_sorted s l)
unfolding insert_sorted
insert_comm s t [] = ground (arith, le_text_total s t, le_text_total t s, le_text_antisymm s t)
insert_comm s t (u ∷ l) =
    let rest = insert_comm s t l in
    ground (
      arith,
      le_text_total s t,
      le_text_total t s,
      le_text_antisymm s t,
      le_text_trans s t u,
      le_text_trans t s u,
      le_text_total s u,
      le_text_total t u,
      rest,
    )

String-set : IsSet String
String-set = hedberg string_eq.dec

sort-Permᴰ : {l k : List String} → Permᴰ l k → sort_strings l ≡ sort_strings k
unfolding sort_strings
sort-Permᴰ Permᴰ.nil = refl
sort-Permᴰ (Permᴰ.cons {a} {b} {l₁} {l₂} e d) = let rest = sort-Permᴰ d in cc
sort-Permᴰ (Permᴰ.swap {a} {b} {a'} {b'} {l} e f) =
    let both = insert_comm a b (sort_strings l) in cc
sort-Permᴰ (Permᴰ.trans d e) = sort-Permᴰ d ∙ sort-Permᴰ e

-- Lists with the same texts are sorted alike.
pub sort_strings-perm : (l k : List String) → Perm l k → sort_strings l ≡ sort_strings k
sort_strings-perm l k p =
    ∥∥₁_elim p (List.is_set String-set (sort_strings l) (sort_strings k)) sort-Permᴰ
