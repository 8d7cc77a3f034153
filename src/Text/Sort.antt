-- ===== src/Text/Sort.antt =====
-- `sort.Strings`: the order is that of the code points, which is that of the bytes of UTF-8.
pub mod Order
use Prim.Native.String.{compare}
use Prim.Native.Nat.{Ordering}
use opnsense_operator.Base.{String, Bool, true, false, List, [], ◌∷◌, if◌then◌else◌}

not_gt : Ordering → Bool
not_gt Ordering.gt = false
not_gt _ = true

unfoldable pub le_text : String → String → Bool
unfolding not_gt
le_text s t = not_gt (compare s t)

unfoldable pub insert_sorted : String → List String → List String
insert_sorted s [] = s ∷ []
insert_sorted s (t ∷ ts) = if le_text s t then s ∷ t ∷ ts else t ∷ insert_sorted s ts

unfoldable pub sort_strings : List String → List String
unfolding insert_sorted
sort_strings [] = []
sort_strings (s ∷ ss) = insert_sorted s (sort_strings ss)
