-- ===== src/Text.antt =====
-- The functions of Go's `strings`, `bytes`, `fmt`, `strconv`, `sort` and `net/url` that the
-- operator calls, on texts as sequences of Unicode characters.
pub mod Trim
pub mod Number
pub mod Escape
pub mod Sort
use opnsense_operator.Base.{String, ◌<>◌, List, [], ◌∷◌}

-- `strings.Join`
unfoldable pub join : List String → String → String
join [] sep = ""
join (s ∷ []) sep = s
join (s ∷ t ∷ rest) sep = s <> (sep <> join (t ∷ rest) sep)
