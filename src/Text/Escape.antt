-- ===== src/Text/Escape.antt =====
-- `url.QueryEscape`, and the folding of names that encoding/json uses.
use opnsense_operator.Base.{
  ℕ, ◌+◌, ◌-◌, ◌/◌, ◌%◌, Char, code, String, ◌<>◌, ◌≡◌, refl, Bool, true, false, ◌&&◌, ◌||◌, ltb,
  leb, ◌==◌, nat_eq, if◌then◌else◌,
}
use opnsense_operator.Text.Number.{nth}

abbrev hex : ℕ → String
hex n = nth "0123456789ABCDEF" n

percent : ℕ → String
unfolding nth
percent b = "%" <> (hex (b / 16) <> hex (b % 16))

-- The bytes of a code point in UTF-8, each escaped.
percent_utf8 : ℕ → String
unfolding percent
percent_utf8 c =
    if ltb c 0x80
    then percent c
    else if ltb c 0x800
    then percent (0xC0 + c / 64) <> percent (0x80 + c % 64)
    else if ltb c 0x10000
    then percent (0xE0 + c / 4096) <> (percent (0x80 + c / 64 % 64) <> percent (0x80 + c % 64))
    else percent (0xF0 + c / 262144)
      <> (percent (0x80 + c / 4096 % 64)
          <> (percent (0x80 + c / 64 % 64) <> percent (0x80 + c % 64)))

-- Letters, digits, `-`, `_`, `.` and `~` stay.
is_unreserved : ℕ → Bool
unfolding nat_eq
is_unreserved c =
    (leb b'a' c && leb c b'z')
    || (leb b'A' c && leb c b'Z')
    || (leb b'0' c && leb c b'9')
    || c == b'-'
    || c == b'_'
    || c == b'.'
    || c == b'~'

escape_char : Char → String
unfolding is_unreserved percent_utf8
escape_char c =
    if is_unreserved (code c)
    then String.◌∷◌ c String.[]
    else if code c == 32
    then "+"
    else percent_utf8 (code c)

unfoldable pub query_escape : String → String
unfolding escape_char
query_escape String.[] = ""
query_escape (String.◌∷◌ c s) = escape_char c <> query_escape s

query_escape_example : query_escape "a/b ü" ≡ "a%2Fb+%C3%BC"
unfolding query_escape
query_escape_example = refl

-- The code point that stands for a letter in either case; `K` and `S` have a third form each.
fold_code : ℕ → ℕ
unfolding nat_eq
fold_code c =
    if leb b'a' c && leb c b'z'
    then c - 32
    else if c == 0x212A
    then b'K'
    else if c == 0x17F
    then b'S'
    else c

-- A key of a JSON object names a field if both fold to the same codes. The field names of the
-- operator are ASCII.
unfoldable pub names_field : String → String → Bool
unfolding fold_code
names_field String.[] String.[] = true
names_field String.[] (String.◌∷◌ d t) = false
names_field (String.◌∷◌ c s) String.[] = false
names_field (String.◌∷◌ c s) (String.◌∷◌ d t) =
    fold_code (code c) == fold_code (code d) && names_field s t
