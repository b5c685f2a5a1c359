-- ===== src/Common/Text.antt =====
-- What the source uses of Go's `strings` and `strconv`, over the native texts.
use Prim.Native.Nat.{ℕ, zero, suc, ◌/◌, ◌%◌}
use Prim.Native.Char.{Char, code}
use Prim.Native.String
use Prim.Native.String.{String}
use mathlib.Core.Bool.{Bool, true, false, ◌&&◌, ◌||◌}
use mathlib.Core.List.{List, [], ◌∷◌}
use text.Mathlib.Text.{◌==◌ as text_eq}
use claimward_vpn_client.Common.Tests.{◌==◌, ltb, leb, if◌then◌else◌}

abbrev pub str_eq : String → String → Bool
str_eq = text_eq

infixr 60 ◌+++◌
abbrev pub ◌+++◌ : String → String → String
s +++ t = String.◌++◌ s t

abbrev pub is_blank : String → Bool
is_blank s = str_eq s ""

abbrev trimmed_tail : Char → String → String
trimmed_tail c String.[] = if code c == b'/' then String.[] else String.◌∷◌ c String.[]
trimmed_tail c (String.◌∷◌ d s) = String.◌∷◌ c (String.◌∷◌ d s)

-- strings.TrimRight(s, "/").
unfoldable pub trim_right : String → String
trim_right String.[] = String.[]
trim_right (String.◌∷◌ c s) = trimmed_tail c (trim_right s)

-- strings.Join.
unfoldable pub join_with : String → List String → String
join_with sep [] = ""
join_with sep (s ∷ []) = s
join_with sep (s ∷ t ∷ rest) = s +++ sep +++ join_with sep (t ∷ rest)

unfoldable pub is_prefix : String → String → Bool
is_prefix String.[] t = true
is_prefix (String.◌∷◌ c s) String.[] = false
is_prefix (String.◌∷◌ c s) (String.◌∷◌ d t) = code c == code d && is_prefix s t

-- strings.Contains(t, s).
unfoldable pub contains : String → String → Bool
unfolding is_prefix
contains String.[] s = is_prefix s String.[]
contains (String.◌∷◌ c t) s = is_prefix s (String.◌∷◌ c t) || contains t s

-- unicode.IsSpace.
is_space : ℕ → Bool
is_space c =
    (leb 9 c && leb c 13)
    || c == 32
    || c == 0x85
    || c == 0xa0
    || c == 0x1680
    || (leb 0x2000 c && leb c 0x200a)
    || c == 0x2028
    || c == 0x2029
    || c == 0x202f
    || c == 0x205f
    || c == 0x3000

trim_left_space : String → String
unfolding is_space
trim_left_space String.[] = String.[]
trim_left_space (String.◌∷◌ c s) = if is_space (code c) then trim_left_space s else String.◌∷◌ c s

abbrev spaced_tail : Char → String → String
unfolding is_space
spaced_tail c String.[] = if is_space (code c) then String.[] else String.◌∷◌ c String.[]
spaced_tail c (String.◌∷◌ d s) = String.◌∷◌ c (String.◌∷◌ d s)

trim_right_space : String → String
unfolding is_space
trim_right_space String.[] = String.[]
trim_right_space (String.◌∷◌ c s) = spaced_tail c (trim_right_space s)

-- strings.TrimSpace.
unfoldable pub trim_space : String → String
unfolding trim_left_space trim_right_space
trim_space s = trim_right_space (trim_left_space s)

-- The digits by their values, those of `%x` included.
abbrev digits : List String
digits =
    "0" ∷ "1" ∷ "2" ∷ "3" ∷ "4" ∷ "5" ∷ "6" ∷ "7" ∷ "8" ∷ "9" ∷ "a" ∷ "b" ∷ "c" ∷ "d" ∷ "e" ∷ "f"
    ∷ []

nth_text : List String → ℕ → String
nth_text [] n = ""
nth_text (s ∷ rest) zero = s
nth_text (s ∷ rest) (suc n) = nth_text rest n

digit : ℕ → String
unfolding nth_text
digit n = nth_text digits n

decimal_from : ℕ → ℕ → String
unfolding digit
decimal_from zero n = ""
decimal_from (suc f) n =
    let front = decimal_from f (n / 10) +++ digit (n % 10) in if ltb n 10 then digit n else front

-- The `%d` of a number that is not negative: n + 1 rounds are enough for its digits.
unfoldable pub decimal : ℕ → String
unfolding decimal_from
decimal n = decimal_from (suc n) n

hex_from : ℕ → ℕ → String
unfolding digit
hex_from zero n = ""
hex_from (suc f) n =
    let front = hex_from f (n / 16) +++ digit (n % 16) in if ltb n 16 then digit n else front

-- The `%x` of such a number.
unfoldable pub hex : ℕ → String
unfolding hex_from
hex n = hex_from (suc n) n

hex_pair : ℕ → String
unfolding digit
hex_pair n = digit (n / 16) +++ digit (n % 16)

-- `hex.EncodeToString`.
unfoldable pub hex_bytes : List ℕ → String
unfolding hex_pair
hex_bytes [] = ""
hex_bytes (b ∷ bs) = hex_pair b +++ hex_bytes bs

-- One character of a quoted text: the escapes of ASCII, and every other character as it is.
quoted_char : Char → String
unfolding hex_pair
quoted_char c =
    if code c == 34
    then "\\\""
    else if code c == 92
    then "\\\\"
    else if code c == 10
    then "\\n"
    else if code c == 13
    then "\\r"
    else if code c == 9
    then "\\t"
    else if ltb (code c) 32 || code c == 127
    then "\\x" +++ hex_pair (code c)
    else String.◌∷◌ c String.[]

quoted_body : String → String
unfolding quoted_char
quoted_body String.[] = ""
quoted_body (String.◌∷◌ c s) = quoted_char c +++ quoted_body s

-- The `%q` of a text.
unfoldable pub quote : String → String
unfolding quoted_body
quote s = "\"" +++ quoted_body s +++ "\""
