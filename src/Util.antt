-- ===== src/Util.antt =====
-- The text helpers of src/core/util.cpp, on the bytes of a text.
pub mod Texts
use distributed_job_engine.Prelude.{
  ℕ, zero, suc, ◌+◌, ◌-◌, ◌*◌, ◌/◌, ◌%◌, ◌^◌, Bool, true, false, ◌&&◌, ◌||◌, List, [], ◌∷◌, ◌++◌,
  Option, none, some, ltb, leb, ◌==◌, if◌then◌else◌, is_nil, ℤ, pos, negsuc, Text,
}

-- Decimal digits, the most significant first; the fuel is above the number.
unfoldable pub digits : ℕ → ℕ → Text
digits zero n = []
digits (suc fuel) n =
    let rest = digits fuel (n / 10) ++ (b'0' + n % 10) ∷ [] in
    if ltb n 10 then (b'0' + n) ∷ [] else rest

-- `num(int64_t)`, the `%lld` of `snprintf`.
unfoldable pub num : ℤ → Text
unfolding digits
num (pos n) = digits (suc n) n
num (negsuc n) = b'-' ∷ digits (suc (suc n)) (suc n)

-- Space, tab, carriage return, line feed.
abbrev pub is_space : ℕ → Bool
is_space c = (c == 32) || (c == 9) || (c == 13) || (c == 10)

unfoldable pub trim_left : Text → Text
trim_left [] = []
trim_left (c ∷ s) = let rest = trim_left s in if is_space c then rest else c ∷ s

unfoldable pub trim_right : Text → Text
trim_right [] = []
trim_right (c ∷ s) = let rest = trim_right s in if is_space c && is_nil rest then [] else c ∷ rest

unfoldable pub trim : Text → Text
unfolding trim_left trim_right
trim s = trim_right (trim_left s)

abbrev pub put_first : ℕ → List Text → List Text
put_first c [] = (c ∷ []) ∷ []
put_first c (w ∷ ws) = (c ∷ w) ∷ ws

-- The pieces between the delimiters; one piece, maybe empty, behind the last.
unfoldable pub split : ℕ → Text → List Text
split delim [] = [] ∷ []
split delim (c ∷ s) = let rest = split delim s in if c == delim then [] ∷ rest else put_first c rest

abbrev pub lower_char : ℕ → ℕ
lower_char c = if leb b'A' c && leb c b'Z' then (c - b'A') + b'a' else c

unfoldable pub to_lower : Text → Text
to_lower [] = []
to_lower (c ∷ s) = lower_char c ∷ to_lower s

unfoldable pub starts_with : Text → Text → Bool
starts_with s [] = true
starts_with [] (p ∷ prefix) = false
starts_with (c ∷ s) (p ∷ prefix) = (c == p) && starts_with s prefix

abbrev pub int64_max : ℕ
int64_max = 2 ^ 63 - 1

-- The loop of `parse_int`: `none` at another character, and where the value would overflow.
unfoldable pub parse_digits : ℕ → Text → Option ℕ
parse_digits v [] = some v
parse_digits v (c ∷ s) =
    let d = c - b'0' in
    let rest = parse_digits (v * 10 + d) s in
    if ltb c b'0' || ltb b'9' c then none else if ltb ((int64_max - d) / 10) v then none else rest

abbrev pub signed : Bool → ℕ → ℤ
signed true (suc n) = negsuc n
signed _ n = pos n

abbrev pub parse_magnitude : Bool → Text → Option ℤ
parse_magnitude neg [] = none
parse_magnitude neg (c ∷ s) = elim (parse_digits 0 (c ∷ s)) [
  | none ↦ none
  | some n ↦ some (signed neg n)
]

abbrev pub parse_trimmed : Text → Option ℤ
parse_trimmed [] = none
parse_trimmed (c ∷ s) =
    if c == b'-'
    then parse_magnitude true s
    else if c == b'+'
    then parse_magnitude false s
    else parse_magnitude false (c ∷ s)

unfoldable pub parse_int : Text → Option ℤ
unfolding trim parse_digits
parse_int s = parse_trimmed (trim s)

-- The value of a hexadecimal digit, `none` for -1.
abbrev pub hex : ℕ → Option ℕ
hex c =
    if leb b'0' c && leb c b'9'
    then some (c - b'0')
    else if leb b'a' c && leb c b'f'
    then some ((c - b'a') + 10)
    else if leb b'A' c && leb c b'F'
    then some ((c - b'A') + 10)
    else none

abbrev pub escaped : Option ℕ → Option ℕ → Option ℕ
escaped (some hi) (some lo) = some (hi * 16 + lo)
escaped _ _ = none

abbrev pub plain : ℕ → ℕ
plain c = if c == b'+' then 32 else c

-- `%` with two characters behind it, which are an escape if both are hexadecimal digits.
unfoldable pub url_decode : Text → Text
url_decode [] = []
url_decode (c ∷ []) = plain c ∷ []
url_decode (c ∷ a ∷ []) = plain c ∷ plain a ∷ []
url_decode (c ∷ a ∷ b ∷ s) =
    let skipped = url_decode s in
    let next = url_decode (a ∷ b ∷ s) in
    if c == b'%'
    then elim (escaped (hex a) (hex b)) [ some x ↦ x ∷ skipped | none ↦ c ∷ next ]
    else plain c ∷ next
