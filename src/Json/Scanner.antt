-- ===== src/Json/Scanner.antt =====
-- The parts of the parser of src/core/json.cpp that do not call themselves: white space, literals,
-- strings and numbers. A scanner returns what it read and the input that is left.
use distributed_job_engine.Prelude.{
  ℕ, zero, suc, ◌+◌, ◌-◌, ◌*◌, ◌/◌, ◌%◌, ◌^◌, Bool, false, ◌&&◌, ◌||◌, [], ◌∷◌, ◌++◌, ltb, leb,
  ◌==◌, if◌then◌else◌, Text, ℤ, pos, negsuc, Option, none, some, length, is_nil,
}
use distributed_job_engine.Util.{is_space, hex, int64_max}
use distributed_job_engine.Json.{Json, int, double}
use distributed_job_engine.Json.Result.{
  Result, ok, err, out_of_fuel, ◌>>=◌, truncated_unicode, invalid_hex, unterminated_string,
  control_character, unterminated_escape, invalid_low_surrogate, unpaired_high_surrogate,
  unpaired_low_surrogate, invalid_escape, invalid_number, expected_fraction, expected_exponent,
  invalid_literal,
}
use distributed_job_engine.Json.Printer.{DoubleText}

unfoldable pub skip_ws : Text → Text
skip_ws [] = []
skip_ws (c ∷ s) = let rest = skip_ws s in if is_space c then rest else c ∷ s

abbrev pub starts : ℕ → Text → Bool
starts c [] = false
starts c (x ∷ s) = x == c

abbrev pub rest_of : Text → Text
rest_of [] = []
rest_of (x ∷ s) = s

-- `lit`: the input behind the literal.
unfoldable pub lit : Text → Text → Option Text
lit [] s = some s
lit (l ∷ ls) [] = none
lit (l ∷ ls) (c ∷ s) = if c == l then lit ls s else none

abbrev pub literal : Text → Json → Text → Result (Json × Text)
literal word j s = elim (lit word s) [ none ↦ err invalid_literal | some rest ↦ ok (j, rest) ]

-- The UTF-8 encoding of a code point.
unfoldable pub utf8 : ℕ → Text
utf8 cp =
    if leb cp 127
    then cp ∷ []
    else if leb cp 2047
    then (192 + cp / 64) ∷ (128 + cp % 64) ∷ []
    else if leb cp 65535
    then (224 + cp / 4096) ∷ (128 + (cp / 64) % 64) ∷ (128 + cp % 64) ∷ []
    else (240 + cp / 262144)
      ∷ (128 + (cp / 4096) % 64)
      ∷ (128 + (cp / 64) % 64)
      ∷ (128 + cp % 64)
      ∷ []

abbrev pub add_hex : Option ℕ → ℕ → Option ℕ
add_hex none c = none
add_hex (some v) c = elim (hex c) [ none ↦ none | some d ↦ some (v * 16 + d) ]

unfoldable pub hex4 : Text → Result (ℕ × Text)
hex4 (a ∷ b ∷ c ∷ d ∷ s) = elim (add_hex (add_hex (add_hex (add_hex (some 0) a) b) c) d) [
  | none ↦ err invalid_hex
  | some v ↦ ok (v, s)
]
hex4 _ = err truncated_unicode

-- The second half of a surrogate pair.
unfoldable pub low_surrogate : ℕ → Text → Result (Text × Text)
unfolding hex4 utf8
low_surrogate cp s =
    if starts b'\\' s && starts b'u' (rest_of s)
    then (hex4 (rest_of (rest_of s)) >>= λ (lo, rest).
        (if leb 56320 lo && leb lo 57343
          then ok (utf8 (65536 + (cp - 55296) * 1024 + (lo - 56320)), rest)
          else err invalid_low_surrogate))
    else err unpaired_high_surrogate

unfoldable pub code_point : ℕ → Text → Result (Text × Text)
unfolding low_surrogate utf8
code_point cp s =
    if leb 55296 cp && leb cp 56319
    then low_surrogate cp s
    else if leb 56320 cp && leb cp 57343
    then err unpaired_low_surrogate
    else ok (utf8 cp, s)

-- The escape behind a backslash.
unfoldable pub escape : Text → Result (Text × Text)
unfolding hex4 code_point
escape [] = err unterminated_escape
escape (e ∷ s) =
    if e == b'"'
    then ok (b'"' ∷ [], s)
    else if e == b'\\'
    then ok (b'\\' ∷ [], s)
    else if e == b'/'
    then ok (b'/' ∷ [], s)
    else if e == b'b'
    then ok (8 ∷ [], s)
    else if e == b'f'
    then ok (12 ∷ [], s)
    else if e == b'n'
    then ok (10 ∷ [], s)
    else if e == b'r'
    then ok (13 ∷ [], s)
    else if e == b't'
    then ok (9 ∷ [], s)
    else if e == b'u'
    then (hex4 s >>= λ (cp, rest). code_point cp rest)
    else err invalid_escape

abbrev pub prepend : Text → Result (Text × Text) → Result (Text × Text)
prepend bytes r = r >>= λ (s, rest). ok (bytes ++ s, rest)

-- The loop of `string`, behind the opening quote.
unfoldable pub string_loop : ℕ → Text → Result (Text × Text)
unfolding escape
string_loop zero s = out_of_fuel
string_loop (suc f) [] = err unterminated_string
string_loop (suc f) (c ∷ s) =
    let plain = prepend (c ∷ []) (string_loop f s) in
    let escaped = escape s >>= λ (bytes, rest). prepend bytes (string_loop f rest) in
    if c == b'"'
    then ok ([], s)
    else if ltb c 32
    then err control_character
    else if c == b'\\'
    then escaped
    else plain

unfoldable pub parse_string : Text → Result (Text × Text)
unfolding string_loop
parse_string s = string_loop (suc (length s)) s

abbrev pub is_digit : ℕ → Bool
is_digit c = leb b'0' c && leb c b'9'

-- The digits at the front, and what follows them.
unfoldable pub take_digits : Text → Text × Text
take_digits [] = ([], [])
take_digits (c ∷ s) = let r = take_digits s in if is_digit c then (c ∷ r.0, r.1) else ([], c ∷ s)

abbrev pub starts_digit : Text → Bool
starts_digit [] = false
starts_digit (c ∷ s) = is_digit c

-- The digits before the point: a zero stands alone.
unfoldable pub integer_part : Text → Result (Text × Text)
unfolding take_digits
integer_part s =
    if starts_digit s
    then if starts b'0' s then ok (b'0' ∷ [], rest_of s) else ok (take_digits s)
    else err invalid_number

-- The fraction, with its point.
unfoldable pub fraction_part : Text → Result (Text × Text)
unfolding take_digits
fraction_part s =
    if starts b'.' s
    then if starts_digit (rest_of s)
      then (let r = take_digits (rest_of s) in ok (b'.' ∷ r.0, r.1))
      else err expected_fraction
    else ok ([], s)

abbrev pub starts_e : Text → Bool
starts_e s = starts b'e' s || starts b'E' s

abbrev pub starts_sign : Text → Bool
starts_sign s = starts b'+' s || starts b'-' s

abbrev pub first_of : Text → Text
first_of [] = []
first_of (c ∷ s) = c ∷ []

unfoldable pub exponent_part : Text → Result (Text × Text)
unfolding take_digits
exponent_part s =
    if starts_e s
    then (let signed = starts_sign (rest_of s) in
        let sign = if signed then first_of (rest_of s) else [] in
        let behind = if signed then rest_of (rest_of s) else rest_of s in
        if starts_digit behind
        then (let r = take_digits behind in ok (first_of s ++ (sign ++ r.0), r.1))
        else err expected_exponent)
    else ok ([], s)

-- The value of decimal digits.
unfoldable pub decimal : ℕ → Text → ℕ
decimal v [] = v
decimal v (c ∷ s) = decimal (v * 10 + (c - b'0')) s

-- `strtoll` of a sign and digits: none where errno is ERANGE.
unfoldable pub strtoll : Bool → Text → Option ℤ
unfolding decimal
strtoll neg ds =
    let n = decimal 0 ds in
    if neg
    then if leb n (2 ^ 63) then some (if n == 0 then pos 0 else negsuc (n - 1)) else none
    else if leb n int64_max
    then some (pos n)
    else none

unfoldable pub number_value : DoubleText → Bool → Text → Text → Text → Json
unfolding strtoll
number_value t neg ds fraction exponent =
    let raw = (if neg then b'-' ∷ [] else []) ++ (ds ++ (fraction ++ exponent)) in
    if is_nil fraction && is_nil exponent
    then elim (strtoll neg ds) [ some i ↦ int i | none ↦ double (t.strtod raw) ]
    else double (t.strtod raw)

-- The rest of `number`, behind the sign.
unfoldable pub number_body : DoubleText → Bool → Text → Result (Json × Text)
unfolding integer_part fraction_part exponent_part number_value
number_body t neg s = integer_part s >>= λ (ds, s1). fraction_part s1 >>= λ (fraction, s2).
    exponent_part s2 >>= λ (exponent, s3). ok (number_value t neg ds fraction exponent, s3)

unfoldable pub number : DoubleText → Text → Result (Json × Text)
unfolding number_body
number t s = let neg = starts b'-' s in number_body t neg (if neg then rest_of s else s)
