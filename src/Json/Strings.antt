-- ===== src/Json/Strings.antt =====
-- A string that `escape_into` of src/core/json.cpp printed is read back by the parser.
use distributed_job_engine.Prelude.{
  ℕ, zero, suc, ◌+◌, ◌*◌, ◌/◌, ◌%◌, ◌≤◌, ◌<◌, ◌≡◌, refl, false, [], ◌∷◌, ◌++◌, ltb, ◌==◌,
  if◌then◌else◌, Text, some, length, length-append, contains, List, ◌⊎◌, arith, Bool-cases, inl,
  inr,
}
use distributed_job_engine.Util.{is_space, hex}
use distributed_job_engine.Json.Result.{ok}
use distributed_job_engine.Json.Printer.{
  escape_char, escape_chars, hex_digit, newline_indent, spaces,
}
use distributed_job_engine.Json.Scanner.{
  skip_ws, utf8, hex4, code_point, escape, string_loop, parse_string, prepend,
}
use mathlib.Core.List.{append_assoc}

pub skip_ws-spaces : (n : ℕ) (s : Text) → skip_ws (spaces n ++ s) ≡ skip_ws s
unfolding spaces skip_ws
skip_ws-spaces zero s = refl
skip_ws-spaces (suc n) s = skip_ws-spaces n s

pub skip_ws-newline_indent :
    (indent depth : ℕ) (s : Text) → skip_ws (newline_indent indent depth ++ s) ≡ skip_ws s
unfolding newline_indent
skip_ws-newline_indent indent depth s = elim (Bool-cases (ltb 0 indent)) [
  | inl pretty ↦ rw pretty (unfold skip_ws in skip_ws-spaces (indent * depth) s)
  | inr compact ↦ rw compact refl
]

pub skip_ws-skip_ws : (s : Text) → skip_ws (skip_ws s) ≡ skip_ws s
unfolding skip_ws
skip_ws-skip_ws [] = refl
skip_ws-skip_ws (c ∷ s) = elim (Bool-cases (is_space c)) [
  | inl space ↦ rw space (skip_ws-skip_ws s)
  | inr other ↦ rw other (rw other refl)
]

hex-hex_digit : (n : ℕ) → n < 16 → hex (hex_digit n) ≡ some n
hex-hex_digit n h = ground (arith, h)

hex4-hex_digit :
    (a b : ℕ) (s : Text)
    → a < 16
    → b < 16
    → hex4 (b'0' ∷ b'0' ∷ hex_digit a ∷ hex_digit b ∷ s) ≡ ok (a * 16 + b, s)
unfolding hex4
hex4-hex_digit a b s h k = ground (arith, hex-hex_digit a h, hex-hex_digit b k)

code_point_small : (cp : ℕ) (s : Text) → cp < 32 → code_point cp s ≡ ok (cp ∷ [], s)
unfolding code_point utf8
code_point_small cp s h = ground (arith, h)

control_escape :
    (c : ℕ) (s : Text)
    → c < 32
    → escape (b'u' ∷ b'0' ∷ b'0' ∷ hex_digit (c / 16) ∷ hex_digit (c % 16) ∷ s) ≡ ok (c ∷ [], s)
unfolding escape
control_escape c s h =
    let whole : (c / 16) * 16 + c % 16 ≡ c = omega arith in
    rw (hex4-hex_digit (c / 16) (c % 16) s (omega (arith, h)) (omega arith))
      (rw whole (code_point_small c s h))

-- The printer writes a backslash and `letter` for `c`, and the parser reads `c` back.
abbrev Short : ℕ → ℕ → Type 0
Short c letter =
    (s : Text) → (escape_char c ≡ b'\\' ∷ letter ∷ []) × (escape (letter ∷ s) ≡ ok (c ∷ [], s))

letter_read :
    (f c letter : ℕ) (s : Text)
    → Short c letter
    → string_loop (suc f) (escape_char c ++ s) ≡ prepend (c ∷ []) (string_loop f s)
unfolding string_loop
letter_read f c letter s h = rw ((h s).0) (rw ((h s).1) refl)

long_escape :
    (f c : ℕ) (s : Text)
    → c < 32
    → escape_char c ≡ b'\\' ∷ b'u' ∷ b'0' ∷ b'0' ∷ hex_digit (c / 16) ∷ hex_digit (c % 16) ∷ []
    → string_loop (suc f) (escape_char c ++ s) ≡ prepend (c ∷ []) (string_loop f s)
unfolding string_loop
long_escape f c s h shape = rw shape (rw (control_escape c s h) refl)

no_escape :
    (f c : ℕ) (s : Text)
    → (c == b'"') ≡ false
    → (c == b'\\') ≡ false
    → ltb c 32 ≡ false
    → escape_char c ≡ c ∷ []
    → string_loop (suc f) (escape_char c ++ s) ≡ prepend (c ∷ []) (string_loop f s)
unfolding string_loop
no_escape f c s quote backslash control shape = rw shape (rw (quote, control, backslash) refl)

abbrev specials : List ℕ
specials = b'"' ∷ b'\\' ∷ 8 ∷ 12 ∷ 10 ∷ 13 ∷ 9 ∷ []

abbrev letter_of : ℕ → ℕ
letter_of c =
    if c == 8
    then b'b'
    else if c == 12
    then b'f'
    else if c == 10
    then b'n'
    else if c == 13
    then b'r'
    else if c == 9
    then b't'
    else c

-- Which of the three forms the printer uses.
escape_char-cases :
    (c : ℕ)
    → ((letter : ℕ) × Short c letter)
      ⊎ ((c < 32)
          × (escape_char c
              ≡ b'\\' ∷ b'u' ∷ b'0' ∷ b'0' ∷ hex_digit (c / 16) ∷ hex_digit (c % 16) ∷ []))
      ⊎ (((c == b'"') ≡ false)
          × ((c == b'\\') ≡ false)
          × (ltb c 32 ≡ false)
          × (escape_char c ≡ c ∷ []))
unfolding escape_char escape
escape_char-cases c = elim (Bool-cases (contains c specials)) [
  | inl special ↦ inl (letter_of c, λ s. (ground (arith, special), ground (arith, special)))
  | inr other ↦ elim (Bool-cases (ltb c 32)) [
    | inl control ↦ inr (inl (ground (arith, control), ground (arith, control, other)))
    | inr visible ↦ inr (
        inr (ground (arith, other), ground (arith, other), visible, ground (arith, other, visible)))
  ]
]

-- One printed character is read in one round.
string_loop-escape_char :
    (f c : ℕ) (s : Text)
    → string_loop (suc f) (escape_char c ++ s) ≡ prepend (c ∷ []) (string_loop f s)
string_loop-escape_char f c s = elim (escape_char-cases c) [
  | inl (letter, h) ↦ letter_read f c letter s h
  | inr (inl (h, shape)) ↦ long_escape f c s h shape
  | inr (inr (quote, backslash, control, shape)) ↦ no_escape f c s quote backslash control shape
]

pub string_loop-escape_chars :
    (f : ℕ) (s rest : Text)
    → length s < f
    → string_loop f (escape_chars s ++ b'"' ∷ rest) ≡ ok (s, rest)
unfolding escape_chars
string_loop-escape_chars zero s rest h = absurd (omega (arith, h))
string_loop-escape_chars (suc f) [] rest h = unfold string_loop in refl
string_loop-escape_chars (suc f) (c ∷ s) rest h =
    rw append_assoc
      (rw string_loop-escape_char (rw (string_loop-escape_chars f s rest (omega (arith, h))) refl))

length-escape_char : (c : ℕ) → 1 ≤ length (escape_char c)
unfolding escape_char
length-escape_char c = ground arith

length-escape_chars : (s : Text) → length s ≤ length (escape_chars s)
unfolding escape_chars
length-escape_chars [] = omega arith
length-escape_chars (c ∷ s) = omega (
  arith,
  length-append (escape_char c) (escape_chars s),
  length-escape_char c,
  length-escape_chars s,
)

-- Behind its opening quote, a printed string is read to its end.
pub parse_string-escape_chars :
    (s rest : Text) → parse_string (escape_chars s ++ b'"' ∷ rest) ≡ ok (s, rest)
unfolding parse_string
parse_string-escape_chars s rest =
    string_loop-escape_chars (suc (length (escape_chars s ++ b'"' ∷ rest))) s rest
      (omega (arith, length-append (escape_chars s) (b'"' ∷ rest), length-escape_chars s))
