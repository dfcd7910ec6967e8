-- ===== src/Util/Texts.antt =====
-- Round trips of the text helpers of src/core/util.cpp.
use distributed_job_engine.Prelude.{
  ℕ, zero, suc, ◌+◌, ◌-◌, ◌*◌, ◌/◌, ◌%◌, ◌≤◌, ◌<◌, ◌≡◌, refl, ap, ◌∙◌, Bool, true, false, List, [],
  ◌∷◌, ◌++◌, none, some, ltb, ◌==◌, is_nil, ℤ, pos, negsuc, Text, All, arith, Bool-cases, inl, inr,
}
use distributed_job_engine.Util.{
  digits, num, trim_left, trim_right, trim, put_first, split, int64_max, parse_digits, signed,
  parse_magnitude, parse_trimmed, parse_int,
}

-- The pieces with the delimiter between them.
unfoldable pub join : ℕ → List Text → Text
join delim [] = []
join delim (w ∷ []) = w
join delim (w ∷ v ∷ ws) = w ++ delim ∷ join delim (v ∷ ws)

join-put_first : (delim c : ℕ) (ws : List Text) → join delim (put_first c ws) ≡ c ∷ join delim ws
unfolding join
join-put_first delim c [] = refl
join-put_first delim c (w ∷ []) = refl
join-put_first delim c (w ∷ v ∷ ws) = refl

split_shape : (delim : ℕ) (s : Text) → (w : Text) × (ws : List Text) × (split delim s ≡ w ∷ ws)
unfolding split
split_shape delim [] = ([], [], refl)
split_shape delim (c ∷ s) = elim (Bool-cases (c == delim)) [
  | inl at ↦ ([], split delim s, ground (arith, at))
  | inr away ↦ let (w, ws, h) = split_shape delim s in (c ∷ w, ws, ground (arith, away, h))
]

join-cons_empty :
    (delim : ℕ) (s : Text) → join delim ([] ∷ split delim s) ≡ delim ∷ join delim (split delim s)
join-cons_empty delim s = let (w, ws, h) = split_shape delim s in rw h (unfold join in refl)

-- Joining the pieces of `split` with the delimiter gives the text again.
pub join-split : (delim : ℕ) (s : Text) → join delim (split delim s) ≡ s
unfolding split
join-split delim [] = unfold join in refl
join-split delim (c ∷ s) =
    ground
      (arith, join-split delim s, join-put_first delim c (split delim s), join-cons_empty delim s)

abbrev pub IsDigit : ℕ → Type 0
IsDigit c = (b'0' ≤ c) × (c ≤ b'9')

parse_digits-append :
    (v c : ℕ) (s : Text)
    → parse_digits v (s ++ c ∷ [])
      ≡ elim (parse_digits v s) [ none ↦ none | some u ↦ parse_digits u (c ∷ []) ]
unfolding parse_digits
parse_digits-append v c [] = refl
parse_digits-append v c (x ∷ s) = ground (arith, parse_digits-append (v * 10 + (x - b'0')) c s)

parse_digits-last :
    (v r : ℕ)
    → r < 10
    → v * 10 + r ≤ int64_max
    → parse_digits v ((b'0' + r) ∷ []) ≡ some (v * 10 + r)
unfolding parse_digits
parse_digits-last v r h small = ground (arith, h, small)

parse_digits-digits :
    (fuel n : ℕ) → n < fuel → n ≤ int64_max → parse_digits 0 (digits fuel n) ≡ some n
unfolding digits
parse_digits-digits zero n h small = absurd (omega (arith, h))
parse_digits-digits (suc fuel) n h small = elim (Bool-cases (ltb n 10)) [
  | inl short ↦ rw short (unfold parse_digits in ground (arith, short))
  | inr long ↦ rw long (
      rw parse_digits-append (
        rw (parse_digits-digits fuel (n / 10) (ground arith) (ground arith))
          (parse_digits-last (n / 10) (n % 10) (ground arith) (ground arith) ∙ ground arith)))
]

All-append : (P : ℕ → Type 0) (s t : Text) → All P s → All P t → All P (s ++ t)
All-append P [] t h k = k
All-append P (c ∷ s) t h k = (h.0, All-append P s t h.1 k)

pub digits-All : (fuel n : ℕ) → All IsDigit (digits fuel n)
unfolding digits
digits-All zero n = tt
digits-All (suc fuel) n = elim (Bool-cases (ltb n 10)) [
  | inl short ↦ rw short ((omega arith, ground (arith, short)), tt)
  | inr long ↦ rw long (
      All-append IsDigit (digits fuel (n / 10)) ((b'0' + n % 10) ∷ []) (digits-All fuel (n / 10))
        ((omega arith, omega arith), tt))
]

is_nil-append : (s : Text) (c : ℕ) → is_nil (s ++ c ∷ []) ≡ false
is_nil-append [] c = refl
is_nil-append (x ∷ s) c = refl

pub digits_not_nil : (fuel n : ℕ) → is_nil (digits (suc fuel) n) ≡ false
unfolding digits
digits_not_nil fuel n = elim (Bool-cases (ltb n 10)) [
  | inl short ↦ rw short refl
  | inr long ↦ rw long (is_nil-append (digits fuel (n / 10)) (b'0' + n % 10))
]

trim_right-digits : (s : Text) → All IsDigit s → trim_right s ≡ s
unfolding trim_right
trim_right-digits [] h = refl
trim_right-digits (c ∷ s) h = ground (arith, trim_right-digits s h.1, h.0)

trim_left-digits : (s : Text) → All IsDigit s → trim_left s ≡ s
unfolding trim_left
trim_left-digits [] h = refl
trim_left-digits (c ∷ s) h = ground (arith, h.0)

trim-digits : (s : Text) → All IsDigit s → trim s ≡ s
unfolding trim
trim-digits s h = ap trim_right (trim_left-digits s h) ∙ trim_right-digits s h

trim-minus : (s : Text) → All IsDigit s → trim (b'-' ∷ s) ≡ b'-' ∷ s
unfolding trim trim_left trim_right
trim-minus s h = ground (arith, trim_right-digits s h)

parse_magnitude-some :
    (neg : Bool) (n : ℕ) (s : Text)
    → is_nil s ≡ false
    → parse_digits 0 s ≡ some n
    → parse_magnitude neg s ≡ some (signed neg n)
parse_magnitude-some neg n [] full h = absurd (ground (arith, full))
parse_magnitude-some neg n (c ∷ s) full h = rw (h, parse_magnitude) refl

parse_trimmed-digits :
    (s : Text) → All IsDigit s → is_nil s ≡ false → parse_trimmed s ≡ parse_magnitude false s
parse_trimmed-digits [] h full = absurd (ground (arith, full))
parse_trimmed-digits (c ∷ s) h full = ground (arith, h.0)

-- The absolute value.
abbrev pub magnitude : ℤ → ℕ
magnitude (pos n) = n
magnitude (negsuc n) = suc n

-- What `num` prints, `parse_int` reads again, for every integer whose absolute value is at most
-- INT64_MAX.
pub parse_int-num : (v : ℤ) → magnitude v ≤ int64_max → parse_int (num v) ≡ some v
unfolding num parse_int
parse_int-num (pos n) small =
    let ds = digits (suc n) n in
    let all = digits-All (suc n) n in
    ap parse_trimmed (trim-digits ds all)
    ∙ parse_trimmed-digits ds all (digits_not_nil n n)
    ∙ parse_magnitude-some false n ds (digits_not_nil n n)
        (parse_digits-digits (suc n) n (omega arith) small)
parse_int-num (negsuc n) small =
    let ds = digits (suc (suc n)) (suc n) in
    ap parse_trimmed (trim-minus ds (digits-All (suc (suc n)) (suc n)))
    ∙ parse_magnitude-some true (suc n) ds (digits_not_nil (suc n) (suc n))
        (parse_digits-digits (suc (suc n)) (suc n) (omega arith) small)
