-- ===== src/Json/Numbers.antt =====
-- An integer that `dump_into` of src/core/json.cpp printed is read back by `number`.
use distributed_job_engine.Prelude.{
  ℕ, zero, suc, ◌+◌, ◌-◌, ◌*◌, ◌/◌, ◌%◌, ◌≤◌, ◌<◌, ◌≡◌, refl, ap, ◌∙◌, Bool, true, false, not, ◌&&◌,
  [], ◌∷◌, ◌++◌, ltb, ◌==◌, if◌then◌else◌, Text, some, is_nil, All, ℤ, pos, negsuc, arith,
  Bool-cases, inl, inr, ◌⊎◌,
}
use distributed_job_engine.Util.{digits, num, int64_max}
use distributed_job_engine.Util.Texts.{IsDigit, digits-All, digits_not_nil}
use distributed_job_engine.Json.{int}
use distributed_job_engine.Json.Result.{ok}
use distributed_job_engine.Json.Printer.{DoubleText}
use distributed_job_engine.Json.Scanner.{
  skip_ws, starts, rest_of, take_digits, starts_digit, starts_e, integer_part, fraction_part,
  exponent_part, decimal, strtoll, number_value, number_body, number,
}

-- What follows a number does not go on with it.
abbrev pub ends : Text → Bool
ends s = not (starts_digit s) && not (starts b'.' s) && not (starts_e s)

-- The integers of `int64_t`.
abbrev pub IsInt64 : ℤ → Type 0
IsInt64 (pos n) = n ≤ int64_max
IsInt64 (negsuc n) = n ≤ int64_max

take_digits_lem :
    (ds rest : Text)
    → All IsDigit ds
    → starts_digit rest ≡ false
    → take_digits (ds ++ rest) ≡ (ds, rest)
unfolding take_digits
take_digits_lem [] [] h stop = refl
take_digits_lem [] (c ∷ rest) h stop = rw stop refl
take_digits_lem (d ∷ ds) rest h stop = ground (arith, take_digits_lem ds rest h.1 stop, h.0)

decimal-append : (v c : ℕ) (ds : Text) → decimal v (ds ++ c ∷ []) ≡ decimal v ds * 10 + (c - b'0')
unfolding decimal
decimal-append v c [] = refl
decimal-append v c (d ∷ ds) = decimal-append (v * 10 + (d - b'0')) c ds

decimal-digits : (fuel n : ℕ) → n < fuel → decimal 0 (digits fuel n) ≡ n
unfolding digits
decimal-digits zero n h = absurd (omega (arith, h))
decimal-digits (suc fuel) n h = elim (Bool-cases (ltb n 10)) [
  | inl short ↦ rw short (unfold decimal in omega arith)
  | inr long ↦ rw long (
      rw decimal-append (rw (decimal-digits fuel (n / 10) (ground (arith, long, h))) (omega arith)))
]

starts-append : (c x : ℕ) (s : Text) → is_nil s ≡ false → starts c (s ++ x ∷ []) ≡ starts c s
starts-append c x [] h = absurd (ground (arith, h))
starts-append c x (d ∷ s) h = refl

-- Only zero is printed with a leading zero.
starts-digits : (fuel n : ℕ) → n < fuel → starts b'0' (digits fuel n) ≡ (n == 0)
unfolding digits
starts-digits zero n h = absurd (omega (arith, h))
starts-digits (suc zero) n h = ground (arith, h)
starts-digits (suc (suc fuel)) n h = elim (Bool-cases (ltb n 10)) [
  | inl short ↦ rw short (ground arith)
  | inr long ↦ rw long (
      starts-append b'0' (b'0' + n % 10) (digits (suc fuel) (n / 10)) (digits_not_nil fuel (n / 10))
      ∙ starts-digits (suc fuel) (n / 10) (ground (arith, long, h))
      ∙ ground (arith, long))
]

digits_zero : (fuel : ℕ) → digits (suc fuel) 0 ≡ b'0' ∷ []
unfolding digits
digits_zero fuel = refl

starts_digit_lem :
    (s rest : Text) → All IsDigit s → is_nil s ≡ false → starts_digit (s ++ rest) ≡ true
starts_digit_lem [] rest h full = absurd (ground (arith, full))
starts_digit_lem (c ∷ s) rest h full = ground (arith, h.0)

starts-append_rest : (c : ℕ) (s rest : Text) → is_nil s ≡ false → starts c (s ++ rest) ≡ starts c s
starts-append_rest c [] rest h = absurd (ground (arith, h))
starts-append_rest c (d ∷ s) rest h = refl

suc_not_zero : (n : ℕ) → (suc n == 0) ≡ false
suc_not_zero n = ground arith

integer_part-digits :
    (n : ℕ) (rest : Text)
    → starts_digit rest ≡ false
    → integer_part (digits (suc n) n ++ rest) ≡ ok (digits (suc n) n, rest)
unfolding integer_part
integer_part-digits zero rest stop = rw (digits_zero 0) refl
integer_part-digits (suc n) rest stop =
    let ds = digits (suc (suc n)) (suc n) in
    let all = digits-All (suc (suc n)) (suc n) in
    let full = digits_not_nil (suc n) (suc n) in
    rw (starts_digit_lem ds rest all full) (
      rw
        (starts-append_rest b'0' ds rest full
          ∙ starts-digits (suc (suc n)) (suc n) (omega arith)
          ∙ suc_not_zero n)
        (ap ok (take_digits_lem ds rest all stop)))

no_fraction : (s : Text) → ends s ≡ true → fraction_part s ≡ ok ([], s)
unfolding fraction_part
no_fraction s h = ground (arith, h)

no_exponent : (s : Text) → ends s ≡ true → exponent_part s ≡ ok ([], s)
unfolding exponent_part
no_exponent s h = ground (arith, h)

number_body_steps :
    (t : DoubleText) (neg : Bool) (s ds rest : Text)
    → integer_part s ≡ ok (ds, rest)
    → ends rest ≡ true
    → number_body t neg s ≡ ok (number_value t neg ds [] [], rest)
unfolding number_body
number_body_steps t neg s ds rest read stop =
    rw read (rw (no_fraction rest stop) (rw (no_exponent rest stop) refl))

number_steps :
    (t : DoubleText) (neg : Bool) (s ds rest : Text)
    → starts b'-' s ≡ neg
    → integer_part (if neg then rest_of s else s) ≡ ok (ds, rest)
    → ends rest ≡ true
    → number t s ≡ ok (number_value t neg ds [] [], rest)
unfolding number
number_steps t neg s ds rest sign read stop =
    ap (λ (b : Bool). number_body t b (if b then rest_of s else s)) sign
    ∙ number_body_steps t neg (if neg then rest_of s else s) ds rest read stop

no_sign : (ds rest : Text) → All IsDigit ds → is_nil ds ≡ false → starts b'-' (ds ++ rest) ≡ false
no_sign [] rest h full = absurd (ground (arith, full))
no_sign (d ∷ ds) rest h full = ground (arith, h.0)

ends-stop : (rest : Text) → ends rest ≡ true → starts_digit rest ≡ false
ends-stop rest h = ground (arith, h)

strtoll-pos : (n : ℕ) → n ≤ int64_max → strtoll false (digits (suc n) n) ≡ some (pos n)
unfolding strtoll
strtoll-pos n h = rw (decimal-digits (suc n) n (omega arith)) (ground (arith, h))

strtoll-neg :
    (n : ℕ) → n ≤ int64_max → strtoll true (digits (suc (suc n)) (suc n)) ≡ some (negsuc n)
unfolding strtoll
strtoll-neg n h = rw (decimal-digits (suc (suc n)) (suc n) (omega arith)) (ground (arith, h))

number_value-int :
    (t : DoubleText) (neg : Bool) (ds : Text) (i : ℤ)
    → strtoll neg ds ≡ some i
    → number_value t neg ds [] [] ≡ int i
unfolding number_value
number_value-int t neg ds i h = rw h refl

num-pos : (n : ℕ) → num (pos n) ≡ digits (suc n) n
unfolding num
num-pos n = refl

num-negsuc : (n : ℕ) → num (negsuc n) ≡ b'-' ∷ digits (suc (suc n)) (suc n)
unfolding num
num-negsuc n = refl

-- A printed integer starts with a character that only `number` takes.
abbrev pub NumberStart : ℕ → Type 0
NumberStart c = (c ≡ b'-') ⊎ IsDigit c

digits_shape :
    {whole : Text} (ds : Text)
    → All IsDigit ds
    → is_nil ds ≡ false
    → whole ≡ ds
    → (c : ℕ) × (s : Text) × (whole ≡ c ∷ s) × NumberStart c
digits_shape [] h full e = absurd (ground (arith, full))
digits_shape (d ∷ ds) h full e = (d, ds, e, inr h.0)

pub num-shape : (i : ℤ) → (c : ℕ) × (s : Text) × (num i ≡ c ∷ s) × NumberStart c
num-shape (pos n) =
    digits_shape (digits (suc n) n) (digits-All (suc n) n) (digits_not_nil n n) (num-pos n)
num-shape (negsuc n) = (b'-', digits (suc (suc n)) (suc n), num-negsuc n, inl refl)

digits-starts :
    (ds rest : Text)
    → All IsDigit ds
    → is_nil ds ≡ false
    → (skip_ws (ds ++ rest) ≡ ds ++ rest) × (starts b']' (ds ++ rest) ≡ false)
unfolding skip_ws
digits-starts [] rest h full = absurd (ground (arith, full))
digits-starts (d ∷ ds) rest h full = (ground (arith, h.0), ground (arith, h.0))

-- `number` reads a printed integer of `int64_t` where the input goes on with something else.
pub number-num :
    (t : DoubleText) (i : ℤ) (rest : Text)
    → IsInt64 i
    → ends rest ≡ true
    → number t (num i ++ rest) ≡ ok (int i, rest)
number-num t (pos n) rest h stop =
    let ds = digits (suc n) n in
    rw (num-pos n) (
      number_steps t false (ds ++ rest) ds rest
        (no_sign ds rest (digits-All (suc n) n) (digits_not_nil n n))
        (integer_part-digits n rest (ends-stop rest stop)) stop
      ∙ ap (λ j. ok (j, rest)) (number_value-int t false ds (pos n) (strtoll-pos n h)))
number-num t (negsuc n) rest h stop =
    let ds = digits (suc (suc n)) (suc n) in
    rw (num-negsuc n) (
      number_steps t true (b'-' ∷ (ds ++ rest)) ds rest refl
        (integer_part-digits (suc n) rest (ends-stop rest stop)) stop
      ∙ ap (λ j. ok (j, rest)) (number_value-int t true ds (negsuc n) (strtoll-neg n h)))

-- A printed integer starts with a digit or a sign.
pub num-starts :
    (i : ℤ) (rest : Text)
    → (skip_ws (num i ++ rest) ≡ num i ++ rest) × (starts b']' (num i ++ rest) ≡ false)
num-starts (pos n) rest =
    rw (num-pos n)
      (digits-starts (digits (suc n) n) rest (digits-All (suc n) n) (digits_not_nil n n))
num-starts (negsuc n) rest = rw (num-negsuc n) (unfold skip_ws in (refl, refl))
