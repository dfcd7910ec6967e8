-- ===== src/Json/Leaves.antt =====
-- How much of the input the scanners of src/core/json.cpp leave.
use distributed_job_engine.Prelude.{
  ℕ, zero, suc, ◌+◌, ◌-◌, ◌*◌, ◌≤◌, ◌<◌, ◌≡◌, refl, Bool, true, false, ◌&&◌, [], ◌∷◌, ltb, leb,
  ◌==◌, if◌then◌else◌, Text, Option, none, some, is_nil, length, arith,
}
use distributed_job_engine.Json.{Json}
use distributed_job_engine.Json.Result.{
  Result, ok, err, out_of_fuel, ◌>>=◌, invalid_literal, invalid_hex, invalid_low_surrogate,
}
use distributed_job_engine.Json.Printer.{DoubleText}
use distributed_job_engine.Json.Scanner.{
  skip_ws, starts, rest_of, lit, literal, hex4, low_surrogate, code_point, escape, string_loop,
  parse_string, prepend, take_digits, starts_digit, starts_e, starts_sign, is_digit, add_hex, utf8,
  integer_part, fraction_part, exponent_part, number_body, number,
}

-- The call does not run out of fuel, and leaves at most `n` characters.
abbrev pub Leaves {ℓ} : {A : Type ℓ} → ℕ → Result (A × Text) → Type 0
Leaves n (ok (a, rest)) = length rest ≤ n
Leaves n (err e) = Unit
Leaves n out_of_fuel = ⊥

pub Leaves-bind {ℓ κ} :
    {A : Type ℓ} {B : Type κ} (m n : ℕ) (r : Result (A × Text)) (f : A × Text → Result (B × Text))
    → Leaves m r
    → ((a : A) (rest : Text) → length rest ≤ m → Leaves n (f (a, rest)))
    → Leaves n (r >>= f)
Leaves-bind m n (ok (a, rest)) f h k = k a rest h
Leaves-bind m n (err e) f h k = tt
Leaves-bind m n out_of_fuel f h k = absurd h

Leaves-prepend :
    (n : ℕ) (bytes : Text) (r : Result (Text × Text)) → Leaves n r → Leaves n (prepend bytes r)
Leaves-prepend n bytes r h = Leaves-bind n n r _ h (λ a rest k. k)

pub length-skip_ws : (s : Text) → length (skip_ws s) ≤ length s
unfolding skip_ws
length-skip_ws [] = omega arith
length-skip_ws (c ∷ s) = ground (arith, length-skip_ws s)

pub length-rest_of : (s : Text) → length (rest_of s) ≤ length s - 1
length-rest_of [] = omega arith
length-rest_of (c ∷ s) = omega arith

pub Leaves-mono {ℓ} :
    {A : Type ℓ} (m n : ℕ) (r : Result (A × Text)) → m ≤ n → Leaves m r → Leaves n r
Leaves-mono m n (ok (a, rest)) h k = omega (arith, h, k)
Leaves-mono m n (err e) h k = tt
Leaves-mono m n out_of_fuel h k = absurd k

pub Leaves-if {ℓ} :
    {A : Type ℓ} (n : ℕ) (b : Bool) (x y : Result (A × Text))
    → (b ≡ true → Leaves n x)
    → (b ≡ false → Leaves n y)
    → Leaves n (if b then x else y)
Leaves-if n true x y h k = h refl
Leaves-if n false x y h k = k refl

lit-rest : (word s rest : Text) → lit word s ≡ some rest → length rest + length word ≤ length s
unfolding lit
lit-rest [] s rest h = ground (arith, h)
lit-rest (l ∷ ls) [] rest h = absurd (ground (arith, h))
lit-rest (l ∷ ls) (c ∷ s) rest h = ground (arith, lit-rest ls s rest, h)

literal_value :
    (o : Option Text) (j : Json) (n : ℕ)
    → ((rest : Text) → o ≡ some rest → length rest ≤ n)
    → Leaves n (elim o as (λ x. Result (Json × Text)) [
      | none ↦ err invalid_literal
      | some rest ↦ ok (j, rest)
    ])
literal_value none j n h = tt
literal_value (some rest) j n h = h rest refl

-- A literal takes at least its first character.
pub literal-Leaves :
    (word s : Text) (j : Json) → is_nil word ≡ false → Leaves (length s - 1) (literal word j s)
literal-Leaves [] s j h = absurd (ground (arith, h))
literal-Leaves (l ∷ ls) s j h =
    literal_value (lit (l ∷ ls) s) j (length s - 1)
      (λ rest found. omega (arith, lit-rest (l ∷ ls) s rest found))

hex4_value :
    (v : Option ℕ) (s : Text) (n : ℕ)
    → length s ≤ n
    → Leaves n (elim v as (λ o. Result (ℕ × Text)) [ none ↦ err invalid_hex | some x ↦ ok (x, s) ])
hex4_value none s n h = tt
hex4_value (some x) s n h = h

hex4-Leaves : (s : Text) → Leaves (length s) (hex4 s)
unfolding hex4
hex4-Leaves [] = tt
hex4-Leaves (a ∷ []) = tt
hex4-Leaves (a ∷ b ∷ []) = tt
hex4-Leaves (a ∷ b ∷ c ∷ []) = tt
hex4-Leaves (a ∷ b ∷ c ∷ d ∷ s) =
    hex4_value (add_hex (add_hex (add_hex (add_hex (some 0) a) b) c) d) s
      (suc (suc (suc (suc (length s))))) (omega arith)

low_surrogate-Leaves : (cp : ℕ) (s : Text) → Leaves (length s) (low_surrogate cp s)
unfolding low_surrogate
low_surrogate-Leaves cp s =
    Leaves-if (length s) (starts b'\\' s && starts b'u' (rest_of s)) _ _
      (λ _.
        Leaves-bind (length s) (length s) (hex4 (rest_of (rest_of s)))
          (λ (x : ℕ × Text).
            if leb 56320 x.0 && leb x.0 57343
            then ok (utf8 (65536 + (cp - 55296) * 1024 + (x.0 - 56320)), x.1)
            else err invalid_low_surrogate)
          (Leaves-mono (length (rest_of (rest_of s))) (length s) (hex4 (rest_of (rest_of s)))
            (omega (arith, length-rest_of s, length-rest_of (rest_of s)))
            (hex4-Leaves (rest_of (rest_of s))))
          (λ lo rest h. Leaves-if (length s) (leb 56320 lo && leb lo 57343) _ _ (λ _. h) (λ _. tt)))
      (λ _. tt)

code_point-Leaves : (cp : ℕ) (s : Text) → Leaves (length s) (code_point cp s)
unfolding code_point
code_point-Leaves cp s =
    Leaves-if (length s) (leb 55296 cp && leb cp 56319) _ _ (λ _. low_surrogate-Leaves cp s)
      (λ _. Leaves-if (length s) (leb 56320 cp && leb cp 57343) _ _ (λ _. tt) (λ _. omega arith))

escape-Leaves : (s : Text) → Leaves (length s) (escape s)
unfolding escape
escape-Leaves [] = tt
escape-Leaves (e ∷ s) =
    let n : ℕ = suc (length s) in
    Leaves-if n (e == b'"') _ _ (λ _. omega arith)
      (λ _.
        Leaves-if n (e == b'\\') _ _ (λ _. omega arith)
          (λ _.
            Leaves-if n (e == b'/') _ _ (λ _. omega arith)
              (λ _.
                Leaves-if n (e == b'b') _ _ (λ _. omega arith)
                  (λ _.
                    Leaves-if n (e == b'f') _ _ (λ _. omega arith)
                      (λ _.
                        Leaves-if n (e == b'n') _ _ (λ _. omega arith)
                          (λ _.
                            Leaves-if n (e == b'r') _ _ (λ _. omega arith)
                              (λ _.
                                Leaves-if n (e == b't') _ _ (λ _. omega arith)
                                  (λ _.
                                    Leaves-if n (e == b'u') _ _
                                      (λ _.
                                        Leaves-bind (length s) n (hex4 s)
                                          (λ (x : ℕ × Text). code_point x.0 x.1) (hex4-Leaves s)
                                          (λ cp rest h.
                                            Leaves-mono (length rest) n (code_point cp rest)
                                              (omega (arith, h)) (code_point-Leaves cp rest)))
                                      (λ _. tt)))))))))

string_loop-Leaves : (f : ℕ) (s : Text) → length s < f → Leaves (length s) (string_loop f s)
unfolding string_loop
string_loop-Leaves zero s h = absurd (omega (arith, h))
string_loop-Leaves (suc f) [] h = tt
string_loop-Leaves (suc f) (c ∷ s) h =
    let n : ℕ = suc (length s) in
    Leaves-if n (c == b'"') _ _ (λ _. omega arith)
      (λ _.
        Leaves-if n (ltb c 32) _ _ (λ _. tt)
          (λ _.
            Leaves-if n (c == b'\\') _ _
              (λ _.
                Leaves-bind (length s) n (escape s)
                  (λ (x : Text × Text). prepend x.0 (string_loop f x.1)) (escape-Leaves s)
                  (λ bytes rest k. Leaves-prepend n bytes (string_loop f rest) (
                    Leaves-mono (length rest) n (string_loop f rest) (omega (arith, k))
                      (string_loop-Leaves f rest (omega (arith, h, k))))))
              (λ _. Leaves-prepend n (c ∷ []) (string_loop f s) (
                Leaves-mono (length s) n (string_loop f s) (omega arith)
                  (string_loop-Leaves f s (omega (arith, h)))))))

pub parse_string-Leaves : (s : Text) → Leaves (length s) (parse_string s)
unfolding parse_string
parse_string-Leaves s = string_loop-Leaves (suc (length s)) s (omega arith)

take_digits-rest : (s : Text) → length (take_digits s).1 ≤ length s
unfolding take_digits
take_digits-rest [] = omega arith
take_digits-rest (c ∷ s) = ground (arith, take_digits-rest s)

-- The digits of a number are at least one.
integer_part-Leaves : (s : Text) → Leaves (length s - 1) (integer_part s)
unfolding integer_part take_digits
integer_part-Leaves [] = tt
integer_part-Leaves (c ∷ s) =
    Leaves-mono (length s) (length (c ∷ s) - 1) (integer_part (c ∷ s)) (omega arith) (
      Leaves-if (length s) (is_digit c) _ _
        (λ d.
          Leaves-if (length s) (c == b'0') _ _ (λ _. omega arith) (λ _. rw d (take_digits-rest s)))
        (λ _. tt))

fraction_part-Leaves : (s : Text) → Leaves (length s) (fraction_part s)
unfolding fraction_part
fraction_part-Leaves s =
    Leaves-if (length s) (starts b'.' s) _ _
      (λ _.
        Leaves-if (length s) (starts_digit (rest_of s)) _ _
          (λ _. omega (arith, take_digits-rest (rest_of s), length-rest_of s)) (λ _. tt))
      (λ _. omega arith)

exponent_part-Leaves : (s : Text) → Leaves (length s) (exponent_part s)
unfolding exponent_part
exponent_part-Leaves s =
    let behind = if starts_sign (rest_of s) then rest_of (rest_of s) else rest_of s in
    Leaves-if (length s) (starts_e s) _ _
      (λ _.
        Leaves-if (length s) (starts_digit behind) _ _
          (λ _.
            ground (arith, take_digits-rest behind, length-rest_of s, length-rest_of (rest_of s)))
          (λ _. tt))
      (λ _. omega arith)

number_body-Leaves :
    (t : DoubleText) (neg : Bool) (s : Text) → Leaves (length s - 1) (number_body t neg s)
unfolding number_body
number_body-Leaves t neg s =
    Leaves-bind (length s - 1) (length s - 1) (integer_part s) _ (integer_part-Leaves s) (λ ds s1 h.
      Leaves-bind (length s1) (length s - 1) (fraction_part s1) _ (fraction_part-Leaves s1)
        (λ fraction s2 k.
          Leaves-bind (length s2) (length s - 1) (exponent_part s2) _ (exponent_part-Leaves s2)
            (λ exponent s3 l. omega (arith, h, k, l))))

pub number-Leaves : (t : DoubleText) (s : Text) → Leaves (length s - 1) (number t s)
unfolding number
number-Leaves t s =
    let body = if starts b'-' s then rest_of s else s in
    Leaves-mono (length body - 1) (length s - 1) (number_body t (starts b'-' s) body)
      (ground (arith, length-rest_of s)) (number_body-Leaves t (starts b'-' s) body)
