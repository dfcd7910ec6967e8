-- ===== src/Api/Tokens.antt =====
-- How a lease token travels: `u64_to_string` and `string_to_u64` of src/api/api.cpp.
use distributed_job_engine.Prelude.{
  ℕ, zero, suc, ◌+◌, ◌-◌, ◌*◌, ◌/◌, ◌%◌, ◌≤◌, ◌<◌, ◌≡◌, refl, ◌∙◌, inl, inr, [], ◌∷◌, ◌++◌, ltb,
  Text, All, arith, Bool-cases, min,
}
use distributed_job_engine.Util.{digits, num}
use distributed_job_engine.Util.Texts.{IsDigit, digits-All}
use distributed_job_engine.Api.Workers.{
  leading, signed_digits, skip_blanks, string_to_u64, u64_to_string, u64_max,
}

leading-append :
    (v c : ℕ) (s : Text) → All IsDigit s → leading v (s ++ c ∷ []) ≡ leading (leading v s) (c ∷ [])
unfolding leading
leading-append v c [] h = refl
leading-append v c (x ∷ s) h = ground (arith, leading-append (v * 10 + (x - b'0')) c s h.1, h.0)

leading-digits : (fuel n : ℕ) → n < fuel → leading 0 (digits fuel n) ≡ n
unfolding digits
leading-digits zero n h = absurd (omega (arith, h))
leading-digits (suc fuel) n h = elim (Bool-cases (ltb n 10)) [
  | inl short ↦ rw short (unfold leading in ground (arith, short))
  | inr long ↦ rw long (
      rw (leading-append 0 (b'0' + n % 10) (digits fuel (n / 10)) (digits-All fuel (n / 10)))
        (rw (leading-digits fuel (n / 10) (ground arith)) (unfold leading in ground arith)))
]

signed_digits-IsDigit :
    (s : Text) → All IsDigit s → signed_digits (skip_blanks s) ≡ min u64_max (leading 0 s)
unfolding skip_blanks signed_digits leading
signed_digits-IsDigit [] h = omega arith
signed_digits-IsDigit (c ∷ s) h = ground (arith, h.0)

-- A lease token is read back as it was, if it has at most 64 bits.
pub token_round_trip : (t : ℕ) → t ≤ u64_max → string_to_u64 (u64_to_string t) ≡ t
unfolding string_to_u64 num
token_round_trip t h =
    let read = leading-digits (suc t) t (omega arith) in
    signed_digits-IsDigit (digits (suc t) t) (digits-All (suc t) t) ∙ omega (arith, read, h)
