-- ===== src/Json/Result.antt =====
-- What the parser of src/core/json.cpp answers. An error is one of its messages; the offset that the
-- code appends to the message is left out.

pub data Error : Type 0 where
  trailing_content : Error
  too_deep : Error
  unexpected_end : Error
  invalid_literal : Error
  expected_key : Error
  expected_colon : Error
  unterminated_object : Error
  expected_object_separator : Error
  unterminated_array : Error
  expected_array_separator : Error
  truncated_unicode : Error
  invalid_hex : Error
  unterminated_string : Error
  control_character : Error
  unterminated_escape : Error
  invalid_low_surrogate : Error
  unpaired_high_surrogate : Error
  unpaired_low_surrogate : Error
  invalid_escape : Error
  invalid_number : Error
  expected_fraction : Error
  expected_exponent : Error

pub data Result {ℓ} (A : Type ℓ) : Type ℓ where
  ok : A → Result A
  err : Error → Result A
  out_of_fuel : Result A

module _ {ℓ κ} {A : Type ℓ} {B : Type κ} where
  infixl 1 ◌>>=◌
  abbrev pub ◌>>=◌ : Result A → (A → Result B) → Result B
  ok a >>= f = f a
  err e >>= f = err e
  out_of_fuel >>= f = out_of_fuel
