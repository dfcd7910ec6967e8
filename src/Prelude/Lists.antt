-- ===== src/Prelude/Lists.antt =====
-- Lists measured by native numbers, finite sets of numbers as lists, and predicates by recursion.
use Prim.Native.Nat.{ℕ, zero, suc, ◌+◌}
use mathlib.Core.Path.{◌≡◌}
use mathlib.Core.Bool.{Bool, true, false, ◌||◌}
use mathlib.Core.List.{List, [], ◌∷◌, ◌++◌}
use mathlib.Core.Option.{Option, none, some}
use native.Mathlib.Omega.{arith}
use distributed_job_engine.Prelude.Tests.{◌==◌, if◌then◌else◌}

module _ {ℓ} {A : Type ℓ} where
  abbrev pub length : List A → ℕ
  length [] = 0
  length (x ∷ xs) = suc (length xs)

  abbrev pub get_elem? : List A → ℕ → Option A
  get_elem? [] i = none
  get_elem? (x ∷ xs) zero = some x
  get_elem? (x ∷ xs) (suc i) = get_elem? xs i

  abbrev pub is_nil : List A → Bool
  is_nil [] = true
  is_nil (x ∷ xs) = false

  pub length-append : (xs ys : List A) → length (xs ++ ys) ≡ length xs + length ys
  length-append [] ys = omega arith
  length-append (x ∷ xs) ys = omega (arith, length-append xs ys)

module _ {ℓ κ} {A : Type ℓ} where
  -- `P` holds of every element.
  abbrev pub All : (A → Type κ) → List A → Type κ
  All P [] = Unit
  All P (x ∷ xs) = P x × All P xs

-- A set of numbers: `count(x) > 0` and `erase(x)`.
abbrev pub contains : ℕ → List ℕ → Bool
contains t [] = false
contains t (s ∷ ss) = (t == s) || contains t ss

abbrev pub discard : ℕ → List ℕ → List ℕ
discard t [] = []
discard t (s ∷ ss) = let rest = discard t ss in if t == s then rest else s ∷ rest

pub contains-discard :
    (t s : ℕ) (ss : List ℕ) → contains t (discard s ss) ≡ (if s == t then false else contains t ss)
contains-discard t s [] = ground arith
contains-discard t s (x ∷ ss) = ground (arith, contains-discard t s ss)
