-- ===== src/Http/Names.antt =====
-- A header line `name: value` is read as its name and its value.
use distributed_job_engine.Prelude.{
  ℕ, ◌≡◌, refl, ap, ◌∙◌, Bool, true, false, not, ◌&&◌, some, [], ◌∷◌, ◌++◌, All, ltb, ◌==◌, is_nil,
  Text, arith,
}
use distributed_job_engine.Util.{trim, trim_left, trim_right}
use distributed_job_engine.Http.{Pairs, cut}
use distributed_job_engine.Http.Head.{good, add_header}
use distributed_job_engine.Http.Lines.{
  Visible, trim_right-append, trim_right-Visible, trim_cr, trim_line,
}

abbrev pub IsName : ℕ → Type 0
IsName x = Visible x × ((x == b':') ≡ false)

-- The same, as a test.
abbrev pub is_name : Text → Bool
is_name [] = true
is_name (x ∷ xs) = ltb 32 x && not (x == b':') && is_name xs

pub is_name-All : (xs : Text) → is_name xs ≡ true → All IsName xs
is_name-All [] h = tt
is_name-All (x ∷ xs) h =
    ((ground (arith, h), ground (arith, h)), is_name-All xs (ground (arith, h)))

cut-name : (name s : Text) → All IsName name → cut b':' (name ++ b':' ∷ s) ≡ some (name, s)
unfolding cut
cut-name [] s h = refl
cut-name (x ∷ name) s h = rw (h.0.1) (rw (cut-name name s h.1) refl)

pub IsName-Visible : (xs : Text) → All IsName xs → All Visible xs
IsName-Visible [] h = tt
IsName-Visible (x ∷ xs) h = (h.0.0, IsName-Visible xs h.1)

trim-Visible : (w : Text) → All Visible w → trim w ≡ w
unfolding trim trim_left
trim-Visible [] h = unfold trim_right in refl
trim-Visible (x ∷ w) h =
    let left : trim_left (x ∷ w) ≡ x ∷ w = ground (arith, h.0) in
    ap trim_right left ∙ trim_right-Visible (x ∷ w) h

-- A line with its name and value.
abbrev pub line_of : Text → Text → Text
line_of name value = name ++ b':' ∷ 32 ∷ value

trim_right-line :
    (name value : Text)
    → All Visible value
    → is_nil value ≡ false
    → trim_right (line_of name value) ≡ line_of name value
trim_right-line name value h full =
    let end = trim_right-append (b':' ∷ 32 ∷ []) value (trim_right-Visible value h) full in
    trim_right-append name (b':' ∷ 32 ∷ value) end refl

add_header-line_of :
    (name value : Text) (headers : Pairs)
    → All IsName name
    → is_nil name ≡ false
    → All Visible value
    → add_header (line_of name value) headers ≡ good (headers ++ (name, value) ∷ [])
unfolding add_header
add_header-line_of [] value headers h named v = absurd (ground (arith, named))
add_header-line_of (x ∷ name) value headers h named v =
    let parts = cut-name (x ∷ name) (32 ∷ value) h in
    let name' = trim-Visible (x ∷ name) (IsName-Visible (x ∷ name) h) in
    let value' : trim (32 ∷ value) ≡ value = unfold trim trim_left in trim-Visible value v in
    rw (parts, add_header) (rw name' (rw value' refl))

-- With the carriage return that `split` leaves, and without it.
pub add_header-cr :
    (name value : Text) (headers : Pairs)
    → All IsName name
    → is_nil name ≡ false
    → All Visible value
    → is_nil value ≡ false
    → add_header (trim (line_of name value ++ 13 ∷ [])) headers
      ≡ good (headers ++ (name, value) ∷ [])
add_header-cr [] value headers h named v full = absurd (ground (arith, named))
add_header-cr (x ∷ name) value headers h named v full =
    ap (λ l. add_header l headers)
      (trim_cr x (name ++ b':' ∷ 32 ∷ value) h.0.0 (trim_right-line (x ∷ name) value v full))
    ∙ add_header-line_of (x ∷ name) value headers h named v

pub add_header-last :
    (name value : Text) (headers : Pairs)
    → All IsName name
    → is_nil name ≡ false
    → All Visible value
    → is_nil value ≡ false
    → add_header (trim (line_of name value)) headers ≡ good (headers ++ (name, value) ∷ [])
add_header-last [] value headers h named v full = absurd (ground (arith, named))
add_header-last (x ∷ name) value headers h named v full =
    ap (λ l. add_header l headers)
      (trim_line x (name ++ b':' ∷ 32 ∷ value) h.0.0 (trim_right-line (x ∷ name) value v full))
    ∙ add_header-line_of (x ∷ name) value headers h named v
