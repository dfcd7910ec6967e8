-- ===== src/Json/Arrays.antt =====
-- The parser of src/core/json.cpp on printed scalars and arrays.
use distributed_job_engine.Prelude.{
  ℕ, zero, suc, ◌+◌, ◌*◌, ◌≤◌, ◌<◌, ◌≡◌, refl, ap, sym, ◌∙◌, Bool, true, false, ◌∷◌, ◌++◌, ltb,
  if◌then◌else◌, Text, text, is_nil, length, length-append, arith, Bool-cases, inl, inr, ℤ,
}
use mathlib.Core.List.{append_assoc}
use distributed_job_engine.Json.{
  Json, Items, null, boolean, int, double, string, array, object, nil, cons, end, field,
  append_item,
}
use distributed_job_engine.Json.Result.{
  Result, ok, err, unterminated_array, expected_array_separator,
}
use distributed_job_engine.Json.Printer.{
  DoubleText, escape_into, newline_indent, dump_into, dump_items,
}
use distributed_job_engine.Json.Scanner.{skip_ws, starts, rest_of, lit, number}
use distributed_job_engine.Json.Parser.{max_depth, parse_value, parse_items}
use distributed_job_engine.Json.Strings.{
  skip_ws-newline_indent, skip_ws-skip_ws, parse_string-escape_chars,
}
use distributed_job_engine.Json.Numbers.{ends, number-num, num-starts, num-shape, NumberStart}
use distributed_job_engine.Json.Plain.{
  Plain, PlainItems, append_items, append_item-append_items, append_items-nil, regroup,
}

module _ (t : DoubleText) (indent : ℕ) where
  -- What is read of `printed` with enough fuel, whatever follows that does not go on with it.
  abbrev pub ReadsValue : Json → Type 0
  ReadsValue v =
      (depth : ℕ) (rest : Text) (f : ℕ)
      → Plain depth v
      → ends rest ≡ true
      → 2 * length (dump_into t indent depth v) < f
      → parse_value f t depth (dump_into t indent depth v ++ rest) ≡ ok (v, rest)

  -- The rest of the loop of `array`, behind an item.
  abbrev pub after_item : ℕ → ℕ → Items → Text → Result (Items × Text)
  after_item f depth xs s =
      let s3 = skip_ws s in
      if is_nil s3
      then err unterminated_array
      else if starts b',' s3
      then parse_items f t depth xs (rest_of s3)
      else if starts b']' s3
      then ok (xs, rest_of s3)
      else err expected_array_separator

  abbrev pub ReadsItems : Items → Type 0
  ReadsItems xs =
      (depth : ℕ) (prior : Items) (rest : Text) (f : ℕ)
      → PlainItems depth xs
      → 2 * length (dump_items t indent depth false xs) < suc f
      → after_item f depth prior (dump_items t indent depth false xs ++ rest)
        ≡ ok (append_items prior xs, rest)

  ends-dump_items :
      (depth : ℕ) (xs : Items) (rest : Text)
      → ends (dump_items t indent depth false xs ++ rest) ≡ true
  unfolding dump_items newline_indent
  ends-dump_items depth nil rest = elim (Bool-cases (ltb 0 indent)) [
    | inl pretty ↦ rw pretty refl
    | inr compact ↦ rw compact refl
  ]
  ends-dump_items depth (cons x xs) rest = refl

  -- A printed value starts with none of the characters that the loops look for.
  pub dump_into-starts :
      (depth : ℕ) (v : Json) (rest : Text)
      → Plain depth v
      → (skip_ws (dump_into t indent depth v ++ rest) ≡ dump_into t indent depth v ++ rest)
        × (starts b']' (dump_into t indent depth v ++ rest) ≡ false)
  unfolding dump_into skip_ws escape_into text
  dump_into-starts depth null rest h = (refl, refl)
  dump_into-starts depth (boolean true) rest h = (refl, refl)
  dump_into-starts depth (boolean false) rest h = (refl, refl)
  dump_into-starts depth (int i) rest h = num-starts i rest
  dump_into-starts depth (double d) rest h = absurd h
  dump_into-starts depth (string s) rest h = (refl, refl)
  dump_into-starts depth (array nil) rest h = (refl, refl)
  dump_into-starts depth (array (cons x xs)) rest h = (refl, refl)
  dump_into-starts depth (object end) rest h = (refl, refl)
  dump_into-starts depth (object (field k v fs)) rest h = (refl, refl)

  -- The loop of `array` at an item, with white space before it.
  items_step :
      (x : Json) (xs : Items)
      → ReadsValue x
      → ReadsItems xs
      → (depth : ℕ) (prior : Items) (space rest : Text) (f : ℕ)
      → ((s : Text) → skip_ws (space ++ s) ≡ skip_ws s)
      → Plain (suc depth) x
      → PlainItems depth xs
      → 2
            * (length (dump_into t indent (suc depth) x)
                + length (dump_items t indent depth false xs))
          + 1
        < f
      → parse_items f t depth prior (
          space
          ++ (dump_into t indent (suc depth) x ++ (dump_items t indent depth false xs ++ rest)))
        ≡ ok (append_items prior (cons x xs), rest)
  unfolding parse_items
  items_step x xs ih ihs depth prior space rest zero blank h hs enough =
      absurd (omega (arith, enough))
  items_step x xs ih ihs depth prior space rest (suc f) blank h hs enough =
      rw (blank (dump_into t indent (suc depth) x ++ (dump_items t indent depth false xs ++ rest)))
        (rw ((dump_into-starts (suc depth) x (dump_items t indent depth false xs ++ rest) h).0) (
          rw
            (ih (suc depth) (dump_items t indent depth false xs ++ rest) f h
              (ends-dump_items depth xs rest) (omega (arith, enough)))
            (ihs depth (append_item prior x) rest f hs (omega (arith, enough))
              ∙ ap (λ ys. ok (ys, rest)) (append_item-append_items prior x xs))))

  pub fits : (depth : ℕ) → depth ≤ max_depth → ltb max_depth depth ≡ false
  fits depth h = ground (arith, h)

  pub value_string : (s : Text) → ReadsValue (string s)
  unfolding dump_into escape_into parse_value
  value_string s depth rest zero h stop enough = absurd (omega (arith, enough))
  value_string s depth rest (suc f) h stop enough =
      rw (fits depth h) (rw append_assoc (rw (parse_string-escape_chars s rest) refl))

  parse_value-number :
      (f depth c : ℕ) (s : Text)
      → depth ≤ max_depth
      → NumberStart c
      → parse_value (suc f) t depth (c ∷ s) ≡ number t (c ∷ s)
  unfolding parse_value
  parse_value-number f depth c s h start = ground (arith, h, start)

  pub value_int : (i : ℤ) → ReadsValue (int i)
  unfolding dump_into
  value_int i depth rest zero h stop enough = absurd (omega (arith, enough))
  value_int i depth rest (suc f) h stop enough =
      let (c, s, shape, start) = num-shape i in
      ap (λ (w : Text). parse_value (suc f) t depth (w ++ rest)) shape
      ∙ parse_value-number f depth c (s ++ rest) h.0 start
      ∙ ap (λ (w : Text). number t (w ++ rest)) (sym shape)
      ∙ number-num t i rest h.1 stop

  pub value_null : ReadsValue null
  unfolding dump_into parse_value text lit
  value_null depth rest zero h stop enough = absurd (omega (arith, enough))
  value_null depth rest (suc f) h stop enough = rw (fits depth h) refl

  pub value_boolean : (b : Bool) → ReadsValue (boolean b)
  unfolding dump_into parse_value text lit
  value_boolean b depth rest zero h stop enough = absurd (omega (arith, enough))
  value_boolean true depth rest (suc f) h stop enough = rw (fits depth h) refl
  value_boolean false depth rest (suc f) h stop enough = rw (fits depth h) refl

  pub items_nil : ReadsItems nil
  unfolding dump_items skip_ws
  items_nil depth prior rest f h enough =
      rw append_assoc (rw skip_ws-newline_indent (rw append_items-nil refl))

  pub items_cons : (x : Json) (xs : Items) → ReadsValue x → ReadsItems xs → ReadsItems (cons x xs)
  unfolding dump_items skip_ws
  items_cons x xs ih ihs depth prior rest f h enough =
      let gap = newline_indent indent (suc depth) in
      let value = dump_into t indent (suc depth) x in
      let others = dump_items t indent depth false xs in
      ap (λ (w : Text). after_item f depth prior (b',' ∷ w)) (regroup gap value others rest)
      ∙ items_step x xs ih ihs depth prior gap rest f (skip_ws-newline_indent indent (suc depth))
          h.0 h.1
          (omega (arith, enough, length-append gap (value ++ others), length-append value others))

  parse_items-skip_ws :
      (f depth : ℕ) (prior : Items) (s : Text)
      → parse_items f t depth prior (skip_ws s) ≡ parse_items f t depth prior s
  unfolding parse_items
  parse_items-skip_ws zero depth prior s = refl
  parse_items-skip_ws (suc f) depth prior s = rw skip_ws-skip_ws refl

  -- Behind the opening bracket there is an item, and no closing bracket.
  dump_items-starts :
      (depth : ℕ) (x : Json) (xs : Items) (rest : Text)
      → Plain (suc depth) x
      → starts b']' (skip_ws (dump_items t indent depth true (cons x xs) ++ rest)) ≡ false
  unfolding dump_items
  dump_items-starts depth x xs rest h =
      let gap = newline_indent indent (suc depth) in
      let value = dump_into t indent (suc depth) x in
      let others = dump_items t indent depth false xs in
      rw (regroup gap value others rest) (
        rw skip_ws-newline_indent (
          ap (starts b']') ((dump_into-starts (suc depth) x (others ++ rest) h).0)
          ∙ (dump_into-starts (suc depth) x (others ++ rest) h).1))

  -- The loop on the first item is what it is behind a comma.
  parse_items-first :
      (f depth : ℕ) (x : Json) (xs : Items) (rest : Text)
      → parse_items f t depth nil (dump_items t indent depth true (cons x xs) ++ rest)
        ≡ after_item f depth nil (dump_items t indent depth false (cons x xs) ++ rest)
  unfolding dump_items skip_ws
  parse_items-first f depth x xs rest = refl

  pub value_array : (xs : Items) → ReadsItems xs → ReadsValue (array xs)
  unfolding dump_into parse_value
  value_array xs ihs depth rest zero h stop enough = absurd (omega (arith, enough))
  value_array nil ihs depth rest (suc f) h stop enough =
      rw (fits depth h.0) (unfold skip_ws in refl)
  value_array (cons x xs) ihs depth rest (suc f) h stop enough = rw (fits depth h.0) (
      rw (dump_items-starts depth x xs rest h.1.0) (
        rw parse_items-skip_ws
          (rw (parse_items-first f depth x xs rest) (rw (ihs depth nil rest f h.1 enough) refl))))
