-- ===== src/Json/Total.antt =====
-- The fuel of the parser of src/core/json.cpp is enough for every input.
use distributed_job_engine.Prelude.{
  ℕ, zero, suc, ◌+◌, ◌-◌, ◌*◌, ◌≤◌, ◌<◌, ◌≡◌, ◌≢◌, refl, true, false, [], ◌∷◌, ltb, ◌==◌,
  if◌then◌else◌, Text, text, is_nil, length, arith,
}
use distributed_job_engine.Json.{
  Json, Items, Fields, null, boolean, nil, end, set_field, append_item,
}
use distributed_job_engine.Json.Result.{Result, ok, err, out_of_fuel, ◌>>=◌, trailing_content}
use distributed_job_engine.Json.Printer.{DoubleText}
use distributed_job_engine.Json.Scanner.{skip_ws, starts, rest_of, parse_string}
use distributed_job_engine.Json.Parser.{
  max_depth, parse_key, parse_value, parse_fields, parse_items, parse,
}
use distributed_job_engine.Json.Arrays.{after_item}
use distributed_job_engine.Json.Objects.{after_field}
use distributed_job_engine.Json.Leaves.{
  Leaves, Leaves-bind, Leaves-mono, Leaves-if, length-skip_ws, length-rest_of, literal-Leaves,
  parse_string-Leaves, number-Leaves,
}

-- A key takes at least its opening quote.
parse_key-Leaves : (s : Text) → Leaves (length s - 1) (parse_key s)
unfolding parse_key
parse_key-Leaves s =
    let n = length s - 1 in
    let s1 = skip_ws s in
    Leaves-if n (starts b'"' s1) _ _
      (λ _.
        Leaves-bind n n (parse_string (rest_of s1)) _
          (Leaves-mono (length (rest_of s1)) n (parse_string (rest_of s1))
            (omega (arith, length-skip_ws s, length-rest_of s1)) (parse_string-Leaves (rest_of s1)))
          (λ key s2 h.
            Leaves-if n (starts b':' (skip_ws s2)) _ _
              (λ _. omega (
                arith,
                h,
                length-skip_ws s2,
                length-rest_of (skip_ws s2),
                length-skip_ws (rest_of (skip_ws s2)),
              ))
              (λ _. tt)))
      (λ _. tt)

behind_start : (c : ℕ) (s : Text) → starts c s ≡ true → suc (length (rest_of s)) ≡ length s
behind_start c [] h = absurd (ground (arith, h))
behind_start c (x ∷ s) h = refl

module _ (t : DoubleText) where
  -- With fuel `f`, values, and the loops of objects and arrays.
  abbrev Enough : ℕ → Type 0
  Enough f =
      ((depth : ℕ) (s : Text) → 2 * length s < f → Leaves (length s - 1) (parse_value f t depth s))
      × ((depth : ℕ) (fs : Fields) (s : Text)
          → 2 * length s + 1 < f
          → Leaves (length s) (parse_fields f t depth fs s))
      × ((depth : ℕ) (xs : Items) (s : Text)
          → 2 * length s + 1 < f
          → Leaves (length s) (parse_items f t depth xs s))

  items_tail :
      (f : ℕ)
      → Enough f
      → (depth : ℕ) (xs : Items) (n : ℕ) (s : Text) → 2 * n < suc f
      → length s ≤ n - 1
      → Leaves n (after_item t 0 f depth xs s)
  items_tail f ih depth xs n s h k =
      let s3 = skip_ws s in
      let shorter = length-skip_ws s in
      Leaves-if n (is_nil s3) _ _ (λ _. tt)
        (λ _.
          Leaves-if n (starts b',' s3) _ _
            (λ c.
              Leaves-mono (length (rest_of s3)) n (parse_items f t depth xs (rest_of s3))
                (omega (arith, shorter, k, length-rest_of s3))
                (ih.2 depth xs (rest_of s3) (omega (arith, h, k, shorter, behind_start b',' s3 c))))
            (λ _.
              Leaves-if n (starts b']' s3) _ _ (λ _. omega (arith, shorter, k, length-rest_of s3))
                (λ _. tt)))

  fields_tail :
      (f : ℕ)
      → Enough f
      → (depth : ℕ) (fs : Fields) (n : ℕ) (s : Text) → 2 * n < suc f
      → length s ≤ n - 1
      → Leaves n (after_field t 0 f depth fs s)
  fields_tail f ih depth fs n s h k =
      let s3 = skip_ws s in
      let shorter = length-skip_ws s in
      Leaves-if n (is_nil s3) _ _ (λ _. tt)
        (λ _.
          Leaves-if n (starts b',' s3) _ _
            (λ c.
              Leaves-mono (length (rest_of s3)) n (parse_fields f t depth fs (rest_of s3))
                (omega (arith, shorter, k, length-rest_of s3))
                (ih.1 depth fs (rest_of s3) (omega (arith, h, k, shorter, behind_start b',' s3 c))))
            (λ _.
              Leaves-if n (starts b'}' s3) _ _ (λ _. omega (arith, shorter, k, length-rest_of s3))
                (λ _. tt)))

  fields-Enough :
      (f : ℕ)
      → Enough f
      → (depth : ℕ) (fs : Fields) (s : Text) → 2 * length s + 1 < suc f
      → Leaves (length s) (parse_fields (suc f) t depth fs s)
  unfolding parse_fields
  fields-Enough f ih depth fs s h =
      let n = length s in
      Leaves-bind (n - 1) n (parse_key s) _ (parse_key-Leaves s) (λ key s1 k.
        Leaves-bind (n - 1) n (parse_value f t (suc depth) s1) _
          (Leaves-mono (length s1 - 1) (n - 1) (parse_value f t (suc depth) s1) (omega (arith, k))
            (ih.0 (suc depth) s1 (omega (arith, h, k))))
          (λ v s2 l. fields_tail f ih depth (set_field key v fs) n s2 (omega (arith, h)) l))

  items-Enough :
      (f : ℕ)
      → Enough f
      → (depth : ℕ) (xs : Items) (s : Text) → 2 * length s + 1 < suc f
      → Leaves (length s) (parse_items (suc f) t depth xs s)
  unfolding parse_items
  items-Enough f ih depth xs s h =
      let n = length s in
      let s1 = skip_ws s in
      Leaves-bind (n - 1) n (parse_value f t (suc depth) s1) _
        (Leaves-mono (length s1 - 1) (n - 1) (parse_value f t (suc depth) s1)
          (omega (arith, length-skip_ws s))
          (ih.0 (suc depth) s1 (omega (arith, h, length-skip_ws s))))
        (λ v s2 k. items_tail f ih depth (append_item xs v) n s2 (omega (arith, h)) k)

  value-Enough :
      (f : ℕ)
      → Enough f
      → (depth : ℕ) (s : Text) → 2 * length s < suc f
      → Leaves (length s - 1) (parse_value (suc f) t depth s)
  unfolding parse_value
  value-Enough f ih depth [] h =
      Leaves-if (length {A = ℕ} [] - 1) (ltb max_depth depth) _ _ (λ _. tt) (λ _. tt)
  value-Enough f ih depth (c ∷ s) h =
      let n = length (c ∷ s) - 1 in
      let inside = skip_ws s in
      let short : length inside ≤ n = omega (arith, length-skip_ws s) in
      Leaves-if n (ltb max_depth depth) _ _ (λ _. tt)
        (λ _.
          Leaves-if n (c == b'{') _ _
            (λ _.
              Leaves-if n (starts b'}' inside) _ _
                (λ _. omega (arith, short, length-rest_of inside))
                (λ _.
                  Leaves-bind (length inside) n (parse_fields f t depth end inside) _
                    (ih.1 depth end inside (omega (arith, h, length-skip_ws s)))
                    (λ fs rest k. omega (arith, k, short))))
            (λ _.
              Leaves-if n (c == b'[') _ _
                (λ _.
                  Leaves-if n (starts b']' inside) _ _
                    (λ _. omega (arith, short, length-rest_of inside))
                    (λ _.
                      Leaves-bind (length inside) n (parse_items f t depth nil inside) _
                        (ih.2 depth nil inside (omega (arith, h, length-skip_ws s)))
                        (λ xs rest k. omega (arith, k, short))))
                (λ _.
                  Leaves-if n (c == b'"') _ _
                    (λ _.
                      Leaves-bind (length s) n (parse_string s) _ (parse_string-Leaves s)
                        (λ str rest k. omega (arith, k)))
                    (λ _.
                      Leaves-if n (c == b't') _ _
                        (λ _.
                          literal-Leaves (text "true") (c ∷ s) (boolean true) (unfold text in refl))
                        (λ _.
                          Leaves-if n (c == b'f') _ _
                            (λ _.
                              literal-Leaves (text "false") (c ∷ s) (boolean false)
                                (unfold text in refl))
                            (λ _.
                              Leaves-if n (c == b'n') _ _
                                (λ _.
                                  literal-Leaves (text "null") (c ∷ s) null (unfold text in refl))
                                (λ _. number-Leaves t (c ∷ s))))))))

  enough : (f : ℕ) → Enough f
  enough zero = (
    λ depth s h. absurd (omega (arith, h)),
    λ depth fs s h. absurd (omega (arith, h)),
    λ depth xs s h. absurd (omega (arith, h)),
  )
  enough (suc f) =
      (value-Enough f (enough f), fields-Enough f (enough f), items-Enough f (enough f))

parse_end :
    (r : Result (Json × Text)) (n : ℕ)
    → Leaves n r
    → (r >>= λ (j, rest). (if is_nil (skip_ws rest) then ok j else err trailing_content))
      ≢ out_of_fuel
parse_end (ok (j, rest)) n h e = ground (arith, e)
parse_end (err x) n h e = cc
parse_end out_of_fuel n h e = h

-- The parser stops on every input: the fuel that `parse` gives it is never used up.
pub parse_returns : (t : DoubleText) (s : Text) → parse t s ≢ out_of_fuel
unfolding parse
parse_returns t s =
    let s1 = skip_ws s in
    parse_end (parse_value (suc (2 * length s1)) t 0 s1) (length s1 - 1)
      ((enough t (suc (2 * length s1))).0 0 s1 (omega arith))
