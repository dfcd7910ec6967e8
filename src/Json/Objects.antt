-- ===== src/Json/Objects.antt =====
-- The parser of src/core/json.cpp on printed objects.
use distributed_job_engine.Prelude.{
  ℕ, zero, suc, ◌+◌, ◌*◌, ◌<◌, ◌≡◌, refl, ap, ◌∙◌, true, false, ◌∷◌, ◌++◌, ltb, if◌then◌else◌, Text,
  is_nil, length, length-append, arith, Bool-cases, inl, inr,
}
use mathlib.Core.List.{append_assoc}
use distributed_job_engine.Json.{Json, Fields, object, end, field, set_field}
use distributed_job_engine.Json.Result.{
  Result, ok, err, unterminated_object, expected_object_separator,
}
use distributed_job_engine.Json.Printer.{
  DoubleText, escape_into, newline_indent, colon, dump_into, dump_fields,
}
use distributed_job_engine.Json.Scanner.{skip_ws, starts, rest_of}
use distributed_job_engine.Json.Parser.{parse_key, parse_value, parse_fields}
use distributed_job_engine.Json.Strings.{
  skip_ws-newline_indent, skip_ws-skip_ws, parse_string-escape_chars,
}
use distributed_job_engine.Json.Numbers.{ends}
use distributed_job_engine.Json.Plain.{
  PlainFields, append_fields, set_field-append_fields, append_fields-end, regroup_field,
}
use distributed_job_engine.Json.Arrays.{ReadsValue, dump_into-starts, fits}

module _ (t : DoubleText) (indent : ℕ) where
  -- The rest of the loop of `object`, behind a value.
  abbrev pub after_field : ℕ → ℕ → Fields → Text → Result (Fields × Text)
  after_field f depth fs s =
      let s3 = skip_ws s in
      if is_nil s3
      then err unterminated_object
      else if starts b',' s3
      then parse_fields f t depth fs (rest_of s3)
      else if starts b'}' s3
      then ok (fs, rest_of s3)
      else err expected_object_separator

  abbrev pub ReadsFields : Fields → Type 0
  ReadsFields fs =
      (depth : ℕ) (prior : Fields) (rest : Text) (f : ℕ)
      → PlainFields depth prior fs
      → 2 * length (dump_fields t indent depth false fs) < suc f
      → after_field f depth prior (dump_fields t indent depth false fs ++ rest)
        ≡ ok (append_fields prior fs, rest)

  ends-dump_fields :
      (depth : ℕ) (fs : Fields) (rest : Text)
      → ends (dump_fields t indent depth false fs ++ rest) ≡ true
  unfolding dump_fields newline_indent
  ends-dump_fields depth end rest = elim (Bool-cases (ltb 0 indent)) [
    | inl pretty ↦ rw pretty refl
    | inr compact ↦ rw compact refl
  ]
  ends-dump_fields depth (field k v fs) rest = refl

  parse_key_lem :
      (space k s : Text)
      → ((r : Text) → skip_ws (space ++ r) ≡ skip_ws r)
      → skip_ws s ≡ s
      → parse_key (space ++ (escape_into k ++ (colon indent ++ s))) ≡ ok (k, s)
  unfolding parse_key
  parse_key_lem space k s blank value = rw (blank (escape_into k ++ (colon indent ++ s))) (
      unfold escape_into skip_ws in
      (rw append_assoc (
        rw (parse_string-escape_chars k (colon indent ++ s)) (elim (Bool-cases (ltb 0 indent)) [
          | inl pretty ↦ rw pretty (ap (λ (r : Text). ok (k, r)) value)
          | inr compact ↦ rw compact (ap (λ (r : Text). ok (k, r)) value)
        ]))))

  -- The loop of `object` at a field, with white space before it.
  fields_step :
      (k : Text) (v : Json) (fs : Fields)
      → ReadsValue t indent v
      → ReadsFields fs
      → (depth : ℕ) (prior : Fields) (space rest : Text) (f : ℕ)
      → ((s : Text) → skip_ws (space ++ s) ≡ skip_ws s)
      → PlainFields depth prior (field k v fs)
      → 2
            * (length (dump_into t indent (suc depth) v)
                + length (dump_fields t indent depth false fs))
          + 1
        < f
      → parse_fields f t depth prior (
          space
          ++ (escape_into k
              ++ (colon indent
                  ++ (dump_into t indent (suc depth) v
                      ++ (dump_fields t indent depth false fs ++ rest)))))
        ≡ ok (append_fields prior (field k v fs), rest)
  unfolding parse_fields
  fields_step k v fs ih ihs depth prior space rest zero blank h enough =
      absurd (omega (arith, enough))
  fields_step k v fs ih ihs depth prior space rest (suc f) blank h enough =
      let behind = dump_fields t indent depth false fs ++ rest in
      rw
        (parse_key_lem space k (dump_into t indent (suc depth) v ++ behind) blank
          ((dump_into-starts t indent (suc depth) v behind h.1).0))
        (rw (ih (suc depth) behind f h.1 (ends-dump_fields depth fs rest) (omega (arith, enough))) (
          ihs depth (set_field k v prior) rest f h.2 (omega (arith, enough))
          ∙ ap (λ (gs : Fields). ok (gs, rest)) (set_field-append_fields prior k v fs h.0)))

  pub fields_end : ReadsFields end
  unfolding dump_fields skip_ws
  fields_end depth prior rest f h enough =
      rw append_assoc (rw skip_ws-newline_indent (rw append_fields-end refl))

  pub fields_field :
      (k : Text) (v : Json) (fs : Fields)
      → ReadsValue t indent v
      → ReadsFields fs
      → ReadsFields (field k v fs)
  unfolding dump_fields skip_ws
  fields_field k v fs ih ihs depth prior rest f h enough =
      let gap = newline_indent indent (suc depth) in
      let key = escape_into k in
      let value = dump_into t indent (suc depth) v in
      let others = dump_fields t indent depth false fs in
      ap (λ (w : Text). after_field f depth prior (b',' ∷ w))
        (regroup_field gap key (colon indent) value others rest)
      ∙ fields_step k v fs ih ihs depth prior gap rest f (skip_ws-newline_indent indent (suc depth))
          h
          (omega (
            arith,
            enough,
            length-append gap (key ++ (colon indent ++ (value ++ others))),
            length-append key (colon indent ++ (value ++ others)),
            length-append (colon indent) (value ++ others),
            length-append value others,
          ))

  parse_fields-skip_ws :
      (f depth : ℕ) (prior : Fields) (s : Text)
      → parse_fields f t depth prior (skip_ws s) ≡ parse_fields f t depth prior s
  unfolding parse_fields parse_key
  parse_fields-skip_ws zero depth prior s = refl
  parse_fields-skip_ws (suc f) depth prior s = rw skip_ws-skip_ws refl

  dump_fields-starts :
      (depth : ℕ) (k : Text) (v : Json) (fs : Fields) (rest : Text)
      → starts b'}' (skip_ws (dump_fields t indent depth true (field k v fs) ++ rest)) ≡ false
  unfolding dump_fields
  dump_fields-starts depth k v fs rest =
      rw
        (regroup_field (newline_indent indent (suc depth)) (escape_into k) (colon indent)
          (dump_into t indent (suc depth) v) (dump_fields t indent depth false fs) rest)
        (rw skip_ws-newline_indent (unfold skip_ws escape_into in refl))

  parse_fields-first :
      (f depth : ℕ) (k : Text) (v : Json) (fs : Fields) (rest : Text)
      → parse_fields f t depth end (dump_fields t indent depth true (field k v fs) ++ rest)
        ≡ after_field f depth end (dump_fields t indent depth false (field k v fs) ++ rest)
  unfolding dump_fields skip_ws
  parse_fields-first f depth k v fs rest = refl

  pub value_object : (fs : Fields) → ReadsFields fs → ReadsValue t indent (object fs)
  unfolding dump_into parse_value
  value_object fs ihs depth rest zero h stop enough = absurd (omega (arith, enough))
  value_object end ihs depth rest (suc f) h stop enough =
      rw (fits t indent depth h.0) (unfold skip_ws in refl)
  value_object (field k v fs) ihs depth rest (suc f) h stop enough = rw (fits t indent depth h.0) (
      rw (dump_fields-starts depth k v fs rest) (
        rw parse_fields-skip_ws (
          rw (parse_fields-first f depth k v fs rest) (rw (ihs depth end rest f h.1 enough) refl))))
