-- ===== src/Json/RoundTrip.antt =====
-- What `dump` and `dump_pretty` of src/core/json.cpp print, the parser reads back.
use distributed_job_engine.Prelude.{ℕ, suc, ◌*◌, ◌≡◌, refl, subst, [], ◌++◌, Text, length, arith}
use mathlib.Core.List.{append-nil}
use distributed_job_engine.Json.{
  Json, null, boolean, int, double, string, array, object, nil, cons, end, field,
}
use distributed_job_engine.Json.Result.{ok}
use distributed_job_engine.Json.Printer.{DoubleText, dump_into, dump, dump_pretty}
use distributed_job_engine.Json.Scanner.{skip_ws}
use distributed_job_engine.Json.Parser.{parse_value, parse}
use distributed_job_engine.Json.Plain.{Plain}
use distributed_job_engine.Json.Arrays.{
  ReadsValue, ReadsItems, dump_into-starts, value_string, value_int, value_null, value_boolean,
  items_nil, items_cons, value_array,
}
use distributed_job_engine.Json.Objects.{ReadsFields, fields_end, fields_field, value_object}

module _ (t : DoubleText) (indent : ℕ) where
  pub value_reads : (v : Json) → ReadsValue t indent v
  value_reads v = elim v as (ReadsValue t indent) (ReadsItems t indent) (ReadsFields t indent) [
    | null ↦ value_null t indent
    | boolean b ↦ value_boolean t indent b
    | int i ↦ value_int t indent i
    | double d ↦ λ depth rest f h stop enough. absurd h
    | string s ↦ value_string t indent s
    | array (xs → ih) ↦ value_array t indent xs ih
    | object (fs → ih) ↦ value_object t indent fs ih
    | nil ↦ items_nil t indent
    | cons (x → ih) (xs → ihs) ↦ items_cons t indent x xs ih ihs
    | end ↦ fields_end t indent
    | field k (v → ih) (fs → ihs) ↦ fields_field t indent k v fs ih ihs
  ]

parse-dump_pretty :
    (t : DoubleText) (indent : ℕ) (j : Json) → Plain 0 j → parse t (dump_pretty t indent j) ≡ ok j
unfolding parse dump_pretty
parse-dump_pretty t indent j h =
    let d = dump_into t indent 0 j in
    let bare : d ++ [] ≡ d = append-nil d in
    let start : skip_ws d ≡ d =
      subst (λ (s : Text). skip_ws s ≡ s) bare ((dump_into-starts t indent 0 j [] h).0) in
    let read : parse_value (suc (2 * length d)) t 0 d ≡ ok (j, []) =
      subst (λ (s : Text). parse_value (suc (2 * length d)) t 0 s ≡ ok (j, [])) bare
        (value_reads t indent j 0 [] (suc (2 * length d)) h refl (omega arith)) in
    rw start (rw read (unfold skip_ws in refl))

-- What is printed of a plain value is read back as that value, whether in one line by `dump` or in
-- lines with any indentation by `dump_pretty`.
pub parse-dump :
    (t : DoubleText) (indent : ℕ) (j : Json)
    → Plain 0 j
    → (parse t (dump t j) ≡ ok j) × (parse t (dump_pretty t indent j) ≡ ok j)
parse-dump t indent j h =
    (unfold dump dump_pretty in parse-dump_pretty t 0 j h, parse-dump_pretty t indent j h)
