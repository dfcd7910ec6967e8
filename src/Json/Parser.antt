-- ===== src/Json/Parser.antt =====
-- `Parser` of src/core/json.cpp: values, objects and arrays.
use distributed_job_engine.Prelude.{
  ℕ, zero, suc, ◌*◌, true, false, [], ◌∷◌, ltb, ◌==◌, if◌then◌else◌, Text, text, length, is_nil,
}
use distributed_job_engine.Json.{
  Json, Items, Fields, null, boolean, string, array, object, nil, end, set_field, append_item,
}
use distributed_job_engine.Json.Result.{
  Result, ok, err, out_of_fuel, ◌>>=◌, trailing_content, too_deep, unexpected_end, expected_key,
  expected_colon, unterminated_object, expected_object_separator, unterminated_array,
  expected_array_separator,
}
use distributed_job_engine.Json.Printer.{DoubleText}
use distributed_job_engine.Json.Scanner.{
  skip_ws, starts, rest_of, lit, literal, parse_string, number,
}

abbrev pub max_depth : ℕ
max_depth = 64

-- The key of a field and the colon behind it.
unfoldable pub parse_key : Text → Result (Text × Text)
unfolding skip_ws parse_string
parse_key s =
    let s1 = skip_ws s in
    if starts b'"' s1
    then (parse_string (rest_of s1) >>= λ (key, s2).
        (let s3 = skip_ws s2 in
          if starts b':' s3 then ok (key, skip_ws (rest_of s3)) else err expected_colon))
    else err expected_key

unfoldable mutual
  unfolding parse_key number lit skip_ws parse_string append_item set_field text

  pub parse_value : ℕ → DoubleText → ℕ → Text → Result (Json × Text)
  parse_value zero t depth s = out_of_fuel
  parse_value (suc f) t depth [] = if ltb max_depth depth then err too_deep else err unexpected_end
  parse_value (suc f) t depth (c ∷ s) =
      let inside = skip_ws s in
      let fields = parse_fields f t depth end inside >>= λ (fs, rest). ok (object fs, rest) in
      let items = parse_items f t depth nil inside >>= λ (xs, rest). ok (array xs, rest) in
      if ltb max_depth depth
      then err too_deep
      else if c == b'{'
      then (if starts b'}' inside then ok (object end, rest_of inside) else fields)
      else if c == b'['
      then (if starts b']' inside then ok (array nil, rest_of inside) else items)
      else if c == b'"'
      then (parse_string s >>= λ (str, rest). ok (string str, rest))
      else if c == b't'
      then literal (text "true") (boolean true) (c ∷ s)
      else if c == b'f'
      then literal (text "false") (boolean false) (c ∷ s)
      else if c == b'n'
      then literal (text "null") null (c ∷ s)
      else number t (c ∷ s)

  -- The loop of `object`, with the fields so far.
  pub parse_fields : ℕ → DoubleText → ℕ → Fields → Text → Result (Fields × Text)
  parse_fields zero t depth fs s = out_of_fuel
  parse_fields (suc f) t depth fs s = parse_key s >>= λ (key, s1).
      parse_value f t (suc depth) s1 >>= λ (v, s2).
      (let fs' = set_field key v fs in
        let s3 = skip_ws s2 in
        let more = parse_fields f t depth fs' (rest_of s3) in
        if is_nil s3
        then err unterminated_object
        else if starts b',' s3
        then more
        else if starts b'}' s3
        then ok (fs', rest_of s3)
        else err expected_object_separator)

  -- The loop of `array`, with the items so far.
  pub parse_items : ℕ → DoubleText → ℕ → Items → Text → Result (Items × Text)
  parse_items zero t depth xs s = out_of_fuel
  parse_items (suc f) t depth xs s = parse_value f t (suc depth) (skip_ws s) >>= λ (v, s2).
      (let xs' = append_item xs v in
        let s3 = skip_ws s2 in
        let more = parse_items f t depth xs' (rest_of s3) in
        if is_nil s3
        then err unterminated_array
        else if starts b',' s3
        then more
        else if starts b']' s3
        then ok (xs', rest_of s3)
        else err expected_array_separator)

unfoldable pub parse : DoubleText → Text → Result Json
unfolding parse_value skip_ws
parse t s =
    let s1 = skip_ws s in
    parse_value (suc (2 * length s1)) t 0 s1 >>= λ (j, rest).
    (if is_nil (skip_ws rest) then ok j else err trailing_content)

abbrev pub or_null : Result Json → Json
or_null (ok j) = j
or_null _ = null

unfoldable pub parse_or_null : DoubleText → Text → Json
unfolding parse
parse_or_null t s = or_null (parse t s)
