-- ===== src/Json/Printer.antt =====
-- `escape_into` and `dump_into` of src/core/json.cpp.
use distributed_job_engine.Prelude.{
  ℕ, zero, suc, ◌+◌, ◌-◌, ◌*◌, ◌/◌, ◌%◌, Bool, true, false, [], ◌∷◌, ◌++◌, ltb, ◌==◌, if◌then◌else◌,
  Text, text,
}
use distributed_job_engine.Util.{num}
use distributed_job_engine.Json.{
  Json, Items, Fields, null, boolean, int, double, string, array, object, nil, cons, end, field,
}

-- What the printer and the parser use of `double`: `isfinite`, `%.17g` and `strtod`.
pub record DoubleText : Type 0 where
  pub is_finite : ℕ → Bool
  pub format : ℕ → Text
  pub strtod : Text → ℕ

abbrev pub hex_digit : ℕ → ℕ
hex_digit n = if ltb n 10 then b'0' + n else b'a' + (n - 10)

-- One character of a string, between the quotes.
unfoldable pub escape_char : ℕ → Text
escape_char c =
    if c == b'"'
    then b'\\' ∷ b'"' ∷ []
    else if c == b'\\'
    then b'\\' ∷ b'\\' ∷ []
    else if c == 8
    then b'\\' ∷ b'b' ∷ []
    else if c == 12
    then b'\\' ∷ b'f' ∷ []
    else if c == 10
    then b'\\' ∷ b'n' ∷ []
    else if c == 13
    then b'\\' ∷ b'r' ∷ []
    else if c == 9
    then b'\\' ∷ b't' ∷ []
    else if ltb c 32
    then b'\\' ∷ b'u' ∷ b'0' ∷ b'0' ∷ hex_digit (c / 16) ∷ hex_digit (c % 16) ∷ []
    else c ∷ []

unfoldable pub escape_chars : Text → Text
unfolding escape_char
escape_chars [] = []
escape_chars (c ∷ s) = escape_char c ++ escape_chars s

unfoldable pub escape_into : Text → Text
unfolding escape_chars
escape_into s = b'"' ∷ (escape_chars s ++ b'"' ∷ [])

unfoldable pub spaces : ℕ → Text
spaces zero = []
spaces (suc n) = 32 ∷ spaces n

-- A line break and the indentation, in the pretty form.
unfoldable pub newline_indent : ℕ → ℕ → Text
unfolding spaces
newline_indent indent depth = if ltb 0 indent then 10 ∷ spaces (indent * depth) else []

abbrev pub colon : ℕ → Text
colon indent = if ltb 0 indent then b':' ∷ 32 ∷ [] else b':' ∷ []

abbrev pub comma : Bool → Text
comma first = if first then [] else b',' ∷ []

unfoldable mutual
  unfolding num escape_into newline_indent text

  pub dump_into : DoubleText → ℕ → ℕ → Json → Text
  dump_into t indent depth null = text "null"
  dump_into t indent depth (boolean true) = text "true"
  dump_into t indent depth (boolean false) = text "false"
  dump_into t indent depth (int i) = num i
  dump_into t indent depth (double d) = if t.is_finite d then t.format d else text "null"
  dump_into t indent depth (string s) = escape_into s
  dump_into t indent depth (array nil) = text "[]"
  dump_into t indent depth (array (cons x xs)) = b'[' ∷ dump_items t indent depth true (cons x xs)
  dump_into t indent depth (object end) = text "{}"
  dump_into t indent depth (object (field k v fs)) =
      b'{' ∷ dump_fields t indent depth true (field k v fs)

  -- The loop over the items, and the closing bracket.
  pub dump_items : DoubleText → ℕ → ℕ → Bool → Items → Text
  dump_items t indent depth first nil = newline_indent indent depth ++ b']' ∷ []
  dump_items t indent depth first (cons x xs) =
      comma first
      ++ (newline_indent indent (suc depth)
          ++ (dump_into t indent (suc depth) x ++ dump_items t indent depth false xs))

  pub dump_fields : DoubleText → ℕ → ℕ → Bool → Fields → Text
  dump_fields t indent depth first end = newline_indent indent depth ++ b'}' ∷ []
  dump_fields t indent depth first (field k v fs) =
      comma first
      ++ (newline_indent indent (suc depth)
          ++ (escape_into k
              ++ (colon indent
                  ++ (dump_into t indent (suc depth) v ++ dump_fields t indent depth false fs))))

unfoldable pub dump : DoubleText → Json → Text
unfolding dump_into dump_items dump_fields
dump t j = dump_into t 0 0 j

unfoldable pub dump_pretty : DoubleText → ℕ → Json → Text
unfolding dump_into dump_items dump_fields
dump_pretty t indent j = dump_into t indent 0 j
