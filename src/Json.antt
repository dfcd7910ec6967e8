-- ===== src/Json.antt =====
-- `Json` of include/jobengine/json.hpp and the accessors of src/core/json.cpp. A double is kept as
-- its bit pattern; an object keeps its fields in order of insertion.
pub mod Result
pub mod Printer
pub mod Scanner
pub mod Parser
pub mod Strings
pub mod Numbers
pub mod Plain
pub mod Arrays
pub mod Objects
pub mod RoundTrip
pub mod Leaves
pub mod Total
use distributed_job_engine.Prelude.{
  ℕ, zero, suc, Bool, Option, none, some, ℤ, Text, text_eq, if◌then◌else◌,
}

mutual
  pub data Json : Type 0 where
    null : Json
    boolean : Bool → Json
    int : ℤ → Json
    double : ℕ → Json
    string : Text → Json
    array : Items → Json
    object : Fields → Json

  pub data Items : Type 0 where
    nil : Items
    cons : Json → Items → Items

  pub data Fields : Type 0 where
    end : Fields
    field : Text → Json → Fields → Fields

unfoldable pub find_field : Text → Fields → Option Json
find_field key end = none
find_field key (field k v rest) = if text_eq k key then some v else find_field key rest

unfoldable pub find : Json → Text → Option Json
unfolding find_field
find (object fields) key = find_field key fields
find _ key = none

unfoldable pub set_field : Text → Json → Fields → Fields
set_field key value end = field key value end
set_field key value (field k v rest) =
    if text_eq k key then field k value rest else field k v (set_field key value rest)

unfoldable pub set : Json → Text → Json → Json
unfolding set_field
set (object fields) key value = object (set_field key value fields)
set _ key value = object (set_field key value end)

unfoldable pub append_item : Items → Json → Items
append_item nil value = cons value nil
append_item (cons x rest) value = cons x (append_item rest value)

unfoldable pub push_back : Json → Json → Json
unfolding append_item
push_back (array items) value = array (append_item items value)
push_back _ value = array (cons value nil)

unfoldable pub count_items : Items → ℕ
count_items nil = 0
count_items (cons x rest) = suc (count_items rest)

unfoldable pub count_fields : Fields → ℕ
count_fields end = 0
count_fields (field k v rest) = suc (count_fields rest)

unfoldable pub size : Json → ℕ
unfolding count_items count_fields
size (array items) = count_items items
size (object fields) = count_fields fields
size _ = 0

unfoldable pub item_at : Items → ℕ → Json
item_at nil i = null
item_at (cons x rest) zero = x
item_at (cons x rest) (suc i) = item_at rest i

unfoldable pub at : Json → ℕ → Json
unfolding item_at
at (array items) i = item_at items i
at _ i = null

-- `as_int`: `truncate` is `static_cast<int64_t>` of a finite double, `none` of another.
unfoldable pub as_int : (ℕ → Option ℤ) → Json → ℤ → ℤ
as_int truncate (int i) def = i
as_int truncate (double d) def = elim (truncate d) [ none ↦ def | some i ↦ i ]
as_int truncate _ def = def

unfoldable pub get_int : (ℕ → Option ℤ) → Json → Text → ℤ → ℤ
unfolding as_int find
get_int truncate j key def = elim (find j key) [ none ↦ def | some v ↦ as_int truncate v def ]

unfoldable pub get_bool : Json → Text → Bool → Bool
unfolding find
get_bool j key def = elim (find j key) [ some (boolean b) ↦ b | _ ↦ def ]

unfoldable pub get_string : Json → Text → Text → Text
unfolding find
get_string j key def = elim (find j key) [ some (string s) ↦ s | _ ↦ def ]
