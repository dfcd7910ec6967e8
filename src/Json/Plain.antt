-- ===== src/Json/Plain.antt =====
-- The JSON values whose printed text determines them, and their lists of items and fields.
use distributed_job_engine.Prelude.{ℕ, suc, ◌≤◌, ◌≡◌, refl, ap, ◌++◌, Text, none, arith}
use mathlib.Core.List.{append_assoc}
use distributed_job_engine.Json.{
  Json, Items, Fields, null, boolean, int, double, string, array, object, nil, cons, end, field,
  find_field, set_field, append_item,
}
use distributed_job_engine.Json.Parser.{max_depth}
use distributed_job_engine.Json.Numbers.{IsInt64}

-- The values whose text is read back: no doubles, the integers of `int64_t`, the keys of an object
-- distinct, and no deeper than the parser goes. `prior` are the fields before.
abbrev mutual
  pub Plain : ℕ → Json → Type 0
  Plain depth null = depth ≤ max_depth
  Plain depth (boolean b) = depth ≤ max_depth
  Plain depth (int i) = (depth ≤ max_depth) × IsInt64 i
  Plain depth (double d) = ⊥
  Plain depth (string s) = depth ≤ max_depth
  Plain depth (array xs) = (depth ≤ max_depth) × PlainItems depth xs
  Plain depth (object fs) = (depth ≤ max_depth) × PlainFields depth end fs

  pub PlainItems : ℕ → Items → Type 0
  PlainItems depth nil = Unit
  PlainItems depth (cons x xs) = Plain (suc depth) x × PlainItems depth xs

  pub PlainFields : ℕ → Fields → Fields → Type 0
  PlainFields depth prior end = Unit
  PlainFields depth prior (field k v fs) =
      (find_field k prior ≡ none) × Plain (suc depth) v × PlainFields depth (set_field k v prior) fs

abbrev pub append_items : Items → Items → Items
append_items nil ys = ys
append_items (cons x xs) ys = cons x (append_items xs ys)

abbrev pub append_fields : Fields → Fields → Fields
append_fields end gs = gs
append_fields (field k v fs) gs = field k v (append_fields fs gs)

pub append_item-append_items :
    (xs : Items) (y : Json) (ys : Items)
    → append_items (append_item xs y) ys ≡ append_items xs (cons y ys)
unfolding append_item
append_item-append_items nil y ys = refl
append_item-append_items (cons x xs) y ys = ap (cons x) (append_item-append_items xs y ys)

pub set_field-append_fields :
    (fs : Fields) (k : Text) (v : Json) (gs : Fields)
    → find_field k fs ≡ none
    → append_fields (set_field k v fs) gs ≡ append_fields fs (field k v gs)
unfolding set_field find_field
set_field-append_fields end k v gs h = refl
set_field-append_fields (field j w fs) k v gs h =
    ground (arith, set_field-append_fields fs k v gs, h)

pub append_items-nil : (xs : Items) → append_items xs nil ≡ xs
append_items-nil nil = refl
append_items-nil (cons x xs) = ap (cons x) (append_items-nil xs)

pub append_fields-end : (fs : Fields) → append_fields fs end ≡ fs
append_fields-end end = refl
append_fields-end (field k v fs) = ap (field k v) (append_fields-end fs)

pub regroup : (a b c d : Text) → (a ++ (b ++ c)) ++ d ≡ a ++ (b ++ (c ++ d))
regroup a b c d = rw append_assoc (rw append_assoc refl)

pub regroup_field :
    (a b c d e g : Text) → (a ++ (b ++ (c ++ (d ++ e)))) ++ g ≡ a ++ (b ++ (c ++ (d ++ (e ++ g))))
regroup_field a b c d e g = simp append_assoc refl
