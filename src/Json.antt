-- ===== src/Json.antt =====
-- JSON values as src/agent_runtime/jsonutil.py freezes them: a mapping is its items in insertion
-- order, a tuple its items. Python's equality on them reads no order among the keys, and a Boolean
-- equals its number. Floating-point numbers are not modelled.
pub mod Freezing
use coresmos.Prelude.{
  ℕ, suc, ◌==◌, Bool, true, false, ◌&&◌, Option, none, some, Text, Text-discrete, ite, ℤ, pos,
  int_eq,
}

mutual
  pub data Json : Type 0 where
    null : Json
    bool : Bool → Json
    int : ℤ → Json
    str : Text → Json
    arr : Items → Json
    obj : Fields → Json

  pub data Items : Type 0 where
    nil : Items
    cons : Json → Items → Items

  pub data Fields : Type 0 where
    end : Fields
    field : Text → Json → Fields → Fields

unfoldable pub size_fields : Fields → ℕ
size_fields end = 0
size_fields (field k v fs) = suc (size_fields fs)

-- `d.get(k)`
unfoldable pub find : Text → Fields → Option Json
unfolding Text-discrete
find k end = none
find k (field j v fs) = ite (Text-discrete k j) (some v) (find k fs)

-- `dec (x == y)` of texts as a Boolean.
abbrev text_eq : Text → Text → Bool
text_eq s t = ite (Text-discrete s t) true false

-- The number that a Boolean or an integer equals.
abbrev bit : Bool → ℤ
bit true = pos 1
bit false = pos 0

-- `==` on two JSON values, on two tuples, and the test that each item of one mapping stands in another.
unfoldable mutual
  unfolding find size_fields

  pub json_eq : Json → Json → Bool
  json_eq null null = true
  json_eq (bool a) (bool b) = int_eq (bit a) (bit b)
  json_eq (bool a) (int n) = int_eq (bit a) n
  json_eq (int m) (bool b) = int_eq m (bit b)
  json_eq (int m) (int n) = int_eq m n
  json_eq (str s) (str t) = text_eq s t
  json_eq (arr xs) (arr ys) = items_eq xs ys
  json_eq (obj fs) (obj gs) = size_fields fs == size_fields gs && fields_in fs gs
  json_eq _ _ = false

  pub items_eq : Items → Items → Bool
  items_eq nil nil = true
  items_eq (cons x xs) (cons y ys) = json_eq x y && items_eq xs ys
  items_eq _ _ = false

  pub fields_in : Fields → Fields → Bool
  fields_in end gs = true
  fields_in (field k v fs) gs =
      (elim (find k gs) [ none ↦ false | some w ↦ json_eq v w ]) && fields_in fs gs

-- `==` on two mappings.
unfoldable pub fields_eq : Fields → Fields → Bool
unfolding json_eq
fields_eq fs gs = size_fields fs == size_fields gs && fields_in fs gs
