-- ===== src/Json/Freezing.antt =====
-- `freeze_json`, `thaw_json` and `freeze_mapping` of src/agent_runtime/jsonutil.py, on the values that a
-- host passes. The keys of a host's mapping are texts.
use coresmos.Prelude.{◌≡◌, refl, Bool, true, false, ◌&&◌, Option, none, some, Text, ℤ, arith}
use coresmos.Errors.{Result, ok, raise, ◌>>=◌, type_error}
use coresmos.Json.{Json, Items, Fields}

mutual
  -- A value of Python: `other` is neither a primitive nor a mapping nor a sequence, or is bytes.
  pub data Value : Type 0 where
    null : Value
    bool : Bool → Value
    int : ℤ → Value
    str : Text → Value
    list_of : Values → Value
    tuple_of : Values → Value
    dict_of : Entries → Value
    other : Value

  pub data Values : Type 0 where
    nil : Values
    cons : Value → Values → Values

  pub data Entries : Type 0 where
    end : Entries
    entry : Text → Value → Entries → Entries

unfoldable mutual
  -- `freeze_json`
  pub freeze_json : Value → Result Json
  freeze_json Value.null = ok Json.null
  freeze_json (Value.bool b) = ok (Json.bool b)
  freeze_json (Value.int n) = ok (Json.int n)
  freeze_json (Value.str t) = ok (Json.str t)
  freeze_json (list_of vs) = freeze_items vs >>= λ xs. ok (Json.arr xs)
  freeze_json (tuple_of vs) = freeze_items vs >>= λ xs. ok (Json.arr xs)
  freeze_json (dict_of es) = freeze_fields es >>= λ fs. ok (Json.obj fs)
  freeze_json other = raise type_error

  pub freeze_items : Values → Result Items
  freeze_items Values.nil = ok Items.nil
  freeze_items (Values.cons v vs) =
      freeze_json v >>= λ x. freeze_items vs >>= λ xs. ok (Items.cons x xs)

  pub freeze_fields : Entries → Result Fields
  freeze_fields Entries.end = ok Fields.end
  freeze_fields (entry k v es) =
      freeze_json v >>= λ x. freeze_fields es >>= λ fs. ok (Fields.field k x fs)

unfoldable mutual
  -- `thaw_json`
  pub thaw_json : Json → Value
  thaw_json Json.null = Value.null
  thaw_json (Json.bool b) = Value.bool b
  thaw_json (Json.int n) = Value.int n
  thaw_json (Json.str t) = Value.str t
  thaw_json (Json.arr xs) = list_of (thaw_items xs)
  thaw_json (Json.obj fs) = dict_of (thaw_fields fs)

  pub thaw_items : Items → Values
  thaw_items Items.nil = Values.nil
  thaw_items (Items.cons x xs) = Values.cons (thaw_json x) (thaw_items xs)

  pub thaw_fields : Fields → Entries
  thaw_fields Fields.end = Entries.end
  thaw_fields (Fields.field k x fs) = entry k (thaw_json x) (thaw_fields fs)

-- `freeze_mapping` of a mapping, or of `None`.
unfoldable pub freeze_mapping : Option Entries → Result Fields
unfolding freeze_fields
freeze_mapping none = ok Fields.end
freeze_mapping (some es) = freeze_fields es

unfoldable mutual
  -- No part of the value is of another type.
  pub is_json : Value → Bool
  is_json (list_of vs) = all_json vs
  is_json (tuple_of vs) = all_json vs
  is_json (dict_of es) = entries_json es
  is_json other = false
  is_json _ = true

  pub all_json : Values → Bool
  all_json Values.nil = true
  all_json (Values.cons v vs) = is_json v && all_json vs

  pub entries_json : Entries → Bool
  entries_json Entries.end = true
  entries_json (entry k v es) = is_json v && entries_json es

-- A result that is a value if the flag is set, and a `TypeError` otherwise.
pub data OkIff {A : Type 0} (b : Bool) : Result A → Type 0 where
  frozen : (a : A) → b ≡ true → OkIff b (ok a)
  rejected : b ≡ false → OkIff b (raise type_error)

then_ok :
    {A B : Type 0} {b : Bool} {r : Result A} (f : A → B) → OkIff b r → OkIff b (r >>= λ a. ok (f a))
then_ok f (frozen a h) = frozen (f a) h
then_ok f (rejected h) = rejected h

both_ok :
    {A B C : Type 0} {b c : Bool} {r : Result A} {s : Result B} (f : A → B → C)
    → OkIff b r
    → OkIff c s
    → OkIff (b && c) (r >>= λ x. s >>= λ y. ok (f x y))
both_ok f (frozen a h) (frozen b k) = frozen (f a b) (ground (arith, h, k))
both_ok f (frozen a h) (rejected k) = rejected (ground (arith, h, k))
both_ok f (rejected h) k = rejected (ground (arith, h))

mutual
  unfolding freeze_json thaw_json is_json

  freeze_json-OkIff : (v : Value) → OkIff (is_json v) (freeze_json v)
  freeze_json-OkIff Value.null = frozen _ refl
  freeze_json-OkIff (Value.bool b) = frozen _ refl
  freeze_json-OkIff (Value.int n) = frozen _ refl
  freeze_json-OkIff (Value.str t) = frozen _ refl
  freeze_json-OkIff (list_of vs) = then_ok Json.arr (freeze_items-OkIff vs)
  freeze_json-OkIff (tuple_of vs) = then_ok Json.arr (freeze_items-OkIff vs)
  freeze_json-OkIff (dict_of es) = then_ok Json.obj (freeze_fields-OkIff es)
  freeze_json-OkIff other = rejected refl

  freeze_items-OkIff : (vs : Values) → OkIff (all_json vs) (freeze_items vs)
  freeze_items-OkIff Values.nil = frozen _ refl
  freeze_items-OkIff (Values.cons v vs) =
      both_ok Items.cons (freeze_json-OkIff v) (freeze_items-OkIff vs)

  freeze_fields-OkIff : (es : Entries) → OkIff (entries_json es) (freeze_fields es)
  freeze_fields-OkIff Entries.end = frozen _ refl
  freeze_fields-OkIff (entry k v es) =
      both_ok (Fields.field k) (freeze_json-OkIff v) (freeze_fields-OkIff es)

mutual
  unfolding freeze_json thaw_json

  freeze-thaw_json : (x : Json) → freeze_json (thaw_json x) ≡ ok x
  freeze-thaw_json Json.null = refl
  freeze-thaw_json (Json.bool b) = refl
  freeze-thaw_json (Json.int n) = refl
  freeze-thaw_json (Json.str t) = refl
  freeze-thaw_json (Json.arr xs) = rw (freeze-thaw_items xs) refl
  freeze-thaw_json (Json.obj fs) = rw (freeze-thaw_fields fs) refl

  freeze-thaw_items : (xs : Items) → freeze_items (thaw_items xs) ≡ ok xs
  freeze-thaw_items Items.nil = refl
  freeze-thaw_items (Items.cons x xs) = rw (freeze-thaw_json x, freeze-thaw_items xs) refl

  freeze-thaw_fields : (fs : Fields) → freeze_fields (thaw_fields fs) ≡ ok fs
  freeze-thaw_fields Fields.end = refl
  freeze-thaw_fields (Fields.field k x fs) = rw (freeze-thaw_json x, freeze-thaw_fields fs) refl

-- What a host passes is frozen exactly if no part of it is of another type, else it raises `TypeError`;
-- and what was frozen, once thawed, freezes to the same value.
pub freeze_json-round_trip :
    (v : Value) (x : Json) → OkIff (is_json v) (freeze_json v) × (freeze_json (thaw_json x) ≡ ok x)
freeze_json-round_trip v x = (freeze_json-OkIff v, freeze-thaw_json x)
