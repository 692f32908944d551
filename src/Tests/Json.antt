-- ===== src/Tests/Json.antt =====
-- The theorem on src/agent_runtime/jsonutil.py at concrete values.
use coresmos.Prelude.{◌≡◌, codes, pos}
use coresmos.Errors.{ok}
use coresmos.Json.{Json, Items, Fields}
use coresmos.Json.Freezing.{
  Value, Values, Entries, freeze_json, thaw_json, is_json, OkIff, freeze_json-round_trip,
}

-- A mapping with a list that holds bytes.
abbrev with_bytes : Value
with_bytes =
    Value.dict_of
      (Entries.entry (codes "k") (Value.list_of (Values.cons Value.other Values.nil)) Entries.end)

abbrev nested : Json
nested =
    Json.obj
      (Fields.field (codes "k") (Json.arr (Items.cons (Json.int (pos 3)) Items.nil)) Fields.end)

freeze_json-round_trip_example :
    OkIff (is_json with_bytes) (freeze_json with_bytes)
    × (freeze_json (thaw_json nested) ≡ ok nested)
freeze_json-round_trip_example = freeze_json-round_trip with_bytes nested
