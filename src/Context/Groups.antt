-- ===== src/Context/Groups.antt =====
-- `group_messages` of src/agent_runtime/context/compress.py: a view split into indivisible units, one
-- group of a call and its results or one plain message.
pub mod Units
use mathlib.Core.List.{flatten}
use coresmos.Prelude.{
  ℕ, zero, suc, ◌≤◌, ◌≡◌, refl, false, ◌&&◌, Bool, Option, none, some, List, [], ◌∷◌, length, take,
  drop, take-append-drop, length-drop-le, elem, Text, Text-discrete, if◌then◌else◌, arith,
}
use coresmos.Contracts.Messages.{Message, call_ids}
use coresmos.Context.Pairing.{is_tool, is_calling}

-- `tool_call_id in call_ids`
unfoldable pub answers_one : List Text → Option Text → Bool
unfolding elem
answers_one ids none = false
answers_one ids (some t) = elem Text-discrete t ids

-- `while end < len(messages) and role is TOOL and tool_call_id in call_ids: end += 1`: how far `end`
-- moves.
unfoldable pub run_length : List Text → List Message → ℕ
unfolding answers_one
run_length ids [] = 0
run_length ids (m ∷ ms) =
    let more = suc (run_length ids ms) in
    if is_tool m && answers_one ids m.tool_call_id then more else 0

-- The rounds of the loop are at most the messages: each advances the index.
unfoldable pub group_rounds : ℕ → List Message → List (List Message)
unfolding run_length
group_rounds zero ms = []
group_rounds (suc n) [] = []
group_rounds (suc n) (m ∷ ms) =
    let end = run_length (call_ids m) ms in
    let after_group = group_rounds n (drop end ms) in
    let after_one = group_rounds n ms in
    if is_calling m then (m ∷ take end ms) ∷ after_group else (m ∷ []) ∷ after_one

unfoldable pub group_messages : List Message → List (List Message)
unfolding group_rounds
group_messages ms = group_rounds (length ms) ms

flatten-group_rounds :
    (n : ℕ) (ms : List Message) → length ms ≤ n → flatten (group_rounds n ms) ≡ ms
unfolding group_rounds flatten
flatten-group_rounds zero [] h = refl
flatten-group_rounds zero (m ∷ ms) h = absurd (omega arith)
flatten-group_rounds (suc n) [] h = refl
flatten-group_rounds (suc n) (m ∷ ms) h =
    let end = run_length (call_ids m) ms in
    ground (
      arith,
      length-drop-le end ms,
      take-append-drop end ms,
      flatten-group_rounds n ms,
      flatten-group_rounds n (drop end ms),
    )

-- The units, one after the other, are the view: grouping neither loses, repeats nor moves a message.
pub flatten-group_messages : (ms : List Message) → flatten (group_messages ms) ≡ ms
unfolding group_messages
flatten-group_messages ms = flatten-group_rounds (length ms) ms (omega arith)
