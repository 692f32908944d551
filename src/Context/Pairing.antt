-- ===== src/Context/Pairing.antt =====
-- `pair_tool_messages` of src/agent_runtime/context/compress.py: the model view keeps only complete,
-- adjacent and unique groups of a tool call and its results. The source moves a cursor over the list;
-- here the list is what stands from the cursor on.
pub mod Spec
pub mod Collecting
pub mod Sound
pub mod Complete
pub mod Kept
use coresmos.Prelude.{
  ℕ, zero, suc, ◌==◌, if◌then◌else◌, Bool, true, false, ◌&&◌, not, Option, none, some, List, [],
  ◌∷◌, ◌++◌, length, elem, to_set, set_eq, Text, Text-discrete,
}
use coresmos.Contracts.Enums.{Role}
use coresmos.Contracts.Messages.{Message, call_ids}

abbrev pub is_tool_role : Role → Bool
is_tool_role Role.tool = true
is_tool_role _ = false

abbrev pub is_assistant_role : Role → Bool
is_assistant_role Role.assistant = true
is_assistant_role _ = false

abbrev pub is_nonempty {ℓ} : {A : Type ℓ} → List A → Bool
is_nonempty [] = false
is_nonempty (x ∷ xs) = true

-- `message.role is Role.TOOL`
abbrev pub is_tool : Message → Bool
is_tool m = is_tool_role m.role

-- `message.role is Role.ASSISTANT and message.tool_calls`
abbrev pub is_calling : Message → Bool
is_calling m = is_assistant_role m.role && is_nonempty m.tool_calls

-- `while cursor < len(messages) and messages[cursor].role is Role.TOOL: cursor += 1`
unfoldable pub skip_tools : List Message → List Message
skip_tools [] = []
skip_tools (m ∷ ms) = if is_tool m then skip_tools ms else m ∷ ms

-- `tool_id and tool_id in needed and tool_id not in seen`
unfoldable pub accepts : List Text → List Text → Option Text → Bool
unfolding elem
accepts needed seen none = false
accepts needed seen (some []) = false
accepts needed seen (some (c ∷ cs)) =
    elem Text-discrete (c ∷ cs) needed && not (elem Text-discrete (c ∷ cs) seen)

-- `seen.add(tool_id)`, of an id that is new.
abbrev pub add_seen : Option Text → List Text → List Text
add_seen none seen = seen
add_seen (some t) seen = t ∷ seen

-- What the loop over a group's results leaves: the results, the ids seen, and the rest from the cursor.
pub record Collected : Type 0 where
  pub results : List Message
  pub seen : List Text
  pub rest : List Message

unfoldable pub collect : List Text → List Text → List Message → Collected
unfolding accepts set_eq
collect needed seen [] = record { results = []; seen = seen; rest = [] }
collect needed seen (m ∷ ms) =
    let seen' = add_seen m.tool_call_id seen in
    let more = collect needed seen' ms in
    if is_tool m && accepts needed seen m.tool_call_id
    then (if set_eq Text-discrete seen' needed
        then record { results = m ∷ []; seen = seen'; rest = ms }
        else record more { results = m ∷ more.results })
    else record { results = []; seen = seen; rest = m ∷ ms }

-- `seen == needed and len(results) == len(call_ids)`
unfoldable pub is_complete : Message → Collected → Bool
unfolding set_eq
is_complete m c =
    set_eq Text-discrete c.seen (call_ids m) && length c.results == length (call_ids m)

-- `len(set(call_ids)) != len(call_ids)`
unfoldable pub has_repeats : Message → Bool
unfolding to_set
has_repeats m = not (length (to_set Text-discrete (call_ids m)) == length (call_ids m))

-- The rounds of the outer loop are at most the messages: each advances the cursor.
unfoldable pub pair_rounds : ℕ → List Message → List Message
unfolding skip_tools collect is_complete has_repeats
pair_rounds zero ms = []
pair_rounds (suc n) [] = []
pair_rounds (suc n) (m ∷ ms) =
    let found = collect (call_ids m) [] ms in
    let after_group = pair_rounds n found.rest in
    let after_skip = pair_rounds n (skip_tools ms) in
    let after_found = pair_rounds n (skip_tools found.rest) in
    let after_one = pair_rounds n ms in
    if is_calling m
    then (if has_repeats m
        then after_skip
        else if is_complete m found
        then m ∷ (found.results ++ after_group)
        else after_found)
    else if is_tool m
    then after_one
    else m ∷ after_one

unfoldable pub pair_tool_messages : List Message → List Message
unfolding pair_rounds
pair_tool_messages ms = pair_rounds (length ms) ms
