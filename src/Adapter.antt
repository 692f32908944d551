-- ===== src/Adapter.antt =====
-- `normalize_chat_completion_stream` and `assemble_tool_calls` of src/agent_runtime/adapters/openai.py:
-- the chunks of a chat completion as the events of the low-level model. `json.loads` is a parameter, and a
-- chunk has what the code reads of it: a missing delta is one without content and tool calls.
pub mod Fragments
pub mod Indices
pub mod Assembly
pub mod Outcomes
use coresmos.Prelude.{
  ℕ, leb, if◌then◌else◌, Bool, true, false, Option, none, some, List, [], ◌∷◌, ◌++◌, Text, codes,
  decimal, Dict, get, put, ℕ_discrete,
}
use coresmos.Errors.{Error, Result, ok, raise, adapter_error, ◌>>=◌}
use coresmos.Json.{Json}
use coresmos.Contracts.Messages.{ToolCall}
use coresmos.Contracts.Steps.{TokenUsage, UsageSource, ModelResult, is_effective}
use coresmos.Loop.Streams.{ManagedEventStream}
use coresmos.Pipelines.Model.{LowEvent}

-- `_ToolFragment`
pub record ToolFragment : Type 0 where
  pub call_id : Text
  pub name : Text
  pub arguments : Text

pub record FunctionDelta : Type 0 where
  pub name : Option Text
  pub arguments : Option Text

-- An index counts from 0, as the API documents it; the code would take a negative one too.
pub record ToolDelta : Type 0 where
  pub index : ℕ
  pub id : Option Text
  pub function : Option FunctionDelta

pub record RawUsage : Type 0 where
  pub prompt_tokens : Option ℕ
  pub completion_tokens : Option ℕ
  pub total_tokens : Option ℕ

pub record Choice : Type 0 where
  pub content : Option Text
  pub tool_calls : List ToolDelta
  pub finish_reason : Option Text

pub record Chunk : Type 0 where
  pub usage : Option RawUsage
  -- The first choice.
  pub choice : Option Choice

-- The variables of the loop.
pub record Gathered : Type 0 where
  pub text : Text
  pub tools : Dict ℕ ToolFragment
  pub finish_reason : Option Text
  pub usage : TokenUsage

abbrev pub new_fragment : ToolFragment
new_fragment = record { call_id = []; name = []; arguments = [] }

-- The new text, if there is one that is not empty.
abbrev pub replaced : Text → Option Text → Text
replaced old none = old
replaced old (some []) = old
replaced old (some (c ∷ cs)) = c ∷ cs

abbrev pub appended : Text → Option Text → Text
appended old none = old
appended old (some t) = old ++ t

abbrev add_function : Option FunctionDelta → ToolFragment → ToolFragment
add_function none acc = acc
add_function (some f) acc = record acc {
  name = replaced acc.name f.name;
  arguments = appended acc.arguments f.arguments;
}

unfoldable pub add_fragment : ToolDelta → ToolFragment → ToolFragment
add_fragment d acc = add_function d.function (record acc { call_id = replaced acc.call_id d.id })

abbrev pub or_new : Option ToolFragment → ToolFragment
or_new none = new_fragment
or_new (some f) = f

-- The loop over the tool deltas of a chunk.
unfoldable pub add_deltas : List ToolDelta → Dict ℕ ToolFragment → Dict ℕ ToolFragment
unfolding get put add_fragment
add_deltas [] tools = tools
add_deltas (d ∷ ds) tools =
    add_deltas ds
      (put ℕ_discrete d.index (add_fragment d (or_new (get ℕ_discrete d.index tools))) tools)

-- `_usage_from_chunk`
unfoldable pub usage_from_chunk : Chunk → TokenUsage → TokenUsage
usage_from_chunk chunk current = elim chunk.usage [
  | none ↦ current
  | some raw ↦ record {
    input_tokens = raw.prompt_tokens;
    output_tokens = raw.completion_tokens;
    total_tokens = raw.total_tokens;
    source = UsageSource.provider;
  }
]

abbrev reason_or : Option Text → Option Text → Option Text
reason_or old none = old
reason_or old (some []) = old
reason_or old (some (c ∷ cs)) = some (c ∷ cs)

abbrev pub gather_choice : Option Choice → Gathered → Gathered
gather_choice none g = g
gather_choice (some c) g = record g {
  text = appended g.text c.content;
  tools = add_deltas c.tool_calls g.tools;
  finish_reason = reason_or g.finish_reason c.finish_reason;
}

-- A round of the loop, without what it yields.
unfoldable pub gather : Chunk → Gathered → Gathered
unfolding add_deltas usage_from_chunk
gather chunk g = gather_choice chunk.choice (record g { usage = usage_from_chunk chunk g.usage })

abbrev pub delta_of : Option Text → List LowEvent
delta_of none = []
delta_of (some []) = []
delta_of (some (c ∷ cs)) = LowEvent.text (c ∷ cs) ∷ []

abbrev pub yielded_by : Option Choice → List LowEvent
yielded_by none = []
yielded_by (some c) = delta_of c.content

-- `sorted`
unfoldable pub insert_index : ℕ → List ℕ → List ℕ
insert_index i [] = i ∷ []
insert_index i (j ∷ js) = let later = insert_index i js in if leb i j then i ∷ j ∷ js else j ∷ later

unfoldable pub sorted_indices : Dict ℕ ToolFragment → List ℕ
unfolding insert_index
sorted_indices [] = []
sorted_indices ((i, f) ∷ tools) = insert_index i (sorted_indices tools)

-- `text or default`
abbrev pub or_default : Text → Text → Text
or_default [] default = default
or_default (c ∷ cs) default = c ∷ cs

-- `"".join(text_parts) or None`
abbrev pub or_none : Text → Option Text
or_none [] = none
or_none (c ∷ cs) = some (c ∷ cs)

abbrev pub no_usage : TokenUsage
no_usage = record {
  input_tokens = none;
  output_tokens = none;
  total_tokens = none;
  source = UsageSource.missing;
}

abbrev pub nothing_yet : Gathered
nothing_yet = record { text = []; tools = []; finish_reason = none; usage = no_usage }

module _ (is_space : ℕ → Bool) (loads : Text → Option Json) where
  abbrev object_call : ℕ → ToolFragment → Option Json → Result ToolCall
  object_call i f (some (Json.obj arguments)) = ok (record {
    call_id = or_default f.call_id (codes "call-" ++ decimal i);
    name = f.name;
    arguments = arguments;
  })
  object_call i f _ = raise adapter_error

  -- A round of `assemble_tool_calls`.
  unfoldable pub call_of : ℕ → ToolFragment → Result ToolCall
  unfolding decimal
  call_of i f = object_call i f (loads (or_default f.arguments (codes "{}")))

  unfoldable pub assemble_from : List ℕ → Dict ℕ ToolFragment → Result (List ToolCall)
  unfolding call_of get
  assemble_from [] tools = ok []
  assemble_from (i ∷ is) tools = do
    c ← call_of i (or_new (get ℕ_discrete i tools))
    cs ← assemble_from is tools
    ok (c ∷ cs)

  unfoldable pub assemble_tool_calls : Dict ℕ ToolFragment → Result (List ToolCall)
  unfolding sorted_indices assemble_from
  assemble_tool_calls tools = assemble_from (sorted_indices tools) tools

  abbrev pub result_of : Gathered → List ToolCall → ModelResult
  result_of g calls = record {
    text = or_none g.text;
    reasoning = none;
    tool_calls = calls;
    usage = g.usage;
    finish_reason = g.finish_reason;
    attempt = 1;
  }

  -- What stands behind the loop.
  unfoldable pub complete_result : Gathered → ManagedEventStream LowEvent
  unfolding assemble_tool_calls is_effective
  complete_result g = elim (assemble_tool_calls g.tools) [
    | raise e ↦ record { items = []; failure = some e }
    | ok calls ↦ record {
      items =
          if is_effective is_space (result_of g calls)
          then LowEvent.completed (result_of g calls) ∷ []
          else [];
      failure = none;
    }
  ]

  unfoldable pub normalize_from : List Chunk → Option Error → Gathered → ManagedEventStream LowEvent
  unfolding gather complete_result
  normalize_from [] (some e) g = record { items = []; failure = some e }
  normalize_from [] none g = complete_result g
  normalize_from (chunk ∷ chunks) failure g =
      let rest = normalize_from chunks failure (gather chunk g) in
      record { items = yielded_by chunk.choice ++ rest.items; failure = rest.failure }

  unfoldable pub normalize_chat_completion_stream :
      ManagedEventStream Chunk → ManagedEventStream LowEvent
  unfolding normalize_from
  normalize_chat_completion_stream chunks = normalize_from chunks.items chunks.failure nothing_yet
