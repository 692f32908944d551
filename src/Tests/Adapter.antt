-- ===== src/Tests/Adapter.antt =====
-- The theorem on src/agent_runtime/adapters/openai.py at a concrete completion.
use coresmos.Prelude.{
  ℕ, ◌==◌, ◌≡◌, refl, Bool, Option, none, some, List, [], ◌∷◌, Text, codes, map, ite, Text-discrete,
  get, put, ℕ_discrete, decimal,
}
use coresmos.Json.{Json, Fields}
use coresmos.Contracts.Messages.{ToolCall}
use coresmos.Contracts.Steps.{is_effective}
use coresmos.Loop.Streams.{ManagedEventStream}
use coresmos.Pipelines.Model.{LowEvent}
use coresmos.Adapter.{Chunk, ToolDelta, normalize_chat_completion_stream}
use coresmos.Adapter.Outcomes.{Outcome, normalize_chat_completion_stream-Outcome}

abbrev is_blank : ℕ → Bool
is_blank c = c == 32

-- A reader that knows the empty object.
abbrev read_json : Text → Option Json
read_json t = ite (Text-discrete t (codes "{}")) (some (Json.obj Fields.end)) none

abbrev piece : ℕ → Option Text → Option Text → Text → ToolDelta
piece i id name arguments = record {
  index = i;
  id = id;
  function = some (record { name = name; arguments = some arguments });
}

abbrev chunk_of : Option Text → List ToolDelta → Chunk
chunk_of content deltas = record {
  usage = none;
  choice = some (record { content = content; tool_calls = deltas; finish_reason = none });
}

-- Two calls whose pieces alternate, the second one first.
abbrev two_calls : ManagedEventStream Chunk
two_calls = record {
  items =
      chunk_of (some (codes "hi")) []
      ∷ chunk_of none (piece 1 (some (codes "b")) (some (codes "find")) (codes "{") ∷ [])
      ∷ chunk_of none (piece 0 none (some (codes "read")) (codes "{}") ∷ [])
      ∷ chunk_of none (piece 1 none none (codes "}") ∷ [])
      ∷ [];
  failure = none;
}

normalize_chat_completion_stream-Outcome_example :
    Outcome is_blank read_json two_calls
      (normalize_chat_completion_stream is_blank read_json two_calls)
normalize_chat_completion_stream-Outcome_example =
    normalize_chat_completion_stream-Outcome is_blank read_json two_calls

abbrev ids_of_events : List LowEvent → List Text
ids_of_events (LowEvent.completed r ∷ es) = map (λ (c : ToolCall). c.call_id) r.tool_calls
ids_of_events (_ ∷ es) = ids_of_events es
ids_of_events [] = []

-- The calls come in the order of their indices, and a missing id is made up.
two_calls_ids :
    ids_of_events (normalize_chat_completion_stream is_blank read_json two_calls).items
    ≡ codes "call-0" ∷ codes "b" ∷ []
unfolding normalize_chat_completion_stream is_effective Text-discrete get put ℕ_discrete decimal
two_calls_ids = refl
