-- ===== src/Adapter/Outcomes.antt =====
-- How the adapter's reading of a chat completion ends.
use mathlib.Core.List.{append_assoc, append-nil}
use coresmos.Prelude.{
  arith, ℕ, ◌≡◌, refl, sym, ap, ◌∙◌, if◌then◌else◌, Bool, true, Option, none, some, List, [], ◌∷◌,
  ◌++◌, Text,
}
use coresmos.Errors.{Error, Result, ok, raise, adapter_error}
use coresmos.Json.{Json}
use coresmos.Contracts.Messages.{ToolCall}
use coresmos.Contracts.Steps.{ModelResult, is_effective}
use coresmos.Loop.Streams.{ManagedEventStream}
use coresmos.Pipelines.Model.{LowEvent}
use coresmos.Adapter.{
  Chunk, Gathered, gather, yielded_by, nothing_yet, or_none, add_deltas, sorted_indices,
  assemble_tool_calls, complete_result, normalize_from, normalize_chat_completion_stream, result_of,
}
use coresmos.Adapter.Fragments.{own, any_delta}
use coresmos.Adapter.Indices.{listed, Rising, listed-add_deltas, indices-Rising}
use coresmos.Adapter.Assembly.{
  tool_deltas, text_deltas, text_of, gather_all, tools-gather_all, text-gather_all, CallsOf, NoCall,
  Assembled, assembled, invalid, assemble_from-Assembled,
}

module _ (is_space : ℕ → Bool) (loads : Text → Option Json) where
  -- How a reading ends: with the exception of the chunks; with an index whose pieces are no JSON
  -- object; or with a result, which is yielded if it is effective, whose text is that of the deltas
  -- yielded before, and whose calls are those of the indices that have a delta, each once and in
  -- rising order.
  pub data Outcome (s : ManagedEventStream Chunk) : ManagedEventStream LowEvent → Type 0 where
    broken :
        (e : Error)
        → s.failure ≡ some e
        → Outcome s (record { items = text_deltas s.items; failure = some e })
    refused :
        (i : ℕ)
        → s.failure ≡ none
        → any_delta (own i (tool_deltas s.items)) ≡ true
        → NoCall is_space loads (tool_deltas s.items) i
        → Outcome s (record { items = text_deltas s.items; failure = some adapter_error })
    finished :
        (result : ModelResult) (is : List ℕ)
        → s.failure ≡ none
        → result.text ≡ or_none (text_of (text_deltas s.items))
        → Rising 0 is
        → ((i : ℕ) → listed i is ≡ any_delta (own i (tool_deltas s.items)))
        → CallsOf is_space loads (tool_deltas s.items) is result.tool_calls
        → Outcome s (record {
          items =
              text_deltas s.items
              ++ (if is_effective is_space result then LowEvent.completed result ∷ [] else []);
          failure = none;
        })

  -- The stream with more items in front.
  abbrev behind : List LowEvent → ManagedEventStream LowEvent → ManagedEventStream LowEvent
  behind es s = record { items = es ++ s.items; failure = s.failure }

  normalize_from-behind :
      (chunks : List Chunk) (failure : Option Error) (g : Gathered)
      → normalize_from is_space loads chunks failure g
        ≡ behind
            (text_deltas chunks)
            (normalize_from is_space loads [] failure (gather_all chunks g))
  unfolding normalize_from text_deltas gather_all
  normalize_from-behind [] (some e) g = refl
  normalize_from-behind [] none g = refl
  normalize_from-behind (chunk ∷ chunks) failure g =
      let rest = normalize_from is_space loads [] failure (gather_all chunks (gather chunk g)) in
      ap (behind (yielded_by chunk.choice)) (normalize_from-behind chunks failure (gather chunk g))
      ∙ ap (λ es. record { items = es; failure = rest.failure })
          (sym (append_assoc (yielded_by chunk.choice) (text_deltas chunks) rest.items))

  -- What stands behind the loop, of how the calls were assembled.
  abbrev ended : Gathered → Result (List ToolCall) → ManagedEventStream LowEvent
  ended g (raise e) = record { items = []; failure = some e }
  ended g (ok calls) = record {
    items =
        if is_effective is_space (result_of is_space loads g calls)
        then LowEvent.completed (result_of is_space loads g calls) ∷ []
        else [];
    failure = none;
  }

  ended-Outcome :
      (chunks : List Chunk) (g : Gathered) (r : Result (List ToolCall))
      → g.text ≡ text_of (text_deltas chunks)
      → Assembled is_space loads
          (tool_deltas chunks)
          (sorted_indices (add_deltas (tool_deltas chunks) []))
          r
      → Outcome
          (record { items = chunks; failure = none })
          (behind (text_deltas chunks) (ended g r))
  ended-Outcome chunks g r t (assembled {cs} calls) =
      finished (result_of is_space loads g cs) _ refl (ap or_none t)
        (indices-Rising (tool_deltas chunks)) (λ i. listed-add_deltas i (tool_deltas chunks)) calls
  ended-Outcome chunks g r t (invalid i h k) =
      rw (append-nil (text_deltas chunks))
        (refused i refl (sym (listed-add_deltas i (tool_deltas chunks)) ∙ h) k)

  complete_result-ended :
      (g : Gathered)
      → complete_result is_space loads g ≡ ended g (assemble_tool_calls is_space loads g.tools)
  unfolding complete_result
  complete_result-ended g = ground arith

  -- However a chat completion is cut into chunks, the text deltas are yielded as they come, and its
  -- reading ends with the exception of the chunks, or is refused since the pieces under some index are
  -- no JSON object, or gives a result whose text is that of the deltas and whose calls are those of
  -- exactly the indices with a delta, one call for each, in rising order, put together from its own
  -- pieces. The
  -- result is yielded if it is effective.
  pub normalize_chat_completion_stream-Outcome :
      (s : ManagedEventStream Chunk) → Outcome s (normalize_chat_completion_stream is_space loads s)
  unfolding normalize_chat_completion_stream normalize_from assemble_tool_calls
  normalize_chat_completion_stream-Outcome s =
      rw (normalize_from-behind s.items s.failure nothing_yet) (by_failure s.failure)
    where
      g : Gathered
      g = gather_all s.items nothing_yet

      by_failure :
          (failure : Option Error)
          → Outcome
              (record { items = s.items; failure = failure })
              (behind (text_deltas s.items) (normalize_from is_space loads [] failure g))
      by_failure (some e) = rw (append-nil (text_deltas s.items)) (broken e refl)
      by_failure none = rw (complete_result-ended g) (
          ended-Outcome s.items g (assemble_tool_calls is_space loads g.tools)
            (text-gather_all s.items nothing_yet)
            (rw (tools-gather_all s.items nothing_yet) (
              assemble_from-Assembled is_space loads (tool_deltas s.items)
                (sorted_indices (add_deltas (tool_deltas s.items) [])))))
