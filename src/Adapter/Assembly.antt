-- ===== src/Adapter/Assembly.antt =====
-- What the adapter gathers of a chat completion: its text, and its tool calls from their pieces.
use mathlib.Core.List.{append_assoc, append-nil}
use coresmos.Prelude.{
  arith, ℕ, ◌≡◌, refl, sym, ap, ◌∙◌, Bool, true, Option, none, some, List, [], ◌∷◌, ◌++◌, Text, ◌⊎◌,
  inl, inr, Dict,
}
use coresmos.Errors.{Result, ok, raise, adapter_error, ◌>>=◌}
use coresmos.Json.{Json}
use coresmos.Contracts.Messages.{ToolCall}
use coresmos.Pipelines.Model.{LowEvent}
use coresmos.Adapter.{
  Chunk, Choice, ToolDelta, ToolFragment, Gathered, gather, gather_choice, delta_of, yielded_by,
  appended, add_deltas, call_of, object_call, assemble_from,
}
use coresmos.Adapter.Fragments.{own, described, found}
use coresmos.Adapter.Indices.{listed}

abbrev calls_in : Option Choice → List ToolDelta
calls_in none = []
calls_in (some c) = c.tool_calls

-- The tool deltas of all chunks, and the text deltas that they yield.
unfoldable pub tool_deltas : List Chunk → List ToolDelta
tool_deltas [] = []
tool_deltas (chunk ∷ chunks) = calls_in chunk.choice ++ tool_deltas chunks

unfoldable pub text_deltas : List Chunk → List LowEvent
text_deltas [] = []
text_deltas (chunk ∷ chunks) = yielded_by chunk.choice ++ text_deltas chunks

abbrev event_text : LowEvent → Text → Text
event_text (LowEvent.text t) rest = t ++ rest
event_text _ rest = rest

-- The text of events, put together.
unfoldable pub text_of : List LowEvent → Text
text_of [] = []
text_of (e ∷ es) = event_text e (text_of es)

unfoldable pub gather_all : List Chunk → Gathered → Gathered
unfolding gather
gather_all [] g = g
gather_all (chunk ∷ chunks) g = gather_all chunks (gather chunk g)

add_deltas-append :
    (xs ys : List ToolDelta) (tools : Dict ℕ ToolFragment)
    → add_deltas (xs ++ ys) tools ≡ add_deltas ys (add_deltas xs tools)
unfolding add_deltas
add_deltas-append [] ys tools = refl
add_deltas-append (x ∷ xs) ys tools = add_deltas-append xs ys _

tools-gather :
    (choice : Option Choice) (g : Gathered)
    → (gather_choice choice g).tools ≡ add_deltas (calls_in choice) g.tools
unfolding add_deltas
tools-gather none g = refl
tools-gather (some c) g = refl

pub tools-gather_all :
    (chunks : List Chunk) (g : Gathered)
    → (gather_all chunks g).tools ≡ add_deltas (tool_deltas chunks) g.tools
unfolding gather_all tool_deltas gather add_deltas
tools-gather_all [] g = refl
tools-gather_all (chunk ∷ chunks) g =
    tools-gather_all chunks (gather chunk g)
    ∙ ap (add_deltas (tool_deltas chunks)) (tools-gather chunk.choice _)
    ∙ sym (add_deltas-append (calls_in chunk.choice) (tool_deltas chunks) g.tools)

appended-delta :
    (old : Text) (content : Option Text) (es : List LowEvent)
    → appended old content ++ text_of es ≡ old ++ text_of (delta_of content ++ es)
unfolding text_of
appended-delta old none es = refl
appended-delta old (some []) es = ap (λ t. t ++ text_of es) (append-nil old)
appended-delta old (some (c ∷ cs)) es = append_assoc old (c ∷ cs) (text_of es)

text-gather :
    (choice : Option Choice) (g : Gathered) (es : List LowEvent)
    → (gather_choice choice g).text ++ text_of es ≡ g.text ++ text_of (yielded_by choice ++ es)
text-gather none g es = refl
text-gather (some c) g es = appended-delta g.text c.content es

pub text-gather_all :
    (chunks : List Chunk) (g : Gathered)
    → (gather_all chunks g).text ≡ g.text ++ text_of (text_deltas chunks)
unfolding gather_all text_deltas gather text_of
text-gather_all [] g = sym (append-nil g.text)
text-gather_all (chunk ∷ chunks) g =
    text-gather_all chunks (gather chunk g) ∙ text-gather chunk.choice _ (text_deltas chunks)

module _ (is_space : ℕ → Bool) (loads : Text → Option Json) where
  -- The calls that the deltas of the listed indices make.
  pub data CallsOf (ds : List ToolDelta) : List ℕ → List ToolCall → Type 0 where
    no_call : CallsOf ds [] []
    call :
        {i : ℕ} {is : List ℕ} {c : ToolCall} {cs : List ToolCall}
        → call_of is_space loads i (described (own i ds)) ≡ ok c
        → CallsOf ds is cs
        → CallsOf ds (i ∷ is) (c ∷ cs)

  -- An index whose deltas make no call.
  abbrev pub NoCall : List ToolDelta → ℕ → Type 0
  NoCall ds i = call_of is_space loads i (described (own i ds)) ≡ raise adapter_error

  pub data Assembled (ds : List ToolDelta) (is : List ℕ) : Result (List ToolCall) → Type 0 where
    assembled : {cs : List ToolCall} → CallsOf ds is cs → Assembled ds is (ok cs)
    invalid : (i : ℕ) → listed i is ≡ true → NoCall ds i → Assembled ds is (raise adapter_error)

  object_call-ends :
      (i : ℕ) (f : ToolFragment) (parsed : Option Json)
      → ((c : ToolCall) × (object_call is_space loads i f parsed ≡ ok c))
        ⊎ (object_call is_space loads i f parsed ≡ raise adapter_error)
  object_call-ends i f (some (Json.obj arguments)) = inl (_, refl)
  object_call-ends i f (some Json.null) = inr refl
  object_call-ends i f (some (Json.bool b)) = inr refl
  object_call-ends i f (some (Json.int n)) = inr refl
  object_call-ends i f (some (Json.str t)) = inr refl
  object_call-ends i f (some (Json.arr xs)) = inr refl
  object_call-ends i f none = inr refl

  call_of-ends :
      (i : ℕ) (f : ToolFragment)
      → ((c : ToolCall) × (call_of is_space loads i f ≡ ok c))
        ⊎ (call_of is_space loads i f ≡ raise adapter_error)
  unfolding call_of
  call_of-ends i f = object_call-ends i f _

  module _ (ds : List ToolDelta) where
    listed-tail : (i j : ℕ) (is : List ℕ) → listed i is ≡ true → listed i (j ∷ is) ≡ true
    unfolding listed
    listed-tail i j is h = ground (arith, h)

    listed-head : (i : ℕ) (is : List ℕ) → listed i (i ∷ is) ≡ true
    unfolding listed
    listed-head i is = ground arith

    pub assemble_from-Assembled :
        (is : List ℕ) → Assembled ds is (assemble_from is_space loads is (add_deltas ds []))
    unfolding assemble_from
    assemble_from-Assembled [] = assembled no_call
    assemble_from-Assembled (i ∷ is) =
        rw (found i ds) (elim (call_of-ends i (described (own i ds))) [
          | inl (c, e) ↦ rw e (with_call c e (assemble_from-Assembled is))
          | inr e ↦ rw e (invalid i (listed-head i is) e)
        ])
      where
        with_call :
            (c : ToolCall)
            → call_of is_space loads i (described (own i ds)) ≡ ok c
            → {r : Result (List ToolCall)} → Assembled ds is r
            → Assembled ds (i ∷ is) (r >>= λ cs. ok (c ∷ cs))
        with_call c e (assembled cs) = assembled (call e cs)
        with_call c e (invalid j h k) = invalid j (listed-tail j i is h) k
