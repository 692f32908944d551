-- ===== src/Contracts/Capabilities.antt =====
-- The capabilities of src/agent_runtime/contracts.py: tools with their bindings, and contributions.
use coresmos.Prelude.{ℤ, List, [], ◌∷◌, Option, none, some, ite, Text, Text-discrete}
use coresmos.Contracts.Enums.{MatchKind}
use coresmos.Contracts.Messages.{ToolSpec}

pub record BindingSetRef : Type 0 where
  pub version : Text

pub record ContextContribution : Type 0 where
  pub source : Text
  pub content : Text
  pub scope : Text
  pub priority : ℤ
  pub dedupe_key : Text

pub record CapabilitySnapshot : Type 0 where
  pub version : Text
  pub tools : List ToolSpec
  pub binding_ref : BindingSetRef
  pub contributions : List ContextContribution
  pub policy_ref : Text

pub record Resolution : Type 0 where
  pub kind : MatchKind
  pub snapshot : Option CapabilitySnapshot
  pub reason : Option Text

-- `CapabilitySnapshot.tool`: the first tool of that name.
unfoldable pub find_tool : Text → List ToolSpec → Option ToolSpec
find_tool name [] = none
find_tool name (s ∷ ss) = ite (Text-discrete s.name name) (some s) (find_tool name ss)
