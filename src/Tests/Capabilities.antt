-- ===== src/Tests/Capabilities.antt =====
-- The theorems on bindings, sessions, resolvers and run control at concrete inputs.
use coresmos.Prelude.{◌≡◌, refl, true, none, some, [], ◌∷◌, codes, Dict, Text, get, arith}
use coresmos.Json.{Fields}
use coresmos.Errors.{Result, ok}
use coresmos.Contracts.Enums.{StopReason}
use coresmos.Contracts.Messages.{ToolSpec}
use coresmos.Capabilities.Bindings
use coresmos.Capabilities.Bindings.{BindingSetRef, BindingRegistry, publish, table_of, IsNumbered}
use coresmos.Capabilities.Publishing
use coresmos.Capabilities.Publishing.{Published}
use coresmos.Capabilities.Sessions.{Shared, CapabilitySnapshot, publish_session}
use coresmos.Control
use coresmos.Control.{RunControl, Request, new_control, perform, perform_all, is_set, first_reason}

abbrev no_tables : BindingRegistry
no_tables = record { versions = []; seq = 0 }

no_tables-IsNumbered : IsNumbered no_tables
unfolding get
no_tables-IsNumbered = record { made = λ ref table e. cc }

abbrev shell : Dict Text Text
shell = (codes "shell", codes "local") ∷ []

-- A session whose first snapshot has one tool.
abbrev shell_tool : ToolSpec
shell_tool = record { name = codes "shell"; description = []; parameters = Fields.end }

abbrev begun : CapabilitySnapshot
begun = record {
  version = codes "cap-1";
  tools = shell_tool ∷ [];
  binding_ref = (publish shell no_tables).0;
  contributions = [];
  policy_ref = codes "fixed";
}

abbrev session : Shared
session = (record { current = begun; seq = 1 }, (publish shell no_tables).1)

abbrev accept : ToolSpec → Result (Unit {0})
accept s = ok tt

publish_session-Published_example :
    Published accept
      (shell_tool ∷ [])
      shell
      none
      session
      (publish_session accept (shell_tool ∷ []) shell none session)
publish_session-Published_example =
    Publishing.publish_session-Published accept (shell_tool ∷ []) shell none session
      (Bindings.publish-keeps shell no_tables no_tables-IsNumbered).0

-- A run with a deadline at 5, asked at 7 whether it is to stop.
abbrev timed : RunControl
timed = perform (Request.arm 2 3) (new_control none)

timed_out : is_set 7 timed ≡ true
unfolding is_set perform new_control
timed_out = refl

is_set-stays_example :
    (is_set 9 (perform_all (Request.user_stop ∷ Request.arm 8 8 ∷ []) timed) ≡ true)
    × ((r : StopReason)
        → timed.first ≡ some r
        → first_reason 9 (perform_all (Request.user_stop ∷ Request.arm 8 8 ∷ []) timed) ≡ some r)
is_set-stays_example =
    Control.is_set-stays 7 9 (Request.user_stop ∷ Request.arm 8 8 ∷ []) timed (omega arith)
      timed_out
