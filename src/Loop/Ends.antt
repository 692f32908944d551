-- ===== src/Loop/Ends.antt =====
-- A run with a limit of steps ends.
use mathlib.Core.Bool.{false≢true}
use coresmos.Prelude.{
  ℕ, zero, suc, ◌+◌, ◌≤◌, ◌<◌, ◌≡◌, refl, ap, Bool, true, false, some, ◌++◌, Text, arith, inl, inr,
}
use coresmos.Errors.{Result, ok, raise, Result-cases}
use coresmos.Contracts.Flows.{ExecutionLimits}
use coresmos.Loop.Allocation.{StepIdentity, Counters, check_allocate, next, identity}
use coresmos.Loop.Turns.{
  ExecutionPorts, ExecutionEntry, Next, go_on, leave, Yielding, allocate_next, allocated_or,
  go_from, run_turns, run, turn, tool_turn, is_found, Ran,
}
use coresmos.Loop.Numbers.{allocated, refused, check_allocate-steps}

module _ {X : Type 0} (run_id : Text) (limits : ExecutionLimits) (ports : ExecutionPorts X) where
  -- The run came to its end.
  abbrev pub HasEnded : Ran run_id limits ports → Type 0
  HasEnded r = is_found r.1 ≡ true

  go_from-HasEnded :
      (y : Yielding X Next) (rest : Ran run_id limits ports)
      → HasEnded rest
      → HasEnded (go_from run_id limits ports y rest)
  go_from-HasEnded (events, raise e) rest h = refl
  go_from-HasEnded (events, ok leave) rest h = refl
  go_from-HasEnded (events, ok go_on) rest h = h

  -- A round ends the run, or the next one starts with one step more, within the limit.
  round-HasEnded :
      (n k : ℕ) (c : Counters) (consume_model : Bool) (body : StepIdentity → Yielding X Next)
      → limits.max_steps ≡ some n
      → ((c' : Counters)
          → c'.step_no ≡ c.step_no + 1
          → c'.step_no ≤ n
          → HasEnded (run_turns run_id limits ports k c'))
      → HasEnded (
          allocated_or run_id limits ports
            (allocate_next run_id limits ports consume_model c).0
            (λ i. go_from run_id limits ports (body i) (
              run_turns run_id limits ports k
                (allocate_next run_id limits ports consume_model c).1)))
  round-HasEnded n k c consume_model body limit more =
      elim (Result-cases
        (check_allocate run_id limits (ports.stop c) (ports.budget c) consume_model c)) [
          | inl (_, e) ↦
              let c' = next run_id limits consume_model c in
              let within : c'.step_no ≤ n =
                check_allocate-steps run_id limits n (ports.stop c) (ports.budget c) consume_model c
                  limit e in
              rw (allocated run_id limits (ports.stop c) (ports.budget c) consume_model c e) (
                go_from-HasEnded (body (identity run_id limits c'))
                  (run_turns run_id limits ports k c') (more c' refl within))
          | inr (error, e) ↦
              rw (refused run_id limits (ports.stop c) (ports.budget c) consume_model c error e)
                refl
        ]

  run_turns-HasEnded :
      (n k : ℕ) (c : Counters)
      → limits.max_steps ≡ some n
      → 0 < k
      → n < k + c.step_no
      → HasEnded (run_turns run_id limits ports k c)
  unfolding run_turns
  run_turns-HasEnded n zero c limit h enough = absurd (omega arith)
  run_turns-HasEnded n (suc k) c limit h enough =
      round-HasEnded n k c true (turn run_id limits ports) limit
        (λ c' e within. run_turns-HasEnded n k c' limit (omega arith) (omega arith))

  -- With a limit of `n` steps, from any entry, any answers of the ports and any counters, `n` rounds
  -- and one more bring the run to its end: it returns or raises.
  pub run-HasEnded :
      (n : ℕ) (entry : ExecutionEntry) (c : Counters)
      → limits.max_steps ≡ some n
      → HasEnded (run run_id limits ports (n + 1) entry c)
  unfolding run
  run-HasEnded n ExecutionEntry.completed c limit = refl
  run-HasEnded n ExecutionEntry.model c limit =
      run_turns-HasEnded n (n + 1) c limit (omega arith) (omega arith)
  run-HasEnded n (ExecutionEntry.tool_batch entry) c limit =
      round-HasEnded n (n + 1) c false (tool_turn run_id limits ports entry) limit
        (λ c' e within. run_turns-HasEnded n (n + 1) c' limit (omega arith) (omega arith))

  go_from-more :
      (y : Yielding X Next) (rest rest' : Ran run_id limits ports)
      → (HasEnded rest → rest' ≡ rest)
      → HasEnded (go_from run_id limits ports y rest)
      → go_from run_id limits ports y rest' ≡ go_from run_id limits ports y rest
  go_from-more (events, raise e) rest rest' same h = refl
  go_from-more (events, ok leave) rest rest' same h = refl
  go_from-more (events, ok go_on) rest rest' same h = ap (λ r. (events ++ r.0, r.1)) (same h)

  allocated_or-more :
      (given : Result StepIdentity) (body : StepIdentity → Yielding X Next)
      (rest rest' : Ran run_id limits ports)
      → (HasEnded rest → rest' ≡ rest)
      → HasEnded
          (allocated_or run_id limits ports given (λ i. go_from run_id limits ports (body i) rest))
      → allocated_or run_id limits ports given (λ i. go_from run_id limits ports (body i) rest')
        ≡ allocated_or run_id limits ports given (λ i. go_from run_id limits ports (body i) rest)
  allocated_or-more (raise e) body rest rest' same h = refl
  allocated_or-more (ok i) body rest rest' same h = go_from-more (body i) rest rest' same h

  run_turns-more :
      (k m : ℕ) (c : Counters)
      → k ≤ m
      → HasEnded (run_turns run_id limits ports k c)
      → run_turns run_id limits ports m c ≡ run_turns run_id limits ports k c
  unfolding run_turns
  run_turns-more zero m c le h = absurd (false≢true h)
  run_turns-more (suc k) zero c le h = absurd (omega arith)
  run_turns-more (suc k) (suc m) c le h =
      let (given, c') = allocate_next run_id limits ports true c in
      allocated_or-more given (turn run_id limits ports) (run_turns run_id limits ports k c')
        (run_turns run_id limits ports m c') (run_turns-more k m c' (omega arith)) h

  -- Once the rounds bring a run to its end, more rounds yield the same and end the same.
  pub run-more :
      (k m : ℕ) (entry : ExecutionEntry) (c : Counters)
      → k ≤ m
      → HasEnded (run run_id limits ports k entry c)
      → run run_id limits ports m entry c ≡ run run_id limits ports k entry c
  unfolding run
  run-more k m ExecutionEntry.completed c le h = refl
  run-more k m ExecutionEntry.model c le h = run_turns-more k m c le h
  run-more k m (ExecutionEntry.tool_batch entry) c le h =
      let (given, c') = allocate_next run_id limits ports false c in
      allocated_or-more given (tool_turn run_id limits ports entry)
        (run_turns run_id limits ports k c') (run_turns run_id limits ports m c')
        (run_turns-more k m c' le) h
