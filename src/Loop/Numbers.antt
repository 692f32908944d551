-- ===== src/Loop/Numbers.antt =====
-- The numbers that a run gives to its steps.
use coresmos.Prelude.{
  take, none, ◌&&◌, ◌||◌, ℕ, some, ◌+◌, ◌≤◌, ◌≡◌, refl, ltb, if◌then◌else◌, Bool, true, false, not,
  Option, List, [], ◌∷◌, Text, length, arith, inl, inr, Bool-cases,
}
use coresmos.Errors.{
  Error, ok, raise, require, Result-cases, >>-returns, require-returns, budget_exhausted_error,
}
use coresmos.Contracts.Enums.{StopReason}
use coresmos.Contracts.Flows.{ExecutionLimits}
use coresmos.Context.Budget.Ledger.{ExecutionBudgetLedger, raise_if_exhausted, exceeds, reaches}
use coresmos.Loop.Allocation.{
  StepIdentity, Counters, raise_if_stopped, check_model, check_allocate, allocate, next, identity,
}

-- One request for a number: the reason to stop at that time, the ledger at that time, and whether the
-- model is asked.
pub record Request : Type 0 where
  pub stop : Option StopReason
  pub budget : ExecutionBudgetLedger
  pub consume_model : Bool

abbrev goes_on : Option StopReason → Bool
goes_on none = true
goes_on (some reason) = false

-- The model rounds that a request takes, and those that several take.
abbrev rounds_of : Request → ℕ
rounds_of r = if r.consume_model then 1 else 0

abbrev rounds_in : List Request → ℕ
rounds_in [] = 0
rounds_in (r ∷ rs) = rounds_of r + rounds_in rs

module _ (run_id : Text) (limits : ExecutionLimits) where
  -- The identities that are given until the first exception, and the counters at the end.
  unfoldable pub allocate_all : List Request → Counters → List StepIdentity × Counters
  unfolding allocate
  allocate_all [] c = ([], c)
  allocate_all (r ∷ rs) c =
      let (given, c') = allocate run_id limits r.stop r.budget r.consume_model c in
      let (more, last) = allocate_all rs c' in
      elim given [ raise e ↦ ([], c) | ok i ↦ (i ∷ more, last) ]

  -- The run is not to stop and has a step left, and if the model is asked, an attempt, tokens and a
  -- model round are left.
  abbrev allowed : Request → Counters → Bool
  allowed r c =
      goes_on r.stop
      && (not (exceeds limits.max_steps (c.step_no + 1))
          && (not r.consume_model
              || (ltb 0 limits.recovery.remaining_attempts
                  && (not (reaches r.budget.limit r.budget.reserved)
                      && not (exceeds limits.max_model_rounds (c.model_rounds + 1))))))

  -- The identities are given to the first requests, as long as they are allowed: each has the next
  -- number of a step, and the next model round exactly if the model is asked.
  pub Counted : List Request → Counters → List StepIdentity → Counters → Type 0
  Counted [] c [] last = c ≡ last
  Counted [] c (i ∷ is) last = ⊥
  Counted (r ∷ rs) c [] last = (allowed r c ≡ false) × (c ≡ last)
  Counted (r ∷ rs) c (i ∷ is) last =
      (allowed r c ≡ true)
      × (i.run_id ≡ run_id)
      × (i.step_no ≡ c.step_no + 1)
      × (i.model_round ≡ c.model_rounds + rounds_of r)
      × Counted rs (record { step_no = i.step_no; model_rounds = i.model_round }) is last

  -- The counters are within the limits of the run.
  pub record IsWithin (c : Counters) : Type 0 where
    pub steps : exceeds limits.max_steps c.step_no ≡ false
    pub rounds : exceeds limits.max_model_rounds c.model_rounds ≡ false

  -- Where the checks let a request through, the next counters are within the limits.
  check_allocate-IsWithin :
      (stop : Option StopReason) (budget : ExecutionBudgetLedger) (consume_model : Bool)
      (c : Counters)
      → IsWithin c
      → check_allocate run_id limits stop budget consume_model c ≡ ok tt
      → IsWithin (next run_id limits consume_model c)
  unfolding check_allocate check_model raise_if_stopped raise_if_exhausted
  check_allocate-IsWithin stop budget consume_model c w h =
      let (_, h1) = >>-returns (raise_if_stopped stop) _ tt h in
      let (steps_ok, h2) =
        >>-returns (require (not (exceeds limits.max_steps (c.step_no + 1))) budget_exhausted_error)
          _ tt h1 in
      elim (Bool-cases consume_model) [
        | inl e ↦
            let (_, h3) =
              >>-returns (require (ltb 0 limits.recovery.remaining_attempts) budget_exhausted_error)
                _ tt (rw e at h2) in
            let (_, h4) = >>-returns (raise_if_exhausted budget) _ tt h3 in
            rw e (record { steps = held _ steps_ok; rounds = held _ h4 })
        | inr e ↦ rw e (record { steps = held _ steps_ok; rounds = w.rounds })
      ]
    where
      held : (b : Bool) → require (not b) budget_exhausted_error ≡ ok tt → b ≡ false
      held true p = cc
      held false p = refl

  -- The next step is within a limit of `n`.
  pub check_allocate-steps :
      (n : ℕ) (stop : Option StopReason) (budget : ExecutionBudgetLedger) (consume_model : Bool)
      (c : Counters)
      → limits.max_steps ≡ some n
      → check_allocate run_id limits stop budget consume_model c ≡ ok tt
      → c.step_no + 1 ≤ n
  unfolding check_allocate
  check_allocate-steps n stop budget consume_model c limit h =
      let (_, h1) = >>-returns (raise_if_stopped stop) _ tt h in
      let (steps_ok, _) =
        >>-returns (require (not (exceeds limits.max_steps (c.step_no + 1))) budget_exhausted_error)
          _ tt h1 in
      ground (arith, require-returns _ budget_exhausted_error steps_ok)

  pub allocated :
      (stop : Option StopReason) (budget : ExecutionBudgetLedger) (consume_model : Bool)
      (c : Counters)
      → check_allocate run_id limits stop budget consume_model c ≡ ok tt
      → allocate run_id limits stop budget consume_model c ≡ (
        ok (identity run_id limits (next run_id limits consume_model c)),
        next run_id limits consume_model c,
      )
  unfolding allocate
  allocated stop budget consume_model c e = rw (e, allocate)

  pub refused :
      (stop : Option StopReason) (budget : ExecutionBudgetLedger) (consume_model : Bool)
      (c : Counters) (error : Error)
      → check_allocate run_id limits stop budget consume_model c ≡ raise error
      → allocate run_id limits stop budget consume_model c ≡ (raise error, c)
  unfolding allocate
  refused stop budget consume_model c error e = rw (e, allocate)

  -- The checks let exactly the allowed requests through.
  check_allocate-allowed :
      (r : Request) (c : Counters) (t : Unit {0})
      → check_allocate run_id limits r.stop r.budget r.consume_model c ≡ ok t
      → allowed r c ≡ true
  unfolding check_allocate check_model raise_if_stopped raise_if_exhausted
  check_allocate-allowed r c t h = ground (arith, h)

  check_allocate-not_allowed :
      (r : Request) (c : Counters) (e : Error)
      → check_allocate run_id limits r.stop r.budget r.consume_model c ≡ raise e
      → allowed r c ≡ false
  unfolding check_allocate check_model raise_if_stopped raise_if_exhausted
  check_allocate-not_allowed r c e h = ground (arith, h)

  -- What comes of a sequence of requests.
  pub record IsCounted (requests : List Request) (c : Counters)
      (result : List StepIdentity × Counters) : Type 0 where
    pub counted : Counted requests c result.0 result.1
    pub within : IsWithin result.1
    pub steps : result.1.step_no ≡ c.step_no + length result.0
    pub rounds :
        result.1.model_rounds ≡ c.model_rounds + rounds_in (take (length result.0) requests)

  first_given :
      (r : Request) (rs : List Request) (c : Counters) (rest : List StepIdentity × Counters)
      → allowed r c ≡ true
      → IsCounted rs (next run_id limits r.consume_model c) rest
      → IsCounted
          (r ∷ rs)
          c
          (identity run_id limits (next run_id limits r.consume_model c) ∷ rest.0, rest.1)
  unfolding Counted
  first_given r rs c rest a k = record {
    counted = (a, refl, refl, round, k.counted);
    within = k.within;
    steps = omega (arith, k.steps);
    rounds = omega (arith, k.rounds, round);
  }
    where
      round :
          (if r.consume_model then c.model_rounds + 1 else c.model_rounds)
          ≡ c.model_rounds + rounds_of r
      round = ground arith

  -- A run whose counters are within its limits gives numbers to the first requests, as long as they
  -- are allowed: consecutive ones to the steps, and the next model round to a step exactly if it asks
  -- the model. The counters end within the limits, whatever stops, ledgers and kinds of step come; they
  -- moved by the steps that were given, and by those of them that ask the model.
  pub allocate_all-IsCounted :
      (requests : List Request) (c : Counters)
      → IsWithin c
      → IsCounted requests c (allocate_all requests c)
  unfolding allocate_all Counted
  allocate_all-IsCounted [] c w = record {
    counted = refl;
    within = w;
    steps = omega arith;
    rounds = omega arith;
  }
  allocate_all-IsCounted (r ∷ rs) c w =
      elim (Result-cases (check_allocate run_id limits r.stop r.budget r.consume_model c)) [
        | inl (t, e) ↦
            rw
              (
                allocate_all,
                allocated r.stop r.budget r.consume_model c e,
                allocated r.stop r.budget r.consume_model c e,
              )
              (first_given r rs c (allocate_all rs (next run_id limits r.consume_model c))
                (check_allocate-allowed r c t e)
                (allocate_all-IsCounted rs (next run_id limits r.consume_model c)
                  (check_allocate-IsWithin r.stop r.budget r.consume_model c w e)))
        | inr (error, e) ↦
            rw (allocate_all, refused r.stop r.budget r.consume_model c error e)
              (record {
                counted = (check_allocate-not_allowed r c error e, refl);
                within = w;
                steps = omega arith;
                rounds = omega arith;
              })
      ]
