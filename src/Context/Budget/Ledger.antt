-- ===== src/Context/Budget/Ledger.antt =====
-- `ExecutionBudgetLedger` of src/agent_runtime/context/budget.py: a run's cumulative estimate.
use coresmos.Prelude.{
  ℕ, ◌+◌, ◌<◌, ◌≡◌, ◌↔◌, refl, ltb, leb, if◌then◌else◌, Bool, false, Option, none, some, List, [],
  ◌∷◌, arith,
}
use coresmos.Errors.{Result, ok, raise, budget_exhausted_error}
use coresmos.Contracts.Flows.{ExecutionLimits, ConsumedBudget}

pub record ExecutionBudgetLedger : Type 0 where
  pub limit : Option ℕ
  pub reserved : ℕ

abbrev pub exceeds : Option ℕ → ℕ → Bool
exceeds none n = false
exceeds (some l) n = ltb l n

abbrev pub reaches : Option ℕ → ℕ → Bool
reaches none n = false
reaches (some l) n = leb l n

unfoldable pub raise_if_exhausted : ExecutionBudgetLedger → Result (Unit {0})
raise_if_exhausted b = if reaches b.limit b.reserved then raise budget_exhausted_error else ok tt

-- The new ledger; a refused reservation leaves the old one.
unfoldable pub reserve : ℕ → ExecutionBudgetLedger → Result (Unit {0}) × ExecutionBudgetLedger
reserve n b =
    if exceeds b.limit (b.reserved + n)
    then (raise budget_exhausted_error, b)
    else (ok tt, record b { reserved = b.reserved + n })

unfoldable pub execution_budget : ExecutionLimits → ConsumedBudget → ExecutionBudgetLedger
execution_budget limits consumed = record {
  limit = limits.max_estimated_tokens;
  reserved = consumed.estimated_tokens;
}

-- The reservations of a run, one after the other, and the sum of those that were granted.
unfoldable pub reserve_all : List ℕ → ExecutionBudgetLedger → ExecutionBudgetLedger × ℕ
unfolding reserve
reserve_all [] b = (b, 0)
reserve_all (n ∷ ns) b =
    let (granted, b') = reserve n b in
    let (b'', total) = reserve_all ns b' in
    elim granted [ ok _ ↦ (b'', n + total) | raise _ ↦ (b'', total) ]

abbrev pub Fits : ExecutionBudgetLedger → Type 0
Fits b = exceeds b.limit b.reserved ≡ false

-- Whatever is asked for, in whatever order: the ledger holds what it started with and exactly the
-- granted estimates, keeps its limit, and does not pass the limit if it did not start above it.
pub reserve_all-Fits :
    (ns : List ℕ) (b : ExecutionBudgetLedger)
    → Fits b
    → ((reserve_all ns b).0.reserved ≡ b.reserved + (reserve_all ns b).1)
      × ((reserve_all ns b).0.limit ≡ b.limit)
      × Fits (reserve_all ns b).0
unfolding reserve_all reserve
reserve_all-Fits [] b h = (omega arith, refl, h)
reserve_all-Fits (n ∷ ns) b h = ground (arith, reserve_all-Fits ns (reserve n b).1 (ground arith))

-- A reservation is refused exactly when it would pass the limit, and then nothing is reserved.
pub reserve-refused_iff :
    (n l : ℕ) (b : ExecutionBudgetLedger)
    → b.limit ≡ some l
    → (reserve n b ≡ (raise budget_exhausted_error, b)) ↔ (l < b.reserved + n)
unfolding reserve
reserve-refused_iff n l b e = ground arith

-- A run that was let in has room for at least one token.
pub raise_if_exhausted-room :
    (b : ExecutionBudgetLedger) → (raise_if_exhausted b ≡ ok tt) ↔ ((reserve 1 b).0 ≡ ok tt)
unfolding raise_if_exhausted reserve
raise_if_exhausted-room b = ground arith
