-- ===== src/Context/Preparing.antt =====
-- `DefaultStepProvider.prepare` of src/agent_runtime/context/manager.py. The compressor and the key of a
-- projection, which is made of digests, are parameters.
use coresmos.Prelude.{
  ℕ, ◌≤◌, ltb, ◌≡◌, refl, sym, ◌∙◌, Bool, not, Option, none, some, List, [], ◌∷◌, ◌++◌, Text, Dict,
  arith, inl, inr,
}
use coresmos.Errors.{
  Error, Result, ok, raise, require, ◌>>=◌, ◌>>◌, >>=-returns, >>-returns, require-returns,
  Result-cases, context_budget_error,
}
use coresmos.Json.{Fields}
use coresmos.Contracts.Enums.{Role}
use coresmos.Contracts.Messages.{Message}
use coresmos.Contracts.Receipts.{RecordTarget}
use coresmos.Contracts.Flows.{RecoveryBudget}
use coresmos.Contracts.Capabilities.{ContextContribution}
use coresmos.Contracts.Steps.{StepIdentity, ModelConfig, ToolChoice, PreparedStep}
use coresmos.Context.Pairing.{pair_tool_messages}
use coresmos.Context.Budget.{
  TokenBudgetPolicy, available_for_prompt, estimate_messages, estimate_model_attempt,
}
use coresmos.Context.Budget.Prompt.{attempt-le-max_prompt_tokens}
use coresmos.Context.Merging.{merge_contributions}
use coresmos.Context.Provider.{
  Reading, ApplicationSnapshot, Snapshots, read_consistent, Projections, project,
}
use coresmos.Context.Contributors.{ContextContributor, Cached, collect}

-- What a provider keeps between two steps.
pub record ProviderState : Type 0 where
  pub projections : Projections
  pub contributor_cache : Dict ℕ Cached

-- What the provider reads of the run for one step.
pub record StepView : Type 0 where
  pub record_target : RecordTarget
  pub model : ModelConfig
  pub tool_choice : ToolChoice
  pub recovery : RecoveryBudget
  pub deadline_monotonic : Option ℕ
  pub extra_contributions : List ContextContribution
  pub contributors : ApplicationSnapshot → List ContextContributor

-- `Message(role=Role.SYSTEM, content=item.content, name=item.source) ... if item.content`
unfoldable pub system_messages : List ContextContribution → List Message
system_messages [] = []
system_messages (c ∷ cs) = elim c.content [
  | [] ↦ system_messages cs
  | t ∷ ts ↦
      record {
        role = Role.system;
        content = some c.content;
        tool_calls = [];
        tool_call_id = none;
        name = some c.source;
        reasoning = none;
        message_id = none;
      }
      ∷ system_messages cs
]

module _ (str_dict : Fields → Text) (budget : TokenBudgetPolicy)
    (compress : ℕ → List Message → Result (List Message × Bool))
    (projection_key : Snapshots → List ContextContribution → List Message → ℕ → Text)
    (view : StepView) (identity : StepIdentity) where
  -- The step, of a view of the prompt and its estimates.
  abbrev pub step_from :
      Snapshots → List ContextContribution → List Message × Bool → ℕ → ℕ → PreparedStep
  step_from (snapshot, capabilities, application) merged (messages, compressed) estimated attempt =
      record {
        identity = identity;
        record_target = view.record_target;
        request = record {
          messages = messages;
          tools = capabilities.tools;
          model = view.model;
          tool_choice = view.tool_choice;
          recovery = view.recovery;
          deadline_monotonic = view.deadline_monotonic;
        };
        capabilities = capabilities;
        context_version = record {
          history_version = snapshot.version;
          capability_version = capabilities.version;
          application_version = application.version;
          target = view.record_target;
        };
        estimated_tokens = attempt;
        context = some (record {
          messages = messages;
          contributions = merged;
          estimated_tokens = estimated;
          compressed = compressed;
        });
      }

  -- `if estimated > available: raise ContextBudgetError(...)`
  abbrev check_fits : ℕ → ℕ → Result (Unit {0})
  check_fits available estimated = require (not (ltb available estimated)) context_budget_error

  -- What follows the projection.
  unfoldable pub finish_step :
      Snapshots → List ContextContribution → ℕ → Result (List Message × Bool) → Result PreparedStep
  finish_step snapshots merged available projected = do
    shown ← projected
    estimated ← estimate_messages str_dict budget.estimator 0 shown.0
    check_fits available estimated
    attempt ← estimate_model_attempt str_dict budget shown.0 snapshots.1.tools
    ok (step_from snapshots merged shown estimated attempt)

  -- The prompt of a step, projected into what is available.
  abbrev projected_of :
      Snapshots
      → List ContextContribution
      → ℕ
      → Projections
      → Result (List Message × Bool) × Projections
  projected_of snapshots contributed available projections =
      let merged = merge_contributions contributed in
      let prompt = system_messages merged ++ pair_tool_messages snapshots.0.messages in
      project view.record_target (compress available) prompt
        (projection_key snapshots merged prompt available) projections

  -- What follows the contributions: the prompt is projected into what the tools leave of the budget.
  unfoldable pub prepare_from :
      Snapshots → List ContextContribution → ProviderState → Result PreparedStep × ProviderState
  unfolding finish_step system_messages merge_contributions
  prepare_from snapshots contributed s =
      elim (available_for_prompt str_dict budget snapshots.1.tools) [
        | raise e ↦ (raise e, s)
        | ok available ↦
            let (projected, projections) =
              projected_of snapshots contributed available s.projections in
            (
              finish_step snapshots (merge_contributions contributed) available projected,
              record s { projections = projections },
            )
      ]

  abbrev pub with_collected :
      Snapshots
      → Result (List ContextContribution) × Dict ℕ Cached
      → ProviderState
      → Result PreparedStep × ProviderState
  with_collected snapshots (raise e, cache) s = (raise e, record s { contributor_cache = cache })
  with_collected snapshots (ok collected, cache) s =
      prepare_from snapshots (snapshots.1.contributions ++ view.extra_contributions ++ collected)
        (record s { contributor_cache = cache })

  -- `prepare`
  unfoldable pub prepare : (ℕ → Reading) → ProviderState → Result PreparedStep × ProviderState
  unfolding prepare_from
  prepare read s = elim (read_consistent read) [
    | raise e ↦ (raise e, s)
    | ok snapshots ↦
        with_collected snapshots (collect 0 (view.contributors snapshots.2) s.contributor_cache) s
  ]

  ok_injective {ℓ} : {A : Type ℓ} (a b : A) → ◌≡◌ {A = Result A} (ok a) (ok b) → a ≡ b
  ok_injective a b h = cc

  -- A step that was prepared: it names the versions of one consistent reading, and its view costs no
  -- more than the tools leave, and with them no more than the prompt budget.
  pub record IsPrepared (read : ℕ → Reading) (step : PreparedStep) : Type 0 where
    pub snapshots : Snapshots
    pub consistent : read_consistent read ≡ ok snapshots
    pub contributed : List ContextContribution
    pub shown : List Message × Bool
    pub available : ℕ
    pub granted : available_for_prompt str_dict budget snapshots.1.tools ≡ ok available
    pub estimated : ℕ
    pub costs : estimate_messages str_dict budget.estimator 0 step.request.messages ≡ ok estimated
    pub fits : estimated ≤ available
    pub attempt_fits : step.estimated_tokens ≤ budget.max_prompt_tokens
    pub same_step :
        step
        ≡ step_from snapshots
            (merge_contributions contributed)
            shown
            estimated
            step.estimated_tokens

  step_from-IsPrepared :
      (read : ℕ → Reading) (snapshots : Snapshots) (contributed : List ContextContribution)
      (available : ℕ) (shown : List Message × Bool) (estimated attempt : ℕ)
      → read_consistent read ≡ ok snapshots
      → available_for_prompt str_dict budget snapshots.1.tools ≡ ok available
      → estimate_messages str_dict budget.estimator 0 shown.0 ≡ ok estimated
      → check_fits available estimated ≡ ok tt
      → estimate_model_attempt str_dict budget shown.0 snapshots.1.tools ≡ ok attempt
      → IsPrepared read
          (step_from snapshots (merge_contributions contributed) shown estimated attempt)
  step_from-IsPrepared read snapshots contributed available shown estimated attempt agree granted
        costs holds spends =
      let small = require-returns (not (ltb available estimated)) context_budget_error holds in
      let fits : estimated ≤ available = ground (arith, small) in
      let (total, same, le) =
        attempt-le-max_prompt_tokens str_dict budget snapshots.1.tools shown.0 available estimated
          granted costs fits in
      record {
        snapshots = snapshots;
        consistent = agree;
        contributed = contributed;
        shown = shown;
        available = available;
        granted = granted;
        estimated = estimated;
        costs = costs;
        fits = fits;
        attempt_fits = rw (ok_injective attempt total (sym spends ∙ same)) le;
        same_step = refl;
      }

  finish_step-IsPrepared :
      (read : ℕ → Reading) (snapshots : Snapshots) (contributed : List ContextContribution)
      (available : ℕ) (projected : Result (List Message × Bool)) (step : PreparedStep)
      → read_consistent read ≡ ok snapshots
      → available_for_prompt str_dict budget snapshots.1.tools ≡ ok available
      → finish_step snapshots (merge_contributions contributed) available projected ≡ ok step
      → IsPrepared read step
  unfolding finish_step
  finish_step-IsPrepared read snapshots contributed available projected step agree granted h =
      let (shown, _, h1) = >>=-returns projected _ h in
      let (estimated, costs, h2) =
        >>=-returns (estimate_messages str_dict budget.estimator 0 shown.0) _ h1 in
      let (holds, h3) = >>-returns (check_fits available estimated) _ step h2 in
      let (attempt, spends, same) =
        >>=-returns (estimate_model_attempt str_dict budget shown.0 snapshots.1.tools) _ h3 in
      rw (← ok_injective _ step same) (
        step_from-IsPrepared read snapshots contributed available shown estimated attempt agree
          granted costs holds spends)

  prepare-IsPrepared :
      (read : ℕ → Reading) (s : ProviderState) (step : PreparedStep)
      → (prepare read s).0 ≡ ok step
      → IsPrepared read step
  unfolding prepare prepare_from
  prepare-IsPrepared read s step h = elim (Result-cases (read_consistent read)) [
    | inr (e, p) ↦ absurd (cc (rw (p, prepare) at h))
    | inl (snapshots, p) ↦
        from_collected snapshots p (collect 0 (view.contributors snapshots.2) s.contributor_cache)
          (rw (p, prepare) at h)
  ]
    where
      from_collected :
          (snapshots : Snapshots)
          → read_consistent read ≡ ok snapshots
          → (collected : Result (List ContextContribution) × Dict ℕ Cached)
          → (with_collected snapshots collected s).0 ≡ ok step
          → IsPrepared read step
      from_collected snapshots p (raise e, cache) k = cc
      from_collected snapshots p (ok items, cache) k =
          elim (Result-cases (available_for_prompt str_dict budget snapshots.1.tools)) [
            | inr (e, q) ↦ absurd (cc (rw (q, prepare_from) at k))
            | inl (available, q) ↦
                finish_step-IsPrepared read snapshots
                  (snapshots.1.contributions ++ view.extra_contributions ++ items) available
                  (projected_of snapshots
                    (snapshots.1.contributions ++ view.extra_contributions ++ items) available
                    s.projections).0
                  step p q (rw (q, prepare_from) at k)
          ]

  -- `prepare` raises, or returns a prepared step.
  pub data Prepares (read : ℕ → Reading) : Result PreparedStep → Type 0 where
    refused : (e : Error) → Prepares read (raise e)
    prepared : (step : PreparedStep) → IsPrepared read step → Prepares read (ok step)

  -- Preparing a step raises, or it gives a step that starts from consistent versions, which it names;
  -- its messages are measured, cost no more than the tools leave of the prompt budget, and the whole
  -- attempt is within that budget, whatever the compressor and the contributors answer.
  pub prepare-Prepares : (read : ℕ → Reading) (s : ProviderState) → Prepares read (prepare read s).0
  prepare-Prepares read s = elim (Result-cases (prepare read s).0) [
    | inr (e, p) ↦ rw p (refused e)
    | inl (step, p) ↦ rw p (prepared step (prepare-IsPrepared read s step p))
  ]
