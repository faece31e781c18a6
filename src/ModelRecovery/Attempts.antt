-- ===== src/ModelRecovery/Attempts.antt =====
-- The loop of provider attempts in the agent loop of src/agent.rs, which acts on the decisions of
-- src/model_response_recovery.rs. The provider is a parameter: what the n-th request comes to. The
-- texts and the calls that a stream delivers are cleared at each attempt, and the loop asks only
-- whether there were any. A sleep is counted in nanoseconds.
pub mod Ends
use fx_rust.Prelude.{
  ℕ, zero, suc, ◌+◌, Bool, true, false, ◌&&◌, List, Option, none, some, if◌then◌else◌,
}
use fx_rust.ModelRecovery.Policy.{
  FailureCause, Delivery, OutputEvidence, ToolEvidence, AttemptState, RetryPacingState, Strategy,
  RequiredAction, Evidence, Decision, definitely_unsent, possibly_sent, no_output, partial, no_tool,
  uncertain, idle, default_attempts, decide, retry_request, continue_response, regenerate_tool,
  continue_after_confirmed_tool, reconcile_tool, pause, stop,
}
use fx_rust.ModelRecovery.Classify.{classify_failure, parse_retry_after}

-- what a request comes to: the stream ends, or it fails with a message
pub data StreamResult : Type 0 where
  finished : StreamResult
  failed : (msg : List ℕ) → (text_is_empty : Bool) → (calls_is_empty : Bool) → StreamResult

pub data LoopEnd : Type 0 where
  answered : LoopEnd
  unclassified : LoopEnd
  gave_up : Strategy → RequiredAction → LoopEnd

pub record Outcome : Type 0 where
  pub end : LoopEnd
  pub requests : ℕ
  pub slept_ns : ℕ

unfoldable pub evidence_of :
    FailureCause → List ℕ → Bool → Bool → AttemptState → RetryPacingState → Evidence
evidence_of cause msg text_is_empty calls_is_empty provider_attempts pacing = record {
  cause = cause;
  delivery = if text_is_empty && calls_is_empty then definitely_unsent else possibly_sent;
  attempts = provider_attempts;
  output = if text_is_empty then no_output else partial;
  tool = if calls_is_empty then no_tool else uncertain;
  pacing = pacing;
  retry_after_seconds = parse_retry_after msg;
  cancelled = false;
}

-- the strategies on which the loop goes on
abbrev pub goes_on : Strategy → Bool
goes_on retry_request = true
goes_on regenerate_tool = true
goes_on continue_response = true
goes_on continue_after_confirmed_tool = true
goes_on reconcile_tool = false
goes_on pause = false
goes_on stop = false

-- `if decision.reserve_provider_attempt { provider_attempts.consumed += 1; }`
abbrev pub reserve : Bool → AttemptState → AttemptState
reserve true attempts = record attempts { consumed = attempts.consumed + 1 }
reserve false attempts = attempts

-- the variables of the loop
pub record LoopState : Type 0 where
  pub attempts : AttemptState
  pub pacing : RetryPacingState
  pub requests : ℕ
  pub slept_ns : ℕ

abbrev pub loop_start : LoopState
loop_start = record { attempts = default_attempts; pacing = idle; requests = 0; slept_ns = 0 }

-- `break` with an outcome, or `continue`
pub data Round : Type 0 where
  breaks : Outcome → Round
  continues : LoopState → Round

unfoldable pub act : LoopState → Decision → Round
act state decision =
    if goes_on decision.strategy
    then continues record {
      attempts = reserve decision.reserve_provider_attempt state.attempts;
      pacing = decision.next_pacing;
      requests = state.requests + 1;
      slept_ns = state.slept_ns + decision.delay_ns;
    }
    else breaks record {
      end = gave_up decision.strategy decision.required_action;
      requests = state.requests + 1;
      slept_ns = state.slept_ns;
    }

abbrev on_failure : LoopState → List ℕ → Bool → Bool → Option FailureCause → Round
on_failure state msg text_is_empty calls_is_empty none =
    breaks record { end = unclassified; requests = state.requests + 1; slept_ns = state.slept_ns }
on_failure state msg text_is_empty calls_is_empty (some cause) =
    act state
      (decide (evidence_of cause msg text_is_empty calls_is_empty state.attempts state.pacing))

-- one round of `'provider_attempts: loop`
unfoldable pub attempt : StreamResult → LoopState → Round
unfolding act evidence_of
attempt finished state =
    breaks record { end = answered; requests = state.requests + 1; slept_ns = state.slept_ns }
attempt (failed msg text_is_empty calls_is_empty) state =
    on_failure state msg text_is_empty calls_is_empty (classify_failure msg)

module _ (provider : ℕ → StreamResult) where
  unfoldable pub provider_attempts : ℕ → LoopState → Option Outcome
  unfolding attempt
  provider_attempts zero state = none
  provider_attempts (suc fuel) state = elim (attempt (provider state.requests) state) [
    | breaks outcome ↦ some outcome
    | continues next ↦ provider_attempts fuel next
  ]
