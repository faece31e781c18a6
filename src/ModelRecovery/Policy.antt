-- ===== src/ModelRecovery/Policy.antt =====
-- src/model_response_recovery.rs: what to do after a failed request to a model. A `usize` and a
-- `u64` have 64 bits; `saturating_add` and `saturating_mul` stop at the largest of them, and the
-- products that the source leaves unchecked wrap.
pub mod Bounds
use fx_rust.Prelude.{
  ℕ, zero, suc, ◌+◌, ◌-◌, ◌*◌, ◌%◌, min, Bool, true, false, ◌&&◌, Option, none, some, ◌==◌, ltb,
  if◌then◌else◌, is_some,
}
use fx_rust.Prelude.U64.{u64_max}

pub data FailureCause : Type 0 where
  transport_interrupted : FailureCause
  response_interrupted : FailureCause
  provider_unavailable : FailureCause
  rate_limited : FailureCause
  system_resumed : FailureCause
  authentication : FailureCause
  request_limit_reached : FailureCause
  content_filter : FailureCause

pub data Delivery : Type 0 where
  definitely_unsent : Delivery
  possibly_sent : Delivery

pub data OutputEvidence : Type 0 where
  no_output : OutputEvidence
  partial : OutputEvidence

pub data ToolEvidence : Type 0 where
  no_tool : ToolEvidence
  proven_unexecuted : ToolEvidence
  confirmed : ToolEvidence
  uncertain : ToolEvidence

abbrev pub default_max_provider_attempts : ℕ
default_max_provider_attempts = 10

abbrev pub max_retry_after_seconds : ℕ
max_retry_after_seconds = 30

pub record AttemptState : Type 0 where
  pub consumed : ℕ
  pub limit : ℕ

abbrev pub default_attempts : AttemptState
default_attempts = record { consumed = 0; limit = default_max_provider_attempts }

abbrev pub remaining : AttemptState → ℕ
remaining attempts = attempts.limit - attempts.consumed

pub data RetryPacingState : Type 0 where
  idle : RetryPacingState
  implicit : FailureCause → ℕ → RetryPacingState

-- the number of a cause, by which two causes are compared
abbrev pub cause_index : FailureCause → ℕ
cause_index transport_interrupted = 0
cause_index response_interrupted = 1
cause_index provider_unavailable = 2
cause_index rate_limited = 3
cause_index system_resumed = 4
cause_index authentication = 5
cause_index request_limit_reached = 6
cause_index content_filter = 7

abbrev pub same_cause : FailureCause → FailureCause → Bool
same_cause a b = cause_index a == cause_index b

abbrev pace : RetryPacingState → FailureCause → RetryPacingState
pace idle cause = implicit cause 1
pace (implicit previous attempt) cause =
    if same_cause previous cause
    then implicit cause (min (attempt + 1) u64_max)
    else implicit cause 1

unfoldable pub after_failure : RetryPacingState → FailureCause → Option ℕ → RetryPacingState
after_failure pacing cause retry_after_seconds =
    if is_some retry_after_seconds then idle else pace pacing cause

pub data Strategy : Type 0 where
  retry_request : Strategy
  continue_response : Strategy
  regenerate_tool : Strategy
  continue_after_confirmed_tool : Strategy
  reconcile_tool : Strategy
  pause : Strategy
  stop : Strategy

pub data RequiredAction : Type 0 where
  no_action : RequiredAction
  continue_later : RequiredAction
  inspect_uncertain_tool : RequiredAction
  change_request : RequiredAction

pub record Evidence : Type 0 where
  pub cause : FailureCause
  pub delivery : Delivery
  pub attempts : AttemptState
  pub output : OutputEvidence
  pub tool : ToolEvidence
  pub pacing : RetryPacingState
  pub retry_after_seconds : Option ℕ
  pub cancelled : Bool

pub record Decision : Type 0 where
  pub strategy : Strategy
  pub delay_ns : ℕ
  pub next_pacing : RetryPacingState
  pub reserve_provider_attempt : Bool
  pub required_action : RequiredAction

abbrev pub default_decision : Decision
default_decision = record {
  strategy = stop;
  delay_ns = 0;
  next_pacing = idle;
  reserve_provider_attempt = false;
  required_action = no_action;
}

abbrev pub ns_per_s : ℕ
ns_per_s = 1_000_000_000

abbrev pub u64_mod : ℕ
u64_mod = 18446744073709551616

-- `while current < attempt && seconds < 30`: each round doubles the seconds, which start at 1, so
-- five rounds reach 30.
unfoldable pub double_seconds : ℕ → ℕ → ℕ → ℕ → ℕ
double_seconds zero attempt current seconds = seconds
double_seconds (suc fuel) attempt current seconds =
    let doubled = min (min (seconds * 2) u64_max) max_retry_after_seconds in
    let rest = double_seconds fuel attempt (current + 1) doubled in
    if ltb current attempt && ltb seconds max_retry_after_seconds then rest else seconds

unfoldable pub retry_delay_ns : ℕ → ℕ
unfolding double_seconds
retry_delay_ns attempt =
    if attempt == 0
    then 0
    else if attempt == 1
    then 250 * 1_000_000 % u64_mod
    else double_seconds 5 attempt 2 1 * ns_per_s % u64_mod

abbrev pub is_uncertain : ToolEvidence → Bool
is_uncertain uncertain = true
is_uncertain _ = false

abbrev pub strategy_for : Delivery → ToolEvidence → OutputEvidence → Strategy
strategy_for definitely_unsent tool evidence = retry_request
strategy_for possibly_sent proven_unexecuted evidence = regenerate_tool
strategy_for possibly_sent confirmed evidence = continue_after_confirmed_tool
strategy_for possibly_sent uncertain evidence = reconcile_tool
strategy_for possibly_sent no_tool partial = continue_response
strategy_for possibly_sent no_tool no_output = retry_request

abbrev pub implicit_delay : RetryPacingState → ℕ
implicit_delay idle = 0
implicit_delay (implicit _ attempt) = retry_delay_ns attempt

abbrev pub delay_for : Option ℕ → RetryPacingState → ℕ
delay_for (some seconds) next_pacing = min seconds max_retry_after_seconds * ns_per_s % u64_mod
delay_for none next_pacing = implicit_delay next_pacing

-- the part of `decide` below the checks of the cause
unfoldable pub decide_retry : Evidence → Decision
unfolding after_failure
decide_retry evidence =
    if remaining evidence.attempts == 0
    then record default_decision {
      strategy = pause;
      required_action =
          if is_uncertain evidence.tool then inspect_uncertain_tool else continue_later;
    }
    else let next_pacing =
        after_failure evidence.pacing evidence.cause evidence.retry_after_seconds in
      record {
        strategy = strategy_for evidence.delivery evidence.tool evidence.output;
        delay_ns = delay_for evidence.retry_after_seconds next_pacing;
        next_pacing = next_pacing;
        reserve_provider_attempt = true;
        required_action = no_action;
      }

abbrev decide_cause : FailureCause → Evidence → Decision
decide_cause content_filter evidence = record default_decision {
  strategy = stop;
  required_action = change_request;
}
decide_cause request_limit_reached evidence = record default_decision {
  strategy = pause;
  required_action = continue_later;
}
decide_cause _ evidence = decide_retry evidence

unfoldable pub decide : Evidence → Decision
unfolding decide_retry
decide evidence =
    if evidence.cancelled
    then record default_decision { strategy = stop }
    else decide_cause evidence.cause evidence

abbrev is_unavailable : FailureCause → Bool
is_unavailable provider_unavailable = true
is_unavailable _ = false

unfoldable pub should_disable_fast_route : Bool → FailureCause → Bool → Bool
should_disable_fast_route fast_mode cause replay_safe =
    fast_mode && is_unavailable cause && replay_safe
