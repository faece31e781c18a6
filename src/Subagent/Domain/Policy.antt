-- ===== src/Subagent/Domain/Policy.antt =====
-- src/subagent_domain.rs: `validate_notification_policy`.
pub mod Accepts
use fx_rust.Prelude.{
  ℕ, ◌+◌, Bool, true, false, ◌&&◌, ◌||◌, not, String, Option, none, some, List, [], ◌∷◌, ◌++◌,
  Result, Check, ok, err, fail_if, ◌>>=◌, ◌>>◌, ltb, if◌then◌else◌, length, is_some, is_none, zero,
  suc, Eq, same, contains, enum_eq, string_eq,
}
use fx_rust.Subagent.Domain.Types.{
  NotificationPolicyInput, NotificationPolicy, StopCondition, duration_elapsed, ValidationError,
  invalid_notification_policy, duplicate_milestone, duplicate_stop_condition, max_milestones,
  max_stop_conditions,
}
use fx_rust.Subagent.Domain.Text.{validate_name}

pub StopCondition-discrete : Discrete StopCondition
StopCondition-discrete = hlevel

instance abbrev pub stop_condition_eq : Eq StopCondition
stop_condition_eq = enum_eq StopCondition-discrete

-- `o == Some(0)`
abbrev pub is_some_zero : Option ℕ → Bool
is_some_zero (some zero) = true
is_some_zero (some (suc n)) = false
is_some_zero none = false

-- The loop over the milestones; `seen` is `input.milestones[..i]`.
unfoldable pub check_milestones : List String → List String → Check ValidationError
check_milestones seen [] = ok tt
check_milestones seen (name ∷ rest) = do
  validate_name name
  fail_if (contains seen name) duplicate_milestone
  check_milestones (seen ++ name ∷ []) rest

-- The loop over the stop conditions returns `has_duration_stop`.
unfoldable pub check_stops :
    Option ℕ → List StopCondition → List StopCondition → Bool → Result ValidationError Bool
check_stops duration seen [] has_stop = ok has_stop
check_stops duration seen (condition ∷ rest) has_stop = do
  fail_if (contains seen condition) duplicate_stop_condition
  fail_if (same condition duration_elapsed && is_none duration) invalid_notification_policy
  check_stops duration (seen ++ condition ∷ []) rest (has_stop || same condition duration_elapsed)

-- The last part, from `has_duration_stop` on.
abbrev with_stop : NotificationPolicyInput → Bool → NotificationPolicy
with_stop input add_duration_stop = record {
  terminal = input.terminal;
  milestones = input.milestones;
  report_interval_ms = input.report_interval_ms;
  report_duration_ms = input.report_duration_ms;
  stop_conditions =
      if add_duration_stop
      then input.stop_conditions ++ duration_elapsed ∷ []
      else input.stop_conditions;
}

unfoldable pub finish_policy :
    NotificationPolicyInput → Bool → Result ValidationError NotificationPolicy
finish_policy input has_duration_stop =
    let add_duration_stop = is_some input.report_duration_ms && not has_duration_stop in
    let stop_count = length input.stop_conditions + (if add_duration_stop then 1 else 0) in
    fail_if (ltb max_stop_conditions stop_count) invalid_notification_policy
    >> ok (with_stop input add_duration_stop)

-- The conditions of the three early returns.
abbrev pub is_oversized : NotificationPolicyInput → Bool
is_oversized input =
    ltb max_milestones (length input.milestones)
    || ltb max_stop_conditions (length input.stop_conditions)

abbrev pub is_duration_alone : NotificationPolicyInput → Bool
is_duration_alone input = is_some input.report_duration_ms && is_none input.report_interval_ms

abbrev pub has_zero_time : NotificationPolicyInput → Bool
has_zero_time input = is_some_zero input.report_interval_ms || is_some_zero input.report_duration_ms

unfoldable pub validate_notification_policy :
    NotificationPolicyInput → Result ValidationError NotificationPolicy
unfolding finish_policy
validate_notification_policy input = do
  fail_if (is_oversized input) invalid_notification_policy
  fail_if (is_duration_alone input) invalid_notification_policy
  fail_if (has_zero_time input) invalid_notification_policy
  check_milestones [] input.milestones
  has_duration_stop ← check_stops input.report_duration_ms [] input.stop_conditions false
  finish_policy input has_duration_stop
