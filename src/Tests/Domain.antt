-- ===== src/Tests/Domain.antt =====
-- Concrete ids, cursors, policies and commands of src/subagent_domain.rs.
use Prim.Native.String.{◌++◌ as ◌+++◌}
use fx_rust.Prelude.{◌≡◌, refl, none, some, [], ◌∷◌, ok, arith}
use fx_rust.Prelude.U64.{to_string}
use fx_rust.Subagent.Domain.Types.{
  NotificationPolicyInput, NotificationPolicy, default_terminal_events, duration_elapsed,
  CommandInput, Command, cancel,
}
use fx_rust.Subagent.Domain.Text.{validate_id, validate_id_iff, IsId}
use fx_rust.Subagent.Domain.Cursor.{parse_cursor, parse_cursor-print}
use fx_rust.Subagent.Domain.Policy.{validate_notification_policy, stop_condition_eq}
use fx_rust.Subagent.Domain.Validate.{validate_command, selected}
use fx_rust.Subagent.Domain.Validate.Sound.{validate_command_sound, ComesFrom, IsWellFormed}

parse_cursor-print_example : parse_cursor (to_string 12 +++ ":" +++ to_string 7) ≡ ok (12, 7)
parse_cursor-print_example = parse_cursor-print 12 7 (omega arith) (omega arith)

-- A report each second for five seconds.
abbrev reports : NotificationPolicyInput
reports = record {
  terminal = default_terminal_events;
  milestones = "built" ∷ "tested" ∷ [];
  report_interval_ms = some 1000;
  report_duration_ms = some 5000;
  stop_conditions = [];
}

abbrev reports_policy : NotificationPolicy
reports_policy = record {
  terminal = default_terminal_events;
  milestones = "built" ∷ "tested" ∷ [];
  report_interval_ms = some 1000;
  report_duration_ms = some 5000;
  stop_conditions = duration_elapsed ∷ [];
}

reports_accepted : validate_notification_policy reports ≡ ok reports_policy
unfolding validate_notification_policy fx_rust.Subagent.Domain.Policy.check_milestones
    fx_rust.Subagent.Domain.Text.validate_name fx_rust.Subagent.Domain.Policy.check_stops
reports_accepted = refl

abbrev cancellation : CommandInput
cancellation = record {
  create = none;
  inspect = none;
  message = none;
  relationship = none;
  configure = none;
  lifecycle = some (record { id = "child-1"; action = cancel });
}

abbrev cancelling : Command
cancelling = Command.lifecycle (record { id = "child-1"; action = cancel })

cancellation_accepted : validate_command cancellation ≡ ok cancelling
unfolding validate_command fx_rust.Subagent.Domain.Validate.validate_lifecycle validate_id
    fx_rust.Subagent.Domain.Text.is_id_char
cancellation_accepted = refl

validate_command_sound_example :
    (selected cancellation ≡ 1) × ComesFrom cancellation cancelling × IsWellFormed cancelling
validate_command_sound_example =
    validate_command_sound cancellation cancelling cancellation_accepted
