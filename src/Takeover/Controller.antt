-- ===== src/Takeover/Controller.antt =====
-- The state machine of a takeover of src/terminal_takeover.rs. Bytes and times are numbers; the clock
-- is an argument, in milliseconds since the epoch.
pub mod Keeps
pub mod Retains
use fx_rust.Prelude.{
  ℕ, suc, ◌+◌, ◌-◌, min, Bool, true, false, ◌&&◌, ◌||◌, not, List, [], ◌∷◌, ◌++◌, Option, none,
  some, ltb, if◌then◌else◌, length, Result, err, ok, is_some, is_empty,
}
use fx_rust.Takeover.Prefix.{
  PrefixAction, PrefixResult, PrefixParser, feed, new_parser, no_prefix_action, detach_action,
  help_action,
}

abbrev pub max_write_bytes : ℕ
max_write_bytes = 65536

abbrev pub release_retry_interval_ms : ℕ
release_retry_interval_ms = 250

pub data Phase : Type 0 where
  inactive : Phase
  acquiring : Phase
  active : Phase
  releasing : Phase

pub data ReturnReason : Type 0 where
  detach : ReturnReason
  exited : ReturnReason
  lost : ReturnReason
  failure : ReturnReason

pub data AlternateScreenOwner : Type 0 where
  nobody : AlternateScreenOwner
  terminal_session : AlternateScreenOwner
  subagent_manager : AlternateScreenOwner

pub data SurfaceReturnAction : Type 0 where
  handoff_to_manager : SurfaceReturnAction
  enter_manager : SurfaceReturnAction
  render_manager : SurfaceReturnAction
  leave_to_inline : SurfaceReturnAction
  recover_inline : SurfaceReturnAction
  nothing : SurfaceReturnAction

unfoldable pub surface_return_action : Bool → AlternateScreenOwner → Bool → SurfaceReturnAction
surface_return_action true terminal_session inline_recovery_pending = handoff_to_manager
surface_return_action true nobody inline_recovery_pending = enter_manager
surface_return_action true subagent_manager inline_recovery_pending = render_manager
surface_return_action false terminal_session inline_recovery_pending = leave_to_inline
surface_return_action false nobody inline_recovery_pending =
    if inline_recovery_pending then recover_inline else nothing
surface_return_action false subagent_manager inline_recovery_pending = nothing

pub data Lifecycle : Type 0 where
  starting : Lifecycle
  running : Lifecycle
  has_exited : Lifecycle
  is_lost : Lifecycle
  closed : Lifecycle

unfoldable pub terminal_ended : Lifecycle → Bool
terminal_ended has_exited = true
terminal_ended is_lost = true
terminal_ended closed = true
terminal_ended starting = false
terminal_ended running = false

unfoldable pub lifecycle_reason : Lifecycle → ReturnReason
lifecycle_reason has_exited = exited
lifecycle_reason closed = exited
lifecycle_reason starting = lost
lifecycle_reason running = lost
lifecycle_reason is_lost = lost

pub data CompletionFailure : Type 0 where
  disconnected : CompletionFailure
  unavailable : CompletionFailure
  session_not_found : CompletionFailure
  session_lost : CompletionFailure
  authority_denied : CompletionFailure
  lease_conflict : CompletionFailure
  other_failure : CompletionFailure

unfoldable pub completion_reason : CompletionFailure → ReturnReason
completion_reason session_not_found = lost
completion_reason session_lost = lost
completion_reason disconnected = lost
completion_reason unavailable = lost
completion_reason authority_denied = failure
completion_reason lease_conflict = failure
completion_reason other_failure = failure

unfoldable pub release_ownership_gone : CompletionFailure → Bool
release_ownership_gone session_not_found = true
release_ownership_gone session_lost = true
release_ownership_gone authority_denied = true
release_ownership_gone lease_conflict = true
release_ownership_gone disconnected = false
release_ownership_gone unavailable = false
release_ownership_gone other_failure = false

pub record Controller : Type 0 where
  pub phase : Phase
  pub lease_acquired : Bool
  pub return_reason : ReturnReason
  pub discard_input : Bool
  pub input : List ℕ
  pub prefix : PrefixParser
  pub help_visible : Bool
  pub inflight_write_bytes : ℕ
  pub release_attempts : ℕ
  pub surface_return_attempts : ℕ
  pub inline_recovery_pending : Bool
  pub next_release_ms : ℕ
  pub last_dimensions : Option (ℕ × ℕ)
  pub next_screen_ms : ℕ

abbrev pub default_controller : Controller
default_controller = record {
  phase = inactive;
  lease_acquired = false;
  return_reason = detach;
  discard_input = false;
  input = [];
  prefix = new_parser;
  help_visible = false;
  inflight_write_bytes = 0;
  release_attempts = 0;
  surface_return_attempts = 0;
  inline_recovery_pending = false;
  next_release_ms = 0;
  last_dimensions = none;
  next_screen_ms = 0;
}

pub data TakeoverError : Type 0 where
  input_full : TakeoverError

-- the terminal state is its owner of the alternate screen
abbrev pub blocks_fx_surface : AlternateScreenOwner → Bool
blocks_fx_surface terminal_session = true
blocks_fx_surface nobody = false
blocks_fx_surface subagent_manager = false

unfoldable pub retain_input : Controller → List ℕ → Controller × Result TakeoverError (Unit {0})
retain_input c bytes =
    if ltb max_write_bytes (length c.input) || ltb (max_write_bytes - length c.input) (length bytes)
    then (c, err input_full)
    else (record c { input = c.input ++ bytes }, ok tt)

-- the phases in which a return can begin
abbrev pub can_return : Phase → Bool
can_return inactive = false
can_return releasing = false
can_return acquiring = true
can_return active = true

unfoldable pub begin_return : Controller → ReturnReason → Bool → Controller × Bool
begin_return c reason discard = if not (can_return c.phase) then (c, false) else (
  record c {
    phase = releasing;
    return_reason = reason;
    discard_input = discard;
    input = if discard && not (is_empty c.input) then [] else c.input;
  },
  true,
)

-- `release_attempts` is a `u8`
unfoldable pub defer_release : ℕ → Controller → Controller
defer_release now_ms c = record c {
  release_attempts = min (c.release_attempts + 1) 255;
  next_release_ms = now_ms + release_retry_interval_ms;
}

-- `if self.help_visible { self.help_visible = false; self.next_screen_ms = 0; }`
abbrev pub hide_help : Controller → Controller
hide_help c = if c.help_visible then record c { help_visible = false; next_screen_ms = 0 } else c

abbrev pub take_action : PrefixAction → Controller → Controller
take_action no_prefix_action c = c
take_action detach_action c = (begin_return c detach false).0
take_action help_action c = record c { help_visible = true; next_screen_ms = 0 }

-- the `Result` of `retain_input` is ignored
abbrev pub take_forwarded : Option ℕ → Controller → Controller
take_forwarded none c = c
take_forwarded (some byte) c = if can_return c.phase then (retain_input c (byte ∷ [])).0 else c

-- the part of `handle_byte` behind the parser
unfoldable pub take_parsed : Controller → PrefixParser × PrefixResult → Controller
unfolding retain_input begin_return
take_parsed c (prefix, parsed) =
    take_forwarded parsed.forwarded (take_action parsed.action (record c { prefix = prefix }))

abbrev taken : Controller → Option (PrefixParser × PrefixResult) → Option (Controller × Bool)
taken c none = none
taken c (some fed) = some (take_parsed c fed, true)

abbrev pub is_acquiring : Phase → Bool
is_acquiring acquiring = true
is_acquiring inactive = false
is_acquiring active = false
is_acquiring releasing = false

-- the controller reads the keyboard
abbrev pub reads : Controller → AlternateScreenOwner → Bool
reads c terminal = can_return c.phase && (is_acquiring c.phase || blocks_fx_surface terminal)

abbrev pub is_releasing : Phase → Bool
is_releasing releasing = true
is_releasing inactive = false
is_releasing acquiring = false
is_releasing active = false

-- `none` is a panic of the parser
unfoldable pub handle_byte : AlternateScreenOwner → Controller → ℕ → Option (Controller × Bool)
unfolding take_parsed
handle_byte terminal c byte =
    if reads c terminal
    then taken (hide_help c) (feed (hide_help c).prefix byte)
    else some (c, is_releasing c.phase && blocks_fx_surface terminal)

abbrev pub add_count : Bool → ℕ → ℕ
add_count true n = suc n
add_count false n = n

abbrev handled :
    (Controller → Option (Controller × ℕ)) → Option (Controller × Bool) → Option (Controller × ℕ)
handled later none = none
handled later (some (c, consumed)) = counted (later c)
  where
    counted : Option (Controller × ℕ) → Option (Controller × ℕ)
    counted none = none
    counted (some (last, count)) = some (last, add_count consumed count)

unfoldable pub handle_bytes : AlternateScreenOwner → Controller → List ℕ → Option (Controller × ℕ)
unfolding handle_byte
handle_bytes terminal c [] = some (c, 0)
handle_bytes terminal c (byte ∷ bytes) =
    handled (λ next. handle_bytes terminal next bytes) (handle_byte terminal c byte)
