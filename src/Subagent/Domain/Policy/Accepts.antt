-- ===== src/Subagent/Domain/Policy/Accepts.antt =====
-- Which notification policies `validate_notification_policy` accepts, and what it makes of them.
use fx_rust.Prelude.{
  ℕ, ◌≤◌, ◌≡◌, refl, sym, ◌↔◌, Bool, true, false, ◌&&◌, ◌||◌, not, String, Option, List, [], ◌∷◌,
  ◌++◌, ok, fail_if-eq-ok, >>-eq-ok, >>=-eq-ok, ◌∙◌, length, is_some, is_none, same, contains,
  Distinct, no_repeats, no_repeats-Distinct, All, arith, beq_refl, Distinct-append_one, string_eq,
  contains-append_one,
}
use fx_rust.Subagent.Domain.Types.{
  NotificationPolicyInput, NotificationPolicy, StopCondition, duration_elapsed, max_milestones,
  invalid_notification_policy,
}
use fx_rust.Subagent.Domain.Text.{validate_name, validate_bounded_text_iff, IsName}
use fx_rust.Subagent.Domain.Policy.{
  check_milestones, check_stops, finish_policy, validate_notification_policy, is_oversized,
  is_duration_alone, has_zero_time, is_some_zero, stop_condition_eq, with_stop,
}

validate_name_iff : (s : String) → (validate_name s ≡ ok tt) ↔ IsName s
unfolding validate_name
validate_name_iff s = validate_bounded_text_iff s _ _

check_milestones_iff :
    (seen xs : List String)
    → (check_milestones seen xs ≡ ok tt) ↔ (All IsName xs × (no_repeats seen xs ≡ true))
unfolding check_milestones
check_milestones_iff seen [] = (λ h. (tt, refl), λ h. refl)
check_milestones_iff seen (x ∷ xs) =
    ground (arith, validate_name_iff x, check_milestones_iff (seen ++ x ∷ []) xs)

check_stops_iff :
    (duration : Option ℕ) (seen xs : List StopCondition) (has found : Bool)
    → (check_stops duration seen xs has ≡ ok found) ↔ (
        (no_repeats seen xs ≡ true)
        × (contains xs duration_elapsed ≡ true → is_none duration ≡ false)
        × (found ≡ (has || contains xs duration_elapsed)))
unfolding check_stops
check_stops_iff duration seen [] has found = ground arith
check_stops_iff duration seen (x ∷ xs) has found =
    ground
      (arith, check_stops_iff duration (seen ++ x ∷ []) xs (has || same x duration_elapsed) found)

-- There are two stop conditions, so a list without a repeat has two at most.
Distinct-stops_bound : (xs : List StopCondition) → Distinct xs → length xs ≤ 2
Distinct-stops_bound [] h = omega arith
Distinct-stops_bound (a ∷ []) h = omega arith
Distinct-stops_bound (a ∷ b ∷ []) h = omega arith
Distinct-stops_bound (a ∷ b ∷ c ∷ xs) h = ground (arith, beq_refl a, beq_refl b, beq_refl c)

-- What is asked of a policy input, apart from its terminal events, of which nothing is.
pub record IsAcceptable (i : NotificationPolicyInput) : Type 0 where
  pub few_milestones : length i.milestones ≤ max_milestones
  pub milestone_names : All IsName i.milestones
  pub milestones_distinct : Distinct i.milestones
  pub stops_distinct : Distinct i.stop_conditions
  pub duration_needs_interval :
      is_some i.report_duration_ms ≡ true → is_some i.report_interval_ms ≡ true
  pub interval_nonzero : is_some_zero i.report_interval_ms ≡ false
  pub duration_nonzero : is_some_zero i.report_duration_ms ≡ false
  pub stop_needs_duration :
      contains i.stop_conditions duration_elapsed ≡ true → is_some i.report_duration_ms ≡ true

-- A report duration without the stop condition that ends it gets that condition.
pub normal_policy : NotificationPolicyInput → NotificationPolicy
normal_policy i =
    with_stop i (is_some i.report_duration_ms && not (contains i.stop_conditions duration_elapsed))

accepted_stops :
    (i : NotificationPolicyInput)
    → length i.stop_conditions ≤ 2
    → finish_policy i (contains i.stop_conditions duration_elapsed) ≡ ok (normal_policy i)
unfolding finish_policy normal_policy
accepted_stops i h = ground arith

validate_policy_acceptable :
    (i : NotificationPolicyInput)
    → IsAcceptable i
    → validate_notification_policy i ≡ ok (normal_policy i)
unfolding validate_notification_policy
validate_policy_acceptable i a =
    let few = Distinct-stops_bound i.stop_conditions a.stops_distinct in
    let names =
      (check_milestones_iff [] i.milestones).1
        (a.milestone_names, (no_repeats-Distinct i.milestones).1 a.milestones_distinct) in
    let stops =
      (check_stops_iff i.report_duration_ms [] i.stop_conditions false
          (contains i.stop_conditions duration_elapsed)).1
        (
          (no_repeats-Distinct i.stop_conditions).1 a.stops_distinct,
          (λ h. ground (arith, a.stop_needs_duration h)),
          refl,
        ) in
    rw (names, stops, accepted_stops i few) (ground arith)

validate_policy_sound :
    (i : NotificationPolicyInput) (p : NotificationPolicy)
    → validate_notification_policy i ≡ ok p
    → IsAcceptable i
unfolding validate_notification_policy
validate_policy_sound i p h =
    let sizes = fail_if-eq-ok (is_oversized i) invalid_notification_policy _ h in
    let interval = fail_if-eq-ok (is_duration_alone i) invalid_notification_policy _ sizes.1 in
    let nonzero = fail_if-eq-ok (has_zero_time i) invalid_notification_policy _ interval.1 in
    let names = >>-eq-ok (check_milestones [] i.milestones) _ nonzero.1 in
    let stops =
      >>=-eq-ok (check_stops i.report_duration_ms [] i.stop_conditions false) (finish_policy i)
        names.1 in
    let named = (check_milestones_iff [] i.milestones).0 names.0 in
    let stopped =
      (check_stops_iff i.report_duration_ms [] i.stop_conditions false stops.0).0 stops.1 in
    record {
      few_milestones = ground (arith, sizes.0);
      milestone_names = named.0;
      milestones_distinct = (no_repeats-Distinct i.milestones).0 named.1;
      stops_distinct = (no_repeats-Distinct i.stop_conditions).0 stopped.0;
      duration_needs_interval = λ e. ground (arith, interval.0, e);
      interval_nonzero = ground (arith, nonzero.0);
      duration_nonzero = ground (arith, nonzero.0);
      stop_needs_duration = λ e. ground (arith, stopped.1 e);
    }

-- A policy input is accepted exactly when it is acceptable, and then becomes its normal form.
pub validate_policy_iff :
    (i : NotificationPolicyInput) (p : NotificationPolicy)
    → (validate_notification_policy i ≡ ok p) ↔ (IsAcceptable i × (p ≡ normal_policy i))
validate_policy_iff i p = (
  λ h. let a = validate_policy_sound i p h in (a, cc (validate_policy_acceptable i a)),
  λ h. validate_policy_acceptable i h.0 ∙ cc (h.1),
)

-- The same policy, given as an input again.
abbrev pub as_input : NotificationPolicy → NotificationPolicyInput
as_input p = record {
  terminal = p.terminal;
  milestones = p.milestones;
  report_interval_ms = p.report_interval_ms;
  report_duration_ms = p.report_duration_ms;
  stop_conditions = p.stop_conditions;
}

normal_stops :
    (i : NotificationPolicyInput)
    → IsAcceptable i
    → contains (normal_policy i).stop_conditions duration_elapsed ≡ is_some i.report_duration_ms
unfolding normal_policy
normal_stops i a = ground (
  arith,
  a.stop_needs_duration,
  contains-append_one i.stop_conditions duration_elapsed duration_elapsed,
  beq_refl duration_elapsed,
)

normal-IsAcceptable :
    (i : NotificationPolicyInput) → IsAcceptable i → IsAcceptable (as_input (normal_policy i))
unfolding normal_policy
normal-IsAcceptable i a = record {
  few_milestones = a.few_milestones;
  milestone_names = a.milestone_names;
  milestones_distinct = a.milestones_distinct;
  stops_distinct = ground (
    arith,
    a.stops_distinct,
    Distinct-append_one i.stop_conditions duration_elapsed a.stops_distinct,
  );
  duration_needs_interval = a.duration_needs_interval;
  interval_nonzero = a.interval_nonzero;
  duration_nonzero = a.duration_nonzero;
  stop_needs_duration = λ e. sym (normal_stops i a) ∙ e;
}

normal-as_input :
    (p : NotificationPolicy)
    → contains p.stop_conditions duration_elapsed ≡ is_some p.report_duration_ms
    → normal_policy (as_input p) ≡ p
unfolding normal_policy
normal-as_input p e = ground arith

-- What validation returns is acceptable again, ends every duration by a stop condition, and
-- validating it once more changes nothing.
pub validate_policy_idem :
    (i : NotificationPolicyInput) (p : NotificationPolicy)
    → validate_notification_policy i ≡ ok p
    → (contains p.stop_conditions duration_elapsed ≡ is_some p.report_duration_ms)
      × (validate_notification_policy (as_input p) ≡ ok p)
unfolding normal_policy
validate_policy_idem i p h =
    let v = (validate_policy_iff i p).0 h in
    (
      rw v.1 (normal_stops i v.0),
      rw v.1 (
          (validate_policy_iff (as_input (normal_policy i)) (normal_policy i)).1 (
            normal-IsAcceptable i v.0,
            sym (normal-as_input (normal_policy i) (normal_stops i v.0)),
          )),
    )
