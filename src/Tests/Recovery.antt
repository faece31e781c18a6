-- ===== src/Tests/Recovery.antt =====
-- Concrete failures of a provider, and the bytes of a response that is sent again, for
-- src/model_response_recovery.rs and the loop of src/agent.rs.
use fx_rust.Prelude.{
  ℕ, ◌+◌, ◌*◌, ◌^◌, ◌≤◌, ◌≡◌, ◌⊎◌, refl, min, true, false, not, ◌&&◌, ◌||◌, ◌==◌, none, some, ok,
  chars,
}
use fx_rust.ModelRecovery.Policy.{
  Evidence, decide, default_attempts, retry_delay_ns, ns_per_s, transport_interrupted,
  possibly_sent, no_output, uncertain, idle, Strategy, FailureCause,
}
use fx_rust.ModelRecovery.Policy.Bounds.{decide_sound, retry_delay_closed, may_have_run}
use fx_rust.ModelRecovery.Classify.{classify_failure, parse_retry_after}
use fx_rust.ModelRecovery.Attempts.{
  StreamResult, failed, Outcome, provider_attempts, loop_start, goes_on, LoopEnd,
}
use fx_rust.ModelRecovery.Attempts.Ends.{provider_attempts_ends}
use fx_rust.ModelRecovery.Overlap.{exact_continuation_overlap}
use fx_rust.ModelRecovery.Overlap.Longest.{longest_overlap, exact_continuation_overlap_longest}
use fx_rust.ModelRecovery.Probe.{
  ContinuationProbe, probe_continuation_extension, budget_exhausted, may_extend, probed,
}
use fx_rust.ModelRecovery.Probe.Sound.{verdict, could_extend, probe_continuation_extension_sound}

-- a provider whose connection is reset after some text, every time
abbrev resetting : ℕ → StreamResult
resetting n = failed (chars "connection reset") false true

-- ten retries, and the eleventh failure pauses
resets_pause :
    provider_attempts resetting 11 loop_start
    ≡ some record {
      end = LoopEnd.gave_up Strategy.pause fx_rust.ModelRecovery.Policy.continue_later;
      requests = 11;
      slept_ns = 151_250_000_000;
    }
unfolding provider_attempts classify_failure decide parse_retry_after retry_delay_ns
resets_pause = refl

provider_attempts_ends_example :
    (o : Outcome) × (provider_attempts resetting 11 loop_start ≡ some o)
    × (o.requests ≤ 11)
    × (o.slept_ns ≤ 300_000_000_000)
provider_attempts_ends_example = provider_attempts_ends resetting 0

abbrev lost_call : Evidence
lost_call = record {
  cause = transport_interrupted;
  delivery = possibly_sent;
  attempts = default_attempts;
  output = no_output;
  tool = uncertain;
  pacing = idle;
  retry_after_seconds = some 99;
  cancelled = false;
}

decide_sound_example :
    ((decide lost_call).delay_ns ≤ 30 * ns_per_s)
    × ((goes_on (decide lost_call).strategy && may_have_run lost_call) ≡ false)
    × ((not (goes_on (decide lost_call).strategy) || (decide lost_call).reserve_provider_attempt)
        ≡ true)
    × (((decide lost_call).reserve_provider_attempt || (decide lost_call).delay_ns == 0) ≡ true)
decide_sound_example = decide_sound lost_call

retry_delay_closed_example : retry_delay_ns (3 + 2) ≡ min (2 ^ 3) 30 * ns_per_s
retry_delay_closed_example = retry_delay_closed 3

overlap_runs : exact_continuation_overlap (chars "xabab") (chars "ababc") ≡ ok 4
unfolding exact_continuation_overlap
overlap_runs = refl

exact_continuation_overlap_longest_example :
    exact_continuation_overlap (chars "xaabaaab") (chars "aabaaac")
    ≡ ok (longest_overlap (chars "xaabaaab") (chars "aabaaac"))
exact_continuation_overlap_longest_example =
    exact_continuation_overlap_longest (chars "xaabaaab") (chars "aabaaac")

probe_runs :
    probe_continuation_extension (chars "abcabd") (chars "ab") 10 ≡ ok (probed may_extend 2)
unfolding probe_continuation_extension
probe_runs = refl

probe_continuation_extension_sound_example :
    (p : ContinuationProbe) × (probe_continuation_extension (chars "abcabd") (chars "abd") 3 ≡ ok p)
    × (p.comparisons ≤ 3)
    × (((p.outcome ≡ budget_exhausted) × (p.comparisons ≡ 3))
        ⊎ (p.outcome ≡ verdict (could_extend (chars "abcabd") (chars "abd"))))
probe_continuation_extension_sound_example =
    probe_continuation_extension_sound (chars "abcabd") (chars "abd") 3

-- The delay is read where the number follows the needle at once, and not behind a space.
delay_read : parse_retry_after (chars "Retry-After:12") ≡ some 12
unfolding parse_retry_after
delay_read = refl

delay_behind_a_space : parse_retry_after (chars "Retry-After: 12") ≡ none
unfolding parse_retry_after
delay_behind_a_space = refl

classified : classify_failure (chars "HTTP 429 Too Many Requests") ≡ some FailureCause.rate_limited
unfolding classify_failure
classified = refl
