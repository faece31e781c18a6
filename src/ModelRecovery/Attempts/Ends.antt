-- ===== src/ModelRecovery/Attempts/Ends.antt =====
-- The loop of provider attempts ends within its budget.
use fx_rust.Prelude.{
  ℕ, zero, suc, ◌+◌, ◌*◌, ◌≤◌, ◌<◌, ◌≡◌, refl, true, Option, some, arith, Option-cases, inl, inr,
  Bool-cases, ap,
}
use fx_rust.ModelRecovery.Policy.{Evidence, decide, remaining, ns_per_s}
use fx_rust.ModelRecovery.Policy.Bounds.{decide_reserves_iff, decide_sound}
use fx_rust.ModelRecovery.Classify.{classify_failure}
use fx_rust.ModelRecovery.Attempts.{
  StreamResult, Outcome, LoopState, Round, provider_attempts, attempt, act, evidence_of, goes_on,
  loop_start, finished, failed, breaks, continues,
}

abbrev pub delay_bound : ℕ
delay_bound = 30 * ns_per_s

-- What a round does to the variables of the loop.
Advances : LoopState → Round → Type 0
Advances s (breaks o) = (o.requests ≡ s.requests + 1) × (o.slept_ns ≡ s.slept_ns)
Advances s (continues t) =
    (t.requests ≡ s.requests + 1)
    × (t.slept_ns ≤ s.slept_ns + delay_bound)
    × (remaining t.attempts + 1 ≡ remaining s.attempts)

act-Advances :
    (s : LoopState) (e : Evidence) → e.attempts ≡ s.attempts → Advances s (act s (decide e))
unfolding Advances act
act-Advances s e same = elim (Bool-cases (goes_on (decide e).strategy)) [
  | inl on ↦
      let reserves : (decide e).reserve_provider_attempt ≡ true = ground (arith, decide_sound e) in
      let in_budget : e.attempts.consumed < e.attempts.limit =
        ((decide_reserves_iff e).0 reserves).2 in
      let same_consumed : e.attempts.consumed ≡ s.attempts.consumed = ap (λ a. a.consumed) same in
      let same_limit : e.attempts.limit ≡ s.attempts.limit = ap (λ a. a.limit) same in
      rw on (rw reserves (refl, omega (arith, (decide_sound e).0), omega arith))
  | inr off ↦ rw off (refl, refl)
]

attempt-Advances : (r : StreamResult) (s : LoopState) → Advances s (attempt r s)
unfolding Advances attempt evidence_of
attempt-Advances finished s = (refl, refl)
attempt-Advances (failed msg text_is_empty calls_is_empty) s =
    elim (Option-cases (classify_failure msg)) [
      | inl e ↦ rw e (refl, refl)
      | inr (cause, e) ↦ rw e (
          act-Advances s (evidence_of cause msg text_is_empty calls_is_empty s.attempts s.pacing)
            refl)
    ]

module _ (provider : ℕ → StreamResult) where
  abbrev Ends : LoopState → Option Outcome → Type 0
  Ends s ended =
      (o : Outcome) × (ended ≡ some o)
      × (o.requests ≤ s.requests + remaining s.attempts + 1)
      × (o.slept_ns ≤ s.slept_ns + remaining s.attempts * delay_bound)

  -- A round that goes on spends one attempt and one delay of those that the later rounds have.
  Ends-round :
      (fuel : ℕ) (s : LoopState) (round : Round)
      → Advances s round
      → remaining s.attempts < suc fuel
      → ((t : LoopState) → remaining t.attempts < fuel → Ends t (provider_attempts provider fuel t))
      → Ends s (elim round [ breaks o ↦ some o | continues t ↦ provider_attempts provider fuel t ])
  unfolding Advances
  Ends-round fuel s (breaks o) (asked, slept) h later = (o, refl, omega arith, grind arith)
  Ends-round fuel s (continues t) (asked, slept, left) h later =
      let (o, runs, requests, delays) = later t (omega arith) in
      let split : remaining s.attempts * delay_bound
          ≡ remaining t.attempts * delay_bound + delay_bound =
        omega arith in
      (o, runs, omega arith, omega arith)

  Ends-from :
      (fuel : ℕ) (s : LoopState)
      → remaining s.attempts < fuel
      → Ends s (provider_attempts provider fuel s)
  unfolding provider_attempts
  Ends-from zero s h = absurd (omega arith)
  Ends-from (suc fuel) s h =
      Ends-round fuel s (attempt (provider s.requests) s) (attempt-Advances (provider s.requests) s)
        h (Ends-from fuel)

  -- Whatever a provider answers, the loop of attempts ends: with fuel for eleven rounds or more it
  -- has an outcome, after at most eleven requests, and after sleeping for at most ten times 30
  -- seconds.
  pub provider_attempts_ends :
      (extra : ℕ)
      → (o : Outcome) × (provider_attempts provider (11 + extra) loop_start ≡ some o)
        × (o.requests ≤ 11)
        × (o.slept_ns ≤ 300_000_000_000)
  provider_attempts_ends extra = Ends-from (11 + extra) loop_start (omega arith)
