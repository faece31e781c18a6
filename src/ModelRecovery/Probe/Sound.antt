-- ===== src/ModelRecovery/Probe/Sound.antt =====
-- What the probe of src/model_response_recovery.rs answers, and within which budget.
use fx_rust.Prelude.{
  Fault, ℕ, zero, suc, ◌+◌, ◌-◌, ◌≤◌, ◌≡◌, refl, ap, ◌∙◌, ◌⊎◌, inl, inr, Bool, true, false, ◌&&◌,
  ◌||◌, List, [], ◌∷◌, some, arith, ◌==◌, leb, length, drop, starts_with, get_elem?, get_elem?-lt,
  Bool-cases, Result, ok,
}
use fx_rust.ModelRecovery.Probe.{
  ContinuationProbe, ContinuationProbeOutcome, Compared, exhausted, compared, may_extend,
  cannot_extend, budget_exhausted, probed, compare_bytes, try_starts, probe_continuation_extension,
}

drop-get : (p : List ℕ) (n y : ℕ) → get_elem? p n ≡ some y → drop n p ≡ y ∷ drop (suc n) p
drop-get [] n y h = absurd cc
drop-get (x ∷ p) zero y h = ground arith
drop-get (x ∷ p) (suc n) y h = drop-get p n y h

same_sym : (x y : ℕ) → (x == y) ≡ (y == x)
same_sym x y = ground arith

-- `existing[start..].starts_with(incoming)` for one of `left` starts from `start` on
abbrev pub starts_there : List ℕ → List ℕ → ℕ → ℕ → Bool
starts_there existing incoming zero start = false
starts_there existing incoming (suc left) start =
    starts_with (drop start existing) incoming || starts_there existing incoming left (suc start)

-- More bytes can extend the overlap: `incoming` stands in `existing` in front of its last bytes.
abbrev pub could_extend : List ℕ → List ℕ → Bool
could_extend existing incoming =
    starts_there existing incoming (length existing - length incoming) 0

abbrev pub verdict : Bool → ContinuationProbeOutcome
verdict true = may_extend
verdict false = cannot_extend

starts_with-here :
    (p : List ℕ) (n y byte : ℕ) (incoming : List ℕ)
    → get_elem? p n ≡ some y
    → starts_with (drop n p) (byte ∷ incoming)
      ≡ (y == byte && starts_with (drop (suc n) p) incoming)
starts_with-here p n y byte incoming found =
    ap (λ q. starts_with q (byte ∷ incoming)) (drop-get p n y found)
    ∙ ap (λ b. b && starts_with (drop (suc n) p) incoming) (same_sym byte y)

module _ (existing : List ℕ) (budget : ℕ) where
  Agrees : Bool → Compared → Type 0
  Agrees there (exhausted used) = used ≡ budget
  Agrees there (compared matched used) = (matched ≡ there) × (used ≤ budget)

  compare_bytes_lem :
      (incoming : List ℕ) (start offset used : ℕ)
      → used ≤ budget
      → start + offset + length incoming ≤ length existing
      → (c : Compared) × (compare_bytes existing budget start offset incoming used ≡ ok c)
        × Agrees (starts_with (drop (start + offset) existing) incoming) c
  unfolding compare_bytes Agrees
  compare_bytes_lem [] start offset used le fits = (compared true used, refl, (refl, le))
  compare_bytes_lem (byte ∷ incoming) start offset used le fits =
      elim (Bool-cases (used == budget)) [
        | inl e ↦ (exhausted used, rw e refl, ground arith)
        | inr e ↦
            let (y, found) = get_elem?-lt existing (start + offset) (omega arith) in
            let here = starts_with-here existing (start + offset) y byte incoming found in
            let next : starts_with (drop (suc (start + offset)) existing) incoming
                ≡ starts_with (drop (start + suc offset) existing) incoming =
              ap (λ n. starts_with (drop n existing) incoming) {x = suc (start + offset)}
                (omega arith) in
            elim (Bool-cases (y == byte)) [
              | inl same ↦
                  let (c, runs, agrees) =
                    compare_bytes_lem incoming start (suc offset) (used + 1) (ground arith)
                      (omega arith) in
                  (c, rw e (rw found (rw same runs)), rw here (rw same (rw next agrees)))
              | inr other ↦ (
                compared false (used + 1),
                rw e (rw found (rw other refl)),
                (rw here (rw other refl), ground arith),
              )
            ]
      ]

  -- The probe answers within its budget, and is right unless it says that the budget is used up.
  Probed : Bool → ContinuationProbe → Type 0
  Probed there p =
      (p.comparisons ≤ budget)
      × (((p.outcome ≡ budget_exhausted) × (p.comparisons ≡ budget)) ⊎ (p.outcome ≡ verdict there))

  abbrev Tried : Bool → Result Fault ContinuationProbe → Type 0
  Tried there r = (p : ContinuationProbe) × (r ≡ ok p) × Probed there p

  after_start :
      (incoming : List ℕ) (left start : ℕ) (there : Bool) (c : Compared)
      → Agrees there c
      → ((used : ℕ)
          → used ≤ budget
          → Tried
              (starts_there existing incoming left (suc start))
              (try_starts existing budget incoming left (suc start) used))
      → Tried (there || starts_there existing incoming left (suc start)) (elim c [
        | exhausted used ↦ ok (probed budget_exhausted used)
        | compared true used ↦ ok (probed may_extend used)
        | compared false used ↦ try_starts existing budget incoming left (suc start) used
      ])
  unfolding Probed Agrees
  after_start incoming left start there (exhausted used) agrees later =
      (probed budget_exhausted used, refl, (omega arith, inl (refl, agrees)))
  after_start incoming left start true (compared true used) (same, le) later =
      (probed may_extend used, refl, (le, inr refl))
  after_start incoming left start false (compared true used) (same, le) later = absurd cc
  after_start incoming left start true (compared false used) (same, le) later = absurd cc
  after_start incoming left start false (compared false used) (same, le) later = later used le

  try_starts_lem :
      (incoming : List ℕ) (left start used : ℕ)
      → used ≤ budget
      → start + left + length incoming ≤ length existing
      → Tried
          (starts_there existing incoming left start)
          (try_starts existing budget incoming left start used)
  unfolding try_starts Probed
  try_starts_lem incoming zero start used le fits =
      (probed cannot_extend used, refl, (le, inr refl))
  try_starts_lem incoming (suc left) start used le fits =
      let (c, runs, agrees) = compare_bytes_lem incoming start 0 used le (omega arith) in
      let at_start : start ≡ start + 0 = omega arith in
      rw runs (
        after_start incoming left start (starts_with (drop start existing) incoming) c
          (rw (ap (λ n. starts_with (drop n existing) incoming) at_start) agrees)
          λ used' used_le. try_starts_lem incoming left (suc start) used' used_le (omega arith))

-- The probe always answers, without an access out of range and with no more comparisons than its
-- budget; it has used its budget up and says so, or it says rightly whether more bytes could extend
-- the overlap, that is whether the incoming text stands in the existing one in front of its last
-- bytes.
pub probe_continuation_extension_sound :
    (existing incoming : List ℕ) (comparison_budget : ℕ)
    → (p : ContinuationProbe) × (probe_continuation_extension existing incoming comparison_budget
        ≡ ok p)
      × (p.comparisons ≤ comparison_budget)
      × (((p.outcome ≡ budget_exhausted) × (p.comparisons ≡ comparison_budget))
          ⊎ (p.outcome ≡ verdict (could_extend existing incoming)))
unfolding probe_continuation_extension Probed
probe_continuation_extension_sound existing incoming comparison_budget =
    elim (Bool-cases (leb (length existing) (length incoming))) [
      | inl e ↦
          let none_left : length existing - length incoming ≡ 0 = ground arith in
          (probed cannot_extend 0, rw e refl, omega arith, rw none_left (inr refl))
      | inr e ↦
          let (p, runs, (le, answer)) =
            try_starts_lem existing comparison_budget incoming (length existing - length incoming) 0
              0 (omega arith) (ground arith) in
          (p, rw e runs, le, answer)
    ]
