-- ===== src/ModelRecovery/Overlap/FallBack.antt =====
-- One round of both loops of `exact_continuation_overlap`: from the longest overlap with what was
-- read, falling back and extending by the next byte gives the longest overlap with one byte more.
use fx_rust.Prelude.{
  Fault, ℕ, zero, suc, ◌≤◌, ◌<◌, ◌≡◌, ◌≢◌, refl, ◌∙◌, ◌⊎◌, inl, inr, Bool, true, false, not, List,
  some, ◌∷◌, ◌==◌, arith, get_elem?, Result, ok, ◌&&◌, ap, sym, length, lt-get_elem?, get_elem?-lt,
  Bool-cases, Option-cases,
}
use native.Mathlib.Decide.{dec_lt}
use fx_rust.ModelRecovery.Overlap.{fall_back, extend}
use fx_rust.ModelRecovery.Overlap.Matches.{is_byte, matches, first, continues, matches-first}

-- The entry at index `m` is the longest proper overlap of the first `m + 1` bytes with themselves.
abbrev pub Entry : List ℕ → List ℕ → ℕ → Type 0
Entry p prefix m =
    (f : ℕ) × (get_elem? prefix m ≡ some f)
    × (f ≤ m)
    × (matches p (first p (suc m)) f ≡ true)
    × ((k : ℕ) → k ≤ m → matches p (first p (suc m)) k ≡ true → k ≤ f)

and_parts : (a b : Bool) → (a && b) ≡ true → (a ≡ true) × (b ≡ true)
and_parts true b h = (refl, h)
and_parts false b h = absurd cc

pub continues_parts :
    (p r : List ℕ) (c k : ℕ)
    → continues p r c k ≡ true
    → (is_byte (get_elem? p k) c ≡ true) × (matches p r k ≡ true)
continues_parts p r c k = and_parts (is_byte (get_elem? p k) c) (matches p r k)

false≢true : false ≢ true
false≢true h = cc

module _ (p prefix : List ℕ) (n : ℕ) (filled : (m : ℕ) → m < n → Entry p prefix m) (c : ℕ)
    (test : ℕ → Result Fault Bool) (top : ℕ) (top_le : top ≤ n)
    (test_lem : (m : ℕ) → m ≤ top → test m ≡ ok (not (is_byte (get_elem? p m) c)))
    (r : List ℕ) where
  below :
      (m k : ℕ)
      → is_byte (get_elem? p (suc m)) c ≡ false
      → k ≤ suc m
      → continues p r c k ≡ true
      → k ≤ m
  below m k e le more = elim (dec_lt m k) [
    | yes over ↦
        let same : k ≡ suc m = omega arith in
        absurd (
          false≢true (
            sym e
            ∙ ap (λ j. is_byte (get_elem? p j) c) (sym same)
            ∙ (continues_parts p r c k more).0))
    | no le_m ↦ omega arith
  ]

  Fallen : ℕ → ℕ → Type 0
  Fallen fuel m =
      (s : ℕ) × (fall_back test prefix fuel m ≡ ok s)
      × (s ≤ m)
      × (matches p r s ≡ true)
      × ((s ≡ 0) ⊎ (is_byte (get_elem? p s) c ≡ true))
      × ((k : ℕ) → k ≤ m → continues p r c k ≡ true → k ≤ s)

  fall_back_lem : (fuel m : ℕ) → m ≤ fuel → m ≤ top → matches p r m ≡ true → Fallen fuel m
  unfolding Fallen fall_back
  fall_back_lem fuel zero le le_top h =
      (zero, refl, omega arith, refl, inl refl, λ k k_le more. k_le)
  fall_back_lem zero (suc m) le le_top h = absurd (omega arith)
  fall_back_lem (suc fuel) (suc m) le le_top h =
      elim (Bool-cases (is_byte (get_elem? p (suc m)) c)) [
        | inl e ↦ (
          suc m,
          rw (test_lem (suc m) le_top) (rw e refl),
          omega arith,
          h,
          inr e,
          λ k k_le more. k_le,
        )
        | inr e ↦
            let (f, read, f_le, overlap, longest) = filled m (omega arith) in
            let (s, runs, s_le, s_overlap, halts, s_longest) =
              fall_back_lem fuel f (omega arith) (omega arith)
                (sym (matches-first p r (suc m) f h (omega arith)) ∙ overlap) in
            (
              s,
              rw (test_lem (suc m) le_top) (rw e (rw read runs)),
              omega arith,
              s_overlap,
              halts,
              λ k k_le more.
                  s_longest k
                    (longest k (below m k e k_le more)
                      (matches-first p r (suc m) k h k_le ∙ (continues_parts p r c k more).1))
                    more,
            )
      ]

  Extended : ℕ → ℕ → Type 0
  Extended m s =
      (l : ℕ) × (extend p c s ≡ ok l)
      × (l ≤ suc m)
      × (matches p (c ∷ r) l ≡ true)
      × ((k : ℕ) → k ≤ m → continues p r c k ≡ true → suc k ≤ l)

  in_range : (s : ℕ) → 0 < length p → (s ≡ 0) ⊎ (is_byte (get_elem? p s) c ≡ true) → s < length p
  in_range s some_byte (inl start) = omega arith
  in_range s some_byte (inr e) = elim (Option-cases (get_elem? p s)) [
    | inl missing ↦ absurd (ground (arith, missing, e))
    | inr (x, found) ↦ lt-get_elem? p s x found
  ]

  extend_here :
      (m s x : ℕ)
      → get_elem? p s ≡ some x
      → s ≤ m
      → matches p r s ≡ true
      → (s ≡ 0) ⊎ (is_byte (get_elem? p s) c ≡ true)
      → ((k : ℕ) → k ≤ m → continues p r c k ≡ true → k ≤ s)
      → Extended m s
  unfolding Extended extend
  extend_here m s x found le h halts longest = elim (Bool-cases (c == x)) [
    | inl e ↦ (
      suc s,
      rw found (rw e (ap ok (omega arith))),
      omega arith,
      rw found (rw e h),
      λ k k_le more. let k_s : k ≤ s = longest k k_le more in omega arith,
    )
    | inr e ↦
        let byte_no : is_byte (get_elem? p s) c ≡ false = rw found e in
        let start : s ≡ 0 = elim halts [
          | inl z ↦ z
          | inr byte ↦ absurd (false≢true (sym byte_no ∙ byte))
        ] in
        (
          s,
          rw found (rw e refl),
          omega arith,
          ap (matches p (c ∷ r)) start,
          λ k k_le more.
              let k_s : k ≤ s = longest k k_le more in
              let same : k ≡ s = omega arith in
              absurd (
                false≢true (
                  sym byte_no
                  ∙ ap (λ j. is_byte (get_elem? p j) c) (sym same)
                  ∙ (continues_parts p r c k more).0)),
        )
  ]

  abbrev pub Round : ℕ → Type 0
  Round m =
      (s : ℕ) × (l : ℕ) × (fall_back test prefix m m ≡ ok s)
      × (extend p c s ≡ ok l)
      × (l ≤ suc m)
      × (matches p (c ∷ r) l ≡ true)
      × ((k : ℕ) → k ≤ m → continues p r c k ≡ true → suc k ≤ l)

  pub round_lem : (m : ℕ) → 0 < length p → m ≤ top → matches p r m ≡ true → Round m
  unfolding Fallen Extended
  round_lem m some_byte le h =
      let (s, runs, s_le, overlap, halts, longest) = fall_back_lem m m (omega arith) le h in
      let (x, found) = get_elem?-lt p s (in_range s some_byte halts) in
      let (l, extends, l_le, l_overlap, l_longest) =
        extend_here m s x found s_le overlap halts longest in
      (s, l, runs, extends, l_le, l_overlap, l_longest)
