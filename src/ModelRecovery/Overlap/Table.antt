-- ===== src/ModelRecovery/Overlap/Table.antt =====
-- The prefix table of `exact_continuation_overlap`: each entry is the longest proper overlap of the
-- pattern's first bytes with themselves.
use native.Mathlib.Decide.{dec_lt}
use fx_rust.Prelude.{
  ℕ, zero, suc, ◌≤◌, ◌<◌, ◌≡◌, refl, sym, ap, ◌∙◌, ◌≢◌, true, not, List, [], ◌∷◌, ok, some, arith,
  length, drop, get_elem?, set, store-lt, length-set, length-drop, get_elem?-set,
  get_elem?-set_other, get_elem?-lt, lt-get_elem?, length-replicate, get_elem?-replicate, replicate,
}
use fx_rust.ModelRecovery.Overlap.{differs, fill_prefix, prefix_table}
use fx_rust.ModelRecovery.Overlap.Matches.{is_byte, matches, first, continues, first-cons}
use fx_rust.ModelRecovery.Overlap.FallBack.{Entry, round_lem, continues_parts}

pub differs_lem :
    (p : List ℕ) (c m : ℕ) → m < length p → differs p c m ≡ ok (not (is_byte (get_elem? p m) c))
unfolding differs
differs_lem p c m h = let (x, found) = get_elem?-lt p m h in rw found refl

drop-cons :
    (p : List ℕ) (i c : ℕ) (rest : List ℕ)
    → drop i p ≡ c ∷ rest
    → (get_elem? p i ≡ some c) × (drop (suc i) p ≡ rest)
drop-cons [] zero c rest h = absurd cc
drop-cons [] (suc i) c rest h = absurd cc
drop-cons (x ∷ p) zero c rest h = (ground arith, ground arith)
drop-cons (x ∷ p) (suc i) c rest h = drop-cons p i c rest h

module _ (p : List ℕ) where
  -- `matched` is the entry of index `j`.
  Longest : ℕ → ℕ → Type 0
  Longest j matched =
      (matched ≤ j)
      × (matches p (first p (suc j)) matched ≡ true)
      × ((k : ℕ) → k ≤ j → matches p (first p (suc j)) k ≡ true → k ≤ matched)

  Filled : List ℕ → ℕ → Type 0
  Filled prefix n = (m : ℕ) → m < n → Entry p prefix m

  Entry-kept : (prefix : List ℕ) (i l m : ℕ) → i ≢ m → Entry p prefix m → Entry p (set prefix i l) m
  Entry-kept prefix i l m ne (f, read, f_le, overlap, longest) =
      (f, get_elem?-set_other prefix i m l ne ∙ read, f_le, overlap, longest)

  Entry-new :
      (prefix : List ℕ) (j l : ℕ) → j < length prefix → Longest j l → Entry p (set prefix j l) j
  unfolding Longest
  Entry-new prefix j l lt (l_le, overlap, longest) =
      (l, get_elem?-set prefix j l lt, l_le, overlap, longest)

  Filled-suc :
      (prefix : List ℕ) (j l : ℕ)
      → j < length prefix
      → Longest j l
      → Filled prefix j
      → Filled (set prefix j l) (suc j)
  unfolding Filled
  Filled-suc prefix j l lt longest filled m m_lt = elim (dec_lt m j) [
    | yes older ↦ Entry-kept prefix j l m (λ e. absurd (omega arith)) (filled m older)
    | no newest ↦ let same : m ≡ j = omega arith in rw same (Entry-new prefix j l lt longest)
  ]

  longer_overlap :
      (j m l byte : ℕ)
      → ((k : ℕ) → k ≤ j → matches p (first p (suc j)) k ≡ true → k ≤ m)
      → ((k : ℕ) → k ≤ m → continues p (first p (suc j)) byte k ≡ true → suc k ≤ l)
      → (k : ℕ) → k ≤ suc j
      → matches p (byte ∷ first p (suc j)) k ≡ true
      → k ≤ l
  longer_overlap j m l byte old new zero k_le h = omega arith
  longer_overlap j m l byte old new (suc k) k_le h =
      new k (old k (omega arith) (continues_parts p (first p (suc j)) byte k h).1) h

  next-Longest :
      (j m l byte : ℕ)
      → get_elem? p (suc j) ≡ some byte
      → Longest j m
      → l ≤ suc m
      → matches p (byte ∷ first p (suc j)) l ≡ true
      → ((k : ℕ) → k ≤ m → continues p (first p (suc j)) byte k ≡ true → suc k ≤ l)
      → Longest (suc j) l
  unfolding Longest
  next-Longest j m l byte here (m_le, overlap, longest) l_le l_overlap l_longest =
      let read : first p (suc (suc j)) ≡ byte ∷ first p (suc j) = first-cons p (suc j) byte here in
      (
        omega arith,
        ap (λ r. matches p r l) read ∙ l_overlap,
        λ k k_le h.
            longer_overlap j m l byte longest l_longest k k_le
              (sym (ap (λ r. matches p r k) read) ∙ h),
      )

  abbrev pub IsTable : List ℕ → Type 0
  IsTable prefix = (m : ℕ) → m < length p → Entry p prefix m

  fill_prefix_lem :
      (rest : List ℕ) (j m : ℕ) (prefix : List ℕ)
      → drop (suc j) p ≡ rest
      → length prefix ≡ length p
      → Longest j m
      → Filled prefix (suc j)
      → (table : List ℕ) × (fill_prefix p (suc j) rest m prefix ≡ ok table) × IsTable table
  unfolding Longest Filled fill_prefix
  fill_prefix_lem [] j m prefix at_end same_length longest filled =
      (prefix, refl, λ n n_lt. filled n (omega (arith, length-drop (suc j) p, ap length at_end)))
  fill_prefix_lem (byte ∷ rest) j m prefix at_byte same_length (m_le, overlap, longest) filled =
      let (here, after) = drop-cons p (suc j) byte rest at_byte in
      let in_range = lt-get_elem? p (suc j) byte here in
      let (s, l, runs, extends, l_le, l_overlap, l_longest) =
        round_lem p prefix (suc j) filled byte (differs p byte) j (omega arith)
          (λ n n_le. differs_lem p byte n (omega arith)) (first p (suc j)) m (omega arith) m_le
          overlap in
      let (table, fills, is_table) =
        fill_prefix_lem rest (suc j) l (set prefix (suc j) l) after
          (length-set prefix (suc j) l ∙ same_length)
          (next-Longest j m l byte here (m_le, overlap, longest) l_le l_overlap l_longest)
          (Filled-suc prefix (suc j) l (omega arith)
            (next-Longest j m l byte here (m_le, overlap, longest) l_le l_overlap l_longest)
            filled) in
      (table, rw runs (rw extends (rw (store-lt prefix (suc j) l (omega arith)) fills)), is_table)

  first_entry : 0 < length p → Filled (replicate (length p) 0) 1
  unfolding Filled
  first_entry some_byte zero lt =
      (0, get_elem?-replicate (length p) 0 0 some_byte, omega arith, refl, λ k k_le h. k_le)
  first_entry some_byte (suc m) lt = absurd (omega arith)

  pub prefix_table_lem :
      0 < length p → (table : List ℕ) × (prefix_table p ≡ ok table) × IsTable table
  unfolding prefix_table Longest
  prefix_table_lem some_byte =
      fill_prefix_lem (drop 1 p) 0 0 (replicate (length p) 0) refl (length-replicate (length p) 0)
        (omega arith, refl, λ k k_le h. k_le) (first_entry some_byte)
