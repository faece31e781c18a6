-- ===== src/ModelRecovery/Overlap/Longest.antt =====
-- The overlap that `exact_continuation_overlap` of src/model_response_recovery.rs finds is the longest.
use native.Mathlib.Decide.{dec_lt}
use fx_rust.Prelude.{
  ℕ, zero, suc, ◌+◌, ◌≤◌, ◌<◌, ◌≡◌, refl, sym, ap, ◌∙◌, inl, inr, Bool, true, false, not, ◌&&◌,
  List, [], ◌∷◌, ◌++◌, ok, arith, ◌==◌, if◌then◌else◌, length, drop, starts_with, get_elem?,
  Bool-cases, get_elem?-end,
}
use fx_rust.ModelRecovery.Overlap.{full_or_differs, scan, exact_continuation_overlap}
use fx_rust.ModelRecovery.Overlap.Matches.{
  is_byte, matches, continues, matches-append, matches-bounds,
}
use fx_rust.ModelRecovery.Overlap.FallBack.{round_lem, continues_parts}
use fx_rust.ModelRecovery.Overlap.Table.{differs_lem, IsTable, prefix_table_lem}

-- The length of the longest end of `existing` that `incoming` starts with: the ends are tried one
-- after the other, the longest first.
unfoldable pub longest_overlap : List ℕ → List ℕ → ℕ
longest_overlap [] incoming = 0
longest_overlap (b ∷ existing) incoming =
    if starts_with incoming (b ∷ existing)
    then length (b ∷ existing)
    else longest_overlap existing incoming

-- `text` is read after `r`.
read : List ℕ → List ℕ → List ℕ
read [] r = r
read (c ∷ text) r = read text (c ∷ r)

length-read : (text r : List ℕ) → length (read text r) ≡ length text + length r
unfolding read
length-read [] r = omega arith
length-read (c ∷ text) r = omega (arith, length-read text (c ∷ r))

read-append : (text r s : List ℕ) → read text (r ++ s) ≡ read text r ++ s
unfolding read
read-append [] r s = refl
read-append (c ∷ text) r s = read-append text (c ∷ r) s

starts_with-drop :
    (p : List ℕ) (n c : ℕ) (text : List ℕ)
    → starts_with (drop n p) (c ∷ text)
      ≡ (is_byte (get_elem? p n) c && starts_with (drop (suc n) p) text)
starts_with-drop [] zero c text = refl
starts_with-drop [] (suc n) c text = refl
starts_with-drop (y ∷ p) zero c text = refl
starts_with-drop (y ∷ p) (suc n) c text = starts_with-drop p n c text

rotate_and : (a b c : Bool) → (b && (a && c)) ≡ ((a && b) && c)
rotate_and a b c = ground arith

matches-read_all :
    (p text r : List ℕ)
    → matches p (read text r) (length (read text r))
      ≡ (starts_with (drop (length r) p) text && matches p r (length r))
unfolding read
matches-read_all p [] r = refl
matches-read_all p (c ∷ text) r =
    matches-read_all p text (c ∷ r)
    ∙ rotate_and (is_byte (get_elem? p (length r)) c) (starts_with (drop (suc (length r)) p) text)
        (matches p r (length r))
    ∙ ap (λ b. b && matches p r (length r)) (sym (starts_with-drop p (length r) c text))

and_true : (b : Bool) → (b && true) ≡ b
and_true b = ground arith

matches-whole :
    (p text : List ℕ) → matches p (read text []) (length (read text [])) ≡ starts_with p text
matches-whole p text = matches-read_all p text [] ∙ and_true (starts_with p text)

-- An overlap is shorter than the text, where the pattern does not start with all of the text.
short_overlap :
    (p text : List ℕ) (l : ℕ)
    → matches p (read text []) l ≡ true
    → starts_with p text ≡ false
    → l < length text
short_overlap p text l h part = elim (dec_lt l (length text)) [
  | yes less ↦ less
  | no more ↦
      let same : l ≡ length (read text []) =
        omega (arith, length-read text [], (matches-bounds p (read text []) l h).0) in
      let whole : starts_with p text ≡ true =
        sym (matches-whole p text) ∙ ap (matches p (read text [])) (sym same) ∙ h in
      absurd cc
]

matches-older :
    (p text : List ℕ) (b k : ℕ)
    → k ≤ length text
    → matches p (read text (b ∷ [])) k ≡ matches p (read text []) k
matches-older p text b k le =
    ap (λ r. matches p r k) (read-append text [] (b ∷ []))
    ∙ matches-append p (read text []) (b ∷ []) k (omega (arith, length-read text []))

matches_more :
    (p text : List ℕ) (b k : ℕ)
    → matches p (read text []) k ≡ true
    → matches p (read text (b ∷ [])) k ≡ true
matches_more p text b k h =
    let fits : k ≤ length text =
      omega (arith, (matches-bounds p (read text []) k h).0, length-read text []) in
    matches-older p text b k fits ∙ h

longest_overlap_lem :
    (p text : List ℕ) (l : ℕ)
    → matches p (read text []) l ≡ true
    → ((k : ℕ) → matches p (read text []) k ≡ true → k ≤ l)
    → longest_overlap text p ≡ l
unfolding longest_overlap read
longest_overlap_lem p [] l h longest = ground (arith, matches-bounds p [] l h)
longest_overlap_lem p (b ∷ text) l h longest = elim (Bool-cases (starts_with p (b ∷ text))) [
  | inl whole ↦ rw whole (
      omega (
        arith,
        longest (length (read (b ∷ text) [])) (matches-whole p (b ∷ text) ∙ whole),
        (matches-bounds p (read (b ∷ text) []) l h).0,
        length-read (b ∷ text) [],
      ))
  | inr part ↦
      let less : l ≤ length text = omega (arith, short_overlap p (b ∷ text) l h part) in
      rw part (
        longest_overlap_lem p text l (sym (matches-older p text b l less) ∙ h)
          λ k k_h. longest k (matches_more p text b k k_h))
]

full_or_differs_lem :
    (p : List ℕ) (c m : ℕ)
    → m ≤ length p
    → full_or_differs p c m ≡ ok (not (is_byte (get_elem? p m) c))
unfolding full_or_differs
full_or_differs_lem p c m le = elim (dec_lt m (length p)) [
  | yes less ↦
      let below : (m == length p) ≡ false = ground arith in rw below (differs_lem p c m less)
  | no more ↦
      let end : (m == length p) ≡ true = ground arith in
      rw end (rw (get_elem?-end p m (omega arith)) refl)
]

longer_match :
    (p r : List ℕ) (c m l : ℕ)
    → ((k : ℕ) → matches p r k ≡ true → k ≤ m)
    → ((k : ℕ) → k ≤ m → continues p r c k ≡ true → suc k ≤ l)
    → (k : ℕ) → matches p (c ∷ r) k ≡ true
    → k ≤ l
longer_match p r c m l old new zero h = omega arith
longer_match p r c m l old new (suc k) h = new k (old k (continues_parts p r c k h).1) h

module _ (p table : List ℕ) (some_byte : 0 < length p) (filled : IsTable p table) where
  abbrev Scanned : List ℕ → List ℕ → ℕ → Type 0
  Scanned rest r m =
      (l : ℕ) × (scan p table rest m ≡ ok l)
      × (matches p (read rest r) l ≡ true)
      × ((k : ℕ) → matches p (read rest r) k ≡ true → k ≤ l)

  scan_lem :
      (rest r : List ℕ) (m : ℕ)
      → matches p r m ≡ true
      → ((k : ℕ) → matches p r k ≡ true → k ≤ m)
      → Scanned rest r m
  unfolding scan read
  scan_lem [] r m h longest = (m, refl, h, longest)
  scan_lem (c ∷ rest) r m h longest =
      let (s, l, runs, extends, l_le, l_overlap, l_longest) =
        round_lem p table (length p) filled c (full_or_differs p c) (length p) (omega arith)
          (full_or_differs_lem p c) r m some_byte (matches-bounds p r m h).1 h in
      let (last, scans, overlap, last_longest) =
        scan_lem rest (c ∷ r) l l_overlap (longer_match p r c m l longest l_longest) in
      (last, rw runs (rw extends scans), overlap, last_longest)

only_empty : (p : List ℕ) (k : ℕ) → matches p [] k ≡ true → k ≤ 0
only_empty p k h = (matches-bounds p [] k h).0

longest_overlap-nil : (text : List ℕ) → longest_overlap text [] ≡ 0
unfolding longest_overlap
longest_overlap-nil [] = refl
longest_overlap-nil (b ∷ text) = longest_overlap-nil text

-- For every two texts the linear scan with its prefix table ends within the fuel and without an
-- access out of range, and its result is the length of the longest end of the existing text that
-- the incoming text starts with.
pub exact_continuation_overlap_longest :
    (existing incoming : List ℕ)
    → exact_continuation_overlap existing incoming ≡ ok (longest_overlap existing incoming)
unfolding exact_continuation_overlap longest_overlap read
exact_continuation_overlap_longest [] incoming = ap ok refl
exact_continuation_overlap_longest (b ∷ existing) [] =
    ap ok (sym (longest_overlap-nil (b ∷ existing)))
exact_continuation_overlap_longest (b ∷ existing) (c ∷ incoming) =
    let some_byte : 0 < length (c ∷ incoming) = omega arith in
    let (table, fills, filled) = prefix_table_lem (c ∷ incoming) some_byte in
    let (l, scans, overlap, longest) =
      scan_lem (c ∷ incoming) table some_byte filled (b ∷ existing) [] 0 refl
        (only_empty (c ∷ incoming)) in
    rw fills
      (scans ∙ ap ok (sym (longest_overlap_lem (c ∷ incoming) (b ∷ existing) l overlap longest)))
