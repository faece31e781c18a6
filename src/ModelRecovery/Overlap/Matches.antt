-- ===== src/ModelRecovery/Overlap/Matches.antt =====
-- Overlaps of a pattern with a text that is read from the left, the bytes read last being first in
-- the list: the first `k` bytes of the pattern are the last `k` bytes read.
use fx_rust.Prelude.{
  ℕ, zero, suc, ◌≤◌, ◌≡◌, refl, ap, Bool, true, false, ◌&&◌, List, [], ◌∷◌, ◌++◌, Option, none,
  some, sym, inl, inr, Option-cases, lt-get_elem?, arith, ◌==◌, length, get_elem?,
}

abbrev pub is_byte : Option ℕ → ℕ → Bool
is_byte none c = false
is_byte (some x) c = c == x

abbrev pub matches : List ℕ → List ℕ → ℕ → Bool
matches p r zero = true
matches p [] (suc k) = false
matches p (c ∷ r) (suc k) = is_byte (get_elem? p k) c && matches p r k

-- the first `m` bytes of the pattern, the last of them first
abbrev pub push : Option ℕ → List ℕ → List ℕ
push none r = r
push (some c) r = c ∷ r

abbrev pub first : List ℕ → ℕ → List ℕ
first p zero = []
first p (suc m) = push (get_elem? p m) (first p m)

-- Shorter overlaps with a text that ends in the first `m` bytes of the pattern are overlaps with
-- these bytes.
pub matches-first :
    (p r : List ℕ) (m k : ℕ)
    → matches p r m ≡ true
    → k ≤ m
    → matches p (first p m) k ≡ matches p r k
matches-first p r m zero h le = refl
matches-first p r zero (suc k) h le = absurd (omega arith)
matches-first p [] (suc m) (suc k) h le = absurd cc
matches-first p (c ∷ r) (suc m) (suc k) h le = elim (Option-cases (get_elem? p m)) [
  | inl e ↦ absurd (ground (arith, e))
  | inr (x, e) ↦
      let byte_here : c ≡ x = ground (arith, e) in
      rw e (
        rw (matches-first p r m k (ground arith) (omega arith))
          (ap (λ y. is_byte (get_elem? p k) y && matches p r k) (sym byte_here)))
]

-- An overlap that the byte `c` continues.
abbrev pub continues : List ℕ → List ℕ → ℕ → ℕ → Bool
continues p r c k = is_byte (get_elem? p k) c && matches p r k

pub first-cons :
    (p : List ℕ) (m : ℕ) (x : ℕ) → get_elem? p m ≡ some x → first p (suc m) ≡ x ∷ first p m
first-cons p m x e = rw e refl

-- Appending an older byte changes no overlap within the newer ones.
pub matches-append : (p r s : List ℕ) (k : ℕ) → k ≤ length r → matches p (r ++ s) k ≡ matches p r k
matches-append p r s zero le = refl
matches-append p [] s (suc k) le = absurd (omega arith)
matches-append p (c ∷ r) s (suc k) le =
    ap (λ b. is_byte (get_elem? p k) c && b) (matches-append p r s k (omega arith))

pub matches-bounds : (p r : List ℕ) (k : ℕ) → matches p r k ≡ true → (k ≤ length r) × (k ≤ length p)
matches-bounds p r zero h = (omega arith, omega arith)
matches-bounds p [] (suc k) h = absurd cc
matches-bounds p (c ∷ r) (suc k) h = elim (Option-cases (get_elem? p k)) [
  | inl e ↦ absurd (ground (arith, e))
  | inr (x, e) ↦ ground (arith, lt-get_elem? p k x e, matches-bounds p r k)
]
