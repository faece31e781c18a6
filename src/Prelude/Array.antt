-- ===== src/Prelude/Array.antt =====
-- Rust's slices and vectors by index: `xs.get(i)` and the write `xs[i] = x`, which is `none` where
-- the index is out of range and Rust panics.
use Prim.Native.Nat.{ℕ, zero, suc, ◌≤◌, ◌<◌}
use mathlib.Core.Path.{◌≡◌, refl, ap}
use mathlib.Core.Logic.{◌≢◌}
use mathlib.Core.List.{List, [], ◌∷◌}
use mathlib.Core.Option.{Option, none, some}
use native.Mathlib.Omega.{arith}
use fx_rust.Prelude.Tests.{ltb, if◌then◌else◌}
use fx_rust.Prelude.Lists.{length}
use fx_rust.Prelude.Outcome.{Result, ok_or}

-- what ends a run of the program, or of its model: a panic, or the end of the fuel
pub data Fault : Type 0 where
  out_of_range : Fault
  out_of_fuel : Fault

module _ {ℓ} {A : Type ℓ} where
  abbrev pub get_elem? : List A → ℕ → Option A
  get_elem? [] i = none
  get_elem? (x ∷ xs) zero = some x
  get_elem? (x ∷ xs) (suc i) = get_elem? xs i

  abbrev pub set : List A → ℕ → A → List A
  set [] i a = []
  set (x ∷ xs) zero a = a ∷ xs
  set (x ∷ xs) (suc i) a = x ∷ set xs i a

  abbrev pub store : List A → ℕ → A → Option (List A)
  store xs i a = if ltb i (length xs) then some (set xs i a) else none

  -- `xs[i]`
  abbrev pub at : List A → ℕ → Result Fault A
  at xs i = ok_or (get_elem? xs i) out_of_range

  -- `xs[i] = a`
  abbrev pub write : List A → ℕ → A → Result Fault (List A)
  write xs i a = ok_or (store xs i a) out_of_range

  abbrev pub replicate : ℕ → A → List A
  replicate zero a = []
  replicate (suc n) a = a ∷ replicate n a

  pub length-replicate : (n : ℕ) (a : A) → length (replicate n a) ≡ n
  length-replicate zero a = refl
  length-replicate (suc n) a = ap suc (length-replicate n a)

  pub get_elem?-lt : (xs : List A) (i : ℕ) → i < length xs → (a : A) × (get_elem? xs i ≡ some a)
  get_elem?-lt [] i h = absurd (omega arith)
  get_elem?-lt (x ∷ xs) zero h = (x, refl)
  get_elem?-lt (x ∷ xs) (suc i) h = get_elem?-lt xs i (omega arith)

  pub lt-get_elem? : (xs : List A) (i : ℕ) (a : A) → get_elem? xs i ≡ some a → i < length xs
  lt-get_elem? [] i a h = ground arith
  lt-get_elem? (x ∷ xs) zero a h = omega arith
  lt-get_elem? (x ∷ xs) (suc i) a h = ground (arith, lt-get_elem? xs i a h)

  pub length-set : (xs : List A) (i : ℕ) (a : A) → length (set xs i a) ≡ length xs
  length-set [] i a = refl
  length-set (x ∷ xs) zero a = refl
  length-set (x ∷ xs) (suc i) a = ap suc (length-set xs i a)

  pub get_elem?-set :
      (xs : List A) (i : ℕ) (a : A) → i < length xs → get_elem? (set xs i a) i ≡ some a
  get_elem?-set [] i a h = absurd (omega arith)
  get_elem?-set (x ∷ xs) zero a h = refl
  get_elem?-set (x ∷ xs) (suc i) a h = get_elem?-set xs i a (omega arith)

  pub get_elem?-set_other :
      (xs : List A) (i j : ℕ) (a : A) → i ≢ j → get_elem? (set xs i a) j ≡ get_elem? xs j
  get_elem?-set_other [] i j a ne = refl
  get_elem?-set_other (x ∷ xs) zero zero a ne = absurd (ne refl)
  get_elem?-set_other (x ∷ xs) zero (suc j) a ne = refl
  get_elem?-set_other (x ∷ xs) (suc i) zero a ne = refl
  get_elem?-set_other (x ∷ xs) (suc i) (suc j) a ne =
      get_elem?-set_other xs i j a (λ e. ne (ap suc e))

  pub store-lt : (xs : List A) (i : ℕ) (a : A) → i < length xs → store xs i a ≡ some (set xs i a)
  store-lt xs i a h = ground arith

  pub get_elem?-replicate : (n i : ℕ) (a : A) → i < n → get_elem? (replicate n a) i ≡ some a
  get_elem?-replicate zero i a h = absurd (omega arith)
  get_elem?-replicate (suc n) zero a h = refl
  get_elem?-replicate (suc n) (suc i) a h = get_elem?-replicate n i a (omega arith)

  pub get_elem?-end : (xs : List A) (i : ℕ) → length xs ≤ i → get_elem? xs i ≡ none
  get_elem?-end [] i h = refl
  get_elem?-end (x ∷ xs) zero h = absurd (omega arith)
  get_elem?-end (x ∷ xs) (suc i) h = get_elem?-end xs i (omega arith)
