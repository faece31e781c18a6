-- ===== src/Prelude/Equality.antt =====
-- `PartialEq` as an interface, and the loops that refuse a repeated element: `contains` on a slice
-- and the check of each element against those before it.
use Prim.Native.String.{String}
use mathlib.Core.Path.{◌≡◌, refl}
use mathlib.Core.Logic.{◌↔◌}
use mathlib.Core.Bool.{Bool, true, false, ◌&&◌, ◌||◌, not, decide, decide_iff}
use mathlib.Core.List.{List, [], ◌∷◌, ◌++◌}
use native.Mathlib.Omega.{arith}
use text.Mathlib.Text.{◌==◌ as str_eq}
use text.Mathlib.TextEquality.{eq_iff}
use fx_rust.Prelude.Lists.{All}

pub record Eq {ℓ} (A : Type ℓ) : Type ℓ where
  pub equals : A → A → Bool
  pub equals_iff : (a b : A) → (equals a b ≡ true) ↔ (a ≡ b)

instance abbrev pub string_eq : Eq String
string_eq = record { equals_iff = eq_iff; equals = str_eq }

-- The derived equality of an enumeration.
abbrev pub enum_eq {ℓ} : {A : Type ℓ} → Discrete A → Eq A
enum_eq d = record { equals = λ a b. decide (d a b); equals_iff = λ a b. decide_iff (d a b) }

-- `a == b`
abbrev pub same {ℓ} : {A : Type ℓ} ⦃e : Eq A⦄ → A → A → Bool
same ⦃e⦄ = e.equals

module _ {ℓ} {A : Type ℓ} ⦃e : Eq A⦄ where
  -- `xs.contains(&a)`
  abbrev pub contains : List A → A → Bool
  contains [] a = false
  contains (x ∷ xs) a = e.equals x a || contains xs a

  -- No two places of the list hold the same value.
  abbrev pub Distinct : List A → Type 0
  Distinct [] = Unit {0}
  Distinct (x ∷ xs) = (contains xs x ≡ false) × Distinct xs

  -- The loop over `i`: no element is in `xs[..i]`, where `seen` holds what the loop has passed.
  abbrev pub no_repeats : List A → List A → Bool
  no_repeats seen [] = true
  no_repeats seen (x ∷ xs) = not (contains seen x) && no_repeats (seen ++ x ∷ []) xs

  pub beq_refl : (a : A) → e.equals a a ≡ true
  beq_refl a = (e.equals_iff a a).1 refl

  pub beq_symm : (a b : A) → e.equals a b ≡ e.equals b a
  beq_symm a b = ground (arith, e.equals_iff a b, e.equals_iff b a)

  pub contains-append_one :
      (xs : List A) (y a : A) → contains (xs ++ y ∷ []) a ≡ (contains xs a || e.equals y a)
  contains-append_one [] y a = ground arith
  contains-append_one (x ∷ xs) y a = ground (arith, contains-append_one xs y a)

  pub Distinct-append_one :
      (xs : List A) (y : A) → Distinct xs → contains xs y ≡ false → Distinct (xs ++ y ∷ [])
  Distinct-append_one [] y d h = (refl, tt)
  Distinct-append_one (x ∷ xs) y d h = (
    ground (arith, contains-append_one xs y x, beq_symm x y, d.0, h),
    Distinct-append_one xs y d.1 (ground (arith, h)),
  )

  -- What a list and the elements passed so far satisfy when the loop finds no repeat.
  abbrev AllNew : List A → List A → Type 0
  AllNew seen xs = All (λ x. contains seen x ≡ false) xs

  AllNew-append_one :
      (seen : List A) (y : A) (xs : List A)
      → AllNew (seen ++ y ∷ []) xs ↔ (AllNew seen xs × (contains xs y ≡ false))
  AllNew-append_one seen y [] = (λ h. (tt, refl), λ h. tt)
  AllNew-append_one seen y (x ∷ xs) =
      let ih = AllNew-append_one seen y xs in
      (
        λ h.
            let one = contains-append_one seen y x in
            let rest = ih.0 h.1 in
            ((ground (arith, one, h.0), rest.0), ground (arith, one, h.0, beq_symm x y, rest.1)),
        λ h. (
          ground (arith, contains-append_one seen y x, h.0.0, h.1, beq_symm x y),
          ih.1 (h.0.1, ground (arith, h.1)),
        ),
      )

  no_repeats_iff : (seen xs : List A) → (no_repeats seen xs ≡ true) ↔ (AllNew seen xs × Distinct xs)
  no_repeats_iff seen [] = (λ h. (tt, tt), λ h. refl)
  no_repeats_iff seen (x ∷ xs) =
      let ih = no_repeats_iff (seen ++ x ∷ []) xs in
      let step = AllNew-append_one seen x xs in
      (
        λ h.
            let found = ih.0 (ground (arith, h)) in
            let split = step.0 found.0 in ((ground (arith, h), split.0), (split.1, found.1)),
        λ h. let rest = ih.1 (step.1 (h.0.1, h.1.0), h.1.1) in ground (arith, rest, h.0.0),
      )

  -- The loop that starts with nothing passed accepts exactly the lists without a repeat.
  pub no_repeats-Distinct : (xs : List A) → (no_repeats [] xs ≡ true) ↔ Distinct xs
  no_repeats-Distinct xs =
      let e = no_repeats_iff [] xs in (λ h. (e.0 h).1, λ d. e.1 (nothing xs, d))
    where
      nothing : (ys : List A) → AllNew [] ys
      nothing [] = tt
      nothing (y ∷ ys) = (refl, nothing ys)
