-- ===== src/Prelude/U64.antt =====
-- Rust's `u64`: its range, `checked_add(1)` and the unchecked `+ 1` of a release build, and the
-- decimal text of `Display` and `FromStr`.
use Prim.Native.Char.{Char, code}
use Prim.Native.Nat.{ℕ, zero, suc, ◌+◌, ◌-◌, ◌*◌, ◌/◌, ◌%◌, ◌≤◌, ◌<◌}
use Prim.Native.String.{String, [], ◌∷◌}
use fx_rust.Prelude.Text.{any_char}
use mathlib.Core.Path.{◌≡◌, refl, ap, ◌∙◌}
use mathlib.Core.Logic.{inl, inr}
use mathlib.Core.Bool.{Bool, true, false, ◌&&◌}
use mathlib.Core.Option.{Option, none, some}
use native.Mathlib.Omega.{arith}
use fx_rust.Prelude.Tests.{ltb, leb, ◌==◌, if◌then◌else◌, Bool-cases}

abbrev pub u64_max : ℕ
u64_max = 18446744073709551615

-- `n.checked_add(1)`
abbrev pub checked_suc : ℕ → Option ℕ
checked_suc n = if ltb n u64_max then some (n + 1) else none

-- `n + 1`, which wraps in a release build
abbrev pub wrapping_suc : ℕ → ℕ
wrapping_suc n = (n + 1) % 18446744073709551616

abbrev digit : ℕ → Char
digit zero = "0"
digit (suc zero) = "1"
digit (suc (suc zero)) = "2"
digit (suc (suc (suc zero))) = "3"
digit (suc (suc (suc (suc zero)))) = "4"
digit (suc (suc (suc (suc (suc zero))))) = "5"
digit (suc (suc (suc (suc (suc (suc zero)))))) = "6"
digit (suc (suc (suc (suc (suc (suc (suc zero))))))) = "7"
digit (suc (suc (suc (suc (suc (suc (suc (suc zero)))))))) = "8"
digit (suc (suc (suc (suc (suc (suc (suc (suc (suc n))))))))) = "9"

-- The digits of `n` in front of `out`; the fuel falls at least as fast as `n`.
digits : ℕ → ℕ → String → String
digits zero n out = out
digits (suc f) n out =
    let more = digits f (n / 10) (digit (n % 10) ∷ out) in
    if n / 10 == 0 then digit (n % 10) ∷ out else more

-- `n.to_string()`
unfoldable pub to_string : ℕ → String
unfolding digits
to_string n = digits (suc n) n []

abbrev is_digit : ℕ → Bool
is_digit c = leb b'0' c && leb c b'9'

-- The digits of a text, behind a value read so far; an overflow is an error.
scan : String → ℕ → Option ℕ
scan [] n = some n
scan (c ∷ s) n =
    let rest = scan s (n * 10 + (code c - b'0')) in
    if is_digit (code c) && leb (n * 10 + (code c - b'0')) u64_max then rest else none

nonempty_digits : String → Option ℕ
unfolding scan
nonempty_digits [] = none
nonempty_digits (c ∷ s) = scan (c ∷ s) 0

-- `s.parse::<u64>()`: digits, behind an optional plus sign
unfoldable pub parse_u64 : String → Option ℕ
unfolding nonempty_digits
parse_u64 [] = none
parse_u64 (c ∷ s) = if code c == b'+' then nonempty_digits s else nonempty_digits (c ∷ s)

digit_code : (d : ℕ) → d < 10 → code (digit d) ≡ d + b'0'
digit_code zero h = refl
digit_code (suc zero) h = refl
digit_code (suc (suc zero)) h = refl
digit_code (suc (suc (suc zero))) h = refl
digit_code (suc (suc (suc (suc zero)))) h = refl
digit_code (suc (suc (suc (suc (suc zero))))) h = refl
digit_code (suc (suc (suc (suc (suc (suc zero)))))) h = refl
digit_code (suc (suc (suc (suc (suc (suc (suc zero))))))) h = refl
digit_code (suc (suc (suc (suc (suc (suc (suc (suc zero)))))))) h = refl
digit_code (suc (suc (suc (suc (suc (suc (suc (suc (suc zero))))))))) h = refl
digit_code (suc (suc (suc (suc (suc (suc (suc (suc (suc (suc n)))))))))) h = absurd (omega arith)

scan-digit :
    (m d : ℕ) (out : String)
    → d < 10
    → m * 10 + d ≤ u64_max
    → scan (digit d ∷ out) m ≡ scan out (m * 10 + d)
unfolding scan
scan-digit m d out h b =
    let e : d + b'0' - b'0' ≡ d = omega arith in rw (digit_code d h, e) (ground arith)

scan-digits : (f n : ℕ) (out : String) → n < f → n ≤ u64_max → scan (digits f n out) 0 ≡ scan out n
unfolding digits
scan-digits zero n out h b = elim h [ ]
scan-digits (suc f) n out h b = elim (Bool-cases (n / 10 == 0)) [
  | inl last ↦
      let e : 0 * 10 + n % 10 ≡ n = ground arith in
      rw last (rw (scan-digit 0 (n % 10) out (omega arith) (ground arith), e))
  | inr more ↦
      let e : n / 10 * 10 + n % 10 ≡ n = omega arith in
      rw more (
        scan-digits f (n / 10) (digit (n % 10) ∷ out) (ground arith) (omega arith)
        ∙ scan-digit (n / 10) (n % 10) out (omega arith) (omega arith)
        ∙ ap (scan out) e)
]

-- The printed text starts with a digit, whatever stands behind it.
abbrev LeadsWithDigit : String → Type 0
LeadsWithDigit [] = ⊥
LeadsWithDigit (c ∷ s) = is_digit (code c) ≡ true

digits_lead : (f n : ℕ) (out : String) → n < f → LeadsWithDigit (digits f n out)
unfolding digits
digits_lead zero n out h = elim h [ ]
digits_lead (suc f) n out h = elim (Bool-cases (n / 10 == 0)) [
  | inl last ↦ rw last (rw (digit_code (n % 10) (omega arith)) (ground arith))
  | inr more ↦ rw more (digits_lead f (n / 10) (digit (n % 10) ∷ out) (ground arith))
]

parse_leading : (s : String) → LeadsWithDigit s → parse_u64 s ≡ scan s 0
unfolding parse_u64
parse_leading [] h = absurd h
parse_leading (c ∷ s) h = ground arith

-- A printed number reads back as itself.
pub parse_u64-to_string : (n : ℕ) → n ≤ u64_max → parse_u64 (to_string n) ≡ some n
unfolding to_string scan
parse_u64-to_string n h =
    parse_leading (digits (suc n) n []) (digits_lead (suc n) n [] (omega arith))
    ∙ scan-digits (suc n) n [] (omega arith) h

-- Two numbers with one text are equal.
pub to_string_inj : (m n : ℕ) → m ≤ u64_max → n ≤ u64_max → to_string m ≡ to_string n → m ≡ n
to_string_inj m n hm hn e = cc (parse_u64-to_string m hm, parse_u64-to_string n hn)

digits-no_colon :
    (f n : ℕ) (out : String)
    → any_char (λ c. c == b':') out ≡ false
    → any_char (λ c. c == b':') (digits f n out) ≡ false
unfolding digits
digits-no_colon zero n out h = h
digits-no_colon (suc f) n out h =
    let here = digit_code (n % 10) (omega arith) in
    let first : any_char (λ c. c == b':') (digit (n % 10) ∷ out) ≡ false = rw here (ground arith) in
    elim (Bool-cases (n / 10 == 0)) [
      | inl last ↦ rw last first
      | inr more ↦ rw more (digits-no_colon f (n / 10) (digit (n % 10) ∷ out) first)
    ]

-- The printed text holds no colon.
pub to_string-no_colon : (n : ℕ) → any_char (λ c. c == b':') (to_string n) ≡ false
unfolding to_string
to_string-no_colon n = digits-no_colon (suc n) n [] refl
