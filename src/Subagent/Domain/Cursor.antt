-- ===== src/Subagent/Domain/Cursor.antt =====
-- src/subagent_domain.rs: the page cursor, `seq:rev` or a bare sequence number.
use Prim.Native.Char.{Char, code}
use Prim.Native.String.{[], ◌∷◌, ◌++◌}
use text.Mathlib.TextLemmas.{nil-append, cons-append}
use fx_rust.Prelude.{
  ℕ, ◌≤◌, ◌≡◌, refl, false, String, Option, none, some, Result, ok, ok_or, ◌>>=◌, if◌then◌else◌,
  ◌==◌, any_char, arith,
}
use fx_rust.Prelude.U64.{u64_max, parse_u64, to_string, to_string-no_colon, parse_u64-to_string}
use fx_rust.Subagent.Domain.Types.{ValidationError, invalid_cursor}

abbrev cons_first : Char → Option (String × String) → Option (String × String)
cons_first c none = none
cons_first c (some (a, b)) = some (c ∷ a, b)

-- `cursor.split_once(':')`
split_once_colon : String → Option (String × String)
split_once_colon [] = none
split_once_colon (c ∷ s) =
    let rest = split_once_colon s in if code c == b':' then some ([], s) else cons_first c rest

-- The two numbers' texts; a bare sequence number has revision 0.
cursor_parts : String → Option (String × String) → String × String
cursor_parts cursor none = (cursor, "0")
cursor_parts cursor (some (s, r)) = (s, r)

unfoldable pub parse_cursor : String → Result ValidationError (ℕ × ℕ)
unfolding cursor_parts split_once_colon
parse_cursor cursor = do
  let parts = cursor_parts cursor (split_once_colon cursor)
  seq ← ok_or (parse_u64 parts.0) invalid_cursor
  rev ← ok_or (parse_u64 parts.1) invalid_cursor
  ok (seq, rev)

split_once_colon-append :
    (s t : String)
    → any_char (λ c. c == b':') s ≡ false
    → split_once_colon (s ++ ":" ++ t) ≡ some (s, t)
unfolding split_once_colon
split_once_colon-append [] t h = rw (nil-append, cons-append, nil-append)
split_once_colon-append (c ∷ s) t h = rw cons-append (ground (arith, split_once_colon-append s t))

split_once_colon-none :
    (s : String) → any_char (λ c. c == b':') s ≡ false → split_once_colon s ≡ none
unfolding split_once_colon
split_once_colon-none [] h = refl
split_once_colon-none (c ∷ s) h = ground (arith, split_once_colon-none s)

-- A printed pair of a sequence and a revision of 64 bits reads back as that pair.
pub parse_cursor-print :
    (seq rev : ℕ)
    → seq ≤ u64_max
    → rev ≤ u64_max
    → parse_cursor (to_string seq ++ ":" ++ to_string rev) ≡ ok (seq, rev)
unfolding parse_cursor
parse_cursor-print seq rev hs hr =
    rw
      (
        split_once_colon-append (to_string seq) (to_string rev) (to_string-no_colon seq),
        cursor_parts,
      )
      (ground (arith, parse_u64-to_string seq hs, parse_u64-to_string rev hr))

-- So does a printed sequence alone, with revision 0.
pub parse_cursor-print_bare : (seq : ℕ) → seq ≤ u64_max → parse_cursor (to_string seq) ≡ ok (seq, 0)
unfolding parse_cursor parse_u64
parse_cursor-print_bare seq h =
    rw (split_once_colon-none (to_string seq) (to_string-no_colon seq), cursor_parts)
      (rw (parse_u64-to_string seq h))
