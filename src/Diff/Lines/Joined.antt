-- ===== src/Diff/Lines/Joined.antt =====
-- The lines of src/diff.rs, joined again.
use fx_rust.Prelude.{
  ℕ, ◌≡◌, refl, ap, ◌∙◌, inl, inr, false, List, [], ◌∷◌, ◌++◌, ◌==◌, if◌then◌else◌, is_empty,
  append_assoc, Bool-cases, append-nil, sym, ==_iff, ◌||◌,
}
use fx_rust.Diff.Lines.{Line, lines_from, append_lines, ends_with_newline}

-- each line with the newline that ended it
abbrev pub join_lines : List Line → List ℕ
join_lines [] = []
join_lines (line ∷ lines) = (line ++ b'\n' ∷ []) ++ join_lines lines

-- the text, closed by a newline where a last line is open
abbrev pub close_line : List ℕ → List ℕ
close_line text = if is_empty text || ends_with_newline text then text else text ++ b'\n' ∷ []

ends_with_newline-append :
    (xs : List ℕ) (y : ℕ) (ys : List ℕ)
    → ends_with_newline (xs ++ y ∷ ys) ≡ ends_with_newline (y ∷ ys)
ends_with_newline-append [] y ys = refl
ends_with_newline-append (x ∷ []) y ys = refl
ends_with_newline-append (x ∷ z ∷ xs) y ys = ends_with_newline-append (z ∷ xs) y ys

is_empty-append : (xs : List ℕ) (y : ℕ) (ys : List ℕ) → is_empty (xs ++ y ∷ ys) ≡ false
is_empty-append [] y ys = refl
is_empty-append (x ∷ xs) y ys = refl

close_line_open :
    (text : List ℕ) (x : ℕ) (rest : List ℕ)
    → text ≡ x ∷ rest
    → ends_with_newline text ≡ false
    → close_line text ≡ text ++ b'\n' ∷ []
close_line_open text x rest e no_newline = rw no_newline (rw e refl)

-- A line that was closed stays in front of the closed rest.
close_line-append :
    (current text : List ℕ)
    → (current ++ b'\n' ∷ []) ++ close_line text ≡ close_line (current ++ b'\n' ∷ text)
close_line-append current [] =
    append-nil (current ++ b'\n' ∷ [])
    ∙ rw (ends_with_newline-append current b'\n' []) (rw (is_empty-append current b'\n' []) refl)
close_line-append current (x ∷ text) = rw (ends_with_newline-append current b'\n' (x ∷ text)) (
    rw (is_empty-append current b'\n' (x ∷ text))
      (elim (Bool-cases (ends_with_newline (x ∷ text))) [
        | inl e ↦ rw e (append_assoc current (b'\n' ∷ []) (x ∷ text))
        | inr e ↦ rw e (
            append_assoc current (b'\n' ∷ []) ((x ∷ text) ++ b'\n' ∷ [])
            ∙ sym (append_assoc current (b'\n' ∷ x ∷ text) (b'\n' ∷ [])))
      ]))

join_lines_from :
    (current text : List ℕ)
    → ends_with_newline current ≡ false
    → join_lines (lines_from current text) ≡ close_line (current ++ text)
unfolding lines_from
join_lines_from [] [] h = refl
join_lines_from (x ∷ current) [] h =
    append-nil ((x ∷ current) ++ b'\n' ∷ [])
    ∙ sym (close_line_open (x ∷ current) x current refl h)
    ∙ ap close_line (sym (append-nil (x ∷ current)))
join_lines_from current (byte ∷ text) h = elim (Bool-cases (byte == b'\n')) [
  | inl e ↦
      let newline : byte ≡ b'\n' = (==_iff byte b'\n').0 e in
      rw newline (
        ap (λ rest. (current ++ b'\n' ∷ []) ++ rest) (join_lines_from [] text refl)
        ∙ close_line-append current text)
  | inr e ↦ rw e (
      join_lines_from (current ++ byte ∷ []) text (ends_with_newline-append current byte [] ∙ e)
      ∙ ap close_line (append_assoc current (byte ∷ []) text))
]

-- The lines of a text, each closed by a newline and joined again, are the text, closed by a newline
-- where it is not empty and its last line is open.
pub join_lines-append_lines : (text : List ℕ) → join_lines (append_lines text) ≡ close_line text
unfolding append_lines
join_lines-append_lines text = join_lines_from [] text refl
