-- ===== src/Diff/Compute/Sides.antt =====
-- The two texts can be read off a diff of src/diff.rs.
use mathlib.Core.List.{reverse-append}
use fx_rust.Prelude.{
  ℕ, zero, suc, ◌+◌, ◌≡◌, refl, sym, ap, ◌∙◌, true, List, [], ◌∷◌, ◌++◌, reverse, Option, some,
  arith, append-nil, length, take, get_elem?, lt-get_elem?, length-take,
}
use fx_rust.Diff.Lines.{Line}
use fx_rust.Diff.Compute.{
  DiffLine, LineOp, equal, add, remove, u32_of, all_removed, all_added, same_line,
}
use fx_rust.Diff.Compute.Common.{common}

abbrev pub Numbered : Type 0
Numbered = Option ℕ × Line

abbrev pub on_old : LineOp → Numbered → List Numbered → List Numbered
on_old equal line lines = line ∷ lines
on_old remove line lines = line ∷ lines
on_old add line lines = lines

abbrev pub on_new : LineOp → Numbered → List Numbered → List Numbered
on_new equal line lines = line ∷ lines
on_new remove line lines = lines
on_new add line lines = line ∷ lines

-- the lines of a diff that stand in the old text, with their numbers
unfoldable pub old_side : List DiffLine → List Numbered
old_side [] = []
old_side (d ∷ diff) = on_old d.op (d.old_num, d.text) (old_side diff)

unfoldable pub new_side : List DiffLine → List Numbered
new_side [] = []
new_side (d ∷ diff) = on_new d.op (d.new_num, d.text) (new_side diff)

-- lines, numbered from `k + 1` on
unfoldable pub numbered : ℕ → List Line → List Numbered
numbered k [] = []
numbered k (line ∷ lines) = (some (u32_of (k + 1)), line) ∷ numbered (k + 1) lines

on_old-append :
    (op : LineOp) (x : Numbered) (xs ys : List Numbered)
    → on_old op x xs ++ ys ≡ on_old op x (xs ++ ys)
on_old-append equal x xs ys = refl
on_old-append add x xs ys = refl
on_old-append remove x xs ys = refl

on_new-append :
    (op : LineOp) (x : Numbered) (xs ys : List Numbered)
    → on_new op x xs ++ ys ≡ on_new op x (xs ++ ys)
on_new-append equal x xs ys = refl
on_new-append add x xs ys = refl
on_new-append remove x xs ys = refl

pub old_side-append : (xs ys : List DiffLine) → old_side (xs ++ ys) ≡ old_side xs ++ old_side ys
unfolding old_side
old_side-append [] ys = refl
old_side-append (d ∷ xs) ys =
    ap (on_old d.op (d.old_num, d.text)) (old_side-append xs ys)
    ∙ sym (on_old-append d.op (d.old_num, d.text) (old_side xs) (old_side ys))

pub new_side-append : (xs ys : List DiffLine) → new_side (xs ++ ys) ≡ new_side xs ++ new_side ys
unfolding new_side
new_side-append [] ys = refl
new_side-append (d ∷ xs) ys =
    ap (on_new d.op (d.new_num, d.text)) (new_side-append xs ys)
    ∙ sym (on_new-append d.op (d.new_num, d.text) (new_side xs) (new_side ys))

-- The line that was pushed last is the first one.
reverse-cons {ℓ} : {A : Type ℓ} (x : A) (xs : List A) → reverse (x ∷ xs) ≡ reverse xs ++ x ∷ []
reverse-cons x xs = reverse-append (x ∷ []) xs

numbered-append_one :
    (k n : ℕ) (lines : List Line) (line : Line)
    → k + length lines ≡ n
    → numbered k (lines ++ line ∷ []) ≡ numbered k lines ++ (some (u32_of (n + 1)), line) ∷ []
unfolding numbered
numbered-append_one k n [] line e = let here : k ≡ n = omega arith in rw here refl
numbered-append_one k n (x ∷ lines) line e =
    ap (λ zs. (some (u32_of (k + 1)), x) ∷ zs)
      (numbered-append_one (k + 1) n lines line (omega arith))

take-suc {ℓ} :
    {A : Type ℓ} (xs : List A) (i : ℕ) (x : A)
    → get_elem? xs i ≡ some x
    → take (suc i) xs ≡ take i xs ++ x ∷ []
take-suc [] i x h = absurd cc
take-suc (y ∷ xs) zero x h = ground arith
take-suc (y ∷ xs) (suc i) x h = ap (λ zs. y ∷ zs) (take-suc xs i x h)

pub take_all {ℓ} : {A : Type ℓ} (xs : List A) → take (length xs) xs ≡ xs
take_all [] = refl
take_all (x ∷ xs) = ap (λ zs. x ∷ zs) (take_all xs)

pub same_line-eq : (a b : Line) → same_line a b ≡ true → a ≡ b
same_line-eq [] [] h = refl
same_line-eq [] (y ∷ b) h = absurd cc
same_line-eq (x ∷ a) [] h = absurd cc
same_line-eq (x ∷ a) (y ∷ b) h = ground (arith, same_line-eq a b)

pub all_removed-old :
    (k : ℕ) (lines : List Line) → old_side (all_removed k lines) ≡ numbered k lines
unfolding old_side all_removed numbered
all_removed-old k [] = refl
all_removed-old k (line ∷ lines) =
    ap (λ zs. (some (u32_of (k + 1)), line) ∷ zs) (all_removed-old (k + 1) lines)

pub all_removed-new : (k : ℕ) (lines : List Line) → new_side (all_removed k lines) ≡ []
unfolding new_side all_removed
all_removed-new k [] = refl
all_removed-new k (line ∷ lines) = all_removed-new (k + 1) lines

pub all_added-old : (k : ℕ) (lines : List Line) → old_side (all_added k lines) ≡ []
unfolding old_side all_added
all_added-old k [] = refl
all_added-old k (line ∷ lines) = all_added-old (k + 1) lines

pub all_added-new : (k : ℕ) (lines : List Line) → new_side (all_added k lines) ≡ numbered k lines
unfolding new_side all_added numbered
all_added-new k [] = refl
all_added-new k (line ∷ lines) =
    ap (λ zs. (some (u32_of (k + 1)), line) ∷ zs) (all_added-new (k + 1) lines)

-- 1 for a line that both texts have
abbrev pub kept_one : LineOp → ℕ
kept_one equal = 1
kept_one add = 0
kept_one remove = 0

unfoldable pub kept_lines : List DiffLine → ℕ
kept_lines [] = 0
kept_lines (d ∷ diff) = kept_one d.op + kept_lines diff

kept_lines-append : (xs ys : List DiffLine) → kept_lines (xs ++ ys) ≡ kept_lines xs + kept_lines ys
unfolding kept_lines
kept_lines-append [] ys = omega arith
kept_lines-append (d ∷ xs) ys = omega (arith, kept_lines-append xs ys)

pub kept_lines-reverse : (xs : List DiffLine) → kept_lines (reverse xs) ≡ kept_lines xs
unfolding kept_lines
kept_lines-reverse [] = refl
kept_lines-reverse (d ∷ xs) =
    ap kept_lines (reverse-cons d xs)
    ∙ kept_lines-append (reverse xs) (d ∷ [])
    ∙ omega (arith, kept_lines-reverse xs)

-- One line more at the end of a numbered prefix.
numbered-take :
    (lines : List Line) (i : ℕ) (x : Line)
    → get_elem? lines i ≡ some x
    → numbered 0 (take (suc i) lines) ≡ numbered 0 (take i lines) ++ (some (u32_of (suc i)), x) ∷ []
numbered-take lines i x e =
    ap (numbered 0) (take-suc lines i x e)
    ∙ numbered-append_one 0 i (take i lines) x
        (omega (arith, length-take i lines, lt-get_elem? lines i x e))
    ∙ ap (λ n. numbered 0 (take i lines) ++ (some (u32_of n), x) ∷ []) (omega arith)

module _ (old_lines new_lines : List Line) where
  -- What the way back has pushed when it has come down from the first `i` old and `j` new lines.
  abbrev pub Walked : ℕ → ℕ → List DiffLine → Type 0
  Walked i j pushed =
      (old_side (reverse pushed) ≡ numbered 0 (take i old_lines))
      × (new_side (reverse pushed) ≡ numbered 0 (take j new_lines))
      × (kept_lines pushed ≡ common old_lines new_lines i j)

  pub old_pushed :
      (i : ℕ) (x : Line) (d : DiffLine) (rest : List DiffLine)
      → get_elem? old_lines i ≡ some x
      → on_old d.op (d.old_num, d.text) [] ≡ (some (u32_of (suc i)), x) ∷ []
      → old_side (reverse rest) ≡ numbered 0 (take i old_lines)
      → old_side (reverse (d ∷ rest)) ≡ numbered 0 (take (suc i) old_lines)
  unfolding old_side
  old_pushed i x d rest e one h =
      ap old_side (reverse-cons d rest)
      ∙ old_side-append (reverse rest) (d ∷ [])
      ∙ rw h (rw one (sym (numbered-take old_lines i x e)))

  pub new_pushed :
      (j : ℕ) (y : Line) (d : DiffLine) (rest : List DiffLine)
      → get_elem? new_lines j ≡ some y
      → on_new d.op (d.new_num, d.text) [] ≡ (some (u32_of (suc j)), y) ∷ []
      → new_side (reverse rest) ≡ numbered 0 (take j new_lines)
      → new_side (reverse (d ∷ rest)) ≡ numbered 0 (take (suc j) new_lines)
  unfolding new_side
  new_pushed j y d rest e one h =
      ap new_side (reverse-cons d rest)
      ∙ new_side-append (reverse rest) (d ∷ [])
      ∙ rw h (rw one (sym (numbered-take new_lines j y e)))

  pub old_skipped :
      (d : DiffLine) (rest : List DiffLine)
      → on_old d.op (d.old_num, d.text) [] ≡ []
      → old_side (reverse (d ∷ rest)) ≡ old_side (reverse rest)
  unfolding old_side
  old_skipped d rest none_here =
      ap old_side (reverse-cons d rest)
      ∙ old_side-append (reverse rest) (d ∷ [])
      ∙ rw none_here (append-nil (old_side (reverse rest)))

  pub new_skipped :
      (d : DiffLine) (rest : List DiffLine)
      → on_new d.op (d.new_num, d.text) [] ≡ []
      → new_side (reverse (d ∷ rest)) ≡ new_side (reverse rest)
  unfolding new_side
  new_skipped d rest none_here =
      ap new_side (reverse-cons d rest)
      ∙ new_side-append (reverse rest) (d ∷ [])
      ∙ rw none_here (append-nil (new_side (reverse rest)))
