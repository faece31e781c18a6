-- ===== src/Composer/KillRing/Bounds.antt =====
-- What the kill ring of src/input_composer.rs keeps.
use fx_rust.Prelude.{
  ℕ, zero, suc, ◌≤◌, ◌≡◌, refl, sym, ap, ◌∙◌, inl, inr, true, false, List, [], ◌∷◌, ◌++◌, some,
  arith, ◌==◌, length, length-take, length-append_one, append_assoc, append-nil, take, Bool-cases,
  ==_iff, ◌-◌,
}
use fx_rust.Composer.KillRing.{
  front_of, kill_onto, rotated, KillRing, new_ring, kill, yank, finish_kill, rotate,
}

-- the operations on a ring
pub data RingOp : Type 0 where
  kills : List ℕ → RingOp
  yanks : RingOp
  finishes : RingOp
  rotates : RingOp

abbrev pub apply_op : KillRing → RingOp → KillRing
apply_op ring (kills text) = kill text ring
apply_op ring yanks = ring
apply_op ring finishes = finish_kill ring
apply_op ring rotates = (rotate ring).0

abbrev pub apply_ops : KillRing → List RingOp → KillRing
apply_ops ring [] = ring
apply_ops ring (op ∷ ops) = apply_ops (apply_op ring op) ops

abbrev pub IsRing : KillRing → Type 0
IsRing ring = (1 ≤ ring.capacity) × (length ring.entries ≤ ring.capacity)

kill_onto-IsRing :
    (text : List ℕ) (ring : KillRing) (entries : List (List ℕ))
    → ring.entries ≡ entries
    → IsRing ring
    → IsRing (kill_onto text ring entries)
kill_onto-IsRing text ring [] same (pos, le) =
    (pos, omega (arith, length-take ring.capacity (text ∷ ring.entries)))
kill_onto-IsRing text ring (front ∷ entries) same (pos, le) =
    let one_more : length ring.entries ≡ suc (length entries) = ap length same in
    elim (Bool-cases (ring.rotation == 1)) [
      | inl e ↦ rw e (pos, omega (arith, one_more))
      | inr e ↦ rw e (pos, omega (arith, length-take ring.capacity (text ∷ ring.entries)))
    ]

kill-IsRing : (text : List ℕ) (ring : KillRing) → IsRing ring → IsRing (kill text ring)
unfolding kill
kill-IsRing [] ring h = h
kill-IsRing (x ∷ text) ring h = kill_onto-IsRing (x ∷ text) ring ring.entries refl h

length-rotated : (entries : List (List ℕ)) → length (rotated entries) ≡ length entries
length-rotated [] = refl
length-rotated (front ∷ entries) = length-append_one entries front

apply_op-IsRing : (ring : KillRing) (op : RingOp) → IsRing ring → IsRing (apply_op ring op)
unfolding finish_kill rotate
apply_op-IsRing ring (kills text) h = kill-IsRing text ring h
apply_op-IsRing ring yanks h = h
apply_op-IsRing ring finishes h = h
apply_op-IsRing ring rotates (pos, le) = (pos, omega (arith, length-rotated ring.entries))

apply_ops-IsRing : (ops : List RingOp) (ring : KillRing) → IsRing ring → IsRing (apply_ops ring ops)
apply_ops-IsRing [] ring h = h
apply_ops-IsRing (op ∷ ops) ring h =
    apply_ops-IsRing ops (apply_op ring op) (apply_op-IsRing ring op h)

-- A new ring has room for an entry, and after any operations in any order it holds no more entries
-- than its capacity.
pub new_ring-IsRing :
    (capacity : ℕ) (ops : List RingOp) → IsRing (apply_ops (new_ring capacity) ops)
new_ring-IsRing capacity ops = apply_ops-IsRing ops (new_ring capacity) (omega arith, omega arith)

abbrev pub kill_all : KillRing → List (List ℕ) → KillRing
kill_all ring [] = ring
kill_all ring (text ∷ texts) = kill_all (kill text ring) texts

abbrev pub concat : List (List ℕ) → List ℕ
concat [] = []
concat (text ∷ texts) = text ++ concat texts

kill_onto_front :
    (text : List ℕ) (ring : KillRing) (front : List ℕ) (entries es : List (List ℕ))
    → es ≡ front ∷ entries
    → ring.rotation ≡ 1
    → ((kill_onto text ring es).entries ≡ (front ++ text) ∷ entries)
      × ((kill_onto text ring es).rotation ≡ 1)
kill_onto_front text ring front entries [] same on = absurd cc
kill_onto_front text ring front entries (f ∷ es) same on =
    let is_on : (ring.rotation == 1) ≡ true = (==_iff ring.rotation 1).1 on in
    let same_front : f ≡ front = cc in
    let same_rest : es ≡ entries = cc in (rw is_on (rw same_front (rw same_rest refl)), rw is_on on)

-- A run of kills goes on: the front grows by each text.
kill_run :
    (texts : List (List ℕ)) (ring : KillRing) (front : List ℕ) (entries : List (List ℕ))
    → ring.entries ≡ front ∷ entries
    → ring.rotation ≡ 1
    → (kill_all ring texts).entries ≡ (front ++ concat texts) ∷ entries
unfolding kill
kill_run [] ring front entries same on = same ∙ ap (λ xs. xs ∷ entries) (sym (append-nil front))
kill_run ([] ∷ texts) ring front entries same on = kill_run texts ring front entries same on
kill_run ((x ∷ text) ∷ texts) ring front entries same on =
    let (grown, still_on) = kill_onto_front (x ∷ text) ring front entries ring.entries same on in
    kill_run texts (kill_onto (x ∷ text) ring ring.entries) (front ++ x ∷ text) entries grown
      still_on
    ∙ ap (λ xs. xs ∷ entries) (append_assoc front (x ∷ text) (concat texts))

take_some :
    (text : List ℕ) (entries : List (List ℕ)) (n : ℕ)
    → 1 ≤ n
    → take n (text ∷ entries) ≡ text ∷ take (n - 1) entries
take_some text entries zero pos = absurd (omega arith)
take_some text entries (suc n) pos =
    ap (λ k. text ∷ take k entries) {x = n} {y = suc n - 1} (omega arith)

kill_onto_new :
    (text : List ℕ) (ring : KillRing) (es : List (List ℕ))
    → 1 ≤ ring.capacity
    → ring.rotation ≡ 0
    → (older : List (List ℕ)) × ((kill_onto text ring es).entries ≡ text ∷ older)
      × ((kill_onto text ring es).rotation ≡ 1)
kill_onto_new text ring [] pos off =
    (take (ring.capacity - 1) ring.entries, take_some text ring.entries ring.capacity pos, refl)
kill_onto_new text ring (f ∷ es) pos off =
    let is_off : (ring.rotation == 1) ≡ false = ground arith in
    (
      take (ring.capacity - 1) ring.entries,
      rw is_off (take_some text ring.entries ring.capacity pos),
      rw is_off refl,
    )

-- In a ring with room for an entry, the text that is yanked after a run of kills, of which the
-- first is not empty, is what the run killed, joined in order.
pub yank-kill_all :
    (ring : KillRing) (x : ℕ) (text : List ℕ) (texts : List (List ℕ))
    → 1 ≤ ring.capacity
    → yank (kill_all (finish_kill ring) ((x ∷ text) ∷ texts)) ≡ some (concat ((x ∷ text) ∷ texts))
unfolding kill finish_kill yank
yank-kill_all ring x text texts pos =
    let (older, first, on) =
      kill_onto_new (x ∷ text) (record ring { rotation = 0 }) ring.entries pos refl in
    ap front_of (
      kill_run texts (kill_onto (x ∷ text) (record ring { rotation = 0 }) ring.entries) (x ∷ text)
        older first on)
