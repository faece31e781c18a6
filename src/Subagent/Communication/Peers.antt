-- ===== src/Subagent/Communication/Peers.antt =====
-- Consumer cursors and the notifications of active work.
use fx_rust.Prelude.{
  ℕ, ◌≡◌, Bool, String, List, [], ◌∷◌, ◌++◌, arith, max, inl, inr, str_eq, eq_iff, find,
  update_first, if◌then◌else◌, some, none, string_eq, Option-cases,
}
use fx_rust.Subagent.Communication.{
  Ledger, ConsumerCursor, cursor_for, advance_cursor, cursor_sequence,
}

abbrev is_of : String → ConsumerCursor → Bool
is_of id c = str_eq c.consumer_id id

-- A write through the first cursor of `id` that is found.
update_cursor :
    (cursors : List ConsumerCursor) (id j : String) (n : ℕ) (c : ConsumerCursor)
    → find (is_of id) cursors ≡ some c
    → cursor_sequence (
        find
          (is_of j)
          (update_first (is_of id) (λ c. record c { sequence = max n c.sequence }) cursors))
      ≡ (if str_eq id j then max n c.sequence else cursor_sequence (find (is_of j) cursors))
update_cursor [] id j n c h = cc
update_cursor (x ∷ cursors) id j n c h = ground (
  arith,
  update_cursor cursors id j n c,
  eq_iff x.consumer_id id,
  eq_iff x.consumer_id j,
  eq_iff id j,
)

append_cursor :
    (cursors : List ConsumerCursor) (id j : String) (n : ℕ)
    → find (is_of id) cursors ≡ none
    → cursor_sequence (find (is_of j) (cursors ++ record { consumer_id = id; sequence = n } ∷ []))
      ≡ (if str_eq id j then max n 0 else cursor_sequence (find (is_of j) cursors))
append_cursor [] id j n h = ground arith
append_cursor (x ∷ cursors) id j n h = ground (
  arith,
  append_cursor cursors id j n,
  eq_iff x.consumer_id id,
  eq_iff x.consumer_id j,
  eq_iff id j,
)

-- Advancing a consumer moves its cursor to the later of its position and the given sequence, never
-- back, and moves no other consumer's cursor.
pub cursor_for-advance_cursor :
    (l : Ledger) (id j : String) (n : ℕ)
    → cursor_for (advance_cursor l id n) j
      ≡ (if str_eq id j then max n (cursor_for l id) else cursor_for l j)
unfolding cursor_for advance_cursor
cursor_for-advance_cursor l id j n = elim (Option-cases (find (is_of id) l.cursors)) [
  | inl e ↦ rw e (append_cursor l.cursors id j n e)
  | inr (c, e) ↦ rw e (update_cursor l.cursors id j n c e)
]
