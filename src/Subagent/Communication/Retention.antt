-- ===== src/Subagent/Communication/Retention.antt =====
-- The ledger against its whole history: what `deliver` retains is the end of the list of all
-- deliveries that were ever made.
use fx_rust.Prelude.{
  ℕ, zero, suc, ◌+◌, ◌-◌, ◌≤◌, ◌<◌, ◌≡◌, refl, sym, ap, ◌∙◌, ℤ, String, List, [], ◌∷◌, ◌++◌, arith,
  length, drop, length-append_one, length-drop, drop-drop, drop-append_left, ltb, keep, ok, some,
}
use text.Mathlib.TextPositions.{eq_refl}
use native.Mathlib.Nat.{add-zero, add-suc, suc-add}
use native.Mathlib.Decide.{dec_lt}
use fx_rust.Prelude.U64.{u64_max}
use fx_rust.Subagent.Communication.{
  Ledger, Delivery, DeliveryPayload, new_ledger, evict, deliver, new_delivery, max_deliveries, load,
}

-- Consecutive sequences from `k` on.
abbrev pub Numbered : ℕ → List Delivery → Type 0
Numbered k [] = Unit {0}
Numbered k (d ∷ ds) = (d.sequence ≡ k) × Numbered (suc k) ds

Numbered-append_one :
    (k : ℕ) (ds : List Delivery) (d : Delivery)
    → Numbered k ds
    → d.sequence ≡ k + length ds
    → Numbered k (ds ++ d ∷ [])
Numbered-append_one k [] d h e = (omega arith, tt)
Numbered-append_one k (x ∷ ds) d (e', h) e = (e', Numbered-append_one (suc k) ds d h (omega arith))

pub Numbered-drop : (k n : ℕ) (ds : List Delivery) → Numbered k ds → Numbered (k + n) (drop n ds)
Numbered-drop k zero ds h = rw add-zero h
Numbered-drop k (suc n) [] h = tt
Numbered-drop k (suc n) (d ∷ ds) h = rw (add-suc, ← suc-add) (Numbered-drop (suc k) n ds h.1)

-- The loop keeps the end of the list, of at most the permitted length.
evict-drop :
    (ds : List Delivery) (through : ℕ) → (evict ds through).0 ≡ drop (length ds - max_deliveries) ds
unfolding evict
evict-drop [] through = refl
evict-drop (d ∷ ds) through = elim (dec_lt max_deliveries (length (d ∷ ds))) [
  | yes many ↦
      let e : length (d ∷ ds) - max_deliveries ≡ suc (length ds - max_deliveries) = omega arith in
      rw e (ground (arith, evict-drop ds d.sequence))
  | no few ↦ let e : length (d ∷ ds) - max_deliveries ≡ 0 = omega arith in rw e (ground arith)
]

-- It remembers the last sequence that went.
evict-through :
    (k : ℕ) (ds : List Delivery) (through : ℕ)
    → Numbered k ds
    → suc through ≡ k
    → suc (evict ds through).1 ≡ k + (length ds - max_deliveries)
unfolding evict
evict-through k [] through h e = omega arith
evict-through k (d ∷ ds) through h e = ground (arith, evict-through (suc k) ds d.sequence)

-- `h` is every delivery ever made on the ledger, in order.
pub record HasHistory (l : Ledger) (h : List Delivery) : Type 0 where
  pub numbered : Numbered 1 h
  pub retained : l.deliveries ≡ drop (length h - max_deliveries) h
  pub next : l.next_sequence ≡ suc (length h)
  pub through : l.parent_turn_evicted_through ≡ length h - max_deliveries

pub new_ledger-HasHistory : (session_id : String) → HasHistory (new_ledger session_id) []
new_ledger-HasHistory session_id = record {
  numbered = tt;
  retained = refl;
  next = refl;
  through = omega arith;
}

-- A delivery adds itself to the history, under the next sequence, and the ledger still holds the
-- end of the history: its last 256 deliveries, or all of them while there are no more. It is shown
-- while the history is shorter than 2 ^ 64 - 2.
pub deliver_refines :
    (l : Ledger) (h : List Delivery) (source target : String) (payload : DeliveryPayload) (t : ℤ)
    → HasHistory l h
    → suc (length h) < u64_max
    → let (l', d) = deliver l source target payload t in
      HasHistory l' (h ++ d ∷ []) × (length l'.deliveries ≤ max_deliveries)
unfolding deliver
deliver_refines l h source target payload t r b =
    let d = new_delivery l source target payload t in
    let n = length h - max_deliveries in
    let xs = l.deliveries ++ d ∷ [] in
    let whole : xs ≡ drop n (h ++ d ∷ []) =
      ap (λ ds. ds ++ d ∷ []) r.retained ∙ sym (drop-append_left n h (d ∷ []) (omega arith)) in
    let size : length xs ≡ suc (length h) - n =
      ap length whole ∙ length-drop n (h ++ d ∷ []) ∙ ap (λ k. k - n) (length-append_one h d) in
    let numbers : Numbered 1 (h ++ d ∷ []) =
      Numbered-append_one 1 h d r.numbered (omega (arith, r.next)) in
    let kept : (evict xs l.parent_turn_evicted_through).0
        ≡ drop (length (h ++ d ∷ []) - max_deliveries) (h ++ d ∷ []) =
      evict-drop xs l.parent_turn_evicted_through
      ∙ ap (drop (length xs - max_deliveries)) whole
      ∙ drop-drop (length xs - max_deliveries) n (h ++ d ∷ [])
      ∙ ap (λ k. drop k (h ++ d ∷ [])) (omega (arith, size, length-append_one h d)) in
    let gone =
      evict-through (1 + n) xs l.parent_turn_evicted_through
        (rw whole (Numbered-drop 1 n (h ++ d ∷ []) numbers)) (omega (arith, r.through)) in
    (
      record {
        numbered = numbers;
        retained = kept;
        next = omega (arith, r.next, length-append_one h d);
        through = omega (arith, gone, size, length-append_one h d);
      },
      omega (
        arith,
        ap length kept,
        length-drop (length (h ++ d ∷ []) - max_deliveries) (h ++ d ∷ []),
      ),
    )

keep_newer :
    (k t : ℕ) (ds : List Delivery) → Numbered k ds → t < k → keep (λ d. ltb t d.sequence) ds ≡ ds
keep_newer k t [] h b = refl
keep_newer k t (d ∷ ds) h b = ground (arith, keep_newer (suc k) t ds)

-- A ledger that holds the end of its history is the same ledger after it was written and read back
-- under its own id.
pub load_saved :
    (l : Ledger) (h : List Delivery) → HasHistory l h → load l.session_id (some (ok l)) ≡ ok l
unfolding load
load_saved l h r =
    let n = length h - max_deliveries in
    let numbers : Numbered (1 + n) l.deliveries = rw r.retained (Numbered-drop 1 n h r.numbered) in
    rw (eq_refl l.session_id) (
      ap (λ ds. ok (record l { deliveries = ds }))
        (keep_newer (1 + n) l.parent_turn_evicted_through l.deliveries numbers
          (omega (arith, r.through))))
