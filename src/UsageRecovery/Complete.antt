-- ===== src/UsageRecovery/Complete.antt =====
-- What the collection of src/usage_recovery.rs holds where it does not say that something is unknown.
use fx_rust.Prelude.{
  ℕ, ◌≤◌, ◌≡◌, refl, sym, ap, ◌∙◌, inl, inr, Bool, true, false, not, List, [], ◌∷◌, ◌++◌, map,
  Option, some, none, arith, length, length-append_one, append_assoc, append-nil, Bool-cases, ltb,
  ltb→lt, if◌then◌else◌, String, unwrap_or, Result, ok, err,
}
use fx_rust.UsageRecovery.{
  OwnedRecovery, PendingMarker, Incident, UsageRecoverySession, Session, UsageRecord, unknown_if,
  push_pending, push_incident, superseded, as_i64, at_least, needs_recovery, collect_session,
  collect_loaded, collect_marked, collect_from_home, ledger_totals, default_recovery, incomplete,
}

-- no more markers and incidents than their caps, and as many of one as of the other
abbrev pub IsBounded : OwnedRecovery → Type 0
IsBounded r =
    (length r.pending ≤ 4096)
    × (length r.incidents ≤ 4096)
    × (length r.incidents ≡ length r.pending)

abbrev ids : List PendingMarker → List String
ids = map (λ m. m.id)

ids-append_one :
    (ms : List PendingMarker) (m : PendingMarker) → ids (ms ++ m ∷ []) ≡ ids ms ++ m.id ∷ []
ids-append_one [] m = refl
ids-append_one (first ∷ ms) m = ap (λ rest. first.id ∷ rest) (ids-append_one ms m)

unknown_if-IsBounded : (b : Bool) (r : OwnedRecovery) → IsBounded r → IsBounded (unknown_if b r)
unknown_if-IsBounded true r h = h
unknown_if-IsBounded false r h = h

pushed-IsBounded :
    (m : PendingMarker) (i : Incident) (r : OwnedRecovery)
    → IsBounded r
    → IsBounded (push_incident i (push_pending m r))
pushed-IsBounded m i r (le, le', same) =
    let more = length-append_one r.pending m in
    let more' = length-append_one r.incidents i in
    elim (Bool-cases (ltb (length r.pending) 4096)) [
      | inl e ↦
          rw e
            (rw same (rw e (omega (arith, ltb→lt), omega (arith, ltb→lt), omega (arith, ltb→lt))))
      | inr e ↦ rw e (rw same (rw e (le, le', same)))
    ]

true_known : {P : Type 0} → true ≡ false → P
true_known h = ground arith

unknown_if-known :
    (b : Bool) (r : OwnedRecovery) → (unknown_if b r).unknown_pending ≡ false → unknown_if b r ≡ r
unknown_if-known true r h = true_known h
unknown_if-known false r h = refl

push_pending-known :
    (m : PendingMarker) (r : OwnedRecovery)
    → (push_pending m r).unknown_pending ≡ false
    → (r.unknown_pending ≡ false) × (ids (push_pending m r).pending ≡ ids r.pending ++ m.id ∷ [])
push_pending-known m r = elim (Bool-cases (ltb (length r.pending) 4096)) [
  | inl e ↦ rw e (λ h. (h, ids-append_one r.pending m))
  | inr e ↦ rw e (λ h. true_known h)
]

push_incident-known :
    (i : Incident) (r : OwnedRecovery)
    → (push_incident i r).unknown_pending ≡ false
    → (r.unknown_pending ≡ false) × ((push_incident i r).pending ≡ r.pending)
push_incident-known i r = elim (Bool-cases (ltb (length r.incidents) 4096)) [
  | inl e ↦ rw e (λ h. (h, refl))
  | inr e ↦ rw e (λ h. true_known h)
]

collect_session-IsBounded :
    (m : UsageRecoverySession) (s : Session) (t : ℕ) (r : OwnedRecovery)
    → IsBounded r
    → IsBounded (collect_session m s t r)
unfolding collect_session needs_recovery
collect_session-IsBounded m s t r h = elim (Bool-cases (ltb t s.total_tokens)) [
  | inl e ↦ rw e (
      pushed-IsBounded (record { id = m.id; observed_at_ms = as_i64 s.updated_ms })
        (record { occurred_at_ms = as_i64 s.updated_ms; completeness = incomplete })
        (unknown_if (not (at_least (as_i64 s.updated_ms) m.protected_updated_at_ms)) r)
        (unknown_if-IsBounded (not (at_least (as_i64 s.updated_ms) m.protected_updated_at_ms)) r h))
  | inr e ↦ rw e (unknown_if-IsBounded (not (superseded m s)) r h)
]

-- the marker that a session which loads adds
abbrev pub unsettled : UsageRecoverySession → Session → ℕ → List String
unsettled m s t = if needs_recovery s t then m.id ∷ [] else []

collect_session-known :
    (m : UsageRecoverySession) (s : Session) (t : ℕ) (r : OwnedRecovery)
    → (collect_session m s t r).unknown_pending ≡ false
    → (r.unknown_pending ≡ false)
      × (ids (collect_session m s t r).pending ≡ ids r.pending ++ unsettled m s t)
unfolding collect_session needs_recovery
collect_session-known m s t r =
    let early = not (at_least (as_i64 s.updated_ms) m.protected_updated_at_ms) in
    let settled = not (superseded m s) in
    let marker : PendingMarker = record { id = m.id; observed_at_ms = as_i64 s.updated_ms } in
    let incident : Incident = record {
      occurred_at_ms = as_i64 s.updated_ms;
      completeness = incomplete;
    } in
    elim (Bool-cases (ltb t s.total_tokens)) [
      | inl e ↦ rw e (λ h.
          let listed = push_incident-known incident (push_pending marker (unknown_if early r)) h in
          let warned = push_pending-known marker (unknown_if early r) listed.0 in
          let same = unknown_if-known early r warned.0 in
          (
            rw same at warned.0,
            ap ids listed.1 ∙ warned.1 ∙ ap (λ x. ids x.pending ++ m.id ∷ []) same,
          ))
      | inr e ↦ rw e (λ h.
          let same = unknown_if-known settled r h in
          (rw same at h, ap (λ x. ids x.pending) same ∙ sym (append-nil (ids r.pending))))
    ]

module _ {E : Type 0} (load_by_id : String → Result E (Option Session))
    (totals : String → Option ℕ) where
  abbrev unsettled_loaded : UsageRecoverySession → Result E (Option Session) → Option (List String)
  unsettled_loaded m (ok (some s)) = some (unsettled m s (unwrap_or (totals m.id) 0))
  unsettled_loaded m (ok none) = none
  unsettled_loaded m (err _) = none

  abbrev joined : Option (List String) → Option (List String) → Option (List String)
  joined (some xs) (some ys) = some (xs ++ ys)
  joined (some xs) none = none
  joined none ys = none

  -- the marked sessions with more tokens than the ledger has, in order, where all of them load
  abbrev pub all_unsettled : List UsageRecoverySession → Option (List String)
  all_unsettled [] = some []
  all_unsettled (m ∷ ms) = joined (unsettled_loaded m (load_by_id m.id)) (all_unsettled ms)

  collect_loaded-IsBounded :
      (m : UsageRecoverySession) (loaded : Result E (Option Session)) (r : OwnedRecovery)
      → IsBounded r
      → IsBounded (collect_loaded load_by_id totals m loaded r)
  collect_loaded-IsBounded m (ok (some s)) r h =
      collect_session-IsBounded m s (unwrap_or (totals m.id) 0) r h
  collect_loaded-IsBounded m (ok none) r h = h
  collect_loaded-IsBounded m (err _) r h = h

  collect_marked-IsBounded :
      (ms : List UsageRecoverySession) (r : OwnedRecovery)
      → IsBounded r
      → IsBounded (collect_marked load_by_id totals ms r)
  unfolding collect_marked
  collect_marked-IsBounded [] r h = h
  collect_marked-IsBounded (m ∷ ms) r h =
      collect_marked-IsBounded ms (collect_loaded load_by_id totals m (load_by_id m.id) r)
        (collect_loaded-IsBounded m (load_by_id m.id) r h)

  collect_loaded-known :
      (m : UsageRecoverySession) (loaded : Result E (Option Session)) (r : OwnedRecovery)
      → (collect_loaded load_by_id totals m loaded r).unknown_pending ≡ false
      → (r.unknown_pending ≡ false)
        × ((xs : List String) × (unsettled_loaded m loaded ≡ some xs)
            × (ids (collect_loaded load_by_id totals m loaded r).pending ≡ ids r.pending ++ xs))
  collect_loaded-known m (ok (some s)) r h =
      let step = collect_session-known m s (unwrap_or (totals m.id) 0) r h in
      (step.0, (unsettled m s (unwrap_or (totals m.id) 0), refl, step.1))
  collect_loaded-known m (ok none) r h = true_known h
  collect_loaded-known m (err _) r h = true_known h

  collect_marked-known :
      (ms : List UsageRecoverySession) (r : OwnedRecovery)
      → (collect_marked load_by_id totals ms r).unknown_pending ≡ false
      → (r.unknown_pending ≡ false)
        × ((xs : List String) × (all_unsettled ms ≡ some xs)
            × (ids (collect_marked load_by_id totals ms r).pending ≡ ids r.pending ++ xs))
  unfolding collect_marked
  collect_marked-known [] r h = (h, ([], refl, sym (append-nil (ids r.pending))))
  collect_marked-known (m ∷ ms) r h =
      let next = collect_loaded load_by_id totals m (load_by_id m.id) r in
      let later = collect_marked-known ms next h in
      let now = collect_loaded-known m (load_by_id m.id) r later.0 in
      let (known, (xs, loads, here)) = now in
      let (_, (ys, all_load, there)) = later in
      (
        known,
        (
          xs ++ ys,
          rw loads (rw all_load refl),
          there ∙ ap (λ l. l ++ ys) here ∙ append_assoc (ids r.pending) xs ys,
        ),
      )

-- Whatever is marked and however it loads, the collection holds at most 4096 pending markers and as
-- many incidents as markers.
pub collect_from_home-IsBounded :
    {E : Type 0} (load_by_id : String → Result E (Option Session)) (ledger : List UsageRecord)
    (marked : List UsageRecoverySession)
    → IsBounded (collect_from_home load_by_id ledger marked)
unfolding collect_from_home
collect_from_home-IsBounded load_by_id ledger marked =
    collect_marked-IsBounded load_by_id (ledger_totals (λ id. none) ledger) marked default_recovery
      (omega arith, omega arith, refl)

-- Where the collection does not say that something is unknown, every marked session was loaded, and
-- the pending markers are the ids of exactly those of them whose tokens exceed what the ledger has
-- for the session, in the order of the registry.
pub collect_from_home-known :
    {E : Type 0} (load_by_id : String → Result E (Option Session)) (ledger : List UsageRecord)
    (marked : List UsageRecoverySession)
    → (collect_from_home load_by_id ledger marked).unknown_pending ≡ false
    → all_unsettled load_by_id (ledger_totals (λ id. none) ledger) marked
      ≡ some (map (λ m. m.id) (collect_from_home load_by_id ledger marked).pending)
unfolding collect_from_home
collect_from_home-known load_by_id ledger marked h =
    let (_, (xs, loads, same)) =
      collect_marked-known load_by_id (ledger_totals (λ id. none) ledger) marked default_recovery
        h in
    loads ∙ ap some (sym same)
