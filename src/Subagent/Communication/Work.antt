-- ===== src/Subagent/Communication/Work.antt =====
-- The notifications of active work on a ledger.
use fx_rust.Prelude.{
  ◌≤◌, ◌≡◌, refl, ap, ◌∙◌, ℤ, Bool, String, List, [], ◌∷◌, ◌++◌, arith, length, map, length-keep-le,
  true, not, ◌&&◌, Bool-cases, inl, inr, str_eq, eq_iff, any, keep, Distinct, contains, string_eq,
  Distinct-append_one,
}
use fx_rust.Subagent.Communication.{
  Ledger, WorkNotification, note_active_work, trim_notifications, clear_work_notification,
  max_active_work_notifications,
}

abbrev work_ids : List WorkNotification → List String
work_ids ns = map (λ n. n.work_id) ns

-- At most eight notifications, and one for each work at most.
pub record HasWork (ns : List WorkNotification) : Type 0 where
  pub few : length ns ≤ max_active_work_notifications
  pub distinct : Distinct (work_ids ns)

abbrev pub is_noted : List WorkNotification → String → Bool
is_noted ns work_id = any (λ n. str_eq n.work_id work_id) ns

contains-work_ids :
    (ns : List WorkNotification) (w : String) → contains (work_ids ns) w ≡ is_noted ns w
contains-work_ids [] w = refl
contains-work_ids (n ∷ ns) w = ground (arith, contains-work_ids ns w)

work_ids-append :
    (ns : List WorkNotification) (n : WorkNotification)
    → work_ids (ns ++ n ∷ []) ≡ work_ids ns ++ n.work_id ∷ []
work_ids-append [] n = refl
work_ids-append (x ∷ ns) n = ap (λ ids. x.work_id ∷ ids) (work_ids-append ns n)

length-trim_notifications :
    (ns : List WorkNotification) → length (trim_notifications ns) ≤ max_active_work_notifications
unfolding trim_notifications
length-trim_notifications [] = omega arith
length-trim_notifications (n ∷ ns) = ground (arith, length-trim_notifications ns)

trim_notifications-Distinct :
    (ns : List WorkNotification)
    → Distinct (work_ids ns)
    → Distinct (work_ids (trim_notifications ns))
unfolding trim_notifications
trim_notifications-Distinct [] h = tt
trim_notifications-Distinct (n ∷ ns) h = ground (arith, trim_notifications-Distinct ns h.1)

is_noted-append :
    (ns : List WorkNotification) (n : WorkNotification) → is_noted (ns ++ n ∷ []) n.work_id ≡ true
is_noted-append [] n = ground (arith, eq_iff n.work_id n.work_id)
is_noted-append (x ∷ ns) n = ground (arith, is_noted-append ns n)

trim_notifications_last :
    (ns : List WorkNotification) (n : WorkNotification)
    → is_noted (trim_notifications (ns ++ n ∷ [])) n.work_id ≡ true
unfolding trim_notifications
trim_notifications_last [] n = ground (arith, eq_iff n.work_id n.work_id)
trim_notifications_last (x ∷ ns) n =
    ground (arith, trim_notifications_last ns n, is_noted-append (x ∷ ns) n)

abbrev new_note : String → String → String → ℤ → WorkNotification
new_note work_id child kind now = record {
  work_id = work_id;
  source_child_id = child;
  kind = kind;
  observed_at_ms = now;
}

-- The work is noted afterwards.
note_active_work_noted :
    (l : Ledger) (work_id child kind : String) (now : ℤ)
    → is_noted (note_active_work l work_id child kind now).work_notifications work_id ≡ true
unfolding note_active_work
note_active_work_noted l work_id child kind now =
    elim (Bool-cases (is_noted l.work_notifications work_id)) [
      | inl e ↦ rw e e
      | inr e ↦
          rw e (trim_notifications_last l.work_notifications (new_note work_id child kind now))
    ]

note_again :
    (l : Ledger) (work_id child kind : String) (now : ℤ)
    → is_noted l.work_notifications work_id ≡ true
    → note_active_work l work_id child kind now ≡ l
unfolding note_active_work
note_again l work_id child kind now h = rw h refl

note_active_work-HasWork :
    (l : Ledger) (work_id child kind : String) (now : ℤ)
    → HasWork l.work_notifications
    → HasWork (note_active_work l work_id child kind now).work_notifications
unfolding note_active_work
note_active_work-HasWork l work_id child kind now h =
    elim (Bool-cases (is_noted l.work_notifications work_id)) [
      | inl e ↦ rw e h
      | inr e ↦
          let note = new_note work_id child kind now in
          let distinct =
            Distinct-append_one (work_ids l.work_notifications) work_id h.distinct
              (contains-work_ids l.work_notifications work_id ∙ e) in
          rw e (record {
            few = length-trim_notifications (l.work_notifications ++ note ∷ []);
            distinct =
                trim_notifications-Distinct (l.work_notifications ++ note ∷ [])
                  (rw (work_ids-append l.work_notifications note) distinct);
          })
    ]

-- On a ledger with at most eight notifications of distinct works, noting work keeps at most eight
-- notifications with distinct work ids, has the work among them, and changes nothing when the same
-- work is noted again.
pub note_active_work_once :
    (l : Ledger) (work_id child kind child' kind' : String) (now now' : ℤ)
    → HasWork l.work_notifications
    → let noted = note_active_work l work_id child kind now in
      HasWork noted.work_notifications
      × (is_noted noted.work_notifications work_id ≡ true)
      × (note_active_work noted work_id child' kind' now' ≡ noted)
note_active_work_once l work_id child kind child' kind' now now' h =
    let noted = note_active_work_noted l work_id child kind now in
    (
      note_active_work-HasWork l work_id child kind now h,
      noted,
      note_again (note_active_work l work_id child kind now) work_id child' kind' now' noted,
    )

is_noted-keep :
    (ns : List WorkNotification) (w j : String)
    → is_noted (keep (λ n. not (str_eq n.work_id w)) ns) j ≡ (is_noted ns j && not (str_eq w j))
is_noted-keep [] w j = refl
is_noted-keep (n ∷ ns) w j =
    ground (arith, is_noted-keep ns w j, eq_iff n.work_id w, eq_iff n.work_id j, eq_iff w j)

keep-Distinct :
    (ns : List WorkNotification) (w : String)
    → Distinct (work_ids ns)
    → Distinct (work_ids (keep (λ n. not (str_eq n.work_id w)) ns))
keep-Distinct [] w h = tt
keep-Distinct (n ∷ ns) w h = ground (
  arith,
  keep-Distinct ns w h.1,
  contains-work_ids (keep (λ n. not (str_eq n.work_id w)) ns) n.work_id,
  contains-work_ids ns n.work_id,
  is_noted-keep ns w n.work_id,
)

-- On a ledger with at most eight notifications of distinct works, clearing removes the notification
-- of that work and of no other, and keeps the bounds.
pub clear_work_notification_only :
    (l : Ledger) (work_id j : String)
    → HasWork l.work_notifications
    → let cleared = clear_work_notification l work_id in
      HasWork cleared.work_notifications
      × (is_noted cleared.work_notifications j
          ≡ (is_noted l.work_notifications j && not (str_eq work_id j)))
unfolding clear_work_notification
clear_work_notification_only l work_id j h = (
  record {
    few =
        omega
          (arith, h.few, length-keep-le (λ n. not (str_eq n.work_id work_id)) l.work_notifications);
    distinct = keep-Distinct l.work_notifications work_id h.distinct;
  },
  is_noted-keep l.work_notifications work_id j,
)
