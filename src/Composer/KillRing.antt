-- ===== src/Composer/KillRing.antt =====
-- The kill ring of src/input_composer.rs, its newest entry at the front.
pub mod Bounds
use fx_rust.Prelude.{
  ℕ, suc, ◌+◌, max, Bool, true, false, ◌&&◌, not, List, [], ◌∷◌, ◌++◌, Option, none, some, ◌==◌,
  if◌then◌else◌, length, take, is_empty,
}

pub record KillRing : Type 0 where
  pub entries : List (List ℕ)
  pub capacity : ℕ
  pub rotation : ℕ

abbrev pub new_ring : ℕ → KillRing
new_ring capacity = record { entries = []; capacity = max capacity 1; rotation = 0 }

-- `while self.entries.len() > self.capacity { self.entries.pop_back(); }`
abbrev push_front : List ℕ → KillRing → KillRing
push_front text ring = record ring {
  entries = take ring.capacity (text ∷ ring.entries);
  rotation = 1;
}

abbrev pub kill_onto : List ℕ → KillRing → List (List ℕ) → KillRing
kill_onto text ring [] = push_front text ring
kill_onto text ring (front ∷ entries) =
    if ring.rotation == 1
    then record ring { entries = (front ++ text) ∷ entries }
    else push_front text ring

unfoldable pub kill : List ℕ → KillRing → KillRing
kill text ring = if is_empty text then ring else kill_onto text ring ring.entries

abbrev pub front_of : List (List ℕ) → Option (List ℕ)
front_of [] = none
front_of (front ∷ entries) = some front

unfoldable pub yank : KillRing → Option (List ℕ)
yank ring = front_of ring.entries

unfoldable pub finish_kill : KillRing → KillRing
finish_kill ring = record ring { rotation = 0 }

abbrev pub rotated : List (List ℕ) → List (List ℕ)
rotated [] = []
rotated (front ∷ entries) = entries ++ front ∷ []

-- the entry that comes to the front is returned
unfoldable pub rotate : KillRing → KillRing × Option (List ℕ)
rotate ring = (record ring { entries = rotated ring.entries }, front_of (rotated ring.entries))
