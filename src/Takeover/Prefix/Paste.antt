-- ===== src/Takeover/Prefix/Paste.antt =====
-- Pasted text passes the prefix parser of src/terminal_takeover.rs verbatim.
use fx_rust.Prelude.{
  ℕ, zero, suc, ◌≤◌, ◌<◌, ◌≡◌, refl, ap, sym, ◌∙◌, inl, inr, Bool, true, false, ◌||◌, ◌&&◌, List,
  [], ◌∷◌, ◌++◌, map, some, arith, ◌==◌, length, get_elem?-lt, Bool-cases, ==_iff, ◌≢◌, drop, all,
  not,
}
use fx_rust.ModelRecovery.Overlap.Matches.{matches}
use fx_rust.Takeover.Prefix.{
  feed_all, PrefixParser, PrefixResult, feed, paste_begin, paste_end, advance_delimiter, forward,
  end_paste, begin_paste, key,
}

-- The counters index the delimiters.
abbrev pub IsParser : PrefixParser → Type 0
IsParser parser = (parser.begin_match < 6) × (parser.end_match < 6)

-- From a match of `k` bytes, `advance_delimiter` reads inside the delimiter, and what it returns is a
-- match again.
pub Advanced : List ℕ → List ℕ → ℕ → ℕ → Type 0
Advanced delimiter r k byte =
    (m : ℕ) × (advance_delimiter k byte delimiter ≡ some m)
    × (m ≤ length delimiter)
    × (matches delimiter (byte ∷ r) m ≡ true)

advance_delimiter_lem :
    (delimiter r : List ℕ) (k byte : ℕ)
    → k < length delimiter
    → matches delimiter r k ≡ true
    → Advanced delimiter r k byte
unfolding Advanced
advance_delimiter_lem delimiter r k byte lt h =
    let (x, found) = get_elem?-lt delimiter k lt in
    let (y, start) = get_elem?-lt delimiter 0 (omega arith) in
    elim (Bool-cases (byte == x)) [
      | inl same ↦
          (suc k, rw found (rw same (ap some (omega arith))), omega arith, rw found (rw same h))
      | inr other ↦ elim (Bool-cases (byte == y)) [
        | inl first ↦ (
          1,
          rw found (rw other (rw start (rw first refl))),
          omega arith,
          rw start (rw first refl),
        )
        | inr neither ↦ (0, rw found (rw other (rw start (rw neither refl))), omega arith, refl)
      ]
    ]

advance_delimiter-le :
    (delimiter : List ℕ) (k byte : ℕ)
    → k < length delimiter
    → (m : ℕ) × (advance_delimiter k byte delimiter ≡ some m) × (m ≤ length delimiter)
advance_delimiter-le delimiter k byte lt =
    let (x, found) = get_elem?-lt delimiter k lt in
    let (y, start) = get_elem?-lt delimiter 0 (omega arith) in
    elim (Bool-cases (byte == x)) [
      | inl same ↦ (suc k, rw found (rw same (ap some (omega arith))), omega arith)
      | inr other ↦ elim (Bool-cases (byte == y)) [
        | inl first ↦ (1, rw found (rw other (rw start (rw first refl))), omega arith)
        | inr neither ↦ (0, rw found (rw other (rw start (rw neither refl))), omega arith)
      ]
    ]

end_paste-IsParser : (p : PrefixParser) (m : ℕ) → IsParser p → m ≤ 6 → IsParser (end_paste p m)
end_paste-IsParser p m h le = ground arith

key-IsParser :
    (p : PrefixParser) (byte m : ℕ) → IsParser p → m ≤ 6 → IsParser (key (begin_paste p m) byte).0
key-IsParser p byte m h le = ground arith

-- `feed` never reads outside a delimiter, and keeps the counters in bounds.
pub feed-IsParser :
    (p : PrefixParser) (byte : ℕ)
    → IsParser p
    → (q : PrefixParser) × (result : PrefixResult) × (feed p byte ≡ some (q, result)) × IsParser q
unfolding feed
feed-IsParser p byte h = elim (Bool-cases p.in_paste) [
  | inl e ↦
      let (m, runs, le) = advance_delimiter-le paste_end p.end_match byte h.1 in
      (end_paste p m, forward byte, rw e (rw runs refl), end_paste-IsParser p m h le)
  | inr e ↦
      let (m, runs, le) = advance_delimiter-le paste_begin p.begin_match byte h.0 in
      (
        (key (begin_paste p m) byte).0,
        (key (begin_paste p m) byte).1,
        rw e (rw runs refl),
        key-IsParser p byte m h le,
      )
]

-- The delimiter of the end stands somewhere in `text`, which is read behind `r`.
abbrev pub closes : List ℕ → List ℕ → Bool
closes r [] = false
closes r (c ∷ text) = matches paste_end (c ∷ r) 6 || closes (c ∷ r) text

abbrev pub InPaste : PrefixParser → List ℕ → Type 0
InPaste p r = (p.in_paste ≡ true) × (p.end_match < 6) × (matches paste_end r p.end_match ≡ true)

true≢false : true ≢ false
true≢false h = cc

open_match :
    (r : List ℕ) (byte m : ℕ)
    → m ≡ 6
    → matches paste_end (byte ∷ r) m ≡ true
    → matches paste_end (byte ∷ r) 6 ≢ false
open_match r byte m six matched still =
    true≢false (sym matched ∙ ap (matches paste_end (byte ∷ r)) six ∙ still)

below_six : (m : ℕ) → m ≤ 6 → (m == 6) ≡ false → m < 6
below_six m le e = ground arith

feed_paste :
    (p : PrefixParser) (r : List ℕ) (byte : ℕ)
    → InPaste p r
    → matches paste_end (byte ∷ r) 6 ≡ false
    → (q : PrefixParser) × (feed p byte ≡ some (q, forward byte)) × InPaste q (byte ∷ r)
unfolding feed Advanced
feed_paste p r byte (inside, lt, h) open_still =
    let (m, runs, le, matched) = advance_delimiter_lem paste_end r p.end_match byte lt h in
    elim (Bool-cases (m == 6)) [
      | inl e ↦ absurd (open_match r byte m ((==_iff m 6).0 e) matched open_still)
      | inr e ↦ (end_paste p m, rw inside (rw runs refl), rw e (inside, below_six m le e, matched))
    ]

or_parts : (a b : Bool) → (a || b) ≡ false → (a ≡ false) × (b ≡ false)
or_parts a b h = (ground arith, ground arith)

-- Inside a paste, text in which the end of the paste does not stand (also not begun in what was
-- read before) is forwarded byte for byte, without an action, whatever it contains, and the paste
-- is still open behind it.
pub feed_all-InPaste :
    (p : PrefixParser) (r text : List ℕ)
    → InPaste p r
    → closes r text ≡ false
    → (q : PrefixParser) × (feed_all p text ≡ some (q, map forward text)) × (q.in_paste ≡ true)
unfolding feed_all
feed_all-InPaste p r [] (inside, counted, matched) still = (p, refl, inside)
feed_all-InPaste p r (c ∷ text) inside still =
    let (q, runs, inside_next) =
      feed_paste p r c inside
        (or_parts (matches paste_end (c ∷ r) 6) (closes (c ∷ r) text) still).0 in
    let (last, all_run, open_last) =
      feed_all-InPaste q (c ∷ r) text inside_next
        (or_parts (matches paste_end (c ∷ r) 6) (closes (c ∷ r) text) still).1 in
    (last, rw runs (rw all_run refl), open_last)

abbrev pub fresh : PrefixParser
fresh = record { pending = false; in_paste = false; begin_match = 0; end_match = 0 }

-- a parser outside of a paste: the prefix key may be pending, and the begin of a paste may be read in part
abbrev pub outside : Bool → ℕ → PrefixParser
outside pending begin_match = record fresh { pending = pending; begin_match = begin_match }

abbrev inside : PrefixParser
inside = record fresh { in_paste = true }

-- ESC starts the delimiter anew from every position.
escape_starts : (k : ℕ) → k < 6 → advance_delimiter k 0x1b paste_begin ≡ some 1
escape_starts zero lt = refl
escape_starts (suc zero) lt = refl
escape_starts (suc (suc zero)) lt = refl
escape_starts (suc (suc (suc zero))) lt = refl
escape_starts (suc (suc (suc (suc zero)))) lt = refl
escape_starts (suc (suc (suc (suc (suc zero))))) lt = refl
escape_starts (suc (suc (suc (suc (suc (suc k)))))) lt = absurd (omega arith)

first_escape :
    (pending : Bool) (k : ℕ)
    → k < 6
    → feed (outside pending k) 0x1b ≡ some (outside false 1, forward 0x1b)
unfolding feed
first_escape true k lt = rw (escape_starts k lt) refl
first_escape false k lt = rw (escape_starts k lt) refl

-- A byte other than ESC leaves a parser as it is that has read nothing of the end of the paste.
feed_plain : (byte : ℕ) → (byte == 0x1b) ≡ false → feed inside byte ≡ some (inside, forward byte)
unfolding feed
feed_plain byte e = rw e (rw e refl)

all_parts : (a b : Bool) → (not a && b) ≡ true → (a ≡ false) × (b ≡ true)
all_parts a b h = (ground arith, ground arith)

feed_all-plain :
    (body tail : List ℕ) (last : PrefixParser)
    → all (λ byte. not (byte == 0x1b)) body ≡ true
    → feed_all inside tail ≡ some (last, map forward tail)
    → feed_all inside (body ++ tail) ≡ some (last, map forward (body ++ tail))
unfolding feed_all
feed_all-plain [] tail last plain runs = runs
feed_all-plain (c ∷ body) tail last plain runs =
    let (other, others) = all_parts (c == 0x1b) (all (λ byte. not (byte == 0x1b)) body) plain in
    rw (feed_plain c other) (rw (feed_all-plain body tail last others runs) refl)

paste_closes : feed_all inside paste_end ≡ some (fresh, map forward paste_end)
unfolding feed_all feed
paste_closes = refl

opens :
    (text : List ℕ) (last : PrefixParser)
    → feed_all inside text ≡ some (last, map forward text)
    → feed_all (outside false 1) (drop 1 paste_begin ++ text)
      ≡ some (last, map forward (drop 1 paste_begin ++ text))
unfolding feed_all feed
opens text last runs = rw runs refl

-- A whole paste whose text has no ESC passes byte for byte, prefix keys included, and leaves the parser
-- as a new one, also where the prefix key was pending or the delimiter was read in part before.
pub feed_all-paste :
    (pending : Bool) (begin_match : ℕ) (body : List ℕ)
    → begin_match < 6
    → all (λ byte. not (byte == 0x1b)) body ≡ true
    → feed_all (outside pending begin_match) (paste_begin ++ (body ++ paste_end))
      ≡ some (fresh, map forward (paste_begin ++ (body ++ paste_end)))
unfolding feed_all
feed_all-paste pending begin_match body lt plain = rw (first_escape pending begin_match lt) (
    rw (opens (body ++ paste_end) fresh (feed_all-plain body paste_end fresh plain paste_closes))
      refl)
