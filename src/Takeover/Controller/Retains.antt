-- ===== src/Takeover/Controller/Retains.antt =====
-- What a controller of src/terminal_takeover.rs retains of what is typed and pasted.
use fx_rust.Prelude.{
  ℕ, ◌+◌, ◌≤◌, ◌<◌, ◌≡◌, refl, sym, ap, ◌∙◌, inl, inr, Bool, true, ◌&&◌, ◌||◌, List, [], ◌∷◌, ◌++◌,
  map, some, arith, not, ◌==◌, all, length, length-append_one, append_assoc, append-nil,
  Option-cases,
}
use fx_rust.Takeover.Prefix.{
  PrefixParser, PrefixResult, feed, feed_all, forward, paste_begin, paste_end,
}
use fx_rust.Takeover.Prefix.Paste.{outside, fresh, feed_all-paste}
use fx_rust.Takeover.Controller.{
  Controller, AlternateScreenOwner, handle_byte, handle_bytes, take_parsed, retain_input, hide_help,
  reads, can_return, is_acquiring, blocks_fx_surface,
}
use fx_rust.Takeover.Controller.Keeps.{hide_help_keeps}

feed_all-split :
    (p last : PrefixParser) (c : ℕ) (text : List ℕ) (r : PrefixResult) (rs : List PrefixResult)
    → feed_all p (c ∷ text) ≡ some (last, r ∷ rs)
    → (q : PrefixParser) × (feed p c ≡ some (q, r)) × (feed_all q text ≡ some (last, rs))
unfolding feed_all
feed_all-split p last c text r rs h = elim (Option-cases (feed p c)) [
  | inl e ↦ absurd (ground (arith, e, h))
  | inr ((q, first), e) ↦ elim (Option-cases (feed_all q text)) [
    | inl none_left ↦ absurd (ground (arith, e, none_left, h))
    | inr ((end, later), e_later) ↦
        (q, ground (arith, e, e_later, h), ground (arith, e, e_later, h))
  ]
]

-- The controller after `text` was forwarded.
abbrev pub Retained : Controller → List ℕ → PrefixParser → Controller → Type 0
Retained c text last d = (d.input ≡ c.input ++ text) × (d.prefix ≡ last) × (d.phase ≡ c.phase)

retain_one :
    (c : Controller) (byte : ℕ) (q : PrefixParser)
    → can_return c.phase ≡ true
    → length c.input < 65536
    → Retained c (byte ∷ []) q (take_parsed c (q, forward byte))
unfolding take_parsed retain_input
retain_one c byte q can room = (ground arith, ground arith, ground arith)

and_parts : (a b : Bool) → (a && b) ≡ true → (a ≡ true) × (b ≡ true)
and_parts a b h = (ground arith, ground arith)

handle_forwarded :
    (terminal : AlternateScreenOwner) (c : Controller) (byte : ℕ) (q : PrefixParser)
    → reads c terminal ≡ true
    → length c.input < 65536
    → feed c.prefix byte ≡ some (q, forward byte)
    → (d : Controller) × (handle_byte terminal c byte ≡ some (d, true)) × Retained c (byte ∷ []) q d
unfolding handle_byte
handle_forwarded terminal c byte q e room feeds =
    let (same_input, same_prefix, same_phase) = hide_help_keeps c in
    let (input, prefix, phase) =
      retain_one (hide_help c) byte q
        (ap can_return same_phase
          ∙ (and_parts (can_return c.phase) (is_acquiring c.phase || blocks_fx_surface terminal)
              e).0)
        (rw same_input room) in
    (
      take_parsed (hide_help c) (q, forward byte),
      rw e (rw same_prefix (rw feeds refl)),
      (input ∙ ap (λ xs. xs ++ byte ∷ []) same_input, prefix, phase ∙ same_phase),
    )

still_reads :
    (terminal : AlternateScreenOwner) (c d : Controller)
    → d.phase ≡ c.phase
    → reads c terminal ≡ true
    → reads d terminal ≡ true
still_reads terminal c d same e =
    ap (λ phase. can_return phase && (is_acquiring phase || blocks_fx_surface terminal)) same ∙ e

-- What the parser forwards byte for byte is retained in order, behind what was retained before.
pub handle_bytes_forwarded :
    (terminal : AlternateScreenOwner) (c : Controller) (text : List ℕ) (last : PrefixParser)
    → reads c terminal ≡ true
    → length c.input + length text ≤ 65536
    → feed_all c.prefix text ≡ some (last, map forward text)
    → (d : Controller) × (handle_bytes terminal c text ≡ some (d, length text))
      × Retained c text last d
unfolding handle_bytes feed_all
handle_bytes_forwarded terminal c [] last e room feeds =
    (c, refl, (sym (append-nil c.input), ground arith, refl))
handle_bytes_forwarded terminal c (byte ∷ text) last e room feeds =
    let (q, first, later) =
      feed_all-split c.prefix last byte text (forward byte) (map forward text) feeds in
    let (d, handles, (input, prefix, phase)) =
      handle_forwarded terminal c byte q e (omega arith) first in
    let (end, all_handled, (end_input, end_prefix, end_phase)) =
      handle_bytes_forwarded terminal d text last (still_reads terminal c d phase e)
        (rw input (omega (arith, length-append_one c.input byte)))
        (ap (λ p. feed_all p text) prefix ∙ later) in
    (
      end,
      rw handles (rw all_handled refl),
      (
        end_input ∙ ap (λ xs. xs ++ text) input ∙ append_assoc c.input (byte ∷ []) text,
        end_prefix,
        end_phase ∙ phase,
      ),
    )

-- A whole bracketed paste whose text has no ESC is retained byte for byte, its delimiters and any
-- prefix keys in it included, behind what was retained before, by a controller that reads the
-- keyboard, is outside of a paste and has room for it; all bytes count as consumed, the phase
-- stays, and the parser is as a new one, also where the prefix key was pending before or the
-- delimiter was read in part.
pub handle_bytes-paste :
    (terminal : AlternateScreenOwner) (c : Controller) (pending : Bool) (begin_match : ℕ)
    (body : List ℕ)
    → reads c terminal ≡ true
    → c.prefix ≡ outside pending begin_match
    → begin_match < 6
    → all (λ byte. not (byte == 0x1b)) body ≡ true
    → length c.input + length (paste_begin ++ (body ++ paste_end)) ≤ 65536
    → (d : Controller) × (handle_bytes terminal c (paste_begin ++ (body ++ paste_end))
        ≡ some (d, length (paste_begin ++ (body ++ paste_end))))
      × (d.input ≡ c.input ++ (paste_begin ++ (body ++ paste_end)))
      × (d.prefix ≡ fresh)
      × (d.phase ≡ c.phase)
handle_bytes-paste terminal c pending begin_match body e prefix lt plain room =
    let (d, handles, (input, parser, phase)) =
      handle_bytes_forwarded terminal c (paste_begin ++ (body ++ paste_end)) fresh e room (
        ap (λ p. feed_all p (paste_begin ++ (body ++ paste_end))) prefix
        ∙ feed_all-paste pending begin_match body lt plain) in
    (d, handles, input, parser, phase)
