-- ===== src/Takeover/Controller/Keeps.antt =====
-- What the bytes of the keyboard do to a controller of src/terminal_takeover.rs.
use fx_rust.Prelude.{
  ℕ, ◌≤◌, ◌≡◌, refl, inl, inr, Bool, true, ◌&&◌, List, [], ◌∷◌, Option, some, none, arith,
  Bool-cases, length, length-append_one,
}
use fx_rust.Takeover.Prefix.{
  PrefixAction, no_prefix_action, help_action, detach_action, PrefixParser, PrefixResult,
}
use fx_rust.Takeover.Prefix.Paste.{IsParser, feed-IsParser}
use fx_rust.Takeover.Controller.{
  Controller, AlternateScreenOwner, handle_byte, handle_bytes, take_parsed, retain_input,
  begin_return, hide_help, reads, can_return, add_count, take_action, take_forwarded, is_releasing,
  blocks_fx_surface,
}

-- The retained input is within its bound, and the parser's counters index the delimiters.
abbrev pub IsController : Controller → Type 0
IsController c = (length c.input ≤ 65536) × IsParser c.prefix

take_action-IsController :
    (a : PrefixAction) (c : Controller) → IsController c → IsController (take_action a c)
unfolding begin_return
take_action-IsController no_prefix_action c h = h
take_action-IsController detach_action c h = ground arith
take_action-IsController help_action c h = h

retain_input-le :
    (c : Controller) (byte : ℕ)
    → length c.input ≤ 65536
    → length ((retain_input c (byte ∷ [])).0).input ≤ 65536
unfolding retain_input
retain_input-le c byte h = ground (arith, length-append_one c.input byte)

retain_input-prefix :
    (c : Controller) (byte : ℕ) → ((retain_input c (byte ∷ [])).0).prefix ≡ c.prefix
unfolding retain_input
retain_input-prefix c byte = ground arith

take_forwarded-IsController :
    (f : Option ℕ) (c : Controller) → IsController c → IsController (take_forwarded f c)
take_forwarded-IsController none c h = h
take_forwarded-IsController (some byte) c (le, parser) = elim (Bool-cases (can_return c.phase)) [
  | inl e ↦ rw e (retain_input-le c byte le, rw (retain_input-prefix c byte) parser)
  | inr e ↦ rw e (le, parser)
]

take_parsed-IsController :
    (c : Controller) (q : PrefixParser) (parsed : PrefixResult)
    → IsController c
    → IsParser q
    → IsController (take_parsed c (q, parsed))
unfolding take_parsed
take_parsed-IsController c q parsed (le, parser) hq =
    take_forwarded-IsController parsed.forwarded
      (take_action parsed.action (record c { prefix = q }))
      (take_action-IsController parsed.action (record c { prefix = q }) (le, hq))

pub hide_help_keeps :
    (c : Controller)
    → ((hide_help c).input ≡ c.input)
      × ((hide_help c).prefix ≡ c.prefix)
      × ((hide_help c).phase ≡ c.phase)
hide_help_keeps c = (ground arith, ground arith, ground arith)

handle_byte-IsController :
    (terminal : AlternateScreenOwner) (c : Controller) (byte : ℕ)
    → IsController c
    → (d : Controller) × (consumed : Bool) × (handle_byte terminal c byte ≡ some (d, consumed))
      × IsController d
unfolding handle_byte
handle_byte-IsController terminal c byte (le, parser) = elim (Bool-cases (reads c terminal)) [
  | inl e ↦
      let (same_input, same_prefix, same_phase) = hide_help_keeps c in
      let (q, parsed, feeds, hq) =
        feed-IsParser (hide_help c).prefix byte (rw same_prefix parser) in
      (
        take_parsed (hide_help c) (q, parsed),
        true,
        rw e (rw feeds refl),
        take_parsed-IsController (hide_help c) q parsed
            (rw same_input (rw same_prefix (le, parser))) hq,
      )
  | inr e ↦ (c, is_releasing c.phase && blocks_fx_surface terminal, rw e refl, (le, parser))
]

-- No bytes from the keyboard make the parser of a controller read outside of a delimiter, or the
-- controller retain more than its bound of 64 KiB: from a controller within these bounds every
-- sequence of bytes is handled, and leads to one within them.
pub handle_bytes-IsController :
    (terminal : AlternateScreenOwner) (c : Controller) (bytes : List ℕ)
    → IsController c
    → (d : Controller) × (count : ℕ) × (handle_bytes terminal c bytes ≡ some (d, count))
      × (count ≤ length bytes)
      × IsController d
unfolding handle_bytes
handle_bytes-IsController terminal c [] h = (c, 0, refl, omega arith, h)
handle_bytes-IsController terminal c (byte ∷ bytes) h =
    let (next, consumed, handles, h_next) = handle_byte-IsController terminal c byte h in
    let (last, count, all_handled, le, h_last) =
      handle_bytes-IsController terminal next bytes h_next in
    (last, add_count consumed count, rw handles (rw all_handled refl), ground arith, h_last)
