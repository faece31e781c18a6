-- ===== src/Tests/Takeover.antt =====
-- A controller of src/terminal_takeover.rs that waits for its terminal, and what is pasted into it.
use fx_rust.Prelude.{ℕ, ◌≤◌, ◌≡◌, refl, List, [], ◌∷◌, ◌++◌, map, true, false, some, length, arith}
use fx_rust.Takeover.Prefix.{PrefixParser, feed_all, forward, paste_begin, paste_end}
use fx_rust.Takeover.Prefix.Paste.{fresh, feed_all-InPaste, InPaste}
use fx_rust.Takeover.Controller.{Controller, default_controller, handle_bytes, nobody, acquiring}
use fx_rust.Takeover.Controller.Keeps.{IsController, handle_bytes-IsController}
use fx_rust.Takeover.Controller.Retains.{handle_bytes-paste}

abbrev waiting : Controller
waiting = record default_controller { phase = acquiring }

-- Ctrl-] d
abbrev keys : List ℕ
keys = 0x1d ∷ b'd' ∷ []

handle_bytes-IsController_example :
    (d : Controller) × (count : ℕ) × (handle_bytes nobody waiting keys ≡ some (d, count))
    × (count ≤ length keys)
    × IsController d
handle_bytes-IsController_example =
    handle_bytes-IsController nobody waiting keys (omega arith, (omega arith, omega arith))

handle_bytes-paste_example :
    (d : Controller) × (handle_bytes nobody waiting (paste_begin ++ (keys ++ paste_end))
      ≡ some (d, length (paste_begin ++ (keys ++ paste_end))))
    × (d.input ≡ waiting.input ++ (paste_begin ++ (keys ++ paste_end)))
    × (d.prefix ≡ fresh)
    × (d.phase ≡ waiting.phase)
handle_bytes-paste_example =
    handle_bytes-paste nobody waiting false 0 keys refl refl (omega arith) refl (omega arith)

-- a parser inside a paste that has read `ESC [ 2`
abbrev in_part : PrefixParser
in_part = record fresh { in_paste = true; end_match = 3 }

in_part-InPaste : InPaste in_part (50 ∷ 91 ∷ 0x1b ∷ [])
in_part-InPaste = (refl, omega arith, refl)

feed_all-InPaste_example :
    (q : PrefixParser) × (feed_all in_part (48 ∷ 0x1d ∷ b'd' ∷ [])
      ≡ some (q, map forward (48 ∷ 0x1d ∷ b'd' ∷ [])))
    × (q.in_paste ≡ true)
feed_all-InPaste_example =
    feed_all-InPaste in_part (50 ∷ 91 ∷ 0x1b ∷ []) (48 ∷ 0x1d ∷ b'd' ∷ []) in_part-InPaste refl
