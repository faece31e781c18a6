-- ===== src/Tests/Usage.antt =====
-- A collection of src/usage_recovery.rs over three marked sessions.
use fx_rust.Prelude.{◌≡◌, refl, [], ◌∷◌, none, some, String, Option, Result, ok, pos, List}
use fx_rust.UsageRecovery.{
  Session, UsageRecord, UsageRecoverySession, collect_from_home, ledger_totals, collect_marked,
  collect_session, needs_recovery,
}
use fx_rust.UsageRecovery.Complete.{
  IsBounded, all_unsettled, collect_from_home-IsBounded, collect_from_home-known,
}

-- every session has 10 tokens
abbrev load_ten : String → Result String (Option Session)
load_ten id = ok (some record { updated_ms = 7; total_tokens = 10 })

-- the ledger has 6 of the tokens of a, and all of b
abbrev ledger : List UsageRecord
ledger =
    record { session_id = "b"; record_tokens = 4 }
    ∷ record { session_id = "a"; record_tokens = 6 }
    ∷ record { session_id = "b"; record_tokens = 6 }
    ∷ []

abbrev marked : List UsageRecoverySession
marked =
    record { id = "a"; protected_updated_at_ms = pos 7 }
    ∷ record { id = "b"; protected_updated_at_ms = pos 7 }
    ∷ record { id = "c"; protected_updated_at_ms = pos 5 }
    ∷ []

collect_from_home-known_example :
    all_unsettled load_ten (ledger_totals (λ id. none) ledger) marked ≡ some ("a" ∷ "c" ∷ [])
unfolding collect_from_home collect_marked collect_session needs_recovery ledger_totals
collect_from_home-known_example = collect_from_home-known load_ten ledger marked refl

collect_from_home-IsBounded_example : IsBounded (collect_from_home load_ten ledger marked)
collect_from_home-IsBounded_example = collect_from_home-IsBounded load_ten ledger marked
