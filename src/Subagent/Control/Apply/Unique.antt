-- ===== src/Subagent/Control/Apply/Unique.antt =====
-- In an ordered queue no two work items have the same id.
use Prim.Native.Char.{code}
use Prim.Native.String.{◌++◌ as ◌+++◌}
use text.Mathlib.TextLemmas.{append_cancel_left, cons-append}
use fx_rust.Prelude.{
  ℕ, suc, ◌≤◌, ◌<◌, ◌≡◌, ◌≢◌, refl, List, [], ◌∷◌, arith, String, map, Distinct, contains,
  string_eq, false, str_eq, eq_iff, ◌∙◌, sym, ap,
}
use fx_rust.Prelude.U64.{u64_max, to_string, to_string_inj}
use fx_rust.Subagent.Domain.Types.{QueuedMessage}
use fx_rust.Subagent.Control.Apply.Order.{Sent, Queued, sent, prompted}

Sent-le : (lo hi : ℕ) (ws : List QueuedMessage) → Sent lo ws hi → lo ≤ hi
Sent-le lo hi [] h = h
Sent-le lo hi (w ∷ ws) (k, b, i, h) = omega (arith, Sent-le (suc k) hi ws h)

abbrev pub ids : List QueuedMessage → List String
ids = map (λ w. w.id)

str_eq-ne : (s t : String) → s ≢ t → str_eq s t ≡ false
str_eq-ne s t h = ground (arith, eq_iff s t)

-- A sequence below those of the list names none of its items.
Sent-new :
    (lo hi j : ℕ) (ws : List QueuedMessage)
    → j < lo
    → hi ≤ u64_max
    → Sent lo ws hi
    → contains (ids ws) ("m-" +++ to_string j) ≡ false
Sent-new lo hi j [] b m h = refl
Sent-new lo hi j (w ∷ ws) b m (k, l, i, h) =
    let bound = Sent-le (suc k) hi ws h in
    let ne : w.id ≢ "m-" +++ to_string j = λ e. absurd (
      omega (
        arith,
        to_string_inj k j (omega arith) (omega arith) (append_cancel_left "m-" _ _ (sym i ∙ e)),
      )) in
    rw (str_eq-ne _ _ ne) (Sent-new (suc k) hi j ws (omega arith) m h)

Sent-Distinct :
    (lo hi : ℕ) (ws : List QueuedMessage) → hi ≤ u64_max → Sent lo ws hi → Distinct (ids ws)
Sent-Distinct lo hi [] m h = tt
Sent-Distinct lo hi (w ∷ ws) m (k, l, i, h) =
    (rw i (Sent-new (suc k) hi k ws (omega arith) m h), Sent-Distinct (suc k) hi ws m h)

first_code : String → ℕ
first_code String.[] = 0
first_code (String.◌∷◌ c s) = code c

w-ne-m : (s t : String) → "w-" +++ s ≢ "m-" +++ t
unfolding first_code
w-ne-m s t e =
    absurd (omega (arith, ap first_code (sym (cons-append "w" "-" s) ∙ e ∙ cons-append "m" "-" t)))

prompt_new :
    (lo hi : ℕ) (s : String) (ws : List QueuedMessage)
    → Sent lo ws hi
    → contains (ids ws) ("w-" +++ s) ≡ false
prompt_new lo hi s [] h = refl
prompt_new lo hi s (w ∷ ws) (k, l, i, h) =
    rw (str_eq-ne _ _ (λ e. w-ne-m s (to_string k) (sym e ∙ i))) (prompt_new (suc k) hi s ws h)

pub Queued-Distinct :
    {hi : ℕ} {ws : List QueuedMessage} → Queued hi ws → hi ≤ u64_max → Distinct (ids ws)
Queued-Distinct (sent h) m = Sent-Distinct 0 _ _ m h
Queued-Distinct (prompted n i h) m = (rw i (prompt_new 0 _ _ _ h), Sent-Distinct 0 _ _ m h)
