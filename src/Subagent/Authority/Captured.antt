-- ===== src/Subagent/Authority/Captured.antt =====
-- Which inputs are admitted, and what a resumed child is admitted with.
use fx_rust.Prelude.{
  ◌≤◌, ◌≡◌, ◌≢◌, ◌⊎◌, suc, min, Option, some, none, refl, ◌↔◌, ap, sym, ◌∙◌, Bool, ◌||◌, false,
  String, len, is_empty_text, List, [], ◌∷◌, length, All, Result, ok, err, Check, Bool-cases, inl,
  inr, true, if◌then◌else◌, >>=-eq-ok, >>-eq-ok, fail_if-eq-ok, arith, ltb,
}
use fx_rust.Permissions.Types.{PermissionMode, parse_mode}
use fx_rust.Subagent.Domain.Types.{
  ValidationError, max_admission_items, max_admission_item_bytes, max_model_bytes,
}
use fx_rust.Subagent.Domain.Text.{validate_id, validate_id_iff, IsId}
use fx_rust.Subagent.Admission.{AdmissionSnapshot}
use fx_rust.Subagent.Control.{SubagentRecord}
use fx_rust.Subagent.Authority.{
  AdmissionInput, AdmissionError, or_error, invalid_model, too_many_admission_items,
  invalid_admission_item, validate_id_or, validate_admission_text, validate_names, validate_pairs,
  capture_admission, snapshot_of, resume_admission, resume_input, prior_tools, next_authority,
  mode_or_auto, resumed_model,
}

abbrev pub IsItem : String → Type 0
IsItem s = (is_empty_text s ≡ false) × (len s ≤ max_admission_item_bytes)

pub record IsAdmissible (i : AdmissionInput) : Type 0 where
  pub parent : IsId i.parent_id
  pub source : IsId i.source_id
  pub model_given : is_empty_text i.model ≡ false
  pub model_short : len i.model ≤ max_model_bytes
  pub few_tools : length i.tool_names ≤ max_admission_items
  pub few_rules : length i.rules ≤ max_admission_items
  pub few_grants : length i.grants ≤ max_admission_items
  pub few_integrations : length i.integration_names ≤ max_admission_items
  pub tools : All IsItem i.tool_names
  pub integrations : All IsItem i.integration_names
  pub rules : All (λ p. IsItem p.0 × IsItem p.1) i.rules
  pub grants : All (λ p. IsItem p.0 × IsItem p.1) i.grants

-- The provider of a snapshot, where none was named or one was.
abbrev pub provided : Bool → String → String
provided true given = "gateway"
provided false given = given

-- What is kept of an admitted input: every part of it, under its own name.
pub record IsSnapshot (i : AdmissionInput) (s : AdmissionSnapshot) : Type 0 where
  pub parent : s.parent_id ≡ i.parent_id
  pub source : s.source_id ≡ i.source_id
  pub model : s.model ≡ i.model
  pub provider : s.provider ≡ provided (is_empty_text i.provider) i.provider
  pub effort : s.effort ≡ i.effort
  pub mode : s.permission_mode ≡ i.permission_mode
  pub tools : s.tool_names ≡ i.tool_names
  pub rules : s.rules ≡ i.rules
  pub grants : s.grants ≡ i.grants
  pub integrations : s.integration_names ≡ i.integration_names
  pub generation : s.authority_generation ≡ i.authority_generation

provided_lem :
    (given : String)
    → (if is_empty_text given then "gateway" else given) ≡ provided (is_empty_text given) given
provided_lem given = elim (Bool-cases (is_empty_text given)) [
  | inl e ↦ rw e refl
  | inr e ↦ rw e refl
]

snapshot_of-IsSnapshot : (i : AdmissionInput) → IsSnapshot i (snapshot_of i)
snapshot_of-IsSnapshot i = record {
  parent = refl;
  source = refl;
  model = refl;
  provider = provided_lem i.provider;
  effort = refl;
  mode = refl;
  tools = refl;
  rules = refl;
  grants = refl;
  integrations = refl;
  generation = refl;
}

snapshot_unique : (i : AdmissionInput) (s : AdmissionSnapshot) → IsSnapshot i s → s ≡ snapshot_of i
snapshot_unique i s h = let named = h.provider ∙ sym (provided_lem i.provider) in cc

or_error-ok : (e : AdmissionError) (r : Check ValidationError) → or_error e r ≡ ok tt → r ≡ ok tt
or_error-ok e (ok _) h = refl
or_error-ok e (err _) h = absurd (ground (arith, h))

IsId-or_iff : (s : String) (e : AdmissionError) → (validate_id_or s e ≡ ok tt) ↔ IsId s
unfolding validate_id_or
IsId-or_iff s e = (
  λ h. (validate_id_iff s).0 (or_error-ok e (validate_id s) h),
  λ h. rw ((validate_id_iff s).1 h) refl,
)

text_iff : (s : String) → (validate_admission_text s ≡ ok tt) ↔ IsItem s
unfolding validate_admission_text
text_iff s = (λ h. (ground (arith, h), ground (arith, h)), λ h. ground (arith, h))

names_iff : (names : List String) → (validate_names names ≡ ok tt) ↔ All IsItem names
unfolding validate_names
names_iff [] = (λ h. tt, λ h. refl)
names_iff (s ∷ names) = (
  λ h.
      let parts = >>-eq-ok (validate_admission_text s) (validate_names names) h in
      ((text_iff s).0 parts.0, (names_iff names).0 parts.1),
  λ h. rw ((text_iff s).1 h.0) ((names_iff names).1 h.1),
)

pairs_iff :
    (pairs : List (String × String))
    → (validate_pairs pairs ≡ ok tt) ↔ All (λ p. IsItem p.0 × IsItem p.1) pairs
unfolding validate_pairs
pairs_iff [] = (λ h. tt, λ h. refl)
pairs_iff (p ∷ pairs) = (
  λ h.
      let parts = >>-eq-ok (validate_admission_text p.0) _ h in
      let parts' = >>-eq-ok (validate_admission_text p.1) (validate_pairs pairs) parts.1 in
      (((text_iff p.0).0 parts.0, (text_iff p.1).0 parts'.0), (pairs_iff pairs).0 parts'.1),
  λ h. rw ((text_iff p.0).1 h.0.0, (text_iff p.1).1 h.0.1) ((pairs_iff pairs).1 h.1),
)

abbrev bad_model : AdmissionInput → Bool
bad_model i = is_empty_text i.model || ltb max_model_bytes (len i.model)

abbrev too_many : AdmissionInput → Bool
too_many i =
    ltb max_admission_items (length i.tool_names)
    || ltb max_admission_items (length i.rules)
    || ltb max_admission_items (length i.grants)
    || ltb max_admission_items (length i.integration_names)

ok_inj :
    {a b : AdmissionSnapshot}
    → ◌≡◌ {A = Result AdmissionError AdmissionSnapshot} (ok a) (ok b)
    → a ≡ b
ok_inj h = cc

capture_sound :
    (i : AdmissionInput) (s : AdmissionSnapshot)
    → capture_admission i ≡ ok s
    → IsAdmissible i × (s ≡ snapshot_of i)
unfolding capture_admission
capture_sound i s h =
    let (parent, h1) = >>-eq-ok _ _ h in
    let (source, h2) = >>-eq-ok _ _ h1 in
    let (model, h3) = fail_if-eq-ok (bad_model i) invalid_model _ h2 in
    let (few, h4) = fail_if-eq-ok (too_many i) too_many_admission_items _ h3 in
    let (tools, h5) = >>-eq-ok _ _ h4 in
    let (integrations, h6) = >>-eq-ok _ _ h5 in
    let (rules, h7) = >>-eq-ok _ _ h6 in
    let (grants, h8) = >>-eq-ok _ _ h7 in
    (
      record {
        parent = (IsId-or_iff i.parent_id _).0 parent;
        source = (IsId-or_iff i.source_id _).0 source;
        model_given = ground (arith, model);
        model_short = ground (arith, model);
        few_tools = ground (arith, few);
        few_rules = ground (arith, few);
        few_grants = ground (arith, few);
        few_integrations = ground (arith, few);
        tools = (names_iff i.tool_names).0 tools;
        integrations = (names_iff i.integration_names).0 integrations;
        rules = (pairs_iff i.rules).0 rules;
        grants = (pairs_iff i.grants).0 grants;
      },
      sym (ok_inj h8),
    )

capture_complete : (i : AdmissionInput) → IsAdmissible i → capture_admission i ≡ ok (snapshot_of i)
unfolding capture_admission
capture_complete i a =
    let model : bad_model i ≡ false = ground (arith, a.model_given, a.model_short) in
    let few : too_many i ≡ false =
      ground (arith, a.few_tools, a.few_rules, a.few_grants, a.few_integrations) in
    rw
      (
        (IsId-or_iff i.parent_id invalid_admission_item).1 a.parent,
        (IsId-or_iff i.source_id invalid_admission_item).1 a.source,
        model,
        few,
        (names_iff i.tool_names).1 a.tools,
        (names_iff i.integration_names).1 a.integrations,
        (pairs_iff i.rules).1 a.rules,
        (pairs_iff i.grants).1 a.grants,
      )
      refl

-- An input is admitted with a snapshot exactly when both ids are valid, the model is given and
-- within its bound, no list has more than 256 entries and no entry is empty or longer than 4096
-- bytes, and each part of the snapshot is that part of the input, but that the provider is gateway
-- where none is named.
pub capture_admission_iff :
    (i : AdmissionInput) (s : AdmissionSnapshot)
    → (capture_admission i ≡ ok s) ↔ (IsAdmissible i × IsSnapshot i s)
capture_admission_iff i s = (
  λ h. let parts = capture_sound i s h in (parts.0, rw parts.1 (snapshot_of-IsSnapshot i)),
  λ h. capture_complete i h.0 ∙ ap ok (sym (snapshot_unique i s h.1)),
)

-- The mode that a text stands for, and auto where it stands for none.
abbrev pub IsModeOf : Result String PermissionMode → PermissionMode → Type 0
IsModeOf (ok m) mode = mode ≡ m
IsModeOf (err _) mode = mode ≡ PermissionMode.auto

-- The model that is configured, else the one from before, else the default.
abbrev pub IsModelOf : Option String → Option AdmissionSnapshot → String → Type 0
IsModelOf (some m) prior model = model ≡ m
IsModelOf none none model = model ≡ "default"
IsModelOf none (some prior) model =
    ((prior.model ≡ "") × (model ≡ "default")) ⊎ ((prior.model ≢ "") × (model ≡ prior.model))

-- What an earlier admission leaves for the next: its tools, and its generation counted up as far as
-- 64 bits reach.
abbrev pub Carries : Option AdmissionSnapshot → AdmissionSnapshot → Type 0
Carries none s = (s.tool_names ≡ []) × (s.authority_generation ≡ 0)
Carries (some prior) s =
    (s.tool_names ≡ prior.tool_names)
    × (s.authority_generation ≡ min 18446744073709551615 (suc prior.authority_generation))

-- The admission of a child that goes on.
pub record IsResumed (r : SubagentRecord) (parent_id source_id : String) (s : AdmissionSnapshot)
    : Type 0 where
  pub parent : s.parent_id ≡ parent_id
  pub source : s.source_id ≡ source_id
  pub provider : s.provider ≡ "gateway"
  pub effort : s.effort ≡ none
  pub mode : IsModeOf (parse_mode r.configuration.permission_mode) s.permission_mode
  pub model : IsModelOf r.configuration.model r.admission s.model
  pub carried : Carries r.admission s
  pub rules : s.rules ≡ []
  pub grants : s.grants ≡ []
  pub integrations : s.integration_names ≡ []

mode_or_auto_lem : (m : Result String PermissionMode) → IsModeOf m (mode_or_auto m)
mode_or_auto_lem (ok m) = refl
mode_or_auto_lem (err _) = refl

empty_text : (s : String) → is_empty_text s ≡ true → s ≡ ""
empty_text String.[] h = refl
empty_text (String.◌∷◌ c s) h = cc

given_text : (s : String) → is_empty_text s ≡ false → s ≢ ""
given_text s h e = let same : is_empty_text s ≡ true = ap is_empty_text e in cc

resumed_model_lem :
    (m : Option String) (prior : Option AdmissionSnapshot)
    → IsModelOf m prior (resumed_model m prior)
resumed_model_lem (some m) prior = refl
resumed_model_lem none none = refl
resumed_model_lem none (some prior) = elim (Bool-cases (is_empty_text prior.model)) [
  | inl e ↦ rw e (inl (empty_text prior.model e, refl))
  | inr e ↦ rw e (inr (given_text prior.model e, refl))
]

carried_lem :
    (prior : Option AdmissionSnapshot) (s : AdmissionSnapshot)
    → s.tool_names ≡ prior_tools prior
    → s.authority_generation ≡ next_authority prior
    → Carries prior s
carried_lem none s tools generation = (tools, generation)
carried_lem (some prior) s tools generation = (tools, omega (arith, generation))

-- A child whose resumption succeeds has: the two ids that are given; the mode of its configuration,
-- or auto where that does not parse; the configured model, else the one of the earlier admission
-- where that is not empty, else default; the tools of the earlier admission and its generation plus
-- one, at most 2 ^ 64 - 1, or no tools and generation 0 without one; the provider gateway; and no
-- effort, rules, grants or integrations. Its ids are valid, its model is given and within its
-- bound, and its tools are at most 256, none of them empty or longer than 4096 bytes.
pub resume_admission_keeps :
    (r : SubagentRecord) (parent_id source_id : String) (s : AdmissionSnapshot)
    → resume_admission r parent_id source_id ≡ ok s
    → IsResumed r parent_id source_id s
      × IsId s.parent_id
      × IsId s.source_id
      × (is_empty_text s.model ≡ false)
      × (len s.model ≤ max_model_bytes)
      × (length s.tool_names ≤ max_admission_items)
      × All IsItem s.tool_names
unfolding resume_admission
resume_admission_keeps r parent_id source_id s h =
    let input = resume_input r parent_id source_id in
    let (captured, e, written) = >>=-eq-ok (capture_admission input) _ h in
    let parts = capture_sound input captured e in
    let same : record (snapshot_of input) { authority_generation = next_authority r.admission }
        ≡ s =
      ap {A = AdmissionSnapshot} {B = AdmissionSnapshot}
        (λ c. record c { authority_generation = next_authority r.admission }) (sym parts.1)
      ∙ ok_inj written in
    rw (← same) (
      record {
        parent = refl;
        source = refl;
        provider = refl;
        effort = refl;
        mode = mode_or_auto_lem (parse_mode r.configuration.permission_mode);
        model = resumed_model_lem r.configuration.model r.admission;
        carried =
            carried_lem r.admission
              (record (snapshot_of input) { authority_generation = next_authority r.admission })
              refl refl;
        rules = refl;
        grants = refl;
        integrations = refl;
      },
      parts.0.parent,
      parts.0.source,
      parts.0.model_given,
      parts.0.model_short,
      parts.0.few_tools,
      parts.0.tools,
    )
