-- ===== src/Subagent/Domain/Text.antt =====
-- src/subagent_domain.rs: the checks of ids and of bounded text.
use Prim.Native.Char.{code}
use fx_rust.Prelude.{
  ℕ, ◌≤◌, ◌≡◌, refl, ◌↔◌, Bool, true, false, ◌&&◌, ◌||◌, not, String, len, str_eq, is_empty_text,
  all_chars, any_char, is_ascii_alphanumeric, is_control, is_whitespace, Check, ok, fail_if, ◌>>◌,
  ltb, leb, ◌==◌, arith,
}
use fx_rust.Subagent.Domain.Types.{
  ValidationError, invalid_id, invalid_operation_id, invalid_name, invalid_model,
  max_operation_id_bytes, max_name_bytes, max_model_bytes,
}

-- The characters that an id may hold.
unfoldable pub is_id_char : ℕ → Bool
unfolding is_ascii_alphanumeric
is_id_char c = is_ascii_alphanumeric c || c == b'-' || c == b'_' || c == b'.'

unfoldable pub validate_id : String → Check ValidationError
validate_id id =
    let valid =
      not (is_empty_text id)
      && leb (len id) 128
      && all_chars is_id_char id
      && not (str_eq id ".")
      && not (str_eq id "..")
      && not (any_char (λ c. c == b'/') id)
      && not (any_char (λ c. c == b'\\') id) in
    fail_if (not valid) invalid_id

unfoldable pub validate_operation_id : String → Check ValidationError
validate_operation_id id = do
  fail_if (is_empty_text id || ltb max_operation_id_bytes (len id)) invalid_operation_id
  fail_if (any_char (λ c. is_control c || is_whitespace c) id) invalid_operation_id

unfoldable pub validate_bounded_text : String → ℕ → ValidationError → Check ValidationError
validate_bounded_text text max_bytes invalid =
    fail_if (is_empty_text text || ltb max_bytes (len text) || any_char (λ c. c == 0) text) invalid

unfoldable pub validate_name : String → Check ValidationError
unfolding validate_bounded_text
validate_name name = validate_bounded_text name max_name_bytes invalid_name

unfoldable pub validate_model : String → Check ValidationError
unfolding validate_bounded_text
validate_model model = validate_bounded_text model max_model_bytes invalid_model

-- What an id is: short, made of the permitted characters, and neither of the two directory names,
-- so that it is safe as the stem of a file name.
pub record IsId (id : String) : Type 0 where
  pub nonempty : is_empty_text id ≡ false
  pub short : len id ≤ 128
  pub characters : all_chars is_id_char id ≡ true
  pub not_dot : str_eq id "." ≡ false
  pub not_dot_dot : str_eq id ".." ≡ false

pub record IsBoundedText (max_bytes : ℕ) (text : String) : Type 0 where
  pub nonempty : is_empty_text text ≡ false
  pub short : len text ≤ max_bytes
  pub no_nul : any_char (λ c. c == 0) text ≡ false

abbrev pub IsName : String → Type 0
IsName = IsBoundedText max_name_bytes

abbrev pub IsModel : String → Type 0
IsModel = IsBoundedText max_model_bytes

-- A permitted character is no path separator.
id_char_no_separator :
    (c : ℕ) → is_id_char c ≡ true → ((c == b'/') ≡ false) × ((c == b'\\') ≡ false)
unfolding is_id_char
id_char_no_separator c h = ground arith

id_chars_no_separator :
    (s : String)
    → all_chars is_id_char s ≡ true
    → (any_char (λ c. c == b'/') s ≡ false) × (any_char (λ c. c == b'\\') s ≡ false)
id_chars_no_separator String.[] h = (refl, refl)
id_chars_no_separator (String.◌∷◌ c s) h =
    ground (arith, id_char_no_separator (code c), id_chars_no_separator s)

-- The check of an id accepts exactly the ids, and so no separator of a path: the two tests for one
-- that the code adds refuse nothing more.
pub validate_id_iff : (id : String) → (validate_id id ≡ ok tt) ↔ IsId id
unfolding validate_id
validate_id_iff id = ground (arith, id_chars_no_separator id)

pub validate_bounded_text_iff :
    (text : String) (max_bytes : ℕ) (invalid : ValidationError)
    → (validate_bounded_text text max_bytes invalid ≡ ok tt) ↔ IsBoundedText max_bytes text
unfolding validate_bounded_text
validate_bounded_text_iff text max_bytes e = ground arith
