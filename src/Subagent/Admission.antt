-- ===== src/Subagent/Admission.antt =====
-- src/subagent_authority.rs: the snapshot of authority under which a child was admitted.
use fx_rust.Prelude.{ℕ, String, Option, List}
use fx_rust.Permissions.Types.{PermissionMode}

pub record AdmissionSnapshot : Type 0 where
  pub parent_id : String
  pub source_id : String
  pub model : String
  pub provider : String
  pub effort : Option String
  pub permission_mode : PermissionMode
  pub tool_names : List String
  pub rules : List (String × String)
  pub grants : List (String × String)
  pub integration_names : List String
  pub authority_generation : ℕ
