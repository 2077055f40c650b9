-- ===== src/Scheduler/Credential.antt =====
-- pkg/credential/model/credential.go: credentials and their runtime state. The map Metadata, which
-- holds values of any type, is left out: nothing here reads it.
use Prim.Native.Char.{Char}
use caddy_agent_gateway.Base.{
  ℕ, String, Bool, List, Option, none, some, if◌then◌else◌, ◌==◌, string_eq, ℤ, pos, lookup,
  trim_space, to_lower, Result, ◌>>◌, reject_if,
}

-- `credential_type` is the field Type.
pub record Credential : Type 0 where
  pub id : String
  pub provider_type : String
  pub provider_id : String
  pub credential_type : String
  pub label : String
  pub scope : String
  pub attributes : List (String × String)
  pub disabled : Bool
  pub created_at : ℕ
  pub updated_at : ℕ

-- Times are counted from the zero time, which is 0.
pub record QuotaState : Type 0 where
  pub exceeded : Bool
  pub reason : String
  pub next_recover_at : ℕ
  pub backoff_level : ℤ

-- The record Error.
pub record CredentialFailure : Type 0 where
  pub code : String
  pub message : String
  pub retryable : Bool
  pub http_status : ℤ

pub record ModelState : Type 0 where
  pub unavailable : Bool
  pub next_retry_after : ℕ
  pub last_error : Option CredentialFailure
  pub quota : QuotaState
  pub auth_invalid : Bool
  pub updated_at : ℕ

pub record ManagedCredential : Type 0 where
  pub credential : Credential
  pub unavailable : Bool
  pub credential_wide_unavailable : Bool
  pub credential_wide_next_retry_after : ℕ
  pub next_retry_after : ℕ
  pub quota : QuotaState
  pub last_error : Option CredentialFailure
  pub model_states : List (String × ModelState)
  pub auth_invalid : Bool
  pub state_updated_at : ℕ

pub data CredentialError : Type 0 where
  provider_type_required provider_id_required type_required scope_required : CredentialError

or_zero : Option ℤ → ℤ
or_zero none = pos 0
or_zero (some n) = n

-- `atoi` is strconv.Atoi, with `none` for its error.
unfoldable pub priority : (String → Option ℤ) → Credential → ℤ
unfolding lookup or_zero
priority atoi c = elim (lookup "priority" c.attributes) [
  | none ↦ pos 0
  | some raw ↦ if trim_space raw == "" then pos 0 else or_zero (atoi (trim_space raw))
]

module _ (fold : Char → Char) where
  unfoldable pub normalize_credential_scope : String → String
  unfolding to_lower trim_space
  normalize_credential_scope scope = to_lower fold (trim_space scope)

  unfoldable pub scope_value : Credential → String
  unfolding normalize_credential_scope
  scope_value c = normalize_credential_scope c.scope

  unfoldable pub normalize : Credential → Credential
  unfolding normalize_credential_scope
  normalize c = record c {
    id = trim_space c.id;
    provider_type = to_lower fold (trim_space c.provider_type);
    provider_id = to_lower fold (trim_space c.provider_id);
    credential_type = to_lower fold (trim_space c.credential_type);
    label = trim_space c.label;
    scope = normalize_credential_scope c.scope;
  }

  unfoldable pub validate : Credential → Result CredentialError (Unit {0})
  unfolding scope_value
  validate c = do
    reject_if (c.provider_type == "") provider_type_required
    reject_if (c.provider_id == "") provider_id_required
    reject_if (c.credential_type == "") type_required
    reject_if (scope_value c == "") scope_required
