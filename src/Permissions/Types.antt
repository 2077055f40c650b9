-- ===== src/Permissions/Types.antt =====
-- pkg/agent/runtime/permissions.go and types.go: the records of permission requests.
use caddy_agent_gateway.Base.{ℕ, String, List, Option, ℤ}

pub record PermissionAction : Type 0 where
  pub action_id : String
  pub name : String

pub record PermissionOption : Type 0 where
  pub option_id : String
  pub kind : String
  pub name : String

-- Times are counted from the zero time, which is 0.
pub record PendingPermission : Type 0 where
  pub request_id : String
  pub agent_id : String
  pub runtime_type : String
  pub run_id : String
  pub session_id : String
  pub created_at : ℕ
  pub expires_at : ℕ
  pub actions : List PermissionAction
  pub options : List PermissionOption
  pub resume_mode : String
  pub ttl : ℤ

pub record PermissionActionDecision : Type 0 where
  pub action_id : String
  pub outcome : String

pub record PermissionDecision : Type 0 where
  pub request_id : String
  pub outcome : String
  pub option_id : String
  pub decisions : List PermissionActionDecision

pub record PermissionEntry : Type 0 where
  pub info : PendingPermission
  pub token : String

pub record ClaimedPermission : Type 0 where
  pub agent_id : String
  pub runtime_type : String
  pub run_id : String
  pub session_id : String
  pub at : ℕ

pub record ExpiredPermission : Type 0 where
  pub agent_id : String
  pub at : ℕ

pub record PermissionAudit : Type 0 where
  pub request_id : String
  pub agent_id : String
  pub runtime_type : String
  pub run_id : String
  pub session_id : String
  pub source : String
  pub result : String
  pub at : ℕ

pub record PermissionCorrelation : Type 0 where
  pub request_id : String
  pub agent_id : String
  pub runtime_type : String
  pub run_id : String
  pub session_id : String

-- The code's error codes, and an error of a backend.
pub data PermissionError : Type 0 where
  invalid_request permission_expired permission_not_found backend_unavailable : PermissionError
  turn_failed : PermissionError
  continuation_error : String → PermissionError

-- The interface ContinuationResolver, which the backends implement, and PublicError's error type.
pub record Continuations : Type 1 where
  pub Resolver : Type 0
  pub validate_decision :
      Resolver → String → PendingPermission → PermissionDecision → Option PermissionError
  pub resolve_continuation : Resolver → String → PermissionDecision → ℕ → Option PermissionError
  pub expire_continuation : Resolver → String → Option PermissionError
  pub public_error_type : PermissionError → String
