-- ===== src/Scheduler/Mark.antt =====
-- pkg/credential/scheduler/scheduler.go: how the result of a request changes one credential, and
-- how long a quota keeps it away.
pub mod Backoff
pub mod Blocked
pub mod Free
pub mod Kept
use caddy_agent_gateway.Base.{
  ℕ, zero, suc, ◌+◌, ◌*◌, String, Bool, true, false, not, ◌&&◌, ◌||◌, List, Option, none, some, ltb,
  if◌then◌else◌, ◌==◌, Eq, string_eq, is_some, ℤ, pos, negsuc, pos_part, ltb_ℤ, int_eq, shift,
  lookup, insert,
}
use caddy_agent_gateway.Scheduler.Credential.{
  QuotaState, CredentialFailure, ModelState, ManagedCredential,
}

-- The record Result. Durations are nanoseconds.
pub record RequestResult : Type 0 where
  pub credential_id : String
  pub model : String
  pub success : Bool
  pub retry_after : Option ℤ
  pub error : Option CredentialFailure
  pub credential_wide : Bool

abbrev pub default_quota_backoff_base : ℕ
default_quota_backoff_base = 1000000000

abbrev pub default_quota_backoff_max : ℕ
default_quota_backoff_max = 1800000000000

-- The loop, with the rounds that are left.
unfoldable pub backoff_loop : ℕ → ℕ → ℕ → ℕ
backoff_loop zero d max_backoff = d
backoff_loop (suc left) d max_backoff =
    let rest = backoff_loop left (d * 2) max_backoff in if ltb d max_backoff then rest else d

unfoldable pub compute_backoff : ℤ → ℕ → ℕ → ℕ
unfolding backoff_loop
compute_backoff level base max_backoff =
    if not (ltb_ℤ (pos 0) level)
    then base
    else (let d = backoff_loop (pos_part level) base max_backoff in
        if ltb max_backoff d then max_backoff else d)

abbrev no_quota : QuotaState
no_quota = record { exceeded = false; reason = ""; next_recover_at = 0; backoff_level = pos 0 }

abbrev no_model_state : ModelState
no_model_state = record {
  unavailable = false;
  next_retry_after = 0;
  last_error = none;
  quota = no_quota;
  auth_invalid = false;
  updated_at = 0;
}

-- The branch of a success for the credential, and whether it changed.
unfoldable pub clear_cred : ManagedCredential → ManagedCredential × Bool
clear_cred cred =
    if cred.unavailable || is_some cred.last_error || cred.quota.exceeded || cred.auth_invalid
    then (
      record cred {
        unavailable = false;
        last_error = none;
        next_retry_after = 0;
        quota = no_quota;
        auth_invalid = false;
      },
      true,
    )
    else (cred, false)

clear_state : ℕ → ModelState → ModelState × Bool
clear_state now state =
    if state.unavailable || is_some state.last_error || state.quota.exceeded || state.auth_invalid
    then (
      record {
        unavailable = false;
        last_error = none;
        next_retry_after = 0;
        quota = no_quota;
        auth_invalid = false;
        updated_at = now;
      },
      true,
    )
    else (state, false)

clear_found : String → ℕ → ManagedCredential × Bool → Option ModelState → ManagedCredential × Bool
unfolding clear_state insert
clear_found model now (cred, changed) none = (cred, changed)
clear_found model now (cred, changed) (some state) =
    let (state', cleared) = clear_state now state in
    (record cred { model_states = insert model state' cred.model_states }, changed || cleared)

unfoldable pub mark_success : String → ℕ → ManagedCredential → ManagedCredential × Bool
unfolding clear_cred clear_found lookup
mark_success model now cred =
    let done = clear_cred cred in
    if model == "" then done else clear_found model now done (lookup model done.0.model_states)

add_one : ℤ → ℤ
add_one (pos n) = pos (n + 1)
add_one (negsuc zero) = pos 0
add_one (negsuc (suc n)) = negsuc n

-- A longer wait that the answer asks for takes the place of the backoff.
abbrev pub longer_wait : Option ℤ → ℕ → ℕ
longer_wait none backoff = backoff
longer_wait (some retry) backoff = if ltb_ℤ (pos backoff) retry then pos_part retry else backoff

abbrev pub wait_of : RequestResult → ManagedCredential → ℕ
wait_of result cred =
    longer_wait result.retry_after (
      compute_backoff cred.quota.backoff_level default_quota_backoff_base default_quota_backoff_max)

mark_wide : RequestResult → ℕ → ManagedCredential → ManagedCredential
mark_wide result now cred = elim (result.retry_after) [
  | none ↦ record cred { credential_wide_unavailable = true }
  | some wait ↦ record cred {
    credential_wide_unavailable = true;
    credential_wide_next_retry_after = shift now wait;
  }
]

mark_quota : RequestResult → CredentialFailure → ℕ → ManagedCredential → ManagedCredential
unfolding compute_backoff add_one
mark_quota result rerr now cred =
    let backoff = wait_of result cred in
    record cred {
      quota = record {
        exceeded = true;
        reason = rerr.message;
        next_recover_at = now + backoff;
        backoff_level = add_one cred.quota.backoff_level;
      };
      unavailable = true;
      next_retry_after = now + backoff;
    }

mark_other : RequestResult → CredentialFailure → ℕ → ManagedCredential → ManagedCredential
mark_other result rerr now cred = elim (result.retry_after) [
  | none ↦ record cred { last_error = some rerr }
  | some wait ↦ record cred {
    last_error = some rerr;
    unavailable = true;
    next_retry_after = shift now wait;
  }
]

abbrev pub is_auth_status : ℤ → Bool
is_auth_status status = status == pos 401 || status == pos 403

mark_cred : Bool → RequestResult → CredentialFailure → ℕ → ManagedCredential → ManagedCredential
unfolding mark_quota mark_other
mark_cred is_quota result rerr now cred =
    if is_quota
    then mark_quota result rerr now cred
    else (if is_auth_status rerr.http_status
        then record cred { auth_invalid = true; last_error = some rerr }
        else mark_other result rerr now cred)

-- `cred.ModelStates[result.Model]`, or a new one.
abbrev state_or_new : Option ModelState → ModelState
state_or_new none = no_model_state
state_or_new (some state) = state

mark_state_other : RequestResult → CredentialFailure → ℕ → ModelState → ModelState
mark_state_other result rerr now state = elim (result.retry_after) [
  | none ↦ record state { last_error = some rerr; updated_at = now }
  | some wait ↦ record state {
    last_error = some rerr;
    unavailable = true;
    next_retry_after = shift now wait;
    updated_at = now;
  }
]

-- `cred` is the credential after its own change.
mark_state :
    Bool → RequestResult → CredentialFailure → ℕ → ManagedCredential → ModelState → ModelState
unfolding mark_state_other
mark_state is_quota result rerr now cred state =
    if is_quota
    then record state {
      quota = cred.quota;
      unavailable = true;
      next_retry_after = cred.next_retry_after;
      updated_at = now;
    }
    else (if is_auth_status rerr.http_status
        then record state { auth_invalid = true; last_error = some rerr; updated_at = now }
        else mark_state_other result rerr now state)

mark_model : Bool → RequestResult → CredentialFailure → ℕ → ManagedCredential → ManagedCredential
unfolding mark_state insert lookup
mark_model is_quota result rerr now cred = if result.model == "" then cred else record cred {
  model_states =
      insert result.model
        (mark_state is_quota result rerr now cred
          (state_or_new (lookup result.model cred.model_states)))
        cred.model_states;
}

-- The branch of a failure.
unfoldable pub mark_failure :
    Bool → RequestResult → CredentialFailure → ℕ → ManagedCredential → ManagedCredential
unfolding mark_wide mark_cred mark_model
mark_failure disable_quota result rerr now cred =
    if result.credential_wide
    then mark_wide result now cred
    else (let is_quota = rerr.http_status == pos 429 && not disable_quota in
        mark_model is_quota result rerr now (mark_cred is_quota result rerr now cred))

-- The credential after a result, and whether it changed.
unfoldable pub mark : Bool → RequestResult → ℕ → ManagedCredential → ManagedCredential × Bool
unfolding mark_success mark_failure
mark disable_quota result now cred =
    if result.success then stamp (mark_success result.model now cred) else elim (result.error) [
      | none ↦ (cred, false)
      | some rerr ↦ stamp (mark_failure disable_quota result rerr now cred, true)
    ]
  where
    stamp : ManagedCredential × Bool → ManagedCredential × Bool
    stamp (cred', changed) =
        (if changed then record cred' { state_updated_at = now } else cred', changed)
