-- ===== src/Permissions.antt =====
-- pkg/agent/runtime/permissions.go: the broker of the permissions that operators decide on. One
-- reading of the clock stands for the several that an operation may make.
mod Types
unfoldable pub use Types.*
pub mod Laws
pub mod Decide
use caddy_agent_gateway.Base.{
  ℕ, zero, suc, ◌+◌, ◌-◌, ◌*◌, String, ◌≡◌, refl, Bool, true, false, not, ◌&&◌, ◌||◌, List, [], ◌∷◌,
  ◌++◌, Option, none, some, ltb, leb, if◌then◌else◌, ◌==◌, string_eq, nat_eq, ℤ, pos, negsuc,
  length, drop, lookup, insert, delete, values, keep_if, map, sort_by, str_less, is_some,
  trim_space, Result, ok, err, ◌>>=◌, ◌>>◌, reject_if,
}
use caddy_agent_gateway.Identity.{valid_run_id}

-- A loop that deletes from a map the entries of `range` whose time lies ten minutes back.
unfoldable pub drop_old :
    {V : Type 0} → (V → ℕ) → ℕ → ℕ → List (String × V) → List (String × V) → List (String × V)
unfolding delete
drop_old at age now [] m = m
drop_old at age now ((id, v) ∷ rest) m =
    drop_old at age now rest (if leb (at v + age) now then delete id m else m)

-- continuationFailureResult
unfoldable pub failure_result : PermissionError → String
failure_result permission_not_found = "continuation_lost"
failure_result _ = "continuation_failed"

-- The audited result of a continuation: `good`, or what its error amounts to.
outcome : String → Option PermissionError → String
unfolding failure_result
outcome good none = good
outcome good (some e) = failure_result e

-- claimedPermissionFrom
unfoldable pub claimed_from : PendingPermission → ℕ → ClaimedPermission
claimed_from info now = record {
  agent_id = info.agent_id;
  runtime_type = info.runtime_type;
  run_id = info.run_id;
  session_id = info.session_id;
  at = now;
}

positive_or : ℤ → ℕ → ℕ
positive_or (pos (suc n)) d = suc n
positive_or _ d = d

-- `minute` is the length of a minute in the unit of time; `c` is what the backends do.
module _ (minute : ℕ) (c : Continuations) where
  open c use {
    Resolver, validate_decision, resolve_continuation, expire_continuation, public_error_type,
  }

  pub record PermissionBroker : Type 0 where
    pub pending : List (String × PermissionEntry)
    pub claimed : List (String × ClaimedPermission)
    pub expired : List (String × ExpiredPermission)
    pub resolvers : List (String × Resolver)
    pub audits : List PermissionAudit
    pub closed : Bool

  unfoldable pub sweep_expired : ℕ → PermissionBroker → PermissionBroker
  unfolding drop_old
  sweep_expired now b = record b {
    claimed = drop_old (λ e. e.at) (minute * 10) now b.claimed b.claimed;
    expired = drop_old (λ e. e.at) (minute * 10) now b.expired b.expired;
  }

  with_defaults : ℕ → PendingPermission → PendingPermission
  unfolding positive_or
  with_defaults now info = record info {
    created_at = if info.created_at == 0 then now else info.created_at;
    expires_at =
        if info.expires_at == 0 then now + positive_or info.ttl (minute * 10) else info.expires_at;
  }

  with_id : String → PendingPermission → PendingPermission
  with_id request_id info = record info {
    request_id = request_id;
    agent_id = trim_space info.agent_id;
    runtime_type = trim_space info.runtime_type;
    run_id = trim_space info.run_id;
    session_id = trim_space info.session_id;
  }

  registered : PermissionBroker → PendingPermission → String → Resolver → PermissionBroker
  unfolding insert delete
  registered b info token resolver = record b {
    resolvers = insert info.runtime_type resolver b.resolvers;
    pending = insert info.request_id (record { info = info; token = trim_space token }) b.pending;
    claimed = delete info.request_id b.claimed;
    expired = delete info.request_id b.expired;
  }

  chosen_id : String → Option String → Result PermissionError String
  chosen_id given fresh =
      if given == "" then elim fresh [ none ↦ err turn_failed | some id ↦ ok id ] else ok given

  register_valid :
      ℕ
      → PermissionBroker
      → Option String
      → PendingPermission
      → String
      → Resolver
      → Result PermissionError (String × PermissionBroker)
  unfolding sweep_expired with_id registered chosen_id lookup
  register_valid now b fresh info token resolver = do
    reject_if (not (ltb now info.expires_at)) permission_expired
    request_id ← chosen_id (trim_space info.request_id) fresh
    reject_if b.closed backend_unavailable
    reject_if (is_some (lookup request_id b.pending)) invalid_request
    ok (request_id, registered (sweep_expired now b) (with_id request_id info) token resolver)

  -- `fresh` is the id that opaquePermissionID makes, if it succeeds. A duplicate id leaves the
  -- broker swept, every other error untouched. Sweeping leaves the pending requests alone.
  unfoldable pub register :
      ℕ
      → PermissionBroker
      → Option String
      → PendingPermission
      → String
      → Option Resolver
      → Result PermissionError (String × PermissionBroker)
  unfolding register_valid with_defaults
  register now b fresh info token none = err invalid_request
  register now b fresh info token (some resolver) = do
    reject_if
        (trim_space token == ""
          || trim_space info.agent_id == ""
          || trim_space info.runtime_type == ""
          || not (valid_run_id (trim_space info.run_id)))
        invalid_request
    register_valid now b fresh (with_defaults now info) token resolver

  request_before : PendingPermission → PendingPermission → Bool
  request_before a b = str_less a.request_id b.request_id

  unfoldable pub list : ℕ → PermissionBroker → String → List PendingPermission
  unfolding sort_by request_before
  list now b agent_id = sort_by request_before (
      keep_if (λ info. info.agent_id == trim_space agent_id && ltb now info.expires_at)
        (map (λ e. e.info) (values b.pending)))

  correlation :
      String → Option PermissionEntry → Option ClaimedPermission → Option PermissionCorrelation
  correlation request_id (some e) claimed = some (record {
    request_id = request_id;
    agent_id = e.info.agent_id;
    runtime_type = e.info.runtime_type;
    run_id = e.info.run_id;
    session_id = e.info.session_id;
  })
  correlation request_id none (some e) = some (record {
    request_id = request_id;
    agent_id = e.agent_id;
    runtime_type = e.runtime_type;
    run_id = e.run_id;
    session_id = e.session_id;
  })
  correlation request_id none none = none

  unfoldable pub lookup_permission :
      ℕ → PermissionBroker → String → Option PermissionCorrelation × PermissionBroker
  unfolding sweep_expired correlation lookup
  lookup_permission now b request_id =
      let swept = sweep_expired now b in
      let id = trim_space request_id in
      if id == ""
      then (none, b)
      else (correlation id (lookup id swept.pending) (lookup id swept.claimed), swept)

  -- The audit record, with the correlation that the broker still has.
  audit_record :
      ℕ
      → String
      → String
      → String
      → String
      → Option PermissionEntry
      → Option ClaimedPermission
      → PermissionAudit
  audit_record now agent_id request_id source result (some e) claimed = record {
    request_id = request_id;
    agent_id = agent_id;
    source = source;
    result = result;
    at = now;
    runtime_type = e.info.runtime_type;
    run_id = e.info.run_id;
    session_id = e.info.session_id;
  }
  audit_record now agent_id request_id source result none (some e) = record {
    request_id = request_id;
    source = source;
    result = result;
    at = now;
    agent_id = if agent_id == "" then e.agent_id else agent_id;
    runtime_type = e.runtime_type;
    run_id = e.run_id;
    session_id = e.session_id;
  }
  audit_record now agent_id request_id source result none none = record {
    request_id = request_id;
    agent_id = agent_id;
    source = source;
    result = result;
    at = now;
    runtime_type = "";
    run_id = "";
    session_id = "";
  }

  -- `if len(b.audits) > 4096`: the oldest go.
  unfoldable pub append_audit : List PermissionAudit → PermissionAudit → List PermissionAudit
  append_audit audits a =
      let all = audits ++ a ∷ [] in
      if ltb 4096 (length all) then drop (length all - 4096) all else all

  unfoldable pub audit : ℕ → String → String → String → String → PermissionBroker → PermissionBroker
  unfolding append_audit audit_record lookup
  audit now agent_id request_id source result b = record b {
    audits = append_audit b.audits (
        audit_record now (trim_space agent_id) (trim_space request_id) source result
          (lookup (trim_space request_id) b.pending) (lookup (trim_space request_id) b.claimed));
  }

  audits_of : PermissionBroker → String → List PermissionAudit
  audits_of b agent_id = keep_if (λ a. a.agent_id == trim_space agent_id) b.audits

  unfoldable pub expire_entry : PermissionBroker → PermissionEntry → Option PermissionError
  unfolding lookup
  expire_entry b e = elim (lookup e.info.runtime_type b.resolvers) [
    | none ↦ some permission_not_found
    | some resolver ↦ expire_continuation resolver e.token
  ]

  -- Moving a request from the pending to the claimed ones.
  unfoldable pub take : ℕ → String → PermissionEntry → PermissionBroker → PermissionBroker
  unfolding insert delete claimed_from
  take now request_id e b = record b {
    pending = delete request_id b.pending;
    claimed = insert request_id (claimed_from e.info now) b.claimed;
  }

  unfoldable pub mark_expired : ℕ → String → PermissionEntry → PermissionBroker → PermissionBroker
  unfolding insert
  mark_expired now request_id e b = record b {
    expired = insert request_id (record { agent_id = e.info.agent_id; at = now }) b.expired;
  }

  owned : String → Option PermissionEntry → Option PermissionEntry
  owned agent_id none = none
  owned agent_id (some e) = if e.info.agent_id == agent_id then some e else none

  -- The zero value's agent is the empty one.
  missing_error : String → Option ExpiredPermission → PermissionError
  missing_error agent_id none = if "" == agent_id then permission_expired else permission_not_found
  missing_error agent_id (some x) =
      if x.agent_id == agent_id then permission_expired else permission_not_found

  -- Why a decision on a live request is refused before the request is claimed.
  unfoldable pub refusal :
      PermissionBroker → PermissionEntry → Option PermissionDecision → Option PermissionError
  unfolding lookup
  refusal b e none = none
  refusal b e (some decision) = elim (lookup e.info.runtime_type b.resolvers) [
    | none ↦ some permission_not_found
    | some resolver ↦ validate_decision resolver e.token e.info decision
  ]

  claim_due :
      ℕ
      → String
      → PermissionEntry
      → PermissionBroker
      → Result PermissionError PermissionEntry × PermissionBroker
  unfolding take mark_expired expire_entry audit outcome
  claim_due now request_id e b =
      let b' = mark_expired now request_id e (take now request_id e b) in
      (
        err permission_expired,
        audit now e.info.agent_id e.info.request_id "expiry" (outcome "expired" (expire_entry b' e))
            b',
      )

  claim_live :
      ℕ
      → String
      → Bool
      → PermissionEntry
      → PermissionBroker
      → Option PermissionError
      → Result PermissionError PermissionEntry × PermissionBroker
  unfolding take mark_expired
  claim_live now request_id expiry e b (some reason) = (err reason, b)
  claim_live now request_id expiry e b none =
      let b' = take now request_id e b in
      (ok e, if expiry then mark_expired now request_id e b' else b')

  claim_found :
      ℕ
      → String
      → String
      → Bool
      → Option PermissionDecision
      → PermissionBroker
      → Option PermissionEntry
      → Result PermissionError PermissionEntry × PermissionBroker
  unfolding claim_due claim_live refusal missing_error lookup
  claim_found now agent_id request_id expiry decision b none =
      (err (missing_error agent_id (lookup request_id b.expired)), b)
  claim_found now agent_id request_id expiry decision b (some e) =
      if leb e.info.expires_at now
      then claim_due now request_id e b
      else claim_live now request_id expiry e b (refusal b e decision)

  unfoldable pub claim :
      ℕ
      → PermissionBroker
      → String
      → String
      → Bool
      → Option PermissionDecision
      → Result PermissionError PermissionEntry × PermissionBroker
  unfolding claim_found sweep_expired owned lookup
  claim now b agent_id request_id expiry decision =
      let swept = sweep_expired now b in
      if request_id == ""
      then (err permission_not_found, b)
      else claim_found now agent_id request_id expiry decision swept
          (owned agent_id (lookup request_id swept.pending))
