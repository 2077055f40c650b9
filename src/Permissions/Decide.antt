-- ===== src/Permissions/Decide.antt =====
-- pkg/agent/runtime/permissions.go: decisions, expiry, draining and closing, over the claims.
pub mod Laws
pub mod Once
use caddy_agent_gateway.Base.{
  ℕ, zero, suc, ◌+◌, ◌-◌, ◌*◌, String, ◌≡◌, refl, Bool, true, false, not, ◌&&◌, ◌||◌, List, [], ◌∷◌,
  ◌++◌, Option, none, some, ltb, leb, if◌then◌else◌, ◌==◌, string_eq, nat_eq, ℤ, pos, negsuc,
  length, drop, lookup, insert, delete, values, keep_if, map, sort_by, str_less, is_some,
  trim_space, Result, ok, err, ◌>>=◌, ◌>>◌, reject_if,
}
use caddy_agent_gateway.Permissions.{
  PendingPermission, PermissionDecision, PermissionEntry, ClaimedPermission, ExpiredPermission,
  PermissionAudit, PermissionError, permission_not_found, permission_expired, Continuations,
  PermissionBroker, sweep_expired, audit, outcome, expire_entry, take, mark_expired, claim,
}

module _ (minute : ℕ) (c : Continuations) where
  open c use {resolve_continuation, public_error_type}

  resolve_entry :
      PermissionBroker minute c → PermissionEntry → PermissionDecision → Option PermissionError
  unfolding lookup
  resolve_entry b e decision = elim (lookup e.info.runtime_type b.resolvers) [
    | none ↦ some permission_not_found
    | some resolver ↦ resolve_continuation resolver e.token decision e.info.expires_at
  ]

  or_ok : Option PermissionError → Result PermissionError (Unit {0})
  or_ok none = ok tt
  or_ok (some e) = err e

  resolved :
      ℕ
      → String
      → PermissionDecision
      → String
      → Result PermissionError PermissionEntry × PermissionBroker minute c
      → Result PermissionError (Unit {0}) × PermissionBroker minute c
  unfolding resolve_entry audit outcome or_ok
  resolved now agent_id decision source (err e, b) =
      (err e, audit minute c now agent_id decision.request_id source (public_error_type e) b)
  resolved now agent_id decision source (ok e, b) =
      let result = resolve_entry b e decision in
      (
        or_ok result,
        audit minute c now agent_id decision.request_id source (outcome "resolved" result) b,
      )

  unfoldable pub resolve :
      ℕ
      → PermissionBroker minute c
      → String
      → PermissionDecision
      → String
      → Result PermissionError (Unit {0}) × PermissionBroker minute c
  unfolding claim resolved
  resolve now b agent_id decision source = resolved now agent_id decision source (
      claim minute c now b (trim_space agent_id) (trim_space decision.request_id) false
        (some decision))

  expired_now :
      ℕ
      → String
      → String
      → String
      → Result PermissionError PermissionEntry × PermissionBroker minute c
      → Result PermissionError (Unit {0}) × PermissionBroker minute c
  unfolding expire_entry audit outcome or_ok
  expired_now now agent_id request_id source (err e, b) = (err e, b)
  expired_now now agent_id request_id source (ok e, b) =
      let result = expire_entry minute c b e in
      (or_ok result, audit minute c now agent_id request_id source (outcome "expired" result) b)

  unfoldable pub expire :
      ℕ
      → PermissionBroker minute c
      → String
      → String
      → String
      → Result PermissionError (Unit {0}) × PermissionBroker minute c
  unfolding claim expired_now
  expire now b agent_id request_id source =
      expired_now now agent_id request_id source
        (claim minute c now b (trim_space agent_id) (trim_space request_id) true none)

  -- The loops of DrainRun, ClaimAgent, DrainAll and expireDue over what `range` meets: the matching
  -- requests are taken.
  unfoldable pub take_matching :
      (PermissionEntry → Bool)
      → Bool
      → ℕ
      → List (String × PermissionEntry)
      → PermissionBroker minute c
      → List PermissionEntry × PermissionBroker minute c
  unfolding take mark_expired
  take_matching matches expiry now [] b = ([], b)
  take_matching matches expiry now ((id, e) ∷ rest) b =
      let taken = take minute c now id e b in
      let marked = if expiry then mark_expired minute c now id e taken else taken in
      let (others, b') = take_matching matches expiry now rest (if matches e then marked else b) in
      (if matches e then e ∷ others else others, b')

  -- Outside the lock: each taken continuation is expired and audited.
  unfoldable pub settle :
      ℕ
      → String
      → String
      → List PermissionEntry
      → PermissionBroker minute c
      → PermissionBroker minute c
  unfolding expire_entry audit outcome
  settle now source good [] b = b
  settle now source good (e ∷ es) b = settle now source good es (
      audit minute c now e.info.agent_id e.info.request_id source
        (outcome good (expire_entry minute c b e)) b)

  unfoldable pub drain :
      (PermissionEntry → Bool)
      → ℕ
      → String
      → PermissionBroker minute c
      → ℕ × PermissionBroker minute c
  unfolding take_matching settle
  drain matches now source b =
      let (taken, b') = take_matching matches false now b.pending b in
      (length taken, settle now source "cancelled" taken b')

  unfoldable pub drain_run :
      ℕ → String → PermissionBroker minute c → String → String → ℕ × PermissionBroker minute c
  unfolding drain
  drain_run now source b agent_id run_id =
      drain (λ e. e.info.agent_id == agent_id && e.info.run_id == run_id) now source b

  -- ClaimAgent followed at once by the function that it returns.
  unfoldable pub drain_agent :
      ℕ → String → PermissionBroker minute c → String → ℕ × PermissionBroker minute c
  unfolding drain
  drain_agent now source b agent_id = drain (λ e. e.info.agent_id == agent_id) now source b

  unfoldable pub drain_all : ℕ → String → PermissionBroker minute c → ℕ × PermissionBroker minute c
  unfolding drain
  drain_all now source b = drain (λ e. true) now source b

  unfoldable pub close : ℕ → String → PermissionBroker minute c → PermissionBroker minute c
  unfolding drain_all
  close now source b = if b.closed then b else (drain_all now source (record b { closed = true })).1

  unfoldable pub expire_due : ℕ → PermissionBroker minute c → PermissionBroker minute c
  unfolding take_matching settle
  expire_due now b =
      let (due, b') = take_matching (λ e. leb e.info.expires_at now) true now b.pending b in
      settle now "expiry" "expired" due b'

  earliest : ℕ → List (String × PermissionEntry) → ℕ
  earliest next [] = next
  earliest next ((id, e) ∷ rest) =
      earliest (if next == 0 || ltb e.info.expires_at next then e.info.expires_at else next) rest

  -- How long the loop waits; the difference of times stops at 0, as in the code.
  unfoldable pub next_expiry_delay : ℕ → PermissionBroker minute c → Option ℕ
  unfolding earliest
  next_expiry_delay now b =
      if b.closed
      then none
      else elim (b.pending) [ [] ↦ none | p ∷ ps ↦ some (earliest 0 (p ∷ ps) - now) ]
