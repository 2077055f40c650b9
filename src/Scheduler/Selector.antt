-- ===== src/Scheduler/Selector.antt =====
-- pkg/credential/scheduler/selector.go: the two selections from a bucket of ready credentials, and
-- whether a credential is blocked. A predicate that is nil is the one that always holds.
pub mod Laws
use caddy_agent_gateway.Base.{
  ℕ, zero, suc, ◌+◌, ◌%◌, String, Bool, true, false, not, ◌&&◌, ◌||◌, List, [], ◌∷◌, Option, none,
  some, ltb, leb, if◌then◌else◌, ◌==◌, nat_eq, string_eq, length, get_elem?, lookup,
}
use caddy_agent_gateway.Scheduler.Credential.{ManagedCredential, ModelState, QuotaState}

-- The slice holds pointers, which `A` stands for: a selector does not look behind them.
pub record ReadyBucket (A : Type 0) : Type 0 where
  pub creds : List A
  pub cursor : ℕ

module _ {A : Type 0} (predicate : A → Bool) where
  -- One round of the loop, which a read out of bounds would end.
  try_index : Option A → ℕ → Option (A × ℕ) → Option (A × ℕ)
  try_index none index rest = none
  try_index (some cred) index rest = if predicate cred then some (cred, index + 1) else rest

  -- The rounds that are left: the credential and the new cursor.
  unfoldable pub round_robin_loop : List A → ℕ → ℕ → ℕ → ℕ → Option (A × ℕ)
  unfolding try_index
  round_robin_loop creds n start offset zero = none
  round_robin_loop creds n start offset (suc left) =
      let index = (start + offset) % n in
      let rest = round_robin_loop creds n start (suc offset) left in
      try_index (get_elem? creds index) index rest

  -- RoundRobinSelector.PickFromBucket
  unfoldable pub pick_round_robin : ReadyBucket A → Option A × ReadyBucket A
  unfolding round_robin_loop
  pick_round_robin bucket =
      let n = length bucket.creds in
      if n == 0
      then (none, bucket)
      else elim (round_robin_loop bucket.creds n (bucket.cursor % n) 0 n) [
        | none ↦ (none, bucket)
        | some found ↦ (some found.0, record bucket { cursor = found.1 })
      ]

  -- FillFirstSelector.PickFromBucket
  unfoldable pub pick_fill_first : List A → Option A
  pick_fill_first [] = none
  pick_fill_first (cred ∷ creds) = if predicate cred then some cred else pick_fill_first creds

pub data BlockReason : Type 0 where
  not_blocked cooldown is_disabled other : BlockReason

pub record Block : Type 0 where
  pub blocked : Bool
  pub reason : BlockReason
  pub next_retry : ℕ

abbrev free : Block
free = record { blocked = false; reason = not_blocked; next_retry = 0 }

abbrev block : BlockReason → ℕ → Block
block reason next_retry = record { blocked = true; reason = reason; next_retry = next_retry }

-- The later of the retry and the recovery of the quota, which are set when they are not zero.
later_recovery : ℕ → QuotaState → ℕ
later_recovery next quota =
    if not (quota.next_recover_at == 0) && ltb next quota.next_recover_at
    then quota.next_recover_at
    else next

unfoldable pub quota_block : ℕ → QuotaState → Block
unfolding later_recovery
quota_block next quota =
    if quota.exceeded
    then block cooldown (later_recovery next quota)
    else block other (later_recovery next quota)

unfoldable pub model_block : ModelState → ℕ → Block
unfolding quota_block
model_block state now =
    if state.auth_invalid
    then block is_disabled 0
    else (if state.unavailable
          && not (state.next_retry_after == 0)
          && ltb now state.next_retry_after
        then quota_block state.next_retry_after state.quota
        else free)

unfoldable pub found_block : Option ModelState → ℕ → Block
unfolding model_block
found_block none now = free
found_block (some state) now = model_block state now

unfoldable pub credential_block : ManagedCredential → ℕ → Block
unfolding quota_block
credential_block cred now =
    if cred.unavailable && ltb now cred.next_retry_after
    then quota_block cred.next_retry_after cred.quota
    else free

unfoldable pub is_credential_blocked_for_model : ManagedCredential → String → ℕ → Block
unfolding found_block credential_block lookup
is_credential_blocked_for_model cred model now =
    if cred.credential.disabled || cred.auth_invalid
    then block is_disabled 0
    else (if cred.credential_wide_unavailable && ltb now cred.credential_wide_next_retry_after
        then block other cred.credential_wide_next_retry_after
        else (if not (model == "") && ltb 0 (length cred.model_states)
            then found_block (lookup model cred.model_states) now
            else credential_block cred now))
