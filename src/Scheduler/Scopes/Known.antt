-- ===== src/Scheduler/Scopes/Known.antt =====
-- pkg/credential/scheduler/scheduler.go: what an entry of a shard records of its credential.
use caddy_agent_gateway.Base.{ℕ, ◌≤◌, ◌≡◌, ◌≢◌, refl, String, Bool, true, false, Option, arith, ℤ}
use caddy_agent_gateway.Scheduler.Credential.{ManagedCredential, priority}
use caddy_agent_gateway.Scheduler.Selector.{
  Block, BlockReason, not_blocked, cooldown, is_disabled, other, is_credential_blocked_for_model,
}
use caddy_agent_gateway.Scheduler.Shard.{
  ScheduledState, ready, in_cooldown, blocked, disabled, ScheduledCred, state_of, scheduled,
  promote,
}

-- The state and the time to retry that stand for a block.
pub data Records (b : Block) (state : ScheduledState) (next : ℕ) : Type 0 where
  is_free : b.blocked ≡ false → state ≡ ready → next ≡ 0 → Records b state next
  cools :
      b.blocked ≡ true
      → b.reason ≡ cooldown
      → state ≡ in_cooldown
      → next ≡ b.next_retry
      → Records b state next
  is_off :
      b.blocked ≡ true → b.reason ≡ is_disabled → state ≡ disabled → next ≡ 0 → Records b state next
  is_blocked :
      b.blocked ≡ true
      → b.reason ≢ cooldown
      → b.reason ≢ is_disabled
      → state ≡ blocked
      → next ≡ b.next_retry
      → Records b state next

-- An entry records the block, at some time up to now, of its credential as it is now, and the
-- priority that the credential has.
pub record Knows (parse : String → Option ℤ) (cred : ManagedCredential) (key : String) (now : ℕ)
    (e : ScheduledCred) : Type 0 where
  pub since : ℕ
  pub past : since ≤ now
  pub recorded : Records (is_credential_blocked_for_model cred key since) e.state e.next_retry_at
  pub ranked : e.priority ≡ priority parse cred.credential

pub Knows-later :
    {parse : String → Option ℤ} {cred : ManagedCredential} {key : String} {now : ℕ}
    {e : ScheduledCred} (t : ℕ)
    → now ≤ t
    → Knows parse cred key now e
    → Knows parse cred key t e
Knows-later t le k = record {
  since = k.since;
  past = omega (arith, k.past);
  recorded = k.recorded;
  ranked = k.ranked;
}

module _ (parse : String → Option ℤ) (cell : ℕ → ManagedCredential) where
  by_reason :
      (held : Bool) (r : BlockReason) (next : ℕ)
      → let b : Block = record { blocked = held; reason = r; next_retry = next } in
        Records b (state_of parse cell b).0 (state_of parse cell b).1
  unfolding state_of
  by_reason false r next = is_free refl refl refl
  by_reason true cooldown next = cools refl refl refl refl
  by_reason true is_disabled next = is_off refl refl refl refl
  by_reason true not_blocked next = is_blocked refl (λ k. cc) (λ k. cc) refl refl
  by_reason true other next = is_blocked refl (λ k. cc) (λ k. cc) refl refl

  pub state_of-Records : (b : Block) → Records b (state_of parse cell b).0 (state_of parse cell b).1
  state_of-Records b = by_reason b.blocked b.reason b.next_retry

  pub scheduled-Knows :
      (key : String) (now ref : ℕ)
      → Knows parse (cell ref) key now (scheduled parse cell key now ref)
  unfolding scheduled
  scheduled-Knows key now ref = record {
    since = now;
    past = omega arith;
    recorded = state_of-Records (is_credential_blocked_for_model (cell ref) key now);
    ranked = refl;
  }

  pub promote-Knows :
      (key : String) (now : ℕ) (e : ScheduledCred)
      → Knows parse (cell e.cred) key now e
      → Knows parse (cell e.cred) key now (promote parse cell key now e)
  unfolding promote
  promote-Knows key now e k = record {
    since = now;
    past = omega arith;
    recorded = state_of-Records (is_credential_blocked_for_model (cell e.cred) key now);
    ranked = k.ranked;
  }
