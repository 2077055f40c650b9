-- ===== src/Scheduler/Scopes/Refused.antt =====
-- pkg/credential/scheduler/scheduler.go: what it means that the scheduler picks no credential.
use Prim.Native.Char.{Char}
use caddy_agent_gateway.Base.{
  ℕ, ◌≤◌, String, ◌≡◌, refl, sym, ◌∙◌, inl, inr, Bool, true, false, List, Option, none, some, ◌==◌,
  string_eq, ℤ, lookup, lookup-Member, Bool-cases, Option-cases, err,
}
use caddy_agent_gateway.Scheduler.Credential.{ManagedCredential}
use caddy_agent_gateway.Scheduler.Selector.{Block, is_disabled, is_credential_blocked_for_model}
use caddy_agent_gateway.Scheduler.Selector.Laws.{
  Explains, for_good, for_now, not_at_all, is_credential_blocked_for_model-Explains,
}
use caddy_agent_gateway.Scheduler.Shard.{
  state_eq, ScheduledCred, ModelScheduler, PickError, Selector, is_ready, promote_expired,
  pick_ready,
}
use caddy_agent_gateway.Scheduler.Shard.Index.{IsReady}
use caddy_agent_gateway.Scheduler.Shard.Pick.{Selects, found, nothing, pick_promoted-Outcome}
use caddy_agent_gateway.Scheduler.Scopes.{
  ScopeScheduler, AuthScheduler, Filter, ensured, choose_selector, pick_in, pick,
}
use caddy_agent_gateway.Scheduler.Scopes.Known.{is_free, cools, is_off, is_blocked, Knows}
use caddy_agent_gateway.Scheduler.Scopes.Entries.{
  ShardValid, ShardValid-later, promote_expired-ShardValid,
}
use caddy_agent_gateway.Scheduler.Scopes.Lifted.{IsAhead, promote_expired-IsAhead}
use caddy_agent_gateway.Scheduler.Scopes.Valid.{ensured-ShardValid}
use caddy_agent_gateway.Scheduler.Scopes.Served.{predicate_of, choose_selector-Selects}
use caddy_agent_gateway.Scheduler.Scopes.Reached.{Reached, Reached-Valid}

-- The credential, as it is now, is blocked at some time up to now, and the block has no time to retry
-- or one that lies ahead of now.
pub record IsHeld (cred : ManagedCredential) (key : String) (now : ℕ) : Type 0 where
  pub since : ℕ
  pub past : since ≤ now
  pub is_blocked_then : (is_credential_blocked_for_model cred key since).blocked ≡ true
  pub retries : IsAhead now (is_credential_blocked_for_model cred key since).next_retry

off-IsAhead :
    (now t : ℕ) (b : Block)
    → Explains t b
    → b.blocked ≡ true
    → b.reason ≡ is_disabled
    → IsAhead now b.next_retry
off-IsAhead now t b (for_good h r n) held off = inl n
off-IsAhead now t b (for_now h r n) held off = absurd (r off)
off-IsAhead now t b (not_at_all h r n) held off = inl n

Knows-IsHeld :
    (parse : String → Option ℤ) (cred : ManagedCredential) (key : String) (now : ℕ)
    (e : ScheduledCred)
    → Knows parse cred key now e
    → IsAhead now e.next_retry_at
    → is_ready e ≡ false
    → IsHeld cred key now
unfolding state_eq
Knows-IsHeld parse cred key now e k ahead idle =
    let b = is_credential_blocked_for_model cred key k.since in
    elim (k.recorded) [
      | is_free h s n ↦ let idle' : true ≡ false = rw s at idle in absurd cc
      | is_off h r s n ↦ record {
        since = k.since;
        past = k.past;
        is_blocked_then = h;
        retries =
            off-IsAhead now k.since b (is_credential_blocked_for_model-Explains cred key k.since) h
              r;
      }
      | cools h r s n ↦ record {
        since = k.since;
        past = k.past;
        is_blocked_then = h;
        retries = rw (← n) ahead;
      }
      | is_blocked h r r' s n ↦ record {
        since = k.since;
        past = k.past;
        is_blocked_then = h;
        retries = rw (← n) ahead;
      }
    ]

pick_ready-IsHeld :
    (parse : String → Option ℤ) (cell : ℕ → ManagedCredential) {now : ℕ} {creds : List (String × ℕ)}
    {key : String} (m : ModelScheduler) (select : Selector) (predicate : ℕ → Bool) (id : String)
    (ref : ℕ)
    → Selects select
    → ShardValid parse cell now creds key m
    → (pick_ready parse cell now select predicate m).0 ≡ none
    → lookup id creds ≡ some ref
    → predicate ref ≡ true
    → IsHeld (cell ref) key now
unfolding pick_ready
pick_ready-IsHeld parse cell {now} {creds} {key} m select predicate id ref lawful v h listed fits =
    let m' = promote_expired parse cell now m in
    let v' = promote_expired-ShardValid parse cell v in
    elim (pick_promoted-Outcome select lawful predicate m' v'.indexed) [
      | found p ref' is_ref matches r highest ↦
          let clash : Path (Option ℕ) none (some ref') = sym h ∙ is_ref in absurd cc
      | nothing gone never ↦ elim (Option-cases (lookup id m'.entries)) [
        | inl missing ↦
            let clash : Path (Option ℕ) none (some ref) = rw missing at (v'.lists id ∙ listed) in
            absurd cc
        | inr (e, at) ↦
            let both : Path (Option ℕ) (some e.cred) (some ref) = rw at at (v'.lists id ∙ listed) in
            let same : e.cred ≡ ref = cc in
            rw (← same) (
              Knows-IsHeld parse (cell e.cred) key now e (v'.knows id e at)
                (promote_expired-IsAhead parse cell id e v at) (idle m' e at same never))
      ]
    ]
  where
    idle :
        (m' : ModelScheduler) (e : ScheduledCred)
        → lookup id m'.entries ≡ some e
        → e.cred ≡ ref
        → ((q : ℤ) (other : ℕ) → IsReady m'.entries q other → predicate other ≡ false)
        → is_ready e ≡ false
    idle m' e at same never = elim (Bool-cases (is_ready e)) [
      | inr h ↦ h
      | inl good ↦
          let miss = never e.priority ref (record {
            id = id;
            entry = e;
            member = lookup-Member id e m'.entries at;
            is_ready_now = good;
            priority = refl;
            cred = same;
          }) in
          let clash : true ≡ false = sym fits ∙ miss in absurd cc
    ]

-- Of every state that the operations lead to: where a pick from a scope refuses, each credential that
-- is registered in the scope, passes the filter and was not tried is, as it is at the pick, one that
-- is blocked for the model at some time up to the pick, for good or until a time that lies ahead of
-- the pick.
pub pick-refuses :
    (parse : String → Option ℤ) (fold : Char → Char) {now : ℕ} {cell : ℕ → ManagedCredential}
    {s : AuthScheduler} (t2 t3 : ℕ) (filter : Filter) (tried : List (String × Unit {0}))
    (p : ScopeScheduler) (e : PickError) (id : String) (ref : ℕ)
    → Reached parse fold now cell s
    → now ≤ t2
    → (filter.credential_scope == "") ≡ false
    → lookup filter.credential_scope s.scope_schedulers ≡ some p
    → (pick parse fold cell now t2 t3 filter tried s).0 ≡ err e
    → lookup id p.creds ≡ some ref
    → predicate_of parse fold cell filter tried ref ≡ true
    → IsHeld (cell ref) filter.model t2
unfolding pick pick_in
pick-refuses parse fold {now} {cell} {s} t2 t3 filter tried p e id ref r le named there_is h listed
      fits =
    let v = Reached-Valid parse fold r in
    let select = choose_selector fold filter.selector s.selector in
    let lawful = choose_selector-Selects fold filter.selector s.selector v.lawful in
    let predicate = predicate_of parse fold cell filter tried in
    let shard = ensured parse cell filter.model now p in
    let shard_valid =
      ShardValid-later t2 le (
        ensured-ShardValid parse cell filter.model (v.scopes filter.credential_scope p there_is)) in
    let h' = rw (named, there_is) at h in
    elim (Option-cases (pick_ready parse cell t2 select predicate shard).0) [
      | inr (x, is_x) ↦ let served = rw is_x at h' in absurd cc
      | inl gone ↦
          pick_ready-IsHeld parse cell shard select predicate id ref lawful shard_valid gone listed
            fits
    ]
