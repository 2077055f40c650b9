-- ===== src/Scheduler/Scopes/Reached.antt =====
-- pkg/credential/scheduler/scheduler.go: every state that the scheduler's operations lead to, in any
-- order, and what holds of it.
use Prim.Native.Char.{Char}
use caddy_agent_gateway.Base.{
  ℕ, ◌≤◌, String, ◌≡◌, refl, ap, Bool, true, false, List, [], Option, some, if◌then◌else◌, ◌==◌,
  string_eq, ℤ, lookup, lookup-Member, trim_space, Member, ok,
}
use caddy_agent_gateway.Scheduler.Credential.{ManagedCredential}
use caddy_agent_gateway.Scheduler.Shard.{Selector}
use caddy_agent_gateway.Scheduler.Shard.Pick.{Selects}
use caddy_agent_gateway.Scheduler.Mark.{RequestResult}
use caddy_agent_gateway.Scheduler.Scopes.{
  ScopeScheduler, AuthScheduler, Filter, upsert, rebuild, deregister, pick, mark_result,
  new_scheduler, set_selector, set_quota_cooldown_disabled,
}
use caddy_agent_gateway.Scheduler.Scopes.Valid.{ScopeValid-write}
use caddy_agent_gateway.Scheduler.Scopes.Steps.{
  Valid, Valid-later, remove-Valid, upsert-Valid, upsert_all-Valid,
}
use caddy_agent_gateway.Scheduler.Scopes.Served.{IsServed, predicate_of, pick-Valid, pick-IsServed}
use caddy_agent_gateway.Scheduler.Scopes.Marked.{mark_result-Valid}

-- The heap may change where the scheduler holds no pointer: a caller makes a credential there.
abbrev pub Agrees : (ℕ → ManagedCredential) → (ℕ → ManagedCredential) → AuthScheduler → Type 0
Agrees cell cell' s =
    (scope : String) (p : ScopeScheduler) (id : String) (ref : ℕ)
    → lookup scope s.scope_schedulers ≡ some p
    → Member (id, ref) p.creds
    → cell' ref ≡ cell ref

-- The states at each time. The clock never runs back, and the lock makes each operation one step.
pub data Reached (parse : String → Option ℤ) (fold : Char → Char)
    : ℕ → (ℕ → ManagedCredential) → AuthScheduler → Type 0 where
  created :
      (now : ℕ) (cell : ℕ → ManagedCredential) (selector : Selector)
      → Selects selector
      → Reached parse fold now cell (new_scheduler selector)
  later :
      {now : ℕ} {cell : ℕ → ManagedCredential} {s : AuthScheduler} (t : ℕ)
      → now ≤ t
      → Reached parse fold now cell s
      → Reached parse fold t cell s
  made :
      {now : ℕ} {cell : ℕ → ManagedCredential} {s : AuthScheduler} (cell' : ℕ → ManagedCredential)
      → Agrees cell cell' s
      → Reached parse fold now cell s
      → Reached parse fold now cell' s
  upserted :
      {now : ℕ} {cell : ℕ → ManagedCredential} {s : AuthScheduler} (ref : ℕ)
      → Reached parse fold now cell s
      → Reached parse fold now cell (upsert parse fold cell now ref s)
  rebuilt :
      {now : ℕ} {cell : ℕ → ManagedCredential} {s : AuthScheduler} (refs : List ℕ)
      → Reached parse fold now cell s
      → Reached parse fold now cell (rebuild parse fold cell now refs s)
  deregistered :
      {now : ℕ} {cell : ℕ → ManagedCredential} {s : AuthScheduler} (id : String)
      → Reached parse fold now cell s
      → Reached parse fold now cell (deregister parse cell id s)
  selected :
      {now : ℕ} {cell : ℕ → ManagedCredential} {s : AuthScheduler} (selector : Selector)
      → Selects selector
      → Reached parse fold now cell s
      → Reached parse fold now cell (set_selector selector s)
  switched :
      {now : ℕ} {cell : ℕ → ManagedCredential} {s : AuthScheduler} (disable : Bool)
      → Reached parse fold now cell s
      → Reached parse fold now cell (set_quota_cooldown_disabled disable s)
  picked :
      {now : ℕ} {cell : ℕ → ManagedCredential} {s : AuthScheduler} (t2 t3 : ℕ) (filter : Filter)
      (tried : List (String × Unit {0}))
      → now ≤ t2
      → Reached parse fold now cell s
      → Reached parse fold t2 cell (pick parse fold cell now t2 t3 filter tried s).1
  marked :
      {now : ℕ} {cell : ℕ → ManagedCredential} {s : AuthScheduler} (result : RequestResult)
      → Reached parse fold now cell s
      → Reached parse fold now
          (mark_result parse result now (cell, s)).0
          (mark_result parse result now (cell, s)).1

empty-Valid :
    {parse : String → Option ℤ} (cell : ℕ → ManagedCredential) (now : ℕ) (s : AuthScheduler)
    → s.scope_schedulers ≡ []
    → s.cred_scopes ≡ []
    → Selects s.selector
    → Valid parse cell now s
unfolding lookup
empty-Valid cell now s no_scopes none_recorded lawful = record {
  scopes = λ scope p h. let h' = rw no_scopes at h in absurd cc;
  placed = λ scope p id ref h listed. let h' = rw no_scopes at h in absurd cc;
  recorded = λ id scope h. let h' = rw none_recorded at h in absurd cc;
  lawful = lawful;
}

Agrees-Valid :
    {parse : String → Option ℤ} {cell : ℕ → ManagedCredential} {now : ℕ} {s : AuthScheduler}
    (cell' : ℕ → ManagedCredential)
    → Agrees cell cell' s
    → Valid parse cell now s
    → Valid parse cell' now s
Agrees-Valid {cell} {now} {s} cell' same v = record {
  scopes = λ scope p h.
      ScopeValid-write (λ id r listed. same scope p id r h (lookup-Member id r p.creds listed))
        (λ id r m. ap (λ c. c.credential.id) (same scope p id r h m)) (v.scopes scope p h);
  placed = v.placed;
  recorded = v.recorded;
  lawful = v.lawful;
}

rebuild-Valid :
    (parse : String → Option ℤ) (fold : Char → Char) {cell : ℕ → ManagedCredential} {now : ℕ}
    {s : AuthScheduler} (refs : List ℕ)
    → Valid parse cell now s
    → Valid parse cell now (rebuild parse fold cell now refs s)
unfolding rebuild
rebuild-Valid parse fold {cell} {now} {s} refs v =
    upsert_all-Valid parse fold cell refs (
      empty-Valid cell now (record s { scope_schedulers = []; cred_scopes = [] }) refl refl
        v.lawful)

either-Valid :
    {parse : String → Option ℤ} {cell : ℕ → ManagedCredential} {now : ℕ} {s s' : AuthScheduler}
    (b : Bool)
    → Valid parse cell now s
    → Valid parse cell now s'
    → Valid parse cell now (if b then s else s')
either-Valid true v v' = v
either-Valid false v v' = v'

deregister-Valid :
    (parse : String → Option ℤ) {cell : ℕ → ManagedCredential} {now : ℕ} {s : AuthScheduler}
    (id : String)
    → Valid parse cell now s
    → Valid parse cell now (deregister parse cell id s)
unfolding deregister
deregister-Valid parse {cell} {now} {s} id v =
    either-Valid (trim_space id == "") v (remove-Valid parse cell (trim_space id) v)

-- Of every state that the operations lead to: each scope's credentials stand under their own ids, and
-- every shard of the scope lists exactly them. Each of its entries has the priority of its
-- credential, and the state and retry time of the credential's block for the shard's model at some
-- time up to now, seen in the credential as it is now; an entry is ready only where its credential
-- is not blocked now. The buckets of the shard hold exactly the ready entries, by their priority, and
-- the ids that it sets aside to retry are exactly those of the entries that cool down or are blocked.
-- Each id stands at most in the scope that it is recorded for, and the selector is one that finds
-- what there is to find.
pub Reached-Valid :
    (parse : String → Option ℤ) (fold : Char → Char) {now : ℕ} {cell : ℕ → ManagedCredential}
    {s : AuthScheduler}
    → Reached parse fold now cell s
    → Valid parse cell now s
Reached-Valid parse fold (created now cell selector lawful) =
    empty-Valid cell now (new_scheduler selector) refl refl lawful
Reached-Valid parse fold (later t le r) = Valid-later t le (Reached-Valid parse fold r)
Reached-Valid parse fold (made cell' same r) = Agrees-Valid cell' same (Reached-Valid parse fold r)
Reached-Valid parse fold (upserted {cell = cell} ref r) =
    upsert-Valid parse fold cell ref (Reached-Valid parse fold r)
Reached-Valid parse fold (rebuilt refs r) =
    rebuild-Valid parse fold refs (Reached-Valid parse fold r)
Reached-Valid parse fold (deregistered id r) =
    deregister-Valid parse id (Reached-Valid parse fold r)
Reached-Valid parse fold (selected selector lawful r) =
    let v = Reached-Valid parse fold r in
    record { scopes = v.scopes; placed = v.placed; recorded = v.recorded; lawful = lawful }
Reached-Valid parse fold (switched disable r) =
    let v = Reached-Valid parse fold r in
    record { scopes = v.scopes; placed = v.placed; recorded = v.recorded; lawful = v.lawful }
Reached-Valid parse fold (picked t2 t3 filter tried le r) =
    pick-Valid parse fold t2 t3 filter tried le (Reached-Valid parse fold r)
Reached-Valid parse fold (marked result r) =
    mark_result-Valid parse result (Reached-Valid parse fold r)

-- Of every state that the operations lead to: a pick that gives a credential gives one that is
-- registered in the scope asked for, that passes the filter and was not tried, and that is not
-- blocked for the model at the time of the pick.
pub pick-serves :
    (parse : String → Option ℤ) (fold : Char → Char) {now : ℕ} {cell : ℕ → ManagedCredential}
    {s : AuthScheduler} (t2 t3 : ℕ) (filter : Filter) (tried : List (String × Unit {0})) (ref : ℕ)
    → Reached parse fold now cell s
    → now ≤ t2
    → (pick parse fold cell now t2 t3 filter tried s).0 ≡ ok ref
    → (p : ScopeScheduler) × (lookup filter.credential_scope s.scope_schedulers ≡ some p)
      × IsServed cell t2 p.creds filter.model (predicate_of parse fold cell filter tried) ref
pick-serves parse fold t2 t3 filter tried ref r le h =
    pick-IsServed parse fold t2 t3 filter tried ref le (Reached-Valid parse fold r) h
