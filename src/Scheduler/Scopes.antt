-- ===== src/Scheduler/Scopes.antt =====
-- pkg/credential/scheduler/scheduler.go: the scheduler of all scopes. Credentials are shared by
-- pointer, so a state is what the pointers lead to, `cell`, and the scheduler; each operation takes the
-- times that it reads from the clock.
pub mod Free
pub mod Known
pub mod Entries
pub mod Lifted
pub mod Valid
pub mod Steps
pub mod Served
pub mod Marked
pub mod Reached
pub mod Refused
use Prim.Native.Char.{Char}
use caddy_agent_gateway.Base.{
  ℕ, String, Bool, true, false, not, ◌&&◌, ◌||◌, List, [], ◌∷◌, Option, none, some, ltb,
  if◌then◌else◌, ◌==◌, Eq, nat_eq, string_eq, ℤ, length, lookup, insert, delete, map_values,
  trim_space, to_lower, is_some, Result, ok, err,
}
use caddy_agent_gateway.Scheduler.Credential.{ManagedCredential, scope_value}
use caddy_agent_gateway.Scheduler.Shard.{
  ModelScheduler, PickError, credential_not_found, invalid_credential_scope, Selector, fill_first,
  empty_shard, upsert_entry, remove_entry, promote_expired, pick_ready, unavailable_error,
}
use caddy_agent_gateway.Scheduler.Mark.{RequestResult, mark}

pub record ScopeScheduler : Type 0 where
  pub creds : List (String × ℕ)
  pub model_shards : List (String × ModelScheduler)

pub record AuthScheduler : Type 0 where
  pub selector : Selector
  pub scope_schedulers : List (String × ScopeScheduler)
  pub cred_scopes : List (String × String)
  pub disable_quota : Bool

pub record Filter : Type 0 where
  pub filter_type : String
  pub credential_scope : String
  pub model : String
  pub selector : String

-- NewScheduler
abbrev pub new_scheduler : Selector → AuthScheduler
new_scheduler selector = record {
  selector = selector;
  scope_schedulers = [];
  cred_scopes = [];
  disable_quota = false;
}

abbrev pub set_selector : Selector → AuthScheduler → AuthScheduler
set_selector selector s = record s { selector = selector }

abbrev pub set_quota_cooldown_disabled : Bool → AuthScheduler → AuthScheduler
set_quota_cooldown_disabled disable s = record s { disable_quota = disable }

abbrev pub empty_scope : ScopeScheduler
empty_scope = record { creds = []; model_shards = [] }

-- `s.credScopes[id]`, empty where the key is missing.
abbrev pub or_blank : Option String → String
or_blank none = ""
or_blank (some scope) = scope

abbrev pub scope_or_new : Option ScopeScheduler → ScopeScheduler
scope_or_new none = empty_scope
scope_or_new (some p) = p

-- What happens to the scope's scheduler where there is one.
unfoldable pub in_scope : String → (ScopeScheduler → ScopeScheduler) → AuthScheduler → AuthScheduler
unfolding lookup insert
in_scope scope f s = elim (lookup scope s.scope_schedulers) [
  | none ↦ s
  | some p ↦ record s { scope_schedulers = insert scope (f p) s.scope_schedulers }
]

-- One state: the credentials behind the pointers, and the scheduler.
abbrev pub State : Type 0
State = (ℕ → ManagedCredential) × AuthScheduler

abbrev pub write : ℕ → ManagedCredential → (ℕ → ManagedCredential) → ℕ → ManagedCredential
write ref cred cell r = if r == ref then cred else cell r

-- The map keeps the shard that a later step changes.
abbrev pub put_shard : String → ModelScheduler → ScopeScheduler → ScopeScheduler
put_shard model_key shard p = record p { model_shards = insert model_key shard p.model_shards }

-- `parse` is strconv.Atoi.
module _ (parse : String → Option ℤ) where
  -- scopeScheduler.upsertLocked
  unfoldable pub scope_upsert : (ℕ → ManagedCredential) → ℕ → ℕ → ScopeScheduler → ScopeScheduler
  unfolding insert map_values upsert_entry
  scope_upsert cell now ref p = record {
    creds = insert (cell ref).credential.id ref p.creds;
    model_shards = map_values (upsert_entry parse cell now ref) p.model_shards;
  }

  -- scopeScheduler.removeLocked
  unfoldable pub scope_remove : (ℕ → ManagedCredential) → String → ScopeScheduler → ScopeScheduler
  unfolding delete map_values remove_entry
  scope_remove cell id p = if id == "" then p else record {
    creds = delete id p.creds;
    model_shards = map_values (remove_entry parse cell id) p.model_shards;
  }

  -- The loop over the scope's credentials, which Go leaves in no order.
  unfoldable pub fill_shard :
      (ℕ → ManagedCredential) → ℕ → List (String × ℕ) → ModelScheduler → ModelScheduler
  unfolding upsert_entry
  fill_shard cell now [] m = m
  fill_shard cell now ((id, ref) ∷ creds) m =
      upsert_entry parse cell now ref (fill_shard cell now creds m)

  -- The shard that ensureModelLocked answers with.
  unfoldable pub ensured : (ℕ → ManagedCredential) → String → ℕ → ScopeScheduler → ModelScheduler
  unfolding lookup promote_expired fill_shard
  ensured cell model_key now p = elim (lookup model_key p.model_shards) [
    | some shard ↦ promote_expired parse cell now shard
    | none ↦ fill_shard cell now p.creds (empty_shard model_key)
  ]

  -- removeLocked
  unfoldable pub remove : (ℕ → ManagedCredential) → String → AuthScheduler → AuthScheduler
  unfolding lookup delete in_scope scope_remove
  remove cell id s =
      let scope = or_blank (lookup id s.cred_scopes) in
      if id == "" || scope == ""
      then s
      else (let s' = in_scope scope (scope_remove cell id) s in
          record s' { cred_scopes = delete id s'.cred_scopes })

  -- The move out of another scope that upsertLocked begins with.
  unfoldable pub leave : (ℕ → ManagedCredential) → String → String → AuthScheduler → AuthScheduler
  unfolding lookup in_scope scope_remove
  leave cell id scope s =
      let prev = or_blank (lookup id s.cred_scopes) in
      if not (prev == "") && not (prev == scope) then in_scope prev (scope_remove cell id) s else s

  -- The end of upsertLocked, with ensureScopeLocked.
  unfoldable pub enter : (ℕ → ManagedCredential) → ℕ → ℕ → String → AuthScheduler → AuthScheduler
  unfolding lookup insert scope_upsert
  enter cell now ref scope s = record s {
    cred_scopes = insert (cell ref).credential.id scope s.cred_scopes;
    scope_schedulers =
        insert scope (scope_upsert cell now ref (scope_or_new (lookup scope s.scope_schedulers)))
          s.scope_schedulers;
  }

  -- DeregisterCredential
  unfoldable pub deregister : (ℕ → ManagedCredential) → String → AuthScheduler → AuthScheduler
  unfolding remove trim_space
  deregister cell id s = if trim_space id == "" then s else remove cell (trim_space id) s

  -- The end of MarkResult, for the credential behind `ref` in the scope's scheduler `p`.
  unfoldable pub mark_in : RequestResult → ℕ → String → ScopeScheduler → ℕ → State → State
  unfolding mark insert map_values upsert_entry
  mark_in result now scope p ref (cell, s) =
      let (cred, changed) = mark s.disable_quota result now (cell ref) in
      let cell' = write ref cred cell in
      if changed
      then (
        cell',
        record s {
          scope_schedulers =
              insert scope
                (record p {
                  model_shards = map_values (upsert_entry parse cell' now ref) p.model_shards;
                })
                s.scope_schedulers;
        },
      )
      else (cell, s)

  unfoldable pub mark_scope : RequestResult → ℕ → String → Option ScopeScheduler → State → State
  unfolding lookup mark_in
  mark_scope result now scope none state = state
  mark_scope result now scope (some p) state =
      elim (lookup (trim_space result.credential_id) p.creds) [
        | none ↦ state
        | some ref ↦ mark_in result now scope p ref state
      ]

  -- MarkResult
  unfoldable pub mark_result : RequestResult → ℕ → State → State
  unfolding lookup mark_scope trim_space
  mark_result result now state =
      let id = trim_space result.credential_id in
      let scope = or_blank (lookup id state.1.cred_scopes) in
      if id == "" || scope == ""
      then state
      else mark_scope result now scope (lookup scope state.1.scope_schedulers) state

-- `fold` is what strings.ToLower does to a character.
module _ (fold : Char → Char) where
  unfoldable pub match_filter : ManagedCredential → Filter → Bool
  unfolding to_lower trim_space
  match_filter cred filter =
      let credential_type = to_lower fold (trim_space filter.filter_type) in
      not (
        not (credential_type == "")
        && not (to_lower fold cred.credential.credential_type == credential_type))

  -- The predicate of Pick: not tried yet, and of the type that is asked for.
  unfoldable pub acceptable : List (String × Unit {0}) → Filter → ManagedCredential → Bool
  unfolding lookup match_filter
  acceptable tried filter cred =
      not (ltb 0 (length tried) && is_some (lookup cred.credential.id tried))
      && match_filter cred filter

  unfoldable pub choose_selector : String → Selector → Selector
  unfolding fill_first to_lower trim_space
  choose_selector name selector =
      if to_lower fold (trim_space name) == "fill_first" then fill_first else selector

module _ (parse : String → Option ℤ) (fold : Char → Char) where
  -- upsertLocked
  unfoldable pub upsert : (ℕ → ManagedCredential) → ℕ → ℕ → AuthScheduler → AuthScheduler
  unfolding scope_value remove leave enter
  upsert cell now ref s =
      let id = (cell ref).credential.id in
      let scope = scope_value fold (cell ref).credential in
      if scope == ""
      then s
      else (if id == "" || (cell ref).credential.disabled
          then remove parse cell id s
          else enter parse cell now ref scope (leave parse cell id scope s))

  -- The loop of Rebuild.
  unfoldable pub upsert_all : (ℕ → ManagedCredential) → ℕ → List ℕ → AuthScheduler → AuthScheduler
  unfolding upsert
  upsert_all cell now [] s = s
  upsert_all cell now (ref ∷ refs) s = upsert_all cell now refs (upsert cell now ref s)

  unfoldable pub rebuild : (ℕ → ManagedCredential) → ℕ → List ℕ → AuthScheduler → AuthScheduler
  unfolding upsert_all
  rebuild cell now refs s =
      upsert_all cell now refs (record s { scope_schedulers = []; cred_scopes = [] })

  -- pickCredentialWithSelector once the scope's scheduler `p` is found. The clock is read at `t1` to
  -- ensure the shard, at `t2` to pick, and at `t3` for the error.
  unfoldable pub pick_in :
      (ℕ → ManagedCredential)
      → ℕ
      → ℕ
      → ℕ
      → Filter
      → List (String × Unit {0})
      → AuthScheduler
      → ScopeScheduler
      → Result PickError ℕ × AuthScheduler
  unfolding ensured choose_selector acceptable pick_ready insert unavailable_error
  pick_in cell t1 t2 t3 filter tried s p =
      let predicate = λ (ref : ℕ). acceptable fold tried filter (cell ref) in
      let (picked, shard) =
        pick_ready parse cell t2 (choose_selector fold filter.selector s.selector) predicate
          (ensured parse cell filter.model t1 p) in
      (
        answer predicate shard picked,
        record s {
          scope_schedulers =
              insert filter.credential_scope (put_shard filter.model shard p) s.scope_schedulers;
        },
      )
    where
      answer : (ℕ → Bool) → ModelScheduler → Option ℕ → Result PickError ℕ
      answer predicate shard none =
          err (unavailable_error t3 filter.credential_scope filter.model predicate shard)
      answer predicate shard (some ref) = ok ref

  -- Pick
  unfoldable pub pick :
      (ℕ → ManagedCredential)
      → ℕ
      → ℕ
      → ℕ
      → Filter
      → List (String × Unit {0})
      → AuthScheduler
      → Result PickError ℕ × AuthScheduler
  unfolding lookup pick_in
  pick cell t1 t2 t3 filter tried s =
      if filter.credential_scope == ""
      then (err invalid_credential_scope, s)
      else elim (lookup filter.credential_scope s.scope_schedulers) [
        | none ↦ (err credential_not_found, s)
        | some p ↦ pick_in cell t1 t2 t3 filter tried s p
      ]
