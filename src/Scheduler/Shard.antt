-- ===== src/Scheduler/Shard.antt =====
-- pkg/credential/scheduler/scheduler.go: the shard of one model in one scope. Credentials are shared
-- by pointer: a pointer is a number, and `cell` what it points to.
pub mod Index
pub mod Waiting
pub mod Laws
pub mod Pick
use caddy_agent_gateway.Base.{
  ℕ, zero, suc, ◌+◌, ◌-◌, String, Bool, true, false, not, ◌&&◌, ◌||◌, List, [], ◌∷◌, ◌++◌, Option,
  none, some, ltb, leb, if◌then◌else◌, ◌==◌, Eq, nat_eq, string_eq, ℤ, pos, ltb_ℤ, int_eq, length,
  keys, values, lookup, insert, delete, sort_by, str_less, any, map, keep_if,
}
use caddy_agent_gateway.Scheduler.Credential.{ManagedCredential, priority}
use caddy_agent_gateway.Scheduler.Selector.{
  ReadyBucket, Block, BlockReason, not_blocked, cooldown, is_disabled, other,
  is_credential_blocked_for_model, pick_round_robin, pick_fill_first,
}

pub data ScheduledState : Type 0 where
  ready in_cooldown blocked disabled : ScheduledState

unfoldable pub state_eq : ScheduledState → ScheduledState → Bool
state_eq ready ready = true
state_eq in_cooldown in_cooldown = true
state_eq blocked blocked = true
state_eq disabled disabled = true
state_eq _ _ = false

pub record ScheduledCred : Type 0 where
  pub cred : ℕ
  pub priority : ℤ
  pub state : ScheduledState
  pub next_retry_at : ℕ

-- `blocked_ids` names the entries that the slice `blocked` points to.
pub record ModelScheduler : Type 0 where
  pub model_key : String
  pub entries : List (String × ScheduledCred)
  pub priority_order : List ℤ
  pub ready_by_priority : List (ℤ × ReadyBucket ℕ)
  pub blocked_ids : List String

-- Why no credential was picked.
pub data PickError : Type 0 where
  credential_not_found credential_unavailable invalid_credential_scope : PickError
  -- All of them cool down, for this long.
  all_cooling_down : String → String → ℕ → PickError

abbrev pub is_ready : ScheduledCred → Bool
is_ready e = state_eq e.state ready

abbrev pub is_waiting : ScheduledCred → Bool
is_waiting e = state_eq e.state in_cooldown || state_eq e.state blocked

-- `byPriority[p]`, empty where the key is missing.
abbrev pub or_empty : Option (List ℕ) → List ℕ
or_empty none = []
or_empty (some es) = es

-- The loop that sorts the ready entries into slices by their priority.
unfoldable pub by_priority : List (String × ScheduledCred) → List (ℤ × List ℕ) → List (ℤ × List ℕ)
unfolding lookup insert
by_priority [] groups = groups
by_priority ((id, e) ∷ es) groups = by_priority es (
    if is_ready e
    then insert e.priority (or_empty (lookup e.priority groups) ++ e.cred ∷ []) groups
    else groups)

unfoldable pub waiting : List (String × ScheduledCred) → List (String × ScheduledCred)
waiting [] = []
waiting ((id, e) ∷ es) = let rest = waiting es in if is_waiting e then (id, e) ∷ rest else rest

-- Earliest retry first, and those without one last.
unfoldable pub waits_before : String × ScheduledCred → String × ScheduledCred → Bool
waits_before (i, l) (j, r) =
    if l.next_retry_at == r.next_retry_at
    then str_less i j
    else (if l.next_retry_at == 0
        then false
        else (if r.next_retry_at == 0 then true else ltb l.next_retry_at r.next_retry_at))

later_priority : ℤ → ℤ → Bool
later_priority p q = ltb_ℤ q p

-- `parse` is strconv.Atoi; `cell` the credentials behind the pointers.
module _ (parse : String → Option ℤ) (cell : ℕ → ManagedCredential) where
  id_before : ℕ → ℕ → Bool
  id_before a b = str_less (cell a).credential.id (cell b).credential.id

  buckets : List (ℤ × List ℕ) → List (ℤ × ReadyBucket ℕ)
  unfolding sort_by id_before
  buckets [] = []
  buckets ((p, refs) ∷ groups) =
      (p, record { creds = sort_by id_before refs; cursor = 0 }) ∷ buckets groups

  unfoldable pub rebuild_indexes : ModelScheduler → ModelScheduler
  unfolding by_priority buckets waiting waits_before later_priority sort_by
  rebuild_indexes m =
      let groups = by_priority m.entries [] in
      record m {
        ready_by_priority = buckets groups;
        priority_order = sort_by later_priority (keys groups);
        blocked_ids = keys (sort_by waits_before (waiting m.entries));
      }

  -- The `switch` on the outcome of isCredentialBlockedForModel.
  unfoldable pub state_of : Block → ScheduledState × ℕ
  state_of b = if not b.blocked then (ready, 0) else by_reason b.reason b.next_retry
    where
      by_reason : BlockReason → ℕ → ScheduledState × ℕ
      by_reason cooldown next = (in_cooldown, next)
      by_reason is_disabled next = (disabled, 0)
      by_reason _ next = (blocked, next)

  unfoldable pub scheduled : String → ℕ → ℕ → ScheduledCred
  unfolding state_of is_credential_blocked_for_model priority
  scheduled model_key now ref =
      let (state, next) = state_of (is_credential_blocked_for_model (cell ref) model_key now) in
      record {
        cred = ref;
        priority = priority parse (cell ref).credential;
        state = state;
        next_retry_at = next;
      }

  pub unchanged : Option ScheduledCred → ScheduledCred → Bool
  unfolding state_eq
  unchanged none e = false
  unchanged (some prev) e =
      prev.cred == e.cred
      && state_eq prev.state e.state
      && prev.next_retry_at == e.next_retry_at
      && prev.priority == e.priority

  unfoldable pub upsert_entry : ℕ → ℕ → ModelScheduler → ModelScheduler
  unfolding scheduled unchanged insert lookup rebuild_indexes
  upsert_entry now ref m =
      let id = (cell ref).credential.id in
      let e = scheduled m.model_key now ref in
      let m' = record m { entries = insert id e m.entries } in
      if unchanged (lookup id m.entries) e then m' else rebuild_indexes m'

  unfoldable pub remove_found : String → ModelScheduler → Option ScheduledCred → ModelScheduler
  unfolding delete rebuild_indexes
  remove_found id m none = m
  remove_found id m (some e) = rebuild_indexes (record m { entries = delete id m.entries })

  unfoldable pub remove_entry : String → ModelScheduler → ModelScheduler
  unfolding remove_found lookup
  remove_entry id m = if id == "" then m else remove_found id m (lookup id m.entries)

  -- An entry whose time to retry has come.
  abbrev pub is_due : ℕ → ScheduledCred → Bool
  is_due now e = not (e.next_retry_at == 0) && not (ltb now e.next_retry_at)

  unfoldable pub promote : String → ℕ → ScheduledCred → ScheduledCred
  unfolding state_of is_credential_blocked_for_model
  promote model_key now e =
      let (state, next) = state_of (is_credential_blocked_for_model (cell e.cred) model_key now) in
      record e { state = state; next_retry_at = next }

  unfoldable pub promote_found :
      String
      → ℕ
      → String
      → Option ScheduledCred
      → List (String × ScheduledCred) × Bool
      → List (String × ScheduledCred) × Bool
  unfolding promote insert
  promote_found model_key now id none (entries, changed) = (entries, changed)
  promote_found model_key now id (some e) (entries, changed) =
      if is_due now e
      then (insert id (promote model_key now e) entries, true)
      else (entries, changed)

  -- The loop over the blocked entries.
  unfoldable pub promote_loop :
      String
      → ℕ
      → List String
      → List (String × ScheduledCred) × Bool
      → List (String × ScheduledCred) × Bool
  unfolding promote_found lookup
  promote_loop model_key now [] found = found
  promote_loop model_key now (id ∷ ids) found =
      promote_loop model_key now ids (promote_found model_key now id (lookup id found.0) found)

  unfoldable pub promote_expired : ℕ → ModelScheduler → ModelScheduler
  unfolding promote_loop rebuild_indexes
  promote_expired now m =
      let (entries, changed) = promote_loop m.model_key now m.blocked_ids (m.entries, false) in
      if changed then rebuild_indexes (record m { entries = entries }) else m

-- hasMatch
abbrev pub has_match : (ℕ → Bool) → Option (ReadyBucket ℕ) → Bool
has_match predicate none = false
has_match predicate (some bucket) = any predicate bucket.creds

better : Option ℤ → ℤ → Bool
better none p = true
better (some best) p = ltb_ℤ best p

-- The loop over the priorities, with the best one found.
unfoldable pub best_loop : (ℕ → Bool) → List (ℤ × ReadyBucket ℕ) → Option ℤ → List ℤ → Option ℤ
unfolding lookup better
best_loop predicate ready_buckets best [] = best
best_loop predicate ready_buckets best (p ∷ ps) =
    best_loop predicate ready_buckets
      (if has_match predicate (lookup p ready_buckets) && better best p then some p else best) ps

-- A CredentialSelector: it moves the bucket's cursor.
abbrev pub Selector : Type 0
Selector = (ℕ → Bool) → ReadyBucket ℕ → Option ℕ × ReadyBucket ℕ

-- RoundRobinSelector and FillFirstSelector, over pointers.
unfoldable pub round_robin : Selector
unfolding pick_round_robin
round_robin predicate bucket = pick_round_robin predicate bucket

unfoldable pub fill_first : Selector
unfolding pick_fill_first
fill_first predicate bucket = (pick_fill_first predicate bucket.creds, bucket)

abbrev pub empty_shard : String → ModelScheduler
empty_shard model_key = record {
  model_key = model_key;
  entries = [];
  priority_order = [];
  ready_by_priority = [];
  blocked_ids = [];
}

pick_from :
    Selector → (ℕ → Bool) → ModelScheduler → ℤ → Option (ReadyBucket ℕ) → Option ℕ × ModelScheduler
unfolding insert
pick_from select predicate m p none = (none, m)
pick_from select predicate m p (some bucket) =
    let (picked, bucket') = select predicate bucket in
    (picked, record m { ready_by_priority = insert p bucket' m.ready_by_priority })

pick_best : Selector → (ℕ → Bool) → ModelScheduler → Option ℤ → Option ℕ × ModelScheduler
unfolding pick_from lookup
pick_best select predicate m none = (none, m)
pick_best select predicate m (some p) =
    pick_from select predicate m p (lookup p m.ready_by_priority)

-- pickReadyLocked behind its promotion.
unfoldable pub pick_promoted : Selector → (ℕ → Bool) → ModelScheduler → Option ℕ × ModelScheduler
unfolding pick_best best_loop
pick_promoted select predicate m =
    pick_best select predicate m (best_loop predicate m.ready_by_priority none m.priority_order)

unfoldable pub pick_ready :
    (String → Option ℤ)
    → (ℕ → ManagedCredential)
    → ℕ
    → Selector
    → (ℕ → Bool)
    → ModelScheduler
    → Option ℕ × ModelScheduler
unfolding promote_expired pick_promoted
pick_ready parse cell now select predicate m =
    pick_promoted select predicate (promote_expired parse cell now m)

-- The counts of the loop: all that match, those that cool down, and the earliest retry.
pub record Tally : Type 0 where
  pub total : ℕ
  pub cooldown_count : ℕ
  pub earliest : ℕ

count_entry : ScheduledCred → Tally → Tally
unfolding state_eq
count_entry e t =
    if state_eq e.state in_cooldown
    then record {
      total = t.total + 1;
      cooldown_count = t.cooldown_count + 1;
      earliest =
          if not (e.next_retry_at == 0) && (t.earliest == 0 || ltb e.next_retry_at t.earliest)
          then e.next_retry_at
          else t.earliest;
    }
    else record t { total = t.total + 1 }

unfoldable pub tally : (ℕ → Bool) → List (String × ScheduledCred) → Tally → Tally
unfolding count_entry
tally predicate [] t = t
tally predicate ((id, e) ∷ es) t =
    tally predicate es (if predicate e.cred then count_entry e t else t)

-- The duration of a cooldown is the difference, which stops at 0.
unfoldable pub unavailable_error : ℕ → String → String → (ℕ → Bool) → ModelScheduler → PickError
unfolding tally
unavailable_error now scope_key model predicate m =
    let t = tally predicate m.entries (record { total = 0; cooldown_count = 0; earliest = 0 }) in
    if t.total == 0
    then credential_not_found
    else (if t.cooldown_count == t.total && not (t.earliest == 0)
        then all_cooling_down model scope_key (t.earliest - now)
        else credential_unavailable)
