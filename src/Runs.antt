-- ===== src/Runs.antt =====
-- pkg/agent/runtime/runs.go: the registry of active runs and of the tombstones of finished ones.
pub mod Sweep
pub mod Bounds
pub mod Laws
pub mod Reachable
pub mod Final
pub mod Begin
use caddy_agent_gateway.Base.{
  ℕ, zero, suc, ◌+◌, ◌-◌, String, ◌≡◌, refl, ◌↔◌, ◌⊎◌, inl, inr, Bool, true, false, not, ◌&&◌, ◌||◌,
  List, [], ◌∷◌, ◌++◌, map, Option, none, some, arith, ltb, leb, nat_beq, if◌then◌else◌, Eq, ◌==◌,
  string_eq, length, keys, values, lookup, insert, delete, sort_by, str_less, Result, ok, err,
  ◌>>=◌, ◌>>◌, reject_if, trim_space, is_some,
}
use caddy_agent_gateway.Identity.{valid_run_id}

-- `other_state` is any other string.
pub data RunState : Type 0 where
  running completed cancelled failed : RunState
  other_state : String → RunState

-- Times and durations are in one unit; `finished_at` is 0 for the zero time.
pub record RunInfo : Type 0 where
  pub agent_id : String
  pub runtime_type : String
  pub run_id : String
  pub session_id : String
  pub state : RunState
  pub started_at : ℕ
  pub finished_at : ℕ
  pub stop_reason : String

pub record CancelResult : Type 0 where
  pub run_id : String
  pub state : RunState
  pub stop_reason : String
  pub finished_at : ℕ

pub data RunError : Type 0 where
  invalid_run_registration run_already_active run_already_registered : RunError
  run_not_found run_runtime_changed : RunError
  -- What a backend's cancel callback returns.
  backend_error : String → RunError
  -- The panic of a call of a nil function.
  nil_callback : RunError

unfoldable pub terminal_state : RunState → RunState
terminal_state completed = completed
terminal_state cancelled = cancelled
terminal_state failed = failed
terminal_state _ = failed

run_before : RunInfo → RunInfo → Bool
run_before a b =
    if nat_beq a.started_at b.started_at
    then str_less a.run_id b.run_id
    else ltb a.started_at b.started_at

unfoldable pub cancel_result : RunInfo → CancelResult
cancel_result info = record {
  run_id = info.run_id;
  state = info.state;
  stop_reason = info.stop_reason;
  finished_at = info.finished_at;
}

-- `Handle` is a cancel callback. A callback that is nil is `none`.
module _ (Handle : Type 0) where
  pub record RunEntry : Type 0 where
    pub info : RunInfo
    pub cancel : Option Handle
    pub cancel_requested : Bool

  abbrev pub Runs : Type 0
  Runs = List (String × List (String × RunEntry))

  pub record RunRegistry : Type 0 where
    pub active : Runs
    pub terminal : Runs
    pub ttl : ℕ
    pub cap : ℕ

  unfoldable pub new_run_registry : ℕ → ℕ → RunRegistry
  new_run_registry ttl cap = record { active = []; terminal = []; ttl = ttl; cap = cap }

  -- `runs[agentID]`, which is an empty map where the key is missing.
  unfoldable pub runs_of : String → Runs → List (String × RunEntry)
  unfolding lookup
  runs_of agent_id runs = elim (lookup agent_id runs) [ none ↦ [] | some m ↦ m ]

  -- `runs[agentID][runID]`
  unfoldable pub find_run : String → String → Runs → Option RunEntry
  unfolding runs_of
  find_run agent_id run_id runs = lookup run_id (runs_of agent_id runs)

  -- `runs[agentID][runID] = e`, with the inner map made where it is missing.
  unfoldable pub put_run : String → String → RunEntry → Runs → Runs
  unfolding runs_of insert
  put_run agent_id run_id e runs = insert agent_id (insert run_id e (runs_of agent_id runs)) runs

  unfoldable pub delete_run : String → String → Runs → Runs
  unfolding runs_of insert delete
  delete_run agent_id run_id runs = insert agent_id (delete run_id (runs_of agent_id runs)) runs

  unfoldable pub expired : ℕ → ℕ → RunEntry → Bool
  expired now ttl e = leb (e.info.finished_at + ttl) now

  -- The loop that deletes the expired entries, over the entries that `range` meets.
  unfoldable pub drop_expired :
      ℕ → ℕ → List (String × RunEntry) → List (String × RunEntry) → List (String × RunEntry)
  unfolding delete expired
  drop_expired now ttl [] entries = entries
  drop_expired now ttl ((id, e) ∷ rest) entries =
      drop_expired now ttl rest (if expired now ttl e then delete id entries else entries)

  abbrev pub finished_before : RunEntry → RunEntry → Bool
  finished_before a b = ltb a.info.finished_at b.info.finished_at

  unfoldable pub first_ids : ℕ → List RunEntry → List String
  first_ids zero es = []
  first_ids (suc n) [] = []
  first_ids (suc n) (e ∷ es) = e.info.run_id ∷ first_ids n es

  unfoldable pub delete_all : List String → List (String × RunEntry) → List (String × RunEntry)
  unfolding delete
  delete_all [] entries = entries
  delete_all (id ∷ ids) entries = delete_all ids (delete id entries)

  -- The part that evicts the oldest beyond the cap. Entries that finished at one instant come in
  -- the order of the map.
  unfoldable pub evict : ℕ → List (String × RunEntry) → List (String × RunEntry)
  unfolding sort_by first_ids delete_all
  evict cap entries =
      if ltb 0 cap && ltb cap (length entries)
      then delete_all (first_ids (length entries - cap) (sort_by finished_before (values entries)))
          entries
      else entries

  store_or_drop : String → List (String × RunEntry) → Runs → Runs
  unfolding insert delete
  store_or_drop agent_id [] runs = delete agent_id runs
  store_or_drop agent_id (e ∷ es) runs = insert agent_id (e ∷ es) runs

  unfoldable pub sweep_agent : ℕ → ℕ → ℕ → String → Runs → Runs
  unfolding store_or_drop evict drop_expired runs_of
  sweep_agent now ttl cap agent_id runs =
      let entries = runs_of agent_id runs in
      store_or_drop agent_id (evict cap (drop_expired now ttl entries entries)) runs

  -- The loop over the agents that `range` meets, each with the entries stored under it.
  unfoldable pub sweep_agents : ℕ → ℕ → ℕ → List String → Runs → Runs
  unfolding sweep_agent
  sweep_agents now ttl cap [] runs = runs
  sweep_agents now ttl cap (agent_id ∷ agents) runs =
      sweep_agents now ttl cap agents (sweep_agent now ttl cap agent_id runs)

  -- `sweepLocked` at the time `now`.
  unfoldable pub sweep : ℕ → RunRegistry → RunRegistry
  unfolding sweep_agents
  sweep now r = record r { terminal = sweep_agents now r.ttl r.cap (keys r.terminal) r.terminal }

  unfoldable pub new_entry : ℕ → String → String → String → String → Handle → RunEntry
  new_entry now agent_id runtime_type run_id session_id cancel = record {
    info = record {
      agent_id = agent_id;
      runtime_type = runtime_type;
      run_id = run_id;
      session_id = trim_space session_id;
      state = running;
      started_at = now;
      finished_at = 0;
      stop_reason = "";
    };
    cancel = some cancel;
    cancel_requested = false;
  }

  unfoldable pub begin_trimmed :
      ℕ
      → RunRegistry
      → String
      → String
      → String
      → String
      → Option Handle
      → Result RunError RunRegistry
  unfolding sweep find_run put_run new_entry
  begin_trimmed now r agent_id runtime_type run_id session_id none = err invalid_run_registration
  begin_trimmed now r agent_id runtime_type run_id session_id (some cancel) =
      let swept = sweep now r in
      do
        reject_if (agent_id == "" || runtime_type == "" || not (valid_run_id run_id))
            invalid_run_registration
        reject_if (is_some (find_run agent_id run_id swept.active)) run_already_active
        reject_if (is_some (find_run agent_id run_id swept.terminal)) run_already_registered
        ok (record swept {
          active =
              put_run agent_id run_id (new_entry now agent_id runtime_type run_id session_id cancel)
                swept.active;
        })

  -- An error leaves the registry swept, or untouched where the arguments are refused.
  unfoldable pub begin :
      ℕ
      → RunRegistry
      → String
      → String
      → String
      → String
      → Option Handle
      → Result RunError RunRegistry
  unfolding begin_trimmed
  begin now r agent_id runtime_type run_id session_id cancel =
      begin_trimmed now r (trim_space agent_id) (trim_space runtime_type) (trim_space run_id)
        session_id cancel

  rebound : RunEntry → String → Handle → RunEntry
  rebound e session_id cancel = record {
    info = record e.info {
      session_id = if not (session_id == "") then session_id else e.info.session_id;
    };
    cancel = some cancel;
    cancel_requested = e.cancel_requested;
  }

  -- The Boolean says that a cancellation is asked for again, which the code starts beside the call.
  rebind_found :
      RunRegistry
      → String
      → String
      → String
      → String
      → Handle
      → Option RunEntry
      → Result RunError (RunRegistry × Bool)
  unfolding put_run rebound
  rebind_found r agent_id runtime_type run_id session_id cancel none = err run_not_found
  rebind_found r agent_id runtime_type run_id session_id cancel (some e) =
      if not (e.info.runtime_type == runtime_type)
      then err run_runtime_changed
      else ok (
        record r { active = put_run agent_id run_id (rebound e session_id cancel) r.active },
        e.cancel_requested,
      )

  unfoldable pub rebind :
      ℕ
      → RunRegistry
      → String
      → String
      → String
      → String
      → Option Handle
      → Result RunError (RunRegistry × Bool)
  unfolding sweep find_run rebind_found
  rebind now r agent_id runtime_type run_id session_id none = err run_not_found
  rebind now r agent_id runtime_type run_id session_id (some cancel) =
      let swept = sweep now r in
      rebind_found swept (trim_space agent_id) (trim_space runtime_type) (trim_space run_id)
        (trim_space session_id) cancel
        (find_run (trim_space agent_id) (trim_space run_id) swept.active)

  set_session_found : RunRegistry → String → String → String → Option RunEntry → RunRegistry
  unfolding put_run
  set_session_found r agent_id run_id session_id none = r
  set_session_found r agent_id run_id session_id (some e) = record r {
    active =
        put_run agent_id run_id (record e { info = record e.info { session_id = session_id } })
          r.active;
  }

  unfoldable pub set_session : RunRegistry → String → String → String → RunRegistry
  unfolding set_session_found find_run
  set_session r agent_id run_id session_id =
      if trim_space session_id == ""
      then r
      else set_session_found r (trim_space agent_id) (trim_space run_id) (trim_space session_id)
          (find_run (trim_space agent_id) (trim_space run_id) r.active)

  finish : ℕ → RunState → String → RunEntry → RunEntry
  unfolding terminal_state
  finish now state stop_reason e = record {
    info = record e.info {
      state = terminal_state state;
      stop_reason = trim_space stop_reason;
      finished_at = now;
    };
    cancel = none;
    cancel_requested = e.cancel_requested;
  }

  complete_found :
      ℕ → RunRegistry → String → String → RunState → String → Option RunEntry → RunRegistry
  unfolding sweep put_run delete_run finish
  complete_found now r agent_id run_id state stop_reason none = r
  complete_found now r agent_id run_id state stop_reason (some e) = sweep now (record r {
    active = delete_run agent_id run_id r.active;
    terminal = put_run agent_id run_id (finish now state stop_reason e) r.terminal;
  })

  unfoldable pub complete : ℕ → RunRegistry → String → String → RunState → String → RunRegistry
  unfolding complete_found find_run
  complete now r agent_id run_id state stop_reason =
      complete_found now r (trim_space agent_id) (trim_space run_id) state stop_reason
        (find_run (trim_space agent_id) (trim_space run_id) r.active)

  unfoldable pub list_runs : RunRegistry → String → List RunInfo
  unfolding runs_of sort_by run_before
  list_runs r agent_id = sort_by run_before (
      map (λ e. e.info)
        (values (runs_of (trim_space agent_id) r.active)
          ++ values (runs_of (trim_space agent_id) r.terminal)))

  -- List, which sweeps first.
  unfoldable pub list : ℕ → RunRegistry → String → List RunInfo × RunRegistry
  unfolding sweep list_runs
  list now r agent_id = (list_runs (sweep now r) agent_id, sweep now r)

  -- The end of Cancel: what the registry holds of the run, or the answer for a run that it has
  -- meanwhile forgotten.
  cancelled_result : String → Option RunEntry → CancelResult
  unfolding cancel_result
  cancelled_result run_id (some e) = cancel_result e.info
  cancelled_result run_id none = record {
    run_id = run_id;
    state = cancelled;
    stop_reason = "cancelled";
    finished_at = 0;
  }

  refused_result : String → Option RunEntry → Result RunError CancelResult
  unfolding cancel_result
  refused_result e (some t) = ok (cancel_result t.info)
  refused_result e none = err (backend_error e)

  -- Behind the callback: it failed, or it accepted at the time `later`. The code releases the lock
  -- between Complete and the reading of the tombstone; here both are one step.
  unfoldable pub cancel_called :
      ℕ → String → String → Option String × RunRegistry → Result RunError CancelResult × RunRegistry
  unfolding complete find_run cancelled_result refused_result
  cancel_called later agent_id run_id (some e, r) =
      (refused_result e (find_run agent_id run_id r.terminal), r)
  cancel_called later agent_id run_id (none, r) =
      let r' = complete later r agent_id run_id cancelled "cancelled" in
      (ok (cancelled_result run_id (find_run agent_id run_id r'.terminal)), r')

  -- `invoke` is the callback, and whatever else happens to the registry while the lock is released:
  -- an error or success, and the registry as it is then.
  module _ (invoke : Handle → String → RunRegistry → Option String × RunRegistry) where
    cancel_active :
        ℕ
        → String
        → String
        → String
        → RunRegistry
        → Option RunEntry
        → Result RunError CancelResult × RunRegistry
    unfolding cancel_called
    cancel_active later agent_id run_id mode r none = (err run_not_found, r)
    cancel_active later agent_id run_id mode r (some e) = elim (e.cancel) [
      | none ↦ (err nil_callback, r)
      | some handle ↦ cancel_called later agent_id run_id (invoke handle mode r)
    ]

    cancel_found :
        ℕ
        → String
        → String
        → String
        → RunRegistry
        → Option RunEntry
        → Result RunError CancelResult × RunRegistry
    unfolding cancel_active cancel_result find_run
    cancel_found later agent_id run_id mode r (some t) = (ok (cancel_result t.info), r)
    cancel_found later agent_id run_id mode r none =
        cancel_active later agent_id run_id mode r (find_run agent_id run_id r.active)

    unfoldable pub cancel :
        ℕ → ℕ → RunRegistry → String → String → String → Result RunError CancelResult × RunRegistry
    unfolding cancel_found sweep find_run
    cancel now later r agent_id run_id mode =
        let swept = sweep now r in
        cancel_found later (trim_space agent_id) (trim_space run_id) mode swept
          (find_run (trim_space agent_id) (trim_space run_id) swept.terminal)
