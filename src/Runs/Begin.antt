-- ===== src/Runs/Begin.antt =====
-- pkg/agent/runtime/runs.go: which runs Begin registers, and what that leaves of the others.
use text.Mathlib.TextEquality.{eq_iff}
use caddy_agent_gateway.Base.{
  ℕ, String, ◌≡◌, refl, ap, true, false, ◌&&◌, none, some, arith, ◌==◌, string_eq, eq_self, ok,
  trim_space,
}
use caddy_agent_gateway.Identity.{valid_run_id}
use caddy_agent_gateway.Runs.{
  running, RunEntry, RunRegistry, find_run, put_run, sweep, new_entry, begin,
}
use caddy_agent_gateway.Runs.Sweep.{find_run-put_run}
use caddy_agent_gateway.Runs.Laws.{begin_trimmed-free}

module _ {Handle : Type 0} where
  -- What a registration found and what it leaves, once the registry is swept.
  pub record Begun (now : ℕ) (r : RunRegistry Handle) (agent_id run_id : String) (cancel : Handle)
      (after : RunRegistry Handle) : Type 0 where
    pub valid_id : valid_run_id run_id ≡ true
    pub not_active : find_run Handle agent_id run_id r.active ≡ none
    pub not_retained : find_run Handle agent_id run_id (sweep Handle now r).terminal ≡ none
    pub entry : RunEntry Handle
    pub registered : find_run Handle agent_id run_id after.active ≡ some entry
    pub is_running : entry.info.state ≡ running
    pub started_now : entry.info.started_at ≡ now
    pub bound : entry.cancel ≡ some cancel
    pub others :
        (b j : String)
        → (b == agent_id && j == run_id) ≡ false
        → find_run Handle b j after.active ≡ find_run Handle b j r.active
    pub retained_kept : after.terminal ≡ (sweep Handle now r).terminal

  -- Whatever Begin registers, its id is valid and was neither active nor still retained; the run is
  -- then active with the given callback, every other active run is as before, and of the finished
  -- runs there is what a sweep leaves.
  pub begin-Begun :
      (now : ℕ) (r : RunRegistry Handle) (agent_id runtime_type run_id session_id : String)
      (cancel : Handle) (after : RunRegistry Handle)
      → begin Handle now r agent_id runtime_type run_id session_id (some cancel) ≡ ok after
      → Begun now r (trim_space agent_id) (trim_space run_id) cancel after
  unfolding begin sweep new_entry
  begin-Begun now r agent_id runtime_type run_id session_id cancel after h =
      let a = trim_space agent_id in
      let i = trim_space run_id in
      let e = new_entry Handle now a (trim_space runtime_type) i session_id cancel in
      let (free, forgotten, valid, shape) =
        begin_trimmed-free now r a (trim_space runtime_type) i session_id cancel after h in
      let act : after.active ≡ put_run Handle a i e r.active = ap (λ q. q.active) shape in
      record {
        valid_id = valid;
        not_active = free;
        not_retained = forgotten;
        entry = e;
        registered = rw (act, find_run-put_run a a i i e r.active, eq_self a, eq_self i) refl;
        is_running = refl;
        started_now = refl;
        bound = refl;
        others = λ b j other. rw act (
            ground (
              arith,
              find_run-put_run b a j i e r.active,
              eq_iff a b,
              eq_iff i j,
              eq_iff b a,
              eq_iff j i,
            ));
        retained_kept = ap (λ q. q.terminal) shape;
      }
