-- ===== src/Runs/Laws.antt =====
-- pkg/agent/runtime/runs.go: what the operations keep of a registry's well-formedness.
use text.Mathlib.TextEquality.{eq_iff}
use caddy_agent_gateway.Base.{
  ℕ, String, ◌≡◌, refl, sym, ◌∙◌, inl, inr, Bool, true, false, not, ◌&&◌, ◌||◌, List, [], ◌∷◌,
  Option, none, some, arith, ◌==◌, string_eq, insert, Bool-cases, ok, ◌>>◌, reject_if, ok-injective,
  trim_space, is_some,
}
use caddy_agent_gateway.Identity.{valid_run_id}
use caddy_agent_gateway.Runs.{
  RunState, running, completed, cancelled, failed, other_state, RunEntry, Runs, RunRegistry,
  runs_of, find_run, put_run, delete_run, sweep, new_entry, begin_trimmed, begin, rebound,
  rebind_found, rebind, set_session_found, set_session, terminal_state, finish, complete_found,
  complete, invalid_run_registration, run_already_active, run_already_registered,
}
use caddy_agent_gateway.Runs.Sweep.{
  find_run-put_run, find_run-delete_run, runs_of-insert, sweep-Restricts,
}
use caddy_agent_gateway.Runs.Bounds.{WellKeyed, sweep-WellKeyed}

-- The states of a tombstone.
pub data IsFinished : RunState → Type 0 where
  is_completed : IsFinished completed
  is_cancelled : IsFinished cancelled
  is_failed : IsFinished failed

terminal_state-IsFinished : (s : RunState) → IsFinished (terminal_state s)
unfolding terminal_state
terminal_state-IsFinished running = is_failed
terminal_state-IsFinished completed = is_completed
terminal_state-IsFinished cancelled = is_cancelled
terminal_state-IsFinished failed = is_failed
terminal_state-IsFinished (other_state s) = is_failed

module _ {Handle : Type 0} where
  -- An entry that may stand among the active runs under `i`.
  pub record IsActive (i : String) (e : RunEntry Handle) : Type 0 where
    pub is_running : e.info.state ≡ running
    pub handle : Handle
    pub bound : e.cancel ≡ some handle
    pub keyed : e.info.run_id ≡ i

  pub record Valid (r : RunRegistry Handle) : Type 0 where
    pub exclusive :
        (a i : String) (e : RunEntry Handle)
        → find_run Handle a i r.active ≡ some e
        → find_run Handle a i r.terminal ≡ none
    pub actives :
        (a i : String) (e : RunEntry Handle) → find_run Handle a i r.active ≡ some e → IsActive i e
    pub finished :
        (a i : String) (t : RunEntry Handle)
        → find_run Handle a i r.terminal ≡ some t
        → IsFinished t.info.state
    pub well_keyed : (a : String) → WellKeyed (runs_of Handle a r.terminal)

  restricted_none :
      (o after : Option (RunEntry Handle))
      → ((e : RunEntry Handle) → after ≡ some e → o ≡ some e)
      → o ≡ none
      → after ≡ none
  restricted_none o none restricts h = refl
  restricted_none o (some e) restricts h =
      let found : o ≡ some e = restricts e refl in
      let clash : Path (Option (RunEntry Handle)) none (some e) = sym h ∙ found in absurd cc

  pub sweep-Valid : (now : ℕ) (r : RunRegistry Handle) → Valid r → Valid (sweep Handle now r)
  unfolding sweep
  sweep-Valid now r v = record {
    exclusive = λ a i e h. restricted_none _ _ (sweep-Restricts now r a i) (v.exclusive a i e h);
    actives = v.actives;
    finished = λ a i t h. v.finished a i t (sweep-Restricts now r a i t h);
    well_keyed = λ a. sweep-WellKeyed now r a (v.well_keyed a);
  }

  -- An update of the active runs.
  abbrev with_active : RunRegistry Handle → String → String → RunEntry Handle → RunRegistry Handle
  with_active r a i e = record r { active = put_run Handle a i e r.active }

  at_put :
      (P : String → String → RunEntry Handle → Type 0) (a i : String) (e : RunEntry Handle)
      (runs : Runs Handle)
      → P a i e
      → ((b j : String) (x : RunEntry Handle) → find_run Handle b j runs ≡ some x → P b j x)
      → (b j : String) (x : RunEntry Handle)
      → find_run Handle b j (put_run Handle a i e runs) ≡ some x
      → P b j x
  at_put P a i e runs new old b j x h = elim (Bool-cases (a == b && i == j)) [
    | inl same ↦
        let ea : a ≡ b = ground (arith, eq_iff a b) in
        let ei : i ≡ j = ground (arith, eq_iff i j) in
        let put : Path (Option (RunEntry Handle)) (some e) (some x) =
          rw (find_run-put_run b a j i e runs, same) at h in
        let ex : e ≡ x = cc in rw (← ea, ← ei, ← ex) new
    | inr other ↦ old b j x (rw (find_run-put_run b a j i e runs, other) at h)
  ]

  with_active-Valid :
      (r : RunRegistry Handle) (a i : String) (e : RunEntry Handle)
      → Valid r
      → IsActive i e
      → find_run Handle a i r.terminal ≡ none
      → Valid (with_active r a i e)
  with_active-Valid r a i e v new free = record {
    exclusive =
        at_put (λ b j x. find_run Handle b j r.terminal ≡ none) a i e r.active free v.exclusive;
    actives = at_put (λ b j x. IsActive j x) a i e r.active new v.actives;
    finished = v.finished;
    well_keyed = v.well_keyed;
  }

  -- `swept` is the registry behind the sweep that `Begin` starts with.
  pub begin_trimmed-free :
      (now : ℕ) (r : RunRegistry Handle) (a rt i session : String) (cancel : Handle)
      (after : RunRegistry Handle)
      → begin_trimmed Handle now r a rt i session (some cancel) ≡ ok after
      → let swept = sweep Handle now r in
        (find_run Handle a i swept.active ≡ none)
        × (find_run Handle a i swept.terminal ≡ none)
        × (valid_run_id i ≡ true)
        × (after ≡ with_active swept a i (new_entry Handle now a rt i session cancel))
  unfolding begin_trimmed
  begin_trimmed-free now r a rt i session cancel after h =
      on (a == "" || rt == "" || not (valid_run_id i)) (valid_run_id i) refl
        (find_run Handle a i (sweep Handle now r).active)
        (find_run Handle a i (sweep Handle now r).terminal) refl refl h
    where
      on :
          (bad good : Bool)
          → (a == "" || rt == "" || not good) ≡ bad
          → (x y : Option (RunEntry Handle)) → find_run Handle a i (sweep Handle now r).active ≡ x
          → find_run Handle a i (sweep Handle now r).terminal ≡ y
          → (reject_if bad invalid_run_registration
              >> (reject_if (is_some x) run_already_active
                  >> (reject_if (is_some y) run_already_registered
                      >> ok (
                          with_active
                            (sweep Handle now r)
                            a
                            i
                            (new_entry Handle now a rt i session cancel)))))
            ≡ ok after
          → (x ≡ none)
            × (y ≡ none)
            × (good ≡ true)
            × (after
                ≡ with_active (sweep Handle now r) a i (new_entry Handle now a rt i session cancel))
      on true good e x y ex ey k = cc
      on false good e (some x) y ex ey k = cc
      on false good e none (some y) ex ey k = cc
      on false good e none none ex ey k = (refl, refl, ground arith, sym (ok-injective k))

  new_entry-IsActive :
      (now : ℕ) (a rt i session : String) (cancel : Handle)
      → IsActive i (new_entry Handle now a rt i session cancel)
  unfolding new_entry
  new_entry-IsActive now a rt i session cancel = record {
    is_running = refl;
    handle = cancel;
    bound = refl;
    keyed = refl;
  }

  pub begin-Valid :
      (now : ℕ) (r : RunRegistry Handle) (a rt i session : String) (cancel : Option Handle)
      (after : RunRegistry Handle)
      → Valid r
      → begin Handle now r a rt i session cancel ≡ ok after
      → Valid after
  unfolding begin begin_trimmed
  begin-Valid now r a rt i session none after v h = cc
  begin-Valid now r a rt i session (some cancel) after v h =
      let (_, free, _, shape) =
        begin_trimmed-free now r (trim_space a) (trim_space rt) (trim_space i) session cancel after
          h in
      rw shape (
        with_active-Valid (sweep Handle now r) (trim_space a) (trim_space i) _ (sweep-Valid now r v)
          (new_entry-IsActive now (trim_space a) (trim_space rt) (trim_space i) session cancel)
          free)

  rebound-IsActive :
      (cancel : Handle) (e : RunEntry Handle) (s i : String)
      → IsActive i e
      → IsActive i (rebound Handle e s cancel)
  unfolding rebound
  rebound-IsActive cancel e s i active = record {
    is_running = active.is_running;
    handle = cancel;
    bound = refl;
    keyed = active.keyed;
  }

  pub rebind-Valid :
      (now : ℕ) (r : RunRegistry Handle) (a rt i session : String) (cancel : Option Handle)
      (after : RunRegistry Handle × Bool)
      → Valid r
      → rebind Handle now r a rt i session cancel ≡ ok after
      → Valid after.0
  unfolding rebind
  rebind-Valid now r a rt i session none after v h = cc
  rebind-Valid now r a rt i session (some cancel) after v h =
      on (find_run Handle (trim_space a) (trim_space i) (sweep Handle now r).active) refl h
    where
      on :
          (found : Option (RunEntry Handle))
          → find_run Handle (trim_space a) (trim_space i) (sweep Handle now r).active ≡ found
          → rebind_found Handle
              (sweep Handle now r)
              (trim_space a)
              (trim_space rt)
              (trim_space i)
              (trim_space session)
              cancel
              found
            ≡ ok after
          → Valid after.0
      on none f k = cc
      on (some e) f k =
          let active = (sweep-Valid now r v).actives (trim_space a) (trim_space i) e f in
          let free = (sweep-Valid now r v).exclusive (trim_space a) (trim_space i) e f in
          elim (Bool-cases (e.info.runtime_type == trim_space rt)) [
            | inr other ↦ let k' = rw (rebind_found, other) at k in cc
            | inl same ↦
                let k' = ok-injective (rw (rebind_found, same) at k) in
                rw (← k') (
                  with_active-Valid (sweep Handle now r) (trim_space a) (trim_space i)
                    (rebound Handle e (trim_space session) cancel) (sweep-Valid now r v)
                    (rebound-IsActive cancel e (trim_space session) (trim_space i) active) free)
          ]

  pub set_session-Valid :
      (r : RunRegistry Handle) (a i session : String)
      → Valid r
      → Valid (set_session Handle r a i session)
  unfolding set_session
  set_session-Valid r a i session v =
      ground (arith, on (find_run Handle (trim_space a) (trim_space i) r.active) refl)
    where
      on :
          (found : Option (RunEntry Handle))
          → find_run Handle (trim_space a) (trim_space i) r.active ≡ found
          → Valid
              (set_session_found Handle r (trim_space a) (trim_space i) (trim_space session) found)
      on none f = v
      on (some e) f =
          let active = v.actives (trim_space a) (trim_space i) e f in
          with_active-Valid r (trim_space a) (trim_space i) _ v
            (record {
              is_running = active.is_running;
              handle = active.handle;
              bound = active.bound;
              keyed = active.keyed;
            })
            (v.exclusive (trim_space a) (trim_space i) e f)

  insert-WellKeyed :
      (i : String) (e : RunEntry Handle) (entries : List (String × RunEntry Handle))
      → e.info.run_id ≡ i
      → WellKeyed entries
      → WellKeyed (insert i e entries)
  unfolding insert
  insert-WellKeyed i e [] same h = (same, tt)
  insert-WellKeyed i e ((k, x) ∷ entries) same h =
      ground (arith, insert-WellKeyed i e entries same h.1)

  -- Complete's update, before it sweeps.
  abbrev moved : RunRegistry Handle → String → String → RunEntry Handle → RunRegistry Handle
  moved r a i t = record r {
    active = delete_run Handle a i r.active;
    terminal = put_run Handle a i t r.terminal;
  }

  moved-Valid :
      (r : RunRegistry Handle) (a i : String) (t : RunEntry Handle)
      → Valid r
      → IsFinished t.info.state
      → t.info.run_id ≡ i
      → Valid (moved r a i t)
  unfolding put_run
  moved-Valid r a i t v fin keyed = record {
    exclusive = λ b j e h. elim (Bool-cases (a == b && i == j)) [
      | inl same ↦
          let clash : Path (Option (RunEntry Handle)) none (some e) =
            rw (find_run-delete_run b a j i r.active, same) at h in
          absurd cc
      | inr other ↦
          rw (find_run-put_run b a j i t r.terminal, other)
            (v.exclusive b j e (rw (find_run-delete_run b a j i r.active, other) at h))
    ];
    actives = λ b j e h. elim (Bool-cases (a == b && i == j)) [
      | inl same ↦
          let clash : Path (Option (RunEntry Handle)) none (some e) =
            rw (find_run-delete_run b a j i r.active, same) at h in
          absurd cc
      | inr other ↦ v.actives b j e (rw (find_run-delete_run b a j i r.active, other) at h)
    ];
    finished = at_put (λ b j x. IsFinished x.info.state) a i t r.terminal fin v.finished;
    well_keyed = λ b.
        rw (runs_of-insert b a (insert i t (runs_of Handle a r.terminal)) r.terminal)
          (elim (Bool-cases (a == b)) [
            | inl same ↦ rw same (insert-WellKeyed i t _ keyed (v.well_keyed a))
            | inr other ↦ rw other (v.well_keyed b)
          ]);
  }

  pub complete-Valid :
      (now : ℕ) (r : RunRegistry Handle) (a i : String) (s : RunState) (stop : String)
      → Valid r
      → Valid (complete Handle now r a i s stop)
  unfolding complete complete_found finish
  complete-Valid now r a i s stop v =
      on (find_run Handle (trim_space a) (trim_space i) r.active) refl
    where
      on :
          (found : Option (RunEntry Handle))
          → find_run Handle (trim_space a) (trim_space i) r.active ≡ found
          → Valid (complete_found Handle now r (trim_space a) (trim_space i) s stop found)
      on none f = v
      on (some e) f = sweep-Valid now _ (
          moved-Valid r (trim_space a) (trim_space i) (finish Handle now s stop e) v
            (terminal_state-IsFinished s) (v.actives (trim_space a) (trim_space i) e f).keyed)
