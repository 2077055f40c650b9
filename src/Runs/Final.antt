-- ===== src/Runs/Final.antt =====
-- pkg/agent/runtime/runs.go: a finished run stays finished, until its id is begun again.
use text.Mathlib.TextEquality.{eq_iff}
use caddy_agent_gateway.Base.{
  ℕ, String, ◌≡◌, refl, sym, ◌∙◌, inl, inr, Bool, false, ◌&&◌, Option, none, some, arith, ◌==◌,
  string_eq, Bool-cases, ok, ok-injective, trim_space,
}
use caddy_agent_gateway.Runs.{
  RunState, RunEntry, Runs, RunRegistry, find_run, put_run, sweep, begin, begin_trimmed,
  rebind_found, rebind, set_session_found, set_session, complete_found, complete, cancel_active,
  cancel_found, cancel,
}
use caddy_agent_gateway.Runs.Sweep.{find_run-put_run, find_run-delete_run}
use caddy_agent_gateway.Runs.Laws.{begin_trimmed-free}
use caddy_agent_gateway.Runs.Reachable.{Step, swept, begun, rebound, session_set, finished}

module _ {Handle : Type 0} where
  abbrev IsGone : String → String → RunRegistry Handle → Type 0
  IsGone a i r = find_run Handle a i r.active ≡ none

  -- A step does not begin the run.
  abbrev pub Spares : String → String → {r s : RunRegistry Handle} → Step r s → Type 0
  Spares a i (begun now r b rt j session cancel after h) =
      (trim_space b == a && trim_space j == i) ≡ false
  Spares a i (swept now r) = Unit {0}
  Spares a i (rebound now r b rt j session cancel after h) = Unit {0}
  Spares a i (session_set r b j session) = Unit {0}
  Spares a i (finished now r b j s stop) = Unit {0}

  -- Steps in any order and at any times, none of which begins the run.
  pub data Sparing (a i : String) : RunRegistry Handle → RunRegistry Handle → Type 0 where
    done : {r : RunRegistry Handle} → Sparing a i r r
    next :
        {r s t : RunRegistry Handle} (step : Step r s)
        → Spares a i step
        → Sparing a i s t
        → Sparing a i r t

  put_elsewhere :
      (a b i j : String) (e : RunEntry Handle) (runs : Runs Handle)
      → (b == a && j == i) ≡ false
      → find_run Handle a i runs ≡ none
      → find_run Handle a i (put_run Handle b j e runs) ≡ none
  put_elsewhere a b i j e runs miss gone = rw (find_run-put_run a b i j e runs, miss) gone

  -- A run that is found is another one than a run that is gone.
  found_elsewhere :
      (a b i j : String) (e : RunEntry Handle) (runs : Runs Handle)
      → find_run Handle b j runs ≡ some e
      → find_run Handle a i runs ≡ none
      → (b == a && j == i) ≡ false
  found_elsewhere a b i j e runs h gone = elim (Bool-cases (b == a)) [
    | inr other ↦ rw other refl
    | inl same ↦ elim (Bool-cases (j == i)) [
      | inr other ↦ rw (same, other) refl
      | inl same' ↦
          let eb : b ≡ a = (eq_iff b a).0 same in
          let ej : j ≡ i = (eq_iff j i).0 same' in
          let h' : find_run Handle a i runs ≡ some e = rw (← eb, ← ej) h in
          let clash : Path (Option (RunEntry Handle)) none (some e) = sym gone ∙ h' in absurd cc
    ]
  ]

  begin-IsGone :
      (a i : String) (now : ℕ) (r : RunRegistry Handle) (b rt j session : String)
      (cancel : Option Handle) (after : RunRegistry Handle)
      → begin Handle now r b rt j session cancel ≡ ok after
      → (trim_space b == a && trim_space j == i) ≡ false
      → IsGone a i r
      → IsGone a i after
  unfolding begin begin_trimmed sweep
  begin-IsGone a i now r b rt j session none after h miss gone = absurd cc
  begin-IsGone a i now r b rt j session (some cancel) after h miss gone =
      let (_, _, _, shape) =
        begin_trimmed-free now r (trim_space b) (trim_space rt) (trim_space j) session cancel after
          h in
      rw shape (put_elsewhere a (trim_space b) i (trim_space j) _ r.active miss gone)

  rebind-IsGone :
      (a i : String) (now : ℕ) (r : RunRegistry Handle) (b rt j session : String)
      (cancel : Option Handle) (after : RunRegistry Handle × Bool)
      → rebind Handle now r b rt j session cancel ≡ ok after
      → IsGone a i r
      → IsGone a i after.0
  unfolding rebind sweep
  rebind-IsGone a i now r b rt j session none after h gone = absurd cc
  rebind-IsGone a i now r b rt j session (some cancel) after h gone =
      on (find_run Handle (trim_space b) (trim_space j) r.active) refl h
    where
      on :
          (found : Option (RunEntry Handle))
          → find_run Handle (trim_space b) (trim_space j) r.active ≡ found
          → rebind_found Handle
              (sweep Handle now r)
              (trim_space b)
              (trim_space rt)
              (trim_space j)
              (trim_space session)
              cancel
              found
            ≡ ok after
          → IsGone a i after.0
      on none f k = absurd cc
      on (some e) f k = elim (Bool-cases (e.info.runtime_type == trim_space rt)) [
        | inr other ↦ let k' = rw (rebind_found, other) at k in absurd cc
        | inl same ↦
            let k' = ok-injective (rw (rebind_found, same) at k) in
            rw (← k') (
              put_elsewhere a (trim_space b) i (trim_space j) _ r.active
                (found_elsewhere a (trim_space b) i (trim_space j) e r.active f gone) gone)
      ]

  set_session-IsGone :
      (a i : String) (r : RunRegistry Handle) (b j session : String)
      → IsGone a i r
      → IsGone a i (set_session Handle r b j session)
  unfolding set_session set_session_found
  set_session-IsGone a i r b j session gone = elim (Bool-cases (trim_space session == "")) [
    | inl blank ↦ rw blank gone
    | inr named ↦ rw named (on (find_run Handle (trim_space b) (trim_space j) r.active) refl)
  ]
    where
      on :
          (found : Option (RunEntry Handle))
          → find_run Handle (trim_space b) (trim_space j) r.active ≡ found
          → IsGone a i
              (set_session_found Handle r (trim_space b) (trim_space j) (trim_space session) found)
      on none f = gone
      on (some e) f =
          put_elsewhere a (trim_space b) i (trim_space j) _ r.active
            (found_elsewhere a (trim_space b) i (trim_space j) e r.active f gone) gone

  complete_found-IsGone :
      (a i : String) (now : ℕ) (r : RunRegistry Handle) (b j : String) (s : RunState)
      (stop : String) (found : Option (RunEntry Handle))
      → IsGone a i r
      → IsGone a i (complete_found Handle now r b j s stop found)
  unfolding complete_found sweep
  complete_found-IsGone a i now r b j s stop none gone = gone
  complete_found-IsGone a i now r b j s stop (some e) gone =
      ground (arith, find_run-delete_run a b i j r.active, gone)

  Step-IsGone :
      (a i : String) {r s : RunRegistry Handle} (step : Step r s)
      → Spares a i step
      → IsGone a i r
      → IsGone a i s
  unfolding sweep complete
  Step-IsGone a i (swept now r) spares gone = gone
  Step-IsGone a i (begun now r b rt j session cancel after h) spares gone =
      begin-IsGone a i now r b rt j session cancel after h spares gone
  Step-IsGone a i (rebound now r b rt j session cancel after h) spares gone =
      rebind-IsGone a i now r b rt j session cancel after h gone
  Step-IsGone a i (session_set r b j session) spares gone =
      set_session-IsGone a i r b j session gone
  Step-IsGone a i (finished now r b j s stop) spares gone =
      complete_found-IsGone a i now r (trim_space b) (trim_space j) s stop
        (find_run Handle (trim_space b) (trim_space j) r.active) gone

  Sparing-IsGone :
      (a i : String) {r s : RunRegistry Handle} → Sparing a i r s → IsGone a i r → IsGone a i s
  Sparing-IsGone a i done gone = gone
  Sparing-IsGone a i (next step spares rest) gone =
      Sparing-IsGone a i rest (Step-IsGone a i step spares gone)

  complete_found-IsGone_self :
      (now : ℕ) (r : RunRegistry Handle) (a i : String) (s : RunState) (stop : String)
      (found : Option (RunEntry Handle))
      → find_run Handle a i r.active ≡ found
      → IsGone a i (complete_found Handle now r a i s stop found)
  unfolding complete_found sweep
  complete_found-IsGone_self now r a i s stop none h = h
  complete_found-IsGone_self now r a i s stop (some e) h =
      ground (arith, find_run-delete_run a a i i r.active, eq_iff a a, eq_iff i i)

  complete-none :
      (now : ℕ) (r : RunRegistry Handle) (a i : String) (s : RunState) (stop : String)
      → IsGone (trim_space a) (trim_space i) r
      → complete Handle now r a i s stop ≡ r
  unfolding complete complete_found
  complete-none now r a i s stop gone = rw gone refl

  cancel-none :
      (invoke : Handle → String → RunRegistry Handle → Option String × RunRegistry Handle)
      (now later : ℕ) (r : RunRegistry Handle) (a i mode : String)
      → IsGone (trim_space a) (trim_space i) r
      → (cancel Handle invoke now later r a i mode).1 ≡ sweep Handle now r
  unfolding cancel cancel_found cancel_active sweep
  cancel-none invoke now later r a i mode gone =
      on (find_run Handle (trim_space a) (trim_space i) (sweep Handle now r).terminal)
    where
      on :
          (found : Option (RunEntry Handle))
          → (cancel_found Handle invoke later
              (trim_space a)
              (trim_space i)
              mode
              (sweep Handle now r)
              found).1
            ≡ sweep Handle now r
      on (some t) = refl
      on none = rw gone refl

  -- A run completes once. Behind a completion and whatever follows in any order and at any times,
  -- but for a Begin of the same run, a completion of it changes nothing, whatever state it reports,
  -- and a cancellation only sweeps: it calls no callback.
  pub complete-final :
      (now : ℕ) (r after : RunRegistry Handle) (a i : String) (s : RunState) (stop : String)
      → Sparing (trim_space a) (trim_space i) (complete Handle now r a i s stop) after
      → ((later : ℕ) (s' : RunState) (stop' : String)
          → complete Handle later after a i s' stop' ≡ after)
        × ((invoke : Handle → String → RunRegistry Handle → Option String × RunRegistry Handle)
              (t t' : ℕ) (mode : String)
            → (cancel Handle invoke t t' after a i mode).1 ≡ sweep Handle t after)
  unfolding complete
  complete-final now r after a i s stop steps =
      let gone = Sparing-IsGone (trim_space a) (trim_space i) steps (
        complete_found-IsGone_self now r (trim_space a) (trim_space i) s stop
          (find_run Handle (trim_space a) (trim_space i) r.active) refl) in
      (
        λ later s' stop'. complete-none later after a i s' stop' gone,
        λ invoke t t' mode. cancel-none invoke t t' after a i mode gone,
      )
