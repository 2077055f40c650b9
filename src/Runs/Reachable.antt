-- ===== src/Runs/Reachable.antt =====
-- pkg/agent/runtime/runs.go: the registry as a state machine, whatever the order of the calls.
use caddy_agent_gateway.Base.{
  ℕ, String, ◌≡◌, ◌≢◌, refl, Bool, Option, none, some, string_eq, ok, err, trim_space,
}
use caddy_agent_gateway.Runs.{
  RunState, cancelled, nil_callback, RunEntry, RunRegistry, find_run, sweep, begin, rebind,
  set_session, complete, refused_result, cancel_called, cancel_active, cancel_found, cancel,
}
use caddy_agent_gateway.Runs.Laws.{
  Valid, sweep-Valid, begin-Valid, rebind-Valid, set_session-Valid, complete-Valid,
}

module _ {Handle : Type 0} where
  -- One critical section of the code.
  pub data Step : RunRegistry Handle → RunRegistry Handle → Type 0 where
    swept : (now : ℕ) (r : RunRegistry Handle) → Step r (sweep Handle now r)
    begun :
        (now : ℕ) (r : RunRegistry Handle) (a rt i session : String) (cancel : Option Handle)
        (after : RunRegistry Handle)
        → begin Handle now r a rt i session cancel ≡ ok after
        → Step r after
    rebound :
        (now : ℕ) (r : RunRegistry Handle) (a rt i session : String) (cancel : Option Handle)
        (after : RunRegistry Handle × Bool)
        → rebind Handle now r a rt i session cancel ≡ ok after
        → Step r after.0
    session_set :
        (r : RunRegistry Handle) (a i session : String) → Step r (set_session Handle r a i session)
    finished :
        (now : ℕ) (r : RunRegistry Handle) (a i : String) (s : RunState) (stop : String)
        → Step r (complete Handle now r a i s stop)

  pub data Steps : RunRegistry Handle → RunRegistry Handle → Type 0 where
    done : {r : RunRegistry Handle} → Steps r r
    next : {r s t : RunRegistry Handle} → Step r s → Steps s t → Steps r t

  Step-Valid : {r s : RunRegistry Handle} → Step r s → Valid r → Valid s
  Step-Valid (swept now r) v = sweep-Valid now r v
  Step-Valid (begun now r a rt i session cancel after h) v =
      begin-Valid now r a rt i session cancel after v h
  Step-Valid (rebound now r a rt i session cancel after h) v =
      rebind-Valid now r a rt i session cancel after v h
  Step-Valid (session_set r a i session) v = set_session-Valid r a i session v
  Step-Valid (finished now r a i s stop) v = complete-Valid now r a i s stop v

  -- The calls, in any order and at any times, keep a registry well-formed: no run is both active
  -- and retained, each active run is running and has a callback under its own id, and each retained
  -- run has finished and stands under its own id.
  pub Steps-Valid : {r s : RunRegistry Handle} → Steps r s → Valid r → Valid s
  Steps-Valid done v = v
  Steps-Valid (next step rest) v = Steps-Valid rest (Step-Valid step v)

  Steps-snoc : {r s t : RunRegistry Handle} → Steps r s → Step s t → Steps r t
  Steps-snoc done step = next step done
  Steps-snoc (next first rest) step = next first (Steps-snoc rest step)

  -- Whatever happens while the callback runs is itself a run of the registry's operations.
  abbrev pub Invokes :
      (Handle → String → RunRegistry Handle → Option String × RunRegistry Handle) → Type 0
  Invokes invoke =
      (h : Handle) (mode : String) (r : RunRegistry Handle) → Steps r (invoke h mode r).1

  cancel_called-Steps :
      (later : ℕ) (a i : String) (o : Option String) (r s : RunRegistry Handle)
      → Steps r s
      → Steps r (cancel_called Handle later a i (o, s)).1
  unfolding cancel_called
  cancel_called-Steps later a i (some e) r s steps = steps
  cancel_called-Steps later a i none r s steps =
      Steps-snoc steps (finished later s a i cancelled "cancelled")

  refused_result-called :
      (e : String) (o : Option (RunEntry Handle)) → refused_result Handle e o ≢ err nil_callback
  unfolding refused_result
  refused_result-called e (some t) h = cc
  refused_result-called e none h = cc

  cancel_called-called :
      (later : ℕ) (a i : String) (o : Option String) (s : RunRegistry Handle)
      → (cancel_called Handle later a i (o, s)).0 ≢ err nil_callback
  unfolding cancel_called
  cancel_called-called later a i (some e) s h =
      refused_result-called e (find_run Handle a i s.terminal) h
  cancel_called-called later a i none s h = cc

  module _
      (invoke : Handle → String → RunRegistry Handle → Option String × RunRegistry Handle) where
    cancel_active-lem :
        (later : ℕ) (a i mode : String) (r : RunRegistry Handle) (found : Option (RunEntry Handle))
        → Invokes invoke
        → Valid r
        → find_run Handle a i r.active ≡ found
        → Steps r (cancel_active Handle invoke later a i mode r found).1
          × ((cancel_active Handle invoke later a i mode r found).0 ≢ err nil_callback)
    unfolding cancel_active
    cancel_active-lem later a i mode r none steps v h = (done, λ e. cc)
    cancel_active-lem later a i mode r (some e) steps v h =
        let active = v.actives a i e h in
        let reached = invoke active.handle mode r in
        rw active.bound (
          cancel_called-Steps later a i reached.0 r reached.1 (steps active.handle mode r),
          cancel_called-called later a i reached.0 reached.1,
        )

    cancel_found-lem :
        (later : ℕ) (a i mode : String) (r : RunRegistry Handle) (found : Option (RunEntry Handle))
        → Invokes invoke
        → Valid r
        → Steps r (cancel_found Handle invoke later a i mode r found).1
          × ((cancel_found Handle invoke later a i mode r found).0 ≢ err nil_callback)
    unfolding cancel_found
    cancel_found-lem later a i mode r (some t) steps v = (done, λ e. cc)
    cancel_found-lem later a i mode r none steps v =
        cancel_active-lem later a i mode r (find_run Handle a i r.active) steps v refl

    -- Cancel refines the registry's steps: on a well-formed registry, whatever its callback's
    -- steps are, it only takes steps, and it never calls a callback that is nil.
    pub cancel-Steps :
        (now later : ℕ) (r : RunRegistry Handle) (a i mode : String)
        → Invokes invoke
        → Valid r
        → Steps r (cancel Handle invoke now later r a i mode).1
          × ((cancel Handle invoke now later r a i mode).0 ≢ err nil_callback)
    unfolding cancel
    cancel-Steps now later r a i mode steps v =
        let (taken, called) =
          cancel_found-lem later (trim_space a) (trim_space i) mode (sweep Handle now r)
            (find_run Handle (trim_space a) (trim_space i) (sweep Handle now r).terminal) steps
            (sweep-Valid now r v) in
        (next (swept now r) taken, called)
