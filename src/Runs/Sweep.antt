-- ===== src/Runs/Sweep.antt =====
-- pkg/agent/runtime/runs.go: the nested maps read as functions, and sweeping as a restriction.
use text.Mathlib.TextEquality.{eq_iff}
use caddy_agent_gateway.Base.{
  ℕ, ◌-◌, String, ◌≡◌, refl, inl, inr, ◌&&◌, List, [], ◌∷◌, none, some, arith, ltb, if◌then◌else◌,
  ◌==◌, string_eq, length, keys, values, sort_by, lookup, insert, delete, lookup-insert,
  lookup-delete, Bool-cases,
}
use caddy_agent_gateway.Runs.{
  RunEntry, Runs, RunRegistry, runs_of, find_run, put_run, delete_run, finished_before, expired,
  drop_expired, first_ids, delete_all, evict, store_or_drop, sweep_agent, sweep_agents, sweep,
}

module _ {Handle : Type 0} where
  pub runs_of-insert :
      (a b : String) (entries : List (String × RunEntry Handle)) (runs : Runs Handle)
      → runs_of Handle a (insert b entries runs)
        ≡ (if b == a then entries else runs_of Handle a runs)
  unfolding runs_of
  runs_of-insert a b entries runs = ground (arith, lookup-insert b a entries runs)

  pub find_run-put_run :
      (a b i j : String) (e : RunEntry Handle) (runs : Runs Handle)
      → find_run Handle a i (put_run Handle b j e runs)
        ≡ (if b == a && j == i then some e else find_run Handle a i runs)
  unfolding find_run put_run
  find_run-put_run a b i j e runs = ground (
    arith,
    runs_of-insert a b (insert j e (runs_of Handle b runs)) runs,
    eq_iff b a,
    lookup-insert j i e (runs_of Handle b runs),
  )

  pub find_run-delete_run :
      (a b i j : String) (runs : Runs Handle)
      → find_run Handle a i (delete_run Handle b j runs)
        ≡ (if b == a && j == i then none else find_run Handle a i runs)
  unfolding find_run delete_run
  find_run-delete_run a b i j runs = ground (
    arith,
    runs_of-insert a b (delete j (runs_of Handle b runs)) runs,
    eq_iff b a,
    lookup-delete j i (runs_of Handle b runs),
  )

  -- `found` holds nothing that `before` does not.
  abbrev pub Restricts : List (String × RunEntry Handle) → List (String × RunEntry Handle) → Type 0
  Restricts after before =
      (i : String) (e : RunEntry Handle) → lookup i after ≡ some e → lookup i before ≡ some e

  delete-Restricts :
      (id : String) (entries : List (String × RunEntry Handle))
      → Restricts (delete id entries) entries
  delete-Restricts id entries i e h = ground (arith, lookup-delete id i entries)

  pub drop_expired-Restricts :
      (now ttl : ℕ) (scan entries : List (String × RunEntry Handle))
      → Restricts (drop_expired Handle now ttl scan entries) entries
  unfolding drop_expired
  drop_expired-Restricts now ttl [] entries i e h = h
  drop_expired-Restricts now ttl ((id, x) ∷ rest) entries i e h =
      elim (Bool-cases (expired Handle now ttl x)) [
        | inl old ↦
            delete-Restricts id entries i e
              (drop_expired-Restricts now ttl rest (delete id entries) i e (rw old at h))
        | inr young ↦ drop_expired-Restricts now ttl rest entries i e (rw young at h)
      ]

  delete_all-Restricts :
      (ids : List String) (entries : List (String × RunEntry Handle))
      → Restricts (delete_all Handle ids entries) entries
  unfolding delete_all
  delete_all-Restricts [] entries i e h = h
  delete_all-Restricts (id ∷ ids) entries i e h =
      delete-Restricts id entries i e (delete_all-Restricts ids (delete id entries) i e h)

  -- The ids that are evicted.
  abbrev pub oldest : ℕ → List (String × RunEntry Handle) → List String
  oldest cap entries =
      first_ids Handle (length entries - cap) (sort_by (finished_before Handle) (values entries))

  pub evict-Restricts :
      (cap : ℕ) (entries : List (String × RunEntry Handle))
      → Restricts (evict Handle cap entries) entries
  unfolding evict
  evict-Restricts cap entries i e h = elim (Bool-cases (ltb 0 cap && ltb cap (length entries))) [
    | inl over ↦ delete_all-Restricts (oldest cap entries) entries i e (rw over at h)
    | inr under ↦ rw under at h
  ]

  runs_of-store_or_drop :
      (a b : String) (entries : List (String × RunEntry Handle)) (runs : Runs Handle)
      → runs_of Handle a (store_or_drop Handle b entries runs)
        ≡ (if b == a then entries else runs_of Handle a runs)
  unfolding runs_of store_or_drop
  runs_of-store_or_drop a b [] runs = ground (arith, lookup-delete b a runs)
  runs_of-store_or_drop a b (e ∷ es) runs = ground (arith, lookup-insert b a (e ∷ es) runs)

  -- What sweeping leaves under one agent.
  abbrev pub kept : ℕ → ℕ → ℕ → List (String × RunEntry Handle) → List (String × RunEntry Handle)
  kept now ttl cap entries = evict Handle cap (drop_expired Handle now ttl entries entries)

  pub runs_of-sweep_agent :
      (now ttl cap : ℕ) (a b : String) (runs : Runs Handle)
      → runs_of Handle a (sweep_agent Handle now ttl cap b runs)
        ≡ (if b == a then kept now ttl cap (runs_of Handle a runs) else runs_of Handle a runs)
  unfolding sweep_agent
  runs_of-sweep_agent now ttl cap a b runs =
      rw (runs_of-store_or_drop a b (kept now ttl cap (runs_of Handle b runs)) runs)
        (elim (Bool-cases (b == a)) [
          | inl same ↦ rw (same, (eq_iff b a).0 same) refl
          | inr other ↦ rw other refl
        ])

  sweep_agents-Restricts :
      (now ttl cap : ℕ) (agents : List String) (runs : Runs Handle) (a : String)
      → Restricts
          (runs_of Handle a (sweep_agents Handle now ttl cap agents runs))
          (runs_of Handle a runs)
  unfolding sweep_agents
  sweep_agents-Restricts now ttl cap [] runs a i e h = h
  sweep_agents-Restricts now ttl cap (b ∷ agents) runs a i e h =
      let h' : lookup i (runs_of Handle a (sweep_agent Handle now ttl cap b runs)) ≡ some e =
        sweep_agents-Restricts now ttl cap agents (sweep_agent Handle now ttl cap b runs) a i e h in
      elim (Bool-cases (b == a)) [
        | inl same ↦
            drop_expired-Restricts now ttl (runs_of Handle a runs) (runs_of Handle a runs) i e (
              evict-Restricts cap _ i e (rw (runs_of-sweep_agent now ttl cap a b runs, same) at h'))
        | inr other ↦ rw (runs_of-sweep_agent now ttl cap a b runs, other) at h'
      ]

  -- Sweeping forgets finished runs, and changes none.
  pub sweep-Restricts :
      (now : ℕ) (r : RunRegistry Handle) (a i : String) (e : RunEntry Handle)
      → find_run Handle a i (sweep Handle now r).terminal ≡ some e
      → find_run Handle a i r.terminal ≡ some e
  unfolding sweep find_run
  sweep-Restricts now r a i e h =
      sweep_agents-Restricts now r.ttl r.cap (keys r.terminal) r.terminal a i e h
