-- ===== src/Runs/Bounds.antt =====
-- pkg/agent/runtime/runs.go: sweeping leaves no expired tombstone, and no more than the cap.
use text.Mathlib.TextEquality.{eq_iff}
use caddy_agent_gateway.Base.{
  lookup-Member, ℕ, zero, suc, ◌+◌, ◌-◌, ◌<◌, ◌≤◌, String, ◌≡◌, refl, sym, ap, ◌∙◌, ◌⊎◌, inl, inr,
  Bool, true, false, not, List, [], ◌∷◌, Option, none, some, arith, ◌==◌, string_eq, length, keys,
  values, sort_by, insert_sorted, lookup, delete, lookup-delete, keep_if, length-keep_if-le,
  contains, All, Bool-cases, Member, here, there, Member-uncons, eq_self,
}
use caddy_agent_gateway.Runs.{
  RunEntry, Runs, RunRegistry, runs_of, expired, drop_expired, finished_before, first_ids,
  delete_all, evict, sweep_agents, sweep,
}
use caddy_agent_gateway.Runs.Sweep.{
  oldest, kept, runs_of-sweep_agent, drop_expired-Restricts, evict-Restricts,
}

module _ {A : Type 0} (less : A → A → Bool) where
  insert_sorted-count :
      (p : A → Bool) (x : A) (xs : List A)
      → length (keep_if p (insert_sorted less x xs)) ≡ length (keep_if p (x ∷ xs))
  unfolding insert_sorted
  insert_sorted-count p x [] = refl
  insert_sorted-count p x (y ∷ ys) = ground (arith, insert_sorted-count p x ys)

  sort_by-count :
      (p : A → Bool) (xs : List A) → length (keep_if p (sort_by less xs)) ≡ length (keep_if p xs)
  unfolding sort_by
  sort_by-count p [] = refl
  sort_by-count p (x ∷ xs) =
      ground (arith, insert_sorted-count p x (sort_by less xs), sort_by-count p xs)

  insert_sorted-length : (x : A) (xs : List A) → length (insert_sorted less x xs) ≡ suc (length xs)
  unfolding insert_sorted
  insert_sorted-length x [] = refl
  insert_sorted-length x (y ∷ ys) = ground (arith, insert_sorted-length x ys)

  sort_by-length : (xs : List A) → length (sort_by less xs) ≡ length xs
  unfolding sort_by
  sort_by-length [] = refl
  sort_by-length (x ∷ xs) =
      ground (arith, insert_sorted-length x (sort_by less xs), sort_by-length xs)

contains-weaken :
    (x : String) (ids xs : List String)
    → All (λ i. contains ids i ≡ true) xs
    → All (λ i. contains (x ∷ ids) i ≡ true) xs
contains-weaken x ids [] h = tt
contains-weaken x ids (y ∷ ys) h = (ground (arith, h.0), contains-weaken x ids ys h.1)

contains-all : (ids : List String) → All (λ i. contains ids i ≡ true) ids
contains-all [] = tt
contains-all (x ∷ xs) = (ground (arith, eq_self x), contains-weaken x xs xs (contains-all xs))

module _ {Handle : Type 0} where
  -- Each entry stands under its own run id.
  abbrev pub WellKeyed : List (String × RunEntry Handle) → Type 0
  WellKeyed [] = Unit
  WellKeyed ((id, e) ∷ entries) = (e.info.run_id ≡ id) × WellKeyed entries

  pub delete-WellKeyed :
      (id : String) (entries : List (String × RunEntry Handle))
      → WellKeyed entries
      → WellKeyed (delete id entries)
  unfolding delete
  delete-WellKeyed id [] h = tt
  delete-WellKeyed id ((k, e) ∷ entries) h = ground (arith, delete-WellKeyed id entries h.1)

  drop_expired-WellKeyed :
      (now ttl : ℕ) (scan entries : List (String × RunEntry Handle))
      → WellKeyed entries
      → WellKeyed (drop_expired Handle now ttl scan entries)
  unfolding drop_expired
  drop_expired-WellKeyed now ttl [] entries h = h
  drop_expired-WellKeyed now ttl ((id, e) ∷ rest) entries h =
      drop_expired-WellKeyed now ttl rest _ (ground (arith, delete-WellKeyed id entries h))

  delete_all-WellKeyed :
      (ids : List String) (entries : List (String × RunEntry Handle))
      → WellKeyed entries
      → WellKeyed (delete_all Handle ids entries)
  unfolding delete_all
  delete_all-WellKeyed [] entries h = h
  delete_all-WellKeyed (id ∷ ids) entries h =
      delete_all-WellKeyed ids (delete id entries) (delete-WellKeyed id entries h)

  pub kept-WellKeyed :
      (now ttl cap : ℕ) (entries : List (String × RunEntry Handle))
      → WellKeyed entries
      → WellKeyed (kept now ttl cap entries)
  unfolding evict
  kept-WellKeyed now ttl cap entries h =
      let d = drop_expired-WellKeyed now ttl entries entries h in
      let young = drop_expired Handle now ttl entries entries in
      ground (arith, delete_all-WellKeyed (oldest cap young) young d)

  abbrev outside : List String → RunEntry Handle → Bool
  outside ids e = not (contains ids e.info.run_id)

  outside-none : (es : List (RunEntry Handle)) → length (keep_if (outside []) es) ≡ length es
  outside-none [] = refl
  outside-none (e ∷ es) = ap suc (outside-none es)

  values-length :
      (entries : List (String × RunEntry Handle)) → length (values entries) ≡ length entries
  values-length [] = refl
  values-length ((k, e) ∷ entries) = ap suc (values-length entries)

  delete-outside :
      (id : String) (ids : List String) (entries : List (String × RunEntry Handle))
      → WellKeyed entries
      → length (keep_if (outside ids) (values (delete id entries)))
        ≡ length (keep_if (outside (id ∷ ids)) (values entries))
  unfolding delete
  delete-outside id ids [] h = refl
  delete-outside id ids ((k, e) ∷ entries) (same, h) = ground (
    arith,
    same,
    eq_iff k id,
    eq_iff id k,
    eq_iff id e.info.run_id,
    delete-outside id ids entries h,
  )

  delete_all-length :
      (ids : List String) (entries : List (String × RunEntry Handle))
      → WellKeyed entries
      → length (delete_all Handle ids entries) ≡ length (keep_if (outside ids) (values entries))
  unfolding delete_all
  delete_all-length [] entries h = sym (outside-none (values entries) ∙ values-length entries)
  delete_all-length (id ∷ ids) entries h =
      delete_all-length ids (delete id entries) (delete-WellKeyed id entries h)
      ∙ delete-outside id ids entries h

  outside-first_ids :
      (n : ℕ) (es : List (RunEntry Handle)) (ids : List String)
      → All (λ i. contains ids i ≡ true) (first_ids Handle n es)
      → length (keep_if (outside ids) es) ≤ length es - n
  unfolding first_ids
  outside-first_ids zero es ids h = omega (arith, length-keep_if-le (outside ids) es)
  outside-first_ids (suc n) [] ids h = omega arith
  outside-first_ids (suc n) (e ∷ es) ids (hit, h) =
      ground (arith, hit, outside-first_ids n es ids h)

  evict-length :
      (cap : ℕ) (entries : List (String × RunEntry Handle))
      → 0 < cap
      → WellKeyed entries
      → length (evict Handle cap entries) ≤ cap
  unfolding evict
  evict-length cap entries positive h =
      let ids = oldest cap entries in
      let es = sort_by (finished_before Handle) (values entries) in
      ground (
        arith,
        delete_all-length ids entries h,
        sort_by-count (finished_before Handle) (outside ids) (values entries),
        outside-first_ids (length entries - cap) es ids (contains-all ids),
        sort_by-length (finished_before Handle) (values entries),
        values-length entries,
      )

  drop_expired-gone :
      (now ttl : ℕ) (scan entries : List (String × RunEntry Handle)) (i : String)
      → lookup i entries ≡ none
      → lookup i (drop_expired Handle now ttl scan entries) ≡ none
  unfolding drop_expired
  drop_expired-gone now ttl [] entries i h = h
  drop_expired-gone now ttl ((id, x) ∷ rest) entries i h =
      drop_expired-gone now ttl rest _ i (ground (arith, lookup-delete id i entries))

  drop_expired-young :
      (now ttl : ℕ) (scan entries : List (String × RunEntry Handle)) (i : String)
      (x e : RunEntry Handle)
      → Member (i, x) scan
      → lookup i (drop_expired Handle now ttl scan entries) ≡ some e
      → expired Handle now ttl x ≡ false
  unfolding drop_expired
  drop_expired-young now ttl [] entries i x e m h = elim m [ ]
  drop_expired-young now ttl ((id, y) ∷ rest) entries i x e m h =
      elim (Bool-cases (expired Handle now ttl x)) [
        | inr young ↦ young
        | inl old ↦ elim (Member-uncons m) [
          | inr m' ↦ drop_expired-young now ttl rest _ i x e m' h
          | inl same ↦
              let ei : i ≡ id = ap (λ p. p.0) same in
              let ex : x ≡ y = ap (λ p. p.1) same in
              let oldy : expired Handle now ttl y ≡ true = rw (← ex) old in
              let gone : lookup i (delete id entries) ≡ none =
                ground (arith, lookup-delete id i entries, eq_iff id i, ei) in
              let none_left = drop_expired-gone now ttl rest (delete id entries) i gone in
              let h' : lookup i (drop_expired Handle now ttl rest (delete id entries)) ≡ some e =
                rw oldy at h in
              let clash : Path (Option (RunEntry Handle)) none (some e) = sym none_left ∙ h' in cc
        ]
      ]

  -- What an agent's tombstones are after a sweep.
  pub record Trimmed (now ttl cap : ℕ) (entries : List (String × RunEntry Handle)) : Type 0 where
    pub bounded : length entries ≤ cap
    pub young :
        (i : String) (e : RunEntry Handle)
        → lookup i entries ≡ some e
        → now < e.info.finished_at + ttl

  expired-young :
      (now ttl : ℕ) (e : RunEntry Handle)
      → expired Handle now ttl e ≡ false
      → now < e.info.finished_at + ttl
  unfolding expired
  expired-young now ttl e h = ground arith

  kept-Trimmed :
      (now ttl cap : ℕ) (entries : List (String × RunEntry Handle))
      → 0 < cap
      → WellKeyed entries
      → Trimmed now ttl cap (kept now ttl cap entries)
  kept-Trimmed now ttl cap entries positive h =
      let left = drop_expired Handle now ttl entries entries in
      record {
        bounded = evict-length cap left positive (drop_expired-WellKeyed now ttl entries entries h);
        young = λ i e found.
            let found' = evict-Restricts cap left i e found in
            let found'' = drop_expired-Restricts now ttl entries entries i e found' in
            expired-young now ttl e (
              drop_expired-young now ttl entries entries i e e (lookup-Member i e entries found'')
                found');
      }

  sweep_agents-WellKeyed :
      (now ttl cap : ℕ) (agents : List String) (runs : Runs Handle) (a : String)
      → WellKeyed (runs_of Handle a runs)
      → WellKeyed (runs_of Handle a (sweep_agents Handle now ttl cap agents runs))
  unfolding sweep_agents
  sweep_agents-WellKeyed now ttl cap [] runs a h = h
  sweep_agents-WellKeyed now ttl cap (b ∷ agents) runs a h =
      sweep_agents-WellKeyed now ttl cap agents _ a (
        rw (runs_of-sweep_agent now ttl cap a b runs) (elim (Bool-cases (b == a)) [
          | inl same ↦ rw same (kept-WellKeyed now ttl cap (runs_of Handle a runs) h)
          | inr other ↦ rw other h
        ]))

  sweep_agents-Trimmed :
      (now ttl cap : ℕ) (agents : List String) (runs : Runs Handle) (a : String)
      → 0 < cap
      → WellKeyed (runs_of Handle a runs)
      → Member a agents ⊎ Trimmed now ttl cap (runs_of Handle a runs)
      → Trimmed now ttl cap (runs_of Handle a (sweep_agents Handle now ttl cap agents runs))
  unfolding sweep_agents
  sweep_agents-Trimmed now ttl cap [] runs a positive h (inl m) = elim m [ ]
  sweep_agents-Trimmed now ttl cap [] runs a positive h (inr t) = t
  sweep_agents-Trimmed now ttl cap (b ∷ agents) runs a positive h m =
      let step = runs_of-sweep_agent now ttl cap a b runs in
      let trimmed = kept-Trimmed now ttl cap (runs_of Handle a runs) positive h in
      elim (Bool-cases (b == a)) [
        | inl same ↦
            sweep_agents-Trimmed now ttl cap agents _ a positive
              (rw (step, same) (kept-WellKeyed now ttl cap (runs_of Handle a runs) h))
              (inr (rw (step, same) trimmed))
        | inr other ↦
            sweep_agents-Trimmed now ttl cap agents _ a positive (rw (step, other) h) (elim m [
              | inr t ↦ inr (rw (step, other) t)
              | inl m' ↦ elim (Member-uncons m') [
                | inr m'' ↦ inl m''
                | inl e ↦ absurd (not_self e other)
              ]
            ])
      ]
    where
      not_self : {a b : String} → a ≡ b → (b == a) ≡ false → ⊥
      not_self {a} {b} e other = ground (arith, eq_iff b a)

  unlisted : (a : String) (runs : Runs Handle) → Member a (keys runs) ⊎ (runs_of Handle a runs ≡ [])
  unfolding runs_of lookup
  unlisted a [] = inr refl
  unlisted a ((b, m) ∷ runs) = elim (Bool-cases (b == a)) [
    | inl same ↦ let e : b ≡ a = (eq_iff b a).0 same in inl (rw e here)
    | inr other ↦ elim (unlisted a runs) [
      | inl m' ↦ inl (there m')
      | inr e ↦ inr (ground (arith, e))
    ]
  ]

-- Of a registry with a cap, in which each tombstone stands under its own run id: a sweep leaves
-- every agent at most that many tombstones, and none whose time to live is over.
pub sweep-Trimmed :
    {Handle : Type 0} (now : ℕ) (r : RunRegistry Handle) (a : String)
    → 0 < r.cap
    → WellKeyed (runs_of Handle a r.terminal)
    → Trimmed now r.ttl r.cap (runs_of Handle a (sweep Handle now r).terminal)
unfolding sweep lookup
sweep-Trimmed {Handle} now r a positive h =
    sweep_agents-Trimmed now r.ttl r.cap (keys r.terminal) r.terminal a positive h
      (elim (unlisted a r.terminal) [ inl m ↦ inl m | inr e ↦ inr (rw e nothing) ])
  where
    nothing : Trimmed {Handle = Handle} now r.ttl r.cap []
    nothing = record { bounded = omega arith; young = λ i e found. cc }

pub sweep-WellKeyed :
    {Handle : Type 0} (now : ℕ) (r : RunRegistry Handle) (a : String)
    → WellKeyed (runs_of Handle a r.terminal)
    → WellKeyed (runs_of Handle a (sweep Handle now r).terminal)
unfolding sweep
sweep-WellKeyed now r a h = sweep_agents-WellKeyed now r.ttl r.cap (keys r.terminal) r.terminal a h
