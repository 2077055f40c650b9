-- ===== src/Scheduler/Shard/Pick.antt =====
-- pkg/credential/scheduler/scheduler.go: what picking from a shard gives, for any selector that finds
-- a matching credential in a bucket that holds one, and the shards that the operations reach.
use caddy_agent_gateway.Base.{
  ℕ, String, ◌≡◌, refl, sym, ◌∙◌, inl, inr, Bool, true, false, List, [], ◌∷◌, Option, none, some,
  arith, ◌==◌, ℤ, ◌≤ℤ◌, int_eq, beq_ℤ_iff, lookup, insert, lookup-insert, Bool-cases, Option-cases,
  Member, here, there, Member-uncons,
}
use caddy_agent_gateway.Scheduler.Credential.{ManagedCredential}
use caddy_agent_gateway.Scheduler.Selector.{ReadyBucket, pick_round_robin, pick_fill_first}
use caddy_agent_gateway.Scheduler.Selector.Laws.{pick_round_robin-Usable}
use caddy_agent_gateway.Scheduler.Shard.{
  ModelScheduler, empty_shard, Selector, round_robin, fill_first, has_match, best_loop, pick_from,
  pick_best, pick_promoted, pick_ready, upsert_entry, remove_entry, promote_expired,
}
use caddy_agent_gateway.Scheduler.Shard.Index.{IsReady, Indexed}
use caddy_agent_gateway.Scheduler.Shard.Laws.{
  any-Member, best_loop-Best, upsert_entry-Indexed, remove_entry-Indexed, promote_expired-Indexed,
}

-- What a shard relies on of its selector.
pub record Selects (select : Selector) : Type 0 where
  pub finds :
      (predicate : ℕ → Bool) (bucket : ReadyBucket ℕ) (c : ℕ)
      → Member c bucket.creds
      → predicate c ≡ true
      → (d : ℕ) × ((select predicate bucket).0 ≡ some d)
        × Member d bucket.creds
        × (predicate d ≡ true)
  pub keeps :
      (predicate : ℕ → Bool) (bucket : ReadyBucket ℕ)
      → (select predicate bucket).1.creds ≡ bucket.creds

round_robin-keeps :
    (predicate : ℕ → Bool) (bucket : ReadyBucket ℕ)
    → (round_robin predicate bucket).1.creds ≡ bucket.creds
unfolding round_robin pick_round_robin
round_robin-keeps predicate bucket = ground arith

pick_fill_first-finds :
    (predicate : ℕ → Bool) (creds : List ℕ) (c : ℕ)
    → Member c creds
    → predicate c ≡ true
    → (d : ℕ) × (pick_fill_first predicate creds ≡ some d) × Member d creds × (predicate d ≡ true)
unfolding pick_fill_first
pick_fill_first-finds predicate [] c m fits = elim m [ ]
pick_fill_first-finds predicate (x ∷ xs) c m fits = elim (Bool-cases (predicate x)) [
  | inl good ↦ (x, rw good refl, here, good)
  | inr bad ↦ elim (Member-uncons m) [
    | inl e ↦
        let fits' : predicate x ≡ true = rw (← e) fits in
        let clash : true ≡ false = sym fits' ∙ bad in absurd cc
    | inr m' ↦
        let (d, h, md, gd) = pick_fill_first-finds predicate xs c m' fits in
        (d, rw bad h, there md, gd)
  ]
]

pub round_robin-Selects : Selects round_robin
unfolding round_robin
round_robin-Selects = record {
  finds = λ predicate bucket c m fits. pick_round_robin-Usable predicate bucket c m fits;
  keeps = round_robin-keeps;
}

pub fill_first-Selects : Selects fill_first
unfolding fill_first
fill_first-Selects = record {
  finds = λ predicate bucket c m fits. pick_fill_first-finds predicate bucket.creds c m fits;
  keeps = λ predicate bucket. refl;
}

-- A matching ready credential of the highest priority that has one, or none where none is ready.
pub data PickOutcome (predicate : ℕ → Bool) (m : ModelScheduler) (picked : Option ℕ) : Type 0 where
  found :
      (p : ℤ) (ref : ℕ)
      → picked ≡ some ref
      → predicate ref ≡ true
      → IsReady m.entries p ref
      → ((q : ℤ) (other : ℕ) → IsReady m.entries q other → predicate other ≡ true → q ≤ℤ p)
      → PickOutcome predicate m picked
  nothing :
      picked ≡ none
      → ((q : ℤ) (other : ℕ) → IsReady m.entries q other → predicate other ≡ false)
      → PickOutcome predicate m picked

has_match-Member :
    (predicate : ℕ → Bool) (o : Option (ReadyBucket ℕ))
    → has_match predicate o ≡ true
    → (bucket : ReadyBucket ℕ) × (c : ℕ) × (o ≡ some bucket)
      × Member c bucket.creds
      × (predicate c ≡ true)
has_match-Member predicate none h = absurd cc
has_match-Member predicate (some bucket) h =
    let (c, m, fits) = (any-Member predicate bucket.creds).0 h in (bucket, c, refl, m, fits)

IsReady-has_match :
    (predicate : ℕ → Bool) (m : ModelScheduler) (q : ℤ) (ref : ℕ)
    → Indexed m
    → IsReady m.entries q ref
    → predicate ref ≡ true
    → (has_match predicate (lookup q m.ready_by_priority) ≡ true) × Member q m.priority_order
IsReady-has_match predicate m q ref ix r fits =
    let (bucket, at, mem, order) = ix.complete q ref r in
    (rw at ((any-Member predicate bucket.creds).1 (ref, mem, fits)), order)

module _ (select : Selector) (lawful : Selects select) (predicate : ℕ → Bool) where
  pub pick_promoted-Outcome :
      (m : ModelScheduler)
      → Indexed m
      → PickOutcome predicate m (pick_promoted select predicate m).0
  unfolding pick_promoted pick_best pick_from
  pick_promoted-Outcome m ix =
      let best = best_loop predicate m.ready_by_priority none m.priority_order in
      let laws = best_loop-Best predicate m.ready_by_priority none m.priority_order in
      elim (Option-cases best) [
        | inl gone ↦ rw gone (
            nothing refl (λ q other r. elim (Bool-cases (predicate other)) [
              | inr h ↦ h
              | inl fits ↦
                  let (hit, order) = IsReady-has_match predicate m q other ix r fits in
                  let (p, e, le) = laws.highest q order hit in
                  let clash : Path (Option ℤ) none (some p) = sym gone ∙ e in absurd cc
            ]))
        | inr (p, is_best) ↦ elim (laws.attained p is_best) [
          | inl e ↦ absurd cc
          | inr hit ↦
              let (bucket, c, at, mem, fits) =
                has_match-Member predicate (lookup p m.ready_by_priority) hit in
              let (d, h, md, good) = lawful.finds predicate bucket c mem fits in
              rw (is_best, at)
                (found p d h good (ix.sound p bucket d at md) (λ q other r fits'.
                  let (hit', order) = IsReady-has_match predicate m q other ix r fits' in
                  let (p', e, le) = laws.highest q order hit' in
                  let same : Path (Option ℤ) (some p') (some p) = sym e ∙ is_best in
                  let same' : p' ≡ p = cc in rw (← same') le))
        ]
      ]

  kept_bucket :
      (m : ModelScheduler) (p : ℤ) (bucket bucket' : ReadyBucket ℕ)
      → lookup p m.ready_by_priority ≡ some bucket
      → bucket'.creds ≡ bucket.creds
      → Indexed m
      → Indexed (record m { ready_by_priority = insert p bucket' m.ready_by_priority })
  kept_bucket m p bucket bucket' at same ix = record {
    sound = λ q b ref h mem. elim (Bool-cases (p == q)) [
      | inl e ↦
          let ep : p ≡ q = (beq_ℤ_iff p q).0 e in
          let h' : Path (Option (ReadyBucket ℕ)) (some bucket') (some b) =
            rw (lookup-insert p q bucket' m.ready_by_priority, e) at h in
          let eb : bucket' ≡ b = cc in ix.sound q bucket ref (rw (← ep) at) (rw (← same, eb) mem)
      | inr e ↦ ix.sound q b ref (rw (lookup-insert p q bucket' m.ready_by_priority, e) at h) mem
    ];
    complete = λ q ref r.
        let (b, h, mem, order) = ix.complete q ref r in
        elim (Bool-cases (p == q)) [
          | inl e ↦
              let ep : p ≡ q = (beq_ℤ_iff p q).0 e in
              let eb' : Path (Option (ReadyBucket ℕ)) (some bucket) (some b) = sym at ∙ rw ep h in
              let eb : bucket ≡ b = cc in
              (
                bucket',
                rw (lookup-insert p q bucket' m.ready_by_priority, e) refl,
                rw (same, eb) mem,
                order,
              )
          | inr e ↦ (b, rw (lookup-insert p q bucket' m.ready_by_priority, e) h, mem, order)
        ];
    waits = ix.waits;
  }

  pub pick_promoted-Indexed :
      (m : ModelScheduler) → Indexed m → Indexed (pick_promoted select predicate m).1
  unfolding pick_promoted pick_best pick_from
  pick_promoted-Indexed m ix =
      elim (Option-cases (best_loop predicate m.ready_by_priority none m.priority_order)) [
        | inl gone ↦ rw gone ix
        | inr (p, is_best) ↦ elim (Option-cases (lookup p m.ready_by_priority)) [
          | inl gone ↦ rw (is_best, gone) ix
          | inr (bucket, at) ↦
              rw (is_best, at)
                (kept_bucket m p bucket (select predicate bucket).1 at
                  (lawful.keeps predicate bucket) ix)
        ]
      ]

  pub pick_promoted-entries :
      (m : ModelScheduler)
      → ((pick_promoted select predicate m).1.entries ≡ m.entries)
        × ((pick_promoted select predicate m).1.model_key ≡ m.model_key)
  unfolding pick_promoted pick_best pick_from
  pick_promoted-entries m =
      elim (Option-cases (best_loop predicate m.ready_by_priority none m.priority_order)) [
        | inl gone ↦ rw gone (refl, refl)
        | inr (p, is_best) ↦ elim (Option-cases (lookup p m.ready_by_priority)) [
          | inl gone ↦ rw (is_best, gone) (refl, refl)
          | inr (bucket, at) ↦ rw (is_best, at) (refl, refl)
        ]
      ]

-- What a shard goes through: the credentials behind the pointers may be others at each step.
pub data Reached (parse : String → Option ℤ) (model_key : String) : ModelScheduler → Type 0 where
  created : Reached parse model_key (empty_shard model_key)
  upserted :
      {m : ModelScheduler} (cell : ℕ → ManagedCredential) (now ref : ℕ)
      → Reached parse model_key m
      → Reached parse model_key (upsert_entry parse cell now ref m)
  removed :
      {m : ModelScheduler} (cell : ℕ → ManagedCredential) (id : String)
      → Reached parse model_key m
      → Reached parse model_key (remove_entry parse cell id m)
  promoted :
      {m : ModelScheduler} (cell : ℕ → ManagedCredential) (now : ℕ)
      → Reached parse model_key m
      → Reached parse model_key (promote_expired parse cell now m)
  picked :
      {m : ModelScheduler} (cell : ℕ → ManagedCredential) (now : ℕ) (select : Selector)
      (predicate : ℕ → Bool)
      → Selects select
      → Reached parse model_key m
      → Reached parse model_key (pick_ready parse cell now select predicate m).1

pub empty_shard-Indexed : (model_key : String) → Indexed (empty_shard model_key)
unfolding lookup
empty_shard-Indexed model_key = record {
  sound = λ p bucket ref h mem. absurd cc;
  complete = λ p ref r. elim (r.member) [ ];
  waits = λ id. (λ m. elim m [ ], λ w. let (e, m, h) = w in elim m [ ]);
}

-- Of every shard that its operations reach from the empty one, with lawful selectors: the buckets by
-- priority hold exactly the ready entries of that priority, and the order lists each such priority.
pub Reached-Indexed :
    (parse : String → Option ℤ) (model_key : String) {m : ModelScheduler}
    → Reached parse model_key m
    → Indexed m
unfolding pick_ready
Reached-Indexed parse model_key created = empty_shard-Indexed model_key
Reached-Indexed parse model_key (upserted {m} cell now ref r) =
    upsert_entry-Indexed parse cell now ref m (Reached-Indexed parse model_key r)
Reached-Indexed parse model_key (removed {m} cell id r) =
    remove_entry-Indexed parse cell id m (Reached-Indexed parse model_key r)
Reached-Indexed parse model_key (promoted {m} cell now r) =
    promote_expired-Indexed parse cell now m (Reached-Indexed parse model_key r)
Reached-Indexed parse model_key (picked {m} cell now select predicate lawful r) =
    let ix = promote_expired-Indexed parse cell now m (Reached-Indexed parse model_key r) in
    pick_promoted-Indexed select lawful predicate (promote_expired parse cell now m) ix

-- Of every shard that its operations reach, and every lawful selector and predicate: after expired
-- blocks are lifted, a pick is a ready entry that matches, and no matching ready entry has a higher
-- priority; none is picked only when no ready entry matches.
pub pick_ready-Outcome :
    (parse : String → Option ℤ) (cell : ℕ → ManagedCredential) (model_key : String) (now : ℕ)
    (select : Selector) (predicate : ℕ → Bool) (m : ModelScheduler)
    → Selects select
    → Reached parse model_key m
    → PickOutcome predicate
        (promote_expired parse cell now m)
        (pick_ready parse cell now select predicate m).0
unfolding pick_ready
pick_ready-Outcome parse cell model_key now select predicate m lawful r =
    let ix = promote_expired-Indexed parse cell now m (Reached-Indexed parse model_key r) in
    pick_promoted-Outcome select lawful predicate (promote_expired parse cell now m) ix
