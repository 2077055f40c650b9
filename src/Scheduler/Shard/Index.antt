-- ===== src/Scheduler/Shard/Index.antt =====
-- pkg/credential/scheduler/scheduler.go: the indexes of a shard are exactly its ready entries, by
-- priority, after every operation.
use caddy_agent_gateway.Base.{
  ℕ, String, ◌≡◌, ◌↔◌, refl, sym, ap, ◌∙◌, ◌⊎◌, inl, inr, true, false, List, [], ◌∷◌, ◌++◌, Option,
  none, some, arith, if◌then◌else◌, ◌==◌, nat_eq, string_eq, ℤ, int_eq, beq_ℤ_iff, keys, lookup,
  insert, lookup-insert, lookup-keys, sort_by, sort_by-Member, Bool-cases, Member, here, there,
  Member-uncons, Member-cons,
}
use caddy_agent_gateway.Scheduler.Credential.{ManagedCredential}
use caddy_agent_gateway.Scheduler.Selector.{ReadyBucket}
use caddy_agent_gateway.Scheduler.Shard.{
  ScheduledCred, ModelScheduler, is_ready, or_empty, by_priority, buckets, later_priority,
  id_before, rebuild_indexes,
}
use caddy_agent_gateway.Scheduler.Shard.Waiting.{IsWaiting, waiting-ids}

-- A ready entry with the priority `p` that points to `ref`.
pub record IsReady (entries : List (String × ScheduledCred)) (p : ℤ) (ref : ℕ) : Type 0 where
  pub id : String
  pub entry : ScheduledCred
  pub member : Member (id, entry) entries
  pub is_ready_now : is_ready entry ≡ true
  pub priority : entry.priority ≡ p
  pub cred : entry.cred ≡ ref

pub record Indexed (m : ModelScheduler) : Type 0 where
  pub sound :
      (p : ℤ) (bucket : ReadyBucket ℕ) (ref : ℕ)
      → lookup p m.ready_by_priority ≡ some bucket
      → Member ref bucket.creds
      → IsReady m.entries p ref
  pub complete :
      (p : ℤ) (ref : ℕ)
      → IsReady m.entries p ref
      → (bucket : ReadyBucket ℕ) × (lookup p m.ready_by_priority ≡ some bucket)
        × Member ref bucket.creds
        × Member p m.priority_order
  -- The ids that are set aside are those of the entries that wait.
  pub waits : (id : String) → Member id m.blocked_ids ↔ IsWaiting m.entries id

IsReady-there :
    {x : String × ScheduledCred} {es : List (String × ScheduledCred)} {p : ℤ} {ref : ℕ}
    → IsReady es p ref
    → IsReady (x ∷ es) p ref
IsReady-there r = record {
  id = r.id;
  entry = r.entry;
  member = there r.member;
  is_ready_now = r.is_ready_now;
  priority = r.priority;
  cred = r.cred;
}

Member-append :
    {A : Type 0} {a : A} (xs ys : List A) → Member a (xs ++ ys) ↔ (Member a xs ⊎ Member a ys)
Member-append [] ys = (λ m. inr m, λ s. elim s [ inl m ↦ elim m [ ] | inr m ↦ m ])
Member-append {a = a} (x ∷ xs) ys =
    let ih = Member-append {a = a} xs ys in
    (
      λ m. elim (Member-uncons m) [
        | inl e ↦ inl (Member-cons (inl e))
        | inr m' ↦ elim (ih.0 m') [ inl k ↦ inl (there k) | inr k ↦ inr k ]
      ],
      λ s. elim s [
        | inl m ↦ elim (Member-uncons m) [
          | inl e ↦ Member-cons (inl e)
          | inr k ↦ there (ih.1 (inl k))
        ]
        | inr k ↦ there (ih.1 (inr k))
      ],
    )

-- What the groups hold under `p`.
abbrev group : ℤ → List (ℤ × List ℕ) → List ℕ
group p groups = or_empty (lookup p groups)

-- One round of the loop.
abbrev grouped : ScheduledCred → List (ℤ × List ℕ) → List (ℤ × List ℕ)
grouped e groups =
    if is_ready e
    then insert e.priority (or_empty (lookup e.priority groups) ++ e.cred ∷ []) groups
    else groups

abbrev IsNew : ScheduledCred → ℤ → ℕ → Type 0
IsNew e p ref = (is_ready e ≡ true) × (e.priority ≡ p) × (e.cred ≡ ref)

group-grouped :
    (e : ScheduledCred) (groups : List (ℤ × List ℕ)) (p : ℤ) (ref : ℕ)
    → Member ref (group p (grouped e groups)) ↔ (Member ref (group p groups) ⊎ IsNew e p ref)
group-grouped e groups p ref = elim (Bool-cases (is_ready e)) [
  | inr idle ↦ rw idle (
    λ m. inl m,
    λ s. elim s [ inl m ↦ m | inr (k, _, _) ↦ let clash : true ≡ false = sym k in absurd cc ],
  )
  | inl good ↦ elim (Bool-cases (e.priority == p)) [
    | inl same ↦
        let ep : e.priority ≡ p = (beq_ℤ_iff e.priority p).0 same in
        let both = Member-append {a = ref} (group p groups) (e.cred ∷ []) in
        rw
          (
            good,
            lookup-insert e.priority p (or_empty (lookup e.priority groups) ++ e.cred ∷ []) groups,
            same,
            ep,
          )
          (
            λ m. elim (both.0 m) [
              | inl k ↦ inl k
              | inr k ↦ elim (Member-uncons k) [
                | inl eq ↦ inr (refl, refl, sym eq)
                | inr k' ↦ elim k' [ ]
              ]
            ],
            λ s.
                both.1
                  (elim s [ inl k ↦ inl k | inr (_, _, eq) ↦ inr (Member-cons (inl (sym eq))) ]),
          )
    | inr other ↦
        rw
          (
            good,
            lookup-insert e.priority p (or_empty (lookup e.priority groups) ++ e.cred ∷ []) groups,
            other,
          )
          (
            λ m. inl m,
            λ s. elim s [
              | inl m ↦ m
              | inr (_, ep, _) ↦
                  let hit = (beq_ℤ_iff e.priority p).1 ep in
                  let clash : true ≡ false = sym hit ∙ other in absurd cc
            ],
          )
  ]
]

IsReady-cons :
    (id : String) (e : ScheduledCred) (es : List (String × ScheduledCred)) (p : ℤ) (ref : ℕ)
    → IsReady ((id, e) ∷ es) p ref ↔ (IsNew e p ref ⊎ IsReady es p ref)
IsReady-cons id e es p ref = (
  λ r. elim (Member-uncons r.member) [
    | inl same ↦
        let ee : r.entry ≡ e = ap (λ q. q.1) same in
        inl (rw (← ee) r.is_ready_now, rw (← ee) r.priority, rw (← ee) r.cred)
    | inr m ↦ inr (record {
      id = r.id;
      entry = r.entry;
      member = m;
      is_ready_now = r.is_ready_now;
      priority = r.priority;
      cred = r.cred;
    })
  ],
  λ s. elim s [
    | inl (good, ep, ec) ↦ record {
      id = id;
      entry = e;
      member = here;
      is_ready_now = good;
      priority = ep;
      cred = ec;
    }
    | inr r ↦ IsReady-there r
  ],
)

by_priority-Member :
    (es : List (String × ScheduledCred)) (groups : List (ℤ × List ℕ)) (p : ℤ) (ref : ℕ)
    → Member ref (group p (by_priority es groups))
      ↔ (Member ref (group p groups) ⊎ IsReady es p ref)
unfolding by_priority
by_priority-Member [] groups p ref =
    (λ m. inl m, λ s. elim s [ inl m ↦ m | inr r ↦ elim (r.member) [ ] ])
by_priority-Member ((id, e) ∷ es) groups p ref =
    let ih = by_priority-Member es (grouped e groups) p ref in
    let step = group-grouped e groups p ref in
    let cons = IsReady-cons id e es p ref in
    (
      λ m. elim (ih.0 m) [
        | inl k ↦ elim (step.0 k) [ inl k' ↦ inl k' | inr n ↦ inr (cons.1 (inl n)) ]
        | inr r ↦ inr (cons.1 (inr r))
      ],
      λ s. elim s [
        | inl k ↦ ih.1 (inl (step.1 (inl k)))
        | inr r ↦ elim (cons.0 r) [ inl n ↦ ih.1 (inl (step.1 (inr n))) | inr r' ↦ ih.1 (inr r') ]
      ],
    )

module _ (parse : String → Option ℤ) (cell : ℕ → ManagedCredential) where
  bucket_of : Option (List ℕ) → Option (ReadyBucket ℕ)
  unfolding id_before
  bucket_of none = none
  bucket_of (some refs) = some (record { creds = sort_by (id_before parse cell) refs; cursor = 0 })

  lookup-buckets :
      (p : ℤ) (groups : List (ℤ × List ℕ))
      → lookup p (buckets parse cell groups) ≡ bucket_of (lookup p groups)
  unfolding buckets lookup bucket_of
  lookup-buckets p [] = refl
  lookup-buckets p ((q, refs) ∷ groups) = ground (arith, lookup-buckets p groups)

  found-Member :
      (found : Option (List ℕ)) (bucket : ReadyBucket ℕ) (ref : ℕ)
      → bucket_of found ≡ some bucket
      → Member ref bucket.creds
      → Member ref (or_empty found)
  unfolding bucket_of
  found-Member none bucket ref h m = cc
  found-Member (some refs) bucket ref h m =
      let same : sort_by (id_before parse cell) refs ≡ bucket.creds = ap creds_of h in
      (sort_by-Member (id_before parse cell) {a = ref} refs).0 (rw same m)
    where
      creds_of : Option (ReadyBucket ℕ) → List ℕ
      creds_of none = []
      creds_of (some b) = b.creds

  Member-found :
      (found : Option (List ℕ)) (ref : ℕ)
      → Member ref (or_empty found)
      → (bucket : ReadyBucket ℕ) × (bucket_of found ≡ some bucket)
        × Member ref bucket.creds
        × ((refs : List ℕ) × (found ≡ some refs))
  unfolding bucket_of
  Member-found none ref m = elim m [ ]
  Member-found (some refs) ref m =
      (_, refl, (sort_by-Member (id_before parse cell) {a = ref} refs).1 m, (refs, refl))

  -- Rebuilding the indexes makes them agree with the entries.
  pub rebuild_indexes-Indexed : (m : ModelScheduler) → Indexed (rebuild_indexes parse cell m)
  unfolding rebuild_indexes lookup
  rebuild_indexes-Indexed m =
      let groups = by_priority m.entries [] in
      record {
        sound = λ p bucket ref h mem.
            let g =
              found-Member (lookup p groups) bucket ref (sym (lookup-buckets p groups) ∙ h) mem in
            elim ((by_priority-Member m.entries [] p ref).0 g) [ inl k ↦ elim k [ ] | inr r ↦ r ];
        complete = λ p ref r.
            let g = (by_priority-Member m.entries [] p ref).1 (inr r) in
            let (bucket, h, mem, (refs, there_is)) = Member-found (lookup p groups) ref g in
            (
              bucket,
              lookup-buckets p groups ∙ h,
              mem,
              (sort_by-Member later_priority {a = p} (keys groups)).1
                  (lookup-keys p groups there_is),
            );
        waits = λ id. waiting-ids m.entries id;
      }
