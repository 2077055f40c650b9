-- ===== src/Scheduler/Shard/Laws.antt =====
-- pkg/credential/scheduler/scheduler.go: every operation of a shard keeps its indexes right, and the
-- choice is a matching ready credential of the highest priority.
use caddy_agent_gateway.Base.{
  ℕ, String, ◌≡◌, ◌↔◌, refl, sym, ◌∙◌, ◌⊎◌, inl, inr, Bool, true, false, List, [], ◌∷◌, Option,
  none, some, arith, ◌==◌, nat_eq, string_eq, ℤ, ◌≤ℤ◌, int_eq, beq_ℤ_iff, lookup, insert, delete,
  insert-same, Bool-cases, Option-cases, Member, here, there, Member-uncons, any,
}
use caddy_agent_gateway.Scheduler.Credential.{ManagedCredential}
use caddy_agent_gateway.Scheduler.Selector.{ReadyBucket}
use caddy_agent_gateway.Scheduler.Shard.{
  ScheduledState, ready, in_cooldown, blocked, disabled, state_eq, ScheduledCred, ModelScheduler,
  scheduled, unchanged, upsert_entry, remove_found, remove_entry, promote_loop, promote_expired,
  has_match, better, best_loop,
}
use caddy_agent_gateway.Scheduler.Shard.Index.{Indexed, rebuild_indexes-Indexed}

state_eq-eq : (s t : ScheduledState) → state_eq s t ≡ true → s ≡ t
unfolding state_eq
state_eq-eq ready t h = ground arith
state_eq-eq in_cooldown t h = ground arith
state_eq-eq blocked t h = ground arith
state_eq-eq disabled t h = ground arith

module _ (parse : String → Option ℤ) (cell : ℕ → ManagedCredential) where
  unchanged-same :
      (found : Option ScheduledCred) (e : ScheduledCred)
      → unchanged parse cell found e ≡ true
      → found ≡ some e
  unfolding unchanged
  unchanged-same none e h = cc
  unchanged-same (some prev) e h =
      let s : prev.state ≡ e.state = state_eq-eq prev.state e.state (ground arith) in
      ground (arith, s, beq_ℤ_iff prev.priority e.priority)

  pub upsert_entry-Indexed :
      (now ref : ℕ) (m : ModelScheduler) → Indexed m → Indexed (upsert_entry parse cell now ref m)
  unfolding upsert_entry
  upsert_entry-Indexed now ref m h =
      let id = (cell ref).credential.id in
      let e = scheduled parse cell m.model_key now ref in
      let m' = record m { entries = insert id e m.entries } in
      elim (Bool-cases (unchanged parse cell (lookup id m.entries) e)) [
        | inl same ↦
            let found = unchanged-same (lookup id m.entries) e same in
            rw (same, insert-same id e m.entries found) h
        | inr differs ↦ rw differs (rebuild_indexes-Indexed parse cell m')
      ]

  pub remove_entry-Indexed :
      (id : String) (m : ModelScheduler) → Indexed m → Indexed (remove_entry parse cell id m)
  unfolding remove_entry remove_found
  remove_entry-Indexed id m h = elim (Bool-cases (id == "")) [
    | inl e ↦ rw e h
    | inr e ↦ elim (Option-cases (lookup id m.entries)) [
      | inl gone ↦ rw (e, gone) h
      | inr (x, there_is) ↦
          rw (e, there_is)
            (rebuild_indexes-Indexed parse cell (record m { entries = delete id m.entries }))
    ]
  ]

  pub promote_expired-Indexed :
      (now : ℕ) (m : ModelScheduler) → Indexed m → Indexed (promote_expired parse cell now m)
  unfolding promote_expired
  promote_expired-Indexed now m h =
      let found = promote_loop parse cell m.model_key now m.blocked_ids (m.entries, false) in
      elim (Bool-cases found.1) [
        | inl c ↦ rw c (rebuild_indexes-Indexed parse cell (record m { entries = found.0 }))
        | inr c ↦ rw c h
      ]

pub any-Member :
    {A : Type 0} (predicate : A → Bool) (xs : List A)
    → (any predicate xs ≡ true) ↔ ((x : A) × Member x xs × (predicate x ≡ true))
any-Member predicate [] = (λ h. cc, λ s. let (y, m, q) = s in elim m [ ])
any-Member {A} predicate (x ∷ xs) =
    let ih = any-Member predicate xs in
    (
      λ h. elim (Bool-cases (predicate x)) [
        | inl p ↦ (x, here, p)
        | inr p ↦ let (y, m, q) = ih.0 (ground arith) in (y, there m, q)
      ],
      λ s.
          let (y, m, q) = s in
          elim (Member-uncons m) [
            | inl e ↦ let p : predicate x ≡ true = rw (← e) q in rw p refl
            | inr m' ↦ let t = ih.1 (y, m', q) in ground (arith, t)
          ],
    )

-- What the loop over the priorities finds.
pub record Best (predicate : ℕ → Bool) (ready_buckets : List (ℤ × ReadyBucket ℕ)) (ps : List ℤ)
    (start : Option ℤ) (best : Option ℤ) : Type 0 where
  pub attained :
      (q : ℤ)
      → best ≡ some q
      → (start ≡ some q) ⊎ (has_match predicate (lookup q ready_buckets) ≡ true)
  pub from_start : (b : ℤ) → start ≡ some b → (q : ℤ) × (best ≡ some q) × (b ≤ℤ q)
  pub highest :
      (p : ℤ)
      → Member p ps
      → has_match predicate (lookup p ready_buckets) ≡ true
      → (q : ℤ) × (best ≡ some q) × (p ≤ℤ q)

≤ℤ-trans : (a b c : ℤ) → a ≤ℤ b → b ≤ℤ c → a ≤ℤ c
≤ℤ-trans a b c h k = omega arith

≤ℤ_refl : (a : ℤ) → a ≤ℤ a
≤ℤ_refl a = omega arith

better-some : (b p : ℤ) → better (some b) p ≡ true → b ≤ℤ p
unfolding better
better-some b p h = ground arith

not_better : (o : Option ℤ) (p : ℤ) → better o p ≡ false → (b : ℤ) × (o ≡ some b) × (p ≤ℤ b)
unfolding better
not_better none p h = absurd cc
not_better (some b) p h = (b, refl, ground arith)

pub best_loop-Best :
    (predicate : ℕ → Bool) (ready_buckets : List (ℤ × ReadyBucket ℕ)) (start : Option ℤ)
    (ps : List ℤ)
    → Best predicate ready_buckets ps start (best_loop predicate ready_buckets start ps)
unfolding best_loop
best_loop-Best predicate bs start [] = record {
  attained = λ q h. inl h;
  from_start = λ b h. (b, h, ≤ℤ_refl b);
  highest = λ p m h. elim m [ ];
}
best_loop-Best predicate bs start (p ∷ ps) = elim (Bool-cases (has_match predicate (lookup p bs))) [
  | inr skip ↦
      let ih = best_loop-Best predicate bs start ps in
      rw skip (record {
        attained = ih.attained;
        from_start = ih.from_start;
        highest = λ p' m h. elim (Member-uncons m) [
          | inl e ↦
              let h' : has_match predicate (lookup p bs) ≡ true = rw e at h in
              let clash : true ≡ false = sym h' ∙ skip in absurd cc
          | inr m' ↦ ih.highest p' m' h
        ];
      })
  | inl hit ↦ elim (Bool-cases (better start p)) [
    | inl up ↦
        let ih = best_loop-Best predicate bs (some p) ps in
        rw (hit, up)
          (record {
            attained = λ q h. elim (ih.attained q h) [
              | inl e ↦ let e' : p ≡ q = cc in inr (rw (← e') hit)
              | inr k ↦ inr k
            ];
            from_start = λ b h.
                let (q, e, le) = ih.from_start p refl in
                let above : better (some b) p ≡ true = rw h at up in
                (q, e, ≤ℤ-trans b p q (better-some b p above) le);
            highest = λ p' m h. elim (Member-uncons m) [
              | inl e ↦ let (q, f, le) = ih.from_start p refl in (q, f, rw e le)
              | inr m' ↦ ih.highest p' m' h
            ];
          })
    | inr down ↦
        let ih = best_loop-Best predicate bs start ps in
        let (b, is_b, below) = not_better start p down in
        rw (hit, down)
          (record {
            attained = ih.attained;
            from_start = ih.from_start;
            highest = λ p' m h. elim (Member-uncons m) [
              | inl e ↦
                  let (q, f, le) = ih.from_start b is_b in (q, f, rw e (≤ℤ-trans p b q below le))
              | inr m' ↦ ih.highest p' m' h
            ];
          })
  ]
]
