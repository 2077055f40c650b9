-- ===== src/Scheduler/Scopes/Lifted.antt =====
-- pkg/credential/scheduler/scheduler.go: promoteExpiredLocked leaves no entry behind its time.
use caddy_agent_gateway.Base.{
  ℕ, ◌<◌, String, ◌≡◌, refl, sym, ap, ◌∙◌, ◌⊎◌, inl, inr, Bool, true, false, List, [], ◌∷◌, Option,
  none, some, arith, ◌==◌, nat_eq, string_eq, ℤ, lookup, insert, lookup-insert, lookup-Member,
  Bool-cases, Option-cases, Member, Member-uncons,
}
use caddy_agent_gateway.Scheduler.Credential.{ManagedCredential}
use caddy_agent_gateway.Scheduler.Selector.{Block, is_credential_blocked_for_model}
use caddy_agent_gateway.Scheduler.Selector.Laws.{
  Explains, for_good, for_now, not_at_all, is_credential_blocked_for_model-Explains,
}
use caddy_agent_gateway.Scheduler.Shard.{
  ScheduledState, state_eq, ScheduledCred, ModelScheduler, is_waiting, is_due, rebuild_indexes,
  promote, promote_found, promote_loop, promote_expired,
}
use caddy_agent_gateway.Scheduler.Scopes.Known.{
  Records, is_free, cools, is_off, is_blocked, Knows, state_of-Records,
}
use caddy_agent_gateway.Scheduler.Scopes.Entries.{ShardValid}

-- No time to retry, or one that lies ahead.
abbrev pub IsAhead : ℕ → ℕ → Type 0
IsAhead now next = (next ≡ 0) ⊎ (now < next)

Explains-IsAhead : (now : ℕ) (b : Block) → Explains now b → IsAhead now b.next_retry
Explains-IsAhead now b (for_good h r n) = inl n
Explains-IsAhead now b (for_now h r n) = inr n
Explains-IsAhead now b (not_at_all h r n) = inl n

Records-IsAhead :
    (now : ℕ) (b : Block) (state : ScheduledState) (next : ℕ)
    → Explains now b
    → Records b state next
    → IsAhead now next
Records-IsAhead now b state next ex (is_free h s n) = inl n
Records-IsAhead now b state next ex (is_off h r s n) = inl n
Records-IsAhead now b state next ex (cools h r s n) = rw n (Explains-IsAhead now b ex)
Records-IsAhead now b state next ex (is_blocked h r r' s n) = rw n (Explains-IsAhead now b ex)

module _ (parse : String → Option ℤ) (cell : ℕ → ManagedCredential) where
  promote-IsAhead :
      (key : String) (now : ℕ) (e : ScheduledCred)
      → IsAhead now (promote parse cell key now e).next_retry_at
  unfolding promote
  promote-IsAhead key now e =
      let b = is_credential_blocked_for_model (cell e.cred) key now in
      Records-IsAhead now b _ _ (is_credential_blocked_for_model-Explains (cell e.cred) key now)
        (state_of-Records parse cell b)

  not_due :
      (now : ℕ) (e : ScheduledCred) → is_due parse cell now e ≡ false → IsAhead now e.next_retry_at
  not_due now e h = elim (Bool-cases (e.next_retry_at == 0)) [
    | inl z ↦ inl ((nat_eq.beq_iff e.next_retry_at 0).0 z)
    | inr z ↦ inr (ground arith)
  ]

  -- What the loop over `ids` leaves at an id: the entry as it was, ahead of its time if the loop met
  -- it, or one that is ahead of its time.
  abbrev Left : ℕ → String → List String → List (String × ScheduledCred) → ScheduledCred → Type 0
  Left now id ids es x =
      ((lookup id es ≡ some x) × (Member id ids → IsAhead now x.next_retry_at))
      ⊎ IsAhead now x.next_retry_at

  -- One round more, at an entry that the round leaves as it is.
  Left-skip :
      (now : ℕ) (id i : String) (ids : List String) (es : List (String × ScheduledCred))
      (x : ScheduledCred)
      → (id ≡ i → lookup id es ≡ some x → IsAhead now x.next_retry_at)
      → Left now id ids es x
      → Left now id (i ∷ ids) es x
  Left-skip now id i ids es x here (inr ahead) = inr ahead
  Left-skip now id i ids es x here (inl (at, later)) =
      inl (at, λ m. elim (Member-uncons m) [ inl same ↦ here same at | inr m' ↦ later m' ])

  promote_loop-Left :
      (key : String) (now : ℕ) (id : String) (x : ScheduledCred) (ids : List String)
      (es : List (String × ScheduledCred)) (changed : Bool)
      → lookup id (promote_loop parse cell key now ids (es, changed)).0 ≡ some x
      → Left now id ids es x
  unfolding promote_loop promote_found
  promote_loop-Left key now id x [] es changed h = inl (h, λ m. elim m [ ])
  promote_loop-Left key now id x (i ∷ ids) es changed h = elim (Option-cases (lookup i es)) [
    | inl gone ↦
        Left-skip now id i ids es x
          (λ same at.
            let gone' : lookup id es ≡ none = rw same gone in
            let clash : Path (Option ScheduledCred) none (some x) = sym gone' ∙ at in absurd cc)
          (promote_loop-Left key now id x ids es changed (rw (promote_loop, gone) at h))
    | inr (e, found) ↦ elim (Bool-cases (is_due parse cell now e)) [
      | inr waits ↦
          Left-skip now id i ids es x
            (λ same at.
              let found' : lookup id es ≡ some e = rw same found in
              let both : Path (Option ScheduledCred) (some e) (some x) = sym found' ∙ at in
              let same' : e ≡ x = cc in rw (← same') (not_due now e waits))
            (promote_loop-Left key now id x ids es changed (rw (promote_loop, found, waits) at h))
      | inl due ↦
          let e' = promote parse cell key now e in
          elim (promote_loop-Left key now id x ids (insert i e' es) true
            (rw (promote_loop, found, due) at h)) [
              | inr ahead ↦ inr ahead
              | inl (at, later) ↦ elim (Bool-cases (i == id)) [
                | inl hit ↦
                    let both : Path (Option ScheduledCred) (some e') (some x) =
                      rw hit at (sym (lookup-insert i id e' es) ∙ at) in
                    let same : e' ≡ x = cc in inr (rw (← same) (promote-IsAhead key now e))
                | inr miss ↦
                    Left-skip now id i ids es x
                      (λ same at'.
                        let hit = (string_eq.beq_iff i id).1 (sym same) in
                        let clash : true ≡ false = sym hit ∙ miss in absurd cc)
                      (inl (rw miss at (sym (lookup-insert i id e' es) ∙ at), later))
              ]
            ]
    ]
  ]

  -- A loop that changes nothing leaves the entries.
  promote_loop-same :
      (key : String) (now : ℕ) (ids : List String) (es : List (String × ScheduledCred))
      (changed : Bool)
      → (promote_loop parse cell key now ids (es, changed)).1 ≡ false
      → ((promote_loop parse cell key now ids (es, changed)).0 ≡ es) × (changed ≡ false)
  unfolding promote_loop promote_found
  promote_loop-same key now [] es changed h = (refl, h)
  promote_loop-same key now (i ∷ ids) es changed h = elim (Option-cases (lookup i es)) [
    | inl gone ↦
        rw (promote_loop, gone)
          (promote_loop-same key now ids es changed (rw (promote_loop, gone) at h))
    | inr (e, found) ↦ elim (Bool-cases (is_due parse cell now e)) [
      | inr waits ↦
          rw (promote_loop, found, waits)
            (promote_loop-same key now ids es changed (rw (promote_loop, found, waits) at h))
      | inl due ↦
          let (_, clash) =
            promote_loop-same key now ids (insert i (promote parse cell key now e) es) true
              (rw (promote_loop, found, due) at h) in
          absurd cc
    ]
  ]

  Knows-idle :
      (now : ℕ) (key : String) (e : ScheduledCred)
      → Knows parse (cell e.cred) key now e
      → is_waiting e ≡ false
      → e.next_retry_at ≡ 0
  unfolding state_eq
  Knows-idle now key e k idle = elim (k.recorded) [
    | is_free h s n ↦ n
    | is_off h r s n ↦ n
    | cools h r s n ↦ let idle' : true ≡ false = rw s at idle in absurd cc
    | is_blocked h r r' s n ↦ let idle' : true ≡ false = rw s at idle in absurd cc
  ]

  -- Behind it, each entry of the shard has no time to retry, or one that lies ahead.
  pub promote_expired-IsAhead :
      {now : ℕ} {creds : List (String × ℕ)} {key : String} {m : ModelScheduler} (id : String)
      (x : ScheduledCred)
      → ShardValid parse cell now creds key m
      → lookup id (promote_expired parse cell now m).entries ≡ some x
      → IsAhead now x.next_retry_at
  unfolding promote_expired rebuild_indexes
  promote_expired-IsAhead {now} {creds} {key} {m} id x v h =
      let after = promote_loop parse cell m.model_key now m.blocked_ids (m.entries, false) in
      let from : lookup id after.0 ≡ some x = elim (Bool-cases after.1) [
        | inl moved ↦ rw moved at h
        | inr same ↦
            ap (lookup id) (promote_loop-same m.model_key now m.blocked_ids m.entries false same).0
            ∙ rw same at h
      ] in
      elim (promote_loop-Left m.model_key now id x m.blocked_ids m.entries false from) [
        | inr ahead ↦ ahead
        | inl (at, later) ↦ elim (Bool-cases (is_waiting x)) [
          | inl waits ↦ later ((v.indexed.waits id).1 (x, lookup-Member id x m.entries at, waits))
          | inr idle ↦ inl (Knows-idle now key x (v.knows id x at) idle)
        ]
      ]
