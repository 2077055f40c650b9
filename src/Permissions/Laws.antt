-- ===== src/Permissions/Laws.antt =====
-- pkg/agent/runtime/permissions.go: what a successful claim was, and the bound of the audit log.
use text.Mathlib.TextEquality.{eq_iff}
use caddy_agent_gateway.Base.{
  ℕ, zero, suc, ◌-◌, ◌≤◌, ◌<◌, String, ◌≡◌, refl, ap, inl, inr, Bool, true, false, List, [], ◌∷◌,
  ◌++◌, Option, none, some, arith, leb, ◌==◌, string_eq, length, drop, lookup, lookup-delete_self,
  Bool-cases, Result, ok,
}
use caddy_agent_gateway.Permissions.{
  PermissionDecision, PermissionEntry, PermissionAudit, PermissionError, Continuations,
  PermissionBroker, sweep_expired, append_audit, audit, take, mark_expired, owned, refusal,
  claim_due, claim_live, claim_found, claim,
}

length-drop : {A : Type 0} (n : ℕ) (xs : List A) → length (drop n xs) ≡ length xs - n
length-drop zero xs = omega arith
length-drop (suc n) [] = omega arith
length-drop (suc n) (x ∷ xs) = omega (arith, length-drop n xs)

module _ (minute : ℕ) (c : Continuations) where
  append_audit-length :
      (audits : List PermissionAudit) (a : PermissionAudit)
      → length (append_audit minute c audits a) ≤ 4096
  unfolding append_audit
  append_audit-length audits a =
      ground (arith, length-drop (length (audits ++ a ∷ []) - 4096) (audits ++ a ∷ []))

  -- Whatever the log held, it holds at most 4096 records once one is added.
  pub audit-length :
      (now : ℕ) (agent_id request_id source result : String) (b : PermissionBroker minute c)
      → length (audit minute c now agent_id request_id source result b).audits ≤ 4096
  unfolding audit
  audit-length now agent_id request_id source result b = append_audit-length b.audits _

  owned-some :
      (agent_id : String) (found : Option PermissionEntry) (e : PermissionEntry)
      → owned minute c agent_id found ≡ some e
      → found ≡ some e
  unfolding owned
  owned-some agent_id none e h = cc
  owned-some agent_id (some x) e h = ground arith

  owned-none : (agent_id : String) → owned minute c agent_id none ≡ none
  unfolding owned
  owned-none agent_id = refl

  claim_live-taken :
      (now : ℕ) (id : String) (expiry : Bool) (e x : PermissionEntry)
      (b b' : PermissionBroker minute c) (reason : Option PermissionError)
      → claim_live minute c now id expiry e b reason ≡ (ok x, b')
      → (e ≡ x) × (lookup id b'.pending ≡ none) × (reason ≡ none)
  unfolding claim_live take mark_expired
  claim_live-taken now id expiry e x b b' (some r) h = absurd cc
  claim_live-taken now id true e x b b' none h =
      let pb : (take minute c now id e b).pending ≡ b'.pending = ap (λ p. p.1.pending) h in
      (ok-first h, rw (← pb) (lookup-delete_self id b.pending), refl)
    where
      ok-first :
          {p q : PermissionBroker minute c} {e x : PermissionEntry}
          → Path
              (Result PermissionError PermissionEntry × PermissionBroker minute c)
              (ok e, p)
              (ok x, q)
          → e ≡ x
      ok-first k = cc
  claim_live-taken now id false e x b b' none h =
      let pb : (take minute c now id e b).pending ≡ b'.pending = ap (λ p. p.1.pending) h in
      (ok-first h, rw (← pb) (lookup-delete_self id b.pending), refl)
    where
      ok-first :
          {p q : PermissionBroker minute c} {e x : PermissionEntry}
          → Path
              (Result PermissionError PermissionEntry × PermissionBroker minute c)
              (ok e, p)
              (ok x, q)
          → e ≡ x
      ok-first k = cc

  -- What a successful claim was.
  pub record Claims (now : ℕ) (b : PermissionBroker minute c) (agent_id id : String)
      (decision : Option PermissionDecision) (e : PermissionEntry) (b' : PermissionBroker minute c)
      : Type 0 where
    pub was_pending : lookup id b.pending ≡ some e
    pub was_owned : e.info.agent_id ≡ agent_id
    pub was_live : now < e.info.expires_at
    pub accepted : refusal minute c (sweep_expired minute c now b) e decision ≡ none
    pub taken : lookup id b'.pending ≡ none

  claim_found-Claims :
      (now : ℕ) (agent_id id : String) (expiry : Bool) (decision : Option PermissionDecision)
      (b b' : PermissionBroker minute c) (found : Option PermissionEntry) (e : PermissionEntry)
      → claim_found minute c now agent_id id expiry decision b found ≡ (ok e, b')
      → (found ≡ some e)
        × (now < e.info.expires_at)
        × (refusal minute c b e decision ≡ none)
        × (lookup id b'.pending ≡ none)
  unfolding claim_found claim_due
  claim_found-Claims now agent_id id expiry decision b b' none e h = absurd cc
  claim_found-Claims now agent_id id expiry decision b b' (some x) e h =
      elim (Bool-cases (leb x.info.expires_at now)) [
        | inl due ↦ let h' = rw due at h in absurd cc
        | inr live ↦
            let (same, gone, accepted) =
              claim_live-taken now id expiry x e b b' (refusal minute c b x decision)
                (rw live at h) in
            (ap some same, rw (← same) (ground arith), rw (← same) accepted, gone)
      ]

  owned-agent :
      (agent_id : String) (found : Option PermissionEntry) (e : PermissionEntry)
      → owned minute c agent_id found ≡ some e
      → e.info.agent_id ≡ agent_id
  unfolding owned
  owned-agent agent_id none e h = cc
  owned-agent agent_id (some x) e h = ground (arith, eq_iff x.info.agent_id agent_id)

-- A successful claim took a request that was pending, owned by the agent, not expired, and whose
-- decision its backend accepts; the request is then no longer pending.
pub claim-Claims :
    (minute : ℕ) (c : Continuations) (now : ℕ) (b : PermissionBroker minute c)
    (agent_id id : String) (expiry : Bool) (decision : Option PermissionDecision)
    (e : PermissionEntry) (b' : PermissionBroker minute c)
    → claim minute c now b agent_id id expiry decision ≡ (ok e, b')
    → Claims minute c now b agent_id id decision e b'
unfolding claim
claim-Claims minute c now b agent_id id expiry decision e b' h = elim (Bool-cases (id == "")) [
  | inl empty ↦ let h' = rw empty at h in absurd cc
  | inr named ↦
      let (found, live, accepted, gone) =
        claim_found-Claims minute c now agent_id id expiry decision (sweep_expired minute c now b)
          b' (owned minute c agent_id (lookup id (sweep_expired minute c now b).pending)) e
          (rw named at h) in
      record {
        was_pending = pending_kept (owned-some minute c agent_id _ e found);
        was_owned = owned-agent minute c agent_id _ e found;
        was_live = live;
        accepted = accepted;
        taken = gone;
      }
]
  where
    pending_kept :
        {o : Option PermissionEntry}
        → lookup id (sweep_expired minute c now b).pending ≡ o
        → lookup id b.pending ≡ o
    pending_kept k = k
