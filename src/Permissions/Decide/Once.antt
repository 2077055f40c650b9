-- ===== src/Permissions/Decide/Once.antt =====
-- pkg/agent/runtime/permissions.go: a request is claimed at most once, whatever the order of the calls.
use caddy_agent_gateway.Base.{
  ℕ, String, ◌≡◌, refl, sym, ap, ◌∙◌, inl, inr, Bool, true, false, not, ◌||◌, List, Option, none,
  some, arith, ltb, leb, ◌==◌, string_eq, lookup, insert, delete, lookup-insert, lookup-delete,
  is_some, trim_space, Bool-cases, Option-cases, Result, ok, err, ◌>>=◌, ◌>>◌, reject_if,
  ok-injective,
}
use caddy_agent_gateway.Identity.{valid_run_id}
use caddy_agent_gateway.Permissions.{
  PendingPermission, PermissionDecision, PermissionEntry, PermissionError, permission_not_found,
  permission_expired, invalid_request, backend_unavailable, Continuations, PermissionBroker,
  sweep_expired, with_defaults, with_id, registered, chosen_id, register_valid, register,
  lookup_permission, audit, take, mark_expired, owned, missing_error, refusal, claim_due,
  claim_live, claim_found, claim,
}
use caddy_agent_gateway.Permissions.Laws.{claim-Claims}
use caddy_agent_gateway.Permissions.Decide.{take_matching}
use caddy_agent_gateway.Permissions.Decide.Laws.{take_matching-pending}

module _ (minute : ℕ) (c : Continuations) where
  open c use {Resolver}

  -- One critical section of the code, or one call of it that only audits.
  pub data Step : PermissionBroker minute c → PermissionBroker minute c → Type 0 where
    registers :
        (now : ℕ) (b : PermissionBroker minute c) (fresh : Option String) (info : PendingPermission)
        (token : String) (resolver : Option Resolver) (request_id : String)
        (after : PermissionBroker minute c)
        → register minute c now b fresh info token resolver ≡ ok (request_id, after)
        → Step b after
    looks_up :
        (now : ℕ) (b : PermissionBroker minute c) (request_id : String)
        → Step b (lookup_permission minute c now b request_id).1
    claims :
        (now : ℕ) (b : PermissionBroker minute c) (agent_id request_id : String) (expiry : Bool)
        (decision : Option PermissionDecision)
        → Step b (claim minute c now b agent_id request_id expiry decision).1
    audits :
        (now : ℕ) (agent_id request_id source result : String) (b : PermissionBroker minute c)
        → Step b (audit minute c now agent_id request_id source result b)
    takes :
        (matches : PermissionEntry → Bool) (expiry : Bool) (now : ℕ) (b : PermissionBroker minute c)
        → Step b (take_matching minute c matches expiry now b.pending b).1
    closes : (b : PermissionBroker minute c) → Step b (record b { closed = true })

  -- A step does not register the request.
  abbrev pub Spares : String → {b b' : PermissionBroker minute c} → Step b b' → Type 0
  Spares id (registers now b fresh info token resolver request_id after h) =
      (request_id == id) ≡ false
  Spares id (looks_up now b request_id) = Unit {0}
  Spares id (claims now b agent_id request_id expiry decision) = Unit {0}
  Spares id (audits now agent_id request_id source result b) = Unit {0}
  Spares id (takes matches expiry now b) = Unit {0}
  Spares id (closes b) = Unit {0}

  -- Steps in any order and at any times, none of which registers the request.
  pub data Sparing (id : String)
      : PermissionBroker minute c → PermissionBroker minute c → Type 0 where
    done : {b : PermissionBroker minute c} → Sparing id b b
    next :
        {b b' b'' : PermissionBroker minute c} (step : Step b b')
        → Spares id step
        → Sparing id b' b''
        → Sparing id b b''

  abbrev IsGone : String → PermissionBroker minute c → Type 0
  IsGone id b = lookup id b.pending ≡ none

  -- What a registration leaves pending besides the new request.
  register_valid-pending :
      (now : ℕ) (b : PermissionBroker minute c) (fresh : Option String) (info : PendingPermission)
      (token : String) (resolver : Resolver) (request_id : String)
      (after : PermissionBroker minute c)
      → register_valid minute c now b fresh info token resolver ≡ ok (request_id, after)
      → (e : PermissionEntry) × (after.pending ≡ insert request_id e b.pending)
  unfolding register_valid registered with_id sweep_expired
  register_valid-pending now b fresh info token resolver request_id after h =
      on (not (ltb now info.expires_at)) (chosen_id minute c (trim_space info.request_id) fresh)
        b.closed h
    where
      on :
          (late : Bool) (chosen : Result PermissionError String) (closed : Bool)
          → Path
              (Result PermissionError (String × PermissionBroker minute c))
              (reject_if late permission_expired
                >> (chosen >>= λ rid.
                    reject_if closed backend_unavailable
                    >> (reject_if (is_some (lookup rid b.pending)) invalid_request
                        >> ok (
                          rid,
                          registered minute c
                              (sweep_expired minute c now b)
                              (with_id minute c rid info)
                              token
                              resolver,
                        ))))
              (ok (request_id, after))
          → (e : PermissionEntry) × (after.pending ≡ insert request_id e b.pending)
      on true chosen closed k = absurd cc
      on false (err x) closed k = absurd cc
      on false (ok rid) true k = absurd cc
      on false (ok rid) false k = elim (Bool-cases (is_some (lookup rid b.pending))) [
        | inl taken ↦ let k' = rw taken at k in absurd cc
        | inr new ↦
            let same = ok-injective (rw new at k) in
            let is_id : rid ≡ request_id = ap (λ p. p.0) same in
            let e : PermissionEntry = record {
              info = with_id minute c rid info;
              token = trim_space token;
            } in
            (e, sym (ap (λ p. p.1.pending) same) ∙ ap (λ r. insert r e b.pending) is_id)
      ]

  register-pending :
      (now : ℕ) (b : PermissionBroker minute c) (fresh : Option String) (info : PendingPermission)
      (token : String) (resolver : Option Resolver) (request_id : String)
      (after : PermissionBroker minute c)
      → register minute c now b fresh info token resolver ≡ ok (request_id, after)
      → (e : PermissionEntry) × (after.pending ≡ insert request_id e b.pending)
  unfolding register
  register-pending now b fresh info token none request_id after h = absurd cc
  register-pending now b fresh info token (some resolver) request_id after h =
      elim (Bool-cases (
        trim_space token == ""
        || trim_space info.agent_id == ""
        || trim_space info.runtime_type == ""
        || not (valid_run_id (trim_space info.run_id)))) [
          | inl bad ↦ let h' = rw bad at h in absurd cc
          | inr good ↦
              register_valid-pending now b fresh (with_defaults minute c now info) token resolver
                request_id after (rw good at h)
        ]

  gone_deleted :
      (id i : String) (m : List (String × PermissionEntry))
      → lookup id m ≡ none
      → lookup id (delete i m) ≡ none
  gone_deleted id i m gone = ground (arith, lookup-delete i id m)

  claim_live-IsGone :
      (id : String) (now : ℕ) (i : String) (expiry : Bool) (e : PermissionEntry)
      (b : PermissionBroker minute c) (reason : Option PermissionError)
      → IsGone id b
      → IsGone id (claim_live minute c now i expiry e b reason).1
  unfolding claim_live take mark_expired
  claim_live-IsGone id now i expiry e b (some r) gone = gone
  claim_live-IsGone id now i true e b none gone = gone_deleted id i b.pending gone
  claim_live-IsGone id now i false e b none gone = gone_deleted id i b.pending gone

  claim_found-IsGone :
      (id : String) (now : ℕ) (agent_id i : String) (expiry : Bool)
      (decision : Option PermissionDecision) (b : PermissionBroker minute c)
      (found : Option PermissionEntry)
      → IsGone id b
      → IsGone id (claim_found minute c now agent_id i expiry decision b found).1
  unfolding claim_found claim_due take mark_expired audit
  claim_found-IsGone id now agent_id i expiry decision b none gone = gone
  claim_found-IsGone id now agent_id i expiry decision b (some e) gone =
      elim (Bool-cases (leb e.info.expires_at now)) [
        | inl due ↦ rw due (gone_deleted id i b.pending gone)
        | inr live ↦
            rw live (claim_live-IsGone id now i expiry e b (refusal minute c b e decision) gone)
      ]

  claim-IsGone :
      (id : String) (now : ℕ) (b : PermissionBroker minute c) (agent_id i : String) (expiry : Bool)
      (decision : Option PermissionDecision)
      → IsGone id b
      → IsGone id (claim minute c now b agent_id i expiry decision).1
  unfolding claim sweep_expired
  claim-IsGone id now b agent_id i expiry decision gone = elim (Bool-cases (i == "")) [
    | inl blank ↦ rw blank gone
    | inr named ↦ rw named (
        claim_found-IsGone id now agent_id i expiry decision (sweep_expired minute c now b)
          (owned minute c agent_id (lookup i b.pending)) gone)
  ]

  takes-IsGone :
      (id : String) (matches : PermissionEntry → Bool) (expiry : Bool) (now : ℕ)
      (b : PermissionBroker minute c)
      → IsGone id b
      → IsGone id (take_matching minute c matches expiry now b.pending b).1
  takes-IsGone id matches expiry now b gone =
      let after = (take_matching minute c matches expiry now b.pending b).1 in
      elim (Option-cases (lookup id after.pending)) [
        | inl h ↦ h
        | inr (x, h) ↦
            let was = take_matching-pending minute c matches expiry now b.pending b id x h in
            let clash : Path (Option PermissionEntry) none (some x) = sym gone ∙ was in absurd cc
      ]

  looks_up-IsGone :
      (id : String) (now : ℕ) (b : PermissionBroker minute c) (i : String)
      → IsGone id b
      → IsGone id (lookup_permission minute c now b i).1
  unfolding lookup_permission sweep_expired
  looks_up-IsGone id now b i gone = elim (Bool-cases (trim_space i == "")) [
    | inl blank ↦ rw blank gone
    | inr named ↦ rw named gone
  ]

  Step-IsGone :
      (id : String) {b b' : PermissionBroker minute c} (step : Step b b')
      → Spares id step
      → IsGone id b
      → IsGone id b'
  unfolding audit
  Step-IsGone id (registers now b fresh info token resolver rid after h) spares gone =
      let (e, added) = register-pending now b fresh info token resolver rid after h in
      rw (added, lookup-insert rid id e b.pending, spares) gone
  Step-IsGone id (looks_up now b i) spares gone = looks_up-IsGone id now b i gone
  Step-IsGone id (claims now b a i expiry decision) spares gone =
      claim-IsGone id now b a i expiry decision gone
  Step-IsGone id (audits now a i source result b) spares gone = gone
  Step-IsGone id (takes matches expiry now b) spares gone =
      takes-IsGone id matches expiry now b gone
  Step-IsGone id (closes b) spares gone = gone

  Sparing-IsGone :
      (id : String) {b b' : PermissionBroker minute c}
      → Sparing id b b'
      → IsGone id b
      → IsGone id b'
  Sparing-IsGone id done gone = gone
  Sparing-IsGone id (next step spares rest) gone =
      Sparing-IsGone id rest (Step-IsGone id step spares gone)

  claim-refused :
      (later : ℕ) (b : PermissionBroker minute c) (agent_id id : String) (expiry : Bool)
      (decision : Option PermissionDecision)
      → IsGone id b
      → (x : PermissionError) × ((claim minute c later b agent_id id expiry decision).0 ≡ err x)
  unfolding claim claim_found owned sweep_expired
  claim-refused later b agent_id id expiry decision gone = elim (Bool-cases (id == "")) [
    | inl blank ↦ (permission_not_found, rw blank refl)
    | inr named ↦ (
      missing_error minute c agent_id (lookup id (sweep_expired minute c later b).expired),
      rw (named, gone) refl,
    )
  ]

-- A request is claimed at most once. Behind a successful claim of it and whatever follows in any
-- order and at any times, but for a registration of the same request, each claim of it is refused,
-- whoever makes it, whether to decide or to expire it.
pub claim-once :
    (minute : ℕ) (c : Continuations) (now : ℕ) (b : PermissionBroker minute c)
    (agent_id id : String) (expiry : Bool) (decision : Option PermissionDecision)
    (e : PermissionEntry) (b' after : PermissionBroker minute c)
    → claim minute c now b agent_id id expiry decision ≡ (ok e, b')
    → Sparing minute c id b' after
    → (later : ℕ) (agent_id' : String) (expiry' : Bool) (decision' : Option PermissionDecision)
    → (x : PermissionError) × ((claim minute c later after agent_id' id expiry' decision').0
        ≡ err x)
claim-once minute c now b agent_id id expiry decision e b' after h steps later agent_id' x d =
    claim-refused minute c later after agent_id' id x d (
      Sparing-IsGone minute c id steps
        ((claim-Claims minute c now b agent_id id expiry decision e b' h).taken))
