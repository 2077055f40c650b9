-- ===== src/Fallback/Scheduled.antt =====
-- pkg/gateway/routedprovider.go over pkg/credential/scheduler/scheduler.go: the loop with the
-- scheduler that Scheduler models.
use Prim.Native.Char.{Char}
use mathlib.Core.Path.{subst}
use caddy_agent_gateway.Base.{
  ℕ, String, ◌≡◌, refl, sym, ap, ◌∙◌, inl, inr, true, ◌||◌, List, Option, none, some, arith, ◌==◌,
  string_eq, ℤ, lookup, insert, lookup-insert, trim_space, Bool-cases, Option-cases, Member, Result,
  ok, err,
}
use caddy_agent_gateway.Scheduler.Credential.{ManagedCredential}
use caddy_agent_gateway.Scheduler.Shard.{PickError}
use caddy_agent_gateway.Scheduler.Mark.{RequestResult, mark}
use caddy_agent_gateway.Scheduler.Scopes.{
  ScopeScheduler, AuthScheduler, Filter, or_blank, pick_in, pick, mark_in, mark_scope, mark_result,
}
use caddy_agent_gateway.Scheduler.Scopes.Reached.{Reached, picked, marked}
use caddy_agent_gateway.Fallback.{Surroundings}

-- Only these credentials are registered.
abbrev pub Knows : List String → AuthScheduler → Type 0
Knows ids s =
    (scope : String) (p : ScopeScheduler) (id : String) (ref : ℕ)
    → lookup scope s.scope_schedulers ≡ some p
    → lookup id p.creds ≡ some ref
    → Member id ids

-- Each scope of `s'` has the credentials that it has in `s`.
abbrev Same : AuthScheduler → AuthScheduler → Type 0
Same s s' =
    (scope : String) (q : ScopeScheduler)
    → lookup scope s'.scope_schedulers ≡ some q
    → (p : ScopeScheduler) × (lookup scope s.scope_schedulers ≡ some p) × (q.creds ≡ p.creds)

Same-Knows : (ids : List String) (s s' : AuthScheduler) → Same s s' → Knows ids s → Knows ids s'
Same-Knows ids s s' same knows scope q id ref h listed =
    let (p, there_is, creds) = same scope q h in
    knows scope p id ref there_is (ap (λ cs. lookup id cs) (sym creds) ∙ listed)

insert-Same :
    (s : AuthScheduler) (scope : String) (p p' : ScopeScheduler)
    → lookup scope s.scope_schedulers ≡ some p
    → p'.creds ≡ p.creds
    → Same s (record s { scope_schedulers = insert scope p' s.scope_schedulers })
insert-Same s scope p p' there_is creds at q h = elim (Bool-cases (scope == at)) [
  | inl hit ↦
      let same : Path (Option ScopeScheduler) (some p') (some q) =
        rw hit at (sym (lookup-insert scope at p' s.scope_schedulers) ∙ h) in
      let same' : p' ≡ q = cc in
      let is_at : scope ≡ at = (string_eq.beq_iff scope at).0 hit in
      (
        p,
        subst (λ k. lookup k s.scope_schedulers ≡ some p) is_at there_is,
        ap (λ x. x.creds) (sym same') ∙ creds,
      )
  | inr miss ↦ (q, rw miss at (sym (lookup-insert scope at p' s.scope_schedulers) ∙ h), refl)
]

module _ (parse : String → Option ℤ) (fold : Char → Char) where
  pick-Same :
      (cell : ℕ → ManagedCredential) (t1 t2 t3 : ℕ) (filter : Filter)
      (tried : List (String × Unit {0})) (s : AuthScheduler)
      → Same s (pick parse fold cell t1 t2 t3 filter tried s).1
  unfolding pick pick_in
  pick-Same cell t1 t2 t3 filter tried s = elim (Bool-cases (filter.credential_scope == "")) [
    | inl blank ↦ rw blank (λ scope q h. (q, h, refl))
    | inr named ↦ elim (Option-cases (lookup filter.credential_scope s.scope_schedulers)) [
      | inl gone ↦ rw (named, gone) (λ scope q h. (q, h, refl))
      | inr (p, there_is) ↦
          rw (named, there_is) (insert-Same s filter.credential_scope p _ there_is refl)
    ]
  ]

  mark_in-Same :
      (cell : ℕ → ManagedCredential) (now : ℕ) (result : RequestResult) (s : AuthScheduler)
      (scope : String) (p : ScopeScheduler) (ref : ℕ)
      → lookup scope s.scope_schedulers ≡ some p
      → Same s (mark_in parse result now scope p ref (cell, s)).1
  unfolding mark_in
  mark_in-Same cell now result s scope p ref there_is =
      elim (Bool-cases (mark s.disable_quota result now (cell ref)).1) [
        | inl changed ↦ rw changed (insert-Same s scope p _ there_is refl)
        | inr same ↦ rw same (λ at q h. (q, h, refl))
      ]

  mark_result-Same :
      (cell : ℕ → ManagedCredential) (now : ℕ) (result : RequestResult) (s : AuthScheduler)
      → Same s (mark_result parse result now (cell, s)).1
  unfolding mark_result mark_scope
  mark_result-Same cell now result s =
      let id = trim_space result.credential_id in
      let scope = or_blank (lookup id s.cred_scopes) in
      elim (Bool-cases (id == "" || scope == "")) [
        | inl blank ↦ rw blank (λ at q h. (q, h, refl))
        | inr named ↦ elim (Option-cases (lookup scope s.scope_schedulers)) [
          | inl gone ↦ rw (named, gone) (λ at q h. (q, h, refl))
          | inr (p, there_is) ↦ elim (Option-cases (lookup id p.creds)) [
            | inl gone ↦ rw (named, there_is, mark_scope, gone) (λ at q h. (q, h, refl))
            | inr (ref, listed) ↦
                rw (named, there_is, mark_scope, listed)
                  (mark_in-Same cell now result s scope p ref there_is)
          ]
        ]
      ]

-- A scheduler that its operations reach, at a time, whose credentials are among `ids`.
pub record Scheduled (parse : String → Option ℤ) (fold : Char → Char) (ids : List String)
    : Type 0 where
  pub now : ℕ
  pub cell : ℕ → ManagedCredential
  pub scheduler : AuthScheduler
  pub reached : Reached parse fold now cell scheduler
  pub knows : Knows ids scheduler

module _ (parse : String → Option ℤ) (fold : Char → Char) (ids : List String) where
  credential_of : (ℕ → ManagedCredential) → Result PickError ℕ → Option ManagedCredential
  credential_of cell (ok ref) = some (cell ref)
  credential_of cell (err e) = none

  -- Pick, within one reading of the clock.
  pick_scheduled :
      Filter
      → List (String × Unit {0})
      → Scheduled parse fold ids
      → Option ManagedCredential × Scheduled parse fold ids
  unfolding credential_of
  pick_scheduled filter tried w =
      let answer = pick parse fold w.cell w.now w.now w.now filter tried w.scheduler in
      (
        credential_of w.cell answer.0,
        record {
          now = w.now;
          cell = w.cell;
          scheduler = answer.1;
          reached = picked w.now w.now filter tried (omega arith) w.reached;
          knows =
              Same-Knows ids w.scheduler answer.1
                (pick-Same parse fold w.cell w.now w.now w.now filter tried w.scheduler) w.knows;
        },
      )

  mark_scheduled : RequestResult → Scheduled parse fold ids → Scheduled parse fold ids
  mark_scheduled result w =
      let after = mark_result parse result w.now (w.cell, w.scheduler) in
      record {
        now = w.now;
        cell = after.0;
        scheduler = after.1;
        reached = marked result w.reached;
        knows =
            Same-Knows ids w.scheduler after.1
              (mark_result-Same parse fold w.cell w.now result w.scheduler) w.knows;
      }

  -- The surroundings of a request with this scheduler. What else there is may do to the scheduler
  -- whatever its operations allow, as other requests do.
  pub with_scheduler :
      {X E P : Type 0}
      → Surroundings (X × Scheduled parse fold ids) E P
      → Surroundings (X × Scheduled parse fold ids) E P
  unfolding pick_scheduled mark_scheduled
  with_scheduler env = record env {
    managed = true;
    pick = λ filter tried world.
        let answer = pick_scheduled filter tried world.1 in (answer.0, (world.0, answer.1));
    mark_result = λ result world. (world.0, mark_scheduled result world.1);
  }
