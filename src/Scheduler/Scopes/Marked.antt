-- ===== src/Scheduler/Scopes/Marked.antt =====
-- pkg/credential/scheduler/scheduler.go: the result of a request keeps the scheduler in order.
use mathlib.Core.Path.{subst}
use caddy_agent_gateway.Base.{
  ℕ, String, ◌≡◌, refl, sym, ap, ◌∙◌, inl, inr, true, false, ◌||◌, Option, some, ◌==◌, nat_eq,
  string_eq, ℤ, lookup, insert, map_values, insert-same, lookup-Member, trim_space, Bool-cases,
  Option-cases,
}
use caddy_agent_gateway.Scheduler.Credential.{ManagedCredential}
use caddy_agent_gateway.Scheduler.Shard.{upsert_entry}
use caddy_agent_gateway.Scheduler.Mark.{RequestResult, mark}
use caddy_agent_gateway.Scheduler.Mark.Kept.{mark-credential}
use caddy_agent_gateway.Scheduler.Scopes.{
  ScopeScheduler, AuthScheduler, or_blank, write, scope_upsert, mark_in, mark_scope, mark_result,
}
use caddy_agent_gateway.Scheduler.Scopes.Valid.{
  ScopeValid, ScopeValid-write, scope_upsert-ScopeValid,
}
use caddy_agent_gateway.Scheduler.Scopes.Steps.{Valid}
use caddy_agent_gateway.Scheduler.Scopes.Served.{put_scope-Valid}

module _ (parse : String → Option ℤ) where
  write-other :
      (cell : ℕ → ManagedCredential) (ref : ℕ) (cred : ManagedCredential) (r : ℕ)
      → (r == ref) ≡ false
      → write ref cred cell r ≡ cell r
  write-other cell ref cred r miss = rw miss refl

  write-id :
      (cell : ℕ → ManagedCredential) (ref : ℕ) (cred : ManagedCredential)
      → cred.credential.id ≡ (cell ref).credential.id
      → (r : ℕ) → (write ref cred cell r).credential.id ≡ (cell r).credential.id
  write-id cell ref cred same r = elim (Bool-cases (r == ref)) [
    | inr miss ↦ rw miss refl
    | inl hit ↦ let is_ref : r ≡ ref = (nat_eq.beq_iff r ref).0 hit in rw (hit, is_ref) same
  ]

  -- A pointer that one scope holds is in no other scope.
  elsewhere :
      {cell : ℕ → ManagedCredential} {now : ℕ} {s : AuthScheduler} (v : Valid parse cell now s)
      (scope id : String) (p : ScopeScheduler) (ref : ℕ)
      → lookup scope s.scope_schedulers ≡ some p
      → lookup id p.creds ≡ some ref
      → (at : String) (q : ScopeScheduler) (i : String) (r : ℕ) → (scope == at) ≡ false
      → lookup at s.scope_schedulers ≡ some q
      → lookup i q.creds ≡ some r
      → (r == ref) ≡ false
  elsewhere {cell} {now} {s} v scope id p ref there_is listed at q i r miss h stored =
      elim (Bool-cases (r == ref)) [
        | inr other ↦ other
        | inl hit ↦
            let is_ref : r ≡ ref = (nat_eq.beq_iff r ref).0 hit in
            let named =
              (v.scopes scope p there_is).named id ref (lookup-Member id ref p.creds listed) in
            let named' = (v.scopes at q h).named i r (lookup-Member i r q.creds stored) in
            let same_id : id ≡ i =
              sym named ∙ ap (λ x. (cell x).credential.id) (sym is_ref) ∙ named' in
            let here : lookup i s.cred_scopes ≡ some scope =
              subst (λ x. lookup x s.cred_scopes ≡ some scope) same_id
                (v.placed scope p id ref there_is listed) in
            let both : Path (Option String) (some scope) (some at) =
              sym here ∙ v.placed at q i r h stored in
            let same : scope ≡ at = cc in
            let clash : true ≡ false = sym ((string_eq.beq_iff scope at).1 same) ∙ miss in absurd cc
      ]

  mark_in-Valid :
      {cell : ℕ → ManagedCredential} {now : ℕ} {s : AuthScheduler} (result : RequestResult)
      (scope id : String) (p : ScopeScheduler) (ref : ℕ)
      → lookup scope s.scope_schedulers ≡ some p
      → lookup id p.creds ≡ some ref
      → Valid parse cell now s
      → let after = mark_in parse result now scope p ref (cell, s) in
        Valid parse after.0 now after.1
  unfolding mark_in scope_upsert
  mark_in-Valid {cell} {now} {s} result scope id p ref there_is listed v =
      let marked = mark s.disable_quota result now (cell ref) in
      elim (Bool-cases marked.1) [
        | inr same ↦ rw same v
        | inl changed ↦
            let cell' = write ref marked.0 cell in
            let ids =
              write-id cell ref marked.0
                (ap (λ c. c.id) (mark-credential s.disable_quota result now (cell ref))) in
            let others = write-other cell ref marked.0 in
            let pv = v.scopes scope p there_is in
            let named = pv.named id ref (lookup-Member id ref p.creds listed) in
            let named' : (cell' ref).credential.id ≡ id = ids ref ∙ named in
            let same_creds : insert (cell' ref).credential.id ref p.creds ≡ p.creds =
              ap (λ i. insert i ref p.creds) named' ∙ insert-same id ref p.creds listed in
            let shards = map_values (upsert_entry parse cell' now ref) p.model_shards in
            let pv' : ScopeValid parse cell' now
                (record { creds = p.creds; model_shards = shards }) =
              subst
                (λ cs. ScopeValid parse cell' now (record { creds = cs; model_shards = shards }))
                same_creds (scope_upsert-ScopeValid parse cell' ref others ids pv) in
            rw changed (
              put_scope-Valid scope p (record { creds = p.creds; model_shards = shards }) there_is
                refl pv'
                (λ at q miss h.
                  ScopeValid-write
                    (λ i r stored.
                      others r (elsewhere v scope id p ref there_is listed at q i r miss h stored))
                    (λ i r m. ids r) (v.scopes at q h))
                v)
      ]

  pub mark_result-Valid :
      {cell : ℕ → ManagedCredential} {now : ℕ} {s : AuthScheduler} (result : RequestResult)
      → Valid parse cell now s
      → let after = mark_result parse result now (cell, s) in Valid parse after.0 now after.1
  unfolding mark_result mark_scope
  mark_result-Valid {cell} {now} {s} result v =
      let id = trim_space result.credential_id in
      let scope = or_blank (lookup id s.cred_scopes) in
      elim (Bool-cases (id == "" || scope == "")) [
        | inl blank ↦ rw blank v
        | inr named ↦ elim (Option-cases (lookup scope s.scope_schedulers)) [
          | inl gone ↦ rw (named, gone) v
          | inr (p, there_is) ↦ elim (Option-cases (lookup id p.creds)) [
            | inl gone ↦ rw (named, there_is, mark_scope, gone) v
            | inr (ref, listed) ↦
                rw (named, there_is, mark_scope, listed)
                  (mark_in-Valid result scope id p ref there_is listed v)
          ]
        ]
      ]
