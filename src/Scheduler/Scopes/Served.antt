-- ===== src/Scheduler/Scopes/Served.antt =====
-- pkg/credential/scheduler/scheduler.go: the scheduler that its operations reach, and what a pick of
-- it gives.
use Prim.Native.Char.{Char}
use mathlib.Core.Path.{subst}
use caddy_agent_gateway.Base.{
  ℕ, ◌≤◌, String, ◌≡◌, refl, sym, ap, ◌∙◌, inl, inr, Bool, true, false, List, Option, none, some,
  ◌==◌, nat_eq, string_eq, ℤ, lookup, insert, lookup-insert, trim_space, to_lower, Bool-cases,
  Option-cases, IsMap, IsMap-lookup, Result, ok,
}
use caddy_agent_gateway.Scheduler.Credential.{ManagedCredential}
use caddy_agent_gateway.Scheduler.Shard.{
  ModelScheduler, PickError, Selector, promote_expired, pick_ready,
}
use caddy_agent_gateway.Scheduler.Shard.Pick.{
  Selects, fill_first-Selects, found, nothing, pick_promoted-Outcome, pick_promoted-Indexed,
  pick_promoted-entries,
}
use caddy_agent_gateway.Scheduler.Scopes.{
  ScopeScheduler, AuthScheduler, Filter, put_shard, ensured, acceptable, choose_selector, pick_in,
  pick,
}
use caddy_agent_gateway.Scheduler.Scopes.Free.{IsFree}
use caddy_agent_gateway.Scheduler.Scopes.Entries.{
  cred_of, ShardValid, ShardValid-later, promote_expired-ShardValid,
}
use caddy_agent_gateway.Scheduler.Scopes.Valid.{
  ScopeValid, ScopeValid-later, ensured-ShardValid, put_shard-ScopeValid,
}
use caddy_agent_gateway.Scheduler.Scopes.Steps.{Valid, Valid-later}

pub choose_selector-Selects :
    (fold : Char → Char) (name : String) (selector : Selector)
    → Selects selector
    → Selects (choose_selector fold name selector)
unfolding choose_selector
choose_selector-Selects fold name selector h =
    elim (Bool-cases (to_lower fold (trim_space name) == "fill_first")) [
      | inl e ↦ rw e fill_first-Selects
      | inr e ↦ rw e h
    ]

-- Picking from a shard keeps it in order, and what it gives is an entry that is not blocked.
pick_ready-ShardValid :
    (parse : String → Option ℤ) (cell : ℕ → ManagedCredential) {now : ℕ} {creds : List (String × ℕ)}
    {key : String} (m : ModelScheduler) (select : Selector) (predicate : ℕ → Bool)
    → Selects select
    → ShardValid parse cell now creds key m
    → ShardValid parse cell now creds key (pick_ready parse cell now select predicate m).1
unfolding pick_ready
pick_ready-ShardValid parse cell {now} {creds} {key} m select predicate lawful v =
    let m' = promote_expired parse cell now m in
    let v' = promote_expired-ShardValid parse cell v in
    let (entries, same_key) = pick_promoted-entries select lawful predicate m' in
    record {
      model_key = same_key ∙ v'.model_key;
      distinct = subst (λ es. IsMap es) (sym entries) v'.distinct;
      lists = λ id. ap (λ es. cred_of (lookup id es)) entries ∙ v'.lists id;
      free = λ id e h good. v'.free id e (sym (ap (λ es. lookup id es) entries) ∙ h) good;
      knows = λ id e h. v'.knows id e (sym (ap (λ es. lookup id es) entries) ∙ h);
      indexed = pick_promoted-Indexed select lawful predicate m' v'.indexed;
    }

-- A credential of the scope that matches and is not blocked.
pub record IsServed (cell : ℕ → ManagedCredential) (now : ℕ) (creds : List (String × ℕ))
    (key : String) (predicate : ℕ → Bool) (ref : ℕ) : Type 0 where
  pub id : String
  pub registered : lookup id creds ≡ some ref
  pub matches : predicate ref ≡ true
  pub free : IsFree (cell ref) key now

pick_ready-IsServed :
    (parse : String → Option ℤ) (cell : ℕ → ManagedCredential) {now : ℕ} {creds : List (String × ℕ)}
    {key : String} (m : ModelScheduler) (select : Selector) (predicate : ℕ → Bool) (ref : ℕ)
    → Selects select
    → ShardValid parse cell now creds key m
    → (pick_ready parse cell now select predicate m).0 ≡ some ref
    → IsServed cell now creds key predicate ref
unfolding pick_ready
pick_ready-IsServed parse cell {now} {creds} {key} m select predicate ref lawful v h =
    let m' = promote_expired parse cell now m in
    let v' = promote_expired-ShardValid parse cell v in
    elim (pick_promoted-Outcome select lawful predicate m' v'.indexed) [
      | nothing gone never ↦ let clash : Path (Option ℕ) none (some ref) = sym gone ∙ h in absurd cc
      | found p ref' is_ref matches r highest ↦
          let both : Path (Option ℕ) (some ref') (some ref) = sym is_ref ∙ h in
          let same : ref' ≡ ref = cc in
          let at = IsMap-lookup v'.distinct r.member in
          let listed : Path (Option ℕ) (some r.entry.cred) (lookup r.id creds) =
            rw at at (v'.lists r.id) in
          subst (λ x. IsServed cell now creds key predicate x) same
            (record {
              id = r.id;
              registered = sym listed ∙ ap some r.cred;
              matches = matches;
              free =
                  subst (λ x. IsFree (cell x) key now) r.cred
                    (v'.free r.id r.entry at r.is_ready_now);
            })
    ]

-- A scope takes the place of one with the same credentials.
pub put_scope-Valid :
    {parse : String → Option ℤ} {before cell : ℕ → ManagedCredential} {now : ℕ} {s : AuthScheduler}
    (scope : String) (p p' : ScopeScheduler)
    → lookup scope s.scope_schedulers ≡ some p
    → p'.creds ≡ p.creds
    → ScopeValid parse cell now p'
    → ((at : String) (q : ScopeScheduler)
        → (scope == at) ≡ false
        → lookup at s.scope_schedulers ≡ some q
        → ScopeValid parse cell now q)
    → Valid parse before now s
    → Valid parse cell now (record s { scope_schedulers = insert scope p' s.scope_schedulers })
put_scope-Valid {parse} {cell = cell} {now} {s} scope p p' there_is same pv rest v = record {
  scopes = λ at q h. elim (Bool-cases (scope == at)) [
    | inl hit ↦
        let is_q : Path (Option ScopeScheduler) (some p') (some q) =
          rw hit at (sym (lookup-insert scope at p' s.scope_schedulers) ∙ h) in
        let is_q' : p' ≡ q = cc in subst (λ x. ScopeValid parse cell now x) is_q' pv
    | inr miss ↦
        rest at q miss (rw miss at (sym (lookup-insert scope at p' s.scope_schedulers) ∙ h))
  ];
  placed = λ at q id ref h listed. elim (Bool-cases (scope == at)) [
    | inl hit ↦
        let is_q : Path (Option ScopeScheduler) (some p') (some q) =
          rw hit at (sym (lookup-insert scope at p' s.scope_schedulers) ∙ h) in
        let is_q' : p' ≡ q = cc in
        let is_at : scope ≡ at = (string_eq.beq_iff scope at).0 hit in
        let listed' : lookup id p.creds ≡ some ref =
          ap (λ x. lookup id x) (sym same) ∙ ap (λ x. lookup id x.creds) is_q' ∙ listed in
        subst (λ x. lookup id s.cred_scopes ≡ some x) is_at
          (v.placed scope p id ref there_is listed')
    | inr miss ↦
        v.placed at q id ref (rw miss at (sym (lookup-insert scope at p' s.scope_schedulers) ∙ h))
          listed
  ];
  recorded = v.recorded;
  lawful = v.lawful;
}

module _ (parse : String → Option ℤ) (fold : Char → Char) where
  abbrev pub predicate_of : (ℕ → ManagedCredential) → Filter → List (String × Unit {0}) → ℕ → Bool
  predicate_of cell filter tried ref = acceptable fold tried filter (cell ref)

  pub pick-Valid :
      {cell : ℕ → ManagedCredential} {t1 : ℕ} (t2 t3 : ℕ) {s : AuthScheduler} (filter : Filter)
      (tried : List (String × Unit {0}))
      → t1 ≤ t2
      → Valid parse cell t1 s
      → Valid parse cell t2 (pick parse fold cell t1 t2 t3 filter tried s).1
  unfolding pick pick_in
  pick-Valid {cell} {t1} t2 t3 {s} filter tried le v =
      elim (Bool-cases (filter.credential_scope == "")) [
        | inl blank ↦ rw blank (Valid-later t2 le v)
        | inr named ↦ elim (Option-cases (lookup filter.credential_scope s.scope_schedulers)) [
          | inl gone ↦ rw (named, gone) (Valid-later t2 le v)
          | inr (p, there_is) ↦
              let select = choose_selector fold filter.selector s.selector in
              let lawful = choose_selector-Selects fold filter.selector s.selector v.lawful in
              let pv = v.scopes filter.credential_scope p there_is in
              let shard = ensured parse cell filter.model t1 p in
              let shard_valid =
                ShardValid-later t2 le (ensured-ShardValid parse cell filter.model pv) in
              let shard' =
                (pick_ready parse cell t2 select (predicate_of cell filter tried) shard).1 in
              let after =
                pick_ready-ShardValid parse cell shard select (predicate_of cell filter tried)
                  lawful shard_valid in
              rw (named, there_is)
                (put_scope-Valid filter.credential_scope p (put_shard filter.model shard' p)
                  there_is refl
                  (put_shard-ScopeValid parse cell filter.model shard' (ScopeValid-later t2 le pv)
                    after)
                  (λ at q miss h. ScopeValid-later t2 le (v.scopes at q h)) (Valid-later t2 le v))
        ]
      ]

  pub pick-IsServed :
      {cell : ℕ → ManagedCredential} {t1 : ℕ} (t2 t3 : ℕ) {s : AuthScheduler} (filter : Filter)
      (tried : List (String × Unit {0})) (ref : ℕ)
      → t1 ≤ t2
      → Valid parse cell t1 s
      → (pick parse fold cell t1 t2 t3 filter tried s).0 ≡ ok ref
      → (p : ScopeScheduler) × (lookup filter.credential_scope s.scope_schedulers ≡ some p)
        × IsServed cell t2 p.creds filter.model (predicate_of cell filter tried) ref
  unfolding pick pick_in
  pick-IsServed {cell} {t1} t2 t3 {s} filter tried ref le v h =
      elim (Bool-cases (filter.credential_scope == "")) [
        | inl blank ↦ let refused = rw blank at h in absurd cc
        | inr named ↦ elim (Option-cases (lookup filter.credential_scope s.scope_schedulers)) [
          | inl gone ↦ let refused = rw (named, gone) at h in absurd cc
          | inr (p, there_is) ↦
              let select = choose_selector fold filter.selector s.selector in
              let lawful = choose_selector-Selects fold filter.selector s.selector v.lawful in
              let pv = v.scopes filter.credential_scope p there_is in
              let shard = ensured parse cell filter.model t1 p in
              let shard_valid =
                ShardValid-later t2 le (ensured-ShardValid parse cell filter.model pv) in
              let outcome =
                pick_ready parse cell t2 select (predicate_of cell filter tried) shard in
              let h' = rw (named, there_is) at h in
              elim (Option-cases outcome.0) [
                | inl gone ↦ let refused = rw gone at h' in absurd cc
                | inr (r, is_r) ↦
                    let good : Path (Result PickError ℕ) (ok r) (ok ref) = rw is_r at h' in
                    let same : r ≡ ref = cc in
                    let served =
                      pick_ready-IsServed parse cell shard select (predicate_of cell filter tried) r
                        lawful shard_valid is_r in
                    (
                      p,
                      there_is,
                      subst
                          (λ x.
                            IsServed cell t2 p.creds filter.model (predicate_of cell filter tried)
                              x)
                          same served,
                    )
              ]
        ]
      ]
