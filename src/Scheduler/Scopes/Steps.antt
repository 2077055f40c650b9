-- ===== src/Scheduler/Scopes/Steps.antt =====
-- pkg/credential/scheduler/scheduler.go: the whole scheduler, step by step. Each credential is in one
-- scope, and its shards record it as it is.
use Prim.Native.Char.{Char}
use mathlib.Core.Path.{subst}
use caddy_agent_gateway.Base.{
  ℕ, ◌≤◌, String, ◌≡◌, refl, sym, ap, ◌∙◌, ◌⊎◌, inl, inr, true, false, not, ◌&&◌, ◌||◌, List, [],
  ◌∷◌, Option, none, some, arith, if◌then◌else◌, ◌==◌, nat_eq, string_eq, ℤ, lookup, insert, delete,
  lookup-insert, lookup-delete, Bool-cases, Option-cases,
}
use caddy_agent_gateway.Scheduler.Credential.{ManagedCredential, scope_value}
use caddy_agent_gateway.Scheduler.Shard.Pick.{Selects}
use caddy_agent_gateway.Scheduler.Scopes.{
  ScopeScheduler, AuthScheduler, or_blank, scope_or_new, in_scope, scope_upsert, scope_remove,
  remove, leave, enter, upsert, upsert_all,
}
use caddy_agent_gateway.Scheduler.Scopes.Valid.{
  ScopeValid, ScopeValid-later, empty_scope-ScopeValid, scope_remove-ScopeValid,
  scope_upsert-ScopeValid,
}

-- Every scope is in order, an id stands in the scope that it is recorded for and in no other, and
-- none is recorded for the empty scope.
pub record Valid (parse : String → Option ℤ) (cell : ℕ → ManagedCredential) (now : ℕ)
    (s : AuthScheduler) : Type 0 where
  pub scopes :
      (scope : String) (p : ScopeScheduler)
      → lookup scope s.scope_schedulers ≡ some p
      → ScopeValid parse cell now p
  pub placed :
      (scope : String) (p : ScopeScheduler) (id : String) (ref : ℕ)
      → lookup scope s.scope_schedulers ≡ some p
      → lookup id p.creds ≡ some ref
      → lookup id s.cred_scopes ≡ some scope
  pub recorded : (id scope : String) → lookup id s.cred_scopes ≡ some scope → (scope == "") ≡ false
  pub lawful : Selects s.selector

pub Valid-later :
    {parse : String → Option ℤ} {cell : ℕ → ManagedCredential} {now : ℕ} {s : AuthScheduler} (t : ℕ)
    → now ≤ t
    → Valid parse cell now s
    → Valid parse cell t s
Valid-later t le v = record {
  scopes = λ scope p h. ScopeValid-later t le (v.scopes scope p h);
  placed = v.placed;
  recorded = v.recorded;
  lawful = v.lawful;
}

-- A scope after one of them has changed.
in_scope-lookup :
    (scope : String) (f : ScopeScheduler → ScopeScheduler) (s : AuthScheduler) (at : String)
    (p : ScopeScheduler)
    → lookup at (in_scope scope f s).scope_schedulers ≡ some p
    → (old : ScopeScheduler) × (lookup at s.scope_schedulers ≡ some old)
      × (((scope ≡ at) × (f old ≡ p)) ⊎ (((scope == at) ≡ false) × (old ≡ p)))
unfolding in_scope
in_scope-lookup scope f s at p h = elim (Option-cases (lookup scope s.scope_schedulers)) [
  | inl gone ↦ elim (Bool-cases (scope == at)) [
    | inl hit ↦
        let same : scope ≡ at = (string_eq.beq_iff scope at).0 hit in
        let h' : lookup at s.scope_schedulers ≡ some p = rw (in_scope, gone) at h in
        let none' : lookup at s.scope_schedulers ≡ none =
          subst (λ k. lookup k s.scope_schedulers ≡ none) same gone in
        let clash : Path (Option ScopeScheduler) none (some p) = sym none' ∙ h' in absurd cc
    | inr miss ↦ (p, rw (in_scope, gone) at h, inr (miss, refl))
  ]
  | inr (q, there_is) ↦
      let h' : lookup at (insert scope (f q) s.scope_schedulers) ≡ some p =
        rw (in_scope, there_is) at h in
      let step = sym (lookup-insert scope at (f q) s.scope_schedulers) ∙ h' in
      elim (Bool-cases (scope == at)) [
        | inl hit ↦
            let same : scope ≡ at = (string_eq.beq_iff scope at).0 hit in
            let is_p : Path (Option ScopeScheduler) (some (f q)) (some p) = rw hit at step in
            let is_p' : f q ≡ p = cc in
            (q, subst (λ k. lookup k s.scope_schedulers ≡ some q) same there_is, inl (same, is_p'))
        | inr miss ↦ (p, rw miss at step, inr (miss, refl))
      ]
]

in_scope-rest :
    (scope : String) (f : ScopeScheduler → ScopeScheduler) (s : AuthScheduler)
    → ((in_scope scope f s).cred_scopes ≡ s.cred_scopes)
      × ((in_scope scope f s).selector ≡ s.selector)
unfolding in_scope
in_scope-rest scope f s = elim (Option-cases (lookup scope s.scope_schedulers)) [
  | inl gone ↦ rw (in_scope, gone) (refl, refl)
  | inr (q, there_is) ↦ rw (in_scope, there_is) (refl, refl)
]

or_blank-some : (o : Option String) → (or_blank o == "") ≡ false → o ≡ some (or_blank o)
or_blank-some none h = absurd cc
or_blank-some (some scope) h = refl

module _ (parse : String → Option ℤ) (cell : ℕ → ManagedCredential) where
  scope_remove-creds :
      (id : String) (p : ScopeScheduler)
      → (id == "") ≡ false
      → (scope_remove parse cell id p).creds ≡ delete id p.creds
  unfolding scope_remove
  scope_remove-creds id p named = rw (scope_remove, named) refl

  -- What holds once the credential has left the scope that it is recorded for.
  record Left (now : ℕ) (id scope : String) (s : AuthScheduler) (s' : AuthScheduler) : Type 0 where
    scopes :
        (at : String) (p : ScopeScheduler)
        → lookup at s'.scope_schedulers ≡ some p
        → ScopeValid parse cell now p
    placed :
        (at : String) (p : ScopeScheduler) (i : String) (ref : ℕ)
        → lookup at s'.scope_schedulers ≡ some p
        → lookup i p.creds ≡ some ref
        → ((id == i) ≡ false) × (lookup i s.cred_scopes ≡ some at)

  in_scope-Left :
      (now : ℕ) (id scope : String) (s : AuthScheduler)
      → (id == "") ≡ false
      → lookup id s.cred_scopes ≡ some scope
      → Valid parse cell now s
      → Left now id scope s (in_scope scope (scope_remove parse cell id) s)
  in_scope-Left now id scope s named is_scope v = record {
    scopes = λ at p h.
        let (old, there_is, which) = in_scope-lookup scope (scope_remove parse cell id) s at p h in
        elim which [
          | inl (same, is_p) ↦
              subst (λ x. ScopeValid parse cell now x) is_p
                (scope_remove-ScopeValid parse cell id (v.scopes at old there_is))
          | inr (miss, is_p) ↦
              subst (λ x. ScopeValid parse cell now x) is_p (v.scopes at old there_is)
        ];
    placed = λ at p i ref h listed.
        let (old, there_is, which) = in_scope-lookup scope (scope_remove parse cell id) s at p h in
        elim which [
          | inl (same, is_p) ↦
              let creds : p.creds ≡ delete id old.creds =
                ap (λ x. x.creds) (sym is_p) ∙ scope_remove-creds id old named in
              let after : Path (Option ℕ) (if id == i then none else lookup i old.creds)
                  (some ref) =
                sym (lookup-delete id i old.creds) ∙ sym (ap (λ x. lookup i x) creds) ∙ listed in
              elim (Bool-cases (id == i)) [
                | inl hit ↦
                    let clash : Path (Option ℕ) none (some ref) = rw hit at after in absurd cc
                | inr other ↦ (other, v.placed at old i ref there_is (rw other at after))
              ]
          | inr (miss, is_p) ↦
              let listed' : lookup i old.creds ≡ some ref =
                ap (λ x. lookup i x.creds) is_p ∙ listed in
              let there = v.placed at old i ref there_is listed' in
              elim (Bool-cases (id == i)) [
                | inr other ↦ (other, there)
                | inl hit ↦
                    let same : id ≡ i = (string_eq.beq_iff id i).0 hit in
                    let there' : lookup id s.cred_scopes ≡ some at =
                      subst (λ k. lookup k s.cred_scopes ≡ some at) (sym same) there in
                    let both : Path (Option String) (some scope) (some at) =
                      sym is_scope ∙ there' in
                    let both' : scope ≡ at = cc in
                    let hit' = (string_eq.beq_iff scope at).1 both' in
                    let clash : true ≡ false = sym hit' ∙ miss in absurd cc
              ]
        ];
  }

  pub remove-Valid :
      {now : ℕ} {s : AuthScheduler} (id : String)
      → Valid parse cell now s
      → Valid parse cell now (remove parse cell id s)
  unfolding remove
  remove-Valid {now} {s} id v =
      let scope = or_blank (lookup id s.cred_scopes) in
      elim (Bool-cases (id == "" || scope == "")) [
        | inl blank ↦ rw blank v
        | inr named ↦
            let is_scope = or_blank-some (lookup id s.cred_scopes) (ground arith) in
            let left = in_scope-Left now id scope s (ground arith) is_scope v in
            let (same, selector) = in_scope-rest scope (scope_remove parse cell id) s in
            rw named (record {
              scopes = left.scopes;
              placed = λ at p i ref h listed.
                  let (other, there) = left.placed at p i ref h listed in
                  rw (same, lookup-delete id i s.cred_scopes, other) there;
              recorded = λ i at h.
                  let old : Path (Option String) (if id == i then none else lookup i s.cred_scopes)
                      (some at) =
                    sym (lookup-delete id i s.cred_scopes) ∙ rw same at h in
                  elim (Bool-cases (id == i)) [
                    | inl hit ↦
                        let clash : Path (Option String) none (some at) = rw hit at old in absurd cc
                    | inr other ↦ v.recorded i at (rw other at old)
                  ];
              lawful = subst Selects (sym selector) v.lawful;
            })
      ]

  -- After leaving, the credential is at most in the scope that it is about to enter.
  record Leaves (now : ℕ) (id scope : String) (s : AuthScheduler) : Type 0 where
    valid : Valid parse cell now s
    elsewhere :
        (at : String) (p : ScopeScheduler) (ref : ℕ)
        → lookup at s.scope_schedulers ≡ some p
        → lookup id p.creds ≡ some ref
        → at ≡ scope

  leave-Leaves :
      {now : ℕ} {s : AuthScheduler} (id scope : String)
      → (id == "") ≡ false
      → Valid parse cell now s
      → Leaves now id scope (leave parse cell id scope s)
  unfolding leave
  leave-Leaves {now} {s} id scope named v =
      let prev = or_blank (lookup id s.cred_scopes) in
      elim (Bool-cases (not (prev == "") && not (prev == scope))) [
        | inl moves ↦
            let is_prev = or_blank-some (lookup id s.cred_scopes) (ground arith) in
            let left = in_scope-Left now id prev s named is_prev v in
            let (same, selector) = in_scope-rest prev (scope_remove parse cell id) s in
            rw moves (record {
              valid = record {
                scopes = left.scopes;
                placed = λ at p i ref h listed. rw same (left.placed at p i ref h listed).1;
                recorded = λ i at h. v.recorded i at (rw same at h);
                lawful = subst Selects (sym selector) v.lawful;
              };
              elsewhere = λ at p ref h listed.
                  let (other, there) = left.placed at p id ref h listed in
                  let hit = (string_eq.beq_iff id id).1 refl in
                  let clash : true ≡ false = sym hit ∙ other in absurd cc;
            })
        | inr stays ↦ rw stays (record {
          valid = v;
          elsewhere = λ at p ref h listed.
              let there = v.placed at p id ref h listed in
              let is_prev : prev ≡ at = ap or_blank there in
              let named_at = v.recorded id at there in
              let stays' : (not (at == "") && not (at == scope)) ≡ false = rw is_prev at stays in
              (string_eq.beq_iff at scope).0 (ground arith);
        })
      ]

  scope_or_new-ScopeValid :
      (t : ℕ) (o : Option ScopeScheduler)
      → ((p : ScopeScheduler) → o ≡ some p → ScopeValid parse cell t p)
      → ScopeValid parse cell t (scope_or_new o)
  scope_or_new-ScopeValid t none h = empty_scope-ScopeValid cell t
  scope_or_new-ScopeValid t (some p) h = h p refl

  old-placed :
      {now : ℕ} {s : AuthScheduler} (v : Valid parse cell now s) (scope i : String) (r : ℕ)
      (o : Option ScopeScheduler)
      → lookup scope s.scope_schedulers ≡ o
      → lookup i (scope_or_new o).creds ≡ some r
      → lookup i s.cred_scopes ≡ some scope
  unfolding lookup
  old-placed v scope i r none e h = absurd cc
  old-placed v scope i r (some p) e h = v.placed scope p i r e h

  enter-Valid :
      {now : ℕ} {s : AuthScheduler} (ref : ℕ) (scope : String)
      → (scope == "") ≡ false
      → Leaves now (cell ref).credential.id scope s
      → Valid parse cell now (enter parse cell now ref scope s)
  unfolding enter scope_upsert
  enter-Valid {now} {s} ref scope named l =
      let v = l.valid in
      let id = (cell ref).credential.id in
      let old = scope_or_new (lookup scope s.scope_schedulers) in
      let new = scope_upsert parse cell now ref old in
      let old_valid =
        scope_or_new-ScopeValid now (lookup scope s.scope_schedulers) (λ p h. v.scopes scope p h) in
      let new_valid = scope_upsert-ScopeValid parse cell ref (λ r ne. refl) (λ r. refl) old_valid in
      record {
        scopes = λ at p h. elim (Bool-cases (scope == at)) [
          | inl hit ↦
              let same : Path (Option ScopeScheduler) (some new) (some p) =
                rw hit at (sym (lookup-insert scope at new s.scope_schedulers) ∙ h) in
              let same' : new ≡ p = cc in subst (λ x. ScopeValid parse cell now x) same' new_valid
          | inr miss ↦
              v.scopes at p (rw miss at (sym (lookup-insert scope at new s.scope_schedulers) ∙ h))
        ];
        placed = λ at p i r h listed. elim (Bool-cases (scope == at)) [
          | inl hit ↦
              let same : Path (Option ScopeScheduler) (some new) (some p) =
                rw hit at (sym (lookup-insert scope at new s.scope_schedulers) ∙ h) in
              let same' : new ≡ p = cc in
              let at_scope : scope ≡ at = (string_eq.beq_iff scope at).0 hit in
              let listed' : lookup i new.creds ≡ some r =
                ap (λ x. lookup i x.creds) same' ∙ listed in
              let step = sym (lookup-insert id i ref old.creds) ∙ listed' in
              elim (Bool-cases (id == i)) [
                | inl is_id ↦ rw (lookup-insert id i scope s.cred_scopes, is_id, at_scope) refl
                | inr other ↦
                    let there =
                      old-placed v scope i r (lookup scope s.scope_schedulers) refl
                        (rw other at step) in
                    rw (lookup-insert id i scope s.cred_scopes, other, ← at_scope) there
              ]
          | inr miss ↦
              let h' : lookup at s.scope_schedulers ≡ some p =
                rw miss at (sym (lookup-insert scope at new s.scope_schedulers) ∙ h) in
              elim (Bool-cases (id == i)) [
                | inl is_id ↦
                    let same : id ≡ i = (string_eq.beq_iff id i).0 is_id in
                    let here =
                      l.elsewhere at p r h'
                        (subst (λ k. lookup k p.creds ≡ some r) (sym same) listed) in
                    let hit = (string_eq.beq_iff scope at).1 (sym here) in
                    let clash : true ≡ false = sym hit ∙ miss in absurd cc
                | inr other ↦
                    rw (lookup-insert id i scope s.cred_scopes, other) (v.placed at p i r h' listed)
              ]
        ];
        recorded = λ i at h.
            let step = sym (lookup-insert id i scope s.cred_scopes) ∙ h in
            elim (Bool-cases (id == i)) [
              | inl is_id ↦
                  let same : Path (Option String) (some scope) (some at) = rw is_id at step in
                  let same' : scope ≡ at = cc in subst (λ k. (k == "") ≡ false) same' named
              | inr other ↦ v.recorded i at (rw other at step)
            ];
        lawful = v.lawful;
      }

module _ (parse : String → Option ℤ) (fold : Char → Char) (cell : ℕ → ManagedCredential) where
  pub upsert-Valid :
      {now : ℕ} {s : AuthScheduler} (ref : ℕ)
      → Valid parse cell now s
      → Valid parse cell now (upsert parse fold cell now ref s)
  unfolding upsert
  upsert-Valid {now} {s} ref v =
      let id = (cell ref).credential.id in
      let scope = scope_value fold (cell ref).credential in
      elim (Bool-cases (scope == "")) [
        | inl blank ↦ rw blank v
        | inr named ↦ elim (Bool-cases (id == "" || (cell ref).credential.disabled)) [
          | inl gone ↦ rw (named, gone) (remove-Valid parse cell id v)
          | inr stays ↦
              rw (named, stays)
                (enter-Valid parse cell ref scope named
                  (leave-Leaves parse cell id scope (ground arith) v))
        ]
      ]

  pub upsert_all-Valid :
      {now : ℕ} (refs : List ℕ) {s : AuthScheduler}
      → Valid parse cell now s
      → Valid parse cell now (upsert_all parse fold cell now refs s)
  unfolding upsert_all
  upsert_all-Valid [] v = v
  upsert_all-Valid (ref ∷ refs) v = upsert_all-Valid refs (upsert-Valid ref v)
