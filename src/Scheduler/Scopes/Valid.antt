-- ===== src/Scheduler/Scopes/Valid.antt =====
-- pkg/credential/scheduler/scheduler.go: one scope, all of whose shards list its credentials.
use mathlib.Core.Path.{subst}
use caddy_agent_gateway.Base.{
  ℕ, ◌≤◌, String, ◌≡◌, refl, sym, ap, ◌∙◌, ◌⊎◌, inl, inr, true, false, List, [], ◌∷◌, Option, none,
  some, ◌==◌, nat_eq, string_eq, ℤ, lookup, insert, delete, map_values, lookup-insert,
  lookup-map_values, lookup-Member, Bool-cases, Option-cases, Member, here, there, Member-uncons,
  empty_map,
}
use caddy_agent_gateway.Scheduler.Credential.{ManagedCredential}
use caddy_agent_gateway.Scheduler.Shard.{ModelScheduler, empty_shard}
use caddy_agent_gateway.Scheduler.Shard.Pick.{empty_shard-Indexed}
use caddy_agent_gateway.Scheduler.Scopes.{
  ScopeScheduler, empty_scope, scope_upsert, scope_remove, fill_shard, ensured, put_shard,
}
use caddy_agent_gateway.Scheduler.Scopes.Entries.{
  ShardValid, ShardValid-later, ShardValid-same, ShardValid-write, upsert_entry-ShardValid,
  remove_entry-ShardValid, promote_expired-ShardValid,
}

-- Each pointer stands under the id of its credential, and each shard lists the credentials.
pub record ScopeValid (parse : String → Option ℤ) (cell : ℕ → ManagedCredential) (now : ℕ)
    (p : ScopeScheduler) : Type 0 where
  pub named : (id : String) (ref : ℕ) → Member (id, ref) p.creds → (cell ref).credential.id ≡ id
  pub shards :
      (key : String) (m : ModelScheduler)
      → lookup key p.model_shards ≡ some m
      → ShardValid parse cell now p.creds key m

pub ScopeValid-later :
    {parse : String → Option ℤ} {cell : ℕ → ManagedCredential} {now : ℕ} {p : ScopeScheduler}
    (t : ℕ)
    → now ≤ t
    → ScopeValid parse cell now p
    → ScopeValid parse cell t p
ScopeValid-later t le v = record {
  named = v.named;
  shards = λ key m h. ShardValid-later t le (v.shards key m h);
}

pub empty_scope-ScopeValid :
    {parse : String → Option ℤ} (cell : ℕ → ManagedCredential) (now : ℕ)
    → ScopeValid parse cell now empty_scope
unfolding lookup
empty_scope-ScopeValid cell now = record {
  named = λ id ref m. elim m [ ];
  shards = λ key m h. absurd cc;
}

Member-insert :
    {A : Type 0} {k q : String} {v w : A} (m : List (String × A))
    → Member (q, w) (insert k v m)
    → ((q ≡ k) × (w ≡ v)) ⊎ Member (q, w) m
unfolding insert
Member-insert [] mem = elim (Member-uncons mem) [
  | inl e ↦ inl (ap (λ x. x.0) e, ap (λ x. x.1) e)
  | inr m ↦ elim m [ ]
]
Member-insert {k = k} ((i, u) ∷ m) mem = elim (Bool-cases (i == k)) [
  | inl same ↦ elim (Member-uncons (rw same at mem)) [
    | inl e ↦ inl (ap (λ x. x.0) e, ap (λ x. x.1) e)
    | inr later ↦ inr (there later)
  ]
  | inr other ↦ elim (Member-uncons (rw other at mem)) [
    | inl e ↦ inr (rw e here)
    | inr later ↦ elim (Member-insert m later) [ inl e ↦ inl e | inr h ↦ inr (there h) ]
  ]
]

Member-delete :
    {A : Type 0} (k : String) {q : String} {w : A} (m : List (String × A))
    → Member (q, w) (delete k m)
    → Member (q, w) m
unfolding delete
Member-delete k [] mem = mem
Member-delete k ((i, u) ∷ m) mem = elim (Bool-cases (i == k)) [
  | inl same ↦ there (Member-delete k m (rw same at mem))
  | inr other ↦ elim (Member-uncons (rw other at mem)) [
    | inl e ↦ rw e here
    | inr later ↦ there (Member-delete k m later)
  ]
]

-- A mapped shard stands where the shard stood.
mapped :
    {f : ModelScheduler → ModelScheduler} (key : String) (shards : List (String × ModelScheduler))
    (m : ModelScheduler)
    → lookup key (map_values f shards) ≡ some m
    → (old : ModelScheduler) × (lookup key shards ≡ some old) × (f old ≡ m)
mapped {f} key shards m h = elim (Option-cases (lookup key shards)) [
  | inl gone ↦
      let clash : Path (Option ModelScheduler) none (some m) =
        rw gone at (sym (lookup-map_values f key shards) ∙ h) in
      absurd cc
  | inr (old, at) ↦
      let same : Path (Option ModelScheduler) (some (f old)) (some m) =
        rw at at (sym (lookup-map_values f key shards) ∙ h) in
      (old, at, cc)
]

-- The heap may change where the scope does not point, and keeps the ids.
pub ScopeValid-write :
    {parse : String → Option ℤ} {cell cell' : ℕ → ManagedCredential} {now : ℕ} {p : ScopeScheduler}
    → ((id : String) (r : ℕ) → lookup id p.creds ≡ some r → cell' r ≡ cell r)
    → ((id : String) (r : ℕ)
        → Member (id, r) p.creds
        → (cell' r).credential.id ≡ (cell r).credential.id)
    → ScopeValid parse cell now p
    → ScopeValid parse cell' now p
ScopeValid-write same ids v = record {
  named = λ id r m. ids id r m ∙ v.named id r m;
  shards = λ key m h. ShardValid-write same (v.shards key m h);
}

module _ (parse : String → Option ℤ) (cell : ℕ → ManagedCredential) where
  pub scope_remove-ScopeValid :
      {now : ℕ} {p : ScopeScheduler} (id : String)
      → ScopeValid parse cell now p
      → ScopeValid parse cell now (scope_remove parse cell id p)
  unfolding scope_remove
  scope_remove-ScopeValid {now} {p} id v = elim (Bool-cases (id == "")) [
    | inl blank ↦ rw blank v
    | inr named ↦ rw named (record {
      named = λ i ref m. v.named i ref (Member-delete id p.creds m);
      shards = λ key m h.
          let (old, at, same) = mapped key p.model_shards m h in
          subst (λ x. ShardValid parse cell now (delete id p.creds) key x) same
            (remove_entry-ShardValid parse cell id named (v.shards key old at));
    })
  ]

  fill_shard-ShardValid :
      (now : ℕ) (key : String) (creds : List (String × ℕ))
      → ((id : String) (ref : ℕ) → Member (id, ref) creds → (cell ref).credential.id ≡ id)
      → ShardValid parse cell now creds key (fill_shard parse cell now creds (empty_shard key))
  unfolding fill_shard lookup
  fill_shard-ShardValid now key [] named = record {
    model_key = refl;
    distinct = empty_map;
    lists = λ id. refl;
    free = λ id e h good. absurd cc;
    knows = λ id e h. absurd cc;
    indexed = empty_shard-Indexed key;
  }
  fill_shard-ShardValid now key ((id, ref) ∷ creds) named =
      let ih = fill_shard-ShardValid now key creds (λ i r h. named i r (there h)) in
      let is_id = named id ref here in
      ShardValid-same (λ i. rw is_id (lookup-insert id i ref creds))
        (upsert_entry-ShardValid parse cell ref (λ i r other h. refl) ih)

  pub ensured-ShardValid :
      {now : ℕ} {p : ScopeScheduler} (key : String)
      → ScopeValid parse cell now p
      → ShardValid parse cell now p.creds key (ensured parse cell key now p)
  unfolding ensured
  ensured-ShardValid {now} {p} key v = elim (Option-cases (lookup key p.model_shards)) [
    | inl gone ↦ rw (ensured, gone) (fill_shard-ShardValid now key p.creds v.named)
    | inr (m, at) ↦ rw (ensured, at) (promote_expired-ShardValid parse cell (v.shards key m at))
  ]

  pub put_shard-ScopeValid :
      {now : ℕ} {p : ScopeScheduler} (key : String) (m : ModelScheduler)
      → ScopeValid parse cell now p
      → ShardValid parse cell now p.creds key m
      → ScopeValid parse cell now (put_shard key m p)
  put_shard-ScopeValid {now} {p} key m v mv = record {
    named = v.named;
    shards = λ k m' h. elim (Bool-cases (key == k)) [
      | inl hit ↦
          let same : Path (Option ModelScheduler) (some m) (some m') =
            rw hit at (sym (lookup-insert key k m p.model_shards) ∙ h) in
          let same' : m ≡ m' = cc in
          let at_k : key ≡ k = (string_eq.beq_iff key k).0 hit in
          subst (λ x. ShardValid parse cell now p.creds x m') at_k
            (subst (λ x. ShardValid parse cell now p.creds key x) same' mv)
      | inr miss ↦ v.shards k m' (rw miss at (sym (lookup-insert key k m p.model_shards) ∙ h))
    ];
  }

  -- The heap may have changed behind `ref`, to a credential of the same id where the scope has it.
  pub scope_upsert-ScopeValid :
      {before : ℕ → ManagedCredential} {now : ℕ} {p : ScopeScheduler} (ref : ℕ)
      → ((r : ℕ) → (r == ref) ≡ false → cell r ≡ before r)
      → ((r : ℕ) → (cell r).credential.id ≡ (before r).credential.id)
      → ScopeValid parse before now p
      → ScopeValid parse cell now (scope_upsert parse cell now ref p)
  unfolding scope_upsert
  scope_upsert-ScopeValid {before} {now} {p} ref others ids v =
      let i = (cell ref).credential.id in
      record {
        named = λ id r m. elim (Member-insert p.creds m) [
          | inl (same_id, same_ref) ↦ rw (same_id, same_ref) refl
          | inr m' ↦ ids r ∙ v.named id r m'
        ];
        shards = λ key m h.
            let (old, at, same) = mapped key p.model_shards m h in
            subst (λ x. ShardValid parse cell now (insert i ref p.creds) key x) same
              (upsert_entry-ShardValid parse cell ref
                (λ id r miss listed. others r (elsewhere id r miss listed)) (v.shards key old at));
      }
    where
      elsewhere :
          (id : String) (r : ℕ)
          → ((cell ref).credential.id == id) ≡ false
          → lookup id p.creds ≡ some r
          → (r == ref) ≡ false
      elsewhere id r miss listed = elim (Bool-cases (r == ref)) [
        | inr h ↦ h
        | inl h ↦
            let same : r ≡ ref = (nat_eq.beq_iff r ref).0 h in
            let named = v.named id r (lookup-Member id r p.creds listed) in
            let is_id : (cell ref).credential.id ≡ id =
              ap (λ x. (cell x).credential.id) (sym same) ∙ ids r ∙ named in
            let hit = (string_eq.beq_iff (cell ref).credential.id id).1 is_id in
            let clash : true ≡ false = sym hit ∙ miss in absurd cc
      ]
