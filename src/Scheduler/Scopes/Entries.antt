-- ===== src/Scheduler/Scopes/Entries.antt =====
-- pkg/credential/scheduler/scheduler.go: one shard of a scope. It lists the scope's credentials, and
-- an entry is ready only while its credential is not blocked.
use mathlib.Core.Path.{subst}
use caddy_agent_gateway.Base.{
  ℕ, ◌≤◌, String, ◌≡◌, refl, sym, ap, ◌∙◌, inl, inr, Bool, true, false, List, [], ◌∷◌, Option, none,
  some, arith, if◌then◌else◌, ◌==◌, nat_eq, string_eq, ℤ, lookup, insert, delete, lookup-insert,
  lookup-delete, Bool-cases, Option-cases, IsMap, insert-IsMap, delete-IsMap,
}
use caddy_agent_gateway.Scheduler.Credential.{ManagedCredential}
use caddy_agent_gateway.Scheduler.Selector.{Block, is_credential_blocked_for_model}
use caddy_agent_gateway.Scheduler.Shard.{
  ready, state_eq, ScheduledCred, ModelScheduler, is_ready, is_due, rebuild_indexes, state_of,
  scheduled, unchanged, upsert_entry, remove_found, remove_entry, promote, promote_found,
  promote_loop, promote_expired,
}
use caddy_agent_gateway.Scheduler.Shard.Index.{Indexed, rebuild_indexes-Indexed}
use caddy_agent_gateway.Scheduler.Shard.Laws.{upsert_entry-Indexed, remove_entry-Indexed}
use caddy_agent_gateway.Scheduler.Scopes.Free.{IsFree, IsFree-later}
use caddy_agent_gateway.Scheduler.Scopes.Known.{Knows, Knows-later, scheduled-Knows, promote-Knows}

-- What the shard has for an id.
abbrev pub cred_of : Option ScheduledCred → Option ℕ
cred_of none = none
cred_of (some e) = some e.cred

pub record ShardValid (parse : String → Option ℤ) (cell : ℕ → ManagedCredential) (now : ℕ)
    (creds : List (String × ℕ)) (key : String) (m : ModelScheduler) : Type 0 where
  pub model_key : m.model_key ≡ key
  pub distinct : IsMap m.entries
  pub lists : (id : String) → cred_of (lookup id m.entries) ≡ lookup id creds
  pub free :
      (id : String) (e : ScheduledCred)
      → lookup id m.entries ≡ some e
      → is_ready e ≡ true
      → IsFree (cell e.cred) key now
  pub knows :
      (id : String) (e : ScheduledCred)
      → lookup id m.entries ≡ some e
      → Knows parse (cell e.cred) key now e
  pub indexed : Indexed m

pub ShardValid-later :
    {parse : String → Option ℤ} {cell : ℕ → ManagedCredential} {now : ℕ} {creds : List (String × ℕ)}
    {key : String} {m : ModelScheduler} (t : ℕ)
    → now ≤ t
    → ShardValid parse cell now creds key m
    → ShardValid parse cell t creds key m
ShardValid-later {cell} {now} {creds} {key} {m} t le v = record {
  model_key = v.model_key;
  distinct = v.distinct;
  lists = v.lists;
  free = λ id e h good. IsFree-later (cell e.cred) key now t le (v.free id e h good);
  knows = λ id e h. Knows-later t le (v.knows id e h);
  indexed = v.indexed;
}

pub ShardValid-same :
    {parse : String → Option ℤ} {cell : ℕ → ManagedCredential} {now : ℕ}
    {creds creds' : List (String × ℕ)} {key : String} {m : ModelScheduler}
    → ((id : String) → lookup id creds ≡ lookup id creds')
    → ShardValid parse cell now creds key m
    → ShardValid parse cell now creds' key m
ShardValid-same same v = record {
  model_key = v.model_key;
  distinct = v.distinct;
  lists = λ id. v.lists id ∙ same id;
  free = v.free;
  knows = v.knows;
  indexed = v.indexed;
}

pub ShardValid-write :
    {parse : String → Option ℤ} {cell cell' : ℕ → ManagedCredential} {now : ℕ}
    {creds : List (String × ℕ)} {key : String} {m : ModelScheduler}
    → ((id : String) (r : ℕ) → lookup id creds ≡ some r → cell' r ≡ cell r)
    → ShardValid parse cell now creds key m
    → ShardValid parse cell' now creds key m
ShardValid-write {creds = creds} same v = record {
  model_key = v.model_key;
  distinct = v.distinct;
  lists = v.lists;
  free = λ id e h good.
      let listed : Path (Option ℕ) (some e.cred) (lookup id creds) = rw h at (v.lists id) in
      rw (same id e.cred (sym listed)) (v.free id e h good);
  knows = λ id e h.
      let listed : Path (Option ℕ) (some e.cred) (lookup id creds) = rw h at (v.lists id) in
      rw (same id e.cred (sym listed)) (v.knows id e h);
  indexed = v.indexed;
}

module _ (parse : String → Option ℤ) (cell : ℕ → ManagedCredential) where
  state_of-ready : (b : Block) → state_eq (state_of parse cell b).0 ready ≡ true → b.blocked ≡ false
  unfolding state_of state_eq
  state_of-ready b h = ground arith

  upsert_entry-entries :
      (now ref : ℕ) (m : ModelScheduler)
      → ((upsert_entry parse cell now ref m).entries
          ≡ insert (cell ref).credential.id (scheduled parse cell m.model_key now ref) m.entries)
        × ((upsert_entry parse cell now ref m).model_key ≡ m.model_key)
  unfolding upsert_entry rebuild_indexes
  upsert_entry-entries now ref m =
      elim (Bool-cases (
        unchanged parse cell (lookup (cell ref).credential.id m.entries)
          (scheduled parse cell m.model_key now ref))) [
            | inl e ↦ rw e (refl, refl)
            | inr e ↦ rw e (refl, refl)
          ]

  scheduled-free :
      (key : String) (now ref : ℕ)
      → is_ready (scheduled parse cell key now ref) ≡ true
      → IsFree (cell ref) key now
  unfolding scheduled
  scheduled-free key now ref h =
      state_of-ready (is_credential_blocked_for_model (cell ref) key now) h

  -- The heap may change behind `ref`, which only the entry of its id points to.
  pub upsert_entry-ShardValid :
      {before : ℕ → ManagedCredential} {now : ℕ} {creds : List (String × ℕ)} {key : String}
      {m : ModelScheduler} (ref : ℕ)
      → ((id : String) (r : ℕ)
          → ((cell ref).credential.id == id) ≡ false
          → lookup id creds ≡ some r
          → cell r ≡ before r)
      → ShardValid parse before now creds key m
      → ShardValid parse cell now
          (insert (cell ref).credential.id ref creds)
          key
          (upsert_entry parse cell now ref m)
  unfolding scheduled
  upsert_entry-ShardValid {before} {now} {creds} {key} {m} ref others v =
      let i = (cell ref).credential.id in
      let e = scheduled parse cell m.model_key now ref in
      let (entries, same_key) = upsert_entry-entries now ref m in
      let at = λ (id : String). ap (λ es. lookup id es) entries ∙ lookup-insert i id e m.entries in
      record {
        model_key = same_key ∙ v.model_key;
        distinct = subst (λ es. IsMap es) (sym entries) (insert-IsMap i e v.distinct);
        lists = λ id. elim (Bool-cases (i == id)) [
          | inl hit ↦ rw (at id, hit, lookup-insert i id ref creds, hit) refl
          | inr miss ↦ rw (at id, miss, lookup-insert i id ref creds, miss) (v.lists id)
        ];
        free = λ id e' h good. elim (Bool-cases (i == id)) [
          | inl hit ↦
              let same : Path (Option ScheduledCred) (some e) (some e') =
                rw hit at (sym (at id) ∙ h) in
              let same' : e ≡ e' = cc in
              let good' : is_ready e ≡ true = subst (λ x. is_ready x ≡ true) (sym same') good in
              let free = rw v.model_key at (scheduled-free m.model_key now ref good') in
              rw (← same') free
          | inr miss ↦
              let old : lookup id m.entries ≡ some e' = rw miss at (sym (at id) ∙ h) in
              let listed : Path (Option ℕ) (some e'.cred) (lookup id creds) =
                rw old at (v.lists id) in
              rw (others id e'.cred miss (sym listed)) (v.free id e' old good)
        ];
        knows = λ id e' h. elim (Bool-cases (i == id)) [
          | inl hit ↦
              let same : Path (Option ScheduledCred) (some e) (some e') =
                rw hit at (sym (at id) ∙ h) in
              let same' : e ≡ e' = cc in
              subst (λ x. Knows parse (cell x.cred) key now x) same'
                (subst (λ k. Knows parse (cell ref) k now e) v.model_key
                  (scheduled-Knows parse cell m.model_key now ref))
          | inr miss ↦
              let old : lookup id m.entries ≡ some e' = rw miss at (sym (at id) ∙ h) in
              let listed : Path (Option ℕ) (some e'.cred) (lookup id creds) =
                rw old at (v.lists id) in
              rw (others id e'.cred miss (sym listed)) (v.knows id e' old)
        ];
        indexed = upsert_entry-Indexed parse cell now ref m v.indexed;
      }

  remove_entry-entries :
      (i : String) (m : ModelScheduler)
      → (i == "") ≡ false
      → ((id : String)
          → lookup id (remove_entry parse cell i m).entries
            ≡ (if i == id then none else lookup id m.entries))
        × ((remove_entry parse cell i m).model_key ≡ m.model_key)
        × (IsMap m.entries → IsMap (remove_entry parse cell i m).entries)
  unfolding remove_entry remove_found rebuild_indexes
  remove_entry-entries i m named = elim (Option-cases (lookup i m.entries)) [
    | inr (e, at) ↦ rw (named, at) (λ id. lookup-delete i id m.entries, refl, λ v. delete-IsMap i v)
    | inl gone ↦
        rw (named, gone)
          (
            λ id. elim (Bool-cases (i == id)) [
              | inl hit ↦
                  let same : i ≡ id = (string_eq.beq_iff i id).0 hit in
                  rw hit (subst (λ k. lookup k m.entries ≡ none) same gone)
              | inr miss ↦ rw miss refl
            ],
            refl,
            λ v. v,
          )
  ]

  pub remove_entry-ShardValid :
      {now : ℕ} {creds : List (String × ℕ)} {key : String} {m : ModelScheduler} (i : String)
      → (i == "") ≡ false
      → ShardValid parse cell now creds key m
      → ShardValid parse cell now (delete i creds) key (remove_entry parse cell i m)
  remove_entry-ShardValid {now} {creds} {key} {m} i named v =
      let (at, same_key, distinct) = remove_entry-entries i m named in
      record {
        model_key = same_key ∙ v.model_key;
        distinct = distinct v.distinct;
        lists = λ id. elim (Bool-cases (i == id)) [
          | inl hit ↦ rw (at id, hit, lookup-delete i id creds, hit) refl
          | inr miss ↦ rw (at id, miss, lookup-delete i id creds, miss) (v.lists id)
        ];
        free = λ id e h good. elim (Bool-cases (i == id)) [
          | inl hit ↦
              let clash : Path (Option ScheduledCred) none (some e) = rw hit at (sym (at id) ∙ h) in
              absurd cc
          | inr miss ↦ v.free id e (rw miss at (sym (at id) ∙ h)) good
        ];
        knows = λ id e h. elim (Bool-cases (i == id)) [
          | inl hit ↦
              let clash : Path (Option ScheduledCred) none (some e) = rw hit at (sym (at id) ∙ h) in
              absurd cc
          | inr miss ↦ v.knows id e (rw miss at (sym (at id) ∙ h))
        ];
        indexed = remove_entry-Indexed parse cell i m v.indexed;
      }

  -- What the loop over the blocked entries keeps of `before`.
  record Promotes (key : String) (now : ℕ) (before after : List (String × ScheduledCred))
      : Type 0 where
    distinct : IsMap after
    lists : (id : String) → cred_of (lookup id after) ≡ cred_of (lookup id before)
    free :
        (id : String) (e : ScheduledCred)
        → lookup id after ≡ some e
        → is_ready e ≡ true
        → IsFree (cell e.cred) key now
    knows :
        (id : String) (e : ScheduledCred)
        → lookup id after ≡ some e
        → Knows parse (cell e.cred) key now e

  promote_found-Promotes :
      (key : String) (now : ℕ) (i : String) (before es : List (String × ScheduledCred))
      (changed : Bool) (found : Option ScheduledCred)
      → lookup i es ≡ found
      → Promotes key now before es
      → Promotes key now before (promote_found parse cell key now i found (es, changed)).0
  unfolding promote_found promote
  promote_found-Promotes key now i before es changed none at p = p
  promote_found-Promotes key now i before es changed (some e) at p =
      elim (Bool-cases (is_due parse cell now e)) [
        | inr waits ↦ rw waits p
        | inl due ↦
            let e' = promote parse cell key now e in
            rw due (record {
              distinct = insert-IsMap i e' p.distinct;
              lists = λ id. elim (Bool-cases (i == id)) [
                | inl hit ↦
                    let same : i ≡ id = (string_eq.beq_iff i id).0 hit in
                    let old : lookup id es ≡ some e = subst (λ k. lookup k es ≡ some e) same at in
                    let listed : Path (Option ℕ) (some e.cred) (cred_of (lookup id before)) =
                      rw old at (p.lists id) in
                    rw (lookup-insert i id e' es, hit) listed
                | inr miss ↦ rw (lookup-insert i id e' es, miss) (p.lists id)
              ];
              free = λ id x h good. elim (Bool-cases (i == id)) [
                | inl hit ↦
                    let same : Path (Option ScheduledCred) (some e') (some x) =
                      rw hit at (sym (lookup-insert i id e' es) ∙ h) in
                    let same' : e' ≡ x = cc in
                    let good' : is_ready e' ≡ true =
                      subst (λ x. is_ready x ≡ true) (sym same') good in
                    rw (← same')
                      (state_of-ready (is_credential_blocked_for_model (cell e.cred) key now) good')
                | inr miss ↦ p.free id x (rw miss at (sym (lookup-insert i id e' es) ∙ h)) good
              ];
              knows = λ id x h. elim (Bool-cases (i == id)) [
                | inl hit ↦
                    let same : Path (Option ScheduledCred) (some e') (some x) =
                      rw hit at (sym (lookup-insert i id e' es) ∙ h) in
                    let same' : e' ≡ x = cc in
                    subst (λ y. Knows parse (cell y.cred) key now y) same'
                      (promote-Knows parse cell key now e (p.knows i e at))
                | inr miss ↦ p.knows id x (rw miss at (sym (lookup-insert i id e' es) ∙ h))
              ];
            })
      ]

  promote_loop-Promotes :
      (key : String) (now : ℕ) (ids : List String) (before es : List (String × ScheduledCred))
      (changed : Bool)
      → Promotes key now before es
      → Promotes key now before (promote_loop parse cell key now ids (es, changed)).0
  unfolding promote_loop
  promote_loop-Promotes key now [] before es changed p = p
  promote_loop-Promotes key now (i ∷ ids) before es changed p =
      let next = promote_found parse cell key now i (lookup i es) (es, changed) in
      promote_loop-Promotes key now ids before next.0 next.1
        (promote_found-Promotes key now i before es changed (lookup i es) refl p)

  pub promote_expired-ShardValid :
      {now : ℕ} {creds : List (String × ℕ)} {key : String} {m : ModelScheduler}
      → ShardValid parse cell now creds key m
      → ShardValid parse cell now creds key (promote_expired parse cell now m)
  unfolding promote_expired rebuild_indexes
  promote_expired-ShardValid {now} {creds} {key} {m} v =
      let after = promote_loop parse cell m.model_key now m.blocked_ids (m.entries, false) in
      let start : Promotes m.model_key now m.entries m.entries = record {
        distinct = v.distinct;
        lists = λ id. refl;
        free = λ id e h good. rw v.model_key (v.free id e h good);
        knows = λ id e h. rw v.model_key (v.knows id e h);
      } in
      let p = promote_loop-Promotes m.model_key now m.blocked_ids m.entries m.entries false start in
      elim (Bool-cases after.1) [
        | inr same ↦ rw same v
        | inl moved ↦ rw moved (record {
          model_key = v.model_key;
          distinct = p.distinct;
          lists = λ id. p.lists id ∙ v.lists id;
          free = λ id e h good.
              subst (λ k. IsFree (cell e.cred) k now) v.model_key (p.free id e h good);
          knows =
              λ id e h. subst (λ k. Knows parse (cell e.cred) k now e) v.model_key (p.knows id e h);
          indexed = rebuild_indexes-Indexed parse cell (record m { entries = after.0 });
        })
      ]
