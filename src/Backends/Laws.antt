-- ===== src/Backends/Laws.antt =====
-- pkg/agent/runtime/registry.go: a batch is registered as a whole or not at all.
use mathlib.Core.Path.{subst}
use caddy_agent_gateway.Base.{
  ℕ, ◌+◌, String, ◌≡◌, refl, sym, ◌∙◌, ◌⊎◌, inl, inr, false, List, [], ◌∷◌, Option, none, some,
  ◌==◌, string_eq, lookup, insert, lookup-insert, trim_space, contains_any, Bool-cases,
  Option-cases, Member, here, there, Member-uncons, Result, ok, err,
}
use caddy_agent_gateway.Backends.{
  BackendError, RegisterError, already_registered, is_forbidden, check_type, validate_backend,
  pending_loop, clash_loop, add_all, commit, register_all, resolve,
}

-- What registering a batch comes to.
pub data Registered {B : Type 0} (runtime_type : B → Option String) (batch : List B)
    (backends : List (String × B)) (after : Option RegisterError × List (String × B)) : Type 0 where
  refused :
      (e : RegisterError)
      → after.0 ≡ some e
      → after.1 ≡ backends
      → Registered runtime_type batch backends after
  accepted :
      after.0 ≡ none
      → ((b : B)
          → Member b batch
          → (kind : String) × (validate_backend runtime_type b ≡ ok kind)
            × (resolve kind after.1 ≡ ok b))
      → ((kind : String) (b : B) → lookup kind backends ≡ some b → lookup kind after.1 ≡ some b)
      → ((kind : String) (b : B)
          → lookup kind after.1 ≡ some b
          → (lookup kind backends ≡ some b) ⊎ Member b batch)
      → Registered runtime_type batch backends after

module _ {B : Type 0} (runtime_type : B → Option String) where
  -- What the first loop accepts.
  record IsPending (batch : List B) (before after : List (String × B)) : Type 0 where
    grows : (kind : String) (b : B) → lookup kind before ≡ some b → lookup kind after ≡ some b
    each :
        (b : B)
        → Member b batch
        → (kind : String) × (validate_backend runtime_type b ≡ ok kind)
          × (lookup kind after ≡ some b)
    only :
        (kind : String) (b : B)
        → lookup kind after ≡ some b
        → (lookup kind before ≡ some b) ⊎ Member b batch

  Result-cases : {E A : Type 0} (r : Result E A) → ((e : E) × (r ≡ err e)) ⊎ ((a : A) × (r ≡ ok a))
  Result-cases (err e) = inl (e, refl)
  Result-cases (ok a) = inr (a, refl)

  step-IsPending :
      (backend : B) (rest : List B) (kind : String) (before after : List (String × B))
      → validate_backend runtime_type backend ≡ ok kind
      → lookup kind before ≡ none
      → IsPending rest (insert kind backend before) after
      → IsPending (backend ∷ rest) before after
  step-IsPending backend rest kind before after valid new p = record {
    grows = λ k b h. elim (Bool-cases (kind == k)) [
      | inl hit ↦
          let same : kind ≡ k = (string_eq.beq_iff kind k).0 hit in
          let gone : lookup k before ≡ none = subst (λ x. lookup x before ≡ none) same new in
          let clash : Path (Option B) none (some b) = sym gone ∙ h in absurd cc
      | inr miss ↦ p.grows k b (lookup-insert kind k backend before ∙ rw miss h)
    ];
    each = λ b m. elim (Member-uncons m) [
      | inl same ↦
          let hit = (string_eq.beq_iff kind kind).1 refl in
          let there_is =
            p.grows kind backend (lookup-insert kind kind backend before ∙ rw hit refl) in
          (kind, rw same valid, rw same there_is)
      | inr m' ↦ p.each b m'
    ];
    only = λ k b h. elim (p.only k b h) [
      | inr m ↦ inr (there m)
      | inl held ↦ elim (Bool-cases (kind == k)) [
        | inl hit ↦
            let both : Path (Option B) (some backend) (some b) =
              rw hit at (sym (lookup-insert kind k backend before) ∙ held) in
            let same : backend ≡ b = cc in inr (rw same here)
        | inr miss ↦ inl (rw miss at (sym (lookup-insert kind k backend before) ∙ held))
      ]
    ];
  }

  pending_loop-IsPending :
      (i : ℕ) (batch : List B) (before after : List (String × B))
      → pending_loop runtime_type i batch before ≡ ok after
      → IsPending batch before after
  unfolding pending_loop
  pending_loop-IsPending i [] before after h =
      let same : before ≡ after = cc in
      record {
        grows = λ k b held. subst (λ m. lookup k m ≡ some b) same held;
        each = λ b m. elim m [ ];
        only = λ k b held. inl (subst (λ m. lookup k m ≡ some b) (sym same) held);
      }
  pending_loop-IsPending i (backend ∷ rest) before after h =
      elim (Result-cases (validate_backend runtime_type backend)) [
        | inl (e, bad) ↦ let clash = rw (pending_loop, bad) at h in absurd cc
        | inr (kind, valid) ↦ elim (Option-cases (lookup kind before)) [
          | inr (b, twice) ↦ let clash = rw (pending_loop, valid, twice) at h in absurd cc
          | inl new ↦ step-IsPending backend rest kind before after valid new (
              pending_loop-IsPending (i + 1) rest (insert kind backend before) after
                (rw (pending_loop, valid, new) at h))
        ]
      ]

  check_type-trimmed :
      (kind k : String)
      → check_type runtime_type kind ≡ ok k
      → (k ≡ kind) × (trim_space kind ≡ kind) × ((kind == "") ≡ false)
  unfolding check_type
  check_type-trimmed kind k h = elim (Bool-cases (kind == "")) [
    | inl blank ↦ let clash = rw (check_type, blank) at h in absurd cc
    | inr named ↦ elim (Bool-cases (trim_space kind == kind)) [
      | inr spaced ↦ let clash = rw (check_type, named, spaced) at h in absurd cc
      | inl trimmed ↦ elim (Bool-cases (contains_any is_forbidden kind)) [
        | inl bad ↦ let clash = rw (check_type, named, trimmed, bad) at h in absurd cc
        | inr good ↦
            let h' : Path (Result BackendError String) (ok kind) (ok k) =
              rw (check_type, named, trimmed, good) at h in
            let same : kind ≡ k = cc in
            (sym same, (string_eq.beq_iff (trim_space kind) kind).0 trimmed, named)
      ]
    ]
  ]

  validate_backend-trimmed :
      (b : B) (kind : String)
      → validate_backend runtime_type b ≡ ok kind
      → (trim_space kind ≡ kind) × ((kind == "") ≡ false)
  unfolding validate_backend
  validate_backend-trimmed b kind h = elim (Option-cases (runtime_type b)) [
    | inl gone ↦ let clash = rw (validate_backend, gone) at h in absurd cc
    | inr (k, there_is) ↦
        let (same, trimmed, named) =
          check_type-trimmed k kind (rw (validate_backend, there_is) at h) in
        (rw same trimmed, rw same named)
  ]

-- What a type has after the third loop.
abbrev override : {B : Type 0} → Option B → Option B → Option B
override (some b) old = some b
override none old = old

lookup-add_all :
    {B : Type 0} (kind : String) (pending backends : List (String × B))
    → lookup kind (add_all pending backends) ≡ override (lookup kind pending) (lookup kind backends)
unfolding add_all lookup
lookup-add_all kind [] backends = refl
lookup-add_all kind ((k, b) ∷ pending) backends = elim (Bool-cases (k == kind)) [
  | inl hit ↦ rw (lookup-insert k kind b (add_all pending backends), hit) refl
  | inr miss ↦
      rw (lookup-insert k kind b (add_all pending backends), miss)
        (lookup-add_all kind pending backends)
]

clash_loop-none :
    {B : Type 0} (pending backends : List (String × B))
    → clash_loop pending backends ≡ none
    → (kind : String) (b : B) → lookup kind pending ≡ some b
    → lookup kind backends ≡ none
unfolding clash_loop lookup
clash_loop-none [] backends h kind b held = absurd cc
clash_loop-none ((k, c) ∷ pending) backends h kind b held =
    elim (Option-cases (lookup k backends)) [
      | inr (old, clashes) ↦ let clash = rw (clash_loop, clashes) at h in absurd cc
      | inl free ↦ elim (Bool-cases (k == kind)) [
        | inl hit ↦
            let same : k ≡ kind = (string_eq.beq_iff k kind).0 hit in
            subst (λ x. lookup x backends ≡ none) same free
        | inr miss ↦
            clash_loop-none pending backends (rw (clash_loop, free) at h) kind b (rw miss at held)
      ]
    ]

resolve-found :
    {B : Type 0} (kind : String) (b : B) (backends : List (String × B))
    → trim_space kind ≡ kind
    → (kind == "") ≡ false
    → lookup kind backends ≡ some b
    → resolve kind backends ≡ ok b
unfolding resolve
resolve-found kind b backends trimmed named there_is =
    let named' : (trim_space kind == "") ≡ false =
      subst (λ k. (k == "") ≡ false) (sym trimmed) named in
    let there_is' : lookup (trim_space kind) backends ≡ some b =
      subst (λ k. lookup k backends ≡ some b) (sym trimmed) there_is in
    rw (resolve, named', there_is') refl

commit-Registered :
    {B : Type 0} (runtime_type : B → Option String) (batch : List B)
    (pending backends : List (String × B))
    → IsPending runtime_type batch [] pending
    → Registered runtime_type batch backends (commit pending backends (clash_loop pending backends))
unfolding commit lookup
commit-Registered {B} runtime_type batch pending backends p =
    elim (Option-cases (clash_loop pending backends)) [
      | inr (kind, clashes) ↦ rw (commit, clashes) (refused (already_registered kind) refl refl)
      | inl free ↦
          rw (commit, free)
            (accepted refl
              (λ b m.
                let (kind, valid, held) = p.each b m in
                let (trimmed, named) = validate_backend-trimmed runtime_type b kind valid in
                (
                  kind,
                  valid,
                  resolve-found kind b (add_all pending backends) trimmed named
                      (lookup-add_all kind pending backends ∙ rw held refl),
                ))
              (λ kind b h. elim (Option-cases (lookup kind pending)) [
                | inl gone ↦ lookup-add_all kind pending backends ∙ rw gone h
                | inr (c, held) ↦
                    let new = clash_loop-none pending backends free kind c held in
                    let clash : Path (Option B) none (some b) = sym new ∙ h in absurd cc
              ])
              (λ kind b h. elim (Option-cases (lookup kind pending)) [
                | inl gone ↦ inl (rw gone at (sym (lookup-add_all kind pending backends) ∙ h))
                | inr (c, held) ↦
                    let is_b : Path (Option B) (some c) (some b) =
                      rw held at (sym (lookup-add_all kind pending backends) ∙ h) in
                    let same : c ≡ b = cc in
                    elim (p.only kind c held) [
                      | inl never ↦ absurd cc
                      | inr m ↦ inr (subst (λ x. Member x batch) same m)
                    ]
              ]))
    ]

-- Registering a batch either refuses it with an error and changes nothing, or every backend of the
-- batch is valid and resolves under its type afterwards, every backend from before stands where it
-- stood, and there are no others.
pub register_all-Registered :
    {B : Type 0} (runtime_type : B → Option String) (batch : List B) (backends : List (String × B))
    → Registered runtime_type batch backends (register_all runtime_type batch backends)
unfolding register_all
register_all-Registered runtime_type batch backends =
    elim (Result-cases runtime_type (pending_loop runtime_type 0 batch [])) [
      | inl (e, bad) ↦ rw (register_all, bad) (refused e refl refl)
      | inr (pending, good) ↦
          rw (register_all, good)
            (commit-Registered runtime_type batch pending backends
              (pending_loop-IsPending runtime_type 0 batch [] pending good))
    ]
