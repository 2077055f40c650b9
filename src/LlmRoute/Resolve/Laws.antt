-- ===== src/LlmRoute/Resolve/Laws.antt =====
-- pkg/gateway/llmroute/policy.go: which candidates a request may be sent to.
use caddy_agent_gateway.Base.{
  String, ◌≡◌, ◌⊎◌, inl, inr, Bool, true, false, not, List, [], ◌∷◌, arith, string_eq, contains,
  keys, keep_if, All, Bool-cases, sort_by, insert_sorted, str_less, ◌↔◌,
}
use caddy_agent_gateway.LlmRoute.Choose.{ModelCapabilities}
use caddy_agent_gateway.LlmRoute.Resolve.{
  RequestRequirements, features, missing_protocol_features, meets_generic_requirements,
}

module _ {ℓ} {A : Type ℓ} (P : A → Type 0) (less : A → A → Bool) where
  All-insert_sorted : (x : A) (xs : List A) → P x → All P xs → All P (insert_sorted less x xs)
  unfolding insert_sorted
  All-insert_sorted x [] p h = (p, tt)
  All-insert_sorted x (y ∷ ys) p h = ground (arith, All-insert_sorted x ys p h.1)

  insert_sorted-All : (x : A) (xs : List A) → All P (insert_sorted less x xs) → P x × All P xs
  unfolding insert_sorted
  insert_sorted-All x [] h = h
  insert_sorted-All x (y ∷ ys) h = elim (Bool-cases (less y x)) [
    | inl e ↦
        let h' : P y × All P (insert_sorted less x ys) = rw e at h in
        let (p, rest) = insert_sorted-All x ys h'.1 in (p, (h'.0, rest))
    | inr e ↦ rw e at h
  ]

  All-sort_by : (xs : List A) → All P xs → All P (sort_by less xs)
  unfolding sort_by
  All-sort_by [] h = tt
  All-sort_by (x ∷ xs) h = All-insert_sorted x (sort_by less xs) h.0 (All-sort_by xs h.1)

  sort_by-All : (xs : List A) → All P (sort_by less xs) → All P xs
  unfolding sort_by
  sort_by-All [] h = tt
  sort_by-All (x ∷ xs) h =
      let (p, rest) = insert_sorted-All x (sort_by less xs) h in (p, sort_by-All xs rest)

-- Every feature that the request needs is supported.
abbrev pub Supports : List String → List (String × List String) → Type 0
Supports supported required = All (λ f. contains supported f ≡ true) (keys required)

nothing_missing :
    (supported fs : List String)
    → (keep_if (λ f. not (contains supported f)) fs ≡ [])
      ↔ All (λ f. contains supported f ≡ true) fs
nothing_missing supported [] = ground arith
nothing_missing supported (f ∷ fs) = ground (arith, nothing_missing supported fs)

pub missing-Supports :
    (required : List (String × List String)) (supported : List String)
    → (missing_protocol_features required supported ≡ []) ↔ Supports supported required
unfolding missing_protocol_features
missing-Supports required supported =
    let iff = nothing_missing supported (features required) in
    (
      λ e. sort_by-All _ str_less (keys required) (iff.0 e),
      λ h. iff.1 (All-sort_by _ str_less (keys required) h),
    )

-- What the request needs of the model.
pub record Capable (c : ModelCapabilities) (req : RequestRequirements) : Type 0 where
  pub streams : (req.require_streaming ≡ false) ⊎ (c.streaming ≡ true)
  pub uses_tools : (req.require_tools ≡ false) ⊎ (c.tools ≡ true)
  pub sees : (req.require_vision ≡ false) ⊎ (c.vision ≡ true)
  pub embeds : (req.require_embeddings ≡ false) ⊎ (c.embeddings ≡ true)

pub meets-Capable :
    (c : ModelCapabilities) (req : RequestRequirements)
    → meets_generic_requirements c req ≡ true
    → Capable c req
unfolding meets_generic_requirements
meets-Capable c req h = ground arith

pub Capable-meets :
    (c : ModelCapabilities) (req : RequestRequirements)
    → Capable c req
    → meets_generic_requirements c req ≡ true
unfolding meets_generic_requirements
Capable-meets c req h = ground arith
