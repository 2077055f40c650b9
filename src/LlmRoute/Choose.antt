-- ===== src/LlmRoute/Choose.antt =====
-- pkg/gateway/llmroute/policy.go: the choice among the eligible candidates. `none` is a read out of
-- bounds, which panics. `pick` is what rand.Intn(total) returns, for the total that it is asked.
pub mod Laws
use caddy_agent_gateway.Base.{
  ℕ, ◌+◌, ◌-◌, ◌%◌, ◌&&◌, String, ◌≡◌, refl, Bool, true, false, List, [], ◌∷◌, Option, none, some,
  ℤ, pos, negsuc, ltb_ℤ, int_eq, ltb, if◌then◌else◌, ◌==◌, string_eq, keep_if, any,
}

pub record ModelCapabilities : Type 0 where
  pub streaming : Bool
  pub tools : Bool
  pub vision : Bool
  pub embeddings : Bool
  pub context_window : ℤ
  pub max_output_tokens : ℤ

pub record ResolvedCandidate : Type 0 where
  pub provider_id : String
  pub provider_type : String
  pub upstream_model : String
  pub credential_scope : String
  pub capabilities : ModelCapabilities
  pub weight : ℤ
  pub priority : ℤ

abbrev pub normalized_weight : ℤ → ℕ
normalized_weight (pos n) = n
normalized_weight (negsuc n) = 0

-- The loop that adds up the weights: an int of 64 bits, by its residue, which wraps around.
unfoldable pub total_weight : ℕ → List ResolvedCandidate → ℕ
total_weight total [] = total
total_weight total (c ∷ cs) =
    total_weight ((total + normalized_weight c.weight) % 18446744073709551616) cs

-- Whether an int of 64 bits, given by its residue, is greater than zero.
abbrev pub is_positive : ℕ → Bool
is_positive total = ltb 0 total && ltb total 9223372036854775808

-- bindings[0]
abbrev pub first : List ResolvedCandidate → Option ResolvedCandidate
first [] = none
first (c ∷ cs) = some c

-- The loop that walks down the weights; it falls back on the first binding of all.
unfoldable pub weighted_loop :
    Option ResolvedCandidate → ℕ → List ResolvedCandidate → Option ResolvedCandidate
weighted_loop fallback pick [] = fallback
weighted_loop fallback pick (c ∷ cs) =
    let rest = weighted_loop fallback (pick - normalized_weight c.weight) cs in
    if ltb pick (normalized_weight c.weight) then some c else rest

-- The loop over the later candidates, with the best so far.
unfoldable pub priority_loop : ResolvedCandidate → List ResolvedCandidate → ResolvedCandidate
priority_loop best [] = best
priority_loop best (c ∷ cs) = priority_loop (if ltb_ℤ best.priority c.priority then c else best) cs

unfoldable pub choose_priority_binding : List ResolvedCandidate → Option ResolvedCandidate
unfolding priority_loop
choose_priority_binding [] = none
choose_priority_binding (c ∷ cs) = some (priority_loop c cs)

unfoldable pub best_priority : ℤ → List ResolvedCandidate → ℤ
best_priority best [] = best
best_priority best (c ∷ cs) = best_priority (if ltb_ℤ best c.priority then c.priority else best) cs

unfoldable pub has_positive_weight : List ResolvedCandidate → Bool
has_positive_weight [] = false
has_positive_weight (c ∷ cs) =
    let rest = has_positive_weight cs in if ltb_ℤ (pos 0) c.weight then true else rest

unfoldable pub top_tier : ResolvedCandidate → List ResolvedCandidate → List ResolvedCandidate
unfolding best_priority
top_tier c cs = keep_if (λ d. d.priority == best_priority c.priority cs) (c ∷ cs)

module _ (intn : ℕ → ℕ) where
  unfoldable pub choose_weighted_binding : List ResolvedCandidate → Option ResolvedCandidate
  unfolding weighted_loop total_weight
  choose_weighted_binding (c ∷ []) = some c
  choose_weighted_binding bindings =
      if is_positive (total_weight 0 bindings)
      then weighted_loop (first bindings) (intn (total_weight 0 bindings)) bindings
      else first bindings

  choose_from_tier : List ResolvedCandidate → Option ResolvedCandidate
  unfolding choose_weighted_binding has_positive_weight
  choose_from_tier tier =
      if has_positive_weight tier then choose_weighted_binding tier else first tier

  unfoldable pub choose_auto_binding : List ResolvedCandidate → Option ResolvedCandidate
  unfolding top_tier choose_from_tier
  choose_auto_binding [] = none
  choose_auto_binding (c ∷ cs) = choose_from_tier (top_tier c cs)

  unfoldable pub choose_candidate : List ResolvedCandidate → String → Option ResolvedCandidate
  unfolding choose_priority_binding choose_weighted_binding choose_auto_binding
  choose_candidate (c ∷ []) strategy = some c
  choose_candidate candidates strategy =
      if strategy == "priority"
      then choose_priority_binding candidates
      else (if strategy == "weighted"
          then choose_weighted_binding candidates
          else choose_auto_binding candidates)
