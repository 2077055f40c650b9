-- ===== src/LlmRoute/Validate.antt =====
-- pkg/gateway/llmroute/validate.go: what a stored route must satisfy. The loops carry what the code
-- has seen so far; a failure is the first one that the code meets.
pub mod Laws
use Prim.Native.String
use caddy_agent_gateway.Base.{
  ℕ, ◌+◌, String, ◌≡◌, refl, Bool, true, false, not, ◌&&◌, ◌||◌, List, [], ◌∷◌, ◌++◌, ℤ, pos, ltb_ℤ,
  ltb, nat_beq, if◌then◌else◌, ◌==◌, string_eq, contains, length, Result, ok, err, ◌>>=◌, ◌>>◌,
  reject_if,
}
use caddy_agent_gateway.LlmRoute.Policy.{
  RouteTargetPolicyCommon, RouteModelCandidate, RouteModelTarget, RouteLogicalModelTargetPolicy,
  RouteDirectProviderPolicy, credential_selector, credential_scope_order, credential_type_order,
  logical_scope_order, normalize_logical, normalize_direct, candidate_key,
}

-- The messages of the code, by the value that each names.
pub data RouteError : Type 0 where
  invalid_credential_selector : String → RouteError
  invalid_credential_scope_order : String → RouteError
  duplicate_credential_scope_order : String → RouteError
  credential_type_order_empty : RouteError
  invalid_credential_type_order : String → RouteError
  duplicate_credential_type_order : String → RouteError
  provider_id_required : RouteError
  model_custom_scope : RouteError
  model_targets_required : RouteError
  invalid_model_selector_strategy : String → RouteError
  fallback_out_of_range : RouteError
  target_name_required : RouteError
  target_duplicated : String → RouteError
  candidates_required : String → RouteError
  candidate_incomplete : String → RouteError
  candidate_duplicated : String → String → RouteError
  several_default_candidates : String → RouteError
  default_model_unlisted : String → RouteError
  default_candidates_spread : RouteError
  default_candidate_mismatch : String → String → RouteError

-- One of the loops of `validateCredentialPolicy`: each value is allowed and new.
unfoldable pub check_order :
    List String
    → (String → RouteError)
    → (String → RouteError)
    → List String
    → List String
    → Result RouteError (Unit {0})
check_order allowed invalid duplicate seen [] = ok tt
check_order allowed invalid duplicate seen (v ∷ vs) = do
  reject_if (not (contains allowed v)) (invalid v)
  reject_if (contains seen v) (duplicate v)
  check_order allowed invalid duplicate (v ∷ seen) vs

abbrev pub is_empty {ℓ} : {A : Type ℓ} → List A → Bool
is_empty [] = true
is_empty (x ∷ xs) = false

-- `scopes` is CredentialScopeOrder of the policy's common part.
unfoldable pub validate_credential_policy : RouteTargetPolicyCommon → Result RouteError (Unit {0})
unfolding credential_selector credential_scope_order credential_type_order check_order
validate_credential_policy c = do
  reject_if (not (contains ("" ∷ "round_robin" ∷ "fill_first" ∷ []) (credential_selector c)))
      (invalid_credential_selector (credential_selector c))
  check_order ("model_custom" ∷ "provider_id" ∷ []) invalid_credential_scope_order
      duplicate_credential_scope_order [] (credential_scope_order c)
  reject_if (is_empty (credential_type_order c)) credential_type_order_empty
  check_order ("api_key" ∷ "oauth_token" ∷ []) invalid_credential_type_order
      duplicate_credential_type_order [] (credential_type_order c)

unfoldable pub validate_direct : RouteDirectProviderPolicy → Result RouteError (Unit {0})
unfolding normalize_direct validate_credential_policy credential_scope_order
validate_direct p =
    let q = normalize_direct p in
    do
      reject_if (q.provider_id == "") provider_id_required
      validate_credential_policy q.common
      reject_if (contains (credential_scope_order q.common) "model_custom") model_custom_scope

-- The loop over the candidates of one target: how many of them are marked as the default.
unfoldable pub check_candidates :
    String → List String → ℕ → List RouteModelCandidate → Result RouteError ℕ
check_candidates name seen defaults [] = ok defaults
check_candidates name seen defaults (c ∷ cs) =
    let key = candidate_key c.provider_id c.upstream_model in
    do
      reject_if (c.provider_id == "" || c.upstream_model == "") (candidate_incomplete name)
      reject_if (contains seen key) (candidate_duplicated name key)
      check_candidates name (key ∷ seen) (if c.default then defaults + 1 else defaults) cs

-- The loop over the targets: the names seen, and those of the targets with a default candidate.
unfoldable pub check_targets :
    List String
    → List String
    → List RouteModelTarget
    → Result RouteError (List String × List String)
unfolding check_candidates
check_targets names defaults [] = ok (names, defaults)
check_targets names defaults (t ∷ ts) = do
  reject_if (t.name == "") target_name_required
  reject_if (contains names t.name) (target_duplicated t.name)
  reject_if (is_empty t.candidates) (candidates_required t.name)
  count ← check_candidates t.name [] 0 t.candidates
  reject_if (ltb 1 count) (several_default_candidates t.name)
  check_targets (t.name ∷ names) (if nat_beq count 1 then t.name ∷ defaults else defaults) ts

check_defaults : String → List String → Result RouteError (Unit {0})
check_defaults default_model [] = ok tt
check_defaults default_model (name ∷ names) = do
  reject_if (not (name == default_model)) (default_candidate_mismatch name default_model)
  check_defaults default_model names

unfoldable pub check_default_model :
    String → List String × List String → Result RouteError (Unit {0})
unfolding check_defaults
check_default_model default_model (names, defaults) = do
  reject_if (not (default_model == "") && not (contains names default_model))
      (default_model_unlisted default_model)
  reject_if (ltb 1 (length defaults)) default_candidates_spread
  if default_model == "" then ok tt else check_defaults default_model defaults

unfoldable pub validate_logical : RouteLogicalModelTargetPolicy → Result RouteError (Unit {0})
unfolding normalize_logical validate_credential_policy check_targets check_default_model
validate_logical p =
    let q = normalize_logical p in
    do
      validate_credential_policy q.common
      reject_if (is_empty q.model_targets) model_targets_required
      reject_if
          (not (contains ("" ∷ "auto" ∷ "weighted" ∷ "priority" ∷ []) q.model_selector_strategy))
          (invalid_model_selector_strategy q.model_selector_strategy)
      reject_if (ltb_ℤ q.fallback.max_num (pos 0) || ltb_ℤ (pos 5) q.fallback.max_num)
          fallback_out_of_range
      found ← check_targets [] [] q.model_targets
      check_default_model q.default_model found
