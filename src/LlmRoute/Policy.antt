-- ===== src/LlmRoute/Policy.antt =====
-- pkg/gateway/llmroute/types.go and policy.go: the target policies and their defaults. Strategies,
-- scopes and types are strings, as a stored route may hold any.
use Prim.Native.String
use caddy_agent_gateway.Base.{
  String, Bool, ◌||◌, List, [], ◌∷◌, ◌++◌, map, ℤ, if◌then◌else◌, ◌==◌, string_eq, contains,
  trim_space,
}

pub record RouteTargetPolicyCommon : Type 0 where
  pub credential_selector_value : String
  pub credential_scope_order_value : List String
  pub credential_type_order_value : List String

pub record RouteFallbackPolicy : Type 0 where
  pub enabled : Bool
  pub max_num : ℤ

pub record RouteModelCandidate : Type 0 where
  pub provider_id : String
  pub upstream_model : String
  pub weight : ℤ
  pub priority : ℤ
  pub default : Bool

pub record RouteModelTarget : Type 0 where
  pub name : String
  pub strategy : String
  pub default_candidate : String
  pub candidates : List RouteModelCandidate

pub record RouteLogicalModelTargetPolicy : Type 0 where
  pub common : RouteTargetPolicyCommon
  pub default_model : String
  pub model_selector_strategy : String
  pub fallback : RouteFallbackPolicy
  pub model_targets : List RouteModelTarget

-- `provider_target` is the ProviderID of the field ProviderTarget.
pub record RouteDirectProviderPolicy : Type 0 where
  pub common : RouteTargetPolicyCommon
  pub provider_id : String
  pub provider_target : String

-- `v`, or a default where it is empty.
abbrev pub or_default : String → String → String
or_default v d = if v == "" then d else v

abbrev pub or_defaults : List String → List String → List String
or_defaults [] ds = ds
or_defaults (v ∷ vs) ds = v ∷ vs

unfoldable pub normalize_common : RouteTargetPolicyCommon → RouteTargetPolicyCommon
normalize_common c = record {
  credential_selector_value = or_default c.credential_selector_value "round_robin";
  credential_scope_order_value = or_defaults c.credential_scope_order_value ("provider_id" ∷ []);
  credential_type_order_value =
      or_defaults c.credential_type_order_value ("api_key" ∷ "oauth_token" ∷ []);
}

unfoldable pub credential_selector : RouteTargetPolicyCommon → String
credential_selector c = or_default c.credential_selector_value "round_robin"

unfoldable pub credential_scope_order : RouteTargetPolicyCommon → List String
credential_scope_order c = or_defaults c.credential_scope_order_value ("provider_id" ∷ [])

unfoldable pub credential_type_order : RouteTargetPolicyCommon → List String
credential_type_order c = or_defaults c.credential_type_order_value ("api_key" ∷ "oauth_token" ∷ [])

unfoldable pub normalize_direct : RouteDirectProviderPolicy → RouteDirectProviderPolicy
unfolding normalize_common
normalize_direct p =
    let provider_id = or_default (trim_space p.provider_id) (trim_space p.provider_target) in
    record {
      common = normalize_common p.common;
      provider_id = provider_id;
      provider_target = or_default (trim_space p.provider_target) provider_id;
    }

unfoldable pub normalize_candidate : RouteModelCandidate → RouteModelCandidate
normalize_candidate c = record c {
  provider_id = trim_space c.provider_id;
  upstream_model = trim_space c.upstream_model;
}

unfoldable pub normalize_target : RouteModelTarget → RouteModelTarget
normalize_target t = record t {
  name = trim_space t.name;
  default_candidate = trim_space t.default_candidate;
  candidates = map normalize_candidate t.candidates;
}

unfoldable pub normalize_logical : RouteLogicalModelTargetPolicy → RouteLogicalModelTargetPolicy
unfolding normalize_common
normalize_logical p = record p {
  common = normalize_common p.common;
  default_model = trim_space p.default_model;
  model_targets = map normalize_target p.model_targets;
}

-- The scope order of a logical route: the default is widened by the model's own scope.
widen_scopes : List String → List String
widen_scopes (scope ∷ []) =
    if scope == "provider_id" then "model_custom" ∷ "provider_id" ∷ [] else scope ∷ []
widen_scopes scopes = scopes

unfoldable pub logical_scope_order : RouteLogicalModelTargetPolicy → List String
unfolding credential_scope_order widen_scopes
logical_scope_order p = widen_scopes (credential_scope_order p.common)

-- The loops of ProviderIDs, with the ids that were seen.
unfoldable pub candidate_ids : List String → List RouteModelCandidate → List String
candidate_ids ids [] = ids
candidate_ids ids (c ∷ cs) =
    candidate_ids
      (if c.provider_id == "" || contains ids c.provider_id then ids else ids ++ c.provider_id ∷ [])
      cs

unfoldable pub target_ids : List String → List RouteModelTarget → List String
unfolding candidate_ids
target_ids ids [] = ids
target_ids ids (t ∷ ts) = target_ids (candidate_ids ids t.candidates) ts

unfoldable pub logical_provider_ids : RouteLogicalModelTargetPolicy → List String
unfolding target_ids normalize_logical
logical_provider_ids p = target_ids [] (normalize_logical p).model_targets

unfoldable pub candidate_key : String → String → String
candidate_key provider_id upstream_model = String.◌++◌ provider_id (String.◌++◌ "/" upstream_model)
