-- ===== src/Tests/Routing.antt =====
-- pkg/gateway/llmroute and pkg/gateway/routecore at concrete routes.
use caddy_agent_gateway.Base.{
  ℕ, String, ◌≡◌, ◌≢◌, ◌↔◌, refl, ◌⊎◌, inl, inr, true, false, [], ◌∷◌, none, some, arith,
  if◌then◌else◌, ◌==◌, string_eq, Member, here, there, ok, pos, ℤ, contains, trim_space, lookup,
  to_lower,
}
use text.Mathlib.TextEquality.{eq_iff}
use caddy_agent_gateway.RouteId.{
  slugify_path, slugify_path-is_slug, generate_route_id, generate_route_id-valid, validate_route_id,
  is_slug,
}
use caddy_agent_gateway.LlmRoute.Policy.{
  RouteTargetPolicyCommon, RouteModelCandidate, RouteModelTarget, RouteLogicalModelTargetPolicy,
  RouteDirectProviderPolicy, normalize_logical, normalize_direct, normalize_target,
  normalize_candidate, candidate_key, credential_scope_order,
}
use caddy_agent_gateway.LlmRoute.Choose.{
  ModelCapabilities, ResolvedCandidate, choose_candidate, choose_weighted_binding, total_weight,
}
use caddy_agent_gateway.LlmRoute.Choose.Laws.{
  Draws, Drawn, IsTop, weight_sum, choose_candidate-IsTop, choose_weighted_binding-Drawn,
}
use caddy_agent_gateway.LlmRoute.Resolve.{
  RequestRequirements, ManagedView, ProviderConfig, ResolvedTarget, World, resolve_logical_target,
  target_by_name, eligible_candidates, consider, finish_resolve, assess, meets_generic_requirements,
  missing_protocol_features, supported_features,
}
use caddy_agent_gateway.LlmRoute.Resolve.Eligible.{Eligible}
use caddy_agent_gateway.LlmRoute.Resolve.Target.{
  Justified, requested_model, resolve_logical_target-Justified, resolve_logical_target-answers,
}
use caddy_agent_gateway.LlmRoute.Validate.{validate_logical, validate_direct}
use caddy_agent_gateway.LlmRoute.Validate.Laws.{
  WellFormed, CredentialsOk, validate_logical-WellFormed, validate_direct_iff,
}

abbrev capabilities : ModelCapabilities
capabilities = record {
  streaming = true;
  tools = true;
  vision = false;
  embeddings = false;
  context_window = pos 0;
  max_output_tokens = pos 0;
}

abbrev view : ManagedView
view = record { enabled = true; credential_scope = "id:p1"; capabilities = capabilities }

abbrev cfg : ProviderConfig
cfg = record { provider_type = "openai"; disabled = false; default_model = "m" }

-- The catalog manages the models of p1 only; the draw is always 0.
abbrev world : World
world = record {
  fold = λ c. c;
  type_features = ("openai", "files" ∷ []) ∷ [];
  get_resolved_managed_model = λ provider model. ok (if provider == "p1" then some view else none);
  get_config = λ provider. ok cfg;
  intn = λ n. 0;
}

world-Draws : Draws (λ n. 0)
world-Draws n h = h

abbrev candidate : String → ℤ → RouteModelCandidate
candidate provider weight = record {
  provider_id = provider;
  upstream_model = "m";
  weight = weight;
  priority = pos 0;
  default = false;
}

abbrev fast : RouteModelTarget
fast = record {
  name = "fast";
  strategy = "";
  default_candidate = "";
  candidates = candidate "p2" (pos 3) ∷ candidate "p1" (pos 1) ∷ [];
}

abbrev common : RouteTargetPolicyCommon
common = record {
  credential_selector_value = "";
  credential_scope_order_value = [];
  credential_type_order_value = [];
}

abbrev policy : RouteLogicalModelTargetPolicy
policy = record {
  common = common;
  default_model = "fast";
  model_selector_strategy = "weighted";
  fallback = record { enabled = false; max_num = pos 2 };
  model_targets = fast ∷ [];
}

abbrev request : RequestRequirements
request = record {
  model = "";
  require_streaming = true;
  require_tools = false;
  require_vision = false;
  require_embeddings = false;
  protocol_requirements = ("files", "attachment" ∷ []) ∷ [];
  excluded_candidates = "p3/m" ∷ [];
}

abbrev answer : ResolvedTarget
answer = record {
  logical_model = "fast";
  provider_id = "p1";
  provider_type = "openai";
  upstream_model = "m";
  credential_scope = "id:p1";
  capabilities = capabilities;
}

resolves : resolve_logical_target world policy request ≡ ok answer
unfolding resolve_logical_target normalize_logical trim_space target_by_name normalize_target
    eligible_candidates consider candidate_key normalize_candidate finish_resolve assess
    meets_generic_requirements missing_protocol_features supported_features lookup to_lower
    choose_candidate
resolves = refl

resolve_logical_target-Justified_example :
    Justified world
      (requested_model world policy request)
      (normalize_logical policy).model_targets
      request
      answer
resolve_logical_target-Justified_example =
    resolve_logical_target-Justified world policy request answer resolves

p1-Eligible : Eligible world request (candidate "p1" (pos 1))
unfolding candidate_key supported_features lookup to_lower trim_space
p1-Eligible = record {
  not_excluded = refl;
  view = view;
  managed = refl;
  view_enabled = refl;
  cfg = cfg;
  configured = refl;
  provider_enabled = refl;
  capable = record {
    streams = inr refl;
    uses_tools = inl refl;
    sees = inl refl;
    embeds = inl refl;
  };
  supports = (refl, tt);
}

resolve_logical_target-answers_example :
    (a : ResolvedTarget) × (resolve_logical_target world policy request ≡ ok a)
unfolding normalize_logical normalize_target normalize_candidate trim_space target_by_name
resolve_logical_target-answers_example =
    resolve_logical_target-answers world policy request fast (candidate "p1" (pos 1))
      (λ e. let clash : Path String "fast" "" = e in ground (arith, eq_iff "fast" "")) refl
      (λ entry m. ((if entry.provider_id == "p1" then some view else none), refl)) (there here)
      p1-Eligible

validate_logical-WellFormed_example : WellFormed (normalize_logical policy)
unfolding validate_logical normalize_target trim_space normalize_candidate candidate_key
validate_logical-WellFormed_example = validate_logical-WellFormed policy refl

abbrev direct : RouteDirectProviderPolicy
direct = record { common = common; provider_id = " p1 "; provider_target = "" }

validate_direct_iff_example : (validate_direct direct ≡ ok tt) ↔ (
    ((normalize_direct direct).provider_id ≢ "")
    × CredentialsOk (normalize_direct direct).common
    × (contains (credential_scope_order (normalize_direct direct).common) "model_custom" ≡ false))
validate_direct_iff_example = validate_direct_iff direct

abbrev resolved : String → ℤ → ℤ → ResolvedCandidate
resolved provider weight priority = record {
  provider_id = provider;
  provider_type = "openai";
  upstream_model = "m";
  credential_scope = "";
  capabilities = capabilities;
  weight = weight;
  priority = priority;
}

abbrev low : ResolvedCandidate
low = resolved "p1" (pos 3) (pos 1)

abbrev high : ResolvedCandidate
high = resolved "p2" (pos 1) (pos 2)

choose_weighted_binding-Drawn_example :
    (c : ResolvedCandidate) × (choose_weighted_binding (λ n. 0) (low ∷ high ∷ []) ≡ some c)
    × Drawn (low ∷ high ∷ []) 0 c
unfolding weight_sum
choose_weighted_binding-Drawn_example =
    choose_weighted_binding-Drawn (λ n. 0) (low ∷ high ∷ []) world-Draws (omega arith) (omega arith)

-- Two weights of 2 ^ 62 wrap the total around: whatever would be drawn, the first is chosen.
abbrev heavy : String → ResolvedCandidate
heavy provider = resolved provider (pos 4611686018427387904) (pos 1)

heavy_first :
    (intn : ℕ → ℕ) → choose_weighted_binding intn (heavy "p1" ∷ heavy "p2" ∷ []) ≡ some (heavy "p1")
unfolding choose_weighted_binding total_weight
heavy_first intn = refl

choose_candidate-IsTop_example :
    (d : ResolvedCandidate) × (choose_candidate (λ n. 0) (low ∷ high ∷ []) "auto" ≡ some d)
    × Member d (low ∷ high ∷ [])
    × (Path String "auto" "weighted" ⊎ IsTop d (low ∷ high ∷ []))
choose_candidate-IsTop_example = choose_candidate-IsTop (λ n. 0) low (high ∷ []) "auto"

slugify_path-is_slug_example : is_slug (slugify_path (λ c. c) "/api/v1/") ≡ true
slugify_path-is_slug_example = slugify_path-is_slug (λ c. c) "/api/v1/"

generate_route_id-valid_example :
    validate_route_id (λ c. c) (generate_route_id (λ c. c) "llm" "svc-1" "/a%2fb") ≡ ok tt
unfolding validate_route_id
generate_route_id-valid_example = generate_route_id-valid (λ c. c) "llm" "svc-1" "/a%2fb" refl refl
