-- ===== src/LlmRoute/Resolve.antt =====
-- pkg/gateway/llmroute/policy.go and pkg/llm/provider/protocol_feature.go: resolving a request to a
-- target. The model catalog and the provider configs are what the code takes as interfaces.
pub mod Laws
pub mod Eligible
pub mod Target
use caddy_agent_gateway.Base.{
  ℕ, String, ◌≡◌, refl, Bool, true, false, pos, not, ◌&&◌, ◌||◌, List, [], ◌∷◌, ◌++◌, Option, none,
  some, if◌then◌else◌, ◌==◌, string_eq, contains, keys, lookup, keep_if, sort_by, str_less, Result,
  ok, err, ◌>>=◌, ◌>>◌, reject_if, to_lower, trim_space,
}
use Prim.Native.Char.{Char}
use Prim.Native.String
use caddy_agent_gateway.LlmRoute.Policy.{
  RouteModelCandidate, RouteModelTarget, RouteLogicalModelTargetPolicy, RouteDirectProviderPolicy,
  normalize_logical, normalize_direct, candidate_key, or_default,
}
use caddy_agent_gateway.LlmRoute.Choose.{ModelCapabilities, ResolvedCandidate, choose_candidate}

-- `protocol_requirements` maps a feature to its reasons; `excluded_candidates` is a set of keys.
pub record RequestRequirements : Type 0 where
  pub model : String
  pub require_streaming : Bool
  pub require_tools : Bool
  pub require_vision : Bool
  pub require_embeddings : Bool
  pub protocol_requirements : List (String × List String)
  pub excluded_candidates : List String

pub record ManagedView : Type 0 where
  pub enabled : Bool
  pub credential_scope : String
  pub capabilities : ModelCapabilities

pub record ProviderConfig : Type 0 where
  pub provider_type : String
  pub disabled : Bool
  pub default_model : String

pub record RequirementGap : Type 0 where
  pub provider_id : String
  pub provider_type : String
  pub upstream_model : String
  pub missing : List String

-- `capabilities` are the zero value on a direct route.
pub record ResolvedTarget : Type 0 where
  pub logical_model : String
  pub provider_id : String
  pub provider_type : String
  pub upstream_model : String
  pub credential_scope : String
  pub capabilities : ModelCapabilities

pub data ResolveError : Type 0 where
  -- 400, 403 and 502 with their messages' names, 501 with the gaps, and an error passed on.
  model_required : ResolveError
  model_not_allowed : String → ResolveError
  requirement_gaps : String → List RequirementGap → ResolveError
  no_eligible_bindings : String → List String → ResolveError
  lookup_failed : String → ResolveError
  index_out_of_range : ResolveError

unfoldable pub features : List (String × List String) → List String
unfolding sort_by
features values = sort_by str_less (keys values)

unfoldable pub missing_protocol_features : List (String × List String) → List String → List String
unfolding features
missing_protocol_features required supported =
    keep_if (λ f. not (contains supported f)) (features required)

abbrev pub listed : Bool → String → List String
listed true name = name ∷ []
listed false name = []

unfoldable pub request_requirement_names : RequestRequirements → List String
unfolding sort_by features
request_requirement_names req = sort_by str_less (
    listed req.require_streaming "streaming"
    ++ (listed req.require_tools "tools"
        ++ (listed req.require_vision "vision"
            ++ (listed req.require_embeddings "embeddings" ++ features req.protocol_requirements))))

unfoldable pub meets_generic_requirements : ModelCapabilities → RequestRequirements → Bool
meets_generic_requirements c req =
    if req.require_streaming && not c.streaming
    then false
    else (if req.require_tools && not c.tools
        then false
        else (if req.require_vision && not c.vision
            then false
            else not (req.require_embeddings && not c.embeddings)))

unfoldable pub target_by_name : String → List RouteModelTarget → Option RouteModelTarget
target_by_name name [] = none
target_by_name name (t ∷ ts) = if t.name == name then some t else target_by_name name ts

-- What the loop does with one candidate.
pub data Verdict : Type 0 where
  skip : Verdict
  gap : RequirementGap → Verdict
  keep : ResolvedCandidate → Verdict

-- `fold` is the case table of the characters beyond ASCII; `type_features` is the registry of the
-- provider types' protocol features.
pub record World : Type 0 where
  pub fold : Char → Char
  pub type_features : List (String × List String)
  pub get_resolved_managed_model : String → String → Result String (Option ManagedView)
  pub get_config : String → Result String ProviderConfig
  pub intn : ℕ → ℕ

abbrev pub no_capabilities : ModelCapabilities
no_capabilities = record {
  streaming = false;
  tools = false;
  vision = false;
  embeddings = false;
  context_window = pos 0;
  max_output_tokens = pos 0;
}

abbrev pub resolved_candidate :
    RouteModelCandidate → ManagedView → ProviderConfig → ResolvedCandidate
resolved_candidate candidate view cfg = record {
  provider_id = candidate.provider_id;
  provider_type = cfg.provider_type;
  upstream_model = candidate.upstream_model;
  credential_scope = view.credential_scope;
  capabilities = view.capabilities;
  weight = candidate.weight;
  priority = candidate.priority;
}

-- credential.ProviderIDCredentialScope, whose prefix is "id:".
unfoldable pub provider_id_credential_scope : (Char → Char) → String → String
provider_id_credential_scope fold provider_id =
    let id = to_lower fold (trim_space provider_id) in if id == "" then "" else String.◌++◌ "id:" id

module _ (world : World) where
  open world use {fold, type_features, get_resolved_managed_model, get_config, intn}

  some_or_empty : Option (List String) → List String
  some_or_empty none = []
  some_or_empty (some fs) = fs

  unfoldable pub supported_features : String → List String
  unfolding some_or_empty
  supported_features provider_type =
      some_or_empty (lookup (to_lower fold (trim_space provider_type)) type_features)

  unfoldable pub assess :
      RequestRequirements → RouteModelCandidate → ManagedView → ProviderConfig → Verdict
  assess req candidate view cfg =
      let missing =
        missing_protocol_features req.protocol_requirements
          (supported_features cfg.provider_type) in
      if not (meets_generic_requirements view.capabilities req) then skip else elim missing [
        | [] ↦ keep (resolved_candidate candidate view cfg)
        | f ∷ fs ↦ gap (record {
          provider_id = candidate.provider_id;
          provider_type = cfg.provider_type;
          upstream_model = candidate.upstream_model;
          missing = f ∷ fs;
        })
      ]

  -- `err != nil || cfg.Disabled` is passed over.
  consider_config :
      RequestRequirements
      → RouteModelCandidate
      → ManagedView
      → Result String ProviderConfig
      → Verdict
  consider_config req candidate view (err e) = skip
  consider_config req candidate view (ok cfg) =
      if cfg.disabled then skip else assess req candidate view cfg

  consider_view :
      RequestRequirements
      → RouteModelCandidate
      → Result String (Option ManagedView)
      → Result ResolveError Verdict
  unfolding consider_config
  consider_view req candidate (err e) = err (lookup_failed e)
  consider_view req candidate (ok none) = ok skip
  consider_view req candidate (ok (some view)) =
      if view.enabled
      then ok (consider_config req candidate view (get_config candidate.provider_id))
      else ok skip

  -- The body of the loop over the candidates.
  unfoldable pub consider : RequestRequirements → RouteModelCandidate → Result ResolveError Verdict
  unfolding consider_view
  consider req candidate =
      if contains req.excluded_candidates
        (candidate_key candidate.provider_id candidate.upstream_model)
      then ok skip
      else consider_view req candidate
          (get_resolved_managed_model candidate.provider_id candidate.upstream_model)

  add_verdict :
      Verdict
      → List ResolvedCandidate × List RequirementGap
      → List ResolvedCandidate × List RequirementGap
  add_verdict skip (cs, gs) = (cs, gs)
  add_verdict (gap g) (cs, gs) = (cs, g ∷ gs)
  add_verdict (keep c) (cs, gs) = (c ∷ cs, gs)

  -- The candidates and the gaps, each in the order of the target's list.
  unfoldable pub eligible_candidates :
      RequestRequirements
      → List RouteModelCandidate
      → Result ResolveError (List ResolvedCandidate × List RequirementGap)
  unfolding add_verdict
  eligible_candidates req [] = ok ([], [])
  eligible_candidates req (candidate ∷ rest) = do
    verdict ← consider req candidate
    found ← eligible_candidates req rest
    ok (add_verdict verdict found)

  -- The part behind the loop.
  unfoldable pub finish_resolve :
      RequestRequirements
      → String
      → String
      → List ResolvedCandidate × List RequirementGap
      → Result ResolveError ResolvedTarget
  finish_resolve req model_name strategy ([], []) =
      err (no_eligible_bindings model_name (request_requirement_names req))
  finish_resolve req model_name strategy ([], g ∷ gs) = err (requirement_gaps model_name (g ∷ gs))
  finish_resolve req model_name strategy (c ∷ cs, gs) =
      elim (choose_candidate intn (c ∷ cs) strategy) [
        | none ↦ err index_out_of_range
        | some chosen ↦ ok (record {
          logical_model = model_name;
          provider_id = chosen.provider_id;
          provider_type = chosen.provider_type;
          upstream_model = chosen.upstream_model;
          credential_scope = chosen.credential_scope;
          capabilities = chosen.capabilities;
        })
      ]

  or_not_allowed : String → Option RouteModelTarget → Result ResolveError RouteModelTarget
  or_not_allowed name none = err (model_not_allowed name)
  or_not_allowed name (some t) = ok t

  unfoldable pub resolve_logical_target :
      RouteLogicalModelTargetPolicy → RequestRequirements → Result ResolveError ResolvedTarget
  unfolding or_not_allowed
  resolve_logical_target policy req =
      let p = normalize_logical policy in
      let model_name = or_default req.model p.default_model in
      do
        reject_if (model_name == "") model_required
        target ← or_not_allowed model_name (target_by_name model_name p.model_targets)
        found ← eligible_candidates req target.candidates
        finish_resolve req model_name p.model_selector_strategy found

  direct_target :
      RequestRequirements
      → String
      → Result String ProviderConfig
      → Result ResolveError ResolvedTarget
  direct_target req provider_id (err e) = err (lookup_failed e)
  direct_target req provider_id (ok cfg) =
      let upstream_model = or_default req.model cfg.default_model in
      let missing =
        missing_protocol_features req.protocol_requirements
          (supported_features cfg.provider_type) in
      elim missing [
        | [] ↦ ok (record {
          logical_model = "";
          provider_id = provider_id;
          provider_type = cfg.provider_type;
          upstream_model = upstream_model;
          credential_scope = provider_id_credential_scope fold provider_id;
          capabilities = no_capabilities;
        })
        | f ∷ fs ↦ err (
            requirement_gaps "" (
              record {
                provider_id = provider_id;
                provider_type = cfg.provider_type;
                upstream_model = upstream_model;
                missing = f ∷ fs;
              }
              ∷ []))
      ]

  -- The gap of a direct route stands alone: it is given here as a list of one, with no target name.
  unfoldable pub resolve_direct_target :
      RouteDirectProviderPolicy → RequestRequirements → Result ResolveError ResolvedTarget
  unfolding direct_target
  resolve_direct_target policy req =
      let p = normalize_direct policy in direct_target req p.provider_id (get_config p.provider_id)
