-- ===== src/Fallback/Types.antt =====
-- pkg/gateway/routedprovider.go: what the loop over candidates and credentials works with.
use caddy_agent_gateway.Base.{
  ℕ, String, Bool, not, ◌||◌, List, [], Option, none, some, if◌then◌else◌, ◌==◌, string_eq, ℤ, pos,
  ltb_ℤ, int_eq, Result,
}
use caddy_agent_gateway.LlmRoute.Policy.{RouteFallbackPolicy}
use caddy_agent_gateway.LlmRoute.Resolve.{ResolvedTarget}
use caddy_agent_gateway.Scheduler.Credential.{ManagedCredential}
use caddy_agent_gateway.Scheduler.Mark.{RequestResult}
use caddy_agent_gateway.Scheduler.Scopes.{Filter}

-- What the loop asks of the route. Its target policy is an interface in the code.
pub record Route : Type 0 where
  pub uses_logical_model : Bool
  pub fallback_policy : RouteFallbackPolicy
  pub credential_scope_order : List String
  pub credential_type_order : List String
  pub credential_selector : String

-- The answer of a ProviderResolver.
pub data ProviderLookup (P : Type 0) : Type 0 where
  is_provider : P → ProviderLookup P
  is_disabled_provider no_provider : ProviderLookup P

-- What surrounds the loop. `W` is the state of all of it, also of what other requests do meanwhile;
-- `E` holds the errors of others, `P` the providers.
pub record Surroundings (W E P : Type 0) : Type 1 where
  -- The scheduler and the credential manager are there.
  pub managed : Bool
  pub resolve_target : List (String × Unit {0}) → W → Result E ResolvedTarget × W
  pub resolve_provider : String → W → ProviderLookup P × W
  pub api_key : P → String
  -- Scheduler.Pick, with `none` for an error or no credential.
  pub pick : Filter → List (String × Unit {0}) → W → Option ManagedCredential × W
  -- A credential or an error. The code panics on neither, which a credential that is deregistered
  -- during its refresh comes to; that is not represented.
  pub refresh_credential_if_needed : String → W → Result E ManagedCredential × W
  pub mark_result : RequestResult → W → W
  -- The request itself: `none` is success.
  pub call : ResolvedTarget → P → Option ManagedCredential → W → Option E × W
  -- The status that an error carries, its message, and http.StatusText.
  pub carried_status : E → Option ℤ
  pub message : E → String
  pub status_text : ℤ → String

pub data ExecuteError (E : Type 0) : Type 0 where
  route_not_configured : ExecuteError E
  provider_disabled provider_not_configured : String → ExecuteError E
  -- The provider, the model, and the credential whose refresh failed last.
  credential_unavailable : String → String → String → ExecuteError E
  passed_on : E → ExecuteError E

-- executionState
pub record ExecutionState : Type 0 where
  pub tried_candidates : List (String × Unit {0})
  pub tried_credentials : List (String × Unit {0})
  pub tried_provider_config_auths : List (String × Unit {0})
  pub last_credential_refresh_id : String
  pub model_fallbacks : ℕ

abbrev pub new_execution_state : ExecutionState
new_execution_state = record {
  tried_candidates = [];
  tried_credentials = [];
  tried_provider_config_auths = [];
  last_credential_refresh_id = "";
  model_fallbacks = 0;
}

-- A call that was made: the candidate, the credential where one was selected, and what it said.
pub record Attempt (E : Type 0) : Type 0 where
  pub target : ResolvedTarget
  pub cred : Option ManagedCredential
  pub outcome : Option E

-- The variables of the loop; `attempts` has the last call first.
pub record Loop (W E P : Type 0) : Type 0 where
  pub current : Option (ResolvedTarget × P)
  pub state : ExecutionState
  pub last_err : Option E
  pub world : W
  pub attempts : List (Attempt E)

pub data Next (W E P : Type 0) : Type 0 where
  returns : Option (ExecuteError E) → Loop W E P → Next W E P
  continues : Loop W E P → Next W E P

pub data Selection : Type 0 where
  unmanaged unavailable : Selection
  selected : ManagedCredential → Selection

-- statuserr.StatusCode with http.StatusBadGateway to fall back on
unfoldable pub status_code : Option ℤ → ℤ
status_code none = pos 502
status_code (some status) = if status == pos 0 then pos 502 else status

-- classifyFailure: whether to try another.
unfoldable pub is_reselect : ℤ → Bool
is_reselect status =
    status == pos 429
    || status == pos 502
    || status == pos 503
    || status == pos 504
    || not (ltb_ℤ status (pos 500))

-- credential.RefreshFailureCooldown, in nanoseconds.
abbrev pub refresh_failure_cooldown : ℤ
refresh_failure_cooldown = pos 30000000000

abbrev pub start : {W E P : Type 0} → W → Loop W E P
start world = record {
  current = none;
  state = new_execution_state;
  last_err = none;
  world = world;
  attempts = [];
}
