-- ===== src/Fallback.antt =====
-- pkg/gateway/routedprovider.go: a request to a route is tried with one credential and one candidate
-- after another, until one answers or none is left (executeWithFallback).
mod Types
pub mod Tried
pub mod Select
pub mod Bounds
pub mod Once
pub mod Answer
pub mod Scheduled
use Prim.Native.Char.{Char}
use Prim.Native.String
use caddy_agent_gateway.Base.{
  ℕ, zero, suc, ◌+◌, String, Bool, true, false, not, ◌&&◌, ◌||◌, List, [], ◌∷◌, ◌++◌, Option, none,
  some, if◌then◌else◌, ◌==◌, Eq, string_eq, is_some, ℤ, pos, ltb_ℤ, int_eq, lookup, insert,
  trim_space, Result, ok, err,
}
use caddy_agent_gateway.LlmRoute.Policy.{RouteFallbackPolicy, candidate_key}
use caddy_agent_gateway.LlmRoute.Resolve.{ResolvedTarget, provider_id_credential_scope}
use caddy_agent_gateway.Scheduler.Credential.{CredentialFailure, ManagedCredential}
use caddy_agent_gateway.Scheduler.Mark.{RequestResult}
use caddy_agent_gateway.Scheduler.Scopes.{Filter}
unfoldable pub use Types.*

module _ (fold : Char → Char) {W E P : Type 0} (env : Surroundings W E P) (route : Route) where
  unfoldable pub max_fallbacks : ℤ
  max_fallbacks =
      if route.uses_logical_model && route.fallback_policy.enabled
      then route.fallback_policy.max_num
      else pos 0

  unfoldable pub advance_candidate : ResolvedTarget → ExecutionState → Option ExecutionState
  unfolding max_fallbacks insert candidate_key
  advance_candidate target state =
      if not route.uses_logical_model || not (ltb_ℤ (pos state.model_fallbacks) max_fallbacks)
      then none
      else some (record state {
        tried_candidates =
            insert (candidate_key target.provider_id target.upstream_model) tt
              state.tried_candidates;
        model_fallbacks = state.model_fallbacks + 1;
      })

  scope_of : ResolvedTarget → String → List String → List String
  unfolding provider_id_credential_scope
  scope_of target scope rest =
      if scope == "model_custom"
      then (if target.credential_scope == "" then rest else target.credential_scope ∷ rest)
      else (if scope == "provider_id"
          then provider_id_credential_scope fold target.provider_id ∷ rest
          else rest)

  unfoldable pub expand_credential_scopes : ResolvedTarget → List String → List String
  unfolding scope_of
  expand_credential_scopes target [] = []
  expand_credential_scopes target (scope ∷ scopes) =
      scope_of target scope (expand_credential_scopes target scopes)

  mark_credential_refresh_failure : String → E → W → W
  mark_credential_refresh_failure id e world =
      env.mark_result
        (record {
          credential_id = id;
          model = "";
          success = false;
          retry_after = some refresh_failure_cooldown;
          error = some (record {
            code = env.status_text (pos 502);
            message = String.◌++◌ "refresh credential: " (env.message e);
            retryable = true;
            http_status = pos 502;
          });
          credential_wide = true;
        })
        world

  abbrev pub try_credential : String → ExecutionState → ExecutionState
  try_credential id state = record state {
    tried_credentials = insert id tt state.tried_credentials;
  }

  -- A credential that was picked, or the next type where its refresh fails.
  use_refreshed :
      ManagedCredential
      → ExecutionState
      → Result E ManagedCredential × W
      → Option ManagedCredential × ExecutionState × W
  unfolding insert mark_credential_refresh_failure
  use_refreshed cred state (ok refreshed, world) =
      (some refreshed, try_credential refreshed.credential.id state, world)
  use_refreshed cred state (err e, world) = (
    none,
    try_credential cred.credential.id
        (record state { last_credential_refresh_id = cred.credential.id }),
    mark_credential_refresh_failure cred.credential.id e world,
  )

  use_picked :
      ExecutionState → Option ManagedCredential × W → Option ManagedCredential × ExecutionState × W
  unfolding use_refreshed insert
  use_picked state (none, world) = (none, state, world)
  use_picked state (some cred, world) =
      if cred.credential.credential_type == "oauth_token"
      then use_refreshed cred state (env.refresh_credential_if_needed cred.credential.id world)
      else (some cred, try_credential cred.credential.id state, world)

  -- The inner loop of selectCredential.
  unfoldable pub type_loop :
      ResolvedTarget
      → String
      → List String
      → ExecutionState
      → W
      → Option ManagedCredential × ExecutionState × W
  unfolding use_picked
  type_loop target scope [] state world = (none, state, world)
  type_loop target scope (credential_type ∷ types) state world =
      let filter : Filter = record {
        filter_type = credential_type;
        credential_scope = scope;
        model = target.upstream_model;
        selector = route.credential_selector;
      } in
      let (cred, state', world') =
        use_picked state (env.pick filter state.tried_credentials world) in
      let rest = type_loop target scope types state' world' in
      if is_some cred then (cred, state', world') else rest

  -- The outer one.
  unfoldable pub scope_loop :
      ResolvedTarget
      → List String
      → ExecutionState
      → W
      → Option ManagedCredential × ExecutionState × W
  unfolding type_loop
  scope_loop target [] state world = (none, state, world)
  scope_loop target (scope ∷ scopes) state world =
      if scope == ""
      then scope_loop target scopes state world
      else (let (cred, state', world') =
            type_loop target scope route.credential_type_order state world in
          let rest = scope_loop target scopes state' world' in
          if is_some cred then (cred, state', world') else rest)

  unfoldable pub selection_of : Option ManagedCredential → Selection
  selection_of none = unavailable
  selection_of (some cred) = selected cred

  unfoldable pub select_credential :
      ResolvedTarget → ExecutionState → W → Selection × ExecutionState × W
  unfolding expand_credential_scopes scope_loop selection_of
  select_credential target state world =
      if not env.managed
      then (unmanaged, state, world)
      else (let (cred, state', world') =
            scope_loop target (expand_credential_scopes target route.credential_scope_order) state
              world in
          (selection_of cred, state', world'))

  -- markProviderConfigFallbackAttempt
  unfoldable pub mark_provider_config : ResolvedTarget → P → ExecutionState → Option ExecutionState
  unfolding lookup insert trim_space candidate_key
  mark_provider_config target base state =
      let key = candidate_key target.provider_id target.upstream_model in
      if trim_space (env.api_key base) == ""
        || is_some (lookup key state.tried_provider_config_auths)
      then none
      else some (record state {
        tried_provider_config_auths = insert key tt state.tried_provider_config_auths;
      })

  attempt_error : Option E → Option CredentialFailure
  unfolding status_code
  attempt_error none = none
  attempt_error (some e) =
      let status = status_code (env.carried_status e) in
      some (record {
        code = env.status_text status;
        message = env.message e;
        http_status = status;
        retryable = status == pos 429 || not (ltb_ℤ status (pos 500));
      })

  -- markResult
  unfoldable pub mark_attempt : Attempt E → W → W
  unfolding attempt_error
  mark_attempt attempt world = elim (attempt.cred) [
    | none ↦ world
    | some cred ↦
        env.mark_result
          (record {
            credential_id = cred.credential.id;
            model = attempt.target.upstream_model;
            success = not (is_some attempt.outcome);
            retry_after = none;
            error = attempt_error attempt.outcome;
            credential_wide = false;
          })
          world
  ]

  -- `lastErr` where there is one.
  unfoldable pub or_last : Option E → ExecuteError E → ExecuteError E
  or_last none e = e
  or_last (some last) e = passed_on last

  next_candidate : ExecuteError E → ResolvedTarget → Loop W E P → Next W E P
  unfolding advance_candidate
  next_candidate e target l = elim (advance_candidate target l.state) [
    | none ↦ returns (some e) l
    | some state ↦ continues (record l { current = none; state = state })
  ]

  after_call : ResolvedTarget × P → Option E → Loop W E P → Next W E P
  unfolding next_candidate is_reselect status_code
  after_call (target, base) none l = returns none l
  after_call (target, base) (some e) l =
      if not (is_reselect (status_code (env.carried_status e)))
      then returns (some (passed_on e)) (record l { last_err = some e })
      else (if env.managed
          then continues (record l { current = some (target, base); last_err = some e })
          else next_candidate (passed_on e) target (record l { last_err = some e }))

  unfoldable pub try_attempt :
      ResolvedTarget × P → Option ManagedCredential → Loop W E P → Next W E P
  unfolding mark_attempt after_call
  try_attempt (target, base) cred l =
      let (outcome, world) = env.call target base cred l.world in
      let attempt : Attempt E = record { target = target; cred = cred; outcome = outcome } in
      after_call (target, base) outcome
        (record l { world = mark_attempt attempt world; attempts = attempt ∷ l.attempts })

  unfoldable pub with_selection : ResolvedTarget × P → Selection → Loop W E P → Next W E P
  unfolding try_attempt mark_provider_config next_candidate or_last
  with_selection at unmanaged l = try_attempt at none l
  with_selection at (selected cred) l = try_attempt at (some cred) l
  with_selection (target, base) unavailable l = elim (mark_provider_config target base l.state) [
    | some state ↦ try_attempt (target, base) none (record l { state = state })
    | none ↦
        next_candidate
          (or_last l.last_err (
            credential_unavailable target.provider_id target.upstream_model
              l.state.last_credential_refresh_id))
          target l
  ]

  unfoldable pub with_target : ResolvedTarget × P → Loop W E P → Next W E P
  unfolding select_credential with_selection
  with_target (target, base) l =
      let (selection, state, world) = select_credential target l.state l.world in
      with_selection (target, base) selection (record l { state = state; world = world })

  with_provider : ResolvedTarget → ProviderLookup P → Loop W E P → Next W E P
  unfolding with_target or_last
  with_provider target (is_provider base) l =
      with_target (target, base) (record l { current = some (target, base) })
  with_provider target is_disabled_provider l =
      returns (some (or_last l.last_err (provider_disabled target.provider_id))) l
  with_provider target no_provider l =
      returns (some (or_last l.last_err (provider_not_configured target.provider_id))) l

  with_resolved : Result E ResolvedTarget → Loop W E P → Next W E P
  unfolding with_provider or_last
  with_resolved (err e) l = returns (some (or_last l.last_err (passed_on e))) l
  with_resolved (ok target) l =
      let (found, world) = env.resolve_provider target.provider_id l.world in
      with_provider target found (record l { world = world })

  -- One round of the loop.
  unfoldable pub round : Loop W E P → Next W E P
  unfolding with_target with_resolved
  round l = elim (l.current) [
    | some at ↦ with_target at l
    | none ↦
        let (resolved, world) = env.resolve_target l.state.tried_candidates l.world in
        with_resolved resolved (record l { world = world })
  ]

  -- So many rounds at most.
  unfoldable pub rounds : ℕ → Loop W E P → Option (Option (ExecuteError E) × Loop W E P)
  unfolding round
  rounds zero l = none
  rounds (suc fuel) l = elim (round l) [
    | returns e l' ↦ some (e, l')
    | continues l' ↦ rounds fuel l'
  ]

-- executeWithFallback, where the route may be missing. `Bounds` shows how much fuel is enough.
unfoldable pub execute_with_fallback :
    {W E P : Type 0} (fold : Char → Char)
    → Surroundings W E P
    → Option Route
    → ℕ
    → W
    → Option (Option (ExecuteError E) × Loop W E P)
unfolding rounds
execute_with_fallback fold env none fuel world = some (some route_not_configured, start world)
execute_with_fallback fold env (some route) fuel world = rounds fold env route fuel (start world)
