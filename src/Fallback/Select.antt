-- ===== src/Fallback/Select.antt =====
-- pkg/gateway/routedprovider.go: the cases of one round.
use Prim.Native.Char.{Char}
use caddy_agent_gateway.Base.{
  String, ◌≡◌, refl, ap, ◌⊎◌, inl, inr, true, false, not, ◌||◌, List, Option, some, if◌then◌else◌,
  ◌==◌, string_eq, is_some, lookup, insert, trim_space, Bool-cases,
}
use caddy_agent_gateway.LlmRoute.Policy.{candidate_key}
use caddy_agent_gateway.LlmRoute.Resolve.{ResolvedTarget}
use caddy_agent_gateway.Fallback.{
  Route, Surroundings, ExecuteError, ExecutionState, Loop, Next, returns, continues, Selection,
  unmanaged, expand_credential_scopes, scope_loop, select_credential, mark_provider_config,
  selection_of,
}

abbrev pub key_of : ResolvedTarget → String
key_of target = candidate_key target.provider_id target.upstream_model

pub Next-cases :
    {W E P : Type 0} (n : Next W E P)
    → ((e : Option (ExecuteError E)) × (l : Loop W E P) × (n ≡ returns e l))
      ⊎ ((l : Loop W E P) × (n ≡ continues l))
Next-cases (returns e l) = inl (e, l, refl)
Next-cases (continues l) = inr (l, refl)

module _ (fold : Char → Char) {W E P : Type 0} (env : Surroundings W E P) (route : Route) where
  abbrev pub scopes_of : ResolvedTarget → List String
  scopes_of target = expand_credential_scopes fold env route target route.credential_scope_order

  pub select_credential-bare :
      (target : ResolvedTarget) (s : ExecutionState) (world : W)
      → env.managed ≡ false
      → select_credential fold env route target s world ≡ (unmanaged, s, world)
  unfolding select_credential
  select_credential-bare target s world bare =
      ap (λ b. if not b then (unmanaged, s, world) else found) bare
    where
      found : Selection × ExecutionState × W
      found =
          let r = scope_loop fold env route target (scopes_of target) s world in
          (selection_of fold env route r.0, r.1, r.2)

  pub select_credential-managed :
      (target : ResolvedTarget) (s : ExecutionState) (world : W)
      → env.managed ≡ true
      → let r = scope_loop fold env route target (scopes_of target) s world in
        select_credential fold env route target s world
        ≡ (selection_of fold env route r.0, r.1, r.2)
  unfolding select_credential
  select_credential-managed target s world managed =
      ap (λ b. if not b then (unmanaged, s, world) else found) managed
    where
      found : Selection × ExecutionState × W
      found =
          let r = scope_loop fold env route target (scopes_of target) s world in
          (selection_of fold env route r.0, r.1, r.2)

  pub mark_provider_config-tried :
      (target : ResolvedTarget) (base : P) (s s' : ExecutionState)
      → mark_provider_config fold env route target base s ≡ some s'
      → s'.tried_credentials ≡ s.tried_credentials
  unfolding mark_provider_config
  mark_provider_config-tried target base s s' h =
      elim (Bool-cases (
        trim_space (env.api_key base) == ""
        || is_some (lookup (key_of target) s.tried_provider_config_auths))) [
          | inl stop ↦ let refused = rw stop at h in absurd cc
          | inr go ↦
              let new : ExecutionState = record s {
                tried_provider_config_auths =
                    insert (key_of target) tt s.tried_provider_config_auths;
              } in
              let h' : Path (Option ExecutionState) (some new) (some s') = rw go at h in
              let same : new ≡ s' = cc in rw (← same) refl
        ]
