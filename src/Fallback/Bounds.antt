-- ===== src/Fallback/Bounds.antt =====
-- pkg/gateway/routedprovider.go: the loop over candidates and credentials ends, and tries no
-- credential twice.
use Prim.Native.Char.{Char}
use caddy_agent_gateway.Base.{
  ℕ, ◌+◌, ◌-◌, ◌*◌, ◌<◌, String, ◌≡◌, refl, inl, inr, true, false, not, ◌||◌, List, Option, none,
  some, arith, if◌then◌else◌, ◌==◌, string_eq, is_some, ℤ, pos, negsuc, pos_part, ltb_ℤ, lookup,
  insert, lookup-insert_self, trim_space, Bool-cases,
}
use caddy_agent_gateway.LlmRoute.Resolve.{ResolvedTarget}
use caddy_agent_gateway.Fallback.{
  Route, Surroundings, ExecutionState, Loop, Next, continues, max_fallbacks, advance_candidate,
  mark_provider_config,
}
use caddy_agent_gateway.Fallback.Tried.{left}
use caddy_agent_gateway.Fallback.Select.{key_of}

-- Whether the provider's own key may still be tried for the target.
abbrev open_auth : ResolvedTarget → ExecutionState → ℕ
open_auth target state =
    if is_some (lookup (key_of target) state.tried_provider_config_auths) then 0 else 1

module _ (fold : Char → Char) {W E P : Type 0} (env : Surroundings W E P) (route : Route)
    (ids : List String) where
  abbrev bound : ℕ
  bound = pos_part (max_fallbacks fold env route)

  -- What the rounds have left: two for each fallback, one for each credential.
  abbrev pub budget : ExecutionState → ℕ
  budget state = 2 * (bound - state.model_fallbacks) + left ids state.tried_credentials

  abbrev pub weight_at : ResolvedTarget → ExecutionState → ℕ
  weight_at target state = budget state + open_auth target state

  abbrev pub weight : Loop W E P → ℕ
  weight l = elim (l.current) [ none ↦ budget l.state + 1 | some at ↦ weight_at at.0 l.state ]

  abbrev pub Lighter : ℕ → Next W E P → Type 0
  Lighter n next = (l : Loop W E P) → next ≡ continues l → weight l < n

  pub advance_candidate-some :
      (target : ResolvedTarget) (s s' : ExecutionState)
      → advance_candidate fold env route target s ≡ some s'
      → (s.model_fallbacks < bound)
        × (s'.model_fallbacks ≡ s.model_fallbacks + 1)
        × (s'.tried_credentials ≡ s.tried_credentials)
  unfolding advance_candidate
  advance_candidate-some target s s' h =
      elim (Bool-cases (
        not route.uses_logical_model
        || not (ltb_ℤ (pos s.model_fallbacks) (max_fallbacks fold env route)))) [
          | inl stop ↦ let refused = rw stop at h in absurd cc
          | inr go ↦
              let new : ExecutionState = record s {
                tried_candidates = insert (key_of target) tt s.tried_candidates;
                model_fallbacks = s.model_fallbacks + 1;
              } in
              let h' : Path (Option ExecutionState) (some new) (some s') = rw go at h in
              let same : new ≡ s' = cc in
              (
                below (max_fallbacks fold env route) (ground arith),
                rw (← same) refl,
                rw (← same) refl,
              )
        ]
    where
      below : (m : ℤ) → ltb_ℤ (pos s.model_fallbacks) m ≡ true → s.model_fallbacks < pos_part m
      below (pos m) lt = ground arith
      below (negsuc m) lt = absurd (ground arith)

  pub mark_provider_config-some :
      (target : ResolvedTarget) (base : P) (s s' : ExecutionState)
      → mark_provider_config fold env route target base s ≡ some s'
      → (budget s' ≡ budget s) × (weight_at target s' < weight_at target s)
  unfolding mark_provider_config
  mark_provider_config-some target base s s' h =
      elim (Bool-cases (
        trim_space (env.api_key base) == ""
        || is_some (lookup (key_of target) s.tried_provider_config_auths))) [
          | inl stop ↦ let refused = rw stop at h in absurd cc
          | inr go ↦
              let new : ExecutionState = record s {
                tried_provider_config_auths =
                    insert (key_of target) tt s.tried_provider_config_auths;
              } in
              let h' : Path (Option ExecutionState) (some new) (some s') = rw go at h in
              let same : new ≡ s' = cc in
              let shut : is_some (lookup (key_of target) s.tried_provider_config_auths) ≡ false =
                ground arith in
              (
                rw (← same) refl,
                rw (← same) (
                    rw (lookup-insert_self (key_of target) tt s.tried_provider_config_auths, shut)
                      (omega arith)),
              )
        ]
