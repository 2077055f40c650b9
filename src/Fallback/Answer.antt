-- ===== src/Fallback/Answer.antt =====
-- pkg/gateway/routedprovider.go: what a request ends with is what its last call said.
use Prim.Native.Char.{Char}
use mathlib.Core.Path.{subst}
use caddy_agent_gateway.Base.{
  ℕ, zero, suc, ◌≡◌, refl, ap, inl, inr, true, List, [], ◌∷◌, Option, none, some, string_eq,
  is_some, Bool-cases, Option-cases, Result, ok, err,
}
use caddy_agent_gateway.LlmRoute.Resolve.{ResolvedTarget}
use caddy_agent_gateway.Scheduler.Credential.{ManagedCredential}
use caddy_agent_gateway.Fallback.{
  Route, Surroundings, ProviderLookup, is_provider, is_disabled_provider, no_provider, ExecuteError,
  provider_disabled, provider_not_configured, credential_unavailable, passed_on, Attempt, Loop,
  Next, returns, continues, Selection, unmanaged, unavailable, selected, status_code, is_reselect,
  advance_candidate, select_credential, mark_provider_config, or_last, next_candidate, after_call,
  try_attempt, with_selection, with_target, with_provider, with_resolved, round, rounds, start,
  mark_attempt,
}
use caddy_agent_gateway.Fallback.Select.{Next-cases}

-- While the loop goes on: no call was made yet, or the last one failed and its error is kept.
pub data Kept {E : Type 0} (attempts : List (Attempt E)) (last_err : Option E) : Type 0 where
  untried : attempts ≡ [] → last_err ≡ none → Kept attempts last_err
  failed :
      (a : Attempt E) (rest : List (Attempt E)) (x : E)
      → attempts ≡ a ∷ rest
      → a.outcome ≡ some x
      → last_err ≡ some x
      → Kept attempts last_err

-- What is returned: an error of the gateway's own where no call was made, and otherwise the outcome
-- of the last one.
pub data IsAnswer {E : Type 0} (attempts : List (Attempt E)) (answer : Option (ExecuteError E))
    : Type 0 where
  without_call : attempts ≡ [] → is_some answer ≡ true → IsAnswer attempts answer
  of_success :
      (a : Attempt E) (rest : List (Attempt E))
      → attempts ≡ a ∷ rest
      → a.outcome ≡ none
      → answer ≡ none
      → IsAnswer attempts answer
  of_failure :
      (a : Attempt E) (rest : List (Attempt E)) (x : E)
      → attempts ≡ a ∷ rest
      → a.outcome ≡ some x
      → answer ≡ some (passed_on x)
      → IsAnswer attempts answer

module _ (fold : Char → Char) {W E P : Type 0} (env : Surroundings W E P) (route : Route) where
  abbrev Answered : Next W E P → Type 0
  Answered next = elim next [
    | returns e l ↦ IsAnswer l.attempts e
    | continues l ↦ Kept l.attempts l.last_err
  ]

  or_last-IsAnswer :
      (attempts : List (Attempt E)) (last_err : Option E) (e : ExecuteError E)
      → Kept attempts last_err
      → IsAnswer attempts (some (or_last fold env route last_err e))
  unfolding or_last
  or_last-IsAnswer attempts last_err e (untried no_calls no_err) = without_call no_calls refl
  or_last-IsAnswer attempts last_err e (failed a rest x calls outcome kept) =
      of_failure a rest x calls outcome (ap (λ o. some (or_last fold env route o e)) kept)

  next_candidate-Answered :
      (e : ExecuteError E) (target : ResolvedTarget) (l : Loop W E P)
      → Kept l.attempts l.last_err
      → IsAnswer l.attempts (some e)
      → Answered (next_candidate fold env route e target l)
  unfolding next_candidate
  next_candidate-Answered e target l k a =
      elim (Option-cases (advance_candidate fold env route target l.state)) [
        | inl gone ↦ rw (next_candidate, gone) a
        | inr (s', more) ↦ rw (next_candidate, more) k
      ]

  after_call-Answered :
      (at : ResolvedTarget × P) (outcome : Option E) (l : Loop W E P) (a : Attempt E)
      (rest : List (Attempt E))
      → l.attempts ≡ a ∷ rest
      → a.outcome ≡ outcome
      → Answered (after_call fold env route at outcome l)
  unfolding after_call
  after_call-Answered (target, base) none l a rest calls said = of_success a rest calls said refl
  after_call-Answered (target, base) (some e) l a rest calls said =
      elim (Bool-cases (is_reselect (status_code (env.carried_status e)))) [
        | inr stop ↦ rw stop (of_failure a rest e calls said refl)
        | inl again ↦ elim (Bool-cases env.managed) [
          | inl managed ↦ rw (again, managed) (failed a rest e calls said refl)
          | inr bare ↦
              rw (again, bare)
                (next_candidate-Answered (passed_on e) target (record l { last_err = some e })
                  (failed a rest e calls said refl) (of_failure a rest e calls said refl))
        ]
      ]

  try_attempt-Answered :
      (at : ResolvedTarget × P) (cred : Option ManagedCredential) (l : Loop W E P)
      → Answered (try_attempt fold env route at cred l)
  unfolding try_attempt
  try_attempt-Answered (target, base) cred l =
      let answer = env.call target base cred l.world in
      let attempt : Attempt E = record { target = target; cred = cred; outcome = answer.0 } in
      after_call-Answered (target, base) answer.0
        (record l {
          world = mark_attempt fold env route attempt answer.1;
          attempts = attempt ∷ l.attempts;
        })
        attempt l.attempts refl refl

  with_selection-Answered :
      (at : ResolvedTarget × P) (selection : Selection) (l : Loop W E P)
      → Kept l.attempts l.last_err
      → Answered (with_selection fold env route at selection l)
  unfolding with_selection
  with_selection-Answered at unmanaged l k = try_attempt-Answered at none l
  with_selection-Answered at (selected cred) l k = try_attempt-Answered at (some cred) l
  with_selection-Answered (target, base) unavailable l k =
      elim (Option-cases (mark_provider_config fold env route target base l.state)) [
        | inr (s', marks) ↦
            rw (with_selection, marks)
              (try_attempt-Answered (target, base) none (record l { state = s' }))
        | inl shut ↦
            let own : ExecuteError E =
              credential_unavailable target.provider_id target.upstream_model
                l.state.last_credential_refresh_id in
            rw (with_selection, shut)
              (next_candidate-Answered (or_last fold env route l.last_err own) target l k
                (or_last-IsAnswer l.attempts l.last_err own k))
      ]

  with_target-Answered :
      (at : ResolvedTarget × P) (l : Loop W E P)
      → Kept l.attempts l.last_err
      → Answered (with_target fold env route at l)
  unfolding with_target
  with_target-Answered (target, base) l k =
      let found = select_credential fold env route target l.state l.world in
      with_selection-Answered (target, base) found.0 (record l { state = found.1; world = found.2 })
        k

  with_provider-Answered :
      (target : ResolvedTarget) (p : ProviderLookup P) (l : Loop W E P)
      → Kept l.attempts l.last_err
      → Answered (with_provider fold env route target p l)
  unfolding with_provider
  with_provider-Answered target (is_provider base) l k =
      with_target-Answered (target, base) (record l { current = some (target, base) }) k
  with_provider-Answered target is_disabled_provider l k =
      or_last-IsAnswer l.attempts l.last_err (provider_disabled target.provider_id) k
  with_provider-Answered target no_provider l k =
      or_last-IsAnswer l.attempts l.last_err (provider_not_configured target.provider_id) k

  with_resolved-Answered :
      (r : Result E ResolvedTarget) (l : Loop W E P)
      → Kept l.attempts l.last_err
      → Answered (with_resolved fold env route r l)
  unfolding with_resolved
  with_resolved-Answered (err e) l k = or_last-IsAnswer l.attempts l.last_err (passed_on e) k
  with_resolved-Answered (ok target) l k =
      let answer = env.resolve_provider target.provider_id l.world in
      with_provider-Answered target answer.0 (record l { world = answer.1 }) k

  round-Answered : (l : Loop W E P) → Kept l.attempts l.last_err → Answered (round fold env route l)
  unfolding round
  round-Answered l k = elim (Option-cases l.current) [
    | inr (at, is_at) ↦ rw is_at (with_target-Answered at (record l { current = some at }) k)
    | inl gone ↦
        let answer = env.resolve_target l.state.tried_candidates l.world in
        rw gone (with_resolved-Answered answer.0 (record l { current = none; world = answer.1 }) k)
  ]

  rounds_from-IsAnswer :
      (fuel : ℕ) (l l' : Loop W E P) (e : Option (ExecuteError E))
      → Kept l.attempts l.last_err
      → rounds fold env route fuel l ≡ some (e, l')
      → IsAnswer l'.attempts e
  unfolding rounds
  rounds_from-IsAnswer zero l l' e k h = absurd cc
  rounds_from-IsAnswer (suc fuel) l l' e k h =
      let after = round-Answered l k in
      elim (Next-cases (round fold env route l)) [
        | inl (e', m, stops) ↦
            let h' : Path (Option (Option (ExecuteError E) × Loop W E P)) (some (e', m))
                (some (e, l')) =
              rw (rounds, stops) at h in
            let same : m ≡ l' = cc in
            let same' : e' ≡ e = cc in
            let a : IsAnswer m.attempts e' = subst Answered stops after in
            subst (λ x. IsAnswer x.attempts e) same (subst (λ x. IsAnswer m.attempts x) same' a)
        | inr (m, goes) ↦
            rounds_from-IsAnswer fuel m l' e (subst Answered goes after) (rw (rounds, goes) at h)
      ]

-- When a request ends, after however many rounds: where no call was made, it ends with an error;
-- otherwise it succeeds when its last call did, and ends with that call's error when it failed.
pub rounds-IsAnswer :
    (fold : Char → Char) {W E P : Type 0} (env : Surroundings W E P) (route : Route) (world : W)
    (fuel : ℕ) (e : Option (ExecuteError E)) (l : Loop W E P)
    → rounds fold env route fuel (start world) ≡ some (e, l)
    → IsAnswer l.attempts e
rounds-IsAnswer fold env route world fuel e l h =
    rounds_from-IsAnswer fold env route fuel (start world) l e (untried refl refl) h
