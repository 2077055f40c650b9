-- ===== src/Fallback/Once.antt =====
-- pkg/gateway/routedprovider.go: no request is sent twice with the same credential.
use Prim.Native.Char.{Char}
use mathlib.Core.Path.{subst}
use caddy_agent_gateway.Base.{
  ℕ, zero, suc, String, ◌≡◌, refl, sym, inl, inr, true, false, List, [], ◌∷◌, Option, none, some,
  ◌==◌, string_eq, is_some, lookup, contains, Distinct, Bool-cases, Option-cases, Result, ok, err,
}
use caddy_agent_gateway.LlmRoute.Resolve.{ResolvedTarget}
use caddy_agent_gateway.Scheduler.Credential.{ManagedCredential}
use caddy_agent_gateway.Fallback.{
  Route, Surroundings, ProviderLookup, is_provider, is_disabled_provider, no_provider, ExecuteError,
  passed_on, ExecutionState, Attempt, Loop, Next, returns, continues, Selection, unavailable,
  status_code, is_reselect, advance_candidate, scope_loop, mark_provider_config, next_candidate,
  after_call, try_attempt, with_selection, with_target, with_provider, with_resolved, round, rounds,
  start, mark_attempt, selection_of, or_last, credential_unavailable,
}
use caddy_agent_gateway.Fallback.Tried.{Lawful, Chose, scope_loop-Chose}
use caddy_agent_gateway.Fallback.Select.{
  Next-cases, scopes_of, select_credential-bare, select_credential-managed,
  mark_provider_config-tried,
}
use caddy_agent_gateway.Fallback.Bounds.{advance_candidate-some}

-- The ids of the credentials that the calls were made with, the last first.
abbrev pub attempted : {E : Type 0} → List (Attempt E) → List String
attempted [] = []
attempted (a ∷ rest) = elim (a.cred) [
  | none ↦ attempted rest
  | some c ↦ c.credential.id ∷ attempted rest
]

-- The calls were made with different credentials, all of which count as tried.
pub record IsOnce {E : Type 0} (attempts : List (Attempt E)) (s : ExecutionState) : Type 0 where
  pub distinct : Distinct (attempted attempts)
  pub tried :
      (id : String)
      → contains (attempted attempts) id ≡ true
      → is_some (lookup id s.tried_credentials) ≡ true

module _ (fold : Char → Char) {W E P : Type 0} (env : Surroundings W E P) (route : Route) where
  abbrev After : Next W E P → Type 0
  After next = elim next [
    | returns e l ↦ IsOnce l.attempts l.state
    | continues l ↦ IsOnce l.attempts l.state
  ]

  -- More is tried.
  IsOnce-more :
      (attempts : List (Attempt E)) (s s' : ExecutionState)
      → ((id : String)
          → is_some (lookup id s.tried_credentials) ≡ true
          → is_some (lookup id s'.tried_credentials) ≡ true)
      → IsOnce attempts s
      → IsOnce attempts s'
  IsOnce-more attempts s s' keeps o = record {
    distinct = o.distinct;
    tried = λ id h. keeps id (o.tried id h);
  }

  next_candidate-After :
      (e : ExecuteError E) (target : ResolvedTarget) (l : Loop W E P)
      → IsOnce l.attempts l.state
      → After (next_candidate fold env route e target l)
  unfolding next_candidate
  next_candidate-After e target l o =
      elim (Option-cases (advance_candidate fold env route target l.state)) [
        | inl gone ↦ rw (next_candidate, gone) o
        | inr (s', more) ↦
            let (lt, fallbacks, tried) =
              advance_candidate-some fold env route [] target l.state s' more in
            rw (next_candidate, more)
              (IsOnce-more l.attempts l.state s'
                (λ id h. subst (λ t. is_some (lookup id t) ≡ true) (sym tried) h) o)
      ]

  after_call-After :
      (at : ResolvedTarget × P) (outcome : Option E) (l : Loop W E P)
      → IsOnce l.attempts l.state
      → After (after_call fold env route at outcome l)
  unfolding after_call
  after_call-After (target, base) none l o = o
  after_call-After (target, base) (some e) l o =
      elim (Bool-cases (is_reselect (status_code (env.carried_status e)))) [
        | inr stop ↦ rw stop o
        | inl again ↦ elim (Bool-cases env.managed) [
          | inl managed ↦ rw (again, managed) o
          | inr bare ↦
              rw (again, bare)
                (next_candidate-After (passed_on e) target (record l { last_err = some e }) o)
        ]
      ]

  -- A call with no credential, or with one that was not tried before.
  try_attempt-After :
      (at : ResolvedTarget × P) (cred : Option ManagedCredential) (l : Loop W E P)
      → ((outcome : Option E)
          → IsOnce (record { target = at.0; cred = cred; outcome = outcome } ∷ l.attempts) l.state)
      → After (try_attempt fold env route at cred l)
  unfolding try_attempt
  try_attempt-After (target, base) cred l o =
      let answer = env.call target base cred l.world in
      let attempt : Attempt E = record { target = target; cred = cred; outcome = answer.0 } in
      after_call-After (target, base) answer.0
        (record l {
          world = mark_attempt fold env route attempt answer.1;
          attempts = attempt ∷ l.attempts;
        })
        (o answer.0)

  with_unavailable-After :
      (target : ResolvedTarget) (base : P) (l : Loop W E P)
      → IsOnce l.attempts l.state
      → After (with_selection fold env route (target, base) unavailable l)
  unfolding with_selection
  with_unavailable-After target base l o =
      elim (Option-cases (mark_provider_config fold env route target base l.state)) [
        | inr (s', marks) ↦
            let tried = mark_provider_config-tried fold env route target base l.state s' marks in
            rw (with_selection, marks)
              (try_attempt-After (target, base) none (record l { state = s' })
                (λ outcome. record {
                  distinct = o.distinct;
                  tried =
                      λ id h. subst (λ t. is_some (lookup id t) ≡ true) (sym tried) (o.tried id h);
                }))
        | inl shut ↦
            let e = or_last fold env route l.last_err (
              credential_unavailable target.provider_id target.upstream_model
                l.state.last_credential_refresh_id) in
            rw (with_selection, shut) (next_candidate-After e target l o)
      ]

  with_found-After :
      (ids : List String) (s : ExecutionState) (target : ResolvedTarget) (base : P) (l : Loop W E P)
      (r : Option ManagedCredential × ExecutionState × W)
      → Chose ids s r
      → IsOnce l.attempts s
      → After (
          with_selection fold env route
            (target, base)
            (selection_of fold env route r.0)
            (record l { state = r.1; world = r.2 }))
  unfolding with_selection selection_of
  with_found-After ids s target base l (none, s', w) ch o =
      with_unavailable-After target base (record l { state = s'; world = w })
        (IsOnce-more l.attempts s s' ch.keeps o)
  with_found-After ids s target base l (some c, s', w) ch o =
      let (fresh, now_tried, fewer) = ch.chosen c refl in
      let new : contains (attempted l.attempts) c.credential.id ≡ false =
        elim (Bool-cases (contains (attempted l.attempts) c.credential.id)) [
          | inr h ↦ h
          | inl h ↦
              let there = o.tried c.credential.id h in
              let clash : false ≡ true = rw fresh at there in absurd cc
        ] in
      try_attempt-After (target, base) (some c) (record l { state = s'; world = w })
        (λ outcome. record {
          distinct = (new, o.distinct);
          tried = λ id h. elim (Bool-cases (c.credential.id == id)) [
            | inl same ↦
                let e : c.credential.id ≡ id = (string_eq.beq_iff c.credential.id id).0 same in
                subst (λ i. is_some (lookup i s'.tried_credentials) ≡ true) e now_tried
            | inr other ↦ ch.keeps id (o.tried id (rw other at h))
          ];
        })

module _ (fold : Char → Char) {W E P : Type 0} (env : Surroundings W E P) (route : Route)
    (ids : List String) (lawful : Lawful env ids) where
  with_target-After :
      (at : ResolvedTarget × P) (l : Loop W E P)
      → IsOnce l.attempts l.state
      → After fold env route (with_target fold env route at l)
  unfolding with_target with_selection
  with_target-After (target, base) l o =
      let r = scope_loop fold env route target (scopes_of fold env route target) l.state l.world in
      let ch =
        scope_loop-Chose fold env route ids lawful target (scopes_of fold env route target) l.state
          l.world in
      elim (Bool-cases env.managed) [
        | inr bare ↦
            subst GoesOn (sym (select_credential-bare fold env route target l.state l.world bare)) (
              try_attempt-After fold env route (target, base) none l
                (λ outcome. record { distinct = o.distinct; tried = o.tried }))
        | inl managed ↦
            subst GoesOn
              (sym (select_credential-managed fold env route target l.state l.world managed))
              (with_found-After fold env route ids l.state target base l r ch o)
      ]
    where
      GoesOn : Selection × ExecutionState × W → Type 0
      GoesOn r =
          After fold env route (
            with_selection fold env route (target, base) r.0
              (record l { state = r.1; world = r.2 }))

  round-After :
      (l : Loop W E P) → IsOnce l.attempts l.state → After fold env route (round fold env route l)
  unfolding round with_resolved with_provider
  round-After l o = elim (Option-cases l.current) [
    | inr (at, is_at) ↦ rw is_at (with_target-After at (record l { current = some at }) o)
    | inl gone ↦
        let answer = env.resolve_target l.state.tried_candidates l.world in
        rw gone (resolved answer.0 (record l { current = none; world = answer.1 }) o)
  ]
    where
      found :
          (target : ResolvedTarget) (p : ProviderLookup P) (l' : Loop W E P)
          → IsOnce l'.attempts l'.state
          → After fold env route (with_provider fold env route target p l')
      found target (is_provider base) l' o' =
          with_target-After (target, base) (record l' { current = some (target, base) }) o'
      found target is_disabled_provider l' o' = o'
      found target no_provider l' o' = o'

      resolved :
          (r : Result E ResolvedTarget) (l' : Loop W E P)
          → IsOnce l'.attempts l'.state
          → After fold env route (with_resolved fold env route r l')
      resolved (err e) l' o' = o'
      resolved (ok target) l' o' =
          let answer = env.resolve_provider target.provider_id l'.world in
          found target answer.0 (record l' { world = answer.1 }) o'

  rounds_from-IsOnce :
      (fuel : ℕ) (l l' : Loop W E P) (e : Option (ExecuteError E))
      → IsOnce l.attempts l.state
      → rounds fold env route fuel l ≡ some (e, l')
      → IsOnce l'.attempts l'.state
  unfolding rounds
  rounds_from-IsOnce zero l l' e o h = absurd cc
  rounds_from-IsOnce (suc fuel) l l' e o h =
      let after = round-After l o in
      elim (Next-cases (round fold env route l)) [
        | inl (e', m, stops) ↦
            let h' : Path (Option (Option (ExecuteError E) × Loop W E P)) (some (e', m))
                (some (e, l')) =
              rw (rounds, stops) at h in
            let same' : m ≡ l' = cc in
            let o' : IsOnce m.attempts m.state = subst (After fold env route) stops after in
            subst (λ x. IsOnce x.attempts x.state) same' o'
        | inr (m, goes) ↦
            rounds_from-IsOnce fuel m l' e (subst (After fold env route) goes after)
              (rw (rounds, goes) at h)
      ]

-- Where the scheduler picks no credential that was tried and only some of the given ids, and a
-- refresh keeps the id: when a request ends, after however many rounds, its calls were made with
-- credentials of different ids, each of which is among those tried.
pub rounds-IsOnce :
    (fold : Char → Char) {W E P : Type 0} (env : Surroundings W E P) (route : Route)
    (ids : List String) (world : W) (fuel : ℕ) (e : Option (ExecuteError E)) (l : Loop W E P)
    → Lawful env ids
    → rounds fold env route fuel (start world) ≡ some (e, l)
    → IsOnce l.attempts l.state
rounds-IsOnce fold env route ids world fuel e l lawful h =
    rounds_from-IsOnce fold env route ids lawful fuel (start world) l e
      (record { distinct = tt; tried = λ id k. let k' : false ≡ true = k in absurd cc }) h
