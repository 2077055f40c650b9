-- ===== src/Fallback/Tried.antt =====
-- pkg/gateway/routedprovider.go: selecting a credential only adds to the credentials that were tried,
-- and what is selected was not tried before.
use Prim.Native.Char.{Char}
use caddy_agent_gateway.Base.{
  ℕ, suc, ◌≤◌, ◌<◌, String, ◌≡◌, refl, ◌∙◌, inl, inr, true, false, List, [], ◌∷◌, Option, none,
  some, arith, if◌then◌else◌, ◌==◌, string_eq, is_some, length, lookup, insert, lookup-insert,
  Bool-cases, Option-cases, Member, Member-uncons, Result, ok, err,
}
use caddy_agent_gateway.LlmRoute.Resolve.{ResolvedTarget}
use caddy_agent_gateway.Scheduler.Credential.{ManagedCredential}
use caddy_agent_gateway.Scheduler.Scopes.{Filter}
use caddy_agent_gateway.Fallback.{
  Route, Surroundings, ExecutionState, try_credential, mark_credential_refresh_failure,
  use_refreshed, use_picked, type_loop, scope_loop,
}

-- How many of the ids were not tried.
unfoldable pub left : List String → List (String × Unit {0}) → ℕ
unfolding lookup
left [] tried = 0
left (id ∷ ids) tried =
    let rest = left ids tried in if is_some (lookup id tried) then rest else suc rest

pub left-length :
    (ids : List String) (tried : List (String × Unit {0})) → left ids tried ≤ length ids
unfolding left
left-length [] tried = omega arith
left-length (id ∷ ids) tried = let ih = left-length ids tried in ground (arith, ih)

left-insert :
    (k : String) (ids : List String) (tried : List (String × Unit {0}))
    → left ids (insert k tt tried) ≤ left ids tried
unfolding left
left-insert k [] tried = omega arith
left-insert k (id ∷ ids) tried =
    let ih = left-insert k ids tried in ground (arith, ih, lookup-insert k id tt tried)

left-insert_lt :
    (k : String) (ids : List String) (tried : List (String × Unit {0}))
    → Member k ids
    → lookup k tried ≡ none
    → left ids (insert k tt tried) < left ids tried
unfolding left
left-insert_lt k [] tried m h = elim m [ ]
left-insert_lt k (id ∷ ids) tried m h = elim (Member-uncons m) [
  | inl same ↦
      let le = left-insert k ids tried in
      let new : lookup id (insert k tt tried) ≡ some tt =
        rw (← same) (lookup-insert k k tt tried ∙ rw ((string_eq.beq_iff k k).1 refl) refl) in
      let old : lookup id tried ≡ none = rw (← same) h in rw (new, old) (omega (arith, le))
  | inr m' ↦
      let ih = left-insert_lt k ids tried m' h in ground (arith, ih, lookup-insert k id tt tried)
]

-- What the loop relies on: the scheduler does not pick a credential that was tried, it picks among
-- those of `ids`, and a refreshed credential has the id that it had.
pub record Lawful {W E P : Type 0} (env : Surroundings W E P) (ids : List String) : Type 0 where
  pub picks :
      (filter : Filter) (tried : List (String × Unit {0})) (world : W) (c : ManagedCredential)
      → (env.pick filter tried world).0 ≡ some c
      → (lookup c.credential.id tried ≡ none) × Member c.credential.id ids
  pub refreshes :
      (id : String) (world : W) (c : ManagedCredential)
      → (env.refresh_credential_if_needed id world).0 ≡ ok c
      → c.credential.id ≡ id

-- What a selection does to the state.
pub record Chose {W : Type 0} (ids : List String) (s : ExecutionState)
    (r : Option ManagedCredential × ExecutionState × W) : Type 0 where
  pub keeps :
      (id : String)
      → is_some (lookup id s.tried_credentials) ≡ true
      → is_some (lookup id r.1.tried_credentials) ≡ true
  pub fewer : left ids r.1.tried_credentials ≤ left ids s.tried_credentials
  pub auths : r.1.tried_provider_config_auths ≡ s.tried_provider_config_auths
  pub fallbacks : r.1.model_fallbacks ≡ s.model_fallbacks
  pub chosen :
      (c : ManagedCredential)
      → r.0 ≡ some c
      → (lookup c.credential.id s.tried_credentials ≡ none)
        × (is_some (lookup c.credential.id r.1.tried_credentials) ≡ true)
        × (left ids r.1.tried_credentials < left ids s.tried_credentials)

none-Chose :
    {W : Type 0} (ids : List String) (s : ExecutionState) (world : W) → Chose ids s (none, s, world)
none-Chose ids s world = record {
  keeps = λ id h. h;
  fewer = omega arith;
  auths = refl;
  fallbacks = refl;
  chosen = λ c h. absurd cc;
}

is_some-insert :
    (k id : String) (tried : List (String × Unit {0}))
    → is_some (lookup id tried) ≡ true
    → is_some (lookup id (insert k tt tried)) ≡ true
is_some-insert k id tried h = ground (arith, lookup-insert k id tt tried)

lookup-none :
    (k : String) (tried tried' : List (String × Unit {0}))
    → ((id : String) → is_some (lookup id tried) ≡ true → is_some (lookup id tried') ≡ true)
    → lookup k tried' ≡ none
    → lookup k tried ≡ none
lookup-none k tried tried' keeps h = elim (Option-cases (lookup k tried)) [
  | inl gone ↦ gone
  | inr (u, there_is) ↦
      let kept = keeps k (rw there_is refl) in let clash : false ≡ true = rw h at kept in absurd cc
]

module _ {W : Type 0} (ids : List String) where
  tried-Chose :
      (s s' : ExecutionState) (c : ManagedCredential) (o : Option ManagedCredential) (world : W)
      → s'.tried_credentials ≡ insert c.credential.id tt s.tried_credentials
      → s'.tried_provider_config_auths ≡ s.tried_provider_config_auths
      → s'.model_fallbacks ≡ s.model_fallbacks
      → ((x : ManagedCredential) → o ≡ some x → x.credential.id ≡ c.credential.id)
      → lookup c.credential.id s.tried_credentials ≡ none
      → Member c.credential.id ids
      → Chose ids s (o, s', world)
  tried-Chose s s' c o world tried auths fallbacks same fresh known =
      let id = c.credential.id in
      record {
        keeps = λ i h. rw tried (is_some-insert id i s.tried_credentials h);
        fewer = rw tried (left-insert id ids s.tried_credentials);
        auths = auths;
        fallbacks = fallbacks;
        chosen = λ x h.
            let is_id = same x h in
            (
              rw is_id fresh,
              rw
                  (
                    is_id,
                    tried,
                    lookup-insert id id tt s.tried_credentials,
                    (string_eq.beq_iff id id).1 refl,
                  )
                  refl,
              rw tried (left-insert_lt id ids s.tried_credentials known fresh),
            );
      }

  Chose-trans :
      {s : ExecutionState} {r1 r2 : Option ManagedCredential × ExecutionState × W}
      → Chose ids s r1
      → Chose ids r1.1 r2
      → Chose ids s r2
  Chose-trans {s} {r1} {r2} a b = record {
    keeps = λ id h. b.keeps id (a.keeps id h);
    fewer = let x = a.fewer in let y = b.fewer in omega (arith, x, y);
    auths = b.auths ∙ a.auths;
    fallbacks = b.fallbacks ∙ a.fallbacks;
    chosen = λ c h.
        let (fresh, tried, fewer) = b.chosen c h in
        (
          lookup-none c.credential.id s.tried_credentials r1.1.tried_credentials a.keeps fresh,
          tried,
          let x = a.fewer in omega (arith, x, fewer),
        );
  }

  -- The next in turn is asked only where the first gave none.
  or_rest-Chose :
      {s : ExecutionState} {r1 r2 : Option ManagedCredential × ExecutionState × W}
      → Chose ids s r1
      → Chose ids r1.1 r2
      → Chose ids s (if is_some r1.0 then r1 else r2)
  or_rest-Chose {s} {r1} {r2} a b = elim (Bool-cases (is_some r1.0)) [
    | inl hit ↦ rw hit a
    | inr miss ↦ rw miss (Chose-trans a b)
  ]

module _ (fold : Char → Char) {W E P : Type 0} (env : Surroundings W E P) (route : Route)
    (ids : List String) (lawful : Lawful env ids) where
  use_refreshed-Chose :
      (cred : ManagedCredential) (s : ExecutionState) (world : W)
      → lookup cred.credential.id s.tried_credentials ≡ none
      → Member cred.credential.id ids
      → Chose ids s (
          use_refreshed fold env route cred s
            (env.refresh_credential_if_needed cred.credential.id world))
  unfolding use_refreshed
  use_refreshed-Chose cred s world fresh known =
      go (env.refresh_credential_if_needed cred.credential.id world)
        (λ c h. lawful.refreshes cred.credential.id world c h)
    where
      go :
          (r : Result E ManagedCredential × W)
          → ((c : ManagedCredential) → r.0 ≡ ok c → c.credential.id ≡ cred.credential.id)
          → Chose ids s (use_refreshed fold env route cred s r)
      go (ok refreshed, world') same =
          let is_id = same refreshed refl in
          tried-Chose ids s (try_credential fold env route refreshed.credential.id s) cred
            (some refreshed) world' (rw is_id refl) refl refl
            (λ x h. let e : refreshed ≡ x = cc in rw (← e) is_id) fresh known
      go (err e, world') same =
          tried-Chose ids s
            (try_credential fold env route cred.credential.id
              (record s { last_credential_refresh_id = cred.credential.id }))
            cred none (mark_credential_refresh_failure fold env route cred.credential.id e world')
            refl refl refl (λ x h. absurd cc) fresh known

  use_picked-Chose :
      (filter : Filter) (s : ExecutionState) (world : W)
      → Chose ids s (use_picked fold env route s (env.pick filter s.tried_credentials world))
  unfolding use_picked
  use_picked-Chose filter s world =
      go (env.pick filter s.tried_credentials world)
        (λ c h. lawful.picks filter s.tried_credentials world c h)
    where
      go :
          (r : Option ManagedCredential × W)
          → ((c : ManagedCredential)
              → r.0 ≡ some c
              → (lookup c.credential.id s.tried_credentials ≡ none) × Member c.credential.id ids)
          → Chose ids s (use_picked fold env route s r)
      go (none, world') laws = none-Chose ids s world'
      go (some cred, world') laws =
          let (fresh, known) = laws cred refl in
          elim (Bool-cases (cred.credential.credential_type == "oauth_token")) [
            | inl oauth ↦ rw oauth (use_refreshed-Chose cred s world' fresh known)
            | inr plain ↦ rw plain (
                tried-Chose ids s (try_credential fold env route cred.credential.id s) cred
                  (some cred) world' refl refl refl (λ x h. let e : cred ≡ x = cc in rw (← e) refl)
                  fresh known)
          ]

  type_loop-Chose :
      (target : ResolvedTarget) (scope : String) (types : List String) (s : ExecutionState)
      (world : W)
      → Chose ids s (type_loop fold env route target scope types s world)
  unfolding type_loop
  type_loop-Chose target scope [] s world = none-Chose ids s world
  type_loop-Chose target scope (credential_type ∷ types) s world =
      let filter : Filter = record {
        filter_type = credential_type;
        credential_scope = scope;
        model = target.upstream_model;
        selector = route.credential_selector;
      } in
      let r = use_picked fold env route s (env.pick filter s.tried_credentials world) in
      or_rest-Chose ids (use_picked-Chose filter s world)
        (type_loop-Chose target scope types r.1 r.2)

  pub scope_loop-Chose :
      (target : ResolvedTarget) (scopes : List String) (s : ExecutionState) (world : W)
      → Chose ids s (scope_loop fold env route target scopes s world)
  unfolding scope_loop
  scope_loop-Chose target [] s world = none-Chose ids s world
  scope_loop-Chose target (scope ∷ scopes) s world =
      let r = type_loop fold env route target scope route.credential_type_order s world in
      elim (Bool-cases (scope == "")) [
        | inl blank ↦ rw blank (scope_loop-Chose target scopes s world)
        | inr named ↦ rw named (
            or_rest-Chose ids (type_loop-Chose target scope route.credential_type_order s world)
              (scope_loop-Chose target scopes r.1 r.2))
      ]
