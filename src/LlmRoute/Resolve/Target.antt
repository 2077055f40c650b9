-- ===== src/LlmRoute/Resolve/Target.antt =====
-- pkg/gateway/llmroute/policy.go: what RouteLogicalModelTargetPolicy.ResolveTarget promises.
use caddy_agent_gateway.Base.{
  String, ◌≡◌, ◌≢◌, refl, ap, ◌∙◌, Bool, true, false, List, [], ◌∷◌, Option, none, some, arith,
  ◌==◌, string_eq, Member, Result, ok, ◌>>=◌, reject_if, >>=-eq-ok, ok-injective,
}
use text.Mathlib.TextEquality.{eq_iff}
use caddy_agent_gateway.LlmRoute.Policy.{
  RouteModelCandidate, RouteModelTarget, RouteLogicalModelTargetPolicy, normalize_logical,
  or_default,
}
use caddy_agent_gateway.LlmRoute.Choose.{ResolvedCandidate}
use caddy_agent_gateway.LlmRoute.Choose.Laws.{choose_candidate-IsTop}
use caddy_agent_gateway.LlmRoute.Resolve.{
  RequestRequirements, RequirementGap, ResolvedTarget, ResolveError, World, target_by_name,
  eligible_candidates, finish_resolve, resolve_logical_target, or_not_allowed, model_required,
}
use caddy_agent_gateway.LlmRoute.Resolve.Eligible.{
  Eligible, Answered, eligible_candidates-from, eligible_candidates-Answered,
}

module _ (world : World) where
  open world use {intn}

  -- The model that a request names, or the policy's default.
  abbrev pub requested_model : RouteLogicalModelTargetPolicy → RequestRequirements → String
  requested_model policy req = or_default req.model (normalize_logical policy).default_model

  -- Why a target may be answered.
  pub record Justified (name : String) (targets : List RouteModelTarget) (req : RequestRequirements)
      (answer : ResolvedTarget) : Type 0 where
    pub target : RouteModelTarget
    pub allowed : target_by_name name targets ≡ some target
    pub candidate : RouteModelCandidate
    pub listed : Member candidate target.candidates
    pub eligible : Eligible world req candidate
    pub logical_model : answer.logical_model ≡ name
    pub provider_id : answer.provider_id ≡ candidate.provider_id
    pub upstream_model : answer.upstream_model ≡ candidate.upstream_model
    pub provider_type : answer.provider_type ≡ eligible.cfg.provider_type
    pub credential_scope : answer.credential_scope ≡ eligible.view.credential_scope
    pub capabilities : answer.capabilities ≡ eligible.view.capabilities

  record Finished (model_name : String) (cs : List ResolvedCandidate) (answer : ResolvedTarget)
      : Type 0 where
    chosen : ResolvedCandidate
    member : Member chosen cs
    logical_model : answer.logical_model ≡ model_name
    provider_id : answer.provider_id ≡ chosen.provider_id
    upstream_model : answer.upstream_model ≡ chosen.upstream_model
    provider_type : answer.provider_type ≡ chosen.provider_type
    credential_scope : answer.credential_scope ≡ chosen.credential_scope
    capabilities : answer.capabilities ≡ chosen.capabilities

  finish_resolve-Finished :
      (req : RequestRequirements) (model_name strategy : String)
      (found : List ResolvedCandidate × List RequirementGap) (answer : ResolvedTarget)
      → finish_resolve world req model_name strategy found ≡ ok answer
      → Finished model_name found.0 answer
  unfolding finish_resolve
  finish_resolve-Finished req name strategy ([], []) answer h = cc
  finish_resolve-Finished req name strategy ([], g ∷ gs) answer h = cc
  finish_resolve-Finished req name strategy (c ∷ cs, gs) answer h =
      let (d, chosen, m, _) = choose_candidate-IsTop intn c cs strategy in
      record {
        chosen = d;
        member = m;
        logical_model = ground (arith, chosen);
        provider_id = ground (arith, chosen);
        upstream_model = ground (arith, chosen);
        provider_type = ground (arith, chosen);
        credential_scope = ground (arith, chosen);
        capabilities = ground (arith, chosen);
      }

  reject_if-passed :
      {E : Type 0} (b : Bool) (e : E) {u : Unit {0}} → reject_if b e ≡ ok u → b ≡ false
  reject_if-passed true e h = cc
  reject_if-passed false e h = refl

  or_not_allowed-some :
      (name : String) (found : Option RouteModelTarget) {t : RouteModelTarget}
      → or_not_allowed world name found ≡ ok t
      → found ≡ some t
  unfolding or_not_allowed
  or_not_allowed-some name none h = cc
  or_not_allowed-some name (some t) h = ap some (ok-injective h)

  -- The steps of the resolution behind the choice of the model's name.
  abbrev on_target :
      RequestRequirements → String → String → RouteModelTarget → Result ResolveError ResolvedTarget
  on_target req name strategy target = eligible_candidates world req target.candidates >>= λ found.
      finish_resolve world req name strategy found

  abbrev on_name :
      RequestRequirements
      → String
      → String
      → List RouteModelTarget
      → Result ResolveError ResolvedTarget
  on_name req name strategy targets =
      or_not_allowed world name (target_by_name name targets) >>= λ target.
      on_target req name strategy target

  on_name-Justified :
      (req : RequestRequirements) (name strategy : String) (targets : List RouteModelTarget)
      (answer : ResolvedTarget)
      → on_name req name strategy targets ≡ ok answer
      → Justified name targets req answer
  on_name-Justified req name strategy targets answer h =
      let (target, ht, h2) =
        >>=-eq-ok (or_not_allowed world name (target_by_name name targets))
          (λ target. on_target req name strategy target) h in
      let (found, hf, h3) =
        >>=-eq-ok (eligible_candidates world req target.candidates)
          (λ found. finish_resolve world req name strategy found) h2 in
      let f = finish_resolve-Finished req name strategy found answer h3 in
      let (entry, m, kept) =
        eligible_candidates-from world req target.candidates found f.chosen hf f.member in
      record {
        target = target;
        allowed = or_not_allowed-some name (target_by_name name targets) ht;
        candidate = entry;
        listed = m;
        eligible = kept.eligible;
        logical_model = f.logical_model;
        provider_id = f.provider_id ∙ kept.provider_id;
        upstream_model = f.upstream_model ∙ kept.upstream_model;
        provider_type = f.provider_type ∙ kept.provider_type;
        credential_scope = f.credential_scope ∙ kept.credential_scope;
        capabilities = f.capabilities ∙ kept.capabilities;
      }

  abbrev chosen_target : String → ResolvedCandidate → ResolvedTarget
  chosen_target name d = record {
    logical_model = name;
    provider_id = d.provider_id;
    provider_type = d.provider_type;
    upstream_model = d.upstream_model;
    credential_scope = d.credential_scope;
    capabilities = d.capabilities;
  }

  finish_resolve-answers :
      (req : RequestRequirements) (name strategy : String) (cs : List ResolvedCandidate)
      (gs : List RequirementGap) {c : ResolvedCandidate}
      → Member c cs
      → (answer : ResolvedTarget) × (finish_resolve world req name strategy (cs, gs) ≡ ok answer)
  unfolding finish_resolve
  finish_resolve-answers req name strategy [] gs m = elim m [ ]
  finish_resolve-answers req name strategy (c ∷ cs) gs m =
      let (d, chosen, _, _) = choose_candidate-IsTop intn c cs strategy in
      (chosen_target name d, rw (finish_resolve, chosen) refl)

  on_name-answers :
      (req : RequestRequirements) (name strategy : String) (targets : List RouteModelTarget)
      (target : RouteModelTarget) (entry : RouteModelCandidate)
      → target_by_name name targets ≡ some target
      → Answered world req target.candidates
      → Member entry target.candidates
      → Eligible world req entry
      → (answer : ResolvedTarget) × (on_name req name strategy targets ≡ ok answer)
  unfolding or_not_allowed
  on_name-answers req name strategy targets target entry found answered m e =
      let (collected, h, kept) =
        eligible_candidates-Answered world req target.candidates answered in
      let (answer, done) =
        finish_resolve-answers req name strategy collected.0 collected.1 (kept entry e m) in
      (answer, rw (found, h) done)

-- Whatever a logical route answers, whatever it draws, is an entry of the target listed for the
-- requested model (or for the default one) that is not excluded, managed and enabled, whose provider
-- is enabled, and that is able to do all that the request needs; the answer's provider, model and
-- credential scope are that entry's.
pub resolve_logical_target-Justified :
    (world : World) (policy : RouteLogicalModelTargetPolicy) (req : RequestRequirements)
    (answer : ResolvedTarget)
    → resolve_logical_target world policy req ≡ ok answer
    → Justified world
        (requested_model world policy req)
        (normalize_logical policy).model_targets
        req
        answer
unfolding resolve_logical_target
resolve_logical_target-Justified world policy req answer h =
    let p = normalize_logical policy in
    let name = requested_model world policy req in
    let (_, _, h1) =
      >>=-eq-ok (reject_if (name == "") model_required)
        (λ _. on_name world req name p.model_selector_strategy p.model_targets) h in
    on_name-Justified world req name p.model_selector_strategy p.model_targets answer h1

-- A logical route answers, whatever it draws, whenever the requested model has a name and is listed
-- with an eligible entry and the catalog answers for each entry of its target.
pub resolve_logical_target-answers :
    (world : World) (policy : RouteLogicalModelTargetPolicy) (req : RequestRequirements)
    (target : RouteModelTarget) (entry : RouteModelCandidate)
    → requested_model world policy req ≢ ""
    → target_by_name (requested_model world policy req) (normalize_logical policy).model_targets
      ≡ some target
    → Answered world req target.candidates
    → Member entry target.candidates
    → Eligible world req entry
    → (answer : ResolvedTarget) × (resolve_logical_target world policy req ≡ ok answer)
unfolding resolve_logical_target
resolve_logical_target-answers world policy req target entry named found answered m e =
    let p = normalize_logical policy in
    let name = requested_model world policy req in
    let (answer, h) =
      on_name-answers world req name p.model_selector_strategy p.model_targets target entry found
        answered m e in
    (answer, rw (not_empty name named) h)
  where
    not_empty : (s : String) → s ≢ "" → (s == "") ≡ false
    not_empty s ne = ground (arith, eq_iff s "")
