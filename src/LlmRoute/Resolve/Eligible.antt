-- ===== src/LlmRoute/Resolve/Eligible.antt =====
-- pkg/gateway/llmroute/policy.go: a logical route sends a request to an eligible candidate, and does
-- so whenever there is one.
use caddy_agent_gateway.Base.{
  String, ◌≡◌, refl, sym, ap, ◌∙◌, ◌⊎◌, inl, inr, true, false, List, [], ◌∷◌, Option, none, some,
  arith, string_eq, contains, Member, here, there, Member-uncons, Member-cons, Bool-cases, Result,
  ok, err, >>=-eq-ok, ok-injective,
}
use caddy_agent_gateway.LlmRoute.Policy.{RouteModelCandidate, candidate_key}
use caddy_agent_gateway.LlmRoute.Choose.{ResolvedCandidate}
use caddy_agent_gateway.LlmRoute.Resolve.Laws.{
  Capable, meets-Capable, Capable-meets, Supports, missing-Supports,
}
use caddy_agent_gateway.LlmRoute.Resolve.{
  RequestRequirements, ManagedView, ProviderConfig, RequirementGap, Verdict, skip, gap, keep, World,
  resolved_candidate, supported_features, assess, consider_config, consider_view, consider,
  add_verdict, eligible_candidates,
}

module _ (world : World) (req : RequestRequirements) where
  open world use {get_resolved_managed_model, get_config, intn}

  -- A candidate that the request may be sent to: not excluded, managed and enabled, with an enabled
  -- provider, and able to do all that the request needs.
  pub record Eligible (candidate : RouteModelCandidate) : Type 0 where
    pub not_excluded :
        contains req.excluded_candidates
          (candidate_key candidate.provider_id candidate.upstream_model)
        ≡ false
    pub view : ManagedView
    pub managed :
        get_resolved_managed_model candidate.provider_id candidate.upstream_model ≡ ok (some view)
    pub view_enabled : view.enabled ≡ true
    pub cfg : ProviderConfig
    pub configured : get_config candidate.provider_id ≡ ok cfg
    pub provider_enabled : cfg.disabled ≡ false
    pub capable : Capable view.capabilities req
    pub supports : Supports (supported_features world cfg.provider_type) req.protocol_requirements

  assess-keep :
      (candidate : RouteModelCandidate) (view : ManagedView) (cfg : ProviderConfig)
      (r : ResolvedCandidate)
      → assess world req candidate view cfg ≡ keep r
      → Capable view.capabilities req
        × Supports (supported_features world cfg.provider_type) req.protocol_requirements
        × (r.provider_id ≡ candidate.provider_id)
        × (r.upstream_model ≡ candidate.upstream_model)
        × (r.provider_type ≡ cfg.provider_type)
        × (r.credential_scope ≡ view.credential_scope)
        × (r.capabilities ≡ view.capabilities)
  unfolding assess
  assess-keep candidate view cfg r h = (
    meets-Capable _ _ (ground arith),
    (missing-Supports _ _).0 (ground arith),
    ground arith,
    ground arith,
    ground arith,
    ground arith,
    ground arith,
  )

  keep-assess :
      (candidate : RouteModelCandidate) (view : ManagedView) (cfg : ProviderConfig)
      → Capable view.capabilities req
      → Supports (supported_features world cfg.provider_type) req.protocol_requirements
      → assess world req candidate view cfg ≡ keep (resolved_candidate candidate view cfg)
  unfolding assess
  keep-assess candidate view cfg capable supports =
      rw (Capable-meets _ _ capable, (missing-Supports _ _).1 supports)

  -- What the loop keeps of an eligible candidate.
  pub record KeptAs (candidate : RouteModelCandidate) (r : ResolvedCandidate) : Type 0 where
    pub eligible : Eligible candidate
    pub provider_id : r.provider_id ≡ candidate.provider_id
    pub upstream_model : r.upstream_model ≡ candidate.upstream_model
    pub provider_type : r.provider_type ≡ eligible.cfg.provider_type
    pub credential_scope : r.credential_scope ≡ eligible.view.credential_scope
    pub capabilities : r.capabilities ≡ eligible.view.capabilities

  consider-keep :
      (candidate : RouteModelCandidate) (r : ResolvedCandidate)
      → consider world req candidate ≡ ok (keep r)
      → KeptAs candidate r
  unfolding consider
  consider-keep candidate r h =
      on_view (get_resolved_managed_model candidate.provider_id candidate.upstream_model)
        (get_config candidate.provider_id) refl refl (ground arith) (ground arith)
    where
      on_view :
          (found : Result String (Option ManagedView)) (config : Result String ProviderConfig)
          → get_resolved_managed_model candidate.provider_id candidate.upstream_model ≡ found
          → get_config candidate.provider_id ≡ config
          → contains req.excluded_candidates
              (candidate_key candidate.provider_id candidate.upstream_model)
            ≡ false
          → consider_view world req candidate found ≡ ok (keep r)
          → KeptAs candidate r
      on_view (err e) config fe ce x h = cc
      on_view (ok none) config fe ce x h = cc
      on_view (ok (some view)) (err e) fe ce x h = ground arith
      on_view (ok (some view)) (ok cfg) fe ce x h =
          let (capable, supports, pid, um, pt, cs, caps) =
            assess-keep candidate view cfg r (ground arith) in
          record {
            eligible = record {
              not_excluded = x;
              view = view;
              managed = fe;
              view_enabled = ground arith;
              cfg = cfg;
              configured = ce;
              provider_enabled = ground arith;
              capable = capable;
              supports = supports;
            };
            provider_id = pid;
            upstream_model = um;
            provider_type = pt;
            credential_scope = cs;
            capabilities = caps;
          }

  keep-consider :
      (candidate : RouteModelCandidate) (e : Eligible candidate)
      → consider world req candidate ≡ ok (keep (resolved_candidate candidate e.view e.cfg))
  unfolding consider
  keep-consider candidate e = ground (
    arith,
    e.not_excluded,
    e.managed,
    e.view_enabled,
    e.configured,
    e.provider_enabled,
    keep-assess candidate e.view e.cfg e.capable e.supports,
  )

  add_verdict-from :
      (v : Verdict) (found : List ResolvedCandidate × List RequirementGap) (r : ResolvedCandidate)
      → Member r (add_verdict world v found).0
      → (v ≡ keep r) ⊎ Member r found.0
  unfolding add_verdict
  add_verdict-from skip (cs, gs) r m = inr m
  add_verdict-from (gap g) (cs, gs) r m = inr m
  add_verdict-from (keep c) (cs, gs) r m = elim (Member-uncons m) [
    | inl e ↦ inl (rw e)
    | inr m' ↦ inr m'
  ]

  -- Each candidate that the loop collects comes from an entry of the target's list.
  pub eligible_candidates-from :
      (entries : List RouteModelCandidate) (found : List ResolvedCandidate × List RequirementGap)
      (r : ResolvedCandidate)
      → eligible_candidates world req entries ≡ ok found
      → Member r found.0
      → (entry : RouteModelCandidate) × Member entry entries × KeptAs entry r
  unfolding eligible_candidates
  eligible_candidates-from [] found r h m =
      let m' : Member r [] = rw (sym (ok-injective h)) at m in elim m' [ ]
  eligible_candidates-from (entry ∷ entries) found r h m =
      let (v, hv, h1) = >>=-eq-ok (consider world req entry) _ h in
      let (rest, hrest, h2) = >>=-eq-ok (eligible_candidates world req entries) _ h1 in
      elim (add_verdict-from v rest r (rw (← ok-injective h2) at m)) [
        | inl kept ↦ (entry, here, consider-keep entry r (hv ∙ ap ok kept))
        | inr m' ↦
            let (e, me, from) = eligible_candidates-from entries rest r hrest m' in
            (e, there me, from)
      ]

  -- The catalog answers for every entry, if only that it does not manage it.
  abbrev pub Answered : List RouteModelCandidate → Type 0
  Answered entries =
      (entry : RouteModelCandidate)
      → Member entry entries
      → (found : Option ManagedView) × (get_resolved_managed_model entry.provider_id
            entry.upstream_model
          ≡ ok found)

  consider_view-answered :
      (entry : RouteModelCandidate) (found : Option ManagedView)
      → (v : Verdict) × (consider_view world req entry (ok found) ≡ ok v)
  unfolding consider_view
  consider_view-answered entry none = (skip, refl)
  consider_view-answered entry (some view) = elim (Bool-cases view.enabled) [
    | inl e ↦ (consider_config world req entry view (get_config entry.provider_id), ground arith)
    | inr e ↦ (skip, ground arith)
  ]

  consider-answered :
      (entry : RouteModelCandidate) (found : Option ManagedView)
      → get_resolved_managed_model entry.provider_id entry.upstream_model ≡ ok found
      → (v : Verdict) × (consider world req entry ≡ ok v)
  unfolding consider
  consider-answered entry found h =
      elim (Bool-cases
        (contains req.excluded_candidates (candidate_key entry.provider_id entry.upstream_model))) [
          | inl e ↦ (skip, rw e)
          | inr e ↦ let (v, hv) = consider_view-answered entry found in (v, rw (e, h) hv)
        ]

  keep-injective : {c r : ResolvedCandidate} → Path Verdict (keep c) (keep r) → c ≡ r
  keep-injective h = cc

  add_verdict-keeps :
      (v : Verdict) (found : List ResolvedCandidate × List RequirementGap) (r : ResolvedCandidate)
      → (v ≡ keep r) ⊎ Member r found.0
      → Member r (add_verdict world v found).0
  unfolding add_verdict
  add_verdict-keeps skip found r (inl e) = cc
  add_verdict-keeps skip (cs, gs) r (inr m) = m
  add_verdict-keeps (gap g) found r (inl e) = cc
  add_verdict-keeps (gap g) (cs, gs) r (inr m) = m
  add_verdict-keeps (keep c) (cs, gs) r (inl e) = Member-cons (inl (sym (keep-injective e)))
  add_verdict-keeps (keep c) (cs, gs) r (inr m) = there m

  pub eligible_candidates-Answered :
      (entries : List RouteModelCandidate)
      → Answered entries
      → (found : List ResolvedCandidate × List RequirementGap) × (eligible_candidates world req
            entries
          ≡ ok found)
        × ((entry : RouteModelCandidate) (e : Eligible entry)
            → Member entry entries
            → Member (resolved_candidate entry e.view e.cfg) found.0)
  unfolding eligible_candidates
  eligible_candidates-Answered [] answered = (([], []), refl, λ entry e m. elim m [ ])
  eligible_candidates-Answered (first ∷ entries) answered =
      let (rest, hrest, kept) =
        eligible_candidates-Answered entries (λ entry m. answered entry (there m)) in
      let (view, hview) = answered first here in
      let (v, hv) = consider-answered first view hview in
      (
        add_verdict world v rest,
        rw (hv, hrest),
        λ entry e m. add_verdict-keeps v rest _ (elim (Member-uncons m) [
          | inl same ↦
              inl
                (ok-injective (sym hv ∙ ap (consider world req) (sym same) ∙ keep-consider entry e))
          | inr m' ↦ inr (kept entry e m')
        ]),
      )
