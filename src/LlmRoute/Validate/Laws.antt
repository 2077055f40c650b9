-- ===== src/LlmRoute/Validate/Laws.antt =====
-- pkg/gateway/llmroute/validate.go: which policies pass.
use text.Mathlib.TextEquality.{eq_iff}
use caddy_agent_gateway.Base.{
  ℕ, ◌+◌, ◌≤◌, String, ◌≡◌, ◌≢◌, ◌↔◌, refl, sym, ap, Bool, true, false, not, ◌&&◌, ◌||◌, List, [],
  ◌∷◌, arith, pos, ◌≤ℤ◌, ltb_ℤ, ltb, nat_beq, if◌then◌else◌, ◌==◌, string_eq, contains, length, All,
  Distinct, fresh-cons, Result, ok, err, ◌>>=◌, ◌>>◌, reject_if, >>=-eq-ok, ok-injective,
}
use caddy_agent_gateway.LlmRoute.Policy.{
  RouteTargetPolicyCommon, RouteModelCandidate, RouteModelTarget, RouteLogicalModelTargetPolicy,
  RouteDirectProviderPolicy, credential_selector, credential_scope_order, credential_type_order,
  normalize_logical, normalize_direct, candidate_key,
}
use caddy_agent_gateway.LlmRoute.Validate.{
  RouteError, default_model_unlisted, default_candidates_spread, fallback_out_of_range,
  invalid_model_selector_strategy, model_targets_required, several_default_candidates,
  invalid_credential_selector, invalid_credential_scope_order, duplicate_credential_scope_order,
  credential_type_order_empty, invalid_credential_type_order, duplicate_credential_type_order,
  provider_id_required, model_custom_scope, check_order, validate_credential_policy,
  validate_direct, check_candidates, check_targets, check_defaults, check_default_model,
  validate_logical, is_empty, candidate_incomplete, candidate_duplicated,
}

-- `reject_if` passes exactly when its test fails.
reject_if-ok :
    {E A : Type 0} (b : Bool) (e : E) (k : Result E A) (a : A)
    → ((reject_if b e >> k) ≡ ok a) ↔ ((b ≡ false) × (k ≡ ok a))
reject_if-ok true e k a = (λ h. cc, λ h. let (x, y) = h in cc)
reject_if-ok false e k a = (λ h. (refl, h), λ h. h.1)

-- The values of an order that passes: allowed ones, each once.
abbrev pub IsOrder : List String → List String → Type 0
IsOrder allowed vs = All (λ v. contains allowed v ≡ true) vs × Distinct vs

check_order_iff :
    (allowed : List String) (invalid duplicate : String → RouteError) (seen vs : List String)
    → (check_order allowed invalid duplicate seen vs ≡ ok tt)
      ↔ (IsOrder allowed vs × All (λ v. contains seen v ≡ false) vs)
unfolding check_order
check_order_iff allowed invalid duplicate seen [] = (λ h. ((tt, tt), tt), λ h. refl)
check_order_iff allowed invalid duplicate seen (v ∷ vs) =
    let ih = check_order_iff allowed invalid duplicate (v ∷ seen) vs in
    let first = reject_if-ok (not (contains allowed v)) (invalid v) in
    let second =
      reject_if-ok (contains seen v) (duplicate v)
        (check_order allowed invalid duplicate (v ∷ seen) vs) tt in
    (
      λ h.
          let (good, h1) = (first _ tt).0 h in
          let (new, h2) = second.0 h1 in
          let ((alls, distinct), fresh) = ih.0 h2 in
          let (apart, unseen) = (fresh-cons v seen vs).0 fresh in
          (((ground arith, alls), (apart, distinct)), (new, unseen)),
      λ h.
          let (((good, alls), (apart, distinct)), (new, unseen)) = h in
          (first _ tt).1 (
            ground arith,
            second.1 (new, ih.1 ((alls, distinct), (fresh-cons v seen vs).1 (apart, unseen))),
          ),
    )

-- The candidates of one target.
abbrev pub Complete : RouteModelCandidate → Type 0
Complete c = (c.provider_id ≢ "") × (c.upstream_model ≢ "")

abbrev pub candidate_keys : List RouteModelCandidate → List String
candidate_keys [] = []
candidate_keys (c ∷ cs) = candidate_key c.provider_id c.upstream_model ∷ candidate_keys cs

abbrev pub default_count : List RouteModelCandidate → ℕ
default_count [] = 0
default_count (c ∷ cs) = (if c.default then 1 else 0) + default_count cs

incomplete_iff :
    (c : RouteModelCandidate)
    → ((c.provider_id == "" || c.upstream_model == "") ≡ false) ↔ Complete c
incomplete_iff c = ground (arith, eq_iff c.provider_id "", eq_iff c.upstream_model "")

check_candidates_iff :
    (name : String) (seen : List String) (n m : ℕ) (cs : List RouteModelCandidate)
    → (check_candidates name seen n cs ≡ ok m) ↔ (
        All Complete cs
        × Distinct (candidate_keys cs)
        × All (λ k. contains seen k ≡ false) (candidate_keys cs)
        × (m ≡ n + default_count cs))
unfolding check_candidates
check_candidates_iff name seen n m [] = (
  λ h. let e : n ≡ m = ok-injective h in (tt, tt, tt, omega arith),
  λ h. let (_, _, _, total) = h in let e : n ≡ m = omega arith in ap ok e,
)
check_candidates_iff name seen n m (c ∷ cs) =
    let key = candidate_key c.provider_id c.upstream_model in
    let n' = if c.default then n + 1 else n in
    let ih = check_candidates_iff name (key ∷ seen) n' m cs in
    let rest = check_candidates name (key ∷ seen) n' cs in
    let second = reject_if-ok (contains seen key) (candidate_duplicated name key) rest m in
    let first =
      reject_if-ok (c.provider_id == "" || c.upstream_model == "") (candidate_incomplete name)
        (reject_if (contains seen key) (candidate_duplicated name key) >> rest) m in
    (
      λ h.
          let (good, h1) = first.0 h in
          let (new, h2) = second.0 h1 in
          let (complete, distinct, fresh, total) = ih.0 h2 in
          let (apart, unseen) = (fresh-cons key seen (candidate_keys cs)).0 fresh in
          (((incomplete_iff c).0 good, complete), (apart, distinct), (new, unseen), ground arith),
      λ h.
          let ((good, complete), (apart, distinct), (new, unseen), total) = h in
          first.1 (
            (incomplete_iff c).1 good,
            second.1 (
              new,
              ih.1 (
                complete,
                distinct,
                (fresh-cons key seen (candidate_keys cs)).1 (apart, unseen),
                ground arith,
              ),
            ),
          ),
    )

-- What a target must be.
pub record TargetOk (t : RouteModelTarget) : Type 0 where
  pub named : t.name ≢ ""
  pub nonempty : is_empty t.candidates ≡ false
  pub complete : All Complete t.candidates
  pub distinct : Distinct (candidate_keys t.candidates)
  pub one_default : default_count t.candidates ≤ 1

abbrev pub target_names : List RouteModelTarget → List String
target_names [] = []
target_names (t ∷ ts) = t.name ∷ target_names ts

-- The targets as the loop leaves them: their names, and the names of those with a default.
abbrev pub seen_names : List String → List RouteModelTarget → List String
seen_names names [] = names
seen_names names (t ∷ ts) = seen_names (t.name ∷ names) ts

abbrev pub default_names : List String → List RouteModelTarget → List String
default_names names [] = names
default_names names (t ∷ ts) =
    default_names (if nat_beq (default_count t.candidates) 1 then t.name ∷ names else names) ts

-- The loop over the targets passes exactly when every target is well-formed and no name is used
-- twice, or was used before; it then hands on the names.
check_targets-passed :
    (names defaults : List String) (ts : List RouteModelTarget) (found : List String × List String)
    → check_targets names defaults ts ≡ ok found
    → All TargetOk ts
      × Distinct (target_names ts)
      × All (λ n. contains names n ≡ false) (target_names ts)
      × (found ≡ (seen_names names ts, default_names defaults ts))
unfolding check_targets
check_targets-passed names defaults [] found h = (tt, tt, tt, sym (ok-injective h))
check_targets-passed names defaults (t ∷ ts) found h =
    let (named, h1) = (reject_if-ok (t.name == "") _ _ found).0 h in
    let (new, h2) = (reject_if-ok (contains names t.name) _ _ found).0 h1 in
    let (nonempty, h3) = (reject_if-ok (is_empty t.candidates) _ _ found).0 h2 in
    let (count, counted, h4) =
      >>=-eq-ok (check_candidates t.name [] 0 t.candidates) (after_count names defaults t ts) h3 in
    let (complete, distinct, _, total) =
      (check_candidates_iff t.name [] 0 count t.candidates).0 counted in
    let (few, h5) = (reject_if-ok (ltb 1 count) _ _ found).0 h4 in
    let same : count ≡ default_count t.candidates = omega arith in
    let (oks, apart, fresh, shape) = check_targets-passed (t.name ∷ names) _ ts found h5 in
    let (unseen, free) = (fresh-cons t.name names (target_names ts)).0 fresh in
    (
      (
        record {
          named = ground (arith, eq_iff t.name "");
          nonempty = nonempty;
          complete = complete;
          distinct = distinct;
          one_default = ground arith;
        },
        oks,
      ),
      (unseen, apart),
      (new, free),
      rw same at shape,
    )
  where
    after_count :
        List String
        → List String
        → RouteModelTarget
        → List RouteModelTarget
        → ℕ
        → Result RouteError (List String × List String)
    after_count names defaults t ts count =
        reject_if (ltb 1 count) (several_default_candidates t.name)
        >> check_targets (t.name ∷ names) (if nat_beq count 1 then t.name ∷ defaults else defaults)
            ts

contains-seen_names :
    (names : List String) (ts : List RouteModelTarget) (n : String)
    → contains (seen_names names ts) n ≡ (contains (target_names ts) n || contains names n)
contains-seen_names names [] n = refl
contains-seen_names names (t ∷ ts) n = ground (arith, contains-seen_names (t.name ∷ names) ts n)

-- What a chain of two parts needs.
after-ok :
    {E : Type 0} (m k : Result E (Unit {0})) → ((m >> k) ≡ ok tt) ↔ ((m ≡ ok tt) × (k ≡ ok tt))
after-ok (ok u) k = (λ h. (refl, h), λ h. h.1)
after-ok (err e) k = (λ h. cc, λ h. let (x, y) = h in cc)

rejected_iff : {E : Type 0} (b : Bool) (e : E) → (reject_if b e ≡ ok tt) ↔ (b ≡ false)
rejected_iff true e = (λ h. cc, λ h. cc)
rejected_iff false e = (λ h. refl, λ h. refl)

pub record CredentialsOk (c : RouteTargetPolicyCommon) : Type 0 where
  pub selector : contains ("" ∷ "round_robin" ∷ "fill_first" ∷ []) (credential_selector c) ≡ true
  pub scopes : IsOrder ("model_custom" ∷ "provider_id" ∷ []) (credential_scope_order c)
  pub types_given : is_empty (credential_type_order c) ≡ false
  pub types : IsOrder ("api_key" ∷ "oauth_token" ∷ []) (credential_type_order c)

unseen : (vs : List String) → All (λ v. contains [] v ≡ false) vs
unseen [] = tt
unseen (v ∷ vs) = (refl, unseen vs)

not-false : (b : Bool) → (not b ≡ false) ↔ (b ≡ true)
not-false true = (λ h. refl, λ h. refl)
not-false false = (λ h. cc, λ h. cc)

validate_credential_policy_iff :
    (c : RouteTargetPolicyCommon) → (validate_credential_policy c ≡ ok tt) ↔ CredentialsOk c
unfolding validate_credential_policy
validate_credential_policy_iff c =
    let good = contains ("" ∷ "round_robin" ∷ "fill_first" ∷ []) (credential_selector c) in
    let scope_loop =
      check_order ("model_custom" ∷ "provider_id" ∷ []) invalid_credential_scope_order
        duplicate_credential_scope_order [] (credential_scope_order c) in
    let type_loop =
      check_order ("api_key" ∷ "oauth_token" ∷ []) invalid_credential_type_order
        duplicate_credential_type_order [] (credential_type_order c) in
    let scopes_iff =
      check_order_iff ("model_custom" ∷ "provider_id" ∷ []) invalid_credential_scope_order
        duplicate_credential_scope_order [] (credential_scope_order c) in
    let types_iff =
      check_order_iff ("api_key" ∷ "oauth_token" ∷ []) invalid_credential_type_order
        duplicate_credential_type_order [] (credential_type_order c) in
    let last =
      reject_if (is_empty (credential_type_order c)) credential_type_order_empty >> type_loop in
    let first =
      reject_if-ok (not good) (invalid_credential_selector (credential_selector c))
        (scope_loop >> last) tt in
    let third =
      reject_if-ok (is_empty (credential_type_order c)) credential_type_order_empty type_loop tt in
    (
      λ h.
          let (g, h1) = first.0 h in
          let (s, h2) = (after-ok scope_loop last).0 h1 in
          let (given, t) = third.0 h2 in
          record {
            selector = (not-false good).0 g;
            scopes = (scopes_iff.0 s).0;
            types_given = given;
            types = (types_iff.0 t).0;
          },
      λ k. first.1 (
        (not-false good).1 k.selector,
        (after-ok scope_loop last).1 (
          scopes_iff.1 (k.scopes, unseen (credential_scope_order c)),
          third.1 (k.types_given, types_iff.1 (k.types, unseen (credential_type_order c))),
        ),
      ),
    )

-- A direct-provider policy passes exactly when, once normalised, it names a provider, its
-- credential selector, scopes and types are allowed ones, each at most once and at least one type,
-- and it does not use the scope of a model.
pub validate_direct_iff :
    (p : RouteDirectProviderPolicy)
    → (validate_direct p ≡ ok tt) ↔ (
        ((normalize_direct p).provider_id ≢ "")
        × CredentialsOk (normalize_direct p).common
        × (contains (credential_scope_order (normalize_direct p).common) "model_custom" ≡ false))
unfolding validate_direct
validate_direct_iff p =
    let q = normalize_direct p in
    let scoped = contains (credential_scope_order q.common) "model_custom" in
    let first =
      reject_if-ok (q.provider_id == "") provider_id_required
        (validate_credential_policy q.common >> reject_if scoped model_custom_scope) tt in
    let second =
      after-ok (validate_credential_policy q.common) (reject_if scoped model_custom_scope) in
    (
      λ h.
          let (named, h1) = first.0 h in
          let (creds, h2) = second.0 h1 in
          (
            named_iff.0 named,
            (validate_credential_policy_iff q.common).0 creds,
            (rejected_iff scoped model_custom_scope).0 h2,
          ),
      λ h.
          let (named, creds, free) = h in
          first.1 (
            named_iff.1 named,
            second.1 (
              (validate_credential_policy_iff q.common).1 creds,
              (rejected_iff scoped model_custom_scope).1 free,
            ),
          ),
    )
  where
    named_iff : {s : String} → ((s == "") ≡ false) ↔ (s ≢ "")
    named_iff {s} = ground (arith, eq_iff s "")

pub record WellFormed (q : RouteLogicalModelTargetPolicy) : Type 0 where
  pub credentials : CredentialsOk q.common
  pub targets_given : is_empty q.model_targets ≡ false
  pub strategy :
      contains ("" ∷ "auto" ∷ "weighted" ∷ "priority" ∷ []) q.model_selector_strategy ≡ true
  pub fallback : (pos 0 ≤ℤ q.fallback.max_num) × (q.fallback.max_num ≤ℤ pos 5)
  pub targets : All TargetOk q.model_targets
  pub distinct_names : Distinct (target_names q.model_targets)
  pub default_listed :
      q.default_model ≢ "" → contains (target_names q.model_targets) q.default_model ≡ true
  pub one_default_target : length (default_names [] q.model_targets) ≤ 1
  pub default_matches :
      q.default_model ≢ "" → All (λ n. n ≡ q.default_model) (default_names [] q.model_targets)

check_defaults-passed :
    (default_model : String) (names : List String)
    → check_defaults default_model names ≡ ok tt
    → All (λ n. n ≡ default_model) names
unfolding check_defaults
check_defaults-passed default_model [] h = tt
check_defaults-passed default_model (n ∷ ns) h =
    let (same, h1) =
      (reject_if-ok (not (n == default_model)) _ (check_defaults default_model ns) tt).0 h in
    (ground (arith, eq_iff n default_model), check_defaults-passed default_model ns h1)

check_default_model-passed :
    (d : String) (names defaults : List String)
    → check_default_model d (names, defaults) ≡ ok tt
    → (d ≢ "" → contains names d ≡ true)
      × (length defaults ≤ 1)
      × (d ≢ "" → All (λ n. n ≡ d) defaults)
unfolding check_default_model
check_default_model-passed d names defaults h =
    let last = if d == "" then ok tt else check_defaults d defaults in
    let (listed, h1) =
      (reject_if-ok (not (d == "") && not (contains names d)) (default_model_unlisted d)
          (reject_if (ltb 1 (length defaults)) default_candidates_spread >> last) tt).0
        h in
    let (one, h2) =
      (reject_if-ok (ltb 1 (length defaults)) default_candidates_spread last tt).0 h1 in
    (
      λ ne. ground (arith, eq_iff d ""),
      ground arith,
      λ ne. check_defaults-passed d defaults (ground (arith, eq_iff d "")),
    )

-- A logical-model policy that passes is well-formed once normalised: its credential settings are
-- allowed ones; it has targets, an allowed strategy and a fallback bound from 0 to 5; each target has
-- a name of its own and complete candidates with distinct keys, at most one of them the default; and
-- the default model, if there is one, is a target's name, and the one with a default candidate.
pub validate_logical-WellFormed :
    (p : RouteLogicalModelTargetPolicy)
    → validate_logical p ≡ ok tt
    → WellFormed (normalize_logical p)
unfolding validate_logical
validate_logical-WellFormed p h =
    let q = normalize_logical p in
    let (creds, h1) = (after-ok (validate_credential_policy q.common) _).0 h in
    let (given, h2) = (reject_if-ok (is_empty q.model_targets) model_targets_required _ tt).0 h1 in
    let known = contains ("" ∷ "auto" ∷ "weighted" ∷ "priority" ∷ []) q.model_selector_strategy in
    let outside = ltb_ℤ q.fallback.max_num (pos 0) || ltb_ℤ (pos 5) q.fallback.max_num in
    let targets =
      check_targets [] [] q.model_targets >>= λ found. check_default_model q.default_model found in
    let (strategy, h3) =
      (reject_if-ok (not known) (invalid_model_selector_strategy q.model_selector_strategy)
          (reject_if outside fallback_out_of_range >> targets) tt).0
        h2 in
    let (range, h4) = (reject_if-ok outside fallback_out_of_range targets tt).0 h3 in
    let (found, looped, h5) =
      >>=-eq-ok (check_targets [] [] q.model_targets)
        (λ found. check_default_model q.default_model found) h4 in
    let (oks, distinct, _, shape) = check_targets-passed [] [] q.model_targets found looped in
    let h6 : check_default_model q.default_model
          (seen_names [] q.model_targets, default_names [] q.model_targets)
        ≡ ok tt =
      rw shape at h5 in
    let (listed, one, matches) =
      check_default_model-passed q.default_model (seen_names [] q.model_targets)
        (default_names [] q.model_targets) h6 in
    record {
      credentials = (validate_credential_policy_iff q.common).0 creds;
      targets_given = given;
      strategy = (not-false known).0 strategy;
      fallback = (ground arith, ground arith);
      targets = oks;
      distinct_names = distinct;
      default_listed =
          λ ne. ground (arith, listed ne, contains-seen_names [] q.model_targets q.default_model);
      one_default_target = one;
      default_matches = matches;
    }
