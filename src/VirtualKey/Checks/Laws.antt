-- ===== src/VirtualKey/Checks/Laws.antt =====
-- pkg/gateway/virtualkey/validate.go: exactly when each check passes, and the extracted keys.
use caddy_agent_gateway.Base.{
  ◌||◌, ℕ, ◌≡◌, ◌≢◌, ◌≤◌, refl, ◌↔◌, ◌⊎◌, inl, inr, String, true, false, List, [], ◌∷◌, ◌++◌,
  Option, none, some, arith, ◌≤ℤ◌, pos, ◌==◌, string_eq, contains, Distinct, ok, trim_space,
  trim_space_idem, All, All-append, Bool-cases,
}
use text.Mathlib.TextEquality.{eq_iff}
use caddy_agent_gateway.VirtualKey.Types.{RateLimit, VirtualKeyRateLimits, VirtualKey}
use caddy_agent_gateway.VirtualKey.Checks.{
  validate_for_route, validate_limit, validate_configuration, validate_rate_limits, add,
  extract_api_keys, strip_fold,
}

-- A key opens a route exactly when it is enabled, has no expiry or one that has not passed, and
-- lists no routes or this one.
pub validate_for_route_iff :
    (key : VirtualKey) (now : ℕ) (route_id : String)
    → (validate_for_route key now route_id ≡ ok tt) ↔ (
        (key.disabled ≡ false)
        × ((key.expires_at ≡ 0) ⊎ (now ≤ key.expires_at))
        × ((key.allowed_route_ids ≡ []) ⊎ (contains key.allowed_route_ids route_id ≡ true)))
unfolding validate_for_route
validate_for_route_iff key now route_id = ground arith

abbrev pub Positive : Option RateLimit → Type 0
Positive none = Unit
Positive (some limit) = (pos 1 ≤ℤ limit.requests_per_minute) × (pos 1 ≤ℤ limit.burst)

abbrev pub AllPositive : Option VirtualKeyRateLimits → Type 0
AllPositive none = Unit
AllPositive (some limits) = Positive limits.llm × Positive limits.mcp × Positive limits.agent

validate_limit_iff :
    (name : String) (limit : Option RateLimit)
    → (validate_limit name limit ≡ ok tt) ↔ Positive limit
unfolding validate_limit
validate_limit_iff name none = ground arith
validate_limit_iff name (some limit) = ground arith

-- A configuration is accepted exactly when both numbers of each rate limit that is set are above
-- zero.
pub validate_configuration_iff :
    (key : VirtualKey) → (validate_configuration key ≡ ok tt) ↔ AllPositive key.rate_limits
unfolding validate_configuration
validate_configuration_iff key = go key.rate_limits
  where
    go :
        (limits : Option VirtualKeyRateLimits)
        → (validate_rate_limits limits ≡ ok tt) ↔ AllPositive limits
    go none = ground arith
    go (some limits) = ground (arith, validate_limit_iff "llm" limits.llm)

abbrev pub IsKey : String → Type 0
IsKey k = (k ≢ "") × (trim_space k ≡ k)

contains-append_single :
    (ks : List String) (k a : String)
    → contains ks a ≡ false
    → k ≢ a
    → contains (ks ++ k ∷ []) a ≡ false
contains-append_single [] k a h ne = ground (arith, eq_iff k a)
contains-append_single (x ∷ ks) k a h ne = ground (arith, contains-append_single ks k a)

Distinct-append_single :
    (ks : List String) (k : String) → Distinct ks → contains ks k ≡ false → Distinct (ks ++ k ∷ [])
Distinct-append_single [] k d h = (refl, tt)
Distinct-append_single (x ∷ ks) k d h =
    ground (
      arith,
      contains-append_single ks k x,
      eq_iff x k,
      eq_iff k x,
      Distinct-append_single ks k d.1,
    )

record AreKeys (ks : List String) : Type 0 where
  each : All IsKey ks
  distinct : Distinct ks

add-AreKeys : (ks : List String) (k : String) → AreKeys ks → AreKeys (add ks k)
unfolding add
add-AreKeys ks k h = elim (Bool-cases (trim_space k == "" || contains ks (trim_space k))) [
  | inl old ↦ rw old h
  | inr new ↦ rw new (record {
    each =
        All-append IsKey ks _ h.each
          ((ground (arith, eq_iff (trim_space k) ""), trim_space_idem k), tt);
    distinct = Distinct-append_single ks (trim_space k) h.distinct (ground arith);
  })
]

-- Whatever the two headers hold, the candidates are trimmed, not empty and pairwise distinct.
pub extract_api_keys-Distinct :
    (x_api_key authorization : String)
    → All IsKey (extract_api_keys x_api_key authorization)
      × Distinct (extract_api_keys x_api_key authorization)
unfolding extract_api_keys
extract_api_keys-Distinct x authorization = go (strip_fold "bearer " (trim_space authorization))
  where
    one : AreKeys (add [] x)
    one = add-AreKeys [] x (record { each = tt; distinct = tt })

    go :
        (rest : Option String)
        → All IsKey (elim rest [ none ↦ add [] x | some r ↦ add (add [] x) r ])
          × Distinct (elim rest [ none ↦ add [] x | some r ↦ add (add [] x) r ])
    go none = (one.each, one.distinct)
    go (some r) = let two = add-AreKeys (add [] x) r one in (two.each, two.distinct)
