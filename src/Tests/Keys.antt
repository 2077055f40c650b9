-- ===== src/Tests/Keys.antt =====
-- pkg/gateway/virtualkey at a concrete key.
use caddy_agent_gateway.Base.{
  ℕ, ◌-◌, ◌≤◌, ◌≡◌, ◌↔◌, ◌⊎◌, true, false, [], ◌∷◌, none, some, ltb, if◌then◌else◌, ◌==◌, string_eq,
  ℤ, pos, lookup, ok, contains, All, Distinct,
}
use caddy_agent_gateway.VirtualKey.{RateLimit, VirtualKey}
use caddy_agent_gateway.VirtualKey.Checks.{
  validate_for_route, validate_configuration, extract_api_keys,
}
use caddy_agent_gateway.VirtualKey.Checks.Laws.{
  validate_for_route_iff, validate_configuration_iff, AllPositive, IsKey, extract_api_keys-Distinct,
}
use caddy_agent_gateway.VirtualKey.Limiter.{llm, LimiterKey, limiter_key_eq, Rate, Buckets, remove}
use caddy_agent_gateway.VirtualKey.Limiter.Laws.{lookup-remove}

-- A limiter that only counts: the numbers stand for the floats.
abbrev counting : Rate
counting = record {
  Float = ℤ;
  of_int = λ n. n;
  sub_float = λ a b. a;
  div_float = λ a b. a;
  max_float = λ a b. b;
  ceil = λ a. a;
  Limiter = ℕ;
  new_limiter = λ refill burst. 2;
  allow_n = λ left now n. (ltb 0 left, left - n);
  tokens_at = λ left now. pos left;
}

abbrev ten : RateLimit
ten = record { requests_per_minute = pos 10; burst = pos 2 }

abbrev key : VirtualKey
key = record {
  id = "vk-1";
  key = "secret";
  tag = "";
  disabled = false;
  allowed_route_ids = "r" ∷ [];
  rate_limits = some (record { llm = some ten; mcp = none; agent = none });
  created_at = 1;
  updated_at = 1;
  expires_at = 9;
}

abbrev llm_key : LimiterKey
llm_key = record { virtual_key_id = "vk-1"; dimension = llm }

abbrev buckets : Buckets counting
buckets =
    (
      llm_key,
      record { limiter = 2; refill_rate = pos 10; requests_per_minute = pos 10; burst = pos 2 },
    )
    ∷ []

lookup-remove_example :
    lookup llm_key (remove counting buckets "vk-1")
    ≡ (if llm_key.virtual_key_id == "vk-1" then none else lookup llm_key buckets)
lookup-remove_example = lookup-remove counting buckets "vk-1" llm_key

validate_for_route_iff_example : (validate_for_route key 5 "r" ≡ ok tt) ↔ (
    (key.disabled ≡ false)
    × ((key.expires_at ≡ 0) ⊎ (5 ≤ key.expires_at))
    × ((key.allowed_route_ids ≡ []) ⊎ (contains key.allowed_route_ids "r" ≡ true)))
validate_for_route_iff_example = validate_for_route_iff key 5 "r"

validate_configuration_iff_example :
    (validate_configuration key ≡ ok tt) ↔ AllPositive key.rate_limits
validate_configuration_iff_example = validate_configuration_iff key

extract_api_keys-Distinct_example :
    All IsKey (extract_api_keys "vk-1" "Bearer vk-1")
    × Distinct (extract_api_keys "vk-1" "Bearer vk-1")
extract_api_keys-Distinct_example = extract_api_keys-Distinct "vk-1" "Bearer vk-1"
