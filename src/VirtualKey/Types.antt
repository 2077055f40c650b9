-- ===== src/VirtualKey/Types.antt =====
-- pkg/gateway/virtualkey/types.go. Times are nanoseconds since the zero `time.Time`, which is 0; the
-- timestamps that nothing here reads are left out.
use caddy_agent_gateway.Base.{ℕ, String, Bool, List, Option, ℤ, if◌then◌else◌, ◌==◌, nat_eq}

pub record RateLimit : Type 0 where
  pub requests_per_minute : ℤ
  pub burst : ℤ

pub record VirtualKeyRateLimits : Type 0 where
  pub llm : Option RateLimit
  pub mcp : Option RateLimit
  pub agent : Option RateLimit

pub record VirtualKey : Type 0 where
  pub id : String
  pub key : String
  pub tag : String
  pub disabled : Bool
  pub allowed_route_ids : List String
  pub rate_limits : Option VirtualKeyRateLimits
  pub created_at : ℕ
  pub updated_at : ℕ
  pub expires_at : ℕ

unfoldable pub normalize_timestamps : VirtualKey → ℕ → VirtualKey
normalize_timestamps key now = record key {
  created_at = if key.created_at == 0 then now else key.created_at;
  updated_at = if key.updated_at == 0 then now else key.updated_at;
}
