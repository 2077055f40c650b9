-- ===== src/VirtualKey/Checks.antt =====
-- pkg/gateway/virtualkey/validate.go: when a key may be used, and which keys a request carries.
pub mod Laws
use Prim.Native.Char.{code}
use Prim.Native.String.{[], ◌∷◌}
use caddy_agent_gateway.Base.{
  ◌≡◌, refl, ℕ, String, Bool, true, false, not, ◌&&◌, ◌||◌, List, [], ◌∷◌, ◌++◌, Option, none, some,
  ltb, nat_beq, ltb_ℤ, pos, if◌then◌else◌, ◌==◌, nat_eq, string_eq, contains, length, Result, ok,
  err, ◌>>◌, ◌>>=◌, reject_if, trim_space, lower_char,
}
use caddy_agent_gateway.VirtualKey.Types.{RateLimit, VirtualKeyRateLimits, VirtualKey}

pub data KeyError : Type 0 where
  key_disabled key_expired route_not_allowed : KeyError
  -- The name of the traffic class whose field is not above zero.
  bad_requests_per_minute bad_burst : String → KeyError

unfoldable pub validate : VirtualKey → ℕ → Result KeyError (Unit {0})
validate key now = do
  reject_if key.disabled key_disabled
  reject_if (not (key.expires_at == 0) && ltb key.expires_at now) key_expired

unfoldable pub validate_for_route : VirtualKey → ℕ → String → Result KeyError (Unit {0})
unfolding validate
validate_for_route key now route_id = do
  validate key now
  reject_if (ltb 0 (length key.allowed_route_ids) && not (contains key.allowed_route_ids route_id))
      route_not_allowed

-- One round of the loop over the traffic classes.
unfoldable pub validate_limit : String → Option RateLimit → Result KeyError (Unit {0})
validate_limit name none = ok tt
validate_limit name (some limit) = do
  reject_if (not (ltb_ℤ (pos 0) limit.requests_per_minute)) (bad_requests_per_minute name)
  reject_if (not (ltb_ℤ (pos 0) limit.burst)) (bad_burst name)

validate_limits : List (String × Option RateLimit) → Result KeyError (Unit {0})
validate_limits [] = ok tt
validate_limits ((name, limit) ∷ rest) = validate_limit name limit >> validate_limits rest

-- Go leaves the order of the three rounds open: it bears on which error is reported.
validate_rate_limits : Option VirtualKeyRateLimits → Result KeyError (Unit {0})
unfolding validate_limits validate_limit
validate_rate_limits none = ok tt
validate_rate_limits (some limits) =
    validate_limits (("llm", limits.llm) ∷ ("mcp", limits.mcp) ∷ ("agent", limits.agent) ∷ [])

unfoldable pub validate_configuration : VirtualKey → Result KeyError (Unit {0})
unfolding validate_rate_limits
validate_configuration key = validate_rate_limits key.rate_limits

-- strings.EqualFold of the first seven bytes with "bearer ", whose letters have no other case
-- variants than the ASCII ones, and the rest, if that is not empty.
strip_fold : String → String → Option String
strip_fold [] [] = none
strip_fold [] (c ∷ s) = some (c ∷ s)
strip_fold (p ∷ ps) [] = none
strip_fold (p ∷ ps) (c ∷ s) =
    let rest = strip_fold ps s in
    if nat_beq (code p) (code (lower_char (λ d. d) c)) then rest else none

-- The closure `add` of ExtractAPIKeys.
add : List String → String → List String
add keys k =
    let trimmed = trim_space k in
    if trimmed == "" || contains keys trimmed then keys else keys ++ trimmed ∷ []

-- The values of the headers x-api-key and Authorization, empty where one is absent.
unfoldable pub extract_api_keys : String → String → List String
unfolding strip_fold add trim_space lower_char
extract_api_keys x_api_key authorization =
    let keys = add [] x_api_key in
    elim (strip_fold "bearer " (trim_space authorization)) [
      | none ↦ keys
      | some rest ↦ add keys rest
    ]

claude_code_keys : extract_api_keys " vk-1 " "Bearer sk-2" ≡ "vk-1" ∷ "sk-2" ∷ []
unfolding extract_api_keys
claude_code_keys = refl
