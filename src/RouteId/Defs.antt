-- ===== src/RouteId/Defs.antt =====
-- pkg/gateway/routecore/routeid.go, the functions.
use Prim.Native.Char.{Char, code}
use Prim.Native.String.{[], ◌∷◌}
use Prim.Native.String
use caddy_agent_gateway.Base.{
  ◌≡◌, refl, String, Bool, true, false, ◌&&◌, ◌||◌, leb, nat_beq, if◌then◌else◌, trim, trim_space,
  to_lower, contains_any, contains_text, ◌==◌, string_eq, ok, err, Result,
}

infixr 65 ◌++◌
abbrev pub ◌++◌ : String → String → String
s ++ t = String.◌++◌ s t

unfoldable pub is_slug_rune : Char → Bool
is_slug_rune r =
    (leb b'a' (code r) && leb (code r) b'z') || (leb b'0' (code r) && leb (code r) b'9')

unfoldable pub is_dash : Char → Bool
is_dash r = nat_beq (code r) b'-'

-- The loop of slugifyPath: what it still writes, given lastDash.
unfoldable pub slug_loop : Bool → String → String
slug_loop last_dash [] = []
slug_loop last_dash (r ∷ rs) =
    let copied = r ∷ slug_loop false rs in
    let dashed = "-" ∷ slug_loop true rs in
    let skipped = slug_loop true rs in
    if is_slug_rune r then copied else if last_dash then skipped else dashed

unfoldable pub is_slash : Char → Bool
is_slash r = nat_beq (code r) b'/' || nat_beq (code r) b'\\'

module _ (fold : Char → Char) where
  unfoldable pub slugify_path : String → String
  unfolding slug_loop is_slug_rune is_dash trim trim_space to_lower
  slugify_path path =
      let slug : String = trim is_dash (slug_loop false (to_lower fold (trim_space path))) in
      if slug == "" then "root" else slug

  unfoldable pub generate_route_id : String → String → String → String
  generate_route_id prefix service_id path_prefix =
      prefix ++ ":" ++ service_id ++ ":" ++ slugify_path path_prefix

  -- ErrInvalidRouteID, with the id that its message quotes.
  unfoldable pub validate_route_id : String → Result String (Unit {0})
  unfolding is_slash contains_any contains_text to_lower
  validate_route_id id =
      if contains_any is_slash id
        || contains_text (to_lower fold id) "%2f"
        || contains_text (to_lower fold id) "%5c"
      then err id
      else ok tt

slugify_path_example : slugify_path (λ c. c) " /Api//v1_x/ " ≡ "api-v1-x"
unfolding slugify_path
slugify_path_example = refl

slugify_path_root : slugify_path (λ c. c) "/" ≡ "root"
unfolding slugify_path
slugify_path_root = refl
