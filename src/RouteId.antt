-- ===== src/RouteId.antt =====
-- pkg/gateway/routecore/routeid.go: deterministic, slash-free route ids.
mod Defs
mod Slug
mod Valid
unfoldable pub use Defs.{slugify_path, generate_route_id, validate_route_id}
pub use Slug.*
pub use Valid.*
