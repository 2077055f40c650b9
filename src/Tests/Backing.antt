-- ===== src/Tests/Backing.antt =====
-- pkg/agent/runtime/registry.go with two backends, each of which is its own runtime type.
use caddy_agent_gateway.Base.{String, ◌≡◌, refl, List, [], ◌∷◌, Option, none, some}
use caddy_agent_gateway.Backends.{already_registered, register_all}
use caddy_agent_gateway.Backends.Laws.{Registered, register_all-Registered}

abbrev type_of : String → Option String
type_of backend = some backend

abbrev batch : List String
batch = "builtin" ∷ "acp" ∷ []

registers : (register_all type_of batch []).0 ≡ none
unfolding register_all
registers = refl

registers_again :
    register_all type_of ("acp" ∷ []) (("acp", "acp") ∷ [])
    ≡ (some (already_registered "acp"), ("acp", "acp") ∷ [])
unfolding register_all
registers_again = refl

register_all-Registered_example : Registered type_of batch [] (register_all type_of batch [])
register_all-Registered_example = register_all-Registered type_of batch []
