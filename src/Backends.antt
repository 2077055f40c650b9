-- ===== src/Backends.antt =====
-- pkg/agent/runtime/registry.go: the backends that run agents, by their runtime type.
pub mod Laws
use Prim.Native.Char.{Char, code}
use caddy_agent_gateway.Base.{
  ℕ, zero, suc, ◌+◌, String, Bool, true, false, not, ◌||◌, List, [], ◌∷◌, Option, none, some,
  if◌then◌else◌, ◌==◌, Eq, nat_beq, string_eq, is_some, keys, lookup, insert, sort_by, str_less,
  trim_space, contains_any, Result, ok, err,
}

pub data BackendError : Type 0 where
  backend_is_nil type_required : BackendError
  surrounding_whitespace invalid_character : String → BackendError

pub data RegisterError : Type 0 where
  -- The index of the backend in the batch.
  invalid_backend : ℕ → BackendError → RegisterError
  registered_twice already_registered : String → RegisterError

-- runtimeNotExecutable, with the type that it names.
pub data ResolveError : Type 0 where
  runtime_not_executable : String → ResolveError

-- A slash, a backslash or NUL.
unfoldable pub is_forbidden : Char → Bool
is_forbidden c = nat_beq (code c) b'/' || nat_beq (code c) b'\\' || nat_beq (code c) 0

-- `B` are the backends and `runtime_type` asks one for its type, with `none` where it is nil.
module _ {B : Type 0} (runtime_type : B → Option String) where
  unfoldable pub check_type : String → Result BackendError String
  unfolding is_forbidden contains_any trim_space
  check_type kind =
      if kind == ""
      then err type_required
      else (if not (trim_space kind == kind)
          then err (surrounding_whitespace kind)
          else (if contains_any is_forbidden kind then err (invalid_character kind) else ok kind))

  unfoldable pub validate_backend : B → Result BackendError String
  unfolding check_type
  validate_backend backend = elim (runtime_type backend) [
    | none ↦ err backend_is_nil
    | some kind ↦ check_type kind
  ]

  -- The first loop of RegisterAll, with the backends that it has accepted.
  unfoldable pub pending_loop :
      ℕ → List B → List (String × B) → Result RegisterError (List (String × B))
  unfolding validate_backend lookup insert
  pending_loop i [] pending = ok pending
  pending_loop i (backend ∷ rest) pending = elim (validate_backend backend) [
    | err e ↦ err (invalid_backend i e)
    | ok kind ↦
        let more = pending_loop (i + 1) rest (insert kind backend pending) in
        if is_some (lookup kind pending) then err (registered_twice kind) else more
  ]

-- The second loop: a type that is registered already.
unfoldable pub clash_loop : {B : Type 0} → List (String × B) → List (String × B) → Option String
unfolding lookup
clash_loop [] backends = none
clash_loop ((kind, backend) ∷ pending) backends =
    let rest = clash_loop pending backends in
    if is_some (lookup kind backends) then some kind else rest

-- The third.
unfoldable pub add_all : {B : Type 0} → List (String × B) → List (String × B) → List (String × B)
unfolding insert
add_all [] backends = backends
add_all ((kind, backend) ∷ pending) backends = insert kind backend (add_all pending backends)

unfoldable pub commit :
    {B : Type 0}
    → List (String × B)
    → List (String × B)
    → Option String
    → Option RegisterError × List (String × B)
unfolding add_all
commit pending backends (some kind) = (some (already_registered kind), backends)
commit pending backends none = (none, add_all pending backends)

unfoldable pub register_all :
    {B : Type 0}
    → (B → Option String)
    → List B
    → List (String × B)
    → Option RegisterError × List (String × B)
unfolding pending_loop clash_loop commit
register_all runtime_type batch backends = elim (pending_loop runtime_type 0 batch []) [
  | err e ↦ (some e, backends)
  | ok pending ↦ commit pending backends (clash_loop pending backends)
]

unfoldable pub resolve : {B : Type 0} → String → List (String × B) → Result ResolveError B
unfolding lookup trim_space
resolve kind backends =
    if trim_space kind == ""
    then err (runtime_not_executable (trim_space kind))
    else elim (lookup (trim_space kind) backends) [
      | none ↦ err (runtime_not_executable (trim_space kind))
      | some backend ↦ ok backend
    ]

-- Has
is_ok : {B : Type 0} → Result ResolveError B → Bool
is_ok (ok backend) = true
is_ok (err e) = false

unfoldable pub has : {B : Type 0} → String → List (String × B) → Bool
unfolding resolve is_ok
has kind backends = is_ok (resolve kind backends)

unfoldable pub runtime_types : {B : Type 0} → List (String × B) → List String
unfolding sort_by
runtime_types backends = sort_by str_less (keys backends)

-- The first of the types that has no backend.
first_error : {B : Type 0} → Result ResolveError B → Option ResolveError → Option ResolveError
first_error (ok backend) rest = rest
first_error (err e) rest = some e

unfoldable pub validate_required :
    {B : Type 0} → List String → List (String × B) → Option ResolveError
unfolding resolve first_error
validate_required [] backends = none
validate_required (kind ∷ kinds) backends =
    first_error (resolve kind backends) (validate_required kinds backends)
