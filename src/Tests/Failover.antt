-- ===== src/Tests/Failover.antt =====
-- pkg/gateway/routedprovider.go with one credential, a provider that has its own key, and a service
-- that is overloaded.
use Prim.Native.Char.{Char}
use caddy_agent_gateway.Base.{
  ℕ, ◌+◌, String, ◌≡◌, refl, inl, inr, true, false, List, [], ◌∷◌, Option, none, some,
  if◌then◌else◌, string_eq, is_some, to_lower, ℤ, pos, lookup, Bool-cases, Option-cases, Member,
  here, ok, err, sym, ap, ◌∙◌, ◌==◌,
}
use caddy_agent_gateway.LlmRoute.Resolve.{ResolvedTarget}
use caddy_agent_gateway.Scheduler.Credential.{QuotaState, ManagedCredential}
use caddy_agent_gateway.Fallback.{Route, Surroundings, is_provider, passed_on, Loop, rounds, start}
use caddy_agent_gateway.Scheduler.Shard.{round_robin}
use caddy_agent_gateway.Scheduler.Shard.Pick.{round_robin-Selects}
use caddy_agent_gateway.Scheduler.Scopes.{ScopeScheduler, AuthScheduler, new_scheduler, upsert}
use caddy_agent_gateway.Scheduler.Scopes.Reached.{created, upserted}
use caddy_agent_gateway.Fallback.Scheduled.{Knows, Scheduled}
use caddy_agent_gateway.Fallback.Tried.{Lawful}
use caddy_agent_gateway.Fallback.Once.{IsOnce, rounds-IsOnce}
use caddy_agent_gateway.Fallback.Answer.{IsAnswer, rounds-IsAnswer}

abbrev quota : QuotaState
quota = record { exceeded = false; reason = ""; next_recover_at = 0; backoff_level = pos 0 }

abbrev only : ManagedCredential
only = record {
  credential = record {
    id = "c1";
    provider_type = "openai";
    provider_id = "p1";
    credential_type = "api_key";
    label = "";
    scope = "id:p1";
    attributes = [];
    disabled = false;
    created_at = 1;
    updated_at = 1;
  };
  unavailable = false;
  credential_wide_unavailable = false;
  credential_wide_next_retry_after = 0;
  next_retry_after = 0;
  quota = quota;
  last_error = none;
  model_states = [];
  auth_invalid = false;
  state_updated_at = 1;
}

abbrev fold : Char → Char
fold c = c

abbrev target : ResolvedTarget
target = record {
  logical_model = "chat";
  provider_id = "p1";
  provider_type = "openai";
  upstream_model = "gpt";
  credential_scope = "";
  capabilities = record {
    streaming = true;
    tools = true;
    vision = true;
    embeddings = true;
    context_window = pos 1;
    max_output_tokens = pos 1;
  };
}

abbrev known : List String
known = "c1" ∷ []

abbrev pick_only : List (String × Unit {0}) → Option ManagedCredential
pick_only tried = if is_some (lookup "c1" tried) then none else some only

-- The state counts the calls; an error is a status; a provider is its key.
abbrev env : Surroundings ℕ ℤ String
env = record {
  managed = true;
  resolve_target = λ excluded w. (ok target, w);
  resolve_provider = λ id w. (is_provider "key", w);
  api_key = λ p. p;
  pick = λ filter tried w. (pick_only tried, w);
  refresh_credential_if_needed = λ id w. (err (pos 502), w);
  mark_result = λ result w. w;
  call = λ at base cred w. (some (pos 429), w + 1);
  carried_status = λ e. some e;
  message = λ e. "";
  status_text = λ status. "";
}

abbrev route : Route
route = record {
  uses_logical_model = true;
  fallback_policy = record { enabled = true; max_num = pos 1 };
  credential_scope_order = "provider_id" ∷ [];
  credential_type_order = "api_key" ∷ [];
  credential_selector = "round_robin";
}

pick_only-some :
    (tried : List (String × Unit {0})) (c : ManagedCredential)
    → pick_only tried ≡ some c
    → (lookup c.credential.id tried ≡ none) × Member c.credential.id known
pick_only-some tried c h = elim (Option-cases (lookup "c1" tried)) [
  | inl fresh ↦
      let h' : Path (Option ManagedCredential) (some only) (some c) = rw fresh at h in
      let same : only ≡ c = cc in rw (← same) (fresh, here)
  | inr (u, there_is) ↦ let refused = rw there_is at h in absurd cc
]

env-Lawful : Lawful env known
env-Lawful = record {
  picks = λ filter tried world c h. pick_only-some tried c h;
  refreshes = λ id world c h. absurd cc;
}

-- One call with the credential, one with the provider's own key, and none after the fallback.
abbrev end : Loop ℕ ℤ String
end = record {
  current = some (target, "key");
  state = record {
    tried_candidates = ("p1/gpt", tt) ∷ [];
    tried_credentials = ("c1", tt) ∷ [];
    tried_provider_config_auths = ("p1/gpt", tt) ∷ [];
    last_credential_refresh_id = "";
    model_fallbacks = 1;
  };
  last_err = some (pos 429);
  world = 2;
  attempts =
      record { target = target; cred = none; outcome = some (pos 429) }
      ∷ record { target = target; cred = some only; outcome = some (pos 429) }
      ∷ [];
}

runs : rounds fold env route 5 (start 0) ≡ some (some (passed_on (pos 429)), end)
unfolding rounds to_lower
runs = refl

rounds-IsOnce_example : IsOnce end.attempts end.state
rounds-IsOnce_example =
    rounds-IsOnce fold env route known 0 5 (some (passed_on (pos 429))) end env-Lawful runs

rounds-IsAnswer_example : IsAnswer end.attempts (some (passed_on (pos 429)))
rounds-IsAnswer_example = rounds-IsAnswer fold env route 0 5 (some (passed_on (pos 429))) end runs

abbrev parse : String → Option ℤ
parse _ = none

abbrev cell : ℕ → ManagedCredential
cell _ = only

abbrev scheduler : AuthScheduler
scheduler = upsert parse fold cell 5 0 (new_scheduler round_robin)

only-known : (id : String) (ref : ℕ) → lookup id (("c1", 0) ∷ []) ≡ some ref → Member id known
unfolding lookup
only-known id ref h = elim (Bool-cases ("c1" == id)) [
  | inl hit ↦ let same : "c1" ≡ id = (string_eq.beq_iff "c1" id).0 hit in rw (← same) here
  | inr miss ↦ let refused = rw miss at h in absurd cc
]

scheduler-Knows : Knows known scheduler
unfolding upsert lookup
scheduler-Knows scope p id ref h listed = elim (Bool-cases ("id:p1" == scope)) [
  | inl hit ↦
      let is_p = rw hit at h in
      let creds : p.creds ≡ ("c1", 0) ∷ [] = ap creds_of (sym is_p) in
      only-known id ref (ap (λ cs. lookup id cs) (sym creds) ∙ listed)
  | inr miss ↦ let refused = rw miss at h in absurd cc
]
  where
    creds_of : Option ScopeScheduler → List (String × ℕ)
    creds_of none = []
    creds_of (some q) = q.creds

abbrev scheduled : Scheduled parse fold known
scheduled = record {
  now = 5;
  cell = cell;
  scheduler = scheduler;
  reached = upserted 0 (created 5 cell round_robin round_robin-Selects);
  knows = scheduler-Knows;
}

-- The same surroundings, but for the scheduler.
abbrev around : Surroundings (ℕ × Scheduled parse fold known) ℤ String
around = record {
  managed = true;
  resolve_target = λ excluded w. (ok target, w);
  resolve_provider = λ id w. (is_provider "key", w);
  api_key = λ p. p;
  pick = λ filter tried w. (none, w);
  refresh_credential_if_needed = λ id w. (err (pos 502), w);
  mark_result = λ result w. w;
  call = λ at base cred w. (some (pos 429), (w.0 + 1, w.1));
  carried_status = λ e. some e;
  message = λ e. "";
  status_text = λ status. "";
}
