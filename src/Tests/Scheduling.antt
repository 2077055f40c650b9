-- ===== src/Tests/Scheduling.antt =====
-- pkg/credential/scheduler at a scheduler with one credential.
use Prim.Native.Char.{Char}
use Prim.Native.Nat.{◌^◌}
use caddy_agent_gateway.Base.{
  ℕ, ◌*◌, ◌≤◌, String, ◌≡◌, refl, Bool, true, false, [], Option, none, some, arith, ℤ, pos,
  string_eq, lookup, ok, err,
}
use caddy_agent_gateway.Scheduler.Credential.{QuotaState, CredentialFailure, ManagedCredential}
use caddy_agent_gateway.Scheduler.Selector.{is_credential_blocked_for_model}
use caddy_agent_gateway.Scheduler.Shard.{
  ModelScheduler, PickError, all_cooling_down, round_robin, empty_shard, upsert_entry,
  promote_expired, pick_ready,
}
use caddy_agent_gateway.Scheduler.Shard.Pick
use caddy_agent_gateway.Scheduler.Shard.Pick.{round_robin-Selects, PickOutcome, pick_ready-Outcome}
use caddy_agent_gateway.Scheduler.Mark.{
  RequestResult, compute_backoff, mark, default_quota_backoff_base, default_quota_backoff_max,
}
use caddy_agent_gateway.Scheduler.Mark.Backoff.{
  at_most, compute_backoff-at_most, compute_backoff-bounds,
}
use caddy_agent_gateway.Scheduler.Mark.Blocked.{mark-blocked}
use caddy_agent_gateway.Scheduler.Mark.Free.{still_blocked, mark-free}
use caddy_agent_gateway.Scheduler.Scopes.{
  ScopeScheduler, AuthScheduler, Filter, new_scheduler, upsert, mark_result, pick, scope_or_new,
  acceptable,
}
use caddy_agent_gateway.Scheduler.Scopes.Steps.{Valid}
use caddy_agent_gateway.Scheduler.Scopes.Served.{IsServed, predicate_of}
use caddy_agent_gateway.Scheduler.Scopes.Refused.{IsHeld, pick-refuses}
use caddy_agent_gateway.Scheduler.Scopes.Reached.{
  Reached, created, upserted, marked, Reached-Valid, pick-serves,
}

abbrev quota : QuotaState
quota = record { exceeded = false; reason = ""; next_recover_at = 0; backoff_level = pos 0 }

abbrev fresh : ManagedCredential
fresh = record {
  credential = record {
    id = "c1";
    provider_type = "openai";
    provider_id = "p1";
    credential_type = "api_key";
    label = "";
    scope = "id:p1";
    attributes = [];
    disabled = false;
    created_at = 1;
    updated_at = 1;
  };
  unavailable = false;
  credential_wide_unavailable = false;
  credential_wide_next_retry_after = 0;
  next_retry_after = 0;
  quota = quota;
  last_error = none;
  model_states = [];
  auth_invalid = false;
  state_updated_at = 1;
}

abbrev parse : String → Option ℤ
parse _ = none

abbrev fold : Char → Char
fold c = c

abbrev cell : ℕ → ManagedCredential
cell _ = fresh

abbrev limited : RequestResult
limited = record {
  credential_id = "c1";
  model = "gpt";
  success = false;
  retry_after = none;
  error = some (record {
    code = "rate_limit";
    message = "slow down";
    retryable = true;
    http_status = pos 429;
  });
  credential_wide = false;
}

abbrev served : RequestResult
served = record limited { success = true; error = none }

abbrev too_many : CredentialFailure
too_many = record {
  code = "rate_limit";
  message = "slow down";
  retryable = true;
  http_status = pos 429;
}

abbrev one : AuthScheduler
one = upsert parse fold cell 5 0 (new_scheduler round_robin)

abbrev one-Reached : Reached parse fold 5 cell one
one-Reached = upserted 0 (created 5 cell round_robin round_robin-Selects)

abbrev filter : Filter
filter = record { filter_type = ""; credential_scope = "id:p1"; model = "gpt"; selector = "" }

abbrev matches : ℕ → Bool
matches ref = true

abbrev shard : ModelScheduler
shard = upsert_entry parse cell 5 0 (empty_shard "gpt")

pick_ready-Outcome_example :
    PickOutcome matches
      (promote_expired parse cell 5 shard)
      (pick_ready parse cell 5 round_robin matches shard).0
pick_ready-Outcome_example =
    pick_ready-Outcome parse cell "gpt" 5 round_robin matches shard round_robin-Selects
      (Pick.upserted cell 5 0 Pick.created)

compute_backoff-at_most_example : compute_backoff (pos 3) 100 500 ≡ at_most 500 (100 * 2 ^ 3)
compute_backoff-at_most_example = compute_backoff-at_most 3 100 500 (omega arith)

compute_backoff-bounds_example :
    (default_quota_backoff_base
      ≤ compute_backoff (pos 2) default_quota_backoff_base default_quota_backoff_max)
    × (compute_backoff (pos 2) default_quota_backoff_base default_quota_backoff_max
        ≤ default_quota_backoff_max)
compute_backoff-bounds_example = compute_backoff-bounds (pos 2)

mark-blocked_example :
    (is_credential_blocked_for_model (mark false limited 5 fresh).0 "gpt" 6).blocked ≡ true
unfolding compute_backoff
mark-blocked_example = mark-blocked limited too_many 5 6 fresh refl refl refl refl (omega arith)

mark-free_example :
    (is_credential_blocked_for_model (mark false served 5 fresh).0 "gpt" 6).blocked
    ≡ still_blocked fresh 6
mark-free_example = mark-free false served 5 6 fresh refl

Reached-Valid_example :
    Valid parse
      (mark_result parse limited 5 (cell, one)).0
      5
      (mark_result parse limited 5 (cell, one)).1
Reached-Valid_example = Reached-Valid parse fold (marked limited one-Reached)

picked_one : (pick parse fold cell 5 6 7 filter [] one).0 ≡ ok 0
unfolding pick upsert round_robin
picked_one = refl

pick-serves_example :
    (p : ScopeScheduler) × (lookup "id:p1" one.scope_schedulers ≡ some p)
    × IsServed cell 6 p.creds "gpt" (predicate_of parse fold cell filter []) 0
pick-serves_example = pick-serves parse fold 6 7 filter [] 0 one-Reached (omega arith) picked_one

-- The credential cools down once its quota is used up.
abbrev cooled : (ℕ → ManagedCredential) × AuthScheduler
cooled = mark_result parse limited 5 (cell, one)

abbrev cooled_scope : ScopeScheduler
cooled_scope = scope_or_new (lookup "id:p1" cooled.1.scope_schedulers)

abbrev refusal : PickError
refusal = all_cooling_down "gpt" "id:p1" 999999998

is_refused : (pick parse fold cooled.0 5 6 7 filter [] cooled.1).0 ≡ err refusal
unfolding pick upsert mark_result
is_refused = refl

cooled-in_scope : lookup "id:p1" cooled.1.scope_schedulers ≡ some cooled_scope
unfolding upsert mark_result
cooled-in_scope = refl

cooled-registered : lookup "c1" cooled_scope.creds ≡ some 0
unfolding upsert mark_result
cooled-registered = refl

cooled-acceptable : predicate_of parse fold cooled.0 filter [] 0 ≡ true
unfolding acceptable mark_result
cooled-acceptable = refl

pick-refuses_example : IsHeld (cooled.0 0) "gpt" 6
pick-refuses_example =
    pick-refuses parse fold 6 7 filter [] cooled_scope refusal "c1" 0 (marked limited one-Reached)
      (omega arith) refl cooled-in_scope is_refused cooled-registered cooled-acceptable
