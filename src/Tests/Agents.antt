-- ===== src/Tests/Agents.antt =====
-- pkg/agent/runtime at a concrete run and a concrete permission request.
use caddy_agent_gateway.Base.{
  ◌↔◌, lookup, ◌<◌, ℕ, ◌≤◌, String, ◌≡◌, ◌≢◌, refl, true, false, List, [], ◌∷◌, Option, none, some,
  arith, pos, string_eq, trim_space, ok, err, length,
}
use caddy_agent_gateway.Identity.{Identities, new_run_id, valid_run_id}
use caddy_agent_gateway.Identity.Laws.{
  Overlaid, merge_all, merge_all-Overlaid, valid_run_id-new_run_id,
}
use caddy_agent_gateway.Runs.{
  RunState, running, completed, failed, RunEntry, RunRegistry, new_run_registry, begin, complete,
  cancel, sweep, find_run, runs_of, nil_callback,
}
use caddy_agent_gateway.Runs.Bounds.{Trimmed, sweep-Trimmed}
use caddy_agent_gateway.Runs.Begin.{Begun, begin-Begun}
use caddy_agent_gateway.Runs.Laws.{Valid}
use caddy_agent_gateway.Runs.Reachable.{
  Steps, begun, finished, done, next, Steps-Valid, cancel-Steps, swept,
}
use caddy_agent_gateway.Runs.Final.{Sparing, done as quiet_done, next as quiet_next, complete-final}
use caddy_agent_gateway.Permissions.{
  PermissionError, PermissionEntry, PermissionDecision, PermissionBroker, Continuations, audit,
  claim,
}
use caddy_agent_gateway.Permissions.Decide.{expire_due}
use caddy_agent_gateway.Permissions.Decide.Laws.{expire_due_iff}
use caddy_agent_gateway.Permissions.Laws.{Claims, audit-length, claim-Claims}
use caddy_agent_gateway.Permissions.Decide.Once.{
  Sparing as BrokerSparing, audits, done as broker_done, next as broker_next, claim-once,
}

abbrev run : String
run = "run-000102030405060708090a0b0c0d0e0f"

abbrev bytes : List ℕ
bytes = 0 ∷ 1 ∷ 2 ∷ 3 ∷ 4 ∷ 5 ∷ 6 ∷ 7 ∷ 8 ∷ 9 ∷ 10 ∷ 11 ∷ 12 ∷ 13 ∷ 14 ∷ 255 ∷ []

valid_run_id-new_run_id_example : valid_run_id (new_run_id bytes) ≡ true
valid_run_id-new_run_id_example = valid_run_id-new_run_id bytes refl (ground arith)

abbrev ids : String → Identities
ids run_id = record {
  agent_id = "a";
  runtime_type = "";
  run_id = run_id;
  session_id = "";
  request_id = "";
  trace_id = "t";
  span_id = "";
  parent_span_id = "";
  segment_index = 1;
}

merge_all-Overlaid_example :
    Overlaid (ids "") (ids "x" ∷ ids "" ∷ []) (merge_all (ids "") (ids "x" ∷ ids "" ∷ []))
merge_all-Overlaid_example = merge_all-Overlaid (ids "") (ids "x" ∷ ids "" ∷ [])

-- Callbacks are numbered.
abbrev fresh : RunRegistry ℕ
fresh = new_run_registry ℕ 600 2

fresh-Valid : Valid fresh
unfolding new_run_registry find_run runs_of lookup
fresh-Valid = record {
  exclusive = λ a i e h. cc;
  actives = λ a i e h. absurd cc;
  finished = λ a i t h. absurd cc;
  well_keyed = λ a. tt;
}

abbrev started : RunEntry ℕ
started = record {
  info = record {
    agent_id = "a";
    runtime_type = "acp";
    run_id = run;
    session_id = "";
    state = running;
    started_at = 5;
    finished_at = 0;
    stop_reason = "";
  };
  cancel = some 7;
  cancel_requested = false;
}

abbrev one_run : RunRegistry ℕ
one_run = record { active = ("a", (run, started) ∷ []) ∷ []; terminal = []; ttl = 600; cap = 2 }

begins : begin ℕ 5 fresh " a" "acp" run "" (some 7) ≡ ok one_run
unfolding begin trim_space valid_run_id new_run_registry
begins = refl

begin-Begun_example : Begun 5 fresh (trim_space " a") (trim_space run) 7 one_run
begin-Begun_example = begin-Begun 5 fresh " a" "acp" run "" 7 one_run begins

abbrev steps : Steps fresh (complete ℕ 9 one_run "a" run completed "")
steps =
    next (begun 5 fresh " a" "acp" run "" (some 7) one_run begins)
      (next (finished 9 one_run "a" run completed "") done)

Steps-Valid_example : Valid (complete ℕ 9 one_run "a" run completed "")
Steps-Valid_example = Steps-Valid steps fresh-Valid

-- A backend that completes the run by itself while it is being cancelled.
abbrev backend : ℕ → String → RunRegistry ℕ → Option String × RunRegistry ℕ
backend h mode r = (none, complete ℕ 8 r "a" run failed "")

cancel-Steps_example :
    Steps fresh (cancel ℕ backend 6 9 fresh "a" run "force").1
    × ((cancel ℕ backend 6 9 fresh "a" run "force").0 ≢ err nil_callback)
cancel-Steps_example =
    cancel-Steps backend 6 9 fresh "a" run "force"
      (λ h mode r. next (finished 8 r "a" run failed "") done) fresh-Valid

-- The registry once the run has completed, and what follows.
abbrev one_finished : RunRegistry ℕ
one_finished = complete ℕ 9 one_run "a" run completed ""

quiet : Sparing (trim_space "a") (trim_space run) one_finished (sweep ℕ 12 one_finished)
quiet = quiet_next (swept 12 one_finished) tt quiet_done

complete-final_example :
    ((later : ℕ) (s : RunState) (stop : String)
      → complete ℕ later (sweep ℕ 12 one_finished) "a" run s stop ≡ sweep ℕ 12 one_finished)
    × ((invoke : ℕ → String → RunRegistry ℕ → Option String × RunRegistry ℕ) (t t' : ℕ)
          (mode : String)
        → (cancel ℕ invoke t t' (sweep ℕ 12 one_finished) "a" run mode).1
          ≡ sweep ℕ t (sweep ℕ 12 one_finished))
complete-final_example =
    complete-final 9 one_run (sweep ℕ 12 one_finished) "a" run completed "" quiet

abbrev stopped : RunEntry ℕ
stopped = record {
  info = record started.info { state = completed; finished_at = 9 };
  cancel = none;
  cancel_requested = false;
}

abbrev one_stopped : RunRegistry ℕ
one_stopped = record { active = []; terminal = ("a", (run, stopped) ∷ []) ∷ []; ttl = 600; cap = 2 }

sweep-Trimmed_example : Trimmed 700 600 2 (runs_of ℕ "a" (sweep ℕ 700 one_stopped).terminal)
unfolding runs_of lookup
sweep-Trimmed_example = sweep-Trimmed 700 one_stopped "a" (omega arith) (refl, tt)

-- A backend that accepts every decision.
abbrev accepting : Continuations
accepting = record {
  Resolver = ℕ;
  validate_decision = λ r token info decision. none;
  resolve_continuation = λ r token decision deadline. none;
  expire_continuation = λ r token. none;
  public_error_type = λ e. "permission_not_found";
}

abbrev asked : PermissionEntry
asked = record {
  info = record {
    request_id = "perm-1";
    agent_id = "a";
    runtime_type = "acp";
    run_id = run;
    session_id = "";
    created_at = 5;
    expires_at = 100;
    actions = [];
    options = [];
    resume_mode = "new_stream";
    ttl = pos 95;
  };
  token = "cont-1";
}

abbrev allow : PermissionDecision
allow = record { request_id = "perm-1"; outcome = "allow"; option_id = ""; decisions = [] }

abbrev broker : PermissionBroker 60 accepting
broker = record {
  pending = ("perm-1", asked) ∷ [];
  claimed = [];
  expired = [];
  resolvers = ("acp", 1) ∷ [];
  audits = [];
  closed = false;
}

abbrev after : PermissionBroker 60 accepting
after = record broker {
  pending = [];
  claimed =
      (
        "perm-1",
        record { agent_id = "a"; runtime_type = "acp"; run_id = run; session_id = ""; at = 6 },
      )
      ∷ [];
}

claims : claim 60 accepting 6 broker "a" "perm-1" false (some allow) ≡ (ok asked, after)
unfolding claim
claims = refl

claim-Claims_example : Claims 60 accepting 6 broker "a" "perm-1" (some allow) asked after
claim-Claims_example =
    claim-Claims 60 accepting 6 broker "a" "perm-1" false (some allow) asked after claims

-- The audit of the decision follows the claim.
abbrev audited : PermissionBroker 60 accepting
audited = audit 60 accepting 6 "a" "perm-1" "web" "resolved" after

quiet_broker : BrokerSparing 60 accepting "perm-1" after audited
quiet_broker = broker_next (audits 6 "a" "perm-1" "web" "resolved" after) tt broker_done

claim-once_example :
    (x : PermissionError) × ((claim 60 accepting 7 audited "a" "perm-1" true none).0 ≡ err x)
claim-once_example =
    claim-once 60 accepting 6 broker "a" "perm-1" false (some allow) asked after audited claims
      quiet_broker 7 "a" true none

audit-length_example :
    length (audit 60 accepting 6 "a" "perm-1" "web" "resolved" after).audits ≤ 4096
audit-length_example = audit-length 60 accepting 6 "a" "perm-1" "web" "resolved" after

expire_due_iff_example :
    (lookup "perm-1" (expire_due 60 accepting 50 broker).pending ≡ some asked)
    ↔ ((lookup "perm-1" broker.pending ≡ some asked) × (50 < asked.info.expires_at))
expire_due_iff_example = expire_due_iff 60 accepting 50 broker "perm-1" asked (refl, tt)
