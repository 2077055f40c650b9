-- ===== src/Tests/Credentials.antt =====
-- pkg/credential/scheduler at concrete credentials.
use caddy_agent_gateway.Base.{
  String, ◌≡◌, refl, true, false, [], ◌∷◌, none, some, ◌==◌, string_eq, pos, Member, here,
}
use caddy_agent_gateway.Scheduler.Credential.{QuotaState, ManagedCredential}
use caddy_agent_gateway.Scheduler.Selector.{
  ReadyBucket, pick_round_robin, is_credential_blocked_for_model,
}
use caddy_agent_gateway.Scheduler.Selector.Laws.{
  Explains, is_credential_blocked_for_model-Explains, pick_round_robin-Usable,
}

abbrev quota : QuotaState
quota = record { exceeded = true; reason = "429"; next_recover_at = 90; backoff_level = pos 1 }

abbrev managed : String → ManagedCredential
managed id = record {
  credential = record {
    id = id;
    provider_type = "openai";
    provider_id = "p1";
    credential_type = "api_key";
    label = "";
    scope = "id:p1";
    attributes = [];
    disabled = false;
    created_at = 1;
    updated_at = 1;
  };
  unavailable = true;
  credential_wide_unavailable = false;
  credential_wide_next_retry_after = 0;
  next_retry_after = 60;
  quota = quota;
  last_error = none;
  model_states = [];
  auth_invalid = false;
  state_updated_at = 1;
}

abbrev bucket : ReadyBucket ManagedCredential
bucket = record { creds = managed "c1" ∷ managed "c2" ∷ []; cursor = 5 }

pick_round_robin-Usable_example :
    (d : ManagedCredential) × ((pick_round_robin (λ c. c.credential.id == "c1") bucket).0 ≡ some d)
    × Member d bucket.creds
    × ((d.credential.id == "c1") ≡ true)
pick_round_robin-Usable_example =
    pick_round_robin-Usable (λ c. c.credential.id == "c1") bucket (managed "c1") here refl

is_credential_blocked_for_model-Explains_example :
    Explains 10 (is_credential_blocked_for_model (managed "c1") "gpt" 10)
is_credential_blocked_for_model-Explains_example =
    is_credential_blocked_for_model-Explains (managed "c1") "gpt" 10
