-- ===== src/Scheduler/Mark/Blocked.antt =====
-- pkg/credential/scheduler/scheduler.go: after a quota failure a credential is away for its backoff.
use caddy_agent_gateway.Base.{
  ℕ, ◌+◌, ◌<◌, String, ◌≡◌, refl, ◌⊎◌, inl, inr, true, false, not, ◌&&◌, ◌||◌, some, arith, ltb,
  ◌==◌, nat_eq, string_eq, int_eq, pos, length, lookup, lookup-insert_self, Bool-cases,
}
use caddy_agent_gateway.Scheduler.Credential.{
  QuotaState, CredentialFailure, ModelState, ManagedCredential,
}
use caddy_agent_gateway.Scheduler.Selector.{
  quota_block, model_block, found_block, credential_block, is_credential_blocked_for_model,
}
use caddy_agent_gateway.Scheduler.Mark.{
  RequestResult, wait_of, mark_quota, mark_cred, mark_state, mark_model, mark_failure, mark,
}

quota_block-blocked : (next : ℕ) (quota : QuotaState) → (quota_block next quota).blocked ≡ true
unfolding quota_block
quota_block-blocked next quota = elim (Bool-cases quota.exceeded) [
  | inl e ↦ rw e refl
  | inr e ↦ rw e refl
]

-- The credential and, where a model is asked for, that model's state are unavailable after `t`.
record IsAway (cred : ManagedCredential) (model : String) (t : ℕ) : Type 0 where
  cred_away : cred.unavailable ≡ true
  cred_until : t < cred.next_retry_after
  model_away :
      ((model == "") ≡ true)
      ⊎ ((state : ModelState) × (lookup model cred.model_states ≡ some state)
          × (state.unavailable ≡ true)
          × (t < state.next_retry_after))

model_block-blocked :
    (state : ModelState) (t : ℕ)
    → state.unavailable ≡ true
    → t < state.next_retry_after
    → (model_block state t).blocked ≡ true
unfolding model_block
model_block-blocked state t away lt =
    let ahead : (not (state.next_retry_after == 0) && ltb t state.next_retry_after) ≡ true =
      ground arith in
    elim (Bool-cases state.auth_invalid) [
      | inl e ↦ rw e refl
      | inr e ↦ rw (e, away, ahead) (quota_block-blocked state.next_retry_after state.quota)
    ]

IsAway-blocked :
    (cred : ManagedCredential) (model : String) (t : ℕ)
    → IsAway cred model t
    → (is_credential_blocked_for_model cred model t).blocked ≡ true
unfolding is_credential_blocked_for_model found_block credential_block
IsAway-blocked cred model t away =
    elim (Bool-cases (cred.credential.disabled || cred.auth_invalid)) [
      | inl e ↦ rw e refl
      | inr e ↦
          elim (Bool-cases
            (cred.credential_wide_unavailable && ltb t cred.credential_wide_next_retry_after)) [
              | inl w ↦ rw (e, w) refl
              | inr w ↦ elim (Bool-cases (not (model == "") && ltb 0 (length cred.model_states))) [
                | inl m ↦ elim (away.model_away) [
                  | inl blank ↦ absurd (ground arith)
                  | inr (state, at, gone, lt) ↦
                      rw (e, w, m, at) (model_block-blocked state t gone lt)
                ]
                | inr m ↦
                    let ahead : ltb t cred.next_retry_after ≡ true =
                      let lt = away.cred_until in ground arith in
                    rw (e, w, m, away.cred_away, ahead)
                      (quota_block-blocked cred.next_retry_after cred.quota)
              ]
            ]
    ]

mark_model-IsAway :
    (result : RequestResult) (rerr : CredentialFailure) (now t : ℕ) (cred : ManagedCredential)
    → cred.unavailable ≡ true
    → t < cred.next_retry_after
    → IsAway (mark_model true result rerr now cred) result.model t
unfolding mark_model mark_state
mark_model-IsAway result rerr now t cred away lt = elim (Bool-cases (result.model == "")) [
  | inl blank ↦ rw blank (record { cred_away = away; cred_until = lt; model_away = inl blank })
  | inr named ↦ rw named (record {
    cred_away = away;
    cred_until = lt;
    model_away = inr (_, lookup-insert_self result.model _ cred.model_states, refl, lt);
  })
]

stamped-IsAway :
    (cred : ManagedCredential) (model : String) (t now : ℕ)
    → IsAway cred model t
    → IsAway (record cred { state_updated_at = now }) model t
stamped-IsAway cred model t now a = record {
  cred_away = a.cred_away;
  cred_until = a.cred_until;
  model_away = a.model_away;
}

-- After a failure with status 429 of the credential alone, while quota cooldowns are on, the
-- credential is blocked for the request's model until the backoff of its level, or the longer wait
-- that the answer asks for, is over.
pub mark-blocked :
    (result : RequestResult) (rerr : CredentialFailure) (now t : ℕ) (cred : ManagedCredential)
    → result.success ≡ false
    → result.error ≡ some rerr
    → result.credential_wide ≡ false
    → rerr.http_status ≡ pos 429
    → t < now + wait_of result cred
    → (is_credential_blocked_for_model (mark false result now cred).0 result.model t).blocked ≡ true
unfolding mark mark_failure mark_cred mark_quota
mark-blocked result rerr now t cred failed is_rerr alone quota lt =
    rw (failed, is_rerr, alone, quota)
      (let away = mark_model-IsAway result rerr now t (mark_quota result rerr now cred) refl lt in
        IsAway-blocked
          (record (mark_model true result rerr now (mark_quota result rerr now cred)) {
            state_updated_at = now;
          })
          result.model t
          (stamped-IsAway (mark_model true result rerr now (mark_quota result rerr now cred))
            result.model t now away))
