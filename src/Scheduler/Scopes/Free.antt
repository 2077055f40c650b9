-- ===== src/Scheduler/Scopes/Free.antt =====
-- pkg/credential/scheduler/selector.go: without a change, a credential that is free stays free.
use caddy_agent_gateway.Base.{
  ℕ, ◌≤◌, String, ◌≡◌, refl, inl, inr, true, false, not, ◌&&◌, ◌||◌, arith, ltb, ◌==◌, nat_eq,
  string_eq, length, lookup, Bool-cases, Option-cases,
}
use caddy_agent_gateway.Scheduler.Credential.{ModelState, ManagedCredential}
use caddy_agent_gateway.Scheduler.Selector.{
  quota_block, model_block, found_block, credential_block, is_credential_blocked_for_model,
}

abbrev pub IsFree : ManagedCredential → String → ℕ → Type 0
IsFree cred model now = (is_credential_blocked_for_model cred model now).blocked ≡ false

model_block-later :
    (state : ModelState) (now t : ℕ)
    → now ≤ t
    → (model_block state now).blocked ≡ false
    → (model_block state t).blocked ≡ false
unfolding model_block quota_block
model_block-later state now t le h = ground arith

credential_block-later :
    (cred : ManagedCredential) (now t : ℕ)
    → now ≤ t
    → (credential_block cred now).blocked ≡ false
    → (credential_block cred t).blocked ≡ false
unfolding credential_block quota_block
credential_block-later cred now t le h = ground arith

-- Without a change of the credential, what is free stays free.
pub IsFree-later :
    (cred : ManagedCredential) (model : String) (now t : ℕ)
    → now ≤ t
    → IsFree cred model now
    → IsFree cred model t
unfolding is_credential_blocked_for_model found_block
IsFree-later cred model now t le h =
    elim (Bool-cases (cred.credential.disabled || cred.auth_invalid)) [
      | inl e ↦ let clash : true ≡ false = rw e at h in absurd cc
      | inr e ↦
          elim (Bool-cases
            (cred.credential_wide_unavailable && ltb now cred.credential_wide_next_retry_after)) [
              | inl w ↦ let clash : true ≡ false = rw (e, w) at h in absurd cc
              | inr w ↦
                  let w' : (cred.credential_wide_unavailable
                        && ltb t cred.credential_wide_next_retry_after)
                      ≡ false =
                    ground arith in
                  elim (Bool-cases (not (model == "") && ltb 0 (length cred.model_states))) [
                    | inl m ↦ elim (Option-cases (lookup model cred.model_states)) [
                      | inl gone ↦ rw (e, w', m, gone) refl
                      | inr (state, at) ↦
                          rw (e, w', m, at)
                            (model_block-later state now t le (rw (e, w, m, at) at h))
                    ]
                    | inr m ↦
                        rw (e, w', m) (credential_block-later cred now t le (rw (e, w, m) at h))
                  ]
            ]
    ]
