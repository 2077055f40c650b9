-- ===== src/Scheduler/Mark/Kept.antt =====
-- pkg/credential/scheduler/scheduler.go: a result leaves alone what the operator has configured.
use caddy_agent_gateway.Base.{
  ℕ, String, ◌≡◌, refl, ◌∙◌, inl, inr, Bool, true, false, not, ◌&&◌, ◌||◌, Option, none, some, ◌==◌,
  nat_eq, string_eq, int_eq, is_some, pos, lookup, Bool-cases, Option-cases,
}
use caddy_agent_gateway.Scheduler.Credential.{CredentialFailure, ModelState, ManagedCredential}
use caddy_agent_gateway.Scheduler.Mark.{
  RequestResult, clear_cred, clear_found, mark_success, mark_quota, mark_cred, mark_model,
  mark_failure, mark, is_auth_status, mark_wide, mark_other,
}

clear_cred-credential :
    (cred : ManagedCredential) → (clear_cred cred).0.credential ≡ cred.credential
unfolding clear_cred
clear_cred-credential cred =
    elim (Bool-cases
      (cred.unavailable || is_some cred.last_error || cred.quota.exceeded || cred.auth_invalid)) [
        | inl e ↦ rw e refl
        | inr e ↦ rw e refl
      ]

clear_found-credential :
    (model : String) (now : ℕ) (cred : ManagedCredential) (changed : Bool)
    (found : Option ModelState)
    → (clear_found model now (cred, changed) found).0.credential ≡ cred.credential
unfolding clear_found
clear_found-credential model now cred changed none = refl
clear_found-credential model now cred changed (some state) = refl

mark_success-credential :
    (model : String) (now : ℕ) (cred : ManagedCredential)
    → (mark_success model now cred).0.credential ≡ cred.credential
unfolding mark_success
mark_success-credential model now cred =
    let done = clear_cred cred in
    elim (Bool-cases (model == "")) [
      | inl e ↦ rw e (clear_cred-credential cred)
      | inr e ↦ rw e (
          clear_found-credential model now done.0 done.1 (lookup model done.0.model_states)
          ∙ clear_cred-credential cred)
    ]

mark_model-credential :
    (is_quota : Bool) (result : RequestResult) (rerr : CredentialFailure) (now : ℕ)
    (cred : ManagedCredential)
    → (mark_model is_quota result rerr now cred).credential ≡ cred.credential
unfolding mark_model
mark_model-credential is_quota result rerr now cred = elim (Bool-cases (result.model == "")) [
  | inl e ↦ rw e refl
  | inr e ↦ rw e refl
]

mark_cred-credential :
    (is_quota : Bool) (result : RequestResult) (rerr : CredentialFailure) (now : ℕ)
    (cred : ManagedCredential)
    → (mark_cred is_quota result rerr now cred).credential ≡ cred.credential
unfolding mark_cred mark_quota mark_other
mark_cred-credential true result rerr now cred = refl
mark_cred-credential false result rerr now cred =
    elim (Bool-cases (is_auth_status rerr.http_status)) [
      | inl e ↦ rw e refl
      | inr e ↦ elim (Option-cases result.retry_after) [
        | inl gone ↦ rw (e, gone) refl
        | inr (wait, asks) ↦ rw (e, asks) refl
      ]
    ]

mark_failure-credential :
    (disable_quota : Bool) (result : RequestResult) (rerr : CredentialFailure) (now : ℕ)
    (cred : ManagedCredential)
    → (mark_failure disable_quota result rerr now cred).credential ≡ cred.credential
unfolding mark_failure mark_wide
mark_failure-credential disable_quota result rerr now cred =
    let is_quota = rerr.http_status == pos 429 && not disable_quota in
    elim (Bool-cases result.credential_wide) [
      | inl e ↦ elim (Option-cases result.retry_after) [
        | inl gone ↦ rw (e, gone) refl
        | inr (wait, asks) ↦ rw (e, asks) refl
      ]
      | inr e ↦ rw e (
          mark_model-credential is_quota result rerr now (mark_cred is_quota result rerr now cred)
          ∙ mark_cred-credential is_quota result rerr now cred)
    ]

-- No result changes what the operator has configured.
pub mark-credential :
    (disable_quota : Bool) (result : RequestResult) (now : ℕ) (cred : ManagedCredential)
    → (mark disable_quota result now cred).0.credential ≡ cred.credential
unfolding mark
mark-credential disable_quota result now cred = elim (Bool-cases result.success) [
  | inl good ↦
      let same = mark_success-credential result.model now cred in
      elim (Bool-cases (mark_success result.model now cred).1) [
        | inl e ↦ rw (good, e) same
        | inr e ↦ rw (good, e) same
      ]
  | inr bad ↦ elim (Option-cases result.error) [
    | inl gone ↦ rw (bad, gone) refl
    | inr (rerr, there_is) ↦
        rw (bad, there_is) (mark_failure-credential disable_quota result rerr now cred)
  ]
]
