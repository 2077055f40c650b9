-- ===== src/Scheduler/Mark/Free.antt =====
-- pkg/credential/scheduler/scheduler.go: after a success a credential is back.
use caddy_agent_gateway.Base.{
  ℕ, String, ◌≡◌, refl, sym, ◌∙◌, inl, inr, Bool, true, false, not, ◌&&◌, ◌||◌, Option, none, some,
  arith, ltb, ◌==◌, nat_eq, string_eq, int_eq, is_some, length, lookup, lookup-insert_self,
  Bool-cases, Option-cases,
}
use caddy_agent_gateway.Scheduler.Credential.{ModelState, ManagedCredential}
use caddy_agent_gateway.Scheduler.Selector.{
  model_block, found_block, credential_block, is_credential_blocked_for_model,
}
use caddy_agent_gateway.Scheduler.Mark.{
  RequestResult, clear_cred, clear_state, clear_found, mark_success, mark,
}

-- Of a credential without an operator's or a credential-wide block.
abbrev pub still_blocked : ManagedCredential → ℕ → Bool
still_blocked cred t =
    cred.credential.disabled
    || cred.credential_wide_unavailable && ltb t cred.credential_wide_next_retry_after

-- Nothing of the credential or of this model's state keeps it away, but what kept `before` away in
-- every respect.
record IsBack (before cred : ManagedCredential) (model : String) : Type 0 where
  valid : cred.auth_invalid ≡ false
  available : cred.unavailable ≡ false
  model_back :
      (state : ModelState)
      → (model == "") ≡ false
      → lookup model cred.model_states ≡ some state
      → (state.auth_invalid ≡ false) × (state.unavailable ≡ false)
  same : (t : ℕ) → still_blocked cred t ≡ still_blocked before t

IsBack-blocked :
    (before cred : ManagedCredential) (model : String) (t : ℕ)
    → IsBack before cred model
    → (is_credential_blocked_for_model cred model t).blocked ≡ still_blocked cred t
unfolding is_credential_blocked_for_model found_block model_block credential_block
IsBack-blocked before cred model t back = elim (Bool-cases cred.credential.disabled) [
  | inl e ↦ rw e refl
  | inr e ↦
      elim (Bool-cases
        (cred.credential_wide_unavailable && ltb t cred.credential_wide_next_retry_after)) [
          | inl w ↦ rw (e, back.valid, w) refl
          | inr w ↦ elim (Bool-cases (not (model == "") && ltb 0 (length cred.model_states))) [
            | inl m ↦ elim (Option-cases (lookup model cred.model_states)) [
              | inl gone ↦ rw (e, back.valid, w, m, gone) refl
              | inr (state, at) ↦
                  let (good, here) = back.model_back state (ground arith) at in
                  rw (e, back.valid, w, m, at, good, here) refl
            ]
            | inr m ↦ rw (e, back.valid, w, m, back.available) refl
          ]
        ]
]

-- The credential after the clearing, and its states as they were.
record IsCleared (before cred : ManagedCredential) : Type 0 where
  valid : cred.auth_invalid ≡ false
  available : cred.unavailable ≡ false
  same : (t : ℕ) → still_blocked cred t ≡ still_blocked before t

clear_cred-IsCleared : (cred : ManagedCredential) → IsCleared cred (clear_cred cred).0
unfolding clear_cred
clear_cred-IsCleared cred =
    elim (Bool-cases
      (cred.unavailable || is_some cred.last_error || cred.quota.exceeded || cred.auth_invalid)) [
        | inl e ↦ rw e (record { valid = refl; available = refl; same = λ t. refl })
        | inr e ↦ rw e (record { valid = ground arith; available = ground arith; same = λ t. refl })
      ]

clear_state-back :
    (now : ℕ) (state : ModelState)
    → ((clear_state now state).0.auth_invalid ≡ false)
      × ((clear_state now state).0.unavailable ≡ false)
unfolding clear_state
clear_state-back now state =
    elim (Bool-cases (
      state.unavailable
      || is_some state.last_error
      || state.quota.exceeded
      || state.auth_invalid)) [
        | inl e ↦ rw e (refl, refl)
        | inr e ↦ rw e (ground arith, ground arith)
      ]

-- `found` is the state of the model.
clear_found-IsBack :
    (model : String) (now : ℕ) (before cred : ManagedCredential) (changed : Bool)
    (found : Option ModelState)
    → lookup model cred.model_states ≡ found
    → IsCleared before cred
    → IsBack before (clear_found model now (cred, changed) found).0 model
unfolding clear_found
clear_found-IsBack model now before cred changed none at c = record {
  valid = c.valid;
  available = c.available;
  model_back = λ state named h.
      let clash : Path (Option ModelState) none (some state) = sym at ∙ h in absurd cc;
  same = c.same;
}
clear_found-IsBack model now before cred changed (some old) at c = record {
  valid = c.valid;
  available = c.available;
  model_back = λ state named h.
      let there_is = lookup-insert_self model (clear_state now old).0 cred.model_states in
      let same : Path (Option ModelState) (some (clear_state now old).0) (some state) =
        sym there_is ∙ h in
      let same' : (clear_state now old).0 ≡ state = cc in rw (← same') (clear_state-back now old);
  same = c.same;
}

mark_success-IsBack :
    (model : String) (now : ℕ) (cred : ManagedCredential)
    → IsBack cred (mark_success model now cred).0 model
unfolding mark_success
mark_success-IsBack model now cred =
    let done = clear_cred cred in
    let c = clear_cred-IsCleared cred in
    elim (Bool-cases (model == "")) [
      | inl blank ↦ rw blank (record {
        valid = c.valid;
        available = c.available;
        model_back = λ state named h. let clash : true ≡ false = sym blank ∙ named in absurd cc;
        same = c.same;
      })
      | inr named ↦ rw named (
          clear_found-IsBack model now cred done.0 done.1 (lookup model done.0.model_states) refl c)
    ]

-- After a success nothing but the operator's disabling and a credential-wide block keeps the
-- credential from the request's model, at any time.
pub mark-free :
    (disable_quota : Bool) (result : RequestResult) (now t : ℕ) (cred : ManagedCredential)
    → result.success ≡ true
    → (is_credential_blocked_for_model
        (mark disable_quota result now cred).0
        result.model
        t).blocked
      ≡ still_blocked cred t
unfolding mark
mark-free disable_quota result now t cred good =
    let done = mark_success result.model now cred in
    let back = mark_success-IsBack result.model now cred in
    elim (Bool-cases done.1) [
      | inl e ↦
          let back' : IsBack cred (record done.0 { state_updated_at = now }) result.model = record {
            valid = back.valid;
            available = back.available;
            model_back = back.model_back;
            same = back.same;
          } in
          rw (good, e)
            (IsBack-blocked cred (record done.0 { state_updated_at = now }) result.model t back'
              ∙ back.same t)
      | inr e ↦ rw (good, e) (IsBack-blocked cred done.0 result.model t back ∙ back.same t)
    ]
