-- ===== src/Scheduler/Selector/Laws.antt =====
-- pkg/credential/scheduler/selector.go: both selections find a usable credential whenever there is
-- one, and a block ends in the future.
use native.Mathlib.Nat.{mod-lt, mod-eq_of_lt, add-mod_right}
use mathlib.Core.Path.{subst}
use caddy_agent_gateway.Base.{
  ℕ, zero, suc, ◌+◌, ◌-◌, ◌%◌, ◌≤◌, ◌<◌, String, ◌≡◌, ◌≢◌, refl, sym, ap, ◌∙◌, ◌⊎◌, inl, inr, Bool,
  true, false, not, ◌&&◌, List, [], ◌∷◌, Option, none, some, arith, ltb, leb, ◌==◌, length,
  get_elem?, Bool-cases, Member, here, there, Member-uncons, lookup, nat_eq, string_eq, ◌||◌,
}
use caddy_agent_gateway.Scheduler.Credential.{ManagedCredential, ModelState, QuotaState}
use caddy_agent_gateway.Scheduler.Selector.{
  ReadyBucket, try_index, round_robin_loop, pick_round_robin, not_blocked, is_disabled, Block,
  later_recovery, quota_block, model_block, found_block, credential_block,
  is_credential_blocked_for_model,
}

-- Blocked by an operator or an authentication failure, with no time to retry; blocked until a time
-- that lies ahead; or free.
pub data Explains (now : ℕ) (b : Block) : Type 0 where
  for_good : b.blocked ≡ true → b.reason ≡ is_disabled → b.next_retry ≡ 0 → Explains now b
  for_now : b.blocked ≡ true → b.reason ≢ is_disabled → now < b.next_retry → Explains now b
  not_at_all : b.blocked ≡ false → b.reason ≡ not_blocked → b.next_retry ≡ 0 → Explains now b

quota_block-Explains :
    (now next : ℕ) (quota : QuotaState) → now < next → Explains now (quota_block next quota)
unfolding quota_block later_recovery
quota_block-Explains now next quota h = elim (Bool-cases quota.exceeded) [
  | inl e ↦ rw e (for_now refl (λ k. cc) (ground arith))
  | inr e ↦ rw e (for_now refl (λ k. cc) (ground arith))
]

model_block-Explains : (state : ModelState) (now : ℕ) → Explains now (model_block state now)
unfolding model_block
model_block-Explains state now = elim (Bool-cases state.auth_invalid) [
  | inl e ↦ rw e (for_good refl refl refl)
  | inr e ↦
      elim (Bool-cases (
        state.unavailable && not (state.next_retry_after == 0) && ltb now state.next_retry_after)) [
          | inl k ↦
              rw (e, k) (quota_block-Explains now state.next_retry_after state.quota (ground arith))
          | inr k ↦ rw (e, k) (not_at_all refl refl refl)
        ]
]

found_block-Explains : (found : Option ModelState) (now : ℕ) → Explains now (found_block found now)
unfolding found_block
found_block-Explains none now = not_at_all refl refl refl
found_block-Explains (some state) now = model_block-Explains state now

credential_block-Explains :
    (cred : ManagedCredential) (now : ℕ) → Explains now (credential_block cred now)
unfolding credential_block
credential_block-Explains cred now =
    elim (Bool-cases (cred.unavailable && ltb now cred.next_retry_after)) [
      | inl k ↦ rw k (quota_block-Explains now cred.next_retry_after cred.quota (ground arith))
      | inr k ↦ rw k (not_at_all refl refl refl)
    ]

-- Of any credential, model and time: it is blocked for good with no time to retry, or blocked until
-- a time that lies ahead, or free with no reason and no time.
pub is_credential_blocked_for_model-Explains :
    (cred : ManagedCredential) (model : String) (now : ℕ)
    → Explains now (is_credential_blocked_for_model cred model now)
unfolding is_credential_blocked_for_model
is_credential_blocked_for_model-Explains cred model now =
    elim (Bool-cases (cred.credential.disabled || cred.auth_invalid)) [
      | inl e ↦ rw e (for_good refl refl refl)
      | inr e ↦
          elim (Bool-cases
            (cred.credential_wide_unavailable && ltb now cred.credential_wide_next_retry_after)) [
              | inl k ↦ rw (e, k) (for_now refl (λ d. cc) (ground arith))
              | inr k ↦ elim (Bool-cases (not (model == "") && ltb 0 (length cred.model_states))) [
                | inl m ↦ rw (e, k, m) (found_block-Explains (lookup model cred.model_states) now)
                | inr m ↦ rw (e, k, m) (credential_block-Explains cred now)
              ]
            ]
    ]

zero_or_suc : (d : ℕ) → (d ≡ 0) ⊎ ((d' : ℕ) × (d ≡ suc d'))
zero_or_suc zero = inl refl
zero_or_suc (suc d) = inr (d, refl)

module _ {A : Type 0} (predicate : A → Bool) where
  get_elem?-Member : (creds : List A) (i : ℕ) {c : A} → get_elem? creds i ≡ some c → Member c creds
  get_elem?-Member [] i h = cc
  get_elem?-Member (x ∷ xs) zero {c} h = let e : x ≡ c = cc in rw e here
  get_elem?-Member (x ∷ xs) (suc i) h = there (get_elem?-Member xs i h)

  Member-get_elem? :
      {c : A} (creds : List A)
      → Member c creds
      → (i : ℕ) × (i < length creds) × (get_elem? creds i ≡ some c)
  Member-get_elem? [] m = elim m [ ]
  Member-get_elem? (x ∷ xs) m = elim (Member-uncons m) [
    | inl e ↦ (zero, omega arith, ap some (sym e))
    | inr m' ↦ let (i, lt, h) = Member-get_elem? xs m' in (suc i, omega arith, h)
  ]

  -- A pair that the loop may return.
  abbrev pub Usable : List A → A × ℕ → Type 0
  Usable creds found = Member found.0 creds × (predicate found.0 ≡ true)

  try_index-Usable :
      (creds : List A) (i : ℕ) (o : Option A) (rest : Option (A × ℕ)) (found : A × ℕ)
      → get_elem? creds i ≡ o
      → (rest ≡ some found → Usable creds found)
      → try_index predicate o i rest ≡ some found
      → Usable creds found
  unfolding try_index
  try_index-Usable creds i none rest found e later h = absurd cc
  try_index-Usable creds i (some x) rest found e later h = elim (Bool-cases (predicate x)) [
    | inl fits ↦
        let k : Path (Option (A × ℕ)) (some (x, i + 1)) (some found) = rw fits at h in
        let same : (x, i + 1) ≡ found = cc in rw (← same) (get_elem?-Member creds i e, fits)
    | inr fails ↦ later (rw fails at h)
  ]

  round_robin_loop-Usable :
      (creds : List A) (n start offset left : ℕ) (found : A × ℕ)
      → round_robin_loop predicate creds n start offset left ≡ some found
      → Usable creds found
  unfolding round_robin_loop
  round_robin_loop-Usable creds n start offset zero found h = absurd cc
  round_robin_loop-Usable creds n start offset (suc left) found h =
      try_index-Usable creds ((start + offset) % n) (get_elem? creds ((start + offset) % n))
        (round_robin_loop predicate creds n start (suc offset) left) found refl
        (round_robin_loop-Usable creds n start (suc offset) left found) h

  get_elem?-some :
      (creds : List A) (i : ℕ) → i < length creds → (c : A) × (get_elem? creds i ≡ some c)
  get_elem?-some [] i h = absurd (omega arith)
  get_elem?-some (x ∷ xs) zero h = (x, refl)
  get_elem?-some (x ∷ xs) (suc i) h = get_elem?-some xs i (omega arith)

  -- The loop stops at the `d`-th of its rounds at the latest, when that one's credential is usable.
  round_robin_loop-finds :
      (creds : List A) (start offset left d : ℕ) (c : A)
      → 0 < length creds
      → get_elem? creds ((start + offset + d) % length creds) ≡ some c
      → predicate c ≡ true
      → d < left
      → (found : A × ℕ) × (round_robin_loop predicate creds (length creds) start offset left
          ≡ some found)
  unfolding round_robin_loop try_index
  round_robin_loop-finds creds start offset zero d c positive at fits lt = absurd (omega arith)
  round_robin_loop-finds creds start offset (suc left) d c positive at fits lt =
      let (x, ex) =
        get_elem?-some creds ((start + offset) % length creds) (mod-lt (start + offset) positive) in
      elim (Bool-cases (predicate x)) [
        | inl good ↦ ((x, (start + offset) % length creds + 1), rw (ex, good) refl)
        | inr bad ↦ elim d_cases [
          | inl d0 ↦
              let at0 : get_elem? creds ((start + offset) % length creds) ≡ some c =
                subst (λ i. get_elem? creds (i % length creds) ≡ some c) (same_index d0) at in
              let same : Path (Option A) (some x) (some c) = sym ex ∙ at0 in
              let same' : x ≡ c = cc in
              let fits' : predicate x ≡ true = rw same' fits in
              let clash : true ≡ false = sym fits' ∙ bad in absurd cc
          | inr (d', ds) ↦
              let (found, h) =
                round_robin_loop-finds creds start (suc offset) left d' c positive
                  (subst (λ i. get_elem? creds (i % length creds) ≡ some c) (next_index ds) at) fits
                  (omega arith) in
              (found, rw (ex, bad) h)
        ]
      ]
    where
      d_cases : (d ≡ 0) ⊎ ((d' : ℕ) × (d ≡ suc d'))
      d_cases = zero_or_suc d

      same_index : d ≡ 0 → start + offset + d ≡ start + offset
      same_index e = omega arith

      next_index : {d' : ℕ} → d ≡ suc d' → start + offset + d ≡ start + suc offset + d'
      next_index e = omega arith

  -- Each place of a circle is some rounds ahead of the start.
  rounds_to : (n start i : ℕ) → start < n → i < n → (d : ℕ) × (d < n) × ((start + 0 + d) % n ≡ i)
  rounds_to n start i s h = elim (Bool-cases (leb start i)) [
    | inl le ↦
        let lt : start ≤ i = ground arith in
        (i - start, omega arith, ap (λ k. k % n) (omega arith) ∙ mod-eq_of_lt h)
    | inr gt ↦
        let lt : i < start = ground arith in
        (
          i + n - start,
          omega arith,
          ap (λ k. k % n) (omega arith) ∙ add-mod_right i n ∙ mod-eq_of_lt h,
        )
  ]

-- Round robin: whenever a credential of the bucket passes the predicate, the selection gives one of
-- the bucket that passes, whatever the cursor was.
pub pick_round_robin-Usable :
    {A : Type 0} (predicate : A → Bool) (bucket : ReadyBucket A) (c : A)
    → Member c bucket.creds
    → predicate c ≡ true
    → (d : A) × ((pick_round_robin predicate bucket).0 ≡ some d)
      × Member d bucket.creds
      × (predicate d ≡ true)
unfolding pick_round_robin
pick_round_robin-Usable predicate bucket c m fits =
    let (i, lt, at) = Member-get_elem? predicate bucket.creds m in
    let positive : 0 < length bucket.creds = omega arith in
    let some_left : (length bucket.creds == 0) ≡ false = ground arith in
    let start = bucket.cursor % length bucket.creds in
    let (rounds, few, there_is) =
      rounds_to predicate (length bucket.creds) start i (mod-lt bucket.cursor positive) lt in
    let (found, h) =
      round_robin_loop-finds predicate bucket.creds start 0 (length bucket.creds) rounds c positive
        (rw there_is at) fits few in
    let (m', good) =
      round_robin_loop-Usable predicate bucket.creds (length bucket.creds) start 0
        (length bucket.creds) found h in
    (found.0, rw (some_left, h) refl, m', good)
