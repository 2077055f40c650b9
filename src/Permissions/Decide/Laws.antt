-- ===== src/Permissions/Decide/Laws.antt =====
-- pkg/agent/runtime/permissions.go: what expiry leaves pending.
use text.Mathlib.TextEquality.{eq_iff}
use caddy_agent_gateway.Base.{
  ℕ, ◌<◌, String, ◌≡◌, refl, sym, ap, ◌∙◌, inl, inr, Bool, true, false, List, [], ◌∷◌, Option, some,
  arith, leb, if◌then◌else◌, ◌==◌, string_eq, lookup, delete, lookup-delete, lookup-Member,
  contains, keys, Distinct, ◌↔◌, Bool-cases, Member, here, there, Member-uncons,
}
use caddy_agent_gateway.Permissions.{
  PermissionEntry, Continuations, PermissionBroker, audit, take, mark_expired,
}
use caddy_agent_gateway.Permissions.Decide.{take_matching, settle, expire_due}

module _ (minute : ℕ) (c : Continuations) where
  settle-pending :
      (now : ℕ) (source good : String) (es : List PermissionEntry) (b : PermissionBroker minute c)
      → (settle minute c now source good es b).pending ≡ b.pending
  unfolding settle audit
  settle-pending now source good [] b = refl
  settle-pending now source good (e ∷ es) b = settle-pending now source good es _

  -- One round's broker.
  abbrev after_round :
      (PermissionEntry → Bool)
      → Bool
      → ℕ
      → String
      → PermissionEntry
      → PermissionBroker minute c
      → PermissionBroker minute c
  after_round matches expiry now id e b =
      if matches e
      then (if expiry
          then mark_expired minute c now id e (take minute c now id e b)
          else take minute c now id e b)
      else b

  after_round-pending :
      (matches : PermissionEntry → Bool) (expiry : Bool) (now : ℕ) (id : String)
      (e : PermissionEntry) (b : PermissionBroker minute c)
      → (after_round matches expiry now id e b).pending
        ≡ (if matches e then delete id b.pending else b.pending)
  unfolding take mark_expired
  after_round-pending matches expiry now id e b = elim (Bool-cases (matches e)) [
    | inl m ↦ elim (Bool-cases expiry) [ inl x ↦ rw (m, x) refl | inr x ↦ rw (m, x) refl ]
    | inr m ↦ rw m refl
  ]

  -- What is still pending was pending.
  pub take_matching-pending :
      (matches : PermissionEntry → Bool) (expiry : Bool) (now : ℕ)
      (scan : List (String × PermissionEntry)) (b : PermissionBroker minute c) (i : String)
      (x : PermissionEntry)
      → lookup i (take_matching minute c matches expiry now scan b).1.pending ≡ some x
      → lookup i b.pending ≡ some x
  unfolding take_matching
  take_matching-pending matches expiry now [] b i x h = h
  take_matching-pending matches expiry now ((id, e) ∷ rest) b i x h =
      let k =
        take_matching-pending matches expiry now rest (after_round matches expiry now id e b) i x
          h in
      let k' : lookup i (if matches e then delete id b.pending else b.pending) ≡ some x =
        rw (after_round-pending matches expiry now id e b) at k in
      ground (arith, k', lookup-delete id i b.pending)

  take_matching-spared :
      (matches : PermissionEntry → Bool) (expiry : Bool) (now : ℕ)
      (scan : List (String × PermissionEntry)) (b : PermissionBroker minute c) (i : String)
      (x y : PermissionEntry)
      → Member (i, y) scan
      → lookup i (take_matching minute c matches expiry now scan b).1.pending ≡ some x
      → matches y ≡ false
  unfolding take_matching
  take_matching-spared matches expiry now [] b i x y m h = elim m [ ]
  take_matching-spared matches expiry now ((id, e) ∷ rest) b i x y m h = elim (Member-uncons m) [
    | inr m' ↦
        take_matching-spared matches expiry now rest (after_round matches expiry now id e b) i x y
          m' h
    | inl same ↦
        let ei : i ≡ id = ap (λ p. p.0) same in
        let ey : y ≡ e = ap (λ p. p.1) same in
        let k =
          take_matching-pending matches expiry now rest (after_round matches expiry now id e b) i x
            h in
        let k' : lookup i (if matches e then delete id b.pending else b.pending) ≡ some x =
          rw (after_round-pending matches expiry now id e b) at k in
        rw ey (ground (arith, k', lookup-delete id i b.pending, eq_iff id i, ei))
  ]

  take_matching-keeps :
      (matches : PermissionEntry → Bool) (expiry : Bool) (now : ℕ)
      (scan : List (String × PermissionEntry)) (b : PermissionBroker minute c) (i : String)
      → ((y : PermissionEntry) → Member (i, y) scan → matches y ≡ false)
      → lookup i (take_matching minute c matches expiry now scan b).1.pending ≡ lookup i b.pending
  unfolding take_matching
  take_matching-keeps matches expiry now [] b i h = refl
  take_matching-keeps matches expiry now ((id, e) ∷ rest) b i h =
      take_matching-keeps matches expiry now rest (after_round matches expiry now id e b) i
        (λ y m. h y (there m))
      ∙ ap (lookup i) (after_round-pending matches expiry now id e b)
      ∙ elim (Bool-cases (id == i)) [
        | inr other ↦ ground (arith, lookup-delete id i b.pending)
        | inl same ↦
            let ei : id ≡ i = (eq_iff id i).0 same in
            let mine : Member (i, e) ((id, e) ∷ rest) = rw ei here in
            let spared : matches e ≡ false = h e mine in rw spared refl
      ]

keys-contains :
    (i : String) (y : PermissionEntry) (m : List (String × PermissionEntry))
    → Member (i, y) m
    → contains (keys m) i ≡ true
keys-contains i y [] h = elim h [ ]
keys-contains i y ((k, x) ∷ rest) h = elim (Member-uncons h) [
  | inl same ↦ let ei : i ≡ k = ap (λ p. p.0) same in ground (arith, eq_iff k i, ei)
  | inr later ↦ ground (arith, keys-contains i y rest later)
]

only_entry :
    (i : String) (y : PermissionEntry) (m : List (String × PermissionEntry))
    → Distinct (keys m)
    → Member (i, y) m
    → lookup i m ≡ some y
unfolding lookup
only_entry i y [] d h = elim h [ ]
only_entry i y ((k, x) ∷ rest) d h = elim (Member-uncons h) [
  | inl same ↦
      let ei : i ≡ k = ap (λ p. p.0) same in
      let ex : y ≡ x = ap (λ p. p.1) same in
      let hit : (k == i) ≡ true = (eq_iff k i).1 (sym ei) in rw hit (ap some (sym ex))
  | inr later ↦
      let there_is = keys-contains i y rest later in
      let miss : (k == i) ≡ false = ground (arith, there_is, eq_iff k i, d.0) in
      rw miss (only_entry i y rest d.1 later)
]

-- Of a broker that holds each request once: expiring the due requests leaves pending exactly the
-- requests that were pending and expire later than now.
pub expire_due_iff :
    (minute : ℕ) (c : Continuations) (now : ℕ) (b : PermissionBroker minute c) (id : String)
    (e : PermissionEntry)
    → Distinct (keys b.pending)
    → (lookup id (expire_due minute c now b).pending ≡ some e)
      ↔ ((lookup id b.pending ≡ some e) × (now < e.info.expires_at))
unfolding expire_due
expire_due_iff minute c now b id e once =
    let due = λ (x : PermissionEntry). leb x.info.expires_at now in
    let taken = take_matching minute c due true now b.pending b in
    let settled = settle-pending minute c now "expiry" "expired" taken.0 taken.1 in
    (
      λ h.
          let h' : lookup id taken.1.pending ≡ some e = rw settled at h in
          let before = take_matching-pending minute c due true now b.pending b id e h' in
          let spared =
            take_matching-spared minute c due true now b.pending b id e e
              (lookup-Member id e b.pending before) h' in
          (before, ground arith),
      λ k.
          let (before, later) = k in
          ap (lookup id) settled
          ∙ take_matching-keeps minute c due true now b.pending b id (λ y m.
            let found = only_entry id y b.pending once m in
            let same : Path (Option PermissionEntry) (some y) (some e) = sym found ∙ before in
            let same' : y ≡ e = cc in rw same' (ground arith))
          ∙ before,
    )
