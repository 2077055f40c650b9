-- ===== src/VirtualKey/Limiter/Laws.antt =====
-- pkg/gateway/virtualkey/ratelimit.go: what a decision leaves in the registry, on every branch.
use text.Mathlib.TextEquality.{eq_iff}
use caddy_agent_gateway.Base.{
  String, ◌≡◌, ◌⊎◌, true, false, [], ◌∷◌, none, some, arith, pos, ◌≤ℤ◌, if◌then◌else◌, ◌==◌,
  string_eq, lookup,
}
use caddy_agent_gateway.VirtualKey.Types.{RateLimit, VirtualKey}
use caddy_agent_gateway.VirtualKey.Limiter.{
  Admission, LimiterKey, limiter_key_eq, Rate, Bucket, Buckets, remove,
}

module _ (rate : Rate) where
  open rate use {Limiter, allow_n}

  abbrev pub Answers : Admission → RateLimit → Type 0
  Answers a limit =
      (a.requests_per_minute ≡ limit.requests_per_minute)
      × (a.burst ≡ limit.burst)
      × ((a.allowed ≡ true) × (a.retry_after_seconds ≡ pos 0)
          ⊎ (a.allowed ≡ false) × (pos 1 ≤ℤ a.retry_after_seconds))

  abbrev pub Stores : Buckets rate → LimiterKey → RateLimit → Type 0
  Stores buckets key limit =
      (bucket : Bucket rate) × (lookup key buckets ≡ some bucket)
      × (bucket.requests_per_minute ≡ limit.requests_per_minute)
      × (bucket.burst ≡ limit.burst)

  -- `remove` drops the buckets of one key, in every class, and no others.
  pub lookup-remove :
      (buckets : Buckets rate) (id : String) (key : LimiterKey)
      → lookup key (remove rate buckets id)
        ≡ (if key.virtual_key_id == id then none else lookup key buckets)
  unfolding remove lookup
  lookup-remove [] id key = ground arith
  lookup-remove ((j, bucket) ∷ buckets) id key = ground (
    arith,
    eq_iff j.virtual_key_id id,
    eq_iff key.virtual_key_id id,
    limiter_key_eq.beq_iff j key,
    lookup-remove buckets id key,
  )
