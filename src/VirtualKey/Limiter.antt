-- ===== src/VirtualKey/Limiter.antt =====
-- pkg/gateway/virtualkey/ratelimit.go: one token bucket for each key and traffic class.
pub mod Laws
use text.Mathlib.TextEquality.{eq_iff}
use caddy_agent_gateway.Base.{
  ℕ, String, ◌≡◌, refl, ◌↔◌, Bool, true, false, not, ◌&&◌, ◌||◌, List, [], ◌∷◌, Option, none, some,
  arith, ℤ, pos, ltb_ℤ, int_eq, if◌then◌else◌, Eq, ◌==◌, string_eq, eq_self, lookup, insert, Result,
  ok, err, ◌>>=◌,
}
use caddy_agent_gateway.VirtualKey.Types.{RateLimit, VirtualKeyRateLimits, VirtualKey}

-- A RateLimitDimension; `unsupported` is any other string.
pub data Dimension : Type 0 where
  llm mcp agent : Dimension
  unsupported : String → Dimension

pub record Admission : Type 0 where
  pub allowed : Bool
  pub retry_after_seconds : ℤ
  pub requests_per_minute : ℤ
  pub burst : ℤ

pub record LimiterKey : Type 0 where
  pub virtual_key_id : String
  pub dimension : Dimension

pub data LimitError : Type 0 where
  id_required : LimitError
  unsupported_dimension : String → LimitError

dimension_beq : Dimension → Dimension → Bool
dimension_beq llm llm = true
dimension_beq mcp mcp = true
dimension_beq agent agent = true
dimension_beq (unsupported s) (unsupported t) = s == t
dimension_beq _ _ = false

dimension_beq_iff : (d e : Dimension) → (dimension_beq d e ≡ true) ↔ (d ≡ e)
unfolding dimension_beq
dimension_beq_iff llm e = ground (arith, eq_iff "" "")
dimension_beq_iff mcp e = ground (arith, eq_iff "" "")
dimension_beq_iff agent e = ground (arith, eq_iff "" "")
dimension_beq_iff (unsupported s) (unsupported t) = ground (arith, eq_iff s t)
dimension_beq_iff (unsupported s) _ = ground (arith, eq_iff s s)

key_beq : LimiterKey → LimiterKey → Bool
unfolding dimension_beq
key_beq a b = a.virtual_key_id == b.virtual_key_id && dimension_beq a.dimension b.dimension

key_beq_iff : (a b : LimiterKey) → (key_beq a b ≡ true) ↔ (a ≡ b)
unfolding key_beq
key_beq_iff a b =
    ground
      (arith, eq_iff a.virtual_key_id b.virtual_key_id, dimension_beq_iff a.dimension b.dimension)

instance pub limiter_key_eq : Eq LimiterKey
limiter_key_eq = record { beq = key_beq; beq_iff = key_beq_iff }

unfoldable pub rate_limit_for_dimension :
    Option VirtualKeyRateLimits → Dimension → Result LimitError (Option RateLimit)
rate_limit_for_dimension none dimension = ok none
rate_limit_for_dimension (some limits) llm = ok limits.llm
rate_limit_for_dimension (some limits) mcp = ok limits.mcp
rate_limit_for_dimension (some limits) agent = ok limits.agent
rate_limit_for_dimension (some limits) (unsupported s) = err (unsupported_dimension s)

-- float64 arithmetic, and golang.org/x/time/rate: a limiter is a state that AllowN moves.
pub record Rate : Type 1 where
  pub Float : Type 0
  pub of_int : ℤ → Float
  pub sub_float : Float → Float → Float
  pub div_float : Float → Float → Float
  pub max_float : Float → Float → Float
  -- int(math.Ceil(x))
  pub ceil : Float → ℤ
  pub Limiter : Type 0
  pub new_limiter : Float → ℤ → Limiter
  pub allow_n : Limiter → ℕ → ℕ → Bool × Limiter
  pub tokens_at : Limiter → ℕ → Float

max_int : ℤ → ℤ → ℤ
max_int a b = if ltb_ℤ a b then b else a

module _ (rate : Rate) where
  open rate use {
    Float, of_int, sub_float, div_float, max_float, ceil, Limiter, new_limiter, allow_n, tokens_at,
  }

  pub record Bucket : Type 0 where
    pub limiter : Limiter
    pub refill_rate : Float
    pub requests_per_minute : ℤ
    pub burst : ℤ

  abbrev pub Buckets : Type 0
  Buckets = List (LimiterKey × Bucket)

  pub fresh_bucket : RateLimit → Bucket
  fresh_bucket limit =
      let refill_rate = div_float (of_int limit.requests_per_minute) (of_int (pos 60)) in
      record {
        limiter = new_limiter refill_rate limit.burst;
        refill_rate = refill_rate;
        requests_per_minute = limit.requests_per_minute;
        burst = limit.burst;
      }

  abbrev pub bucket_fits : Bucket → RateLimit → Bool
  bucket_fits bucket limit =
      bucket.requests_per_minute == limit.requests_per_minute && bucket.burst == limit.burst

  -- The bucket that `admit` uses: the stored one, or a new one where none is stored or its policy
  -- has changed.
  pub current_bucket : Option Bucket → RateLimit → Bucket
  current_bucket none limit = fresh_bucket limit
  current_bucket (some bucket) limit =
      if bucket_fits bucket limit then bucket else fresh_bucket limit

  admission : Bucket → ℕ → Bool → Limiter → Admission
  admission bucket now true limiter = record {
    allowed = true;
    retry_after_seconds = pos 0;
    requests_per_minute = bucket.requests_per_minute;
    burst = bucket.burst;
  }
  admission bucket now false limiter =
      let missing =
        max_float (of_int (pos 0)) (sub_float (of_int (pos 1)) (tokens_at limiter now)) in
      record {
        allowed = false;
        retry_after_seconds = max_int (pos 1) (ceil (div_float missing bucket.refill_rate));
        requests_per_minute = bucket.requests_per_minute;
        burst = bucket.burst;
      }

  -- The rest of `admit` for a class that is limited. The limiter is shared by pointer with the
  -- registry, so its new state is stored there. The code takes the token behind the lock's release;
  -- here both are one step, so no removal of the bucket comes between them.
  unfoldable pub admit_limited : Buckets → LimiterKey → RateLimit → ℕ → Admission × Buckets
  unfolding current_bucket admission max_int
  admit_limited buckets key limit now =
      let bucket = current_bucket (lookup key buckets) limit in
      let (allowed, limiter) = allow_n bucket.limiter now 1 in
      (
        admission bucket now allowed limiter,
        insert key (record bucket { limiter = limiter }) buckets,
      )

  unlimited : Admission
  unlimited = record {
    allowed = true;
    retry_after_seconds = pos 0;
    requests_per_minute = pos 0;
    burst = pos 0;
  }

  admit_class : Buckets → LimiterKey → Option RateLimit → ℕ → Admission × Buckets
  unfolding unlimited
  admit_class buckets key none now = (unlimited, buckets)
  admit_class buckets key (some limit) now = admit_limited buckets key limit now

  unfoldable pub admit :
      Buckets → VirtualKey → Dimension → ℕ → Result LimitError (Admission × Buckets)
  unfolding admit_class rate_limit_for_dimension
  admit buckets key dimension now = if key.id == "" then err id_required else (do
    limit ← rate_limit_for_dimension key.rate_limits dimension
    ok (admit_class buckets (record { virtual_key_id = key.id; dimension = dimension }) limit now))

  -- The registry without its former buckets.
  abbrev pub reset : Buckets → Buckets
  reset buckets = []

  unfoldable pub remove : Buckets → String → Buckets
  remove [] id = []
  remove ((key, bucket) ∷ buckets) id =
      if key.virtual_key_id == id then remove buckets id else (key, bucket) ∷ remove buckets id
