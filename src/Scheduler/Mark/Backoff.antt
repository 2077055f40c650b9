-- ===== src/Scheduler/Mark/Backoff.antt =====
-- pkg/credential/scheduler/scheduler.go: the backoff doubles with each level up to its maximum.
use Prim.Native.Nat.{◌^◌}
use native.Mathlib.Nat.{one-le-pow, pow-succ', mul_assoc, le-mul_of_pos_right}
use caddy_agent_gateway.Base.{
  ℕ, zero, suc, ◌+◌, ◌*◌, ◌≤◌, ◌≡◌, sym, ap, ◌∙◌, inl, inr, true, arith, ltb, if◌then◌else◌, ℤ, pos,
  negsuc, Bool-cases,
}
use caddy_agent_gateway.Scheduler.Mark.{
  backoff_loop, compute_backoff, default_quota_backoff_base, default_quota_backoff_max,
}

abbrev pub at_most : ℕ → ℕ → ℕ
at_most bound d = if ltb bound d then bound else d

double-pow : (d n : ℕ) → d * 2 * 2 ^ n ≡ d * 2 ^ suc n
double-pow d n = mul_assoc d 2 (2 ^ n) ∙ ap (λ k. d * k) (sym (pow-succ' 2 n))

at_most-pow : (bound d n : ℕ) → bound ≤ d → at_most bound (d * 2 ^ n) ≡ at_most bound d
at_most-pow bound d n h =
    let grows : d ≤ d * 2 ^ n = le-mul_of_pos_right d (one-le-pow n 2 (omega arith)) in ground arith

backoff_loop-at_most :
    (left d bound : ℕ) → at_most bound (backoff_loop left d bound) ≡ at_most bound (d * 2 ^ left)
unfolding backoff_loop
backoff_loop-at_most zero d bound = ap (at_most bound) (omega arith)
backoff_loop-at_most (suc left) d bound = elim (Bool-cases (ltb d bound)) [
  | inl small ↦
      rw small (backoff_loop-at_most left (d * 2) bound ∙ ap (at_most bound) (double-pow d left))
  | inr large ↦ rw large (sym (at_most-pow bound d (suc left) (ground arith)))
]

backoff_loop-grows : (left d bound : ℕ) → d ≤ backoff_loop left d bound
unfolding backoff_loop
backoff_loop-grows zero d bound = omega arith
backoff_loop-grows (suc left) d bound =
    let ih = backoff_loop-grows left (d * 2) bound in ground (arith, ih)

-- With a first backoff that is at most the maximum, the backoff of a level that is not negative is
-- the first one doubled that many times, or the maximum where that is less.
pub compute_backoff-at_most :
    (level base bound : ℕ)
    → base ≤ bound
    → compute_backoff (pos level) base bound ≡ at_most bound (base * 2 ^ level)
unfolding compute_backoff
compute_backoff-at_most zero base bound h = ground arith
compute_backoff-at_most (suc level) base bound h =
    let positive : ltb 0 (suc level + 0) ≡ true = ground arith in
    rw positive (backoff_loop-at_most (suc level) base bound)

-- Whatever the level is, the backoff of the scheduler is a second at least and half an hour at most.
pub compute_backoff-bounds :
    (level : ℤ)
    → let wait = compute_backoff level default_quota_backoff_base default_quota_backoff_max in
      (default_quota_backoff_base ≤ wait) × (wait ≤ default_quota_backoff_max)
unfolding compute_backoff
compute_backoff-bounds (negsuc n) = ground arith
compute_backoff-bounds (pos n) =
    let grows = backoff_loop-grows n default_quota_backoff_base default_quota_backoff_max in
    ground (arith, grows)
