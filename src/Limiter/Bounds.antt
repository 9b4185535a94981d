-- ===== src/Limiter/Bounds.antt =====
-- internal/middleware/ratelimit.go: how many requests a bucket lets through.
use k8s_mtp.Common.{ℕ, ◌+◌, ◌-◌, ◌*◌, ◌≤◌, ◌≡◌, ap, refl, arith, Bool-cases, inl, inr}
use k8s_mtp.Common.Int.{pos, pos_part, neg_part, sub_ℕ, ltb_ℤ, ◌+ℤ◌, ◌*ℤ◌, ◌≤ℤ◌, int_laws}
use k8s_mtp.Limiter.{token, Bucket, RateLimiter, capacity, grown, refilled, spend}

gained : (r now last : ℕ) → last ≤ now → (pos r *ℤ sub_ℕ now last) ≡ pos (r * (now - last))
unfolding ◌*ℤ◌
gained r now last h = ground arith

spread : (r now last : ℕ) → last ≤ now → r * (now - last) + r * last ≡ r * now
spread r now last h = grind arith

refilled-le-grown : (l : RateLimiter) (now : ℕ) (b : Bucket) → refilled l now b ≤ℤ grown l now b
unfolding refilled
refilled-le-grown l now b = elim (Bool-cases (ltb_ℤ (capacity l) (grown l now b))) [
  | inl e ↦ rw e (ground (arith, e))
  | inr e ↦ rw e (omega arith)
]

refilled-le-capacity : (l : RateLimiter) (now : ℕ) (b : Bucket) → refilled l now b ≤ℤ capacity l
unfolding refilled
refilled-le-capacity l now b = elim (Bool-cases (ltb_ℤ (capacity l) (grown l now b))) [
  | inl e ↦ rw e (omega arith)
  | inr e ↦ rw e (ground (arith, e))
]

grown-eq :
    (l : RateLimiter) (r now : ℕ) (b : Bucket)
    → l.rate ≡ pos r
    → b.last_refill ≤ now
    → grown l now b ≡ b.tokens +ℤ pos (r * (now - b.last_refill))
unfolding grown
grown-eq l r now b e h = rw e (rw (gained r now b.last_refill h) refl)

-- A request takes a token, and the bucket gains no more than the rate for the time that has passed.
pub spend-le :
    (l : RateLimiter) (r now : ℕ) (b : Bucket)
    → l.rate ≡ pos r
    → b.last_refill ≤ now
    → (spend l now b).tokens +ℤ pos (token + r * b.last_refill) ≤ℤ b.tokens +ℤ pos (r * now)
unfolding spend
spend-le l r now b e h = omega (
  int_laws,
  refilled-le-grown l now b,
  ap pos_part (grown-eq l r now b e h),
  ap neg_part (grown-eq l r now b e h),
  spread r now b.last_refill h,
)
