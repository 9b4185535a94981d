-- ===== src/Limiter/Waits.antt =====
-- internal/middleware/ratelimit.go: clients that wait as the header Retry-After says.
use k8s_mtp.Common.{
  ℕ, suc, ◌+◌, ◌*◌, ◌≤◌, ◌≡◌, ◌∙◌, ap, sym, arith, String, false, none, some, List, [], ◌∷◌, lookup,
  All,
}
use Prim.Native.Nat.{◌/◌}
use native.Mathlib.Nat.{mul_assoc, mul-add, mul-add-div, div-eq_of_lt}
use k8s_mtp.Common.Int.{pos}
use k8s_mtp.Limiter.{token, Bucket, Buckets, RateLimiter, is_allowed, retry_after, seconds_for}
use k8s_mtp.Limiter.Hits.{Hit, verdicts, IsHasty, verdicts_refused}

exact : (n d : ℕ) → suc n * d ≡ 60 → (60 + n) / suc n ≡ d
exact n d e =
    ap (λ x. (x + n) / suc n) (sym e)
    ∙ (mul-add-div {m = suc n} (omega arith) d n
        ∙ (ap (λ x. d + x) (div-eq_of_lt (omega arith)) ∙ omega arith))

module _ (l : RateLimiter) (r : ℕ) (rate : l.rate ≡ pos r) (k : String) where
  -- Each request is of the key, and comes the given number of seconds after the one before.
  abbrev pub IsSpaced : ℕ → ℕ → List Hit → Type 0
  IsSpaced q t [] = Unit {0}
  IsSpaced q t (h ∷ hs) = (h.key ≡ k) × (h.now ≡ t + q * 1_000_000_000) × IsSpaced q h.now hs

  spaced-IsHasty :
      (q t : ℕ) (hs : List Hit) → r * q ≡ 60 → IsSpaced q t hs → (IsHasty l r rate k) t hs
  spaced-IsHasty q t [] d h = tt
  spaced-IsHasty q t (x ∷ hs) d (key, at, h) =
      (key, omega (arith, at), soon, spaced-IsHasty q x.now hs d h)
    where
      soon : r * x.now ≤ token + r * t
      soon =
          rw (at, mul-add r t (q * 1_000_000_000), sym (mul_assoc r q 1_000_000_000), d)
            (omega arith)

module _ (l : RateLimiter) (n : ℕ) (rate : l.rate ≡ pos (suc n)) (k : String) where
  -- Where the rate divides 60, as the default does: after a request was refused, a client that waits exactly as
  -- long as Retry-After says before each further request is refused for ever.
  pub retry_after-refused :
      (q : ℕ) (d : ℕ) (hs : List Hit) (m : Buckets) (b : Bucket)
      → suc n * d ≡ 60
      → retry_after l ≡ some q
      → lookup k m ≡ some b
      → is_allowed b ≡ false
      → (IsSpaced l (suc n) rate k) q b.last_refill hs
      → All (λ v. v ≡ false) (verdicts l hs m)
  unfolding retry_after
  retry_after-refused q d hs m b divides told e refused h =
      (verdicts_refused l (suc n) rate k) hs m b e refused (
        (spaced-IsHasty l (suc n) rate k) q b.last_refill hs (ap (λ x. suc n * x) same ∙ divides) h)
    where
      some_same : (x y : ℕ) → some x ≡ some y → x ≡ y
      some_same x y p = ap (λ o. elim o [ none ↦ x | some z ↦ z ]) p

      same : q ≡ d
      same = some_same q ((60 + n) / suc n) (sym told ∙ ap seconds_for rate) ∙ exact n d divides
