-- ===== src/Tests/Limits.antt =====
-- internal/middleware/ratelimit.go on concrete requests.
use k8s_mtp.Common.{
  ℕ, suc, ◌+◌, ◌*◌, ◌≡◌, true, false, some, [], ◌∷◌, refl, arith, All, lookup, insert,
}
use k8s_mtp.Common.Int.{pos, negsuc, ◌+ℤ◌, ◌-ℤ◌, ◌*ℤ◌, ◌≤ℤ◌}
use k8s_mtp.Limiter.{
  RateLimiter, Bucket, Buckets, take, is_allowed, capacity, token, spend, refilled, grown,
  found_or_new, retry_after,
}
use k8s_mtp.Limiter.Hits.{Hit, after, hits_of, verdicts, take_bound}
use k8s_mtp.Limiter.Waits.{retry_after-refused}

-- Sixty requests a minute, two at once.
abbrev limiter : RateLimiter
limiter = record { rate = pos 60; burst = pos 2 }

abbrev full : Bucket
full = record { tokens = pos 120_000_000_000; last_refill = 0 }

abbrev spent : Bucket
spent = record { tokens = negsuc 0; last_refill = 0 }

abbrev of : Bucket → Buckets
of b = ("ann", b) ∷ []

abbrev hit : Hit
hit = record { key = "ann"; made = 0; now = 0 }

abbrev at : ℕ → Hit
at now = record { key = "ann"; made = 0; now = now }

of_found : (b : Bucket) → lookup "ann" (of b) ≡ some b
unfolding lookup
of_found b = refl

let_through : (take limiter "ann" 5 5 (after limiter (hit ∷ []) (of full))).0 ≡ true
unfolding take is_allowed spend ◌-ℤ◌ refilled capacity ◌*ℤ◌ grown ◌+ℤ◌ found_or_new lookup insert
let_through = refl

take_bound_example :
    pos (suc (hits_of "ann" (hit ∷ [])) * token + 60 * 0) ≤ℤ pos 120_000_000_000 +ℤ pos (60 * 5)
take_bound_example =
    take_bound limiter 60 refl "ann" (hit ∷ []) (of full) full 0 5 5 (of_found full) (omega arith)
      (omega arith, tt) (omega arith) let_through

spent_refused : is_allowed spent ≡ false
unfolding is_allowed
spent_refused = refl

retry_after-refused_example :
    All (λ v. v ≡ false) (verdicts limiter (at 1_000_000_000 ∷ at 2_000_000_000 ∷ []) (of spent))
unfolding retry_after
retry_after-refused_example =
    retry_after-refused limiter 59 refl "ann" 1 1 (at 1_000_000_000 ∷ at 2_000_000_000 ∷ [])
      (of spent) spent refl refl (of_found spent) spent_refused
      (refl, omega arith, (refl, omega arith, tt))
