-- ===== src/Limiter/Hits.antt =====
-- internal/middleware/ratelimit.go: sequences of requests.
use k8s_mtp.Common.{
  ℕ, suc, ◌+◌, ◌*◌, ◌≤◌, ◌≡◌, ◌≢◌, ◌∙◌, ap, refl, sym, arith, String, Bool, true, false, some, List,
  [], ◌∷◌, lookup, lookup-insert, eq_iff, eq_refl, ◌==◌, if◌then◌else◌, Bool-cases, inl, inr, All,
}
use k8s_mtp.Common.Int.{pos, ◌+ℤ◌, ◌≤ℤ◌, int_laws, leb_ℤ}
use k8s_mtp.Limiter.{token, Bucket, Buckets, RateLimiter, spend, is_allowed, found_or_new, take}
use k8s_mtp.Limiter.Bounds.{spend-le}

-- A request of the key at a time; `made` is the time that its bucket gets if it is new.
pub record Hit : Type 0 where
  pub key : String
  pub made : ℕ
  pub now : ℕ

abbrev pub after : RateLimiter → List Hit → Buckets → Buckets
after l [] m = m
after l (h ∷ hs) m = after l hs (take l h.key h.made h.now m).1

-- Which of the requests are let through.
abbrev pub verdicts : RateLimiter → List Hit → Buckets → List Bool
verdicts l [] m = []
verdicts l (h ∷ hs) m =
    (take l h.key h.made h.now m).0 ∷ verdicts l hs (take l h.key h.made h.now m).1

abbrev pub hits_of : String → List Hit → ℕ
hits_of k [] = 0
hits_of k (h ∷ hs) = if h.key == k then suc (hits_of k hs) else hits_of k hs

-- The times do not go back, from the given one on.
abbrev pub IsOrdered : ℕ → List Hit → Type 0
IsOrdered t [] = Unit {0}
IsOrdered t (h ∷ hs) = (t ≤ h.now) × IsOrdered h.now hs

abbrev pub last_time : ℕ → List Hit → ℕ
last_time t [] = t
last_time t (h ∷ hs) = last_time h.now hs

take_found :
    (l : RateLimiter) (k : String) (made now : ℕ) (m : Buckets) (b : Bucket)
    → lookup k m ≡ some b
    → ((take l k made now m).0 ≡ is_allowed (spend l now b))
      × (lookup k (take l k made now m).1 ≡ some (spend l now b))
unfolding take found_or_new
take_found l k made now m b e =
    rw e (refl, rw (lookup-insert k k (spend l now b) m, eq_refl k) refl)

-- A request touches no bucket but that of its key.
take-other :
    (l : RateLimiter) (k j : String) (made now : ℕ) (m : Buckets)
    → k ≢ j
    → lookup j (take l k made now m).1 ≡ lookup j m
unfolding take
take-other l k j made now m h = lookup-insert k j _ m ∙ ground (arith, h, eq_iff k j)

module _ (l : RateLimiter) (r : ℕ) (rate : l.rate ≡ pos r) (k : String) where
  -- The bucket of the key after some requests, of this key and others.
  record Spent (b : Bucket) (t : ℕ) (hs : List Hit) (m : Buckets) : Type 0 where
    bucket : Bucket
    present : lookup k (after l hs m) ≡ some bucket
    in_time : bucket.last_refill ≤ last_time t hs
    bound :
        bucket.tokens +ℤ pos (hits_of k hs * token + r * b.last_refill)
        ≤ℤ b.tokens +ℤ pos (r * bucket.last_refill)

  spent :
      (hs : List Hit) (m : Buckets) (b : Bucket) (t : ℕ)
      → lookup k m ≡ some b
      → b.last_refill ≤ t
      → IsOrdered t hs
      → Spent b t hs m
  unfolding spend
  spent [] m b t e h o = record { bucket = b; present = e; in_time = h; bound = omega int_laws }
  spent (x ∷ hs) m b t e h (o, os) = elim (Bool-cases (x.key == k)) [
    | inl same ↦
        let key : x.key ≡ k = (eq_iff x.key k).0 same in
        let here = take_found l x.key x.made x.now m b (ap (λ j. lookup j m) key ∙ e) in
        let rest =
          spent hs (take l x.key x.made x.now m).1 (spend l x.now b) x.now
            (ap (λ j. lookup j (take l x.key x.made x.now m).1) (sym key) ∙ here.1) (omega arith)
            os in
        record {
          bucket = rest.bucket;
          present = rest.present;
          in_time = rest.in_time;
          bound = rw same (omega (int_laws, rest.bound, spend-le l r x.now b rate (omega arith)));
        }
    | inr other ↦
        let rest =
          spent hs (take l x.key x.made x.now m).1 b x.now
            (take-other l x.key k x.made x.now m (λ d. ground (arith, d, eq_iff x.key k)) ∙ e)
            (omega arith) os in
        record {
          bucket = rest.bucket;
          present = rest.present;
          in_time = rest.in_time;
          bound = rw other rest.bound;
        }
  ]

  -- At a rate of r requests a minute: when a request of a key is let through, the requests of this key
  -- since its bucket was last filled, those that were refused and this one included, cost no more than
  -- the tokens that the bucket had then and those of the time that has passed since, whatever requests of
  -- other keys came between. The times do not go back.
  pub take_bound :
      (hs : List Hit) (m : Buckets) (b : Bucket) (t made now : ℕ)
      → lookup k m ≡ some b
      → b.last_refill ≤ t
      → IsOrdered t hs
      → last_time t hs ≤ now
      → (take l k made now (after l hs m)).0 ≡ true
      → pos (suc (hits_of k hs) * token + r * b.last_refill) ≤ℤ b.tokens +ℤ pos (r * now)
  unfolding is_allowed
  take_bound hs m b t made now e h o last allowed =
      let s = spent hs m b t e h o in
      let here = take_found l k made now (after l hs m) s.bucket s.present in
      let paid : leb_ℤ (pos 0) (spend l now s.bucket).tokens ≡ true = sym here.0 ∙ allowed in
      let filled : pos 0 ≤ℤ (spend l now s.bucket).tokens = ground (arith, paid) in
      omega (int_laws, filled, s.bound, spend-le l r now s.bucket rate (omega (arith, s.in_time)))

  -- Every request is of the key, and comes before the bucket has gained a token since the one before.
  abbrev pub IsHasty : ℕ → List Hit → Type 0
  IsHasty t [] = Unit {0}
  IsHasty t (h ∷ hs) = (h.key ≡ k) × (t ≤ h.now) × (r * h.now ≤ token + r * t) × IsHasty h.now hs

  -- A bucket that has gone below zero: a client that does not wait is refused for ever, since a request
  -- that is refused takes a token too. After a request of a key was refused, and as long as each further
  -- one comes before a token has been gained since the one before, every one is refused.
  pub verdicts_refused :
      (hs : List Hit) (m : Buckets) (b : Bucket)
      → lookup k m ≡ some b
      → is_allowed b ≡ false
      → IsHasty b.last_refill hs
      → All (λ v. v ≡ false) (verdicts l hs m)
  unfolding is_allowed spend
  verdicts_refused [] m b e refused hasty = tt
  verdicts_refused (x ∷ hs) m b e refused (key, ordered, soon, hasty) =
      let here = take_found l x.key x.made x.now m b (ap (λ j. lookup j m) key ∙ e) in
      let low : ¬ (pos 0 ≤ℤ b.tokens) = λ d. ground (arith, refused, d) in
      let still : ¬ (pos 0 ≤ℤ (spend l x.now b).tokens) =
        λ d. omega (int_laws, low, d, soon, spend-le l r x.now b rate ordered) in
      let no : is_allowed (spend l x.now b) ≡ false = ground (arith, still) in
      (
        here.0 ∙ no,
        verdicts_refused hs (take l x.key x.made x.now m).1 (spend l x.now b)
            (ap (λ j. lookup j (take l x.key x.made x.now m).1) (sym key) ∙ here.1) no hasty,
      )
