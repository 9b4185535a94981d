-- ===== src/Store/Distinct.antt =====
-- Lists whose entries differ in a text, and what keeps them so.
use k8s_mtp.Common.{
  Bool, true, false, List, [], ◌∷◌, map, ◌≡◌, ◌∙◌, refl, arith, any, keep, All, Bool-cases, inl,
  inr,
}

module _ {A : Type 0} where
  -- No later entry is the same as an earlier one, by the test.
  abbrev pub Distinct : (A → A → Bool) → List A → Type 0
  Distinct same [] = Unit {0}
  Distinct same (x ∷ xs) = (any (same x) xs ≡ false) × Distinct same xs

  any-keep : (p q : A → Bool) (xs : List A) → any p xs ≡ false → any p (keep q xs) ≡ false
  any-keep p q [] h = refl
  any-keep p q (x ∷ xs) h = ground (arith, any-keep p q xs)

  pub Distinct-keep :
      (same : A → A → Bool) (q : A → Bool) (xs : List A)
      → Distinct same xs
      → Distinct same (keep q xs)
  Distinct-keep same q [] h = tt
  Distinct-keep same q (x ∷ xs) (h, hs) = elim (Bool-cases (q x)) [
    | inl e ↦ rw e (any-keep (same x) q xs h, Distinct-keep same q xs hs)
    | inr e ↦ rw e (Distinct-keep same q xs hs)
  ]

  any-map :
      (p p' : A → Bool) (g : A → A) (xs : List A)
      → ((y : A) → p' (g y) ≡ p y)
      → any p' (map g xs) ≡ any p xs
  any-map p p' g [] h = refl
  any-map p p' g (x ∷ xs) h = rw (h x) (ground (arith, any-map p p' g xs h))

  -- A change of the entries that the test does not see.
  pub Distinct-map :
      (same : A → A → Bool) (g : A → A) (xs : List A)
      → ((x y : A) → same (g x) (g y) ≡ same x y)
      → Distinct same xs
      → Distinct same (map g xs)
  Distinct-map same g [] e h = tt
  Distinct-map same g (x ∷ xs) e (h, hs) =
      (any-map (same x) (same (g x)) g xs (e x) ∙ h, Distinct-map same g xs e hs)

  pub any-map_same :
      (p : A → Bool) (g : A → A) (xs : List A)
      → ((y : A) → p (g y) ≡ p y)
      → any p (map g xs) ≡ any p xs
  any-map_same p g xs h = any-map p p g xs h

  -- What a filter that lets `p` through does not take away.
  pub any-keep-true :
      (p q : A → Bool) (xs : List A)
      → ((x : A) → p x ≡ true → q x ≡ true)
      → any p xs ≡ true
      → any p (keep q xs) ≡ true
  any-keep-true p q [] h e = e
  any-keep-true p q (x ∷ xs) h e = elim (Bool-cases (p x)) [
    | inl d ↦ rw (h x d) (rw d refl)
    | inr d ↦ ground (arith, any-keep-true p q xs h)
  ]

  pub All-keep {κ μ} :
      (P : A → Type κ) (Q : A → Type μ) (q : A → Bool) (xs : List A)
      → ((x : A) → q x ≡ true → P x → Q x)
      → All P xs
      → All Q (keep q xs)
  All-keep P Q q [] f h = tt
  All-keep P Q q (x ∷ xs) f (p, h) = elim (Bool-cases (q x)) [
    | inl e ↦ rw e (f x e p, All-keep P Q q xs f h)
    | inr e ↦ rw e (All-keep P Q q xs f h)
  ]

  pub All-of_map {κ} :
      (P : A → Type κ) (g : A → A) (xs : List A)
      → ((x : A) → P x → P (g x))
      → All P xs
      → All P (map g xs)
  All-of_map P g [] f h = tt
  All-of_map P g (x ∷ xs) f (p, h) = (f x p, All-of_map P g xs f h)
