-- ===== src/Store/Found.antt =====
-- What is found in the tables of internal/store after a change of the rows.
use k8s_mtp.Common.{
  ℕ, String, Bool, true, false, none, some, List, [], ◌∷◌, map, ◌≡◌, ap, refl, arith, ◌==◌, eq_iff,
  if◌then◌else◌, keep, find, Bool-cases, inl, inr,
}
use k8s_mtp.Tenants.{Tenant}
use k8s_mtp.Store.{TenantRow, live_with_id, set_row, scanned_row}
use k8s_mtp.Store.Catalog.{after_edit}

module _ {A : Type 0} where
  pub find-keep-none :
      (p q : A → Bool) (xs : List A)
      → ((x : A) → p x ≡ true → q x ≡ false)
      → find p (keep q xs) ≡ none
  find-keep-none p q [] h = refl
  find-keep-none p q (x ∷ xs) h = elim (Bool-cases (p x)) [
    | inl e ↦ rw (h x e) (find-keep-none p q xs h)
    | inr e ↦ elim (Bool-cases (q x)) [
      | inl f ↦ rw f (rw e (find-keep-none p q xs h))
      | inr f ↦ rw f (find-keep-none p q xs h)
    ]
  ]

  pub find-keep :
      (p q : A → Bool) (xs : List A)
      → ((x : A) → p x ≡ true → q x ≡ true)
      → find p (keep q xs) ≡ find p xs
  find-keep p q [] h = refl
  find-keep p q (x ∷ xs) h = elim (Bool-cases (p x)) [
    | inl e ↦ rw (h x e) (rw e refl)
    | inr e ↦ elim (Bool-cases (q x)) [
      | inl f ↦ rw f (rw e (find-keep p q xs h))
      | inr f ↦ rw (f, e) (find-keep p q xs h)
    ]
  ]

  pub find-map :
      (p : A → Bool) (f : A → A) (xs : List A)
      → ((x : A) → p (f x) ≡ p x)
      → ((x : A) → p x ≡ true → f x ≡ x)
      → find p (map f xs) ≡ find p xs
  find-map p f [] h k = refl
  find-map p f (x ∷ xs) h k = elim (Bool-cases (p x)) [
    | inl e ↦ rw (h x) (rw e (ap some (k x e)))
    | inr e ↦ rw (h x) (rw e (find-map p f xs h k))
  ]

-- Another id's row does not see a change of the rows with an id.
pub find-set_row_other :
    (id i : String) (f : TenantRow → TenantRow) (rows : List TenantRow)
    → ((r : TenantRow) → (f r).id ≡ r.id)
    → (id == i) ≡ false
    → find (live_with_id i) (set_row (live_with_id id) f rows) ≡ find (live_with_id i) rows
find-set_row_other id i f rows h e = find-map (live_with_id i) _ rows same kept
  where
    apart : (r : TenantRow) → live_with_id id r ≡ true → (r.id == i) ≡ false
    apart r g = ground (arith, g, e, eq_iff r.id id, eq_iff id i, eq_iff r.id i)

    same :
        (r : TenantRow) → live_with_id i (if live_with_id id r then f r else r) ≡ live_with_id i r
    same r = elim (Bool-cases (live_with_id id r)) [
      | inl g ↦ rw g (rw (h r) (rw (apart r g) refl))
      | inr g ↦ rw g refl
    ]

    kept : (r : TenantRow) → live_with_id i r ≡ true → (if live_with_id id r then f r else r) ≡ r
    kept r k = elim (Bool-cases (live_with_id id r)) [
      | inl g ↦ absurd (ground (arith, k, apart r g))
      | inr g ↦ rw g refl
    ]

pub find-set_row-after_edit :
    (t : Tenant) (id : String) (now : ℕ) (rows : List TenantRow)
    → scanned_row (
        find (live_with_id id) (
          set_row
            (live_with_id id)
            (λ r. record r {
              tier = t.spec.tier;
              owner_email = t.spec.owner_email;
              updated_at = now;
            })
            rows))
      ≡ after_edit t (scanned_row (find (live_with_id id) rows))
find-set_row-after_edit t id now [] = refl
find-set_row-after_edit t id now (r ∷ rows) = elim (Bool-cases (live_with_id id r)) [
  | inl e ↦ rw e (rw e refl)
  | inr e ↦ rw e (rw e (find-set_row-after_edit t id now rows))
]
