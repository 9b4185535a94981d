-- ===== src/Copies/Shared.antt =====
-- pkg/api/v1/types.go: the arrays that a tenant and its copy share.
use k8s_mtp.Common.{
  if◌then◌else◌, Bool, Option, ℕ, zero, suc, ◌<◌, ◌≡◌, refl, String, Option, none, some, List, [],
  ◌∷◌, length, get_elem?, arith,
}
use k8s_mtp.Copies.{
  TenantSpec, Apimachinery, Tenant, TenantStatus, Memory, array, set_elem, write, copy_conditions,
  status_copy_into, tenant_copy_into,
}

module _ {ℓ} {A : Type ℓ} where
  get_elem?-set_elem :
      (xs : List A) (i : ℕ) (y : A) → i < length xs → get_elem? (set_elem xs i y) i ≡ some y
  get_elem?-set_elem [] i y h = absurd (omega (arith, h))
  get_elem?-set_elem (x ∷ xs) zero y h = refl
  get_elem?-set_elem (x ∷ xs) (suc i) y h = get_elem?-set_elem xs i y (omega (arith, h))

  array-set_elem :
      (arrays : List (List A)) (a i : ℕ) (ys : List A)
      → i < length (array arrays (some a))
      → array (set_elem arrays a ys) (some a) ≡ ys
  array-set_elem [] a i ys h = absurd (omega (arith, h))
  array-set_elem (xs ∷ arrays) zero i ys h = refl
  array-set_elem (xs ∷ arrays) (suc a) i ys h = array-set_elem arrays a i ys h

  -- What was written is read, where the index is in the range.
  array-write :
      (arrays : List (List A)) (slice : Option ℕ) (i : ℕ) (y : A)
      → i < length (array arrays slice)
      → get_elem? (array (write arrays slice i y) slice) i ≡ some y
  array-write arrays none i y h = absurd (omega (arith, h))
  array-write arrays (some a) i y h =
      rw (array-set_elem arrays a i (set_elem (array arrays (some a)) i y) h)
        (get_elem?-set_elem (array arrays (some a)) i y h)

-- The slice of the admins, or that of the operators.
abbrev pub slice_of : Bool → TenantSpec → Option ℕ
slice_of of_admins spec = if of_admins then spec.admins else spec.operators

module _ (lib : Apimachinery) where
  status_copy_into-strings :
      (status : TenantStatus) (m : Memory lib)
      → (status_copy_into lib status m).1.strings ≡ m.strings
  unfolding status_copy_into
  status_copy_into-strings status m = go status.conditions
    where
      go : (slice : Option ℕ) → (copy_conditions lib slice m).1.strings ≡ m.strings
      go none = refl
      go (some a) = refl

  tenant_copy_into-strings :
      (t : Tenant lib) (m : Memory lib) → (tenant_copy_into lib t m).1.strings ≡ m.strings
  unfolding tenant_copy_into
  tenant_copy_into-strings t m = status_copy_into-strings t.status _

  tenant_copy_into-spec :
      (t : Tenant lib) (m : Memory lib) → (tenant_copy_into lib t m).0.spec ≡ t.spec
  unfolding tenant_copy_into
  tenant_copy_into-spec t m = refl

  -- A text that is written through a slice of a tenant's copy, that of the admins or that of the operators, at
  -- an index in its range, is read through the same slice of the tenant.
  pub tenant_copy_into_shared :
      (t : Tenant lib) (m : Memory lib) (of_admins : Bool) (i : ℕ) (s : String)
      → i < length (array m.strings (slice_of of_admins t.spec))
      → let (c, m') = tenant_copy_into lib t m in
        get_elem?
          (array (write m'.strings (slice_of of_admins c.spec) i s) (slice_of of_admins t.spec))
          i
        ≡ some s
  tenant_copy_into_shared t m of_admins i s h =
      rw (tenant_copy_into-strings t m, tenant_copy_into-spec t m)
        (array-write m.strings (slice_of of_admins t.spec) i s h)
