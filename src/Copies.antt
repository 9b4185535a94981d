-- ===== src/Copies.antt =====
-- pkg/api/v1/types.go: the deep copies. A slice is nil, `none`, or the address of the array that it is for, which
-- is an index into the memory of the element's type; in this file a slice is for a whole array. A pointer
-- to a struct is nil, `none`, or the struct, which is copied when it is assigned.
pub mod Shared
pub mod Separate
use k8s_mtp.Common.{
  ℕ, zero, suc, ◌<◌, String, Option, none, some, List, [], ◌∷◌, ◌++◌, length, get_elem?,
}

-- What the copies call of apimachinery: the copies of its types, which work on a memory of their own.
pub record Apimachinery : Type 1 where
  pub Objects : Type 0
  pub TypeMeta : Type 0
  pub ObjectMeta : Type 0
  pub ListMeta : Type 0
  pub Condition : Type 0
  pub copy_object_meta : ObjectMeta → Objects → ObjectMeta × Objects
  pub copy_list_meta : ListMeta → Objects → ListMeta × Objects
  pub copy_condition : Condition → Objects → Condition × Objects

pub record TenantSpec : Type 0 where
  pub name : String
  pub tier : String
  pub owner_email : String
  pub admins : Option ℕ
  pub operators : Option ℕ

pub record TenantStatus : Type 0 where
  pub phase : String
  pub namespace : String
  pub conditions : Option ℕ

-- The array at an address, and an array whose element at an index was written; an index out of the range
-- changes nothing.
module _ {ℓ} {A : Type ℓ} where
  abbrev pub array : List (List A) → Option ℕ → List A
  array arrays none = []
  array arrays (some a) = elim (get_elem? arrays a) [ none ↦ [] | some xs ↦ xs ]

  abbrev pub set_elem : List A → ℕ → A → List A
  set_elem [] i y = []
  set_elem (x ∷ xs) zero y = y ∷ xs
  set_elem (x ∷ xs) (suc i) y = x ∷ set_elem xs i y

  -- An array more, and the slice for it: `make`, filled.
  abbrev pub allocate : List A → List (List A) → Option ℕ × List (List A)
  allocate xs arrays = (some (length arrays), arrays ++ (xs ∷ []))

  -- A loop that copies the elements one after the other.
  abbrev pub copy_each : {S : Type 0} → (A → S → A × S) → List A → S → List A × S
  copy_each copy [] s = ([], s)
  copy_each copy (x ∷ xs) s =
      let (y, s') = copy x s in let (ys, s'') = copy_each copy xs s' in (y ∷ ys, s'')

-- The assignment `slice[i] = y`.
module _ {ℓ} {A : Type ℓ} where
  abbrev pub write : List (List A) → Option ℕ → ℕ → A → List (List A)
  write arrays none i y = arrays
  write arrays (some a) i y = set_elem arrays a (set_elem (array arrays (some a)) i y)

  -- The slice is nil or has an array.
  abbrev pub IsHeld : List (List A) → Option ℕ → Type 0
  IsHeld arrays none = Unit
  IsHeld arrays (some a) = a < length arrays

module _ (lib : Apimachinery) where
  open lib use {Objects, TypeMeta, ObjectMeta, ListMeta, Condition}

  pub record Tenant : Type 0 where
    pub type_meta : TypeMeta
    pub object_meta : ObjectMeta
    pub spec : TenantSpec
    pub status : TenantStatus

  pub record TenantList : Type 0 where
    pub type_meta : TypeMeta
    pub list_meta : ListMeta
    pub items : Option ℕ

  pub record Memory : Type 0 where
    pub strings : List (List String)
    pub conditions : List (List Condition)
    pub tenants : List (List Tenant)
    pub objects : Objects

  -- `make` and `copy` where the slice is not nil.
  abbrev pub copy_strings : Option ℕ → Memory → Option ℕ × Memory
  copy_strings none m = (none, m)
  copy_strings (some a) m =
      let (slice, strings) = allocate (array m.strings (some a)) m.strings in
      (slice, record m { strings = strings })

  unfoldable pub spec_copy_into : TenantSpec → Memory → TenantSpec × Memory
  spec_copy_into spec m =
      let (admins, m1) = copy_strings spec.admins m in
      let (operators, m2) = copy_strings spec.operators m1 in
      (record spec { admins = admins; operators = operators }, m2)

  unfoldable pub spec_copy : Option TenantSpec → Memory → Option TenantSpec × Memory
  unfolding spec_copy_into
  spec_copy none m = (none, m)
  spec_copy (some spec) m = let (out, m') = spec_copy_into spec m in (some out, m')

  abbrev pub copy_conditions : Option ℕ → Memory → Option ℕ × Memory
  copy_conditions none m = (none, m)
  copy_conditions (some a) m =
      let (copies, objects) =
        copy_each lib.copy_condition (array m.conditions (some a)) m.objects in
      let (slice, conditions) = allocate copies m.conditions in
      (slice, record m { conditions = conditions; objects = objects })

  unfoldable pub status_copy_into : TenantStatus → Memory → TenantStatus × Memory
  status_copy_into status m =
      let (conditions, m') = copy_conditions status.conditions m in
      (record status { conditions = conditions }, m')

  unfoldable pub status_copy : Option TenantStatus → Memory → Option TenantStatus × Memory
  unfolding status_copy_into
  status_copy none m = (none, m)
  status_copy (some status) m = let (out, m') = status_copy_into status m in (some out, m')

  -- The specification is assigned and not copied.
  unfoldable pub tenant_copy_into : Tenant → Memory → Tenant × Memory
  unfolding status_copy_into
  tenant_copy_into t m =
      let (meta, objects) = lib.copy_object_meta t.object_meta m.objects in
      let (status, m') = status_copy_into t.status (record m { objects = objects }) in
      (record t { object_meta = meta; status = status }, m')

  unfoldable pub tenant_copy : Option Tenant → Memory → Option Tenant × Memory
  unfolding tenant_copy_into
  tenant_copy none m = (none, m)
  tenant_copy (some t) m = let (out, m') = tenant_copy_into t m in (some out, m')

  abbrev pub copy_items : Option ℕ → Memory → Option ℕ × Memory
  copy_items none m = (none, m)
  copy_items (some a) m =
      let (copies, m') = copy_each tenant_copy_into (array m.tenants (some a)) m in
      let (slice, tenants) = allocate copies m'.tenants in (slice, record m' { tenants = tenants })

  unfoldable pub list_copy_into : TenantList → Memory → TenantList × Memory
  unfolding tenant_copy_into
  list_copy_into l m =
      let (meta, objects) = lib.copy_list_meta l.list_meta m.objects in
      let (items, m') = copy_items l.items (record m { objects = objects }) in
      (record l { list_meta = meta; items = items }, m')

  unfoldable pub list_copy : Option TenantList → Memory → Option TenantList × Memory
  unfolding list_copy_into
  list_copy none m = (none, m)
  list_copy (some l) m = let (out, m') = list_copy_into l m in (some out, m')
