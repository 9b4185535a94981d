-- ===== src/Tests/Copied.antt =====
-- pkg/api/v1/types.go with concrete libraries.
use k8s_mtp.Common.{ℕ, suc, String, true, none, some, [], ◌∷◌, ◌≡◌, refl, get_elem?, arith}
use k8s_mtp.Copies.{
  Apimachinery, TenantSpec, Tenant, Memory, array, write, spec_copy_into, tenant_copy_into,
}
use k8s_mtp.Copies.Shared.{tenant_copy_into_shared}
use k8s_mtp.Copies.Separate.{spec_copy_into_separate}

-- Values that hold no pointers, and a memory that counts the copies.
abbrev library : Apimachinery
library = record {
  Objects = ℕ;
  TypeMeta = String;
  ObjectMeta = String;
  ListMeta = String;
  Condition = String;
  copy_object_meta = λ x n. (x, suc n);
  copy_list_meta = λ x n. (x, suc n);
  copy_condition = λ x n. (x, suc n);
}

abbrev shop_spec : TenantSpec
shop_spec = record {
  name = "shop";
  tier = "pro";
  owner_email = "ann@example.com";
  admins = some 0;
  operators = none;
}

abbrev shop : Tenant library
shop = record {
  type_meta = "Tenant";
  object_meta = "shop";
  spec = shop_spec;
  status = record { phase = ""; namespace = ""; conditions = some 0 };
}

abbrev memory : Memory library
memory = record {
  strings = ("ann" ∷ "bob" ∷ []) ∷ [];
  conditions = ("Ready" ∷ []) ∷ [];
  tenants = [];
  objects = 0;
}

-- The administrator at 1 is written through the copy and read through the tenant.
shared :
    get_elem?
      (array
        (write
          (tenant_copy_into library shop memory).1.strings
          (tenant_copy_into library shop memory).0.spec.admins
          1
          "eve")
        shop.spec.admins)
      1
    ≡ some "eve"
unfolding tenant_copy_into
shared = refl

tenant_copy_into_shared_example :
    get_elem?
      (array
        (write
          (tenant_copy_into library shop memory).1.strings
          (tenant_copy_into library shop memory).0.spec.admins
          1
          "eve")
        (some 0))
      1
    ≡ some "eve"
tenant_copy_into_shared_example =
    tenant_copy_into_shared library shop memory true 1 "eve" (omega arith)

spec_copy_into_separate_example :
    let (c, m') = spec_copy_into library shop_spec memory in
    (array m'.strings c.admins ≡ "ann" ∷ "bob" ∷ [])
    × (array m'.strings c.operators ≡ [])
    × (array (write m'.strings c.admins 1 "eve") (some 0) ≡ "ann" ∷ "bob" ∷ [])
    × (array (write m'.strings c.operators 1 "eve") (some 0) ≡ "ann" ∷ "bob" ∷ [])
spec_copy_into_separate_example =
    spec_copy_into_separate library shop_spec memory (some 0) 1 "eve" (omega arith) tt (omega arith)
