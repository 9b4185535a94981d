-- ===== src/Tests/Tenants.antt =====
-- A concrete tenant.
use k8s_mtp.Common.{[], ◌∷◌, none}
use k8s_mtp.Tenants.{Tenant, tier_pro}
use k8s_mtp.Reconciler.{tenant_finalizer}

abbrev pub acme : Tenant
acme = record {
  name = "acme";
  uid = "id-1";
  finalizers = tenant_finalizer ∷ [];
  creation_timestamp = none;
  deletion_timestamp = none;
  spec = record {
    name = "shop";
    tier = tier_pro;
    owner_email = "a@b";
    admins = "ann" ∷ [];
    operators = "bob" ∷ [];
  };
  status = record { phase = ""; namespace = "" };
}
