-- ===== src/Tests/Reconciles.antt =====
-- internal/reconciler on a concrete tenant and cluster.
use k8s_mtp.Common.{
  All, ℕ, true, false, none, some, [], ◌∷◌, ◌≡◌, ◌≢◌, ◌↔◌, ap, refl, arith, eq_iff, lookup,
}
use k8s_mtp.Settings.{Config}
use k8s_mtp.Common.Int.{pos}
use k8s_mtp.Tenants.{Tenant, tier_free}
use k8s_mtp.Cluster.{ObjectKey, ResourceQuota, LimitRange, Namespace, resource_quota_kind}
use k8s_mtp.Store.{Database, Result, exec, get_tenant_by_id, create_tenant, insert_tenant}
use k8s_mtp.Reconciler.Build.{
  tenant_namespace, object_meta, owner_reference, build_namespace, build_admin_role,
  build_operator_role, build_admin_role_binding, build_operator_role_binding,
}
use k8s_mtp.Reconciler.Limits.{
  quota_of, limits_of, tier_defaults, build_quota, build_pro_tier, build_resource_quota,
  build_limit_range, build_network_policy,
}
use k8s_mtp.Reconciler.Diff.{np_needs_update, role_needs_update, ns_needs_update}
use k8s_mtp.Reconciler.Rules.{State}
use k8s_mtp.Reconciler.Written.{AllHold}
use k8s_mtp.Reconciler.Converge.{tenant_objects}
use k8s_mtp.Reconciler.Tenants.{reconcile_create_or_update-AllHold}
use k8s_mtp.Reconciler.Returns.{reconcile_create_or_update-finished}
use k8s_mtp.Reconciler.Stable.{IsStable}
use k8s_mtp.Reconciler.Settled.{tenant_objects-IsStable, ns_needs_update-build_namespace_iff}
use k8s_mtp.Reconciler.Unnoticed.{
  allows_internet, np_needs_update_iff, renamed, role_needs_update-renamed, free_quota,
  reconcile_tenant-free_quota,
}
use k8s_mtp.Reconciler.Untouched.{reconcile_tenant-stored}
use k8s_mtp.Reconciler.Frame.{IsForeign, quota_name}
use k8s_mtp.Reconciler.{
  returned, finished, ◌>>=◌, write_over, update_existing, create_or_update, create_or_update_quota,
  reconcile_isolation, reconcile_objects, reconcile_create_or_update, reconcile_tenant,
  store_tenant,
}
use k8s_mtp.Store.Columns.{varchar}
use k8s_mtp.Tests.{resources, postgres, client, client-IsKept, client-Accepts}
use k8s_mtp.Tests.Tenants.{acme}

abbrev pub config : Config
config = record {
  listen_addr = ":8080";
  db_url = "db";
  log_level = "info";
  log_format = "text";
  db_max_open_conns = pos 25;
  db_max_idle_conns = pos 5;
  db_conn_max_lifetime = "5m";
  tenant_egress_policy = "restricted";
  platform_access_label = "platform-access";
  limit_range_defaults = record {
    free = record { default_cpu = "100m"; default_memory = "128Mi" };
    pro = record { default_cpu = "500m"; default_memory = "1Gi" };
    enterprise = record { default_cpu = "4"; default_memory = "8Gi" };
  };
  webhook_image = "";
  dex_issuer_url = "";
  dex_client_id = "";
  auth_enabled = false;
  rate_requests_per_minute = pos 60;
  rate_burst = pos 10;
}

abbrev empty : Database
empty = record { tenants = []; members = []; statements = 0 }

abbrev quota : ResourceQuota ℕ
quota = quota_of "tenant-quota-pro" acme 4000 8192 100000 102400

abbrev limits : LimitRange ℕ
limits = limits_of acme 500 1024

abbrev bare : State resources (client acme) postgres config (client-IsKept acme)
bare = (λ j. none, empty)

acme-quota : build_resource_quota resources acme ≡ some (some quota)
unfolding build_resource_quota build_pro_tier build_quota lookup
acme-quota = refl

acme_limits : build_limit_range resources config acme ≡ some limits
unfolding build_limit_range tier_defaults lookup
acme_limits = refl

acme_reconciled :
    (reconcile_create_or_update resources (client acme) postgres config acme bare).0
    ≡ returned finished
unfolding reconcile_create_or_update reconcile_objects reconcile_isolation create_or_update
    create_or_update_quota update_existing write_over ◌>>=◌ get_tenant_by_id create_tenant
    insert_tenant varchar exec build_resource_quota build_pro_tier build_quota lookup
    build_limit_range tier_defaults build_namespace build_admin_role build_operator_role
    build_admin_role_binding build_operator_role_binding build_network_policy object_meta
    tenant_namespace
acme_reconciled = refl

nat_eq_refl : (q : ℕ) → resources.equal q q ≡ true
nat_eq_refl q = ground arith

reconcile_create_or_update-AllHold_example :
    AllHold resources
      (client acme)
      postgres
      config
      (client-IsKept acme)
      (tenant_objects resources config acme quota limits)
      (reconcile_create_or_update resources (client acme) postgres config acme bare).1.0
reconcile_create_or_update-AllHold_example =
    reconcile_create_or_update-AllHold resources (client acme) postgres config (client-IsKept acme)
      acme quota limits bare finished acme-quota acme_limits acme_reconciled

abbrev stored_acme : Tenant
stored_acme = record acme { creation_timestamp = some 1 }

acme_unknown : (get_tenant_by_id postgres acme.uid empty).0 ≡ Result.ok none
unfolding get_tenant_by_id exec
acme_unknown = refl

acme_stored :
    (store_tenant resources
      (client acme)
      postgres
      config
      acme
      none
      (bare.0, (get_tenant_by_id postgres acme.uid empty).1)).0
    ≡ returned stored_acme
unfolding get_tenant_by_id create_tenant insert_tenant varchar exec
acme_stored = refl

reconcile_create_or_update-finished_example :
    (reconcile_create_or_update resources (client acme) postgres config acme bare).0
    ≡ returned finished
reconcile_create_or_update-finished_example =
    reconcile_create_or_update-finished resources (client acme) postgres config (client-IsKept acme)
      (client-Accepts acme) acme stored_acme none quota limits bare acme_unknown acme_stored
      acme-quota acme_limits

tenant_objects-IsStable_example :
    All (IsStable resources) (tenant_objects resources config acme quota limits)
tenant_objects-IsStable_example =
    tenant_objects-IsStable resources config acme quota limits nat_eq_refl acme-quota acme_limits

abbrev labelled_namespace : Namespace
labelled_namespace = record {
  meta = record ((build_namespace acme).meta) {
    labels =
        ("kubernetes.io/metadata.name", "tenant-acme-shop")
        ∷ ("tenant.k8s-mtp.io/managed", "true")
        ∷ [];
  };
}

ns_needs_update-build_namespace_iff_example :
    (ns_needs_update labelled_namespace (build_namespace acme) ≡ false) ↔ (
      (labelled_namespace.meta.annotations ≡ [])
      × (labelled_namespace.meta.owner_references ≡ owner_reference acme ∷ [])
      × (labelled_namespace.meta.labels ≡ ("tenant.k8s-mtp.io/managed", "true") ∷ []))
ns_needs_update-build_namespace_iff_example =
    ns_needs_update-build_namespace_iff labelled_namespace acme

acme-not_free : acme.spec.tier ≢ tier_free
acme-not_free e = ground (arith, e, eq_iff "pro" "free")

reconcile_tenant-free_quota_example :
    (reconcile_tenant resources (client acme) postgres config acme bare).1.0 (free_quota acme)
    ≡ none
unfolding client-IsKept
reconcile_tenant-free_quota_example =
    reconcile_tenant-free_quota resources (client acme) postgres config (client-IsKept acme) acme
      bare acme-not_free

abbrev elsewhere : ObjectKey
elsewhere = record { kind = resource_quota_kind; namespace = "default"; name = "own" }

elsewhere-IsForeign : IsForeign acme elsewhere
elsewhere-IsForeign = record {
  no_namespace = λ e. ground arith;
  no_quota = λ e. other_name (ap (λ (j : ObjectKey). j.name) e);
  no_admin_role = λ e. ground arith;
  no_operator_role = λ e. ground arith;
  no_admin_binding = λ e. ground arith;
  no_operator_binding = λ e. ground arith;
  no_network_policy = λ e. ground arith;
  no_limit_range = λ e. ground arith;
}
  where
    other_name : elsewhere.name ≢ quota_name acme
    other_name e = ground (arith, e, eq_iff "own" "tenant-quota-pro")

reconcile_tenant-stored_example :
    (reconcile_tenant resources (client acme) postgres config acme bare).1.0 elsewhere ≡ none
unfolding client-IsKept
reconcile_tenant-stored_example =
    reconcile_tenant-stored resources (client acme) postgres config (client-IsKept acme) elsewhere
      acme bare elsewhere-IsForeign

abbrev open_config : Config
open_config = record config { tenant_egress_policy = "internet" }

np_needs_update_iff_example :
    (np_needs_update (build_network_policy config acme) (build_network_policy open_config acme)
      ≡ true)
    ↔ (allows_internet config ≢ allows_internet open_config)
np_needs_update_iff_example = np_needs_update_iff config open_config acme

role_needs_update-renamed_example :
    role_needs_update (build_admin_role acme) (record (build_admin_role acme) {
      rules = renamed (λ r. "one" ∷ []) (build_admin_role acme).rules;
    })
    ≡ role_needs_update (build_admin_role acme) (build_admin_role acme)
role_needs_update-renamed_example =
    role_needs_update-renamed (build_admin_role acme) (build_admin_role acme) (λ r. "one" ∷ [])
