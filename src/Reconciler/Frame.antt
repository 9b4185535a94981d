-- ===== src/Reconciler/Frame.antt =====
-- internal/reconciler/tenant_reconciler.go: the objects that a reconciliation leaves alone, and the
-- finalizer.
use k8s_mtp.Common.{String, some, ◌≡◌, ◌≢◌, sym, arith, subst, ◌==◌, if◌then◌else◌}
use k8s_mtp.Resources.{Resources}
use k8s_mtp.Settings.{Config}
use k8s_mtp.Tenants.{Tenant, tier_free, tier_pro}
use k8s_mtp.Cluster.{
  ObjectKey, ResourceQuota, LimitRange, resource_quota_kind, key_of, resource_quota, limit_range,
  namespace_kind, role_kind, role_binding_kind, network_policy_kind, limit_range_kind,
}
use k8s_mtp.Reconciler.Build.{tenant_namespace, object_meta, role_name}
use k8s_mtp.Reconciler.Limits.{build_resource_quota, build_limit_range}
use k8s_mtp.Reconciler.Converge.{SameTenant, like, SameTenant-like}

-- The name of the quota of the tenant's tier.
abbrev pub quota_name : Tenant → String
quota_name t =
    if t.spec.tier == tier_free
    then "tenant-quota-free"
    else if t.spec.tier == tier_pro
    then "tenant-quota-pro"
    else "tenant-quota-enterprise"

-- The key is that of none of the tenant's objects.
pub record IsForeign (t : Tenant) (j : ObjectKey) : Type 0 where
  pub no_namespace : j ≢ record { kind = namespace_kind; namespace = ""; name = tenant_namespace t }
  pub no_quota :
      j ≢ record { kind = resource_quota_kind; namespace = tenant_namespace t; name = quota_name t }
  pub no_admin_role :
      j ≢ record { kind = role_kind; namespace = tenant_namespace t; name = role_name t "-admin" }
  pub no_operator_role :
      j
      ≢ record { kind = role_kind; namespace = tenant_namespace t; name = role_name t "-operator" }
  pub no_admin_binding : j ≢ record {
    kind = role_binding_kind;
    namespace = tenant_namespace t;
    name = role_name t "-admin-binding";
  }
  pub no_operator_binding : j ≢ record {
    kind = role_binding_kind;
    namespace = tenant_namespace t;
    name = role_name t "-operator-binding";
  }
  pub no_network_policy : j ≢ record {
    kind = network_policy_kind;
    namespace = tenant_namespace t;
    name = "tenant-isolation";
  }
  pub no_limit_range :
      j
      ≢ record { kind = limit_range_kind; namespace = tenant_namespace t; name = "tenant-defaults" }

pub IsForeign-like : (u t : Tenant) (j : ObjectKey) → SameTenant u t → IsForeign t j → IsForeign u j
unfolding tenant_namespace
IsForeign-like u t j same f =
    subst (λ x. IsForeign x j) (sym (SameTenant-like u t same)) like_foreign
  where
    like_foreign : IsForeign (like u t) j
    like_foreign = record {
      no_namespace = f.no_namespace;
      no_quota = f.no_quota;
      no_admin_role = f.no_admin_role;
      no_operator_role = f.no_operator_role;
      no_admin_binding = f.no_admin_binding;
      no_operator_binding = f.no_operator_binding;
      no_network_policy = f.no_network_policy;
      no_limit_range = f.no_limit_range;
    }

module _ (k : Resources) where
  pub quota-key :
      (t : Tenant) (q : ResourceQuota (k.Quantity))
      → build_resource_quota k t ≡ some (some q)
      → key_of {Q = k.Quantity} (resource_quota q)
        ≡ record { kind = resource_quota_kind; namespace = tenant_namespace t; name = quota_name t }
  unfolding build_resource_quota object_meta
  quota-key t q e = ground arith

  pub limits-key :
      (cfg : Config) (t : Tenant) (l : LimitRange (k.Quantity))
      → build_limit_range k cfg t ≡ some l
      → key_of {Q = k.Quantity} (limit_range l) ≡ record {
        kind = limit_range_kind;
        namespace = tenant_namespace t;
        name = "tenant-defaults";
      }
  unfolding build_limit_range object_meta
  limits-key cfg t l e = ground arith
