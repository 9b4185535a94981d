-- ===== src/Reconciler/Unnoticed.antt =====
-- internal/reconciler/tenant_reconciler.go: changes that the comparisons do not see, and objects that
-- an earlier tier of the tenant leaves behind.
use k8s_mtp.Common.{
  String, Bool, true, List, [], ◌∷◌, map, ◌≡◌, ◌≢◌, ◌↔◌, refl, ap, arith, ◌==◌, eq_iff, length,
  Bool-cases, inl, inr,
}
use k8s_mtp.Resources.{Resources}
use k8s_mtp.Settings.{Config}
use k8s_mtp.Tenants.{Tenant, tier_free}
use k8s_mtp.Cluster.{Role, PolicyRule, ObjectKey, resource_quota_kind}
use k8s_mtp.Store.{Postgres}
use k8s_mtp.Reconciler.Build.{tenant_namespace}
use k8s_mtp.Reconciler.Limits.{build_network_policy, egress_rules, ingress_rules}
use k8s_mtp.Reconciler.Diff.{np_needs_update, normalize_rule, role_needs_update}
use k8s_mtp.Reconciler.Kube.{Client, IsKept}
use k8s_mtp.Reconciler.Rules.{State}
use k8s_mtp.Reconciler.Frame.{IsForeign, quota_name}
use k8s_mtp.Reconciler.Untouched.{reconcile_tenant-stored}
use k8s_mtp.Reconciler.{reconcile_tenant}

abbrev pub allows_internet : Config → Bool
allows_internet cfg = cfg.tenant_egress_policy == "internet"

-- A network policy that was built from one configuration is replaced by that of another exactly when
-- one of them Allows the internet and the other does not: a new label for the platform's access, or
-- any other text for the egress policy, is not noticed.
pub np_needs_update_iff :
    (old new : Config) (t : Tenant)
    → (np_needs_update (build_network_policy old t) (build_network_policy new t) ≡ true)
      ↔ (allows_internet old ≢ allows_internet new)
unfolding np_needs_update build_network_policy egress_rules ingress_rules
np_needs_update_iff old new t = elim (Bool-cases (allows_internet old)) [
  | inl e ↦ elim (Bool-cases (allows_internet new)) [
    | inl f ↦ (λ h. ground arith, λ h. ground (arith, h))
    | inr f ↦ (λ h. ground arith, λ h. ground arith)
  ]
  | inr e ↦ elim (Bool-cases (allows_internet new)) [
    | inl f ↦ (λ h. ground arith, λ h. ground arith)
    | inr f ↦ (λ h. ground arith, λ h. ground (arith, h))
  ]
]

-- The rules with other resource names.
abbrev pub renamed : (PolicyRule → List String) → List PolicyRule → List PolicyRule
renamed names = map {A = PolicyRule} (λ r. record r { resource_names = names r })

normalize_rule-renamed :
    (names : PolicyRule → List String) (rules : List PolicyRule)
    → map normalize_rule (renamed names rules) ≡ map normalize_rule rules
unfolding normalize_rule
normalize_rule-renamed names [] = refl
normalize_rule-renamed names (r ∷ rules) =
    ap (◌∷◌ (normalize_rule r)) (normalize_rule-renamed names rules)

length-renamed :
    (names : PolicyRule → List String) (rules : List PolicyRule)
    → length (renamed names rules) ≡ length rules
length-renamed names [] = refl
length-renamed names (r ∷ rules) = omega (arith, length-renamed names rules)

-- The resource names of the desired rules make no difference to whether a role is updated.
pub role_needs_update-renamed :
    (current desired : Role) (names : PolicyRule → List String)
    → role_needs_update current (record desired { rules = renamed names desired.rules })
      ≡ role_needs_update current desired
unfolding role_needs_update
role_needs_update-renamed current desired names =
    rw (normalize_rule-renamed names desired.rules, length-renamed names desired.rules) refl

abbrev pub free_quota : Tenant → ObjectKey
free_quota t = record {
  kind = resource_quota_kind;
  namespace = tenant_namespace t;
  name = "tenant-quota-free";
}

free_quota-IsForeign : (t : Tenant) → t.spec.tier ≢ tier_free → IsForeign t (free_quota t)
free_quota-IsForeign t h = record {
  no_namespace = λ e. ground arith;
  no_quota = λ e. other_name (ap (λ (j : ObjectKey). j.name) e);
  no_admin_role = λ e. ground arith;
  no_operator_role = λ e. ground arith;
  no_admin_binding = λ e. ground arith;
  no_operator_binding = λ e. ground arith;
  no_network_policy = λ e. ground arith;
  no_limit_range = λ e. ground arith;
}
  where
    other_name : "tenant-quota-free" ≢ quota_name t
    other_name e = ground (
      arith,
      e,
      eq_iff t.spec.tier tier_free,
      eq_iff "tenant-quota-free" "tenant-quota-pro",
      eq_iff "tenant-quota-free" "tenant-quota-enterprise",
    )

-- The quota of the free tier stays in the namespace of a tenant that has gone to another tier,
-- however the reconciliation ends, while nobody else writes.
pub reconcile_tenant-free_quota :
    (k : Resources) (c : Client k) (pg : Postgres) (cfg : Config) (kept : IsKept k c) (t : Tenant)
    (s : State k c pg cfg kept)
    → t.spec.tier ≢ tier_free
    → kept.stored (reconcile_tenant k c pg cfg t s).1.0 (free_quota t)
      ≡ kept.stored s.0 (free_quota t)
reconcile_tenant-free_quota k c pg cfg kept t s h =
    reconcile_tenant-stored k c pg cfg kept (free_quota t) t s (free_quota-IsForeign t h)
