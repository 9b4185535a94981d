-- ===== src/Reconciler/Stable.antt =====
-- internal/reconciler/tenant_reconciler.go: an object that was written as it was built needs no update.
use k8s_mtp.Common.{
  Bool-cases, subst, Option-cases, inl, inr, All, All-map, any, map, String, true, false, not, List,
  [], ◌∷◌, some, ◌≡◌, refl, arith, eq_refl, ◌==◌,
}
use k8s_mtp.Resources.{Resources}
use k8s_mtp.Tenants.{Tenant, tier_free, tier_pro, tier_enterprise}
use k8s_mtp.Settings.{Config}
use k8s_mtp.Cluster.{
  OwnerReference, PolicyRule, ResourceQuota, LimitRange, Object, namespace, resource_quota, role,
  role_binding, network_policy, limit_range, with_version,
}
use k8s_mtp.Reconciler.Build.{
  build_namespace, build_admin_role, build_operator_role, build_admin_role_binding,
  build_operator_role_binding, object_meta, owner_reference,
}
use k8s_mtp.Reconciler.Limits.{
  build_resource_quota, build_quota, quota_of, limits_of, tier_defaults, build_network_policy,
  build_limit_range,
}
use k8s_mtp.Reconciler.Diff.{
  needs_update, texts_differ, owners_differ, has_key, normalize_rule, ns_needs_update,
  np_needs_update, role_needs_update, rb_needs_update, rq_needs_update, lr_needs_update,
  amounts_differ,
}

owners_differ_self : (o : OwnerReference) → owners_differ (o ∷ []) (o ∷ []) ≡ false
unfolding owners_differ
owners_differ_self o =
    rw (eq_refl o.uid, eq_refl o.api_version, eq_refl o.kind, eq_refl o.name) refl

has_key_cover :
    (keys wanted : List String)
    → All (λ key. has_key keys key ≡ true) wanted
    → any (λ key. not (has_key keys key)) wanted ≡ false
has_key_cover keys [] h = refl
has_key_cover keys (x ∷ wanted) (p, h) = rw p (has_key_cover keys wanted h)

has_key-All : (keys : List String) → All (λ key. has_key keys key ≡ true) keys
unfolding has_key
has_key-All [] = tt
has_key-All (x ∷ keys) =
    (rw (eq_refl x) refl, All-map (λ key h. ground (arith, h)) keys (has_key-All keys))

-- Every key of a list is among its keys.
has_key_self : (keys : List String) → any (λ key. not (has_key keys key)) keys ≡ false
has_key_self keys = has_key_cover keys keys (has_key-All keys)

module _ (k : Resources) where
  open k use {Quantity, must_parse, equal}

  -- Whatever version it was stored under.
  abbrev pub IsStable : Object Quantity → Type 0
  IsStable o = (v : String) → needs_update k (with_version v o) o ≡ some false

  pub build_namespace-IsStable : (t : Tenant) → IsStable (namespace (build_namespace t))
  unfolding needs_update ns_needs_update build_namespace texts_differ
  build_namespace-IsStable t v = rw (owners_differ_self (owner_reference t)) refl

  pub build_network_policy-IsStable :
      (cfg : Config) (t : Tenant) → IsStable (network_policy (build_network_policy cfg t))
  unfolding needs_update np_needs_update build_network_policy
  build_network_policy-IsStable cfg t v = ground arith

  module _ (role_meta : String) (rules : List PolicyRule) where
    rules-IsStable :
        (t : Tenant) → IsStable (role (record { meta = object_meta role_meta t; rules = rules }))
    unfolding needs_update role_needs_update object_meta texts_differ
    rules-IsStable t v =
        rw (owners_differ_self (owner_reference t), has_key_self (map normalize_rule rules))
          (ground arith)

  pub build_admin_role-IsStable : (t : Tenant) → IsStable (role (build_admin_role t))
  unfolding build_admin_role
  build_admin_role-IsStable t = rules-IsStable _ _ t

  pub build_operator_role-IsStable : (t : Tenant) → IsStable (role (build_operator_role t))
  unfolding build_operator_role
  build_operator_role-IsStable t = rules-IsStable _ _ t

  pub build_admin_role_binding-IsStable :
      (t : Tenant) → IsStable (role_binding (build_admin_role_binding t))
  unfolding needs_update rb_needs_update build_admin_role_binding object_meta texts_differ
  build_admin_role_binding-IsStable t v = simp (eq_refl, owners_differ_self)

  pub build_operator_role_binding-IsStable :
      (t : Tenant) → IsStable (role_binding (build_operator_role_binding t))
  unfolding needs_update rb_needs_update build_operator_role_binding object_meta texts_differ
  build_operator_role_binding-IsStable t v = simp (eq_refl, owners_differ_self)

  module _ (equal_refl : (q : Quantity) → equal q q ≡ true) where
    quota_of-IsStable :
        (name : String) (t : Tenant) (c m p s : Quantity)
        → IsStable (resource_quota (quota_of name t c m p s))
    unfolding needs_update rq_needs_update object_meta amounts_differ texts_differ
    quota_of-IsStable name t c m p s v = simp (equal_refl, owners_differ_self)

    build_quota-IsStable :
        (name cpu memory pods storage : String) (t : Tenant) (q : ResourceQuota Quantity)
        → build_quota k name cpu memory pods storage t ≡ some q
        → IsStable (resource_quota q)
    unfolding build_quota
    build_quota-IsStable name cpu memory pods storage t q e = elim (Option-cases (must_parse cpu)) [
      | inl h ↦ absurd (ground arith)
      | inr (c, hc) ↦ elim (Option-cases (must_parse memory)) [
        | inl h ↦ absurd (ground arith)
        | inr (m, hm) ↦ elim (Option-cases (must_parse pods)) [
          | inl h ↦ absurd (ground arith)
          | inr (p, hp) ↦ elim (Option-cases (must_parse storage)) [
            | inl h ↦ absurd (ground arith)
            | inr (s, hs) ↦
                let same : quota_of name t c m p s ≡ q = ground arith in
                subst (λ q. IsStable (resource_quota q)) same (quota_of-IsStable name t c m p s)
          ]
        ]
      ]
    ]

    pub build_resource_quota-IsStable :
        (t : Tenant) (q : ResourceQuota Quantity)
        → build_resource_quota k t ≡ some (some q)
        → IsStable (resource_quota q)
    unfolding build_resource_quota
    build_resource_quota-IsStable t q e = elim (Bool-cases (t.spec.tier == tier_free)) [
      | inl h ↦ build_quota-IsStable "tenant-quota-free" "500m" "1Gi" "20" "10Gi" t q (ground arith)
      | inr h ↦ elim (Bool-cases (t.spec.tier == tier_pro)) [
        | inl h' ↦
            build_quota-IsStable "tenant-quota-pro" "4" "8Gi" "100" "100Gi" t q (ground arith)
        | inr h' ↦ elim (Bool-cases (t.spec.tier == tier_enterprise)) [
          | inl h'' ↦
              build_quota-IsStable "tenant-quota-enterprise" "8" "16Gi" "200" "200Gi" t q
                (ground arith)
          | inr h'' ↦ absurd (ground arith)
        ]
      ]
    ]

    limits_of-IsStable : (t : Tenant) (c m : Quantity) → IsStable (limit_range (limits_of t c m))
    unfolding needs_update lr_needs_update amounts_differ
    limits_of-IsStable t c m v = simp equal_refl

    pub build_limit_range-IsStable :
        (cfg : Config) (t : Tenant) (l : LimitRange Quantity)
        → build_limit_range k cfg t ≡ some l
        → IsStable (limit_range l)
    unfolding build_limit_range
    build_limit_range-IsStable cfg t l e =
        elim (Option-cases (must_parse (tier_defaults cfg t).default_cpu)) [
          | inl h ↦ absurd (ground arith)
          | inr (c, hc) ↦ elim (Option-cases (must_parse (tier_defaults cfg t).default_memory)) [
            | inl h ↦ absurd (ground arith)
            | inr (m, hm) ↦
                let same : limits_of t c m ≡ l = ground arith in
                subst (λ l. IsStable (limit_range l)) same (limits_of-IsStable t c m)
          ]
        ]
