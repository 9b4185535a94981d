-- ===== src/Reconciler/Settled.antt =====
-- internal/reconciler/tenant_reconciler.go: which objects of the cluster are taken for the built ones.
use k8s_mtp.Common.{
  String, Bool, true, false, ◌||◌, List, [], ◌∷◌, some, ◌≡◌, ◌↔◌, refl, arith, All, ◌==◌, eq_iff,
  Bool-cases, inl, inr, lookup_or,
}
use k8s_mtp.Resources.{Resources}
use k8s_mtp.Settings.{Config}
use k8s_mtp.Tenants.{Tenant}
use k8s_mtp.Cluster.{Namespace, OwnerReference, ResourceQuota, LimitRange}
use k8s_mtp.Reconciler.Build.{build_namespace, owner_reference}
use k8s_mtp.Reconciler.Limits.{build_resource_quota, build_limit_range}
use k8s_mtp.Reconciler.Diff.{texts_differ, owners_differ, ns_needs_update}
use k8s_mtp.Reconciler.Stable.{
  IsStable, build_limit_range-IsStable, build_network_policy-IsStable, build_namespace-IsStable,
  build_resource_quota-IsStable, build_admin_role-IsStable, build_operator_role-IsStable,
  build_admin_role_binding-IsStable, build_operator_role_binding-IsStable,
}
use k8s_mtp.Reconciler.Converge.{tenant_objects}

-- Every object that is built for a tenant of the three tiers, kept as it was sent under any version,
-- needs no update: a quantity is equal to itself.
pub tenant_objects-IsStable :
    (k : Resources) (cfg : Config) (t : Tenant) (q : ResourceQuota (k.Quantity))
    (l : LimitRange (k.Quantity))
    → ((a : k.Quantity) → k.equal a a ≡ true)
    → build_resource_quota k t ≡ some (some q)
    → build_limit_range k cfg t ≡ some l
    → All (IsStable k) (tenant_objects k cfg t q l)
tenant_objects-IsStable k cfg t q l equal_refl quota limits = (
  build_limit_range-IsStable k equal_refl cfg t l limits,
  (
    build_network_policy-IsStable k cfg t,
    (
      build_operator_role_binding-IsStable k t,
      (
        build_admin_role_binding-IsStable k t,
        (
          build_operator_role-IsStable k t,
          (
            build_admin_role-IsStable k t,
            (
              build_resource_quota-IsStable k equal_refl t q quota,
              (build_namespace-IsStable k t, tt),
            ),
          ),
        ),
      ),
    ),
  ),
)

no_texts_iff : (texts : List (String × String)) → (texts_differ texts [] ≡ false) ↔ (texts ≡ [])
unfolding texts_differ
no_texts_iff [] = ground arith
no_texts_iff (e ∷ texts) = (λ h. ground arith, λ h. cc)

one_text_iff :
    (texts : List (String × String)) (key value : String)
    → (value == "") ≡ false
    → (texts_differ texts ((key, value) ∷ []) ≡ false) ↔ (texts ≡ (key, value) ∷ [])
unfolding texts_differ
one_text_iff [] key value h = (λ h. cc, λ h. cc)
one_text_iff ((j, v) ∷ []) key value h = elim (Bool-cases (j == key)) [
  | inl e ↦
      rw (e, lookup_or)
        (λ d. ground (arith, eq_iff j key, eq_iff v value), λ d. ground (arith, eq_iff v value))
  | inr e ↦
      rw (e, lookup_or)
        (λ d. ground (arith, eq_iff "" value, eq_iff value ""), λ d. ground (arith, eq_iff j key))
]
one_text_iff ((j, v) ∷ e ∷ texts) key value h = (λ h. ground arith, λ h. cc)

one_owner_iff :
    (owners : List OwnerReference) (o : OwnerReference)
    → (owners_differ owners (o ∷ []) ≡ false) ↔ (owners ≡ o ∷ [])
unfolding owners_differ
one_owner_iff [] o = (λ h. cc, λ h. cc)
one_owner_iff (p ∷ []) o = (
  λ h. ground (
    arith,
    h,
    eq_iff p.uid o.uid,
    eq_iff p.api_version o.api_version,
    eq_iff p.kind o.kind,
    eq_iff p.name o.name,
  ),
  λ h. ground (
    arith,
    h,
    eq_iff p.uid o.uid,
    eq_iff p.api_version o.api_version,
    eq_iff p.kind o.kind,
    eq_iff p.name o.name,
  ),
)
one_owner_iff (p ∷ r ∷ owners) o = (λ h. ground arith, λ h. cc)

or-eq-false_iff : (a b : Bool) → ((a || b) ≡ false) ↔ ((a ≡ false) × (b ≡ false))
or-eq-false_iff a b = (λ h. ground arith, λ h. ground arith)

-- A namespace is left as it is exactly when it has no annotation, the tenant as its one owner and the
-- label of the platform as its one label: with any other label beside that one it is written again.
pub ns_needs_update-build_namespace_iff :
    (current : Namespace) (t : Tenant)
    → (ns_needs_update current (build_namespace t) ≡ false) ↔ (
        (current.meta.annotations ≡ [])
        × (current.meta.owner_references ≡ owner_reference t ∷ [])
        × (current.meta.labels ≡ ("tenant.k8s-mtp.io/managed", "true") ∷ []))
unfolding ns_needs_update build_namespace
ns_needs_update-build_namespace_iff current t =
    let annotations = no_texts_iff current.meta.annotations in
    let owners = one_owner_iff current.meta.owner_references (owner_reference t) in
    let labels = one_text_iff current.meta.labels "tenant.k8s-mtp.io/managed" "true" refl in
    let first = or-eq-false_iff (texts_differ current.meta.annotations []) _ in
    let second =
      or-eq-false_iff (owners_differ current.meta.owner_references (owner_reference t ∷ [])) _ in
    (
      λ h. (
        annotations.0 (first.0 h).0,
        owners.0 (second.0 (first.0 h).1).0,
        labels.0 (second.0 (first.0 h).1).1,
      ),
      λ h. first.1 (annotations.1 h.0, second.1 (owners.1 h.1, labels.1 h.2)),
    )
