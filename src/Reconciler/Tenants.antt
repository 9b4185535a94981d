-- ===== src/Reconciler/Tenants.antt =====
-- internal/reconciler/tenant_reconciler.go: when a reconciliation of a tenant has succeeded.
use k8s_mtp.Common.{Option, none, some, [], ◌≡◌, refl, sym, ◌∙◌, arith, subst, ap, ℕ}
use k8s_mtp.Resources.{Resources}
use k8s_mtp.Settings.{Config}
use k8s_mtp.Tenants.{Tenant}
use k8s_mtp.Cluster.{ObjectKey, ResourceQuota, LimitRange}
use k8s_mtp.Store.{
  Postgres, Database, Result, failed, no_rows, created, create_tenant, get_tenant_by_id,
}
use k8s_mtp.Reconciler.Build.{
  tenant_namespace, owner_reference, object_meta, build_namespace, build_admin_role,
  build_operator_role, build_admin_role_binding, build_operator_role_binding,
}
use k8s_mtp.Reconciler.Limits.{build_resource_quota, build_network_policy, build_limit_range}
use k8s_mtp.Reconciler.Kube.{Client, IsKept}
use k8s_mtp.Reconciler.Rules.{State, Keeps, Yields, or_panic-Keeps, pure-Keeps, >>=-Keeps}
use k8s_mtp.Reconciler.Written.{AllHold}
use k8s_mtp.Reconciler.Converge.{
  SameTenant, SameTenant-like, tenant_objects, build_limit_range_same, Achieves, then_do, neutral,
  objects-Achieves,
}
use k8s_mtp.Reconciler.{
  ReconcileResult, Outcome, returned, raised, panicked, continue, ◌>>=◌, stored, of_store,
  store_tenant, or_panic, pure, reconcile_objects, reconcile_create_or_update,
}

SameTenant-refl : (t : Tenant) → SameTenant t t
SameTenant-refl t = record { name = refl; uid = refl; spec = refl }

created-SameTenant : (t u : Tenant) (r : Result ℕ) → created t r ≡ Result.ok u → SameTenant u t
created-SameTenant t u (Result.ok now) e = ground arith
created-SameTenant t u (Result.err no_rows) e = ground arith
created-SameTenant t u (Result.err (failed m)) e = cc

module _ (k : Resources) (cfg : Config) where
  pub build_resource_quota_same :
      (u t : Tenant) → SameTenant u t → build_resource_quota k u ≡ build_resource_quota k t
  unfolding build_resource_quota object_meta tenant_namespace owner_reference
  build_resource_quota_same u t e = ap (build_resource_quota k) (SameTenant-like u t e)

  tenant_objects_same :
      (u t : Tenant) (q : ResourceQuota (k.Quantity)) (l : LimitRange (k.Quantity))
      → SameTenant u t
      → tenant_objects k cfg u q l ≡ tenant_objects k cfg t q l
  unfolding build_namespace build_admin_role build_operator_role build_admin_role_binding
      build_operator_role_binding build_network_policy object_meta tenant_namespace owner_reference
  tenant_objects_same u t q l e = ap (λ x. tenant_objects k cfg x q l) (SameTenant-like u t e)

of_store-returned : {A : Type 0} (r : Result A) (a : A) → of_store r ≡ returned a → r ≡ Result.ok a
of_store-returned (Result.ok b) a e = ground arith
of_store-returned (Result.err x) a e = cc

module _ (k : Resources) (c : Client k) (pg : Postgres) (cfg : Config) (kept : IsKept k c) where
  pub stored-Keeps :
      {A : Type 0} (j : ObjectKey) (call : Database → Result A × Database)
      → Keeps k c pg cfg kept j (stored k c pg cfg call)
  stored-Keeps j call = record { keeps = λ s. refl }

  pub store_tenant-Keeps :
      (j : ObjectKey) (t : Tenant) (e : Option Tenant)
      → Keeps k c pg cfg kept j (store_tenant k c pg cfg t e)
  store_tenant-Keeps j t none = stored-Keeps j _
  store_tenant-Keeps j t (some x) =
      >>=-Keeps k c pg cfg kept j _ _ (stored-Keeps j _) (λ a _. pure-Keeps k c pg cfg kept j t)

  stored_tenant-SameTenant :
      (t u : Tenant) (s : State k c pg cfg kept)
      → (stored k c pg cfg (create_tenant pg t) s).0 ≡ returned u
      → SameTenant u t
  unfolding create_tenant
  stored_tenant-SameTenant t u s e = created-SameTenant t u _ (of_store-returned _ u e)

  after_update :
      (t u : Tenant) (r : Outcome (Unit {0})) (s : State k c pg cfg kept)
      → (continue k c pg cfg r (λ _. pure k c pg cfg t) s).0 ≡ returned u
      → t ≡ u
  after_update t u (returned a) s e = ground arith
  after_update t u (raised x) s e = cc
  after_update t u panicked s e = cc

  -- The tenant that comes back from the store has the same name, UID and specification.
  pub store_tenant-SameTenant :
      (t u : Tenant) (e : Option Tenant)
      → Yields k c pg cfg kept (store_tenant k c pg cfg t e) u
      → SameTenant u t
  unfolding ◌>>=◌
  store_tenant-SameTenant t u none y = stored_tenant-SameTenant t u y.before y.yields
  store_tenant-SameTenant t u (some x) y =
      subst (λ v. SameTenant v t) (after_update t u _ _ y.yields) (SameTenant-refl t)

  known_quota-Achieves :
      (t u : Tenant) (q : ResourceQuota (k.Quantity)) (l : LimitRange (k.Quantity))
      → SameTenant u t
      → build_resource_quota k t ≡ some (some q)
      → build_limit_range k cfg t ≡ some l
      → Achieves k c pg cfg kept []
          (◌>>=◌ k c pg cfg
            (or_panic k c pg cfg (build_resource_quota k u))
            (reconcile_objects k c pg cfg u))
          (tenant_objects k cfg t q l)
  known_quota-Achieves t u q l same quota limits =
      subst
        (λ o.
          Achieves k c pg cfg kept []
            (◌>>=◌ k c pg cfg (or_panic k c pg cfg o) (reconcile_objects k c pg cfg u))
            (tenant_objects k cfg t q l))
        (sym found)
        (then_do k c pg cfg kept
          (neutral k c pg cfg kept [] _ (λ j. or_panic-Keeps k c pg cfg kept j (some (some q))))
          λ x y.
            subst
              (λ x.
                Achieves k c pg cfg kept [] (reconcile_objects k c pg cfg u x)
                  (tenant_objects k cfg t q l))
              (ground (arith, y.yields))
              (subst (Achieves k c pg cfg kept [] (reconcile_objects k c pg cfg u (some q)))
                (tenant_objects_same k cfg u t q l same)
                (objects-Achieves k c pg cfg kept u q l
                  (build_limit_range_same k cfg u t same ∙ limits))))
    where
      found : build_resource_quota k u ≡ some (some q)
      found = build_resource_quota_same k cfg u t same ∙ quota

  -- When reconcileCreateOrUpdate returns for a tenant of one of the three tiers whose quota and default
  -- limits can be read, every object of the tenant is in the cluster under its key: the namespace, the
  -- quota of its tier, the two roles, their bindings, the network policy and the default limits. Each
  -- either needs no update or is what the API server makes of the object that was built. Nobody else
  -- writes to the cluster.
  pub reconcile_create_or_update-AllHold :
      (t : Tenant) (q : ResourceQuota (k.Quantity)) (l : LimitRange (k.Quantity))
      (s : State k c pg cfg kept) (r : ReconcileResult)
      → build_resource_quota k t ≡ some (some q)
      → build_limit_range k cfg t ≡ some l
      → (reconcile_create_or_update k c pg cfg t s).0 ≡ returned r
      → AllHold k c pg cfg kept
          (tenant_objects k cfg t q l)
          (reconcile_create_or_update k c pg cfg t s).1.0
  unfolding reconcile_create_or_update
  reconcile_create_or_update-AllHold t q l s r quota limits e =
      (then_do k c pg cfg kept
          (neutral k c pg cfg kept [] _ (λ j. stored-Keeps j (get_tenant_by_id pg t.uid)))
          λ existing _.
            then_do k c pg cfg kept
              (neutral k c pg cfg kept [] _ (λ j. store_tenant-Keeps j t existing))
              λ u y.
                known_quota-Achieves t u q l (store_tenant-SameTenant t u existing y) quota
                  limits).achieves.ends
        s r tt e
