-- ===== src/Reconciler/Untouched.antt =====
-- internal/reconciler/tenant_reconciler.go: a reconciliation writes no object but the tenant's own.
use k8s_mtp.Common.{Option, none, some, ◌≡◌, ◌≢◌, refl, ◌∙◌}
use k8s_mtp.Resources.{Resources}
use k8s_mtp.Settings.{Config}
use k8s_mtp.Tenants.{Tenant}
use k8s_mtp.Cluster.{
  Object, ObjectKey, ResourceQuota, key_of, resource_quota, namespace, role, role_binding,
  network_policy, limit_range,
}
use k8s_mtp.Store.{Postgres, get_tenant_by_id, delete_tenant}
use k8s_mtp.Reconciler.Build.{
  object_meta, build_namespace, build_admin_role, build_operator_role, build_admin_role_binding,
  build_operator_role_binding,
}
use k8s_mtp.Reconciler.Limits.{build_resource_quota, build_network_policy, build_limit_range}
use k8s_mtp.Reconciler.Kube.{Client, Answer, ok, err, api, already_exists, not_found, other, IsKept}
use k8s_mtp.Reconciler.Rules.{
  State, Keeps, Yields, or_raise-Keeps, or_panic-Keeps, or_panic-returned, pure-Keeps, >>=-Keeps,
  if-Keeps, create_or_update-Keeps,
}
use k8s_mtp.Reconciler.Converge.{update_status-SameTenant}
use k8s_mtp.Reconciler.Tenants.{store_tenant-Keeps, store_tenant-SameTenant, stored-Keeps}
use k8s_mtp.Reconciler.Frame.{IsForeign, IsForeign-like, quota-key, limits-key}
use k8s_mtp.Reconciler.{
  M, ◌>>=◌, after_create_nil, create_or_update, create_or_update_quota, finished,
  reconcile_isolation, activated, reconcile_objects, reconcile_create_or_update, reconcile_delete,
  add_finalizer, reconcile_tenant,
}

module _ (k : Resources) (c : Client k) (pg : Postgres) (cfg : Config) (kept : IsKept k c)
    (j : ObjectKey) where
  abbrev Leaves : {A : Type 0} → M k c pg cfg A → Type 0
  Leaves m = Keeps k c pg cfg kept j m

  then_do :
      {A B : Type 0} {m : M k c pg cfg A} {f : A → M k c pg cfg B}
      → Leaves m
      → ((a : A) → Yields k c pg cfg kept m a → Leaves (f a))
      → Leaves (◌>>=◌ k c pg cfg m f)
  then_do h h' = >>=-Keeps k c pg cfg kept j _ _ h h'

  write :
      (o : Object (k.Quantity)) (key : ObjectKey)
      → key_of o ≡ key
      → j ≢ key
      → Leaves (create_or_update k c pg cfg o)
  write o key e h = create_or_update-Keeps k c pg cfg kept j o (λ d. h (d ∙ e))

  after_create_nil-Leaves : (a : Answer (Unit {0})) → Leaves (after_create_nil k c pg cfg a)
  after_create_nil-Leaves (ok _) = record { keeps = λ s. refl }
  after_create_nil-Leaves (err (already_exists m)) = record { keeps = λ s. refl }
  after_create_nil-Leaves (err (not_found m)) = record { keeps = λ s. refl }
  after_create_nil-Leaves (err (other m)) = record { keeps = λ s. refl }

  quota-Leaves :
      (t : Tenant) (q : Option (ResourceQuota (k.Quantity)))
      → IsForeign t j
      → build_resource_quota k t ≡ some q
      → Leaves (create_or_update_quota k c pg cfg q)
  unfolding create_or_update_quota
  quota-Leaves t none f e =
      then_do (record { keeps = λ s. kept.create_nil_frame s.0 j }) λ a _. after_create_nil-Leaves a
  quota-Leaves t (some q) f e = write (resource_quota q) _ (quota-key k t q e) f.no_quota

  isolation-Leaves : (u : Tenant) → IsForeign u j → Leaves (reconcile_isolation k c pg cfg u)
  unfolding reconcile_isolation build_network_policy object_meta
  isolation-Leaves u f =
      then_do (write (network_policy (build_network_policy cfg u)) _ refl f.no_network_policy)
        λ _ _. then_do (or_panic-Keeps k c pg cfg kept j (build_limit_range k cfg u)) λ l y.
          then_do
            (write (limit_range l) _
              (limits-key k cfg u l (or_panic-returned k c pg cfg kept _ l y.before y.yields))
              f.no_limit_range)
            λ _ _. pure-Keeps k c pg cfg kept j finished

  objects-Leaves :
      (t : Tenant) (q : Option (ResourceQuota (k.Quantity)))
      → IsForeign t j
      → build_resource_quota k t ≡ some q
      → Leaves (reconcile_objects k c pg cfg t q)
  unfolding reconcile_objects build_namespace build_admin_role build_operator_role
      build_admin_role_binding build_operator_role_binding object_meta
  objects-Leaves t q f e =
      then_do (write (namespace (build_namespace t)) _ refl f.no_namespace) λ _ _.
        then_do (quota-Leaves t q f e) λ _ _.
          then_do (write (role (build_admin_role t)) _ refl f.no_admin_role) λ _ _.
            then_do (write (role (build_operator_role t)) _ refl f.no_operator_role) λ _ _.
              then_do (write (role_binding (build_admin_role_binding t)) _ refl f.no_admin_binding)
                λ _ _.
                  then_do
                    (write (role_binding (build_operator_role_binding t)) _ refl
                      f.no_operator_binding)
                    λ _ _.
                      then_do (record { keeps = λ s. kept.update_status_frame _ s.0 j })
                        λ a y. then_do (or_raise-Keeps k c pg cfg kept j api a) λ u y'.
                          let (n, i, p) =
                            update_status-SameTenant k c pg cfg kept (activated k c pg cfg t) u a y
                              y' in
                          isolation-Leaves u
                            (IsForeign-like u t j (record { name = n; uid = i; spec = p }) f)

  create_or_update-Leaves :
      (t : Tenant) → IsForeign t j → Leaves (reconcile_create_or_update k c pg cfg t)
  unfolding reconcile_create_or_update
  create_or_update-Leaves t f =
      then_do (stored-Keeps k c pg cfg kept j (get_tenant_by_id pg t.uid)) λ existing _.
        then_do (store_tenant-Keeps k c pg cfg kept j t existing) λ u y.
          then_do (or_panic-Keeps k c pg cfg kept j (build_resource_quota k u)) λ q y'.
            objects-Leaves u q
              (IsForeign-like u t j (store_tenant-SameTenant k c pg cfg kept t u existing y) f)
              (or_panic-returned k c pg cfg kept _ q y'.before y'.yields)

  delete-Leaves : (t : Tenant) → Leaves (reconcile_delete k c pg cfg t)
  unfolding reconcile_delete
  delete-Leaves t = then_do (stored-Keeps k c pg cfg kept j (delete_tenant pg t.uid)) λ _ _.
      then_do (record { keeps = λ s. kept.update_tenant_frame _ s.0 j })
        λ a _.
          then_do (or_raise-Keeps k c pg cfg kept j api a)
            λ _ _. pure-Keeps k c pg cfg kept j finished

  finalizer-Leaves : (t : Tenant) → Leaves (add_finalizer k c pg cfg t)
  unfolding add_finalizer
  finalizer-Leaves t =
      then_do (record { keeps = λ s. kept.update_tenant_frame _ s.0 j })
        λ a _.
          then_do (or_raise-Keeps k c pg cfg kept j api a) λ _ _. pure-Keeps k c pg cfg kept j _

  tenant-Leaves : (t : Tenant) → IsForeign t j → Leaves (reconcile_tenant k c pg cfg t)
  unfolding reconcile_tenant
  tenant-Leaves t f =
      if-Keeps k c pg cfg kept j _ _ _ (delete-Leaves t)
        (if-Keeps k c pg cfg kept j _ _ _ (finalizer-Leaves t) (create_or_update-Leaves t f))

  -- However the reconciliation of a tenant ends, in success, with an error or by a panic, an object
  -- whose key is that of none of the tenant's eight objects is as it was, while nobody else writes.
  pub reconcile_tenant-stored :
      (t : Tenant) (s : State k c pg cfg kept)
      → IsForeign t j
      → kept.stored (reconcile_tenant k c pg cfg t s).1.0 j ≡ kept.stored s.0 j
  reconcile_tenant-stored t s f = (tenant-Leaves t f).keeps s
