-- ===== src/Reconciler.antt =====
-- internal/reconciler/tenant_reconciler.go: one reconciliation of a tenant.
pub mod Build
pub mod Limits
pub mod Diff
pub mod Kube
pub mod Stable
pub mod Rules
pub mod Written
pub mod Converge
pub mod Settled
pub mod Returns
pub mod Tenants
pub mod Frame
pub mod Untouched
pub mod Finalizers
pub mod Unnoticed
use k8s_mtp.Common.{
  ℕ, String, Bool, true, false, not, Option, none, some, List, [], ◌∷◌, ◌++◌, ◌==◌, if◌then◌else◌,
  any,
}
use k8s_mtp.Resources.{Resources}
use k8s_mtp.Tenants.{Tenant, phase_active}
use k8s_mtp.Settings.{Config}
use k8s_mtp.Cluster.{
  Object, ResourceQuota, namespace, resource_quota, role, role_binding, network_policy, limit_range,
  with_version, meta_of,
}
use k8s_mtp.Store.{
  Postgres, Database, Result, StoreError, get_tenant_by_id, create_tenant, update_tenant,
  delete_tenant,
}
use Build.{
  build_namespace, build_admin_role, build_operator_role, build_admin_role_binding,
  build_operator_role_binding,
}
use Limits.{build_resource_quota, build_network_policy, build_limit_range}
use Diff.{needs_update}
use Kube.{
  Client, Answer, ok, err, ApiError, already_exists, not_found, other, Error, api, database,
  wrapped,
}

abbrev pub tenant_finalizer : String
tenant_finalizer = "tenant.multitenant.k8s-mtp.io/finalizer"

-- How a Go function ends: it returns a value, returns an error, or panics.
pub data Outcome (A : Type 0) : Type 0 where
  returned : A → Outcome A
  raised : Error → Outcome A
  panicked : Outcome A

abbrev pub of_store : {A : Type 0} → Result A → Outcome A
of_store (Result.ok a) = returned a
of_store (Result.err e) = raised (database e)

-- `ctrl.Result`.
pub record ReconcileResult : Type 0 where
  pub requeue : Bool

abbrev pub finished : ReconcileResult
finished = record { requeue = false }

-- `!tenant.DeletionTimestamp.IsZero()`.
unfoldable pub is_deleted : Tenant → Bool
is_deleted t = elim t.deletion_timestamp [ none ↦ false | some at ↦ true ]

-- `removeString`.
unfoldable pub remove_string : List String → String → List String
remove_string [] s = []
remove_string (item ∷ slice) s =
    if not (item == s) then item ∷ remove_string slice s else remove_string slice s

module _ (k : Resources) (c : Client k) (pg : Postgres) (cfg : Config) where
  open k use {Quantity}
  open c use {World}

  -- A step of the reconciler works on the cluster and on the database.
  abbrev pub M : Type 0 → Type 0
  M A = World × Database → Outcome A × (World × Database)

  abbrev pub continue : {A B : Type 0} → Outcome A → (A → M B) → M B
  continue (returned a) f s = f a s
  continue (raised e) f s = (raised e, s)
  continue panicked f s = (panicked, s)

  infixl 5 ◌>>=◌ ◌>>◌
  unfoldable pub ◌>>=◌ : {A B : Type 0} → M A → (A → M B) → M B
  ◌>>=◌ m f s = let (r, s') = m s in continue r f s'

  abbrev pub ◌>>◌ : {B : Type 0} → M (Unit {0}) → M B → M B
  m >> n = m >>= λ _. n

  abbrev pub pure : {A : Type 0} → A → M A
  pure a s = (returned a, s)

  abbrev pub raise : {A : Type 0} → Error → M A
  raise e s = (raised e, s)

  -- A call of the store.
  abbrev pub stored : {A : Type 0} → (Database → Result A × Database) → M A
  stored call (w, db) = let (r, db') = call db in (of_store r, (w, db'))

  -- A call of the API server, whose answer the code looks at.
  abbrev pub asked : {A : Type 0} → (World → Answer A × World) → M (Answer A)
  asked call (w, db) = let (r, w') = call w in (returned r, (w', db))

  -- `if err := …; err != nil { return … }`.
  abbrev pub or_raise : {A : Type 0} → (ApiError → Error) → Answer A → M A
  or_raise f (ok a) = pure a
  or_raise f (err e) = raise (f e)

  abbrev pub or_panic : {A : Type 0} → Option A → M A
  or_panic none s = (panicked, s)
  or_panic (some a) s = (returned a, s)

  -- `obj.SetResourceVersion(current.GetResourceVersion())` and the `Update`.
  unfoldable pub write_over : Object Quantity → Object Quantity → M (Unit {0})
  write_over current obj = do
    answer ← asked (c.update (with_version (meta_of current).resource_version obj))
    or_raise (λ e. wrapped "failed to update" e) answer

  -- The part of `createOrUpdate` behind a `Create` that found the object there.
  unfoldable pub update_existing : Object Quantity → M (Unit {0})
  update_existing obj = do
    found ← asked (c.get obj)
    current ← or_raise (λ e. wrapped "failed to get existing" e) found
    changed ← or_panic (needs_update k current obj)
    if not changed then pure tt else write_over current obj

  abbrev pub after_create : Object Quantity → Answer (Unit {0}) → M (Unit {0})
  after_create obj (ok _) = pure tt
  after_create obj (err (already_exists m)) = update_existing obj
  after_create obj (err (not_found m)) = raise (wrapped "failed to create" (not_found m))
  after_create obj (err (other m)) = raise (wrapped "failed to create" (other m))

  unfoldable pub create_or_update : Object Quantity → M (Unit {0})
  create_or_update obj = do answer ← asked (c.create obj); after_create obj answer

  -- `createOrUpdate` with the nil pointer of a tenant whose tier is none of the three: where the
  -- client answers that the object is there already, the code reads the name of nil and panics.
  abbrev pub after_create_nil : Answer (Unit {0}) → M (Unit {0})
  after_create_nil (ok _) = pure tt
  after_create_nil (err (already_exists m)) = or_panic none
  after_create_nil (err (not_found m)) = raise (wrapped "failed to create" (not_found m))
  after_create_nil (err (other m)) = raise (wrapped "failed to create" (other m))

  unfoldable pub create_or_update_quota : Option (ResourceQuota Quantity) → M (Unit {0})
  create_or_update_quota (some quota) = create_or_update (resource_quota quota)
  create_or_update_quota none = do answer ← asked c.create_nil; after_create_nil answer

  unfoldable pub add_finalizer : Tenant → M ReconcileResult
  add_finalizer t = do
    answer ←
        asked (c.update_tenant (record t { finalizers = t.finalizers ++ tenant_finalizer ∷ [] }))
    _ ← or_raise api answer
    pure (record { requeue = true })

  unfoldable pub reconcile_delete : Tenant → M ReconcileResult
  reconcile_delete t = do
    stored (delete_tenant pg t.uid)
    answer ←
        asked
          (c.update_tenant (record t { finalizers = remove_string t.finalizers tenant_finalizer }))
    _ ← or_raise api answer
    pure finished

  -- The tenant's row is created or updated. `CreateTenant` sets the tenant's creation time.
  abbrev pub store_tenant : Tenant → Option Tenant → M Tenant
  store_tenant t none = stored (create_tenant pg t)
  store_tenant t (some existing) = stored (update_tenant pg t) >>= λ _. pure t

  -- The network policy and the default limits, which come after the status.
  unfoldable pub reconcile_isolation : Tenant → M ReconcileResult
  reconcile_isolation u = do
    create_or_update (network_policy (build_network_policy cfg u))
    limits ← or_panic (build_limit_range k cfg u)
    create_or_update (limit_range limits)
    pure finished

  abbrev pub activated : Tenant → Tenant
  activated t = record t {
    status = record (t.status) { phase = phase_active; namespace = (build_namespace t).meta.name };
  }

  -- The six objects that come before the status, and the status.
  unfoldable pub reconcile_objects : Tenant → Option (ResourceQuota Quantity) → M ReconcileResult
  reconcile_objects t quota = do
    create_or_update (namespace (build_namespace t))
    create_or_update_quota quota
    create_or_update (role (build_admin_role t))
    create_or_update (role (build_operator_role t))
    create_or_update (role_binding (build_admin_role_binding t))
    create_or_update (role_binding (build_operator_role_binding t))
    answer ← asked (c.update_status (activated t))
    u ← or_raise api answer
    reconcile_isolation u

  unfoldable pub reconcile_create_or_update : Tenant → M ReconcileResult
  reconcile_create_or_update tenant = do
    existing ← stored (get_tenant_by_id pg tenant.uid)
    t ← store_tenant tenant existing
    quota ← or_panic (build_resource_quota k t)
    reconcile_objects t quota

  -- The branches of `Reconcile` for a tenant that was found.
  unfoldable pub reconcile_tenant : Tenant → M ReconcileResult
  reconcile_tenant t =
      if is_deleted t
      then reconcile_delete t
      else if not (any (λ f. f == tenant_finalizer) t.finalizers)
      then add_finalizer t
      else reconcile_create_or_update t

  -- `client.IgnoreNotFound(err)`.
  abbrev pub after_get : Answer Tenant → M ReconcileResult
  after_get (ok t) = reconcile_tenant t
  after_get (err (not_found m)) = pure finished
  after_get (err (already_exists m)) = raise (api (already_exists m))
  after_get (err (other m)) = raise (api (other m))

  unfoldable pub reconcile : String → M ReconcileResult
  reconcile name = do answer ← asked (c.get_tenant name); after_get answer
