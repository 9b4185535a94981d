-- ===== src/Reconciler/Kube.antt =====
-- The Kubernetes client of sigs.k8s.io/controller-runtime that the reconciler embeds, which the
-- repository does not hold: a parameter of the model.
use k8s_mtp.Common.{String, Option, some, ◌≡◌, ◌≢◌}
use k8s_mtp.Resources.{Resources}
use k8s_mtp.Tenants.{Tenant}
use k8s_mtp.Store.{StoreError}
use k8s_mtp.Cluster.{Object, ObjectKey, key_of, with_version}

-- The errors of the API server, as `errors.IsAlreadyExists` and `client.IgnoreNotFound` tell them
-- apart.
pub data ApiError : Type 0 where
  already_exists not_found other : String → ApiError

pub data Answer (A : Type 0) : Type 0 where
  ok : A → Answer A
  err : ApiError → Answer A

-- The errors that the reconciler returns; `wrapped` is `fmt.Errorf("…: %w", err)`.
pub data Error : Type 0 where
  api : ApiError → Error
  database : StoreError → Error
  wrapped : String → ApiError → Error

-- `World` is the state of the cluster. A call may change it in any way, also through what others do in
-- the meantime. `get` looks for an object of the type, the namespace and the name of its argument;
-- `create_nil` is `Create` with a nil pointer; `update_status` fills the tenant that it was given.
pub record Client (k : Resources) : Type 1 where
  pub World : Type 0
  pub get_tenant : String → World → Answer Tenant × World
  pub update_tenant : Tenant → World → Answer Tenant × World
  pub update_status : Tenant → World → Answer Tenant × World
  pub create : Object (k.Quantity) → World → Answer (Unit {0}) × World
  pub create_nil : World → Answer (Unit {0}) × World
  pub get : Object (k.Quantity) → World → Answer (Object (k.Quantity)) × World
  pub update : Object (k.Quantity) → World → Answer (Unit {0}) × World

-- What the theorems on the cluster rely on, while nobody else writes to it and no read is stale.
-- `stored` is the object that the API server keeps under a key, which goes by the type, the namespace
-- and the name. `admitted` is what the server makes of an object that it accepts: it may set fields
-- that were not sent, as it labels each namespace with its name, whatever version the object came with.
-- A write that is accepted stores the admitted object under a version of its own; whatever a call
-- answers, it leaves the objects under other keys alone. A status update answers with the tenant as it
-- is kept: its name, its UID and its specification are those that were sent.
pub record IsKept (k : Resources) (c : Client k) : Type 0 where
  pub stored : c.World → ObjectKey → Option (Object (k.Quantity))
  pub admitted : Object (k.Quantity) → Object (k.Quantity)
  pub admitted_version :
      (v r : String) (o : Object (k.Quantity))
      → with_version v (admitted (with_version r o)) ≡ with_version v (admitted o)
  pub create_ok :
      (o : Object (k.Quantity)) (w : c.World)
      → (c.create o w).0 ≡ ok tt
      → (v : String) × (stored (c.create o w).1 (key_of o) ≡ some (with_version v (admitted o)))
  pub create_frame :
      (o : Object (k.Quantity)) (w : c.World) (j : ObjectKey)
      → j ≢ key_of o
      → stored (c.create o w).1 j ≡ stored w j
  pub get_ok :
      (o : Object (k.Quantity)) (w : c.World) (s : Object (k.Quantity))
      → (c.get o w).0 ≡ ok s
      → stored w (key_of o) ≡ some s
  pub get_frame :
      (o : Object (k.Quantity)) (w : c.World) (j : ObjectKey) → stored (c.get o w).1 j ≡ stored w j
  pub update_ok :
      (o : Object (k.Quantity)) (w : c.World)
      → (c.update o w).0 ≡ ok tt
      → (v : String) × (stored (c.update o w).1 (key_of o) ≡ some (with_version v (admitted o)))
  pub update_frame :
      (o : Object (k.Quantity)) (w : c.World) (j : ObjectKey)
      → j ≢ key_of o
      → stored (c.update o w).1 j ≡ stored w j
  pub create_nil_frame : (w : c.World) (j : ObjectKey) → stored (c.create_nil w).1 j ≡ stored w j
  pub get_tenant_frame :
      (name : String) (w : c.World) (j : ObjectKey) → stored (c.get_tenant name w).1 j ≡ stored w j
  pub update_tenant_frame :
      (t : Tenant) (w : c.World) (j : ObjectKey) → stored (c.update_tenant t w).1 j ≡ stored w j
  pub update_status_frame :
      (t : Tenant) (w : c.World) (j : ObjectKey) → stored (c.update_status t w).1 j ≡ stored w j
  pub update_status_ok :
      (t u : Tenant) (w : c.World)
      → (c.update_status t w).0 ≡ ok u
      → (u.name ≡ t.name) × (u.uid ≡ t.uid) × (u.spec ≡ t.spec)
