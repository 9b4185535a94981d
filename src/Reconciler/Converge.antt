-- ===== src/Reconciler/Converge.antt =====
-- internal/reconciler/tenant_reconciler.go: what a reconciliation does to the objects of the cluster.
use text.Mathlib.TextLemmas.{append_cancel_left}
use k8s_mtp.Common.{
  All-map, All-of, String, some, List, [], ◌∷◌, ◌≡◌, ◌≢◌, sym, ◌∙◌, arith, All, subst, ap, eq_iff,
}
use k8s_mtp.Resources.{Resources}
use k8s_mtp.Settings.{Config}
use k8s_mtp.Tenants.{Tenant}
use k8s_mtp.Cluster.{
  Object, ObjectKey, Kind, namespace_kind, role_kind, role_binding_kind, network_policy_kind,
  limit_range_kind, ResourceQuota, LimitRange, key_of, kind_of, namespace, resource_quota, role,
  role_binding, network_policy, limit_range,
}
use k8s_mtp.Store.{Postgres}
use k8s_mtp.Reconciler.Build.{
  tenant_namespace, owner_reference, object_meta, build_namespace, build_admin_role,
  build_operator_role, build_admin_role_binding, build_operator_role_binding, role_name,
}
use k8s_mtp.Reconciler.Limits.{build_network_policy, build_limit_range, tier_defaults}
use k8s_mtp.Reconciler.Kube.{Client, Answer, ok, err, api, IsKept}
use k8s_mtp.Reconciler.Rules.{or_raise-Keeps, or_panic-Keeps, Keeps, Yields}
use k8s_mtp.Reconciler.Written.{
  Ends, pure-Ends, >>=-Ends, Keeps-Ends, create_or_update-AllHold, AllHold,
}
use k8s_mtp.Reconciler.{
  ReconcileResult, M, ◌>>=◌, asked, or_raise, or_panic, create_or_update, pure, finished,
  create_or_update_quota, activated, reconcile_objects, reconcile_isolation,
}

abbrev key : Tenant → Kind → String → ObjectKey
key t kind name = record { kind = kind; namespace = tenant_namespace t; name = name }

-- The keys of a tenant's objects, less its quota.
abbrev pub tenant_keys : Tenant → List ObjectKey
tenant_keys t =
    record { kind = namespace_kind; namespace = ""; name = tenant_namespace t }
    ∷ key t role_kind (role_name t "-admin")
    ∷ key t role_kind (role_name t "-operator")
    ∷ key t role_binding_kind (role_name t "-admin-binding")
    ∷ key t role_binding_kind (role_name t "-operator-binding")
    ∷ key t network_policy_kind "tenant-isolation"
    ∷ key t limit_range_kind "tenant-defaults"
    ∷ []

role_name-ne : (t : Tenant) (a b : String) → a ≢ b → role_name t a ≢ role_name t b
role_name-ne t a b h e = h (append_cancel_left t.name a b (append_cancel_left "tenant-" _ _ e))

admin-ne-operator : (t : Tenant) → role_name t "-admin" ≢ role_name t "-operator"
admin-ne-operator t =
    role_name-ne t "-admin" "-operator" (ground (arith, eq_iff "-admin" "-operator"))

binding-ne : (t : Tenant) → role_name t "-admin-binding" ≢ role_name t "-operator-binding"
binding-ne t =
    role_name-ne t "-admin-binding" "-operator-binding"
      (ground (arith, eq_iff "-admin-binding" "-operator-binding"))

-- Two tenants from which the same objects are built.
pub record SameTenant (u t : Tenant) : Type 0 where
  pub name : u.name ≡ t.name
  pub uid : u.uid ≡ t.uid
  pub spec : u.spec ≡ t.spec

-- A tenant with the name, the UID and the specification of another.
abbrev pub like : Tenant → Tenant → Tenant
like u t = record u { name = t.name; uid = t.uid; spec = t.spec }

pub SameTenant-like : (u t : Tenant) → SameTenant u t → u ≡ like u t
SameTenant-like u t e = λ i. record u { name = e.name i; uid = e.uid i; spec = e.spec i }

module _ (k : Resources) (cfg : Config) where
  open k use {Quantity}

  apart : (o p : Object Quantity) → kind_of o ≢ kind_of p → key_of o ≢ key_of p
  apart o p h e = h (ap (λ (x : ObjectKey). x.kind) e)

  All-apart :
      (o : Object Quantity) (os : List (Object Quantity))
      → All (λ p. kind_of p ≢ kind_of o) os
      → All (λ p. key_of p ≢ key_of o) os
  All-apart o os h = All-map (λ p. apart p o) os h

  roles-apart :
      (t : Tenant)
      → key_of {Q = Quantity} (role (build_admin_role t))
        ≢ key_of {Q = Quantity} (role (build_operator_role t))
  unfolding build_admin_role build_operator_role object_meta
  roles-apart t e = admin-ne-operator t (ap (λ (x : ObjectKey). x.name) e)

  bindings-apart :
      (t : Tenant)
      → key_of {Q = Quantity} (role_binding (build_admin_role_binding t))
        ≢ key_of {Q = Quantity} (role_binding (build_operator_role_binding t))
  unfolding build_admin_role_binding build_operator_role_binding object_meta
  bindings-apart t e = binding-ne t (ap (λ (x : ObjectKey). x.name) e)

  build_network_policy_same :
      (u t : Tenant) → SameTenant u t → build_network_policy cfg u ≡ build_network_policy cfg t
  unfolding build_network_policy object_meta tenant_namespace owner_reference
  build_network_policy_same u t e = ap (build_network_policy cfg) (SameTenant-like u t e)

  pub build_limit_range_same :
      (u t : Tenant) → SameTenant u t → build_limit_range k cfg u ≡ build_limit_range k cfg t
  unfolding build_limit_range tier_defaults object_meta tenant_namespace owner_reference
  build_limit_range_same u t e = ap (build_limit_range k cfg) (SameTenant-like u t e)

  -- The objects of a tenant with the given quota, the latest first: those before the status.
  abbrev pub early_objects : Tenant → ResourceQuota Quantity → List (Object Quantity)
  early_objects t q =
      role_binding (build_operator_role_binding t)
      ∷ role_binding (build_admin_role_binding t)
      ∷ role (build_operator_role t)
      ∷ role (build_admin_role t)
      ∷ resource_quota q
      ∷ namespace (build_namespace t)
      ∷ []

  -- All of them, with the given default limits.
  abbrev pub tenant_objects :
      Tenant → ResourceQuota Quantity → LimitRange Quantity → List (Object Quantity)
  tenant_objects t q l =
      limit_range l ∷ network_policy (build_network_policy cfg t) ∷ early_objects t q

module _ (k : Resources) (c : Client k) (pg : Postgres) (cfg : Config) (kept : IsKept k c) where
  -- Where the first objects hold, the step returns only when the last ones do.
  pub record Achieves {A : Type 0} (os : List (Object (k.Quantity))) (m : M k c pg cfg A)
      (os' : List (Object (k.Quantity))) : Type 0 where
    pub achieves :
        Ends k c pg cfg kept (AllHold k c pg cfg kept os) m (λ _. AllHold k c pg cfg kept os')

  beside :
      (os : List (Object (k.Quantity))) (o : Object (k.Quantity))
      → All (λ p. key_of p ≢ key_of o) os
      → Achieves os (create_or_update k c pg cfg o) (o ∷ os)
  beside os o h = record { achieves = create_or_update-AllHold k c pg cfg kept os o h }

  -- One more object, of a kind that none of the others has.
  next :
      (os : List (Object (k.Quantity))) (o : Object (k.Quantity))
      → All (λ p. kind_of p ≢ kind_of o) os
      → Achieves os (create_or_update k c pg cfg o) (o ∷ os)
  next os o h = beside os o (All-apart k cfg o os h)

  -- A step that leaves every object alone.
  pub neutral :
      {A : Type 0} (os : List (Object (k.Quantity))) (m : M k c pg cfg A)
      → ((j : ObjectKey) → Keeps k c pg cfg kept j m)
      → Achieves os m os
  neutral os m h = record {
    achieves = Keeps-Ends k c pg cfg kept os m (All-of _ (λ o. h (key_of o)) os);
  }

  -- One step after another.
  pub then_do :
      {A B : Type 0} {os os' os'' : List (Object (k.Quantity))} {m : M k c pg cfg A}
      {f : A → M k c pg cfg B}
      → Achieves os m os'
      → ((a : A) → Yields k c pg cfg kept m a → Achieves os' (f a) os'')
      → Achieves os (◌>>=◌ k c pg cfg m f) os''
  then_do {os' = mid} {m} {f} h h' = record {
    achieves =
        >>=-Ends k c pg cfg kept (λ _. AllHold k c pg cfg kept mid) _ m f h.achieves
          (λ a y. (h' a y).achieves);
  }

  pub update_status-SameTenant :
      (t u : Tenant) (a : Answer Tenant)
      → Yields k c pg cfg kept (asked k c pg cfg (c.update_status t)) a
      → Yields k c pg cfg kept (or_raise k c pg cfg api a) u
      → (u.name ≡ t.name) × (u.uid ≡ t.uid) × (u.spec ≡ t.spec)
  update_status-SameTenant t u (ok v) y y' =
      kept.update_status_ok t u y.before.0 (ground (arith, y.yields, y'.yields))
  update_status-SameTenant t u (err e) y y' = absurd (ground (arith, y'.yields))

  module _ (t : Tenant) (q : ResourceQuota (k.Quantity)) (l : LimitRange (k.Quantity)) where
    abbrev policy : Object (k.Quantity)
    policy = network_policy (build_network_policy cfg t)

    abbrev with_quota : List (Object (k.Quantity))
    with_quota = resource_quota q ∷ namespace (build_namespace t) ∷ []

    abbrev with_admin : List (Object (k.Quantity))
    with_admin = role (build_admin_role t) ∷ with_quota

    abbrev with_roles : List (Object (k.Quantity))
    with_roles = role (build_operator_role t) ∷ with_admin

    abbrev with_admin_binding : List (Object (k.Quantity))
    with_admin_binding = role_binding (build_admin_role_binding t) ∷ with_roles

    abbrev early : List (Object (k.Quantity))
    early = role_binding (build_operator_role_binding t) ∷ with_admin_binding

    abbrev write_limits : LimitRange (k.Quantity) → M k c pg cfg ReconcileResult
    write_limits x =
        ◌>>=◌ k c pg cfg (create_or_update k c pg cfg (limit_range x))
          (λ _. pure k c pg cfg finished)

    limits-Achieves :
        build_limit_range k cfg t ≡ some l
        → Achieves (policy ∷ early) (write_limits l) (tenant_objects k cfg t q l)
    limits-Achieves limits =
        then_do (next (policy ∷ early) (limit_range l) (ground arith))
          λ _ _. record { achieves = pure-Ends k c pg cfg kept _ finished }

    -- The default limits of the tenant that the status update answered with.
    late_limits-Achieves :
        (u : Tenant)
        → SameTenant u t
        → build_limit_range k cfg t ≡ some l
        → Achieves
            (policy ∷ early)
            (◌>>=◌ k c pg cfg (or_panic k c pg cfg (build_limit_range k cfg u)) write_limits)
            (tenant_objects k cfg t q l)
    late_limits-Achieves u same limits =
        subst
          (λ o.
            Achieves (policy ∷ early) (◌>>=◌ k c pg cfg (or_panic k c pg cfg o) write_limits)
              (tenant_objects k cfg t q l))
          (sym (build_limit_range_same k cfg u t same ∙ limits))
          (then_do (neutral _ _ (λ j. or_panic-Keeps k c pg cfg kept j (some l))) (λ l' y.
            subst (λ x. Achieves (policy ∷ early) (write_limits x) (tenant_objects k cfg t q l))
              (ground (arith, y.yields)) (limits-Achieves limits)))

    isolation-Achieves :
        (u : Tenant)
        → SameTenant u t
        → build_limit_range k cfg t ≡ some l
        → Achieves early (reconcile_isolation k c pg cfg u) (tenant_objects k cfg t q l)
    unfolding reconcile_isolation
    isolation-Achieves u same limits =
        then_do
          (subst
            (λ p. Achieves early (create_or_update k c pg cfg (network_policy p)) (policy ∷ early))
            (sym (build_network_policy_same k cfg u t same)) (next early policy (ground arith)))
          λ _ _. late_limits-Achieves u same limits

    operator_role-Achieves :
        Achieves with_admin (create_or_update k c pg cfg (role (build_operator_role t))) with_roles
    operator_role-Achieves = beside with_admin _ (
      roles-apart k cfg t,
      All-apart k cfg (role (build_operator_role t)) with_quota (ground arith),
    )

    operator_binding-Achieves :
        Achieves with_admin_binding
          (create_or_update k c pg cfg (role_binding (build_operator_role_binding t)))
          early
    operator_binding-Achieves = beside with_admin_binding _ (
      bindings-apart k cfg t,
      All-apart k cfg (role_binding (build_operator_role_binding t)) with_roles (ground arith),
    )

    pub objects-Achieves :
        build_limit_range k cfg t ≡ some l
        → Achieves [] (reconcile_objects k c pg cfg t (some q)) (tenant_objects k cfg t q l)
    unfolding reconcile_objects create_or_update_quota
    objects-Achieves limits = then_do (next [] (namespace (build_namespace t)) tt) λ _ _.
        then_do (next _ (resource_quota q) (ground arith)) λ _ _.
          then_do (next with_quota _ (ground arith)) λ _ _. then_do operator_role-Achieves λ _ _.
            then_do (next with_roles _ (ground arith)) λ _ _.
              then_do operator_binding-Achieves λ _ _.
                then_do
                  (neutral early _ (λ j. record { keeps = λ s. kept.update_status_frame _ s.0 j }))
                  λ a y.
                    then_do (neutral early _ (λ j. or_raise-Keeps k c pg cfg kept j api a)) λ u y'.
                      let (n, i, p) = update_status-SameTenant (activated k c pg cfg t) u a y y' in
                      isolation-Achieves u (record { name = n; uid = i; spec = p }) limits
