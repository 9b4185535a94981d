-- ===== src/Reconciler/Returns.antt =====
-- internal/reconciler/tenant_reconciler.go: a reconciliation of a tenant ends without an error where the
-- API server and the database accept what they are sent.
use k8s_mtp.Common.{
  String, Bool, true, false, Option, some, ◌≡◌, ◌⊎◌, inl, inr, refl, sym, ◌∙◌, ap, arith, not,
  if◌then◌else◌,
}
use k8s_mtp.Resources.{Resources}
use k8s_mtp.Settings.{Config}
use k8s_mtp.Tenants.{Tenant}
use k8s_mtp.Cluster.{
  Object, ResourceQuota, LimitRange, kind_of, with_version, namespace, resource_quota, role,
  role_binding, network_policy, limit_range,
}
use k8s_mtp.Store.{Result, Postgres, get_tenant_by_id}
use k8s_mtp.Reconciler.Limits.{build_resource_quota, build_limit_range}
use k8s_mtp.Reconciler.Diff.{needs_update}
use k8s_mtp.Reconciler.Kube.{Client, ok, err, already_exists, api, IsKept}
use k8s_mtp.Reconciler.Rules.{State}
use k8s_mtp.Reconciler.Tenants.{build_resource_quota_same, store_tenant-SameTenant}
use k8s_mtp.Reconciler.Converge.{SameTenant, build_limit_range_same}
use k8s_mtp.Reconciler.{
  ReconcileResult, Outcome, returned, raised, panicked, M, continue, ◌>>=◌, asked, or_raise,
  or_panic, pure, finished, of_store, write_over, update_existing, create_or_update,
  create_or_update_quota, activated, reconcile_isolation, reconcile_objects, store_tenant,
  reconcile_create_or_update,
}

-- Objects of one type can be compared.
needs_update-some :
    (k : Resources) (c d : Object (k.Quantity))
    → kind_of c ≡ kind_of d
    → (b : Bool) × (needs_update k c d ≡ some b)
unfolding needs_update
needs_update-some k (namespace c) (namespace d) e = (_, refl)
needs_update-some k (resource_quota c) (resource_quota d) e = (_, refl)
needs_update-some k (role c) (role d) e = (_, refl)
needs_update-some k (role_binding c) (role_binding d) e = (_, refl)
needs_update-some k (network_policy c) (network_policy d) e = (_, refl)
needs_update-some k (limit_range c) (limit_range d) e = (_, refl)
needs_update-some k _ _ e = absurd (ground arith)

-- The API server accepts what it is sent: it creates an object or says that it exists; one that exists is
-- found, is of the type that was asked for, and may be written over; and a status is taken.
pub record Accepts (k : Resources) (c : Client k) : Type 0 where
  pub created :
      (o : Object (k.Quantity)) (w : c.World)
      → ((c.create o w).0 ≡ ok tt) ⊎ ((m : String) × ((c.create o w).0 ≡ err (already_exists m)))
  pub found :
      (o : Object (k.Quantity)) (w : c.World) (m : String)
      → (c.create o w).0 ≡ err (already_exists m)
      → (s : Object (k.Quantity)) × ((c.get o (c.create o w).1).0 ≡ ok s) × (kind_of s ≡ kind_of o)
  pub written :
      (o : Object (k.Quantity)) (w : c.World) (m v : String)
      → (c.create o w).0 ≡ err (already_exists m)
      → (c.update (with_version v o) (c.get o (c.create o w).1).1).0 ≡ ok tt
  pub status_taken : (t : Tenant) (w : c.World) → (u : Tenant) × ((c.update_status t w).0 ≡ ok u)

module _ (k : Resources) (c : Client k) (pg : Postgres) (cfg : Config) (kept : IsKept k c) where
  -- From every state the step returns a value with the property.
  pub record Always {A : Type 0} (m : M k c pg cfg A) (P : A → Type 0) : Type 0 where
    pub always : (s : State k c pg cfg kept) → (a : A) × ((m s).0 ≡ returned a) × P a

  bind_returned :
      {A B : Type 0} (m : M k c pg cfg A) (f : A → M k c pg cfg B) (s : State k c pg cfg kept)
      (a : A)
      → (m s).0 ≡ returned a
      → (◌>>=◌ k c pg cfg m f s) ≡ f a (m s).1
  unfolding ◌>>=◌
  bind_returned m f s a e = ap (λ r. continue k c pg cfg r f (m s).1) e

  >>=-Always :
      {A B : Type 0} {P : A → Type 0} {Q : B → Type 0} (m : M k c pg cfg A) (f : A → M k c pg cfg B)
      → Always m P
      → ((a : A) → P a → Always (f a) Q)
      → Always (◌>>=◌ k c pg cfg m f) Q
  >>=-Always m f h h' = record {
    always = λ s.
        let (a, e, p) = h.always s in
        let (b, e', q) = (h' a p).always (m s).1 in
        (b, ap (λ x. x.0) (bind_returned m f s a e) ∙ e', q);
  }

  pure-Always : {A : Type 0} {P : A → Type 0} (a : A) → P a → Always (pure k c pg cfg a) P
  pure-Always a p = record { always = λ s. (a, refl, p) }

  abbrev Done : {A : Type 0} → A → Type 0
  Done a = Unit {0}

  module _ (accepts : Accepts k c) where
    -- The state in which an object that exists has been found.
    abbrev after_found : Object (k.Quantity) → State k c pg cfg kept → State k c pg cfg kept
    after_found o s = ((c.get o (c.create o s.0).1).1, s.1)

    write-returned :
        (b : Bool) (o x : Object (k.Quantity)) (s : State k c pg cfg kept) (m : String)
        → (c.create o s.0).0 ≡ err (already_exists m)
        → ((if not b then pure k c pg cfg tt else write_over k c pg cfg x o) (after_found o s)).0
          ≡ returned tt
    unfolding write_over ◌>>=◌
    write-returned true o x s m e = rw (accepts.written o s.0 m _ e) refl
    write-returned false o x s m e = refl

    existing-returned :
        (o : Object (k.Quantity)) (s : State k c pg cfg kept) (m : String)
        → (c.create o s.0).0 ≡ err (already_exists m)
        → (update_existing k c pg cfg o ((c.create o s.0).1, s.1)).0 ≡ returned tt
    unfolding update_existing ◌>>=◌
    existing-returned o s m e =
        let (x, e', same) = accepts.found o s.0 m e in
        let (b, d) = needs_update-some k x o same in rw (e', d) (write-returned b o x s m e)

    create_or_update-Always :
        (o : Object (k.Quantity)) → Always (create_or_update k c pg cfg o) Done
    unfolding create_or_update ◌>>=◌
    create_or_update-Always o = record {
      always = λ s. elim (accepts.created o s.0) [
        | inl e ↦ (tt, rw e refl, tt)
        | inr (m, e) ↦ (tt, rw e (existing-returned o s m e), tt)
      ];
    }

    quota-Always :
        (q : ResourceQuota (k.Quantity)) → Always (create_or_update_quota k c pg cfg (some q)) Done
    unfolding create_or_update_quota
    quota-Always q = create_or_update-Always (resource_quota q)

    status-Always :
        (t : Tenant)
        → Always
            (◌>>=◌ k c pg cfg (asked k c pg cfg (c.update_status t)) (or_raise k c pg cfg api))
            (λ u. SameTenant u t)
    unfolding ◌>>=◌
    status-Always t = record {
      always = λ s.
          let (u, e) = accepts.status_taken t s.0 in
          let (n, i, p) = kept.update_status_ok t u s.0 e in
          (u, rw e refl, record { name = n; uid = i; spec = p });
    }

    >>=_assoc :
        {A B D : Type 0} (m : M k c pg cfg A) (f : A → M k c pg cfg B) (g : B → M k c pg cfg D)
        (s : State k c pg cfg kept)
        → ◌>>=◌ k c pg cfg (◌>>=◌ k c pg cfg m f) g s
          ≡ ◌>>=◌ k c pg cfg m (λ a. ◌>>=◌ k c pg cfg (f a) g) s
    unfolding ◌>>=◌
    >>=_assoc m f g s = by_outcome (m s).0 (m s).1
      where
        by_outcome :
            (r : Outcome _) (s' : State k c pg cfg kept)
            → continue k c pg cfg (continue k c pg cfg r f s').0 g (continue k c pg cfg r f s').1
              ≡ continue k c pg cfg r (λ a. ◌>>=◌ k c pg cfg (f a) g) s'
        by_outcome (returned a) s' = refl
        by_outcome (raised x) s' = refl
        by_outcome panicked s' = refl

    module _ (t : Tenant) (q : ResourceQuota (k.Quantity)) (l : LimitRange (k.Quantity))
        (limits : build_limit_range k cfg t ≡ some l) where
      Finishes : M k c pg cfg ReconcileResult → Type 0
      Finishes m = Always m (λ r. r ≡ finished)

      isolation-Finishes :
          (u : Tenant) → SameTenant u t → Finishes (reconcile_isolation k c pg cfg u)
      unfolding Finishes reconcile_isolation
      isolation-Finishes u same = >>=-Always _ _ (create_or_update-Always _) λ _ _.
          >>=-Always _ _ known_limits λ x _.
            >>=-Always _ _ (create_or_update-Always (limit_range x))
              λ _ _. pure-Always finished refl
        where
          known_limits : Always (or_panic k c pg cfg (build_limit_range k cfg u)) Done
          known_limits = record {
            always = λ s. (l, rw (build_limit_range_same k cfg u t same ∙ limits) refl, tt);
          }

      status-Finishes : Finishes (
          ◌>>=◌ k c pg cfg
            (asked k c pg cfg (c.update_status (activated k c pg cfg t)))
            (λ a. ◌>>=◌ k c pg cfg (or_raise k c pg cfg api a) (reconcile_isolation k c pg cfg)))
      unfolding Finishes
      status-Finishes = record {
        always = λ s.
            let (r, e, p) =
              (>>=-Always _ _ (status-Always (activated k c pg cfg t)) λ u same.
                  isolation-Finishes u
                    (record { name = same.name; uid = same.uid; spec = same.spec })).always
                s in
            (r, ap (λ x. x.0) (sym (>>=_assoc _ _ _ s)) ∙ e, p);
      }

      objects-Finishes : Finishes (reconcile_objects k c pg cfg t (some q))
      unfolding Finishes reconcile_objects
      objects-Finishes = >>=-Always _ _ (create_or_update-Always _) λ _ _.
          >>=-Always _ _ (quota-Always q) λ _ _. >>=-Always _ _ (create_or_update-Always _) λ _ _.
            >>=-Always _ _ (create_or_update-Always _) λ _ _.
              >>=-Always _ _ (create_or_update-Always _)
                λ _ _. >>=-Always _ _ (create_or_update-Always _) λ _ _. status-Finishes

    -- The reconciliation of a tenant that is not being deleted returns, with no error and no panic, and
    -- does not ask to be called again: where the database answers for the tenant's row, the API server
    -- accepts what it is sent, the tier is one of the three and the configured amounts can be read.
    pub reconcile_create_or_update-finished :
        (t u : Tenant) (existing : Option Tenant) (q : ResourceQuota (k.Quantity))
        (l : LimitRange (k.Quantity)) (s : State k c pg cfg kept)
        → (get_tenant_by_id pg t.uid s.1).0 ≡ Result.ok existing
        → (store_tenant k c pg cfg t existing (s.0, (get_tenant_by_id pg t.uid s.1).1)).0
          ≡ returned u
        → build_resource_quota k t ≡ some (some q)
        → build_limit_range k cfg t ≡ some l
        → (reconcile_create_or_update k c pg cfg t s).0 ≡ returned finished
    unfolding reconcile_create_or_update Finishes
    reconcile_create_or_update-finished t u existing q l s got known quota limits =
        let (r, e, p) =
          (objects-Finishes u q l (build_limit_range_same k cfg u t same ∙ limits)).always
            (or_panic k c pg cfg (build_resource_quota k u) after).1 in
        ap (λ x. x.0) (bind_returned _ _ s existing (ap of_store got))
        ∙ (ap (λ x. x.0) (bind_returned _ _ (s.0, (get_tenant_by_id pg t.uid s.1).1) u known)
            ∙ (ap (λ x. x.0) (bind_returned _ _ after (some q) quota_known) ∙ (e ∙ ap returned p)))
      where
        after : State k c pg cfg kept
        after = (store_tenant k c pg cfg t existing (s.0, (get_tenant_by_id pg t.uid s.1).1)).1

        same : SameTenant u t
        same =
            store_tenant-SameTenant k c pg cfg kept t u existing
              (record { before = (s.0, (get_tenant_by_id pg t.uid s.1).1); yields = known })

        quota_known : (or_panic k c pg cfg (build_resource_quota k u) after).0 ≡ returned (some q)
        quota_known =
            ap (λ o. (or_panic k c pg cfg o after).0)
              (build_resource_quota_same k cfg u t same ∙ quota)
