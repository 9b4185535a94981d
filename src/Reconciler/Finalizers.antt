-- ===== src/Reconciler/Finalizers.antt =====
-- internal/reconciler/tenant_reconciler.go: the finalizer, and the order of the steps around it.
use k8s_mtp.Common.{
  String, Bool, true, false, not, ◌&&◌, List, [], ◌∷◌, ◌++◌, ◌≡◌, refl, arith, ◌==◌, eq_iff, any,
}
use k8s_mtp.Resources.{Resources}
use k8s_mtp.Settings.{Config}
use k8s_mtp.Tenants.{Tenant}
use k8s_mtp.Store.{Postgres, Database}
use k8s_mtp.Reconciler.Kube.{Client, Answer, ok, err, api}
use k8s_mtp.Reconciler.{
  ReconcileResult, Outcome, returned, raised, panicked, ◌>>=◌, or_raise, pure, tenant_finalizer,
  remove_string, add_finalizer, reconcile_tenant, is_deleted,
}

abbrev requeued : ReconcileResult
requeued = record { requeue = true }

abbrev pub has_text : List String → String → Bool
has_text items x = any (λ f. f == x) items

-- `removeString` takes out every copy of the text and nothing else.
remove_string_lem :
    (items : List String) (s x : String)
    → has_text (remove_string items s) x ≡ (has_text items x && not (x == s))
unfolding remove_string
remove_string_lem [] s x = refl
remove_string_lem (i ∷ items) s x =
    ground (arith, eq_iff i s, eq_iff i x, eq_iff x s, remove_string_lem items s x)

-- The reconciliation is called again: it asks for it, or it returns an error.
abbrev pub is_called_again : Outcome ReconcileResult → Bool
is_called_again (returned r) = r.requeue
is_called_again (raised e) = true
is_called_again panicked = false

module _ (k : Resources) (c : Client k) (pg : Postgres) (cfg : Config) where
  marked_requeue :
      (a : Answer Tenant) (s : c.World × Database)
      → ((◌>>=◌ k c pg cfg (or_raise k c pg cfg api a) (λ _. pure k c pg cfg requeued) s).1 ≡ s)
        × (is_called_again
              (◌>>=◌ k c pg cfg (or_raise k c pg cfg api a) (λ _. pure k c pg cfg requeued) s).0
            ≡ true)
  unfolding ◌>>=◌
  marked_requeue (ok t) s = (refl, refl)
  marked_requeue (err x) s = (refl, refl)

  -- A tenant that is neither being deleted nor under the finalizer is sent to the API server with the
  -- finalizer at the end of its finalizers, nothing else is written there or to the database, and the
  -- reconciliation is called again: it asks for it, or returns the error of that one call.
  reconcile_tenant_unmarked :
      (t : Tenant) (w : c.World) (db : Database)
      → is_deleted t ≡ false
      → has_text t.finalizers tenant_finalizer ≡ false
      → ((reconcile_tenant k c pg cfg t (w, db)).1 ≡ (
        (c.update_tenant (record t { finalizers = t.finalizers ++ tenant_finalizer ∷ [] }) w).1,
        db,
      ))
        × (is_called_again (reconcile_tenant k c pg cfg t (w, db)).0 ≡ true)
  unfolding reconcile_tenant add_finalizer ◌>>=◌
  reconcile_tenant_unmarked t w db d f =
      rw (d, f) (marked_requeue (c.update_tenant marked w).0 ((c.update_tenant marked w).1, db))
    where
      marked : Tenant
      marked = record t { finalizers = t.finalizers ++ tenant_finalizer ∷ [] }
