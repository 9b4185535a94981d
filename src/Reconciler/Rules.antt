-- ===== src/Reconciler/Rules.antt =====
-- Rules for the steps of internal/reconciler/tenant_reconciler.go: what a step leaves alone however it
-- ends, and what holds when it returns.
use k8s_mtp.Common.{
  String, Bool, true, false, Option, none, some, ◌≡◌, ◌≢◌, refl, ◌∙◌, arith, if◌then◌else◌,
}
use k8s_mtp.Resources.{Resources}
use k8s_mtp.Settings.{Config}
use k8s_mtp.Cluster.{
  Object, ObjectKey, key_of, with_version, namespace, resource_quota, role, role_binding,
  network_policy, limit_range,
}
use k8s_mtp.Store.{Postgres, Database}
use k8s_mtp.Reconciler.Kube.{
  Client, Answer, ok, err, ApiError, already_exists, not_found, other, Error, IsKept,
}
use k8s_mtp.Reconciler.{
  Outcome, returned, raised, panicked, M, continue, ◌>>=◌, or_raise, or_panic, write_over,
  update_existing, after_create, create_or_update, pure,
}

pub key_of-with_version :
    {Q : Type 0} (v : String) (o : Object Q) → key_of (with_version v o) ≡ key_of o
key_of-with_version v (namespace o) = refl
key_of-with_version v (resource_quota o) = refl
key_of-with_version v (role o) = refl
key_of-with_version v (role_binding o) = refl
key_of-with_version v (network_policy o) = refl
key_of-with_version v (limit_range o) = refl

module _ (k : Resources) (c : Client k) (pg : Postgres) (cfg : Config) (kept : IsKept k c) where
  abbrev pub State : Type 0
  State = c.World × Database

  -- However the step ends, the object under the key is the one that was there.
  pub record Keeps {A : Type 0} (j : ObjectKey) (m : M k c pg cfg A) : Type 0 where
    pub keeps : (s : State) → kept.stored (m s).1.0 j ≡ kept.stored s.0 j

  -- The step can return this value.
  pub record Yields {A : Type 0} (m : M k c pg cfg A) (a : A) : Type 0 where
    pub before : State
    pub yields : (m before).0 ≡ returned a

  continue-Keeps :
      {A B : Type 0} (j : ObjectKey) (f : A → M k c pg cfg B) (r : Outcome A) (s : State)
      → ((a : A) → r ≡ returned a → Keeps j (f a))
      → kept.stored (continue k c pg cfg r f s).1.0 j ≡ kept.stored s.0 j
  continue-Keeps j f (returned a) s h = (h a refl).keeps s
  continue-Keeps j f (raised e) s h = refl
  continue-Keeps j f panicked s h = refl

  pub >>=-Keeps :
      {A B : Type 0} (j : ObjectKey) (m : M k c pg cfg A) (f : A → M k c pg cfg B)
      → Keeps j m
      → ((a : A) → Yields m a → Keeps j (f a))
      → Keeps j (◌>>=◌ k c pg cfg m f)
  unfolding ◌>>=◌
  >>=-Keeps j m f h h' = record {
    keeps = λ s.
        continue-Keeps j f (m s).0 (m s).1 (λ a e. h' a (record { before = s; yields = e }))
        ∙ h.keeps s;
  }

  pub pure-Keeps : {A : Type 0} (j : ObjectKey) (a : A) → Keeps j (pure k c pg cfg a)
  pure-Keeps j a = record { keeps = λ s. refl }

  pub or_raise-Keeps :
      {A : Type 0} (j : ObjectKey) (f : ApiError → Error) (a : Answer A)
      → Keeps j (or_raise k c pg cfg f a)
  or_raise-Keeps j f (ok a) = record { keeps = λ s. refl }
  or_raise-Keeps j f (err e) = record { keeps = λ s. refl }

  pub or_panic-Keeps : {A : Type 0} (j : ObjectKey) (o : Option A) → Keeps j (or_panic k c pg cfg o)
  or_panic-Keeps j none = record { keeps = λ s. refl }
  or_panic-Keeps j (some a) = record { keeps = λ s. refl }

  pub or_panic-returned :
      {A : Type 0} (o : Option A) (a : A) (s : State)
      → (or_panic k c pg cfg o s).0 ≡ returned a
      → o ≡ some a
  or_panic-returned none a s e = cc
  or_panic-returned (some b) a s e = ground arith

  write_over-Keeps :
      (j : ObjectKey) (current o : Object (k.Quantity))
      → j ≢ key_of o
      → Keeps j (write_over k c pg cfg current o)
  unfolding write_over
  write_over-Keeps j current o h =
      >>=-Keeps j _ _
        (record { keeps = λ s. kept.update_frame _ s.0 j (λ e. h (e ∙ key_of-with_version _ o)) })
        (λ a _. or_raise-Keeps j _ a)

  pub if-Keeps :
      {A : Type 0} (j : ObjectKey) (b : Bool) (m n : M k c pg cfg A)
      → Keeps j m
      → Keeps j n
      → Keeps j (if b then m else n)
  if-Keeps j true m n h h' = h
  if-Keeps j false m n h h' = h'

  update_existing-Keeps :
      (j : ObjectKey) (o : Object (k.Quantity))
      → j ≢ key_of o
      → Keeps j (update_existing k c pg cfg o)
  unfolding update_existing
  update_existing-Keeps j o h =
      >>=-Keeps j _ _ (record { keeps = λ s. kept.get_frame o s.0 j })
        λ found _. >>=-Keeps j _ _ (or_raise-Keeps j _ found) λ current _.
          >>=-Keeps j _ _ (or_panic-Keeps j _)
            λ changed _. if-Keeps j _ _ _ (pure-Keeps j tt) (write_over-Keeps j current o h)

  after_create-Keeps :
      (j : ObjectKey) (o : Object (k.Quantity)) (a : Answer (Unit {0}))
      → j ≢ key_of o
      → Keeps j (after_create k c pg cfg o a)
  after_create-Keeps j o (ok _) h = pure-Keeps j tt
  after_create-Keeps j o (err (already_exists m)) h = update_existing-Keeps j o h
  after_create-Keeps j o (err (not_found m)) h = record { keeps = λ s. refl }
  after_create-Keeps j o (err (other m)) h = record { keeps = λ s. refl }

  -- However it ends, `createOrUpdate` leaves the objects under other keys alone.
  pub create_or_update-Keeps :
      (j : ObjectKey) (o : Object (k.Quantity))
      → j ≢ key_of o
      → Keeps j (create_or_update k c pg cfg o)
  unfolding create_or_update
  create_or_update-Keeps j o h =
      >>=-Keeps j _ _ (record { keeps = λ s. kept.create_frame o s.0 j h })
        (λ a _. after_create-Keeps j o a h)
