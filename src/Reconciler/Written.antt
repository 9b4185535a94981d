-- ===== src/Reconciler/Written.antt =====
-- internal/reconciler/tenant_reconciler.go: what `createOrUpdate` has achieved when it returns.
use k8s_mtp.Common.{
  All-map, String, ◌⊎◌, inl, inr, Bool, true, false, Option, none, some, List, [], ◌∷◌, ◌≡◌, ◌≢◌,
  refl, ◌∙◌, arith, All, if◌then◌else◌, not, ap,
}
use k8s_mtp.Resources.{Resources}
use k8s_mtp.Settings.{Config}
use k8s_mtp.Cluster.{Object, key_of, with_version, meta_of}
use k8s_mtp.Store.{Postgres}
use k8s_mtp.Reconciler.Diff.{needs_update}
use k8s_mtp.Reconciler.Kube.{
  Client, Answer, ok, err, ApiError, already_exists, not_found, other, Error, IsKept,
}
use k8s_mtp.Reconciler.Rules.{State, Keeps, Yields, key_of-with_version, create_or_update-Keeps}
use k8s_mtp.Reconciler.{
  Outcome, returned, raised, panicked, M, continue, ◌>>=◌, or_raise, or_panic, write_over,
  update_existing, after_create, create_or_update, pure,
}

module _ (k : Resources) (c : Client k) (pg : Postgres) (cfg : Config) (kept : IsKept k c) where
  -- From a cluster where `P` holds, the step returns only in one where `Q` of its value holds.
  pub record Ends {A : Type 0} (P : c.World → Type 0) (m : M k c pg cfg A)
      (Q : A → c.World → Type 0) : Type 0 where
    pub ends : (s : State k c pg cfg kept) (a : A) → P s.0 → (m s).0 ≡ returned a → Q a (m s).1.0

  continue-Ends :
      {A B : Type 0} (Q : A → c.World → Type 0) (R : B → c.World → Type 0) (f : A → M k c pg cfg B)
      (r : Outcome A) (s : State k c pg cfg kept) (b : B)
      → ((a : A) → r ≡ returned a → Q a s.0)
      → ((a : A) → r ≡ returned a → Ends (Q a) (f a) R)
      → (continue k c pg cfg r f s).0 ≡ returned b
      → R b (continue k c pg cfg r f s).1.0
  continue-Ends Q R f (returned a) s b h h' e = (h' a refl).ends s b (h a refl) e
  continue-Ends Q R f (raised x) s b h h' e = cc
  continue-Ends Q R f panicked s b h h' e = cc

  pub >>=-Ends :
      {A B : Type 0} {P : c.World → Type 0} (Q : A → c.World → Type 0) (R : B → c.World → Type 0)
      (m : M k c pg cfg A) (f : A → M k c pg cfg B)
      → Ends P m Q
      → ((a : A) → Yields k c pg cfg kept m a → Ends (Q a) (f a) R)
      → Ends P (◌>>=◌ k c pg cfg m f) R
  unfolding ◌>>=◌
  >>=-Ends Q R m f h h' = record {
    ends = λ s b p e.
        continue-Ends Q R f (m s).0 (m s).1 b (λ a d. h.ends s a p d)
          (λ a d. h' a (record { before = s; yields = d })) e;
  }

  pub pure-Ends : {A : Type 0} (P : c.World → Type 0) (a : A) → Ends P (pure k c pg cfg a) (λ _. P)
  pure-Ends P a = record { ends = λ s b p e. p }

  -- An object is kept under the key of the desired one, and either it does not need an update, or it is
  -- what the API server makes of the desired one.
  pub record Holds (o : Object (k.Quantity)) (w : c.World) : Type 0 where
    pub current : Object (k.Quantity)
    pub present : kept.stored w (key_of o) ≡ some current
    pub settled :
        (needs_update k current o ≡ some false)
        ⊎ ((v : String) × (current ≡ with_version v (kept.admitted o)))

  Holds-stored :
      (o : Object (k.Quantity)) (w w' : c.World)
      → kept.stored w' (key_of o) ≡ kept.stored w (key_of o)
      → Holds o w
      → Holds o w'
  Holds-stored o w w' e h = record {
    current = h.current;
    present = e ∙ h.present;
    settled = h.settled;
  }

  or_raise-Ends :
      {A : Type 0} (Q : A → c.World → Type 0) (f : ApiError → Error) (r : Answer A)
      → Ends (λ w. (a : A) → r ≡ ok a → Q a w) (or_raise k c pg cfg f r) Q
  or_raise-Ends Q f (ok a) = record { ends = λ s b p e. p b (ground arith) }
  or_raise-Ends Q f (err x) = record { ends = λ s b p e. cc }

  or_panic-Ends :
      {A : Type 0} (P : c.World → Type 0) (o : Option A)
      → Ends P (or_panic k c pg cfg o) (λ a w. (o ≡ some a) × P w)
  or_panic-Ends P none = record { ends = λ s b p e. cc }
  or_panic-Ends P (some a) = record { ends = λ s b p e. (ground arith, p) }

  write_over-Ends :
      (current o : Object (k.Quantity))
      → Ends (λ _. Unit {0}) (write_over k c pg cfg current o) (λ _. Holds o)
  unfolding write_over
  write_over-Ends current o =
      >>=-Ends (λ a w. (u : Unit {0}) → a ≡ ok u → Holds o w) (λ _. Holds o) _ _
        (record { ends = λ s a _ e u f. written s.0 (ground arith) })
        (λ a _. or_raise-Ends (λ _. Holds o) _ a)
    where
      sent : Object (k.Quantity)
      sent = with_version (meta_of current).resource_version o

      written : (w : c.World) → (c.update sent w).0 ≡ ok tt → Holds o (c.update sent w).1
      written w e =
          let (v, kept_now) = kept.update_ok sent w e in
          record {
            current = with_version v (kept.admitted o);
            present =
                rw (← key_of-with_version (meta_of current).resource_version o)
                  (kept_now ∙ ap some (kept.admitted_version v _ o));
            settled = inr (v, refl);
          }

  update_existing-Ends :
      (o : Object (k.Quantity)) → Ends (λ _. Unit {0}) (update_existing k c pg cfg o) (λ _. Holds o)
  unfolding update_existing
  update_existing-Ends o =
      >>=-Ends (λ a w. (s : Object (k.Quantity)) → a ≡ ok s → Found s w) (λ _. Holds o) _ _
        (record {
          ends = λ s a _ e cur f. kept.get_frame o s.0 _ ∙ kept.get_ok o s.0 cur (ground arith);
        })
        λ found _.
          >>=-Ends Found (λ _. Holds o) _ _ (or_raise-Ends Found _ found)
            λ current _.
              >>=-Ends _ (λ _. Holds o) _ _
                (or_panic-Ends (Found current) (needs_update k current o))
                λ changed _. decide current changed
    where
      Found : Object (k.Quantity) → c.World → Type 0
      Found s w = kept.stored w (key_of o) ≡ some s

      decide :
          (current : Object (k.Quantity)) (changed : Bool)
          → Ends
              (λ w. (needs_update k current o ≡ some changed) × Found current w)
              (if not changed then pure k c pg cfg tt else write_over k c pg cfg current o)
              (λ _. Holds o)
      decide current true = record { ends = λ s a _ e. (write_over-Ends current o).ends s a tt e }
      decide current false = record {
        ends = λ s a p e. record { current = current; present = p.1; settled = inl p.0 };
      }

  after_create-Ends :
      (o : Object (k.Quantity)) (a : Answer (Unit {0}))
      → Ends (λ w. a ≡ ok tt → Holds o w) (after_create k c pg cfg o a) (λ _. Holds o)
  after_create-Ends o (ok tt) = record { ends = λ s b p e. p refl }
  after_create-Ends o (err (already_exists m)) = record {
    ends = λ s b p e. (update_existing-Ends o).ends s b tt e;
  }
  after_create-Ends o (err (not_found m)) = record { ends = λ s b p e. cc }
  after_create-Ends o (err (other m)) = record { ends = λ s b p e. cc }

  -- When `createOrUpdate` returns, the object is there as it is wanted.
  create_or_update-Ends :
      (o : Object (k.Quantity))
      → Ends (λ _. Unit {0}) (create_or_update k c pg cfg o) (λ _. Holds o)
  unfolding create_or_update
  create_or_update-Ends o =
      >>=-Ends (λ a w. a ≡ ok tt → Holds o w) (λ _. Holds o) _ _
        (record { ends = λ s a _ e f. written s.0 (ground arith) }) (λ a _. after_create-Ends o a)
    where
      written : (w : c.World) → (c.create o w).0 ≡ ok tt → Holds o (c.create o w).1
      written w e =
          let (v, kept_now) = kept.create_ok o w e in
          record {
            current = with_version v (kept.admitted o);
            present = kept_now;
            settled = inr (v, refl);
          }

  -- Several objects hold at once.
  abbrev pub AllHold : List (Object (k.Quantity)) → c.World → Type 0
  AllHold os w = All (λ o. Holds o w) os

  AllHold-stored :
      (os : List (Object (k.Quantity))) (w w' : c.World)
      → All (λ o. kept.stored w' (key_of o) ≡ kept.stored w (key_of o)) os
      → AllHold os w
      → AllHold os w'
  AllHold-stored [] w w' h p = tt
  AllHold-stored (o ∷ os) w w' (e, h) (p, ps) =
      (Holds-stored o w w' e p, AllHold-stored os w w' h ps)

  -- A step that keeps the keys of the objects keeps the objects.
  pub Keeps-Ends :
      {A : Type 0} (os : List (Object (k.Quantity))) (m : M k c pg cfg A)
      → All (λ o. Keeps k c pg cfg kept (key_of o) m) os
      → Ends (AllHold os) m (λ _. AllHold os)
  Keeps-Ends os m h = record {
    ends = λ s a p e. AllHold-stored os s.0 _ (All-map (λ o h. h.keeps s) os h) p;
  }

  -- A further `createOrUpdate`, of an object with a key of its own.
  pub create_or_update-AllHold :
      (os : List (Object (k.Quantity))) (o : Object (k.Quantity))
      → All (λ p. key_of p ≢ key_of o) os
      → Ends (AllHold os) (create_or_update k c pg cfg o) (λ _. AllHold (o ∷ os))
  create_or_update-AllHold os o apart = record {
    ends = λ s a p e. (
      (create_or_update-Ends o).ends s a tt e,
      (Keeps-Ends os _
            (All-map (λ p h. create_or_update-Keeps k c pg cfg kept (key_of p) o h) os apart)).ends
          s a p e,
    );
  }
