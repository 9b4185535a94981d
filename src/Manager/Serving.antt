-- ===== src/Manager/Serving.antt =====
-- What internal/webhook/manager.go relies on in the API server, and what its steps come to.
use k8s_mtp.Common.{String, Option, some, ◌≡◌, ap, ◌∙◌, refl, arith}
use k8s_mtp.Reconciler.Kube.{Answer, ok, err, not_found, already_exists, other}
use k8s_mtp.Webhooks.{
  Secret, WebhookConfiguration, Resource, secret, validating, Key, key_of, secret_kind,
  deployment_kind, service_kind, validating_kind, mutating_kind,
}
use k8s_mtp.Manager.{
  Client, Certificates, Outcome, done, failed, failed_api, WebhookManager, create_checked,
  if_absent, find_then, step_then, M,
}

-- What the theorems rely on, while nobody else writes to the cluster and no read is stale: `stored` is the
-- object under a key, and `admitted` is what the API server makes of one that it accepts; a `Get` that
-- succeeds finds a stored object and changes none; the certificate of a webhook configuration is kept; a `Create` that succeeds stores what was sent, and
-- whatever it answers, what was there before stays as it was.
pub record IsServing (c : Client) : Type 0 where
  pub stored : c.World → Key → Option Resource
  pub admitted : Resource → Resource
  pub find_ok :
      (key : Key) (w : c.World)
      → (c.find key w).0 ≡ ok tt
      → (r : Resource) × (stored w key ≡ some r)
  pub find_frame : (key j : Key) (w : c.World) → stored (c.find key w).1 j ≡ stored w j
  pub get_secret_frame :
      (namespace name : String) (j : Key) (w : c.World)
      → stored (c.get_secret namespace name w).1 j ≡ stored w j
  pub get_secret_ok :
      (namespace name : String) (s : Secret) (w : c.World)
      → (c.get_secret namespace name w).0 ≡ ok s
      → stored w (secret_kind, namespace, name) ≡ some (secret s)
  pub admitted_validating :
      (x : WebhookConfiguration)
      → (y : WebhookConfiguration) × (admitted (validating x) ≡ validating y)
        × (y.ca_bundle ≡ x.ca_bundle)
  pub create_ok :
      (r : Resource) (w : c.World)
      → (c.create r w).0 ≡ ok tt
      → stored (c.create r w).1 (key_of r) ≡ some (admitted r)
  pub create_kept :
      (r old : Resource) (w : c.World) (j : Key)
      → stored w j ≡ some old
      → stored (c.create r w).1 j ≡ some old

module _ (c : Client) (v : IsServing c) (certs : Certificates) (w : WebhookManager) where
  abbrev pub tls_key : Key
  tls_key = (secret_kind, w.namespace, "webhook-tls")

  abbrev pub deployment_key : Key
  deployment_key = (deployment_kind, w.namespace, "webhook")

  abbrev pub service_key : Key
  service_key = (service_kind, w.namespace, "webhook-svc")

  abbrev pub validating_key : Key
  validating_key = (validating_kind, "", "k8s-mtp-webhook")

  abbrev pub mutating_key : Key
  mutating_key = (mutating_kind, "", "k8s-mtp-mutating-webhook")

  abbrev pub Present : c.World → Key → Type 0
  Present world key = (r : Resource) × (v.stored world key ≡ some r)

  -- Every object that is there stays as it is.
  abbrev pub Keeps : M c certs w → Type 0
  Keeps m =
      (world : c.World) (key : Key) (old : Resource)
      → v.stored world key ≡ some old
      → v.stored (m world).1 key ≡ some old

  -- Where the step succeeds, there is an object under the key.
  abbrev pub Ensures : Key → M c certs w → Type 0
  Ensures key m = (world : c.World) → (m world).0 ≡ done → Present (m world).1 key

  pub create_checked-Keeps :
      (text : String) (r : Resource) → Keeps (create_checked c certs w text r)
  unfolding create_checked
  create_checked-Keeps text r world key old h =
      let k = v.create_kept r old world key h in ground (arith, k)

  pub create_checked-Ensures :
      (text : String) (r : Resource) → Ensures (key_of r) (create_checked c certs w text r)
  unfolding create_checked
  create_checked-Ensures text r world e = by_answer (c.create r world).0 refl
    where
      by_answer :
          (answer : Answer (Unit {0}))
          → (c.create r world).0 ≡ answer
          → Present (create_checked c certs w text r world).1 (key_of r)
      by_answer (ok u) f = rw (f, create_checked) (v.admitted r, v.create_ok r world f)
      by_answer (err x) f = absurd (ground (arith, e, f))

  if_absent-Keeps :
      (text : String) (absent : M c certs w) (answer : Answer (Unit {0}))
      → Keeps absent
      → Keeps (if_absent c certs w text absent answer)
  unfolding if_absent
  if_absent-Keeps text absent (ok u) k world key old h = h
  if_absent-Keeps text absent (err (not_found m)) k world key old h = k world key old h
  if_absent-Keeps text absent (err (already_exists m)) k world key old h = h
  if_absent-Keeps text absent (err (other m)) k world key old h = h

  pub find_then-Keeps :
      (text : String) (j : Key) (absent : M c certs w)
      → Keeps absent
      → Keeps (find_then c certs w text j absent)
  unfolding find_then
  find_then-Keeps text j absent k world key old h =
      if_absent-Keeps text absent (c.find j world).0 k (c.find j world).1 key old
        (v.find_frame j key world ∙ h)

  pub find_then-Ensures :
      (text : String) (j : Key) (absent : M c certs w)
      → Ensures j absent
      → Ensures j (find_then c certs w text j absent)
  unfolding find_then if_absent
  find_then-Ensures text j absent k world e = by_answer (c.find j world).0 refl e
    where
      by_answer :
          (answer : Answer (Unit {0}))
          → (c.find j world).0 ≡ answer
          → (if_absent c certs w text absent answer (c.find j world).1).0 ≡ done
          → Present (if_absent c certs w text absent (c.find j world).0 (c.find j world).1).1 j
      by_answer (ok u) f g =
          let (r, there) = v.find_ok j world f in
          rw (f, if_absent) (r, v.find_frame j j world ∙ there)
      by_answer (err (not_found m)) f g = rw (f, if_absent) (k (c.find j world).1 g)
      by_answer (err (already_exists m)) f g = absurd (ground (arith, g))
      by_answer (err (other m)) f g = absurd (ground (arith, g))

  pub step_then-Keeps :
      (text : String) (m n : M c certs w) → Keeps m → Keeps n → Keeps (step_then c certs w text m n)
  unfolding step_then
  step_then-Keeps text m n k l world key old h = by_outcome (m world).0 refl
    where
      by_outcome :
          (o : Outcome)
          → (m world).0 ≡ o
          → v.stored (step_then c certs w text m n world).1 key ≡ some old
      by_outcome done f = rw (f, step_then) (l (m world).1 key old (k world key old h))
      by_outcome (failed x) f = rw (f, step_then) (k world key old h)
      by_outcome (failed_api x y) f = rw (f, step_then) (k world key old h)

  -- Where a step and the rest succeed, the step has succeeded, and the rest from where it ended.
  pub step_done :
      (text : String) (m n : M c certs w) (world : c.World)
      → (step_then c certs w text m n world).0 ≡ done
      → ((m world).0 ≡ done)
        × ((n (m world).1).0 ≡ done)
        × ((step_then c certs w text m n world).1 ≡ (n (m world).1).1)
  unfolding step_then
  step_done text m n world e = by_outcome (m world).0 refl
    where
      by_outcome :
          (o : Outcome)
          → (m world).0 ≡ o
          → ((m world).0 ≡ done)
            × ((n (m world).1).0 ≡ done)
            × ((step_then c certs w text m n world).1 ≡ (n (m world).1).1)
      by_outcome done f = (f, ground (arith, e, f), rw (f, step_then) refl)
      by_outcome (failed x) f = absurd (ground (arith, e, f))
      by_outcome (failed_api x y) f = absurd (ground (arith, e, f))

  pub step_then-Ensures :
      (text : String) (key : Key) (m n : M c certs w)
      → Ensures key m
      → Keeps n
      → Ensures key (step_then c certs w text m n)
  step_then-Ensures text key m n k l world e =
      let (first, rest, same) = step_done text m n world e in
      let (r, there) = k world first in
      (r, ap (λ x. v.stored x key) same ∙ l (m world).1 key r there)

  pub later-Ensures :
      (text : String) (key : Key) (m n : M c certs w)
      → Ensures key n
      → Ensures key (step_then c certs w text m n)
  later-Ensures text key m n k world e =
      let (first, rest, same) = step_done text m n world e in
      let (r, there) = k (m world).1 rest in (r, ap (λ x. v.stored x key) same ∙ there)
