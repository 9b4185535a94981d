-- ===== src/Tests/Installs.antt =====
-- internal/webhook/manager.go on a concrete cluster.
use k8s_mtp.Common.{
  ℕ, String, Bool, true, ◌&&◌, Option, none, some, ◌≡◌, refl, ap, arith, ◌==◌, eq_iff, eq_refl,
  nat_eq, if◌then◌else◌, Bool-cases, inl, inr,
}
use k8s_mtp.Reconciler.Kube.{Answer, ok, err, already_exists, not_found, other}
use k8s_mtp.Webhooks.{
  Secret, Resource, secret, deployment, service, validating, mutating, Kind, secret_kind,
  deployment_kind, service_kind, validating_kind, mutating_kind, Key, key_of,
}
use k8s_mtp.Manager.{
  Client, Certificates, WebhookManager, done, step_then, ensure_tls_secret, ensure_deployment,
  ensure_service, ensure_mutating_webhook_configuration, find_then, if_absent, create_secret,
  create_checked, with_ca, webhook_deployment, webhook_service, validating_configuration,
  mutating_configuration, ensure_all, ensure_validating_webhook_config, tls_secret,
}
use k8s_mtp.Manager.Serving.{IsServing}
use k8s_mtp.Manager.Ensured.{IsInstalled, ensure_all-IsInstalled}

abbrev kind_code : Kind → ℕ
kind_code secret_kind = 0
kind_code deployment_kind = 1
kind_code service_kind = 2
kind_code validating_kind = 3
kind_code mutating_kind = 4

abbrev same_key : Key → Key → Bool
same_key j k = nat_eq (kind_code j.0) (kind_code k.0) && (j.1 == k.1 && j.2 == k.2)

kind_code_sound : (j k : Kind) → nat_eq (kind_code j) (kind_code k) ≡ true → j ≡ k
kind_code_sound secret_kind secret_kind e = refl
kind_code_sound secret_kind deployment_kind e = absurd (ground (arith, e))
kind_code_sound secret_kind service_kind e = absurd (ground (arith, e))
kind_code_sound secret_kind validating_kind e = absurd (ground (arith, e))
kind_code_sound secret_kind mutating_kind e = absurd (ground (arith, e))
kind_code_sound deployment_kind secret_kind e = absurd (ground (arith, e))
kind_code_sound deployment_kind deployment_kind e = refl
kind_code_sound deployment_kind service_kind e = absurd (ground (arith, e))
kind_code_sound deployment_kind validating_kind e = absurd (ground (arith, e))
kind_code_sound deployment_kind mutating_kind e = absurd (ground (arith, e))
kind_code_sound service_kind secret_kind e = absurd (ground (arith, e))
kind_code_sound service_kind deployment_kind e = absurd (ground (arith, e))
kind_code_sound service_kind service_kind e = refl
kind_code_sound service_kind validating_kind e = absurd (ground (arith, e))
kind_code_sound service_kind mutating_kind e = absurd (ground (arith, e))
kind_code_sound validating_kind secret_kind e = absurd (ground (arith, e))
kind_code_sound validating_kind deployment_kind e = absurd (ground (arith, e))
kind_code_sound validating_kind service_kind e = absurd (ground (arith, e))
kind_code_sound validating_kind validating_kind e = refl
kind_code_sound validating_kind mutating_kind e = absurd (ground (arith, e))
kind_code_sound mutating_kind secret_kind e = absurd (ground (arith, e))
kind_code_sound mutating_kind deployment_kind e = absurd (ground (arith, e))
kind_code_sound mutating_kind service_kind e = absurd (ground (arith, e))
kind_code_sound mutating_kind validating_kind e = absurd (ground (arith, e))
kind_code_sound mutating_kind mutating_kind e = refl

same_key_sound : (j k : Key) → same_key j k ≡ true → j ≡ k
same_key_sound (a, b, c) (x, y, z) e =
    pairs (kind_code_sound a x (ground (arith, e))) ((eq_iff b y).0 (ground (arith, e)))
      ((eq_iff c z).0 (ground (arith, e)))
  where
    pairs : {a x : Kind} {b y c z : String} → a ≡ x → b ≡ y → c ≡ z → Path Key (a, b, c) (x, y, z)
    pairs p q r = λ i. (p i, q i, r i)

same_key_refl : (k : Key) → same_key k k ≡ true
same_key_refl k = ground (arith, eq_refl k.1, eq_refl k.2)

abbrev pub Objects : Type 0
Objects = Key → Option Resource

abbrev set_object : Resource → Objects → Objects
set_object r w j = if same_key j (key_of r) then some r else w j

abbrev secret_in : Option Resource → Answer Secret
secret_in none = err (not_found "secret")
secret_in (some (secret s)) = ok s
secret_in (some (deployment d)) = err (other "type")
secret_in (some (service s)) = err (other "type")
secret_in (some (validating c)) = err (other "type")
secret_in (some (mutating c)) = err (other "type")

abbrev found : Option Resource → Answer (Unit {0})
found none = err (not_found "object")
found (some r) = ok tt

abbrev create_in : Option Resource → Resource → Objects → Answer (Unit {0}) × Objects
create_in none r w = (ok tt, set_object r w)
create_in (some old) r w = (err (already_exists "object"), w)

abbrev pub client : Client
client = record {
  World = Objects;
  get_secret = λ namespace name w. (secret_in (w (secret_kind, namespace, name)), w);
  find = λ key w. (found (w key), w);
  create = λ r w. create_in (w (key_of r)) r w;
}

pub secret_in_ok : (o : Option Resource) (s : Secret) → secret_in o ≡ ok s → o ≡ some (secret s)
secret_in_ok none s e = absurd (ground (arith, e))
secret_in_ok (some (secret t)) s e = ground (arith, e)
secret_in_ok (some (deployment d)) s e = absurd (ground (arith, e))
secret_in_ok (some (service t)) s e = absurd (ground (arith, e))
secret_in_ok (some (validating c)) s e = absurd (ground (arith, e))
secret_in_ok (some (mutating c)) s e = absurd (ground (arith, e))

pub found_ok : (o : Option Resource) → found o ≡ ok tt → (r : Resource) × (o ≡ some r)
found_ok none e = absurd (ground (arith, e))
found_ok (some r) e = (r, refl)

pub created_found :
    (o : Option Resource) (r : Resource) (w : Objects)
    → (create_in o r w).0 ≡ ok tt
    → (create_in o r w).1 (key_of r) ≡ some r
created_found none r w e = rw (same_key_refl (key_of r)) refl
created_found (some old) r w e = absurd (ground (arith, e))

pub kept_found :
    (o : Option Resource) (r old : Resource) (w : Objects) (j : Key)
    → w j ≡ some old
    → w (key_of r) ≡ o
    → (create_in o r w).1 j ≡ some old
kept_found (some x) r old w j e f = e
kept_found none r old w j e f = elim (Bool-cases (same_key j (key_of r))) [
  | inl g ↦ absurd (ground (arith, ap w (same_key_sound j (key_of r) g), e, f))
  | inr g ↦ rw g e
]

abbrev pub serving : IsServing client
serving = record {
  stored = λ w key. w key;
  admitted = λ r. r;
  find_ok = λ key w e. found_ok (w key) e;
  find_frame = λ key j w. refl;
  get_secret_frame = λ namespace name j w. refl;
  get_secret_ok = λ namespace name s w e. secret_in_ok (w (secret_kind, namespace, name)) s e;
  admitted_validating = λ x. (x, refl, refl);
  create_ok = λ r w e. created_found (w (key_of r)) r w e;
  create_kept = λ r old w j e. kept_found (w (key_of r)) r old w j e refl;
}

abbrev pub certificates : Certificates
certificates = record {
  generate_ca = some ("ca", "ca-key");
  generate_server_cert = λ cert key. some ("cert", "key");
}

abbrev manager : WebhookManager
manager = record { namespace = "k8s-mtp"; image = "webhook:1" }

abbrev pub bare : Objects
bare key = none

abbrev with_secret : Objects
with_secret = set_object (secret (tls_secret manager "ca" "cert" "key")) bare

all_done : (ensure_all client certificates manager bare).0 ≡ done
unfolding ensure_all step_then ensure_tls_secret ensure_deployment ensure_service
    ensure_validating_webhook_config ensure_mutating_webhook_configuration find_then if_absent
    create_secret create_checked with_ca tls_secret webhook_deployment webhook_service
    validating_configuration mutating_configuration
all_done = refl

ensure_all-IsInstalled_example :
    IsInstalled client serving certificates manager (ensure_all client certificates manager bare).1
ensure_all-IsInstalled_example =
    ensure_all-IsInstalled client serving certificates manager bare all_done

step_done : (ensure_validating_webhook_config client certificates manager with_secret).0 ≡ done
unfolding ensure_validating_webhook_config find_then if_absent create_checked with_ca tls_secret
    validating_configuration
step_done = refl

nothing_there : with_secret (validating_kind, "", "k8s-mtp-webhook") ≡ none
unfolding tls_secret
nothing_there = refl
