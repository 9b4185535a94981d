-- ===== src/Manager.antt =====
-- internal/webhook/manager.go: how the controller installs the admission webhook.
pub mod Serving
pub mod Steps
pub mod Ensured
pub mod Agreed
use k8s_mtp.Common.{ℕ, String, Bool, true, Option, none, some, List, [], ◌∷◌, lookup, ◌<>◌}
use k8s_mtp.Reconciler.Kube.{ApiError, already_exists, not_found, other, Answer, ok, err}
use k8s_mtp.Webhooks.{
  Secret, VolumeMount, Deployment, Service, WebhookConfiguration, Resource, secret, deployment,
  service, validating, mutating, Kind, secret_kind, deployment_kind, service_kind, validating_kind,
  mutating_kind, Key, key_of,
}

-- The client of controller-runtime, as a parameter. `find` is `Get` where the code looks only at whether
-- there is an object.
pub record Client : Type 1 where
  pub World : Type 0
  pub get_secret : String → String → World → Answer Secret × World
  pub find : Key → World → Answer (Unit {0}) × World
  pub create : Resource → World → Answer (Unit {0}) × World

-- What pkg/webhook/tls.go makes with the cryptographic libraries, as a parameter: the certificate of an
-- authority with its key, and of the server with its key. `none` is an error.
pub record Certificates : Type 0 where
  pub generate_ca : Option (String × String)
  pub generate_server_cert : String → String → Option (String × String)

pub data Outcome : Type 0 where
  done : Outcome
  failed : String → Outcome
  failed_api : String → ApiError → Outcome

pub record WebhookManager : Type 0 where
  pub namespace : String
  pub image : String

abbrev app_webhook : List (String × String)
app_webhook = ("app", "webhook") ∷ []

unfoldable pub tls_secret : WebhookManager → String → String → String → Secret
tls_secret w ca_cert server_cert server_key = record {
  namespace = w.namespace;
  name = "webhook-tls";
  data_entries = ("ca.crt", ca_cert) ∷ ("tls.crt", server_cert) ∷ ("tls.key", server_key) ∷ [];
  secret_type = "kubernetes.io/tls";
}

unfoldable pub webhook_deployment : WebhookManager → Deployment
webhook_deployment w = record {
  namespace = w.namespace;
  name = "webhook";
  labels = app_webhook;
  match_labels = app_webhook;
  pod_labels = app_webhook;
  container_name = "webhook";
  image = w.image;
  image_pull_policy = "IfNotPresent";
  container_port = 8443;
  protocol = "TCP";
  volume_mount = record { name = "webhook-tls"; mount_path = "/etc/webhook/tls"; read_only = true };
  volume_name = "webhook-tls";
  volume_secret = "webhook-tls";
}

unfoldable pub webhook_service : WebhookManager → Service
webhook_service w = record {
  namespace = w.namespace;
  name = "webhook-svc";
  labels = app_webhook;
  port = 443;
  target_port = 8443;
  selector = app_webhook;
}

unfoldable pub validating_configuration : WebhookManager → Option String → WebhookConfiguration
validating_configuration w ca_cert = record {
  name = "k8s-mtp-webhook";
  webhook_name = "k8s-mtp-webhook.k8s-mtp.io";
  service_name = "webhook-svc";
  service_namespace = w.namespace;
  path = "/validate-pod";
  ca_bundle = ca_cert;
  operations = "CREATE" ∷ "UPDATE" ∷ [];
  api_groups = "" ∷ [];
  api_versions = "v1" ∷ [];
  resources = "pods" ∷ [];
  failure_policy = "Fail";
  side_effects = "None";
  review_versions = "v1" ∷ [];
  reinvocation_policy = none;
  namespace_selector = ("tenant.k8s-mtp.io/managed", "true") ∷ [];
}

unfoldable pub mutating_configuration : WebhookManager → Option String → WebhookConfiguration
mutating_configuration w ca_cert = record {
  name = "k8s-mtp-mutating-webhook";
  webhook_name = "k8s-mtp-mutating-webhook.k8s-mtp.io";
  service_name = "webhook-svc";
  service_namespace = w.namespace;
  path = "/mutate-pod";
  ca_bundle = ca_cert;
  operations = "CREATE" ∷ "UPDATE" ∷ [];
  api_groups = "" ∷ [];
  api_versions = "v1" ∷ [];
  resources = "pods" ∷ [];
  failure_policy = "Fail";
  side_effects = "None";
  review_versions = "v1" ∷ [];
  reinvocation_policy = some "Never";
  namespace_selector = ("tenant.k8s-mtp.io/managed", "true") ∷ [];
}

module _ (c : Client) (certs : Certificates) (w : WebhookManager) where
  open c use {World, get_secret, find, create}

  abbrev pub M : Type 0
  M = World → Outcome × World

  unfoldable pub create_checked : String → Resource → M
  create_checked text r world =
      let (answer, world') = create r world in
      elim answer [ ok u ↦ (done, world') | err e ↦ (failed_api text e, world') ]

  -- What follows a `Get`: nothing if the object is there, and the rest of the step if it is not.
  unfoldable pub if_absent : String → M → Answer (Unit {0}) → M
  if_absent text absent (ok u) world = (done, world)
  if_absent text absent (err (not_found m)) world = absent world
  if_absent text absent (err (already_exists m)) world = (failed_api text (already_exists m), world)
  if_absent text absent (err (other m)) world = (failed_api text (other m), world)

  unfoldable pub find_then : String → Key → M → M
  unfolding if_absent
  find_then text key absent world =
      let (answer, world') = find key world in if_absent text absent answer world'

  unfoldable pub create_secret : M
  unfolding create_checked tls_secret
  create_secret world = elim certs.generate_ca [
    | none ↦ (failed "error generating CA certs", world)
    | some (ca_cert, ca_key) ↦ elim (certs.generate_server_cert ca_cert ca_key) [
      | none ↦ (failed "error generating server certs", world)
      | some (server_cert, server_key) ↦
          create_checked "failed to create secret"
            (secret (tls_secret w ca_cert server_cert server_key)) world
    ]
  ]

  unfoldable pub ensure_tls_secret : M
  unfolding find_then create_secret
  ensure_tls_secret =
      find_then "failed to get secret" (secret_kind, w.namespace, "webhook-tls") create_secret

  unfoldable pub ensure_deployment : M
  unfolding find_then create_checked webhook_deployment
  ensure_deployment =
      find_then "failed to get deployment" (deployment_kind, w.namespace, "webhook")
        (create_checked "failed to create deployment" (deployment (webhook_deployment w)))

  unfoldable pub ensure_service : M
  unfolding find_then create_checked webhook_service
  ensure_service =
      find_then "failed to get service" (service_kind, w.namespace, "webhook-svc")
        (create_checked "failed to create service" (service (webhook_service w)))

  -- What follows when the secret was read: its certificate goes into the configuration.
  unfoldable pub with_ca : (Option String → M) → Answer Secret → M
  with_ca next (ok s) world = next (lookup "ca.crt" s.data_entries) world
  with_ca next (err e) world = (failed_api "error getting secret" e, world)

  unfoldable pub ensure_validating_webhook_config : M
  unfolding find_then create_checked with_ca validating_configuration
  ensure_validating_webhook_config world =
      let (answer, world') = get_secret w.namespace "webhook-tls" world in
      with_ca
        (λ ca_cert.
          find_then "failed to get webhook config validation"
            (validating_kind, "", "k8s-mtp-webhook")
            (create_checked "failed to create webhook config"
              (validating (validating_configuration w ca_cert))))
        answer world'

  unfoldable pub ensure_mutating_webhook_configuration : M
  unfolding find_then create_checked with_ca mutating_configuration
  ensure_mutating_webhook_configuration world =
      let (answer, world') = get_secret w.namespace "webhook-tls" world in
      with_ca
        (λ ca_cert.
          find_then "failed to get mutating webhook config validation"
            (mutating_kind, "", "k8s-mtp-mutating-webhook")
            (create_checked "failed to create mutating webhook config"
              (mutating (mutating_configuration w ca_cert))))
        answer world'

  -- `if err := step; err != nil { return fmt.Errorf("…: %w", err) }`, and then the rest.
  unfoldable pub step_then : String → M → M → M
  step_then text step next world =
      let (outcome, world') = step world in
      elim outcome [
        | done ↦ next world'
        | failed e ↦ (failed (text <> (": " <> e)), world')
        | failed_api e cause ↦ (failed_api (text <> (": " <> e)) cause, world')
      ]

  abbrev pub nothing : M
  nothing world = (done, world)

  unfoldable pub ensure_all : M
  unfolding step_then ensure_tls_secret ensure_deployment ensure_service
      ensure_validating_webhook_config ensure_mutating_webhook_configuration
  ensure_all = step_then "failed to ensure TLS secret" ensure_tls_secret (
      step_then "failed to ensure deployment" ensure_deployment (
        step_then "failed to ensure service" ensure_service (
          step_then "failed to ensure webhook config" ensure_validating_webhook_config (
            step_then "failed to ensure mutating webhook config"
              ensure_mutating_webhook_configuration nothing))))
