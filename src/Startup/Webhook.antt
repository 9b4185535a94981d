-- ===== src/Startup/Webhook.antt =====
-- cmd/webhook/main.go: the server of the webhook, and where internal/webhook/manager.go leads to it.
use k8s_mtp.Common.{String, Option, none, some, ◌==◌, ◌<>◌, ◌≡◌, refl, if◌then◌else◌, lookup}
use k8s_mtp.Webhooks.{Secret}
use k8s_mtp.Manager.{
  WebhookManager, tls_secret, webhook_deployment, validating_configuration, mutating_configuration,
}
use k8s_mtp.Startup.{Result, ok, err, Ending, exited, returned}

abbrev pub cert_file : String
cert_file = "/etc/webhook/tls/tls.crt"

abbrev pub key_file : String
key_file = "/etc/webhook/tls/tls.key"

abbrev pub listen_port : String
listen_port = ":8443"

pub data WebhookEndpoint : Type 0 where
  validate_pod health mutate_pod : WebhookEndpoint

-- The handlers by their paths.
unfoldable pub webhook_mux : String → Option WebhookEndpoint
webhook_mux path =
    if path == "/validate-pod"
    then some validate_pod
    else if path == "/healthz"
    then some health
    else if path == "/mutate-pod"
    then some mutate_pod
    else none

-- crypto/tls and net/http, as a parameter.
pub record TlsServer (World : Type 0) : Type 1 where
  pub KeyPair : Type 0
  pub load_x509_key_pair : String → String → World → Result KeyPair × World
  pub listen_and_serve_tls :
      String → KeyPair → (String → Option WebhookEndpoint) → World → Result (Unit {0}) × World

module _ {World : Type 0} (tls : TlsServer World) where
  unfoldable pub listen : Result (tls.KeyPair) × World → Ending × World
  unfolding webhook_mux
  listen (err e, w) = (exited 1, w)
  listen (ok cert, w) =
      let (answer, w') = tls.listen_and_serve_tls listen_port cert webhook_mux w in
      elim answer [ err e ↦ (exited 1, w') | ok u ↦ (returned, w') ]

  unfoldable pub main : World → Ending × World
  unfolding listen
  main w = listen (tls.load_x509_key_pair cert_file key_file w)

-- The file at a path of the container: the entry of the secret that is mounted there.
abbrev mounted : WebhookManager → Secret → String → Option String
mounted w s name =
    if (webhook_deployment w).volume_secret == s.name then lookup name s.data_entries else none

abbrev path_of : WebhookManager → String → String
path_of w name = (webhook_deployment w).volume_mount.mount_path <> ("/" <> name)

-- The files that the server reads are those of the secret under the path of the mount, with the certificate and
-- the key that were made; and the paths of both webhook configurations have their handlers.
webhook-mounted :
    (w : WebhookManager) (ca cert key : String) (bundle : Option String)
    → (path_of w "tls.crt" ≡ cert_file)
      × (mounted w (tls_secret w ca cert key) "tls.crt" ≡ some cert)
      × (path_of w "tls.key" ≡ key_file)
      × (mounted w (tls_secret w ca cert key) "tls.key" ≡ some key)
      × (webhook_mux (validating_configuration w bundle).path ≡ some validate_pod)
      × (webhook_mux (mutating_configuration w bundle).path ≡ some mutate_pod)
unfolding tls_secret webhook_deployment validating_configuration mutating_configuration webhook_mux
    lookup
webhook-mounted w ca cert key bundle = (refl, refl, refl, refl, refl, refl)
