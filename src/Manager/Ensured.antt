-- ===== src/Manager/Ensured.antt =====
-- What is in the cluster after internal/webhook/manager.go has installed the webhook.
use k8s_mtp.Common.{◌≡◌}
use k8s_mtp.Manager.{
  Client, Certificates, done, WebhookManager, ensure_tls_secret, ensure_deployment, ensure_service,
  ensure_validating_webhook_config, ensure_mutating_webhook_configuration, step_then, nothing,
  ensure_all, M,
}
use k8s_mtp.Manager.Serving.{
  IsServing, tls_key, deployment_key, service_key, validating_key, mutating_key, Present, Keeps,
  step_then-Keeps, step_then-Ensures, later-Ensures,
}
use k8s_mtp.Manager.Steps.{
  ensure_tls_secret-IsStep, ensure_deployment-IsStep, ensure_service-IsStep,
  ensure_validating-IsStep, ensure_mutating-IsStep,
}

module _ (c : Client) (v : IsServing c) (certs : Certificates) (w : WebhookManager) where
  nothing-Keeps : (Keeps c v certs w) (nothing c certs w)
  nothing-Keeps world key old h = h

  -- `EnsureAll` from one of its steps on.
  abbrev from_mutating : M c certs w
  from_mutating =
      step_then c certs w "failed to ensure mutating webhook config"
        (ensure_mutating_webhook_configuration c certs w) (nothing c certs w)

  from_mutating-Keeps : (Keeps c v certs w) from_mutating
  from_mutating-Keeps =
      (step_then-Keeps c v certs w) "failed to ensure mutating webhook config"
        (ensure_mutating_webhook_configuration c certs w) (nothing c certs w)
        (ensure_mutating-IsStep c v certs w).keeps nothing-Keeps

  abbrev from_validating : M c certs w
  from_validating =
      step_then c certs w "failed to ensure webhook config"
        (ensure_validating_webhook_config c certs w) from_mutating

  from_validating-Keeps : (Keeps c v certs w) from_validating
  from_validating-Keeps =
      (step_then-Keeps c v certs w) "failed to ensure webhook config"
        (ensure_validating_webhook_config c certs w) from_mutating
        (ensure_validating-IsStep c v certs w).keeps from_mutating-Keeps

  abbrev from_service : M c certs w
  from_service =
      step_then c certs w "failed to ensure service" (ensure_service c certs w) from_validating

  from_service-Keeps : (Keeps c v certs w) from_service
  from_service-Keeps =
      (step_then-Keeps c v certs w) "failed to ensure service" (ensure_service c certs w)
        from_validating (ensure_service-IsStep c v certs w).keeps from_validating-Keeps

  abbrev from_deployment : M c certs w
  from_deployment =
      step_then c certs w "failed to ensure deployment" (ensure_deployment c certs w) from_service

  from_deployment-Keeps : (Keeps c v certs w) from_deployment
  from_deployment-Keeps =
      (step_then-Keeps c v certs w) "failed to ensure deployment" (ensure_deployment c certs w)
        from_service (ensure_deployment-IsStep c v certs w).keeps from_service-Keeps

  -- The five objects of the webhook.
  pub record IsInstalled (world : c.World) : Type 0 where
    pub has_secret : (Present c v certs w) world (tls_key c v certs w)
    pub has_deployment : (Present c v certs w) world (deployment_key c v certs w)
    pub has_service : (Present c v certs w) world (service_key c v certs w)
    pub has_validating : (Present c v certs w) world (validating_key c v certs w)
    pub has_mutating : (Present c v certs w) world (mutating_key c v certs w)

  -- When `EnsureAll` succeeds, the secret, the deployment, the service and both webhook configurations are
  -- in the cluster.
  pub ensure_all-IsInstalled :
      (world : c.World)
      → (ensure_all c certs w world).0 ≡ done
      → IsInstalled (ensure_all c certs w world).1
  unfolding ensure_all
  ensure_all-IsInstalled world e = record {
    has_secret =
        (step_then-Ensures c v certs w) _ (tls_key c v certs w) (ensure_tls_secret c certs w)
          from_deployment (ensure_tls_secret-IsStep c v certs w).ensures from_deployment-Keeps world
          e;
    has_deployment =
        (later-Ensures c v certs w) _ (deployment_key c v certs w) (ensure_tls_secret c certs w)
          from_deployment
          ((step_then-Ensures c v certs w) _ (deployment_key c v certs w)
            (ensure_deployment c certs w) from_service
            (ensure_deployment-IsStep c v certs w).ensures from_service-Keeps)
          world e;
    has_service =
        (later-Ensures c v certs w) _ (service_key c v certs w) (ensure_tls_secret c certs w)
          from_deployment
          ((later-Ensures c v certs w) _ (service_key c v certs w) (ensure_deployment c certs w)
            from_service
            ((step_then-Ensures c v certs w) _ (service_key c v certs w) (ensure_service c certs w)
              from_validating (ensure_service-IsStep c v certs w).ensures from_validating-Keeps))
          world e;
    has_validating =
        (later-Ensures c v certs w) _ (validating_key c v certs w) (ensure_tls_secret c certs w)
          from_deployment
          ((later-Ensures c v certs w) _ (validating_key c v certs w) (ensure_deployment c certs w)
            from_service
            ((later-Ensures c v certs w) _ (validating_key c v certs w) (ensure_service c certs w)
              from_validating
              ((step_then-Ensures c v certs w) _ (validating_key c v certs w)
                (ensure_validating_webhook_config c certs w) from_mutating
                (ensure_validating-IsStep c v certs w).ensures from_mutating-Keeps)))
          world e;
    has_mutating =
        (later-Ensures c v certs w) _ (mutating_key c v certs w) (ensure_tls_secret c certs w)
          from_deployment
          ((later-Ensures c v certs w) _ (mutating_key c v certs w) (ensure_deployment c certs w)
            from_service
            ((later-Ensures c v certs w) _ (mutating_key c v certs w) (ensure_service c certs w)
              from_validating
              ((later-Ensures c v certs w) _ (mutating_key c v certs w)
                (ensure_validating_webhook_config c certs w) from_mutating
                ((step_then-Ensures c v certs w) _ (mutating_key c v certs w)
                  (ensure_mutating_webhook_configuration c certs w) (nothing c certs w)
                  (ensure_mutating-IsStep c v certs w).ensures nothing-Keeps))))
          world e;
  }
