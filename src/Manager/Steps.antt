-- ===== src/Manager/Steps.antt =====
-- The steps of internal/webhook/manager.go one by one.
use k8s_mtp.Common.{String, Option, ◌∙◌, arith, lookup, Option-cases, inl, inr}
use k8s_mtp.Reconciler.Kube.{Answer, ok, err}
use k8s_mtp.Webhooks.{
  Secret, Resource, secret, deployment, service, validating, mutating, Key, key_of,
}
use k8s_mtp.Manager.{
  Client, Certificates, WebhookManager, create_checked, find_then, create_secret, ensure_tls_secret,
  ensure_deployment, ensure_service, with_ca, ensure_validating_webhook_config,
  ensure_mutating_webhook_configuration, tls_secret, webhook_deployment, webhook_service,
  validating_configuration, mutating_configuration, M,
}
use k8s_mtp.Manager.Serving.{
  IsServing, tls_key, deployment_key, service_key, validating_key, mutating_key, Keeps, Ensures,
  create_checked-Keeps, create_checked-Ensures, find_then-Keeps, find_then-Ensures,
}

module _ (c : Client) (v : IsServing c) (certs : Certificates) (w : WebhookManager) where
  -- A step that leaves what is there as it is, and ensures an object.
  pub record IsStep (key : Key) (m : M c certs w) : Type 0 where
    pub keeps : (Keeps c v certs w) m
    pub ensures : (Ensures c v certs w) key m

  create_checked-IsStep :
      (text : String) (r : Resource) → IsStep (key_of r) (create_checked c certs w text r)
  create_checked-IsStep text r = record {
    keeps = (create_checked-Keeps c v certs w) text r;
    ensures = (create_checked-Ensures c v certs w) text r;
  }

  find_then-IsStep :
      (text : String) (key : Key) (absent : M c certs w)
      → IsStep key absent
      → IsStep key (find_then c certs w text key absent)
  find_then-IsStep text key absent k = record {
    keeps = (find_then-Keeps c v certs w) text key absent k.keeps;
    ensures = (find_then-Ensures c v certs w) text key absent k.ensures;
  }

  create_secret-IsStep : IsStep (tls_key c v certs w) (create_secret c certs w)
  unfolding create_secret tls_secret
  create_secret-IsStep = record {
    keeps = λ world key old h. elim (Option-cases certs.generate_ca) [
      | inl e ↦ rw (e, create_secret) h
      | inr ((ca, k), e) ↦ elim (Option-cases (certs.generate_server_cert ca k)) [
        | inl f ↦ rw (e, create_secret) (rw f h)
        | inr ((cert, key'), f) ↦
            rw (e, create_secret)
              (rw f (
                (create_checked-Keeps c v certs w) "failed to create secret"
                  (secret (tls_secret w ca cert key')) world key old h))
      ]
    ];
    ensures = λ world d. elim (Option-cases certs.generate_ca) [
      | inl e ↦ absurd (ground (arith, rw (e, create_secret) at d))
      | inr ((ca, k), e) ↦ elim (Option-cases (certs.generate_server_cert ca k)) [
        | inl f ↦ absurd (ground (arith, rw f at (rw (e, create_secret) at d)))
        | inr ((cert, key'), f) ↦
            rw (e, create_secret)
              (rw f (
                (create_checked-Ensures c v certs w) "failed to create secret"
                  (secret (tls_secret w ca cert key')) world
                  (rw f at (rw (e, create_secret) at d))))
      ]
    ];
  }

  with_ca-IsStep :
      (key : Key) (next : Option String → M c certs w)
      → ((ca : Option String) → IsStep key (next ca))
      → IsStep key (λ world.
        with_ca c certs w next
          (c.get_secret w.namespace "webhook-tls" world).0
          (c.get_secret w.namespace "webhook-tls" world).1)
  unfolding with_ca
  with_ca-IsStep key next k = record {
    keeps = λ world j old h.
        kept (c.get_secret w.namespace "webhook-tls" world).0
          (c.get_secret w.namespace "webhook-tls" world).1 j old
          (v.get_secret_frame w.namespace "webhook-tls" j world ∙ h);
    ensures = λ world d.
        ensured (c.get_secret w.namespace "webhook-tls" world).0
          (c.get_secret w.namespace "webhook-tls" world).1 d;
  }
    where
      kept : (answer : Answer Secret) → (Keeps c v certs w) (with_ca c certs w next answer)
      kept (ok s) world j old h = (k (lookup "ca.crt" s.data_entries)).keeps world j old h
      kept (err e) world j old h = h

      ensured : (answer : Answer Secret) → (Ensures c v certs w) key (with_ca c certs w next answer)
      ensured (ok s) world d = (k (lookup "ca.crt" s.data_entries)).ensures world d
      ensured (err e) world d = absurd (ground (arith, d))

  pub ensure_tls_secret-IsStep : IsStep (tls_key c v certs w) (ensure_tls_secret c certs w)
  unfolding ensure_tls_secret
  ensure_tls_secret-IsStep =
      find_then-IsStep "failed to get secret" (tls_key c v certs w) (create_secret c certs w)
        create_secret-IsStep

  pub ensure_deployment-IsStep : IsStep (deployment_key c v certs w) (ensure_deployment c certs w)
  unfolding ensure_deployment webhook_deployment
  ensure_deployment-IsStep =
      find_then-IsStep "failed to get deployment" (deployment_key c v certs w) _
        (create_checked-IsStep "failed to create deployment" (deployment (webhook_deployment w)))

  pub ensure_service-IsStep : IsStep (service_key c v certs w) (ensure_service c certs w)
  unfolding ensure_service webhook_service
  ensure_service-IsStep =
      find_then-IsStep "failed to get service" (service_key c v certs w) _
        (create_checked-IsStep "failed to create service" (service (webhook_service w)))

  pub ensure_validating-IsStep :
      IsStep (validating_key c v certs w) (ensure_validating_webhook_config c certs w)
  unfolding ensure_validating_webhook_config validating_configuration
  ensure_validating-IsStep = with_ca-IsStep (validating_key c v certs w) _ (λ ca.
      find_then-IsStep "failed to get webhook config validation" (validating_key c v certs w) _ (
        create_checked-IsStep "failed to create webhook config"
          (validating (validating_configuration w ca))))

  pub ensure_mutating-IsStep :
      IsStep (mutating_key c v certs w) (ensure_mutating_webhook_configuration c certs w)
  unfolding ensure_mutating_webhook_configuration mutating_configuration
  ensure_mutating-IsStep = with_ca-IsStep (mutating_key c v certs w) _ (λ ca.
      find_then-IsStep "failed to get mutating webhook config validation" (mutating_key c v certs w)
        _
        (create_checked-IsStep "failed to create mutating webhook config"
          (mutating (mutating_configuration w ca))))
