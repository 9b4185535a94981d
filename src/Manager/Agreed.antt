-- ===== src/Manager/Agreed.antt =====
-- The certificate in the webhook configuration of internal/webhook/manager.go.
use k8s_mtp.Common.{String, Option, some, none, ◌≡◌, ap, ◌∙◌, refl, arith, lookup}
use k8s_mtp.Reconciler.Kube.{Answer, ok, err, not_found, already_exists, other}
use k8s_mtp.Webhooks.{Secret, WebhookConfiguration, Resource, secret, validating}
use k8s_mtp.Manager.{
  Client, Certificates, done, WebhookManager, create_checked, if_absent, find_then, with_ca,
  ensure_validating_webhook_config, validating_configuration, M,
}
use k8s_mtp.Manager.Serving.{IsServing, tls_key, validating_key}

module _ (c : Client) (v : IsServing c) (certs : Certificates) (w : WebhookManager) where
  -- The validating configuration has the certificate of the secret.
  pub record IsAgreed (world : c.World) : Type 0 where
    pub tls : Secret
    pub configuration : WebhookConfiguration
    pub stored_secret : v.stored world (tls_key c v certs w) ≡ some (secret tls)
    pub stored_configuration :
        v.stored world (validating_key c v certs w) ≡ some (validating configuration)
    pub same_ca : configuration.ca_bundle ≡ lookup "ca.crt" tls.data_entries

  abbrev to_create : Secret → Resource
  to_create s = validating (validating_configuration w (lookup "ca.crt" s.data_entries))

  created-IsAgreed :
      (s : Secret) (world : c.World)
      → v.stored world (tls_key c v certs w) ≡ some (secret s)
      → (c.create (to_create s) world).0 ≡ ok tt
      → IsAgreed (c.create (to_create s) world).1
  unfolding validating_configuration
  created-IsAgreed s world h e =
      let (y, same, ca) =
        v.admitted_validating (validating_configuration w (lookup "ca.crt" s.data_entries)) in
      record {
        tls = s;
        configuration = y;
        stored_secret = v.create_kept (to_create s) (secret s) world (tls_key c v certs w) h;
        stored_configuration = v.create_ok (to_create s) world e ∙ ap some same;
        same_ca = ca;
      }

  checked-IsAgreed :
      (text : String) (s : Secret) (world : c.World)
      → v.stored world (tls_key c v certs w) ≡ some (secret s)
      → (create_checked c certs w text (to_create s) world).0 ≡ done
      → IsAgreed (create_checked c certs w text (to_create s) world).1
  unfolding create_checked
  checked-IsAgreed text s world h e = by_answer (c.create (to_create s) world).0 refl
    where
      by_answer :
          (answer : Answer (Unit {0}))
          → (c.create (to_create s) world).0 ≡ answer
          → IsAgreed (create_checked c certs w text (to_create s) world).1
      by_answer (ok u) f = rw (f, create_checked) (created-IsAgreed s world h f)
      by_answer (err x) f = absurd (ground (arith, e, f))

  found-IsAgreed :
      (text find_text : String) (s : Secret) (world : c.World)
      → v.stored world (tls_key c v certs w) ≡ some (secret s)
      → v.stored world (validating_key c v certs w) ≡ none
      → (find_then c certs w find_text
          (validating_key c v certs w)
          (create_checked c certs w text (to_create s))
          world).0
        ≡ done
      → IsAgreed
          (find_then c certs w find_text
            (validating_key c v certs w)
            (create_checked c certs w text (to_create s))
            world).1
  unfolding find_then if_absent
  found-IsAgreed text find_text s world h missing e =
      by_answer (c.find (validating_key c v certs w) world).0 refl e
    where
      next : M c certs w
      next = create_checked c certs w text (to_create s)

      world' : c.World
      world' = (c.find (validating_key c v certs w) world).1

      by_answer :
          (answer : Answer (Unit {0}))
          → (c.find (validating_key c v certs w) world).0 ≡ answer
          → (if_absent c certs w find_text next answer world').0 ≡ done
          → IsAgreed
              (if_absent c certs w find_text next
                (c.find (validating_key c v certs w) world).0
                world').1
      by_answer (ok u) f g =
          let (r, there) = v.find_ok (validating_key c v certs w) world f in
          absurd (ground (arith, there, missing))
      by_answer (err (not_found m)) f g =
          rw (f, if_absent)
            (checked-IsAgreed text s world'
              (v.find_frame (validating_key c v certs w) (tls_key c v certs w) world ∙ h) g)
      by_answer (err (already_exists m)) f g = absurd (ground (arith, g))
      by_answer (err (other m)) f g = absurd (ground (arith, g))

  -- Where there is no validating configuration yet and the step for it succeeds, the configuration has the
  -- certificate of the secret that is stored.
  ensure_validating_webhook_config-IsAgreed :
      (world : c.World)
      → v.stored world (validating_key c v certs w) ≡ none
      → (ensure_validating_webhook_config c certs w world).0 ≡ done
      → IsAgreed (ensure_validating_webhook_config c certs w world).1
  unfolding ensure_validating_webhook_config with_ca
  ensure_validating_webhook_config-IsAgreed world missing e =
      by_secret (c.get_secret w.namespace "webhook-tls" world).0 refl e
    where
      world' : c.World
      world' = (c.get_secret w.namespace "webhook-tls" world).1

      next : Option String → M c certs w
      next ca =
          find_then c certs w "failed to get webhook config validation" (validating_key c v certs w)
            (create_checked c certs w "failed to create webhook config"
              (validating (validating_configuration w ca)))

      by_secret :
          (answer : Answer Secret)
          → (c.get_secret w.namespace "webhook-tls" world).0 ≡ answer
          → (with_ca c certs w next answer world').0 ≡ done
          → IsAgreed
              (with_ca c certs w next (c.get_secret w.namespace "webhook-tls" world).0 world').1
      by_secret (ok s) f g =
          rw (f, with_ca)
            (found-IsAgreed "failed to create webhook config"
              "failed to get webhook config validation" s world'
              (v.get_secret_frame w.namespace "webhook-tls" (tls_key c v certs w) world
                ∙ v.get_secret_ok w.namespace "webhook-tls" s world f)
              (v.get_secret_frame w.namespace "webhook-tls" (validating_key c v certs w) world
                ∙ missing)
              g)
      by_secret (err x) f g = absurd (ground (arith, g))
