-- ===== src/Admission/Server/Verdicts.antt =====
-- What the validating handler of cmd/webhook/main.go answers.
use k8s_mtp.Common.{
  String, true, false, some, ◌≡◌, ◌↔◌, ◌⊎◌, inl, inr, refl, arith, All, Bool-cases,
}
use k8s_mtp.Resources.{Resources}
use k8s_mtp.Admission.{Pod, should_validate_namespace}
use k8s_mtp.Admission.Compliance.{IsCompliant}
use k8s_mtp.Admission.Pods.{all_containers, validate_pod_resource_iff}
use k8s_mtp.Admission.Server.{
  Codec, Reply, crashed, review, http_error, review_pod, validate_pod_handler,
}

-- The reply is a review that Allows the request with the given id.
abbrev pub Allows : String → Reply → Type 0
Allows uid (review r) = (r.response.allowed ≡ true) × (r.response.uid ≡ uid)
Allows uid (http_error message code) = true ≡ false
Allows uid crashed = true ≡ false

module _ (k : Resources) (codec : Codec k) (body : codec.Body) where
  -- A review of a pod is answered with leave exactly when the namespace is none that the webhook looks
  -- at, or each container of the pod complies; the answer carries the id of the request.
  pub validate_pod_handler_iff :
      (uid namespace : String) (raw : codec.Raw) (pod : Pod k)
      → codec.unmarshal_review body
        ≡ some (some (record { uid = uid; namespace = namespace; raw = raw }))
      → codec.unmarshal_pod raw ≡ some pod
      → Allows uid (validate_pod_handler k codec (some body)) ↔ (
          (should_validate_namespace namespace ≡ false)
          ⊎ All (IsCompliant k) (all_containers k pod))
  unfolding validate_pod_handler review_pod
  validate_pod_handler_iff uid namespace raw pod decoded read =
      elim (Bool-cases (should_validate_namespace namespace)) [
        | inl e ↦
            rw (decoded, validate_pod_handler)
              (rw e (
                rw read (
                  λ h. inr ((validate_pod_resource_iff k pod).0 h.0),
                  λ h. (
                    elim h [
                      | inl f ↦ absurd (ground (arith, e, f))
                      | inr g ↦ (validate_pod_resource_iff k pod).1 g
                    ],
                    refl,
                  ),
                )))
        | inr e ↦ rw (decoded, validate_pod_handler) (rw e (λ h. inl refl, λ h. (refl, refl)))
      ]
