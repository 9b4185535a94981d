-- ===== src/Admission/Pods.antt =====
-- What `validatePodResource` of cmd/webhook/main.go answers for a whole pod.
use k8s_mtp.Common.{
  Bool, true, false, List, [], ◌∷◌, ◌++◌, map, ◌≡◌, ◌↔◌, inl, inr, refl, ap, arith, All, Bool-cases,
}
use k8s_mtp.Resources.{Resources}
use k8s_mtp.Admission.{
  Status, success, Container, EphemeralContainer, Pod, validate_container, check_containers,
  check_ephemeral, validate_pod_resource,
}
use k8s_mtp.Admission.Compliance.{
  IsCompliant, validate_container_iff, as_container, validate_ephemeral_container_lem,
}

module _ (k : Resources) where
  -- All containers of a pod, in the order in which they are checked.
  pub all_containers : Pod k → List (Container k)
  all_containers pod =
      pod.containers ++ (pod.init_containers ++ map (as_container k) pod.ephemeral_containers)

  check_ephemeral_lem :
      (cs : List (EphemeralContainer k))
      → check_ephemeral k cs ≡ check_containers k (map (as_container k) cs) (true, success)
  unfolding check_ephemeral check_containers
  check_ephemeral_lem [] = refl
  check_ephemeral_lem (c ∷ cs) =
      rw (validate_ephemeral_container_lem k c) (ground (arith, check_ephemeral_lem cs))

  check_containers-append :
      (cs ds : List (Container k)) (after : Bool × Status)
      → check_containers k (cs ++ ds) after ≡ check_containers k cs (check_containers k ds after)
  unfolding check_containers
  check_containers-append [] ds after = refl
  check_containers-append (c ∷ cs) ds after = ground (arith, check_containers-append cs ds after)

  validate_pod_resource_lem :
      (pod : Pod k)
      → validate_pod_resource k pod ≡ check_containers k (all_containers pod) (true, success)
  unfolding validate_pod_resource all_containers
  validate_pod_resource_lem pod = rw (
    check_containers-append pod.containers _ (true, success),
    check_containers-append pod.init_containers _ (true, success),
    check_ephemeral_lem pod.ephemeral_containers,
  )

  check_containers_iff :
      (cs : List (Container k))
      → ((check_containers k cs (true, success)).0 ≡ true) ↔ All (IsCompliant k) cs
  unfolding check_containers
  check_containers_iff [] = (λ _. tt, λ _. refl)
  check_containers_iff (c ∷ cs) = elim (Bool-cases (validate_container k c).0) [
    | inl e ↦
        rw (e, check_containers)
          (
            (λ h. ((validate_container_iff k c).0 e, (check_containers_iff cs).0 h)),
            λ h. (check_containers_iff cs).1 h.1,
          )
    | inr e ↦ (λ h. ground arith, λ h. ground (arith, (validate_container_iff k c).1 h.0))
  ]

  -- What a rejected list of containers says: the first container that fails, after others that pass.
  pub record IsRejection (cs : List (Container k)) (answer : Bool × Status) : Type 0 where
    pub passed : List (Container k)
    pub failed : Container k
    pub unchecked : List (Container k)
    pub split : cs ≡ passed ++ failed ∷ unchecked
    pub passed_comply : All (IsCompliant k) passed
    pub failed_does_not : ¬ IsCompliant k failed
    pub reported : answer ≡ (false, (validate_container k failed).1)

  check_containers-IsRejection :
      (cs : List (Container k))
      → (check_containers k cs (true, success)).0 ≡ false
      → IsRejection cs (check_containers k cs (true, success))
  unfolding check_containers
  check_containers-IsRejection [] h = cc
  check_containers-IsRejection (c ∷ cs) h = elim (Bool-cases (validate_container k c).0) [
    | inl e ↦
        let r = check_containers-IsRejection cs (ground arith) in
        record {
          passed = c ∷ r.passed;
          failed = r.failed;
          unchecked = r.unchecked;
          split = ap (◌∷◌ c) r.split;
          passed_comply = ((validate_container_iff k c).0 e, r.passed_comply);
          failed_does_not = r.failed_does_not;
          reported = ground (arith, r.reported);
        }
    | inr e ↦ record {
      passed = [];
      failed = c;
      unchecked = cs;
      split = refl;
      passed_comply = tt;
      failed_does_not = λ h. ground (arith, (validate_container_iff k c).1 h);
      reported = ground arith;
    }
  ]

  -- A pod is allowed exactly when each of its containers, init containers and ephemeral containers
  -- complies.
  pub validate_pod_resource_iff :
      (pod : Pod k)
      → ((validate_pod_resource k pod).0 ≡ true) ↔ All (IsCompliant k) (all_containers pod)
  validate_pod_resource_iff pod =
      rw (validate_pod_resource_lem pod) (check_containers_iff (all_containers pod))

  -- A pod that is not allowed is answered with the status of the first container, in the order of
  -- containers, init containers and ephemeral containers, that does not comply.
  pub validate_pod_resource-IsRejection :
      (pod : Pod k)
      → (validate_pod_resource k pod).0 ≡ false
      → IsRejection (all_containers pod) (validate_pod_resource k pod)
  validate_pod_resource-IsRejection pod h =
      rw (validate_pod_resource_lem pod) (
        check_containers-IsRejection (all_containers pod) (rw (validate_pod_resource_lem pod) at h))
