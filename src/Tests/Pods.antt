-- ===== src/Tests/Pods.antt =====
-- The webhook of cmd/webhook/main.go on concrete pods and requests.
use k8s_mtp.Common.{
  String, true, false, none, some, [], ◌∷◌, ◌≡◌, ◌↔◌, ◌⊎◌, refl, arith, All, lookup_or, length,
  split, ◌<◌,
}
use k8s_mtp.Admission.{
  SecurityContext, Container, Pod, validate_container, check_containers, validate_pod_resource,
  should_validate_namespace,
}
use k8s_mtp.Admission.Compliance.{IsCompliant}
use k8s_mtp.Admission.Pods.{
  all_containers, IsRejection, validate_pod_resource_iff, validate_pod_resource-IsRejection,
}
use k8s_mtp.Admission.Server.{Codec, crashed, mutate_pod_handler, validate_pod_handler}
use k8s_mtp.Admission.Server.Replies.{labelled, mutate_pod_handler-crashed_iff}
use k8s_mtp.Admission.Server.Verdicts.{Allows, validate_pod_handler_iff}
use k8s_mtp.Admission.Server.Labels.{
  should_validate_namespace-tenant_namespace, mutate_pod_handler-tenant_namespace,
}
use k8s_mtp.Reconciler.Build.{tenant_namespace}
use k8s_mtp.Tests.{resources}
use k8s_mtp.Tests.Tenants.{acme}

abbrev locked : SecurityContext
locked = record {
  privileged = some false;
  run_as_non_root = some true;
  run_as_user = some 1000;
  read_only_root_filesystem = some true;
  allow_privilege_escalation = some false;
}

abbrev web : Container resources
web = record {
  name = "web";
  limits = some (("cpu", 500) ∷ ("memory", 128) ∷ []);
  security_context = some locked;
}

abbrev bare : Container resources
bare = record { name = "bare"; limits = none; security_context = none }

abbrev good_pod : Pod resources
good_pod = record {
  name = "good";
  containers = web ∷ [];
  init_containers = [];
  ephemeral_containers = [];
}

abbrev bad_pod : Pod resources
bad_pod = record {
  name = "bad";
  containers = web ∷ [];
  init_containers = bare ∷ [];
  ephemeral_containers = [];
}

-- A request is the namespace that it is about, and its pod is the good one.
abbrev codec : Codec resources
codec = record {
  Body = String;
  Raw = Unit {0};
  unmarshal_review = λ b. some (some (record { uid = "u1"; namespace = b; raw = tt }));
  unmarshal_pod = λ r. some good_pod;
}

web_allowed : (validate_container resources web).0 ≡ true
unfolding validate_container lookup_or
web_allowed = refl

validate_pod_resource_iff_example :
    ((validate_pod_resource resources good_pod).0 ≡ true)
    ↔ All (IsCompliant resources) (all_containers resources good_pod)
validate_pod_resource_iff_example = validate_pod_resource_iff resources good_pod

bad_rejected : (validate_pod_resource resources bad_pod).0 ≡ false
unfolding validate_pod_resource check_containers validate_container lookup_or
bad_rejected = refl

validate_pod_resource-IsRejection_example :
    IsRejection resources
      (all_containers resources bad_pod)
      (validate_pod_resource resources bad_pod)
validate_pod_resource-IsRejection_example =
    validate_pod_resource-IsRejection resources bad_pod bad_rejected

mutate_pod_handler-crashed_iff_example :
    (mutate_pod_handler resources codec (some "tenant-acme") ≡ crashed)
    ↔ ((should_validate_namespace "tenant-acme" ≡ true) × (length (split b'-' "tenant-acme") < 3))
mutate_pod_handler-crashed_iff_example =
    mutate_pod_handler-crashed_iff resources codec "tenant-acme" "u1" "tenant-acme" tt refl

validate_pod_handler_iff_example :
    Allows "u1" (validate_pod_handler resources codec (some "tenant-acme-shop")) ↔ (
      (should_validate_namespace "tenant-acme-shop" ≡ false)
      ⊎ All (IsCompliant resources) (all_containers resources good_pod))
validate_pod_handler_iff_example =
    validate_pod_handler_iff resources codec "tenant-acme-shop" "u1" "tenant-acme-shop" tt good_pod
      refl refl

should_validate_namespace-tenant_namespace_example :
    should_validate_namespace (tenant_namespace acme) ≡ true
should_validate_namespace-tenant_namespace_example = should_validate_namespace-tenant_namespace acme

mutate_pod_handler-tenant_namespace_example :
    mutate_pod_handler resources codec (some (tenant_namespace acme)) ≡ labelled "u1" "acme" "shop"
mutate_pod_handler-tenant_namespace_example =
    mutate_pod_handler-tenant_namespace resources codec (tenant_namespace acme) "u1" tt acme refl
      (omega arith) (omega arith)
