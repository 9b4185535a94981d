-- ===== src/Admission.antt =====
-- cmd/webhook/main.go: the pod checks of the validating admission webhook.
pub mod Compliance
pub mod Pods
pub mod Server
use Prim.Native.Nat.{ℕ}
use text.Mathlib.Text.{starts_with}
use k8s_mtp.Common.{
  String, Bool, true, false, ◌&&◌, ◌||◌, not, Option, none, some, List, [], ◌∷◌, ◌==◌, ◌<>◌, nat_eq,
  if◌then◌else◌, points_at,
}
use k8s_mtp.Resources.{Resources}

-- The fields of `corev1.SecurityContext` that the webhook reads; a nil pointer is `none`. A user id
-- is an `int64`, of which the API server lets no negative one through.
pub record SecurityContext : Type 0 where
  pub privileged : Option Bool
  pub run_as_non_root : Option Bool
  pub run_as_user : Option ℕ
  pub read_only_root_filesystem : Option Bool
  pub allow_privilege_escalation : Option Bool

pub record Status : Type 0 where
  pub status : String
  pub message : String
  pub reason : String
  pub code : ℕ

abbrev pub empty_status : Status
empty_status = record { status = ""; message = ""; reason = ""; code = 0 }

abbrev pub success : Status
success = record { status = "Success"; message = ""; reason = ""; code = 0 }

-- `Status{Status: "Failure", Message: Sprintf("Container %s …", name), Reason: …, Code: 400}`.
abbrev pub failure : String → String → String → Status
failure name what reason = record {
  status = "Failure";
  message = "Container " <> (name <> (" " <> what));
  reason = reason;
  code = 400;
}

-- `p != nil && *p == 0`.
abbrev pub points_at_zero : Option ℕ → Bool
points_at_zero none = false
points_at_zero (some n) = nat_eq n 0

abbrev pub is_nil : Option Bool → Bool
is_nil none = true
is_nil (some b) = false

module _ (k : Resources) where
  open k use {Quantity, is_zero, cpu, memory}

  pub record Container : Type 0 where
    pub name : String
    pub limits : Option (List (String × Quantity))
    pub security_context : Option SecurityContext

  pub record EphemeralContainer : Type 0 where
    pub name : String
    pub limits : Option (List (String × Quantity))
    pub security_context : Option SecurityContext

  pub record Pod : Type 0 where
    pub name : String
    pub containers : List Container
    pub init_containers : List Container
    pub ephemeral_containers : List EphemeralContainer

  unfoldable pub validate_container : Container → Bool × Status
  validate_container c = elim c.limits [
    | none ↦ (false, failure c.name "must have resource limits" "MissingResourceLimits")
    | some limits ↦
        if is_zero (cpu limits)
        then (false, failure c.name "must have CPU limits" "MissingCPULimit")
        else if is_zero (memory limits)
        then (false, failure c.name "must have Memory limits" "MissingMemoryLimit")
        else elim c.security_context [
          | none ↦
              (false, failure c.name "must have SecurityContext defined" "MissingSecurityContext")
          | some s ↦
              if points_at s.privileged true
                || points_at s.run_as_non_root false
                || points_at_zero s.run_as_user
              then (false, failure c.name "failed privilege check" "Conflict")
              else if points_at s.read_only_root_filesystem false
                  || is_nil s.read_only_root_filesystem
              then (false, failure c.name "must have read only root filesystem" "Conflict")
              else if points_at s.allow_privilege_escalation true
                  || is_nil s.allow_privilege_escalation
              then (false, failure c.name "must not be allowed to escalete privileges" "Conflict")
              else (true, empty_status)
        ]
  ]

  unfoldable pub validate_ephemeral_container : EphemeralContainer → Bool × Status
  validate_ephemeral_container c = elim c.limits [
    | none ↦ (false, failure c.name "must have resource limits" "MissingResourceLimits")
    | some limits ↦
        if is_zero (cpu limits)
        then (false, failure c.name "must have CPU limits" "MissingCPULimit")
        else if is_zero (memory limits)
        then (false, failure c.name "must have Memory limits" "MissingMemoryLimit")
        else elim c.security_context [
          | none ↦
              (false, failure c.name "must have SecurityContext defined" "MissingSecurityContext")
          | some s ↦
              if points_at s.privileged true
                || points_at s.run_as_non_root false
                || points_at_zero s.run_as_user
              then (false, failure c.name "failed privilege check" "Conflict")
              else if points_at s.read_only_root_filesystem false
                  || is_nil s.read_only_root_filesystem
              then (false, failure c.name "must have read only root filesystem" "Conflict")
              else if points_at s.allow_privilege_escalation true
                  || is_nil s.allow_privilege_escalation
              then (false, failure c.name "must not be allowed to escalete privileges" "Conflict")
              else (true, empty_status)
        ]
  ]

  -- The three loops of `validatePodResource`, each handed what follows it.
  unfoldable pub check_ephemeral : List EphemeralContainer → Bool × Status
  check_ephemeral [] = (true, success)
  check_ephemeral (c ∷ cs) =
      let (allowed, status) = validate_ephemeral_container c in
      if not allowed then (allowed, status) else check_ephemeral cs

  unfoldable pub check_containers : List Container → Bool × Status → Bool × Status
  check_containers [] after = after
  check_containers (c ∷ cs) after =
      let (allowed, status) = validate_container c in
      if not allowed then (allowed, status) else check_containers cs after

  unfoldable pub validate_pod_resource : Pod → Bool × Status
  validate_pod_resource pod =
      check_containers pod.containers
        (check_containers pod.init_containers (check_ephemeral pod.ephemeral_containers))

abbrev pub system_namespaces : List String
system_namespaces = "kube-system" ∷ "kube-public" ∷ "kube-node-lease" ∷ "default" ∷ "k8s-mtp" ∷ []

-- `systemNamespace[ns]`: a map from the names to `true`.
unfoldable pub is_system_namespace : String → List String → Bool
is_system_namespace ns [] = false
is_system_namespace ns (s ∷ names) = ns == s || is_system_namespace ns names

unfoldable pub should_validate_namespace : String → Bool
unfolding is_system_namespace
should_validate_namespace ns =
    if is_system_namespace ns system_namespaces then false else starts_with ns "tenant-"
