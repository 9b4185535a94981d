-- ===== src/Admission/Compliance.antt =====
-- What the checks of cmd/webhook/main.go accept.
use k8s_mtp.Common.{
  String, true, false, Option, some, List, ◌≡◌, ◌≢◌, ◌↔◌, refl, arith, Option-cases, inl, inr,
}
use k8s_mtp.Resources.{Resources}
use k8s_mtp.Admission.{
  SecurityContext, Container, EphemeralContainer, validate_container, validate_ephemeral_container,
}

-- A security context that is not privileged, does not run as root, cannot write its root file system
-- and cannot gain privileges.
pub record IsSecure (s : SecurityContext) : Type 0 where
  pub unprivileged : s.privileged ≢ some true
  pub not_root : s.run_as_non_root ≢ some false
  pub not_user_zero : s.run_as_user ≢ some 0
  pub read_only : s.read_only_root_filesystem ≡ some true
  pub no_escalation : s.allow_privilege_escalation ≡ some false

module _ (k : Resources) where
  open k use {Quantity, is_zero, cpu, memory}

  pub record HasLimits (limits : Option (List (String × Quantity))) : Type 0 where
    pub listed : List (String × Quantity)
    pub present : limits ≡ some listed
    pub has_cpu : is_zero (cpu listed) ≡ false
    pub has_memory : is_zero (memory listed) ≡ false

  pub record HasContext (o : Option SecurityContext) : Type 0 where
    pub context : SecurityContext
    pub present : o ≡ some context
    pub secure : IsSecure context

  abbrev pub IsCompliant : Container k → Type 0
  IsCompliant c = HasLimits c.limits × HasContext c.security_context

  validate_container_sound : (c : Container k) → (validate_container k c).0 ≡ true → IsCompliant c
  unfolding validate_container
  validate_container_sound c h = elim (Option-cases c.limits) [
    | inl e ↦ ground arith
    | inr (l, e) ↦ elim (Option-cases c.security_context) [
      | inl f ↦ ground arith
      | inr (s, f) ↦ (
        record { listed = l; present = e; has_cpu = ground arith; has_memory = ground arith },
        record {
          context = s;
          present = f;
          secure = record {
            unprivileged = ground arith;
            not_root = ground arith;
            not_user_zero = ground arith;
            read_only = ground arith;
            no_escalation = ground arith;
          };
        },
      )
    ]
  ]

  validate_container_complete :
      (c : Container k) → IsCompliant c → (validate_container k c).0 ≡ true
  unfolding validate_container
  validate_container_complete c h = ground arith

  -- A container is allowed exactly when it has CPU and memory limits that are not zero and a security
  -- context that is unprivileged, not root, read-only and without privilege escalation.
  pub validate_container_iff :
      (c : Container k) → ((validate_container k c).0 ≡ true) ↔ IsCompliant c
  validate_container_iff c = (validate_container_sound c, validate_container_complete c)

  -- The checks of an ephemeral container are those of a container with the same fields.
  pub as_container : EphemeralContainer k → Container k
  as_container c = record {
    name = c.name;
    limits = c.limits;
    security_context = c.security_context;
  }

  pub validate_ephemeral_container_lem :
      (c : EphemeralContainer k)
      → validate_ephemeral_container k c ≡ validate_container k (as_container c)
  unfolding validate_ephemeral_container validate_container as_container
  validate_ephemeral_container_lem c = refl
