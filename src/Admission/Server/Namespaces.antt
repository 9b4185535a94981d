-- ===== src/Admission/Server/Namespaces.antt =====
-- Which namespaces the webhook of cmd/webhook/main.go looks at.
use text.Mathlib.Text.{starts_with}
use text.Mathlib.TextEquality.{starts_with_iff}
use k8s_mtp.Common.{
  String, true, false, ◌≡◌, ◌↔◌, List, [], ◌∷◌, refl, arith, eq_iff, Bool-cases, inl, inr, ◌<>◌,
  All, ◌==◌,
}
use k8s_mtp.Admission.{should_validate_namespace, is_system_namespace, system_namespaces}

is_system_namespace-starts_with :
    (ns : String) (names : List String)
    → All (λ s. starts_with s "tenant-" ≡ false) names
    → is_system_namespace ns names ≡ true
    → starts_with ns "tenant-" ≡ false
unfolding is_system_namespace
is_system_namespace-starts_with ns [] h e = cc
is_system_namespace-starts_with ns (s ∷ names) (p, h) e = elim (Bool-cases (ns == s)) [
  | inl same ↦ rw ((eq_iff ns s).0 same) p
  | inr other ↦ is_system_namespace-starts_with ns names h (ground arith)
]

-- The system namespaces need no entry of their own: the webhook looks at a namespace exactly when its
-- name begins with "tenant-".
pub should_validate_namespace_iff :
    (ns : String)
    → (should_validate_namespace ns ≡ true) ↔ ((rest : String) × ("tenant-" <> rest ≡ ns))
unfolding should_validate_namespace
should_validate_namespace_iff ns = (
  λ h. (starts_with_iff ns "tenant-").0 (ground arith),
  λ p.
      let e = (starts_with_iff ns "tenant-").1 p in
      ground (
        arith,
        is_system_namespace-starts_with ns system_namespaces
            (refl, (refl, (refl, (refl, (refl, tt))))),
      ),
)
