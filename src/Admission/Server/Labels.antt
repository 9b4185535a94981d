-- ===== src/Admission/Server/Labels.antt =====
-- The mutating webhook of cmd/webhook/main.go in the namespaces that
-- internal/reconciler/tenant_reconciler.go makes.
use k8s_mtp.Common.{String, ◌≡◌, some, refl, true, IsFree, ◌<>◌}
use k8s_mtp.Resources.{Resources}
use k8s_mtp.Tenants.{Tenant}
use k8s_mtp.Admission.{should_validate_namespace}
use k8s_mtp.Admission.Server.{Codec, mutate_pod_handler}
use k8s_mtp.Admission.Server.Namespaces.{should_validate_namespace_iff}
use k8s_mtp.Admission.Server.Replies.{Decoded, labelled, mutate_pod_handler_labels}
use k8s_mtp.Reconciler.Build.{tenant_namespace}

-- The webhook looks at the namespace of every tenant.
pub should_validate_namespace-tenant_namespace :
    (t : Tenant) → should_validate_namespace (tenant_namespace t) ≡ true
unfolding tenant_namespace
should_validate_namespace-tenant_namespace t =
    (should_validate_namespace_iff _).1 (t.name <> ("-" <> t.spec.name), refl)

-- A pod in the namespace of a tenant with no dash in its two names: the label for the name gets the
-- name of the resource, and the label for the tier gets the name in the specification.
pub mutate_pod_handler-tenant_namespace :
    (k : Resources) (codec : Codec k) (body : codec.Body) (uid : String) (raw : codec.Raw)
    (t : Tenant)
    → Decoded k codec body uid (tenant_namespace t) raw
    → IsFree b'-' t.name
    → IsFree b'-' t.spec.name
    → mutate_pod_handler k codec (some body) ≡ labelled uid t.name t.spec.name
unfolding tenant_namespace
mutate_pod_handler-tenant_namespace k codec body uid raw t decoded h h' =
    mutate_pod_handler_labels k codec body uid t.name t.spec.name raw decoded h h'
