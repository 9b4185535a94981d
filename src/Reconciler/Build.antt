-- ===== src/Reconciler/Build.antt =====
-- internal/reconciler/tenant_reconciler.go: the objects that a tenant gets.
use k8s_mtp.Common.{String, List, [], ◌∷◌, ◌<>◌}
use k8s_mtp.Tenants.{Tenant, group_version}
use k8s_mtp.Cluster.{OwnerReference, ObjectMeta, Namespace, PolicyRule, Role, RoleBinding}

-- `fmt.Sprintf("tenant-%s-%s", t.Name, t.Spec.Name)`.
unfoldable pub tenant_namespace : Tenant → String
tenant_namespace t = "tenant-" <> (t.name <> ("-" <> t.spec.name))

unfoldable pub owner_reference : Tenant → OwnerReference
owner_reference t = record {
  api_version = group_version;
  kind = "Tenant";
  name = t.name;
  uid = t.uid;
}

-- The metadata of an object in the tenant's namespace.
unfoldable pub object_meta : String → Tenant → ObjectMeta
object_meta name t = record {
  name = name;
  namespace = tenant_namespace t;
  owner_references = owner_reference t ∷ [];
  labels = [];
  annotations = [];
  resource_version = "";
}

unfoldable pub build_namespace : Tenant → Namespace
build_namespace t = record {
  meta = record {
    name = tenant_namespace t;
    namespace = "";
    owner_references = owner_reference t ∷ [];
    labels = ("tenant.k8s-mtp.io/managed", "true") ∷ [];
    annotations = [];
    resource_version = "";
  };
}

abbrev pub role_name : Tenant → String → String
role_name t suffix = "tenant-" <> (t.name <> suffix)

abbrev all_verbs : List String
all_verbs =
    "get" ∷ "list" ∷ "watch" ∷ "create" ∷ "update" ∷ "patch" ∷ "delete" ∷ "deletecollection" ∷ []

abbrev verbs : List String
verbs = "get" ∷ "list" ∷ "watch" ∷ "create" ∷ "update" ∷ "patch" ∷ "delete" ∷ []

abbrev rule : String → List String → List String → PolicyRule
rule group resources allowed = record {
  api_groups = group ∷ [];
  resources = resources;
  verbs = allowed;
  resource_names = [];
}

unfoldable pub build_admin_role : Tenant → Role
build_admin_role t = record {
  meta = object_meta (role_name t "-admin") t;
  rules =
      rule ""
        ("pods" ∷ "pods/log" ∷ "pods/status" ∷ "pods/exec" ∷ "services" ∷ "services/proxy"
          ∷ "endpoints" ∷ "configmaps" ∷ "secrets" ∷ "serviceaccounts" ∷ "events" ∷ "limitranges"
          ∷ "podtemplates" ∷ [])
        all_verbs
      ∷ rule "apps"
          ("deployments" ∷ "deployments/scale" ∷ "deployments/status" ∷ "replicasets"
            ∷ "replicasets/scale" ∷ "replicasets/status" ∷ "daemonsets" ∷ "daemonsets/status"
            ∷ "statefulsets" ∷ "statefulsets/scale" ∷ "statefulsets/status" ∷ [])
          all_verbs
      ∷ rule "batch" ("jobs" ∷ "jobs/status" ∷ "cronjobs" ∷ "cronjobs/status" ∷ []) all_verbs
      ∷ rule "autoscaling" ("horizontalpodautoscalers" ∷ []) verbs
      ∷ rule "" ("bindings" ∷ []) ("create" ∷ [])
      ∷ [];
}

unfoldable pub build_operator_role : Tenant → Role
build_operator_role t = record {
  meta = object_meta (role_name t "-operator") t;
  rules =
      rule ""
        ("pods" ∷ "pods/log" ∷ "pods/status" ∷ "pods/exec" ∷ "services" ∷ "endpoints" ∷ "configmaps"
          ∷ "secrets" ∷ "events" ∷ [])
        verbs
      ∷ rule "apps"
          ("deployments" ∷ "deployments/scale" ∷ "deployments/status" ∷ "replicasets"
            ∷ "replicasets/scale" ∷ [])
          verbs
      ∷ rule "batch" ("jobs" ∷ "jobs/status" ∷ []) verbs
      ∷ [];
}

abbrev rbac_group : String
rbac_group = "rbac.authorization.k8s.io"

unfoldable pub build_admin_role_binding : Tenant → RoleBinding
build_admin_role_binding t = record {
  meta = object_meta (role_name t "-admin-binding") t;
  subjects = record { kind = "Group"; api_group = rbac_group; name = role_name t "-admins" } ∷ [];
  role_ref = record { api_group = rbac_group; kind = "Role"; name = role_name t "-admin" };
}

unfoldable pub build_operator_role_binding : Tenant → RoleBinding
build_operator_role_binding t = record {
  meta = object_meta (role_name t "-operator-binding") t;
  subjects =
      record { kind = "Group"; api_group = rbac_group; name = role_name t "-operators" } ∷ [];
  role_ref = record { api_group = rbac_group; kind = "Role"; name = role_name t "-operator" };
}
