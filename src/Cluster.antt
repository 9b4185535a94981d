-- ===== src/Cluster.antt =====
-- The Kubernetes objects that internal/reconciler/tenant_reconciler.go builds and compares, with the
-- fields of the k8s.io/api types that it sets or reads. Maps are association lists.
use k8s_mtp.Common.{ℕ, String, List, Option}

pub record OwnerReference : Type 0 where
  pub api_version : String
  pub kind : String
  pub name : String
  pub uid : String

pub record ObjectMeta : Type 0 where
  pub name : String
  pub namespace : String
  pub owner_references : List OwnerReference
  pub labels : List (String × String)
  pub annotations : List (String × String)
  pub resource_version : String

pub record Namespace : Type 0 where
  pub meta : ObjectMeta

pub record PolicyRule : Type 0 where
  pub api_groups : List String
  pub resources : List String
  pub verbs : List String
  pub resource_names : List String

pub record Role : Type 0 where
  pub meta : ObjectMeta
  pub rules : List PolicyRule

pub record Subject : Type 0 where
  pub kind : String
  pub api_group : String
  pub name : String

pub record RoleRef : Type 0 where
  pub api_group : String
  pub kind : String
  pub name : String

pub record RoleBinding : Type 0 where
  pub meta : ObjectMeta
  pub subjects : List Subject
  pub role_ref : RoleRef

-- A pointer to a `LabelSelector` that is nil is `none`; `some []` selects everything.
pub record NetworkPolicyPeer : Type 0 where
  pub pod_selector : Option (List (String × String))
  pub namespace_selector : Option (List (String × String))
  pub ip_block : Option String

pub record NetworkPolicyPort : Type 0 where
  pub protocol : String
  pub port : ℕ

pub record NetworkPolicyIngressRule : Type 0 where
  pub peers : List NetworkPolicyPeer

pub record NetworkPolicyEgressRule : Type 0 where
  pub peers : List NetworkPolicyPeer
  pub ports : List NetworkPolicyPort

pub record NetworkPolicy : Type 0 where
  pub meta : ObjectMeta
  pub pod_selector : List (String × String)
  pub policy_types : List String
  pub ingress : List NetworkPolicyIngressRule
  pub egress : List NetworkPolicyEgressRule

-- `Q` stands for `resource.Quantity`.
pub record ResourceQuota (Q : Type 0) : Type 0 where
  pub meta : ObjectMeta
  pub hard : List (String × Q)

pub record LimitRangeItem (Q : Type 0) : Type 0 where
  pub kind : String
  pub default : List (String × Q)
  pub default_request : List (String × Q)

pub record LimitRange (Q : Type 0) : Type 0 where
  pub meta : ObjectMeta
  pub limits : List (LimitRangeItem Q)

-- `client.Object`, at the six types that the reconciler passes.
pub data Object (Q : Type 0) : Type 0 where
  namespace : Namespace → Object Q
  resource_quota : ResourceQuota Q → Object Q
  role : Role → Object Q
  role_binding : RoleBinding → Object Q
  network_policy : NetworkPolicy → Object Q
  limit_range : LimitRange Q → Object Q

abbrev pub meta_of : {Q : Type 0} → Object Q → ObjectMeta
meta_of (namespace o) = o.meta
meta_of (resource_quota o) = o.meta
meta_of (role o) = o.meta
meta_of (role_binding o) = o.meta
meta_of (network_policy o) = o.meta
meta_of (limit_range o) = o.meta

-- `obj.SetResourceVersion(v)`.
abbrev pub with_version : {Q : Type 0} → String → Object Q → Object Q
with_version v (namespace o) =
    namespace (record o { meta = record (o.meta) { resource_version = v } })
with_version v (resource_quota o) =
    resource_quota (record o { meta = record (o.meta) { resource_version = v } })
with_version v (role o) = role (record o { meta = record (o.meta) { resource_version = v } })
with_version v (role_binding o) =
    role_binding (record o { meta = record (o.meta) { resource_version = v } })
with_version v (network_policy o) =
    network_policy (record o { meta = record (o.meta) { resource_version = v } })
with_version v (limit_range o) =
    limit_range (record o { meta = record (o.meta) { resource_version = v } })

-- The type of an object, its namespace and its name: under these the API server keeps it.
pub data Kind : Type 0 where
  namespace_kind resource_quota_kind role_kind role_binding_kind network_policy_kind : Kind
  limit_range_kind : Kind

abbrev pub kind_of : {Q : Type 0} → Object Q → Kind
kind_of (namespace o) = namespace_kind
kind_of (resource_quota o) = resource_quota_kind
kind_of (role o) = role_kind
kind_of (role_binding o) = role_binding_kind
kind_of (network_policy o) = network_policy_kind
kind_of (limit_range o) = limit_range_kind

pub record ObjectKey : Type 0 where
  pub kind : Kind
  pub namespace : String
  pub name : String

abbrev pub key_of : {Q : Type 0} → Object Q → ObjectKey
key_of o = record { kind = kind_of o; namespace = (meta_of o).namespace; name = (meta_of o).name }
