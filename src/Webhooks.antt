-- ===== src/Webhooks.antt =====
-- The objects that internal/webhook/manager.go creates, with the fields of the k8s.io/api types that it sets.
-- Fields of pointer type that the code always sets are values; maps are association lists.
use k8s_mtp.Common.{ℕ, String, Bool, Option, List}

pub record Secret : Type 0 where
  pub namespace : String
  pub name : String
  pub data_entries : List (String × String)
  pub secret_type : String

pub record VolumeMount : Type 0 where
  pub name : String
  pub mount_path : String
  pub read_only : Bool

pub record Deployment : Type 0 where
  pub namespace : String
  pub name : String
  pub labels : List (String × String)
  pub match_labels : List (String × String)
  pub pod_labels : List (String × String)
  pub container_name : String
  pub image : String
  pub image_pull_policy : String
  pub container_port : ℕ
  pub protocol : String
  pub volume_mount : VolumeMount
  pub volume_name : String
  pub volume_secret : String

pub record Service : Type 0 where
  pub namespace : String
  pub name : String
  pub labels : List (String × String)
  pub port : ℕ
  pub target_port : ℕ
  pub selector : List (String × String)

-- A webhook configuration with its one webhook and its one rule. The reinvocation policy is the mutating
-- webhook's.
pub record WebhookConfiguration : Type 0 where
  pub name : String
  pub webhook_name : String
  pub service_name : String
  pub service_namespace : String
  pub path : String
  pub ca_bundle : Option String
  pub operations : List String
  pub api_groups : List String
  pub api_versions : List String
  pub resources : List String
  pub failure_policy : String
  pub side_effects : String
  pub review_versions : List String
  pub reinvocation_policy : Option String
  pub namespace_selector : List (String × String)

pub data Resource : Type 0 where
  secret : Secret → Resource
  deployment : Deployment → Resource
  service : Service → Resource
  validating mutating : WebhookConfiguration → Resource

pub data Kind : Type 0 where
  secret_kind deployment_kind service_kind validating_kind mutating_kind : Kind

-- A type, a namespace and a name.
abbrev pub Key : Type 0
Key = Kind × String × String

abbrev pub key_of : Resource → Key
key_of (secret s) = (secret_kind, s.namespace, s.name)
key_of (deployment d) = (deployment_kind, d.namespace, d.name)
key_of (service s) = (service_kind, s.namespace, s.name)
key_of (validating c) = (validating_kind, "", c.name)
key_of (mutating c) = (mutating_kind, "", c.name)
