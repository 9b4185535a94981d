-- ===== src/Reconciler/Limits.antt =====
-- internal/reconciler/tenant_reconciler.go: the quota, the default limits and the network policy of a
-- tenant. `none` is the panic of `resource.MustParse`.
use k8s_mtp.Common.{String, List, [], ◌∷◌, ◌++◌, Option, none, some, ◌==◌, if◌then◌else◌}
use k8s_mtp.Resources.{Resources}
use k8s_mtp.Tenants.{Tenant, tier_free, tier_pro, tier_enterprise}
use k8s_mtp.Settings.{Config, TierDefaults}
use k8s_mtp.Cluster.{
  NetworkPolicyPeer, NetworkPolicyPort, NetworkPolicyIngressRule, NetworkPolicyEgressRule,
  NetworkPolicy, ResourceQuota, LimitRange,
}
use k8s_mtp.Reconciler.Build.{object_meta}

infixl 5 ◌>>=◌
abbrev ◌>>=◌ : {A B : Type 0} → Option A → (A → Option B) → Option B
none >>= f = none
some a >>= f = f a

abbrev pub quota_of : {Q : Type 0} → String → Tenant → Q → Q → Q → Q → ResourceQuota Q
quota_of name t c m p s = record {
  meta = object_meta name t;
  hard = ("cpu", c) ∷ ("memory", m) ∷ ("pods", p) ∷ ("requests.storage", s) ∷ [];
}

abbrev pub limits_of : {Q : Type 0} → Tenant → Q → Q → LimitRange Q
limits_of t c m = record {
  meta = object_meta "tenant-defaults" t;
  limits =
      record {
        kind = "Container";
        default = ("cpu", c) ∷ ("memory", m) ∷ [];
        default_request = ("cpu", c) ∷ ("memory", m) ∷ [];
      }
      ∷ [];
}

-- The default CPU and memory of a tenant's containers.
unfoldable pub tier_defaults : Config → Tenant → TierDefaults
tier_defaults cfg t =
    if t.spec.tier == tier_free
    then cfg.limit_range_defaults.free
    else if t.spec.tier == tier_pro
    then cfg.limit_range_defaults.pro
    else if t.spec.tier == tier_enterprise
    then cfg.limit_range_defaults.enterprise
    else record { default_cpu = "100m"; default_memory = "128Mi" }

module _ (k : Resources) where
  open k use {Quantity, must_parse}

  -- A quota by the texts of its amounts of CPU, memory, pods and storage.
  unfoldable pub build_quota :
      String → String → String → String → String → Tenant → Option (ResourceQuota Quantity)
  build_quota name cpu memory pods storage t = do
    c ← must_parse cpu
    m ← must_parse memory
    p ← must_parse pods
    s ← must_parse storage
    some (quota_of name t c m p s)

  unfoldable pub build_free_tier : Tenant → Option (ResourceQuota Quantity)
  unfolding build_quota
  build_free_tier t = build_quota "tenant-quota-free" "500m" "1Gi" "20" "10Gi" t

  unfoldable pub build_pro_tier : Tenant → Option (ResourceQuota Quantity)
  unfolding build_quota
  build_pro_tier t = build_quota "tenant-quota-pro" "4" "8Gi" "100" "100Gi" t

  unfoldable pub build_enterprise_tier : Tenant → Option (ResourceQuota Quantity)
  unfolding build_quota
  build_enterprise_tier t = build_quota "tenant-quota-enterprise" "8" "16Gi" "200" "200Gi" t

  -- The inner `none` is the nil pointer that a tier outside the three gets.
  unfoldable pub build_resource_quota : Tenant → Option (Option (ResourceQuota Quantity))
  unfolding build_free_tier build_pro_tier build_enterprise_tier
  build_resource_quota t =
      if t.spec.tier == tier_free
      then (build_free_tier t >>= λ q. some (some q))
      else if t.spec.tier == tier_pro
      then (build_pro_tier t >>= λ q. some (some q))
      else if t.spec.tier == tier_enterprise
      then (build_enterprise_tier t >>= λ q. some (some q))
      else some none

  unfoldable pub build_limit_range : Config → Tenant → Option (LimitRange Quantity)
  build_limit_range cfg t = do
    c ← must_parse (tier_defaults cfg t).default_cpu
    m ← must_parse (tier_defaults cfg t).default_memory
    some (limits_of t c m)

abbrev pub same_namespace : NetworkPolicyPeer
same_namespace = record { pod_selector = some []; namespace_selector = none; ip_block = none }

abbrev pub pods_of_namespace : String → NetworkPolicyPeer
pods_of_namespace name = record {
  pod_selector = none;
  namespace_selector = some (("name", name) ∷ []);
  ip_block = none;
}

unfoldable pub ingress_rules : Config → List NetworkPolicyIngressRule
ingress_rules cfg =
    record { peers = same_namespace ∷ [] }
    ∷ record {
      peers =
          record {
            pod_selector = some ((cfg.platform_access_label, "true") ∷ []);
            namespace_selector = some (("name", "k8s-mtp") ∷ []);
            ip_block = none;
          }
          ∷ [];
    }
    ∷ []

abbrev dns_ports : List NetworkPolicyPort
dns_ports = record { protocol = "UDP"; port = 53 } ∷ record { protocol = "TCP"; port = 53 } ∷ []

abbrev pub anywhere : NetworkPolicyPeer
anywhere = record { pod_selector = none; namespace_selector = none; ip_block = some "0.0.0.0/0" }

unfoldable pub egress_rules : Config → List NetworkPolicyEgressRule
egress_rules cfg =
    let inside : List NetworkPolicyEgressRule =
      record { peers = same_namespace ∷ []; ports = [] }
      ∷ record { peers = pods_of_namespace "kube-system" ∷ []; ports = dns_ports }
      ∷ record { peers = pods_of_namespace "k8s-mtp" ∷ []; ports = [] }
      ∷ [] in
    if cfg.tenant_egress_policy == "internet"
    then inside ++ record { peers = anywhere ∷ []; ports = [] } ∷ []
    else inside

unfoldable pub build_network_policy : Config → Tenant → NetworkPolicy
unfolding ingress_rules egress_rules
build_network_policy cfg t = record {
  meta = object_meta "tenant-isolation" t;
  pod_selector = [];
  policy_types = "Ingress" ∷ "Egress" ∷ [];
  ingress = ingress_rules cfg;
  egress = egress_rules cfg;
}
