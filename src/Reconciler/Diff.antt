-- ===== src/Reconciler/Diff.antt =====
-- internal/reconciler/tenant_reconciler.go: when an object of the cluster differs from the desired one.
use k8s_mtp.Common.{
  String, Bool, true, false, not, ◌||◌, List, [], ◌∷◌, map, Option, none, some, ◌<>◌, ◌==◌,
  if◌then◌else◌, nat_eq, length, any, lookup_or, sort, join,
}
use k8s_mtp.Resources.{Resources}
use k8s_mtp.Cluster.{
  OwnerReference, Namespace, PolicyRule, Role, Subject, RoleBinding, NetworkPolicy, ResourceQuota,
  LimitRangeItem, LimitRange, Object, namespace, resource_quota, role, role_binding, network_policy,
  limit_range,
}

-- The loops over annotations and labels: `len(current) != len(desired)`, then
-- `current[k] != v` for an entry of `desired`.
unfoldable pub texts_differ : List (String × String) → List (String × String) → Bool
unfolding lookup_or
texts_differ current desired =
    not (nat_eq (length current) (length desired))
    || any (λ e. not (lookup_or "" e.0 current == e.1)) desired

-- The inner loop over owner references: the first one with the same UID decides.
unfoldable pub reference_differs : List OwnerReference → OwnerReference → Bool
reference_differs [] d = true
reference_differs (c ∷ cs) d =
    if c.uid == d.uid
    then not (c.api_version == d.api_version) || (not (c.kind == d.kind) || not (c.name == d.name))
    else reference_differs cs d

unfoldable pub owners_differ : List OwnerReference → List OwnerReference → Bool
unfolding reference_differs
owners_differ current desired =
    not (nat_eq (length current) (length desired)) || any (reference_differs current) desired

unfoldable pub ns_needs_update : Namespace → Namespace → Bool
ns_needs_update current desired =
    texts_differ current.meta.annotations desired.meta.annotations
    || (owners_differ current.meta.owner_references desired.meta.owner_references
        || texts_differ current.meta.labels desired.meta.labels)

-- `strings.Join` of the sorted lists; the sorted `ResourceNames` are not part of the key.
unfoldable pub normalize_rule : PolicyRule → String
normalize_rule rule =
    join "," (sort rule.api_groups)
    <> ("|" <> (join "," (sort rule.resources) <> ("|" <> join "," (sort rule.verbs))))

-- `set[key]` for the set of the keys of some rules or subjects.
unfoldable pub has_key : List String → String → Bool
has_key keys key = any (λ j. j == key) keys

unfoldable pub role_needs_update : Role → Role → Bool
unfolding has_key
role_needs_update current desired =
    let current_rules = map normalize_rule current.rules in
    let desired_rules = map normalize_rule desired.rules in
    texts_differ current.meta.annotations desired.meta.annotations
    || (owners_differ current.meta.owner_references desired.meta.owner_references
        || (texts_differ current.meta.labels desired.meta.labels
            || (not (nat_eq (length current.rules) (length desired.rules))
                || (any (λ key. not (has_key current_rules key)) desired_rules
                    || any (λ key. not (has_key desired_rules key)) current_rules))))

unfoldable pub subject_key : Subject → String
subject_key s = s.kind <> ("|" <> (s.api_group <> ("|" <> s.name)))

unfoldable pub rb_needs_update : RoleBinding → RoleBinding → Bool
unfolding has_key
rb_needs_update current desired =
    let current_subjects = map subject_key current.subjects in
    texts_differ current.meta.annotations desired.meta.annotations
    || (not (nat_eq (length current.subjects) (length desired.subjects))
        || (any (λ s. not (has_key current_subjects (subject_key s))) desired.subjects
            || (owners_differ current.meta.owner_references desired.meta.owner_references
                || (texts_differ current.meta.labels desired.meta.labels
                    || (not (current.role_ref.api_group == desired.role_ref.api_group)
                        || (not (current.role_ref.kind == desired.role_ref.kind)
                            || not (current.role_ref.name == desired.role_ref.name)))))))

unfoldable pub np_needs_update : NetworkPolicy → NetworkPolicy → Bool
np_needs_update current desired =
    not (nat_eq (length current.policy_types) (length desired.policy_types))
    || (not (nat_eq (length current.ingress) (length desired.ingress))
        || not (nat_eq (length current.egress) (length desired.egress)))

module _ (k : Resources) where
  open k use {Quantity, zero_value, equal}

  -- The loop over quantities: `!current[k].Equal(v)` for an entry of `desired`.
  unfoldable pub amounts_differ : List (String × Quantity) → List (String × Quantity) → Bool
  unfolding lookup_or
  amounts_differ current desired =
      not (nat_eq (length current) (length desired))
      || any (λ e. not (equal (lookup_or zero_value e.0 current) e.1)) desired

  unfoldable pub rq_needs_update : ResourceQuota Quantity → ResourceQuota Quantity → Bool
  rq_needs_update current desired =
      amounts_differ current.hard desired.hard
      || (texts_differ current.meta.annotations desired.meta.annotations
          || (texts_differ current.meta.labels desired.meta.labels
              || owners_differ current.meta.owner_references desired.meta.owner_references))

  -- The loop over the items, which the caller has found to be as many.
  unfoldable pub items_differ :
      List (LimitRangeItem Quantity) → List (LimitRangeItem Quantity) → Bool
  items_differ current [] = false
  items_differ [] (d ∷ ds) = true
  items_differ (c ∷ cs) (d ∷ ds) = amounts_differ c.default d.default || items_differ cs ds

  unfoldable pub lr_needs_update : LimitRange Quantity → LimitRange Quantity → Bool
  unfolding items_differ
  lr_needs_update current desired =
      not (nat_eq (length current.limits) (length desired.limits))
      || items_differ current.limits desired.limits

  -- `none` is the panic of a type assertion: the two objects are of different types.
  unfoldable pub needs_update : Object Quantity → Object Quantity → Option Bool
  needs_update (namespace c) (namespace d) = some (ns_needs_update c d)
  needs_update (resource_quota c) (resource_quota d) = some (rq_needs_update c d)
  needs_update (role c) (role d) = some (role_needs_update c d)
  needs_update (role_binding c) (role_binding d) = some (rb_needs_update c d)
  needs_update (network_policy c) (network_policy d) = some (np_needs_update c d)
  needs_update (limit_range c) (limit_range d) = some (lr_needs_update c d)
  needs_update _ _ = none
