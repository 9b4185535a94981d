-- ===== src/Tests.antt =====
-- Concrete quantities, a database server, a request codec and a cluster, on which the theorems are tried.
pub mod Tenants
pub mod Pods
pub mod Rows
pub mod Reconciles
pub mod Limits
pub mod Tokens
pub mod Requests
pub mod Installs
pub mod Commands
pub mod Copied
pub mod Starts
pub mod Certs
pub mod Sources
use k8s_mtp.Common.{
  ℕ, String, Bool, true, false, ◌&&◌, Option, none, some, List, [], ◌∷◌, ◌≡◌, ◌≢◌, refl, sym, ap,
  ◌∙◌, arith, ◌==◌, eq_iff, eq_refl, nat_eq, lookup, lookup_or, if◌then◌else◌, Bool-cases,
  Option-cases, inl, inr,
}
use k8s_mtp.Resources.{Resources}
use k8s_mtp.Tenants.{Tenant}
use k8s_mtp.Cluster.{
  Object, namespace, resource_quota, role, role_binding, network_policy, limit_range, ObjectKey,
  key_of, kind_of, with_version, Kind, namespace_kind, resource_quota_kind, role_kind,
  role_binding_kind, network_policy_kind, limit_range_kind,
}
use k8s_mtp.Store.{Postgres, healthy}
use k8s_mtp.Reconciler.Kube.{Client, Answer, ok, err, already_exists, not_found, IsKept}
use k8s_mtp.Reconciler.Rules.{key_of-with_version}
use k8s_mtp.Reconciler.Returns.{Accepts}

-- Amounts in thousandths and in mebibytes.
abbrev amounts : List (String × ℕ)
amounts =
    ("500m", 500)
    ∷ ("1Gi", 1024)
    ∷ ("20", 20000)
    ∷ ("10Gi", 10240)
    ∷ ("4", 4000)
    ∷ ("8Gi", 8192)
    ∷ ("100", 100000)
    ∷ ("100Gi", 102400)
    ∷ ("100m", 100)
    ∷ ("128Mi", 128)
    ∷ []

abbrev pub resources : Resources
resources = record {
  Quantity = ℕ;
  zero_value = 0;
  must_parse = λ s. lookup s amounts;
  equal = nat_eq;
  is_zero = λ q. nat_eq q 0;
  cpu = lookup_or 0 "cpu";
  memory = lookup_or 0 "memory";
}

-- A server that answers every statement and takes every text for a UUID.
abbrev pub postgres : Postgres
postgres = record { uuid = some; health = λ n. healthy; now = λ n. n; plans_values = λ n. true }

abbrev kind_code : Kind → ℕ
kind_code namespace_kind = 0
kind_code resource_quota_kind = 1
kind_code role_kind = 2
kind_code role_binding_kind = 3
kind_code network_policy_kind = 4
kind_code limit_range_kind = 5

abbrev same_key : ObjectKey → ObjectKey → Bool
same_key i j =
    nat_eq (kind_code i.kind) (kind_code j.kind) && (i.namespace == j.namespace && i.name == j.name)

abbrev Objects : Type 0
Objects = ObjectKey → Option (Object ℕ)

abbrev put : Object ℕ → Objects → Objects
put o w j = if same_key j (key_of o) then some (with_version "1" o) else w j

-- The object under the key, if it is of the type that the key says.
abbrev at : ObjectKey → Objects → Option (Object ℕ)
at j w = elim (w j) [
  | none ↦ none
  | some s ↦ if nat_eq (kind_code (kind_of s)) (kind_code j.kind) then some s else none
]

abbrev create : Object ℕ → Objects → Answer (Unit {0}) × Objects
create o w = elim (at (key_of o) w) [
  | none ↦ (ok tt, put o w)
  | some s ↦ (err (already_exists ""), w)
]

abbrev get : Object ℕ → Objects → Answer (Object ℕ) × Objects
get o w = elim (at (key_of o) w) [ none ↦ (err (not_found ""), w) | some s ↦ (ok s, w) ]

abbrev update : Object ℕ → Objects → Answer (Unit {0}) × Objects
update o w = elim (at (key_of o) w) [ none ↦ (err (not_found ""), w) | some s ↦ (ok tt, put o w) ]

-- A cluster that nobody else writes to, with one tenant.
abbrev pub client : Tenant → Client resources
client t = record {
  World = Objects;
  get_tenant = λ name w. (ok t, w);
  update_tenant = λ u w. (ok u, w);
  update_status = λ u w. (ok u, w);
  create = create;
  create_nil = λ w. (err (not_found ""), w);
  get = get;
  update = update;
}

abbrev kind_at : ℕ → Kind
kind_at n =
    if nat_eq n 0
    then namespace_kind
    else if nat_eq n 1
    then resource_quota_kind
    else if nat_eq n 2
    then role_kind
    else if nat_eq n 3
    then role_binding_kind
    else if nat_eq n 4
    then network_policy_kind
    else limit_range_kind

kind_at-kind_code : (a : Kind) → kind_at (kind_code a) ≡ a
kind_at-kind_code namespace_kind = refl
kind_at-kind_code resource_quota_kind = refl
kind_at-kind_code role_kind = refl
kind_at-kind_code role_binding_kind = refl
kind_at-kind_code network_policy_kind = refl
kind_at-kind_code limit_range_kind = refl

kind_code-injective : (a b : Kind) → kind_code a ≡ kind_code b → a ≡ b
kind_code-injective a b e = sym (kind_at-kind_code a) ∙ (ap kind_at e ∙ kind_at-kind_code b)

same_key_sound : (i j : ObjectKey) → same_key i j ≡ true → i ≡ j
same_key_sound i j e = λ x. record { kind = kinds x; namespace = namespaces x; name = names x }
  where
    kinds : i.kind ≡ j.kind
    kinds = kind_code-injective i.kind j.kind (ground (arith, e))

    namespaces : i.namespace ≡ j.namespace
    namespaces = (eq_iff i.namespace j.namespace).0 (ground (arith, e))

    names : i.name ≡ j.name
    names = (eq_iff i.name j.name).0 (ground (arith, e))

same_key_refl : (i : ObjectKey) → same_key i i ≡ true
same_key_refl i = rw (eq_refl i.namespace, eq_refl i.name) (ground arith)

put_same : (o : Object ℕ) (w : Objects) → put o w (key_of o) ≡ some (with_version "1" o)
put_same o w = rw (same_key_refl (key_of o)) refl

put_other : (o : Object ℕ) (w : Objects) (j : ObjectKey) → j ≢ key_of o → put o w j ≡ w j
put_other o w j h = elim (Bool-cases (same_key j (key_of o))) [
  | inl e ↦ absurd (h (same_key_sound _ _ e))
  | inr e ↦ rw e refl
]

with_version-with_version :
    {Q : Type 0} (v w : String) (o : Object Q)
    → with_version v (with_version w o) ≡ with_version v o
with_version-with_version v w (namespace o) = refl
with_version-with_version v w (resource_quota o) = refl
with_version-with_version v w (role o) = refl
with_version-with_version v w (role_binding o) = refl
with_version-with_version v w (network_policy o) = refl
with_version-with_version v w (limit_range o) = refl

at_sound :
    (j : ObjectKey) (w : Objects) (s : Object ℕ)
    → at j w ≡ some s
    → (w j ≡ some s) × (kind_of s ≡ j.kind)
at_sound j w s e = elim (Option-cases (w j)) [
  | inl h ↦ absurd (ground arith)
  | inr (s', h) ↦ elim (Bool-cases (nat_eq (kind_code (kind_of s')) (kind_code j.kind))) [
    | inl f ↦
        let same : some s' ≡ some s = ground (arith, e, h, f) in
        (h ∙ same, kind_code-injective _ _ (ground (arith, f, same)))
    | inr f ↦ absurd (ground arith)
  ]
]

pub client-IsKept : (t : Tenant) → IsKept resources (client t)
client-IsKept t = record {
  stored = λ w j. w j;
  admitted = λ o. o;
  admitted_version = with_version-with_version;
  create_ok = λ o w e. elim (Option-cases (at (key_of o) w)) [
    | inl h ↦ ("1", rw (h, create) (put_same o w))
    | inr (s, h) ↦ absurd (ground arith)
  ];
  create_frame = λ o w j h. elim (Option-cases (at (key_of o) w)) [
    | inl e ↦ rw (e, create) (put_other o w j h)
    | inr (s, e) ↦ rw (e, create) refl
  ];
  get_ok = λ o w s e. elim (Option-cases (at (key_of o) w)) [
    | inl h ↦ absurd (ground arith)
    | inr (s', h) ↦ (at_sound (key_of o) w s (h ∙ ap some (ground arith))).0
  ];
  get_frame = λ o w j. elim (Option-cases (at (key_of o) w)) [
    | inl h ↦ rw (h, get) refl
    | inr (s, h) ↦ rw (h, get) refl
  ];
  update_ok = λ o w e. elim (Option-cases (at (key_of o) w)) [
    | inl h ↦ absurd (ground arith)
    | inr (s, h) ↦ ("1", rw (h, update) (put_same o w))
  ];
  update_frame = λ o w j h. elim (Option-cases (at (key_of o) w)) [
    | inl e ↦ rw (e, update) refl
    | inr (s, e) ↦ rw (e, update) (put_other o w j h)
  ];
  create_nil_frame = λ w j. refl;
  get_tenant_frame = λ name w j. refl;
  update_tenant_frame = λ u w j. refl;
  update_status_frame = λ u w j. refl;
  update_status_ok = λ u v w e. ground arith;
}

update_found :
    (o : Object ℕ) (w : Objects) (s : Object ℕ) → at (key_of o) w ≡ some s → (update o w).0 ≡ ok tt
update_found o w s e = rw (e, update) refl

pub client-Accepts : (t : Tenant) → Accepts resources (client t)
client-Accepts t = record {
  created = λ o w. elim (Option-cases (at (key_of o) w)) [
    | inl e ↦ inl (rw (e, create) refl)
    | inr (s, e) ↦ inr ("", rw (e, create) refl)
  ];
  found = λ o w m h. elim (Option-cases (at (key_of o) w)) [
    | inl e ↦ absurd (ground arith)
    | inr (s, e) ↦ (s, rw (e, create) (rw (e, get) refl), (at_sound (key_of o) w s e).1)
  ];
  written = λ o w m v h. elim (Option-cases (at (key_of o) w)) [
    | inl e ↦ absurd (ground arith)
    | inr (s, e) ↦
        rw (e, create)
          (rw (e, get)
            (update_found (with_version v o) w s (ap (λ j. at j w) (key_of-with_version v o) ∙ e)))
  ];
  status_taken = λ u w. (u, refl);
}
