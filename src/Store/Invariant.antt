-- ===== src/Store/Invariant.antt =====
-- The constraints of internal/store/migrations/001_initial_schema.up.sql, as an invariant of the
-- statements of internal/store.
use k8s_mtp.Common.{
  ℕ, String, Bool, true, false, List, ◌∷◌, map, ◌≡◌, ◌∙◌, ap, refl, arith, ◌==◌, if◌then◌else◌, any,
  All, All-map, Bool-cases, inl, inr, Option-cases,
}
use k8s_mtp.Store.{
  TenantRow, MemberRow, Database, Postgres, Health, healthy, refused, lost, Statement, exec,
  with_uuid, sent,
}
use k8s_mtp.Store.Members.{is_member}
use k8s_mtp.Store.Distinct.{Distinct, Distinct-map, any-map_same}

abbrev pub same_id : TenantRow → TenantRow → Bool
same_id r s = s.id == r.id

abbrev pub same_name : TenantRow → TenantRow → Bool
same_name r s = s.name == r.name

abbrev pub same_namespace : TenantRow → TenantRow → Bool
same_namespace r s = s.namespace == r.namespace

abbrev pub same_member : MemberRow → MemberRow → Bool
same_member m n = is_member m.tenant_id m.user_id n

abbrev pub has_tenant : List TenantRow → String → Bool
has_tenant rows id = any (λ r. r.id == id) rows

-- Ids, names and namespaces of tenants are unique, deleted ones included; a user is in a tenant once;
-- and each member's tenant has a row.
pub record IsValid (db : Database) : Type 0 where
  pub unique_ids : Distinct same_id db.tenants
  pub unique_names : Distinct same_name db.tenants
  pub unique_namespaces : Distinct same_namespace db.tenants
  pub unique_members : Distinct same_member db.members
  pub known_tenants : All (λ m. has_tenant db.tenants m.tenant_id ≡ true) db.members

abbrev pub Keeps : {A : Type 0} → Statement A → Type 0
Keeps statement = (now : ℕ) (db : Database) → IsValid db → IsValid (statement now db).1

sent-IsValid : (db : Database) → IsValid db → IsValid (sent db)
sent-IsValid db v = record {
  unique_ids = v.unique_ids;
  unique_names = v.unique_names;
  unique_namespaces = v.unique_namespaces;
  unique_members = v.unique_members;
  known_tenants = v.known_tenants;
}

pub exec-IsValid :
    {A : Type 0} (pg : Postgres) (statement : Statement A) (db : Database)
    → Keeps statement
    → IsValid db
    → IsValid (exec pg statement db).1
unfolding exec
exec-IsValid pg statement db h v = by_health (pg.health db.statements) refl
  where
    by_health : (x : Health) → pg.health db.statements ≡ x → IsValid (exec pg statement db).1
    by_health healthy e = rw (e, exec) (h _ _ (sent-IsValid db v))
    by_health (refused m) e = rw (e, exec) (sent-IsValid db v)
    by_health (lost m) e = rw (e, exec) (h _ _ (sent-IsValid db v))

pub with_uuid-Keeps :
    {A : Type 0} (pg : Postgres) (text : String) (statement : String → Statement A)
    → ((id : String) → Keeps (statement id))
    → Keeps (with_uuid pg text statement)
with_uuid-Keeps pg text statement h now db v = elim (Option-cases (pg.uuid text)) [
  | inl e ↦ rw (e, with_uuid) v
  | inr (id, e) ↦ rw (e, with_uuid) (h id now db v)
]

-- A row that differs from the others may be added.
pub add_row-IsValid :
    (r : TenantRow) (db : Database)
    → any (same_id r) db.tenants ≡ false
    → any (same_name r) db.tenants ≡ false
    → any (same_namespace r) db.tenants ≡ false
    → IsValid db
    → IsValid (record db { tenants = r ∷ db.tenants })
add_row-IsValid r db i n s v = record {
  unique_ids = (i, v.unique_ids);
  unique_names = (n, v.unique_names);
  unique_namespaces = (s, v.unique_namespaces);
  unique_members = v.unique_members;
  known_tenants = All-map (λ m h. ground (arith, h)) db.members v.known_tenants;
}

-- A change of rows that leaves their ids, names and namespaces alone.
abbrev pub IsUpdate : (TenantRow → TenantRow) → Type 0
IsUpdate f =
    (r : TenantRow) → ((f r).id ≡ r.id) × ((f r).name ≡ r.name) × ((f r).namespace ≡ r.namespace)

pub set_row-IsValid :
    (db : Database) (f : TenantRow → TenantRow)
    → IsUpdate f
    → IsValid db
    → IsValid (record db { tenants = map f db.tenants })
set_row-IsValid db f h v = record {
  unique_ids = Distinct-map same_id f db.tenants (λ x y. rw ((h x).0, (h y).0) refl) v.unique_ids;
  unique_names =
      Distinct-map same_name f db.tenants (λ x y. rw ((h x).1, (h y).1) refl) v.unique_names;
  unique_namespaces =
      Distinct-map same_namespace f db.tenants (λ x y. rw ((h x).2, (h y).2) refl)
        v.unique_namespaces;
  unique_members = v.unique_members;
  known_tenants =
      All-map
        (λ m k.
          any-map_same (λ r. r.id == m.tenant_id) f db.tenants
            (λ y. ap (λ i. i == m.tenant_id) (h y).0)
          ∙ k)
        db.members v.known_tenants;
}

pub if-IsUpdate :
    (p : TenantRow → Bool) (f : TenantRow → TenantRow)
    → IsUpdate f
    → IsUpdate (λ r. if p r then f r else r)
if-IsUpdate p f h r = elim (Bool-cases (p r)) [
  | inl e ↦ rw e (h r)
  | inr e ↦ rw e (refl, refl, refl)
]
