-- ===== src/Store/Kept.antt =====
-- Every call of internal/store keeps the constraints of the schema.
use k8s_mtp.Common.{
  String, Bool, true, not, ◌||◌, Option, map, ◌≡◌, ◌∙◌, ap, refl, ◌==◌, eq_iff, if◌then◌else◌, any,
  keep, Bool-cases, inl, inr, Option-cases,
}
use k8s_mtp.Tenants.{Tenant}
use k8s_mtp.Store.{
  TenantRow, MemberRow, Database, Postgres, ok, Statement, exec, with_uuid, row_of, live_with_id,
  insert_tenant, create_tenant, update_row, update_tenant, mark_deleted, insert_kept, write_kept,
  delete_tenant, remove_row, hard_delete_tenant,
}
use k8s_mtp.Store.Members.{
  is_member, kept_member, upsert_kept, upsert_member, add_member, remove_member,
}
use k8s_mtp.Store.Columns.{kept_edit, kept_tenant}
use k8s_mtp.Store.Distinct.{Distinct-keep, Distinct-map, any-keep-true, All-keep, All-of_map}
use k8s_mtp.Store.{
  get_tenant_by_id, get_tenant_by_name, list_tenants, select_row, scanned_row, live_with_name,
  scanned, is_live, find,
}
use k8s_mtp.Store.Members.{list_members, get_member_role, member_of, role_of}
use k8s_mtp.Store.Invariant.{
  IsValid, Keeps, same_id, same_name, same_namespace, same_member, has_tenant, exec-IsValid,
  with_uuid-Keeps, add_row-IsValid, set_row-IsValid, if-IsUpdate,
}

insert_kept-IsValid : (t : Tenant) (id : String) → Keeps (insert_kept t id)
unfolding insert_kept
insert_kept-IsValid t id now db v =
    elim (Bool-cases (any (same_name (row_of id now t)) db.tenants)) [
      | inl n ↦ rw (n, insert_kept) v
      | inr n ↦ elim (Bool-cases (any (same_id (row_of id now t)) db.tenants)) [
        | inl i ↦ rw (n, i, insert_kept) v
        | inr i ↦ elim (Bool-cases (any (same_namespace (row_of id now t)) db.tenants)) [
          | inl s ↦ rw (n, i, s, insert_kept) v
          | inr s ↦ rw (n, i, s, insert_kept) (add_row-IsValid (row_of id now t) db i n s v)
        ]
      ]
    ]

insert_tenant-IsValid : (t : Tenant) (id : String) → Keeps (insert_tenant t id)
unfolding insert_tenant
insert_tenant-IsValid t id now db v = elim (Option-cases (kept_tenant t)) [
  | inl e ↦ rw (e, insert_tenant) v
  | inr (s, e) ↦ rw (e, insert_tenant) (insert_kept-IsValid s id now db v)
]

update_row-IsValid : (plans : Bool) (t : Tenant) (id : String) → Keeps (update_row plans t id)
unfolding update_row write_kept
update_row-IsValid plans t id now db v = elim (Option-cases (kept_edit t)) [
  | inr (s, e) ↦
      rw (e, update_row)
        (set_row-IsValid db _ (if-IsUpdate (live_with_id id) _ (λ r. (refl, refl, refl))) v)
  | inl e ↦ elim (Bool-cases (plans || any (live_with_id id) db.tenants)) [
    | inl f ↦ rw (e, update_row) (rw f v)
    | inr f ↦ rw (e, update_row) (rw f v)
  ]
]

mark_deleted-IsValid : (id : String) → Keeps (mark_deleted id)
unfolding mark_deleted
mark_deleted-IsValid id now db v =
    set_row-IsValid db _ (if-IsUpdate (live_with_id id) _ (λ r. (refl, refl, refl))) v

remove_row-IsValid : (id : String) → Keeps (remove_row id)
unfolding remove_row
remove_row-IsValid id now db v = record {
  unique_ids = Distinct-keep same_id _ db.tenants v.unique_ids;
  unique_names = Distinct-keep same_name _ db.tenants v.unique_names;
  unique_namespaces = Distinct-keep same_namespace _ db.tenants v.unique_namespaces;
  unique_members = Distinct-keep same_member _ db.members v.unique_members;
  known_tenants =
      All-keep _ _ _ db.members
        (λ m e h.
          any-keep-true (λ r. r.id == m.tenant_id) (λ r. not (r.id == id)) db.tenants
            (λ r d. other r m e d) h)
        v.known_tenants;
}
  where
    other :
        (r : TenantRow) (m : MemberRow)
        → not (m.tenant_id == id) ≡ true
        → (r.id == m.tenant_id) ≡ true
        → not (r.id == id) ≡ true
    other r m e d = ap (λ i. not (i == id)) ((eq_iff r.id m.tenant_id).0 d) ∙ e

abbrev changed : String → String → String → MemberRow → MemberRow
changed id user role m = if is_member id user m then record m { role = role } else m

set_role-IsValid :
    (id user role : String) (db : Database)
    → IsValid db
    → IsValid (record db {
      members = map (λ m. if is_member id user m then record m { role = role } else m) db.members;
    })
set_role-IsValid id user role db v = record {
  unique_ids = v.unique_ids;
  unique_names = v.unique_names;
  unique_namespaces = v.unique_namespaces;
  unique_members =
      Distinct-map same_member (changed id user role) db.members
        (λ x y. rw ((parts x).0, (parts x).1, (parts y).0, (parts y).1) refl) v.unique_members;
  known_tenants =
      All-of_map _ (changed id user role) db.members
        (λ m h. ap (has_tenant db.tenants) (parts m).0 ∙ h) v.known_tenants;
}
  where
    parts :
        (m : MemberRow)
        → ((changed id user role m).tenant_id ≡ m.tenant_id)
          × ((changed id user role m).user_id ≡ m.user_id)
    parts m = elim (Bool-cases (is_member id user m)) [
      | inl e ↦ rw e (refl, refl)
      | inr e ↦ rw e (refl, refl)
    ]

upsert_kept-IsValid : (user role id : String) → Keeps (upsert_kept user role id)
unfolding upsert_kept
upsert_kept-IsValid user role id now db v = elim (Bool-cases (any (is_member id user) db.members)) [
  | inl h ↦ rw (h, upsert_kept) (set_role-IsValid id user role db v)
  | inr h ↦ elim (Bool-cases (has_tenant db.tenants id)) [
    | inr k ↦ rw (h, k, upsert_kept) v
    | inl k ↦
        rw (h, k, upsert_kept)
          record {
            unique_ids = v.unique_ids;
            unique_names = v.unique_names;
            unique_namespaces = v.unique_namespaces;
            unique_members = (h, v.unique_members);
            known_tenants = (k, v.known_tenants);
          }
  ]
]

upsert_member-IsValid : (user role id : String) → Keeps (upsert_member user role id)
unfolding upsert_member
upsert_member-IsValid user role id now db v = elim (Option-cases (kept_member user role)) [
  | inl e ↦ rw (e, upsert_member) v
  | inr ((u, r), e) ↦ rw (e, upsert_member) (upsert_kept-IsValid u r id now db v)
]

-- A call of the store with its arguments.
pub data Call : Type 0 where
  create update : Tenant → Call
  get_by_id get_by_name delete hard_delete members_of : String → Call
  list : Call
  add : String → String → String → Call
  remove role_in : String → String → Call

-- The tables after a call, whatever it answers.
unfoldable pub run : Postgres → Call → Database → Database
unfolding create_tenant update_tenant get_tenant_by_id get_tenant_by_name list_tenants delete_tenant
    hard_delete_tenant list_members get_member_role add_member remove_member
run pg (create t) db = (create_tenant pg t db).1
run pg (update t) db = (update_tenant pg t db).1
run pg (get_by_id id) db = (get_tenant_by_id pg id db).1
run pg (get_by_name name) db = (get_tenant_by_name pg name db).1
run pg list db = (list_tenants pg db).1
run pg (delete id) db = (delete_tenant pg id db).1
run pg (hard_delete id) db = (hard_delete_tenant pg id db).1
run pg (members_of id) db = (list_members pg id db).1
run pg (role_in id user) db = (get_member_role pg id user db).1
run pg (add id user role) db = (add_member pg id user role db).1
run pg (remove id user) db = (remove_member pg id user db).1

select_row-Keeps : {A : Type 0} (o : Database → Option A) → Keeps (λ now d. select_row (o d) d)
select_row-Keeps o now db v = elim (Option-cases (o db)) [
  | inl e ↦ rw (e, select_row) v
  | inr (a, e) ↦ rw (e, select_row) v
]

abbrev pub without : String → String → Statement (Unit {0})
without id user now d =
    (ok tt, record d { members = keep (λ m. not (is_member id user m)) d.members })

without-IsValid : (id user : String) → Keeps (without id user)
without-IsValid id user now db v = record {
  unique_ids = v.unique_ids;
  unique_names = v.unique_names;
  unique_namespaces = v.unique_namespaces;
  unique_members = Distinct-keep same_member _ db.members v.unique_members;
  known_tenants = All-keep _ _ _ db.members (λ m e h. h) v.known_tenants;
}

-- A statement about an id.
by_id-IsValid :
    {A : Type 0} (pg : Postgres) (text : String) (statement : String → Statement A) (db : Database)
    → ((id : String) → Keeps (statement id))
    → IsValid db
    → IsValid (exec pg (with_uuid pg text statement) db).1
by_id-IsValid pg text statement db h v =
    exec-IsValid pg (with_uuid pg text statement) db (with_uuid-Keeps pg text statement h) v

abbrev pub tenant_row : String → Database → Option Tenant
tenant_row id d = scanned_row (find (live_with_id id) d.tenants)

abbrev pub named_row : String → Database → Option Tenant
named_row name d = scanned_row (find (live_with_name name) d.tenants)

abbrev pub member_role : String → String → Database → Option String
member_role user id d = role_of (find (is_member id user) d.members)

-- Every call of the store, answered or not, keeps the constraints of the schema.
pub run-IsValid :
    (pg : Postgres) (call : Call) (db : Database) → IsValid db → IsValid (run pg call db)
unfolding run create_tenant update_tenant get_tenant_by_id get_tenant_by_name list_tenants
    delete_tenant hard_delete_tenant list_members get_member_role add_member remove_member
run-IsValid pg (create t) db v =
    by_id-IsValid pg t.uid (insert_tenant t) db (insert_tenant-IsValid t) v
run-IsValid pg (update t) db v =
    by_id-IsValid pg t.uid (update_row (pg.plans_values db.statements) t) db
      (update_row-IsValid (pg.plans_values db.statements) t) v
run-IsValid pg (get_by_id id) db v =
    by_id-IsValid pg id (λ i now d. select_row (tenant_row i d) d) db
      (λ i. select_row-Keeps (tenant_row i)) v
run-IsValid pg (get_by_name name) db v =
    exec-IsValid pg (λ now d. select_row (named_row name d) d) db
      (select_row-Keeps (named_row name)) v
run-IsValid pg list db v =
    exec-IsValid pg (λ now d. (ok (map scanned (keep is_live d.tenants)), d)) db (λ now d h. h) v
run-IsValid pg (delete id) db v = by_id-IsValid pg id mark_deleted db mark_deleted-IsValid v
run-IsValid pg (hard_delete id) db v = by_id-IsValid pg id remove_row db remove_row-IsValid v
run-IsValid pg (members_of id) db v =
    by_id-IsValid pg id
      (λ i now d. (ok (map member_of (keep (λ m. m.tenant_id == i) d.members)), d)) db
      (λ i now d h. h) v
run-IsValid pg (role_in id user) db v =
    by_id-IsValid pg id (λ i now d. select_row (member_role user i d) d) db
      (λ i. select_row-Keeps (member_role user i)) v
run-IsValid pg (add id user role) db v =
    by_id-IsValid pg id (upsert_member user role) db (upsert_member-IsValid user role) v
run-IsValid pg (remove id user) db v =
    by_id-IsValid pg id (λ i. without i user) db (λ i. without-IsValid i user) v
