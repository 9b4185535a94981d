-- ===== src/Store/Rows.antt =====
-- internal/store: what is read after a write of internal/store/tenant.go and internal/store/member.go.
use k8s_mtp.Common.{
  ℕ, suc, String, true, false, Option, none, some, List, [], ◌∷◌, map, ◌≡◌, ◌≢◌, ◌∙◌, ap, refl,
  arith, ◌==◌, eq_iff, eq_refl, if◌then◌else◌, any, find, Bool-cases, inl, inr,
}
use k8s_mtp.Tenants.{Tenant}
use k8s_mtp.Store.{
  TenantRow, MemberRow, Database, Postgres, healthy, Statement, ok, err, failed, exec, with_uuid,
  sent, row_of, set_row, live_with_id, insert_tenant, insert_kept, create_tenant, created,
  get_tenant_by_id, scanned_row, select_row, nil_if_no_rows,
}
use k8s_mtp.Store.Columns.{fits_columns, kept_tenant_fitting}
use k8s_mtp.Store.Members.{is_member, role_of}

-- The values of the tenant can be inserted under the id.
pub record IsNew (t : Tenant) (id : String) (db : Database) : Type 0 where
  pub fitting : fits_columns t ≡ true
  pub new_name : any (λ r. r.name == t.spec.name) db.tenants ≡ false
  pub new_id : any (λ r. r.id == id) db.tenants ≡ false
  pub new_namespace : any (λ r. r.namespace == t.status.namespace) db.tenants ≡ false

abbrev pub added : String → ℕ → Tenant → Database → Database
added id now t db = record (sent db) { tenants = row_of id now t ∷ db.tenants }

insert_new :
    (t : Tenant) (id : String) (now : ℕ) (db : Database)
    → IsNew t id db
    → insert_tenant t id now (sent db) ≡ (ok now, added id now t db)
unfolding insert_tenant insert_kept
insert_new t id now db n =
    rw (kept_tenant_fitting t n.fitting, insert_tenant)
      (rw (n.new_name, n.new_id, n.new_namespace, insert_kept) refl)

-- A statement about an id, where the server is well.
pub exec_id :
    {A : Type 0} (pg : Postgres) (text id : String) (statement : String → Statement A)
    (db : Database)
    → pg.uuid text ≡ some id
    → pg.health db.statements ≡ healthy
    → exec pg (with_uuid pg text statement) db ≡ statement id (pg.now db.statements) (sent db)
unfolding exec
exec_id pg text id statement db u h = rw (h, exec) (rw (u, with_uuid) refl)

pub create_new :
    (pg : Postgres) (t : Tenant) (id : String) (db : Database)
    → pg.uuid t.uid ≡ some id
    → pg.health db.statements ≡ healthy
    → IsNew t id db
    → create_tenant pg t db ≡ (
      ok (record t { creation_timestamp = some (pg.now db.statements) }),
      added id (pg.now db.statements) t db,
    )
unfolding create_tenant
create_new pg t id db u h n =
    ap (λ x. (created t x.0, x.1))
      (exec_id pg t.uid id (insert_tenant t) db u h ∙ insert_new t id (pg.now db.statements) db n)

-- What is read of a row by its id, where the server is well.
pub get_read :
    (pg : Postgres) (uid id : String) (db : Database)
    → pg.uuid uid ≡ some id
    → pg.health db.statements ≡ healthy
    → get_tenant_by_id pg uid db ≡ (
      nil_if_no_rows (select_row (scanned_row (find (live_with_id id) db.tenants)) db).0,
      sent db,
    )
unfolding get_tenant_by_id
get_read pg uid id db u h =
    ap (λ x. (nil_if_no_rows x.0, x.1))
      (exec_id pg uid id (λ i now d. select_row (scanned_row (find (live_with_id i) d.tenants)) d)
          db u h
        ∙ select_lem (scanned_row (find (live_with_id id) db.tenants)) (sent db) db)
  where
    select_lem : (o : Option Tenant) (d e : Database) → select_row o d ≡ ((select_row o e).0, d)
    select_lem none d e = refl
    select_lem (some a) d e = refl

pub marked_not_found :
    (id : String) (now : ℕ) (rows : List TenantRow)
    → find
        (live_with_id id)
        (set_row (live_with_id id) (λ r. record r { deleted_at = some now }) rows)
      ≡ none
marked_not_found id now [] = refl
marked_not_found id now (r ∷ rows) = elim (Bool-cases (live_with_id id r)) [
  | inl e ↦ rw e (ground (arith, marked_not_found id now rows))
  | inr e ↦ rw e (rw e (marked_not_found id now rows))
]

taken_namespace :
    (t : Tenant) (j : String) (now : ℕ) (db : Database)
    → fits_columns t ≡ true
    → any (λ r. r.name == t.spec.name) db.tenants ≡ false
    → any (λ r. r.namespace == t.status.namespace) db.tenants ≡ true
    → (insert_tenant t j now db).0 ≡ err (failed "duplicate key value violates unique constraint")
unfolding insert_tenant insert_kept
taken_namespace t j now db f n s =
    rw (kept_tenant_fitting t f, insert_tenant) (ground (arith, n, s))

-- Two tenants that are both new but have the same namespace, as two have before their namespaces are set,
-- cannot both be created: the second call fails on the constraint of the namespaces.
pub create-create_unplaced :
    (pg : Postgres) (s t : Tenant) (i j : String) (db : Database)
    → pg.uuid s.uid ≡ some i
    → pg.uuid t.uid ≡ some j
    → pg.health db.statements ≡ healthy
    → pg.health (suc db.statements) ≡ healthy
    → IsNew s i db
    → IsNew t j db
    → s.spec.name ≢ t.spec.name
    → s.status.namespace ≡ t.status.namespace
    → (create_tenant pg t (create_tenant pg s db).1).0
      ≡ err (failed "duplicate key value violates unique constraint")
unfolding create_tenant
create-create_unplaced pg s t i j db u v h k m n d e =
    ap (λ x. (create_tenant pg t x.1).0) (create_new pg s i db u h m)
    ∙ ap (λ x. created t x.0) (exec_id pg t.uid j (insert_tenant t) after v k)
    ∙ ap (created t) (
        taken_namespace t j (pg.now (suc db.statements)) (sent after) n.fitting
          (ground (arith, d, n.new_name, eq_iff s.spec.name t.spec.name))
          (ground
            (arith, e, eq_refl t.status.namespace, eq_iff s.status.namespace t.status.namespace)))
  where
    after : Database
    after = added i (pg.now db.statements) s db

pub set_role_found :
    (id user role : String) (rows : List MemberRow)
    → any (is_member id user) rows ≡ true
    → role_of (
        find
          (is_member id user)
          (map (λ m. if is_member id user m then record m { role = role } else m) rows))
      ≡ some role
set_role_found id user role [] h = ground (arith, h)
set_role_found id user role (m ∷ rows) h = elim (Bool-cases (is_member id user m)) [
  | inl e ↦ rw e (rw e refl)
  | inr e ↦ rw e (rw e (set_role_found id user role rows (ground (arith, e, h))))
]
