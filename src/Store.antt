-- ===== src/Store.antt =====
-- internal/store: the statements of tenant.go and member.go on the tables of
-- migrations/001_initial_schema.up.sql.
pub mod Columns
pub mod Members
pub mod Distinct
pub mod Invariant
pub mod Kept
pub mod Rows
pub mod Catalog
pub mod Found
pub mod Acts
pub mod Refined
use k8s_mtp.Common.{
  ℕ, suc, String, Bool, true, false, not, ◌&&◌, ◌||◌, Option, none, some, List, [], ◌∷◌, map, ◌==◌,
  if◌then◌else◌, any, keep, find,
}
use k8s_mtp.Tenants.{Tenant, TenantSpec, TenantStatus}
use k8s_mtp.Store.Columns.{kept_edit, kept_tenant}

-- A row of `tenants`; `deleted_at` is NULL in a row that is not deleted.
pub record TenantRow : Type 0 where
  pub id : String
  pub name : String
  pub namespace : String
  pub tier : String
  pub owner_email : String
  pub created_at : ℕ
  pub updated_at : ℕ
  pub deleted_at : Option ℕ

-- A row of `tenant_members`, less its `id`, which no statement reads.
pub record MemberRow : Type 0 where
  pub tenant_id : String
  pub user_id : String
  pub role : String
  pub created_at : ℕ

-- The tables, and how many statements the server has been sent.
pub record Database : Type 0 where
  pub tenants : List TenantRow
  pub members : List MemberRow
  pub statements : ℕ

-- What becomes of a statement: it is carried out and answered, refused with no effect, or carried out
-- and its answer lost. Both faults reach the code as an error.
pub data Health : Type 0 where
  healthy : Health
  refused : String → Health
  lost : String → Health

-- PostgreSQL and the connection to it, as a parameter: the canonical form of a text that can be read
-- as a UUID, the fate of the n-th statement, the value of `NOW()` in it, and whether its planner cuts the
-- values to the columns before any row is looked for.
pub record Postgres : Type 0 where
  pub uuid : String → Option String
  pub health : ℕ → Health
  pub now : ℕ → ℕ
  pub plans_values : ℕ → Bool

pub data StoreError : Type 0 where
  no_rows : StoreError
  failed : String → StoreError

pub data Result (A : Type 0) : Type 0 where
  ok : A → Result A
  err : StoreError → Result A

-- A statement, given the value of `NOW()`.
abbrev pub Statement : Type 0 → Type 0
Statement A = ℕ → Database → Result A × Database

abbrev pub sent : Database → Database
sent db = record db { statements = suc db.statements }

-- Sends a statement to the server.
unfoldable pub exec : {A : Type 0} → Postgres → Statement A → Database → Result A × Database
exec pg statement db = elim (pg.health db.statements) [
  | healthy ↦ statement (pg.now db.statements) (sent db)
  | refused message ↦ (err (failed message), sent db)
  | lost message ↦ (err (failed message), (statement (pg.now db.statements) (sent db)).1)
]

-- Runs the statement with a text that is cast to UUID.
abbrev pub with_uuid : {A : Type 0} → Postgres → String → (String → Statement A) → Statement A
with_uuid pg text statement now db = elim (pg.uuid text) [
  | none ↦ (err (failed "invalid input syntax for type uuid"), db)
  | some id ↦ statement id now db
]

abbrev pub is_live : TenantRow → Bool
is_live r = elim r.deleted_at [ none ↦ true | some at ↦ false ]

-- `WHERE id = $1 AND deleted_at IS NULL`.
abbrev pub live_with_id : String → TenantRow → Bool
live_with_id id r = r.id == id && is_live r

abbrev pub live_with_name : String → TenantRow → Bool
live_with_name name r = r.name == name && is_live r

-- What `Scan` makes of `id, name, namespace, tier, owner_email`, in a fresh `Tenant`.
abbrev pub scanned : TenantRow → Tenant
scanned r = record {
  name = "";
  uid = r.id;
  finalizers = [];
  creation_timestamp = none;
  deletion_timestamp = none;
  spec = record {
    name = r.name;
    tier = r.tier;
    owner_email = r.owner_email;
    admins = [];
    operators = [];
  };
  status = record { phase = ""; namespace = r.namespace };
}

abbrev pub row_of : String → ℕ → Tenant → TenantRow
row_of id now t = record {
  id = id;
  name = t.spec.name;
  namespace = t.status.namespace;
  tier = t.spec.tier;
  owner_email = t.spec.owner_email;
  created_at = now;
  updated_at = now;
  deleted_at = none;
}

-- A row with the same name makes the statement return no row; one with the same id or namespace violates
-- a constraint.
unfoldable pub insert_kept : Tenant → String → Statement ℕ
insert_kept t id now db =
    if any (λ r. r.name == t.spec.name) db.tenants
    then (err no_rows, db)
    else if any (λ r. r.id == id) db.tenants
        || any (λ r. r.namespace == t.status.namespace) db.tenants
    then (err (failed "duplicate key value violates unique constraint"), db)
    else (ok now, record db { tenants = row_of id now t ∷ db.tenants })

-- `INSERT … ON CONFLICT (name) DO NOTHING RETURNING created_at`, which compares what the columns keep.
unfoldable pub insert_tenant : Tenant → String → Statement ℕ
unfolding kept_tenant insert_kept
insert_tenant t id now db = elim (kept_tenant t) [
  | none ↦ (err (failed "value too long for type character varying"), db)
  | some s ↦ insert_kept s id now db
]

-- What `CreateTenant` makes of the outcome: the tenant, with its creation time if a row was inserted.
abbrev pub created : Tenant → Result ℕ → Result Tenant
created t (ok now) = ok (record t { creation_timestamp = some now })
created t (err no_rows) = ok t
created t (err (failed message)) = err (failed message)

unfoldable pub create_tenant : Postgres → Tenant → Database → Result Tenant × Database
unfolding exec insert_tenant
create_tenant pg t db =
    let (r, db') = exec pg (with_uuid pg t.uid (insert_tenant t)) db in (created t r, db')

-- The first row that a query finds.
abbrev pub select_row : {A : Type 0} → Option A → Database → Result A × Database
select_row none db = (err no_rows, db)
select_row (some a) db = (ok a, db)

abbrev pub nil_if_no_rows : Result Tenant → Result (Option Tenant)
nil_if_no_rows (ok t) = ok (some t)
nil_if_no_rows (err no_rows) = ok none
nil_if_no_rows (err (failed message)) = err (failed message)

abbrev pub scanned_row : Option TenantRow → Option Tenant
scanned_row none = none
scanned_row (some r) = some (scanned r)

-- `none` is the nil tenant for an id that is not there.
unfoldable pub get_tenant_by_id : Postgres → String → Database → Result (Option Tenant) × Database
unfolding exec
get_tenant_by_id pg id db =
    let (r, db') =
      exec pg
        (with_uuid pg id (λ i now d. select_row (scanned_row (find (live_with_id i) d.tenants)) d))
        db in
    (nil_if_no_rows r, db')

unfoldable pub get_tenant_by_name : Postgres → String → Database → Result Tenant × Database
unfolding exec
get_tenant_by_name pg name db =
    exec pg (λ now d. select_row (scanned_row (find (live_with_name name) d.tenants)) d) db

unfoldable pub list_tenants : Postgres → Database → Result (List Tenant) × Database
unfolding exec
list_tenants pg db = exec pg (λ now d. (ok (map scanned (keep is_live d.tenants)), d)) db

abbrev pub set_row : (TenantRow → Bool) → (TenantRow → TenantRow) → List TenantRow → List TenantRow
set_row p f = map (λ r. if p r then f r else r)

unfoldable pub write_kept : Tenant → String → Statement (Unit {0})
write_kept t id now db = (
  ok tt,
  record db {
    tenants =
        set_row (live_with_id id)
          (λ r. record r { tier = t.spec.tier; owner_email = t.spec.owner_email; updated_at = now })
          db.tenants;
  },
)

-- `UPDATE tenants SET tier, owner_email, updated_at WHERE …`; a value that is too long fails the
-- statement, though not if its row is looked for first and is not there.
unfoldable pub update_row : Bool → Tenant → String → Statement (Unit {0})
unfolding kept_edit write_kept
update_row plans t id now db = elim (kept_edit t) [
  | none ↦
      if plans || any (live_with_id id) db.tenants
      then (err (failed "value too long for type character varying"), db)
      else (ok tt, db)
  | some s ↦ write_kept s id now db
]

unfoldable pub update_tenant : Postgres → Tenant → Database → Result (Unit {0}) × Database
unfolding exec update_row
update_tenant pg t db =
    exec pg (with_uuid pg t.uid (update_row (pg.plans_values db.statements) t)) db

unfoldable pub mark_deleted : String → Statement (Unit {0})
mark_deleted id now db = (
  ok tt,
  record db {
    tenants = set_row (live_with_id id) (λ r. record r { deleted_at = some now }) db.tenants;
  },
)

unfoldable pub delete_tenant : Postgres → String → Database → Result (Unit {0}) × Database
unfolding exec mark_deleted
delete_tenant pg id db = exec pg (with_uuid pg id mark_deleted) db

-- `DELETE FROM tenants`, which cascades to the members.
unfoldable pub remove_row : String → Statement (Unit {0})
remove_row id now db = (
  ok tt,
  record db {
    tenants = keep (λ r. not (r.id == id)) db.tenants;
    members = keep (λ m. not (m.tenant_id == id)) db.members;
  },
)

unfoldable pub hard_delete_tenant : Postgres → String → Database → Result (Unit {0}) × Database
unfolding exec remove_row
hard_delete_tenant pg id db = exec pg (with_uuid pg id remove_row) db
