-- ===== src/Store/Catalog.antt =====
-- internal/store, seen from outside: the tenants and the roles that can be read, without rows, times and
-- what was deleted, and what each call does to them.
use k8s_mtp.Common.{
  [], ◌≡◌, String, Bool, true, not, ◌&&◌, ◌||◌, Option, none, some, List, ◌==◌, if◌then◌else◌, any,
  find,
}
use k8s_mtp.Tenants.{Tenant}
use k8s_mtp.Store.{
  TenantRow, MemberRow, Database, Postgres, healthy, refused, lost, live_with_id, scanned_row,
}
use k8s_mtp.Store.Columns.{kept_edit, kept_tenant}
use k8s_mtp.Store.Members.{is_member, kept_member, role_of}
use k8s_mtp.Store.Kept.{
  Call, create, update, get_by_id, get_by_name, delete, hard_delete, members_of, list, add, remove,
  role_in,
}

pub record Catalog : Type 0 where
  pub tenant : String → Option Tenant
  pub role : String → String → Option String

-- What the tables hold.
abbrev pub catalog : Database → Catalog
catalog db = record {
  tenant = λ id. scanned_row (find (live_with_id id) db.tenants);
  role = λ id user. role_of (find (is_member id user) db.members);
}

abbrev pub after_edit : Tenant → Option Tenant → Option Tenant
after_edit t none = none
after_edit t (some old) =
    some record old {
      spec = record (old.spec) { tier = t.spec.tier; owner_email = t.spec.owner_email };
    }

abbrev pub stored : Tenant → String → Tenant
stored t id = record {
  name = "";
  uid = id;
  finalizers = [];
  creation_timestamp = none;
  deletion_timestamp = none;
  spec = record (t.spec) { admins = []; operators = [] };
  status = record { phase = ""; namespace = t.status.namespace };
}

-- The catalog after a call that takes effect on the tenant with an id.
abbrev pub effect : Call → String → Catalog → Catalog
effect (create t) id c = record c {
  tenant = λ i. if id == i then some (stored t id) else c.tenant i;
}
effect (update t) id c = record c {
  tenant = λ i. if id == i then after_edit t (c.tenant i) else c.tenant i;
}
effect (delete text) id c = record c { tenant = λ i. if id == i then none else c.tenant i }
effect (hard_delete text) id c = record {
  tenant = λ i. if id == i then none else c.tenant i;
  role = λ i user. if id == i then none else c.role i user;
}
effect (add text user role) id c = record c {
  role = λ i u. if id == i && user == u then some role else c.role i u;
}
effect (remove text user) id c = record c {
  role = λ i u. if id == i && user == u then none else c.role i u;
}
effect (get_by_id text) id c = c
effect (get_by_name name) id c = c
effect (members_of text) id c = c
effect (role_in text user) id c = c
effect list id c = c

-- The text by which a call that writes names its tenant.
abbrev pub written_id : Call → Option String
written_id (create t) = some t.uid
written_id (update t) = some t.uid
written_id (delete text) = some text
written_id (hard_delete text) = some text
written_id (add text user role) = some text
written_id (remove text user) = some text
written_id (get_by_id text) = none
written_id (get_by_name name) = none
written_id (members_of text) = none
written_id (role_in text user) = none
written_id list = none

abbrev if_kept : {A : Type 0} → Option A → (A → Call) → Option Call
if_kept none f = none
if_kept (some a) f = some (f a)

-- The call with its values as the columns keep them; `none` if one is too long.
abbrev pub kept_call : Call → Option Call
kept_call (create t) = if_kept (kept_tenant t) create
kept_call (update t) = if_kept (kept_edit t) update
kept_call (add text user role) = if_kept (kept_member user role) (λ kept. add text kept.0 kept.1)
kept_call (delete text) = some (delete text)
kept_call (hard_delete text) = some (hard_delete text)
kept_call (remove text user) = some (remove text user)
kept_call (get_by_id text) = some (get_by_id text)
kept_call (get_by_name name) = some (get_by_name name)
kept_call (members_of text) = some (members_of text)
kept_call (role_in text user) = some (role_in text user)
kept_call list = some list

-- The constraints allow the write.
abbrev pub is_accepted : Call → String → List TenantRow → List MemberRow → Bool
is_accepted (create t) id rows members =
    not (any (λ r. r.name == t.spec.name) rows)
    && not (any (λ r. r.id == id) rows || any (λ r. r.namespace == t.status.namespace) rows)
is_accepted (add text user role) id rows members =
    any (is_member id user) members || any (λ r. r.id == id) rows
is_accepted call id rows members = true

-- The call that takes effect, its values as the columns keep them, with the id of its tenant: where the
-- server carries the statement out, the text can be read as an id, no value is too long, and the write
-- is accepted.
abbrev pub if_accepted : Database → Option Call → String → Option (Call × String)
if_accepted db none id = none
if_accepted db (some call) id =
    if is_accepted call id db.tenants db.members then some (call, id) else none

abbrev pub if_read : Call → Database → Option String → Option (Call × String)
if_read call db none = none
if_read call db (some id) = if_accepted db (kept_call call) id

abbrev pub read_id : Postgres → Option String → Option String
read_id pg none = none
read_id pg (some text) = pg.uuid text

abbrev pub effective : Postgres → Call → Database → Option (Call × String)
effective pg call db = elim (pg.health db.statements) [
  | healthy ↦ if_read call db (read_id pg (written_id call))
  | refused message ↦ none
  | lost message ↦ if_read call db (read_id pg (written_id call))
]

abbrev pub after : Option (Call × String) → Catalog → Catalog
after none c = c
after (some (call, id)) c = effect call id c

-- Every id and every user has the same tenant and role in both.
pub record Agrees (c d : Catalog) : Type 0 where
  pub tenants_agree : (id : String) → c.tenant id ≡ d.tenant id
  pub roles_agree : (id user : String) → c.role id user ≡ d.role id user
