-- ===== src/Store/Members.antt =====
-- internal/store/member.go.
use k8s_mtp.Common.{
  ℕ, String, Bool, not, ◌&&◌, Option, none, some, List, ◌∷◌, map, ◌==◌, if◌then◌else◌, any, keep,
  find,
}
use k8s_mtp.Store.{
  Database, MemberRow, Postgres, Result, ok, err, failed, Statement, exec, with_uuid, select_row,
}
use k8s_mtp.Store.Columns.{varchar}

abbrev pub is_member : String → String → MemberRow → Bool
is_member tenant user m = m.tenant_id == tenant && m.user_id == user

-- A new row needs a tenant, deleted or not.
unfoldable pub upsert_kept : String → String → String → Statement (Unit {0})
upsert_kept user role tenant now db =
    if any (is_member tenant user) db.members
    then (
      ok tt,
      record db {
        members =
            map (λ m. if is_member tenant user m then record m { role = role } else m) db.members;
      },
    )
    else if not (any (λ r. r.id == tenant) db.tenants)
    then (err (failed "insert violates foreign key constraint"), db)
    else (
      ok tt,
      record db {
        members =
            record { tenant_id = tenant; user_id = user; role = role; created_at = now }
            ∷ db.members;
      },
    )

-- The user and the role as their columns keep them; `none` if one is too long.
unfoldable pub kept_member : String → String → Option (String × String)
kept_member user role = elim (varchar 255 user) [
  | none ↦ none
  | some u ↦ elim (varchar 20 role) [ none ↦ none | some r ↦ some (u, r) ]
]

-- `INSERT … ON CONFLICT (tenant_id, user_id) DO UPDATE SET role`, which compares what the columns keep.
unfoldable pub upsert_member : String → String → String → Statement (Unit {0})
unfolding kept_member upsert_kept
upsert_member user role tenant now db = elim (kept_member user role) [
  | none ↦ (err (failed "value too long for type character varying"), db)
  | some (u, r) ↦ upsert_kept u r tenant now db
]

unfoldable pub add_member :
    Postgres → String → String → String → Database → Result (Unit {0}) × Database
unfolding exec upsert_member
add_member pg tenant user role db = exec pg (with_uuid pg tenant (upsert_member user role)) db

unfoldable pub remove_member : Postgres → String → String → Database → Result (Unit {0}) × Database
unfolding exec
remove_member pg tenant user db =
    exec pg
      (with_uuid pg tenant (λ id now d.
        (ok tt, record d { members = keep (λ m. not (is_member id user m)) d.members })))
      db

pub record Member : Type 0 where
  pub user_id : String
  pub role : String
  pub created_at : ℕ

abbrev pub member_of : MemberRow → Member
member_of m = record { user_id = m.user_id; role = m.role; created_at = m.created_at }

unfoldable pub list_members : Postgres → String → Database → Result (List Member) × Database
unfolding exec
list_members pg tenant db =
    exec pg
      (with_uuid pg tenant
        (λ id now d. (ok (map member_of (keep (λ m. m.tenant_id == id) d.members)), d)))
      db

abbrev pub role_of : Option MemberRow → Option String
role_of none = none
role_of (some m) = some m.role

unfoldable pub get_member_role : Postgres → String → String → Database → Result String × Database
unfolding exec
get_member_role pg tenant user db =
    exec pg
      (with_uuid pg tenant
        (λ id now d. select_row (role_of (find (is_member id user) d.members)) d))
      db
