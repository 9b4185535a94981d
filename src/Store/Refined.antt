-- ===== src/Store/Refined.antt =====
-- internal/store and the catalog.
use k8s_mtp.Common.{
  ℕ, String, Option, none, some, map, ◌≡◌, refl, ◌==◌, keep, Option-cases, inl, inr,
}
use k8s_mtp.Store.{
  create_tenant, update_tenant, get_tenant_by_id, get_tenant_by_name, list_tenants, select_row,
  scanned, is_live, ok, delete_tenant, hard_delete_tenant, Database, Postgres, Health, healthy,
  refused, lost, Statement, exec, with_uuid, sent, insert_tenant, update_row, mark_deleted,
  remove_row,
}
use k8s_mtp.Store.Members.{
  add_member, remove_member, member_of, list_members, get_member_role, upsert_member,
}
use k8s_mtp.Store.Kept.{
  Call, create, update, get_by_id, get_by_name, delete, hard_delete, members_of, list, add, remove,
  role_in, run, tenant_row, named_row, member_role, without, tenant_row, named_row, member_role,
}
use k8s_mtp.Store.Catalog.{catalog, if_read, effective, after, Agrees}
use k8s_mtp.Store.Acts.{
  Acts, same_catalog, insert_tenant-Acts, update_row-Acts, mark_deleted-Acts, remove_row-Acts,
  remove_member-Acts, upsert_member-Acts,
}

-- A statement about the id that the text stands for.
by_id-Agrees :
    {A : Type 0} (pg : Postgres) (call : Call) (text : String) (statement : String → Statement A)
    (db : Database)
    → Acts call statement
    → Agrees (catalog (exec pg (with_uuid pg text statement) db).1) (
        after
          (elim (pg.health db.statements) [
            | healthy ↦ if_read call db (pg.uuid text)
            | refused message ↦ none
            | lost message ↦ if_read call db (pg.uuid text)
          ])
          (catalog db))
unfolding exec
by_id-Agrees pg call text statement db h = by_health (pg.health db.statements) refl
  where
    carried :
        (o : Option String)
        → pg.uuid text ≡ o
        → Agrees
            (catalog (with_uuid pg text statement (pg.now db.statements) (sent db)).1)
            (after (if_read call db o) (catalog db))
    carried none e = rw (e, with_uuid) (same_catalog db)
    carried (some id) e = rw (e, with_uuid) (h id (pg.now db.statements) (sent db))

    by_health :
        (x : Health)
        → pg.health db.statements ≡ x
        → Agrees (catalog (exec pg (with_uuid pg text statement) db).1) (
            after
              (elim x [
                | healthy ↦ if_read call db (pg.uuid text)
                | refused message ↦ none
                | lost message ↦ if_read call db (pg.uuid text)
              ])
              (catalog db))
    by_health healthy e = rw (e, exec) (carried (pg.uuid text) refl)
    by_health (refused message) e = rw (e, exec) (same_catalog db)
    by_health (lost message) e = rw (e, exec) (carried (pg.uuid text) refl)

-- The statement leaves the catalog.
abbrev Reads : {A : Type 0} → Statement A → Type 0
Reads statement = (now : ℕ) (db : Database) → Agrees (catalog (statement now db).1) (catalog db)

exec-Agrees :
    {A : Type 0} (pg : Postgres) (call : Call) (statement : Statement A) (db : Database)
    → Reads statement
    → Agrees (catalog (exec pg statement db).1) (
        after
          (elim (pg.health db.statements) [
            | healthy ↦ none
            | refused message ↦ none
            | lost message ↦ none
          ])
          (catalog db))
unfolding exec
exec-Agrees pg call statement db h = by_health (pg.health db.statements) refl
  where
    by_health :
        (x : Health)
        → pg.health db.statements ≡ x
        → Agrees (catalog (exec pg statement db).1) (
            after
              (elim x [ healthy ↦ none | refused message ↦ none | lost message ↦ none ])
              (catalog db))
    by_health healthy e = rw (e, exec) (h (pg.now db.statements) (sent db))
    by_health (refused message) e = rw (e, exec) (same_catalog db)
    by_health (lost message) e = rw (e, exec) (h (pg.now db.statements) (sent db))

with_uuid-Reads :
    {A : Type 0} (pg : Postgres) (text : String) (statement : String → Statement A)
    → ((id : String) → Reads (statement id))
    → Reads (with_uuid pg text statement)
with_uuid-Reads pg text statement h now db = elim (Option-cases (pg.uuid text)) [
  | inl e ↦ rw (e, with_uuid) (same_catalog db)
  | inr (id, e) ↦ rw (e, with_uuid) (h id now db)
]

select_row-Reads : {A : Type 0} (o : Database → Option A) → Reads (λ now d. select_row (o d) d)
select_row-Reads o now db = elim (Option-cases (o db)) [
  | inl e ↦ rw (e, select_row) (same_catalog db)
  | inr (a, e) ↦ rw (e, select_row) (same_catalog db)
]

-- The tables after a call show the catalog before it, changed by the call's effect, with its values as the
-- columns keep them, where the server carries it out, its text can be read as an id, no value is too
-- long and the constraints allow the write, and unchanged otherwise, whatever the call answers.
pub run-Agrees :
    (pg : Postgres) (call : Call) (db : Database)
    → Agrees (catalog (run pg call db)) (after (effective pg call db) (catalog db))
unfolding run create_tenant update_tenant get_tenant_by_id get_tenant_by_name list_tenants
    delete_tenant hard_delete_tenant list_members get_member_role add_member remove_member
run-Agrees pg (create t) db =
    by_id-Agrees pg (create t) t.uid (insert_tenant t) db (insert_tenant-Acts t)
run-Agrees pg (update t) db =
    by_id-Agrees pg (update t) t.uid (update_row (pg.plans_values db.statements) t) db
      (update_row-Acts (pg.plans_values db.statements) t)
run-Agrees pg (delete id) db = by_id-Agrees pg (delete id) id mark_deleted db (mark_deleted-Acts id)
run-Agrees pg (hard_delete id) db =
    by_id-Agrees pg (hard_delete id) id remove_row db (remove_row-Acts id)
run-Agrees pg (add id user role) db =
    by_id-Agrees pg (add id user role) id (upsert_member user role) db
      (upsert_member-Acts id user role)
run-Agrees pg (remove id user) db =
    by_id-Agrees pg (remove id user) id (λ i. without i user) db (remove_member-Acts id user)
run-Agrees pg (get_by_id id) db =
    exec-Agrees pg (get_by_id id) (with_uuid pg id (λ i now d. select_row (tenant_row i d) d)) db (
      with_uuid-Reads pg id (λ i now d. select_row (tenant_row i d) d)
        (λ i. select_row-Reads (tenant_row i)))
run-Agrees pg (get_by_name name) db =
    exec-Agrees pg (get_by_name name) (λ now d. select_row (named_row name d) d) db
      (select_row-Reads (named_row name))
run-Agrees pg (role_in id user) db =
    exec-Agrees pg (role_in id user)
      (with_uuid pg id (λ i now d. select_row (member_role user i d) d)) db
      (with_uuid-Reads pg id (λ i now d. select_row (member_role user i d) d)
        (λ i. select_row-Reads (member_role user i)))
run-Agrees pg (members_of id) db =
    exec-Agrees pg (members_of id)
      (with_uuid pg id
        (λ i now d. (ok (map member_of (keep (λ m. m.tenant_id == i) d.members)), d)))
      db
      (with_uuid-Reads pg id
        (λ i now d. (ok (map member_of (keep (λ m. m.tenant_id == i) d.members)), d))
        (λ i now d. same_catalog d))
run-Agrees pg list db =
    exec-Agrees pg list (λ now d. (ok (map scanned (keep is_live d.tenants)), d)) db
      (λ now d. same_catalog d)
