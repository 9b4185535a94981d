-- ===== src/Api/Tenants/Edited.antt =====
-- What is read after a tenant was edited or deleted through the API.
use k8s_mtp.Common.{
  ℕ, suc, String, true, some, none, List, [], ◌∷◌, ◌≡◌, ◌∙◌, ap, refl, arith, find, Bool-cases, inl,
  inr, any,
}
use k8s_mtp.Store
use k8s_mtp.Store.{
  TenantRow, Database, Postgres, healthy, ok, live_with_id, scanned, set_row, sent, update_row,
  write_kept, mark_deleted,
}
use k8s_mtp.Store.Columns.{fits, kept_edit_fitting}
use k8s_mtp.Store.Rows.{exec_id, get_read, marked_not_found}
use k8s_mtp.Api.{UpdateTenantRequest, one_tenant, no_body, tenant_response}
use k8s_mtp.Api.Tenants.{
  or_old, edited, edit_found, write_edited, update_tenant, delete_tenant, get_tenant,
  tenant_not_found,
}
use k8s_mtp.Api.Tenants.Read.{get_tenant_found, get_tenant_missing}

-- The row with the fields that the request sets.
abbrev pub edited_row : UpdateTenantRequest → ℕ → TenantRow → TenantRow
edited_row req now r = record r {
  tier = or_old req.tier r.tier;
  owner_email = or_old req.owner_email r.owner_email;
  updated_at = now;
}

-- The write of a request for a row that was read.
abbrev write : UpdateTenantRequest → ℕ → TenantRow → TenantRow → TenantRow
write req now r s = record s {
  tier = or_old req.tier r.tier;
  owner_email = or_old req.owner_email r.owner_email;
  updated_at = now;
}

found-any :
    (id : String) (rows : List TenantRow) (r : TenantRow)
    → find (live_with_id id) rows ≡ some r
    → any (live_with_id id) rows ≡ true
found-any id [] r h = ground (arith, h)
found-any id (s ∷ rows) r h = elim (Bool-cases (live_with_id id s)) [
  | inl e ↦ rw e refl
  | inr e ↦ rw e (found-any id rows r (rw e at h))
]

-- A write that keeps the id and the deletion is read at the same row.
find-set_row :
    (id : String) (f : TenantRow → TenantRow) (rows : List TenantRow) (r : TenantRow)
    → ((s : TenantRow) → live_with_id id (f s) ≡ live_with_id id s)
    → find (live_with_id id) rows ≡ some r
    → find (live_with_id id) (set_row (live_with_id id) f rows) ≡ some (f r)
find-set_row id f [] r k h = ground (arith, h)
find-set_row id f (s ∷ rows) r k h = elim (Bool-cases (live_with_id id s)) [
  | inl e ↦ rw e (rw (k s ∙ e) (ap (λ o. elim o [ none ↦ none | some x ↦ some (f x) ]) (rw e at h)))
  | inr e ↦ rw e (rw e (find-set_row id f rows r k (rw e at h)))
]

abbrev written : UpdateTenantRequest → String → ℕ → TenantRow → Database → Database
written req id now r db = record db {
  tenants = set_row (live_with_id id) (write req now r) db.tenants;
  statements = suc (suc db.statements);
}

store_written :
    (pg : Postgres) (id : String) (req : UpdateTenantRequest) (db : Database) (r : TenantRow)
    → pg.uuid r.id ≡ some id
    → pg.health (suc db.statements) ≡ healthy
    → fits 20 (or_old req.tier r.tier) ≡ true
    → fits 255 (or_old req.owner_email r.owner_email) ≡ true
    → Store.update_tenant pg (edited req (scanned r)) (sent db)
      ≡ (ok tt, written req id (pg.now (suc db.statements)) r db)
unfolding Store.update_tenant edited update_row write_kept
store_written pg id req db r v k a b =
    exec_id pg r.id id (update_row (pg.plans_values (suc db.statements)) (edited req (scanned r)))
      (sent db) v k
    ∙ rw (kept_edit_fitting (edited req (scanned r)) a b, update_row) refl

write_answered :
    (pg : Postgres) (id : String) (req : UpdateTenantRequest) (db : Database) (r : TenantRow)
    → pg.uuid r.id ≡ some id
    → pg.health (suc db.statements) ≡ healthy
    → fits 20 (or_old req.tier r.tier) ≡ true
    → fits 255 (or_old req.owner_email r.owner_email) ≡ true
    → write_edited pg (edited req (scanned r)) (sent db) ≡ (
      record {
        status = 200;
        body =
            one_tenant (tenant_response (scanned (edited_row req (pg.now (suc db.statements)) r)));
      },
      written req id (pg.now (suc db.statements)) r db,
    )
unfolding write_edited edited
write_answered pg id req db r v k a b =
    let e = store_written pg id req db r v k a b in rw (e, write_edited) (rw e refl)

found_answered :
    (pg : Postgres) (uid id : String) (req : UpdateTenantRequest) (db : Database) (r : TenantRow)
    → pg.uuid uid ≡ some id
    → pg.health db.statements ≡ healthy
    → find (live_with_id id) db.tenants ≡ some r
    → update_tenant pg uid (some req) db ≡ write_edited pg (edited req (scanned r)) (sent db)
unfolding update_tenant edit_found
found_answered pg uid id req db r u h f =
    let e = get_read pg uid id db u h in rw (e, update_tenant) (rw f (rw e refl))

-- A tenant that can be found is answered with the fields that the request sets and with its others, and a
-- request for its id is then answered with the same values: where the tier has at most 20 characters and
-- the owner at most 255, and the server answers the three statements. No other test is made of the tier.
pub update_tenant-get_tenant :
    (pg : Postgres) (uid id : String) (req : UpdateTenantRequest) (db : Database) (r : TenantRow)
    → pg.uuid uid ≡ some id
    → pg.uuid r.id ≡ some id
    → pg.health db.statements ≡ healthy
    → pg.health (suc db.statements) ≡ healthy
    → pg.health (suc (suc db.statements)) ≡ healthy
    → find (live_with_id id) db.tenants ≡ some r
    → fits 20 (or_old req.tier r.tier) ≡ true
    → fits 255 (or_old req.owner_email r.owner_email) ≡ true
    → let x =
        one_tenant (tenant_response (scanned (edited_row req (pg.now (suc db.statements)) r))) in
      ((update_tenant pg uid (some req) db).0 ≡ record { status = 200; body = x })
      × ((get_tenant pg uid (update_tenant pg uid (some req) db).1).0
          ≡ record { status = 200; body = x })
update_tenant-get_tenant pg uid id req db r u v h k l f a b = rw answered (
  refl,
  ap (λ x. x.0)
      (get_tenant_found pg uid id (written req id now r db) (edited_row req now r) u l
        (find-set_row id (write req now r) db.tenants r (λ s. refl) f)),
)
  where
    now : ℕ
    now = pg.now (suc db.statements)

    answered : update_tenant pg uid (some req) db ≡ (
      record { status = 200; body = one_tenant (tenant_response (scanned (edited_row req now r))) },
      written req id now r db,
    )
    answered = found_answered pg uid id req db r u h f ∙ write_answered pg id req db r v k a b

abbrev deleted : String → ℕ → Database → Database
deleted id now db = record db {
  tenants = set_row (live_with_id id) (λ r. record r { deleted_at = some now }) db.tenants;
  statements = suc db.statements;
}

store_deleted :
    (pg : Postgres) (uid id : String) (db : Database)
    → pg.uuid uid ≡ some id
    → pg.health db.statements ≡ healthy
    → Store.delete_tenant pg uid db ≡ (ok tt, deleted id (pg.now db.statements) db)
unfolding Store.delete_tenant mark_deleted
store_deleted pg uid id db u h = exec_id pg uid id mark_deleted db u h

delete_answered :
    (pg : Postgres) (uid id : String) (db : Database)
    → pg.uuid uid ≡ some id
    → pg.health db.statements ≡ healthy
    → delete_tenant pg uid db
      ≡ (record { status = 204; body = no_body }, deleted id (pg.now db.statements) db)
unfolding delete_tenant
delete_answered pg uid id db u h =
    let e = store_deleted pg uid id db u h in rw (e, delete_tenant) (rw e refl)

-- A request to delete a tenant whose id can be read is answered with 204, and a request for the id is then
-- answered with 404, where the server answers both statements.
pub delete_tenant-get_tenant :
    (pg : Postgres) (uid id : String) (db : Database)
    → pg.uuid uid ≡ some id
    → pg.health db.statements ≡ healthy
    → pg.health (suc db.statements) ≡ healthy
    → ((delete_tenant pg uid db).0 ≡ record { status = 204; body = no_body })
      × ((get_tenant pg uid (delete_tenant pg uid db).1).0 ≡ tenant_not_found)
delete_tenant-get_tenant pg uid id db u h k = rw (delete_answered pg uid id db u h) (
  refl,
  ap (λ x. x.0)
      (get_tenant_missing pg uid id (deleted id (pg.now db.statements) db) u k
        (marked_not_found id (pg.now db.statements) db.tenants)),
)
