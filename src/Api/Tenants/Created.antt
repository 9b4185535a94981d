-- ===== src/Api/Tenants/Created.antt =====
-- What is answered to a request for a new tenant, and what is read after it.
use k8s_mtp.Common.{
  ℕ, suc, String, true, false, none, some, List, [], ◌∷◌, ◌≡◌, ◌≢◌, ◌⊎◌, ◌∙◌, ap, refl, arith, ◌==◌,
  ◌<>◌, eq_refl, any, find,
}
use k8s_mtp.Tenants.{Tenant}
use k8s_mtp.Store
use k8s_mtp.Store.{
  TenantRow, Database, Postgres, healthy, no_rows, ok, err, created, live_with_id, insert_tenant,
  insert_kept, sent, row_of,
}
use k8s_mtp.Store.Columns.{fits_columns, kept_tenant_fitting}
use k8s_mtp.Store.Rows.{IsNew, exec_id, create_new, added}
use k8s_mtp.Api.{CreateTenantRequest, TenantResponse, one_tenant}
use k8s_mtp.Api.Tenants.{
  requested, refusal, insert_requested, create_tenant, get_tenant, tenant_not_found,
}
use k8s_mtp.Api.Tenants.Read.{get_tenant_found, get_tenant_missing}

-- What the API says of the request's tenant.
abbrev requested_response : CreateTenantRequest → String → TenantResponse
requested_response req uid = record {
  id = uid;
  name = req.name;
  namespace = "tenant-" <> req.name;
  tier = req.tier;
  owner_email = req.owner_email;
}

accepted_request :
    (pg : Postgres) (uid : String) (req : CreateTenantRequest) (db : Database)
    → refusal req ≡ none
    → create_tenant pg uid (some req) db ≡ insert_requested pg (requested req uid) db
unfolding create_tenant
accepted_request pg uid req db a = rw (a, create_tenant) refl

create_tenant_new :
    (pg : Postgres) (uid : String) (req : CreateTenantRequest) (db : Database)
    → pg.uuid uid ≡ some uid
    → pg.health db.statements ≡ healthy
    → refusal req ≡ none
    → IsNew (requested req uid) uid db
    → create_tenant pg uid (some req) db ≡ (
      record { status = 201; body = one_tenant (requested_response req uid) },
      added uid (pg.now db.statements) (requested req uid) db,
    )
unfolding insert_requested requested
create_tenant_new pg uid req db u h a n =
    accepted_request pg uid req db a ∙ rw (stored, insert_requested) (rw stored refl)
  where
    stored : Store.create_tenant pg (requested req uid) db ≡ (
      ok (record (requested req uid) { creation_timestamp = some (pg.now db.statements) }),
      added uid (pg.now db.statements) (requested req uid) db,
    )
    stored = create_new pg (requested req uid) uid db u h n

-- A tenant whose request is accepted and which is new in its name, id and namespace is answered with 201,
-- and a request for its id is then answered with 200 and the same values, where the values fit the columns
-- and the server answers both statements.
pub create_tenant-get_tenant :
    (pg : Postgres) (uid : String) (req : CreateTenantRequest) (db : Database)
    → pg.uuid uid ≡ some uid
    → pg.health db.statements ≡ healthy
    → pg.health (suc db.statements) ≡ healthy
    → refusal req ≡ none
    → IsNew (requested req uid) uid db
    → ((create_tenant pg uid (some req) db).0
        ≡ record { status = 201; body = one_tenant (requested_response req uid) })
      × ((get_tenant pg uid (create_tenant pg uid (some req) db).1).0
          ≡ record { status = 200; body = one_tenant (requested_response req uid) })
unfolding requested
create_tenant-get_tenant pg uid req db u h k a n = rw (create_tenant_new pg uid req db u h a n) (
  refl,
  ap (λ x. x.0)
      (get_tenant_found pg uid uid after (row_of uid (pg.now db.statements) (requested req uid)) u k
        (rw (eq_refl uid) refl)),
)
  where
    after : Database
    after = added uid (pg.now db.statements) (requested req uid) db

taken_name :
    (t : Tenant) (id : String) (now : ℕ) (db : Database)
    → fits_columns t ≡ true
    → any (λ r. r.name == t.spec.name) db.tenants ≡ true
    → insert_tenant t id now db ≡ (err no_rows, db)
unfolding insert_tenant insert_kept
taken_name t id now db f n = rw (kept_tenant_fitting t f, insert_tenant) (rw (n, insert_kept) refl)

-- No row is inserted for a name that is taken, and no error is returned.
not_stored :
    (pg : Postgres) (t : Tenant) (db : Database)
    → pg.uuid t.uid ≡ some t.uid
    → pg.health db.statements ≡ healthy
    → fits_columns t ≡ true
    → any (λ r. r.name == t.spec.name) db.tenants ≡ true
    → Store.create_tenant pg t db ≡ (ok t, sent db)
unfolding Store.create_tenant
not_stored pg t db u h f n =
    ap (λ x. (created t x.0, x.1))
      (exec_id pg t.uid t.uid (insert_tenant t) db u h
        ∙ taken_name t t.uid (pg.now db.statements) (sent db) f n)

create_tenant_taken :
    (pg : Postgres) (uid : String) (req : CreateTenantRequest) (db : Database)
    → pg.uuid uid ≡ some uid
    → pg.health db.statements ≡ healthy
    → refusal req ≡ none
    → fits_columns (requested req uid) ≡ true
    → any (λ r. r.name == req.name) db.tenants ≡ true
    → create_tenant pg uid (some req) db
      ≡ (record { status = 201; body = one_tenant (requested_response req uid) }, sent db)
unfolding insert_requested requested
create_tenant_taken pg uid req db u h a f n =
    accepted_request pg uid req db a ∙ rw (stored, insert_requested) (rw stored refl)
  where
    stored : Store.create_tenant pg (requested req uid) db ≡ (ok (requested req uid), sent db)
    stored = not_stored pg (requested req uid) db u h f n

no_id-find :
    (id : String) (rows : List TenantRow)
    → any (λ r. r.id == id) rows ≡ false
    → find (live_with_id id) rows ≡ none
no_id-find id [] h = refl
no_id-find id (r ∷ rows) h = ground (arith, h, no_id-find id rows)

-- A request whose name a tenant has, deleted or not, is answered with 201 and an id, but no row is written
-- and a request for that id is answered with 404: where its values fit the columns, no tenant has
-- the id yet, and the server answers both statements.
pub create_tenant-get_tenant_taken :
    (pg : Postgres) (uid : String) (req : CreateTenantRequest) (db : Database)
    → pg.uuid uid ≡ some uid
    → pg.health db.statements ≡ healthy
    → pg.health (suc db.statements) ≡ healthy
    → refusal req ≡ none
    → fits_columns (requested req uid) ≡ true
    → any (λ r. r.name == req.name) db.tenants ≡ true
    → any (λ r. r.id == uid) db.tenants ≡ false
    → (create_tenant pg uid (some req) db
        ≡ (record { status = 201; body = one_tenant (requested_response req uid) }, sent db))
      × ((get_tenant pg uid (create_tenant pg uid (some req) db).1).0 ≡ tenant_not_found)
create_tenant-get_tenant_taken pg uid req db u h k a f n i =
    let e = create_tenant_taken pg uid req db u h a f n in
    (
      e,
      ap (λ x. (get_tenant pg uid x.1).0) e
          ∙ ap (λ x. x.0)
              (get_tenant_missing pg uid uid (sent db) u k (no_id-find uid db.tenants i)),
    )

-- What a request has to be.
pub record IsAcceptable (req : CreateTenantRequest) : Type 0 where
  pub named : req.name ≢ ""
  pub tiered : (req.tier ≡ "free") ⊎ (req.tier ≡ "pro") ⊎ (req.tier ≡ "enterprise")
  pub owned : req.owner_email ≢ ""
