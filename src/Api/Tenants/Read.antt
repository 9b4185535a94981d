-- ===== src/Api/Tenants/Read.antt =====
-- internal/handlers/tenants.go: what `GetTenant` answers, by the row that there is.
use k8s_mtp.Common.{String, none, some, ◌≡◌, refl, find}
use k8s_mtp.Store.{TenantRow, Database, Postgres, healthy, live_with_id, scanned, sent}
use k8s_mtp.Store.Rows.{get_read}
use k8s_mtp.Api.{one_tenant, tenant_response}
use k8s_mtp.Api.Tenants.{get_tenant, tenant_not_found}

pub get_tenant_found :
    (pg : Postgres) (uid id : String) (db : Database) (r : TenantRow)
    → pg.uuid uid ≡ some id
    → pg.health db.statements ≡ healthy
    → find (live_with_id id) db.tenants ≡ some r
    → get_tenant pg uid db
      ≡ (record { status = 200; body = one_tenant (tenant_response (scanned r)) }, sent db)
unfolding get_tenant
get_tenant_found pg uid id db r u h f =
    rw (get_read pg uid id db u h, get_tenant) (rw f (rw (get_read pg uid id db u h) refl))

pub get_tenant_missing :
    (pg : Postgres) (uid id : String) (db : Database)
    → pg.uuid uid ≡ some id
    → pg.health db.statements ≡ healthy
    → find (live_with_id id) db.tenants ≡ none
    → get_tenant pg uid db ≡ (tenant_not_found, sent db)
unfolding get_tenant
get_tenant_missing pg uid id db u h f =
    rw (get_read pg uid id db u h, get_tenant) (rw f (rw (get_read pg uid id db u h) refl))
