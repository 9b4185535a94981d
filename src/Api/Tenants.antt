-- ===== src/Api/Tenants.antt =====
-- internal/handlers/tenants.go. A body that cannot be decoded is `none`.
pub mod Read
pub mod Created
pub mod Refused
pub mod Edited
use k8s_mtp.Common.{String, not, ◌&&◌, Option, none, some, [], map, ◌==◌, ◌<>◌, if◌then◌else◌}
use k8s_mtp.Tenants.{Tenant}
use k8s_mtp.Store
use k8s_mtp.Store.{Database, Postgres, Result, ok, err}
use k8s_mtp.Api.{
  CreateTenantRequest, UpdateTenantRequest, one_tenant, many_tenants, no_body, Response, http_error,
  Handler, tenant_response,
}

unfoldable pub list_tenants : Postgres → Handler
list_tenants pg db =
    let (r, db') = Store.list_tenants pg db in
    elim r [
      | err e ↦ (http_error "{\"error\": \"error listing the tenants\"}" 500, db')
      | ok list ↦ (record { status = 200; body = many_tenants (map tenant_response list) }, db')
    ]

-- The tenant of a request, under a new UUID.
unfoldable pub requested : CreateTenantRequest → String → Tenant
requested req uid = record {
  name = "";
  uid = uid;
  finalizers = [];
  creation_timestamp = none;
  deletion_timestamp = none;
  spec = record {
    name = req.name;
    tier = req.tier;
    owner_email = req.owner_email;
    admins = [];
    operators = [];
  };
  status = record { phase = ""; namespace = "tenant-" <> req.name };
}

-- The tests of a request; `none` is a request that passes them.
unfoldable pub refusal : CreateTenantRequest → Option Response
refusal req =
    if req.name == ""
    then some (http_error "{\"error\": \"tenant name is required\"}" 400)
    else if not (req.tier == "free") && (not (req.tier == "pro") && not (req.tier == "enterprise"))
    then some (http_error "{\"error\": \"invalid tier\"}" 400)
    else if req.owner_email == ""
    then some (http_error "{\"error\": \"owner email is required\"}" 400)
    else none

unfoldable pub insert_requested : Postgres → Tenant → Handler
insert_requested pg t db =
    let (r, db') = Store.create_tenant pg t db in
    elim r [
      | err e ↦ (http_error "{\"error\": \"error creating tenant\"}" 500, db')
      | ok u ↦ (record { status = 201; body = one_tenant (tenant_response u) }, db')
    ]

-- `uid` is what `uuid.New` gives.
unfoldable pub create_tenant : Postgres → String → Option CreateTenantRequest → Handler
unfolding requested refusal insert_requested
create_tenant pg uid none db =
    (http_error "{\"error\": \"error decoding the request body\"}" 400, db)
create_tenant pg uid (some req) db = elim (refusal req) [
  | some response ↦ (response, db)
  | none ↦ insert_requested pg (requested req uid) db
]

abbrev pub lookup_failed : Response
lookup_failed = http_error "{\"error\": \"error getting the tenant\"}" 500

abbrev pub tenant_not_found : Response
tenant_not_found = http_error "{\"error\": \"tenant is not found\"}" 404

unfoldable pub get_tenant : Postgres → String → Handler
get_tenant pg id db =
    let (r, db') = Store.get_tenant_by_id pg id db in
    elim r [
      | err e ↦ (lookup_failed, db')
      | ok none ↦ (tenant_not_found, db')
      | ok (some t) ↦ (record { status = 200; body = one_tenant (tenant_response t) }, db')
    ]

abbrev pub or_old : Option String → String → String
or_old none old = old
or_old (some new) old = new

-- The tenant with the fields that the request sets.
unfoldable pub edited : UpdateTenantRequest → Tenant → Tenant
edited req t = record t {
  spec = record (t.spec) {
    tier = or_old req.tier t.spec.tier;
    owner_email = or_old req.owner_email t.spec.owner_email;
  };
}

unfoldable pub write_edited : Postgres → Tenant → Handler
write_edited pg t db =
    let (r, db') = Store.update_tenant pg t db in
    elim r [
      | err e ↦ (http_error "{\"error\": \"error updating the tenant\"}" 500, db')
      | ok u ↦ (record { status = 200; body = one_tenant (tenant_response t) }, db')
    ]

unfoldable pub edit_found : Postgres → Option UpdateTenantRequest → Tenant → Handler
unfolding edited write_edited
edit_found pg none t db =
    (http_error "{\"error\": \"error decoding the updating request\"}" 400, db)
edit_found pg (some req) t db = write_edited pg (edited req t) db

unfoldable pub update_tenant : Postgres → String → Option UpdateTenantRequest → Handler
unfolding edit_found
update_tenant pg id req db =
    let (r, db') = Store.get_tenant_by_id pg id db in
    elim r [
      | err e ↦ (lookup_failed, db')
      | ok none ↦ (tenant_not_found, db')
      | ok (some t) ↦ edit_found pg req t db'
    ]

unfoldable pub delete_tenant : Postgres → String → Handler
delete_tenant pg id db =
    let (r, db') = Store.delete_tenant pg id db in
    elim r [
      | err e ↦ (http_error "{\"error\": \"error deleting the tenant\"}" 500, db')
      | ok u ↦ (record { status = 204; body = no_body }, db')
    ]
