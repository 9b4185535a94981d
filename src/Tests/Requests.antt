-- ===== src/Tests/Requests.antt =====
-- The REST API on concrete requests.
use k8s_mtp.Common.{
  Option, none, some, List, [], ◌∷◌, String, ◌≡◌, ◌≢◌, ◌⊎◌, ◌↔◌, ◌<>◌, false, refl, arith, inl,
  lookup, strip, behind, insert,
}
use k8s_mtp.Common.Int.{pos, ◌+ℤ◌, ◌-ℤ◌, ◌*ℤ◌}
use k8s_mtp.Limiter.{take, is_allowed, spend, refilled, capacity, grown, found_or_new}
use k8s_mtp.Auth.{Jwk}
use k8s_mtp.Auth.Accepted.{IsVerified}
use k8s_mtp.Store.{Database, row_of}
use k8s_mtp.Store.Rows.{IsNew}
use k8s_mtp.Api.{CreateTenantRequest, UpdateTenantRequest, TenantResponse, one_tenant, no_body}
use k8s_mtp.Api.Tenants.{
  requested, refusal, create_tenant, get_tenant, update_tenant, delete_tenant, tenant_not_found,
}
use k8s_mtp.Api.Tenants.Created.{create_tenant-get_tenant, create_tenant-get_tenant_taken}
use k8s_mtp.Api.Tenants.Refused.{IsAcceptable, create_tenant-IsAcceptable}
use k8s_mtp.Api.Tenants.Edited.{update_tenant-get_tenant, delete_tenant-get_tenant}
use k8s_mtp.Api.Server.{list_tenants, api, Request, State, Server, serve, serve_all}
use k8s_mtp.Api.Server.Guards.{serve-buckets, serve-IsVerified}
use k8s_mtp.Api.Server.Sound.{IsSound, serve_all-IsSound}
use k8s_mtp.Tests.{postgres}
use k8s_mtp.Tests.Tenants.{acme}
use k8s_mtp.Tests.Rows.{empty, empty-IsValid, one_tenant as stored}
use k8s_mtp.Tests.Tokens.{jwt, jwt-IsVerifying, middleware, middleware_made, keys, guarded}

abbrev shop : CreateTenantRequest
shop = record { name = "shop"; tier = "pro"; owner_email = "a@b" }

abbrev of_shop : String → TenantResponse
of_shop id = record {
  id = id;
  name = "shop";
  namespace = "tenant-shop";
  tier = "pro";
  owner_email = "a@b";
}

shop_accepted : refusal shop ≡ none
unfolding refusal
shop_accepted = refl

shop-IsNew : IsNew (requested shop "id-1") "id-1" empty
unfolding requested
shop-IsNew = record { fitting = refl; new_name = refl; new_id = refl; new_namespace = refl }

create_tenant-get_tenant_example :
    ((create_tenant postgres "id-1" (some shop) empty).0
      ≡ record { status = 201; body = one_tenant (of_shop "id-1") })
    × ((get_tenant postgres "id-1" (create_tenant postgres "id-1" (some shop) empty).1).0
        ≡ record { status = 200; body = one_tenant (of_shop "id-1") })
create_tenant-get_tenant_example =
    create_tenant-get_tenant postgres "id-1" shop empty refl refl refl shop_accepted shop-IsNew

shop_fits : k8s_mtp.Store.Columns.fits_columns (requested shop "id-2") ≡ k8s_mtp.Common.true
unfolding requested
shop_fits = refl

create_tenant-get_tenant_taken_example :
    (create_tenant postgres "id-2" (some shop) stored ≡ (
      record { status = 201; body = one_tenant (of_shop "id-2") },
      record stored { statements = 1 },
    ))
    × ((get_tenant postgres "id-2" (create_tenant postgres "id-2" (some shop) stored).1).0
        ≡ tenant_not_found)
create_tenant-get_tenant_taken_example =
    create_tenant-get_tenant_taken postgres "id-2" shop stored refl refl refl shop_accepted
      shop_fits refl refl

abbrev nameless : CreateTenantRequest
nameless = record shop { name = "" }

create_tenant-IsAcceptable_example :
    (IsAcceptable nameless × ((create_tenant postgres "id-1" (some nameless) empty).0.status ≢ 400))
    ⊎ (¬ (IsAcceptable nameless)
        × ((create_tenant postgres "id-1" (some nameless) empty).0.status ≡ 400)
        × ((create_tenant postgres "id-1" (some nameless) empty).1 ≡ empty))
create_tenant-IsAcceptable_example = create_tenant-IsAcceptable postgres "id-1" nameless empty

abbrev to_gold : UpdateTenantRequest
to_gold = record { tier = some "gold"; owner_email = none }

abbrev gold : TenantResponse
gold = record { id = "id-1"; name = "shop"; namespace = ""; tier = "gold"; owner_email = "a@b" }

update_tenant-get_tenant_example :
    ((update_tenant postgres "id-1" (some to_gold) stored).0
      ≡ record { status = 200; body = one_tenant gold })
    × ((get_tenant postgres "id-1" (update_tenant postgres "id-1" (some to_gold) stored).1).0
        ≡ record { status = 200; body = one_tenant gold })
update_tenant-get_tenant_example =
    update_tenant-get_tenant postgres "id-1" "id-1" to_gold stored (row_of "id-1" 0 acme) refl refl
      refl refl refl refl refl refl

delete_tenant-get_tenant_example :
    ((delete_tenant postgres "id-1" stored).0 ≡ record { status = 204; body = no_body })
    × ((get_tenant postgres "id-1" (delete_tenant postgres "id-1" stored).1).0 ≡ tenant_not_found)
delete_tenant-get_tenant_example =
    delete_tenant-get_tenant postgres "id-1" "id-1" stored refl refl refl

abbrev server : Server
server = record {
  jwt = jwt;
  postgres = postgres;
  rfc3339 = λ at. "2026";
  limiter = record { rate = pos 60; burst = pos 2 };
  auth = middleware;
}

abbrev request : Request
request = record {
  endpoint = api list_tenants;
  authorization = "Bearer t";
  remote_addr = "10.0.0.1:4";
  made = 0;
  now = 0;
  uuid = "id-1";
}

abbrev fresh : State
fresh = record { database = empty; buckets = [] }

abbrev drained : State
drained = record {
  database = empty;
  buckets = ("10.0.0.1:4", record { tokens = pos 0; last_refill = 0 }) ∷ [];
}

serve-buckets_example :
    (serve server request fresh).1.buckets ≡ (take server.limiter "10.0.0.1:4" 0 0 []).1
serve-buckets_example = serve-buckets server request list_tenants fresh refl

drained_refused : (take server.limiter "10.0.0.1:4" 0 0 drained.buckets).0 ≡ false
unfolding take is_allowed spend ◌-ℤ◌ refilled capacity ◌*ℤ◌ grown ◌+ℤ◌ found_or_new lookup insert
drained_refused = refl

serve-IsVerified_example :
    ((((serve server request fresh).0.status ≡ 401) ⊎ ((serve server request fresh).0.status ≡ 429))
      × ((serve server request fresh).1.database ≡ empty))
    ⊎ ((user : String) × (jwks : List Jwk) × (keys
            (guarded.dex_issuer_url <> "/.well-known/jwks.json")
          ≡ some (record { status = 200; keys = some jwks }))
        × IsVerified jwt jwt-IsVerifying guarded jwks (strip "Bearer " "Bearer t") user)
serve-IsVerified_example =
    serve-IsVerified server jwt-IsVerifying keys guarded request list_tenants fresh middleware_made
      refl refl

serve_all-IsSound_example : IsSound (serve_all server (request ∷ request ∷ []) fresh).database
serve_all-IsSound_example =
    serve_all-IsSound server (request ∷ request ∷ []) fresh
      (record { valid = empty-IsValid; rows = (tt, tt) })
