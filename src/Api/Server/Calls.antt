-- ===== src/Api/Server/Calls.antt =====
-- What the endpoints do to the database, as calls of internal/store.
use k8s_mtp.Common.{
  ℕ, Bool, false, sym, subst, String, Option, none, some, ◌≡◌, ◌⊎◌, ◌==◌, not, ◌&&◌, eq_iff, ◌<>◌,
  refl, arith, Bool-cases, inl, inr, Option-cases,
}
use k8s_mtp.Tenants.{Tenant}
use k8s_mtp.Store
use k8s_mtp.Store.{Database, Postgres, Result, StoreError, ok, err}
use k8s_mtp.Store.Kept.{Call, create, add, run}
use k8s_mtp.Store.Kept
use k8s_mtp.Api.{Response, Handler, AddMemberRequest, UpdateTenantRequest, CreateTenantRequest}
use k8s_mtp.Api.Tenants as TenantHandlers
use k8s_mtp.Api.Members as MemberHandlers
use k8s_mtp.Limiter.{take, limit_key}
use k8s_mtp.Auth.{Verdict, accepted, unauthorized, auth}
use k8s_mtp.Api.Server.{
  Route, list_tenants, create_tenant, get_tenant, update_tenant, delete_tenant, add_member,
  remove_member, list_members, Endpoint, health, api, Request, State, Server, handler,
  authenticated, limited, passed_on, serve,
}

-- The calls that the API makes: a tenant is created in the namespace that is named after it, a member is
-- added as an admin or an operator, and no row is removed for good.
abbrev pub IsApiCall : Call → Type 0
IsApiCall (create t) = t.status.namespace ≡ "tenant-" <> t.spec.name
IsApiCall (Kept.add id user role) = (role ≡ "admin") ⊎ (role ≡ "operator")
IsApiCall (Kept.update t) = Unit {0}
IsApiCall (Kept.get_by_id id) = Unit {0}
IsApiCall (Kept.get_by_name name) = Unit {0}
IsApiCall (Kept.delete id) = Unit {0}
IsApiCall (Kept.hard_delete id) = ⊥
IsApiCall (Kept.members_of id) = Unit {0}
IsApiCall Kept.list = Unit {0}
IsApiCall (Kept.remove id user) = Unit {0}
IsApiCall (Kept.role_in id user) = Unit {0}

-- The second database comes from the first by calls that the API makes.
pub data Calls (pg : Postgres) : Database → Database → Type 0 where
  no_call : {db : Database} → Calls pg db db
  then_call :
      {db db' : Database} (call : Call)
      → IsApiCall call
      → Calls pg (run pg call db) db'
      → Calls pg db db'

one_call :
    (pg : Postgres) (call : Call) (db : Database) → IsApiCall call → Calls pg db (run pg call db)
one_call pg call db h = then_call call h no_call

module _ (pg : Postgres) (db : Database) where
  list_tenants-db : (TenantHandlers.list_tenants pg db).1 ≡ run pg Kept.list db
  unfolding TenantHandlers.list_tenants run
  list_tenants-db = ground arith

  insert_requested-db :
      (t : Tenant) → (TenantHandlers.insert_requested pg t db).1 ≡ run pg (create t) db
  unfolding TenantHandlers.insert_requested run
  insert_requested-db t = ground arith

  get_tenant-db :
      (id : String) → (TenantHandlers.get_tenant pg id db).1 ≡ run pg (Kept.get_by_id id) db
  unfolding TenantHandlers.get_tenant run
  get_tenant-db id = ground arith

  write_edited-db :
      (t : Tenant) → (TenantHandlers.write_edited pg t db).1 ≡ run pg (Kept.update t) db
  unfolding TenantHandlers.write_edited run
  write_edited-db t = ground arith

  delete_tenant-db :
      (id : String) → (TenantHandlers.delete_tenant pg id db).1 ≡ run pg (Kept.delete id) db
  unfolding TenantHandlers.delete_tenant run
  delete_tenant-db id = ground arith

  insert_member-db :
      (id : String) (req : AddMemberRequest)
      → (MemberHandlers.insert_member pg id req db).1 ≡ run pg (Kept.add id req.user_id req.role) db
  unfolding MemberHandlers.insert_member run
  insert_member-db id req = ground arith

  remove_member-db :
      (id user : String)
      → (MemberHandlers.remove_member pg id user db).1 ≡ run pg (Kept.remove id user) db
  unfolding MemberHandlers.remove_member run
  remove_member-db id user = ground arith

  list_members-db :
      (rfc3339 : ℕ → String) (id : String)
      → (MemberHandlers.list_members pg rfc3339 id db).1 ≡ run pg (Kept.members_of id) db
  unfolding MemberHandlers.list_members run
  list_members-db rfc3339 id = ground arith

abbrev Effect : Postgres → Handler → Type 0
Effect pg handler = (db : Database) → Calls pg db (handler db).1

by_call :
    (pg : Postgres) (call : Call) (db : Database) {db' : Database}
    → IsApiCall call
    → db' ≡ run pg call db
    → Calls pg db db'
by_call pg call db h e = subst (Calls pg db) (sym e) (then_call call h no_call)

-- What follows when a tenant was looked up.
after_lookup :
    (pg : Postgres) (id : String) (db : Database) (db' : Result (Option Tenant) → Database)
    → ((e : StoreError) → db' (err e) ≡ run pg (Kept.get_by_id id) db)
    → (db' (ok none) ≡ run pg (Kept.get_by_id id) db)
    → ((t : Tenant) → Calls pg (run pg (Kept.get_by_id id) db) (db' (ok (some t))))
    → (r : Result (Option Tenant)) → Calls pg db (db' r)
after_lookup pg id db db' f g h (err e) = by_call pg (Kept.get_by_id id) db tt (f e)
after_lookup pg id db db' f g h (ok none) = by_call pg (Kept.get_by_id id) db tt g
after_lookup pg id db db' f g h (ok (some t)) = then_call (Kept.get_by_id id) tt (h t)

create_tenant-Calls :
    (pg : Postgres) (uid : String) (body : Option CreateTenantRequest)
    → Effect pg (TenantHandlers.create_tenant pg uid body)
unfolding TenantHandlers.create_tenant TenantHandlers.requested
create_tenant-Calls pg uid none db = no_call
create_tenant-Calls pg uid (some req) db = elim (Option-cases (TenantHandlers.refusal req)) [
  | inl e ↦
      rw (e, TenantHandlers.create_tenant)
        (by_call pg (create (TenantHandlers.requested req uid)) db refl
          (insert_requested-db pg db (TenantHandlers.requested req uid)))
  | inr (r, e) ↦ rw (e, TenantHandlers.create_tenant) no_call
]

edit_found-Calls :
    (pg : Postgres) (body : Option UpdateTenantRequest) (t : Tenant)
    → Effect pg (TenantHandlers.edit_found pg body t)
unfolding TenantHandlers.edit_found
edit_found-Calls pg none t db = no_call
edit_found-Calls pg (some req) t db =
    by_call pg (Kept.update (TenantHandlers.edited req t)) db tt
      (write_edited-db pg db (TenantHandlers.edited req t))

update_tenant-Calls :
    (pg : Postgres) (id : String) (body : Option UpdateTenantRequest)
    → Effect pg (TenantHandlers.update_tenant pg id body)
unfolding TenantHandlers.update_tenant run
update_tenant-Calls pg id body db =
    after_lookup pg id db
      (λ r.
        (elim r as (λ x. Response × Database) [
          | err e ↦ (TenantHandlers.lookup_failed, after)
          | ok none ↦ (TenantHandlers.tenant_not_found, after)
          | ok (some t) ↦ TenantHandlers.edit_found pg body t after
        ]).1)
      (λ e. refl) refl (λ t. edit_found-Calls pg body t after) (Store.get_tenant_by_id pg id db).0
  where
    after : Database
    after = run pg (Kept.get_by_id id) db

add_to_found-Calls :
    (pg : Postgres) (id : String) (body : Option AddMemberRequest)
    → Effect pg (MemberHandlers.add_to_found pg id body)
unfolding MemberHandlers.add_to_found
add_to_found-Calls pg id none db = no_call
add_to_found-Calls pg id (some req) db = elim (Bool-cases (is_other req.role)) [
  | inl e ↦ rw (e, MemberHandlers.add_to_found) no_call
  | inr e ↦
      rw (e, MemberHandlers.add_to_found)
        (by_call pg (Kept.add id req.user_id req.role) db (role_lem req.role e)
          (insert_member-db pg db id req))
]
  where
    is_other : String → Bool
    is_other role = not (role == "admin") && not (role == "operator")

    role_lem : (role : String) → is_other role ≡ false → (role ≡ "admin") ⊎ (role ≡ "operator")
    role_lem role e = elim (Bool-cases (role == "admin")) [
      | inl h ↦ inl ((eq_iff role "admin").0 h)
      | inr h ↦ inr ((eq_iff role "operator").0 (ground (arith, e, h)))
    ]

add_member-Calls :
    (pg : Postgres) (id : String) (body : Option AddMemberRequest)
    → Effect pg (MemberHandlers.add_member pg id body)
unfolding MemberHandlers.add_member run
add_member-Calls pg id body db =
    after_lookup pg id db
      (λ r.
        (elim r as (λ x. Response × Database) [
          | err e ↦ (TenantHandlers.lookup_failed, after)
          | ok none ↦ (TenantHandlers.tenant_not_found, after)
          | ok (some t) ↦ MemberHandlers.add_to_found pg id body after
        ]).1)
      (λ e. refl) refl (λ t. add_to_found-Calls pg id body after)
      (Store.get_tenant_by_id pg id db).0
  where
    after : Database
    after = run pg (Kept.get_by_id id) db

handler-Calls :
    (s : Server) (uuid : String) (route : Route) → Effect s.postgres (handler s uuid route)
unfolding handler
handler-Calls s uuid list_tenants db =
    by_call s.postgres Kept.list db tt (list_tenants-db s.postgres db)
handler-Calls s uuid (create_tenant body) db = create_tenant-Calls s.postgres uuid body db
handler-Calls s uuid (get_tenant id) db =
    by_call s.postgres (Kept.get_by_id id) db tt (get_tenant-db s.postgres db id)
handler-Calls s uuid (update_tenant id body) db = update_tenant-Calls s.postgres id body db
handler-Calls s uuid (delete_tenant id) db =
    by_call s.postgres (Kept.delete id) db tt (delete_tenant-db s.postgres db id)
handler-Calls s uuid (add_member id body) db = add_member-Calls s.postgres id body db
handler-Calls s uuid (remove_member id user) db =
    by_call s.postgres (Kept.remove id user) db tt (remove_member-db s.postgres db id user)
handler-Calls s uuid (list_members id) db =
    by_call s.postgres (Kept.members_of id) db tt (list_members-db s.postgres db s.rfc3339 id)

authenticated-Calls :
    (s : Server) (header : String) (next : Handler)
    → Effect s.postgres next
    → Effect s.postgres (authenticated s header next)
unfolding authenticated
authenticated-Calls s header next h db = by_verdict (auth s.jwt s.auth header) refl
  where
    by_verdict :
        (v : Verdict)
        → auth s.jwt s.auth header ≡ v
        → Calls s.postgres db (authenticated s header next db).1
    by_verdict unauthorized e = rw (e, authenticated) no_call
    by_verdict (accepted user) e = rw (e, authenticated) (h db)

-- What a request does to the database is a sequence of calls that the API makes.
pub serve-Calls :
    (s : Server) (req : Request) (state : State)
    → Calls s.postgres state.database (serve s req state).1.database
unfolding serve limited passed_on
serve-Calls s req state = by_endpoint req.endpoint refl
  where
    by_endpoint :
        (e : Endpoint)
        → req.endpoint ≡ e
        → Calls s.postgres state.database (serve s req state).1.database
    by_endpoint health e = rw (e, serve) no_call
    by_endpoint (api route) e =
        elim (Bool-cases
          (take s.limiter (limit_key "" req.remote_addr) req.made req.now state.buckets).0) [
            | inl f ↦
                rw (e, serve)
                  (rw (f, limited)
                    (authenticated-Calls s req.authorization (handler s req.uuid route)
                      (handler-Calls s req.uuid route) state.database))
            | inr f ↦ rw (e, serve) (rw (f, limited) no_call)
          ]
