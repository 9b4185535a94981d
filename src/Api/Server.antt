-- ===== src/Api/Server.antt =====
-- internal/server/server.go: the routes, with what stands before each handler.
pub mod Calls
pub mod Sound
pub mod Guards
use k8s_mtp.Common.{ℕ, String, Option, List, [], ◌∷◌, if◌then◌else◌}
use k8s_mtp.Store.{Database, Postgres}
use k8s_mtp.Limiter.{RateLimiter, Buckets, take, limit_key}
use k8s_mtp.Auth.{Jwt, AuthMiddleware, accepted, unauthorized, auth}
use k8s_mtp.Api.{
  CreateTenantRequest, UpdateTenantRequest, AddMemberRequest, Response, health_status, http_error,
  Handler,
}
use k8s_mtp.Api.Tenants
use k8s_mtp.Api.Members

-- The routes under /api/v1, with the parts of their paths and their decoded bodies.
pub data Route : Type 0 where
  list_tenants : Route
  create_tenant : Option CreateTenantRequest → Route
  get_tenant : String → Route
  update_tenant : String → Option UpdateTenantRequest → Route
  delete_tenant : String → Route
  add_member : String → Option AddMemberRequest → Route
  remove_member : String → String → Route
  list_members : String → Route

pub data Endpoint : Type 0 where
  health : Endpoint
  api : Route → Endpoint

-- A request: `authorization` is the header, "" where there is none; `made` and `now` are the times that
-- the limiter reads, and `uuid` is what `uuid.New` gives in it.
pub record Request : Type 0 where
  pub endpoint : Endpoint
  pub authorization : String
  pub remote_addr : String
  pub made : ℕ
  pub now : ℕ
  pub uuid : String

pub record State : Type 0 where
  pub database : Database
  pub buckets : Buckets

-- What the server is made with. `rfc3339` is how `time.Format` writes a time.
pub record Server : Type 1 where
  pub jwt : Jwt
  pub postgres : Postgres
  pub rfc3339 : ℕ → String
  pub limiter : RateLimiter
  pub auth : AuthMiddleware

unfoldable pub handler : Server → String → Route → Handler
unfolding Tenants.list_tenants Tenants.create_tenant Tenants.get_tenant Tenants.update_tenant
    Tenants.delete_tenant Members.add_member Members.remove_member Members.list_members
handler s uuid list_tenants = Tenants.list_tenants s.postgres
handler s uuid (create_tenant body) = Tenants.create_tenant s.postgres uuid body
handler s uuid (get_tenant id) = Tenants.get_tenant s.postgres id
handler s uuid (update_tenant id body) = Tenants.update_tenant s.postgres id body
handler s uuid (delete_tenant id) = Tenants.delete_tenant s.postgres id
handler s uuid (add_member id body) = Members.add_member s.postgres id body
handler s uuid (remove_member id user) = Members.remove_member s.postgres id user
handler s uuid (list_members id) = Members.list_members s.postgres s.rfc3339 id

-- `Auth` around a handler; no handler reads the user.
unfoldable pub authenticated : Server → String → Handler → Handler
authenticated s header next db = elim (auth s.jwt s.auth header) [
  | unauthorized ↦ (http_error "{\"error\":\"unauthorized\"}" 401, db)
  | accepted user ↦ next db
]

-- Hands a request on.
unfoldable pub passed_on : Handler → Database → Buckets → Response × State
passed_on next db buckets =
    let (response, database) = next db in
    (response, record { database = database; buckets = buckets })

-- `Limit` around a handler, less the header `Retry-After`. The context of the request has no user yet.
unfoldable pub limited : Server → Request → Handler → State → Response × State
unfolding passed_on
limited s req next state =
    let (allowed, buckets) =
      take s.limiter (limit_key "" req.remote_addr) req.made req.now state.buckets in
    if allowed then passed_on next state.database buckets else (
      http_error "too many requests, no more tokens" 429,
      record { database = state.database; buckets = buckets },
    )

unfoldable pub serve : Server → Request → State → Response × State
unfolding limited authenticated handler
serve s req state = elim req.endpoint [
  | health ↦ (record { status = 200; body = health_status "healthy" }, state)
  | api route ↦ limited s req (authenticated s req.authorization (handler s req.uuid route)) state
]

unfoldable pub serve_all : Server → List Request → State → State
unfolding serve
serve_all s [] state = state
serve_all s (req ∷ reqs) state = serve_all s reqs (serve s req state).1
