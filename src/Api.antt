-- ===== src/Api.antt =====
-- internal/handlers/types.go: what the REST API is sent and what it answers.
pub mod Tenants
pub mod Members
pub mod Server
use k8s_mtp.Common.{ℕ, String, Option, List}
use k8s_mtp.Tenants.{Tenant}
use k8s_mtp.Store.{Database}

pub record CreateTenantRequest : Type 0 where
  pub name : String
  pub tier : String
  pub owner_email : String

pub record UpdateTenantRequest : Type 0 where
  pub tier : Option String
  pub owner_email : Option String

pub record TenantResponse : Type 0 where
  pub id : String
  pub name : String
  pub namespace : String
  pub tier : String
  pub owner_email : String

pub record AddMemberRequest : Type 0 where
  pub user_id : String
  pub role : String

pub record MemberResponse : Type 0 where
  pub user_id : String
  pub role : String
  pub created_at : String

-- What is written behind the status: nothing, the text of `http.Error`, or the value that is encoded.
pub data Body : Type 0 where
  no_body : Body
  error_text : String → Body
  one_tenant : TenantResponse → Body
  many_tenants : List TenantResponse → Body
  one_member : MemberResponse → Body
  many_members : List MemberResponse → Body
  health_status : String → Body

pub record Response : Type 0 where
  pub status : ℕ
  pub body : Body

-- `http.Error(w, text, status)`.
abbrev pub http_error : String → ℕ → Response
http_error text status = record { status = status; body = error_text text }

-- A handler works on the database.
abbrev pub Handler : Type 0
Handler = Database → Response × Database

abbrev pub tenant_response : Tenant → TenantResponse
tenant_response t = record {
  id = t.uid;
  name = t.spec.name;
  namespace = t.status.namespace;
  tier = t.spec.tier;
  owner_email = t.spec.owner_email;
}
