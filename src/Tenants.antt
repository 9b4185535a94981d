-- ===== src/Tenants.antt =====
-- pkg/api/v1: the Tenant resource. The fields of its metadata that the repository's code reads or
-- writes are modelled, and of its status all but the conditions, which no code reads or writes.
use k8s_mtp.Common.{ℕ, String, List, Option}

pub record TenantSpec : Type 0 where
  pub name : String
  -- `Tier` is a text type in Go; any text can stand here.
  pub tier : String
  pub owner_email : String
  pub admins : List String
  pub operators : List String

abbrev pub tier_free : String
tier_free = "free"

abbrev pub tier_pro : String
tier_pro = "pro"

abbrev pub tier_enterprise : String
tier_enterprise = "enterprise"

pub record TenantStatus : Type 0 where
  pub phase : String
  pub namespace : String

abbrev pub phase_active : String
phase_active = "Active"

-- A timestamp that is not set is `none`.
pub record Tenant : Type 0 where
  pub name : String
  pub uid : String
  pub finalizers : List String
  pub creation_timestamp : Option ℕ
  pub deletion_timestamp : Option ℕ
  pub spec : TenantSpec
  pub status : TenantStatus

-- `SchemeGroupVersion.String()`.
abbrev pub group_version : String
group_version = "multitenant.k8s-mtp.io/v1"
