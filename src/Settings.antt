-- ===== src/Settings.antt =====
-- internal/config/config.go: the configuration.
pub mod Checks
pub mod Load
pub mod Usable
pub mod Checked
pub mod EnvFile
pub mod Sources
pub mod Logging
use k8s_mtp.Common.{String, Bool}
use k8s_mtp.Common.Int.{ℤ}

pub record TierDefaults : Type 0 where
  pub default_cpu : String
  pub default_memory : String

pub record LimitRangeDefaults : Type 0 where
  pub free : TierDefaults
  pub pro : TierDefaults
  pub enterprise : TierDefaults

pub record Config : Type 0 where
  pub listen_addr : String
  pub db_url : String
  pub log_level : String
  pub log_format : String
  pub db_max_open_conns : ℤ
  pub db_max_idle_conns : ℤ
  pub db_conn_max_lifetime : String
  pub tenant_egress_policy : String
  pub platform_access_label : String
  pub limit_range_defaults : LimitRangeDefaults
  pub webhook_image : String
  pub dex_issuer_url : String
  pub dex_client_id : String
  pub auth_enabled : Bool
  pub rate_requests_per_minute : ℤ
  pub rate_burst : ℤ
