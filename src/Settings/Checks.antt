-- ===== src/Settings/Checks.antt =====
-- internal/config/config.go: validateCfg.
use k8s_mtp.Common.{String, Bool, not, ◌&&◌, ◌||◌, ◌==◌, ◌<>◌, if◌then◌else◌}
use k8s_mtp.Common.Int.{ℤ, pos, is_zero_int}
use k8s_mtp.Settings.{Config}

-- A configuration, or the text of an error.
pub data Checked : Type 0 where
  valid : Config → Checked
  invalid : String → Checked

-- The value of a field, or its default where it is empty.
abbrev pub or_default : String → String → String
or_default value text = if text == "" then value else text

abbrev pub or_default_int : ℤ → ℤ → ℤ
or_default_int value n = if is_zero_int n then value else n

abbrev pub is_level : String → Bool
is_level level = level == "debug" || (level == "info" || (level == "warn" || level == "error"))

-- The configuration with the defaults that are set behind the checks.
unfoldable pub with_defaults : Config → Config
with_defaults cfg = record cfg {
  db_max_open_conns = or_default_int (pos 10) cfg.db_max_open_conns;
  db_max_idle_conns = or_default_int (pos 5) cfg.db_max_idle_conns;
  db_conn_max_lifetime = or_default "1h" cfg.db_conn_max_lifetime;
  tenant_egress_policy = or_default "internal-only" cfg.tenant_egress_policy;
  platform_access_label = or_default "k8s-mtp.io/tenant-access" cfg.platform_access_label;
  limit_range_defaults = record {
    free = record {
      default_cpu = or_default "100m" cfg.limit_range_defaults.free.default_cpu;
      default_memory = or_default "128Mi" cfg.limit_range_defaults.free.default_memory;
    };
    pro = record {
      default_cpu = or_default "200m" cfg.limit_range_defaults.pro.default_cpu;
      default_memory = or_default "256Mi" cfg.limit_range_defaults.pro.default_memory;
    };
    enterprise = record {
      default_cpu = or_default "500m" cfg.limit_range_defaults.enterprise.default_cpu;
      default_memory = or_default "512Mi" cfg.limit_range_defaults.enterprise.default_memory;
    };
  };
  webhook_image = or_default "k8s-mtp-webhook:latest" cfg.webhook_image;
  dex_client_id = or_default "k8s-mtp" cfg.dex_client_id;
  rate_requests_per_minute = or_default_int (pos 60) cfg.rate_requests_per_minute;
  rate_burst = or_default_int (pos 10) cfg.rate_burst;
}

unfoldable pub with_format : Config → Config
with_format cfg = record cfg { log_format = or_default "console" cfg.log_format }

unfoldable pub check_format : Config → Checked
unfolding with_defaults
check_format cfg =
    if not (cfg.log_format == "json") && not (cfg.log_format == "console")
    then invalid ("invalid log_format: " <> cfg.log_format)
    else if not (is_level cfg.log_level)
    then invalid ("invalid log level: " <> cfg.log_level)
    else valid (with_defaults cfg)

unfoldable pub validate_cfg : Config → Checked
unfolding with_format check_format
validate_cfg cfg =
    if cfg.listen_addr == ""
    then invalid "ListenAddr is empty"
    else if cfg.db_url == ""
    then invalid "database URL is empty"
    else check_format (with_format cfg)
