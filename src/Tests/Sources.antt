-- ===== src/Tests/Sources.antt =====
-- internal/config/config.go on concrete sources.
use k8s_mtp.Common.{
  true, false, ◌||◌, none, some, [], ◌∷◌, ◌≡◌, ◌==◌, refl, if◌then◌else◌, behind, split_two,
}
use k8s_mtp.Common.Int.{pos}
use k8s_mtp.Settings.{Config}
use k8s_mtp.Settings.Checks.{
  valid, or_default, validate_cfg, with_format, with_defaults, check_format,
}
use k8s_mtp.Settings.Checked.{validate_cfg-IsUsable}
use k8s_mtp.Settings.Usable.{IsUsable}
use k8s_mtp.Settings.Load.{
  System, zero_config, load, loaded, load_error, source_config, override_cfg, overridden, env_parse,
  set_lines, set_line, set_key, text_over, parsed_over,
}
use k8s_mtp.Settings.Sources.{load-exists, load-source_config, load-env_parse}

-- A `.env` with an address, a level and a format; the environment has the database.
abbrev pub system : System
system = record {
  getenv = λ key. if key == "K8S_MTP_DB_URL" then "db" else "";
  exists = λ file. file == ".env";
  atoi = λ s. none;
  parse_bool = λ s. none;
  trim_space = λ s. s;
  json_file = λ file. none;
  env_lines = some (
      "# the API" ∷ "K8S_MTP_LISTEN_ADDR=:80" ∷ "" ∷ "K8S_MTP_LOG_LEVEL=info"
      ∷ "K8S_MTP_LOG_FORMAT=json" ∷ []);
}

abbrev given : Config
given = record zero_config { listen_addr = ":80"; db_url = "db"; log_level = "info" }

-- What is loaded.
abbrev pub made : Config
made = record given {
  log_format = "console";
  db_max_open_conns = pos 10;
  db_max_idle_conns = pos 5;
  db_conn_max_lifetime = "1h";
  tenant_egress_policy = "internal-only";
  platform_access_label = "k8s-mtp.io/tenant-access";
  limit_range_defaults = record {
    free = record { default_cpu = "100m"; default_memory = "128Mi" };
    pro = record { default_cpu = "200m"; default_memory = "256Mi" };
    enterprise = record { default_cpu = "500m"; default_memory = "512Mi" };
  };
  webhook_image = "k8s-mtp-webhook:latest";
  dex_client_id = "k8s-mtp";
  rate_requests_per_minute = pos 60;
  rate_burst = pos 10;
}

given_valid : validate_cfg given ≡ valid made
unfolding validate_cfg with_format check_format with_defaults
given_valid = refl

validate_cfg-IsUsable_example : IsUsable made × (validate_cfg made ≡ valid made)
validate_cfg-IsUsable_example = validate_cfg-IsUsable given made given_valid

pub made_loaded : load system "" ≡ loaded made
unfolding load source_config override_cfg overridden env_parse set_lines set_line set_key
    validate_cfg with_format check_format with_defaults behind split_two
made_loaded = refl

load-exists_example : (system.exists "config.json" || system.exists ".env") ≡ true
load-exists_example = load-exists system "" made made_loaded

-- The environment alone is not enough.
bare_environment : load (record system { exists = λ file. false }) "" ≡ load_error
unfolding load source_config
bare_environment = refl

load-env_parse_example :
    ("console" ≡ or_default "console" "")
    × ("k8s-mtp-webhook:latest" ≡ or_default "k8s-mtp-webhook:latest" "")
load-env_parse_example = load-env_parse system made refl refl made_loaded

load-source_config_example :
    (s : Config) × (source_config system "" ≡ some s)
    × (made.listen_addr ≡ text_over system "K8S_MTP_LISTEN_ADDR" s.listen_addr)
    × (made.db_url ≡ text_over system "K8S_MTP_DB_URL" s.db_url)
    × (made.log_level ≡ text_over system "K8S_MTP_LOG_LEVEL" s.log_level)
    × (made.log_format ≡ or_default "console" (text_over system "K8S_MTP_LOG_FORMAT" s.log_format))
    × (made.tenant_egress_policy
        ≡ or_default "internal-only"
            (text_over system "K8S_MTP_TENANT_EGRESS_POLICY" s.tenant_egress_policy))
    × (made.webhook_image
        ≡ or_default "k8s-mtp-webhook:latest"
            (text_over system "K8S_MTP_WEBHOOK_IMAGE" s.webhook_image))
    × (made.dex_issuer_url ≡ text_over system "K8S_MTP_DEX_ISSUER_URL" s.dex_issuer_url)
    × (made.dex_client_id
        ≡ or_default "k8s-mtp" (text_over system "K8S_MTP_DEX_CLIENT_ID" s.dex_client_id))
    × (parsed_over system system.parse_bool "K8S_MTP_AUTH_ENABLED" s.auth_enabled
        ≡ some made.auth_enabled)
load-source_config_example = load-source_config system "" made made_loaded
