-- ===== src/Settings/Load.antt =====
-- internal/config/config.go: Load, with the sources of the configuration.
use k8s_mtp.Common.{
  String, Bool, false, Option, none, some, List, [], ◌∷◌, ◌==◌, if◌then◌else◌, behind, split_two,
}
use k8s_mtp.Common.Int.{ℤ, pos}
use k8s_mtp.Settings.{Config}
use k8s_mtp.Settings.Checks.{valid, invalid, or_default, validate_cfg}

-- The libraries and the environment, as a parameter: `os.Getenv`, `os.Stat` without an error,
-- `strconv.Atoi`, `strconv.ParseBool`, `strings.TrimSpace`; the configuration that `json.Unmarshal` makes
-- of a file; and the lines of `.env`. `none` is an error.
pub record System : Type 0 where
  pub getenv : String → String
  pub exists : String → Bool
  pub atoi : String → Option ℤ
  pub parse_bool : String → Option Bool
  pub trim_space : String → String
  pub json_file : String → Option Config
  pub env_lines : Option (List String)

-- `Config{}`.
abbrev pub zero_config : Config
zero_config = record {
  listen_addr = "";
  db_url = "";
  log_level = "";
  log_format = "";
  db_max_open_conns = pos 0;
  db_max_idle_conns = pos 0;
  db_conn_max_lifetime = "";
  tenant_egress_policy = "";
  platform_access_label = "";
  limit_range_defaults = record {
    free = record { default_cpu = ""; default_memory = "" };
    pro = record { default_cpu = ""; default_memory = "" };
    enterprise = record { default_cpu = ""; default_memory = "" };
  };
  webhook_image = "";
  dex_issuer_url = "";
  dex_client_id = "";
  auth_enabled = false;
  rate_requests_per_minute = pos 0;
  rate_burst = pos 0;
}

-- Goes on with a value that was parsed.
abbrev pub parsed : {A B : Type 0} → Option A → (A → B) → Option B
parsed none f = none
parsed (some a) f = some (f a)

-- What `Load` comes to: a configuration, an error, or a panic.
pub data Loaded : Type 0 where
  loaded : Config → Loaded
  load_error : Loaded
  panicked : Loaded

module _ (sys : System) where
  open sys use {getenv, exists, atoi, parse_bool, trim_space, json_file, env_lines}

  -- The switch on the key of a line.
  unfoldable pub set_key : String → String → Config → Option Config
  set_key key value cfg =
      if key == "K8S_MTP_LISTEN_ADDR"
      then some (record cfg { listen_addr = value })
      else if key == "K8S_MTP_DB_URL"
      then some (record cfg { db_url = value })
      else if key == "K8S_MTP_LOG_LEVEL"
      then some (record cfg { log_level = value })
      else if key == "K8S_MTP_DB_OPEN_CONNS"
      then parsed (atoi value) (λ v. record cfg { db_max_open_conns = v })
      else if key == "K8S_MTP_DB_IDLE_CONNS"
      then parsed (atoi value) (λ v. record cfg { db_max_idle_conns = v })
      else if key == "K8S_MTP_DB_CONN_MAX_LIFETIME"
      then some (record cfg { db_conn_max_lifetime = value })
      else if key == "K8S_MTP_TENANT_EGRESS_POLICY"
      then some (record cfg { tenant_egress_policy = value })
      else if key == "K8S_MTP_PLATFORM_ACCESS_LABEL"
      then some (record cfg { platform_access_label = value })
      else if key == "K8S_MTP_DEX_CLIENT_ID"
      then some (record cfg { dex_client_id = value })
      else if key == "K8S_MTP_DEX_ISSUER_URL"
      then some (record cfg { dex_issuer_url = value })
      else if key == "K8S_MTP_AUTH_ENABLED"
      then parsed (parse_bool value) (λ v. record cfg { auth_enabled = v })
      else if key == "K8S_MTP_RATE_REQUESTS_PER_MINUTE"
      then parsed (atoi value) (λ v. record cfg { rate_requests_per_minute = v })
      else if key == "K8S_MTP_RATE_BURST"
      then parsed (atoi value) (λ v. record cfg { rate_burst = v })
      else some cfg

  unfoldable pub set_line : String → Config → Option Config
  unfolding set_key
  set_line line cfg = if line == "" then some cfg else elim (behind "#" line) [
    | some comment ↦ some cfg
    | none ↦ elim (split_two b'=' line) [
      | none ↦ none
      | some (key, value) ↦ set_key (trim_space key) (trim_space value) cfg
    ]
  ]

  unfoldable pub set_lines : List String → Config → Option Config
  unfolding set_line
  set_lines [] cfg = some cfg
  set_lines (line ∷ lines) cfg = elim (set_line line cfg) [
    | none ↦ none
    | some cfg' ↦ set_lines lines cfg'
  ]

  unfoldable pub env_parse : Option Config
  env_parse = elim env_lines [ none ↦ none | some lines ↦ set_lines lines zero_config ]

  -- A variable over a number or a truth value; `none` is a panic.
  abbrev pub parsed_over : {A : Type 0} → (String → Option A) → String → A → Option A
  parsed_over parse key old = if getenv key == "" then some old else parse (getenv key)

  abbrev pub text_over : String → String → String
  text_over key old = or_default old (getenv key)

  -- The configuration with the variables that are set, given what is made of those that are parsed.
  unfoldable pub overridden : Config → ℤ → ℤ → Bool → ℤ → ℤ → Config
  overridden cfg open_conns idle_conns auth rpm rb = record cfg {
    listen_addr = text_over "K8S_MTP_LISTEN_ADDR" cfg.listen_addr;
    db_url = text_over "K8S_MTP_DB_URL" cfg.db_url;
    log_level = text_over "K8S_MTP_LOG_LEVEL" cfg.log_level;
    log_format = text_over "K8S_MTP_LOG_FORMAT" cfg.log_format;
    db_max_open_conns = open_conns;
    db_max_idle_conns = idle_conns;
    db_conn_max_lifetime = text_over "K8S_MTP_DB_CONN_MAX_LIFETIME" cfg.db_conn_max_lifetime;
    tenant_egress_policy = text_over "K8S_MTP_TENANT_EGRESS_POLICY" cfg.tenant_egress_policy;
    platform_access_label = text_over "K8S_MTP_PLATFORM_ACCESS_LABEL" cfg.platform_access_label;
    webhook_image = text_over "K8S_MTP_WEBHOOK_IMAGE" cfg.webhook_image;
    dex_issuer_url = text_over "K8S_MTP_DEX_ISSUER_URL" cfg.dex_issuer_url;
    dex_client_id = text_over "K8S_MTP_DEX_CLIENT_ID" cfg.dex_client_id;
    auth_enabled = auth;
    rate_requests_per_minute = rpm;
    rate_burst = rb;
  }

  -- `none` is the panic at a variable that cannot be parsed.
  unfoldable pub override_cfg : Config → Option Config
  unfolding overridden
  override_cfg cfg = elim (parsed_over atoi "K8S_MTP_DB_OPEN_CONNS" cfg.db_max_open_conns) [
    | none ↦ none
    | some opened ↦ elim (parsed_over atoi "K8S_MTP_DB_IDLE_CONNS" cfg.db_max_idle_conns) [
      | none ↦ none
      | some idle ↦ elim (parsed_over parse_bool "K8S_MTP_AUTH_ENABLED" cfg.auth_enabled) [
        | none ↦ none
        | some auth ↦
            elim (parsed_over atoi "K8S_MTP_RATE_REQUESTS_PER_MINUTE"
              cfg.rate_requests_per_minute) [
                | none ↦ none
                | some rpm ↦
                    parsed (parsed_over atoi "K8S_MTP_RATE_BURST" cfg.rate_burst)
                      (overridden cfg opened idle auth rpm)
              ]
      ]
    ]
  ]

  -- The configuration before the environment is looked at; `none` is an error. Where there is no file the
  -- error of the last `os.Stat` is still there when it is asked for, after `cfg = &Config{}`.
  unfoldable pub source_config : String → Option Config
  unfolding env_parse
  source_config file =
      if file == ""
      then (if exists "config.json"
          then json_file "config.json"
          else if exists ".env"
          then env_parse
          else none)
      else if exists file
      then json_file file
      else none

  unfoldable pub load : String → Loaded
  unfolding source_config override_cfg
  load file = elim (source_config file) [
    | none ↦ load_error
    | some cfg ↦ elim (override_cfg cfg) [
      | none ↦ panicked
      | some cfg' ↦ elim (validate_cfg cfg') [ invalid text ↦ load_error | valid c ↦ loaded c ]
    ]
  ]
