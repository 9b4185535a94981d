-- ===== src/Settings/Usable.antt =====
-- internal/config/config.go: what a configuration needs, and what the defaults of validateCfg give it.
use k8s_mtp.Common.{String, false, ◌≡◌, ◌≢◌, ◌⊎◌, ◌==◌, refl, arith, eq_iff, Bool-cases, inl, inr}
use k8s_mtp.Common.Int.{ℤ, pos, is_zero_int}
use k8s_mtp.Settings.{Config, TierDefaults}
use k8s_mtp.Settings.Checks.{or_default, or_default_int, with_defaults}

abbrev HasDefaults : TierDefaults → Type 0
HasDefaults d = (d.default_cpu ≢ "") × (d.default_memory ≢ "")

abbrev pub IsLevel : String → Type 0
IsLevel level = (level ≡ "debug") ⊎ ((level ≡ "info") ⊎ ((level ≡ "warn") ⊎ (level ≡ "error")))

-- What the program relies on in its configuration.
pub record IsUsable (cfg : Config) : Type 0 where
  pub listens : cfg.listen_addr ≢ ""
  pub has_database : cfg.db_url ≢ ""
  pub format : (cfg.log_format ≡ "json") ⊎ (cfg.log_format ≡ "console")
  pub level : IsLevel cfg.log_level
  pub open_conns : is_zero_int cfg.db_max_open_conns ≡ false
  pub idle_conns : is_zero_int cfg.db_max_idle_conns ≡ false
  pub lifetime : cfg.db_conn_max_lifetime ≢ ""
  pub egress : cfg.tenant_egress_policy ≢ ""
  pub label : cfg.platform_access_label ≢ ""
  pub free : HasDefaults cfg.limit_range_defaults.free
  pub pro : HasDefaults cfg.limit_range_defaults.pro
  pub enterprise : HasDefaults cfg.limit_range_defaults.enterprise
  pub image : cfg.webhook_image ≢ ""
  pub client : cfg.dex_client_id ≢ ""
  pub rate : is_zero_int cfg.rate_requests_per_minute ≡ false
  pub burst : is_zero_int cfg.rate_burst ≡ false

-- What has to be written in a configuration.
pub record IsComplete (cfg : Config) : Type 0 where
  pub listens : cfg.listen_addr ≢ ""
  pub has_database : cfg.db_url ≢ ""
  pub format : (cfg.log_format ≡ "") ⊎ ((cfg.log_format ≡ "json") ⊎ (cfg.log_format ≡ "console"))
  pub level : IsLevel cfg.log_level

or_default_set : (value text : String) → value ≢ "" → or_default value text ≢ ""
or_default_set value text h = elim (Bool-cases (text == "")) [
  | inl e ↦ rw e h
  | inr e ↦ rw e (λ p. ground (arith, e, p, eq_iff text ""))
]

pub or_default_kept : (value text : String) → text ≢ "" → or_default value text ≡ text
or_default_kept value text h = ground (arith, h, eq_iff text "")

or_default_int_set :
    (value n : ℤ) → is_zero_int value ≡ false → is_zero_int (or_default_int value n) ≡ false
or_default_int_set value n h = elim (Bool-cases (is_zero_int n)) [ inl e ↦ rw e h | inr e ↦ rw e e ]

or_default_int_kept : (value n : ℤ) → is_zero_int n ≡ false → or_default_int value n ≡ n
or_default_int_kept value n h = rw h refl

pub text_differs : (s t : String) → (s == t) ≡ false → s ≢ t
text_differs s t h p = ground (arith, h, p, eq_iff s t)

pub with_defaults-IsUsable :
    (cfg : Config)
    → cfg.listen_addr ≢ ""
    → cfg.db_url ≢ ""
    → (cfg.log_format ≡ "json") ⊎ (cfg.log_format ≡ "console")
    → IsLevel cfg.log_level
    → IsUsable (with_defaults cfg)
unfolding with_defaults
with_defaults-IsUsable cfg a d f l = record {
  listens = a;
  has_database = d;
  format = f;
  level = l;
  open_conns = or_default_int_set (pos 10) cfg.db_max_open_conns refl;
  idle_conns = or_default_int_set (pos 5) cfg.db_max_idle_conns refl;
  lifetime = or_default_set "1h" cfg.db_conn_max_lifetime (text_differs "1h" "" refl);
  egress =
      or_default_set "internal-only" cfg.tenant_egress_policy
        (text_differs "internal-only" "" refl);
  label =
      or_default_set "k8s-mtp.io/tenant-access" cfg.platform_access_label
        (text_differs "k8s-mtp.io/tenant-access" "" refl);
  free = (
    or_default_set "100m" cfg.limit_range_defaults.free.default_cpu (text_differs "100m" "" refl),
    or_default_set "128Mi" cfg.limit_range_defaults.free.default_memory
        (text_differs "128Mi" "" refl),
  );
  pro = (
    or_default_set "200m" cfg.limit_range_defaults.pro.default_cpu (text_differs "200m" "" refl),
    or_default_set "256Mi" cfg.limit_range_defaults.pro.default_memory
        (text_differs "256Mi" "" refl),
  );
  enterprise = (
    or_default_set "500m" cfg.limit_range_defaults.enterprise.default_cpu
        (text_differs "500m" "" refl),
    or_default_set "512Mi" cfg.limit_range_defaults.enterprise.default_memory
        (text_differs "512Mi" "" refl),
  );
  image =
      or_default_set "k8s-mtp-webhook:latest" cfg.webhook_image
        (text_differs "k8s-mtp-webhook:latest" "" refl);
  client = or_default_set "k8s-mtp" cfg.dex_client_id (text_differs "k8s-mtp" "" refl);
  rate = or_default_int_set (pos 60) cfg.rate_requests_per_minute refl;
  burst = or_default_int_set (pos 10) cfg.rate_burst refl;
}

pub with_defaults-kept : (cfg : Config) → IsUsable cfg → with_defaults cfg ≡ cfg
unfolding with_defaults
with_defaults-kept cfg u =
    rw
      (
        or_default_int_kept (pos 10) cfg.db_max_open_conns u.open_conns,
        or_default_int_kept (pos 5) cfg.db_max_idle_conns u.idle_conns,
        or_default_kept "1h" _ u.lifetime,
        or_default_kept "internal-only" _ u.egress,
        or_default_kept "k8s-mtp.io/tenant-access" _ u.label,
        or_default_kept "100m" _ u.free.0,
        or_default_kept "128Mi" _ u.free.1,
        or_default_kept "200m" _ u.pro.0,
        or_default_kept "256Mi" _ u.pro.1,
        or_default_kept "500m" _ u.enterprise.0,
        or_default_kept "512Mi" _ u.enterprise.1,
        or_default_kept "k8s-mtp-webhook:latest" _ u.image,
        or_default_kept "k8s-mtp" _ u.client,
        or_default_int_kept (pos 60) cfg.rate_requests_per_minute u.rate,
        or_default_int_kept (pos 10) cfg.rate_burst u.burst,
      )
      refl
