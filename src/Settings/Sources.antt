-- ===== src/Settings/Sources.antt =====
-- internal/config/config.go: where the values of a loaded configuration come from.
use k8s_mtp.Common.{
  String, Bool, true, false, Option, none, some, ◌≡◌, ◌==◌, refl, arith, eq_iff, sym, ap, subst,
  ◌∙◌, ◌||◌, if◌then◌else◌, Option-cases, Bool-cases, inl, inr,
}
use k8s_mtp.Common.Int.{ℤ}
use k8s_mtp.Settings.{Config}
use k8s_mtp.Settings.Checks.{valid, or_default, with_defaults, with_format, validate_cfg}
use k8s_mtp.Settings.Usable.{IsUsable}
use k8s_mtp.Settings.Checked.{validate_cfg-IsUsable, validate_cfg-valid}
use k8s_mtp.Settings.EnvFile.{env_parse-Unset}
use k8s_mtp.Settings.Load.{
  System, env_parse, parsed_over, text_over, overridden, override_cfg, source_config, loaded, load,
}

some-injective : {A : Type 0} {a b : A} → some a ≡ some b → a ≡ b
some-injective {A} {a} e = ap (λ o. elim o as (λ x. A) [ none ↦ a | some c ↦ c ]) e

or_default_empty : (t : String) → or_default "" t ≡ t
or_default_empty t = elim (Bool-cases (t == "")) [
  | inl e ↦ rw e (sym ((eq_iff t "").0 e))
  | inr e ↦ rw e refl
]

module _ (sys : System) where
  -- What a configuration was made of.
  record IsLoaded (file : String) (c : Config) : Type 0 where
    source : Config
    overridden : Config
    read : source_config sys file ≡ some source
    over : override_cfg sys source ≡ some overridden
    checked : validate_cfg overridden ≡ valid c

  load-IsLoaded : (file : String) (c : Config) → load sys file ≡ loaded c → IsLoaded file c
  unfolding load
  load-IsLoaded file c e = elim (Option-cases (source_config sys file)) [
    | inl f ↦ absurd (ground (arith, e, f))
    | inr (s, f) ↦ elim (Option-cases (override_cfg sys s)) [
      | inl g ↦ absurd (ground (arith, e, f, g))
      | inr (o, g) ↦ record {
        source = s;
        overridden = o;
        read = f;
        over = g;
        checked = ground (arith, e, f, g);
      }
    ]
  ]

  -- A configuration over another: its texts are those of the environment, where it has them, or else those
  -- of the other, and so are the switch and the rate.
  record IsOver (s o : Config) : Type 0 where
    listen_addr : o.listen_addr ≡ text_over sys "K8S_MTP_LISTEN_ADDR" s.listen_addr
    db_url : o.db_url ≡ text_over sys "K8S_MTP_DB_URL" s.db_url
    log_level : o.log_level ≡ text_over sys "K8S_MTP_LOG_LEVEL" s.log_level
    log_format : o.log_format ≡ text_over sys "K8S_MTP_LOG_FORMAT" s.log_format
    egress :
        o.tenant_egress_policy ≡ text_over sys "K8S_MTP_TENANT_EGRESS_POLICY" s.tenant_egress_policy
    image : o.webhook_image ≡ text_over sys "K8S_MTP_WEBHOOK_IMAGE" s.webhook_image
    issuer : o.dex_issuer_url ≡ text_over sys "K8S_MTP_DEX_ISSUER_URL" s.dex_issuer_url
    client : o.dex_client_id ≡ text_over sys "K8S_MTP_DEX_CLIENT_ID" s.dex_client_id
    auth :
        parsed_over sys sys.parse_bool "K8S_MTP_AUTH_ENABLED" s.auth_enabled ≡ some o.auth_enabled

  override_cfg-IsOver : (s o : Config) → override_cfg sys s ≡ some o → IsOver s o
  unfolding override_cfg overridden
  override_cfg-IsOver s o e = elim (Option-cases opened) [
    | inl f ↦ absurd (ground (arith, e, f))
    | inr (a, f) ↦ elim (Option-cases idle) [
      | inl g ↦ absurd (ground (arith, e, f, g))
      | inr (b, g) ↦ elim (Option-cases auth) [
        | inl h ↦ absurd (ground (arith, e, f, g, h))
        | inr (c, h) ↦ elim (Option-cases rpm) [
          | inl k ↦ absurd (ground (arith, e, f, g, h, k))
          | inr (d, k) ↦ elim (Option-cases burst) [
            | inl l ↦ absurd (ground (arith, e, f, g, h, k, l))
            | inr (r, l) ↦
                subst (IsOver s) (some-injective (sym (rw (f, g, h, k, l, override_cfg) refl) ∙ e))
                  (made a b c d r h)
          ]
        ]
      ]
    ]
  ]
    where
      opened : Option ℤ
      opened = parsed_over sys sys.atoi "K8S_MTP_DB_OPEN_CONNS" s.db_max_open_conns

      idle : Option ℤ
      idle = parsed_over sys sys.atoi "K8S_MTP_DB_IDLE_CONNS" s.db_max_idle_conns

      auth : Option Bool
      auth = parsed_over sys sys.parse_bool "K8S_MTP_AUTH_ENABLED" s.auth_enabled

      rpm : Option ℤ
      rpm = parsed_over sys sys.atoi "K8S_MTP_RATE_REQUESTS_PER_MINUTE" s.rate_requests_per_minute

      burst : Option ℤ
      burst = parsed_over sys sys.atoi "K8S_MTP_RATE_BURST" s.rate_burst

      made : (a b : ℤ) (c : Bool) (d r : ℤ) → auth ≡ some c → IsOver s (overridden sys s a b c d r)
      made a b c d r h = record {
        listen_addr = refl;
        db_url = refl;
        log_level = refl;
        log_format = refl;
        egress = refl;
        image = refl;
        issuer = refl;
        client = refl;
        auth = h;
      }

  pub load-IsUsable : (file : String) (c : Config) → load sys file ≡ loaded c → IsUsable c
  load-IsUsable file c e =
      let l = load-IsLoaded file c e in (validate_cfg-IsUsable l.overridden c l.checked).0

  -- A source is a file that is there: a configuration is loaded only if the named file is there, or, where
  -- none is named, `config.json` or `.env` is, however the environment is set.
  pub load-exists :
      (file : String) (c : Config)
      → load sys file ≡ loaded c
      → (if file == "" then sys.exists "config.json" || sys.exists ".env" else sys.exists file)
        ≡ true
  unfolding source_config
  load-exists file c e = ground (arith, (load-IsLoaded file c e).read)

  -- Nine fields of a loaded configuration: its address, database, log level and format, egress policy,
  -- webhook image, issuer and client are the text of their variable where that is set, or else the text
  -- of the source, or else, for the format, the policy, the image and the client, the default; and its
  -- authentication is switched as the variable says, or else as the source does.
  pub load-source_config :
      (file : String) (c : Config)
      → load sys file ≡ loaded c
      → (s : Config) × (source_config sys file ≡ some s)
        × (c.listen_addr ≡ text_over sys "K8S_MTP_LISTEN_ADDR" s.listen_addr)
        × (c.db_url ≡ text_over sys "K8S_MTP_DB_URL" s.db_url)
        × (c.log_level ≡ text_over sys "K8S_MTP_LOG_LEVEL" s.log_level)
        × (c.log_format ≡ or_default "console" (text_over sys "K8S_MTP_LOG_FORMAT" s.log_format))
        × (c.tenant_egress_policy
            ≡ or_default "internal-only"
                (text_over sys "K8S_MTP_TENANT_EGRESS_POLICY" s.tenant_egress_policy))
        × (c.webhook_image
            ≡ or_default "k8s-mtp-webhook:latest"
                (text_over sys "K8S_MTP_WEBHOOK_IMAGE" s.webhook_image))
        × (c.dex_issuer_url ≡ text_over sys "K8S_MTP_DEX_ISSUER_URL" s.dex_issuer_url)
        × (c.dex_client_id
            ≡ or_default "k8s-mtp" (text_over sys "K8S_MTP_DEX_CLIENT_ID" s.dex_client_id))
        × (parsed_over sys sys.parse_bool "K8S_MTP_AUTH_ENABLED" s.auth_enabled
            ≡ some c.auth_enabled)
  unfolding with_defaults with_format
  load-source_config file c e =
      let l = load-IsLoaded file c e in
      let o = override_cfg-IsOver l.source l.overridden l.over in
      let v = validate_cfg-valid l.overridden c l.checked in
      (
        l.source,
        l.read,
        ap (λ x. x.listen_addr) v ∙ o.listen_addr,
        ap (λ x. x.db_url) v ∙ o.db_url,
        ap (λ x. x.log_level) v ∙ o.log_level,
        ap (λ x. x.log_format) v ∙ ap (or_default "console") o.log_format,
        ap (λ x. x.tenant_egress_policy) v ∙ ap (or_default "internal-only") o.egress,
        ap (λ x. x.webhook_image) v ∙ ap (or_default "k8s-mtp-webhook:latest") o.image,
        ap (λ x. x.dex_issuer_url) v ∙ o.issuer,
        ap (λ x. x.dex_client_id) v ∙ ap (or_default "k8s-mtp") o.client,
        o.auth ∙ ap (λ x. some x.auth_enabled) (sym v),
      )

  -- Where the configuration comes from `.env`, that file has no say in the log format and the webhook
  -- image, whatever its lines are: they are those of the environment, or the defaults.
  pub load-env_parse :
      (c : Config)
      → sys.exists "config.json" ≡ false
      → sys.exists ".env" ≡ true
      → load sys "" ≡ loaded c
      → (c.log_format ≡ or_default "console" (sys.getenv "K8S_MTP_LOG_FORMAT"))
        × (c.webhook_image
            ≡ or_default "k8s-mtp-webhook:latest" (sys.getenv "K8S_MTP_WEBHOOK_IMAGE"))
  unfolding source_config
  load-env_parse c missing there e =
      let (s, read, a, d, l, format, p, image, i, k, x) = load-source_config "" c e in
      let env : env_parse sys ≡ some s = ground (arith, read, missing, there) in
      let unset = env_parse-Unset sys s env in
      (
        format
            ∙ ap (λ t. or_default "console" (text_over sys "K8S_MTP_LOG_FORMAT" t)) unset.0
            ∙ ap (or_default "console") (or_default_empty (sys.getenv "K8S_MTP_LOG_FORMAT")),
        image
            ∙ ap
                (λ t. or_default "k8s-mtp-webhook:latest" (text_over sys "K8S_MTP_WEBHOOK_IMAGE" t))
                unset.1
            ∙ ap (or_default "k8s-mtp-webhook:latest")
                (or_default_empty (sys.getenv "K8S_MTP_WEBHOOK_IMAGE")),
      )
