-- ===== src/Settings/Checked.antt =====
-- internal/config/config.go: which configurations validateCfg lets through, and what they are then.
use k8s_mtp.Common.{
  text_cases, subst, String, Bool, true, false, not, ◌&&◌, ◌≡◌, ◌≢◌, ◌⊎◌, ◌↔◌, ◌==◌, ◌<>◌, refl,
  arith, sym, ap, ◌∙◌, inl, inr,
}
use k8s_mtp.Settings.{Config}
use k8s_mtp.Settings.Checks.{
  valid, invalid, or_default, is_level, with_defaults, with_format, check_format, validate_cfg,
}
use k8s_mtp.Settings.Usable.{
  IsLevel, IsUsable, IsComplete, or_default_kept, text_differs, with_defaults-IsUsable,
  with_defaults-kept,
}

-- What `validateCfg` makes of a configuration.
record IsPassed (cfg : Config) : Type 0 where
  passed : validate_cfg cfg ≡ valid (with_defaults (with_format cfg))
  usable : IsUsable (with_defaults (with_format cfg))
  complete : IsComplete cfg

record IsStopped (cfg : Config) : Type 0 where
  text : String
  stopped : validate_cfg cfg ≡ invalid text
  incomplete : ¬ (IsComplete cfg)

IsLevel-cases :
    (level : String)
    → ((is_level level ≡ true) × IsLevel level) ⊎ ((is_level level ≡ false) × ¬ (IsLevel level))
IsLevel-cases level = elim (text_cases level "debug") [
  | inl (e, p) ↦ inl (rw e refl, inl p)
  | inr (e, p) ↦ elim (text_cases level "info") [
    | inl (f, q) ↦ inl (rw (e, f) refl, inr (inl q))
    | inr (f, q) ↦ elim (text_cases level "warn") [
      | inl (g, r) ↦ inl (rw (e, f, g) refl, inr (inr (inl r)))
      | inr (g, r) ↦ elim (text_cases level "error") [
        | inl (h, t) ↦ inl (rw (e, f, g, h) refl, inr (inr (inr t)))
        | inr (h, t) ↦ inr (
          rw (e, f, g, h) refl,
          λ w. elim w [
            | inl x ↦ p x
            | inr y ↦ elim y [ inl x ↦ q x | inr z ↦ elim z [ inl x ↦ r x | inr u ↦ t u ] ]
          ],
        )
      ]
    ]
  ]
]

abbrev is_unknown : String → Bool
is_unknown format = not (format == "json") && not (format == "console")

abbrev IsFormat : String → Type 0
IsFormat format = (format ≡ "json") ⊎ (format ≡ "console")

IsFormat-cases :
    (format : String)
    → ((is_unknown format ≡ false) × IsFormat format)
      ⊎ ((is_unknown format ≡ true) × ¬ (IsFormat format))
IsFormat-cases format = elim (text_cases format "json") [
  | inl (e, p) ↦ inl (rw e refl, inl p)
  | inr (e, p) ↦ elim (text_cases format "console") [
    | inl (f, q) ↦ inl (rw (e, f) refl, inr q)
    | inr (f, q) ↦ inr (rw (e, f) refl, λ w. elim w [ inl x ↦ p x | inr x ↦ q x ])
  ]
]

-- A format that is known, as it stands or by default.
formatted_iff :
    (format : String) → IsFormat (or_default "console" format) ↔ ((format ≡ "") ⊎ IsFormat format)
formatted_iff format = elim (text_cases format "") [
  | inl (e, p) ↦ rw e ((λ h. inl p), (λ h. inr refl))
  | inr (e, p) ↦ rw e ((λ h. inr h), (λ h. elim h [ inl x ↦ absurd (p x) | inr x ↦ x ]))
]

validate_cases : (cfg : Config) → IsPassed cfg ⊎ IsStopped cfg
unfolding validate_cfg check_format with_format
validate_cases cfg = elim (text_cases cfg.listen_addr "") [
  | inl (e, p) ↦ inr (record {
    text = "ListenAddr is empty";
    stopped = rw (e, validate_cfg) refl;
    incomplete = λ c. c.listens p;
  })
  | inr (e, p) ↦ elim (text_cases cfg.db_url "") [
    | inl (f, q) ↦ inr (record {
      text = "database URL is empty";
      stopped = rw (e, f, validate_cfg) refl;
      incomplete = λ c. c.has_database q;
    })
    | inr (f, q) ↦ elim (IsFormat-cases (or_default "console" cfg.log_format)) [
      | inr (g, r) ↦ inr (record {
        text = "invalid log_format: " <> or_default "console" cfg.log_format;
        stopped = rw (e, f, validate_cfg) (rw (g, check_format) refl);
        incomplete = λ c. r ((formatted_iff cfg.log_format).1 c.format);
      })
      | inl (g, r) ↦ elim (IsLevel-cases cfg.log_level) [
        | inr (h, t) ↦ inr (record {
          text = "invalid log level: " <> cfg.log_level;
          stopped = rw (e, f, validate_cfg) (rw (g, h, check_format) refl);
          incomplete = λ c. t c.level;
        })
        | inl (h, t) ↦ inl (record {
          passed = rw (e, f, validate_cfg) (rw (g, h, check_format) refl);
          usable = with_defaults-IsUsable (with_format cfg) p q r t;
          complete = record {
            listens = p;
            has_database = q;
            format = (formatted_iff cfg.log_format).0 r;
            level = t;
          };
        })
      ]
    ]
  ]
]

-- A configuration is refused if and only if it has no address to listen on, no database, a log level that
-- is none of the four, or a log format that is neither empty nor one of the two.
validate_cfg-IsComplete :
    (cfg : Config) → ((c : Config) × (validate_cfg cfg ≡ valid c)) ↔ IsComplete cfg
validate_cfg-IsComplete cfg = elim (validate_cases cfg) [
  | inl p ↦ ((λ h. p.complete), (λ h. (with_defaults (with_format cfg), p.passed)))
  | inr s ↦ ((λ (c, e). absurd (differ (sym s.stopped ∙ e))), (λ h. absurd (s.incomplete h)))
]
  where
    differ : {text : String} {c : Config} → invalid text ≢ valid c
    differ e = absurd (ground (arith, e))

valid-injective : {c d : Config} → valid c ≡ valid d → c ≡ d
valid-injective {c} e = ap (λ x. elim x [ valid a ↦ a | invalid t ↦ c ]) e

usable_kept : (cfg : Config) → IsUsable cfg → validate_cfg cfg ≡ valid cfg
unfolding with_format
usable_kept cfg u = elim (validate_cases cfg) [
  | inl p ↦ p.passed ∙ ap valid (ap with_defaults format_kept ∙ with_defaults-kept cfg u)
  | inr s ↦ absurd (
      s.incomplete (record {
        listens = u.listens;
        has_database = u.has_database;
        format = inr u.format;
        level = u.level;
      }))
]
  where
    format_kept : with_format cfg ≡ cfg
    format_kept =
        rw
          (or_default_kept "console" cfg.log_format (λ p. elim u.format [
            | inl e ↦ text_differs "json" "" refl (sym e ∙ p)
            | inr e ↦ text_differs "console" "" refl (sym e ∙ p)
          ]))
          refl

-- What a configuration is when it was let through.
pub validate_cfg-valid :
    (cfg c : Config) → validate_cfg cfg ≡ valid c → c ≡ with_defaults (with_format cfg)
validate_cfg-valid cfg c e = elim (validate_cases cfg) [
  | inl p ↦ valid-injective (sym e ∙ p.passed)
  | inr s ↦ absurd (ground (arith, s.stopped, e))
]

-- A configuration that was let through has all that the program relies on: an address, a database, a known
-- log level and format, and no field of the limits, the webhook, the connections, the client or the rate
-- that is empty or zero. To check it again changes nothing.
pub validate_cfg-IsUsable :
    (cfg c : Config) → validate_cfg cfg ≡ valid c → IsUsable c × (validate_cfg c ≡ valid c)
validate_cfg-IsUsable cfg c e = (usable, usable_kept c usable)
  where
    usable : IsUsable c
    usable = elim (validate_cases cfg) [
      | inl p ↦ subst IsUsable (valid-injective (sym p.passed ∙ e)) p.usable
      | inr s ↦ absurd (ground (arith, s.stopped, e))
    ]
