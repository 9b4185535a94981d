-- ===== src/Settings/EnvFile.antt =====
-- internal/config/config.go: what a `.env` has no say in.
use k8s_mtp.Common.{
  String, Option, none, some, List, [], ◌∷◌, ◌≡◌, ◌==◌, refl, arith, subst, ◌∙◌, behind, split_two,
  Option-cases, Bool-cases, inl, inr,
}
use k8s_mtp.Settings.{Config}
use k8s_mtp.Settings.Load.{System, zero_config, parsed, set_key, set_line, set_lines, env_parse}

-- The fields that `.env` cannot set.
abbrev pub SameUnset : Config → Config → Type 0
SameUnset c d =
    (d.log_format ≡ c.log_format)
    × (d.webhook_image ≡ c.webhook_image)
    × (d.limit_range_defaults ≡ c.limit_range_defaults)

abbrev Unset : Config → Option Config → Type 0
Unset c none = Unit {0}
Unset c (some d) = SameUnset c d

Unset-parsed :
    {A : Type 0} (c : Config) (o : Option A) (f : A → Config)
    → ((a : A) → SameUnset c (f a))
    → Unset c (parsed o f)
Unset-parsed c none f h = tt
Unset-parsed c (some a) f h = h a

module _ (sys : System) where
  set_key-Unset : (key value : String) (c : Config) → Unset c (set_key sys key value c)
  unfolding set_key
  set_key-Unset key value c = elim (Bool-cases (key == "K8S_MTP_LISTEN_ADDR")) [
    | inl e ↦ rw e (refl, refl, refl)
    | inr e ↦ rw e (elim (Bool-cases (key == "K8S_MTP_DB_URL")) [
      | inl e ↦ rw e (refl, refl, refl)
      | inr e ↦ rw e (elim (Bool-cases (key == "K8S_MTP_LOG_LEVEL")) [
        | inl e ↦ rw e (refl, refl, refl)
        | inr e ↦ rw e (elim (Bool-cases (key == "K8S_MTP_DB_OPEN_CONNS")) [
          | inl e ↦ rw e (Unset-parsed c _ _ (λ v. (refl, refl, refl)))
          | inr e ↦ rw e (elim (Bool-cases (key == "K8S_MTP_DB_IDLE_CONNS")) [
            | inl e ↦ rw e (Unset-parsed c _ _ (λ v. (refl, refl, refl)))
            | inr e ↦ rw e (elim (Bool-cases (key == "K8S_MTP_DB_CONN_MAX_LIFETIME")) [
              | inl e ↦ rw e (refl, refl, refl)
              | inr e ↦ rw e (elim (Bool-cases (key == "K8S_MTP_TENANT_EGRESS_POLICY")) [
                | inl e ↦ rw e (refl, refl, refl)
                | inr e ↦ rw e (elim (Bool-cases (key == "K8S_MTP_PLATFORM_ACCESS_LABEL")) [
                  | inl e ↦ rw e (refl, refl, refl)
                  | inr e ↦ rw e (elim (Bool-cases (key == "K8S_MTP_DEX_CLIENT_ID")) [
                    | inl e ↦ rw e (refl, refl, refl)
                    | inr e ↦ rw e (elim (Bool-cases (key == "K8S_MTP_DEX_ISSUER_URL")) [
                      | inl e ↦ rw e (refl, refl, refl)
                      | inr e ↦ rw e (elim (Bool-cases (key == "K8S_MTP_AUTH_ENABLED")) [
                        | inl e ↦ rw e (Unset-parsed c _ _ (λ v. (refl, refl, refl)))
                        | inr e ↦
                            rw e (elim (Bool-cases (key == "K8S_MTP_RATE_REQUESTS_PER_MINUTE")) [
                              | inl e ↦ rw e (Unset-parsed c _ _ (λ v. (refl, refl, refl)))
                              | inr e ↦ rw e (elim (Bool-cases (key == "K8S_MTP_RATE_BURST")) [
                                | inl e ↦ rw e (Unset-parsed c _ _ (λ v. (refl, refl, refl)))
                                | inr e ↦ rw e ((refl, refl, refl))
                              ])
                            ])
                      ])
                    ])
                  ])
                ])
              ])
            ])
          ])
        ])
      ])
    ])
  ]

  set_line-Unset : (line : String) (c : Config) → Unset c (set_line sys line c)
  unfolding set_line
  set_line-Unset line c = elim (Bool-cases (line == "")) [
    | inl e ↦ rw e (refl, refl, refl)
    | inr e ↦ rw e (elim (Option-cases (behind "#" line)) [
      | inr (comment, f) ↦ rw f (refl, refl, refl)
      | inl f ↦ rw f (elim (Option-cases (split_two b'=' line)) [
        | inl g ↦ rw g tt
        | inr ((key, value), g) ↦ rw g (set_key-Unset (sys.trim_space key) (sys.trim_space value) c)
      ])
    ])
  ]

  set_lines-Unset :
      (lines : List String) (c d : Config) → set_lines sys lines c ≡ some d → SameUnset c d
  unfolding set_lines
  set_lines-Unset [] c d e = subst (λ o. Unset c o) e (refl, refl, refl)
  set_lines-Unset (line ∷ lines) c d e = elim (Option-cases (set_line sys line c)) [
    | inl f ↦ absurd (ground (arith, e, f))
    | inr (b, f) ↦
        let first : SameUnset c b = subst (λ o. Unset c o) f (set_line-Unset line c) in
        let rest = set_lines-Unset lines b d (ground (arith, e, f)) in
        (rest.0 ∙ first.0, rest.1 ∙ first.1, rest.2 ∙ first.2)
  ]

  pub env_parse-Unset : (c : Config) → env_parse sys ≡ some c → SameUnset zero_config c
  unfolding env_parse
  env_parse-Unset c e = elim (Option-cases sys.env_lines) [
    | inl f ↦ absurd (ground (arith, e, f))
    | inr (lines, f) ↦ set_lines-Unset lines zero_config c (ground (arith, e, f))
  ]
