-- ===== src/Auth/Accepted.antt =====
-- internal/middleware/auth.go: which requests the middleware lets through.
use k8s_mtp.Common.{
  String, true, Option, some, List, ◌≡◌, ◌≢◌, ◌∙◌, ap, sym, arith, strip, [], lookup, ◌<>◌,
  Option-cases, inl, inr,
}
use k8s_mtp.Settings.{Config}
use k8s_mtp.Auth.{
  Jwt, Jwk, KeyReply, PublicKey, AuthMiddleware, accepted, add_keys, new_auth_middleware, auth,
}
use k8s_mtp.Auth.Keys.{last_key, lookup-add_keys}

-- What the documentation of jwt says of `Parse`: it returns the claims of a token only if the token is
-- signed under the key that the function gave for its `kid`, and the claims name the issuer and the
-- audience that the options ask for, where these are not empty.
pub record IsVerifying (jwt : Jwt) : Type 1 where
  pub IsSigned : PublicKey → String → jwt.Claims → Type 0
  pub issuer : jwt.Claims → String
  pub IsFor : String → jwt.Claims → Type 0
  pub parsed :
      (keys : String → Option PublicKey) (token iss aud : String) (claims : jwt.Claims)
      → jwt.parse keys token iss aud ≡ some claims
      → (kid : String) × (key : PublicKey) × (keys kid ≡ some key)
        × IsSigned key token claims
        × (iss ≢ "" → issuer claims ≡ iss)
        × (aud ≢ "" → IsFor aud claims)

module _ (jwt : Jwt) (v : IsVerifying jwt) where
  -- The request carries a token of the user, for this client, from the issuer, and signed under one of
  -- the keys.
  pub record IsVerified (cfg : Config) (jwks : List Jwk) (token user : String) : Type 0 where
    pub claims : jwt.Claims
    pub kid : String
    pub key : PublicKey
    pub published : last_key jwt kid jwks ≡ some key
    pub signed : v.IsSigned key token claims
    pub from_issuer : cfg.dex_issuer_url ≢ "" → v.issuer claims ≡ cfg.dex_issuer_url
    pub for_client : cfg.dex_client_id ≢ "" → v.IsFor cfg.dex_client_id claims
    pub of_user : user ≡ jwt.subject claims

  -- The middleware that was made of the keys.
  abbrev pub made_of : Config → List Jwk → AuthMiddleware
  made_of cfg jwks = record {
    issuer_url = cfg.dex_issuer_url;
    client_id = cfg.dex_client_id;
    enabled = cfg.auth_enabled;
    key_set = add_keys jwt [] jwks;
  }

  made :
      (get : String → Option KeyReply) (cfg : Config) (a : AuthMiddleware)
      → new_auth_middleware jwt get cfg ≡ some a
      → (jwks : List Jwk) × (get (cfg.dex_issuer_url <> "/.well-known/jwks.json")
          ≡ some (record { status = 200; keys = some jwks }))
        × (a ≡ made_of cfg jwks)
  unfolding new_auth_middleware
  made get cfg a e = elim (Option-cases (get (cfg.dex_issuer_url <> "/.well-known/jwks.json"))) [
    | inl h ↦ absurd (ground arith)
    | inr (reply, h) ↦ elim (Option-cases reply.keys) [
      | inl f ↦ absurd (ground arith)
      | inr (jwks, f) ↦ (jwks, ground arith, ground arith)
    ]
  ]

  accepted-IsVerified :
      (cfg : Config) (jwks : List Jwk) (header user : String)
      → cfg.auth_enabled ≡ true
      → auth jwt (made_of cfg jwks) header ≡ accepted user
      → IsVerified cfg jwks (strip "Bearer " header) user
  unfolding auth
  accepted-IsVerified cfg jwks header user on e =
      elim (Option-cases (
        jwt.parse (λ kid. lookup kid (add_keys jwt [] jwks)) (strip "Bearer " header)
          cfg.dex_issuer_url cfg.dex_client_id)) [
            | inl h ↦ absurd (ground (arith, e, h, on))
            | inr (claims, h) ↦
                let (kid, key, found, signed, issued, meant) = v.parsed _ _ _ _ claims h in
                record {
                  claims = claims;
                  kid = kid;
                  key = key;
                  published = sym (lookup-add_keys jwt kid jwks) ∙ found;
                  signed = signed;
                  from_issuer = issued;
                  for_client = meant;
                  of_user = ground (arith, e, h, on);
                }
          ]

  -- With authentication on, a request is handed on only with a token, behind "Bearer " or alone in its
  -- header, that is signed under a key that the identity provider published when the middleware was
  -- made, the last one with its id, and that names the configured issuer and client, where these are
  -- not empty; the user in its context is the token's subject.
  pub auth-IsVerified :
      (get : String → Option KeyReply) (cfg : Config) (a : AuthMiddleware) (header user : String)
      → new_auth_middleware jwt get cfg ≡ some a
      → cfg.auth_enabled ≡ true
      → auth jwt a header ≡ accepted user
      → (jwks : List Jwk) × (get (cfg.dex_issuer_url <> "/.well-known/jwks.json")
          ≡ some (record { status = 200; keys = some jwks }))
        × IsVerified cfg jwks (strip "Bearer " header) user
  auth-IsVerified get cfg a header user e on h =
      let (jwks, got, same) = made get cfg a e in
      (
        jwks,
        got,
        accepted-IsVerified cfg jwks header user on (ap (λ x. auth jwt x header) (sym same) ∙ h),
      )
