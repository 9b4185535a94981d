-- ===== src/Tests/Tokens.antt =====
-- internal/middleware/auth.go with a concrete parser of tokens.
use k8s_mtp.Common.{
  String, true, ◌&&◌, Option, none, some, [], ◌∷◌, ◌≡◌, refl, arith, ◌==◌, eq_iff, lookup,
  if◌then◌else◌, Option-cases, Bool-cases, inl, inr, strip, behind, insert,
}
use k8s_mtp.Settings.{Config}
use k8s_mtp.Auth.{
  Jwt, Jwk, PublicKey, KeyReply, AuthMiddleware, big_endian, exponent_from, public_key, add_keys,
  new_auth_middleware, auth,
}
use k8s_mtp.Auth.Accepted.{IsVerifying}
use k8s_mtp.Tests.Reconciles.{config}

-- The token "t" is ann's, for the client "app" of the issuer "dex", and is signed under the key "k".
abbrev parse : (String → Option PublicKey) → String → String → String → Option String
parse keys token iss aud = elim (keys "k") [
  | none ↦ none
  | some key ↦ if token == "t" && (iss == "dex" && aud == "app") then some "ann" else none
]

abbrev pub jwt : Jwt
jwt = record {
  Claims = String;
  parse = parse;
  subject = λ c. c;
  decode_base64 = λ s. if s == "AQAB" then some (1 ∷ 0 ∷ 1 ∷ []) else none;
}

pub jwt-IsVerifying : IsVerifying jwt
jwt-IsVerifying = record {
  IsSigned = λ key token claims. (token ≡ "t") × (claims ≡ "ann");
  issuer = λ claims. "dex";
  IsFor = λ aud claims. aud ≡ "app";
  parsed = λ keys token iss aud claims h. elim (Option-cases (keys "k")) [
    | inl e ↦ absurd (ground (arith, e, h))
    | inr (key, e) ↦ elim (Bool-cases (token == "t" && (iss == "dex" && aud == "app"))) [
      | inl g ↦ (
        "k",
        key,
        e,
        (ground (arith, g, eq_iff token "t"), ground (arith, e, g, h)),
        (λ n. ground (arith, g, eq_iff iss "dex")),
        (λ n. ground (arith, g, eq_iff aud "app")),
      )
      | inr g ↦ absurd (ground (arith, e, g, h))
    ]
  ];
}

abbrev key : Jwk
key = record { kty = "RSA"; kid = "k"; n = "AQAB"; e = "AQAB" }

abbrev pub guarded : Config
guarded = record config { dex_issuer_url = "dex"; dex_client_id = "app"; auth_enabled = true }

abbrev pub keys : String → Option KeyReply
keys url = some (record { status = 200; keys = some (key ∷ []) })

-- The middleware that is made.
abbrev pub middleware : AuthMiddleware
middleware = record {
  issuer_url = "dex";
  client_id = "app";
  enabled = true;
  key_set = add_keys jwt [] (key ∷ []);
}

pub middleware_made : new_auth_middleware jwt keys guarded ≡ some middleware
unfolding new_auth_middleware
middleware_made = refl

ann_accepted : auth jwt middleware "Bearer t" ≡ k8s_mtp.Auth.accepted "ann"
unfolding auth add_keys public_key insert strip behind lookup
ann_accepted = refl
