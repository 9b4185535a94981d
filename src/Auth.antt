-- ===== src/Auth.antt =====
-- internal/middleware/auth.go: the keys of the identity provider, and who a request comes from.
pub mod Keys
pub mod Accepted
use k8s_mtp.Common.{
  ℕ, ◌+◌, ◌*◌, String, Bool, true, false, not, Option, none, some, List, [], ◌∷◌, ◌==◌, ◌<>◌,
  nat_eq, if◌then◌else◌, lookup, insert, strip,
}
use Prim.Native.Nat.{◌%◌, ◌^◌}
use k8s_mtp.Settings.{Config}

-- `rsa.PublicKey`. The exponent is a Go `int`, as the bit pattern of its 64 bits.
pub record PublicKey : Type 0 where
  pub modulus : ℕ
  pub exponent : ℕ

pub record Jwk : Type 0 where
  pub kty : String
  pub kid : String
  pub n : String
  pub e : String

-- github.com/golang-jwt/jwt and encoding/base64, as a parameter. `parse` is `jwt.Parse` with the options
-- `WithIssuer` and `WithAudience`: it is given the function that finds the key of a token by its `kid`,
-- the token, the issuer and the audience, and `none` is an error. `subject` is `GetSubject`, "" where it
-- fails; `decode_base64` gives the bytes of a text in raw URL encoding.
pub record Jwt : Type 1 where
  pub Claims : Type 0
  pub parse : (String → Option PublicKey) → String → String → String → Option Claims
  pub subject : Claims → String
  pub decode_base64 : String → Option (List ℕ)

-- `big.Int.SetBytes`.
unfoldable pub big_endian : ℕ → List ℕ → ℕ
big_endian n [] = n
big_endian n (b ∷ bytes) = big_endian (n * 256 + b) bytes

-- The loop over the bytes of the exponent, where `ei << 8` wraps around.
unfoldable pub exponent_from : ℕ → List ℕ → ℕ
exponent_from ei [] = ei
exponent_from ei (b ∷ bytes) = exponent_from ((ei * 256 + b) % 2 ^ 64) bytes

-- What `http.Get` of the provider's keys brings: its status, and the keys if its body can be decoded.
pub record KeyReply : Type 0 where
  pub status : ℕ
  pub keys : Option (List Jwk)

pub record AuthMiddleware : Type 0 where
  pub issuer_url : String
  pub client_id : String
  pub enabled : Bool
  pub key_set : List (String × PublicKey)

-- What becomes of a request: it is handed on with a user in its context, or answered with 401.
pub data Verdict : Type 0 where
  accepted : String → Verdict
  unauthorized : Verdict

module _ (jwt : Jwt) where
  open jwt use {decode_base64, parse, subject}

  unfoldable pub public_key : Jwk → Option PublicKey
  public_key j = elim (decode_base64 j.n) [
    | none ↦ none
    | some n ↦ elim (decode_base64 j.e) [
      | none ↦ none
      | some e ↦ some (record { modulus = big_endian 0 n; exponent = exponent_from 0 e })
    ]
  ]

  -- The loop of `NewAuthMiddleware`: a key that cannot be read is left out.
  unfoldable pub add_keys : List (String × PublicKey) → List Jwk → List (String × PublicKey)
  add_keys keys [] = keys
  add_keys keys (j ∷ jwks) =
      add_keys (elim (public_key j) [ none ↦ keys | some pk ↦ insert j.kid pk keys ]) jwks

  -- `none` is the nil middleware. The first argument is the answer to the request for the keys.
  unfoldable pub new_auth_middleware : (String → Option KeyReply) → Config → Option AuthMiddleware
  new_auth_middleware get cfg = elim (get (cfg.dex_issuer_url <> "/.well-known/jwks.json")) [
    | none ↦ none
    | some reply ↦ if not (nat_eq reply.status 200) then none else elim reply.keys [
      | none ↦ none
      | some jwks ↦ some (record {
        issuer_url = cfg.dex_issuer_url;
        client_id = cfg.dex_client_id;
        enabled = cfg.auth_enabled;
        key_set = add_keys [] jwks;
      })
    ]
  ]

  -- The argument is the header `Authorization`, "" where there is none.
  unfoldable pub auth : AuthMiddleware → String → Verdict
  auth a header =
      if not a.enabled
      then accepted "anonymous"
      else elim (parse (λ kid. lookup kid a.key_set) (strip "Bearer " header) a.issuer_url
          a.client_id) [ none ↦ unauthorized | some claims ↦ accepted (subject claims) ]
