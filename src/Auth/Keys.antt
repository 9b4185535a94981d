-- ===== src/Auth/Keys.antt =====
-- internal/middleware/auth.go: which keys the middleware keeps, and what their exponents are.
use k8s_mtp.Common.{
  ℕ, ◌+◌, ◌*◌, ◌≡◌, ◌∙◌, ap, sym, refl, arith, String, Option, none, some, List, [], ◌∷◌, ◌==◌,
  lookup, insert, lookup-insert, if◌then◌else◌, Option-cases, inl, inr,
}
use Prim.Native.Nat.{◌%◌, ◌^◌}
use k8s_mtp.Auth.{Jwt, Jwk, PublicKey, public_key, add_keys, big_endian, exponent_from}

big_endian-mod :
    (n : ℕ) (bytes : List ℕ) → big_endian (n % 2 ^ 64) bytes % 2 ^ 64 ≡ big_endian n bytes % 2 ^ 64
unfolding big_endian
big_endian-mod n [] = omega arith
big_endian-mod n (b ∷ bytes) =
    sym (big_endian-mod (n % 2 ^ 64 * 256 + b) bytes)
    ∙ (ap (λ m. big_endian m bytes % 2 ^ 64) (omega arith) ∙ big_endian-mod (n * 256 + b) bytes)

exponent_from_lem :
    (n : ℕ) (bytes : List ℕ) → exponent_from (n % 2 ^ 64) bytes ≡ big_endian n bytes % 2 ^ 64
unfolding exponent_from big_endian
exponent_from_lem n [] = refl
exponent_from_lem n (b ∷ bytes) =
    ap (λ m. exponent_from m bytes) (omega arith) ∙ exponent_from_lem (n * 256 + b) bytes

-- The exponent of a key is the number that its bytes write, most significant first, as far as 64 bits
-- go: a longer exponent wraps around.
exponent_from-big_endian : (bytes : List ℕ) → exponent_from 0 bytes ≡ big_endian 0 bytes % 2 ^ 64
exponent_from-big_endian bytes = exponent_from_lem 0 bytes

module _ (jwt : Jwt) where
  -- The last key with the id that can be read.
  abbrev pub last_key : String → List Jwk → Option PublicKey
  last_key kid [] = none
  last_key kid (j ∷ jwks) = elim (last_key kid jwks) [
    | some pk ↦ some pk
    | none ↦ if j.kid == kid then public_key jwt j else none
  ]

  abbrev or_else : Option PublicKey → Option PublicKey → Option PublicKey
  or_else none o = o
  or_else (some pk) o = some pk

  add_keys_lem :
      (kid : String) (keys : List (String × PublicKey)) (jwks : List Jwk)
      → lookup kid (add_keys jwt keys jwks) ≡ or_else (last_key kid jwks) (lookup kid keys)
  unfolding add_keys
  add_keys_lem kid keys [] = refl
  add_keys_lem kid keys (j ∷ jwks) = elim (Option-cases (public_key jwt j)) [
    | inl e ↦ rw (e, add_keys) (add_keys_lem kid keys jwks ∙ ground (arith, e))
    | inr (pk, e) ↦
        rw (e, add_keys)
          (add_keys_lem kid (insert j.kid pk keys) jwks
            ∙ ground (arith, e, lookup-insert j.kid kid pk keys))
  ]

  or_else-none : (o : Option PublicKey) → or_else o none ≡ o
  or_else-none none = refl
  or_else-none (some pk) = refl

  -- Under each id the middleware keeps the last of the provider's keys with this id that can be read.
  pub lookup-add_keys :
      (kid : String) (jwks : List Jwk) → lookup kid (add_keys jwt [] jwks) ≡ last_key kid jwks
  unfolding lookup
  lookup-add_keys kid jwks = add_keys_lem kid [] jwks ∙ or_else-none (last_key kid jwks)
