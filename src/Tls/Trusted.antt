-- ===== src/Tls/Trusted.antt =====
-- pkg/webhook/tls.go: the two certificates, one made after the other.
use k8s_mtp.Common.{◌<>◌, ℕ, ◌*◌, String, some, ◌≡◌}
use Prim.Native.Nat.{◌/◌}
use k8s_mtp.Webhooks.{WebhookConfiguration}
use k8s_mtp.Tls.{ok, Template, Crypto, decoded_cert, decoded_key}

-- The name by which the API server calls the service of a webhook.
abbrev pub service_host : WebhookConfiguration → String
service_host x = x.service_name <> ("." <> (x.service_namespace <> ".svc"))

abbrev second : ℕ
second = 1000000000

-- A time as a certificate keeps it, in whole seconds.
abbrev whole_seconds : ℕ → ℕ
whole_seconds t = t / second * second

-- The fields of a template as a certificate keeps them.
abbrev pub to_seconds : Template → Template
to_seconds t = record t {
  not_before = whole_seconds t.not_before;
  not_after = whole_seconds t.not_after;
}

-- What the documentation says: a block that was encoded is decoded; a key that was marshalled is parsed; and
-- a certificate that was created can be parsed, has the fields of its template, the times in whole
-- seconds, and the public key that it was given, and is signed with the parent's key.
pub record IsCrypto (lib : Crypto) : Type 1 where
  pub content : lib.Certificate → Template
  pub key_of : lib.Certificate → lib.PublicKey
  pub IsSigned : lib.Certificate → lib.PublicKey → Type 0
  pub decode_encode :
      (kind : String) (bytes : lib.Bytes) → lib.pem_decode (lib.pem_encode kind bytes) ≡ some bytes
  pub parse_marshal :
      (key : lib.PrivateKey) (bytes : lib.Bytes)
      → lib.marshal_ec_private_key key ≡ ok bytes
      → lib.parse_ec_private_key bytes ≡ ok key
  pub created :
      (t : Template) (parent : lib.Certificate) (pub_key : lib.PublicKey) (key : lib.PrivateKey)
      (w : lib.World) (der : lib.Bytes)
      → (lib.create_certificate t parent pub_key key w).0 ≡ ok der
      → (cert : lib.Certificate) × (lib.parse_certificate der ≡ ok cert)
        × (content cert ≡ to_seconds t)
        × (key_of cert ≡ pub_key)
        × IsSigned cert (lib.public_key key)

module _ (lib : Crypto) (v : IsCrypto lib) where
  -- A certificate and its key as texts: both can be decoded, they belong together, and the certificate has the
  -- given fields and is signed under a key.
  pub record IsPair (pair : lib.Bytes × lib.Bytes) (t : Template) (key : lib.PrivateKey)
      (signer : lib.PublicKey) : Type 0 where
    pub cert : lib.Certificate
    pub cert_decoded : decoded_cert lib pair.0 ≡ ok cert
    pub key_decoded : decoded_key lib pair.1 ≡ ok key
    pub fields : v.content cert ≡ to_seconds t
    pub belongs : v.key_of cert ≡ lib.public_key key
    pub signature : v.IsSigned cert signer
