-- ===== src/Tls.antt =====
-- pkg/webhook/tls.go: the certificates of the webhook. Times are in nanoseconds.
pub mod Trusted
use k8s_mtp.Common.{ℕ, ◌+◌, ◌*◌, String, Bool, true, false, Option, none, some, List, [], ◌∷◌}

-- A value, or the text of an error.
pub data Result (A : Type 0) : Type 0 where
  ok : A → Result A
  err : String → Result A

pub data KeyUsage : Type 0 where
  cert_sign crl_sign key_encipherment digital_signature : KeyUsage

pub data ExtKeyUsage : Type 0 where
  server_auth : ExtKeyUsage

-- The fields of `x509.Certificate` that the templates set.
pub record Template : Type 0 where
  pub serial_number : ℕ
  pub organization : List String
  pub common_name : String
  pub dns_names : List String
  pub not_before : ℕ
  pub not_after : ℕ
  pub key_usage : List KeyUsage
  pub ext_key_usage : List ExtKeyUsage
  pub basic_constraints_valid : Bool
  pub is_ca : Bool

-- crypto/ecdsa, crypto/x509, encoding/pem and the clock, as a parameter. `World` has the clock and the random
-- numbers; `of_template` takes a template for a certificate, as a parent of its own; `pem_decode` gives
-- the bytes of the first block, and `none` is the nil block.
pub record Crypto : Type 1 where
  pub World : Type 0
  pub Bytes : Type 0
  pub PrivateKey : Type 0
  pub PublicKey : Type 0
  pub Certificate : Type 0
  pub generate_key : World → Result PrivateKey × World
  pub public_key : PrivateKey → PublicKey
  pub now : World → ℕ × World
  pub of_template : Template → Certificate
  pub create_certificate :
      Template → Certificate → PublicKey → PrivateKey → World → Result Bytes × World
  pub parse_certificate : Bytes → Result Certificate
  pub marshal_ec_private_key : PrivateKey → Result Bytes
  pub parse_ec_private_key : Bytes → Result PrivateKey
  pub pem_encode : String → Bytes → Bytes
  pub pem_decode : Bytes → Option Bytes

unfoldable pub webhook_dns_names : List String
webhook_dns_names =
    "webhook" ∷ "webhook.k8s-mtp" ∷ "webhook.k8s-mtp.svc" ∷ "webhook.k8s-mtp.svc.cluster.local"
    ∷ "webhook-svc.k8s-mtp.svc" ∷ "webhook-svc.k8s-mtp.svc.cluster.local" ∷ []

-- `10 * 365 * 24 * time.Hour`.
abbrev pub ten_years : ℕ
ten_years = 10 * 365 * 24 * 3600000000000

unfoldable pub ca_template : ℕ → ℕ → Template
ca_template not_before now = record {
  serial_number = 1;
  organization = "k8s-mtp" ∷ [];
  common_name = "k8s-mtp-webhook-ca";
  dns_names = [];
  not_before = not_before;
  not_after = now + ten_years;
  key_usage = cert_sign ∷ crl_sign ∷ [];
  ext_key_usage = [];
  basic_constraints_valid = true;
  is_ca = true;
}

unfoldable pub server_template : ℕ → ℕ → Template
unfolding webhook_dns_names
server_template not_before now = record {
  serial_number = 2;
  organization = "k8s-mtp" ∷ [];
  common_name = "webhook.k8s-mtp.svc";
  dns_names = webhook_dns_names;
  not_before = not_before;
  not_after = now + ten_years;
  key_usage = key_encipherment ∷ digital_signature ∷ [];
  ext_key_usage = server_auth ∷ [];
  basic_constraints_valid = false;
  is_ca = false;
}

module _ (lib : Crypto) where
  open lib use {World, Bytes, PrivateKey, Certificate}

  -- What both functions return: the certificate and its key, or an error.
  abbrev pub Pair : Type 0
  Pair = Result (Bytes × Bytes) × World

  -- The end of both functions.
  unfoldable pub encoded : PrivateKey → Result Bytes × World → Pair
  encoded key (err e, w) = (err e, w)
  encoded key (ok der, w) = elim (lib.marshal_ec_private_key key) [
    | err e ↦ (err e, w)
    | ok bytes ↦ (ok (lib.pem_encode "CERTIFICATE" der, lib.pem_encode "EC PRIVATE KEY" bytes), w)
  ]

  unfoldable pub signed_ca : PrivateKey → World → Pair
  unfolding ca_template encoded
  signed_ca key w =
      let (not_before, w1) = lib.now w in
      let (now, w2) = lib.now w1 in
      let template = ca_template not_before now in
      encoded key
        (lib.create_certificate template (lib.of_template template) (lib.public_key key) key w2)

  unfoldable pub with_key : (PrivateKey → World → Pair) → Result PrivateKey × World → Pair
  with_key rest (err e, w) = (err e, w)
  with_key rest (ok key, w) = rest key w

  unfoldable pub generate_ca : World → Pair
  unfolding signed_ca with_key
  generate_ca w = with_key signed_ca (lib.generate_key w)

  unfoldable pub signed_server : Certificate → PrivateKey → PrivateKey → World → Pair
  unfolding server_template encoded
  signed_server ca_cert ca_key key w =
      let (not_before, w1) = lib.now w in
      let (now, w2) = lib.now w1 in
      encoded key (
        lib.create_certificate (server_template not_before now) ca_cert (lib.public_key key) ca_key
          w2)

  unfoldable pub decoded_cert : Bytes → Result Certificate
  decoded_cert pem = elim (lib.pem_decode pem) [
    | none ↦ err "failed to decode CA cert PEM"
    | some bytes ↦ lib.parse_certificate bytes
  ]

  unfoldable pub decoded_key : Bytes → Result PrivateKey
  decoded_key pem = elim (lib.pem_decode pem) [
    | none ↦ err "failed to decode CA key PEM"
    | some bytes ↦ lib.parse_ec_private_key bytes
  ]

  unfoldable pub generate_server_cert : Bytes → Bytes → World → Pair
  unfolding signed_server with_key decoded_cert decoded_key
  generate_server_cert ca_cert_pem ca_key_pem w = elim (decoded_cert ca_cert_pem) [
    | err e ↦ (err e, w)
    | ok ca_cert ↦ elim (decoded_key ca_key_pem) [
      | err e ↦ (err e, w)
      | ok ca_key ↦ with_key (signed_server ca_cert ca_key) (lib.generate_key w)
    ]
  ]
