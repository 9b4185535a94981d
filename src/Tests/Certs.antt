-- ===== src/Tests/Certs.antt =====
-- pkg/webhook/tls.go with concrete certificates.
use k8s_mtp.Common.{ℕ, suc, String, Option, none, some}
use k8s_mtp.Tls.{Result, ok, err, Template, Crypto, ca_template, server_template}
use k8s_mtp.Tls.Trusted.{to_seconds}

-- A certificate with its public key and the key that it is signed under.
record Cert : Type 0 where
  template : Template
  public : ℕ
  signer : ℕ

data Blob : Type 0 where
  cert_bytes : Cert → Blob
  key_bytes : ℕ → Blob
  block : String → Blob → Blob

abbrev parse_cert : Blob → Result Cert
parse_cert (cert_bytes c) = ok c
parse_cert (key_bytes n) = err "certificate"
parse_cert (block kind b) = err "certificate"

abbrev parse_key : Blob → Result ℕ
parse_key (cert_bytes c) = err "key"
parse_key (key_bytes n) = ok n
parse_key (block kind b) = err "key"

abbrev decode : Blob → Option Blob
decode (cert_bytes c) = none
decode (key_bytes n) = none
decode (block kind b) = some b

-- The world counts the calls, which give the keys and the time.
abbrev crypto : Crypto
crypto = record {
  World = ℕ;
  Bytes = Blob;
  PrivateKey = ℕ;
  PublicKey = ℕ;
  Certificate = Cert;
  generate_key = λ n. (ok n, suc n);
  public_key = λ k. k;
  now = λ n. (n, suc n);
  of_template = λ t. record { template = t; public = 0; signer = 0 };
  create_certificate = λ t parent pub_key key n.
      (ok (cert_bytes (record { template = to_seconds t; public = pub_key; signer = key })), n);
  parse_certificate = parse_cert;
  marshal_ec_private_key = λ k. ok (key_bytes k);
  parse_ec_private_key = parse_key;
  pem_encode = block;
  pem_decode = decode;
}

abbrev ca : Blob × Blob
ca = (
  block "CERTIFICATE"
      (cert_bytes (record { template = to_seconds (ca_template 1 2); public = 0; signer = 0 })),
  block "EC PRIVATE KEY" (key_bytes 0),
)

abbrev server : Blob × Blob
server = (
  block "CERTIFICATE"
      (cert_bytes (record { template = to_seconds (server_template 4 5); public = 3; signer = 0 })),
  block "EC PRIVATE KEY" (key_bytes 3),
)
