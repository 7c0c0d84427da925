-- ===== src/Pki/Key.antt =====
-- internal/pki/key.go: private keys in PEM. What crypto/ecdsa, crypto/x509 and encoding/pem answer are
-- the fields of `KeyFormats`; of a private key its public part is kept.
use certplane.Base.{
  ◌≡◌, refl, ap, ◌∙◌, inl, inr, Option-cases, ok-injective, Option, none, some, Result, ok, err,
  ◌>>=◌, if◌then◌else◌,
}
use certplane.Base.Text.{Text, codes, text_eq}
use certplane.Base.Text.Laws.{text_eq_refl}
use certplane.Pki.Csr.{PemBlock}

-- A key as `x509.ParsePKCS8PrivateKey` gives it: a `crypto.Signer`, or of another type.
pub data AnyKey : Type 0 where
  signer : Text → AnyKey
  no_signer : AnyKey

-- A key of `ecdsa.GenerateKey`: its public part, and its encoding unless that fails.
pub record EcdsaKey : Type 0 where
  pub public : Text
  pub pkcs8 : Option Text

pub record KeyFormats : Type 0 where
  pub pem_decode : Text → Option PemBlock
  pub pem_encode : PemBlock → Text
  pub parse_pkcs8 : Text → Option AnyKey
  pub parse_ec : Text → Option Text
  pub generate_p256 : Option EcdsaKey

pub data KeyError : Type 0 where
  generating marshaling no_pem_block parsing not_a_signer : KeyError
  unexpected_type : Text → KeyError

abbrev require_key : {A : Type 0} → KeyError → Option A → Result KeyError A
require_key e none = err e
require_key e (some a) = ok a

abbrev pub pkcs8_type : Text
pkcs8_type = codes "PRIVATE KEY"

abbrev pub ec_type : Text
ec_type = codes "EC PRIVATE KEY"

as_signer : AnyKey → Result KeyError Text
as_signer (signer public) = ok public
as_signer no_signer = err not_a_signer

-- `MarshalPrivateKeyPEM`
unfoldable pub marshal_private_key_pem : KeyFormats → EcdsaKey → Result KeyError Text
marshal_private_key_pem f key = do
  der ← require_key marshaling key.pkcs8
  ok (f.pem_encode (record { type = pkcs8_type; bytes = der }))

-- `GenerateECDSAKey`
unfoldable pub generate_ecdsa_key : KeyFormats → Result KeyError EcdsaKey
generate_ecdsa_key f = require_key generating f.generate_p256

-- The switch over the type of the block.
parse_key_block : KeyFormats → PemBlock → Result KeyError AnyKey
parse_key_block f block =
    if text_eq block.type pkcs8_type
    then require_key parsing (f.parse_pkcs8 block.bytes)
    else if text_eq block.type ec_type
    then (require_key parsing (f.parse_ec block.bytes) >>= λ public. ok (signer public))
    else err (unexpected_type block.type)

-- `ParsePrivateKeyPEM`
unfoldable pub parse_private_key_pem : KeyFormats → Text → Result KeyError Text
unfolding parse_key_block as_signer
parse_private_key_pem f text = do
  block ← require_key no_pem_block (f.pem_decode text)
  key ← parse_key_block f block
  as_signer key

-- What the code relies on: PEM and PKCS #8 read what they have written, and the key is a signer.
pub record IsKeyFormats (f : KeyFormats) : Type 0 where
  pub decode_encode : (b : PemBlock) → f.pem_decode (f.pem_encode b) ≡ some b
  pub parse_generated :
      (k : EcdsaKey) (der : Text)
      → f.generate_p256 ≡ some k
      → k.pkcs8 ≡ some der
      → f.parse_pkcs8 der ≡ some (signer k.public)

-- A key that was generated and marshaled is parsed to a signer with its public part, if PEM and
-- PKCS #8 read what they have written.
pub parse-marshal_private_key_pem :
    (f : KeyFormats)
    → IsKeyFormats f
    → (k : EcdsaKey) (pem : Text) → generate_ecdsa_key f ≡ ok k
    → marshal_private_key_pem f k ≡ ok pem
    → parse_private_key_pem f pem ≡ ok k.public
unfolding parse_private_key_pem marshal_private_key_pem generate_ecdsa_key
parse-marshal_private_key_pem f l k pem g m = elim (Option-cases f.generate_p256) [
  | inl e ↦ absurd (cc (rw e at g))
  | inr (k', e) ↦ elim (Option-cases k.pkcs8) [
    | inl n ↦ absurd (cc (rw n at m))
    | inr (der, n) ↦
        let block : PemBlock = record { type = pkcs8_type; bytes = der } in
        let same : f.pem_encode block ≡ pem = ok-injective (rw n at m) in
        let made : f.generate_p256 ≡ some k = e ∙ ap some (ok-injective (rw e at g)) in
        let read = l.parse_generated k der made n in
        rw (← same, l.decode_encode block, text_eq_refl pkcs8_type, read) refl
  ]
]
