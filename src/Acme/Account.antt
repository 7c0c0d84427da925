-- ===== src/Acme/Account.antt =====
-- internal/broker/issuer/acme/acme.go: the account key on the disk, and `New`.
use certplane.Base.{
  ◌≡◌, refl, Option, none, some, Result, ok, err, ◌>>=◌, ◌>>◌, refuse, if◌then◌else◌,
}
use certplane.Base.Text.{Text, codes, is_empty}
use certplane.Base.Dict.{lookup}
use certplane.Pki.Csr.{PemBlock}
use certplane.Pki.Key.{AnyKey, EcdsaKey, KeyFormats, signer, pkcs8_type}
use certplane.Secrets.{Provider}
use certplane.Settings.{default_text}
use certplane.Agent.{Disk, AgentError, write_file_atomic}
use certplane.Acme.{
  AcmeIssuerConfig, Issuer, Lego, AcmeError, require_acme, new_client, no_directory, no_email,
  no_account_key, registering, reading_key, not_pem, unsupported_key, generating_key,
  marshaling_key, writing_key,
}

module _ (f : KeyFormats) where
  -- The second try: SEC 1.
  ec_key : Option Text → Result AcmeError AnyKey
  ec_key none = err unsupported_key
  ec_key (some public) = ok (signer public)

  parse_block : PemBlock → Result AcmeError AnyKey
  unfolding ec_key
  parse_block block = elim (f.parse_pkcs8 block.bytes) [
    | some key ↦ ok key
    | none ↦ ec_key (f.parse_ec block.bytes)
  ]

  -- `parseAccountKey`: the type of the block is not looked at.
  unfoldable pub parse_account_key : Text → Result AcmeError AnyKey
  unfolding parse_block
  parse_account_key text = do block ← require_acme not_pem (f.pem_decode text); parse_block block

  pub parse_account_key-pkcs8 :
      (text : Text) (block : PemBlock) (key : AnyKey)
      → f.pem_decode text ≡ some block
      → f.parse_pkcs8 block.bytes ≡ some key
      → parse_account_key text ≡ ok key
  unfolding parse_account_key parse_block
  parse_account_key-pkcs8 text block key d p = rw d (of_block block p)
    where
      of_block : (b : PemBlock) → f.parse_pkcs8 b.bytes ≡ some key → parse_block b ≡ ok key
      of_block b q = rw (q, parse_block) refl

  -- A new key with its PEM text.
  unfoldable pub new_account_key : Result AcmeError (EcdsaKey × Text)
  new_account_key = do
    key ← require_acme generating_key f.generate_p256
    der ← require_acme marshaling_key key.pkcs8
    ok (key, f.pem_encode (record { type = pkcs8_type; bytes = der }))

  key_written : EcdsaKey → Option AgentError × Disk → Result AcmeError AnyKey × Disk
  key_written key (some e, d) = (err writing_key, d)
  key_written key (none, d) = (ok (signer key.public), d)

  write_new_key : Text → Result AcmeError (EcdsaKey × Text) → Disk → Result AcmeError AnyKey × Disk
  unfolding key_written
  write_new_key path (err e) d = (err e, d)
  write_new_key path (ok (key, pem)) d = key_written key (write_file_atomic path pem d)

  -- `createAccountKey`
  unfoldable pub create_account_key : Text → Disk → Result AcmeError AnyKey × Disk
  unfolding write_new_key
  create_account_key path d = write_new_key path new_account_key d

  key_of_file : Text → Option Text → Disk → Result AcmeError AnyKey × Disk
  key_of_file path none d = create_account_key path d
  key_of_file path (some text) d = (parse_account_key text, d)

  -- `loadOrCreateAccountKey`
  unfoldable pub load_or_create_account_key : Text → Disk → Result AcmeError AnyKey × Disk
  unfolding key_of_file
  load_or_create_account_key path d =
      if d.broken path then (err reading_key, d) else key_of_file path (lookup path d.files) d

  with_account_key :
      Lego
      → AcmeIssuerConfig
      → Option Provider
      → Result AcmeError AnyKey × Disk
      → Result AcmeError Issuer × Disk
  with_account_key lego cfg secrets (err e, d) = (err e, d)
  with_account_key lego cfg secrets (ok key, d) =
      let i : Issuer = record {
        cfg = cfg;
        secrets = secrets;
        user = record { email = cfg.account_email; registration = none; key = key };
      } in
      (
        new_client lego i >>= λ client. require_acme registering (lego.register client) >>= λ reg.
            ok (record i { user = record i.user { registration = some reg } }),
        d,
      )

  checked : AcmeIssuerConfig → Result AcmeError AcmeIssuerConfig
  checked cfg = do
    refuse (is_empty cfg.directory_url) no_directory
    refuse (is_empty cfg.account_email) no_email
    refuse (is_empty cfg.account_key) no_account_key
    ok (record cfg { dns_provider = default_text cfg.dns_provider (codes "cloudflare") })

  new_checked :
      Lego
      → Result AcmeError AcmeIssuerConfig
      → Option Provider
      → Disk
      → Result AcmeError Issuer × Disk
  unfolding with_account_key
  new_checked lego (err e) secrets d = (err e, d)
  new_checked lego (ok cfg) secrets d =
      with_account_key lego cfg secrets (load_or_create_account_key cfg.account_key d)

  -- `New`
  unfoldable pub new_issuer :
      Lego → AcmeIssuerConfig → Option Provider → Disk → Result AcmeError Issuer × Disk
  unfolding new_checked checked
  new_issuer lego cfg secrets d = new_checked lego (checked cfg) secrets d
