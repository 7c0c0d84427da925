-- ===== src/Agent/Stale.antt =====
-- What a run that fails between two files of a bundle leaves for the runs after it.
use certplane.Base.{true, false, ◌≡◌, refl, ◌∙◌, none, some, ok}
use certplane.Base.Text.{Text, text_eq}
use certplane.Base.Dict.{insert, lookup-insert, lookup-insert_self}
use certplane.Clock.{Time}
use certplane.Pki.{Bundle, Certificate}
use certplane.Pki.Cert.{parse_certificate_pem, certificate_matches_private_key, expires_within}
use certplane.Settings.Agent.{CertConfig}
use certplane.Agent.{
  WriteOutcome, written, before_rename, Disk, write_failed, file_exists, read_file, outcome_of,
  write_file_atomic, and_write, write_to_disk, PrivateKey, Outside, parsed_key, read_key, found_key,
  ensure_ecdsa_private_key, keep_existing, check_existing, obtain_bundle, reloaded, install,
  with_existing, with_key, ensure_service_certificate,
}
use certplane.Agent.Install.{at, IsVerified}

exists :
    (path : Text) (d : Disk) (text : Text)
    → d.broken path ≡ false
    → at path d ≡ some text
    → file_exists path d ≡ ok true
unfolding file_exists
exists path d text b h = rw b (rw h refl)

reads :
    (path : Text) (d : Disk) (text : Text)
    → d.broken path ≡ false
    → at path d ≡ some text
    → read_file path d ≡ ok text
unfolding read_file
reads path d text b h = rw b (rw h refl)

module _ (o : Outside) (c : CertConfig) (key : PrivateKey) where
  -- The key is on the disk, and the paths of the key and of the certificate can be read.
  pub record HasKey (d : Disk) : Type 0 where
    pub key_readable : d.broken c.key ≡ false
    pub cert_readable : d.broken c.cert ≡ false
    pub key_there : at c.key d ≡ some key.pem
    pub key_parses : o.parse_key key.pem ≡ some key.public

  key_found : (d : Disk) → HasKey d → ensure_ecdsa_private_key o c.key d ≡ (ok key, d)
  unfolding ensure_ecdsa_private_key found_key read_key parsed_key
  key_found d h =
      rw (exists c.key d key.pem h.key_readable h.key_there)
        (rw (reads c.key d key.pem h.key_readable h.key_there) (rw h.key_parses refl))

  -- A certificate that has the key and is not due is kept, and nothing else is looked at.
  kept :
      (now : Time) (d : Disk) (pem : Text) (cert : Certificate)
      → HasKey d
      → at c.cert d ≡ some pem
      → parse_certificate_pem o.x509 pem ≡ ok cert
      → certificate_matches_private_key o.x509 cert key.public ≡ ok tt
      → expires_within now cert c.renew_before ≡ false
      → check_existing o now c key d ≡ ok true
  unfolding check_existing keep_existing
  kept now d pem cert h there parses matches fresh =
      rw (exists c.cert d pem h.cert_readable there)
        (rw (reads c.cert d pem h.cert_readable there) (rw parses (rw matches (rw fresh refl))))

  skipped :
      (now : Time) (d : Disk)
      → HasKey d
      → check_existing o now c key d ≡ ok true
      → ensure_service_certificate o now c d ≡ (none, d)
  unfolding ensure_service_certificate with_key with_existing
  skipped now d h keep = rw (key_found d h) (rw keep refl)

  -- The disk behind a first run that could write only the certificate.
  abbrev pub half_written : Bundle → Disk → Disk
  half_written b d = record d { files = insert c.cert b.cert_pem d.files }

  half_run :
      (now : Time) (d : Disk) (b : Bundle)
      → HasKey d
      → check_existing o now c key d ≡ ok false
      → obtain_bundle o c key ≡ ok b
      → d.writes c.cert ≡ written
      → d.writes c.chain ≡ before_rename
      → ensure_service_certificate o now c d ≡ (some write_failed, half_written b d)
  unfolding ensure_service_certificate with_key with_existing install write_to_disk and_write
      write_file_atomic outcome_of reloaded
  half_run now d b h due got first second =
      rw (key_found d h) (rw due (rw got (rw first (rw second refl))))

  half-HasKey :
      (d : Disk) (b : Bundle) (w : Text → WriteOutcome)
      → text_eq c.cert c.key ≡ false
      → HasKey d
      → HasKey (record (half_written b d) { writes = w })
  half-HasKey d b w apart h = record {
    key_readable = h.key_readable;
    cert_readable = h.cert_readable;
    key_there = lookup-insert c.cert c.key b.cert_pem d.files ∙ (rw apart h.key_there);
    key_parses = h.key_parses;
  }

  -- When a run has written the new certificate and cannot write its chain, it fails, and the chain
  -- stays that of the old certificate. A later run finds the certificate in order and changes
  -- nothing, however the disk takes writes by then, as long as the certificate is not due.
  pub ensure_service_certificate-stale :
      (now later : Time) (d : Disk) (b : Bundle) (w : Text → WriteOutcome)
      → HasKey d
      → text_eq c.cert c.key ≡ false
      → text_eq c.cert c.chain ≡ false
      → check_existing o now c key d ≡ ok false
      → obtain_bundle o c key ≡ ok b
      → d.writes c.cert ≡ written
      → d.writes c.chain ≡ before_rename
      → (v : IsVerified o c key b) → expires_within later v.cert c.renew_before ≡ false
      → (ensure_service_certificate o now c d ≡ (some write_failed, half_written b d))
        × ((at c.chain (half_written b d) ≡ at c.chain d)
            × (ensure_service_certificate o later c (record (half_written b d) { writes = w })
                ≡ (none, record (half_written b d) { writes = w })))
  ensure_service_certificate-stale now later d b w h apart_key apart_chain due got first second v
        fresh =
      (
        half_run now d b h due got first second,
        (
          lookup-insert c.cert c.chain b.cert_pem d.files ∙ (rw apart_chain refl),
          skipped later _ (half-HasKey d b w apart_key h) (
              kept later _ b.cert_pem v.cert (half-HasKey d b w apart_key h)
                (lookup-insert_self c.cert b.cert_pem d.files) v.parses v.matches fresh),
        ),
      )
