-- ===== src/Agent/Run/InOrder.antt =====
-- A certificate that the agent has looked after without an error is in order for the check.
use certplane.Base.{
  Bool, true, false, ◌≡◌, refl, ap, ◌∙◌, inl, inr, Option, none, some, Result, ok, err, Bool-cases,
  Result-cases,
}
use certplane.Base.Text.{Text, text_eq, is_empty, trim_space}
use certplane.Base.Dict.{lookup-insert, lookup-insert_self}
use certplane.Clock.{Time}
use certplane.Pki.{Bundle, Certificate}
use certplane.Pki.Cert.{parse_certificate_pem, certificate_matches_private_key}
use certplane.Pki.Key.{KeyFormats}
use certplane.Settings.Agent.{CertConfig}
use certplane.Agent.{
  Disk, AgentError, Outside, PrivateKey, read_file, file_exists, ensure_ecdsa_private_key,
  check_existing, obtain_bundle, ensure_service_certificate, keep_existing, with_key, with_existing,
  install, reloaded, write_to_disk, and_write, write_file_atomic,
}
use certplane.Agent.Install.{at, IsVerified, obtain_bundle-IsVerified}
use certplane.Agent.Touched.{with_file, write_file_atomic_cases}
use certplane.Agent.Run.ReadKeys.{
  KeysAgree, IsInOrder, HasReadKey, file_exists-ok, read_file-ok, ensure_key-HasReadKey,
}

-- The files of a certificate are apart from its key, and its chains from the certificate.
pub record ApartFiles (c : CertConfig) : Type 0 where
  pub cert_key : text_eq c.cert c.key ≡ false
  pub chain_key : text_eq c.chain c.key ≡ false
  pub full_key : text_eq c.full_chain c.key ≡ false
  pub chain_cert : text_eq c.chain c.cert ≡ false
  pub full_cert : text_eq c.full_chain c.cert ≡ false

write-none :
    (path text : Text) (d : Disk)
    → (write_file_atomic path text d).0 ≡ none
    → write_file_atomic path text d ≡ (none, with_file path text d)
write-none path text d h = elim (write_file_atomic_cases path text d) [
  | inl e ↦ e
  | inr (inl e) ↦ absurd (cc (rw e at h))
  | inr (inr e) ↦ absurd (cc (rw e at h))
]

and_write-none :
    (r : Option AgentError × Disk) (path text : Text)
    → (and_write r path text).0 ≡ none
    → (r.0 ≡ none) × (and_write r path text ≡ (none, with_file path text r.1))
unfolding and_write
and_write-none (some e, d) path text h = absurd (cc h)
and_write-none (none, d) path text h = (refl, write-none path text d h)

-- The disk behind the three writes of a bundle.
abbrev installed : CertConfig → Bundle → Disk → Disk
installed c b d =
    with_file c.full_chain b.full_chain_pem
      (with_file c.chain b.chain_pem (with_file c.cert b.cert_pem d))

write_to_disk-none :
    (c : CertConfig) (b : Bundle) (d : Disk)
    → (write_to_disk b c.cert c.chain c.full_chain d).0 ≡ none
    → (write_to_disk b c.cert c.chain c.full_chain d).1 ≡ installed c b d
unfolding write_to_disk
write_to_disk-none c b d h =
    let first = write_file_atomic c.cert b.cert_pem d in
    let second = and_write first c.chain b.chain_pem in
    let (h2, e3) = and_write-none second c.full_chain b.full_chain_pem h in
    let (h1, e2) = and_write-none first c.chain b.chain_pem h2 in
    let e1 = write-none c.cert b.cert_pem d h1 in
    ap (λ (r : Option AgentError × Disk). r.1) e3
    ∙ ap (λ (r : Option AgentError × Disk). with_file c.full_chain b.full_chain_pem r.1) e2
    ∙ ap
        (λ (r : Option AgentError × Disk).
          with_file c.full_chain b.full_chain_pem (with_file c.chain b.chain_pem r.1))
        e1

module _ (o : Outside) (f : KeyFormats) (c : CertConfig) (a : ApartFiles c) where
  installed-at :
      (b : Bundle) (d : Disk)
      → (at c.cert (installed c b d) ≡ some b.cert_pem) × (at c.key (installed c b d) ≡ at c.key d)
  installed-at b d = (
    lookup-insert c.full_chain c.cert b.full_chain_pem
          (with_file c.chain b.chain_pem (with_file c.cert b.cert_pem d)).files
        ∙ rw a.full_cert (
            lookup-insert c.chain c.cert b.chain_pem (with_file c.cert b.cert_pem d).files
            ∙ rw a.chain_cert (lookup-insert_self c.cert b.cert_pem d.files)),
    lookup-insert c.full_chain c.key b.full_chain_pem
          (with_file c.chain b.chain_pem (with_file c.cert b.cert_pem d)).files
        ∙ rw a.full_key (
            lookup-insert c.chain c.key b.chain_pem (with_file c.cert b.cert_pem d).files
            ∙ rw a.chain_key (lookup-insert c.cert c.key b.cert_pem d.files ∙ rw a.cert_key refl)),
  )

  reloaded-none :
      (r : Option AgentError × Disk)
      → (reloaded o c r).0 ≡ none
      → (r.0 ≡ none) × ((reloaded o c r).1 ≡ r.1)
  unfolding reloaded
  reloaded-none (some e, d) h = absurd (cc h)
  reloaded-none (none, d) h = elim (Bool-cases (is_empty (trim_space c.reload_command))) [
    | inl e ↦ (refl, rw e refl)
    | inr e ↦ (refl, rw e refl)
  ]

  -- What was read of a certificate that is kept.
  keep_existing-ok :
      (now : Time) (key : PrivateKey) (d : Disk)
      → keep_existing o now c key d true ≡ ok true
      → (pem : Text) × ((cert : Certificate) × ((read_file c.cert d ≡ ok pem)
            × ((parse_certificate_pem o.x509 pem ≡ ok cert)
                × (certificate_matches_private_key o.x509 cert key.public ≡ ok tt))))
  unfolding keep_existing
  keep_existing-ok now key d h = elim (Result-cases (read_file c.cert d)) [
    | inr (x, e) ↦ absurd (cc (rw e at h))
    | inl (pem, e) ↦ elim (Result-cases (parse_certificate_pem o.x509 pem)) [
      | inr (x, p) ↦ absurd (cc (rw (e, p) at h))
      | inl (cert, p) ↦
          elim (Result-cases (certificate_matches_private_key o.x509 cert key.public)) [
            | inr (x, m) ↦ absurd (cc (rw (e, p, m) at h))
            | inl (tt, m) ↦ (pem, (cert, (e, (p, m))))
          ]
    ]
  ]

  -- The certificate that was kept.
  kept-IsInOrder :
      (now : Time) (key : PrivateKey) (d : Disk)
      → HasReadKey o f c.key key d
      → check_existing o now c key d ≡ ok true
      → IsInOrder o f c d
  unfolding check_existing
  kept-IsInOrder now key d (kb, (ka, kp)) h = elim (Result-cases (file_exists c.cert d)) [
    | inr (x, e) ↦ absurd (cc (rw e at h))
    | inl (false, e) ↦ absurd (unfold keep_existing in cc (rw e at h))
    | inl (true, e) ↦
        let (pem, (cert, (r, (p, m)))) = keep_existing-ok now key d (rw e at h) in
        record {
          key_pem = key.pem;
          public = key.public;
          cert_pem = pem;
          key_readable = (kb, ka);
          cert_readable = read_file-ok c.cert pem d r;
          key_parses = kp;
          cert_matches = (cert, (p, m));
        }
  ]

  -- The certificate that was installed.
  installed-IsInOrder :
      (key : PrivateKey) (b : Bundle) (d : Disk)
      → HasReadKey o f c.key key d
      → d.broken c.cert ≡ false
      → IsVerified o c key b
      → IsInOrder o f c (installed c b d)
  installed-IsInOrder key b d (kb, (ka, kp)) cb v = record {
    key_pem = key.pem;
    public = key.public;
    cert_pem = b.cert_pem;
    key_readable = (kb, (installed-at b d).1 ∙ ka);
    cert_readable = (cb, (installed-at b d).0);
    key_parses = kp;
    cert_matches = (v.cert, (v.parses, v.matches));
  }

  check_existing-readable :
      (now : Time) (key : PrivateKey) (d : Disk) (b : Bool)
      → check_existing o now c key d ≡ ok b
      → d.broken c.cert ≡ false
  unfolding check_existing
  check_existing-readable now key d b h = elim (Result-cases (file_exists c.cert d)) [
    | inr (x, e) ↦ absurd (cc (rw e at h))
    | inl (x, e) ↦ file_exists-ok c.cert d x e
  ]

  install-IsInOrder :
      (key : PrivateKey) (r : Result AgentError Bundle) (d : Disk)
      → obtain_bundle o c key ≡ r
      → HasReadKey o f c.key key d
      → d.broken c.cert ≡ false
      → (install o c r d).0 ≡ none
      → IsInOrder o f c (install o c r d).1
  unfolding install
  install-IsInOrder key (err e) d same k b h = absurd (cc h)
  install-IsInOrder key (ok bundle) d same k b h =
      let (h', same_disk) = reloaded-none (write_to_disk bundle c.cert c.chain c.full_chain d) h in
      rw (same_disk, write_to_disk-none c bundle d h')
        (installed-IsInOrder key bundle d k b (obtain_bundle-IsVerified o c key bundle same))

  with_existing-IsInOrder :
      (now : Time) (key : PrivateKey) (r : Result AgentError Bool) (d : Disk)
      → check_existing o now c key d ≡ r
      → HasReadKey o f c.key key d
      → (with_existing o c key r d).0 ≡ none
      → IsInOrder o f c (with_existing o c key r d).1
  unfolding with_existing
  with_existing-IsInOrder now key (err e) d same k h = absurd (cc h)
  with_existing-IsInOrder now key (ok true) d same k h = kept-IsInOrder now key d k same
  with_existing-IsInOrder now key (ok false) d same k h =
      install-IsInOrder key (obtain_bundle o c key) d refl k
        (check_existing-readable now key d false same) h

  with_key-IsInOrder :
      (now : Time) (r : Result AgentError PrivateKey × Disk)
      → ((key : PrivateKey) → r.0 ≡ ok key → HasReadKey o f c.key key r.1)
      → (with_key o now c r).0 ≡ none
      → IsInOrder o f c (with_key o now c r).1
  unfolding with_key
  with_key-IsInOrder now (err e, d) k h = absurd (cc h)
  with_key-IsInOrder now (ok key, d) k h =
      with_existing-IsInOrder now key (check_existing o now c key d) d refl (k key refl) h

  pub ensure_service_certificate-IsInOrder :
      (k : KeysAgree o f) (now : Time) (d : Disk)
      → (ensure_service_certificate o now c d).0 ≡ none
      → IsInOrder o f c (ensure_service_certificate o now c d).1
  unfolding ensure_service_certificate
  ensure_service_certificate-IsInOrder k now d h =
      with_key-IsInOrder now (ensure_ecdsa_private_key o c.key d)
        (λ key. ensure_key-HasReadKey o f k c.key d key) h
