-- ===== src/Agent/Identity/Renewed.antt =====
-- When the certificate of the identity is replaced by a renewal.
use certplane.Base.{
  true, false, ◌≡◌, refl, ap, ◌∙◌, ◌⊎◌, inl, inr, Option, none, some, [], ◌∷◌, ok, arith,
  Bool-cases, Result-cases, ok-injective,
}
use certplane.Base.Text.{Text, elem}
use certplane.Base.Text.Laws.{text_eq_iff}
use certplane.Base.Dict.{lookup-insert_self}
use certplane.Clock.{Time}
use certplane.Pki.Cert.{parse_certificate_pem, expires_within, is_expired}
use certplane.Ca.{IdentityCa, IdentityCertificate, RenewalRequest}
use certplane.Settings.Agent.{AgentConfig}
use certplane.Agent.{
  Disk, AgentError, Outside, identity_expired, write_failed, write_file_atomic, read_file,
}
use certplane.Agent.Run.ReadKeys.{read_file-ok}
use certplane.Agent.Install.{at}
use certplane.Agent.Touched.{
  Touches, Touches-refl, with_file, write_file_atomic_cases, write_file_atomic-Touches,
}
use certplane.Agent.Identity.{
  IdentityFiles, read_identity, write_renewed, renew_read, renew_identity_if_needed,
}

module _ (o : Outside) (ca : IdentityCa) (now : Time) (cfg : AgentConfig) where
  abbrev request : IdentityFiles → RenewalRequest
  request f = record {
    cert_pem = f.cert_data;
    key_pem = f.key_data;
    issuer_ca_pem = f.root_ca_data;
  }

  -- The files of the identity on the disk `d`: the certificate, which can be parsed, its key and the
  -- bundle of its issuer are the contents of their paths.
  pub record IsOnDisk (d : Disk) (f : IdentityFiles) : Type 0 where
    pub cert_data : at cfg.identity.cert d ≡ some f.cert_data
    pub key_data : at cfg.identity.key d ≡ some f.key_data
    pub root_ca_data : at cfg.identity.issuer_ca_bundle d ≡ some f.root_ca_data
    pub parses : parse_certificate_pem o.x509 f.cert_data ≡ ok f.cert

  read_identity-IsOnDisk :
      (d : Disk) (f : IdentityFiles) → read_identity o ca cfg d ≡ ok f → IsOnDisk d f
  unfolding read_identity
  read_identity-IsOnDisk d f h = elim (Result-cases (read_file cfg.identity.cert d)) [
    | inr (x, a) ↦ absurd (cc (rw a at h))
    | inl (cert, a) ↦ elim (Result-cases (read_file cfg.identity.key d)) [
      | inr (x, b) ↦ absurd (cc (rw (a, b) at h))
      | inl (key, b) ↦ elim (Result-cases (read_file cfg.identity.issuer_ca_bundle d)) [
        | inr (x, c) ↦ absurd (cc (rw (a, b, c) at h))
        | inl (root, c) ↦ elim (Result-cases (parse_certificate_pem o.x509 cert)) [
          | inr (x, p) ↦ absurd (cc (rw (a, b, c, p) at h))
          | inl (parsed, p) ↦ rw (← ok-injective (rw (a, b, c, p) at h)) (record {
            cert_data = (read_file-ok cfg.identity.cert cert d a).1;
            key_data = (read_file-ok cfg.identity.key key d b).1;
            root_ca_data = (read_file-ok cfg.identity.issuer_ca_bundle root d c).1;
            parses = p;
          })
        ]
      ]
    ]
  ]

  -- The identity on the disk `d` is valid but close to its end, and `r` is what the provider has
  -- renewed it to.
  pub record IsRenewal (d : Disk) (r : IdentityCertificate) : Type 0 where
    pub files : IdentityFiles
    pub on_disk : IsOnDisk d files
    pub valid : is_expired now files.cert ≡ false
    pub due : expires_within now files.cert cfg.identity.renew_before ≡ true
    pub answered :
        ca.renew (record {
          cert_pem = files.cert_data;
          key_pem = files.key_data;
          issuer_ca_pem = files.root_ca_data;
        })
        ≡ ok r

  -- What a renewal leaves behind: only the certificate may differ, and then it is a renewed one; and
  -- where no error is reported the identity has not expired, and is renewed if it was due.
  pub record Renewed (d : Disk) (r : Option AgentError × Disk) : Type 0 where
    pub touches : Touches (cfg.identity.cert ∷ []) d r.1
    pub cert :
        (at cfg.identity.cert r.1 ≡ at cfg.identity.cert d)
        ⊎ ((i : IdentityCertificate) × (IsRenewal d i
              × (at cfg.identity.cert r.1 ≡ some i.cert_pem)))
    pub done :
        r.0 ≡ none
        → (f : IdentityFiles) × (IsOnDisk d f
            × ((is_expired now f.cert ≡ false)
                × ((expires_within now f.cert cfg.identity.renew_before ≡ false)
                    ⊎ ((i : IdentityCertificate) × (IsRenewal d i
                          × (at cfg.identity.cert r.1 ≡ some i.cert_pem))))))

  cert_self : elem cfg.identity.cert (cfg.identity.cert ∷ []) ≡ true
  unfolding elem
  cert_self = ground (arith, text_eq_iff cfg.identity.cert cfg.identity.cert)

  unchanged : (d : Disk) (e : AgentError) → Renewed d (some e, d)
  unchanged d e = record { touches = Touches-refl _ d; cert = inl refl; done = λ h. cc h }

  at-with_file :
      (text : Text) (d : Disk)
      → at cfg.identity.cert (with_file cfg.identity.cert text d) ≡ some text
  at-with_file text d = lookup-insert_self cfg.identity.cert text d.files

  written_renewal :
      (d : Disk) (i : IdentityCertificate)
      → IsRenewal d i
      → Renewed d (write_file_atomic cfg.identity.cert i.cert_pem d)
  written_renewal d i v =
      let t =
        write_file_atomic-Touches (cfg.identity.cert ∷ []) cfg.identity.cert i.cert_pem d
          cert_self in
      elim (write_file_atomic_cases cfg.identity.cert i.cert_pem d) [
        | inl e ↦
            let there =
              ap (λ (r : Option AgentError × Disk). at cfg.identity.cert r.1) e
              ∙ at-with_file i.cert_pem d in
            record {
              touches = t;
              cert = inr (i, (v, there));
              done = λ h. (v.files, (v.on_disk, (v.valid, inr (i, (v, there)))));
            }
        | inr (inl e) ↦ rw e (unchanged d write_failed)
        | inr (inr e) ↦
            let there =
              ap (λ (r : Option AgentError × Disk). at cfg.identity.cert r.1) e
              ∙ at-with_file i.cert_pem d in
            record {
              touches = t;
              cert = inr (i, (v, there));
              done = λ h. absurd (cc (ap (λ (r : Option AgentError × Disk). r.0) e, h));
            }
      ]

  renewal :
      (d : Disk) (f : IdentityFiles) → IsOnDisk d f → Renewed d (renew_read o ca now cfg (ok f) d)
  unfolding renew_read write_renewed
  renewal d f h = elim (Bool-cases (is_expired now f.cert)) [
    | inl e ↦ rw e (unchanged d identity_expired)
    | inr e ↦ elim (Bool-cases (expires_within now f.cert cfg.identity.renew_before)) [
      | inr w ↦
          rw (e, w)
            (record {
              touches = Touches-refl _ d;
              cert = inl refl;
              done = λ n. (f, (h, (e, inl w)));
            })
      | inl w ↦ elim (Result-cases (ca.renew (request f))) [
        | inr (x, a) ↦ rw (e, w, a) (unchanged d _)
        | inl (i, a) ↦
            rw (e, w, a)
              (written_renewal d i
                (record { files = f; on_disk = h; valid = e; due = w; answered = a }))
      ]
    ]
  ]

  -- A renewal writes no other file than the certificate of the identity, and replaces it only while
  -- the certificate at its path is valid, due for renewal, and renewed by the provider on the strength
  -- of the contents of the paths of the certificate, the key and the issuer's bundle. If it reports no error, the certificate on the disk was valid, and
  -- was either not due or is now the renewed one.
  pub renew_identity_if_needed-Renewed :
      (d : Disk) → Renewed d (renew_identity_if_needed o ca now cfg d)
  unfolding renew_identity_if_needed
  renew_identity_if_needed-Renewed d = elim (Result-cases (read_identity o ca cfg d)) [
    | inl (f, e) ↦ rw e (renewal d f (read_identity-IsOnDisk d f e))
    | inr (x, e) ↦ rw (e, renew_read) (unchanged d x)
  ]
