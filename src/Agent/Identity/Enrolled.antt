-- ===== src/Agent/Identity/Enrolled.antt =====
-- What an enrollment leaves behind, whatever fails.
use certplane.Base.{
  true, false, ◌≡◌, refl, ◌∙◌, ◌⊎◌, inl, inr, Option, none, some, [], ◌∷◌, Result, ok, err, arith,
  Bool-cases, Result-cases, Option-cases,
}
use certplane.Base.Text.{Text, text_eq, elem}
use certplane.Base.Text.Laws.{text_eq_iff}
use certplane.Base.Dict.{
  lookup, lookup-insert, lookup-insert_self, lookup-delete_self, lookup-delete_other,
}
use certplane.Ca.{IdentityCa, IdentityCertificate}
use certplane.Settings.Agent.{AgentConfig}
use certplane.Agent.{
  Disk, AgentError, Outside, PrivateKey, file_exists, write_file_atomic, ensure_ecdsa_private_key,
  identity_exists, write_failed,
}
use certplane.Agent.Lock.{remove_file}
use certplane.Agent.Install.{at}
use certplane.Agent.Touched.{with_file, write_file_atomic_cases, ensure_ecdsa_private_key-Touches}
use certplane.Agent.Identity.{
  ask_identity, token_removed, remove_token, write_identity, with_identity_key, not_enrolled,
  enroll_locked,
}

-- The three files of an enrollment are apart.
pub record ApartIdentity (cfg : AgentConfig) : Type 0 where
  pub key_cert : text_eq cfg.identity.key cfg.identity.cert ≡ false
  pub key_token : text_eq cfg.identity.key cfg.identity.bootstrap_token ≡ false
  pub cert_token : text_eq cfg.identity.cert cfg.identity.bootstrap_token ≡ false

module _ (o : Outside) (ca : IdentityCa) (cfg : AgentConfig) where
  abbrev cert_path : Text
  cert_path = cfg.identity.cert

  abbrev token_path : Text
  token_path = cfg.identity.bootstrap_token

  -- There was no certificate, and `i` is what the provider answered to the key, the name and the token
  -- on the disk.
  pub record IsEnrollment (d : Disk) (i : IdentityCertificate) : Type 0 where
    pub new : at cfg.identity.cert d ≡ none
    pub answered : ask_identity o ca cfg (ensure_ecdsa_private_key o cfg.identity.key d).1 ≡ ok i

  pub record Enrolled (d : Disk) (r : Option AgentError × Disk) : Type 0 where
    -- The certificate is the old one, or the one of the enrollment where there was none.
    pub cert :
        (at cfg.identity.cert r.1 ≡ at cfg.identity.cert d)
        ⊎ ((i : IdentityCertificate) × (IsEnrollment d i
              × (at cfg.identity.cert r.1 ≡ some i.cert_pem)))
    -- The token is kept while an error is reported.
    pub token :
        (at cfg.identity.bootstrap_token r.1 ≡ at cfg.identity.bootstrap_token d) ⊎ (r.0 ≡ none)
    pub done :
        r.0 ≡ none
        → (at cfg.identity.bootstrap_token r.1 ≡ none)
          × ((i : IdentityCertificate) × (IsEnrollment d i
                × (at cfg.identity.cert r.1 ≡ some i.cert_pem)))

  -- No error is reported without the certificate, and neither file has changed.
  stopped :
      (d d' : Disk) (e : AgentError)
      → at cert_path d' ≡ at cert_path d
      → at token_path d' ≡ at token_path d
      → Enrolled d (some e, d')
  stopped d d' e c t = record { cert = inl c; token = inl t; done = λ h. cc h }

  -- The certificate is written, and the token is still there.
  module _ (d d' : Disk) (i : IdentityCertificate) (v : IsEnrollment d i)
      (c : at cert_path d' ≡ some i.cert_pem) (t : at token_path d' ≡ at token_path d) where
    left : (e : AgentError) → Enrolled d (some e, d')
    left e = record { cert = inr (i, (v, c)); token = inl t; done = λ h. cc h }

    without_token :
        text_eq token_path cert_path ≡ false
        → Enrolled d (token_removed o ca (remove_file token_path d'))
    unfolding remove_file token_removed
    without_token h = elim (Option-cases (lookup token_path d'.files)) [
      | inl n ↦ rw n (left _)
      | inr (x, n) ↦ elim (Bool-cases (d'.remove_fails token_path)) [
        | inl f ↦ rw (n, f) (left _)
        | inr f ↦
            let kept = lookup-delete_other token_path cert_path d'.files h ∙ c in
            rw (n, f)
              (record {
                cert = inr (i, (v, kept));
                token = inr refl;
                done = λ _. (lookup-delete_self token_path d'.files, (i, (v, kept)));
              })
      ]
    ]

  module _ (a : ApartIdentity cfg) where
    token_cert : text_eq token_path cert_path ≡ false
    token_cert =
        ground
          (arith, a.cert_token, text_eq_iff token_path cert_path, text_eq_iff cert_path token_path)

    at-with_file :
        (text : Text) (d : Disk)
        → (at cert_path (with_file cert_path text d) ≡ some text)
          × (at token_path (with_file cert_path text d) ≡ at token_path d)
    at-with_file text d = (
      lookup-insert_self cert_path text d.files,
      lookup-insert cert_path token_path text d.files ∙ rw a.cert_token refl,
    )

    written_identity :
        (d d' : Disk) (i : IdentityCertificate)
        → IsEnrollment d i
        → at cert_path d' ≡ at cert_path d
        → at token_path d' ≡ at token_path d
        → Enrolled d (remove_token o ca cfg (write_file_atomic cert_path i.cert_pem d'))
    unfolding remove_token
    written_identity d d' i v c t =
        let (new, other) = at-with_file i.cert_pem d' in
        elim (write_file_atomic_cases cert_path i.cert_pem d') [
          | inl e ↦
              rw e
                (without_token d (with_file cert_path i.cert_pem d') i v new (other ∙ t) token_cert)
          | inr (inl e) ↦ rw e (stopped d d' write_failed c t)
          | inr (inr e) ↦
              rw e (left d (with_file cert_path i.cert_pem d') i v new (other ∙ t) write_failed)
        ]

    key_kept :
        (d : Disk)
        → (at cert_path (ensure_ecdsa_private_key o cfg.identity.key d).1 ≡ at cert_path d)
          × (at token_path (ensure_ecdsa_private_key o cfg.identity.key d).1 ≡ at token_path d)
    unfolding elem
    key_kept d =
        let (_, other) =
          ensure_ecdsa_private_key-Touches o (cfg.identity.key ∷ []) cfg.identity.key d
            (ground (arith, text_eq_iff cfg.identity.key cfg.identity.key)) in
        (
          other cert_path (
              ground (
                arith,
                a.key_cert,
                text_eq_iff cfg.identity.key cert_path,
                text_eq_iff cert_path cfg.identity.key,
              )),
          other token_path (
              ground (
                arith,
                a.key_token,
                text_eq_iff cfg.identity.key token_path,
                text_eq_iff token_path cfg.identity.key,
              )),
        )

    asked :
        (d : Disk)
        → at cert_path d ≡ none
        → Enrolled d (
            write_identity o ca cfg
              (ask_identity o ca cfg (ensure_ecdsa_private_key o cfg.identity.key d).1)
              (ensure_ecdsa_private_key o cfg.identity.key d).1)
    unfolding write_identity
    asked d n =
        let d' = (ensure_ecdsa_private_key o cfg.identity.key d).1 in
        elim (Result-cases
          (ask_identity o ca cfg (ensure_ecdsa_private_key o cfg.identity.key d).1)) [
            | inr (x, e) ↦ rw e (stopped d d' x (key_kept d).0 (key_kept d).1)
            | inl (i, e) ↦ rw e (
                written_identity d d' i (record { new = n; answered = e }) (key_kept d).0
                  (key_kept d).1)
          ]

    with_key :
        (d : Disk) (r : Result AgentError PrivateKey × Disk)
        → (at cert_path r.1 ≡ at cert_path d) × (at token_path r.1 ≡ at token_path d)
        → Enrolled d (write_identity o ca cfg (ask_identity o ca cfg r.1) r.1)
        → Enrolled d (with_identity_key o ca cfg r)
    unfolding with_identity_key
    with_key d (err e, d') (c, t) w = stopped d d' e c t
    with_key d (ok key, d') k w = w

    file_exists-false : (d : Disk) → file_exists cert_path d ≡ ok false → at cert_path d ≡ none
    unfolding file_exists
    file_exists-false d h = elim (Option-cases (lookup cert_path d.files)) [
      | inl n ↦ n
      | inr (x, n) ↦ absurd (ground (arith, n))
    ]

    -- Where key, certificate and token are apart, an enrollment never replaces a certificate that is
    -- there, puts no other one in its place than the provider's answer to the request with the token,
    -- and takes the token away only if it reports no error; and if it reports none, the certificate of
    -- the provider is on the disk and the token is gone.
    pub enroll_locked-Enrolled : (d : Disk) → Enrolled d (enroll_locked o ca cfg d)
    unfolding enroll_locked not_enrolled
    enroll_locked-Enrolled d = elim (Result-cases (file_exists cert_path d)) [
      | inr (x, e) ↦ rw e (stopped d d x refl refl)
      | inl (true, e) ↦ rw e (stopped d d identity_exists refl refl)
      | inl (false, e) ↦ rw e (
          with_key d (ensure_ecdsa_private_key o cfg.identity.key d) (key_kept d)
            (asked d (file_exists-false d e)))
    ]
