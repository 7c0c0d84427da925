-- ===== src/Agent/Install.antt =====
-- What the agent puts in the place of a certificate, and what it leaves behind when a write fails.
use certplane.Base.{
  Bool, true, false, ◌≡◌, refl, ap, ◌∙◌, ◌⊎◌, inl, inr, Option, none, some, Result, ok, err, arith,
  Bool-cases, Result-cases, Option-cases, ok-injective, sym,
}
use certplane.Base.Text.{Text, text_eq, is_empty, trim_space}
use certplane.Base.Dict.{lookup, lookup-insert, lookup-insert_self}
use certplane.Clock.{Time}
use certplane.Pki.{Bundle, Certificate}
use certplane.Pki.Cert.{
  parse_certificate_pem, certificate_matches_private_key, certificate_has_exact_dns_names,
}
use certplane.Settings.Agent.{CertConfig}
use certplane.Agent.{
  WriteOutcome, written, before_rename, after_rename, Disk, AgentError, file_exists, read_file,
  read_key, outcome_of, write_file_atomic, and_write, write_to_disk, PrivateKey, Outside, saved_key,
  save_key, found_key, ensure_ecdsa_private_key, check_existing, obtain_bundle, reloaded, install,
  with_existing, with_key, ensure_service_certificate,
}

-- The content of a path.
abbrev pub at : Text → Disk → Option Text
at path d = lookup path d.files

outcome-other :
    (w : WriteOutcome) (path text q : Text) (d : Disk)
    → text_eq path q ≡ false
    → at q (outcome_of w path text d).1 ≡ at q d
unfolding outcome_of
outcome-other written path text q d h = lookup-insert path q text d.files ∙ rw h refl
outcome-other before_rename path text q d h = refl
outcome-other after_rename path text q d h = lookup-insert path q text d.files ∙ rw h refl

write-other :
    (path text q : Text) (d : Disk)
    → text_eq path q ≡ false
    → at q (write_file_atomic path text d).1 ≡ at q d
unfolding write_file_atomic
write-other path text q d h = outcome-other (d.writes path) path text q d h

outcome_self :
    (w : WriteOutcome) (path text : Text) (d : Disk)
    → (at path (outcome_of w path text d).1 ≡ at path d)
      ⊎ (at path (outcome_of w path text d).1 ≡ some text)
unfolding outcome_of
outcome_self written path text d = inr (lookup-insert_self path text d.files)
outcome_self before_rename path text d = inl refl
outcome_self after_rename path text d = inr (lookup-insert_self path text d.files)

and_write-other :
    (r : Option AgentError × Disk) (path text q : Text)
    → text_eq path q ≡ false
    → at q (and_write r path text).1 ≡ at q r.1
unfolding and_write
and_write-other (some e, d) path text q h = refl
and_write-other (none, d) path text q h = write-other path text q d h

-- The three paths that a bundle goes to are apart from the path of the certificate.
abbrev pub Apart : CertConfig → Type 0
Apart c =
    (text_eq c.key c.cert ≡ false)
    × (text_eq c.chain c.cert ≡ false)
    × (text_eq c.full_chain c.cert ≡ false)

write_to_disk-cert :
    (c : CertConfig) (b : Bundle) (d : Disk)
    → Apart c
    → (at c.cert (write_to_disk b c.cert c.chain c.full_chain d).1 ≡ at c.cert d)
      ⊎ (at c.cert (write_to_disk b c.cert c.chain c.full_chain d).1 ≡ some b.cert_pem)
unfolding write_to_disk write_file_atomic
write_to_disk-cert c b d (_, chain, full) =
    let rest =
      and_write-other (and_write (write_file_atomic c.cert b.cert_pem d) c.chain b.chain_pem)
        c.full_chain b.full_chain_pem c.cert full
      ∙ and_write-other (write_file_atomic c.cert b.cert_pem d) c.chain b.chain_pem c.cert chain in
    elim (outcome_self (d.writes c.cert) c.cert b.cert_pem d) [
      | inl e ↦ inl (rest ∙ e)
      | inr e ↦ inr (rest ∙ e)
    ]

at-read : (path text : Text) (d : Disk) → read_file path d ≡ ok text → at path d ≡ some text
unfolding read_file
at-read path text d h = elim (Bool-cases (d.broken path)) [
  | inl e ↦ absurd (cc (rw e at h))
  | inr e ↦ elim (Option-cases (lookup path d.files)) [
    | inl n ↦ absurd (cc (rw (e, n) at h))
    | inr (t, n) ↦ n ∙ ap some (ok-injective (rw (e, n) at h))
  ]
]

file_exists-none : (path : Text) (d : Disk) → file_exists path d ≡ ok false → at path d ≡ none
unfolding file_exists
file_exists-none path d h = elim (Bool-cases (d.broken path)) [
  | inl e ↦ absurd (cc (rw e at h))
  | inr e ↦ elim (Option-cases (lookup path d.files)) [
    | inl n ↦ n
    | inr (t, n) ↦ absurd (cc (rw (e, n) at h))
  ]
]

module _ (o : Outside) where
  saved_key-ok :
      (new key : PrivateKey) (r : Option AgentError × Disk)
      → (saved_key o new r).0 ≡ ok key
      → new ≡ key
  unfolding saved_key
  saved_key-ok new key (some e, d) h = absurd (cc h)
  saved_key-ok new key (none, d) h = ok-injective h

  -- A bundle whose certificate can be parsed, has the key, and has exactly the names.
  pub record IsVerified (c : CertConfig) (key : PrivateKey) (b : Bundle) : Type 0 where
    pub cert : Certificate
    pub parses : parse_certificate_pem o.x509 b.cert_pem ≡ ok cert
    pub matches : certificate_matches_private_key o.x509 cert key.public ≡ ok tt
    pub exact : certificate_has_exact_dns_names cert c.dns_names ≡ ok tt

  pub obtain_bundle-IsVerified :
      (c : CertConfig) (key : PrivateKey) (b : Bundle)
      → obtain_bundle o c key ≡ ok b
      → IsVerified c key b
  unfolding obtain_bundle
  obtain_bundle-IsVerified c key b h =
      elim (Result-cases (parse_certificate_pem o.x509 b.cert_pem)) [
        | inl (cert, e) ↦ record {
          cert = cert;
          parses = e;
          matches = ground arith;
          exact = ground arith;
        }
        | inr (x, e) ↦ absurd (ground arith)
      ]

  -- The key of the agent for a certificate: the one that its path holds, or, where the path is empty, a
  -- new one.
  abbrev pub IsLocalKey : CertConfig → Disk → PrivateKey → Type 0
  IsLocalKey c d key =
      ((at c.key d ≡ some key.pem) × (o.parse_key key.pem ≡ some key.public))
      ⊎ ((at c.key d ≡ none) × (o.new_key ≡ some key))

  -- On the way from the disk `d1` to `d2` the certificate is as it was, or becomes that of a bundle
  -- that is verified with the key of the agent on the disk `d`.
  abbrev pub Kept : CertConfig → Disk → Disk → Disk → Type 0
  Kept c d d1 d2 =
      (at c.cert d2 ≡ at c.cert d1)
      ⊎ ((key : PrivateKey) × ((b : Bundle) × ((at c.cert d2 ≡ some b.cert_pem)
              × (IsLocalKey c d key × IsVerified c key b))))

  read_key-IsLocalKey :
      (c : CertConfig) (d : Disk) (key : PrivateKey)
      → read_key o c.key d ≡ ok key
      → IsLocalKey c d key
  unfolding read_key
  read_key-IsLocalKey c d key h = elim (Result-cases (read_file c.key d)) [
    | inr (x, e) ↦ absurd (cc (rw e at h))
    | inl (pem, e) ↦ elim (Option-cases (o.parse_key pem)) [
      | inl n ↦ absurd (cc (rw (e, n) at h))
      | inr (public, n) ↦
          let made : record { pem = pem; public = public } ≡ key = ok-injective (rw (e, n) at h) in
          inl (
            at-read c.key pem d e ∙ ap (λ (k : PrivateKey). some k.pem) made,
            ap (λ (k : PrivateKey). o.parse_key k.pem) (sym made)
                ∙ n
                ∙ ap (λ (k : PrivateKey). some k.public) made,
          )
    ]
  ]

  save_key-IsLocalKey :
      (c : CertConfig) (d : Disk) (key : PrivateKey) (new : Option PrivateKey)
      → at c.key d ≡ none
      → o.new_key ≡ new
      → (save_key o new c.key d).0 ≡ ok key
      → IsLocalKey c d key
  unfolding save_key
  save_key-IsLocalKey c d key none n same h = absurd (cc h)
  save_key-IsLocalKey c d key (some new) n same h =
      inr (n, same ∙ ap some (saved_key-ok new key (write_file_atomic c.key new.pem d) h))

  ensure_key-IsLocalKey :
      (c : CertConfig) (d : Disk) (key : PrivateKey)
      → (ensure_ecdsa_private_key o c.key d).0 ≡ ok key
      → IsLocalKey c d key
  unfolding ensure_ecdsa_private_key found_key
  ensure_key-IsLocalKey c d key h = elim (Result-cases (file_exists c.key d)) [
    | inr (x, e) ↦ absurd (cc (rw e at h))
    | inl (true, e) ↦ read_key-IsLocalKey c d key (rw e at h)
    | inl (false, e) ↦
        save_key-IsLocalKey c d key o.new_key (file_exists-none c.key d e) refl (rw e at h)
  ]

  saved_key-at :
      (key : PrivateKey) (q : Text) (r : Option AgentError × Disk)
      → at q (saved_key o key r).1 ≡ at q r.1
  unfolding saved_key
  saved_key-at key q (some e, d) = refl
  saved_key-at key q (none, d) = refl

  save_key-other :
      (k : Option PrivateKey) (path q : Text) (d : Disk)
      → text_eq path q ≡ false
      → at q (save_key o k path d).1 ≡ at q d
  unfolding save_key
  save_key-other none path q d h = refl
  save_key-other (some key) path q d h =
      saved_key-at key q (write_file_atomic path key.pem d) ∙ write-other path key.pem q d h

  ensure_key-other :
      (r : Result AgentError Bool) (path q : Text) (d : Disk)
      → text_eq path q ≡ false
      → at q (found_key o r path d).1 ≡ at q d
  unfolding found_key
  ensure_key-other (err e) path q d h = refl
  ensure_key-other (ok true) path q d h = refl
  ensure_key-other (ok false) path q d h = save_key-other o.new_key path q d h

  reloaded-disk : (c : CertConfig) (r : Option AgentError × Disk) → (reloaded o c r).1 ≡ r.1
  unfolding reloaded
  reloaded-disk c (some e, d) = refl
  reloaded-disk c (none, d) = elim (Bool-cases (is_empty (trim_space c.reload_command))) [
    | inl e ↦ rw e refl
    | inr e ↦ rw e refl
  ]

  install-Kept :
      (c : CertConfig) (d0 : Disk) (key : PrivateKey) (r : Result AgentError Bundle) (d : Disk)
      → Apart c
      → IsLocalKey c d0 key
      → obtain_bundle o c key ≡ r
      → Kept c d0 d (install o c r d).1
  unfolding install
  install-Kept c d0 key (err e) d a l h = inl refl
  install-Kept c d0 key (ok b) d a l h =
      let same = ap (at c.cert) (reloaded-disk c (write_to_disk b c.cert c.chain c.full_chain d)) in
      elim (write_to_disk-cert c b d a) [
        | inl e ↦ inl (same ∙ e)
        | inr e ↦ inr (key, (b, (same ∙ e, (l, obtain_bundle-IsVerified c key b h))))
      ]

  with_existing-Kept :
      (c : CertConfig) (d0 : Disk) (key : PrivateKey) (r : Result AgentError Bool) (d : Disk)
      → Apart c
      → IsLocalKey c d0 key
      → Kept c d0 d (with_existing o c key r d).1
  unfolding with_existing
  with_existing-Kept c d0 key (err e) d a l = inl refl
  with_existing-Kept c d0 key (ok true) d a l = inl refl
  with_existing-Kept c d0 key (ok false) d a l = install-Kept c d0 key _ d a l refl

  Kept-from :
      {c : CertConfig} (d d1 d2 : Disk)
      → at c.cert d1 ≡ at c.cert d
      → Kept c d d1 d2
      → Kept c d d d2
  Kept-from d d1 d2 e (inl k) = inl (k ∙ e)
  Kept-from d d1 d2 e (inr k) = inr k

  with_key-Kept :
      (now : Time) (c : CertConfig) (d0 : Disk) (r : Result AgentError PrivateKey × Disk)
      → Apart c
      → ((key : PrivateKey) → r.0 ≡ ok key → IsLocalKey c d0 key)
      → Kept c d0 r.1 (with_key o now c r).1
  unfolding with_key
  with_key-Kept now c d0 (err e, d) a l = inl refl
  with_key-Kept now c d0 (ok key, d) a l =
      with_existing-Kept c d0 key (check_existing o now c key d) d a (l key refl)

  -- A run for a certificate whose paths are apart leaves the certificate on the disk as it was, or
  -- replaces it by one that has the names of the configuration, exactly, and matches the key that the
  -- path of the key holds, or a new key where it holds none; this holds also when the run fails, and
  -- wherever a write fails.
  pub ensure_service_certificate-Kept :
      (now : Time) (c : CertConfig) (d : Disk)
      → Apart c
      → Kept c d d (ensure_service_certificate o now c d).1
  unfolding ensure_service_certificate ensure_ecdsa_private_key
  ensure_service_certificate-Kept now c d a =
      let r = ensure_ecdsa_private_key o c.key d in
      Kept-from {c = c} d r.1 (with_key o now c r).1
        (ensure_key-other (file_exists c.key d) c.key c.cert d a.0)
        (with_key-Kept now c d r a (ensure_key-IsLocalKey c d))
