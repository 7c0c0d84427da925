-- ===== src/Agent/Run/ReadKeys.antt =====
-- The key that the agent has at hand, and what the check of a certificate asks of the disk.
use certplane.Base.{
  Bool, true, false, ◌≡◌, refl, sym, ap, ◌∙◌, inl, inr, Option, none, some, ok, arith, Bool-cases,
  Result-cases, Option-cases, ok-injective,
}
use certplane.Base.Text.{Text}
use certplane.Base.Dict.{lookup, lookup-insert_self}
use certplane.Pki.Cert.{parse_certificate_pem, certificate_matches_private_key}
use certplane.Pki.Key.{KeyFormats, parse_private_key_pem}
use certplane.Settings.Agent.{CertConfig}
use certplane.Agent.{
  Disk, Outside, PrivateKey, read_file, file_exists, ensure_ecdsa_private_key, found_key, save_key,
  saved_key, read_key, parsed_key,
}
use certplane.Agent.Install.{at}
use certplane.Agent.Touched.{write_file_atomic_cases}
use certplane.Agent.Check.{check_certificate}

pub file_exists-ok :
    (path : Text) (d : Disk) (b : Bool) → file_exists path d ≡ ok b → d.broken path ≡ false
unfolding file_exists
file_exists-ok path d b h = ground arith

pub read_file-ok :
    (path text : Text) (d : Disk)
    → read_file path d ≡ ok text
    → (d.broken path ≡ false) × (at path d ≡ some text)
unfolding read_file
read_file-ok path text d h = elim (Bool-cases (d.broken path)) [
  | inl e ↦ absurd (cc (rw e at h))
  | inr e ↦ elim (Option-cases (lookup path d.files)) [
    | inl n ↦ absurd (cc (rw (e, n) at h))
    | inr (t, n) ↦ (e, n ∙ ap some (ok-injective (rw (e, n) at h)))
  ]
]

module _ (o : Outside) (f : KeyFormats) where
  -- The key that the agent reads is the one that the check reads, and a new key is read back.
  pub record KeysAgree : Type 0 where
    pub same :
        (pem public : Text)
        → o.parse_key pem ≡ some public
        → parse_private_key_pem f pem ≡ ok public
    pub new_key_read :
        (key : PrivateKey) → o.new_key ≡ some key → parse_private_key_pem f key.pem ≡ ok key.public

  -- What the check asks of a certificate, by what is on the disk.
  pub record IsInOrder (c : CertConfig) (d : Disk) : Type 0 where
    pub key_pem : Text
    pub public : Text
    pub cert_pem : Text
    pub key_readable : (d.broken c.key ≡ false) × (at c.key d ≡ some key_pem)
    pub cert_readable : (d.broken c.cert ≡ false) × (at c.cert d ≡ some cert_pem)
    pub key_parses : parse_private_key_pem f key_pem ≡ ok public
    pub cert_matches :
        (cert : _) × ((parse_certificate_pem o.x509 cert_pem ≡ ok cert)
          × (certificate_matches_private_key o.x509 cert public ≡ ok tt))

  pub check_certificate-IsInOrder :
      (c : CertConfig) (d : Disk) → IsInOrder c d → check_certificate o.x509 f c d ≡ ok tt
  unfolding check_certificate read_file
  check_certificate-IsInOrder c d i =
      let (cert, (parses, matches)) = i.cert_matches in
      rw
        (
          i.key_readable.0, i.key_readable.1, i.key_parses, i.cert_readable.0, i.cert_readable.1,
          parses, matches,
        )
        refl

  -- A key that is at hand can be read from the disk, and the check reads it as the agent did.
  abbrev pub HasReadKey : Text → PrivateKey → Disk → Type 0
  HasReadKey path key d =
      (d.broken path ≡ false)
      × ((at path d ≡ some key.pem) × (parse_private_key_pem f key.pem ≡ ok key.public))

  module _ (k : KeysAgree) where
    read_key-HasReadKey :
        (path : Text) (d : Disk) (key : PrivateKey)
        → read_key o path d ≡ ok key
        → HasReadKey path key d
    unfolding read_key parsed_key
    read_key-HasReadKey path d key h = elim (Result-cases (read_file path d)) [
      | inr (x, e) ↦ absurd (cc (rw e at h))
      | inl (pem, e) ↦ elim (Option-cases (o.parse_key pem)) [
        | inl n ↦ absurd (cc (rw (e, n) at h))
        | inr (public, n) ↦
            let same : record { pem = pem; public = public } ≡ key =
              ok-injective (rw (e, n) at h) in
            let (readable, there) = read_file-ok path pem d e in
            (
              readable,
              (
                there ∙ ap (λ (x : PrivateKey). some x.pem) same,
                ap (λ (x : PrivateKey). parse_private_key_pem f x.pem) (sym same)
                    ∙ k.same pem public n
                    ∙ ap (λ (x : PrivateKey). ok x.public) same,
              ),
            )
      ]
    ]

    save_key-HasReadKey :
        (path : Text) (d : Disk) (key : PrivateKey) (new : Option PrivateKey)
        → o.new_key ≡ new
        → d.broken path ≡ false
        → (save_key o new path d).0 ≡ ok key
        → HasReadKey path key (save_key o new path d).1
    unfolding save_key saved_key
    save_key-HasReadKey path d key none same b h = absurd (cc h)
    save_key-HasReadKey path d key (some new) same b h =
        elim (write_file_atomic_cases path new.pem d) [
          | inl e ↦
              let is : new ≡ key = ok-injective (rw e at h) in
              rw e (
                b,
                (
                  lookup-insert_self path new.pem d.files ∙ ap (λ (x : PrivateKey). some x.pem) is,
                  ap (λ (x : PrivateKey). parse_private_key_pem f x.pem) (sym is)
                      ∙ k.new_key_read new same
                      ∙ ap (λ (x : PrivateKey). ok x.public) is,
                ),
              )
          | inr (inl e) ↦ absurd (cc (rw e at h))
          | inr (inr e) ↦ absurd (cc (rw e at h))
        ]

    pub ensure_key-HasReadKey :
        (path : Text) (d : Disk) (key : PrivateKey)
        → (ensure_ecdsa_private_key o path d).0 ≡ ok key
        → HasReadKey path key (ensure_ecdsa_private_key o path d).1
    unfolding ensure_ecdsa_private_key found_key
    ensure_key-HasReadKey path d key h = elim (Result-cases (file_exists path d)) [
      | inr (x, e) ↦ absurd (cc (rw e at h))
      | inl (true, e) ↦ rw e (read_key-HasReadKey path d key (rw e at h))
      | inl (false, e) ↦ rw e (
          save_key-HasReadKey path d key o.new_key refl (file_exists-ok path d false e) (rw e at h))
    ]
