-- ===== src/Acme/Stable.antt =====
-- The account key stays the same from one start of the broker to the next.
use certplane.Base.{
  false, ◌≡◌, refl, ap, ◌∙◌, inl, inr, some, ok, Bool-cases, Option-cases, Result-cases,
  ok-injective,
}
use certplane.Base.Text.{Text}
use certplane.Base.Dict.{lookup, lookup-insert_self}
use certplane.Pki.Csr.{PemBlock}
use certplane.Pki.Key.{AnyKey, EcdsaKey, KeyFormats, IsKeyFormats, signer, pkcs8_type}
use certplane.Agent.{Disk}
use certplane.Agent.Touched.{with_file, write_file_atomic_cases}
use certplane.Acme.Account.{
  parse_account_key, parse_account_key-pkcs8, new_account_key, create_account_key,
  load_or_create_account_key,
}

module _ (f : KeyFormats) (l : IsKeyFormats f) where
  new_key-parses :
      (key : EcdsaKey) (pem : Text)
      → new_account_key f ≡ ok (key, pem)
      → parse_account_key f pem ≡ ok (signer key.public)
  unfolding new_account_key
  new_key-parses key pem h = elim (Option-cases f.generate_p256) [
    | inl e ↦ absurd (cc (rw e at h))
    | inr (k, e) ↦ elim (Option-cases k.pkcs8) [
      | inl n ↦ absurd (cc (rw (e, n) at h))
      | inr (der, n) ↦
          let block : PemBlock = record { type = pkcs8_type; bytes = der } in
          let same = ok-injective (rw (e, n) at h) in
          let text : f.pem_encode block ≡ pem = ap (λ (x : EcdsaKey × Text). x.1) same in
          let made : k.public ≡ key.public = ap (λ (x : EcdsaKey × Text). x.0.public) same in
          rw (← text, ← made)
            (parse_account_key-pkcs8 f (f.pem_encode block) block (signer k.public)
              (l.decode_encode block) (l.parse_generated k der e n))
    ]
  ]

  -- What is found on the disk a second time.
  found_again :
      (path text : Text) (d : Disk) (key : AnyKey)
      → d.broken path ≡ false
      → lookup path d.files ≡ some text
      → parse_account_key f text ≡ ok key
      → load_or_create_account_key f path d ≡ (ok key, d)
  unfolding load_or_create_account_key
  found_again path text d key b t h = rw (b, t, h) refl

  created :
      (path : Text) (d : Disk) (key : AnyKey)
      → d.broken path ≡ false
      → (create_account_key f path d).0 ≡ ok key
      → load_or_create_account_key f path (create_account_key f path d).1
        ≡ (ok key, (create_account_key f path d).1)
  unfolding create_account_key
  created path d key b h = elim (Result-cases (new_account_key f)) [
    | inr (x, e) ↦ absurd (cc (rw e at h))
    | inl ((k, pem), e) ↦ elim (write_file_atomic_cases path pem d) [
      | inr (inl w) ↦ absurd (cc (rw (e, w) at h))
      | inr (inr w) ↦ absurd (cc (rw (e, w) at h))
      | inl w ↦
          let same : signer k.public ≡ key = ok-injective (rw (e, w) at h) in
          rw (e, w)
            (found_again path pem (with_file path pem d) key b (lookup-insert_self path pem d.files)
              (new_key-parses k pem e ∙ ap ok same))
    ]
  ]

  -- If PEM and PKCS #8 read the keys that they have written, then an account key that was loaded or
  -- created is loaded again by the next start, which leaves the disk as it is: the broker keeps its
  -- ACME account.
  pub load_or_create_account_key_stable :
      (path : Text) (d : Disk) (key : AnyKey)
      → (load_or_create_account_key f path d).0 ≡ ok key
      → load_or_create_account_key f path (load_or_create_account_key f path d).1
        ≡ (ok key, (load_or_create_account_key f path d).1)
  unfolding load_or_create_account_key
  load_or_create_account_key_stable path d key h = elim (Bool-cases (d.broken path)) [
    | inl e ↦ absurd (cc (rw e at h))
    | inr e ↦ elim (Option-cases (lookup path d.files)) [
      | inr (text, t) ↦ rw (e, t) (found_again path text d key e t (rw (e, t) at h))
      | inl t ↦ rw (e, t) (created path d key e (rw (e, t) at h))
    ]
  ]
