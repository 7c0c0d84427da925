-- ===== src/Ca/StepCa/Chain.antt =====
-- The certificates of an identity: its leaf, and its chain without the leaf.
use certplane.Base.{false, ◌≡◌, ◌⊎◌, Option, none, some, List, [], ◌∷◌, ◌++◌, All, if◌then◌else◌}
use certplane.Base.Text.{Text, text_eq}
use certplane.Pki.{Certificate}
use certplane.Ca.{IdentityCertificate}
use certplane.Ca.StepCa.{Step, SignResponse, leaf_of, cert_to_pem}

module _ (s : Step) where
  -- The PEM texts of certificates, one behind the other.
  abbrev pub pem_texts : List Certificate → Text
  pem_texts [] = []
  pem_texts (c ∷ cs) = cert_to_pem s c ++ pem_texts cs

  -- The certificates of a list that are there and are not the leaf, in their order.
  abbrev pub others : Certificate → List (Option Certificate) → List Certificate
  others leaf [] = []
  others leaf (none ∷ cs) = others leaf cs
  others leaf (some c ∷ cs) = if text_eq c.raw leaf.raw then others leaf cs else c ∷ others leaf cs

  -- The leaf of a response is what the identity's certificate and times are taken from.
  pub record IsIdentity (r : SignResponse) (i : IdentityCertificate) : Type 0 where
    pub leaf : leaf_of r ≡ some i.certificate
    pub cert : i.cert_pem ≡ cert_to_pem s i.certificate
    pub times : (i.not_before ≡ i.certificate.not_before) × (i.not_after ≡ i.certificate.not_after)
    -- The chain: the certificate of the CA, if the response has one, and all certificates of the
    -- response's chain that are not the leaf, in their order.
    pub apart :
        All
          (λ (c : Certificate). text_eq c.raw i.certificate.raw ≡ false)
          (others i.certificate r.cert_chain)
    pub chain :
        ((r.ca_pem ≡ none) × (i.chain_pem ≡ pem_texts (others i.certificate r.cert_chain)))
        ⊎ ((c : Certificate) × ((r.ca_pem ≡ some c)
              × (i.chain_pem ≡ pem_texts (c ∷ others i.certificate r.cert_chain))))
