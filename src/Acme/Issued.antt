-- ===== src/Acme/Issued.antt =====
-- What a certificate of the ACME issuer comes from.
use certplane.Base.{
  true, false, ◌≡◌, refl, sym, ap, ◌∙◌, inl, inr, none, some, ◌++◌, ok, Bool-cases, Option-cases,
  Result-cases, ok-injective,
}
use certplane.Base.Text.{Text, codes, is_empty, text_eq, to_lower}
use certplane.Pki.{Bundle, Certificate, CertificateRequest}
use certplane.Pki.Csr.{Crypto, parse_csr_pem}
use certplane.Pki.Cert.{X509, parse_certificate_pem}
use certplane.Pki.Serial.{serial_string}
use certplane.Secrets.{Provider}
use certplane.Secrets.Filled.{IsFilled}
use certplane.Broker.{IssueRequest}
use certplane.Acme.{
  Issuer, Lego, LegoClient, DnsProvider, cloudflare, Resource, new_client, cloudflare_provider,
  httpreq_provider, choose_provider, configure_dns_provider, bundle_of, issue,
}

module _ (lego : Lego) (crypto : Crypto) (x : X509) (i : Issuer) (req : IssueRequest) where
  -- A bundle `b` of the issuer: the challenge is DNS-01, the server of the configured directory has
  -- answered, to the account of the issuer, the request's signing
  -- request through a provider that is set up, with a certificate that can be parsed; the bundle holds
  -- it with its issuer's, and what it says of serial number and times is what the certificate says.
  pub record IsIssued (b : Bundle) : Type 0 where
    pub client : LegoClient
    pub directory : client.directory ≡ i.cfg.directory_url
    pub user : client.user ≡ i.user
    pub provider : DnsProvider
    pub csr : CertificateRequest
    pub resource : Resource
    pub cert : Certificate
    pub dns : text_eq req.acme_challenge (codes "dns-01") ≡ true
    pub configured : configure_dns_provider lego i client req ≡ ok provider
    pub parses_csr : parse_csr_pem crypto req.csr_pem ≡ ok csr
    pub obtained : lego.obtain client provider csr i.cfg.preferred_chain ≡ some (some resource)
    pub not_empty : is_empty b.cert_pem ≡ false
    pub parses : parse_certificate_pem x b.cert_pem ≡ ok cert
    pub chain : b.full_chain_pem ≡ b.cert_pem ++ b.chain_pem
    pub of_server :
        (b.cert_pem ≡ resource.certificate) × (b.chain_pem ≡ resource.issuer_certificate)
    pub serial : b.leaf_serial_number ≡ serial_string cert.serial_number
    pub times : (b.not_before ≡ cert.not_before) × (b.not_after ≡ cert.not_after)

  bundle_of-ok :
      (r : Resource) (b : Bundle)
      → bundle_of lego x r ≡ ok b
      → (is_empty r.certificate ≡ false)
        × ((cert : Certificate) × ((parse_certificate_pem x r.certificate ≡ ok cert)
              × (record {
                cert_pem = r.certificate;
                chain_pem = r.issuer_certificate;
                full_chain_pem = r.certificate ++ r.issuer_certificate;
                leaf_serial_number = serial_string cert.serial_number;
                not_before = cert.not_before;
                not_after = cert.not_after;
              }
                  ≡ b)))
  unfolding bundle_of
  bundle_of-ok r b h = elim (Bool-cases (is_empty r.certificate)) [
    | inl e ↦ absurd (cc (rw e at h))
    | inr e ↦ elim (Result-cases (parse_certificate_pem x r.certificate)) [
      | inr (w, p) ↦ absurd (cc (rw (e, p) at h))
      | inl (cert, p) ↦ (e, (cert, (p, ok-injective (rw (e, p) at h))))
    ]
  ]

  new_client-ok :
      (client : LegoClient)
      → new_client lego i ≡ ok client
      → record { directory = i.cfg.directory_url; user = i.user } ≡ client
  unfolding new_client
  new_client-ok client h =
      let made : LegoClient = record { directory = i.cfg.directory_url; user = i.user } in
      elim (Bool-cases (lego.makes_client made)) [
        | inl e ↦ ok-injective (rw e at h)
        | inr e ↦ absurd (cc (rw e at h))
      ]

  -- A bundle that the issuer hands out is one that the ACME server of the configured directory has
  -- given to the account of the issuer, for the request, under DNS-01 and through a DNS provider that was set up for this request, and agrees with its certificate.
  pub issue-IsIssued : (b : Bundle) → issue lego crypto x i req ≡ ok b → IsIssued b
  unfolding issue
  issue-IsIssued b h = elim (Bool-cases (text_eq req.acme_challenge (codes "dns-01"))) [
    | inr e ↦ absurd (cc (rw e at h))
    | inl e ↦ elim (Result-cases (new_client lego i)) [
      | inr (w, n) ↦ absurd (cc (rw (e, n) at h))
      | inl (client, n) ↦ elim (Result-cases (configure_dns_provider lego i client req)) [
        | inr (w, d) ↦ absurd (cc (rw (e, n, d) at h))
        | inl (provider, d) ↦ elim (Result-cases (parse_csr_pem crypto req.csr_pem)) [
          | inr (w, c) ↦ absurd (cc (rw (e, n, d, c) at h))
          | inl (csr, c) ↦
              elim (Option-cases (lego.obtain client provider csr i.cfg.preferred_chain)) [
                | inl o ↦ absurd (cc (rw (e, n, d, c, o) at h))
                | inr (none, o) ↦ absurd (cc (rw (e, n, d, c, o) at h))
                | inr (some r, o) ↦
                    let (filled, (cert, (p, same))) = bundle_of-ok r b (rw (e, n, d, c, o) at h) in
                    rw (← same) (record {
                      client = client;
                      directory =
                          ap (λ (k : LegoClient). k.directory) (sym (new_client-ok client n));
                      user = ap (λ (k : LegoClient). k.user) (sym (new_client-ok client n));
                      provider = provider;
                      csr = csr;
                      resource = r;
                      cert = cert;
                      dns = e;
                      configured = d;
                      parses_csr = c;
                      obtained = o;
                      not_empty = filled;
                      parses = p;
                      chain = refl;
                      of_server = (refl, refl);
                      serial = refl;
                      times = (refl, refl);
                    })
              ]
        ]
      ]
    ]
  ]

  configure-choose :
      (client : LegoClient) (provider : DnsProvider)
      → configure_dns_provider lego i client req ≡ ok provider
      → choose_provider lego i req ≡ ok provider
  unfolding configure_dns_provider
  configure-choose client provider h = elim (Result-cases (choose_provider lego i req)) [
    | inr (w, e) ↦ absurd (cc (rw e at h))
    | inl (p, e) ↦ elim (Bool-cases (lego.makes_provider p)) [
      | inr m ↦ absurd (cc (rw (e, m) at h))
      | inl m ↦ elim (Bool-cases (lego.takes_provider client p)) [
        | inr t ↦ absurd (cc (rw (e, m, t) at h))
        | inl t ↦ e ∙ ap ok (ok-injective (rw (e, m, t) at h))
      ]
    ]
  ]

  cloudflare-token :
      (get : Provider) (token : Text)
      → i.secrets ≡ some get
      → IsFilled get
      → cloudflare_provider lego i req ≡ ok (cloudflare token)
      → is_empty token ≡ false
  unfolding cloudflare_provider
  cloudflare-token get token s f h = elim (Bool-cases (is_empty req.acme_credentials_name)) [
    | inl e ↦ absurd (cc (rw (s, e) at h))
    | inr e ↦ elim (Result-cases (get req.acme_credentials_name)) [
      | inr (w, g) ↦ absurd (cc (rw (s, e, g) at h))
      | inl (t, g) ↦
          let same : t ≡ token = cc (rw (s, e, g) at h) in
          ap is_empty (sym same) ∙ f req.acme_credentials_name t g
    ]
  ]

  -- With a provider of secrets that never hands out an empty one, the DNS provider of Cloudflare is
  -- never set up with an empty token.
  pub configure_dns_provider-token :
      (client : LegoClient) (token : Text) (get : Provider)
      → i.secrets ≡ some get
      → IsFilled get
      → configure_dns_provider lego i client req ≡ ok (cloudflare token)
      → is_empty token ≡ false
  unfolding choose_provider
  configure_dns_provider-token client token get s f h =
      let chosen = configure-choose client (cloudflare token) h in
      elim (Bool-cases (text_eq (to_lower i.cfg.dns_provider) (codes "cloudflare"))) [
        | inl e ↦ cloudflare-token get token s f (rw e at chosen)
        | inr e ↦ elim (Bool-cases (text_eq (to_lower i.cfg.dns_provider) (codes "httpreq"))) [
          | inr n ↦ absurd (cc (rw (e, n) at chosen))
          | inl n ↦ elim (Result-cases (httpreq_provider lego i)) [
            | inr (w, p) ↦ absurd (cc (rw (e, n, p) at chosen))
            | inl (w, p) ↦ absurd (cc (rw (e, n, p) at chosen))
          ]
        ]
      ]
