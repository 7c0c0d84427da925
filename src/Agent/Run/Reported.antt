-- ===== src/Agent/Run/Reported.antt =====
-- A run that reports no error leaves a disk that the agent's check accepts; what a run touches.
use mathlib.Core.Path.{subst}
use certplane.Base.{
  false, ◌≡◌, refl, sym, ap, ◌∙◌, Option, none, some, List, [], ◌∷◌, ◌++◌, ok, arith, All, All-map,
}
use certplane.Base.Text.{Text, elem}
use certplane.Base.Text.Laws.{elem-append}
use certplane.Clock.{Time}
use certplane.Pki.Key.{KeyFormats}
use certplane.Settings.Agent.{CertConfig}
use certplane.Agent.{Disk, AgentError, Outside, ensure_service_certificate}
use certplane.Agent.Touched.{
  Touches, Touches-refl, Touches-trans, Among, paths, paths-Among,
  ensure_service_certificate-Touches,
}
use certplane.Agent.Check.{check_certificates}
use certplane.Agent.Run.{and_then, ensure_certificates}
use certplane.Agent.Run.ReadKeys.{KeysAgree, IsInOrder, check_certificate-IsInOrder}
use certplane.Agent.Run.InOrder.{ApartFiles, ensure_service_certificate-IsInOrder}

-- The paths of all certificates.
abbrev pub all_paths : List CertConfig → List Text
all_paths [] = []
all_paths (c ∷ cs) = paths c ++ all_paths cs

-- No certificate's key or certificate file is among the files of another.
abbrev pub Apart : List CertConfig → Type 0
Apart [] = Unit
Apart (c ∷ cs) =
    ApartFiles c
    × ((elem c.key (all_paths cs) ≡ false) × ((elem c.cert (all_paths cs) ≡ false) × Apart cs))

Among-append_left : (c : CertConfig) (ps qs : List Text) → Among ps c → Among (ps ++ qs) c
Among-append_left c ps qs m = record {
  key = elem-append c.key ps qs ∙ ground (arith, m.key);
  cert = elem-append c.cert ps qs ∙ ground (arith, m.cert);
  chain = elem-append c.chain ps qs ∙ ground (arith, m.chain);
  full_chain = elem-append c.full_chain ps qs ∙ ground (arith, m.full_chain);
}

Among-append_right : (c : CertConfig) (ps qs : List Text) → Among qs c → Among (ps ++ qs) c
Among-append_right c ps qs m = record {
  key = elem-append c.key ps qs ∙ ground (arith, m.key);
  cert = elem-append c.cert ps qs ∙ ground (arith, m.cert);
  chain = elem-append c.chain ps qs ∙ ground (arith, m.chain);
  full_chain = elem-append c.full_chain ps qs ∙ ground (arith, m.full_chain);
}

pub all_paths-Among : (cs : List CertConfig) → All (Among (all_paths cs)) cs
all_paths-Among [] = tt
all_paths-Among (c ∷ cs) = (
  Among-append_left c (paths c) (all_paths cs) (paths-Among c),
  All-map _ _ cs (λ x m. Among-append_right x (paths c) (all_paths cs) m) (all_paths-Among cs),
)

pub and_then-Touches :
    (ps : List Text) (d : Disk) (r : Option AgentError × Disk)
    (next : Disk → Option AgentError × Disk)
    → Touches ps d r.1
    → ((x : Disk) → Touches ps x (next x).1)
    → Touches ps d (and_then r next).1
unfolding and_then
and_then-Touches ps d (some e, d') next t n = t
and_then-Touches ps d (none, d') next t n = Touches-trans ps d d' (next d').1 t (n d')

pub and_then-none :
    (r : Option AgentError × Disk) (next : Disk → Option AgentError × Disk)
    → (and_then r next).0 ≡ none
    → (r.0 ≡ none) × (and_then r next ≡ next r.1)
unfolding and_then
and_then-none (some e, d) next h = absurd (cc h)
and_then-none (none, d) next h = (refl, refl)

pub ensure_certificates-Touches :
    (o : Outside) (now : Time) (ps : List Text) (cs : List CertConfig) (d : Disk)
    → All (Among ps) cs
    → Touches ps d (ensure_certificates o now cs d).1
unfolding ensure_certificates
ensure_certificates-Touches o now ps [] d m = Touches-refl ps d
ensure_certificates-Touches o now ps (c ∷ cs) d (m, ms) =
    and_then-Touches ps d (ensure_service_certificate o now c d) (ensure_certificates o now cs)
      (ensure_service_certificate-Touches o ps now c d m)
      (λ x. ensure_certificates-Touches o now ps cs x ms)

module _ (o : Outside) (f : KeyFormats) where
  -- What is in order stays in order when other files are written.
  pub IsInOrder-Touches :
      (c : CertConfig) (ps : List Text) (d d' : Disk)
      → elem c.key ps ≡ false
      → elem c.cert ps ≡ false
      → Touches ps d d'
      → IsInOrder o f c d
      → IsInOrder o f c d'
  IsInOrder-Touches c ps d d' hk hc (same, others) i = record {
    key_pem = i.key_pem;
    public = i.public;
    cert_pem = i.cert_pem;
    key_readable = (
      ap (λ (x : Disk). x.broken c.key) same ∙ i.key_readable.0,
      others c.key hk ∙ i.key_readable.1,
    );
    cert_readable = (
      ap (λ (x : Disk). x.broken c.cert) same ∙ i.cert_readable.0,
      others c.cert hc ∙ i.cert_readable.1,
    );
    key_parses = i.key_parses;
    cert_matches = i.cert_matches;
  }

  pub check_certificates-IsInOrder :
      (cs : List CertConfig) (d : Disk)
      → All (λ c. IsInOrder o f c d) cs
      → check_certificates o.x509 f cs d ≡ ok tt
  unfolding check_certificates
  check_certificates-IsInOrder [] d i = refl
  check_certificates-IsInOrder (c ∷ cs) d (i, is) =
      rw (check_certificate-IsInOrder o f c d i) (check_certificates-IsInOrder cs d is)

  pub ensure_certificates-IsInOrder :
      (k : KeysAgree o f) (now : Time) (cs : List CertConfig) (d : Disk)
      → Apart cs
      → (ensure_certificates o now cs d).0 ≡ none
      → All (λ c. IsInOrder o f c (ensure_certificates o now cs d).1) cs
  unfolding ensure_certificates
  ensure_certificates-IsInOrder k now [] d a h = tt
  ensure_certificates-IsInOrder k now (c ∷ cs) d (af, (hk, (hc, a))) h =
      let r = ensure_service_certificate o now c d in
      let (h1, same) = and_then-none r (ensure_certificates o now cs) h in
      let rest : (ensure_certificates o now cs r.1).0 ≡ none =
        ap (λ (x : Option AgentError × Disk). x.0) (sym same) ∙ h in
      subst (λ (x : Option AgentError × Disk). All (λ y. IsInOrder o f y x.1) (c ∷ cs)) (sym same)
        (
          IsInOrder-Touches c (all_paths cs) r.1 _ hk hc
              (ensure_certificates-Touches o now (all_paths cs) cs r.1 (all_paths-Among cs))
              (ensure_service_certificate-IsInOrder o f c af k now d h1),
          ensure_certificates-IsInOrder k now cs r.1 a rest,
        )
