-- ===== src/Agent/Run/Ready.antt =====
-- What a run finds on the disk before it starts, and what keeps it there.
use certplane.Base.{
  true, false, ◌≡◌, sym, ap, ◌∙◌, inl, inr, List, [], ◌∷◌, ok, arith, All, Result-cases,
}
use certplane.Base.Text.{Text, text_eq, elem}
use certplane.Base.Text.Laws.{text_eq_iff, elem-append}
use certplane.Pki.Key.{KeyFormats}
use certplane.Settings.Agent.{AgentConfig, CertConfig}
use certplane.Agent.{Disk, Outside, is_there, file_exists, read_file}
use certplane.Agent.Install.{at}
use certplane.Agent.Client.{BrokerClient, new_broker_client}
use certplane.Agent.Touched.{paths, Touches}
use certplane.Agent.Run.{Platform, ready_client}
use certplane.Agent.Run.ReadKeys.{IsInOrder, read_file-ok}
use certplane.Agent.Run.Reported.{Apart, all_paths, IsInOrder-Touches}

-- A file that `os.Stat` finds.
abbrev pub IsThere : Text → Disk → Type 0
IsThere path d = (d.broken path ≡ false) × (is_there (at path d) ≡ true)

pub IsThere-Touches :
    (path : Text) (ps : List Text) (d d' : Disk)
    → elem path ps ≡ false
    → Touches ps d d'
    → IsThere path d
    → IsThere path d'
IsThere-Touches path ps d d' h (same, others) (b, t) =
    (ap (λ (x : Disk). x.broken path) same ∙ b, ap is_there (others path h) ∙ t)

-- The files that a run must find apart: the lock, the identity and the certificates.
pub record ApartRun (lock_path : Text) (cfg : AgentConfig) : Type 0 where
  pub certificates : Apart cfg.certificates
  pub lock_identity : elem lock_path (cfg.identity.key ∷ cfg.identity.cert ∷ []) ≡ false
  pub lock_certificates : elem lock_path (all_paths cfg.certificates) ≡ false
  pub identity_key_cert : text_eq cfg.identity.key cfg.identity.cert ≡ false
  pub identity_key : elem cfg.identity.key (all_paths cfg.certificates) ≡ false
  pub identity_cert : elem cfg.identity.cert (all_paths cfg.certificates) ≡ false

pub ready_client-ok :
    (p : Platform) (cfg : AgentConfig) (d : Disk) (client : BrokerClient)
    → ready_client p cfg d ≡ ok client
    → IsThere cfg.identity.cert d × IsThere cfg.identity.key d
unfolding ready_client new_broker_client
ready_client-ok p cfg d client h = elim (Result-cases (file_exists cfg.identity.cert d)) [
  | inr (x, e) ↦ absurd (cc (rw e at h))
  | inl (false, e) ↦ absurd (cc (rw e at h))
  | inl (true, e) ↦ elim (Result-cases (read_file cfg.identity.cert d)) [
    | inr (x, c) ↦ absurd (cc (rw (e, c) at h))
    | inl (cert_pem, c) ↦ elim (Result-cases (read_file cfg.identity.key d)) [
      | inr (x, k) ↦ absurd (cc (rw (e, c, k) at h))
      | inl (key_pem, k) ↦
          let (cb, ca) = read_file-ok cfg.identity.cert cert_pem d c in
          let (kb, ka) = read_file-ok cfg.identity.key key_pem d k in
          ((cb, ap is_there ca), (kb, ap is_there ka))
    ]
  ]
]

-- Certificates in order stay in order when a file is written that is none of theirs.
pub All-IsInOrder-Touches :
    (o : Outside) (f : KeyFormats) (q : Text) (d d' : Disk) (cs : List CertConfig)
    → elem q (all_paths cs) ≡ false
    → Touches (q ∷ []) d d'
    → All (λ c. IsInOrder o f c d) cs
    → All (λ c. IsInOrder o f c d') cs
All-IsInOrder-Touches o f q d d' [] h t is = tt
All-IsInOrder-Touches o f q d d' (c ∷ cs) h t (i, is) =
    let h' = sym (elem-append q (paths c) (all_paths cs)) ∙ h in
    (
      IsInOrder-Touches o f c (q ∷ []) d d'
          (unfold elem in ground (arith, h', text_eq_iff q c.key, text_eq_iff c.key q))
          (unfold elem in ground (arith, h', text_eq_iff q c.cert, text_eq_iff c.cert q)) t i,
      All-IsInOrder-Touches o f q d d' cs (unfold elem in ground (arith, h')) t is,
    )
