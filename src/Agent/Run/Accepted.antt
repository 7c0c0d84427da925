-- ===== src/Agent/Run/Accepted.antt =====
-- A run that reports no error leaves a disk that the agent's check accepts.
use mathlib.Core.Path.{subst}
use certplane.Base.{
  false, ◌≡◌, refl, sym, ap, ◌∙◌, inl, inr, Option, none, [], ◌∷◌, Result, ok, err, arith, All,
}
use certplane.Base.Text.{Text, elem}
use certplane.Base.Text.Laws.{text_eq_iff}
use certplane.Clock.{Time}
use certplane.Pki.Key.{IsKeyFormats}
use certplane.Settings.Agent.{AgentConfig}
use certplane.Agent.{Disk, AgentError, Outside, is_there}
use certplane.Agent.Lock.{release_lock}
use certplane.Agent.Lock.Held.{lock_of, under_lock_cases, release_lock-Touches}
use certplane.Agent.Client.{BrokerClient}
use certplane.Agent.Identity.{renew_identity_if_needed}
use certplane.Agent.Identity.Renewed.{Renewed, renew_identity_if_needed-Renewed}
use certplane.Agent.Touched.{Touches, with_file}
use certplane.Agent.Check.{stat, check_certificates, check}
use certplane.Agent.Run.{
  Platform, outside, ensure_certificates, ready_client, with_client, run_locked, run,
}
use certplane.Agent.Run.Checked.{outside-KeysAgree}
use certplane.Agent.Run.Ready.{
  IsThere, IsThere-Touches, ApartRun, ready_client-ok, All-IsInOrder-Touches,
}
use certplane.Agent.Run.ReadKeys.{IsInOrder}
use certplane.Agent.Run.Reported.{
  all_paths, all_paths-Among, and_then-none, ensure_certificates-Touches,
  ensure_certificates-IsInOrder, check_certificates-IsInOrder,
}

module _ (p : Platform) (now : Time) (cfg : AgentConfig) where
  -- What the check looks at, for some client of the broker.
  abbrev Accepted : Disk → Type 0
  Accepted d =
      IsThere cfg.identity.key d
      × (IsThere cfg.identity.cert d
          × ((client : BrokerClient) × All (λ c. IsInOrder (outside p client) p.key_formats c d)
                cfg.certificates))

  check_certificates-Accepted :
      (client : BrokerClient) (d : Disk)
      → All (λ c. IsInOrder (outside p client) p.key_formats c d) cfg.certificates
      → check_certificates p.x509 p.key_formats cfg.certificates d ≡ ok tt
  unfolding outside
  check_certificates-Accepted client d is =
      check_certificates-IsInOrder (outside p client) p.key_formats cfg.certificates d is

  check-Accepted : (d : Disk) → Accepted d → check p.x509 p.key_formats cfg d ≡ ok tt
  unfolding check stat
  check-Accepted d ((kb, kt), ((cb, ct), (client, is))) =
      rw (kb, kt, cb, ct) (check_certificates-Accepted client d is)

  Renewed-IsThere :
      (o : Outside) (d : Disk) (r : Option AgentError × Disk)
      → Renewed o p.ca now cfg d r
      → IsThere cfg.identity.cert d
      → IsThere cfg.identity.cert r.1
  Renewed-IsThere o d r n (b, t) =
      let readable : r.1.broken cfg.identity.cert ≡ false =
        ap (λ (x : Disk). x.broken cfg.identity.cert) n.touches.0 ∙ b in
      elim n.cert [
        | inl same ↦ (readable, ap is_there same ∙ t)
        | inr (i, (v, new)) ↦ (readable, ap is_there new)
      ]

  module _ (l : IsKeyFormats p.key_formats) (lock_path : Text) (a : ApartRun lock_path cfg) where
    key_apart : elem cfg.identity.key (cfg.identity.cert ∷ []) ≡ false
    key_apart = unfold elem in ground (arith, a.identity_key_cert)

    client-Accepted :
        (client : BrokerClient) (d : Disk)
        → IsThere cfg.identity.cert d
        → IsThere cfg.identity.key d
        → (with_client p now cfg (ok client) d).0 ≡ none
        → Accepted (with_client p now cfg (ok client) d).1
    unfolding with_client
    client-Accepted client d c k h =
        let o = outside p client in
        let r = renew_identity_if_needed o p.ca now cfg d in
        let n = renew_identity_if_needed-Renewed o p.ca now cfg d in
        let rest = ensure_certificates o now cfg.certificates in
        let (_, same) = and_then-none r rest h in
        let done : (rest r.1).0 ≡ none =
          ap (λ (x : Option AgentError × Disk). x.0) (sym same) ∙ h in
        let t =
          ensure_certificates-Touches o now (all_paths cfg.certificates) cfg.certificates r.1
            (all_paths-Among cfg.certificates) in
        subst (λ (x : Option AgentError × Disk). Accepted x.1) (sym same)
          (
            IsThere-Touches cfg.identity.key (all_paths cfg.certificates) r.1 _ a.identity_key t (
                IsThere-Touches cfg.identity.key (cfg.identity.cert ∷ []) d r.1 key_apart n.touches
                  k),
            (
              IsThere-Touches cfg.identity.cert (all_paths cfg.certificates) r.1 _ a.identity_cert t
                  (Renewed-IsThere o d r n c),
              (
                client,
                ensure_certificates-IsInOrder o p.key_formats (outside-KeysAgree p client l) now
                    cfg.certificates r.1 a.certificates done,
              ),
            ),
          )

    with_client-Accepted :
        (r : Result AgentError BrokerClient) (d : Disk)
        → ready_client p cfg d ≡ r
        → (with_client p now cfg r d).0 ≡ none
        → Accepted (with_client p now cfg r d).1
    with_client-Accepted (err e) d same h = absurd (unfold with_client in cc h)
    with_client-Accepted (ok client) d same h =
        let (c, k) = ready_client-ok p cfg d client same in client-Accepted client d c k h

    run_locked-Accepted :
        (d : Disk) → (run_locked p now cfg d).0 ≡ none → Accepted (run_locked p now cfg d).1
    unfolding run_locked
    run_locked-Accepted d h = with_client-Accepted (ready_client p cfg d) d refl h

    released-Accepted : (d : Disk) → Accepted d → Accepted (release_lock (lock_of lock_path) d).1
    released-Accepted d (k, (c, (client, is))) =
        let t : Touches (lock_path ∷ []) d (release_lock (lock_of lock_path) d).1 =
          release_lock-Touches (lock_path ∷ []) lock_path d
            (unfold elem in ground (arith, text_eq_iff lock_path lock_path)) in
        (
          IsThere-Touches cfg.identity.key (lock_path ∷ []) d _
              (unfold elem in
                ground (
                  arith,
                  a.lock_identity,
                  text_eq_iff lock_path cfg.identity.key,
                  text_eq_iff cfg.identity.key lock_path,
                ))
              t k,
          (
            IsThere-Touches cfg.identity.cert (lock_path ∷ []) d _
                (unfold elem in
                  ground (
                    arith,
                    a.lock_identity,
                    text_eq_iff lock_path cfg.identity.cert,
                    text_eq_iff cfg.identity.cert lock_path,
                  ))
                t c,
            (
              client,
              All-IsInOrder-Touches (outside p client) p.key_formats lock_path d _ cfg.certificates
                  a.lock_certificates t is,
            ),
          ),
        )

    -- A run that reports no error leaves a disk that the agent's check accepts, if the lock, the
    -- identity and the files of the certificates are all apart, and PEM and PKCS #8 read the keys that
    -- they have written.
    pub check-run :
        (pid : Text) (d : Disk)
        → (run p lock_path pid now cfg d).0 ≡ none
        → check p.x509 p.key_formats cfg (run p lock_path pid now cfg d).1 ≡ ok tt
    unfolding run
    check-run pid d h = elim (under_lock_cases lock_path pid (run_locked p now cfg) d) [
      | inl (e, same) ↦ absurd (cc (rw same at h))
      | inr (free, same) ↦
          let d1 = with_file lock_path pid d in
          let done : (run_locked p now cfg d1).0 ≡ none = rw same at h in
          rw same (check-Accepted _ (released-Accepted _ (run_locked-Accepted d1 done)))
    ]
