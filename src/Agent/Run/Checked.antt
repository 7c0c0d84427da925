-- ===== src/Agent/Run/Checked.antt =====
-- The whole run: its lock, the files it touches, and its keys.
use certplane.Base.{
  true, ◌≡◌, sym, ap, ◌∙◌, inl, inr, some, List, [], ◌∷◌, Result, ok, err, arith, All, All-map,
  Result-cases, ok-injective,
}
use certplane.Base.Text.{Text, elem}
use certplane.Clock.{Time}
use certplane.Pki.Key.{
  KeyFormats, IsKeyFormats, KeyError, parse_private_key_pem, generate_ecdsa_key,
  marshal_private_key_pem, parse-marshal_private_key_pem,
}
use certplane.Settings.Agent.{AgentConfig}
use certplane.Agent.{Disk, AgentError, PrivateKey}
use certplane.Agent.Lock.Held.{Released, under_lock-Touches, under_lock-Released}
use certplane.Agent.Client.{BrokerClient}
use certplane.Agent.Identity.{renew_identity_if_needed}
use certplane.Agent.Identity.Renewed.{renew_identity_if_needed-Renewed}
use certplane.Agent.Touched.{Touches, Touches-refl, Among}
use certplane.Agent.Run.{
  Platform, public_part, saved_form, make_key, outside, ensure_certificates, ready_client,
  with_client, run_locked, run,
}
use certplane.Agent.Run.ReadKeys.{KeysAgree}
use certplane.Agent.Run.Reported.{
  all_paths, all_paths-Among, and_then-Touches, ensure_certificates-Touches,
}

public_part-some :
    (r : Result KeyError Text) (public : Text) → public_part r ≡ some public → r ≡ ok public
unfolding public_part
public_part-some (err e) public h = absurd (cc h)
public_part-some (ok x) public h = cc h

saved_form-some :
    (r : Result KeyError PrivateKey) (key : PrivateKey) → saved_form r ≡ some key → r ≡ ok key
unfolding saved_form
saved_form-some (err e) key h = absurd (cc h)
saved_form-some (ok x) key h = cc h

make_key-ok :
    (f : KeyFormats) (key : PrivateKey)
    → IsKeyFormats f
    → make_key f ≡ ok key
    → parse_private_key_pem f key.pem ≡ ok key.public
unfolding make_key
make_key-ok f key l h = elim (Result-cases (generate_ecdsa_key f)) [
  | inr (x, e) ↦ absurd (cc (rw e at h))
  | inl (k, e) ↦ elim (Result-cases (marshal_private_key_pem f k)) [
    | inr (x, m) ↦ absurd (cc (rw (e, m) at h))
    | inl (pem, m) ↦
        let same : record { pem = pem; public = k.public } ≡ key = ok-injective (rw (e, m) at h) in
        ap (λ (x : PrivateKey). parse_private_key_pem f x.pem) (sym same)
        ∙ parse-marshal_private_key_pem f l k pem e m
        ∙ ap (λ (x : PrivateKey). ok x.public) same
  ]
]

-- The keys of a run are those that the check reads.
pub outside-KeysAgree :
    (p : Platform) (client : BrokerClient)
    → IsKeyFormats p.key_formats
    → KeysAgree (outside p client) p.key_formats
unfolding outside
outside-KeysAgree p client l = record {
  same = λ pem public h. public_part-some (parse_private_key_pem p.key_formats pem) public h;
  new_key_read =
      λ key h. make_key-ok p.key_formats key l (saved_form-some (make_key p.key_formats) key h);
}

module _ (p : Platform) (now : Time) (cfg : AgentConfig) where
  -- The files that a run writes, but for the lock.
  abbrev pub run_paths : List Text
  run_paths = cfg.identity.cert ∷ all_paths cfg.certificates

  behind : (q : Text) → elem q (all_paths cfg.certificates) ≡ true → elem q run_paths ≡ true
  unfolding elem
  behind q h = ground arith

  wider : (d d' : Disk) → Touches (cfg.identity.cert ∷ []) d d' → Touches run_paths d d'
  unfolding elem
  wider d d' (same, others) = (same, λ q h. others q (ground arith))

  certificates_Among : All (Among run_paths) cfg.certificates
  certificates_Among =
      All-map _ _ cfg.certificates
        (λ c m. record {
          key = behind c.key m.key;
          cert = behind c.cert m.cert;
          chain = behind c.chain m.chain;
          full_chain = behind c.full_chain m.full_chain;
        })
        (all_paths-Among cfg.certificates)

  with_client-Touches :
      (r : Result AgentError BrokerClient) (d : Disk)
      → Touches run_paths d (with_client p now cfg r d).1
  unfolding with_client
  with_client-Touches (err e) d = Touches-refl run_paths d
  with_client-Touches (ok client) d =
      let o = outside p client in
      and_then-Touches run_paths d (renew_identity_if_needed o p.ca now cfg d)
        (ensure_certificates o now cfg.certificates)
        (wider d _ (renew_identity_if_needed-Renewed o p.ca now cfg d).touches)
        (λ x. ensure_certificates-Touches o now run_paths cfg.certificates x certificates_Among)

  pub run_locked-Touches : (d : Disk) → Touches run_paths d (run_locked p now cfg d).1
  unfolding run_locked
  run_locked-Touches d = with_client-Touches (ready_client p cfg d) d

  -- A run either cannot take the lock, reports that and leaves the disk as it was; or the lock was
  -- free, and it is free again behind the run, whatever fails in it, if its file can be removed. It
  -- writes no files but the lock, the certificate of the identity and those of the certificates.
  pub run-Released :
      (lock_path pid : Text) (d : Disk)
      → Released lock_path d (run p lock_path pid now cfg d)
        × Touches (lock_path ∷ run_paths) d (run p lock_path pid now cfg d).1
  unfolding run
  run-Released lock_path pid d = (
    under_lock-Released lock_path pid (run_locked p now cfg) run_paths run_locked-Touches d,
    under_lock-Touches lock_path pid (run_locked p now cfg) run_paths run_locked-Touches d,
  )
