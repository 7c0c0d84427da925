-- ===== src/Agent/Touched.antt =====
-- Which paths the operations of the agent write: the others keep their contents, and what the disk
-- answers is not changed.
use certplane.Base.{
  Bool, true, false, ◌≡◌, refl, ap, ◌∙◌, ◌⊎◌, inl, inr, Option, none, some, List, [], ◌∷◌, Result,
  ok, err, arith, Bool-cases,
}
use certplane.Base.Text.{Text, text_eq, elem, is_empty, trim_space}
use certplane.Base.Text.Laws.{text_eq_iff}
use certplane.Base.Dict.{insert, lookup-insert}
use certplane.Clock.{Time}
use certplane.Pki.{Bundle}
use certplane.Settings.Agent.{CertConfig}
use certplane.Agent.{
  write_failed, WriteOutcome, written, before_rename, after_rename, Disk, AgentError, outcome_of,
  write_file_atomic, and_write, write_to_disk, PrivateKey, Outside, save_key, saved_key, found_key,
  file_exists, ensure_ecdsa_private_key, check_existing, obtain_bundle, reloaded, install,
  with_existing, with_key, ensure_service_certificate,
}
use certplane.Agent.Install.{at}

abbrev pub Touches : List Text → Disk → Disk → Type 0
Touches ps d d' =
    (d' ≡ record d { files = d'.files }) × ((q : Text) → elem q ps ≡ false → at q d' ≡ at q d)

pub Touches-refl : (ps : List Text) (d : Disk) → Touches ps d d
Touches-refl ps d = (refl, λ q h. refl)

pub Touches-trans :
    (ps : List Text) (d d' d'' : Disk) → Touches ps d d' → Touches ps d' d'' → Touches ps d d''
Touches-trans ps d d' d'' (f, a) (g, b) =
    (g ∙ ap (λ (x : Disk). record x { files = d''.files }) f, λ q h. b q h ∙ a q h)

-- A path that is not among those of a list is none of them.
elem-apart :
    (p q : Text) (ps : List Text) → elem p ps ≡ true → elem q ps ≡ false → text_eq p q ≡ false
unfolding elem
elem-apart p q [] h k = cc
elem-apart p q (r ∷ ps) h k =
    ground (arith, elem-apart p q ps, text_eq_iff p r, text_eq_iff p q, text_eq_iff q r)

pub insert-Touches :
    (ps : List Text) (path text : Text) (d : Disk)
    → elem path ps ≡ true
    → Touches ps d (record d { files = insert path text d.files })
insert-Touches ps path text d h =
    (refl, λ q k. lookup-insert path q text d.files ∙ rw (elem-apart path q ps h k) refl)

outcome_of-Touches :
    (ps : List Text) (w : WriteOutcome) (path text : Text) (d : Disk)
    → elem path ps ≡ true
    → Touches ps d (outcome_of w path text d).1
unfolding outcome_of
outcome_of-Touches ps written path text d h = insert-Touches ps path text d h
outcome_of-Touches ps before_rename path text d h = Touches-refl ps d
outcome_of-Touches ps after_rename path text d h = insert-Touches ps path text d h

-- The disk with a text in a path.
abbrev pub with_file : Text → Text → Disk → Disk
with_file path text d = record d { files = insert path text d.files }

outcome_of_cases :
    (w : WriteOutcome) (path text : Text) (d : Disk)
    → (outcome_of w path text d ≡ (none, with_file path text d))
      ⊎ ((outcome_of w path text d ≡ (some write_failed, d))
          ⊎ (outcome_of w path text d ≡ (some write_failed, with_file path text d)))
unfolding outcome_of
outcome_of_cases written path text d = inl refl
outcome_of_cases before_rename path text d = inr (inl refl)
outcome_of_cases after_rename path text d = inr (inr refl)

-- A write is done, or it fails and the file is the old one or the new one.
pub write_file_atomic_cases :
    (path text : Text) (d : Disk)
    → (write_file_atomic path text d ≡ (none, with_file path text d))
      ⊎ ((write_file_atomic path text d ≡ (some write_failed, d))
          ⊎ (write_file_atomic path text d ≡ (some write_failed, with_file path text d)))
unfolding write_file_atomic
write_file_atomic_cases path text d = outcome_of_cases (d.writes path) path text d

pub write_file_atomic-Touches :
    (ps : List Text) (path text : Text) (d : Disk)
    → elem path ps ≡ true
    → Touches ps d (write_file_atomic path text d).1
unfolding write_file_atomic
write_file_atomic-Touches ps path text d h = outcome_of-Touches ps (d.writes path) path text d h

and_write-Touches :
    (ps : List Text) (d : Disk) (r : Option AgentError × Disk) (path text : Text)
    → elem path ps ≡ true
    → Touches ps d r.1
    → Touches ps d (and_write r path text).1
unfolding and_write
and_write-Touches ps d (some e, d') path text h t = t
and_write-Touches ps d (none, d') path text h t =
    Touches-trans ps d d' (write_file_atomic path text d').1 t
      (write_file_atomic-Touches ps path text d' h)

-- The paths that a certificate of the configuration is kept in.
abbrev pub paths : CertConfig → List Text
paths c = c.key ∷ c.cert ∷ c.chain ∷ c.full_chain ∷ []

-- All paths of a certificate are among those of a list.
pub record Among (ps : List Text) (c : CertConfig) : Type 0 where
  pub key : elem c.key ps ≡ true
  pub cert : elem c.cert ps ≡ true
  pub chain : elem c.chain ps ≡ true
  pub full_chain : elem c.full_chain ps ≡ true

pub paths-Among : (c : CertConfig) → Among (paths c) c
paths-Among c = record {
  key = unfold elem in ground (arith, text_eq_iff c.key c.key);
  cert = unfold elem in ground (arith, text_eq_iff c.cert c.cert);
  chain = unfold elem in ground (arith, text_eq_iff c.chain c.chain);
  full_chain = unfold elem in ground (arith, text_eq_iff c.full_chain c.full_chain);
}

module _ (o : Outside) (ps : List Text) where
  save_key-Touches :
      (key : Option PrivateKey) (path : Text) (d : Disk)
      → elem path ps ≡ true
      → Touches ps d (save_key o key path d).1
  unfolding save_key saved_key
  save_key-Touches none path d h = Touches-refl ps d
  save_key-Touches (some key) path d h =
      saved (write_file_atomic path key.pem d) (write_file_atomic-Touches ps path key.pem d h)
    where
      saved : (r : Option AgentError × Disk) → Touches ps d r.1 → Touches ps d (saved_key o key r).1
      saved (some e, d') t = t
      saved (none, d') t = t

  pub ensure_ecdsa_private_key-Touches :
      (path : Text) (d : Disk)
      → elem path ps ≡ true
      → Touches ps d (ensure_ecdsa_private_key o path d).1
  unfolding ensure_ecdsa_private_key found_key
  ensure_ecdsa_private_key-Touches path d h = found (file_exists path d)
    where
      found : (r : Result AgentError Bool) → Touches ps d (found_key o r path d).1
      found (err e) = Touches-refl ps d
      found (ok true) = Touches-refl ps d
      found (ok false) = save_key-Touches o.new_key path d h

  write_to_disk-Touches :
      (b : Bundle) (c : CertConfig) (d : Disk)
      → Among ps c
      → Touches ps d (write_to_disk b c.cert c.chain c.full_chain d).1
  unfolding write_to_disk
  write_to_disk-Touches b c d m =
      and_write-Touches ps d _ c.full_chain b.full_chain_pem m.full_chain (
        and_write-Touches ps d _ c.chain b.chain_pem m.chain
          (write_file_atomic-Touches ps c.cert b.cert_pem d m.cert))

  reloaded-Touches :
      (d : Disk) (c : CertConfig) (r : Option AgentError × Disk)
      → Touches ps d r.1
      → Touches ps d (reloaded o c r).1
  unfolding reloaded
  reloaded-Touches d c (some e, d') t = t
  reloaded-Touches d c (none, d') t = elim (Bool-cases (is_empty (trim_space c.reload_command))) [
    | inl e ↦ rw e t
    | inr e ↦ rw e t
  ]

  install-Touches :
      (c : CertConfig) (r : Result AgentError Bundle) (d : Disk)
      → Among ps c
      → Touches ps d (install o c r d).1
  unfolding install
  install-Touches c (err e) d m = Touches-refl ps d
  install-Touches c (ok b) d m = reloaded-Touches d c _ (write_to_disk-Touches b c d m)

  with_existing-Touches :
      (c : CertConfig) (key : PrivateKey) (r : Result AgentError Bool) (d : Disk)
      → Among ps c
      → Touches ps d (with_existing o c key r d).1
  unfolding with_existing
  with_existing-Touches c key (err e) d m = Touches-refl ps d
  with_existing-Touches c key (ok true) d m = Touches-refl ps d
  with_existing-Touches c key (ok false) d m = install-Touches c (obtain_bundle o c key) d m

  with_key-Touches :
      (now : Time) (c : CertConfig) (d : Disk) (r : Result AgentError PrivateKey × Disk)
      → Among ps c
      → Touches ps d r.1
      → Touches ps d (with_key o now c r).1
  unfolding with_key
  with_key-Touches now c d (err e, d') m t = t
  with_key-Touches now c d (ok key, d') m t =
      Touches-trans ps d d' _ t (with_existing-Touches c key (check_existing o now c key d') d' m)

  pub ensure_service_certificate-Touches :
      (now : Time) (c : CertConfig) (d : Disk)
      → Among ps c
      → Touches ps d (ensure_service_certificate o now c d).1
  unfolding ensure_service_certificate
  ensure_service_certificate-Touches now c d m =
      with_key-Touches now c d (ensure_ecdsa_private_key o c.key d) m
        (ensure_ecdsa_private_key-Touches c.key d m.key)
