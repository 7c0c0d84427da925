-- ===== src/Settings/Agent/Usable.antt =====
-- What a valid configuration gives the agent.
use certplane.Base.{
  ℕ, suc, Bool, true, false, ◌||◌, ◌≡◌, refl, sym, ap, ◌∙◌, inl, inr, List, [], ◌∷◌, map, ok, arith,
  All, length, ◌==◌, Bool-cases, Result-cases,
}
use certplane.Base.Text.{Text, is_empty, text_eq, elem}
use certplane.Base.Text.Laws.{text_eq_iff, elem_self}
use certplane.Base.Sort.{IsDistinct}
use certplane.Dnsname.{canonical_list}
use certplane.Settings.{not_positive, check-nil, check-last, ++-nil}
use certplane.Settings.Logging.{validate_logging}
use certplane.Settings.Agent.{
  Label, CertConfig, AgentConfig, label_of, validate_dns_names, validate_certificate, note_name,
  validate_certificates, validate_agent, logging_errors,
}

-- A certificate that the agent can ask for: it has a name, a profile and at least one DNS name, its
-- DNS names have a canonical form, its files are there and the key is not the certificate, it is renewed
-- in time, and a reload command has a positive time limit.
pub record IsUsable (clean : Text → Text) (c : CertConfig) : Type 0 where
  pub has_name : is_empty c.name ≡ false
  pub has_profile : is_empty c.profile ≡ false
  pub has_names : (length c.dns_names == 0) ≡ false
  pub names : List Text
  pub names_run : canonical_list c.dns_names ≡ ok names
  pub has_files :
      (is_empty c.key || is_empty c.cert || is_empty c.chain || is_empty c.full_chain) ≡ false
  pub other_files : text_eq (clean c.key) (clean c.cert) ≡ false
  pub renews : not_positive c.renew_before ≡ false
  pub reloads : is_empty c.reload_command ≡ false → not_positive c.reload_timeout ≡ false

validate_dns_names-nil :
    (label : Label) (ns : List Text)
    → validate_dns_names label ns ≡ []
    → ((length ns == 0) ≡ false) × ((names : List Text) × (canonical_list ns ≡ ok names))
unfolding validate_dns_names
validate_dns_names-nil label [] = λ h. cc
validate_dns_names-nil label (n ∷ ns) = elim (Result-cases (canonical_list (n ∷ ns))) [
  | inl (names, e) ↦ λ h. (ground arith, (names, e))
  | inr (x, e) ↦ rw (e, validate_dns_names) (λ h. cc)
]

abbrev pub name_of : CertConfig → Text
name_of c = c.name

module _ (parses : Text → Bool) (clean : Text → Text) where
  validate_certificate-nil :
      (i : ℕ) (seen : List Text) (c : CertConfig)
      → validate_certificate parses clean i seen c ≡ []
      → IsUsable clean c × (elem c.name seen ≡ false)
  unfolding validate_certificate
  validate_certificate-nil i seen c h =
      let label = label_of parses clean i c.name in
      let (h1, x1) = ++-nil _ _ h in
      let x2 = check-nil _ _ x1 in
      let (h2, r) = check-last _ _ _ h1 in
      let (h3, o) = check-last _ _ _ h2 in
      let (h4, f) = check-last _ _ _ h3 in
      let (h5, d) = ++-nil _ (validate_dns_names label c.dns_names) h4 in
      let (some_name, (names, canonical)) = validate_dns_names-nil label c.dns_names d in
      let (h6, p) = check-last _ _ _ h5 in
      let (h7, b) = check-last _ _ _ h6 in
      let a = check-nil _ _ h7 in
      (
        record {
          has_name = a;
          has_profile = p;
          has_names = some_name;
          names = names;
          names_run = canonical;
          has_files = f;
          other_files = ground arith;
          renews = r;
          reloads = λ given. ground (arith, given, x2);
        },
        ground arith,
      )

  -- The names are distinct, and none of them is among those seen before.
  abbrev Fresh : List Text → List CertConfig → Type 0
  Fresh seen cs = (n : Text) → elem n seen ≡ true → elem n (map name_of cs) ≡ false

  validate_certificates-nil :
      (cs : List CertConfig) (i : ℕ) (seen : List Text)
      → validate_certificates parses clean cs i seen ≡ []
      → All (IsUsable clean) cs × (IsDistinct (map name_of cs) × Fresh seen cs)
  unfolding validate_certificates elem
  validate_certificates-nil [] i seen h = (tt, (tt, λ n e. refl))
  validate_certificates-nil (c ∷ cs) i seen h =
      let (a, rest) = ++-nil (validate_certificate parses clean i seen c) _ h in
      let (usable, new) = validate_certificate-nil i seen c a in
      let (all, (distinct, fresh)) =
        validate_certificates-nil cs (suc i) (note_name parses clean c.name seen) rest in
      let fresh' : (n : Text) → elem n (c.name ∷ seen) ≡ true → elem n (map name_of cs) ≡ false =
        λ n e. fresh n (rw usable.has_name e) in
      (
        (usable, all),
        (
          (fresh' c.name (elem_self c.name seen), distinct),
          λ n e. elim (Bool-cases (text_eq n c.name)) [
            | inl same ↦
                let here : elem c.name seen ≡ true =
                  ap (λ x. elem x seen) (sym ((text_eq_iff n c.name).0 same)) ∙ e in
                absurd (ground (arith, here, new))
            | inr other ↦ rw other (fresh' n (rw (other, elem) e))
          ],
        ),
      )

  -- A valid configuration has at least one certificate, all of them are usable, and no two have one
  -- name.
  pub validate_agent-IsUsable :
      (c : AgentConfig)
      → validate_agent parses clean c ≡ []
      → ((length c.certificates == 0) ≡ false)
        × (All (IsUsable clean) c.certificates × IsDistinct (map name_of c.certificates))
  unfolding validate_agent
  validate_agent-IsUsable c h =
      let (h1, l) = ++-nil _ (logging_errors (validate_logging c.logging)) h in
      let (h2, z) = ++-nil _ (validate_certificates parses clean c.certificates 0 []) h1 in
      let (h3, some_certificate) = check-last _ _ _ h2 in
      let (all, (distinct, fresh)) = validate_certificates-nil c.certificates 0 [] z in
      (some_certificate, (all, distinct))
