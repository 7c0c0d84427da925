-- ===== src/Tests/AgentTests.antt =====
-- internal/agent: a run of the agent, and its theorems at concrete data.
use certplane.Base.{◌+◌, ◌*◌, ◌≡◌, refl, true, false, none, some, [], ◌∷◌, ok, if◌then◌else◌}
use certplane.Base.Int.{pos}
use certplane.Base.Text.{
  codes, text_eq, text_ltb, elem, trim_space, trim_suffix, to_lower, contains_any, contains_text,
  has_prefix, has_suffix, has_code, count_code,
}
use certplane.Base.Text.Split.{split}
use certplane.Base.Sort.{sort}
use certplane.Base.Dict.{lookup}
use certplane.Clock.{hour, until, sub}
use certplane.Dnsname.{canonical_list, equal_set, same_items}
use certplane.Pki.{Certificate}
use certplane.Pki.Csr.{generate_service_csr, create_csr}
use certplane.Pki.Cert.{
  parse_certificate_pem, certificate_matches_private_key, certificate_has_exact_dns_names,
  expires_within,
}
use certplane.Settings.Agent.{CertConfig}
use certplane.Agent.{
  written, before_rename, Disk, PrivateKey, Outside, write_failed, check_existing, file_exists,
  obtain_bundle, ensure_service_certificate,
}
use certplane.Agent.Install.{at, IsVerified, Apart, Kept, ensure_service_certificate-Kept}
use certplane.Agent.Stale.{HasKey, half_written, ensure_service_certificate-stale}
use certplane.Tests.Data.{crypto, bundle, web, today, client, name_a}

abbrev certificate : CertConfig
certificate = record {
  name = web;
  profile = web;
  dns_names = codes "A.example.org" ∷ [];
  key = codes "web.key";
  cert = codes "web.crt";
  chain = codes "chain.pem";
  full_chain = codes "fullchain.pem";
  reload_command = [];
  reload_timeout = pos 0;
  renew_before = pos (720 * hour);
}

abbrev leaf : Certificate
leaf = record client {
  dns_names = name_a ∷ [];
  public_key = codes "pub";
  not_after = today + 2160 * hour;
}

abbrev key : PrivateKey
key = record { pem = codes "key"; public = codes "pub" }

abbrev outside : Outside
outside = record {
  crypto = λ k. crypto;
  x509 = record {
    pem_decode = λ t. some (record { type = codes "CERTIFICATE"; bytes = t });
    parse_certificate = λ t. some leaf;
    marshal_public_key = λ k. some k;
  };
  parse_key = λ t. some (codes "pub");
  new_key = some key;
  issue = λ profile csr. ok bundle;
  run_reload = λ t. true;
}

-- The chain cannot be written.
abbrev disk : Disk
disk = record {
  files = (codes "web.key", codes "key") ∷ (codes "chain.pem", codes "old chain") ∷ [];
  broken = λ path. false;
  writes = λ path. if text_eq path (codes "chain.pem") then before_rename else written;
  mkdir_fails = λ path. false;
  create_fails = λ path. false;
  close_fails = λ path. false;
  remove_fails = λ path. false;
}

certificate-Apart : Apart certificate
unfolding text_eq
certificate-Apart = (refl, refl, refl)

ensure_service_certificate-Kept_example :
    Kept outside certificate disk disk (ensure_service_certificate outside today certificate disk).1
ensure_service_certificate-Kept_example =
    ensure_service_certificate-Kept outside today certificate disk certificate-Apart

disk-HasKey : HasKey outside certificate key disk
unfolding lookup text_eq
disk-HasKey = record {
  key_readable = refl;
  cert_readable = refl;
  key_there = refl;
  key_parses = refl;
}

due_run : check_existing outside today certificate key disk ≡ ok false
unfolding check_existing file_exists lookup text_eq
due_run = refl

names_run : certificate_has_exact_dns_names leaf certificate.dns_names ≡ ok tt
unfolding certificate_has_exact_dns_names canonical_list equal_set same_items elem sort text_eq
    text_ltb trim_space trim_suffix to_lower contains_any contains_text has_prefix has_suffix
    has_code count_code split
names_run = refl

obtain_run : obtain_bundle outside certificate key ≡ ok bundle
unfolding obtain_bundle generate_service_csr create_csr parse_certificate_pem
    certificate_matches_private_key certificate_has_exact_dns_names canonical_list equal_set
    same_items elem sort text_eq text_ltb trim_space trim_suffix to_lower contains_any contains_text
    has_prefix has_suffix has_code count_code split
obtain_run = refl

bundle-IsVerified : IsVerified outside certificate key bundle
unfolding parse_certificate_pem certificate_matches_private_key text_eq
bundle-IsVerified = record { cert = leaf; parses = refl; matches = refl; exact = names_run }

fresh_run :
    expires_within (today + 24 * hour) bundle-IsVerified.cert certificate.renew_before ≡ false
unfolding expires_within until sub bundle-IsVerified
fresh_run = refl

written_run : disk.writes certificate.cert ≡ written
unfolding text_eq
written_run = refl

failed_run : disk.writes certificate.chain ≡ before_rename
unfolding text_eq
failed_run = refl

cert_apart : text_eq certificate.cert certificate.key ≡ false
unfolding text_eq
cert_apart = refl

chain_apart : text_eq certificate.cert certificate.chain ≡ false
unfolding text_eq
chain_apart = refl

-- A day later the disk takes every write.
ensure_service_certificate-stale_example :
    (ensure_service_certificate outside today certificate disk
      ≡ (some write_failed, half_written outside certificate key bundle disk))
    × ((at certificate.chain (half_written outside certificate key bundle disk)
          ≡ at certificate.chain disk)
        × (ensure_service_certificate outside
              (today + 24 * hour)
              certificate
              (record (half_written outside certificate key bundle disk) {
                writes = λ path. written;
              })
            ≡ (
              none,
              record (half_written outside certificate key bundle disk) {
                writes = λ path. written;
              },
            )))
ensure_service_certificate-stale_example =
    ensure_service_certificate-stale outside certificate key today (today + 24 * hour) disk bundle
      (λ path. written) disk-HasKey cert_apart chain_apart due_run obtain_run written_run failed_run
      bundle-IsVerified fresh_run
