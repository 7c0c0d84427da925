-- ===== src/Tests/RunTests.antt =====
-- internal/agent: a run, an enrollment and a renewal, and the theorems at them.
use certplane.Base.{◌≡◌, refl, none, ◌∷◌, ok}
use certplane.Base.Text.{
  codes, text_eq, text_ltb, elem, trim_space, trim_suffix, to_lower, contains_any, contains_text,
  has_prefix, has_suffix, has_code, count_code,
}
use certplane.Base.Text.Split.{split}
use certplane.Base.Sort.{sort}
use certplane.Base.Dict.{lookup, insert, delete}
use certplane.Clock.{until, sub}
use certplane.Agent.{
  file_exists, read_file, ensure_service_certificate, ensure_ecdsa_private_key, write_file_atomic,
  write_to_disk, check_existing, obtain_bundle,
}
use certplane.Agent.Lock.{acquire_lock, under_lock, release_lock, remove_file}
use certplane.Dnsname.{canonical_list, equal_set, same_items}
use certplane.Pki.Csr.{generate_service_csr, create_csr}
use certplane.Pki.Cert.{
  parse_certificate_pem, certificate_matches_private_key, certificate_has_exact_dns_names,
  expires_within, is_expired,
}
use certplane.Agent.Touched.{Touches}
use certplane.Agent.Lock.Held.{Released}
use certplane.Agent.Client.{decode_response, issue, new_broker_client}
use certplane.Agent.Identity.{enroll_locked, read_identity, renew_identity_if_needed}
use certplane.Agent.Identity.Enrolled.{ApartIdentity, Enrolled, enroll_locked-Enrolled}
use certplane.Agent.Identity.Renewed.{Renewed, renew_identity_if_needed-Renewed}
use certplane.Agent.Check.{check}
use certplane.Agent.Run.{outside, make_key, ready_client, ensure_certificates, run_locked, run}
use certplane.Agent.Run.Checked.{run_paths, run-Released}
use certplane.Agent.Run.Ready.{ApartRun}
use certplane.Agent.Run.Accepted.{check-run}
use certplane.Pki.Key.{generate_ecdsa_key, marshal_private_key_pem, parse_private_key_pem}
use certplane.Tests.DiskData.{formats-IsKeyFormats}
use certplane.Tests.Data.{today}
use certplane.Tests.AgentData.{platform, config, service, enrolled, fresh}
use certplane.Tests.LockTests.{lock_path}

config-ApartIdentity : ApartIdentity config
unfolding text_eq
config-ApartIdentity = record { key_cert = refl; key_token = refl; cert_token = refl }

enroll_locked-Enrolled_example :
    Enrolled
      (outside platform service)
      platform.ca
      config
      fresh
      (enroll_locked (outside platform service) platform.ca config fresh)
enroll_locked-Enrolled_example =
    enroll_locked-Enrolled (outside platform service) platform.ca config config-ApartIdentity fresh

renew_identity_if_needed-Renewed_example :
    Renewed
      (outside platform service)
      platform.ca
      today
      config
      enrolled
      (renew_identity_if_needed (outside platform service) platform.ca today config enrolled)
renew_identity_if_needed-Renewed_example =
    renew_identity_if_needed-Renewed (outside platform service) platform.ca today config enrolled

run-Released_example :
    Released lock_path enrolled (run platform lock_path (codes "1") today config enrolled)
    × Touches
        (lock_path ∷ run_paths platform today config)
        enrolled
        (run platform lock_path (codes "1") today config enrolled).1
run-Released_example = run-Released platform today config lock_path (codes "1") enrolled

config-ApartRun : ApartRun lock_path config
unfolding elem text_eq
config-ApartRun = record {
  certificates = (
    record {
      cert_key = refl;
      chain_key = refl;
      full_key = refl;
      chain_cert = refl;
      full_cert = refl;
    },
    (refl, (refl, tt)),
  );
  lock_identity = refl;
  lock_certificates = refl;
  identity_key_cert = refl;
  identity_key = refl;
  identity_cert = refl;
}

without_error : (run platform lock_path (codes "1") today config enrolled).0 ≡ none
unfolding run under_lock acquire_lock release_lock remove_file run_locked ready_client
    new_broker_client file_exists read_file renew_identity_if_needed read_identity is_expired
    expires_within until sub ensure_certificates ensure_service_certificate ensure_ecdsa_private_key
    make_key generate_ecdsa_key marshal_private_key_pem parse_private_key_pem write_file_atomic
    write_to_disk check_existing obtain_bundle outside generate_service_csr create_csr issue
    decode_response parse_certificate_pem certificate_matches_private_key
    certificate_has_exact_dns_names canonical_list equal_set same_items elem sort text_eq text_ltb
    trim_space trim_suffix to_lower contains_any contains_text has_prefix has_suffix has_code
    count_code split lookup insert delete
without_error = refl

check-run_example :
    check platform.x509 platform.key_formats config
      (run platform lock_path (codes "1") today config enrolled).1
    ≡ ok tt
check-run_example =
    check-run platform today config formats-IsKeyFormats lock_path config-ApartRun (codes "1")
      enrolled without_error
