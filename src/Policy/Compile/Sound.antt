-- ===== src/Policy/Compile/Sound.antt =====
-- What a policy that compiles guarantees, and what authorization by it can answer.
use certplane.Base.{◌≡◌, ◌≢◌, inl, inr, Option, none, some, [], ok, arith, Bool-cases, Option-cases}
use certplane.Base.Text.{Text}
use certplane.Base.Dict.{lookup, Entries, Entries-nil}
use certplane.Clock.{Time}
use certplane.Pki.{CertificateRequest}
use certplane.Policy.{current_version, Config, CompiledPolicy, allows_profile}
use certplane.Policy.Hash.{Digest, sorted_map_keys}
use certplane.Policy.Compile.{compile, compile_profiles, compile_hosts, HostMaps}
use certplane.Policy.Compile.Profiles.{IsSoundProfile, compile_profiles_sound}
use certplane.Policy.Compile.Hosts.{IsSoundHost, compile_hosts_sound}
use certplane.Policy.Compile.Identities.{Agree, compile_hosts-Agree}
use certplane.Policy.Authorize.{authorize, AuthorizeError}

pub record IsSound (p : CompiledPolicy) : Type 0 where
  pub right_version : p.version ≡ current_version
  pub profiles : Entries IsSoundProfile p.profiles
  pub hosts : Entries (IsSoundHost p.profiles) p.hosts_by_identity
  pub maps : Agree (record { by_name = p.hosts_by_name; by_identity = p.hosts_by_identity })

abbrev no_maps : HostMaps
no_maps = record { by_name = []; by_identity = [] }

no_maps-Agree : Agree no_maps
no_maps-Agree = record {
  listed = λ k h e. unfold lookup in cc;
  apart = λ j k g h e f s. unfold lookup in cc;
}

module _ (d : Digest) where
  record Steps (now : Time) (cfg : Config) (p : CompiledPolicy) : Type 0 where
    version_run : p.version ≡ current_version
    profiles_run : compile_profiles d (sorted_map_keys cfg.profiles) cfg.profiles [] ≡ ok p.profiles
    hosts_run :
        compile_hosts (sorted_map_keys cfg.hosts) cfg.hosts p.profiles no_maps
        ≡ ok (record { by_name = p.hosts_by_name; by_identity = p.hosts_by_identity })

  steps :
      (now : Time) (cfg : Config) {p : CompiledPolicy} → compile d now cfg ≡ ok p → Steps now cfg p
  unfolding compile
  steps now cfg h = record {
    version_run = ground arith;
    profiles_run = ground arith;
    hosts_run = ground arith;
  }

  -- A policy that compiles is sound: it has the current version, each profile has canonical names of
  -- its type, the DNS challenge, whichever type it is, and a positive renewal time, each host stands under its identity and
  -- may use existing profiles only, and no two hosts have one identity.
  pub compile-IsSound :
      (now : Time) (cfg : Config) {p : CompiledPolicy} → compile d now cfg ≡ ok p → IsSound p
  compile-IsSound now cfg {p} h =
      let s = steps now cfg h in
      record {
        right_version = s.version_run;
        profiles =
            compile_profiles_sound d (sorted_map_keys cfg.profiles) cfg.profiles []
              (Entries-nil IsSoundProfile) s.profiles_run;
        hosts =
            compile_hosts_sound p.profiles (sorted_map_keys cfg.hosts) cfg.hosts no_maps
              (Entries-nil (IsSoundHost p.profiles)) s.hosts_run;
        maps =
            compile_hosts-Agree (sorted_map_keys cfg.hosts) cfg.hosts p.profiles no_maps
              no_maps-Agree s.hosts_run;
      }

-- By a sound policy a request is never refused for a profile that the policy lacks: a host may use
-- existing profiles only.
pub authorize-known_profile :
    (p : CompiledPolicy) (identity name : Text) (csr : Option CertificateRequest)
    → IsSound p
    → (authorize p identity name csr).error ≢ some AuthorizeError.unknown_profile
unfolding authorize
authorize-known_profile p identity name none s h = cc
authorize-known_profile p identity name (some csr) s h =
    elim (Option-cases (lookup identity p.hosts_by_identity)) [
      | inl missing ↦ ground arith
      | inr (host, found) ↦ elim (Bool-cases (allows_profile host name)) [
        | inr refused ↦ ground arith
        | inl allowed ↦
            let (pr, exists) =
              (s.hosts identity host found).refers name (unfold allows_profile in allowed) in
            ground arith
      ]
    ]
