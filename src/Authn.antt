-- ===== src/Authn.antt =====
-- internal/broker/authn/mtls.go: the identity of an agent is the common name of the first client
-- certificate of its TLS connection.
pub mod Identity
use certplane.Base.{
  Bool, true, false, ◌||◌, Option, none, some, List, [], ◌∷◌, Result, ok, err, if◌then◌else◌, ltb,
}
use certplane.Base.Text.{Text, is_empty}
use certplane.Clock.{Time}
use certplane.Pki.{Certificate, ExtKeyUsage}

pub data AuthError : Type 0 where
  no_certificate nil_certificate ca_certificate outside_validity no_usage no_client_auth : AuthError
  empty_common_name : AuthError

-- The loop over the extended key usages.
find_client_auth : List ExtKeyUsage → Option AuthError
find_client_auth [] = some no_client_auth
find_client_auth (ExtKeyUsage.client_auth ∷ ekus) = none
find_client_auth (ExtKeyUsage.other_usage ∷ ekus) = find_client_auth ekus

check_usage : List ExtKeyUsage → Option AuthError
check_usage [] = some no_usage
check_usage (eku ∷ ekus) = find_client_auth (eku ∷ ekus)

-- `none` is the nil error.
unfoldable pub validate_client_certificate : Time → Option Certificate → Option AuthError
unfolding find_client_auth check_usage
validate_client_certificate now none = some nil_certificate
validate_client_certificate now (some cert) =
    if cert.is_ca
    then some ca_certificate
    else if ltb now cert.not_before || ltb cert.not_after now
    then some outside_validity
    else check_usage cert.ext_key_usage

common_name : Option AuthError → Option Certificate → Result AuthError Text
common_name (some e) cert = err e
common_name none none = err nil_certificate
common_name none (some cert) =
    if is_empty cert.common_name then err empty_common_name else ok cert.common_name

-- `r.TLS.PeerCertificates`, where `none` is a connection without TLS.
abbrev pub Peers : Type 0
Peers = Option (List (Option Certificate))

unfoldable pub identity_from_request : Time → Peers → Result AuthError Text
unfolding validate_client_certificate common_name
identity_from_request now none = err no_certificate
identity_from_request now (some []) = err no_certificate
identity_from_request now (some (cert ∷ certs)) =
    common_name (validate_client_certificate now cert) cert
