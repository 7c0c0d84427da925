-- ===== src/Authn/Identity.antt =====
-- Which connections have an identity.
use certplane.Base.{◌≡◌, ap, ◌↔◌, ◌≤◌, refl, false, Option, none, some, List, [], ◌∷◌, ok, arith}
use certplane.Base.Text.{Text, is_empty}
use certplane.Clock.{Time}
use certplane.Pki.{Certificate, ExtKeyUsage}
use certplane.Authn.{find_client_auth, check_usage, Peers, identity_from_request}

-- The usage stands in the list.
abbrev pub HasClientAuth : List ExtKeyUsage → Type 0
HasClientAuth [] = ⊥
HasClientAuth (ExtKeyUsage.client_auth ∷ ekus) = Unit
HasClientAuth (ExtKeyUsage.other_usage ∷ ekus) = HasClientAuth ekus

-- A certificate that speaks for a name at a time.
pub record Vouches (now : Time) (cert : Certificate) (name : Text) : Type 0 where
  pub leaf : cert.is_ca ≡ false
  pub begun : cert.not_before ≤ now
  pub lasting : now ≤ cert.not_after
  pub usage : HasClientAuth cert.ext_key_usage
  pub named : cert.common_name ≡ name
  pub filled : is_empty name ≡ false

find_client_auth-none :
    (ekus : List ExtKeyUsage) → find_client_auth ekus ≡ none → HasClientAuth ekus
unfolding find_client_auth
find_client_auth-none [] h = cc
find_client_auth-none (ExtKeyUsage.client_auth ∷ ekus) h = tt
find_client_auth-none (ExtKeyUsage.other_usage ∷ ekus) h = find_client_auth-none ekus h

HasClientAuth-find : (ekus : List ExtKeyUsage) → HasClientAuth ekus → find_client_auth ekus ≡ none
unfolding find_client_auth
HasClientAuth-find [] h = absurd h
HasClientAuth-find (ExtKeyUsage.client_auth ∷ ekus) h = refl
HasClientAuth-find (ExtKeyUsage.other_usage ∷ ekus) h = HasClientAuth-find ekus h

check_usage-none : (ekus : List ExtKeyUsage) → check_usage ekus ≡ none → HasClientAuth ekus
unfolding check_usage
check_usage-none [] h = cc
check_usage-none (e ∷ es) h = find_client_auth-none (e ∷ es) h

HasClientAuth-check_usage : (ekus : List ExtKeyUsage) → HasClientAuth ekus → check_usage ekus ≡ none
unfolding check_usage
HasClientAuth-check_usage [] h = absurd h
HasClientAuth-check_usage (e ∷ es) h = HasClientAuth-find (e ∷ es) h

-- The tests on the first certificate, with the test of its usages left as it is.
accepted-tests :
    (now : Time) (cert : Certificate) (rest : List (Option Certificate)) (name : Text)
    → identity_from_request now (some (some cert ∷ rest)) ≡ ok name
    → (cert.is_ca ≡ false)
      × (cert.not_before ≤ now)
      × (now ≤ cert.not_after)
      × (check_usage cert.ext_key_usage ≡ none)
      × (cert.common_name ≡ name)
      × (is_empty cert.common_name ≡ false)
unfolding identity_from_request
accepted-tests now cert rest name h = ground arith

accepted-Vouches :
    (now : Time) (cert : Certificate) (rest : List (Option Certificate)) (name : Text)
    → identity_from_request now (some (some cert ∷ rest)) ≡ ok name
    → Vouches now cert name
accepted-Vouches now cert rest name h =
    let (leaf, begun, lasting, usage, named, filled) = accepted-tests now cert rest name h in
    record {
      leaf = leaf;
      begun = begun;
      lasting = lasting;
      usage = check_usage-none cert.ext_key_usage usage;
      named = named;
      filled = rw (← named) filled;
    }

Vouches-accepted :
    (now : Time) (cert : Certificate) (rest : List (Option Certificate)) (name : Text)
    → Vouches now cert name
    → identity_from_request now (some (some cert ∷ rest)) ≡ ok name
unfolding identity_from_request
Vouches-accepted now cert rest name v = ground (
  arith,
  HasClientAuth-check_usage cert.ext_key_usage v.usage,
  v.leaf,
  v.begun,
  v.lasting,
  v.named,
  v.filled,
  ap is_empty v.named,
)

-- The first certificate of the connection vouches for the name.
abbrev pub PeerVouches : Time → Peers → Text → Type 0
PeerVouches now (some (some cert ∷ rest)) name = Vouches now cert name
PeerVouches now _ name = ⊥

-- A connection has the identity `name` exactly when it has client certificates and the first one is
-- no CA, is within its validity, has the client usage, and has `name`, which is not empty, as its
-- common name.
pub identity_from_request_iff :
    (now : Time) (peers : Peers) (name : Text)
    → (identity_from_request now peers ≡ ok name) ↔ PeerVouches now peers name
identity_from_request_iff now none name = ((λ h. unfold identity_from_request in cc), λ v. absurd v)
identity_from_request_iff now (some []) name =
    ((λ h. unfold identity_from_request in cc), λ v. absurd v)
identity_from_request_iff now (some (none ∷ rest)) name =
    ((λ h. unfold identity_from_request in cc), λ v. absurd v)
identity_from_request_iff now (some (some cert ∷ rest)) name =
    (accepted-Vouches now cert rest name, Vouches-accepted now cert rest name)
