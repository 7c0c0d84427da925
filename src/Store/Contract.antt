-- ===== src/Store/Contract.antt =====
-- What a certificate store promises: the interface `CertificateStore` of cache.go, with laws.
use certplane.Base.{
  Bool, true, ◌&&◌, ◌≡◌, ◌↔◌, ◌⊎◌, Option, none, some, Result, ok, err, arith, if◌then◌else◌,
}
use certplane.Base.Int.{leb_ℤ}
use certplane.Base.Text.{text_eq}
use certplane.Base.Text.Laws.{text_eq_iff, text_eq_refl}
use certplane.Clock.{Time, Duration, until}
use certplane.Pki.{Bundle}
use certplane.Store.{CertificateCacheKey, StoreError, cache_miss}
use certplane.Store.Keys.{IsPlainKey}

-- The comparison of all fields of two keys.
unfoldable pub key_eq : CertificateCacheKey → CertificateCacheKey → Bool
key_eq a b =
    text_eq a.identity b.identity
    && text_eq a.profile_name b.profile_name
    && text_eq a.profile_hash b.profile_hash
    && text_eq a.public_key_sha256 b.public_key_sha256
    && text_eq a.issuer_name b.issuer_name
    && text_eq a.issuer_directory b.issuer_directory
    && text_eq a.issuer_account_key_id b.issuer_account_key_id

pub key_eq_iff : (a b : CertificateCacheKey) → (key_eq a b ≡ true) ↔ (a ≡ b)
unfolding key_eq
key_eq_iff a b = (
  (λ h. ground (
    arith,
    text_eq_iff a.identity b.identity,
    text_eq_iff a.profile_name b.profile_name,
    text_eq_iff a.profile_hash b.profile_hash,
    text_eq_iff a.public_key_sha256 b.public_key_sha256,
    text_eq_iff a.issuer_name b.issuer_name,
    text_eq_iff a.issuer_directory b.issuer_directory,
    text_eq_iff a.issuer_account_key_id b.issuer_account_key_id,
  )),
  (λ e. rw e (
      ground (
        arith,
        text_eq_refl b.identity,
        text_eq_refl b.profile_name,
        text_eq_refl b.profile_hash,
        text_eq_refl b.public_key_sha256,
        text_eq_refl b.issuer_name,
        text_eq_refl b.issuer_directory,
        text_eq_refl b.issuer_account_key_id,
      ))),
)

-- A bundle is handed out only while more than the renewal time is left: the test of both stores.
unfoldable pub if_fresh : Time → Duration → Bundle → Result StoreError Bundle
if_fresh now renew_before b =
    if leb_ℤ (until now b.not_after) renew_before then err cache_miss else ok b

-- The operations; `put` is called with a bundle that is not nil.
pub record CertificateStore : Type 1 where
  pub State : Type 0
  pub get : Time → CertificateCacheKey → Duration → State → Result StoreError Bundle
  pub put : Time → CertificateCacheKey → Bundle → State → Option StoreError × State

module _ (S : CertificateStore) (kept : Bundle → Bundle) where
  -- What is found under `j` after `b` was written under `k`.
  abbrev pub written :
      Time
      → CertificateCacheKey
      → CertificateCacheKey
      → Bundle
      → Duration
      → S.State
      → Result StoreError Bundle
  written t k j b renew s = if key_eq k j then if_fresh t renew (kept b) else S.get t j renew s

-- A write that succeeds is found, as far as the store keeps it and as long as it is fresh, and
-- changes no other key. A write that fails has happened or has not. `IsValid` is what the operations
-- keep true of the state, `IsStorable` is what a bundle and the time of its write have to be.
pub record IsStore (S : CertificateStore) (kept : Bundle → Bundle) (IsValid : S.State → Type 0)
    (IsStorable : Time → Bundle → Type 0) : Type 1 where
  pub put-IsValid :
      (now : Time) (k : CertificateCacheKey) (b : Bundle) (s : S.State)
      → IsStorable now b
      → IsValid s
      → IsValid (S.put now k b s).1
  pub get-put :
      (now t : Time) (k j : CertificateCacheKey) (b : Bundle) (renew : Duration) (s : S.State)
      → IsStorable now b
      → IsValid s
      → IsPlainKey k
      → IsPlainKey j
      → (S.put now k b s).0 ≡ none
      → S.get t j renew (S.put now k b s).1 ≡ written S kept t k j b renew s
  pub get-put_fails :
      (now t : Time) (k j : CertificateCacheKey) (b : Bundle) (renew : Duration) (s : S.State)
      {e : StoreError}
      → IsStorable now b
      → IsValid s
      → IsPlainKey k
      → IsPlainKey j
      → (S.put now k b s).0 ≡ some e
      → (S.get t j renew (S.put now k b s).1 ≡ S.get t j renew s)
        ⊎ (S.get t j renew (S.put now k b s).1 ≡ written S kept t k j b renew s)
