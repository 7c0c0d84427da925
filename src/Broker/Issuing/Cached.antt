-- ===== src/Broker/Issuing/Cached.antt =====
-- A certificate that the issuer has handed out is served from the cache afterwards.
use certplane.Base.{
  false, ◌≡◌, refl, sym, ap, ◌∙◌, inl, inr, Option, none, some, Result, ok, err, arith, Bool-cases,
  ok-injective,
}
use certplane.Base.Int.{leb_ℤ}
use certplane.Base.Text.{Text}
use certplane.Clock.{Time, until}
use certplane.Pki.{Bundle}
use certplane.Policy.{CompiledProfile}
use certplane.Store.{CertificateCacheKey, StoreError}
use certplane.Store.Keys.{IsPlainKey}
use certplane.Store.Contract.{CertificateStore, IsStore, key_eq_iff, if_fresh}
use certplane.Broker.{IssuedResult, Trace, Server, World, act, asked, clock_read}
use certplane.Broker.Issuing.{
  is_cache_miss, a_hit, a_miss, request_of, stored_result, store_answer, ask_issuer, load_answer,
  issue_or_load,
}

-- A hit is no miss.
a_hit-a_miss : (b b' : Bundle) → a_hit b ≡ a_miss b' → {A : Type 0} → A
a_hit-a_miss b b' h = absurd (ground (arith, ap (λ (i : IssuedResult). i.cache) h))

module _ (C : CertificateStore) (s : Server) (key : CertificateCacheKey) (b : Bundle) where
  -- The bundle has been written to the store.
  abbrev Put : C.State → C.State → Type 0
  Put before after = (t : Trace) × (C.put (s.now t) key b before ≡ (none, after))

  stored_result-Put :
      (t : Trace) (b' : Bundle) (x : Option StoreError × C.State) (w : World C.State) (st : C.State)
      → C.put (s.now t) key b' st ≡ x
      → (stored_result C s b' x w).0 ≡ ok (a_miss b)
      → Put st (stored_result C s b' x w).1.store
  unfolding stored_result
  stored_result-Put t b' (none, st') w st h e =
      let same : b' ≡ b = cc in (t, ap (λ z. C.put (s.now t) key z st) (sym same) ∙ h)
  stored_result-Put t b' (some x, st') w st h e = cc

  store_answer-Put :
      (a : Result Text Bundle) (w : World C.State)
      → (store_answer C s key a w).0 ≡ ok (a_miss b)
      → Put w.store (store_answer C s key a w).1.store
  unfolding store_answer
  store_answer-Put (err e) w h = cc
  store_answer-Put (ok b') w h = stored_result-Put w.trace b' _ (act clock_read w) w.store refl h

  load_answer-Put :
      (a : Result StoreError Bundle) (p : CompiledProfile) (csr_pem : Text) (w : World C.State)
      → (load_answer C s a key p csr_pem w).0 ≡ ok (a_miss b)
      → Put w.store (load_answer C s a key p csr_pem w).1.store
  unfolding load_answer ask_issuer
  load_answer-Put (ok b') p csr_pem w = λ h. a_hit-a_miss b' b (ok-injective h)
  load_answer-Put (err e) p csr_pem w = elim (Bool-cases (is_cache_miss e)) [
    | inl m ↦ rw m (store_answer-Put _ (act (asked (request_of p csr_pem)) w))
    | inr m ↦ rw m (λ h. cc)
  ]

  issue_or_load-Put :
      (p : CompiledProfile) (csr_pem : Text) (w : World C.State)
      → (issue_or_load C s key p csr_pem w).0 ≡ ok (a_miss b)
      → Put w.store (issue_or_load C s key p csr_pem w).1.store
  unfolding issue_or_load
  issue_or_load-Put p csr_pem w h = load_answer-Put _ p csr_pem (act clock_read w) h

-- With a store that keeps its promise, in a valid state, for a key with no NUL in its fields and a
-- bundle that the store can take: once the issuer has handed out the bundle for the key, a later call
-- for the key, on the store as it was left, has the bundle from the store, as long as it is fresh, and
-- does not ask the issuer again.
pub issue_or_load-cached :
    (C : CertificateStore) (kept : Bundle → Bundle) (IsValid : C.State → Type 0)
    (IsStorable : Time → Bundle → Type 0) (I : IsStore C kept IsValid IsStorable) (s : Server)
    (key : CertificateCacheKey) (p : CompiledProfile) (csr_pem csr_pem' : Text)
    (w w' : World C.State) (b : Bundle)
    → ((t : Trace) → IsStorable (s.now t) b)
    → IsValid w.store
    → IsPlainKey key
    → (issue_or_load C s key p csr_pem w).0 ≡ ok (a_miss b)
    → w'.store ≡ (issue_or_load C s key p csr_pem w).1.store
    → leb_ℤ (until (s.now w'.trace) (kept b).not_after) p.renew_before ≡ false
    → issue_or_load C s key p csr_pem' w' ≡ (ok (a_hit (kept b)), act clock_read w')
unfolding issue_or_load load_answer if_fresh
issue_or_load-cached C kept IsValid IsStorable I s key p csr_pem csr_pem' w w' b c v plain miss same
      fresh =
    let (written_at, put) = issue_or_load-Put C s key b p csr_pem w miss in
    let t = s.now w'.trace in
    let found : C.get t key p.renew_before w'.store ≡ ok (kept b) =
      ap (C.get t key p.renew_before)
        (same ∙ ap (λ (x : Option StoreError × C.State). x.1) (sym put))
      ∙ I.get-put (s.now written_at) t key key b p.renew_before w.store (c written_at) v plain plain
          (ap (λ (x : Option StoreError × C.State). x.0) put)
      ∙ (rw ((key_eq_iff key key).1 refl) (rw (fresh, if_fresh) refl)) in
    rw (found, load_answer) refl
