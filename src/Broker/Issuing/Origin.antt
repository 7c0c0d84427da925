-- ===== src/Broker/Issuing/Origin.antt =====
-- Where a certificate that `issueOrLoadWithSingleflight` hands out comes from.
use certplane.Base.{
  ℕ, true, false, ◌≡◌, refl, sym, ap, ◌∙◌, inl, inr, Option, none, some, ◌∷◌, Result, ok, err, ◌==◌,
  Bool-cases, Option-cases,
}
use certplane.Base.Text.{Text}
use certplane.Clock.{Time}
use certplane.Pki.{Bundle}
use certplane.Policy.{CompiledProfile}
use certplane.Store.{
  CertificateCacheKey, key_string, StoreError, cache_miss, nil_bundle, reading, parsing, marshaling,
  writing, decoding,
}
use certplane.Store.Contract.{CertificateStore}
use certplane.Broker.{
  IssuedResult, Failure, Trace, FlightResult, an_issued_result, Server, World, act, asked,
  clock_read, responded, Reply, error_reply,
}
use certplane.Broker.Effects.{
  requests, responses, panics, Quiet, Quiet-After, After, After-trans, After-act, later_same,
}
use certplane.Broker.Recording.Recorded.{Quiet-act_clock_read}
use certplane.Broker.Steps.{write_error}
use certplane.Broker.Steps.Outcomes.{Answered}
use certplane.Broker.Issuing.{
  is_cache_miss, a_hit, a_miss, request_of, stored_result, store_answer, ask_issuer, load_answer,
  issue_or_load, flight_result, do_flight,
}

-- The client has heard nothing, and nothing has panicked.
pub record Hushed {S : Type 0} (w w' : World S) : Type 0 where
  pub after : After w w'
  pub answers : responses w'.trace ≡ responses w.trace
  pub sound : panics w'.trace ≡ panics w.trace

pub Hushed-Quiet : {S : Type 0} {a b c : World S} → Hushed a b → Quiet b c → Hushed a c
Hushed-Quiet x y = record {
  after = After-trans x.after (Quiet-After y);
  answers = y.silent.answers ∙ x.answers;
  sound = y.silent.sound ∙ x.sound;
}

of_Quiet : {S : Type 0} {a b : World S} → Quiet a b → Hushed a b
of_Quiet q = record { after = Quiet-After q; answers = q.silent.answers; sound = q.silent.sound }

pub error-Answered :
    {S : Type 0} (w0 w : World S) (status : ℕ) (message : Text)
    → Hushed w0 w
    → (status == 200) ≡ false
    → Answered w0.trace (write_error status message w).trace
unfolding write_error responses panics
error-Answered w0 w status message q h = record {
  status = status;
  message = message;
  an_error = h;
  once = ap (λ rs. (status, error_reply message) ∷ rs) q.answers;
  sound = q.sound;
}

is_cache_miss-true : (e : StoreError) → is_cache_miss e ≡ true → e ≡ cache_miss
is_cache_miss-true cache_miss h = refl
is_cache_miss-true nil_bundle h = cc
is_cache_miss-true reading h = cc
is_cache_miss-true parsing h = cc
is_cache_miss-true marshaling h = cc
is_cache_miss-true writing h = cc
is_cache_miss-true decoding h = cc

module _ (C : CertificateStore) (s : Server) (key : CertificateCacheKey) (p : CompiledProfile)
    (csr_pem : Text) (w : World C.State) where
  -- The result of another call under the same key; or a bundle that the store has; or a bundle that
  -- the issuer hands out at a miss, and that the store takes.
  pub data Origin (w' : World C.State) (issued : IssuedResult) : Type 0 where
    from_flight :
        (t : Trace)
        → s.in_flight t (key_string key) ≡ some (ok (an_issued_result issued))
        → w'.store ≡ w.store
        → requests w'.trace ≡ requests w.trace
        → Origin w' issued
    from_store :
        (now : Time)
        → C.get now key p.renew_before w.store ≡ ok issued.bundle
        → issued ≡ a_hit issued.bundle
        → w'.store ≡ w.store
        → requests w'.trace ≡ requests w.trace
        → Origin w' issued
    from_issuer :
        (before after : Time) (t : Trace)
        → C.get before key p.renew_before w.store ≡ err cache_miss
        → s.issue t (request_of p csr_pem) ≡ ok issued.bundle
        → C.put after key issued.bundle w.store ≡ (none, w'.store)
        → issued ≡ a_miss issued.bundle
        → requests w'.trace ≡ request_of p csr_pem ∷ requests w.trace
        → Origin w' issued

  pub Origin-Quiet :
      {w' w'' : World C.State} {i : IssuedResult} → Quiet w' w'' → Origin w' i → Origin w'' i
  Origin-Quiet q (from_flight t f st rs) = from_flight t f (q.store ∙ st) (q.silent.asks ∙ rs)
  Origin-Quiet q (from_store now g k st rs) = from_store now g k (q.store ∙ st) (q.silent.asks ∙ rs)
  Origin-Quiet q (from_issuer before after t g i pt k rs) =
      from_issuer before after t g i (pt ∙ ap (λ st. (none, st)) (sym q.store)) k
        (q.silent.asks ∙ rs)

  record Loaded (r : Result Failure IssuedResult × World C.State) : Type 0 where
    hushed : Hushed w r.1
    origin : (i : IssuedResult) → r.0 ≡ ok i → Origin r.1 i

  stored_result-Loaded :
      (before after : Time) (t : Trace) (b : Bundle) (x : Option StoreError × C.State)
      (w1 : World C.State)
      → Hushed w w1
      → requests w1.trace ≡ request_of p csr_pem ∷ requests w.trace
      → C.get before key p.renew_before w.store ≡ err cache_miss
      → s.issue t (request_of p csr_pem) ≡ ok b
      → C.put after key b w.store ≡ x
      → Loaded (stored_result C s b x w1)
  unfolding stored_result
  stored_result-Loaded before after t b (none, st) w1 q rs g i h = record {
    hushed = record {
      after = record { later = q.after.later; limiter = q.after.limiter };
      answers = q.answers;
      sound = q.sound;
    };
    origin = λ issued e.
        let same : a_miss b ≡ issued = cc in
        let bundle : b ≡ issued.bundle = ap (λ (x : IssuedResult). x.bundle) same in
        from_issuer before after t g (i ∙ ap ok bundle)
          (ap (λ z. C.put after key z w.store) (sym bundle) ∙ h) (sym same ∙ ap a_miss bundle) rs;
  }
  stored_result-Loaded before after t b (some e, st) w1 q rs g i h = record {
    hushed = record {
      after = record { later = q.after.later; limiter = q.after.limiter };
      answers = q.answers;
      sound = q.sound;
    };
    origin = λ issued e. cc;
  }

  store_answer-Loaded :
      (before : Time) (t : Trace) (a : Result Text Bundle) (w1 : World C.State)
      → Hushed w w1
      → requests w1.trace ≡ request_of p csr_pem ∷ requests w.trace
      → w1.store ≡ w.store
      → C.get before key p.renew_before w.store ≡ err cache_miss
      → s.issue t (request_of p csr_pem) ≡ a
      → Loaded (store_answer C s key a w1)
  unfolding store_answer requests responses panics
  store_answer-Loaded before t (err e) w1 q rs st g i = record {
    hushed = q;
    origin = λ issued e. cc;
  }
  store_answer-Loaded before t (ok b) w1 q rs st g i =
      stored_result-Loaded before (s.now w1.trace) t b _ (act clock_read w1)
        (record {
          after = After-trans q.after (After-act clock_read w1);
          answers = q.answers;
          sound = q.sound;
        })
        rs g i (ap (C.put (s.now w1.trace) key b) (sym st))

  load_answer-Loaded :
      (now : Time) (a : Result StoreError Bundle) (w1 : World C.State)
      → Quiet w w1
      → C.get now key p.renew_before w.store ≡ a
      → Loaded (load_answer C s a key p csr_pem w1)
  unfolding load_answer ask_issuer requests responses panics
  load_answer-Loaded now (ok b) w1 q g = record {
    hushed = of_Quiet q;
    origin = λ issued e.
        let same : a_hit b ≡ issued = cc in
        let bundle : b ≡ issued.bundle = ap (λ (x : IssuedResult). x.bundle) same in
        from_store now (g ∙ ap ok bundle) (sym same ∙ ap a_hit bundle) q.store q.silent.asks;
  }
  load_answer-Loaded now (err e) w1 q g = elim (Bool-cases (is_cache_miss e)) [
    | inl m ↦ rw m (
        store_answer-Loaded now w1.trace _ (act (asked (request_of p csr_pem)) w1)
          (record {
            after = After-trans (Quiet-After q) (After-act (asked (request_of p csr_pem)) w1);
            answers = q.silent.answers;
            sound = q.silent.sound;
          })
          (ap (λ rs. request_of p csr_pem ∷ rs) q.silent.asks) q.store
          (g ∙ ap err (is_cache_miss-true e m)) refl)
    | inr m ↦ rw m (record { hushed = of_Quiet q; origin = λ issued e. cc })
  ]

  issue_or_load-Loaded : Loaded (issue_or_load C s key p csr_pem w)
  unfolding issue_or_load
  issue_or_load-Loaded = load_answer-Loaded (s.now w.trace) _ _ (Quiet-act_clock_read w) refl

  pub record Flown (r : Result Failure FlightResult × World C.State) : Type 0 where
    pub hushed : Hushed w r.1
    pub origin : (i : IssuedResult) → r.0 ≡ ok (an_issued_result i) → Origin r.1 i

  flight_result-Flown :
      (r : Result Failure IssuedResult × World C.State) → Loaded r → Flown (flight_result C s r)
  unfolding flight_result
  flight_result-Flown (err e, w') l = record { hushed = l.hushed; origin = λ i h. cc }
  flight_result-Flown (ok i, w') l = record {
    hushed = l.hushed;
    origin = λ j h. let same : i ≡ j = cc in l.origin j (ap ok same);
  }

  pub do_flight-Flown : Flown (do_flight C s key p csr_pem w)
  unfolding do_flight
  do_flight-Flown = elim (Option-cases (s.in_flight w.trace (key_string key))) [
    | inl e ↦ rw (e, do_flight) (flight_result-Flown _ issue_or_load-Loaded)
    | inr (r, e) ↦
        rw (e, do_flight)
          (record {
            hushed = record {
              after = record { later = later_same; limiter = refl };
              answers = refl;
              sound = refl;
            };
            origin = λ i h. from_flight w.trace (e ∙ ap some h) refl refl;
          })
  ]

  -- A response does not change where the certificate comes from.
  pub Origin-responded :
      {w' : World C.State} {i : IssuedResult} {n : ℕ} {b : Reply}
      → Origin w' i
      → Origin (act (responded n b) w') i
  unfolding requests
  Origin-responded (from_flight t f st rs) = from_flight t f st rs
  Origin-responded (from_store now g k st rs) = from_store now g k st rs
  Origin-responded (from_issuer before after t g i pt k rs) = from_issuer before after t g i pt k rs
