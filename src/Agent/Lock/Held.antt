-- ===== src/Agent/Lock/Held.antt =====
-- What is done under the lock of the agent, and that the lock is released.
use certplane.Base.{
  true, false, ◌≡◌, ◌≢◌, refl, ap, ◌∙◌, ◌⊎◌, inl, inr, Option, none, some, List, [], ◌∷◌, ok, err,
  arith, Bool-cases, Option-cases,
}
use certplane.Base.Text.{Text, text_eq, elem}
use certplane.Base.Text.Laws.{text_eq_iff}
use certplane.Base.Dict.{lookup, delete, lookup-delete_self, lookup-delete_other}
use certplane.Agent.{Disk, AgentError, creating_lock_directory, lock_exists, creating_lock}
use certplane.Agent.Install.{at}
use certplane.Agent.Touched.{Touches, Touches-refl, Touches-trans, with_file, insert-Touches}
use certplane.Agent.Lock.{Lock, acquire_lock, remove_file, release_lock, behind_lock, under_lock}

abbrev pub lock_of : Text → Lock
lock_of path = record { path = path }

-- Taking the lock fails and changes nothing, or it was free and its file is there.
acquire_lock_cases :
    (path pid : Text) (d : Disk)
    → ((e : AgentError) × (acquire_lock path pid d ≡ (err e, d)))
      ⊎ ((at path d ≡ none) × (acquire_lock path pid d ≡ (ok (lock_of path), with_file path pid d)))
unfolding acquire_lock
acquire_lock_cases path pid d = elim (Bool-cases (d.mkdir_fails path)) [
  | inl e ↦ inl (creating_lock_directory, rw e refl)
  | inr e ↦ elim (Option-cases (lookup path d.files)) [
    | inr (x, n) ↦ inl (lock_exists, rw (e, n) refl)
    | inl n ↦ elim (Bool-cases (d.create_fails path)) [
      | inl c ↦ inl (creating_lock, rw (e, n, c) refl)
      | inr c ↦ inr (n, rw (e, n, c) refl)
    ]
  ]
]

-- The result of what is done under the lock is the result of the whole, and the lock is released; or
-- the lock cannot be taken and nothing is done.
pub under_lock_cases :
    (path pid : Text) (body : Disk → Option AgentError × Disk) (d : Disk)
    → ((e : AgentError) × (under_lock path pid body d ≡ (some e, d)))
      ⊎ ((at path d ≡ none)
          × (under_lock path pid body d ≡ (
            (body (with_file path pid d)).0,
            (release_lock (lock_of path) (body (with_file path pid d)).1).1,
          )))
unfolding under_lock behind_lock
under_lock_cases path pid body d = elim (acquire_lock_cases path pid d) [
  | inl (e, h) ↦ inl (e, rw h refl)
  | inr (free, h) ↦ inr (free, rw h refl)
]

delete-Touches :
    (ps : List Text) (path : Text) (d : Disk)
    → elem path ps ≡ true
    → Touches ps d (record d { files = delete path d.files })
unfolding elem
delete-Touches ps path d h = (refl, λ q k. lookup-delete_other path q d.files (apart ps q h k))
  where
    apart :
        (ps : List Text) (q : Text)
        → elem path ps ≡ true
        → elem q ps ≡ false
        → text_eq path q ≡ false
    apart [] q h k = cc
    apart (r ∷ ps) q h k =
        ground (arith, apart ps q, text_eq_iff path r, text_eq_iff path q, text_eq_iff q r)

pub release_lock-Touches :
    (ps : List Text) (path : Text) (d : Disk)
    → elem path ps ≡ true
    → Touches ps d (release_lock (lock_of path) d).1
unfolding release_lock remove_file
release_lock-Touches ps path d h = elim (Option-cases (lookup path d.files)) [
  | inl n ↦ rw n (Touches-refl ps d)
  | inr (x, n) ↦ elim (Bool-cases (d.remove_fails path)) [
    | inl f ↦ rw (n, f) (Touches-refl ps d)
    | inr f ↦ rw (n, f) (delete-Touches ps path d h)
  ]
]

-- A lock whose file can be removed is gone when it is released.
release_lock-free :
    (path : Text) (d : Disk)
    → d.remove_fails path ≡ false
    → at path (release_lock (lock_of path) d).1 ≡ none
unfolding release_lock remove_file
release_lock-free path d h = elim (Option-cases (lookup path d.files)) [
  | inl n ↦ rw n n
  | inr (x, n) ↦ rw (n, h) (lookup-delete_self path d.files)
]

-- The lock could not be taken, so that nothing was done; or it was free, and is free again if its file
-- can be removed.
abbrev pub Released : Text → Disk → Option AgentError × Disk → Type 0
Released path d r =
    ((r.0 ≢ none) × (r.1 ≡ d))
    ⊎ ((at path d ≡ none) × (d.remove_fails path ≡ false → at path r.1 ≡ none))

module _ (path pid : Text) (body : Disk → Option AgentError × Disk) (ps : List Text)
    (touches : (d : Disk) → Touches ps d (body d).1) where
  pub under_lock-Touches : (d : Disk) → Touches (path ∷ ps) d (under_lock path pid body d).1
  under_lock-Touches d = elim (under_lock_cases path pid body d) [
    | inl (e, h) ↦ rw h (Touches-refl (path ∷ ps) d)
    | inr (free, h) ↦
        let d1 = with_file path pid d in
        let d2 = (body d1).1 in
        let (same, others) = touches d1 in
        rw h (
          Touches-trans (path ∷ ps) d d1 _ (insert-Touches (path ∷ ps) path pid d here) (
            Touches-trans (path ∷ ps) d1 d2 _ (same, λ q k. others q (unfold elem in ground arith))
              (release_lock-Touches (path ∷ ps) path d2 here)))
  ]
    where
      here : elem path (path ∷ ps) ≡ true
      here = unfold elem in ground (arith, text_eq_iff path path)

  pub under_lock-Released : (d : Disk) → Released path d (under_lock path pid body d)
  under_lock-Released d = elim (under_lock_cases path pid body d) [
    | inl (e, h) ↦ rw h (inl ((λ k. cc k), refl))
    | inr (free, h) ↦
        let d1 = with_file path pid d in
        rw h (
          inr (
            free,
            λ k.
                release_lock-free path (body d1).1
                  (ap (λ (x : Disk). x.remove_fails path) (touches d1).0 ∙ k),
          ))
  ]
