-- ===== src/PThreadsMutex/Exclusion.antt =====
-- include/cpp_playground/threading/pthreads_mutex.hpp: calls of `lock`, `try_lock` and `unlock` by
-- any threads, in the order in which they complete, over a library that checks errors.
use cpp_playground.PThreadsMutex.{PThreads, checked, lock, try_lock, unlock, busy}
use mathlib.Core.Path.{subst}
use cpp_playground.Prelude.{
  ℕ, ◌≡◌, ◌≢◌, refl, none, some, [], ◌∷◌, inl, inr, List, Option, Outcome, if◌then◌else◌, returned,
  ◌⊎◌, ==-cases, threw, fault, ◌==◌, false, Bool-cases,
}

pub data Call : Type 0 where
  locking trying unlocking : Call

-- `refused`: the call threw or returned false.
pub data Event : Type 0 where
  acquired released : ℕ → Event
  refused : Event

-- What POSIX says of the calls of each thread: they change the owner when they return 0 only.
pub record ChecksErrors {ℓ} {S : Type ℓ} (pthreads : ℕ → PThreads S) (owner : S → Option ℕ)
    : Type ℓ where
  pub locked :
      (t : ℕ) (s : S)
      → ((pthreads t).mutex_lock s).0 ≡ 0
      → (owner s ≡ none) × (owner ((pthreads t).mutex_lock s).1 ≡ some t)
  pub not_locked :
      (t : ℕ) (s : S)
      → ((pthreads t).mutex_lock s).0 ≢ 0
      → owner ((pthreads t).mutex_lock s).1 ≡ owner s
  pub tried :
      (t : ℕ) (s : S)
      → ((pthreads t).mutex_trylock s).0 ≡ 0
      → (owner s ≡ none) × (owner ((pthreads t).mutex_trylock s).1 ≡ some t)
  pub not_tried :
      (t : ℕ) (s : S)
      → ((pthreads t).mutex_trylock s).0 ≢ 0
      → owner ((pthreads t).mutex_trylock s).1 ≡ owner s
  pub unlocked :
      (t : ℕ) (s : S)
      → ((pthreads t).mutex_unlock s).0 ≡ 0
      → (owner s ≡ some t) × (owner ((pthreads t).mutex_unlock s).1 ≡ none)
  pub not_unlocked :
      (t : ℕ) (s : S)
      → ((pthreads t).mutex_unlock s).0 ≢ 0
      → owner ((pthreads t).mutex_unlock s).1 ≡ owner s

-- `Exclusive o es o'`: from owner `o`, the events acquire a free mutex and release it by the thread
-- that acquired it last, and leave it with owner `o'`.
pub data Exclusive : Option ℕ → List Event → Option ℕ → Type 0 where
  stop : {o : Option ℕ} → Exclusive o [] o
  acquires :
      {t : ℕ} {es : List Event} {o : Option ℕ}
      → Exclusive (some t) es o
      → Exclusive none (acquired t ∷ es) o
  releases :
      {t : ℕ} {es : List Event} {o : Option ℕ}
      → Exclusive none es o
      → Exclusive (some t) (released t ∷ es) o
  refuses :
      {o' : Option ℕ} {es : List Event} {o : Option ℕ}
      → Exclusive o' es o
      → Exclusive o' (refused ∷ es) o

-- What a client sees of a call: it catches the exceptions.
abbrev pub seen {ℓ κ} : {S : Type ℓ} {A : Type κ} → (A → Event) → Outcome S A → Option (Event × S)
seen event (returned a s) = some (event a, s)
seen event (threw e s) = some (refused, s)
seen event fault = none

module _ {ℓ} {S : Type ℓ} (pthreads : ℕ → PThreads S) where
  unfoldable pub perform : ℕ → Call → S → Option (Event × S)
  perform t locking s = seen (λ _. acquired t) (lock (pthreads t) s)
  perform t trying s =
      seen (λ success. if success then acquired t else refused) (try_lock (pthreads t) s)
  perform t unlocking s = seen (λ _. released t) (unlock (pthreads t) s)

  unfoldable pub run : List (ℕ × Call) → S → Option (List Event × S)
  unfolding perform
  run [] s = some ([], s)
  run ((t, call) ∷ calls) s = elim (perform t call s) [
    | none ↦ none
    | some (e, s') ↦ elim (run calls s') [ none ↦ none | some (es, s'') ↦ some (e ∷ es, s'') ]
  ]

module _ {ℓ} {S : Type ℓ} (pthreads : ℕ → PThreads S) (owner : S → Option ℕ)
    (checks : ChecksErrors pthreads owner) where
  try_lock-refused :
      (t : ℕ) (s : S)
      → (((pthreads t).mutex_trylock s).0 == 0) ≡ false
      → perform pthreads t trying s ≡ some (refused, ((pthreads t).mutex_trylock s).1)
  unfolding perform try_lock
  try_lock-refused t s e = elim (Bool-cases (((pthreads t).mutex_trylock s).0 == busy)) [
    | inl e' ↦ rw (e, e') refl
    | inr e' ↦ rw (e, e') refl
  ]

  perform_lem :
      (t : ℕ) (call : Call) (s : S)
      → (s' : S) × (((perform pthreads t call s ≡ some (acquired t, s'))
            × (owner s ≡ none)
            × (owner s' ≡ some t))
          ⊎ ((perform pthreads t call s ≡ some (released t, s'))
              × (owner s ≡ some t)
              × (owner s' ≡ none))
          ⊎ ((perform pthreads t call s ≡ some (refused, s')) × (owner s' ≡ owner s)))
  unfolding perform lock try_lock unlock checked
  perform_lem t locking s = elim (==-cases ((pthreads t).mutex_lock s).0 0) [
    | inl (z, e) ↦
        let (free, mine) = checks.locked t s z in
        (((pthreads t).mutex_lock s).1, inl (rw e refl, free, mine))
    | inr (n, e) ↦ (((pthreads t).mutex_lock s).1, inr (inr (rw e refl, checks.not_locked t s n)))
  ]
  perform_lem t trying s = elim (==-cases ((pthreads t).mutex_trylock s).0 0) [
    | inl (z, e) ↦
        let (free, mine) = checks.tried t s z in
        (((pthreads t).mutex_trylock s).1, inl (rw e refl, free, mine))
    | inr (n, e) ↦ (
      ((pthreads t).mutex_trylock s).1,
      inr (inr (try_lock-refused t s e, checks.not_tried t s n)),
    )
  ]
  perform_lem t unlocking s = elim (==-cases ((pthreads t).mutex_unlock s).0 0) [
    | inl (z, e) ↦
        let (mine, free) = checks.unlocked t s z in
        (((pthreads t).mutex_unlock s).1, inr (inl (rw e refl, mine, free)))
    | inr (n, e) ↦
        (((pthreads t).mutex_unlock s).1, inr (inr (rw e refl, checks.not_unlocked t s n)))
  ]

  -- From every state of the library, for every list of calls `lock`, `try_lock` and `unlock`, each
  -- by some thread: if the library's mutex checks errors, the run returns, and in its events the
  -- mutex is acquired when it is free only, and released by the thread that holds it only, so no
  -- two threads hold it at once.
  pub calls-Exclusive :
      (calls : List (ℕ × Call)) (s : S)
      → (es : List Event) × (s' : S) × (run pthreads calls s ≡ some (es, s'))
        × Exclusive (owner s) es (owner s')
  unfolding run
  calls-Exclusive [] s = ([], s, refl, stop)
  calls-Exclusive ((t, call) ∷ calls) s =
      let (s1, what) = perform_lem t call s in
      let (es, s2, ran, rest) = calls-Exclusive calls s1 in
      elim what [
        | inl (e, free, mine) ↦ (
          acquired t ∷ es,
          s2,
          rw (e, run, ran) refl,
          rw free (acquires (subst (λ o. Exclusive o es (owner s2)) mine rest)),
        )
        | inr (inl (e, mine, free)) ↦ (
          released t ∷ es,
          s2,
          rw (e, run, ran) refl,
          rw mine (releases (subst (λ o. Exclusive o es (owner s2)) free rest)),
        )
        | inr (inr (e, same)) ↦ (
          refused ∷ es,
          s2,
          rw (e, run, ran) refl,
          refuses (subst (λ o. Exclusive o es (owner s2)) same rest),
        )
      ]
