-- ===== src/PThreadsMutex/Errors.antt =====
-- include/cpp_playground/threading/pthreads_mutex.hpp: the error paths of the constructor, and the
-- calls on a mutex that checks errors, over a library that behaves as POSIX says.
use cpp_playground.PThreadsMutex.{PThreads, checked, unchecked, cleaning_up, construct}
use cpp_playground.Prelude.{
  ℕ, ◌≡◌, ◌≢◌, refl, Action, returned, ◌+◌, ◌-◌, Exception, ◌⊎◌, threw, system_error, ==-cases, inl,
  inr, >>=-threw, ◌>>◌, >>=-returned, ◌∙◌, ap, arith,
}

abbrev pub deadlock : ℕ
deadlock = 35

abbrev pub not_permitted : ℕ
not_permitted = 1

-- A call that creates an object: `amount` more objects when it returns 0, no change otherwise.
abbrev pub Creates {ℓ} : {S : Type ℓ} → (S → ℕ) → (S → ℕ × S) → Type ℓ
Creates {S = S} objects call =
    (s : S)
    → ((call s).0 ≡ 0 → objects (call s).1 ≡ objects s + 1)
      × ((call s).0 ≢ 0 → objects (call s).1 ≡ objects s)

abbrev pub Keeps {ℓ} : {S : Type ℓ} → (S → ℕ) → (S → ℕ × S) → Type ℓ
Keeps {S = S} objects call = (s : S) → objects (call s).1 ≡ objects s

-- What POSIX says of the calls that create and destroy: how many attribute objects and mutexes are
-- initialised.
pub record CountsObjects {ℓ} {S : Type ℓ} (pthreads : PThreads S) (attributes mutexes : S → ℕ)
    : Type ℓ where
  pub attribute_created : Creates attributes pthreads.mutexattr_init
  pub attribute_set : Keeps attributes pthreads.mutexattr_settype_errorcheck
  pub attribute_destroyed : (s : S) → attributes (pthreads.mutexattr_destroy s).1 ≡ attributes s - 1
  pub attribute_used : Keeps attributes pthreads.mutex_init
  pub mutex_created : Creates mutexes pthreads.mutex_init
  pub mutex_kept_by_init : Keeps mutexes pthreads.mutexattr_init
  pub mutex_kept_by_settype : Keeps mutexes pthreads.mutexattr_settype_errorcheck
  pub mutex_kept_by_destroy : Keeps mutexes pthreads.mutexattr_destroy

module _ {ℓ} {S : Type ℓ} where
  checked_lem :
      (call : S → ℕ × S) (s : S)
      → (((call s).0 ≡ 0) × (checked call s ≡ returned tt (call s).1))
        ⊎ (((call s).0 ≢ 0) × (checked call s ≡ threw (system_error (call s).0) (call s).1))
  unfolding checked
  checked_lem call s = elim (==-cases (call s).0 0) [
    | inl (e, t) ↦ inl (e, rw (t, checked))
    | inr (n, t) ↦ inr (n, rw (t, checked))
  ]

  unchecked_lem : (call : S → ℕ × S) (s : S) → unchecked call s ≡ returned tt (call s).1
  unfolding unchecked
  unchecked_lem call s = refl

  cleaning_up-returned :
      (body handler : Action S (Unit {0})) {s s' : S}
      → body s ≡ returned tt s'
      → cleaning_up body handler s ≡ returned tt s'
  unfolding cleaning_up
  cleaning_up-returned body handler e = rw (e, cleaning_up)

  cleaning_up-threw :
      (body : Action S (Unit {0})) (handler : S → ℕ × S) {s s' : S} {x : Exception}
      → body s ≡ threw x s'
      → cleaning_up body (unchecked handler) s ≡ threw x (handler s').1
  unfolding cleaning_up unchecked
  cleaning_up-threw body handler e = rw (e, cleaning_up)

module _ {ℓ} {S : Type ℓ} (pthreads : PThreads S) (attributes mutexes : S → ℕ)
    (counts : CountsObjects pthreads attributes mutexes) where
  -- The block in `try`.
  configure : Action S (Unit {0})
  configure = checked pthreads.mutexattr_settype_errorcheck >> checked pthreads.mutex_init

  configure_lem :
      (s : S)
      → ((s' : S) × (configure s ≡ returned tt s')
          × (attributes s' ≡ attributes s)
          × (mutexes s' ≡ mutexes s + 1))
        ⊎ ((error : ℕ) × (s' : S) × (configure s ≡ threw (system_error error) s')
            × (error ≢ 0)
            × (attributes s' ≡ attributes s)
            × (mutexes s' ≡ mutexes s))
  unfolding configure
  configure_lem s =
      let set_type = pthreads.mutexattr_settype_errorcheck in
      let s1 = (set_type s).1 in
      let init = pthreads.mutex_init in
      elim (checked_lem set_type s) [
        | inr (n, e) ↦ inr (
          (set_type s).0,
          s1,
          >>=-threw (checked set_type) (λ _. checked init) e,
          n,
          counts.attribute_set s,
          counts.mutex_kept_by_settype s,
        )
        | inl (_, e) ↦
            let first = >>=-returned (checked set_type) (λ _. checked init) e in
            elim (checked_lem init s1) [
              | inl (z, e') ↦ inl (
                (init s1).1,
                first ∙ e',
                counts.attribute_used s1 ∙ counts.attribute_set s,
                (counts.mutex_created s1).0 z ∙ ap (λ n. n + 1) (counts.mutex_kept_by_settype s),
              )
              | inr (n, e') ↦ inr (
                (init s1).0,
                (init s1).1,
                first ∙ e',
                n,
                counts.attribute_used s1 ∙ counts.attribute_set s,
                (counts.mutex_created s1).1 n ∙ counts.mutex_kept_by_settype s,
              )
            ]
      ]

  -- The constructor from any state of the library: it returns with one more mutex and no attribute
  -- object left, or it throws a `system_error` with an error number that is not 0, and then there
  -- are as many mutexes and attribute objects as before.
  pub mutex_construct_lem :
      (s : S)
      → ((s' : S) × (construct pthreads s ≡ returned tt s')
          × (attributes s' ≡ attributes s)
          × (mutexes s' ≡ mutexes s + 1))
        ⊎ ((error : ℕ) × (s' : S) × (construct pthreads s ≡ threw (system_error error) s')
            × (error ≢ 0)
            × (attributes s' ≡ attributes s)
            × (mutexes s' ≡ mutexes s))
  unfolding construct configure
  mutex_construct_lem s =
      let init = pthreads.mutexattr_init in
      let destroy = pthreads.mutexattr_destroy in
      let s1 = (init s).1 in
      let guarded = cleaning_up configure (unchecked destroy) in
      let rest = guarded >> unchecked destroy in
      elim (checked_lem init s) [
        | inr (n, e) ↦ inr (
          (init s).0,
          s1,
          >>=-threw (checked init) (λ _. rest) e,
          n,
          (counts.attribute_created s).1 n,
          counts.mutex_kept_by_init s,
        )
        | inl (z, e) ↦
            let first = >>=-returned (checked init) (λ _. rest) e in
            let created = (counts.attribute_created s).0 z in
            elim (configure_lem s1) [
              | inl (s2, e', same, more) ↦ inl (
                (destroy s2).1,
                first
                    ∙ >>=-returned guarded (λ _. unchecked destroy)
                        (cleaning_up-returned configure (unchecked destroy) e')
                    ∙ unchecked_lem destroy s2,
                omega (arith, counts.attribute_destroyed s2),
                omega (arith, counts.mutex_kept_by_destroy s2, counts.mutex_kept_by_init s),
              )
              | inr (error, s2, e', n, same, kept) ↦ inr (
                error,
                (destroy s2).1,
                first
                    ∙ >>=-threw guarded (λ _. unchecked destroy)
                        (cleaning_up-threw configure destroy e'),
                n,
                omega (arith, counts.attribute_destroyed s2),
                omega (arith, counts.mutex_kept_by_destroy s2, counts.mutex_kept_by_init s),
              )
            ]
      ]
