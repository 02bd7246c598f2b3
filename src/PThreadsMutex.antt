-- ===== src/PThreadsMutex.antt =====
-- include/cpp_playground/threading/pthreads_mutex.hpp: a mutex of the pthreads library. Its calls
-- are parameters: each maps the state of the library to an error number and a new state.
pub mod Errors
pub mod Exclusion
mod Tests
use cpp_playground.Prelude.{
  ℕ, zero, suc, Bool, true, false, Action, Outcome, returned, threw, fault, system_error, ◌==◌,
  if◌then◌else◌, ◌>>=◌, ◌>>◌, pure, throw,
}

-- The calls of the library that the class makes, on its mutex and on one attribute object.
pub record PThreads {ℓ} (S : Type ℓ) : Type ℓ where
  pub mutexattr_init : S → ℕ × S
  pub mutexattr_settype_errorcheck : S → ℕ × S
  pub mutexattr_destroy : S → ℕ × S
  pub mutex_init : S → ℕ × S
  pub mutex_destroy : S → ℕ × S
  pub mutex_lock : S → ℕ × S
  pub mutex_trylock : S → ℕ × S
  pub mutex_unlock : S → ℕ × S

-- `EBUSY`
abbrev pub busy : ℕ
busy = 16

module _ {ℓ} {S : Type ℓ} where
  -- `if (int err = call(); err != 0) throw std::system_error(err, ...)`
  pub checked : (S → ℕ × S) → Action S (Unit {0})
  checked call s =
      let (err, s') = call s in if err == 0 then returned tt s' else threw (system_error err) s'

  -- A call whose result is ignored.
  pub unchecked : (S → ℕ × S) → Action S (Unit {0})
  unchecked call s = returned tt (call s).1

  -- `try { body } catch (...) { handler; throw; }`
  pub cleaning_up : Action S (Unit {0}) → Action S (Unit {0}) → Action S (Unit {0})
  cleaning_up body handler s = elim (body s) [
    | returned a s' ↦ returned a s'
    | threw e s' ↦ (do handler; throw e) s'
    | fault ↦ fault
  ]

module _ {ℓ} {S : Type ℓ} (pthreads : PThreads S) where
  open pthreads use {
    mutexattr_init, mutexattr_settype_errorcheck, mutexattr_destroy, mutex_init, mutex_destroy,
    mutex_lock, mutex_trylock, mutex_unlock,
  }

  pub construct : Action S (Unit {0})
  unfolding checked unchecked cleaning_up
  construct = do
    checked mutexattr_init
    cleaning_up (do checked mutexattr_settype_errorcheck; checked mutex_init)
        (unchecked mutexattr_destroy)
    unchecked mutexattr_destroy

  pub destruct : Action S (Unit {0})
  unfolding unchecked
  destruct = unchecked mutex_destroy

  pub lock : Action S (Unit {0})
  unfolding checked
  lock = checked mutex_lock

  pub try_lock : Action S Bool
  try_lock s =
      let (err, s') = mutex_trylock s in
      if err == 0
      then returned true s'
      else if err == busy
      then returned false s'
      else threw (system_error err) s'

  pub unlock : Action S (Unit {0})
  unfolding checked
  unlock = checked mutex_unlock
