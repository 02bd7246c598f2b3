-- ===== src/PThreadsMutex/Tests.antt =====
-- include/cpp_playground/threading/pthreads_mutex.hpp, at concrete libraries.
use cpp_playground.PThreadsMutex.{PThreads, construct, busy, lock, try_lock, unlock, checked}
use cpp_playground.PThreadsMutex.Errors.{
  CountsObjects, mutex_construct_lem, deadlock, not_permitted,
}
use cpp_playground.PThreadsMutex.Exclusion.{
  Call, ChecksErrors, run, calls-Exclusive, perform, Event, locking, Exclusive, trying, unlocking,
  acquired, refused, released,
}
use cpp_playground.Prelude.{
  ℕ, ◌≡◌, ◌≢◌, refl, none, some, [], ◌∷◌, inl, inr, Option, returned, ◌+◌, ◌-◌, ◌⊎◌, if◌then◌else◌,
  threw, system_error, ◌==◌, List, arith, Bool-cases,
}

-- The number of attribute objects, of mutexes, and the owner of the mutex.
record Library : Type 0 where
  attributes : ℕ
  mutexes : ℕ
  owner : Option ℕ

-- The library for thread `t`, which has no memory for a second mutex.
abbrev library : ℕ → PThreads Library
library t = record {
  mutexattr_init = λ s. (0, record s { attributes = s.attributes + 1 });
  mutexattr_settype_errorcheck = λ s. (0, s);
  mutexattr_destroy = λ s. (0, record s { attributes = s.attributes - 1 });
  mutex_init = λ s. if s.mutexes == 0 then (0, record s { mutexes = s.mutexes + 1 }) else (12, s);
  mutex_destroy = λ s. (0, record s { mutexes = s.mutexes - 1 });
  mutex_lock =
      λ s. elim s.owner [ none ↦ (0, record s { owner = some t }) | some t' ↦ (deadlock, s) ];
  mutex_trylock =
      λ s. elim s.owner [ none ↦ (0, record s { owner = some t }) | some t' ↦ (busy, s) ];
  mutex_unlock = λ s. elim s.owner [
    | none ↦ (not_permitted, s)
    | some t' ↦ if t' == t then (0, record s { owner = none }) else (not_permitted, s)
  ];
}

library-CountsObjects : (t : ℕ) → CountsObjects (library t) (λ s. s.attributes) (λ s. s.mutexes)
library-CountsObjects t = record {
  attribute_created = λ s. ((λ z. refl), λ n. ground arith);
  attribute_set = λ s. refl;
  attribute_destroyed = λ s. refl;
  attribute_used =
      λ s. elim (Bool-cases (s.mutexes == 0)) [ inl e ↦ rw e refl | inr e ↦ rw e refl ];
  mutex_created = λ s. (ground arith, ground arith);
  mutex_kept_by_init = λ s. refl;
  mutex_kept_by_settype = λ s. refl;
  mutex_kept_by_destroy = λ s. refl;
}

library-ChecksErrors : ChecksErrors library (λ s. s.owner)
library-ChecksErrors = record {
  locked = λ t s z. ground arith;
  not_locked = λ t s n. ground arith;
  tried = λ t s z. ground arith;
  not_tried = λ t s n. ground arith;
  unlocked = λ t s z. ground arith;
  not_unlocked = λ t s n. ground arith;
}

abbrev one_mutex : Library
one_mutex = record { attributes = 0; mutexes = 1; owner = none }

mutex_construct_lem_example :
    ((s' : Library) × (construct (library 0) one_mutex ≡ returned tt s')
      × (s'.attributes ≡ 0)
      × (s'.mutexes ≡ 2))
    ⊎ ((error : ℕ) × (s' : Library) × (construct (library 0) one_mutex
          ≡ threw (system_error error) s')
        × (error ≢ 0)
        × (s'.attributes ≡ 0)
        × (s'.mutexes ≡ 1))
mutex_construct_lem_example =
    mutex_construct_lem (library 0) (λ s. s.attributes) (λ s. s.mutexes) (library-CountsObjects 0)
      one_mutex

abbrev calls : List (ℕ × Call)
calls =
    (1, locking) ∷ (2, trying) ∷ (2, unlocking) ∷ (1, locking) ∷ (1, unlocking) ∷ (2, trying) ∷ []

events_lem :
    elim (run library calls one_mutex) as (λ _. List Event) [ none ↦ [] | some (es, s) ↦ es ]
    ≡ acquired 1 ∷ refused ∷ refused ∷ refused ∷ released 1 ∷ acquired 2 ∷ []
unfolding run perform lock try_lock unlock checked
events_lem = refl

calls-Exclusive_example :
    (es : List Event) × (s' : Library) × (run library calls one_mutex ≡ some (es, s'))
    × Exclusive none es s'.owner
calls-Exclusive_example =
    calls-Exclusive library (λ s. s.owner) library-ChecksErrors calls one_mutex
