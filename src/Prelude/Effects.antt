-- ===== src/Prelude/Effects.antt =====
-- What a C++ member function does to its object: it returns, it throws and leaves the object in
-- some state, or its behaviour is undefined.
use Prim.Native.Nat.{ℕ}
use mathlib.Core.Path.{◌≡◌}
use mathlib.Core.Option.{Option, none, some}

-- The exceptions that the headers throw.
pub data Exception : Type 0 where
  length_error out_of_range invalid_argument logic_error : Exception
  bad_alloc bad_optional_access bad_function_call : Exception
  system_error : ℕ → Exception

-- `threw e s`: the exception leaves the object in state `s`. `fault`: undefined behaviour, or an
-- object whose storage is reused while it is alive.
pub data Outcome {ℓ κ} (S : Type ℓ) (A : Type κ) : Type (ℓ ⊔ κ) where
  returned : A → S → Outcome S A
  threw : Exception → S → Outcome S A
  fault : Outcome S A

abbrev pub Action {ℓ κ} : Type ℓ → Type κ → Type (ℓ ⊔ κ)
Action S A = S → Outcome S A

infixl 5 ◌>>=◌ ◌>>◌
abbrev pub ◌>>=◌ {ℓ κ μ} :
    {S : Type ℓ} {A : Type κ} {B : Type μ} → Action S A → (A → Action S B) → Action S B
◌>>=◌ m f s = elim (m s) [ returned a s' ↦ f a s' | threw e s' ↦ threw e s' | fault ↦ fault ]

abbrev pub ◌>>◌ {ℓ μ} : {S : Type ℓ} {B : Type μ} → Action S (Unit {0}) → Action S B → Action S B
m >> k = m >>= λ _. k

abbrev pub pure {ℓ κ} : {S : Type ℓ} {A : Type κ} → A → Action S A
pure a s = returned a s

abbrev pub throw {ℓ κ} : {S : Type ℓ} {A : Type κ} → Exception → Action S A
throw e s = threw e s

-- A value that is there, or undefined behaviour.
abbrev pub expect {ℓ κ} : {S : Type ℓ} {A : Type κ} → Option A → Action S A
expect none s = fault
expect (some a) s = returned a s

-- What a sequence does when its first part returns, and when it throws.
module _ {ℓ κ μ} {S : Type ℓ} {A : Type κ} {B : Type μ} where
  pub >>=-returned :
      (m : Action S A) (f : A → Action S B) {s s' : S} {a : A}
      → m s ≡ returned a s'
      → (m >>= f) s ≡ f a s'
  >>=-returned m f {s} e = rw (e, ◌>>=◌)

  pub >>=-threw :
      (m : Action S A) (f : A → Action S B) {s s' : S} {x : Exception}
      → m s ≡ threw x s'
      → (m >>= f) s ≡ threw x s'
  >>=-threw m f {s} e = rw (e, ◌>>=◌)

  pub >>=-fault : (m : Action S A) (f : A → Action S B) {s : S} → m s ≡ fault → (m >>= f) s ≡ fault
  >>=-fault m f {s} e = rw (e, ◌>>=◌)
