-- ===== src/Http.antt =====
-- The exceptions that the services throw, and what a service method is: it reads and writes the state,
-- and returns a value or throws. What was written before a throw stays written.
use tmx_assessment.Prelude.{String, List, Bool, true, false, Option, none, some}

pub data HttpError : Type 0 where
  bad_request : List String → HttpError
  unauthorized : String → HttpError
  forbidden : String → HttpError
  not_found : String → HttpError
  conflict : String → HttpError
  gone : String → HttpError
  unavailable : String → HttpError
  -- an exception that no method of the program throws on purpose
  internal : HttpError

pub data Result {ℓ} (A : Type ℓ) : Type ℓ where
  ok : A → Result A
  err : HttpError → Result A

abbrev pub Action : Type 0 → Type 0 → Type 0
Action S A = S → Result A × S

module _ {S A : Type 0} where
  abbrev pub pure : A → Action S A
  pure a s = (ok a, s)

  abbrev pub throw : HttpError → Action S A
  throw e s = (err e, s)

  abbrev pub gets : (S → A) → Action S A
  gets f s = (ok (f s), s)

  -- `if (!found) throw e`
  abbrev pub found_or : HttpError → Option A → Action S A
  found_or e none s = (err e, s)
  found_or e (some a) s = (ok a, s)

module _ {S : Type 0} where
  abbrev pub modify : (S → S) → Action S (Unit {0})
  modify f s = (ok tt, f s)

  -- `if (b) throw e`
  abbrev pub throw_if : Bool → HttpError → Action S (Unit {0})
  throw_if true e s = (err e, s)
  throw_if false e s = (ok tt, s)

  abbrev pub done : Action S (Unit {0})
  done s = (ok tt, s)

module _ {S A B : Type 0} where
  abbrev pub continue : (A → Action S B) → Result A × S → Result B × S
  continue f (ok a, s) = f a s
  continue f (err e, s) = (err e, s)

  infixl 10 ◌>>=◌ ◌>>◌
  abbrev pub ◌>>=◌ : Action S A → (A → Action S B) → Action S B
  ◌>>=◌ m f s = continue f (m s)

  abbrev pub ◌>>◌ : Action S A → Action S B → Action S B
  m >> n = m >>= λ _. n
