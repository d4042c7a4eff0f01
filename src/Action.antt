-- ===== src/Action.antt =====
-- A call that reads and writes the store: state passing, with a result that may be an error. What
-- was written before an error stays written.
pub mod Keeps
use resource_extend.Base.{◌≡◌, ap, arith}
use resource_extend.Errors.{Error, Result, ok, err}

abbrev pub Action : Type 0 → Type 0 → Type 0
Action S A = S → Result A × S

module _ {S A : Type 0} where
  unfoldable pub pure : A → Action S A
  pure a st = (ok a, st)

  unfoldable pub lift : Result A → Action S A
  lift r st = (r, st)

  -- A read of the state.
  unfoldable pub reads : (S → Result A) → Action S A
  reads f st = (f st, st)

abbrev pub continue : {S A B : Type 0} → (A → Action S B) → Result A × S → Result B × S
continue f (ok a, st) = f a st
continue f (err e, st) = (err e, st)

infixl 5 ◌>>=◌ ◌>>◌
unfoldable pub ◌>>=◌ : {S A B : Type 0} → Action S A → (A → Action S B) → Action S B
◌>>=◌ m f st = continue f (m st)

unfoldable pub ◌>>◌ : {S B : Type 0} → Action S (Unit {0}) → Action S B → Action S B
unfolding ◌>>=◌
m >> k = m >>= λ _. k

-- How a sequence goes on after a first part whose outcome is known.
pub >>=-ok :
    {S A B : Type 0} (m : Action S A) (f : A → Action S B) (st : S) {t : S} {a : A}
    → m st ≡ (ok a, t)
    → (m >>= f) st ≡ f a t
unfolding ◌>>=◌
>>=-ok m f st h = ap (continue f) h

pub >>=-err :
    {S A B : Type 0} (m : Action S A) (f : A → Action S B) (st : S) {t : S} {e : Error}
    → m st ≡ (err e, t)
    → (m >>= f) st ≡ (err e, t)
unfolding ◌>>=◌
>>=-err m f st h = ap (continue f) h

-- A call has one outcome.
pub answered :
    {A S : Type 0} {a b : A} {st st' : S}
    → ◌≡◌ {A = Result A × S} (ok a, st) (ok b, st')
    → (a ≡ b) × (st ≡ st')
answered h = ground arith

pub refused :
    {A S : Type 0} {f : Error} {b : A} {st st' : S}
    → ◌≡◌ {A = Result A × S} (err f, st) (ok b, st')
    → ⊥
refused h = ground arith
