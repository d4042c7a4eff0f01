-- ===== src/Base/Dict.antt =====
-- Go's maps with string keys, as association lists with each key once; a `range` over a map goes
-- through the list in its order, so what holds of every list holds of every order of a `range`.
use Prim.Native.String.{String}
use text.Mathlib.Text.{◌==◌}
use text.Mathlib.TextEquality.{eq_iff}
use mathlib.Core.Path.{◌≡◌, refl}
use mathlib.Core.Bool.{Bool, true}
use mathlib.Core.Option.{Option, none, some}
use mathlib.Core.List.{List, [], ◌∷◌}
use native.Mathlib.Omega.{arith}
use resource_extend.Base.Tests.{if◌then◌else◌}
use resource_extend.Base.Int.{ℤ, pos}

abbrev pub Dict {ℓ} : Type ℓ → Type ℓ
Dict V = List (String × V)

infix 50 ◌=s◌
abbrev pub ◌=s◌ : String → String → Bool
a =s b = a == b

pub =s_iff : (a b : String) → ((a =s b) ≡ true → a ≡ b) × (a ≡ b → (a =s b) ≡ true)
=s_iff a b = eq_iff a b

module _ {ℓ} {V : Type ℓ} where
  unfoldable pub lookup : String → Dict V → Option V
  lookup k [] = none
  lookup k ((j, v) ∷ m) = if j =s k then some v else lookup k m

  -- `m[k] = v`
  unfoldable pub insert : String → V → Dict V → Dict V
  insert k v [] = (k, v) ∷ []
  insert k v ((j, w) ∷ m) = if j =s k then (j, v) ∷ m else (j, w) ∷ insert k v m

  -- `delete(m, k)`
  unfoldable pub erase : String → Dict V → Dict V
  erase k [] = []
  erase k ((j, w) ∷ m) = if j =s k then m else (j, w) ∷ erase k m

  -- Each key stands once.
  abbrev pub IsMap : Dict V → Type ℓ
  IsMap [] = Unit
  IsMap ((k, v) ∷ m) = (lookup k m ≡ none) × IsMap m

  pub lookup-insert :
      (k j : String) (new : V) (m : Dict V)
      → lookup j (insert k new m) ≡ (if k =s j then some new else lookup j m)
  unfolding insert lookup
  lookup-insert k j new [] = refl
  lookup-insert k j new ((i, old) ∷ m) =
      ground (arith, lookup-insert k j new m, eq_iff i j, eq_iff i k, eq_iff k j)

  pub lookup-erase :
      (k j : String) (m : Dict V)
      → IsMap m
      → lookup j (erase k m) ≡ (if k =s j then none else lookup j m)
  unfolding lookup erase
  lookup-erase k j [] h = ground arith
  lookup-erase k j ((i, w) ∷ m) h =
      ground (arith, eq_iff k j, eq_iff i k, eq_iff i j, lookup-erase k j m h.1)

  pub lookup_here : (k : String) (v : V) (m : Dict V) → lookup k ((k, v) ∷ m) ≡ some v
  unfolding lookup
  lookup_here k v m = ground (arith, eq_iff k k)

  pub insert-IsMap : (k : String) (v : V) (m : Dict V) → IsMap m → IsMap (insert k v m)
  unfolding insert lookup
  insert-IsMap k v [] h = (refl, tt)
  insert-IsMap k v ((i, w) ∷ m) h =
      ground (arith, insert-IsMap k v m h.1, lookup-insert k i v m, eq_iff i k, eq_iff k i)

  pub erase-IsMap : (k : String) (m : Dict V) → IsMap m → IsMap (erase k m)
  unfolding erase
  erase-IsMap k [] h = tt
  erase-IsMap k ((i, w) ∷ m) h = ground (arith, erase-IsMap k m h.1, lookup-erase k i m h.1)

-- `m[k]` of a map of numbers: a missing key reads as 0.
unfoldable pub or_zero : Option ℤ → ℤ
or_zero none = pos 0
or_zero (some v) = v

unfoldable pub count_of : String → Dict ℤ → ℤ
unfolding or_zero
count_of k m = or_zero (lookup k m)

pub count_of-insert :
    (j k : String) (v : ℤ) (m : Dict ℤ)
    → count_of k (insert j v m) ≡ (if j =s k then v else count_of k m)
unfolding count_of
count_of-insert j k v m = ground (arith, lookup-insert j k v m)

pub count_of-erase :
    (j k : String) (m : Dict ℤ)
    → IsMap m
    → count_of k (erase j m) ≡ (if j =s k then pos 0 else count_of k m)
unfolding count_of
count_of-erase j k m h = ground (arith, lookup-erase j k m h)

pub count_of_cons :
    (j k : String) (n : ℤ) (m : Dict ℤ)
    → count_of k ((j, n) ∷ m) ≡ (if j =s k then n else count_of k m)
unfolding count_of lookup
count_of_cons j k n m = ground arith

pub count_of_absent : (k : String) (m : Dict ℤ) → lookup k m ≡ none → count_of k m ≡ pos 0
unfolding count_of
count_of_absent k m h = ground arith

pub lookup_nil {ℓ} : {V : Type ℓ} (k : String) → lookup {V = V} k [] ≡ none
unfolding lookup
lookup_nil k = refl
