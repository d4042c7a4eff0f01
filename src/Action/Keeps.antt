-- ===== src/Action/Keeps.antt =====
-- Calls that keep a property of the state, whatever they answer: rules for their parts.
use resource_extend.Base.{inl, inr}
use resource_extend.Errors.{Result, Result-cases}
use resource_extend.Action.{Action, pure, lift, reads, ◌>>=◌, ◌>>◌}

pub record Keeps {S : Type 0} (V : S → Type 0) (A : Type 0) (m : Action S A) : Type 0 where
  pub apply : (st : S) → V st → V (m st).1

module _ {S : Type 0} {V : S → Type 0} where
  pub Keeps-bind :
      {A B : Type 0} (m : Action S A) (f : A → Action S B)
      → Keeps V A m
      → ((a : A) → Keeps V B (f a))
      → Keeps V B (m >>= f)
  unfolding ◌>>=◌
  Keeps-bind m f hm hf = record {
    apply = λ st all. elim (Result-cases (m st).0) [
      | inl (a, e) ↦ rw (e, ◌>>=◌) ((hf a).apply (m st).1 (hm.apply st all))
      | inr (g, e) ↦ rw (e, ◌>>=◌) (hm.apply st all)
    ];
  }

  pub Keeps-lift : {A : Type 0} (r : Result A) → Keeps V A (lift r)
  unfolding lift
  Keeps-lift r = record { apply = λ st all. all }

  pub Keeps-reads : {A : Type 0} (f : S → Result A) → Keeps V A (reads f)
  unfolding reads
  Keeps-reads f = record { apply = λ st all. all }

  pub Keeps-pure : {A : Type 0} (a : A) → Keeps V A (pure a)
  unfolding pure
  Keeps-pure a = record { apply = λ st all. all }

  pub Keeps-then :
      {B : Type 0} (m : Action S (Unit {0})) (k : Action S B)
      → Keeps V (Unit {0}) m
      → Keeps V B k
      → Keeps V B (m >> k)
  unfolding ◌>>◌
  Keeps-then m k hm hk = Keeps-bind m (λ _. k) hm (λ _. hk)

pub ruleset call_parts = (Keeps-bind, Keeps-then, Keeps-lift, Keeps-reads, Keeps-pure)
