-- ===== src/Storage/Volumes/Sizes.antt =====
-- What the operations on volumes do to the size on each device and to the total.
use resource_extend.Base.{
  String, ◌≡◌, refl, sym, ◌∙◌, ap, [], ◌∷◌, none, inl, inr, arith, Bool-cases,
}
use resource_extend.Base.Int.{ℤ, pos}
use resource_extend.Base.Word.{
  add64, sub64, InRange, add64-zero, sub64-zero, add64-InRange, sub64-InRange, sub64-add64,
  add64_assoc, add64_comm, add64_swap,
}
use resource_extend.Base.Dict.{
  lookup, insert, count_of, IsMap, count_of-insert, count_of_cons, count_of_absent, lookup_nil,
  ◌=s◌, =s_iff,
}
use resource_extend.Storage.Volumes.{Volumes, add, sub, total, total_from}

module _ (op : ℤ → ℤ → ℤ) (op-zero : (a : ℤ) → InRange a → op a (pos 0) ≡ a)
    (op-InRange : (a b : ℤ) → InRange (op a b)) where
  round_size :
      (j k : String) (n : ℤ) (v v1 : Volumes)
      → lookup j v1 ≡ none
      → InRange (count_of k v)
      → (op (count_of k (insert j (op (count_of j v) n) v)) (count_of k v1)
          ≡ op (count_of k v) (count_of k ((j, n) ∷ v1)))
        × InRange (count_of k (insert j (op (count_of j v) n) v))
  round_size j k n v v1 h1 r = elim (Bool-cases (j =s k)) [
    | inl e ↦
        let j-eq : j ≡ k = (=s_iff j k).0 e in
        rw (count_of-insert j k (op (count_of j v) n) v, count_of_cons j k n v1, e)
          (rw (← j-eq, count_of_absent j v1 h1)
            (op-zero _ (op-InRange (count_of j v) n), op-InRange (count_of j v) n))
    | inr e ↦ rw (count_of-insert j k (op (count_of j v) n) v, count_of_cons j k n v1, e) (refl, r)
  ]

-- Where each device stands once in `v1` and its size in `v` fits `int64`, `Add` adds the two sizes of a
-- device, 0 where a map lacks it, with `int64`'s wrap-around.
pub size_of-add :
    (k : String) (v v1 : Volumes)
    → IsMap v1
    → InRange (count_of k v)
    → count_of k (add v v1) ≡ add64 (count_of k v) (count_of k v1)
unfolding add
size_of-add k v [] h1 r = rw (count_of_absent k [] (lookup_nil k)) (sym (add64-zero _ r))
size_of-add k v ((j, n) ∷ v1) h1 r =
    let step = round_size add64 add64-zero add64-InRange j k n v v1 h1.0 r in
    size_of-add k (insert j (add64 (count_of j v) n) v) v1 h1.1 step.1 ∙ step.0

-- Where each device stands once in `v1` and its size in `v` fits `int64`, `Sub` subtracts the size in
-- `v1` from the one in `v`, 0 where a map lacks the device, with `int64`'s wrap-around.
pub size_of-sub :
    (k : String) (v v1 : Volumes)
    → IsMap v1
    → InRange (count_of k v)
    → count_of k (sub v v1) ≡ sub64 (count_of k v) (count_of k v1)
unfolding sub
size_of-sub k v [] h1 r = rw (count_of_absent k [] (lookup_nil k)) (sym (sub64-zero _ r))
size_of-sub k v ((j, n) ∷ v1) h1 r =
    let step = round_size sub64 sub64-zero sub64-InRange j k n v v1 h1.0 r in
    size_of-sub k (insert j (sub64 (count_of j v) n) v) v1 h1.1 step.1 ∙ step.0

total_from-InRange : (a : ℤ) (v : Volumes) → InRange a → InRange (total_from a v)
unfolding total_from
total_from-InRange a [] r = r
total_from-InRange a ((j, n) ∷ v) r = total_from-InRange (add64 a n) v (add64-InRange a n)

total_from-add64 : (a b : ℤ) (v : Volumes) → total_from (add64 a b) v ≡ add64 a (total_from b v)
unfolding total_from
total_from-add64 a b [] = refl
total_from-add64 a b ((j, n) ∷ v) =
    ap (λ t. total_from t v) (add64_assoc a b n) ∙ total_from-add64 a (add64 b n) v

total_cons : (j : String) (n : ℤ) (v : Volumes) → total ((j, n) ∷ v) ≡ add64 n (total v)
unfolding total
total_cons j n v = ap (λ t. total_from t v) (add64_comm (pos 0) n) ∙ total_from-add64 n (pos 0) v

-- A write changes the total by the difference to the old size.
total-insert :
    (j : String) (x : ℤ) (v : Volumes)
    → add64 (total (insert j x v)) (count_of j v) ≡ add64 (total v) x
unfolding insert
total-insert j x [] =
    rw (total_cons j x [], count_of_absent j [] (lookup_nil j))
      (unfold total total_from in
        (add64_swap x (pos 0) (pos 0) ∙ ap (λ t. add64 t x) (add64-zero (pos 0) (omega arith))))
total-insert j x ((i, w) ∷ v) = elim (Bool-cases (i =s j)) [
  | inl e ↦
      rw (count_of_cons i j w v, total_cons i w v, e)
        (rw (total_cons i x v) (add64_swap x (total v) w))
  | inr e ↦
      rw (count_of_cons i j w v, total_cons i w v, e)
        (rw (total_cons i w (insert j x v)) (
          add64_assoc w (total (insert j x v)) (count_of j v)
          ∙ ap (add64 w) (total-insert j x v)
          ∙ sym (add64_assoc w (total v) x)))
]

total-InRange : (v : Volumes) → InRange (total v)
unfolding total
total-InRange v = total_from-InRange (pos 0) v (omega arith)

total-insert_more :
    (j : String) (n : ℤ) (v : Volumes)
    → total (insert j (add64 (count_of j v) n) v) ≡ add64 (total v) n
total-insert_more j n v =
    let c = count_of j v in
    sym (sub64-add64 (total (insert j (add64 c n) v)) c (total-InRange _))
    ∙ ap (λ t. sub64 t c)
        (total-insert j (add64 c n) v
          ∙ ap (add64 (total v)) (add64_comm c n)
          ∙ sym (add64_assoc (total v) n c))
    ∙ sub64-add64 (add64 (total v) n) c (add64-InRange _ _)

-- The total after `Add` is the sum of the two totals, with `int64`'s wrap-around.
pub total-add : (v v1 : Volumes) → total (add v v1) ≡ add64 (total v) (total v1)
unfolding add total
total-add v [] = sym (add64-zero (total v) (total-InRange v))
total-add v ((j, n) ∷ v1) =
    total-add (insert j (add64 (count_of j v) n) v) v1
    ∙ ap (λ t. add64 t (total v1)) (total-insert_more j n v)
    ∙ add64_assoc (total v) n (total v1)
    ∙ ap (add64 (total v)) (sym (total_cons j n v1))
