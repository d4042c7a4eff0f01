-- ===== src/Gpu/Types/Counts.antt =====
-- What the operations on product counts do to the count of each product.
use text.Mathlib.TextEquality.{eq_iff}
use resource_extend.Base.{
  String, ◌≡◌, refl, [], ◌∷◌, if◌then◌else◌, none, arith, ◌∙◌, sym, inl, inr, Bool-cases,
}
use resource_extend.Base.Int.{ℤ, pos, eq_of_parts}
use resource_extend.Base.Word.{
  add64, sub64, InRange, add64-zero, sub64-zero, add64-InRange, sub64-InRange,
}
use resource_extend.Base.Dict.{
  count_of-insert, count_of-erase, count_of_cons, count_of_absent, lookup_nil, lookup, insert,
  count_of, IsMap, ◌=s◌, =s_iff, insert-IsMap, erase-IsMap,
}
use resource_extend.Gpu.Types.{ProdCountMap, drop_zero, add, sub}

drop_zero-IsMap : (j : String) (m : ProdCountMap) → IsMap m → IsMap (drop_zero j m)
unfolding drop_zero
drop_zero-IsMap j m h = ground (arith, erase-IsMap j m h)

count_of-drop_zero :
    (j k : String) (m : ProdCountMap) → IsMap m → count_of k (drop_zero j m) ≡ count_of k m
unfolding drop_zero
count_of-drop_zero j k m h =
    ground (arith, count_of-erase j k m h, eq_of_parts (count_of j m) (pos 0), eq_iff j k)

-- One round of the loop of `Add` and `Sub`, which writes `v` for the product.
abbrev pub put : String → ℤ → ProdCountMap → ProdCountMap
put prod v m = drop_zero prod (insert prod v m)

put-IsMap : (j : String) (v : ℤ) (m : ProdCountMap) → IsMap m → IsMap (put j v m)
put-IsMap j v m h = drop_zero-IsMap j (insert j v m) (insert-IsMap j v m h)

count_of-put :
    (j k : String) (v : ℤ) (m : ProdCountMap)
    → IsMap m
    → count_of k (put j v m) ≡ (if j =s k then v else count_of k m)
count_of-put j k v m h =
    count_of-drop_zero j k (insert j v m) (insert-IsMap j v m h) ∙ count_of-insert j k v m

pub add-IsMap : (m m1 : ProdCountMap) → IsMap m → IsMap (add m m1)
unfolding add
add-IsMap m [] h = h
add-IsMap m ((j, n) ∷ m1) h = add-IsMap (put j _ m) m1 (put-IsMap j _ m h)

pub sub-IsMap : (m m1 : ProdCountMap) → IsMap m → IsMap (sub m m1)
unfolding sub
sub-IsMap m [] h = h
sub-IsMap m ((j, n) ∷ m1) h = sub-IsMap (put j _ m) m1 (put-IsMap j _ m h)

-- A loop that writes `op m[prod] n` for each product, with an `op` that leaves a value alone at 0.
module _ (op : ℤ → ℤ → ℤ) (op-zero : (a : ℤ) → InRange a → op a (pos 0) ≡ a)
    (op-InRange : (a b : ℤ) → InRange (op a b)) where
  round_count :
      (j k : String) (n : ℤ) (m m1 : ProdCountMap)
      → IsMap m
      → lookup j m1 ≡ none
      → InRange (count_of k m)
      → (op (count_of k (put j (op (count_of j m) n) m)) (count_of k m1)
          ≡ op (count_of k m) (count_of k ((j, n) ∷ m1)))
        × InRange (count_of k (put j (op (count_of j m) n) m))
  round_count j k n m m1 h h1 r = elim (Bool-cases (j =s k)) [
    | inl e ↦
        let j-eq : j ≡ k = (=s_iff j k).0 e in
        rw (count_of-put j k _ m h, count_of_cons j k n m1, e)
          (rw (← j-eq, count_of_absent j m1 h1)
            (op-zero _ (op-InRange (count_of j m) n), op-InRange (count_of j m) n))
    | inr e ↦ rw (count_of-put j k _ m h, count_of_cons j k n m1, e) (refl, r)
  ]

-- Where both are maps and the count in `m` fits `int`, `Add` adds the two counts of each product, 0 where
-- a map lacks it, with `int`'s wrap-around.
pub count_of-add :
    (k : String) (m m1 : ProdCountMap)
    → IsMap m
    → IsMap m1
    → InRange (count_of k m)
    → count_of k (add m m1) ≡ add64 (count_of k m) (count_of k m1)
unfolding add
count_of-add k m [] h h1 r = rw (count_of_absent k [] (lookup_nil k)) (sym (add64-zero _ r))
count_of-add k m ((j, n) ∷ m1) h h1 r =
    let step = round_count add64 add64-zero add64-InRange j k n m m1 h h1.0 r in
    count_of-add k (put j (add64 (count_of j m) n) m) m1 (put-IsMap j _ m h) h1.1 step.1 ∙ step.0

-- Where both are maps and the count in `m` fits `int`, `Sub` subtracts the count in `m1` from the one in
-- `m`, 0 where a map lacks the product, with `int`'s wrap-around.
pub count_of-sub :
    (k : String) (m m1 : ProdCountMap)
    → IsMap m
    → IsMap m1
    → InRange (count_of k m)
    → count_of k (sub m m1) ≡ sub64 (count_of k m) (count_of k m1)
unfolding sub
count_of-sub k m [] h h1 r = rw (count_of_absent k [] (lookup_nil k)) (sym (sub64-zero _ r))
count_of-sub k m ((j, n) ∷ m1) h h1 r =
    let step = round_count sub64 sub64-zero sub64-InRange j k n m m1 h h1.0 r in
    count_of-sub k (put j (sub64 (count_of j m) n) m) m1 (put-IsMap j _ m h) h1.1 step.1 ∙ step.0
