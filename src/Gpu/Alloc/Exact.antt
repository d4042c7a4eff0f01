-- ===== src/Gpu/Alloc/Exact.antt =====
-- The allocation loop: what it takes for a deployment to be granted, and what it then returns.
use text.Mathlib.TextEquality.{eq_iff}
use resource_extend.Base.{ℕ, suc, ◌+◌, ◌≤◌, ◌≡◌, refl, [], ◌∷◌, ◌++◌, arith, String, none}
use resource_extend.Base.Int.{ℤ, pos, pos_part, ◌<ℤ◌, ltb_ℤ, ◌-ℤ◌, -ℤ_parts, one_sign}
use resource_extend.Base.Word.{sub64, InRange, sub64-eq, sub64-InRange}
use resource_extend.Base.Dict.{count_of-insert, lookup, insert, count_of, IsMap}
use resource_extend.Gpu.Types.{ProdCountMap}
use resource_extend.Gpu.Alloc.{is_short}
use resource_extend.Gpu.Types.Valid.{IsPositive, AllInRange}
use resource_extend.Gpu.Alloc.Fits.{Fits}

-- A positive request is short exactly where less than that is available; a missing product
-- counts as none.
pub is_short_lem :
    (prod : String) (n : ℤ) (available : ProdCountMap)
    → pos 0 <ℤ n
    → is_short (lookup prod available) n ≡ ltb_ℤ (count_of prod available) n
unfolding is_short count_of
is_short_lem prod n available h = ground arith

count_of-insert_self : (j : String) (v : ℤ) (m : ProdCountMap) → count_of j (insert j v m) ≡ v
count_of-insert_self j v m = ground (arith, count_of-insert j j v m, eq_iff j j)

-- The counts after one deployment.
unfoldable pub taken_from : ProdCountMap → ProdCountMap → ProdCountMap
taken_from available [] = available
taken_from available ((prod, n) ∷ req) =
    taken_from (insert prod (sub64 (count_of prod available) n) available) req

-- A product that the rest of the request does not name keeps its count.
count_of-taken_from_other :
    (k : String) (available req : ProdCountMap)
    → lookup k req ≡ none
    → count_of k (taken_from available req) ≡ count_of k available
unfolding taken_from lookup
count_of-taken_from_other k available [] h = refl
count_of-taken_from_other k available ((prod, n) ∷ req) h = ground (
  arith,
  count_of-taken_from_other k (insert prod (sub64 (count_of prod available) n) available) req,
  count_of-insert prod k (sub64 (count_of prod available) n) available,
)

-- Writing a product that the request does not name makes no difference to what fits.
pub Fits-insert :
    (n : ℕ) (prod : String) (v : ℤ) (available req : ProdCountMap)
    → lookup prod req ≡ none
    → (Fits n (insert prod v available) req → Fits n available req)
      × (Fits n available req → Fits n (insert prod v available) req)
unfolding lookup
Fits-insert n prod v available [] h = (λ p. p, λ p. p)
Fits-insert n prod v available ((j, k) ∷ req) h =
    let e = count_of-insert prod j v available in
    let ih = Fits-insert n prod v available req in
    (
      λ p.
          ground
            (arith, e, (ih (ground (arith, eq_iff j prod))).0 p.1, eq_iff j prod, eq_iff prod j),
      λ p.
          ground
            (arith, e, (ih (ground (arith, eq_iff j prod))).1 p.1, eq_iff j prod, eq_iff prod j),
    )

pub insert_new :
    (prod : String) (n : ℤ) (taken : ProdCountMap)
    → lookup prod taken ≡ none
    → insert prod n taken ≡ taken ++ (prod, n) ∷ []
unfolding insert lookup
insert_new prod n [] h = refl
insert_new prod n ((j, w) ∷ taken) h = ground (arith, insert_new prod n taken)

-- A covered count is taken off without wrapping around.
sub64_covered :
    (c k : ℤ)
    → InRange c
    → pos 0 <ℤ k
    → pos_part k ≤ pos_part c
    → pos_part (sub64 c k) + pos_part k ≡ pos_part c
sub64_covered c k r h p =
    let e : sub64 c k ≡ c -ℤ k =
      sub64-eq c k (omega (arith, -ℤ_parts c k, one_sign c, one_sign k, one_sign (c -ℤ k))) in
    rw e (omega (arith, -ℤ_parts c k, one_sign c, one_sign k, one_sign (c -ℤ k)))

insert-AllInRange :
    (prod : String) (a b : ℤ) (m : ProdCountMap)
    → AllInRange m
    → AllInRange (insert prod (sub64 a b) m)
insert-AllInRange prod a b m h k =
    ground (arith, h k, count_of-insert prod k (sub64 a b) m, sub64-InRange a b)

pub taken_from-AllInRange :
    (available req : ProdCountMap) → AllInRange available → AllInRange (taken_from available req)
unfolding taken_from
taken_from-AllInRange available [] h = h
taken_from-AllInRange available ((j, k) ∷ req) h =
    taken_from-AllInRange (insert j (sub64 (count_of j available) k) available) req
      (insert-AllInRange j (count_of j available) k available h)

-- A request fits once more than `n` times if it fits once, and `n` times in what is then left.
pub Fits-suc :
    (n : ℕ) (available req : ProdCountMap)
    → IsMap req
    → IsPositive req
    → AllInRange available
    → (Fits (suc n) available req → Fits 1 available req × Fits n (taken_from available req) req)
      × (Fits 1 available req × Fits n (taken_from available req) req → Fits (suc n) available req)
unfolding taken_from
Fits-suc n available [] h hp r = (λ _. (tt, tt), λ _. tt)
Fits-suc n available ((j, k) ∷ req) h hp r =
    let left = sub64 (count_of j available) k in
    let available' = insert j left available in
    let e = count_of-taken_from_other j available' req h.0 in
    let e' = count_of-insert_self j left available in
    let one = Fits-insert 1 j left available req h.0 in
    let more = Fits-insert (suc n) j left available req h.0 in
    let ih =
      Fits-suc n available' req h.1 hp.1
        (insert-AllInRange j (count_of j available) k available r) in
    let c = sub64_covered (count_of j available) k (r j) hp.0 in
    rw (e, e')
      (
        λ p.
            let u = ih.0 (more.1 p.1) in
            let covered : pos_part k ≤ pos_part (count_of j available) = omega arith in
            ((omega arith, one.0 u.0), (omega (arith, c covered), u.1)),
        λ p. (omega (arith, c (omega arith)), more.0 (ih.1 (one.1 p.0.1, p.1.1))),
      )
