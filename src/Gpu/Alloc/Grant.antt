-- ===== src/Gpu/Alloc/Grant.antt =====
-- doAlloc grants exactly the deployments that fit, and each gets the counts that it asked for.
use text.Mathlib.TextEquality.{eq_iff}
use mathlib.Core.List.{append-nil, append_assoc}
use resource_extend.Base.{
  ℕ, zero, suc, ◌*◌, ◌≤◌, ◌<◌, ◌≡◌, ◌⊎◌, refl, ◌∙◌, [], ◌∷◌, ◌++◌, arith, inl, inr, Bool-cases,
  String, none, replicate, true, false,
}
use resource_extend.Base.Int.{ℤ, pos, pos_part, ◌≤ℤ◌, ◌<ℤ◌, ltb_ℤ}
use resource_extend.Base.Word.{sub64, sub64-InRange}
use resource_extend.Base.Dict.{lookup, insert, count_of, IsMap, lookup-insert}
use resource_extend.Errors.{ok, err, insufficient_resource}
use resource_extend.Gpu.Types.{
  ProdCountMap, NodeResourceInfo, get_available_resource, count, validate,
}
use resource_extend.Gpu.Types.Counts.{count_of-sub}
use resource_extend.Gpu.Types.Valid.{IsPositive, AllInRange, IsSound, validate-IsPositive}
use resource_extend.Gpu.Alloc.{alloc_one, alloc_rounds, do_alloc, node_capacity, max_capacity}
use resource_extend.Gpu.Alloc.Fits.{Fits, Fits-zero, Fits-dec, le-capacity_loop}
use resource_extend.Gpu.Alloc.Exact.{
  is_short_lem, taken_from, Fits-insert, insert_new, Fits-suc, taken_from-AllInRange,
}

-- None of the requested products has been written yet.
abbrev Fresh : ProdCountMap → ProdCountMap → Type 0
Fresh taken [] = Unit {0}
Fresh taken ((j, k) ∷ req) = (lookup j taken ≡ none) × Fresh taken req

Fresh-insert :
    (j : String) (k : ℤ) (taken req : ProdCountMap)
    → lookup j req ≡ none
    → Fresh taken req
    → Fresh (insert j k taken) req
unfolding lookup
Fresh-insert j k taken [] h f = tt
Fresh-insert j k taken ((i, n) ∷ req) h f =
    ground (
      arith,
      lookup-insert j i k taken,
      Fresh-insert j k taken req,
      eq_iff i j,
      eq_iff j i,
      f.0,
      f.1,
    )

Fresh-nil : (req : ProdCountMap) → Fresh [] req
Fresh-nil [] = tt
Fresh-nil ((i, n) ∷ req) = (unfold lookup in refl, Fresh-nil req)

-- A deployment that fits is granted: it gets its own request, and that much is taken.
alloc_one_granted :
    (available taken req : ProdCountMap)
    → IsMap req
    → IsPositive req
    → Fresh taken req
    → Fits 1 available req
    → alloc_one available taken req ≡ ok (taken_from available req, taken ++ req)
unfolding alloc_one taken_from
alloc_one_granted available taken [] h hp f p = rw append-nil refl
alloc_one_granted available taken ((j, k) ∷ req) h hp f p =
    let left = sub64 (count_of j available) k in
    let enough : ltb_ℤ (count_of j available) k ≡ false = ground arith in
    let ih =
      alloc_one_granted (insert j left available) (insert j k taken) req h.1 hp.1
        (Fresh-insert j k taken req h.0 f.1) ((Fits-insert 1 j left available req h.0).1 p.1) in
    rw (is_short_lem j k available hp.0, enough)
      (ih ∙ rw (insert_new j k taken f.0, append_assoc taken ((j, k) ∷ []) req) refl)

-- A deployment that does not fit is refused, whichever product falls short.
alloc_one_refused :
    (available taken req : ProdCountMap)
    → IsMap req
    → IsPositive req
    → ¬ Fits 1 available req
    → alloc_one available taken req ≡ err insufficient_resource
unfolding alloc_one
alloc_one_refused available taken [] h hp p = absurd (p tt)
alloc_one_refused available taken ((j, k) ∷ req) h hp p =
    elim (Bool-cases (ltb_ℤ (count_of j available) k)) [
      | inl short ↦ rw (is_short_lem j k available hp.0, short)
      | inr enough ↦
          let left = sub64 (count_of j available) k in
          let covered : 1 * pos_part k ≤ pos_part (count_of j available) = ground arith in
          rw (is_short_lem j k available hp.0, enough)
            (alloc_one_refused (insert j left available) (insert j k taken) req h.1 hp.1
              (λ q. p (covered, (Fits-insert 1 j left available req h.0).0 q)))
    ]

alloc_rounds_granted :
    (n : ℕ) (available req : ProdCountMap)
    → IsMap req
    → IsPositive req
    → AllInRange available
    → Fits n available req
    → alloc_rounds n available req ≡ ok (replicate n req, replicate n req)
unfolding alloc_rounds
alloc_rounds_granted zero available req h hp r p = refl
alloc_rounds_granted (suc n) available req h hp r p =
    let u = (Fits-suc n available req h hp r).0 p in
    rw (alloc_one_granted available [] req h hp (Fresh-nil req) u.0) (
      rw (
        alloc_rounds_granted n (taken_from available req) req h hp
          (taken_from-AllInRange available req r) u.1))

alloc_rounds_refused :
    (n : ℕ) (available req : ProdCountMap)
    → IsMap req
    → IsPositive req
    → AllInRange available
    → ¬ Fits n available req
    → alloc_rounds n available req ≡ err insufficient_resource
unfolding alloc_rounds
alloc_rounds_refused zero available req h hp r p = absurd (p (Fits-zero available req))
alloc_rounds_refused (suc n) available req h hp r p = elim (Fits-dec 1 available req) [
  | inr f ↦ rw (alloc_one_refused available [] req h hp f)
  | inl f ↦ rw (alloc_one_granted available [] req h hp (Fresh-nil req) f) (
      rw (
        alloc_rounds_refused n (taken_from available req) req h hp
          (taken_from-AllInRange available req r)
          (λ q. p ((Fits-suc n available req h hp r).1 (f, q)))))
]

-- What is available on a node is a map of representable counts.
available-AllInRange :
    (info : NodeResourceInfo) → IsSound info → AllInRange (get_available_resource info)
unfolding get_available_resource
available-AllInRange info v k =
    rw (count_of-sub k info.capacity info.usage v.capacity_map v.usage_map (v.in_range k))
      (sub64-InRange (count_of k info.capacity) (count_of k info.usage))

-- On a sound node, a request of `n` deployments with positive counts, a map, is granted, each with
-- its own request, if the available count of every requested product is at least `n` times the
-- requested one, and is refused for want of resource if not.
pub do_alloc-Fits :
    (info : NodeResourceInfo) (n : ℕ) (req : ProdCountMap)
    → IsSound info
    → IsMap req
    → IsPositive req
    → (Fits n (get_available_resource info) req
        → do_alloc info (pos n) req ≡ ok (replicate n req, replicate n req))
      × (¬ Fits n (get_available_resource info) req
          → do_alloc info (pos n) req ≡ err insufficient_resource)
unfolding do_alloc
do_alloc-Fits info n req v h hp =
    let r = available-AllInRange info v in
    (
      alloc_rounds_granted n (get_available_resource info) req h hp r,
      alloc_rounds_refused n (get_available_resource info) req h hp r,
    )

-- The capacity that a sound node reports for a valid request, a map, whose counts do not add up past
-- the range of `int`, is exact: up to a million deployments, as many are granted as it says and no
-- more.
pub do_alloc-node_capacity :
    (info : NodeResourceInfo) (n : ℕ) (req : ProdCountMap)
    → IsSound info
    → IsMap req
    → validate req ≡ ok tt
    → (pos 0 <ℤ count req) ⊎ (req ≡ [])
    → 0 < n
    → n ≤ 1000000
    → (pos n ≤ℤ node_capacity info req
        → do_alloc info (pos n) req ≡ ok (replicate n req, replicate n req))
      × (node_capacity info req <ℤ pos n → do_alloc info (pos n) req ≡ err insufficient_resource)
unfolding node_capacity
do_alloc-node_capacity info n req v h valid (inl total) n-pos n-max =
    let available = get_available_resource info in
    let measure =
      le-capacity_loop n max_capacity available req n-pos (validate-IsPositive req valid) in
    let alloc = do_alloc-Fits info n req v h (validate-IsPositive req valid) in
    let counted : ltb_ℤ (pos 0) (count req) ≡ true = ground arith in
    rw counted (
      λ p. alloc.0 (measure.0 p).1,
      λ p. alloc.1 (λ f. absurd (omega (arith, measure.1 (omega arith, f)))),
    )
do_alloc-node_capacity info n req v h valid (inr empty) n-pos n-max =
    let e : ltb_ℤ (pos 0) (count req) ≡ false = rw empty (unfold count in refl) in
    let f : Fits n (get_available_resource info) req = rw empty tt in
    rw e (
      λ _. (do_alloc-Fits info n req v h (validate-IsPositive req valid)).0 f,
      λ p. absurd (omega arith),
    )
