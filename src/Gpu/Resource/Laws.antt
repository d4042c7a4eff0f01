-- ===== src/Gpu/Resource/Laws.antt =====
-- What calculateNodeResource does to the count of each product.
use resource_extend.Base.{
  String, ◌≡◌, refl, ◌∙◌, sym, List, [], ◌∷◌, Option, none, some, true, false, Bool, All, arith,
}
use resource_extend.Base.Int.{ℤ, pos}
use resource_extend.Base.Word.{
  add64, sub64, InRange, add64_assoc, add64_comm, sub64-sub64, add64-InRange, sub64-InRange,
  sub64-add64, add64-zero, sub64-zero,
}
use resource_extend.Base.Dict.{count_of_absent, lookup, count_of, IsMap}
use resource_extend.Gpu.Types.{ProdCountMap, add, sub}
use resource_extend.Gpu.Types.Counts.{add-IsMap, sub-IsMap, count_of-add, count_of-sub}
use resource_extend.Gpu.Resource.{change_all, calculate_node_resource, workloads_usage}

-- The sum of the counts of one product over some workloads, with `int`'s wrap-around.
pub total_of : String → List ProdCountMap → ℤ
total_of k [] = pos 0
total_of k (w ∷ ws) = add64 (count_of k w) (total_of k ws)

total_of-InRange : (k : String) (ws : List ProdCountMap) → InRange (total_of k ws)
unfolding total_of
total_of-InRange k [] = omega arith
total_of-InRange k (w ∷ ws) = add64-InRange _ _

change_all-IsMap :
    (incr : Bool) (m : ProdCountMap) (ws : List ProdCountMap)
    → IsMap m
    → IsMap (change_all incr m ws)
unfolding change_all
change_all-IsMap incr m [] h = h
change_all-IsMap true m (w ∷ ws) h = change_all-IsMap true (add m w) ws (add-IsMap m w h)
change_all-IsMap false m (w ∷ ws) h = change_all-IsMap false (sub m w) ws (sub-IsMap m w h)

pub workloads_usage-IsMap : (ws : List ProdCountMap) → IsMap (workloads_usage ws)
unfolding workloads_usage
workloads_usage-IsMap ws = change_all-IsMap true [] ws tt

-- Adding workloads adds the sum of their counts.
count_of-add_each :
    (k : String) (m : ProdCountMap) (ws : List ProdCountMap)
    → IsMap m
    → All IsMap ws
    → InRange (count_of k m)
    → count_of k (change_all true m ws) ≡ add64 (count_of k m) (total_of k ws)
unfolding change_all total_of
count_of-add_each k m [] h a r = sym (add64-zero _ r)
count_of-add_each k m (w ∷ ws) h a r =
    let e = count_of-add k m w h a.0 r in
    count_of-add_each k (add m w) ws (add-IsMap m w h) a.1 (rw e (add64-InRange _ _))
    ∙ rw e (add64_assoc (count_of k m) (count_of k w) (total_of k ws))

count_of-sub_each :
    (k : String) (m : ProdCountMap) (ws : List ProdCountMap)
    → IsMap m
    → All IsMap ws
    → InRange (count_of k m)
    → count_of k (change_all false m ws) ≡ sub64 (count_of k m) (total_of k ws)
unfolding change_all total_of
count_of-sub_each k m [] h a r = sym (sub64-zero _ r)
count_of-sub_each k m (w ∷ ws) h a r =
    let e = count_of-sub k m w h a.0 r in
    count_of-sub_each k (sub m w) ws (sub-IsMap m w h) a.1 (rw e (sub64-InRange _ _))
    ∙ rw e (sub64-sub64 (count_of k m) (count_of k w) (total_of k ws))

count_of-nil : (k : String) → count_of k [] ≡ pos 0
count_of-nil k = count_of_absent k [] (unfold lookup in refl)

-- The usage that is computed from scratch.
count_of-workloads_usage :
    (k : String) (ws : List ProdCountMap)
    → All IsMap ws
    → count_of k (workloads_usage ws) ≡ total_of k ws
unfolding workloads_usage
count_of-workloads_usage k ws a =
    let r : InRange (count_of k []) = rw (count_of-nil k) (omega arith) in
    count_of-add_each k [] ws tt a r
    ∙ rw (count_of-nil k)
        (add64_comm (pos 0) (total_of k ws) ∙ add64-zero (total_of k ws) (total_of-InRange k ws))

-- Without delta, and without a request or resource given, neither the old resource nor the direction
-- matters: a product's count is the sum over the workloads, each of which is a map.
pub count_of-rewrite :
    (k : String) (origin : Option ProdCountMap) (ws : List ProdCountMap) (incr : Bool)
    → All IsMap ws
    → count_of k (calculate_node_resource none none origin ws false incr) ≡ total_of k ws
unfolding calculate_node_resource workloads_usage
count_of-rewrite k none ws incr a = count_of-workloads_usage k ws a
count_of-rewrite k (some origin) ws incr a = count_of-workloads_usage k ws a

-- Where the old resource and the workloads are maps and the old count fits `int`, a delta increase by
-- the workloads adds the sum of their counts, and a decrease by the same workloads takes it off again.
pub count_of-incr_decr :
    (k : String) (origin : ProdCountMap) (ws : List ProdCountMap)
    → IsMap origin
    → All IsMap ws
    → InRange (count_of k origin)
    → let used = calculate_node_resource none none (some origin) ws true true in
      (count_of k used ≡ add64 (count_of k origin) (total_of k ws))
      × (count_of k (calculate_node_resource none none (some used) ws true false)
          ≡ count_of k origin)
unfolding calculate_node_resource
count_of-incr_decr k origin ws h a r =
    let e = count_of-add_each k origin ws h a r in
    (
      e,
      count_of-sub_each k (change_all true origin ws) ws (change_all-IsMap true origin ws h) a
            (rw e (add64-InRange _ _))
          ∙ rw e (sub64-add64 (count_of k origin) (total_of k ws) r),
    )
