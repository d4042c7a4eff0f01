-- ===== src/Gpu/Examples.antt =====
-- Tests of the gpu plugin at concrete nodes.
use resource_extend.Base.{
  ℕ, String, ◌≡◌, refl, [], ◌∷◌, none, some, true, false, arith, inl, ◌↔◌, replicate, ◌≤◌,
}
use resource_extend.Base.Int.{pos, ◌≤ℤ◌, ◌<ℤ◌, ◌+ℤ◌}
use resource_extend.Base.Word.{add64, wrap}
use resource_extend.Base.Dict.{lookup, count_of, IsMap, or_zero}
use resource_extend.Errors.{ok, err, insufficient_resource}
use resource_extend.Gpu.Types.{
  ProdCountMap, NodeResourceInfo, validate, count, get_available_resource, is_blank, is_space,
  merge_from_resource,
}
use resource_extend.Gpu.Types.Valid.{IsSound, AllInRange}
use resource_extend.Gpu.Alloc.{do_alloc, node_capacity}
use resource_extend.Gpu.Alloc.Fits.{Fits}
use resource_extend.Gpu.Alloc.Grant.{do_alloc-Fits, do_alloc-node_capacity}
use resource_extend.Gpu.Realloc.{Reallocation, realloc}
use resource_extend.Gpu.Realloc.Exact.{IsRealloc, without, realloc_exact}
use resource_extend.Gpu.Resource.{calculate_node_resource, diffs_of}
use resource_extend.Gpu.Resource.Laws.{total_of, count_of-rewrite, count_of-incr_decr}
use resource_extend.Gpu.Resource.Fix.{diffs_of-nil}

abbrev two_products : ProdCountMap
two_products = ("a100", pos 8) ∷ ("h100", pos 3) ∷ []

abbrev one_used : ProdCountMap
one_used = ("a100", pos 2) ∷ []

abbrev two_request : ProdCountMap
two_request = ("a100", pos 3) ∷ ("h100", pos 1) ∷ []

abbrev node : NodeResourceInfo
node = record { capacity = two_products; usage = one_used; usage_is_nil = false }

small-AllInRange :
    (i j : String) (m n : ℕ) → m ≤ 100 → n ≤ 100 → AllInRange ((i, pos m) ∷ (j, pos n) ∷ [])
unfolding count_of lookup or_zero
small-AllInRange i j m n hm hn k = ground arith

one_used-AllInRange : AllInRange one_used
unfolding count_of lookup or_zero
one_used-AllInRange k = ground arith

node-IsSound : IsSound node
node-IsSound = record {
  capacity_map = unfold lookup in (refl, (refl, tt));
  usage_map = unfold lookup in (refl, tt);
  in_range = small-AllInRange "a100" "h100" 8 3 (omega arith) (omega arith);
}

two_request-IsMap : IsMap two_request
two_request-IsMap = unfold lookup in (refl, (refl, tt))

one_used-IsMap : IsMap one_used
one_used-IsMap = unfold lookup in (refl, tt)

do_alloc-Fits_example :
    (Fits 2 (get_available_resource node) two_request
      → do_alloc node (pos 2) two_request ≡ ok (replicate 2 two_request, replicate 2 two_request))
    × (¬ Fits 2 (get_available_resource node) two_request
        → do_alloc node (pos 2) two_request ≡ err insufficient_resource)
do_alloc-Fits_example =
    do_alloc-Fits node 2 two_request node-IsSound two_request-IsMap (omega arith, (omega arith, tt))

do_alloc-node_capacity_example :
    (pos 2 ≤ℤ node_capacity node two_request
      → do_alloc node (pos 2) two_request ≡ ok (replicate 2 two_request, replicate 2 two_request))
    × (node_capacity node two_request <ℤ pos 2
        → do_alloc node (pos 2) two_request ≡ err insufficient_resource)
unfolding validate is_blank is_space count add64 wrap ◌+ℤ◌
do_alloc-node_capacity_example =
    do_alloc-node_capacity node 2 two_request node-IsSound two_request-IsMap refl
      (inl (omega arith)) (omega arith) (omega arith)

realloc_exact_example :
    (Fits 1
        (get_available_resource (without node one_used))
        (merge_from_resource two_request one_used)
      → (r : Reallocation) × (realloc node one_used two_request ≡ ok r)
        × ((k : String) → IsRealloc node one_used two_request r k))
    × (¬ Fits 1
          (get_available_resource (without node one_used))
          (merge_from_resource two_request one_used)
        → realloc node one_used two_request ≡ err insufficient_resource)
realloc_exact_example =
    realloc_exact node one_used two_request node-IsSound one_used-IsMap two_request-IsMap
      one_used-AllInRange (small-AllInRange "a100" "h100" 3 1 (omega arith) (omega arith))
      (inl refl)

diffs_of-nil_example :
    (diffs_of node two_request ≡ []) ↔ ((k : String) → lookup k one_used ≡ lookup k two_request)
diffs_of-nil_example =
    diffs_of-nil node two_request one_used-IsMap two_request-IsMap (omega arith, tt) (omega arith)

count_of-rewrite_example :
    count_of "a100" (
      calculate_node_resource none none
        (some two_products)
        (two_request ∷ one_used ∷ [])
        false
        false)
    ≡ total_of "a100" (two_request ∷ one_used ∷ [])
count_of-rewrite_example =
    count_of-rewrite "a100" (some two_products) (two_request ∷ one_used ∷ []) false
      (two_request-IsMap, (one_used-IsMap, tt))

count_of-incr_decr_example :
    let used = calculate_node_resource none none (some one_used) (two_request ∷ []) true true in
    (count_of "a100" used ≡ add64 (count_of "a100" one_used) (total_of "a100" (two_request ∷ [])))
    × (count_of "a100" (calculate_node_resource none none (some used) (two_request ∷ []) true false)
        ≡ count_of "a100" one_used)
count_of-incr_decr_example =
    count_of-incr_decr "a100" one_used (two_request ∷ []) one_used-IsMap (two_request-IsMap, tt)
      (one_used-AllInRange "a100")
