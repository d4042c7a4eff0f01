-- ===== src/Gpu/Alloc.antt =====
-- doAlloc of gpu/calculate.go and the capacity of doGetNodeDeployCapacity of gpu/node.go. The
-- engine parameters and the workload of one deployment hold the same counts, in two copies.
pub mod Fits
pub mod Exact
pub mod Grant
use resource_extend.Base.{ℕ, zero, suc, List, [], ◌∷◌, Option, none, some, if◌then◌else◌, Bool}
use resource_extend.Base.Int.{ℤ, pos, pos_part, ltb_ℤ, leb_ℤ, quo}
use resource_extend.Base.Word.{sub64}
use resource_extend.Base.Dict.{lookup, insert, count_of}
use resource_extend.Errors.{Result, ok, err, ◌>>=◌, insufficient_resource}
use resource_extend.Gpu.Types.{ProdCountMap, NodeResourceInfo, get_available_resource, count}

-- The test on one product: `!ok || capCount < reqCount`.
unfoldable pub is_short : Option ℤ → ℤ → Bool
is_short none req_count = Bool.true
is_short (some cap_count) req_count = ltb_ℤ cap_count req_count

-- One deployment: the loop over the requested products. It changes the available counts and
-- fills the deployment's own map.
unfoldable pub alloc_one :
    ProdCountMap → ProdCountMap → ProdCountMap → Result (ProdCountMap × ProdCountMap)
unfolding is_short
alloc_one available taken [] = ok (available, taken)
alloc_one available taken ((prod, n) ∷ req) =
    let rest =
      alloc_one (insert prod (sub64 (count_of prod available) n) available) (insert prod n taken)
        req in
    if is_short (lookup prod available) n then err insufficient_resource else rest

-- `for range deployCount`
unfoldable pub alloc_rounds :
    ℕ → ProdCountMap → ProdCountMap → Result (List ProdCountMap × List ProdCountMap)
unfolding alloc_one
alloc_rounds zero available req = ok ([], [])
alloc_rounds (suc n) available req =
    alloc_one available [] req >>= λ p. alloc_rounds n p.0 req >>= λ q. ok (p.1 ∷ q.0, p.1 ∷ q.1)

-- The engine parameters and the workloads; a negative count makes no round.
unfoldable pub do_alloc :
    NodeResourceInfo → ℤ → ProdCountMap → Result (List ProdCountMap × List ProdCountMap)
unfolding alloc_rounds
do_alloc info deploy_count req =
    alloc_rounds (pos_part deploy_count) (get_available_resource info) req

abbrev pub max_capacity : ℤ
max_capacity = pos 1000000

unfoldable pub min_ℤ : ℤ → ℤ → ℤ
min_ℤ a b = if ltb_ℤ b a then b else a

-- The loop over the requested products, which stops once nothing can be deployed.
unfoldable pub capacity_loop : ℤ → ProdCountMap → ProdCountMap → ℤ
unfolding min_ℤ
capacity_loop capacity available [] = capacity
capacity_loop capacity available ((prod, n) ∷ req) =
    let capacity' = min_ℤ capacity (quo (count_of prod available) n) in
    let rest = capacity_loop capacity' available req in
    if leb_ℤ capacity' (pos 0) then capacity' else rest

-- The field Capacity of doGetNodeDeployCapacity.
unfoldable pub node_capacity : NodeResourceInfo → ProdCountMap → ℤ
unfolding capacity_loop
node_capacity info req =
    if ltb_ℤ (pos 0) (count req)
    then capacity_loop max_capacity (get_available_resource info) req
    else max_capacity
