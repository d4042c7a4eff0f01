-- ===== src/Gpu/Resource.antt =====
-- calculateNodeResource and the comparison in getNodeResourceInfo of gpu/node.go.
pub mod Laws
pub mod Fix
use resource_extend.Base.{
  String, Bool, true, false, not, ◌||◌, List, [], ◌∷◌, ◌++◌, Option, none, some, if◌then◌else◌,
}
use resource_extend.Base.Int.{ℤ, eqb_ℤ}
use resource_extend.Base.Dict.{lookup}
use resource_extend.Gpu.Types.{ProdCountMap, NodeResourceInfo, add, sub, count, usage_count}

-- `if incr { resp.Add(r) } else { resp.Sub(r) }`
unfoldable pub change : Bool → ProdCountMap → ProdCountMap → ProdCountMap
change incr resp r = if incr then add resp r else sub resp r

-- The loop over the workloads.
unfoldable pub change_all : Bool → ProdCountMap → List ProdCountMap → ProdCountMap
unfolding change
change_all incr resp [] = resp
change_all incr resp (w ∷ ws) = change_all incr (change incr resp w) ws

-- `if req != nil { nodeResource = … }`
unfoldable pub requested : Option ProdCountMap → Option ProdCountMap → Option ProdCountMap
requested none node_resource = node_resource
requested (some req) node_resource = some req

apply_change : Bool → ProdCountMap → Option ProdCountMap → List ProdCountMap → ProdCountMap
unfolding change change_all
apply_change incr resp (some r) workloads = change incr resp r
apply_change incr resp none workloads = change_all incr resp workloads

-- Without delta the resource is rewritten: it starts empty and the change is an increase.
unfoldable pub calculate_node_resource :
    Option ProdCountMap
    → Option ProdCountMap
    → Option ProdCountMap
    → List ProdCountMap
    → Bool
    → Bool
    → ProdCountMap
unfolding requested apply_change
calculate_node_resource req node_resource none workloads delta incr =
    apply_change true [] (requested req node_resource) workloads
calculate_node_resource req node_resource (some origin) workloads delta incr =
    if delta
    then apply_change incr origin (requested req node_resource) workloads
    else apply_change true [] (requested req node_resource) workloads

-- The usage of all workloads.
unfoldable pub workloads_usage : List ProdCountMap → ProdCountMap
unfolding change_all
workloads_usage workloads = change_all true [] workloads

-- One line of the report, with the values that it prints.
pub data Diff : Type 0 where
  total_differs : ℤ → ℤ → Diff
  not_in_usage : String → Diff
  count_differs : String → ℤ → ℤ → Diff

diff_one : String → ℤ → Option ℤ → List Diff
diff_one prod actual none = not_in_usage prod ∷ []
diff_one prod actual (some stored) =
    if eqb_ℤ actual stored then [] else count_differs prod actual stored ∷ []

unfoldable pub product_diffs : ProdCountMap → ProdCountMap → List Diff
unfolding diff_one
product_diffs usage [] = []
product_diffs usage ((prod, actual) ∷ m) =
    diff_one prod actual (lookup prod usage) ++ product_diffs usage m

unfoldable pub diffs_of : NodeResourceInfo → ProdCountMap → List Diff
unfolding product_diffs
diffs_of info actual =
    (if eqb_ℤ (count actual) (usage_count info)
      then []
      else total_differs (usage_count info) (count actual) ∷ [])
    ++ product_diffs info.usage actual
