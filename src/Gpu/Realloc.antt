-- ===== src/Gpu/Realloc.antt =====
-- The computation of CalculateRealloc of gpu/calculate.go, between its reads and its answer.
pub mod Exact
use resource_extend.Base.{List, [], ◌∷◌, if◌then◌else◌}
use resource_extend.Base.Int.{pos}
use resource_extend.Errors.{Result, ok, err, ◌>>=◌, other}
use resource_extend.Gpu.Types.{ProdCountMap, NodeResourceInfo, sub, merge_from_resource}
use resource_extend.Gpu.Alloc.{do_alloc}

pub record Reallocation : Type 0 where
  pub engine_params : ProdCountMap
  pub delta_resource : ProdCountMap
  pub workload_resource : ProdCountMap

-- `enginesParams[0]`, `workloadsResource[0]`
first : List ProdCountMap → Result ProdCountMap
first [] = err (other "index out of range")
first (x ∷ xs) = ok x

-- `Usage.ProdCountMap.Sub(origin)` in place: a nil map panics at the first count that is written.
unfoldable pub sub_usage : NodeResourceInfo → ProdCountMap → Result NodeResourceInfo
sub_usage info [] = ok info
sub_usage info (p ∷ origin) =
    if info.usage_is_nil
    then err (other "assignment to entry in nil map")
    else ok (record info { usage = sub info.usage (p ∷ origin) })

unfoldable pub realloc : NodeResourceInfo → ProdCountMap → ProdCountMap → Result Reallocation
unfolding first sub_usage
realloc info origin req = do
  left ← sub_usage info origin
  granted ← do_alloc left (pos 1) (merge_from_resource req origin)
  engine ← first granted.0
  workload ← first granted.1
  ok (record {
    engine_params = engine;
    delta_resource = sub workload origin;
    workload_resource = workload;
  })
