-- ===== src/Gpu/Types.antt =====
-- gpu/types: the counts of each GPU product, of a node, a workload or a request. The structs
-- NodeResource, WorkloadResource, EngineParams and the two requests each embed one ProdCountMap,
-- and stand for it here. Maps are values, so DeepCopy is the identity; a nil map is the empty
-- one, but for the usage of a stored node.
pub mod Counts
pub mod Valid
use Prim.Native.Char.{Char, code}
use resource_extend.Base.{
  String, Bool, ◌==◌, ◌&&◌, ◌||◌, List, [], ◌∷◌, if◌then◌else◌, leb, true, false,
}
use resource_extend.Base.Int.{ℤ, pos, eqb_ℤ, leb_ℤ}
use resource_extend.Base.Word.{add64, sub64}
use resource_extend.Base.Dict.{Dict, insert, erase, count_of}
use resource_extend.Errors.{Error, invalid_gpu_map, invalid_gpu_product, Result, ok, err}

abbrev pub ProdCountMap : Type 0
ProdCountMap = Dict ℤ

-- `unicode.IsSpace`
unfoldable pub is_space : Char → Bool
is_space c =
    let n = code c in
    (leb 9 n && leb n 13)
    || n == 0x20
    || n == 0x85
    || n == 0xa0
    || n == 0x1680
    || (leb 0x2000 n && leb n 0x200a)
    || n == 0x2028
    || n == 0x2029
    || n == 0x202f
    || n == 0x205f
    || n == 0x3000

-- `strings.TrimSpace(s) == ""`
unfoldable pub is_blank : String → Bool
unfolding is_space
is_blank String.[] = true
is_blank (String.◌∷◌ c s) = is_space c && is_blank s

unfoldable pub validate : ProdCountMap → Result (Unit {0})
validate [] = ok tt
validate ((prod, count) ∷ pcm) =
    if leb_ℤ count (pos 0)
    then err invalid_gpu_map
    else if is_blank prod
    then err invalid_gpu_product
    else validate pcm

unfoldable pub validate_prod : ProdCountMap → Result (Unit {0})
validate_prod [] = ok tt
validate_prod ((prod, count) ∷ pcm) =
    if is_blank prod then err invalid_gpu_product else validate_prod pcm

-- `if pcm[prod] == 0 { delete(pcm, prod) }`
unfoldable pub drop_zero : String → ProdCountMap → ProdCountMap
drop_zero prod pcm = if eqb_ℤ (count_of prod pcm) (pos 0) then erase prod pcm else pcm

unfoldable pub add : ProdCountMap → ProdCountMap → ProdCountMap
unfolding drop_zero
add pcm [] = pcm
add pcm ((prod, count) ∷ pcm1) =
    add (drop_zero prod (insert prod (add64 (count_of prod pcm) count) pcm)) pcm1

unfoldable pub sub : ProdCountMap → ProdCountMap → ProdCountMap
unfolding drop_zero
sub pcm [] = pcm
sub pcm ((prod, count) ∷ pcm1) =
    sub (drop_zero prod (insert prod (sub64 (count_of prod pcm) count) pcm)) pcm1

unfoldable pub count_from : ℤ → ProdCountMap → ℤ
count_from total [] = total
count_from total ((prod, n) ∷ pcm) = count_from (add64 total n) pcm

unfoldable pub count : ProdCountMap → ℤ
unfolding count_from
count pcm = count_from (pos 0) pcm

-- `maps.DeleteFunc(m, func(_ string, count int) bool { return count <= 0 })`
unfoldable pub delete_non_positive : ProdCountMap → ProdCountMap
delete_non_positive [] = []
delete_non_positive ((prod, n) ∷ pcm) =
    if leb_ℤ n (pos 0) then delete_non_positive pcm else (prod, n) ∷ delete_non_positive pcm

-- WorkloadResourceRequest.MergeFromResource
unfoldable pub merge_from_resource : ProdCountMap → ProdCountMap → ProdCountMap
merge_from_resource req origin = delete_non_positive (add req origin)

-- A nil map of the usage is told from an empty one, as it cannot be written to in place.
pub record NodeResourceInfo : Type 0 where
  pub capacity : ProdCountMap
  pub usage : ProdCountMap
  pub usage_is_nil : Bool

unfoldable pub new_node_resource_info : NodeResourceInfo
new_node_resource_info = record { capacity = []; usage = []; usage_is_nil = false }

unfoldable pub cap_count : NodeResourceInfo → ℤ
unfolding count
cap_count n = count n.capacity

unfoldable pub usage_count : NodeResourceInfo → ℤ
unfolding count
usage_count n = count n.usage

-- NodeResourceInfo.Validate
unfoldable pub validate_info : NodeResourceInfo → Result (Unit {0})
validate_info n = elim (validate n.capacity) [ err e ↦ err e | ok _ ↦ validate n.usage ]

unfoldable pub get_available_resource : NodeResourceInfo → ProdCountMap
get_available_resource n = sub n.capacity n.usage
