-- ===== src/Storage/Node/Update.antt =====
-- Increases and decreases of a storage resource (calculateNodeResource of storage/node.go).
use resource_extend.Base.{String, ◌≡◌, ◌∙◌, List, Option, some, true, false}
use resource_extend.Base.Word.{InRange, add64-InRange, sub64-add64}
use resource_extend.Base.Dict.{IsMap, count_of}
use resource_extend.Storage.Volumes
use resource_extend.Storage.Volumes.Sizes.{size_of-add, size_of-sub}
use resource_extend.Storage.Disk.Quota.{IsDistinct, RatesInRange, rates_of, rates_of-sub-add}
use resource_extend.Storage.Node.{
  NodeResource, NodeResourceRequest, WorkloadUsage, calculate_node_resource, requested, change, add,
  sub, apply_change,
}

-- The numbers that a resource has for a device, and its storage, fit `int64`.
pub record FitsAt (k : String) (r : NodeResource) : Type 0 where
  pub size : InRange (count_of k r.volumes)
  pub storage : InRange r.storage
  pub rates : RatesInRange (rates_of k r.disks)

-- Each device stands once among the volumes of a request, and once among its disks.
pub record IsWellFormed (req : NodeResourceRequest) : Type 0 where
  pub volumes_map : IsMap req.volumes
  pub disks_distinct : IsDistinct req.disks

size-sub-add :
    (k : String) (v v1 : Volumes.Volumes)
    → IsMap v1
    → InRange (count_of k v)
    → count_of k (Volumes.sub (Volumes.add v v1) v1) ≡ count_of k v
size-sub-add k v v1 h r =
    let sum = size_of-add k v v1 h r in
    size_of-sub k (Volumes.add v v1) v1 h (rw sum (add64-InRange _ _))
    ∙ rw sum (sub64-add64 (count_of k v) (count_of k v1) r)

-- For a well-formed request, a delta update that increases the resource and then one that decreases
-- it by the same request leave the size and the rates of each device and the storage, where the
-- old numbers and the rates in the request fit `int64`; the sums between may overflow.
pub calculate_node_resource-incr_decr :
    (k : String) (req : NodeResourceRequest) (r : Option NodeResource) (origin : NodeResource)
    (workloads : List WorkloadUsage)
    → IsWellFormed req
    → FitsAt k origin
    → RatesInRange (rates_of k req.disks)
    → let more = calculate_node_resource (some req) r (some origin) workloads true true in
      let back = calculate_node_resource (some req) r (some more) workloads true false in
      (count_of k back.volumes ≡ count_of k origin.volumes)
      × (back.storage ≡ origin.storage)
      × (rates_of k back.disks ≡ rates_of k origin.disks)
unfolding calculate_node_resource change add sub requested apply_change
calculate_node_resource-incr_decr k req r origin workloads h fits r1 = (
  size-sub-add k origin.volumes req.volumes h.volumes_map fits.size,
  sub64-add64 origin.storage req.storage fits.storage,
  rates_of-sub-add k origin.disks req.disks h.disks_distinct fits.rates r1,
)
