-- ===== src/Storage/Node.antt =====
-- storage/types/node.go, and calculateNodeResource of storage/node.go; the parsing of requests stands in
-- Storage.Parse. A resource is a value, so DeepCopy is the identity; a nil map or list is empty.
pub mod Valid
pub mod Keeps
pub mod Update
use Prim.Native.String.{String, compare}
use Prim.Native.Nat.{Ordering}
use resource_extend.Base.{
  Bool, true, false, not, ◌&&◌, ◌||◌, List, [], ◌∷◌, Option, none, some, if◌then◌else◌,
}
use resource_extend.Base.Int.{ℤ, pos, ltb_ℤ, eqb_ℤ}
use resource_extend.Base.Word.{add64, sub64}
use resource_extend.Base.Dict.{◌=s◌, lookup, insert}
use resource_extend.Errors.{
  Error, joined, invalid_capacity, invalid_volume, invalid_storage, invalid_disk, Result, ok, err,
  ◌>>=◌, ◌>>◌,
}
use resource_extend.Storage.Volumes
use resource_extend.Storage.Volumes.{Volumes, total, remove_empty}
use resource_extend.Storage.Disk
use resource_extend.Storage.Disk.{Rates, Disk, Disks, zero_rates, get_disk_by_device}

pub record NodeResource : Type 0 where
  pub volumes : Volumes
  pub disks : Disks
  pub storage : ℤ

abbrev pub empty_resource : NodeResource
empty_resource = record { volumes = []; disks = []; storage = pos 0 }

unfoldable pub add : NodeResource → NodeResource → NodeResource
add n n1 = record {
  volumes = Volumes.add n.volumes n1.volumes;
  disks = Disk.add n.disks n1.disks;
  storage = add64 n.storage n1.storage;
}

unfoldable pub sub : NodeResource → NodeResource → NodeResource
sub n n1 = record {
  volumes = Volumes.sub n.volumes n1.volumes;
  disks = Disk.sub n.disks n1.disks;
  storage = sub64 n.storage n1.storage;
}

-- A nil pointer is none.
pub record NodeResourceInfo : Type 0 where
  pub capacity : Option NodeResource
  pub usage : Option NodeResource

abbrev pub new_node_resource_info : NodeResourceInfo
new_node_resource_info = record { capacity = some empty_resource; usage = some empty_resource }

-- The usage that `Validate` makes for a record without one.
zero_volumes : Volumes → Volumes
zero_volumes [] = []
zero_volumes ((device, size) ∷ v) = insert device (pos 0) (zero_volumes v)

zero_disks : Disks → Disks
zero_disks [] = []
zero_disks (disk ∷ d) = record disk { rates = zero_rates } ∷ zero_disks d

unfoldable pub usage_or_zero : NodeResource → Option NodeResource → NodeResource
unfolding zero_volumes zero_disks
usage_or_zero capacity (some usage) = usage
usage_or_zero capacity none = record {
  volumes = zero_volumes capacity.volumes;
  disks = zero_disks capacity.disks;
  storage = pos 0;
}

-- `compareDiskDevice(d, d1) < 0`
before : Disk → Disk → Bool
before d d1 = elim (compare d.device d1.device) [ Ordering.lt ↦ Bool.true | _ ↦ Bool.false ]

insert_sorted : Disk → Disks → Disks
unfolding before
insert_sorted x [] = x ∷ []
insert_sorted x (disk ∷ d) = if before disk x then disk ∷ insert_sorted x d else x ∷ disk ∷ d

-- `slices.SortFunc(d, compareDiskDevice)`
unfoldable pub sort_disks : Disks → Disks
unfolding insert_sorted
sort_disks [] = []
sort_disks (disk ∷ d) = insert_sorted disk (sort_disks d)

unfoldable pub validate_volume : Volumes → Volumes → Result (Unit {0})
validate_volume usage [] = ok tt
validate_volume usage ((key, value) ∷ capacity) =
    if ltb_ℤ value (pos 0) then err invalid_volume else elim (lookup key usage) [
      | none ↦ validate_volume usage capacity
      | some used ↦
          if ltb_ℤ value used || ltb_ℤ used (pos 0)
          then err invalid_volume
          else validate_volume usage capacity
    ]

unfoldable pub validate_storage : ℤ → ℤ → Result (Unit {0})
validate_storage capacity usage =
    if ltb_ℤ capacity (pos 0)
    then err invalid_storage
    else if ltb_ℤ usage (pos 0)
    then err invalid_storage
    else ok tt

abbrev pub any_rate : (ℤ → ℤ → Bool) → Rates → Rates → Bool
any_rate test r q =
    test r.read_iops q.read_iops
    || test r.write_iops q.write_iops
    || test r.read_bps q.read_bps
    || test r.write_bps q.write_bps

-- `usage.Mounts = disk.Mounts` for the disk that GetDiskByDevice finds
unfoldable pub set_mounts : Disk → Disks → Disks
set_mounts disk [] = []
set_mounts disk (used ∷ usage) =
    if used.device =s disk.device
    then record used { mounts = disk.mounts } ∷ usage
    else used ∷ set_mounts disk usage

-- What the first loop of validateDisks asks of a disk and of the usage with its device.
unfoldable pub is_disk_valid : Disk → Option Disk → Bool
is_disk_valid disk none = not (any_rate ltb_ℤ disk.rates zero_rates)
is_disk_valid disk (some used) =
    not (any_rate ltb_ℤ disk.rates zero_rates)
    && not (any_rate ltb_ℤ used.rates zero_rates)
    && not (any_rate ltb_ℤ disk.rates used.rates)

unfoldable pub check_capacity : Disks → Disks → Result Disks
unfolding is_disk_valid set_mounts
check_capacity [] usage = ok usage
check_capacity (disk ∷ capacity) usage =
    let rest = check_capacity capacity (set_mounts disk usage) in
    if is_disk_valid disk (get_disk_by_device disk.device usage) then rest else err invalid_disk

-- The second loop with the deletion: a disk that the capacity lacks must have no usage, and goes.
unfoldable pub drop_unknown : Disks → Disks → Result Disks
drop_unknown capacity [] = ok []
drop_unknown capacity (used ∷ usage) =
    let rest = drop_unknown capacity usage in
    elim (get_disk_by_device used.device capacity) [
      | some disk ↦ rest >>= λ kept. ok (used ∷ kept)
      | none ↦
          if any_rate (λ a b. not (eqb_ℤ a b)) used.rates zero_rates then err invalid_disk else rest
    ]

unfoldable pub validate_disks : Disks → Disks → Result Disks
unfolding check_capacity drop_unknown
validate_disks capacity usage = check_capacity capacity usage >>= drop_unknown capacity

-- `errors.Join` of two errors that may be nil
unfoldable pub join {ℓ} : {A : Type ℓ} → Result (Unit {0}) → Result A → Result A
join (ok _) r = r
join (err e) (ok a) = err e
join (err e) (err e1) = err (joined e e1)

abbrev with_disks : NodeResource → NodeResource → Result Disks → Result NodeResourceInfo
with_disks capacity usage checked = checked >>= λ disks.
    ok (record { capacity = some capacity; usage = some (record usage { disks = disks }) })

validate_sorted : NodeResource → NodeResource → Result NodeResourceInfo
unfolding validate_volume validate_storage validate_disks join
validate_sorted capacity usage = with_disks capacity usage (
    join (validate_volume usage.volumes capacity.volumes) (
      join (validate_storage capacity.storage usage.storage)
        (validate_disks capacity.disks usage.disks)))

-- NodeResourceInfo.Validate, which completes the record.
unfoldable pub validate : NodeResourceInfo → Result NodeResourceInfo
unfolding validate_sorted usage_or_zero sort_disks
validate n = elim n.capacity [
  | none ↦ err invalid_capacity
  | some capacity ↦
      let usage = usage_or_zero capacity n.usage in
      validate_sorted (record capacity { disks = sort_disks capacity.disks })
        (record usage { disks = sort_disks usage.disks })
]

pub record NodeResourceRequest : Type 0 where
  pub volumes : Volumes
  pub storage : ℤ
  pub disks : Disks
  pub rm_disks : List String
  -- `RawParams.IsSet`
  pub is_set : String → Bool

unfoldable pub skip_empty : NodeResourceRequest → NodeResource → NodeResourceRequest
skip_empty n node_resource =
    let volumes = if n.is_set "volumes" then n.volumes else node_resource.volumes in
    let kept =
      if n.is_set "volumes"
      then add64 (sub64 node_resource.storage (total node_resource.volumes)) (total volumes)
      else node_resource.storage in
    record n {
      volumes = volumes;
      storage = if n.is_set "storage" then n.storage else kept;
      disks = if n.is_set "disks" then n.disks else node_resource.disks;
    }

-- `if incr { resp.Add(r) } else { resp.Sub(r) }`
unfoldable pub change : Bool → NodeResource → NodeResource → NodeResource
unfolding add sub
change incr resp r = if incr then add resp r else sub resp r

-- The resource that a workload takes: `Volumes.Add` over its volume plan, its storage and disks.
pub record WorkloadUsage : Type 0 where
  pub volume_plan_request : List Volumes
  pub storage_request : ℤ
  pub disks_request : Disks

unfoldable pub sum_volumes : Volumes → List Volumes → Volumes
sum_volumes volumes [] = volumes
sum_volumes volumes (volume_map ∷ plan) = sum_volumes (Volumes.add volumes volume_map) plan

unfoldable pub workload_resource : WorkloadUsage → NodeResource
unfolding sum_volumes
workload_resource w = record {
  volumes = sum_volumes [] w.volume_plan_request;
  disks = w.disks_request;
  storage = w.storage_request;
}

unfoldable pub change_all : Bool → NodeResource → List WorkloadUsage → NodeResource
unfolding change workload_resource
change_all incr resp [] = resp
change_all incr resp (w ∷ workloads) =
    change_all incr (change incr resp (workload_resource w)) workloads

unfoldable pub requested : Option NodeResourceRequest → Option NodeResource → Option NodeResource
requested none node_resource = node_resource
requested (some req) node_resource =
    some (record { volumes = req.volumes; disks = req.disks; storage = req.storage })

apply_change : Bool → NodeResource → Option NodeResource → List WorkloadUsage → NodeResource
unfolding change change_all
apply_change incr resp (some r) workloads = change incr resp r
apply_change incr resp none workloads = change_all incr resp workloads

-- Without delta the resource is rewritten: it starts empty and the change is an increase.
unfoldable pub calculate_node_resource :
    Option NodeResourceRequest
    → Option NodeResource
    → Option NodeResource
    → List WorkloadUsage
    → Bool
    → Bool
    → NodeResource
unfolding requested apply_change
calculate_node_resource req node_resource none workloads delta incr =
    apply_change true empty_resource (requested req node_resource) workloads
calculate_node_resource req node_resource (some origin) workloads delta incr =
    if delta
    then apply_change incr origin (requested req node_resource) workloads
    else apply_change true empty_resource (requested req node_resource) workloads
