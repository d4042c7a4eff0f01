-- ===== src/Storage/Schedule/Host.antt =====
-- The host of storage/schedule/schedule.go: the volumes and disks of a node while plans are made.
-- A volume is a value, and a change through its pointer a new value in its list. A disk is named by
-- its place in the host's list, which stands for its pointer; the disks found for a path are kept.
-- Counts of plans are natural numbers.
pub mod Cache
use Prim.Native.String.{String, compare}
use Prim.Native.Nat.{Ordering}
use resource_extend.Base.{
  ℕ, Bool, true, false, ◌&&◌, ◌||◌, List, [], ◌∷◌, Option, none, some, if◌then◌else◌, get_elem?,
  set,
}
use resource_extend.Base.Int.{ℤ, pos, ltb_ℤ, eqb_ℤ}
use resource_extend.Base.Word.{sub64}
use resource_extend.Base.Dict.{Dict, lookup, insert, count_of}
use resource_extend.Errors.{ok}
use resource_extend.Action.{Action}
use resource_extend.Storage.Volumes.{Volumes}
use resource_extend.Storage.Disk
use resource_extend.Storage.Disk.{Disks}
use resource_extend.Storage.Disk.Paths
use resource_extend.Storage.Node.{NodeResource}

pub record Volume : Type 0 where
  pub device : String
  pub size : ℤ

pub record Host : Type 0 where
  pub max_deploy_count : ℕ
  pub used_volumes : List Volume
  pub unused_volumes : List Volume
  pub disks : Disks
  pub disk_by_path : Dict (Option ℕ)

is_before : String → String → Bool
is_before a b = elim (compare a b) [ Ordering.lt ↦ Bool.true | _ ↦ Bool.false ]

-- `compareVolume(v, v1) < 0`
unfoldable pub less : Volume → Volume → Bool
unfolding is_before
less v v1 = ltb_ℤ v.size v1.size || (eqb_ℤ v.size v1.size && is_before v.device v1.device)

unfoldable pub insert_volume : Volume → List Volume → List Volume
unfolding less
insert_volume v [] = v ∷ []
insert_volume v (v1 ∷ vs) = if less v1 v then v1 ∷ insert_volume v vs else v ∷ v1 ∷ vs

-- `slices.SortStableFunc(v, compareVolume)`
unfoldable pub sort_volumes : List Volume → List Volume
unfolding insert_volume
sort_volumes [] = []
sort_volumes (v ∷ vs) = insert_volume v (sort_volumes vs)

-- The loop over the capacity's volumes, for those that are in use or for the others.
unfoldable pub volumes_in_use : Bool → Volumes → Volumes → List Volume
volumes_in_use in_use usage [] = []
volumes_in_use in_use usage ((device, size) ∷ capacity) =
    let used = count_of device usage in
    let rest = volumes_in_use in_use usage capacity in
    if eqb_ℤ used (pos 0)
    then (if in_use then rest else record { device = device; size = size } ∷ rest)
    else (if in_use then record { device = device; size = sub64 size used } ∷ rest else rest)

unfoldable pub new_host : NodeResource → NodeResource → ℕ → Host
unfolding sort_volumes volumes_in_use
new_host capacity usage max_deploy_count = record {
  max_deploy_count = max_deploy_count;
  used_volumes = sort_volumes (volumes_in_use true usage.volumes capacity.volumes);
  unused_volumes = sort_volumes (volumes_in_use false usage.volumes capacity.volumes);
  disks = Disk.sub capacity.disks usage.disks;
  disk_by_path = [];
}

unfoldable pub clone : Host → Host
clone h = record h { disk_by_path = [] }

unfoldable pub get_disk_by_path : String → Action Host (Option ℕ)
get_disk_by_path path h = elim (lookup path h.disk_by_path) [
  | some found ↦ (ok found, h)
  | none ↦
      let found = Paths.get_disk_by_path path h.disks in
      (ok found, record h { disk_by_path = insert path found h.disk_by_path })
]

-- What the pointer to a disk points to; none for nil.
unfoldable pub disk_at : Option ℕ → Host → Option Disk.Disk
disk_at none h = none
disk_at (some i) h = get_elem? h.disks i

-- A write through the pointer.
unfoldable pub set_disk : Option ℕ → Disk.Disk → Host → Host
set_disk none disk h = h
set_disk (some i) disk h = record h { disks = set h.disks i disk }
