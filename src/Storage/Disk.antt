-- ===== src/Storage/Disk.antt =====
-- storage/types/disk.go; the text form of a disk stands in the child Text. The four rates of a disk or
-- a volume binding, which the source keeps as four fields each, are one record here. A disk is a
-- value: the mutation of a list's disk through a pointer is an update of the list.
pub mod Quota
pub mod Distinct
pub mod Paths
pub mod Text
use Prim.Native.String.{String}
use Prim.Native.Char.{code}
use resource_extend.Base.{
  ℕ, suc, Bool, true, false, ◌&&◌, ◌||◌, ◌==◌, List, [], ◌∷◌, ◌++◌, Option, none, some,
  if◌then◌else◌, map,
}
use resource_extend.Base.Int.{ℤ, pos, negsuc, leb_ℤ}
use resource_extend.Base.Word.{add64, sub64}
use resource_extend.Base.Dict.{◌=s◌}

pub record Rates : Type 0 where
  pub read_iops : ℤ
  pub write_iops : ℤ
  pub read_bps : ℤ
  pub write_bps : ℤ

abbrev pub zip_rates : (ℤ → ℤ → ℤ) → Rates → Rates → Rates
zip_rates op r q = record {
  read_iops = op r.read_iops q.read_iops;
  write_iops = op r.write_iops q.write_iops;
  read_bps = op r.read_bps q.read_bps;
  write_bps = op r.write_bps q.write_bps;
}

abbrev pub add_rates : Rates → Rates → Rates
add_rates = zip_rates add64

abbrev pub sub_rates : Rates → Rates → Rates
sub_rates = zip_rates sub64

abbrev pub zero_rates : Rates
zero_rates = record { read_iops = pos 0; write_iops = pos 0; read_bps = pos 0; write_bps = pos 0 }

-- `-x` for each of the four
abbrev pub neg_rates : Rates → Rates
neg_rates r = sub_rates zero_rates r

pub record Disk : Type 0 where
  pub device : String
  pub mounts : List String
  pub rates : Rates
  pub open rates use *

abbrev pub Disks : Type 0
Disks = List Disk

unfoldable pub get_disk_by_device : String → Disks → Option Disk
get_disk_by_device device [] = none
get_disk_by_device device (disk ∷ d) =
    if disk.device =s device then some disk else get_disk_by_device device d

-- `if len(disk1.Mounts) > 0 { disk.Mounts = disk1.Mounts }`
unfoldable pub new_mounts : List String → List String → List String
new_mounts mounts [] = mounts
new_mounts mounts (m ∷ ms) = m ∷ ms

unfoldable pub change_disk : (Rates → Rates → Rates) → Disk → Disk → Disk
unfolding new_mounts
change_disk op disk disk1 = record disk {
  rates = op disk.rates disk1.rates;
  mounts = new_mounts disk.mounts disk1.mounts;
}

-- Changes the disk that GetDiskByDevice finds; none where it finds none.
unfoldable pub change_first : (Rates → Rates → Rates) → Disk → Disks → Option Disks
unfolding change_disk
change_first op disk1 [] = none
change_first op disk1 (disk ∷ d) =
    if disk.device =s disk1.device
    then some (change_disk op disk disk1 ∷ d)
    else elim (change_first op disk1 d) [ none ↦ none | some d' ↦ some (disk ∷ d') ]

abbrev pub or_same : Option Disks → Disks → Disks
or_same none d = d
or_same (some d') d = d'

-- The loop of `Add` and `Sub`: `fresh` is the disk that is appended for one that `d` does not have.
unfoldable pub merge_loop : (Rates → Rates → Rates) → (Disk → Disk) → Disks → Disks → Disks → Disks
unfolding change_first
merge_loop op fresh d to_append [] = d ++ to_append
merge_loop op fresh d to_append (disk1 ∷ d1) =
    let found = change_first op disk1 d in
    merge_loop op fresh (or_same found d)
      (elim found [ none ↦ to_append ++ fresh disk1 ∷ [] | some d' ↦ to_append ]) d1

unfoldable pub add : Disks → Disks → Disks
unfolding merge_loop
add d d1 = merge_loop add_rates (λ disk1. disk1) d [] d1

abbrev pub negated : Disk → Disk
negated disk1 = record disk1 { rates = neg_rates disk1.rates }

unfoldable pub sub : Disks → Disks → Disks
unfolding merge_loop
sub d d1 = merge_loop sub_rates negated d [] d1

unfoldable pub remove_mounts : Disks → Disks
remove_mounts [] = []
remove_mounts (disk ∷ d) = record disk { mounts = [] } ∷ remove_mounts d
