-- ===== src/Storage/Binding.antt =====
-- storage/types/volume.go: the volume bindings of a request and the plans. The plan maps
-- bindings, which the source keys by pointer, to volumes.
pub mod Text
use Prim.Native.String.{String}
use Prim.Native.Char.{code}
use resource_extend.Base.{
  Bool, false, not, ◌&&◌, ◌||◌, ◌==◌, List, [], ◌∷◌, ◌++◌, Option, none, some, if◌then◌else◌, ℕ,
}
use resource_extend.Base.Int.{ℤ, pos, ltb_ℤ, leb_ℤ, eqb_ℤ}
use resource_extend.Base.Word.{add64}
use resource_extend.Base.Dict.{◌=s◌}
use resource_extend.Errors.{invalid_volume, invalid_params, Result, ok, err}
use resource_extend.Storage.Volumes.{Volumes, get_device, get_size}
use resource_extend.Storage.Disk.{Rates, Disk, add_rates}

pub record VolumeBinding : Type 0 where
  pub source : String
  pub destination : String
  pub flags : String
  pub size_in_bytes : ℤ
  pub rates : Rates
  pub open rates use *

abbrev pub VolumeBindings : Type 0
VolumeBindings = List VolumeBinding

-- `strings.HasSuffix`
unfoldable pub has_suffix : String → String → Bool
has_suffix String.[] suffix = "" =s suffix
has_suffix (String.◌∷◌ c s) suffix = (String.◌∷◌ c s =s suffix) || has_suffix s suffix

-- `strings.Contains(s, "m")` by the code of the character
unfoldable pub has_char : ℕ → String → Bool
has_char n String.[] = false
has_char n (String.◌∷◌ c s) = (code c == n) || has_char n s

unfoldable pub validate_one : VolumeBinding → Result (Unit {0})
validate_one vb = if vb.destination =s "" then err invalid_volume else ok tt

unfoldable pub require_schedule : VolumeBinding → Bool
unfolding has_suffix
require_schedule vb = has_suffix vb.source "AUTO" || (vb.source =s "")

unfoldable pub require_schedule_unlimited_quota : VolumeBinding → Bool
unfolding require_schedule
require_schedule_unlimited_quota vb =
    require_schedule vb
    && eqb_ℤ vb.size_in_bytes (pos 0)
    && eqb_ℤ vb.read_iops (pos 0)
    && eqb_ℤ vb.write_iops (pos 0)
    && eqb_ℤ vb.read_bps (pos 0)
    && eqb_ℤ vb.write_bps (pos 0)

unfoldable pub require_schedule_monopoly : VolumeBinding → Bool
unfolding require_schedule has_char
require_schedule_monopoly vb = require_schedule vb && has_char 0x6d vb.flags

unfoldable pub require_iops : VolumeBinding → Bool
require_iops vb =
    ltb_ℤ (pos 0) vb.read_iops
    || ltb_ℤ (pos 0) vb.write_iops
    || ltb_ℤ (pos 0) vb.read_bps
    || ltb_ℤ (pos 0) vb.write_bps

unfoldable pub valid_io_parameters : VolumeBinding → Bool
valid_io_parameters vb =
    leb_ℤ (pos 0) vb.read_iops
    && leb_ℤ (pos 0) vb.write_iops
    && leb_ℤ (pos 0) vb.read_bps
    && leb_ℤ (pos 0) vb.write_bps

unfoldable pub get_map_key : VolumeBinding → String × String × String
get_map_key vb = (vb.source, vb.destination, vb.flags)

unfoldable pub add_quota : VolumeBinding → VolumeBinding → VolumeBinding
add_quota vb o = record vb {
  size_in_bytes = add64 vb.size_in_bytes o.size_in_bytes;
  rates = add_rates vb.rates o.rates;
}

unfoldable pub disk_quota : VolumeBinding → Disk → Disk
disk_quota vb disk = record disk { rates = vb.rates }

unfoldable pub validate : VolumeBindings → Result (Unit {0})
unfolding require_schedule_monopoly valid_io_parameters
validate [] = ok tt
validate (vb ∷ vbs) =
    if require_schedule_monopoly vb && leb_ℤ vb.size_in_bytes (pos 0)
    then err invalid_volume
    else if not (valid_io_parameters vb)
    then err invalid_params
    else validate vbs

unfoldable pub need_schedule : VolumeBindings → Bool
unfolding require_schedule require_iops
need_schedule [] = false
need_schedule (vb ∷ vbs) = (require_schedule vb || require_iops vb) || need_schedule vbs

unfoldable pub total_from : ℤ → VolumeBindings → ℤ
total_from total [] = total
total_from total (vb ∷ vbs) = total_from (add64 total vb.size_in_bytes) vbs

unfoldable pub total_size : VolumeBindings → ℤ
unfolding total_from
total_size vbs = total_from (pos 0) vbs

abbrev pub VolumePlan : Type 0
VolumePlan = List (VolumeBinding × Volumes)

-- The first entry that a `range` gives for the destination.
unfoldable pub get_volumes : VolumePlan → VolumeBinding → Option Volumes
get_volumes [] vb = none
get_volumes ((binding, volume_map) ∷ plan) vb =
    if vb.destination =s binding.destination then some volume_map else get_volumes plan vb

unfoldable pub planned : VolumeBinding → Option Volumes → VolumeBinding
planned vb none = vb
planned vb (some vmap) = record vb {
  source = get_device vmap;
  size_in_bytes =
      if ltb_ℤ vb.size_in_bytes (get_size vmap) then get_size vmap else vb.size_in_bytes;
}

unfoldable pub apply_plan : VolumePlan → VolumeBindings → VolumeBindings
unfolding planned get_volumes
apply_plan plan [] = []
apply_plan plan (vb ∷ vbs) = planned vb (get_volumes plan vb) ∷ apply_plan plan vbs

abbrev pub same_key : VolumeBinding → VolumeBinding → Bool
same_key b b1 =
    (b.source =s b1.source) && (b.destination =s b1.destination) && (b.flags =s b1.flags)

-- The volumes of a binding's key in the map that the plan is turned into: the last of the plan's.
unfoldable pub find_by_key : VolumeBinding → Option Volumes → VolumePlan → Option Volumes
find_by_key binding found [] = found
find_by_key binding found ((b, vm) ∷ plan) =
    find_by_key binding (if same_key b binding then some vm else found) plan

-- The entry that GetVolumes finds, with the plan without it.
unfoldable pub take_out :
    VolumeBinding → VolumePlan → Option ((VolumeBinding × Volumes) × VolumePlan)
take_out vb [] = none
take_out vb ((binding, volume_map) ∷ plan) =
    if vb.destination =s binding.destination
    then some ((binding, volume_map), plan)
    else elim (take_out vb plan) [
      | none ↦ none
      | some (found, rest) ↦ some (found, (binding, volume_map) ∷ rest)
    ]

-- One round of the loop of VolumePlan.Merge. A merged binding is a new one, and a binding that is
-- not merged is not a key of the plan yet, so both go to the end.
unfoldable pub merge_one : VolumePlan → VolumeBinding → Volumes → VolumePlan
unfolding take_out add_quota
merge_one p vb vm = elim (take_out vb p) [
  | none ↦ p ++ (vb, vm) ∷ []
  | some ((old_vb, old_vm), rest) ↦
      rest
      ++ (add_quota vb old_vb, (get_device vm, add64 (get_size vm) (get_size old_vm)) ∷ []) ∷ []
]

unfoldable pub merge : VolumePlan → VolumePlan → VolumePlan
unfolding merge_one
merge p [] = p
merge p ((vb, vm) ∷ p2) = merge (merge_one p vb vm) p2

-- The map of MergeVolumeBindings, in the order in which its keys come up.
unfoldable pub merge_binding : VolumeBindings → VolumeBinding → VolumeBindings
unfolding add_quota
merge_binding [] vb = vb ∷ []
merge_binding (binding ∷ vbs) vb =
    if same_key binding vb then add_quota binding vb ∷ vbs else binding ∷ merge_binding vbs vb

unfoldable pub merge_group : VolumeBindings → VolumeBindings → VolumeBindings
unfolding merge_binding
merge_group vbs [] = vbs
merge_group vbs (vb ∷ group) = merge_group (merge_binding vbs vb) group

unfoldable pub drop_negative : VolumeBindings → VolumeBindings
drop_negative [] = []
drop_negative (vb ∷ vbs) =
    if leb_ℤ (pos 0) vb.size_in_bytes then vb ∷ drop_negative vbs else drop_negative vbs

-- With one list to merge into.
unfoldable pub merge_volume_bindings : VolumeBindings → VolumeBindings → VolumeBindings
unfolding merge_group drop_negative
merge_volume_bindings vbs1 vbs2 = drop_negative (merge_group (merge_group [] vbs2) vbs1)
