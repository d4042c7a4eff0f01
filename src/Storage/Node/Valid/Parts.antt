-- ===== src/Storage/Node/Valid/Parts.antt =====
-- What the parts of Validate accept: volumes, and the disks that the node knows (storage/types/node.go).
use text.Mathlib.TextEquality.{eq_iff}
use resource_extend.Base.{
  String, ◌≡◌, refl, sym, ◌∙◌, subst, [], ◌∷◌, Option, none, some, inl, inr, ◌⊎◌, ◌≢◌, arith, All,
  Option-cases, true,
}
use resource_extend.Base.Int.{ℤ, pos, ◌≤ℤ◌}
use resource_extend.Base.Dict.{count_of, or_zero}
use resource_extend.Errors.{ok, Result-cases}
use resource_extend.Storage.Volumes.{Volumes}
use resource_extend.Storage.Disk.{Rates, Disk, Disks, zero_rates, get_disk_by_device}
use resource_extend.Storage.Disk.Quota.{rates_of, rates_or}
use resource_extend.Storage.Node.{
  validate_volume, check_capacity, drop_unknown, set_mounts, is_disk_valid,
}

abbrev pub Between : ℤ → ℤ → Type 0
Between used value = (pos 0 ≤ℤ used) × (used ≤ℤ value)

abbrev pub SizesWithin : Volumes → Volumes → Type 0
SizesWithin usage = All (λ (volume : String × ℤ). Between (count_of (volume.0) usage) (volume.1))

abbrev pub RatesWithin : Rates → Rates → Type 0
RatesWithin used r =
    Between used.read_iops r.read_iops
    × Between used.write_iops r.write_iops
    × Between used.read_bps r.read_bps
    × Between used.write_bps r.write_bps

abbrev pub DisksWithin : Disks → Disks → Type 0
DisksWithin usage = All (λ (disk : Disk). RatesWithin (rates_of disk.device usage) disk.rates)

pub validate_volume-SizesWithin :
    (usage capacity : Volumes) → validate_volume usage capacity ≡ ok tt → SizesWithin usage capacity
unfolding validate_volume count_of or_zero
validate_volume-SizesWithin usage [] h = tt
validate_volume-SizesWithin usage ((key, value) ∷ capacity) h =
    (ground arith, validate_volume-SizesWithin usage capacity (ground arith))

pub rates_of-set_mounts :
    (k : String) (disk : Disk) (usage : Disks)
    → rates_of k (set_mounts disk usage) ≡ rates_of k usage
unfolding rates_of set_mounts get_disk_by_device
rates_of-set_mounts k disk [] = refl
rates_of-set_mounts k disk (used ∷ usage) =
    ground (arith, rates_of-set_mounts k disk usage, eq_iff used.device disk.device)

is_disk_valid-RatesWithin :
    (disk : Disk) (found : Option Disk)
    → is_disk_valid disk found ≡ true
    → RatesWithin (rates_or found) disk.rates
unfolding is_disk_valid
is_disk_valid-RatesWithin disk none h = ground arith
is_disk_valid-RatesWithin disk (some used) h = ground arith

rates_of-check_capacity :
    (k : String) (capacity usage checked : Disks)
    → check_capacity capacity usage ≡ ok checked
    → rates_of k checked ≡ rates_of k usage
unfolding check_capacity
rates_of-check_capacity k [] usage checked h = ground arith
rates_of-check_capacity k (disk ∷ capacity) usage checked h =
    rates_of-check_capacity k capacity (set_mounts disk usage) checked (ground arith)
    ∙ rates_of-set_mounts k disk usage

pub check_capacity-DisksWithin :
    (capacity usage checked : Disks)
    → check_capacity capacity usage ≡ ok checked
    → DisksWithin checked capacity
unfolding check_capacity
check_capacity-DisksWithin [] usage checked h = tt
check_capacity-DisksWithin (disk ∷ capacity) usage checked h =
    let valid : is_disk_valid disk (get_disk_by_device disk.device usage) ≡ true = ground arith in
    let rest : check_capacity capacity (set_mounts disk usage) ≡ ok checked = ground arith in
    (
      subst (λ r. RatesWithin r disk.rates)
          (sym (
            rates_of-check_capacity disk.device capacity (set_mounts disk usage) checked rest
            ∙ rates_of-set_mounts disk.device disk usage))
          (unfold rates_of in is_disk_valid-RatesWithin disk _ valid),
      check_capacity-DisksWithin capacity (set_mounts disk usage) checked rest,
    )

-- The two ways in which a disk passes the second loop.
pub drop_unknown-cases :
    (capacity : Disks) (used : Disk) (usage kept : Disks)
    → drop_unknown capacity (used ∷ usage) ≡ ok kept
    → (rest : Disks) × (drop_unknown capacity usage ≡ ok rest)
      × (((get_disk_by_device used.device capacity ≢ none) × (kept ≡ used ∷ rest))
          ⊎ ((used.rates ≡ zero_rates)
              × (get_disk_by_device used.device capacity ≡ none)
              × (kept ≡ rest)))
unfolding drop_unknown
drop_unknown-cases capacity used usage kept h = elim (Result-cases (drop_unknown capacity usage)) [
  | inl (rest, e) ↦ elim (Option-cases (get_disk_by_device used.device capacity)) [
    | inl unknown ↦ (rest, e, inr (ground arith, unknown, ground arith))
    | inr (disk, known) ↦ (rest, e, inl (ground arith, ground arith))
  ]
  | inr (f, e) ↦ elim (Option-cases (get_disk_by_device used.device capacity)) [
    | inl unknown ↦ ground arith
    | inr (disk, known) ↦ ground arith
  ]
]

drop_unknown-absent :
    (k : String) (capacity usage kept : Disks)
    → get_disk_by_device k capacity ≡ none
    → drop_unknown capacity usage ≡ ok kept
    → get_disk_by_device k kept ≡ none
unfolding get_disk_by_device
drop_unknown-absent k capacity [] kept hk h = unfold drop_unknown in ground arith
drop_unknown-absent k capacity (used ∷ usage) kept hk h =
    let (rest, e, how) = drop_unknown-cases capacity used usage kept h in
    ground (arith, how, drop_unknown-absent k capacity usage rest hk e, eq_iff used.device k)

pub rates_of-drop_unknown :
    (k : String) (capacity usage kept : Disks)
    → drop_unknown capacity usage ≡ ok kept
    → rates_of k kept ≡ rates_of k usage
unfolding rates_of get_disk_by_device
rates_of-drop_unknown k capacity [] kept h = unfold drop_unknown in ground arith
rates_of-drop_unknown k capacity (used ∷ usage) kept h =
    let (rest, e, how) = drop_unknown-cases capacity used usage kept h in
    ground (
      arith,
      how,
      rates_of-drop_unknown k capacity usage rest e,
      drop_unknown-absent k capacity usage rest,
      eq_iff used.device k,
    )

abbrev pub AllKnown : Disks → Disks → Type 0
AllKnown capacity = All (λ (used : Disk). get_disk_by_device used.device capacity ≢ none)

pub drop_unknown-AllKnown :
    (capacity usage kept : Disks) → drop_unknown capacity usage ≡ ok kept → AllKnown capacity kept
drop_unknown-AllKnown capacity [] kept h =
    let empty : [] ≡ kept = unfold drop_unknown in ground arith in
    subst (AllKnown capacity) empty tt
drop_unknown-AllKnown capacity (used ∷ usage) kept h =
    let (rest, e, how) = drop_unknown-cases capacity used usage kept h in
    let known = drop_unknown-AllKnown capacity usage rest e in
    elim how [
      | inl (here, eq) ↦ subst (AllKnown capacity) (sym eq) (here, known)
      | inr (zero, gone, eq) ↦ subst (AllKnown capacity) (sym eq) known
    ]
