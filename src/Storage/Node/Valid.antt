-- ===== src/Storage/Node/Valid.antt =====
-- What a storage record that passes `Validate` is like (storage/types/node.go).
pub mod Parts
use text.Mathlib.TextEquality.{eq_iff}
use resource_extend.Base.{
  String, ◌≡◌, refl, sym, ◌∙◌, subst, [], ◌∷◌, Option, none, some, inl, inr, ◌⊎◌, ◌≢◌, arith, All,
  Option-cases, true,
}
use resource_extend.Base.Int.{ℤ, pos, ◌≤ℤ◌}
use resource_extend.Base.Dict.{count_of, or_zero}
use resource_extend.Errors.{Result, ok, err, Result-cases}
use resource_extend.Storage.Volumes.{Volumes}
use resource_extend.Storage.Disk.{Rates, Disk, Disks, zero_rates, get_disk_by_device}
use resource_extend.Storage.Disk.Quota.{rates_of, rates_or}
use resource_extend.Storage.Node.{
  NodeResource, NodeResourceInfo, validate_volume, validate_storage, check_capacity, drop_unknown,
  validate_disks, validate, validate_sorted, set_mounts, is_disk_valid, join, sort_disks,
  usage_or_zero,
}
pub use Parts.*

-- For each volume of the capacity, what the usage has of it is not negative and at most its size; the
-- two storages are not negative; for each disk of the capacity, what the usage has of each of its rates
-- is not negative and at most the rate; and each disk of the usage is one of the capacity. Nothing is
-- said of volumes that the capacity lacks, nor of how the two storages compare.
pub record IsWithin (capacity usage : NodeResource) : Type 0 where
  pub sizes : SizesWithin usage.volumes capacity.volumes
  pub storage_capacity : pos 0 ≤ℤ capacity.storage
  pub storage_usage : pos 0 ≤ℤ usage.storage
  pub rates : DisksWithin usage.disks capacity.disks
  pub known : AllKnown capacity.disks usage.disks

DisksWithin-same :
    (usage usage' capacity : Disks)
    → ((k : String) → rates_of k usage' ≡ rates_of k usage)
    → DisksWithin usage capacity
    → DisksWithin usage' capacity
DisksWithin-same usage usage' [] same h = tt
DisksWithin-same usage usage' (disk ∷ capacity) same h = (
  subst (λ r. RatesWithin r disk.rates) (sym (same disk.device)) h.0,
  DisksWithin-same usage usage' capacity same h.1,
)

validate_disks-DisksWithin :
    (capacity usage disks : Disks)
    → validate_disks capacity usage ≡ ok disks
    → DisksWithin disks capacity × AllKnown capacity disks
unfolding validate_disks
validate_disks-DisksWithin capacity usage disks h =
    elim (Result-cases (check_capacity capacity usage)) [
      | inl (checked, e) ↦
          let dropped : drop_unknown capacity checked ≡ ok disks = ground arith in
          (
            DisksWithin-same checked disks capacity
                (λ k. rates_of-drop_unknown k capacity checked disks dropped)
                (check_capacity-DisksWithin capacity usage checked e),
            drop_unknown-AllKnown capacity checked disks dropped,
          )
      | inr (f, e) ↦ ground arith
    ]

validate_storage-nonnegative :
    (capacity usage : ℤ)
    → validate_storage capacity usage ≡ ok tt
    → (pos 0 ≤ℤ capacity) × (pos 0 ≤ℤ usage)
unfolding validate_storage
validate_storage-nonnegative capacity usage h = ground arith

pub join_ok {ℓ} :
    {A : Type ℓ} (r : Result (Unit {0})) (q : Result A) (a : A)
    → join r q ≡ ok a
    → (r ≡ ok tt) × (q ≡ ok a)
unfolding join
join_ok (ok x) q a h = (refl, h)
join_ok (err e) (ok b) a h = ground arith
join_ok (err e) (err f) a h = ground arith

validate_sorted-IsWithin :
    (capacity usage : NodeResource) (m : NodeResourceInfo)
    → validate_sorted capacity usage ≡ ok m
    → (used : NodeResource) × (m.capacity ≡ some capacity)
      × (m.usage ≡ some used)
      × IsWithin capacity used
unfolding validate_sorted
validate_sorted-IsWithin capacity usage m h =
    elim (Result-cases (
      join (validate_volume usage.volumes capacity.volumes) (
        join (validate_storage capacity.storage usage.storage)
          (validate_disks capacity.disks usage.disks)))) [
            | inl (disks, e) ↦
                let (volumes, e1) = join_ok _ _ disks e in
                let (storage, e2) = join_ok _ _ disks e1 in
                let kept = validate_disks-DisksWithin capacity.disks usage.disks disks e2 in
                let signs = validate_storage-nonnegative capacity.storage usage.storage storage in
                (
                  record usage { disks = disks },
                  ground arith,
                  ground arith,
                  record {
                    sizes = validate_volume-SizesWithin usage.volumes capacity.volumes volumes;
                    storage_capacity = signs.0;
                    storage_usage = signs.1;
                    rates = kept.0;
                    known = kept.1;
                  },
                )
            | inr (f, e) ↦ ground arith
          ]

-- A record that `Validate` accepts, whatever it was given, has a capacity and a usage. On each volume
-- and disk that the capacity has, the usage is not negative and within the capacity; both storages are
-- not negative; and each disk of the usage is one of the capacity.
pub validate-IsWithin :
    (n m : NodeResourceInfo)
    → validate n ≡ ok m
    → (capacity usage : NodeResource) × (m.capacity ≡ some capacity)
      × (m.usage ≡ some usage)
      × IsWithin capacity usage
unfolding validate
validate-IsWithin n m h = elim (Option-cases n.capacity) [
  | inl e ↦ ground arith
  | inr (capacity, e) ↦
      let usage = usage_or_zero capacity n.usage in
      let sorted = record capacity { disks = sort_disks capacity.disks } in
      let result =
        validate_sorted-IsWithin sorted (record usage { disks = sort_disks usage.disks }) m
          (ground arith) in
      let (used, e1, e2, within) = result in (sorted, used, e1, e2, within)
]
