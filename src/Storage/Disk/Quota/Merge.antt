-- ===== src/Storage/Disk/Quota/Merge.antt =====
-- What merging lists of disks does to the rates of each device (storage/types/disk.go).
use resource_extend.Base.{
  String, ◌≡◌, refl, [], ◌∷◌, ◌++◌, Option, none, some, inl, inr, ◌⊎◌, arith, false, Bool-cases,
  Option-cases, if◌then◌else◌,
}
use text.Mathlib.TextEquality.{eq_iff}
use resource_extend.Base.Dict.{◌=s◌}
use resource_extend.Storage.Disk.{
  Rates, Disk, Disks, zero_rates, get_disk_by_device, change_first, change_disk, or_same,
  merge_loop,
}

-- Each device stands once.
abbrev pub IsDistinct : Disks → Type 0
IsDistinct [] = Unit
IsDistinct (disk ∷ d) = (get_disk_by_device disk.device d ≡ none) × IsDistinct d

abbrev pub rates_or : Option Disk → Rates
rates_or none = zero_rates
rates_or (some disk) = disk.rates

-- The rates of a device, 0 where the list does not have it.
unfoldable pub rates_of : String → Disks → Rates
rates_of device d = rates_or (get_disk_by_device device d)

pub get-append :
    (k : String) (d a : Disks)
    → get_disk_by_device k (d ++ a)
      ≡ elim (get_disk_by_device k d) [ none ↦ get_disk_by_device k a | some x ↦ some x ]
unfolding get_disk_by_device
get-append k [] a = refl
get-append k (disk ∷ d) a = ground (arith, get-append k d a)

pub change_first_iff :
    (op : Rates → Rates → Rates) (x : Disk) (d : Disks)
    → (change_first op x d ≡ none → get_disk_by_device x.device d ≡ none)
      × (get_disk_by_device x.device d ≡ none → change_first op x d ≡ none)
unfolding get_disk_by_device change_first
change_first_iff op x [] = ground arith
change_first_iff op x (disk ∷ d) = ground (arith, change_first_iff op x d)

pub or_same_cons :
    (op : Rates → Rates → Rates) (x disk : Disk) (d : Disks)
    → or_same (change_first op x (disk ∷ d)) (disk ∷ d) ≡ (
        if disk.device =s x.device
        then change_disk op disk x ∷ d
        else disk ∷ or_same (change_first op x d) d)
unfolding change_first
or_same_cons op x disk d = ground arith

pub get-change_first :
    (op : Rates → Rates → Rates) (k : String) (x : Disk) (d : Disks)
    → get_disk_by_device k (or_same (change_first op x d) d) ≡ (
        if x.device =s k
        then elim (get_disk_by_device k d) [
          | none ↦ none
          | some disk ↦ some (change_disk op disk x)
        ]
        else get_disk_by_device k d)
unfolding get_disk_by_device change_disk
get-change_first op k x [] = unfold change_first in ground arith
get-change_first op k x (disk ∷ d) = rw (or_same_cons op x disk d) (
    ground (
      arith,
      get-change_first op k x d,
      eq_iff disk.device x.device,
      eq_iff disk.device k,
      eq_iff x.device k,
    ))

module _ (op : Rates → Rates → Rates) (fresh : Disk → Disk)
    (fresh-device : (x : Disk) → (fresh x).device ≡ x.device) where
  next_append : Disk → Disks → Disks → Disks
  next_append x d a = elim (change_first op x d) [ none ↦ a ++ fresh x ∷ [] | some d' ↦ a ]

  append_other :
      (k : String) (x : Disk) (d a : Disks)
      → (x.device =s k) ≡ false
      → get_disk_by_device k (next_append x d a) ≡ get_disk_by_device k a
  unfolding next_append get_disk_by_device
  append_other k x d a ne = ground (
    arith,
    fresh-device x,
    eq_iff x.device k,
    eq_iff (fresh x).device k,
    get-append k a (fresh x ∷ []),
  )

  append_same :
      (x : Disk) (d a : Disks)
      → get_disk_by_device x.device d ≡ none
      → get_disk_by_device x.device a ≡ none
      → get_disk_by_device x.device (next_append x d a) ≡ some (fresh x)
  unfolding next_append get_disk_by_device
  append_same x d a hd ha = ground (
    arith,
    fresh-device x,
    eq_iff (fresh x).device x.device,
    change_first_iff op x d,
    get-append x.device a (fresh x ∷ []),
  )

  unfoldable pub merged : String → Disks → Disk → Rates
  merged k d x = elim (get_disk_by_device k d) [
    | none ↦ (fresh x).rates
    | some disk ↦ op disk.rates x.rates
  ]

  rates_of-round :
      (x : Disk) (d a : Disks)
      → get_disk_by_device x.device a ≡ none
      → rates_of x.device (or_same (change_first op x d) d ++ next_append x d a)
        ≡ merged x.device d x
  unfolding rates_of merged change_disk
  rates_of-round x d a ha = ground (
    arith,
    get-append x.device (or_same (change_first op x d) d) (next_append x d a),
    get-change_first op x.device x d,
    append_same x d a,
    eq_iff x.device x.device,
  )

  rates_of-other :
      (k : String) (x : Disk) (d a : Disks)
      → (x.device =s k) ≡ false
      → rates_of k (or_same (change_first op x d) d ++ next_append x d a) ≡ rates_of k (d ++ a)
  unfolding rates_of
  rates_of-other k x d a ne = ground (
    arith,
    append_other k x d a ne,
    get-append k d a,
    get-append k (or_same (change_first op x d) d) (next_append x d a),
    get-change_first op k x d,
  )

  merged-other :
      (k : String) (x : Disk) (d : Disks)
      → (x.device =s k) ≡ false
      → (y : Disk) → merged k (or_same (change_first op x d) d) y ≡ merged k d y
  unfolding merged
  merged-other k x d ne y = ground (arith, get-change_first op k x d)

  pub rates_of-merge_loop :
      (k : String) (d a d1 : Disks)
      → IsDistinct d1
      → (get_disk_by_device k d1 ≡ none) ⊎ (get_disk_by_device k a ≡ none)
      → rates_of k (merge_loop op fresh d a d1)
        ≡ elim (get_disk_by_device k d1) [ none ↦ rates_of k (d ++ a) | some x ↦ merged k d x ]
  unfolding merge_loop get_disk_by_device next_append
  rates_of-merge_loop k d a [] h ha = refl
  rates_of-merge_loop k d a (x ∷ d1) h ha = elim (Bool-cases (x.device =s k)) [
    | inl e ↦
        let d' = or_same (change_first op x d) d in
        ground (
          arith,
          rates_of-merge_loop k d' (next_append x d a) d1 h.1,
          eq_iff x.device k,
          rates_of-round x d a,
        )
    | inr e ↦
        let d' = or_same (change_first op x d) d in
        let again = rates_of-merge_loop k d' (next_append x d a) d1 h.1 in
        let apart = append_other k x d a e in
        elim (Option-cases (get_disk_by_device k d1)) [
          | inl none_left ↦ ground (arith, again, apart, rates_of-other k x d a e)
          | inr (y, found) ↦ ground (arith, again, apart, merged-other k x d e y)
        ]
  ]
