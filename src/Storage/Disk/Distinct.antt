-- ===== src/Storage/Disk/Distinct.antt =====
-- Lists of disks with each device once (storage/types/disk.go).
use text.Mathlib.TextEquality.{eq_iff}
use resource_extend.Base.{
  String, ◌≡◌, refl, ap, [], ◌∷◌, ◌++◌, none, All, Bool-cases, Option-cases, inl, inr, arith,
}
use resource_extend.Base.Dict.{◌=s◌}
use resource_extend.Storage.Disk.{
  Rates, Disk, Disks, get_disk_by_device, change_first, change_disk, merge_loop, or_same, add_rates,
  add, remove_mounts,
}
use resource_extend.Storage.Disk.Quota.{
  IsDistinct, rates_of, get-append, change_first_iff, or_same_cons, get-change_first,
}

get-append_none :
    (k : String) (d a : Disks)
    → get_disk_by_device k d ≡ none
    → get_disk_by_device k a ≡ none
    → get_disk_by_device k (d ++ a) ≡ none
get-append_none k d a e f = rw (get-append k d a, e) f

get-change_none :
    (op : Rates → Rates → Rates) (k : String) (x : Disk) (d : Disks)
    → get_disk_by_device k d ≡ none
    → get_disk_by_device k (or_same (change_first op x d) d) ≡ none
get-change_none op k x d e = ground (arith, get-change_first op k x d)

split_none :
    (k : String) (d a : Disks)
    → get_disk_by_device k (d ++ a) ≡ none
    → (get_disk_by_device k d ≡ none) × (get_disk_by_device k a ≡ none)
split_none k d a e = ground (arith, get-append k d a)

change_first-IsDistinct :
    (op : Rates → Rates → Rates) (x : Disk) (d a : Disks)
    → IsDistinct (d ++ a)
    → IsDistinct (or_same (change_first op x d) d ++ a)
change_first-IsDistinct op x [] a h = unfold change_first in h
change_first-IsDistinct op x (disk ∷ d) a h =
    rw (or_same_cons op x disk d) (elim (Bool-cases (disk.device =s x.device)) [
      | inl e ↦ rw e (unfold change_disk in h)
      | inr e ↦
          let parts = split_none disk.device d a h.0 in
          rw e (
            get-append_none disk.device _ a (get-change_none op disk.device x d parts.0) parts.1,
            change_first-IsDistinct op x d a h.1,
          )
    ])

-- What is not found in a list is not its first, nor in the rest.
other_device :
    (x disk : Disk) (d : Disks)
    → get_disk_by_device x.device (disk ∷ d) ≡ none
    → get_disk_by_device disk.device (x ∷ []) ≡ none
unfolding get_disk_by_device
other_device x disk d e = ground (arith, eq_iff disk.device x.device, eq_iff x.device disk.device)

later :
    (k : String) (disk : Disk) (d : Disks)
    → get_disk_by_device k (disk ∷ d) ≡ none
    → get_disk_by_device k d ≡ none
unfolding get_disk_by_device
later k disk d e = ground arith

append-IsDistinct :
    (x : Disk) (d : Disks)
    → IsDistinct d
    → get_disk_by_device x.device d ≡ none
    → IsDistinct (d ++ x ∷ [])
append-IsDistinct x [] h e = unfold get_disk_by_device in (refl, tt)
append-IsDistinct x (disk ∷ d) h e = (
  get-append_none disk.device d (x ∷ []) h.0 (other_device x disk d e),
  append-IsDistinct x d h.1 (later x.device disk d e),
)

append_last : (d a : Disks) (x : Disk) → d ++ (a ++ x ∷ []) ≡ (d ++ a) ++ x ∷ []
append_last [] a x = refl
append_last (disk ∷ d) a x = ap (λ r. disk ∷ r) (append_last d a x)

-- None of the disks has a device of the list.
abbrev AllNew : Disks → Disks → Type 0
AllNew a = All (λ (x : Disk). get_disk_by_device x.device a ≡ none)

AllNew-append :
    (x : Disk) (a d1 : Disks)
    → get_disk_by_device x.device d1 ≡ none
    → AllNew a d1
    → AllNew (a ++ x ∷ []) d1
AllNew-append x a [] e h = tt
AllNew-append x a (y ∷ d1) e h = (
  get-append_none y.device a (x ∷ []) h.0 (
      unfold get_disk_by_device in
      ground (arith, eq_iff y.device x.device, eq_iff x.device y.device)),
  AllNew-append x a d1 (later x.device y d1 e) h.1,
)

merge_loop-IsDistinct :
    (d a d1 : Disks)
    → IsDistinct (d ++ a)
    → IsDistinct d1
    → AllNew a d1
    → IsDistinct (merge_loop add_rates (λ x. x) d a d1)
unfolding merge_loop
merge_loop-IsDistinct d a [] h h1 n = h
merge_loop-IsDistinct d a (x ∷ d1) h h1 n = elim (Option-cases (change_first add_rates x d)) [
  | inl e ↦ rw e (
      merge_loop-IsDistinct d (a ++ x ∷ []) d1
        (rw (append_last d a x) (
          append-IsDistinct x (d ++ a) h
            (get-append_none x.device d a ((change_first_iff add_rates x d).0 e) n.0)))
        h1.1 (AllNew-append x a d1 h1.0 n.1))
  | inr (d', e) ↦
      let changed : IsDistinct (d' ++ a) = rw e at (change_first-IsDistinct add_rates x d a h) in
      rw e (merge_loop-IsDistinct d' a d1 changed h1.1 n.1)
]

AllNew-nil : (d1 : Disks) → AllNew [] d1
unfolding get_disk_by_device
AllNew-nil [] = tt
AllNew-nil (x ∷ d1) = (refl, AllNew-nil d1)

append_nothing : (d : Disks) → d ++ [] ≡ d
append_nothing [] = refl
append_nothing (x ∷ d) = ap (λ r. x ∷ r) (append_nothing d)

-- A sum has each device once, if both lists have.
pub add-IsDistinct : (d d1 : Disks) → IsDistinct d → IsDistinct d1 → IsDistinct (add d d1)
unfolding add
add-IsDistinct d d1 h h1 =
    merge_loop-IsDistinct d [] d1 (rw (append_nothing d) h) h1 (AllNew-nil d1)

get-remove_mounts :
    (k : String) (d : Disks)
    → get_disk_by_device k d ≡ none
    → get_disk_by_device k (remove_mounts d) ≡ none
unfolding get_disk_by_device remove_mounts
get-remove_mounts k [] e = refl
get-remove_mounts k (x ∷ d) e = ground (arith, get-remove_mounts k d)

pub remove_mounts-IsDistinct : (d : Disks) → IsDistinct d → IsDistinct (remove_mounts d)
unfolding remove_mounts
remove_mounts-IsDistinct [] h = tt
remove_mounts-IsDistinct (x ∷ d) h =
    (get-remove_mounts x.device d h.0, remove_mounts-IsDistinct d h.1)

-- Each disk has the rates that its list has for its device.
abbrev RatesKnown : Disks → Disk → Type 0
RatesKnown d x = rates_of x.device d ≡ x.rates

RatesKnown-cons :
    (x : Disk) (d e : Disks)
    → get_disk_by_device x.device e ≡ none
    → All (RatesKnown d) e
    → All (RatesKnown (x ∷ d)) e
RatesKnown-cons x d [] n h = tt
RatesKnown-cons x d (y ∷ e) n h = (
  unfold get_disk_by_device rates_of in
      ground (arith, h.0, eq_iff y.device x.device, eq_iff x.device y.device),
  RatesKnown-cons x d e (later x.device y e n) h.1,
)

pub IsDistinct-rates : (d : Disks) → IsDistinct d → All (RatesKnown d) d
IsDistinct-rates [] h = tt
IsDistinct-rates (x ∷ d) h = (
  unfold get_disk_by_device rates_of in ground (arith, eq_iff x.device x.device),
  RatesKnown-cons x d d h.0 (IsDistinct-rates d h.1),
)
