-- ===== src/Storage/Usage/Exact.antt =====
-- When the comparison of the stored usage with that of the workloads (getNodeResourceInfo of
-- storage/node.go) reports nothing.
use text.Mathlib.TextLemmas.{append_cancel_left}
use Prim.Native.String.{◌++◌ as ◌+++◌}
use resource_extend.Base.{
  String, ◌≡◌, ◌↔◌, refl, sym, ◌∙◌, ap, List, [], ◌∷◌, ◌++◌, none, some, All, Bool-cases,
  Option-cases, inl, inr, arith,
}
use resource_extend.Base.Int.{ℤ, eqb_ℤ, eq_of_parts}
use resource_extend.Base.Dict.{
  ◌=s◌, =s_iff, insert, lookup, count_of, lookup-insert, count_of_absent,
}
use resource_extend.Storage.Volumes.{Volumes}
use resource_extend.Storage.Disk.{Rates, Disk, Disks, get_disk_by_device}
use resource_extend.Storage.Disk.Quota.{RatesInRange, rates_of}
use resource_extend.Storage.Disk.Text.{to_string, join, rates_text}
use resource_extend.Storage.Disk.Text.RoundTrip.{rates_text_injective}
use resource_extend.Storage.Node.{NodeResource, set_mounts}
use resource_extend.Storage.Node.Valid.{rates_of-set_mounts}
use resource_extend.Storage.Usage.{
  WorkloadsUsage, copy, volume_diffs, disk_diffs, computed_disk, diffs_of, disk_differs,
}

append_nil_both : {A : Type 0} (xs ys : List A) → (xs ++ ys ≡ []) ↔ ((xs ≡ []) × (ys ≡ []))
append_nil_both [] ys = (λ e. (refl, e), λ e. e.1)
append_nil_both (x ∷ xs) ys = (λ e. absurd (cc), λ e. absurd (cc))

-- Every key of either map is a key of the copy.
abbrev IsKey : String → Volumes → Type 0
IsKey k m = (lookup k m ≡ none) → ⊥

-- A key that stands in the list.
abbrev Agree : Volumes → Volumes → Volumes → Type 0
Agree stored computed = All (λ (e : String × ℤ). count_of (e.0) stored ≡ count_of (e.0) computed)

volume_diffs_nil :
    (stored computed volumes : Volumes)
    → (volume_diffs stored computed volumes ≡ []) ↔ Agree stored computed volumes
unfolding volume_diffs
volume_diffs_nil stored computed [] = (λ e. tt, λ a. refl)
volume_diffs_nil stored computed ((k, n) ∷ volumes) =
    let ih = volume_diffs_nil stored computed volumes in
    elim (Bool-cases (eqb_ℤ (count_of k stored) (count_of k computed))) [
      | inl e ↦
          let same : count_of k stored ≡ count_of k computed = eq_of_parts _ _ (ground arith) in
          rw e (λ d. (same, ih.0 d), λ a. ih.1 a.1)
      | inr e ↦ rw e (λ d. absurd (cc), λ a. absurd (ground arith))
    ]

-- A key of the list has equal sizes.
Agree-lookup :
    (k : String) (v : ℤ) (stored computed volumes : Volumes)
    → Agree stored computed volumes
    → lookup k volumes ≡ some v
    → count_of k stored ≡ count_of k computed
unfolding lookup
Agree-lookup k v stored computed [] a e = absurd (cc)
Agree-lookup k v stored computed ((j, n) ∷ volumes) a e = elim (Bool-cases (j =s k)) [
  | inl same ↦ rw (← (=s_iff j k).0 same) a.0
  | inr other ↦ Agree-lookup k v stored computed volumes a.1 (rw other at e)
]

lookup-copy-none :
    (k : String) (m m1 : Volumes)
    → lookup k (copy m m1) ≡ none
    → (lookup k m ≡ none) × (lookup k m1 ≡ none)
unfolding copy lookup
lookup-copy-none k m [] e = (e, refl)
lookup-copy-none k m ((j, n) ∷ m1) e =
    let ih = lookup-copy-none k (insert j n m) m1 e in ground (arith, ih, lookup-insert j k n m)

Agree-of_sizes :
    (stored computed volumes : Volumes)
    → ((k : String) → count_of k stored ≡ count_of k computed)
    → Agree stored computed volumes
Agree-of_sizes stored computed [] h = tt
Agree-of_sizes stored computed ((k, n) ∷ volumes) h =
    (h k, Agree-of_sizes stored computed volumes h)

-- No volume is reported exactly if both maps have the same size for each.
pub volume_diffs_exact :
    (stored computed : Volumes)
    → (volume_diffs stored computed (copy computed stored) ≡ [])
      ↔ ((k : String) → count_of k stored ≡ count_of k computed)
volume_diffs_exact stored computed =
    let nil = volume_diffs_nil stored computed (copy computed stored) in
    (
      λ e k. elim (Option-cases (lookup k (copy computed stored))) [
        | inl missing ↦
            let both = lookup-copy-none k computed stored missing in
            count_of_absent k stored both.1 ∙ sym (count_of_absent k computed both.0)
        | inr (v, found) ↦ Agree-lookup k v stored computed _ (nil.0 e) found
      ],
      λ h. nil.1 (Agree-of_sizes stored computed _ h),
    )

computed_disk-device :
    (disk : Disk) (disks : Disks) → (computed_disk disk disks).device ≡ disk.device
unfolding computed_disk get_disk_by_device
computed_disk-device disk [] = refl
computed_disk-device disk (d ∷ disks) = elim (Bool-cases (d.device =s disk.device)) [
  | inl e ↦ rw e ((=s_iff d.device disk.device).0 e)
  | inr e ↦ rw e (computed_disk-device disk disks)
]

computed_disk-rates :
    (disk : Disk) (disks : Disks) → (computed_disk disk disks).rates ≡ rates_of disk.device disks
unfolding computed_disk rates_of
computed_disk-rates disk disks = elim (Option-cases (get_disk_by_device disk.device disks)) [
  | inl e ↦ rw e refl
  | inr (d, e) ↦ rw e refl
]

-- The text with the device and the mounts of the stored disk.
abbrev text_with : Disk → String → String
text_with disk rates = disk.device +++ (":" +++ (join "," disk.mounts +++ (":" +++ rates)))

to_string-computed_disk :
    (disk : Disk) (disks : Disks)
    → to_string (computed_disk disk disks) ≡ text_with disk (rates_text (computed_disk disk disks))
unfolding to_string
to_string-computed_disk disk disks =
    let c = computed_disk disk disks in
    let mounts : c.mounts ≡ disk.mounts = unfold computed_disk in refl in
    (λ i.
      computed_disk-device disk disks i
      +++ (":" +++ (join "," (mounts i) +++ (":" +++ rates_text c))))

rates_text_same : (d d1 : Disk) → d.rates ≡ d1.rates → rates_text d ≡ rates_text d1
unfolding rates_text
rates_text_same d d1 e =
    ap (λ (r : Rates). rates_text (record { device = ""; mounts = []; rates = r })) e

text_with_injective : (disk : Disk) (a b : String) → text_with disk a ≡ text_with disk b → a ≡ b
text_with_injective disk a b e = append_cancel_left ":" a b (
    append_cancel_left (join "," disk.mounts) _ _
      (append_cancel_left ":" _ _ (append_cancel_left disk.device _ _ e)))

text_same :
    (disk : Disk) (disks : Disks)
    → rates_of disk.device disks ≡ disk.rates
    → to_string (computed_disk disk disks) ≡ to_string disk
unfolding to_string
text_same disk disks e =
    to_string-computed_disk disk disks
    ∙ ap (text_with disk)
        (rates_text_same (computed_disk disk disks) disk (computed_disk-rates disk disks ∙ e))

-- The text tells the rates apart.
text_rates :
    (disk : Disk) (disks : Disks)
    → RatesInRange disk.rates
    → RatesInRange (rates_of disk.device disks)
    → to_string (computed_disk disk disks) ≡ to_string disk
    → rates_of disk.device disks ≡ disk.rates
text_rates disk disks r q e =
    let of_c = computed_disk-rates disk disks in
    let stored : to_string disk ≡ text_with disk (rates_text disk) = unfold to_string in refl in
    sym of_c
    ∙ rates_text_injective (computed_disk disk disks) disk (rw of_c q) r
        (text_with_injective disk _ _ (sym (to_string-computed_disk disk disks) ∙ e ∙ stored))

-- The stored disks have the rates of the disks in use.
abbrev pub HasRates : Disks → Disks → Type 0
HasRates disks = All (λ (disk : Disk). rates_of disk.device disks ≡ disk.rates)

HasRates-set_mounts :
    (x : Disk) (disks stored : Disks) → HasRates (set_mounts x disks) stored ↔ HasRates disks stored
HasRates-set_mounts x disks [] = (λ h. h, λ h. h)
HasRates-set_mounts x disks (disk ∷ stored) =
    let ih = HasRates-set_mounts x disks stored in
    let same = rates_of-set_mounts disk.device x disks in
    (λ h. (sym same ∙ h.0, ih.0 h.1), λ h. (same ∙ h.0, ih.1 h.1))

-- No disk is reported if each stored one has the rates that the workloads use of its device.
pub disk_diffs-of_HasRates :
    (disks stored : Disks) → HasRates disks stored → (disk_diffs disks stored).1 ≡ []
unfolding disk_diffs
disk_diffs-of_HasRates disks [] h = refl
disk_diffs-of_HasRates disks (disk ∷ stored) h =
    rw
      ((=s_iff (to_string (computed_disk disk disks)) (to_string disk)).1
        (text_same disk disks h.0))
      (disk_diffs-of_HasRates (set_mounts disk disks) stored
        ((HasRates-set_mounts disk disks stored).1 h.1))

-- And only then, where the rates fit `int64`.
disk_diffs-HasRates :
    (disks stored : Disks)
    → All (λ (disk : Disk). RatesInRange disk.rates) stored
    → ((k : String) → RatesInRange (rates_of k disks))
    → (disk_diffs disks stored).1 ≡ []
    → HasRates disks stored
unfolding disk_diffs
disk_diffs-HasRates disks [] r q e = tt
disk_diffs-HasRates disks (disk ∷ stored) r q e =
    let c = to_string (computed_disk disk disks) in
    elim (Bool-cases (c =s to_string disk)) [
      | inl same ↦ (
        text_rates disk disks r.0 (q disk.device) ((=s_iff c (to_string disk)).0 same),
        (HasRates-set_mounts disk disks stored).0 (
            disk_diffs-HasRates (set_mounts disk disks) stored r.1
              (λ k. rw (rates_of-set_mounts k disk disks) (q k)) (rw same at e)),
      )
      | inr other ↦
          absurd
            (let bad : disk_differs disk.device (to_string disk) c ∷ _ ≡ [] = (rw other at e) in cc)
    ]

-- Where the rates of the stored disks and of what the workloads use fit `int64`: the comparison reports
-- nothing exactly if the stored usage has the storage that the workloads use, the size of each
-- volume, and for each of its own disks the rates of the device; disks that it lacks are not compared.
pub diffs_of-eq-nil :
    (stored : NodeResource) (usage : WorkloadsUsage)
    → All (λ (disk : Disk). RatesInRange disk.rates) stored.disks
    → ((k : String) → RatesInRange (rates_of k usage.disks))
    → (diffs_of stored usage ≡ []) ↔ (
        (stored.storage ≡ usage.storage)
        × ((k : String) → count_of k stored.volumes ≡ count_of k usage.volumes)
        × HasRates usage.disks stored.disks)
unfolding diffs_of
diffs_of-eq-nil stored usage r q =
    let volumes = volume_diffs_exact stored.volumes usage.volumes in
    let parts =
      append_nil_both
        (volume_diffs stored.volumes usage.volumes (copy usage.volumes stored.volumes))
        (disk_diffs usage.disks stored.disks).1 in
    elim (Bool-cases (eqb_ℤ stored.storage usage.storage)) [
      | inl e ↦ rw e (
        λ d.
            let (v, w) = parts.0 d in
            (
              eq_of_parts stored.storage usage.storage (ground arith),
              volumes.0 v,
              disk_diffs-HasRates usage.disks stored.disks r q w,
            ),
        λ h. parts.1 (volumes.1 h.1, disk_diffs-of_HasRates usage.disks stored.disks h.2),
      )
      | inr e ↦ rw e (λ d. absurd (cc), λ h. absurd (let s = h.0 in ground arith))
    ]
