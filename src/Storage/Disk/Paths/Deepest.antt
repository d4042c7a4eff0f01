-- ===== src/Storage/Disk/Paths/Deepest.antt =====
-- GetDiskByPath finds a disk with a mount that covers the path, and none is deeper.
use resource_extend.Base.{
  ℕ, suc, ◌+◌, ◌≤◌, String, true, ◌&&◌, ◌≡◌, ◌⊎◌, inl, inr, refl, sym, ◌∙◌, ap, List, [], ◌∷◌,
  Option, none, some, All, Bool-cases, get_elem?, arith,
}
use resource_extend.Storage.Disk.{Disk, Disks}
use resource_extend.Storage.Disk.Paths.{
  trim_slash, mount_covers, depth_of, is_at_least, better, best_mount, best_disk, place,
  get_disk_by_path,
}

-- The mount covers the path, both without a slash at the end.
abbrev pub Covers : String → String → Type 0
Covers path mount = mount_covers (trim_slash path) (trim_slash mount) ≡ true

abbrev Reaches : ℕ → Option (ℕ × ℕ) → Type 0
Reaches n none = ⊥
Reaches n (some (disk, depth)) = n ≤ depth

-- A mount that covers is at most as deep as the best.
abbrev IsReached : String → Option (ℕ × ℕ) → String → Type 0
IsReached path best mount = Covers path mount → Reaches (depth_of mount) best

Reaches-better :
    (path : String) (i : ℕ) (mount : String) (best : Option (ℕ × ℕ)) (n : ℕ)
    → Reaches n best
    → Reaches n (better (trim_slash path) i mount best)
unfolding better is_at_least
Reaches-better path i mount none n h = absurd h
Reaches-better path i mount (some (disk, depth)) n h = ground arith

better-IsReached :
    (path : String) (i : ℕ) (mount : String) (best : Option (ℕ × ℕ))
    → IsReached path (better (trim_slash path) i mount best) mount
unfolding better is_at_least
better-IsReached path i mount none h = rw h (omega arith)
better-IsReached path i mount (some (disk, depth)) h = ground arith

Reaches-best_mount :
    (path : String) (i : ℕ) (mounts : List String) (best : Option (ℕ × ℕ)) (n : ℕ)
    → Reaches n best
    → Reaches n (best_mount (trim_slash path) i mounts best)
unfolding best_mount
Reaches-best_mount path i [] best n h = h
Reaches-best_mount path i (mount ∷ mounts) best n h =
    Reaches-best_mount path i mounts (better (trim_slash path) i mount best) n
      (Reaches-better path i mount best n h)

best_mount-IsReached :
    (path : String) (i : ℕ) (mounts : List String) (best : Option (ℕ × ℕ))
    → All (IsReached path (best_mount (trim_slash path) i mounts best)) mounts
unfolding best_mount
best_mount-IsReached path i [] best = tt
best_mount-IsReached path i (mount ∷ mounts) best =
    let next = better (trim_slash path) i mount best in
    (
      λ h.
          Reaches-best_mount path i mounts next (depth_of mount)
            (better-IsReached path i mount best h),
      best_mount-IsReached path i mounts next,
    )

Reaches-best_disk :
    (path : String) (i : ℕ) (d : Disks) (best : Option (ℕ × ℕ)) (n : ℕ)
    → Reaches n best
    → Reaches n (best_disk (trim_slash path) i d best)
unfolding best_disk
Reaches-best_disk path i [] best n h = h
Reaches-best_disk path i (disk ∷ d) best n h =
    Reaches-best_disk path (suc i) d (best_mount (trim_slash path) i disk.mounts best) n
      (Reaches-best_mount path i disk.mounts best n h)

All-mono {ℓ κ} :
    {A : Type 0} (P : A → Type ℓ) (Q : A → Type κ) (xs : List A)
    → ((a : A) → P a → Q a)
    → All P xs
    → All Q xs
All-mono P Q [] f h = tt
All-mono P Q (x ∷ xs) f h = (f x h.0, All-mono P Q xs f h.1)

best_disk-IsReached :
    (path : String) (i : ℕ) (d : Disks) (best : Option (ℕ × ℕ))
    → All
        (λ (disk : Disk). All (IsReached path (best_disk (trim_slash path) i d best)) disk.mounts)
        d
unfolding best_disk
best_disk-IsReached path i [] best = tt
best_disk-IsReached path i (disk ∷ d) best =
    let next = best_mount (trim_slash path) i disk.mounts best in
    (
      All-mono (IsReached path next) _ disk.mounts
          (λ mount h c. Reaches-best_disk path (suc i) d next (depth_of mount) (h c))
          (best_mount-IsReached path i disk.mounts best),
      best_disk-IsReached path (suc i) d next,
    )

-- The disk at a place has a mount of some depth that covers the path.
pub record IsHeld (path : String) (d : Disks) (i depth : ℕ) : Type 0 where
  pub disk : Disk
  pub at_place : get_elem? d i ≡ some disk
  pub j : ℕ
  pub mount : String
  pub mounted : get_elem? disk.mounts j ≡ some mount
  pub covers : Covers path mount
  pub depth_eq : depth_of mount ≡ depth

abbrev Stands : String → Disks → Option (ℕ × ℕ) → Type 0
Stands path d none = Unit {0}
Stands path d (some (i, depth)) = IsHeld path d i depth

abbrev IsSuffix {ℓ} : {A : Type ℓ} → List A → ℕ → List A → Type ℓ
IsSuffix xs i all = (k : ℕ) → get_elem? xs k ≡ get_elem? all (k + i)

IsSuffix-tail {ℓ} :
    {A : Type ℓ} (x : A) (xs : List A) (i : ℕ) (all : List A)
    → IsSuffix (x ∷ xs) i all
    → IsSuffix xs (suc i) all
IsSuffix-tail x xs i all h k = h (suc k) ∙ ap (get_elem? all) (omega arith)

IsSuffix-head {ℓ} :
    {A : Type ℓ} (x : A) (xs : List A) (i : ℕ) (all : List A)
    → IsSuffix (x ∷ xs) i all
    → get_elem? all i ≡ some x
IsSuffix-head x xs i all h = ap (get_elem? all) (omega arith) ∙ sym (h 0)

best_mount-Stands :
    (path : String) (all : Disks) (i : ℕ) (disk : Disk) (j : ℕ) (mounts : List String)
    (best : Option (ℕ × ℕ))
    → get_elem? all i ≡ some disk
    → IsSuffix mounts j disk.mounts
    → Stands path all best
    → Stands path all (best_mount (trim_slash path) i mounts best)
unfolding best_mount better
best_mount-Stands path all i disk j [] best e s h = h
best_mount-Stands path all i disk j (mount ∷ mounts) best e s h =
    best_mount-Stands path all i disk (suc j) mounts (better (trim_slash path) i mount best) e
      (IsSuffix-tail mount mounts j disk.mounts s)
      (elim (Bool-cases
        (is_at_least (depth_of mount) best && mount_covers (trim_slash path) (trim_slash mount))) [
          | inl yes_better ↦ rw yes_better (record {
            disk = disk;
            at_place = e;
            j = j;
            mount = mount;
            mounted = IsSuffix-head mount mounts j disk.mounts s;
            covers = ground arith;
            depth_eq = refl;
          })
          | inr not_better ↦ rw not_better h
        ])

best_disk-Stands :
    (path : String) (all : Disks) (i : ℕ) (d : Disks) (best : Option (ℕ × ℕ))
    → IsSuffix d i all
    → Stands path all best
    → Stands path all (best_disk (trim_slash path) i d best)
unfolding best_disk
best_disk-Stands path all i [] best s h = h
best_disk-Stands path all i (disk ∷ d) best s h =
    best_disk-Stands path all (suc i) d (best_mount (trim_slash path) i disk.mounts best)
      (IsSuffix-tail disk d i all s)
      (best_mount-Stands path all i disk 0 disk.mounts best (IsSuffix-head disk d i all s)
        (λ k. ap (get_elem? disk.mounts) (omega arith)) h)

-- Where GetDiskByPath finds a disk, one of its mounts covers the path, and no mount of any disk that
-- covers it is deeper; where it finds none, no mount of any disk covers the path.
pub get_disk_by_path-deepest :
    (path : String) (d : Disks)
    → ((i depth : ℕ) × (get_disk_by_path path d ≡ some i)
        × IsHeld path d i depth
        × All
            (λ (disk : Disk). All (λ mount. Covers path mount → depth_of mount ≤ depth) disk.mounts)
            d)
      ⊎ ((get_disk_by_path path d ≡ none)
          × All (λ (disk : Disk). All (λ mount. ¬ Covers path mount) disk.mounts) d)
unfolding get_disk_by_path
get_disk_by_path-deepest path d = outcome (best_disk (trim_slash path) 0 d none) held reached
  where
    held : Stands path d (best_disk (trim_slash path) 0 d none)
    held = best_disk-Stands path d 0 d none (λ k. ap (get_elem? d) (omega arith)) tt

    reached :
        All
          (λ (disk : Disk). All (IsReached path (best_disk (trim_slash path) 0 d none)) disk.mounts)
          d
    reached = best_disk-IsReached path 0 d none

    outcome :
        (best : Option (ℕ × ℕ))
        → Stands path d best
        → All (λ (disk : Disk). All (IsReached path best) disk.mounts) d
        → ((i depth : ℕ) × (place best ≡ some i)
            × IsHeld path d i depth
            × All
                (λ (disk : Disk).
                  All (λ mount. Covers path mount → depth_of mount ≤ depth) disk.mounts)
                d)
          ⊎ ((place best ≡ none)
              × All (λ (disk : Disk). All (λ mount. ¬ Covers path mount) disk.mounts) d)
    outcome none h r = inr (refl, r)
    outcome (some (i, depth)) h r = inl (i, depth, refl, h, r)
