-- ===== src/Storage/Node/Keeps.antt =====
-- What Validate (storage/types/node.go) leaves as it is in the usage of a record.
use resource_extend.Base.{
  List, [], ◌∷◌, some, ◌≡◌, refl, sym, subst, All, Bool-cases, inl, inr, arith, String,
}
use resource_extend.Base.Dict.{◌=s◌}
use resource_extend.Errors.{ok, err, Result-cases}
use resource_extend.Storage.Disk.{Disk, Disks, get_disk_by_device}
use resource_extend.Storage.Node.{
  NodeResource, NodeResourceInfo, before, insert_sorted, sort_disks, set_mounts, is_disk_valid,
  check_capacity, drop_unknown, validate_disks, validate_volume, validate_storage, join,
  validate_sorted, validate, usage_or_zero,
}
use resource_extend.Storage.Node.Valid.{join_ok, drop_unknown-cases}

-- A property of disks that their mounts have no part in.
module _ (P : Disk → Type 0)
    (mounted : (x : Disk) (ms : List String) → P x → P (record x { mounts = ms })) where
  insert-All : (x : Disk) (d : Disks) → P x → All P d → All P (insert_sorted x d)
  unfolding insert_sorted
  insert-All x [] p h = (p, tt)
  insert-All x (disk ∷ d) p h = elim (Bool-cases (before disk x)) [
    | inl e ↦ rw e (h.0, insert-All x d p h.1)
    | inr e ↦ rw e (p, h)
  ]

  sort-All : (d : Disks) → All P d → All P (sort_disks d)
  unfolding sort_disks
  sort-All [] h = tt
  sort-All (disk ∷ d) h = insert-All disk (sort_disks d) h.0 (sort-All d h.1)

  pub set_mounts-All : (x : Disk) (d : Disks) → All P d → All P (set_mounts x d)
  unfolding set_mounts
  set_mounts-All x [] h = tt
  set_mounts-All x (disk ∷ d) h = elim (Bool-cases (disk.device =s x.device)) [
    | inl e ↦ rw e (mounted disk x.mounts h.0, h.1)
    | inr e ↦ rw e (h.0, set_mounts-All x d h.1)
  ]

  check_capacity-All :
      (capacity d checked : Disks)
      → check_capacity capacity d ≡ ok checked
      → All P d
      → All P checked
  unfolding check_capacity
  check_capacity-All [] d checked e h = subst (All P) (let same : d ≡ checked = cc in same) h
  check_capacity-All (disk ∷ capacity) d checked e h =
      elim (Bool-cases (is_disk_valid disk (get_disk_by_device disk.device d))) [
        | inl t ↦
            check_capacity-All capacity (set_mounts disk d) checked (rw t at e)
              (set_mounts-All disk d h)
        | inr t ↦ absurd (let bad : err _ ≡ ok checked = (rw t at e) in cc)
      ]

  drop_unknown-All :
      (capacity d kept : Disks) → drop_unknown capacity d ≡ ok kept → All P d → All P kept
  drop_unknown-All capacity [] kept e h =
      subst (All P) (let empty : [] ≡ kept = unfold drop_unknown in ground arith in empty) tt
  drop_unknown-All capacity (used ∷ d) kept e h =
      let (rest, e1, how) = drop_unknown-cases capacity used d kept e in
      let all = drop_unknown-All capacity d rest e1 h.1 in
      elim how [
        | inl (here, eq) ↦ subst (All P) (sym eq) (h.0, all)
        | inr (zero, gone, eq) ↦ subst (All P) (sym eq) all
      ]

  validate_disks-All :
      (capacity d kept : Disks) → validate_disks capacity d ≡ ok kept → All P d → All P kept
  unfolding validate_disks
  validate_disks-All capacity d kept e h = elim (Result-cases (check_capacity capacity d)) [
    | inl (checked, c) ↦
        drop_unknown-All capacity checked kept (rw c at e)
          (check_capacity-All capacity d checked c h)
    | inr (f, c) ↦ absurd (let bad : err f ≡ ok kept = (rw c at e) in cc)
  ]

  -- The usage of a record that validates keeps its volumes and storage, and what its disks have.
  pub validate-All :
      (capacity usage : NodeResource) (m : NodeResourceInfo)
      → validate (record { capacity = some capacity; usage = some usage }) ≡ ok m
      → (used : NodeResource) × (m.usage ≡ some used)
        × (used.volumes ≡ usage.volumes)
        × (used.storage ≡ usage.storage)
        × (All P usage.disks → All P used.disks)
  unfolding validate validate_sorted usage_or_zero
  validate-All capacity usage m e =
      let d = sort_disks usage.disks in
      let c = sort_disks capacity.disks in
      elim (Result-cases (
        join (validate_volume usage.volumes capacity.volumes)
          (join (validate_storage capacity.storage usage.storage) (validate_disks c d)))) [
            | inl (kept, t) ↦
                let (volumes, t1) = join_ok _ _ kept t in
                let (storage, t2) = join_ok _ _ kept t1 in
                (
                  record usage { disks = kept },
                  ground arith,
                  refl,
                  refl,
                  λ h. validate_disks-All c d kept t2 (sort-All usage.disks h),
                )
            | inr (f, t) ↦ ground arith
          ]
