-- ===== src/Storage/Schedule/Capacity/Promote.antt =====
-- `promote` of storage/schedule/schedule.go: unused volumes become used ones while monopoly requests
-- have more plans than normal ones. Each round takes a volume off the unused ones, so as many rounds
-- as there are volumes are enough.
use resource_extend.Base.{
  ℕ, zero, suc, ◌+◌, ◌/◌, ltb, Bool, false, ◌&&◌, List, [], ◌∷◌, ◌++◌, Option, none, some,
  if◌then◌else◌, get_elem?, length,
}
use resource_extend.Base.Int.{ℤ, ltb_ℤ}
use resource_extend.Storage.Binding.{VolumeBindings}
use resource_extend.Storage.Schedule.{max_int}
use resource_extend.Storage.Schedule.Host.{Volume, Host}

-- `math.MaxInt`, or the size of the first request
unfoldable pub min_normal_request_size : VolumeBindings → ℤ
min_normal_request_size [] = max_int
min_normal_request_size (req ∷ reqs) = req.size_in_bytes

-- `slices.BinarySearchFunc(v, size, compareVolumeSize)`: the loop of the library on the places from
-- `i` up to `j`, where the middle is below its length.
unfoldable pub search_loop : ℕ → List Volume → ℤ → ℕ → ℕ → ℕ
search_loop zero v size i j = i
search_loop (suc rounds) v size i j =
    let middle = (i + j) / 2 in
    let below : Bool = elim (get_elem? v middle) [ none ↦ false | some x ↦ ltb_ℤ x.size size ] in
    if ltb i j
    then search_loop rounds v size (if below then suc middle else i) (if below then j else middle)
    else i

unfoldable pub search_size : List Volume → ℤ → ℕ
unfolding search_loop
search_size v size = search_loop (length v) v size 0 (length v)

-- `slices.Delete(v, p, p+1)` with the volume that goes; none past the end.
unfoldable pub remove_at : ℕ → List Volume → Option (Volume × List Volume)
remove_at p [] = none
remove_at zero (v ∷ vs) = some (v, vs)
remove_at (suc p) (v ∷ vs) = elim (remove_at p vs) [
  | none ↦ none
  | some (x, rest) ↦ some (x, v ∷ rest)
]

unfoldable pub promote_one : ℤ → Host → Option Host
unfolding search_size remove_at
promote_one size h = elim (remove_at (search_size h.unused_volumes size) h.unused_volumes) [
  | none ↦ none
  | some (v, rest) ↦
      some (record h { unused_volumes = rest; used_volumes = h.used_volumes ++ v ∷ [] })
]

abbrev pub wants_more : ℕ × ℕ → Host → Bool
wants_more (normal, mono) h = ltb normal mono && ltb normal h.max_deploy_count

module _ {ℓ} {R : Type ℓ} (counts : R → ℕ × ℕ) (evaluate : Host → R) where
  unfoldable pub promote_loop : ℕ → ℤ → R → Host → R × Host
  promote_loop zero size found h = (found, h)
  promote_loop (suc rounds) size found h =
      let next : R × Host = elim (promote_one size h) [
        | none ↦ (found, h)
        | some h1 ↦ promote_loop rounds size (evaluate h1) h1
      ] in
      if wants_more (counts found) h then next else (found, h)

  unfoldable pub promote : VolumeBindings → Host → R × Host
  unfolding promote_loop min_normal_request_size
  promote normal h =
      promote_loop (length h.unused_volumes) (min_normal_request_size normal) (evaluate h) h
