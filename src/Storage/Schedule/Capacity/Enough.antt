-- ===== src/Storage/Schedule/Capacity/Enough.antt =====
-- The rounds that `promote` is given are enough: its loop ends where the code's loop ends, after the
-- volumes that the code promotes.
use mathlib.Core.List.{Memᴰ}
use resource_extend.Base.{
  ℕ, zero, suc, ◌≤◌, ◌<◌, ◌≡◌, refl, ◌⊎◌, inl, inr, [], ◌∷◌, All, none, some, length, get_elem?,
  arith, Bool-cases, Option-cases,
}
use resource_extend.Base.Int.{ℤ, ◌≤ℤ◌, ◌<ℤ◌}
use resource_extend.Storage.Binding.{VolumeBinding, VolumeBindings}
use resource_extend.Storage.Schedule.{max_int}
use resource_extend.Storage.Schedule.Classes
use resource_extend.Storage.Schedule.Host.{Volume, Host}
use resource_extend.Storage.Schedule.Capacity.Promote.{
  promote_one, wants_more, promote_loop, promote, min_normal_request_size,
}
use resource_extend.Storage.Schedule.Capacity.Alike.{Keeps, promote_one-Keeps}
use resource_extend.Storage.Schedule.Capacity.Smallest.{
  IsSortedBySize, IsPromoted, Promotes, promote_one-Promotes,
}

-- The size of the least request, or the largest `int` where there is none.
abbrev pub IsLeastSize : VolumeBindings → ℤ → Type 0
IsLeastSize [] size = size ≡ max_int
IsLeastSize (req ∷ reqs) size =
    All (λ (r : VolumeBinding). size ≤ℤ r.size_in_bytes) (req ∷ reqs)
    × ((r : VolumeBinding) × Memᴰ r (req ∷ reqs) × (r.size_in_bytes ≡ size))

module _ {ℓ} {R : Type ℓ} (counts : R → ℕ × ℕ) (evaluate : Host → R) where
  -- There are fewer normal plans than monopoly ones, and than the host makes at most.
  abbrev pub HasFew : Host → Type 0
  HasFew h =
      ((counts (evaluate h)).0 < (counts (evaluate h)).1)
      × ((counts (evaluate h)).0 < h.max_deploy_count)

  -- One promotion after the other, each on a host that has few normal plans.
  pub data Promotions (size : ℤ) (last : Host) : Host → Type 0 where
    stop : Promotions size last last
    more :
        {h h1 : Host}
        → HasFew h
        → IsPromoted size h h1
        → Promotions size last h1
        → Promotions size last h

  abbrev AllSmaller : ℤ → Host → Type 0
  AllSmaller size h = (a : ℕ) (w : Volume) → get_elem? h.unused_volumes a ≡ some w → w.size <ℤ size

  -- The result is that of the last host, which promotions lead to, and no further promotion is due:
  -- there are no fewer normal plans than monopoly ones, or as many as the host makes at most, or no
  -- unused volume has the size.
  pub record IsDone (size : ℤ) (h : Host) (done : R × Host) : Type ℓ where
    pub found_eq : done.0 ≡ evaluate done.1
    pub path : Promotions size done.1 h
    pub ends :
        ((counts (evaluate done.1)).1 ≤ (counts (evaluate done.1)).0)
        ⊎ (done.1.max_deploy_count ≤ (counts (evaluate done.1)).0)
        ⊎ AllSmaller size done.1

  none_large :
      (size : ℤ) (h : Host)
      → IsSortedBySize h.unused_volumes
      → promote_one size h ≡ none
      → AllSmaller size h
  none_large size h s e = rw e at (promote_one-Promotes size h s)

  promote_loop-IsDone :
      (rounds : ℕ) (size : ℤ) (h : Host)
      → length h.unused_volumes ≤ rounds
      → IsSortedBySize h.unused_volumes
      → IsDone size h (promote_loop counts evaluate rounds size (evaluate h) h)
  unfolding promote_loop
  promote_loop-IsDone zero size h enough s = elim (Option-cases (promote_one size h)) [
    | inl e ↦ record { found_eq = refl; path = stop; ends = inr (inr (none_large size h s e)) }
    | inr (h1, e) ↦
        let kept : Keeps h (some h1) = rw e at (promote_one-Keeps size h) in
        absurd (omega (arith, kept.1))
  ]
  promote_loop-IsDone (suc rounds) size h enough s =
      elim (Bool-cases (wants_more (counts (evaluate h)) h)) [
        | inl w ↦ elim (Option-cases (promote_one size h)) [
          | inl e ↦
              rw (w, e, promote_loop)
                (record { found_eq = refl; path = stop; ends = inr (inr (none_large size h s e)) })
          | inr (h1, e) ↦
              let kept : Keeps h (some h1) = rw e at (promote_one-Keeps size h) in
              let moved : Promotes size h (some h1) = rw e at (promote_one-Promotes size h s) in
              let rest = promote_loop-IsDone rounds size h1 (omega (arith, kept.1)) moved.sorted in
              rw (w, e, promote_loop)
                (record {
                  found_eq = rest.found_eq;
                  path = more (ground arith) moved rest.path;
                  ends = rest.ends;
                })
        ]
        | inr w ↦
            rw (w, promote_loop) (record { found_eq = refl; path = stop; ends = ground arith })
      ]

  min_normal_request_size-IsLeastSize :
      (normal : VolumeBindings)
      → Classes.IsSortedBySize normal
      → IsLeastSize normal (min_normal_request_size normal)
  unfolding min_normal_request_size
  min_normal_request_size-IsLeastSize [] s = refl
  min_normal_request_size-IsLeastSize (req ∷ reqs) s =
      ((omega arith, s.0), (req, Memᴰ.head refl, refl))

  -- Where the normal requests and the unused volumes are sorted by size, and whatever the evaluation of
  -- a host finds: `promote` returns what it finds on the host that it leaves. That host comes from the
  -- given one by promotions for the size of the least normal request (the largest `int` where there is
  -- none), each the move of IsPromoted on a host with fewer normal plans than monopoly plans and than
  -- its limit; and on it normal plans are no fewer than monopoly plans or than the limit, or every
  -- unused volume is smaller than that size.
  pub promote-IsDone :
      (normal : VolumeBindings) (h : Host)
      → Classes.IsSortedBySize normal
      → IsSortedBySize h.unused_volumes
      → (size : ℤ) × IsLeastSize normal size × IsDone size h (promote counts evaluate normal h)
  unfolding promote
  promote-IsDone normal h least s =
      let size = min_normal_request_size normal in
      (
        size,
        min_normal_request_size-IsLeastSize normal least,
        promote_loop-IsDone (length h.unused_volumes) size h (omega arith) s,
      )
