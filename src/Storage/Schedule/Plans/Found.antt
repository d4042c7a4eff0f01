-- ===== src/Storage/Schedule/Plans/Found.antt =====
-- What a search for a volume takes off the volumes of a host (storage/schedule/schedule.go).
use resource_extend.Base.{
  ℕ, false, not, ◌||◌, ◌≡◌, refl, ◌∙◌, ap, List, [], ◌∷◌, inl, inr, Option, none, some, All, arith,
  Bool-cases, Option-cases,
}
use resource_extend.Base.Int.{ℤ, pos, ltb_ℤ, ◌≤ℤ◌, int_laws, one_sign, ◌-ℤ◌}
use resource_extend.Base.Word.{
  add64, sub64, add64-InRange, sub64-InRange, add64-zero, add64-zero_left, add64_assoc, add64_comm,
  sub64-eq, add64-sub64,
}
use resource_extend.Errors.{Result, ok, err, Result-cases}
use resource_extend.Action.{Action, pure, reads, ◌>>=◌}
use resource_extend.Storage.Disk.{Disks}
use resource_extend.Storage.Binding.{VolumeBinding, require_iops, disk_quota}
use resource_extend.Storage.Schedule.{decrease_iops_quota}
use resource_extend.Storage.Schedule.Host.{Volume, Host, disk_at, set_disk}
use resource_extend.Storage.Schedule.Host.Cache.{get_disk_by_path-IsFound}
use resource_extend.Storage.Schedule.Plans.{grant, is_qualified, Search, find_volume}
use resource_extend.Storage.Schedule.Plans.Heap.{volumes_size, IsSize, HasSize, add64_left_comm}

-- What a search grants of its request.
abbrev pub granted : VolumeBinding → Search → ℤ
granted req found = elim found.allocated [ none ↦ pos 0 | some (device, quota) ↦ req.size_in_bytes ]

pub record IsBalanced (req : VolumeBinding) (vh : List Volume) (found : Search) : Type 0 where
  pub pushed : All HasSize found.to_push
  pub stayed : All HasSize found.left
  pub balance :
      add64 (volumes_size found.to_push) (add64 (volumes_size found.left) (granted req found))
      ≡ volumes_size vh

-- A call that returns, with a property of what it returns.
abbrev pub Returns : {A : Type 0} → (A → Type 0) → Result A → Type 0
Returns P (ok a) = P a
Returns P (err e) = ⊥

Returns-map :
    {A B : Type 0} (Q : A → Type 0) (P : B → Type 0) (m : Action Host A) (f : A → B) (h : Host)
    → Returns Q ((m h).0)
    → ((a : A) → Q a → P (f a))
    → Returns P (((m >>= λ a. pure (f a)) h).0)
unfolding ◌>>=◌ pure
Returns-map Q P m f h r k = elim (Result-cases ((m h).0)) [
  | inl (a, e) ↦ let q : Returns Q (ok a) = rw e at r in rw (e, ◌>>=◌) (k a q)
  | inr (x, e) ↦ let q : Returns Q (err x) = rw e at r in absurd q
]

grant_ok :
    (req : VolumeBinding) (place : Option ℕ) (h : Host)
    → (quota : Disks) × (h1 : Host) × (grant req place h ≡ (ok quota, h1))
unfolding grant
grant_ok req place h = elim (Option-cases (disk_at place h)) [
  | inl e ↦ ([], h, rw (e, grant) refl)
  | inr (disk, e) ↦ elim (Bool-cases (require_iops req)) [
    | inl e1 ↦ (
      disk_quota req disk ∷ [],
      set_disk place (decrease_iops_quota disk req) h,
      rw (e, e1, grant) refl,
    )
    | inr e1 ↦ ([], h, rw (e, e1, grant) refl)
  ]
]

-- A volume that is large enough for a size gives it away.
sub64-IsSize : (a b : ℤ) → IsSize a → IsSize b → ltb_ℤ a b ≡ false → IsSize (sub64 a b)
sub64-IsSize a b h k e =
    let b≤a : b ≤ℤ a = ground arith in
    let sign = one_sign (a -ℤ b) in
    rw (sub64-eq a b (omega int_laws)) (omega int_laws, omega int_laws)

skip-IsBalanced :
    (req : VolumeBinding) (v : Volume) (vh : List Volume) (found : Search)
    → HasSize v
    → IsBalanced req vh found
    → IsBalanced req (v ∷ vh) (record found { to_push = v ∷ found.to_push })
skip-IsBalanced req v vh found h b = record {
  pushed = (h, b.pushed);
  stayed = b.stayed;
  balance = add64_assoc v.size _ _ ∙ ap (add64 v.size) b.balance;
}

take-IsBalanced :
    (req : VolumeBinding) (v : Volume) (vh : List Volume) (quota : Disks)
    → All HasSize (v ∷ vh)
    → IsSize req.size_in_bytes
    → ltb_ℤ v.size req.size_in_bytes ≡ false
    → IsBalanced req (v ∷ vh) (record {
      allocated = some (v.device, quota);
      to_push = record v { size = sub64 v.size req.size_in_bytes } ∷ [];
      left = vh;
    })
take-IsBalanced req v vh quota h k e =
    let n = req.size_in_bytes in
    let rest = volumes_size vh in
    record {
      pushed = (sub64-IsSize v.size n (h.0) k e, tt);
      stayed = h.1;
      balance =
          rw
            (
              add64-zero (sub64 v.size n) (sub64-InRange v.size n),
              add64_left_comm (sub64 v.size n) rest n,
              add64-sub64 v.size n (h.0.1),
              add64_comm rest v.size,
            )
            refl;
    }

pub find_volume-IsBalanced :
    (req : VolumeBinding) (vh : List Volume) (h : Host)
    → IsSize req.size_in_bytes
    → All HasSize vh
    → Returns (IsBalanced req vh) ((find_volume req vh h).0)
unfolding find_volume pure reads ◌>>=◌
find_volume-IsBalanced req [] h k hs =
    let nothing : add64 (pos 0) (add64 (pos 0) (pos 0)) ≡ pos 0 =
      add64-zero_left _ (add64-InRange (pos 0) (pos 0)) ∙ add64-zero_left (pos 0) (omega arith) in
    record { pushed = tt; stayed = tt; balance = nothing }
find_volume-IsBalanced req (v ∷ vh) h k hs =
    let found = get_disk_by_path-IsFound v.device h in
    let h1 = record h { disk_by_path = found.kept } in
    let given = grant_ok req found.place h1 in
    elim (Bool-cases (ltb_ℤ v.size req.size_in_bytes || not (is_qualified found.place req h1))) [
      | inl e ↦
          rw (found.answer, e, find_volume, ◌>>=◌)
            (Returns-map (IsBalanced req vh) (IsBalanced req (v ∷ vh)) (find_volume req vh)
              (λ f. record f { to_push = v ∷ f.to_push }) h1
              (find_volume-IsBalanced req vh h1 k (hs.1))
              (λ f b. skip-IsBalanced req v vh f (hs.0) b))
      | inr e ↦
          rw (found.answer, e, given.2, find_volume, ◌>>=◌)
            (take-IsBalanced req v vh (given.0) hs k (ground arith))
    ]
