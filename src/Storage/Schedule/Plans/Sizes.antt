-- ===== src/Storage/Schedule/Plans/Sizes.antt =====
-- What a plan for monopoly requests takes of its volume: all of it.
use resource_extend.Base.{
  ℕ, String, ◌≡◌, refl, sym, ◌∙◌, ap, [], ◌∷◌, inl, inr, Option, none, some, All, arith, Bool-cases,
  Option-cases,
}
use resource_extend.Base.Int.{ℤ, pos, ltb_ℤ, eqb_ℤ, ◌≤ℤ◌, eq_of_parts}
use resource_extend.Base.Word.{
  add64, sub64, InRange, add64-InRange, sub64-InRange, add64-zero, add64-zero_left, add64_assoc,
  add64_comm, add64-sub64,
}
use resource_extend.Errors.{Result, ok, err, insufficient_resource}
use resource_extend.Action.{pure, lift, reads, ◌>>=◌}
use resource_extend.Storage.Volumes.{Volumes, get_device, get_size}
use resource_extend.Storage.Disk
use resource_extend.Storage.Binding.{
  VolumeBinding, VolumeBindings, VolumePlan, require_iops, disk_quota,
}
use resource_extend.Storage.Schedule.Host.{Volume, Host, disk_at}
use resource_extend.Storage.Schedule.Host.Cache.{get_disk_by_path-IsFound}
use resource_extend.Storage.Schedule.Plans.{
  Share, share_out, add_to_first, share_volume, sum_quota, no_binding, is_qualified, take_quota,
  get_mono_plan,
}

-- The size that a plan takes in all, as `int64` adds it.
abbrev pub plan_size : VolumePlan → ℤ
plan_size [] = pos 0
plan_size ((req, vm) ∷ plan) = add64 (get_size vm) (plan_size plan)

-- The requests of a plan, in order.
abbrev pub requests_of : VolumePlan → VolumeBindings
requests_of [] = []
requests_of ((req, vm) ∷ plan) = req ∷ requests_of plan

plan_size-InRange : (plan : VolumePlan) → InRange (plan_size plan)
plan_size-InRange [] = omega arith
plan_size-InRange ((req, vm) ∷ plan) = add64-InRange _ _

module _ (share : Share) (total volume_size : ℤ) (device : String) where
  share_out-size :
      (left : ℤ) (reqs : VolumeBindings)
      → InRange left
      → let (plan, rest) = share_out share total volume_size device left reqs in
        (add64 (plan_size plan) rest ≡ left)
        × (requests_of plan ≡ reqs)
        × All (λ (e : VolumeBinding × Volumes). get_device (e.1) ≡ device) plan
  unfolding share_out get_device get_size
  share_out-size left [] h = (add64-zero_left left h, refl, tt)
  share_out-size left (req ∷ reqs) h =
      let size = share req.size_in_bytes total volume_size in
      let (plan, rest) = share_out share total volume_size device (sub64 left size) reqs in
      let ih = share_out-size (sub64 left size) reqs (sub64-InRange left size) in
      (
        rw (add64_assoc size (plan_size plan) rest, ih.0, add64_comm size (sub64 left size))
            (add64-sub64 left size h),
        ap (λ (rs : VolumeBindings). req ∷ rs) (ih.1),
        (refl, ih.2),
      )

-- A plan for the requests that takes a size of a device.
abbrev pub Takes : VolumeBindings → String → ℤ → VolumePlan → Type 0
Takes reqs device size plan =
    (plan_size plan ≡ size)
    × (requests_of plan ≡ reqs)
    × All (λ (e : VolumeBinding × Volumes). get_device (e.1) ≡ device) plan

add_to_first-Takes :
    (left size : ℤ) (device : String) (req : VolumeBinding) (reqs : VolumeBindings)
    (plan : VolumePlan)
    → add64 (plan_size plan) left ≡ size
    → requests_of plan ≡ req ∷ reqs
    → All (λ (e : VolumeBinding × Volumes). get_device (e.1) ≡ device) plan
    → (p : VolumePlan) × (add_to_first left plan ≡ ok p) × Takes (req ∷ reqs) device size p
unfolding add_to_first get_device get_size
add_to_first-Takes left size device req reqs [] e r a = absurd (cc r)
add_to_first-Takes left size device req reqs ((req1, vm) ∷ plan) e r a =
    let n = get_size vm in
    let moved : add64 (add64 n left) (plan_size plan) ≡ size =
      rw
        (
          add64_assoc n left (plan_size plan),
          add64_comm left (plan_size plan),
          ← add64_assoc n (plan_size plan) left,
        )
        e in
    ((req1, (get_device vm, add64 n left) ∷ []) ∷ plan, refl, (moved, r, a))

share_volume-Takes :
    (share : Share) (req : VolumeBinding) (reqs : VolumeBindings) (total : ℤ) (v : Volume)
    → InRange v.size
    → (plan : VolumePlan) × (share_volume share (req ∷ reqs) total v ≡ ok plan)
      × Takes (req ∷ reqs) v.device v.size plan
unfolding share_volume
share_volume-Takes share req reqs total v h =
    let (plan, left) = share_out share total v.size v.device v.size (req ∷ reqs) in
    let e = share_out-size share total v.size v.device v.size (req ∷ reqs) h in
    elim (Bool-cases (eqb_ℤ left (pos 0))) [
      | inl z ↦
          let none_left : left ≡ pos 0 = eq_of_parts left (pos 0) (ground arith) in
          (
            plan,
            rw z refl,
            (
              sym (add64-zero (plan_size plan) (plan_size-InRange plan))
                  ∙ ap (add64 (plan_size plan)) (sym none_left)
                  ∙ e.0,
              e.1,
              e.2,
            ),
          )
      | inr z ↦
          let moved = add_to_first-Takes left v.size v.device req reqs plan (e.0) (e.1) (e.2) in
          (moved.0, rw z (moved.1), moved.2)
    ]

take_quota_ok :
    (total : VolumeBinding) (place : Option ℕ) (h : Host)
    → (quota : Option Disk.Disk) × (h1 : Host) × (take_quota total place h ≡ (ok quota, h1))
unfolding take_quota
take_quota_ok total place h = elim (Option-cases (disk_at place h)) [
  | inl e ↦ (none, h, rw (e, take_quota) refl)
  | inr (disk, e) ↦ elim (Bool-cases (require_iops total)) [
    | inl e1 ↦ (
      some (disk_quota total disk),
      record h { disks = Disk.sub h.disks (disk_quota total disk ∷ []) },
      rw (e, e1, take_quota) refl,
    )
    | inr e1 ↦ (none, h, rw (e, e1, take_quota) refl)
  ]
]

-- Nothing is planned for want of room or of quota, or a plan takes the whole volume, which has room.
abbrev pub IsWhole : VolumeBindings → Volume → Result (VolumePlan × Option Disk.Disk) → Type 0
IsWhole reqs v (err e) = e ≡ insufficient_resource
IsWhole reqs v (ok (plan, quota)) =
    ((sum_quota no_binding reqs).size_in_bytes ≤ℤ v.size) × Takes reqs v.device v.size plan

-- For one monopoly request or more and a volume whose size fits `int64`, whatever the shares are:
-- getMonoPlan either fails with ErrInsufficientResource, or the volume is at least as large as the
-- requests in all, the plan has the requests in their order, each on the volume's device, and the
-- sizes that it takes add up to the whole volume.
pub get_mono_plan-IsWhole :
    (share : Share) (req : VolumeBinding) (reqs : VolumeBindings) (v : Volume) (h : Host)
    → InRange v.size
    → IsWhole (req ∷ reqs) v ((get_mono_plan share (req ∷ reqs) v h).0)
unfolding get_mono_plan lift reads pure ◌>>=◌
get_mono_plan-IsWhole share req reqs v h r =
    let total = sum_quota no_binding (req ∷ reqs) in
    let found = get_disk_by_path-IsFound v.device h in
    let h1 = record h { disk_by_path = found.kept } in
    let planned = share_volume-Takes share req reqs total.size_in_bytes v r in
    let taken = take_quota_ok total found.place h1 in
    elim (Bool-cases (ltb_ℤ v.size total.size_in_bytes)) [
      | inl e ↦ rw e refl
      | inr e ↦ elim (Bool-cases (is_qualified found.place total h1)) [
        | inl q ↦ rw (e, found.answer, q, planned.1, taken.2, ◌>>=◌) (ground arith, planned.2)
        | inr q ↦ rw (e, found.answer, q) refl
      ]
    ]
