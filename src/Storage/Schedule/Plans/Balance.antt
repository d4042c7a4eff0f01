-- ===== src/Storage/Schedule/Plans/Balance.antt =====
-- What a plan for normal requests takes is what the used volumes lose, and none goes below 0.
use resource_extend.Base.{
  String, ◌≡◌, refl, sym, ◌∙◌, ap, subst, List, [], ◌∷◌, ◌++◌, inl, inr, some, All, Option-cases,
}
use resource_extend.Base.Int.{ℤ, pos}
use resource_extend.Base.Word.{add64, InRange, add64-zero_left, add64_assoc, add64_comm}
use resource_extend.Errors.{Result, ok, err, insufficient_resource, Result-cases}
use resource_extend.Action.{pure, lift, reads, ◌>>=◌, ◌>>◌}
use resource_extend.Storage.Disk
use resource_extend.Storage.Disk.{Disks}
use resource_extend.Storage.Volumes.{get_size}
use resource_extend.Storage.Binding.{VolumeBinding, VolumeBindings, VolumePlan}
use resource_extend.Storage.Schedule.Host.{Volume, Host, sort_volumes}
use resource_extend.Storage.Schedule.Plans.{
  Search, find_volume, push_all, normal_requests_loop, get_normal_plan,
}
use resource_extend.Storage.Schedule.Plans.Sizes.{plan_size}
use resource_extend.Storage.Schedule.Plans.Heap.{
  volumes_size, IsSize, HasSize, volumes_size-InRange, sort_volumes-size, sort_volumes-All,
  push_all-size, push_all-All,
}
use resource_extend.Storage.Schedule.Plans.Found.{IsBalanced, Returns, find_volume-IsBalanced}

-- The requests ask for sizes that are representable and not negative.
abbrev pub AskSizes : VolumeBindings → Type 0
AskSizes = All (λ (req : VolumeBinding). IsSize req.size_in_bytes)

-- Where there is a plan, it takes what the used volumes lost, of a total that they had; where there is
-- none, it is for want of resources. No volume goes below 0.
abbrev pub IsPaid : ℤ → Result (VolumePlan × Disks) × Host → Type 0
IsPaid total (err e, h) = (e ≡ insufficient_resource) × All HasSize h.used_volumes
IsPaid total (ok (plan, disks), h) =
    (add64 (plan_size plan) (volumes_size h.used_volumes) ≡ total) × All HasSize h.used_volumes

plan_size_snoc :
    (plan : VolumePlan) (req : VolumeBinding) (device : String) (size : ℤ)
    → InRange size
    → plan_size (plan ++ (req, (device, size) ∷ []) ∷ []) ≡ add64 (plan_size plan) size
unfolding get_size
plan_size_snoc [] req device size h = add64_comm size (pos 0)
plan_size_snoc ((r, vm) ∷ plan) req device size h =
    ap (add64 (get_size vm)) (plan_size_snoc plan req device size h)
    ∙ sym (add64_assoc (get_size vm) (plan_size plan) size)

-- A request that is granted moves its size from the volumes to the plan.
granted-total :
    (req : VolumeBinding) (vh : List Volume) (found : Search) (device : String) (quota : Disks)
    (plan : VolumePlan)
    → IsSize req.size_in_bytes
    → IsBalanced req vh found
    → found.allocated ≡ some (device, quota)
    → add64
        (plan_size (plan ++ (req, (device, req.size_in_bytes) ∷ []) ∷ []))
        (volumes_size (push_all found.to_push found.left))
      ≡ add64 (plan_size plan) (volumes_size vh)
granted-total req vh found device quota plan k b e =
    let n = req.size_in_bytes in
    let pushed = volumes_size found.to_push in
    let left = volumes_size found.left in
    let whole : add64 pushed (add64 left n) ≡ volumes_size vh = rw e at b.balance in
    rw
      (
        plan_size_snoc plan req device n (k.1),
        push_all-size found.to_push found.left,
        add64_assoc (plan_size plan) n (add64 pushed left),
        add64_comm n (add64 pushed left),
        add64_assoc pushed left n,
      )
      (ap (add64 (plan_size plan)) whole)

normal_requests_loop-IsPaid :
    (plan : VolumePlan) (disks : Disks) (reqs : VolumeBindings) (h : Host)
    → AskSizes reqs
    → All HasSize h.used_volumes
    → IsPaid
        (add64 (plan_size plan) (volumes_size h.used_volumes))
        (normal_requests_loop plan disks reqs h)
unfolding normal_requests_loop pure lift reads ◌>>=◌ ◌>>◌
normal_requests_loop-IsPaid plan disks [] h ks hs = (refl, hs)
normal_requests_loop-IsPaid plan disks (req ∷ reqs) h ks hs =
    let vh = h.used_volumes in
    let search = find_volume-IsBalanced req vh h (ks.0) hs in
    elim (Result-cases ((find_volume req vh h).0)) [
      | inr (x, e) ↦
          let none_found : Returns (IsBalanced req vh) (err x) = rw e at search in absurd none_found
      | inl (found, e) ↦
          let b : IsBalanced req vh found = rw e at search in
          let h1 = record (find_volume req vh h).1 {
            used_volumes = push_all found.to_push found.left;
          } in
          let whole_e : find_volume req vh h ≡ (ok found, (find_volume req vh h).1) =
            ap (λ (r : Result Search). (r, (find_volume req vh h).1)) e in
          let sizes = push_all-All found.to_push found.left b.pushed b.stayed in
          elim (Option-cases found.allocated) [
            | inl a ↦ rw (whole_e, a, normal_requests_loop, ◌>>=◌, ◌>>◌) (refl, sizes)
            | inr ((device, quota), a) ↦
                let plan1 = plan ++ (req, (device, req.size_in_bytes) ∷ []) ∷ [] in
                rw (whole_e, a, normal_requests_loop, ◌>>=◌, ◌>>◌)
                  (subst
                    (λ (t : ℤ).
                      IsPaid t (normal_requests_loop plan1 (Disk.add disks quota) reqs h1))
                    (granted-total req vh found device quota plan (ks.0) b a)
                    (normal_requests_loop-IsPaid plan1 (Disk.add disks quota) reqs h1 (ks.1) sizes))
          ]
    ]

-- Where the requests ask for sizes, and the used volumes have sizes, that fit `int64` and are not
-- negative: if getNormalPlan makes a plan, the sizes that it takes and what is left of the used
-- volumes add up to what those had before; if not, the error is ErrInsufficientResource. No used
-- volume goes below 0, plan or not.
pub get_normal_plan-IsPaid :
    (reqs : VolumeBindings) (h : Host)
    → AskSizes reqs
    → All HasSize h.used_volumes
    → IsPaid (volumes_size h.used_volumes) (get_normal_plan reqs h)
unfolding get_normal_plan reads ◌>>=◌ ◌>>◌
get_normal_plan-IsPaid reqs h ks hs =
    let h1 = record h { used_volumes = sort_volumes h.used_volumes } in
    let whole : add64 (pos 0) (volumes_size (sort_volumes h.used_volumes))
        ≡ volumes_size h.used_volumes =
      add64-zero_left _ (volumes_size-InRange (sort_volumes h.used_volumes))
      ∙ sort_volumes-size h.used_volumes in
    rw (← whole) (normal_requests_loop-IsPaid [] [] reqs h1 ks (sort_volumes-All h.used_volumes hs))
