-- ===== src/Storage/Schedule/Capacity/Counts.antt =====
-- The functions that count the plans of a class of requests find as many as the ones that make them,
-- and leave the same host.
use resource_extend.Base.{
  ℕ, zero, suc, min, ◌≡◌, refl, sym, ◌∙◌, ap, ◌⊎◌, inl, inr, List, [], ◌∷◌, length, replicate,
  arith, Bool-cases,
}
use resource_extend.Base.Int.{pos_part}
use resource_extend.Errors.{Result, ok, err, Result-cases}
use resource_extend.Action.{Action, pure, ◌>>=◌, continue}
use resource_extend.Storage.Binding.{VolumeBindings}
use resource_extend.Storage.Schedule.{any_require_iops}
use resource_extend.Storage.Schedule.Host.{Volume, Host}
use resource_extend.Storage.Schedule.Plans.{
  Share, get_normal_plan, get_mount_disk_plan, get_mono_plan,
}
use resource_extend.Storage.Schedule.Capacity.{
  Plans, empty_plans, mono_plans_loop, get_mono_plans, normal_plan_round, normal_plans_loop,
  get_mount_only_plans, get_normal_plans, normal_count_round, normal_count_loop, count_mount_only,
  count_normal_plans, mono_count_loop, count_mono_plans,
}
use resource_extend.Storage.Schedule.Capacity.Passes.{apply_mount_passes}

pub length-replicate {ℓ} : {A : Type ℓ} (n : ℕ) (a : A) → length (replicate n a) ≡ n
length-replicate zero a = refl
length-replicate (suc n) a = ap suc (length-replicate n a)

-- There are `n` plans of each kind.
abbrev pub HasCount : Plans → ℕ → Type 0
HasCount p n = (length p.volume_plans ≡ n) × (length p.disk_plans ≡ n)

-- An outcome without its value.
abbrev forget_value : {A : Type 0} → Result A → Result (Unit {0})
forget_value (ok a) = ok tt
forget_value (err e) = err e

abbrev forget : {A : Type 0} → Result A × Host → Result (Unit {0}) × Host
forget r = (forget_value (r.0), r.1)

forget-continue :
    {A B : Type 0} (f : A → Action Host B) (g : A → Action Host (Unit {0}))
    → ((a : A) (h : Host) → forget (f a h) ≡ g a h)
    → (r : Result A × Host) → forget (continue f r) ≡ continue g r
forget-continue f g e (ok a, h) = e a h
forget-continue f g e (err x, h) = refl

round_forget :
    (normal mount : VolumeBindings) (h : Host)
    → forget (normal_plan_round normal mount h) ≡ normal_count_round normal mount h
unfolding normal_plan_round normal_count_round ◌>>=◌ pure
round_forget normal mount h =
    forget-continue _ _ (λ a h1. forget-continue _ _ (λ b h2. refl) (get_mount_disk_plan mount h1))
      (get_normal_plan normal h)

normal_loop_count :
    (normal mount : VolumeBindings) (room : ℕ) (h : Host)
    → HasCount
        ((normal_plans_loop normal mount room h).0)
        ((normal_count_loop normal mount room h).0)
      × ((normal_plans_loop normal mount room h).1 ≡ (normal_count_loop normal mount room h).1)
unfolding normal_plans_loop normal_count_loop
normal_loop_count normal mount zero h = ((refl, refl), refl)
normal_loop_count normal mount (suc room) h =
    let r = normal_plan_round normal mount h in
    let result : (normal_count_round normal mount h).0 ≡ forget_value (r.0) =
      ap (λ (o : Result (Unit {0}) × Host). o.0) (sym (round_forget normal mount h)) in
    let state : (normal_count_round normal mount h).1 ≡ r.1 =
      ap (λ (o : Result (Unit {0}) × Host). o.1) (sym (round_forget normal mount h)) in
    let ih = normal_loop_count normal mount room (r.1) in
    elim (Result-cases (r.0)) [
      | inr (x, p) ↦
          let q : (normal_count_round normal mount h).0 ≡ err x = result ∙ ap forget_value p in
          rw (p, q, normal_plans_loop, normal_count_loop) ((refl, refl), sym state)
      | inl (x, p) ↦
          let q : (normal_count_round normal mount h).0 ≡ ok tt = result ∙ ap forget_value p in
          rw (p, q, normal_plans_loop, normal_count_loop, state)
            ((ap suc (ih.0.0), ap suc (ih.0.1)), ih.1)
    ]

abbrev Counted : Plans × Host → ℕ × Host → Type 0
Counted (p, h) (n, h1) = HasCount p n × (h ≡ h1)

pub normal_plans-Counted :
    (normal mount : VolumeBindings) (bound : ℕ) (h : Host)
    → Counted (get_normal_plans normal mount bound h) (count_normal_plans normal mount bound h)
unfolding get_normal_plans count_normal_plans get_mount_only_plans count_mount_only empty_plans
normal_plans-Counted [] mount bound h =
    let n = (apply_mount_passes mount bound h).0.0 in
    elim (Bool-cases (any_require_iops mount)) [
      | inl e ↦ rw e ((length-replicate (pos_part n) _, length-replicate (pos_part n) _), refl)
      | inr e ↦
          rw e
            ((length-replicate h.max_deploy_count _, length-replicate h.max_deploy_count _), refl)
    ]
normal_plans-Counted (req ∷ reqs) mount bound h = normal_loop_count (req ∷ reqs) mount bound h

-- How many volumes have a plan for the requests, with no bound on the plans.
count_all : Share → VolumeBindings → List Volume → Host → ℕ
count_all share reqs [] h = 0
count_all share reqs (v ∷ vs) h =
    let (r, h1) = get_mono_plan share reqs v h in
    elim r [ err e ↦ count_all share reqs vs h1 | ok plan ↦ suc (count_all share reqs vs h1) ]

mono_count_loop-min :
    (share : Share) (reqs : VolumeBindings) (room : ℕ) (vs : List Volume) (h : Host)
    → mono_count_loop share reqs room vs h ≡ min room (count_all share reqs vs h)
unfolding mono_count_loop count_all
mono_count_loop-min share reqs room [] h = omega arith
mono_count_loop-min share reqs zero (v ∷ vs) h = omega arith
mono_count_loop-min share reqs (suc room) (v ∷ vs) h =
    let r = get_mono_plan share reqs v h in
    elim (Result-cases (r.0)) [
      | inr (x, p) ↦
          rw (p, mono_count_loop, count_all) (mono_count_loop-min share reqs (suc room) vs (r.1))
      | inl (x, p) ↦
          rw (p, mono_count_loop, count_all)
            (omega (arith, mono_count_loop-min share reqs room vs (r.1)))
    ]

mono_loop_count :
    (share : Share) (reqs : VolumeBindings) (room : ℕ) (vs : List Volume) (h : Host)
    → HasCount ((mono_plans_loop share reqs room vs h).0.0) (mono_count_loop share reqs room vs h)
unfolding mono_plans_loop mono_count_loop
mono_loop_count share reqs room [] h = (refl, refl)
mono_loop_count share reqs zero (v ∷ vs) h = (refl, refl)
mono_loop_count share reqs (suc room) (v ∷ vs) h =
    let r = get_mono_plan share reqs v h in
    let ih = mono_loop_count share reqs room vs (r.1) in
    elim (Result-cases (r.0)) [
      | inr (x, p) ↦
          rw (p, mono_plans_loop, mono_count_loop) (mono_loop_count share reqs (suc room) vs (r.1))
      | inl (x, p) ↦ rw (p, mono_plans_loop, mono_count_loop) (ap suc (ih.0), ap suc (ih.1))
    ]

pub mono_plans_count :
    (share : Share) (reqs : VolumeBindings) (bound : ℕ) (h : Host)
    → HasCount ((get_mono_plans share reqs bound h).0) (count_mono_plans share reqs bound h)
unfolding get_mono_plans count_mono_plans empty_plans
mono_plans_count share [] bound h =
    (length-replicate h.max_deploy_count _, length-replicate h.max_deploy_count _)
mono_plans_count share (req ∷ reqs) bound h =
    mono_loop_count share (req ∷ reqs) bound h.unused_volumes h

-- What two bounds do to the number of plans: nothing, or each cuts the same number.
pub count_mono_plans_bounds :
    (share : Share) (reqs : VolumeBindings) (b b1 : ℕ) (h : Host)
    → (count_mono_plans share reqs b h ≡ count_mono_plans share reqs b1 h)
      ⊎ ((n : ℕ) × (count_mono_plans share reqs b h ≡ min b n)
          × (count_mono_plans share reqs b1 h ≡ min b1 n))
unfolding count_mono_plans
count_mono_plans_bounds share [] b b1 h = inl refl
count_mono_plans_bounds share (req ∷ reqs) b b1 h = inr (
  count_all share (req ∷ reqs) h.unused_volumes h,
  mono_count_loop-min share (req ∷ reqs) b h.unused_volumes h,
  mono_count_loop-min share (req ∷ reqs) b1 h.unused_volumes h,
)
