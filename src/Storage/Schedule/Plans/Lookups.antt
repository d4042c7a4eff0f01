-- ===== src/Storage/Schedule/Plans/Lookups.antt =====
-- The disks that a host keeps for paths stay those that GetDiskByPath finds, as plans only change the
-- rates of disks.
use resource_extend.Base.{
  ℕ, zero, suc, String, Bool, true, false, ◌≡◌, refl, sym, ◌∙◌, ap, inl, inr, List, [], ◌∷◌, Option,
  none, some, get_elem?, set, Bool-cases, Option-cases, if◌then◌else◌,
}
use resource_extend.Base.Dict.{lookup, insert, lookup-insert, ◌=s◌, =s_iff, lookup_nil}
use resource_extend.Errors.{ok, Result-cases}
use resource_extend.Action.{Action}
use resource_extend.Action.Keeps.{
  Keeps, Keeps-bind, Keeps-then, Keeps-pure, Keeps-lift, Keeps-reads,
}
use resource_extend.Storage.Disk
use resource_extend.Storage.Disk.{Rates, Disks}
use resource_extend.Storage.Disk.Paths
use resource_extend.Storage.Disk.Paths.{best_disk, place, trim_slash}
use resource_extend.Storage.Binding.{VolumeBinding, VolumeBindings, VolumePlan, require_iops}
use resource_extend.Storage.Schedule.{decrease_iops_quota}
use resource_extend.Storage.Schedule.Host.{Volume, Host, get_disk_by_path, disk_at, set_disk, clone}
use resource_extend.Storage.Schedule.Capacity.{normal_plan_round, normal_plans_loop}
use resource_extend.Storage.Schedule.Plans.{
  grant, mount_loop, get_mount_disk_plan, find_volume, Search, set_used, normal_requests_loop,
  get_normal_plan,
}

best_disk-set :
    (path : String) (j : ℕ) (d : Disks) (i : ℕ) (disk : Disk.Disk) (r : Rates)
    (best : Option (ℕ × ℕ))
    → get_elem? d i ≡ some disk
    → best_disk path j (set d i (record disk { rates = r })) best ≡ best_disk path j d best
unfolding best_disk
best_disk-set path j [] i disk r best e = refl
best_disk-set path j (x ∷ d) zero disk r best e =
    let same : x.mounts ≡ disk.mounts = cc e in rw same refl
best_disk-set path j (x ∷ d) (suc i) disk r best e = best_disk-set path (suc j) d i disk r _ e

get_disk_by_path-set :
    (path : String) (d : Disks) (i : ℕ) (disk : Disk.Disk) (r : Rates)
    → get_elem? d i ≡ some disk
    → Paths.get_disk_by_path path (set d i (record disk { rates = r }))
      ≡ Paths.get_disk_by_path path d
unfolding Paths.get_disk_by_path
get_disk_by_path-set path d i disk r e =
    ap place (best_disk-set (trim_slash path) 0 d i disk r none e)

-- What the host finds for a path, kept or not, is what GetDiskByPath finds in the disks at the start.
pub record Resolves (start : Disks) (h : Host) : Type 0 where
  pub fresh :
      (path : String) → Paths.get_disk_by_path path h.disks ≡ Paths.get_disk_by_path path start
  pub kept :
      (path : String) (found : Option ℕ)
      → lookup path h.disk_by_path ≡ some found
      → found ≡ Paths.get_disk_by_path path start

module _ {start : Disks} where
  insert_kept :
      (path p : String) (found : Option ℕ) (h : Host)
      → Resolves start h
      → lookup p (insert path (Paths.get_disk_by_path path h.disks) h.disk_by_path) ≡ some found
      → found ≡ Paths.get_disk_by_path p start
  insert_kept path p found h r g =
      let split =
        sym (lookup-insert path p (Paths.get_disk_by_path path h.disks) h.disk_by_path) ∙ g in
      elim (Bool-cases (path =s p)) [
        | inr e ↦ let old = rw e at split in r.kept p found old
        | inl e ↦
            let new = rw e at split in
            let same : path ≡ p = (=s_iff path p).0 e in
            let here : found ≡ Paths.get_disk_by_path path h.disks = cc new in
            here ∙ r.fresh path ∙ ap (λ (q : String). Paths.get_disk_by_path q start) same
      ]

  get_disk_by_path-Resolves :
      (path : String) (h : Host) → Resolves start h → Resolves start (get_disk_by_path path h).1
  unfolding get_disk_by_path
  get_disk_by_path-Resolves path h r = elim (Option-cases (lookup path h.disk_by_path)) [
    | inr (found, e) ↦ rw (e, get_disk_by_path) r
    | inl e ↦
        rw (e, get_disk_by_path)
          (record { fresh = r.fresh; kept = λ p found g. insert_kept path p found h r g })
  ]

  set_disk-Resolves :
      (place : Option ℕ) (disk : Disk.Disk) (rates : Rates) (h : Host)
      → disk_at place h ≡ some disk
      → Resolves start h
      → Resolves start (set_disk place (record disk { rates = rates }) h)
  unfolding set_disk disk_at
  set_disk-Resolves none disk rates h e r = r
  set_disk-Resolves (some i) disk rates h e r = record {
    fresh = λ path. get_disk_by_path-set path h.disks i disk rates e ∙ r.fresh path;
    kept = r.kept;
  }

module _ {start : Disks} where
  Keeps-if :
      {A : Type 0} (c : Bool) (m n : Action Host A)
      → Keeps (Resolves start) A m
      → Keeps (Resolves start) A n
      → Keeps (Resolves start) A (if c then m else n)
  Keeps-if true m n hm hn = hm
  Keeps-if false m n hm hn = hn

  Keeps-set_used : (vs : List Volume) → Keeps (Resolves start) (Unit {0}) (set_used vs)
  Keeps-set_used vs = record { apply = λ h r. record { fresh = r.fresh; kept = r.kept } }

  Keeps-get_disk_by_path :
      (path : String) → Keeps (Resolves start) (Option ℕ) (get_disk_by_path path)
  Keeps-get_disk_by_path path = record { apply = get_disk_by_path-Resolves path }

  Keeps-grant :
      (req : VolumeBinding) (place : Option ℕ) → Keeps (Resolves start) Disks (grant req place)
  unfolding grant decrease_iops_quota
  Keeps-grant req place = record {
    apply = λ h r. elim (Option-cases (disk_at place h)) [
      | inl e ↦ rw (e, grant) r
      | inr (disk, e) ↦ elim (Bool-cases (require_iops req)) [
        | inl e1 ↦ rw (e, e1, grant) (set_disk-Resolves place disk _ h e r)
        | inr e1 ↦ rw (e, e1, grant) r
      ]
    ];
  }

module _ {start : Disks} where
  mount_loop-Keeps :
      (disk_plan : Disks) (reqs : VolumeBindings)
      → Keeps (Resolves start) Disks (mount_loop disk_plan reqs)
  unfolding mount_loop
  mount_loop-Keeps disk_plan [] = Keeps-pure disk_plan
  mount_loop-Keeps disk_plan (req ∷ reqs) = Keeps-if _ _ _ (mount_loop-Keeps disk_plan reqs) (
      Keeps-bind _ _ (Keeps-get_disk_by_path req.source) λ place.
        Keeps-bind _ _ (Keeps-reads _) λ qualified. Keeps-if _ _ _ (Keeps-lift _) (
          Keeps-bind _ _ (Keeps-grant req place)
            λ quota. mount_loop-Keeps (Disk.add disk_plan quota) reqs))

  find_volume-Keeps :
      (req : VolumeBinding) (vs : List Volume) → Keeps (Resolves start) Search (find_volume req vs)
  unfolding find_volume
  find_volume-Keeps req [] = Keeps-pure _
  find_volume-Keeps req (v ∷ vs) = Keeps-bind _ _ (Keeps-get_disk_by_path v.device) λ place.
      Keeps-bind _ _ (Keeps-reads _) λ qualified.
        Keeps-if _ _ _ (Keeps-bind _ _ (find_volume-Keeps req vs) λ found. Keeps-pure _)
          (Keeps-bind _ _ (Keeps-grant req place) λ quota. Keeps-pure _)

  normal_requests_loop-Keeps :
      (plan : VolumePlan) (disks : Disks) (reqs : VolumeBindings)
      → Keeps (Resolves start) (VolumePlan × Disks) (normal_requests_loop plan disks reqs)
  unfolding normal_requests_loop
  normal_requests_loop-Keeps plan disks [] = Keeps-pure _
  normal_requests_loop-Keeps plan disks (req ∷ reqs) = Keeps-bind _ _ (Keeps-reads _) λ vh.
      Keeps-bind _ _ (find_volume-Keeps req vh) λ found.
        Keeps-then _ _ (Keeps-set_used _) (elim (Option-cases found.allocated) [
          | inl e ↦ rw (e) (Keeps-lift _)
          | inr ((device, quota), e) ↦
              rw (e) (normal_requests_loop-Keeps _ (Disk.add disks quota) reqs)
        ])

  get_normal_plan-Keeps :
      (reqs : VolumeBindings) → Keeps (Resolves start) (VolumePlan × Disks) (get_normal_plan reqs)
  unfolding get_normal_plan
  get_normal_plan-Keeps reqs =
      Keeps-bind _ _ (Keeps-reads _)
        λ vh. Keeps-then _ _ (Keeps-set_used _) (normal_requests_loop-Keeps [] [] reqs)

  get_mount_disk_plan-Keeps :
      (reqs : VolumeBindings) → Keeps (Resolves start) Disks (get_mount_disk_plan reqs)
  unfolding get_mount_disk_plan
  get_mount_disk_plan-Keeps reqs = mount_loop-Keeps [] reqs

  normal_plan_round-Keeps :
      (normal mount : VolumeBindings)
      → Keeps (Resolves start) (VolumePlan × Disks) (normal_plan_round normal mount)
  unfolding normal_plan_round
  normal_plan_round-Keeps normal mount =
      Keeps-bind _ _ (get_normal_plan-Keeps normal)
        λ plan. Keeps-bind _ _ (get_mount_disk_plan-Keeps mount) λ disks. Keeps-pure _

  normal_plans_loop-Resolves :
      (normal mount : VolumeBindings) (room : ℕ) (h : Host)
      → Resolves start h
      → Resolves start (normal_plans_loop normal mount room h).1
  unfolding normal_plans_loop
  normal_plans_loop-Resolves normal mount zero h r = r
  normal_plans_loop-Resolves normal mount (suc room) h r =
      let next = (normal_plan_round-Keeps normal mount).apply h r in
      elim (Result-cases (normal_plan_round normal mount h).0) [
        | inl (plan, e) ↦
            rw (e, normal_plans_loop)
              (normal_plans_loop-Resolves normal mount room (normal_plan_round normal mount h).1
                next)
        | inr (x, e) ↦ rw (e, normal_plans_loop) next
      ]

clone-Resolves : (h : Host) → Resolves h.disks (clone h)
unfolding clone
clone-Resolves h = record {
  fresh = λ path. refl;
  kept = λ path found g. absurd (cc (g, lookup_nil {V = Option ℕ} path));
}

resolved :
    (start : Disks) (h : Host) (path : String)
    → Resolves start h
    → (get_disk_by_path path h).0 ≡ ok (Paths.get_disk_by_path path start)
unfolding get_disk_by_path
resolved start h path r = elim (Option-cases (lookup path h.disk_by_path)) [
  | inl e ↦ rw (e, get_disk_by_path) (ap ok (r.fresh path))
  | inr (found, e) ↦ rw (e, get_disk_by_path) (ap ok (r.kept path found e))
]

-- After any number of rounds of getNormalPlans on a clone of a host, whatever they find: a lookup of a
-- path answers what GetDiskByPath finds in the disks that the host had, kept or not, and so does
-- GetDiskByPath in the disks that the rounds leave.
pub normal_plans_loop-get_disk_by_path :
    (normal mount : VolumeBindings) (room : ℕ) (h : Host) (path : String)
    → ((get_disk_by_path path (normal_plans_loop normal mount room (clone h)).1).0
        ≡ ok (Paths.get_disk_by_path path h.disks))
      × (Paths.get_disk_by_path path (normal_plans_loop normal mount room (clone h)).1.disks
          ≡ Paths.get_disk_by_path path h.disks)
normal_plans_loop-get_disk_by_path normal mount room h path =
    let r = normal_plans_loop-Resolves normal mount room (clone h) (clone-Resolves h) in
    (resolved h.disks (normal_plans_loop normal mount room (clone h)).1 path r, r.fresh path)
