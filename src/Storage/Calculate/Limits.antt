-- ===== src/Storage/Calculate/Limits.antt =====
-- The plan limit of a workload, getVolumePlanLimit, by its entries.
use mathlib.Core.List.{Memᴰ}
use resource_extend.Base.{
  ℕ, suc, ◌+◌, ◌≤◌, true, ◌≡◌, ◌↔◌, refl, inl, inr, [], ◌∷◌, some, none, length, get_elem?,
  get_elem?-some, arith, Bool-cases, Option-cases,
}
use resource_extend.Base.Word.{add64, sub64}
use resource_extend.Errors.{ok}
use resource_extend.Storage.Volumes.{Volumes, get_device, get_size}
use resource_extend.Storage.Binding.{
  VolumeBinding, VolumeBindings, VolumePlan, require_schedule, find_by_key,
}
use resource_extend.Storage.Calculate.{limit_entry, limit_loop}

-- The device of the plan, with its size and what the limit has over the request.
abbrev entry_of : VolumeBinding → VolumeBinding → Volumes → VolumeBinding × Volumes
entry_of limit request volumes = (
  limit,
  (get_device volumes, sub64 (add64 (get_size volumes) limit.size_in_bytes) request.size_in_bytes)
      ∷ [],
)

module _ (requests : VolumeBindings) (plan : VolumePlan) (entry : VolumeBinding × Volumes) where
  -- What the entry of a limit is: the limit needs a schedule and the plan has its key, and the entry
  -- has the device that the plan has for it, with the plan's size and what the limit has over the
  -- request at its index.
  pub record IsEntryOf (index : ℕ) (limit : VolumeBinding) : Type 0 where
    pub request : VolumeBinding
    pub volumes : Volumes
    pub request_at : get_elem? requests index ≡ some request
    pub scheduled : require_schedule limit ≡ true
    pub in_plan : find_by_key limit none plan ≡ some volumes
    pub entry_eq : entry ≡ entry_of limit request volumes

  -- It is the entry of one of the limits, which stand from an index on.
  pub data IsLimit : ℕ → VolumeBindings → Type 0 where
    here :
        {index : ℕ} {limit : VolumeBinding} {limits : VolumeBindings}
        → IsEntryOf index limit
        → IsLimit index (limit ∷ limits)
    there :
        {index : ℕ} {limit : VolumeBinding} {limits : VolumeBindings}
        → IsLimit (suc index) limits
        → IsLimit index (limit ∷ limits)

  IsLimit-rest :
      {index : ℕ} {limit : VolumeBinding} {limits : VolumeBindings}
      → ¬ IsEntryOf index limit
      → IsLimit index (limit ∷ limits)
      → IsLimit (suc index) limits
  IsLimit-rest none_here (here e) = absurd (none_here e)
  IsLimit-rest none_here (there l) = l

-- The entries of a plan limit are those of the limits, no more and no fewer.
abbrev pub AreLimits : VolumeBindings → VolumePlan → ℕ → VolumeBindings → VolumePlan → Type 0
AreLimits requests plan index limits made =
    (entry : VolumeBinding × Volumes) → Memᴰ entry made ↔ IsLimit requests plan entry index limits

AreLimits-skip :
    (requests : VolumeBindings) (plan : VolumePlan) (index : ℕ) (limit : VolumeBinding)
    (limits : VolumeBindings) (made : VolumePlan)
    → ((entry : VolumeBinding × Volumes) → ¬ IsEntryOf requests plan entry index limit)
    → AreLimits requests plan (suc index) limits made
    → AreLimits requests plan index (limit ∷ limits) made
AreLimits-skip requests plan index limit limits made none_here are entry = (
  λ m. IsLimit.there ((are entry).0 m),
  λ l. (are entry).1 (IsLimit-rest requests plan entry (none_here entry) l),
)

AreLimits-cons :
    (requests : VolumeBindings) (plan : VolumePlan) (index : ℕ) (limit request : VolumeBinding)
    (limits : VolumeBindings) (volumes : Volumes) (made : VolumePlan)
    → get_elem? requests index ≡ some request
    → require_schedule limit ≡ true
    → find_by_key limit none plan ≡ some volumes
    → AreLimits requests plan (suc index) limits made
    → AreLimits requests plan index (limit ∷ limits) (entry_of limit request volumes ∷ made)
AreLimits-cons requests plan index limit request limits volumes made at s found are entry =
    (there_to, here_to)
  where
    there_to :
        Memᴰ entry (entry_of limit request volumes ∷ made)
        → IsLimit requests plan entry index (limit ∷ limits)
    there_to (Memᴰ.head e) = IsLimit.here (record {
      request = request;
      volumes = volumes;
      request_at = at;
      scheduled = s;
      in_plan = found;
      entry_eq = e;
    })
    there_to (Memᴰ.tail m) = IsLimit.there ((are entry).0 m)

    here_to :
        IsLimit requests plan entry index (limit ∷ limits)
        → Memᴰ entry (entry_of limit request volumes ∷ made)
    here_to (IsLimit.here e) =
        let r : e.request ≡ request = cc in
        let v : e.volumes ≡ volumes = cc in Memᴰ.head (rw (r, v) at e.entry_eq)
    here_to (IsLimit.there l) = Memᴰ.tail ((are entry).1 l)

-- Where each limit stands beside a request, the plan limit is made and has the entries of the limits.
pub limit_loop-AreLimits :
    (requests : VolumeBindings) (index : ℕ) (limits : VolumeBindings) (plan : VolumePlan)
    → index + length limits ≤ length requests
    → (made : VolumePlan) × (limit_loop requests index limits plan ≡ ok made)
      × AreLimits requests plan index limits made
unfolding limit_loop limit_entry
limit_loop-AreLimits requests index [] plan h =
    ([], refl, λ entry. (λ m. elim m [ ], λ l. elim l [ ]))
limit_loop-AreLimits requests index (limit ∷ limits) plan h =
    let (rest, e, are) = limit_loop-AreLimits requests (suc index) limits plan (omega arith) in
    let (request, at) = get_elem?-some requests index (omega arith) in
    elim (Bool-cases (require_schedule limit)) [
      | inr s ↦ (
        rest,
        rw (e, s, limit_loop) refl,
        AreLimits-skip requests plan index limit limits rest (λ entry l. let a = l.scheduled in cc)
            are,
      )
      | inl s ↦ elim (Option-cases (find_by_key limit none plan)) [
        | inl f ↦ (
          rest,
          rw (e, s, f, limit_loop) refl,
          AreLimits-skip requests plan index limit limits rest (λ entry l. let a = l.in_plan in cc)
              are,
        )
        | inr (vm, f) ↦ (
          _,
          rw (e, s, f, at, limit_loop) refl,
          AreLimits-cons requests plan index limit request limits vm rest at s f are,
        )
      ]
    ]
