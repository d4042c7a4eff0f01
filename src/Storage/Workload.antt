-- ===== src/Storage/Workload.antt =====
-- storage/types/workload.go: what a workload asks for, and what it has. A request that validation changes
-- is a new value. The parsing of requests stands in Storage.Parse.
pub mod Matches
use Prim.Native.String.{String, compare}
use Prim.Native.Nat.{Ordering}
use resource_extend.Base.{
  ℕ, Bool, true, false, not, ◌&&◌, ◌||◌, ◌==◌, List, [], ◌∷◌, if◌then◌else◌, length,
}
use resource_extend.Base.Int.{ℤ, pos, ltb_ℤ, eqb_ℤ}
use resource_extend.Base.Word.{add64}
use resource_extend.Base.Dict.{Dict, ◌=s◌}
use resource_extend.Errors.{
  Error, joined, other, invalid_volume, invalid_storage, Result, ok, err, ◌>>=◌, ◌>>◌,
}
use resource_extend.Storage.Disk.{Rates, Disks, zip_rates}
use resource_extend.Storage.Binding
use resource_extend.Storage.Binding.{VolumeBinding, VolumeBindings, VolumePlan, total_size}
use resource_extend.Storage.Binding.Text.{to_string}

pub record WorkloadResource : Type 0 where
  pub volumes_request : VolumeBindings
  pub volumes_limit : VolumeBindings
  pub volume_plan_request : VolumePlan
  pub volume_plan_limit : VolumePlan
  pub storage_request : ℤ
  pub storage_limit : ℤ
  pub disks_request : Disks
  pub disks_limit : Disks

pub record WorkloadResourceRequest : Type 0 where
  pub volumes_request : VolumeBindings
  pub volumes_limit : VolumeBindings
  pub storage_request : ℤ
  pub storage_limit : ℤ
  pub storage_folded : Bool

unfoldable pub skip_add_storage : WorkloadResourceRequest → WorkloadResourceRequest
skip_add_storage w = record w { storage_folded = true }

-- `compareBindingString(b, b1) < 0`
is_before : VolumeBinding → VolumeBinding → Bool
unfolding to_string
is_before b b1 = elim (compare (to_string false b) (to_string false b1)) [
  | Ordering.lt ↦ Bool.true
  | _ ↦ Bool.false
]

insert_binding : VolumeBinding → VolumeBindings → VolumeBindings
unfolding is_before
insert_binding b [] = b ∷ []
insert_binding b (b1 ∷ bs) = if is_before b1 b then b1 ∷ insert_binding b bs else b ∷ b1 ∷ bs

-- `slices.SortFunc(vbs, compareBindingString)`, with bindings of the same text in their order.
unfoldable pub sort_by_text : VolumeBindings → VolumeBindings
unfolding insert_binding
sort_by_text [] = []
sort_by_text (b ∷ bs) = insert_binding b (sort_by_text bs)

unfoldable pub is_same_binding : VolumeBinding → VolumeBinding → Bool
is_same_binding request limit =
    (request.source =s limit.source)
    && (request.destination =s limit.destination)
    && (request.flags =s limit.flags)

abbrev pub max_ℤ : ℤ → ℤ → ℤ
max_ℤ a b = if ltb_ℤ a b then b else a

unfoldable pub raise_limit : VolumeBinding → VolumeBinding → VolumeBinding
raise_limit request limit = record limit {
  size_in_bytes =
      if ltb_ℤ (pos 0) request.size_in_bytes
        && ltb_ℤ (pos 0) limit.size_in_bytes
        && ltb_ℤ limit.size_in_bytes request.size_in_bytes
      then request.size_in_bytes
      else limit.size_in_bytes;
  rates = zip_rates max_ℤ limit.rates request.rates;
}

-- The loop over both lists, with the limits that it leaves.
unfoldable pub raise_limits : VolumeBindings → VolumeBindings → Result VolumeBindings
unfolding is_same_binding raise_limit
raise_limits [] limits = ok limits
raise_limits (request ∷ requests) [] = err (other "index out of range")
raise_limits (request ∷ requests) (limit ∷ limits) =
    let rest = raise_limits requests limits in
    if is_same_binding request limit
    then (rest >>= λ raised. ok (raise_limit request limit ∷ raised))
    else err invalid_volume

-- `errors.CombineErrors(ErrInvalidVolume, err)`
abbrev as_invalid_volume : Result (Unit {0}) → Result (Unit {0})
as_invalid_volume (ok _) = ok tt
as_invalid_volume (err e) = err (joined invalid_volume e)

unfoldable pub validate_volumes : WorkloadResourceRequest → Result WorkloadResourceRequest
unfolding sort_by_text raise_limits Binding.validate
validate_volumes w =
    let requests = sort_by_text w.volumes_request in
    let raised = raise_limits requests (sort_by_text w.volumes_limit) in
    if not (length w.volumes_request == length w.volumes_limit)
    then err invalid_volume
    else (as_invalid_volume (Binding.validate w.volumes_request)
        >> as_invalid_volume (Binding.validate w.volumes_limit)
        >> (raised >>= λ limits.
            ok (record w { volumes_request = requests; volumes_limit = limits })))

-- `cmp.Or(a, b)`
abbrev pub or_else : ℤ → ℤ → ℤ
or_else a b = if eqb_ℤ a (pos 0) then b else a

unfoldable pub fold_storage : WorkloadResourceRequest → WorkloadResourceRequest
unfolding total_size
fold_storage w = if w.storage_folded then w else record w {
  storage_request = add64 w.storage_request (total_size w.volumes_request);
  storage_limit = add64 w.storage_limit (total_size w.volumes_limit);
  storage_folded = true;
}

unfoldable pub validate_storage : WorkloadResourceRequest → Result WorkloadResourceRequest
unfolding fold_storage
validate_storage w =
    let request = or_else w.storage_request w.storage_limit in
    let limit =
      if ltb_ℤ (pos 0) w.storage_limit && ltb_ℤ (pos 0) request && ltb_ℤ w.storage_limit request
      then request
      else w.storage_limit in
    if ltb_ℤ w.storage_limit (pos 0) || ltb_ℤ w.storage_request (pos 0)
    then err invalid_storage
    else ok (fold_storage (record w { storage_request = request; storage_limit = limit }))

-- Both checks are made; what the second does to a request that fails the first is not kept.
unfoldable pub validate : WorkloadResourceRequest → Result WorkloadResourceRequest
unfolding validate_volumes validate_storage
validate w = elim (validate_volumes w) [
  | ok w1 ↦ validate_storage w1
  | err e ↦ elim (validate_storage w) [ ok w1 ↦ err e | err e1 ↦ err (joined e e1) ]
]
