-- ===== src/Storage/Workload/Matches.antt =====
-- After validation each limit stands beside its request and is no lower.
use resource_extend.Base.{
  suc, true, ◌||◌, ◌==◌, ◌≡◌, refl, sym, ◌∙◌, ap, inl, inr, [], ◌∷◌, length, arith, Bool-cases,
}
use resource_extend.Base.Int.{pos, ltb_ℤ, ◌≤ℤ◌, ◌<ℤ◌}
use resource_extend.Base.Dict.{=s_iff}
use resource_extend.Errors.{Result, ok, err, ◌>>=◌, ◌>>◌, Result-cases}
use resource_extend.Storage.Binding
use resource_extend.Storage.Binding.{VolumeBinding, VolumeBindings}
use resource_extend.Storage.Workload.{
  WorkloadResourceRequest, is_same_binding, raise_limit, raise_limits, as_invalid_volume,
  insert_binding, sort_by_text, validate_volumes, fold_storage, validate_storage, validate,
}

-- A limit names what its request names, and allows what it asks for. Sizes that are not positive are
-- not compared.
pub record IsLimit (request limit : VolumeBinding) : Type 0 where
  pub source_eq : request.source ≡ limit.source
  pub destination_eq : request.destination ≡ limit.destination
  pub flags_eq : request.flags ≡ limit.flags
  pub size :
      (pos 0 <ℤ request.size_in_bytes)
      → (pos 0 <ℤ limit.size_in_bytes)
      → request.size_in_bytes ≤ℤ limit.size_in_bytes
  pub read_iops : request.read_iops ≤ℤ limit.read_iops
  pub write_iops : request.write_iops ≤ℤ limit.write_iops
  pub read_bps : request.read_bps ≤ℤ limit.read_bps
  pub write_bps : request.write_bps ≤ℤ limit.write_bps

abbrev pub AreLimits : VolumeBindings → VolumeBindings → Type 0
AreLimits [] [] = Unit {0}
AreLimits [] (limit ∷ limits) = ⊥
AreLimits (request ∷ requests) [] = ⊥
AreLimits (request ∷ requests) (limit ∷ limits) = IsLimit request limit × AreLimits requests limits

raise_limit-IsLimit :
    (request limit : VolumeBinding)
    → is_same_binding request limit ≡ true
    → IsLimit request (raise_limit request limit)
unfolding is_same_binding raise_limit
raise_limit-IsLimit request limit h = record {
  source_eq = (=s_iff request.source limit.source).0 (ground arith);
  destination_eq = (=s_iff request.destination limit.destination).0 (ground arith);
  flags_eq = (=s_iff request.flags limit.flags).0 (ground arith);
  size = λ p q. ground arith;
  read_iops = ground arith;
  write_iops = ground arith;
  read_bps = ground arith;
  write_bps = ground arith;
}

-- What holds of a request that passes.
abbrev pub Passes : {A : Type 0} → (A → Type 0) → Result A → Type 0
Passes P (ok a) = P a
Passes P (err e) = Unit {0}

Passes->>= :
    {A B : Type 0} (P : A → Type 0) (Q : B → Type 0) (r : Result A) (f : A → Result B)
    → Passes P r
    → ((a : A) → P a → Passes Q (f a))
    → Passes Q (r >>= f)
Passes->>= P Q (ok a) f h k = k a h
Passes->>= P Q (err e) f h k = tt

raise_limits-AreLimits :
    (requests limits : VolumeBindings)
    → length requests ≡ length limits
    → Passes (AreLimits requests) (raise_limits requests limits)
unfolding raise_limits
raise_limits-AreLimits [] [] h = tt
raise_limits-AreLimits [] (limit ∷ limits) h = absurd (omega arith)
raise_limits-AreLimits (request ∷ requests) [] h = tt
raise_limits-AreLimits (request ∷ requests) (limit ∷ limits) h =
    elim (Bool-cases (is_same_binding request limit)) [
      | inl e ↦
          rw (e, raise_limits)
            (Passes->>= (AreLimits requests) (AreLimits (request ∷ requests))
              (raise_limits requests limits) _
              (raise_limits-AreLimits requests limits (omega arith))
              (λ raised all_raised. (raise_limit-IsLimit request limit e, all_raised)))
      | inr e ↦ rw (e, raise_limits) tt
    ]

length-insert_binding :
    (b : VolumeBinding) (bs : VolumeBindings) → length (insert_binding b bs) ≡ suc (length bs)
unfolding insert_binding
length-insert_binding b [] = refl
length-insert_binding b (b1 ∷ bs) = ground (arith, length-insert_binding b bs)

length-sort_by_text : (bs : VolumeBindings) → length (sort_by_text bs) ≡ length bs
unfolding sort_by_text
length-sort_by_text [] = refl
length-sort_by_text (b ∷ bs) =
    length-insert_binding b (sort_by_text bs) ∙ ap suc (length-sort_by_text bs)

abbrev pub HasLimits : WorkloadResourceRequest → Type 0
HasLimits w = AreLimits w.volumes_request w.volumes_limit

then-HasLimits :
    (first second : Result (Unit {0})) (w : WorkloadResourceRequest) (requests : VolumeBindings)
    (raised : Result VolumeBindings)
    → Passes (AreLimits requests) raised
    → Passes HasLimits (
        first
        >> second
        >> (raised >>= λ limits.
            ok (record w { volumes_request = requests; volumes_limit = limits })))
then-HasLimits (ok u) (ok v) w requests (ok limits) h = h
then-HasLimits (ok u) (ok v) w requests (err e) h = tt
then-HasLimits (ok u) (err e) w requests raised h = tt
then-HasLimits (err e) second w requests raised h = tt

validate_volumes-HasLimits : (w : WorkloadResourceRequest) → Passes HasLimits (validate_volumes w)
unfolding validate_volumes
validate_volumes-HasLimits w =
    elim (Bool-cases (length w.volumes_request == length w.volumes_limit)) [
      | inr e ↦ rw e tt
      | inl e ↦
          let same : length (sort_by_text w.volumes_request)
              ≡ length (sort_by_text w.volumes_limit) =
            length-sort_by_text w.volumes_request
            ∙ ground arith
            ∙ sym (length-sort_by_text w.volumes_limit) in
          rw e (
            then-HasLimits (as_invalid_volume (Binding.validate w.volumes_request))
              (as_invalid_volume (Binding.validate w.volumes_limit)) w
              (sort_by_text w.volumes_request)
              (raise_limits (sort_by_text w.volumes_request) (sort_by_text w.volumes_limit))
              (raise_limits-AreLimits (sort_by_text w.volumes_request)
                (sort_by_text w.volumes_limit) same))
    ]

validate_storage-HasLimits :
    (w : WorkloadResourceRequest) → HasLimits w → Passes HasLimits (validate_storage w)
unfolding validate_storage fold_storage
validate_storage-HasLimits w h =
    elim (Bool-cases (ltb_ℤ w.storage_limit (pos 0) || ltb_ℤ w.storage_request (pos 0))) [
      | inl e ↦ rw e tt
      | inr e ↦ elim (Bool-cases w.storage_folded) [ inl e1 ↦ rw (e, e1) h | inr e1 ↦ rw (e, e1) h ]
    ]

-- Where a request passes Validate, each of its limits of volumes stands beside a request with the same
-- source, destination and flags, its four rates are no lower than the request's, nor is its size where
-- both sizes are positive.
pub validate-HasLimits : (w : WorkloadResourceRequest) → Passes HasLimits (validate w)
unfolding validate
validate-HasLimits w =
    let volumes = validate_volumes-HasLimits w in
    elim (Result-cases (validate_volumes w)) [
      | inl (w1, e) ↦
          let limits : Passes HasLimits (ok w1) = rw e at volumes in
          rw (e, validate) (validate_storage-HasLimits w1 limits)
      | inr (x, e) ↦
          rw (e, validate)
            (elim (Result-cases (validate_storage w)) [
              | inl (w1, e1) ↦ rw e1 tt
              | inr (x1, e1) ↦ rw e1 tt
            ])
    ]
