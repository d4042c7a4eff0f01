-- ===== src/Gpu/Realloc/Exact.antt =====
-- What a reallocation grants, and the delta that it reports.
use text.Mathlib.TextEquality.{eq_iff}
use resource_extend.Base.{
  String, false, ◌⊎◌, inl, inr, ◌≡◌, ◌≤◌, refl, ◌∙◌, ap, [], ◌∷◌, none, arith, if◌then◌else◌,
}
use resource_extend.Base.Int.{ℤ, pos, pos_part, leb_ℤ}
use resource_extend.Base.Word.{add64, sub64, InRange, add64-InRange}
use resource_extend.Base.Dict.{lookup, count_of, IsMap}
use resource_extend.Errors.{ok, err, insufficient_resource}
use resource_extend.Gpu.Types.{
  ProdCountMap, NodeResourceInfo, add, sub, delete_non_positive, merge_from_resource,
  get_available_resource,
}
use resource_extend.Gpu.Types.Counts.{add-IsMap, sub-IsMap, count_of-add, count_of-sub}
use resource_extend.Gpu.Types.Valid.{IsPositive, AllInRange, IsSound}
use resource_extend.Gpu.Alloc.Fits.{Fits}
use resource_extend.Gpu.Alloc.Grant.{do_alloc-Fits}
use resource_extend.Gpu.Realloc.{Reallocation, realloc, sub_usage}

delete_non_positive-IsPositive : (m : ProdCountMap) → IsPositive (delete_non_positive m)
unfolding delete_non_positive
delete_non_positive-IsPositive [] = tt
delete_non_positive-IsPositive ((j, n) ∷ m) = ground (arith, delete_non_positive-IsPositive m)

lookup-delete_none :
    (k : String) (m : ProdCountMap) → lookup k m ≡ none → lookup k (delete_non_positive m) ≡ none
unfolding delete_non_positive lookup
lookup-delete_none k [] h = refl
lookup-delete_none k ((j, n) ∷ m) h = ground (arith, lookup-delete_none k m)

delete_non_positive-IsMap : (m : ProdCountMap) → IsMap m → IsMap (delete_non_positive m)
unfolding delete_non_positive
delete_non_positive-IsMap [] h = tt
delete_non_positive-IsMap ((j, n) ∷ m) h =
    ground (arith, delete_non_positive-IsMap m h.1, lookup-delete_none j m h.0)

-- The count that a workload is left with: nothing below one.
pub kept : ℤ → ℤ
kept n = if leb_ℤ n (pos 0) then pos 0 else n

kept-InRange : (n : ℤ) → InRange n → InRange (kept n)
unfolding kept
kept-InRange n h = ground arith

count_of-delete :
    (k : String) (m : ProdCountMap)
    → IsMap m
    → count_of k (delete_non_positive m) ≡ kept (count_of k m)
unfolding delete_non_positive kept count_of lookup
count_of-delete k [] h = refl
count_of-delete k ((j, n) ∷ m) h =
    ground (arith, count_of-delete k m h.1, lookup-delete_none k m, eq_iff j k, h.0)

Fits-count_of :
    (k : String) (available m : ProdCountMap)
    → IsMap m
    → Fits 1 available m
    → pos_part (count_of k m) ≤ pos_part (count_of k available)
unfolding count_of lookup
Fits-count_of k available [] h f = omega arith
Fits-count_of k available ((j, n) ∷ m) h f =
    ground (arith, Fits-count_of k available m h.1 f.1, eq_iff j k, f.0)

-- The node as it is without the workload that is changed.
abbrev pub without : NodeResourceInfo → ProdCountMap → NodeResourceInfo
without info origin = record info { usage = sub info.usage origin }

sub_usage-without :
    (info : NodeResourceInfo) (origin : ProdCountMap)
    → (info.usage_is_nil ≡ false) ⊎ (origin ≡ [])
    → sub_usage info origin ≡ ok (without info origin)
unfolding sub_usage sub
sub_usage-without info [] usable = refl
sub_usage-without info (p ∷ origin) (inl e) = rw e refl
sub_usage-without info (p ∷ origin) (inr e) = absurd (cc e)

without-IsSound :
    (info : NodeResourceInfo) (origin : ProdCountMap) → IsSound info → IsSound (without info origin)
without-IsSound info origin v = record {
  capacity_map = v.capacity_map;
  usage_map = sub-IsMap info.usage origin v.usage_map;
  in_range = v.in_range;
}

-- What a granted reallocation answers for one product: the workload has the old count changed by
-- the requested one, and nothing where that is below one; the delta is the difference to the old
-- count, the engine gets the same as the workload, and the workload holds at most what is available
-- on the node without it.
pub record IsRealloc (info : NodeResourceInfo) (origin req : ProdCountMap) (r : Reallocation)
    (k : String) : Type 0 where
  pub merged : count_of k r.workload_resource ≡ kept (add64 (count_of k req) (count_of k origin))
  pub delta :
      count_of k r.delta_resource ≡ sub64 (count_of k r.workload_resource) (count_of k origin)
  pub engine : count_of k r.engine_params ≡ count_of k r.workload_resource
  pub covered :
      pos_part (count_of k r.workload_resource)
      ≤ pos_part
          (sub64 (count_of k info.capacity) (sub64 (count_of k info.usage) (count_of k origin)))

module _ (info : NodeResourceInfo) (origin req : ProdCountMap) (v : IsSound info)
    (origin_map : IsMap origin) (req_map : IsMap req) (usage_range : AllInRange info.usage)
    (req_range : AllInRange req) where
  merged-IsMap : IsMap (merge_from_resource req origin)
  unfolding merge_from_resource
  merged-IsMap = delete_non_positive-IsMap (add req origin) (add-IsMap req origin req_map)

  merged-IsPositive : IsPositive (merge_from_resource req origin)
  unfolding merge_from_resource
  merged-IsPositive = delete_non_positive-IsPositive (add req origin)

  count_of-merged :
      (k : String)
      → count_of k (merge_from_resource req origin)
        ≡ kept (add64 (count_of k req) (count_of k origin))
  unfolding merge_from_resource
  count_of-merged k =
      count_of-delete k (add req origin) (add-IsMap req origin req_map)
      ∙ ap kept (count_of-add k req origin req_map origin_map (req_range k))

  merged_range : (k : String) → InRange (count_of k (merge_from_resource req origin))
  merged_range k = rw (count_of-merged k) (kept-InRange _ (add64-InRange _ _))

  count_of-left :
      (k : String)
      → count_of k (get_available_resource (without info origin))
        ≡ sub64 (count_of k info.capacity) (sub64 (count_of k info.usage) (count_of k origin))
  unfolding get_available_resource
  count_of-left k =
      count_of-sub k info.capacity (sub info.usage origin) v.capacity_map
        (sub-IsMap info.usage origin v.usage_map) (v.in_range k)
      ∙ ap (sub64 (count_of k info.capacity))
          (count_of-sub k info.usage origin v.usage_map origin_map (usage_range k))

  -- For a sound node whose stored usage is not a nil map, or an old resource without counts, and maps
  -- of counts that fit `int`, a reallocation is granted, with the answer
  -- of IsRealloc for every product, exactly if the changed
  -- counts fit on the node without the workload; it is refused for want of resource if not.
  pub realloc_exact :
      (info.usage_is_nil ≡ false) ⊎ (origin ≡ [])
      → (Fits 1 (get_available_resource (without info origin)) (merge_from_resource req origin)
          → (r : Reallocation) × (realloc info origin req ≡ ok r)
            × ((k : String) → IsRealloc info origin req r k))
        × (¬ Fits 1 (get_available_resource (without info origin)) (merge_from_resource req origin)
            → realloc info origin req ≡ err insufficient_resource)
  unfolding realloc
  realloc_exact usable =
      let written = sub_usage-without info origin usable in
      let m = merge_from_resource req origin in
      let alloc =
        do_alloc-Fits (without info origin) 1 m (without-IsSound info origin v) merged-IsMap
          merged-IsPositive in
      (
        λ f. (
          record { engine_params = m; delta_resource = sub m origin; workload_resource = m },
          rw (written, alloc.0 f),
          λ k. record {
            merged = count_of-merged k;
            delta = count_of-sub k m origin merged-IsMap origin_map (merged_range k);
            engine = refl;
            covered = rw (← count_of-left k) (Fits-count_of k _ m merged-IsMap f);
          },
        ),
        λ f. rw (written, alloc.1 f),
      )
