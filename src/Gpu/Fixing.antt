-- ===== src/Gpu/Fixing.antt =====
-- FixNodeResource followed by a look at the same node and workloads.
use resource_extend.Base.{
  false, String, ◌≡◌, refl, sym, ◌∙◌, ap, subst, List, [], ◌∷◌, inl, inr, ◌⊎◌, arith,
}
use resource_extend.Errors.{Error, ok, err, Result-cases}
use resource_extend.Action.{pure, lift, reads, ◌>>=◌, ◌>>◌, >>=-ok, >>=-err, answered, refused}
use resource_extend.Nodestore.{Kv, Store, get, put}
use resource_extend.Nodestore.Laws.{IsKv, RoundTrips, get-put, put-written}
use resource_extend.Gpu.Types.{ProdCountMap, NodeResourceInfo}
use resource_extend.Gpu.Resource.{Diff, workloads_usage, diffs_of}
use resource_extend.Gpu.Resource.Laws.{workloads_usage-IsMap}
use resource_extend.Gpu.Resource.Fix.{diffs_of_self}
use resource_extend.Gpu.Store.{Encoding, checked, new_store}
use resource_extend.Gpu.Plugin.{
  Core, InfoResponse, decode_all, fix_node_resource, get_node_resource_info, compare_usage,
  write_fix,
}

module _ (core : Core) (kv : Kv) (e : Encoding) where
  abbrev s : Store NodeResourceInfo
  s = new_store kv e

  abbrev Compared : NodeResourceInfo → ProdCountMap → InfoResponse
  Compared info actual = record {
    capacity = info.capacity;
    usage = info.usage;
    diffs = diffs_of info actual;
  }

  get_info_lem :
      (n : String) (ws : List core.Raw) (ms : List ProdCountMap) (info : NodeResourceInfo)
      (st : kv.State)
      → get s n st ≡ ok info
      → decode_all core s ws ≡ ok ms
      → (get_node_resource_info core s n ws st).0 ≡ ok (Compared info (workloads_usage ms))
  unfolding get_node_resource_info compare_usage ◌>>=◌ reads lift pure get diffs_of
  get_info_lem n ws ms info st g d = rw (g, d)

  -- The comparison succeeds on a stored info and workloads that decode.
  compare_cases :
      (n : String) (ws : List core.Raw) (st : kv.State)
      → ((info : NodeResourceInfo) × (ms : List ProdCountMap) × (get s n st ≡ ok info)
          × (decode_all core s ws ≡ ok ms)
          × (compare_usage core s n ws st
              ≡ (ok (info, workloads_usage ms, diffs_of info (workloads_usage ms)), st)))
        ⊎ ((f : Error) × (t : kv.State) × (compare_usage core s n ws st ≡ (err f, t)))
  unfolding compare_usage ◌>>=◌ reads lift pure get diffs_of
  compare_cases n ws st = elim (Result-cases (get s n st)) [
    | inr (f, g) ↦ inr (f, st, rw g)
    | inl (info, g) ↦ elim (Result-cases (decode_all core s ws)) [
      | inr (f, d) ↦ inr (f, st, rw (g, d))
      | inl (ms, d) ↦ inl (info, ms, g, d, rw (g, d))
    ]
  ]

  checked_same : (i j : NodeResourceInfo) → checked i ≡ ok j → checked i ≡ ok i
  unfolding checked
  checked_same i j h = ground arith

  module _ (laws : IsKv kv) (trip : RoundTrips s.info) where
    -- What a later look finds, from what the fix has written.
    abbrev pub Settled : String → List core.Raw → kv.State → InfoResponse → Type 0
    Settled n ws st r =
        (answer : InfoResponse) × ((get_node_resource_info core s n ws st).0 ≡ ok answer)
        × (answer.diffs ≡ [])
        × (answer.usage ≡ r.usage)
        × (answer.capacity ≡ r.capacity)

    write_fix-Settled :
        (n : String) (ws : List core.Raw) (ms : List ProdCountMap) (info : NodeResourceInfo)
        (diffs : List Diff) (st st' : kv.State) (r : InfoResponse)
        → get s n st ≡ ok info
        → decode_all core s ws ≡ ok ms
        → diffs_of info (workloads_usage ms) ≡ diffs
        → write_fix core s n info (workloads_usage ms) diffs st ≡ (ok r, st')
        → Settled n ws st' r
    unfolding write_fix pure ◌>>=◌ ◌>>◌
    write_fix-Settled n ws ms info [] st st' r g d q h =
        let p = answered h in
        (
          Compared info (workloads_usage ms),
          subst
              (λ t.
                (get_node_resource_info core s n ws t).0 ≡ ok (Compared info (workloads_usage ms)))
              p.1 (get_info_lem n ws ms info st g d),
          q,
          ap (λ a. a.usage) p.0,
          ap (λ a. a.capacity) p.0,
        )
    write_fix-Settled n ws ms info (x ∷ diffs) st st' r g d q h =
        let fixed : NodeResourceInfo = record info {
          usage = workloads_usage ms;
          usage_is_nil = false;
        } in
        elim (Result-cases (put s n fixed st).0) [
          | inr (f, w) ↦ absurd (refused (rw (w, ◌>>=◌) at h))
          | inl (u, w) ↦
              let p = answered (rw (w, ◌>>=◌) at h) in
              let made : put s n fixed st ≡ (ok tt, st') = (λ i. (w i, p.1 i)) in
              let stored : get s n st' ≡ ok fixed =
                (get-put s laws n fixed st trip made
                  ∙ checked_same fixed _ (put-written s laws n fixed st made).2) in
              (
                Compared fixed (workloads_usage ms),
                get_info_lem n ws ms fixed st' stored d,
                diffs_of_self fixed (workloads_usage-IsMap ms),
                ap (λ a. a.usage) p.0,
                ap (λ a. a.capacity) p.0,
              )
        ]

    -- Once FixNodeResource has succeeded, a look at the same node with the same workloads finds no
    -- difference, and the usage and capacity that the fix has answered; for an etcd client that keeps
    -- its promises and an encoding that decodes what it has encoded.
    pub fix-Settled :
        (n : String) (ws : List core.Raw) (st st' : kv.State) (r : InfoResponse)
        → fix_node_resource core s n ws st ≡ (ok r, st')
        → Settled n ws st' r
    unfolding fix_node_resource
    fix-Settled n ws st st' r h = elim (compare_cases n ws st) [
      | inr (f, t, c) ↦ absurd (refused (sym (>>=-err (compare_usage core s n ws) _ st c) ∙ h))
      | inl (info, ms, g, d, c) ↦
          write_fix-Settled n ws ms info _ st st' r g d refl
            (sym (>>=-ok (compare_usage core s n ws) _ st c) ∙ h)
    ]
