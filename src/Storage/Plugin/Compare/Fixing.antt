-- ===== src/Storage/Plugin/Compare/Fixing.antt =====
-- FixNodeResource of the storage plugin, followed by a look at the same node and workloads.
use resource_extend.Base.{
  String, ◌≡◌, refl, sym, ◌∙◌, ap, subst, List, [], ◌∷◌, some, inl, inr, ◌⊎◌, Option-cases,
}
use resource_extend.Errors.{Error, other, ok, err, Result-cases}
use resource_extend.Action.{pure, lift, reads, ◌>>=◌, ◌>>◌, >>=-ok, >>=-err, answered, refused}
use resource_extend.Nodestore.{Kv, Store, get, put}
use resource_extend.Nodestore.Laws.{IsKv, RoundTrips, get-put, put-written}
use resource_extend.Storage.Node.{NodeResource, NodeResourceInfo, WorkloadUsage, validate}
use resource_extend.Storage.Usage.{Diff, no_usage, add_workloads, diffs_of, compared_usage}
use resource_extend.Storage.Usage.Settled.{AllDistinct, validate-settled}
use resource_extend.Storage.Plugin.{Core, Encoding, new_store, parse_workloads, deref}
use resource_extend.Storage.Plugin.Compare.{
  InfoResponse, compare_usage, get_node_resource_info, write_fix, fix_node_resource,
}

List-cases : {A : Type 0} (xs : List A) → (xs ≡ []) ⊎ ((x : A) × (rest : List A) × (xs ≡ x ∷ rest))
List-cases [] = inl refl
List-cases (x ∷ rest) = inr (x, rest, refl)

module _ (core : Core) (kv : Kv) (e : Encoding) where
  abbrev s : Store NodeResourceInfo
  s = new_store kv e

  abbrev Compared : NodeResource → NodeResource → List WorkloadUsage → InfoResponse
  Compared capacity stored ms = record {
    capacity = capacity;
    usage = stored;
    diffs = diffs_of stored (add_workloads no_usage ms);
  }

  get_info_lem :
      (n : String) (ws : List core.Raw) (ms : List WorkloadUsage) (info : NodeResourceInfo)
      (capacity stored : NodeResource) (st : kv.State)
      → get s n st ≡ ok info
      → parse_workloads core s ws ≡ ok ms
      → info.capacity ≡ some capacity
      → info.usage ≡ some stored
      → (get_node_resource_info core s n ws st).0 ≡ ok (Compared capacity stored ms)
  unfolding get_node_resource_info compare_usage ◌>>=◌ reads lift pure get
  get_info_lem n ws ms info capacity stored st g d c u = rw (g, d, u, c)

  -- The comparison succeeds on a stored record with a usage, and workloads that decode.
  compare_cases :
      (n : String) (ws : List core.Raw) (st : kv.State)
      → ((info : NodeResourceInfo) × (ms : List WorkloadUsage) × (stored : NodeResource) × (get s n
              st
            ≡ ok info)
          × (parse_workloads core s ws ≡ ok ms)
          × (info.usage ≡ some stored)
          × (compare_usage core s n ws st ≡ (
            ok (
              info,
              stored,
              add_workloads no_usage ms,
              diffs_of stored (add_workloads no_usage ms),
            ),
            st,
          )))
        ⊎ ((f : Error) × (t : kv.State) × (compare_usage core s n ws st ≡ (err f, t)))
  unfolding compare_usage ◌>>=◌ reads lift pure get
  compare_cases n ws st = elim (Result-cases (get s n st)) [
    | inr (f, g) ↦ inr (f, st, rw g)
    | inl (info, g) ↦ elim (Result-cases (parse_workloads core s ws)) [
      | inr (f, d) ↦ inr (f, st, rw (g, d))
      | inl (ms, d) ↦ elim (Option-cases info.usage) [
        | inl u ↦ inr (other "nil pointer dereference", st, rw (g, d, u))
        | inr (stored, u) ↦ inl (info, ms, stored, g, d, u, rw (g, d, u))
      ]
    ]
  ]

  module _ (laws : IsKv kv) (trip : RoundTrips s.info) where
    -- What a later look finds, from what the fix has answered.
    abbrev pub Settled : String → List core.Raw → kv.State → InfoResponse → Type 0
    Settled n ws st r =
        (answer : InfoResponse) × ((get_node_resource_info core s n ws st).0 ≡ ok answer)
        × (answer.diffs ≡ [])
        × (answer.usage ≡ r.usage)
        × (answer.capacity ≡ r.capacity)

    -- The workloads decode to disks with each device once for each workload.
    abbrev pub DecodesDistinct : List core.Raw → Type 0
    DecodesDistinct ws =
        (ms : List WorkloadUsage) → parse_workloads core s ws ≡ ok ms → AllDistinct ms

    unwritten :
        (n : String) (ws : List core.Raw) (ms : List WorkloadUsage) (info : NodeResourceInfo)
        (stored : NodeResource) (st st' : kv.State) (r : InfoResponse)
        → get s n st ≡ ok info
        → parse_workloads core s ws ≡ ok ms
        → info.usage ≡ some stored
        → diffs_of stored (add_workloads no_usage ms) ≡ []
        → write_fix core s n info stored (add_workloads no_usage ms) [] st ≡ (ok r, st')
        → Settled n ws st' r
    unfolding write_fix pure lift ◌>>=◌
    unwritten n ws ms info stored st st' r g d u q h = elim (Option-cases info.capacity) [
      | inl c ↦ absurd (refused (rw c at h))
      | inr (capacity, c) ↦
          let p = answered (rw c at h) in
          (
            Compared capacity stored ms,
            subst (λ t. (get_node_resource_info core s n ws t).0 ≡ ok (Compared capacity stored ms))
                p.1 (get_info_lem n ws ms info capacity stored st g d c u),
            q,
            ap (λ a. a.usage) p.0,
            ap (λ a. a.capacity) p.0,
          )
    ]

    abbrev Next : NodeResourceInfo → NodeResource → List WorkloadUsage → NodeResourceInfo
    Next info stored ms = record {
      capacity = info.capacity;
      usage = some (compared_usage stored (add_workloads no_usage ms));
    }

    -- A write that is validated has a capacity, and a usage without differences.
    next-settled :
        (info j : NodeResourceInfo) (stored : NodeResource) (ms : List WorkloadUsage)
        → AllDistinct ms
        → validate (Next info stored ms) ≡ ok j
        → (used : NodeResource) × (j.usage ≡ some used)
          × (diffs_of used (add_workloads no_usage ms) ≡ [])
    next-settled info j stored ms h v = elim (Option-cases info.capacity) [
      | inl c ↦ absurd (unfold validate in let bad : err _ ≡ ok j = (rw c at v) in cc)
      | inr (capacity, c) ↦ validate-settled capacity stored ms j h (rw c at v)
    ]

    -- The rest of the fix, after a write that was made.
    after_write :
        (n : String) (ws : List core.Raw) (ms : List WorkloadUsage) (stored : NodeResource)
        (j : NodeResourceInfo) (diffs : List Diff) (t st' : kv.State) (r : InfoResponse)
        → parse_workloads core s ws ≡ ok ms
        → get s n t ≡ ok j
        → ((used : NodeResource) × (j.usage ≡ some used)
            × (diffs_of used (add_workloads no_usage ms) ≡ []))
        → (do
          capacity ← lift (deref j.capacity)
          actual ← lift (deref j.usage)
          pure (record { capacity = capacity; usage = actual; diffs = diffs }))
            t
          ≡ (ok r, st')
        → Settled n ws st' r
    unfolding pure lift ◌>>=◌
    after_write n ws ms stored j diffs t st' r d g (used, u, nil) w =
        elim (Option-cases j.capacity) [
          | inl c ↦ absurd (refused (rw c at w))
          | inr (capacity, c) ↦
              let p = answered (rw (c, u) at w) in
              (
                Compared capacity used ms,
                subst
                    (λ t. (get_node_resource_info core s n ws t).0 ≡ ok (Compared capacity used ms))
                    p.1 (get_info_lem n ws ms j capacity used t g d c u),
                nil,
                ap (λ a. a.usage) p.0,
                ap (λ a. a.capacity) p.0,
              )
        ]

    written :
        (n : String) (ws : List core.Raw) (ms : List WorkloadUsage) (info : NodeResourceInfo)
        (stored : NodeResource) (x : Diff) (diffs : List Diff) (st st' : kv.State)
        (r : InfoResponse)
        → parse_workloads core s ws ≡ ok ms
        → AllDistinct ms
        → write_fix core s n info stored (add_workloads no_usage ms) (x ∷ diffs) st ≡ (ok r, st')
        → Settled n ws st' r
    unfolding write_fix pure lift ◌>>=◌ ◌>>◌
    written n ws ms info stored x diffs st st' r d h w =
        let next = Next info stored ms in
        elim (Result-cases (put s n next st).0) [
          | inr (f, p) ↦ absurd (refused (rw (p, ◌>>=◌) at w))
          | inl (u, p) ↦
              let t = (put s n next st).1 in
              let made : put s n next st ≡ (ok tt, t) = (λ i. (p i, t)) in
              let (j, text, v, m, k) = put-written s laws n next st made in
              after_write n ws ms stored j (x ∷ diffs) t st' r d
                (get-put s laws n next st trip made ∙ v) (next-settled info j stored ms h v)
                (rw (p, ◌>>=◌, v) at w)
        ]

    -- Once FixNodeResource has succeeded, a look at the same node with the same workloads finds no
    -- difference, and the usage and capacity that the fix has answered, where each workload has a
    -- device once among its disks; for an etcd client that keeps its promises and an encoding that
    -- decodes what it has encoded.
    pub storage_fix-Settled :
        (n : String) (ws : List core.Raw) (st st' : kv.State) (r : InfoResponse)
        → DecodesDistinct ws
        → fix_node_resource core s n ws st ≡ (ok r, st')
        → Settled n ws st' r
    unfolding fix_node_resource
    storage_fix-Settled n ws st st' r distinct h = elim (compare_cases n ws st) [
      | inr (f, t, c) ↦ absurd (refused (sym (>>=-err (compare_usage core s n ws) _ st c) ∙ h))
      | inl (info, ms, stored, g, d, u, c) ↦
          let usage = add_workloads no_usage ms in
          let w = sym (>>=-ok (compare_usage core s n ws) _ st c) ∙ h in
          elim (List-cases (diffs_of stored usage)) [
            | inl nil ↦ unwritten n ws ms info stored st st' r g d u nil (rw nil at w)
            | inr (x, diffs, some_diffs) ↦
                written n ws ms info stored x diffs st st' r d (distinct ms d) (rw some_diffs at w)
          ]
    ]
