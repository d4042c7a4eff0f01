-- ===== src/Gpu/Histories.antt =====
-- Histories of calls of the gpu plugin: every stored info validates, whatever is called in which
-- order and whether the calls fail or not; and what a call has written is what later calls read.
use resource_extend.Base.{String, Bool, ◌≡◌, List, [], ◌∷◌, Option, arith}
use resource_extend.Errors.{ok}
use resource_extend.Nodestore.{Kv, Store, put}
use resource_extend.Nodestore.Laws.{IsKv, RoundTrips}
use resource_extend.Nodestore.Stored.{AllStored, put-AllStored, delete-AllStored}
use resource_extend.Action.Keeps.{Keeps, call_parts, Keeps-bind, Keeps-pure}
use resource_extend.Gpu.Types.{ProdCountMap, NodeResourceInfo, validate_info}
use resource_extend.Gpu.Resource.{Diff}
use resource_extend.Gpu.Store.{Encoding, checked, new_store}
use resource_extend.Gpu.Plugin.{
  Core, Changed, InfoResponse, add_node, remove_node, set_node_resource_capacity,
  set_node_resource_usage, set_node_resource_info, fix_node_resource, compare_usage, write_fix,
}

-- A call of a verb that writes, with its arguments.
pub data Call (core : Core) : Type 0 where
  adds : String → core.Raw → Call core
  removes : String → Call core
  sets_capacity : String → Option core.Raw → Option core.Raw → Bool → Bool → Call core
  sets_usage : String → Option core.Raw → Option core.Raw → List core.Raw → Bool → Bool → Call core
  sets_info : String → core.Raw → core.Raw → Call core
  fixes : String → List core.Raw → Call core

module _ (core : Core) (kv : Kv) (e : Encoding) where
  abbrev s : Store NodeResourceInfo
  s = new_store kv e

  -- The store after a call, whatever the call answered.
  pub step : Call core → kv.State → kv.State
  step (adds n r) st = (add_node core s n r st).1
  step (removes n) st = (remove_node core s n st).1
  step (sets_capacity n r q delta incr) st =
      (set_node_resource_capacity core s n r q delta incr st).1
  step (sets_usage n r q ws delta incr) st =
      (set_node_resource_usage core s n r q ws delta incr st).1
  step (sets_info n c u) st = (set_node_resource_info core s n c u st).1
  step (fixes n ws) st = (fix_node_resource core s n ws st).1

  pub run : List (Call core) → kv.State → kv.State
  run [] st = st
  run (c ∷ cs) st = run cs (step c st)

  abbrev pub AllValid : kv.State → Type 0
  AllValid = AllStored s (λ info. validate_info info ≡ ok tt)

  module _ (laws : IsKv kv) (trip : RoundTrips s.info) where
    checked_guarantees : (i j : NodeResourceInfo) → checked i ≡ ok j → validate_info j ≡ ok tt
    unfolding checked
    checked_guarantees i j h = ground arith

    abbrev Valid : NodeResourceInfo → Type 0
    Valid info = validate_info info ≡ ok tt

    put_safe :
        (n : String) (i : NodeResourceInfo) → Keeps (AllStored s Valid) (Unit {0}) (put s n i)
    put_safe n i = record { apply = put-AllStored s Valid laws trip checked_guarantees n i }

    pub add_safe :
        (n : String) (r : core.Raw) → Keeps (AllStored s Valid) ProdCountMap (add_node core s n r)
    unfolding add_node
    add_safe n r = search (call_parts, put_safe)

    pub set_capacity_safe :
        (n : String) (r q : Option core.Raw) (delta incr : Bool)
        → Keeps (AllStored s Valid) Changed (set_node_resource_capacity core s n r q delta incr)
    unfolding set_node_resource_capacity
    set_capacity_safe n r q delta incr = search (call_parts, put_safe) depth 9

    pub set_usage_safe :
        (n : String) (r q : Option core.Raw) (ws : List core.Raw) (delta incr : Bool)
        → Keeps (AllStored s Valid) Changed (set_node_resource_usage core s n r q ws delta incr)
    unfolding set_node_resource_usage
    set_usage_safe n r q ws delta incr = search (call_parts, put_safe) depth 11

    pub set_info_safe :
        (n : String) (c u : core.Raw)
        → Keeps (AllStored s Valid) (Unit {0}) (set_node_resource_info core s n c u)
    unfolding set_node_resource_info
    set_info_safe n c u = search (call_parts, put_safe) depth 9

    write_fix_safe :
        (n : String) (info : NodeResourceInfo) (actual : ProdCountMap) (diffs : List Diff)
        → Keeps (AllStored s Valid) InfoResponse (write_fix core s n info actual diffs)
    unfolding write_fix
    write_fix_safe n info actual [] = Keeps-pure _
    write_fix_safe n info actual (d ∷ diffs) = search (call_parts, put_safe)

    pub compare_safe :
        (n : String) (ws : List core.Raw)
        → Keeps
            (AllStored s Valid)
            (NodeResourceInfo × ProdCountMap × List Diff)
            (compare_usage core s n ws)
    unfolding compare_usage
    compare_safe n ws = search call_parts depth 9

    pub fix_safe :
        (n : String) (ws : List core.Raw)
        → Keeps (AllStored s Valid) InfoResponse (fix_node_resource core s n ws)
    unfolding fix_node_resource
    fix_safe n ws = Keeps-bind _ _ (compare_safe n ws) (λ p. write_fix_safe n p.0 p.1 p.2)

    pub remove_safe : (n : String) → Keeps (AllStored s Valid) (Unit {0}) (remove_node core s n)
    unfolding remove_node
    remove_safe n = record { apply = delete-AllStored s Valid laws trip checked_guarantees n }

    -- Whatever a call of a verb that writes answers, the info of every node still validates.
    step-AllValid : (c : Call core) (st : kv.State) → AllValid st → AllValid (step c st)
    unfolding step
    step-AllValid (adds n r) st all = (add_safe n r).apply st all
    step-AllValid (removes n) st all = (remove_safe n).apply st all
    step-AllValid (sets_capacity n r q delta incr) st all =
        (set_capacity_safe n r q delta incr).apply st all
    step-AllValid (sets_usage n r q ws delta incr) st all =
        (set_usage_safe n r q ws delta incr).apply st all
    step-AllValid (sets_info n c u) st all = (set_info_safe n c u).apply st all
    step-AllValid (fixes n ws) st all = (fix_safe n ws).apply st all

    -- After any history of calls from a state where the info of every node validates, failed calls
    -- and failed writes included, the info of every node validates; for an etcd client that keeps its
    -- promises and an encoding that decodes what it has encoded.
    pub run-AllValid : (cs : List (Call core)) (st : kv.State) → AllValid st → AllValid (run cs st)
    unfolding run
    run-AllValid [] st all = all
    run-AllValid (c ∷ cs) st all = run-AllValid cs (step c st) (step-AllValid c st all)
