-- ===== src/Storage/Plugin/Histories.antt =====
-- Histories of calls of the storage plugin.
use resource_extend.Base.{String, Bool, ◌≡◌, List, [], ◌∷◌, Option, some}
use resource_extend.Base.Int.{ℤ}
use resource_extend.Nodestore.{Kv, Store, put}
use resource_extend.Nodestore.Laws.{IsKv, RoundTrips}
use resource_extend.Nodestore.Stored.{AllStored, put-AllStored, delete-AllStored}
use resource_extend.Action.Keeps.{Keeps, Keeps-bind, call_parts}
use resource_extend.Storage.Node.{NodeResource, NodeResourceInfo}
use resource_extend.Storage.Node.Valid.{IsWithin, validate-IsWithin}
use resource_extend.Storage.Usage.{WorkloadsUsage, Diff}
use resource_extend.Storage.Plugin.Compare.{
  InfoResponse, compare_usage, write_fix, fix_node_resource,
}
use resource_extend.Storage.Plugin.{
  Core, Encoding, new_store, Changed, add_node, remove_node, set_node_resource_capacity,
  set_node_resource_usage, set_node_resource_info,
}

-- A call of a verb that writes, with its arguments.
pub data Call (core : Core) : Type 0 where
  adds : String → core.Raw → Option ℤ → Call core
  removes : String → Call core
  sets_capacity : String → Option core.Raw → Option core.Raw → Bool → Bool → Call core
  sets_usage : String → Option core.Raw → Option core.Raw → List core.Raw → Bool → Bool → Call core
  sets_info : String → core.Raw → core.Raw → Call core
  fixes : String → List core.Raw → Call core

-- A record with a usage within its capacity, as IsWithin says it.
abbrev pub Within : NodeResourceInfo → Type 0
Within m =
    (capacity usage : NodeResource) × (m.capacity ≡ some capacity)
    × (m.usage ≡ some usage)
    × IsWithin capacity usage

module _ (core : Core) (kv : Kv) (e : Encoding) where
  abbrev store : Store NodeResourceInfo
  store = new_store kv e

  -- The store after a call, whatever the call answered.
  pub after_call : Call core → kv.State → kv.State
  after_call (adds n r t) st = (add_node core store n r t st).1
  after_call (removes n) st = (remove_node core store n st).1
  after_call (sets_capacity n r q delta incr) st =
      (set_node_resource_capacity core store n r q delta incr st).1
  after_call (sets_usage n r q ws delta incr) st =
      (set_node_resource_usage core store n r q ws delta incr st).1
  after_call (sets_info n c u) st = (set_node_resource_info core store n c u st).1
  after_call (fixes n ws) st = (fix_node_resource core store n ws st).1

  pub after_calls : List (Call core) → kv.State → kv.State
  after_calls [] st = st
  after_calls (c ∷ cs) st = after_calls cs (after_call c st)

  abbrev pub AllWithin : kv.State → Type 0
  AllWithin = AllStored store Within

  module _ (laws : IsKv kv) (trip : RoundTrips store.info) where
    put_safe :
        (n : String) (i : NodeResourceInfo)
        → Keeps (AllStored store Within) (Unit {0}) (put store n i)
    put_safe n i = record { apply = put-AllStored store Within laws trip validate-IsWithin n i }

    pub add_safe :
        (n : String) (r : core.Raw) (t : Option ℤ)
        → Keeps (AllStored store Within) NodeResource (add_node core store n r t)
    unfolding add_node
    add_safe n r t = search (call_parts, put_safe) depth 9

    pub set_capacity_safe :
        (n : String) (r q : Option core.Raw) (delta incr : Bool)
        → Keeps
            (AllStored store Within)
            Changed
            (set_node_resource_capacity core store n r q delta incr)
    unfolding set_node_resource_capacity
    set_capacity_safe n r q delta incr = search (call_parts, put_safe) depth 15

    pub set_usage_safe :
        (n : String) (r q : Option core.Raw) (ws : List core.Raw) (delta incr : Bool)
        → Keeps
            (AllStored store Within)
            Changed
            (set_node_resource_usage core store n r q ws delta incr)
    unfolding set_node_resource_usage
    set_usage_safe n r q ws delta incr = search (call_parts, put_safe) depth 15

    pub set_info_safe :
        (n : String) (c u : core.Raw)
        → Keeps (AllStored store Within) (Unit {0}) (set_node_resource_info core store n c u)
    unfolding set_node_resource_info
    set_info_safe n c u = search (call_parts, put_safe) depth 9

    pub remove_safe :
        (n : String) → Keeps (AllStored store Within) (Unit {0}) (remove_node core store n)
    unfolding remove_node
    remove_safe n = record { apply = delete-AllStored store Within laws trip validate-IsWithin n }

    pub compare_safe :
        (n : String) (ws : List core.Raw)
        → Keeps
            (AllStored store Within)
            (NodeResourceInfo × NodeResource × WorkloadsUsage × List Diff)
            (compare_usage core store n ws)
    unfolding compare_usage
    compare_safe n ws = search call_parts depth 12

    write_fix_safe :
        (n : String) (i : NodeResourceInfo) (stored : NodeResource) (usage : WorkloadsUsage)
        (diffs : List Diff)
        → Keeps (AllStored store Within) InfoResponse (write_fix core store n i stored usage diffs)
    unfolding write_fix
    write_fix_safe n i stored usage [] = search call_parts depth 9
    write_fix_safe n i stored usage (d ∷ diffs) = search (call_parts, put_safe) depth 15

    pub fix_safe :
        (n : String) (ws : List core.Raw)
        → Keeps (AllStored store Within) InfoResponse (fix_node_resource core store n ws)
    unfolding fix_node_resource
    fix_safe n ws =
        Keeps-bind _ _ (compare_safe n ws)
          (λ found. write_fix_safe n found.0 found.1 found.2 found.3)

    after_call-AllWithin :
        (c : Call core) (st : kv.State) → AllWithin st → AllWithin (after_call c st)
    unfolding after_call
    after_call-AllWithin (adds n r t) st all = (add_safe n r t).apply st all
    after_call-AllWithin (removes n) st all = (remove_safe n).apply st all
    after_call-AllWithin (sets_capacity n r q delta incr) st all =
        (set_capacity_safe n r q delta incr).apply st all
    after_call-AllWithin (sets_usage n r q ws delta incr) st all =
        (set_usage_safe n r q ws delta incr).apply st all
    after_call-AllWithin (sets_info n c u) st all = (set_info_safe n c u).apply st all
    after_call-AllWithin (fixes n ws) st all = (fix_safe n ws).apply st all

    -- After any history of calls that add, remove, set or fix nodes, failed calls and failed writes
    -- included, from a state where this holds, the stored record of every node has a capacity and a
    -- usage; on each volume and disk that the capacity has, the usage is not negative and within the
    -- capacity; both storages are not negative; and each disk of the usage is one of the capacity. This is
    -- for an etcd client that keeps its promises and an encoding that decodes what it has encoded.
    pub after_calls-AllWithin :
        (cs : List (Call core)) (st : kv.State) → AllWithin st → AllWithin (after_calls cs st)
    unfolding after_calls
    after_calls-AllWithin [] st all = all
    after_calls-AllWithin (c ∷ cs) st all =
        after_calls-AllWithin cs (after_call c st) (after_call-AllWithin c st all)
