-- ===== src/Storage/Plugin.antt =====
-- The plugin verbs of storage/node.go that write a node, and those that only hand out what is stored.
-- Maps that a response or core wraps are plain here; log lines are left out.
pub mod Histories
pub mod Compare
use resource_extend.Base.{
  ℕ, ◌*◌, String, Bool, true, false, not, ◌&&◌, ◌||◌, List, [], ◌∷◌, Option, none, some,
  if◌then◌else◌, map,
}
use resource_extend.Base.Int.{ℤ, pos, eqb_ℤ, sub_ℕ, pos_part, neg_part, quo}
use resource_extend.Base.Word.{add64, wrap}
use resource_extend.Base.Dict.{Dict, ◌=s◌}
use resource_extend.Errors.{Result, ok, err, other, invalid_engine_args, empty_node_name, and_then}
use resource_extend.Action.{Action, pure, lift, reads, ◌>>=◌, ◌>>◌}
use resource_extend.Nodestore.{Kv, Store, get_or_empty, get_multi, put, delete, check_absent}
use resource_extend.Storage.Volumes.{total, remove_empty}
use resource_extend.Storage.Disk.{Disk, Disks}
use resource_extend.Storage.Node.{
  NodeResource, NodeResourceInfo, NodeResourceRequest, WorkloadUsage, new_node_resource_info,
  validate, skip_empty, calculate_node_resource, empty_resource,
}

-- What the verbs use of core: raw parameters, and how they are parsed.
pub record Core : Type 1 where
  pub Raw : Type 0
  pub parse_resource : Raw → Result NodeResource
  pub parse_request : Raw → Result NodeResourceRequest
  pub parse_workload : Raw → Result WorkloadUsage
  pub is_set : Raw → String → Bool

-- The JSON encoding of the node's record, and `utils.Tail` of core.
pub record Encoding : Type 0 where
  pub marshal : NodeResourceInfo → Result String
  pub unmarshal : String → NodeResourceInfo → Result NodeResourceInfo
  pub tail : String → String

-- newStore of storage/storage.go
abbrev pub new_store : Kv → Encoding → Store NodeResourceInfo
new_store kv e = record {
  kv = kv;
  key_prefix = "/resource/storage/";
  info = record {
    new_info = new_node_resource_info;
    validate = validate;
    marshal = e.marshal;
    unmarshal = e.unmarshal;
  };
  tail = e.tail;
}

pub record Changed : Type 0 where
  pub before : NodeResource
  pub after : NodeResource

-- A field of a nil pointer, which panics.
abbrev pub deref : Option NodeResource → Result NodeResource
deref none = err (other "nil pointer dereference")
deref (some r) = ok r

-- `total * rate / 10`
unfoldable pub storage_share : ℤ → ℤ
storage_share t = quo (wrap (sub_ℕ (8 * pos_part t) (8 * neg_part t))) (pos 10)

unfoldable pub with_default_storage : Option ℤ → ℤ → ℤ
unfolding storage_share
with_default_storage none storage = storage
with_default_storage (some t) storage = if eqb_ℤ storage (pos 0) then storage_share t else storage

unfoldable pub contains : String → List String → Bool
contains s [] = false
contains s (t ∷ ts) = (t =s s) || contains s ts

unfoldable pub delete_disks : List String → Disks → Disks
unfolding contains
delete_disks names [] = []
delete_disks names (disk ∷ d) =
    let rest = delete_disks names d in if contains disk.device names then rest else disk ∷ rest

-- `if len(req.RMDisks) > 0`
unfoldable pub removing : List String → NodeResource → NodeResource
unfolding delete_disks
removing [] capacity = capacity
removing (name ∷ names) capacity = record capacity {
  disks = delete_disks (name ∷ names) capacity.disks;
}

abbrev pub is_refused : List String → Bool → Bool
is_refused [] delta = false
is_refused (name ∷ names) delta = delta

-- What the request does to the capacity before the change, and the request that is then applied.
unfoldable pub prepare :
    Bool
    → Option NodeResourceRequest
    → NodeResource
    → Result (Option NodeResourceRequest × NodeResource)
unfolding removing
prepare delta none capacity = ok (none, capacity)
prepare delta (some req) capacity =
    let left = removing req.rm_disks capacity in
    if is_refused req.rm_disks delta
    then err invalid_engine_args
    else ok (if delta then some req else some (skip_empty req left), left)

unfoldable pub trimmed : Bool → NodeResource → NodeResource
trimmed delta r = if delta then record r { volumes = remove_empty r.volumes } else r

module _ (core : Core) (s : Store NodeResourceInfo) where
  open core use {Raw}
  open s use {kv}

  unfoldable pub parse_workloads : List Raw → Result (List WorkloadUsage)
  parse_workloads [] = ok []
  parse_workloads (r ∷ rs) =
      let rest = parse_workloads rs in
      and_then (core.parse_workload r) (λ w. and_then rest (λ ws. ok (w ∷ ws)))

  unfoldable pub parse_request_option : Option Raw → Result (Option NodeResourceRequest)
  parse_request_option none = ok none
  parse_request_option (some r) = and_then (core.parse_request r) (λ req. ok (some req))

  unfoldable pub parse_resource_option : Option Raw → Result (Option NodeResource)
  parse_resource_option none = ok none
  parse_resource_option (some r) = and_then (core.parse_resource r) (λ n. ok (some n))

  unfoldable pub parse_node_resource_infos :
      Option Raw → Option Raw → Result (Option NodeResourceRequest × Option NodeResource)
  unfolding parse_request_option parse_resource_option
  parse_node_resource_infos resource resource_request =
      and_then (parse_request_option resource_request)
        (λ req. and_then (parse_resource_option resource) (λ n. ok (req, n)))

  -- A full resource in a rewrite without delta is taken as it is.
  unfoldable pub rollback : Option Raw → Option Raw → Bool → Bool → Option NodeResource
  rollback none (some r) false false =
      if core.is_set r "volumes" && core.is_set r "disks" && core.is_set r "storage"
      then elim (core.parse_resource r) [ ok n ↦ some n | err e ↦ none ]
      else none
  rollback resource resource_request delta incr = none

  unfoldable pub capacity_inputs :
      Option NodeResource
      → Option Raw
      → Option Raw
      → Result (Option NodeResourceRequest × Option NodeResource)
  unfolding parse_node_resource_infos
  capacity_inputs (some n) resource resource_request = ok (none, some n)
  capacity_inputs none resource resource_request =
      parse_node_resource_infos resource resource_request

  unfoldable pub add_node : String → Raw → Option ℤ → Action kv.State NodeResource
  unfolding with_default_storage
  add_node nodename resource storage_total = do
    reads (check_absent s nodename)
    req ← lift (core.parse_request resource)
    let capacity : NodeResource = record {
      volumes = req.volumes;
      disks = req.disks;
      storage = with_default_storage storage_total req.storage;
    }
    let info : NodeResourceInfo = record { capacity = some capacity; usage = some empty_resource }
    put s nodename info
    done ← lift (s.info.validate info)
    lift (deref done.capacity)

  unfoldable pub remove_node : String → Action kv.State (Unit {0})
  remove_node nodename = delete s nodename

  unfoldable pub set_node_resource_capacity :
      String → Option Raw → Option Raw → Bool → Bool → Action kv.State Changed
  unfolding rollback capacity_inputs prepare trimmed
  set_node_resource_capacity nodename resource resource_request delta incr = do
    inputs ←
        lift (
          capacity_inputs (rollback resource resource_request delta incr) resource resource_request)
    info ← reads (get_or_empty s nodename)
    before ← lift (deref info.capacity)
    prepared ← lift (prepare delta (inputs.0) before)
    let changed = calculate_node_resource (prepared.0) (inputs.1) (some (prepared.1)) [] delta incr
    let next : NodeResourceInfo = record {
      capacity = some (trimmed delta changed);
      usage = info.usage;
    }
    put s nodename next
    done ← lift (s.info.validate next)
    after ← lift (deref done.capacity)
    pure (record { before = before; after = after })

  unfoldable pub set_node_resource_usage :
      String → Option Raw → Option Raw → List Raw → Bool → Bool → Action kv.State Changed
  unfolding parse_node_resource_infos parse_workloads
  set_node_resource_usage nodename resource resource_request workloads delta incr = do
    inputs ← lift (parse_node_resource_infos resource resource_request)
    ws ← lift (parse_workloads workloads)
    info ← reads (get_or_empty s nodename)
    before ← lift (deref info.usage)
    let changed = calculate_node_resource (inputs.0) (inputs.1) (some before) ws delta incr
    let next : NodeResourceInfo = record { capacity = info.capacity; usage = some changed }
    put s nodename next
    done ← lift (s.info.validate next)
    after ← lift (deref done.usage)
    pure (record { before = before; after = after })

  unfoldable pub set_node_resource_info : String → Raw → Raw → Action kv.State (Unit {0})
  set_node_resource_info nodename capacity usage = do
    c ← lift (core.parse_resource capacity)
    u ← lift (core.parse_resource usage)
    put s nodename (record {
      capacity = some (record c { storage = add64 c.storage (total c.volumes) });
      usage = some u;
    })

  unfoldable pub get_nodes_resource_info : List String → Action kv.State (Dict NodeResourceInfo)
  get_nodes_resource_info nodenames = reads (get_multi s nodenames)

  unfoldable pub get_most_idle_node : List String → Result (String × ℤ)
  get_most_idle_node [] = err empty_node_name
  get_most_idle_node (nodename ∷ nodenames) = ok (nodename, pos 1)
