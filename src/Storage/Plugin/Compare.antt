-- ===== src/Storage/Plugin/Compare.antt =====
-- GetNodeResourceInfo and FixNodeResource of storage/node.go, with getNodeResourceInfo.
pub mod Fixing
use resource_extend.Base.{String, List, [], ◌∷◌, Option, some}
use resource_extend.Action.{Action, pure, lift, reads, ◌>>=◌, ◌>>◌}
use resource_extend.Nodestore.{Store, get, put}
use resource_extend.Storage.Node.{NodeResource, NodeResourceInfo}
use resource_extend.Storage.Usage.{
  WorkloadsUsage, Diff, no_usage, add_workloads, diffs_of, compared_usage,
}
use resource_extend.Storage.Plugin.{Core, parse_workloads, deref}

pub record InfoResponse : Type 0 where
  pub capacity : NodeResource
  pub usage : NodeResource
  pub diffs : List Diff

module _ (core : Core) (s : Store NodeResourceInfo) where
  open core use {Raw}
  open s use {kv}

  -- The record, its usage, what the workloads use, and how the two differ.
  unfoldable pub compare_usage :
      String
      → List Raw
      → Action kv.State (NodeResourceInfo × NodeResource × WorkloadsUsage × List Diff)
  unfolding add_workloads diffs_of
  compare_usage nodename workloads = do
    info ← reads (get s nodename)
    ws ← lift (parse_workloads core s workloads)
    stored ← lift (deref info.usage)
    let usage = add_workloads no_usage ws
    pure (info, stored, usage, diffs_of stored usage)

  unfoldable pub get_node_resource_info : String → List Raw → Action kv.State InfoResponse
  unfolding compare_usage
  get_node_resource_info nodename workloads = do
    (info, stored, usage, diffs) ← compare_usage nodename workloads
    capacity ← lift (deref info.capacity)
    pure (record { capacity = capacity; usage = stored; diffs = diffs })

  -- `if len(diffs) != 0`
  unfoldable pub write_fix :
      String
      → NodeResourceInfo
      → NodeResource
      → WorkloadsUsage
      → List Diff
      → Action kv.State InfoResponse
  unfolding compared_usage
  write_fix nodename info stored usage [] = do
    capacity ← lift (deref info.capacity)
    pure (record { capacity = capacity; usage = stored; diffs = [] })
  write_fix nodename info stored usage (d ∷ diffs) = do
    let next : NodeResourceInfo = record {
      capacity = info.capacity;
      usage = some (compared_usage stored usage);
    }
    put s nodename next
    done ← lift (s.info.validate next)
    capacity ← lift (deref done.capacity)
    actual ← lift (deref done.usage)
    pure (record { capacity = capacity; usage = actual; diffs = d ∷ diffs })

  unfoldable pub fix_node_resource : String → List Raw → Action kv.State InfoResponse
  unfolding compare_usage write_fix
  fix_node_resource nodename workloads = do
    (info, stored, usage, diffs) ← compare_usage nodename workloads
    write_fix nodename info stored usage diffs
