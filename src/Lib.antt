-- ===== src/Lib.antt =====
-- The resource plugins of the repository: how many workloads a node can take, what each of them
-- gets, and what a node has in use, for GPUs and for storage.
--
-- Parts. Both plugins keep one record for each node, its capacity and its usage, in etcd through
-- the package nodestore. The verbs of a plugin decode a request, read the record, compute with the
-- types of the plugin, and write the record back; validation stands between them and etcd.
--
-- - Base: shared names, signed integers over the native numbers (Int), `int64` with its wrap-around
--   (Word), quotients (Quotient), and Go maps as association lists (Dict). Errors and Action hold
--   error values, results, and calls on a store as state passing; Action.Keeps has rules for what
--   calls keep.
-- - Nodestore: nodestore/nodestore.go, each method under its own name (Get is get, GetMulti is
--   get_multi). Laws, Multi and Stored state what it promises.
-- - Gpu.Types: gpu/types/gpu.go, gpu/types/node.go and gpu/types/workload.go. Gpu.Alloc and
--   Gpu.Realloc: doAlloc, doGetNodeDeployCapacity and CalculateRealloc of gpu/calculate.go and
--   gpu/node.go. Gpu.Resource: calculateNodeResource and the comparison in getNodeResourceInfo.
--   Gpu.Store: gpu/gpu.go. Gpu.Plugin and Gpu.Queries: the verbs of gpu/node.go and
--   gpu/calculate.go. Gpu.Histories runs calls of the verbs in any order, Gpu.Fixing follows
--   FixNodeResource.
-- - Storage.Volumes, Storage.Binding and Storage.Disk: storage/types/volume.go and
--   storage/types/disk.go. Storage.Node: storage/types/node.go, with calculateNodeResource of
--   storage/node.go. Storage.Workload: storage/types/workload.go.
-- - Storage.Schedule: storage/schedule/schedule.go. The module itself has the classes of bindings and
--   the disk quota, Host the state that plans are made on, Plans the plan for one workload,
--   Capacity how many plans there are, with Capacity.Passes (applyMountPasses),
--   Capacity.Promote (promote) and Capacity.Allocate (getUnlimitedPlans and getVolumePlans), and
--   Affinity the plans that keep a workload on its volumes (getAffinityPlan). Entry has the functions
--   that other packages call.
-- - Storage.Calculate: doAlloc of storage/calculate.go and storage/utils.go, with Realloc for
--   CalculateRealloc and Deploy for doGetNodeDeployCapacity of storage/node.go. Storage.Usage: what
--   workloads use, and the comparison in getNodeResourceInfo. Storage.Disk.Text and Storage.Parse:
--   the text of a disk, and how bindings and requests are read from raw parameters.
-- - Storage.Plugin: the verbs of storage/node.go that write, with Plugin.Compare for
--   GetNodeResourceInfo and FixNodeResource. Storage.Queries: GetNodesDeployCapacity, and the verbs
--   of storage/calculate.go.
-- - Metrics, Storage.Metrics and Gpu.Metrics: storage/metrics.go and gpu/metrics.go. PluginCmd: the
--   handlers of plugincmd, each under its own name, with PluginCmd.Commands for how a command runs
--   one and for the table. PluginCmd.Gpu and PluginCmd.Storage: the programs of cmd/resource-gpu and
--   cmd/resource-storage, each its plugin behind the interface of the commands.
--   PluginCmd.Invariant: what runs of a program keep when every verb of its plugin keeps it.
--   Version: version/version.go.
-- - The modules named Examples, HistoryExamples, ScheduleExamples, StorageExamples and VerbExamples
--   apply the results at concrete data.
--
-- Conventions. Numbers of type int and int64 are integers of 64 bits, and every addition and
-- subtraction of the source wraps around. A map is a list of entries; a `range` goes through the
-- list in its order, so what is stated of every list holds of every order. A nil map or list is
-- empty (but for the stored usage of a gpu node, where a flag tells them apart), a copy is the value
-- itself, and a change through a pointer is a new value. Loops are recursion on the list or the
-- count that they go through, so there is no fuel. A nil pointer to
-- a resource is none, and reading a field of one is an error where the source panics. Errors keep
-- their sentinel and lose their message. Sorting by device inserts; the source's sort is not
-- stable, which differs only where a device stands twice. In the scheduler a disk is named by its
-- place in the list of the host, which stands for its pointer, and the heap of volumes is a sorted
-- list, as volumes differ in their device. The loop of promote has as many rounds as there are
-- unused volumes, each of which takes one away, and a binary search as many as its list is long.
-- The text of a number has at most 20 digits, and an `int64` has 19. Numbers of plans and of
-- deployments are natural numbers; what the storage plugin answers to a negative number of
-- deployments, for which it has no branch, is a parameter.
--
-- Parameters. The etcd client (Kv, with its promises in IsKv), the JSON encoding (with the promise
-- that what was encoded decodes to itself), the last part of a key (tail), and what the plugins
-- use of the package core: access to raw parameters, the decoding of structures, the reading of a
-- size (which reads a plain number up to 2 ^ 53 exactly) and the division of floats. What a run of a
-- program reads (the config, the standard input), the encoding of what it prints and the names that
-- core gives to the verbs are parameters of PluginCmd. The share of a
-- monopoly volume that a request gets, which the code computes in floats, is a parameter too.
--
-- Not modelled: the command line library that Main hands its table to, log lines, dialling etcd, and
-- the JSON methods of bindings and plans, which hand their texts to the encoding.
pub mod Base
pub mod Errors
pub mod Action
pub mod Nodestore
pub mod Gpu
pub mod Storage
pub mod Metrics
pub mod PluginCmd
pub mod Version
