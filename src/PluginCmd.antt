-- ===== src/PluginCmd.antt =====
-- plugincmd: a plugin as a program, with one command for each verb. A command loads the config,
-- builds the plugin, decodes the input, calls one verb and prints what it answers. Core's raw
-- parameters and its interface of a plugin are parameters.
pub mod Commands
pub mod Unnamed
pub mod Invariant
pub mod Gpu
pub mod Storage
pub mod Examples
pub mod StorageExamples
use resource_extend.Base.{String, Bool, List, [], ◌∷◌, if◌then◌else◌}
use resource_extend.Base.Int.{ℤ}
use resource_extend.Base.Dict.{◌=s◌}
use resource_extend.Errors.{Result, ok, err, empty_node_name, is_node_not_exists}
use resource_extend.Action.{Action, lift, pure, ◌>>=◌}
use resource_extend.Metrics.{NodeRef}

-- Raw parameters of core: what is under a key, as each of the types. A map that is not there is nil.
pub record Params : Type 1 where
  pub Raw : Type 0
  pub text : Raw → String → String
  pub string_slice : Raw → String → List String
  pub raw_params : Raw → String → Raw
  pub slice_raw_params : Raw → String → List Raw
  pub bool : Raw → String → Bool
  pub int : Raw → String → ℤ
  -- `Decode` of a map to an engine's info, and of what is under a key to node references
  pub Info : Type 0
  pub decode_info : Raw → Result Info
  pub decode_nodes : Raw → String → Result (List NodeRef)

-- core's plugins.Plugin, on a state S; its answers are of one type A.
pub record Plugin (p : Params) (S A : Type 0) : Type 0 where
  pub add_node : String → p.Raw → p.Info → Action S A
  pub remove_node : String → Action S A
  pub get_nodes_deploy_capacity : List String → p.Raw → Action S A
  pub set_node_resource_capacity : String → p.Raw → p.Raw → Bool → Bool → Action S A
  pub get_node_resource_info : String → List p.Raw → Action S A
  -- the response that stands beside an error of this verb
  pub no_response : A
  pub get_nodes_resource_info : List String → Action S A
  pub set_node_resource_info : String → p.Raw → p.Raw → Action S A
  pub set_node_resource_usage : String → p.Raw → p.Raw → List p.Raw → Bool → Bool → Action S A
  pub get_most_idle_node : List String → Action S A
  pub fix_node_resource : String → List p.Raw → Action S A
  pub calculate_deploy : String → ℤ → p.Raw → Action S A
  pub calculate_realloc : String → p.Raw → p.Raw → Action S A
  pub get_metrics_description : Action S A
  pub get_metrics : List NodeRef → Action S A

abbrev pub Handler : Params → Type 0 → Type 0 → Type 0
Handler p S A = Plugin p S A → p.Raw → Action S A

-- `if len(nodenames) == 0`
abbrev non_empty : List String → Result (List String)
non_empty [] = err empty_node_name
non_empty (n ∷ ns) = ok (n ∷ ns)

unfoldable pub nodename : (p : Params) → p.Raw → Result String
nodename p input = let n = p.text input "nodename" in if n =s "" then err empty_node_name else ok n

unfoldable pub nodenames : (p : Params) → p.Raw → Result (List String)
nodenames p input = non_empty (p.string_slice input "nodenames")

-- A node the plugin never saw has no resource of this kind, which is not a failure.
unfoldable pub unless_missing : {S A : Type 0} → A → Result A × S → Result A × S
unless_missing no_response (ok resp, st) = (ok resp, st)
unless_missing no_response (err e, st) =
    if is_node_not_exists e then (ok no_response, st) else (err e, st)

module _ {p : Params} {S A : Type 0} where
  unfoldable pub add_node : Handler p S A
  add_node plugin input = do
    node ← lift (nodename p input)
    info ← lift (p.decode_info (p.raw_params input "info"))
    plugin.add_node node (p.raw_params input "resource") info

  unfoldable pub remove_node : Handler p S A
  remove_node plugin input = do node ← lift (nodename p input); plugin.remove_node node

  unfoldable pub get_nodes_deploy_capacity : Handler p S A
  get_nodes_deploy_capacity plugin input = do
    nodes ← lift (nodenames p input)
    plugin.get_nodes_deploy_capacity nodes (p.raw_params input "workload_resource")

  unfoldable pub set_node_resource_capacity : Handler p S A
  set_node_resource_capacity plugin input = do
    node ← lift (nodename p input)
    plugin.set_node_resource_capacity node (p.raw_params input "resource")
        (p.raw_params input "resource_request") (p.bool input "delta") (p.bool input "incr")

  abbrev info_or_null : Plugin p S A → p.Raw → String → Action S A
  info_or_null plugin input node st =
      unless_missing plugin.no_response
        (plugin.get_node_resource_info node (p.slice_raw_params input "workloads_resource") st)

  unfoldable pub get_node_resource_info : Handler p S A
  unfolding unless_missing
  get_node_resource_info plugin input = do
    node ← lift (nodename p input)
    info_or_null plugin input node

  unfoldable pub get_nodes_resource_info : Handler p S A
  get_nodes_resource_info plugin input = do
    nodes ← lift (nodenames p input)
    plugin.get_nodes_resource_info nodes

  unfoldable pub set_node_resource_info : Handler p S A
  set_node_resource_info plugin input = do
    node ← lift (nodename p input)
    plugin.set_node_resource_info node (p.raw_params input "capacity") (p.raw_params input "usage")

  unfoldable pub set_node_resource_usage : Handler p S A
  set_node_resource_usage plugin input = do
    node ← lift (nodename p input)
    plugin.set_node_resource_usage node (p.raw_params input "resource")
        (p.raw_params input "resource_request") (p.slice_raw_params input "workloads_resource")
        (p.bool input "delta") (p.bool input "incr")

  unfoldable pub get_most_idle_node : Handler p S A
  get_most_idle_node plugin input = do
    nodes ← lift (nodenames p input)
    plugin.get_most_idle_node nodes

  unfoldable pub fix_node_resource : Handler p S A
  fix_node_resource plugin input = do
    node ← lift (nodename p input)
    plugin.fix_node_resource node (p.slice_raw_params input "workloads_resource")

  unfoldable pub calculate_deploy : Handler p S A
  calculate_deploy plugin input = do
    node ← lift (nodename p input)
    plugin.calculate_deploy node (p.int input "deploy_count")
        (p.raw_params input "workload_resource_request")

  unfoldable pub calculate_realloc : Handler p S A
  calculate_realloc plugin input = do
    node ← lift (nodename p input)
    plugin.calculate_realloc node (p.raw_params input "workload_resource")
        (p.raw_params input "workload_resource_request")

  unfoldable pub get_metrics_description : Handler p S A
  get_metrics_description plugin input = plugin.get_metrics_description

  unfoldable pub get_metrics : Handler p S A
  get_metrics plugin input = do
    nodes ← lift (p.decode_nodes input "nodes")
    plugin.get_metrics nodes

-- An answer of a verb, as one of the plugin's answers.
unfoldable pub respond : {S A B : Type 0} → (A → B) → Action S A → Action S B
respond f m = m >>= λ a. pure (f a)
