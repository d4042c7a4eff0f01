-- ===== src/PluginCmd/Examples.antt =====
-- Tests of the commands on the gpu plugin. The standard input is the name of a node here, which uses
-- one card.
use mathlib.Core.List.{Memᴰ}
use resource_extend.Base.{String, false, List, [], ◌∷◌, ◌≡◌, refl, All, if◌then◌else◌}
use resource_extend.Base.Int.{ℤ, pos}
use resource_extend.Base.Dict.{Dict, insert, ◌=s◌}
use resource_extend.Errors.{ok, empty_node_name}
use resource_extend.Nodestore.Examples.{list_kv, list_kv-IsKv, drop_key}
use resource_extend.Gpu.Types.{ProdCountMap, validate_info, validate, is_blank}
use resource_extend.Gpu.HistoryExamples.{
  one_card_encoding, one_card_encoding-RoundTrips, empty-AllValid, marshal_info, marshal_usage,
}
use resource_extend.PluginCmd
use resource_extend.Gpu.Plugin as Verbs
use resource_extend.Action.{◌>>=◌, lift, pure}
use resource_extend.Nodestore.{delete, put, key}
use resource_extend.Gpu.Store.{checked}
use resource_extend.Gpu.Histories.{AllValid}
use resource_extend.PluginCmd.{respond, Params, nodename}
use resource_extend.PluginCmd.Commands.{
  exited, printed, Output, answer, text, texts, Host, VerbNames, Runner, Command, command, commands,
  exit_code, serve, call, finish, print_json, calculate_commands, node_commands, metrics_commands,
}
use resource_extend.PluginCmd.Unnamed.{Starts, unnamed-refused}
use resource_extend.PluginCmd.Gpu.{GpuCore, Answer, core_of, empty, null, gpu_runner, gpu_plugin}
use resource_extend.PluginCmd.Invariant.{start, next}
use resource_extend.PluginCmd.Gpu.Served.{Reached-AllValid}
use resource_extend.PluginCmd.Gpu.Removed.{remove_node-get_node_resource_info}

record Request : Type 0 where
  node : String
  cards : ProdCountMap

abbrev request_params : Params
request_params = record {
  Raw = Request;
  text = λ r k. r.node;
  string_slice = λ r k. [];
  raw_params = λ r k. if k =s "usage" then r else record r { cards = [] };
  slice_raw_params = λ r k. [];
  bool = λ r k. false;
  int = λ r k. pos 1;
  Info = Unit {0};
  decode_info = λ r. ok tt;
  decode_nodes = λ r k. ok [];
}

abbrev request_core : GpuCore request_params
request_core = record {
  decode = λ r. ok r.cards;
  decodes_to_nil = λ r. false;
  is_set = λ r k. false;
  is_nil = λ r. false;
  Float = ℤ;
  advanced_divide = λ a b. a;
  less = λ a b. false;
  max_float = pos 0;
}

abbrev Answers : Type 0
Answers = Answer request_core list_kv one_card_encoding

abbrev shown : Output Answers → String
shown (answer null) = "null"
shown (answer a) = "{}"
shown (text name) = name
shown (texts names) = "[]"

abbrev request_host : Host request_params Answers
request_host = record {
  Config = Unit {0};
  load_config = λ path. ok tt;
  decode = λ name. ok (record { node = name; cards = ("a100", pos 1) ∷ [] });
  marshal = λ out. ok (shown out);
}

abbrev pub verb_names : VerbNames
verb_names = record {
  add_node = "add-node";
  remove_node = "remove-node";
  get_nodes_deploy_capacity = "get-nodes-deploy-capacity";
  set_node_resource_capacity = "set-node-resource-capacity";
  get_node_resource_info = "get-node-resource-info";
  get_nodes_resource_info = "get-nodes-resource-info";
  set_node_resource_info = "set-node-resource-info";
  set_node_resource_usage = "set-node-resource-usage";
  get_most_idle_node = "get-most-idle-node";
  fix_node_resource = "fix-node-resource";
  calculate_deploy = "calculate-deploy";
  calculate_realloc = "calculate-realloc";
  get_metrics_description = "get-metrics-description";
  get_metrics = "get-metrics";
}

abbrev runner : Runner request_host (Dict String)
runner = gpu_runner request_core list_kv one_card_encoding request_host "gpu.yaml" (λ config. ok tt)

abbrev plugin : PluginCmd.Plugin request_params (Dict String) Answers
plugin = gpu_plugin request_core list_kv one_card_encoding

abbrev request_for : String → Request
request_for name = record { node = name; cards = ("a100", pos 1) ∷ [] }

starts : (name : String) → Starts request_host runner plugin name (request_for name)
unfolding gpu_runner
starts name = record { config = tt; loaded = refl; built = refl; decoded = refl }

unnamed-refused_example :
    All
      (λ c. (st : Dict String) → c.action "" st ≡ (exited exit_code empty_node_name, st))
      (calculate_commands request_host verb_names runner)
    × All
        (λ c. (st : Dict String) → c.action "" st ≡ (exited exit_code empty_node_name, st))
        (node_commands request_host verb_names runner)
unnamed-refused_example =
    unnamed-refused request_host verb_names runner plugin "" (request_for "") (starts "") refl refl

abbrev used_node : Dict String
used_node = ("/resource/gpu/n", "a100") ∷ []

removal_lem : call request_host runner PluginCmd.remove_node "n" used_node ≡ (ok empty, [])
unfolding call gpu_runner ◌>>=◌ lift PluginCmd.remove_node nodename Verbs.remove_node respond delete
    key drop_key pure
removal_lem = refl

remove_node-get_node_resource_info_example :
    serve request_host runner PluginCmd.get_node_resource_info "n" [] ≡ (printed "null", [])
unfolding print_json
remove_node-get_node_resource_info_example =
    remove_node-get_node_resource_info request_core list_kv one_card_encoding list_kv-IsKv
      request_host runner "n" "n" (request_for "n") (request_for "n") used_node [] (starts "n")
      (starts "n") refl refl removal_lem

abbrev all_commands : List (Command (Dict String))
all_commands = commands request_host verb_names runner

abbrev sets_info : Command (Dict String)
sets_info =
    command request_host runner "set-node-resource-info" "set node resource info"
      PluginCmd.set_node_resource_info

sets_info_lem : Memᴰ sets_info all_commands
unfolding commands node_commands metrics_commands calculate_commands
sets_info_lem = search (Memᴰ.head, Memᴰ.tail) depth 20

set_lem : (sets_info.action "n" []).1 ≡ used_node
unfolding command serve finish call gpu_runner ◌>>=◌ lift PluginCmd.set_node_resource_info nodename
    Verbs.set_node_resource_info respond put checked validate_info marshal_info marshal_usage
    validate is_blank pure insert key
set_lem = refl

Reached-AllValid_example :
    AllValid (core_of request_core) list_kv one_card_encoding (("/resource/gpu/n", "a100") ∷ [])
Reached-AllValid_example =
    Reached-AllValid request_core list_kv one_card_encoding list_kv-IsKv
      one_card_encoding-RoundTrips request_host verb_names "gpu.yaml" (λ config. ok tt)
      empty-AllValid (next sets_info "n" start sets_info_lem set_lem)
