-- ===== src/PluginCmd/Commands.antt =====
-- plugincmd/plugincmd.go: how a command runs a handler, and the table of the commands. The command
-- line itself, the standard streams and the JSON encoding are parameters, and so are the names
-- that core gives to the verbs.
use resource_extend.Base.{ℕ, String, List, [], ◌∷◌, ◌++◌, map}
use resource_extend.Errors.{Error, Result, ok, err}
use resource_extend.Action.{Action, lift, ◌>>=◌}
use resource_extend.PluginCmd
use resource_extend.PluginCmd.{Params, Plugin, Handler}

abbrev pub exit_code : ℕ
exit_code = 128

-- What a run of the program leaves behind: a printed text, or an exit with a code.
pub data Outcome : Type 0 where
  printed : String → Outcome
  exited : ℕ → Error → Outcome

-- What is printed as JSON: an answer of the plugin, its name, or the names of the verbs.
pub data Output (A : Type 0) : Type 0 where
  answer : A → Output A
  text : String → Output A
  texts : List String → Output A

-- What a run uses of core and of the Go library.
pub record Host (p : Params) (A : Type 0) : Type 1 where
  pub Config : Type 0
  pub load_config : String → Result Config
  pub decode : String → Result p.Raw
  pub marshal : Output A → Result String

-- The names of the verbs (plugins/binary of core).
pub record VerbNames : Type 0 where
  pub add_node : String
  pub remove_node : String
  pub get_nodes_deploy_capacity : String
  pub set_node_resource_capacity : String
  pub get_node_resource_info : String
  pub get_nodes_resource_info : String
  pub set_node_resource_info : String
  pub set_node_resource_usage : String
  pub get_most_idle_node : String
  pub fix_node_resource : String
  pub calculate_deploy : String
  pub calculate_realloc : String
  pub get_metrics_description : String
  pub get_metrics : String

-- A command with its action, on what stands on the standard input.
pub record Command (S : Type 0) : Type 0 where
  pub name : String
  pub usage : String
  pub action : String → S → Outcome × S

module _ {p : Params} {A : Type 0} (host : Host p A) where
  pub record Runner (S : Type 0) : Type 0 where
    pub config_path : String
    pub plugin_name : String
    pub new_plugin : host.Config → Result (Plugin p S A)

  unfoldable pub print_json : Output A → Outcome
  print_json out = elim (host.marshal out) [
    | ok data_text ↦ printed data_text
    | err e ↦ exited exit_code e
  ]

module _ {p : Params} {S A : Type 0} (host : Host p A) where
  -- Everything up to the answer. An error of decoding is wrapped in the source.
  unfoldable pub call : Runner host S → Handler p S A → String → Action S A
  call r h input = do
    config ← lift (host.load_config r.config_path)
    plugin ← lift (r.new_plugin config)
    params ← lift (host.decode input)
    h plugin params

  unfoldable pub finish : Result A × S → Outcome × S
  unfolding print_json
  finish (ok out, st) = (print_json host (answer out), st)
  finish (err e, st) = (exited exit_code e, st)

  unfoldable pub serve : Runner host S → Handler p S A → String → S → Outcome × S
  unfolding call finish
  serve r h input st = finish (call r h input st)

  unfoldable pub command : Runner host S → String → String → Handler p S A → Command S
  command r name usage h = record { name = name; usage = usage; action = serve r h }

module _ {p : Params} {S A : Type 0} (host : Host p A) (names : VerbNames) where
  unfoldable pub metrics_commands : Runner host S → List (Command S)
  metrics_commands r =
      command host r names.get_metrics_description "show metrics descriptions"
        PluginCmd.get_metrics_description
      ∷ command host r names.get_metrics "show metrics" PluginCmd.get_metrics
      ∷ []

  unfoldable pub node_commands : Runner host S → List (Command S)
  node_commands r =
      command host r names.add_node "add node" PluginCmd.add_node
      ∷ command host r names.remove_node "remove node" PluginCmd.remove_node
      ∷ command host r names.get_nodes_deploy_capacity "get deploy capacity"
          PluginCmd.get_nodes_deploy_capacity
      ∷ command host r names.set_node_resource_capacity "set node capacity"
          PluginCmd.set_node_resource_capacity
      ∷ command host r names.get_node_resource_info "get node resource info"
          PluginCmd.get_node_resource_info
      ∷ command host r names.get_nodes_resource_info "get nodes resource info"
          PluginCmd.get_nodes_resource_info
      ∷ command host r names.set_node_resource_info "set node resource info"
          PluginCmd.set_node_resource_info
      ∷ command host r names.set_node_resource_usage "set node usage"
          PluginCmd.set_node_resource_usage
      ∷ command host r names.get_most_idle_node "get most idle node" PluginCmd.get_most_idle_node
      ∷ command host r names.fix_node_resource "fix node resource" PluginCmd.fix_node_resource
      ∷ []

  unfoldable pub calculate_commands : Runner host S → List (Command S)
  calculate_commands r =
      command host r names.calculate_deploy "calculate deploy plan" PluginCmd.calculate_deploy
      ∷ command host r names.calculate_realloc "calculate realloc plan" PluginCmd.calculate_realloc
      ∷ []

  unfoldable pub commands : Runner host S → List (Command S)
  unfolding metrics_commands node_commands calculate_commands print_json
  commands r =
      let verbs = metrics_commands r ++ node_commands r ++ calculate_commands r in
      let listed = map (λ (verb : Command S). verb.name) verbs in
      record {
        name = "name";
        usage = "show plugin name";
        action = λ input st. (print_json host (text r.plugin_name), st);
      }
      ∷ record {
        name = "verbs";
        usage = "list the verbs this plugin implements";
        action = λ input st. (print_json host (texts listed), st);
      }
      ∷ verbs
