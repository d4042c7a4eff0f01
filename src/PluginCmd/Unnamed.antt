-- ===== src/PluginCmd/Unnamed.antt =====
-- What the commands do with an input that names no node.
use resource_extend.Base.{String, List, [], ◌≡◌, refl, All}
use resource_extend.Errors.{ok, empty_node_name, err}
use resource_extend.Action.{Action, lift, ◌>>=◌}
use resource_extend.PluginCmd
use resource_extend.PluginCmd.{Params, Plugin, Handler, nodename, nodenames}
use resource_extend.PluginCmd.Commands.{
  exited, exit_code, Host, VerbNames, Runner, Command, call, serve, finish, command, node_commands,
  calculate_commands,
}

-- The config can be loaded, the plugin be built, and the input be decoded.
pub record Starts {p : Params} {S A : Type 0} (host : Host p A) (r : Runner host S)
    (plugin : Plugin p S A) (stdin : String) (input : p.Raw) : Type 0 where
  pub config : host.Config
  pub loaded : host.load_config r.config_path ≡ ok config
  pub built : r.new_plugin config ≡ ok plugin
  pub decoded : host.decode stdin ≡ ok input

-- Such a run is the run of the handler.
pub call-Starts :
    {p : Params} {S A : Type 0} (host : Host p A) (r : Runner host S) (plugin : Plugin p S A)
    (stdin : String) (input : p.Raw) (h : Handler p S A) (st : S)
    → Starts host r plugin stdin input
    → call host r h stdin st ≡ h plugin input st
unfolding call ◌>>=◌ lift
call-Starts host r plugin stdin input h st starts =
    rw (starts.loaded, starts.built, starts.decoded) refl

module _ {p : Params} {S A : Type 0} (plugin : Plugin p S A) (input : p.Raw)
    (no_name : p.text input "nodename" ≡ "")
    (no_names : p.string_slice input "nodenames" ≡ []) where
  abbrev pub Refuses : Handler p S A → Type 0
  Refuses h = (st : S) → h plugin input st ≡ (err empty_node_name, st)

  name_refused :
      (k : String → Action S A) (st : S)
      → (lift (nodename p input) >>= k) st ≡ (err empty_node_name, st)
  unfolding ◌>>=◌ lift nodename
  name_refused k st = rw no_name refl

  names_refused :
      (k : List String → Action S A) (st : S)
      → (lift (nodenames p input) >>= k) st ≡ (err empty_node_name, st)
  unfolding ◌>>=◌ lift nodenames
  names_refused k st = rw no_names refl

module _ {p : Params} {S A : Type 0} (host : Host p A) (names : VerbNames) (r : Runner host S)
    (plugin : Plugin p S A) (stdin : String) (input : p.Raw)
    (starts : Starts host r plugin stdin input) (no_name : p.text input "nodename" ≡ "")
    (no_names : p.string_slice input "nodenames" ≡ []) where
  serve-Refuses :
      (h : Handler p S A)
      → Refuses plugin input no_name no_names h
      → (st : S) → serve host r h stdin st ≡ (exited exit_code empty_node_name, st)
  unfolding serve finish
  serve-Refuses h refuses st =
      rw (call-Starts host r plugin stdin input h st starts, refuses st) refl

  abbrev RefusesInput : Command S → Type 0
  RefusesInput c = (st : S) → c.action stdin st ≡ (exited exit_code empty_node_name, st)

  -- Where the config can be loaded, the plugin be built and the input be decoded, and the input has no
  -- node name and no list of node names, every command on nodes or on plans exits with the code 128
  -- and the error for an empty name, and leaves the state as it is.
  pub unnamed-refused :
      All RefusesInput (calculate_commands host names r)
      × All RefusesInput (node_commands host names r)
  unfolding node_commands calculate_commands command PluginCmd.add_node PluginCmd.remove_node
      PluginCmd.get_nodes_deploy_capacity PluginCmd.set_node_resource_capacity
      PluginCmd.get_node_resource_info PluginCmd.get_nodes_resource_info
      PluginCmd.set_node_resource_info PluginCmd.set_node_resource_usage
      PluginCmd.get_most_idle_node PluginCmd.fix_node_resource PluginCmd.calculate_deploy
      PluginCmd.calculate_realloc
  unnamed-refused =
      let one = name_refused plugin input no_name no_names in
      let many = names_refused plugin input no_name no_names in
      search (serve-Refuses, one, many, tt) depth 30
