-- ===== src/PluginCmd/Gpu/Removed.antt =====
-- The command for a node's info on a node that is not there any more.
use resource_extend.Base.{String, List, ◌≡◌, refl, sym, ◌∙◌, false, arith}
use resource_extend.Base.Dict.{◌=s◌}
use resource_extend.Errors.{ok, err, node_not_exists, is_node_not_exists}
use resource_extend.Action.{lift, pure, reads, ◌>>=◌}
use resource_extend.Nodestore.{Kv, get, delete}
use resource_extend.Nodestore.Laws.{IsKv, get-delete}
use resource_extend.Gpu.Store.{Encoding}
use resource_extend.Gpu.Plugin as Verbs
use resource_extend.PluginCmd
use resource_extend.PluginCmd.{respond, Params, Plugin, nodename, unless_missing}
use resource_extend.PluginCmd.Commands.{Host, Runner, answer, print_json, call, serve, finish}
use resource_extend.PluginCmd.Unnamed.{Starts, call-Starts}
use resource_extend.PluginCmd.Gpu.{GpuCore, gpu_store, gpu_plugin, Answer, empty, null}

module _ {p : Params} (g : GpuCore p) (kv : Kv) (e : Encoding) (laws : IsKv kv)
    (host : Host p (Answer g kv e)) (r : Runner host kv.State) where
  -- A name that is not refused is the one in the input.
  named :
      {n : String} (input : p.Raw)
      → p.text input "nodename" ≡ n
      → (n =s "") ≡ false
      → nodename p input ≡ ok n
  unfolding nodename
  named input at ne = rw (at, ne) refl

  -- A removal that was answered has deleted the node.
  deleted :
      {n : String} (input : p.Raw) (st st' : kv.State)
      → p.text input "nodename" ≡ n
      → PluginCmd.remove_node (gpu_plugin g kv e) input st ≡ (ok empty, st')
      → ((n =s "") ≡ false) × (delete (gpu_store g kv e) n st ≡ (ok tt, st'))
  unfolding PluginCmd.remove_node Verbs.remove_node nodename respond ◌>>=◌ lift pure
  deleted {n} input st st' at h = ground (arith, at)

  missing_node :
      (n : String) (ws : List p.Raw) (st : kv.State)
      → get (gpu_store g kv e) n st ≡ err node_not_exists
      → (gpu_plugin g kv e).get_node_resource_info n ws st ≡ (err node_not_exists, st)
  unfolding Verbs.get_node_resource_info Verbs.compare_usage respond ◌>>=◌ reads
  missing_node n ws st h = rw h refl

  -- Where the program of the gpu plugin has removed a node and answered, its command for the info of
  -- the same node prints the nil response, without an error and without a change of the state;
  -- for an etcd client that keeps its promises, and where both runs can load the config, build the
  -- plugin and decode the input.
  pub remove_node-get_node_resource_info :
      {n : String} (removal query : String) (input input' : p.Raw) (st st' : kv.State)
      → Starts host r (gpu_plugin g kv e) removal input
      → Starts host r (gpu_plugin g kv e) query input'
      → p.text input "nodename" ≡ n
      → p.text input' "nodename" ≡ n
      → call host r PluginCmd.remove_node removal st ≡ (ok empty, st')
      → serve host r PluginCmd.get_node_resource_info query st'
        ≡ (print_json host (answer null), st')
  unfolding serve finish PluginCmd.get_node_resource_info ◌>>=◌ lift unless_missing
      is_node_not_exists
  remove_node-get_node_resource_info {n} removal query input input' st st' starts starts' at at' h =
      let runs =
        call-Starts host r (gpu_plugin g kv e) removal input PluginCmd.remove_node st starts in
      let gone = deleted input st st' at (sym runs ∙ h) in
      let absent = get-delete (gpu_store g kv e) laws n st gone.1 in
      let ws = p.slice_raw_params input' "workloads_resource" in
      rw
        (
          call-Starts host r (gpu_plugin g kv e) query input' PluginCmd.get_node_resource_info st'
              starts',
          named input' at' gone.0,
          missing_node n ws st' absent,
        )
        refl
