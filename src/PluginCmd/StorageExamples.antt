-- ===== src/PluginCmd/StorageExamples.antt =====
-- A test of the commands on the storage plugin. The standard input is the name of a node, which gets 7
-- bytes of storage.
use mathlib.Core.List.{Memᴰ}
use resource_extend.Base.{String, false, [], ◌∷◌, ◌≡◌, refl, none, if◌then◌else◌}
use resource_extend.Base.Int.{ℤ, pos, ◌+ℤ◌}
use resource_extend.Base.Word.{add64, wrap}
use resource_extend.Base.Dict.{Dict, insert, ◌=s◌}
use resource_extend.Errors.{ok, err, other}
use resource_extend.Action.{◌>>=◌, lift, pure}
use resource_extend.Nodestore.{put, key}
use resource_extend.Nodestore.Examples.{list_kv, list_kv-IsKv}
use resource_extend.Storage.Node.{validate}
use resource_extend.Storage.Volumes.{total}
use resource_extend.Storage.Plugin as Verbs
use resource_extend.Storage.Plugin.Histories.{AllWithin}
use resource_extend.Storage.HistoryExamples.{
  bytes, seven_encoding, seven_encoding-RoundTrips, nothing-AllWithin, marshal_seven, has_bytes,
  is_nil,
}
use resource_extend.PluginCmd
use resource_extend.PluginCmd.{Params, nodename, respond}
use resource_extend.PluginCmd.Examples.{verb_names}
use resource_extend.PluginCmd.Commands.{
  Host, Runner, Command, command, commands, call, serve, finish, node_commands, calculate_commands,
  metrics_commands,
}
use resource_extend.PluginCmd.Invariant.{start, next}
use resource_extend.PluginCmd.Storage.{StorageCore, Response, core, storage_runner}
use resource_extend.PluginCmd.Storage.Served.{Reached-AllWithin}

record Request : Type 0 where
  node : String
  size : ℤ

abbrev request_params : Params
request_params = record {
  Raw = Request;
  text = λ r k. r.node;
  string_slice = λ r k. [];
  raw_params = λ r k. if k =s "capacity" then r else record r { size = pos 0 };
  slice_raw_params = λ r k. [];
  bool = λ r k. false;
  int = λ r k. pos 1;
  Info = Unit {0};
  decode_info = λ r. ok tt;
  decode_nodes = λ r k. ok [];
}

abbrev request_core : StorageCore request_params
request_core = record {
  size_in_bytes = λ r k. ok r.size;
  is_set = λ r k. false;
  is_nil = λ r. false;
  parse_ram_in_human = λ text. err (other "unused");
  decode_resource = λ r. ok (bytes r.size);
  decode_workload = λ r. err (other "unused");
  storage_total = λ i. none;
  Float = ℤ;
  divide = λ a b. a;
  share = λ size total volume_size. size;
  max_deploy_count = 10;
  negative_count = λ n count r. err (other "unused");
}

abbrev request_host : Host request_params (Response ℤ)
request_host = record {
  Config = Unit {0};
  load_config = λ path. ok tt;
  decode = λ name. ok (record { node = name; size = pos 7 });
  marshal = λ out. ok "{}";
}

abbrev runner : Runner request_host (Dict String)
runner =
    storage_runner request_core list_kv seven_encoding request_host "storage.yaml" (λ config. ok tt)

abbrev sets_info : Command (Dict String)
sets_info =
    command request_host runner "set-node-resource-info" "set node resource info"
      PluginCmd.set_node_resource_info

sets_info_lem : Memᴰ sets_info (commands request_host verb_names runner)
unfolding commands node_commands metrics_commands calculate_commands
sets_info_lem = search (Memᴰ.head, Memᴰ.tail) depth 20

set_lem : (sets_info.action "n" []).1 ≡ (("/resource/storage/n", "seven") ∷ [])
unfolding command serve finish call storage_runner ◌>>=◌ lift PluginCmd.set_node_resource_info
    nodename Verbs.set_node_resource_info respond put validate pure insert key marshal_seven
    has_bytes is_nil add64 wrap ◌+ℤ◌ total
set_lem = refl

Reached-AllWithin_example :
    AllWithin
      (core request_core list_kv seven_encoding)
      list_kv
      seven_encoding
      (("/resource/storage/n", "seven") ∷ [])
Reached-AllWithin_example =
    Reached-AllWithin request_core list_kv seven_encoding list_kv-IsKv seven_encoding-RoundTrips
      request_host verb_names "storage.yaml" (λ config. ok tt) nothing-AllWithin
      (next sets_info "n" start sets_info_lem set_lem)
