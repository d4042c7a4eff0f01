-- ===== src/Gpu/Store.antt =====
-- The store of the plugin of gpu/gpu.go.
use resource_extend.Base.{String}
use resource_extend.Errors.{Result, ok, ◌>>=◌}
use resource_extend.Nodestore.{Kv, Store}
use resource_extend.Gpu.Types.{NodeResourceInfo, validate_info, new_node_resource_info}

-- The JSON encoding of the node's info, and `utils.Tail` of core.
pub record Encoding : Type 0 where
  pub marshal : NodeResourceInfo → Result String
  pub unmarshal : String → NodeResourceInfo → Result NodeResourceInfo
  pub tail : String → String

-- `Validate` leaves the info as it is.
unfoldable pub checked : NodeResourceInfo → Result NodeResourceInfo
checked info = validate_info info >>= λ _. ok info

-- newStore of gpu/gpu.go
abbrev pub new_store : Kv → Encoding → Store NodeResourceInfo
new_store kv e = record {
  kv = kv;
  key_prefix = "/resource/gpu/";
  info = record {
    new_info = new_node_resource_info;
    validate = checked;
    marshal = e.marshal;
    unmarshal = e.unmarshal;
  };
  tail = e.tail;
}
