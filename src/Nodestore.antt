-- ===== src/Nodestore.antt =====
-- nodestore/nodestore.go: the resource info of each node, under one key of etcd each. The etcd
-- client and the JSON encoding are parameters. A key template is the text before its one verb,
-- which ends the templates of both plugins.
pub mod Laws
pub mod Multi
pub mod Stored
pub mod Examples
use Prim.Native.String.{◌++◌}
use resource_extend.Base.{String, List, [], ◌∷◌, Option, none, some, if◌then◌else◌, map}
use resource_extend.Base.Dict.{Dict, lookup, insert}
use resource_extend.Errors.{
  Error, node_exists, node_not_exists, Result, ok, err, ◌>>=◌, is_node_not_exists,
}

-- The part of an etcd client that a store uses. A read gives the value under a key, or none where
-- the response counts no key; a range read gives the keys with a prefix.
pub record Kv : Type 1 where
  pub State : Type 0
  pub get : String → State → Result (Option String)
  pub get_prefix : String → State → Result (Dict String)
  pub put : String → String → State → Result (Unit {0}) × State
  pub delete : String → State → Result (Unit {0}) × State

-- The interface `Info` with its factory, and the JSON encoding of the type. Validation may complete
-- the value. Decoding reads into a value that is there.
pub record Info (T : Type 0) : Type 0 where
  pub new_info : T
  pub validate : T → Result T
  pub marshal : T → Result String
  pub unmarshal : String → T → Result T

pub record Store (T : Type 0) : Type 1 where
  pub kv : Kv
  pub key_prefix : String
  pub info : Info T
  -- `utils.Tail` of core
  pub tail : String → String

module _ {T : Type 0} (s : Store T) where
  open s use {kv, key_prefix, info, tail}

  unfoldable pub key : String → String
  key nodename = key_prefix ++ nodename

  decode_found : Option String → Result T
  decode_found none = err node_not_exists
  decode_found (some value) = info.unmarshal value info.new_info

  unfoldable pub get : String → kv.State → Result T
  unfolding decode_found
  get nodename st = kv.get (key nodename) st >>= decode_found

  or_empty : Result T → Result T
  or_empty (ok i) = ok i
  or_empty (err e) = if is_node_not_exists e then ok info.new_info else err e

  unfoldable pub get_or_empty : String → kv.State → Result T
  unfolding or_empty
  get_or_empty nodename st = or_empty (get nodename st)

  -- `stored[utils.Tail(string(kv.Key))] = kv.Value`
  unfoldable pub stored_by_name : Dict String → Dict String → Dict String
  stored_by_name stored [] = stored
  stored_by_name stored ((k, value) ∷ kvs) = stored_by_name (insert (tail k) value stored) kvs

  decode_or_new : Option String → Result T
  decode_or_new none = ok info.new_info
  decode_or_new (some value) = info.unmarshal value info.new_info

  unfoldable pub collect : Dict String → Dict T → List String → Result (Dict T)
  unfolding decode_or_new
  collect stored infos [] = ok infos
  collect stored infos (nodename ∷ nodenames) = decode_or_new (lookup nodename stored) >>= λ i.
      collect stored (insert nodename i infos) nodenames

  unfoldable pub get_multi : List String → kv.State → Result (Dict T)
  unfolding stored_by_name collect
  get_multi nodenames st =
      kv.get_prefix (key "") st >>= λ kvs. collect (stored_by_name [] kvs) [] nodenames

  put_encoded : String → kv.State → Result String → Result (Unit {0}) × kv.State
  put_encoded nodename st (ok value) = kv.put (key nodename) value st
  put_encoded nodename st (err e) = (err e, st)

  unfoldable pub put : String → T → kv.State → Result (Unit {0}) × kv.State
  unfolding put_encoded
  put nodename i st = put_encoded nodename st (info.validate i >>= info.marshal)

  unfoldable pub delete : String → kv.State → Result (Unit {0}) × kv.State
  delete nodename st = kv.delete (key nodename) st

  absent_of : Result T → Result (Unit {0})
  absent_of (ok i) = err node_exists
  absent_of (err e) = if is_node_not_exists e then ok tt else err e

  unfoldable pub check_absent : String → kv.State → Result (Unit {0})
  unfolding absent_of
  check_absent nodename st = absent_of (get nodename st)
