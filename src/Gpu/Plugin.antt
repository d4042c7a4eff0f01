-- ===== src/Gpu/Plugin.antt =====
-- The plugin verbs of gpu/node.go on one node, each as a call on the store.
-- Maps that a response or core wraps (AsRawParams, RawParams) are plain here; log lines are left out.
use resource_extend.Base.{String, Bool, false, List, [], ◌∷◌, Option, none, some, if◌then◌else◌}
use resource_extend.Base.Int.{ℤ}
use resource_extend.Errors.{Result, ok, err}
use resource_extend.Action.{Action, pure, lift, reads, ◌>>=◌, ◌>>◌}
use resource_extend.Nodestore.{Store, get, get_or_empty, put, delete, check_absent}
use resource_extend.Gpu.Types.{ProdCountMap, NodeResourceInfo, validate}
use resource_extend.Gpu.Resource.{Diff, calculate_node_resource, workloads_usage, diffs_of}

-- What the verbs use of core: raw parameters, which decode to a count map, and floats.
pub record Core : Type 1 where
  pub Raw : Type 0
  pub decode : Raw → Result ProdCountMap
  -- whether the map that is decoded is nil
  pub decodes_to_nil : Raw → Bool
  pub is_set : Raw → String → Bool
  pub Float : Type 0
  -- `utils.AdvancedDivide(float64(a), float64(b))`
  pub advanced_divide : ℤ → ℤ → Float
  pub less : Float → Float → Bool
  pub max_float : Float

pub record Changed : Type 0 where
  pub before : ProdCountMap
  pub after : ProdCountMap

pub record InfoResponse : Type 0 where
  pub capacity : ProdCountMap
  pub usage : ProdCountMap
  pub diffs : List Diff

abbrev prod_count_map_key : String
prod_count_map_key = "prod_count_map"

module _ (core : Core) (s : Store NodeResourceInfo) where
  open core use {Raw, Float}
  open s use {kv}

  unfoldable pub decode_all : List Raw → Result (List ProdCountMap)
  decode_all [] = ok []
  decode_all (r ∷ rs) = elim (core.decode r) [
    | err e ↦ err e
    | ok m ↦ elim (decode_all rs) [ err e ↦ err e | ok ms ↦ ok (m ∷ ms) ]
  ]

  unfoldable pub decode_option : Option Raw → Result (Option ProdCountMap)
  decode_option none = ok none
  decode_option (some r) = elim (core.decode r) [ err e ↦ err e | ok m ↦ ok (some m) ]

  unfoldable pub add_node : String → Raw → Action kv.State ProdCountMap
  add_node nodename resource = do
    reads (check_absent s nodename)
    req ← lift (core.decode resource)
    lift (validate req)
    put s nodename (record { capacity = req; usage = []; usage_is_nil = false })
    pure req

  unfoldable pub remove_node : String → Action kv.State (Unit {0})
  remove_node nodename = delete s nodename

  -- NodeResourceRequest.LoadFromOrigin
  unfoldable pub load_from_origin : ProdCountMap → ProdCountMap → Raw → ProdCountMap
  load_from_origin req origin resource_request =
      if core.is_set resource_request prod_count_map_key then req else origin

  request_for_capacity :
      Bool → ProdCountMap → Option Raw → Option ProdCountMap → Option ProdCountMap
  request_for_capacity delta origin (some raw) (some req) =
      if delta then some req else some (load_from_origin req origin raw)
  request_for_capacity delta origin raw req = req

  unfoldable pub set_node_resource_capacity :
      String → Option Raw → Option Raw → Bool → Bool → Action kv.State Changed
  unfolding decode_option request_for_capacity load_from_origin
  set_node_resource_capacity nodename resource resource_request delta incr = do
    req ← lift (decode_option resource_request)
    node_resource ← lift (decode_option resource)
    info ← reads (get_or_empty s nodename)
    let after =
        calculate_node_resource (request_for_capacity delta info.capacity resource_request req)
          node_resource (some info.capacity) [] delta incr
    put s nodename (record info { capacity = after })
    pure (record { before = info.capacity; after = after })

  unfoldable pub set_node_resource_usage :
      String → Option Raw → Option Raw → List Raw → Bool → Bool → Action kv.State Changed
  unfolding decode_option decode_all
  set_node_resource_usage nodename resource resource_request workloads delta incr = do
    req ← lift (decode_option resource_request)
    node_resource ← lift (decode_option resource)
    ws ← lift (decode_all workloads)
    info ← reads (get_or_empty s nodename)
    let after = calculate_node_resource req node_resource (some info.usage) ws delta incr
    put s nodename (record info { usage = after; usage_is_nil = false })
    pure (record { before = info.usage; after = after })

  unfoldable pub set_node_resource_info : String → Raw → Raw → Action kv.State (Unit {0})
  set_node_resource_info nodename capacity usage = do
    c ← lift (core.decode capacity)
    u ← lift (core.decode usage)
    put s nodename (record { capacity = c; usage = u; usage_is_nil = core.decodes_to_nil usage })

  -- getNodeResourceInfo: the info, what the workloads use, and how the two differ.
  unfoldable pub compare_usage :
      String → List Raw → Action kv.State (NodeResourceInfo × ProdCountMap × List Diff)
  unfolding decode_all
  compare_usage nodename workloads = do
    info ← reads (get s nodename)
    ws ← lift (decode_all workloads)
    pure (info, workloads_usage ws, diffs_of info (workloads_usage ws))

  unfoldable pub get_node_resource_info : String → List Raw → Action kv.State InfoResponse
  get_node_resource_info nodename workloads = do
    (info, actual, diffs) ← compare_usage nodename workloads
    pure (record { capacity = info.capacity; usage = info.usage; diffs = diffs })

  unfoldable pub write_fix :
      String → NodeResourceInfo → ProdCountMap → List Diff → Action kv.State InfoResponse
  write_fix nodename info actual [] =
      pure (record { capacity = info.capacity; usage = info.usage; diffs = [] })
  write_fix nodename info actual (d ∷ diffs) = do
    put s nodename (record info { usage = actual; usage_is_nil = false })
    pure (record { capacity = info.capacity; usage = actual; diffs = d ∷ diffs })

  unfoldable pub fix_node_resource : String → List Raw → Action kv.State InfoResponse
  fix_node_resource nodename workloads = do
    (info, actual, diffs) ← compare_usage nodename workloads
    write_fix nodename info actual diffs
