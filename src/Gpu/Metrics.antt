-- ===== src/Gpu/Metrics.antt =====
-- gpu/metrics.go: the cards of each node by product, as metrics.
use Prim.Native.String.{◌++◌}
use resource_extend.Base.{String, List, [], ◌∷◌, Option, none, some, map}
use resource_extend.Base.Dict.{Dict, lookup, count_of}
use resource_extend.Errors.{Result, ok, err, other, and_then}
use resource_extend.Action.{Action, lift, reads, ◌>>=◌}
use resource_extend.Metrics.{NodeRef, Description, Metric, safe}
use resource_extend.Nodestore.{Store, get_multi}
use resource_extend.Storage.Binding.Text.{decimal}
use resource_extend.Gpu.Types.{ProdCountMap, NodeResourceInfo}

unfoldable pub get_metrics_description : Result (List Description)
get_metrics_description = ok (
    record {
      name = "gpu_capacity";
      help = "node available gpu.";
      kind = "gauge";
      labels = "podname" ∷ "nodename" ∷ "product" ∷ [];
    }
    ∷ record {
      name = "gpu_used";
      help = "node used gpu.";
      kind = "gauge";
      labels = "podname" ∷ "nodename" ∷ "product" ∷ [];
    }
    ∷ [])

abbrev key_of : NodeRef → String → String → String
key_of node prod suffix = "core.node." ++ (safe node.nodename ++ (".gpu." ++ (safe prod ++ suffix)))

-- The loop over the capacity of a node, before the metrics of the nodes that follow.
unfoldable pub product_metrics : NodeRef → ProdCountMap → ProdCountMap → List Metric → List Metric
unfolding safe decimal count_of
product_metrics node usage [] more = more
product_metrics node usage ((prod, count) ∷ capacity) more =
    record {
      name = "gpu_capacity";
      labels = node.podname ∷ node.nodename ∷ prod ∷ [];
      value = decimal count;
      key = key_of node prod ".capacity";
    }
    ∷ record {
      name = "gpu_used";
      labels = node.podname ∷ node.nodename ∷ prod ∷ [];
      value = decimal (count_of prod usage);
      key = key_of node prod ".used";
    }
    ∷ product_metrics node usage capacity more

-- An info that is not there is a nil pointer.
abbrev found : Option NodeResourceInfo → Result NodeResourceInfo
found none = err (other "nil pointer dereference")
found (some info) = ok info

unfoldable pub metrics_of : Dict NodeResourceInfo → List NodeRef → Result (List Metric)
unfolding product_metrics lookup
metrics_of infos [] = ok []
metrics_of infos (node ∷ nodes) =
    let rest = metrics_of infos nodes in
    and_then (found (lookup node.nodename infos))
      λ info. and_then rest λ more. ok (product_metrics node info.usage info.capacity more)

module _ (s : Store NodeResourceInfo) where
  open s use {kv}

  unfoldable pub get_metrics : List NodeRef → Action kv.State (List Metric)
  unfolding metrics_of
  get_metrics nodes = do
    infos ← reads (get_multi s (map (λ node. node.nodename) nodes))
    lift (metrics_of infos nodes)
