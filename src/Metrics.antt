-- ===== src/Metrics.antt =====
-- The metrics that both plugins report of a node (plugintypes of core), and how a name goes into
-- the key of a metric.
use resource_extend.Base.{String, List}
use resource_extend.Storage.Binding.Text.{replace_all}

pub record NodeRef : Type 0 where
  pub podname : String
  pub nodename : String

pub record Description : Type 0 where
  pub name : String
  pub help : String
  pub kind : String
  pub labels : List String

pub record Metric : Type 0 where
  pub name : String
  pub labels : List String
  pub value : String
  pub key : String

-- `strings.ReplaceAll(name, ".", "_")`
unfoldable pub safe : String → String
unfolding replace_all
safe name = replace_all b'.' "_" name
