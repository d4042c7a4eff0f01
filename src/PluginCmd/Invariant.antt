-- ===== src/PluginCmd/Invariant.antt =====
-- What runs of a program keep, when every verb of its plugin keeps it. The interface Guards is what a
-- plugin proves of its verbs.
use mathlib.Core.List.{Memᴰ}
use resource_extend.Base.{String, Bool, List, [], ◌∷◌, ◌≡◌, refl, subst, All, inl, inr, Bool-cases}
use resource_extend.Base.Int.{ℤ}
use resource_extend.Errors.{Result, ok, err, and_then, is_node_not_exists}
use resource_extend.Action.{Action, lift, ◌>>=◌}
use resource_extend.Action.Keeps.{Keeps, call_parts, Keeps-bind, Keeps-lift}
use resource_extend.Metrics.{NodeRef}
use resource_extend.PluginCmd
use resource_extend.PluginCmd.{Params, Plugin, Handler, info_or_null, unless_missing}
use resource_extend.PluginCmd.Commands.{
  Host, VerbNames, Runner, Command, call, serve, finish, command, commands, node_commands,
  calculate_commands, metrics_commands,
}

-- Every verb of a plugin keeps a property of the state.
pub record Guards {p : Params} {S A : Type 0} (V : S → Type 0) (plugin : Plugin p S A)
    : Type 0 where
  pub add_node : (n : String) (r : p.Raw) (i : p.Info) → Keeps V A (plugin.add_node n r i)
  pub remove_node : (n : String) → Keeps V A (plugin.remove_node n)
  pub get_nodes_deploy_capacity :
      (ns : List String) (r : p.Raw) → Keeps V A (plugin.get_nodes_deploy_capacity ns r)
  pub set_node_resource_capacity :
      (n : String) (r q : p.Raw) (delta incr : Bool)
      → Keeps V A (plugin.set_node_resource_capacity n r q delta incr)
  pub get_node_resource_info :
      (n : String) (ws : List p.Raw) → Keeps V A (plugin.get_node_resource_info n ws)
  pub get_nodes_resource_info : (ns : List String) → Keeps V A (plugin.get_nodes_resource_info ns)
  pub set_node_resource_info :
      (n : String) (c u : p.Raw) → Keeps V A (plugin.set_node_resource_info n c u)
  pub set_node_resource_usage :
      (n : String) (r q : p.Raw) (ws : List p.Raw) (delta incr : Bool)
      → Keeps V A (plugin.set_node_resource_usage n r q ws delta incr)
  pub get_most_idle_node : (ns : List String) → Keeps V A (plugin.get_most_idle_node ns)
  pub fix_node_resource : (n : String) (ws : List p.Raw) → Keeps V A (plugin.fix_node_resource n ws)
  pub calculate_deploy :
      (n : String) (count : ℤ) (r : p.Raw) → Keeps V A (plugin.calculate_deploy n count r)
  pub calculate_realloc : (n : String) (r q : p.Raw) → Keeps V A (plugin.calculate_realloc n r q)
  pub get_metrics_description : Keeps V A plugin.get_metrics_description
  pub get_metrics : (nodes : List NodeRef) → Keeps V A (plugin.get_metrics nodes)

-- The states that runs of some commands lead to, each with its own standard input.
pub data Reached {S : Type 0} (cs : List (Command S)) (st : S) : S → Type 0 where
  start : Reached cs st st
  next :
      {t u : S} (c : Command S) (input : String)
      → Reached cs st t
      → Memᴰ c cs
      → (c.action input t).1 ≡ u
      → Reached cs st u

all_member : {A : Type 0} (P : A → Type 0) {a : A} (xs : List A) → All P xs → Memᴰ a xs → P a
all_member P [] all m = elim m [ ]
all_member P (x ∷ xs) all (Memᴰ.head same) = rw same all.0
all_member P (x ∷ xs) all (Memᴰ.tail m) = all_member P xs all.1 m

unless_missing-state :
    {A S : Type 0} (no_response : A) (o : Result A × S) → (unless_missing no_response o).1 ≡ o.1
unfolding unless_missing
unless_missing-state no_response (ok a, st) = refl
unless_missing-state no_response (err f, st) = elim (Bool-cases (is_node_not_exists f)) [
  | inl t ↦ rw t refl
  | inr t ↦ rw t refl
]

module _ {p : Params} {S A : Type 0} {V : S → Type 0} (plugin : Plugin p S A)
    (guards : Guards V plugin) where
  abbrev HandlerKeeps : Handler p S A → Type 0
  HandlerKeeps h = (input : p.Raw) → Keeps V A (h plugin input)

  info_or_null-Keeps : (input : p.Raw) (n : String) → Keeps V A (info_or_null plugin input n)
  info_or_null-Keeps input n = record {
    apply = λ st all.
        let ws = p.slice_raw_params input "workloads_resource" in
        rw (unless_missing-state plugin.no_response (plugin.get_node_resource_info n ws st))
          ((guards.get_node_resource_info n ws).apply st all);
  }

  add_node-Keeps : HandlerKeeps PluginCmd.add_node
  unfolding PluginCmd.add_node
  add_node-Keeps input = search (call_parts, guards.add_node) depth 9

  remove_node-Keeps : HandlerKeeps PluginCmd.remove_node
  unfolding PluginCmd.remove_node
  remove_node-Keeps input = search (call_parts, guards.remove_node) depth 9

  get_nodes_deploy_capacity-Keeps : HandlerKeeps PluginCmd.get_nodes_deploy_capacity
  unfolding PluginCmd.get_nodes_deploy_capacity
  get_nodes_deploy_capacity-Keeps input =
      search (call_parts, guards.get_nodes_deploy_capacity) depth 9

  set_node_resource_capacity-Keeps : HandlerKeeps PluginCmd.set_node_resource_capacity
  unfolding PluginCmd.set_node_resource_capacity
  set_node_resource_capacity-Keeps input =
      search (call_parts, guards.set_node_resource_capacity) depth 9

  get_node_resource_info-Keeps : HandlerKeeps PluginCmd.get_node_resource_info
  unfolding PluginCmd.get_node_resource_info
  get_node_resource_info-Keeps input = search (call_parts, info_or_null-Keeps) depth 9

  get_nodes_resource_info-Keeps : HandlerKeeps PluginCmd.get_nodes_resource_info
  unfolding PluginCmd.get_nodes_resource_info
  get_nodes_resource_info-Keeps input = search (call_parts, guards.get_nodes_resource_info) depth 9

  set_node_resource_info-Keeps : HandlerKeeps PluginCmd.set_node_resource_info
  unfolding PluginCmd.set_node_resource_info
  set_node_resource_info-Keeps input = search (call_parts, guards.set_node_resource_info) depth 9

  set_node_resource_usage-Keeps : HandlerKeeps PluginCmd.set_node_resource_usage
  unfolding PluginCmd.set_node_resource_usage
  set_node_resource_usage-Keeps input = search (call_parts, guards.set_node_resource_usage) depth 9

  get_most_idle_node-Keeps : HandlerKeeps PluginCmd.get_most_idle_node
  unfolding PluginCmd.get_most_idle_node
  get_most_idle_node-Keeps input = search (call_parts, guards.get_most_idle_node) depth 9

  fix_node_resource-Keeps : HandlerKeeps PluginCmd.fix_node_resource
  unfolding PluginCmd.fix_node_resource
  fix_node_resource-Keeps input = search (call_parts, guards.fix_node_resource) depth 9

  calculate_deploy-Keeps : HandlerKeeps PluginCmd.calculate_deploy
  unfolding PluginCmd.calculate_deploy
  calculate_deploy-Keeps input = search (call_parts, guards.calculate_deploy) depth 9

  calculate_realloc-Keeps : HandlerKeeps PluginCmd.calculate_realloc
  unfolding PluginCmd.calculate_realloc
  calculate_realloc-Keeps input = search (call_parts, guards.calculate_realloc) depth 9

  get_metrics_description-Keeps : HandlerKeeps PluginCmd.get_metrics_description
  unfolding PluginCmd.get_metrics_description
  get_metrics_description-Keeps input = search (call_parts, guards.get_metrics_description) depth 9

  get_metrics-Keeps : HandlerKeeps PluginCmd.get_metrics
  unfolding PluginCmd.get_metrics
  get_metrics-Keeps input = search (call_parts, guards.get_metrics) depth 9

  connected-Keeps :
      {B : Type 0} (c : Result (Unit {0})) (k : Plugin p S A → Action S B)
      → Keeps V B (k plugin)
      → Keeps V B (lift (and_then c (λ _. ok plugin)) >>= k)
  unfolding lift ◌>>=◌
  connected-Keeps (ok tt) k safe = record { apply = safe.apply }
  connected-Keeps (err f) k safe = record { apply = λ st all. all }

  module _ (host : Host p A) (names : VerbNames) (path name : String)
      (connect : host.Config → Result (Unit {0})) where
    -- The program of a plugin that connecting to its store can only refuse.
    abbrev pub connecting : Runner host S
    connecting = record {
      config_path = path;
      plugin_name = name;
      new_plugin = λ config. and_then (connect config) (λ _. ok plugin);
    }

    call-Keeps :
        (h : Handler p S A) (input : String)
        → HandlerKeeps h
        → Keeps V A (call host connecting h input)
    unfolding call
    call-Keeps h input safe = Keeps-bind _ _ (Keeps-lift _) (λ config.
        connected-Keeps (connect config) _ (Keeps-bind _ _ (Keeps-lift _) (λ params. safe params)))

    finish-state : (o : Result A × S) → (finish host o).1 ≡ o.1
    unfolding finish
    finish-state (ok a, st) = refl
    finish-state (err f, st) = refl

    abbrev KeepsAll : Command S → Type 0
    KeepsAll c = (input : String) (st : S) → V st → V (c.action input st).1

    serve-KeepsAll :
        (h : Handler p S A)
        → HandlerKeeps h
        → (input : String) (st : S) → V st
        → V (serve host connecting h input st).1
    unfolding serve
    serve-KeepsAll h safe input st all =
        rw (finish-state (call host connecting h input st)) ((call-Keeps h input safe).apply st all)

    commands-KeepsAll : All KeepsAll (commands host names connecting)
    unfolding commands metrics_commands node_commands calculate_commands command
    commands-KeepsAll = (
      (λ input st all. all),
      (
        (λ input st all. all),
        search
            (
              serve-KeepsAll, add_node-Keeps, remove_node-Keeps, get_nodes_deploy_capacity-Keeps,
              set_node_resource_capacity-Keeps, get_node_resource_info-Keeps,
              get_nodes_resource_info-Keeps, set_node_resource_info-Keeps,
              set_node_resource_usage-Keeps, get_most_idle_node-Keeps, fix_node_resource-Keeps,
              calculate_deploy-Keeps, calculate_realloc-Keeps, get_metrics_description-Keeps,
              get_metrics-Keeps, tt,
            )
            depth 40,
      ),
    )

    pub Reached-Guards : {st t : S} → V st → Reached (commands host names connecting) st t → V t
    Reached-Guards all start = all
    Reached-Guards all (next c input before m ends) =
        let safe = all_member KeepsAll _ commands-KeepsAll m in
        subst V ends (safe input _ (Reached-Guards all before))
