-- ===== src/Storage/Queries/Capacity.antt =====
-- What GetNodesDeployCapacity reports of a node, and what CalculateDeploy then grants on it.
pub mod Gathered
use resource_extend.Base.{
  String, ℕ, ◌≤◌, ◌<◌, Bool, true, false, ◌&&◌, ◌||◌, ◌≡◌, refl, sym, ◌∙◌, ap, List, [], ◌∷◌,
  Option, none, some, if◌then◌else◌, ◌⊎◌, inl, inr, Bool-cases, Option-cases, arith, length,
}
use resource_extend.Base.Int.{ℤ, pos, ltb_ℤ}
use resource_extend.Base.Word.{add64}
use resource_extend.Base.Dict.{Dict, lookup, insert, lookup-insert, ◌=s◌, =s_iff}
use resource_extend.Errors.{ok, err, Result-cases}
use resource_extend.Action.{pure, lift, reads, ◌>>=◌ as ◌>>>=◌, answered, refused}
use resource_extend.Nodestore.{Store, get_or_empty}
use resource_extend.Nodestore.Multi.{IsRange, NoDecodeMisses, read_each, get_multi-eq-read_each}
use resource_extend.Storage.Node.{NodeResource, NodeResourceInfo}
use resource_extend.Storage.Binding.{VolumeBindings, need_schedule}
use resource_extend.Storage.Workload.{WorkloadResourceRequest, validate}
use resource_extend.Storage.Workload.Matches.{Passes, AreLimits, HasLimits, validate-HasLimits}
use resource_extend.Storage.Schedule.Plans.{Share}
use resource_extend.Storage.Schedule.Capacity.{max_count}
use resource_extend.Storage.Calculate.{do_alloc}
use resource_extend.Storage.Calculate.Exact.{AllocatesFor}
use resource_extend.Storage.Calculate.Deploy.{
  NodeDeployCapacity, do_get_node_deploy_capacity, node_capacity, do_alloc-reported,
}
use resource_extend.Storage.Plugin.{contains}
use resource_extend.Storage.Parse.{Reader, parse_workload_request}
use resource_extend.Storage.Queries.{
  calculate_deploy, capacity_of, capacity_infos, gather, get_nodes_deploy_capacity,
}
pub use Gathered.*

-- What is reported of a node that is asked for is its capacity, or 0 where it has no room.
abbrev positive_or_zero : ℤ → ℤ
positive_or_zero a = if ltb_ℤ (pos 0) a then a else pos 0

not_less : (a : ℤ) (n : ℕ) → 0 < n → ltb_ℤ (positive_or_zero a) (pos n) ≡ ltb_ℤ a (pos n)
not_less a n h = ground arith

HasLimits-length :
    (requests limits : VolumeBindings) → AreLimits requests limits → length limits ≤ length requests
HasLimits-length [] [] h = omega arith
HasLimits-length [] (limit ∷ limits) h = absurd h
HasLimits-length (request ∷ requests) [] h = omega arith
HasLimits-length (request ∷ requests) (limit ∷ limits) h =
    omega (arith, HasLimits-length requests limits h.1)

module _ (r : Reader) (s : Store NodeResourceInfo) (share : Share) {Float : Type 0}
    (divide : ℤ → ℤ → Float) where
  open r use {Raw}
  open s use {kv}

  deploys :
      (k : String) (raw : Raw) (n : ℕ) (st : kv.State) (parsed req : WorkloadResourceRequest)
      (info : NodeResourceInfo) (capacity usage : NodeResource)
      → parse_workload_request r raw ≡ ok parsed
      → validate parsed ≡ ok req
      → get_or_empty s k st ≡ ok info
      → info.capacity ≡ some capacity
      → info.usage ≡ some usage
      → (calculate_deploy r s share k n raw st).0 ≡ do_alloc share capacity usage n req
  unfolding calculate_deploy ◌>>>=◌ lift reads
  deploys k raw n st parsed req info capacity usage p v g a b = rw (p, v, g, a, b) refl

  reported_lem :
      (k : String) (names : List String) (n : ℕ) (req : WorkloadResourceRequest)
      (infos : Dict NodeResourceInfo) (cs : Dict (NodeDeployCapacity Float))
      (c : NodeDeployCapacity Float)
      → contains k names ≡ true
      → capacity_infos share divide n req infos names ≡ ok cs
      → capacity_of share divide n req (lookup k infos) ≡ ok c
      → reported k (gather cs ([], pos 0)) ≡ positive_or_zero c.capacity
  unfolding lookup
  reported_lem k names n req infos cs c asked e g =
      rw (lookup-gather share divide n req infos k names cs ([], pos 0) c e g, asked)
        (elim (Bool-cases (ltb_ℤ (pos 0) c.capacity)) [ inl t ↦ rw t refl | inr t ↦ rw t refl ])

  limits_enough :
      (parsed req : WorkloadResourceRequest)
      → validate parsed ≡ ok req
      → length req.volumes_limit ≤ length req.volumes_request
  limits_enough parsed req v =
      let valid : Passes HasLimits (ok req) = rw v at (validate-HasLimits parsed) in
      HasLimits-length req.volumes_request req.volumes_limit valid

  -- A request, once read, without a volume that needs a schedule.
  abbrev pub NeedsNoSchedule : Raw → Type 0
  NeedsNoSchedule raw =
      (parsed req : WorkloadResourceRequest)
      → parse_workload_request r raw ≡ ok parsed
      → validate parsed ≡ ok req
      → need_schedule req.volumes_request ≡ false

  of_request :
      (raw : Raw) (n max : ℕ) (parsed req : WorkloadResourceRequest)
      → (n ≡ max) ⊎ NeedsNoSchedule raw
      → parse_workload_request r raw ≡ ok parsed
      → validate parsed ≡ ok req
      → (n ≡ max) ⊎ (need_schedule req.volumes_request ≡ false)
  of_request raw n max parsed req (inl same) p v = inl same
  of_request raw n max parsed req (inr free) p v = inr (free parsed req p v)

  -- From what has been read: the two verbs agree on the node.
  agree :
      (names : List String) (k : String) (raw : Raw) (n max : ℕ) (st : kv.State)
      (parsed req : WorkloadResourceRequest) (infos : Dict NodeResourceInfo)
      (cs : Dict (NodeDeployCapacity Float))
      → 0 < n
      → n ≤ max
      → max ≤ max_count
      → (n ≡ max) ⊎ (need_schedule req.volumes_request ≡ false)
      → contains k names ≡ true
      → parse_workload_request r raw ≡ ok parsed
      → validate parsed ≡ ok req
      → read_each s st [] names ≡ ok infos
      → capacity_infos share divide max req infos names ≡ ok cs
      → AllocatesFor n
          (ltb_ℤ (reported k (gather cs ([], pos 0))) (pos n))
          (calculate_deploy r s share k n raw st).0
  agree names k raw n max st parsed req infos cs h0 le h kind asked p v read e =
      let (info, g, at) = lookup-read_each s k st [] infos names read asked in
      let (c, of) = capacity_of-asked share divide max req infos k names cs e asked in
      let (capacity, usage, a, b, same) =
        capacity_of-some share divide max req infos info c (rw at at of) in
      rw
        (
          deploys k raw n st parsed req info capacity usage p v g a b,
          reported_lem k names max req infos cs c asked e of,
          not_less c.capacity n h0,
          same,
        )
        (do_alloc-reported share capacity usage n max req (limits_enough parsed req v) le h kind)

  -- Whatever the shares of monopoly volumes are, where the largest number of deployments is an `int`,
  -- the range read of the store agrees with single reads, and a value that cannot be decoded is not
  -- reported as a missing node: if GetNodesDeployCapacity answers, then CalculateDeploy on any of the
  -- nodes that were asked for, of the largest number of workloads, or of any smaller positive number if no
  -- volume of the request needs a schedule, grants them all exactly where the answer reports no less
  -- for the node, and else fails with ErrInsufficientResource.
  pub calculate_deploy-get_nodes_deploy_capacity :
      (names : List String) (k : String) (raw : Raw) (n max : ℕ) (st st' : kv.State)
      (kvs : Dict String) (found : Dict (NodeDeployCapacity Float) × ℤ)
      → 0 < n
      → n ≤ max
      → max ≤ max_count
      → (n ≡ max) ⊎ NeedsNoSchedule raw
      → IsRange s st kvs
      → NoDecodeMisses s
      → contains k names ≡ true
      → get_nodes_deploy_capacity r s share divide max names raw st ≡ (ok found, st')
      → AllocatesFor n (ltb_ℤ (reported k found) (pos n)) (calculate_deploy r s share k n raw st).0
  unfolding get_nodes_deploy_capacity calculate_deploy ◌>>>=◌ lift reads pure
  calculate_deploy-get_nodes_deploy_capacity names k raw n max st st' kvs found h0 le h kind range
        honest c e =
      elim (Result-cases (parse_workload_request r raw)) [
        | inr (f, p) ↦ absurd (refused (rw p at e))
        | inl (parsed, p) ↦ elim (Result-cases (validate parsed)) [
          | inr (f, v) ↦ absurd (refused (rw (p, v) at e))
          | inl (req, v) ↦ elim (Result-cases (read_each s st [] names)) [
            | inr (f, g) ↦
                absurd
                  (refused (rw (p, v, get_multi-eq-read_each s st kvs names range honest, g) at e))
            | inl (infos, g) ↦
                elim (Result-cases (capacity_infos share divide max req infos names)) [
                  | inr (f, i) ↦ absurd (
                      refused
                        (rw (p, v, get_multi-eq-read_each s st kvs names range honest, g, i) at e))
                  | inl (cs, i) ↦
                      let answer = answered (
                        rw (p, v, get_multi-eq-read_each s st kvs names range honest, g, i) at e) in
                      rw (← answer.0) (
                        agree names k raw n max st parsed req infos cs h0 le h
                          (of_request raw n max parsed req kind p v) c p v g i)
                ]
          ]
        ]
      ]
