-- ===== src/Storage/Queries/Capacity/Gathered.antt =====
-- What the loops of GetNodesDeployCapacity have for one of the nodes (storage/node.go).
use resource_extend.Base.{
  String, ℕ, Bool, true, false, ◌&&◌, ◌||◌, ◌≡◌, refl, sym, ◌∙◌, ap, List, [], ◌∷◌, Option, none,
  some, if◌then◌else◌, inl, inr, Bool-cases, Option-cases, arith,
}
use resource_extend.Base.Int.{ℤ, pos, ltb_ℤ}
use resource_extend.Base.Word.{add64}
use resource_extend.Base.Dict.{Dict, lookup, insert, lookup-insert, ◌=s◌, =s_iff}
use resource_extend.Errors.{ok, err, Result-cases}
use resource_extend.Nodestore.{Store, get_or_empty}
use resource_extend.Nodestore.Multi.{read_each}
use resource_extend.Storage.Node.{NodeResource, NodeResourceInfo}
use resource_extend.Storage.Workload.{WorkloadResourceRequest}
use resource_extend.Storage.Schedule.Plans.{Share}
use resource_extend.Storage.Calculate.Deploy.{
  NodeDeployCapacity, do_get_node_deploy_capacity, node_capacity,
}
use resource_extend.Storage.Plugin.{contains}
use resource_extend.Storage.Queries.{capacity_of, capacity_infos, gather}

-- What the loop over the names has read for one of them.
module _ {T : Type 0} (s : Store T) where
  lookup-read_each_other :
      (k : String) (st : s.kv.State) (infos found : Dict T) (names : List String)
      → read_each s st infos names ≡ ok found
      → contains k names ≡ false
      → lookup k found ≡ lookup k infos
  unfolding read_each contains
  lookup-read_each_other k st infos found [] e c =
      ap (lookup k) (let same : found ≡ infos = cc in same)
  lookup-read_each_other k st infos found (n ∷ names) e c =
      elim (Result-cases (get_or_empty s n st)) [
        | inr (f, g) ↦ absurd (let bad : err f ≡ ok found = (rw g at e) in cc)
        | inl (i, g) ↦
            let ih =
              lookup-read_each_other k st (insert n i infos) found names (rw g at e)
                (ground arith) in
            ih ∙ lookup-insert n k i infos ∙ ground arith
      ]

  pub lookup-read_each :
      (k : String) (st : s.kv.State) (infos found : Dict T) (names : List String)
      → read_each s st infos names ≡ ok found
      → contains k names ≡ true
      → (i : T) × (get_or_empty s k st ≡ ok i) × (lookup k found ≡ some i)
  unfolding read_each contains
  lookup-read_each k st infos found [] e c = absurd (cc)
  lookup-read_each k st infos found (n ∷ names) e c = elim (Result-cases (get_or_empty s n st)) [
    | inr (f, g) ↦ absurd (let bad : err f ≡ ok found = (rw g at e) in cc)
    | inl (i, g) ↦ elim (Bool-cases (contains k names)) [
      | inl later ↦ lookup-read_each k st (insert n i infos) found names (rw g at e) later
      | inr last ↦
          let here : (n =s k) ≡ true = ground arith in
          (
            i,
            rw (← (=s_iff n k).0 here) g,
            lookup-read_each_other k st (insert n i infos) found names (rw g at e) last
                ∙ lookup-insert n k i infos
                ∙ (rw here refl),
          )
    ]
  ]

-- The capacity that an answer reports for a node, 0 where the node is left out.
abbrev pub capacity_or_zero : {Float : Type 0} → Option (NodeDeployCapacity Float) → ℤ
capacity_or_zero none = pos 0
capacity_or_zero (some c) = c.capacity

abbrev pub reported : {Float : Type 0} → String → Dict (NodeDeployCapacity Float) × ℤ → ℤ
reported k found = capacity_or_zero (lookup k (found.0))

pub kept :
    {Float : Type 0} (name k : String) (c : NodeDeployCapacity Float)
    (found : Dict (NodeDeployCapacity Float) × ℤ)
    → lookup k
        (if ltb_ℤ (pos 0) c.capacity
          then (insert name c (found.0), add64 (found.1) c.capacity)
          else found).0
      ≡ (if (name =s k) && ltb_ℤ (pos 0) c.capacity then some c else lookup k (found.0))
kept name k c found = elim (Bool-cases (ltb_ℤ (pos 0) c.capacity)) [
  | inl e ↦ rw e (lookup-insert name k c (found.0) ∙ ground arith)
  | inr e ↦ rw e (ground arith)
]

two_tests :
    {A : Type 0} (later room : Bool) (x o : Option A)
    → (if later && room then x else if room then x else o) ≡ (if room then x else o)
two_tests true true x o = refl
two_tests true false x o = refl
two_tests false room x o = refl

last_kept :
    {A : Type 0} (later here room room1 : Bool) (x x1 o : Option A)
    → (here ≡ true → (room1 ≡ room) × (x1 ≡ x))
    → (if later && room then x else if here && room1 then x1 else o)
      ≡ (if (here || later) && room then x else o)
last_kept later true room room1 x x1 o same =
    rw ((same refl).0, (same refl).1) (two_tests later room x o)
last_kept true false room room1 x x1 o same = refl
last_kept false false room room1 x x1 o same = refl

module _ (share : Share) {Float : Type 0} (divide : ℤ → ℤ → Float) (n : ℕ)
    (req : WorkloadResourceRequest) (infos : Dict NodeResourceInfo) where
  same_capacity :
      (name k : String) (c1 c : NodeDeployCapacity Float)
      → (name =s k) ≡ true
      → capacity_of share divide n req (lookup name infos) ≡ ok c1
      → capacity_of share divide n req (lookup k infos) ≡ ok c
      → c1 ≡ c
  same_capacity name k c1 c here g1 g =
      let both : ok c1 ≡ ok c =
        sym g1
        ∙ ap (λ (m : String). capacity_of share divide n req (lookup m infos))
            ((=s_iff name k).0 here)
        ∙ g in
      cc

  -- The loops keep what is computed of a node that is asked for, where it has room.
  pub lookup-gather :
      (k : String) (names : List String) (cs : Dict (NodeDeployCapacity Float))
      (found : Dict (NodeDeployCapacity Float) × ℤ) (c : NodeDeployCapacity Float)
      → capacity_infos share divide n req infos names ≡ ok cs
      → capacity_of share divide n req (lookup k infos) ≡ ok c
      → lookup k (gather cs found).0
        ≡ (if contains k names && ltb_ℤ (pos 0) c.capacity then some c else lookup k (found.0))
  unfolding capacity_infos gather contains
  lookup-gather k [] cs found c e g = let none_left : cs ≡ [] = cc in rw none_left refl
  lookup-gather k (name ∷ names) cs found c e g =
      elim (Result-cases (capacity_of share divide n req (lookup name infos))) [
        | inr (f, g1) ↦ absurd (let bad : err f ≡ ok cs = (rw g1 at e) in cc)
        | inl (c1, g1) ↦ elim (Result-cases (capacity_infos share divide n req infos names)) [
          | inr (f, h) ↦ absurd (let bad : err f ≡ ok cs = (rw (g1, h) at e) in cc)
          | inl (rest, h) ↦
              let cs-eq : cs ≡ (name, c1) ∷ rest =
                (let both : ok ((name, c1) ∷ rest) ≡ ok cs = (rw (g1, h) at e) in cc) in
              rw cs-eq (
                lookup-gather k names rest _ c h g
                ∙ ap
                    (λ (o : Option (NodeDeployCapacity Float)).
                      if contains k names && ltb_ℤ (pos 0) c.capacity then some c else o)
                    (kept name k c1 found)
                ∙ last_kept (contains k names) (name =s k) (ltb_ℤ (pos 0) c.capacity)
                    (ltb_ℤ (pos 0) c1.capacity) (some c) (some c1) (lookup k (found.0))
                    (λ here.
                      let same : c1 ≡ c = same_capacity name k c1 c here g1 g in
                      (
                        ap (λ (a : NodeDeployCapacity Float). ltb_ℤ (pos 0) a.capacity) same,
                        ap some same,
                      )))
        ]
      ]

  -- The capacity of each node that is asked for has been computed.
  pub capacity_of-asked :
      (k : String) (names : List String) (cs : Dict (NodeDeployCapacity Float))
      → capacity_infos share divide n req infos names ≡ ok cs
      → contains k names ≡ true
      → (c : NodeDeployCapacity Float) × (capacity_of share divide n req (lookup k infos) ≡ ok c)
  unfolding capacity_infos contains
  capacity_of-asked k [] cs e asked = absurd (cc)
  capacity_of-asked k (name ∷ names) cs e asked =
      elim (Result-cases (capacity_of share divide n req (lookup name infos))) [
        | inr (f, g) ↦ absurd (let bad : err f ≡ ok cs = (rw g at e) in cc)
        | inl (c1, g) ↦ elim (Result-cases (capacity_infos share divide n req infos names)) [
          | inr (f, h) ↦ absurd (let bad : err f ≡ ok cs = (rw (g, h) at e) in cc)
          | inl (rest, h) ↦ elim (Bool-cases (name =s k)) [
            | inl here ↦ (c1, rw (← (=s_iff name k).0 here) g)
            | inr other ↦ capacity_of-asked k names rest h (ground arith)
          ]
        ]
      ]

  pub capacity_of-some :
      (info : NodeResourceInfo) (c : NodeDeployCapacity Float)
      → capacity_of share divide n req (some info) ≡ ok c
      → (capacity usage : NodeResource) × (info.capacity ≡ some capacity)
        × (info.usage ≡ some usage)
        × (c.capacity ≡ node_capacity share capacity usage n req)
  unfolding capacity_of do_get_node_deploy_capacity
  capacity_of-some info c e = elim (Option-cases info.capacity) [
    | inl none_there ↦ absurd (let bad : err _ ≡ ok c = (rw none_there at e) in cc)
    | inr (capacity, a) ↦ elim (Option-cases info.usage) [
      | inl none_there ↦ absurd (let bad : err _ ≡ ok c = (rw (a, none_there) at e) in cc)
      | inr (usage, b) ↦
          let made : ok (do_get_node_deploy_capacity divide share capacity usage n req) ≡ ok c =
            (rw (a, b) at e) in
          let same : do_get_node_deploy_capacity divide share capacity usage n req ≡ c = cc in
          (capacity, usage, a, b, ap (λ (x : NodeDeployCapacity Float). x.capacity) (sym same))
    ]
  ]
