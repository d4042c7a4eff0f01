-- ===== src/Gpu/HistoryExamples.antt =====
-- Tests of the gpu plugin on an etcd client that keeps a list of keys. Raw parameters are count maps
-- here, and the encoding knows the infos without capacity and with at most one card in use.
use resource_extend.Base.{
  String, ◌≡◌, refl, [], ◌∷◌, none, some, true, false, arith, if◌then◌else◌, ◌==◌, ◌⊎◌, inl, inr,
  Bool-cases, subst,
}
use resource_extend.Base.Int.{ℤ, pos, negsuc, ◌+ℤ◌}
use resource_extend.Base.Dict.{Dict, lookup, insert, ◌=s◌, count_of, or_zero, erase}
use resource_extend.Errors.{Result, ok, err, other}
use resource_extend.Nodestore.{get, key, put}
use resource_extend.Nodestore.Laws.{RoundTrips}
use resource_extend.Nodestore.Examples.{list_kv, list_kv-IsKv}
use resource_extend.Gpu.Types.{
  ProdCountMap, NodeResourceInfo, count, add, count_from, drop_zero, usage_count, validate_info,
  validate, is_blank, is_space,
}
use resource_extend.Gpu.Resource.{
  total_differs, not_in_usage, diffs_of, workloads_usage, change, change_all, product_diffs,
}
use resource_extend.Gpu.Store.{Encoding, new_store, checked}
use resource_extend.Gpu.Plugin.{
  Core, InfoResponse, fix_node_resource, compare_usage, write_fix, decode_all,
}
use resource_extend.Gpu.Histories.{Call, run, AllValid, run-AllValid}
use resource_extend.Gpu.Fixing.{Settled, fix-Settled}
use resource_extend.Action.{◌>>=◌, ◌>>◌, reads, lift, pure}
use resource_extend.Base.Word.{add64, wrap}

unfoldable pub marshal_usage : ProdCountMap → Result String
marshal_usage [] = ok ""
marshal_usage ((prod, pos n) ∷ []) =
    if prod =s "" then err (other "no name") else if n == 1 then ok prod else err (other "many")
marshal_usage m = err (other "many")

unfoldable pub marshal_info : NodeResourceInfo → Result String
unfolding marshal_usage
marshal_info info = elim info.capacity [
  | [] ↦ if info.usage_is_nil then err (other "nil") else marshal_usage info.usage
  | p ∷ m ↦ err (other "capacity")
]

abbrev pub usage_named : String → ProdCountMap
usage_named text = if text =s "" then [] else (text, pos 1) ∷ []

unfoldable pub unmarshal_info : String → NodeResourceInfo → Result NodeResourceInfo
unmarshal_info text into =
    ok (record { capacity = []; usage = usage_named text; usage_is_nil = false })

abbrev pub one_card_encoding : Encoding
one_card_encoding = record {
  marshal = marshal_info;
  unmarshal = unmarshal_info;
  tail = λ name. name;
}

abbrev pub map_core : Core
map_core = record {
  Raw = ProdCountMap;
  decode = ok;
  decodes_to_nil = λ raw. false;
  is_set = λ raw name. true;
  Float = ℤ;
  advanced_divide = λ a b. a;
  less = λ a b. false;
  max_float = pos 0;
}

usage_trips :
    (usage : ProdCountMap) (text : String)
    → marshal_usage usage ≡ ok text
    → usage_named text ≡ usage
unfolding marshal_usage
usage_trips [] text h = let e : "" ≡ text = ground arith in subst (λ t. usage_named t ≡ []) e refl
usage_trips ((prod, pos n) ∷ []) text h = elim (Bool-cases (prod =s "")) [
  | inl e ↦ ground arith
  | inr e ↦ elim (Bool-cases (n == 1)) [
    | inl one ↦
        let same : prod ≡ text = ground arith in
        let single : n ≡ 1 = ground arith in rw (← same, e, single) refl
    | inr many ↦ ground arith
  ]
]
usage_trips ((prod, negsuc n) ∷ []) text h = ground arith
usage_trips ((prod, pos n) ∷ p ∷ m) text h = ground arith
usage_trips ((prod, negsuc n) ∷ p ∷ m) text h = ground arith

Capacity-cases :
    (m : ProdCountMap) → (m ≡ []) ⊎ ((p : String × ℤ) × (r : ProdCountMap) × (m ≡ p ∷ r))
Capacity-cases [] = inl refl
Capacity-cases (p ∷ r) = inr (p, r, refl)

info_eq :
    (info : NodeResourceInfo) (text : String)
    → info.capacity ≡ []
    → usage_named text ≡ info.usage
    → info.usage_is_nil ≡ false
    → unmarshal_info text info ≡ ok info
unfolding unmarshal_info
info_eq info text e u f = rw (u, ← e, ← f) refl

pub one_card_encoding-RoundTrips : RoundTrips (new_store list_kv one_card_encoding).info
unfolding marshal_info unmarshal_info
one_card_encoding-RoundTrips info text h = elim (Capacity-cases info.capacity) [
  | inl e ↦ info_eq info text e (usage_trips info.usage text (ground arith)) (ground arith)
  | inr (p, m, e) ↦ ground arith
]

abbrev used_node : Dict String
used_node = ("/resource/gpu/n", "") ∷ []

pub empty-AllValid : AllValid map_core list_kv one_card_encoding []
unfolding get
empty-AllValid n i h = unfold lookup in ground arith

run-AllValid_example : AllValid map_core list_kv one_card_encoding (
    run map_core list_kv one_card_encoding
      (Call.adds "n" (("a100", pos 2) ∷ [])
        ∷ Call.sets_usage "n" none (some (("a100", pos 1) ∷ [])) [] false true
        ∷ Call.removes "m"
        ∷ [])
      [])
run-AllValid_example =
    run-AllValid map_core list_kv one_card_encoding list_kv-IsKv one_card_encoding-RoundTrips
      (Call.adds "n" (("a100", pos 2) ∷ [])
        ∷ Call.sets_usage "n" none (some (("a100", pos 1) ∷ [])) [] false true
        ∷ Call.removes "m"
        ∷ [])
      [] empty-AllValid

abbrev fixed : InfoResponse
fixed = record {
  capacity = [];
  usage = ("a100", pos 1) ∷ [];
  diffs = total_differs (pos 0) (pos 1) ∷ not_in_usage "a100" ∷ [];
}

fix-Settled_example :
    Settled map_core list_kv one_card_encoding list_kv-IsKv one_card_encoding-RoundTrips "n"
      ((("a100", pos 1) ∷ []) ∷ [])
      (("/resource/gpu/n", "a100") ∷ [])
      fixed
unfolding ◌>>=◌ compare_usage reads get lookup key unmarshal_info lift pure write_fix diffs_of count
    workloads_usage add count_of insert add64 ◌>>◌ erase or_zero ◌+ℤ◌ wrap decode_all change
    change_all product_diffs count_from drop_zero usage_count put fix_node_resource validate_info
    validate is_blank is_space checked marshal_info marshal_usage
fix-Settled_example =
    fix-Settled map_core list_kv one_card_encoding list_kv-IsKv one_card_encoding-RoundTrips "n"
      ((("a100", pos 1) ∷ []) ∷ []) used_node (("/resource/gpu/n", "a100") ∷ []) fixed refl
