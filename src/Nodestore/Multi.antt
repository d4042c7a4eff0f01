-- ===== src/Nodestore/Multi.antt =====
-- GetMulti reads all nodes at once; its specification reads them one by one.
use text.Mathlib.TextEquality.{eq_iff}
use mathlib.Core.Bool.{false≢true}
use resource_extend.Base.{
  String, List, [], ◌∷◌, ◌≡◌, ◌≢◌, sym, ◌∙◌, refl, Option, none, some, inl, inr, arith, false,
  Bool-cases,
}
use resource_extend.Base.Dict.{Dict, lookup, insert, IsMap, lookup-insert, ◌=s◌, =s_iff}
use resource_extend.Errors.{Error, Result, ok, err, ◌>>=◌, is_node_not_exists, Result-cases}
use resource_extend.Nodestore.{
  Store, key, decode_found, decode_or_new, or_empty, get, get_or_empty, stored_by_name, collect,
  get_multi,
}
use resource_extend.Nodestore.Laws.{key_injective}

module _ {T : Type 0} (s : Store T) where
  open s use {kv, info, tail}

  -- `GetOrEmpty` for each name in turn, into a map.
  unfoldable pub read_each : kv.State → Dict T → List String → Result (Dict T)
  read_each st infos [] = ok infos
  read_each st infos (n ∷ names) =
      get_or_empty s n st >>= λ i. read_each st (insert n i infos) names

  -- Every key of the range is the key of a node, whose name `Tail` finds again.
  abbrev pub AreNodeKeys : Dict String → Type 0
  AreNodeKeys [] = Unit {0}
  AreNodeKeys ((k, value) ∷ kvs) = ((n : String) × (k ≡ key s n) × (tail k ≡ n)) × AreNodeKeys kvs

  -- The response to the range read agrees with single reads.
  pub record IsRange (st : kv.State) (kvs : Dict String) : Type 0 where
    pub range : kv.get_prefix (key s "") st ≡ ok kvs
    pub single : (n : String) → kv.get (key s n) st ≡ ok (lookup (key s n) kvs)
    pub once : IsMap kvs
    pub node_keys : AreNodeKeys kvs

  abbrev or_else : Option String → Option String → Option String
  or_else (some v) o = some v
  or_else none o = o

  or_else_none : (o : Option String) (n : String) → or_else o (lookup n []) ≡ o
  unfolding lookup
  or_else_none none n = refl
  or_else_none (some v) n = refl

  lookup-stored_by_name :
      (n : String) (stored kvs : Dict String)
      → IsMap kvs
      → AreNodeKeys kvs
      → lookup n (stored_by_name s stored kvs) ≡ or_else (lookup (key s n) kvs) (lookup n stored)
  unfolding stored_by_name lookup
  lookup-stored_by_name n stored [] h a = refl
  lookup-stored_by_name n stored ((k, value) ∷ kvs) h a =
      let m = a.0.0 in
      let ih = lookup-stored_by_name n (insert (tail k) value stored) kvs h.1 a.1 in
      let w = lookup-insert (tail k) n value stored in
      elim (Bool-cases (m =s n)) [
        | inl same ↦
            let e : m ≡ n = (=s_iff m n).0 same in
            let k-eq : k ≡ key s n = rw (← e) a.0.1 in
            ground (arith, ih, w, e, k-eq, a.0.2, eq_iff k (key s n), eq_iff (tail k) n, h.0)
        | inr other ↦
            let ne : k ≢ key s n =
              λ e. false≢true (sym other ∙ (=s_iff m n).1 (key_injective s m n (sym a.0.1 ∙ e))) in
            ground (arith, ih, w, ne, a.0.2, other, eq_iff k (key s n), eq_iff (tail k) n)
      ]

  -- A value that cannot be decoded is not reported as a missing node.
  abbrev pub NoDecodeMisses : Type 0
  NoDecodeMisses =
      (text : String) (e : Error)
      → info.unmarshal text info.new_info ≡ err e
      → is_node_not_exists e ≡ false

  or_empty-unmarshal :
      (text : String)
      → NoDecodeMisses
      → or_empty s (info.unmarshal text info.new_info) ≡ info.unmarshal text info.new_info
  unfolding or_empty
  or_empty-unmarshal text honest = elim (Result-cases (info.unmarshal text info.new_info)) [
    | inl (i, e) ↦ rw e
    | inr (f, e) ↦ rw e (rw (honest text f e))
  ]

  decode_cases :
      (o : Option String) → NoDecodeMisses → decode_or_new s o ≡ or_empty s (decode_found s o)
  unfolding decode_or_new decode_found or_empty is_node_not_exists
  decode_cases none honest = refl
  decode_cases (some text) honest = sym (or_empty-unmarshal text honest)

  -- One name: what the range read has for it is what `GetOrEmpty` gives.
  decode_or_new_lem :
      (st : kv.State) (kvs : Dict String) (n : String)
      → IsRange st kvs
      → NoDecodeMisses
      → decode_or_new s (lookup n (stored_by_name s [] kvs)) ≡ get_or_empty s n st
  unfolding get_or_empty get
  decode_or_new_lem st kvs n r honest =
      let found = lookup-stored_by_name n [] kvs r.once r.node_keys in
      rw (found, r.single n, or_else_none (lookup (key s n) kvs) n)
        (decode_cases (lookup (key s n) kvs) honest)

  collect-eq-read_each :
      (st : kv.State) (kvs : Dict String) (infos : Dict T) (names : List String)
      → IsRange st kvs
      → NoDecodeMisses
      → collect s (stored_by_name s [] kvs) infos names ≡ read_each st infos names
  unfolding collect read_each
  collect-eq-read_each st kvs infos [] r honest = refl
  collect-eq-read_each st kvs infos (n ∷ names) r honest =
      rw (decode_or_new_lem st kvs n r honest) (elim (Result-cases (get_or_empty s n st)) [
        | inl (i, e) ↦ rw e (collect-eq-read_each st kvs (insert n i infos) names r honest)
        | inr (f, e) ↦ rw e
      ])

  -- The range read of `GetMulti` gives the map, or the error, of `GetOrEmpty` on each node in turn,
  -- if the response holds the node keys, each once, with the values of single reads, and a value
  -- that cannot be decoded is not reported as a missing node.
  pub get_multi-eq-read_each :
      (st : kv.State) (kvs : Dict String) (names : List String)
      → IsRange st kvs
      → NoDecodeMisses
      → get_multi s names st ≡ read_each st [] names
  unfolding get_multi
  get_multi-eq-read_each st kvs names r honest =
      rw r.range (collect-eq-read_each st kvs [] names r honest)
