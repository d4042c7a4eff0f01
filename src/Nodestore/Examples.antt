-- ===== src/Nodestore/Examples.antt =====
-- Tests of the store on an etcd client that keeps a list of keys, with texts for infos.
use Prim.Native.Char.{code}
use mathlib.Core.Bool.{false≢true}
use text.Mathlib.TextEquality.{eq_iff}
use text.Mathlib.Text.{starts_with}
use resource_extend.Base.{
  String, Bool, false, ◌==◌, ◌||◌, ◌≡◌, refl, [], ◌∷◌, none, arith, if◌then◌else◌,
}
use resource_extend.Base.Dict.{Dict, lookup, insert, ◌=s◌, =s_iff, lookup-insert}
use resource_extend.Errors.{ok, err, node_exists, node_not_exists}
use resource_extend.Nodestore.{
  Kv, Store, key, get, get_or_empty, get_multi, put, delete, check_absent,
}
use resource_extend.Nodestore.Laws.{
  IsKv, RoundTrips, get-put, get-put_other, get-delete, check_absent-put-delete,
}
use resource_extend.Nodestore.Multi.{IsRange, read_each, get_multi-eq-read_each}

unfoldable pub drop_key : String → Dict String → Dict String
drop_key k [] = []
drop_key k ((j, v) ∷ m) = if j =s k then drop_key k m else (j, v) ∷ drop_key k m

lookup-drop_key :
    (k j : String) (m : Dict String)
    → lookup j (drop_key k m) ≡ (if k =s j then none else lookup j m)
unfolding lookup drop_key
lookup-drop_key k j [] = ground arith
lookup-drop_key k j ((i, w) ∷ m) =
    ground (arith, lookup-drop_key k j m, eq_iff k j, eq_iff i k, eq_iff i j)

unfoldable pub with_prefix : String → Dict String → Dict String
with_prefix p [] = []
with_prefix p ((k, v) ∷ m) = if starts_with k p then (k, v) ∷ with_prefix p m else with_prefix p m

abbrev pub list_kv : Kv
list_kv = record {
  State = Dict String;
  get = λ k st. ok (lookup k st);
  get_prefix = λ p st. ok (with_prefix p st);
  put = λ k v st. (ok tt, insert k v st);
  delete = λ k st. (ok tt, drop_key k st);
}

pub list_kv-IsKv : IsKv list_kv
list_kv-IsKv = record {
  put_read = λ k v s t h. ground (arith, lookup-insert k k v s, eq_iff k k);
  put_read_other = λ k j v s t h ne. ground (arith, lookup-insert k j v s, eq_iff k j);
  delete_read = λ k s t h. ground (arith, lookup-drop_key k k s, eq_iff k k);
  delete_read_other = λ k j s t h ne. ground (arith, lookup-drop_key k j s, eq_iff k j);
  put_failed = λ k j v s t h. ground arith;
  delete_failed = λ k j s t h. ground arith;
}

has_slash : String → Bool
has_slash String.[] = false
has_slash (String.◌∷◌ c s) = (code c == 0x2f) || has_slash s

after_slash : String → String
unfolding has_slash
after_slash String.[] = ""
after_slash (String.◌∷◌ c s) =
    let rest = after_slash s in
    if has_slash s then rest else if code c == 0x2f then s else String.◌∷◌ c s

abbrev text_store : Store String
text_store = record {
  kv = list_kv;
  key_prefix = "/resource/test/";
  info = record { new_info = ""; validate = ok; marshal = ok; unmarshal = λ text into. ok text };
  tail = after_slash;
}

text_store-RoundTrips : RoundTrips text_store.info
text_store-RoundTrips a text h = ground arith

abbrev one_node : Dict String
one_node = ("/resource/test/n1", "first") ∷ []

get-put_example :
    get text_store "n2" (("/resource/test/n1", "first") ∷ ("/resource/test/n2", "second") ∷ [])
    ≡ ok "second"
get-put_example =
    get-put text_store list_kv-IsKv "n2" "second" one_node text_store-RoundTrips
      (unfold put key insert in refl)

get-put_other_example :
    get text_store "n1" (("/resource/test/n1", "first") ∷ ("/resource/test/n2", "second") ∷ [])
    ≡ get text_store "n1" one_node
get-put_other_example =
    get-put_other text_store list_kv-IsKv "n2" "n1" "second" one_node
      (unfold put key insert in refl) (λ e. false≢true ((=s_iff "n2" "n1").1 e))

get-delete_example : get text_store "n1" [] ≡ err node_not_exists
get-delete_example =
    get-delete text_store list_kv-IsKv "n1" one_node (unfold delete key drop_key in refl)

check_absent-put-delete_example :
    (check_absent text_store "n2"
        (("/resource/test/n1", "first") ∷ ("/resource/test/n2", "second") ∷ [])
      ≡ err node_exists)
    × (get_or_empty text_store "n2"
          (("/resource/test/n1", "first") ∷ ("/resource/test/n2", "second") ∷ [])
        ≡ ok "second")
    × (check_absent text_store "n2" one_node ≡ ok tt)
    × (get_or_empty text_store "n2" one_node ≡ ok "")
check_absent-put-delete_example =
    check_absent-put-delete text_store list_kv-IsKv "n2" "second" one_node text_store-RoundTrips
      (unfold put key insert in refl) (unfold delete key drop_key in refl)

one_node-IsRange : IsRange text_store one_node one_node
one_node-IsRange = record {
  range = unfold with_prefix key in refl;
  single = λ n. refl;
  once = unfold lookup in (refl, tt);
  node_keys = unfold key after_slash in (("n1", refl, refl), tt);
}

get_multi-eq-read_each_example :
    get_multi text_store ("n1" ∷ "n2" ∷ []) one_node
    ≡ read_each text_store one_node [] ("n1" ∷ "n2" ∷ [])
get_multi-eq-read_each_example =
    get_multi-eq-read_each text_store one_node one_node ("n1" ∷ "n2" ∷ []) one_node-IsRange
      (λ text e h. ground arith)
