-- ===== src/Storage/HistoryExamples.antt =====
-- Tests of the storage plugin on an etcd client that keeps a list of keys. Raw parameters are resources
-- here, and the encoding knows one record: 7 bytes of storage and nothing else.
use resource_extend.Base.{
  String, Bool, true, false, ◌&&◌, ◌≡◌, refl, List, [], ◌∷◌, Option, none, some, arith, subst,
  if◌then◌else◌,
}
use resource_extend.Base.Int.{ℤ, pos, negsuc, eqb_ℤ, eq_of_parts, ◌+ℤ◌}
use resource_extend.Base.Dict.{Dict, lookup, insert, ◌=s◌}
use resource_extend.Errors.{Result, ok, err, other}
use text.Mathlib.TextEquality.{eq_iff}
use resource_extend.Action.{◌>>=◌, ◌>>◌, lift, reads, pure}
use resource_extend.Base.Word.{add64, wrap}
use resource_extend.Storage.Disk.{add, remove_mounts}
use resource_extend.Storage.Usage.{storage_differs}
use resource_extend.Storage.Usage.Settled.{AllDistinct}
use resource_extend.Storage.Plugin.Compare.{InfoResponse, fix_node_resource}
use resource_extend.Storage.Plugin.Compare.Fixing.{Settled, DecodesDistinct, storage_fix-Settled}
use resource_extend.Nodestore.{get, put, key}
use resource_extend.Nodestore.Laws.{RoundTrips}
use resource_extend.Nodestore.Examples.{list_kv, list_kv-IsKv}
use resource_extend.Storage.Node.{NodeResource, NodeResourceInfo, WorkloadUsage, validate}
use resource_extend.Storage.Plugin.{Core, Encoding, new_store, parse_workloads}
use resource_extend.Storage.Plugin.Histories.{Call, AllWithin, after_calls, after_calls-AllWithin}

abbrev pub bytes : ℤ → NodeResource
bytes n = record { volumes = []; disks = []; storage = n }

abbrev pub seven_info : NodeResourceInfo
seven_info = record { capacity = some (bytes (pos 7)); usage = some (bytes (pos 0)) }

unfoldable pub is_nil : {A : Type 0} → List A → Bool
is_nil [] = true
is_nil (a ∷ items) = false

is_nil_eq : {A : Type 0} (items : List A) → is_nil items ≡ true → items ≡ []
unfolding is_nil
is_nil_eq [] h = refl
is_nil_eq (a ∷ items) h = ground arith

unfoldable pub has_bytes : ℤ → Option NodeResource → Bool
has_bytes n none = false
has_bytes n (some r) = is_nil r.volumes && is_nil r.disks && eqb_ℤ r.storage n

has_bytes_eq : (n : ℤ) (o : Option NodeResource) → has_bytes n o ≡ true → o ≡ some (bytes n)
unfolding has_bytes
has_bytes_eq n none h = ground arith
has_bytes_eq n (some r) h =
    ground (arith, is_nil_eq r.volumes, is_nil_eq r.disks, eq_of_parts r.storage n)

unfoldable pub marshal_seven : NodeResourceInfo → Result String
marshal_seven m =
    if has_bytes (pos 7) m.capacity && has_bytes (pos 0) m.usage
    then ok "seven"
    else err (other "unknown")

abbrev pub seven_encoding : Encoding
seven_encoding = record {
  marshal = marshal_seven;
  unmarshal = λ text into. ok seven_info;
  tail = λ name. name;
}

pub seven_encoding-RoundTrips : RoundTrips (new_store list_kv seven_encoding).info
unfolding marshal_seven
seven_encoding-RoundTrips m text h =
    ground (arith, has_bytes_eq (pos 7) m.capacity, has_bytes_eq (pos 0) m.usage)

abbrev resource_core : Core
resource_core = record {
  Raw = NodeResource;
  parse_resource = ok;
  parse_request = λ r. ok (record {
    volumes = r.volumes;
    storage = r.storage;
    disks = r.disks;
    rm_disks = [];
    is_set = λ name. true;
  });
  parse_workload = λ r.
      ok
        (record { volume_plan_request = []; storage_request = r.storage; disks_request = r.disks });
  is_set = λ raw name. true;
}

abbrev some_calls : List (Call resource_core)
some_calls =
    Call.adds "n" (bytes (pos 7)) none
    ∷ Call.sets_usage "n" none (some (bytes (pos 3))) [] true true
    ∷ Call.sets_capacity "n" none (some (bytes (negsuc 0))) false true
    ∷ Call.removes "m"
    ∷ []

pub nothing-AllWithin : AllWithin resource_core list_kv seven_encoding []
unfolding get
nothing-AllWithin n i h = unfold lookup in ground arith

after_calls-AllWithin_example :
    AllWithin resource_core list_kv seven_encoding
      (after_calls resource_core list_kv seven_encoding some_calls [])
after_calls-AllWithin_example =
    after_calls-AllWithin resource_core list_kv seven_encoding list_kv-IsKv
      seven_encoding-RoundTrips some_calls [] nothing-AllWithin

-- A record whose usage is 3 bytes, under another text.
abbrev old_encoding : Encoding
old_encoding = record {
  marshal = marshal_seven;
  unmarshal = λ text into.
      if text =s "seven"
      then ok seven_info
      else ok (record { capacity = some (bytes (pos 7)); usage = some (bytes (pos 3)) });
  tail = λ name. name;
}

old_encoding-RoundTrips : RoundTrips (new_store list_kv old_encoding).info
unfolding marshal_seven
old_encoding-RoundTrips m text h =
    ground
      (arith, has_bytes_eq (pos 7) m.capacity, has_bytes_eq (pos 0) m.usage, eq_iff text "seven")

abbrev old_node : Dict String
old_node = ("/resource/storage/n", "old") ∷ []

abbrev fixed_node : Dict String
fixed_node = ("/resource/storage/n", "seven") ∷ []

abbrev fixed : InfoResponse
fixed = record {
  capacity = bytes (pos 7);
  usage = bytes (pos 0);
  diffs = storage_differs (pos 3) (pos 0) ∷ [];
}

fix_lem :
    fix_node_resource resource_core
      (new_store list_kv old_encoding)
      "n"
      (bytes (pos 0) ∷ [])
      old_node
    ≡ (ok fixed, fixed_node)
unfolding fix_node_resource ◌>>=◌ ◌>>◌ lift reads pure get put lookup insert key validate
    marshal_seven has_bytes is_nil parse_workloads add ◌+ℤ◌ add64 wrap remove_mounts
fix_lem = refl

bytes-DecodesDistinct :
    DecodesDistinct resource_core list_kv old_encoding list_kv-IsKv old_encoding-RoundTrips
      (bytes (pos 0) ∷ [])
unfolding parse_workloads
bytes-DecodesDistinct ms e =
    let nothing_used : WorkloadUsage = record {
      volume_plan_request = [];
      storage_request = pos 0;
      disks_request = [];
    } in
    let same : nothing_used ∷ [] ≡ ms = cc in subst AllDistinct same (tt, tt)

storage_fix-Settled_example :
    Settled resource_core list_kv old_encoding list_kv-IsKv old_encoding-RoundTrips "n"
      (bytes (pos 0) ∷ [])
      fixed_node
      fixed
storage_fix-Settled_example =
    storage_fix-Settled resource_core list_kv old_encoding list_kv-IsKv old_encoding-RoundTrips "n"
      (bytes (pos 0) ∷ []) old_node fixed_node fixed bytes-DecodesDistinct fix_lem
