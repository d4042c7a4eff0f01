-- ===== src/Storage/VerbExamples.antt =====
-- Tests of the verbs that read requests and records, and of the texts that they read.
use resource_extend.Base.{
  ℕ, String, false, ◌≡◌, ◌↔◌, refl, List, [], ◌∷◌, Option, none, some, arith, inl, inr, Bool-cases,
}
use resource_extend.Base.Int.{ℤ, pos, ltb_ℤ, ◌+ℤ◌, ◌-ℤ◌, quo}
use resource_extend.Base.Dict.{Dict, lookup, ◌=s◌, insert, count_of}
use resource_extend.Errors.{ok, err, other}
use resource_extend.Nodestore.{Store, key, get_multi}
use resource_extend.Nodestore.Multi.{IsRange}
use resource_extend.Nodestore.Examples.{list_kv, with_prefix}
use resource_extend.Storage.Disk.{Rates, Disk, sub, get_disk_by_device}
use resource_extend.Storage.Disk.Text.{parse_int, to_string, parse, join}
use resource_extend.Storage.Disk.Text.Numbers.{parse_int-decimal}
use resource_extend.Storage.Disk.Text.RoundTrip.{IsPrintable, ReadsNumbers, parse-to_string}
use resource_extend.Storage.Node.{NodeResource, NodeResourceInfo}
use resource_extend.Storage.Calculate.Exact.{AllocatesFor}
use resource_extend.Storage.Calculate.Deploy.{NodeDeployCapacity}
use resource_extend.Storage.Plugin.{Encoding, new_store, contains}
use resource_extend.Base.Word.{add64, sub64, wrap}
use resource_extend.Action.{◌>>=◌, ◌>>◌, lift, reads, pure}
use resource_extend.Storage.Binding.{need_schedule}
use resource_extend.Storage.Schedule.Plans.{Share, get_normal_plan, get_mount_disk_plan}
use resource_extend.Storage.Schedule.Capacity.{get_volume_capacity, normal_count_round}
use resource_extend.Storage.Schedule.Capacity.Promote.{promote}
use resource_extend.Storage.Schedule.Host.{new_host, clone, get_disk_by_path}
use resource_extend.Storage.Schedule.{is_disk_iops_quota_qualified}
use resource_extend.Storage.Disk.Paths
use resource_extend.Storage.Disk.Quota.{RatesInRange, rates_of}
use resource_extend.Storage.Binding.{VolumeBinding, has_char}
use resource_extend.Storage.Binding.Text
use resource_extend.Storage.Parse.{new_volume_binding}
use resource_extend.Storage.Parse.Flags.{IsSpellable}
use resource_extend.Storage.Parse.RoundTrip.{new_volume_binding-to_string}
use resource_extend.Storage.Usage.{WorkloadsUsage, diffs_of}
use resource_extend.Storage.Usage.Exact.{HasRates, diffs_of-eq-nil}
use resource_extend.Storage.Parse.{Reader}
use resource_extend.Storage.Queries.{calculate_deploy, get_nodes_deploy_capacity}
use resource_extend.Storage.Queries.Capacity.{reported, calculate_deploy-get_nodes_deploy_capacity}

abbrev rates_at : ℕ → Rates
rates_at n = record { read_iops = pos n; write_iops = pos n; read_bps = pos n; write_bps = pos n }

abbrev or_nil : Option (List String) → List String
or_nil none = []
or_nil (some xs) = xs

-- Raw parameters are texts by key here, and a size is a plain number; each request asks for 5 bytes of
-- storage.
abbrev dict_reader : Reader
dict_reader = record {
  Raw = Dict (List String);
  string_slice = λ raw k. or_nil (lookup k raw);
  text = λ raw k. "";
  size_in_bytes = λ raw k. ok (pos 5);
  is_set = λ raw k. false;
  parse_ram_in_human = parse_int;
  decode_resource = λ raw. err (other "unused");
  decode_workload = λ raw. err (other "unused");
}

abbrev node_info : NodeResourceInfo
node_info = record {
  capacity = some (record { volumes = ("/data0", pos 100) ∷ []; disks = []; storage = pos 1000 });
  usage = some (record { volumes = ("/data0", pos 50) ∷ []; disks = []; storage = pos 50 });
}

abbrev one_encoding : Encoding
one_encoding = record {
  marshal = λ info. ok "info";
  unmarshal = λ text into. ok node_info;
  tail = λ name. "n";
}

abbrev info_store : Store NodeResourceInfo
info_store = new_store list_kv one_encoding

abbrev one_node : Dict String
one_node = ("/resource/storage/n", "info") ∷ []

one_node-IsRange : IsRange info_store one_node one_node
one_node-IsRange = record {
  range = unfold with_prefix key in refl;
  single = λ n. refl;
  once = unfold lookup in (refl, tt);
  node_keys = unfold key in (("n", refl, refl), tt);
}

abbrev auto_request : Dict (List String)
auto_request = ("volumes", "AUTO:/dir:rw:20" ∷ []) ∷ []

abbrev keep_size : Share
keep_size size total volume_size = size

abbrev nothing : ℤ → ℤ → ℤ
nothing a b = pos 0

abbrev two_on_n : Dict (NodeDeployCapacity ℤ) × ℤ
two_on_n =
    (("n", record { capacity = pos 2; usage = pos 0; rate = pos 0; weight = pos 1 }) ∷ [], pos 2)

answer_lem :
    get_nodes_deploy_capacity dict_reader info_store keep_size nothing 2
      ("n" ∷ [])
      auto_request
      one_node
    ≡ (ok two_on_n, one_node)
unfolding get_nodes_deploy_capacity get_multi ◌>>=◌ lift reads pure lookup parse_int with_prefix key
    insert add64 wrap ◌+ℤ◌ ◌-ℤ◌ quo sub64 need_schedule get_volume_capacity new_host count_of
    promote normal_count_round get_normal_plan ◌>>◌ clone get_disk_by_path
    is_disk_iops_quota_qualified Paths.get_disk_by_path sub get_mount_disk_plan
answer_lem = refl

calculate_deploy-get_nodes_deploy_capacity_example :
    AllocatesFor 2
      (ltb_ℤ (reported "n" two_on_n) (pos 2))
      (calculate_deploy dict_reader info_store keep_size "n" 2 auto_request one_node).0
calculate_deploy-get_nodes_deploy_capacity_example =
    calculate_deploy-get_nodes_deploy_capacity dict_reader info_store keep_size nothing ("n" ∷ [])
      "n" auto_request 2 2 one_node one_node one_node two_on_n (omega arith) (omega arith)
      (omega arith) (inl refl) one_node-IsRange (λ text e h. ground arith) (unfold contains in refl)
      answer_lem

abbrev small_disk : Disk
small_disk = record { device = "/dev/sda"; mounts = "/data0" ∷ "/data1" ∷ []; rates = rates_at 40 }

small_disk-IsPrintable : IsPrintable small_disk
unfolding has_char join
small_disk-IsPrintable = record {
  device = refl;
  first = "/data0";
  others = "/data1" ∷ [];
  mounts = refl;
  mounts_text = refl;
  commas = (refl, (refl, tt));
  rates = omega arith;
  read_bps = omega arith;
  write_bps = omega arith;
}

numbers_read : ReadsNumbers parse_int
numbers_read a h = parse_int-decimal a (omega (arith, h.0, h.1))

parse-to_string_example : parse parse_int (to_string small_disk) ≡ ok small_disk
parse-to_string_example = parse-to_string parse_int numbers_read small_disk small_disk-IsPrintable

abbrev read_only : VolumeBinding
read_only = record {
  source = "AUTO";
  destination = "/dir";
  flags = "or";
  size_in_bytes = pos 20;
  rates = rates_at 0;
}

read_only_lem : new_volume_binding parse_int "AUTO:/dir:ro:20" ≡ ok read_only
unfolding new_volume_binding parse_int
read_only_lem = refl

new_volume_binding-to_string_example :
    (IsSpellable read_only.flags
      → new_volume_binding parse_int (Text.to_string false read_only) ≡ ok read_only)
    × (read_only.flags ≡ "orw"
        → ¬ (new_volume_binding parse_int (Text.to_string false read_only) ≡ ok read_only))
new_volume_binding-to_string_example =
    new_volume_binding-to_string parse_int numbers_read "AUTO:/dir:ro:20" read_only read_only_lem
      (record {
        size = omega arith;
        read_iops = omega arith;
        write_iops = omega arith;
        read_bps = omega arith;
        write_bps = omega arith;
      })

abbrev in_use : WorkloadsUsage
in_use = record { volumes = ("/data0", pos 20) ∷ []; disks = small_disk ∷ []; storage = pos 5 }

abbrev stored_usage : NodeResource
stored_usage = record {
  volumes = ("/data1", pos 0) ∷ ("/data0", pos 20) ∷ [];
  disks = small_disk ∷ [];
  storage = pos 5;
}

in_use-rates : (k : String) → RatesInRange (rates_of k in_use.disks)
unfolding rates_of get_disk_by_device
in_use-rates k = elim (Bool-cases ("/dev/sda" =s k)) [
  | inl e ↦ rw e (omega arith)
  | inr e ↦ rw e (omega arith)
]

diffs_of-eq-nil_example : (diffs_of stored_usage in_use ≡ []) ↔ (
    (stored_usage.storage ≡ in_use.storage)
    × ((k : String) → count_of k stored_usage.volumes ≡ count_of k in_use.volumes)
    × HasRates in_use.disks stored_usage.disks)
diffs_of-eq-nil_example = diffs_of-eq-nil stored_usage in_use (omega arith) in_use-rates
