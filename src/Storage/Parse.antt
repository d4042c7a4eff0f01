-- ===== src/Storage/Parse.antt =====
-- How requests are read from raw parameters: NewVolumeBinding of storage/types/volume.go, and Parse
-- of storage/types/workload.go and storage/types/node.go. What they use of the package core is a
-- parameter: the access to raw parameters, the reading of a size, and the decoding of structures.
pub mod Flags
pub mod Made
pub mod RoundTrip
use Prim.Native.String.{String}
use Prim.Native.Char.{Char, code}
use resource_extend.Base.{Bool, false, leb, List, [], ◌∷◌, if◌then◌else◌}
use resource_extend.Base.Int.{ℤ}
use resource_extend.Base.Word.{add64}
use resource_extend.Base.Dict.{◌=s◌, insert}
use resource_extend.Errors.{joined, invalid_volume, invalid_disk, Result, ok, err, ◌>>=◌}
use resource_extend.Storage.Volumes.{Volumes, total}
use resource_extend.Storage.Disk.{Disk, Disks}
use resource_extend.Storage.Disk.Text.{split}
use resource_extend.Storage.Disk.Text
use resource_extend.Storage.Binding.{VolumeBinding, VolumeBindings, VolumePlan, validate_one}
use resource_extend.Storage.Node.{NodeResource, NodeResourceRequest, WorkloadUsage}
use resource_extend.Storage.Workload.{WorkloadResource, WorkloadResourceRequest}
use resource_extend.Storage.Plugin.{Core}

-- What is used of core.
pub record Reader : Type 1 where
  pub Raw : Type 0
  pub string_slice : Raw → String → List String
  pub text : Raw → String → String
  pub size_in_bytes : Raw → String → Result ℤ
  pub is_set : Raw → String → Bool
  pub parse_ram_in_human : String → Result ℤ
  pub decode_resource : Raw → Result NodeResource
  pub decode_workload : Raw → Result WorkloadResource

-- `slices.Sort(strings.Split(s, ""))`, joined again.
unfoldable pub insert_char : Char → String → String
insert_char c String.[] = String.◌∷◌ c String.[]
insert_char c (String.◌∷◌ d s) =
    let rest = insert_char c s in
    if leb (code c) (code d) then String.◌∷◌ c (String.◌∷◌ d s) else String.◌∷◌ d rest

unfoldable pub sort_chars : String → String
unfolding insert_char
sort_chars String.[] = String.[]
sort_chars (String.◌∷◌ c s) = insert_char c (sort_chars s)

-- The flags; `cmp.Or(flags, "rw")`
unfoldable pub flags_or_rw : String → String
flags_or_rw s = if s =s "" then "rw" else s

-- The parts from the third on, with those that are left out.
abbrev pub Rest : Type 0
Rest = List String

abbrev zero_text : String
zero_text = "0"

module _ (parse_ram_in_human : String → Result ℤ) where
  unfoldable pub new_from_parts :
      String → String → String → String → String → String → String → String → Result VolumeBinding
  unfolding sort_chars flags_or_rw validate_one
  new_from_parts source destination flags size read_iops write_iops read_bps write_bps =
      parse_ram_in_human size >>= λ n. parse_ram_in_human read_iops >>= λ ri.
      parse_ram_in_human write_iops >>= λ wi. parse_ram_in_human read_bps >>= λ rb.
      parse_ram_in_human write_bps >>= λ wb.
      let vb : VolumeBinding = record {
        source = source;
        destination = destination;
        flags = flags_or_rw (sort_chars flags);
        size_in_bytes = n;
        rates = record { read_iops = ri; write_iops = wi; read_bps = rb; write_bps = wb };
      } in
      validate_one vb >>= λ _. ok vb

  -- By the number of parts, from two to eight.
  unfoldable pub binding_of_parts : List String → Result VolumeBinding
  unfolding new_from_parts
  binding_of_parts (s ∷ d ∷ []) =
      new_from_parts s d "rw" zero_text zero_text zero_text zero_text zero_text
  binding_of_parts (s ∷ d ∷ f ∷ []) =
      new_from_parts s d f zero_text zero_text zero_text zero_text zero_text
  binding_of_parts (s ∷ d ∷ f ∷ n ∷ []) =
      new_from_parts s d f n zero_text zero_text zero_text zero_text
  binding_of_parts (s ∷ d ∷ f ∷ n ∷ ri ∷ []) =
      new_from_parts s d f n ri zero_text zero_text zero_text
  binding_of_parts (s ∷ d ∷ f ∷ n ∷ ri ∷ wi ∷ []) = new_from_parts s d f n ri wi zero_text zero_text
  binding_of_parts (s ∷ d ∷ f ∷ n ∷ ri ∷ wi ∷ rb ∷ []) = new_from_parts s d f n ri wi rb zero_text
  binding_of_parts (s ∷ d ∷ f ∷ n ∷ ri ∷ wi ∷ rb ∷ wb ∷ []) = new_from_parts s d f n ri wi rb wb
  binding_of_parts _ = err invalid_volume

  unfoldable pub new_volume_binding : String → Result VolumeBinding
  unfolding split binding_of_parts
  new_volume_binding volume = binding_of_parts (split b':' volume)

  unfoldable pub new_volume_bindings : List String → Result VolumeBindings
  unfolding new_volume_binding
  new_volume_bindings [] = ok []
  new_volume_bindings (volume ∷ volumes) =
      let rest = new_volume_bindings volumes in
      new_volume_binding volume >>= λ vb. rest >>= λ vbs. ok (vb ∷ vbs)

  -- The loop over the volumes of a node's request.
  unfoldable pub volume_of_parts : List String → Volumes → Result Volumes
  volume_of_parts (device ∷ size ∷ []) volumes =
      parse_ram_in_human size >>= λ n. ok (insert device n volumes)
  volume_of_parts _ volumes = err invalid_volume

  unfoldable pub parse_volumes : List String → Volumes → Result Volumes
  unfolding split volume_of_parts
  parse_volumes [] volumes = ok volumes
  parse_volumes (volume ∷ rest) volumes =
      volume_of_parts (split b':' volume) volumes >>= λ more. parse_volumes rest more

  as_invalid_disk : Result Disk → Result Disk
  as_invalid_disk (ok disk) = ok disk
  as_invalid_disk (err e) = err (joined invalid_disk e)

  unfoldable pub parse_disks : List String → Result Disks
  unfolding Text.parse as_invalid_disk
  parse_disks [] = ok []
  parse_disks (raw ∷ raws) =
      let rest = parse_disks raws in
      as_invalid_disk (Text.parse parse_ram_in_human raw) >>= λ disk.
      rest >>= λ disks. ok (disk ∷ disks)

-- The plan's volumes, and what else of a workload a node's usage is made of.
unfoldable pub volumes_of : VolumePlan → List Volumes
volumes_of [] = []
volumes_of ((binding, volumes) ∷ plan) = volumes ∷ volumes_of plan

unfoldable pub usage_of : WorkloadResource → WorkloadUsage
unfolding volumes_of
usage_of w = record {
  volume_plan_request = volumes_of w.volume_plan_request;
  storage_request = w.storage_request;
  disks_request = w.disks_request;
}

module _ (r : Reader) where
  open r use {Raw, string_slice, size_in_bytes, is_set, parse_ram_in_human}

  -- firstStringSlice
  unfoldable pub first_string_slice : Raw → List String → List String
  first_string_slice raw [] = []
  first_string_slice raw (key ∷ keys) = elim (string_slice raw key) [
    | [] ↦ first_string_slice raw keys
    | x ∷ xs ↦ x ∷ xs
  ]

  -- `if rawParams.IsSet("storage")`
  unfoldable pub parse_storage : Raw → Result (ℤ × ℤ)
  parse_storage raw = size_in_bytes raw "storage-request" >>= λ request.
      size_in_bytes raw "storage-limit" >>= λ limit.
      if is_set raw "storage"
      then (size_in_bytes raw "storage" >>= λ storage. ok (storage, storage))
      else ok (request, limit)

  abbrev pub or_limits : VolumeBindings → VolumeBindings → VolumeBindings
  or_limits [] limits = limits
  or_limits (vb ∷ vbs) limits = vb ∷ vbs

  -- WorkloadResourceRequest.Parse
  unfoldable pub parse_workload_request : Raw → Result WorkloadResourceRequest
  unfolding first_string_slice new_volume_bindings parse_storage
  parse_workload_request raw =
      new_volume_bindings parse_ram_in_human
        (first_string_slice raw ("volumes-request" ∷ "volume-request" ∷ []))
      >>= λ request.
          new_volume_bindings parse_ram_in_human
            (first_string_slice raw ("volumes" ∷ "volume" ∷ "volume-limit" ∷ "volumes-limit" ∷ []))
          >>= λ limits. parse_storage raw >>= λ storage. ok (record {
            volumes_request = or_limits request limits;
            volumes_limit = limits;
            storage_request = storage.0;
            storage_limit = storage.1;
            storage_folded = false;
          })

  -- NodeResourceRequest.Parse
  unfoldable pub parse_node_request : Raw → Result NodeResourceRequest
  unfolding parse_volumes parse_disks total split
  parse_node_request raw =
      parse_volumes parse_ram_in_human (string_slice raw "volumes") [] >>= λ volumes.
      size_in_bytes raw "storage" >>= λ storage.
      parse_disks parse_ram_in_human (string_slice raw "disks") >>= λ disks. ok (record {
        volumes = volumes;
        storage = add64 storage (total volumes);
        disks = disks;
        rm_disks = if is_set raw "rm-disks" then split b',' (r.text raw "rm-disks") else [];
        is_set = is_set raw;
      })

  -- What the verbs of the nodes read.
  abbrev pub core_of : Core
  core_of = record {
    Raw = Raw;
    parse_resource = r.decode_resource;
    parse_request = parse_node_request;
    parse_workload = λ raw. (r.decode_workload raw >>= λ w. ok (usage_of w));
    is_set = is_set;
  }
