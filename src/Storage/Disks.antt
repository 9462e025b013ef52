-- ===== src/Storage/Disks.antt =====
-- The disks with their partitions, and the choice of those to ask for SMART.
use node_debug_dashboard.Prelude.{
  Bool, true, false, not, ◌&&◌, ◌||◌, Option, none, some, List, [], ◌∷◌, ◌++◌, ◌==◌, if◌then◌else◌,
  any, keep, map, is_empty, Text, lit, text_eq, strip, starts_with, lower, lower_char, or_else,
  is_zero_ℤ, ◌>>=◌, traverse, ℤ, pos, negsuc,
}
use node_debug_dashboard.Json.{
  Json, Fields, get, get_or, list, boolean, int, real, text, nil, truthy, or_value, iterate,
  fields_of, is_text, optional_text, required_text,
}
use node_debug_dashboard.Models.Storage.{Partition, DiskInfo}

-- A field `bool` of a model takes true and false, one and zero, and the words for them.
abbrev true_words : List Text
true_words = map (λ s. lit s) ("1" ∷ "t" ∷ "true" ∷ "y" ∷ "yes" ∷ "on" ∷ [])

abbrev false_words : List Text
false_words = map (λ s. lit s) ("0" ∷ "f" ∷ "false" ∷ "n" ∷ "no" ∷ "off" ∷ [])

abbrev word_bool : Text → Option Bool
word_bool t =
    if any (text_eq t) true_words
    then some true
    else if any (text_eq t) false_words
    then some false
    else none

abbrev number_bool : ℤ → Option Bool
number_bool (pos n) = if n == 0 then some false else if n == 1 then some true else none
number_bool (negsuc n) = none

unfoldable pub required_bool : Json → Option Bool
unfolding lit text_eq
required_bool (boolean b) = some b
required_bool (int n) = number_bool n
required_bool (real t n) =
    if text_eq t (lit "1.0")
    then some true
    else if text_eq t (lit "0.0") || text_eq t (lit "-0.0")
    then some false
    else none
required_bool (text t) = word_bool (lower t)
required_bool _ = none

-- One of the children of a disk.
unfoldable pub partition_of : Json → Option Partition
unfolding get_or lit
partition_of child = do
  fs ← fields_of child
  name ← required_text (get_or (text []) (lit "name") fs)
  size ← required_text (get_or (text []) (lit "size") fs)
  type ← required_text (get_or (text (lit "part")) (lit "type") fs)
  mountpoint ← optional_text (get (lit "mountpoint") fs)
  fstype ← optional_text (get (lit "fstype") fs)
  some (record { name = name; size = size; type = type; mountpoint = mountpoint; fstype = fstype })

abbrev some_text : Text → Option Text
some_text t = if is_empty t then none else some t

-- `(v or "").strip() or None`
unfoldable pub stripped : Json → Option (Option Text)
unfolding truthy strip
stripped v = do t ← required_text (or_value v (text [])); some (some_text (strip t))

unfoldable pub disk_of : Fields → Option DiskInfo
unfolding get_or lit partition_of stripped required_bool iterate
disk_of dev = do
  children ← iterate (get_or (list nil) (lit "children") dev)
  partitions ← traverse partition_of children
  name ← required_text (get_or (text []) (lit "name") dev)
  model ← stripped (get (lit "model") dev)
  serial ← stripped (get (lit "serial") dev)
  size ← required_text (get_or (text []) (lit "size") dev)
  transport ← optional_text (get (lit "tran") dev)
  rotational ← required_bool (get_or (boolean false) (lit "rota") dev)
  some (record {
    name = name;
    model = model;
    serial = serial;
    size = size;
    type = lit "disk";
    transport = transport;
    rotational = rotational;
    partitions = partitions;
  })

abbrev is_disk : Fields → Bool
is_disk dev = is_text (lit "disk") (get (lit "type") dev)

-- The loop over the devices.
unfoldable pub disks_of : List Json → Option (List DiskInfo)
unfolding get_or lit disk_of text_eq
disks_of [] = some []
disks_of (v ∷ vs) =
    let rest = disks_of vs in
    do
      dev ← fields_of v
      elim (is_disk dev) [
        | false ↦ rest
        | true ↦ do disk ← disk_of dev; disks ← rest; some (disk ∷ disks)
      ]

-- `collect_disks`: the exit status of `lsblk` and its output as JSON. An exception is `none`.
unfoldable pub collect_disks : ℤ → Option Json → Option (List DiskInfo)
unfolding get_or lit disks_of iterate
collect_disks rc loaded = if not (is_zero_ℤ rc) then some [] else elim loaded [
  | none ↦ some []
  | some data_ ↦ do
    fs ← fields_of data_
    devices ← iterate (get_or (list nil) (lit "blockdevices") fs)
    disks_of devices
]

-- `_REMOTE_TRANSPORTS`
unfoldable pub remote_transports : List Text
unfolding lit
remote_transports = map (λ s. lit s) ("iscsi" ∷ "fc" ∷ "fcoe" ∷ "nbd" ∷ "rbd" ∷ [])

-- `_VIRTUAL_PREFIXES`
unfoldable pub virtual_prefixes : List Text
unfolding lit
virtual_prefixes = map (λ s. lit s) ("rbd" ∷ "nbd" ∷ "zram" ∷ "drbd" ∷ "dm-" ∷ "loop" ∷ [])

abbrev is_fabric : Option Text → Bool
is_fabric none = false
is_fabric (some t) = not (is_empty (strip t)) && not (text_eq (strip t) (lit "pcie"))

-- `_nvme_over_fabrics`: the file with the transport of a device, unless it cannot be read.
unfoldable pub nvme_over_fabrics : (Text → Option Text) → Text → Bool
unfolding starts_with lit strip text_eq
nvme_over_fabrics transport_file name =
    starts_with (lit "nvme") name && is_fabric (transport_file name)

-- The condition of `smart_candidates`.
unfoldable pub is_candidate : (Text → Option Text) → DiskInfo → Bool
unfolding nvme_over_fabrics remote_transports virtual_prefixes starts_with text_eq lower_char
is_candidate transport_file d =
    not (any (text_eq (lower (or_else d.transport []))) remote_transports)
    && not (any (λ p. starts_with p d.name) virtual_prefixes)
    && not (nvme_over_fabrics transport_file d.name)

abbrev pub device_path : DiskInfo → Text
device_path d = lit "/dev/" ++ d.name

-- `smart_candidates`
unfoldable pub smart_candidates : (Text → Option Text) → List DiskInfo → List Text
unfolding is_candidate lit
smart_candidates transport_file disks = map device_path (keep (is_candidate transport_file) disks)
