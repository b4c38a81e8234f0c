-- ===== src/Host/Clone/Request.antt =====
-- The checks of a request for a clone, in agent/internal/kvm/virsh_clone.go and
-- virsh_create_migrate.go.
pub mod Disks
use Prim.Native.String.{String}
use kvm_manager.Base.{
  ◌+◌, ◌-◌, ◌*◌, ◌%◌, ◌^◌, leb, eqb, Bool, not, ◌&&◌, ◌||◌, Option, none, some, List, [], ◌∷◌, ◌==◌,
  ◌⊎◌, inl, inr, ltb, member, if◌then◌else◌,
}
use kvm_manager.Base.Int.{ℤ, pos, negsuc, ltb_ℤ}
use kvm_manager.Text.{trim_space, to_lower, ◌<>◌}
use kvm_manager.Text.Paths.{byte_length}

pub record VmCloneDiskRequest : Type 0 where
  pub name : String
  pub pool : String
  pub source_path : String
  pub target_name : String
  pub prealloc_metadata : Bool

pub record VmCloneRequest : Type 0 where
  pub name : String
  pub description : String
  pub autostart : Bool
  pub current_cpu : ℤ
  pub maximum_cpu : ℤ
  pub current_memory_mb : ℤ
  pub maximum_memory_mb : ℤ
  pub cdrom_policy : String
  pub disks : List VmCloneDiskRequest

pub record VmConfigDisk : Type 0 where
  pub name : String
  pub path : String

pub record VmConfig : Type 0 where
  pub xml : String
  pub disks : List VmConfigDisk

pub data CloneError : Type 0 where
  name_required : CloneError
  description_too_long : CloneError
  negative_resources : CloneError
  cpu_exceeds_maximum : CloneError
  memory_exceeds_maximum : CloneError
  invalid_cdrom_policy : CloneError
  node_unknown : CloneError
  exceeds_host : CloneError
  disk_required : CloneError
  vm_is_running : CloneError
  already_exists : CloneError
  source_unreadable : CloneError
  disk_fields_required : CloneError
  disk_not_found : CloneError
  source_path_mismatch : CloneError
  target_duplicated : CloneError
  volume_not_cloned : CloneError
  xml_not_built : CloneError
  not_defined : CloneError
  not_described : CloneError
  not_started : CloneError
  clone_unreadable : CloneError

is_negative : ℤ → Bool
is_negative n = ltb_ℤ n (pos 0)

unfoldable pub is_positive : ℤ → Bool
is_positive n = ltb_ℤ (pos 0) n

exceeds : ℤ → ℤ → Bool
unfolding is_positive
exceeds current maximum = is_positive current && is_positive maximum && ltb_ℤ maximum current

unfoldable pub validate_options : VmCloneRequest → Option CloneError
unfolding is_negative exceeds
validate_options r =
    let policy = to_lower (trim_space r.cdrom_policy) in
    if ltb 2048 (byte_length r.description)
    then some description_too_long
    else if is_negative r.current_cpu
        || is_negative r.maximum_cpu
        || is_negative r.current_memory_mb
        || is_negative r.maximum_memory_mb
    then some negative_resources
    else if exceeds r.current_cpu r.maximum_cpu
    then some cpu_exceeds_maximum
    else if exceeds r.current_memory_mb r.maximum_memory_mb
    then some memory_exceeds_maximum
    else if not (policy == "") && not (policy == "inherit") && not (policy == "disconnect")
    then some invalid_cdrom_policy
    else none

-- a * 1024 * 1024, as an int64, which wraps
mebibytes : ℤ → ℤ
mebibytes (pos n) =
    let m = n * 1048576 % 2 ^ 64 in if ltb m (2 ^ 63) then pos m else negsuc (2 ^ 64 - m - 1)
mebibytes (negsuc n) =
    let m = (n + 1) * 1048576 % 2 ^ 64 in
    if eqb m 0 then pos 0 else if leb m (2 ^ 63) then negsuc (m - 1) else pos (2 ^ 64 - m)

unfoldable pub host_limits : ℤ → ℤ → Option (ℤ × ℤ) → Option CloneError
unfolding is_positive mebibytes
host_limits maximum_cpu maximum_memory_mb none = some node_unknown
host_limits maximum_cpu maximum_memory_mb (some (cpu, memory)) =
    if is_positive cpu && ltb_ℤ cpu maximum_cpu
    then some exceeds_host
    else if is_positive memory && ltb_ℤ memory (mebibytes maximum_memory_mb)
    then some exceeds_host
    else none

later_disk : String → VmConfigDisk → Option VmConfigDisk → Option VmConfigDisk
later_disk name disk (some later) = some later
later_disk name disk none = if disk.name == name then some disk else none

-- The disk of a name in the map that the code builds, where a later disk takes the place of an
-- earlier one
pub find_disk : String → List VmConfigDisk → Option VmConfigDisk
unfolding later_disk
find_disk name [] = none
find_disk name (disk ∷ rest) = later_disk name disk (find_disk name rest)

abbrev trimmed_disk : VmCloneDiskRequest → VmCloneDiskRequest
trimmed_disk r = record r {
  name = trim_space r.name;
  pool = trim_space r.pool;
  source_path = trim_space r.source_path;
  target_name = trim_space r.target_name;
}

-- The request with its source's path, `seen` being the targets so far
check_source :
    List String → VmCloneDiskRequest → Option VmConfigDisk → CloneError ⊎ VmCloneDiskRequest
check_source seen r none = inl disk_not_found
check_source seen r (some source) =
    let path = if r.source_path == "" then source.path else r.source_path in
    if source.path == "" || not (path == source.path)
    then inl source_path_mismatch
    else if member (r.pool <> ("/" <> r.target_name)) seen
    then inl target_duplicated
    else inr (record r { source_path = path })

check_disk : List String → List VmConfigDisk → VmCloneDiskRequest → CloneError ⊎ VmCloneDiskRequest
unfolding check_source find_disk
check_disk seen sources r =
    if r.name == "" || r.pool == "" || r.target_name == ""
    then inl disk_fields_required
    else check_source seen r (find_disk r.name sources)

-- What the loop over the disks has come to: their targets and the checked requests, last first
pub data Checked : Type 0 where
  refused : CloneError → Checked
  accepted : List String → List VmCloneDiskRequest → Checked

add_checked : List String → List VmCloneDiskRequest → CloneError ⊎ VmCloneDiskRequest → Checked
add_checked seen items (inl e) = refused e
add_checked seen items (inr r) = accepted ((r.pool <> ("/" <> r.target_name)) ∷ seen) (r ∷ items)

check_next : List VmConfigDisk → Checked → VmCloneDiskRequest → Checked
unfolding check_disk add_checked
check_next sources (refused e) r = refused e
check_next sources (accepted seen items) r =
    add_checked seen items (check_disk seen sources (trimmed_disk r))

check_all : List VmConfigDisk → Checked → List VmCloneDiskRequest → Checked
unfolding check_next
check_all sources checked [] = checked
check_all sources checked (r ∷ rest) = check_all sources (check_next sources checked r) rest

-- The items of the list that was built last first
in_order : List VmCloneDiskRequest → List VmCloneDiskRequest → List VmCloneDiskRequest
in_order [] done = done
in_order (r ∷ rest) done = in_order rest (r ∷ done)

checked_items : Checked → CloneError ⊎ List VmCloneDiskRequest
unfolding in_order
checked_items (refused e) = inl e
checked_items (accepted seen items) = inr (in_order items [])

unfoldable pub validate_disks :
    List VmCloneDiskRequest → List VmConfigDisk → CloneError ⊎ List VmCloneDiskRequest
unfolding check_all checked_items
validate_disks requests sources = checked_items (check_all sources (accepted [] []) requests)
