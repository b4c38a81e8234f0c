-- ===== src/Host/Clone.antt =====
-- Cloning a virtual machine: CloneVM of agent/internal/kvm/virsh_clone.go. `Libvirt` has what the
-- agent asks of virsh about machines; it also stands for reading a machine's configuration and for
-- writing the clone's XML, of which this model leaves out the text.
pub mod Request
pub mod Kept
use Prim.Native.String.{String, ◌∷◌ as ◌∷ᶜ◌, [] as nil}
use Prim.Native.Char.{code}
use kvm_manager.Base.{
  ℕ, Bool, true, false, not, ◌&&◌, ◌||◌, Option, none, some, List, [], ◌∷◌, ◌==◌, ◌⊎◌, inl, inr,
  ltb, eqb, if◌then◌else◌,
}
use kvm_manager.Base.Int.{ℤ}
use kvm_manager.Text.{trim_space, to_lower, contains}
use kvm_manager.Text.Paths.{clean, base, after_prefix, byte_length}
use kvm_manager.Host.Storage.{
  StorageVolume, StorageVolumeCloneRequest, Virsh, delete_storage_volume,
  clone_storage_volume_to_pool,
}
use Request.{
  VmCloneDiskRequest, VmCloneRequest, VmConfig, CloneError, name_required, disk_required,
  vm_is_running, already_exists, source_unreadable, volume_not_cloned, xml_not_built, not_defined,
  not_described, not_started, clone_unreadable, is_positive, validate_options, host_limits,
  validate_disks,
}

pub record StoragePoolTarget : Type 0 where
  pub name : String
  pub path : String

pub record Libvirt (S : Type 0) : Type 0 where
  pub virsh : Virsh S
  -- The processors and the bytes of memory of the host
  pub node_info : S → Option (ℤ × ℤ)
  pub domstate : S → String → String
  pub dominfo : S → String → Option String
  pub vm_config : S → String → Option VmConfig
  pub storage_pool_targets : S → List StoragePoolTarget
  -- buildCloneDomainXML and writeTempXML
  pub build_clone_domain_xml :
      S → VmConfig → VmCloneRequest → List (String × String) → Option String
  pub write_temp_xml : S → String → S × Option String
  pub define : S → String → S × Bool
  pub desc : S → String → Bool → String → S × Bool
  pub start : S → String → S × Bool

-- The states of libvirt in the program's words
unfoldable pub normalize_state : String → String
normalize_state value =
    let s = to_lower (trim_space value) in
    if contains s "running"
    then "running"
    else if contains s "paused"
    then "paused"
    else if contains s "shut off" || contains s "shutoff"
    then "stopped"
    else if contains s "crashed"
    then "error"
    else "unknown"

clean_pool_path : String → String
clean_pool_path path = if trim_space path == "" then "" else clean path

begins_with_separator : String → Bool
begins_with_separator nil = false
begins_with_separator (c ∷ᶜ s) = eqb (code c) 47 || eqb (code c) 92

is_behind : Option String → Bool
unfolding begins_with_separator
is_behind none = false
is_behind (some remainder) = begins_with_separator remainder

path_has_pool_prefix : String → String → Bool
unfolding is_behind
path_has_pool_prefix path pool = path == pool || is_behind (after_prefix pool path)

-- The pool with the longest path so far, and that path's length
longest_pool : String → String × ℕ → List StoragePoolTarget → String × ℕ
unfolding clean_pool_path path_has_pool_prefix
longest_pool path best [] = best
longest_pool path best (pool ∷ rest) =
    let pool_path = clean_pool_path pool.path in
    longest_pool path
      (if pool_path == "" || not (path_has_pool_prefix path pool_path)
        then best
        else if ltb best.1 (byte_length pool_path)
        then (pool.name, byte_length pool_path)
        else best)
      rest

unfoldable pub storage_pool_name_for_path : String → List StoragePoolTarget → String
unfolding longest_pool clean_pool_path
storage_pool_name_for_path path pools =
    let cleaned = clean_pool_path path in
    if cleaned == "" then "" else (longest_pool cleaned ("", 0) pools).0

-- What the loop over the disks has come to: the volumes that were made, and the paths of the copies
-- with those of their sources, the last first; `halted` after a copy that failed.
pub data Progress (S : Type 0) : Type 0 where
  going : S → List (String × String) → List (String × String) → Progress S
  halted : S → Progress S

module _ {S : Type 0} (libvirt : Libvirt S) where
  -- The volumes from the last to the first
  unfoldable pub cleanup_volumes : S → List (String × String) → S
  cleanup_volumes s [] = s
  cleanup_volumes s ((pool, name) ∷ rest) =
      cleanup_volumes (delete_storage_volume libvirt.virsh s pool name).0 rest

  unfoldable pub clone_disk : S → VmCloneDiskRequest → S × Option StorageVolume
  clone_disk s disk =
      let found = storage_pool_name_for_path disk.source_path (libvirt.storage_pool_targets s) in
      clone_storage_volume_to_pool libvirt.virsh s (if found == "" then disk.pool else found)
        disk.pool
        (record {
          name = disk.target_name;
          source_name = base disk.source_path;
          format = "";
          convert = false;
          prealloc_metadata = disk.prealloc_metadata;
        })

  after_clone :
      List (String × String)
      → List (String × String)
      → VmCloneDiskRequest
      → S × Option StorageVolume
      → Progress S
  unfolding cleanup_volumes
  after_clone created paths disk (s, none) = halted (cleanup_volumes s created)
  after_clone created paths disk (s, some volume) =
      going s ((disk.pool, volume.name) ∷ created) ((disk.source_path, volume.path) ∷ paths)

  clone_next : Progress S → VmCloneDiskRequest → Progress S
  unfolding after_clone clone_disk
  clone_next (going s created paths) disk = after_clone created paths disk (clone_disk s disk)
  clone_next (halted s) disk = halted s

  unfoldable pub clone_disks : Progress S → List VmCloneDiskRequest → Progress S
  unfolding clone_next
  clone_disks progress [] = progress
  clone_disks progress (disk ∷ rest) = clone_disks (clone_next progress disk) rest

  read_clone : S → String → Option VmConfig → S × (CloneError ⊎ VmConfig)
  read_clone s name none = (s, inl clone_unreadable)
  read_clone s name (some config) = (s, inr config)

  after_start : String → S × Bool → S × (CloneError ⊎ VmConfig)
  unfolding read_clone
  after_start name (s, false) = (s, inl not_started)
  after_start name (s, true) = read_clone s name (libvirt.vm_config s name)

  after_description : VmCloneRequest → S × Bool → S × (CloneError ⊎ VmConfig)
  unfolding after_start
  after_description r (s, false) = (s, inl not_described)
  after_description r (s, true) =
      after_start r.name (if r.autostart then libvirt.start s r.name else (s, true))

  update_description : S → String → String → S × Bool
  update_description s name description =
      libvirt.desc s name (normalize_state (libvirt.domstate s name) == "running")
        (trim_space description)

  after_define : VmCloneRequest → List (String × String) → S × Bool → S × (CloneError ⊎ VmConfig)
  unfolding cleanup_volumes after_description update_description
  after_define r created (s, false) = (cleanup_volumes s created, inl not_defined)
  after_define r created (s, true) = after_description r (update_description s r.name r.description)

  after_writing :
      VmCloneRequest → List (String × String) → S × Option String → S × (CloneError ⊎ VmConfig)
  unfolding after_define
  after_writing r created (s, none) = (cleanup_volumes s created, inl xml_not_built)
  after_writing r created (s, some path) = after_define r created (libvirt.define s path)

  after_building :
      S → VmCloneRequest → List (String × String) → Option String → S × (CloneError ⊎ VmConfig)
  unfolding after_writing
  after_building s r created none = (cleanup_volumes s created, inl xml_not_built)
  after_building s r created (some xml) = after_writing r created (libvirt.write_temp_xml s xml)

  after_disks : VmCloneRequest → VmConfig → Progress S → S × (CloneError ⊎ VmConfig)
  unfolding after_building
  after_disks r source (halted s) = (s, inl volume_not_cloned)
  after_disks r source (going s created paths) =
      after_building s r created (libvirt.build_clone_domain_xml s source r paths)

  clone_checked :
      S
      → VmCloneRequest
      → VmConfig
      → CloneError ⊎ List VmCloneDiskRequest
      → S × (CloneError ⊎ VmConfig)
  unfolding after_disks
  clone_checked s r source (inl e) = (s, inl e)
  clone_checked s r source (inr disks) = after_disks r source (clone_disks (going s [] []) disks)

  clone_source : S → VmCloneRequest → Option VmConfig → S × (CloneError ⊎ VmConfig)
  unfolding clone_checked
  clone_source s r none = (s, inl source_unreadable)
  clone_source s r (some source) = clone_checked s r source (validate_disks r.disks source.disks)

  is_given : Option String → Bool
  is_given none = false
  is_given (some out) = not (trim_space out == "")

  -- The checks on the machines
  check_machines : S → String → VmCloneRequest → Option CloneError
  unfolding is_given
  check_machines s vm r =
      if normalize_state (libvirt.domstate s vm) == "running"
      then some vm_is_running
      else if is_given (libvirt.dominfo s r.name)
      then some already_exists
      else none

  check_disks : S → String → VmCloneRequest → List VmCloneDiskRequest → Option CloneError
  unfolding check_machines
  check_disks s vm r [] = some disk_required
  check_disks s vm r (disk ∷ rest) = check_machines s vm r

  check_resources : S → String → VmCloneRequest → Option CloneError → Option CloneError
  unfolding check_disks
  check_resources s vm r (some e) = some e
  check_resources s vm r none = check_disks s vm r r.disks

  check_host : S → String → VmCloneRequest → Option CloneError → Option CloneError
  unfolding check_resources
  check_host s vm r (some e) = some e
  check_host s vm r none = check_resources s vm r (
      if is_positive r.maximum_cpu || is_positive r.maximum_memory_mb
      then host_limits r.maximum_cpu r.maximum_memory_mb (libvirt.node_info s)
      else none)

  -- The first error that CloneVM meets before it reads the source
  unfoldable pub check_clone : S → String → VmCloneRequest → Option CloneError
  unfolding check_host
  check_clone s vm r =
      if r.name == "" then some name_required else check_host s vm r (validate_options r)

  clone_unless : S → String → VmCloneRequest → Option CloneError → S × (CloneError ⊎ VmConfig)
  unfolding clone_source
  clone_unless s vm r (some e) = (s, inl e)
  clone_unless s vm r none = clone_source s r (libvirt.vm_config s vm)

  -- The request with its name trimmed, and without a CD if the clone starts by itself
  abbrev prepared : VmCloneRequest → VmCloneRequest
  prepared r = record r {
    name = trim_space r.name;
    cdrom_policy = if r.autostart then "disconnect" else r.cdrom_policy;
  }

  unfoldable pub clone_vm : S → String → VmCloneRequest → S × (CloneError ⊎ VmConfig)
  unfolding clone_unless check_clone
  clone_vm s vm request = clone_unless s vm (prepared request) (check_clone s vm (prepared request))
