-- ===== src/Host/Storage.antt =====
-- Copying and deleting volumes of storage pools: agent/internal/kvm/virsh_pools.go. The programs that
-- the agent runs (virsh and qemu-img), the files and what virsh lists are the record `Virsh` of
-- operations on a state of the host. A command gives the next state and whether it succeeded.
pub mod Documented
pub mod Kept
use Prim.Native.Char.{Char, code}
use Prim.Native.String.{String, ◌∷◌ as ◌∷ᶜ◌, [] as nil}
use kvm_manager.Base.{
  ℕ, Bool, true, false, not, ◌&&◌, ◌||◌, Option, none, some, List, [], ◌∷◌, ◌==◌, eqb,
  if◌then◌else◌,
}
use kvm_manager.Text.{trim_space, to_lower, equal_fold}
use kvm_manager.Text.Paths.{is_abs, join, ext}

pub record StorageVolume : Type 0 where
  pub name : String
  pub path : String
  pub format : String

pub record StorageVolumeCloneRequest : Type 0 where
  pub name : String
  pub source_name : String
  pub format : String
  pub convert : Bool
  pub prealloc_metadata : Bool

-- The answer of os.Stat
pub data Stat : Type 0 where
  present : Stat
  absent : Stat
  unknown : Stat

pub record Virsh (S : Type 0) : Type 0 where
  -- vol-list: no list is an error
  pub list_storage_volumes : S → String → Option (List StorageVolume)
  -- The paths of the disks of all virtual machines, with the names of these
  pub disk_paths : S → List (String × String)
  -- vol-clone --pool pool source name, and whether with --prealloc-metadata
  pub vol_clone : S → String → String → String → Bool → S × Bool
  -- vol-delete --pool pool name
  pub vol_delete : S → String → String → S × Bool
  -- The target path of a pool, from pool-info and pool-dumpxml
  pub pool_path : S → String → Option String
  pub stat : S → String → Stat
  -- qemu-img convert -O format source target
  pub convert : S → String → String → String → S × Bool
  pub remove_file : S → String → S
  pub pool_refresh : S → String → S

-- firstNonEmptyString of two
unfoldable pub first_of : String → String → String
first_of a b = if not (trim_space a == "") then a else if not (trim_space b == "") then b else ""

trim_dot : String → String
trim_dot nil = nil
trim_dot (c ∷ᶜ s) = if eqb (code c) 46 then s else c ∷ᶜ s

is_known_format : String → Bool
is_known_format f = f == "iso" || f == "qcow2" || f == "qcow" || f == "qed" || f == "raw"

unfoldable pub storage_volume_format : String → String → String
unfolding trim_dot is_known_format first_of
storage_volume_format name path =
    let value = trim_dot (to_lower (first_of (ext name) (ext path))) in
    if is_known_format value then value else "raw"

unfoldable pub supported_volume_format : String → Bool
supported_volume_format format =
    let f = to_lower (trim_space format) in f == "qcow2" || f == "qcow" || f == "qed" || f == "raw"

unfoldable pub find_named : String → List StorageVolume → Option StorageVolume
find_named name [] = none
find_named name (volume ∷ rest) =
    let found = find_named name rest in if volume.name == name then some volume else found

unfoldable pub has_path : String → List (String × String) → Bool
has_path path [] = false
has_path path ((vm, disk) ∷ rest) = disk == path || has_path path rest

-- strings.ContainsAny(s, `/\`)
unfoldable pub has_separator : String → Bool
has_separator nil = false
has_separator (c ∷ᶜ s) = eqb (code c) 47 || eqb (code c) 92 || has_separator s

module _ {S : Type 0} (virsh : Virsh S) where
  volume_in : String → Option (List StorageVolume) → Option StorageVolume
  volume_in name none = none
  volume_in name (some volumes) = find_named name volumes

  unfoldable pub storage_volume : S → String → String → Option StorageVolume
  unfolding volume_in
  storage_volume s pool name = volume_in name (virsh.list_storage_volumes s pool)

  unfoldable pub volume_used_by_vm : S → String → Bool
  volume_used_by_vm s path =
      if trim_space path == "" then false else has_path (trim_space path) (virsh.disk_paths s)

  delete_found : S → String → String → Option StorageVolume → S × Bool
  delete_found s pool name none = (s, false)
  delete_found s pool name (some volume) =
      if not (equal_fold (storage_volume_format volume.name volume.path) "iso")
        && volume_used_by_vm s volume.path
      then (s, false)
      else virsh.vol_delete s pool name

  unfoldable pub delete_storage_volume : S → String → String → S × Bool
  unfolding delete_found
  delete_storage_volume s pool_name volume_name =
      let pool = trim_space pool_name in
      let name = trim_space volume_name in
      if pool == "" || name == ""
      then (s, false)
      else delete_found s pool name (storage_volume s pool name)

  finish_clone : String → String → S × Bool → S × Option StorageVolume
  finish_clone pool name (s, false) = (s, none)
  finish_clone pool name (s, true) = (s, storage_volume s pool name)

  finish_convert : String → String → String → S × Bool → S × Option StorageVolume
  finish_convert pool name target (s, false) = (virsh.remove_file s target, none)
  finish_convert pool name target (s, true) =
      let s' = virsh.pool_refresh s pool in (s', storage_volume s' pool name)

  convert_to : S → String → String → String → String → String → Stat → S × Option StorageVolume
  unfolding finish_convert
  convert_to s pool name format source target present = (s, none)
  convert_to s pool name format source target unknown = (s, none)
  convert_to s pool name format source target absent =
      finish_convert pool name target (virsh.convert s format source target)

  convert_into : S → String → String → String → String → Option String → S × Option StorageVolume
  unfolding convert_to
  convert_into s pool name format source none = (s, none)
  convert_into s pool name format source (some dir) =
      if trim_space dir == ""
      then (s, none)
      else convert_to s pool name format source (join dir name) (virsh.stat s (join dir name))

  convert_volume : S → String → String → String → String → S × Option StorageVolume
  unfolding convert_into
  convert_volume s pool name format source =
      if not (supported_volume_format format)
      then (s, none)
      else if source == "" || not (is_abs source)
      then (s, none)
      else convert_into s pool name format source (virsh.pool_path s pool)

  copy_source :
      S
      → String
      → String
      → StorageVolumeCloneRequest
      → Option StorageVolume
      → S × Option StorageVolume
  unfolding convert_volume finish_clone
  copy_source s source_pool pool request none = (s, none)
  copy_source s source_pool pool request (some source) =
      if not request.convert && source_pool == pool
      then finish_clone pool request.name (
          virsh.vol_clone s pool request.source_name request.name
            (request.prealloc_metadata && equal_fold source.format "qcow2"))
      else convert_volume s pool request.name
          (if not request.convert
            then first_of source.format (storage_volume_format source.name source.path)
            else request.format)
          source.path

  abbrev trimmed : StorageVolumeCloneRequest → StorageVolumeCloneRequest
  trimmed request = record request {
    name = trim_space request.name;
    source_name = trim_space request.source_name;
    format = to_lower (trim_space request.format);
  }

  copy_trimmed : S → String → String → StorageVolumeCloneRequest → S × Option StorageVolume
  unfolding copy_source
  copy_trimmed s source_pool pool request =
      if source_pool == "" || pool == "" || request.name == "" || request.source_name == ""
      then (s, none)
      else if has_separator request.name
      then (s, none)
      else copy_source s source_pool pool request (storage_volume s source_pool request.source_name)

  unfoldable pub clone_storage_volume_to_pool :
      S → String → String → StorageVolumeCloneRequest → S × Option StorageVolume
  unfolding copy_trimmed
  clone_storage_volume_to_pool s source_pool_name target_pool_name request =
      copy_trimmed s (trim_space source_pool_name) (trim_space target_pool_name) (trimmed request)
