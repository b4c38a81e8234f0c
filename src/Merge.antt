-- ===== src/Merge.antt =====
-- Keeping what a fast synchronisation could not measure: backend/internal/service/realtime/merge.go,
-- and the normalisers of service.go.
pub mod Laws
use Prim.Native.Nat.{ℕ}
use text.Mathlib.Text.{starts_with}
use kvm_manager.Base.{
  String, Bool, true, false, ◌&&◌, ◌||◌, not, Option, none, some, List, [], ◌∷◌, ◌==◌, ltb,
  if◌then◌else◌,
}
use kvm_manager.Base.Int.{ℤ, pos, leb_ℤ, ltb_ℤ, pos_part}
use kvm_manager.Dict.{Dict, get}
use kvm_manager.Text.{trim_space, to_lower, equal_fold, has_suffix}

pub record VmDisk : Type 0 where
  pub name : String
  pub path : String
  pub bytes : ℤ
  pub used_bytes : ℤ

-- The fields of a machine that merging reads or changes.
pub record VirtualMachine : Type 0 where
  pub description : String
  pub os_type : String
  pub primary_ip : String
  pub disk_bytes : ℤ
  pub disk_used_bytes : ℤ
  pub disks : List VmDisk
  pub disk_usage : ℤ
  pub disk_usage_available : Bool
  pub memory_usage : ℤ
  pub memory_usage_available : Bool

unfoldable pub is_generic : String → Bool
is_generic lower =
    has_suffix lower " virtualization"
    || lower == "windows"
    || lower == "centos"
    || lower == "ubuntu"
    || lower == "debian"
    || lower == "rocky linux"
    || lower == "almalinux"
    || lower == "fedora"

unfoldable pub os_type_confidence : String → ℕ
os_type_confidence value =
    let lower = to_lower (trim_space value) in
    if lower == "" then 0 else if is_generic lower then 1 else 2

unfoldable pub should_preserve_previous_os_type : String → String → Bool
should_preserve_previous_os_type current previous =
    let c = trim_space current in
    let p = trim_space previous in
    if p == ""
    then false
    else if c == ""
    then true
    else if equal_fold c p
    then false
    else ltb (os_type_confidence c) (os_type_confidence p)

unfoldable pub usable_primary_ip : String → Bool
usable_primary_ip value =
    let v = trim_space value in
    not (v == "") && not (starts_with v "127.") && not (starts_with v "169.254.")

unfoldable pub kept_os_type : String → String → String
kept_os_type current previous =
    if should_preserve_previous_os_type current previous then previous else current

unfoldable pub merge_fast_runtime_details : VirtualMachine → VirtualMachine → VirtualMachine
merge_fast_runtime_details current previous =
    let no_disk = leb_ℤ current.disk_bytes (pos 0) in
    let old_memory = not current.memory_usage_available && previous.memory_usage_available in
    record {
      description =
          if trim_space current.description == ""
          then previous.description
          else current.description;
      os_type = kept_os_type current.os_type previous.os_type;
      primary_ip =
          if usable_primary_ip current.primary_ip then current.primary_ip else previous.primary_ip;
      disk_bytes = if no_disk then previous.disk_bytes else current.disk_bytes;
      disk_used_bytes = if no_disk then previous.disk_used_bytes else current.disk_used_bytes;
      disks = if no_disk then previous.disks else current.disks;
      disk_usage = if no_disk then previous.disk_usage else current.disk_usage;
      disk_usage_available =
          if no_disk then previous.disk_usage_available else current.disk_usage_available;
      memory_usage = if old_memory then previous.memory_usage else current.memory_usage;
      memory_usage_available =
          if old_memory then previous.memory_usage_available else current.memory_usage_available;
    }

-- mergeFastRuntime, with the machines that the cache holds.
unfoldable pub merge_fast_runtime : Dict VirtualMachine → Dict VirtualMachine → Dict VirtualMachine
merge_fast_runtime stored [] = []
merge_fast_runtime stored ((id, current) ∷ vms) =
    (
      id,
      elim (get id stored) [
        | none ↦ current
        | some previous ↦ merge_fast_runtime_details current previous
      ],
    )
    ∷ merge_fast_runtime stored vms

-- mergeRuntimeDetails
unfoldable pub merge_runtime_details :
    Dict VirtualMachine → Dict VirtualMachine → Dict VirtualMachine
merge_runtime_details stored [] = []
merge_runtime_details stored ((id, current) ∷ vms) =
    (
      id,
      elim (get id stored) [
        | none ↦ current
        | some previous ↦ record current { os_type = kept_os_type current.os_type previous.os_type }
      ],
    )
    ∷ merge_runtime_details stored vms

unfoldable pub normalize_host_status : String → String
normalize_host_status status =
    let s = to_lower (trim_space status) in
    if s == "online" || s == "degraded" || s == "maintenance"
    then s
    else if s == "offline"
    then "offline"
    else "online"

unfoldable pub normalize_vm_status : String → String
normalize_vm_status status =
    let s = to_lower (trim_space status) in
    if s == "running" || s == "stopped" || s == "paused" || s == "error"
    then s
    else if s == "shut off" || s == "shutoff" || s == "off"
    then "stopped"
    else if trim_space status == ""
    then "unknown"
    else s

unfoldable pub normalize_snapshot_status : String → String
normalize_snapshot_status status =
    let s = to_lower (trim_space status) in
    if s == "ready" || s == "creating" || s == "failed" then s else "ready"

unfoldable pub clamp_percent : ℤ → ℤ
clamp_percent value =
    if ltb_ℤ value (pos 0) then pos 0 else if ltb_ℤ (pos 100) value then pos 100 else value
