-- ===== src/Tests/Merging.antt =====
-- A fast synchronisation that could measure little of a machine.
use kvm_manager.Base.{◌≡◌, true, false, ◌&&◌, ◌||◌, [], ◌==◌}
use kvm_manager.Base.Int.{pos, ltb_ℤ}
use kvm_manager.Text.{trim_space}
use kvm_manager.Merge.{
  VirtualMachine, usable_primary_ip, os_type_confidence, merge_fast_runtime_details,
}
use kvm_manager.Merge.Laws.{larger, merge_fast_runtime_details_keeps}

abbrev current : VirtualMachine
current = record {
  description = " ";
  os_type = "Linux virtualization";
  primary_ip = "127.0.0.1";
  disk_bytes = pos 0;
  disk_used_bytes = pos 0;
  disks = [];
  disk_usage = pos 0;
  disk_usage_available = false;
  memory_usage = pos 0;
  memory_usage_available = false;
}

abbrev previous : VirtualMachine
previous = record {
  description = "web server";
  os_type = "Ubuntu 22.04";
  primary_ip = "10.0.0.5";
  disk_bytes = pos 1000;
  disk_used_bytes = pos 400;
  disks = [];
  disk_usage = pos 40;
  disk_usage_available = true;
  memory_usage = pos 55;
  memory_usage_available = true;
}

merge_fast_runtime_details_keeps_example :
    let merged = merge_fast_runtime_details current previous in
    (usable_primary_ip merged.primary_ip
      ≡ (usable_primary_ip current.primary_ip || usable_primary_ip previous.primary_ip))
    × (merged.memory_usage_available
        ≡ (current.memory_usage_available || previous.memory_usage_available))
    × ((trim_space merged.description == "")
        ≡ ((trim_space current.description == "") && (trim_space previous.description == "")))
    × (os_type_confidence merged.os_type
        ≡ larger (os_type_confidence current.os_type) (os_type_confidence previous.os_type))
    × (ltb_ℤ (pos 0) merged.disk_bytes
        ≡ (ltb_ℤ (pos 0) current.disk_bytes || ltb_ℤ (pos 0) previous.disk_bytes))
merge_fast_runtime_details_keeps_example = merge_fast_runtime_details_keeps current previous
