-- ===== src/Merge/Laws.antt =====
-- What merging and the normalisers promise.
use kvm_manager.Base.{
  ℕ, String, ◌≡◌, refl, true, ◌&&◌, ◌||◌, arith, ◌==◌, eq_iff, ltb, if◌then◌else◌,
}
use kvm_manager.Base.Int.{pos, ltb_ℤ}
use kvm_manager.Text.{trim_space, to_lower, equal_fold}
use kvm_manager.Text.Laws.{trim_space-trim_space}
use kvm_manager.Merge.{
  VirtualMachine, os_type_confidence, should_preserve_previous_os_type, usable_primary_ip,
  kept_os_type, merge_fast_runtime_details,
}

abbrev pub larger : ℕ → ℕ → ℕ
larger a b = if ltb a b then b else a

confidence_trim :
    (value : String) → os_type_confidence (trim_space value) ≡ os_type_confidence value
unfolding os_type_confidence
confidence_trim value = rw (trim_space-trim_space value) refl

-- Texts that are equal but for the case of letters are equally trusted.
confidence_fold :
    (a b : String)
    → equal_fold (trim_space a) (trim_space b) ≡ true
    → os_type_confidence a ≡ os_type_confidence b
unfolding equal_fold os_type_confidence
confidence_fold a b h = rw ((eq_iff (to_lower (trim_space a)) (to_lower (trim_space b))).0 h) refl

confidence_blank : (value : String) → (trim_space value == "") ≡ true → os_type_confidence value ≡ 0
unfolding os_type_confidence to_lower
confidence_blank value h = rw ((eq_iff (trim_space value) "").0 h) refl

-- The system name that a merge keeps is trusted as much as the better of the two.
pub kept_os_type_confidence :
    (current previous : String)
    → os_type_confidence (kept_os_type current previous)
      ≡ larger (os_type_confidence current) (os_type_confidence previous)
unfolding kept_os_type should_preserve_previous_os_type
kept_os_type_confidence current previous = ground (
  arith,
  confidence_blank current,
  confidence_blank previous,
  confidence_trim current,
  confidence_trim previous,
  confidence_fold current previous,
)

-- A merge with the stored machine never loses information: the address is usable if either one is,
-- the memory's usage is known if either is, the description is blank only if both are, the system name
-- is trusted as much as the better of the two, and the size of the disks is positive if either is.
pub merge_fast_runtime_details_keeps :
    (current previous : VirtualMachine)
    → let merged = merge_fast_runtime_details current previous in
      (usable_primary_ip merged.primary_ip
        ≡ (usable_primary_ip current.primary_ip || usable_primary_ip previous.primary_ip))
      × (merged.memory_usage_available
          ≡ (current.memory_usage_available || previous.memory_usage_available))
      × ((trim_space merged.description == "")
          ≡ ((trim_space current.description == "") && (trim_space previous.description == "")))
      × (os_type_confidence merged.os_type
          ≡ larger (os_type_confidence current.os_type) (os_type_confidence previous.os_type))
      × (ltb_ℤ (pos 0) merged.disk_bytes
          ≡ (ltb_ℤ (pos 0) current.disk_bytes || ltb_ℤ (pos 0) previous.disk_bytes))
unfolding merge_fast_runtime_details
merge_fast_runtime_details_keeps current previous = (
  ground arith,
  ground arith,
  ground arith,
  kept_os_type_confidence current.os_type previous.os_type,
  ground arith,
)
