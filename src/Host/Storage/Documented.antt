-- ===== src/Host/Storage/Documented.antt =====
-- What the programs that the agent runs do to volumes, as their documents say. `holds` is whether a
-- pool has a volume of a name, whatever the lists of virsh show at that time; every command can fail.
use kvm_manager.Base.{String, ◌≡◌, Bool, true, false, ◌&&◌, Option, none, some, ◌==◌}
use kvm_manager.Text.Paths.{join}
use kvm_manager.Host.Storage.{StorageVolume, absent, Virsh}

module _ {S : Type 0} (holds : S → String → String → Bool) where
  -- Every volume of the first state is there in the second.
  abbrev pub IsKept : S → S → Type 0
  IsKept s s' = (pool name : String) → holds s pool name ≡ true → holds s' pool name ≡ true

  pub record IsVirsh (virsh : Virsh S) : Type 0 where
    -- vol-clone takes no volume away, and refuses a name that is in use in the pool.
    pub clone_keeps :
        (s : S) (pool source name : String) (prealloc : Bool)
        → IsKept s (virsh.vol_clone s pool source name prealloc).0
    pub clone_new :
        (s : S) (pool source name : String) (prealloc : Bool)
        → (virsh.vol_clone s pool source name prealloc).1 ≡ true
        → holds s pool name ≡ false
    -- vol-delete takes no other volume away than the one that it names.
    pub delete_others :
        (s : S) (pool name p n : String)
        → (p == pool && n == name) ≡ false
        → holds s p n ≡ true
        → holds (virsh.vol_delete s pool name).0 p n ≡ true
    -- A volume is the file of its name under the target path of its pool.
    pub absent_file :
        (s : S) (pool dir name : String)
        → virsh.pool_path s pool ≡ some dir
        → virsh.stat s (join dir name) ≡ absent
        → holds s pool name ≡ false
    -- qemu-img writes its target only, so a new file costs no volume.
    pub convert_keeps :
        (s : S) (format source target : String)
        → virsh.stat s target ≡ absent
        → IsKept s (virsh.convert s format source target).0
    -- Removing a file takes no volume away that was there when the file was not.
    pub remove_keeps :
        (s0 s : S) (target : String)
        → virsh.stat s0 target ≡ absent
        → IsKept s0 s
        → IsKept s0 (virsh.remove_file s target)
    pub refresh_keeps : (s : S) (pool : String) → IsKept s (virsh.pool_refresh s pool)

  -- What an attempt to make a volume changes.
  unfoldable pub CopyEffect : S → String → String → S × Option StorageVolume → Type 0
  CopyEffect s pool name (s', none) = IsKept s s'
  CopyEffect s pool name (s', some volume) =
      IsKept s s' × (volume.name ≡ name) × (holds s pool name ≡ false)
