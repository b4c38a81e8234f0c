-- ===== src/Host/Clone/Kept.antt =====
-- The volumes of the host while a virtual machine is cloned.
use kvm_manager.Base.{
  String, ◌≡◌, sym, ap, ◌∙◌, Bool, true, false, ◌&&◌, Option, none, some, List, [], ◌∷◌, ◌⊎◌, inl,
  inr, ◌==◌, eq_iff, arith, Bool-cases, if◌then◌else◌,
}
use kvm_manager.Text.{trim_space}
use kvm_manager.Text.Laws.{trim_space-trim_space}
use kvm_manager.Host.Storage.{StorageVolume, delete_storage_volume}
use kvm_manager.Host.Storage.Documented.{IsKept, IsVirsh, CopyEffect}
use kvm_manager.Host.Storage.Kept.{clone_storage_volume_to_pool_lem, delete_storage_volume_lem}
use kvm_manager.Host.Clone.Request.{VmCloneDiskRequest, VmCloneRequest, VmConfig, CloneError}
use kvm_manager.Host.Clone.{
  Libvirt, Progress, going, halted, cleanup_volumes, clone_disk, after_clone, clone_next,
  clone_disks, read_clone, after_start, after_description, after_define, after_writing,
  after_building, after_disks, clone_checked, clone_source, clone_unless, clone_vm,
  update_description,
}

module _ {S : Type 0} (holds : S → String → String → Bool) (libvirt : Libvirt S) where
  -- Writing the file of a definition, and defining, describing and starting a machine take no volume
  -- away.
  pub record IsLibvirt : Type 0 where
    pub programs : IsVirsh holds libvirt.virsh
    pub written : (s : S) (xml : String) → IsKept holds s (libvirt.write_temp_xml s xml).0
    pub defined : (s : S) (path : String) → IsKept holds s (libvirt.define s path).0
    pub described :
        (s : S) (vm text : String) (live : Bool) → IsKept holds s (libvirt.desc s vm live text).0
    pub started : (s : S) (vm : String) → IsKept holds s (libvirt.start s vm).0

  module _ (laws : IsLibvirt) (s0 : S) where
    -- The volumes of a list were not there at first.
    AreNew : List (String × String) → Type 0
    AreNew [] = Unit
    AreNew ((pool, name) ∷ created) =
        (holds s0 (trim_space pool) (trim_space name) ≡ false) × AreNew created

    not_new :
        (pool name p n : String)
        → holds s0 pool name ≡ false
        → holds s0 p n ≡ true
        → (p == pool && n == name) ≡ false
    not_new pool name p n new h = elim (Bool-cases (p == pool && n == name)) [
      | inl e ↦
          (let ep : p ≡ pool = (eq_iff p pool).0 (ground arith) in
            let en : n ≡ name = (eq_iff n name).0 (ground arith) in
            let there : holds s0 pool name ≡ true = rw (sym ep, sym en) h in absurd (cc))
      | inr e ↦ e
    ]

    cleanup_volumes-IsKept :
        (created : List (String × String)) (s : S)
        → AreNew created
        → IsKept holds s0 s
        → IsKept holds s0 (cleanup_volumes libvirt s created)
    unfolding AreNew cleanup_volumes
    cleanup_volumes-IsKept [] s new k = k
    cleanup_volumes-IsKept ((pool, name) ∷ created) s new k =
        cleanup_volumes-IsKept created (delete_storage_volume libvirt.virsh s pool name).0 new.1
          (λ p n h.
            delete_storage_volume_lem holds libvirt.virsh laws.programs s pool name p n
              (not_new (trim_space pool) (trim_space name) p n new.0 h) (k p n h))

    -- The progress of the loop over the disks.
    IsSound : Progress S → Type 0
    IsSound (going s created paths) = IsKept holds s0 s × AreNew created
    IsSound (halted s) = IsKept holds s0 s

    kept : {s s' : S} → IsKept holds s0 s → IsKept holds s s' → IsKept holds s0 s'
    kept k next = λ p n h. next p n (k p n h)

    -- What was not there later was not there at first.
    new_since :
        (s : S) (pool name : String)
        → IsKept holds s0 s
        → holds s pool name ≡ false
        → holds s0 pool name ≡ false
    new_since s pool name k new = elim (Bool-cases (holds s0 pool name)) [
      | inl e ↦ (let there = k pool name e in absurd (cc))
      | inr e ↦ e
    ]

    after_clone-IsSound :
        (s : S) (created paths : List (String × String)) (disk : VmCloneDiskRequest)
        (r : S × Option StorageVolume)
        → IsKept holds s0 s
        → AreNew created
        → CopyEffect holds s (trim_space disk.pool) (trim_space disk.target_name) r
        → IsSound (after_clone libvirt created paths disk r)
    unfolding IsSound AreNew after_clone CopyEffect
    after_clone-IsSound s created paths disk (s', none) k new e =
        cleanup_volumes-IsKept created s' new (kept k e)
    after_clone-IsSound s created paths disk (s', some volume) k new (e, named, absent) =
        let trimmed : trim_space volume.name ≡ trim_space disk.target_name =
          ap trim_space named ∙ trim_space-trim_space disk.target_name in
        (
          kept k e,
          (
            ap (holds s0 (trim_space disk.pool)) trimmed
                ∙ new_since s (trim_space disk.pool) (trim_space disk.target_name) k absent,
            new,
          ),
        )

    clone_next-IsSound :
        (progress : Progress S) (disk : VmCloneDiskRequest)
        → IsSound progress
        → IsSound (clone_next libvirt progress disk)
    unfolding IsSound clone_next clone_disk
    clone_next-IsSound (halted s) disk k = k
    clone_next-IsSound (going s created paths) disk (k, new) =
        after_clone-IsSound s created paths disk _ k new
          (clone_storage_volume_to_pool_lem holds libvirt.virsh laws.programs s _ disk.pool _)

    clone_disks-IsSound :
        (progress : Progress S) (disks : List VmCloneDiskRequest)
        → IsSound progress
        → IsSound (clone_disks libvirt progress disks)
    unfolding clone_disks
    clone_disks-IsSound progress [] k = k
    clone_disks-IsSound progress (disk ∷ rest) k =
        clone_disks-IsSound (clone_next libvirt progress disk) rest
          (clone_next-IsSound progress disk k)

    abbrev Answer : Type 0
    Answer = S × (CloneError ⊎ VmConfig)

    read_clone-IsKept :
        (s : S) (name : String) (config : Option VmConfig)
        → IsKept holds s0 s
        → IsKept holds s0 (read_clone libvirt s name config).0
    unfolding read_clone
    read_clone-IsKept s name none k = k
    read_clone-IsKept s name (some config) k = k

    after_start-IsKept :
        (name : String) (started : S × Bool)
        → IsKept holds s0 started.0
        → IsKept holds s0 (after_start libvirt name started).0
    unfolding after_start
    after_start-IsKept name (s, false) k = k
    after_start-IsKept name (s, true) k = read_clone-IsKept s name _ k

    start_if-IsKept :
        (s : S) (name : String) (b : Bool)
        → IsKept holds s0 s
        → IsKept holds s0 (if b then libvirt.start s name else (s, true)).0
    start_if-IsKept s name true k = kept k (laws.started s name)
    start_if-IsKept s name false k = k

    after_description-IsKept :
        (r : VmCloneRequest) (described : S × Bool)
        → IsKept holds s0 described.0
        → IsKept holds s0 (after_description libvirt r described).0
    unfolding after_description
    after_description-IsKept r (s, false) k = k
    after_description-IsKept r (s, true) k =
        after_start-IsKept r.name _ (start_if-IsKept s r.name r.autostart k)

    update_description-IsKept :
        (s : S) (name description : String)
        → IsKept holds s (update_description libvirt s name description).0
    unfolding update_description
    update_description-IsKept s name description = laws.described s name (trim_space description) _

    after_define-IsKept :
        (r : VmCloneRequest) (created : List (String × String)) (defined : S × Bool)
        → AreNew created
        → IsKept holds s0 defined.0
        → IsKept holds s0 (after_define libvirt r created defined).0
    unfolding after_define
    after_define-IsKept r created (s, false) new k = cleanup_volumes-IsKept created s new k
    after_define-IsKept r created (s, true) new k =
        after_description-IsKept r (update_description libvirt s r.name r.description)
          (kept k (update_description-IsKept s r.name r.description))

    after_writing-IsKept :
        (r : VmCloneRequest) (created : List (String × String)) (file : S × Option String)
        → AreNew created
        → IsKept holds s0 file.0
        → IsKept holds s0 (after_writing libvirt r created file).0
    unfolding after_writing
    after_writing-IsKept r created (s, none) new k = cleanup_volumes-IsKept created s new k
    after_writing-IsKept r created (s, some path) new k =
        after_define-IsKept r created (libvirt.define s path) new (kept k (laws.defined s path))

    after_building-IsKept :
        (s : S) (r : VmCloneRequest) (created : List (String × String)) (xml : Option String)
        → AreNew created
        → IsKept holds s0 s
        → IsKept holds s0 (after_building libvirt s r created xml).0
    unfolding after_building
    after_building-IsKept s r created none new k = cleanup_volumes-IsKept created s new k
    after_building-IsKept s r created (some xml) new k =
        after_writing-IsKept r created (libvirt.write_temp_xml s xml) new
          (kept k (laws.written s xml))

    after_disks-IsKept :
        (r : VmCloneRequest) (source : VmConfig) (progress : Progress S)
        → IsSound progress
        → IsKept holds s0 (after_disks libvirt r source progress).0
    unfolding IsSound after_disks
    after_disks-IsKept r source (halted s) k = k
    after_disks-IsKept r source (going s created paths) (k, new) =
        after_building-IsKept s r created _ new k

    clone_checked-IsKept :
        (r : VmCloneRequest) (source : VmConfig) (disks : CloneError ⊎ List VmCloneDiskRequest)
        → IsKept holds s0 (clone_checked libvirt s0 r source disks).0
    unfolding clone_checked IsSound AreNew
    clone_checked-IsKept r source (inl e) = λ p n h. h
    clone_checked-IsKept r source (inr disks) =
        after_disks-IsKept r source _ (clone_disks-IsSound (going s0 [] []) disks (λ p n h. h, tt))

    clone_source-IsKept :
        (r : VmCloneRequest) (source : Option VmConfig)
        → IsKept holds s0 (clone_source libvirt s0 r source).0
    unfolding clone_source
    clone_source-IsKept r none = λ p n h. h
    clone_source-IsKept r (some source) = clone_checked-IsKept r source _

    clone_unless-IsKept :
        (vm : String) (r : VmCloneRequest) (refusal : Option CloneError)
        → IsKept holds s0 (clone_unless libvirt s0 vm r refusal).0
    unfolding clone_unless
    clone_unless-IsKept vm r (some e) = λ p n h. h
    clone_unless-IsKept vm r none = clone_source-IsKept r _

  -- Cloning a machine takes away no volume that was there before, whatever commands fail and whatever
  -- the answer is, its cleaning up included: where vol-clone refuses a name in use, vol-delete takes
  -- no other volume than the one named, a volume is the file of its name in its pool, removing a file
  -- takes no volume that was there while the file was not, and the other commands take none.
  pub clone_vm_keeps :
      IsLibvirt
      → (s : S) (vm : String) (request : VmCloneRequest) (pool name : String)
      → holds s pool name ≡ true
      → holds (clone_vm libvirt s vm request).0 pool name ≡ true
  unfolding clone_vm
  clone_vm_keeps laws s vm request = clone_unless-IsKept laws s vm _ _
