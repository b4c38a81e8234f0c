-- ===== src/Tests/Cloning.antt =====
-- A host whose pools are directories, and clones of which the copy of the second disk fails.
use kvm_manager.Base.{
  String, ◌≡◌, refl, Bool, true, false, ◌&&◌, ◌||◌, Option, none, some, List, [], ◌∷◌, ◌==◌, eq_iff,
  eq_refl, arith, inl, inr, Bool-cases, map, all, member, without, member-without, if◌then◌else◌,
}
use kvm_manager.Base.Int.{pos}
use kvm_manager.Text.{trim_space, to_lower, contains, equal_fold}
use kvm_manager.Text.Numbers.{split_on}
use kvm_manager.Text.Paths.{byte_length, clean, after_prefix, base, ext, join, is_abs}
use kvm_manager.Host.Storage.{
  StorageVolume, Stat, Virsh, present, absent, supported_volume_format, find_named, storage_volume,
  clone_storage_volume_to_pool, has_separator, delete_storage_volume, first_of, has_path,
  storage_volume_format, volume_used_by_vm,
}
use kvm_manager.Host.Storage.Documented.{IsVirsh}
use kvm_manager.Host.Clone.Request.{
  validate_options, validate_disks, host_limits, is_positive, VmCloneRequest, VmCloneDiskRequest,
  VmConfig, VmConfigDisk, volume_not_cloned,
}
use kvm_manager.Host.Clone.Request.Disks.{
  AcceptsIf, is_valid, are_new, target, with_source, validate_disks_lem,
}
use kvm_manager.Host.Clone.{
  normalize_state, clone_disks, storage_pool_name_for_path, check_clone, cleanup_volumes,
  clone_disk, Libvirt, clone_vm,
}
use kvm_manager.Host.Clone.Kept.{IsLibvirt, clone_vm_keeps}

-- The volumes, each a pool and a name, where pools are named by their paths; and the files that were
-- written beside them, which no list shows yet.
record Volumes : Type 0 where
  listed : List (String × String)
  files : List String

abbrev volume_named : String → String → StorageVolume
volume_named pool n = record { name = n; path = join pool n; format = "qcow2" }

volumes : String → List (String × String) → List StorageVolume
volumes pool [] = []
volumes pool ((p, n) ∷ rest) =
    let others = volumes pool rest in if p == pool then volume_named p n ∷ others else others

taken : String → String → List (String × String) → Bool
taken pool name [] = false
taken pool name ((p, n) ∷ rest) = (p == pool && n == name) || taken pool name rest

taken_path : String → List (String × String) → Bool
taken_path path [] = false
taken_path path ((p, n) ∷ rest) = join p n == path || taken_path path rest

deleted : String → String → List (String × String) → List (String × String)
deleted pool name [] = []
deleted pool name ((p, n) ∷ rest) =
    let others = deleted pool name rest in
    if p == pool && n == name then others else (p, n) ∷ others

holds : Volumes → String → String → Bool
holds s pool name = taken pool name s.listed || member (join pool name) s.files

found_at : Volumes → String → Bool
found_at s path = taken_path path s.listed || member path s.files

abbrev virsh : Virsh Volumes
virsh = record {
  list_storage_volumes = λ s pool. some (volumes pool s.listed);
  disk_paths = λ s. [];
  vol_clone = λ s pool source name prealloc.
      if holds s pool name
      then (s, false)
      else (record s { listed = (pool, name) ∷ s.listed }, true);
  vol_delete = λ s pool name. (record s { listed = deleted pool name s.listed }, true);
  pool_path = λ s pool. some pool;
  stat = λ s path. if found_at s path then present else absent;
  convert = λ s format source target. (record s { files = target ∷ s.files }, true);
  remove_file = λ s path. record s { files = without path s.files };
  pool_refresh = λ s pool. s;
}

taken-deleted :
    (pool name p n : String) (vs : List (String × String))
    → (p == pool && n == name) ≡ false
    → taken p n vs ≡ true
    → taken p n (deleted pool name vs) ≡ true
unfolding taken deleted
taken-deleted pool name p n [] other h = h
taken-deleted pool name p n ((q, m) ∷ rest) other h = ground (
  arith,
  taken-deleted pool name p n rest other,
  eq_iff p pool,
  eq_iff n name,
  eq_iff q p,
  eq_iff m n,
  eq_iff q pool,
  eq_iff m name,
)

taken_at :
    (p n : String) (vs : List (String × String))
    → taken p n vs ≡ true
    → taken_path (join p n) vs ≡ true
unfolding taken taken_path
taken_at p n [] h = h
taken_at p n ((q, m) ∷ rest) h = elim (Bool-cases (q == p && m == n)) [
  | inl e ↦
      (let eq : q ≡ p = (eq_iff q p).0 (ground arith) in
        let em : m ≡ n = (eq_iff m n).0 (ground arith) in rw (eq, em, eq_refl (join p n)) refl)
  | inr e ↦ ground (arith, taken_at p n rest)
]

not_held :
    (s : Volumes) (pool name : String)
    → found_at s (join pool name) ≡ false
    → holds s pool name ≡ false
unfolding found_at holds
not_held s pool name h = ground (arith, taken_at pool name s.listed)

absent_lem : (b : Bool) → ◌≡◌ {A = Stat} (if b then present else absent) absent → b ≡ false
absent_lem true h = cc
absent_lem false h = refl

clone_kept :
    (s : Volumes) (pool name p n : String)
    → holds s p n ≡ true
    → holds (virsh.vol_clone s pool "" name false).0 p n ≡ true
unfolding holds taken
clone_kept s pool name p n h = elim (Bool-cases (holds s pool name)) [
  | inl e ↦ rw e h
  | inr e ↦ rw e (ground arith)
]

if_new :
    (s s' : Volumes) (b : Bool)
    → (if◌then◌else◌ {A = Volumes × Bool} b (s, false) (s', true)).1 ≡ true
    → b ≡ false
if_new s s' true h = cc
if_new s s' false h = refl

delete_kept :
    (s : Volumes) (pool name p n : String)
    → (p == pool && n == name) ≡ false
    → holds s p n ≡ true
    → holds (virsh.vol_delete s pool name).0 p n ≡ true
unfolding holds
delete_kept s pool name p n other h = ground (arith, taken-deleted pool name p n s.listed other)

same_dir :
    (s : Volumes) (pool dir name : String)
    → ◌≡◌ {A = Option String} (some pool) (some dir)
    → found_at s (join dir name) ≡ false
    → holds s pool name ≡ false
same_dir s pool dir name e h = let same : pool ≡ dir = cc in not_held s pool name (rw same h)

convert_kept :
    (s : Volumes) (target p n : String)
    → holds s p n ≡ true
    → holds (virsh.convert s "" "" target).0 p n ≡ true
unfolding holds
convert_kept s target p n h = ground arith

kept_file :
    (s : Volumes) (target p n : String)
    → (target == join p n) ≡ false
    → holds s p n ≡ true
    → holds (virsh.remove_file s target) p n ≡ true
unfolding holds
kept_file s target p n other h = ground (arith, member-without target (join p n) s.files)

remove_kept :
    (s0 s : Volumes) (target p n : String)
    → found_at s0 target ≡ false
    → holds s0 p n ≡ true
    → holds s p n ≡ true
    → holds (virsh.remove_file s target) p n ≡ true
remove_kept s0 s target p n gone before now = elim (Bool-cases (target == join p n)) [
  | inl e ↦
      (let same : target ≡ join p n = (eq_iff target (join p n)).0 e in
        let none_there = not_held s0 p n (rw same at gone) in absurd (cc))
  | inr e ↦ kept_file s target p n e now
]

virsh-IsVirsh : IsVirsh holds virsh
virsh-IsVirsh = record {
  clone_keeps = λ s pool source name prealloc p n h. clone_kept s pool name p n h;
  clone_new = λ s pool source name prealloc h. if_new s _ _ h;
  delete_others = λ s pool name p n other h. delete_kept s pool name p n other h;
  absent_file =
      λ s pool dir name e h. same_dir s pool dir name e (absent_lem (found_at s (join dir name)) h);
  convert_keeps = λ s format source target h p n k. convert_kept s target p n k;
  remove_keeps = λ s0 s target h k p n there.
      remove_kept s0 s target p n (absent_lem (found_at s0 target) h) there (k p n there);
  refresh_keeps = λ s pool p n h. h;
}

abbrev two_disks : VmConfigDisk → VmConfigDisk → VmConfig
two_disks a b = record { xml = "<domain/>"; disks = a ∷ b ∷ [] }

abbrev libvirt : Libvirt Volumes
libvirt = record {
  virsh = virsh;
  node_info = λ s. none;
  domstate = λ s vm. "shut off";
  dominfo = λ s vm. none;
  vm_config = λ s vm. some (
      two_disks (record { name = "vda"; path = "/main/a" })
        (record { name = "vdb"; path = "/main/b" }));
  storage_pool_targets = λ s. record { name = "/main"; path = "/main" } ∷ [];
  build_clone_domain_xml = λ s source request paths. some "<domain/>";
  write_temp_xml = λ s xml. (s, some "/tmp/clone.xml");
  define = λ s path. (s, true);
  desc = λ s vm live text. (s, true);
  start = λ s vm. (s, true);
}

libvirt-IsLibvirt : IsLibvirt holds libvirt
libvirt-IsLibvirt = record {
  programs = virsh-IsVirsh;
  written = λ s xml p n h. h;
  defined = λ s path p n h. h;
  described = λ s vm text live p n h. h;
  started = λ s vm p n h. h;
}

abbrev disk_request : String → String → String → String → VmCloneDiskRequest
disk_request name pool source target = record {
  name = name;
  pool = pool;
  source_path = source;
  target_name = target;
  prealloc_metadata = false;
}

abbrev request_to : String → String → VmCloneRequest
request_to pool target = record {
  name = "copy";
  description = "";
  autostart = false;
  current_cpu = pos 0;
  maximum_cpu = pos 0;
  current_memory_mb = pos 0;
  maximum_memory_mb = pos 0;
  cdrom_policy = "";
  disks = disk_request "vda" "/main" "/main/a" "c" ∷ disk_request "vdb" pool "/main/b" target ∷ [];
}

abbrev before : Volumes
before = record { listed = ("/main", "a") ∷ ("/main", "b") ∷ ("/main", "taken") ∷ []; files = [] }

-- The second target is taken: the copy of the first disk is removed again.
failed_clone :
    clone_vm libvirt before "web" (request_to "/main" "taken") ≡ (before, inl volume_not_cloned)
unfolding clone_vm trim_space validate_options byte_length to_lower normalize_state contains
    validate_disks clone_disks clone_storage_volume_to_pool storage_pool_name_for_path clean
    split_on after_prefix base has_separator storage_volume find_named host_limits is_positive
    check_clone cleanup_volumes clone_disk delete_storage_volume first_of has_path
    storage_volume_format volume_used_by_vm ext equal_fold volumes taken deleted holds join
failed_clone = refl

-- The second copy is a file that virsh does not list: the copy of the first disk is removed again,
-- and the file stays.
unlisted_copy :
    clone_vm libvirt before "web" (request_to "/other" "d")
    ≡ (record before { files = "/other/d" ∷ [] }, inl volume_not_cloned)
unfolding clone_vm trim_space validate_options byte_length to_lower normalize_state contains
    validate_disks clone_disks clone_storage_volume_to_pool storage_pool_name_for_path clean
    split_on after_prefix base has_separator storage_volume find_named host_limits is_positive
    check_clone cleanup_volumes clone_disk delete_storage_volume first_of has_path is_abs
    supported_volume_format storage_volume_format volume_used_by_vm ext equal_fold volumes taken
    deleted holds join found_at taken_path
unlisted_copy = refl

clone_vm_keeps_example :
    holds (clone_vm libvirt before "web" (request_to "/main" "taken")).0 "/main" "taken" ≡ true
unfolding holds taken
clone_vm_keeps_example =
    clone_vm_keeps holds libvirt libvirt-IsLibvirt before "web" (request_to "/main" "taken") "/main"
      "taken" refl

abbrev two_requests : List VmCloneDiskRequest
two_requests = disk_request " vda " "/main" "" "c" ∷ disk_request "vdb" "/main" "/main/b" " d" ∷ []

abbrev source_disks : List VmConfigDisk
source_disks =
    record { name = "vda"; path = "/main/a" } ∷ record { name = "vdb"; path = "/main/b" } ∷ []

validate_disks_lem_example :
    AcceptsIf
      (all (is_valid source_disks) two_requests && are_new [] (map target two_requests))
      (map (with_source source_disks) two_requests)
      (validate_disks two_requests source_disks)
validate_disks_lem_example = validate_disks_lem two_requests source_disks

accepted_disks :
    validate_disks two_requests source_disks
    ≡ inr (disk_request "vda" "/main" "/main/a" "c" ∷ disk_request "vdb" "/main" "/main/b" "d" ∷ [])
unfolding validate_disks trim_space
accepted_disks = refl
