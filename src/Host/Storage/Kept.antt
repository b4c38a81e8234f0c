-- ===== src/Host/Storage/Kept.antt =====
-- The volumes that copying and deleting a volume keep.
use kvm_manager.Base.{
  String, ◌≡◌, refl, subst, Bool, true, false, not, ◌&&◌, ◌||◌, Option, none, some, List, [], ◌∷◌,
  ◌==◌, eq_iff, Bool-cases, inl, inr,
}
use kvm_manager.Text.{trim_space, equal_fold}
use kvm_manager.Text.Paths.{join, is_abs}
use kvm_manager.Host.Storage.{
  StorageVolume, StorageVolumeCloneRequest, Stat, present, absent, unknown, Virsh, find_named,
  has_separator, storage_volume_format, volume_in, storage_volume, volume_used_by_vm, delete_found,
  delete_storage_volume, finish_clone, finish_convert, convert_to, convert_into, convert_volume,
  supported_volume_format, copy_source, copy_trimmed, clone_storage_volume_to_pool,
}
use kvm_manager.Host.Storage.Documented.{IsKept, IsVirsh, CopyEffect}

module _ {S : Type 0} (virsh : Virsh S) where
  some_inj : {a b : StorageVolume} → ◌≡◌ {A = Option StorageVolume} (some a) (some b) → a ≡ b
  some_inj h = cc

  find_named-name :
      (name : String) (volumes : List StorageVolume) (volume : StorageVolume)
      → find_named name volumes ≡ some volume
      → volume.name ≡ name
  unfolding find_named
  find_named-name name [] volume h = cc
  find_named-name name (v ∷ rest) volume h = elim (Bool-cases (v.name == name)) [
    | inl e ↦ subst (λ w. w.name ≡ name) (some_inj (rw e at h)) ((eq_iff v.name name).0 e)
    | inr e ↦ find_named-name name rest volume (rw e at h)
  ]

  volume_in-name :
      (name : String) (list : Option (List StorageVolume)) (volume : StorageVolume)
      → volume_in virsh name list ≡ some volume
      → volume.name ≡ name
  unfolding volume_in
  volume_in-name name none volume h = cc
  volume_in-name name (some volumes) volume h = find_named-name name volumes volume h

  storage_volume-name :
      (s : S) (pool name : String) (volume : StorageVolume)
      → storage_volume virsh s pool name ≡ some volume
      → volume.name ≡ name
  unfolding storage_volume
  storage_volume-name s pool name volume h =
      volume_in-name name (virsh.list_storage_volumes s pool) volume h

module _ {S : Type 0} (holds : S → String → String → Bool) (virsh : Virsh S)
    (laws : IsVirsh holds virsh) where
  same : (s : S) → IsKept holds s s
  same s = λ pool name h. h

  module _ (pool name : String) where
    found :
        (s s' : S) (o : Option StorageVolume)
        → IsKept holds s s'
        → holds s pool name ≡ false
        → ((volume : StorageVolume) → o ≡ some volume → volume.name ≡ name)
        → CopyEffect holds s pool name (s', o)
    unfolding CopyEffect
    found s s' none k new named = k
    found s s' (some volume) k new named = (k, named volume refl, new)

    made :
        (s s' : S)
        → IsKept holds s s'
        → holds s pool name ≡ false
        → CopyEffect holds s pool name (s', storage_volume virsh s' pool name)
    made s s' k new =
        found s s' (storage_volume virsh s' pool name) k new
          (storage_volume-name virsh s' pool name)

    finish_clone_lem :
        (s : S) (r : S × Bool)
        → IsKept holds s r.0
        → (r.1 ≡ true → holds s pool name ≡ false)
        → CopyEffect holds s pool name (finish_clone virsh pool name r)
    unfolding finish_clone CopyEffect
    finish_clone_lem s (s', true) k new = made s s' k (new refl)
    finish_clone_lem s (s', false) k new = k

    finish_convert_lem :
        (s : S) (target : String) (r : S × Bool)
        → virsh.stat s target ≡ absent
        → holds s pool name ≡ false
        → IsKept holds s r.0
        → CopyEffect holds s pool name (finish_convert virsh pool name target r)
    unfolding finish_convert CopyEffect
    finish_convert_lem s target (s', true) e new k =
        made s (virsh.pool_refresh s' pool) (λ p n h. laws.refresh_keeps s' pool p n (k p n h)) new
    finish_convert_lem s target (s', false) e new k = laws.remove_keeps s s' target e k

    convert_to_lem :
        (s : S) (format source dir : String) (stat : Stat)
        → virsh.pool_path s pool ≡ some dir
        → virsh.stat s (join dir name) ≡ stat
        → CopyEffect holds s pool name
            (convert_to virsh s pool name format source (join dir name) stat)
    unfolding convert_to CopyEffect
    convert_to_lem s format source dir present p e = same s
    convert_to_lem s format source dir unknown p e = same s
    convert_to_lem s format source dir absent p e =
        finish_convert_lem s (join dir name) (virsh.convert s format source (join dir name)) e
          (laws.absent_file s pool dir name p e)
          (laws.convert_keeps s format source (join dir name) e)

    convert_into_lem :
        (s : S) (format source : String) (path : Option String)
        → virsh.pool_path s pool ≡ path
        → CopyEffect holds s pool name (convert_into virsh s pool name format source path)
    unfolding convert_into CopyEffect
    convert_into_lem s format source none e = same s
    convert_into_lem s format source (some dir) e = elim (Bool-cases (trim_space dir == "")) [
      | inl blank ↦ rw blank (same s)
      | inr filled ↦
          rw filled (convert_to_lem s format source dir (virsh.stat s (join dir name)) e refl)
    ]

    convert_volume_lem :
        (s : S) (format source : String)
        → CopyEffect holds s pool name (convert_volume virsh s pool name format source)
    unfolding convert_volume CopyEffect
    convert_volume_lem s format source = elim (Bool-cases (supported_volume_format format)) [
      | inr bad ↦ rw bad (same s)
      | inl good ↦ elim (Bool-cases (source == "" || not (is_abs source))) [
        | inl bad ↦ rw (good, bad) (same s)
        | inr abs ↦ rw (good, abs) (convert_into_lem s format source (virsh.pool_path s pool) refl)
      ]
    ]

  copy_source_lem :
      (s : S) (source_pool pool : String) (request : StorageVolumeCloneRequest)
      (source : Option StorageVolume)
      → CopyEffect holds s pool request.name (copy_source virsh s source_pool pool request source)
  unfolding copy_source CopyEffect
  copy_source_lem s source_pool pool request none = same s
  copy_source_lem s source_pool pool request (some source) =
      elim (Bool-cases (not request.convert && source_pool == pool)) [
        | inl inside ↦ rw inside (
            finish_clone_lem pool request.name s _
              (laws.clone_keeps s pool request.source_name request.name _)
              (laws.clone_new s pool request.source_name request.name _))
        | inr across ↦ rw across (convert_volume_lem pool request.name s _ source.path)
      ]

  copy_trimmed_lem :
      (s : S) (source_pool pool : String) (request : StorageVolumeCloneRequest)
      → CopyEffect holds s pool request.name (copy_trimmed virsh s source_pool pool request)
  unfolding copy_trimmed CopyEffect
  copy_trimmed_lem s source_pool pool request =
      elim (Bool-cases
        (source_pool == "" || pool == "" || request.name == "" || request.source_name == "")) [
          | inl blank ↦ rw blank (same s)
          | inr filled ↦ elim (Bool-cases (has_separator request.name)) [
            | inl bad ↦ rw (filled, bad) (same s)
            | inr good ↦
                rw (filled, good)
                  (copy_source_lem s source_pool pool request
                    (storage_volume virsh s source_pool request.source_name))
          ]
        ]

  -- A copy takes no volume away; a volume that it makes has its name, under which there was none.
  pub clone_storage_volume_to_pool_lem :
      (s : S) (source_pool pool : String) (request : StorageVolumeCloneRequest)
      → CopyEffect holds s
          (trim_space pool)
          (trim_space request.name)
          (clone_storage_volume_to_pool virsh s source_pool pool request)
  unfolding clone_storage_volume_to_pool
  clone_storage_volume_to_pool_lem s source_pool pool request =
      copy_trimmed_lem s (trim_space source_pool) (trim_space pool) _

  delete_found_lem :
      (s : S) (pool name : String) (volume : Option StorageVolume) (p n : String)
      → (p == pool && n == name) ≡ false
      → holds s p n ≡ true
      → holds (delete_found virsh s pool name volume).0 p n ≡ true
  unfolding delete_found
  delete_found_lem s pool name none p n other h = h
  delete_found_lem s pool name (some volume) p n other h =
      elim (Bool-cases (
        not (equal_fold (storage_volume_format volume.name volume.path) "iso")
        && volume_used_by_vm virsh s volume.path)) [
          | inl e ↦ rw e h
          | inr e ↦ rw e (laws.delete_others s pool name p n other h)
        ]

  -- Deleting a volume takes no other volume away.
  pub delete_storage_volume_lem :
      (s : S) (pool name p n : String)
      → (p == trim_space pool && n == trim_space name) ≡ false
      → holds s p n ≡ true
      → holds (delete_storage_volume virsh s pool name).0 p n ≡ true
  unfolding delete_storage_volume
  delete_storage_volume_lem s pool name p n other h =
      elim (Bool-cases (trim_space pool == "" || trim_space name == "")) [
        | inl e ↦ rw e h
        | inr e ↦ rw e (
            delete_found_lem s (trim_space pool) (trim_space name)
              (storage_volume virsh s (trim_space pool) (trim_space name)) p n other h)
      ]
