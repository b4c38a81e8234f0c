-- ===== src/Host/Clone/Request/Disks.antt =====
-- The disks that a request for a clone asks for: validateVMCloneDisks of
-- agent/internal/kvm/virsh_clone.go.
use kvm_manager.Base.{
  String, ◌≡◌, refl, subst, ap, ◌∙◌, Bool, true, false, not, ◌&&◌, ◌||◌, Option, none, some, List,
  [], ◌∷◌, ◌⊎◌, inl, inr, ◌==◌, eq_iff, eq_refl, arith, Bool-cases, map, all, member,
}
use kvm_manager.Text.{◌<>◌}
use kvm_manager.Host.Clone.Request.{
  VmCloneDiskRequest, VmConfigDisk, CloneError, find_disk, trimmed_disk, check_source, check_disk,
  refused, accepted, add_checked, check_next, check_all, in_order, checked_items, validate_disks,
}

-- Whether a disk of the source fits a trimmed request.
abbrev fits : VmCloneDiskRequest → Option VmConfigDisk → Bool
fits r none = false
fits r (some source) =
    not (source.path == "") && (r.source_path == "" || r.source_path == source.path)

-- Whether a request can be met: it names its disk, its pool and its target, the source has the disk,
-- whose path is known, and the path that the request gives, if any, is that one.
abbrev pub is_valid : List VmConfigDisk → VmCloneDiskRequest → Bool
is_valid sources request =
    let r = trimmed_disk request in
    not (r.name == "" || r.pool == "" || r.target_name == "") && fits r (find_disk r.name sources)

abbrev pub target : VmCloneDiskRequest → String
target request = let r = trimmed_disk request in r.pool <> ("/" <> r.target_name)

-- Whether no text comes twice or is one of those seen.
unfoldable pub are_new : List String → List String → Bool
are_new seen [] = true
are_new seen (t ∷ ts) = not (member t seen) && are_new (t ∷ seen) ts

abbrev from_disk : VmCloneDiskRequest → Option VmConfigDisk → VmCloneDiskRequest
from_disk r none = r
from_disk r (some source) = record r { source_path = source.path }

-- The trimmed request with the path of its disk.
abbrev pub with_source : List VmConfigDisk → VmCloneDiskRequest → VmCloneDiskRequest
with_source sources request = let r = trimmed_disk request in from_disk r (find_disk r.name sources)

-- An answer that accepts what was asked for, as `a`, exactly if `ok` holds.
unfoldable pub AcceptsIf : {A : Type 0} → Bool → A → CloneError ⊎ A → Type 0
AcceptsIf ok a (inl e) = ok ≡ false
AcceptsIf ok a (inr b) = (ok ≡ true) × (b ≡ a)

check_source_lem :
    (seen : List String) (r : VmCloneDiskRequest) (source : Option VmConfigDisk)
    → AcceptsIf
        (fits r source && not (member (r.pool <> ("/" <> r.target_name)) seen))
        (from_disk r source)
        (check_source seen r source)
unfolding AcceptsIf check_source
check_source_lem seen r none = refl
check_source_lem seen r (some source) =
    let key = r.pool <> ("/" <> r.target_name) in
    elim (Bool-cases (source.path == "")) [
      | inl e ↦ rw e refl
      | inr e ↦ elim (Bool-cases (r.source_path == "")) [
        | inl x ↦ elim (Bool-cases (member key seen)) [
          | inl m ↦ rw (e, x, eq_refl source.path, m) refl
          | inr m ↦ rw (e, x, eq_refl source.path, m) (refl, refl)
        ]
        | inr x ↦ elim (Bool-cases (r.source_path == source.path)) [
          | inl y ↦
              (let same : r.source_path ≡ source.path = (eq_iff r.source_path source.path).0 y in
                elim (Bool-cases (member key seen)) [
                  | inl m ↦ rw (e, x, y, m) refl
                  | inr m ↦ rw (e, x, y, m) (refl, ap (λ p. record r { source_path = p }) same)
                ])
          | inr y ↦ rw (e, x, y) refl
        ]
      ]
    ]

check_disk_lem :
    (seen : List String) (sources : List VmConfigDisk) (request : VmCloneDiskRequest)
    → AcceptsIf
        (is_valid sources request && not (member (target request) seen))
        (with_source sources request)
        (check_disk seen sources (trimmed_disk request))
unfolding AcceptsIf check_disk
check_disk_lem seen sources request =
    let r = trimmed_disk request in
    elim (Bool-cases (r.name == "" || r.pool == "" || r.target_name == "")) [
      | inl e ↦ rw e refl
      | inr e ↦ rw e (check_source_lem seen r (find_disk r.name sources))
    ]

from_disk-target :
    (r : VmCloneDiskRequest) (source : Option VmConfigDisk)
    → (from_disk r source).pool <> ("/" <> (from_disk r source).target_name)
      ≡ r.pool <> ("/" <> r.target_name)
from_disk-target r none = refl
from_disk-target r (some source) = refl

refused_stays :
    (sources : List VmConfigDisk) (e : CloneError) (rest : List VmCloneDiskRequest)
    → check_all sources (refused e) rest ≡ refused e
unfolding check_all check_next
refused_stays sources e [] = refl
refused_stays sources e (r ∷ rest) = refused_stays sources e rest

-- The whole check from a point of the loop on.
AcceptsRest :
    List VmConfigDisk → List VmCloneDiskRequest → List String → List VmCloneDiskRequest → Type 0
AcceptsRest sources rest seen items =
    AcceptsIf (all (is_valid sources) rest && are_new seen (map target rest))
      (in_order items (map (with_source sources) rest))
      (checked_items (check_all sources (accepted seen items) rest))

add_checked_lem :
    (sources : List VmConfigDisk) (rest : List VmCloneDiskRequest) (seen : List String)
    (items : List VmCloneDiskRequest) (request : VmCloneDiskRequest)
    (c : CloneError ⊎ VmCloneDiskRequest)
    → AcceptsIf
        (is_valid sources request && not (member (target request) seen))
        (with_source sources request)
        c
    → ((seen1 : List String) (items1 : List VmCloneDiskRequest)
        → AcceptsRest sources rest seen1 items1)
    → AcceptsIf
        (all (is_valid sources) (request ∷ rest) && are_new seen (map target (request ∷ rest)))
        (in_order items (map (with_source sources) (request ∷ rest)))
        (checked_items (check_all sources (add_checked seen items c) rest))
unfolding AcceptsIf AcceptsRest add_checked are_new in_order checked_items
add_checked_lem sources rest seen items request (inl e) h next =
    rw (refused_stays sources e rest) (ground arith)
add_checked_lem sources rest seen items request (inr b) (ok, same) next =
    let a = with_source sources request in
    let r = trimmed_disk request in
    let key : b.pool <> ("/" <> b.target_name) ≡ target request =
      ap (λ d. d.pool <> ("/" <> d.target_name)) same
      ∙ from_disk-target r (find_disk r.name sources) in
    let later = next (target request ∷ seen) (a ∷ items) in
    let enough : (all (is_valid sources) rest && are_new (target request ∷ seen) (map target rest))
        ≡ ((is_valid sources request && all (is_valid sources) rest)
            && (not (member (target request) seen)
                && are_new (target request ∷ seen) (map target rest))) =
      ground arith in
    rw (key, same)
      (subst
        (λ good.
          AcceptsIf good (in_order items (a ∷ map (with_source sources) rest))
            (checked_items (check_all sources (accepted (target request ∷ seen) (a ∷ items)) rest)))
        enough later)

check_all_lem :
    (sources : List VmConfigDisk) (requests : List VmCloneDiskRequest) (seen : List String)
    (items : List VmCloneDiskRequest)
    → AcceptsRest sources requests seen items
unfolding AcceptsRest AcceptsIf check_all check_next are_new checked_items
check_all_lem sources [] seen items = (refl, refl)
check_all_lem sources (r ∷ rest) seen items =
    add_checked_lem sources rest seen items r (check_disk seen sources (trimmed_disk r))
      (check_disk_lem seen sources r) (λ seen1 items1. check_all_lem sources rest seen1 items1)

-- The requests for the disks of a clone are accepted exactly when each can be met and no two have the
-- same target, as pool and name joined by a slash; the accepted ones are the given ones in their
-- order, trimmed, each with the path of its disk in the source. Otherwise the answer is an error.
pub validate_disks_lem :
    (requests : List VmCloneDiskRequest) (sources : List VmConfigDisk)
    → AcceptsIf
        (all (is_valid sources) requests && are_new [] (map target requests))
        (map (with_source sources) requests)
        (validate_disks requests sources)
unfolding validate_disks AcceptsRest in_order
validate_disks_lem requests sources = check_all_lem sources requests [] []
