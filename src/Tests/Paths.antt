-- ===== src/Tests/Paths.antt =====
-- Paths of Go's `path/filepath`.
use kvm_manager.Base.{◌≡◌, refl}
use kvm_manager.Text.Numbers.{split_on}
use kvm_manager.Text.Paths.{clean, join, base, ext}

cleaned : clean "/a/./b//../c/" ≡ "/a/c"
unfolding clean split_on
cleaned = refl

cleaned_relative : clean "../a/../.." ≡ "../.."
unfolding clean split_on
cleaned_relative = refl

joined : join "/pool/" "disk.qcow2" ≡ "/pool/disk.qcow2"
unfolding join split_on
joined = refl

last_part : base "/pool/disk.qcow2/" ≡ "disk.qcow2"
unfolding base split_on
last_part = refl

extension_of : ext "/pool.d/disk.old.iso" ≡ ".iso"
unfolding ext
extension_of = refl
