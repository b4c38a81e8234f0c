-- ===== src/Host/Words.antt =====
-- Go's uint32 in the agent's arithmetic on addresses: a number below 2 ^ 32, with the wrap written
-- out.
pub mod Laws
use kvm_manager.Base.{ℕ, ◌+◌, ◌-◌, ◌*◌, ◌/◌, ◌%◌, ◌^◌}

abbrev pub u32_mod : ℕ
u32_mod = 2 ^ 32

-- x << k
abbrev pub shl32 : ℕ → ℕ → ℕ
shl32 x k = x * 2 ^ k % u32_mod

-- x >> k
abbrev pub shr : ℕ → ℕ → ℕ
shr x k = x / 2 ^ k

-- ^x
abbrev pub not32 : ℕ → ℕ
not32 x = 0xffff_ffff - x

abbrev pub add32 : ℕ → ℕ → ℕ
add32 x y = (x + y) % u32_mod

abbrev pub sub32 : ℕ → ℕ → ℕ
sub32 x y = (x + u32_mod - y) % u32_mod

-- byte(x)
abbrev pub byte : ℕ → ℕ
byte x = x % 256
