-- ===== src/Host/Network/Range.antt =====
-- The range of the addresses of a network that hosts may use.
use Prim.Native.Nat.{bit_or}
use native.Mathlib.Nat.{pow-le-pow_right}
use kvm_manager.Base.{ℕ, ◌+◌, ◌-◌, ◌*◌, ◌/◌, ◌^◌, ◌≤◌, ◌<◌, ◌≡◌, ap, ◌∙◌, arith}
use kvm_manager.Host.Words.{not32}
use kvm_manager.Host.Words.Laws.{bit_or-not32, block_end}
use kvm_manager.Host.Network.Cidr.{prefix_mask}
use kvm_manager.Host.Network.{range_up_to, cidr_usable_range}

-- The number of addresses of a network
abbrev pub block : ℕ → ℕ
block prefix = 2 ^ (32 - prefix)

-- The address of the network in which an address lies
abbrev pub network_of : ℕ → ℕ → ℕ
network_of ip prefix = ip / block prefix * block prefix

pub four-le-block : (prefix : ℕ) → prefix ≤ 30 → 4 ≤ block prefix
four-le-block prefix h =
    pow-le-pow_right {n = 2} (omega arith) {i = 2} {j = 32 - prefix} (omega arith)

pub network_of-block :
    (ip prefix : ℕ) → ip < 2 ^ 32 → prefix ≤ 32 → network_of ip prefix + block prefix ≤ 2 ^ 32
network_of-block ip prefix h k = block_end prefix (32 - prefix) ip (omega arith) h

broadcast_lem :
    (ip prefix : ℕ)
    → prefix ≤ 32
    → bit_or (network_of ip prefix) (not32 (prefix_mask prefix))
      ≡ network_of ip prefix + (block prefix - 1)
unfolding prefix_mask
broadcast_lem ip prefix h = bit_or-not32 prefix (32 - prefix) (ip / block prefix) (omega arith)

range_up_to_lem :
    (net size prefix : ℕ)
    → net + size ≤ 2 ^ 32
    → 4 ≤ size
    → prefix ≤ 30
    → range_up_to net (net + (size - 1)) prefix
      ≡ record { gateway = net + 1; start = net + 2; end = net + (size - 2) }
unfolding range_up_to
range_up_to_lem net size prefix h k p = ground arith

-- The range of a network with four addresses or more.
pub cidr_usable_range_lem :
    (ip prefix : ℕ)
    → ip < 2 ^ 32
    → prefix ≤ 30
    → cidr_usable_range (network_of ip prefix) (prefix_mask prefix) prefix ≡ record {
      gateway = network_of ip prefix + 1;
      start = network_of ip prefix + 2;
      end = network_of ip prefix + (block prefix - 2);
    }
unfolding cidr_usable_range
cidr_usable_range_lem ip prefix h k =
    ap (λ b. range_up_to (network_of ip prefix) b prefix) (broadcast_lem ip prefix (omega arith))
    ∙ range_up_to_lem (network_of ip prefix) (block prefix) prefix
        (network_of-block ip prefix h (omega arith)) (four-le-block prefix k) k

-- A network with fewer has none.
pub cidr_usable_range_none :
    (network mask prefix : ℕ)
    → 30 < prefix
    → cidr_usable_range network mask prefix ≡ record { gateway = network; start = 0; end = 0 }
unfolding cidr_usable_range range_up_to
cidr_usable_range_none network mask prefix h = ground arith
