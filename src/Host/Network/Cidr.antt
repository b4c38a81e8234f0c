-- ===== src/Host/Network/Cidr.antt =====
-- IPv4 networks in CIDR notation: ipv4CIDR, ipv4Uint32 and ipv4String of
-- agent/internal/kvm/virsh_network_xml.go, with what they use of Go's package `net`. An address of
-- IPv6 passes net.ParseCIDR, but ipv4CIDR refuses it, so that `parse_cidr` reads IPv4 alone.
pub mod RoundTrip
pub mod Bytes
use Prim.Native.Nat.{bit_and, bit_or}
use kvm_manager.Base.{
  ℕ, ◌-◌, String, Bool, ◌&&◌, Option, none, some, List, [], ◌∷◌, ◌==◌, leb, if◌then◌else◌,
}
use kvm_manager.Text.{trim_space, decimal, ◌<>◌}
use kvm_manager.Text.Numbers.{parse_digits, split_on}
use kvm_manager.Host.Words.{shl32, shr, byte}

-- The four bytes of net.IP.To4
pub record Ipv4 : Type 0 where
  pub b0 : ℕ
  pub b1 : ℕ
  pub b2 : ℕ
  pub b3 : ℕ

infixl 5 ◌>>=◌
abbrev ◌>>=◌ : {A B : Type 0} → Option A → (A → Option B) → Option B
none >>= f = none
some a >>= f = f a

-- A number up to 255, written without leading zeros.
unfoldable parse_octet : String → Option ℕ
parse_octet s = do n ← parse_digits s; if leb n 255 && decimal n == s then some n else none

parse_octets : List String → Option Ipv4
unfolding parse_octet
parse_octets (a ∷ b ∷ c ∷ d ∷ []) = do
  b0 ← parse_octet a
  b1 ← parse_octet b
  b2 ← parse_octet c
  b3 ← parse_octet d
  some (record { b0 = b0; b1 = b1; b2 = b2; b3 = b3 })
parse_octets parts = none

parse_network : List String → Option (Ipv4 × ℕ)
unfolding parse_octets
parse_network (address ∷ length ∷ []) = do
  ip ← parse_octets (split_on 46 address)
  n ← parse_digits length
  if leb n 32 then some (ip, n) else none
parse_network parts = none

-- net.ParseCIDR: the address and the length of its prefix
unfoldable pub parse_cidr : String → Option (Ipv4 × ℕ)
unfolding parse_network
parse_cidr s = parse_network (split_on 47 s)

unfoldable pub ipv4_uint32 : Ipv4 → ℕ
ipv4_uint32 ip = bit_or (bit_or (bit_or (shl32 ip.b0 24) (shl32 ip.b1 16)) (shl32 ip.b2 8)) ip.b3

unfoldable pub ipv4_string : ℕ → String
ipv4_string ip =
    decimal (byte (shr ip 24))
    <> ("."
        <> (decimal (byte (shr ip 16))
            <> ("." <> (decimal (byte (shr ip 8)) <> ("." <> decimal (byte ip))))))

-- uint32(0xffffffff) << uint32(32-prefix)
unfoldable pub prefix_mask : ℕ → ℕ
prefix_mask prefix = shl32 0xffff_ffff (32 - prefix)

unfoldable pub ipv4_cidr : String → Option (ℕ × ℕ)
unfolding parse_cidr ipv4_uint32 prefix_mask
ipv4_cidr cidr = do
  (ip, prefix) ← parse_cidr (trim_space cidr)
  some (bit_and (ipv4_uint32 ip) (prefix_mask prefix), prefix)
