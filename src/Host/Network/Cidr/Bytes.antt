-- ===== src/Host/Network/Cidr/Bytes.antt =====
-- What ipv4CIDR accepts.
use Prim.Native.Nat.{bit_and}
use kvm_manager.Base.{
  ℕ, ◌-◌, ◌*◌, ◌/◌, ◌^◌, ◌≤◌, ◌<◌, String, ◌≡◌, subst, some, List, [], ◌∷◌, arith, Option-cases,
  inl, inr,
}
use kvm_manager.Text.{trim_space}
use kvm_manager.Text.Numbers.{split_on}
use kvm_manager.Host.Words.Laws.{bit_and-mask}
use kvm_manager.Host.Network.Cidr.{
  Ipv4, parse_octet, parse_octets, parse_network, parse_cidr, ipv4_uint32, ipv4_cidr, prefix_mask,
}
use kvm_manager.Host.Network.Cidr.RoundTrip.{octets_lem}

parse_octet-le : (s : String) (n : ℕ) → parse_octet s ≡ some n → n ≤ 255
unfolding parse_octet
parse_octet-le s n h = ground arith

abbrev IsBytes : Ipv4 → Type 0
IsBytes ip = (ip.b0 ≤ 255) × (ip.b1 ≤ 255) × (ip.b2 ≤ 255) × (ip.b3 ≤ 255)

parse_octets-IsBytes : (parts : List String) (ip : Ipv4) → parse_octets parts ≡ some ip → IsBytes ip
unfolding parse_octets
parse_octets-IsBytes (a ∷ b ∷ c ∷ d ∷ []) ip h = grind (arith, parse_octet-le)
parse_octets-IsBytes [] ip h = cc
parse_octets-IsBytes (a ∷ []) ip h = cc
parse_octets-IsBytes (a ∷ b ∷ []) ip h = cc
parse_octets-IsBytes (a ∷ b ∷ c ∷ []) ip h = cc
parse_octets-IsBytes (a ∷ b ∷ c ∷ d ∷ e ∷ parts) ip h = cc

parse_network-IsBytes :
    (parts : List String) (ip : Ipv4) (prefix : ℕ)
    → parse_network parts ≡ some (ip, prefix)
    → IsBytes ip × (prefix ≤ 32)
unfolding parse_network
parse_network-IsBytes (address ∷ length ∷ []) ip prefix h =
    grind (arith, parse_octets-IsBytes (split_on 46 address))
parse_network-IsBytes [] ip prefix h = cc
parse_network-IsBytes (a ∷ []) ip prefix h = cc
parse_network-IsBytes (a ∷ b ∷ c ∷ parts) ip prefix h = cc

ipv4_uint32-lt : (ip : Ipv4) → IsBytes ip → ipv4_uint32 ip < 2 ^ 32
unfolding ipv4_uint32
ipv4_uint32-lt ip h = omega (
  arith,
  octets_lem ip.b0 ip.b1 ip.b2 ip.b3 (omega (arith, h.0)) (omega (arith, h.1)) (omega (arith, h.2))
      (omega (arith, h.3)),
  h.0,
  h.1,
  h.2,
  h.3,
)

-- A text that is accepted names the network of some address.
abbrev pub NamesNetwork : ℕ × ℕ → Type 0
NamesNetwork net =
    (ip : ℕ) × (ip < 2 ^ 32) × (net.1 ≤ 32) × (net.0 ≡ ip / 2 ^ (32 - net.1) * 2 ^ (32 - net.1))

some_inj : {A : Type 0} {a b : A} → some a ≡ some b → a ≡ b
some_inj h = cc

masked-NamesNetwork :
    (ip : Ipv4) (prefix : ℕ)
    → IsBytes ip × (prefix ≤ 32)
    → NamesNetwork (bit_and (ipv4_uint32 ip) (prefix_mask prefix), prefix)
unfolding prefix_mask
masked-NamesNetwork ip prefix h =
    let fits : ipv4_uint32 ip < 2 ^ 32 = ipv4_uint32-lt ip h.0 in
    (
      ipv4_uint32 ip,
      fits,
      h.1,
      bit_and-mask prefix (32 - prefix) (ipv4_uint32 ip) (omega (arith, h.1)) fits,
    )

pub ipv4_cidr-NamesNetwork :
    (cidr : String) (net : ℕ × ℕ) → ipv4_cidr cidr ≡ some net → NamesNetwork net
unfolding ipv4_cidr parse_cidr
ipv4_cidr-NamesNetwork cidr net h =
    elim (Option-cases (parse_network (split_on 47 (trim_space cidr)))) [
      | inl e ↦ absurd (cc)
      | inr ((ip, prefix), e) ↦ subst NamesNetwork (some_inj (rw e at h)) (
          masked-NamesNetwork ip prefix
            (parse_network-IsBytes (split_on 47 (trim_space cidr)) ip prefix e))
    ]
