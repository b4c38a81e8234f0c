-- ===== src/Host/Network.antt =====
-- The addresses of a network pool: the functions of agent/internal/kvm/virsh_network_xml.go on
-- addresses. Addresses are of type uint32.
pub mod Cidr
pub mod Range
pub mod Entries
pub mod Total
pub mod Distinct
pub mod Xml
use Prim.Native.Nat.{bit_or}
use kvm_manager.Base.{
  ℕ, zero, suc, ◌+◌, ◌-◌, ◌%◌, String, Bool, true, false, not, ◌&&◌, ◌||◌, Option, none, some, List,
  [], ◌∷◌, ◌++◌, ◌==◌, leb, ltb, eqb, length, if◌then◌else◌,
}
use Prim.Native.Char.{Char}
use Prim.Native.String.{char_at, ◌∷◌ as ◌∷ᶜ◌}
use kvm_manager.Text.{trim_space, ◌<>◌}
use kvm_manager.Text.Numbers.{split_on}
use kvm_manager.Host.{Run, ok, err, out_of_fuel, ◌>>=◌}
use kvm_manager.Host.Words.{add32, sub32, not32, shr, byte}
use Cidr.{ipv4_cidr, ipv4_string, prefix_mask}

pub data NetworkError : Type 0 where
  unsupported_type : NetworkError
  fixed_address_requires_dhcp : NetworkError
  subnet_too_small_for_dhcp : NetworkError
  subnet_too_small_for_fixed_address : NetworkError
  fixed_address_range_too_large : NetworkError

-- Gateway, first and last address, zeros where there is no range.
pub record UsableRange : Type 0 where
  pub gateway : ℕ
  pub start : ℕ
  pub end : ℕ

-- The range of a network with a broadcast address
unfoldable pub range_up_to : ℕ → ℕ → ℕ → UsableRange
range_up_to network broadcast prefix =
    let gateway = add32 network 1 in
    let start = add32 gateway 1 in
    let end = sub32 broadcast 1 in
    if ltb 30 prefix || leb broadcast (add32 network 1)
    then record { gateway = network; start = 0; end = 0 }
    else if ltb end start
    then record { gateway = gateway; start = 0; end = 0 }
    else record { gateway = gateway; start = start; end = end }

unfoldable pub cidr_usable_range : ℕ → ℕ → ℕ → UsableRange
unfolding range_up_to
cidr_usable_range network mask prefix = range_up_to network (bit_or network (not32 mask)) prefix

pub record CidrNetwork : Type 0 where
  pub address : String
  pub netmask : String
  pub dhcp_start : String
  pub dhcp_end : String

-- A subnet that is not in CIDR notation
abbrev pub lone_address : String → CidrNetwork
lone_address a = record { address = a; netmask = "255.255.255.0"; dhcp_start = a; dhcp_end = a }

unfoldable pub range_text : ℕ → UsableRange → CidrNetwork
range_text mask r =
    let given = not (eqb r.start 0) || not (eqb r.end 0) in
    record {
      address = ipv4_string r.gateway;
      netmask = ipv4_string mask;
      dhcp_start = if given then ipv4_string r.start else "";
      dhcp_end = if given then ipv4_string r.end else "";
    }

network_text : String → Option (ℕ × ℕ) → CidrNetwork
unfolding range_text
network_text address none = lone_address (trim_space address)
network_text address (some (network, prefix)) =
    let mask = prefix_mask prefix in range_text mask (cidr_usable_range network mask prefix)

parts_text : String → List String → CidrNetwork
unfolding network_text
parts_text cidr (address ∷ length ∷ []) = network_text address (ipv4_cidr (trim_space cidr))
parts_text cidr parts = lone_address (trim_space cidr)

unfoldable pub cidr_network : String → CidrNetwork
unfolding parts_text
cidr_network cidr = parts_text cidr (split_on 47 (trim_space cidr))

unfoldable pub cidr_gateway : String → String × String
cidr_gateway cidr = let net = cidr_network cidr in (net.address, net.netmask)

pub record NetworkFixedAddress : Type 0 where
  pub address : String
  pub mac : String

-- A digit of fmt's %x
unfoldable pub hex_digit : ℕ → Char
hex_digit d = char_at "0123456789abcdef" d

-- fmt's %02x of a byte, before a text
unfoldable pub hex_byte : ℕ → String → String
unfolding hex_digit
hex_byte b s = hex_digit (shr b 4) ∷ᶜ (hex_digit (b % 16) ∷ᶜ s)

-- "52:54:00:" and the last three bytes
unfoldable pub fixed_address_mac : ℕ → String
unfolding hex_byte
fixed_address_mac ip =
    "5"
    ∷ᶜ ("2"
        ∷ᶜ (":"
            ∷ᶜ ("5"
                ∷ᶜ ("4"
                    ∷ᶜ (":"
                        ∷ᶜ ("0"
                            ∷ᶜ ("0"
                                ∷ᶜ (":"
                                    ∷ᶜ hex_byte (byte (shr ip 16)) (
                                        ":"
                                        ∷ᶜ hex_byte (byte (shr ip 8))
                                            (":" ∷ᶜ hex_byte (byte ip) ""))))))))))

usable : UsableRange → Option (ℕ × ℕ)
usable r =
    if not (eqb r.start 0) && not (eqb r.end 0) && leb r.start r.end
    then some (r.start, r.end)
    else none

pub range_of : Option (ℕ × ℕ) → Option (ℕ × ℕ)
unfolding usable
range_of none = none
range_of (some (network, prefix)) = usable (cidr_usable_range network (prefix_mask prefix) prefix)

unfoldable pub fixed_address_range : String → Option (ℕ × ℕ)
unfolding range_of
fixed_address_range cidr = range_of (ipv4_cidr cidr)

unfoldable pub fixed_address : ℕ → NetworkFixedAddress
fixed_address ip = record { address = ipv4_string ip; mac = fixed_address_mac ip }

-- for ip := start; ip <= end; ip++
unfoldable pub fixed_address_loop :
    ℕ → ℕ → ℕ → List NetworkFixedAddress → Run NetworkError (List NetworkFixedAddress)
fixed_address_loop zero ip end entries = out_of_fuel
fixed_address_loop (suc fuel) ip end entries =
    let rest = fixed_address_loop fuel (add32 ip 1) end (entries ++ fixed_address ip ∷ []) in
    if leb ip end then rest else ok entries

-- maxFixedAddressEntries
abbrev pub max_fixed_address_entries : ℕ
max_fixed_address_entries = 4096

pub entries_of : Option (ℕ × ℕ) → Run NetworkError (List NetworkFixedAddress)
unfolding fixed_address_loop
entries_of none = err subnet_too_small_for_fixed_address
entries_of (some (start, end)) =
    let total = add32 (sub32 end start) 1 in
    if ltb max_fixed_address_entries total
    then err fixed_address_range_too_large
    else fixed_address_loop (suc total) start end []

unfoldable pub fixed_address_entries : String → Run NetworkError (List NetworkFixedAddress)
unfolding entries_of
fixed_address_entries cidr = entries_of (fixed_address_range cidr)
