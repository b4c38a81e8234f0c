-- ===== src/Tests/Networks.antt =====
-- Networks of a host: 192.168.100.7/24 and 10.0.0.8/29.
use kvm_manager.Base.{ℕ, ◌+◌, ◌*◌, ◌-◌, ◌/◌, ◌^◌, ◌≡◌, refl, ◌⊎◌, true, false, some, arith, map}
use kvm_manager.Text.{trim_space, decimal}
use kvm_manager.Text.Numbers.{lacks, split_on, parse_digits, read_digits, is_digit}
use kvm_manager.Host.{ok, err}
use kvm_manager.Host.Network.Cidr.{ipv4_cidr, ipv4_string}
use kvm_manager.Host.Network.Cidr.RoundTrip.{cidr_text, ipv4_cidr-cidr_text}
use kvm_manager.Host.Network.{
  subnet_too_small_for_dhcp, subnet_too_small_for_fixed_address, fixed_address_range_too_large,
  fixed_address_entries, fixed_address_range, cidr_usable_range,
}
use kvm_manager.Host.Network.Entries.{consecutive, fixed_address_entries_lem}
use kvm_manager.Host.Network.Total.{IsServed, fixed_address_entries-ends}
use kvm_manager.Host.Network.Distinct.{AllDistinct, fixed_address_entries-AllDistinct}
use kvm_manager.Host.Network.Xml.{
  NetworkPoolCreateRequest, escape_xml_attr, is_network_type, network_xml,
}
use kvm_manager.Host.Network.Xml.Escaped.{is_markup, lacks-escape_xml_attr}
use kvm_manager.Host.Network.Xml.Result.{discard, expected_answer, discard-network_xml}

abbrev guest : ℕ
guest = 192 * 16777216 + 168 * 65536 + 100 * 256 + 7

guest_text : ipv4_string guest ≡ "192.168.100.7"
unfolding ipv4_string decimal
guest_text = refl

ipv4_cidr-cidr_text_example :
    ipv4_cidr (cidr_text guest 24) ≡ some (guest / 2 ^ (32 - 24) * 2 ^ (32 - 24), 24)
ipv4_cidr-cidr_text_example = ipv4_cidr-cidr_text guest 24 (omega arith) (omega arith)

abbrev small_network : ℕ
small_network = 10 * 16777216 + 8

fixed_address_entries_lem_example :
    fixed_address_entries (cidr_text small_network 29) ≡ ok (consecutive (small_network + 2) 5)
fixed_address_entries_lem_example =
    fixed_address_entries_lem small_network 29 (omega arith) (omega arith)

too_small : fixed_address_entries "10.0.0.8/31" ≡ err subnet_too_small_for_fixed_address
unfolding fixed_address_entries fixed_address_range ipv4_cidr split_on trim_space parse_digits
    read_digits is_digit decimal cidr_usable_range
too_small = refl

fixed_address_entries-ends_example :
    (fixed_address_entries "10.0.0.8/29" ≡ err subnet_too_small_for_fixed_address)
    ⊎ (fixed_address_entries "10.0.0.8/29" ≡ err fixed_address_range_too_large)
    ⊎ ((ip : ℕ) × (prefix : ℕ) × IsServed "10.0.0.8/29" ip prefix)
fixed_address_entries-ends_example = fixed_address_entries-ends "10.0.0.8/29"

fixed_address_entries-AllDistinct_example :
    AllDistinct (map (λ entry. entry.address) (consecutive (small_network + 2) 5))
    × AllDistinct (map (λ entry. entry.mac) (consecutive (small_network + 2) 5))
fixed_address_entries-AllDistinct_example =
    fixed_address_entries-AllDistinct (cidr_text small_network 29)
      (consecutive (small_network + 2) 5) fixed_address_entries_lem_example

escaped : escape_xml_attr "a'/><b" ≡ "a&#39;/&gt;&lt;b"
unfolding escape_xml_attr
escaped = refl

lacks-escape_xml_attr_example : lacks 39 (escape_xml_attr "a'/><b") ≡ true
unfolding is_markup
lacks-escape_xml_attr_example = lacks-escape_xml_attr 39 "a'/><b" refl

abbrev nat_request : NetworkPoolCreateRequest
nat_request = record {
  name = "lab";
  subnet = cidr_text small_network 31;
  dhcp = true;
  fixed_address = false;
  type = "nat";
  bridge = "";
  open_vswitch = false;
}

discard-network_xml_example : discard (network_xml nat_request) ≡ err subnet_too_small_for_dhcp
unfolding expected_answer is_network_type
discard-network_xml_example =
    discard-network_xml nat_request small_network 31 refl (omega arith) (omega arith)
