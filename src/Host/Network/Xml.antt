-- ===== src/Host/Network/Xml.antt =====
-- networkXML of agent/internal/kvm/virsh_network_xml.go, and escapeXMLAttr of virsh_pools.go.
pub mod Escaped
pub mod Result
use Prim.Native.Char.{Char, code}
use Prim.Native.String.{◌∷◌ as ◌∷ᶜ◌, ◌++◌, [] as nil}
use kvm_manager.Base.{
  String, Bool, true, false, not, ◌&&◌, ◌||◌, List, [], ◌∷◌, ◌==◌, leb, eqb, if◌then◌else◌,
}
use kvm_manager.Text.{trim_space, ◌<>◌}
use kvm_manager.Host.{Run, ok, err, out_of_fuel, ◌>>=◌}
use kvm_manager.Host.Network.{
  NetworkError, unsupported_type, fixed_address_requires_dhcp, subnet_too_small_for_dhcp,
  CidrNetwork, cidr_network, NetworkFixedAddress, fixed_address_entries,
}

pub record NetworkPoolCreateRequest : Type 0 where
  pub name : String
  pub subnet : String
  pub dhcp : Bool
  pub fixed_address : Bool
  pub type : String
  pub bridge : String
  pub open_vswitch : Bool

-- The characters that XML allows
is_in_character_range : Char → Bool
is_in_character_range c =
    eqb (code c) 9
    || eqb (code c) 10
    || eqb (code c) 13
    || (leb 32 (code c) && leb (code c) 55295)
    || (leb 57344 (code c) && leb (code c) 65533)
    || leb 65536 (code c)

-- One character as xml.EscapeText writes it
escape_char : Char → String
unfolding is_in_character_range
escape_char c =
    if eqb (code c) 34
    then "&#34;"
    else if eqb (code c) 39
    then "&#39;"
    else if eqb (code c) 38
    then "&amp;"
    else if eqb (code c) 60
    then "&lt;"
    else if eqb (code c) 62
    then "&gt;"
    else if eqb (code c) 9
    then "&#x9;"
    else if eqb (code c) 10
    then "&#xA;"
    else if eqb (code c) 13
    then "&#xD;"
    else if is_in_character_range c
    then c ∷ᶜ nil
    else "�"

unfoldable pub escape_xml_attr : String → String
unfolding escape_char
escape_xml_attr nil = nil
escape_xml_attr (c ∷ᶜ s) = escape_char c ++ escape_xml_attr s

unfoldable pub is_network_type : String → Bool
is_network_type t = t == "nat" || t == "route" || t == "isolate" || t == "bridge"

-- name='value', the value escaped
attribute : String → String → String
attribute name value = name <> ("='" <> (escape_xml_attr value <> "'"))

forward_xml : NetworkPoolCreateRequest → String
forward_xml request =
    if request.type == "nat" || request.type == "route"
    then "\n  <forward mode='" <> (request.type <> "'/>")
    else if request.type == "bridge"
    then "\n  <forward mode='bridge'/>"
    else ""

bridge_xml : NetworkPoolCreateRequest → String
unfolding attribute
bridge_xml request =
    if trim_space request.bridge == ""
    then ""
    else "\n  <bridge " <> (attribute "name" request.bridge <> "/>")

virtual_port_xml : NetworkPoolCreateRequest → String
virtual_port_xml request =
    if request.type == "bridge" && request.open_vswitch
    then "\n  <virtualport type='openvswitch'/>"
    else ""

hosts_xml : List NetworkFixedAddress → String
unfolding attribute
hosts_xml [] = ""
hosts_xml (entry ∷ entries) =
    "\n      <host "
    <> (attribute "mac" entry.mac
        <> (" " <> (attribute "ip" entry.address <> ("/>" <> hosts_xml entries))))

dhcp_text : CidrNetwork → String → String
unfolding attribute
dhcp_text net hosts =
    "\n    <dhcp>\n      <range "
    <> (attribute "start" net.dhcp_start
        <> (" " <> (attribute "end" net.dhcp_end <> ("/>" <> (hosts <> "\n    </dhcp>")))))

-- The fixed addresses that a request asks for
unfoldable pub requested_entries :
    NetworkPoolCreateRequest → Run NetworkError (List NetworkFixedAddress)
requested_entries request =
    if request.fixed_address then fixed_address_entries request.subnet else ok []

dhcp_xml : NetworkPoolCreateRequest → CidrNetwork → Run NetworkError String
unfolding dhcp_text hosts_xml requested_entries
dhcp_xml request net =
    if not request.dhcp
    then ok ""
    else if net.dhcp_start == "" || net.dhcp_end == ""
    then err subnet_too_small_for_dhcp
    else requested_entries request >>= λ entries. ok (dhcp_text net (hosts_xml entries))

ip_text : CidrNetwork → String → Run NetworkError String
unfolding attribute
ip_text net dhcp = ok (
    "\n  <ip "
    <> (attribute "address" net.address
        <> (" " <> (attribute "netmask" net.netmask <> (">" <> (dhcp <> "\n  </ip>"))))))

ip_xml : NetworkPoolCreateRequest → Run NetworkError String
unfolding dhcp_xml ip_text
ip_xml request =
    let net = cidr_network request.subnet in
    if not (trim_space request.subnet == "") && not (request.type == "bridge")
    then dhcp_xml request net >>= ip_text net
    else ok ""

network_document : NetworkPoolCreateRequest → String → Run NetworkError String
unfolding forward_xml bridge_xml virtual_port_xml
network_document request ip = ok (
    "<network>\n  <name>"
    <> (escape_xml_attr request.name
        <> ("</name>"
            <> (forward_xml request
                <> (bridge_xml request <> (virtual_port_xml request <> (ip <> "\n</network>")))))))

unfoldable pub network_xml : NetworkPoolCreateRequest → Run NetworkError String
unfolding ip_xml network_document
network_xml request =
    if not (is_network_type request.type)
    then err unsupported_type
    else if request.fixed_address && not request.dhcp
    then err fixed_address_requires_dhcp
    else ip_xml request >>= network_document request
