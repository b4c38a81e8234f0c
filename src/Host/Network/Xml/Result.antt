-- ===== src/Host/Network/Xml/Result.antt =====
-- Which requests for a network get a document.
use kvm_manager.Base.{
  ℕ, ◌+◌, ◌-◌, ◌^◌, ◌≤◌, ◌<◌, String, ◌≡◌, refl, ap, ◌∙◌, true, false, not, ◌&&◌, ◌||◌, List, ◌==◌,
  arith, ltb, eqb, if◌then◌else◌, Bool-cases, inl, inr,
}
use Prim.Native.String.{◌∷◌ as ◌∷ᶜ◌, ◌++◌, [] as nil}
use text.Mathlib.TextLemmas.{cons-append}
use kvm_manager.Text.Numbers.Laws.{cons_ne_nil, decimal_ne_nil}
use kvm_manager.Host.Words.{shr, byte}
use kvm_manager.Text.{trim_space, decimal, ◌<>◌}
use kvm_manager.Text.Numbers.{split_on}
use kvm_manager.Host.{Run, ok, err, out_of_fuel, ◌>>=◌}
use kvm_manager.Host.Network.Cidr.{ipv4_string, ipv4_cidr, prefix_mask}
use kvm_manager.Host.Network.Cidr.RoundTrip.{
  cidr_text, trim_space-cidr_text, split_on-cidr_text, ipv4_cidr-cidr_text,
}
use kvm_manager.Host.Network.{
  NetworkError, unsupported_type, fixed_address_requires_dhcp, subnet_too_small_for_dhcp,
  fixed_address_range_too_large, NetworkFixedAddress, CidrNetwork, cidr_usable_range, range_text,
  network_text, parts_text, cidr_network,
}
use kvm_manager.Host.Network.Range.{
  block, network_of, cidr_usable_range_lem, cidr_usable_range_none,
}
use kvm_manager.Host.Network.Entries.{fixed_address_entries_lem}
use kvm_manager.Host.Network.Xml.{
  NetworkPoolCreateRequest, is_network_type, network_xml, network_document, ip_xml, ip_text,
  dhcp_xml, requested_entries,
}

cidr_network_steps :
    (ip prefix : ℕ)
    → ip < 2 ^ 32
    → prefix ≤ 32
    → cidr_network (cidr_text ip prefix)
      ≡ range_text
          (prefix_mask prefix)
          (cidr_usable_range (network_of ip prefix) (prefix_mask prefix) prefix)
unfolding cidr_network parts_text network_text
cidr_network_steps ip prefix h k =
    ap (λ t. parts_text (cidr_text ip prefix) (split_on 47 t)) (trim_space-cidr_text ip prefix)
    ∙ ap (parts_text (cidr_text ip prefix)) (split_on-cidr_text ip prefix)
    ∙ ap (λ t. network_text (ipv4_string ip) (ipv4_cidr t)) (trim_space-cidr_text ip prefix)
    ∙ ap (network_text (ipv4_string ip)) (ipv4_cidr-cidr_text ip prefix h k)

-- A network with at least four addresses has its first address after its own for the host, and all
-- others but the last for guests.
pub cidr_network_lem :
    (ip prefix : ℕ)
    → ip < 2 ^ 32
    → prefix ≤ 30
    → cidr_network (cidr_text ip prefix) ≡ record {
      address = ipv4_string (network_of ip prefix + 1);
      netmask = ipv4_string (prefix_mask prefix);
      dhcp_start = ipv4_string (network_of ip prefix + 2);
      dhcp_end = ipv4_string (network_of ip prefix + (block prefix - 2));
    }
unfolding range_text
cidr_network_lem ip prefix h k =
    cidr_network_steps ip prefix h (omega arith)
    ∙ ap (range_text (prefix_mask prefix)) (cidr_usable_range_lem ip prefix h k)
    ∙ (let given : eqb (network_of ip prefix + 2) 0 ≡ false = ground arith in rw given refl)

cidr_network_small :
    (ip prefix : ℕ)
    → ip < 2 ^ 32
    → 30 < prefix
    → prefix ≤ 32
    → cidr_network (cidr_text ip prefix) ≡ record {
      address = ipv4_string (network_of ip prefix);
      netmask = ipv4_string (prefix_mask prefix);
      dhcp_start = "";
      dhcp_end = "";
    }
unfolding range_text
cidr_network_small ip prefix h g k =
    cidr_network_steps ip prefix h k
    ∙ ap (range_text (prefix_mask prefix))
        (cidr_usable_range_none (network_of ip prefix) (prefix_mask prefix) prefix g)

-- How a run ends, without its value.
unfoldable pub discard : {E A : Type 0} → Run E A → Run E (Unit {0})
discard (ok a) = ok tt
discard (err e) = err e
discard out_of_fuel = out_of_fuel

-- How networkXML answers a request for a network with a prefix.
unfoldable pub expected_answer : NetworkPoolCreateRequest → ℕ → Run NetworkError (Unit {0})
expected_answer request prefix =
    if not (is_network_type request.type)
    then err unsupported_type
    else if request.fixed_address && not request.dhcp
    then err fixed_address_requires_dhcp
    else if request.type == "bridge" || not request.dhcp
    then ok tt
    else if ltb 30 prefix
    then err subnet_too_small_for_dhcp
    else if request.fixed_address && ltb prefix 20
    then err fixed_address_range_too_large
    else ok tt

append_ne_nil : (s t : String) → (s == "") ≡ false → (s ++ t == "") ≡ false
append_ne_nil nil t h = cc
append_ne_nil (c ∷ᶜ s) t h = ap (λ r. r == "") (cons-append c s t) ∙ cons_ne_nil c (s ++ t)

ipv4_string_ne_nil : (ip : ℕ) → (ipv4_string ip == "") ≡ false
unfolding ipv4_string
ipv4_string_ne_nil ip =
    append_ne_nil (decimal (byte (shr ip 24))) _ (decimal_ne_nil (byte (shr ip 24)))

module _ (request : NetworkPoolCreateRequest) (ip prefix : ℕ)
    (subnet : request.subnet ≡ cidr_text ip prefix) (fits : ip < 2 ^ 32) (short : prefix ≤ 32) where
  discard-document :
      (r : Run NetworkError String) → discard (r >>= network_document request) ≡ discard r
  unfolding discard network_document
  discard-document (ok ip) = refl
  discard-document (err e) = refl
  discard-document out_of_fuel = refl

  discard-ip_text :
      (net : CidrNetwork) (r : Run NetworkError String) → discard (r >>= ip_text net) ≡ discard r
  unfolding discard ip_text
  discard-ip_text net (ok ip) = refl
  discard-ip_text net (err e) = refl
  discard-ip_text net out_of_fuel = refl

  discard-entries :
      prefix ≤ 30
      → discard (requested_entries request) ≡ (
          if request.fixed_address && ltb prefix 20
          then err fixed_address_range_too_large
          else ok tt)
  unfolding discard requested_entries
  discard-entries k = elim (Bool-cases request.fixed_address) [
    | inl e ↦
        rw (e, subnet, fixed_address_entries_lem ip prefix fits (omega arith))
          (let wide : ltb 30 prefix ≡ false = ground arith in
            rw wide (elim (Bool-cases (ltb prefix 20)) [
              | inl large ↦ rw large refl
              | inr long ↦ rw long refl
            ]))
    | inr e ↦ rw e refl
  ]

  discard-made :
      (f : List NetworkFixedAddress → String) (r : Run NetworkError (List NetworkFixedAddress))
      → discard (r >>= λ entries. ok (f entries)) ≡ discard r
  unfolding discard
  discard-made f (ok entries) = refl
  discard-made f (err e) = refl
  discard-made f out_of_fuel = refl

  dhcp_without_range :
      (net : CidrNetwork)
      → request.dhcp ≡ true
      → (net.dhcp_start == "") ≡ true
      → dhcp_xml request net ≡ err subnet_too_small_for_dhcp
  unfolding dhcp_xml
  dhcp_without_range net e h = rw (e, h) refl

  dhcp_with_range :
      (net : CidrNetwork)
      → request.dhcp ≡ true
      → (net.dhcp_start == "") ≡ false
      → (net.dhcp_end == "") ≡ false
      → discard (dhcp_xml request net) ≡ discard (requested_entries request)
  unfolding dhcp_xml
  dhcp_with_range net e h k = rw (e, h, k) (discard-made _ (requested_entries request))

  range_answer : Run NetworkError (Unit {0})
  range_answer =
      if ltb 30 prefix
      then err subnet_too_small_for_dhcp
      else if request.fixed_address && ltb prefix 20
      then err fixed_address_range_too_large
      else ok tt

  dhcp_answer : Run NetworkError (Unit {0})
  dhcp_answer = if not request.dhcp then ok tt else range_answer

  discard-without :
      request.dhcp ≡ false → discard (dhcp_xml request (cidr_network request.subnet)) ≡ dhcp_answer
  unfolding discard dhcp_xml dhcp_answer
  discard-without e = rw e refl

  discard-dhcp_xml : discard (dhcp_xml request (cidr_network request.subnet)) ≡ dhcp_answer
  unfolding dhcp_answer range_answer discard
  discard-dhcp_xml = elim (Bool-cases request.dhcp) [
    | inr e ↦ discard-without e
    | inl e ↦ elim (Bool-cases (ltb 30 prefix)) [
      | inl small ↦
          ap discard (
            dhcp_without_range (cidr_network request.subnet) e (
              ap (λ t. (cidr_network t).dhcp_start == "") subnet
              ∙ ap (λ net. net.dhcp_start == "")
                  (cidr_network_small ip prefix fits (ground arith) short)))
          ∙ rw (e, small) refl
      | inr wide ↦
          dhcp_with_range (cidr_network request.subnet) e
            (ap (λ t. (cidr_network t).dhcp_start == "") subnet
              ∙ ap (λ net. net.dhcp_start == "") (cidr_network_lem ip prefix fits (ground arith))
              ∙ ipv4_string_ne_nil (network_of ip prefix + 2))
            (ap (λ t. (cidr_network t).dhcp_end == "") subnet
              ∙ ap (λ net. net.dhcp_end == "") (cidr_network_lem ip prefix fits (ground arith))
              ∙ ipv4_string_ne_nil (network_of ip prefix + (block prefix - 2)))
          ∙ discard-entries (ground arith)
          ∙ rw (e, wide) refl
    ]
  ]

  subnet_ne_nil : (trim_space request.subnet == "") ≡ false
  subnet_ne_nil =
      ap (λ t. trim_space t == "") subnet
      ∙ ap (λ t. t == "") (trim_space-cidr_text ip prefix)
      ∙ append_ne_nil (ipv4_string ip) ("/" <> decimal prefix) (ipv4_string_ne_nil ip)

  discard-ip_xml :
      discard (ip_xml request)
      ≡ (if request.type == "bridge" || not request.dhcp then ok tt else range_answer)
  unfolding ip_xml dhcp_answer discard
  discard-ip_xml = elim (Bool-cases (request.type == "bridge")) [
    | inl e ↦ rw (subnet_ne_nil, e) refl
    | inr e ↦
        rw (subnet_ne_nil, e)
          (discard-ip_text (cidr_network request.subnet)
              (dhcp_xml request (cidr_network request.subnet))
            ∙ discard-dhcp_xml
            ∙ elim (Bool-cases request.dhcp) [ inl d ↦ rw d refl | inr d ↦ rw d refl ])
  ]

  -- For a subnet that is a network, how a request is answered: with which error, or with a document.
  pub discard-network_xml : discard (network_xml request) ≡ expected_answer request prefix
  unfolding network_xml expected_answer discard range_answer
  discard-network_xml = elim (Bool-cases (is_network_type request.type)) [
    | inr e ↦ rw e refl
    | inl e ↦ elim (Bool-cases (request.fixed_address && not request.dhcp)) [
      | inl f ↦ rw (e, f) refl
      | inr f ↦ rw (e, f) (discard-document (ip_xml request) ∙ discard-ip_xml)
    ]
  ]
