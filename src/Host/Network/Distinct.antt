-- ===== src/Host/Network/Distinct.antt =====
-- Comparing the fixed addresses of a network with each other.
use Prim.Native.Char.{Char, code}
use Prim.Native.String.{◌∷◌ as ◌∷ᶜ◌}
use kvm_manager.Base.{
  ℕ, zero, suc, ◌+◌, ◌-◌, ◌*◌, ◌%◌, ◌^◌, ◌≤◌, ◌<◌, String, ◌≡◌, refl, sym, ap, ◌∙◌, Bool, true,
  false, Option, none, some, subst, ◌≢◌, List, [], ◌∷◌, arith, leb, member, map, if◌then◌else◌,
  Bool-cases, inl, inr, ◌==◌, ◌&&◌, eqb, eqb_iff, eq_iff,
}
use kvm_manager.Text.{◌<>◌, decimal}
use kvm_manager.Host.{Run, ok}
use kvm_manager.Host.Words.{shr, byte}
use kvm_manager.Host.Network.Cidr.{ipv4_string, ipv4_cidr}
use kvm_manager.Host.Network.Cidr.RoundTrip.{ipv4_cidr-cidr_text}
use kvm_manager.Host.Network.{
  NetworkError, NetworkFixedAddress, fixed_address, hex_digit, hex_byte, fixed_address_mac,
  fixed_address_entries,
}
use kvm_manager.Host.Network.Range.{block, network_of, network_of-block, four-le-block}
use kvm_manager.Host.Network.Entries.{consecutive, small_block}
use kvm_manager.Host.Network.Total.{fixed_address_entries-ends}

hex_value : Char → ℕ
hex_value c = if leb (code c) 57 then code c - 48 else code c - 87

holds_below : (ℕ → Bool) → ℕ → Bool
holds_below test zero = true
holds_below test (suc n) = test n && holds_below test n

holds_below-at : (test : ℕ → Bool) (n i : ℕ) → holds_below test n ≡ true → i < n → test i ≡ true
unfolding holds_below
holds_below-at test zero i h k = absurd (omega arith)
holds_below-at test (suc n) i h k = ground (arith, holds_below-at test n i)

hex_digits_read : holds_below (λ d. eqb (hex_value (hex_digit d)) d) 16 ≡ true
unfolding holds_below hex_value hex_digit
hex_digits_read = refl

hex_value-hex_digit : (d : ℕ) → d < 16 → hex_value (hex_digit d) ≡ d
hex_value-hex_digit d h = (eqb_iff _ d).0 (holds_below-at _ 16 d hex_digits_read h)

-- The number of the last three bytes of a hardware address.
mac_value : String → ℕ
unfolding hex_value
mac_value
      (p0
        ∷ᶜ (p1
            ∷ᶜ (p2
                ∷ᶜ (p3
                    ∷ᶜ (p4
                        ∷ᶜ (p5
                            ∷ᶜ (p6
                                ∷ᶜ (p7
                                    ∷ᶜ (p8
                                        ∷ᶜ (a
                                            ∷ᶜ (b
                                                ∷ᶜ (p9
                                                    ∷ᶜ (c
                                                        ∷ᶜ (d
                                                            ∷ᶜ (p10
                                                            ∷ᶜ (e ∷ᶜ (f ∷ᶜ s))))))))))))))))) =
    hex_value a * 1048576
    + hex_value b * 65536
    + hex_value c * 4096
    + hex_value d * 256
    + hex_value e * 16
    + hex_value f
mac_value s = 0

mac_value-fixed_address_mac : (ip : ℕ) → mac_value (fixed_address_mac ip) ≡ ip % 16777216
unfolding mac_value fixed_address_mac hex_byte
mac_value-fixed_address_mac ip = omega (
  arith,
  hex_value-hex_digit (shr (byte (shr ip 16)) 4) (omega arith),
  hex_value-hex_digit (byte (shr ip 16) % 16) (omega arith),
  hex_value-hex_digit (shr (byte (shr ip 8)) 4) (omega arith),
  hex_value-hex_digit (byte (shr ip 8) % 16) (omega arith),
  hex_value-hex_digit (shr (byte ip) 4) (omega arith),
  hex_value-hex_digit (byte ip % 16) (omega arith),
)

-- Addresses that share a hardware address agree in their last three bytes.
fixed_address_mac-inj :
    (x y : ℕ) → fixed_address_mac x ≡ fixed_address_mac y → x % 16777216 ≡ y % 16777216
fixed_address_mac-inj x y h =
    omega (arith, ap mac_value h, mac_value-fixed_address_mac x, mac_value-fixed_address_mac y)

found_address : Option (ℕ × ℕ) → ℕ
found_address none = 0
found_address (some net) = net.0

ipv4_string-inj : (x y : ℕ) → x < 2 ^ 32 → y < 2 ^ 32 → ipv4_string x ≡ ipv4_string y → x ≡ y
unfolding found_address
ipv4_string-inj x y h k e = omega (
  arith,
  ap found_address (sym (ipv4_cidr-cidr_text x 32 h (omega arith))),
  ap (λ s. found_address (ipv4_cidr (s <> ("/" <> decimal 32)))) e,
  ap found_address (ipv4_cidr-cidr_text y 32 k (omega arith)),
)

differs : (s t : String) → s ≢ t → (s == t) ≡ false
differs s t h = elim (Bool-cases (s == t)) [ inl e ↦ absurd (h ((eq_iff s t).0 e)) | inr e ↦ e ]

-- No text twice.
pub AllDistinct : List String → Type 0
AllDistinct [] = Unit
AllDistinct (s ∷ rest) = (member s rest ≡ false) × AllDistinct rest

module _ (text : NetworkFixedAddress → String) (limit : ℕ)
    (inj : (x y : ℕ)
      → x < y
      → y < x + limit
      → y < 2 ^ 32
      → (text (fixed_address y) == text (fixed_address x)) ≡ false) where
  member-consecutive :
      (x ip count : ℕ)
      → x < ip
      → ip + count ≤ x + limit
      → ip + count ≤ 2 ^ 32
      → member (text (fixed_address x)) (map text (consecutive ip count)) ≡ false
  member-consecutive x ip zero h k b = refl
  member-consecutive x ip (suc count) h k b =
      rw (inj x ip h (omega arith) (omega arith))
        (member-consecutive x (suc ip) count (omega arith) (omega arith) (omega arith))

  consecutive-AllDistinct :
      (ip count : ℕ)
      → count ≤ limit
      → ip + count ≤ 2 ^ 32
      → AllDistinct (map text (consecutive ip count))
  unfolding AllDistinct
  consecutive-AllDistinct ip zero k b = tt
  consecutive-AllDistinct ip (suc count) k b = (
    member-consecutive ip (suc ip) count (omega arith) (omega arith) (omega arith),
    consecutive-AllDistinct (suc ip) count (omega arith) (omega arith),
  )

macs_differ :
    (x y : ℕ)
    → x < y
    → y < x + 16777216
    → y < 2 ^ 32
    → ((fixed_address y).mac == (fixed_address x).mac) ≡ false
unfolding fixed_address
macs_differ x y h k b =
    differs (fixed_address_mac y) (fixed_address_mac x)
      (λ e. omega (arith, fixed_address_mac-inj y x e))

addresses_differ :
    (x y : ℕ)
    → x < y
    → y < x + 2 ^ 32
    → y < 2 ^ 32
    → ((fixed_address y).address == (fixed_address x).address) ≡ false
unfolding fixed_address
addresses_differ x y h k b =
    differs (ipv4_string y) (ipv4_string x)
      (λ e. omega (arith, ipv4_string-inj y x b (omega arith) e))

ok_inj :
    {xs ys : List NetworkFixedAddress}
    → ◌≡◌ {A = Run NetworkError (List NetworkFixedAddress)} (ok xs) (ok ys)
    → xs ≡ ys
ok_inj e = cc

-- The fixed addresses of any subnet that has some share neither an address nor a hardware address.
pub fixed_address_entries-AllDistinct :
    (cidr : String) (entries : List NetworkFixedAddress)
    → fixed_address_entries cidr ≡ ok entries
    → AllDistinct (map (λ entry. entry.address) entries)
      × AllDistinct (map (λ entry. entry.mac) entries)
fixed_address_entries-AllDistinct cidr entries h = elim (fixed_address_entries-ends cidr) [
  | inl small ↦ absurd (cc)
  | inr (inl large) ↦ absurd (cc)
  | inr (inr (ip, prefix, served)) ↦
      subst
        (λ es.
          AllDistinct (map (λ entry. entry.address) es) × AllDistinct (map (λ entry. entry.mac) es))
        (ok_inj (sym served.served ∙ h))
        (let fits =
            network_of-block ip prefix served.address_fits (omega (arith, served.short_enough)) in
          let small = small_block prefix served.long_enough in
          (
            consecutive-AllDistinct (λ entry. entry.address) (2 ^ 32) addresses_differ
                (network_of ip prefix + 2) (block prefix - 3) (omega (arith, fits))
                (omega (arith, fits, four-le-block prefix served.short_enough)),
            consecutive-AllDistinct (λ entry. entry.mac) 16777216 macs_differ
                (network_of ip prefix + 2) (block prefix - 3) (omega (arith, small))
                (omega (arith, fits, four-le-block prefix served.short_enough)),
          ))
]
