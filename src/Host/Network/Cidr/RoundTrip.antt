-- ===== src/Host/Network/Cidr/RoundTrip.antt =====
-- Reading the addresses and networks that ipv4String prints.
use Prim.Native.Nat.{bit_or}
use kvm_manager.Base.{
  ℕ, ◌+◌, ◌-◌, ◌*◌, ◌/◌, ◌^◌, ◌≤◌, ◌<◌, String, ◌≡◌, refl, ap, ◌∙◌, true, some, [], ◌∷◌, arith, leb,
  inl, eq_refl,
}
use Prim.Native.String.{◌∷◌ as ◌∷ᶜ◌, ◌++◌, [] as nil}
use text.Mathlib.TextLemmas.{nil-append, cons-append}
use kvm_manager.Text.{trim_space, decimal, ◌<>◌, is_space}
use kvm_manager.Text.Numbers.{split_on, lacks}
use kvm_manager.Text.Numbers.Laws.{
  parse_digits-decimal, lacks-decimal, solid-decimal, split_on-append, split_on_whole,
}
use kvm_manager.Text.Solid.{solid, solid-append, trim_space_of_solid, lacks-append}
use kvm_manager.Host.Words.{shr, byte, shl32}
use kvm_manager.Host.Words.Laws.{bit_or-shifted, bit_and-mask}
use kvm_manager.Host.Network.Cidr.{
  Ipv4, parse_octet, parse_octets, parse_network, parse_cidr, ipv4_uint32, ipv4_string, ipv4_cidr,
  prefix_mask,
}

parse_octet-decimal : (n : ℕ) → n < 256 → parse_octet (decimal n) ≡ some n
unfolding parse_octet
parse_octet-decimal n h =
    rw (parse_digits-decimal n)
      (let e : leb n 255 ≡ true = ground arith in rw (e, eq_refl (decimal n)) refl)

-- The dotted text of four parts.
dotted : String → String → String → String → String
dotted a b c d = a <> ("." <> (b <> ("." <> (c <> ("." <> d)))))

dot_cons : (s : String) → "." ++ s ≡ "." ∷ᶜ s
dot_cons s = cons-append "." nil s ∙ ap (λ t. "." ∷ᶜ t) (nil-append s)

split_at_dot :
    (s t : String) → lacks 46 s ≡ true → split_on 46 (s ++ ("." ++ t)) ≡ s ∷ split_on 46 t
split_at_dot s t h = ap (λ r. split_on 46 (s ++ r)) (dot_cons t) ∙ split_on-append 46 s "." t refl h

abbrev bytes_of : ℕ → Ipv4
bytes_of ip = record {
  b0 = byte (shr ip 24);
  b1 = byte (shr ip 16);
  b2 = byte (shr ip 8);
  b3 = byte ip;
}

split_on-ipv4_string :
    (ip : ℕ)
    → split_on 46 (ipv4_string ip)
      ≡ decimal (byte (shr ip 24))
        ∷ decimal (byte (shr ip 16))
        ∷ decimal (byte (shr ip 8))
        ∷ decimal (byte ip)
        ∷ []
unfolding ipv4_string
split_on-ipv4_string ip =
    let no_dot : (n : ℕ) → lacks 46 (decimal n) ≡ true =
      λ n. lacks-decimal 46 n (inl (omega arith)) in
    split_at_dot _ _ (no_dot (byte (shr ip 24)))
    ∙ ap (λ r. decimal (byte (shr ip 24)) ∷ r)
        (split_at_dot _ _ (no_dot (byte (shr ip 16)))
          ∙ ap (λ r. decimal (byte (shr ip 16)) ∷ r)
              (split_at_dot _ _ (no_dot (byte (shr ip 8)))
                ∙ ap (λ r. decimal (byte (shr ip 8)) ∷ r) (split_on_whole 46 _ (no_dot (byte ip)))))

parse_octets_lem :
    (a b c d : ℕ)
    → a < 256
    → b < 256
    → c < 256
    → d < 256
    → parse_octets (decimal a ∷ decimal b ∷ decimal c ∷ decimal d ∷ [])
      ≡ some (record { b0 = a; b1 = b; b2 = c; b3 = d })
unfolding parse_octets
parse_octets_lem a b c d ha hb hc hd =
    rw
      (
        parse_octet-decimal a ha,
        parse_octet-decimal b hb,
        parse_octet-decimal c hc,
        parse_octet-decimal d hd,
      )
      refl

bit_or_sum : (k q r x y : ℕ) → x ≡ q * 2 ^ k → y ≡ r → r < 2 ^ k → bit_or x y ≡ q * 2 ^ k + r
bit_or_sum k q r x y e f h = rw (e, f) (bit_or-shifted k q r h)

pub octets_lem :
    (a b c d : ℕ)
    → a < 256
    → b < 256
    → c < 256
    → d < 256
    → bit_or (bit_or (bit_or (shl32 a 24) (shl32 b 16)) (shl32 c 8)) d
      ≡ a * 16777216 + b * 65536 + c * 256 + d
octets_lem a b c d ha hb hc hd =
    bit_or_sum 8 (a * 65536 + b * 256 + c) d _ d
      (bit_or_sum 16 (a * 256 + b) (c * 256) _ _
          (bit_or_sum 24 a (b * 65536) _ _ (omega arith) (omega arith) (omega arith) ∙ omega arith)
          (omega arith) (omega arith)
        ∙ omega arith)
      refl hd
    ∙ omega arith

-- The number of the four bytes of a number.
ipv4_uint32-bytes_of : (ip : ℕ) → ip < 2 ^ 32 → ipv4_uint32 (bytes_of ip) ≡ ip
unfolding ipv4_uint32
ipv4_uint32-bytes_of ip h =
    octets_lem (byte (shr ip 24)) (byte (shr ip 16)) (byte (shr ip 8)) (byte ip) (omega arith)
      (omega arith) (omega arith) (omega arith)
    ∙ omega arith

-- The text of a network: an address in it, and the length of the prefix.
abbrev pub cidr_text : ℕ → ℕ → String
cidr_text ip prefix = ipv4_string ip <> ("/" <> decimal prefix)

lacks-ipv4_string : (ip : ℕ) → lacks 47 (ipv4_string ip) ≡ true
unfolding ipv4_string lacks
lacks-ipv4_string ip = part (byte (shr ip 24)) _ (
    part (byte (shr ip 16)) _
      (part (byte (shr ip 8)) _ (lacks-decimal 47 (byte ip) (inl (omega arith)))))
  where
    part : (n : ℕ) (t : String) → lacks 47 t ≡ true → lacks 47 (decimal n <> ("." <> t)) ≡ true
    part n t h =
        lacks-append 47 (decimal n) ("." <> t) (lacks-decimal 47 n (inl (omega arith)))
          (lacks-append 47 "." t refl h)

solid-ipv4_string : (ip : ℕ) → solid (ipv4_string ip) ≡ true
unfolding ipv4_string solid is_space
solid-ipv4_string ip =
    part (byte (shr ip 24)) _
      (part (byte (shr ip 16)) _ (part (byte (shr ip 8)) _ (solid-decimal (byte ip))))
  where
    part : (n : ℕ) (t : String) → solid t ≡ true → solid (decimal n <> ("." <> t)) ≡ true
    part n t h = solid-append (decimal n) ("." <> t) (solid-decimal n) (solid-append "." t refl h)

pub trim_space-cidr_text : (ip prefix : ℕ) → trim_space (cidr_text ip prefix) ≡ cidr_text ip prefix
unfolding solid is_space
trim_space-cidr_text ip prefix = trim_space_of_solid (cidr_text ip prefix) (
    solid-append (ipv4_string ip) ("/" <> decimal prefix) (solid-ipv4_string ip)
      (solid-append "/" (decimal prefix) refl (solid-decimal prefix)))

pub split_on-cidr_text :
    (ip prefix : ℕ) → split_on 47 (cidr_text ip prefix) ≡ ipv4_string ip ∷ decimal prefix ∷ []
split_on-cidr_text ip prefix =
    ap (λ r. split_on 47 (ipv4_string ip ++ r))
      (cons-append "/" nil (decimal prefix) ∙ ap (λ t. "/" ∷ᶜ t) (nil-append (decimal prefix)))
    ∙ split_on-append 47 (ipv4_string ip) "/" (decimal prefix) refl (lacks-ipv4_string ip)
    ∙ ap (λ r. ipv4_string ip ∷ r)
        (split_on_whole 47 (decimal prefix) (lacks-decimal 47 prefix (inl (omega arith))))

parse_cidr-cidr_text :
    (ip prefix : ℕ)
    → ip < 2 ^ 32
    → prefix ≤ 32
    → parse_cidr (cidr_text ip prefix) ≡ some (bytes_of ip, prefix)
unfolding parse_cidr parse_network
parse_cidr-cidr_text ip prefix h k =
    ap parse_network (split_on-cidr_text ip prefix)
    ∙ rw (split_on-ipv4_string ip) (
        rw
          (
            parse_octets_lem (byte (shr ip 24)) (byte (shr ip 16)) (byte (shr ip 8)) (byte ip)
                (omega arith) (omega arith) (omega arith) (omega arith),
            parse_digits-decimal prefix,
          )
          (let e : leb prefix 32 ≡ true = ground arith in rw e refl))

-- A network is read back from its text, with the bits of the address past the prefix cleared.
pub ipv4_cidr-cidr_text :
    (ip prefix : ℕ)
    → ip < 2 ^ 32
    → prefix ≤ 32
    → ipv4_cidr (cidr_text ip prefix) ≡ some (ip / 2 ^ (32 - prefix) * 2 ^ (32 - prefix), prefix)
unfolding ipv4_cidr prefix_mask
ipv4_cidr-cidr_text ip prefix h k =
    rw (trim_space-cidr_text ip prefix, parse_cidr-cidr_text ip prefix h k)
      (rw (ipv4_uint32-bytes_of ip h)
        (ap (λ n. some (n, prefix)) (bit_and-mask prefix (32 - prefix) ip (omega arith) h)))
