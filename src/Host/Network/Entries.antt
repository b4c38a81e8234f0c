-- ===== src/Host/Network/Entries.antt =====
-- The fixed addresses of a network: the loop of fixedAddressEntries.
use native.Mathlib.Nat.{pow-le-pow_right}
use kvm_manager.Base.{
  ℕ, zero, suc, ◌+◌, ◌-◌, ◌^◌, ◌≤◌, ◌<◌, ◌≡◌, refl, sym, ap, ◌∙◌, true, false, none, some, List, [],
  ◌∷◌, ◌++◌, arith, leb, ltb, if◌then◌else◌, Bool-cases, ◌⊎◌, inl, inr,
}
use kvm_manager.Host.{Run, ok, err}
use kvm_manager.Host.Words.{add32, sub32}
use kvm_manager.Host.Network.Cidr.{prefix_mask}
use kvm_manager.Host.Network.Cidr.RoundTrip.{cidr_text, ipv4_cidr-cidr_text}
use kvm_manager.Host.Network.{
  NetworkError, subnet_too_small_for_fixed_address, fixed_address_range_too_large,
  NetworkFixedAddress, fixed_address, usable, range_of, fixed_address_range, fixed_address_loop,
  max_fixed_address_entries, entries_of, fixed_address_entries,
}
use kvm_manager.Host.Network.Range.{
  block, network_of, four-le-block, network_of-block, cidr_usable_range_lem, cidr_usable_range_none,
}

-- The entries of `count` addresses, from `ip` on.
abbrev pub consecutive : ℕ → ℕ → List NetworkFixedAddress
consecutive ip zero = []
consecutive ip (suc count) = fixed_address ip ∷ consecutive (suc ip) count

append_assoc :
    (xs : List NetworkFixedAddress) (x : NetworkFixedAddress) (ys : List NetworkFixedAddress)
    → (xs ++ x ∷ []) ++ ys ≡ xs ++ x ∷ ys
append_assoc [] x ys = refl
append_assoc (y ∷ xs) x ys = ap (λ zs. y ∷ zs) (append_assoc xs x ys)

append_nil : (xs : List NetworkFixedAddress) → xs ++ [] ≡ xs
append_nil [] = refl
append_nil (x ∷ xs) = ap (λ zs. x ∷ zs) (append_nil xs)

-- The loop ends where the addresses do not reach the largest number.
fixed_address_loop_lem :
    (count fuel ip end : ℕ) (entries : List NetworkFixedAddress)
    → ip + count ≡ suc end
    → suc end < 2 ^ 32
    → count < fuel
    → fixed_address_loop fuel ip end entries ≡ ok (entries ++ consecutive ip count)
unfolding fixed_address_loop
fixed_address_loop_lem count zero ip end entries e h f = absurd (omega arith)
fixed_address_loop_lem zero (suc fuel) ip end entries e h f =
    let past : leb ip end ≡ false = ground arith in
    rw past (ap (λ es. ok es) (sym (append_nil entries)))
fixed_address_loop_lem (suc count) (suc fuel) ip end entries e h f =
    let within : leb ip end ≡ true = ground arith in
    let next : add32 ip 1 ≡ suc ip = omega arith in
    rw (within, next)
      (fixed_address_loop_lem count fuel (suc ip) end (entries ++ fixed_address ip ∷ [])
          (omega arith) h (omega arith)
        ∙ ap (λ es. ok es) (append_assoc entries (fixed_address ip) (consecutive (suc ip) count)))

-- The entries of a range of `count` addresses.
entries_of_range :
    (start count : ℕ)
    → 0 < count
    → start + count < 2 ^ 32
    → entries_of (some (start, start + count - 1)) ≡ (
        if ltb max_fixed_address_entries count
        then err fixed_address_range_too_large
        else ok (consecutive start count))
unfolding entries_of
entries_of_range start count h k =
    let total : add32 (sub32 (start + count - 1) start) 1 ≡ count = omega arith in
    rw total (elim (Bool-cases (ltb max_fixed_address_entries count)) [
      | inl e ↦ rw e refl
      | inr e ↦ rw e (
          fixed_address_loop_lem count (suc count) start (start + count - 1) [] (omega arith)
            (omega arith) (omega arith))
    ])

-- What the entries of a network are.
abbrev pub expected_entries : ℕ → ℕ → Run NetworkError (List NetworkFixedAddress)
expected_entries ip prefix =
    if ltb 30 prefix
    then err subnet_too_small_for_fixed_address
    else if ltb prefix 20
    then err fixed_address_range_too_large
    else ok (consecutive (network_of ip prefix + 2) (block prefix - 3))

range_of_small : (network prefix : ℕ) → 30 < prefix → range_of (some (network, prefix)) ≡ none
unfolding range_of usable
range_of_small network prefix h =
    rw (cidr_usable_range_none network (prefix_mask prefix) prefix h) refl

usable_lem :
    (gateway start end : ℕ)
    → 0 < start
    → start ≤ end
    → usable (record { gateway = gateway; start = start; end = end }) ≡ some (start, end)
unfolding usable
usable_lem gateway start end h k = ground arith

range_of_network :
    (ip prefix : ℕ)
    → ip < 2 ^ 32
    → prefix ≤ 30
    → range_of (some (network_of ip prefix, prefix))
      ≡ some (network_of ip prefix + 2, network_of ip prefix + 2 + (block prefix - 3) - 1)
unfolding range_of
range_of_network ip prefix h k =
    ap usable (cidr_usable_range_lem ip prefix h k)
    ∙ usable_lem (network_of ip prefix + 1) (network_of ip prefix + 2)
        (network_of ip prefix + (block prefix - 2)) (omega arith)
        (omega (arith, four-le-block prefix k))
    ∙ ap (λ n. some (network_of ip prefix + 2, n)) (omega (arith, four-le-block prefix k))

large_block : (prefix : ℕ) → prefix < 20 → 8192 ≤ block prefix
large_block prefix h =
    pow-le-pow_right {n = 2} (omega arith) {i = 13} {j = 32 - prefix} (omega arith)

pub small_block : (prefix : ℕ) → 20 ≤ prefix → block prefix ≤ 4096
small_block prefix h =
    pow-le-pow_right {n = 2} (omega arith) {i = 32 - prefix} {j = 12} (omega arith)

entries_of-network :
    (ip prefix : ℕ)
    → ip < 2 ^ 32
    → prefix ≤ 30
    → entries_of (range_of (some (network_of ip prefix, prefix))) ≡ expected_entries ip prefix
entries_of-network ip prefix h k =
    ap entries_of (range_of_network ip prefix h k)
    ∙ entries_of_range (network_of ip prefix + 2) (block prefix - 3)
        (omega (arith, four-le-block prefix k))
        (omega (arith, network_of-block ip prefix h (omega arith), four-le-block prefix k))
    ∙ branches (Bool-cases (ltb prefix 20))
  where
    branches :
        (ltb prefix 20 ≡ true) ⊎ (ltb prefix 20 ≡ false)
        → (if ltb max_fixed_address_entries (block prefix - 3)
            then err fixed_address_range_too_large
            else ok (consecutive (network_of ip prefix + 2) (block prefix - 3)))
          ≡ expected_entries ip prefix
    branches (inl e) =
        let long : ltb max_fixed_address_entries (block prefix - 3) ≡ true =
          ground (arith, large_block prefix (ground arith)) in
        let wide : ltb 30 prefix ≡ false = ground arith in rw (long, wide, e) refl
    branches (inr e) =
        let short : ltb max_fixed_address_entries (block prefix - 3) ≡ false =
          ground (arith, small_block prefix (ground arith)) in
        let wide : ltb 30 prefix ≡ false = ground arith in rw (short, wide, e) refl

-- The entries for any network.
pub entries_of_cidr :
    (ip prefix : ℕ)
    → ip < 2 ^ 32
    → prefix ≤ 32
    → entries_of (range_of (some (network_of ip prefix, prefix))) ≡ expected_entries ip prefix
unfolding entries_of
entries_of_cidr ip prefix h k = elim (Bool-cases (ltb 30 prefix)) [
  | inl e ↦ ap entries_of (range_of_small (network_of ip prefix) prefix (ground arith)) ∙ rw e refl
  | inr e ↦ entries_of-network ip prefix h (ground arith)
]

-- The fixed addresses of a network, given by any address in it and the length of its prefix: with a
-- prefix longer than 30 bits it is too small, with one shorter than 20 too large. Otherwise they are
-- all the addresses after the network's own and the gateway's and before the broadcast address, in
-- order, each with its hardware address.
pub fixed_address_entries_lem :
    (ip prefix : ℕ)
    → ip < 2 ^ 32
    → prefix ≤ 32
    → fixed_address_entries (cidr_text ip prefix) ≡ expected_entries ip prefix
unfolding fixed_address_entries fixed_address_range
fixed_address_entries_lem ip prefix h k =
    ap (λ r. entries_of (range_of r)) (ipv4_cidr-cidr_text ip prefix h k)
    ∙ entries_of_cidr ip prefix h k
