-- ===== src/Host/Network/Total.antt =====
-- fixedAddressEntries on every text.
use kvm_manager.Base.{
  ℕ, ◌+◌, ◌-◌, ◌^◌, ◌≤◌, ◌<◌, String, ◌≡◌, refl, ap, ◌∙◌, ◌⊎◌, none, some, Option, arith, ltb,
  Bool-cases, Option-cases, inl, inr,
}
use kvm_manager.Host.{ok, err}
use kvm_manager.Host.Network.Cidr.{ipv4_cidr}
use kvm_manager.Host.Network.Cidr.Bytes.{NamesNetwork, ipv4_cidr-NamesNetwork}
use kvm_manager.Host.Network.{
  subnet_too_small_for_fixed_address, fixed_address_range_too_large, range_of, fixed_address_range,
  entries_of, fixed_address_entries,
}
use kvm_manager.Host.Network.Range.{block, network_of}
use kvm_manager.Host.Network.Entries.{consecutive, entries_of_cidr}

-- The entries are those of a network that is neither too small nor too large.
pub record IsServed (cidr : String) (ip prefix : ℕ) : Type 0 where
  pub address_fits : ip < 2 ^ 32
  pub long_enough : 20 ≤ prefix
  pub short_enough : prefix ≤ 30
  pub served :
      fixed_address_entries cidr ≡ ok (consecutive (network_of ip prefix + 2) (block prefix - 3))

Outcome : String → Type 0
Outcome cidr =
    (fixed_address_entries cidr ≡ err subnet_too_small_for_fixed_address)
    ⊎ (fixed_address_entries cidr ≡ err fixed_address_range_too_large)
    ⊎ ((ip : ℕ) × (prefix : ℕ) × IsServed cidr ip prefix)

fixed_address_entries_steps :
    (cidr : String) (found : Option (ℕ × ℕ))
    → ipv4_cidr cidr ≡ found
    → fixed_address_entries cidr ≡ entries_of (range_of found)
unfolding fixed_address_entries fixed_address_range
fixed_address_entries_steps cidr found e = ap (λ r. entries_of (range_of r)) e

outcome_of_network :
    (cidr : String) (network prefix : ℕ)
    → ipv4_cidr cidr ≡ some (network, prefix)
    → NamesNetwork (network, prefix)
    → Outcome cidr
unfolding Outcome
outcome_of_network cidr network prefix e (ip, fits, short, n) =
    let steps =
      fixed_address_entries_steps cidr (some (network, prefix)) e
      ∙ ap (λ m. entries_of (range_of (some (m, prefix)))) n
      ∙ entries_of_cidr ip prefix fits short in
    elim (Bool-cases (ltb 30 prefix)) [
      | inl small ↦ inl (steps ∙ rw small refl)
      | inr wide ↦ elim (Bool-cases (ltb prefix 20)) [
        | inl large ↦ inr (inl (steps ∙ rw (wide, large) refl))
        | inr long ↦ inr (
            inr (
              ip,
              prefix,
              record {
                address_fits = fits;
                long_enough = ground arith;
                short_enough = ground arith;
                served = steps ∙ rw (wide, long) refl;
              },
            ))
      ]
    ]

-- For every text the loop over the addresses ends. The result is one of the two errors, or the
-- consecutive entries of a network with a prefix of 20 to 30 bits.
pub fixed_address_entries-ends :
    (cidr : String)
    → (fixed_address_entries cidr ≡ err subnet_too_small_for_fixed_address)
      ⊎ (fixed_address_entries cidr ≡ err fixed_address_range_too_large)
      ⊎ ((ip : ℕ) × (prefix : ℕ) × IsServed cidr ip prefix)
unfolding Outcome range_of entries_of
fixed_address_entries-ends cidr = elim (Option-cases (ipv4_cidr cidr)) [
  | inl e ↦ inl (fixed_address_entries_steps cidr none e)
  | inr ((network, prefix), e) ↦
      outcome_of_network cidr network prefix e (ipv4_cidr-NamesNetwork cidr (network, prefix) e)
]
