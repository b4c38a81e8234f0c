-- ===== src/Host/Words/Laws.antt =====
-- `&` with a mask of high bits and `|` with a mask of low ones, as arithmetic, at every width.
use Prim.Native.Nat.{min, max, digits, bit_and, bit_or, bit_and-bitwise, bit_or-bitwise}
use native.Mathlib.Nat.{pow-suc, one-le-pow, div-lt_iff_lt-mul}
use kvm_manager.Host.Words.{shl32, not32}
use kvm_manager.Base.{
  ℕ, zero, suc, ◌+◌, ◌-◌, ◌*◌, ◌/◌, ◌%◌, ◌^◌, ◌≤◌, ◌<◌, ◌≡◌, refl, ap, ◌∙◌, arith,
}

-- Any count of digits that is not too small gives the same number.
module _ (z : ℕ → ℕ) (f : ℕ → ℕ → ℕ) where
  enough_digits : (n m a b : ℕ) → a ≤ n → a ≤ m → digits z f n a b ≡ digits z f m a b
  enough_digits zero zero a b h k = refl
  enough_digits (suc n) zero zero b h k = refl
  enough_digits zero (suc m) zero b h k = refl
  enough_digits (suc n) (suc m) zero b h k = refl
  enough_digits (suc n) zero (suc a) b h k = absurd (omega arith)
  enough_digits zero (suc m) (suc a) b h k = absurd (omega arith)
  enough_digits (suc n) (suc m) (suc a) b h k =
      ap (λ x. x * 2 + f (suc a % 2) (b % 2))
        (enough_digits n m (suc a / 2) (b / 2) (omega arith) (omega arith))

-- The lowest digit apart.
bit_and-halves : (a b : ℕ) → bit_and a b ≡ bit_and (a / 2) (b / 2) * 2 + min (a % 2) (b % 2)
bit_and-halves zero b = omega (arith, bit_and-bitwise 0 b, bit_and-bitwise 0 (b / 2))
bit_and-halves (suc a) b = omega (
  arith,
  bit_and-bitwise (suc a) b,
  bit_and-bitwise (suc a / 2) (b / 2),
  enough_digits (λ d. zero) min a (suc a / 2) (suc a / 2) (b / 2) (omega arith) (omega arith),
)

bit_or-halves : (a b : ℕ) → bit_or a b ≡ bit_or (a / 2) (b / 2) * 2 + max (a % 2) (b % 2)
bit_or-halves zero b = omega (arith, bit_or-bitwise 0 b, bit_or-bitwise 0 (b / 2))
bit_or-halves (suc a) b = omega (
  arith,
  bit_or-bitwise (suc a) b,
  bit_or-bitwise (suc a / 2) (b / 2),
  enough_digits (λ d. d) max a (suc a / 2) (suc a / 2) (b / 2) (omega arith) (omega arith),
)

bit_or-none_below : (n a : ℕ) → a ≤ n → bit_or a 0 ≡ a
bit_or-none_below n zero h = omega (arith, bit_or-bitwise 0 0)
bit_or-none_below zero (suc a) h = absurd (omega arith)
bit_or-none_below (suc n) (suc a) h =
    omega (arith, bit_or-halves (suc a) 0, bit_or-none_below n (suc a / 2) (omega arith))

shift_once : (q k : ℕ) → q * 2 ^ suc k ≡ q * 2 ^ k * 2
shift_once q k = grind (arith, pow-suc 2 k)

-- A number that fits in k bits below a multiple of 2 ^ k.
pub bit_or-shifted : (k q r : ℕ) → r < 2 ^ k → bit_or (q * 2 ^ k) r ≡ q * 2 ^ k + r
bit_or-shifted zero q r h =
    let e : r ≡ 0 = omega arith in
    rw e (bit_or-none_below (q * 1) (q * 1) (omega arith) ∙ omega arith)
bit_or-shifted (suc k) q r h = omega (
  arith,
  bit_or-halves (q * 2 ^ suc k) r,
  shift_once q k,
  pow-suc 2 k,
  ap (λ x. bit_or x (r / 2)) (halved_shift q k),
  bit_or-shifted k q (r / 2) (omega (arith, pow-suc 2 k)),
)
  where
    halved_shift : (q k : ℕ) → q * 2 ^ suc k / 2 ≡ q * 2 ^ k
    halved_shift q k = omega (arith, shift_once q k)

low_bits_of_one : (j q : ℕ) → q < 2 ^ j → bit_and q (2 ^ j - 1) ≡ q
low_bits_of_one zero q h = let e : q ≡ 0 = omega arith in rw e (bit_and-bitwise 0 0)
low_bits_of_one (suc j) q h = omega (
  arith,
  bit_and-halves q (2 ^ suc j - 1),
  pow-suc 2 j,
  one-le-pow j 2 (omega arith),
  ap (bit_and (q / 2)) (halved_mask j),
  low_bits_of_one j (q / 2) (omega (arith, pow-suc 2 j)),
)
  where
    halved_mask : (j : ℕ) → (2 ^ suc j - 1) / 2 ≡ 2 ^ j - 1
    halved_mask j = omega (arith, pow-suc 2 j, one-le-pow j 2 (omega arith))

bit_and-shifted :
    (k q r s : ℕ) → r < 2 ^ k → bit_and (q * 2 ^ k + r) (s * 2 ^ k) ≡ bit_and q s * 2 ^ k
bit_and-shifted zero q r s h =
    let e : r ≡ 0 = omega arith in
    rw e (ap (λ x. bit_and x (s * 1)) (whole q) ∙ ap (bit_and q) (whole_one s) ∙ omega arith)
  where
    whole : (x : ℕ) → x * 1 + 0 ≡ x
    whole x = omega arith

    whole_one : (x : ℕ) → x * 1 ≡ x
    whole_one x = omega arith
bit_and-shifted (suc k) q r s h = omega (
  arith,
  bit_and-halves (q * 2 ^ suc k + r) (s * 2 ^ suc k),
  shift_once q k,
  shift_once s k,
  shift_once (bit_and q s) k,
  ap (λ x. bit_and x (s * 2 ^ suc k / 2)) halved_number,
  ap (bit_and (q * 2 ^ k + r / 2)) halved_mask,
  bit_and-shifted k q (r / 2) s (omega (arith, pow-suc 2 k)),
)
  where
    halved_number : (q * 2 ^ suc k + r) / 2 ≡ q * 2 ^ k + r / 2
    halved_number = omega (arith, shift_once q k)

    halved_mask : s * 2 ^ suc k / 2 ≡ s * 2 ^ k
    halved_mask = omega (arith, shift_once s k)

-- The block of 2 ^ k numbers in which a number lies starts at its high bits.
bit_and-high :
    (k j q r : ℕ)
    → r < 2 ^ k
    → q < 2 ^ j
    → bit_and (q * 2 ^ k + r) ((2 ^ j - 1) * 2 ^ k) ≡ q * 2 ^ k
bit_and-high k j q r h g =
    bit_and-shifted k q r (2 ^ j - 1) h ∙ ap (λ x. x * 2 ^ k) (low_bits_of_one j q g)

-- The two parts of a word.
two_pow_parts : (j k : ℕ) → 2 ^ j * 2 ^ k ≡ 2 ^ (j + k)
two_pow_parts zero k = omega (arith, ap (λ n. 2 ^ n) (no_more k))
  where
    no_more : (k : ℕ) → 0 + k ≡ k
    no_more k = omega arith
two_pow_parts (suc j) k =
    grind (arith, two_pow_parts j k, pow-suc 2 j, pow-suc 2 (j + k), ap (λ n. 2 ^ n) (next j k))
  where
    next : (j k : ℕ) → suc j + k ≡ suc (j + k)
    next j k = omega arith

ones_above : (x y : ℕ) → 1 ≤ x → (x - 1) * y + y ≡ x * y
ones_above zero y h = absurd (omega arith)
ones_above (suc x) y h = grind arith

-- The mask of the upper j bits of a uint32.
shl32_ones : (j k : ℕ) → j + k ≡ 32 → shl32 0xffff_ffff k ≡ (2 ^ j - 1) * 2 ^ k
shl32_ones j k h = omega (
  arith,
  ap (λ n. 2 ^ n) h,
  two_pow_parts j k,
  ones_above (2 ^ j) (2 ^ k) (one-le-pow j 2 (omega arith)),
  one-le-pow k 2 (omega arith),
  one-le-pow j 2 (omega arith),
)

high_part : (j k x : ℕ) → j + k ≡ 32 → x < 2 ^ 32 → x / 2 ^ k < 2 ^ j
high_part j k x h g =
    (div-lt_iff_lt-mul (one-le-pow k 2 (omega arith))).1
      (omega (arith, two_pow_parts j k, ap (λ n. 2 ^ n) h))

-- A uint32 with the bits below the mask cleared.
pub bit_and-mask :
    (j k x : ℕ) → j + k ≡ 32 → x < 2 ^ 32 → bit_and x (shl32 0xffff_ffff k) ≡ x / 2 ^ k * 2 ^ k
bit_and-mask j k x h g =
    ap (bit_and x) (shl32_ones j k h)
    ∙ ap (λ y. bit_and y ((2 ^ j - 1) * 2 ^ k)) (parts k x)
    ∙ bit_and-high k j (x / 2 ^ k) (x % 2 ^ k) below (high_part j k x h g)
  where
    below : x % 2 ^ k < 2 ^ k
    below = grind (arith, one-le-pow k 2 (omega arith))

    parts : (k x : ℕ) → x ≡ x / 2 ^ k * 2 ^ k + x % 2 ^ k
    parts k x = grind arith

-- The last number of the block that the mask leaves.
pub bit_or-not32 :
    (j k q : ℕ)
    → j + k ≡ 32
    → bit_or (q * 2 ^ k) (not32 (shl32 0xffff_ffff k)) ≡ q * 2 ^ k + (2 ^ k - 1)
bit_or-not32 j k q h =
    ap (bit_or (q * 2 ^ k)) ones_below
    ∙ bit_or-shifted k q (2 ^ k - 1) (omega (arith, one-le-pow k 2 (omega arith)))
  where
    ones_below : not32 (shl32 0xffff_ffff k) ≡ 2 ^ k - 1
    ones_below = omega (
      arith,
      shl32_ones j k h,
      ones_above (2 ^ j) (2 ^ k) (one-le-pow j 2 (omega arith)),
      two_pow_parts j k,
      ap (λ n. 2 ^ n) h,
      one-le-pow k 2 (omega arith),
    )

-- A block lies below 2 ^ 32 as a whole.
pub block_end : (j k x : ℕ) → j + k ≡ 32 → x < 2 ^ 32 → x / 2 ^ k * 2 ^ k + 2 ^ k ≤ 2 ^ 32
block_end j k x h g = grind (arith, high_part j k x h g, two_pow_parts j k, ap (λ n. 2 ^ n) h)
