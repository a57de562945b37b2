-- ===== src/Common/Bits.antt =====
-- The laws of exclusive or and of masks at variables, digit by digit.
use Prim.Native.Nat.{
  ℕ, zero, suc, ◌+◌, ◌*◌, ◌/◌, ◌%◌, ◌^◌, ◌≤◌, ◌<◌, min, bit_and, bit_xor, digits, bitwise, differ,
  bit_and-bitwise, bit_xor-bitwise,
}
use mathlib.Core.Path.{◌≡◌, refl, sym, ap, ◌∙◌}
use native.Mathlib.Omega.{arith}

-- The count of digits to go does not matter while it is large enough for the first number.
module _ (rest : ℕ → ℕ) (on_digits : ℕ → ℕ → ℕ) where
  spare_digits :
      (n x y m : ℕ) → (x ≤ n) × (x ≤ m) → digits rest on_digits n x y ≡ digits rest on_digits m x y
  spare_digits (suc n) (suc x) y (suc m) large =
      ap (λ (high : ℕ). high * 2 + on_digits (suc x % 2) (y % 2))
        (spare_digits n (suc x / 2) (y / 2) m (omega (arith, large.0), omega (arith, large.1)))
  spare_digits (suc n) (suc x) y zero large = absurd (omega (arith, large.1))
  spare_digits zero (suc x) y m large = absurd (omega (arith, large.0))
  spare_digits zero zero y zero large = refl
  spare_digits zero zero y (suc m) large = refl
  spare_digits (suc n) zero y zero large = refl
  spare_digits (suc n) zero y (suc m) large = refl

  -- The lowest digit of the result, and the others.
  lowest_digit :
      (x y : ℕ)
      → bitwise rest on_digits (suc x) y
        ≡ bitwise rest on_digits (suc x / 2) (y / 2) * 2 + on_digits (suc x % 2) (y % 2)
  lowest_digit x y =
      ap (λ (high : ℕ). high * 2 + on_digits (suc x % 2) (y % 2))
        (spare_digits x (suc x / 2) (y / 2) (suc x / 2) (omega arith, omega arith))

differ_parity : (x y : ℕ) → x < 2 → y < 2 → differ x y ≡ (x + y) % 2
differ_parity zero y h k = omega (arith, k)
differ_parity (suc zero) zero h k = refl
differ_parity (suc zero) (suc zero) h k = refl
differ_parity (suc zero) (suc (suc y)) h k = absurd (omega (arith, k))
differ_parity (suc (suc x)) y h k = absurd (omega (arith, h))

pub zero-bit_xor : (b : ℕ) → bit_xor 0 b ≡ b
zero-bit_xor b = bit_xor-bitwise 0 b

bit_xor_digit : (a b : ℕ) → bit_xor a b ≡ bit_xor (a / 2) (b / 2) * 2 + (a % 2 + b % 2) % 2
bit_xor_digit zero b = omega (arith, zero-bit_xor b, zero-bit_xor (b / 2))
bit_xor_digit (suc a) b =
    bit_xor-bitwise (suc a) b
    ∙ lowest_digit (λ x. x) differ a b
    ∙ ap (λ (x : ℕ). x * 2 + differ (suc a % 2) (b % 2)) (sym (bit_xor-bitwise (suc a / 2) (b / 2)))
    ∙ ap (λ (x : ℕ). bit_xor (suc a / 2) (b / 2) * 2 + x)
        (differ_parity (suc a % 2) (b % 2) (omega arith) (omega arith))

pub bit_xor_half : (a b : ℕ) → bit_xor a b / 2 ≡ bit_xor (a / 2) (b / 2)
bit_xor_half a b = omega (arith, bit_xor_digit a b)

pub bit_xor_parity : (a b : ℕ) → bit_xor a b % 2 ≡ (a % 2 + b % 2) % 2
bit_xor_parity a b = omega (arith, bit_xor_digit a b)

zero_last : (n x : ℕ) → x < suc n → bit_xor x 0 ≡ x
zero_last n zero small = zero-bit_xor 0
zero_last zero (suc x) small = absurd (omega (arith, small))
zero_last (suc n) (suc x) small =
    let high = zero_last n (suc x / 2) (omega (arith, small)) in
    omega (arith, bit_xor_digit (suc x) 0, high)

pub bit_xor-zero : (a : ℕ) → bit_xor a 0 ≡ a
bit_xor-zero a = zero_last a a (omega arith)

bit_xor_comm_fuel : (n a b : ℕ) → a ≤ n → bit_xor a b ≡ bit_xor b a
bit_xor_comm_fuel n zero b h = zero-bit_xor b ∙ sym (bit_xor-zero b)
bit_xor_comm_fuel zero (suc a) b h = absurd (omega (arith, h))
bit_xor_comm_fuel (suc n) (suc a) b h = omega (
  arith,
  bit_xor_digit (suc a) b,
  bit_xor_digit b (suc a),
  bit_xor_comm_fuel n (suc a / 2) (b / 2) (omega (arith, h)),
)

pub bit_xor_comm : (a b : ℕ) → bit_xor a b ≡ bit_xor b a
bit_xor_comm a b = bit_xor_comm_fuel a a b (omega arith)

bit_xor_assoc_fuel : (n a b c : ℕ) → a ≤ n → bit_xor (bit_xor a b) c ≡ bit_xor a (bit_xor b c)
bit_xor_assoc_fuel n zero b c h =
    ap (λ (x : ℕ). bit_xor x c) (zero-bit_xor b) ∙ sym (zero-bit_xor (bit_xor b c))
bit_xor_assoc_fuel zero (suc a) b c h = absurd (omega (arith, h))
bit_xor_assoc_fuel (suc n) (suc a) b c h =
    let left = ap (λ (x : ℕ). bit_xor x (c / 2)) (bit_xor_half (suc a) b) in
    let right = ap (λ (x : ℕ). bit_xor (suc a / 2) x) (bit_xor_half b c) in
    omega (
      arith,
      bit_xor_digit (bit_xor (suc a) b) c,
      bit_xor_digit (suc a) (bit_xor b c),
      bit_xor_parity (suc a) b,
      bit_xor_parity b c,
      left,
      right,
      bit_xor_assoc_fuel n (suc a / 2) (b / 2) (c / 2) (omega (arith, h)),
    )

pub bit_xor_assoc : (a b c : ℕ) → bit_xor (bit_xor a b) c ≡ bit_xor a (bit_xor b c)
bit_xor_assoc a b c = bit_xor_assoc_fuel a a b c (omega arith)

bit_xor_self_fuel : (n a : ℕ) → a ≤ n → bit_xor a a ≡ 0
bit_xor_self_fuel n zero h = zero-bit_xor 0
bit_xor_self_fuel zero (suc a) h = absurd (omega (arith, h))
bit_xor_self_fuel (suc n) (suc a) h =
    omega (arith, bit_xor_digit (suc a) (suc a), bit_xor_self_fuel n (suc a / 2) (omega (arith, h)))

pub bit_xor_self : (a : ℕ) → bit_xor a a ≡ 0
bit_xor_self a = bit_xor_self_fuel a a (omega arith)

-- Four numbers in pairs.
pub bit_xor_pairs :
    (a b c d : ℕ) → bit_xor (bit_xor a b) (bit_xor c d) ≡ bit_xor (bit_xor a c) (bit_xor b d)
bit_xor_pairs a b c d =
    bit_xor_assoc a b (bit_xor c d)
    ∙ ap (bit_xor a) (sym (bit_xor_assoc b c d))
    ∙ ap (λ (x : ℕ). bit_xor a (bit_xor x d)) (bit_xor_comm b c)
    ∙ ap (bit_xor a) (bit_xor_assoc c b d)
    ∙ sym (bit_xor_assoc a c (bit_xor b d))

-- The exclusive or of numbers below a power of 2 is below it.
pub bit_xor_bound : (n a b : ℕ) → a < 2 ^ n → b < 2 ^ n → bit_xor a b < 2 ^ n
bit_xor_bound zero a b h k =
    omega (arith, ap (λ (x : ℕ). bit_xor x b) {x = a} {y = 0} (omega (arith, h)), zero-bit_xor b)
bit_xor_bound (suc n) a b h k = omega (
  arith,
  bit_xor_digit a b,
  bit_xor_bound n (a / 2) (b / 2) (omega (arith, h)) (omega (arith, k)),
)

-- The digits that a mask lets through.
mask_digit : (x mask : ℕ) → bit_and x mask ≡ bit_and (x / 2) (mask / 2) * 2 + min (x % 2) (mask % 2)
mask_digit zero mask =
    let none_set : (m : ℕ) → bit_and 0 m ≡ 0 = λ m. bit_and-bitwise 0 m in
    omega (arith, none_set mask, none_set (mask / 2))
mask_digit (suc x) mask =
    bit_and-bitwise (suc x) mask
    ∙ lowest_digit (λ m. 0) min x mask
    ∙ ap (λ (high : ℕ). high * 2 + min (suc x % 2) (mask % 2))
        (sym (bit_and-bitwise (suc x / 2) (mask / 2)))

no_mask : (n x : ℕ) → x < suc n → bit_and x 0 ≡ 0
no_mask n zero small = bit_and-bitwise 0 0
no_mask zero (suc x) small = absurd (omega (arith, small))
no_mask (suc n) (suc x) small =
    let high = no_mask n (suc x / 2) (omega (arith, small)) in
    omega (arith, mask_digit (suc x) 0, high)

-- A mask of four ones.
pub bit_and-nibble : (x : ℕ) → bit_and x 15 ≡ x % 16
bit_and-nibble x = omega (
  arith,
  mask_digit x 15,
  mask_digit (x / 2) 7,
  mask_digit (x / 2 / 2) 3,
  mask_digit (x / 2 / 2 / 2) 1,
  no_mask (x / 2 / 2 / 2 / 2) (x / 2 / 2 / 2 / 2) (omega arith),
)
