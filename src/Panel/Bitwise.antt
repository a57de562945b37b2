-- ===== src/Panel/Bitwise.antt =====
-- The reflected CRC-32 bit by bit, and that the table of src/Crc.h computes it.
use led_display_g6_firmware.Common.{
  ℕ, zero, suc, ◌+◌, ◌*◌, ◌/◌, ◌%◌, ◌<◌, ◌≡◌, refl, sym, ap, ◌∙◌, Bool, true, List, [], ◌∷◌, get_or,
  ◌==◌, ◌&&◌, if◌then◌else◌, bit_xor, arith, Bool-cases, inl, inr, subst,
}
use led_display_g6_firmware.Common.Bits.{
  zero-bit_xor, bit_xor_half, bit_xor_parity, bit_xor-zero, bit_xor_assoc, bit_xor_self,
  bit_xor_pairs, bit_and-nibble,
}
use led_display_g6_firmware.Panel.Crc.{crc32_update, crc32_nibble, crc32_table}

-- The polynomial x^32 + x^26 + x^23 + x^22 + x^16 + x^12 + x^11 + x^10 + x^8 + x^7 + x^5 + x^4 + x^2 +
-- x + 1, lowest power in the highest bit, is subtracted when the bit shifted out is set.
abbrev pub subtracted : ℕ → ℕ
subtracted bit = if bit == 0 then 0 else 0xedb88320

abbrev pub crc32_step : ℕ → ℕ
crc32_step crc = bit_xor (crc / 2) (subtracted (crc % 2))

abbrev pub crc32_steps : ℕ → ℕ → ℕ
crc32_steps zero crc = crc
crc32_steps (suc n) crc = crc32_steps n (crc32_step crc)

abbrev pub crc32_bitwise : ℕ → List ℕ → ℕ
crc32_bitwise crc [] = crc
crc32_bitwise crc (b ∷ bs) = crc32_bitwise (crc32_steps 8 (bit_xor crc b)) bs

abbrev pub AllBytes : List ℕ → Type 0
AllBytes [] = true ≡ true
AllBytes (b ∷ bs) = (b < 256) × AllBytes bs

-- A step is linear.
subtracted_sum :
    (x y : ℕ) → x < 2 → y < 2 → subtracted ((x + y) % 2) ≡ bit_xor (subtracted x) (subtracted y)
subtracted_sum zero zero h k = sym (zero-bit_xor 0)
subtracted_sum zero (suc zero) h k = sym (zero-bit_xor 0xedb88320)
subtracted_sum (suc zero) zero h k = sym (bit_xor-zero 0xedb88320)
subtracted_sum (suc zero) (suc zero) h k = sym (bit_xor_self 0xedb88320)
subtracted_sum zero (suc (suc y)) h k = absurd (omega (arith, k))
subtracted_sum (suc zero) (suc (suc y)) h k = absurd (omega (arith, k))
subtracted_sum (suc (suc x)) y h k = absurd (omega (arith, h))

crc32_step-bit_xor : (a b : ℕ) → crc32_step (bit_xor a b) ≡ bit_xor (crc32_step a) (crc32_step b)
crc32_step-bit_xor a b =
    ap (λ (x : ℕ). bit_xor x (subtracted (bit_xor a b % 2))) (bit_xor_half a b)
    ∙ ap (λ (x : ℕ). bit_xor (bit_xor (a / 2) (b / 2)) (subtracted x)) (bit_xor_parity a b)
    ∙ ap (bit_xor (bit_xor (a / 2) (b / 2)))
        (subtracted_sum (a % 2) (b % 2) (omega arith) (omega arith))
    ∙ bit_xor_pairs (a / 2) (b / 2) (subtracted (a % 2)) (subtracted (b % 2))

crc32_steps-bit_xor :
    (n a b : ℕ) → crc32_steps n (bit_xor a b) ≡ bit_xor (crc32_steps n a) (crc32_steps n b)
crc32_steps-bit_xor zero a b = refl
crc32_steps-bit_xor (suc n) a b =
    ap (crc32_steps n) (crc32_step-bit_xor a b)
    ∙ crc32_steps-bit_xor n (crc32_step a) (crc32_step b)

crc32_step_even : (x : ℕ) → crc32_step (2 * x) ≡ x
crc32_step_even x =
    ap (λ (y : ℕ). bit_xor y (subtracted (2 * x % 2))) {x = 2 * x / 2} {y = x} (omega arith)
    ∙ ap (λ (y : ℕ). bit_xor x (subtracted y)) {x = 2 * x % 2} {y = 0} (omega arith)
    ∙ bit_xor-zero x

crc32_steps_high : (q : ℕ) → crc32_steps 4 (16 * q) ≡ q
crc32_steps_high q =
    ap (crc32_steps 4) {x = 16 * q} {y = 2 * (2 * (2 * (2 * q)))} (omega arith)
    ∙ ap (crc32_steps 3) (crc32_step_even (2 * (2 * (2 * q))))
    ∙ ap (crc32_steps 2) (crc32_step_even (2 * (2 * q)))
    ∙ ap (crc32_steps 1) (crc32_step_even (2 * q))
    ∙ crc32_step_even q

equal : (a b : ℕ) → (a == b) ≡ true → a ≡ b
equal a b e = ground (arith, e)

-- The table, entry by entry.
unfoldable pub passes : ℕ → (ℕ → Bool) → Bool
passes zero test = true
passes (suc n) test = passes n test && test n

pub passes-each : (n : ℕ) (test : ℕ → Bool) → passes n test ≡ true → (x : ℕ) → x < n → test x ≡ true
unfolding passes
passes-each (suc n) test all x small = elim (Bool-cases (x == n)) [
  | inl e ↦ subst (λ (y : ℕ). test y ≡ true) (sym (equal x n e)) (ground (arith, all))
  | inr e ↦ passes-each n test (ground (arith, all)) x (ground (arith, e, small))
]
passes-each zero test all x small = absurd (omega (arith, small))

table_entries : passes 16 (λ x. crc32_steps 4 x == get_or crc32_table x 0) ≡ true
unfolding passes
table_entries = refl

crc32_steps_low : (r : ℕ) → r < 16 → crc32_steps 4 r ≡ get_or crc32_table r 0
crc32_steps_low r h =
    equal _ _ (passes-each 16 (λ x. crc32_steps 4 x == get_or crc32_table x 0) table_entries r h)

-- A number is its low digit and the others.
parted_digit : (r x : ℕ) → bit_xor r (2 * x) ≡ 2 * bit_xor (r / 2) x + r % 2
parted_digit r x = omega (
  arith,
  bit_xor_half r (2 * x),
  bit_xor_parity r (2 * x),
  ap (bit_xor (r / 2)) {x = 2 * x / 2} {y = x} (omega arith),
)

parted : (r q : ℕ) → r < 16 → bit_xor r (16 * q) ≡ r + 16 * q
parted r q h = omega (
  arith,
  h,
  ap (bit_xor r) {x = 16 * q} {y = 2 * (2 * (2 * (2 * q)))} (omega arith),
  parted_digit r (2 * (2 * (2 * q))),
  parted_digit (r / 2) (2 * (2 * q)),
  parted_digit (r / 2 / 2) (2 * q),
  parted_digit (r / 2 / 2 / 2) q,
  ap (λ (x : ℕ). bit_xor x q) {x = r / 2 / 2 / 2 / 2} {y = 0} (omega (arith, h)),
  zero-bit_xor q,
)

crc32_steps_nibble : (c : ℕ) → crc32_steps 4 c ≡ bit_xor (get_or crc32_table (c % 16) 0) (c / 16)
crc32_steps_nibble c =
    ap (crc32_steps 4) {x = c} {y = bit_xor (c % 16) (16 * (c / 16))}
      (omega (arith, parted (c % 16) (c / 16) (omega arith)))
    ∙ crc32_steps-bit_xor 4 (c % 16) (16 * (c / 16))
    ∙ ap (λ (x : ℕ). bit_xor x (crc32_steps 4 (16 * (c / 16))))
        (crc32_steps_low (c % 16) (omega arith))
    ∙ ap (bit_xor (get_or crc32_table (c % 16) 0)) (crc32_steps_high (c / 16))

bit_xor_sixteenth : (a b : ℕ) → bit_xor a b / 16 ≡ bit_xor (a / 16) (b / 16)
bit_xor_sixteenth a b = omega (
  arith,
  bit_xor_half a b,
  bit_xor_half (a / 2) (b / 2),
  bit_xor_half (a / 2 / 2) (b / 2 / 2),
  bit_xor_half (a / 2 / 2 / 2) (b / 2 / 2 / 2),
  ap (λ (x : ℕ). bit_xor x (b / 16)) {x = a / 2 / 2 / 2 / 2} {y = a / 16} (omega arith),
  ap (bit_xor (a / 2 / 2 / 2 / 2)) {x = b / 2 / 2 / 2 / 2} {y = b / 16} (omega arith),
)

-- Half a byte, of which the table reads the low digit.
crc32_nibble-steps :
    (crc b : ℕ) → crc32_steps 4 (bit_xor crc b) ≡ bit_xor (crc32_nibble crc b) (b / 16)
crc32_nibble-steps crc b =
    crc32_steps_nibble (bit_xor crc b)
    ∙ ap (bit_xor (get_or crc32_table (bit_xor crc b % 16) 0)) (bit_xor_sixteenth crc b)
    ∙ sym (bit_xor_assoc (get_or crc32_table (bit_xor crc b % 16) 0) (crc / 16) (b / 16))
    ∙ ap (λ (x : ℕ). bit_xor (bit_xor (get_or crc32_table x 0) (crc / 16)) (b / 16))
        (sym (bit_and-nibble (bit_xor crc b)))

crc32_byte :
    (crc b : ℕ)
    → b < 256
    → crc32_steps 8 (bit_xor crc b) ≡ crc32_nibble (crc32_nibble crc b) (b / 16)
crc32_byte crc b h =
    ap (crc32_steps 4) (crc32_nibble-steps crc b)
    ∙ crc32_nibble-steps (crc32_nibble crc b) (b / 16)
    ∙ ap (bit_xor (crc32_nibble (crc32_nibble crc b) (b / 16))) {x = b / 16 / 16} {y = 0}
        (omega (arith, h))
    ∙ bit_xor-zero (crc32_nibble (crc32_nibble crc b) (b / 16))

-- For any bytes and any value to start from, the table of 16 entries gives the checksum that the
-- division by the CRC-32 polynomial gives bit by bit, lowest bit first.
pub crc32_update-bitwise :
    (crc : ℕ) (bs : List ℕ) → AllBytes bs → crc32_update crc bs ≡ crc32_bitwise crc bs
unfolding crc32_update
crc32_update-bitwise crc [] h = refl
crc32_update-bitwise crc (b ∷ bs) h =
    crc32_update-bitwise (crc32_nibble (crc32_nibble crc b) (b / 16)) bs h.1
    ∙ ap (λ (x : ℕ). crc32_bitwise x bs) (sym (crc32_byte crc b h.0))
