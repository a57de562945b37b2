-- ===== src/Panel/Parity.antt =====
-- The parity bit: a stamped message is valid, and a message with one bit flipped is not.
use led_display_g6_firmware.Common.{
  ℕ, zero, suc, ◌+◌, ◌-◌, ◌*◌, ◌/◌, ◌%◌, ◌≤◌, ◌<◌, ◌≡◌, refl, ap, true, false, List, [], ◌∷◌,
  length, ◌==◌, if◌then◌else◌, arith,
}
use led_display_g6_firmware.Common.Bytes.{le16}
use led_display_g6_firmware.Panel.Protocol.{
  ones, popcount, payload_ones, compute_parity_bit, validate_parity, stamp_header_parity,
  build_psram_index_block,
}

-- Bit `k` of a byte is turned over.
abbrev pub flip : ℕ → ℕ → ℕ
flip zero b = b / 2 * 2 + (1 - b % 2)
flip (suc k) b = b % 2 + 2 * flip k (b / 2)

-- Bit `k` of byte `i` of a message is turned over.
abbrev pub flip_at : ℕ → ℕ → List ℕ → List ℕ
flip_at i k [] = []
flip_at zero k (b ∷ bs) = flip k b ∷ bs
flip_at (suc i) k (b ∷ bs) = b ∷ flip_at i k bs

ones-flip : (bits k b : ℕ) → k < bits → (ones bits (flip k b) + 1) % 2 ≡ ones bits b % 2
ones-flip zero k b h = absurd (omega arith)
ones-flip (suc bits) zero b h =
    omega (arith, ap (ones bits) {x = (b / 2 * 2 + (1 - b % 2)) / 2} {y = b / 2} (omega arith))
ones-flip (suc bits) (suc k) b h = omega (
  arith,
  ones-flip bits k (b / 2) (omega arith),
  ap (ones bits) {x = (b % 2 + 2 * flip k (b / 2)) / 2} {y = flip k (b / 2)} (omega arith),
)

payload_ones-flip_at :
    (i k : ℕ) (bs : List ℕ)
    → k < 8
    → i < length bs
    → (payload_ones (flip_at i k bs) + 1) % 2 ≡ payload_ones bs % 2
payload_ones-flip_at i k [] h p = absurd (omega arith)
payload_ones-flip_at zero k (b ∷ bs) h p = omega (arith, ones-flip 8 k b h)
payload_ones-flip_at (suc i) k (b ∷ bs) h p =
    omega (arith, payload_ones-flip_at i k bs h (omega arith))

-- The parity bit makes the ones of the whole message even.
header_ones : (h : ℕ) → popcount h ≡ popcount (h % 128) + h / 128 % 2
header_ones h = omega arith

valid_even : (msg : List ℕ) → validate_parity msg ≡ true → payload_ones msg % 2 ≡ 0
unfolding validate_parity compute_parity_bit
valid_even [] e = absurd (ground (arith, e))
valid_even (h ∷ []) e = absurd (ground (arith, e))
valid_even (h ∷ c ∷ p) e = ground (arith, header_ones h)

odd_invalid : (msg : List ℕ) → payload_ones msg % 2 ≡ 1 → validate_parity msg ≡ false
unfolding validate_parity compute_parity_bit
odd_invalid [] e = refl
odd_invalid (h ∷ []) e = refl
odd_invalid (h ∷ c ∷ p) e = ground (arith, header_ones h)

-- A message of at least two bytes is valid once it is stamped.
pub validate_parity-stamp_header_parity :
    (msg : List ℕ) → 2 ≤ length msg → validate_parity (stamp_header_parity msg) ≡ true
unfolding validate_parity stamp_header_parity compute_parity_bit
validate_parity-stamp_header_parity [] some = absurd (omega arith)
validate_parity-stamp_header_parity (h ∷ []) some = absurd (omega arith)
validate_parity-stamp_header_parity (h ∷ c ∷ p) some =
    let q : ℕ = (popcount (h % 128 % 128) + popcount c + payload_ones p) % 2 in
    ground (arith, ap popcount {x = (h % 128 + q * 128) % 128} {y = h % 128 % 128} (omega arith))

-- A valid message is no longer valid when any one of its bits is turned over.
pub validate_parity-flip_at :
    (msg : List ℕ) (i k : ℕ)
    → i < length msg
    → k < 8
    → validate_parity msg ≡ true
    → validate_parity (flip_at i k msg) ≡ false
validate_parity-flip_at msg i k h p e =
    odd_invalid (flip_at i k msg)
      (omega (arith, valid_even msg e, payload_ones-flip_at i k msg p h))

-- What a panel reads of a block: the opcode, the number of the stored frame, and the bytes behind.
pub record IndexBlock : Type 0 where
  pub cmd : ℕ
  pub index : ℕ
  pub duty : List ℕ

abbrev pub read_index_block : List ℕ → IndexBlock
read_index_block (h ∷ c ∷ lo ∷ hi ∷ rest) = record { cmd = c; index = le16 lo hi; duty = rest }
read_index_block msg = record { cmd = 0; index = 0; duty = [] }

-- The block that shows stored frame `index` is valid, and a panel reads from it the opcode, the
-- number, and the duty byte exactly for the opcodes that have one.
pub read_index_block-build :
    (index cmd_id duty : ℕ)
    → index < 65536
    → (validate_parity (build_psram_index_block index cmd_id duty) ≡ true)
      × (read_index_block (build_psram_index_block index cmd_id duty) ≡ record {
        cmd = cmd_id;
        index = index;
        duty = if cmd_id / 16 == 6 then duty ∷ [] else [];
      })
unfolding build_psram_index_block stamp_header_parity
read_index_block-build index cmd_id duty h = (
  validate_parity-stamp_header_parity
      (2 ∷ cmd_id ∷ index % 256 ∷ index / 256 % 256 ∷ (if cmd_id / 16 == 6 then duty ∷ [] else []))
      (omega arith),
  ap
      (λ (n : ℕ). record {
        cmd = cmd_id;
        index = n;
        duty = if cmd_id / 16 == 6 then duty ∷ [] else [];
      })
      {x = le16 (index % 256) (index / 256 % 256)} {y = index} (omega arith),
)
