-- ===== src/Panel/Tests.antt =====
-- The check values of the checksums, runs of the glyph, and the theorems at inputs that meet their
-- hypotheses.
use led_display_g6_firmware.Common.{ℕ, ◌≡◌, length, refl, true, false, List, [], ◌∷◌, arith}
use led_display_g6_firmware.Panel.Protocol.{
  compute_parity_bit, validate_parity, stamp_header_parity, build_psram_index_block,
}
use led_display_g6_firmware.Panel.Parity.{
  flip_at, read_index_block, validate_parity-stamp_header_parity, validate_parity-flip_at,
  read_index_block-build,
}
use led_display_g6_firmware.Panel.Frame.{
  ValidBlocks, build_error_frame, build_error_frame-ValidBlocks,
}
use led_display_g6_firmware.Panel.Crc.{crc8_autosar, crc16_ccitt_false, crc32_update}
use led_display_g6_firmware.Panel.Bitwise.{crc32_bitwise, crc32_update-bitwise}

-- "123456789"
abbrev digits : List ℕ
digits = 0x31 ∷ 0x32 ∷ 0x33 ∷ 0x34 ∷ 0x35 ∷ 0x36 ∷ 0x37 ∷ 0x38 ∷ 0x39 ∷ []

crc8_check : crc8_autosar digits ≡ 0xdf
unfolding crc8_autosar
crc8_check = refl

crc16_check : crc16_ccitt_false digits ≡ 0x29b1
unfolding crc16_ccitt_false
crc16_check = refl

-- Before the final exclusive or.
crc32_check : crc32_update 0xffffffff digits ≡ 0x340bc6d9
unfolding crc32_update
crc32_check = refl

-- The table gives what the division gives.
crc32_update-bitwise_example : crc32_update 0xffffffff digits ≡ crc32_bitwise 0xffffffff digits
crc32_update-bitwise_example = crc32_update-bitwise 0xffffffff digits (
  omega arith,
  (
    omega arith,
    (
      omega arith,
      (
        omega arith,
        (omega arith, (omega arith, (omega arith, (omega arith, (omega arith, refl))))),
      ),
    ),
  ),
)

validate_parity-stamp_header_parity_example :
    validate_parity (stamp_header_parity (1 ∷ 0x30 ∷ 7 ∷ [])) ≡ true
validate_parity-stamp_header_parity_example =
    validate_parity-stamp_header_parity (1 ∷ 0x30 ∷ 7 ∷ []) (omega arith)

validate_parity-flip_at_example : validate_parity (flip_at 1 3 (1 ∷ 0x10 ∷ [])) ≡ false
unfolding validate_parity compute_parity_bit
validate_parity-flip_at_example =
    validate_parity-flip_at (1 ∷ 0x10 ∷ []) 1 3 (omega arith) (omega arith) valid_two
  where
    valid_two : validate_parity (1 ∷ 0x10 ∷ []) ≡ true
    valid_two = refl

read_index_block-build_example :
    (validate_parity (build_psram_index_block 513 0x61 9) ≡ true)
    × (read_index_block (build_psram_index_block 513 0x61 9)
        ≡ record { cmd = 0x61; index = 513; duty = 9 ∷ [] })
read_index_block-build_example = read_index_block-build 513 0x61 9 (omega arith)

build_error_frame-ValidBlocks_example :
    (length (build_error_frame 7 2) ≡ 410)
    × ((rest : List ℕ) × (build_error_frame 7 2 ≡ 0x46 ∷ 0x52 ∷ 0 ∷ 0 ∷ rest) × ValidBlocks 2 rest)
build_error_frame-ValidBlocks_example = build_error_frame-ValidBlocks 7 2
