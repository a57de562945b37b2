-- ===== src/Panel/Crc.antt =====
-- src/Crc.h: the three checksums, over lists of bytes.
use led_display_g6_firmware.Common.{
  ℕ, zero, suc, ◌*◌, ◌/◌, ◌%◌, ◌≡◌, refl, List, [], ◌∷◌, ◌++◌, get_or, leb, if◌then◌else◌, bit_xor,
  bit_and,
}

-- Eight rounds of the bit loop: the register is shifted, and reduced when its high bit was set.
abbrev pub crc8_bits : ℕ → ℕ → ℕ
crc8_bits zero crc = crc
crc8_bits (suc n) crc =
    crc8_bits n (if leb 0x80 crc then bit_xor (crc * 2 % 256) 0x2f else crc * 2 % 256)

abbrev pub crc8_bytes : ℕ → List ℕ → ℕ
crc8_bytes crc [] = crc
crc8_bytes crc (b ∷ bs) = crc8_bytes (crc8_bits 8 (bit_xor crc b)) bs

unfoldable pub crc8_autosar : List ℕ → ℕ
crc8_autosar bs = bit_xor (crc8_bytes 0xff bs) 0xff

abbrev pub crc16_bits : ℕ → ℕ → ℕ
crc16_bits zero crc = crc
crc16_bits (suc n) crc =
    crc16_bits n (if leb 0x8000 crc then bit_xor (crc * 2 % 65536) 0x1021 else crc * 2 % 65536)

abbrev pub crc16_bytes : ℕ → List ℕ → ℕ
crc16_bytes crc [] = crc
crc16_bytes crc (b ∷ bs) = crc16_bytes (crc16_bits 8 (bit_xor crc (b * 256))) bs

unfoldable pub crc16_ccitt_false : List ℕ → ℕ
crc16_ccitt_false bs = crc16_bytes 0xffff bs

abbrev pub crc32_table : List ℕ
crc32_table =
    0x00000000 ∷ 0x1db71064 ∷ 0x3b6e20c8 ∷ 0x26d930ac ∷ 0x76dc4190 ∷ 0x6b6b51f4 ∷ 0x4db26158
    ∷ 0x5005713c ∷ 0xedb88320 ∷ 0xf00f9344 ∷ 0xd6d6a3e8 ∷ 0xcb61b38c ∷ 0x9b64c2b0 ∷ 0x86d3d2d4
    ∷ 0xa00ae278 ∷ 0xbdbdf21c ∷ []

abbrev pub crc32_nibble : ℕ → ℕ → ℕ
crc32_nibble crc b = bit_xor (get_or crc32_table (bit_and (bit_xor crc b) 0xf) 0) (crc / 16)

unfoldable pub crc32_update : ℕ → List ℕ → ℕ
crc32_update crc [] = crc
crc32_update crc (b ∷ bs) = crc32_update (crc32_nibble (crc32_nibble crc b) (b / 16)) bs

-- Bytes may come piece by piece.
pub crc32_update-append :
    (crc : ℕ) (xs ys : List ℕ) → crc32_update crc (xs ++ ys) ≡ crc32_update (crc32_update crc xs) ys
unfolding crc32_update
crc32_update-append crc [] ys = refl
crc32_update-append crc (x ∷ xs) ys =
    crc32_update-append (crc32_nibble (crc32_nibble crc x) (x / 16)) xs ys
