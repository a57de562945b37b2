-- ===== src/Panel/Protocol.antt =====
-- src/G6PanelProtocol.h: the parity bit of a message and the block that shows a stored frame. A
-- message is the list of its bytes.
use led_display_g6_firmware.Common.{
  ℕ, zero, suc, ◌+◌, ◌*◌, ◌/◌, ◌%◌, Bool, false, List, [], ◌∷◌, ltb, ◌==◌, if◌then◌else◌, bit_or,
}

abbrev pub header_version_v1 : ℕ
header_version_v1 = 0x01

abbrev pub header_version_v2 : ℕ
header_version_v2 = 0x02

abbrev pub cmd_disp_16lvl_oneshot : ℕ
cmd_disp_16lvl_oneshot = 0x30

-- A mode out of range falls back to persist.
unfoldable pub disp_opcode_with_mode : ℕ → ℕ → ℕ
disp_opcode_with_mode base mode = bit_or base (if ltb mode 4 then mode else 1)

-- The ones among the lowest bits; the source calls the compiler's popcount.
abbrev pub ones : ℕ → ℕ → ℕ
ones zero b = 0
ones (suc bits) b = b % 2 + ones bits (b / 2)

abbrev pub popcount : ℕ → ℕ
popcount b = ones 8 b

abbrev pub payload_ones : List ℕ → ℕ
payload_ones [] = 0
payload_ones (b ∷ bs) = popcount b + payload_ones bs

-- The header counts without its own parity bit.
unfoldable pub compute_parity_bit : ℕ → ℕ → List ℕ → ℕ
compute_parity_bit version_byte cmd payload =
    (popcount (version_byte % 128) + popcount cmd + payload_ones payload) % 2

unfoldable pub validate_parity : List ℕ → Bool
validate_parity (header ∷ cmd ∷ payload) = compute_parity_bit header cmd payload == header / 128 % 2
validate_parity msg = false

-- The sum is the source's `version | (p << 7)`: the version has seven bits.
unfoldable pub stamp_header_parity : List ℕ → List ℕ
stamp_header_parity (header ∷ cmd ∷ payload) =
    (header % 128 + compute_parity_bit (header % 128) cmd payload * 128) ∷ cmd ∷ payload
stamp_header_parity msg = msg

-- The block, whose length is what the source returns.
unfoldable pub build_psram_index_block : ℕ → ℕ → ℕ → List ℕ
build_psram_index_block index cmd_id duty = stamp_header_parity (
    header_version_v2
    ∷ cmd_id
    ∷ index % 256
    ∷ index / 256 % 256
    ∷ (if cmd_id / 16 == 6 then duty ∷ [] else []))
