-- ===== src/Display/Buffer.antt =====
-- The functions of src/CommandProcessor.cpp that write the frame buffer or patch it. The buffer is
-- the list of its first frame_byte_count_ bytes.
use led_display_g6_firmware.Common.{
  ℕ, zero, suc, ◌-◌, ◌/◌, ◌%◌, Bool, not, List, ◌∷◌, ◌++◌, length, take, drop, set, replicate, leb,
  ◌==◌, ◌&&◌, ◌||◌, if◌then◌else◌, bit_and,
}
use led_display_g6_firmware.Panel.Protocol.{
  stamp_header_parity, disp_opcode_with_mode, build_psram_index_block, header_version_v1,
  cmd_disp_16lvl_oneshot,
}
use led_display_g6_firmware.Panel.Frame.{blocks}

abbrev pub block_byte_count_gs2 : ℕ
block_byte_count_gs2 = 53

abbrev pub block_byte_count_gs16 : ℕ
block_byte_count_gs16 = 203

abbrev pub block_byte_count_psram : ℕ
block_byte_count_psram = 4

abbrev pub cmd_disp_2lvl_oneshot : ℕ
cmd_disp_2lvl_oneshot = 0x10

abbrev pub cmd_disp_2lvl_persist : ℕ
cmd_disp_2lvl_persist = 0x11

abbrev pub cmd_disp_psram_oneshot : ℕ
cmd_disp_psram_oneshot = 0x50

-- A frame buffer: block_byte_count_ and the bytes, which frame_byte_count_ counts.
pub record Buffer : Type 0 where
  pub block_byte_count : ℕ
  pub bytes : List ℕ

unfoldable pub disp_opcode_for : Bool → ℕ → ℕ
disp_opcode_for gs16 mode =
    disp_opcode_with_mode (if gs16 then cmd_disp_16lvl_oneshot else cmd_disp_2lvl_oneshot) mode

abbrev pub all_on_block : ℕ → ℕ → List ℕ
all_on_block size cmd = stamp_header_parity (header_version_v1 ∷ cmd ∷ replicate (size - 2) 0xff)

-- fillFrameBufferAllOn for so many panels in a display mode
unfoldable pub fill_frame_buffer_all_on : ℕ → ℕ → ℕ → Buffer
fill_frame_buffer_all_on panels mode size = record {
  block_byte_count = size;
  bytes =
      0x46
      ∷ 0x52
      ∷ 0
      ∷ 0
      ∷ blocks panels (all_on_block size (disp_opcode_for (size == block_byte_count_gs16) mode));
}

abbrev pub dark_block : List ℕ
dark_block =
    stamp_header_parity
      (header_version_v1 ∷ cmd_disp_2lvl_persist ∷ replicate (block_byte_count_gs2 - 2) 0)

-- fillFrameBufferDark
unfoldable pub fill_frame_buffer_dark : ℕ → Buffer
fill_frame_buffer_dark panels = record {
  block_byte_count = block_byte_count_gs2;
  bytes = 0x46 ∷ 0x52 ∷ 0 ∷ 0 ∷ blocks panels dark_block;
}

-- buildPsramFrame
unfoldable pub build_psram_frame : ℕ → ℕ → ℕ → Buffer
build_psram_frame panels mode index = record {
  block_byte_count = block_byte_count_psram;
  bytes =
      0x46
      ∷ 0x52
      ∷ index % 256
      ∷ index / 256 % 256
      ∷ blocks panels
          (build_psram_index_block index (disp_opcode_with_mode cmd_disp_psram_oneshot mode) 0);
}

-- The loop over the blocks behind the prefix, of which the last bytes may be none's.
abbrev pub patch_blocks : (List ℕ → List ℕ) → ℕ → ℕ → List ℕ → List ℕ
patch_blocks f size zero bs = bs
patch_blocks f size (suc n) bs = f (take size bs) ++ patch_blocks f size n (drop size bs)

abbrev pub patch_buffer : (List ℕ → List ℕ) → Buffer → Buffer
patch_buffer f b =
    let count = (length b.bytes - 4) / b.block_byte_count in
    if (b.block_byte_count == 0) || leb (length b.bytes) 4 then b else record b {
      bytes = take 4 b.bytes ++ patch_blocks f b.block_byte_count count (drop 4 b.bytes);
    }

-- The opcode keeps its family.
abbrev pub set_mode : ℕ → List ℕ → List ℕ
set_mode mode (header ∷ cmd ∷ payload) =
    stamp_header_parity (header ∷ disp_opcode_with_mode (bit_and cmd 0xfc) mode ∷ payload)
set_mode mode block = block

unfoldable pub patch_disp_mode : ℕ → Buffer → Buffer
patch_disp_mode mode b = patch_buffer (set_mode mode) b

abbrev pub set_duty : ℕ → ℕ → List ℕ → List ℕ
set_duty duty size block = stamp_header_parity (set block (size - 1) duty)

unfoldable pub patch_trial_duty : ℕ → Buffer → Buffer
patch_trial_duty duty b =
    if duty == 0
    then b
    else if not (b.block_byte_count == block_byte_count_gs2)
        && not (b.block_byte_count == block_byte_count_gs16)
    then b
    else patch_buffer (set_duty duty b.block_byte_count) b
