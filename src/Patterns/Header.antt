-- ===== src/Patterns/Header.antt =====
-- The header checks of src/SdManager.cpp. A header is its 18 bytes; `rows` and `cols` are the panel
-- grid that the controller is built for.
use led_display_g6_firmware.Common.{
  ℕ, ◌+◌, ◌*◌, ◌/◌, ◌%◌, Bool, not, List, [], length, get_or, take, drop, ltb, leb, ◌==◌, ◌&&◌,
  ◌||◌, if◌then◌else◌,
}
use led_display_g6_firmware.Common.Bytes.{le16}
use led_display_g6_firmware.Panel.Protocol.{payload_ones}
use led_display_g6_firmware.Panel.Crc.{crc8_autosar, crc16_ccitt_false}
use led_display_g6_firmware.Patterns.Catalog.{
  ce_none, ce_bad_param, ce_sd_not_present, ce_sd_file_error,
}

abbrev pub ce_header_crc : ℕ
ce_header_crc = 6

abbrev pub ce_frame_crc : ℕ
ce_frame_crc = 7

abbrev pub ce_arena_mismatch : ℕ
ce_arena_mismatch = 8

abbrev pub pattern_header_byte_count : ℕ
pattern_header_byte_count = 18

abbrev pub pattern_frame_prefix_byte_count : ℕ
pattern_frame_prefix_byte_count = 4

abbrev pub pattern_frame_crc_byte_count : ℕ
pattern_frame_crc_byte_count = 2

abbrev pub arena_panel_count_max : ℕ
arena_panel_count_max = 48

-- "G6PT"
abbrev pub magic_matches : List ℕ → Bool
magic_matches hdr =
    (get_or hdr 0 0 == 0x47)
    && (get_or hdr 1 0 == 0x36)
    && (get_or hdr 2 0 == 0x50)
    && (get_or hdr 3 0 == 0x54)

abbrev pub frame_count_of : List ℕ → ℕ
frame_count_of hdr = le16 (get_or hdr 6 0) (get_or hdr 7 0)

unfoldable pub validate_header_bytes : List ℕ → ℕ
validate_header_bytes hdr =
    let gs = get_or hdr 10 0 in
    if not (magic_matches hdr)
    then ce_header_crc
    else if not (get_or hdr 4 0 / 16 % 16 == 2)
    then ce_header_crc
    else if not (crc8_autosar (take 17 hdr) == get_or hdr 17 0)
    then ce_header_crc
    else if frame_count_of hdr == 0
    then ce_header_crc
    else if not (gs == 1) && not (gs == 2)
    then ce_header_crc
    else ce_none

-- PatternInfo, as validateHeader fills it.
pub record Info : Type 0 where
  pub frame_count : ℕ
  pub row_count : ℕ
  pub col_count : ℕ
  pub gs_val : ℕ
  pub block_size : ℕ
  pub num_panels : ℕ
  pub frame_size : ℕ

abbrev pub block_size_of : ℕ → ℕ
block_size_of gs = if gs == 1 then 53 else 203

abbrev pub info_of : List ℕ → Info
info_of hdr =
    let gs = get_or hdr 10 0 in
    let num_panels = get_or hdr 8 0 * get_or hdr 9 0 in
    record {
      frame_count = frame_count_of hdr;
      row_count = get_or hdr 8 0;
      col_count = get_or hdr 9 0;
      gs_val = gs;
      block_size = block_size_of gs;
      num_panels = num_panels;
      frame_size =
          pattern_frame_prefix_byte_count
          + num_panels * block_size_of gs
          + pattern_frame_crc_byte_count;
    }

-- The error, and the info that is written when there is none.
unfoldable pub validate_header : ℕ → ℕ → List ℕ → Info → ℕ × Info
validate_header rows cols hdr info =
    let num_panels = get_or hdr 8 0 * get_or hdr 9 0 in
    let mask_bits = payload_ones (take 6 (drop 11 hdr)) in
    if not (validate_header_bytes hdr == ce_none)
    then (validate_header_bytes hdr, info)
    else if (num_panels == 0) || ltb arena_panel_count_max num_panels
    then (ce_arena_mismatch, info)
    else if ltb num_panels mask_bits
    then (ce_arena_mismatch, info)
    else if not (get_or hdr 8 0 == rows) || not (get_or hdr 9 0 == cols)
    then (ce_arena_mismatch, info)
    else (ce_none, info_of hdr)

-- readFrame of frame `frame_index` of an open file with the bytes `file` into a buffer of `dest_cap`
-- bytes; a seek works when the place is in the file.
unfoldable pub read_frame : Bool → Bool → Info → List ℕ → ℕ → ℕ → ℕ × List ℕ
read_frame mounted file_open info file frame_index dest_cap =
    let body_len = pattern_frame_prefix_byte_count + info.num_panels * info.block_size in
    let offset = pattern_header_byte_count + frame_index * info.frame_size in
    let body = take body_len (drop offset file) in
    let crc = take 2 (drop (offset + body_len) file) in
    if not mounted
    then (ce_sd_not_present, [])
    else if not file_open
    then (ce_sd_file_error, [])
    else if leb info.frame_count frame_index
    then (ce_bad_param, [])
    else if ltb dest_cap body_len
    then (ce_bad_param, [])
    else if not (length body == body_len)
    then (ce_sd_file_error, body)
    else if not (length crc == pattern_frame_crc_byte_count)
    then (ce_sd_file_error, body)
    else if not (get_or body 0 0 == 0x46) || not (get_or body 1 0 == 0x52)
    then (ce_frame_crc, body)
    else if not (crc16_ccitt_false body == le16 (get_or crc 0 0) (get_or crc 1 0))
    then (ce_frame_crc, body)
    else (ce_none, body)
