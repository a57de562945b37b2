-- ===== src/Patterns/Opening.antt =====
-- openPattern of src/SdManager.cpp. The card is a function from names to contents; the probe for
-- contiguous clusters, which changes how seeks are done and not what they give, is left out.
use led_display_g6_firmware.Common.{
  ℕ, ◌-◌, Bool, true, false, not, List, [], Option, none, some, length, take, get_or, ltb, ◌==◌,
  ◌&&◌, ◌||◌, if◌then◌else◌,
}
use led_display_g6_firmware.Patterns.Catalog.{
  Name, ce_none, ce_bad_param, ce_sd_not_present, ce_sd_file_error,
}
use led_display_g6_firmware.Patterns.Header.{Info, validate_header, pattern_header_byte_count}

-- The open pattern; `file` is what the open file holds.
pub record Sd : Type 0 where
  pub mounted : Bool
  pub names : List Name
  pub file_open : Bool
  pub open_id : ℕ
  pub info : Info
  pub file : List ℕ
  pub legacy_seek : Bool
  pub applied_legacy_seek : Bool

abbrev pub same_seek : Sd → Bool
same_seek s =
    (s.applied_legacy_seek && s.legacy_seek) || (not s.applied_legacy_seek && not s.legacy_seek)

-- The header of a file that opened is checked.
abbrev pub open_file : ℕ → ℕ → ℕ → List ℕ → Sd → ℕ × Sd
open_file rows cols pattern_id content s =
    let hdr = take pattern_header_byte_count content in
    let v = validate_header rows cols hdr s.info in
    if not (length hdr == pattern_header_byte_count)
    then (ce_sd_file_error, s)
    else if not (v.0 == ce_none)
    then (v.0, record s { info = v.1 })
    else (
      ce_none,
      record s {
        info = v.1;
        applied_legacy_seek = s.legacy_seek;
        file_open = true;
        open_id = pattern_id;
        file = content;
      },
    )

unfoldable pub open_pattern : ℕ → ℕ → (Name → Option (List ℕ)) → ℕ → Sd → ℕ × Sd
open_pattern rows cols files pattern_id s =
    let closed = record s { file_open = false } in
    if not s.mounted
    then (ce_sd_not_present, s)
    else if (pattern_id == 0) || ltb (length s.names) pattern_id
    then (ce_bad_param, s)
    else if s.file_open && ((s.open_id == pattern_id) && same_seek s)
    then (ce_none, s)
    else elim (files (get_or s.names (pattern_id - 1) [])) [
      | none ↦ (ce_sd_file_error, closed)
      | some content ↦ open_file rows cols pattern_id content closed
    ]
