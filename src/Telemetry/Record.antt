-- ===== src/Telemetry/Record.antt =====
-- src/Telemetry.cpp: the records as they are built. The four sequence bytes, which the source
-- leaves unset until appendRaw stamps them, are 0 here.
pub use led_display_g6_firmware.Common.Bytes.{bytes16, bytes32}
use led_display_g6_firmware.Common.{ℕ, ◌+◌, List, [], ◌∷◌, ◌++◌, length, take, ltb, if◌then◌else◌}
use led_display_g6_firmware.Telemetry.Layout.{
  rec_cmd, rec_frame, rec_state, record_header_len, cmd_payload_max, frame_record_len,
  state_record_len, synthetic_cmd,
}

abbrev pub record_header : ℕ → ℕ → ℕ → List ℕ
record_header len type t_us = len ∷ type ∷ 0 ∷ 0 ∷ 0 ∷ 0 ∷ bytes32 t_us

-- buildState
unfoldable pub build_state : ℕ → ℕ → ℕ → ℕ → List ℕ
build_state t_us kind code arg =
    record_header state_record_len rec_state t_us ++ (kind ∷ code ∷ bytes16 arg)

-- The request bytes that a CMD record keeps.
abbrev pub kept_len : ℕ → ℕ
kept_len n = if ltb cmd_payload_max n then cmd_payload_max else n

-- The record of `cmd`: `req` holds the `req_len` bytes passed.
unfoldable pub build_cmd : ℕ → ℕ → ℕ → List ℕ → List ℕ
build_cmd t_rx_us cmd_byte status req =
    record_header (record_header_len + 3 + kept_len (length req)) rec_cmd t_rx_us
    ++ (cmd_byte ∷ status ∷ kept_len (length req) ∷ take (kept_len (length req)) req)

pub record FrameShown : Type 0 where
  pub t_us : ℕ
  pub idx : ℕ
  pub pattern_id : ℕ
  pub sd_load_us : ℕ
  pub spi_us : ℕ
  pub req_age_us : ℕ
  pub superseded : ℕ
  pub flags : ℕ

-- The record of `frame`.
unfoldable pub build_frame : FrameShown → List ℕ
build_frame f =
    record_header frame_record_len rec_frame f.t_us
    ++ (bytes16 f.idx
        ++ (bytes16 f.pattern_id
            ++ (bytes32 f.sd_load_us
                ++ (bytes16 (if ltb 0xffff f.spi_us then 0xffff else f.spi_us)
                    ++ (bytes32 f.req_age_us ++ (f.superseded ∷ f.flags ∷ []))))))

-- The record of the synthetic producer.
unfoldable pub build_synthetic : ℕ → ℕ → List ℕ
build_synthetic t_us counter =
    record_header 17 rec_cmd t_us ++ (synthetic_cmd ∷ 0 ∷ 4 ∷ bytes32 counter)
