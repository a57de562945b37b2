-- ===== src/Telemetry/Layout.antt =====
-- src/Telemetry.h: the constants and the stored layout of the ring, and the variables of
-- src/Telemetry.cpp. The record area is a memory indexed by offset: the source's `data` is `area`.
use led_display_g6_firmware.Common.{ℕ, Bool, ◌+◌, ◌*◌, ◌%◌, ◌^◌}
use led_display_g6_firmware.Common.Bytes.{Memory}

abbrev pub ring_base : ℕ
ring_base = 0x2026f000

-- kRingSize less the 32-byte header.
abbrev pub data_size : ℕ
data_size = 65504

abbrev pub ring_magic : ℕ
ring_magic = 0x47365452

abbrev pub ring_version : ℕ
ring_version = 2

abbrev pub heap_guard_bytes : ℕ
heap_guard_bytes = 4096

abbrev pub flag_events_enabled : ℕ
flag_events_enabled = 0x01

abbrev pub flag_synthetic : ℕ
flag_synthetic = 0x80

abbrev pub block_flag_events : ℕ
block_flag_events = 0x01

abbrev pub block_flag_survived_boot : ℕ
block_flag_survived_boot = 0x02

abbrev pub block_flag_heap_collision : ℕ
block_flag_heap_collision = 0x04

abbrev pub block_flag_synthetic : ℕ
block_flag_synthetic = 0x08

-- enum RecordType
abbrev pub rec_pad : ℕ
rec_pad = 0

abbrev pub rec_cmd : ℕ
rec_cmd = 1

abbrev pub rec_frame : ℕ
rec_frame = 2

abbrev pub rec_state : ℕ
rec_state = 3

-- The kinds of enum StateKind that the ring itself records.
abbrev pub st_boot : ℕ
st_boot = 1

abbrev pub st_ring_overrun : ℕ
st_ring_overrun = 5

abbrev pub st_telemetry : ℕ
st_telemetry = 6

abbrev pub st_wdog_context : ℕ
st_wdog_context = 8

abbrev pub st_prev_isr_count : ℕ
st_prev_isr_count = 9

abbrev pub overrun_code_evicted : ℕ
overrun_code_evicted = 0

abbrev pub overrun_code_heap_collision : ℕ
overrun_code_heap_collision = 0xff

abbrev pub synthetic_cmd : ℕ
synthetic_cmd = 0xfe

abbrev pub record_header_len : ℕ
record_header_len = 10

abbrev pub cmd_payload_max : ℕ
cmd_payload_max = 8

abbrev pub cmd_record_len_max : ℕ
cmd_record_len_max = 21

abbrev pub frame_record_len : ℕ
frame_record_len = 26

abbrev pub state_record_len : ℕ
state_record_len = 14

-- Overwrite-oldest bookkeeping: markers are at least this far apart.
abbrev pub evict_episode_gap_us : ℕ
evict_episode_gap_us = 1000000

abbrev pub synth_catch_up_max : ℕ
synth_catch_up_max = 256

-- struct RingHeader
pub record Header : Type 0 where
  pub magic : ℕ
  pub ver : ℕ
  pub flags : ℕ
  pub reserved : ℕ
  pub write_off : ℕ
  pub read_off : ℕ
  pub next_seq : ℕ
  pub dropped : ℕ
  pub boot_count : ℕ
  pub checksum : ℕ

-- The header and the record area, with the file's variables.
pub record Ring : Type 0 where
  pub hdr : Header
  pub area : Memory
  pub ring_ok : Bool
  pub enabled : Bool
  pub kept : Bool
  pub heap_collision : Bool
  pub dropped_reported : ℕ
  pub last_evict_us : ℕ
  pub evicted_ever : Bool
  pub synth_on : Bool
  pub synth_rate : ℕ
  pub synth_period_us : ℕ
  pub synth_last_us : ℕ
  pub synth_counter : ℕ

-- What an operation reads of its surroundings: the heap break `__brkval`, and `micros()` when a
-- record is built and when its eviction is looked at.
pub record Env : Type 0 where
  pub brk : ℕ
  pub built_us : ℕ
  pub now_us : ℕ

-- computeCheck: the sum of the seven words, the second of which packs ver, flags and reserved.
unfoldable pub compute_check : Header → ℕ
compute_check h =
    (h.magic
      + (h.ver + 256 * h.flags + 65536 * h.reserved)
      + h.write_off
      + h.read_off
      + h.next_seq
      + h.dropped
      + h.boot_count)
    % 2 ^ 32

-- sealHeader, without the cache flush.
abbrev pub seal_header : Header → Header
seal_header h = record h { checksum = compute_check h }
