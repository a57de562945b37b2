-- ===== src/Display/Tests.antt =====
-- Runs of the display at small inputs, and the theorems at inputs that meet their hypotheses.
use led_display_g6_firmware.Common.{
  ◌∷◌, ◌+◌, ◌*◌, ◌/◌, ◌%◌, ◌^◌, ◌≡◌, refl, true, false, [], none, some, arith, min, ltb,
  if◌then◌else◌,
}
use led_display_g6_firmware.Transfers.Desk.{all_off, show_frame}
use led_display_g6_firmware.Panel.Bitwise.{AllBytes}
use led_display_g6_firmware.Display.Patching.{Patched, patch_disp_mode-Patched}
use led_display_g6_firmware.Display.Buffer.{Buffer, patch_disp_mode, fill_frame_buffer_dark}
use led_display_g6_firmware.Display.Blocks.{fill_dark-Shows}
use led_display_g6_firmware.Display.Player.{
  Board, Moment, Player, Trial, forwards, backwards, enter_all_off, enter_all_on,
  handle_trial_params,
}
use led_display_g6_firmware.Display.Service.{open_loop_advance, magnitude, microseconds_per_second}
use led_display_g6_firmware.Display.Advancing.{since, advanced, open_loop_advance-advanced}
use led_display_g6_firmware.Display.Holding.{Base, Lit, enter_all_off-Lit}
use led_display_g6_firmware.Display.Stepping.{here, next, light, trial, Reach-Lit}

abbrev board : Board
board = record { rows = 1; cols = 2; refresh_gs2 = 1000; refresh_gs16 = 300 }

abbrev moment : Moment
moment = record { now_ms = 7; now_us = 7000; files = λ _. none; dac = true; timer = true }

-- A card without patterns, and the dark frame on the panels.
abbrev booted : Player
booted = record {
  state = all_off;
  pattern_id = 0;
  frame_count = 0;
  cur_frame_index = 0;
  frame_rate_hz = forwards 0;
  buffer = fill_frame_buffer_dark 2;
  behind = [];
  frame_buf_is_frame = false;
  sd_cache_ok = false;
  sd_skip_same_index = true;
  panel_disp_mode = 1;
  trial_duty = 0;
  trial_end_ms = 0;
  error_until_ms = 0;
  refresh_rate_hz = 300;
  refresh_rate_explicit = false;
  last_advance_us = 0;
  psram_start_index = 0;
  psram_play_count = 1;
  psram_play_offset = 0;
  ao_mode = 0;
  ao_lut = [];
  ao_lut_mode = 0;
  ao_mv = 0;
  armed_hz = 0;
  shown = fill_frame_buffer_dark 2;
  sd = record {
    mounted = true;
    names = [];
    file_open = false;
    open_id = 0;
    info = record {
      frame_count = 0;
      row_count = 0;
      col_count = 0;
      gs_val = 0;
      block_size = 0;
      num_panels = 0;
      frame_size = 0;
    };
    file = [];
    legacy_seek = false;
    applied_legacy_seek = false;
  };
}

booted-Base : Base board booted
booted-Base = record {
  shows = fill_dark-Shows 2;
  file = λ e. absurd (ground (arith, e));
  index = λ h. absurd (omega (arith, h));
}

-- All panels are lit, and a trial of a pattern that is not there is asked for.
abbrev dark : Player
dark = enter_all_off board booted

abbrev lit : Player
lit = enter_all_on board moment dark

abbrev asked : Trial
asked = record {
  mode = show_frame;
  pattern_id = 3;
  frame_rate_hz = forwards 0;
  init_frame = 0;
  duration_ticks = 0;
}

Reach-Lit_example : Lit board (handle_trial_params board moment asked 9 lit).1
Reach-Lit_example =
    Reach-Lit (omega arith) (enter_all_off-Lit board booted booted-Base)
      (next (next here (light moment dark)) (trial moment asked 9 lit refl))

-- Frame 1 of 5 is shown, backwards at 100 frames per second, and 35 ms have passed.
abbrev backward : Player
backward = record booted {
  frame_count = 5;
  cur_frame_index = 1;
  frame_rate_hz = backwards 100;
  last_advance_us = 4294967000;
}

went_back : open_loop_advance 34704 backward ≡ some (3, 29704)
unfolding open_loop_advance
went_back = refl

open_loop_advance-advanced_example :
    let period = microseconds_per_second / magnitude backward.frame_rate_hz in
    let elapsed = since (34704 % 2 ^ 32) backward.last_advance_us in
    let steps = min backward.frame_count (elapsed / period) in
    open_loop_advance 34704 backward ≡ (
      if ltb elapsed period
      then none
      else some (
        advanced backward.frame_rate_hz backward.frame_count backward.cur_frame_index steps,
        (backward.last_advance_us + steps * period) % 2 ^ 32,
      ))
open_loop_advance-advanced_example =
    open_loop_advance-advanced 34704 backward (omega arith) (omega arith) (omega arith)
      (omega arith) (omega arith)

-- A panel is shown frame 3 of its store; the mode becomes 2.
abbrev stored_three : Buffer
stored_three = record { block_byte_count = 4; bytes = 0x46 ∷ 0x52 ∷ 3 ∷ 0 ∷ 2 ∷ 0x51 ∷ 3 ∷ 0 ∷ [] }

stored_three-AllBytes : AllBytes stored_three.bytes
stored_three-AllBytes = (
  omega arith,
  (
    omega arith,
    (omega arith, (omega arith, (omega arith, (omega arith, (omega arith, (omega arith, refl)))))),
  ),
)

patch_disp_mode-Patched_example : Patched 2 1 stored_three (patch_disp_mode 2 stored_three)
patch_disp_mode-Patched_example =
    patch_disp_mode-Patched 2 1 stored_three (omega arith) (omega arith)
      (record { block = omega arith; size = refl }) stored_three-AllBytes
