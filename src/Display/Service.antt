-- ===== src/Display/Service.antt =====
-- What serviceDisplay of src/CommandProcessor.cpp does in a round of the loop, and the other commands
-- that change what is displayed. Mode 4 reckons in floating point, and only its effect is modelled:
-- it loads the frame of some index below the number of frames.
use led_display_g6_firmware.Common.{
  ℕ, zero, suc, ◌+◌, ◌-◌, ◌*◌, ◌/◌, ◌%◌, ◌^◌, Bool, true, false, not, List, ◌++◌, Option, none,
  some, length, drop, ltb, leb, ◌==◌, ◌||◌, if◌then◌else◌,
}
use led_display_g6_firmware.Transport.Tx.{expired}
use led_display_g6_firmware.Transfers.Desk.{
  ArenaState, is_off, all_off, all_on, streaming_frame, open_loop, show_frame, closed_loop,
  psram_play, error_display,
}
use led_display_g6_firmware.Display.Buffer.{build_psram_frame, patch_disp_mode}
use led_display_g6_firmware.Display.Player.{
  Board, Moment, Rate, forwards, backwards, Player, panels, arm_refresh_timer, disarm_refresh_timer,
  default_refresh_for, invalidate_frame_buf, fill, transfer_frame, enter_all_off, load_frame,
}

abbrev pub microseconds_per_second : ℕ
microseconds_per_second = 1000000

-- The loop over the whole periods that have passed, at most `limit` of them: how many, and the time
-- of the last.
abbrev pub catch_up : ℕ → ℕ → ℕ → ℕ → ℕ × ℕ
catch_up zero period now last = (0, last)
catch_up (suc limit) period now last =
    let rest = catch_up limit period now ((last + period) % 2 ^ 32) in
    if leb period ((now + 2 ^ 32 - last) % 2 ^ 32) then (suc rest.0, rest.1) else (0, last)

-- The index after so many steps: `idx %= frame_count`, and the count is added below 0.
abbrev pub step_forwards : ℕ → ℕ → ℕ → ℕ
step_forwards count cur steps = (cur + steps) % count

abbrev pub step_backwards : ℕ → ℕ → ℕ → ℕ
step_backwards count cur steps =
    let below = (steps - cur) % count in
    if leb steps cur then (cur - steps) % count else if below == 0 then 0 else count - below

abbrev pub magnitude : Rate → ℕ
magnitude (forwards r) = r
magnitude (backwards r) = r

abbrev pub stepped : Rate → ℕ → ℕ → ℕ → ℕ
stepped (forwards r) count cur steps = step_forwards count cur steps
stepped (backwards r) count cur steps = step_backwards count cur steps

-- serviceOpenLoop, as it chooses the frame: none is loaded when no period has passed.
unfoldable pub open_loop_advance : ℕ → Player → Option (ℕ × ℕ)
open_loop_advance now_us p =
    let period = microseconds_per_second / magnitude p.frame_rate_hz in
    let t = catch_up p.frame_count period (now_us % 2 ^ 32) p.last_advance_us in
    if (magnitude p.frame_rate_hz == 0) || leb p.frame_count 1
    then none
    else if ltb ((now_us % 2 ^ 32 + 2 ^ 32 - p.last_advance_us) % 2 ^ 32) period
    then none
    else some (stepped p.frame_rate_hz p.frame_count p.cur_frame_index t.0, t.1)

unfoldable pub service_open_loop : Board → Moment → Player → Player
service_open_loop b m p = elim (open_loop_advance m.now_us p) [
  | none ↦ p
  | some t ↦ (load_frame b m t.0 (record p { cur_frame_index = t.0; last_advance_us = t.1 })).1
]

-- servicePsramPlay
unfoldable pub service_psram_play : Board → Moment → Player → Player
service_psram_play b m p = elim p.frame_rate_hz [
  | backwards r ↦ p
  | forwards r ↦
      let period = microseconds_per_second / r in
      let t = catch_up p.psram_play_count period (m.now_us % 2 ^ 32) p.last_advance_us in
      let offset = (p.psram_play_offset + t.0) % p.psram_play_count in
      let index = (p.psram_start_index + offset) % 65536 in
      if (r == 0) || leb p.psram_play_count 1
      then p
      else if ltb ((m.now_us % 2 ^ 32 + 2 ^ 32 - p.last_advance_us) % 2 ^ 32) period
      then p
      else fill b (build_psram_frame (panels b) p.panel_disp_mode index)
          (record p { last_advance_us = t.1; psram_play_offset = offset })
]

-- serviceTrialTimer
unfoldable pub service_trial_timer : Board → Moment → Player → Player
service_trial_timer b m p =
    if p.trial_end_ms == 0
    then p
    else if not (expired m.now_ms p.trial_end_ms)
    then p
    else enter_all_off b (record p { trial_end_ms = 0 })

-- transmitOnRefresh, given the refresh flag.
abbrev pub transmit_on_refresh : Board → Bool → Player → Player
transmit_on_refresh b flag p = if flag then transfer_frame b p else p

-- serviceClosedLoop, given the index it chooses, if any.
abbrev pub service_closed_loop : Board → Moment → Option ℕ → Player → Player
service_closed_loop b m choice p = elim choice [
  | none ↦ p
  | some i ↦
      if p.frame_count == 0
      then p
      else (load_frame b m (i % p.frame_count) (record p { cur_frame_index = i % p.frame_count })).1
]

-- The switch of serviceDisplay.
abbrev pub service_state : Board → Moment → Bool → Option ℕ → Player → Player
service_state b m flag choice p = elim p.state [
  | all_off ↦ p
  | all_on ↦ transmit_on_refresh b flag p
  | streaming_frame ↦ transmit_on_refresh b flag p
  | show_frame ↦ transmit_on_refresh b flag p
  | open_loop ↦ transmit_on_refresh b flag (service_open_loop b m p)
  | closed_loop ↦ transmit_on_refresh b flag (service_closed_loop b m choice p)
  | psram_play ↦ transmit_on_refresh b flag (service_psram_play b m p)
  | error_display ↦
      let sent = transmit_on_refresh b flag p in
      if expired m.now_ms sent.error_until_ms then enter_all_off b sent else sent
]

-- serviceDisplay, but for the table of the analogue output.
unfoldable pub service_display : Board → Moment → Bool → Option ℕ → Player → Player
service_display b m flag choice p = service_state b m flag choice (service_trial_timer b m p)

-- handleDisplayPsramIndex of a complete message.
unfoldable pub handle_display_psram_index : Board → Moment → ℕ → Player → Player
handle_display_psram_index b m index p =
    let filled =
      fill b (build_psram_frame (panels b) p.panel_disp_mode index)
        (record p { psram_start_index = index; psram_play_count = 1; psram_play_offset = 0 }) in
    let rate = if p.refresh_rate_explicit then p.refresh_rate_hz else b.refresh_gs16 in
    (arm_refresh_timer m.timer rate
      (record filled { state = psram_play; refresh_rate_hz = rate })).1

-- handlePsramPlay of a complete message.
unfoldable pub handle_psram_play : Board → Moment → ℕ → ℕ → ℕ → Player → Player
handle_psram_play b m start count fps p =
    let filled = fill b (build_psram_frame (panels b) p.panel_disp_mode start) (record p {
      psram_start_index = start;
      psram_play_count = if count == 0 then 1 else count;
      psram_play_offset = 0;
      frame_rate_hz = if ltb fps 32768 then forwards fps else backwards (65536 - fps);
    }) in
    let rate = if p.refresh_rate_explicit then p.refresh_rate_hz else b.refresh_gs16 in
    (arm_refresh_timer m.timer rate
      (record filled { state = psram_play; last_advance_us = m.now_us % 2 ^ 32 })).1

-- case SET_REFRESH_RATE_CMD, and whether it is acknowledged.
unfoldable pub set_refresh_rate : Bool → ℕ → ℕ → Player → Bool × Player
set_refresh_rate timer claimed_len rate p =
    let asked = record p { refresh_rate_hz = rate; refresh_rate_explicit = true } in
    if not (claimed_len == 3)
    then (false, p)
    else if rate == 0
    then (true, p)
    else if is_off p.state
    then (true, asked)
    else arm_refresh_timer timer rate asked

-- case SET_PANEL_DISPLAY_MODE_CMD, and whether the mode is accepted.
unfoldable pub set_panel_display_mode : ℕ → Player → Bool × Player
set_panel_display_mode mode p =
    if ltb 3 mode
    then (false, p)
    else (true, record p { panel_disp_mode = mode; buffer = patch_disp_mode mode p.buffer })

abbrev pub is_streaming : ArenaState → Bool
is_streaming streaming_frame = true
is_streaming _ = false

-- handleStreamCommand with the payload behind the stream header, and whether it is accepted.
abbrev pub stream_block_size : Board → List ℕ → Option ℕ
stream_block_size b payload =
    if length payload == 4 + panels b * 53
    then some 53
    else if length payload == 4 + panels b * 203
    then some 203
    else none

abbrev pub show_stream : Board → Moment → ℕ → List ℕ → Player → Player
show_stream b m size payload p =
    let want = default_refresh_for b size in
    let rate = if p.refresh_rate_explicit then p.refresh_rate_hz else want in
    let copied = record (invalidate_frame_buf p) {
      buffer =
          patch_disp_mode p.panel_disp_mode (record { block_byte_count = size; bytes = payload });
      behind = drop (length payload) (p.buffer.bytes ++ p.behind);
      refresh_rate_hz = rate;
    } in
    if not (is_streaming p.state) || not (rate == p.refresh_rate_hz)
    then (arm_refresh_timer m.timer rate
        (record (disarm_refresh_timer copied) { state = streaming_frame })).1
    else copied

unfoldable pub handle_stream_command : Board → Moment → List ℕ → Player → Bool × Player
handle_stream_command b m payload p = elim (stream_block_size b payload) [
  | none ↦ (false, enter_all_off b p)
  | some size ↦ (true, show_stream b m size payload p)
]
