-- ===== src/Display/Player.antt =====
-- The display state of src/CommandProcessor.cpp and the functions that change it. The bookkeeping
-- for telemetry and health is left out; what the surroundings give in a call is a Moment.
use led_display_g6_firmware.Common.{
  ℕ, ◌+◌, ◌-◌, ◌*◌, ◌/◌, ◌%◌, ◌^◌, Bool, true, false, not, List, [], ◌++◌, Option, length, take,
  drop, get_or, replicate, ltb, leb, ◌==◌, ◌&&◌, ◌||◌, if◌then◌else◌,
}
use led_display_g6_firmware.Panel.Frame.{build_error_frame}
use led_display_g6_firmware.Patterns.Catalog.{Name, ce_none, ce_bad_param}
use led_display_g6_firmware.Patterns.Header.{read_frame}
use led_display_g6_firmware.Patterns.Opening.{Sd, open_pattern}
use led_display_g6_firmware.Transport.Tx.{deadline_after}
use led_display_g6_firmware.Transfers.Desk.{ArenaState, all_off, all_on, show_frame, error_display}
use led_display_g6_firmware.Display.Buffer.{
  Buffer, block_byte_count_gs2, block_byte_count_gs16, fill_frame_buffer_all_on,
  fill_frame_buffer_dark, patch_disp_mode, patch_trial_duty,
}

-- What the firmware is built for: the panel grid and the default refresh rates.
pub record Board : Type 0 where
  pub rows : ℕ
  pub cols : ℕ
  pub refresh_gs2 : ℕ
  pub refresh_gs16 : ℕ

abbrev pub panels : Board → ℕ
panels b = b.rows * b.cols

-- The times, the card, whether the converter takes a level and whether a timer is free.
pub record Moment : Type 0 where
  pub now_ms : ℕ
  pub now_us : ℕ
  pub files : Name → Option (List ℕ)
  pub dac : Bool
  pub timer : Bool

-- A frame rate, which has a sign.
pub data Rate : Type 0 where
  forwards : ℕ → Rate
  backwards : ℕ → Rate

-- `behind` is the part of frame_buf_ behind the frame_byte_count_ bytes of `buffer`; `shown` is what
-- was last sent to the panels; armed_hz is SpiManager's.
pub record Player : Type 0 where
  pub state : ArenaState
  pub pattern_id : ℕ
  pub frame_count : ℕ
  pub cur_frame_index : ℕ
  pub frame_rate_hz : Rate
  pub buffer : Buffer
  pub behind : List ℕ
  pub frame_buf_is_frame : Bool
  pub sd_cache_ok : Bool
  pub sd_skip_same_index : Bool
  pub panel_disp_mode : ℕ
  pub trial_duty : ℕ
  pub trial_end_ms : ℕ
  pub error_until_ms : ℕ
  pub refresh_rate_hz : ℕ
  pub refresh_rate_explicit : Bool
  pub last_advance_us : ℕ
  pub psram_start_index : ℕ
  pub psram_play_count : ℕ
  pub psram_play_offset : ℕ
  pub ao_mode : ℕ
  pub ao_lut : List ℕ
  pub ao_lut_mode : ℕ
  pub ao_mv : ℕ
  pub armed_hz : ℕ
  pub shown : Buffer
  pub sd : Sd

-- SpiManager::armRefreshTimer, and whether it succeeded.
unfoldable pub arm_refresh_timer : Bool → ℕ → Player → Bool × Player
arm_refresh_timer timer hz p =
    if hz == 0
    then (false, p)
    else if p.armed_hz == hz
    then (true, p)
    else if not (p.armed_hz == 0)
    then (true, record p { armed_hz = hz })
    else if not timer
    then (false, record p { armed_hz = 0 })
    else (true, record p { armed_hz = hz })

abbrev pub disarm_refresh_timer : Player → Player
disarm_refresh_timer p = record p { armed_hz = 0 }

abbrev pub default_refresh_for : Board → ℕ → ℕ
default_refresh_for b size = if size == block_byte_count_gs2 then b.refresh_gs2 else b.refresh_gs16

abbrev pub invalidate_frame_buf : Player → Player
invalidate_frame_buf p = record p { frame_buf_is_frame = false; sd_cache_ok = false }

abbrev pub frame_buf_size : Board → ℕ
frame_buf_size b = 4 + panels b * block_byte_count_gs16

-- The whole buffer is cleared and filled.
abbrev pub fill : Board → Buffer → Player → Player
fill b buffer p = record (invalidate_frame_buf p) {
  buffer = buffer;
  behind = replicate (frame_buf_size b - length buffer.bytes) 0;
}

-- SpiManager::transferFrame, with its guard on the size of a block.
unfoldable pub transfer_frame : Board → Player → Player
transfer_frame b p =
    let size = p.buffer.block_byte_count in
    if (size == 53) || ((size == 203) || ((size == 4) || (size == 5)))
    then record p {
      shown = record {
        block_byte_count = size;
        bytes = take (4 + panels b * size) (p.buffer.bytes ++ p.behind);
      };
    }
    else p

unfoldable pub enter_all_off : Board → Player → Player
enter_all_off b p =
    let dark = fill b (fill_frame_buffer_dark (panels b)) (disarm_refresh_timer p) in
    let sent = transfer_frame b (transfer_frame b (transfer_frame b dark)) in
    record sent {
      state = all_off;
      buffer = record sent.buffer { bytes = [] };
      behind = sent.buffer.bytes ++ sent.behind;
      trial_duty = 0;
    }

unfoldable pub enter_all_on : Board → Moment → Player → Player
enter_all_on b m p =
    let rate = if p.refresh_rate_explicit then p.refresh_rate_hz else b.refresh_gs16 in
    let buffer = fill_frame_buffer_all_on (panels b) p.panel_disp_mode block_byte_count_gs16 in
    let filled = fill b buffer (disarm_refresh_timer p) in
    (arm_refresh_timer m.timer rate (record filled { state = all_on; refresh_rate_hz = rate })).1

abbrev pub error_display_hold_ms : ℕ
error_display_hold_ms = 750

unfoldable pub show_error : Board → Moment → ℕ → Player → Player
show_error b m code p =
    let buffer : Buffer = record {
      block_byte_count = block_byte_count_gs16;
      bytes = build_error_frame code (panels b);
    } in
    let rate =
      if p.refresh_rate_explicit
      then p.refresh_rate_hz
      else default_refresh_for b block_byte_count_gs16 in
    (arm_refresh_timer m.timer rate (record (invalidate_frame_buf (disarm_refresh_timer p)) {
      buffer = buffer;
      behind = drop (length buffer.bytes) (p.buffer.bytes ++ p.behind);
      state = error_display;
      error_until_ms = deadline_after m.now_ms error_display_hold_ms;
    })).1

abbrev pub write_dac_mv : Bool → ℕ → Player → Bool × Player
write_dac_mv dac mv p = if dac then (true, record p { ao_mv = mv }) else (false, p)

-- The analogue output that follows the frame.
abbrev pub derive_outputs : Bool → ℕ → Player → Bool × Player
derive_outputs dac frame_index p =
    if p.ao_mode == 1
    then write_dac_mv dac
        (if ltb 1 p.frame_count then frame_index * 5000 / (p.frame_count - 1) % 65536 else 0) p
    else if not (length p.ao_lut == 0) && (p.ao_lut_mode == 0)
    then write_dac_mv dac (get_or p.ao_lut (frame_index % length p.ao_lut) 0) p
    else (true, p)

-- The frame that was read, with the size of a block that is set, and patched.
abbrev pub loaded_buffer : Player → List ℕ → Buffer
loaded_buffer p body =
    let count = 4 + p.sd.info.num_panels * p.buffer.block_byte_count in
    patch_trial_duty p.trial_duty (
      patch_disp_mode p.panel_disp_mode (record p.buffer {
        bytes = take count (body ++ drop (length body) (p.buffer.bytes ++ p.behind));
      }))

-- loadFrame, and whether it succeeded.
unfoldable pub load_frame : Board → Moment → ℕ → Player → Bool × Player
load_frame b m frame_index p =
    let r =
      read_frame p.sd.mounted p.sd.file_open p.sd.info p.sd.file frame_index (frame_buf_size b) in
    let count = 4 + p.sd.info.num_panels * p.buffer.block_byte_count in
    let loaded = record p {
      buffer = loaded_buffer p r.1;
      behind = drop count (r.1 ++ drop (length r.1) (p.buffer.bytes ++ p.behind));
      frame_buf_is_frame = true;
    } in
    let out = derive_outputs m.dac frame_index loaded in
    if not (r.0 == ce_none)
    then (false, show_error b m r.0 (record p { frame_buf_is_frame = false }))
    else (true, record out.1 { sd_cache_ok = out.0 })

abbrev pub duration_tick_ms : ℕ
duration_tick_ms = 10

-- A trial as TRIAL_PARAMS asks for it.
pub record Trial : Type 0 where
  pub mode : ArenaState
  pub pattern_id : ℕ
  pub frame_rate_hz : Rate
  pub init_frame : ℕ
  pub duration_ticks : ℕ

-- The part of enterPatternMode behind openPattern.
abbrev pub start_trial : Board → Moment → Trial → Player → Bool × Player
start_trial b m t p =
    let info = p.sd.info in
    let first = if ltb 0 info.frame_count then t.init_frame % info.frame_count else 0 in
    let opened = record p {
      pattern_id = t.pattern_id;
      frame_count = info.frame_count;
      buffer = record p.buffer { block_byte_count = info.block_size };
      frame_rate_hz = t.frame_rate_hz;
      cur_frame_index = first;
    } in
    let l = load_frame b m first opened in
    let rate =
      if p.refresh_rate_explicit
      then p.refresh_rate_hz
      else default_refresh_for b info.block_size in
    let ready = record l.1 {
      refresh_rate_hz = rate;
      last_advance_us = m.now_us % 2 ^ 32;
      trial_end_ms =
          if t.duration_ticks == 0
          then 0
          else deadline_after m.now_ms (t.duration_ticks * duration_tick_ms);
      state = t.mode;
    } in
    let armed = arm_refresh_timer m.timer rate ready in
    if not l.0
    then (false, l.1)
    else if not armed.0
    then (false, enter_all_off b armed.1)
    else (true, armed.1)

unfoldable pub enter_pattern_mode : Board → Moment → Trial → Player → Bool × Player
enter_pattern_mode b m t p =
    let left = invalidate_frame_buf (disarm_refresh_timer p) in
    let o = open_pattern b.rows b.cols m.files t.pattern_id p.sd in
    if not (o.0 == ce_none)
    then (false, show_error b m o.0 (record left { sd = o.1 }))
    else start_trial b m t (record left { sd = o.1 })

-- handleTrialParams of a complete message in a mode of 2, 3 or 4 without a transfer under way.
unfoldable pub handle_trial_params : Board → Moment → Trial → ℕ → Player → Bool × Player
handle_trial_params b m t duty p =
    let r = enter_pattern_mode b m t (record p { trial_duty = duty }) in
    if r.0 then r else (false, record r.1 { trial_duty = 0 })

-- The frame is in the buffer already and is shown.
abbrev pub is_show_frame : ArenaState → Bool
is_show_frame show_frame = true
is_show_frame _ = false

abbrev pub refresh_armed_at : ℕ → Player → Bool
refresh_armed_at hz p = (p.armed_hz == hz) && not (hz == 0)

abbrev pub can_skip : ℕ → Player → Bool
can_skip index p =
    p.sd_skip_same_index
    && (is_show_frame p.state
        && (p.frame_buf_is_frame
            && (p.sd_cache_ok
                && ((index == p.cur_frame_index) && refresh_armed_at p.refresh_rate_hz p))))

-- handleSetFramePosition of a complete message, and whether it was acknowledged.
unfoldable pub handle_set_frame_position : Board → Moment → ℕ → Player → Bool × Player
handle_set_frame_position b m index p =
    let l = load_frame b m index (record p { cur_frame_index = index }) in
    let rate =
      if l.1.refresh_rate_explicit
      then l.1.refresh_rate_hz
      else default_refresh_for b l.1.buffer.block_byte_count in
    let ready = record l.1 { state = show_frame; refresh_rate_hz = rate } in
    let armed = arm_refresh_timer m.timer rate ready in
    if not p.sd.file_open
    then (false, show_error b m ce_bad_param p)
    else if leb p.frame_count index
    then (false, show_error b m ce_bad_param p)
    else if can_skip index p
    then (true, p)
    else if not l.0
    then (false, l.1)
    else if refresh_armed_at rate ready
    then (true, ready)
    else armed
