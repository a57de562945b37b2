-- ===== src/Telemetry/Producers.antt =====
-- src/Telemetry.cpp: the heap guard and the producers.
use led_display_g6_firmware.Common.{
  ℕ, zero, suc, ◌+◌, ◌-◌, ◌/◌, ◌%◌, ◌^◌, Bool, true, false, not, ◌&&◌, ◌||◌, List, ltb, leb, ◌==◌,
  if◌then◌else◌, bit_and, bit_or, Option, none, some,
}
use led_display_g6_firmware.Telemetry.Layout.{
  Ring, Env, ring_base, flag_events_enabled, flag_synthetic, st_ring_overrun, st_telemetry,
  overrun_code_evicted, overrun_code_heap_collision, evict_episode_gap_us, synth_catch_up_max,
  seal_header,
}
use led_display_g6_firmware.Telemetry.Ring.{heap_too_close, append_raw}
use led_display_g6_firmware.Telemetry.Record.{
  build_state, build_cmd, build_frame, build_synthetic, FrameShown,
}

-- The marker that the ring was disabled, left while the header can still be written.
abbrev pub overrun_marker : Ring → Env → Ring
overrun_marker t e =
    let marked =
      (append_raw t (build_state e.now_us st_ring_overrun overrun_code_heap_collision 0)).0 in
    record marked {
      hdr = seal_header (record marked.hdr { flags = bit_and marked.hdr.flags 0xfe });
    }

-- tripHeapGuard
unfoldable pub trip_heap_guard : Ring → Env → Ring
trip_heap_guard t e =
    let noted = record t { heap_collision = true } in
    let marked = if ltb e.brk ring_base then overrun_marker noted e else noted in
    record marked { enabled = false; synth_on = false; ring_ok = false }

-- A new eviction episode: none was seen yet, or the last is long enough ago.
abbrev pub new_episode : Ring → Env → Bool
new_episode t e =
    not t.evicted_ever || leb evict_episode_gap_us ((e.now_us + 2 ^ 32 - t.last_evict_us) % 2 ^ 32)

-- Records evicted since the last marker.
abbrev pub since_marker : Ring → ℕ
since_marker t = (t.hdr.dropped + 2 ^ 32 - t.dropped_reported) % 2 ^ 32

-- The marker of an episode.
abbrev pub evicted_marker : Ring → Env → Ring
evicted_marker t e =
    let marked =
      (append_raw t (
        build_state e.now_us st_ring_overrun overrun_code_evicted
          (if ltb 0xffff (since_marker t) then 0xffff else since_marker t))).0 in
    record marked { dropped_reported = marked.hdr.dropped }

-- append
unfoldable pub append : Ring → Env → List ℕ → Ring
append t e rec =
    if heap_too_close e
    then trip_heap_guard t e
    else let out = append_raw t rec in
      if out.1 == 0
      then out.0
      else let marked = if new_episode out.0 e then evicted_marker out.0 e else out.0 in
        record marked { evicted_ever = true; last_evict_us = e.now_us }

-- cmd, frame and state: no-ops while events are disabled.
unfoldable pub cmd : Ring → Env → ℕ → ℕ → ℕ → List ℕ → Ring
cmd t e t_rx_us cmd_byte status req =
    if t.enabled then append t e (build_cmd t_rx_us cmd_byte status req) else t

unfoldable pub frame : Ring → Env → FrameShown → Ring
frame t e f = if t.enabled then append t e (build_frame f) else t

unfoldable pub state : Ring → Env → ℕ → ℕ → ℕ → Ring
state t e kind code arg = if t.enabled then append t e (build_state e.built_us kind code arg) else t

-- The loop of service, with the rounds left of the catch-up limit.
unfoldable pub synth_rounds : ℕ → Ring → Env → Ring
synth_rounds zero t e = t
synth_rounds (suc left) t e =
    let due = (t.synth_last_us + t.synth_period_us) % 2 ^ 32 in
    let made =
      append (record t { synth_last_us = due; synth_counter = (t.synth_counter + 1) % 2 ^ 32 }) e
        (build_synthetic due t.synth_counter) in
    let rest = synth_rounds left made e in
    if ltb ((e.built_us + 2 ^ 32 - t.synth_last_us) % 2 ^ 32) t.synth_period_us
    then t
    else if not made.ring_ok
    then made
    else if left == 0
    then record made { synth_last_us = e.built_us }
    else rest

-- service; `now` of the source is `built_us`.
unfoldable pub service : Ring → Env → Ring
service t e =
    if not t.ring_ok
    then t
    else if heap_too_close e
    then trip_heap_guard t e
    else if not t.synth_on
    then t
    else synth_rounds synth_catch_up_max t e

-- configure, in its three parts: events on; rate and producer; events off. A negative rate is
-- `none`.
abbrev pub events_on : Ring → Bool → Ring
events_on t on =
    if on && not t.enabled
    then record t {
      enabled = true;
      hdr = seal_header (record t.hdr { flags = bit_or t.hdr.flags flag_events_enabled });
    }
    else t

abbrev pub new_rate : Ring → Option ℕ → ℕ
new_rate t none = t.synth_rate
new_rate t (some hz) = if ltb 0xffff hz then 0xffff else hz

abbrev pub set_synth : Ring → Bool → Option ℕ → ℕ → Ring
set_synth t synth rate_hz now =
    let rate = new_rate t rate_hz in
    record t {
      synth_rate = rate;
      synth_on = synth && ltb 0 rate;
      synth_period_us = if synth && ltb 0 rate then 1000000 / rate else 0;
      synth_last_us = now;
      synth_counter = 0;
    }

abbrev pub events_off : Ring → Bool → Ring
events_off t on =
    if not on && t.enabled
    then record t {
      enabled = false;
      hdr = seal_header (record t.hdr { flags = bit_and t.hdr.flags 0xfe });
    }
    else t

unfoldable pub configure : Ring → Env → ℕ → Option ℕ → Ring
configure t e flags rate_hz =
    if not t.ring_ok
    then t
    else if heap_too_close e
    then trip_heap_guard t e
    else let on = not (bit_and flags flag_events_enabled == 0) in
      let synth = not (bit_and flags flag_synthetic == 0) in
      let set = set_synth (events_on t on) synth rate_hz e.built_us in
      events_off (state set e st_telemetry flags set.synth_rate) on
