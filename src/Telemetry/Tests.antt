-- ===== src/Telemetry/Tests.antt =====
-- Runs of the telemetry ring at small inputs, and the theorems at inputs that meet their
-- hypotheses.
use led_display_g6_firmware.Common.{
  ℕ, ◌≤◌, length, ◌≡◌, refl, sym, inr, true, false, List, [], ◌∷◌, some, arith,
}
use led_display_g6_firmware.Common.Bytes.{Memory, poke}
use led_display_g6_firmware.Telemetry.Layout.{Header, Ring, Env, seal_header}
use led_display_g6_firmware.Telemetry.Ring.{
  make_room, append_raw, need_of, free_bytes, room_for, evict_step, pad_step, record_step,
  publish_step,
}
use led_display_g6_firmware.Telemetry.Chain.{records}
use led_display_g6_firmware.Telemetry.Append.{Holds, IsRecord}
use led_display_g6_firmware.Telemetry.Log.{Appended, append_raw-Appended}
use led_display_g6_firmware.Telemetry.Record.{build_state}
use led_display_g6_firmware.Telemetry.Live.{
  Live, append_raw-Live, build_state-IsRecord, compute_check_seal,
}
use led_display_g6_firmware.Telemetry.Boot.{BootStats, repair_walk, begin}
use led_display_g6_firmware.Telemetry.Drain.{ack, peek}
use led_display_g6_firmware.Telemetry.Acking.{Drained, ack-Drained}
use led_display_g6_firmware.Telemetry.Peeking.{PeekOf, peek-PeekOf}
use led_display_g6_firmware.Telemetry.Repair.{Repaired, repair_walk-Repaired}
use led_display_g6_firmware.Telemetry.Keeping.{Ready}
use led_display_g6_firmware.Telemetry.Reboot.{Booted, boot_record, begin-Booted}
use led_display_g6_firmware.Telemetry.History.{
  Call, cmd_call, state_call, service_call, configure_call, ack_call, calls, calls-begin-Ready,
}
use led_display_g6_firmware.Telemetry.Crash.{CrashSafe, append_raw-CrashSafe}

abbrev calm : Env
calm = record { brk = 0x2020_0000; built_us = 1000; now_us = 1001 }

abbrev zeroes : Memory
zeroes x = 0

-- An empty ring whose cursors stand four bytes before the end of the area.
abbrev edge_header : Header
edge_header = record {
  magic = 0x47365452;
  ver = 2;
  flags = 1;
  reserved = 0;
  write_off = 65500;
  read_off = 65500;
  next_seq = 7;
  dropped = 0;
  boot_count = 0;
  checksum = 0;
}

abbrev edge : Ring
edge = record {
  hdr = seal_header edge_header;
  area = zeroes;
  ring_ok = true;
  enabled = true;
  kept = true;
  heap_collision = false;
  dropped_reported = 0;
  last_evict_us = 0;
  evicted_ever = false;
  synth_on = false;
  synth_rate = 0;
  synth_period_us = 0;
  synth_last_us = 0;
  synth_counter = 0;
}

abbrev sample : List ℕ
sample = build_state 1000 3 4 0

edge-Holds : Holds edge []
edge-Holds = record { read_in = omega arith; write_in = omega arith; chain = refl }

edge-Live : Live edge
edge-Live = record {
  slots = [];
  holds = edge-Holds;
  header = record {
    magic_ok = refl;
    ver_ok = refl;
    sum_ok = sym (compute_check_seal edge_header);
    write_ok = omega arith;
    read_ok = omega arith;
    seq_some = omega arith;
    seq_word = omega arith;
  };
}

sample-IsRecord : IsRecord sample
sample-IsRecord = build_state-IsRecord 1000 3 4 0

-- The record goes to the start of the area, behind a PAD of four bytes.
abbrev one : Ring
one = (append_raw edge sample).0

one_write : one.hdr.write_off ≡ 14
unfolding append_raw evict_step pad_step record_step publish_step make_room build_state
one_write = refl

one_pad : one.area 65500 ≡ 4
unfolding append_raw evict_step pad_step record_step publish_step make_room build_state poke
one_pad = refl

one_Appended : Appended edge sample []
one_Appended = append_raw-Appended edge sample [] edge-Holds sample-IsRecord

append_raw-Appended_example : Appended edge sample []
append_raw-Appended_example = append_raw-Appended edge sample [] edge-Holds sample-IsRecord

one_usable : one.ring_ok ≡ true
unfolding append_raw evict_step pad_step record_step publish_step
one_usable = refl

one_seq : one.hdr.next_seq ≡ 8
unfolding append_raw evict_step pad_step record_step publish_step make_room build_state
one_seq = refl

ack-Drained_example : Drained one 7 one_Appended.all (ack one calm 7)
ack-Drained_example =
    ack-Drained one calm 7 one_Appended.all one_Appended.holds one_usable refl
      (omega (arith, one_seq)) (omega arith)

peek-PeekOf_example :
    ((peek one calm 64).0 ≡ one)
    × PeekOf 64 (records one_Appended.all) (peek one calm 64).1 (peek one calm 64).2
peek-PeekOf_example =
    peek-PeekOf one calm 64 one_Appended.all one_Appended.holds one_usable refl (omega arith)

-- An area full of garbage that looks like a state record now and then.
abbrev garbage : Memory
garbage x = 14

repair_walk-Repaired_example : Repaired garbage 10 300 (repair_walk 300 garbage 300 10 0)
repair_walk-Repaired_example =
    repair_walk-Repaired 300 garbage 300 10 0 (omega arith) (omega arith) (omega arith)
      (omega arith)

abbrev power_on : BootStats
power_on = record {
  prev_last_op = 0;
  prev_valid = false;
  prev_isr_valid = false;
  prev_wdog_fired = false;
  reset_cause = 1;
  wdog_reset = false;
  wdog_xpsr = 0;
  wdog_prev_isr = 0;
  wdog_excret = 0;
  isr_counts = [];
}

abbrev before_boot : Ring
before_boot = record edge { enabled = false; ring_ok = false }

abbrev session : List Call
session =
    cmd_call calm 1000 0x70 0 (1 ∷ 0 ∷ [])
    ∷ state_call calm 3 4 0
    ∷ configure_call calm 0x81 (some 100)
    ∷ service_call calm
    ∷ ack_call calm 7
    ∷ []

calls-begin-Ready_example : Ready (calls (begin before_boot calm power_on) session)
calls-begin-Ready_example = calls-begin-Ready before_boot calm power_on session refl (omega arith)

-- The ring with a record, before a boot.
one_Live : Live one
one_Live = append_raw-Live edge sample edge-Live sample-IsRecord

one_room :
    need_of one.hdr (length (boot_record calm power_on))
    ≤ free_bytes one.hdr.read_off one.hdr.write_off
unfolding append_raw evict_step pad_step record_step publish_step make_room build_state
one_room = omega arith

begin-Booted_example :
    Booted one (begin one calm power_on) one_Live.slots (boot_record calm power_on)
begin-Booted_example = begin-Booted one calm power_on one_Live refl refl one_room

edge_read : (room_for edge 14).read_off ≡ 65500
unfolding make_room
edge_read = refl

append_raw-CrashSafe_example : CrashSafe edge sample []
unfolding build_state edge-Live
append_raw-CrashSafe_example =
    append_raw-CrashSafe edge sample edge-Live sample-IsRecord (inr edge_read)
