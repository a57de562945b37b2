-- ===== src/Telemetry/History.antt =====
-- Any history of calls on the telemetry module, from boot on.
use led_display_g6_firmware.Common.{
  ℕ, ◌^◌, ◌<◌, ◌≡◌, sym, Bool, false, not, List, [], ◌∷◌, ◌||◌, leb, ◌==◌, if_intro, Option,
}
use led_display_g6_firmware.Telemetry.Layout.{Ring, Env, seal_header}
use led_display_g6_firmware.Telemetry.Ring.{heap_too_close}
use led_display_g6_firmware.Telemetry.Live.{Live, compute_check_seal}
use led_display_g6_firmware.Telemetry.Record.{FrameShown}
use led_display_g6_firmware.Telemetry.Producers.{cmd, frame, state, service, configure}
use led_display_g6_firmware.Telemetry.Boot.{BootStats, begin}
use led_display_g6_firmware.Telemetry.Drain.{Block, acked, ack, peek}
use led_display_g6_firmware.Telemetry.Acking.{Freed, ack_walk-Freed}
use led_display_g6_firmware.Telemetry.Chain.{used_bound}
use led_display_g6_firmware.Telemetry.Layout.{data_size}
use led_display_g6_firmware.Telemetry.Keeping.{
  Ready, trip_heap_guard-Ready, cmd-Ready, frame-Ready, state-Ready, service-Ready, configure-Ready,
}
use led_display_g6_firmware.Telemetry.Reset.{begin-Ready}

-- The calls that change the ring, with what they read of their surroundings.
pub data Call : Type 0 where
  cmd_call : Env → ℕ → ℕ → ℕ → List ℕ → Call
  frame_call : Env → FrameShown → Call
  state_call : Env → ℕ → ℕ → ℕ → Call
  service_call : Env → Call
  configure_call : Env → ℕ → Option ℕ → Call
  ack_call : Env → ℕ → Call
  peek_call : Env → ℕ → Call

unfoldable pub call : Ring → Call → Ring
call t (cmd_call e t_rx_us c s req) = cmd t e t_rx_us c s req
call t (frame_call e f) = frame t e f
call t (state_call e kind code arg) = state t e kind code arg
call t (service_call e) = service t e
call t (configure_call e flags rate) = configure t e flags rate
call t (ack_call e a) = ack t e a
call t (peek_call e n) = (peek t e n).0

unfoldable pub calls : Ring → List Call → Ring
calls t [] = t
calls t (c ∷ cs) = calls (call t c) cs

acked_Live :
    (t : Ring) (a : ℕ)
    → Live t
    → Live (record t { hdr = seal_header (record t.hdr { read_off = (acked t a).off }) })
acked_Live t a v = record {
  slots = f.left;
  holds = record { read_in = f.in_area; write_in = v.holds.write_in; chain = f.chain };
  header = record {
    magic_ok = v.header.magic_ok;
    ver_ok = v.header.ver_ok;
    sum_ok = sym (compute_check_seal (record t.hdr { read_off = (acked t a).off }));
    write_ok = v.header.write_ok;
    read_ok = f.in_area;
    seq_some = v.header.seq_some;
    seq_word = v.header.seq_word;
  };
}
  where
    f : Freed t.area t.hdr.write_off a t.hdr.read_off false v.slots (acked t a)
    f =
        ack_walk-Freed data_size t.area t.hdr.write_off a t.hdr.read_off false v.slots
          (used_bound t.hdr.read_off t.hdr.write_off v.holds.read_in v.holds.write_in)
          v.holds.read_in v.holds.write_in v.holds.chain

ack-Ready : (t : Ring) (e : Env) (a : ℕ) → Ready t → Ready (ack t e a)
unfolding ack
ack-Ready t e a r =
    if_intro Ready (not t.ring_ok || a == 0xffff_ffff) (λ _. r)
      (λ _.
        if_intro Ready (heap_too_close e) (λ _. trip_heap_guard-Ready t e)
          (λ _.
            if_intro Ready (leb t.hdr.next_seq a) (λ _. r)
              (λ _.
                if_intro Ready (acked t a).moved
                  (λ _. record { live = λ h. acked_Live t a (r.live h); gated = r.gated })
                  (λ _. r))))

peek-Ready : (t : Ring) (e : Env) (n : ℕ) → Ready t → Ready (peek t e n).0
unfolding peek
peek-Ready t e n r =
    if_intro (λ (x : Ring × Block × Bool). Ready x.0) (not t.ring_ok) (λ _. r)
      (λ _.
        if_intro (λ (x : Ring × Block × Bool). Ready x.0) (heap_too_close e)
          (λ _. trip_heap_guard-Ready t e) (λ _. r))

call-Ready : (t : Ring) (c : Call) → Ready t → Ready (call t c)
unfolding call
call-Ready t (cmd_call e t_rx_us c s req) r = cmd-Ready t e t_rx_us c s req r
call-Ready t (frame_call e f) r = frame-Ready t e f r
call-Ready t (state_call e kind code arg) r = state-Ready t e kind code arg r
call-Ready t (service_call e) r = service-Ready t e r
call-Ready t (configure_call e flags rate) r = configure-Ready t e flags rate r
call-Ready t (ack_call e a) r = ack-Ready t e a r
call-Ready t (peek_call e n) r = peek-Ready t e n r

calls-Ready : (t : Ring) (cs : List Call) → Ready t → Ready (calls t cs)
unfolding calls
calls-Ready t [] r = r
calls-Ready t (c ∷ cs) r = calls-Ready (call t c) cs (call-Ready t c r)

-- From whatever the last reset left in memory, after begin and any calls, the ring is live while
-- it is usable: its header is sealed and valid, its cursors are in range, and the area between
-- them is a chain of whole records. Events are recorded on a usable ring only.
pub calls-begin-Ready :
    (t : Ring) (e : Env) (s : BootStats) (cs : List Call)
    → t.enabled ≡ false
    → t.hdr.next_seq < 2 ^ 32
    → Ready (calls (begin t e s) cs)
calls-begin-Ready t e s cs off word = calls-Ready (begin t e s) cs (begin-Ready t e s off word)
