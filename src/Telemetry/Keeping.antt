-- ===== src/Telemetry/Keeping.antt =====
-- Every operation of the telemetry module keeps the ring ready for the next boot.
use led_display_g6_firmware.Common.{
  ℕ, zero, suc, ◌+◌, ◌-◌, ◌%◌, ◌^◌, ◌≡◌, refl, sym, ◌∙◌, Bool, true, false, not, List, ltb, ◌==◌,
  ◌&&◌, if◌then◌else◌, if_intro, Option, bit_and, bit_or, arith,
}
use led_display_g6_firmware.Telemetry.Layout.{Ring, Env, seal_header}
use led_display_g6_firmware.Telemetry.Ring.{
  heap_too_close, append_raw, publish_step, record_step, pad_step, evict_step,
}
use led_display_g6_firmware.Telemetry.Append.{IsRecord}
use led_display_g6_firmware.Telemetry.Record.{FrameShown, build_synthetic}
use led_display_g6_firmware.Telemetry.Producers.{
  trip_heap_guard, append, cmd, frame, state, synth_rounds, service, configure, set_synth,
  events_on, events_off, evicted_marker, new_episode,
}
use led_display_g6_firmware.Telemetry.Live.{
  Live, compute_check_seal, append_raw-Live, build_state-IsRecord, build_frame-IsRecord,
  build_synthetic-IsRecord, build_cmd-IsRecord,
}

-- A usable ring is live, and events are recorded on a usable ring only.
pub record Ready (t : Ring) : Type 0 where
  pub live : t.ring_ok ≡ true → Live t
  pub gated : t.enabled ≡ true → t.ring_ok ≡ true

-- The header and the area alone decide.
pub Live_same : (t u : Ring) → t.hdr ≡ u.hdr → t.area ≡ u.area → Live t → Live u
Live_same t u h a v = record {
  slots = v.slots;
  holds = record {
    read_in = rw (← h) v.holds.read_in;
    write_in = rw (← h) v.holds.write_in;
    chain = rw (← h, ← a) v.holds.chain;
  };
  header = rw (← h) v.header;
}

Live_flags :
    (t : Ring) (f : ℕ) → Live t → Live (record t { hdr = seal_header (record t.hdr { flags = f }) })
Live_flags t f v = record {
  slots = v.slots;
  holds = record { read_in = v.holds.read_in; write_in = v.holds.write_in; chain = v.holds.chain };
  header = record {
    magic_ok = v.header.magic_ok;
    ver_ok = v.header.ver_ok;
    sum_ok = sym (compute_check_seal (record t.hdr { flags = f }));
    write_ok = v.header.write_ok;
    read_ok = v.header.read_ok;
    seq_some = v.header.seq_some;
    seq_word = v.header.seq_word;
  };
}

-- A usable live ring is ready.
pub Ready-live : (t : Ring) → t.ring_ok ≡ true → Live t → Ready t
Ready-live t h v = record { live = λ _. v; gated = λ _. h }

append_raw_ok : (t : Ring) (rec : List ℕ) → (append_raw t rec).0.ring_ok ≡ t.ring_ok
unfolding append_raw publish_step record_step pad_step evict_step
append_raw_ok t rec = refl

-- After the heap guard the ring is not used any more.
pub trip_heap_guard-Ready : (t : Ring) (e : Env) → Ready (trip_heap_guard t e)
unfolding trip_heap_guard
trip_heap_guard-Ready t e = record { live = λ h. cc h; gated = λ h. cc h }

abbrev pub Good : Ring → Type 0
Good t = (t.ring_ok ≡ true) × Live t

append_raw-Good : (t : Ring) (rec : List ℕ) → Good t → IsRecord rec → Good (append_raw t rec).0
append_raw-Good t rec (usable, v) ok = (append_raw_ok t rec ∙ usable, append_raw-Live t rec v ok)

evicted_marker-Good : (t : Ring) (e : Env) → Good t → Good (evicted_marker t e)
evicted_marker-Good t e g =
    let m = append_raw-Good t _ g (build_state-IsRecord e.now_us _ _ _) in
    (m.0, Live_same _ _ refl refl m.1)

mark_episode-Good :
    (t : Ring) (e : Env) → Good t → Good (if new_episode t e then evicted_marker t e else t)
mark_episode-Good t e g = if_intro Good (new_episode t e) (λ _. evicted_marker-Good t e g) (λ _. g)

pub append-Ready :
    (t : Ring) (e : Env) (rec : List ℕ)
    → t.ring_ok ≡ true
    → Live t
    → IsRecord rec
    → Ready (append t e rec)
unfolding append
append-Ready t e rec usable v ok =
    if_intro Ready (heap_too_close e) (λ _. trip_heap_guard-Ready t e)
      (λ _.
        if_intro Ready ((append_raw t rec).1 == 0) (λ _. Ready-live _ out.0 out.1)
          (λ _. Ready-live _ marked.0 (Live_same _ _ refl refl marked.1)))
  where
    out : Good (append_raw t rec).0
    out = append_raw-Good t rec (usable, v) ok

    marked : Good (
        if new_episode (append_raw t rec).0 e
        then evicted_marker (append_raw t rec).0 e
        else (append_raw t rec).0)
    marked = mark_episode-Good (append_raw t rec).0 e out

pub cmd-Ready :
    (t : Ring) (e : Env) (t_rx_us c s : ℕ) (req : List ℕ)
    → Ready t
    → Ready (cmd t e t_rx_us c s req)
unfolding cmd
cmd-Ready t e t_rx_us c s req r =
    if_intro Ready t.enabled
      (λ on.
        append-Ready t e _ (r.gated on) (r.live (r.gated on)) (build_cmd-IsRecord t_rx_us c s req))
      (λ _. r)

pub frame-Ready : (t : Ring) (e : Env) (f : FrameShown) → Ready t → Ready (frame t e f)
unfolding frame
frame-Ready t e f r =
    if_intro Ready t.enabled
      (λ on. append-Ready t e _ (r.gated on) (r.live (r.gated on)) (build_frame-IsRecord f))
      (λ _. r)

pub state-Ready :
    (t : Ring) (e : Env) (kind code arg : ℕ) → Ready t → Ready (state t e kind code arg)
unfolding state
state-Ready t e kind code arg r =
    if_intro Ready t.enabled
      (λ on.
        append-Ready t e _ (r.gated on) (r.live (r.gated on))
          (build_state-IsRecord e.built_us kind code arg))
      (λ _. r)

pub not-false : (b : Bool) → not b ≡ false → b ≡ true
not-false b h = ground arith

not-true : (b : Bool) → not b ≡ true → b ≡ false
not-true b h = ground arith

synth_rounds-Ready :
    (left : ℕ) (t : Ring) (e : Env) → t.ring_ok ≡ true → Live t → Ready (synth_rounds left t e)
unfolding synth_rounds
synth_rounds-Ready zero t e usable v = Ready-live t usable v
synth_rounds-Ready (suc left) t e usable v =
    if_intro Ready (ltb ((e.built_us + 2 ^ 32 - t.synth_last_us) % 2 ^ 32) t.synth_period_us)
      (λ _. Ready-live t usable v)
      (λ _.
        if_intro Ready (not made.ring_ok) (λ _. r)
          (λ on.
            if_intro Ready (left == 0)
              (λ _. record { live = λ h. Live_same made _ refl refl (r.live h); gated = r.gated })
              (λ _. synth_rounds-Ready left made e (not-false _ on) (r.live (not-false _ on)))))
  where
    due : ℕ
    due = (t.synth_last_us + t.synth_period_us) % 2 ^ 32

    counted : Ring
    counted = record t { synth_last_us = due; synth_counter = (t.synth_counter + 1) % 2 ^ 32 }

    made : Ring
    made = append counted e (build_synthetic due t.synth_counter)

    r : Ready made
    r =
        append-Ready counted e (build_synthetic due t.synth_counter) usable
          (Live_same t counted refl refl v) (build_synthetic-IsRecord due t.synth_counter)

pub service-Ready : (t : Ring) (e : Env) → Ready t → Ready (service t e)
unfolding service
service-Ready t e r =
    if_intro Ready (not t.ring_ok) (λ _. r)
      (λ on.
        if_intro Ready (heap_too_close e) (λ _. trip_heap_guard-Ready t e)
          (λ _.
            if_intro Ready (not t.synth_on) (λ _. r)
              (λ _. synth_rounds-Ready _ t e (not-false _ on) (r.live (not-false _ on)))))

events_on-Good : (t : Ring) (on : Bool) → Good t → Good (events_on t on)
events_on-Good t on g =
    if_intro Good (on && not t.enabled)
      (λ _. (
        g.0,
        Live_same (record t { hdr = seal_header (record t.hdr { flags = bit_or t.hdr.flags 1 }) }) _
            refl refl (Live_flags t _ g.1),
      ))
      (λ _. g)

set_synth-Ready :
    (t : Ring) (synth : Bool) (rate : Option ℕ) (now : ℕ)
    → Good t
    → Ready (set_synth t synth rate now)
set_synth-Ready t synth rate now g = Ready-live _ g.0 (Live_same t _ refl refl g.1)

events_off-Ready : (t : Ring) (on : Bool) → Ready t → Ready (events_off t on)
events_off-Ready t on r =
    if_intro Ready (not on && t.enabled)
      (λ _. record {
        live = λ h.
            Live_same
              (record t { hdr = seal_header (record t.hdr { flags = bit_and t.hdr.flags 0xfe }) }) _
              refl refl (Live_flags t _ (r.live h));
        gated = λ h. absurd (cc h);
      })
      (λ _. r)

pub configure-Ready :
    (t : Ring) (e : Env) (flags : ℕ) (rate_hz : Option ℕ)
    → Ready t
    → Ready (configure t e flags rate_hz)
unfolding configure
configure-Ready t e flags rate_hz r =
    if_intro Ready (not t.ring_ok) (λ _. r)
      (λ on.
        if_intro Ready (heap_too_close e) (λ _. trip_heap_guard-Ready t e)
          (λ _. events_off-Ready _ _ (
            state-Ready _ e _ _ _ (
              set_synth-Ready _ _ rate_hz e.built_us
                (events_on-Good t _ (not-false _ on, r.live (not-false _ on)))))))
