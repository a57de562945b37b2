-- ===== src/Telemetry/Reset.antt =====
-- Boot: begin on whatever the reset left in memory, and on a ring that was live before it.
use led_display_g6_firmware.Common.{
  ℕ, ◌+◌, ◌%◌, ◌^◌, ◌<◌, ◌≡◌, refl, sym, subst, true, false, List, [], ◌∷◌, ◌&&◌, ◌==◌, if_intro,
  bit_and, bit_or, arith,
}
use led_display_g6_firmware.Telemetry.Layout.{Ring, Env, data_size, seal_header}
use led_display_g6_firmware.Telemetry.Ring.{used, heap_too_close}
use led_display_g6_firmware.Telemetry.Chain.{Slot, used_bound}
use led_display_g6_firmware.Telemetry.Repair.{
  Repaired, repair_walk-Repaired, repair_walk_idle, used_self,
}
use led_display_g6_firmware.Telemetry.Append.{Holds}
use led_display_g6_firmware.Telemetry.Live.{
  Sealed, Live, Sealed-valid_header, valid_header-Sealed, compute_check_seal,
}
use led_display_g6_firmware.Telemetry.Keeping.{Ready, Good, Ready-live, Live_same, state-Ready}
use led_display_g6_firmware.Telemetry.Producers.{state}
use led_display_g6_firmware.Telemetry.Boot.{
  BootStats, valid_header, repair_chain, init_ring, keep_or_init, boot_arg, wdog_context,
  isr_record, isr_records, begin,
}

repaired :
    (t : Ring)
    → Sealed t.hdr
    → Repaired t.area t.hdr.read_off t.hdr.write_off (repair_chain t).hdr.write_off
unfolding repair_chain
repaired t s =
    repair_walk-Repaired (data_size + 1) t.area t.hdr.write_off t.hdr.read_off 0
      (omega (arith, used_bound t.hdr.read_off t.hdr.write_off s.read_ok s.write_ok)) s.read_ok
      s.write_ok (omega (arith, used_bound t.hdr.read_off t.hdr.write_off s.read_ok s.write_ok))

-- The header that begin seals over a kept ring.
abbrev pub kept_ring : Ring → Ring
kept_ring t = record (repair_chain t) {
  kept = true;
  hdr = seal_header (record (repair_chain t).hdr {
    boot_count = ((repair_chain t).hdr.boot_count + 1) % 2 ^ 32;
    flags = bit_or (repair_chain t).hdr.flags 1;
  });
}

kept_Live : (t : Ring) → Sealed t.hdr → Live (kept_ring t)
unfolding repair_chain
kept_Live t s = record {
  slots = r.slots;
  holds = record { read_in = s.read_ok; write_in = r.in_area; chain = r.chain };
  header = record {
    magic_ok = s.magic_ok;
    ver_ok = s.ver_ok;
    sum_ok = sym (compute_check_seal _);
    write_ok = r.in_area;
    read_ok = s.read_ok;
    seq_some = s.seq_some;
    seq_word = s.seq_word;
  };
}
  where
    r : Repaired t.area t.hdr.read_off t.hdr.write_off (repair_chain t).hdr.write_off
    r = repaired t s

init_Live : (t : Ring) → Live (init_ring t)
unfolding init_ring
init_Live t = record {
  slots = [];
  holds = record { read_in = omega arith; write_in = omega arith; chain = used_self 0 };
  header = record {
    magic_ok = refl;
    ver_ok = refl;
    sum_ok = sym (compute_check_seal _);
    write_ok = omega arith;
    read_ok = omega arith;
    seq_some = omega arith;
    seq_word = omega arith;
  };
}

keep_or_init-Good : (t : Ring) → t.ring_ok ≡ true → t.hdr.next_seq < 2 ^ 32 → Good (keep_or_init t)
unfolding keep_or_init repair_chain init_ring
keep_or_init-Good t usable word =
    if_intro Good (valid_header t.hdr)
      (λ ok. (usable, kept_Live t (valid_header-Sealed t.hdr word ok)))
      (λ _. (usable, Live_same (init_ring t) _ refl refl (init_Live t)))

isr_records-Ready :
    (t : Ring) (e : Env) (id : ℕ) (ns : List ℕ) → Ready t → Ready (isr_records t e id ns)
unfolding isr_records
isr_records-Ready t e id [] r = r
isr_records-Ready t e id (n ∷ ns) r =
    isr_records-Ready (isr_record t e id n) e (id + 1) ns
      (if_intro Ready (n == 0) (λ _. r) (λ _. state-Ready t e _ id _ r))

wdog_context-Ready : (t : Ring) (e : Env) (s : BootStats) → Ready t → Ready (wdog_context t e s)
wdog_context-Ready t e s r =
    if_intro Ready s.prev_wdog_fired (λ _. state-Ready t e _ _ _ r) (λ _. r)

-- Whatever the reset left in the ring's memory, begin leaves a ring that is live if it is usable,
-- and records events on no other.
pub begin-Ready :
    (t : Ring) (e : Env) (s : BootStats)
    → t.enabled ≡ false
    → t.hdr.next_seq < 2 ^ 32
    → Ready (begin t e s)
unfolding begin
begin-Ready t e s off word =
    if_intro Ready (heap_too_close e)
      (λ _. record { live = λ h. absurd (cc h); gated = λ h. absurd (cc (h, off)) })
      (λ _.
        if_intro Ready (s.prev_isr_valid && s.wdog_reset)
          (λ _. isr_records-Ready _ e 1 s.isr_counts (wdog_context-Ready _ e s booted))
          (λ _. booted))
  where
    g : Good (keep_or_init (record t { ring_ok = true }))
    g = keep_or_init-Good (record t { ring_ok = true }) refl word

    fresh : Ring
    fresh = record (keep_or_init (record t { ring_ok = true })) {
      enabled = true;
      synth_on = false;
      synth_rate = 0;
      dropped_reported = (keep_or_init (record t { ring_ok = true })).hdr.dropped;
      evicted_ever = false;
    }

    booted : Ready (state fresh e 1 (bit_and s.reset_cause 0xff) (boot_arg s))
    booted =
        state-Ready fresh e 1 (bit_and s.reset_cause 0xff) (boot_arg s)
          (Ready-live fresh g.0 (Live_same _ fresh refl refl g.1))

-- What is kept of a live ring: every record, the counters, and one boot more.
pub record KeptLog (t u : Ring) (ss : List Slot) : Type 0 where
  pub holds : Holds u ss
  pub marked : u.kept ≡ true
  pub same_seq : u.hdr.next_seq ≡ t.hdr.next_seq
  pub same_dropped : u.hdr.dropped ≡ t.hdr.dropped
  pub boots : u.hdr.boot_count ≡ (t.hdr.boot_count + 1) % 2 ^ 32

pub keep_valid : (t : Ring) → valid_header t.hdr ≡ true → keep_or_init t ≡ kept_ring t
unfolding keep_or_init
keep_valid t h = rw h

pub kept_write : (t : Ring) (v : Live t) → (repair_chain t).hdr.write_off ≡ t.hdr.write_off
unfolding repair_chain
kept_write t v =
    repair_walk_idle (data_size + 1) t.area t.hdr.write_off t.hdr.read_off 0 v.slots
      (omega (arith, bound)) v.holds.read_in v.holds.write_in (omega (arith, bound)) v.holds.chain
  where
    bound : used t.hdr.read_off t.hdr.write_off < data_size
    bound = used_bound t.hdr.read_off t.hdr.write_off v.holds.read_in v.holds.write_in

kept_KeptLog : (t : Ring) (v : Live t) → KeptLog t (kept_ring t) v.slots
unfolding repair_chain
kept_KeptLog t v = record {
  holds = record {
    read_in = v.holds.read_in;
    write_in = rw (kept_write t v) v.holds.write_in;
    chain = rw (kept_write t v) v.holds.chain;
  };
  marked = refl;
  same_seq = refl;
  same_dropped = refl;
  boots = refl;
}

-- The part of begin that keeps a ring or starts a new one keeps every record and every counter of a
-- live ring, and counts the boot.
pub keep_or_init-KeptLog : (t : Ring) (v : Live t) → KeptLog t (keep_or_init t) v.slots
keep_or_init-KeptLog t v =
    subst (λ (u : Ring). KeptLog t u v.slots)
      (sym (keep_valid t (Sealed-valid_header t.hdr v.header))) (kept_KeptLog t v)
