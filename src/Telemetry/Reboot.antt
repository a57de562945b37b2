-- ===== src/Telemetry/Reboot.antt =====
-- A boot on a ring that was live before the reset, from begin to the record of the boot.
use led_display_g6_firmware.Common.{
  ℕ, ◌+◌, ◌%◌, ◌^◌, ◌≤◌, ◌≡◌, refl, sym, ap, ◌∙◌, subst, true, false, List, [], ◌∷◌, ◌++◌, ◌&&◌,
  length, drop, bit_and,
}
use led_display_g6_firmware.Telemetry.Layout.{Ring, Env, st_boot}
use led_display_g6_firmware.Telemetry.Ring.{
  heap_too_close, need_of, free_bytes, append_raw, evict_step, pad_step, record_step, publish_step,
}
use led_display_g6_firmware.Telemetry.Record.{build_state}
use led_display_g6_firmware.Telemetry.Chain.{Slot, records}
use led_display_g6_firmware.Telemetry.Append.{Holds, stamped}
use led_display_g6_firmware.Telemetry.Live.{Live, build_state-IsRecord, Sealed-valid_header}
use led_display_g6_firmware.Telemetry.Log.{Appended, append_raw-Appended}
use led_display_g6_firmware.Telemetry.Producers.{append, state}
use led_display_g6_firmware.Telemetry.Boot.{BootStats, keep_or_init, boot_arg, begin, repair_chain}
use led_display_g6_firmware.Telemetry.Reset.{KeptLog, keep_or_init-KeptLog, keep_valid, kept_write}

-- The record of the boot.
abbrev pub boot_record : Env → BootStats → List ℕ
boot_record e s = build_state e.built_us st_boot (bit_and s.reset_cause 0xff) (boot_arg s)

-- What a boot makes of a live ring: all its records, then the record of the boot with the next sequence
-- number; nothing was dropped, and one boot more is counted.
pub record Booted (t u : Ring) (ss : List Slot) (boot : List ℕ) : Type 0 where
  pub all : List Slot
  pub holds : Holds u all
  pub log : records all ≡ records ss ++ stamped t.hdr boot ∷ []
  pub marked : u.kept ≡ true
  pub same_dropped : u.hdr.dropped ≡ t.hdr.dropped
  pub boots : u.hdr.boot_count ≡ (t.hdr.boot_count + 1) % 2 ^ 32

-- An append without eviction leaves the counters of the header.
append_raw_counters :
    (t : Ring) (rec : List ℕ)
    → (append_raw t rec).1 ≡ 0
    → ((append_raw t rec).0.hdr.dropped ≡ t.hdr.dropped)
      × ((append_raw t rec).0.hdr.boot_count ≡ t.hdr.boot_count)
      × ((append_raw t rec).0.kept ≡ t.kept)
unfolding append_raw publish_step record_step pad_step evict_step
append_raw_counters t rec h = rw h (refl, refl, refl)

module _ (t : Ring) (e : Env) (s : BootStats) (v : Live t) where
  abbrev usable : Ring
  usable = record t { ring_ok = true }

  abbrev kept : Ring
  kept = keep_or_init usable

  abbrev fresh : Ring
  fresh = record kept {
    enabled = true;
    synth_on = false;
    synth_rate = 0;
    dropped_reported = kept.hdr.dropped;
    evicted_ever = false;
  }

  abbrev usable-Live : Live usable
  usable-Live = record {
    slots = v.slots;
    holds = record {
      read_in = v.holds.read_in;
      write_in = v.holds.write_in;
      chain = v.holds.chain;
    };
    header = v.header;
  }

  kept-KeptLog : KeptLog usable kept v.slots
  kept-KeptLog = keep_or_init-KeptLog usable usable-Live

  cursors : (kept.hdr.write_off ≡ t.hdr.write_off) × (kept.hdr.read_off ≡ t.hdr.read_off)
  unfolding repair_chain
  cursors =
      rw (keep_valid usable (Sealed-valid_header usable.hdr usable-Live.header))
        (kept_write usable usable-Live, refl)

  appended : Appended fresh (boot_record e s) v.slots
  appended =
      append_raw-Appended fresh (boot_record e s) v.slots
        (record {
          read_in = kept-KeptLog.holds.read_in;
          write_in = kept-KeptLog.holds.write_in;
          chain = kept-KeptLog.holds.chain;
        })
        (build_state-IsRecord e.built_us st_boot (bit_and s.reset_cause 0xff) (boot_arg s))

  spared :
      need_of t.hdr (length (boot_record e s)) ≤ free_bytes t.hdr.read_off t.hdr.write_off
      → appended.gone ≡ 0
  spared room = appended.spared (rw (cursors.0, cursors.1) room)

  begin_appends :
      heap_too_close e ≡ false
      → (s.prev_isr_valid && s.wdog_reset) ≡ false
      → (append_raw fresh (boot_record e s)).1 ≡ 0
      → begin t e s ≡ (append_raw fresh (boot_record e s)).0
  unfolding begin state append
  begin_appends clear calm h = rw (clear, calm, h) refl

-- On a live ring whose heap is clear and that has room for one more record, a boot after which no
-- watchdog reset is reported keeps every record, counts no record as dropped, adds the record of the
-- boot with the next sequence number at the end, and counts the boot.
pub begin-Booted :
    (t : Ring) (e : Env) (s : BootStats) (v : Live t)
    → heap_too_close e ≡ false
    → (s.prev_isr_valid && s.wdog_reset) ≡ false
    → need_of t.hdr (length (boot_record e s)) ≤ free_bytes t.hdr.read_off t.hdr.write_off
    → Booted t (begin t e s) v.slots (boot_record e s)
begin-Booted t e s v clear calm room =
    subst (λ (u : Ring). Booted t u v.slots (boot_record e s))
      (sym (begin_appends t e s v clear calm none_gone))
      (record {
        all = a.all;
        holds = a.holds;
        log =
            a.log
            ∙ ap
                (λ (n : ℕ).
                  drop n (records v.slots) ++ stamped (fresh t e s v).hdr (boot_record e s) ∷ [])
                (spared t e s v room)
            ∙ ap
                (λ (n : ℕ).
                  records v.slots ++ stamped (record t.hdr { next_seq = n }) (boot_record e s) ∷ [])
                k.same_seq;
        marked = counters.2 ∙ k.marked;
        same_dropped = counters.0 ∙ k.same_dropped;
        boots = counters.1 ∙ k.boots;
      })
  where
    a : Appended (fresh t e s v) (boot_record e s) v.slots
    a = appended t e s v

    k : KeptLog (usable t e s v) (kept t e s v) v.slots
    k = kept-KeptLog t e s v

    none_gone : (append_raw (fresh t e s v) (boot_record e s)).1 ≡ 0
    none_gone = a.counted ∙ spared t e s v room

    counters :
        ((append_raw (fresh t e s v) (boot_record e s)).0.hdr.dropped ≡ (fresh t e s v).hdr.dropped)
        × ((append_raw (fresh t e s v) (boot_record e s)).0.hdr.boot_count
            ≡ (fresh t e s v).hdr.boot_count)
        × ((append_raw (fresh t e s v) (boot_record e s)).0.kept ≡ (fresh t e s v).kept)
    counters = append_raw_counters (fresh t e s v) (boot_record e s) none_gone
