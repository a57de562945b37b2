-- ===== src/Telemetry/Boot.antt =====
-- src/Telemetry.cpp: validation, repair and initialisation of the ring at boot.
use led_display_g6_firmware.Common.{
  ℕ, zero, suc, ◌+◌, ◌*◌, ◌/◌, ◌%◌, ◌^◌, Bool, true, false, not, ◌&&◌, ◌||◌, List, [], ◌∷◌, ltb,
  leb, ◌==◌, if◌then◌else◌, bit_and, bit_or,
}
use led_display_g6_firmware.Common.Bytes.{Memory}
use led_display_g6_firmware.Telemetry.Layout.{
  Header, Ring, Env, data_size, ring_magic, ring_version, flag_events_enabled, st_boot,
  st_wdog_context, st_prev_isr_count, compute_check, seal_header,
}
use led_display_g6_firmware.Telemetry.Ring.{heap_too_close, well_formed_at, wrap_end}
use led_display_g6_firmware.Telemetry.Producers.{state}

-- validHeader
unfoldable pub valid_header : Header → Bool
valid_header h =
    if not (h.magic == ring_magic) || not (h.ver == ring_version)
    then false
    else if not (h.checksum == compute_check h)
    then false
    else if leb data_size h.write_off || leb data_size h.read_off
    then false
    else if h.next_seq == 0
    then false
    else true

-- The loop of repairChain: the write cursor that it leaves. Each round but the last moves the
-- walk on by a byte at least, so `data_size` rounds are enough.
unfoldable pub repair_walk : ℕ → Memory → ℕ → ℕ → ℕ → ℕ
repair_walk zero m w off steps = off
repair_walk (suc fuel) m w off steps =
    let rest = repair_walk fuel m w (wrap_end (off + m off)) (steps + 1) in
    if off == w
    then w
    else if not (well_formed_at m off w) || ltb data_size (steps + 1)
    then off
    else rest

unfoldable pub repair_chain : Ring → Ring
repair_chain t = record t {
  hdr = record t.hdr {
    write_off = repair_walk (data_size + 1) t.area t.hdr.write_off t.hdr.read_off 0;
  };
}

-- initRing
unfoldable pub init_ring : Ring → Ring
init_ring t = record t {
  hdr = seal_header (record {
    magic = ring_magic;
    ver = ring_version;
    flags = flag_events_enabled;
    reserved = 0;
    write_off = 0;
    read_off = 0;
    next_seq = 1;
    dropped = 0;
    boot_count = 0;
    checksum = t.hdr.checksum;
  });
}

-- What begin reads of Health::stats; `isr_counts` starts at ISR id 1.
pub record BootStats : Type 0 where
  pub prev_last_op : ℕ
  pub prev_valid : Bool
  pub prev_isr_valid : Bool
  pub prev_wdog_fired : Bool
  pub reset_cause : ℕ
  pub wdog_reset : Bool
  pub wdog_xpsr : ℕ
  pub wdog_prev_isr : ℕ
  pub wdog_excret : ℕ
  pub isr_counts : List ℕ

-- The part of begin that keeps the ring or initialises it.
unfoldable pub keep_or_init : Ring → Ring
keep_or_init t =
    let repaired = repair_chain t in
    if valid_header t.hdr
    then record repaired {
      kept = true;
      hdr = seal_header (record repaired.hdr {
        boot_count = (repaired.hdr.boot_count + 1) % 2 ^ 32;
        flags = bit_or repaired.hdr.flags flag_events_enabled;
      });
    }
    else record (init_ring t) { kept = false }

abbrev pub boot_arg : BootStats → ℕ
boot_arg s =
    s.prev_last_op * 256 % 65536
    + (if s.prev_valid then 1 else 0)
    + (if s.prev_isr_valid && s.prev_wdog_fired then 2 else 0)

-- One record for each interrupt that was counted, in units of 4096.
abbrev pub isr_record : Ring → Env → ℕ → ℕ → Ring
isr_record t e id n =
    if n == 0
    then t
    else state t e st_prev_isr_count id (if ltb 0xffff (n / 4096) then 0xffff else n / 4096)

unfoldable pub isr_records : Ring → Env → ℕ → List ℕ → Ring
isr_records t e id [] = t
isr_records t e id (n ∷ ns) = isr_records (isr_record t e id n) e (id + 1) ns

abbrev pub wdog_context : Ring → Env → BootStats → Ring
wdog_context t e s =
    if s.prev_wdog_fired
    then state t e st_wdog_context (bit_and s.wdog_excret 0xff)
        (bit_or (bit_and s.wdog_xpsr 0x1ff) (bit_and s.wdog_prev_isr 0x7f * 512))
    else t

unfoldable pub begin : Ring → Env → BootStats → Ring
begin t e s =
    if heap_too_close e
    then record t { heap_collision = true; ring_ok = false }
    else let kept = keep_or_init (record t { ring_ok = true }) in
      let fresh = record kept {
        enabled = true;
        synth_on = false;
        synth_rate = 0;
        dropped_reported = kept.hdr.dropped;
        evicted_ever = false;
      } in
      let booted = state fresh e st_boot (bit_and s.reset_cause 0xff) (boot_arg s) in
      if s.prev_isr_valid && s.wdog_reset
      then isr_records (wdog_context booted e s) e 1 s.isr_counts
      else booted
