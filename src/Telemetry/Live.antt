-- ===== src/Telemetry/Live.antt =====
-- The invariant of the ring between operations: its header would be kept by the next boot, and
-- the area holds a chain of records between its cursors.
use led_display_g6_firmware.Common.{
  ℕ, ◌+◌, ◌%◌, ◌^◌, ◌≤◌, ◌<◌, ◌≡◌, refl, sym, ◌∙◌, true, List, length, length-take, get_or, arith,
}
use led_display_g6_firmware.Telemetry.Layout.{
  Header, Ring, data_size, ring_magic, ring_version, compute_check, seal_header,
}
use led_display_g6_firmware.Telemetry.Ring.{
  shape_ok, append_raw, evict_step, pad_step, record_step, publish_step, stamp_of,
}
use led_display_g6_firmware.Telemetry.Chain.{Slot}
use led_display_g6_firmware.Telemetry.Append.{Holds, IsRecord}
use led_display_g6_firmware.Telemetry.Log.{Appended, append_raw-Appended}
use led_display_g6_firmware.Telemetry.Record.{
  FrameShown, build_state, build_cmd, build_frame, build_synthetic, kept_len,
}
use led_display_g6_firmware.Telemetry.Boot.{valid_header}

-- The tests of validHeader, and the width of the sequence counter.
pub record Sealed (h : Header) : Type 0 where
  pub magic_ok : h.magic ≡ ring_magic
  pub ver_ok : h.ver ≡ ring_version
  pub sum_ok : h.checksum ≡ compute_check h
  pub write_ok : h.write_off < data_size
  pub read_ok : h.read_off < data_size
  pub seq_some : 0 < h.next_seq
  pub seq_word : h.next_seq < 2 ^ 32

pub Sealed-valid_header : (h : Header) → Sealed h → valid_header h ≡ true
unfolding valid_header
Sealed-valid_header h s = ground arith

pub valid_header-Sealed : (h : Header) → h.next_seq < 2 ^ 32 → valid_header h ≡ true → Sealed h
unfolding valid_header
valid_header-Sealed h w e = ground arith

pub record Live (t : Ring) : Type 0 where
  pub slots : List Slot
  pub holds : Holds t slots
  pub header : Sealed t.hdr

pub compute_check_seal : (h : Header) → compute_check (seal_header h) ≡ compute_check h
unfolding compute_check
compute_check_seal h = refl

module _ (t : Ring) (rec : List ℕ) where
  append_raw_magic : (append_raw t rec).0.hdr.magic ≡ t.hdr.magic
  unfolding append_raw publish_step record_step pad_step evict_step
  append_raw_magic = ground arith

  append_raw_ver : (append_raw t rec).0.hdr.ver ≡ t.hdr.ver
  unfolding append_raw publish_step record_step pad_step evict_step
  append_raw_ver = ground arith

  append_raw_sum : (append_raw t rec).0.hdr.checksum ≡ compute_check (append_raw t rec).0.hdr
  unfolding append_raw publish_step
  append_raw_sum = sym (compute_check_seal _)

  append_raw_seq : (append_raw t rec).0.hdr.next_seq ≡ (stamp_of t.hdr.next_seq + 1) % 2 ^ 32
  unfolding append_raw publish_step record_step pad_step evict_step
  append_raw_seq = ground arith

next_stamp : (n : ℕ) → n < 2 ^ 32 → (0 < (stamp_of n + 1) % 2 ^ 32)
next_stamp n h = ground arith

-- Appending a record keeps the ring ready for the next boot.
pub append_raw-Live : (t : Ring) (rec : List ℕ) → Live t → IsRecord rec → Live (append_raw t rec).0
append_raw-Live t rec v ok = record {
  slots = done.all;
  holds = done.holds;
  header = record {
    magic_ok = append_raw_magic t rec ∙ v.header.magic_ok;
    ver_ok = append_raw_ver t rec ∙ v.header.ver_ok;
    sum_ok = append_raw_sum t rec;
    write_ok = done.holds.write_in;
    read_ok = done.holds.read_in;
    seq_some = rw (append_raw_seq t rec) (next_stamp t.hdr.next_seq v.header.seq_word);
    seq_word = omega (arith, append_raw_seq t rec);
  };
}
  where
    done : Appended t rec v.slots
    done = append_raw-Appended t rec v.slots v.holds ok

kept_len_le : (n : ℕ) → (kept_len n ≤ n) × (kept_len n ≤ 8)
kept_len_le n = ground arith

cmd_shape : (k : ℕ) → k ≤ 8 → shape_ok (13 + k) 1 k ≡ true
unfolding shape_ok
cmd_shape k h = ground arith

-- What the producers build has the shape of its type.
pub build_state-IsRecord : (t kind code arg : ℕ) → IsRecord (build_state t kind code arg)
unfolding build_state shape_ok
build_state-IsRecord t kind code arg = record {
  framed = omega arith;
  least = omega arith;
  most = omega arith;
  kind = omega arith;
  shaped = refl;
}

pub build_frame-IsRecord : (f : FrameShown) → IsRecord (build_frame f)
unfolding build_frame shape_ok
build_frame-IsRecord f = record {
  framed = omega arith;
  least = omega arith;
  most = omega arith;
  kind = omega arith;
  shaped = refl;
}

pub build_synthetic-IsRecord : (t n : ℕ) → IsRecord (build_synthetic t n)
unfolding build_synthetic shape_ok
build_synthetic-IsRecord t n = record {
  framed = omega arith;
  least = omega arith;
  most = omega arith;
  kind = omega arith;
  shaped = refl;
}

length_cmd : (t c s : ℕ) (req : List ℕ) → length (build_cmd t c s req) ≡ 13 + kept_len (length req)
unfolding build_cmd
length_cmd t c s req =
    omega (arith, length-take (kept_len (length req)) req, kept_len_le (length req))

module _ (t c s : ℕ) (req : List ℕ) where
  cmd_first : get_or (build_cmd t c s req) 0 0 ≡ 13 + kept_len (length req)
  unfolding build_cmd
  cmd_first = refl

  cmd_type : get_or (build_cmd t c s req) 1 0 ≡ 1
  unfolding build_cmd
  cmd_type = refl

  cmd_plen : get_or (build_cmd t c s req) 12 0 ≡ kept_len (length req)
  unfolding build_cmd
  cmd_plen = refl

  pub build_cmd-IsRecord : IsRecord (build_cmd t c s req)
  build_cmd-IsRecord = record {
    framed = cmd_first ∙ sym (length_cmd t c s req);
    least = omega (arith, length_cmd t c s req);
    most = omega (arith, length_cmd t c s req, kept_len_le (length req));
    kind = omega (arith, cmd_type);
    shaped =
        rw (length_cmd t c s req, cmd_type, cmd_plen)
          (cmd_shape (kept_len (length req)) (kept_len_le (length req)).1);
  }
