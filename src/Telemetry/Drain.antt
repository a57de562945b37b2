-- ===== src/Telemetry/Drain.antt =====
-- src/Telemetry.cpp: acknowledging records, and reading a block of them.
use led_display_g6_firmware.Common.{
  ℕ, zero, suc, ◌+◌, ◌%◌, ◌^◌, Bool, true, false, not, ◌||◌, ◌&&◌, List, [], ◌++◌, length, ltb, leb,
  ◌==◌, if◌then◌else◌, bit_or,
}
use led_display_g6_firmware.Common.Bytes.{Memory, bytes_at}
use led_display_g6_firmware.Telemetry.Layout.{
  Ring, Env, data_size, block_flag_events, block_flag_survived_boot, block_flag_heap_collision,
  block_flag_synthetic, seal_header,
}
use led_display_g6_firmware.Telemetry.Ring.{
  used, wrap_end, is_pad_at, seq_at, well_formed_at, heap_too_close,
}
use led_display_g6_firmware.Telemetry.Producers.{trip_heap_guard}

abbrev pub Acked : Type 0
Acked = record { off : ℕ; moved : Bool }

-- The loop of ack: where the read cursor goes, and whether it moved.
unfoldable pub ack_walk : ℕ → Memory → ℕ → ℕ → ℕ → Bool → Acked
ack_walk zero m w ack_seq off moved = record { off = off; moved = moved }
ack_walk (suc fuel) m w ack_seq off moved =
    let rest = ack_walk fuel m w ack_seq (wrap_end (off + m off)) true in
    if off == w
    then record { off = off; moved = moved }
    else if not (well_formed_at m off w)
    then record { off = off; moved = moved }
    else if not (is_pad_at m off) && ltb ack_seq (seq_at m off)
    then record { off = off; moved = moved }
    else rest

abbrev pub acked : Ring → ℕ → Acked
acked t ack_seq = ack_walk data_size t.area t.hdr.write_off ack_seq t.hdr.read_off false

unfoldable pub ack : Ring → Env → ℕ → Ring
ack t e ack_seq =
    if not t.ring_ok || ack_seq == 0xffff_ffff
    then t
    else if heap_too_close e
    then trip_heap_guard t e
    else if leb t.hdr.next_seq ack_seq
    then t
    else if (acked t ack_seq).moved
    then record t { hdr = seal_header (record t.hdr { read_off = (acked t ack_seq).off }) }
    else t

-- What peek returns: the bytes copied, BlockInfo, and where the walk stopped.
pub record Block : Type 0 where
  pub bytes : List ℕ
  pub first_seq : ℕ
  pub n_records : ℕ
  pub off : ℕ

-- One record copied behind those of `b`.
abbrev pub copy_record : Memory → ℕ → Block → Block
copy_record m off b = record b {
  bytes = b.bytes ++ bytes_at m off (m off);
  first_seq = if b.n_records == 0 then seq_at m off else b.first_seq;
  n_records = (b.n_records + 1) % 2 ^ 16;
}

-- The loop of peek.
unfoldable pub peek_walk : ℕ → Memory → ℕ → ℕ → Block → Block
peek_walk zero m w max_bytes b = b
peek_walk (suc fuel) m w max_bytes b =
    let next = record (if is_pad_at m b.off then b else copy_record m b.off b) {
      off = wrap_end (b.off + m b.off);
    } in
    let rest = peek_walk fuel m w max_bytes next in
    if b.off == w
    then b
    else if not (well_formed_at m b.off w)
    then b
    else if not (is_pad_at m b.off) && ltb max_bytes (length b.bytes + m b.off)
    then b
    else rest

abbrev pub empty_block : ℕ → Block
empty_block off = record { bytes = []; first_seq = 0; n_records = 0; off = off }

-- peek: the ring, which the heap guard may disable, the block, and whether more is left.
unfoldable pub peek : Ring → Env → ℕ → Ring × Block × Bool
peek t e max_bytes =
    if not t.ring_ok
    then (t, empty_block 0, false)
    else if heap_too_close e
    then (trip_heap_guard t e, empty_block 0, false)
    else let b =
        peek_walk data_size t.area t.hdr.write_off max_bytes (empty_block t.hdr.read_off) in
      (t, b, not (b.off == t.hdr.write_off))

-- The flags byte of the block header.
unfoldable pub block_flags : Ring → ℕ
block_flags t = bit_or (if t.enabled then block_flag_events else 0) (
    bit_or (if t.ring_ok && not (t.hdr.boot_count == 0) then block_flag_survived_boot else 0) (
      bit_or (if t.heap_collision then block_flag_heap_collision else 0)
        (if t.synth_on then block_flag_synthetic else 0)))

-- The views that the block header carries.
unfoldable pub dropped : Ring → ℕ
dropped t = if t.ring_ok then t.hdr.dropped else 0

unfoldable pub boot_count : Ring → ℕ
boot_count t = if t.ring_ok then t.hdr.boot_count else 0

unfoldable pub next_seq : Ring → ℕ
next_seq t = if t.ring_ok then t.hdr.next_seq else 0

unfoldable pub pending_bytes : Ring → ℕ
pending_bytes t = if t.ring_ok then used t.hdr.read_off t.hdr.write_off else 0
