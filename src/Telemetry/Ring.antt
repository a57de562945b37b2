-- ===== src/Telemetry/Ring.antt =====
-- src/Telemetry.cpp: cursors, record shapes, eviction and the raw append.
use led_display_g6_firmware.Common.{
  ℕ, zero, suc, ◌+◌, ◌-◌, ◌%◌, ◌^◌, Bool, true, false, ◌&&◌, ◌||◌, List, [], ◌∷◌, length, ltb, leb,
  ◌==◌, if◌then◌else◌,
}
use led_display_g6_firmware.Common.Bytes.{Memory, poke, le32, put32}
use led_display_g6_firmware.Telemetry.Layout.{
  Header, Ring, Env, data_size, ring_base, heap_guard_bytes, rec_pad, rec_cmd, rec_frame, rec_state,
  record_header_len, cmd_record_len_max, frame_record_len, state_record_len, seal_header,
}

-- usedBytes, over the two cursors.
abbrev pub used : ℕ → ℕ → ℕ
used r w = if leb r w then w - r else data_size - r + w

-- freeBytes: one byte is kept free.
abbrev pub free_bytes : ℕ → ℕ → ℕ
free_bytes r w = data_size - 1 - used r w

-- `(end == kDataSize) ? 0 : end`
abbrev pub wrap_end : ℕ → ℕ
wrap_end e = if e == data_size then 0 else e

-- A length and a type byte are those of a PAD.
abbrev pub is_pad : ℕ → ℕ → Bool
is_pad len type = ltb len record_header_len || type == rec_pad

abbrev pub is_pad_at : Memory → ℕ → Bool
is_pad_at m off = is_pad (m off) (m (off + 1))

abbrev pub seq_at : Memory → ℕ → ℕ
seq_at m off = le32 (m (off + 2)) (m (off + 3)) (m (off + 4)) (m (off + 5))

-- The tests of wellFormedAt on the length, the type byte and byte 12.
unfoldable pub shape_ok : ℕ → ℕ → ℕ → Bool
shape_ok len type plen =
    if ltb len record_header_len
    then len == 1 || type == rec_pad
    else if type == rec_pad
    then true
    else if type == rec_cmd
    then leb (record_header_len + 3) len
      && leb len cmd_record_len_max
      && plen == (len - (record_header_len + 3)) % 256
    else if type == rec_frame
    then len == frame_record_len
    else if type == rec_state
    then len == state_record_len
    else false

-- The tests of wellFormedAt on the record's place: it straddles neither the end of the ring nor
-- the write cursor.
unfoldable pub place_ok : ℕ → ℕ → ℕ → Bool
place_ok len off w =
    if len == 0
    then false
    else if ltb data_size (off + len)
    then false
    else if ltb off w && ltb w (off + len)
    then false
    else true

abbrev pub well_formed_at : Memory → ℕ → ℕ → Bool
well_formed_at m off w = place_ok (m off) off w && shape_ok (m off) (m (off + 1)) (m (off + 12))

abbrev pub heap_too_close : Env → Bool
heap_too_close e = leb (ring_base - heap_guard_bytes) e.brk

-- makeRoom: the read cursor and the number of records evicted so far. A round frees at least one
-- byte, so `data_size` rounds are enough.
unfoldable pub make_room : ℕ → Memory → ℕ → ℕ → ℕ → ℕ → record { read_off : ℕ; evicted : ℕ }
make_room zero m w need r evicted = record { read_off = r; evicted = evicted }
make_room (suc fuel) m w need r evicted =
    let rest =
      make_room fuel m w need (wrap_end (r + m r))
        (if is_pad_at m r then evicted else evicted + 1) in
    if leb need (free_bytes r w)
    then record { read_off = r; evicted = evicted }
    else if r == w
    then record { read_off = r; evicted = evicted }
    else if m r == 0 || ltb data_size (r + m r)
    then record { read_off = w; evicted = evicted }
    else rest

-- The steps of appendRaw. `rec` holds the `len` bytes that are copied.
abbrev pub tail_of : Header → ℕ
tail_of h = data_size - h.write_off

abbrev pub need_of : Header → ℕ → ℕ
need_of h len = if ltb (tail_of h) len then tail_of h + len else len

abbrev pub record_off : Header → ℕ → ℕ
record_off h len = if ltb (tail_of h) len then 0 else h.write_off

abbrev pub stamp_of : ℕ → ℕ
stamp_of next = if next == 0 || next == 0xffff_ffff then 1 else next

abbrev pub room_for : Ring → ℕ → record { read_off : ℕ; evicted : ℕ }
room_for t len = make_room data_size t.area t.hdr.write_off (need_of t.hdr len) t.hdr.read_off 0

-- Eviction, published if a record went.
unfoldable pub evict_step : Ring → ℕ → Ring
evict_step t len = record t {
  hdr =
      if (room_for t len).evicted == 0
      then record t.hdr { read_off = (room_for t len).read_off }
      else seal_header (record t.hdr {
        read_off = (room_for t len).read_off;
        dropped = (t.hdr.dropped + (room_for t len).evicted) % 2 ^ 32;
      });
}

abbrev pub pad_bytes : ℕ → List ℕ
pad_bytes tail = if leb 2 tail then tail % 256 ∷ rec_pad ∷ [] else tail % 256 ∷ []

-- The PAD that fills a tail which cannot hold the record.
unfoldable pub pad_step : Ring → ℕ → Ring
pad_step t len = record t {
  area =
      if ltb (tail_of t.hdr) len
      then poke t.area t.hdr.write_off (pad_bytes (tail_of t.hdr))
      else t.area;
}

unfoldable pub record_step : Ring → List ℕ → Ring
record_step t rec = record t {
  area = poke t.area (record_off t.hdr (length rec)) (put32 rec 2 (stamp_of t.hdr.next_seq));
}

unfoldable pub publish_step : Ring → ℕ → Ring
publish_step t len = record t {
  hdr = seal_header (record t.hdr {
    write_off = wrap_end (record_off t.hdr len + len);
    next_seq = (stamp_of t.hdr.next_seq + 1) % 2 ^ 32;
  });
}

-- appendRaw, with the number of records that it evicts.
unfoldable pub append_raw : Ring → List ℕ → Ring × ℕ
append_raw t rec = (
  publish_step (record_step (pad_step (evict_step t (length rec)) (length rec)) rec) (length rec),
  (room_for t (length rec)).evicted,
)
