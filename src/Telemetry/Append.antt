-- ===== src/Telemetry/Append.antt =====
-- appendRaw on a chain: the ring keeps its newest records and gains the one appended.
use mathlib.Core.List.{append-nil}
use native.Mathlib.Decide.{dec_lt}
use led_display_g6_firmware.Common.{
  ℕ, ◌+◌, ◌≤◌, ◌<◌, ◌≡◌, ◌≢◌, refl, sym, ap, subst, ◌∙◌, true, List, [], ◌∷◌, ◌++◌, length, get_or,
  arith,
}
use led_display_g6_firmware.Common.Bytes.{Memory, poke, put32}
use led_display_g6_firmware.Telemetry.Layout.{Header, Ring, data_size}
use led_display_g6_firmware.Telemetry.Ring.{
  used, is_pad, shape_ok, tail_of, need_of, pad_bytes, record_off, stamp_of, pad_step,
}
use led_display_g6_firmware.Telemetry.Chain.{Slot, Chain, slot_at, records, around, around-used}
use led_display_g6_firmware.Telemetry.Write.{
  Chain-write, poke_get, poke_first, records-append, around_tail,
}

-- Both cursors lie in the area, and the bytes between them are the slots `ss`.
pub record Holds (t : Ring) (ss : List Slot) : Type 0 where
  pub read_in : t.hdr.read_off < data_size
  pub write_in : t.hdr.write_off < data_size
  pub chain : Chain t.area t.hdr.read_off (used t.hdr.read_off t.hdr.write_off) ss

-- A fully built record: its length byte, a type that is no PAD, and the shape of that type.
pub record IsRecord (rec : List ℕ) : Type 0 where
  pub framed : get_or rec 0 0 ≡ length rec
  pub least : 13 ≤ length rec
  pub most : length rec ≤ 26
  pub kind : get_or rec 1 0 ≢ 0
  pub shaped : shape_ok (length rec) (get_or rec 1 0) (get_or rec 12 0) ≡ true

-- The record as it is stored, with its sequence number.
abbrev pub stamped : Header → List ℕ → List ℕ
stamped h rec = put32 rec 2 (stamp_of h.next_seq)

-- The chain up to where the record goes, the PAD included if the tail cannot hold it.
pub record Padded (t : Ring) (len : ℕ) (ss : List Slot) : Type 0 where
  pub all : List Slot
  pub bytes : ℕ
  pub chain : Chain (pad_step t len).area t.hdr.read_off bytes all
  pub at : around t.hdr.read_off bytes ≡ record_off t.hdr len
  pub fits : bytes + len < data_size
  pub inside : record_off t.hdr len + len ≤ data_size
  pub same : records all ≡ records ss

abbrev pub HasRoom : Ring → ℕ → Type 0
HasRoom t len = used t.hdr.read_off t.hdr.write_off + need_of t.hdr len < data_size

pub pad_none :
    (t : Ring) (len : ℕ) → t.hdr.write_off + len ≤ data_size → (pad_step t len).area ≡ t.area
unfolding pad_step
pad_none t len h = ground arith

pub pad_some :
    (t : Ring) (len : ℕ)
    → tail_of t.hdr < len
    → (pad_step t len).area ≡ poke t.area t.hdr.write_off (pad_bytes (tail_of t.hdr))
unfolding pad_step
pad_some t len h = ground arith

pub length-pad_bytes : (n : ℕ) → 0 < n → (0 < length (pad_bytes n)) × (length (pad_bytes n) ≤ n)
length-pad_bytes n h = ground arith

pad_first : (n : ℕ) → n < 256 → get_or (pad_bytes n) 0 0 ≡ n
pad_first n h = ground arith

-- A PAD has the shape of a record, and is read as a PAD.
pad_shape :
    (n kind other : ℕ)
    → 0 < n
    → (2 ≤ n → kind ≡ 0)
    → (shape_ok n kind other ≡ true) × (is_pad n kind ≡ true)
unfolding shape_ok
pad_shape n kind other h k = (ground arith, ground arith)

pad_kind : (m : Memory) (e n : ℕ) → 2 ≤ n → poke m e (pad_bytes n) (e + 1) ≡ 0
pad_kind m e n h = poke_get m e (pad_bytes n) 1 (ground arith) ∙ ground arith

records-pad : (s : Slot) → s.pad ≡ true → records (s ∷ []) ≡ []
records-pad s h = rw h

pub pad-Padded :
    (t : Ring) (len : ℕ) (ss : List Slot) → Holds t ss → len ≤ 26 → HasRoom t len → Padded t len ss
pad-Padded t len ss v small room = elim (dec_lt (tail_of t.hdr) len) [
  | no fits ↦ record {
    all = ss;
    bytes = used t.hdr.read_off t.hdr.write_off;
    chain =
        subst (λ (m : Memory). Chain m t.hdr.read_off (used t.hdr.read_off t.hdr.write_off) ss)
          (sym (pad_none t len (omega arith))) v.chain;
    at = around-used t.hdr.read_off t.hdr.write_off v.read_in v.write_in ∙ ground arith;
    fits = ground arith;
    inside = ground arith;
    same = refl;
  }
  | yes short ↦ record {
    all = ss ++ slot_at (after short) t.hdr.write_off ∷ [];
    bytes = used t.hdr.read_off t.hdr.write_off + tail_of t.hdr;
    chain =
        subst
          (λ (m : Memory).
            Chain m t.hdr.read_off (used t.hdr.read_off t.hdr.write_off + tail_of t.hdr)
              (ss ++ slot_at (after short) t.hdr.write_off ∷ []))
          (sym (pad_some t len short))
          (Chain-write t.area t.hdr.read_off (used t.hdr.read_off t.hdr.write_off) t.hdr.write_off
            (tail_of t.hdr) (pad_bytes (tail_of t.hdr)) ss v.read_in
            (around-used t.hdr.read_off t.hdr.write_off v.read_in v.write_in)
            (length-pad_bytes (tail_of t.hdr) some_tail).1 some_tail (omega arith) (ground arith)
            (first short)
            (pad_shape (tail_of t.hdr) _ _ some_tail
              (pad_kind t.area t.hdr.write_off (tail_of t.hdr))).0
            v.chain);
    at = ground (arith, around_tail t.hdr.read_off t.hdr.write_off);
    fits = ground arith;
    inside = ground arith;
    same =
        records-append ss (slot_at (after short) t.hdr.write_off ∷ [])
        ∙ ap (◌++◌ (records ss))
            (records-pad (slot_at (after short) t.hdr.write_off) (padded short))
        ∙ append-nil (records ss);
  }
]
  where
    after : tail_of t.hdr < len → Memory
    after short = poke t.area t.hdr.write_off (pad_bytes (tail_of t.hdr))

    some_tail : 0 < tail_of t.hdr
    some_tail = omega (arith, v.write_in)

    first : (short : tail_of t.hdr < len) → after short t.hdr.write_off ≡ tail_of t.hdr
    first short =
        poke_first t.area t.hdr.write_off (pad_bytes (tail_of t.hdr))
          (length-pad_bytes (tail_of t.hdr) some_tail).0
        ∙ pad_first (tail_of t.hdr) (omega arith)

    padded :
        (short : tail_of t.hdr < len)
        → is_pad (after short t.hdr.write_off) (after short (t.hdr.write_off + 1)) ≡ true
    padded short =
        subst (λ (n : ℕ). is_pad n (after short (t.hdr.write_off + 1)) ≡ true) (sym (first short))
          (pad_shape (tail_of t.hdr) _ 0 some_tail
            (pad_kind t.area t.hdr.write_off (tail_of t.hdr))).1
