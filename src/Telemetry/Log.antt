-- ===== src/Telemetry/Log.antt =====
-- appendRaw as an operation on the log of records, oldest first.
use led_display_g6_firmware.Common.{
  ℕ, ◌+◌, ◌≤◌, ◌<◌, ◌≡◌, ◌≢◌, refl, sym, ap, subst, ◌∙◌, ◌⊎◌, Bool, true, false, List, [], ◌∷◌,
  ◌++◌, length, get_or, drop, inl, inr, arith,
}
use led_display_g6_firmware.Common.Bytes.{
  Memory, poke, bytes_at, bytes_at-poke, put32, length-put32, get_or-put32,
}
use led_display_g6_firmware.Telemetry.Layout.{Header, Ring, data_size}
use led_display_g6_firmware.Telemetry.Ring.{
  is_pad, shape_ok, need_of, record_off, room_for, evict_step, pad_step, record_step, publish_step,
  append_raw, free_bytes, stamp_of,
}
use led_display_g6_firmware.Telemetry.Chain.{
  Slot, Chain, slot_at, records, used_bound, wrap_end_bound,
}
use led_display_g6_firmware.Telemetry.Evict.{Made, Room, make_room-Made, make_room_stop}
use led_display_g6_firmware.Telemetry.Write.{
  Chain-write, poke_get, poke_first, records-append, used_extend,
}
use led_display_g6_firmware.Telemetry.Append.{Holds, IsRecord, stamped, Padded, HasRoom, pad-Padded}

not_pad : (n k : ℕ) → 13 ≤ n → k ≢ 0 → is_pad n k ≡ false
not_pad n k h p = ground arith

slot_eq :
    (s : Slot) (p : Bool) (bs : List ℕ)
    → s.pad ≡ p
    → s.bytes ≡ bs
    → s ≡ record { pad = p; bytes = bs }
slot_eq s p bs h k = λ i. record { pad = h i; bytes = k i }

-- The memory after the record is copied to `e`, and what is read there.
module _ (m : Memory) (e v : ℕ) (rec : List ℕ) (ok : IsRecord rec) where
  copied : Memory
  copied = poke m e (put32 rec 2 v)

  length_copied : length (put32 rec 2 v) ≡ length rec
  length_copied = length-put32 rec 2 v

  copied_len : copied e ≡ length rec
  unfolding copied
  copied_len =
      poke_first m e (put32 rec 2 v) (omega (arith, length_copied, ok.least))
      ∙ get_or-put32 rec 2 v 0 (inl (omega arith))
      ∙ ok.framed

  copied_byte : (i : ℕ) → (i < 2) ⊎ (6 ≤ i) → i < length rec → copied (e + i) ≡ get_or rec i 0
  unfolding copied
  copied_byte i out h =
      poke_get m e (put32 rec 2 v) i (omega (arith, length_copied)) ∙ get_or-put32 rec 2 v i out

  copied_pad : is_pad (copied e) (copied (e + 1)) ≡ false
  copied_pad =
      rw (copied_len, copied_byte 1 (inl (omega arith)) (omega (arith, ok.least)))
        (not_pad (length rec) (get_or rec 1 0) ok.least ok.kind)

  copied_bytes : bytes_at copied e (copied e) ≡ put32 rec 2 v
  unfolding copied
  copied_bytes =
      ap (bytes_at copied e) (copied_len ∙ sym length_copied) ∙ bytes_at-poke m e (put32 rec 2 v)

  copied_slot : slot_at copied e ≡ record { pad = false; bytes = put32 rec 2 v }
  copied_slot = slot_eq (slot_at copied e) false (put32 rec 2 v) copied_pad copied_bytes

  copied_shape : shape_ok (length rec) (copied (e + 1)) (copied (e + 12)) ≡ true
  copied_shape =
      rw
        (
          copied_byte 1 (inl (omega arith)) (omega (arith, ok.least)),
          copied_byte 12 (inr (omega arith)) (omega (arith, ok.least)),
        )
        ok.shaped

-- What appending did: the ring holds the newest of its records, in order, and the new one last.
pub record Appended (t : Ring) (rec : List ℕ) (ss : List Slot) : Type 0 where
  pub all : List Slot
  pub gone : ℕ
  pub holds : Holds (append_raw t rec).0 all
  pub log : records all ≡ drop gone (records ss) ++ stamped t.hdr rec ∷ []
  pub counted : (append_raw t rec).1 ≡ gone
  pub spared : need_of t.hdr (length rec) ≤ free_bytes t.hdr.read_off t.hdr.write_off → gone ≡ 0

abbrev put_record : Ring → List ℕ → Ring
put_record t rec = publish_step (record_step (pad_step t (length rec)) rec) (length rec)

-- A ring with room for the record gains it.
module _ (t : Ring) (rec : List ℕ) (ss : List Slot) (v : Holds t ss) (ok : IsRecord rec) where
  put_record-Holds :
      (p : Padded t (length rec) ss)
      → Holds (put_record t rec) (p.all ++ record { pad = false; bytes = stamped t.hdr rec } ∷ [])
  unfolding publish_step record_step pad_step copied
  put_record-Holds p = record {
    read_in = v.read_in;
    write_in = wrap_end_bound (record_off t.hdr (length rec) + length rec) p.inside;
    chain =
        subst
          (λ (d : ℕ).
            Chain after t.hdr.read_off d
              (p.all ++ record { pad = false; bytes = stamped t.hdr rec } ∷ []))
          (sym (used_extend t.hdr.read_off p.bytes off (length rec) v.read_in p.at p.inside p.fits))
          (subst (λ (s : Slot). Chain after t.hdr.read_off (p.bytes + length rec) (p.all ++ s ∷ []))
            (copied_slot (pad_step t (length rec)).area off seq rec ok)
            (Chain-write (pad_step t (length rec)).area t.hdr.read_off p.bytes off (length rec)
              (stamped t.hdr rec) p.all v.read_in p.at (omega (arith, length-put32 rec 2 seq))
              (omega (arith, ok.least)) p.inside p.fits
              (copied_len (pad_step t (length rec)).area off seq rec ok)
              (copied_shape (pad_step t (length rec)).area off seq rec ok) p.chain));
  }
    where
      off : ℕ
      off = record_off t.hdr (length rec)

      seq : ℕ
      seq = stamp_of t.hdr.next_seq

      after : Memory
      after = poke (pad_step t (length rec)).area off (stamped t.hdr rec)

  put_record_log :
      (p : Padded t (length rec) ss)
      → records (p.all ++ record { pad = false; bytes = stamped t.hdr rec } ∷ [])
        ≡ records ss ++ stamped t.hdr rec ∷ []
  put_record_log p =
      records-append p.all _ ∙ ap (λ (xs : List (List ℕ)). xs ++ stamped t.hdr rec ∷ []) p.same

-- Eviction changes the read cursor and the count, and nothing else.
module _ (t : Ring) (len : ℕ) where
  pub evict_area : (evict_step t len).area ≡ t.area
  unfolding evict_step
  evict_area = refl

  pub evict_write : (evict_step t len).hdr.write_off ≡ t.hdr.write_off
  unfolding evict_step
  evict_write = ground arith

  evict_seq : (evict_step t len).hdr.next_seq ≡ t.hdr.next_seq
  unfolding evict_step
  evict_seq = ground arith

  pub evict_read : (evict_step t len).hdr.read_off ≡ (room_for t len).read_off
  unfolding evict_step
  evict_read = ground arith

need_small : (h : Header) (len : ℕ) → len ≤ 26 → need_of h len < 52
need_small h len p = ground arith

pub room_for-Made :
    (t : Ring) (len : ℕ) (ss : List Slot)
    → Holds t ss
    → len ≤ 26
    → Made t.area t.hdr.write_off (need_of t.hdr len) 0 ss (room_for t len)
room_for-Made t len ss v small =
    make_room-Made data_size t.area t.hdr.write_off (need_of t.hdr len) t.hdr.read_off 0 ss
      (used_bound t.hdr.read_off t.hdr.write_off v.read_in v.write_in) v.read_in v.write_in
      (omega (arith, need_small t.hdr len small)) v.chain

room_for_free :
    (t : Ring) (len : ℕ)
    → need_of t.hdr len ≤ free_bytes t.hdr.read_off t.hdr.write_off
    → (room_for t len).evicted ≡ 0
room_for_free t len h =
    ap (λ (x : Room). x.evicted)
      (make_room_stop 65503 t.area t.hdr.write_off (need_of t.hdr len) t.hdr.read_off 0 h)

-- After eviction the ring holds what is left, with room for the record.
module _ (t : Ring) (len : ℕ) (ss : List Slot)
    (made : Made t.area t.hdr.write_off (need_of t.hdr len) 0 ss (room_for t len)) where
  pub evict_Holds : t.hdr.write_off < data_size → Holds (evict_step t len) made.left
  evict_Holds h = record {
    read_in = rw (evict_read t len) made.inside;
    write_in = rw (evict_write t len) h;
    chain = rw (evict_area t len, evict_read t len, evict_write t len) made.chain;
  }

  pub evict_HasRoom : t.hdr.write_off < data_size → len ≤ 26 → HasRoom (evict_step t len) len
  evict_HasRoom h small =
      rw (evict_read t len, evict_write t len)
        (omega (
          arith,
          made.room,
          used_bound (room_for t len).read_off t.hdr.write_off made.inside h,
          need_small t.hdr len small,
        ))

-- Appending a built record to a ring that holds a chain evicts the oldest records, as many as it
-- reports and none if the record fits, and adds the record with its sequence number at the end.
pub append_raw-Appended :
    (t : Ring) (rec : List ℕ) (ss : List Slot) → Holds t ss → IsRecord rec → Appended t rec ss
unfolding append_raw
append_raw-Appended t rec ss v ok = record {
  all = padded.all ++ record { pad = false; bytes = stamped t1.hdr rec } ∷ [];
  gone = made.gone;
  holds = put_record-Holds t1 rec made.left held ok padded;
  log =
      put_record_log t1 rec made.left held ok padded
      ∙ ap (λ (xs : List (List ℕ)). xs ++ stamped t1.hdr rec ∷ []) made.oldest
      ∙ ap (λ (n : ℕ). drop made.gone (records ss) ++ put32 rec 2 (stamp_of n) ∷ [])
          (evict_seq t (length rec));
  counted = made.counted ∙ omega arith;
  spared = λ h. omega (arith, made.counted, room_for_free t (length rec) h);
}
  where
    made : Made t.area t.hdr.write_off (need_of t.hdr (length rec)) 0 ss (room_for t (length rec))
    made = room_for-Made t (length rec) ss v ok.most

    t1 : Ring
    t1 = evict_step t (length rec)

    held : Holds t1 made.left
    held = evict_Holds t (length rec) ss made v.write_in

    padded : Padded t1 (length rec) made.left
    padded =
        pad-Padded t1 (length rec) made.left held ok.most
          (evict_HasRoom t (length rec) ss made v.write_in ok.most)
