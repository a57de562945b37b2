-- ===== src/Telemetry/Crash.antt =====
-- appendRaw and a reset in the middle of it: what the next boot finds in memory after each flush.
use native.Mathlib.Decide.{dec_lt}
use led_display_g6_firmware.Common.{
  ℕ, ◌+◌, ◌-◌, ◌%◌, ◌^◌, ◌≤◌, ◌<◌, ◌≡◌, ◌≢◌, refl, sym, ap, subst, ◌∙◌, ◌⊎◌, inl, inr, true, false,
  List, length, drop, ltb, ◌==◌, ==_iff, if◌then◌else◌, if_intro, arith,
}
use led_display_g6_firmware.Common.Bytes.{Memory, length-put32}
use led_display_g6_firmware.Telemetry.Layout.{Header, Ring, data_size, seal_header}
use led_display_g6_firmware.Telemetry.Ring.{
  used, need_of, tail_of, pad_bytes, record_off, stamp_of, room_for, evict_step, pad_step,
  record_step, append_raw,
}
use led_display_g6_firmware.Telemetry.Chain.{Slot, Chain, records, around, around-used}
use led_display_g6_firmware.Telemetry.Write.{Chain-poke_behind}
use led_display_g6_firmware.Telemetry.Evict.{Made}
use led_display_g6_firmware.Telemetry.Append.{
  Holds, IsRecord, HasRoom, stamped, pad_none, pad_some, length-pad_bytes,
}
use led_display_g6_firmware.Telemetry.Log.{
  evict_area, evict_write, evict_read, evict_Holds, evict_HasRoom, room_for-Made,
}
use led_display_g6_firmware.Telemetry.Live.{Sealed, Live, compute_check_seal}

-- The flushed header: evictions are flushed only when a record was evicted.
unfoldable pub stored : Ring → Ring → ℕ → Ring
stored t u len = if (room_for t len).evicted == 0 then record u { hdr = t.hdr } else u

-- What memory holds after the eviction, after the PAD and after the record's bytes.
abbrev pub after_evict : Ring → List ℕ → Ring
after_evict t rec = stored t (evict_step t (length rec)) (length rec)

abbrev pub after_pad : Ring → List ℕ → Ring
after_pad t rec = stored t (pad_step (evict_step t (length rec)) (length rec)) (length rec)

abbrev pub after_record : Ring → List ℕ → Ring
after_record t rec =
    stored t (record_step (pad_step (evict_step t (length rec)) (length rec)) rec) (length rec)

-- Memory that the next boot accepts, with the records `log`.
pub record Bootable (u : Ring) (log : List (List ℕ)) : Type 0 where
  pub slots : List Slot
  pub holds : Holds u slots
  pub header : Sealed u.hdr
  pub same : records slots ≡ log

-- Where the record goes: behind the bytes in use, and behind the PAD if there is one.
record_place :
    (r w len : ℕ)
    → r < data_size
    → w < data_size
    → len ≤ 26
    → used r w + (if ltb (data_size - w) len then data_size - w + len else len) < data_size
    → (k : ℕ) × (around r (used r w + k) ≡ (if ltb (data_size - w) len then 0 else w))
      × ((if ltb (data_size - w) len then 0 else w) + len ≤ data_size)
      × (used r w + k + len < data_size)
record_place r w len h p small room =
    (if ltb (data_size - w) len then data_size - w else 0, ground arith, ground arith, ground arith)

-- A ring with room for a record keeps its chain while the PAD and the record are written.
module _ (t : Ring) (rec : List ℕ) (ss : List Slot) (v : Holds t ss) (ok : IsRecord rec)
    (room : HasRoom t (length rec)) where
  pad-Chain :
      Chain (pad_step t (length rec)).area t.hdr.read_off (used t.hdr.read_off t.hdr.write_off) ss
  pad-Chain = elim (dec_lt (tail_of t.hdr) (length rec)) [
    | no fits ↦ rw (pad_none t (length rec) (omega arith)) v.chain
    | yes short ↦ rw (pad_some t (length rec) short) (
        Chain-poke_behind t.area t.hdr.read_off (used t.hdr.read_off t.hdr.write_off) 0
          t.hdr.write_off (pad_bytes (tail_of t.hdr)) ss v.read_in
          (ap (around t.hdr.read_off) (omega arith)
            ∙ around-used t.hdr.read_off t.hdr.write_off v.read_in v.write_in)
          (omega (arith, pad_len)) (ground (arith, pad_len)) v.chain)
  ]
    where
      pad_len :
          (0 < length (pad_bytes (tail_of t.hdr)))
          × (length (pad_bytes (tail_of t.hdr)) ≤ tail_of t.hdr)
      pad_len = length-pad_bytes (tail_of t.hdr) (omega (arith, v.write_in))

  record-Chain :
      Chain
        (record_step (pad_step t (length rec)) rec).area
        t.hdr.read_off
        (used t.hdr.read_off t.hdr.write_off)
        ss
  unfolding record_step pad_step
  record-Chain =
      let (k, at, inside, fits) =
        record_place t.hdr.read_off t.hdr.write_off (length rec) v.read_in v.write_in ok.most
          room in
      Chain-poke_behind (pad_step t (length rec)).area t.hdr.read_off
        (used t.hdr.read_off t.hdr.write_off) k (record_off t.hdr (length rec)) (stamped t.hdr rec)
        ss v.read_in at (omega (arith, length-put32 rec 2 (stamp_of t.hdr.next_seq)))
        (omega (arith, length-put32 rec 2 (stamp_of t.hdr.next_seq))) pad-Chain

-- No eviction at all, or the eviction of a record: not the eviction of PADs alone.
abbrev pub Announced : Ring → ℕ → Type 0
Announced t len = ((room_for t len).evicted ≢ 0) ⊎ ((room_for t len).read_off ≡ t.hdr.read_off)

-- The header in memory once eviction is flushed.
module _ (t : Ring) (len : ℕ) where
  abbrev published : Header
  published = seal_header (record t.hdr {
    read_off = (room_for t len).read_off;
    dropped = (t.hdr.dropped + (room_for t len).evicted) % 2 ^ 32;
  })

  evict_published : ((room_for t len).evicted == 0) ≡ false → (evict_step t len).hdr ≡ published
  unfolding evict_step
  evict_published h = rw h

  stored_header {ℓ} :
      (P : Header → Type ℓ) (u : Ring)
      → u.hdr ≡ (evict_step t len).hdr
      → (((room_for t len).evicted == 0) ≡ true → P t.hdr)
      → P published
      → P (stored t u len).hdr
  unfolding stored
  stored_header P u e f g =
      if_intro (λ (x : Ring). P x.hdr) ((room_for t len).evicted == 0) f
        (λ h. subst P (sym (e ∙ evict_published h)) g)

  stored_area : (u : Ring) → (stored t u len).area ≡ u.area
  unfolding stored
  stored_area u = ground arith

  zero_read :
      Announced t len
      → ((room_for t len).evicted == 0) ≡ true
      → t.hdr.read_off ≡ (room_for t len).read_off
  zero_read (inl ne) h = absurd (ne ((==_iff (room_for t len).evicted 0).0 h))
  zero_read (inr same) h = sym same

-- Memory with the flushed header and a chain behind the new read cursor is bootable.
module _ (t : Ring) (len : ℕ) (ss : List Slot) (s : Sealed t.hdr)
    (made : Made t.area t.hdr.write_off (need_of t.hdr len) 0 ss (room_for t len))
    (a : Announced t len) where
  stored-Sealed : (u : Ring) → u.hdr ≡ (evict_step t len).hdr → Sealed (stored t u len).hdr
  stored-Sealed u e =
      stored_header t len Sealed u e (λ _. s)
        (record {
          magic_ok = s.magic_ok;
          ver_ok = s.ver_ok;
          sum_ok = sym (compute_check_seal _);
          write_ok = s.write_ok;
          read_ok = made.inside;
          seq_some = s.seq_some;
          seq_word = s.seq_word;
        })

  stored_cursors :
      (u : Ring)
      → u.hdr ≡ (evict_step t len).hdr
      → ((stored t u len).hdr.read_off ≡ (room_for t len).read_off)
        × ((stored t u len).hdr.write_off ≡ t.hdr.write_off)
  stored_cursors u e =
      stored_header t len
        (λ (h : Header). (h.read_off ≡ (room_for t len).read_off) × (h.write_off ≡ t.hdr.write_off))
        u e (λ z. (zero_read t len a z, refl)) (refl, refl)

  stored_Bootable :
      (u : Ring)
      → u.hdr ≡ (evict_step t len).hdr
      → Chain u.area
          (room_for t len).read_off
          (used (room_for t len).read_off t.hdr.write_off)
          made.left
      → Bootable (stored t u len) (drop made.gone (records ss))
  stored_Bootable u e c =
      let (r, w) = stored_cursors u e in
      record {
        slots = made.left;
        holds = record {
          read_in = rw r made.inside;
          write_in = rw w s.write_ok;
          chain = rw (stored_area t len u, r, w) c;
        };
        header = stored-Sealed u e;
        same = made.oldest;
      }

room_counted : (t : Ring) (rec : List ℕ) → (append_raw t rec).1 ≡ (room_for t (length rec)).evicted
unfolding append_raw
room_counted t rec = refl

pad_header : (t : Ring) (len : ℕ) → (pad_step t len).hdr ≡ t.hdr
unfolding pad_step
pad_header t len = refl

record_header : (t : Ring) (len : ℕ) (rec : List ℕ) → (record_step (pad_step t len) rec).hdr ≡ t.hdr
unfolding record_step pad_step
record_header t len rec = refl

-- The records that are left at each flush before the last, and how many of the oldest went.
pub record CrashSafe (t : Ring) (rec : List ℕ) (log : List (List ℕ)) : Type 0 where
  pub gone : ℕ
  pub counted : (append_raw t rec).1 ≡ gone
  pub evicted : Bootable (after_evict t rec) (drop gone log)
  pub padded : Bootable (after_pad t rec) (drop gone log)
  pub copied : Bootable (after_record t rec) (drop gone log)

-- A reset between any two flushes of appendRaw finds a header that the next boot accepts and a
-- chain of the log's records without the evicted ones, unless PADs alone were evicted.
pub append_raw-CrashSafe :
    (t : Ring) (rec : List ℕ) (v : Live t)
    → IsRecord rec
    → Announced t (length rec)
    → CrashSafe t rec (records v.slots)
append_raw-CrashSafe t rec v ok a = record {
  gone = made.gone;
  counted = room_counted t rec ∙ made.counted ∙ omega arith;
  evicted =
      stored_Bootable t len v.slots v.header made a t1 refl (rw (evict_area t len) made.chain);
  padded =
      stored_Bootable t len v.slots v.header made a (pad_step t1 len) (pad_header t1 len)
        (moved (pad_step t1 len).area (pad-Chain t1 rec made.left held ok room));
  copied =
      stored_Bootable t len v.slots v.header made a (record_step (pad_step t1 len) rec)
        (record_header t1 len rec)
        (moved (record_step (pad_step t1 len) rec).area
          (record-Chain t1 rec made.left held ok room));
}
  where
    len : ℕ
    len = length rec

    t1 : Ring
    t1 = evict_step t len

    made : Made t.area t.hdr.write_off (need_of t.hdr len) 0 v.slots (room_for t len)
    made = room_for-Made t len v.slots v.holds ok.most

    held : Holds t1 made.left
    held = evict_Holds t len v.slots made v.holds.write_in

    room : HasRoom t1 len
    room = evict_HasRoom t len v.slots made v.holds.write_in ok.most

    moved :
        (m : Memory)
        → Chain m t1.hdr.read_off (used t1.hdr.read_off t1.hdr.write_off) made.left
        → Chain m
            (room_for t len).read_off
            (used (room_for t len).read_off t.hdr.write_off)
            made.left
    moved m c = rw (evict_read t len, evict_write t len) at c
