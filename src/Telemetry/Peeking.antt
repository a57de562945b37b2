-- ===== src/Telemetry/Peeking.antt =====
-- peek: which records it returns.
use led_display_g6_firmware.Common.{
  ℕ, zero, suc, ◌+◌, ◌-◌, ◌≤◌, ◌<◌, ◌≡◌, ◌≢◌, refl, sym, ap, subst, ◌∙◌, Bool, true, false, not,
  List, [], ◌∷◌, ◌++◌, length, length-append, ◌==◌, inl, inr, arith,
}
use led_display_g6_firmware.Common.Bytes.{Memory, bytes_at, length-bytes_at}
use led_display_g6_firmware.Telemetry.Layout.{Ring, Env, data_size}
use led_display_g6_firmware.Telemetry.Ring.{
  used, wrap_end, is_pad_at, seq_at, well_formed_at, heap_too_close,
}
use led_display_g6_firmware.Telemetry.Chain.{
  Slot, Chain, slot_at, records, used_bound, used_advance, wrap_end_bound,
}
use led_display_g6_firmware.Telemetry.Walk.{
  Sound-well_formed_at, seq_of, seq_of-bytes_at, not_pad_long,
}
use led_display_g6_firmware.Telemetry.Repair.{used_apart, used_none}
use led_display_g6_firmware.Telemetry.Append.{Holds}
use led_display_g6_firmware.Telemetry.Fit.{
  fitting, joined, first_of, Took, Peeked, Going, peek_end, peek_full, peek_skip, peek_copy,
  fitting_first, fitting_none, fitting-nil, Took-end, Took-stop, Took-copy, Took-skip, Going-copy,
  peek_choice, records_pad, records_real,
}
use led_display_g6_firmware.Telemetry.Drain.{Block, copy_record, empty_block, peek_walk, peek}

-- The slot at the walk's place, when it is a record.
module _ (m : Memory) (w room : ℕ) (b : Block) (s : Slot) (ss : List Slot)
    (slot : slot_at m b.off ≡ s) (real : is_pad_at m b.off ≡ false) where
  is_real : s.pad ≡ false
  is_real = ap (λ (x : Slot). x.pad) (sym slot) ∙ real

  slot_bytes : bytes_at m b.off (m b.off) ≡ s.bytes
  slot_bytes = ap (λ (x : Slot). x.bytes) slot

  slot_length : length s.bytes ≡ m b.off
  slot_length = ap length (sym slot_bytes) ∙ length-bytes_at m b.off (m b.off)

  slot_seq : seq_at m b.off ≡ seq_of s.bytes
  slot_seq =
      sym (seq_of-bytes_at m b.off (m b.off) (not_pad_long (m b.off) (m (b.off + 1)) real))
      ∙ ap seq_of slot_bytes

  Peeked-full :
      b.off ≢ w
      → length b.bytes ≤ room
      → room < length b.bytes + m b.off
      → Peeked w room b (records (s ∷ ss)) b
  Peeked-full ne h k =
      subst (λ (rs : List (List ℕ)). Peeked w room b rs b) (sym (records_real s ss is_real))
        (subst (λ (x : List (List ℕ)). Took w b (s.bytes ∷ records ss) x b)
          (sym (
            fitting_none (room - length b.bytes) s.bytes (records ss) (omega (arith, slot_length))))
          (Took-stop w b s.bytes (records ss) ne))

  Peeked-copy :
      (next : ℕ) (out : Block)
      → Going room b
      → length b.bytes + m b.off ≤ room
      → Peeked w room (record (copy_record m b.off b) { off = next }) (records ss) out
      → Peeked w room b (records (s ∷ ss)) out
  Peeked-copy next out g h v =
      subst (λ (rs : List (List ℕ)). Peeked w room b rs out) (sym (records_real s ss is_real))
        (subst (λ (x : List (List ℕ)). Took w b (s.bytes ∷ records ss) x out)
          (sym (
            fitting_first (room - length b.bytes) s.bytes (records ss)
              (omega (arith, slot_length))))
          (Took-copy w next b m s.bytes (records ss) _ out
            (omega (arith, g.few, g.small, not_pad_long (m b.off) (m (b.off + 1)) real)) slot_bytes
            slot_seq
            (subst
              (λ (n : ℕ).
                Took w (record (copy_record m b.off b) { off = next }) (records ss)
                  (fitting n (records ss)) out)
              same_room v)))
    where
      same_room :
          room - length (b.bytes ++ bytes_at m b.off (m b.off))
          ≡ room - length b.bytes - length s.bytes
      same_room = omega (
        arith,
        length-append b.bytes (bytes_at m b.off (m b.off)),
        length-bytes_at m b.off (m b.off),
        slot_length,
      )

-- The walk of peek copies the records that fit, in order, and stops behind them.
peek_walk-Peeked :
    (fuel : ℕ) (m : Memory) (w room : ℕ) (b : Block) (ss : List Slot)
    → used b.off w < fuel
    → b.off < data_size
    → w < data_size
    → Chain m b.off (used b.off w) ss
    → Going room b
    → Peeked w room b (records ss) (peek_walk fuel m w room b)
peek_walk-Peeked zero m w room b ss f h k c g = absurd (omega arith)
peek_walk-Peeked (suc fuel) m w room b [] f h k c g =
    let e = used_none b.off w h k c in
    subst (Peeked w room b []) (sym (peek_end fuel m w room b e)) (
      subst (λ (x : List (List ℕ)). Took w b [] x b) (sym (fitting-nil (room - length b.bytes)))
        (Took-end w b e))
peek_walk-Peeked (suc fuel) m w room b (s ∷ ss) f h k (pos, fits, ins, shape, slot, rest) g =
    elim (peek_choice (is_pad_at m b.off) (length b.bytes + m b.off) room) [
      | inl pad ↦
          subst (Peeked w room b (records (s ∷ ss))) (sym (peek_skip fuel m w room b ne good pad)) (
            subst (λ (rs : List (List ℕ)). Peeked w room b rs (peek_walk fuel m w room skipped))
              (sym (records_pad s ss (ap (λ (x : Slot). x.pad) (sym slot) ∙ pad)))
              (Took-skip w next b (records ss) _ _ (
                peek_walk-Peeked fuel m w room skipped ss (omega (arith, advance))
                  (wrap_end_bound (b.off + m b.off) ins) k behind
                  (record { fits = g.fits; small = g.small; few = g.few }))))
      | inr (real, inl full) ↦
          subst (Peeked w room b (records (s ∷ ss))) (sym (peek_full fuel m w room b real full))
            (Peeked-full m w room b s ss slot real ne g.fits full)
      | inr (real, inr left) ↦
          subst (Peeked w room b (records (s ∷ ss)))
            (sym (peek_copy fuel m w room b ne good real left))
            (Peeked-copy m w room b s ss slot real next _ g left (
              peek_walk-Peeked fuel m w room (record (copy_record m b.off b) { off = next }) ss
                (omega (arith, advance)) (wrap_end_bound (b.off + m b.off) ins) k behind
                (Going-copy m room next b g pos left)))
    ]
  where
    ne : b.off ≢ w
    ne = used_apart b.off w h k (omega arith)

    good : well_formed_at m b.off w ≡ true
    good =
        Sound-well_formed_at m b.off w
          (record { some_bytes = pos; before_write = fits; in_area = ins; shaped = shape })

    advance : used (wrap_end (b.off + m b.off)) w ≡ used b.off w - m b.off
    advance = used_advance b.off w (m b.off) h k fits ins

    next : ℕ
    next = wrap_end (b.off + m b.off)

    skipped : Block
    skipped = record b { off = next }

    behind : Chain m next (used next w) ss
    behind = subst (λ (d : ℕ). Chain m next d ss) (sym advance) rest

-- What peek returns of a log: its oldest records that fit whole, joined, with their number, the
-- number of the first, and whether any record is left out.
pub record PeekOf (max_bytes : ℕ) (log : List (List ℕ)) (out : Block) (more : Bool) : Type 0 where
  pub bytes : out.bytes ≡ joined (fitting max_bytes log)
  pub count : out.n_records ≡ length (fitting max_bytes log)
  pub first : out.first_seq ≡ first_of 0 (fitting max_bytes log)
  pub rest : more ≡ not (length (fitting max_bytes log) == length log)

peek_usable :
    (t : Ring) (e : Env) (max_bytes : ℕ)
    → t.ring_ok ≡ true
    → heap_too_close e ≡ false
    → let b = peek_walk data_size t.area t.hdr.write_off max_bytes (empty_block t.hdr.read_off) in
      peek t e max_bytes ≡ (t, b, not (b.off == t.hdr.write_off))
unfolding peek
peek_usable t e max_bytes h k = rw (h, k)

-- On a usable ring whose heap is clear, peek changes nothing and returns the oldest records that
-- fit into `max_bytes` bytes, whole and in order.
pub peek-PeekOf :
    (t : Ring) (e : Env) (max_bytes : ℕ) (ss : List Slot)
    → Holds t ss
    → t.ring_ok ≡ true
    → heap_too_close e ≡ false
    → max_bytes < 65536
    → ((peek t e max_bytes).0 ≡ t)
      × PeekOf max_bytes (records ss) (peek t e max_bytes).1 (peek t e max_bytes).2
peek-PeekOf t e max_bytes ss v usable clear small = rw (peek_usable t e max_bytes usable clear) (
  refl,
  record { bytes = p.bytes; count = p.count ∙ omega arith; first = p.first; rest = ap not p.ends },
)
  where
    b : Block
    b = empty_block t.hdr.read_off

    p :
        Took t.hdr.write_off b
          (records ss)
          (fitting max_bytes (records ss))
          (peek_walk data_size t.area t.hdr.write_off max_bytes b)
    p =
        subst
          (λ (n : ℕ).
            Took t.hdr.write_off b (records ss) (fitting n (records ss))
              (peek_walk data_size t.area t.hdr.write_off max_bytes b))
          (omega arith)
          (peek_walk-Peeked data_size t.area t.hdr.write_off max_bytes b ss
            (used_bound t.hdr.read_off t.hdr.write_off v.read_in v.write_in) v.read_in v.write_in
            v.chain (record { fits = omega arith; small = small; few = omega arith }))
