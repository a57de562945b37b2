-- ===== src/Telemetry/Acking.antt =====
-- ack: which records it frees.
use led_display_g6_firmware.Common.{
  ℕ, zero, suc, ◌+◌, ◌-◌, ◌≤◌, ◌<◌, ◌≡◌, ◌≢◌, refl, sym, ap, subst, ◌∙◌, ◌⊎◌, Bool, true, false,
  List, [], ◌∷◌, ltb, if◌then◌else◌, Bool-cases, inl, inr, arith,
}
use led_display_g6_firmware.Common.Bytes.{Memory}
use led_display_g6_firmware.Telemetry.Layout.{Ring, Env, data_size, seal_header}
use led_display_g6_firmware.Telemetry.Ring.{
  used, wrap_end, is_pad_at, seq_at, well_formed_at, heap_too_close,
}
use led_display_g6_firmware.Telemetry.Chain.{
  Slot, Chain, slot_at, records, used_bound, used_advance, wrap_end_bound,
}
use led_display_g6_firmware.Telemetry.Walk.{
  Sound-well_formed_at, seq_of, seq_of-bytes_at, not_pad_long,
}
use led_display_g6_firmware.Telemetry.Repair.{used_apart, used_none}
use led_display_g6_firmware.Telemetry.Append.{Holds}
use led_display_g6_firmware.Telemetry.Drain.{Acked, ack_walk, acked, ack}

-- The log without its oldest records up to `ack_seq`.
pub after_ack : ℕ → List (List ℕ) → List (List ℕ)
after_ack a [] = []
after_ack a (r ∷ rs) = if ltb a (seq_of r) then r ∷ rs else after_ack a rs

module _ (fuel : ℕ) (m : Memory) (w a off : ℕ) (moved : Bool) where
  ack_end : off ≡ w → ack_walk (suc fuel) m w a off moved ≡ record { off = off; moved = moved }
  unfolding ack_walk
  ack_end h = ground arith

  ack_stop :
      is_pad_at m off ≡ false
      → a < seq_at m off
      → ack_walk (suc fuel) m w a off moved ≡ record { off = off; moved = moved }
  unfolding ack_walk
  ack_stop h k = ground arith

  ack_next :
      off ≢ w
      → well_formed_at m off w ≡ true
      → (is_pad_at m off ≡ true) ⊎ (seq_at m off ≤ a)
      → ack_walk (suc fuel) m w a off moved ≡ ack_walk fuel m w a (wrap_end (off + m off)) true
  unfolding ack_walk
  ack_next h e k = ground arith

-- The slots that are left when the walk of ack stops at `out`.
pub record Freed (m : Memory) (w a off : ℕ) (moved : Bool) (ss : List Slot) (out : Acked)
    : Type 0 where
  pub left : List Slot
  pub in_area : out.off < data_size
  pub chain : Chain m out.off (used out.off w) left
  pub log : records left ≡ after_ack a (records ss)
  pub flag : moved ≡ true → out.moved ≡ true
  pub idle : out.moved ≡ false → (out.off ≡ off) × (left ≡ ss)

Freed-stay :
    (m : Memory) (w a off : ℕ) (moved : Bool) (ss : List Slot)
    → off < data_size
    → Chain m off (used off w) ss
    → records ss ≡ after_ack a (records ss)
    → Freed m w a off moved ss (record { off = off; moved = moved })
Freed-stay m w a off moved ss h c e = record {
  left = ss;
  in_area = h;
  chain = c;
  log = e;
  flag = λ p. p;
  idle = λ p. (refl, refl);
}

Freed-move :
    (m : Memory) (w a off next : ℕ) (moved : Bool) (s : Slot) (ss : List Slot) (out : Acked)
    → (s.pad ≡ true) ⊎ (seq_of s.bytes ≤ a)
    → Freed m w a next true ss out
    → Freed m w a off moved (s ∷ ss) out
unfolding after_ack
Freed-move m w a off next moved s ss out old v = record {
  left = v.left;
  in_area = v.in_area;
  chain = v.chain;
  log = v.log ∙ skip;
  flag = λ p. v.flag refl;
  idle = λ p. absurd (cc (v.flag refl, p));
}
  where
    skip : after_ack a (records ss) ≡ after_ack a (records (s ∷ ss))
    skip = ground arith

slot_seq :
    (m : Memory) (off : ℕ) (s : Slot)
    → slot_at m off ≡ s
    → s.pad ≡ false
    → seq_of s.bytes ≡ seq_at m off
slot_seq m off s e h =
    ap (λ (x : Slot). seq_of x.bytes) (sym e)
    ∙ seq_of-bytes_at m off (m off)
        (not_pad_long (m off) (m (off + 1)) (ap (λ (x : Slot). x.pad) e ∙ h))

slot_old :
    (m : Memory) (off a : ℕ) (s : Slot)
    → slot_at m off ≡ s
    → (is_pad_at m off ≡ true) ⊎ (seq_at m off ≤ a)
    → (s.pad ≡ true) ⊎ (seq_of s.bytes ≤ a)
slot_old m off a s e (inl h) = inl (ap (λ (x : Slot). x.pad) (sym e) ∙ h)
slot_old m off a s e (inr h) = elim (Bool-cases s.pad) [
  | inl p ↦ inl p
  | inr p ↦ inr (omega (arith, slot_seq m off s e p))
]

log_none : (a : ℕ) → records [] ≡ after_ack a (records [])
unfolding after_ack
log_none a = refl

-- A record newer than the acknowledged ones stays, with all behind it.
log_kept :
    (a : ℕ) (s : Slot) (ss : List Slot)
    → s.pad ≡ false
    → a < seq_of s.bytes
    → records (s ∷ ss) ≡ after_ack a (records (s ∷ ss))
unfolding after_ack
log_kept a s ss h k = rw h (ground arith)

ack_choice : (pad : Bool) (seq a : ℕ) → ((pad ≡ false) × (a < seq)) ⊎ ((pad ≡ true) ⊎ (seq ≤ a))
ack_choice pad seq a = ground arith

pub ack_walk-Freed :
    (fuel : ℕ) (m : Memory) (w a off : ℕ) (moved : Bool) (ss : List Slot)
    → used off w < fuel
    → off < data_size
    → w < data_size
    → Chain m off (used off w) ss
    → Freed m w a off moved ss (ack_walk fuel m w a off moved)
ack_walk-Freed zero m w a off moved ss f h k c = absurd (omega arith)
ack_walk-Freed (suc fuel) m w a off moved [] f h k c =
    subst (Freed m w a off moved []) (sym (ack_end fuel m w a off moved (used_none off w h k c)))
      (Freed-stay m w a off moved [] h c (log_none a))
ack_walk-Freed (suc fuel) m w a off moved (s ∷ ss) f h k (pos, fits, ins, shape, slot, rest) =
    elim (ack_choice (is_pad_at m off) (seq_at m off) a) [
      | inl (real, new) ↦
          let not_pad : s.pad ≡ false = ap (λ (x : Slot). x.pad) (sym slot) ∙ real in
          subst (Freed m w a off moved (s ∷ ss)) (sym (ack_stop fuel m w a off moved real new)) (
            Freed-stay m w a off moved (s ∷ ss) h (pos, fits, ins, shape, slot, rest)
              (log_kept a s ss not_pad (omega (arith, slot_seq m off s slot not_pad))))
      | inr old ↦
          subst (Freed m w a off moved (s ∷ ss))
            (sym (
              ack_next fuel m w a off moved (used_apart off w h k (omega arith))
                (Sound-well_formed_at m off w
                  (record { some_bytes = pos; before_write = fits; in_area = ins; shaped = shape }))
                old))
            (Freed-move m w a off (wrap_end (off + m off)) moved s ss _
              (slot_old m off a s slot old)
              (ack_walk-Freed fuel m w a (wrap_end (off + m off)) true ss (omega (arith, advance))
                (wrap_end_bound (off + m off) ins) k
                (subst (λ (d : ℕ). Chain m (wrap_end (off + m off)) d ss) (sym advance) rest)))
    ]
  where
    advance : used (wrap_end (off + m off)) w ≡ used off w - m off
    advance = used_advance off w (m off) h k fits ins

-- What acknowledging leaves: the same log without its oldest records up to the number.
pub record Drained (t : Ring) (ack_seq : ℕ) (ss : List Slot) (u : Ring) : Type 0 where
  pub left : List Slot
  pub holds : Holds u left
  pub log : records left ≡ after_ack ack_seq (records ss)
  pub seal : u.hdr.next_seq ≡ t.hdr.next_seq

module _ (t : Ring) (e : Env) (a : ℕ) (usable : t.ring_ok ≡ true) (clear : heap_too_close e ≡ false)
    (given : a < t.hdr.next_seq) (proper : a ≢ 0xffff_ffff) where
  ack_moves :
      (acked t a).moved ≡ true
      → ack t e a ≡ record t { hdr = seal_header (record t.hdr { read_off = (acked t a).off }) }
  unfolding ack
  ack_moves h = ground arith

  ack_stays : (acked t a).moved ≡ false → ack t e a ≡ t
  unfolding ack
  ack_stays h = ground arith

  pub freed :
      (ss : List Slot)
      → Holds t ss
      → Freed t.area t.hdr.write_off a t.hdr.read_off false ss (acked t a)
  freed ss v =
      ack_walk-Freed data_size t.area t.hdr.write_off a t.hdr.read_off false ss
        (used_bound t.hdr.read_off t.hdr.write_off v.read_in v.write_in) v.read_in v.write_in
        v.chain

  moved_Drained :
      (ss : List Slot)
      → Holds t ss
      → Drained t a ss
          (record t { hdr = seal_header (record t.hdr { read_off = (acked t a).off }) })
  moved_Drained ss v =
      let f : Freed t.area t.hdr.write_off a t.hdr.read_off false ss (acked t a) = freed ss v in
      record {
        left = f.left;
        holds = record { read_in = f.in_area; write_in = v.write_in; chain = f.chain };
        log = f.log;
        seal = refl;
      }

-- On a usable ring whose heap is clear, ack with a number that the ring has given out frees the
-- oldest records up to that number, all of them and nothing else.
pub ack-Drained :
    (t : Ring) (e : Env) (a : ℕ) (ss : List Slot)
    → Holds t ss
    → t.ring_ok ≡ true
    → heap_too_close e ≡ false
    → a < t.hdr.next_seq
    → a ≢ 0xffff_ffff
    → Drained t a ss (ack t e a)
ack-Drained t e a ss v usable clear given proper = elim (Bool-cases (acked t a).moved) [
  | inl moved ↦
      subst (Drained t a ss) (sym (ack_moves t e a usable clear given proper moved))
        (moved_Drained t e a usable clear given proper ss v)
  | inr still ↦
      let f = freed t e a usable clear given proper ss v in
      subst (Drained t a ss) (sym (ack_stays t e a usable clear given proper still)) (record {
        left = ss;
        holds = v;
        log = ap records (sym (f.idle still).1) ∙ f.log;
        seal = refl;
      })
]
