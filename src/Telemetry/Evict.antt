-- ===== src/Telemetry/Evict.antt =====
-- makeRoom on a chain: what it evicts, and that the room is there when it ends.
use led_display_g6_firmware.Common.{
  ℕ, zero, suc, ◌+◌, ◌-◌, ◌≤◌, ◌<◌, ◌≡◌, refl, sym, ap, subst, ◌∙◌, Bool, List, [], ◌∷◌, drop,
  if◌then◌else◌, Bool-cases, inl, inr, arith,
}
use native.Mathlib.Decide.{dec_le}
use led_display_g6_firmware.Common.Bytes.{Memory}
use led_display_g6_firmware.Telemetry.Layout.{data_size}
use led_display_g6_firmware.Telemetry.Ring.{used, free_bytes, wrap_end, is_pad_at, make_room}
use led_display_g6_firmware.Telemetry.Chain.{Slot, Chain, records, used_advance, wrap_end_bound}

abbrev pub Room : Type 0
Room = record { read_off : ℕ; evicted : ℕ }

-- `out` is what eviction makes of a chain `ss` below the write cursor `w`.
pub record Made (m : Memory) (w need evicted : ℕ) (ss : List Slot) (out : Room) : Type 0 where
  pub left : List Slot
  pub gone : ℕ
  pub chain : Chain m out.read_off (used out.read_off w) left
  pub inside : out.read_off < data_size
  pub room : need ≤ free_bytes out.read_off w
  pub counted : out.evicted ≡ evicted + gone
  pub oldest : records left ≡ drop gone (records ss)

pub make_room_stop :
    (fuel : ℕ) (m : Memory) (w need r evicted : ℕ)
    → need ≤ free_bytes r w
    → make_room (suc fuel) m w need r evicted ≡ record { read_off = r; evicted = evicted }
unfolding make_room
make_room_stop fuel m w need r evicted h = ground arith

make_room_next :
    (fuel : ℕ) (m : Memory) (w need r evicted : ℕ)
    → free_bytes r w < need
    → need < data_size
    → 0 < m r
    → r + m r ≤ data_size
    → make_room (suc fuel) m w need r evicted
      ≡ make_room fuel m w need
          (wrap_end (r + m r))
          (if is_pad_at m r then evicted else evicted + 1)
unfolding make_room
make_room_next fuel m w need r evicted h k p q = ground arith

Made-cons :
    (m : Memory) (w need evicted : ℕ) (s : Slot) (ss : List Slot) (out : Room)
    → Made m w need (if s.pad then evicted else evicted + 1) ss out
    → Made m w need evicted (s ∷ ss) out
Made-cons m w need evicted s ss out v = elim (Bool-cases s.pad) [
  | inl e ↦ record {
    left = v.left;
    gone = v.gone;
    chain = v.chain;
    inside = v.inside;
    room = v.room;
    counted = rw e at v.counted;
    oldest = rw e v.oldest;
  }
  | inr e ↦ record {
    left = v.left;
    gone = suc v.gone;
    chain = v.chain;
    inside = v.inside;
    room = v.room;
    counted = v.counted ∙ (rw e (omega arith));
    oldest = rw e v.oldest;
  }
]

-- With as many rounds as bytes in use, eviction makes the room, and it takes the oldest records.
pub make_room-Made :
    (fuel : ℕ) (m : Memory) (w need r evicted : ℕ) (ss : List Slot)
    → used r w < fuel
    → r < data_size
    → w < data_size
    → need < data_size
    → Chain m r (used r w) ss
    → Made m w need evicted ss (make_room fuel m w need r evicted)
make_room-Made zero m w need r evicted ss f h k n c = absurd (omega arith)
make_room-Made (suc fuel) m w need r evicted [] f h k n c =
    subst (Made m w need evicted []) (sym (make_room_stop fuel m w need r evicted room)) (record {
      left = [];
      gone = 0;
      chain = c;
      inside = h;
      room = room;
      counted = omega arith;
      oldest = refl;
    })
  where
    room : need ≤ free_bytes r w
    room = omega arith
make_room-Made (suc fuel) m w need r evicted (s ∷ ss) f h k n (pos, fits, ins, shape, slot, rest) =
    elim (dec_le need (free_bytes r w)) [
      | yes room ↦
          subst (Made m w need evicted (s ∷ ss)) (sym (make_room_stop fuel m w need r evicted room))
            (record {
              left = s ∷ ss;
              gone = 0;
              chain = (pos, fits, ins, shape, slot, rest);
              inside = h;
              room = room;
              counted = omega arith;
              oldest = refl;
            })
      | no full ↦
          subst (Made m w need evicted (s ∷ ss))
            (sym (make_room_next fuel m w need r evicted (omega arith) n pos ins))
            (Made-cons m w need evicted s ss _ (
              subst
                (λ (b : Bool). Made m w need (if b then evicted else evicted + 1) ss (
                  make_room fuel m w need (wrap_end (r + m r))
                    (if is_pad_at m r then evicted else evicted + 1)))
                (ap (λ (x : Slot). x.pad) slot)
                (make_room-Made fuel m w need (wrap_end (r + m r))
                  (if is_pad_at m r then evicted else evicted + 1) ss (omega (arith, advance))
                  (wrap_end_bound (r + m r) ins) k n
                  (subst (λ (d : ℕ). Chain m (wrap_end (r + m r)) d ss) (sym advance) rest))))
    ]
  where
    advance : used (wrap_end (r + m r)) w ≡ used r w - m r
    advance = used_advance r w (m r) h k fits ins
