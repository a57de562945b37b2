-- ===== src/Telemetry/Chain.antt =====
-- The records between two cursors, as a list: how the list moves with the memory and the cursors.
use led_display_g6_firmware.Common.{
  ℕ, ◌+◌, ◌-◌, ◌≤◌, ◌<◌, ◌≡◌, refl, sym, ap, subst, ◌∙◌, Bool, true, List, [], ◌∷◌, ◌++◌, ltb,
  if◌then◌else◌, arith,
}
use led_display_g6_firmware.Common.Bytes.{Memory, bytes_at, bytes_at_cong}
use led_display_g6_firmware.Telemetry.Layout.{data_size}
use led_display_g6_firmware.Telemetry.Ring.{used, wrap_end, is_pad, is_pad_at, shape_ok}

-- Whether it is a PAD, and its bytes.
abbrev pub Slot : Type 0
Slot = record { pad : Bool; bytes : List ℕ }

abbrev pub slot_at : Memory → ℕ → Slot
slot_at m off = record { pad = is_pad_at m off; bytes = bytes_at m off (m off) }

-- From `off` on the memory holds exactly `ss` in `d` bytes, going round at the end of the area.
abbrev pub Chain : Memory → ℕ → ℕ → List Slot → Type 0
Chain m off d [] = d ≡ 0
Chain m off d (s ∷ ss) =
    (0 < m off)
    × (m off ≤ d)
    × (off + m off ≤ data_size)
    × (shape_ok (m off) (m (off + 1)) (m (off + 12)) ≡ true)
    × (slot_at m off ≡ s)
    × Chain m (wrap_end (off + m off)) (d - m off) ss

-- The place `i` bytes on from `off`.
abbrev pub around : ℕ → ℕ → ℕ
around off i = if ltb (off + i) data_size then off + i else off + i - data_size

-- The records of a chain, oldest first.
abbrev pub records : List Slot → List (List ℕ)
records [] = []
records (s ∷ ss) = if s.pad then records ss else s.bytes ∷ records ss

pub used_bound : (r w : ℕ) → r < data_size → w < data_size → used r w < data_size
used_bound r w h k = ground arith

pub used_advance :
    (r w len : ℕ)
    → r < data_size
    → w < data_size
    → len ≤ used r w
    → r + len ≤ data_size
    → used (wrap_end (r + len)) w ≡ used r w - len
used_advance r w len h k p q = ground arith

pub wrap_end_bound : (e : ℕ) → e ≤ data_size → wrap_end e < data_size
wrap_end_bound e h = ground arith

pub around-used : (r w : ℕ) → r < data_size → w < data_size → around r (used r w) ≡ w
around-used r w h k = ground arith

around_advance :
    (off len i : ℕ)
    → off < data_size
    → off + len ≤ data_size
    → i < data_size
    → around (wrap_end (off + len)) i ≡ around off (len + i)
around_advance off len i h k p = ground arith

shape_ok_cong :
    (len a b c d : ℕ)
    → (1 < len → a ≡ c)
    → (12 < len → b ≡ d)
    → 0 < len
    → shape_ok len a b ≡ true
    → shape_ok len c d ≡ true
unfolding shape_ok
shape_ok_cong len a b c d h k p e = ground arith

is_pad_cong : (len a c : ℕ) → (1 < len → a ≡ c) → is_pad len a ≡ is_pad len c
is_pad_cong len a c h = ground arith

zero_place : (off : ℕ) → off + 0 ≡ off
zero_place off = omega arith

-- Two memories that agree on the bytes of a record hold the same record.
module _ (m n : Memory) (off : ℕ) (same : (i : ℕ) → i < m off → m (off + i) ≡ n (off + i)) where
  same_len : 0 < m off → m off ≡ n off
  same_len h = omega (arith, ap m (zero_place off), same 0 h, ap n (zero_place off))

  same_bytes : 0 < m off → bytes_at m off (m off) ≡ bytes_at n off (n off)
  same_bytes h =
      bytes_at_cong m n off (m off)
        (λ x p q. subst (λ (y : ℕ). m y ≡ n y) (omega arith) (same (x - off) (omega arith)))
      ∙ ap (bytes_at n off) (same_len h)

  same_slot : 0 < m off → slot_at m off ≡ slot_at n off
  same_slot h =
      cc (is_pad_cong (m off) (m (off + 1)) (n (off + 1)) (same 1), same_len h, same_bytes h)

  same_shape :
      0 < m off
      → shape_ok (m off) (m (off + 1)) (m (off + 12)) ≡ true
      → shape_ok (n off) (n (off + 1)) (n (off + 12)) ≡ true
  same_shape h e =
      subst (λ (l : ℕ). shape_ok l (n (off + 1)) (n (off + 12)) ≡ true) (same_len h)
        (shape_ok_cong (m off) (m (off + 1)) (m (off + 12)) (n (off + 1)) (n (off + 12)) (same 1)
          (same 12) h e)

around_inside : (off i : ℕ) → off + i < data_size → around off i ≡ off + i
around_inside off i h = ground arith

-- A chain is kept by a memory that agrees on its bytes.
pub Chain-frame :
    (m n : Memory) (off d : ℕ) (ss : List Slot)
    → off < data_size
    → d < data_size
    → ((i : ℕ) → i < d → m (around off i) ≡ n (around off i))
    → Chain m off d ss
    → Chain n off d ss
Chain-frame m n off d [] h k same c = c
Chain-frame m n off d (s ∷ ss) h k same (pos, fits, inside, shape, slot, rest) = (
  subst (λ (l : ℕ). 0 < l) len pos,
  subst (λ (l : ℕ). l ≤ d) len fits,
  subst (λ (l : ℕ). off + l ≤ data_size) len inside,
  same_shape m n off here pos shape,
  sym (same_slot m n off here pos) ∙ slot,
  subst (λ (l : ℕ). Chain n (wrap_end (off + l)) (d - l) ss) len
      (Chain-frame m n (wrap_end (off + m off)) (d - m off) ss (wrap_end_bound (off + m off) inside)
        (omega arith)
        (λ i p.
          subst (λ (x : ℕ). m x ≡ n x) (sym (around_advance off (m off) i h inside (omega arith)))
            (same (m off + i) (omega arith)))
        rest),
)
  where
    here : (i : ℕ) → i < m off → m (off + i) ≡ n (off + i)
    here i p =
        subst (λ (x : ℕ). m x ≡ n x) (around_inside off i (omega arith)) (same i (omega arith))

    len : m off ≡ n off
    len = same_len m n off here pos

-- A record written where the chain ends extends it.
pub Chain-extend :
    (m : Memory) (off d e : ℕ) (ss : List Slot)
    → off < data_size
    → d + m e < data_size
    → around off d ≡ e
    → 0 < m e
    → e + m e ≤ data_size
    → shape_ok (m e) (m (e + 1)) (m (e + 12)) ≡ true
    → Chain m off d ss
    → Chain m off (d + m e) (ss ++ slot_at m e ∷ [])
Chain-extend m off d e [] h k at pos inside shape c =
    subst (λ (x : ℕ). Chain m x (d + m e) (slot_at m e ∷ [])) (ground arith)
      (pos, omega arith, inside, shape, refl, omega arith)
Chain-extend m off d e (s ∷ ss) h k at pos inside shape (q, fits, ins, sh, slot, rest) = (
  q,
  omega arith,
  ins,
  sh,
  slot,
  subst (λ (x : ℕ). Chain m (wrap_end (off + m off)) x (ss ++ slot_at m e ∷ [])) (omega arith)
      (Chain-extend m (wrap_end (off + m off)) (d - m off) e ss (wrap_end_bound (off + m off) ins)
        (omega arith)
        (around_advance off (m off) (d - m off) h ins (omega arith)
          ∙ ap (around off) (omega arith)
          ∙ at)
        pos inside shape rest),
)
