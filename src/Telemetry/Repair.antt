-- ===== src/Telemetry/Repair.antt =====
-- repairChain: whatever the area holds, the ring holds a chain afterwards; a ring that holds one
-- is left as it is.
use native.Mathlib.Decide.{ℕ_discrete}
use led_display_g6_firmware.Common.{
  ℕ, zero, suc, ◌+◌, ◌-◌, ◌≤◌, ◌<◌, ◌≡◌, ◌≢◌, refl, sym, subst, ◌∙◌, true, false, List, [], ◌∷◌,
  Bool-cases, ◌⊎◌, inl, inr, arith,
}
use led_display_g6_firmware.Common.Bytes.{Memory}
use led_display_g6_firmware.Telemetry.Layout.{data_size}
use led_display_g6_firmware.Telemetry.Ring.{used, wrap_end, well_formed_at}
use led_display_g6_firmware.Telemetry.Chain.{
  Slot, Chain, slot_at, used_bound, used_advance, wrap_end_bound,
}
use led_display_g6_firmware.Telemetry.Walk.{Sound, well_formed_at-Sound, Sound-well_formed_at}
use led_display_g6_firmware.Telemetry.Boot.{repair_walk}

module _ (fuel : ℕ) (m : Memory) (w off steps : ℕ) where
  repair_end : off ≡ w → repair_walk (suc fuel) m w off steps ≡ w
  unfolding repair_walk
  repair_end h = ground arith

  repair_cut : off ≢ w → well_formed_at m off w ≡ false → repair_walk (suc fuel) m w off steps ≡ off
  unfolding repair_walk
  repair_cut h e = ground arith

  repair_next :
      off ≢ w
      → well_formed_at m off w ≡ true
      → steps + 1 ≤ data_size
      → repair_walk (suc fuel) m w off steps
        ≡ repair_walk fuel m w (wrap_end (off + m off)) (steps + 1)
  unfolding repair_walk
  repair_next h e k = ground arith

-- `w'` is a write cursor up to which the area holds a chain, not past the old one. It stands at the
-- old one or at a place where no record is.
pub record Repaired (m : Memory) (off w w' : ℕ) : Type 0 where
  pub slots : List Slot
  pub in_area : w' < data_size
  pub chain : Chain m off (used off w') slots
  pub shorter : used off w' ≤ used off w
  pub longest : (w' ≡ w) ⊎ (well_formed_at m w' w ≡ false)

pub used_self : (w : ℕ) → used w w ≡ 0
used_self w = ground arith

used_back :
    (off len w : ℕ)
    → off + len ≤ data_size
    → w < data_size
    → 0 < len
    → used (wrap_end (off + len)) w + len < data_size
    → used off w ≡ used (wrap_end (off + len)) w + len
used_back off len w h k p q = ground arith

-- A sound record before a repaired rest.
Repaired-cons :
    (m : Memory) (off w w' : ℕ)
    → off < data_size
    → w < data_size
    → Sound m off w
    → Repaired m (wrap_end (off + m off)) w w'
    → Repaired m off w w'
Repaired-cons m off w w' h k s v = record {
  slots = slot_at m off ∷ v.slots;
  in_area = v.in_area;
  chain = (
    s.some_bytes,
    omega (arith, back),
    s.in_area,
    s.shaped,
    refl,
    subst (λ (d : ℕ). Chain m (wrap_end (off + m off)) d v.slots) (omega (arith, back)) v.chain,
  );
  shorter = omega (arith, back, v.shorter, advance, s.before_write);
  longest = v.longest;
}
  where
    advance : used (wrap_end (off + m off)) w ≡ used off w - m off
    advance = used_advance off w (m off) h k s.before_write s.in_area

    back : used off w' ≡ used (wrap_end (off + m off)) w' + m off
    back =
        used_back off (m off) w' s.in_area v.in_area s.some_bytes
          (omega (arith, v.shorter, advance, s.before_write, used_bound off w h k))

-- After repairChain the area holds a chain up to the write cursor, whatever its bytes were. No byte
-- is gained, and the chain is cut only where no record stands. The walk ends within its rounds, and
-- its limit on steps is never met.
pub repair_walk-Repaired :
    (fuel : ℕ) (m : Memory) (w off steps : ℕ)
    → used off w < fuel
    → off < data_size
    → w < data_size
    → steps + used off w ≤ data_size
    → Repaired m off w (repair_walk fuel m w off steps)
repair_walk-Repaired zero m w off steps f h k n = absurd (omega arith)
repair_walk-Repaired (suc fuel) m w off steps f h k n = elim (ℕ_discrete off w) [
  | yes e ↦ subst (Repaired m off w) (sym (repair_end fuel m w off steps e)) (record {
    slots = [];
    in_area = k;
    chain = subst (λ (x : ℕ). used x w ≡ 0) (sym e) (used_self w);
    shorter = omega arith;
    longest = inl refl;
  })
  | no ne ↦ elim (Bool-cases (well_formed_at m off w)) [
    | inr bad ↦ subst (Repaired m off w) (sym (repair_cut fuel m w off steps ne bad)) (record {
      slots = [];
      in_area = h;
      chain = used_self off;
      shorter = omega (arith, used_self off);
      longest = inr bad;
    })
    | inl good ↦
        let s : Sound m off w = well_formed_at-Sound m off w ne h k good in
        let advance : used (wrap_end (off + m off)) w ≡ used off w - m off =
          used_advance off w (m off) h k s.before_write s.in_area in
        subst (Repaired m off w)
          (sym
            (repair_next fuel m w off steps ne good (omega (arith, s.some_bytes, s.before_write))))
          (Repaired-cons m off w _ h k s (
            repair_walk-Repaired fuel m w (wrap_end (off + m off)) (steps + 1)
              (omega (arith, advance, s.some_bytes, s.before_write))
              (wrap_end_bound (off + m off) s.in_area) k
              (omega (arith, advance, s.some_bytes, s.before_write))))
  ]
]

pub used_apart : (off w : ℕ) → off < data_size → w < data_size → 0 < used off w → off ≢ w
used_apart off w h k p e = absurd (omega (arith, subst (λ (x : ℕ). 0 < used x w) e p, used_self w))

pub used_none : (off w : ℕ) → off < data_size → w < data_size → used off w ≡ 0 → off ≡ w
used_none off w h k e = ground arith

-- A ring that holds a chain is left as it is.
pub repair_walk_idle :
    (fuel : ℕ) (m : Memory) (w off steps : ℕ) (ss : List Slot)
    → used off w < fuel
    → off < data_size
    → w < data_size
    → steps + used off w ≤ data_size
    → Chain m off (used off w) ss
    → repair_walk fuel m w off steps ≡ w
repair_walk_idle zero m w off steps ss f h k n c = absurd (omega arith)
repair_walk_idle (suc fuel) m w off steps [] f h k n c =
    repair_end fuel m w off steps (used_none off w h k c)
repair_walk_idle (suc fuel) m w off steps (s ∷ ss) f h k n (pos, fits, ins, shape, slot, rest) =
    repair_next fuel m w off steps (used_apart off w h k (omega arith))
      (Sound-well_formed_at m off w
        (record { some_bytes = pos; before_write = fits; in_area = ins; shaped = shape }))
      (omega arith)
    ∙ repair_walk_idle fuel m w (wrap_end (off + m off)) (steps + 1) ss (omega (arith, advance))
        (wrap_end_bound (off + m off) ins) k (omega (arith, advance))
        (subst (λ (d : ℕ). Chain m (wrap_end (off + m off)) d ss) (sym advance) rest)
  where
    advance : used (wrap_end (off + m off)) w ≡ used off w - m off
    advance = used_advance off w (m off) h k fits ins
