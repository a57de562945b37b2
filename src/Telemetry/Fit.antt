-- ===== src/Telemetry/Fit.antt =====
-- The walk of peek: its single steps, and what it has taken of a log.
use mathlib.Core.List.{append_assoc, append-nil}
use led_display_g6_firmware.Common.{
  ℕ, suc, ◌+◌, ◌-◌, ◌≤◌, ◌<◌, ◌≡◌, ◌≢◌, refl, sym, ap, ◌∙◌, ◌⊎◌, Bool, true, false, List, [], ◌∷◌,
  ◌++◌, length, length-append, ltb, ◌==◌, if◌then◌else◌, arith,
}
use led_display_g6_firmware.Common.Bytes.{Memory, bytes_at, length-bytes_at}
use led_display_g6_firmware.Telemetry.Ring.{wrap_end, is_pad_at, seq_at, well_formed_at}
use led_display_g6_firmware.Telemetry.Chain.{Slot, records}
use led_display_g6_firmware.Telemetry.Walk.{seq_of}
use led_display_g6_firmware.Telemetry.Drain.{Block, copy_record, peek_walk}

-- The oldest records that fit whole into `room` bytes.
pub fitting : ℕ → List (List ℕ) → List (List ℕ)
fitting room [] = []
fitting room (r ∷ rs) = if ltb room (length r) then [] else r ∷ fitting (room - length r) rs

abbrev pub joined : List (List ℕ) → List ℕ
joined [] = []
joined (r ∷ rs) = r ++ joined rs

abbrev pub first_of : ℕ → List (List ℕ) → ℕ
first_of d [] = d
first_of d (r ∷ rs) = seq_of r

module _ (fuel : ℕ) (m : Memory) (w room : ℕ) (b : Block) where
  pub peek_end : b.off ≡ w → peek_walk (suc fuel) m w room b ≡ b
  unfolding peek_walk
  peek_end h = ground arith

  pub peek_full :
      is_pad_at m b.off ≡ false
      → room < length b.bytes + m b.off
      → peek_walk (suc fuel) m w room b ≡ b
  unfolding peek_walk
  peek_full h k = ground arith

  pub peek_skip :
      b.off ≢ w
      → well_formed_at m b.off w ≡ true
      → is_pad_at m b.off ≡ true
      → peek_walk (suc fuel) m w room b
        ≡ peek_walk fuel m w room (record b { off = wrap_end (b.off + m b.off) })
  unfolding peek_walk
  peek_skip h e k = ground arith

  pub peek_copy :
      b.off ≢ w
      → well_formed_at m b.off w ≡ true
      → is_pad_at m b.off ≡ false
      → length b.bytes + m b.off ≤ room
      → peek_walk (suc fuel) m w room b
        ≡ peek_walk fuel m w room
            (record (copy_record m b.off b) { off = wrap_end (b.off + m b.off) })
  unfolding peek_walk
  peek_copy h e k p = ground arith

-- `out` is what the walk makes of the records `rs` when it has `b` already and `fit` of them fit.
pub record Took (w : ℕ) (b : Block) (rs fit : List (List ℕ)) (out : Block) : Type 0 where
  pub bytes : out.bytes ≡ b.bytes ++ joined fit
  pub count : out.n_records ≡ b.n_records + length fit
  pub first : out.first_seq ≡ (if b.n_records == 0 then first_of b.first_seq fit else b.first_seq)
  pub ends : (out.off == w) ≡ (length fit == length rs)

abbrev pub Peeked : ℕ → ℕ → Block → List (List ℕ) → Block → Type 0
Peeked w room b rs out = Took w b rs (fitting (room - length b.bytes) rs) out

pub fitting_first :
    (room : ℕ) (r : List ℕ) (rs : List (List ℕ))
    → length r ≤ room
    → fitting room (r ∷ rs) ≡ r ∷ fitting (room - length r) rs
unfolding fitting
fitting_first room r rs h = ground arith

pub fitting_none :
    (room : ℕ) (r : List ℕ) (rs : List (List ℕ)) → room < length r → fitting room (r ∷ rs) ≡ []
unfolding fitting
fitting_none room r rs h = ground arith

pub fitting-nil : (room : ℕ) → fitting room [] ≡ []
unfolding fitting
fitting-nil room = refl

pub Took-end : (w : ℕ) (b : Block) → b.off ≡ w → Took w b [] [] b
Took-end w b h = record {
  bytes = sym (append-nil b.bytes);
  count = omega arith;
  first = ground arith;
  ends = ground arith;
}

pub Took-stop :
    (w : ℕ) (b : Block) (r : List ℕ) (rs : List (List ℕ)) → b.off ≢ w → Took w b (r ∷ rs) [] b
Took-stop w b r rs ne = record {
  bytes = sym (append-nil b.bytes);
  count = omega arith;
  first = ground arith;
  ends = ground arith;
}

pub Took-copy :
    (w next : ℕ) (b : Block) (m : Memory) (r : List ℕ) (rs fit : List (List ℕ)) (out : Block)
    → b.n_records < 65535
    → bytes_at m b.off (m b.off) ≡ r
    → seq_at m b.off ≡ seq_of r
    → Took w (record (copy_record m b.off b) { off = next }) rs fit out
    → Took w b (r ∷ rs) (r ∷ fit) out
Took-copy w next b m r rs fit out few same seq v = record {
  bytes =
      v.bytes
      ∙ append_assoc b.bytes (bytes_at m b.off (m b.off)) (joined fit)
      ∙ ap (λ (x : List ℕ). b.bytes ++ (x ++ joined fit)) same;
  count = omega (arith, v.count);
  first = v.first ∙ ground arith;
  ends = v.ends ∙ ground arith;
}

-- The walk is fine while every copied record counts and fits.
pub record Going (room : ℕ) (b : Block) : Type 0 where
  pub fits : length b.bytes ≤ room
  pub small : room < 65536
  pub few : b.n_records ≤ length b.bytes

pub Going-copy :
    (m : Memory) (room next : ℕ) (b : Block)
    → Going room b
    → 0 < m b.off
    → length b.bytes + m b.off ≤ room
    → Going room (record (copy_record m b.off b) { off = next })
Going-copy m room next b g pos h = record {
  fits = omega (arith, longer);
  small = g.small;
  few = omega (arith, longer, g.few, g.small);
}
  where
    longer : length (b.bytes ++ bytes_at m b.off (m b.off)) ≡ length b.bytes + m b.off
    longer =
        length-append b.bytes (bytes_at m b.off (m b.off))
        ∙ ap (λ (n : ℕ). length b.bytes + n) (length-bytes_at m b.off (m b.off))

pub peek_choice :
    (pad : Bool) (n room : ℕ) → (pad ≡ true) ⊎ ((pad ≡ false) × ((room < n) ⊎ (n ≤ room)))
peek_choice pad n room = ground arith

pub records_pad : (s : Slot) (ss : List Slot) → s.pad ≡ true → records (s ∷ ss) ≡ records ss
records_pad s ss h = rw h

pub records_real :
    (s : Slot) (ss : List Slot) → s.pad ≡ false → records (s ∷ ss) ≡ s.bytes ∷ records ss
records_real s ss h = rw h

pub Took-skip :
    (w next : ℕ) (b : Block) (rs fit : List (List ℕ)) (out : Block)
    → Took w (record b { off = next }) rs fit out
    → Took w b rs fit out
Took-skip w next b rs fit out v = record {
  bytes = v.bytes;
  count = v.count;
  first = v.first;
  ends = v.ends;
}
