-- ===== src/Telemetry/Walk.antt =====
-- wellFormedAt on a chain: the test that the walks of repairChain, ack and peek make.
use led_display_g6_firmware.Common.{
  ℕ, ◌+◌, ◌≤◌, ◌<◌, ◌≡◌, ◌≢◌, Bool, true, false, List, get_or, ◌&&◌, arith,
}
use led_display_g6_firmware.Common.Bytes.{Memory, bytes_at, get_or-bytes_at, le32}
use led_display_g6_firmware.Telemetry.Layout.{data_size}
use led_display_g6_firmware.Telemetry.Ring.{
  used, is_pad, seq_at, shape_ok, place_ok, well_formed_at,
}

-- What the test establishes of a record before the write cursor.
pub record Sound (m : Memory) (off w : ℕ) : Type 0 where
  pub some_bytes : 0 < m off
  pub before_write : m off ≤ used off w
  pub in_area : off + m off ≤ data_size
  pub shaped : shape_ok (m off) (m (off + 1)) (m (off + 12)) ≡ true

place_ok_sound :
    (len off w : ℕ)
    → off ≢ w
    → off < data_size
    → w < data_size
    → place_ok len off w ≡ true
    → (0 < len) × (len ≤ used off w) × (off + len ≤ data_size)
unfolding place_ok
place_ok_sound len off w ne h k e = ground arith

place_ok_complete :
    (len off w : ℕ) → 0 < len → len ≤ used off w → off + len ≤ data_size → place_ok len off w ≡ true
unfolding place_ok
place_ok_complete len off w h k p = ground arith

and_true : (a b : Bool) → (a && b) ≡ true → (a ≡ true) × (b ≡ true)
and_true a b h = (ground arith, ground arith)

pub well_formed_at-Sound :
    (m : Memory) (off w : ℕ)
    → off ≢ w
    → off < data_size
    → w < data_size
    → well_formed_at m off w ≡ true
    → Sound m off w
well_formed_at-Sound m off w ne h k e =
    let (placed, shaped) = and_true (place_ok (m off) off w) _ e in
    let (some, before, inside) = place_ok_sound (m off) off w ne h k placed in
    record { some_bytes = some; before_write = before; in_area = inside; shaped = shaped }

pub Sound-well_formed_at : (m : Memory) (off w : ℕ) → Sound m off w → well_formed_at m off w ≡ true
Sound-well_formed_at m off w s =
    rw (place_ok_complete (m off) off w s.some_bytes s.before_write s.in_area) s.shaped

-- The sequence number of a record's bytes.
abbrev pub seq_of : List ℕ → ℕ
seq_of bs = le32 (get_or bs 2 0) (get_or bs 3 0) (get_or bs 4 0) (get_or bs 5 0)

pub seq_of-bytes_at : (m : Memory) (off n : ℕ) → 10 ≤ n → seq_of (bytes_at m off n) ≡ seq_at m off
seq_of-bytes_at m off n h = omega (
  arith,
  get_or-bytes_at m off n 2 (omega arith),
  get_or-bytes_at m off n 3 (omega arith),
  get_or-bytes_at m off n 4 (omega arith),
  get_or-bytes_at m off n 5 (omega arith),
)

pub not_pad_long : (len kind : ℕ) → is_pad len kind ≡ false → 10 ≤ len
not_pad_long len kind h = ground arith
