-- ===== src/Telemetry/Write.antt =====
-- Writing behind a chain: a poke at the write cursor keeps the chain and adds one slot to it.
use led_display_g6_firmware.Common.{
  ℕ, ◌+◌, ◌-◌, ◌≤◌, ◌<◌, ◌≡◌, refl, sym, ap, subst, ◌∙◌, ◌⊎◌, inl, inr, true, List, [], ◌∷◌, ◌++◌,
  length, get_or, arith,
}
use led_display_g6_firmware.Common.Bytes.{
  Memory, poke, poke_below, poke_above, bytes_at-poke, get_or-bytes_at,
}
use led_display_g6_firmware.Telemetry.Layout.{data_size}
use led_display_g6_firmware.Telemetry.Ring.{used, wrap_end, shape_ok}
use led_display_g6_firmware.Telemetry.Chain.{
  Slot, Chain, slot_at, records, around, Chain-frame, Chain-extend,
}

-- The bytes in use lie outside the free bytes that follow them.
around_apart :
    (r d e l i : ℕ)
    → r < data_size
    → around r d ≡ e
    → e + l ≤ data_size
    → d + l < data_size
    → i < d
    → (around r i < e) ⊎ (e + l ≤ around r i)
around_apart r d e l i h at p q k = ground arith

poke_apart :
    (m : Memory) (e : ℕ) (bs : List ℕ) (x : ℕ) → (x < e) ⊎ (e + length bs ≤ x) → m x ≡ poke m e bs x
poke_apart m e bs x (inl h) = sym (poke_below m e bs x h)
poke_apart m e bs x (inr h) = sym (poke_above m e bs x h)

pub Chain-poke :
    (m : Memory) (r d e : ℕ) (bs : List ℕ) (ss : List Slot)
    → r < data_size
    → around r d ≡ e
    → e + length bs ≤ data_size
    → d + length bs < data_size
    → Chain m r d ss
    → Chain (poke m e bs) r d ss
Chain-poke m r d e bs ss h at p q c =
    Chain-frame m (poke m e bs) r d ss h (omega arith)
      (λ i k. poke_apart m e bs (around r i) (around_apart r d e (length bs) i h at p q k)) c

-- A write of a slot's first bytes at the end of the chain adds that slot.
pub Chain-write :
    (m : Memory) (r d e l : ℕ) (bs : List ℕ) (ss : List Slot)
    → r < data_size
    → around r d ≡ e
    → length bs ≤ l
    → 0 < l
    → e + l ≤ data_size
    → d + l < data_size
    → poke m e bs e ≡ l
    → shape_ok l (poke m e bs (e + 1)) (poke m e bs (e + 12)) ≡ true
    → Chain m r d ss
    → Chain (poke m e bs) r (d + l) (ss ++ slot_at (poke m e bs) e ∷ [])
Chain-write m r d e l bs ss h at b pos p q len shape c =
    subst (λ (x : ℕ). Chain (poke m e bs) r (d + x) (ss ++ slot_at (poke m e bs) e ∷ [])) len
      (Chain-extend (poke m e bs) r d e ss h (omega arith) at (omega arith) (omega arith)
        (subst (λ (x : ℕ). shape_ok x (poke m e bs (e + 1)) (poke m e bs (e + 12)) ≡ true) (sym len)
          shape)
        (Chain-poke m r d e bs ss h at (omega arith) (omega arith) c))

-- A byte of what was written.
pub poke_get :
    (m : Memory) (e : ℕ) (bs : List ℕ) (i : ℕ) → i < length bs → poke m e bs (e + i) ≡ get_or bs i 0
poke_get m e bs i h =
    sym (get_or-bytes_at (poke m e bs) e (length bs) i h)
    ∙ ap (λ (xs : List ℕ). get_or xs i 0) (bytes_at-poke m e bs)

pub records-append : (xs ys : List Slot) → records (xs ++ ys) ≡ records xs ++ records ys
records-append [] ys = refl
records-append (x ∷ xs) ys = ground (arith, records-append xs ys)

-- The cursor behind a write, and the bytes then in use.
pub used_extend :
    (r d e l : ℕ)
    → r < data_size
    → around r d ≡ e
    → e + l ≤ data_size
    → d + l < data_size
    → used r (wrap_end (e + l)) ≡ d + l
used_extend r d e l h at p q = ground arith

pub around_tail :
    (r w : ℕ)
    → r < data_size
    → w < data_size
    → used r w + (data_size - w) < data_size
    → around r (used r w + (data_size - w)) ≡ 0
around_tail r w h k p = ground arith

pub poke_first : (m : Memory) (e : ℕ) (bs : List ℕ) → 0 < length bs → poke m e bs e ≡ get_or bs 0 0
poke_first m e bs h = ap (poke m e bs) (omega arith) ∙ poke_get m e bs 0 h

-- So does a poke further on in the free bytes.
pub Chain-poke_behind :
    (m : Memory) (r d k e : ℕ) (bs : List ℕ) (ss : List Slot)
    → r < data_size
    → around r (d + k) ≡ e
    → e + length bs ≤ data_size
    → d + k + length bs < data_size
    → Chain m r d ss
    → Chain (poke m e bs) r d ss
Chain-poke_behind m r d k e bs ss h at p q c =
    Chain-frame m (poke m e bs) r d ss h (omega arith)
      (λ i lt.
        poke_apart m e bs (around r i)
          (around_apart r (d + k) e (length bs) i h at p q (omega arith)))
      c
