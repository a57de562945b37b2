-- ===== src/Common/Bytes.antt =====
-- Byte memory and little-endian fields. A memory is a function from offsets to bytes; a buffer is
-- a list of bytes.
use Prim.Native.Nat.{ℕ, zero, suc, ◌+◌, ◌*◌, ◌/◌, ◌%◌, ◌≤◌, ◌<◌}
use mathlib.Core.Path.{◌≡◌, refl, ap, ap₂, ◌∙◌}
use mathlib.Core.List.{List, [], ◌∷◌}
use native.Mathlib.Omega.{arith}
use led_display_g6_firmware.Common.Tests.{◌==◌, if◌then◌else◌}
use mathlib.Core.Logic.{◌⊎◌, inl, inr}
use led_display_g6_firmware.Common.Lists.{length, get_or, set, length-set, get_or-set_ne}

abbrev pub Memory : Type 0
Memory = ℕ → ℕ

-- memcpy of `bs` to offset `off`.
unfoldable pub poke : Memory → ℕ → List ℕ → Memory
poke m off [] x = m x
poke m off (b ∷ bs) x = if x == off then b else poke m (off + 1) bs x

-- The `n` bytes from offset `off` on.
abbrev pub bytes_at : Memory → ℕ → ℕ → List ℕ
bytes_at m off zero = []
bytes_at m off (suc n) = m off ∷ bytes_at m (off + 1) n

pub poke_below : (m : Memory) (off : ℕ) (bs : List ℕ) (x : ℕ) → x < off → poke m off bs x ≡ m x
unfolding poke
poke_below m off [] x h = refl
poke_below m off (b ∷ bs) x h = ground (arith, poke_below m (off + 1) bs x)

pub poke_above :
    (m : Memory) (off : ℕ) (bs : List ℕ) (x : ℕ) → off + length bs ≤ x → poke m off bs x ≡ m x
unfolding poke
poke_above m off [] x h = refl
poke_above m off (b ∷ bs) x h = ground (arith, poke_above m (off + 1) bs x)

pub bytes_at_cong :
    (m m' : Memory) (off n : ℕ)
    → ((x : ℕ) → off ≤ x → x < off + n → m x ≡ m' x)
    → bytes_at m off n ≡ bytes_at m' off n
bytes_at_cong m m' off zero h = refl
bytes_at_cong m m' off (suc n) h =
    ap₂ ◌∷◌ (h off (omega arith) (omega arith))
      (bytes_at_cong m m' (off + 1) n (λ x p q. h x (omega arith) (omega arith)))

pub length-bytes_at : (m : Memory) (off n : ℕ) → length (bytes_at m off n) ≡ n
length-bytes_at m off zero = refl
length-bytes_at m off (suc n) = ap suc (length-bytes_at m (off + 1) n)

poke_tail :
    (m : Memory) (off b : ℕ) (bs : List ℕ) (x : ℕ)
    → off < x
    → poke m off (b ∷ bs) x ≡ poke m (off + 1) bs x
unfolding poke
poke_tail m off b bs x h = ground arith

poke_head : (m : Memory) (off b : ℕ) (bs : List ℕ) → poke m off (b ∷ bs) off ≡ b
unfolding poke
poke_head m off b bs = ground arith

-- What is written is read back.
pub bytes_at-poke :
    (m : Memory) (off : ℕ) (bs : List ℕ) → bytes_at (poke m off bs) off (length bs) ≡ bs
bytes_at-poke m off [] = refl
bytes_at-poke m off (b ∷ bs) = ap₂ ◌∷◌ (poke_head m off b bs) (
    bytes_at_cong _ _ (off + 1) (length bs) (λ x p q. poke_tail m off b bs x (omega arith))
    ∙ bytes_at-poke m (off + 1) bs)

pub get_or-bytes_at :
    (m : Memory) (off n i : ℕ) → i < n → get_or (bytes_at m off n) i 0 ≡ m (off + i)
get_or-bytes_at m off zero i h = absurd (omega arith)
get_or-bytes_at m off (suc n) zero h = ap m (omega arith)
get_or-bytes_at m off (suc n) (suc i) h =
    get_or-bytes_at m (off + 1) n i (omega arith) ∙ ap m (omega arith)

-- A `uint16_t` and a `uint32_t` stored little-endian at index `i` of a buffer.
abbrev pub put16 : List ℕ → ℕ → ℕ → List ℕ
put16 p i v = set (set p i (v % 256)) (i + 1) (v / 256 % 256)

abbrev pub put32 : List ℕ → ℕ → ℕ → List ℕ
put32 p i v = put16 (put16 p i v) (i + 2) (v / 65536)

-- The bytes that they store.
abbrev pub bytes16 : ℕ → List ℕ
bytes16 v = v % 256 ∷ v / 256 % 256 ∷ []

abbrev pub bytes32 : ℕ → List ℕ
bytes32 v = v % 256 ∷ v / 256 % 256 ∷ v / 65536 % 256 ∷ v / 16777216 % 256 ∷ []

-- The little-endian fields read back.
abbrev pub le16 : ℕ → ℕ → ℕ
le16 b0 b1 = b0 + 256 * b1

abbrev pub le32 : ℕ → ℕ → ℕ → ℕ → ℕ
le32 b0 b1 b2 b3 = b0 + 256 * b1 + 65536 * b2 + 16777216 * b3

pub length-put32 : (p : List ℕ) (i v : ℕ) → length (put32 p i v) ≡ length p
length-put32 p i v = omega (
  arith,
  length-set p i (v % 256),
  length-set (set p i (v % 256)) (i + 1) (v / 256 % 256),
  length-set (put16 p i v) (i + 2) (v / 65536 % 256),
  length-set (set (put16 p i v) (i + 2) (v / 65536 % 256)) (i + 2 + 1) (v / 65536 / 256 % 256),
)

pub get_or-put32 :
    (p : List ℕ) (i v j : ℕ) → (j < i) ⊎ (i + 4 ≤ j) → get_or (put32 p i v) j 0 ≡ get_or p j 0
get_or-put32 p i v j h =
    get_or-set_ne _ (i + 2 + 1) j _ 0 (elim h [ inl k ↦ omega arith | inr k ↦ omega arith ])
    ∙ get_or-set_ne _ (i + 2) j _ 0 (elim h [ inl k ↦ omega arith | inr k ↦ omega arith ])
    ∙ get_or-set_ne _ (i + 1) j _ 0 (elim h [ inl k ↦ omega arith | inr k ↦ omega arith ])
    ∙ get_or-set_ne _ i j _ 0 (elim h [ inl k ↦ omega arith | inr k ↦ omega arith ])
