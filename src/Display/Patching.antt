-- ===== src/Display/Patching.antt =====
-- What patchDispMode of src/CommandProcessor.cpp changes, and what it leaves.
use native.Mathlib.Nat.{mul-le-mul}
use led_display_g6_firmware.Common.{
  ℕ, zero, suc, ◌+◌, ◌-◌, ◌*◌, ◌/◌, ◌%◌, ◌≤◌, ◌<◌, ◌≡◌, refl, sym, subst, true, List, [], ◌∷◌, ◌++◌,
  length, take, drop, leb, ltb, ◌==◌, ◌||◌, bit_or, bit_and, arith, length-take, length-drop,
  take-append-drop, if_intro,
}
use led_display_g6_firmware.Panel.Protocol.{
  stamp_header_parity, validate_parity, disp_opcode_with_mode, compute_parity_bit,
}
use led_display_g6_firmware.Panel.Parity.{validate_parity-stamp_header_parity}
use led_display_g6_firmware.Panel.Bitwise.{AllBytes, passes, passes-each}
use led_display_g6_firmware.Display.Buffer.{Buffer, patch_blocks, set_mode, patch_disp_mode}
use led_display_g6_firmware.Display.Blocks.{Sized, many}

-- Block for block: the opcode is of the same family, in the new mode; the payload and the version stay,
-- and the parity is valid.
abbrev pub PatchedRow : ℕ → ℕ → ℕ → List ℕ → List ℕ → Type 0
PatchedRow mode size zero bs bs' = bs' ≡ bs
PatchedRow mode size (suc n) bs bs' =
    (header : ℕ) × (header' : ℕ) × (cmd : ℕ) × (payload : List ℕ) × (rest : List ℕ) × (rest' : List
      ℕ)
    × (bs ≡ (header ∷ cmd ∷ payload) ++ rest)
    × (length (header ∷ cmd ∷ payload) ≡ size)
    × (bs' ≡ (header' ∷ (cmd / 4 * 4 + mode) ∷ payload) ++ rest')
    × (header' % 128 ≡ header % 128)
    × (validate_parity (header' ∷ (cmd / 4 * 4 + mode) ∷ payload) ≡ true)
    × PatchedRow mode size n rest rest'

pub record Patched (mode panels : ℕ) (b b' : Buffer) : Type 0 where
  pub size : b'.block_byte_count ≡ b.block_byte_count
  pub prefix : List ℕ
  pub row : List ℕ
  pub row' : List ℕ
  pub before : b.bytes ≡ prefix ++ row
  pub after : b'.bytes ≡ prefix ++ row'
  pub prefix_size : length prefix ≡ 4
  pub blocks : PatchedRow mode b.block_byte_count panels row row'

opcodes : passes 256 (λ c. passes 4 (λ m. bit_or (bit_and c 0xfc) m == c / 4 * 4 + m)) ≡ true
unfolding passes
opcodes = refl

equal : (a b : ℕ) → (a == b) ≡ true → a ≡ b
equal a b e = ground (arith, e)

opcode_family :
    (cmd mode : ℕ)
    → cmd < 256
    → mode < 4
    → disp_opcode_with_mode (bit_and cmd 0xfc) mode ≡ cmd / 4 * 4 + mode
unfolding disp_opcode_with_mode
opcode_family cmd mode h k = rw below small
  where
    below : ltb mode 4 ≡ true
    below = ground (arith, k)

    small : bit_or (bit_and cmd 0xfc) mode ≡ cmd / 4 * 4 + mode
    small = equal (bit_or (bit_and cmd 0xfc) mode) (cmd / 4 * 4 + mode) (
        passes-each 4 (λ m. bit_or (bit_and cmd 0xfc) m == cmd / 4 * 4 + m)
          (passes-each 256 (λ c. passes 4 (λ m. bit_or (bit_and c 0xfc) m == c / 4 * 4 + m)) opcodes
            cmd h)
          mode k)

block-PatchedRow :
    (mode size n : ℕ) (block rest rest' : List ℕ)
    → mode < 4
    → 2 ≤ size
    → length block ≡ size
    → AllBytes block
    → PatchedRow mode size n rest rest'
    → PatchedRow mode size (suc n) (block ++ rest) (set_mode mode block ++ rest')
unfolding stamp_header_parity
block-PatchedRow mode size n [] rest rest' k h e b v = absurd (omega (arith, h, e))
block-PatchedRow mode size n (x ∷ []) rest rest' k h e b v = absurd (omega (arith, h, e))
block-PatchedRow mode size n (header ∷ cmd ∷ payload) rest rest' k h e b v =
    rw (opcode_family cmd mode b.1.0 k) (
      header,
      header % 128 + compute_parity_bit (header % 128) opcode payload * 128,
      cmd,
      payload,
      rest,
      rest',
      refl,
      e,
      refl,
      omega arith,
      validate_parity-stamp_header_parity (header ∷ opcode ∷ payload) (omega (arith, h, e)),
      v,
    )
  where
    opcode : ℕ
    opcode = cmd / 4 * 4 + mode

AllBytes-take : (n : ℕ) (bs : List ℕ) → AllBytes bs → AllBytes (take n bs)
AllBytes-take zero bs h = refl
AllBytes-take (suc n) [] h = refl
AllBytes-take (suc n) (x ∷ bs) h = (h.0, AllBytes-take n bs h.1)

AllBytes-drop : (n : ℕ) (bs : List ℕ) → AllBytes bs → AllBytes (drop n bs)
AllBytes-drop zero bs h = h
AllBytes-drop (suc n) [] h = refl
AllBytes-drop (suc n) (x ∷ bs) h = AllBytes-drop n bs h.1

patch_blocks-PatchedRow :
    (mode size n : ℕ) (bs : List ℕ)
    → mode < 4
    → 2 ≤ size
    → length bs ≡ n * size
    → AllBytes bs
    → PatchedRow mode size n bs (patch_blocks (set_mode mode) size n bs)
patch_blocks-PatchedRow mode size zero bs k h e b = refl
patch_blocks-PatchedRow mode size (suc n) bs k h e b =
    subst
      (λ (xs : List ℕ).
        PatchedRow mode size (suc n) xs (patch_blocks (set_mode mode) size (suc n) bs))
      (take-append-drop size bs)
      (block-PatchedRow mode size n (take size bs) (drop size bs)
        (patch_blocks (set_mode mode) size n (drop size bs)) k h
        (omega (arith, length-take size bs, e)) (AllBytes-take size bs b)
        (patch_blocks-PatchedRow mode size n (drop size bs) k h
          (omega (arith, length-drop size bs, e)) (AllBytes-drop size bs b)))

-- In a buffer of bytes with a prefix of four and a whole block for each of the panels, patchDispMode with a
-- mode of at most 3 leaves the prefix, the payloads, the versions and the families of the opcodes as they
-- were, gives every opcode the mode, and makes every block's parity valid.
pub patch_disp_mode-Patched :
    (mode panels : ℕ) (b : Buffer)
    → mode < 4
    → 0 < panels
    → Sized panels b
    → AllBytes b.bytes
    → Patched mode panels b (patch_disp_mode mode b)
unfolding patch_disp_mode
patch_disp_mode-Patched mode panels b k positive v bytes =
    if_intro (Patched mode panels b) ((b.block_byte_count == 0) || leb (length b.bytes) 4)
      (λ e. absurd (ground (arith, e, longer, v.block)))
      (λ _. record {
        size = refl;
        prefix = take 4 b.bytes;
        row = drop 4 b.bytes;
        row' = patch_blocks (set_mode mode) b.block_byte_count count (drop 4 b.bytes);
        before = sym (take-append-drop 4 b.bytes);
        after = refl;
        prefix_size = omega (arith, length-take 4 b.bytes, v.size);
        blocks =
            subst
              (λ (n : ℕ).
                PatchedRow mode b.block_byte_count panels (drop 4 b.bytes)
                  (patch_blocks (set_mode mode) b.block_byte_count n (drop 4 b.bytes)))
              (sym all)
              (patch_blocks-PatchedRow mode b.block_byte_count panels (drop 4 b.bytes) k v.block
                (omega (arith, length-drop 4 b.bytes, v.size)) (AllBytes-drop 4 b.bytes bytes));
      })
  where
    count : ℕ
    count = (length b.bytes - 4) / b.block_byte_count

    all : count ≡ panels
    all = many panels b.block_byte_count (length b.bytes) (omega (arith, v.block)) v.size

    longer : 4 < length b.bytes
    longer = omega (arith, v.size, mul-le-mul positive v.block)
