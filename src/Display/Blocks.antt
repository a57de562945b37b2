-- ===== src/Display/Blocks.antt =====
-- Every frame buffer that is filled or patched is a row of blocks that the panels accept.
use native.Mathlib.Nat.{mul-div_cancel, mul-le-mul}
use led_display_g6_firmware.Common.{
  ℕ, zero, suc, ◌+◌, ◌-◌, ◌*◌, ◌/◌, ◌%◌, ◌≤◌, ◌<◌, ◌≡◌, refl, ap, ◌∙◌, subst, Bool, true, false,
  not, List, [], ◌∷◌, ◌++◌, length, take, drop, set, replicate, leb, ltb, bit_or, if◌then◌else◌,
  ◌==◌, ◌&&◌, ◌||◌, arith, length-append, length-take, length-drop, length-replicate, length-set,
  length_zero, if_intro, get_or,
}
use led_display_g6_firmware.Panel.Protocol.{
  stamp_header_parity, validate_parity, build_psram_index_block, disp_opcode_with_mode,
  header_version_v1,
}
use led_display_g6_firmware.Panel.Parity.{
  validate_parity-stamp_header_parity, read_index_block-build,
}
use led_display_g6_firmware.Panel.Frame.{blocks, length-stamp}
use led_display_g6_firmware.Display.Buffer.{
  Buffer, block_byte_count_gs2, block_byte_count_gs16, all_on_block, dark_block,
  fill_frame_buffer_all_on, fill_frame_buffer_dark, build_psram_frame, patch_blocks, patch_buffer,
  set_mode, set_duty, patch_disp_mode, patch_trial_duty, cmd_disp_psram_oneshot,
}

-- A whole block that a panel accepts.
abbrev pub Accepted : ℕ → List ℕ → Type 0
Accepted size block = (length block ≡ size) × (validate_parity block ≡ true)

-- So many blocks one behind another.
abbrev pub Row : ℕ → ℕ → List ℕ → Type 0
Row size zero bs = bs ≡ []
Row size (suc n) bs =
    (block : List ℕ) × (rest : List ℕ) × (bs ≡ block ++ rest)
    × Accepted size block
    × Row size n rest

-- A prefix of four bytes, and a block for each panel.
pub record Shows (panels : ℕ) (b : Buffer) : Type 0 where
  pub prefix : List ℕ
  pub row : List ℕ
  pub parts : b.bytes ≡ prefix ++ row
  pub prefix_size : length prefix ≡ 4
  pub accepted : Row b.block_byte_count panels row

blocks-Row : (size n : ℕ) (block : List ℕ) → Accepted size block → Row size n (blocks n block)
blocks-Row size zero block h = refl
blocks-Row size (suc n) block h = (block, blocks n block, refl, h, blocks-Row size n block h)

length-Row : (size n : ℕ) (bs : List ℕ) → Row size n bs → length bs ≡ n * size
length-Row size zero bs h = omega (arith, ap length h)
length-Row size (suc n) bs (block, rest, e, h, r) =
    omega (arith, ap length e, length-append block rest, h.0, length-Row size n rest r)

-- Patching makes acceptable blocks of any blocks of the size.
patch_blocks-Row :
    (f : List ℕ → List ℕ) (size n : ℕ) (bs : List ℕ)
    → ((block : List ℕ) → length block ≡ size → Accepted size (f block))
    → length bs ≡ n * size
    → Row size n (patch_blocks f size n bs)
patch_blocks-Row f size zero bs h e = length_zero bs (omega (arith, e))
patch_blocks-Row f size (suc n) bs h e = (
  f (take size bs),
  patch_blocks f size n (drop size bs),
  refl,
  h (take size bs) (omega (arith, length-take size bs, e)),
  patch_blocks-Row f size n (drop size bs) h (omega (arith, length-drop size bs, e)),
)

stamp-Accepted :
    (size : ℕ) (msg : List ℕ)
    → length msg ≡ size
    → 2 ≤ size
    → Accepted size (stamp_header_parity msg)
stamp-Accepted size msg e h =
    (length-stamp msg ∙ e, validate_parity-stamp_header_parity msg (omega (arith, e)))

set_mode-Accepted :
    (mode size : ℕ) (block : List ℕ)
    → 2 ≤ size
    → length block ≡ size
    → Accepted size (set_mode mode block)
set_mode-Accepted mode size [] h e = absurd (omega (arith, e))
set_mode-Accepted mode size (x ∷ []) h e = absurd (omega (arith, e))
set_mode-Accepted mode size (header ∷ cmd ∷ payload) h e = stamp-Accepted size _ e h

set_duty-Accepted :
    (duty size : ℕ) (block : List ℕ)
    → 2 ≤ size
    → length block ≡ size
    → Accepted size (set_duty duty size block)
set_duty-Accepted duty size block h e =
    stamp-Accepted size (set block (size - 1) duty) (length-set block (size - 1) duty ∙ e) h

pub many : (panels size len : ℕ) → 0 < size → len ≡ 4 + panels * size → (len - 4) / size ≡ panels
many panels size len h e =
    ap (λ (n : ℕ). n / size) {x = len - 4} {y = panels * size} (omega (arith, e))
    ∙ mul-div_cancel panels h

-- The bytes are a prefix and as many bytes as the panels' blocks have.
patch_buffer-Shows :
    (f : List ℕ → List ℕ) (panels : ℕ) (b : Buffer)
    → 0 < panels
    → 2 ≤ b.block_byte_count
    → length b.bytes ≡ 4 + panels * b.block_byte_count
    → ((block : List ℕ) → length block ≡ b.block_byte_count → Accepted b.block_byte_count (f block))
    → Shows panels (patch_buffer f b)
patch_buffer-Shows f panels b positive h e ok =
    if_intro (Shows panels) ((b.block_byte_count == 0) || leb (length b.bytes) 4)
      (λ k. absurd (ground (arith, k, longer)))
      (λ k. record {
        prefix = take 4 b.bytes;
        row = patch_blocks f size count (drop 4 b.bytes);
        parts = refl;
        prefix_size = omega (arith, length-take 4 b.bytes, e);
        accepted =
            subst (λ (n : ℕ). Row size n (patch_blocks f size count (drop 4 b.bytes))) all
              (patch_blocks-Row f size count (drop 4 b.bytes) ok
                (length-drop 4 b.bytes ∙ omega (arith, e, ap (λ (n : ℕ). n * size) all)));
      })
  where
    size : ℕ
    size = b.block_byte_count

    count : ℕ
    count = (length b.bytes - 4) / size

    all : count ≡ panels
    all = many panels size (length b.bytes) (omega (arith, h)) e

    longer : 4 < length b.bytes
    longer = omega (arith, e, mul-le-mul positive h)

-- A buffer of so many bytes, before its blocks are looked at.
pub record Sized (panels : ℕ) (b : Buffer) : Type 0 where
  pub block : 2 ≤ b.block_byte_count
  pub size : length b.bytes ≡ 4 + panels * b.block_byte_count

pub Shows-Sized :
    (panels : ℕ) (b : Buffer) → 2 ≤ b.block_byte_count → Shows panels b → Sized panels b
Shows-Sized panels b h v = record {
  block = h;
  size = omega (
    arith,
    ap length v.parts,
    length-append v.prefix v.row,
    v.prefix_size,
    length-Row b.block_byte_count panels v.row v.accepted,
  );
}

pub patch_disp_mode-Shows :
    (panels mode : ℕ) (b : Buffer)
    → 0 < panels
    → Sized panels b
    → Shows panels (patch_disp_mode mode b)
unfolding patch_disp_mode
patch_disp_mode-Shows panels mode b positive v =
    patch_buffer-Shows (set_mode mode) panels b positive v.block v.size
      (λ block e. set_mode-Accepted mode b.block_byte_count block v.block e)

pub patch_disp_mode-size :
    (mode : ℕ) (b : Buffer) → (patch_disp_mode mode b).block_byte_count ≡ b.block_byte_count
unfolding patch_disp_mode
patch_disp_mode-size mode b = ground arith

pub patch_trial_duty-size :
    (duty : ℕ) (b : Buffer) → (patch_trial_duty duty b).block_byte_count ≡ b.block_byte_count
unfolding patch_trial_duty
patch_trial_duty-size duty b = ground arith

pub patch_trial_duty-Shows :
    (panels duty : ℕ) (b : Buffer)
    → 0 < panels
    → 2 ≤ b.block_byte_count
    → Shows panels b
    → Shows panels (patch_trial_duty duty b)
unfolding patch_trial_duty
patch_trial_duty-Shows panels duty b positive h v =
    if_intro (Shows panels) (duty == 0) (λ _. v)
      (λ _.
        if_intro (Shows panels)
          (not (b.block_byte_count == block_byte_count_gs2)
            && not (b.block_byte_count == block_byte_count_gs16))
          (λ _. v)
          (λ _.
            patch_buffer-Shows (set_duty duty b.block_byte_count) panels b positive h
              (Shows-Sized panels b h v).size
              (λ block e. set_duty-Accepted duty b.block_byte_count block h e)))

all_on_block-Accepted : (size cmd : ℕ) → 2 ≤ size → Accepted size (all_on_block size cmd)
all_on_block-Accepted size cmd h =
    stamp-Accepted size (header_version_v1 ∷ cmd ∷ replicate (size - 2) 0xff)
      (omega (arith, length-replicate {A = ℕ} (size - 2) 0xff)) h

pub fill_all_on-Shows :
    (panels mode size : ℕ) → 2 ≤ size → Shows panels (fill_frame_buffer_all_on panels mode size)
unfolding fill_frame_buffer_all_on
fill_all_on-Shows panels mode size h = record {
  prefix = 0x46 ∷ 0x52 ∷ 0 ∷ 0 ∷ [];
  row = _;
  parts = refl;
  prefix_size = refl;
  accepted = blocks-Row size panels _ (all_on_block-Accepted size _ h);
}

pub fill_dark-Shows : (panels : ℕ) → Shows panels (fill_frame_buffer_dark panels)
unfolding fill_frame_buffer_dark
fill_dark-Shows panels = record {
  prefix = 0x46 ∷ 0x52 ∷ 0 ∷ 0 ∷ [];
  row = _;
  parts = refl;
  prefix_size = refl;
  accepted = blocks-Row 53 panels dark_block (stamp-Accepted 53 _ refl (omega arith));
}

-- The panels are told to stay dark: a two-level picture that persists, all of whose bits and whose
-- duty are 0, in a block of valid parity for each panel.
abbrev pub DarkRow : ℕ → List ℕ → Type 0
DarkRow zero bs = bs ≡ []
DarkRow (suc n) bs =
    (header : ℕ) × (rest : List ℕ) × (bs ≡ (header ∷ 0x11 ∷ replicate 51 0) ++ rest)
    × (validate_parity (header ∷ 0x11 ∷ replicate 51 0) ≡ true)
    × DarkRow n rest

pub record Dark (panels : ℕ) (b : Buffer) : Type 0 where
  pub size : b.block_byte_count ≡ 53
  pub row : List ℕ
  pub parts : b.bytes ≡ 0x46 ∷ 0x52 ∷ 0 ∷ 0 ∷ row
  pub unlit : DarkRow panels row

blocks-DarkRow : (n : ℕ) → DarkRow n (blocks n dark_block)
unfolding stamp_header_parity validate_parity
    led_display_g6_firmware.Panel.Protocol.compute_parity_bit
blocks-DarkRow zero = refl
blocks-DarkRow (suc n) = (get_or dark_block 0 0, blocks n dark_block, refl, refl, blocks-DarkRow n)

pub fill_dark-Dark : (panels : ℕ) → Dark panels (fill_frame_buffer_dark panels)
unfolding fill_frame_buffer_dark
fill_dark-Dark panels = record {
  size = refl;
  row = blocks panels dark_block;
  parts = refl;
  unlit = blocks-DarkRow panels;
}

psram_opcode : (mode : ℕ) → (disp_opcode_with_mode 0x50 mode / 16 == 6) ≡ false
unfolding disp_opcode_with_mode
psram_opcode zero = refl
psram_opcode (suc zero) = refl
psram_opcode (suc (suc zero)) = refl
psram_opcode (suc (suc (suc zero))) = refl
psram_opcode (suc (suc (suc (suc mode)))) =
    ap (λ (low : Bool). bit_or 0x50 (if low then suc (suc (suc (suc mode))) else 1) / 16 == 6)
      {x = ltb (suc (suc (suc (suc mode)))) 4} {y = false} (ground arith)

length-psram_block :
    (index mode : ℕ)
    → length (build_psram_index_block index (disp_opcode_with_mode cmd_disp_psram_oneshot mode) 0)
      ≡ 4
unfolding build_psram_index_block
length-psram_block index mode =
    rw (psram_opcode mode)
      (length-stamp (2 ∷ disp_opcode_with_mode 0x50 mode ∷ index % 256 ∷ index / 256 % 256 ∷ []))

pub build_psram-Shows :
    (panels mode index : ℕ) → index < 65536 → Shows panels (build_psram_frame panels mode index)
unfolding build_psram_frame
build_psram-Shows panels mode index h = record {
  prefix = 0x46 ∷ 0x52 ∷ index % 256 ∷ index / 256 % 256 ∷ [];
  row = _;
  parts = refl;
  prefix_size = refl;
  accepted = blocks-Row 4 panels _ (
    length-psram_block index mode,
    (read_index_block-build index (disp_opcode_with_mode cmd_disp_psram_oneshot mode) 0 h).0,
  );
}
