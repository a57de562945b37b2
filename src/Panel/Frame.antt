-- ===== src/Panel/Frame.antt =====
-- buildErrorFrame of src/ErrorGlyph.cpp: the frame is a prefix and a valid block for each panel.
use led_display_g6_firmware.Common.{
  ℕ, zero, suc, ◌+◌, ◌-◌, ◌*◌, ◌%◌, ◌≡◌, refl, ◌∙◌, true, List, [], ◌∷◌, ◌++◌, length, replicate,
  ◌==◌, arith, length-append, length-set, length-replicate, if_intro,
}
use led_display_g6_firmware.Panel.Protocol.{
  stamp_header_parity, validate_parity, header_version_v1, cmd_disp_16lvl_oneshot,
}
use led_display_g6_firmware.Panel.Parity.{validate_parity-stamp_header_parity}
use led_display_g6_firmware.Panel.Glyph.{
  Picture, panel_dim, pack_pixel, pack_columns, pack_rows, pack_picture, error_picture,
}

abbrev pub panel_block_byte_count_gs16 : ℕ
panel_block_byte_count_gs16 = 203

-- Header, opcode, pixels and the duty cycle, with the parity stamped.
abbrev pub error_block : List ℕ → List ℕ
error_block pixels =
    stamp_header_parity (header_version_v1 ∷ cmd_disp_16lvl_oneshot ∷ (pixels ++ 0x80 ∷ []))

-- The same block for each panel.
abbrev pub blocks : ℕ → List ℕ → List ℕ
blocks zero block = []
blocks (suc n) block = block ++ blocks n block

-- The frame buffer; the source returns its length.
unfoldable pub build_error_frame : ℕ → ℕ → List ℕ
build_error_frame code panel_count =
    0x46 ∷ 0x52 ∷ 0 ∷ 0 ∷ blocks panel_count (error_block (pack_picture (error_picture code)))

length-pack_pixel :
    (img : Picture) (r c : ℕ) (p : List ℕ) → length (pack_pixel img r c p) ≡ length p
length-pack_pixel img r c p =
    if_intro (λ (q : List ℕ). length q ≡ length p) (img r c % 16 == 0) (λ e. refl)
      (λ e.
        if_intro (λ (q : List ℕ). length q ≡ length p)
          (((panel_dim - 1 - r) * panel_dim + c) % 2 == 1) (λ k. length-set p _ _)
          (λ k. length-set p _ _))

length-pack_columns :
    (n : ℕ) (img : Picture) (r c : ℕ) (p : List ℕ) → length (pack_columns n img r c p) ≡ length p
length-pack_columns zero img r c p = refl
length-pack_columns (suc n) img r c p =
    length-pack_columns n img r (c + 1) (pack_pixel img r c p) ∙ length-pack_pixel img r c p

length-pack_rows :
    (n : ℕ) (img : Picture) (r : ℕ) (p : List ℕ) → length (pack_rows n img r p) ≡ length p
length-pack_rows zero img r p = refl
length-pack_rows (suc n) img r p =
    length-pack_rows n img (r + 1) (pack_columns panel_dim img r 0 p)
    ∙ length-pack_columns panel_dim img r 0 p

length-pack_picture : (img : Picture) → length (pack_picture img) ≡ 200
unfolding pack_picture
length-pack_picture img =
    length-pack_rows panel_dim img 0 (replicate 200 0) ∙ length-replicate {A = ℕ} 200 0

pub length-stamp : (msg : List ℕ) → length (stamp_header_parity msg) ≡ length msg
unfolding stamp_header_parity
length-stamp [] = refl
length-stamp (h ∷ []) = refl
length-stamp (h ∷ c ∷ p) = refl

-- A frame buffer as a controller reads it: a prefix, then a whole valid block for each panel.
abbrev pub ValidBlocks : ℕ → List ℕ → Type 0
ValidBlocks zero bs = bs ≡ []
ValidBlocks (suc n) bs =
    (block : List ℕ) × (rest : List ℕ) × (bs ≡ block ++ rest)
    × (length block ≡ panel_block_byte_count_gs16)
    × (validate_parity block ≡ true)
    × ValidBlocks n rest

blocks-ValidBlocks :
    (n : ℕ) (block : List ℕ)
    → length block ≡ 203
    → validate_parity block ≡ true
    → ValidBlocks n (blocks n block) × (length (blocks n block) ≡ n * 203)
blocks-ValidBlocks zero block h v = (refl, refl)
blocks-ValidBlocks (suc n) block h v =
    let r = blocks-ValidBlocks n block h v in
    (
      (block, blocks n block, refl, h, v, r.0),
      omega (arith, length-append block (blocks n block), h, r.1),
    )

-- For any error code and number of panels, the frame has the length of a grayscale frame for so many
-- panels, and behind its prefix of four bytes it is that many whole blocks of valid parity.
pub build_error_frame-ValidBlocks :
    (code panel_count : ℕ)
    → (length (build_error_frame code panel_count) ≡ 4 + panel_count * panel_block_byte_count_gs16)
      × ((rest : List ℕ) × (build_error_frame code panel_count ≡ 0x46 ∷ 0x52 ∷ 0 ∷ 0 ∷ rest)
          × ValidBlocks panel_count rest)
unfolding build_error_frame
build_error_frame-ValidBlocks code panel_count =
    (omega (arith, v.1), (blocks panel_count block, refl, v.0))
  where
    body : List ℕ
    body =
        header_version_v1
        ∷ cmd_disp_16lvl_oneshot
        ∷ (pack_picture (error_picture code) ++ 0x80 ∷ [])

    block : List ℕ
    block = error_block (pack_picture (error_picture code))

    long : length body ≡ 203
    long = omega (
      arith,
      length-append (pack_picture (error_picture code)) (0x80 ∷ []),
      length-pack_picture (error_picture code),
    )

    v :
        ValidBlocks panel_count (blocks panel_count block)
        × (length (blocks panel_count block) ≡ panel_count * 203)
    v =
        blocks-ValidBlocks panel_count block (length-stamp body ∙ long)
          (validate_parity-stamp_header_parity body (omega (arith, long)))
