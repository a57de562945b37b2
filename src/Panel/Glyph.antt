-- ===== src/Panel/Glyph.antt =====
-- The picture of src/ErrorGlyph.cpp: the font, the stamping of a glyph, and the packing of the
-- picture into pixel bytes. A picture is a function from row and column to intensity.
use led_display_g6_firmware.Common.{
  ℕ, zero, suc, ◌+◌, ◌-◌, ◌*◌, ◌/◌, ◌%◌, List, [], ◌∷◌, get_or, set, replicate, ltb, ◌==◌, ◌&&◌,
  if◌then◌else◌, min, bit_and, bit_or,
}

abbrev pub font_digits : List (List ℕ)
font_digits =
    (0x0e ∷ 0x11 ∷ 0x13 ∷ 0x15 ∷ 0x19 ∷ 0x11 ∷ 0x0e ∷ [])
    ∷ (0x04 ∷ 0x0c ∷ 0x04 ∷ 0x04 ∷ 0x04 ∷ 0x04 ∷ 0x0e ∷ [])
    ∷ (0x0e ∷ 0x11 ∷ 0x01 ∷ 0x02 ∷ 0x04 ∷ 0x08 ∷ 0x1f ∷ [])
    ∷ (0x1f ∷ 0x02 ∷ 0x04 ∷ 0x02 ∷ 0x01 ∷ 0x11 ∷ 0x0e ∷ [])
    ∷ (0x02 ∷ 0x06 ∷ 0x0a ∷ 0x12 ∷ 0x1f ∷ 0x02 ∷ 0x02 ∷ [])
    ∷ (0x1f ∷ 0x10 ∷ 0x1e ∷ 0x01 ∷ 0x01 ∷ 0x11 ∷ 0x0e ∷ [])
    ∷ (0x06 ∷ 0x08 ∷ 0x10 ∷ 0x1e ∷ 0x11 ∷ 0x11 ∷ 0x0e ∷ [])
    ∷ (0x1f ∷ 0x01 ∷ 0x02 ∷ 0x04 ∷ 0x08 ∷ 0x08 ∷ 0x08 ∷ [])
    ∷ (0x0e ∷ 0x11 ∷ 0x11 ∷ 0x0e ∷ 0x11 ∷ 0x11 ∷ 0x0e ∷ [])
    ∷ (0x0e ∷ 0x11 ∷ 0x11 ∷ 0x0f ∷ 0x01 ∷ 0x02 ∷ 0x0c ∷ [])
    ∷ []

abbrev pub font_c : List ℕ
font_c = 0x0e ∷ 0x11 ∷ 0x10 ∷ 0x10 ∷ 0x10 ∷ 0x11 ∷ 0x0e ∷ []

abbrev pub font_e : List ℕ
font_e = 0x1f ∷ 0x10 ∷ 0x10 ∷ 0x1e ∷ 0x10 ∷ 0x10 ∷ 0x1f ∷ []

abbrev pub panel_dim : ℕ
panel_dim = 20

abbrev pub Picture : Type 0
Picture = ℕ → ℕ → ℕ

abbrev pub light : Picture → ℕ → ℕ → Picture
light img r c x y =
    if (x == r) && (y == c) && ltb r panel_dim && ltb c panel_dim then 0x0f else img x y

-- The columns of one row of a glyph, of which `gc` are left; the leftmost is the highest bit.
abbrev pub stamp_columns : ℕ → ℕ → ℕ → ℕ → Picture → Picture
stamp_columns zero bits r left img = img
stamp_columns (suc gc) bits r left img =
    let rest = stamp_columns gc (bits * 2) r (left + 1) in
    rest (if bit_and bits 0x10 == 0 then img else light img r left)

-- The rows of a glyph from `top` down.
abbrev pub stamp_glyph : List ℕ → ℕ → ℕ → Picture → Picture
stamp_glyph [] top left img = img
stamp_glyph (bits ∷ glyph) top left img =
    stamp_glyph glyph (top + 1) left (stamp_columns 5 bits top left img)

abbrev pub blank : Picture
blank r c = 0

-- "CE" above the two digits of the code.
unfoldable pub error_picture : ℕ → Picture
error_picture code =
    let shown = min code 99 in
    stamp_glyph (get_or font_digits (shown % 10) []) 11 11 (
      stamp_glyph (get_or font_digits (shown / 10) []) 11 4
        (stamp_glyph font_e 2 11 (stamp_glyph font_c 2 4 blank)))

-- One pixel into its byte: an even pixel is the high half. Row 0 of the panel is at the bottom.
abbrev pub pack_pixel : Picture → ℕ → ℕ → List ℕ → List ℕ
pack_pixel img r c pixels =
    let v = img r c % 16 in
    let n = (panel_dim - 1 - r) * panel_dim + c in
    let old = get_or pixels (n / 2) 0 in
    if v == 0
    then pixels
    else if n % 2 == 1
    then set pixels (n / 2) (bit_or (bit_and old 0xf0) v)
    else set pixels (n / 2) (bit_or (bit_and old 0x0f) (v * 16))

-- The columns from `c` on, of which so many are left.
abbrev pub pack_columns : ℕ → Picture → ℕ → ℕ → List ℕ → List ℕ
pack_columns zero img r c pixels = pixels
pack_columns (suc n) img r c pixels = pack_columns n img r (c + 1) (pack_pixel img r c pixels)

abbrev pub pack_rows : ℕ → Picture → ℕ → List ℕ → List ℕ
pack_rows zero img r pixels = pixels
pack_rows (suc n) img r pixels = pack_rows n img (r + 1) (pack_columns panel_dim img r 0 pixels)

unfoldable pub pack_picture : Picture → List ℕ
pack_picture img = pack_rows panel_dim img 0 (replicate 200 0)
