-- ===== src/Patterns/Loading.antt =====
-- What an accepted header says, and what a frame that is read without error is.
use led_display_g6_firmware.Common.{
  ℕ, ◌+◌, ◌*◌, ◌/◌, ◌%◌, ◌≤◌, ◌<◌, ◌≡◌, ◌≢◌, ◌⊎◌, inl, inr, refl, List, take, drop, get_or, arith,
  if_intro, subst, ◌||◌, ◌↔◌, Bool, true, false, not, ltb, ◌==◌,
}
use led_display_g6_firmware.Panel.Protocol.{payload_ones}
use led_display_g6_firmware.Panel.Crc.{crc8_autosar}
use led_display_g6_firmware.Patterns.Header.{
  Info, validate_header_bytes, validate_header, info_of, frame_count_of, block_size_of,
  magic_matches, arena_panel_count_max, ce_arena_mismatch,
}

-- A version 2 header of the format, byte by byte: "G6PT", the version in the high half of byte 4, the
-- number of frames in bytes 6 and 7, the grid in 8 and 9, the depth in 10, the panels of the mask in
-- 11 to 16, and the checksum of them all in 17.
pub record WellFormed (rows cols : ℕ) (hdr : List ℕ) : Type 0 where
  pub letter_g : get_or hdr 0 0 ≡ 0x47
  pub letter_6 : get_or hdr 1 0 ≡ 0x36
  pub letter_p : get_or hdr 2 0 ≡ 0x50
  pub letter_t : get_or hdr 3 0 ≡ 0x54
  pub version : get_or hdr 4 0 / 16 % 16 ≡ 2
  pub checksum : crc8_autosar (take 17 hdr) ≡ get_or hdr 17 0
  pub frames : get_or hdr 6 0 + get_or hdr 7 0 * 256 ≢ 0
  pub rows_match : get_or hdr 8 0 ≡ rows
  pub cols_match : get_or hdr 9 0 ≡ cols
  pub depth : (get_or hdr 10 0 ≡ 1) ⊎ (get_or hdr 10 0 ≡ 2)
  pub some_panels : get_or hdr 8 0 * get_or hdr 9 0 ≢ 0
  pub few_panels : get_or hdr 8 0 * get_or hdr 9 0 ≤ 48
  pub masked : payload_ones (take 6 (drop 11 hdr)) ≤ get_or hdr 8 0 * get_or hdr 9 0

-- What playing a pattern relies on: the arena's geometry, at least a frame, the block size of its
-- depth, and a frame that fits the frame buffer of the arena.
pub record Playable (rows cols : ℕ) (i : Info) : Type 0 where
  pub frames : 0 < i.frame_count
  pub grid : i.num_panels ≡ rows * cols
  pub blocks : ((i.gs_val ≡ 1) × (i.block_size ≡ 53)) ⊎ ((i.gs_val ≡ 2) × (i.block_size ≡ 203))
  pub frame : i.frame_size ≡ 4 + i.num_panels * i.block_size + 2
  pub buffer : 4 + i.num_panels * i.block_size ≤ 4 + rows * cols * 203

pub Playable-block :
    (rows cols : ℕ) (i : Info) → Playable rows cols i → (i.block_size ≡ 53) ⊎ (i.block_size ≡ 203)
Playable-block rows cols i v = elim v.blocks [ inl e ↦ inl e.1 | inr e ↦ inr e.1 ]

accepted_bytes :
    (hdr : List ℕ)
    → validate_header_bytes hdr ≡ 0
    → (0 < frame_count_of hdr) × ((get_or hdr 10 0 ≡ 1) ⊎ (get_or hdr 10 0 ≡ 2))
unfolding validate_header_bytes
accepted_bytes hdr h = ground arith

block_size_known : (gs : ℕ) → (block_size_of gs ≡ 53) ⊎ (block_size_of gs ≡ 203)
block_size_known gs = ground arith

depth_size :
    (gs : ℕ)
    → (gs ≡ 1) ⊎ (gs ≡ 2)
    → ((gs ≡ 1) × (block_size_of gs ≡ 53)) ⊎ ((gs ≡ 2) × (block_size_of gs ≡ 203))
depth_size gs (inl e) = inl (e, ground (arith, e))
depth_size gs (inr e) = inr (e, ground (arith, e))

same_grid : (a b r c : ℕ) → a ≡ r → b ≡ c → a * b ≡ r * c
same_grid a b r c h k = rw (h, k) refl

smaller_frame : (n bs : ℕ) → (bs ≡ 53) ⊎ (bs ≡ 203) → 4 + n * bs ≤ 4 + n * 203
smaller_frame n bs (inl e) = rw e (omega arith)
smaller_frame n bs (inr e) = rw e (omega arith)

info_of-Playable :
    (rows cols : ℕ) (hdr : List ℕ)
    → validate_header_bytes hdr ≡ 0
    → get_or hdr 8 0 ≡ rows
    → get_or hdr 9 0 ≡ cols
    → Playable rows cols (info_of hdr)
info_of-Playable rows cols hdr h r c =
    let grid : get_or hdr 8 0 * get_or hdr 9 0 ≡ rows * cols = same_grid _ _ rows cols r c in
    record {
      frames = (accepted_bytes hdr h).0;
      grid = grid;
      blocks = depth_size (get_or hdr 10 0) (accepted_bytes hdr h).1;
      frame = refl;
      buffer =
          subst
            (λ (n : ℕ).
              4 + get_or hdr 8 0 * get_or hdr 9 0 * block_size_of (get_or hdr 10 0) ≤ 4 + n * 203)
            grid
            (smaller_frame (get_or hdr 8 0 * get_or hdr 9 0) (block_size_of (get_or hdr 10 0))
              (block_size_known (get_or hdr 10 0)));
    }

accepted-bytes :
    (rows cols : ℕ) (hdr : List ℕ) (info : Info)
    → (validate_header rows cols hdr info).0 ≡ 0
    → validate_header_bytes hdr ≡ 0
unfolding validate_header
accepted-bytes rows cols hdr info h = ground (arith, h)

accepted-checksum :
    (hdr : List ℕ)
    → validate_header_bytes hdr ≡ 0
    → (get_or hdr 4 0 / 16 % 16 ≡ 2) × (crc8_autosar (take 17 hdr) ≡ get_or hdr 17 0)
unfolding validate_header_bytes
accepted-checksum hdr = if_intro P (not (magic_matches hdr)) refused (λ _.
    if_intro P (not (version == 2)) refused (λ v.
      if_intro P (not (crc == get_or hdr 17 0)) refused
        (λ e _. (equal version 2 v, equal crc (get_or hdr 17 0) e))))
  where
    version : ℕ
    version = get_or hdr 4 0 / 16 % 16

    crc : ℕ
    crc = crc8_autosar (take 17 hdr)

    P : ℕ → Type 0
    P n = n ≡ 0 → (version ≡ 2) × (crc ≡ get_or hdr 17 0)

    refused : {b : Bool} → b ≡ true → P 6
    refused _ e = absurd (omega (arith, e))

    equal : (a b : ℕ) → not (a == b) ≡ false → a ≡ b
    equal a b e = ground (arith, e)

accepted-masked :
    (rows cols : ℕ) (hdr : List ℕ) (info : Info)
    → (validate_header rows cols hdr info).0 ≡ 0
    → payload_ones (take 6 (drop 11 hdr)) ≤ get_or hdr 8 0 * get_or hdr 9 0
unfolding validate_header
accepted-masked rows cols hdr info =
    if_intro P (not (validate_header_bytes hdr == 0)) (λ k e. absurd (ground (arith, k, e)))
      (λ _.
        if_intro P ((panels == 0) || ltb arena_panel_count_max panels)
          (λ _ e. absurd (omega (arith, e)))
          (λ _.
            if_intro P (ltb panels mask) (λ _ e. absurd (omega (arith, e)))
              (λ k _. smaller panels mask k)))
  where
    panels : ℕ
    panels = get_or hdr 8 0 * get_or hdr 9 0

    mask : ℕ
    mask = payload_ones (take 6 (drop 11 hdr))

    P : ℕ × Info → Type 0
    P r = r.0 ≡ 0 → mask ≤ panels

    smaller : (a b : ℕ) → ltb a b ≡ false → b ≤ a
    smaller a b e = ground (arith, e)

accepted-WellFormed :
    (rows cols : ℕ) (hdr : List ℕ) (info : Info)
    → (validate_header rows cols hdr info).0 ≡ 0
    → WellFormed rows cols hdr
unfolding validate_header validate_header_bytes
accepted-WellFormed rows cols hdr info h = record {
  letter_g = ground (arith, h);
  letter_6 = ground (arith, h);
  letter_p = ground (arith, h);
  letter_t = ground (arith, h);
  version = (accepted-checksum hdr (accepted-bytes rows cols hdr info h)).0;
  checksum = (accepted-checksum hdr (accepted-bytes rows cols hdr info h)).1;
  frames = λ e. absurd (ground (arith, h, e));
  rows_match = ground (arith, h);
  cols_match = ground (arith, h);
  depth = (accepted_bytes hdr (accepted-bytes rows cols hdr info h)).1;
  some_panels = λ e. absurd (ground (arith, h, e));
  few_panels = ground (arith, h);
  masked = accepted-masked rows cols hdr info h;
}

WellFormed-accepted :
    (rows cols : ℕ) (hdr : List ℕ) (info : Info)
    → WellFormed rows cols hdr
    → (validate_header rows cols hdr info).0 ≡ 0
unfolding validate_header validate_header_bytes
WellFormed-accepted rows cols hdr info v = ground (
  arith, v.letter_g, v.letter_6, v.letter_p, v.letter_t, v.version, v.checksum, v.frames,
  v.rows_match, v.cols_match, v.depth, v.some_panels, v.few_panels, v.masked,
)

-- The pattern that a header describes.
pub record Described (rows cols : ℕ) (hdr : List ℕ) (i : Info) : Type 0 where
  pub playable : Playable rows cols i
  pub count : i.frame_count ≡ get_or hdr 6 0 + get_or hdr 7 0 * 256
  pub depth : i.gs_val ≡ get_or hdr 10 0

validated :
    (rows cols : ℕ) (hdr : List ℕ) (info : Info)
    → ((validate_header rows cols hdr info).0 ≡ 0
        → Described rows cols hdr (validate_header rows cols hdr info).1)
      × ((validate_header rows cols hdr info).0 ≢ 0 → (validate_header rows cols hdr info).1 ≡ info)
unfolding validate_header
validated rows cols hdr info =
    if_intro P (not (validate_header_bytes hdr == 0))
      (λ p. (λ e. absurd (ground (arith, p, e)), λ e. refl))
      (λ p.
        if_intro P ((num_panels == 0) || ltb arena_panel_count_max num_panels) (λ q. refused)
          (λ q.
            if_intro P (ltb num_panels (payload_ones (take 6 (drop 11 hdr)))) (λ l. refused)
              (λ l.
                if_intro P (not (get_or hdr 8 0 == rows) || not (get_or hdr 9 0 == cols))
                  (λ m. refused)
                  (λ m. (
                    λ e. record {
                      playable =
                          info_of-Playable rows cols hdr (ground (arith, p)) (ground (arith, m))
                            (ground (arith, m));
                      count = omega arith;
                      depth = refl;
                    },
                    λ e. absurd (e refl),
                  )))))
  where
    P : ℕ × Info → Type 0
    P r = (r.0 ≡ 0 → Described rows cols hdr r.1) × (r.0 ≢ 0 → r.1 ≡ info)

    num_panels : ℕ
    num_panels = get_or hdr 8 0 * get_or hdr 9 0

    refused : P (ce_arena_mismatch, info)
    refused = (λ e. absurd (omega (arith, e)), λ e. refl)

-- A header is accepted exactly when it is a version 2 header of the format, with a right checksum, for
-- the grid of the arena. It then gives a pattern that can be played on the arena, with the
-- numbers of frames and panels of the header and the block size of its depth. A refused one leaves
-- the info of the open pattern as it was.
pub validate_header-Described :
    (rows cols : ℕ) (hdr : List ℕ) (info : Info)
    → (((validate_header rows cols hdr info).0 ≡ 0) ↔ WellFormed rows cols hdr)
      × ((validate_header rows cols hdr info).0 ≡ 0
          → Described rows cols hdr (validate_header rows cols hdr info).1)
      × ((validate_header rows cols hdr info).0 ≢ 0 → (validate_header rows cols hdr info).1 ≡ info)
validate_header-Described rows cols hdr info = (
  (accepted-WellFormed rows cols hdr info, WellFormed-accepted rows cols hdr info),
  (validated rows cols hdr info).0,
  (validated rows cols hdr info).1,
)
