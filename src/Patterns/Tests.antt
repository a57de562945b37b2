-- ===== src/Patterns/Tests.antt =====
-- Runs of the pattern list at small inputs, and the theorems at inputs that meet their hypotheses.
use led_display_g6_firmware.Common.{ℕ, ◌≢◌, ◌↔◌, ◌++◌, ◌≡◌, refl, true, false, List, [], ◌∷◌, arith}
use led_display_g6_firmware.Patterns.Catalog.{Catalog, Card, insert_sorted, delete_pattern}
use led_display_g6_firmware.Patterns.Listing.{
  Listed, Request, delete, rename, scan_again, requests, requests-Listed,
}
use led_display_g6_firmware.Panel.Crc.{crc8_autosar}
use led_display_g6_firmware.Patterns.Header.{
  Info, validate_header_bytes, validate_header, read_frame,
}
use led_display_g6_firmware.Patterns.Loading.{WellFormed, Described, validate_header-Described}
use led_display_g6_firmware.Patterns.Reading.{stored_frames, read_frame-stored_frames}
use led_display_g6_firmware.Patterns.Handle.{Deleted, delete_pattern-Deleted}

abbrev good_card : Card
good_card = record { there = true; done = true; manifest = true }

-- Three patterns, of which the last is open.
abbrev three : Catalog
three = record {
  mounted = true;
  names = (0x61 ∷ []) ∷ (0x62 ∷ []) ∷ (0x64 ∷ []) ∷ [];
  origins = (0x61 ∷ []) ∷ (0x62 ∷ []) ∷ (0x64 ∷ []) ∷ [];
  file_open = true;
  open_id = 3;
  file = 0x64 ∷ [];
}

insert_middle :
    (insert_sorted (0x63 ∷ []) (0x7a ∷ []) three).origins
    ≡ (0x61 ∷ []) ∷ (0x62 ∷ []) ∷ (0x7a ∷ []) ∷ (0x64 ∷ []) ∷ []
unfolding insert_sorted
insert_middle = refl

three-Listed : Listed three
three-Listed = record { sorted = (refl, (refl, refl)); parallel = refl; fits = omega arith }

abbrev busy_day : List Request
busy_day =
    delete good_card 1
    ∷ rename good_card (λ name. false) 2 (0x60 ∷ [])
    ∷ scan_again ((0x62 ∷ []) ∷ (0x61 ∷ []) ∷ [])
    ∷ []

requests-Listed_example : Listed (requests three busy_day)
requests-Listed_example = requests-Listed three busy_day three-Listed

delete_pattern-Deleted_example : Deleted 1 three (delete_pattern good_card 1 three).1
delete_pattern-Deleted_example =
    delete_pattern-Deleted good_card 1 three refl refl (omega arith) (omega arith)
      (record { is_open = refl; some = omega arith; listed = omega arith; same = refl })

-- Two frames of a pattern of 4 x 10 panels with 53 bytes each.
abbrev two_frames : List ℕ
two_frames = 71 ∷ 54 ∷ 80 ∷ 84 ∷ 32 ∷ 0 ∷ 2 ∷ 0 ∷ 4 ∷ 10 ∷ 1 ∷ 1 ∷ 0 ∷ 0 ∷ 0 ∷ 0 ∷ 0 ∷ 135 ∷ []

abbrev no_info : Info
no_info = record {
  frame_count = 0;
  row_count = 0;
  col_count = 0;
  gs_val = 0;
  block_size = 0;
  num_panels = 0;
  frame_size = 0;
}

two_frames_accepted : (validate_header 4 10 two_frames no_info).0 ≡ 0
unfolding validate_header validate_header_bytes crc8_autosar
two_frames_accepted = refl

validate_header-Described_example :
    (((validate_header 4 10 two_frames no_info).0 ≡ 0) ↔ WellFormed 4 10 two_frames)
    × ((validate_header 4 10 two_frames no_info).0 ≡ 0
        → Described 4 10 two_frames (validate_header 4 10 two_frames no_info).1)
    × ((validate_header 4 10 two_frames no_info).0 ≢ 0
        → (validate_header 4 10 two_frames no_info).1 ≡ no_info)
validate_header-Described_example = validate_header-Described 4 10 two_frames no_info

-- A small geometry: one panel with a block of two bytes.
abbrev small : Info
small = record {
  frame_count = 2;
  row_count = 1;
  col_count = 1;
  gs_val = 1;
  block_size = 2;
  num_panels = 1;
  frame_size = 8;
}

abbrev small_bodies : List (List ℕ)
small_bodies = (0x46 ∷ 0x52 ∷ 0 ∷ 0 ∷ 5 ∷ 6 ∷ []) ∷ (0x46 ∷ 0x52 ∷ 1 ∷ 0 ∷ 7 ∷ 8 ∷ []) ∷ []

read_frame-stored_frames_example :
    read_frame true true small (two_frames ++ stored_frames small_bodies) 1 8
    ≡ (0, 0x46 ∷ 0x52 ∷ 1 ∷ 0 ∷ 7 ∷ 8 ∷ [])
read_frame-stored_frames_example =
    read_frame-stored_frames small two_frames small_bodies 1 8 refl
      (refl, refl, refl, (refl, refl, refl, refl)) refl refl (omega arith) (omega arith)
