-- ===== src/Patterns/Reading.antt =====
-- readFrame finds the frame that was asked for in a file of the pattern format.
use mathlib.Core.List.{append_assoc}
use led_display_g6_firmware.Common.{
  ℕ, zero, suc, ◌+◌, ◌*◌, ◌/◌, ◌%◌, ◌≤◌, ◌<◌, ◌≡◌, sym, ap, ◌∙◌, true, List, [], ◌∷◌, ◌++◌, length,
  take, drop, get_or, arith, take-append, drop-append, length-append,
}
use led_display_g6_firmware.Common.Bytes.{le16}
use led_display_g6_firmware.Panel.Crc.{crc16_ccitt_false}
use led_display_g6_firmware.Patterns.Header.{Info, read_frame}

-- A frame on the card: its body and the checksum of the body.
abbrev pub stored_frame : List ℕ → List ℕ
stored_frame body = body ++ (crc16_ccitt_false body % 256 ∷ crc16_ccitt_false body / 256 ∷ [])

abbrev pub stored_frames : List (List ℕ) → List ℕ
stored_frames [] = []
stored_frames (b ∷ bs) = stored_frame b ++ stored_frames bs

-- Bodies of `n` bytes that start with "FR".
abbrev pub Bodies : ℕ → List (List ℕ) → Type 0
Bodies n [] = n ≡ n
Bodies n (b ∷ bs) = (length b ≡ n) × (get_or b 0 0 ≡ 0x46) × (get_or b 1 0 ≡ 0x52) × Bodies n bs

drop_past : (xs ys : List ℕ) (n : ℕ) → drop (length xs + n) (xs ++ ys) ≡ drop n ys
drop_past [] ys n = ap (λ (m : ℕ). drop m ys) {x = 0 + n} {y = n} (omega arith)
drop_past (x ∷ xs) ys n =
    ap (λ (m : ℕ). drop m (x ∷ (xs ++ ys))) {x = suc (length xs) + n} {y = suc (length xs + n)}
      (omega arith)
    ∙ drop_past xs ys n

drop-drop : (a b : ℕ) (xs : List ℕ) → drop (a + b) xs ≡ drop b (drop a xs)
drop-drop zero b xs = ap (λ (m : ℕ). drop m xs) {x = 0 + b} {y = b} (omega arith)
drop-drop (suc a) zero [] = ap (λ (m : ℕ). drop m []) {x = suc a + 0} {y = suc a} (omega arith)
drop-drop (suc a) (suc b) [] =
    ap (λ (m : ℕ). drop m []) {x = suc a + suc b} {y = suc (a + suc b)} (omega arith)
drop-drop (suc a) b (x ∷ xs) =
    ap (λ (m : ℕ). drop m (x ∷ xs)) {x = suc a + b} {y = suc (a + b)} (omega arith)
    ∙ drop-drop a b xs

length-stored : (b : List ℕ) → length (stored_frame b) ≡ length b + 2
length-stored b = length-append b _

one_more : (i n : ℕ) → suc i * n ≡ n + i * n
one_more i n = grind arith

-- Frame `i` stands behind the frames before it.
at_frame :
    (n i : ℕ) (bodies : List (List ℕ))
    → Bodies n bodies
    → i < length bodies
    → drop (i * (n + 2)) (stored_frames bodies)
      ≡ stored_frame (get_or bodies i []) ++ stored_frames (drop (suc i) bodies)
at_frame n i [] v h = absurd (omega arith)
at_frame n zero (b ∷ bs) v h =
    ap (λ (m : ℕ). drop m (stored_frames (b ∷ bs))) {x = 0 * (n + 2)} {y = 0} (omega arith)
at_frame n (suc i) (b ∷ bs) v h =
    ap (λ (m : ℕ). drop m (stored_frames (b ∷ bs))) {x = suc i * (n + 2)}
      {y = length (stored_frame b) + i * (n + 2)}
      (omega (arith, one_more i (n + 2), length-stored b, v.0))
    ∙ drop_past (stored_frame b) (stored_frames bs) (i * (n + 2))
    ∙ at_frame n i bs v.3 (omega arith)

good_body :
    (n i : ℕ) (bodies : List (List ℕ))
    → Bodies n bodies
    → i < length bodies
    → let b = get_or bodies i [] in (length b ≡ n) × (get_or b 0 0 ≡ 0x46) × (get_or b 1 0 ≡ 0x52)
good_body n i [] v h = absurd (omega arith)
good_body n zero (b ∷ bs) v h = (v.0, v.1, v.2)
good_body n (suc i) (b ∷ bs) v h = good_body n i bs v.3 (omega arith)

read_ok :
    (info : Info) (file body : List ℕ) (i cap lo hi : ℕ)
    → i < info.frame_count
    → 4 + info.num_panels * info.block_size ≤ cap
    → take (4 + info.num_panels * info.block_size) (drop (18 + i * info.frame_size) file) ≡ body
    → take 2 (drop (18 + i * info.frame_size + (4 + info.num_panels * info.block_size)) file)
      ≡ lo ∷ hi ∷ []
    → length body ≡ 4 + info.num_panels * info.block_size
    → get_or body 0 0 ≡ 0x46
    → get_or body 1 0 ≡ 0x52
    → crc16_ccitt_false body ≡ le16 lo hi
    → read_frame true true info file i cap ≡ (0, body)
unfolding read_frame
read_ok info file body i cap lo hi h k e c l f r s = rw (e, c) (ground arith)

-- In a file of a header and stored frames, for whose geometry the info stands, readFrame reads the
-- body of any frame without error, into a buffer that has room for it.
pub read_frame-stored_frames :
    (info : Info) (hdr : List ℕ) (bodies : List (List ℕ)) (i cap : ℕ)
    → length hdr ≡ 18
    → Bodies (4 + info.num_panels * info.block_size) bodies
    → info.frame_size ≡ 4 + info.num_panels * info.block_size + 2
    → info.frame_count ≡ length bodies
    → i < length bodies
    → 4 + info.num_panels * info.block_size ≤ cap
    → read_frame true true info (hdr ++ stored_frames bodies) i cap ≡ (0, get_or bodies i [])
read_frame-stored_frames info hdr bodies i cap long v size count h room =
    read_ok info file body i cap (crc16_ccitt_false body % 256) (crc16_ccitt_false body / 256)
      (omega (arith, count)) room front back good.0 good.1 good.2 (omega arith)
  where
    n : ℕ
    n = 4 + info.num_panels * info.block_size

    file : List ℕ
    file = hdr ++ stored_frames bodies

    body : List ℕ
    body = get_or bodies i []

    crc : List ℕ
    crc = crc16_ccitt_false body % 256 ∷ crc16_ccitt_false body / 256 ∷ []

    good : (length body ≡ n) × (get_or body 0 0 ≡ 0x46) × (get_or body 1 0 ≡ 0x52)
    good = good_body n i bodies v h

    there :
        drop (18 + i * info.frame_size) file ≡ body ++ (crc ++ stored_frames (drop (suc i) bodies))
    there =
        ap (λ (m : ℕ). drop (18 + i * m) file) size
        ∙ ap (λ (m : ℕ). drop (m + i * (n + 2)) file) (sym long)
        ∙ drop_past hdr (stored_frames bodies) (i * (n + 2))
        ∙ at_frame n i bodies v h
        ∙ append_assoc body crc (stored_frames (drop (suc i) bodies))

    front : take n (drop (18 + i * info.frame_size) file) ≡ body
    front =
        ap (take n) there
        ∙ ap (λ (m : ℕ). take m (body ++ (crc ++ stored_frames (drop (suc i) bodies)))) (sym good.0)
        ∙ take-append body _

    back : take 2 (drop (18 + i * info.frame_size + n) file) ≡ crc
    back = ap (take 2) (
        drop-drop (18 + i * info.frame_size) n file
        ∙ ap (drop n) there
        ∙ ap (λ (m : ℕ). drop m (body ++ (crc ++ stored_frames (drop (suc i) bodies)))) (sym good.0)
        ∙ drop-append body (crc ++ stored_frames (drop (suc i) bodies)))
