-- ===== src/Transfers/Streaming.antt =====
-- What an archive under way may still send, and the cases of serviceArchive against it.
use mathlib.Core.List.{append_assoc}
use led_display_g6_firmware.Common.{
  ℕ, suc, ◌+◌, ◌-◌, ◌≤◌, ◌<◌, ◌≡◌, refl, sym, ap, ◌∙◌, subst, List, [], ◌∷◌, ◌++◌, none, length,
  take, drop, get_or-set_self, length-set, set, bit_xor, arith, length-append, drop_at, take_at,
  take-set, drop-set, drop_all, take-append-drop,
}
use led_display_g6_firmware.Panel.Crc.{crc32_update, crc32_update-append}
use led_display_g6_firmware.Transfers.Archive.{
  ZipEntry, Archive, ArchivePhase, local_header, file_data, data_descriptor, central_dir, eocd,
  blank_entry, local_header_bytes, descriptor_bytes, central_dir_bytes, eocd_bytes, entry,
  ArchivePass, later, data_chunk, data_file,
}
use led_display_g6_firmware.Transfers.Zip.{with_crc, with_crcs, bodies, directory, Sized}

abbrev pub end_record : Archive → List ℕ
end_record ar = eocd_bytes (length ar.entries) ar.cd_size ar.cd_offset

-- What follows the entries done when those to do have these contents.
abbrev pub following : Archive → List ZipEntry → List ZipEntry → List (List ℕ) → List ℕ
following ar earlier todo contents =
    bodies todo contents ++ (directory (earlier ++ with_crcs todo contents) ++ end_record ar)

-- `xs` is what an archive in a phase may still send: `content` is the rest of the entry that is
-- streamed, and `contents` are those of the entries behind it.
abbrev pub RemainsIn : ArchivePhase → Archive → List ℕ → List (List ℕ) → List ℕ → Type 0
RemainsIn local_header ar content contents xs =
    (ar.entry_idx < length ar.entries)
    × Sized (drop ar.entry_idx ar.entries) contents
    × (xs ≡ following ar (take ar.entry_idx ar.entries) (drop ar.entry_idx ar.entries) contents)
RemainsIn file_data ar content contents xs =
    (ar.entry_idx < length ar.entries)
    × Sized (drop (suc ar.entry_idx) ar.entries) contents
    × (length content ≡ ar.file_remaining)
    × (xs
        ≡ content
          ++ (descriptor_bytes (with_crc (entry ar) ar.crc content)
              ++ following ar
                  (take ar.entry_idx ar.entries ++ with_crc (entry ar) ar.crc content ∷ [])
                  (drop (suc ar.entry_idx) ar.entries) contents))
RemainsIn data_descriptor ar content contents xs =
    (ar.entry_idx < length ar.entries)
    × Sized (drop (suc ar.entry_idx) ar.entries) contents
    × (xs
        ≡ descriptor_bytes (entry ar)
          ++ following ar (take ar.entry_idx ar.entries ++ entry ar ∷ [])
              (drop (suc ar.entry_idx) ar.entries) contents)
RemainsIn central_dir ar content contents xs =
    (ar.entry_idx < length ar.entries)
    × (xs ≡ directory (drop ar.entry_idx ar.entries) ++ end_record ar)
RemainsIn eocd ar content contents xs = xs ≡ end_record ar

pub record MaySend (ar : Archive) (xs : List ℕ) : Type 0 where
  pub content : List ℕ
  pub contents : List (List ℕ)
  pub remains : RemainsIn ar.phase ar content contents xs

pub may_send :
    (ar : Archive) (phase : ArchivePhase) (content : List ℕ) (contents : List (List ℕ))
    (xs : List ℕ)
    → ar.phase ≡ phase
    → RemainsIn phase ar content contents xs
    → MaySend ar xs
may_send ar phase content contents xs e h = record {
  content = content;
  contents = contents;
  remains = subst (λ (x : ArchivePhase). RemainsIn x ar content contents xs) (sym e) h;
}

regroup : (a b c d rest : List ℕ) → a ++ (b ++ (c ++ (d ++ rest))) ≡ (a ++ (b ++ (c ++ d))) ++ rest
regroup a b c d rest = sym (
    append_assoc a (b ++ (c ++ d)) rest
    ∙ ap (λ (xs : List ℕ). a ++ xs)
        (append_assoc b (c ++ d) rest ∙ ap (λ (xs : List ℕ). b ++ xs) (append_assoc c d rest)))

abbrev pub noted : Archive → ZipEntry
noted ar = record (entry ar) { crc32 = bit_xor ar.crc 0xffffffff }

-- The cases of the switch, each with its piece and the archive that goes on behind it.
module _ (p : ArchivePass) (ar : Archive) (xs : List ℕ)
    (in_range : ar.entry_idx < length ar.entries) where
  abbrev pub opened : Archive
  opened = record ar {
    crc = 0xffffffff;
    file_remaining = (entry ar).file_size;
    file = p.card (entry ar).sd_path;
    phase = file_data;
  }

  abbrev pub cut_todo : List ZipEntry
  cut_todo = drop (suc ar.entry_idx) ar.entries

  cut : drop ar.entry_idx ar.entries ≡ entry ar ∷ cut_todo
  cut = drop_at ar.entries ar.entry_idx blank_entry in_range

  -- The header of an entry goes out before its data.
  pub send-local_header :
      ar.phase ≡ local_header
      → MaySend (later p opened) xs
      → MaySend ar (local_header_bytes (entry ar) ++ xs)
  send-local_header h v = may_send ar local_header [] (v.content ∷ v.contents) _ h (
    in_range,
    subst (λ (es : List ZipEntry). Sized es (v.content ∷ v.contents)) (sym cut)
        (v.remains.2, v.remains.1),
    ap (λ (ys : List ℕ). local_header_bytes (entry ar) ++ ys) v.remains.3
        ∙ regroup (local_header_bytes (entry ar)) v.content (descriptor_bytes described)
            (bodies cut_todo v.contents) (ending ((earlier ++ described ∷ []) ++ rest_crcs))
        ∙ ap
            (λ (es : List ZipEntry).
              bodies (entry ar ∷ cut_todo) (v.content ∷ v.contents) ++ ending es)
            (append_assoc earlier (described ∷ []) rest_crcs)
        ∙ ap (λ (es : List ZipEntry). following ar earlier es (v.content ∷ v.contents)) (sym cut),
  )
    where
      described : ZipEntry
      described = with_crc (entry ar) 0xffffffff v.content

      earlier : List ZipEntry
      earlier = take ar.entry_idx ar.entries

      rest_crcs : List ZipEntry
      rest_crcs = with_crcs cut_todo v.contents

      ending : List ZipEntry → List ℕ
      ending es = directory es ++ end_record ar

  abbrev pub closed : Archive
  closed = record ar {
    file = none;
    entries = set ar.entries ar.entry_idx (record (entry ar) { crc32 = bit_xor ar.crc 0xffffffff });
    phase = data_descriptor;
  }

  -- When its data is sent, the checksum is noted in the entry.
  pub send-closed : ar.phase ≡ file_data → ar.file_remaining ≡ 0 → MaySend closed xs → MaySend ar xs
  unfolding crc32_update
  send-closed h z v = may_send ar file_data [] v.contents xs h (
    in_range,
    subst (λ (es : List ZipEntry). Sized es v.contents) (drop-set ar.entries ar.entry_idx _)
        v.remains.1,
    sym z,
    v.remains.2
        ∙ rw
            (
              get_or-set_self ar.entries ar.entry_idx (noted ar) blank_entry in_range,
              take-set ar.entries ar.entry_idx (noted ar),
              drop-set ar.entries ar.entry_idx (noted ar),
              length-set ar.entries ar.entry_idx (noted ar),
            )
            refl,
  )

  abbrev pub chunk : List ℕ
  chunk = data_chunk p ar

  abbrev pub read : Archive
  read = record ar {
    crc = crc32_update ar.crc (data_chunk p ar);
    file = data_file p ar;
    file_remaining = ar.file_remaining - length (data_chunk p ar);
  }

  -- A chunk of the data goes out, and is counted into the checksum.
  pub send-chunk :
      ar.phase ≡ file_data
      → length chunk ≤ ar.file_remaining
      → MaySend (later p read) xs
      → MaySend ar (chunk ++ xs)
  send-chunk h fits v = may_send ar file_data (chunk ++ w.0) w.1 _ h (
    in_range,
    w.2.1,
    omega (arith, length-append chunk w.0, w.2.2),
    ap (λ (ys : List ℕ). chunk ++ ys) w.2.3
        ∙ sym (append_assoc chunk w.0 _)
        ∙ ap
            (λ (crc : ℕ).
              (chunk ++ w.0)
              ++ (descriptor_bytes (record (entry ar) { crc32 = bit_xor crc 0xffffffff })
                  ++ following ar
                      (take ar.entry_idx ar.entries
                        ++ record (entry ar) { crc32 = bit_xor crc 0xffffffff } ∷ [])
                      cut_todo w.1))
            (sym (crc32_update-append ar.crc chunk w.0)),
  )
    where
      w :
          (content : List ℕ) × (contents : List (List ℕ)) × RemainsIn file_data
            (later p read)
            content
            contents
            xs
      w = (
        v.content,
        v.contents,
        subst (λ (x : ArchivePhase). RemainsIn x (later p read) v.content v.contents xs) h
            v.remains,
      )

  abbrev pub next_entry : Archive
  next_entry = record ar { entry_idx = ar.entry_idx + 1; phase = local_header }

  -- The next entry follows the descriptor of one.
  pub send-descriptor :
      ar.phase ≡ data_descriptor
      → MaySend (later p next_entry) xs
      → MaySend ar (descriptor_bytes (entry ar) ++ xs)
  send-descriptor h v = may_send ar data_descriptor [] v.contents _ h (
    in_range,
    subst (λ (i : ℕ). Sized (drop i ar.entries) v.contents) one_more v.remains.1,
    ap (λ (ys : List ℕ). descriptor_bytes (entry ar) ++ ys) v.remains.2
        ∙ ap
            (λ (i : ℕ).
              descriptor_bytes (entry ar)
              ++ following ar (take i ar.entries) (drop i ar.entries) v.contents)
            one_more
        ∙ ap
            (λ (es : List ZipEntry).
              descriptor_bytes (entry ar) ++ following ar es cut_todo v.contents)
            (take_at ar.entries ar.entry_idx blank_entry in_range),
  )
    where
      one_more : ar.entry_idx + 1 ≡ suc ar.entry_idx
      one_more = omega arith

  abbrev pub directory_next : Archive
  directory_next = record ar { entry_idx = 0; phase = central_dir }

  -- The directory follows the descriptor of the last entry.
  pub send-last_descriptor :
      ar.phase ≡ data_descriptor
      → length ar.entries ≤ ar.entry_idx + 1
      → MaySend (later p directory_next) xs
      → MaySend ar (descriptor_bytes (entry ar) ++ xs)
  send-last_descriptor h last v = may_send ar data_descriptor [] [] _ h (
    in_range,
    subst (λ (es : List ZipEntry). Sized es []) (sym none_left) refl,
    ap (λ (ys : List ℕ). descriptor_bytes (entry ar) ++ ys) v.remains.1
        ∙ ap
            (λ (es : List ZipEntry). descriptor_bytes (entry ar) ++ (directory es ++ end_record ar))
            all_done
        ∙ ap
            (λ (es : List ZipEntry).
              descriptor_bytes (entry ar)
              ++ following ar (take ar.entry_idx ar.entries ++ entry ar ∷ []) es [])
            (sym none_left),
  )
    where
      none_left : cut_todo ≡ []
      none_left = drop_all ar.entries (suc ar.entry_idx) (omega arith)

      all_done : ar.entries ≡ (take ar.entry_idx ar.entries ++ entry ar ∷ []) ++ []
      all_done =
          sym (take-append-drop (suc ar.entry_idx) ar.entries)
          ∙ ap (λ (es : List ZipEntry). take (suc ar.entry_idx) ar.entries ++ es) none_left
          ∙ ap (λ (es : List ZipEntry). es ++ [])
              (take_at ar.entries ar.entry_idx blank_entry in_range)

  abbrev pub next_record : ArchivePhase → Archive
  next_record phase = record ar { entry_idx = ar.entry_idx + 1; phase = phase }

  -- The records of the directory follow one another.
  pub send-central_dir :
      ar.phase ≡ central_dir
      → MaySend (later p (next_record central_dir)) xs
      → MaySend ar (central_dir_bytes (entry ar) ++ xs)
  send-central_dir h v = may_send ar central_dir [] [] _ h (
    in_range,
    ap (λ (ys : List ℕ). central_dir_bytes (entry ar) ++ ys) v.remains.1
        ∙ ap
            (λ (i : ℕ).
              central_dir_bytes (entry ar) ++ (directory (drop i ar.entries) ++ end_record ar))
            {x = ar.entry_idx + 1} {y = suc ar.entry_idx} (omega arith)
        ∙ sym (append_assoc (central_dir_bytes (entry ar)) (directory cut_todo) (end_record ar))
        ∙ ap (λ (es : List ZipEntry). directory es ++ end_record ar) (sym cut),
  )

  -- The end record follows the last one.
  pub send-last_central_dir :
      ar.phase ≡ central_dir
      → length ar.entries ≤ ar.entry_idx + 1
      → MaySend (later p (next_record eocd)) xs
      → MaySend ar (central_dir_bytes (entry ar) ++ xs)
  send-last_central_dir h last v = may_send ar central_dir [] [] _ h (
    in_range,
    ap (λ (ys : List ℕ). central_dir_bytes (entry ar) ++ ys) v.remains
        ∙ ap
            (λ (es : List ZipEntry).
              central_dir_bytes (entry ar) ++ (directory es ++ end_record ar))
            (sym (drop_all ar.entries (suc ar.entry_idx) (omega arith)))
        ∙ sym (append_assoc (central_dir_bytes (entry ar)) (directory cut_todo) (end_record ar))
        ∙ ap (λ (es : List ZipEntry). directory es ++ end_record ar) (sym cut),
  )
