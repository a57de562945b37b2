-- ===== src/Transfers/Zipped.antt =====
-- From the command to the last byte: the archive that is streamed is a ZIP file of the files found,
-- of the size announced.
use mathlib.Core.List.{append_assoc, append-nil}
use led_display_g6_firmware.Common.{
  ℕ, suc, ◌+◌, ◌^◌, ◌<◌, ◌≤◌, ◌≡◌, refl, sym, ap, ◌∙◌, subst, true, false, not, List, [], ◌∷◌, ◌++◌,
  length, arith, length-append, if_intro, Bool-cases, inl, inr,
}
use led_display_g6_firmware.Patterns.Catalog.{Name}
use led_display_g6_firmware.Transport.Tx.{expired}
use led_display_g6_firmware.Transfers.Desk.{Source}
use led_display_g6_firmware.Transfers.Archive.{
  Files, ZipEntry, Archive, ArchivePhase, local_header, local_header_bytes, descriptor_bytes,
  eocd_bytes, collect, place, offset_after, entries_end, directory_size, start_archive,
  handle_get_sd_archive, ArchivePass, abort_archive, service_archive, archives,
}
use led_display_g6_firmware.Transfers.Zip.{
  with_crc, with_crcs, bodies, directory, Sized, locate, zip, bodies_size, records_size,
  length-eocd, length-bodies, length-directory,
}
use led_display_g6_firmware.Transfers.Format.{IsZip}
use led_display_g6_firmware.Transfers.Written.{members, zip-IsZip, collect-Few}
use led_display_g6_firmware.Transfers.Streaming.{MaySend, RemainsIn}
use led_display_g6_firmware.Transfers.Archived.{InRange, possible, Streams, archive_step-Streams}

-- The sums of the source are those of the sizes, which do not overflow.
entries_end-size :
    (offset : ℕ) (es : List ZipEntry)
    → offset + bodies_size es < 2 ^ 32
    → entries_end offset es ≡ offset + bodies_size es
unfolding entries_end
entries_end-size offset [] h = omega arith
entries_end-size offset (e ∷ es) h =
    ap (λ (n : ℕ). entries_end n es) {y = offset + (30 + length e.zip_name + e.file_size + 16)}
      (omega arith)
    ∙ omega (
      arith,
      entries_end-size (offset + (30 + length e.zip_name + e.file_size + 16)) es (omega arith),
    )

directory_size-size :
    (size : ℕ) (es : List ZipEntry)
    → size + records_size es < 2 ^ 32
    → directory_size size es ≡ size + records_size es
unfolding directory_size
directory_size-size size [] h = omega arith
directory_size-size size (e ∷ es) h =
    ap (λ (n : ℕ). directory_size n es) {y = size + (46 + length e.zip_name)} (omega arith)
    ∙ omega (arith, directory_size-size (size + (46 + length e.zip_name)) es (omega arith))

records_smaller : (es : List ZipEntry) → records_size es ≤ bodies_size es
records_smaller [] = omega arith
records_smaller (e ∷ es) = omega (arith, records_smaller es)

place-locate :
    (offset : ℕ) (es : List ZipEntry) (contents : List (List ℕ))
    → Sized es contents
    → offset + bodies_size es < 2 ^ 32
    → place offset es ≡ locate offset es contents
unfolding place
place-locate offset [] contents s h = refl
place-locate offset (e ∷ es) [] s h = absurd (omega arith)
place-locate offset (e ∷ es) (content ∷ contents) s h =
    ap (◌∷◌ (record e { lhf_offset = offset })) (
      ap (λ (n : ℕ). place n es) {y = offset + length (bodies (e ∷ []) (content ∷ []))}
        (omega (arith, one))
      ∙ place-locate (offset + length (bodies (e ∷ []) (content ∷ []))) es contents s.1
          (omega (arith, one)))
  where
    one : length (bodies (e ∷ []) (content ∷ [])) ≡ 30 + length e.zip_name + e.file_size + 16
    one = omega (arith, length-bodies (e ∷ []) (content ∷ []) (s.0, refl))

length-place : (offset : ℕ) (es : List ZipEntry) → length (place offset es) ≡ length es
unfolding place
length-place offset [] = refl
length-place offset (e ∷ es) = ap suc (length-place (offset_after offset e) es)

-- The offset of an entry does not show in its body.
bodies-place :
    (offset : ℕ) (es : List ZipEntry) (contents : List (List ℕ))
    → bodies (place offset es) contents ≡ bodies es contents
unfolding place local_header_bytes descriptor_bytes
bodies-place offset [] contents = refl
bodies-place offset (e ∷ es) [] = refl
bodies-place offset (e ∷ es) (content ∷ contents) =
    ap
      (λ (xs : List ℕ).
        local_header_bytes e
        ++ (content ++ (descriptor_bytes (with_crc e 0xffffffff content) ++ xs)))
      (bodies-place (offset_after offset e) es contents)

Sized-place :
    (offset : ℕ) (es : List ZipEntry) (contents : List (List ℕ))
    → Sized (place offset es) contents
    → Sized es contents
unfolding place
Sized-place offset [] contents h = h
Sized-place offset (e ∷ es) [] h = h
Sized-place offset (e ∷ es) (content ∷ contents) h =
    (h.0, Sized-place (offset_after offset e) es contents h.1)

-- What an archive streams: the front of a ZIP file of the entries, of the size announced.
pub record Zipped (announced : ℕ) (es : List ZipEntry) (out : List ℕ) : Type 0 where
  pub contents : List (List ℕ)
  pub sized : Sized es contents
  pub rest : List ℕ
  pub format : IsZip (out ++ rest) (members es contents)
  pub size : length (out ++ rest) ≡ announced

length-zip :
    (es : List ZipEntry) (contents : List (List ℕ))
    → Sized es contents
    → length (zip es contents) ≡ bodies_size es + records_size es + 22
length-zip es contents s =
    let dir = directory (with_crcs (locate 0 es contents) contents) in
    let end = eocd_bytes (length es) (length dir) (length (bodies es contents)) in
    omega (
      arith,
      length-append (bodies es contents) (dir ++ end),
      length-append dir end,
      length-eocd (length es) (length dir) (length (bodies es contents)),
      length-bodies es contents s,
      length-directory 0 es contents s,
    )

-- The stream of the fields that the command sets up is the ZIP file.
started-zip :
    (es : List ZipEntry) (contents : List (List ℕ))
    → bodies_size es < 2 ^ 32
    → Sized es contents
    → bodies (place 0 es) contents
        ++ (directory (with_crcs (place 0 es) contents)
            ++ eocd_bytes (length (place 0 es)) (directory_size 0 es) (entries_end 0 es))
      ≡ zip es contents
started-zip es contents fits s =
    rw
      (
        bodies-place 0 es contents,
        length-place 0 es,
        place-locate 0 es contents s (omega (arith, fits)),
        directory_end,
        bodies_end,
      )
      refl
  where
    directory_end :
        directory_size 0 es ≡ length (directory (with_crcs (locate 0 es contents) contents))
    directory_end = omega (
      arith,
      directory_size-size 0 es (omega (arith, fits, records_smaller es)),
      length-directory 0 es contents s,
    )

    bodies_end : entries_end 0 es ≡ length (bodies es contents)
    bodies_end =
        omega (arith, entries_end-size 0 es (omega (arith, fits)), length-bodies es contents s)

started-InRange :
    (es : List ZipEntry) (source : Source) (now : ℕ) (ar : Archive)
    → InRange (start_archive es source now ar)
unfolding place
started-InRange [] source now ar = inl refl
started-InRange (e ∷ es) source now ar = inr (omega arith)

started-MaySend :
    (es : List ZipEntry) (source : Source) (now : ℕ) (ar : Archive) (xs : List ℕ)
    → bodies_size es < 2 ^ 32
    → MaySend (start_archive es source now ar) xs
    → (contents : List (List ℕ)) × Sized es contents × (xs ≡ zip es contents)
unfolding entries_end directory_size place
started-MaySend [] source now ar xs fits v = ([], refl, v.remains)
started-MaySend (e ∷ es) source now ar xs fits v =
    let sized = Sized-place 0 (e ∷ es) v.contents remains.1 in
    (v.contents, sized, remains.2 ∙ started-zip (e ∷ es) v.contents fits sized)
  where
    header_first : (start_archive (e ∷ es) source now ar).phase ≡ local_header
    header_first = ground arith

    remains : RemainsIn local_header (start_archive (e ∷ es) source now ar) v.content v.contents xs
    remains =
        subst
          (λ (phase : ArchivePhase).
            RemainsIn phase (start_archive (e ∷ es) source now ar) v.content v.contents xs)
          header_first v.remains

service_archive-Streams :
    (p : ArchivePass) (ar : Archive)
    → ar.active ≡ true
    → InRange ar
    → Streams ar (service_archive p ar)
unfolding service_archive abort_archive
service_archive-Streams p ar on v =
    if_intro (Streams ar) (not ar.active) (λ h. absurd (ground (arith, h)))
      (λ h.
        if_intro (Streams ar) (expired p.now ar.deadline)
          (λ k. record {
            rest = (possible ar v).stream;
            possible_rest = (possible ar v).may;
            in_range = λ a. absurd (ground (arith, a));
            onward = λ a. absurd (ground (arith, a));
          })
          (λ k. archive_step-Streams p ar on v))

service_archive-idle :
    (p : ArchivePass) (ar : Archive) → ar.active ≡ false → service_archive p ar ≡ (ar, [])
unfolding service_archive
service_archive-idle p ar h = ground (arith, h)

idle-archives :
    (ps : List ArchivePass) (ar : Archive) → ar.active ≡ false → archives ps ar ≡ (ar, [])
unfolding archives
idle-archives [] ar h = refl
idle-archives (p ∷ ps) ar h =
    ap (λ (t : Archive × List ℕ). ((archives ps t.0).0, t.1 ++ (archives ps t.0).1))
      (service_archive-idle p ar h)
    ∙ idle-archives ps ar h

-- However far it gets, an archive has sent the front of something it might send.
archives-MaySend :
    (ps : List ArchivePass) (ar : Archive)
    → ar.active ≡ true
    → InRange ar
    → (rest : List ℕ) × MaySend ar ((archives ps ar).1 ++ rest)
unfolding archives
archives-MaySend [] ar on v = ((possible ar v).stream, (possible ar v).may)
archives-MaySend (p ∷ ps) ar on v = elim (Bool-cases (service_archive p ar).0.active) [
  | inl a ↦
      let w = archives-MaySend ps (service_archive p ar).0 a (t.in_range a) in
      (
        w.0,
        subst (MaySend ar)
            (sym
              (append_assoc (service_archive p ar).1 (archives ps (service_archive p ar).0).1 w.0))
            (t.onward a _ w.1),
      )
  | inr a ↦
      (t.rest, subst (λ (xs : List ℕ). MaySend ar (xs ++ t.rest)) (nothing_more a) t.possible_rest)
]
  where
    t : Streams ar (service_archive p ar)
    t = service_archive-Streams p ar on v

    nothing_more :
        (service_archive p ar).0.active ≡ false
        → (service_archive p ar).1
          ≡ (service_archive p ar).1 ++ (archives ps (service_archive p ar).0).1
    nothing_more a = sym (
        ap (λ (u : Archive × List ℕ). (service_archive p ar).1 ++ u.1)
          (idle-archives ps (service_archive p ar).0 a)
        ∙ append-nil (service_archive p ar).1)

-- When the bodies of the files found are below 4 GB together: whatever the card gives for the files
-- afterwards, the links take and the clock shows in the calls that follow, what the archive has sent
-- is the front of a ZIP file in store mode whose members have the names and the sizes of the files
-- found: the end record, the directory, the local headers and the data descriptors have their
-- signatures, checksums, sizes and places where the format wants them. That ZIP file has the size
-- announced.
pub archives-Zipped :
    (card : Files) (names : List Name) (source : Source) (now : ℕ) (ar : Archive)
    (ps : List ArchivePass)
    → bodies_size (collect card names) < 2 ^ 32
    → Zipped
        (handle_get_sd_archive card names source now ar).0
        (collect card names)
        (archives ps (handle_get_sd_archive card names source now ar).1).1
unfolding handle_get_sd_archive
archives-Zipped card names source now ar ps fits = record {
  contents = z.0;
  sized = z.1;
  rest = sent.0;
  format =
      subst (λ (xs : List ℕ). IsZip xs (members es z.0)) (sym z.2)
        (zip-IsZip es z.0 z.1 (collect-Few card names).0 fits
          (omega (arith, fits, records_smaller es)) (omega (arith, (collect-Few card names).1)));
  size = omega (
    arith,
    ap length z.2,
    length-zip es z.0 z.1,
    entries_end-size 0 es (omega (arith, fits)),
    directory_size-size 0 es (omega (arith, fits, records_smaller es)),
  );
}
  where
    es : List ZipEntry
    es = collect card names

    started : Archive
    started = start_archive es source now ar

    sent : (rest : List ℕ) × MaySend started ((archives ps started).1 ++ rest)
    sent = archives-MaySend ps started refl (started-InRange es source now ar)

    z :
        (contents : List (List ℕ)) × Sized es contents
        × ((archives ps started).1 ++ sent.0 ≡ zip es contents)
    z = started-MaySend es source now ar _ fits sent.1
