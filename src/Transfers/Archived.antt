-- ===== src/Transfers/Archived.antt =====
-- The archive that serviceArchive streams is a ZIP file of the announced size.
use mathlib.Core.List.{append_assoc, append-nil}
use led_display_g6_firmware.Common.{
  ℕ, zero, suc, ◌+◌, ◌≤◌, ◌<◌, ◌≡◌, refl, sym, ap, ◌∙◌, subst, true, false, List, [], ◌∷◌, ◌++◌,
  length, drop, replicate, length-set, min, ltb, leb, ◌==◌, arith, length-append, length-replicate,
  length_zero, if_intro, ◌⊎◌, Option-cases, length-take, inl, inr,
}
use led_display_g6_firmware.Panel.Crc.{crc32_update}
use led_display_g6_firmware.Transport.Tx.{Sent}
use led_display_g6_firmware.Transfers.Desk.{send_raw}
use led_display_g6_firmware.Transfers.Downloading.{send_raw-Ordered}
use led_display_g6_firmware.Transfers.Archive.{
  ZipEntry, Archive, ArchivePhase, local_header, file_data, data_descriptor, central_dir, eocd,
  local_header_bytes, descriptor_bytes, central_dir_bytes, eocd_bytes, entry, ArchivePass,
  send_piece, later, abort_archive, archive_step, data_chunk, data_file,
}
use led_display_g6_firmware.Transfers.Zip.{Sized}
use led_display_g6_firmware.Transfers.Streaming.{
  end_record, MaySend, may_send, noted, opened, closed, read, next_entry, directory_next,
  next_record, send-local_header, send-closed, send-chunk, send-descriptor, send-last_descriptor,
  send-central_dir, send-last_central_dir,
}

-- The index of an archive under way stands for an entry, unless only the end record is left.
abbrev pub InRange : Archive → Type 0
InRange ar = (ar.phase ≡ eocd) ⊎ (ar.entry_idx < length ar.entries)

-- Zeros of the sizes of the entries.
abbrev pub zeros : List ZipEntry → List (List ℕ)
zeros [] = []
zeros (e ∷ es) = replicate e.file_size 0 ∷ zeros es

zeros-Sized : (es : List ZipEntry) → Sized es (zeros es)
zeros-Sized [] = refl
zeros-Sized (e ∷ es) = (length-replicate e.file_size 0, zeros-Sized es)

pub record Possible (ar : Archive) : Type 0 where
  pub stream : List ℕ
  pub may : MaySend ar stream

Possible-in :
    (ar : Archive) (phase : ArchivePhase)
    → ar.phase ≡ phase
    → ar.entry_idx < length ar.entries
    → Possible ar
Possible-in ar local_header h k = record {
  stream = _;
  may =
      may_send ar local_header [] (zeros (drop ar.entry_idx ar.entries)) _ h
        (k, zeros-Sized (drop ar.entry_idx ar.entries), refl);
}
Possible-in ar file_data h k = record {
  stream = _;
  may =
      may_send ar file_data (replicate ar.file_remaining 0)
        (zeros (drop (suc ar.entry_idx) ar.entries)) _ h
        (
          k,
          zeros-Sized (drop (suc ar.entry_idx) ar.entries),
          length-replicate ar.file_remaining 0,
          refl,
        );
}
Possible-in ar data_descriptor h k = record {
  stream = _;
  may =
      may_send ar data_descriptor [] (zeros (drop (suc ar.entry_idx) ar.entries)) _ h
        (k, zeros-Sized (drop (suc ar.entry_idx) ar.entries), refl);
}
Possible-in ar central_dir h k = record {
  stream = _;
  may = may_send ar central_dir [] [] _ h (k, refl);
}
Possible-in ar eocd h k = record { stream = _; may = may_send ar eocd [] [] _ h refl }

pub possible : (ar : Archive) → InRange ar → Possible ar
possible ar (inl h) = record { stream = _; may = may_send ar eocd [] [] _ h refl }
possible ar (inr k) = Possible-in ar ar.phase refl k

-- What a call did: the archive afterwards and the bytes that went out.
pub record Streams (ar : Archive) (t : Archive × List ℕ) : Type 0 where
  pub rest : List ℕ
  pub possible_rest : MaySend ar (t.1 ++ rest)
  pub in_range : t.0.active ≡ true → InRange t.0
  pub onward : t.0.active ≡ true → (xs : List ℕ) → MaySend t.0 xs → MaySend ar (t.1 ++ xs)

-- A piece was sent, of which nothing is left when the archive goes on.
send_piece-Streams :
    (p : ArchivePass) (ar base next : Archive) (piece tail : List ℕ)
    → MaySend ar (piece ++ tail)
    → InRange next
    → ((xs : List ℕ) → next.active ≡ true → MaySend next xs → MaySend ar (piece ++ xs))
    → Streams ar (send_piece p base piece next)
unfolding abort_archive
send_piece-Streams p ar base next piece tail may range on =
    if_intro (Streams ar) (ltb (length s.sent) (length piece))
      (λ h. record {
        rest = s.left ++ tail;
        possible_rest = unsent;
        in_range = λ a. absurd (ground (arith, a));
        onward = λ a. absurd (ground (arith, a));
      })
      (λ h. record {
        rest = s.left ++ tail;
        possible_rest = unsent;
        in_range = λ a. range;
        onward = λ a xs v. subst (λ (ys : List ℕ). MaySend ar (ys ++ xs)) (sent_all h) (on xs a v);
      })
  where
    s : Sent
    s = send_raw base.source p.ticks p.start piece

    order : s.sent ++ s.left ≡ piece
    order = send_raw-Ordered base.source p.ticks p.start piece

    unsent : MaySend ar (s.sent ++ (s.left ++ tail))
    unsent =
        subst (MaySend ar)
          (ap (λ (ys : List ℕ). ys ++ tail) (sym order) ∙ append_assoc s.sent s.left tail) may

    sent_all : ltb (length s.sent) (length piece) ≡ false → piece ≡ s.sent
    sent_all h =
        sym order
        ∙ ap (λ (ys : List ℕ). s.sent ++ ys)
            (length_zero s.left (ground (arith, h, length-append s.sent s.left, ap length order)))
        ∙ append-nil s.sent

-- The same when the archive goes on for sure.
piece-Streams :
    (p : ArchivePass) (ar base next : Archive) (piece : List ℕ)
    → InRange next
    → ((xs : List ℕ) → MaySend next xs → MaySend ar (piece ++ xs))
    → Streams ar (send_piece p base piece next)
piece-Streams p ar base next piece range on =
    send_piece-Streams p ar base next piece (possible next range).stream
      (on (possible next range).stream (possible next range).may) range (λ xs a v. on xs v)

phase_intro :
    (P : Archive × List ℕ → Type 0) (x : ArchivePhase) {a b c d e : Archive × List ℕ}
    → (x ≡ local_header → P a)
    → (x ≡ file_data → P b)
    → (x ≡ data_descriptor → P c)
    → (x ≡ central_dir → P d)
    → (x ≡ eocd → P e)
    → P (elim x [
      | local_header ↦ a
      | file_data ↦ b
      | data_descriptor ↦ c
      | central_dir ↦ d
      | eocd ↦ e
    ])
phase_intro P local_header f1 f2 f3 f4 f5 = f1 refl
phase_intro P file_data f1 f2 f3 f4 f5 = f2 refl
phase_intro P data_descriptor f1 f2 f3 f4 f5 = f3 refl
phase_intro P central_dir f1 f2 f3 f4 f5 = f4 refl
phase_intro P eocd f1 f2 f3 f4 f5 = f5 refl

data_chunk-fits : (p : ArchivePass) (ar : Archive) → length (data_chunk p ar) ≤ ar.file_remaining
data_chunk-fits p ar = elim (Option-cases ar.file) [
  | inl e ↦ ground (arith, e, length-replicate {A = ℕ} (min ar.file_remaining 4096) 0)
  | inr (content, e) ↦ ground (
    arith,
    e,
    length-replicate {A = ℕ} (min ar.file_remaining 4096) 0,
    length-take (min p.got (min ar.file_remaining 4096)) content,
  )
]

entry_left :
    (ar : Archive) (phase : ArchivePhase)
    → ar.phase ≡ phase
    → (phase ≡ eocd → zero ≡ suc zero)
    → InRange ar
    → ar.entry_idx < length ar.entries
entry_left ar phase h other (inl e) = absurd (omega (arith, other (sym h ∙ e)))
entry_left ar phase h other (inr k) = k

pub archive_step-Streams :
    (p : ArchivePass) (ar : Archive)
    → ar.active ≡ true
    → InRange ar
    → Streams ar (archive_step p ar)
unfolding archive_step
archive_step-Streams p ar on v =
    phase_intro (Streams ar) ar.phase
      (λ h.
        let k = entry_left ar local_header h (λ g. absurd (ground (arith, g))) v in
        piece-Streams p ar ar (later p (opened p ar [] k)) (local_header_bytes (entry ar)) (inr k)
          (λ xs w. send-local_header p ar xs k h w))
      (λ h.
        let k = entry_left ar file_data h (λ g. absurd (ground (arith, g))) v in
        if_intro (Streams ar) (ar.file_remaining == 0)
          (λ z.
            let range : InRange (closed p ar [] k) =
              inr (omega (arith, length-set ar.entries ar.entry_idx (noted ar))) in
            record {
              rest = (possible (closed p ar [] k) range).stream;
              possible_rest =
                  send-closed p ar _ k h (ground (arith, z))
                    (possible (closed p ar [] k) range).may;
              in_range = λ a. range;
              onward = λ a xs w. send-closed p ar xs k h (ground (arith, z)) w;
            })
          (λ z.
            piece-Streams p ar
              (record ar { crc = crc32_update ar.crc (data_chunk p ar); file = data_file p ar })
              (later p (read p ar [] k)) (data_chunk p ar) (inr k)
              (λ xs w. send-chunk p ar xs k h (data_chunk-fits p ar) w)))
      (λ h.
        let k = entry_left ar data_descriptor h (λ g. absurd (ground (arith, g))) v in
        if_intro
          (λ (next : Archive).
            Streams ar (send_piece p ar (descriptor_bytes (entry ar)) (later p next)))
          (ltb (ar.entry_idx + 1) (length ar.entries))
          (λ l.
            piece-Streams p ar ar (later p (next_entry p ar [] k)) (descriptor_bytes (entry ar))
              (inr (ground (arith, l))) (λ xs w. send-descriptor p ar xs k h w))
          (λ l.
            piece-Streams p ar ar (later p (directory_next p ar [] k)) (descriptor_bytes (entry ar))
              (inr (omega arith)) (λ xs w. send-last_descriptor p ar xs k h (ground (arith, l)) w)))
      (λ h.
        let k = entry_left ar central_dir h (λ g. absurd (ground (arith, g))) v in
        if_intro
          (λ (phase : ArchivePhase). Streams ar (
            send_piece p ar (central_dir_bytes (entry ar)) (later p (next_record p ar [] k phase))))
          (leb (length ar.entries) (ar.entry_idx + 1))
          (λ l.
            piece-Streams p ar ar (later p (next_record p ar [] k eocd))
              (central_dir_bytes (entry ar)) (inl refl)
              (λ xs w. send-last_central_dir p ar xs k h (ground (arith, l)) w))
          (λ l.
            piece-Streams p ar ar (later p (next_record p ar [] k central_dir))
              (central_dir_bytes (entry ar)) (inr (ground (arith, l)))
              (λ xs w. send-central_dir p ar xs k h w)))
      (λ h.
        send_piece-Streams p ar ar (record ar { active = false })
          (eocd_bytes (length ar.entries) ar.cd_size ar.cd_offset) []
          (may_send ar eocd [] [] _ h (append-nil (end_record ar))) (inl h)
          (λ xs a w. absurd (ground (arith, a))))
