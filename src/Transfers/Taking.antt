-- ===== src/Transfers/Taking.antt =====
-- A chunk of an upload: what it takes off the link, what it writes and how the upload ends.
use mathlib.Core.List.{append_assoc}
use led_display_g6_firmware.Common.{
  ℕ, ◌+◌, ◌≤◌, ◌≡◌, refl, sym, ap, ◌∙◌, Bool, true, false, List, [], ◌∷◌, ◌++◌, none, some, length,
  min, ◌==◌, arith, length-append, length_zero, if_intro,
}
use led_display_g6_firmware.Transport.Buffered.{pending}
use led_display_g6_firmware.Transport.Link.{Bulk}
use led_display_g6_firmware.Transport.Draining.{Handed}
use led_display_g6_firmware.Transfers.Desk.{
  Upload, writing, draining, Answer, success, failure, Message,
}
use led_display_g6_firmware.Transfers.Download.{chunk_size}
use led_display_g6_firmware.Transfers.Upload.{
  UploadPass, Uploading, read_bulk, take_chunk, receive_chunk, give_up, end_upload, verdict,
}
use led_display_g6_firmware.Transfers.Room.{read_bulk-room, source-Handed}

-- An answer with the error 1.
abbrev pub is_failure : Answer → Bool
is_failure (success payload) = false
is_failure (failure status message) = status == 1

-- The fields agree with the bytes `taken` so far of an upload of `total` bytes.
pub record Fields (total : ℕ) (taken : List ℕ) (ul : Upload) : Type 0 where
  pub counted : length taken + ul.remaining ≡ total
  pub written : ul.phase ≡ writing → ul.file ≡ some taken
  pub removed : ul.phase ≡ draining → ul.file ≡ none
  pub failing : ul.phase ≡ draining → is_failure ul.fail ≡ true

-- The answers sent agree with the fields.
pub record Answered (ul : Upload) (answers : List Answer) : Type 0 where
  pub silent : ul.active ≡ true → answers ≡ []
  pub ended : ul.active ≡ false → answers ≡ verdict ul ∷ []
  pub complete : ul.active ≡ false → ul.phase ≡ writing → ul.remaining ≡ 0

-- Of the bytes of the link, the first ones were taken, and the others still stand there.
pub record Taken (size total : ℕ) (stream : List ℕ) (t : Uploading) : Type 0 where
  pub taken : List ℕ
  pub order : taken ++ (pending t.rx ++ t.link) ≡ stream
  pub fits : t.rx.rx_len ≤ size
  pub fields : Fields total taken t.ul
  pub answered : Answered t.ul t.answers

give_up-Fields :
    (total : ℕ) (taken : List ℕ) (ul : Upload) (m : Message) (now : ℕ)
    → Fields total taken ul
    → Fields total taken (give_up m now ul)
give_up-Fields total taken ul m now v = record {
  counted = v.counted;
  written = λ e. absurd (ground (arith, e));
  removed = λ e. refl;
  failing = λ e. refl;
}

take_chunk-Fields :
    (p : UploadPass) (chunk : List ℕ) (total : ℕ) (taken : List ℕ) (ul : Upload)
    → length chunk ≤ ul.remaining
    → Fields total taken ul
    → Fields total (taken ++ chunk) (take_chunk p chunk ul)
unfolding take_chunk
take_chunk-Fields p chunk total taken ul h v = record {
  counted = ground (arith, length-append taken chunk);
  written = ground arith;
  removed = ground arith;
  failing = ground arith;
}

pub end_upload-Taken :
    (size total : ℕ) (stream : List ℕ) (t : Uploading)
    → Taken size total stream t
    → t.ul.active ≡ true
    → (t.ul.phase ≡ writing → t.ul.remaining ≡ 0)
    → Taken size total stream (end_upload (verdict t.ul) t)
end_upload-Taken size total stream t v a h = record {
  taken = v.taken;
  order = v.order;
  fits = v.fits;
  fields = record {
    counted = v.fields.counted;
    written = v.fields.written;
    removed = v.fields.removed;
    failing = v.fields.failing;
  };
  answered = record {
    silent = λ e. absurd (ground (arith, e));
    ended = λ e. ap (λ (xs : List Answer). xs ++ verdict t.ul ∷ []) (v.answered.silent a);
    complete = λ e. h;
  };
}

take_chunk-active :
    (p : UploadPass) (chunk : List ℕ) (ul : Upload) → (take_chunk p chunk ul).active ≡ ul.active
unfolding take_chunk
take_chunk-active p chunk ul = ground arith

-- A chunk was read from the link.
module _ (size total : ℕ) (stream : List ℕ) (p : UploadPass) (t : Uploading)
    (most : (k : ℕ) → p.read k ≤ k) (v : Taken size total stream t) (a : t.ul.active ≡ true) where
  abbrev bulk : Bulk
  bulk = read_bulk size p t.ul.source t.rx t.link (min t.ul.remaining chunk_size)

  handed : Handed (min t.ul.remaining chunk_size) (pending t.rx ++ t.link) bulk
  handed = source-Handed size p t.ul.source t.rx t.link (min t.ul.remaining chunk_size) most v.fits

  abbrev moved : Uploading
  moved = record t { rx = bulk.rx; link = bulk.link }

  abbrev taken_chunk : Uploading
  taken_chunk = record moved { ul = take_chunk p bulk.chunk t.ul }

  room : bulk.rx.rx_len ≤ size
  room = read_bulk-room size p t.ul.source t.rx t.link (min t.ul.remaining chunk_size) most v.fits

  moved_order : (v.taken ++ bulk.chunk) ++ (pending bulk.rx ++ bulk.link) ≡ stream
  moved_order =
      append_assoc v.taken bulk.chunk (pending bulk.rx ++ bulk.link)
      ∙ ap (λ (xs : List ℕ). v.taken ++ xs) handed.order
      ∙ v.order

  moved-Taken : length bulk.chunk ≡ 0 → Taken size total stream moved
  moved-Taken h = record {
    taken = v.taken;
    order =
        ap (λ (xs : List ℕ). v.taken ++ (xs ++ (pending bulk.rx ++ bulk.link)))
          (sym (length_zero bulk.chunk h))
        ∙ ap (λ (xs : List ℕ). v.taken ++ xs) handed.order
        ∙ v.order;
    fits = room;
    fields = v.fields;
    answered = v.answered;
  }

  taken_chunk-Taken : Taken size total stream taken_chunk
  taken_chunk-Taken = record {
    taken = v.taken ++ bulk.chunk;
    order = moved_order;
    fits = room;
    fields =
        take_chunk-Fields p bulk.chunk total v.taken t.ul (omega (arith, handed.fits)) v.fields;
    answered = record {
      silent = λ e. v.answered.silent a;
      ended = λ e. absurd (ground (arith, e, a, take_chunk-active p bulk.chunk t.ul));
      complete = λ e. absurd (ground (arith, e, a, take_chunk-active p bulk.chunk t.ul));
    };
  }

  pub receive_chunk-Taken : Taken size total stream (receive_chunk size p t)
  unfolding receive_chunk
  receive_chunk-Taken =
      if_intro (Taken size total stream) (length bulk.chunk == 0)
        (λ h. moved-Taken (ground (arith, h)))
        (λ h.
          if_intro (Taken size total stream) (taken_chunk.ul.remaining == 0)
            (λ k.
              end_upload-Taken size total stream taken_chunk taken_chunk-Taken
                (take_chunk-active p bulk.chunk t.ul ∙ a) (λ e. ground (arith, k)))
            (λ k. taken_chunk-Taken))

  pub give_up-Taken :
      (m : Message) → Taken size total stream (record t { ul = give_up m p.after t.ul })
  give_up-Taken m = record {
    taken = v.taken;
    order = v.order;
    fits = v.fits;
    fields = give_up-Fields total v.taken t.ul m p.after v.fields;
    answered = record {
      silent = λ e. v.answered.silent a;
      ended = λ e. absurd (ground (arith, e, a));
      complete = λ e. absurd (ground (arith, e, a));
    };
  }
