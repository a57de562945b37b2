-- ===== src/Transfers/Uploaded.antt =====
-- What an upload takes off its link and what becomes of the file.
use mathlib.Core.List.{append_assoc, append-nil}
use led_display_g6_firmware.Common.{
  ℕ, ◌≤◌, ◌≡◌, refl, sym, ap, ◌∙◌, subst, true, not, List, [], ◌∷◌, ◌++◌, some, arith, if_intro,
}
use led_display_g6_firmware.Transport.Buffered.{pending}
use led_display_g6_firmware.Transport.Tx.{expired}
use led_display_g6_firmware.Transfers.Desk.{
  Upload, UploadPhase, writing, draining, Answer, upload_timeout,
}
use led_display_g6_firmware.Transfers.Upload.{
  UploadPass, Uploading, service_upload, uploads, end_upload, verdict,
}
use led_display_g6_firmware.Transfers.Taking.{
  Taken, end_upload-Taken, give_up-Taken, receive_chunk-Taken,
}

phase_intro :
    (P : Uploading → Type 0) (x : UploadPhase) {a b : Uploading}
    → (x ≡ writing → P a)
    → (x ≡ draining → P b)
    → P (elim x [ writing ↦ a | draining ↦ b ])
phase_intro P writing f g = f refl
phase_intro P draining f g = g refl

verdict-failed : (ul : Upload) → ul.phase ≡ draining → verdict ul ≡ ul.fail
verdict-failed ul e = ground (arith, e)

service_upload-Taken :
    (size total : ℕ) (stream : List ℕ) (p : UploadPass) (t : Uploading)
    → ((k : ℕ) → p.read k ≤ k)
    → Taken size total stream t
    → Taken size total stream (service_upload size p t)
unfolding service_upload
service_upload-Taken size total stream p t most v =
    if_intro P (not t.ul.active) (λ a. v)
      (λ a.
        let on : t.ul.active ≡ true = ground (arith, a) in
        phase_intro P t.ul.phase
          (λ e.
            if_intro P (expired p.now t.ul.deadline)
              (λ x. give_up-Taken size total stream p t most v on upload_timeout)
              (λ x. receive_chunk-Taken size total stream p t most v on))
          (λ e.
            if_intro P (expired p.now t.ul.drain_deadline)
              (λ x.
                subst (λ (w : Answer). P (end_upload w t)) (verdict-failed t.ul e)
                  (end_upload-Taken size total stream t v on (λ g. absurd (ground (arith, e, g)))))
              (λ x. receive_chunk-Taken size total stream p t most v on)))
  where
    P : Uploading → Type 0
    P = Taken size total stream

-- What arrives joins the end of the link.
abbrev pub arrivals : List (List ℕ × UploadPass) → List ℕ
arrivals [] = []
arrivals (p ∷ ps) = p.0 ++ arrivals ps

abbrev pub Honest : List (List ℕ × UploadPass) → Type 0
Honest [] = true ≡ true
Honest (p ∷ ps) = ((k : ℕ) → p.1.read k ≤ k) × Honest ps

arrived-Taken :
    (size total : ℕ) (stream bs : List ℕ) (t : Uploading)
    → Taken size total stream t
    → Taken size total (stream ++ bs) (record t { link = t.link ++ bs })
arrived-Taken size total stream bs t v = record {
  taken = v.taken;
  order =
      ap (λ (xs : List ℕ). v.taken ++ xs) (sym (append_assoc (pending t.rx) t.link bs))
      ∙ sym (append_assoc v.taken (pending t.rx ++ t.link) bs)
      ∙ ap (λ (xs : List ℕ). xs ++ bs) v.order;
  fits = v.fits;
  fields = v.fields;
  answered = v.answered;
}

uploads-Taken :
    (size total : ℕ) (ps : List (List ℕ × UploadPass)) (stream : List ℕ) (t : Uploading)
    → Honest ps
    → Taken size total stream t
    → Taken size total (stream ++ arrivals ps) (uploads size ps t)
unfolding uploads
uploads-Taken size total [] stream t most v =
    subst (λ (xs : List ℕ). Taken size total xs t) (sym (append-nil stream)) v
uploads-Taken size total (p ∷ ps) stream t most v =
    subst
      (λ (xs : List ℕ).
        Taken size total xs
          (uploads size ps (service_upload size p.1 (record t { link = t.link ++ p.0 }))))
      (append_assoc stream p.0 (arrivals ps))
      (uploads-Taken size total ps (stream ++ p.0)
        (service_upload size p.1 (record t { link = t.link ++ p.0 })) most.1
        (service_upload-Taken size total (stream ++ p.0) p.1 (record t { link = t.link ++ p.0 })
          most.0 (arrived-Taken size total stream p.0 t v)))

-- An upload of `total` bytes that has just been accepted.
pub record Accepted (total : ℕ) (t : Uploading) : Type 0 where
  pub active : t.ul.active ≡ true
  pub phase : t.ul.phase ≡ writing
  pub remaining : t.ul.remaining ≡ total
  pub file : t.ul.file ≡ some []
  pub answers : t.answers ≡ []

Accepted-Taken :
    (size total : ℕ) (t : Uploading)
    → t.rx.rx_len ≤ size
    → Accepted total t
    → Taken size total (pending t.rx ++ t.link) t
Accepted-Taken size total t h v = record {
  taken = [];
  order = refl;
  fits = h;
  fields = record {
    counted = omega (arith, v.remaining);
    written = λ e. v.file;
    removed = λ e. absurd (ground (arith, e, v.phase));
    failing = λ e. absurd (ground (arith, e, v.phase));
  };
  answered = record {
    silent = λ e. v.answers;
    ended = λ e. absurd (ground (arith, e, v.active));
    complete = λ e. absurd (ground (arith, e, v.active));
  };
}

-- However the bytes of an accepted upload arrive, whatever the reads hand over (at most what they
-- are asked for), the card writes and the clock shows: the bytes taken off the link are its next
-- ones in order, never more than announced, and all others stay on the link. The file holds exactly
-- the bytes taken, unless the upload failed, when it is gone. While the upload is under way nothing
-- is answered. When it has ended there is one answer: success if all bytes announced were
-- taken and written, and an error otherwise.
pub uploads-Accepted :
    (size total : ℕ) (ps : List (List ℕ × UploadPass)) (t : Uploading)
    → t.rx.rx_len ≤ size
    → Honest ps
    → Accepted total t
    → Taken size total ((pending t.rx ++ t.link) ++ arrivals ps) (uploads size ps t)
uploads-Accepted size total ps t h most v =
    uploads-Taken size total ps (pending t.rx ++ t.link) t most (Accepted-Taken size total t h v)
