-- ===== src/Transfers/Downloading.antt =====
-- What a download sends: a front of the file, and all of it when it ends with nothing remaining.
use mathlib.Core.List.{append_assoc, append-nil}
use led_display_g6_firmware.Common.{
  ℕ, ◌+◌, ◌-◌, ◌≤◌, ◌<◌, ◌≡◌, refl, sym, ap, ◌∙◌, true, false, not, List, [], ◌∷◌, ◌++◌, length,
  subst, take, drop, min, ltb, ◌==◌, arith, length-append, length_zero, length-take,
  take-append-drop, if_intro, Bool-cases, inl, inr,
}
use led_display_g6_firmware.Transport.Tx.{Tick, Sent, expired, deadline_after}
use led_display_g6_firmware.Transport.Sending.{Ordered, send_usb-Ordered, send_tcp-Ordered}
use led_display_g6_firmware.Transfers.Desk.{Source, net, serial, Download, send_raw}
use led_display_g6_firmware.Transfers.Download.{
  DownloadPass, chunk_size, end_download, service_download, downloads,
}

pub send_raw-Ordered :
    (s : Source) (ticks : List Tick) (start : ℕ) (bs : List ℕ)
    → Ordered bs (send_raw s ticks start bs)
unfolding send_raw
send_raw-Ordered net ticks start bs = send_tcp-Ordered ticks (deadline_after start 2000) bs
send_raw-Ordered serial ticks start bs = send_usb-Ordered ticks (deadline_after start 2000) bs

pub send_raw-length :
    (s : Source) (ticks : List Tick) (start : ℕ) (bs : List ℕ)
    → length (send_raw s ticks start bs).sent + length (send_raw s ticks start bs).left ≡ length bs
send_raw-length s ticks start bs =
    sym (length-append (send_raw s ticks start bs).sent (send_raw s ticks start bs).left)
    ∙ ap length (send_raw-Ordered s ticks start bs)

-- `t` is what became of `d` and what went out meanwhile, of which `rest` of the file is what did
-- not.
pub record Downloaded (d : Download) (t : Download × List ℕ) : Type 0 where
  pub rest : List ℕ
  pub front : t.1 ++ rest ≡ d.file
  pub counted : length t.1 + t.0.remaining ≡ d.remaining
  pub unread : t.0.active ≡ true → rest ≡ t.0.file
  pub same : t.0.active ≡ true → d.active ≡ true

unsent : (d : Download) → Downloaded d (end_download d, [])
unfolding end_download
unsent d = record {
  rest = d.file;
  front = refl;
  counted = omega arith;
  unread = λ e. absurd (ground (arith, e));
  same = λ e. absurd (ground (arith, e));
}

untouched : (d : Download) → Downloaded d (d, [])
untouched d = record {
  rest = d.file;
  front = refl;
  counted = omega arith;
  unread = λ e. refl;
  same = λ e. e;
}

-- A chunk of the file is read, and a front of it goes out.
module _ (d : Download) (s : Sent) (n : ℕ) (order : Ordered (take n d.file) s) where
  abbrev sent_rest : List ℕ
  sent_rest = s.left ++ drop n d.file

  sent_front : s.sent ++ sent_rest ≡ d.file
  sent_front =
      sym (append_assoc s.sent s.left (drop n d.file))
      ∙ ap (λ (xs : List ℕ). xs ++ drop n d.file) order
      ∙ take-append-drop n d.file

  sent_counted : n ≤ d.remaining → length s.sent + (d.remaining - length s.sent) ≡ d.remaining
  sent_counted h = omega (arith, length-append s.sent s.left, ap length order, length-take n d.file)

  sent_all : ltb (length s.sent) (length (take n d.file)) ≡ false → sent_rest ≡ drop n d.file
  sent_all h =
      ap (λ (xs : List ℕ). xs ++ drop n d.file)
        (length_zero s.left (ground (arith, h, length-append s.sent s.left, ap length order)))

service_download-Downloaded :
    (p : DownloadPass) (d : Download) → Downloaded d (service_download p d)
unfolding service_download end_download
service_download-Downloaded p d =
    if_intro P (not d.active) (λ a. untouched d)
      (λ a.
        if_intro P (expired p.now d.deadline) (λ b. unsent d)
          (λ b.
            if_intro P (d.remaining == 0) (λ c. unsent d)
              (λ c.
                if_intro P (length chunk == 0) (λ e. unsent d)
                  (λ e.
                    if_intro P (ltb (length s.sent) (length chunk))
                      (λ f. record {
                        rest = sent_rest d s n order;
                        front = sent_front d s n order;
                        counted = sent_counted d s n order (omega arith);
                        unread = λ g. absurd (ground (arith, g));
                        same = λ g. absurd (ground (arith, g));
                      })
                      (λ f.
                        if_intro P (d.remaining - length s.sent == 0)
                          (λ k. record {
                            rest = sent_rest d s n order;
                            front = sent_front d s n order;
                            counted = sent_counted d s n order (omega arith);
                            unread = λ g. absurd (ground (arith, g));
                            same = λ g. absurd (ground (arith, g));
                          })
                          (λ k. record {
                            rest = sent_rest d s n order;
                            front = sent_front d s n order;
                            counted = sent_counted d s n order (omega arith);
                            unread = λ g. sent_all d s n order f;
                            same = λ g. g;
                          }))))))
  where
    P : Download × List ℕ → Type 0
    P = Downloaded d

    n : ℕ
    n = min p.got (min d.remaining chunk_size)

    chunk : List ℕ
    chunk = take n d.file

    s : Sent
    s = send_raw d.source p.ticks p.start chunk

    order : Ordered chunk s
    order = send_raw-Ordered d.source p.ticks p.start chunk

service_download-idle :
    (p : DownloadPass) (d : Download) → d.active ≡ false → service_download p d ≡ (d, [])
unfolding service_download
service_download-idle p d h = ground (arith, h)

idle-downloads :
    (ps : List DownloadPass) (d : Download) → d.active ≡ false → downloads ps d ≡ (d, [])
unfolding downloads
idle-downloads [] d h = refl
idle-downloads (p ∷ ps) d h =
    ap (λ (t : Download × List ℕ). ((downloads ps t.0).0, t.1 ++ (downloads ps t.0).1))
      (service_download-idle p d h)
    ∙ idle-downloads ps d h

later-Downloaded :
    (d : Download) (t u : Download × List ℕ)
    → (t.0.active ≡ false → u ≡ (t.0, []))
    → Downloaded d t
    → Downloaded t.0 u
    → Downloaded d (u.0, t.1 ++ u.1)
later-Downloaded d t u idle v w = elim (Bool-cases t.0.active) [
  | inl e ↦ record {
    rest = w.rest;
    front =
        append_assoc t.1 u.1 w.rest
        ∙ ap (λ (xs : List ℕ). t.1 ++ xs) (w.front ∙ sym (v.unread e))
        ∙ v.front;
    counted = omega (arith, length-append t.1 u.1, v.counted, w.counted);
    unread = w.unread;
    same = λ g. v.same e;
  }
  | inr e ↦
      subst (λ (x : Download × List ℕ). Downloaded d (x.0, t.1 ++ x.1)) (sym (idle e))
        (subst (λ (xs : List ℕ). Downloaded d (t.0, xs)) (sym (append-nil t.1)) v)
]

downloads-Downloaded : (ps : List DownloadPass) (d : Download) → Downloaded d (downloads ps d)
unfolding downloads
downloads-Downloaded [] d = untouched d
downloads-Downloaded (p ∷ ps) d =
    later-Downloaded d (service_download p d) (downloads ps (service_download p d).0)
      (idle-downloads ps (service_download p d).0) (service_download-Downloaded p d)
      (downloads-Downloaded ps (service_download p d).0)

-- A call that leaves the download under way has sent something.
service_download-progress :
    (p : DownloadPass) (d : Download)
    → (service_download p d).0.active ≡ true
    → (service_download p d).0.remaining < d.remaining
unfolding service_download end_download
service_download-progress p d h = ground (arith, h)

downloads-finish :
    (ps : List DownloadPass) (d : Download)
    → d.remaining < length ps
    → (downloads ps d).0.active ≡ false
unfolding downloads
downloads-finish [] d h = absurd (omega arith)
downloads-finish (p ∷ ps) d h = elim (Bool-cases (service_download p d).0.active) [
  | inl e ↦
      downloads-finish ps (service_download p d).0 (omega (arith, service_download-progress p d e))
  | inr e ↦
      ap (λ (t : Download × List ℕ). t.0.active) (idle-downloads ps (service_download p d).0 e) ∙ e
]

-- What becomes of a download of a file.
pub record Delivered (d : Download) (rounds : ℕ) (t : Download × List ℕ) : Type 0 where
  pub rest : List ℕ
  pub front : t.1 ++ rest ≡ d.file
  pub counted : length t.1 + t.0.remaining ≡ d.remaining
  pub whole : length d.file ≡ d.remaining → t.0.remaining ≡ 0 → t.1 ≡ d.file
  pub ended : d.remaining < rounds → t.0.active ≡ false

-- Whatever the card, the link and the clock do in the rounds of the loop, a download sends a front
-- of its file in order, and what it has still to send is the announced size less what went out. It
-- has sent exactly the file when the announced size is the file's and nothing remains, and it has
-- ended after more rounds than there were bytes to send.
pub downloads-Delivered :
    (ps : List DownloadPass) (d : Download) → Delivered d (length ps) (downloads ps d)
downloads-Delivered ps d = record {
  rest = v.rest;
  front = v.front;
  counted = v.counted;
  whole = λ h e.
      sym (append-nil (downloads ps d).1)
      ∙ ap (λ (xs : List ℕ). (downloads ps d).1 ++ xs) (sym (none_left h e))
      ∙ v.front;
  ended = downloads-finish ps d;
}
  where
    v : Downloaded d (downloads ps d)
    v = downloads-Downloaded ps d

    none_left : length d.file ≡ d.remaining → (downloads ps d).0.remaining ≡ 0 → v.rest ≡ []
    none_left h e =
        length_zero v.rest
          (omega (arith, length-append (downloads ps d).1 v.rest, ap length v.front, v.counted))
