-- ===== src/Transport/Draining.antt =====
-- readBulkBytes hands out the bytes of an upload in the order of the link, by either manager.
use mathlib.Core.List.{append_assoc}
use led_display_g6_firmware.Common.{
  ℕ, ◌≤◌, ◌≡◌, refl, sym, ap, subst, ◌∙◌, Bool, false, not, List, [], ◌++◌, length, drop, take, min,
  ltb, arith, length-take, take-append-drop, if_intro,
}
use led_display_g6_firmware.Common.Bytes.{bytes_at, length-bytes_at}
use led_display_g6_firmware.Transport.Rx.{Rx, consume}
use led_display_g6_firmware.Transport.Buffered.{pending, pending_len, copied_front, consume_rest}
use led_display_g6_firmware.Transport.Link.{Bulk, drain, top_up, read_bulk_usb, read_bulk_tcp}
use led_display_g6_firmware.Transport.Filling.{top_up-Filled}

-- The bytes handed out, before those in the buffer, before those on the link.
pub record Handed (max_len : ℕ) (before : List ℕ) (b : Bulk) : Type 0 where
  pub order : b.chunk ++ (pending b.rx ++ b.link) ≡ before
  pub fits : length b.chunk ≤ max_len

drain-Handed :
    (r : Rx) (link : List ℕ) (max_len : ℕ)
    → Handed max_len (pending r ++ link) (drain r link max_len)
unfolding drain
drain-Handed r link max_len = record {
  order =
      ap (λ (xs : List ℕ). bytes_at r.rx_buf 0 n ++ (xs ++ link)) left
      ∙ sym (append_assoc (bytes_at r.rx_buf 0 n) (drop n (pending r)) link)
      ∙ ap (λ (xs : List ℕ). xs ++ link)
          (ap (λ (xs : List ℕ). xs ++ drop n (pending r)) front ∙ take-append-drop n (pending r));
  fits = omega (arith, length-bytes_at r.rx_buf 0 n);
}
  where
    n : ℕ
    n = min r.rx_len max_len

    size : length (take n (pending r)) ≡ n
    size = omega (arith, length-take n (pending r), pending_len r _ refl)

    front : bytes_at r.rx_buf 0 n ≡ take n (pending r)
    front =
        ap (bytes_at r.rx_buf 0) (sym size)
        ∙ copied_front r (take n (pending r)) (drop n (pending r))
            (sym (take-append-drop n (pending r)))

    left : pending (consume r n) ≡ drop n (pending r)
    left =
        ap (λ (k : ℕ). pending (consume r k)) (sym size)
        ∙ consume_rest r (take n (pending r)) (drop n (pending r))
            (sym (take-append-drop n (pending r)))

usb-Handed :
    (size : ℕ) (read : ℕ → ℕ) (r : Rx) (link : List ℕ) (max_len : ℕ)
    → ((n : ℕ) → read n ≤ n)
    → r.rx_len ≤ size
    → Handed max_len (pending r ++ link) (read_bulk_usb size read r link max_len)
unfolding read_bulk_usb
usb-Handed size read r link max_len most h =
    subst (λ (xs : List ℕ). Handed max_len xs (read_bulk_usb size read r link max_len))
      (top_up-Filled size read r link most h).kept
      (drain-Handed (top_up size read r link).0 (top_up size read r link).1 max_len)

empty_buffer : (r : Rx) (link : List ℕ) → ltb 0 r.rx_len ≡ false → pending r ++ link ≡ link
empty_buffer r link h = ap (λ (n : ℕ). bytes_at r.rx_buf 0 n ++ link) {y = 0} (ground (arith, h))

tcp-Handed :
    (read : ℕ → ℕ) (connected : Bool) (r : Rx) (link : List ℕ) (max_len : ℕ)
    → ((n : ℕ) → read n ≤ n)
    → Handed max_len (pending r ++ link) (read_bulk_tcp read connected r link max_len)
unfolding read_bulk_tcp
tcp-Handed read connected r link max_len most =
    if_intro P (ltb 0 r.rx_len) (λ p. drain-Handed r link max_len)
      (λ p.
        if_intro P (not connected) (λ q. nothing)
          (λ q.
            if_intro P (ltb 0 (length link))
              (λ k. record {
                order =
                    ap (λ (xs : List ℕ). take n link ++ xs) (empty_buffer r (drop n link) p)
                    ∙ take-append-drop n link
                    ∙ sym (empty_buffer r link p);
                fits = omega (arith, length-take n link, most (min (length link) max_len));
              })
              (λ k. nothing)))
  where
    n : ℕ
    n = read (min (length link) max_len)

    P : Bulk → Type 0
    P = Handed max_len (pending r ++ link)

    nothing : P (record { chunk = []; rx = r; link = link })
    nothing = record { order = refl; fits = omega arith }

-- Whatever the reads hand over, the bytes that either manager hands out are the next ones of the
-- link, at most as many as asked for, and no byte behind them is lost.
pub read_bulk-Handed :
    (size : ℕ) (read : ℕ → ℕ) (connected : Bool) (r : Rx) (link : List ℕ) (max_len : ℕ)
    → ((n : ℕ) → read n ≤ n)
    → r.rx_len ≤ size
    → Handed max_len (pending r ++ link) (read_bulk_usb size read r link max_len)
      × Handed max_len (pending r ++ link) (read_bulk_tcp read connected r link max_len)
read_bulk-Handed size read connected r link max_len most h =
    (usb-Handed size read r link max_len most h, tcp-Handed read connected r link max_len most)
