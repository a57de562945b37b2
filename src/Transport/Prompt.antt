-- ===== src/Transport/Prompt.antt =====
-- A command that has arrived whole is handed over by the next service.
use led_display_g6_firmware.Common.{
  ℕ, ◌+◌, ◌≤◌, ◌<◌, ◌-◌, ◌≡◌, refl, ap, ◌∙◌, true, false, List, ◌++◌, length, drop, min, arith,
  length-append, length-take,
}
use led_display_g6_firmware.Transport.Rx.{Rx, parse_incoming}
use led_display_g6_firmware.Transport.Wire.{
  Wire, binary, stream, pattern_file, firmware_file, filename, encode, Fits, meaning,
}
use led_display_g6_firmware.Transport.Buffered.{pending, pending_len}
use led_display_g6_firmware.Transport.Parsing.{Delivered, parse_incoming-Delivered}
use led_display_g6_firmware.Transport.Link.{top_up, service_usb}
use led_display_g6_firmware.Transport.Filling.{Filled, top_up-Filled}
use led_display_g6_firmware.Transport.Session.{cut_longer, service_parses}

-- Reads that hand over all they are asked for fill the buffer.
top_up_full :
    (size : ℕ) (r : Rx) (link : List ℕ)
    → r.rx_len ≤ size
    → (top_up size (λ n. n) r link).0.rx_len ≡ min size (r.rx_len + length link)
unfolding top_up
top_up_full size r link h = ground (arith, length-take (min (length link) (size - r.rx_len)) link)

encode_short :
    (size : ℕ) (w : Wire)
    → 67 ≤ size
    → Fits size w
    → (0 < length (encode w)) × (length (encode w) ≤ size)
encode_short size (binary c params) h fit = (omega arith, omega arith)
encode_short size (stream body) h fit = (omega arith, omega arith)
encode_short size (pattern_file i n) h fit = (omega arith, omega arith)
encode_short size (firmware_file n) h fit = (omega arith, omega arith)
encode_short size (filename i name) h fit = (omega arith, omega (arith, fit.1))

-- Once the bytes of a command that fits are there, one service hands it over, when the receive
-- buffer has 67 bytes or more, reads hand over all they are asked for and no older command waits
-- to be handled. What follows it is kept.
pub service_usb-Delivered :
    (size : ℕ) (r : Rx) (link : List ℕ) (w : Wire) (rest : List ℕ)
    → 67 ≤ size
    → size < 65536
    → Fits size w
    → r.cmd_ready ≡ false
    → r.rx_len ≤ size
    → pending r ++ link ≡ encode w ++ rest
    → let t = service_usb size (λ n. n) r link in
      (t.0.cmd_ready ≡ true) × (t.0.parsed_cmd ≡ meaning w) × (pending t.0 ++ t.1 ≡ rest)
service_usb-Delivered size r link w rest big small fit off h e =
    let done : Delivered (meaning w) (drop (length (encode w)) (pending t.0))
        (parse_incoming size t.0) =
      parse_incoming-Delivered size t.0 w _ small fit cut.0 in
    rw (service_parses size (λ n. n) r link off (omega (arith, long, short.0)))
      (done.ready, done.parsed, ap (λ (xs : List ℕ). xs ++ t.1) done.left ∙ cut.1)
  where
    t : Rx × List ℕ
    t = top_up size (λ n. n) r link

    f : Filled size r link t
    f = top_up-Filled size (λ n. n) r link (λ n. omega arith) h

    short : (0 < length (encode w)) × (length (encode w) ≤ size)
    short = encode_short size w big fit

    long : length (encode w) ≤ t.0.rx_len
    long = omega (
      arith,
      top_up_full size r link h,
      pending_len r _ refl,
      ap length e,
      length-append (pending r) link,
      length-append (encode w) rest,
      short.1,
    )

    cut :
        (pending t.0 ≡ encode w ++ drop (length (encode w)) (pending t.0))
        × (drop (length (encode w)) (pending t.0) ++ t.1 ≡ rest)
    cut =
        cut_longer (pending t.0) t.1 (encode w) rest (f.kept ∙ e)
          (omega (arith, pending_len t.0 _ refl, long))
