-- ===== src/Transport/Waiting.antt =====
-- parseIncoming leaves the start of a command in the buffer until the rest has come.
use led_display_g6_firmware.Common.{
  ℕ, zero, suc, ◌+◌, ◌<◌, ◌≡◌, refl, ap, ◌∙◌, List, [], ◌∷◌, ◌++◌, ltb, length, get_or, arith,
  length-append, Bool-cases, inl, inr, ltb→lt,
}
use led_display_g6_firmware.Transport.Rx.{Rx, parse_incoming}
use led_display_g6_firmware.Transport.Wire.{
  Wire, binary, stream, pattern_file, firmware_file, filename, encode, Fits,
}
use led_display_g6_firmware.Transport.Buffered.{pending, pending_len, pending_byte}
use led_display_g6_firmware.Transport.Framing.{
  at_stream, at_binary, at_pattern_file, at_firmware_file, at_filename, stream_waits,
  stream_waits_header, binary_waits, bulk_waits, filename_waits, filename_waits_header,
}

get_or-append : (xs ys : List ℕ) (i : ℕ) → i < length xs → get_or xs i 0 ≡ get_or (xs ++ ys) i 0
get_or-append [] ys i h = absurd (omega arith)
get_or-append (x ∷ xs) ys zero h = refl
get_or-append (x ∷ xs) ys (suc i) h = get_or-append xs ys i (omega arith)

-- The buffer holds the start `p` of a command, `q` is still to come.
module _ (r : Rx) (f p q : List ℕ) (v : pending r ≡ p) (e : p ++ q ≡ f) (more : 0 < length q) where
  short : r.rx_len < length f
  short = omega (arith, pending_len r p v, length-append p q, ap length e)

  byte : (i : ℕ) → i < r.rx_len → r.rx_buf i ≡ get_or f i 0
  byte i h =
      pending_byte r p v i (omega (arith, pending_len r p v))
      ∙ get_or-append p q i (omega (arith, pending_len r p v))
      ∙ ap (λ (xs : List ℕ). get_or xs i 0) e

-- While the buffer holds only a start of a command that fits it, of one byte or more, parseIncoming
-- changes nothing.
pub parse_incoming_waits :
    (size : ℕ) (r : Rx) (w : Wire) (p q : List ℕ)
    → size < 65536
    → Fits size w
    → p ++ q ≡ encode w
    → 0 < length p
    → 0 < length q
    → pending r ≡ p
    → parse_incoming size r ≡ r
parse_incoming_waits size r (binary c params) p q small fit e some more v =
    let f : List ℕ = encode (binary c params) in
    let b : r.rx_buf 0 ≡ 1 + length params =
      byte r f p q v e more 0 (omega (arith, pending_len r p v)) in
    at_binary size r (omega (arith, b))
    ∙ binary_waits size r (omega (arith, b, short r f p q v e more))
parse_incoming_waits size r (stream body) p q small fit e some more v =
    let f : List ℕ = encode (stream body) in
    at_stream size r (byte r f p q v e more 0 (omega (arith, pending_len r p v)))
    ∙ elim (Bool-cases (ltb r.rx_len 3)) [
      | inl h ↦ stream_waits_header size r (ltb→lt r.rx_len 3 h)
      | inr h ↦
          stream_waits size r (length f)
            (omega (
              arith,
              byte r f p q v e more 1 (ground (arith, h)),
              byte r f p q v e more 2 (ground (arith, h)),
            ))
            (omega arith) (short r f p q v e more)
    ]
parse_incoming_waits size r (pattern_file index n) p q small fit e some more v =
    let f : List ℕ = encode (pattern_file index n) in
    at_pattern_file size r (byte r f p q v e more 0 (omega (arith, pending_len r p v)))
    ∙ bulk_waits size r 0x85 11 3 (short r f p q v e more)
parse_incoming_waits size r (firmware_file n) p q small fit e some more v =
    let f : List ℕ = encode (firmware_file n) in
    at_firmware_file size r (byte r f p q v e more 0 (omega (arith, pending_len r p v)))
    ∙ bulk_waits size r 0xe0 9 1 (short r f p q v e more)
parse_incoming_waits size r (filename index name) p q small fit e some more v =
    let f : List ℕ = encode (filename index name) in
    at_filename size r (byte r f p q v e more 0 (omega (arith, pending_len r p v)))
    ∙ elim (Bool-cases (ltb r.rx_len 4)) [
      | inl h ↦ filename_waits_header size r (ltb→lt r.rx_len 4 h)
      | inr h ↦
          let len : r.rx_buf 3 ≡ length name = byte r f p q v e more 3 (ground (arith, h)) in
          filename_waits size r (omega (arith, len, fit.0)) (omega (arith, len, fit.1))
            (omega (arith, len, short r f p q v e more))
    ]
