-- ===== src/Transport/Parsing.antt =====
-- parseIncoming reads the wire format: a complete command leaves the buffer as the handlers are to
-- see it, and an incomplete one stays in the buffer.
use led_display_g6_firmware.Common.{
  ℕ, ◌+◌, ◌/◌, ◌%◌, ◌^◌, ◌≤◌, ◌<◌, ◌≡◌, refl, sym, ap, subst, ◌∙◌, true, false, List, ◌∷◌, ◌++◌,
  length, get_or, arith, length-append,
}
use led_display_g6_firmware.Common.Bytes.{Memory, bytes_at, le16, le32}
use led_display_g6_firmware.Transport.Rx.{
  Command, Rx, deliver, stream_command, binary_command, bulk_command, filename_command,
  parse_incoming,
}
use led_display_g6_firmware.Transport.Wire.{
  Wire, binary, stream, pattern_file, firmware_file, filename, encode, Fits, meaning,
}
use led_display_g6_firmware.Transport.Buffered.{
  pending, pending_len, pending_byte, copied_front, consume_rest,
}
use led_display_g6_firmware.Transport.Framing.{
  at_stream, at_binary, at_pattern_file, at_firmware_file, at_filename, stream_done, binary_done,
  bulk_done, filename_done,
}

-- A command went to the handlers, and the buffer keeps what follows it.
pub record Delivered (c : Command) (rest : List ℕ) (r : Rx) : Type 0 where
  pub ready : r.cmd_ready ≡ true
  pub parsed : r.parsed_cmd ≡ c
  pub left : pending r ≡ rest

-- Delivering the front of the buffer.
deliver-Delivered :
    (r : Rx) (f rest : List ℕ) (c c' : Command)
    → pending r ≡ f ++ rest
    → c ≡ c'
    → Delivered c' rest (deliver r c (length f))
deliver-Delivered r f rest c c' v e = record {
  ready = refl;
  parsed = e;
  left = consume_rest r f rest v;
}

le16_low : (v : ℕ) → v < 65536 → le16 (v % 256) (v / 256 % 256) ≡ v
le16_low v h = omega arith

le32_low :
    (v : ℕ)
    → v < 2 ^ 64
    → le32 (v % 256) (v / 256 % 256) (v / 65536 % 256) (v / 65536 / 256 % 256) ≡ v % 2 ^ 32
le32_low v h = omega arith

module _ (m : Memory) (f : List ℕ) (v : bytes_at m 0 (length f) ≡ f) where
  stream_means :
      length f < 65536
      → stream_command m (length f) ≡ record {
        cmd = 0x32;
        bytes = f;
        data_len = length f;
        is_stream = true;
        is_bulk = false;
        bulk_payload_len = 0;
      }
  stream_means h = rw (v, small) refl
    where
      small : length f % 65536 ≡ length f
      small = omega arith

  binary_means :
      (c : ℕ)
      → m 1 ≡ c
      → binary_command m (length f) ≡ record {
        cmd = c;
        bytes = f;
        data_len = length f;
        is_stream = false;
        is_bulk = false;
        bulk_payload_len = 0;
      }
  binary_means c e = rw (e, v) refl

  bulk_means :
      (opcode at n : ℕ)
      → le32 (m at) (m (at + 1)) (m (at + 2)) (m (at + 3)) ≡ n
      → bulk_command opcode at m (length f) ≡ record {
        cmd = opcode;
        bytes = f;
        data_len = length f;
        is_stream = false;
        is_bulk = true;
        bulk_payload_len = n;
      }
  bulk_means opcode at n e =
      ap
        (λ (x : ℕ). record {
          cmd = opcode;
          bytes = bytes_at m 0 (length f);
          data_len = length f;
          is_stream = false;
          is_bulk = true;
          bulk_payload_len = x;
        })
        e
      ∙ ap
          (λ (x : List ℕ). record {
            cmd = opcode;
            bytes = x;
            data_len = length f;
            is_stream = false;
            is_bulk = true;
            bulk_payload_len = n;
          })
          v

  filename_means : filename_command m (length f) ≡ record {
    cmd = 0x83;
    bytes = length f ∷ f;
    data_len = length f + 1;
    is_stream = false;
    is_bulk = false;
    bulk_payload_len = 0;
  }
  filename_means = rw v refl

module _ (r : Rx) (f rest : List ℕ) (v : pending r ≡ f ++ rest) where
  whole : length f ≤ r.rx_len
  whole = omega (arith, pending_len r _ v, length-append f rest)

  byte : (i : ℕ) → i < length f → r.rx_buf i ≡ get_or (f ++ rest) i 0
  byte i h = pending_byte r _ v i (omega (arith, length-append f rest))

-- A whole command that fits the buffer is taken off its front and given to the handlers as it was
-- meant; what follows it stays.
pub parse_incoming-Delivered :
    (size : ℕ) (r : Rx) (w : Wire) (rest : List ℕ)
    → size < 65536
    → Fits size w
    → pending r ≡ encode w ++ rest
    → Delivered (meaning w) rest (parse_incoming size r)
parse_incoming-Delivered size r (binary c params) rest small fit v =
    let w : Wire = binary c params in
    let f : List ℕ = encode w in
    subst (Delivered (meaning w) rest)
      (sym (
        at_binary size r (omega (arith, byte r f rest v 0 (omega arith)))
        ∙ binary_done size r (length f) (omega (arith, byte r f rest v 0 (omega arith)))
            (whole r f rest v)))
      (deliver-Delivered r f rest _ _ v
        (binary_means r.rx_buf f (copied_front r f rest v) c (byte r f rest v 1 (omega arith))))
parse_incoming-Delivered size r (stream body) rest small fit v =
    let w : Wire = stream body in
    let f : List ℕ = encode w in
    subst (Delivered (meaning w) rest)
      (sym (
        at_stream size r (byte r f rest v 0 (omega arith))
        ∙ stream_done size r (length f)
            (omega (arith, byte r f rest v 1 (omega arith), byte r f rest v 2 (omega arith)))
            (omega arith) (whole r f rest v)))
      (deliver-Delivered r f rest _ _ v
        (stream_means r.rx_buf f (copied_front r f rest v) (omega arith)))
parse_incoming-Delivered size r (pattern_file index n) rest small fit v =
    let w : Wire = pattern_file index n in
    let f : List ℕ = encode w in
    subst (Delivered (meaning w) rest)
      (sym (
        at_pattern_file size r (byte r f rest v 0 (omega arith))
        ∙ bulk_done size r 0x85 (length f) 3 (whole r f rest v)))
      (deliver-Delivered r f rest _ _ v (
        bulk_means r.rx_buf f (copied_front r f rest v) 0x85 3 (n % 2 ^ 32) (
          rw
            (
              byte r f rest v 3 (omega arith),
              byte r f rest v 4 (omega arith),
              byte r f rest v 5 (omega arith),
              byte r f rest v 6 (omega arith),
            )
            (le32_low n fit))))
parse_incoming-Delivered size r (firmware_file n) rest small fit v =
    let w : Wire = firmware_file n in
    let f : List ℕ = encode w in
    subst (Delivered (meaning w) rest)
      (sym (
        at_firmware_file size r (byte r f rest v 0 (omega arith))
        ∙ bulk_done size r 0xe0 (length f) 1 (whole r f rest v)))
      (deliver-Delivered r f rest _ _ v (
        bulk_means r.rx_buf f (copied_front r f rest v) 0xe0 1 (n % 2 ^ 32) (
          rw
            (
              byte r f rest v 1 (omega arith),
              byte r f rest v 2 (omega arith),
              byte r f rest v 3 (omega arith),
              byte r f rest v 4 (omega arith),
            )
            (le32_low n fit))))
parse_incoming-Delivered size r (filename index name) rest small fit v =
    let w : Wire = filename index name in
    let f : List ℕ = encode w in
    let len : r.rx_buf 3 ≡ length name = byte r f rest v 3 (omega arith) in
    subst (Delivered (meaning w) rest)
      (sym (
        at_filename size r (byte r f rest v 0 (omega arith))
        ∙ filename_done size r (length f) (omega (arith, len)) (omega (arith, len, fit.0))
            (omega (arith, len, fit.1)) (whole r f rest v)))
      (deliver-Delivered r f rest _ _ v (filename_means r.rx_buf f (copied_front r f rest v)))
