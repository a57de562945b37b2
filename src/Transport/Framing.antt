-- ===== src/Transport/Framing.antt =====
-- The branches of parseIncoming, one equation each.
use led_display_g6_firmware.Common.{ℕ, ◌+◌, ◌≤◌, ◌<◌, ◌≡◌, subst, arith}
use led_display_g6_firmware.Common.Bytes.{le16}
use led_display_g6_firmware.Transport.Rx.{
  Rx, deliver, stream_command, binary_command, bulk_command, filename_command, parse_stream,
  parse_binary, parse_bulk, parse_filename, parse_incoming,
}

module _ (size : ℕ) (r : Rx) where
  pub at_stream : r.rx_buf 0 ≡ 0x32 → parse_incoming size r ≡ parse_stream size r
  unfolding parse_incoming
  at_stream h = ground arith

  pub at_binary : r.rx_buf 0 < 0x32 → parse_incoming size r ≡ parse_binary r
  unfolding parse_incoming
  at_binary h = ground arith

  pub at_pattern_file : r.rx_buf 0 ≡ 0x85 → parse_incoming size r ≡ parse_bulk 0x85 11 3 r
  unfolding parse_incoming
  at_pattern_file h = ground arith

  pub at_firmware_file : r.rx_buf 0 ≡ 0xe0 → parse_incoming size r ≡ parse_bulk 0xe0 9 1 r
  unfolding parse_incoming
  at_firmware_file h = ground arith

  pub at_filename : r.rx_buf 0 ≡ 0x83 → parse_incoming size r ≡ parse_filename r
  unfolding parse_incoming
  at_filename h = ground arith

  pub stream_done :
      (n : ℕ)
      → 3 + le16 (r.rx_buf 1) (r.rx_buf 2) ≡ n
      → n ≤ size
      → n ≤ r.rx_len
      → parse_stream size r ≡ deliver r (stream_command r.rx_buf n) n
  unfolding parse_stream
  stream_done n e h k =
      subst (λ (x : ℕ). parse_stream size r ≡ deliver r (stream_command r.rx_buf x) x) e
        (ground arith)

  pub binary_done :
      (n : ℕ)
      → 1 + r.rx_buf 0 ≡ n
      → n ≤ r.rx_len
      → parse_binary r ≡ deliver r (binary_command r.rx_buf n) n
  unfolding parse_binary
  binary_done n e k =
      subst (λ (x : ℕ). parse_binary r ≡ deliver r (binary_command r.rx_buf x) x) e (ground arith)

  pub bulk_done :
      (opcode n at : ℕ)
      → n ≤ r.rx_len
      → parse_bulk opcode n at r ≡ deliver r (bulk_command opcode at r.rx_buf n) n
  unfolding parse_bulk
  bulk_done opcode n at k = ground arith

  pub filename_done :
      (n : ℕ)
      → 4 + r.rx_buf 3 ≡ n
      → 0 < r.rx_buf 3
      → r.rx_buf 3 < 64
      → n ≤ r.rx_len
      → parse_filename r ≡ deliver r (filename_command r.rx_buf n) n
  unfolding parse_filename
  filename_done n e p q k =
      subst (λ (x : ℕ). parse_filename r ≡ deliver r (filename_command r.rx_buf x) x) e
        (ground arith)

  pub stream_waits :
      (n : ℕ)
      → 3 + le16 (r.rx_buf 1) (r.rx_buf 2) ≡ n
      → n ≤ size
      → r.rx_len < n
      → parse_stream size r ≡ r
  unfolding parse_stream
  stream_waits n e h k = ground (arith, e)

  pub stream_waits_header : r.rx_len < 3 → parse_stream size r ≡ r
  unfolding parse_stream
  stream_waits_header k = ground arith

  pub binary_waits : r.rx_len < 1 + r.rx_buf 0 → parse_binary r ≡ r
  unfolding parse_binary
  binary_waits k = ground arith

  pub bulk_waits : (opcode n at : ℕ) → r.rx_len < n → parse_bulk opcode n at r ≡ r
  unfolding parse_bulk
  bulk_waits opcode n at k = ground arith

  pub filename_waits :
      0 < r.rx_buf 3 → r.rx_buf 3 < 64 → r.rx_len < 4 + r.rx_buf 3 → parse_filename r ≡ r
  unfolding parse_filename
  filename_waits p q k = ground arith

  pub filename_waits_header : r.rx_len < 4 → parse_filename r ≡ r
  unfolding parse_filename
  filename_waits_header k = ground arith
