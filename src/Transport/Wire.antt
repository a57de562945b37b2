-- ===== src/Transport/Wire.antt =====
-- The commands as a host writes them, and what the firmware is to make of them: the wire format of
-- the comments in parseIncoming, stated without the buffer.
use led_display_g6_firmware.Common.{
  ℕ, ◌+◌, ◌/◌, ◌%◌, ◌^◌, ◌≤◌, ◌<◌, true, false, List, [], ◌∷◌, length,
}
use led_display_g6_firmware.Transport.Rx.{Command}

-- A command with its parameters; a stream frame; the header of a pattern upload and of a firmware
-- upload, with the length of the file; a rename.
pub data Wire : Type 0 where
  binary : ℕ → List ℕ → Wire
  stream : List ℕ → Wire
  pattern_file : ℕ → ℕ → Wire
  firmware_file : ℕ → Wire
  filename : ℕ → List ℕ → Wire

abbrev pub low16 : ℕ → List ℕ → List ℕ
low16 v bs = v % 256 ∷ v / 256 % 256 ∷ bs

-- Eight bytes, the low one first.
abbrev pub low64 : ℕ → List ℕ
low64 v =
    low16 v (low16 (v / 65536) (low16 (v / 65536 / 65536) (low16 (v / 65536 / 65536 / 65536) [])))

abbrev pub encode : Wire → List ℕ
encode (binary cmd params) = (1 + length params) ∷ cmd ∷ params
encode (stream body) = 0x32 ∷ low16 (length body) body
encode (pattern_file index size) = 0x85 ∷ low16 index (low64 size)
encode (firmware_file size) = 0xe0 ∷ low64 size
encode (filename index name) = 0x83 ∷ low16 index (length name ∷ name)

-- What fits the framing, with a receive buffer of `size` bytes.
abbrev pub Fits : ℕ → Wire → Type 0
Fits size (binary cmd params) = 1 + length params < 0x32
Fits size (stream body) = 3 + length body ≤ size
Fits size (pattern_file index n) = n < 2 ^ 64
Fits size (firmware_file n) = n < 2 ^ 64
Fits size (filename index name) = (0 < length name) × (length name < 64)

-- The command that the handlers are given.
abbrev pub meaning : Wire → Command
meaning (binary c params) = record {
  cmd = c;
  bytes = encode (binary c params);
  data_len = length (encode (binary c params));
  is_stream = false;
  is_bulk = false;
  bulk_payload_len = 0;
}
meaning (stream body) = record {
  cmd = 0x32;
  bytes = encode (stream body);
  data_len = length (encode (stream body));
  is_stream = true;
  is_bulk = false;
  bulk_payload_len = 0;
}
meaning (pattern_file index size) = record {
  cmd = 0x85;
  bytes = encode (pattern_file index size);
  data_len = 11;
  is_stream = false;
  is_bulk = true;
  bulk_payload_len = size % 2 ^ 32;
}
meaning (firmware_file size) = record {
  cmd = 0xe0;
  bytes = encode (firmware_file size);
  data_len = 9;
  is_stream = false;
  is_bulk = true;
  bulk_payload_len = size % 2 ^ 32;
}
meaning (filename index name) = record {
  cmd = 0x83;
  bytes = length (encode (filename index name)) ∷ encode (filename index name);
  data_len = length (encode (filename index name)) + 1;
  is_stream = false;
  is_bulk = false;
  bulk_payload_len = 0;
}
