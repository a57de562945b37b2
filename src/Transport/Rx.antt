-- ===== src/Transport/Rx.antt =====
-- parseIncoming of src/SerialManager.cpp and of src/NetworkManager.cpp: the receive buffer and the
-- framing, which the two files repeat word for word. `size` is RX_BUF_SIZE, which depends on the
-- arena's number of panels.
use led_display_g6_firmware.Common.{
  ℕ, ◌+◌, ◌-◌, ◌*◌, ◌%◌, Bool, true, false, List, ◌∷◌, ltb, leb, ◌==◌, ◌||◌, if◌then◌else◌,
}
use led_display_g6_firmware.Common.Bytes.{Memory, bytes_at, le16, le32}

-- frame_buf_byte_count_max + stream_header_byte_count + 16, for so many panels.
abbrev pub rx_buf_size : ℕ → ℕ
rx_buf_size panels = 3 + (4 + panels * 203) + 16

abbrev pub stream_frame_cmd : ℕ
stream_frame_cmd = 0x32

abbrev pub first_command_byte_max_value_binary : ℕ
first_command_byte_max_value_binary = 0x32

abbrev pub set_pattern_filename_cmd : ℕ
set_pattern_filename_cmd = 0x83

abbrev pub set_pattern_file_cmd : ℕ
set_pattern_file_cmd = 0x85

abbrev pub set_firmware_file_cmd : ℕ
set_firmware_file_cmd = 0xe0

abbrev pub pattern_name_byte_count : ℕ
pattern_name_byte_count = 64

-- struct ParsedCommand. `bytes` is the source's `data`: the bytes that were copied into it, without what older commands
-- left behind them.
pub record Command : Type 0 where
  pub cmd : ℕ
  pub bytes : List ℕ
  pub data_len : ℕ
  pub is_stream : Bool
  pub is_bulk : Bool
  pub bulk_payload_len : ℕ

-- The receiving half of a manager.
pub record Rx : Type 0 where
  pub rx_buf : Memory
  pub rx_len : ℕ
  pub parsed_cmd : Command
  pub cmd_ready : Bool

-- memmove of what stands behind the first `n` bytes to the front.
abbrev pub shifted : Memory → ℕ → ℕ → Memory
shifted m len n x = if ltb x (len - n) then m (x + n) else m x

unfoldable pub consume : Rx → ℕ → Rx
consume r n = record r { rx_buf = shifted r.rx_buf r.rx_len n; rx_len = r.rx_len - n }

abbrev pub resync : Rx → Rx
resync r = record r { rx_len = 0 }

-- A complete command of `n` bytes leaves the buffer.
abbrev pub deliver : Rx → Command → ℕ → Rx
deliver r c n = record (consume r n) { parsed_cmd = c; cmd_ready = true }

-- The commands of the five framings, from the first `n` bytes of the buffer.
abbrev pub stream_command : Memory → ℕ → Command
stream_command m n = record {
  cmd = stream_frame_cmd;
  bytes = bytes_at m 0 n;
  data_len = n % 65536;
  is_stream = true;
  is_bulk = false;
  bulk_payload_len = 0;
}

abbrev pub binary_command : Memory → ℕ → Command
binary_command m n = record {
  cmd = m 1;
  bytes = bytes_at m 0 n;
  data_len = n;
  is_stream = false;
  is_bulk = false;
  bulk_payload_len = 0;
}

-- An upload, with the lower 32 bits of the length of the file, which stands at `at`.
abbrev pub bulk_command : ℕ → ℕ → Memory → ℕ → Command
bulk_command opcode at m n = record {
  cmd = opcode;
  bytes = bytes_at m 0 n;
  data_len = n;
  is_stream = false;
  is_bulk = true;
  bulk_payload_len = le32 (m at) (m (at + 1)) (m (at + 2)) (m (at + 3));
}

-- The rename, packed again as a binary frame.
abbrev pub filename_command : Memory → ℕ → Command
filename_command m n = record {
  cmd = set_pattern_filename_cmd;
  bytes = n ∷ bytes_at m 0 n;
  data_len = n + 1;
  is_stream = false;
  is_bulk = false;
  bulk_payload_len = 0;
}

unfoldable pub parse_stream : ℕ → Rx → Rx
parse_stream size r =
    let total_needed = 3 + le16 (r.rx_buf 1) (r.rx_buf 2) in
    if ltb r.rx_len 3
    then r
    else if ltb size total_needed
    then resync r
    else if ltb r.rx_len total_needed
    then r
    else deliver r (stream_command r.rx_buf total_needed) total_needed

unfoldable pub parse_binary : Rx → Rx
parse_binary r =
    let total_needed = 1 + r.rx_buf 0 in
    if ltb r.rx_len total_needed
    then r
    else deliver r (binary_command r.rx_buf total_needed) total_needed

unfoldable pub parse_bulk : ℕ → ℕ → ℕ → Rx → Rx
parse_bulk opcode header_len at r =
    if ltb r.rx_len header_len
    then r
    else deliver r (bulk_command opcode at r.rx_buf header_len) header_len

unfoldable pub parse_filename : Rx → Rx
parse_filename r =
    let name_len = r.rx_buf 3 in
    let total_needed = 4 + name_len in
    if ltb r.rx_len 4
    then r
    else if (name_len == 0) || leb pattern_name_byte_count name_len
    then resync r
    else if ltb r.rx_len total_needed
    then r
    else deliver r (filename_command r.rx_buf total_needed) total_needed

unfoldable pub parse_incoming : ℕ → Rx → Rx
parse_incoming size r =
    let first_byte = r.rx_buf 0 in
    if first_byte == stream_frame_cmd
    then parse_stream size r
    else if leb first_byte first_command_byte_max_value_binary
    then parse_binary r
    else if first_byte == set_pattern_file_cmd
    then parse_bulk set_pattern_file_cmd 11 3 r
    else if first_byte == set_firmware_file_cmd
    then parse_bulk set_firmware_file_cmd 9 1 r
    else if first_byte == set_pattern_filename_cmd
    then parse_filename r
    else resync r
