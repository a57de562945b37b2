-- ===== src/Transport/Tests.antt =====
-- Runs of the links at small inputs, and the theorems at inputs that meet their hypotheses.
use led_display_g6_firmware.Common.{
  ℕ, zero, suc, ◌≡◌, ◌≤◌, get_or, refl, true, false, List, [], ◌∷◌, ◌++◌, some, arith,
}
use led_display_g6_firmware.Common.Bytes.{Memory}
use led_display_g6_firmware.Transport.Rx.{Command, Rx, rx_buf_size}
use led_display_g6_firmware.Transport.Wire.{Wire, binary, stream, meaning}
use led_display_g6_firmware.Transport.Buffered.{pending}
use led_display_g6_firmware.Transport.Parsing.{Delivered, parse_incoming-Delivered}
use led_display_g6_firmware.Transport.Rx.{parse_incoming}
use led_display_g6_firmware.Transport.Waiting.{parse_incoming_waits}
use led_display_g6_firmware.Transport.Link.{
  Round, service_usb, rounds, read_bulk_usb, read_bulk_tcp,
}
use led_display_g6_firmware.Transport.Session.{ReadAs, rounds-ReadAs}
use led_display_g6_firmware.Transport.Prompt.{service_usb-Delivered}
use led_display_g6_firmware.Transport.Draining.{Handed, read_bulk-Handed}
use led_display_g6_firmware.Transport.Tx.{Tick, deadline_after, send_response, send_usb, send_tcp}
use led_display_g6_firmware.Transport.Stalling.{SendsFront, send_raw-SendsFront}
use led_display_g6_firmware.Transport.Answering.{read_answer, read_answer-send_response}

abbrev none_yet : Command
none_yet = record {
  cmd = 0;
  bytes = [];
  data_len = 0;
  is_stream = false;
  is_bulk = false;
  bulk_payload_len = 0;
}

-- Three bytes, [2, 0x16, 5], and the first byte of the next command.
abbrev filled : Memory
filled x = get_or (2 ∷ 0x16 ∷ 5 ∷ 1 ∷ []) x 0

abbrev four : Rx
four = record { rx_buf = filled; rx_len = 4; parsed_cmd = none_yet; cmd_ready = false }

abbrev two : Rx
two = record { rx_buf = filled; rx_len = 2; parsed_cmd = none_yet; cmd_ready = false }

abbrev set_five : Wire
set_five = binary 0x16 (5 ∷ [])

parse_incoming-Delivered_example :
    Delivered (meaning set_five) (1 ∷ []) (parse_incoming (rx_buf_size 20) four)
parse_incoming-Delivered_example =
    parse_incoming-Delivered (rx_buf_size 20) four set_five (1 ∷ []) (omega arith) (omega arith)
      refl

parse_incoming_waits_example : parse_incoming (rx_buf_size 20) two ≡ two
parse_incoming_waits_example =
    parse_incoming_waits (rx_buf_size 20) two set_five (2 ∷ 0x16 ∷ []) (5 ∷ []) (omega arith)
      (omega arith) refl (omega arith) (omega arith) refl

-- A slow link: a read hands over one byte at a time.
abbrev one_byte : ℕ → ℕ
one_byte zero = 0
one_byte (suc n) = 1

one_byte_most : (n : ℕ) → one_byte n ≤ n
one_byte_most zero = omega arith
one_byte_most (suc n) = omega arith

-- In the last round the stream frame is there, and a download holds it back.
abbrev three_rounds : List Round
three_rounds =
    record { arrived = 0x32 ∷ 1 ∷ []; held = false }
    ∷ record { arrived = 0 ∷ []; held = false }
    ∷ record { arrived = 9 ∷ []; held = true }
    ∷ []

rounds-ReadAs_example :
    ReadAs
      (set_five ∷ stream (9 ∷ []) ∷ set_five ∷ [])
      (2 ∷ 0x16 ∷ 5 ∷ [])
      (rounds (rx_buf_size 20) one_byte two (5 ∷ []) three_rounds)
rounds-ReadAs_example =
    rounds-ReadAs (rx_buf_size 20) one_byte two (5 ∷ []) three_rounds (2 ∷ 0x16 ∷ 5 ∷ [])
      (set_five ∷ stream (9 ∷ []) ∷ set_five ∷ []) one_byte_most (omega arith)
      (omega arith, (omega arith, (omega arith, refl))) (refl, (refl, (refl, refl))) refl
      (omega arith) refl

service_usb-Delivered_example :
    let t = service_usb (rx_buf_size 20) (λ n. n) two (5 ∷ 7 ∷ []) in
    (t.0.cmd_ready ≡ true) × (t.0.parsed_cmd ≡ meaning set_five) × (pending t.0 ++ t.1 ≡ 7 ∷ [])
service_usb-Delivered_example =
    service_usb-Delivered (rx_buf_size 20) two (5 ∷ 7 ∷ []) set_five (7 ∷ []) (omega arith)
      (omega arith) (omega arith) refl (omega arith) refl

read_bulk-Handed_example :
    Handed 3 (2 ∷ 0x16 ∷ 8 ∷ 9 ∷ []) (read_bulk_usb (rx_buf_size 20) one_byte two (8 ∷ 9 ∷ []) 3)
    × Handed 3 (2 ∷ 0x16 ∷ 8 ∷ 9 ∷ []) (read_bulk_tcp one_byte true two (8 ∷ 9 ∷ []) 3)
read_bulk-Handed_example =
    read_bulk-Handed (rx_buf_size 20) one_byte true two (8 ∷ 9 ∷ []) 3 one_byte_most (omega arith)

-- The clock wraps around between the rounds; the host takes two bytes and no more.
abbrev near_wrap : ℕ
near_wrap = 4294967000

abbrev stalls : List Tick
stalls =
    record { room = 2; now = 4294967100; connected = true; took = 2; after = 4294967100 }
    ∷ record { room = 0; now = 4294967400; connected = true; took = 0; after = 4294967401 }
    ∷ record { room = 0; now = 4294969500; connected = true; took = 0; after = 4294969501 }
    ∷ []

send_raw-SendsFront_example :
    SendsFront 3000 near_wrap stalls
      (1 ∷ 2 ∷ 3 ∷ [])
      (send_usb stalls (deadline_after near_wrap 2000) (1 ∷ 2 ∷ 3 ∷ []))
    × SendsFront 3000 near_wrap stalls
        (1 ∷ 2 ∷ 3 ∷ [])
        (send_tcp stalls (deadline_after near_wrap 2000) (1 ∷ 2 ∷ 3 ∷ []))
send_raw-SendsFront_example =
    send_raw-SendsFront 3000 near_wrap stalls (1 ∷ 2 ∷ 3 ∷ []) (omega arith) (
      omega arith,
      omega arith,
      omega arith,
      omega arith,
      (
        omega arith,
        omega arith,
        omega arith,
        omega arith,
        (omega arith, omega arith, omega arith, omega arith, refl),
      ),
    )

read_answer-send_response_example :
    read_answer (send_response 0x16 0 (7 ∷ 8 ∷ []) ++ 99 ∷ [])
    ≡ some (record { status = 0; cmd = 0x16; payload = 7 ∷ 8 ∷ [] }, 99 ∷ [])
read_answer-send_response_example =
    read_answer-send_response 0x16 0 (7 ∷ 8 ∷ []) (99 ∷ []) (omega arith)
