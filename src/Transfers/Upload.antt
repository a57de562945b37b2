-- ===== src/Transfers/Upload.antt =====
-- serviceUpload and abortUpload of src/CommandProcessor.cpp, over the receiving half of a link.
use led_display_g6_firmware.Common.{
  ℕ, ◌-◌, Bool, false, not, List, [], ◌∷◌, ◌++◌, Option, none, some, length, min, ◌==◌,
  if◌then◌else◌,
}
use led_display_g6_firmware.Transport.Rx.{Rx}
use led_display_g6_firmware.Transport.Link.{Bulk, read_bulk_usb, read_bulk_tcp, command_consumed}
use led_display_g6_firmware.Transport.Tx.{expired, deadline_after}
use led_display_g6_firmware.Transfers.Desk.{
  Source, net, serial, Upload, writing, draining, Answer, success, failure, Message, upload_timeout,
  write_error,
}
use led_display_g6_firmware.Transfers.Download.{chunk_size}

abbrev pub upload_idle_timeout_ms : ℕ
upload_idle_timeout_ms = 30000

abbrev pub upload_drain_timeout_ms : ℕ
upload_drain_timeout_ms = 5000

-- What a call of serviceUpload meets: the time of the deadline test, how many bytes of those asked
-- for a read of the link hands over, whether the client is connected, how many bytes the card
-- writes, and the time when a new deadline is set.
pub record UploadPass : Type 0 where
  pub now : ℕ
  pub read : ℕ → ℕ
  pub connected : Bool
  pub wrote : ℕ
  pub after : ℕ

-- The upload, its link, and the answers sent.
pub record Uploading : Type 0 where
  pub ul : Upload
  pub rx : Rx
  pub link : List ℕ
  pub answers : List Answer

unfoldable pub read_bulk : ℕ → UploadPass → Source → Rx → List ℕ → ℕ → Bulk
read_bulk size p net rx link want = read_bulk_tcp p.read p.connected rx link want
read_bulk size p serial rx link want = read_bulk_usb size p.read rx link want

abbrev pub append_to : Option (List ℕ) → List ℕ → Option (List ℕ)
append_to none bs = none
append_to (some content) bs = some (content ++ bs)

-- The partial file is removed, and the rest of the upload is read only to get rid of it.
abbrev pub give_up : Message → ℕ → Upload → Upload
give_up message now ul = record ul {
  file = none;
  fail = failure 1 message;
  phase = draining;
  drain_deadline = deadline_after now upload_drain_timeout_ms;
}

abbrev pub end_upload : Answer → Uploading → Uploading
end_upload answer t = record t {
  ul = record t.ul { active = false };
  rx = command_consumed t.rx;
  answers = t.answers ++ answer ∷ [];
}

-- What a chunk that was read does to the fields.
unfoldable pub take_chunk : UploadPass → List ℕ → Upload → Upload
take_chunk p chunk ul =
    let left = ul.remaining - length chunk in
    elim ul.phase [
      | writing ↦
          if p.wrote == length chunk
          then record ul {
            file = append_to ul.file chunk;
            remaining = left;
            deadline = deadline_after p.after upload_idle_timeout_ms;
          }
          else record (give_up write_error p.after ul) { remaining = left }
      | draining ↦ record ul { remaining = left }
    ]

-- The answer when all bytes are read.
abbrev pub verdict : Upload → Answer
verdict ul = elim ul.phase [ writing ↦ success [] | draining ↦ ul.fail ]

-- What follows the deadline tests.
unfoldable pub receive_chunk : ℕ → UploadPass → Uploading → Uploading
receive_chunk size p t =
    let b = read_bulk size p t.ul.source t.rx t.link (min t.ul.remaining chunk_size) in
    let moved = record t { rx = b.rx; link = b.link } in
    let taken = record moved { ul = take_chunk p b.chunk t.ul } in
    if length b.chunk == 0
    then moved
    else if taken.ul.remaining == 0
    then end_upload (verdict taken.ul) taken
    else taken

unfoldable pub service_upload : ℕ → UploadPass → Uploading → Uploading
service_upload size p t = if not t.ul.active then t else elim t.ul.phase [
  | writing ↦
      if expired p.now t.ul.deadline
      then record t { ul = give_up upload_timeout p.after t.ul }
      else receive_chunk size p t
  | draining ↦
      if expired p.now t.ul.drain_deadline then end_upload t.ul.fail t else receive_chunk size p t
]

-- The source's link is gone: the partial file is removed, and nobody is answered.
unfoldable pub abort_upload : Uploading → Uploading
abort_upload t = record t {
  ul = record t.ul { file = none; active = false };
  rx = command_consumed t.rx;
}

-- Rounds of loop(), each with the bytes that have arrived before it.
unfoldable pub uploads : ℕ → List (List ℕ × UploadPass) → Uploading → Uploading
uploads size [] t = t
uploads size (p ∷ ps) t =
    uploads size ps (service_upload size p.1 (record t { link = t.link ++ p.0 }))
