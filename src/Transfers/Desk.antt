-- ===== src/Transfers/Desk.antt =====
-- What the command processor keeps about the transfers under way, src/CommandProcessor.h: the
-- arena's state, the dl_, ul_ and ar_ fields, and the links, as the handlers and the services use
-- them.
use led_display_g6_firmware.Common.{ℕ, Bool, true, false, List, Option, ◌==◌, ◌&&◌, ◌||◌}
use led_display_g6_firmware.Transport.Tx.{Tick, Sent, send_usb, send_tcp, deadline_after}

-- The two links, net_ and serial_.
pub data Source : Type 0 where
  net : Source
  serial : Source

abbrev pub same_source : Source → Source → Bool
same_source net net = true
same_source net serial = false
same_source serial net = false
same_source serial serial = true

pub data ArenaState : Type 0 where
  all_off : ArenaState
  all_on : ArenaState
  streaming_frame : ArenaState
  open_loop : ArenaState
  show_frame : ArenaState
  closed_loop : ArenaState
  psram_play : ArenaState
  error_display : ArenaState

abbrev pub is_off : ArenaState → Bool
is_off all_off = true
is_off _ = false

-- sendRaw of the link: the rounds of its loop are given, and the time it starts at.
unfoldable pub send_raw : Source → List Tick → ℕ → List ℕ → Sent
send_raw net ticks start bs = send_tcp ticks (deadline_after start 2000) bs
send_raw serial ticks start bs = send_usb ticks (deadline_after start 2000) bs

-- The dl_ fields. `file` is what is not read yet of the file that is open.
pub record Download : Type 0 where
  pub active : Bool
  pub source : Source
  pub idx : ℕ
  pub remaining : ℕ
  pub deadline : ℕ
  pub file : List ℕ

pub data UploadPhase : Type 0 where
  writing : UploadPhase
  draining : UploadPhase

-- What a command is answered with: the payload of a success, or the error and its message.
pub data Message : Type 0 where
  stop_display_first : Message
  already_in_progress : Message
  transfer_in_progress : Message
  upload_in_progress : Message
  archive_in_progress : Message
  being_downloaded : Message
  in_use : Message
  bad_length : Message
  out_of_range : Message
  not_found : Message
  open_failed : Message
  card_failed : Message
  empty_upload : Message
  unknown_bulk : Message
  upload_timeout : Message
  write_error : Message

pub data Answer : Type 0 where
  success : List ℕ → Answer
  failure : ℕ → Message → Answer

-- The ul_ fields. `file` is what stands in the file at ul_path_, which is `none` once it is removed.
pub record Upload : Type 0 where
  pub active : Bool
  pub source : Source
  pub idx : ℕ
  pub remaining : ℕ
  pub deadline : ℕ
  pub drain_deadline : ℕ
  pub phase : UploadPhase
  pub fail : Answer
  pub file : Option (List ℕ)

-- Is the 1-based pattern `idx` the target of a download or upload under way?
unfoldable pub pattern_busy : Download → Upload → ℕ → Bool
pattern_busy dl ul idx = (dl.active && (dl.idx == idx)) || (ul.active && (ul.idx == idx))
