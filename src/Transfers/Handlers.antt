-- ===== src/Transfers/Handlers.antt =====
-- The commands of src/CommandProcessor.cpp that start a transfer or change the library: their cases
-- in handleBinaryCommand, handleBulkWriteCommand, the dispatch of processCommand, and
-- serviceDisconnects. The links' messages are sent by the caller.
use led_display_g6_firmware.Common.{
  ℕ, ◌+◌, ◌-◌, ◌/◌, ◌%◌, ◌^◌, Bool, true, false, not, List, [], ◌∷◌, ◌++◌, Option, none, some,
  length, ltb, leb, ◌==◌, ◌&&◌, ◌||◌, if◌then◌else◌,
}
use led_display_g6_firmware.Common.Bytes.{bytes16, bytes32}
use led_display_g6_firmware.Patterns.Catalog.{
  Name, Catalog, Card, delete_pattern, purge_memory, rename_pattern, pattern_name, ce_none,
}
use led_display_g6_firmware.Transport.Rx.{set_pattern_file_cmd, pattern_name_byte_count}
use led_display_g6_firmware.Transport.Tx.{deadline_after}
use led_display_g6_firmware.Transfers.Desk.{
  Source, same_source, ArenaState, is_off, Download, Upload, writing, Answer, success, failure,
  Message, stop_display_first, already_in_progress, transfer_in_progress, upload_in_progress,
  archive_in_progress, being_downloaded, in_use, bad_length, out_of_range, not_found, open_failed,
  card_failed, empty_upload, unknown_bulk, pattern_busy,
}
use led_display_g6_firmware.Transfers.Download.{download_idle_timeout_ms, end_download}
use led_display_g6_firmware.Transfers.Upload.{upload_idle_timeout_ms}
use led_display_g6_firmware.Transfers.Archive.{
  Archive, Files, patterns_prefix, handle_get_sd_archive, abort_archive,
}

abbrev pub ce_display_active : ℕ
ce_display_active = 10

-- What the handlers keep.
pub record Desk : Type 0 where
  pub state : ArenaState
  pub catalog : Catalog
  pub dl : Download
  pub ul : Upload
  pub ar : Archive

-- What a handler finds outside: the time, what the card holds and answers, whether a file opens for
-- writing, and which names exist on the card.
pub record Outside : Type 0 where
  pub now : ℕ
  pub files : Files
  pub card : Card
  pub writable : Bool
  pub exists : Name → Bool

-- What a handler leaves: the fields, and the answer, unless it comes when the transfer ends.
pub record Outcome : Type 0 where
  pub desk : Desk
  pub answer : Option Answer

abbrev pub refuse : ℕ → Message → Desk → Outcome
refuse status message d = record { desk = d; answer = some (failure status message) }

abbrev pub answered : List ℕ → Desk → Outcome
answered payload d = record { desk = d; answer = some (success payload) }

abbrev pub any_transfer : Desk → Bool
any_transfer d = d.dl.active || (d.ul.active || d.ar.active)

-- "/patterns/" and the name
abbrev pub pattern_path : Name → Name
pattern_path name = 0x2f ∷ (patterns_prefix ++ name)

-- The download of a file that opened, whose size is announced as 8 bytes.
abbrev pub start_download : Outside → Source → ℕ → List ℕ → Desk → Outcome
start_download o source idx content d =
    let size = length content % 2 ^ 32 in
    answered (bytes32 size ++ 0 ∷ 0 ∷ 0 ∷ 0 ∷ []) (record d {
      dl = record {
        active = true;
        source = source;
        idx = idx;
        remaining = size;
        deadline = deadline_after o.now download_idle_timeout_ms;
        file = content;
      };
    })

-- case GET_PATTERN_FILE_CMD
unfoldable pub get_pattern_file : Outside → Source → ℕ → ℕ → Desk → Outcome
get_pattern_file o source claimed_len idx d =
    if not (is_off d.state)
    then refuse ce_display_active stop_display_first d
    else if d.dl.active
    then refuse 1 already_in_progress d
    else if not (claimed_len == 3)
    then refuse 1 bad_length d
    else if (idx == 0) || ltb (length d.catalog.names) idx
    then refuse 1 out_of_range d
    else if pattern_busy d.dl d.ul idx
    then refuse 1 in_use d
    else elim (pattern_name d.catalog idx) [
      | none ↦ refuse 1 not_found d
      | some name ↦ elim (o.files (pattern_path name)) [
        | none ↦ refuse 1 open_failed d
        | some content ↦ start_download o source idx content d
      ]
    ]

-- case DELETE_PATTERN_FILE_CMD
abbrev pub shift_index : ℕ → Bool → ℕ → ℕ
shift_index idx active latched = if active && ltb idx latched then latched - 1 else latched

abbrev pub shift_indices : ℕ → Desk → Desk
shift_indices idx d =
    if leb 1 idx
    then record d {
      dl = record d.dl { idx = shift_index idx d.dl.active d.dl.idx };
      ul = record d.ul { idx = shift_index idx d.ul.active d.ul.idx };
    }
    else d

unfoldable pub delete_pattern_file : Outside → ℕ → ℕ → Desk → Outcome
delete_pattern_file o claimed_len idx d =
    let t = delete_pattern o.card idx d.catalog in
    let deleted = record d { catalog = t.1 } in
    if not (claimed_len == 3)
    then refuse 1 bad_length d
    else if pattern_busy d.dl d.ul idx
    then refuse 1 in_use d
    else if not (t.0 == ce_none)
    then refuse t.0 card_failed deleted
    else answered [] (shift_indices idx deleted)

-- case PURGE_MEMORY_CMD
unfoldable pub purge_memory_command : Outside → Desk → Outcome
purge_memory_command o d =
    let t = purge_memory o.card d.catalog in
    let purged = record d { catalog = t.1 } in
    if not (is_off d.state)
    then refuse ce_display_active stop_display_first d
    else if any_transfer d
    then refuse 1 transfer_in_progress d
    else if not (t.0 == ce_none)
    then refuse t.0 card_failed purged
    else answered [] purged

-- case SET_PATTERN_FILENAME_CMD
unfoldable pub set_pattern_filename : Outside → ℕ → ℕ → ℕ → Name → Desk → Outcome
set_pattern_filename o claimed_len idx name_len new_name d =
    let t = rename_pattern o.card o.exists idx new_name d.catalog in
    let renamed = record d { catalog = t.1 } in
    if ltb claimed_len 4
    then refuse 1 bad_length d
    else if (name_len == 0)
        || (leb pattern_name_byte_count name_len || ltb claimed_len ((4 + name_len) % 256))
    then refuse 1 bad_length d
    else if ltb (length d.catalog.names) idx
    then refuse 1 out_of_range d
    else if any_transfer d
    then refuse 1 transfer_in_progress d
    else if not (t.0 == ce_none)
    then refuse t.0 card_failed renamed
    else answered (bytes16 t.2) renamed

-- case GET_SD_ARCHIVE_CMD
unfoldable pub get_sd_archive : Outside → Source → Desk → Outcome
get_sd_archive o source d =
    let t = handle_get_sd_archive o.files d.catalog.names source o.now d.ar in
    if not (is_off d.state)
    then refuse ce_display_active stop_display_first d
    else if d.ar.active
    then refuse 1 already_in_progress d
    else if d.ul.active
    then refuse 1 upload_in_progress d
    else answered (bytes32 t.0 ++ bytes32 (t.0 / 2 ^ 32)) (record d { ar = t.1 })

-- The upload that is handed to serviceUpload, its file new and empty.
abbrev pub start_upload : Outside → Source → ℕ → ℕ → Desk → Outcome
start_upload o source idx total d = record {
  desk = record d {
    ul = record d.ul {
      active = true;
      source = source;
      idx = idx;
      remaining = total;
      deadline = deadline_after o.now upload_idle_timeout_ms;
      phase = writing;
      file = some [];
    };
  };
  answer = none;
}

-- handleBulkWriteCommand, but for a firmware file. The caller consumes the command when it is
-- answered; a refused command's bytes are drained first.
unfoldable pub handle_bulk_write : Outside → Source → ℕ → ℕ → ℕ → Desk → Outcome
handle_bulk_write o source cmd idx total d =
    if not (cmd == set_pattern_file_cmd)
    then refuse 1 unknown_bulk d
    else if total == 0
    then refuse 1 empty_upload d
    else if not (is_off d.state)
    then refuse ce_display_active stop_display_first d
    else if d.ul.active
    then refuse 1 already_in_progress d
    else if d.dl.active && (d.dl.idx == idx)
    then refuse 1 being_downloaded d
    else if d.ar.active
    then refuse 1 archive_in_progress d
    else if ltb (length d.catalog.names) idx
    then refuse 1 out_of_range d
    else if not o.writable
    then refuse 1 open_failed d
    else start_upload o source idx total d

-- The commands above as they come from a link, with their arguments.
pub data Request : Type 0 where
  download : ℕ → ℕ → Request
  upload : ℕ → ℕ → ℕ → Request
  delete : ℕ → ℕ → Request
  purge : Request
  rename : ℕ → ℕ → ℕ → Name → Request
  archive : Request

abbrev pub handle : Outside → Source → Request → Desk → Outcome
handle o source (download claimed_len idx) d = get_pattern_file o source claimed_len idx d
handle o source (upload cmd idx total) d = handle_bulk_write o source cmd idx total d
handle o source (delete claimed_len idx) d = delete_pattern_file o claimed_len idx d
handle o source purge d = purge_memory_command o d
handle o source (rename claimed_len idx name_len name) d =
    set_pattern_filename o claimed_len idx name_len name d
handle o source archive d = get_sd_archive o source d

-- Is the source's command left waiting?
unfoldable pub held_back : Source → Desk → Bool
held_back source d =
    (d.dl.active && same_source d.dl.source source)
    || ((d.ul.active && same_source d.ul.source source)
        || (d.ar.active && same_source d.ar.source source))

-- The part of processCommand for one source: its command waits while a transfer is its own.
unfoldable pub process_command : Outside → Source → Request → Desk → Outcome
process_command o source r d =
    let handled = handle o source r d in
    if held_back source d then record { desk = d; answer = none } else handled

-- serviceDisconnects, given which sources are connected.
unfoldable pub service_disconnects : (Source → Bool) → Desk → Desk
service_disconnects connected d = record d {
  dl = if d.dl.active && not (connected d.dl.source) then end_download d.dl else d.dl;
  ul =
      if d.ul.active && not (connected d.ul.source)
      then record d.ul { file = none; active = false }
      else d.ul;
  ar = if d.ar.active && not (connected d.ar.source) then abort_archive d.ar else d.ar;
}
