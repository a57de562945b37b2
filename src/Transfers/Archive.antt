-- ===== src/Transfers/Archive.antt =====
-- handleGetSdArchive, serviceArchive and abortArchive of src/CommandProcessor.cpp. A path and a name
-- are lists of characters, and the card is a function from paths to contents, for each call anew.
use led_display_g6_firmware.Common.{
  ℕ, ◌+◌, ◌-◌, ◌%◌, ◌^◌, Bool, true, false, not, List, [], ◌∷◌, ◌++◌, Option, none, some, length,
  take, drop, replicate, get_or, set, min, ltb, leb, ◌==◌, if◌then◌else◌, bit_xor,
}
use led_display_g6_firmware.Common.Bytes.{bytes16, bytes32}
use led_display_g6_firmware.Patterns.Catalog.{Name}
use led_display_g6_firmware.Panel.Crc.{crc32_update}
use led_display_g6_firmware.Transport.Tx.{Tick, expired, deadline_after}
use led_display_g6_firmware.Transfers.Desk.{Source, send_raw}
use led_display_g6_firmware.Transfers.Download.{chunk_size}

abbrev pub archive_max_entries : ℕ
archive_max_entries = 258

abbrev pub archive_idle_timeout_ms : ℕ
archive_idle_timeout_ms = 60000

abbrev pub Files : Type 0
Files = Name → Option (List ℕ)

-- struct ZipEntry. name_len is the length of zip_name, which has at most 79 characters.
pub record ZipEntry : Type 0 where
  pub zip_name : Name
  pub sd_path : Name
  pub file_size : ℕ
  pub crc32 : ℕ
  pub lhf_offset : ℕ

pub data ArchivePhase : Type 0 where
  local_header : ArchivePhase
  file_data : ArchivePhase
  data_descriptor : ArchivePhase
  central_dir : ArchivePhase
  eocd : ArchivePhase

-- The ar_ fields. `entries` are the entry_count entries of the array in use; `file` is what is not
-- read yet of the file that is open, if one is.
pub record Archive : Type 0 where
  pub active : Bool
  pub source : Source
  pub entries : List ZipEntry
  pub entry_idx : ℕ
  pub phase : ArchivePhase
  pub file : Option (List ℕ)
  pub file_remaining : ℕ
  pub crc : ℕ
  pub cd_offset : ℕ
  pub cd_size : ℕ
  pub deadline : ℕ

-- What a slot of the array holds that no archive has used.
abbrev pub blank_entry : ZipEntry
blank_entry = record { zip_name = []; sd_path = []; file_size = 0; crc32 = 0; lhf_offset = 0 }

unfoldable pub local_header_bytes : ZipEntry → List ℕ
local_header_bytes e =
    0x50
    ∷ 0x4b
    ∷ 0x03
    ∷ 0x04
    ∷ 20
    ∷ 0
    ∷ 0x08
    ∷ 0
    ∷ 0
    ∷ 0
    ∷ 0
    ∷ 0
    ∷ 0
    ∷ 0
    ∷ 0
    ∷ 0
    ∷ 0
    ∷ 0
    ∷ 0
    ∷ 0
    ∷ 0
    ∷ 0
    ∷ 0
    ∷ 0
    ∷ 0
    ∷ 0
    ∷ length e.zip_name % 256
    ∷ 0
    ∷ 0
    ∷ 0
    ∷ e.zip_name

unfoldable pub descriptor_bytes : ZipEntry → List ℕ
descriptor_bytes e =
    0x50 ∷ 0x4b ∷ 0x07 ∷ 0x08 ∷ (bytes32 e.crc32 ++ (bytes32 e.file_size ++ bytes32 e.file_size))

unfoldable pub central_dir_bytes : ZipEntry → List ℕ
central_dir_bytes e =
    0x50
    ∷ 0x4b
    ∷ 0x01
    ∷ 0x02
    ∷ 20
    ∷ 0
    ∷ 20
    ∷ 0
    ∷ 0x08
    ∷ 0
    ∷ 0
    ∷ 0
    ∷ 0
    ∷ 0
    ∷ 0
    ∷ 0
    ∷ (bytes32 e.crc32
        ++ (bytes32 e.file_size
            ++ (bytes32 e.file_size
                ++ (length e.zip_name % 256
                    ∷ 0
                    ∷ 0
                    ∷ 0
                    ∷ 0
                    ∷ 0
                    ∷ 0
                    ∷ 0
                    ∷ 0
                    ∷ 0
                    ∷ 0
                    ∷ 0
                    ∷ 0
                    ∷ 0
                    ∷ (bytes32 e.lhf_offset ++ e.zip_name)))))

unfoldable pub eocd_bytes : ℕ → ℕ → ℕ → List ℕ
eocd_bytes count cd_size cd_offset =
    0x50
    ∷ 0x4b
    ∷ 0x05
    ∷ 0x06
    ∷ 0
    ∷ 0
    ∷ 0
    ∷ 0
    ∷ (bytes16 count ++ (bytes16 count ++ (bytes32 cd_size ++ (bytes32 cd_offset ++ 0 ∷ 0 ∷ []))))

abbrev pub manifest_bin : Name
manifest_bin =
    0x4d ∷ 0x41 ∷ 0x4e ∷ 0x49 ∷ 0x46 ∷ 0x45 ∷ 0x53 ∷ 0x54 ∷ 0x2e ∷ 0x62 ∷ 0x69 ∷ 0x6e ∷ []

abbrev pub manifest_txt : Name
manifest_txt =
    0x4d ∷ 0x41 ∷ 0x4e ∷ 0x49 ∷ 0x46 ∷ 0x45 ∷ 0x53 ∷ 0x54 ∷ 0x2e ∷ 0x74 ∷ 0x78 ∷ 0x74 ∷ []

-- "patterns/"
abbrev pub patterns_prefix : Name
patterns_prefix = 0x70 ∷ 0x61 ∷ 0x74 ∷ 0x74 ∷ 0x65 ∷ 0x72 ∷ 0x6e ∷ 0x73 ∷ 0x2f ∷ []

-- An entry for a file that opens, after those there are; snprintf cuts at 79 characters.
abbrev pub add_entry : Files → Name → Name → List ZipEntry → List ZipEntry
add_entry card zip_name sd_path entries = elim (card (take 79 sd_path)) [
  | none ↦ entries
  | some content ↦
      entries
      ++ record {
        zip_name = take 79 zip_name;
        sd_path = take 79 sd_path;
        file_size = length content % 2 ^ 32;
        crc32 = 0;
        lhf_offset = 0;
      }
        ∷ []
]

-- The loop over the names of the library, while there is room for an entry.
abbrev pub add_patterns : Files → List Name → List ZipEntry → List ZipEntry
add_patterns card [] entries = entries
add_patterns card (name ∷ names) entries =
    let path = patterns_prefix ++ name in
    add_patterns card names (
      if ltb (length entries) archive_max_entries
      then add_entry card path (0x2f ∷ path) entries
      else entries)

abbrev pub collect : Files → List Name → List ZipEntry
collect card names = add_patterns card names (
    add_entry card manifest_txt (0x2f ∷ manifest_txt)
      (add_entry card manifest_bin (0x2f ∷ manifest_bin) []))

-- Header, name, data and descriptor of an entry are passed.
abbrev pub offset_after : ℕ → ZipEntry → ℕ
offset_after offset e = (offset + (30 + length e.zip_name + e.file_size + 16)) % 2 ^ 32

-- The loop that sets the offsets: the entries, `offset` and cd_size behind it.
unfoldable pub place : ℕ → List ZipEntry → List ZipEntry
place offset [] = []
place offset (e ∷ es) = record e { lhf_offset = offset } ∷ place (offset_after offset e) es

unfoldable pub entries_end : ℕ → List ZipEntry → ℕ
entries_end offset [] = offset
entries_end offset (e ∷ es) = entries_end (offset_after offset e) es

unfoldable pub directory_size : ℕ → List ZipEntry → ℕ
directory_size cd_size [] = cd_size
directory_size cd_size (e ∷ es) = directory_size ((cd_size + (46 + length e.zip_name)) % 2 ^ 32) es

-- The archive of these entries is started, with an empty library at the end record.
abbrev pub start_archive : List ZipEntry → Source → ℕ → Archive → Archive
start_archive entries source now ar = record ar {
  active = true;
  source = source;
  entries = place 0 entries;
  entry_idx = 0;
  phase = if length entries == 0 then eocd else local_header;
  cd_offset = entries_end 0 entries;
  cd_size = directory_size 0 entries;
  deadline = deadline_after now archive_idle_timeout_ms;
}

-- The size announced, which has 64 bits, and the fields afterwards.
unfoldable pub handle_get_sd_archive : Files → List Name → Source → ℕ → Archive → ℕ × Archive
handle_get_sd_archive card names source now ar =
    let entries = collect card names in
    (entries_end 0 entries + directory_size 0 entries + 22, start_archive entries source now ar)

-- What a call of serviceArchive meets: the time of the deadline test, the card when a file is
-- opened, how many bytes a read hands over (none at an error or the end), the rounds of the sending
-- loop and the time they start at, and the time afterwards.
pub record ArchivePass : Type 0 where
  pub now : ℕ
  pub card : Files
  pub got : ℕ
  pub start : ℕ
  pub ticks : List Tick
  pub after : ℕ

unfoldable pub abort_archive : Archive → Archive
abort_archive ar = record ar { file = none; active = false }

abbrev pub entry : Archive → ZipEntry
entry ar = get_or ar.entries ar.entry_idx blank_entry

-- The bytes of a piece are sent; when all have gone out the archive goes on as `next`.
abbrev pub send_piece : ArchivePass → Archive → List ℕ → Archive → Archive × List ℕ
send_piece p ar piece next =
    let s = send_raw ar.source p.ticks p.start piece in
    if ltb (length s.sent) (length piece) then (abort_archive ar, s.sent) else (next, s.sent)

abbrev pub later : ArchivePass → Archive → Archive
later p ar = record ar { deadline = deadline_after p.after archive_idle_timeout_ms }

-- What is read of the open file, or zeros.
abbrev pub data_chunk : ArchivePass → Archive → List ℕ
data_chunk p ar =
    let want = min ar.file_remaining chunk_size in
    elim ar.file [
      | none ↦ replicate want 0
      | some content ↦
          let chunk = take (min p.got want) content in
          if length chunk == 0 then replicate want 0 else chunk
    ]

-- What stays open: a file that gave nothing is closed.
abbrev pub data_file : ArchivePass → Archive → Option (List ℕ)
data_file p ar =
    let n = min p.got (min ar.file_remaining chunk_size) in
    elim ar.file [
      | none ↦ none
      | some content ↦ if length (take n content) == 0 then none else some (drop n content)
    ]

-- The cases of the switch.
unfoldable pub archive_step : ArchivePass → Archive → Archive × List ℕ
archive_step p ar =
    let e = entry ar in
    let chunk = data_chunk p ar in
    let opened = record ar {
      crc = 0xffffffff;
      file_remaining = e.file_size;
      file = p.card e.sd_path;
      phase = file_data;
    } in
    let closed = record ar {
      file = none;
      entries = set ar.entries ar.entry_idx (record e { crc32 = bit_xor ar.crc 0xffffffff });
      phase = data_descriptor;
    } in
    let read = record ar {
      crc = crc32_update ar.crc chunk;
      file = data_file p ar;
      file_remaining = ar.file_remaining - length chunk;
    } in
    let described =
      if ltb (ar.entry_idx + 1) (length ar.entries)
      then record ar { entry_idx = ar.entry_idx + 1; phase = local_header }
      else record ar { entry_idx = 0; phase = central_dir } in
    let listed = record ar {
      entry_idx = ar.entry_idx + 1;
      phase = if leb (length ar.entries) (ar.entry_idx + 1) then eocd else central_dir;
    } in
    elim ar.phase [
      | local_header ↦ send_piece p ar (local_header_bytes e) (later p opened)
      | file_data ↦
          if ar.file_remaining == 0
          then (closed, [])
          else send_piece p (record ar { crc = read.crc; file = read.file }) chunk (later p read)
      | data_descriptor ↦ send_piece p ar (descriptor_bytes e) (later p described)
      | central_dir ↦ send_piece p ar (central_dir_bytes e) (later p listed)
      | eocd ↦
          send_piece p ar (eocd_bytes (length ar.entries) ar.cd_size ar.cd_offset)
            (record ar { active = false })
    ]

unfoldable pub service_archive : ArchivePass → Archive → Archive × List ℕ
service_archive p ar =
    if not ar.active
    then (ar, [])
    else if expired p.now ar.deadline
    then (abort_archive ar, [])
    else archive_step p ar

-- The calls from rounds of loop(): the fields afterwards, and the raw bytes that went out.
unfoldable pub archives : List ArchivePass → Archive → Archive × List ℕ
archives [] ar = (ar, [])
archives (p ∷ ps) ar =
    let t = service_archive p ar in let rest = archives ps t.0 in (rest.0, t.1 ++ rest.1)
