-- ===== src/Transfers/Tests.antt =====
-- Runs of the transfers at small inputs, and the theorems at inputs that meet their hypotheses.
use led_display_g6_firmware.Common.{
  ℕ, ◌^◌, ◌<◌, ◌≡◌, refl, true, false, List, [], ◌∷◌, ◌++◌, none, some, arith, length, replicate,
  get_or, ◌==◌, if◌then◌else◌,
}
use led_display_g6_firmware.Patterns.Catalog.{
  Name, Catalog, pattern_name, delete_pattern, remove_at,
}
use led_display_g6_firmware.Transport.Rx.{Command}
use led_display_g6_firmware.Transport.Tx.{Tick, expired, send_usb}
use led_display_g6_firmware.Transport.Buffered.{pending}
use led_display_g6_firmware.Transfers.Desk.{
  net, serial, send_raw, pattern_busy, Download, writing, success, all_off,
}
use led_display_g6_firmware.Transfers.Download.{
  DownloadPass, downloads, service_download, end_download,
}
use led_display_g6_firmware.Transfers.Downloading.{Delivered, downloads-Delivered}
use led_display_g6_firmware.Transfers.Upload.{UploadPass, Uploading, uploads}
use led_display_g6_firmware.Transfers.Taking.{Taken}
use led_display_g6_firmware.Transfers.Uploaded.{arrivals, uploads-Accepted}
use led_display_g6_firmware.Transfers.Archive.{
  Archive, ArchivePass, Files, collect, archives, handle_get_sd_archive, local_header,
}
use led_display_g6_firmware.Transfers.Zip.{bodies_size}
use led_display_g6_firmware.Transfers.Zipped.{Zipped, archives-Zipped}
use led_display_g6_firmware.Transfers.Handlers.{
  Desk, Outside, download, delete, process_command, held_back, get_pattern_file,
  delete_pattern_file,
}
use led_display_g6_firmware.Transfers.Apart.{Interlocked}
use led_display_g6_firmware.Transfers.Steps.{here, next, command, Reach-Interlocked}
use led_display_g6_firmware.Transfers.Naming.{During, downloading, uploading, During-named}
use led_display_g6_firmware.Transfers.Resync.{
  ThrownAway, drain_bulk_data, drain_bulk_data-ThrownAway,
}
use led_display_g6_firmware.Transfers.Refusing.{Untouched, process_command-Untouched}

-- A round of a sending loop in which the link takes up to 100 bytes.
abbrev tick : Tick
tick = record { room = 100; now = 10; connected = true; took = 100; after = 11 }

-- A file of five bytes going down over USB.
abbrev five : Download
five = record {
  active = true;
  source = serial;
  idx = 2;
  remaining = 5;
  deadline = 60000;
  file = 1 ∷ 2 ∷ 3 ∷ 4 ∷ 5 ∷ [];
}

-- The card hands over three bytes at a time.
abbrev pass : DownloadPass
pass = record { now = 5; got = 3; start = 10; ticks = tick ∷ []; after = 12 }

downloads-Delivered_example :
    Delivered five (length (pass ∷ pass ∷ [])) (downloads (pass ∷ pass ∷ []) five)
downloads-Delivered_example = downloads-Delivered (pass ∷ pass ∷ []) five

five_downloaded : (downloads (pass ∷ pass ∷ []) five).1 ≡ 1 ∷ 2 ∷ 3 ∷ 4 ∷ 5 ∷ []
unfolding downloads service_download end_download send_raw send_usb expired
five_downloaded = refl

abbrev header : Command
header = record {
  cmd = 0x85;
  bytes = [];
  data_len = 11;
  is_stream = false;
  is_bulk = true;
  bulk_payload_len = 4;
}

-- Four bytes come up over USB, of which two stand ready.
abbrev four : Uploading
four = record {
  ul = record {
    active = true;
    source = serial;
    idx = 0;
    remaining = 4;
    deadline = 30000;
    drain_deadline = 0;
    phase = writing;
    fail = success [];
    file = some [];
  };
  rx = record { rx_buf = λ _. 0; rx_len = 0; parsed_cmd = header; cmd_ready = true };
  link = 7 ∷ 8 ∷ [];
  answers = [];
}

abbrev up : List (List ℕ × UploadPass)
up =
    ([], record { now = 1; read = λ n. n; connected = true; wrote = 2; after = 2 })
    ∷ (9 ∷ 10 ∷ 11 ∷ [], record { now = 3; read = λ n. n; connected = true; wrote = 2; after = 4 })
    ∷ []

uploads-Accepted_example :
    Taken 100 4 ((pending four.rx ++ four.link) ++ arrivals up) (uploads 100 up four)
uploads-Accepted_example =
    uploads-Accepted 100 4 up four (omega arith) (λ k. omega arith, (λ k. omega arith, refl))
      (record { active = refl; phase = refl; remaining = refl; file = refl; answers = refl })

-- A card with the text manifest of two characters and one pattern.
abbrev files : Files
files path =
    if get_or path 1 0 == 0x4d
    then some (0x68 ∷ 0x69 ∷ [])
    else if get_or path 1 0 == 0x70
    then some (1 ∷ 2 ∷ 3 ∷ [])
    else none

abbrev no_archive : Archive
no_archive = record {
  active = false;
  source = net;
  entries = [];
  entry_idx = 0;
  phase = local_header;
  file = none;
  file_remaining = 0;
  crc = 0;
  cd_offset = 0;
  cd_size = 0;
  deadline = 0;
}

abbrev archive_pass : ArchivePass
archive_pass = record {
  now = 5;
  card = files;
  got = 100;
  start = 10;
  ticks = tick ∷ [];
  after = 12;
}

abbrev one_name : List Name
one_name = (0x61 ∷ []) ∷ []

small : bodies_size (collect files one_name) < 2 ^ 32
small = omega arith

archives-Zipped_example :
    Zipped
      (handle_get_sd_archive files one_name net 0 no_archive).0
      (collect files one_name)
      (archives
        (replicate 4 archive_pass)
        (handle_get_sd_archive files one_name net 0 no_archive).1).1
archives-Zipped_example =
    archives-Zipped files one_name net 0 no_archive (replicate 4 archive_pass) small

abbrev three : Catalog
three = record {
  mounted = true;
  names = (0x61 ∷ []) ∷ (0x62 ∷ []) ∷ (0x64 ∷ []) ∷ [];
  origins = (0x61 ∷ []) ∷ (0x62 ∷ []) ∷ (0x64 ∷ []) ∷ [];
  file_open = false;
  open_id = 0;
  file = [];
}

-- Nothing is under way.
abbrev quiet : Desk
quiet = record {
  state = all_off;
  catalog = three;
  dl = record five { active = false };
  ul = record four.ul { active = false };
  ar = no_archive;
}

quiet-Interlocked : Interlocked quiet
quiet-Interlocked = record {
  files_apart = λ a b. absurd (ground (arith, a));
  upload_alone = λ a. refl;
  links_apart = λ a b. absurd (ground (arith, a));
  archive_apart = λ a b. absurd (ground (arith, a));
  download_some = λ a. omega arith;
  download_listed = λ a. omega arith;
  upload_listed = λ a. omega arith;
}

abbrev outside : Outside
outside = record {
  now = 0;
  files = files;
  card = record { there = true; done = true; manifest = true };
  writable = true;
  exists = λ _. false;
}

-- Pattern 3 is asked for over the network, and pattern 1 deleted over USB.
abbrev asked : Desk
asked = (process_command outside net (download 3 3) quiet).desk

abbrev deleted : Desk
deleted = (process_command outside serial (delete 3 1) asked).desk

Reach-Interlocked_example : Interlocked deleted
Reach-Interlocked_example = Reach-Interlocked quiet-Interlocked (
    next (next here (command outside net (download 3 3) quiet refl))
      (command outside serial (delete 3 1) asked refl))

index_went_down : deleted.dl.idx ≡ 2
unfolding process_command held_back get_pattern_file delete_pattern_file pattern_busy pattern_name
    delete_pattern remove_at
index_went_down = refl

During-named_example :
    (During downloading asked deleted
      → pattern_name deleted.catalog deleted.dl.idx ≡ pattern_name asked.catalog asked.dl.idx)
    × (During uploading asked deleted
        → pattern_name deleted.catalog deleted.ul.idx ≡ pattern_name asked.catalog asked.ul.idx)
During-named_example = During-named asked deleted

process_command-Untouched_example :
    Untouched outside asked (process_command outside serial (delete 3 3) asked)
process_command-Untouched_example = process_command-Untouched outside serial (delete 3 3) asked

abbrev rejected : List UploadPass
rejected = record { now = 1; read = λ n. n; connected = true; wrote = 0; after = 2 } ∷ []

drain_bulk_data-ThrownAway_example :
    ThrownAway 4 0
      (pending four.rx ++ four.link)
      rejected
      (drain_bulk_data 100 serial 0 rejected 0 4 four.rx four.link)
drain_bulk_data-ThrownAway_example =
    drain_bulk_data-ThrownAway 100 serial 0 rejected 0 4 four.rx four.link (omega arith)
      (λ k. omega arith, refl)
