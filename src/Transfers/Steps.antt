-- ===== src/Transfers/Steps.antt =====
-- The rounds of the loop, in any order: the transfers are kept apart in every state that is reached,
-- and a transfer keeps naming its own file.
use led_display_g6_firmware.Common.{ℕ, ◌≡◌, refl, Bool, true, List, arith}
use led_display_g6_firmware.Transport.Rx.{Rx}
use led_display_g6_firmware.Transfers.Desk.{Source, ArenaState, Download, Answer}
use led_display_g6_firmware.Transfers.Download.{DownloadPass, service_download, end_download}
use led_display_g6_firmware.Transfers.Upload.{
  UploadPass, Uploading, service_upload, receive_chunk, take_chunk,
}
use led_display_g6_firmware.Transfers.Archive.{
  Archive, ArchivePass, service_archive, archive_step, abort_archive,
}
use led_display_g6_firmware.Transfers.Handlers.{
  Desk, Outside, Request, process_command, service_disconnects,
}
use led_display_g6_firmware.Transfers.Apart.{
  Interlocked, Shrinks, Kept, still-Kept, Shrinks-Interlocked,
}
use led_display_g6_firmware.Transfers.Interlock.{process_command-Interlocked}

abbrev uploading : Rx → List ℕ → List Answer → Desk → Uploading
uploading rx link answers d = record { ul = d.ul; rx = rx; link = link; answers = answers }

-- What the loop does besides commands: the services, and changes of the display by other commands.
pub data Service : Desk → Desk → Type 0 where
  download :
      (p : DownloadPass) (d : Desk) → Service d (record d { dl = (service_download p d.dl).0 })
  upload :
      (size : ℕ) (p : UploadPass) (rx : Rx) (link : List ℕ) (answers : List Answer) (d : Desk)
      → Service d (record d { ul = (service_upload size p (uploading rx link answers d)).ul })
  archive : (p : ArchivePass) (d : Desk) → Service d (record d { ar = (service_archive p d.ar).0 })
  disconnect : (connected : Source → Bool) (d : Desk) → Service d (service_disconnects connected d)
  show : (state : ArenaState) (d : Desk) → Service d (record d { state = state })

-- What may happen next. The manifest is written when a pattern is deleted.
pub data Step : Desk → Desk → Type 0 where
  command :
      (o : Outside) (source : Source) (r : Request) (d : Desk)
      → o.card.manifest ≡ true
      → Step d (process_command o source r d).desk
  service : {d d' : Desk} → Service d d' → Step d d'

pub data Reach (s : Desk) : Desk → Type 0 where
  here : Reach s s
  next : {t u : Desk} → Reach s t → Step t u → Reach s u

download-Kept :
    (p : DownloadPass) (d : Download)
    → Kept d.active
        (service_download p d).0.active
        d.source
        (service_download p d).0.source
        d.idx
        (service_download p d).0.idx
unfolding service_download end_download
download-Kept p d = record {
  active = λ h. ground (arith, h);
  same_source = ground arith;
  same_idx = ground arith;
}

upload-Kept :
    (size : ℕ) (p : UploadPass) (t : Uploading)
    → Kept t.ul.active
        (service_upload size p t).ul.active
        t.ul.source
        (service_upload size p t).ul.source
        t.ul.idx
        (service_upload size p t).ul.idx
unfolding service_upload receive_chunk take_chunk
upload-Kept size p t = record {
  active = λ h. ground (arith, h);
  same_source = ground arith;
  same_idx = ground arith;
}

archive-Kept :
    (p : ArchivePass) (ar : Archive)
    → Kept ar.active (service_archive p ar).0.active ar.source (service_archive p ar).0.source 0 0
unfolding service_archive archive_step abort_archive
archive-Kept p ar = record {
  active = λ h. ground (arith, h);
  same_source = ground arith;
  same_idx = refl;
}

-- The services start nothing.
pub Service-Shrinks : {d d' : Desk} → Service d d' → Shrinks d d'
unfolding service_disconnects end_download abort_archive
Service-Shrinks (download p d) = record {
  names = refl;
  dl = download-Kept p d.dl;
  ul = still-Kept d.ul.active d.ul.source d.ul.idx;
  ar = still-Kept d.ar.active d.ar.source 0;
}
Service-Shrinks (upload size p rx link answers d) = record {
  names = refl;
  dl = still-Kept d.dl.active d.dl.source d.dl.idx;
  ul = upload-Kept size p (uploading rx link answers d);
  ar = still-Kept d.ar.active d.ar.source 0;
}
Service-Shrinks (archive p d) = record {
  names = refl;
  dl = still-Kept d.dl.active d.dl.source d.dl.idx;
  ul = still-Kept d.ul.active d.ul.source d.ul.idx;
  ar = archive-Kept p d.ar;
}
Service-Shrinks (disconnect connected d) = record {
  names = refl;
  dl = record {
    active = λ h. ground (arith, h);
    same_source = ground arith;
    same_idx = ground arith;
  };
  ul = record {
    active = λ h. ground (arith, h);
    same_source = ground arith;
    same_idx = ground arith;
  };
  ar = record { active = λ h. ground (arith, h); same_source = ground arith; same_idx = refl };
}
Service-Shrinks (show state d) = record {
  names = refl;
  dl = still-Kept d.dl.active d.dl.source d.dl.idx;
  ul = still-Kept d.ul.active d.ul.source d.ul.idx;
  ar = still-Kept d.ar.active d.ar.source 0;
}

pub step-Interlocked : {d d' : Desk} → Step d d' → Interlocked d → Interlocked d'
step-Interlocked (command o source r d m) v = process_command-Interlocked o source r d m v
step-Interlocked (service s) v = Shrinks-Interlocked _ _ (Service-Shrinks s) v

-- From a state in which the transfers are kept apart, any sequence of commands from either link (each
-- held back while a transfer of its link is under way), of the services' calls, disconnections and
-- changes of the display leads to such states only, if the manifest is written whenever a
-- pattern is deleted: a download and an upload under way are of different patterns and on different
-- links, an upload and an archive are never both under way, a download and an archive are on
-- different links, and the latched indices stand for listed patterns.
pub Reach-Interlocked : {s d : Desk} → Interlocked s → Reach s d → Interlocked d
Reach-Interlocked v here = v
Reach-Interlocked v (next r st) = step-Interlocked st (Reach-Interlocked v r)
