-- ===== src/Transfers/Download.antt =====
-- serviceDownload and endDownload of src/CommandProcessor.cpp.
use led_display_g6_firmware.Common.{
  ℕ, ◌-◌, false, not, List, [], ◌∷◌, ◌++◌, length, take, drop, min, ltb, ◌==◌, if◌then◌else◌,
}
use led_display_g6_firmware.Transport.Tx.{Tick, expired, deadline_after}
use led_display_g6_firmware.Transfers.Desk.{Download, send_raw}

abbrev pub download_idle_timeout_ms : ℕ
download_idle_timeout_ms = 60000

abbrev pub chunk_size : ℕ
chunk_size = 4096

-- What a call of serviceDownload meets: the time of the deadline test, how many bytes the card hands
-- over (none at an error or the end), the rounds of the sending loop and the time they start at, and
-- the time afterwards.
pub record DownloadPass : Type 0 where
  pub now : ℕ
  pub got : ℕ
  pub start : ℕ
  pub ticks : List Tick
  pub after : ℕ

-- Closing the file leaves nothing to read.
unfoldable pub end_download : Download → Download
end_download d = record d { file = []; active = false }

-- The fields afterwards, and the raw bytes that went out.
unfoldable pub service_download : DownloadPass → Download → Download × List ℕ
service_download p d =
    let n = min p.got (min d.remaining chunk_size) in
    let chunk = take n d.file in
    let s = send_raw d.source p.ticks p.start chunk in
    let d1 = record d { remaining = d.remaining - length s.sent; file = drop n d.file } in
    let d2 = record d1 { deadline = deadline_after p.after download_idle_timeout_ms } in
    if not d.active
    then (d, [])
    else if expired p.now d.deadline
    then (end_download d, [])
    else if d.remaining == 0
    then (end_download d, [])
    else if length chunk == 0
    then (end_download d, [])
    else if ltb (length s.sent) (length chunk)
    then (end_download d1, s.sent)
    else if d1.remaining == 0
    then (end_download d2, s.sent)
    else (d2, s.sent)

-- The calls from rounds of loop().
unfoldable pub downloads : List DownloadPass → Download → Download × List ℕ
downloads [] d = (d, [])
downloads (p ∷ ps) d =
    let t = service_download p d in let rest = downloads ps t.0 in (rest.0, t.1 ++ rest.1)
