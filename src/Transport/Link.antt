-- ===== src/Transport/Link.antt =====
-- serviceUsb and readBulkBytes of src/SerialManager.cpp, the receiving part of serviceTcp and
-- readBulkBytes of src/NetworkManager.cpp. `link` is the bytes that stand ready on the link, and
-- `read` is how many of those asked for a read hands over: both belong to the link's driver.
use led_display_g6_firmware.Common.{
  ℕ, ◌+◌, ◌-◌, Bool, false, not, List, [], ◌∷◌, ◌++◌, length, take, drop, min, ltb, ◌==◌, ◌||◌,
  if◌then◌else◌,
}
use led_display_g6_firmware.Common.Bytes.{poke, bytes_at}
use led_display_g6_firmware.Transport.Rx.{Command, Rx, consume, parse_incoming}

-- What a read of `n` bytes from the link leaves.
abbrev pub receive : Rx → List ℕ → ℕ → Rx × List ℕ
receive r link n = (
  record r {
    rx_buf = poke r.rx_buf r.rx_len (take n link);
    rx_len = r.rx_len + length (take n link);
  },
  drop n link,
)

unfoldable pub top_up : ℕ → (ℕ → ℕ) → Rx → List ℕ → Rx × List ℕ
top_up size read r link =
    let to_read = min (length link) (size - r.rx_len) in
    if ltb 0 (length link)
    then (if ltb 0 to_read then receive r link (read to_read) else (r, link))
    else (r, link)

unfoldable pub service_usb : ℕ → (ℕ → ℕ) → Rx → List ℕ → Rx × List ℕ
service_usb size read r link =
    let t = top_up size read r link in
    if r.cmd_ready then (r, link) else if t.0.rx_len == 0 then t else (parse_incoming size t.0, t.1)

-- `connected` is the client's state when it is asked about, first by serviceTcp and, after it may
-- have accepted another client, by parseIncoming.
unfoldable pub service_tcp : ℕ → (ℕ → ℕ) → Bool → Bool → Rx → List ℕ → Rx × List ℕ
service_tcp size read connected connected_then r link =
    let r1 = if connected then r else record r { rx_len = 0; cmd_ready = false } in
    let t =
      if ltb 0 (length link)
      then receive r1 link (read (min (length link) (size - r1.rx_len)))
      else (r1, link) in
    if not connected_then
    then (r1, link)
    else if r1.cmd_ready
    then (r1, link)
    else if t.0.rx_len == 0
    then t
    else (parse_incoming size t.0, t.1)

abbrev pub command_consumed : Rx → Rx
command_consumed r = record r { cmd_ready = false }

-- The bytes handed out, the manager and the link afterwards.
pub record Bulk : Type 0 where
  pub chunk : List ℕ
  pub rx : Rx
  pub link : List ℕ

unfoldable pub drain : Rx → List ℕ → ℕ → Bulk
drain r link max_len =
    let n = min r.rx_len max_len in
    record { chunk = bytes_at r.rx_buf 0 n; rx = consume r n; link = link }

unfoldable pub read_bulk_usb : ℕ → (ℕ → ℕ) → Rx → List ℕ → ℕ → Bulk
read_bulk_usb size read r link max_len = let t = top_up size read r link in drain t.0 t.1 max_len

unfoldable pub read_bulk_tcp : (ℕ → ℕ) → Bool → Rx → List ℕ → ℕ → Bulk
read_bulk_tcp read connected r link max_len =
    let n = read (min (length link) max_len) in
    if ltb 0 r.rx_len
    then drain r link max_len
    else if not connected
    then record { chunk = []; rx = r; link = link }
    else if ltb 0 (length link)
    then record { chunk = take n link; rx = r; link = drop n link }
    else record { chunk = []; rx = r; link = link }

-- A round of loop(): what arrives, and whether the dispatch holds the link's command back because a
-- transfer of this link is under way.
pub record Round : Type 0 where
  pub arrived : List ℕ
  pub held : Bool

abbrev pub arriving : List Round → List ℕ
arriving [] = []
arriving (p ∷ ps) = p.arrived ++ arriving ps

-- What rounds of loop() do: the commands handled, the manager and the link afterwards.
pub record Run : Type 0 where
  pub out : List Command
  pub rx : Rx
  pub link : List ℕ

-- Rounds of loop(): bytes arrive, the manager is serviced, and a command that is ready and not held
-- back is handled and consumed. An upload's header ends the run, not consumed: its handler goes on
-- with this buffer and this link, from which it reads the body.
unfoldable pub rounds : ℕ → (ℕ → ℕ) → Rx → List ℕ → List Round → Run
rounds size read r link [] = record { out = []; rx = r; link = link }
rounds size read r link (p ∷ later) =
    let t = service_usb size read r (link ++ p.arrived) in
    let kept = rounds size read t.0 t.1 later in
    let rest = rounds size read (command_consumed t.0) t.1 later in
    if not t.0.cmd_ready || p.held
    then kept
    else if t.0.parsed_cmd.is_bulk
    then record { out = t.0.parsed_cmd ∷ []; rx = t.0; link = t.1 ++ arriving later }
    else record rest { out = t.0.parsed_cmd ∷ rest.out }
