-- ===== src/Transfers/Room.antt =====
-- A read of readBulkBytes keeps the receive buffer within its size, and hands over what is next.
use led_display_g6_firmware.Common.{ℕ, ◌≤◌, Bool, List, ◌++◌, arith}
use led_display_g6_firmware.Transport.Rx.{Rx, consume}
use led_display_g6_firmware.Transport.Buffered.{pending}
use led_display_g6_firmware.Transport.Link.{drain, read_bulk_usb, read_bulk_tcp, top_up}
use led_display_g6_firmware.Transport.Filling.{top_up-Filled}
use led_display_g6_firmware.Transport.Draining.{Handed, read_bulk-Handed}
use led_display_g6_firmware.Transfers.Desk.{Source, net, serial}
use led_display_g6_firmware.Transfers.Upload.{UploadPass, read_bulk}

drain-room :
    (r : Rx) (link : List ℕ) (n size : ℕ) → r.rx_len ≤ size → (drain r link n).rx.rx_len ≤ size
unfolding drain consume
drain-room r link n size h = omega arith

usb-room :
    (size : ℕ) (read : ℕ → ℕ) (r : Rx) (link : List ℕ) (n : ℕ)
    → ((k : ℕ) → read k ≤ k)
    → r.rx_len ≤ size
    → (read_bulk_usb size read r link n).rx.rx_len ≤ size
unfolding read_bulk_usb
usb-room size read r link n most h =
    drain-room (top_up size read r link).0 (top_up size read r link).1 n size
      (top_up-Filled size read r link most h).room

tcp-room :
    (size : ℕ) (read : ℕ → ℕ) (connected : Bool) (r : Rx) (link : List ℕ) (n : ℕ)
    → r.rx_len ≤ size
    → (read_bulk_tcp read connected r link n).rx.rx_len ≤ size
unfolding read_bulk_tcp drain consume
tcp-room size read connected r link n h = ground (arith, h)

pub read_bulk-room :
    (size : ℕ) (p : UploadPass) (s : Source) (r : Rx) (link : List ℕ) (n : ℕ)
    → ((k : ℕ) → p.read k ≤ k)
    → r.rx_len ≤ size
    → (read_bulk size p s r link n).rx.rx_len ≤ size
unfolding read_bulk
read_bulk-room size p net r link n most h = tcp-room size p.read p.connected r link n h
read_bulk-room size p serial r link n most h = usb-room size p.read r link n most h

pub source-Handed :
    (size : ℕ) (p : UploadPass) (s : Source) (r : Rx) (link : List ℕ) (n : ℕ)
    → ((k : ℕ) → p.read k ≤ k)
    → r.rx_len ≤ size
    → Handed n (pending r ++ link) (read_bulk size p s r link n)
unfolding read_bulk
source-Handed size p net r link n most h =
    (read_bulk-Handed size p.read p.connected r link n most h).1
source-Handed size p serial r link n most h =
    (read_bulk-Handed size p.read p.connected r link n most h).0
