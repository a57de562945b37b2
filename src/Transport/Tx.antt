-- ===== src/Transport/Tx.antt =====
-- sendResponse, flushResponses and sendRaw of src/SerialManager.cpp and of src/NetworkManager.cpp.
-- The queued response is the list of its bytes. A round of a sending loop sees what the driver says
-- in it; times are milliseconds since the start, of which millis() shows the low 32 bits.
use led_display_g6_firmware.Common.{
  ℕ, ◌+◌, ◌-◌, ◌%◌, ◌^◌, Bool, true, false, not, List, [], ◌∷◌, ◌++◌, length, take, drop, min, ltb,
  ◌==◌, ◌&&◌, if◌then◌else◌,
}

abbrev pub resp_buf_size : ℕ
resp_buf_size = 200

-- sendResponse, which both managers have alike. Without a payload pointer `payload` is empty.
unfoldable pub send_response : ℕ → ℕ → List ℕ → List ℕ
send_response cmd_echo status payload =
    let body =
      if ltb 0 (length payload) && ltb (3 + length payload) resp_buf_size then payload else [] in
    (2 + length body) ∷ status ∷ cmd_echo ∷ body

-- What is still queued, and what went out: `room` is availableForWrite().
unfoldable pub flush_usb : ℕ → List ℕ → List ℕ × List ℕ
flush_usb room resp =
    if length resp == 0
    then (resp, [])
    else if ltb room (length resp)
    then (resp, [])
    else ([], resp)

unfoldable pub flush_tcp : Bool → List ℕ → List ℕ × List ℕ
flush_tcp connected resp =
    if not connected then (resp, []) else if length resp == 0 then (resp, []) else ([], resp)

-- A round of a sending loop: availableForWrite(), which counts as 0 below 0; the time when a full
-- queue is looked at; whether the client is connected and how many bytes it took; the time when the
-- loop goes on.
pub record Tick : Type 0 where
  pub room : ℕ
  pub now : ℕ
  pub connected : Bool
  pub took : ℕ
  pub after : ℕ

abbrev pub stall_timeout_ms : ℕ
stall_timeout_ms = 2000

abbrev pub millis : ℕ → ℕ
millis t = t % 2 ^ 32

abbrev pub deadline_after : ℕ → ℕ → ℕ
deadline_after t timeout = (millis t + timeout) % 2 ^ 32

-- (int32_t)(millis() - deadline) >= 0
unfoldable pub expired : ℕ → ℕ → Bool
expired now deadline = ltb ((millis now + 2 ^ 32 - deadline) % 2 ^ 32) (2 ^ 31)

-- What went out, what did not, and whether the loop returned within the rounds given.
pub record Sent : Type 0 where
  pub sent : List ℕ
  pub left : List ℕ
  pub returned : Bool

abbrev pub stop : List ℕ → Sent
stop left = record { sent = []; left = left; returned = true }

abbrev pub cut_off : List ℕ → Sent
cut_off left = record { sent = []; left = left; returned = false }

abbrev pub and_sent : List ℕ → Sent → Sent
and_sent bs s = record s { sent = bs ++ s.sent }

-- The loop of SerialManager::sendRaw.
unfoldable pub send_usb : List Tick → ℕ → List ℕ → Sent
send_usb ticks deadline [] = stop []
send_usb [] deadline (b ∷ bs) = cut_off (b ∷ bs)
send_usb (t ∷ ticks) deadline (b ∷ bs) =
    let n = min t.room (length (b ∷ bs)) in
    let spun = send_usb ticks deadline (b ∷ bs) in
    let wrote = send_usb ticks (deadline_after t.after stall_timeout_ms) (drop n (b ∷ bs)) in
    if t.room == 0
    then (if expired t.now deadline then stop (b ∷ bs) else spun)
    else and_sent (take n (b ∷ bs)) wrote

-- The loop of NetworkManager::sendRaw.
unfoldable pub send_tcp : List Tick → ℕ → List ℕ → Sent
send_tcp ticks deadline [] = stop []
send_tcp [] deadline (b ∷ bs) = cut_off (b ∷ bs)
send_tcp (t ∷ ticks) deadline (b ∷ bs) =
    let n = min t.took (min t.room (length (b ∷ bs))) in
    let spun = send_tcp ticks deadline (b ∷ bs) in
    let wrote = send_tcp ticks (deadline_after t.after stall_timeout_ms) (drop n (b ∷ bs)) in
    if not t.connected
    then stop (b ∷ bs)
    else if t.room == 0
    then (if expired t.now deadline then stop (b ∷ bs) else spun)
    else if ltb 0 n
    then and_sent (take n (b ∷ bs)) wrote
    else if expired t.now deadline
    then stop (b ∷ bs)
    else spun
