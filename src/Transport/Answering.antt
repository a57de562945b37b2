-- ===== src/Transport/Answering.antt =====
-- The frame of sendResponse is read back by a host, and goes out whole or stays queued.
use led_display_g6_firmware.Common.{
  ℕ, ◌+◌, ◌-◌, ◌≤◌, ◌<◌, ◌≡◌, refl, ap, ◌∙◌, List, [], ◌∷◌, ◌++◌, Option, some, none, length, leb,
  ◌&&◌, if◌then◌else◌, arith, take, drop, length-append, take-append, drop-append,
}
use led_display_g6_firmware.Transport.Tx.{send_response}

-- What a host reads of a frame: its status, the command it answers, and the payload.
pub record Answer : Type 0 where
  pub status : ℕ
  pub cmd : ℕ
  pub payload : List ℕ

-- A host takes as many bytes as the length byte says, and leaves the others.
abbrev pub read_answer : List ℕ → Option (Answer × List ℕ)
read_answer (n ∷ status ∷ cmd ∷ bs) =
    if leb 2 n && leb (n - 2) (length bs)
    then some (record { status = status; cmd = cmd; payload = take (n - 2) bs }, drop (n - 2) bs)
    else none
read_answer bs = none

read_whole :
    (n status cmd : ℕ) (bs : List ℕ)
    → n ≤ length bs
    → read_answer ((2 + n) ∷ status ∷ cmd ∷ bs)
      ≡ some (
        record { status = status; cmd = cmd; payload = take (2 + n - 2) bs },
        drop (2 + n - 2) bs,
      )
read_whole n status cmd bs h = ground arith

whole_answer :
    (status cmd : ℕ) (body rest : List ℕ)
    → read_answer ((2 + length body) ∷ status ∷ cmd ∷ (body ++ rest))
      ≡ some (record { status = status; cmd = cmd; payload = body }, rest)
whole_answer status cmd body rest =
    read_whole (length body) status cmd (body ++ rest) (omega (arith, length-append body rest))
    ∙ ap
        (λ (n : ℕ). some (
          record { status = status; cmd = cmd; payload = take n (body ++ rest) },
          drop n (body ++ rest),
        ))
        {y = length body} (omega arith)
    ∙ ap
        (λ (xs : List ℕ).
          some (
            record { status = status; cmd = cmd; payload = xs },
            drop (length body) (body ++ rest),
          ))
        (take-append body rest)
    ∙ ap (λ (xs : List ℕ). some (record { status = status; cmd = cmd; payload = body }, xs))
        (drop-append body rest)

send_response_body :
    (cmd status : ℕ) (payload : List ℕ)
    → length payload < 197
    → send_response cmd status payload ≡ (2 + length payload) ∷ status ∷ cmd ∷ payload
unfolding send_response
send_response_body cmd status [] h = refl
send_response_body cmd status (b ∷ bs) h = ground arith

-- A host reads back the status, the command and the payload of a response whose payload has less
-- than 197 bytes, and then stands before whatever follows the response.
pub read_answer-send_response :
    (cmd status : ℕ) (payload rest : List ℕ)
    → length payload < 197
    → read_answer (send_response cmd status payload ++ rest)
      ≡ some (record { status = status; cmd = cmd; payload = payload }, rest)
read_answer-send_response cmd status payload rest h =
    ap (λ (xs : List ℕ). read_answer (xs ++ rest)) (send_response_body cmd status payload h)
    ∙ whole_answer status cmd payload rest
