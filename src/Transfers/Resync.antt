-- ===== src/Transfers/Resync.antt =====
-- drainBulkData of src/CommandProcessor.cpp: the bytes behind a refused upload are thrown away.
use mathlib.Core.List.{append_assoc}
use led_display_g6_firmware.Common.{
  ℕ, ◌+◌, ◌-◌, ◌%◌, ◌^◌, ◌≤◌, ◌≡◌, refl, sym, ap, ◌∙◌, Bool, true, false, List, [], ◌∷◌, ◌++◌,
  length, min, ltb, ◌==◌, if◌then◌else◌, arith, length-append, length_zero, if_intro,
}
use led_display_g6_firmware.Transport.Rx.{Rx}
use led_display_g6_firmware.Transport.Link.{Bulk}
use led_display_g6_firmware.Transport.Buffered.{pending}
use led_display_g6_firmware.Transport.Draining.{Handed}
use led_display_g6_firmware.Transport.Tx.{millis}
use led_display_g6_firmware.Transfers.Desk.{Source}
use led_display_g6_firmware.Transfers.Upload.{UploadPass, read_bulk}
use led_display_g6_firmware.Transfers.Room.{source-Handed, read_bulk-room}

-- (uint32_t)(millis() - since) > limit
abbrev pub past : ℕ → ℕ → ℕ → Bool
past now since limit = ltb limit ((millis now + 2 ^ 32 - millis since) % 2 ^ 32)

-- What was thrown away, the link afterwards, and whether the loop ended in the rounds given.
pub record Drained : Type 0 where
  pub bulk : Bulk
  pub ended : Bool

abbrev pub drained : Rx → List ℕ → Bool → Drained
drained rx link ended = record { bulk = record { chunk = []; rx = rx; link = link }; ended = ended }

abbrev pub and_drained : List ℕ → Drained → Drained
and_drained chunk r = record r { bulk = record r.bulk { chunk = chunk ++ r.bulk.chunk } }

-- The loop; a round is a pass with the times of its two deadline tests, and `wrote` is not used.
unfoldable pub drain_bulk_data : ℕ → Source → ℕ → List UploadPass → ℕ → ℕ → Rx → List ℕ → Drained
drain_bulk_data size s start [] t0 remaining rx link = drained rx link (remaining == 0)
drain_bulk_data size s start (p ∷ ps) t0 remaining rx link =
    let b = read_bulk size p s rx link (min remaining 256) in
    let on = drain_bulk_data size s start ps p.after (remaining - length b.chunk) b.rx b.link in
    let wait = drain_bulk_data size s start ps t0 remaining b.rx b.link in
    if remaining == 0
    then drained rx link true
    else if past p.now start 15000
    then drained rx link true
    else if ltb 0 (length b.chunk)
    then and_drained b.chunk on
    else if past p.after t0 5000
    then drained b.rx b.link true
    else wait

-- Every round begins within 15 s of the start.
abbrev pub Early : ℕ → List UploadPass → Type 0
Early start [] = true ≡ true
Early start (p ∷ ps) = (past p.now start 15000 ≡ false) × Early start ps

-- At most `remaining` bytes were taken, the next ones of the link in order.
pub record ThrownAway (remaining start : ℕ) (before : List ℕ) (ps : List UploadPass) (r : Drained)
    : Type 0 where
  pub order : r.bulk.chunk ++ (pending r.bulk.rx ++ r.bulk.link) ≡ before
  pub fits : length r.bulk.chunk ≤ remaining
  pub early : r.ended ≡ false → Early start ps

abbrev pub Honest : List UploadPass → Type 0
Honest [] = true ≡ true
Honest (p ∷ ps) = ((k : ℕ) → p.read k ≤ k) × Honest ps

-- Throwing away the bytes of a refused upload takes at most those announced off the link, its next
-- ones in order, and all others stay on it, when a read hands over at most what it is asked for. The
-- loop goes on only while its rounds begin within 15 s of its start, whatever the host sends.
pub drain_bulk_data-ThrownAway :
    (size : ℕ) (s : Source) (start : ℕ) (ps : List UploadPass) (t0 remaining : ℕ) (rx : Rx)
    (link : List ℕ)
    → rx.rx_len ≤ size
    → Honest ps
    → ThrownAway remaining start
        (pending rx ++ link)
        ps
        (drain_bulk_data size s start ps t0 remaining rx link)
unfolding drain_bulk_data
drain_bulk_data-ThrownAway size s start [] t0 remaining rx link h most = record {
  order = refl;
  fits = omega arith;
  early = λ e. refl;
}
drain_bulk_data-ThrownAway size s start (p ∷ ps) t0 remaining rx link h most =
    if_intro P (remaining == 0) (λ _. stopped)
      (λ _.
        if_intro P (past p.now start 15000) (λ _. stopped)
          (λ e.
            if_intro P (ltb 0 (length b.chunk))
              (λ _.
                let v =
                  drain_bulk_data-ThrownAway size s start ps p.after (remaining - length b.chunk)
                    b.rx b.link room most.1 in
                let r =
                  drain_bulk_data size s start ps p.after (remaining - length b.chunk) b.rx
                    b.link in
                record {
                  order =
                      append_assoc b.chunk r.bulk.chunk (pending r.bulk.rx ++ r.bulk.link)
                      ∙ ap (λ (xs : List ℕ). b.chunk ++ xs) v.order
                      ∙ handed.order;
                  fits = omega (arith, v.fits, handed.fits, length-append b.chunk r.bulk.chunk);
                  early = λ a. (e, v.early a);
                })
              (λ k.
                if_intro P (past p.after t0 5000)
                  (λ _. record {
                    order = nothing k;
                    fits = omega arith;
                    early = λ a. absurd (ground (arith, a));
                  })
                  (λ _.
                    let v =
                      drain_bulk_data-ThrownAway size s start ps t0 remaining b.rx b.link room
                        most.1 in
                    record {
                      order = v.order ∙ nothing k;
                      fits = v.fits;
                      early = λ a. (e, v.early a);
                    }))))
  where
    P : Drained → Type 0
    P = ThrownAway remaining start (pending rx ++ link) (p ∷ ps)

    b : Bulk
    b = read_bulk size p s rx link (min remaining 256)

    handed : Handed (min remaining 256) (pending rx ++ link) b
    handed = source-Handed size p s rx link (min remaining 256) most.0 h

    room : b.rx.rx_len ≤ size
    room = read_bulk-room size p s rx link (min remaining 256) most.0 h

    stopped : P (drained rx link true)
    stopped = record { order = refl; fits = omega arith; early = λ a. absurd (ground (arith, a)) }

    nothing : ltb 0 (length b.chunk) ≡ false → pending b.rx ++ b.link ≡ pending rx ++ link
    nothing k =
        ap (λ (xs : List ℕ). xs ++ (pending b.rx ++ b.link))
          (sym (length_zero b.chunk (ground (arith, k))))
        ∙ handed.order
