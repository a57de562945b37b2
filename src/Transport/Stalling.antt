-- ===== src/Transport/Stalling.antt =====
-- The sending loops return in bounded time, across the wrap-around of millis().
use led_display_g6_firmware.Common.{
  ℕ, ◌+◌, ◌*◌, ◌^◌, ◌≤◌, ◌<◌, ◌≡◌, true, false, not, List, [], ◌∷◌, ◌++◌, length, take, drop, min,
  ltb, ◌==◌, if◌then◌else◌, arith, Bool-cases, inl, inr, length-drop, if_intro,
}
use led_display_g6_firmware.Transport.Tx.{
  Tick, Sent, stop, and_sent, expired, deadline_after, send_usb, send_tcp,
}
use led_display_g6_firmware.Transport.Sending.{send_usb-Ordered, send_tcp-Ordered}

-- The deadline test is the comparison of the true times while these are less than 2 ^ 31 apart.
pub expired-true :
    (now t : ℕ)
    → t + 2000 ≤ now
    → now < t + 2000 + 2 ^ 31
    → expired now (deadline_after t 2000) ≡ true
unfolding expired
expired-true now t h k = ground arith

pub expired-false :
    (now t : ℕ) → t ≤ now → now < t + 2000 → expired now (deadline_after t 2000) ≡ false
unfolding expired
expired-false now t h k = ground arith

unexpired :
    (gap now t : ℕ)
    → gap < 2 ^ 29
    → t ≤ now
    → now ≤ t + 2000 + 2 * gap
    → expired now (deadline_after t 2000) ≡ false
    → now < t + 2000
unfolding expired
unexpired gap now t small h k e = ground arith

-- The clock runs, and a round and the pause before it take at most `gap` milliseconds each.
abbrev pub Timed : ℕ → ℕ → List Tick → Type 0
Timed gap prev [] = gap ≡ gap
Timed gap prev (t ∷ ticks) =
    (prev ≤ t.now)
    × (t.now ≤ prev + gap)
    × (t.now ≤ t.after)
    × (t.after ≤ t.now + gap)
    × Timed gap t.after ticks

-- The time at the end of the rounds.
abbrev pub finish : ℕ → List Tick → ℕ
finish prev [] = prev
finish prev (t ∷ ticks) = finish t.after ticks

-- Within this time of the last write the loop has returned.
abbrev pub patience : ℕ → ℕ → ℕ
patience gap n = 2000 + gap + n * (2000 + 3 * gap)

fewer : (gap n m : ℕ) → n < m → patience gap n + (2000 + 3 * gap) ≤ patience gap m
fewer gap n m h = grind arith

abbrev Bounded : ℕ → ℕ → ℕ → ℕ → Sent → Type 0
Bounded gap wrote end n s = s.returned ≡ false → end ≤ wrote + patience gap n

-- Time enough was left after a write.
module _ (gap wrote prev after end : ℕ) (soon : prev ≤ wrote + 2000 + gap)
    (late : after ≤ prev + 2 * gap) where
  wrote-Bounded :
      (n : ℕ) (bs : List ℕ) (s : Sent)
      → 0 < n
      → 0 < length bs
      → Bounded gap after end (length (drop n bs)) s
      → Bounded gap wrote end (length bs) s
  wrote-Bounded n bs s some more h e = omega (
    arith,
    h e,
    fewer gap (length (drop n bs)) (length bs) (omega (arith, length-drop n bs)),
    soon,
    late,
  )

usb-Bounded :
    (gap : ℕ) (ticks : List Tick) (prev wrote : ℕ) (bs : List ℕ)
    → gap < 2 ^ 29
    → wrote ≤ prev
    → prev ≤ wrote + 2000 + gap
    → Timed gap prev ticks
    → Bounded gap wrote
        (finish prev ticks)
        (length bs)
        (send_usb ticks (deadline_after wrote 2000) bs)
unfolding send_usb
usb-Bounded gap ticks prev wrote [] small past soon timed = λ e. absurd (ground (arith, e))
usb-Bounded gap [] prev wrote (b ∷ bs) small past soon timed = λ e. omega arith
usb-Bounded gap (t ∷ ticks) prev wrote (b ∷ bs) small past soon (c0, c1, c2, c3, timed) =
    if_intro P (t.room == 0)
      (λ p.
        if_intro P (expired t.now (deadline_after wrote 2000)) (λ q e. absurd (ground (arith, e)))
          (λ q.
            usb-Bounded gap ticks t.after wrote (b ∷ bs) small (omega arith)
              (omega (arith, unexpired gap t.now wrote small (omega arith) (omega arith) q)) timed))
      (λ p.
        wrote-Bounded gap wrote prev t.after (finish t.after ticks) soon (omega arith) n (b ∷ bs)
          (and_sent (take n (b ∷ bs))
            (send_usb ticks (deadline_after t.after 2000) (drop n (b ∷ bs))))
          (ground (arith, p)) (omega arith)
          (usb-Bounded gap ticks t.after t.after (drop n (b ∷ bs)) small (omega arith) (omega arith)
            timed))
  where
    P : Sent → Type 0
    P = Bounded gap wrote (finish t.after ticks) (length (b ∷ bs))

    n : ℕ
    n = min t.room (length (b ∷ bs))

tcp-Bounded :
    (gap : ℕ) (ticks : List Tick) (prev wrote : ℕ) (bs : List ℕ)
    → gap < 2 ^ 29
    → wrote ≤ prev
    → prev ≤ wrote + 2000 + gap
    → Timed gap prev ticks
    → Bounded gap wrote
        (finish prev ticks)
        (length bs)
        (send_tcp ticks (deadline_after wrote 2000) bs)
unfolding send_tcp
tcp-Bounded gap ticks prev wrote [] small past soon timed = λ e. absurd (ground (arith, e))
tcp-Bounded gap [] prev wrote (b ∷ bs) small past soon timed = λ e. omega arith
tcp-Bounded gap (t ∷ ticks) prev wrote (b ∷ bs) small past soon (c0, c1, c2, c3, timed) =
    if_intro P (not t.connected) (λ p e. absurd (ground (arith, e)))
      (λ p.
        if_intro P (t.room == 0)
          (λ q. spun (λ q.
            tcp-Bounded gap ticks t.after wrote (b ∷ bs) small (omega arith)
              (omega (arith, unexpired gap t.now wrote small (omega arith) (omega arith) q)) timed))
          (λ q.
            if_intro P (ltb 0 n)
              (λ k.
                wrote-Bounded gap wrote prev t.after (finish t.after ticks) soon (omega arith) n
                  (b ∷ bs)
                  (and_sent (take n (b ∷ bs))
                    (send_tcp ticks (deadline_after t.after 2000) (drop n (b ∷ bs))))
                  (ground (arith, k)) (omega arith)
                  (tcp-Bounded gap ticks t.after t.after (drop n (b ∷ bs)) small (omega arith)
                    (omega arith) timed))
              (λ k. spun (λ q.
                tcp-Bounded gap ticks t.after wrote (b ∷ bs) small (omega arith)
                  (omega (arith, unexpired gap t.now wrote small (omega arith) (omega arith) q))
                  timed))))
  where
    P : Sent → Type 0
    P = Bounded gap wrote (finish t.after ticks) (length (b ∷ bs))

    n : ℕ
    n = min t.took (min t.room (length (b ∷ bs)))

    waiting : Sent
    waiting = send_tcp ticks (deadline_after wrote 2000) (b ∷ bs)

    spun :
        (expired t.now (deadline_after wrote 2000) ≡ false → P waiting)
        → P (if expired t.now (deadline_after wrote 2000) then stop (b ∷ bs) else waiting)
    spun h =
        if_intro P (expired t.now (deadline_after wrote 2000)) (λ q e. absurd (ground (arith, e))) h

-- What a sending loop does with the rounds it is given, starting at `start`.
pub record SendsFront (gap start : ℕ) (ticks : List Tick) (bs : List ℕ) (s : Sent) : Type 0 where
  pub order : s.sent ++ s.left ≡ bs
  pub returns : start + patience gap (length bs) < finish start ticks → s.returned ≡ true

returns_late :
    (gap start end n : ℕ) (s : Sent)
    → Bounded gap start end n s
    → start + patience gap n < end
    → s.returned ≡ true
returns_late gap start end n s h k = elim (Bool-cases s.returned) [
  | inl e ↦ e
  | inr e ↦ absurd (omega (arith, h e))
]

-- Either loop of sendRaw sends a front of the buffer in order, and has returned before the clock
-- passes a bound that the length of the buffer gives, when a round and the pause before it take at
-- most `gap` milliseconds each: a host that stops reading, or reads a byte at a time, cannot hold
-- it. The clock may wrap around.
pub send_raw-SendsFront :
    (gap start : ℕ) (ticks : List Tick) (bs : List ℕ)
    → gap < 2 ^ 29
    → Timed gap start ticks
    → SendsFront gap start ticks bs (send_usb ticks (deadline_after start 2000) bs)
      × SendsFront gap start ticks bs (send_tcp ticks (deadline_after start 2000) bs)
send_raw-SendsFront gap start ticks bs small timed = (
  record {
    order = send_usb-Ordered ticks (deadline_after start 2000) bs;
    returns =
        returns_late gap start (finish start ticks) (length bs)
          (send_usb ticks (deadline_after start 2000) bs)
          (usb-Bounded gap ticks start start bs small (omega arith) (omega arith) timed);
  },
  record {
    order = send_tcp-Ordered ticks (deadline_after start 2000) bs;
    returns =
        returns_late gap start (finish start ticks) (length bs)
          (send_tcp ticks (deadline_after start 2000) bs)
          (tcp-Bounded gap ticks start start bs small (omega arith) (omega arith) timed);
  },
)
