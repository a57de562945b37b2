-- ===== src/Transport/Sending.antt =====
-- The sending loops send a front of the buffer, in order.
use mathlib.Core.List.{append_assoc}
use led_display_g6_firmware.Common.{
  ℕ, ◌≡◌, refl, ap, ◌∙◌, not, List, [], ◌∷◌, ◌++◌, length, take, drop, min, ltb, ◌==◌,
  take-append-drop, if_intro,
}
use led_display_g6_firmware.Transport.Tx.{
  Tick, Sent, and_sent, expired, deadline_after, stall_timeout_ms, send_usb, send_tcp,
}

-- Nothing is lost, sent twice or out of order.
abbrev pub Ordered : List ℕ → Sent → Type 0
Ordered bs s = s.sent ++ s.left ≡ bs

and_sent-Ordered :
    (n : ℕ) (bs : List ℕ) (s : Sent) → Ordered (drop n bs) s → Ordered bs (and_sent (take n bs) s)
and_sent-Ordered n bs s v =
    append_assoc (take n bs) s.sent s.left
    ∙ ap (λ (xs : List ℕ). take n bs ++ xs) v
    ∙ take-append-drop n bs

pub send_usb-Ordered :
    (ticks : List Tick) (deadline : ℕ) (bs : List ℕ) → Ordered bs (send_usb ticks deadline bs)
unfolding send_usb
send_usb-Ordered ticks deadline [] = refl
send_usb-Ordered [] deadline (b ∷ bs) = refl
send_usb-Ordered (t ∷ ticks) deadline (b ∷ bs) =
    if_intro (Ordered (b ∷ bs)) (t.room == 0)
      (λ p.
        if_intro (Ordered (b ∷ bs)) (expired t.now deadline) (λ q. refl)
          (λ q. send_usb-Ordered ticks deadline (b ∷ bs)))
      (λ p.
        and_sent-Ordered (min t.room (length (b ∷ bs))) (b ∷ bs)
          (send_usb ticks (deadline_after t.after stall_timeout_ms)
            (drop (min t.room (length (b ∷ bs))) (b ∷ bs)))
          (send_usb-Ordered ticks (deadline_after t.after stall_timeout_ms)
            (drop (min t.room (length (b ∷ bs))) (b ∷ bs))))

pub send_tcp-Ordered :
    (ticks : List Tick) (deadline : ℕ) (bs : List ℕ) → Ordered bs (send_tcp ticks deadline bs)
unfolding send_tcp
send_tcp-Ordered ticks deadline [] = refl
send_tcp-Ordered [] deadline (b ∷ bs) = refl
send_tcp-Ordered (t ∷ ticks) deadline (b ∷ bs) =
    if_intro (Ordered (b ∷ bs)) (not t.connected) (λ p. refl)
      (λ p.
        if_intro (Ordered (b ∷ bs)) (t.room == 0)
          (λ q.
            if_intro (Ordered (b ∷ bs)) (expired t.now deadline) (λ k. refl)
              (λ k. send_tcp-Ordered ticks deadline (b ∷ bs)))
          (λ q.
            if_intro (Ordered (b ∷ bs)) (ltb 0 n)
              (λ k.
                and_sent-Ordered n (b ∷ bs)
                  (send_tcp ticks (deadline_after t.after stall_timeout_ms) (drop n (b ∷ bs)))
                  (send_tcp-Ordered ticks (deadline_after t.after stall_timeout_ms)
                    (drop n (b ∷ bs))))
              (λ k.
                if_intro (Ordered (b ∷ bs)) (expired t.now deadline) (λ l. refl)
                  (λ l. send_tcp-Ordered ticks deadline (b ∷ bs)))))
  where
    n : ℕ
    n = min t.took (min t.room (length (b ∷ bs)))
