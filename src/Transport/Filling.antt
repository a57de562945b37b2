-- ===== src/Transport/Filling.antt =====
-- Reading from the link moves bytes into the receive buffer: none is lost, added or reordered, and
-- the buffer is not overrun.
use mathlib.Core.List.{append_assoc}
use led_display_g6_firmware.Common.{
  ℕ, ◌+◌, ◌-◌, ◌≤◌, ◌≡◌, refl, ap, ◌∙◌, List, ◌++◌, length, take, drop, min, ltb, arith,
  length-take, take-append-drop, if_intro,
}
use led_display_g6_firmware.Common.Bytes.{
  Memory, poke, bytes_at, bytes_at_cong, bytes_at-poke, poke_below,
}
use led_display_g6_firmware.Transport.Rx.{Rx}
use led_display_g6_firmware.Transport.Buffered.{pending, bytes_at-append, zero_add}
use led_display_g6_firmware.Transport.Link.{receive, top_up}

pending-receive :
    (m : Memory) (len : ℕ) (bs : List ℕ)
    → bytes_at (poke m len bs) 0 (len + length bs) ≡ bytes_at m 0 len ++ bs
pending-receive m len bs =
    bytes_at-append (poke m len bs) 0 len (length bs)
    ∙ ap (λ (xs : List ℕ). xs ++ bytes_at (poke m len bs) (0 + len) (length bs))
        (bytes_at_cong _ _ 0 len (λ x p q. poke_below m len bs x (omega arith)))
    ∙ ap (λ (xs : List ℕ). bytes_at m 0 len ++ xs)
        (ap (λ (n : ℕ). bytes_at (poke m len bs) n (length bs)) (zero_add len)
          ∙ bytes_at-poke m len bs)

-- What a read leaves.
pub record Filled (size : ℕ) (r : Rx) (link : List ℕ) (t : Rx × List ℕ) : Type 0 where
  pub kept : pending t.0 ++ t.1 ≡ pending r ++ link
  pub room : t.0.rx_len ≤ size
  pub ready : t.0.cmd_ready ≡ r.cmd_ready
  pub parsed : t.0.parsed_cmd ≡ r.parsed_cmd

pub still-Filled :
    (size : ℕ) (r : Rx) (link : List ℕ) → r.rx_len ≤ size → Filled size r link (r, link)
still-Filled size r link h = record { kept = refl; room = h; ready = refl; parsed = refl }

pub receive-Filled :
    (size : ℕ) (r : Rx) (link : List ℕ) (n : ℕ)
    → r.rx_len ≤ size
    → n ≤ size - r.rx_len
    → Filled size r link (receive r link n)
receive-Filled size r link n h k = record {
  kept =
      ap (λ (xs : List ℕ). xs ++ drop n link) (pending-receive r.rx_buf r.rx_len (take n link))
      ∙ append_assoc (pending r) (take n link) (drop n link)
      ∙ ap (λ (xs : List ℕ). pending r ++ xs) (take-append-drop n link);
  room = omega (arith, length-take n link);
  ready = refl;
  parsed = refl;
}

pub top_up-Filled :
    (size : ℕ) (read : ℕ → ℕ) (r : Rx) (link : List ℕ)
    → ((n : ℕ) → read n ≤ n)
    → r.rx_len ≤ size
    → Filled size r link (top_up size read r link)
unfolding top_up
top_up-Filled size read r link most h =
    if_intro (Filled size r link) (ltb 0 (length link))
      (λ p.
        if_intro (Filled size r link) (ltb 0 (min (length link) (size - r.rx_len)))
          (λ q.
            receive-Filled size r link _ h
              (omega (arith, most (min (length link) (size - r.rx_len)))))
          (λ q. still-Filled size r link h))
      (λ p. still-Filled size r link h)
