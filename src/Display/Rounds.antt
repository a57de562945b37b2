-- ===== src/Display/Rounds.antt =====
-- The services of a round of the loop keep the display consistent.
use native.Mathlib.Nat.{mod-lt}
use led_display_g6_firmware.Common.{
  ℕ, ◌+◌, ◌-◌, ◌/◌, ◌%◌, ◌^◌, ◌<◌, ◌≡◌, refl, ap, subst, Bool, true, false, not, arith, if_intro,
  option_intro, Bool-cases, inl, inr, ltb, leb, ◌==◌, ◌||◌, Option, none, some,
}
use led_display_g6_firmware.Transport.Tx.{expired}
use led_display_g6_firmware.Transfers.Desk.{is_off, open_loop, closed_loop, psram_play}
use led_display_g6_firmware.Display.Player.{
  Board, Moment, Player, Rate, forwards, backwards, panels, arm_refresh_timer, show_error,
  load_frame,
}
use led_display_g6_firmware.Display.Service.{
  stepped, step_backwards, open_loop_advance, catch_up, magnitude, service_open_loop,
  service_psram_play, service_trial_timer, transmit_on_refresh, service_closed_loop,
  microseconds_per_second,
}
use led_display_g6_firmware.Display.Holding.{
  is_loop, Base, Lit, on-Lit, transfer-Lit, enter_all_off-Lit,
}
use led_display_g6_firmware.Display.Loading.{Loaded, load_frame-Loaded}
use led_display_g6_firmware.Display.Playing.{Loaded-Base}
use led_display_g6_firmware.Display.Commanding.{psram-Lit}

step_backwards-below : (count cur steps : ℕ) → 0 < count → step_backwards count cur steps < count
step_backwards-below count cur steps h =
    ground (arith, h, mod-lt (cur - steps) h, mod-lt (steps - cur) h)

stepped-below : (r : Rate) (count cur steps : ℕ) → 0 < count → stepped r count cur steps < count
stepped-below (forwards r) count cur steps h = mod-lt (cur + steps) h
stepped-below (backwards r) count cur steps h = step_backwards-below count cur steps h

load_frame-on :
    (b : Board) (m : Moment) (i : ℕ) (p : Player)
    → is_off p.state ≡ false
    → is_off (load_frame b m i p).1.state ≡ false
unfolding load_frame show_error arm_refresh_timer
load_frame-on b m i p on = ground (arith, on)

module _ (b : Board) (m : Moment) (positive : 0 < panels b) where
  -- Another frame of the pattern is loaded while it plays.
  reload-Lit :
      (p : Player) (i last : ℕ)
      → is_loop p.state ≡ true
      → is_off p.state ≡ false
      → (0 < p.frame_count → i < p.frame_count)
      → Lit b p
      → Lit b (load_frame b m i (record p { cur_frame_index = i; last_advance_us = last })).1
        × (is_off
              (load_frame b m i (record p { cur_frame_index = i; last_advance_us = last })).1.state
            ≡ false)
  reload-Lit p i last lp on below v = (
    elim (Bool-cases (load_frame b m i moved).0) [
      | inl e ↦
          let l = l_ok.1 e in
          on-Lit b (load_frame b m i moved).1 (Loaded-Base b moved _ l base) (rw (l.state) on)
            (rw (l.size) v.size) l.shows (λ _. rw (l.size, l.sd) (v.loop lp))
      | inr e ↦ l_ok.0 e
    ],
    load_frame-on b m i moved on,
  )
    where
      moved : Player
      moved = record p { cur_frame_index = i; last_advance_us = last }

      base : Base b moved
      base = record { shows = v.base.shows; file = v.base.file; index = below }

      l_ok :
          ((load_frame b m i moved).0 ≡ false → Lit b (load_frame b m i moved).1)
          × ((load_frame b m i moved).0 ≡ true → Loaded b moved (load_frame b m i moved).1)
      l_ok = load_frame-Loaded b m i moved positive base v.size (v.loop lp)

  pub transmit-Lit :
      (flag : Bool) (p : Player)
      → is_off p.state ≡ false
      → Lit b p
      → Lit b (transmit_on_refresh b flag p)
  transmit-Lit flag p on v = if_intro (Lit b) flag (λ _. transfer-Lit b p on v) (λ _. v)

  pub service_trial_timer-Lit : (p : Player) → Lit b p → Lit b (service_trial_timer b m p)
  unfolding service_trial_timer
  service_trial_timer-Lit p v =
      if_intro (Lit b) (p.trial_end_ms == 0) (λ _. v)
        (λ _.
          if_intro (Lit b) (not (expired m.now_ms p.trial_end_ms)) (λ _. v)
            (λ _. enter_all_off-Lit b (record p { trial_end_ms = 0 }) v.base))

  -- The frame that open-loop playback chooses is one of the pattern's.
  abbrev Below : ℕ → Option (ℕ × ℕ) → Type 0
  Below count none = true ≡ true
  Below count (some t) = t.0 < count

  advance-Below :
      (now : ℕ) (p : Player) → 0 < p.frame_count → Below p.frame_count (open_loop_advance now p)
  unfolding open_loop_advance
  advance-Below now p h =
      if_intro (Below p.frame_count) ((magnitude p.frame_rate_hz == 0) || leb p.frame_count 1)
        (λ _. refl)
        (λ _.
          if_intro (Below p.frame_count)
            (ltb ((now % 2 ^ 32 + 2 ^ 32 - p.last_advance_us) % 2 ^ 32)
              (microseconds_per_second / magnitude p.frame_rate_hz))
            (λ _. refl) (λ _. stepped-below p.frame_rate_hz p.frame_count p.cur_frame_index _ h))

  -- A service of a state that is not off leaves it on and consistent.
  abbrev pub On : Player → Type 0
  On p = Lit b p × (is_off p.state ≡ false)

  pub service_open_loop-On :
      (p : Player) → p.state ≡ open_loop → Lit b p → On (service_open_loop b m p)
  unfolding service_open_loop
  service_open_loop-On p st v =
      option_intro On (open_loop_advance m.now_us p) (λ _. (v, ap is_off st))
        (λ t e.
          reload-Lit p t.0 t.1 (ap is_loop st) (ap is_off st)
            (λ h. subst (Below p.frame_count) e (advance-Below m.now_us p h)) v)

  pub service_closed_loop-On :
      (choice : Option ℕ) (p : Player)
      → p.state ≡ closed_loop
      → Lit b p
      → On (service_closed_loop b m choice p)
  service_closed_loop-On choice p st v =
      option_intro On choice (λ _. (v, ap is_off st))
        (λ i _.
          if_intro On (p.frame_count == 0) (λ _. (v, ap is_off st))
            (λ _.
              reload-Lit p (i % p.frame_count) p.last_advance_us (ap is_loop st) (ap is_off st)
                (λ h. mod-lt i h) v))

  pub service_psram_play-On :
      (p : Player) → p.state ≡ psram_play → Lit b p → On (service_psram_play b m p)
  unfolding service_psram_play
  service_psram_play-On p st v =
      rate_intro p.frame_rate_hz (v, ap is_off st)
        (λ r.
          if_intro On ((r == 0) || leb p.psram_play_count 1) (λ _. (v, ap is_off st))
            (λ _.
              if_intro On (ltb _ _) (λ _. (v, ap is_off st))
                (λ _. (
                  psram-Lit b m positive
                      (record p {
                        last_advance_us = (advance r).1;
                        psram_play_offset =
                            (p.psram_play_offset + (advance r).0) % p.psram_play_count;
                      })
                      _ (mod-lt _ (omega arith)) v.base (ap is_off st) (ap is_loop st),
                  ap is_off st,
                ))))
    where
      advance : ℕ → ℕ × ℕ
      advance r =
          catch_up p.psram_play_count (microseconds_per_second / r) (m.now_us % 2 ^ 32)
            p.last_advance_us

      rate_intro :
          (r : Rate) {x : Player} {y : ℕ → Player}
          → On x
          → ((n : ℕ) → On (y n))
          → On (elim r [ backwards n ↦ x | forwards n ↦ y n ])
      rate_intro (backwards n) f g = f
      rate_intro (forwards n) f g = g n
