-- ===== src/Display/Stepping.antt =====
-- The commands and the rounds of the loop in any order, as a relation on the display's states.
use led_display_g6_firmware.Common.{
  ℕ, ◌<◌, ◌≡◌, refl, ap, Bool, true, false, List, arith, if_intro, Option, none,
}
use led_display_g6_firmware.Transport.Tx.{expired}
use led_display_g6_firmware.Transfers.Desk.{
  ArenaState, is_off, all_off, all_on, streaming_frame, open_loop, show_frame, closed_loop,
  psram_play, error_display,
}
use led_display_g6_firmware.Display.Player.{
  Board, Moment, Player, Trial, panels, enter_all_off, enter_all_on, handle_trial_params,
  handle_set_frame_position, show_error,
}
use led_display_g6_firmware.Display.Service.{
  transmit_on_refresh, service_state, service_display, handle_display_psram_index,
  handle_psram_play, set_panel_display_mode, set_refresh_rate, handle_stream_command,
}
use led_display_g6_firmware.Display.Holding.{
  Lit, show_error-Lit, enter_all_off-Lit, enter_all_on-Lit,
}
use led_display_g6_firmware.Display.Playing.{handle_trial_params-Lit, handle_set_frame_position-Lit}
use led_display_g6_firmware.Display.Commanding.{
  display_psram-Lit, psram_play-Lit, set_mode-Lit, set_refresh_rate-Lit, stream-Lit,
}
use led_display_g6_firmware.Display.Rounds.{
  transmit-Lit, service_trial_timer-Lit, service_open_loop-On, service_closed_loop-On,
  service_psram_play-On,
}

state_intro :
    (P : Player → Type 0) (x : ArenaState) {off on stream loop show closed play error : Player}
    → (x ≡ all_off → P off)
    → (x ≡ all_on → P on)
    → (x ≡ streaming_frame → P stream)
    → (x ≡ open_loop → P loop)
    → (x ≡ show_frame → P show)
    → (x ≡ closed_loop → P closed)
    → (x ≡ psram_play → P play)
    → (x ≡ error_display → P error)
    → P (elim x [
      | all_off ↦ off
      | all_on ↦ on
      | streaming_frame ↦ stream
      | show_frame ↦ show
      | open_loop ↦ loop
      | closed_loop ↦ closed
      | psram_play ↦ play
      | error_display ↦ error
    ])
state_intro P all_off a b c d e f g h = a refl
state_intro P all_on a b c d e f g h = b refl
state_intro P streaming_frame a b c d e f g h = c refl
state_intro P open_loop a b c d e f g h = d refl
state_intro P show_frame a b c d e f g h = e refl
state_intro P closed_loop a b c d e f g h = f refl
state_intro P psram_play a b c d e f g h = g refl
state_intro P error_display a b c d e f g h = h refl

service_state-Lit :
    (b : Board) (m : Moment) (flag : Bool) (choice : Option ℕ) (p : Player)
    → 0 < panels b
    → Lit b p
    → Lit b (service_state b m flag choice p)
service_state-Lit b m flag choice p positive v =
    state_intro (Lit b) p.state (λ _. v) (λ e. transmit-Lit b m positive flag p (ap is_off e) v)
      (λ e. transmit-Lit b m positive flag p (ap is_off e) v)
      (λ e.
        let t = service_open_loop-On b m positive p e v in transmit-Lit b m positive flag _ t.1 t.0)
      (λ e. transmit-Lit b m positive flag p (ap is_off e) v)
      (λ e.
        let t = service_closed_loop-On b m positive choice p e v in
        transmit-Lit b m positive flag _ t.1 t.0)
      (λ e.
        let t = service_psram_play-On b m positive p e v in
        transmit-Lit b m positive flag _ t.1 t.0)
      (λ e.
        let sent = transmit-Lit b m positive flag p (ap is_off e) v in
        if_intro (Lit b) (expired m.now_ms (transmit_on_refresh b flag p).error_until_ms)
          (λ _. enter_all_off-Lit b (transmit_on_refresh b flag p) sent.base) (λ _. sent))

-- What may happen to the display. A frame position comes while the buffer has the block size of the
-- open pattern; the modes of a trial are not ALL_OFF; the operations on the card's library may close the
-- open pattern.
pub data Step (b : Board) : Player → Player → Type 0 where
  stop : (p : Player) → Step b p (enter_all_off b p)
  light : (m : Moment) (p : Player) → Step b p (enter_all_on b m p)
  stream :
      (m : Moment) (payload : List ℕ) (p : Player)
      → Step b p (handle_stream_command b m payload p).1
  trial :
      (m : Moment) (t : Trial) (duty : ℕ) (p : Player)
      → is_off t.mode ≡ false
      → Step b p (handle_trial_params b m t duty p).1
  position :
      (m : Moment) (index : ℕ) (p : Player)
      → (p.sd.file_open ≡ true → p.buffer.block_byte_count ≡ p.sd.info.block_size)
      → Step b p (handle_set_frame_position b m index p).1
  stored :
      (m : Moment) (index : ℕ) (p : Player)
      → index < 65536
      → Step b p (handle_display_psram_index b m index p)
  play :
      (m : Moment) (start count fps : ℕ) (p : Player)
      → start < 65536
      → Step b p (handle_psram_play b m start count fps p)
  rate :
      (m : Moment) (claimed_len hz : ℕ) (p : Player)
      → Step b p (set_refresh_rate m.timer claimed_len hz p).1
  glyph : (m : Moment) (code : ℕ) (p : Player) → Step b p (show_error b m code p)
  mode : (n : ℕ) (p : Player) → Step b p (set_panel_display_mode n p).1
  round :
      (m : Moment) (flag : Bool) (choice : Option ℕ) (p : Player)
      → Step b p (service_display b m flag choice p)
  close : (p : Player) → Step b p (record p { sd = record p.sd { file_open = false } })

pub data Reach (b : Board) (s : Player) : Player → Type 0 where
  here : Reach b s s
  next : {p q : Player} → Reach b s p → Step b p q → Reach b s q

closed-Lit :
    (b : Board) (p : Player) → Lit b p → Lit b (record p { sd = record p.sd { file_open = false } })
closed-Lit b p v = record {
  base = record {
    shows = v.base.shows;
    file = λ e. absurd (ground (arith, e));
    index = v.base.index;
  };
  size = v.size;
  playing = v.playing;
  dark = v.dark;
  still = v.still;
  duty = v.duty;
  loop = v.loop;
}

step-Lit : {b : Board} {p q : Player} → 0 < panels b → Step b p q → Lit b p → Lit b q
unfolding service_display
step-Lit {b} n (stop p) v = enter_all_off-Lit b p v.base
step-Lit {b} n (light m p) v = enter_all_on-Lit b m p v.base
step-Lit {b} n (stream m payload p) v = stream-Lit b m n payload p v
step-Lit {b} n (trial m t duty p on) v = handle_trial_params-Lit b m n t duty p on v.base
step-Lit {b} n (position m index p same) v = handle_set_frame_position-Lit b m n index p same v
step-Lit {b} n (stored m index p h) v = display_psram-Lit b m n index p h v.base
step-Lit {b} n (play m start count fps p h) v = psram_play-Lit b m n start count fps p h v.base
step-Lit {b} n (rate m claimed_len hz p) v = set_refresh_rate-Lit b m n claimed_len hz p v
step-Lit {b} n (glyph m code p) v = show_error-Lit b m code p v.base
step-Lit {b} n (mode k p) v =
    set_mode-Lit b (record { now_ms = 0; now_us = 0; files = λ _. none; dac = true; timer = true })
      n k p v
step-Lit {b} n (round m flag choice p) v =
    service_state-Lit b m flag choice _ n (service_trial_timer-Lit b m n p v)
step-Lit {b} n (close p) v = closed-Lit b p v

-- From a consistent state, any sequence of display commands (refresh rates and commands that raise
-- the error glyph included), rounds of serviceDisplay (in Mode 4 with any choice of a frame) and closings
-- of the pattern leads to consistent states only, when each frame position comes while the buffer has the
-- block size of the open pattern: in ALL_OFF the last frame sent has a two-level persistent block of
-- valid parity for each panel, with every bit of the picture and the duty 0, no refresh timer runs
-- and no trial's duty is kept; in every other state the buffer is whole blocks of valid parity, one for
-- each panel, of the block size; whatever was last sent to the panels was such a frame; and the index
-- names a frame of the pattern.
pub Reach-Lit : {b : Board} {s p : Player} → 0 < panels b → Lit b s → Reach b s p → Lit b p
Reach-Lit n v here = v
Reach-Lit n v (next r st) = step-Lit n st (Reach-Lit n v r)
