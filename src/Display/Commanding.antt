-- ===== src/Display/Commanding.antt =====
-- The commands that show stored frames, stream a frame or set the panel mode keep the display
-- consistent.
use led_display_g6_firmware.Common.{
  ℕ, zero, suc, ◌+◌, ◌-◌, ◌*◌, ◌%◌, ◌^◌, ◌≤◌, ◌<◌, ◌≡◌, refl, ◌∙◌, Bool, true, false, not, List,
  ◌++◌, length, drop, arith, if_intro, option_intro, ltb, ◌==◌, ◌||◌, if◌then◌else◌, some,
}
use led_display_g6_firmware.Transfers.Desk.{is_off, streaming_frame, psram_play}
use led_display_g6_firmware.Display.Buffer.{Buffer, build_psram_frame, patch_disp_mode}
use led_display_g6_firmware.Display.Blocks.{
  Shows, Shows-Sized, patch_disp_mode-Shows, patch_disp_mode-size, build_psram-Shows,
}
use led_display_g6_firmware.Display.Player.{
  Board, Moment, Player, forwards, backwards, panels, fill, invalidate_frame_buf,
  default_refresh_for, disarm_refresh_timer,
}
use led_display_g6_firmware.Display.Service.{
  handle_display_psram_index, handle_psram_play, set_panel_display_mode, set_refresh_rate,
  handle_stream_command, show_stream, stream_block_size, is_streaming,
}
use led_display_g6_firmware.Display.Holding.{is_loop, Base, Lit, on-Lit, arm-Lit, enter_all_off-Lit}

-- The psram opcode's blocks are 4 bytes.
psram_size : (n mode index : ℕ) → (build_psram_frame n mode index).block_byte_count ≡ 4
unfolding build_psram_frame
psram_size n mode index = refl

module _ (b : Board) (m : Moment) (positive : 0 < panels b) where
  -- A frame of stored indices fills the buffer.
  pub psram-Lit :
      (p : Player) (index : ℕ)
      → index < 65536
      → Base b p
      → is_off p.state ≡ false
      → is_loop p.state ≡ false
      → Lit b (fill b (build_psram_frame (panels b) p.panel_disp_mode index) p)
  psram-Lit p index h v on lp =
      on-Lit b _ v on (omega (arith, psram_size (panels b) p.panel_disp_mode index))
        (build_psram-Shows (panels b) p.panel_disp_mode index h)
        (λ e. absurd (ground (arith, e, lp)))

  pub display_psram-Lit :
      (index : ℕ) (p : Player)
      → index < 65536
      → Base b p
      → Lit b (handle_display_psram_index b m index p)
  unfolding handle_display_psram_index
  display_psram-Lit index p h v =
      let filled : Player =
        fill b (build_psram_frame (panels b) p.panel_disp_mode index)
          (record p { psram_start_index = index; psram_play_count = 1; psram_play_offset = 0 }) in
      let rate = if p.refresh_rate_explicit then p.refresh_rate_hz else b.refresh_gs16 in
      let lit : Player = record filled { state = psram_play; refresh_rate_hz = rate } in
      arm-Lit b m.timer rate lit refl (
        on-Lit b lit v refl (omega (arith, psram_size (panels b) p.panel_disp_mode index))
          (build_psram-Shows (panels b) p.panel_disp_mode index h)
          (λ e. absurd (ground (arith, e))))

  abbrev playing : ℕ → ℕ → ℕ → Player → Player
  playing start count fps p =
      record (fill b (build_psram_frame (panels b) p.panel_disp_mode start) p) {
        psram_start_index = start;
        psram_play_count = if count == 0 then 1 else count;
        psram_play_offset = 0;
        frame_rate_hz = if ltb fps 32768 then forwards fps else backwards (65536 - fps);
        state = psram_play;
        last_advance_us = m.now_us % 2 ^ 32;
      }

  pub psram_play-Lit :
      (start count fps : ℕ) (p : Player)
      → start < 65536
      → Base b p
      → Lit b (handle_psram_play b m start count fps p)
  unfolding handle_psram_play
  psram_play-Lit start count fps p h v = arm-Lit b m.timer _ _ refl (
      on-Lit b (playing start count fps p) v refl
        (omega (arith, psram_size (panels b) p.panel_disp_mode start))
        (build_psram-Shows (panels b) p.panel_disp_mode start h) (λ e. absurd (ground (arith, e))))

  -- A refresh rate is set; the timer is left alone when the display is off.
  pub set_refresh_rate-Lit :
      (claimed_len rate : ℕ) (p : Player)
      → Lit b p
      → Lit b (set_refresh_rate m.timer claimed_len rate p).1
  unfolding set_refresh_rate
  set_refresh_rate-Lit claimed_len rate p v =
      if_intro P (not (claimed_len == 3)) (λ _. v)
        (λ _.
          if_intro P (rate == 0) (λ _. v)
            (λ _.
              if_intro P (is_off p.state) (λ _. asked-Lit)
                (λ on. arm-Lit b m.timer rate asked on asked-Lit)))
    where
      P : Bool × Player → Type 0
      P t = Lit b t.1

      asked : Player
      asked = record p { refresh_rate_hz = rate; refresh_rate_explicit = true }

      asked-Lit : Lit b asked
      asked-Lit = record {
        base = v.base;
        size = v.size;
        playing = v.playing;
        dark = v.dark;
        still = v.still;
        duty = v.duty;
        loop = v.loop;
      }

  pub set_mode-Lit : (mode : ℕ) (p : Player) → Lit b p → Lit b (set_panel_display_mode mode p).1
  unfolding set_panel_display_mode
  set_mode-Lit mode p v =
      if_intro (λ (r : Bool × Player). Lit b r.1) (ltb 3 mode) (λ _. v)
        (λ _. record {
          base = v.base;
          size = rw (patch_disp_mode-size mode p.buffer) v.size;
          playing = λ e.
              patch_disp_mode-Shows (panels b) mode p.buffer positive
                (Shows-Sized (panels b) p.buffer v.size (v.playing e));
          dark = v.dark;
          still = v.still;
          duty = v.duty;
          loop = λ e. patch_disp_mode-size mode p.buffer ∙ v.loop e;
        })

  stream_size :
      (size : ℕ) (payload : List ℕ)
      → stream_block_size b payload ≡ some size
      → (2 ≤ size) × (length payload ≡ 4 + panels b * size)
  stream_size size payload e = ground (arith, e)

  show_stream-Lit :
      (size : ℕ) (payload : List ℕ) (p : Player)
      → 2 ≤ size
      → length payload ≡ 4 + panels b * size
      → Lit b p
      → Lit b (show_stream b m size payload p)
  show_stream-Lit size payload p two whole v =
      if_intro (Lit b) (not (is_streaming p.state) || not (rate == p.refresh_rate_hz))
        (λ _.
          arm-Lit b m.timer rate (record (disarm_refresh_timer copied) { state = streaming_frame })
            refl
            (on-Lit b (record (disarm_refresh_timer copied) { state = streaming_frame }) v.base refl
              big shows (λ e. absurd (ground (arith, e)))))
        (λ k.
          on-Lit b copied v.base (streaming_on k) big shows
            (λ e. absurd (omega (arith, streaming_loop k e))))
    where
      rate : ℕ
      rate = if p.refresh_rate_explicit then p.refresh_rate_hz else default_refresh_for b size

      streamed : Buffer
      streamed = record { block_byte_count = size; bytes = payload }

      copied : Player
      copied = record (invalidate_frame_buf p) {
        buffer = patch_disp_mode p.panel_disp_mode streamed;
        behind = drop (length payload) (p.buffer.bytes ++ p.behind);
        refresh_rate_hz = rate;
      }

      big : 2 ≤ (patch_disp_mode p.panel_disp_mode streamed).block_byte_count
      big = rw (patch_disp_mode-size p.panel_disp_mode streamed) two

      shows : Shows (panels b) (patch_disp_mode p.panel_disp_mode streamed)
      shows =
          patch_disp_mode-Shows (panels b) p.panel_disp_mode streamed positive
            (record { block = two; size = whole })

      streaming_on :
          (not (is_streaming p.state) || not (rate == p.refresh_rate_hz)) ≡ false
          → is_off p.state ≡ false
      streaming_on k = ground (arith, k)

      streaming_loop :
          (not (is_streaming p.state) || not (rate == p.refresh_rate_hz)) ≡ false
          → is_loop p.state ≡ true
          → zero ≡ suc zero
      streaming_loop k e = ground (arith, k, e)

  pub stream-Lit :
      (payload : List ℕ) (p : Player) → Lit b p → Lit b (handle_stream_command b m payload p).1
  unfolding handle_stream_command
  stream-Lit payload p v =
      option_intro (λ (r : Bool × Player). Lit b r.1) (stream_block_size b payload)
        (λ _. enter_all_off-Lit b p v.base)
        (λ size e.
          show_stream-Lit size payload p (stream_size size payload e).0
            (stream_size size payload e).1 v)
