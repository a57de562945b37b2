-- ===== src/Display/Playing.antt =====
-- The display stays consistent through the commands and the rounds of the loop.
use native.Mathlib.Nat.{mod-lt}
use led_display_g6_firmware.Common.{
  ℕ, ◌-◌, ◌*◌, ◌%◌, ◌^◌, ◌≤◌, ◌<◌, ◌≡◌, refl, sym, subst, Bool, true, false, not, List, [], length,
  take, get_or, arith, if_intro, option_intro, inl, inr, ◌⊎◌, ltb, leb, ◌==◌, ◌&&◌, ◌||◌,
  if◌then◌else◌, Option,
}
use led_display_g6_firmware.Patterns.Catalog.{Name}
use led_display_g6_firmware.Patterns.Header.{Info, validate_header}
use led_display_g6_firmware.Patterns.Loading.{Playable-block, Playable, validate_header-Described}
use led_display_g6_firmware.Patterns.Opening.{Sd, open_pattern, open_file, same_seek}
use led_display_g6_firmware.Transport.Tx.{deadline_after}
use led_display_g6_firmware.Transfers.Desk.{is_off, show_frame}
use led_display_g6_firmware.Display.Blocks.{Shows}
use led_display_g6_firmware.Display.Player.{
  Board, Moment, Player, Trial, panels, invalidate_frame_buf, disarm_refresh_timer,
  arm_refresh_timer, load_frame, start_trial, enter_pattern_mode, handle_trial_params,
  handle_set_frame_position, can_skip, refresh_armed_at, default_refresh_for,
}
use led_display_g6_firmware.Display.Holding.{
  Base, Lit, on-Lit, arm-Lit, enter_all_off-Lit, show_error-Lit,
}
use led_display_g6_firmware.Display.Loading.{Loaded, load_frame-Loaded}

-- The open pattern can be played on the arena.
abbrev pub Fits : Board → Sd → Type 0
Fits b s = s.file_open ≡ true → Playable b.rows b.cols s.info

open_file-Fits :
    (b : Board) (id : ℕ) (content : List ℕ) (s : Sd)
    → s.file_open ≡ false
    → Fits b (open_file b.rows b.cols id content s).1
      × (((open_file b.rows b.cols id content s).0 == 0) ≡ true
          → (open_file b.rows b.cols id content s).1.file_open ≡ true)
open_file-Fits b id content s closed =
    if_intro P (not (length hdr == 18))
      (λ _. (λ e. absurd (ground (arith, e, closed)), λ e. absurd (ground (arith, e))))
      (λ _.
        if_intro P (not (v.0 == 0))
          (λ k. (λ e. absurd (ground (arith, e, closed)), λ e. absurd (ground (arith, e, k))))
          (λ k. (
            λ e.
                ((validate_header-Described b.rows b.cols hdr s.info).1
                  (ground (arith, k))).playable,
            λ e. refl,
          )))
  where
    P : ℕ × Sd → Type 0
    P t = Fits b t.1 × ((t.0 == 0) ≡ true → t.1.file_open ≡ true)

    hdr : List ℕ
    hdr = take 18 content

    v : ℕ × Info
    v = validate_header b.rows b.cols hdr s.info

-- Opening leaves what can be played open, and something open when it succeeds.
open_pattern-Fits :
    (b : Board) (files : Name → Option (List ℕ)) (id : ℕ) (s : Sd)
    → Fits b s
    → Fits b (open_pattern b.rows b.cols files id s).1
      × (((open_pattern b.rows b.cols files id s).0 == 0) ≡ true
          → (open_pattern b.rows b.cols files id s).1.file_open ≡ true)
unfolding open_pattern
open_pattern-Fits b files id s v =
    if_intro P (not s.mounted) (λ _. (v, λ e. absurd (ground (arith, e))))
      (λ _.
        if_intro P ((id == 0) || ltb (length s.names) id)
          (λ _. (v, λ e. absurd (ground (arith, e))))
          (λ _.
            if_intro P (s.file_open && ((s.open_id == id) && same_seek s))
              (λ k. (v, λ e. ground (arith, k)))
              (λ _.
                option_intro P (files (get_or s.names (id - 1) []))
                  (λ _. (λ e. absurd (ground (arith, e)), λ e. absurd (ground (arith, e))))
                  (λ content _.
                    open_file-Fits b id content (record s { file_open = false }) refl))))
  where
    P : ℕ × Sd → Type 0
    P t = Fits b t.1 × ((t.0 == 0) ≡ true → t.1.file_open ≡ true)

-- What is known of a player behind a load is known of the one before it.
pub Loaded-Base : (b : Board) (p q : Player) → Loaded b p q → Base b p → Base b q
Loaded-Base b p q l v = record {
  shows = subst (Shows (panels b)) (sym l.shown) v.shows;
  file = rw (l.sd) v.file;
  index = rw (l.frame_count, l.cur_frame_index) v.index;
}

block_known : (n : ℕ) → (n ≡ 53) ⊎ (n ≡ 203) → 2 ≤ n
block_known n (inl e) = omega (arith, e)
block_known n (inr e) = omega (arith, e)

module _ (b : Board) (m : Moment) (positive : 0 < panels b) where
  start_trial-Lit :
      (t : Trial) (p : Player)
      → is_off t.mode ≡ false
      → Shows (panels b) p.shown
      → Fits b p.sd
      → p.sd.file_open ≡ true
      → Lit b (start_trial b m t p).1
  start_trial-Lit t p on shown fits is_open =
      if_intro P (not l.0) (λ h. l_ok.0 (ground (arith, h)))
        (λ h.
          let loaded = l_ok.1 (ground (arith, h)) in
          let lit : Lit b ready =
            on-Lit b ready (Loaded-Base b opened l.1 loaded opened-Base) on (rw (loaded.size) size)
              loaded.shows (λ e. rw (loaded.size, loaded.sd) refl) in
          if_intro P (not (arm_refresh_timer m.timer rate ready).0)
            (λ _. enter_all_off-Lit b _ (arm-Lit b m.timer rate ready on lit).base)
            (λ _. arm-Lit b m.timer rate ready on lit))
    where
      P : Bool × Player → Type 0
      P r = Lit b r.1

      info : Info
      info = p.sd.info

      playable : Playable b.rows b.cols info
      playable = fits is_open

      size : 2 ≤ info.block_size
      size = block_known info.block_size (Playable-block b.rows b.cols info playable)

      first : ℕ
      first = if ltb 0 info.frame_count then t.init_frame % info.frame_count else 0

      opened : Player
      opened = record p {
        pattern_id = t.pattern_id;
        frame_count = info.frame_count;
        buffer = record p.buffer { block_byte_count = info.block_size };
        frame_rate_hz = t.frame_rate_hz;
        cur_frame_index = first;
      }

      opened-Base : Base b opened
      opened-Base = record {
        shows = shown;
        file = fits;
        index = λ h. ground (arith, h, mod-lt t.init_frame h);
      }

      l : Bool × Player
      l = load_frame b m first opened

      l_ok : (l.0 ≡ false → Lit b l.1) × (l.0 ≡ true → Loaded b opened l.1)
      l_ok = load_frame-Loaded b m first opened positive opened-Base size refl

      rate : ℕ
      rate =
          if p.refresh_rate_explicit
          then p.refresh_rate_hz
          else default_refresh_for b info.block_size

      ready : Player
      ready = record l.1 {
        refresh_rate_hz = rate;
        last_advance_us = m.now_us % 2 ^ 32;
        trial_end_ms =
            if t.duration_ticks == 0 then 0 else deadline_after m.now_ms (t.duration_ticks * 10);
        state = t.mode;
      }

  enter_pattern_mode-Lit :
      (t : Trial) (p : Player)
      → is_off t.mode ≡ false
      → Base b p
      → Lit b (enter_pattern_mode b m t p).1
  unfolding enter_pattern_mode
  enter_pattern_mode-Lit t p on v =
      if_intro (λ (r : Bool × Player). Lit b r.1) (not (o.0 == 0))
        (λ _.
          show_error-Lit b m o.0 left (record { shows = v.shows; file = fits.0; index = v.index }))
        (λ h. start_trial-Lit t left on v.shows fits.0 (fits.1 (ground (arith, h))))
    where
      o : ℕ × Sd
      o = open_pattern b.rows b.cols m.files t.pattern_id p.sd

      left : Player
      left = record (invalidate_frame_buf (disarm_refresh_timer p)) { sd = o.1 }

      fits : Fits b o.1 × ((o.0 == 0) ≡ true → o.1.file_open ≡ true)
      fits = open_pattern-Fits b m.files t.pattern_id p.sd v.file

  pub handle_trial_params-Lit :
      (t : Trial) (duty : ℕ) (p : Player)
      → is_off t.mode ≡ false
      → Base b p
      → Lit b (handle_trial_params b m t duty p).1
  unfolding handle_trial_params
  handle_trial_params-Lit t duty p on v =
      if_intro (λ (x : Bool × Player). Lit b x.1) r.0 (λ _. ok)
        (λ _. record {
          base = ok.base;
          size = ok.size;
          playing = ok.playing;
          dark = ok.dark;
          still = ok.still;
          duty = λ e. refl;
          loop = ok.loop;
        })
    where
      r : Bool × Player
      r = enter_pattern_mode b m t (record p { trial_duty = duty })

      ok : Lit b r.1
      ok = enter_pattern_mode-Lit t (record p { trial_duty = duty }) on v

  -- The buffer has the block size of the open pattern.
  pub handle_set_frame_position-Lit :
      (index : ℕ) (p : Player)
      → (p.sd.file_open ≡ true → p.buffer.block_byte_count ≡ p.sd.info.block_size)
      → Lit b p
      → Lit b (handle_set_frame_position b m index p).1
  unfolding handle_set_frame_position
  handle_set_frame_position-Lit index p same v =
      if_intro P (not p.sd.file_open) (λ _. show_error-Lit b m 3 p v.base)
        (λ o.
          if_intro P (leb p.frame_count index) (λ _. show_error-Lit b m 3 p v.base)
            (λ h.
              if_intro P (can_skip index p) (λ _. v)
                (λ _.
                  let moved : Player = record p { cur_frame_index = index } in
                  let base : Base b moved = record {
                    shows = v.base.shows;
                    file = v.base.file;
                    index = λ _. ground (arith, h);
                  } in
                  let l_ok =
                    load_frame-Loaded b m index moved positive base v.size
                      (same (ground (arith, o))) in
                  if_intro P (not (load_frame b m index moved).0) (λ k. l_ok.0 (ground (arith, k)))
                    (λ k.
                      let loaded = l_ok.1 (ground (arith, k)) in
                      let lit =
                        on-Lit b (ready moved) (Loaded-Base b moved _ loaded base) refl
                          (rw (loaded.size) v.size) loaded.shows
                          (λ e. absurd (ground (arith, e))) in
                      if_intro P (refresh_armed_at (rate moved) (ready moved)) (λ _. lit)
                        (λ _. arm-Lit b m.timer (rate moved) (ready moved) refl lit)))))
    where
      P : Bool × Player → Type 0
      P r = Lit b r.1

      rate : Player → ℕ
      rate moved =
          if (load_frame b m index moved).1.refresh_rate_explicit
          then (load_frame b m index moved).1.refresh_rate_hz
          else default_refresh_for b (load_frame b m index moved).1.buffer.block_byte_count

      ready : Player → Player
      ready moved = record (load_frame b m index moved).1 {
        state = show_frame;
        refresh_rate_hz = rate moved;
      }
