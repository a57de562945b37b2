-- ===== src/Display/Loading.antt =====
-- loadFrame: what is shown of a frame that is read, and the error that is shown otherwise.
use led_display_g6_firmware.Common.{
  ℕ, ◌+◌, ◌*◌, ◌≤◌, ◌<◌, ◌≡◌, refl, sym, ap, ◌∙◌, subst, Bool, true, false, not, List, ◌++◌, length,
  take, drop, arith, take-append, if_intro, ◌==◌, ◌&&◌,
}
use led_display_g6_firmware.Patterns.Header.{Info, read_frame}
use led_display_g6_firmware.Display.Buffer.{Buffer, patch_disp_mode}
use led_display_g6_firmware.Display.Blocks.{
  Shows, patch_disp_mode-Shows, patch_disp_mode-size, patch_trial_duty-Shows, patch_trial_duty-size,
}
use led_display_g6_firmware.Display.Player.{
  Board, Moment, Player, panels, frame_buf_size, load_frame, loaded_buffer, derive_outputs,
  write_dac_mv,
}
use led_display_g6_firmware.Display.Holding.{Base, Lit, show_error-Lit}

-- A frame that is read has come from an open file and is whole.
read_frame-whole :
    (mounted file_open : Bool) (info : Info) (file : List ℕ) (i cap : ℕ)
    → ((read_frame mounted file_open info file i cap).0 == 0) ≡ true
    → (file_open ≡ true)
      × (length (read_frame mounted file_open info file i cap).1
          ≡ 4 + info.num_panels * info.block_size)
unfolding read_frame
read_frame-whole mounted file_open info file i cap h = ground (arith, h)

-- The outputs change nothing of the frame.
derive_intro :
    (P : Bool × Player → Type 0) (dac : Bool) (i : ℕ) (p : Player)
    → ((ok : Bool) (mv : ℕ) → P (ok, record p { ao_mv = mv }))
    → P (derive_outputs dac i p)
derive_intro P dac i p h =
    if_intro P (p.ao_mode == 1) (λ _. wrote _)
      (λ _.
        if_intro P (not (length p.ao_lut == 0) && (p.ao_lut_mode == 0)) (λ _. wrote _)
          (λ _. h true p.ao_mv))
  where
    wrote : (mv : ℕ) → P (write_dac_mv dac mv p)
    wrote mv = if_intro P dac (λ _. h true mv) (λ _. h false p.ao_mv)

-- A frame is loaded: the buffer shows it, and the rest is what it was.
pub record Loaded (b : Board) (p q : Player) : Type 0 where
  pub shows : Shows (panels b) q.buffer
  pub size : q.buffer.block_byte_count ≡ p.buffer.block_byte_count
  pub shown : q.shown ≡ p.shown
  pub sd : q.sd ≡ p.sd
  pub state : q.state ≡ p.state
  pub frame_count : q.frame_count ≡ p.frame_count
  pub cur_frame_index : q.cur_frame_index ≡ p.cur_frame_index

loaded_buffer-size :
    (p : Player) (body : List ℕ)
    → (loaded_buffer p body).block_byte_count ≡ p.buffer.block_byte_count
loaded_buffer-size p body =
    patch_trial_duty-size p.trial_duty _ ∙ patch_disp_mode-size p.panel_disp_mode _

loaded_buffer-Shows :
    (n : ℕ) (p : Player) (body : List ℕ)
    → 0 < n
    → 2 ≤ p.buffer.block_byte_count
    → p.sd.info.num_panels ≡ n
    → length body ≡ 4 + n * p.buffer.block_byte_count
    → Shows n (loaded_buffer p body)
loaded_buffer-Shows n p body positive h grid e =
    patch_trial_duty-Shows n p.trial_duty patched positive
      (subst (λ (k : ℕ). 2 ≤ k) (sym (patch_disp_mode-size p.panel_disp_mode taken)) h)
      (patch_disp_mode-Shows n p.panel_disp_mode taken positive
        (record { block = h; size = whole }))
  where
    rest : List ℕ
    rest = drop (length body) (p.buffer.bytes ++ p.behind)

    taken : Buffer
    taken = record p.buffer {
      bytes = take (4 + p.sd.info.num_panels * p.buffer.block_byte_count) (body ++ rest);
    }

    patched : Buffer
    patched = patch_disp_mode p.panel_disp_mode taken

    whole : length taken.bytes ≡ 4 + n * p.buffer.block_byte_count
    whole =
        ap length (
          ap (λ (k : ℕ). take (4 + k * p.buffer.block_byte_count) (body ++ rest)) grid
          ∙ ap (λ (k : ℕ). take k (body ++ rest)) (sym e)
          ∙ take-append body rest)
        ∙ e

-- Loading succeeds with the frame in the buffer, or fails with the error shown.
pub load_frame-Loaded :
    (b : Board) (m : Moment) (i : ℕ) (p : Player)
    → 0 < panels b
    → Base b p
    → 2 ≤ p.buffer.block_byte_count
    → p.buffer.block_byte_count ≡ p.sd.info.block_size
    → ((load_frame b m i p).0 ≡ false → Lit b (load_frame b m i p).1)
      × ((load_frame b m i p).0 ≡ true → Loaded b p (load_frame b m i p).1)
unfolding load_frame
load_frame-Loaded b m i p positive v h same =
    if_intro P (not (r.0 == 0))
      (λ _. (
        λ e. show_error-Lit b m r.0 (record p { frame_buf_is_frame = false }) v,
        λ e. absurd (ground (arith, e)),
      ))
      (λ k.
        let whole =
          read_frame-whole p.sd.mounted p.sd.file_open p.sd.info p.sd.file i (frame_buf_size b)
            (ground (arith, k)) in
        let grid = (v.file whole.0).grid in
        (
          λ e. absurd (ground (arith, e)),
          λ e.
              derive_intro (λ (t : Bool × Player). Loaded b p (record t.1 { sd_cache_ok = t.0 }))
                m.dac i loaded
                (λ ok mv. record {
                  shows =
                      loaded_buffer-Shows (panels b) p r.1 positive h grid
                        (whole.1 ∙ rw (grid, same) refl);
                  size = loaded_buffer-size p r.1;
                  shown = refl;
                  sd = refl;
                  state = refl;
                  frame_count = refl;
                  cur_frame_index = refl;
                }),
        ))
  where
    P : Bool × Player → Type 0
    P t = (t.0 ≡ false → Lit b t.1) × (t.0 ≡ true → Loaded b p t.1)

    r : ℕ × List ℕ
    r = read_frame p.sd.mounted p.sd.file_open p.sd.info p.sd.file i (frame_buf_size b)

    loaded : Player
    loaded = record p {
      buffer = loaded_buffer p r.1;
      behind =
          drop (4 + p.sd.info.num_panels * p.buffer.block_byte_count)
            (r.1 ++ drop (length r.1) (p.buffer.bytes ++ p.behind));
      frame_buf_is_frame = true;
    }
