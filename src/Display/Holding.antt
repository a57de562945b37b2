-- ===== src/Display/Holding.antt =====
-- What holds of the display between two commands or rounds of the loop.
use led_display_g6_firmware.Common.{
  ℕ, zero, suc, ◌+◌, ◌*◌, ◌≤◌, ◌<◌, ◌≡◌, refl, sym, ap, ◌∙◌, subst, Bool, true, false, not, List,
  [], ◌∷◌, ◌++◌, take, arith, take-append, if_intro, ◌==◌, ◌||◌, if◌then◌else◌,
}
use led_display_g6_firmware.Panel.Frame.{
  ValidBlocks, build_error_frame, build_error_frame-ValidBlocks,
}
use led_display_g6_firmware.Patterns.Loading.{Playable}
use led_display_g6_firmware.Patterns.Opening.{Sd}
use led_display_g6_firmware.Transfers.Desk.{ArenaState, is_off, open_loop, closed_loop, all_on}
use led_display_g6_firmware.Display.Buffer.{
  Buffer, fill_frame_buffer_dark, fill_frame_buffer_all_on,
}
use led_display_g6_firmware.Display.Blocks.{
  Row, Shows, Shows-Sized, fill_dark-Shows, Dark, fill_dark-Dark, fill_all_on-Shows,
}
use led_display_g6_firmware.Display.Player.{
  Board, Moment, Player, panels, arm_refresh_timer, disarm_refresh_timer, fill, transfer_frame,
  enter_all_off, enter_all_on, show_error,
}

abbrev pub is_loop : ArenaState → Bool
is_loop open_loop = true
is_loop closed_loop = true
is_loop _ = false

-- What holds whatever is displayed: the panels have got whole valid blocks, the open pattern can be
-- played, and the index names a frame.
pub record Kept (b : Board) (shown : Buffer) (sd : Sd) (frame_count cur_frame_index : ℕ)
    : Type 0 where
  pub shows : Shows (panels b) shown
  pub file : sd.file_open ≡ true → Playable b.rows b.cols sd.info
  pub index : 0 < frame_count → cur_frame_index < frame_count

abbrev pub Base : Board → Player → Type 0
Base b p = Kept b p.shown p.sd p.frame_count p.cur_frame_index

-- The display is consistent: off, the panels hold the dark frame and nothing is refreshed; on, the
-- buffer is whole valid blocks.
pub record Lit (b : Board) (p : Player) : Type 0 where
  pub base : Base b p
  pub size : 2 ≤ p.buffer.block_byte_count
  pub playing : is_off p.state ≡ false → Shows (panels b) p.buffer
  pub dark : is_off p.state ≡ true → Dark (panels b) p.shown
  pub still : is_off p.state ≡ true → p.armed_hz ≡ 0
  pub duty : is_off p.state ≡ true → p.trial_duty ≡ 0
  pub loop : is_loop p.state ≡ true → p.buffer.block_byte_count ≡ p.sd.info.block_size

pub on-Lit :
    (b : Board) (p : Player)
    → Base b p
    → is_off p.state ≡ false
    → 2 ≤ p.buffer.block_byte_count
    → Shows (panels b) p.buffer
    → (is_loop p.state ≡ true → p.buffer.block_byte_count ≡ p.sd.info.block_size)
    → Lit b p
on-Lit b p v on size s l = record {
  base = v;
  size = size;
  playing = λ e. s;
  dark = λ e. absurd (ground (arith, e, on));
  still = λ e. absurd (ground (arith, e, on));
  duty = λ e. absurd (ground (arith, e, on));
  loop = l;
}

-- Arming the timer changes nothing else.
pub arm-Lit :
    (b : Board) (timer : Bool) (hz : ℕ) (p : Player)
    → is_off p.state ≡ false
    → Lit b p
    → Lit b (arm_refresh_timer timer hz p).1
unfolding arm_refresh_timer
arm-Lit b timer hz p on v =
    if_intro P (hz == 0) (λ _. v)
      (λ _.
        if_intro P (p.armed_hz == hz) (λ _. v)
          (λ _.
            if_intro P (not (p.armed_hz == 0)) (λ _. armed hz)
              (λ _. if_intro P (not timer) (λ _. armed 0) (λ _. armed hz))))
  where
    P : Bool × Player → Type 0
    P t = Lit b t.1

    armed : (n : ℕ) → Lit b (record p { armed_hz = n })
    armed n = on-Lit b (record p { armed_hz = n }) v.base on v.size (v.playing on) v.loop

-- Sending the buffer.
sent_whole :
    (n : ℕ) (b : Buffer) (behind : List ℕ)
    → 2 ≤ b.block_byte_count
    → Shows n b
    → take (4 + n * b.block_byte_count) (b.bytes ++ behind) ≡ b.bytes
sent_whole n b behind h s =
    ap (λ (k : ℕ). take k (b.bytes ++ behind)) (sym (Shows-Sized n b h s).size)
    ∙ take-append b.bytes behind

pub transfer-shown :
    (b : Board) (p : Player)
    → 2 ≤ p.buffer.block_byte_count
    → Shows (panels b) p.buffer
    → Shows (panels b) p.shown
    → Shows (panels b) (transfer_frame b p).shown
unfolding transfer_frame
transfer-shown b p h s old =
    if_intro (λ (t : Player). Shows (panels b) t.shown)
      ((size == 53) || ((size == 203) || ((size == 4) || (size == 5))))
      (λ _.
        subst (λ (xs : List ℕ). Shows (panels b) (record p.buffer { bytes = xs }))
          (sym (sent_whole (panels b) p.buffer p.behind h s)) s)
      (λ _. old)
  where
    size : ℕ
    size = p.buffer.block_byte_count

pub transfer-Lit :
    (b : Board) (p : Player) → is_off p.state ≡ false → Lit b p → Lit b (transfer_frame b p)
unfolding transfer_frame
transfer-Lit b p on v =
    if_intro (Lit b) ((size == 53) || ((size == 203) || ((size == 4) || (size == 5))))
      (λ _.
        let sent : Player = record p {
          shown = record {
            block_byte_count = size;
            bytes = take (4 + panels b * size) (p.buffer.bytes ++ p.behind);
          };
        } in
        on-Lit b sent
          (record {
            shows =
                subst (λ (xs : List ℕ). Shows (panels b) (record p.buffer { bytes = xs }))
                  (sym (sent_whole (panels b) p.buffer p.behind v.size (v.playing on)))
                  (v.playing on);
            file = v.base.file;
            index = v.base.index;
          })
          on v.size (v.playing on) v.loop)
      (λ _. v)
  where
    size : ℕ
    size = p.buffer.block_byte_count

pub enter_all_off-Lit : (b : Board) (p : Player) → Base b p → Lit b (enter_all_off b p)
unfolding enter_all_off transfer_frame fill_frame_buffer_dark
enter_all_off-Lit b p v = record {
  base = record {
    shows = subst (Shows (panels b)) (sym whole) (fill_dark-Shows (panels b));
    file = v.file;
    index = v.index;
  };
  size = omega arith;
  playing = λ e. absurd (ground (arith, e));
  dark = λ e. subst (Dark (panels b)) (sym whole) (fill_dark-Dark (panels b));
  still = λ e. refl;
  duty = λ e. refl;
  loop = λ e. absurd (ground (arith, e));
}
  where
    whole : (enter_all_off b p).shown ≡ fill_frame_buffer_dark (panels b)
    whole =
        ap (λ (xs : List ℕ). record { block_byte_count = 53; bytes = xs })
          (sent_whole (panels b) (fill_frame_buffer_dark (panels b)) _ (omega arith)
            (fill_dark-Shows (panels b)))

all_on_size : (n mode : ℕ) → 2 ≤ (fill_frame_buffer_all_on n mode 203).block_byte_count
unfolding fill_frame_buffer_all_on
all_on_size n mode = omega arith

pub enter_all_on-Lit : (b : Board) (m : Moment) (p : Player) → Base b p → Lit b (enter_all_on b m p)
unfolding enter_all_on
enter_all_on-Lit b m p v =
    let rate = if p.refresh_rate_explicit then p.refresh_rate_hz else b.refresh_gs16 in
    let buffer = fill_frame_buffer_all_on (panels b) p.panel_disp_mode 203 in
    let lit : Player = record (fill b buffer (disarm_refresh_timer p)) {
      state = all_on;
      refresh_rate_hz = rate;
    } in
    arm-Lit b m.timer rate lit refl (
      on-Lit b lit v refl (all_on_size (panels b) p.panel_disp_mode)
        (fill_all_on-Shows (panels b) p.panel_disp_mode 203 (omega arith))
        (λ e. absurd (ground (arith, e))))

-- The error frame has such blocks.
ValidBlocks-Row : (n : ℕ) (bs : List ℕ) → ValidBlocks n bs → Row 203 n bs
ValidBlocks-Row zero bs h = h
ValidBlocks-Row (suc n) bs (block, rest, e, l, v, r) =
    (block, rest, e, (l, v), ValidBlocks-Row n rest r)

error-Shows :
    (n code : ℕ) → Shows n (record { block_byte_count = 203; bytes = build_error_frame code n })
error-Shows n code =
    let v = build_error_frame-ValidBlocks code n in
    record {
      prefix = 0x46 ∷ 0x52 ∷ 0 ∷ 0 ∷ [];
      row = v.1.0;
      parts = v.1.1;
      prefix_size = refl;
      accepted = ValidBlocks-Row n v.1.0 v.1.2;
    }

pub show_error-Lit :
    (b : Board) (m : Moment) (code : ℕ) (p : Player) → Base b p → Lit b (show_error b m code p)
unfolding show_error
show_error-Lit b m code p v = arm-Lit b m.timer _ _ refl (
    on-Lit b _ v refl (omega arith) (error-Shows (panels b) code) (λ e. absurd (ground (arith, e))))
