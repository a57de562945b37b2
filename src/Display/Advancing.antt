-- ===== src/Display/Advancing.antt =====
-- The frame that open-loop playback chooses, against a reference.
use native.Mathlib.Nat.{
  mod-eq_of_lt, div-eq_of_lt, div-eq-sub-div, mod_self, add-mod_right, le-div_iff_mul-le,
}
use led_display_g6_firmware.Common.{
  ℕ, zero, suc, ◌+◌, ◌-◌, ◌*◌, ◌/◌, ◌%◌, ◌^◌, ◌≤◌, ◌<◌, ◌≡◌, refl, sym, ap, ◌∙◌, false, arith, min,
  leb, ltb, ◌==◌, Bool-cases, inl, inr, none, some, ◌||◌, if◌then◌else◌,
}
use led_display_g6_firmware.Display.Player.{Player, forwards, backwards, Rate}
use led_display_g6_firmware.Display.Service.{
  catch_up, step_backwards, magnitude, stepped, open_loop_advance, microseconds_per_second,
}

-- The time since, on a clock of 32 bits.
abbrev pub since : ℕ → ℕ → ℕ
since now last = (now + 2 ^ 32 - last) % 2 ^ 32

since_later :
    (now last period : ℕ)
    → now < 2 ^ 32
    → last < 2 ^ 32
    → period ≤ since now last
    → since now ((last + period) % 2 ^ 32) ≡ since now last - period
since_later now last period h k le = omega arith

catch_up-steps :
    (limit period now last : ℕ)
    → now < 2 ^ 32
    → last < 2 ^ 32
    → 0 < period
    → ((catch_up limit period now last).0 ≡ min limit (since now last / period))
      × ((catch_up limit period now last).1
          ≡ (last + (catch_up limit period now last).0 * period) % 2 ^ 32)
catch_up-steps zero period now last h k q = (omega arith, omega arith)
catch_up-steps (suc limit) period now last h k q = elim (Bool-cases (leb period (since now last))) [
  | inl e ↦
      let le : period ≤ since now last = ground (arith, e) in
      let r = catch_up limit period now ((last + period) % 2 ^ 32) in
      let v = catch_up-steps limit period now ((last + period) % 2 ^ 32) h (omega arith) q in
      let go : catch_up (suc limit) period now last ≡ (suc r.0, r.1) = rw e refl in
      let n : r.0 ≡ min limit ((since now last - period) / period) =
        v.0 ∙ ap (λ (x : ℕ). min limit (x / period)) (since_later now last period h k le) in
      rw go (omega (arith, n, div-eq-sub-div q le), v.1 ∙ omega arith)
  | inr e ↦
      let stop : catch_up (suc limit) period now last ≡ (0, last) = rw e refl in
      rw stop (
        omega (arith, div-eq_of_lt {n = since now last} {m = period} (ground (arith, e))),
        omega arith,
      )
]

step_backwards-mod :
    (count cur steps : ℕ)
    → cur < count
    → steps ≤ count
    → step_backwards count cur steps ≡ (cur + count - steps) % count
step_backwards-mod count cur steps h k = elim (Bool-cases (leb steps cur)) [
  | inl e ↦
      let le : steps ≤ cur = ground (arith, e) in
      rw e (
        ap (λ (x : ℕ). x % count) {x = cur - steps} (refl)
        ∙ sym (add-mod_right (cur - steps) count)
        ∙ ap (λ (x : ℕ). x % count) {x = cur - steps + count} {y = cur + count - steps}
            (omega arith))
  | inr e ↦ rw e (below (ground (arith, e)))
]
  where
    below :
        cur < steps
        → (if (steps - cur) % count == 0 then 0 else count - (steps - cur) % count)
          ≡ (cur + count - steps) % count
    below lt = elim (Bool-cases (ltb (steps - cur) count)) [
      | inl e ↦
          let x : (steps - cur) % count ≡ steps - cur = mod-eq_of_lt (ground (arith, e)) in
          let y : (cur + count - steps) % count ≡ cur + count - steps =
            mod-eq_of_lt (omega (arith, lt, h)) in
          ground (arith, x, y, lt)
      | inr e ↦
          let x : (steps - cur) % count ≡ 0 =
            ap (λ (n : ℕ). n % count) {x = steps - cur} {y = count} (ground (arith, e, h, k))
            ∙ mod_self count in
          let y : (cur + count - steps) % count ≡ 0 =
            ap (λ (n : ℕ). n % count) {x = cur + count - steps} {y = 0} (ground (arith, e, h, k))
            ∙ mod-eq_of_lt (omega (arith, h)) in
          ground (arith, x, y)
    ]

-- The reference: the index modulo the number of frames.
abbrev pub advanced : Rate → ℕ → ℕ → ℕ → ℕ
advanced (forwards r) count cur steps = (cur + steps) % count
advanced (backwards r) count cur steps = (cur + count - steps) % count

stepped-advanced :
    (r : Rate) (count cur steps : ℕ)
    → cur < count
    → steps ≤ count
    → stepped r count cur steps ≡ advanced r count cur steps
stepped-advanced (forwards r) count cur steps h k = refl
stepped-advanced (backwards r) count cur steps h k = step_backwards-mod count cur steps h k

-- When a period of the frame rate has passed, open-loop playback moves on by as many frames as whole
-- periods have passed, but at most by the number of frames, around the pattern, and backwards at a
-- negative rate; the time of the last advance moves by as many periods, on a clock of 32 bits that
-- may wrap around. When no period has passed, nothing moves. The pattern has more than one frame, of
-- which the index names one, and the rate is from 1 to 1000000 frames per second.
pub open_loop_advance-advanced :
    (now_us : ℕ) (p : Player)
    → p.cur_frame_index < p.frame_count
    → p.last_advance_us < 2 ^ 32
    → 0 < magnitude p.frame_rate_hz
    → magnitude p.frame_rate_hz ≤ microseconds_per_second
    → 1 < p.frame_count
    → let period = microseconds_per_second / magnitude p.frame_rate_hz in
      let elapsed = since (now_us % 2 ^ 32) p.last_advance_us in
      let steps = min p.frame_count (elapsed / period) in
      open_loop_advance now_us p ≡ (
        if ltb elapsed period
        then none
        else some (
          advanced p.frame_rate_hz p.frame_count p.cur_frame_index steps,
          (p.last_advance_us + steps * period) % 2 ^ 32,
        ))
unfolding open_loop_advance
open_loop_advance-advanced now_us p h last some_rate fits many = rw moving (
    ap
      (λ (x : ℕ × ℕ).
        if ltb (since (now_us % 2 ^ 32) p.last_advance_us) period then none else some x)
      (ap (λ (x : ℕ). (at t.0, x)) v.1
        ∙ ap (λ (n : ℕ). (at n, (p.last_advance_us + n * period) % 2 ^ 32)) v.0
        ∙ ap (λ (x : ℕ). (x, (p.last_advance_us + steps * period) % 2 ^ 32))
            (stepped-advanced p.frame_rate_hz p.frame_count p.cur_frame_index steps h
              (omega arith))))
  where
    period : ℕ
    period = microseconds_per_second / magnitude p.frame_rate_hz

    positive : 0 < period
    positive = (le-div_iff_mul-le some_rate).1 (omega (arith, fits))

    steps : ℕ
    steps = min p.frame_count (since (now_us % 2 ^ 32) p.last_advance_us / period)

    t : ℕ × ℕ
    t = catch_up p.frame_count period (now_us % 2 ^ 32) p.last_advance_us

    at : ℕ → ℕ
    at n = stepped p.frame_rate_hz p.frame_count p.cur_frame_index n

    v : (t.0 ≡ steps) × (t.1 ≡ (p.last_advance_us + t.0 * period) % 2 ^ 32)
    v =
        catch_up-steps p.frame_count period (now_us % 2 ^ 32) p.last_advance_us (omega arith) last
          positive

    moving : ((magnitude p.frame_rate_hz == 0) || leb p.frame_count 1) ≡ false
    moving = ground (arith, some_rate, many)
