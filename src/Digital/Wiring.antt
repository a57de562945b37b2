-- ===== src/Digital/Wiring.antt =====
-- No line is ever driven from both ends, and its pins fit its role.
use led_display_g6_firmware.Common.{
  ℕ, ◌≡◌, refl, sym, Bool, true, false, not, List, [], ◌∷◌, ◌==◌, ◌&&◌, ◌||◌, if◌then◌else◌, arith,
  if_intro, ltb, ap, Bool-cases, inl, inr,
}
use led_display_g6_firmware.Digital.Lines.{
  DioAnswer, DioRole, in_trigger, out_programmable, is_off_role, is_programmable, is_framescan,
  is_output, Wires, Line, Lines, call, data_write, take_role, on_port, line_of, apply_dio_role,
  begin_lines, write_gate, frame_scan, set_digital_out, set_dio_role, role_of, DioEvent, set_out,
  set_role, scan, happen, happen_all,
}

-- The data pin does not drive the net, or the translator has been told to let go of it.
abbrev pub is_clear : Wires → Bool
is_clear w = not w.data_is_output || (w.dir_is_output && w.dir_level)

abbrev pub all_clear : List Wires → Bool
all_clear [] = true
all_clear (w ∷ ws) = is_clear w && all_clear ws

-- The pins fit the role, a gate is a line of the frame scan, and never was the net driven twice.
pub record Fits (role : DioRole) (wires : Wires) (gate : Bool) (seen : List Wires) : Type 0 where
  pub data_pin : wires.data_is_output ≡ is_output role
  pub turned : wires.dir_is_output ≡ true
  pub translator : wires.dir_level ≡ is_output role
  pub gated : gate ≡ is_framescan role
  pub clear : all_clear seen ≡ true

abbrev pub LineFits : Line → Type 0
LineFits l = Fits l.role l.wires l.gate l.seen

pub record Wired (s : Lines) : Type 0 where
  pub line1 : LineFits s.line1
  pub line2 : LineFits s.line2

-- A line of which it is known that its net is clear now and always was.
pub record Safe (l : Line) : Type 0 where
  pub now : is_clear l.wires ≡ true
  pub clear : all_clear l.seen ≡ true

abbrev pub taken : DioRole → Line → Line
taken role l = record (take_role role l) { gate = is_framescan role }

taken-Fits : (role : DioRole) (l : Line) → Safe l → LineFits (taken role l)
taken-Fits role l v =
    if_intro (λ (t : Line). Fits role t.wires (is_framescan role) t.seen) (is_output role)
      (λ e. record {
        data_pin = sym e;
        turned = refl;
        translator = sym e;
        gated = refl;
        clear = ground (arith, v.now, v.clear);
      })
      (λ e. record {
        data_pin = sym e;
        turned = refl;
        translator = sym e;
        gated = refl;
        clear = ground (arith, v.now, v.clear);
      })

Fits-Safe : (l : Line) → LineFits l → Safe l
Fits-Safe l v = record { now = ground (arith, v.data_pin, v.turned, v.translator); clear = v.clear }

apply_dio_role-Wired :
    (port : ℕ) (role : DioRole) (s : Lines)
    → Safe s.line1
    → Safe s.line2
    → (port == 1 ≡ false → LineFits s.line1)
    → (port == 1 ≡ true → LineFits s.line2)
    → Wired (apply_dio_role port role s)
unfolding apply_dio_role
apply_dio_role-Wired port role s v w f g = elim (Bool-cases (port == 1)) [
  | inl e ↦ rw e (record { line1 = taken-Fits role s.line1 v; line2 = regated s.line2 (g e) })
  | inr e ↦ rw e (record { line1 = regated s.line1 (f e); line2 = taken-Fits role s.line2 w })
]
  where
    regated : (l : Line) → LineFits l → LineFits (record l { gate = is_framescan l.role })
    regated l x = record {
      data_pin = x.data_pin;
      turned = x.turned;
      translator = x.translator;
      gated = refl;
      clear = x.clear;
    }

written-Fits : (level : Bool) (l : Line) → LineFits l → LineFits (call (data_write level) l)
written-Fits level l v = record {
  data_pin = v.data_pin;
  turned = v.turned;
  translator = v.translator;
  gated = v.gated;
  clear = ground (arith, (Fits-Safe l v).now, v.clear);
}

write_gate-Fits : (level : Bool) (l : Line) → LineFits l → LineFits (write_gate level l)
write_gate-Fits level l v = if_intro LineFits l.gate (λ _. written-Fits level l v) (λ _. v)

frame_scan-Wired : (s : Lines) → Wired s → Wired (frame_scan s)
unfolding frame_scan
frame_scan-Wired s v = record {
  line1 = write_gate-Fits false _ (write_gate-Fits true s.line1 v.line1);
  line2 = write_gate-Fits false _ (write_gate-Fits true s.line2 v.line2);
}

changed-Wired :
    (port : ℕ) (role : DioRole) (s : Lines) → Wired s → Wired (apply_dio_role port role s)
changed-Wired port role s v =
    apply_dio_role-Wired port role s (Fits-Safe s.line1 v.line1) (Fits-Safe s.line2 v.line2)
      (λ _. v.line1) (λ _. v.line2)

abbrev Answered : DioAnswer × Lines → Type 0
Answered t = Wired t.1

set_digital_out-Wired :
    (claimed_len channel state : ℕ) (s : Lines)
    → Wired s
    → Wired (set_digital_out claimed_len channel state s).1
unfolding set_digital_out
set_digital_out-Wired claimed_len channel state s v =
    if_intro Answered (not (claimed_len == 3)) (λ _. v)
      (λ _.
        if_intro Answered (not (channel == 1) && not (channel == 2)) (λ _. v)
          (λ _. if_intro Answered (not (is_programmable _)) (λ _. kept) (λ _. written)))
  where
    promoted : Lines
    promoted =
        if is_off_role (line_of channel s).role
        then apply_dio_role channel out_programmable s
        else s

    kept : Wired promoted
    kept =
        if_intro Wired (is_off_role (line_of channel s).role)
          (λ _. changed-Wired channel out_programmable s v) (λ _. v)

    level : Bool
    level = not (state == 0)

    written : Wired (on_port channel (call (data_write level)) promoted)
    written =
        if_intro Wired (channel == 1)
          (λ _. record { line1 = written-Fits level promoted.line1 kept.line1; line2 = kept.line2 })
          (λ _. record { line1 = kept.line1; line2 = written-Fits level promoted.line2 kept.line2 })

set_dio_role-Wired :
    (claimed_len port role : ℕ) (s : Lines)
    → Wired s
    → Wired (set_dio_role claimed_len port role s).1
unfolding set_dio_role
set_dio_role-Wired claimed_len port role s v =
    if_intro Answered (not (claimed_len == 3)) (λ _. v)
      (λ _.
        if_intro Answered (not (port == 1) && not (port == 2)) (λ _. v)
          (λ _.
            if_intro Answered (ltb 3 role) (λ _. v) (λ _. changed-Wired port (role_of role) s v)))

happen-Wired : (e : DioEvent) (s : Lines) → Wired s → Wired (happen e s)
happen-Wired (set_out claimed_len channel state) s v =
    set_digital_out-Wired claimed_len channel state s v
happen-Wired (set_role claimed_len port role) s v = set_dio_role-Wired claimed_len port role s v
happen-Wired scan s v = frame_scan-Wired s v

happen_all-Wired : (es : List DioEvent) (s : Lines) → Wired s → Wired (happen_all es s)
happen_all-Wired [] s v = v
happen_all-Wired (e ∷ es) s v = happen_all-Wired es (happen e s) (happen-Wired e s v)

fresh-Safe : (l : Line) → l.wires.data_is_output ≡ false → l.seen ≡ [] → Safe l
fresh-Safe l e n = record { now = ground (arith, e); clear = ap all_clear n }

begun : (s : Lines) → Safe s.line1 → Safe s.line2 → Wired (begin_lines s)
unfolding apply_dio_role
begun s v w = record {
  line1 = taken-Fits out_programmable s.line1 v;
  line2 = taken-Fits in_trigger s.line2 w;
}

-- When the data pins are inputs at power-on: behind begin, through any commands and frame scans,
-- neither net is ever driven by the data pin while its translator may drive it too, at any call on
-- a pin; the pins fit the role of their line between any two commands, and the gates of the
-- frame scan are the lines of that role.
pub begin_lines-Wired :
    (es : List DioEvent) (s : Lines)
    → s.line1.wires.data_is_output ≡ false
    → s.line2.wires.data_is_output ≡ false
    → s.line1.seen ≡ []
    → s.line2.seen ≡ []
    → Wired (happen_all es (begin_lines s))
begin_lines-Wired es s e1 e2 n1 n2 =
    happen_all-Wired es (begin_lines s)
      (begun s (fresh-Safe s.line1 e1 n1) (fresh-Safe s.line2 e2 n2))
