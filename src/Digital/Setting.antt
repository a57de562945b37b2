-- ===== src/Digital/Setting.antt =====
-- What SET_DIGITAL_OUT and SET_DIO_ROLE do on each of their branches.
use led_display_g6_firmware.Common.{
  ℕ, zero, suc, ◌≤◌, ltb, [], ◌∷◌, ◌≡◌, refl, sym, ap, subst, ◌∙◌, Bool-cases, Bool, true, false,
  not, ◌==◌, ◌&&◌, ◌||◌, if◌then◌else◌, arith, if_intro, inl, inr,
}
use led_display_g6_firmware.Digital.Lines.{
  DioAnswer, done, wrong_length, wrong_port, role_is, DioRole, off, in_trigger, out_programmable,
  out_framescan, is_off_role, is_programmable, is_framescan, Line, Lines, line_of, apply_dio_role,
  set_digital_out, set_dio_role, get_dio_role, role_of, role_number, on_port, call, data_write,
}
use led_display_g6_firmware.Digital.Wiring.{LineFits, Wired}

abbrev pub other : ℕ → Lines → Line
other port s = if port == 1 then s.line2 else s.line1

-- A line that may be set: it is programmable, or off and becomes so.
abbrev pub settable : DioRole → Bool
settable role = is_off_role role || is_programmable role

abbrev pub accepted : ℕ → ℕ → Lines → Bool
accepted claimed_len channel s =
    (claimed_len == 3) && (((channel == 1) || (channel == 2)) && settable (line_of channel s).role)

abbrev pub is_done : DioAnswer → Bool
is_done done = true
is_done _ = false

-- What becomes of the lines: they are set, or the answer is an error and they are as they were.
pub data Outcome (channel : ℕ) (level : Bool) (s : Lines) : Bool → DioAnswer → Lines → Type 0 where
  is_set :
      (t : Lines)
      → (line_of channel t).role ≡ out_programmable
      → (line_of channel t).wires.data_level ≡ level
      → other channel t ≡ other channel s
      → Outcome channel level s true done t
  is_refused : (a : DioAnswer) → is_done a ≡ false → Outcome channel level s false a s

programmable_unique : (role : DioRole) → is_programmable role ≡ true → role ≡ out_programmable
programmable_unique off e = absurd (ground (arith, e))
programmable_unique in_trigger e = absurd (ground (arith, e))
programmable_unique out_programmable e = refl
programmable_unique out_framescan e = absurd (ground (arith, e))

regated : (l : Line) → LineFits l → record l { gate = is_framescan l.role } ≡ l
regated l v = ap (λ (g : Bool). record l { gate = g }) (sym v.gated)

-- A change of the role of one line leaves the other as it was.
other-apply :
    (port : ℕ) (role : DioRole) (s : Lines)
    → Wired s
    → other port (apply_dio_role port role s) ≡ other port s
unfolding apply_dio_role
other-apply port role s v = elim (Bool-cases (port == 1)) [
  | inl e ↦ rw e (regated s.line2 v.line2)
  | inr e ↦ rw e (regated s.line1 v.line1)
]

role-apply :
    (port : ℕ) (role : DioRole) (s : Lines)
    → (line_of port (apply_dio_role port role s)).role ≡ role
unfolding apply_dio_role
role-apply port role s = elim (Bool-cases (port == 1)) [ inl e ↦ rw e refl | inr e ↦ rw e refl ]

line_of-on_port :
    (port : ℕ) (f : Line → Line) (s : Lines) → line_of port (on_port port f s) ≡ f (line_of port s)
line_of-on_port port f s = elim (Bool-cases (port == 1)) [ inl e ↦ rw e refl | inr e ↦ rw e refl ]

other-on_port :
    (port : ℕ) (f : Line → Line) (s : Lines) → other port (on_port port f s) ≡ other port s
other-on_port port f s = elim (Bool-cases (port == 1)) [ inl e ↦ rw e refl | inr e ↦ rw e refl ]

-- A level written to a programmable line.
written-Outcome :
    (channel : ℕ) (level : Bool) (s t : Lines)
    → (line_of channel t).role ≡ out_programmable
    → other channel t ≡ other channel s
    → Outcome channel level s true done (on_port channel (call (data_write level)) t)
written-Outcome channel level s t role same =
    is_set (on_port channel (call (data_write level)) t)
      (ap (λ (l : Line). l.role) (line_of-on_port channel (call (data_write level)) t) ∙ role)
      (ap (λ (l : Line). l.wires.data_level) (line_of-on_port channel (call (data_write level)) t))
      (other-on_port channel (call (data_write level)) t ∙ same)

answered :
    (claimed_len channel state : ℕ) (s : Lines)
    → Wired s
    → (acc : Bool) → acc ≡ accepted claimed_len channel s
    → let r = set_digital_out claimed_len channel state s in
      Outcome channel (not (state == 0)) s acc r.0 r.1
unfolding set_digital_out
answered claimed_len channel state s v acc is =
    if_intro O (not (claimed_len == 3)) (λ e. refuse wrong_length refl (ground (arith, is, e)))
      (λ three.
        if_intro O (not (channel == 1) && not (channel == 2))
          (λ e. refuse wrong_port refl (ground (arith, is, e)))
          (λ named. elim (Bool-cases (is_off_role (line_of channel s).role)) [
            | inl e ↦ rw e (
                accept (apply_dio_role channel out_programmable s)
                  (role-apply channel out_programmable s) (other-apply channel out_programmable s v)
                  (ground (arith, is, three, named, e)))
            | inr e ↦ rw e (
                if_intro O (not (is_programmable (line_of channel s).role))
                  (λ n. refuse (role_is (line_of channel s).role) refl (ground (arith, is, e, n)))
                  (λ n.
                    accept s (programmable_unique (line_of channel s).role (ground (arith, is, n)))
                      refl (ground (arith, is, three, named, e, n))))
          ]))
  where
    level : Bool
    level = not (state == 0)

    O : DioAnswer × Lines → Type 0
    O t = Outcome channel level s acc t.0 t.1

    refuse : (a : DioAnswer) → is_done a ≡ false → acc ≡ false → O (a, s)
    refuse a n e = subst (λ (x : Bool). Outcome channel level s x a s) (sym e) (is_refused a n)

    accept :
        (t : Lines)
        → (line_of channel t).role ≡ out_programmable
        → other channel t ≡ other channel s
        → acc ≡ true
        → O (done, on_port channel (call (data_write level)) t)
    accept t role same e =
        subst
          (λ (x : Bool).
            Outcome channel level s x done (on_port channel (call (data_write level)) t))
          (sym e) (written-Outcome channel level s t role same)

-- SET_DIGITAL_OUT is done exactly when it has three bytes, names line 1 or 2, and the role of that line
-- is off or programmable. The line is then programmable and at the level asked for, and the other
-- line is as it was. Otherwise the answer is an error and both lines are as they were. The lines are
-- wired as their roles say.
pub set_digital_out-Outcome :
    (claimed_len channel state : ℕ) (s : Lines)
    → Wired s
    → let r = set_digital_out claimed_len channel state s in
      Outcome channel (not (state == 0)) s (accepted claimed_len channel s) r.0 r.1
set_digital_out-Outcome claimed_len channel state s v =
    answered claimed_len channel state s v (accepted claimed_len channel s) refl

role_number-role_of : (n : ℕ) → n ≤ 3 → role_number (role_of n) ≡ n
role_number-role_of zero h = refl
role_number-role_of (suc zero) h = refl
role_number-role_of (suc (suc zero)) h = refl
role_number-role_of (suc (suc (suc zero))) h = refl
role_number-role_of (suc (suc (suc (suc n)))) h = absurd (omega (arith, h))

-- A SET_DIO_ROLE of three bytes with a line of 1 or 2 and a role of at most 3 is done, and GET_DIO_ROLE
-- then gives this role for the line, the role that the other line had, and the two levels read.
pub get_dio_role-set_dio_role :
    (port role : ℕ) (level1 level2 : Bool) (s : Lines)
    → (port == 1) || (port == 2) ≡ true
    → role ≤ 3
    → let r = set_dio_role 3 port role s in
      (r.0 ≡ done)
      × (get_dio_role level1 level2 r.1
          ≡ (if port == 1 then role else role_number s.line1.role)
            ∷ (if level1 then 1 else 0)
            ∷ (if port == 1 then role_number s.line2.role else role)
            ∷ (if level2 then 1 else 0)
            ∷ [])
unfolding set_dio_role apply_dio_role get_dio_role
get_dio_role-set_dio_role port role level1 level2 s named small = elim (Bool-cases (port == 1)) [
  | inl e ↦
      rw (e, fits)
        (
          refl,
          ap (λ (n : ℕ). n ∷ l1 ∷ role_number s.line2.role ∷ l2 ∷ [])
              (role_number-role_of role small),
        )
  | inr e ↦
      rw (e, second e, fits)
        (
          refl,
          ap (λ (n : ℕ). role_number s.line1.role ∷ l1 ∷ n ∷ l2 ∷ [])
              (role_number-role_of role small),
        )
]
  where
    l1 : ℕ
    l1 = if level1 then 1 else 0

    l2 : ℕ
    l2 = if level2 then 1 else 0

    fits : ltb 3 role ≡ false
    fits = ground (arith, small)

    second : port == 1 ≡ false → port == 2 ≡ true
    second e = ground (arith, e, named)
