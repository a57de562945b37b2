-- ===== src/Digital/Lines.antt =====
-- The roles of the two digital lines in src/CommandProcessor.cpp, and the frame-scan gates of
-- src/SpiManager.cpp that follow them. Of a pin there is what was last asked of it by pinMode and
-- digitalWrite; what digitalRead gives is an argument.
use led_display_g6_firmware.Common.{
  ℕ, Bool, true, false, not, List, [], ◌∷◌, ltb, ◌==◌, ◌&&◌, ◌||◌, if◌then◌else◌,
}

pub data DioRole : Type 0 where
  off : DioRole
  in_trigger : DioRole
  out_programmable : DioRole
  out_framescan : DioRole

abbrev pub is_off_role : DioRole → Bool
is_off_role off = true
is_off_role _ = false

abbrev pub is_programmable : DioRole → Bool
is_programmable out_programmable = true
is_programmable _ = false

abbrev pub is_framescan : DioRole → Bool
is_framescan out_framescan = true
is_framescan _ = false

abbrev pub is_output : DioRole → Bool
is_output role = is_programmable role || is_framescan role

abbrev pub role_number : DioRole → ℕ
role_number off = 0
role_number in_trigger = 1
role_number out_programmable = 2
role_number out_framescan = 3

-- The cast of a byte of at most 3.
abbrev pub role_of : ℕ → DioRole
role_of n =
    if n == 0
    then off
    else if n == 1
    then in_trigger
    else if n == 2
    then out_programmable
    else out_framescan

-- The data pin of a port and the pin that turns its translator around.
pub record Wires : Type 0 where
  pub data_is_output : Bool
  pub data_level : Bool
  pub dir_is_output : Bool
  pub dir_level : Bool

-- A port; `seen` is what its wires were after each call on a pin, the last first, and `gate` whether
-- SpiManager has its pin as a gate.
pub record Line : Type 0 where
  pub role : DioRole
  pub wires : Wires
  pub gate : Bool
  pub seen : List Wires

pub record Lines : Type 0 where
  pub line1 : Line
  pub line2 : Line

abbrev pub call : (Wires → Wires) → Line → Line
call f l = record l { wires = f l.wires; seen = f l.wires ∷ l.seen }

abbrev pub dir_output : Wires → Wires
dir_output w = record w { dir_is_output = true }

abbrev pub dir_write : Bool → Wires → Wires
dir_write level w = record w { dir_level = level }

abbrev pub data_mode : Bool → Wires → Wires
data_mode output w = record w { data_is_output = output }

abbrev pub data_write : Bool → Wires → Wires
data_write level w = record w { data_level = level }

-- The calls of applyDioRole on the pins of a port, in their order.
abbrev pub take_role : DioRole → Line → Line
take_role role l =
    let d = call dir_output l in
    let turned =
      if is_output role
      then call (data_write false) (call (data_mode true) (call (dir_write true) d))
      else call (dir_write false) (call (data_mode false) d) in
    record turned { role = role }

abbrev pub on_port : ℕ → (Line → Line) → Lines → Lines
on_port port f s =
    if port == 1 then record s { line1 = f s.line1 } else record s { line2 = f s.line2 }

abbrev pub line_of : ℕ → Lines → Line
line_of port s = if port == 1 then s.line1 else s.line2

-- SpiManager::setFramescanGatePins, as applyDioRole calls it.
abbrev pub set_framescan_gates : Lines → Lines
set_framescan_gates s = record {
  line1 = record s.line1 { gate = is_framescan s.line1.role };
  line2 = record s.line2 { gate = is_framescan s.line2.role };
}

unfoldable pub apply_dio_role : ℕ → DioRole → Lines → Lines
apply_dio_role port role s = set_framescan_gates (on_port port (take_role role) s)

-- The roles that begin sets.
abbrev pub begin_lines : Lines → Lines
begin_lines s = apply_dio_role 2 in_trigger (apply_dio_role 1 out_programmable s)

-- The gates in SpiManager::transferFrame: they go up before the first panel and down behind the last.
abbrev pub write_gate : Bool → Line → Line
write_gate level l = if l.gate then call (data_write level) l else l

unfoldable pub frame_scan : Lines → Lines
frame_scan s = record {
  line1 = write_gate false (write_gate true s.line1);
  line2 = write_gate false (write_gate true s.line2);
}

pub data DioAnswer : Type 0 where
  done : DioAnswer
  wrong_length : DioAnswer
  wrong_port : DioAnswer
  wrong_role : DioAnswer
  role_is : DioRole → DioAnswer

-- case SET_DIGITAL_OUT_CMD
unfoldable pub set_digital_out : ℕ → ℕ → ℕ → Lines → DioAnswer × Lines
set_digital_out claimed_len channel state s =
    let promoted =
      if is_off_role (line_of channel s).role
      then apply_dio_role channel out_programmable s
      else s in
    let role =
      if is_off_role (line_of channel s).role then out_programmable else (line_of channel s).role in
    if not (claimed_len == 3)
    then (wrong_length, s)
    else if not (channel == 1) && not (channel == 2)
    then (wrong_port, s)
    else if not (is_programmable role)
    then (role_is role, promoted)
    else (done, on_port channel (call (data_write (not (state == 0)))) promoted)

-- case SET_DIO_ROLE_CMD
unfoldable pub set_dio_role : ℕ → ℕ → ℕ → Lines → DioAnswer × Lines
set_dio_role claimed_len port role s =
    if not (claimed_len == 3)
    then (wrong_length, s)
    else if not (port == 1) && not (port == 2)
    then (wrong_port, s)
    else if ltb 3 role
    then (wrong_role, s)
    else (done, apply_dio_role port (role_of role) s)

-- case GET_DIO_ROLE_CMD, given the levels that are read.
unfoldable pub get_dio_role : Bool → Bool → Lines → List ℕ
get_dio_role level1 level2 s =
    role_number s.line1.role
    ∷ (if level1 then 1 else 0)
    ∷ role_number s.line2.role
    ∷ (if level2 then 1 else 0)
    ∷ []

-- What happens to the lines behind begin.
pub data DioEvent : Type 0 where
  set_out : ℕ → ℕ → ℕ → DioEvent
  set_role : ℕ → ℕ → ℕ → DioEvent
  scan : DioEvent

abbrev pub happen : DioEvent → Lines → Lines
happen (set_out claimed_len channel state) s = (set_digital_out claimed_len channel state s).1
happen (set_role claimed_len port role) s = (set_dio_role claimed_len port role s).1
happen scan s = frame_scan s

abbrev pub happen_all : List DioEvent → Lines → Lines
happen_all [] s = s
happen_all (e ∷ es) s = happen_all es (happen e s)
