-- ===== src/Digital/Tests.antt =====
-- Runs of the digital lines, and the theorems at inputs that meet their hypotheses.
use led_display_g6_firmware.Common.{
  ◌≡◌, refl, true, false, not, List, [], ◌∷◌, ◌==◌, arith, if◌then◌else◌,
}
use led_display_g6_firmware.Digital.Lines.{
  DioEvent, set_out, set_role, scan, out_programmable, off, Line, Lines, begin_lines, happen_all,
  done, set_digital_out, set_dio_role, get_dio_role, role_number, apply_dio_role, frame_scan,
}
use led_display_g6_firmware.Digital.Wiring.{Wired, begin_lines-Wired}
use led_display_g6_firmware.Digital.Setting.{
  Outcome, accepted, set_digital_out-Outcome, get_dio_role-set_dio_role,
}

abbrev untouched : Line
untouched = record {
  role = off;
  wires = record {
    data_is_output = false;
    data_level = false;
    dir_is_output = false;
    dir_level = false;
  };
  gate = false;
  seen = [];
}

abbrev powered : Lines
powered = record { line1 = untouched; line2 = untouched }

-- Line 2 becomes a gate of the frame scan, a frame is sent, line 1 is set, line 2 is let go and set.
abbrev events : List DioEvent
events =
    set_role 3 2 3 ∷ scan ∷ set_out 3 1 1 ∷ set_out 3 2 1 ∷ set_role 3 2 0 ∷ set_out 3 2 255 ∷ []

promoted : (happen_all events (begin_lines powered)).line2.role ≡ out_programmable
unfolding apply_dio_role frame_scan set_digital_out set_dio_role
promoted = refl

begin_lines-Wired_example : Wired (happen_all events (begin_lines powered))
begin_lines-Wired_example = begin_lines-Wired events powered refl refl refl refl

set_digital_out-Outcome_example :
    let r = set_digital_out 3 2 7 (happen_all events (begin_lines powered)) in
    Outcome 2
      (not (7 == 0))
      (happen_all events (begin_lines powered))
      (accepted 3 2 (happen_all events (begin_lines powered)))
      r.0
      r.1
set_digital_out-Outcome_example =
    set_digital_out-Outcome 3 2 7 (happen_all events (begin_lines powered))
      begin_lines-Wired_example

get_dio_role-set_dio_role_example :
    let r = set_dio_role 3 2 3 powered in
    (r.0 ≡ done)
    × (get_dio_role true false r.1
        ≡ (if 2 == 1 then 3 else role_number powered.line1.role)
          ∷ (if true then 1 else 0)
          ∷ (if 2 == 1 then role_number powered.line2.role else 3)
          ∷ (if false then 1 else 0)
          ∷ [])
get_dio_role-set_dio_role_example =
    get_dio_role-set_dio_role 2 3 true false powered refl (omega arith)
