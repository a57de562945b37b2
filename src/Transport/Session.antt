-- ===== src/Transport/Session.antt =====
-- A link that carries whole commands, no uploads, is read as these commands, however its bytes are cut into
-- arrivals and reads.
use mathlib.Core.List.{append_assoc}
use led_display_g6_firmware.Common.{
  ℕ, ◌≤◌, ◌<◌, ◌≡◌, refl, sym, ap, subst, ◌∙◌, true, false, List, [], ◌∷◌, ◌++◌, length, drop, leb,
  ltb, map, get_or, arith, Bool-cases, inl, inr, length-append, length-drop,
}
use led_display_g6_firmware.Transport.Rx.{Rx, Command, parse_incoming}
use led_display_g6_firmware.Transport.Wire.{Wire, encode, Fits, meaning}
use led_display_g6_firmware.Transport.Buffered.{pending, pending_len}
use led_display_g6_firmware.Transport.Parsing.{Delivered, parse_incoming-Delivered}
use led_display_g6_firmware.Transport.Waiting.{parse_incoming_waits}
use led_display_g6_firmware.Transport.Link.{
  Round, arriving, Run, top_up, service_usb, command_consumed, rounds,
}
use led_display_g6_firmware.Transport.Filling.{Filled, top_up-Filled}

abbrev pub encodes : List Wire → List ℕ
encodes [] = []
encodes (w ∷ ws) = encode w ++ encodes ws

abbrev pub AllFit : ℕ → List Wire → Type 0
AllFit size [] = size ≡ size
AllFit size (w ∷ ws) = Fits size w × AllFit size ws

-- Two ways to cut a list: the longer front starts with the shorter one.
pub cut_longer :
    (a b c d : List ℕ)
    → a ++ b ≡ c ++ d
    → length c ≤ length a
    → (a ≡ c ++ drop (length c) a) × (drop (length c) a ++ b ≡ d)
cut_longer a b [] d e h = (refl, e)
cut_longer [] b (y ∷ c) d e h = absurd (omega arith)
cut_longer (x ∷ a) b (y ∷ c) d e h =
    let rest = cut_longer a b c d (ap (drop 1) e) (omega arith) in
    (
      ap (λ (z : ℕ). z ∷ a) (ap (λ (xs : List ℕ). get_or xs 0 0) e)
          ∙ ap (λ (xs : List ℕ). y ∷ xs) rest.0,
      rest.1,
    )

-- One service with the commands `ws` still to come: it hands over the next one or none yet, and no
-- byte is lost. `later` has not arrived.
pub data Served (size : ℕ) (ws : List Wire) (later : List ℕ) (t : Rx × List ℕ) : Type 0 where
  quiet :
      t.0.cmd_ready ≡ false
      → t.0.rx_len ≤ size
      → pending t.0 ++ (t.1 ++ later) ≡ encodes ws
      → Served size ws later t
  handed :
      (w : Wire) (rest : List Wire)
      → ws ≡ w ∷ rest
      → t.0.cmd_ready ≡ true
      → t.0.rx_len ≤ size
      → t.0.parsed_cmd ≡ meaning w
      → pending t.0 ++ (t.1 ++ later) ≡ encodes rest
      → Served size ws later t

parsed-Served :
    (size : ℕ) (ws : List Wire) (later : List ℕ) (r : Rx) (link : List ℕ)
    → size < 65536
    → AllFit size ws
    → r.cmd_ready ≡ false
    → 0 < r.rx_len
    → r.rx_len ≤ size
    → pending r ++ (link ++ later) ≡ encodes ws
    → Served size ws later (parse_incoming size r, link)
parsed-Served size [] later r link small fit off some h e =
    absurd
      (omega (arith, ap length e, length-append (pending r) (link ++ later), pending_len r _ refl))
parsed-Served size (w ∷ ws) later r link small fit off some h e =
    elim (Bool-cases (leb (length (encode w)) (length (pending r)))) [
      | inl k ↦
          let c =
            cut_longer (pending r) (link ++ later) (encode w) (encodes ws) e (ground (arith, k)) in
          let d : Delivered (meaning w) (drop (length (encode w)) (pending r))
              (parse_incoming size r) =
            parse_incoming-Delivered size r w _ small fit.0 c.0 in
          handed w ws refl d.ready
            (omega (
              arith,
              pending_len (parse_incoming size r) _ d.left,
              length-drop (length (encode w)) (pending r),
              pending_len r _ refl,
            ))
            d.parsed (ap (λ (xs : List ℕ). xs ++ (link ++ later)) d.left ∙ c.1)
      | inr k ↦
          let c =
            cut_longer (encode w) (encodes ws) (pending r) (link ++ later) (sym e)
              (ground (arith, k)) in
          let still : parse_incoming size r ≡ r =
            parse_incoming_waits size r w (pending r) (drop (length (pending r)) (encode w)) small
              fit.0 (sym c.0) (omega (arith, pending_len r _ refl))
              (ground (
                arith,
                k,
                ap length c.0,
                length-append (pending r) (drop (length (pending r)) (encode w)),
              ))
              refl in
          subst (λ (u : Rx). Served size (w ∷ ws) later (u, link)) (sym still) (quiet off h e)
    ]

module _ (size : ℕ) (read : ℕ → ℕ) (r : Rx) (link : List ℕ) (off : r.cmd_ready ≡ false) where
  service_nothing :
      (top_up size read r link).0.rx_len ≡ 0
      → service_usb size read r link ≡ top_up size read r link
  unfolding service_usb
  service_nothing h = ground (arith, off)

  pub service_parses :
      0 < (top_up size read r link).0.rx_len
      → service_usb size read r link
        ≡ (parse_incoming size (top_up size read r link).0, (top_up size read r link).1)
  unfolding service_usb
  service_parses h = ground (arith, off)

  -- What one service makes of the commands to come.
  service_usb-Served :
      (ws : List Wire) (later : List ℕ)
      → ((n : ℕ) → read n ≤ n)
      → size < 65536
      → AllFit size ws
      → r.rx_len ≤ size
      → pending r ++ (link ++ later) ≡ encodes ws
      → Served size ws later (service_usb size read r link)
  service_usb-Served ws later most small fit h e = elim (Bool-cases (ltb 0 t.0.rx_len)) [
    | inl p ↦
        subst (Served size ws later) (sym (service_parses (ground (arith, p))))
          (parsed-Served size ws later t.0 t.1 small fit idle (ground (arith, p)) f.room whole)
    | inr p ↦
        subst (Served size ws later) (sym (service_nothing (ground (arith, p))))
          (quiet idle f.room whole)
  ]
    where
      t : Rx × List ℕ
      t = top_up size read r link

      f : Filled size r link t
      f = top_up-Filled size read r link most h

      idle : t.0.cmd_ready ≡ false
      idle = f.ready ∙ off

      whole : pending t.0 ++ (t.1 ++ later) ≡ encodes ws
      whole =
          sym (append_assoc (pending t.0) t.1 later)
          ∙ ap (λ (xs : List ℕ). xs ++ later) f.kept
          ∙ append_assoc (pending r) link later
          ∙ e

-- A command that was read and not handled yet, because it is held back.
pub data Waiting (r : Rx) : List Wire → Type 0 where
  nothing : r.cmd_ready ≡ false → Waiting r []
  one : (w : Wire) → r.cmd_ready ≡ true → r.parsed_cmd ≡ meaning w → Waiting r (w ∷ [])

-- No command is the header of an upload.
abbrev pub AllPlain : List Wire → Type 0
AllPlain [] = true ≡ true
AllPlain (w ∷ ws) = ((meaning w).is_bulk ≡ false) × AllPlain ws

-- What a run makes of the commands to come: it hands over the first of them, each as it is meant, the
-- next may wait, and the bytes of the others are in the buffer, on the link or still to arrive.
pub record ReadAs (ws : List Wire) (later : List ℕ) (run : Run) : Type 0 where
  pub done : List Wire
  pub next : List Wire
  pub todo : List Wire
  pub order : ws ≡ done ++ (next ++ todo)
  pub out : run.out ≡ map meaning done
  pub waiting : Waiting run.rx next
  pub left : pending run.rx ++ (run.link ++ later) ≡ encodes todo

module _ (size : ℕ) (read : ℕ → ℕ) (r : Rx) (link : List ℕ) (p : Round) (later : List Round) where
  abbrev after : Rx × List ℕ
  after = service_usb size read r (link ++ p.arrived)

  rounds_idle :
      after.0.cmd_ready ≡ false
      → rounds size read r link (p ∷ later) ≡ rounds size read after.0 after.1 later
  unfolding rounds
  rounds_idle h = rw h refl

  rounds_held :
      after.0.cmd_ready ≡ true
      → p.held ≡ true
      → rounds size read r link (p ∷ later) ≡ rounds size read after.0 after.1 later
  unfolding rounds
  rounds_held h k = rw (h, k) refl

  rounds_handed :
      (ws : List Wire) (rest : List ℕ) (w : Wire)
      → after.0.cmd_ready ≡ true
      → p.held ≡ false
      → (meaning w).is_bulk ≡ false
      → after.0.parsed_cmd ≡ meaning w
      → ReadAs ws rest (rounds size read (command_consumed after.0) after.1 later)
      → ReadAs (w ∷ ws) rest (rounds size read r link (p ∷ later))
  unfolding rounds
  rounds_handed ws rest w h k plain e v =
      rw (h, k, ap (λ (c : Command). c.is_bulk) e ∙ plain)
        (record {
          done = w ∷ v.done;
          next = v.next;
          todo = v.todo;
          order = ap (λ (xs : List Wire). w ∷ xs) v.order;
          out =
              ap
                (λ (c : Command).
                  c ∷ (rounds size read (command_consumed after.0) after.1 later).out)
                e
              ∙ ap (λ (cs : List Command). meaning w ∷ cs) v.out;
          waiting = v.waiting;
          left = v.left;
        })

  -- A command that is ready waits on, or is handled and consumed.
  rounds_ready :
      (ws : List Wire) (rest : List ℕ) (w : Wire)
      → after.0.cmd_ready ≡ true
      → (meaning w).is_bulk ≡ false
      → after.0.parsed_cmd ≡ meaning w
      → ReadAs (w ∷ ws) rest (rounds size read after.0 after.1 later)
      → ReadAs ws rest (rounds size read (command_consumed after.0) after.1 later)
      → ReadAs (w ∷ ws) rest (rounds size read r link (p ∷ later))
  rounds_ready ws rest w h plain e kept taken = elim (Bool-cases p.held) [
    | inl k ↦ subst (ReadAs (w ∷ ws) rest) (sym (rounds_held h k)) kept
    | inr k ↦ rounds_handed ws rest w h k plain e taken
  ]

-- A manager whose command waits is not serviced.
service_waiting :
    (size : ℕ) (read : ℕ → ℕ) (r : Rx) (link : List ℕ)
    → r.cmd_ready ≡ true
    → service_usb size read r link ≡ (r, link)
unfolding service_usb
service_waiting size read r link h = rw h refl

arrived_first :
    (r : Rx) (link : List ℕ) (p : Round) (ps : List Round) (later : List ℕ) (bs : List ℕ)
    → pending r ++ (link ++ (arriving (p ∷ ps) ++ later)) ≡ bs
    → pending r ++ ((link ++ p.arrived) ++ (arriving ps ++ later)) ≡ bs
arrived_first r link p ps later bs e =
    ap (λ (xs : List ℕ). pending r ++ xs)
      (append_assoc link p.arrived (arriving ps ++ later)
        ∙ ap (λ (xs : List ℕ). link ++ xs) (sym (append_assoc p.arrived (arriving ps) later)))
    ∙ e

waiting_none : (r : Rx) → Waiting r [] → r.cmd_ready ≡ false
waiting_none r (nothing h) = h

rounds_read :
    (size : ℕ) (read : ℕ → ℕ) (r : Rx) (link : List ℕ) (ps : List Round) (later : List ℕ)
    (next ws : List Wire)
    → ((n : ℕ) → read n ≤ n)
    → size < 65536
    → AllFit size ws
    → AllPlain (next ++ ws)
    → Waiting r next
    → r.rx_len ≤ size
    → pending r ++ (link ++ (arriving ps ++ later)) ≡ encodes ws
    → ReadAs (next ++ ws) later (rounds size read r link ps)
unfolding rounds
rounds_read size read r link [] later next ws most small fit plain w h e = record {
  done = [];
  next = next;
  todo = ws;
  order = refl;
  out = refl;
  waiting = w;
  left = e;
}
rounds_read size read r link (p ∷ ps) later [] ws most small fit plain w h e =
    elim (service_usb-Served size read r (link ++ p.arrived) (waiting_none r w) ws
      (arriving ps ++ later) most small fit h (arrived_first r link p ps later (encodes ws) e)) [
        | quiet idle room e' ↦
            subst (ReadAs ws later) (sym (rounds_idle size read r link p ps idle)) (
              rounds_read size read (after size read r link p ps).0 (after size read r link p ps).1
                ps later [] ws most small fit plain (nothing idle) room e')
        | handed x rest e' ready room parsed left ↦
            subst (λ (xs : List Wire). ReadAs xs later (rounds size read r link (p ∷ ps))) (sym e')
              (rounds_ready size read r link p ps rest later x ready (subst AllPlain e' plain).0
                parsed
                (rounds_read size read (after size read r link p ps).0
                  (after size read r link p ps).1 ps later (x ∷ []) rest most small
                  (subst (AllFit size) e' fit).1 (subst AllPlain e' plain) (one x ready parsed) room
                  left)
                (rounds_read size read (command_consumed (after size read r link p ps).0)
                  (after size read r link p ps).1 ps later [] rest most small
                  (subst (AllFit size) e' fit).1 (subst AllPlain e' plain).1 (nothing refl) room
                  left))
      ]
rounds_read size read r link (p ∷ ps) later next ws most small fit plain (one x ready parsed) h e =
    rounds_ready size read r link p ps ws later x (now ∙ ready) plain.0 parsed_now
      (rounds_read size read (after size read r link p ps).0 (after size read r link p ps).1 ps
        later (x ∷ []) ws most small fit plain (one x (now ∙ ready) parsed_now) room left)
      (rounds_read size read (command_consumed (after size read r link p ps).0)
        (after size read r link p ps).1 ps later [] ws most small fit plain.1 (nothing refl) room
        left)
  where
    same : after size read r link p ps ≡ (r, link ++ p.arrived)
    same = service_waiting size read r (link ++ p.arrived) ready

    now : (after size read r link p ps).0.cmd_ready ≡ r.cmd_ready
    now = ap (λ (t : Rx × List ℕ). t.0.cmd_ready) same

    parsed_now : (after size read r link p ps).0.parsed_cmd ≡ meaning x
    parsed_now = ap (λ (t : Rx × List ℕ). t.0.parsed_cmd) same ∙ parsed

    room : (after size read r link p ps).0.rx_len ≤ size
    room = omega (arith, h, ap (λ (t : Rx × List ℕ). t.0.rx_len) same)

    left :
        pending (after size read r link p ps).0
          ++ ((after size read r link p ps).1 ++ (arriving ps ++ later))
        ≡ encodes ws
    left =
        ap (λ (t : Rx × List ℕ). pending t.0 ++ (t.1 ++ (arriving ps ++ later))) same
        ∙ arrived_first r link p ps later (encodes ws) e

-- When the bytes in the buffer, on the link and to come are whole commands that fit the buffer, none of
-- them an upload, and no command is ready yet: the rounds of loop() handle the first of them, each
-- once, in order and as it was meant, however the bytes arrive, whatever the reads hand over and in
-- whichever rounds the dispatch holds the link back. At most one more has been read and waits, as it
-- was meant, and the bytes of the others are all still there.
pub rounds-ReadAs :
    (size : ℕ) (read : ℕ → ℕ) (r : Rx) (link : List ℕ) (ps : List Round) (later : List ℕ)
    (ws : List Wire)
    → ((n : ℕ) → read n ≤ n)
    → size < 65536
    → AllFit size ws
    → AllPlain ws
    → r.cmd_ready ≡ false
    → r.rx_len ≤ size
    → pending r ++ (link ++ (arriving ps ++ later)) ≡ encodes ws
    → ReadAs ws later (rounds size read r link ps)
rounds-ReadAs size read r link ps later ws most small fit plain off h e =
    rounds_read size read r link ps later [] ws most small fit plain (nothing off) h e
