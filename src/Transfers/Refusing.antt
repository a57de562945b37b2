-- ===== src/Transfers/Refusing.antt =====
-- Commands that are refused, and what they leave alone.
use led_display_g6_firmware.Common.{
  ℕ, ◌≡◌, refl, Bool, true, false, not, arith, if_intro, Option, none, some, ltb, ◌==◌, length,
  if◌then◌else◌,
}
use led_display_g6_firmware.Patterns.Catalog.{
  Name, Catalog, Card, close_if_open, purge_memory, rename_pattern, ce_none,
}
use led_display_g6_firmware.Transfers.Desk.{Source, Answer, success, failure}
use led_display_g6_firmware.Transfers.Deleting.{delete_pattern-failed}
use led_display_g6_firmware.Transfers.Handlers.{
  Desk, Outside, Outcome, Request, download, upload, delete, purge, rename, archive, handle,
  process_command, held_back, get_pattern_file, handle_bulk_write, get_sd_archive,
  purge_memory_command, set_pattern_filename, delete_pattern_file,
}

-- The outcome is a refusal with an error code.
abbrev pub failed : Option Answer → Bool
failed none = false
failed (some (success payload)) = false
failed (some (failure status message)) = true

-- A refusal leaves the transfers and the list of patterns alone, and the display stays in any case.
pub record Untouched (o : Outside) (d : Desk) (t : Outcome) : Type 0 where
  pub dl : failed t.answer ≡ true → t.desk.dl ≡ d.dl
  pub ul : failed t.answer ≡ true → t.desk.ul ≡ d.ul
  pub ar : failed t.answer ≡ true → t.desk.ar ≡ d.ar
  pub names :
      o.card.manifest ≡ true → failed t.answer ≡ true → t.desk.catalog.names ≡ d.catalog.names
  pub state : t.desk.state ≡ d.state

closed_names :
    (idx : ℕ) (c : Catalog) → (if idx == 0 then c else close_if_open idx c).names ≡ c.names
closed_names idx c = ground arith

rename_pattern-failed :
    (k : Card) (exists : Name → Bool) (idx : ℕ) (name : Name) (c : Catalog)
    → k.manifest ≡ true
    → ((rename_pattern k exists idx name c).0 == ce_none) ≡ false
    → (rename_pattern k exists idx name c).1.names ≡ c.names
unfolding rename_pattern
rename_pattern-failed k exists idx name c m =
    if_intro P (not c.mounted) (λ _ _. refl)
      (λ _.
        if_intro P (ltb (length c.names) idx) (λ _ _. refl)
          (λ _.
            if_intro P (not k.done) (λ _ _. closed_names idx c)
              (λ _ h. absurd (ground (arith, m, h)))))
  where
    P : ℕ × Catalog × ℕ → Type 0
    P t = (t.0 == ce_none) ≡ false → t.1.names ≡ c.names

module _ (o : Outside) (source : Source) (d : Desk) where
  get_pattern_file-Untouched :
      (claimed_len idx : ℕ) → Untouched o d (get_pattern_file o source claimed_len idx d)
  unfolding get_pattern_file
  get_pattern_file-Untouched claimed_len idx = ground arith

  handle_bulk_write-Untouched :
      (cmd idx total : ℕ) → Untouched o d (handle_bulk_write o source cmd idx total d)
  unfolding handle_bulk_write
  handle_bulk_write-Untouched cmd idx total = ground arith

  purge_memory-Untouched : Untouched o d (purge_memory_command o d)
  unfolding purge_memory_command purge_memory
  purge_memory-Untouched = ground arith

  get_sd_archive-Untouched : Untouched o d (get_sd_archive o source d)
  unfolding get_sd_archive
  get_sd_archive-Untouched = ground arith

  set_pattern_filename-Untouched :
      (claimed_len idx name_len : ℕ) (name : Name)
      → Untouched o d (set_pattern_filename o claimed_len idx name_len name d)
  unfolding set_pattern_filename
  set_pattern_filename-Untouched claimed_len idx name_len name = record {
    dl = λ h. ground (arith, h);
    ul = λ h. ground (arith, h);
    ar = λ h. ground (arith, h);
    names = λ m h. ground (arith, m, h, rename_pattern-failed o.card o.exists idx name d.catalog);
    state = ground arith;
  }

  delete_pattern_file-Untouched :
      (claimed_len idx : ℕ) → Untouched o d (delete_pattern_file o claimed_len idx d)
  unfolding delete_pattern_file
  delete_pattern_file-Untouched claimed_len idx = record {
    dl = λ h. ground (arith, h);
    ul = λ h. ground (arith, h);
    ar = λ h. ground (arith, h);
    names = λ m h. ground (arith, m, h, delete_pattern-failed o.card idx d.catalog);
    state = ground arith;
  }

  handle-Untouched : (r : Request) → Untouched o d (handle o source r d)
  handle-Untouched (download claimed_len idx) = get_pattern_file-Untouched claimed_len idx
  handle-Untouched (upload cmd idx total) = handle_bulk_write-Untouched cmd idx total
  handle-Untouched (delete claimed_len idx) = delete_pattern_file-Untouched claimed_len idx
  handle-Untouched purge = purge_memory-Untouched
  handle-Untouched (rename claimed_len idx name_len name) =
      set_pattern_filename-Untouched claimed_len idx name_len name
  handle-Untouched archive = get_sd_archive-Untouched

-- A file or library command that is answered with an error has left every transfer as it was, and,
-- if the manifest can be written, the names of the list too; no such command changes the display.
pub process_command-Untouched :
    (o : Outside) (source : Source) (r : Request) (d : Desk)
    → Untouched o d (process_command o source r d)
unfolding process_command
process_command-Untouched o source r d =
    if_intro (Untouched o d) (held_back source d)
      (λ h. record {
        dl = λ a. refl;
        ul = λ a. refl;
        ar = λ a. refl;
        names = λ m a. refl;
        state = refl;
      })
      (λ h. handle-Untouched o source d r)
