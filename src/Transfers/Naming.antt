-- ===== src/Transfers/Naming.antt =====
-- A transfer under way keeps standing for its own file, while patterns are deleted around it.
use led_display_g6_firmware.Common.{
  ℕ, suc, ◌-◌, ◌+◌, ◌%◌, ◌<◌, ◌≤◌, ◌≡◌, ◌≢◌, refl, ap, ◌∙◌, Bool, true, false, not, List, [], arith,
  if_intro, option_intro, none, some, Bool-cases, inl, inr, ◌||◌, leb, ltb, ◌==◌, length, get_or,
  if◌then◌else◌,
}
use led_display_g6_firmware.Patterns.Catalog.{
  Name, Catalog, pattern_name, delete_pattern, delete_at, ce_none, purge_memory, rename_pattern,
}
use led_display_g6_firmware.Patterns.Handle.{get_or-delete_below, get_or-delete_above}
use led_display_g6_firmware.Transport.Rx.{pattern_name_byte_count}
use led_display_g6_firmware.Transfers.Desk.{Source, is_off, pattern_busy}
use led_display_g6_firmware.Transfers.Handlers.{
  Desk, Outside, Outcome, Request, download, upload, delete, purge, rename, archive, handle,
  process_command, held_back, get_pattern_file, handle_bulk_write, get_sd_archive, any_transfer,
  purge_memory_command, set_pattern_filename, delete_pattern_file, shift_index, shift_indices,
  pattern_path,
}
use led_display_g6_firmware.Transfers.Apart.{Shrinks}
use led_display_g6_firmware.Transfers.Deleting.{
  delete_pattern-failed, delete_pattern-listed, delete_pattern-temp, delete_pattern-names,
  delete_pattern-shorter,
}
use led_display_g6_firmware.Transfers.Steps.{Step, command, service, Service-Shrinks}

-- A download or upload under way before and after stands for the same name.
record Names (d d' : Desk) : Type 0 where
  dl :
      d.dl.active ≡ true
      → d'.dl.active ≡ true
      → pattern_name d'.catalog d'.dl.idx ≡ pattern_name d.catalog d.dl.idx
  ul :
      d.ul.active ≡ true
      → d'.ul.active ≡ true
      → pattern_name d'.catalog d'.ul.idx ≡ pattern_name d.catalog d.ul.idx

same-Names : (d : Desk) → Names d d
same-Names d = record { dl = λ a b. refl; ul = λ a b. refl }

pattern_name-cong :
    (c c' : Catalog) (i : ℕ) → c'.names ≡ c.names → pattern_name c' i ≡ pattern_name c i
unfolding pattern_name
pattern_name-cong c c' i e =
    ap
      (λ (xs : List Name).
        if (i == 0) || ltb (length xs) i then none else some (get_or xs (i - 1) []))
      e

Shrinks-Names : (d d' : Desk) → Shrinks d d' → Names d d'
Shrinks-Names d d' s = record {
  dl = λ a b.
      pattern_name-cong d.catalog d'.catalog d'.dl.idx s.names
      ∙ ap (pattern_name d.catalog) s.dl.same_idx;
  ul = λ a b.
      pattern_name-cong d.catalog d'.catalog d'.ul.idx s.names
      ∙ ap (pattern_name d.catalog) s.ul.same_idx;
}

-- Deleting pattern `idx` takes the one at `i` along.
pattern_name-shift :
    (c c' : Catalog) (idx i : ℕ)
    → 0 < idx
    → idx ≤ length c.names
    → i ≢ idx
    → c'.names ≡ delete_at (idx - 1) c.names
    → suc (length c'.names) ≡ length c.names
    → pattern_name c' (shift_index idx true i) ≡ pattern_name c i
unfolding pattern_name
pattern_name-shift c c' idx i z listed other e n = elim (Bool-cases (ltb idx i)) [
  | inl h ↦
      ground (arith, h, e, n, get_or-delete_above (idx - 1) (i - 2) c.names (ground (arith, h, z)))
  | inr h ↦ ground (arith, h, e, n, get_or-delete_below (idx - 1) (i - 1) c.names)
]

-- With no transfer under way there is nothing to keep.
idle-Names : (d d' : Desk) → any_transfer d ≡ false → Names d d'
idle-Names d d' h = record {
  dl = λ a. absurd (ground (arith, a, h));
  ul = λ a. absurd (ground (arith, a, h));
}

shifted-Names :
    (idx : ℕ) (c : Catalog) (d : Desk)
    → 0 < idx
    → idx ≤ length d.catalog.names
    → c.names ≡ delete_at (idx - 1) d.catalog.names
    → suc (length c.names) ≡ length d.catalog.names
    → pattern_busy d.dl d.ul idx ≡ false
    → Names d (shift_indices idx (record d { catalog = c }))
unfolding pattern_busy
shifted-Names idx c d z listed e n busy =
    if_intro (Names d) (leb 1 idx)
      (λ h. record {
        dl = λ a b.
            ap (λ (on : Bool). pattern_name c (shift_index idx on d.dl.idx)) a
            ∙ pattern_name-shift d.catalog c idx d.dl.idx z listed (ground (arith, a, busy)) e n;
        ul = λ a b.
            ap (λ (on : Bool). pattern_name c (shift_index idx on d.ul.idx)) a
            ∙ pattern_name-shift d.catalog c idx d.ul.idx z listed (ground (arith, a, busy)) e n;
      })
      (λ h. absurd (ground (arith, h)))

module _ (o : Outside) (source : Source) (d : Desk) where
  abbrev KeepsNames : Outcome → Type 0
  KeepsNames t = Names d t.desk

  get_pattern_file-Names :
      (claimed_len idx : ℕ) → KeepsNames (get_pattern_file o source claimed_len idx d)
  unfolding get_pattern_file
  get_pattern_file-Names claimed_len idx =
      if_intro KeepsNames (not (is_off d.state)) (λ _. same-Names d)
        (λ _.
          if_intro KeepsNames d.dl.active (λ _. same-Names d)
            (λ idle.
              if_intro KeepsNames (not (claimed_len == 3)) (λ _. same-Names d)
                (λ _.
                  if_intro KeepsNames ((idx == 0) || ltb (length d.catalog.names) idx)
                    (λ _. same-Names d)
                    (λ _.
                      if_intro KeepsNames (pattern_busy d.dl d.ul idx) (λ _. same-Names d)
                        (λ _.
                          option_intro KeepsNames (pattern_name d.catalog idx) (λ _. same-Names d)
                            (λ name _.
                              option_intro KeepsNames (o.files (pattern_path name))
                                (λ _. same-Names d)
                                (λ content _. record {
                                  dl = λ a. absurd (ground (arith, a, idle));
                                  ul = λ a b. refl;
                                })))))))

  handle_bulk_write-Names :
      (cmd idx total : ℕ) → KeepsNames (handle_bulk_write o source cmd idx total d)
  unfolding handle_bulk_write
  handle_bulk_write-Names cmd idx total = record {
    dl = λ a b. ground (arith, a, b);
    ul = λ a b. ground (arith, a, b);
  }

  get_sd_archive-Names : KeepsNames (get_sd_archive o source d)
  unfolding get_sd_archive
  get_sd_archive-Names = record {
    dl = λ a b. ground (arith, a, b);
    ul = λ a b. ground (arith, a, b);
  }

  purge_memory-Names : KeepsNames (purge_memory_command o d)
  unfolding purge_memory_command
  purge_memory-Names =
      if_intro KeepsNames (not (is_off d.state)) (λ _. same-Names d)
        (λ _.
          if_intro KeepsNames (any_transfer d) (λ _. same-Names d)
            (λ h.
              if_intro KeepsNames (not ((purge_memory o.card d.catalog).0 == ce_none))
                (λ _. idle-Names d _ h) (λ _. idle-Names d _ h)))

  set_pattern_filename-Names :
      (claimed_len idx name_len : ℕ) (name : Name)
      → KeepsNames (set_pattern_filename o claimed_len idx name_len name d)
  unfolding set_pattern_filename
  set_pattern_filename-Names claimed_len idx name_len name =
      if_intro KeepsNames (ltb claimed_len 4) (λ _. same-Names d)
        (λ _.
          if_intro KeepsNames
            ((name_len == 0)
              || (leb pattern_name_byte_count name_len || ltb claimed_len ((4 + name_len) % 256)))
            (λ _. same-Names d)
            (λ _.
              if_intro KeepsNames (ltb (length d.catalog.names) idx) (λ _. same-Names d)
                (λ _.
                  if_intro KeepsNames (any_transfer d) (λ _. same-Names d)
                    (λ h.
                      if_intro KeepsNames
                        (not ((rename_pattern o.card o.exists idx name d.catalog).0 == ce_none))
                        (λ _. idle-Names d _ h) (λ _. idle-Names d _ h)))))

  delete_pattern_file-Names :
      (claimed_len idx : ℕ)
      → o.card.manifest ≡ true
      → KeepsNames (delete_pattern_file o claimed_len idx d)
  unfolding delete_pattern_file
  delete_pattern_file-Names claimed_len idx m =
      if_intro KeepsNames (not (claimed_len == 3)) (λ _. same-Names d)
        (λ _.
          if_intro KeepsNames (pattern_busy d.dl d.ul idx) (λ _. same-Names d)
            (λ k.
              if_intro KeepsNames (not ((delete_pattern o.card idx d.catalog).0 == ce_none))
                (λ h. same_names (delete_pattern-failed o.card idx d.catalog m (ground (arith, h))))
                (λ h.
                  let good : ((delete_pattern o.card idx d.catalog).0 == ce_none) ≡ true =
                    ground (arith, h) in
                  elim (Bool-cases (leb 1 idx)) [
                    | inl z ↦
                        shifted-Names idx c d (ground (arith, z))
                          (delete_pattern-listed o.card idx d.catalog good)
                          (delete_pattern-names o.card idx d.catalog (ground (arith, z)) good)
                          (delete_pattern-shorter o.card idx d.catalog (ground (arith, z)) good) k
                    | inr z ↦
                        if_intro (Names d) (leb 1 idx) (λ y. absurd (ground (arith, z, y)))
                          (λ y.
                            same_names
                              (delete_pattern-temp o.card idx d.catalog (ground (arith, z))))
                  ])))
    where
      c : Catalog
      c = (delete_pattern o.card idx d.catalog).1

      same_names : c.names ≡ d.catalog.names → Names d (record d { catalog = c })
      same_names e = record {
        dl = λ a b. pattern_name-cong d.catalog c d.dl.idx e;
        ul = λ a b. pattern_name-cong d.catalog c d.ul.idx e;
      }

handle-Names :
    (o : Outside) (source : Source) (r : Request) (d : Desk)
    → o.card.manifest ≡ true
    → Names d (handle o source r d).desk
handle-Names o source (download claimed_len idx) d m =
    get_pattern_file-Names o source d claimed_len idx
handle-Names o source (upload cmd idx total) d m = handle_bulk_write-Names o source d cmd idx total
handle-Names o source (delete claimed_len idx) d m =
    delete_pattern_file-Names o source d claimed_len idx m
handle-Names o source purge d m = purge_memory-Names o source d
handle-Names o source (rename claimed_len idx name_len name) d m =
    set_pattern_filename-Names o source d claimed_len idx name_len name
handle-Names o source archive d m = get_sd_archive-Names o source d

step-Names : {d d' : Desk} → Step d d' → Names d d'
unfolding process_command
step-Names (command o source r d m) =
    if_intro (λ (t : Outcome). Names d t.desk) (held_back source d) (λ _. same-Names d)
      (λ _. handle-Names o source r d m)
step-Names (service s) = Shrinks-Names _ _ (Service-Shrinks s)

-- Steps of the loop while a transfer stays under way.
pub data During (on : Desk → Bool) (s : Desk) : Desk → Type 0 where
  here : on s ≡ true → During on s s
  next : {t u : Desk} → During on s t → Step t u → on u ≡ true → During on s u

on_at_end : {on : Desk → Bool} {s d : Desk} → During on s d → on d ≡ true
on_at_end (here h) = h
on_at_end (next r st h) = h

abbrev pub downloading : Desk → Bool
downloading d = d.dl.active

abbrev pub uploading : Desk → Bool
uploading d = d.ul.active

download-named :
    {s d : Desk}
    → During downloading s d
    → pattern_name d.catalog d.dl.idx ≡ pattern_name s.catalog s.dl.idx
download-named (here h) = refl
download-named (next r st h) = (step-Names st).dl (on_at_end r) h ∙ download-named r

upload-named :
    {s d : Desk}
    → During uploading s d
    → pattern_name d.catalog d.ul.idx ≡ pattern_name s.catalog s.ul.idx
upload-named (here h) = refl
upload-named (next r st h) = (step-Names st).ul (on_at_end r) h ∙ upload-named r

-- While a download stays under way, whatever the commands and the services do in between, its index
-- stands for the same pattern of the list, although deletions shift the indices; the same holds of
-- an upload. The manifest is written whenever a pattern is deleted.
pub During-named :
    (s d : Desk)
    → (During downloading s d → pattern_name d.catalog d.dl.idx ≡ pattern_name s.catalog s.dl.idx)
      × (During uploading s d → pattern_name d.catalog d.ul.idx ≡ pattern_name s.catalog s.ul.idx)
During-named s d = (download-named, upload-named)
