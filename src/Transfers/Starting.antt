-- ===== src/Transfers/Starting.antt =====
-- The commands of src/CommandProcessor.cpp that start a transfer or change the list keep the transfers apart.
use led_display_g6_firmware.Common.{
  ℕ, ◌+◌, ◌%◌, ◌≤◌, ◌<◌, ◌≡◌, false, not, List, length, arith, if_intro, option_intro, ltb, leb,
  ◌==◌, ◌&&◌, ◌||◌,
}
use led_display_g6_firmware.Patterns.Catalog.{
  Name, Catalog, purge_memory, rename_pattern, pattern_name, ce_none,
}
use led_display_g6_firmware.Transport.Rx.{set_pattern_file_cmd, pattern_name_byte_count}
use led_display_g6_firmware.Transfers.Archive.{handle_get_sd_archive}
use led_display_g6_firmware.Transfers.Desk.{Source, is_off, pattern_busy}
use led_display_g6_firmware.Transfers.Handlers.{
  Desk, Outside, Outcome, held_back, get_pattern_file, start_download, pattern_path,
  handle_bulk_write, get_sd_archive, any_transfer, purge_memory_command, set_pattern_filename,
}
use led_display_g6_firmware.Transfers.Apart.{Interlocked, same_sym}

-- The handlers of commands that came through the dispatch.
module _ (o : Outside) (source : Source) (d : Desk) (free : held_back source d ≡ false)
    (v : Interlocked d) where
  start_download-Interlocked :
      (idx : ℕ) (content : List ℕ)
      → 0 < idx
      → idx ≤ length d.catalog.names
      → pattern_busy d.dl d.ul idx ≡ false
      → Interlocked (start_download o source idx content d).desk
  unfolding held_back pattern_busy
  start_download-Interlocked idx content positive listed idle = record {
    files_apart = λ a b e. ground (arith, b, e, idle);
    upload_alone = v.upload_alone;
    links_apart = λ a b. ground (arith, b, free, same_sym source d.ul.source);
    archive_apart = λ a b. ground (arith, b, free, same_sym source d.ar.source);
    download_some = λ a. positive;
    download_listed = λ a. listed;
    upload_listed = v.upload_listed;
  }

  pub get_pattern_file-Interlocked :
      (claimed_len idx : ℕ) → Interlocked (get_pattern_file o source claimed_len idx d).desk
  unfolding get_pattern_file
  get_pattern_file-Interlocked claimed_len idx =
      if_intro P (not (is_off d.state)) (λ _. v)
        (λ _.
          if_intro P d.dl.active (λ _. v)
            (λ _.
              if_intro P (not (claimed_len == 3)) (λ _. v)
                (λ _.
                  if_intro P ((idx == 0) || ltb (length d.catalog.names) idx) (λ _. v)
                    (λ h.
                      if_intro P (pattern_busy d.dl d.ul idx) (λ _. v)
                        (λ k.
                          option_intro P (pattern_name d.catalog idx) (λ _. v)
                            (λ name _.
                              option_intro P (o.files (pattern_path name)) (λ _. v)
                                (λ content _.
                                  start_download-Interlocked idx content (ground (arith, h))
                                    (ground (arith, h)) k)))))))
    where
      P : Outcome → Type 0
      P t = Interlocked t.desk

  pub handle_bulk_write-Interlocked :
      (cmd idx total : ℕ) → Interlocked (handle_bulk_write o source cmd idx total d).desk
  unfolding handle_bulk_write held_back
  handle_bulk_write-Interlocked cmd idx total =
      if_intro P (not (cmd == set_pattern_file_cmd)) (λ _. v)
        (λ _.
          if_intro P (total == 0) (λ _. v)
            (λ _.
              if_intro P (not (is_off d.state)) (λ _. v)
                (λ _.
                  if_intro P d.ul.active (λ _. v)
                    (λ _.
                      if_intro P (d.dl.active && (d.dl.idx == idx)) (λ _. v)
                        (λ h.
                          if_intro P d.ar.active (λ _. v)
                            (λ k.
                              if_intro P (ltb (length d.catalog.names) idx) (λ _. v)
                                (λ l.
                                  if_intro P (not o.writable) (λ _. v)
                                    (λ _. record {
                                      files_apart = λ a b e. ground (arith, a, e, h);
                                      upload_alone = λ a. k;
                                      links_apart = λ a b. ground (arith, a, free);
                                      archive_apart = v.archive_apart;
                                      download_some = v.download_some;
                                      download_listed = v.download_listed;
                                      upload_listed = λ a. ground (arith, l);
                                    }))))))))
    where
      P : Outcome → Type 0
      P t = Interlocked t.desk

  pub get_sd_archive-Interlocked : Interlocked (get_sd_archive o source d).desk
  unfolding get_sd_archive handle_get_sd_archive held_back
  get_sd_archive-Interlocked =
      if_intro P (not (is_off d.state)) (λ _. v)
        (λ _.
          if_intro P d.ar.active (λ _. v)
            (λ _.
              if_intro P d.ul.active (λ _. v)
                (λ k. record {
                  files_apart = v.files_apart;
                  upload_alone = λ a. absurd (ground (arith, a, k));
                  links_apart = v.links_apart;
                  archive_apart = λ a b. ground (arith, a, free);
                  download_some = v.download_some;
                  download_listed = v.download_listed;
                  upload_listed = v.upload_listed;
                })))
    where
      P : Outcome → Type 0
      P t = Interlocked t.desk

  -- With no transfer under way the library may change at will.
  idle-Interlocked : (c : Catalog) → any_transfer d ≡ false → Interlocked (record d { catalog = c })
  idle-Interlocked c h = record {
    files_apart = v.files_apart;
    upload_alone = v.upload_alone;
    links_apart = v.links_apart;
    archive_apart = v.archive_apart;
    download_some = v.download_some;
    download_listed = λ a. absurd (ground (arith, a, h));
    upload_listed = λ a. absurd (ground (arith, a, h));
  }

  pub purge_memory-Interlocked : Interlocked (purge_memory_command o d).desk
  unfolding purge_memory_command
  purge_memory-Interlocked =
      if_intro P (not (is_off d.state)) (λ _. v)
        (λ _.
          if_intro P (any_transfer d) (λ _. v)
            (λ h.
              if_intro P (not ((purge_memory o.card d.catalog).0 == ce_none))
                (λ _. idle-Interlocked (purge_memory o.card d.catalog).1 h)
                (λ _. idle-Interlocked (purge_memory o.card d.catalog).1 h)))
    where
      P : Outcome → Type 0
      P t = Interlocked t.desk

  pub set_pattern_filename-Interlocked :
      (claimed_len idx name_len : ℕ) (name : Name)
      → Interlocked (set_pattern_filename o claimed_len idx name_len name d).desk
  unfolding set_pattern_filename
  set_pattern_filename-Interlocked claimed_len idx name_len name =
      let c = (rename_pattern o.card o.exists idx name d.catalog).1 in
      if_intro P (ltb claimed_len 4) (λ _. v)
        (λ _.
          if_intro P
            ((name_len == 0)
              || (leb pattern_name_byte_count name_len || ltb claimed_len ((4 + name_len) % 256)))
            (λ _. v)
            (λ _.
              if_intro P (ltb (length d.catalog.names) idx) (λ _. v)
                (λ _.
                  if_intro P (any_transfer d) (λ _. v)
                    (λ h.
                      if_intro P
                        (not ((rename_pattern o.card o.exists idx name d.catalog).0 == ce_none))
                        (λ _. idle-Interlocked c h) (λ _. idle-Interlocked c h)))))
    where
      P : Outcome → Type 0
      P t = Interlocked t.desk
