-- ===== src/Transfers/Interlock.antt =====
-- Every command that goes through the dispatch keeps the transfers apart.
use led_display_g6_firmware.Common.{
  ℕ, suc, ◌≤◌, ◌<◌, ◌≡◌, true, false, not, length, arith, if_intro, Bool-cases, inl, inr, leb, ◌==◌,
}
use led_display_g6_firmware.Patterns.Catalog.{Catalog, delete_pattern, ce_none}
use led_display_g6_firmware.Transfers.Desk.{Source, pattern_busy}
use led_display_g6_firmware.Transfers.Handlers.{
  Desk, Outside, Outcome, held_back, handle, delete_pattern_file, shift_indices, process_command,
  Request, download, upload, delete, purge, rename, archive,
}
use led_display_g6_firmware.Transfers.Apart.{Interlocked, Shrinks-Interlocked, still-Kept}
use led_display_g6_firmware.Transfers.Starting.{
  get_pattern_file-Interlocked, get_sd_archive-Interlocked, handle_bulk_write-Interlocked,
  purge_memory-Interlocked, set_pattern_filename-Interlocked,
}
use led_display_g6_firmware.Transfers.Deleting.{
  delete_pattern-failed, delete_pattern-listed, delete_pattern-shorter, delete_pattern-temp,
}

-- A pattern below the latched ones goes, and they go down with the list.
shifted-Interlocked :
    (idx : ℕ) (c : Catalog) (d : Desk)
    → 0 < idx
    → idx ≤ length d.catalog.names
    → suc (length c.names) ≡ length d.catalog.names
    → pattern_busy d.dl d.ul idx ≡ false
    → Interlocked d
    → Interlocked (shift_indices idx (record d { catalog = c }))
unfolding pattern_busy
shifted-Interlocked idx c d z listed n busy v =
    if_intro Interlocked (leb 1 idx)
      (λ h. record {
        files_apart = λ a b. ground (arith, a, b, busy, v.files_apart a b);
        upload_alone = v.upload_alone;
        links_apart = v.links_apart;
        archive_apart = v.archive_apart;
        download_some = λ a. ground (arith, a, busy, v.download_some a);
        download_listed = λ a. ground (arith, a, busy, n, v.download_listed a);
        upload_listed = λ a. ground (arith, a, busy, n, v.upload_listed a);
      })
      (λ h. absurd (ground (arith, h)))

delete_pattern_file-Interlocked :
    (o : Outside) (claimed_len idx : ℕ) (d : Desk)
    → o.card.manifest ≡ true
    → Interlocked d
    → Interlocked (delete_pattern_file o claimed_len idx d).desk
unfolding delete_pattern_file
delete_pattern_file-Interlocked o claimed_len idx d m v =
    if_intro P (not (claimed_len == 3)) (λ _. v)
      (λ _.
        if_intro P (pattern_busy d.dl d.ul idx) (λ _. v)
          (λ k.
            if_intro P (not ((delete_pattern o.card idx d.catalog).0 == ce_none))
              (λ h. same_names (delete_pattern-failed o.card idx d.catalog m (ground (arith, h))))
              (λ h.
                let good : ((delete_pattern o.card idx d.catalog).0 == ce_none) ≡ true =
                  ground (arith, h) in
                elim (Bool-cases (leb 1 idx)) [
                  | inl z ↦
                      shifted-Interlocked idx c d (ground (arith, z))
                        (delete_pattern-listed o.card idx d.catalog good)
                        (delete_pattern-shorter o.card idx d.catalog (ground (arith, z)) good) k v
                  | inr z ↦
                      if_intro Interlocked (leb 1 idx) (λ y. absurd (ground (arith, z, y)))
                        (λ y.
                          same_names (delete_pattern-temp o.card idx d.catalog (ground (arith, z))))
                ])))
  where
    P : Outcome → Type 0
    P t = Interlocked t.desk

    c : Catalog
    c = (delete_pattern o.card idx d.catalog).1

    same_names : c.names ≡ d.catalog.names → Interlocked (record d { catalog = c })
    same_names e =
        Shrinks-Interlocked d (record d { catalog = c })
          (record {
            names = e;
            dl = still-Kept d.dl.active d.dl.source d.dl.idx;
            ul = still-Kept d.ul.active d.ul.source d.ul.idx;
            ar = still-Kept d.ar.active d.ar.source 0;
          })
          v

handle-Interlocked :
    (o : Outside) (source : Source) (r : Request) (d : Desk)
    → o.card.manifest ≡ true
    → held_back source d ≡ false
    → Interlocked d
    → Interlocked (handle o source r d).desk
handle-Interlocked o source (download claimed_len idx) d m free v =
    get_pattern_file-Interlocked o source d free v claimed_len idx
handle-Interlocked o source (upload cmd idx total) d m free v =
    handle_bulk_write-Interlocked o source d free v cmd idx total
handle-Interlocked o source (delete claimed_len idx) d m free v =
    delete_pattern_file-Interlocked o claimed_len idx d m v
handle-Interlocked o source purge d m free v = purge_memory-Interlocked o source d free v
handle-Interlocked o source (rename claimed_len idx name_len name) d m free v =
    set_pattern_filename-Interlocked o source d free v claimed_len idx name_len name
handle-Interlocked o source archive d m free v = get_sd_archive-Interlocked o source d free v

pub process_command-Interlocked :
    (o : Outside) (source : Source) (r : Request) (d : Desk)
    → o.card.manifest ≡ true
    → Interlocked d
    → Interlocked (process_command o source r d).desk
unfolding process_command
process_command-Interlocked o source r d m v =
    if_intro (λ (t : Outcome). Interlocked t.desk) (held_back source d) (λ _. v)
      (λ h. handle-Interlocked o source r d m h v)
