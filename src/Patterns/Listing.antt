-- ===== src/Patterns/Listing.antt =====
-- The list of patterns stays sorted and parallel to the origins through every operation, and the
-- open handle stays the handle of its number unless a pattern below it goes.
use led_display_g6_firmware.Common.{
  ℕ, suc, ◌-◌, ◌≤◌, ◌<◌, ◌≡◌, refl, sym, ap, ◌∙◌, Bool, not, List, [], ◌∷◌, length, get_or, ltb,
  leb, ◌==◌, ◌&&◌, if◌then◌else◌, arith, if_intro, take,
}
use led_display_g6_firmware.Patterns.Catalog.{
  Name, Catalog, Card, insert_pos, insert_at, insert_sorted, remove_at, close_if_open,
  delete_pattern, purge_memory, rename_pattern, free_name, scan, rescan, pattern_max_count,
}
use led_display_g6_firmware.Patterns.Ordering.{
  Sorted, insertion-Sorted, delete_at-Sorted, length-insert_at, length-delete_at,
}

-- The names are sorted, each has its origin, and they fit the arrays.
pub record Listed (c : Catalog) : Type 0 where
  pub sorted : Sorted c.names
  pub parallel : length c.origins ≡ length c.names
  pub fits : length c.names ≤ pattern_max_count

insert_sorted-Listed :
    (name origin : Name) (c : Catalog) → Listed c → Listed (insert_sorted name origin c)
unfolding insert_sorted
insert_sorted-Listed name origin c v =
    if_intro Listed (leb pattern_max_count (length c.names)) (λ p. v)
      (λ p. record {
        sorted = insertion-Sorted name c.names v.sorted;
        parallel =
            length-insert_at (insert_pos c.names name (length c.names)) origin c.origins
            ∙ ap suc v.parallel
            ∙ sym (length-insert_at (insert_pos c.names name (length c.names)) name c.names);
        fits =
            ground
              (arith, p, length-insert_at (insert_pos c.names name (length c.names)) name c.names);
      })

remove_at-Listed : (pos : ℕ) (c : Catalog) → Listed c → Listed (remove_at pos c)
unfolding remove_at
remove_at-Listed pos c v =
    if_intro Listed (leb (length c.names) pos) (λ p. v)
      (λ p.
        let h : pos < length c.names = ground (arith, p) in
        record {
          sorted = delete_at-Sorted pos c.names v.sorted;
          parallel = omega (
            arith,
            length-delete_at pos c.names h,
            length-delete_at pos c.origins (omega (arith, v.parallel)),
            v.parallel,
          );
          fits = omega (arith, length-delete_at pos c.names h, v.fits);
        })

close-Listed : (id : ℕ) (c : Catalog) → Listed c → Listed (close_if_open id c)
close-Listed id c v =
    if_intro Listed (c.file_open && (c.open_id == id))
      (λ p. record { sorted = v.sorted; parallel = v.parallel; fits = v.fits }) (λ p. v)

closed-Listed :
    (id : ℕ) (c : Catalog) → Listed c → Listed (if id == 0 then c else close_if_open id c)
closed-Listed id c v = if_intro Listed (id == 0) (λ p. v) (λ p. close-Listed id c v)

removed-Listed :
    (id : ℕ) (c : Catalog) → Listed c → Listed (if ltb 0 id then remove_at (id - 1) c else c)
removed-Listed id c v = if_intro Listed (ltb 0 id) (λ p. remove_at-Listed (id - 1) c v) (λ p. v)

delete_pattern-Listed :
    (k : Card) (id : ℕ) (c : Catalog) → Listed c → Listed (delete_pattern k id c).1
unfolding delete_pattern
delete_pattern-Listed k id c v =
    if_intro P (not c.mounted) (λ p. v)
      (λ p.
        if_intro P ((id == 0) && not k.there) (λ q. v)
          (λ q.
            if_intro P (ltb (length c.names) id) (λ l. v)
              (λ l.
                if_intro P (not k.done) (λ m. closed-Listed id c v)
                  (λ m. removed-Listed id _ (closed-Listed id c v)))))
  where
    P : ℕ × Catalog → Type 0
    P r = Listed r.1

purge_memory-Listed : (k : Card) (c : Catalog) → Listed c → Listed (purge_memory k c).1
unfolding purge_memory
purge_memory-Listed k c v =
    if_intro P (not c.mounted) (λ p. v)
      (λ p.
        if_intro P (not k.done)
          (λ q. record { sorted = v.sorted; parallel = v.parallel; fits = v.fits })
          (λ q. record { sorted = refl; parallel = refl; fits = omega arith }))
  where
    P : ℕ × Catalog → Type 0
    P r = Listed r.1

rename_pattern-Listed :
    (k : Card) (exists : Name → Bool) (id : ℕ) (name : Name) (c : Catalog)
    → Listed c
    → Listed (rename_pattern k exists id name c).1
unfolding rename_pattern
rename_pattern-Listed k exists id name c v =
    if_intro P (not c.mounted) (λ p. v)
      (λ p.
        if_intro P (ltb (length c.names) id) (λ q. v)
          (λ q.
            if_intro P (not k.done) (λ l. closed-Listed id c v)
              (λ l.
                insert_sorted-Listed candidate
                  (if id == 0 then candidate else get_or c.origins (id - 1) []) _
                  (removed-Listed id _ (closed-Listed id c v)))))
  where
    P : ℕ × Catalog × ℕ → Type 0
    P r = Listed r.1

    candidate : Name
    candidate = free_name 999 exists 1 name (take 63 name)

scan-Sorted :
    (names entries : List Name)
    → Sorted names
    → length names ≤ pattern_max_count
    → Sorted (scan names entries) × (length (scan names entries) ≤ pattern_max_count)
scan-Sorted names [] s h = (s, h)
scan-Sorted names (e ∷ es) s h =
    let grown = insert_at (insert_pos names e (length names)) e names in
    let next = if ltb (length names) pattern_max_count then grown else names in
    let ok : Sorted next × (length next ≤ pattern_max_count) =
      if_intro (λ (xs : List Name). Sorted xs × (length xs ≤ pattern_max_count))
        (ltb (length names) pattern_max_count)
        (λ p. (
          insertion-Sorted e names s,
          ground (arith, p, length-insert_at (insert_pos names e (length names)) e names),
        ))
        (λ p. (s, h)) in
    scan-Sorted next es ok.0 ok.1

-- What changes the list.
pub data Request : Type 0 where
  delete : Card → ℕ → Request
  purge : Card → Request
  rename : Card → (Name → Bool) → ℕ → Name → Request
  scan_again : List Name → Request

abbrev pub request : Catalog → Request → Catalog
request c (delete k id) = (delete_pattern k id c).1
request c (purge k) = (purge_memory k c).1
request c (rename k exists id name) = (rename_pattern k exists id name c).1
request c (scan_again entries) = rescan entries c

abbrev pub requests : Catalog → List Request → Catalog
requests c [] = c
requests c (r ∷ rs) = requests (request c r) rs

rescan-Listed : (entries : List Name) (c : Catalog) → Listed (rescan entries c)
unfolding rescan
rescan-Listed entries c =
    let s = scan-Sorted [] entries refl (omega arith) in
    record { sorted = s.0; parallel = refl; fits = s.1 }

request-Listed : (c : Catalog) (r : Request) → Listed c → Listed (request c r)
request-Listed c (delete k id) v = delete_pattern-Listed k id c v
request-Listed c (purge k) v = purge_memory-Listed k c v
request-Listed c (rename k exists id name) v = rename_pattern-Listed k exists id name c v
request-Listed c (scan_again entries) v = rescan-Listed entries c

-- Through any deletions, renames, formats and scans, whatever the card answers, the names stay
-- sorted, each keeps a place for its origin, and they fit the arrays.
pub requests-Listed : (c : Catalog) (rs : List Request) → Listed c → Listed (requests c rs)
requests-Listed c [] v = v
requests-Listed c (r ∷ rs) v = requests-Listed (request c r) rs (request-Listed c r v)
