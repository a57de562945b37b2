-- ===== src/Patterns/Catalog.antt =====
-- The name list of src/SdManager.cpp: insertSorted, removeAt, the lookups and deletePattern. A name
-- is the list of its characters; the two arrays are lists of so many entries as pattern_count_ says.
-- Whether the card has, removes or writes a file is an argument.
use led_display_g6_firmware.Common.{
  ℕ, zero, suc, ◌+◌, ◌-◌, ◌/◌, ◌%◌, take, Bool, true, false, not, List, [], ◌∷◌, Option, some, none,
  length, get_or, ltb, leb, ◌==◌, ◌&&◌, ◌||◌, if◌then◌else◌,
}

abbrev pub Name : Type 0
Name = List ℕ

abbrev pub pattern_max_count : ℕ
pattern_max_count = 256

abbrev pub ce_none : ℕ
ce_none = 0

abbrev pub ce_bad_param : ℕ
ce_bad_param = 3

abbrev pub ce_sd_not_present : ℕ
ce_sd_not_present = 4

abbrev pub ce_sd_file_error : ℕ
ce_sd_file_error = 5

abbrev pub ce_manifest_write_error : ℕ
ce_manifest_write_error = 9

abbrev pub ce_sd_format_error : ℕ
ce_sd_format_error = 11

-- strcmp(a, b) > 0
abbrev pub greater : Name → Name → Bool
greater [] b = false
greater (x ∷ a) [] = true
greater (x ∷ a) (y ∷ b) = if x == y then greater a b else ltb y x

-- `file` is the name under which the open handle was opened.
pub record Catalog : Type 0 where
  pub mounted : Bool
  pub names : List Name
  pub origins : List Name
  pub file_open : Bool
  pub open_id : ℕ
  pub file : Name

-- The loop of insertSorted goes down from the end, past the greater names.
abbrev pub insert_pos : List Name → Name → ℕ → ℕ
insert_pos names name zero = 0
insert_pos names name (suc p) =
    let rest = insert_pos names name p in if greater (get_or names p []) name then rest else suc p

-- What shifting the entries from `p` up and writing entry `p` leaves.
abbrev pub insert_at : ℕ → Name → List Name → List Name
insert_at zero x xs = x ∷ xs
insert_at (suc p) x [] = x ∷ []
insert_at (suc p) x (y ∷ ys) = y ∷ insert_at p x ys

abbrev pub delete_at : ℕ → List Name → List Name
delete_at p [] = []
delete_at zero (y ∷ ys) = ys
delete_at (suc p) (y ∷ ys) = y ∷ delete_at p ys

unfoldable pub insert_sorted : Name → Name → Catalog → Catalog
insert_sorted name origin c =
    let pos = insert_pos c.names name (length c.names) in
    if leb pattern_max_count (length c.names)
    then c
    else record c { names = insert_at pos name c.names; origins = insert_at pos origin c.origins }

unfoldable pub remove_at : ℕ → Catalog → Catalog
remove_at pos c =
    if leb (length c.names) pos
    then c
    else record c { names = delete_at pos c.names; origins = delete_at pos c.origins }

unfoldable pub pattern_name : Catalog → ℕ → Option Name
pattern_name c pattern_id =
    if (pattern_id == 0) || ltb (length c.names) pattern_id
    then none
    else some (get_or c.names (pattern_id - 1) [])

-- The handle is closed when it is the deleted pattern's.
abbrev pub close_if_open : ℕ → Catalog → Catalog
close_if_open pattern_id c =
    if c.file_open && (c.open_id == pattern_id) then record c { file_open = false } else c

-- What the card answers: whether the file is there, whether removing or formatting worked, and
-- whether the manifest could be written.
pub record Card : Type 0 where
  pub there : Bool
  pub done : Bool
  pub manifest : Bool

abbrev pub with_manifest : Card → Catalog → ℕ × Catalog
with_manifest k c = (if k.manifest then ce_none else ce_manifest_write_error, c)

unfoldable pub delete_pattern : Card → ℕ → Catalog → ℕ × Catalog
delete_pattern k pattern_id c =
    let closed = if pattern_id == 0 then c else close_if_open pattern_id c in
    let removed = if ltb 0 pattern_id then remove_at (pattern_id - 1) closed else closed in
    if not c.mounted
    then (ce_sd_not_present, c)
    else if (pattern_id == 0) && not k.there
    then (ce_bad_param, c)
    else if ltb (length c.names) pattern_id
    then (ce_bad_param, c)
    else if not k.done
    then (ce_sd_file_error, closed)
    else with_manifest k removed

unfoldable pub purge_memory : Card → Catalog → ℕ × Catalog
purge_memory k c =
    let closed = record c { file_open = false } in
    if not c.mounted
    then (ce_sd_not_present, c)
    else if not k.done
    then (ce_sd_format_error, closed)
    else with_manifest k (record closed { names = []; origins = [] })

-- "X%03u_%s" for a number of at most three digits, cut to 63 characters.
abbrev pub prefixed : ℕ → Name → Name
prefixed n name =
    take 63 (0x58 ∷ (0x30 + n / 100) ∷ (0x30 + n / 10 % 10) ∷ (0x30 + n % 10) ∷ 0x5f ∷ name)

-- The search for a free name: `rounds` are left of the 999.
abbrev pub free_name : ℕ → (Name → Bool) → ℕ → Name → Name → Name
free_name zero exists n name candidate = candidate
free_name (suc rounds) exists n name candidate =
    let rest = free_name rounds exists (n + 1) name (prefixed n name) in
    if exists candidate then rest else candidate

abbrev pub same_name : Name → Name → Bool
same_name a b = not (greater a b) && not (greater b a)

-- One more than the place of a name, or 0.
abbrev pub index_of : Name → ℕ → List Name → ℕ
index_of name i [] = 0
index_of name i (x ∷ xs) =
    let rest = index_of name (i + 1) xs in if same_name x name then i + 1 else rest

-- The error, the catalog, and the index reported, which is 0 when the rename fails.
unfoldable pub rename_pattern : Card → (Name → Bool) → ℕ → Name → Catalog → ℕ × Catalog × ℕ
rename_pattern k exists pattern_id new_name c =
    let candidate = free_name 999 exists 1 new_name (take 63 new_name) in
    let closed = if pattern_id == 0 then c else close_if_open pattern_id c in
    let origin = if pattern_id == 0 then candidate else get_or c.origins (pattern_id - 1) [] in
    let removed = if ltb 0 pattern_id then remove_at (pattern_id - 1) closed else closed in
    let renamed = insert_sorted candidate origin removed in
    if not c.mounted
    then (ce_sd_not_present, c, 0)
    else if ltb (length c.names) pattern_id
    then (ce_bad_param, c, 0)
    else if not k.done
    then (ce_sd_file_error, closed, 0)
    else (
      if k.manifest then ce_none else ce_manifest_write_error,
      renamed,
      index_of candidate 0 renamed.names,
    )

-- What scanPatterns puts into the list, of which the names go straight into their places.
abbrev pub scan : List Name → List Name → List Name
scan names [] = names
scan names (name ∷ entries) =
    let grown = insert_at (insert_pos names name (length names)) name names in
    scan (if ltb (length names) pattern_max_count then grown else names) entries

-- rescan with the entries of the directory that are pattern files, on a mounted card.
unfoldable pub rescan : List Name → Catalog → Catalog
rescan entries c = record c { names = scan [] entries; origins = scan [] entries }
