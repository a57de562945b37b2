-- ===== src/Transfers/Written.antt =====
-- What serviceArchive writes has the fields of a ZIP file at their places.
use mathlib.Core.List.{append_assoc}
use led_display_g6_firmware.Common.{
  ℕ, zero, suc, ◌+◌, ◌/◌, ◌%◌, ◌^◌, ◌<◌, ◌≤◌, ◌≡◌, refl, sym, ap, ◌∙◌, subst, Bool, true, List, [],
  ◌∷◌, ◌++◌, length, take, drop, get_or, ltb, ◌&&◌, bit_xor, bit_and, arith, length-append,
  length-take, option_intro, if_intro, take-append, drop-append,
}
use led_display_g6_firmware.Common.Bits.{bit_xor_bound}
use led_display_g6_firmware.Patterns.Catalog.{Name}
use led_display_g6_firmware.Panel.Crc.{crc32_update, crc32_nibble, crc32_table}
use led_display_g6_firmware.Transfers.Archive.{
  Files, add_entry, add_patterns, collect, manifest_bin, manifest_txt, patterns_prefix,
  archive_max_entries, ZipEntry, local_header_bytes, eocd_bytes, descriptor_bytes,
  central_dir_bytes,
}
use led_display_g6_firmware.Transfers.Format.{
  checksum, Member, DirectoryRecord, LocalEntry, Members, EndRecord, IsZip,
}
use led_display_g6_firmware.Transfers.Zip.{
  with_crc, with_crcs, bodies, directory, Sized, locate, zip, bodies_size, records_size,
  length-bodies, length-directory,
}

-- A checksum has 32 bits.
all_ltb : ℕ → List ℕ → Bool
all_ltb k [] = true
all_ltb k (x ∷ xs) = ltb x k && all_ltb k xs

get_or_bound : (k : ℕ) (xs : List ℕ) (n : ℕ) → 0 < k → all_ltb k xs ≡ true → get_or xs n 0 < k
unfolding all_ltb
get_or_bound k [] n h e = h
get_or_bound k (x ∷ xs) zero h e = ground (arith, e)
get_or_bound k (x ∷ xs) (suc n) h e = get_or_bound k xs n h (ground (arith, e))

table_bound : all_ltb (2 ^ 32) crc32_table ≡ true
unfolding all_ltb
table_bound = refl

crc32_nibble_bound : (crc b : ℕ) → crc < 2 ^ 32 → crc32_nibble crc b < 2 ^ 32
crc32_nibble_bound crc b h =
    bit_xor_bound 32 (get_or crc32_table (bit_and (bit_xor crc b) 0xf) 0) (crc / 16)
      (get_or_bound (2 ^ 32) crc32_table (bit_and (bit_xor crc b) 0xf) (omega arith) table_bound)
      (omega (arith, h))

crc32_update_bound : (crc : ℕ) (bs : List ℕ) → crc < 2 ^ 32 → crc32_update crc bs < 2 ^ 32
unfolding crc32_update
crc32_update_bound crc [] h = h
crc32_update_bound crc (b ∷ bs) h =
    crc32_update_bound (crc32_nibble (crc32_nibble crc b) (b / 16)) bs
      (crc32_nibble_bound (crc32_nibble crc b) (b / 16) (crc32_nibble_bound crc b h))

checksum_bound : (content : List ℕ) → checksum content < 2 ^ 32
checksum_bound content =
    bit_xor_bound 32 (crc32_update 0xffffffff content) 0xffffffff
      (crc32_update_bound 0xffffffff content (omega arith)) (omega arith)

abbrev pub member : ZipEntry → List ℕ → Member
member e content = record { name = e.zip_name; content = content }

abbrev pub members : List ZipEntry → List (List ℕ) → List Member
members [] contents = []
members (e ∷ es) [] = []
members (e ∷ es) (content ∷ contents) = member e content ∷ members es contents

central-DirectoryRecord :
    (e : ZipEntry) (content behind : List ℕ)
    → length content ≡ e.file_size
    → e.file_size < 2 ^ 32
    → e.lhf_offset < 2 ^ 32
    → length e.zip_name < 256
    → DirectoryRecord
        (central_dir_bytes (with_crc e 0xffffffff content) ++ behind)
        (member e content)
        e.lhf_offset
unfolding central_dir_bytes
central-DirectoryRecord e content behind sized small near short = record {
  signature = refl;
  flags = refl;
  stored = refl;
  crc = omega (arith, checksum_bound content);
  packed_size = omega (arith, sized, small);
  size = omega (arith, sized, small);
  name_size = omega (arith, short);
  extra_size = refl;
  comment_size = refl;
  disk = refl;
  place = omega (arith, near);
  name = take-append e.zip_name behind;
}

central_behind :
    (e : ZipEntry) (behind : List ℕ)
    → drop (length e.zip_name) (drop 46 (central_dir_bytes e ++ behind)) ≡ behind
unfolding central_dir_bytes
central_behind e behind = drop-append e.zip_name behind

written-LocalEntry :
    (e : ZipEntry) (content behind : List ℕ)
    → length content ≡ e.file_size
    → e.file_size < 2 ^ 32
    → length e.zip_name < 256
    → LocalEntry
        (local_header_bytes e
          ++ (content ++ (descriptor_bytes (with_crc e 0xffffffff content) ++ behind)))
        (member e content)
unfolding local_header_bytes descriptor_bytes
written-LocalEntry e content behind sized small short = record {
  signature = refl;
  flags = refl;
  stored = refl;
  name_size = omega (arith, short);
  extra_size = refl;
  name = take-append e.zip_name _;
  content = rw payload (take-append content _);
  descriptor = rw (payload, described) refl;
  crc = rw (payload, described) (omega (arith, checksum_bound content));
  packed_size = rw (payload, described) (omega (arith, sized, small));
  size = rw (payload, described) (omega (arith, sized, small));
}
  where
    tail : List ℕ
    tail = descriptor_bytes (with_crc e 0xffffffff content) ++ behind

    payload : drop (length e.zip_name) (e.zip_name ++ (content ++ tail)) ≡ content ++ tail
    payload = drop-append e.zip_name (content ++ tail)

    described : drop (length content) (content ++ tail) ≡ tail
    described = drop-append content tail

written-EndRecord :
    (count size place : ℕ)
    → count < 65536
    → size < 2 ^ 32
    → place < 2 ^ 32
    → EndRecord (eocd_bytes count size place) count size place
unfolding eocd_bytes
written-EndRecord count size place few small near = record {
  signature = refl;
  disk = refl;
  directory_disk = refl;
  members_here = omega (arith, few);
  members = omega (arith, few);
  directory_size = omega (arith, small);
  directory_place = omega (arith, near);
  comment_size = refl;
  whole = refl;
}

-- The names have fewer than 256 characters.
abbrev pub Named : List ZipEntry → Type 0
Named [] = true ≡ true
Named (e ∷ es) = (length e.zip_name < 256) × Named es

-- An entry with its data, before what follows.
abbrev one : ZipEntry → List ℕ → List ℕ
one e content = bodies (e ∷ []) (content ∷ [])

bodies_apart :
    (e : ZipEntry) (content behind : List ℕ)
    → one e content ++ behind
      ≡ local_header_bytes e
        ++ (content ++ (descriptor_bytes (with_crc e 0xffffffff content) ++ behind))
bodies_apart e content behind =
    append_assoc (local_header_bytes e) (content ++ (dd ++ [])) behind
    ∙ ap (λ (xs : List ℕ). local_header_bytes e ++ xs)
        (append_assoc content (dd ++ []) behind
          ∙ ap (λ (xs : List ℕ). content ++ xs) (append_assoc dd [] behind))
  where
    dd : List ℕ
    dd = descriptor_bytes (with_crc e 0xffffffff content)

bodies_first :
    (e : ZipEntry) (es : List ZipEntry) (content : List ℕ) (contents : List (List ℕ))
    → bodies (e ∷ es) (content ∷ contents) ≡ one e content ++ bodies es contents
bodies_first e es content contents = sym (bodies_apart e content (bodies es contents))

-- The directory lists the entries where they stand behind `front`.
located-Members :
    (es : List ZipEntry) (contents : List (List ℕ)) (front tail behind file : List ℕ) (offset : ℕ)
    → offset ≡ length front
    → file ≡ front ++ (bodies es contents ++ tail)
    → Sized es contents
    → Named es
    → offset + bodies_size es < 2 ^ 32
    → Members file
        (directory (with_crcs (locate offset es contents) contents) ++ behind)
        (members es contents)
        behind
located-Members [] contents front tail behind file offset o whole s n fits = refl
located-Members (e ∷ es) [] front tail behind file offset o whole s n fits =
    absurd (omega (arith, s))
located-Members (e ∷ es) (content ∷ contents) front tail behind file offset o whole s n fits = (
  offset,
  subst (λ (xs : List ℕ). DirectoryRecord xs (member e content) offset) (sym apart)
      (central-DirectoryRecord placed content rest s.0 (omega (arith, fits)) (omega (arith, fits))
        n.0),
  subst (λ (xs : List ℕ). LocalEntry xs (member e content)) (sym here)
      (written-LocalEntry e content (bodies es contents ++ tail) s.0 (omega (arith, fits)) n.0),
  subst (λ (xs : List ℕ). Members file xs (members es contents) behind)
      (sym (central_behind described rest)
        ∙ ap (λ (xs : List ℕ). drop (length e.zip_name) (drop 46 xs)) (sym apart))
      (located-Members es contents (front ++ one e content) tail behind file next beyond onward s.1
        n.1 (omega (arith, fits, one_size))),
)
  where
    placed : ZipEntry
    placed = record e { lhf_offset = offset }

    described : ZipEntry
    described = with_crc placed 0xffffffff content

    next : ℕ
    next = offset + length (one e content)

    rest : List ℕ
    rest = directory (with_crcs (locate next es contents) contents) ++ behind

    apart :
        directory (with_crcs (locate offset (e ∷ es) (content ∷ contents)) (content ∷ contents))
          ++ behind
        ≡ central_dir_bytes described ++ rest
    apart =
        append_assoc (central_dir_bytes described)
          (directory (with_crcs (locate next es contents) contents)) behind

    one_size : length (one e content) ≡ 30 + length e.zip_name + e.file_size + 16
    one_size = omega (arith, length-bodies (e ∷ []) (content ∷ []) (s.0, refl))

    beyond : next ≡ length (front ++ one e content)
    beyond = omega (arith, o, length-append front (one e content))

    split :
        bodies (e ∷ es) (content ∷ contents) ++ tail ≡ one e content ++ (bodies es contents ++ tail)
    split =
        ap (λ (xs : List ℕ). xs ++ tail) (bodies_first e es content contents)
        ∙ append_assoc (one e content) (bodies es contents) tail

    onward : file ≡ (front ++ one e content) ++ (bodies es contents ++ tail)
    onward =
        whole
        ∙ ap (λ (xs : List ℕ). front ++ xs) split
        ∙ sym (append_assoc front (one e content) (bodies es contents ++ tail))

    here :
        drop offset file
        ≡ local_header_bytes e
          ++ (content
              ++ (descriptor_bytes (with_crc e 0xffffffff content) ++ (bodies es contents ++ tail)))
    here =
        ap (λ (k : ℕ). drop k file) o
        ∙ ap (drop (length front)) whole
        ∙ drop-append front (bodies (e ∷ es) (content ∷ contents) ++ tail)
        ∙ split
        ∙ bodies_apart e content (bodies es contents ++ tail)

-- The whole file is a ZIP file of the entries with these contents.
pub zip-IsZip :
    (es : List ZipEntry) (contents : List (List ℕ))
    → Sized es contents
    → Named es
    → bodies_size es < 2 ^ 32
    → records_size es < 2 ^ 32
    → length es < 65536
    → IsZip (zip es contents) (members es contents)
zip-IsZip es contents s n fits fits' few = record {
  place = length body;
  size = length dir;
  members =
      subst
        (λ (xs : List ℕ).
          Members file xs (members es contents) (drop (length body + length dir) file))
        (sym at_directory)
        (subst (λ (xs : List ℕ). Members file (dir ++ end) (members es contents) xs) (sym at_end)
          (located-Members es contents [] (dir ++ end) end file 0 refl refl s n
            (omega (arith, fits))));
  end =
      subst
        (λ (xs : List ℕ). EndRecord xs (length (members es contents)) (length dir) (length body))
        (sym at_end)
        (subst (λ (k : ℕ). EndRecord end k (length dir) (length body)) (sym (counted es contents s))
          (written-EndRecord (length es) (length dir) (length body) few
            (omega (arith, fits', length-directory 0 es contents s))
            (omega (arith, fits, length-bodies es contents s))));
}
  where
    body : List ℕ
    body = bodies es contents

    dir : List ℕ
    dir = directory (with_crcs (locate 0 es contents) contents)

    end : List ℕ
    end = eocd_bytes (length es) (length dir) (length body)

    file : List ℕ
    file = zip es contents

    at_directory : drop (length body) file ≡ dir ++ end
    at_directory = drop-append body (dir ++ end)

    at_end : drop (length body + length dir) file ≡ end
    at_end =
        ap (λ (k : ℕ). drop k file) (sym (length-append body dir))
        ∙ ap (drop (length (body ++ dir))) (sym (append_assoc body dir end))
        ∙ drop-append (body ++ dir) end

    counted :
        (xs : List ZipEntry) (ys : List (List ℕ)) → Sized xs ys → length (members xs ys) ≡ length xs
    counted [] ys h = refl
    counted (x ∷ xs) [] h = absurd (omega (arith, h))
    counted (x ∷ xs) (y ∷ ys) h = ap suc (counted xs ys h.1)

-- The entries that are found have names of at most 79 characters, and there are at most 258.
Named-append :
    (es : List ZipEntry) (e : ZipEntry) → length e.zip_name < 256 → Named es → Named (es ++ e ∷ [])
Named-append [] e h n = (h, refl)
Named-append (x ∷ es) e h n = (n.0, Named-append es e h n.1)

abbrev Few : ℕ → List ZipEntry → Type 0
Few k es = Named es × (length es ≤ k)

add_entry-Few :
    (card : Files) (zip_name sd_path : Name) (entries : List ZipEntry) (k : ℕ)
    → Few k entries
    → Few (suc k) (add_entry card zip_name sd_path entries)
add_entry-Few card zip_name sd_path entries k v =
    option_intro (Few (suc k)) (card (take 79 sd_path)) (λ _. (v.0, omega (arith, v.1)))
      (λ content _. (
        Named-append entries (entry_of content) (omega (arith, length-take 79 zip_name)) v.0,
        omega (arith, v.1, length-append entries (entry_of content ∷ [])),
      ))
  where
    entry_of : List ℕ → ZipEntry
    entry_of content = record {
      zip_name = take 79 zip_name;
      sd_path = take 79 sd_path;
      file_size = length content % 2 ^ 32;
      crc32 = 0;
      lhf_offset = 0;
    }

add_patterns-Few :
    (card : Files) (names : List Name) (entries : List ZipEntry)
    → Few 258 entries
    → Few 258 (add_patterns card names entries)
add_patterns-Few card [] entries v = v
add_patterns-Few card (name ∷ names) entries v = add_patterns-Few card names _ (
    if_intro (Few 258) (ltb (length entries) archive_max_entries)
      (λ room.
        add_entry-Few card (patterns_prefix ++ name) (0x2f ∷ (patterns_prefix ++ name)) entries 257
          (v.0, ground (arith, room)))
      (λ _. v))

pub collect-Few :
    (card : Files) (names : List Name)
    → Named (collect card names) × (length (collect card names) ≤ 258)
collect-Few card names = add_patterns-Few card names _ (two.0, omega (arith, two.1))
  where
    first : Few 1 (add_entry card manifest_bin (0x2f ∷ manifest_bin) [])
    first = add_entry-Few card manifest_bin (0x2f ∷ manifest_bin) [] 0 (refl, omega arith)

    two : Few 2 (
        add_entry card manifest_txt
          (0x2f ∷ manifest_txt)
          (add_entry card manifest_bin (0x2f ∷ manifest_bin) []))
    two = add_entry-Few card manifest_txt (0x2f ∷ manifest_txt) _ 1 first
