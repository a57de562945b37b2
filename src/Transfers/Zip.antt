-- ===== src/Transfers/Zip.antt =====
-- The whole of what serviceArchive and its serializers write for given entries and contents, as one
-- list; that it is a ZIP file is shown in Written.
use led_display_g6_firmware.Common.{
  ℕ, suc, ◌+◌, ◌≡◌, refl, List, [], ◌∷◌, ◌++◌, length, bit_xor, arith, length-append,
}
use led_display_g6_firmware.Panel.Crc.{crc32_update}
use led_display_g6_firmware.Transfers.Archive.{
  ZipEntry, local_header_bytes, eocd_bytes, descriptor_bytes, central_dir_bytes,
}

abbrev pub with_crc : ZipEntry → ℕ → List ℕ → ZipEntry
with_crc e crc content = record e { crc32 = bit_xor (crc32_update crc content) 0xffffffff }

abbrev pub with_crcs : List ZipEntry → List (List ℕ) → List ZipEntry
with_crcs [] contents = []
with_crcs (e ∷ es) [] = []
with_crcs (e ∷ es) (content ∷ contents) = with_crc e 0xffffffff content ∷ with_crcs es contents

abbrev pub bodies : List ZipEntry → List (List ℕ) → List ℕ
bodies [] contents = []
bodies (e ∷ es) [] = []
bodies (e ∷ es) (content ∷ contents) =
    local_header_bytes e
    ++ (content ++ (descriptor_bytes (with_crc e 0xffffffff content) ++ bodies es contents))

abbrev pub directory : List ZipEntry → List ℕ
directory [] = []
directory (e ∷ es) = central_dir_bytes e ++ directory es

-- The contents have the sizes of the entries.
abbrev pub Sized : List ZipEntry → List (List ℕ) → Type 0
Sized [] contents = contents ≡ []
Sized (e ∷ es) [] = e.file_size ≡ suc e.file_size
Sized (e ∷ es) (content ∷ contents) = (length content ≡ e.file_size) × Sized es contents

-- The entries with the offsets at which their headers stand, when the first stands at `offset`.
abbrev pub locate : ℕ → List ZipEntry → List (List ℕ) → List ZipEntry
locate offset [] contents = []
locate offset (e ∷ es) [] = []
locate offset (e ∷ es) (content ∷ contents) =
    record e { lhf_offset = offset }
    ∷ locate (offset + length (bodies (e ∷ []) (content ∷ []))) es contents

-- The whole file. The offsets, sizes, checksums and counts in it are those of its parts.
abbrev pub zip : List ZipEntry → List (List ℕ) → List ℕ
zip es contents =
    let body = bodies es contents in
    let dir = directory (with_crcs (locate 0 es contents) contents) in
    body ++ (dir ++ eocd_bytes (length es) (length dir) (length body))

-- The size of the bodies of the entries, and of their directory.
abbrev pub bodies_size : List ZipEntry → ℕ
bodies_size [] = 0
bodies_size (e ∷ es) = 30 + length e.zip_name + e.file_size + 16 + bodies_size es

abbrev pub records_size : List ZipEntry → ℕ
records_size [] = 0
records_size (e ∷ es) = 46 + length e.zip_name + records_size es

length-local_header : (e : ZipEntry) → length (local_header_bytes e) ≡ 30 + length e.zip_name
unfolding local_header_bytes
length-local_header e = omega arith

length-descriptor : (e : ZipEntry) → length (descriptor_bytes e) ≡ 16
unfolding descriptor_bytes
length-descriptor e = refl

length-central_dir : (e : ZipEntry) → length (central_dir_bytes e) ≡ 46 + length e.zip_name
unfolding central_dir_bytes
length-central_dir e = omega arith

pub length-eocd : (count cd_size cd_offset : ℕ) → length (eocd_bytes count cd_size cd_offset) ≡ 22
unfolding eocd_bytes
length-eocd count cd_size cd_offset = refl

pub length-bodies :
    (es : List ZipEntry) (contents : List (List ℕ))
    → Sized es contents
    → length (bodies es contents) ≡ bodies_size es
length-bodies [] contents h = refl
length-bodies (e ∷ es) [] h = absurd (omega arith)
length-bodies (e ∷ es) (content ∷ contents) h =
    let described = with_crc e 0xffffffff content in
    omega (
      arith,
      length-append (local_header_bytes e)
          (content ++ (descriptor_bytes described ++ bodies es contents)),
      length-append content (descriptor_bytes described ++ bodies es contents),
      length-append (descriptor_bytes described) (bodies es contents),
      length-local_header e,
      length-descriptor described,
      h.0,
      length-bodies es contents h.1,
    )

pub length-directory :
    (offset : ℕ) (es : List ZipEntry) (contents : List (List ℕ))
    → Sized es contents
    → length (directory (with_crcs (locate offset es contents) contents)) ≡ records_size es
length-directory offset [] contents h = refl
length-directory offset (e ∷ es) [] h = absurd (omega arith)
length-directory offset (e ∷ es) (content ∷ contents) h =
    let after = offset + length (bodies (e ∷ []) (content ∷ [])) in
    let described = with_crc (record e { lhf_offset = offset }) 0xffffffff content in
    omega (
      arith,
      length-append (central_dir_bytes described)
          (directory (with_crcs (locate after es contents) contents)),
      length-central_dir described,
      length-directory after es contents h.1,
    )
