-- ===== src/Transfers/Format.antt =====
-- What a ZIP file in store mode is, by the fields at their places in the format's own description.
-- Nothing of the archive of src/CommandProcessor.cpp is used here but the checksum.
use led_display_g6_firmware.Common.{
  ℕ, ◌+◌, ◌*◌, ◌≡◌, List, [], ◌∷◌, length, take, drop, get_or, bit_xor,
}
use led_display_g6_firmware.Panel.Crc.{crc32_update}

-- The numbers of two and of four bytes at a place.
abbrev pub u16 : List ℕ → ℕ → ℕ
u16 bs i = get_or bs i 0 + 256 * get_or bs (i + 1) 0

abbrev pub u32 : List ℕ → ℕ → ℕ
u32 bs i = u16 bs i + 65536 * u16 bs (i + 2)

abbrev pub checksum : List ℕ → ℕ
checksum content = bit_xor (crc32_update 0xffffffff content) 0xffffffff

-- A member of the archive.
pub record Member : Type 0 where
  pub name : List ℕ
  pub content : List ℕ

-- At the front of `bs` stands a record of the central directory, for a member whose local header is
-- at `offset`.
pub record DirectoryRecord (bs : List ℕ) (m : Member) (offset : ℕ) : Type 0 where
  pub signature : u32 bs 0 ≡ 0x02014b50
  pub flags : u16 bs 8 ≡ 8
  pub stored : u16 bs 10 ≡ 0
  pub crc : u32 bs 16 ≡ checksum m.content
  pub packed_size : u32 bs 20 ≡ length m.content
  pub size : u32 bs 24 ≡ length m.content
  pub name_size : u16 bs 28 ≡ length m.name
  pub extra_size : u16 bs 30 ≡ 0
  pub comment_size : u16 bs 32 ≡ 0
  pub disk : u16 bs 34 ≡ 0
  pub place : u32 bs 42 ≡ offset
  pub name : take (length m.name) (drop 46 bs) ≡ m.name

-- Behind a local header: the content, and what is behind that.
abbrev pub data_of : List ℕ → Member → List ℕ
data_of bs m = drop (length m.name) (drop 30 bs)

abbrev pub descriptor_of : List ℕ → Member → List ℕ
descriptor_of bs m = drop (length m.content) (data_of bs m)

-- At the front of `bs` stands a member with its local header and data descriptor.
pub record LocalEntry (bs : List ℕ) (m : Member) : Type 0 where
  pub signature : u32 bs 0 ≡ 0x04034b50
  pub flags : u16 bs 6 ≡ 8
  pub stored : u16 bs 8 ≡ 0
  pub name_size : u16 bs 26 ≡ length m.name
  pub extra_size : u16 bs 28 ≡ 0
  pub name : take (length m.name) (drop 30 bs) ≡ m.name
  pub content : take (length m.content) (data_of bs m) ≡ m.content
  pub descriptor : u32 (descriptor_of bs m) 0 ≡ 0x08074b50
  pub crc : u32 (descriptor_of bs m) 4 ≡ checksum m.content
  pub packed_size : u32 (descriptor_of bs m) 8 ≡ length m.content
  pub size : u32 (descriptor_of bs m) 12 ≡ length m.content

-- The directory `dir` up to `behind` lists these members, and each is in the file where it says.
abbrev pub Members : List ℕ → List ℕ → List Member → List ℕ → Type 0
Members file dir [] behind = dir ≡ behind
Members file dir (m ∷ ms) behind =
    (offset : ℕ) × DirectoryRecord dir m offset
    × LocalEntry (drop offset file) m
    × Members file (drop (length m.name) (drop 46 dir)) ms behind

-- The record at the end of the file.
pub record EndRecord (bs : List ℕ) (count size place : ℕ) : Type 0 where
  pub signature : u32 bs 0 ≡ 0x06054b50
  pub disk : u16 bs 4 ≡ 0
  pub directory_disk : u16 bs 6 ≡ 0
  pub members_here : u16 bs 8 ≡ count
  pub members : u16 bs 10 ≡ count
  pub directory_size : u32 bs 12 ≡ size
  pub directory_place : u32 bs 16 ≡ place
  pub comment_size : u16 bs 20 ≡ 0
  pub whole : length bs ≡ 22

-- A ZIP file of these members.
pub record IsZip (file : List ℕ) (ms : List Member) : Type 0 where
  pub place : ℕ
  pub size : ℕ
  pub members : Members file (drop place file) ms (drop (place + size) file)
  pub end : EndRecord (drop (place + size) file) (length ms) size place
