-- ===== src/Transfers/Apart.antt =====
-- What keeps the transfers apart: no two on one link, no two on one file where one writes.
use led_display_g6_firmware.Common.{ℕ, ◌≤◌, ◌<◌, ◌≡◌, ◌≢◌, refl, Bool, true, false, length, arith}
use led_display_g6_firmware.Transfers.Desk.{Source, net, serial, same_source}
use led_display_g6_firmware.Transfers.Handlers.{Desk}

-- What holds between any two rounds of the loop.
pub record Interlocked (d : Desk) : Type 0 where
  pub files_apart : d.dl.active ≡ true → d.ul.active ≡ true → d.dl.idx ≢ d.ul.idx
  pub upload_alone : d.ul.active ≡ true → d.ar.active ≡ false
  pub links_apart :
      d.dl.active ≡ true → d.ul.active ≡ true → same_source d.dl.source d.ul.source ≡ false
  pub archive_apart :
      d.dl.active ≡ true → d.ar.active ≡ true → same_source d.dl.source d.ar.source ≡ false
  pub download_some : d.dl.active ≡ true → 0 < d.dl.idx
  pub download_listed : d.dl.active ≡ true → d.dl.idx ≤ length d.catalog.names
  pub upload_listed : d.ul.active ≡ true → d.ul.idx ≤ length d.catalog.names

-- A transfer has not started, and has kept its link and its pattern.
pub record Kept (on on' : Bool) (source source' : Source) (idx idx' : ℕ) : Type 0 where
  pub active : on' ≡ true → on ≡ true
  pub same_source : source' ≡ source
  pub same_idx : idx' ≡ idx

pub still-Kept : (on : Bool) (source : Source) (idx : ℕ) → Kept on on source source idx idx
still-Kept on source idx = record { active = λ h. h; same_source = refl; same_idx = refl }

-- No transfer starts.
pub record Shrinks (d d' : Desk) : Type 0 where
  pub names : d'.catalog.names ≡ d.catalog.names
  pub dl : Kept d.dl.active d'.dl.active d.dl.source d'.dl.source d.dl.idx d'.dl.idx
  pub ul : Kept d.ul.active d'.ul.active d.ul.source d'.ul.source d.ul.idx d'.ul.idx
  pub ar : Kept d.ar.active d'.ar.active d.ar.source d'.ar.source 0 0

pub Shrinks-Interlocked : (d d' : Desk) → Shrinks d d' → Interlocked d → Interlocked d'
Shrinks-Interlocked d d' s v = record {
  files_apart =
      λ a b. rw (s.dl.same_idx, s.ul.same_idx) (v.files_apart (s.dl.active a) (s.ul.active b));
  upload_alone = λ a. ground (arith, v.upload_alone (s.ul.active a), s.ar.active);
  links_apart = λ a b.
      rw (s.dl.same_source, s.ul.same_source) (v.links_apart (s.dl.active a) (s.ul.active b));
  archive_apart = λ a b.
      rw (s.dl.same_source, s.ar.same_source) (v.archive_apart (s.dl.active a) (s.ar.active b));
  download_some = λ a. rw (s.dl.same_idx) (v.download_some (s.dl.active a));
  download_listed = λ a. rw (s.dl.same_idx, s.names) (v.download_listed (s.dl.active a));
  upload_listed = λ a. rw (s.ul.same_idx, s.names) (v.upload_listed (s.ul.active a));
}

pub same_sym : (a b : Source) → same_source a b ≡ same_source b a
same_sym net net = refl
same_sym net serial = refl
same_sym serial net = refl
same_sym serial serial = refl
