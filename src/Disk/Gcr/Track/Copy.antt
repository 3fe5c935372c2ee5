-- ===== src/Disk/Gcr/Track/Copy.antt =====
-- Decoding a built track copies its sectors.
use open_mac_for_linux.Base.{ℕ, ◌+◌, ◌*◌, none, List, [], ◌∷◌, drop}
use open_mac_for_linux.Disk.Gcr.Track.{k_sector_bytes, Decoding, payload, write_sector}

module _ (before n : ℕ) where
  -- A sector found with its checksum is written.
  abbrev pub copied : ℕ → List ℕ → Decoding → Decoding
  copied s raw d = record d {
    image = write_sector ((before + d.cur_side * n + s) * k_sector_bytes) (drop 12 raw) d.image;
    found = d.found + 1;
  }

module _ (before n : ℕ) where
  -- A sector of the track read into the image, with no header pending after it.
  abbrev pub copied_from : List ℕ → ℕ → ℕ → ℕ → Decoding → Decoding
  copied_from image start side s d = record d {
    cur_sector = none;
    cur_side = side;
    image =
        write_sector ((before + side * n + s) * k_sector_bytes)
          (drop 12 (payload image ((start + s) * k_sector_bytes))) d.image;
    found = d.found + 1;
  }

-- The sectors copied in the order of their slots.
pub copy_sectors : ℕ → List ℕ → List ℕ → List ℕ → List ℕ
copy_sectors start image [] target = target
copy_sectors start image (s ∷ ss) target =
    let off = (start + s) * k_sector_bytes in
    copy_sectors start image ss (write_sector off (drop 12 (payload image off)) target)
