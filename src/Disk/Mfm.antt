-- ===== src/Disk/Mfm.antt =====
-- MFM tracks: mfm.hpp. A track is its bytes and, in parallel, which of them are mark bytes.
pub mod Track
use open_mac_for_linux.Base.{
  ℕ, zero, suc, ◌+◌, ◌-◌, ◌*◌, ◌%◌, bit_or, Bool, true, false, not, ◌&&◌, ◌||◌, Option, none, some,
  List, [], ◌∷◌, ◌++◌, map, length, get_or, take, drop, replicate, u8, u16, u32, ◌<<<◌, ◌>>>◌, ltb,
  leb, ◌==◌, ◌!=◌, if◌then◌else◌,
}
use open_mac_for_linux.Disk.Crc.{crc16, crc16_update}

abbrev pub k_sectors_per_track : ℕ
k_sectors_per_track = 18

abbrev pub k_sides : ℕ
k_sides = 2

abbrev pub k_sector_bytes : ℕ
k_sector_bytes = 512

abbrev pub k_track_bytes : ℕ
k_track_bytes = 12500

-- Sectors are numbered from 1.
pub block_of : ℕ → ℕ → ℕ → ℕ
block_of track side sector = (track * k_sides + side) * k_sectors_per_track + (sector - 1)

pub record Cell : Type 0 where
  pub byte : ℕ
  pub mark : Bool

abbrev pub put : ℕ → Cell
put b = record { byte = b; mark = false }

abbrev pub put_mark : ℕ → Cell
put_mark b = record { byte = b; mark = true }

abbrev pub fill : ℕ → ℕ → List Cell
fill n b = replicate n (put b)

abbrev pub put_all : List ℕ → List Cell
put_all bytes = map put bytes

-- A check of 16 bits, the high byte first.
abbrev pub put_crc : ℕ → List Cell
put_crc crc = put (u8 (crc >>> 8)) ∷ put (u8 crc) ∷ []

pub id_bytes : ℕ → ℕ → ℕ → List ℕ
id_bytes track side s = 0xA1 ∷ 0xA1 ∷ 0xA1 ∷ 0xFE ∷ u8 track ∷ u8 side ∷ u8 s ∷ 0x02 ∷ []

-- The bytes of a sector, zeros past the end of the image.
pub sector_data : ℕ → ℕ → List ℕ → List ℕ
sector_data zero off image = []
sector_data (suc left) off image = get_or image off 0 ∷ sector_data left (off + 1) image

unfoldable pub build_sector : List ℕ → ℕ → ℕ → ℕ → List Cell
build_sector image track side s =
    let id = id_bytes track side s in
    let bytes = sector_data k_sector_bytes (block_of track side s * k_sector_bytes) image in
    let crc = crc16 bytes (crc16 (0xA1 ∷ 0xA1 ∷ 0xA1 ∷ 0xFB ∷ []) 0xFFFF) in
    fill 12 0x00
    ++ (replicate 3 (put_mark 0xA1)
        ++ (put_all (drop 3 id)
            ++ (put_crc (crc16 id 0xFFFF)
                ++ (fill 22 0x4E
                    ++ (fill 12 0x00
                        ++ (replicate 3 (put_mark 0xA1)
                            ++ (put 0xFB ∷ put_all bytes ++ (put_crc crc ++ fill 84 0x4E))))))))

unfoldable pub build_sectors : ℕ → ℕ → List ℕ → ℕ → ℕ → List Cell
build_sectors zero s image track side = []
build_sectors (suc left) s image track side =
    build_sector image track side s ++ build_sectors left (s + 1) image track side

-- The gap that ends a track.
unfoldable pub padded : List Cell → List Cell
padded out = out ++ fill (k_track_bytes - length out) 0x4E

pub build_cells : List ℕ → ℕ → ℕ → List Cell
build_cells image track side = padded (
    fill 80 0x4E
    ++ (fill 12 0x00
        ++ (replicate 3 (put_mark 0xC2)
            ++ (put 0xFC ∷ fill 50 0x4E ++ build_sectors k_sectors_per_track 1 image track side))))

unfoldable pub build_track : List ℕ → ℕ → ℕ → List ℕ × List Bool
build_track image track side =
    let cells = build_cells image track side in (map (λ c. c.byte) cells, map (λ c. c.mark) cells)

-- What the decoder reads: the track goes round.
pub record Surface : Type 0 where
  pub trk : List ℕ
  pub marks : List Bool

abbrev pub at : Surface → ℕ → ℕ
at m i = get_or m.trk (i % length m.trk) 0

abbrev pub is_mark : Surface → ℕ → Bool
is_mark m i = get_or m.marks (i % length m.trk) false

-- Three marks and the byte after them.
unfoldable pub at_mark : Surface → ℕ → ℕ → Bool
at_mark m i kind =
    is_mark m i
    && (is_mark m (i + 1)
        && (is_mark m (i + 2)
            && (at m i == 0xA1
                && (at m (i + 1) == 0xA1 && (at m (i + 2) == 0xA1 && (at m (i + 3) == kind))))))

pub bytes_at : Surface → ℕ → ℕ → List ℕ
bytes_at m zero i = []
bytes_at m (suc n) i = at m i ∷ bytes_at m n (i + 1)

abbrev pub word_at : Surface → ℕ → ℕ
word_at m i = u16 (bit_or (at m i <<< 8) (at m (i + 1)))

-- An address mark with its check and the numbers of this track.
pub is_id : Surface → ℕ → ℕ → ℕ → Bool
is_id m track side i =
    let sector = at m (i + 6) in
    at_mark m i 0xFE
    && ((crc16 (bytes_at m 8 i) 0xFFFF == word_at m (i + 8))
        && ((at m (i + 4) == u8 track)
            && ((at m (i + 5) == u8 side)
                && ((leb 1 sector && leb sector k_sectors_per_track) && (at m (i + 7) == 0x02)))))

-- The data mark within `left` bytes from `j`.
unfoldable pub find_data : Surface → ℕ → ℕ → Option ℕ
find_data m zero j = none
find_data m (suc left) j =
    let later = find_data m left (j + 1) in if at_mark m j 0xFB then some j else later

pub record Decoded : Type 0 where
  pub found : ℕ
  pub image : List ℕ
  pub ok_mask : ℕ

-- Bytes copied into an image, if they fit.
pub write_sector : ℕ → List ℕ → List ℕ → List ℕ
write_sector off bytes image =
    if leb (off + k_sector_bytes) (length image)
    then take off image ++ (bytes ++ drop (off + k_sector_bytes) image)
    else image

-- The data field of a sector whose data mark was found.
unfoldable pub take_data : Surface → ℕ → ℕ → ℕ → ℕ → Decoded → Decoded
take_data m track side sector j d =
    let bytes = bytes_at m k_sector_bytes (j + 4) in
    let crc = crc16 bytes (crc16 (bytes_at m 4 j) 0xFFFF) in
    if crc == word_at m (j + 4 + k_sector_bytes)
    then record {
      found = d.found + 1;
      image = write_sector (block_of track side sector * k_sector_bytes) bytes d.image;
      ok_mask = bit_or d.ok_mask (u32 (1 <<< sector));
    }
    else d

abbrev pub take_found : Surface → ℕ → ℕ → ℕ → Option ℕ → Decoded → Decoded
take_found m track side sector none d = d
take_found m track side sector (some j) d = take_data m track side sector j d

pub decode_at : Surface → ℕ → ℕ → ℕ → Decoded → Decoded
decode_at m track side i d =
    let taken = take_found m track side (at m (i + 6)) (find_data m 64 (i + 10)) d in
    if is_id m track side i then taken else d

-- The loop over the `left` bytes from `i`.
pub decode_from : Surface → ℕ → ℕ → ℕ → ℕ → Decoded → Decoded
decode_from m track side zero i d = d
decode_from m track side (suc left) i d =
    decode_from m track side left (i + 1) (decode_at m track side i d)

unfoldable pub decode_track : List ℕ → List Bool → List ℕ → ℕ → ℕ → Decoded
decode_track trk marks image track side =
    let d : Decoded = record { found = 0; image = image; ok_mask = 0 } in
    if length trk != length marks || ltb (length trk) 64
    then d
    else decode_from (record { trk = trk; marks = marks }) track side (length trk) 0 d
