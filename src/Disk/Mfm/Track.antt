-- ===== src/Disk/Mfm/Track.antt =====
-- The length of a built track, and where a decoded one writes.
use open_mac_for_linux.Base.{
  ℕ, zero, suc, ◌+◌, ◌-◌, ◌*◌, ◌≤◌, ◌<◌, Bool, true, ◌≡◌, refl, ap, ◌∙◌, ◌⊎◌, inl, inr, Option,
  none, some, List, [], ◌∷◌, ◌++◌, map, length, get_or, take, drop, replicate, leb, arith,
  Bool-cases, length-append, length-replicate, length-take, length-drop,
}
use open_mac_for_linux.Disk.Crc.{crc16}
use open_mac_for_linux.Disk.Mfm.{
  block_of, Cell, put, put_mark, fill, put_all, put_crc, id_bytes, sector_data, build_sector,
  build_sectors, padded, build_cells, build_track, Surface, at, bytes_at, is_id, find_data, Decoded,
  write_sector, take_data, take_found, decode_at, decode_from, decode_track,
}

length-map : {A B : Type 0} (f : A → B) (xs : List A) → length (map f xs) ≡ length xs
length-map f [] = refl
length-map f (x ∷ xs) = ap suc (length-map f xs)

length-sector_data : (left off : ℕ) (image : List ℕ) → length (sector_data left off image) ≡ left
unfolding sector_data
length-sector_data zero off image = refl
length-sector_data (suc left) off image = ap suc (length-sector_data left (off + 1) image)

length-bytes_at : (m : Surface) (n i : ℕ) → length (bytes_at m n i) ≡ n
unfolding bytes_at
length-bytes_at m zero i = refl
length-bytes_at m (suc n) i = ap suc (length-bytes_at m n (i + 1))

-- Outside the bytes that it writes, a write changes nothing.
after_bytes :
    (bytes image : List ℕ) (k p : ℕ)
    → k ≡ length bytes
    → k ≤ p
    → k ≤ length image
    → get_or (bytes ++ drop k image) p 0 ≡ get_or image p 0
after_bytes [] image zero p e h l = refl
after_bytes [] image (suc k) p e h l = absurd (omega arith)
after_bytes (b ∷ bs) image zero p e h l = absurd (omega arith)
after_bytes (b ∷ bs) [] (suc k) p e h l = absurd (omega arith)
after_bytes (b ∷ bs) (x ∷ xs) (suc k) zero e h l = absurd (omega arith)
after_bytes (b ∷ bs) (x ∷ xs) (suc k) (suc p) e h l =
    after_bytes bs xs k p (omega arith) (omega arith) (omega arith)

around :
    (off k p : ℕ) (bytes image : List ℕ)
    → k ≡ off + length bytes
    → k ≤ length image
    → (p < off) ⊎ (k ≤ p)
    → get_or (take off image ++ (bytes ++ drop k image)) p 0 ≡ get_or image p 0
around zero k p bytes image e l h = after_bytes bytes image k p (omega arith) (ground arith) l
around (suc off) k p bytes [] e l h = absurd (omega arith)
around (suc off) zero p bytes (x ∷ xs) e l h = absurd (omega arith)
around (suc off) (suc k) zero bytes (x ∷ xs) e l h = refl
around (suc off) (suc k) (suc p) bytes (x ∷ xs) e l h =
    around off k p bytes xs (omega arith) (omega arith) (ground arith)

write-outside :
    (off p : ℕ) (bytes image : List ℕ)
    → length bytes ≡ 512
    → (p < off) ⊎ (off + 512 ≤ p)
    → (get_or (write_sector off bytes image) p 0 ≡ get_or image p 0)
      × (length (write_sector off bytes image) ≡ length image)
unfolding write_sector
write-outside off p bytes image e h = elim (Bool-cases (leb (off + 512) (length image))) [
  | inl fits ↦
      let room : off + 512 ≤ length image = ground arith in
      rw fits (
        around off (off + 512) p bytes image (omega arith) room h,
        omega (
          arith,
          length-append (take off image) (bytes ++ drop (off + 512) image),
          length-append bytes (drop (off + 512) image),
          length-take off image,
          length-drop (off + 512) image,
        ),
      )
  | inr full ↦ rw full (refl, refl)
]

-- A byte of an image that does not belong to a track and side.
abbrev pub IsElsewhere : ℕ → ℕ → ℕ → Type 0
IsElsewhere track side p =
    (p < (track * 2 + side) * 18 * 512) ⊎ ((track * 2 + side) * 18 * 512 + 18 * 512 ≤ p)

id-numbered :
    (m : Surface) (track side i : ℕ)
    → is_id m track side i ≡ true
    → (1 ≤ at m (i + 6)) × (at m (i + 6) ≤ 18)
unfolding is_id
id-numbered m track side i e = ground arith

module _ (m : Surface) (track side p : ℕ) (elsewhere : IsElsewhere track side p) where
  -- An image after a part of the decoding, and the one before it.
  abbrev Keeps : Decoded → Decoded → Type 0
  Keeps d d' = (get_or d'.image p 0 ≡ get_or d.image p 0) × (length d'.image ≡ length d.image)

  taken-Keeps :
      (sector j : ℕ) (d : Decoded)
      → 1 ≤ sector
      → sector ≤ 18
      → Keeps d (take_data m track side sector j d)
  unfolding take_data block_of
  taken-Keeps sector j d low high =
      let bytes = bytes_at m 512 (j + 4) in
      let off = ((track * 2 + side) * 18 + (sector - 1)) * 512 in
      let apart : (p < off) ⊎ (off + 512 ≤ p) = ground arith in
      let kept = write-outside off p bytes d.image (length-bytes_at m 512 (j + 4)) apart in
      ground (arith, kept)

  found-Keeps :
      (sector : ℕ) (found : Option ℕ) (d : Decoded)
      → 1 ≤ sector
      → sector ≤ 18
      → Keeps d (take_found m track side sector found d)
  found-Keeps sector none d low high = (refl, refl)
  found-Keeps sector (some j) d low high = taken-Keeps sector j d low high

  at-Keeps : (i : ℕ) (d : Decoded) → Keeps d (decode_at m track side i d)
  unfolding decode_at
  at-Keeps i d = elim (Bool-cases (is_id m track side i)) [
    | inl e ↦
        let numbered = id-numbered m track side i e in
        rw e (found-Keeps (at m (i + 6)) (find_data m 64 (i + 10)) d numbered.0 numbered.1)
    | inr e ↦ rw e (refl, refl)
  ]

  from-Keeps : (left i : ℕ) (d : Decoded) → Keeps d (decode_from m track side left i d)
  unfolding decode_from
  from-Keeps zero i d = (refl, refl)
  from-Keeps (suc left) i d =
      let first = at-Keeps i d in
      let rest = from-Keeps left (i + 1) (decode_at m track side i d) in
      (rest.0 ∙ first.0, rest.1 ∙ first.1)

-- Whatever the surface holds, decoding it as a track and side keeps the length of the image and
-- changes no byte outside the eighteen sectors of this track and side.
pub decode_track-elsewhere :
    (trk : List ℕ) (marks : List Bool) (image : List ℕ) (track side p : ℕ)
    → IsElsewhere track side p
    → let d = decode_track trk marks image track side in
      (get_or d.image p 0 ≡ get_or image p 0) × (length d.image ≡ length image)
unfolding decode_track
decode_track-elsewhere trk marks image track side p h =
    let m : Surface = record { trk = trk; marks = marks } in
    let all =
      from-Keeps m track side p h (length trk) 0
        (record { found = 0; image = image; ok_mask = 0 }) in
    ground (arith, all)

-- A sector has 658 bytes, and the track is filled up.
length-build_sector :
    (image : List ℕ) (track side s : ℕ) → length (build_sector image track side s) ≡ 658
unfolding build_sector id_bytes
length-build_sector image track side s =
    let bytes = sector_data 512 (block_of track side s * 512) image in
    let data_bytes : length (put_all bytes) ≡ 512 =
      length-map put bytes ∙ length-sector_data 512 (block_of track side s * 512) image in
    let tail_crc = crc16 bytes (crc16 (0xA1 ∷ 0xA1 ∷ 0xA1 ∷ 0xFB ∷ []) 0xFFFF) in
    omega (arith, data_bytes, length-append (put_all bytes) (put_crc tail_crc ++ fill 84 0x4E))

length-build_sectors :
    (left s : ℕ) (image : List ℕ) (track side : ℕ)
    → length (build_sectors left s image track side) ≡ left * 658
unfolding build_sectors
length-build_sectors zero s image track side = refl
length-build_sectors (suc left) s image track side = omega (
  arith,
  length-append (build_sector image track side s) (build_sectors left (s + 1) image track side),
  length-build_sector image track side s,
  length-build_sectors left (s + 1) image track side,
)

length-build_cells :
    (image : List ℕ) (track side : ℕ) → length (build_cells image track side) ≡ 12500
unfolding build_cells padded
length-build_cells image track side =
    let sectors = build_sectors 18 1 image track side in
    let counted = length-build_sectors 18 1 image track side in
    let out =
      fill 80 0x4E
      ++ (fill 12 0x00 ++ (replicate 3 (put_mark 0xC2) ++ (put 0xFC ∷ fill 50 0x4E ++ sectors))) in
    omega (
      arith,
      counted,
      length-append out (fill (12500 - length out) 0x4E),
      length-replicate (12500 - length out) (put 0x4E),
    )

-- A built track has a byte and a mark flag for each of the 12500 places of a revolution, whatever
-- the image and the track.
pub length-build_track :
    (image : List ℕ) (track side : ℕ)
    → (length (build_track image track side).0 ≡ 12500)
      × (length (build_track image track side).1 ≡ 12500)
unfolding build_track
length-build_track image track side =
    let cells = build_cells image track side in
    (
      length-map (λ (c : Cell). c.byte) cells ∙ length-build_cells image track side,
      length-map (λ (c : Cell). c.mark) cells ∙ length-build_cells image track side,
    )
