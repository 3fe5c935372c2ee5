-- ===== src/Disk/Tests.antt =====
-- The codecs on small inputs, and their theorems at concrete ones.
use open_mac_for_linux.Base.{
  ℕ, ◌<◌, true, ◌≡◌, refl, List, [], ◌∷◌, ◌++◌, length, get_or, inr, replicate, arith, AllBytes,
  All, Bool, ltb, ◌&&◌, ◌≢◌, if◌then◌else◌,
}
use open_mac_for_linux.Disk.Gcr.{fresh, encode_data, nibblize, sectors_on_track}
use open_mac_for_linux.Disk.Gcr.Track.{
  interleave_order, build_track, decode_track, free_slot, place,
}
use open_mac_for_linux.Disk.Gcr.Track.Interleave.{interleave_order_lem, holds}
use open_mac_for_linux.Disk.Bytes.{be32, put32}
use open_mac_for_linux.Disk.Crc.{crc16, crc16_update, crc_bit}
use open_mac_for_linux.Disk.Crc.Detection.{crc16-detects}
use open_mac_for_linux.Disk.DiskCopy
use open_mac_for_linux.Disk.DiskCopy.Wrapping.{rewrap-split, split-rewrap}
use open_mac_for_linux.Disk.MacBinary
use open_mac_for_linux.Disk.MacBinary.Wrapping.{IsKept, split-rewrap_fork}
use open_mac_for_linux.Disk.Mfm
use open_mac_for_linux.Disk.Mfm.Track.{decode_track-elsewhere}

-- To check the bytes of a concrete list.
abbrev all_bytes : List ℕ → Bool
all_bytes [] = true
all_bytes (x ∷ xs) = ltb x 256 && all_bytes xs

all_bytes_sound : (xs : List ℕ) → all_bytes xs ≡ true → AllBytes xs
all_bytes_sound [] e = tt
all_bytes_sound (x ∷ xs) e = (ground arith, all_bytes_sound xs (ground arith))

abbrev four_bytes : List ℕ
four_bytes = 0x4C ∷ 0x4B ∷ 0x60 ∷ 0xFF ∷ []

four_bytes-AllBytes : AllBytes four_bytes
four_bytes-AllBytes = all_bytes_sound four_bytes refl

scrambled_four : (encode_data four_bytes fresh).0 ≡ 0x4C ∷ 0x07 ∷ 0x2B ∷ 0x3F ∷ []
unfolding encode_data
scrambled_four = refl

nibbles_of_four : length (nibblize four_bytes) ≡ 6
unfolding nibblize
nibbles_of_four = refl

twelve_sectors : interleave_order 12 ≡ 0 ∷ 6 ∷ 1 ∷ 7 ∷ 2 ∷ 8 ∷ 3 ∷ 9 ∷ 4 ∷ 10 ∷ 5 ∷ 11 ∷ []
unfolding interleave_order place free_slot
twelve_sectors = refl

interleave_order_lem_example :
    let order = interleave_order (sectors_on_track 79) in
    (length order ≡ sectors_on_track 79)
    × (All (λ s. s < sectors_on_track 79) order × (holds 3 order ≡ true))
unfolding sectors_on_track
interleave_order_lem_example = interleave_order_lem 79 3 (omega arith)

-- A disk of one full sector on its first track, read into an empty one.
abbrev one_sector : List ℕ
one_sector = replicate 512 0xE5

abbrev blank : List ℕ
blank = replicate 512 0

-- The check of the letters "123456789", from all ones.
abbrev digits : List ℕ
digits = 0x31 ∷ 0x32 ∷ 0x33 ∷ 0x34 ∷ 0x35 ∷ 0x36 ∷ 0x37 ∷ 0x38 ∷ 0x39 ∷ []

check_of_digits : crc16 digits 0xFFFF ≡ 0x29B1
unfolding crc16 crc16_update crc_bit
check_of_digits = refl

crc16-detects_example :
    crc16 (0x31 ∷ 0x4C ∷ 0x33 ∷ []) 0xFFFF ≢ crc16 (0x31 ∷ 0x4D ∷ 0x33 ∷ []) 0xFFFF
crc16-detects_example =
    crc16-detects (0x31 ∷ []) (0x33 ∷ []) 0x4C 0x4D 0xFFFF (omega arith) (omega arith) (omega arith)
      (omega arith)

-- A DiskCopy image of one sector and twelve tag bytes.
abbrev image_header : List ℕ
image_header =
    replicate 64 0
    ++ (0 ∷ 0 ∷ 2 ∷ 0 ∷ 0 ∷ 0 ∷ 0 ∷ 12 ∷ 0 ∷ 0 ∷ 0 ∷ 0 ∷ 0 ∷ 0 ∷ 0 ∷ 0 ∷ 0 ∷ 0x22 ∷ 1 ∷ 0 ∷ [])

abbrev image : List ℕ
image = image_header ++ (one_sector ++ replicate 12 0)

image_header-AllBytes : AllBytes image_header
image_header-AllBytes = all_bytes_sound image_header refl

image-AllBytes : AllBytes image
image-AllBytes = all_bytes_sound image refl

image_recognised : DiskCopy.is_disk_copy image ≡ true
unfolding DiskCopy.is_disk_copy be32
image_recognised = refl

rewrap-split_example :
    let (p, sectors) = DiskCopy.split image in
    DiskCopy.rewrap p sectors
    ≡ (if DiskCopy.is_disk_copy image then put32 72 (DiskCopy.checksum sectors) image else image)
rewrap-split_example = rewrap-split image image-AllBytes (omega arith)

abbrev kept : DiskCopy.Parts
kept = record { header = image_header; tags = replicate 12 0 }

kept-wrapped : DiskCopy.wrapped kept ≡ true
unfolding DiskCopy.wrapped
kept-wrapped = refl

split-rewrap_example :
    let img = DiskCopy.rewrap kept one_sector in
    (DiskCopy.is_disk_copy img ≡ true)
    × (((DiskCopy.split img).1 ≡ one_sector) × ((DiskCopy.split img).0.tags ≡ replicate 12 0))
split-rewrap_example =
    split-rewrap kept one_sector kept-wrapped image_header-AllBytes refl refl refl (omega arith)
      (omega arith) (omega arith)

-- A MacBinary header with a check, and a resource fork of three bytes.
abbrev container_header : List ℕ
container_header =
    0 ∷ 1 ∷ 0x41 ∷ replicate 84 0 ++ (0 ∷ 0 ∷ 0 ∷ 3 ∷ replicate 33 0 ++ (1 ∷ 1 ∷ 0 ∷ 0 ∷ []))

abbrev container : MacBinary.Parts
container = record { header = container_header; resource = 7 ∷ 8 ∷ 9 ∷ [] }

container-wrapped : MacBinary.wrapped container ≡ true
unfolding MacBinary.wrapped
container-wrapped = refl

container-IsKept : IsKept container_header
container-IsKept = record {
  sized = refl;
  bytes = all_bytes_sound container_header refl;
  zero_at_0 = refl;
  zero_at_74 = refl;
  zero_at_82 = refl;
  named = omega arith;
  short = omega arith;
}

container_resource : be32 container_header 87 ≡ 3
unfolding be32
container_resource = refl

split-rewrap_fork_example :
    let (q, found) = MacBinary.split (MacBinary.rewrap container four_bytes) in
    (MacBinary.is_mac_binary (MacBinary.rewrap container four_bytes) ≡ true)
    × ((found ≡ four_bytes) × (q.resource ≡ 7 ∷ 8 ∷ 9 ∷ []))
split-rewrap_fork_example =
    split-rewrap_fork container four_bytes container-wrapped container-IsKept container_resource
      (omega arith) (omega arith)

-- A built track read back into a shorter image: the byte after its sectors stays missing.
decode_track-elsewhere_example :
    let surface = Mfm.build_track one_sector 0 0 in
    let d = Mfm.decode_track surface.0 surface.1 blank 0 0 in
    (get_or d.image 9216 0 ≡ get_or blank 9216 0) × (length d.image ≡ length blank)
decode_track-elsewhere_example =
    decode_track-elsewhere (Mfm.build_track one_sector 0 0).0 (Mfm.build_track one_sector 0 0).1
      blank 0 0 9216 (inr (omega arith))
