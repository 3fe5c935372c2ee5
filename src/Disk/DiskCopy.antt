-- ===== src/Disk/DiskCopy.antt =====
-- DiskCopy 4.2 images: dc42.hpp. The laws of splitting and reassembling are in a child.
pub mod Wrapping
use open_mac_for_linux.Base.{
  ℕ, zero, suc, ◌+◌, ◌*◌, bit_and, bit_or, Bool, true, false, not, ◌&&◌, ◌||◌, List, [], ◌∷◌, ◌++◌,
  length, get_or, take, drop, u32, ◌<<<◌, ◌>>>◌, leb, ◌==◌, ◌!=◌, if◌then◌else◌,
}
use open_mac_for_linux.Disk.Bytes.{be32, put32}

abbrev pub k_header_size : ℕ
k_header_size = 84

unfoldable pub is_disk_copy : List ℕ → Bool
is_disk_copy img =
    let data_size = be32 img 64 in
    let tag_size = be32 img 68 in
    if leb (length img) (k_header_size + 2)
    then false
    else if not (get_or img 82 0 == 0x01 && get_or img 83 0 == 0x00)
    then false
    else if data_size == 0 || bit_and data_size 0x1FF != 0
    then false
    else k_header_size + data_size + tag_size == length img

pub data_size : List ℕ → ℕ
data_size img = be32 img 64

pub record Parts : Type 0 where
  pub header : List ℕ
  pub tags : List ℕ

unfoldable pub wrapped : Parts → Bool
wrapped p = length p.header == k_header_size

-- The pieces to keep, and what is left of the image.
unfoldable pub split : List ℕ → Parts × List ℕ
split img =
    let sectors = data_size img in
    if not (is_disk_copy img) then (record { header = []; tags = [] }, img) else (
      record { header = take k_header_size img; tags = drop (k_header_size + sectors) img },
      take sectors (drop k_header_size img),
    )

unfoldable pub take_header : List ℕ → List ℕ × List ℕ
take_header img = let (p, sectors) = split img in (p.header, sectors)

-- Words are added and the sum rotated; an odd last byte is left out.
pub checksum_from : ℕ → List ℕ → ℕ
checksum_from sum [] = sum
checksum_from sum (x ∷ []) = sum
checksum_from sum (hi ∷ lo ∷ rest) =
    let sum' = u32 (sum + bit_or (hi <<< 8) lo) in
    checksum_from (bit_or (sum' >>> 1) (u32 (sum' <<< 31))) rest

pub checksum : List ℕ → ℕ
checksum bytes = checksum_from 0 bytes

unfoldable pub rewrap : Parts → List ℕ → List ℕ
rewrap p sectors =
    if not (wrapped p)
    then sectors
    else put32 72 (checksum sectors)
        (put32 68 (u32 (length p.tags)) (put32 64 (u32 (length sectors)) p.header))
      ++ (sectors ++ p.tags)

-- For callers that dropped the tags.
unfoldable pub rewrap_header : List ℕ → List ℕ → List ℕ
rewrap_header header sectors = rewrap (record { header = header; tags = [] }) sectors
