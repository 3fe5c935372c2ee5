-- ===== src/Disk/MacBinary.antt =====
-- MacBinary containers: macbinary.hpp. The laws of splitting and reassembling are in its children.
pub mod Layout
pub mod Wrapping
use open_mac_for_linux.Base.{
  ℕ, zero, suc, ◌+◌, ◌-◌, ◌*◌, ◌^◌, bit_and, bit_or, Bool, true, false, not, ◌&&◌, ◌||◌, List, [],
  ◌∷◌, ◌++◌, length, get_or, set, take, drop, replicate, u8, u16, u32, ◌<<<◌, ◌>>>◌, leb, ltb, ◌==◌,
  ◌!=◌, if◌then◌else◌,
}
use open_mac_for_linux.Disk.Bytes.{be32, put32}
use open_mac_for_linux.Disk.Crc.{crc16}

abbrev pub k_header_size : ℕ
k_header_size = 128

-- The first `n` bytes from a check of zero.
pub crc : List ℕ → ℕ → ℕ
crc bytes n = crc16 (take n bytes) 0

-- The complement is of 64 bits.
pub pad128 : ℕ → ℕ
pad128 n = bit_and (n + 127) (2 ^ 64 - 1 - 127)

pub stored_crc : List ℕ → ℕ
stored_crc f = u16 (bit_or (get_or f 124 0 <<< 8) (get_or f 125 0))

pub is_mac_binary : List ℕ → Bool
is_mac_binary f =
    let name_len = get_or f 1 0 in
    let data_len = be32 f 83 in
    let rsrc_len = be32 f 87 in
    let stored = stored_crc f in
    let padded = k_header_size + pad128 data_len + pad128 rsrc_len in
    if ltb (length f) k_header_size
    then false
    else if get_or f 0 0 != 0 || get_or f 74 0 != 0
    then false
    else if ltb name_len 1 || ltb 63 name_len
    then false
    else if ltb 0x00FFFFFF data_len || ltb 0x00FFFFFF rsrc_len
    then false
    else if ltb (length f) (k_header_size + data_len + rsrc_len)
    then false
    else if stored != 0
    then crc f 124 == stored
    else if get_or f 82 0 != 0
    then false
    else leb (length f) padded

pub record Parts : Type 0 where
  pub header : List ℕ
  pub resource : List ℕ

unfoldable pub wrapped : Parts → Bool
wrapped p = length p.header == k_header_size

-- A character that prints; the source's are signed.
abbrev pub printable : ℕ → ℕ
printable c = if leb 0x20 c && ltb c 0x7F then c else 0x3F

unfoldable pub fourcc : Parts → ℕ → List ℕ
fourcc p at =
    if not (wrapped p)
    then []
    else printable (get_or p.header at 0)
      ∷ printable (get_or p.header (at + 1) 0)
      ∷ printable (get_or p.header (at + 2) 0)
      ∷ printable (get_or p.header (at + 3) 0)
      ∷ []

unfoldable pub file_type : Parts → List ℕ
file_type p = fourcc p 65

unfoldable pub creator : Parts → List ℕ
creator p = fourcc p 69

unfoldable pub name : Parts → List ℕ
name p =
    let n = if leb (get_or p.header 1 0) 63 then get_or p.header 1 0 else 63 in
    if not (wrapped p) then [] else take n (drop 2 p.header)

-- The pieces to keep, and what is left of the file.
unfoldable pub split : List ℕ → Parts × List ℕ
split f =
    let header = take k_header_size f in
    let data_len = be32 header 83 in
    let rsrc_len = be32 header 87 in
    let rsrc_at = k_header_size + pad128 data_len in
    if not (is_mac_binary f) then (record { header = []; resource = [] }, f) else (
      record {
        header = header;
        resource =
            if rsrc_len != 0 && leb (rsrc_at + rsrc_len) (length f)
            then take rsrc_len (drop rsrc_at f)
            else [];
      },
      take data_len (drop k_header_size f),
    )

-- `resize`, with zeros for what is missing.
pub resize : ℕ → List ℕ → List ℕ
resize n out = take n out ++ replicate (n - length out) 0

-- The header of a reassembled file.
pub refresh : List ℕ → ℕ → List ℕ
refresh header size =
    let out = put32 83 (u32 size) header in
    let c = crc out 124 in
    if stored_crc header != 0 then set (set out 124 (u8 (c >>> 8))) 125 (u8 c) else out

-- The resource fork put after the rest, if there is one.
pub add_resource : List ℕ → List ℕ → List ℕ
add_resource [] out = out
add_resource (r ∷ rs) out =
    let resource = r ∷ rs in
    let out' = out ++ resource in
    resize (length out' + (pad128 (length resource) - length resource)) out'

unfoldable pub rewrap : Parts → List ℕ → List ℕ
rewrap p fork =
    if not (wrapped p)
    then fork
    else add_resource p.resource
        (resize (k_header_size + pad128 (length fork)) (refresh p.header (length fork) ++ fork))
