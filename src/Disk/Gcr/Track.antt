-- ===== src/Disk/Gcr/Track.antt =====
-- Tracks of gcr.hpp: the interleave, `buildTrack` and `decodeTrack`.
pub mod Reading
pub mod Interleave
pub mod Copy
use open_mac_for_linux.Base.{
  ℕ, zero, suc, ◌+◌, ◌-◌, ◌*◌, ◌/◌, ◌%◌, ◌≤◌, bit_and, bit_or, bit_xor, Bool, true, false, not,
  ◌&&◌, ◌||◌, Option, none, some, List, [], ◌∷◌, ◌++◌, length, get_or, set, take, drop, replicate,
  u8, ltb, leb, ◌==◌, ◌!=◌, if◌then◌else◌,
}
use open_mac_for_linux.Disk.Gcr.{
  encode, decode, sectors_on_track, track_start_sector, Checksum, fresh, encode_data, decode_data,
  six, gathered, rebuilt, nibblize, nibblized_size, denibblize,
}

-- 2:1 interleave. A slot holds the logical sector that it was given; -1 is `none`.
abbrev pub taken : List (Option ℕ) → ℕ → Bool
taken slots p = elim (get_or slots p none) [ none ↦ false | some _ ↦ true ]

-- The search for a free slot, on fuel.
unfoldable pub free_slot : ℕ → ℕ → List (Option ℕ) → ℕ → ℕ
free_slot n zero slots p = p
free_slot n (suc fuel) slots p =
    let later = free_slot n fuel slots ((p + 1) % n) in if taken slots p then later else p

-- The slots, with `left` logical sectors from `i` on still to place.
unfoldable pub place : ℕ → ℕ → ℕ → ℕ → List (Option ℕ) → List (Option ℕ)
place n zero i p slots = slots
place n (suc left) i p slots =
    let p' = free_slot n n slots p in place n left (i + 1) ((p' + 2) % n) (set slots p' (some i))

-- The logical sectors in the order of their slots: `buildTrack` inverts the inverse of this.
abbrev pub occupant : Option ℕ → ℕ
occupant none = 0
occupant (some i) = i

abbrev pub occupants : List (Option ℕ) → List ℕ
occupants [] = []
occupants (s ∷ ss) = occupant s ∷ occupants ss

unfoldable pub interleave_order : ℕ → List ℕ
interleave_order n = occupants (place n n 0 0 (replicate n none))

abbrev pub k_sector_bytes : ℕ
k_sector_bytes = 512

abbrev pub k_payload : ℕ
k_payload = 524

-- Twelve tag bytes and the sector, zeros where the image has none.
pub payload : List ℕ → ℕ → List ℕ
payload image off =
    replicate 12 0
    ++ (if leb (off + k_sector_bytes) (length image)
        then take k_sector_bytes (drop off image)
        else replicate k_sector_bytes 0)

abbrev pub side_high : ℕ → ℕ → ℕ
side_high track side = bit_or (if side == 0 then 0 else 0x20) (if leb 64 track then 1 else 0)

abbrev pub header_check : ℕ → ℕ → ℕ → ℕ → ℕ
header_check track sector high format =
    bit_and (bit_xor (bit_xor (bit_xor (bit_and track 0x3F) sector) high) format) 0x3F

-- The four disk bytes of a checksum.
abbrev pub check_bytes : Checksum → List ℕ
check_bytes k = six (gathered k.a k.b k.c) ∷ six k.a ∷ six k.b ∷ six k.c ∷ []

pub header_field : ℕ → ℕ → ℕ → ℕ → List ℕ
header_field track sector side format =
    let high = side_high track side in
    0xD5
    ∷ 0xAA
    ∷ 0x96
    ∷ six (bit_and track 0x3F)
    ∷ six sector
    ∷ six high
    ∷ six format
    ∷ six (header_check track sector high format)
    ∷ []

pub data_field : List ℕ → List ℕ
data_field raw = let (scrambled, k) = encode_data raw fresh in nibblize scrambled ++ check_bytes k

pub build_sector : List ℕ → ℕ → ℕ → ℕ → ℕ → ℕ → List ℕ
build_sector image start track side format sector =
    replicate 36 0xFF
    ++ (header_field track sector side format
        ++ (0xDE ∷ 0xAA ∷ 0xFF ∷ replicate 5 0xFF
            ++ (0xD5
                  ∷ 0xAA
                  ∷ 0xAD
                  ∷ six sector
                  ∷ data_field (payload image ((start + sector) * k_sector_bytes))
                ++ (0xDE ∷ 0xAA ∷ 0xFF ∷ []))))

pub build_sectors : List ℕ → ℕ → ℕ → ℕ → ℕ → List ℕ → List ℕ
build_sectors image start track side format [] = []
build_sectors image start track side format (s ∷ ss) =
    build_sector image start track side format s ++ build_sectors image start track side format ss

pub build_track : List ℕ → ℕ → ℕ → ℕ → ℕ → List ℕ
build_track image track side sides format =
    let n = sectors_on_track track in
    build_sectors image (track_start_sector track * sides + side * n) track side format
      (interleave_order n)

-- Bytes copied into an image, if they fit.
unfoldable pub write_sector : ℕ → List ℕ → List ℕ → List ℕ
write_sector off bytes image =
    if leb (off + k_sector_bytes) (length image)
    then take off image ++ (bytes ++ drop (off + k_sector_bytes) image)
    else image

-- What the decoder carries: the sector and side of the last header, the image, the sectors found.
pub record Decoding : Type 0 where
  pub cur_sector : Option ℕ
  pub cur_side : ℕ
  pub image : List ℕ
  pub found : ℕ

-- A header of five disk bytes, if they are valid and agree.
pub take_header : ℕ → ℕ → ℕ → ℕ → ℕ → Decoding → Decoding
take_header t s sh f ck d =
    if t != 0xFF
      && (s != 0xFF
          && (sh != 0xFF
              && (f != 0xFF
                  && (ck != 0xFF && (bit_and (bit_xor (bit_xor (bit_xor t s) sh) f) 0x3F == ck)))))
    then record d { cur_sector = some s; cur_side = if bit_and sh 0x20 == 0 then 0 else 1 }
    else d

-- A sector whose four check bytes, decoded, are these.
pub take_checked : ℕ → ℕ → ℕ → List ℕ → Checksum → ℕ → ℕ → ℕ → ℕ → Decoding → Decoding
take_checked before n sector raw k pr va vb vc d =
    if pr != 0xFF
      && (va != 0xFF
          && (vb != 0xFF
              && (vc != 0xFF
                  && ((rebuilt pr 0 va == k.a)
                      && ((rebuilt pr 1 vb == k.b)
                          && ((rebuilt pr 2 vc == k.c) && ltb sector n))))))
    then record d {
      image =
          write_sector ((before + d.cur_side * n + sector) * k_sector_bytes) (drop 12 raw) d.image;
      found = d.found + 1;
    }
    else d

-- What `denibblize` made of the data field of a sector, and what follows it.
abbrev pub take_scanned : ℕ → ℕ → ℕ → Option (List ℕ × List ℕ) → Decoding → Decoding
take_scanned before n sector none d = d
take_scanned before n sector (some (scrambled, rest)) d =
    let (raw, k) = decode_data scrambled fresh in
    take_checked before n sector raw k (decode (get_or rest 0 0)) (decode (get_or rest 1 0))
      (decode (get_or rest 2 0)) (decode (get_or rest 3 0)) d

pub take_data : ℕ → ℕ → ℕ → List ℕ → Decoding → Decoding
take_data before n sector bytes d = take_scanned before n sector (denibblize k_payload bytes) d

-- The same for the sector of the last header.
abbrev pub take_data_of : ℕ → ℕ → Option ℕ → List ℕ → Decoding → Decoding
take_data_of before n none bytes d = d
take_data_of before n (some s) bytes d = take_data before n s bytes d

abbrev pub known : Option ℕ → Bool
known none = false
known (some _) = true

abbrev pub at_mark : ℕ → List ℕ → Bool
at_mark kind bytes =
    get_or bytes 0 0 == 0xD5 && (get_or bytes 1 0 == 0xAA && (get_or bytes 2 0 == kind))

abbrev pub decoded_at : List ℕ → ℕ → ℕ
decoded_at bytes i = decode (get_or bytes i 0)

-- The `while` loop on what is left of the stream; every round takes a byte at least.
pub decode_loop : ℕ → ℕ → ℕ → List ℕ → Decoding → Decoding
decode_loop before n zero bytes d = d
decode_loop before n (suc fuel) bytes d =
    let after_header = decode_loop before n fuel (drop 8 bytes) (
      take_header (decoded_at bytes 3) (decoded_at bytes 4) (decoded_at bytes 5)
        (decoded_at bytes 6) (decoded_at bytes 7) d) in
    let after_data =
      decode_loop before n fuel (drop (4 + nibblized_size k_payload + 4) bytes)
        (record (take_data_of before n d.cur_sector (drop 4 bytes) d) { cur_sector = none }) in
    let skipped = decode_loop before n fuel (drop 1 bytes) d in
    if leb (length bytes) 3
    then d
    else if at_mark 0x96 bytes && ltb 8 (length bytes)
    then after_header
    else if at_mark 0xAD bytes
        && (known d.cur_sector && leb (4 + nibblized_size k_payload + 4) (length bytes))
    then after_data
    else skipped

pub decode_track : List ℕ → List ℕ → ℕ → ℕ → ℕ × List ℕ
decode_track trk image track sides =
    let n = sectors_on_track track in
    let d =
      decode_loop (track_start_sector track * sides) n (length trk) trk
        (record { cur_sector = none; cur_side = 0; image = image; found = 0 }) in
    (d.found, d.image)
