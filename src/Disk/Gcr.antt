-- ===== src/Disk/Gcr.antt =====
-- The GCR codec of gcr.hpp: its alphabet, the disk's geometry, the scrambled data field with its
-- checksum, and the nibbles. Tracks are in a child.
pub mod Scramble
pub mod Nibbles
pub mod Track
use open_mac_for_linux.Base.{
  ℕ, zero, suc, ◌+◌, ◌-◌, ◌*◌, ◌/◌, ◌%◌, bit_and, bit_or, bit_xor, Bool, true, false, Option, none,
  some, List, [], ◌∷◌, ◌++◌, length, get_or, set, replicate, u8, ◌<<<◌, ◌>>>◌, ltb, ◌==◌,
  if◌then◌else◌,
}

abbrev pub encode_table : List ℕ
encode_table =
    0x96 ∷ 0x97 ∷ 0x9A ∷ 0x9B ∷ 0x9D ∷ 0x9E ∷ 0x9F ∷ 0xA6 ∷ 0xA7 ∷ 0xAB ∷ 0xAC ∷ 0xAD ∷ 0xAE ∷ 0xAF
    ∷ 0xB2 ∷ 0xB3 ∷ 0xB4 ∷ 0xB5 ∷ 0xB6 ∷ 0xB7 ∷ 0xB9 ∷ 0xBA ∷ 0xBB ∷ 0xBC ∷ 0xBD ∷ 0xBE ∷ 0xBF
    ∷ 0xCB ∷ 0xCD ∷ 0xCE ∷ 0xCF ∷ 0xD3 ∷ 0xD6 ∷ 0xD7 ∷ 0xD9 ∷ 0xDA ∷ 0xDB ∷ 0xDC ∷ 0xDD ∷ 0xDE
    ∷ 0xDF ∷ 0xE5 ∷ 0xE6 ∷ 0xE7 ∷ 0xE9 ∷ 0xEA ∷ 0xEB ∷ 0xEC ∷ 0xED ∷ 0xEE ∷ 0xEF ∷ 0xF2 ∷ 0xF3
    ∷ 0xF4 ∷ 0xF5 ∷ 0xF6 ∷ 0xF7 ∷ 0xF9 ∷ 0xFA ∷ 0xFB ∷ 0xFC ∷ 0xFD ∷ 0xFE ∷ 0xFF ∷ []

pub encode : ℕ → ℕ
encode v = get_or encode_table v 0

-- The inverse table is filled from the table, over 0xFF.
pub invert : List ℕ → ℕ → List ℕ → List ℕ
invert [] i inverse = inverse
invert (b ∷ bs) i inverse = invert bs (i + 1) (set inverse b i)

unfoldable pub decode : ℕ → ℕ
decode b = get_or (invert encode_table 0 (replicate 256 0xFF)) b 0xFF

-- Geometry: five zones of 16 tracks.
unfoldable pub sectors_on_track : ℕ → ℕ
sectors_on_track track =
    let z = track / 16 in get_or (12 ∷ 11 ∷ 10 ∷ 9 ∷ 8 ∷ []) (if ltb 4 z then 4 else z) 0

unfoldable pub track_start_sector : ℕ → ℕ
track_start_sector zero = 0
track_start_sector (suc t) = track_start_sector t + sectors_on_track t

unfoldable pub sectors_per_side : ℕ
sectors_per_side = track_start_sector 80

-- The three accumulators.
pub record Checksum : Type 0 where
  pub a : ℕ
  pub b : ℕ
  pub c : ℕ

abbrev pub fresh : Checksum
fresh = record { a = 0; b = 0; c = 0 }

-- The digit that a rotation of the third accumulator takes round, and its result.
abbrev pub top_digit : ℕ → ℕ
top_digit c = bit_and (c >>> 7) 1

abbrev pub rotate : ℕ → ℕ
rotate c = u8 (bit_or (c <<< 1) (top_digit c))

abbrev pub carry_of : ℕ → ℕ
carry_of s = if ltb 0xFF s then 1 else 0

-- The loops take three bytes a round, the last one fewer.
unfoldable pub encode_data : List ℕ → Checksum → List ℕ × Checksum
encode_data [] k = ([], k)
encode_data (v0 ∷ []) k =
    let c = rotate k.c in (bit_xor v0 c ∷ [], record k { a = u8 (k.a + v0 + top_digit k.c); c = c })
encode_data (v0 ∷ v1 ∷ []) k =
    let c = rotate k.c in
    let s0 = k.a + v0 + top_digit k.c in
    let s1 = k.b + v1 + carry_of s0 in
    (bit_xor v0 c ∷ bit_xor v1 (u8 s0) ∷ [], record { a = u8 s0; b = u8 s1; c = c })
encode_data (v0 ∷ v1 ∷ v2 ∷ vs) k =
    let c = rotate k.c in
    let s0 = k.a + v0 + top_digit k.c in
    let s1 = k.b + v1 + carry_of s0 in
    let s2 = c + v2 + carry_of s1 in
    let (out, k') = encode_data vs (record { a = u8 s0; b = u8 s1; c = u8 s2 }) in
    (bit_xor v0 c ∷ bit_xor v1 (u8 s0) ∷ bit_xor v2 (u8 s1) ∷ out, k')

pub decode_data : List ℕ → Checksum → List ℕ × Checksum
decode_data [] k = ([], k)
decode_data (x0 ∷ []) k =
    let c = rotate k.c in
    let v0 = bit_xor x0 c in (v0 ∷ [], record k { a = u8 (k.a + v0 + top_digit k.c); c = c })
decode_data (x0 ∷ x1 ∷ []) k =
    let c = rotate k.c in
    let v0 = bit_xor x0 c in
    let s0 = k.a + v0 + top_digit k.c in
    let v1 = bit_xor x1 (u8 s0) in
    let s1 = k.b + v1 + carry_of s0 in (v0 ∷ v1 ∷ [], record { a = u8 s0; b = u8 s1; c = c })
decode_data (x0 ∷ x1 ∷ x2 ∷ xs) k =
    let c = rotate k.c in
    let v0 = bit_xor x0 c in
    let s0 = k.a + v0 + top_digit k.c in
    let v1 = bit_xor x1 (u8 s0) in
    let s1 = k.b + v1 + carry_of s0 in
    let v2 = bit_xor x2 (u8 s1) in
    let s2 = c + v2 + carry_of s1 in
    let (out, k') = decode_data xs (record { a = u8 s0; b = u8 s1; c = u8 s2 }) in
    (v0 ∷ v1 ∷ v2 ∷ out, k')

-- The high digits of three bytes in one, and the low digits of one.
abbrev pub gathered : ℕ → ℕ → ℕ → ℕ
gathered v0 v1 v2 = bit_or (bit_or ((v0 >>> 6) <<< 4) ((v1 >>> 6) <<< 2)) (v2 >>> 6)

abbrev pub six : ℕ → ℕ
six v = encode (bit_and v 0x3F)

unfoldable pub nibblize : List ℕ → List ℕ
nibblize [] = []
nibblize (v0 ∷ []) = six (u8 (gathered v0 0 0)) ∷ six v0 ∷ []
nibblize (v0 ∷ v1 ∷ []) = six (u8 (gathered v0 v1 0)) ∷ six v0 ∷ six v1 ∷ []
nibblize (v0 ∷ v1 ∷ v2 ∷ vs) = six (u8 (gathered v0 v1 v2)) ∷ six v0 ∷ six v1 ∷ six v2 ∷ nibblize vs

pub nibblized_size : ℕ → ℕ
nibblized_size n = n / 3 * 4 + (if n % 3 == 0 then 0 else n % 3 + 1)

-- A disk byte read, if it is one. The source never reads past the end: its caller has counted.
abbrev pub next : List ℕ → Option (ℕ × List ℕ)
next [] = none
next (b ∷ bs) = if decode b == 0xFF then none else some (decode b, bs)

infixl 5 ◌>>=◌
abbrev pub ◌>>=◌ {ℓ κ} : {A : Type ℓ} {B : Type κ} → Option A → (A → Option B) → Option B
none >>= f = none
some x >>= f = f x

-- A byte from its low digits and place `k` of the gathered ones.
abbrev pub rebuilt : ℕ → ℕ → ℕ → ℕ
rebuilt pairs k v = u8 (bit_or (bit_and (pairs >>> (4 - 2 * k)) 3 <<< 6) v)

-- The bytes, and what follows them.
pub denibblize : ℕ → List ℕ → Option (List ℕ × List ℕ)
denibblize zero xs = some ([], xs)
denibblize (suc zero) xs = do
  (p, xs1) ← next xs
  (v0, xs2) ← next xs1
  some (rebuilt p 0 v0 ∷ [], xs2)
denibblize (suc (suc zero)) xs = do
  (p, xs1) ← next xs
  (v0, xs2) ← next xs1
  (v1, xs3) ← next xs2
  some (rebuilt p 0 v0 ∷ rebuilt p 1 v1 ∷ [], xs3)
denibblize (suc (suc (suc n))) xs = do
  (p, xs1) ← next xs
  (v0, xs2) ← next xs1
  (v1, xs3) ← next xs2
  (v2, xs4) ← next xs3
  (out, rest) ← denibblize n xs4
  some (rebuilt p 0 v0 ∷ rebuilt p 1 v1 ∷ rebuilt p 2 v2 ∷ out, rest)
