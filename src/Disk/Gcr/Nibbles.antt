-- ===== src/Disk/Gcr/Nibbles.antt =====
-- Nibbles are read back.
use open_mac_for_linux.Base.{
  ℕ, true, ◌+◌, ◌*◌, ◌/◌, ◌%◌, ◌^◌, ◌<◌, bit_and, bit_or, ◌≡◌, refl, ◌∙◌, List, [], ◌∷◌, ◌++◌, some,
  length, u8, arith, ◌==◌, AllBytes, bit_and_low, bit_or_join, every_below, every_below_sound,
  ◌<<<◌,
}
use open_mac_for_linux.Disk.Gcr.{
  encode, decode, gathered, six, next, rebuilt, nibblize, denibblize, nibblized_size, invert,
}

alphabet : every_below 64 (λ v. decode (encode v) == v) ≡ true
unfolding every_below decode encode invert
alphabet = refl

decode-encode : (v : ℕ) → v < 64 → decode (encode v) ≡ v
decode-encode v h =
    let test = every_below_sound 64 (λ v. decode (encode v) == v) alphabet v h in ground arith

pub decode-six : (v : ℕ) → decode (six v) ≡ v % 64
decode-six v = rw (bit_and_low 6 v) (decode-encode (v % 64) (omega arith))

next-six : (v : ℕ) (rest : List ℕ) → next (six v ∷ rest) ≡ some (v % 64, rest)
next-six v rest = rw (bit_and_low 6 v, decode-encode (v % 64) (omega arith)) (ground arith)

three_fields :
    (x y z : ℕ) → x < 4 → y < 4 → z < 4 → bit_or (bit_or (x * 16) (y * 4)) z ≡ x * 16 + y * 4 + z
three_fields x y z hx hy hz =
    let shifted : x * 16 + y * 4 ≡ (x * 4 + y) * 2 ^ 2 = omega arith in
    rw (bit_or_join 4 x (y * 4) (omega arith), shifted)
      (bit_or_join 2 (x * 4 + y) z hz ∙ omega arith)

-- The gathered digits as a number.
gathered-sum :
    (v0 v1 v2 : ℕ)
    → v0 < 256
    → v1 < 256
    → v2 < 256
    → u8 (gathered v0 v1 v2) % 64 ≡ v0 / 64 * 16 + v1 / 64 * 4 + v2 / 64
gathered-sum v0 v1 v2 h0 h1 h2 =
    rw (three_fields (v0 / 64) (v1 / 64) (v2 / 64) (omega arith) (omega arith) (omega arith))
      (omega arith)

rebuilt-sum : (q v : ℕ) → v < 64 → u8 (bit_or (bit_and q 3 <<< 6) v) ≡ q % 4 * 64 + v
rebuilt-sum q v h = rw (bit_and_low 2 q, bit_or_join 6 (q % 4) v h) (omega arith)

-- Each byte comes back from its place among the gathered digits.
pub restored :
    (v0 v1 v2 : ℕ)
    → v0 < 256
    → v1 < 256
    → v2 < 256
    → let p = u8 (gathered v0 v1 v2) % 64 in
      (rebuilt p 0 (v0 % 64) ≡ v0) × ((rebuilt p 1 (v1 % 64) ≡ v1) × (rebuilt p 2 (v2 % 64) ≡ v2))
restored v0 v1 v2 h0 h1 h2 =
    let p = u8 (gathered v0 v1 v2) % 64 in
    let sum = gathered-sum v0 v1 v2 h0 h1 h2 in
    (
      rebuilt-sum (p / 2 ^ 4) (v0 % 64) (omega arith) ∙ rw sum (omega arith),
      (
        rebuilt-sum (p / 2 ^ 2) (v1 % 64) (omega arith) ∙ rw sum (omega arith),
        rebuilt-sum (p / 2 ^ 0) (v2 % 64) (omega arith) ∙ rw sum (omega arith),
      ),
    )

-- Reading the nibbles of any bytes gives the bytes back, whether or not their number is a multiple
-- of three, and leaves what follows the nibbles.
pub denibblize-nibblize :
    (vs rest : List ℕ)
    → AllBytes vs
    → denibblize (length vs) (nibblize vs ++ rest) ≡ some (vs, rest)
unfolding denibblize nibblize
denibblize-nibblize [] rest h = refl
denibblize-nibblize (v0 ∷ []) rest h =
    let back = restored v0 0 0 h.0 (omega arith) (omega arith) in
    rw (next-six (u8 (gathered v0 0 0)) (six v0 ∷ rest), next-six v0 rest, back.0) refl
denibblize-nibblize (v0 ∷ v1 ∷ []) rest h =
    let back = restored v0 v1 0 h.0 h.1.0 (omega arith) in
    rw
      (
        next-six (u8 (gathered v0 v1 0)) (six v0 ∷ six v1 ∷ rest),
        next-six v0 (six v1 ∷ rest),
        next-six v1 rest,
        back.0,
        back.1.0,
      )
      refl
denibblize-nibblize (v0 ∷ v1 ∷ v2 ∷ vs) rest h =
    let back = restored v0 v1 v2 h.0 h.1.0 h.1.1.0 in
    let tail = nibblize vs ++ rest in
    rw
      (
        next-six (u8 (gathered v0 v1 v2)) (six v0 ∷ six v1 ∷ six v2 ∷ tail),
        next-six v0 (six v1 ∷ six v2 ∷ tail),
        next-six v1 (six v2 ∷ tail),
        next-six v2 tail,
        denibblize-nibblize vs rest h.1.1.1,
        back.0,
        back.1.0,
        back.1.1,
      )
      refl

-- Their number is the one that the decoder of a track steps over.
pub length-nibblize : (vs : List ℕ) → length (nibblize vs) ≡ nibblized_size (length vs)
unfolding nibblize nibblized_size
length-nibblize [] = refl
length-nibblize (v0 ∷ []) = refl
length-nibblize (v0 ∷ v1 ∷ []) = refl
length-nibblize (v0 ∷ v1 ∷ v2 ∷ vs) = ground (arith, length-nibblize vs)
