-- ===== src/Disk/Gcr/Scramble.antt =====
-- The scrambled data field is read back.
use open_mac_for_linux.Base.{
  ℕ, ◌+◌, ◌<◌, suc, length, bit_xor, bit_xor-lt, bit_or, ◌<<<◌, ◌≡◌, refl, ap, List, [], ◌∷◌, u8,
  arith, AllBytes, bit_xor-bit_xor,
}
use open_mac_for_linux.Disk.Gcr.{Checksum, rotate, top_digit, carry_of, encode_data, decode_data}

unscramble : (v x : ℕ) → v < 256 → bit_xor (bit_xor v (u8 x)) (u8 x) ≡ v
unscramble v x h = bit_xor-bit_xor 8 v (u8 x) h (omega arith)

-- Unscrambling what was scrambled, from the same accumulators, gives the bytes back, however many
-- there are, and ends with the accumulators that the scrambling ended with: the checksum agrees.
pub decode_data-encode_data :
    (vs : List ℕ) (k : Checksum)
    → AllBytes vs
    → let (xs, k') = encode_data vs k in decode_data xs k ≡ (vs, k')
unfolding encode_data decode_data
decode_data-encode_data [] k h = refl
decode_data-encode_data (v0 ∷ []) k h =
    rw (unscramble v0 (bit_or (k.c <<< 1) (top_digit k.c)) h.0) refl
decode_data-encode_data (v0 ∷ v1 ∷ []) k h =
    rw
      (
        unscramble v0 (bit_or (k.c <<< 1) (top_digit k.c)) h.0,
        unscramble v1 (k.a + v0 + top_digit k.c) h.1.0,
      )
      refl
decode_data-encode_data (v0 ∷ v1 ∷ v2 ∷ vs) k h =
    let s0 = k.a + v0 + top_digit k.c in
    let s1 = k.b + v1 + carry_of s0 in
    let s2 = rotate k.c + v2 + carry_of s1 in
    rw
      (
        unscramble v0 (bit_or (k.c <<< 1) (top_digit k.c)) h.0,
        unscramble v1 s0 h.1.0,
        unscramble v2 s1 h.1.1.0,
        decode_data-encode_data vs (record { a = u8 s0; b = u8 s1; c = u8 s2 }) h.1.1.1,
      )
      refl

pub length-encode_data : (vs : List ℕ) (k : Checksum) → length (encode_data vs k).0 ≡ length vs
unfolding encode_data
length-encode_data [] k = refl
length-encode_data (v0 ∷ []) k = refl
length-encode_data (v0 ∷ v1 ∷ []) k = refl
length-encode_data (v0 ∷ v1 ∷ v2 ∷ vs) k =
    ap (λ (n : ℕ). suc (suc (suc n))) (length-encode_data vs _)

-- The accumulators are bytes, and so is what is scrambled by them.
pub record IsBytes (k : Checksum) : Type 0 where
  pub a_byte : k.a < 256
  pub b_byte : k.b < 256
  pub c_byte : k.c < 256

byte-xor : (v x : ℕ) → v < 256 → bit_xor v (u8 x) < 256
byte-xor v x h = bit_xor-lt 8 v (u8 x) h (omega arith)

pub encode_data-IsBytes :
    (vs : List ℕ) (k : Checksum)
    → AllBytes vs
    → IsBytes k
    → AllBytes (encode_data vs k).0 × IsBytes (encode_data vs k).1
unfolding encode_data
encode_data-IsBytes [] k h b = (tt, b)
encode_data-IsBytes (v0 ∷ []) k h b = (
  (byte-xor v0 _ h.0, tt),
  record { a_byte = omega arith; b_byte = b.b_byte; c_byte = omega arith },
)
encode_data-IsBytes (v0 ∷ v1 ∷ []) k h b = (
  (byte-xor v0 _ h.0, (byte-xor v1 _ h.1.0, tt)),
  record { a_byte = omega arith; b_byte = omega arith; c_byte = omega arith },
)
encode_data-IsBytes (v0 ∷ v1 ∷ v2 ∷ vs) k h b =
    let later =
      encode_data-IsBytes vs _ h.1.1.1
        (record { a_byte = omega arith; b_byte = omega arith; c_byte = omega arith }) in
    ((byte-xor v0 _ h.0, (byte-xor v1 _ h.1.0, (byte-xor v2 _ h.1.1.0, later.0))), later.1)
