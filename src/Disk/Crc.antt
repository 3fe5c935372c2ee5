-- ===== src/Disk/Crc.antt =====
-- The CCITT check of `crc` in macbinary.hpp and of `crc16` in mfm.hpp. What it detects is in a child.
pub mod Detection
use open_mac_for_linux.Base.{ℕ, bit_and, bit_xor, List, [], ◌∷◌, u16, ◌<<<◌, ◌!=◌, if◌then◌else◌}

unfoldable pub crc_bit : ℕ → ℕ
crc_bit c = u16 (if bit_and c 0x8000 != 0 then bit_xor (c <<< 1) 0x1021 else c <<< 1)

abbrev pub crc_bits : ℕ → ℕ
crc_bits c = crc_bit (crc_bit (crc_bit (crc_bit (crc_bit (crc_bit (crc_bit (crc_bit c)))))))

unfoldable pub crc16_update : ℕ → ℕ → ℕ
crc16_update crc byte = crc_bits (bit_xor crc (u16 (byte <<< 8)))

unfoldable pub crc16 : List ℕ → ℕ → ℕ
crc16 [] crc = crc
crc16 (b ∷ bs) crc = crc16 bs (crc16_update crc b)
