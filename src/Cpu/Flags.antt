-- ===== src/Cpu/Flags.antt =====
-- The size helpers and the condition codes of cpu_ops.hpp and cpu.cpp. They touch the status
-- register alone, so they are functions of it. Sizes are 0 for a byte, 1 for a word, 2 for a long.
pub mod Digits
pub mod Arithmetic
pub mod Comparison
use open_mac_for_linux.Base.{
  ℕ, ◌+◌, ◌-◌, bit_and, bit_or, bit_xor, Bool, true, false, not, ◌&&◌, ◌||◌, u8, u16, u32, not16,
  not32, sub32, ltb, ◌==◌, ◌!=◌, if◌then◌else◌, same, ◌%◌,
}

abbrev pub k_c : ℕ
k_c = 0x0001

abbrev pub k_v : ℕ
k_v = 0x0002

abbrev pub k_z : ℕ
k_z = 0x0004

abbrev pub k_n : ℕ
k_n = 0x0008

abbrev pub k_x : ℕ
k_x = 0x0010

abbrev pub k_s : ℕ
k_s = 0x2000

abbrev pub k_t : ℕ
k_t = 0x8000

abbrev pub k_sr_mask : ℕ
k_sr_mask = 0xA71F

pub mask_for : ℕ → ℕ
mask_for size = if size == 0 then 0xFF else if size == 1 then 0xFFFF else 0xFFFFFFFF

pub sign_bit : ℕ → ℕ
sign_bit size = if size == 0 then 0x80 else if size == 1 then 0x8000 else 0x80000000

-- Bytes and words sign-extended to 32 bits.
unfoldable pub sext8 : ℕ → ℕ
sext8 v = let b = v % 0x100 in if ltb b 0x80 then b else b + 0xFFFFFF00

unfoldable pub sext16 : ℕ → ℕ
sext16 v = let w = v % 0x10000 in if ltb w 0x8000 then w else w + 0xFFFF0000

-- The new content of a register.
unfoldable pub write_sized : ℕ → ℕ → ℕ → ℕ
write_sized reg v size =
    if size == 0
    then bit_or (bit_and reg 0xFFFFFF00) (bit_and v 0xFF)
    else if size == 1
    then bit_or (bit_and reg 0xFFFF0000) (bit_and v 0xFFFF)
    else v

pub set_flag : ℕ → Bool → ℕ → ℕ
set_flag mask on sr = if on then bit_or sr mask else u16 (bit_and sr (not16 mask))

unfoldable pub flag : ℕ → ℕ → Bool
flag sr f = bit_and sr f != 0

unfoldable pub set_nz : ℕ → ℕ → ℕ → ℕ
set_nz v0 size sr =
    let v = bit_and v0 (mask_for size) in
    set_flag k_z (v == 0) (set_flag k_n (bit_and v (sign_bit size) != 0) sr)

-- V and C cleared.
pub clear_vc : ℕ → ℕ
clear_vc sr = u16 (bit_and sr (not16 (bit_or k_v k_c)))

unfoldable pub set_logic_flags : ℕ → ℕ → ℕ → ℕ
set_logic_flags v size sr = clear_vc (set_nz v size sr)

-- V, C, X and N in the order of the source, then Z: kept unless the result is not 0, or set.
pub set_all : Bool → Bool → Bool → Bool → ℕ → ℕ → ℕ
set_all v c n sticky_z r sr0 =
    let sr = set_flag k_n n (set_flag k_x c (set_flag k_c c (set_flag k_v v sr0))) in
    if sticky_z then (if r == 0 then sr else set_flag k_z false sr) else set_flag k_z (r == 0) sr

-- The carry into an operation with X.
pub carry_in : Bool → ℕ → ℕ
carry_in with_x sr = if with_x && flag sr k_x then 1 else 0

-- The result, then the status register.
pub add_flags : ℕ → ℕ → ℕ → Bool → Bool → ℕ → ℕ × ℕ
add_flags s0 t0 size with_x sticky_z sr =
    let m = mask_for size in
    let s = bit_and s0 m in
    let t = bit_and t0 m in
    let wide = s + t + carry_in with_x sr in
    let r = bit_and (u32 wide) m in
    let carry = ltb m wide in
    let overflow = bit_and (bit_and (not32 (bit_xor s t)) (bit_xor s r)) (sign_bit size) != 0 in
    (r, set_all overflow carry (bit_and r (sign_bit size) != 0) sticky_z r sr)

pub sub_flags : ℕ → ℕ → ℕ → Bool → Bool → ℕ → ℕ × ℕ
sub_flags s0 t0 size with_x sticky_z sr =
    let m = mask_for size in
    let s = bit_and s0 m in
    let t = bit_and t0 m in
    let x = carry_in with_x sr in
    let r = bit_and (sub32 (sub32 t s) x) m in
    let borrow = ltb t (s + x) in
    let overflow = bit_and (bit_and (bit_xor s t) (bit_xor t r)) (sign_bit size) != 0 in
    (r, set_all overflow borrow (bit_and r (sign_bit size) != 0) sticky_z r sr)

pub cmp_flags : ℕ → ℕ → ℕ → ℕ → ℕ
cmp_flags s0 t0 size sr =
    let m = mask_for size in
    let s = bit_and s0 m in
    let t = bit_and t0 m in
    let r = bit_and (sub32 t s) m in
    set_flag k_z (r == 0) (
      set_flag k_n (bit_and r (sign_bit size) != 0) (
        set_flag k_c (ltb t s)
          (set_flag k_v (bit_and (bit_and (bit_xor s t) (bit_xor t r)) (sign_bit size) != 0) sr)))

pub test_cond : ℕ → ℕ → Bool
test_cond sr cond =
    let n = flag sr k_n in
    let z = flag sr k_z in
    let v = flag sr k_v in
    let c = flag sr k_c in
    if cond == 0
    then true
    else if cond == 1
    then false
    else if cond == 2
    then not c && not z
    else if cond == 3
    then c || z
    else if cond == 4
    then not c
    else if cond == 5
    then c
    else if cond == 6
    then not z
    else if cond == 7
    then z
    else if cond == 8
    then not v
    else if cond == 9
    then v
    else if cond == 10
    then not n
    else if cond == 11
    then n
    else if cond == 12
    then same n v
    else if cond == 13
    then not (same n v)
    else if cond == 14
    then same n v && not z
    else not (same n v) || z
