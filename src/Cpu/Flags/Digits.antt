-- ===== src/Cpu/Flags/Digits.antt =====
-- The flag helpers of cpu_ops.hpp, digit by digit of the status register.
use open_mac_for_linux.Base.{
  ℕ, ◌^◌, ◌<◌, bit_and, bit_or, Bool, true, false, ◌≡◌, ◌&&◌, u16, not16, ◌==◌, if◌then◌else◌,
  from_bool, arith, bit, bit-bit_or-pow, bit-clear16, bit-pow, bit-mod, test-bit, bit-bit_or,
}
use open_mac_for_linux.Cpu.Flags.{clear_vc, k_c, k_v, k_n, k_x, set_flag, flag, set_all}

pub flag-bit : (sr i : ℕ) → flag sr (2 ^ i) ≡ (bit sr i == 1)
unfolding flag
flag-bit sr i = test-bit sr i

bit-set_flag :
    (i k : ℕ) (on : Bool) (sr : ℕ)
    → k < 16
    → bit (set_flag (2 ^ i) on sr) k ≡ (if i == k then from_bool on else bit sr k)
unfolding set_flag
bit-set_flag i k true sr h = bit-bit_or-pow sr i k
bit-set_flag i k false sr h =
    ground
      (arith, bit-mod 16 (bit_and sr (not16 (2 ^ i))) k h, bit-clear16 sr (2 ^ i) k h, bit-pow i k)

pub flag-set_flag :
    (i k : ℕ) (on : Bool) (sr : ℕ)
    → k < 16
    → flag (set_flag (2 ^ i) on sr) (2 ^ k) ≡ (if i == k then on else flag sr (2 ^ k))
flag-set_flag i k on sr h =
    ground (arith, flag-bit (set_flag (2 ^ i) on sr) k, flag-bit sr k, bit-set_flag i k on sr h)

-- Every flag after `set_all`: C and X are the carry, V and N as given, Z by the result.
pub flag-set_all :
    (v c n sticky_z : Bool) (r sr k : ℕ)
    → k < 16
    → flag (set_all v c n sticky_z r sr) (2 ^ k) ≡ (
        if k == 0
        then c
        else if k == 1
        then v
        else if k == 2
        then (if sticky_z then (r == 0) && flag sr (2 ^ 2) else r == 0)
        else if k == 3
        then n
        else if k == 4
        then c
        else flag sr (2 ^ k))
unfolding set_all
flag-set_all v c n sticky_z r sr k h =
    let s1 = set_flag k_v v sr in
    let s2 = set_flag k_c c s1 in
    let s3 = set_flag k_x c s2 in
    let s4 = set_flag k_n n s3 in
    ground (
      arith,
      flag-set_flag 1 k v sr h,
      flag-set_flag 0 k c s1 h,
      flag-set_flag 4 k c s2 h,
      flag-set_flag 3 k n s3 h,
      flag-set_flag 2 k false s4 h,
      flag-set_flag 2 k (r == 0) s4 h,
    )

pub flag-clear_vc :
    (sr k : ℕ)
    → k < 16
    → flag (clear_vc sr) (2 ^ k)
      ≡ (if k == 0 then false else if k == 1 then false else flag sr (2 ^ k))
unfolding clear_vc
flag-clear_vc sr k h =
    let kept = bit_and sr (not16 (bit_or k_v k_c)) in
    ground (
      arith,
      flag-bit (u16 kept) k,
      flag-bit sr k,
      bit-mod 16 kept k h,
      bit-clear16 sr (bit_or k_v k_c) k h,
      bit-bit_or k_v k_c k,
      bit-pow 1 k,
      bit-pow 0 k,
    )
