-- ===== src/Cpu/MulDiv.antt =====
-- Multiplication, division, decimal arithmetic and TAS of cpu_ops_muldiv_bcd.cpp.
-- Signed words are 32-bit words here: negative from 2 ^ 31 on.
pub mod Decimal
pub mod Division
use open_mac_for_linux.Base.{
  ℕ, zero, suc, ◌+◌, ◌-◌, ◌*◌, ◌/◌, ◌%◌, ◌^◌, bit_and, bit_or, Bool, true, false, not, ◌&&◌, ◌||◌,
  u8, u16, u32, not16, sub32, ◌<<<◌, ◌>>>◌, ltb, leb, ◌==◌, ◌!=◌, if◌then◌else◌, same,
}
use open_mac_for_linux.Cpu.Flags.{k_c, k_v, k_z, k_n, sext16, set_flag, set_nz, clear_vc}
use open_mac_for_linux.Cpu.Machine.{
  Bus, Cpu, Outcome, M, ◌>>=◌, ◌>>◌, ret, get, modify, d_reg, set_d, with_sr, rd8, wr8, exception,
}
use open_mac_for_linux.Cpu.Address.{
  op_mode, op_reg, op_dreg, ea_index, ea_time_bw, calc_ea, read_ea,
}

abbrev count_below : ℕ → (ℕ → Bool) → ℕ
count_below zero p = 0
count_below (suc n) p = let rest = count_below n p in if p n then suc rest else rest

-- 38, and 2 for each change of digit in the source followed by a 0.
unfoldable pub muls_cycles : ℕ → ℕ
muls_cycles src =
    let v = u32 (src <<< 1) in
    38 + 2 * count_below 16 λ i. (bit_and (v >>> i) 3 == 1) || (bit_and (v >>> i) 3 == 2)

unfoldable pub mulu_cycles : ℕ → ℕ
mulu_cycles src = 38 + 2 * count_below 16 λ i. bit_and (src >>> i) 1 == 1

abbrev pub is_negative : ℕ → Bool
is_negative w = leb 0x80000000 w

abbrev pub neg32 : ℕ → ℕ
neg32 w = sub32 0 w

abbrev pub magnitude : ℕ → ℕ
magnitude w = if is_negative w then neg32 w else w

-- The product; of signed words it is that of their extensions, as a 32-bit word.
unfoldable pub product : Bool → ℕ → ℕ → ℕ
product is_signed s t = if is_signed then u32 (sext16 s * sext16 t) else u32 (s * t)

-- The restoring divider: 15 steps on the dividend and the cycles.
unfoldable pub divider_steps : ℕ → ℕ → ℕ → ℕ → ℕ
divider_steps zero hdivisor dividend cycles = cycles
divider_steps (suc n) hdivisor temp cycles =
    let dividend = u32 (temp <<< 1) in
    let fits = not (is_negative temp) && leb hdivisor dividend in
    divider_steps n hdivisor
      (if is_negative temp || fits then sub32 dividend hdivisor else dividend)
      (if is_negative temp then cycles else if fits then cycles + 1 else cycles + 2)

unfoldable pub divu_cycles : ℕ → ℕ → ℕ
divu_cycles dividend divisor =
    if leb divisor (dividend >>> 16)
    then 10
    else divider_steps 15 (u32 (divisor <<< 16)) dividend 38 * 2

-- One cycle for each of the 15 high digits of the quotient that is 0.
unfoldable pub quotient_steps : ℕ → ℕ → ℕ
quotient_steps zero aquot = 0
quotient_steps (suc n) aquot =
    let rest = quotient_steps n (u32 (aquot <<< 1)) in
    if ltb (u16 aquot) 0x8000 then suc rest else rest

-- `divisor` is sign-extended.
unfoldable pub divs_cycles : ℕ → ℕ → ℕ
divs_cycles dividend divisor =
    let start = if is_negative dividend then 7 else 6 in
    let a_dividend = magnitude dividend in
    let a_divisor = u16 (magnitude divisor) in
    if leb a_divisor (a_dividend >>> 15)
    then (start + 2) * 2
    else let base = start + 55 in
      let signed =
        if is_negative divisor then base else if is_negative dividend then base + 1 else base - 1 in
      (signed + quotient_steps 15 (a_dividend / a_divisor)) * 2

-- DIVU on the destination register and the status register; the divisor is not 0.
pub divide_unsigned : ℕ → ℕ → ℕ → ℕ × ℕ
divide_unsigned t s sr =
    let q = t / s in
    if ltb 0xFFFF q
    then (t, set_flag k_c false (set_flag k_v true sr))
    else (bit_or (u32 ((t % s) <<< 16)) (bit_and q 0xFFFF), clear_vc (set_nz q 1 sr))

-- DIVS: the quotient is cut towards 0, and the remainder has the sign of the dividend.
unfoldable pub divide_signed : ℕ → ℕ → ℕ → ℕ × ℕ
divide_signed st ss sr =
    let size = magnitude st / magnitude ss in
    let minus = not (same (is_negative st) (is_negative ss)) in
    if ltb (if minus then 32768 else 32767) size
    then (st, set_flag k_c false (set_flag k_v true sr))
    else let q = if minus then neg32 size else size in
      let left = magnitude st % magnitude ss in
      let rem = if is_negative st then neg32 left else left in
      (bit_or (u32 (bit_and rem 0xFFFF <<< 16)) (bit_and q 0xFFFF), clear_vc (set_nz q 1 sr))

module _ {S : Type 0} ⦃bus : Bus S⦄ where
  unfoldable pub op_mul : ℕ → M S ℕ
  op_mul op =
      let is_signed = bit_and op 0x0100 != 0 in
      let dreg = op_dreg op in
      do
        w ← read_ea (op_mode op) (op_reg op) 1
        let s = u16 w
        r ← get (λ c. product is_signed s (bit_and (d_reg dreg c) 0xFFFF))
        modify (set_d dreg r)
        modify (with_sr λ sr. clear_vc (set_nz r 2 sr))
        ret (
            (if is_signed then muls_cycles s else mulu_cycles s)
            + ea_time_bw (ea_index (op_mode op) (op_reg op)))

  unfoldable pub op_div : ℕ → M S ℕ
  op_div op =
      let is_signed = bit_and op 0x0100 != 0 in
      let dreg = op_dreg op in
      let time = ea_time_bw (ea_index (op_mode op) (op_reg op)) in
      do
        w ← read_ea (op_mode op) (op_reg op) 1
        let s = u16 w
        t ← get (d_reg dreg)
        if s == 0
            then (do
              modify (
                  with_sr λ sr. u16 (bit_and sr (not16 (bit_or (bit_or (bit_or k_n k_z) k_v) k_c))))
              exception 5 (38 + time))
            else (do
              let divide = if is_signed then divide_signed t (sext16 s) else divide_unsigned t s
              modify λ c. set_d dreg (divide c.sr).0 (record c { sr = (divide c.sr).1 })
              ret ((if is_signed then divs_cycles t (sext16 s) else divu_cycles t s) + time))

  unfoldable pub op_tas : ℕ → M S ℕ
  op_tas op =
      let reg = op_reg op in
      if op_mode op == 0
      then (do
        v ← get (d_reg reg)
        modify (with_sr λ sr. clear_vc (set_nz (bit_and v 0xFF) 0 sr))
        modify (set_d reg (bit_or v 0x80))
        ret 4)
      else (do
        addr ← calc_ea (op_mode op) reg 0
        v ← rd8 addr
        modify (with_sr λ sr. clear_vc (set_nz v 0 sr))
        wr8 addr (u8 (bit_or v 0x80))
        ret (10 + ea_time_bw (ea_index (op_mode op) reg)))
