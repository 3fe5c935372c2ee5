-- ===== src/Cpu/MulDiv/Decimal.antt =====
-- ABCD, SBCD and NBCD of cpu_ops_muldiv_bcd.cpp.
pub mod Digits
use open_mac_for_linux.Base.{
  ℕ, ◌+◌, bit_and, Bool, true, false, ◌&&◌, ◌||◌, u8, sub32, ◌>>>◌, ltb, ◌==◌, ◌!=◌, if◌then◌else◌,
}
use open_mac_for_linux.Cpu.Flags.{k_c, k_v, k_z, k_n, k_x, set_flag, carry_in}
use open_mac_for_linux.Cpu.Machine.{Bus, M, ◌>>=◌, ◌>>◌, ret, get, a_reg, d_reg, rd8, wr8}
use open_mac_for_linux.Cpu.Address.{
  op_mode, op_reg, op_dreg, ea_index, ea_time_bw, calc_ea, calc_predec_low_first,
}
use open_mac_for_linux.Cpu.Alu.{flagged, put_d}
use open_mac_for_linux.Cpu.MulDiv.{is_negative}

-- C and X, N, V, and Z kept unless the byte is not 0.
abbrev pub decimal_flags : Bool → Bool → ℕ → ℕ → ℕ
decimal_flags carry v res sr0 =
    let sr =
      set_flag k_v v
        (set_flag k_n (bit_and res 0x80 != 0) (set_flag k_x carry (set_flag k_c carry sr0))) in
    if bit_and res 0xFF != 0 then set_flag k_z false sr else sr

pub abcd_byte : ℕ → ℕ → ℕ → ℕ × ℕ
abcd_byte s t sr =
    let lo = bit_and t 0x0F + bit_and s 0x0F + carry_in true sr in
    let raw = bit_and t 0xF0 + bit_and s 0xF0 + lo in
    let low = if ltb 9 lo then raw + 6 else raw in
    let carry = ltb 0x9F low in
    let res = if carry then low + 0x60 else low in
    (u8 res, decimal_flags carry ((bit_and raw 0x80 == 0) && (bit_and res 0x80 != 0)) res sr)

-- The differences are 32-bit words.
pub sbcd_byte : ℕ → ℕ → ℕ → ℕ × ℕ
sbcd_byte s t sr =
    let x = carry_in true sr in
    let lo = sub32 (sub32 (bit_and t 0x0F) (bit_and s 0x0F)) x in
    let pre = sub32 (sub32 t s) x in
    let low = if is_negative lo then sub32 pre 6 else pre in
    let res = if is_negative pre then sub32 low 0x60 else low in
    let borrow = is_negative pre || is_negative low in
    (
      u8 (bit_and res 0xFF),
      decimal_flags borrow ((bit_and pre 0x80 != 0) && (bit_and res 0x80 == 0)) res sr,
    )

unfoldable pub decimal_byte : Bool → ℕ → ℕ → ℕ → ℕ × ℕ
decimal_byte is_abcd s t sr = if is_abcd then abcd_byte s t sr else sbcd_byte s t sr

module _ {S : Type 0} ⦃bus : Bus S⦄ where
  unfoldable pub op_abcd_sbcd : ℕ → M S ℕ
  op_abcd_sbcd op =
      let is_abcd = op >>> 12 == 0xC in
      let rx = op_dreg op in
      let ry = op_reg op in
      if bit_and op 0x0008 == 0
      then (do
        s ← get (λ c. bit_and (d_reg ry c) 0xFF)
        t ← get (λ c. bit_and (d_reg rx c) 0xFF)
        r ← flagged (decimal_byte is_abcd s t)
        put_d rx r 0
        ret 6)
      else (do
        src ← calc_predec_low_first ry 0
        s ← rd8 src
        dst ← calc_predec_low_first rx 0
        t ← rd8 dst
        r ← flagged (decimal_byte is_abcd s t)
        at ← get (a_reg rx)
        wr8 at r
        ret 18)

  unfoldable pub op_nbcd : ℕ → M S ℕ
  op_nbcd op =
      let reg = op_reg op in
      if op_mode op == 0
      then (do
        s ← get (λ c. bit_and (d_reg reg c) 0xFF)
        r ← flagged (sbcd_byte s 0)
        put_d reg r 0
        ret 6)
      else (do
        addr ← calc_ea (op_mode op) reg 0
        s ← rd8 addr
        r ← flagged (sbcd_byte s 0)
        wr8 addr r
        ret (8 + ea_time_bw (ea_index (op_mode op) reg)))
