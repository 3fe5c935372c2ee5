-- ===== src/Cpu/Shift.antt =====
-- The shifts, the rotates and the bit operations of cpu_ops_shift_bits.cpp.
-- A shift touches the status register alone besides its operand, so it is a function of it.
pub mod Logical
use open_mac_for_linux.Base.{
  ℕ, zero, suc, ◌+◌, ◌-◌, ◌*◌, ◌^◌, bit_and, bit_or, bit_xor, Bool, true, false, not, ◌&&◌, u8, u16,
  u32, not32, ◌<<<◌, ◌>>>◌, ltb, leb, ◌==◌, ◌!=◌, if◌then◌else◌,
}
use open_mac_for_linux.Cpu.Flags.{
  k_c, k_v, k_z, k_x, mask_for, sign_bit, write_sized, set_flag, flag, set_nz,
}
use open_mac_for_linux.Cpu.Machine.{
  Bus, Cpu, Outcome, M, ◌>>=◌, ◌>>◌, ret, get, modify, d_reg, set_d, with_sr, rd8, rd16, wr8, wr16,
  fetch16,
}
use open_mac_for_linux.Cpu.Address.{
  op_size, op_mode, op_reg, op_dreg, ea_index, ea_time_bw, calc_ea, read_ea,
}
use open_mac_for_linux.Cpu.Alu.{flagged, put_d}

-- The operand, the status register and whether the sign has changed.
pub record Shifting : Type 0 where
  pub value : ℕ
  pub status : ℕ
  pub v_flag : Bool

-- C, and X but for the rotates without it.
abbrev pub set_carry : ℕ → Bool → ℕ → ℕ
set_carry type carry sr =
    let sr' = set_flag k_c carry sr in if type != 3 then set_flag k_x carry sr' else sr'

-- One step to the left. The types are 0 AS, 1 LS, 2 ROX, 3 RO.
pub shift_left_once : ℕ → ℕ → Shifting → Shifting
shift_left_once type size s =
    let v = s.value in
    let carry = bit_and v (sign_bit size) != 0 in
    let r = bit_and (u32 (v <<< 1)) (mask_for size) in
    let changed = bit_and (bit_xor v r) (sign_bit size) != 0 in
    let wraps = if type == 2 then flag s.status k_x else type == 3 && carry in
    record {
      value = if wraps then bit_or r 1 else r;
      status = set_carry type carry s.status;
      v_flag = if type == 0 && changed then true else s.v_flag;
    }

-- One step to the right.
pub shift_right_once : ℕ → ℕ → Shifting → Shifting
shift_right_once type size s =
    let v = s.value in
    let carry = bit_and v 1 != 0 in
    let r = bit_and (v >>> 1) (mask_for size) in
    let wraps = if type == 2 then flag s.status k_x else type == 3 && carry in
    record {
      value =
          if type == 0
          then bit_or r (bit_and v (sign_bit size))
          else if wraps
          then bit_or r (sign_bit size)
          else r;
      status = set_carry type carry s.status;
      v_flag = s.v_flag;
    }

pub shift_once : ℕ → Bool → ℕ → Shifting → Shifting
shift_once type left size s =
    if left then shift_left_once type size s else shift_right_once type size s

pub shift_times : ℕ → Bool → ℕ → ℕ → Shifting → Shifting
shift_times type left size zero s = s
shift_times type left size (suc n) s = shift_times type left size n (shift_once type left size s)

unfoldable pub width_of : ℕ → ℕ
width_of size = if size == 0 then 8 else if size == 1 then 16 else 32

-- ASR at once: the sign fills the result, and a count past the width leaves C and X clear.
unfoldable pub shift_arithmetic_right : ℕ → ℕ → ℕ → ℕ → ℕ × ℕ
shift_arithmetic_right v size count sr =
    let m = mask_for size in
    let width = width_of size in
    let neg = bit_and v (sign_bit size) != 0 in
    let filled = bit_and (v >>> count) m in
    let r =
      if count == 0
      then v
      else if ltb count width
      then (if neg then bit_or filled (bit_and (u32 (m <<< (width - count))) m) else filled)
      else if neg
      then m
      else 0 in
    let carry =
      if ltb count width then bit_and (v >>> (count - 1)) 1 != 0 else (count == width) && neg in
    let carried =
      if count == 0 then set_flag k_c false sr else set_flag k_x carry (set_flag k_c carry sr) in
    (r, set_nz r size (set_flag k_v false carried))

-- The other shifts step by step.
pub shift_by_steps : ℕ → ℕ → Bool → ℕ → ℕ → ℕ → ℕ × ℕ
shift_by_steps v type left size count sr =
    let last =
      shift_times type left size count (record { value = v; status = sr; v_flag = false }) in
    let carried =
      if count == 0
      then set_flag k_c ((type == 2) && flag last.status k_x) last.status
      else last.status in
    (last.value, set_nz last.value size (set_flag k_v ((type == 0) && last.v_flag) carried))

pub do_shift : ℕ → ℕ → Bool → ℕ → ℕ → ℕ → ℕ × ℕ
do_shift v type left size count sr =
    if type == 0 && not left
    then shift_arithmetic_right v size count sr
    else shift_by_steps v type left size count sr

-- What BCHG, BCLR and BSET make of an operand; BTST, kind 0, leaves it.
unfoldable pub change_bit : ℕ → ℕ → ℕ → ℕ
change_bit kind m v =
    if kind == 0
    then v
    else if kind == 1
    then bit_xor v m
    else if kind == 2
    then bit_and v (not32 m)
    else bit_or v m

module _ {S : Type 0} ⦃bus : Bus S⦄ where
  unfoldable pub op_shift_reg : ℕ → M S ℕ
  op_shift_reg op =
      let size = op_size op in
      let type = bit_and (op >>> 3) 3 in
      let reg = op_reg op in
      let left = bit_and op 0x0100 != 0 in
      let quick = if op_dreg op == 0 then 8 else op_dreg op in
      do
        count ←
            get (λ c. if bit_and op 0x0020 != 0 then bit_and (d_reg (op_dreg op) c) 63 else quick)
        v ← get (λ c. bit_and (d_reg reg c) (mask_for size))
        r ← flagged (do_shift v type left size count)
        put_d reg r size
        ret ((if size == 2 then 8 else 6) + 2 * count)

  unfoldable pub op_shift_mem : ℕ → M S ℕ
  op_shift_mem op =
      let left = bit_and op 0x0100 != 0 in
      let type = bit_and (op >>> 9) 3 in
      do
        addr ← calc_ea (op_mode op) (op_reg op) 1
        v ← rd16 addr
        r ← flagged (do_shift v type left 1 1)
        wr16 addr (u16 r)
        ret (8 + ea_time_bw (ea_index (op_mode op) (op_reg op)))

  -- On a data register the bit number is taken modulo 32.
  unfoldable pub bit_op_reg : ℕ → ℕ → Bool → ℕ → M S ℕ
  bit_op_reg kind reg is_static number =
      let bit = bit_and number 31 in
      let m = u32 (1 <<< bit) in
      let high = if leb 16 bit then 2 else 0 in
      let cycles = if kind == 0 then 6 else if kind == 2 then 8 + high else 6 + high in
      do
        v ← get (d_reg reg)
        modify (with_sr (set_flag k_z (bit_and v m == 0)))
        modify (set_d reg (change_bit kind m v))
        ret (cycles + (if is_static then 4 else 0))

  -- In memory it is taken modulo 8.
  unfoldable pub bit_op_mem : ℕ → ℕ → ℕ → Bool → ℕ → M S ℕ
  bit_op_mem kind mode reg is_static number =
      let m = u32 (1 <<< (bit_and number 7)) in
      let time = ea_time_bw (ea_index mode reg) in
      if kind == 0
      then (do
        v ← read_ea mode reg 0
        modify (with_sr (set_flag k_z (bit_and v m == 0)))
        ret ((if is_static then 8 else 4) + time))
      else (do
        addr ← calc_ea mode reg 0
        v ← rd8 addr
        modify (with_sr (set_flag k_z (bit_and v m == 0)))
        wr8 addr (u8 (change_bit kind m v))
        ret ((if is_static then 12 else 8) + time))

  unfoldable pub op_bit_op : ℕ → M S ℕ
  op_bit_op op =
      let kind = bit_and (op >>> 6) 3 in
      let is_static = bit_and op 0x0100 == 0 in
      do
        number ←
            if is_static then (do w ← fetch16; ret (bit_and w 0xFF)) else get (d_reg (op_dreg op))
        if op_mode op == 0
            then bit_op_reg kind (op_reg op) is_static number
            else bit_op_mem kind (op_mode op) (op_reg op) is_static number
