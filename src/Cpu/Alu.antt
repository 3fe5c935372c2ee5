-- ===== src/Cpu/Alu.antt =====
-- The handlers of cpu_ops_alu.cpp. Each returns its cycles.
pub mod Logic
use open_mac_for_linux.Base.{
  ℕ, ◌+◌, ◌-◌, bit_and, Bool, true, false, u32, sub32, ◌>>>◌, ◌&&◌, ◌||◌, leb, ◌==◌, ◌!=◌,
  if◌then◌else◌,
}
use open_mac_for_linux.Cpu.Flags.{mask_for, sext16, write_sized, add_flags, sub_flags, cmp_flags}
use open_mac_for_linux.Cpu.Machine.{
  Bus, Cpu, Outcome, M, ◌>>=◌, ◌>>◌, ret, get, modify, d_reg, a_reg, set_d, set_a, with_sr,
}
use open_mac_for_linux.Cpu.Address.{
  op_size, op_mode, op_reg, op_dreg, ea_index, ea_time_bw, ea_time_l, calc_ea,
  calc_predec_low_first, read_at, write_at, read_ea,
}

unfoldable pub long_reg_bonus : ℕ → ℕ
long_reg_bonus idx = if leb idx 1 || idx == 11 then 2 else 0

-- A flag operation on the status register, for its result.
abbrev pub flagged : {S : Type 0} → (ℕ → ℕ × ℕ) → M S ℕ
flagged f = do r ← get (λ c. (f c.sr).0); modify (with_sr λ sr. (f sr).1); ret r

-- Part of a data register replaced.
abbrev pub put_d : {S : Type 0} → ℕ → ℕ → ℕ → M S (Unit {0})
put_d reg r size = modify λ c. set_d reg (write_sized (d_reg reg c) r size) c

-- The addition or the subtraction of a handler.
abbrev pub add_or_sub : Bool → ℕ → ℕ → ℕ → Bool → ℕ → ℕ × ℕ
add_or_sub is_add s t size x sr =
    if is_add then add_flags s t size x x sr else sub_flags s t size x x sr

-- The timing of a form by its size.
abbrev pub timed : ℕ → ℕ → ℕ → ℕ → ℕ
timed size long short idx = if size == 2 then long + ea_time_l idx else short + ea_time_bw idx

module _ {S : Type 0} ⦃bus : Bus S⦄ where
  unfoldable pub op_add_sub : ℕ → M S ℕ
  op_add_sub op =
      let is_add = op >>> 12 == 0xD in
      let size = op_size op in
      let dreg = op_dreg op in
      let idx = ea_index (op_mode op) (op_reg op) in
      if bit_and op 0x0100 != 0
      then (do
        addr ← calc_ea (op_mode op) (op_reg op) size
        t ← read_at addr size
        s ← get (d_reg dreg)
        r ← flagged (add_or_sub is_add s t size false)
        write_at addr r size
        ret (timed size 12 8 idx))
      else (do
        s ← read_ea (op_mode op) (op_reg op) size
        t ← get (d_reg dreg)
        r ← flagged (add_or_sub is_add s t size false)
        put_d dreg r size
        ret (if size == 2 then 6 + ea_time_l idx + long_reg_bonus idx else 4 + ea_time_bw idx))

  unfoldable pub op_adda : ℕ → M S ℕ
  op_adda op =
      let is_add = op >>> 12 == 0xD in
      let is_long = bit_and op 0x0100 != 0 in
      let size = if is_long then 2 else 1 in
      let dreg = op_dreg op in
      let idx = ea_index (op_mode op) (op_reg op) in
      do
        s0 ← read_ea (op_mode op) (op_reg op) size
        let s = if is_long then s0 else sext16 s0
        modify λ c. set_a dreg (if is_add then u32 (a_reg dreg c + s) else sub32 (a_reg dreg c) s) c
        ret (if is_long then 6 + ea_time_l idx + long_reg_bonus idx else 8 + ea_time_bw idx)

  unfoldable pub op_addi_subi : ℕ → M S ℕ
  op_addi_subi op =
      let is_add = op_dreg op == 3 in
      let size = op_size op in
      let reg = op_reg op in
      do
        imm ← read_ea 7 4 size
        if op_mode op == 0
            then (do
              t ← get (d_reg reg)
              r ← flagged (add_or_sub is_add imm t size false)
              put_d reg r size
              ret (if size == 2 then 16 else 8))
            else (do
              addr ← calc_ea (op_mode op) reg size
              t ← read_at addr size
              r ← flagged (add_or_sub is_add imm t size false)
              write_at addr r size
              ret (timed size 20 12 (ea_index (op_mode op) reg)))

  unfoldable pub op_addq_subq : ℕ → M S ℕ
  op_addq_subq op =
      let is_add = bit_and op 0x0100 == 0 in
      let size = op_size op in
      let reg = op_reg op in
      let quick = if op_dreg op == 0 then 8 else op_dreg op in
      if op_mode op == 1
      then (do
        modify λ c.
            set_a reg (if is_add then u32 (a_reg reg c + quick) else sub32 (a_reg reg c) quick) c
        ret (if size == 2 then 6 else 8))
      else if op_mode op == 0
      then (do
        t ← get (d_reg reg)
        r ← flagged (add_or_sub is_add quick t size false)
        put_d reg r size
        ret (if size == 2 then 8 else 4))
      else (do
        addr ← calc_ea (op_mode op) reg size
        t ← read_at addr size
        r ← flagged (add_or_sub is_add quick t size false)
        write_at addr r size
        ret (timed size 12 8 (ea_index (op_mode op) reg)))

  unfoldable pub op_addx_subx : ℕ → M S ℕ
  op_addx_subx op =
      let is_add = op >>> 12 == 0xD in
      let size = op_size op in
      let rx = op_dreg op in
      let ry = op_reg op in
      if bit_and op 0x0008 == 0
      then (do
        s ← get (d_reg ry)
        t ← get (d_reg rx)
        r ← flagged (add_or_sub is_add s t size true)
        put_d rx r size
        ret (if size == 2 then 8 else 4))
      else (do
        src ← calc_predec_low_first ry size
        s ← read_at src size
        dst ← calc_predec_low_first rx size
        t ← read_at dst size
        r ← flagged (add_or_sub is_add s t size true)
        write_at dst r size
        ret (if size == 2 then 30 else 18))

  unfoldable pub op_cmp : ℕ → M S ℕ
  op_cmp op =
      let size = op_size op in
      let dreg = op_dreg op in
      do
        s ← read_ea (op_mode op) (op_reg op) size
        t ← get (d_reg dreg)
        modify (with_sr (cmp_flags s t size))
        ret (timed size 6 4 (ea_index (op_mode op) (op_reg op)))

  unfoldable pub op_cmpa : ℕ → M S ℕ
  op_cmpa op =
      let is_long = bit_and op 0x0100 != 0 in
      let size = if is_long then 2 else 1 in
      let dreg = op_dreg op in
      let idx = ea_index (op_mode op) (op_reg op) in
      do
        s0 ← read_ea (op_mode op) (op_reg op) size
        let s = if is_long then s0 else sext16 s0
        t ← get (a_reg dreg)
        modify (with_sr (cmp_flags s t 2))
        ret (6 + (if is_long then ea_time_l idx else ea_time_bw idx))

  unfoldable pub op_cmpi : ℕ → M S ℕ
  op_cmpi op =
      let size = op_size op in
      let reg = op_reg op in
      let mode = op_mode op in
      do
        imm ← read_ea 7 4 size
        t ←
            if mode == 0
            then get (λ c. bit_and (d_reg reg c) (mask_for size))
            else (do addr ← calc_ea mode reg size; read_at addr size)
        modify (with_sr (cmp_flags imm t size))
        ret (
            if mode == 0
            then (if size == 2 then 14 else 8)
            else timed size 12 8 (ea_index mode reg))

  unfoldable pub op_cmpm : ℕ → M S ℕ
  op_cmpm op =
      let size = op_size op in
      do
        src ← calc_ea 3 (op_reg op) size
        s ← read_at src size
        dst ← calc_ea 3 (op_dreg op) size
        t ← read_at dst size
        modify (with_sr (cmp_flags s t size))
        ret (if size == 2 then 20 else 12)

  unfoldable pub op_neg : ℕ → M S ℕ
  op_neg op =
      let is_negx = op_dreg op == 0 in
      let size = op_size op in
      let reg = op_reg op in
      if op_mode op == 0
      then (do
        v ← get (λ c. bit_and (d_reg reg c) (mask_for size))
        r ← flagged (sub_flags v 0 size is_negx is_negx)
        put_d reg r size
        ret (if size == 2 then 6 else 4))
      else (do
        addr ← calc_ea (op_mode op) reg size
        v ← read_at addr size
        r ← flagged (sub_flags v 0 size is_negx is_negx)
        write_at addr r size
        ret (timed size 12 8 (ea_index (op_mode op) reg)))
