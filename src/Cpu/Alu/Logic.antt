-- ===== src/Cpu/Alu/Logic.antt =====
-- The logical handlers of cpu_ops_alu.cpp: NOT, AND, OR, EOR and their immediate forms.
use open_mac_for_linux.Base.{
  ℕ, ◌+◌, bit_and, bit_or, bit_xor, u16, not32, ◌>>>◌, ◌==◌, ◌!=◌, ◌&&◌, ◌||◌, ◌%◌, if◌then◌else◌,
}
use open_mac_for_linux.Cpu.Flags.{mask_for, set_logic_flags, flag, k_s}
use open_mac_for_linux.Cpu.Machine.{
  Bus, M, ◌>>=◌, ◌>>◌, ret, get, modify, d_reg, with_sr, fetch16, set_sr, set_ccr, exception,
}
use open_mac_for_linux.Cpu.Address.{
  op_size, op_mode, op_reg, op_dreg, ea_index, ea_time_bw, ea_time_l, calc_ea, read_at, write_at,
  read_ea,
}
use open_mac_for_linux.Cpu.Alu.{long_reg_bonus, put_d, timed}

-- The operation that the top digits of the opcode name.
abbrev pub apply_top : ℕ → ℕ → ℕ → ℕ
apply_top top x y =
    if top == 0x8 then bit_or x y else if top == 0xC then bit_and x y else bit_xor x y

-- 0 is ORI, 1 is ANDI, 5 is EORI.
abbrev pub apply_kind : ℕ → ℕ → ℕ → ℕ
apply_kind kind x y =
    if kind == 0 then bit_or x y else if kind == 1 then bit_and x y else bit_xor x y

module _ {S : Type 0} ⦃bus : Bus S⦄ where
  -- A logical result stored in a data register, or at an address, and its flags.
  abbrev pub logic_d : ℕ → ℕ → ℕ → M S (Unit {0})
  logic_d reg r size = do put_d reg r size; modify (with_sr (set_logic_flags r size))

  abbrev pub logic_at : ℕ → ℕ → ℕ → M S (Unit {0})
  logic_at addr r size = do write_at addr r size; modify (with_sr (set_logic_flags r size))

  unfoldable pub op_not : ℕ → M S ℕ
  op_not op =
      let size = op_size op in
      let reg = op_reg op in
      if op_mode op == 0
      then (do
        v ← get (d_reg reg)
        logic_d reg (bit_and (not32 v) (mask_for size)) size
        ret (if size == 2 then 6 else 4))
      else (do
        addr ← calc_ea (op_mode op) reg size
        v ← read_at addr size
        logic_at addr (bit_and (not32 v) (mask_for size)) size
        ret (timed size 12 8 (ea_index (op_mode op) reg)))

  unfoldable pub op_logic : ℕ → M S ℕ
  op_logic op =
      let top = op >>> 12 in
      let size = op_size op in
      let mode = op_mode op in
      let reg = op_reg op in
      let dreg = op_dreg op in
      let idx = ea_index mode reg in
      if top == 0xB && mode == 0
      then (do
        x ← get (d_reg dreg)
        y ← get (d_reg reg)
        logic_d reg (bit_and (apply_top top x y) (mask_for size)) size
        ret (if size == 2 then 8 else 4))
      else if top == 0xB || bit_and op 0x0100 != 0
      then (do
        addr ← calc_ea mode reg size
        x ← get (d_reg dreg)
        y ← read_at addr size
        logic_at addr (bit_and (apply_top top x y) (mask_for size)) size
        ret (timed size 12 8 idx))
      else (do
        s ← read_ea mode reg size
        y ← get (d_reg dreg)
        logic_d dreg (bit_and (apply_top top s y) (mask_for size)) size
        ret (if size == 2 then 6 + ea_time_l idx + long_reg_bonus idx else 4 + ea_time_bw idx))

  abbrev pub privilege_violation : M S ℕ
  privilege_violation = do modify λ c. record c { pc = c.instr_start }; exception 8 34

  unfoldable pub op_logic_imm : ℕ → M S ℕ
  op_logic_imm op =
      let kind = op_dreg op in
      let size = op_size op in
      let mode = op_mode op in
      let reg = op_reg op in
      if bit_and op 0x00FF == 0x3C
      then (do
        w ← fetch16
        modify λ c. set_ccr (apply_kind kind (bit_and w 0xFF) (bit_and c.sr 0x1F) % 256) c
        ret 20)
      else if bit_and op 0x00FF == 0x7C
      then (do
        supervisor ← get (λ c. flag c.sr k_s)
        if supervisor
            then (do w ← fetch16; modify λ c. set_sr (u16 (apply_kind kind w c.sr)) c; ret 20)
            else privilege_violation)
      else (do
        imm ← read_ea 7 4 size
        if mode == 0
            then (do
              y ← get (d_reg reg)
              logic_d reg (bit_and (apply_kind kind imm y) (mask_for size)) size
              ret (if size == 2 then 16 else 8))
            else (do
              addr ← calc_ea mode reg size
              y ← read_at addr size
              logic_at addr (bit_and (apply_kind kind imm y) (mask_for size)) size
              ret (timed size 20 12 (ea_index mode reg))))
