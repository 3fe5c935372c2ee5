-- ===== src/Cpu/Address.antt =====
-- Effective addresses: their timing, their registers' steps, and reads and writes through them.
use open_mac_for_linux.Base.{
  ℕ, ◌+◌, bit_and, true, false, ◌&&◌, List, [], ◌∷◌, u8, u16, u32, sub32, ◌>>>◌, ltb, ◌==◌, ◌!=◌,
  if◌then◌else◌, get_or, some,
}
use open_mac_for_linux.Cpu.Flags.{mask_for, sext8, sext16}
use open_mac_for_linux.Cpu.Machine.{
  Bus, address_error, M, ◌>>=◌, ◌>>◌, ret, get, modify, throw, d_reg, a_reg, set_a, is_odd, rd8,
  rd16, rd32, wr8, wr16, wr32, fetch16, fetch32,
}

-- The fields of an opcode.
abbrev pub op_size : ℕ → ℕ
op_size op = bit_and (op >>> 6) 3

abbrev pub op_mode : ℕ → ℕ
op_mode op = bit_and (op >>> 3) 7

abbrev pub op_reg : ℕ → ℕ
op_reg op = bit_and op 7

abbrev pub op_dreg : ℕ → ℕ
op_dreg op = bit_and (op >>> 9) 7

unfoldable pub ea_index : ℕ → ℕ → ℕ
ea_index mode reg = if ltb mode 7 then mode else 7 + reg

abbrev times_bw : List ℕ
times_bw = 0 ∷ 0 ∷ 4 ∷ 4 ∷ 6 ∷ 8 ∷ 10 ∷ 8 ∷ 12 ∷ 8 ∷ 10 ∷ 4 ∷ []

abbrev times_l : List ℕ
times_l = 0 ∷ 0 ∷ 8 ∷ 8 ∷ 10 ∷ 12 ∷ 14 ∷ 12 ∷ 16 ∷ 12 ∷ 14 ∷ 8 ∷ []

unfoldable pub ea_time_bw : ℕ → ℕ
ea_time_bw idx = get_or times_bw idx 0

unfoldable pub ea_time_l : ℕ → ℕ
ea_time_l idx = get_or times_l idx 0

-- What (An)+ and -(An) step by; the stack pointer stays even.
unfoldable pub ea_step : ℕ → ℕ → ℕ
ea_step reg size =
    if size == 0 && reg == 7 then 2 else if size == 0 then 1 else if size == 1 then 2 else 4

module _ {S : Type 0} ⦃bus : Bus S⦄ where
  abbrev pub add_cycles : ℕ → M S (Unit {0})
  add_cycles n = modify λ c. record c { ea_fault_cycles = c.ea_fault_cycles + n }

  unfoldable pub brief_extension : ℕ → M S ℕ
  brief_extension base = do
    ext ← fetch16
    let xreg = bit_and (ext >>> 12) 7
    full ← get (λ c. if bit_and ext 0x8000 != 0 then a_reg xreg c else d_reg xreg c)
    let idx = if bit_and ext 0x0800 == 0 then sext16 full else full
    ret (u32 (u32 (base + sext8 ext) + idx))

  -- Mode 7 of `calcEA`.
  unfoldable pub calc_absolute : ℕ → M S ℕ
  calc_absolute reg =
      if reg == 0
      then (do add_cycles 4; w ← fetch16; ret (sext16 w))
      else if reg == 1
      then (do add_cycles 8; fetch32)
      else if reg == 2
      then (do base ← get (λ c. c.pc); w ← fetch16; add_cycles 4; ret (u32 (base + sext16 w)))
      else if reg == 3
      then (do base ← get (λ c. c.pc); addr ← brief_extension base; add_cycles 6; ret addr)
      else ret 0

  unfoldable pub calc_ea : ℕ → ℕ → ℕ → M S ℕ
  calc_ea mode reg size =
      if mode == 2
      then get (a_reg reg)
      else if mode == 3
      then (do
        addr ← get (a_reg reg)
        modify λ c. record c { ea_undo_reg = some reg; ea_undo_val = addr; ea_undo_kind = 1 }
        modify (set_a reg (u32 (addr + ea_step reg size)))
        ret addr)
      else if mode == 4
      then (do
        before ← get (a_reg reg)
        let addr = sub32 before (ea_step reg size)
        modify (set_a reg addr)
        add_cycles 2
        ret addr)
      else if mode == 5
      then (do w ← fetch16; add_cycles 4; base ← get (a_reg reg); ret (u32 (base + sext16 w)))
      else if mode == 6
      then (do base ← get (a_reg reg); addr ← brief_extension base; add_cycles 6; ret addr)
      else if mode == 7
      then calc_absolute reg
      else ret 0

  -- Long operands step the register by two twice, and touch the low word first.
  unfoldable pub calc_predec_low_first : ℕ → ℕ → M S ℕ
  calc_predec_low_first reg size = do
    add_cycles 2
    before ← get (a_reg reg)
    if ltb size 2
        then (do let addr = sub32 before (ea_step reg size); modify (set_a reg addr); ret addr)
        else (do
          let low = sub32 before 2
          modify (set_a reg low)
          if is_odd low
              then throw (address_error low true false 0)
              else (do modify (set_a reg (sub32 low 2)); ret (sub32 low 2)))

  unfoldable pub read_at : ℕ → ℕ → M S ℕ
  read_at addr size = if size == 0 then rd8 addr else if size == 1 then rd16 addr else rd32 addr

  unfoldable pub write_at : ℕ → ℕ → ℕ → M S (Unit {0})
  write_at addr v size =
      if size == 0 then wr8 addr (u8 v) else if size == 1 then wr16 addr (u16 v) else wr32 addr v

  unfoldable pub read_ea : ℕ → ℕ → ℕ → M S ℕ
  read_ea mode reg size =
      if mode == 0
      then get (λ c. bit_and (d_reg reg c) (mask_for size))
      else if mode == 1
      then get (λ c. bit_and (a_reg reg c) (mask_for size))
      else if mode == 7 && reg == 4
      then (if size == 2
          then fetch32
          else (do w ← fetch16; ret (if size == 0 then bit_and w 0xFF else w)))
      else (do addr ← calc_ea mode reg size; read_at addr size)

  unfoldable pub jump_to : ℕ → ℕ → M S (Unit {0})
  jump_to target extra = do
    modify λ c. record c { pc = target }
    if is_odd target then throw (address_error target true true extra) else ret tt
