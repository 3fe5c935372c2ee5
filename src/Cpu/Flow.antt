-- ===== src/Cpu/Flow.antt =====
-- The control flow of cpu_ops_flow.cpp. The jump tables hold 0 only where no opcode leads.
use open_mac_for_linux.Base.{
  ℕ, ◌+◌, ◌-◌, ◌%◌, bit_and, bit_or, Bool, true, false, ◌||◌, List, [], ◌∷◌, u8, u16, u32, not16,
  sub32, ◌>>>◌, ltb, leb, ◌==◌, ◌!=◌, if◌then◌else◌, get_or, Option, none, some,
}
use open_mac_for_linux.Cpu.Flags.{
  k_c, k_v, k_z, k_n, k_s, sext8, sext16, write_sized, set_flag, flag, test_cond,
}
use open_mac_for_linux.Cpu.Machine.{
  Bus, M, ◌>>=◌, ◌>>◌, ret, get, modify, d_reg, set_d, with_sr, fetch16, push32, pop16, pop32,
  set_sr, set_ccr, exception,
}
use open_mac_for_linux.Cpu.Address.{
  op_mode, op_reg, op_dreg, ea_index, ea_time_bw, calc_ea, read_ea, jump_to,
}
use open_mac_for_linux.Cpu.Alu.Logic.{privilege_violation}

abbrev op_cond : ℕ → ℕ
op_cond op = bit_and (op >>> 8) 15

abbrev jmp_times : List ℕ
jmp_times = 0 ∷ 0 ∷ 8 ∷ 0 ∷ 0 ∷ 10 ∷ 14 ∷ 10 ∷ 12 ∷ 10 ∷ 14 ∷ 0 ∷ []

abbrev jsr_times : List ℕ
jsr_times = 0 ∷ 0 ∷ 16 ∷ 0 ∷ 0 ∷ 18 ∷ 22 ∷ 18 ∷ 20 ∷ 18 ∷ 22 ∷ 0 ∷ []

-- Signed comparison of 16-bit words.
abbrev less_signed : ℕ → ℕ → Bool
less_signed v w = ltb ((v + 0x8000) % 0x10000) ((w + 0x8000) % 0x10000)

module _ {S : Type 0} ⦃bus : Bus S⦄ where
  unfoldable pub op_bcc : ℕ → M S ℕ
  op_bcc op =
      let cond = op_cond op in
      let short = sext8 op in
      let word_disp = short == 0 in
      do
        base ← get (λ c. c.pc)
        disp ← if word_disp then (do w ← fetch16; ret (sext16 w)) else ret short
        if cond == 1
            then (do back ← get (λ c. c.pc); push32 back; jump_to (u32 (base + disp)) 10; ret 18)
            else (do
              taken ← get (λ c. (cond == 0) || test_cond c.sr cond)
              if taken
                  then (do jump_to (u32 (base + disp)) 2; ret 10)
                  else ret (if word_disp then 12 else 8))

  unfoldable pub op_dbcc : ℕ → M S ℕ
  op_dbcc op =
      let reg = op_reg op in
      do
        base ← get (λ c. c.pc)
        w ← fetch16
        done ← get (λ c. test_cond c.sr (op_cond op))
        if done then ret 12 else (do
          v ← get (d_reg reg)
          let count = u16 (sub32 (bit_and v 0xFFFF) 1)
          modify (set_d reg (write_sized v count 1))
          if count != 0xFFFF then (do jump_to (u32 (base + sext16 w)) 2; ret 10) else ret 14)

  unfoldable pub op_jmp : ℕ → M S ℕ
  op_jmp op =
      let t = get_or jmp_times (ea_index (op_mode op) (op_reg op)) 0 in
      do addr ← calc_ea (op_mode op) (op_reg op) 2; jump_to addr (t - 8); ret t

  unfoldable pub op_jsr : ℕ → M S ℕ
  op_jsr op =
      let t = get_or jsr_times (ea_index (op_mode op) (op_reg op)) 0 in
      do
        addr ← calc_ea (op_mode op) (op_reg op) 2
        back ← get (λ c. c.pc)
        jump_to addr (t - 16)
        push32 back
        ret t

  unfoldable pub op_rts : ℕ → M S ℕ
  op_rts op = do target ← pop32; jump_to target 8; ret 16

  unfoldable pub op_rtr : ℕ → M S ℕ
  op_rtr op = do w ← pop16; modify (set_ccr (u8 w)); target ← pop32; jump_to target 12; ret 20

  unfoldable pub op_rte : ℕ → M S ℕ
  op_rte op = do
    supervisor ← get (λ c. flag c.sr k_s)
    if supervisor
        then (do sr ← pop16; target ← pop32; modify (set_sr sr); jump_to target 12; ret 20)
        else privilege_violation

  unfoldable pub op_trap : ℕ → M S ℕ
  op_trap op = exception (32 + bit_and op 15) 34

  unfoldable pub op_trapv : ℕ → M S ℕ
  op_trapv op = do v ← get (λ c. flag c.sr k_v); if v then exception 7 34 else ret 4

  unfoldable pub op_chk : ℕ → M S ℕ
  op_chk op =
      let time = ea_time_bw (ea_index (op_mode op) (op_reg op)) in
      do
        w ← read_ea (op_mode op) (op_reg op) 1
        v ← get (λ c. bit_and (d_reg (op_dreg op) c) 0xFFFF)
        modify (with_sr λ sr. u16 (bit_and sr (not16 (bit_or (bit_or k_z k_v) k_c))))
        if leb 0x8000 v
            then (do modify (with_sr (set_flag k_n true)); exception 6 (40 + time))
            else if less_signed (u16 w) v
            then (do modify (with_sr (set_flag k_n false)); exception 6 (38 + time))
            else ret (10 + time)

  unfoldable pub op_stop : ℕ → M S ℕ
  op_stop op = do
    supervisor ← get (λ c. flag c.sr k_s)
    if supervisor
        then (do imm ← fetch16; modify λ c. record (set_sr imm c) { stopped = true }; ret 4)
        else privilege_violation

  -- The first argument is the source's `onResetInstruction`.
  unfoldable pub op_reset : Option (S → S) → ℕ → M S ℕ
  op_reset on_reset op = do
    supervisor ← get (λ c. flag c.sr k_s)
    if supervisor
        then (do
          modify λ c. elim on_reset [ none ↦ c | some f ↦ record c { world = f c.world } ]
          ret 132)
        else privilege_violation

  unfoldable pub op_nop : ℕ → M S ℕ
  op_nop op = ret 4

  abbrev trap_at_start : ℕ → M S ℕ
  trap_at_start vector = do modify λ c. record c { pc = c.instr_start }; exception vector 34

  unfoldable pub op_illegal : ℕ → M S ℕ
  op_illegal op = trap_at_start 4

  unfoldable pub op_a_line : ℕ → M S ℕ
  op_a_line op = trap_at_start 10

  unfoldable pub op_f_line : ℕ → M S ℕ
  op_f_line op = trap_at_start 11
