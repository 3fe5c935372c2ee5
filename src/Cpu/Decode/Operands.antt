-- ===== src/Cpu/Decode/Operands.antt =====
-- What operands the handlers see, and the table put into the processor.
use open_mac_for_linux.Base.{
  ℕ, ◌<◌, bit_and, Bool, true, not, ◌&&◌, ◌||◌, ◌≡◌, refl, ◌>>>◌, leb, ◌==◌, ◌!=◌, if◌then◌else◌,
  every_below, every_below_sound,
}
use open_mac_for_linux.Cpu.Address.{op_size, op_mode, op_reg, op_dreg, ea_index}
use open_mac_for_linux.Cpu.Decode.{
  Handler, h_movep, h_bit_op, h_logic_imm, h_addi_subi, h_cmpi, h_move, h_chk, h_lea, h_neg,
  h_move_from_sr, h_clr, h_move_to_ccr, h_not, h_move_to_sr, h_nbcd, h_swap, h_pea, h_ext, h_movem,
  h_tst, h_tas, h_jsr, h_jmp, h_dbcc, h_scc, h_addq_subq, h_div, h_logic, h_abcd_sbcd, h_adda,
  h_add_sub, h_addx_subx, h_cmpa, h_cmp, h_cmpm, h_mul, h_exg, h_shift_mem, ea_valid, valid, bit8,
  line_0, line_move, line_4e, line_4, line_5, line_8, line_add, line_b, line_c, line_e, claimed,
  decode,
}

-- The operand's index among the twelve effective addresses, and the kinds of operands.
abbrev operand : ℕ → ℕ
operand op = ea_index (op_mode op) (op_reg op)

abbrev any_operand : ℕ → Bool
any_operand i = leb i 11

abbrev in_memory : ℕ → Bool
in_memory i = leb 2 i && leb i 8

abbrev data_or_memory : ℕ → Bool
data_or_memory i = i == 0 || in_memory i

abbrev no_address_register : ℕ → Bool
no_address_register i = leb i 11 && i != 1

-- No address register holds a byte.
abbrev sized_operand : ℕ → ℕ → Bool
sized_operand size i = leb i 11 && (size != 0 || i != 1)

abbrev addresses : ℕ → Bool
addresses i = i == 2 || (leb 5 i && leb i 10)

-- What each handler's code is written for.
pub suits : Handler → ℕ → Bool
suits h_move op =
    let size = op >>> 12 in
    let dst = bit_and (op >>> 6) 7 in
    sized_operand (if size == 1 then 0 else 1) (operand op)
    && (if dst == 1 then size != 1 else data_or_memory (ea_index dst (op_dreg op)))
suits h_bit_op op =
    if op_size op == 0
    then no_address_register (operand op) && (bit8 op || operand op != 11)
    else data_or_memory (operand op)
suits h_logic_imm op =
    data_or_memory (operand op)
    || ((op == 0x003C || op == 0x007C)
        || ((op == 0x023C || op == 0x027C) || (op == 0x0A3C || op == 0x0A7C)))
suits h_addi_subi op = data_or_memory (operand op)
suits h_cmpi op = data_or_memory (operand op)
suits h_neg op = data_or_memory (operand op)
suits h_not op = data_or_memory (operand op)
suits h_clr op = data_or_memory (operand op)
suits h_tst op = data_or_memory (operand op)
suits h_tas op = data_or_memory (operand op)
suits h_nbcd op = data_or_memory (operand op)
suits h_scc op = data_or_memory (operand op)
suits h_move_from_sr op = data_or_memory (operand op)
suits h_move_to_ccr op = no_address_register (operand op)
suits h_move_to_sr op = no_address_register (operand op)
suits h_chk op = no_address_register (operand op)
suits h_mul op = no_address_register (operand op)
suits h_div op = no_address_register (operand op)
suits h_lea op = addresses (operand op)
suits h_pea op = addresses (operand op)
suits h_jmp op = addresses (operand op)
suits h_jsr op = addresses (operand op)
suits h_movem op =
    if bit_and op 0x0400 != 0
    then addresses (operand op) || operand op == 3
    else in_memory (operand op) && operand op != 3
suits h_addq_subq op = leb (operand op) 8 && (op_size op != 0 || operand op != 1)
suits h_adda op = any_operand (operand op)
suits h_cmpa op = any_operand (operand op)
suits h_cmp op = sized_operand (op_size op) (operand op)
suits h_add_sub op =
    if bit8 op then in_memory (operand op) else sized_operand (op_size op) (operand op)
suits h_logic op =
    if not (bit8 op)
    then no_address_register (operand op)
    else if op >>> 12 == 0xB
    then data_or_memory (operand op)
    else in_memory (operand op)
suits h_shift_mem op = in_memory (operand op)
suits h_movep op = op_mode op == 1
suits h_dbcc op = op_mode op == 1
suits h_cmpm op = op_mode op == 1
suits h_addx_subx op = leb (op_mode op) 1
suits h_abcd_sbcd op = leb (op_mode op) 1
suits h_swap op = op_mode op == 0
suits h_ext op = op_mode op == 0
suits h_exg op =
    let pattern = bit_and op 0x01F8 in pattern == 0x0140 || (pattern == 0x0148 || pattern == 0x0188)
suits _ op = true

every_opcode : every_below 65536 (λ op. suits (decode op) op) ≡ true
unfolding every_below suits decode claimed ea_index ea_valid valid line_0 line_move line_4 line_4e
    line_5 line_8 line_add line_b line_c line_e
every_opcode = refl

-- Every opcode reaches a handler whose code is written for the operands that the opcode has: no
-- handler that writes sees an immediate or program-relative operand, none that computes an address
-- sees a register, no byte is moved from an address register, and no index beyond the twelve
-- effective addresses reaches the timing tables.
pub decode-suits : (op : ℕ) → op < 65536 → suits (decode op) op ≡ true
decode-suits op h = every_below_sound 65536 (λ op. suits (decode op) op) every_opcode op h
