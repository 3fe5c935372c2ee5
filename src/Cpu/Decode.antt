-- ===== src/Cpu/Decode.antt =====
-- The dispatch table: core/src/cpu_decode.cpp, with the categories of addressing modes of
-- core/src/cpu_ops.hpp. Which operands the handlers see, and in which mode, is in its children.
pub mod Operands
pub mod Privilege
use open_mac_for_linux.Base.{
  ℕ, ◌+◌, bit_and, bit_or, Bool, true, false, not, ◌&&◌, ◌||◌, Option, none, some, not32, ◌<<<◌,
  ◌>>>◌, ltb, leb, ◌==◌, ◌!=◌, if◌then◌else◌,
}
use open_mac_for_linux.Cpu.Machine.{Bus, M, Cpu, Outcome}
use open_mac_for_linux.Cpu.Address.{op_size, op_mode, op_reg, op_dreg, ea_index}
use open_mac_for_linux.Cpu.Alu.{
  op_add_sub, op_adda, op_addi_subi, op_addq_subq, op_addx_subx, op_cmp, op_cmpa, op_cmpi, op_cmpm,
  op_neg,
}
use open_mac_for_linux.Cpu.Alu.Logic.{op_not, op_logic, op_logic_imm}
use open_mac_for_linux.Cpu.Shift.{op_shift_reg, op_shift_mem, op_bit_op}
use open_mac_for_linux.Cpu.MulDiv.{op_mul, op_div, op_tas}
use open_mac_for_linux.Cpu.MulDiv.Decimal.{op_abcd_sbcd, op_nbcd}
use open_mac_for_linux.Cpu.Flow.{
  op_bcc, op_dbcc, op_jmp, op_jsr, op_rts, op_rtr, op_rte, op_trap, op_trapv, op_chk, op_stop,
  op_reset, op_nop, op_illegal, op_a_line, op_f_line,
}
use open_mac_for_linux.Cpu.Move.{
  op_move, op_moveq, op_move_from_sr, op_move_to_ccr, op_move_to_sr, op_move_usp, op_lea, op_pea,
  op_clr, op_scc, op_tst, op_exg, op_swap, op_ext, op_link, op_unlk,
}
use open_mac_for_linux.Cpu.Move.Multiple.{op_movem, op_movep}
use open_mac_for_linux.Cpu.Step.{step}

pub data Handler : Type 0 where
  h_movep : Handler
  h_bit_op : Handler
  h_logic_imm : Handler
  h_addi_subi : Handler
  h_cmpi : Handler
  h_move : Handler
  h_chk : Handler
  h_lea : Handler
  h_neg : Handler
  h_move_from_sr : Handler
  h_clr : Handler
  h_move_to_ccr : Handler
  h_not : Handler
  h_move_to_sr : Handler
  h_nbcd : Handler
  h_swap : Handler
  h_pea : Handler
  h_ext : Handler
  h_movem : Handler
  h_tst : Handler
  h_illegal : Handler
  h_tas : Handler
  h_trap : Handler
  h_link : Handler
  h_unlk : Handler
  h_move_usp : Handler
  h_reset : Handler
  h_nop : Handler
  h_stop : Handler
  h_rte : Handler
  h_rts : Handler
  h_trapv : Handler
  h_rtr : Handler
  h_jsr : Handler
  h_jmp : Handler
  h_dbcc : Handler
  h_scc : Handler
  h_addq_subq : Handler
  h_bcc : Handler
  h_moveq : Handler
  h_div : Handler
  h_logic : Handler
  h_abcd_sbcd : Handler
  h_adda : Handler
  h_add_sub : Handler
  h_addx_subx : Handler
  h_a_line : Handler
  h_cmpa : Handler
  h_cmp : Handler
  h_cmpm : Handler
  h_mul : Handler
  h_exg : Handler
  h_shift_mem : Handler
  h_shift_reg : Handler
  h_f_line : Handler

-- The categories: one digit for each effective address.
abbrev pub ea_an : ℕ
ea_an = 2

abbrev pub ea_post_inc : ℕ
ea_post_inc = 8

abbrev pub ea_pre_dec : ℕ
ea_pre_dec = 16

abbrev pub ea_imm : ℕ
ea_imm = 2048

abbrev pub k_ea_all : ℕ
k_ea_all = 0xFFF

abbrev pub k_ea_data_addr : ℕ
k_ea_data_addr = 0xFFD

abbrev pub k_ea_mem_alter : ℕ
k_ea_mem_alter = 0x1FC

abbrev pub k_ea_data_alter : ℕ
k_ea_data_alter = 0x1FD

abbrev pub k_ea_alterable : ℕ
k_ea_alterable = 0x1FF

abbrev pub k_ea_control : ℕ
k_ea_control = 0x7E4

abbrev pub k_ea_control_alter : ℕ
k_ea_control_alter = 0x1E4

pub ea_valid : ℕ → ℕ → ℕ → Bool
ea_valid mode reg categories = bit_and categories (1 <<< ea_index mode reg) != 0

-- A handler for the operand of an opcode, if the category has it.
pub valid : ℕ → ℕ → Handler → Option Handler
valid op categories h = if ea_valid (op_mode op) (op_reg op) categories then some h else none

abbrev pub bit8 : ℕ → Bool
bit8 op = bit_and (op >>> 8) 1 == 1

-- The lines of the table, by the highest digit.
pub line_0 : ℕ → Option Handler
line_0 op =
    let kind = op_dreg op in
    let sized = ltb (op_size op) 3 in
    if bit8 op
    then (if op_mode op == 1
        then some h_movep
        else valid op (if op_size op == 0 then k_ea_data_addr else k_ea_data_alter) h_bit_op)
    else if kind == 0
    then (if op == 0x003C || op == 0x007C
        then some h_logic_imm
        else if sized
        then valid op k_ea_data_alter h_logic_imm
        else none)
    else if kind == 1
    then (if op == 0x023C || op == 0x027C
        then some h_logic_imm
        else if sized
        then valid op k_ea_data_alter h_logic_imm
        else none)
    else if kind == 2 || kind == 3
    then (if sized then valid op k_ea_data_alter h_addi_subi else none)
    else if kind == 4
    then valid op
        (if op_size op == 0 then bit_and k_ea_data_addr (not32 ea_imm) else k_ea_data_alter)
        h_bit_op
    else if kind == 5
    then (if op == 0x0A3C || op == 0x0A7C
        then some h_logic_imm
        else if sized
        then valid op k_ea_data_alter h_logic_imm
        else none)
    else if kind == 6
    then (if sized then valid op k_ea_data_alter h_cmpi else none)
    else none

pub line_move : ℕ → Option Handler
line_move op =
    let size = if op >>> 12 == 1 then 0 else if op >>> 12 == 2 then 2 else 1 in
    let dst_mode = bit_and (op >>> 6) 7 in
    let dst_reg = op_dreg op in
    if not (
      ea_valid (op_mode op) (op_reg op)
        (if size == 0 then bit_and k_ea_all (not32 ea_an) else k_ea_all))
    then none
    else if dst_mode == 1
    then (if size != 0 then some h_move else none)
    else if ea_valid dst_mode dst_reg k_ea_data_alter
    then some h_move
    else none

-- The opcodes 0x4E00 to 0x4EFF.
pub line_4e : ℕ → Option Handler
line_4e op =
    if bit_and op 0xFFF0 == 0x4E40
    then some h_trap
    else if bit_and op 0xFFF8 == 0x4E50
    then some h_link
    else if bit_and op 0xFFF8 == 0x4E58
    then some h_unlk
    else if bit_and op 0xFFF0 == 0x4E60
    then some h_move_usp
    else if op == 0x4E70
    then some h_reset
    else if op == 0x4E71
    then some h_nop
    else if op == 0x4E72
    then some h_stop
    else if op == 0x4E73
    then some h_rte
    else if op == 0x4E75
    then some h_rts
    else if op == 0x4E76
    then some h_trapv
    else if op == 0x4E77
    then some h_rtr
    else if bit_and op 0xFFC0 == 0x4E80
    then valid op k_ea_control h_jsr
    else if bit_and op 0xFFC0 == 0x4EC0
    then valid op k_ea_control h_jmp
    else none

pub line_4 : ℕ → Option Handler
line_4 op =
    let kind = op_dreg op in
    let size = op_size op in
    let sized = ltb size 3 in
    if bit8 op
    then (if bit_and (op >>> 6) 7 == 6
        then valid op k_ea_data_addr h_chk
        else if bit_and (op >>> 6) 7 == 7
        then valid op k_ea_control h_lea
        else none)
    else if kind == 0
    then valid op k_ea_data_alter (if sized then h_neg else h_move_from_sr)
    else if kind == 1
    then (if sized then valid op k_ea_data_alter h_clr else none)
    else if kind == 2
    then (if sized then valid op k_ea_data_alter h_neg else valid op k_ea_data_addr h_move_to_ccr)
    else if kind == 3
    then (if sized then valid op k_ea_data_alter h_not else valid op k_ea_data_addr h_move_to_sr)
    else if kind == 4
    then (if size == 0
        then valid op k_ea_data_alter h_nbcd
        else if size == 1
        then (if op_mode op == 0 then some h_swap else valid op k_ea_control h_pea)
        else if op_mode op == 0
        then some h_ext
        else valid op (bit_or k_ea_control_alter ea_pre_dec) h_movem)
    else if kind == 5
    then (if sized
        then valid op k_ea_data_alter h_tst
        else if op == 0x4AFC
        then some h_illegal
        else valid op k_ea_data_alter h_tas)
    else if kind == 6
    then (if leb 2 size then valid op (bit_or k_ea_control ea_post_inc) h_movem else none)
    else line_4e op

pub line_5 : ℕ → Option Handler
line_5 op =
    if op_size op == 3
    then (if op_mode op == 1 then some h_dbcc else valid op k_ea_data_alter h_scc)
    else valid op (if op_size op == 0 then k_ea_data_alter else k_ea_alterable) h_addq_subq

pub line_8 : ℕ → Option Handler
line_8 op =
    if op_size op == 3
    then valid op k_ea_data_addr h_div
    else if not (bit8 op)
    then valid op k_ea_data_addr h_logic
    else if op_size op == 0 && leb (op_mode op) 1
    then some h_abcd_sbcd
    else valid op k_ea_mem_alter h_logic

-- Lines 9 and D.
pub line_add : ℕ → Option Handler
line_add op =
    if op_size op == 3
    then valid op k_ea_all h_adda
    else if not (bit8 op)
    then valid op (if op_size op == 0 then bit_and k_ea_all (not32 ea_an) else k_ea_all) h_add_sub
    else if leb (op_mode op) 1
    then some h_addx_subx
    else valid op k_ea_mem_alter h_add_sub

pub line_b : ℕ → Option Handler
line_b op =
    if op_size op == 3
    then valid op k_ea_all h_cmpa
    else if not (bit8 op)
    then valid op (if op_size op == 0 then bit_and k_ea_all (not32 ea_an) else k_ea_all) h_cmp
    else if op_mode op == 1
    then some h_cmpm
    else valid op k_ea_data_alter h_logic

pub line_c : ℕ → Option Handler
line_c op =
    let pat = bit_and op 0x01F8 in
    if op_size op == 3
    then valid op k_ea_data_addr h_mul
    else if not (bit8 op)
    then valid op k_ea_data_addr h_logic
    else if op_size op == 0 && leb (op_mode op) 1
    then some h_abcd_sbcd
    else if pat == 0x0140 || (pat == 0x0148 || pat == 0x0188)
    then some h_exg
    else if ltb (op_size op) 3
    then valid op k_ea_mem_alter h_logic
    else none

pub line_e : ℕ → Option Handler
line_e op =
    if op_size op == 3
    then (if bit_and (op >>> 11) 1 == 0 then valid op k_ea_mem_alter h_shift_mem else none)
    else some h_shift_reg

pub claimed : ℕ → Option Handler
claimed op =
    let line = op >>> 12 in
    if line == 0
    then line_0 op
    else if leb line 3
    then line_move op
    else if line == 4
    then line_4 op
    else if line == 5
    then line_5 op
    else if line == 6
    then some h_bcc
    else if line == 7
    then (if not (bit8 op) then some h_moveq else none)
    else if line == 8
    then line_8 op
    else if line == 9 || line == 0xD
    then line_add op
    else if line == 0xA
    then some h_a_line
    else if line == 0xB
    then line_b op
    else if line == 0xC
    then line_c op
    else if line == 0xE
    then line_e op
    else if line == 0xF
    then some h_f_line
    else none

-- What is not claimed stays illegal.
unfoldable pub decode : ℕ → Handler
decode op = elim (claimed op) [ none ↦ h_illegal | some h ↦ h ]

module _ {S : Type 0} ⦃bus : Bus S⦄ where
  pub run_handler : Option (S → S) → Handler → ℕ → M S ℕ
  run_handler on_reset h_movep op = op_movep op
  run_handler on_reset h_bit_op op = op_bit_op op
  run_handler on_reset h_logic_imm op = op_logic_imm op
  run_handler on_reset h_addi_subi op = op_addi_subi op
  run_handler on_reset h_cmpi op = op_cmpi op
  run_handler on_reset h_move op = op_move op
  run_handler on_reset h_chk op = op_chk op
  run_handler on_reset h_lea op = op_lea op
  run_handler on_reset h_neg op = op_neg op
  run_handler on_reset h_move_from_sr op = op_move_from_sr op
  run_handler on_reset h_clr op = op_clr op
  run_handler on_reset h_move_to_ccr op = op_move_to_ccr op
  run_handler on_reset h_not op = op_not op
  run_handler on_reset h_move_to_sr op = op_move_to_sr op
  run_handler on_reset h_nbcd op = op_nbcd op
  run_handler on_reset h_swap op = op_swap op
  run_handler on_reset h_pea op = op_pea op
  run_handler on_reset h_ext op = op_ext op
  run_handler on_reset h_movem op = op_movem op
  run_handler on_reset h_tst op = op_tst op
  run_handler on_reset h_illegal op = op_illegal op
  run_handler on_reset h_tas op = op_tas op
  run_handler on_reset h_trap op = op_trap op
  run_handler on_reset h_link op = op_link op
  run_handler on_reset h_unlk op = op_unlk op
  run_handler on_reset h_move_usp op = op_move_usp op
  run_handler on_reset h_reset op = op_reset on_reset op
  run_handler on_reset h_nop op = op_nop op
  run_handler on_reset h_stop op = op_stop op
  run_handler on_reset h_rte op = op_rte op
  run_handler on_reset h_rts op = op_rts op
  run_handler on_reset h_trapv op = op_trapv op
  run_handler on_reset h_rtr op = op_rtr op
  run_handler on_reset h_jsr op = op_jsr op
  run_handler on_reset h_jmp op = op_jmp op
  run_handler on_reset h_dbcc op = op_dbcc op
  run_handler on_reset h_scc op = op_scc op
  run_handler on_reset h_addq_subq op = op_addq_subq op
  run_handler on_reset h_bcc op = op_bcc op
  run_handler on_reset h_moveq op = op_moveq op
  run_handler on_reset h_div op = op_div op
  run_handler on_reset h_logic op = op_logic op
  run_handler on_reset h_abcd_sbcd op = op_abcd_sbcd op
  run_handler on_reset h_adda op = op_adda op
  run_handler on_reset h_add_sub op = op_add_sub op
  run_handler on_reset h_addx_subx op = op_addx_subx op
  run_handler on_reset h_a_line op = op_a_line op
  run_handler on_reset h_cmpa op = op_cmpa op
  run_handler on_reset h_cmp op = op_cmp op
  run_handler on_reset h_cmpm op = op_cmpm op
  run_handler on_reset h_mul op = op_mul op
  run_handler on_reset h_exg op = op_exg op
  run_handler on_reset h_shift_mem op = op_shift_mem op
  run_handler on_reset h_shift_reg op = op_shift_reg op
  run_handler on_reset h_f_line op = op_f_line op

  -- The processor with its table.
  unfoldable pub step_decoded : Option (S → S) → Cpu S → Outcome S ℕ
  step_decoded on_reset = step (λ op. run_handler on_reset (decode op))
