-- ===== src/R65c02/Matrix.antt =====
-- The opcode matrix of `R65C02::step` in core/src/r65c02.cpp: sixteen opcodes to a row, in order.
use open_mac_for_linux.Base.{ℕ, true, false, List, [], ◌∷◌, ◌++◌, get_or}
use open_mac_for_linux.R65c02.{
  Instruction, k_carry, k_decimal, k_irq_disable, k_negative, k_overflow, k_zero, m_absolute,
  m_absolute_x, m_absolute_y, m_immediate, m_indirect_x, m_indirect_y, m_zero, m_zero_indirect,
  m_zero_x, m_zero_y, op_acc_shift, op_arithmetic, op_bit, op_bit_branch, op_bit_immediate,
  op_bit_memory, op_bra, op_branch, op_brk, op_clear, op_comparison, op_invalid, op_jmp,
  op_jmp_indexed, op_jmp_indirect, op_jsr, op_load, op_logic, op_nop, op_php, op_plp, op_pull,
  op_push, op_rmw, op_rti, op_rts, op_set, op_step, op_store, op_stp, op_test_memory, op_transfer,
  op_tsx, op_txs, op_wai, reg_a, reg_none, reg_x, reg_y,
}

abbrev row_0 : List Instruction
row_0 =
    op_brk
    ∷ op_logic m_indirect_x 6 0
    ∷ op_invalid
    ∷ op_invalid
    ∷ op_test_memory
    ∷ op_logic m_zero 3 0
    ∷ op_rmw m_zero 5 0
    ∷ op_bit_memory
    ∷ op_php
    ∷ op_logic m_immediate 2 0
    ∷ op_acc_shift 0
    ∷ op_invalid
    ∷ op_test_memory
    ∷ op_logic m_absolute 4 0
    ∷ op_rmw m_absolute 6 0
    ∷ op_bit_branch
    ∷ []

abbrev row_1 : List Instruction
row_1 =
    op_branch k_negative false
    ∷ op_logic m_indirect_y 5 0
    ∷ op_logic m_zero_indirect 5 0
    ∷ op_invalid
    ∷ op_test_memory
    ∷ op_logic m_zero_x 4 0
    ∷ op_rmw m_zero_x 6 0
    ∷ op_bit_memory
    ∷ op_clear k_carry
    ∷ op_logic m_absolute_y 4 0
    ∷ op_step reg_a true
    ∷ op_invalid
    ∷ op_test_memory
    ∷ op_logic m_absolute_x 4 0
    ∷ op_rmw m_absolute_x 6 0
    ∷ op_bit_branch
    ∷ []

abbrev row_2 : List Instruction
row_2 =
    op_jsr
    ∷ op_logic m_indirect_x 6 1
    ∷ op_invalid
    ∷ op_invalid
    ∷ op_bit m_zero 3
    ∷ op_logic m_zero 3 1
    ∷ op_rmw m_zero 5 2
    ∷ op_bit_memory
    ∷ op_plp
    ∷ op_logic m_immediate 2 1
    ∷ op_acc_shift 2
    ∷ op_invalid
    ∷ op_bit m_absolute 4
    ∷ op_logic m_absolute 4 1
    ∷ op_rmw m_absolute 6 2
    ∷ op_bit_branch
    ∷ []

abbrev row_3 : List Instruction
row_3 =
    op_branch k_negative true
    ∷ op_logic m_indirect_y 5 1
    ∷ op_logic m_zero_indirect 5 1
    ∷ op_invalid
    ∷ op_bit m_zero_x 4
    ∷ op_logic m_zero_x 4 1
    ∷ op_rmw m_zero_x 6 2
    ∷ op_bit_memory
    ∷ op_set k_carry
    ∷ op_logic m_absolute_y 4 1
    ∷ op_step reg_a false
    ∷ op_invalid
    ∷ op_bit m_absolute_x 4
    ∷ op_logic m_absolute_x 4 1
    ∷ op_rmw m_absolute_x 6 2
    ∷ op_bit_branch
    ∷ []

abbrev row_4 : List Instruction
row_4 =
    op_rti
    ∷ op_logic m_indirect_x 6 2
    ∷ op_invalid
    ∷ op_invalid
    ∷ op_invalid
    ∷ op_logic m_zero 3 2
    ∷ op_rmw m_zero 5 1
    ∷ op_bit_memory
    ∷ op_push reg_a
    ∷ op_logic m_immediate 2 2
    ∷ op_acc_shift 1
    ∷ op_invalid
    ∷ op_jmp
    ∷ op_logic m_absolute 4 2
    ∷ op_rmw m_absolute 6 1
    ∷ op_bit_branch
    ∷ []

abbrev row_5 : List Instruction
row_5 =
    op_branch k_overflow false
    ∷ op_logic m_indirect_y 5 2
    ∷ op_logic m_zero_indirect 5 2
    ∷ op_invalid
    ∷ op_invalid
    ∷ op_logic m_zero_x 4 2
    ∷ op_rmw m_zero_x 6 1
    ∷ op_bit_memory
    ∷ op_clear k_irq_disable
    ∷ op_logic m_absolute_y 4 2
    ∷ op_push reg_y
    ∷ op_invalid
    ∷ op_invalid
    ∷ op_logic m_absolute_x 4 2
    ∷ op_rmw m_absolute_x 6 1
    ∷ op_bit_branch
    ∷ []

abbrev row_6 : List Instruction
row_6 =
    op_rts
    ∷ op_arithmetic m_indirect_x 6 false
    ∷ op_invalid
    ∷ op_invalid
    ∷ op_store reg_none m_zero 3
    ∷ op_arithmetic m_zero 3 false
    ∷ op_rmw m_zero 5 3
    ∷ op_bit_memory
    ∷ op_pull reg_a
    ∷ op_arithmetic m_immediate 2 false
    ∷ op_acc_shift 3
    ∷ op_invalid
    ∷ op_jmp_indirect
    ∷ op_arithmetic m_absolute 4 false
    ∷ op_rmw m_absolute 6 3
    ∷ op_bit_branch
    ∷ []

abbrev row_7 : List Instruction
row_7 =
    op_branch k_overflow true
    ∷ op_arithmetic m_indirect_y 5 false
    ∷ op_arithmetic m_zero_indirect 5 false
    ∷ op_invalid
    ∷ op_store reg_none m_zero_x 4
    ∷ op_arithmetic m_zero_x 4 false
    ∷ op_rmw m_zero_x 6 3
    ∷ op_bit_memory
    ∷ op_set k_irq_disable
    ∷ op_arithmetic m_absolute_y 4 false
    ∷ op_pull reg_y
    ∷ op_invalid
    ∷ op_jmp_indexed
    ∷ op_arithmetic m_absolute_x 4 false
    ∷ op_rmw m_absolute_x 6 3
    ∷ op_bit_branch
    ∷ []

abbrev row_8 : List Instruction
row_8 =
    op_bra
    ∷ op_store reg_a m_indirect_x 6
    ∷ op_invalid
    ∷ op_invalid
    ∷ op_store reg_y m_zero 3
    ∷ op_store reg_a m_zero 3
    ∷ op_store reg_x m_zero 3
    ∷ op_bit_memory
    ∷ op_step reg_y false
    ∷ op_bit_immediate
    ∷ op_transfer reg_x reg_a
    ∷ op_invalid
    ∷ op_store reg_y m_absolute 4
    ∷ op_store reg_a m_absolute 4
    ∷ op_store reg_x m_absolute 4
    ∷ op_bit_branch
    ∷ []

abbrev row_9 : List Instruction
row_9 =
    op_branch k_carry false
    ∷ op_store reg_a m_indirect_y 6
    ∷ op_store reg_a m_zero_indirect 5
    ∷ op_invalid
    ∷ op_store reg_y m_zero_x 4
    ∷ op_store reg_a m_zero_x 4
    ∷ op_store reg_x m_zero_y 4
    ∷ op_bit_memory
    ∷ op_transfer reg_y reg_a
    ∷ op_store reg_a m_absolute_y 5
    ∷ op_txs
    ∷ op_invalid
    ∷ op_store reg_none m_absolute 4
    ∷ op_store reg_a m_absolute_x 5
    ∷ op_store reg_none m_absolute_x 5
    ∷ op_bit_branch
    ∷ []

abbrev row_a : List Instruction
row_a =
    op_load reg_y m_immediate 2
    ∷ op_load reg_a m_indirect_x 6
    ∷ op_load reg_x m_immediate 2
    ∷ op_invalid
    ∷ op_load reg_y m_zero 3
    ∷ op_load reg_a m_zero 3
    ∷ op_load reg_x m_zero 3
    ∷ op_bit_memory
    ∷ op_transfer reg_a reg_y
    ∷ op_load reg_a m_immediate 2
    ∷ op_transfer reg_a reg_x
    ∷ op_invalid
    ∷ op_load reg_y m_absolute 4
    ∷ op_load reg_a m_absolute 4
    ∷ op_load reg_x m_absolute 4
    ∷ op_bit_branch
    ∷ []

abbrev row_b : List Instruction
row_b =
    op_branch k_carry true
    ∷ op_load reg_a m_indirect_y 5
    ∷ op_load reg_a m_zero_indirect 5
    ∷ op_invalid
    ∷ op_load reg_y m_zero_x 4
    ∷ op_load reg_a m_zero_x 4
    ∷ op_load reg_x m_zero_y 4
    ∷ op_bit_memory
    ∷ op_clear k_overflow
    ∷ op_load reg_a m_absolute_y 4
    ∷ op_tsx
    ∷ op_invalid
    ∷ op_load reg_y m_absolute_x 4
    ∷ op_load reg_a m_absolute_x 4
    ∷ op_load reg_x m_absolute_y 4
    ∷ op_bit_branch
    ∷ []

abbrev row_c : List Instruction
row_c =
    op_comparison reg_y m_immediate 2
    ∷ op_comparison reg_a m_indirect_x 6
    ∷ op_invalid
    ∷ op_invalid
    ∷ op_comparison reg_y m_zero 3
    ∷ op_comparison reg_a m_zero 3
    ∷ op_rmw m_zero 5 4
    ∷ op_bit_memory
    ∷ op_step reg_y true
    ∷ op_comparison reg_a m_immediate 2
    ∷ op_step reg_x false
    ∷ op_wai
    ∷ op_comparison reg_y m_absolute 4
    ∷ op_comparison reg_a m_absolute 4
    ∷ op_rmw m_absolute 6 4
    ∷ op_bit_branch
    ∷ []

abbrev row_d : List Instruction
row_d =
    op_branch k_zero false
    ∷ op_comparison reg_a m_indirect_y 5
    ∷ op_comparison reg_a m_zero_indirect 5
    ∷ op_invalid
    ∷ op_invalid
    ∷ op_comparison reg_a m_zero_x 4
    ∷ op_rmw m_zero_x 6 4
    ∷ op_bit_memory
    ∷ op_clear k_decimal
    ∷ op_comparison reg_a m_absolute_y 4
    ∷ op_push reg_x
    ∷ op_stp
    ∷ op_invalid
    ∷ op_comparison reg_a m_absolute_x 4
    ∷ op_rmw m_absolute_x 6 4
    ∷ op_bit_branch
    ∷ []

abbrev row_e : List Instruction
row_e =
    op_comparison reg_x m_immediate 2
    ∷ op_arithmetic m_indirect_x 6 true
    ∷ op_invalid
    ∷ op_invalid
    ∷ op_comparison reg_x m_zero 3
    ∷ op_arithmetic m_zero 3 true
    ∷ op_rmw m_zero 5 5
    ∷ op_bit_memory
    ∷ op_step reg_x true
    ∷ op_arithmetic m_immediate 2 true
    ∷ op_nop
    ∷ op_invalid
    ∷ op_comparison reg_x m_absolute 4
    ∷ op_arithmetic m_absolute 4 true
    ∷ op_rmw m_absolute 6 5
    ∷ op_bit_branch
    ∷ []

abbrev row_f : List Instruction
row_f =
    op_branch k_zero true
    ∷ op_arithmetic m_indirect_y 5 true
    ∷ op_arithmetic m_zero_indirect 5 true
    ∷ op_invalid
    ∷ op_invalid
    ∷ op_arithmetic m_zero_x 4 true
    ∷ op_rmw m_zero_x 6 5
    ∷ op_bit_memory
    ∷ op_set k_decimal
    ∷ op_arithmetic m_absolute_y 4 true
    ∷ op_pull reg_x
    ∷ op_invalid
    ∷ op_invalid
    ∷ op_arithmetic m_absolute_x 4 true
    ∷ op_rmw m_absolute_x 6 5
    ∷ op_bit_branch
    ∷ []

abbrev pub matrix : List Instruction
matrix =
    row_0
    ++ (row_1
        ++ (row_2
            ++ (row_3
                ++ (row_4
                    ++ (row_5
                        ++ (row_6
                            ++ (row_7
                                ++ (row_8
                                    ++ (row_9
                                        ++ (row_a
                                            ++ (row_b
                                                ++ (row_c
                                                    ++ (row_d ++ (row_e ++ (row_f)))))))))))))))

unfoldable pub decode : ℕ → Instruction
decode opcode = get_or matrix opcode op_invalid
