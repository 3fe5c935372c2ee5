-- ===== src/R65c02/Invariant.antt =====
-- The bounds of the registers, kept by every operation.
pub mod Accesses
pub mod Step
pub mod Reach
use open_mac_for_linux.Base.{
  ℕ, ◌+◌, ◌^◌, ◌%◌, ◌<◌, bit_and, bit_or, Bool, true, false, not, ◌&&◌, ◌≡◌, refl, u8, u16, not8,
  ◌>>>◌, ◌<<<◌, ◌==◌, ◌!=◌, if◌then◌else◌, arith, every_below, every_below_sound,
}
use open_mac_for_linux.R65c02.{
  m_absolute, m_absolute_x, m_absolute_y, m_immediate, m_indirect_x, m_indirect_y, m_zero,
  m_zero_indirect, m_zero_x, m_zero_y, op_acc_shift, op_arithmetic, op_bit, op_bit_branch,
  op_bit_immediate, op_bit_memory, op_bra, op_branch, op_brk, op_clear, op_comparison, op_invalid,
  op_jmp, op_jmp_indexed, op_jmp_indirect, op_jsr, op_load, op_logic, op_nop, op_php, op_plp,
  op_pull, op_push, op_rmw, op_rti, op_rts, op_set, op_step, op_store, op_stp, op_test_memory,
  op_transfer, op_tsx, op_txs, op_wai, reg_a, reg_none, reg_x, reg_y, Mode, Reg, Instruction, Bus,
  R65c02, M, ret, flag, pair, nz, set_nz, compare, adc, sbc, added, subtracted, rb, wb, fetch8,
  fetch16, read16, push, pop, reset, zero_word, effective, operand, interrupt, branch, branch_to,
  bit_branch, invalid_nop, k_reserved, k_irq_disable, k_decimal, one_of,
}
use open_mac_for_linux.R65c02.Matrix.{decode}
use open_mac_for_linux.R65c02.Execute.{
  u64, reg_value, with_reg, loaded, shifted, logical, read_op, logic, load, arithmetic, comparison,
  store, rmw, acc_shift, bit_test, test_memory, bit_memory, jsr, rti, rts, execute, spend,
  run_instruction, take_interrupt, step,
}

-- The registers hold what their widths hold.
pub record IsValid {S : Type 0} (c : R65c02 S) : Type 0 where
  pub a_byte : c.a < 256
  pub x_byte : c.x < 256
  pub y_byte : c.y < 256
  pub s_byte : c.s < 256
  pub p_byte : c.p < 256
  pub pc_word : c.pc < 2 ^ 16
  pub counted : c.instructions < 2 ^ 64
  pub timed : c.cycles < 2 ^ 64

pub u8-lt : (n : ℕ) → u8 n < 256
u8-lt n = omega arith

pub u16-lt : (n : ℕ) → u16 n < 2 ^ 16
u16-lt n = omega arith

pub nz-lt : (value p : ℕ) → nz value p < 256
unfolding nz
nz-lt value p = u8-lt _

module _ {S : Type 0} (c : R65c02 S) (v : IsValid c) where
  pub with_p-IsValid : (p : ℕ) → p < 256 → IsValid (record c { p = p })
  with_p-IsValid p h = record {
    a_byte = v.a_byte;
    x_byte = v.x_byte;
    y_byte = v.y_byte;
    s_byte = v.s_byte;
    p_byte = h;
    pc_word = v.pc_word;
    counted = v.counted;
    timed = v.timed;
  }

  pub with_s-IsValid : (s : ℕ) → s < 256 → IsValid (record c { s = s })
  with_s-IsValid s h = record {
    a_byte = v.a_byte;
    x_byte = v.x_byte;
    y_byte = v.y_byte;
    s_byte = h;
    p_byte = v.p_byte;
    pc_word = v.pc_word;
    counted = v.counted;
    timed = v.timed;
  }

  pub with_pc-IsValid : (pc : ℕ) → pc < 2 ^ 16 → IsValid (record c { pc = pc })
  with_pc-IsValid pc h = record {
    a_byte = v.a_byte;
    x_byte = v.x_byte;
    y_byte = v.y_byte;
    s_byte = v.s_byte;
    p_byte = v.p_byte;
    pc_word = h;
    counted = v.counted;
    timed = v.timed;
  }

  pub landed-IsValid : (pc : ℕ) → pc < 2 ^ 16 → IsValid (record c { pc = pc; waiting = false })
  landed-IsValid pc h = record {
    a_byte = v.a_byte;
    x_byte = v.x_byte;
    y_byte = v.y_byte;
    s_byte = v.s_byte;
    p_byte = v.p_byte;
    pc_word = h;
    counted = v.counted;
    timed = v.timed;
  }

  pub idle-IsValid :
      (waiting stopped nmi : Bool)
      → IsValid (record c { waiting = waiting; stopped = stopped; nmi_pending = nmi })
  idle-IsValid waiting stopped nmi = record {
    a_byte = v.a_byte;
    x_byte = v.x_byte;
    y_byte = v.y_byte;
    s_byte = v.s_byte;
    p_byte = v.p_byte;
    pc_word = v.pc_word;
    counted = v.counted;
    timed = v.timed;
  }

  pub counted-IsValid : IsValid (record c { instructions = u64 (c.instructions + 1) })
  counted-IsValid = record {
    a_byte = v.a_byte;
    x_byte = v.x_byte;
    y_byte = v.y_byte;
    s_byte = v.s_byte;
    p_byte = v.p_byte;
    pc_word = v.pc_word;
    counted = omega arith;
    timed = v.timed;
  }

  pub with_world-IsValid : (w : S) → IsValid (record c { world = w })
  with_world-IsValid w = record {
    a_byte = v.a_byte;
    x_byte = v.x_byte;
    y_byte = v.y_byte;
    s_byte = v.s_byte;
    p_byte = v.p_byte;
    pc_word = v.pc_word;
    counted = v.counted;
    timed = v.timed;
  }

  with_reg-IsValid : (reg : Reg) (n : ℕ) → n < 256 → IsValid (with_reg reg n c)
  with_reg-IsValid reg_a n h = record {
    a_byte = h;
    x_byte = v.x_byte;
    y_byte = v.y_byte;
    s_byte = v.s_byte;
    p_byte = v.p_byte;
    pc_word = v.pc_word;
    counted = v.counted;
    timed = v.timed;
  }
  with_reg-IsValid reg_x n h = record {
    a_byte = v.a_byte;
    x_byte = h;
    y_byte = v.y_byte;
    s_byte = v.s_byte;
    p_byte = v.p_byte;
    pc_word = v.pc_word;
    counted = v.counted;
    timed = v.timed;
  }
  with_reg-IsValid reg_y n h = record {
    a_byte = v.a_byte;
    x_byte = v.x_byte;
    y_byte = h;
    s_byte = v.s_byte;
    p_byte = v.p_byte;
    pc_word = v.pc_word;
    counted = v.counted;
    timed = v.timed;
  }
  with_reg-IsValid reg_none n h = v

  pub reg_value-lt : (reg : Reg) → reg_value reg c < 256
  reg_value-lt reg_a = v.a_byte
  reg_value-lt reg_x = v.x_byte
  reg_value-lt reg_y = v.y_byte
  reg_value-lt reg_none = omega arith

  pub spend-IsValid : (n : ℕ) → IsValid (spend n c)
  spend-IsValid n = record {
    a_byte = v.a_byte;
    x_byte = v.x_byte;
    y_byte = v.y_byte;
    s_byte = v.s_byte;
    p_byte = v.p_byte;
    pc_word = v.pc_word;
    counted = v.counted;
    timed = omega arith;
  }

either_lt : (b : Bool) (m n : ℕ) → (if b then u8 m else u8 n) < 256
either_lt true m n = u8-lt m
either_lt false m n = u8-lt n

added-lt : (a p n : ℕ) → ((added a p n).0 < 256) × ((added a p n).1 < 256)
unfolding added
added-lt a p n = ground arith

subtracted-lt : (a p n : ℕ) → ((subtracted a p n).0 < 256) × ((subtracted a p n).1 < 256)
unfolding subtracted
subtracted-lt a p n = (either_lt _ _ _, u8-lt _)

pub shifted-lt :
    (operation value p : ℕ)
    → p < 256
    → ((shifted operation value p).0 < 256) × ((shifted operation value p).1 < 256)
unfolding shifted
shifted-lt operation value p h = ground arith

pub logical-lt : (operation a n : ℕ) → logical operation a n < 256
logical-lt operation a n = ground arith

module _ {S : Type 0} (c : R65c02 S) (v : IsValid c) where
  pub loaded-IsValid : (reg : Reg) (n : ℕ) → n < 256 → IsValid (loaded reg n c)
  loaded-IsValid reg n h = with_p-IsValid _ (with_reg-IsValid c v reg n h) _ (nz-lt n _)

  result-IsValid : (r p : ℕ) → r < 256 → p < 256 → IsValid (record c { a = r; p = p })
  result-IsValid r p hr hp = with_p-IsValid _ (with_reg-IsValid c v reg_a r hr) p hp

  pub arithmetic-IsValid :
      (subtract : Bool) (n : ℕ) → IsValid ((if subtract then sbc n else adc n) c)
  unfolding adc sbc
  arithmetic-IsValid true n = result-IsValid _ _ (subtracted-lt c.a c.p n).0 (nz-lt _ _)
  arithmetic-IsValid false n = result-IsValid _ _ (added-lt c.a c.p n).0 (nz-lt _ _)

  pub compare-IsValid : (lhs rhs : ℕ) → IsValid (compare lhs rhs c)
  unfolding compare
  compare-IsValid lhs rhs = with_p-IsValid c v _ (nz-lt _ _)
