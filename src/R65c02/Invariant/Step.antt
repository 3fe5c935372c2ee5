-- ===== src/R65c02/Invariant/Step.antt =====
-- The bounds of the registers across instructions and steps.
use open_mac_for_linux.Base.{ℕ, ◌<◌, true, false, arith}
use open_mac_for_linux.R65c02.{
  op_acc_shift, op_arithmetic, op_bit, op_bit_branch, op_bit_immediate, op_bit_memory, op_bra,
  op_branch, op_brk, op_clear, op_comparison, op_invalid, op_jmp, op_jmp_indexed, op_jmp_indirect,
  op_jsr, op_load, op_logic, op_nop, op_php, op_plp, op_pull, op_push, op_rmw, op_rti, op_rts,
  op_set, op_step, op_store, op_stp, op_test_memory, op_transfer, op_tsx, op_txs, op_wai, reg_a,
  reg_x, Mode, Reg, Instruction, Bus, R65c02, rb, read16, effective,
}
use open_mac_for_linux.R65c02.Execute.{
  read_op, logic, load, arithmetic, comparison, store, rmw, acc_shift, bit_test, test_memory,
  bit_memory, jsr, rti, rts, execute, run_instruction, take_interrupt, step,
}
use open_mac_for_linux.R65c02.Invariant.{
  u8-lt, u16-lt, nz-lt, with_p-IsValid, with_s-IsValid, with_pc-IsValid, idle-IsValid,
  counted-IsValid, reg_value-lt, spend-IsValid, shifted-lt, logical-lt, loaded-IsValid,
  arithmetic-IsValid, compare-IsValid, IsValid,
}
use open_mac_for_linux.R65c02.Invariant.Accesses.{
  IsBytes, Keeps, pair-lt, rb-Keeps, wb-IsValid, fetch8-Keeps, fetch16-Keeps, read16-Keeps,
  push-IsValid, pop-Keeps, effective-IsValid, operand-Keeps, interrupt-IsValid, branch-IsValid,
  bit_branch-IsValid, invalid_nop-IsValid,
}

module _ {S : Type 0} ⦃bus : Bus S⦄ (bytes : IsBytes S bus) where
  read_op-Keeps : (mode : Mode) (base : ℕ) → Keeps (λ r. r.0 < 256) (read_op {S = S} mode base)
  unfolding read_op
  read_op-Keeps mode base c v = operand-Keeps bytes mode c v

  logic-IsValid :
      (mode : Mode) (base operation : ℕ) (c : R65c02 S)
      → IsValid c
      → IsValid (logic mode base operation c).1
  unfolding logic
  logic-IsValid mode base operation c v =
      loaded-IsValid _ (read_op-Keeps mode base c v).1 reg_a _
        (logical-lt operation (read_op mode base c).1.a (read_op mode base c).0.0)

  load-IsValid :
      (reg : Reg) (mode : Mode) (base : ℕ) (c : R65c02 S)
      → IsValid c
      → IsValid (load reg mode base c).1
  unfolding load
  load-IsValid reg mode base c v =
      let r = read_op-Keeps mode base c v in loaded-IsValid _ r.1 reg _ r.0

  store-IsValid :
      (reg : Reg) (mode : Mode) (time : ℕ) (c : R65c02 S)
      → IsValid c
      → IsValid (store reg mode time c).1
  unfolding store
  store-IsValid reg mode time c v = wb-IsValid bytes _ _ _ (effective-IsValid bytes mode c v)

  rmw-IsValid :
      (mode : Mode) (time operation : ℕ) (c : R65c02 S)
      → IsValid c
      → IsValid (rmw mode time operation c).1
  unfolding rmw
  rmw-IsValid mode time operation c v =
      let r = (rb-Keeps bytes (effective mode c).0.0 _ (effective-IsValid bytes mode c v)).1 in
      let shift =
        shifted-lt operation (rb (effective mode c).0.0 (effective mode c).1).0 _ r.p_byte in
      with_p-IsValid _ (wb-IsValid bytes _ _ _ (with_p-IsValid _ r _ shift.1)) _ (nz-lt _ _)

  acc_shift-IsValid : (operation : ℕ) (c : R65c02 S) → IsValid c → IsValid (acc_shift operation c).1
  unfolding acc_shift
  acc_shift-IsValid operation c v =
      let shift = shifted-lt operation c.a c.p v.p_byte in
      loaded-IsValid _ (with_p-IsValid c v _ shift.1) reg_a _ shift.0

  test_memory-IsValid : (opcode : ℕ) (c : R65c02 S) → IsValid c → IsValid (test_memory opcode c).1
  unfolding test_memory
  test_memory-IsValid opcode c v =
      let r = (rb-Keeps bytes _ _ (effective-IsValid bytes _ c v)).1 in
      wb-IsValid bytes _ _ _ (with_p-IsValid _ r _ (u8-lt _))

  bit_memory-IsValid : (opcode : ℕ) (c : R65c02 S) → IsValid c → IsValid (bit_memory opcode c).1
  unfolding bit_memory
  bit_memory-IsValid opcode c v =
      wb-IsValid bytes _ _ _ (rb-Keeps bytes _ _ (fetch8-Keeps bytes c v).1).1

  jsr-IsValid : (c : R65c02 S) → IsValid c → IsValid (jsr c).1
  unfolding jsr
  jsr-IsValid c v =
      let r = fetch16-Keeps bytes c v in
      with_pc-IsValid _ (push-IsValid bytes _ _ (push-IsValid bytes _ _ r.1)) _ r.0

  rts-IsValid : (c : R65c02 S) → IsValid c → IsValid (rts c).1
  unfolding rts
  rts-IsValid c v = with_pc-IsValid _ (pop-Keeps bytes _ (pop-Keeps bytes c v).1).1 _ (u16-lt _)

  rti-IsValid : (c : R65c02 S) → IsValid c → IsValid (rti c).1
  unfolding rti
  rti-IsValid c v =
      let v' = with_p-IsValid _ (pop-Keeps bytes c v).1 _ (u8-lt _) in
      with_pc-IsValid _ (pop-Keeps bytes _ (pop-Keeps bytes _ v').1).1 _ (pair-lt _ _)

  jumped : ℕ → R65c02 S → R65c02 S
  jumped base c = let (target, c') = read16 base c in record c' { pc = target }

  jumped-IsValid : (base : ℕ) (c : R65c02 S) → IsValid c → IsValid (jumped base c)
  unfolding jumped
  jumped-IsValid base c v = let r = read16-Keeps bytes base c v in with_pc-IsValid _ r.1 _ r.0

  pub execute-IsValid :
      (i : Instruction) (op : ℕ) (c : R65c02 S) → IsValid c → IsValid (execute i op c).1
  unfolding execute jumped
  execute-IsValid (op_logic mode base operation) op c v = logic-IsValid mode base operation c v
  execute-IsValid (op_arithmetic mode base subtract) op c v =
      unfold arithmetic in arithmetic-IsValid _ (read_op-Keeps mode base c v).1 subtract _
  execute-IsValid (op_load reg mode base) op c v = load-IsValid reg mode base c v
  execute-IsValid (op_comparison reg mode base) op c v =
      unfold comparison in compare-IsValid _ (read_op-Keeps mode base c v).1 _ _
  execute-IsValid (op_store reg mode time) op c v = store-IsValid reg mode time c v
  execute-IsValid (op_rmw mode time operation) op c v = rmw-IsValid mode time operation c v
  execute-IsValid (op_acc_shift operation) op c v = acc_shift-IsValid operation c v
  execute-IsValid (op_bit mode base) op c v =
      unfold bit_test in with_p-IsValid _ (read_op-Keeps mode base c v).1 _ (u8-lt _)
  execute-IsValid (op_branch mask wanted) op c v = branch-IsValid bytes _ c v
  execute-IsValid (op_push reg) op c v = push-IsValid bytes _ c v
  execute-IsValid (op_pull reg) op c v =
      let r = pop-Keeps bytes c v in loaded-IsValid _ r.1 reg _ r.0
  execute-IsValid (op_step reg up) op c v = loaded-IsValid c v reg _ (u8-lt _)
  execute-IsValid (op_transfer from to) op c v = loaded-IsValid c v to _ (reg_value-lt c v from)
  execute-IsValid (op_clear mask) op c v = with_p-IsValid c v _ (u8-lt _)
  execute-IsValid (op_set mask) op c v = with_p-IsValid c v _ (u8-lt _)
  execute-IsValid op_bit_immediate op c v = with_p-IsValid _ (fetch8-Keeps bytes c v).1 _ (u8-lt _)
  execute-IsValid op_test_memory op c v = test_memory-IsValid op c v
  execute-IsValid op_bit_memory op c v = bit_memory-IsValid op c v
  execute-IsValid op_bit_branch op c v = bit_branch-IsValid bytes op c v
  execute-IsValid op_bra op c v = branch-IsValid bytes true c v
  execute-IsValid op_brk op c v = interrupt-IsValid bytes 0xFFFE true _ (fetch8-Keeps bytes c v).1
  execute-IsValid op_jsr op c v = jsr-IsValid c v
  execute-IsValid op_jmp op c v = let r = fetch16-Keeps bytes c v in with_pc-IsValid _ r.1 _ r.0
  execute-IsValid op_jmp_indirect op c v = jumped-IsValid _ _ (fetch16-Keeps bytes c v).1
  execute-IsValid op_jmp_indexed op c v = jumped-IsValid _ _ (fetch16-Keeps bytes c v).1
  execute-IsValid op_rti op c v = rti-IsValid c v
  execute-IsValid op_rts op c v = rts-IsValid c v
  execute-IsValid op_php op c v = push-IsValid bytes _ c v
  execute-IsValid op_plp op c v = with_p-IsValid _ (pop-Keeps bytes c v).1 _ (u8-lt _)
  execute-IsValid op_tsx op c v = loaded-IsValid c v reg_x c.s v.s_byte
  execute-IsValid op_txs op c v = with_s-IsValid c v _ v.x_byte
  execute-IsValid op_nop op c v = v
  execute-IsValid op_wai op c v = idle-IsValid c v true c.stopped c.nmi_pending
  execute-IsValid op_stp op c v = idle-IsValid c v c.waiting true c.nmi_pending
  execute-IsValid op_invalid op c v = invalid_nop-IsValid bytes op c v

  pub run_instruction-IsValid : (c : R65c02 S) → IsValid c → IsValid (run_instruction c).1
  unfolding run_instruction
  run_instruction-IsValid c v =
      let fetched = counted-IsValid _ (fetch8-Keeps bytes c v).1 in
      let done = execute-IsValid _ _ _ fetched in
      spend-IsValid _ (with_p-IsValid _ done _ (u8-lt _)) _

  take_interrupt-IsValid :
      (vector : ℕ) (c : R65c02 S) → IsValid c → IsValid (take_interrupt vector c).1
  unfolding take_interrupt
  take_interrupt-IsValid vector c v = spend-IsValid _ (interrupt-IsValid bytes vector false c v) _

  -- On a bus that gives bytes a step keeps the registers within their widths: the accumulator, the
  -- index registers, the stack pointer and the status below 2 ^ 8, the program counter below 2 ^ 16,
  -- the counts of instructions and cycles below 2 ^ 64.
  pub step-IsValid : (c : R65c02 S) → IsValid c → IsValid (step c).1
  unfolding step
  step-IsValid c v = ground (
    arith,
    v,
    run_instruction-IsValid c v,
    take_interrupt-IsValid 0xFFFE c v,
    take_interrupt-IsValid 0xFFFA _ (idle-IsValid c v c.waiting c.stopped false),
    spend-IsValid _ (idle-IsValid c v false c.stopped c.nmi_pending) 1,
  )
