-- ===== src/R65c02/Execute.antt =====
-- The instructions of `R65C02::step` in core/src/r65c02.cpp, and the step.
use open_mac_for_linux.Base.{
  ℕ, ◌+◌, ◌%◌, ◌^◌, bit_and, bit_or, bit_xor, Bool, true, false, not, ◌&&◌, u8, u16, not8, ◌<<<◌,
  ◌>>>◌, ◌==◌, ◌!=◌, if◌then◌else◌,
}
use open_mac_for_linux.R65c02.{
  m_absolute, m_zero, op_acc_shift, op_arithmetic, op_bit, op_bit_branch, op_bit_immediate,
  op_bit_memory, op_bra, op_branch, op_brk, op_clear, op_comparison, op_invalid, op_jmp,
  op_jmp_indexed, op_jmp_indirect, op_jsr, op_load, op_logic, op_nop, op_php, op_plp, op_pull,
  op_push, op_rmw, op_rti, op_rts, op_set, op_step, op_store, op_stp, op_test_memory, op_transfer,
  op_tsx, op_txs, op_wai, reg_a, reg_none, reg_x, reg_y, k_carry, k_zero, k_irq_disable, k_decimal,
  k_break, k_reserved, k_overflow, k_negative, Mode, Reg, Instruction, Bus, R65c02, M, ◌>>=◌, ◌>>◌,
  ret, get, modify, flag, pair, set_nz, compare, adc, sbc, k_page_cost, rb, wb, fetch8, fetch16,
  read16, push, pop, effective, operand, interrupt, branch, bit_branch, invalid_nop,
}
use open_mac_for_linux.R65c02.Matrix.{decode}

abbrev pub u64 : ℕ → ℕ
u64 n = n % 2 ^ 64

abbrev pub reg_value : {S : Type 0} → Reg → R65c02 S → ℕ
reg_value reg_a c = c.a
reg_value reg_x c = c.x
reg_value reg_y c = c.y
reg_value reg_none c = 0

abbrev pub with_reg : {S : Type 0} → Reg → ℕ → R65c02 S → R65c02 S
with_reg reg_a v c = record c { a = v }
with_reg reg_x v c = record c { x = v }
with_reg reg_y v c = record c { y = v }
with_reg reg_none v c = c

-- A register and the flags of its value.
abbrev pub loaded : {S : Type 0} → Reg → ℕ → R65c02 S → R65c02 S
loaded reg v c = set_nz v (with_reg reg v c)

abbrev pub with_carry : ℕ → Bool → ℕ
with_carry p on = u8 (bit_or (bit_and p (not8 k_carry)) (if on then k_carry else 0))

-- The value and the status after operation 0 to 5 of `rmw`: ASL, LSR, ROL, ROR, DEC, INC.
unfoldable pub shifted : ℕ → ℕ → ℕ → ℕ × ℕ
shifted operation value p =
    let carry = flag p k_carry in
    if operation == 0
    then (u8 (value <<< 1), with_carry p (bit_and value 0x80 != 0))
    else if operation == 1
    then (u8 (value >>> 1), with_carry p (bit_and value 1 != 0))
    else if operation == 2
    then (
      u8 (bit_or (value <<< 1) (if carry then 1 else 0)),
      with_carry p (bit_and value 0x80 != 0),
    )
    else if operation == 3
    then (
      u8 (bit_or (value >>> 1) (if carry then 0x80 else 0)),
      with_carry p (bit_and value 1 != 0),
    )
    else if operation == 4
    then (u8 (value + 255), p)
    else (u8 (value + 1), p)

abbrev pub logical : ℕ → ℕ → ℕ → ℕ
logical operation a value =
    if operation == 0
    then u8 (bit_or a value)
    else if operation == 1
    then u8 (bit_and a value)
    else u8 (bit_xor a value)

-- The zero flag of a test.
abbrev pub tested : ℕ → ℕ → ℕ → ℕ
tested p a value =
    u8 (bit_or (bit_and p (not8 k_zero)) (if bit_and a value == 0 then k_zero else 0))

abbrev pub pulled_status : ℕ → ℕ
pulled_status v = u8 (bit_or (bit_and v (not8 k_break)) k_reserved)

abbrev pub spend : {S : Type 0} → ℕ → R65c02 S → R65c02 S
spend used c = record c { cycles = u64 (c.cycles + used) }

module _ {S : Type 0} ⦃bus : Bus S⦄ where
  -- An operand, and the cycles with a crossed page.
  unfoldable pub read_op : Mode → ℕ → M S (ℕ × ℕ)
  read_op mode base = do (value, crossed) ← operand mode; ret (value, base + k_page_cost crossed)

  unfoldable pub logic : Mode → ℕ → ℕ → M S ℕ
  logic mode base operation = do
    (value, time) ← read_op mode base
    modify λ c. loaded reg_a (logical operation c.a value) c
    ret time

  unfoldable pub load : Reg → Mode → ℕ → M S ℕ
  load reg mode base = do (value, time) ← read_op mode base; modify (loaded reg value); ret time

  unfoldable pub arithmetic : Mode → ℕ → Bool → M S ℕ
  arithmetic mode base subtract = do
    (value, time) ← read_op mode base
    modify (if subtract then sbc value else adc value)
    p ← get (λ c. c.p)
    ret (time + (if flag p k_decimal then 1 else 0))

  unfoldable pub comparison : Reg → Mode → ℕ → M S ℕ
  comparison reg mode base = do
    lhs ← get (reg_value reg)
    (value, time) ← read_op mode base
    modify (compare lhs value)
    ret time

  unfoldable pub store : Reg → Mode → ℕ → M S ℕ
  store reg mode time = do
    value ← get (reg_value reg)
    (address, crossed) ← effective mode
    wb address value
    ret time

  unfoldable pub rmw : Mode → ℕ → ℕ → M S ℕ
  rmw mode time operation = do
    (address, crossed) ← effective mode
    value ← rb address
    p ← get (λ c. c.p)
    let (value', p') = shifted operation value p
    modify λ c. record c { p = p' }
    wb address value'
    modify (set_nz value')
    ret time

  unfoldable pub acc_shift : ℕ → M S ℕ
  acc_shift operation = do
    modify λ c. let (v, p') = shifted operation c.a c.p in loaded reg_a v (record c { p = p' })
    ret 2

  unfoldable pub bit_test : Mode → ℕ → M S ℕ
  bit_test mode base = do
    (value, time) ← read_op mode base
    modify λ c. record c {
      p = u8 (
          bit_or
            (bit_or (bit_and c.p (not8 (k_negative + k_overflow + k_zero)))
              (bit_and value (k_negative + k_overflow)))
            (if bit_and c.a value == 0 then k_zero else 0));
    }
    ret time

  -- TSB and TRB.
  unfoldable pub test_memory : ℕ → M S ℕ
  test_memory opcode =
      let absolute = bit_and opcode 0x08 != 0 in
      do
        (address, crossed) ← effective (if absolute then m_absolute else m_zero)
        value ← rb address
        modify λ c. record c { p = tested c.p c.a value }
        a ← get (λ c. c.a)
        wb address
            (if bit_and opcode 0x10 != 0 then u8 (bit_and value (not8 a)) else u8 (bit_or value a))
        ret (if absolute then 6 else 5)

  -- SMB and RMB.
  unfoldable pub bit_memory : ℕ → M S ℕ
  bit_memory opcode =
      let mask = u8 (1 <<< bit_and (opcode >>> 4) 7) in
      do
        address ← fetch8
        value ← rb address
        wb address (
            if bit_and opcode 0x80 != 0
            then u8 (bit_or value mask)
            else u8 (bit_and value (not8 mask)))
        ret 5

  unfoldable pub jsr : M S ℕ
  jsr = do
    target ← fetch16
    pc ← get (λ c. c.pc)
    let back = u16 (pc + 65535)
    push (u8 (back >>> 8))
    push (u8 back)
    modify λ c. record c { pc = target }
    ret 6

  unfoldable pub rti : M S ℕ
  rti = do
    v ← pop
    modify λ c. record c { p = pulled_status v }
    low ← pop
    high ← pop
    modify λ c. record c { pc = pair low high }
    ret 6

  unfoldable pub rts : M S ℕ
  rts = do
    low ← pop
    high ← pop
    modify λ c. record c { pc = u16 (bit_or low (high <<< 8) + 1) }
    ret 6

  -- The `switch` on the opcode.
  unfoldable pub execute : Instruction → ℕ → M S ℕ
  execute (op_logic mode base operation) op = logic mode base operation
  execute (op_arithmetic mode base subtract) op = arithmetic mode base subtract
  execute (op_load reg mode base) op = load reg mode base
  execute (op_comparison reg mode base) op = comparison reg mode base
  execute (op_store reg mode time) op = store reg mode time
  execute (op_rmw mode time operation) op = rmw mode time operation
  execute (op_acc_shift operation) op = acc_shift operation
  execute (op_bit mode base) op = bit_test mode base
  execute (op_branch mask wanted) op = do
    p ← get (λ c. c.p)
    branch (if wanted then flag p mask else not (flag p mask))
  execute (op_push reg) op = do v ← get (reg_value reg); push v; ret 3
  execute (op_pull reg) op = do v ← pop; modify (loaded reg v); ret 4
  execute (op_step reg up) op = do
    modify λ c. loaded reg (u8 (reg_value reg c + (if up then 1 else 255))) c
    ret 2
  execute (op_transfer from to) op = do modify λ c. loaded to (reg_value from c) c; ret 2
  execute (op_clear mask) op = do modify λ c. record c { p = u8 (bit_and c.p (not8 mask)) }; ret 2
  execute (op_set mask) op = do modify λ c. record c { p = u8 (bit_or c.p mask) }; ret 2
  execute op_bit_immediate op = do
    value ← fetch8
    modify λ c. record c { p = tested c.p c.a value }
    ret 2
  execute op_test_memory op = test_memory op
  execute op_bit_memory op = bit_memory op
  execute op_bit_branch op = bit_branch op
  execute op_bra op = branch true
  execute op_brk op = fetch8 >>= (λ _. interrupt 0xFFFE true)
  execute op_jsr op = jsr
  execute op_jmp op = do target ← fetch16; modify λ c. record c { pc = target }; ret 3
  execute op_jmp_indirect op = do
    base ← fetch16
    target ← read16 base
    modify λ c. record c { pc = target }
    ret 6
  execute op_jmp_indexed op = do
    base ← fetch16
    x ← get (λ c. c.x)
    target ← read16 (u16 (base + x))
    modify λ c. record c { pc = target }
    ret 6
  execute op_rti op = rti
  execute op_rts op = rts
  execute op_php op = do p ← get (λ c. c.p); push (u8 (bit_or p (k_break + k_reserved))); ret 3
  execute op_plp op = do v ← pop; modify λ c. record c { p = pulled_status v }; ret 4
  execute op_tsx op = do modify λ c. loaded reg_x c.s c; ret 2
  execute op_txs op = do modify λ c. record c { s = c.x }; ret 2
  execute op_nop op = ret 2
  execute op_wai op = do modify λ c. record c { waiting = true }; ret 3
  execute op_stp op = do modify λ c. record c { stopped = true }; ret 3
  execute op_invalid op = invalid_nop op

  -- An instruction, from its fetch on.
  unfoldable pub run_instruction : M S ℕ
  run_instruction = do
    opcode ← fetch8
    modify λ c. record c { instructions = u64 (c.instructions + 1) }
    used ← execute (decode opcode) opcode
    modify λ c. record c { p = u8 (bit_or c.p k_reserved) }
    modify (spend used)
    ret used

  unfoldable pub take_interrupt : ℕ → M S ℕ
  take_interrupt vector = do used ← interrupt vector false; modify (spend used); ret used

  unfoldable pub step : M S ℕ
  step c =
      let masked = flag c.p k_irq_disable in
      if c.stopped
      then (1, c)
      else if c.waiting && (not c.nmi_pending && not c.irq)
      then (1, c)
      else if c.waiting && (c.irq && masked)
      then (1, spend 1 (record c { waiting = false }))
      else if c.nmi_pending
      then take_interrupt 0xFFFA (record c { nmi_pending = false })
      else if c.irq && not masked
      then take_interrupt 0xFFFE c
      else run_instruction c
