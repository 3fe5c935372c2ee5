-- ===== src/R65c02.antt =====
-- The R65C02 of core/include/openmac/r65c02.hpp and core/src/r65c02.cpp: its state, its bus accesses,
-- its arithmetic, its addressing modes. The history of program counters, the count of BRK and the last
-- opcode, which only a debugger reads, are left out.
pub mod Matrix
pub mod Execute
pub mod Arithmetic
pub mod Stack
pub mod Invariant
pub mod Timing
pub mod Tests
use open_mac_for_linux.Base.{
  ℕ, ◌+◌, ◌-◌, ◌*◌, ◌^◌, bit_and, bit_or, bit_xor, Bool, true, false, not, ◌&&◌, ◌||◌, List, [],
  ◌∷◌, u8, u16, u32, sub32, not8, not32, ◌<<<◌, ◌>>>◌, ltb, leb, ◌==◌, ◌!=◌, if◌then◌else◌,
}

abbrev pub k_carry : ℕ
k_carry = 0x01

abbrev pub k_zero : ℕ
k_zero = 0x02

abbrev pub k_irq_disable : ℕ
k_irq_disable = 0x04

abbrev pub k_decimal : ℕ
k_decimal = 0x08

abbrev pub k_break : ℕ
k_break = 0x10

abbrev pub k_reserved : ℕ
k_reserved = 0x20

abbrev pub k_overflow : ℕ
k_overflow = 0x40

abbrev pub k_negative : ℕ
k_negative = 0x80

pub data Mode : Type 0 where
  m_immediate m_zero m_zero_x m_zero_y m_absolute m_absolute_x m_absolute_y m_indirect_x
        m_indirect_y m_zero_indirect :
      Mode

pub data Reg : Type 0 where
  reg_a reg_x reg_y reg_none : Reg

-- An instruction with its operand's mode, its cycles and the choices of its helper.
pub data Instruction : Type 0 where
  op_logic : Mode → ℕ → ℕ → Instruction
  op_arithmetic : Mode → ℕ → Bool → Instruction
  op_load : Reg → Mode → ℕ → Instruction
  op_comparison : Reg → Mode → ℕ → Instruction
  op_store : Reg → Mode → ℕ → Instruction
  op_rmw : Mode → ℕ → ℕ → Instruction
  op_acc_shift : ℕ → Instruction
  op_bit : Mode → ℕ → Instruction
  op_branch : ℕ → Bool → Instruction
  op_push op_pull : Reg → Instruction
  op_step : Reg → Bool → Instruction
  op_transfer : Reg → Reg → Instruction
  op_clear op_set : ℕ → Instruction
  op_bit_immediate op_test_memory op_bit_memory op_bit_branch op_bra op_brk op_jsr op_jmp
        op_jmp_indirect op_jmp_indexed op_rti op_rts op_php op_plp op_tsx op_txs op_nop op_wai
        op_stp op_invalid :
      Instruction

-- The two functions that the chip around it supplies; where there is no `read`, every byte is 0xFF.
pub record Bus (S : Type 0) : Type 0 where
  pub read : ℕ → S → ℕ × S
  pub write : ℕ → ℕ → S → S

pub record R65c02 (S : Type 0) : Type 0 where
  pub a : ℕ
  pub x : ℕ
  pub y : ℕ
  pub s : ℕ
  pub p : ℕ
  pub pc : ℕ
  pub waiting : Bool
  pub stopped : Bool
  pub irq : Bool
  pub nmi_line : Bool
  pub nmi_pending : Bool
  pub instructions : ℕ
  pub cycles : ℕ
  pub world : S

-- An operation returns its result and the new processor.
abbrev pub M : Type 0 → Type 0 → Type 0
M S A = R65c02 S → A × R65c02 S

infixl 5 ◌>>=◌ ◌>>◌
abbrev pub ◌>>=◌ : {S A B : Type 0} → M S A → (A → M S B) → M S B
◌>>=◌ m f c = let (x, c') = m c in f x c'

abbrev pub ◌>>◌ : {S B : Type 0} → M S (Unit {0}) → M S B → M S B
m >> k = m >>= λ _. k

abbrev pub ret : {S A : Type 0} → A → M S A
ret v c = (v, c)

abbrev pub get : {S A : Type 0} → (R65c02 S → A) → M S A
get f c = (f c, c)

abbrev pub modify : {S : Type 0} → (R65c02 S → R65c02 S) → M S (Unit {0})
modify f c = (tt, f c)

abbrev pub flag : ℕ → ℕ → Bool
flag p f = bit_and p f != 0

-- A byte after another, the low one first.
abbrev pub pair : ℕ → ℕ → ℕ
pair low high = u16 (bit_or low (high <<< 8))

unfoldable pub set_nmi : {S : Type 0} → Bool → R65c02 S → R65c02 S
set_nmi level c = record c {
  nmi_pending = if level && not c.nmi_line then true else c.nmi_pending;
  nmi_line = level;
}

unfoldable pub set_irq : {S : Type 0} → Bool → R65c02 S → R65c02 S
set_irq level c = record c { irq = level }

-- The status with a value's sign and whether it is zero.
unfoldable pub nz : ℕ → ℕ → ℕ
nz value p = u8 (
    bit_or (bit_or (bit_and p (not8 (k_negative + k_zero))) (if value == 0 then k_zero else 0))
      (bit_and value k_negative))

abbrev pub set_nz : {S : Type 0} → ℕ → R65c02 S → R65c02 S
set_nz value c = record c { p = nz value c.p }

unfoldable pub compare : {S : Type 0} → ℕ → ℕ → R65c02 S → R65c02 S
compare lhs rhs c =
    let p = u8 (bit_or (bit_and c.p (not8 k_carry)) (if leb rhs lhs then k_carry else 0)) in
    record c { p = nz (u8 (lhs + 256 - rhs)) p }

-- The status with a carry and an overflow.
abbrev pub carry_overflow : ℕ → Bool → Bool → ℕ
carry_overflow p carry overflow = u8 (
    bit_or (bit_or (bit_and p (not8 (k_carry + k_overflow))) (if carry then k_carry else 0))
      (if overflow then k_overflow else 0))

-- The accumulator and the status after an addition, before the sign and zero are set.
unfoldable pub added : ℕ → ℕ → ℕ → ℕ × ℕ
added a p value =
    let carry = if flag p k_carry then 1 else 0 in
    let binary = a + value + carry in
    let overflow = bit_and (bit_and (not32 (bit_xor a value)) (bit_xor a binary)) 0x80 != 0 in
    let low0 = bit_and a 0x0F + bit_and value 0x0F + carry in
    let low = if ltb 9 low0 then low0 + 6 else low0 in
    let result0 = bit_and a 0xF0 + bit_and value 0xF0 + low in
    let result = if ltb 0x99 result0 then result0 + 0x60 else result0 in
    if flag p k_decimal
    then (u8 result, carry_overflow p (ltb 0xFF result) overflow)
    else (u8 binary, carry_overflow p (ltb 0xFF binary) overflow)

unfoldable pub adc : {S : Type 0} → ℕ → R65c02 S → R65c02 S
adc value c = let (r, p) = added c.a c.p value in record c { a = r; p = nz r p }

-- An `int` below zero.
abbrev pub below_zero : ℕ → Bool
below_zero v = leb (2 ^ 31) v

-- The same for a subtraction; an `int` is its two's complement.
unfoldable pub subtracted : ℕ → ℕ → ℕ → ℕ × ℕ
subtracted a p value =
    let borrow = if flag p k_carry then 0 else 1 in
    let binary = sub32 (sub32 a value) borrow in
    let overflow = bit_and (bit_and (bit_xor a value) (bit_xor a binary)) 0x80 != 0 in
    let low0 = sub32 (sub32 (bit_and a 0x0F) (bit_and value 0x0F)) borrow in
    let high0 = sub32 (a >>> 4) (value >>> 4) in
    let low = if below_zero low0 then sub32 low0 6 else low0 in
    let high1 = if below_zero low0 then sub32 high0 1 else high0 in
    let high = if below_zero high1 then sub32 high1 6 else high1 in
    let decimal = u8 (bit_or (bit_and (u32 (high <<< 4)) 0xF0) (bit_and low 0x0F)) in
    (
      if flag p k_decimal then decimal else u8 binary,
      carry_overflow p (not (below_zero binary)) overflow,
    )

unfoldable pub sbc : {S : Type 0} → ℕ → R65c02 S → R65c02 S
sbc value c = let (r, p) = subtracted c.a c.p value in record c { a = r; p = nz r p }

-- Whether two addresses lie in different pages.
abbrev pub crosses : ℕ → ℕ → Bool
crosses base address = bit_and base 0xFF00 != bit_and address 0xFF00

-- A signed byte as a 16-bit word.
abbrev pub displacement : ℕ → ℕ
displacement d = if ltb d 0x80 then d else d + 0xFF00

abbrev pub k_page_cost : Bool → ℕ
k_page_cost crossed = if crossed then 1 else 0

abbrev pub indexed : ℕ → ℕ → ℕ × Bool
indexed base index = let address = u16 (base + index) in (address, crosses base address)

abbrev pub one_of : ℕ → List ℕ → Bool
one_of n [] = false
one_of n (m ∷ ms) = n == m || one_of n ms

module _ {S : Type 0} ⦃bus : Bus S⦄ where
  unfoldable pub rb : ℕ → M S ℕ
  rb address c = let (v, w) = bus.read address c.world in (v, record c { world = w })

  unfoldable pub wb : ℕ → ℕ → M S (Unit {0})
  wb address value = modify λ c. record c { world = bus.write address value c.world }

  unfoldable pub fetch8 : M S ℕ
  fetch8 = do
    pc ← get (λ c. c.pc)
    value ← rb pc
    modify λ c. record c { pc = u16 (c.pc + 1) }
    ret value

  unfoldable pub fetch16 : M S ℕ
  fetch16 = do low ← fetch8; high ← fetch8; ret (pair low high)

  unfoldable pub read16 : ℕ → M S ℕ
  read16 address = do low ← rb address; high ← rb (u16 (address + 1)); ret (pair low high)

  unfoldable pub push : ℕ → M S (Unit {0})
  push value = do
    s ← get (λ c. c.s)
    wb (u16 (bit_or 0x0100 s)) value
    modify λ c. record c { s = u8 (c.s + 255) }

  unfoldable pub pop : M S ℕ
  pop = do modify λ c. record c { s = u8 (c.s + 1) }; s ← get (λ c. c.s); rb (u16 (bit_or 0x0100 s))

  unfoldable pub reset : M S (Unit {0})
  reset = do
    modify λ c. record c {
      a = 0;
      x = 0;
      y = 0;
      s = 0xFF;
      p = k_reserved + k_irq_disable;
      waiting = false;
      stopped = false;
      irq = false;
      nmi_line = false;
      nmi_pending = false;
    }
    target ← read16 0xFFFC
    modify λ c. record c { pc = target; instructions = 0; cycles = 0 }

  -- A word in the zero page, which wraps.
  unfoldable pub zero_word : ℕ → M S ℕ
  zero_word pointer = do low ← rb pointer; high ← rb (u8 (pointer + 1)); ret (pair low high)

  -- The address of an operand, and whether a page was crossed.
  unfoldable pub effective : Mode → M S (ℕ × Bool)
  effective m_immediate = do
    pc ← get (λ c. c.pc)
    modify λ c. record c { pc = u16 (c.pc + 1) }
    ret (pc, false)
  effective m_zero = do address ← fetch8; ret (address, false)
  effective m_zero_x = do base ← fetch8; x ← get (λ c. c.x); ret (u8 (base + x), false)
  effective m_zero_y = do base ← fetch8; y ← get (λ c. c.y); ret (u8 (base + y), false)
  effective m_absolute = do address ← fetch16; ret (address, false)
  effective m_absolute_x = do base ← fetch16; x ← get (λ c. c.x); ret (indexed base x)
  effective m_absolute_y = do base ← fetch16; y ← get (λ c. c.y); ret (indexed base y)
  effective m_indirect_x = do
    base ← fetch8
    x ← get (λ c. c.x)
    address ← zero_word (u8 (base + x))
    ret (address, false)
  effective m_indirect_y = do
    pointer ← fetch8
    base ← zero_word pointer
    y ← get (λ c. c.y)
    ret (indexed base y)
  effective m_zero_indirect = do pointer ← fetch8; address ← zero_word pointer; ret (address, false)

  unfoldable pub operand : Mode → M S (ℕ × Bool)
  operand mode = do (address, crossed) ← effective mode; value ← rb address; ret (value, crossed)

  unfoldable pub interrupt : ℕ → Bool → M S ℕ
  interrupt vector software = do
    pc ← get (λ c. c.pc)
    push (u8 (pc >>> 8))
    push (u8 pc)
    p ← get (λ c. c.p)
    push (
        u8
          (bit_or (bit_or (bit_and p (not8 k_break)) k_reserved) (if software then k_break else 0)))
    modify λ c. record c {
      p = u8 (bit_and (bit_or c.p (k_irq_disable + k_reserved)) (not8 k_decimal));
    }
    target ← read16 vector
    modify λ c. record c { pc = target; waiting = false }
    ret 7

  unfoldable pub branch_to : ℕ → ℕ → M S ℕ
  branch_to base d = do
    old ← get (λ c. c.pc)
    let target = u16 (old + displacement d)
    modify λ c. record c { pc = target }
    ret (base + k_page_cost (bit_and (bit_xor old target) 0xFF00 != 0))

  unfoldable pub branch : Bool → M S ℕ
  branch take = do d ← fetch8; if take then branch_to 3 d else ret 2

  unfoldable pub bit_branch : ℕ → M S ℕ
  bit_branch opcode = do
    zero_page ← fetch8
    d ← fetch8
    let mask = u8 (1 <<< bit_and (opcode >>> 4) 7)
    v ← rb zero_page
    let is_set = bit_and v mask != 0
    let take = if bit_and opcode 0x80 != 0 then is_set else not is_set
    if take then branch_to 7 d else ret 5

  unfoldable pub invalid_nop : ℕ → M S ℕ
  invalid_nop opcode =
      if one_of opcode (0x02 ∷ 0x22 ∷ 0x42 ∷ 0x62 ∷ 0x82 ∷ 0xC2 ∷ 0xE2 ∷ [])
      then fetch8 >>= (λ _. ret 2)
      else if opcode == 0x44
      then fetch8 >>= (λ _. ret 3)
      else if one_of opcode (0x54 ∷ 0xD4 ∷ 0xF4 ∷ [])
      then fetch8 >>= (λ _. ret 4)
      else if opcode == 0x5C
      then fetch16 >>= (λ _. ret 8)
      else if one_of opcode (0xDC ∷ 0xFC ∷ [])
      then fetch16 >>= (λ _. ret 4)
      else ret 1
