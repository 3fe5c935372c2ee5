-- ===== src/Cpu/Machine.antt =====
-- The processor's state, its accesses to the bus, and its exceptions.
-- The ring of recent addresses and the hooks `onException`, `onTrap`, `onInterrupt`, `onStep` only
-- report to a debugger and are left out.
pub mod Banking
pub mod DoubleFault
pub mod Stack
use open_mac_for_linux.Base.{
  ℕ, ◌+◌, ◌-◌, ◌*◌, ◌^◌, bit_and, bit_or, Bool, true, false, ◌||◌, Option, none, some, List, u16,
  u32, not16, sub32, ◌<<<◌, ◌>>>◌, ◌!=◌, if◌then◌else◌, same, set, get_or,
}
use open_mac_for_linux.Cpu.Flags.{k_s, k_t, k_sr_mask, flag}

-- The interface `IBus`: addresses have 24 bits; a read may change the device that answers it.
pub record Bus (S : Type 0) : Type 0 where
  pub read8 : ℕ → S → ℕ × S
  pub read16 : ℕ → S → ℕ × S
  pub write8 : ℕ → ℕ → S → S
  pub write16 : ℕ → ℕ → S → S

-- `ea_undo_reg` is `none` for the source's -1.
pub record Cpu (S : Type 0) : Type 0 where
  pub d : List ℕ
  pub a : List ℕ
  pub usp : ℕ
  pub ssp : ℕ
  pub pc : ℕ
  pub sr : ℕ
  pub stopped : Bool
  pub halted : Bool
  pub irq_level : ℕ
  pub instr_start : ℕ
  pub ir : ℕ
  pub ea_undo_reg : Option ℕ
  pub ea_undo_val : ℕ
  pub ea_undo_kind : ℕ
  pub ea_fault_cycles : ℕ
  pub world : S

-- The exception that an odd access throws. `pc_bias` is a 32-bit word.
pub record AddressError : Type 0 where
  pub addr : ℕ
  pub is_read : Bool
  pub instruction : Bool
  pub pc_bias : ℕ
  pub fetch_extra : ℕ

abbrev pub address_error : ℕ → Bool → Bool → ℕ → AddressError
address_error addr is_read instruction extra = record {
  addr = addr;
  is_read = is_read;
  instruction = instruction;
  pc_bias = 2 ^ 32 - 2;
  fetch_extra = extra;
}

-- A fault keeps what the instruction has done so far.
pub data Outcome (S A : Type 0) : Type 0 where
  ok : A → Cpu S → Outcome S A
  fault : AddressError → Cpu S → Outcome S A

abbrev pub M : Type 0 → Type 0 → Type 0
M S A = Cpu S → Outcome S A

infixl 5 ◌>>=◌ ◌>>◌
abbrev pub ◌>>=◌ : {S A B : Type 0} → M S A → (A → M S B) → M S B
◌>>=◌ m f c = elim (m c) [ ok x c' ↦ f x c' | fault e c' ↦ fault e c' ]

abbrev pub ◌>>◌ : {S B : Type 0} → M S (Unit {0}) → M S B → M S B
m >> k = m >>= λ _. k

abbrev pub ret : {S A : Type 0} → A → M S A
ret x c = ok x c

abbrev pub get : {S A : Type 0} → (Cpu S → A) → M S A
get f c = ok (f c) c

abbrev pub modify : {S : Type 0} → (Cpu S → Cpu S) → M S (Unit {0})
modify f c = ok tt (f c)

abbrev pub throw : {S A : Type 0} → AddressError → M S A
throw e c = fault e c

abbrev pub d_reg : {S : Type 0} → ℕ → Cpu S → ℕ
d_reg i c = get_or c.d i 0

abbrev pub a_reg : {S : Type 0} → ℕ → Cpu S → ℕ
a_reg i c = get_or c.a i 0

abbrev pub set_d : {S : Type 0} → ℕ → ℕ → Cpu S → Cpu S
set_d i v c = record c { d = set c.d i v }

abbrev pub set_a : {S : Type 0} → ℕ → ℕ → Cpu S → Cpu S
set_a i v c = record c { a = set c.a i v }

abbrev pub with_sr : {S : Type 0} → (ℕ → ℕ) → Cpu S → Cpu S
with_sr f c = record c { sr = f c.sr }

abbrev pub is_odd : ℕ → Bool
is_odd addr = bit_and addr 1 != 0

unfoldable pub set_irq_level : {S : Type 0} → ℕ → Cpu S → Cpu S
set_irq_level level c = record c { irq_level = level }

pub usp_value : {S : Type 0} → Cpu S → ℕ
usp_value c = if flag c.sr k_s then c.usp else a_reg 7 c

unfoldable pub ssp_value : {S : Type 0} → Cpu S → ℕ
ssp_value c = if flag c.sr k_s then a_reg 7 c else c.ssp

pub set_sr : {S : Type 0} → ℕ → Cpu S → Cpu S
set_sr value0 c =
    let value = bit_and value0 k_sr_mask in
    let was_s = flag c.sr k_s in
    let now_s = flag value k_s in
    let banked =
      if same was_s now_s
      then c
      else if was_s
      then set_a 7 c.usp (record c { ssp = a_reg 7 c })
      else set_a 7 c.ssp (record c { usp = a_reg 7 c }) in
    record banked { sr = value }

unfoldable pub set_ccr : {S : Type 0} → ℕ → Cpu S → Cpu S
set_ccr value c = record c { sr = u16 (bit_or (bit_and c.sr 0xFF00) (bit_and value 0x1F)) }

-- After a data access.
abbrev pub accessed : {S : Type 0} → ℕ → Cpu S → Cpu S
accessed cycles c = record c { ea_undo_reg = none; ea_fault_cycles = cycles }

-- Supervisor mode without trace.
abbrev pub supervisor : ℕ → ℕ
supervisor sr = u16 (bit_and (bit_or sr k_s) (not16 k_t))

-- The status word of a group-0 frame.
unfoldable pub fault_status : ℕ → Bool → AddressError → ℕ
fault_status ir was_s e =
    let code = if e.instruction then (if was_s then 6 else 2) else if was_s then 5 else 1 in
    let status = bit_or (bit_and ir 0xFFE0) code in
    let status' = if e.instruction then bit_or status 0x08 else status in
    if e.is_read then bit_or status' 0x10 else status'

module _ {S : Type 0} ⦃bus : Bus S⦄ where
  abbrev pub bus_read8 : ℕ → M S ℕ
  bus_read8 addr c =
      let (v, w) = bus.read8 (bit_and addr 0xFFFFFF) c.world in ok v (record c { world = w })

  abbrev pub bus_read16 : ℕ → M S ℕ
  bus_read16 addr c =
      let (v, w) = bus.read16 (bit_and addr 0xFFFFFF) c.world in ok v (record c { world = w })

  abbrev pub bus_write8 : ℕ → ℕ → M S (Unit {0})
  bus_write8 addr v = modify λ c. record c { world = bus.write8 (bit_and addr 0xFFFFFF) v c.world }

  abbrev pub bus_write16 : ℕ → ℕ → M S (Unit {0})
  bus_write16 addr v =
      modify λ c. record c { world = bus.write16 (bit_and addr 0xFFFFFF) v c.world }

  unfoldable pub reset : M S (Unit {0})
  reset = do
    modify λ c. record c { sr = 0x2700; stopped = false; halted = false }
    sp_high ← bus_read16 0
    sp_low ← bus_read16 2
    modify λ c. record c { ssp = bit_or (u32 (sp_high <<< 16)) sp_low }
    pc_high ← bus_read16 4
    pc_low ← bus_read16 6
    modify λ c. record c { pc = bit_or (u32 (pc_high <<< 16)) pc_low }
    modify λ c. set_a 7 c.ssp c

  unfoldable pub rd8 : ℕ → M S ℕ
  rd8 addr = do v ← bus_read8 addr; modify (accessed 4); ret v

  unfoldable pub rd16 : ℕ → M S ℕ
  rd16 addr =
      if is_odd addr
      then throw (address_error addr true false 0)
      else (do v ← bus_read16 addr; modify (accessed 4); ret v)

  pub rd32 : ℕ → M S ℕ
  rd32 addr = if is_odd addr then throw (address_error addr true false 0) else (do
    high ← bus_read16 addr
    low ← bus_read16 (u32 (addr + 2))
    modify (accessed 8)
    ret (bit_or (u32 (high <<< 16)) low))

  unfoldable pub wr8 : ℕ → ℕ → M S (Unit {0})
  wr8 addr v = do bus_write8 addr v; modify (accessed 4)

  unfoldable pub wr16 : ℕ → ℕ → M S (Unit {0})
  wr16 addr v =
      if is_odd addr
      then throw (address_error addr false false 0)
      else (do bus_write16 addr v; modify (accessed 4))

  pub wr32 : ℕ → ℕ → M S (Unit {0})
  wr32 addr v = if is_odd addr then throw (address_error addr false false 0) else (do
    bus_write16 addr (u16 (v >>> 16))
    bus_write16 (u32 (addr + 2)) (bit_and v 0xFFFF)
    modify (accessed 8))

  unfoldable pub fetch16 : M S ℕ
  fetch16 = do
    pc ← get (λ c. c.pc)
    if is_odd pc
        then throw (address_error pc true true 0)
        else (do v ← bus_read16 pc; modify λ c. record c { pc = u32 (c.pc + 2) }; ret v)

  unfoldable pub fetch32 : M S ℕ
  fetch32 = do high ← fetch16; low ← fetch16; ret (bit_or (u32 (high <<< 16)) low)

  unfoldable pub push16 : ℕ → M S (Unit {0})
  push16 v = do modify λ c. set_a 7 (sub32 (a_reg 7 c) 2) c; sp ← get (a_reg 7); wr16 sp v

  pub push32 : ℕ → M S (Unit {0})
  push32 v = do modify λ c. set_a 7 (sub32 (a_reg 7 c) 4) c; sp ← get (a_reg 7); wr32 sp v

  unfoldable pub pop16 : M S ℕ
  pop16 = do sp ← get (a_reg 7); v ← rd16 sp; modify λ c. set_a 7 (u32 (a_reg 7 c + 2)) c; ret v

  pub pop32 : M S ℕ
  pop32 = do sp ← get (a_reg 7); v ← rd32 sp; modify λ c. set_a 7 (u32 (a_reg 7 c + 4)) c; ret v

  -- The new program counter of an exception; an odd one halts.
  abbrev pub load_vector : ℕ → M S (Unit {0})
  load_vector addr = do
    target ← rd32 addr
    modify λ c. record c { pc = target; halted = c.halted || is_odd target }

  unfoldable pub exception : ℕ → ℕ → M S ℕ
  exception vector cycles = do
    old ← get (λ c. c.sr)
    modify (set_sr (supervisor old))
    pc ← get (λ c. c.pc)
    push32 pc
    push16 old
    load_vector (vector * 4)
    ret cycles

  unfoldable pub do_interrupt : ℕ → M S ℕ
  do_interrupt level = do
    modify λ c. record c { stopped = false }
    old ← get (λ c. c.sr)
    modify (set_sr (supervisor old))
    modify λ c. record c { sr = u16 (bit_or (bit_and c.sr (not16 0x0700)) (level <<< 8)) }
    pc ← get (λ c. c.pc)
    push32 pc
    push16 old
    load_vector ((24 + level) * 4)
    ret 44

  -- A fault on a write takes back the register step of (An)+.
  abbrev pub undo_step : AddressError → Cpu S → Cpu S
  undo_step e c = elim c.ea_undo_reg [
    | none ↦ c
    | some reg ↦
        let restored = if e.is_read then c else set_a reg c.ea_undo_val c in
        record restored { ea_undo_reg = none; ea_undo_kind = 0 }
  ]

  pub address_error_frame : AddressError → M S ℕ
  address_error_frame e = do
    modify (undo_step e)
    old ← get (λ c. c.sr)
    modify (set_sr (supervisor old))
    ir ← get (λ c. c.ir)
    let status = fault_status ir (flag old k_s) e
    pc ← get (λ c. c.pc)
    cycles ← get (λ c. c.ea_fault_cycles)
    let pushed = if e.instruction then sub32 pc 4 else u32 (pc + e.pc_bias)
    let before = if e.instruction then e.fetch_extra else cycles
    modify λ c. record c { ea_fault_cycles = 0 }
    push32 pushed
    push16 old
    push16 ir
    push32 e.addr
    push16 status
    load_vector (3 * 4)
    ret (50 + before)

  -- A second fault stops the processor until it is reset.
  pub enter_address_error : AddressError → Cpu S → ℕ × Cpu S
  enter_address_error e c = elim (address_error_frame e c) [
    | ok cycles c' ↦ (cycles, c')
    | fault _ c' ↦ (4, record c' { halted = true })
  ]
