-- ===== src/Iop.antt =====
-- The peripheral interface controller of the IIfx: core/src/machine/iifx/iop.cpp and iop.hpp, around the
-- processor of R65c02. An `Asic` is what the processor's bus reaches; `irq_line` is the level that
-- `updateCpuIrq` gave to the processor last, which the processor sees when its next step begins. The
-- callbacks to other chips are operations on a state outside. Of what they do to the controller in turn,
-- `onDmaWrite` sets the requests of the channels as the IIfx wires it (iifx.cpp, updateSccDmaRequests); the
-- requests that the serial chip changes while it is accessed are not in the model, which takes them with
-- the next call of `set_dma_request`. The hooks that trace, the counts of accesses and `hostMemoryAccess_`,
-- which only a trace reads, are left out.
pub mod Machine
pub mod Clocks
pub mod Window
pub mod Stack
pub mod Tests
use open_mac_for_linux.Base.{
  ℕ, zero, suc, ◌+◌, ◌-◌, ◌*◌, ◌/◌, ◌%◌, ◌^◌, bit_and, bit_or, Bool, true, false, not, ◌&&◌, ◌||◌,
  List, [], ◌∷◌, get_or, set, replicate, u8, u16, not8, ◌<<<◌, ◌>>>◌, ltb, leb, ◌==◌, ◌!=◌,
  if◌then◌else◌,
}
use open_mac_for_linux.R65c02.{Bus, R65c02, set_irq}
use open_mac_for_linux.R65c02 as R65c02
use open_mac_for_linux.R65c02.Execute.{step, u64}

abbrev pub k_bypass : ℕ
k_bypass = 0x01

abbrev pub k_auto_inc : ℕ
k_auto_inc = 0x02

abbrev pub k_run : ℕ
k_run = 0x04

abbrev pub k_irq_to_iop : ℕ
k_irq_to_iop = 0x08

abbrev pub k_int0 : ℕ
k_int0 = 0x10

abbrev pub k_int1 : ℕ
k_int1 = 0x20

abbrev pub k_hardware_int : ℕ
k_hardware_int = 0x40

abbrev pub k_dma_inactive : ℕ
k_dma_inactive = 0x80

abbrev pub k_main_cpu_hz : ℕ
k_main_cpu_hz = 40000000

abbrev pub k_pic_clock_hz : ℕ
k_pic_clock_hz = 15667200

abbrev pub k_iop_cpu_hz : ℕ
k_iop_cpu_hz = 1958400

-- The interrupts, by their bits.
abbrev pub dma1_interrupt : ℕ
dma1_interrupt = 1

abbrev pub peripheral_interrupt : ℕ
peripheral_interrupt = 3

abbrev pub host_interrupt : ℕ
host_interrupt = 4

abbrev pub timer_interrupt : ℕ
timer_interrupt = 5

pub record DmaChannel : Type 0 where
  pub control : ℕ
  pub map : ℕ
  pub count : ℕ
  pub request : Bool

-- The chips and wires outside. `on_dma_write` is told the channel, the register, the value and the
-- controls of both channels, which the machine reads back, and gives the requests it sets.
pub record Outside (P : Type 0) : Type 0 where
  pub bypass_read : ℕ → P → ℕ × P
  pub bypass_write : ℕ → ℕ → P → P
  pub peripheral_read : ℕ → P → ℕ × P
  pub peripheral_write : ℕ → ℕ → P → P
  pub gpio_read : P → ℕ × P
  pub gpio_write : ℕ → Bool → P → P
  pub on_interrupt_change : Bool → P → P
  pub on_dma_write : ℕ → ℕ → ℕ → ℕ → ℕ → P → List (ℕ × Bool) × P

-- `timer_ticks` is signed, a two's complement in 64 bits.
pub record Asic (P : Type 0) : Type 0 where
  pub ram : List ℕ
  pub address : ℕ
  pub status_bits : ℕ
  pub reset_held : Bool
  pub timer_latch : ℕ
  pub timer_ticks : ℕ
  pub timer_since_expiry : ℕ
  pub dma1 : DmaChannel
  pub dma2 : DmaChannel
  pub scc_control : ℕ
  pub io_control : ℕ
  pub timer_dpll_control : ℕ
  pub interrupt_mask : ℕ
  pub interrupt_flags : ℕ
  pub irq_line : Bool
  pub timer_expirations : ℕ
  pub dma_transfers : ℕ
  pub outside : P

-- A signed number below zero.
abbrev pub negative : ℕ → Bool
negative n = leb (2 ^ 63) n

abbrev pub has : ℕ → ℕ → Bool
has value mask = bit_and value mask != 0

abbrev pub high_byte : ℕ → ℕ → ℕ
high_byte word value = u16 (bit_or (bit_and word 0x00FF) (value <<< 8))

abbrev pub low_byte : ℕ → ℕ → ℕ
low_byte word value = u16 (bit_or (bit_and word 0xFF00) value)

module _ {P : Type 0} where
  abbrev pub bypassed : Asic P → Bool
  bypassed s = has s.scc_control k_bypass

  abbrev pub irq_asserted : Asic P → Bool
  irq_asserted s = has s.status_bits (k_int0 + k_int1)

  unfoldable pub status : Asic P → ℕ
  status s =
      if bypassed s
      then u8 (bit_or s.status_bits k_bypass)
      else u8 (bit_or (bit_and s.status_bits 0x3F) k_dma_inactive)

  abbrev pub update_cpu_irq : Asic P → Asic P
  update_cpu_irq s = record s { irq_line = bit_and s.interrupt_mask s.interrupt_flags != 0 }

  abbrev pub set_interrupt : ℕ → Asic P → Asic P
  set_interrupt which s =
      update_cpu_irq
        (record s { interrupt_flags = u8 (bit_or s.interrupt_flags (u8 (1 <<< which))) })

  abbrev pub clear_interrupt : ℕ → Asic P → Asic P
  clear_interrupt which s =
      update_cpu_irq
        (record s { interrupt_flags = u8 (bit_and s.interrupt_flags (not8 (u8 (1 <<< which)))) })

  unfoldable pub timer_read : ℕ → Asic P → ℕ × Asic P
  timer_read offset s =
      let running : ℕ =
        if negative s.timer_ticks
        then u16 (0xFFFF + 2 ^ 16 - u16 (u64 (s.timer_since_expiry + 4) / 8))
        else u16 ((s.timer_ticks - 4) / 8) in
      let count : ℕ = if bit_and offset 2 == 0 then running else s.timer_latch in
      (
        if has offset 1 then u8 (count >>> 8) else u8 count,
        if bit_and offset 2 == 0 && offset == 0 then clear_interrupt timer_interrupt s else s,
      )

  unfoldable pub timer_write : ℕ → ℕ → Asic P → Asic P
  timer_write offset value s =
      let latch = high_byte s.timer_latch value in
      if has offset 1
      then (if offset == 1
          then record (clear_interrupt timer_interrupt (record s { timer_latch = latch })) {
            timer_ticks = latch * 8 + 12;
            timer_since_expiry = 0;
          }
          else record s { timer_latch = latch })
      else record s { timer_latch = low_byte s.timer_latch value }

  -- A channel, the first where the index is 0.
  abbrev pub channel : ℕ → Asic P → DmaChannel
  channel index s = if index == 0 then s.dma1 else s.dma2

  abbrev pub with_channel : ℕ → DmaChannel → Asic P → Asic P
  with_channel index c s = if index == 0 then record s { dma1 = c } else record s { dma2 = c }

  unfoldable pub dma_read : ℕ → Asic P → ℕ
  dma_read offset s =
      let c = channel (bit_and (offset >>> 3) 1) s in
      let part = bit_and offset 7 in
      if part == 0
      then c.control
      else if part == 1
      then u8 c.map
      else if part == 2
      then u8 (c.map >>> 8)
      else if part == 3
      then u8 c.count
      else if part == 4
      then u8 (bit_and (c.count >>> 8) 7)
      else 0

  unfoldable pub write_channel : ℕ → ℕ → Asic P → Asic P
  write_channel offset value s =
      let index = bit_and (offset >>> 3) 1 in
      let c = channel index s in
      let part = bit_and offset 7 in
      if part == 0
      then with_channel index
          (record c { control = u8 (bit_or (bit_and value (not8 0x02)) (bit_and c.control 0x02)) })
          s
      else if part == 1
      then with_channel index (record c { map = low_byte c.map value }) s
      else if part == 2
      then with_channel index (record c { map = high_byte c.map value }) s
      else if part == 3
      then with_channel index (record c { count = u16 (bit_or (bit_and c.count 0x0700) value) }) s
      else if part == 4
      then with_channel index (record c { count = high_byte c.count (bit_and value 7) }) s
      else s

  unfoldable pub set_dma_request : ℕ → Bool → Asic P → Asic P
  set_dma_request index level s =
      let c = channel index s in
      let control =
        if level then u8 (bit_or c.control 0x02) else u8 (bit_and c.control (not8 0x02)) in
      if ltb index 2
      then with_channel index (record c { request = level; control = control }) s
      else s

  -- Requests that a callback makes, one after the other.
  unfoldable pub requested : List (ℕ × Bool) → Asic P → Asic P
  requested [] s = s
  requested ((index, level) ∷ rest) s = requested rest (set_dma_request index level s)

module _ {P : Type 0} ⦃outer : Outside P⦄ where
  abbrev pub changed : Asic P → Asic P
  changed s = record s { outside = outer.on_interrupt_change (irq_asserted s) s.outside }

  -- A read with an effect outside.
  abbrev pub read_outside : (P → ℕ × P) → Asic P → ℕ × Asic P
  read_outside f s = let (v, p) = f s.outside in (v, record s { outside = p })

  -- The callback sees the channels as they are after the write, and may set their requests.
  unfoldable pub dma_write : ℕ → ℕ → Asic P → Asic P
  dma_write offset value s =
      let index = bit_and (offset >>> 3) 1 in
      let written = write_channel offset value s in
      let (requests, p) =
        outer.on_dma_write index (bit_and offset 7) value written.dma1.control written.dma2.control
          written.outside in
      requested requests (record written { outside = p })

  unfoldable pub read_register : ℕ → Asic P → ℕ × Asic P
  read_register address s =
      if address == 0xF030
      then (s.scc_control, s)
      else if address == 0xF031
      then (s.io_control, s)
      else if address == 0xF032
      then (let (v, s') = read_outside outer.gpio_read s in
          (u8 (bit_or s.timer_dpll_control (bit_and v 3 <<< 2)), s'))
      else if address == 0xF033
      then (s.interrupt_mask, s)
      else if address == 0xF034
      then (u8 (bit_and s.interrupt_flags s.interrupt_mask), s)
      else if address == 0xF035
      then (u8 (bit_and s.status_bits (k_int0 + k_int1) >>> 2), s)
      else if leb 0xF040 address && leb address 0xF04F
      then (if bypassed s
          then (0, s)
          else read_outside (outer.peripheral_read (bit_and address 0x0F)) s)
      else (0xFF, s)

  unfoldable pub cpu_read : ℕ → Asic P → ℕ × Asic P
  cpu_read address s =
      if ltb address 0x8000
      then (get_or s.ram address 0, s)
      else if ltb address 0xF000 || leb 0xF800 address
      then (get_or s.ram (address - 0x8000) 0, s)
      else if leb 0xF010 address && leb address 0xF013
      then timer_read (address - 0xF010) s
      else if leb 0xF020 address && leb address 0xF02F
      then (dma_read (address - 0xF020) s, s)
      else read_register address s

  unfoldable pub write_register : ℕ → ℕ → Asic P → Asic P
  write_register address value s =
      if address == 0xF030
      then (let s0 = record s { scc_control = value } in
          let s1 =
            if not (bypassed s0) && has s0.status_bits k_hardware_int
            then set_interrupt peripheral_interrupt s0
            else clear_interrupt peripheral_interrupt s0 in
          record s1 { outside = outer.gpio_write 1 (has value 0x80) s1.outside })
      else if address == 0xF031
      then record s { io_control = value }
      else if address == 0xF032
      then record s {
        timer_dpll_control = u8 (bit_or (bit_and s.timer_dpll_control 0xA0) (bit_and value 0x53));
        outside = outer.gpio_write 0 (has value 0x02) s.outside;
      }
      else if address == 0xF033
      then update_cpu_irq (record s { interrupt_mask = bit_and value 0x3E })
      else if address == 0xF034
      then update_cpu_irq
          (record s { interrupt_flags = u8 (bit_and s.interrupt_flags (not8 value)) })
      else if address == 0xF035
      then changed (record s { status_bits = u8 (bit_or s.status_bits (bit_and value 0x0C <<< 2)) })
      else if leb 0xF040 address && (leb address 0xF04F && not (bypassed s))
      then record s { outside = outer.peripheral_write (bit_and address 0x0F) value s.outside }
      else s

  unfoldable pub cpu_write : ℕ → ℕ → Asic P → Asic P
  cpu_write address value s =
      if ltb address 0x8000
      then record s { ram = set s.ram address value }
      else if ltb address 0xF000 || leb 0xF800 address
      then record s { ram = set s.ram (address - 0x8000) value }
      else if leb 0xF010 address && leb address 0xF013
      then timer_write (address - 0xF010) value s
      else if leb 0xF020 address && leb address 0xF02F
      then dma_write (address - 0xF020) value s
      else write_register address value s

  -- The processor's bus.
  instance pub program_bus : Bus (Asic P)
  program_bus = record { read = cpu_read; write = cpu_write }
