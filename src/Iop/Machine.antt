-- ===== src/Iop/Machine.antt =====
-- The controller with its processor: the host's window, the interrupts, DMA, the timer and `tick` of
-- core/src/machine/iifx/iop.cpp.
use open_mac_for_linux.Base.{
  ℕ, zero, suc, ◌+◌, ◌-◌, ◌*◌, ◌/◌, ◌%◌, ◌^◌, bit_and, bit_or, Bool, true, false, not, ◌&&◌, ◌||◌,
  replicate, u8, u16, not8, ◌>>>◌, ltb, leb, ◌==◌, ◌!=◌, if◌then◌else◌,
}
use open_mac_for_linux.R65c02.{R65c02, set_irq}
use open_mac_for_linux.R65c02 as R65c02
use open_mac_for_linux.R65c02.Execute.{step, u64}
use open_mac_for_linux.Iop.{
  k_auto_inc, k_run, k_irq_to_iop, k_int0, k_int1, k_hardware_int, k_dma_inactive, k_main_cpu_hz,
  k_pic_clock_hz, k_iop_cpu_hz, dma1_interrupt, peripheral_interrupt, host_interrupt,
  timer_interrupt, DmaChannel, Outside, Asic, negative, has, high_byte, low_byte, bypassed, status,
  update_cpu_irq, set_interrupt, clear_interrupt, channel, with_channel, changed, read_outside,
  cpu_read, cpu_write, program_bus,
}

-- The clocks count as the source's do; `cpu_phase` is signed, a two's complement in 64 bits.
pub record IifxIop (P : Type 0) : Type 0 where
  pub cpu : R65c02 (Asic P)
  pub cpu_phase : ℕ
  pub cpu_cycles : ℕ
  pub asic_phase : ℕ
  pub dma_divider : ℕ

abbrev pub idle_channel : DmaChannel
idle_channel = record { control = 0; map = 0; count = 0; request = false }

-- The status after the host has written it.
unfoldable pub new_status : ℕ → ℕ → ℕ
new_status value old =
    let a = if has value k_int0 then u8 (bit_and old (not8 k_int0)) else old in
    let b = if has value k_int1 then u8 (bit_and a (not8 k_int1)) else a in
    u8 (
      bit_or (bit_and b (k_int0 + k_int1 + k_hardware_int + k_dma_inactive))
        (bit_and value (k_auto_inc + k_run)))

-- Whether the clock has a cycle of the processor to run.
abbrev pub runs : ℕ → Bool
runs phase = not (negative phase) && leb k_main_cpu_hz phase

-- The phase after an instruction.
abbrev pub spent : ℕ → ℕ → ℕ
spent used phase = u64 (phase + 2 ^ 64 - used * k_main_cpu_hz)

module _ {P : Type 0} where
  abbrev pub asic : IifxIop P → Asic P
  asic i = i.cpu.world

  abbrev pub with_asic : Asic P → IifxIop P → IifxIop P
  with_asic s i = record i { cpu = record i.cpu { world = s } }

module _ {P : Type 0} ⦃outer : Outside P⦄ where
  unfoldable pub reset : IifxIop P → IifxIop P
  reset i =
      let s = asic i in
      record (with_asic
        (changed (record s {
          ram = replicate 0x8000 0;
          address = 0;
          status_bits = k_dma_inactive;
          reset_held = true;
          timer_latch = 0;
          timer_ticks = 2 ^ 64 - 1;
          timer_since_expiry = 0;
          dma1 = idle_channel;
          dma2 = idle_channel;
          scc_control = 0;
          io_control = 0;
          timer_dpll_control = 0;
          interrupt_mask = 0;
          interrupt_flags = 0;
          timer_expirations = 0;
          dma_transfers = 0;
        }))
        i) { cpu_phase = 0; cpu_cycles = 0; asic_phase = 0; dma_divider = 0 }

  -- The address after an access through the window.
  abbrev pub next_address : Asic P → Asic P
  next_address s =
      if has s.status_bits k_auto_inc then record s { address = u16 (s.address + 1) } else s

  unfoldable pub host_read : ℕ → Asic P → ℕ × Asic P
  host_read offset s =
      let reg = bit_and offset 0x3F in
      if ltb reg 2
      then (u8 (s.address >>> 8), s)
      else if ltb reg 4
      then (u8 s.address, s)
      else if ltb reg 8
      then (status s, s)
      else if ltb reg 12
      then (let (value, s') = cpu_read s.address s in (value, next_address s'))
      else if leb 0x20 reg && (ltb reg 0x24 && bypassed s)
      then read_outside (outer.bypass_read offset) s
      else (0xFF, s)

  -- The processor begins, or is held.
  unfoldable pub released : Bool → IifxIop P → IifxIop P
  released release i =
      let held =
        with_asic (record (asic i) { reset_held = not release }) (record i { cpu_phase = 0 }) in
      let begun = (R65c02.reset held.cpu).1 in
      if release
      then record held { cpu = record begun { world = update_cpu_irq begun.world } }
      else held

  unfoldable pub write_status : ℕ → IifxIop P → IifxIop P
  write_status value i0 =
      let release = has value k_run in
      let s = asic i0 in
      let i1 = with_asic (record s { status_bits = new_status value s.status_bits }) i0 in
      let i2 =
        if (if release then s.reset_held else not s.reset_held) then released release i1 else i1 in
      let i3 =
        if has value k_irq_to_iop && not (asic i2).reset_held
        then with_asic (set_interrupt host_interrupt (asic i2)) i2
        else i2 in
      with_asic (changed (asic i3)) i3

  unfoldable pub host_write : ℕ → ℕ → IifxIop P → IifxIop P
  host_write offset value i =
      let reg = bit_and offset 0x3F in
      let s = asic i in
      if ltb reg 2
      then with_asic (record s { address = high_byte s.address value }) i
      else if ltb reg 4
      then with_asic (record s { address = low_byte s.address value }) i
      else if ltb reg 8
      then write_status value i
      else if ltb reg 12
      then with_asic (next_address (cpu_write s.address value s)) i
      else if leb 0x20 reg && (ltb reg 0x24 && bypassed s)
      then with_asic (record s { outside = outer.bypass_write offset value s.outside }) i
      else i

  unfoldable pub set_peripheral_interrupt : Bool → Asic P → Asic P
  set_peripheral_interrupt level s =
      let s1 = record s {
        status_bits =
            if level
            then u8 (bit_or s.status_bits k_hardware_int)
            else u8 (bit_and s.status_bits (not8 k_hardware_int));
      } in
      changed (
        if bypassed s
        then s1
        else if level
        then set_interrupt peripheral_interrupt s1
        else clear_interrupt peripheral_interrupt s1)

  -- The end of a channel's transfer: the other one begins where it asks to.
  abbrev pub channel_done : ℕ → Asic P → Asic P
  channel_done index s =
      let c = channel index s in
      let s1 = with_channel index (record c { control = u8 (bit_and c.control (not8 0x01)) }) s in
      let other = channel (1 - index) s1 in
      let s2 =
        if has other.control 0x08
        then with_channel (1 - index) (record other { control = u8 (bit_or other.control 0x01) }) s1
        else s1 in
      set_interrupt (dma1_interrupt + index) s2

  -- The byte that a channel moves.
  unfoldable pub moved : DmaChannel → Asic P → Asic P
  moved c s =
      let peripheral = u8 (c.control >>> 4) in
      if has c.control 0x04
      then (let (v, s') = read_outside (outer.peripheral_read peripheral) s in cpu_write c.map v s')
      else (let (v, s') = cpu_read c.map s in
          record s' { outside = outer.peripheral_write peripheral v s'.outside })

  unfoldable pub dma_channel_beat : ℕ → Asic P → Asic P
  dma_channel_beat index s =
      let c = channel index s in
      let s1 = moved c s in
      let c1 = channel index s1 in
      let c2 = record c1 { map = u16 (c1.map + 1); count = u16 (c1.count + 65535) } in
      let s2 = record (with_channel index c2 s1) { dma_transfers = u64 (s1.dma_transfers + 1) } in
      if has c.control 0x01 && (c.request && c.count != 0)
      then (if c2.count == 0 then channel_done index s2 else s2)
      else s

  unfoldable pub dma_beat : Asic P → Asic P
  dma_beat s = dma_channel_beat 1 (dma_channel_beat 0 s)

  -- The loop on a timer that has run out, on fuel.
  unfoldable pub expire : ℕ → Asic P → Asic P
  expire zero s = s
  expire (suc fuel) s =
      let s1 =
        set_interrupt timer_interrupt
          (record s { timer_expirations = u64 (s.timer_expirations + 1) }) in
      let again =
        expire fuel (record s1 { timer_ticks = u64 (s.timer_ticks + (s.timer_latch + 2) * 8) }) in
      if s.timer_ticks == 0 || negative s.timer_ticks
      then (if has s.timer_dpll_control 1 then again else record s1 {
        timer_since_expiry = u64 (2 ^ 64 - s.timer_ticks);
        timer_ticks = 2 ^ 64 - 1;
      })
      else s

  -- A timer counts down by the ticks, at most 16 of which one round of the loop makes up for.
  unfoldable pub advance_timer : ℕ → Asic P → Asic P
  advance_timer ticks s =
      if negative s.timer_ticks
      then record s { timer_since_expiry = u64 (s.timer_since_expiry + ticks) }
      else expire (ticks / 16 + 1) (record s { timer_ticks = u64 (s.timer_ticks + 2 ^ 64 - ticks) })

  unfoldable pub dma_beats : ℕ → Asic P → Asic P
  dma_beats zero s = s
  dma_beats (suc n) s = dma_beats n (dma_beat s)

  unfoldable pub advance_asic : ℕ → IifxIop P → IifxIop P
  advance_asic ticks i =
      let total = u64 (i.dma_divider + ticks) in
      let s = dma_beats (total / 8) (advance_timer ticks (asic i)) in
      record (with_asic s i) { dma_divider = total % 8 }

  -- The loop on the instructions, on fuel.
  unfoldable pub run_cpu : ℕ → IifxIop P → IifxIop P
  run_cpu zero i = i
  run_cpu (suc fuel) i =
      let (used, cpu) = step (set_irq (asic i).irq_line i.cpu) in
      let rest = run_cpu fuel (record i {
        cpu = cpu;
        cpu_cycles = u64 (i.cpu_cycles + used);
        cpu_phase = spent used i.cpu_phase;
      }) in
      if runs i.cpu_phase then rest else i

  -- An instruction spends a whole cycle at least, so that the phase's cycles are rounds enough.
  unfoldable pub advance_cpu : ℕ → IifxIop P → IifxIop P
  advance_cpu main_cpu_cycles i =
      let phase = u64 (i.cpu_phase + main_cpu_cycles * k_iop_cpu_hz) in
      let i' = record i { cpu_phase = phase } in
      if (asic i).reset_held
      then i
      else run_cpu (if negative phase then 0 else phase / k_main_cpu_hz) i'

  unfoldable pub tick : ℕ → IifxIop P → IifxIop P
  tick main_cpu_cycles i0 =
      let phase = u64 (i0.asic_phase + main_cpu_cycles * k_pic_clock_hz) in
      let asic_ticks = phase / k_main_cpu_hz in
      let i1 = record i0 { asic_phase = phase % k_main_cpu_hz } in
      let i2 = if asic_ticks != 0 then advance_asic asic_ticks i1 else i1 in
      if main_cpu_cycles == 0 then i0 else advance_cpu main_cpu_cycles i2
