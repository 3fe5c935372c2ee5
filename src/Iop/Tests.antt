-- ===== src/Iop/Tests.antt =====
-- A controller with nothing around it, and the controller's theorems at it.
use open_mac_for_linux.Base.{
  ℕ, ◌+◌, false, [], ◌∷◌, length, replicate, length-replicate, ◌≡◌, refl, arith, inl,
}
use open_mac_for_linux.Iop.{Outside, Asic, program_bus}
use open_mac_for_linux.Iop.Machine.{IifxIop, asic, idle_channel, advance_cpu, advance_timer, expire}
use open_mac_for_linux.Iop.Clocks.{
  IsSettled, IsCounting, advance_cpu-IsSettled, advance_timer-IsCounting,
}
use open_mac_for_linux.Iop.Window.{seek, write_all, read_all, read_all-write_all}

-- Nothing outside but a count of the changes of the interrupt.
instance nothing : Outside ℕ
nothing = record {
  bypass_read = λ a p. (0xFF, p);
  bypass_write = λ a v p. p;
  peripheral_read = λ a p. (0, p);
  peripheral_write = λ a v p. p;
  gpio_read = λ p. (0, p);
  gpio_write = λ pin level p. p;
  on_interrupt_change = λ level p. p + 1;
  on_dma_write = λ index part value c1 c2 p. ([], p);
}

abbrev memory : Asic ℕ
memory = record {
  ram = replicate 0x8000 0;
  address = 0;
  status_bits = 0x82;
  reset_held = false;
  timer_latch = 100;
  timer_ticks = 812;
  timer_since_expiry = 0;
  dma1 = idle_channel;
  dma2 = idle_channel;
  scc_control = 0;
  io_control = 0;
  timer_dpll_control = 1;
  interrupt_mask = 0x3E;
  interrupt_flags = 0;
  irq_line = false;
  timer_expirations = 0;
  dma_transfers = 0;
  outside = 0;
}

abbrev controller : IifxIop ℕ
controller = record {
  cpu = record {
    a = 0;
    x = 0;
    y = 0;
    s = 0xFF;
    p = 0x24;
    pc = 0x400;
    waiting = false;
    stopped = false;
    irq = false;
    nmi_line = false;
    nmi_pending = false;
    instructions = 0;
    cycles = 0;
    world = memory;
  };
  cpu_phase = 0;
  cpu_cycles = 0;
  asic_phase = 0;
  dma_divider = 0;
}

advance_cpu-IsSettled_example : IsSettled (advance_cpu 1000 controller).cpu_phase
unfolding IsSettled
advance_cpu-IsSettled_example =
    advance_cpu-IsSettled 1000 controller (omega arith) (refl, inl (omega arith))

-- A timer with a period of 816 ticks, 812 of them to go: eleven periods end in 9000 ticks.
expirations : (advance_timer 9000 memory).timer_expirations ≡ 11
unfolding advance_timer expire
expirations = refl

filled : length memory.ram ≡ 0x8000
filled = let blank : ℕ = 0 in length-replicate 0x8000 blank

-- The timer at the end of that.
advance_timer-IsCounting_example : IsCounting (advance_timer 9000 memory).timer_ticks
unfolding IsCounting
advance_timer-IsCounting_example =
    advance_timer-IsCounting 9000 memory (omega arith) (omega arith)
      (inl (omega arith, omega arith))

read_all-write_all_example :
    (read_all 3 (asic (seek 0x300 (write_all (7 ∷ 8 ∷ 9 ∷ []) (seek 0x300 controller))))).0
    ≡ 7 ∷ 8 ∷ 9 ∷ []
read_all-write_all_example =
    read_all-write_all 0x300 (7 ∷ 8 ∷ 9 ∷ []) controller (omega arith) filled refl
